-- ===== src/Srec/Hex/Written.antt =====
-- What the readers of security records make of hexadecimal texts that were written.
use mathlib.Core.List.{append_assoc}
use renesas_ra8m1_provisioni.Prelude.{
  ℕ, suc, ◌+◌, ◌*◌, ◌/◌, ◌%◌, ◌<◌, ◌≤◌, ◌≡◌, refl, ap, ◌∙◌, Bool, true, false, ◌&&◌, ◌||◌, some,
  List, [], ◌∷◌, ◌++◌, leb, ◌==◌, length, arith,
}
use renesas_ra8m1_provisioni.Srec.Hex.{
  is_space, lstrip, rstrip, strip, nibble, digits, unsigned, with_sign, int16, from_hex, hex_char,
  hex, hex_digits, to_hex, signed,
}

-- Bytes.
abbrev pub AreBytes : List ℕ → Type 0
AreBytes [] = Unit
AreBytes (b ∷ bs) = (b < 256) × AreBytes bs

nibble-hex_char : (d : ℕ) → d < 16 → nibble (hex_char d) ≡ some d
unfolding nibble
nibble-hex_char d h = ground arith

-- Neither a blank nor a sign nor an underscore.
hex_char_range : (d : ℕ) → d < 16 → (48 ≤ hex_char d) × (hex_char d < 71)
hex_char_range d h = ground arith

pub from_hex-hex : (bs : List ℕ) → AreBytes bs → from_hex (hex bs) ≡ some bs
unfolding from_hex hex
from_hex-hex [] h = refl
from_hex-hex (b ∷ bs) (h, hs) =
    let range = hex_char_range (b / 16) (omega arith) in
    let black : (leb 9 (hex_char (b / 16)) && leb (hex_char (b / 16)) 13 || hex_char (b / 16) == 32)
        ≡ false =
      ground (arith, range) in
    let value : 16 * (b / 16) + b % 16 ≡ b = omega arith in
    rw
      (
        black,
        nibble-hex_char (b / 16) (omega arith),
        nibble-hex_char (b % 16) (omega arith),
        from_hex-hex bs hs,
      )
      (ap (λ v. some (v ∷ bs)) value)

-- The number that bytes spell, after others.
abbrev pub value : ℕ → List ℕ → ℕ
value n [] = n
value n (b ∷ bs) = value (256 * n + b) bs

digits-digit :
    (n d : ℕ) (read : Bool) (cs : List ℕ)
    → d < 16
    → digits n read (hex_char d ∷ cs) ≡ digits (16 * n + d) true cs
unfolding digits
digits-digit n d read cs h = rw (nibble-hex_char d h, digits) refl

digits-byte :
    (n b : ℕ) (read : Bool) (bs : List ℕ)
    → b < 256
    → digits n read (hex (b ∷ bs)) ≡ digits (256 * n + b) true (hex bs)
unfolding hex
digits-byte n b read bs h =
    let both : 16 * (16 * n + b / 16) + b % 16 ≡ 256 * n + b = omega arith in
    digits-digit n (b / 16) read (hex_char (b % 16) ∷ hex bs) (omega arith)
    ∙ (digits-digit (16 * n + b / 16) (b % 16) true (hex bs) (omega arith)
        ∙ ap (λ v. digits v true (hex bs)) both)

digits-hex : (n : ℕ) (bs : List ℕ) → AreBytes bs → digits n true (hex bs) ≡ some (value n bs)
unfolding digits hex
digits-hex n [] h = refl
digits-hex n (b ∷ bs) (h, hs) = digits-byte n b true bs h ∙ digits-hex (256 * n + b) bs hs

unsigned-hex :
    (b : ℕ) (bs : List ℕ) → AreBytes (b ∷ bs) → unsigned (hex (b ∷ bs)) ≡ some (value 0 (b ∷ bs))
unfolding unsigned hex
unsigned-hex b bs (h, hs) =
    let range = hex_char_range (b % 16) (omega arith) in
    let plain : (hex_char (b / 16) == b'0'
          && (hex_char (b % 16) == b'x' || hex_char (b % 16) == b'X'))
        ≡ false =
      ground (arith, range) in
    rw plain (digits-byte 0 b false bs h ∙ digits-hex (256 * 0 + b) bs hs)

with_sign-hex :
    (b : ℕ) (bs : List ℕ)
    → AreBytes (b ∷ bs)
    → with_sign (hex (b ∷ bs)) ≡ some (false, value 0 (b ∷ bs))
unfolding with_sign hex
with_sign-hex b bs (h, hs) =
    let range = hex_char_range (b / 16) (omega arith) in
    let minus : (hex_char (b / 16) == b'-') ≡ false = ground (arith, range) in
    let plus : (hex_char (b / 16) == b'+') ≡ false = ground (arith, range) in
    rw (minus, plus) (ap (signed false) (unsigned-hex b bs (h, hs)))

-- No character is a blank.
abbrev pub AreBlack : List ℕ → Type 0
AreBlack [] = Unit
AreBlack (c ∷ cs) = (is_space c ≡ false) × AreBlack cs

rstrip-AreBlack : (cs : List ℕ) → AreBlack cs → rstrip cs ≡ cs
unfolding rstrip
rstrip-AreBlack [] h = refl
rstrip-AreBlack (c ∷ []) (h, hs) = rw h refl
rstrip-AreBlack (c ∷ d ∷ cs) (h, hs) = rw (rstrip-AreBlack (d ∷ cs) hs) refl

lstrip-AreBlack : (cs : List ℕ) → AreBlack cs → lstrip cs ≡ cs
unfolding lstrip
lstrip-AreBlack [] h = refl
lstrip-AreBlack (c ∷ cs) (h, hs) = rw h refl

pub strip-AreBlack : (cs : List ℕ) → AreBlack cs → strip cs ≡ cs
unfolding strip
strip-AreBlack cs h = ap rstrip (lstrip-AreBlack cs h) ∙ rstrip-AreBlack cs h

hex_char-black : (d : ℕ) → d < 16 → is_space (hex_char d) ≡ false
unfolding is_space
hex_char-black d h = ground (arith, hex_char_range d h)

pub hex-AreBlack : (bs : List ℕ) → AreBytes bs → AreBlack (hex bs)
unfolding hex
hex-AreBlack [] h = tt
hex-AreBlack (b ∷ bs) (h, hs) = (
  hex_char-black (b / 16) (omega arith),
  (hex_char-black (b % 16) (omega arith), hex-AreBlack bs hs),
)

pub int16-hex :
    (b : ℕ) (bs : List ℕ)
    → AreBytes (b ∷ bs)
    → int16 (hex (b ∷ bs)) ≡ some (false, value 0 (b ∷ bs))
unfolding int16
int16-hex b bs h =
    ap with_sign (strip-AreBlack (hex (b ∷ bs)) (hex-AreBlack (b ∷ bs) h)) ∙ with_sign-hex b bs h

pub hex-append : (xs ys : List ℕ) → hex (xs ++ ys) ≡ hex xs ++ hex ys
unfolding hex
hex-append [] ys = refl
hex-append (x ∷ xs) ys = ap (λ l. hex_char (x / 16) ∷ hex_char (x % 16) ∷ l) (hex-append xs ys)

pub length-hex : (bs : List ℕ) → length (hex bs) ≡ 2 * length bs
unfolding hex
length-hex [] = omega arith
length-hex (b ∷ bs) = omega (arith, length-hex bs)

-- Two digits are a byte.
to_hex-byte : (w n : ℕ) → to_hex (suc (suc w)) n ≡ to_hex w (n / 256) ++ hex ((n % 256) ∷ [])
unfolding to_hex hex
to_hex-byte w n =
    let quotient : n / 16 / 16 ≡ n / 256 = omega arith in
    let high : n / 16 % 16 ≡ n % 256 / 16 = omega arith in
    let low : n % 16 ≡ n % 256 % 16 = omega arith in
    rw (quotient, high, low) (append_assoc (to_hex w (n / 256)) _ _)

pub to_hex-count : (n : ℕ) → n < 256 → to_hex 2 n ≡ hex (n ∷ [])
unfolding to_hex hex_digits
to_hex-count n h =
    let none' : n / 256 ≡ 0 = omega arith in
    let same : n % 256 ≡ n = omega arith in
    to_hex-byte 0 n
    ∙ (ap (λ q. to_hex 0 q ++ hex ((n % 256) ∷ [])) none' ∙ ap (λ b. hex (b ∷ [])) same)

to_hex-half : (n : ℕ) → n < 65536 → to_hex 4 n ≡ hex (n / 256 ∷ n % 256 ∷ [])
unfolding hex
to_hex-half n h =
    to_hex-byte 2 n ∙ ap (λ l. l ++ hex ((n % 256) ∷ [])) (to_hex-count (n / 256) (omega arith))

-- The four bytes of an address.
abbrev pub address_bytes : ℕ → List ℕ
address_bytes n = n / 16777216 ∷ n / 65536 % 256 ∷ n / 256 % 256 ∷ n % 256 ∷ []

pub to_hex-address : (n : ℕ) → n < 4294967296 → to_hex 8 n ≡ hex (address_bytes n)
unfolding hex
to_hex-address n h =
    let two : n / 256 / 256 ≡ n / 65536 = omega arith in
    let three : n / 65536 / 256 ≡ n / 16777216 = omega arith in
    to_hex-byte 6 n
    ∙ ap (λ l. l ++ hex ((n % 256) ∷ []))
        (to_hex-byte 4 (n / 256)
          ∙ ap (λ l. l ++ hex ((n / 256 % 256) ∷ []))
              (ap (to_hex 4) two
                ∙ (to_hex-half (n / 65536) (omega arith)
                    ∙ ap (λ q. hex (q ∷ n / 65536 % 256 ∷ [])) three)))
