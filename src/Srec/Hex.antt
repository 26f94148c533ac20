-- ===== src/Srec/Hex.antt =====
-- Hexadecimal texts as Python reads and prints them, of ASCII characters: `int(s, 16)`, `bytes.fromhex`,
-- `str.strip`, slices and the format of a number with zeros on the left.
pub mod Written
use renesas_ra8m1_provisioni.Prelude.{
  ℕ, zero, suc, ◌+◌, ◌-◌, ◌*◌, ◌/◌, ◌%◌, Bool, true, false, not, ◌&&◌, ◌||◌, Option, none, some,
  List, [], ◌∷◌, ◌++◌, ltb, leb, ◌==◌, if◌then◌else◌, take, drop,
}

infixl 1 ◌>>=◌
-- What follows an exception is not done.
abbrev pub ◌>>=◌ : {A B : Type 0} → Option A → (A → Option B) → Option B
none >>= f = none
some a >>= f = f a

abbrev in_chars : ℕ → ℕ → ℕ → Bool
in_chars low high c = leb low c && leb c high

-- `c.isspace()`
unfoldable pub is_space : ℕ → Bool
is_space c = in_chars 9 13 c || in_chars 28 32 c

lstrip : List ℕ → List ℕ
unfolding is_space
lstrip [] = []
lstrip (c ∷ cs) = let rest = lstrip cs in if is_space c then rest else c ∷ cs

rstrip : List ℕ → List ℕ
unfolding is_space
rstrip [] = []
rstrip (c ∷ cs) = elim (rstrip cs) [
  | [] ↦ (if is_space c then [] else c ∷ [])
  | d ∷ ds ↦ c ∷ d ∷ ds
]

-- `s.strip()`
unfoldable pub strip : List ℕ → List ℕ
unfolding lstrip rstrip
strip cs = rstrip (lstrip cs)

-- The value of a digit.
unfoldable pub nibble : ℕ → Option ℕ
nibble c =
    if in_chars b'0' b'9' c
    then some (c - b'0')
    else if in_chars b'A' b'F' c
    then some (c - 55)
    else if in_chars b'a' b'f' c
    then some (c - 87)
    else none

-- Digits, between which one underscore may stand; whether one has just been read.
digits : ℕ → Bool → List ℕ → Option ℕ
unfolding nibble
digits n read [] = if read then some n else none
digits n read (c ∷ cs) =
    let skipped = digits n false cs in
    elim (nibble c) [
      | some d ↦ digits (16 * n + d) true cs
      | none ↦ (if read && c == b'_' then skipped else none)
    ]

-- After `0x`, one underscore may stand.
after_prefix : List ℕ → Option ℕ
unfolding digits
after_prefix [] = none
after_prefix (c ∷ cs) = if c == b'_' then digits 0 false cs else digits 0 false (c ∷ cs)

unsigned : List ℕ → Option ℕ
unfolding digits after_prefix
unsigned (c ∷ d ∷ cs) =
    if c == b'0' && (d == b'x' || d == b'X') then after_prefix cs else digits 0 false (c ∷ d ∷ cs)
unsigned cs = digits 0 false cs

-- A number and whether it has a minus.
abbrev pub signed : Bool → Option ℕ → Option (Bool × ℕ)
signed negative none = none
signed negative (some n) = some (negative, n)

with_sign : List ℕ → Option (Bool × ℕ)
unfolding unsigned
with_sign [] = none
with_sign (c ∷ cs) =
    if c == b'-'
    then signed true (unsigned cs)
    else if c == b'+'
    then signed false (unsigned cs)
    else signed false (unsigned (c ∷ cs))

-- `int(s, 16)`; none is the `ValueError`.
unfoldable pub int16 : List ℕ → Option (Bool × ℕ)
unfolding with_sign strip
int16 cs = with_sign (strip cs)

abbrev pub pair : Option ℕ → Option ℕ → Option (List ℕ) → Option (List ℕ)
pair (some h) (some l) (some bs) = some ((16 * h + l) ∷ bs)
pair h l bs = none

-- `bytes.fromhex(s)`: blanks may stand between the bytes.
unfoldable pub from_hex : List ℕ → Option (List ℕ)
unfolding nibble
from_hex [] = some []
from_hex (c ∷ []) = if in_chars 9 13 c || c == 32 then some [] else none
from_hex (c ∷ d ∷ cs) =
    let blank = from_hex (d ∷ cs) in
    let byte = pair (nibble c) (nibble d) (from_hex cs) in
    if in_chars 9 13 c || c == 32 then blank else byte

abbrev pub hex_char : ℕ → ℕ
hex_char d = if ltb d 10 then b'0' + d else 55 + d

-- `data.hex().upper()`
unfoldable pub hex : List ℕ → List ℕ
hex [] = []
hex (b ∷ bs) = hex_char (b / 16) ∷ hex_char (b % 16) ∷ hex bs

-- The digits of a number that is not 0; the fuel is the number itself, which has no more digits.
hex_digits : ℕ → ℕ → List ℕ
hex_digits zero n = []
hex_digits (suc fuel) n =
    let front = hex_digits fuel (n / 16) in if n == 0 then [] else front ++ (hex_char (n % 16) ∷ [])

-- `f"{n:0wX}"`: at least w digits.
unfoldable pub to_hex : ℕ → ℕ → List ℕ
unfolding hex_digits
to_hex zero n = hex_digits n n
to_hex (suc w) n = to_hex w (n / 16) ++ (hex_char (n % 16) ∷ [])

-- The position that an index plus − minus means in a text of some length.
abbrev pub index : ℕ → ℕ → ℕ → ℕ
index len plus minus = if leb minus plus then plus - minus else len - (minus - plus)

-- `s[low:high]`
abbrev pub slice : ℕ → ℕ → List ℕ → List ℕ
slice low high cs = take (high - low) (drop low cs)
