-- ===== src/Broker/Base64.antt =====
-- `base64.b64encode` and `base64.b64decode` of Python's library, as the request handler uses them.
use Prim.Native.Char.{Char, code, nul}
use renesas_ra8m1_provisioni.Prelude.{
  ℕ, zero, suc, ◌+◌, ◌-◌, ◌*◌, ◌/◌, ◌%◌, String, Bool, true, false, ◌&&◌, Option, none, some, List,
  [], ◌∷◌, ltb, leb, ◌==◌, if◌then◌else◌,
}

char_of : ℕ → String → Char
char_of i String.[] = nul
char_of zero (String.◌∷◌ c s) = c
char_of (suc i) (String.◌∷◌ c s) = char_of i s

letter : ℕ → Char
unfolding char_of
letter v = char_of v "ABCDEFGHIJKLMNOPQRSTUVWXYZabcdefghijklmnopqrstuvwxyz0123456789+/"

abbrev pad : Char
pad = char_of 64 "ABCDEFGHIJKLMNOPQRSTUVWXYZabcdefghijklmnopqrstuvwxyz0123456789+/="

unfoldable pub encode : List ℕ → String
unfolding letter char_of
encode [] = ""
encode (a ∷ []) =
    String.◌∷◌ (letter (a / 4))
      (String.◌∷◌ (letter (a % 4 * 16)) (String.◌∷◌ pad (String.◌∷◌ pad "")))
encode (a ∷ b ∷ []) = String.◌∷◌ (letter (a / 4)) (
    String.◌∷◌ (letter (a % 4 * 16 + b / 16))
      (String.◌∷◌ (letter (b % 16 * 4)) (String.◌∷◌ pad "")))
encode (a ∷ b ∷ c ∷ rest) = String.◌∷◌ (letter (a / 4)) (
    String.◌∷◌ (letter (a % 4 * 16 + b / 16))
      (String.◌∷◌ (letter (b % 16 * 4 + c / 64)) (String.◌∷◌ (letter (c % 64)) (encode rest))))

-- The value of a letter; 64 for a character that is none.
value : ℕ → ℕ
value c =
    if leb b'A' c && leb c b'Z'
    then c - b'A'
    else if leb b'a' c && leb c b'z'
    then c - b'a' + 26
    else if leb b'0' c && leb c b'9'
    then c - b'0' + 52
    else if c == b'+'
    then 62
    else if c == b'/'
    then 63
    else 64

prepend : ℕ → Option (List ℕ) → Option (List ℕ)
prepend b none = none
prepend b (some bs) = some (b ∷ bs)

-- The decoder without validation: characters that are no letters are passed over, and padding ends the
-- input once the quad has two letters and enough pads. `none` is the `binascii.Error`.
decode_from : ℕ → ℕ → ℕ → String → Option (List ℕ)
unfolding value prepend
decode_from quad left pads String.[] = if quad == 0 then some [] else none
decode_from quad left pads (String.◌∷◌ ch s) =
    let c = code ch in
    let v = value c in
    let padded = decode_from quad left (if leb 2 quad then pads + 1 else pads) s in
    let skipped = decode_from quad left pads s in
    let first = decode_from 1 v 0 s in
    let second = prepend (left * 4 + v / 16) (decode_from 2 (v % 16) 0 s) in
    let third = prepend (left * 16 + v / 4) (decode_from 3 (v % 4) 0 s) in
    let fourth = prepend (left * 64 + v) (decode_from 0 0 0 s) in
    if c == b'='
    then (if leb 2 quad && leb 4 (quad + pads + 1) then some [] else padded)
    else if v == 64
    then skipped
    else if quad == 0
    then first
    else if quad == 1
    then second
    else if quad == 2
    then third
    else fourth

non_ascii : String → Bool
non_ascii String.[] = false
non_ascii (String.◌∷◌ c s) = let rest = non_ascii s in if ltb 127 (code c) then true else rest

-- A text with a character beyond ASCII is a `ValueError`.
unfoldable pub decode : String → Option (List ℕ)
unfolding decode_from non_ascii
decode s = if non_ascii s then none else decode_from 0 0 0 s
