-- ===== src/Broker/Text.antt =====
-- Texts as the broker uses them: decimal numbers, `split(":", 1)`, dictionaries keyed by texts.
use Prim.Native.Char.{code}
use Prim.Native.String.{◌++◌}
use renesas_ra8m1_provisioni.Prelude.{
  ℕ, zero, suc, ◌/◌, ◌%◌, String, ◌≡◌, refl, Bool, Option, none, some, List, [], ◌∷◌, arith, ltb,
  ◌==◌, if◌then◌else◌, str_eq, str_eq_iff,
}

pub data ℤ : Type 0 where
  pos : ℕ → ℤ
  negsuc : ℕ → ℤ

-- The code points of a text.
abbrev pub codes : String → List ℕ
codes String.[] = []
codes (String.◌∷◌ c s) = code c ∷ codes s

abbrev digit : ℕ → String
digit d =
    if d == 0
    then "0"
    else if d == 1
    then "1"
    else if d == 2
    then "2"
    else if d == 3
    then "3"
    else if d == 4
    then "4"
    else if d == 5
    then "5"
    else if d == 6
    then "6"
    else if d == 7
    then "7"
    else if d == 8
    then "8"
    else "9"

-- `str(n)`; the fuel is the number itself, which has no more digits than that.
show_digits : ℕ → ℕ → String
show_digits zero n = digit n
show_digits (suc fuel) n =
    let front = show_digits fuel (n / 10) in if ltb n 10 then digit n else front ++ digit (n % 10)

unfoldable pub show_int : ℤ → String
unfolding show_digits
show_int (pos n) = show_digits n n
show_int (negsuc n) = "-" ++ show_digits (suc n) (suc n)

-- `s.split(":", 1)`, if it has two parts.
unfoldable pub split_colon : String → Option (String × String)
split_colon String.[] = none
split_colon (String.◌∷◌ c s) =
    if code c == b':'
    then some ("", s)
    else elim (split_colon s) [ none ↦ none | some (left, right) ↦ some (String.◌∷◌ c left, right) ]

unfoldable pub is_empty : String → Bool
is_empty s = str_eq s ""

-- A dictionary keyed by texts, in the order of insertion.
module _ {ℓ} {V : Type ℓ} where
  -- `d.get(k)`
  unfoldable pub lookup : String → List (String × V) → Option V
  lookup k [] = none
  lookup k ((j, v) ∷ d) = if str_eq j k then some v else lookup k d

  -- `d[k] = v`: the place of an old entry is kept.
  unfoldable pub insert : String → V → List (String × V) → List (String × V)
  insert k v [] = (k, v) ∷ []
  insert k v ((j, w) ∷ d) = if str_eq j k then (j, v) ∷ d else (j, w) ∷ insert k v d

  -- `del d[k]`
  unfoldable pub erase : String → List (String × V) → List (String × V)
  erase k [] = []
  erase k ((j, v) ∷ d) = if str_eq j k then d else (j, v) ∷ erase k d

  pub lookup-insert :
      (k j : String) (v : V) (d : List (String × V))
      → lookup j (insert k v d) ≡ (if str_eq k j then some v else lookup j d)
  unfolding lookup insert
  lookup-insert k j v [] = refl
  lookup-insert k j v ((i, w) ∷ d) =
      ground (arith, str_eq_iff k j, str_eq_iff i k, str_eq_iff i j, lookup-insert k j v d)
