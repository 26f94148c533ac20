-- ===== src/Broker/Glob.antt =====
-- Wildcard patterns: what security/broker/authorization.py uses of `fnmatch.translate`, `re.match` with
-- `IGNORECASE`, and `fnmatch.fnmatch`, of Python's library. Letter case is that of ASCII.
pub mod Matching
use renesas_ra8m1_provisioni.Prelude.{
  ℕ, zero, suc, ◌+◌, ◌-◌, String, Bool, true, false, not, ◌&&◌, ◌||◌, Option, none, some, List, [],
  ◌∷◌, map, leb, ◌==◌, if◌then◌else◌, length,
}
use renesas_ra8m1_provisioni.Broker.Text.{codes}

-- `*`, `?`, a character, and `[...]` with its ranges, or `[!...]`.
pub data Token : Type 0 where
  star any : Token
  lit : ℕ → Token
  set : Bool → List (ℕ × ℕ) → Token

unfoldable pub lower : ℕ → ℕ
lower c = if leb b'A' c && leb c b'Z' then c + 32 else c

unfoldable pub upper : ℕ → ℕ
upper c = if leb b'a' c && leb c b'z' then c - 32 else c

-- The members of a set: `c-d` is a range, which is empty if it descends.
ranges : List ℕ → List (ℕ × ℕ)
ranges (c ∷ m ∷ d ∷ rest) =
    let range = (c, d) ∷ ranges rest in
    let single = (c, c) ∷ ranges (m ∷ d ∷ rest) in if m == b'-' then range else single
ranges (c ∷ rest) = (c, c) ∷ ranges rest
ranges [] = []

-- The characters up to the next `]`, and what follows it.
up_to_close : List ℕ → Option (List ℕ × List ℕ)
up_to_close [] = none
up_to_close (c ∷ s) =
    let rest = up_to_close s in
    if c == b']'
    then some ([], s)
    else elim rest [ none ↦ none | some (stuff, after) ↦ some (c ∷ stuff, after) ]

-- A `]` that stands first is a member.
members : List ℕ → Option (List ℕ × List ℕ)
unfolding up_to_close
members [] = none
members (c ∷ s) =
    if c == b']'
    then elim (up_to_close s) [ none ↦ none | some (stuff, after) ↦ some (c ∷ stuff, after) ]
    else up_to_close (c ∷ s)

negated : Bool → Option (List ℕ × List ℕ) → Option (Bool × List ℕ × List ℕ)
negated n none = none
negated n (some (stuff, after)) = some (n, stuff, after)

set_body : List ℕ → Option (Bool × List ℕ × List ℕ)
unfolding members negated
set_body [] = none
set_body (c ∷ s) = if c == b'!' then negated true (members s) else negated false (members (c ∷ s))

-- The fuel is the length of the pattern: each round takes a character or more.
translate_from : ℕ → List ℕ → List Token
unfolding set_body ranges
translate_from zero pat = []
translate_from (suc fuel) [] = []
translate_from (suc fuel) (c ∷ s) =
    let rest = translate_from fuel s in
    let bracket : List Token = elim (set_body s) [
      | none ↦ Token.lit c ∷ translate_from fuel s
      | some (n, stuff, after) ↦ Token.set n (ranges stuff) ∷ translate_from fuel after
    ] in
    if c == b'*'
    then Token.star ∷ rest
    else if c == b'?'
    then Token.any ∷ rest
    else if c == b'['
    then bracket
    else Token.lit c ∷ rest

unfoldable pub translate : List ℕ → List Token
unfolding translate_from
translate pat = translate_from (length pat) pat

unfoldable pub in_ranges : List (ℕ × ℕ) → ℕ → Bool
in_ranges [] c = false
in_ranges ((lo, hi) ∷ rs) c = (leb lo c && leb c hi) || in_ranges rs c

-- Does a token that stands for one character accept the character? `fold` is `IGNORECASE`.
unfoldable pub accepts : Bool → Token → ℕ → Bool
unfolding in_ranges lower upper
accepts fold Token.star c = false
accepts fold Token.any c = true
accepts true (Token.lit d) c = lower c == lower d
accepts false (Token.lit d) c = c == d
accepts true (Token.set n rs) c =
    let found = in_ranges rs (lower c) || in_ranges rs (upper c) in if n then not found else found
accepts false (Token.set n rs) c = if n then not (in_ranges rs c) else in_ranges rs c

unfoldable pub matches : Bool → List Token → List ℕ → Bool
unfolding accepts
matches fold [] [] = true
matches fold [] (c ∷ s) = false
matches fold (Token.star ∷ ts) [] = matches fold ts []
matches fold (Token.star ∷ ts) (c ∷ s) = elim (matches fold ts (c ∷ s)) [
  | true ↦ true
  | false ↦ matches fold (Token.star ∷ ts) s
]
matches fold (t ∷ ts) [] = false
matches fold (t ∷ ts) (c ∷ s) = elim (accepts fold t c) [ true ↦ matches fold ts s | false ↦ false ]

-- The operating system, by which `os.path.normcase` differs.
pub data Host : Type 0 where
  posix windows : Host

unfoldable pub normcase : Host → List ℕ → List ℕ
unfolding lower
normcase Host.posix s = s
normcase Host.windows s = map (λ c. if c == b'/' then b'\\' else lower c) s

-- `bool(re.match(fnmatch.translate(pattern), arn, re.IGNORECASE))`
unfoldable pub match_ignoring_case : String → String → Bool
unfolding translate matches
match_ignoring_case pattern text = matches true (translate (codes pattern)) (codes text)

-- `fnmatch.fnmatch(name, pattern)`
unfoldable pub fnmatch : Host → String → String → Bool
unfolding translate matches normcase
fnmatch host name pattern =
    matches false (translate (normcase host (codes pattern))) (normcase host (codes name))
