-- ===== src/Broker/Glob/Matching.antt =====
-- What it means for a text to match a pattern, for the wildcards of security/broker/authorization.py.
use renesas_ra8m1_provisioni.Prelude.{
  ℕ, ◌≡◌, refl, ap, Bool, true, false, List, [], ◌∷◌, ◌++◌, ◌↔◌, String, arith, Bool-cases, inl,
  inr,
}
use renesas_ra8m1_provisioni.Broker.Text.{codes}
use renesas_ra8m1_provisioni.Broker.Glob.{Token, accepts, matches, translate, match_ignoring_case}

-- A text matches if it can be cut into one piece for each token: any piece for a star, one character
-- that the token accepts for any other.
pub data Matches (fold : Bool) : List Token → List ℕ → Type 0 where
  done : Matches fold [] []
  star :
      {ts : List Token} {s t : List ℕ} (u : List ℕ)
      → t ≡ u ++ s
      → Matches fold ts s
      → Matches fold (Token.star ∷ ts) t
  one :
      {ts : List Token} {s : List ℕ} (t : Token) (c : ℕ)
      → accepts fold t c ≡ true
      → Matches fold ts s
      → Matches fold (t ∷ ts) (c ∷ s)

star_more :
    (fold : Bool) (ts : List Token) (c : ℕ) (s : List ℕ)
    → Matches fold (Token.star ∷ ts) s
    → Matches fold (Token.star ∷ ts) (c ∷ s)
unfolding accepts
star_more fold ts c s (star u e m) = star (c ∷ u) (ap (λ t. c ∷ t) e) m
star_more fold ts c s (one t d h m) = cc

one_sound :
    (fold : Bool) (t : Token) (ts : List Token) (c : ℕ) (s : List ℕ)
    → (matches fold ts s ≡ true → Matches fold ts s)
    → ◌≡◌ {A = Bool} (elim (accepts fold t c) [ true ↦ matches fold ts s | false ↦ false ]) true
    → Matches fold (t ∷ ts) (c ∷ s)
one_sound fold t ts c s ih h = one t c (ground arith) (ih (ground arith))

star_sound :
    (fold : Bool) (ts : List Token) (c : ℕ) (s : List ℕ)
    → (matches fold ts (c ∷ s) ≡ true → Matches fold ts (c ∷ s))
    → (matches fold (Token.star ∷ ts) s ≡ true → Matches fold (Token.star ∷ ts) s)
    → matches fold (Token.star ∷ ts) (c ∷ s) ≡ true
    → Matches fold (Token.star ∷ ts) (c ∷ s)
unfolding matches
star_sound fold ts c s here later h = elim (Bool-cases (matches fold ts (c ∷ s))) [
  | inl e ↦ star [] refl (here e)
  | inr e ↦ star_more fold ts c s (later (ground arith))
]

matches_sound :
    (fold : Bool) (ts : List Token) (s : List ℕ) → matches fold ts s ≡ true → Matches fold ts s
unfolding matches
matches_sound fold [] [] h = done
matches_sound fold [] (c ∷ s) h = cc
matches_sound fold (Token.star ∷ ts) [] h = star [] refl (matches_sound fold ts [] h)
matches_sound fold (Token.star ∷ ts) (c ∷ s) h =
    star_sound fold ts c s (matches_sound fold ts (c ∷ s)) (matches_sound fold (Token.star ∷ ts) s)
      h
matches_sound fold (t ∷ ts) [] h = cc
matches_sound fold (t ∷ ts) (c ∷ s) h = one_sound fold t ts c s (matches_sound fold ts s) h

star_complete :
    (fold : Bool) (ts : List Token) (u s : List ℕ)
    → matches fold ts s ≡ true
    → matches fold (Token.star ∷ ts) (u ++ s) ≡ true
unfolding matches
star_complete fold ts [] [] h = h
star_complete fold ts [] (c ∷ s) h = ground arith
star_complete fold ts (c ∷ u) s h = ground (arith, star_complete fold ts u s h)

one_complete :
    (fold : Bool) (t : Token) (ts : List Token) (c : ℕ) (s : List ℕ)
    → accepts fold t c ≡ true
    → matches fold ts s ≡ true
    → matches fold (t ∷ ts) (c ∷ s) ≡ true
unfolding matches
one_complete fold Token.star ts c s h k = unfold accepts in cc
one_complete fold t ts c s h k = ground arith

matches_complete :
    (fold : Bool) {ts : List Token} {s : List ℕ} → Matches fold ts s → matches fold ts s ≡ true
matches_complete fold done = unfold matches in refl
matches_complete fold (star {ts = ts} {s = s} u e m) =
    rw e (star_complete fold ts u s (matches_complete fold m))
matches_complete fold (one {ts = ts} {s = s} t c h m) =
    one_complete fold t ts c s h (matches_complete fold m)

-- The pattern matches exactly if the key's name can be cut into one piece for each token of the
-- pattern, without regard to letter case: any piece for a `*`, one character for any other token.
pub match_ignoring_case_iff :
    (pattern text : String)
    → (match_ignoring_case pattern text ≡ true)
      ↔ Matches true (translate (codes pattern)) (codes text)
unfolding match_ignoring_case
match_ignoring_case_iff pattern text =
    (matches_sound true (translate (codes pattern)) (codes text), matches_complete true)
