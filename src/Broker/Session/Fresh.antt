-- ===== src/Broker/Session/Fresh.antt =====
-- `_generate_session_id` of security/broker/service/session.py.
use renesas_ra8m1_provisioni.Prelude.{
  ℕ, suc, ◌≤◌, ◌<◌, String, ◌≡◌, refl, ap, inl, inr, true, false, none, some, List, [], ◌∷◌, arith,
  str_eq_iff, Option-cases, is_some, length,
}
use renesas_ra8m1_provisioni.Broker.Text.{lookup, erase}
use renesas_ra8m1_provisioni.Broker.Policy.{member}
use renesas_ra8m1_provisioni.Broker.Session.{generate_session_id}
use renesas_ra8m1_provisioni.Broker.Session.Entries.{lookup-erase_ne}

pub generate_session_id_lem :
    (sessions : List (String × ℕ)) (tokens : List String) (id : String) (rest : List String)
    → generate_session_id sessions tokens ≡ some (id, rest)
    → lookup id sessions ≡ none
unfolding generate_session_id
generate_session_id_lem sessions [] id rest h = cc
generate_session_id_lem sessions (token ∷ tokens) id rest h =
    ground (arith, generate_session_id_lem sessions tokens id rest, ap (λ z. lookup z sessions))

abbrev pub AreDistinct : List String → Type 0
AreDistinct [] = Unit
AreDistinct (t ∷ ts) = (member t ts ≡ false) × AreDistinct ts

abbrev AreKeys : List String → List (String × ℕ) → Type 0
AreKeys [] d = Unit
AreKeys (t ∷ ts) d = (is_some (lookup t d) ≡ true) × AreKeys ts d

AreKeys-erase :
    (t : String) (ts : List String) (d : List (String × ℕ))
    → member t ts ≡ false
    → AreKeys ts d
    → AreKeys ts (erase t d)
unfolding member
AreKeys-erase t [] d h k = tt
AreKeys-erase t (u ∷ us) d h (k, ks) =
    (ground (arith, str_eq_iff u t, lookup-erase_ne t u d), AreKeys-erase t us d (ground arith) ks)

length-erase_key :
    (t : String) (d : List (String × ℕ))
    → is_some (lookup t d) ≡ true
    → suc (length (erase t d)) ≤ length d
unfolding lookup erase
length-erase_key t [] h = cc
length-erase_key t ((k, v) ∷ d) h = ground (arith, length-erase_key t d)

AreKeys-length :
    (ts : List String) (d : List (String × ℕ))
    → AreDistinct ts
    → AreKeys ts d
    → length ts ≤ length d
AreKeys-length [] d a k = omega arith
AreKeys-length (t ∷ ts) d (a, b) (k, ks) =
    omega
      (arith, length-erase_key t d k, AreKeys-length ts (erase t d) b (AreKeys-erase t ts d a ks))

generate_session_id-none :
    (sessions : List (String × ℕ)) (tokens : List String)
    → generate_session_id sessions tokens ≡ none
    → AreKeys tokens sessions
unfolding generate_session_id
generate_session_id-none sessions [] h = tt
generate_session_id-none sessions (t ∷ ts) h =
    (ground arith, generate_session_id-none sessions ts (ground arith))

-- Among more distinct tokens than there are sessions, the loop finds one.
pub generate_session_id_returns :
    (sessions : List (String × ℕ)) (tokens : List String)
    → AreDistinct tokens
    → length sessions < length tokens
    → is_some (generate_session_id sessions tokens) ≡ true
generate_session_id_returns sessions tokens a h =
    elim (Option-cases (generate_session_id sessions tokens)) [
      | inl e ↦ absurd (
          omega
            (arith, AreKeys-length tokens sessions a (generate_session_id-none sessions tokens e)))
      | inr (r, e) ↦ rw e refl
    ]
