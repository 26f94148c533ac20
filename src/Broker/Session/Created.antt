-- ===== src/Broker/Session/Created.antt =====
-- `create_session` of security/broker/service/session.py.
use mathlib.Core.Path.{subst}
use renesas_ra8m1_provisioni.Prelude.{
  ℕ, ◌+◌, ◌<◌, String, ◌≡◌, ◌≢◌, ap, ◌∙◌, inl, inr, none, some, List, [], ◌∷◌, ◌++◌, arith, leb,
  str_eq, str_eq_iff, Bool-cases, Option-cases, length, get_elem?, get_elem?-append_left,
  get_elem?-append_right, lt_of_get_elem?,
}
use renesas_ra8m1_provisioni.Broker.Text.{lookup, insert, lookup-insert}
use renesas_ra8m1_provisioni.Broker.Exn.{Result, ok}
use renesas_ra8m1_provisioni.Broker.Policy.{ClientIdentity}
use renesas_ra8m1_provisioni.Broker.Session.{
  closed, ClientSession, Limits, Manager, cleanup_expired, generate_session_id, new_session,
  with_session, add_session, create_session,
}
use renesas_ra8m1_provisioni.Broker.Session.Entries.{length-insert_fresh, insert_fresh-IsDistinct}
use renesas_ra8m1_provisioni.Broker.Session.Kept.{IsLive, IsValid, cleanup_expired-IsValid}
use renesas_ra8m1_provisioni.Broker.Session.Fresh.{
  generate_session_id_lem, AreDistinct, generate_session_id_returns,
}

-- The entry that a new session adds.
insert-IsLive :
    (m : Manager) (n : ClientSession) (j : String) (q : ℕ)
    → n.state ≢ closed
    → ((i : String) (r : ℕ) → lookup i m.sessions ≡ some r → IsLive m.objects i r)
    → lookup j (insert n.session_id (length m.objects) m.sessions) ≡ some q
    → IsLive (m.objects ++ (n ∷ [])) j q
insert-IsLive m n j q o v h = elim (Bool-cases (str_eq n.session_id j)) [
  | inl e ↦
      let k : q ≡ length m.objects + 0 =
        ground (arith, lookup-insert n.session_id j (length m.objects) m.sessions) in
      (
        n,
        rw k (get_elem?-append_right m.objects (n ∷ []) 0),
        ground (arith, str_eq_iff n.session_id j),
        o,
      )
  | inr e ↦
      let (s, f, i, k) =
        v j q (ground (arith, lookup-insert n.session_id j (length m.objects) m.sessions)) in
      (s, get_elem?-append_left m.objects (n ∷ []) q (lt_of_get_elem? m.objects q f) ∙ f, i, k)
]

with_session-IsValid :
    (l : Limits) (c : ClientIdentity) (now : ℕ) (id : String) (tokens : List String) (m : Manager)
    → IsValid l m
    → length m.sessions < l.max_sessions
    → lookup id m.sessions ≡ none
    → IsValid l (with_session c now id tokens m)
unfolding with_session
with_session-IsValid l c now id tokens m v h f = record {
  distinct = insert_fresh-IsDistinct id (length m.objects) m.sessions f v.distinct;
  live = λ j q e. insert-IsLive m (new_session c now id) j q (λ x. cc) v.live e;
  bounded = omega (arith, length-insert_fresh id (length m.objects) m.sessions f);
}

add_session-IsValid :
    (l : Limits) (c : ClientIdentity) (now : ℕ) (m : Manager) (r : Result ℕ) (n : Manager)
    → IsValid l m
    → length m.sessions < l.max_sessions
    → add_session c now m ≡ some (r, n)
    → IsValid l n
unfolding add_session
add_session-IsValid l c now m r n v h e =
    elim (Option-cases (generate_session_id m.sessions m.tokens)) [
      | inl g ↦ absurd (ground arith)
      | inr ((id, tokens), g) ↦
          let k : with_session c now id tokens m ≡ n = ground arith in
          subst (λ z. IsValid l z) k
            (with_session-IsValid l c now id tokens m v h
              (generate_session_id_lem m.sessions m.tokens id tokens g))
    ]

-- Creating a session keeps the invariant, whether it succeeds or raises an error.
pub create_session-IsValid :
    (l : Limits) (c : ClientIdentity) (now : ℕ) (m : Manager) (r : Result ℕ) (n : Manager)
    → IsValid l m
    → create_session l c now m ≡ some (r, n)
    → IsValid l n
unfolding create_session
create_session-IsValid l c now m r n v e =
    elim (Bool-cases (leb l.max_sessions (length m.sessions))) [
      | inr f ↦ add_session-IsValid l c now m r n v (ground arith) (ground arith)
      | inl f ↦
          let cleaned = (cleanup_expired l now m).1 in
          let w : IsValid l cleaned = cleanup_expired-IsValid l now m v in
          elim (Bool-cases (leb l.max_sessions (length cleaned.sessions))) [
            | inl g ↦ subst (λ z. IsValid l z) (ground arith) w
            | inr g ↦ add_session-IsValid l c now cleaned r n w (ground arith) (ground arith)
          ]
    ]

-- With fewer sessions than allowed and, among the tokens to come, more distinct ones than there are
-- sessions, a session is created: a new object in the state `created`, under an identifier that no
-- entry had, and the manager's next lookup of that identifier finds it.
pub create_session_returns :
    (l : Limits) (c : ClientIdentity) (now : ℕ) (m : Manager)
    → length m.sessions < l.max_sessions
    → AreDistinct m.tokens
    → length m.sessions < length m.tokens
    → (id : String) × (n : Manager) × (create_session l c now m ≡ some (ok (length m.objects), n))
      × (lookup id m.sessions ≡ none)
      × (lookup id n.sessions ≡ some (length m.objects))
      × (get_elem? n.objects (length m.objects) ≡ some (new_session c now id))
unfolding create_session add_session with_session
create_session_returns l c now m h a k =
    elim (Option-cases (generate_session_id m.sessions m.tokens)) [
      | inl e ↦ absurd (ground (arith, generate_session_id_returns m.sessions m.tokens a k))
      | inr ((id, tokens), e) ↦ (
        id,
        with_session c now id tokens m,
        ground arith,
        generate_session_id_lem m.sessions m.tokens id tokens e,
        ground (arith, lookup-insert id id (length m.objects) m.sessions, str_eq_iff id id),
        ground (
          arith,
          get_elem?-append_right m.objects (new_session c now id ∷ []) 0,
          ap (get_elem? (m.objects ++ (new_session c now id ∷ []))),
        ),
      )
    ]
