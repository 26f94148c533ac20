-- ===== src/Broker/Session/Cleanup.antt =====
-- `cleanup_expired` of security/broker/service/session.py.
use mathlib.Core.Path.{subst}
use renesas_ra8m1_provisioni.Prelude.{
  ℕ, String, ◌≡◌, refl, ap, ◌∙◌, inl, inr, true, false, none, some, List, [], ◌∷◌, arith, leb,
  if◌then◌else◌, str_eq, str_eq_iff, Bool-cases, Option-cases, ◌==◌, ==_iff, get_elem?,
}
use renesas_ra8m1_provisioni.Broker.Text.{lookup, erase}
use renesas_ra8m1_provisioni.Broker.Policy.{member}
use renesas_ra8m1_provisioni.Broker.Session.{
  ClientSession, close, Limits, Manager, update, modify, is_expired, close_session, is_expired_at,
  expired_ids, close_each, cleanup_expired,
}
use renesas_ra8m1_provisioni.Broker.Session.Entries.{
  IsDistinct, lookup-erase_ne, lookup-erase_self, erase-IsDistinct,
}
use renesas_ra8m1_provisioni.Broker.Session.Kept.{IsValid, get_elem?-update_ne}
use renesas_ra8m1_provisioni.Broker.Session.Changed.{get_elem?-update_self}

is_expired_at-close_self :
    (l : Limits) (now r : ℕ) (objects : List ClientSession)
    → is_expired_at l now (update close r objects) r ≡ is_expired_at l now objects r
unfolding is_expired_at is_expired update
is_expired_at-close_self l now r objects = elim (Option-cases (get_elem? objects r)) [
  | inl e ↦ rw (e, update) refl
  | inr (x, e) ↦
      rw (get_elem?-update_self close r objects x e, is_expired_at) (rw (e, is_expired_at) refl)
]

no_timeout :
    (l : Limits) (now r : ℕ) (objects : List ClientSession)
    → leb l.session_timeout 0 ≡ true
    → is_expired_at l now objects r ≡ false
unfolding is_expired_at is_expired
no_timeout l now r objects h = ground arith

-- Closing an object does not change when it expires.
is_expired_at-close :
    (l : Limits) (now r q : ℕ) (objects : List ClientSession)
    → is_expired_at l now (update close r objects) q ≡ is_expired_at l now objects q
unfolding is_expired_at is_expired
is_expired_at-close l now r q objects = elim (Bool-cases (r == q)) [
  | inr k ↦
      rw (get_elem?-update_ne close r q objects (ground (arith, ==_iff r q)), is_expired_at) refl
  | inl k ↦
      subst (λ p. is_expired_at l now (update close r objects) p ≡ is_expired_at l now objects p)
        ((==_iff r q).0 k) (is_expired_at-close_self l now r objects)
]

is_expired_at-close_session :
    (l : Limits) (now q : ℕ) (id : String) (m : Manager)
    → is_expired_at l now (close_session id m).1.objects q ≡ is_expired_at l now m.objects q
unfolding close_session modify
is_expired_at-close_session l now q id m = elim (Option-cases (lookup id m.sessions)) [
  | inl e ↦ rw (e, close_session) refl
  | inr (r, e) ↦ rw (e, close_session) (is_expired_at-close l now r q m.objects)
]

is_expired_at-close_each :
    (l : Limits) (now q : ℕ) (ids : List String) (m : Manager)
    → is_expired_at l now (close_each ids m).objects q ≡ is_expired_at l now m.objects q
unfolding close_each
is_expired_at-close_each l now q [] m = refl
is_expired_at-close_each l now q (id ∷ ids) m =
    is_expired_at-close_each l now q ids (close_session id m).1
    ∙ is_expired_at-close_session l now q id m

-- Closing a session removes its entry and no other.
lookup-close_session :
    (id j : String) (m : Manager)
    → IsDistinct m.sessions
    → lookup j (close_session id m).1.sessions ≡ (if str_eq id j then none else lookup j m.sessions)
unfolding close_session modify
lookup-close_session id j m d = elim (Option-cases (lookup id m.sessions)) [
  | inl e ↦ rw (e, close_session) (ground (arith, str_eq_iff id j, ap (λ z. lookup z m.sessions)))
  | inr (r, e) ↦
      rw (e, close_session)
        (ground (
          arith,
          str_eq_iff id j,
          lookup-erase_ne id j m.sessions,
          lookup-erase_self id m.sessions d,
          ap (λ z. lookup z (erase id m.sessions)),
        ))
]

close_session-IsDistinct :
    (id : String) (m : Manager) → IsDistinct m.sessions → IsDistinct (close_session id m).1.sessions
unfolding close_session modify
close_session-IsDistinct id m d = elim (Option-cases (lookup id m.sessions)) [
  | inl e ↦ rw (e, close_session) d
  | inr (r, e) ↦ rw (e, close_session) (erase-IsDistinct id m.sessions d)
]

lookup-close_each :
    (ids : List String) (j : String) (m : Manager)
    → IsDistinct m.sessions
    → lookup j (close_each ids m).sessions ≡ (if member j ids then none else lookup j m.sessions)
unfolding close_each member
lookup-close_each [] j m d = refl
lookup-close_each (id ∷ ids) j m d = ground (
  arith,
  lookup-close_each ids j (close_session id m).1 (close_session-IsDistinct id m d),
  lookup-close_session id j m d,
)

member-expired_ids :
    (l : Limits) (now r : ℕ) (j : String) (objects : List ClientSession) (d : List (String × ℕ))
    → lookup j d ≡ some r
    → is_expired_at l now objects r ≡ true
    → member j (expired_ids l now objects d) ≡ true
unfolding expired_ids lookup member
member-expired_ids l now r j objects [] h e = cc
member-expired_ids l now r j objects ((i, q) ∷ d) h e =
    ground (arith, member-expired_ids l now r j objects d, ap (is_expired_at l now objects))

closed_expired :
    (l : Limits) (now r : ℕ) (j : String) (m : Manager)
    → IsDistinct m.sessions
    → lookup j (close_each (expired_ids l now m.objects m.sessions) m).sessions ≡ some r
    → (lookup j m.sessions ≡ some r) × (is_expired_at l now m.objects r ≡ false)
closed_expired l now r j m d h =
    let ids = expired_ids l now m.objects m.sessions in
    let k = lookup-close_each ids j m d in
    let found : lookup j m.sessions ≡ some r = ground arith in
    (
      found,
      elim (Bool-cases (is_expired_at l now m.objects r)) [
        | inr e ↦ e
        | inl e ↦ absurd (ground (arith, member-expired_ids l now r j m.objects m.sessions found e))
      ],
    )

-- A session that the manager still has after the cleanup was there before it and is not expired.
pub cleanup_expired_lem :
    (l : Limits) (now r : ℕ) (j : String) (m : Manager)
    → IsValid l m
    → lookup j (cleanup_expired l now m).1.sessions ≡ some r
    → (lookup j m.sessions ≡ some r)
      × (is_expired_at l now (cleanup_expired l now m).1.objects r ≡ false)
unfolding cleanup_expired
cleanup_expired_lem l now r j m v h = elim (Bool-cases (leb l.session_timeout 0)) [
  | inl e ↦ rw (e, cleanup_expired) (ground (arith, no_timeout l now r m.objects e))
  | inr e ↦
      let ids = expired_ids l now m.objects m.sessions in
      let (found, alive) = closed_expired l now r j m v.distinct (ground arith) in
      (found, rw (e, cleanup_expired) (is_expired_at-close_each l now r ids m ∙ alive))
]
