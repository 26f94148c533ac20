-- ===== src/Broker/Session/Kept.antt =====
-- The invariant of the session manager, and its operations that close and look up sessions.
use renesas_ra8m1_provisioni.Prelude.{
  ℕ, ◌≤◌, String, ◌≡◌, ◌≢◌, refl, sym, ap, ◌∙◌, ◌⊎◌, inl, inr, true, false, none, some, List, [],
  ◌∷◌, arith, leb, str_eq, str_eq_iff, Bool-cases, Option-cases, length, get_elem?,
  get_elem?-set_ne,
}
use renesas_ra8m1_provisioni.Broker.Text.{lookup, erase}
use renesas_ra8m1_provisioni.Broker.Session.{
  closed, ClientSession, close, Limits, Manager, update, modify, close_session, is_expired_at,
  expired_ids, close_each, cleanup_expired, get_session, close_all,
}
use renesas_ra8m1_provisioni.Broker.Session.Entries.{
  IsDistinct, lookup-erase_ne, lookup-erase_self, erase-IsDistinct, length-erase,
}

-- A place holds a session with this identifier that is not closed.
abbrev pub IsLive : List ClientSession → String → ℕ → Type 0
IsLive objects session_id r =
    (s : ClientSession) × (get_elem? objects r ≡ some s)
    × (s.session_id ≡ session_id)
    × (s.state ≢ closed)

-- The identifiers are distinct, every entry is of a session of that identifier that is not closed, and
-- there are no more entries than allowed.
pub record IsValid (l : Limits) (m : Manager) : Type 0 where
  pub distinct : IsDistinct m.sessions
  pub live :
      (session_id : String) (r : ℕ)
      → lookup session_id m.sessions ≡ some r
      → IsLive m.objects session_id r
  pub bounded : length m.sessions ≤ l.max_sessions

pub get_elem?-update_ne :
    (f : ClientSession → ClientSession) (r q : ℕ) (objects : List ClientSession)
    → r ≢ q
    → get_elem? (update f r objects) q ≡ get_elem? objects q
unfolding update
get_elem?-update_ne f r q objects n = elim (Option-cases (get_elem? objects r)) [
  | inl e ↦ rw (e, update) refl
  | inr (s, e) ↦ rw (e, update) (get_elem?-set_ne objects r q (f s) n)
]

-- Another entry's object is another object.
live_ne :
    (objects : List ClientSession) (i j : String) (r q : ℕ)
    → IsLive objects i r
    → IsLive objects j q
    → i ≢ j
    → r ≢ q
live_ne objects i j r q (s, e, ei, es) (t, f, fj, ft) n h =
    ground (arith, ap (get_elem? objects) h, ap (λ (z : ClientSession). z.session_id))

erase-IsLive :
    (id j : String) (r q : ℕ) (m : Manager)
    → IsDistinct m.sessions
    → IsLive m.objects id r
    → (lookup j m.sessions ≡ some q → IsLive m.objects j q)
    → lookup j (erase id m.sessions) ≡ some q
    → IsLive (update close r m.objects) j q
erase-IsLive id j r q m d v w e = elim (Bool-cases (str_eq id j)) [
  | inl h ↦ absurd (
      ground (
        arith,
        str_eq_iff id j,
        ap (λ z. lookup z (erase id m.sessions)),
        lookup-erase_self id m.sessions d,
      ))
  | inr h ↦
      let n : id ≢ j = ground (arith, str_eq_iff id j) in
      let (s, f, i, k) = w (sym (lookup-erase_ne id j m.sessions n) ∙ e) in
      (
        s,
        get_elem?-update_ne close r q m.objects (live_ne m.objects id j r q v (s, f, i, k) n) ∙ f,
        i,
        k,
      )
]

drop_entry-IsValid :
    (l : Limits) (id : String) (r : ℕ) (m : Manager)
    → IsValid l m
    → lookup id m.sessions ≡ some r
    → IsValid l (record (modify close r m) { sessions = erase id m.sessions })
unfolding modify
drop_entry-IsValid l id r m v e = record {
  distinct = erase-IsDistinct id m.sessions v.distinct;
  live = λ j q. erase-IsLive id j r q m v.distinct (v.live id r e) (v.live j q);
  bounded = omega (arith, length-erase id m.sessions, v.bounded);
}

-- Closing a session keeps the invariant.
pub close_session-IsValid :
    (l : Limits) (session_id : String) (m : Manager)
    → IsValid l m
    → IsValid l (close_session session_id m).1
unfolding close_session
close_session-IsValid l session_id m v = elim (Option-cases (lookup session_id m.sessions)) [
  | inl e ↦ rw (e, close_session) v
  | inr (r, e) ↦ rw (e, close_session) (drop_entry-IsValid l session_id r m v e)
]

close_each-IsValid :
    (l : Limits) (ids : List String) (m : Manager) → IsValid l m → IsValid l (close_each ids m)
unfolding close_each
close_each-IsValid l [] m v = v
close_each-IsValid l (id ∷ ids) m v =
    close_each-IsValid l ids (close_session id m).1 (close_session-IsValid l id m v)

-- Removing the expired sessions keeps it.
pub cleanup_expired-IsValid :
    (l : Limits) (now : ℕ) (m : Manager) → IsValid l m → IsValid l (cleanup_expired l now m).1
unfolding cleanup_expired
cleanup_expired-IsValid l now m v = elim (Bool-cases (leb l.session_timeout 0)) [
  | inl e ↦ rw e v
  | inr e ↦ rw e (close_each-IsValid l (expired_ids l now m.objects m.sessions) m v)
]

-- Looking a session up keeps it.
pub get_session-IsValid :
    (l : Limits) (session_id : String) (now : ℕ) (m : Manager)
    → IsValid l m
    → IsValid l (get_session l session_id now m).1
unfolding get_session
get_session-IsValid l id now m v = elim (Option-cases (lookup id m.sessions)) [
  | inl e ↦ rw (e, get_session) v
  | inr (r, e) ↦ elim (Bool-cases (is_expired_at l now m.objects r)) [
    | inl x ↦ rw (e, get_session) (rw (x, get_session) (close_session-IsValid l id m v))
    | inr x ↦ rw (e, get_session) (rw (x, get_session) v)
  ]
]

-- Closing all sessions keeps it.
pub close_all-IsValid : (l : Limits) (m : Manager) → IsValid l m → IsValid l (close_all m).1
unfolding close_all lookup
close_all-IsValid l m v = record { distinct = tt; live = λ j q e. cc; bounded = omega arith }

close_session-dropped :
    (l : Limits) (session_id : String) (m : Manager)
    → IsValid l m
    → (lookup session_id (close_session session_id m).1.sessions ≡ none)
      × ((j : String)
          → session_id ≢ j
          → lookup j (close_session session_id m).1.sessions ≡ lookup j m.sessions)
unfolding close_session modify
close_session-dropped l id m v = elim (Option-cases (lookup id m.sessions)) [
  | inl e ↦ rw (e, close_session) (e, λ j n. refl)
  | inr (r, e) ↦
      rw (e, close_session)
        (lookup-erase_self id m.sessions v.distinct, λ j n. lookup-erase_ne id j m.sessions n)
]

-- In a valid manager a lookup either finds the identifier's object, which is of that identifier,
-- neither closed nor expired, and changes nothing; or it finds none, the identifier had no entry or an
-- expired one, it has no entry afterwards, and every other identifier keeps its own.
pub get_session_lem :
    (l : Limits) (session_id : String) (now : ℕ) (m : Manager)
    → IsValid l m
    → ((r : ℕ) × (get_session l session_id now m ≡ (some r, m))
        × (lookup session_id m.sessions ≡ some r)
        × IsLive m.objects session_id r
        × (is_expired_at l now m.objects r ≡ false))
      ⊎ (((get_session l session_id now m).0 ≡ none)
          × ((r : ℕ)
              → lookup session_id m.sessions ≡ some r
              → is_expired_at l now m.objects r ≡ true)
          × (lookup session_id (get_session l session_id now m).1.sessions ≡ none)
          × ((j : String)
              → session_id ≢ j
              → lookup j (get_session l session_id now m).1.sessions ≡ lookup j m.sessions))
unfolding get_session
get_session_lem l id now m v = elim (Option-cases (lookup id m.sessions)) [
  | inl e ↦ rw (e, get_session) (inr (refl, λ r i. cc, e, λ j n. refl))
  | inr (q, e) ↦ elim (Bool-cases (is_expired_at l now m.objects q)) [
    | inr x ↦ rw (e, get_session) (rw (x, get_session) (inl (q, refl, refl, v.live id q e, x)))
    | inl x ↦
        let (gone, others) = close_session-dropped l id m v in
        inr (
          ground arith,
          λ r i. ground (arith, ap (is_expired_at l now m.objects)),
          ground (arith, gone),
          λ j n. ground (arith, others j n),
        )
  ]
]
