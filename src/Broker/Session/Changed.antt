-- ===== src/Broker/Session/Changed.antt =====
-- Changes of a session object in place, and the invariant of the manager.
use renesas_ra8m1_provisioni.Prelude.{
  ℕ, String, ◌≡◌, ◌≢◌, sym, ap, ◌∙◌, inl, inr, some, List, arith, ◌==◌, ==_iff, Bool-cases,
  get_elem?, get_elem?-set_self, lt_of_get_elem?,
}
use renesas_ra8m1_provisioni.Broker.Session.{closed, ClientSession, Limits, Manager, update, modify}
use renesas_ra8m1_provisioni.Broker.Session.Kept.{IsLive, IsValid, get_elem?-update_ne}

-- The change keeps the identifier, and leaves an open session open.
abbrev pub IsHarmless : (ClientSession → ClientSession) → Type 0
IsHarmless f =
    (x : ClientSession)
    → ((f x).session_id ≡ x.session_id) × (x.state ≢ closed → (f x).state ≢ closed)

pub get_elem?-update_self :
    (f : ClientSession → ClientSession) (r : ℕ) (objects : List ClientSession) (x : ClientSession)
    → get_elem? objects r ≡ some x
    → get_elem? (update f r objects) r ≡ some (f x)
unfolding update
get_elem?-update_self f r objects x k =
    ground (arith, get_elem?-set_self objects r (f x) (lt_of_get_elem? objects r k))

update-IsLive :
    (f : ClientSession → ClientSession) (r : ℕ) (objects : List ClientSession) (id : String) (q : ℕ)
    → IsHarmless f
    → IsLive objects id q
    → IsLive (update f r objects) id q
update-IsLive f r objects id q h (x, e, i, o) = elim (Bool-cases (r == q)) [
  | inl k ↦
      let same : r ≡ q = (==_iff r q).0 k in
      (
        f x,
        ap (get_elem? (update f r objects)) (sym same)
            ∙ get_elem?-update_self f r objects x (ap (get_elem? objects) same ∙ e),
        (h x).0 ∙ i,
        (h x).1 o,
      )
  | inr k ↦ (x, get_elem?-update_ne f r q objects (ground (arith, ==_iff r q)) ∙ e, i, o)
]

pub modify-IsValid :
    (l : Limits) (f : ClientSession → ClientSession) (r : ℕ) (m : Manager)
    → IsHarmless f
    → IsValid l m
    → IsValid l (modify f r m)
unfolding modify
modify-IsValid l f r m h v = record {
  distinct = v.distinct;
  live = λ id q e. update-IsLive f r m.objects id q h (v.live id q e);
  bounded = v.bounded;
}
