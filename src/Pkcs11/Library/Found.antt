-- ===== src/Pkcs11/Library/Found.antt =====
-- What `_get_session` of security/broker/pkcs11/lib.py finds after a method has run.
use renesas_ra8m1_provisioni.Prelude.{ℕ, ◌≡◌, ◌≢◌, refl, true, some, List, [], ◌∷◌, arith}
use renesas_ra8m1_provisioni.Pkcs11.Table.{lookup-insert}
use renesas_ra8m1_provisioni.Pkcs11.Types.{Ckr}
use renesas_ra8m1_provisioni.Pkcs11.Token.{Slot, get_session}
use renesas_ra8m1_provisioni.Pkcs11.Session as Session
use renesas_ra8m1_provisioni.Pkcs11.Library.{Library, find_session, put_session, in_session}

pub find-put :
    (h : ℕ) (s : Session.Session) (j : ℕ) (slots : List (ℕ × Slot))
    → j ≢ h
    → find_session j (put_session h s slots) ≡ find_session j slots
unfolding find_session put_session get_session
find-put h s j [] n = refl
find-put h s j ((id, t) ∷ slots) n =
    ground (arith, lookup-insert h j s t.sessions, find-put h s j slots n)

find-put_same :
    (h : ℕ) (s old : Session.Session) (slots : List (ℕ × Slot))
    → find_session h slots ≡ some old
    → find_session h (put_session h s slots) ≡ some s
unfolding find_session put_session get_session
find-put_same h s old [] e = cc
find-put_same h s old ((id, t) ∷ slots) e =
    ground (arith, lookup-insert h h s t.sessions, find-put_same h s old slots)

-- A function on a session of an initialized library that has it runs the method on its object, and on no other.
pub in_session_lem :
    {A B : Type 0} (fail : Ckr → A) (h : ℕ) (method : Session.Session → B → A × Session.Session × B)
    (l : Library) (b : B) (s : Session.Session)
    → l.initialized ≡ true
    → find_session h l.slots ≡ some s
    → ((in_session fail h method l b).0 ≡ (method s b).0)
      × ((in_session fail h method l b).2 ≡ (method s b).2)
      × (find_session h (in_session fail h method l b).1.slots ≡ some (method s b).1)
      × ((j : ℕ)
          → j ≢ h
          → find_session j (in_session fail h method l b).1.slots ≡ find_session j l.slots)
unfolding in_session
in_session_lem fail h method l b s i e =
    rw (i, e, in_session)
      (
        refl,
        refl,
        find-put_same h (method s b).1 s l.slots e,
        λ j n. find-put h (method s b).1 j l.slots n,
      )
