-- ===== src/Pkcs11/Library/Slots.antt =====
-- What the methods of `Slot` in security/broker/pkcs11/token.py keep.
use mathlib.Core.Path.{subst}
use renesas_ra8m1_provisioni.Prelude.{
  ℕ, suc, ◌≤◌, ◌≡◌, some, [], inl, inr, arith, Option-cases, Bool-cases, String,
}
use renesas_ra8m1_provisioni.Pkcs11.Table.{
  lookup, insert, insert_cases, lookup-erase, AreAscending, AreAscending-le, AreAscending-insert,
  AreAscending-replace, AreAscending-erase,
}
use renesas_ra8m1_provisioni.Pkcs11.Types.{Ckr, has_flag, serial_session}
use renesas_ra8m1_provisioni.Broker.Json.{Fields}
use renesas_ra8m1_provisioni.Pkcs11.Token as Token
use renesas_ra8m1_provisioni.Pkcs11.Token.{Slot, get_session, new_slot}
use renesas_ra8m1_provisioni.Pkcs11.Session as Session
use renesas_ra8m1_provisioni.Pkcs11.Session.{Broker}
use renesas_ra8m1_provisioni.Pkcs11.Session.Calls.Valid.{IsValid, new_session-IsValid}
use renesas_ra8m1_provisioni.Pkcs11.Library.{opened}

-- The handles of a slot's sessions ascend and are below the next one, and each session is valid.
pub record IsSlot (t : Slot) : Type 0 where
  pub handles : AreAscending 1 t.next_session_handle t.sessions
  pub valid : (h : ℕ) (s : Session.Session) → lookup h t.sessions ≡ some s → IsValid s

-- A slot after a method on it, which hands out no handle twice.
pub record KeptSlot (t t' : Slot) : Type 0 where
  pub slot : IsSlot t'
  pub next : t.next_session_handle ≤ t'.next_session_handle

pub KeptSlot-put :
    (h : ℕ) (s old : Session.Session) (t : Slot)
    → IsSlot t
    → lookup h t.sessions ≡ some old
    → IsValid s
    → KeptSlot t (record t { sessions = insert h s t.sessions })
KeptSlot-put h s old t k e v = record {
  slot = record {
    handles = AreAscending-replace 1 t.next_session_handle h old s t.sessions k.handles e;
    valid = λ j z i. elim (insert_cases h j s z t.sessions i) [
      | inl q ↦ subst IsValid q v
      | inr q ↦ k.valid j z q
    ];
  };
  next = omega arith;
}

pub KeptSlot-close : (h : ℕ) (t : Slot) → IsSlot t → KeptSlot t (Token.close_session h t).1
unfolding Token.close_session
KeptSlot-close h t k = elim (Option-cases (lookup h t.sessions)) [
  | inl e ↦ rw (e, Token.close_session) (record { slot = k; next = omega arith })
  | inr (s, e) ↦
      rw (e, Token.close_session)
        (record {
          slot = record {
            handles = AreAscending-erase 1 t.next_session_handle h t.sessions k.handles;
            valid = λ j z i.
                k.valid j z (lookup-erase 1 t.next_session_handle h j z t.sessions k.handles i);
          };
          next = omega arith;
        })
]

pub KeptSlot-add :
    (flags : ℕ) (id : String) (t : Slot) → IsSlot t → KeptSlot t (Token.add_session flags id t).1
unfolding Token.add_session
KeptSlot-add flags id t k =
    let new = Session.new_session t.next_session_handle t.slot_id flags id in
    record {
      slot = record {
        handles = AreAscending-insert 1 t.next_session_handle new t.sessions k.handles;
        valid = λ j z i. elim (insert_cases t.next_session_handle j new z t.sessions i) [
          | inl q ↦ subst IsValid q (new_session-IsValid t.next_session_handle t.slot_id flags id)
          | inr q ↦ k.valid j z q
        ];
      };
      next = omega arith;
    }

pub KeptSlot-refl : (t : Slot) → IsSlot t → KeptSlot t t
KeptSlot-refl t k = record { slot = k; next = omega arith }

pub KeptSlot-open :
    {B : Type 0} (broker : Broker B) (flags : ℕ) (t : Slot) (b : B)
    → IsSlot t
    → KeptSlot t (Token.open_session broker flags t b).1
unfolding Token.open_session
KeptSlot-open broker flags t b k = elim (Bool-cases (has_flag serial_session flags)) [
  | inr e ↦ rw (e, Token.open_session) (KeptSlot-refl t k)
  | inl e ↦ elim (Option-cases (Token.session_id_of (broker "open_session" Fields.end b).0)) [
    | inl i ↦ rw (e, i, Token.open_session) (KeptSlot-refl t k)
    | inr (id, i) ↦ rw (e, i, Token.open_session) (KeptSlot-add flags id t k)
  ]
]

nothing : {V : Type 0} (h : ℕ) (v : V) → ¬ (lookup h [] ≡ some v)
unfolding lookup
nothing h v e = cc

pub open_session_ok :
    {B : Type 0} (broker : Broker B) (flags h : ℕ) (t : Slot) (b : B)
    → opened (Token.open_session broker flags t b).0 ≡ (Ckr.ok, h)
    → (h ≡ t.next_session_handle)
      × ((Token.open_session broker flags t b).1.next_session_handle ≡ suc t.next_session_handle)
unfolding Token.open_session Token.add_session Session.new_session
open_session_ok broker flags h t b o = elim (Bool-cases (has_flag serial_session flags)) [
  | inr e ↦ ground arith
  | inl e ↦ elim (Option-cases (Token.session_id_of (broker "open_session" Fields.end b).0)) [
    | inl i ↦ ground arith
    | inr (id, i) ↦ ground arith
  ]
]

pub KeptSlot-close_all : (t : Slot) → IsSlot t → KeptSlot t (Token.close_all_sessions t).1
unfolding Token.close_all_sessions
KeptSlot-close_all t k = record {
  slot = record {
    handles = AreAscending-le 1 t.next_session_handle t.sessions k.handles;
    valid = λ h s e. absurd (nothing h s e);
  };
  next = omega arith;
}

pub new_slot-IsSlot : IsSlot (new_slot 0)
unfolding new_slot
new_slot-IsSlot = record { handles = omega arith; valid = λ h s e. absurd (nothing h s e) }
