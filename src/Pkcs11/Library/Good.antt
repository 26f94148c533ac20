-- ===== src/Pkcs11/Library/Good.antt =====
-- The invariant of security/broker/pkcs11/lib.py: its one slot, and the sessions in it.
use mathlib.Core.Path.{subst}
use renesas_ra8m1_provisioni.Prelude.{
  ℕ, suc, ◌≤◌, ◌≡◌, refl, sym, ap, ◌∙◌, Bool, true, false, List, [], ◌∷◌, inl, inr, arith,
  Option-cases, Bool-cases, ◌==◌, ◌⊎◌,
}
use renesas_ra8m1_provisioni.Pkcs11.Table.{lookup, insert}
use renesas_ra8m1_provisioni.Pkcs11.Types.{Ckr}
use renesas_ra8m1_provisioni.Pkcs11.Token as Token
use renesas_ra8m1_provisioni.Pkcs11.Token.{Slot, get_session, new_slot}
use renesas_ra8m1_provisioni.Pkcs11.Session as Session
use renesas_ra8m1_provisioni.Pkcs11.Session.{Broker}
use renesas_ra8m1_provisioni.Pkcs11.Session.Calls.Valid.{IsValid}
use renesas_ra8m1_provisioni.Pkcs11.Library.{
  Link, Library, find_session, put_session, close_first, in_session, in_slot, c_initialize,
  c_finalize, c_open_session, c_close_session, c_close_all_sessions, opened,
}
use renesas_ra8m1_provisioni.Pkcs11.Library.Slots.{
  IsSlot, KeptSlot, KeptSlot-put, KeptSlot-close, KeptSlot-open, KeptSlot-close_all,
  open_session_ok, new_slot-IsSlot,
}

abbrev pub AreSlots : Bool → List (ℕ × Slot) → Type 0
AreSlots false slots = slots ≡ []
AreSlots true slots = (t : Slot) × (slots ≡ (0, t) ∷ []) × IsSlot t

-- An initialized library has the slot 0 alone, and another one none.
abbrev pub IsGood : Library → Type 0
IsGood l = AreSlots l.initialized l.slots

-- The handle that the next session gets.
unfoldable pub next_handle : List (ℕ × Slot) → ℕ
next_handle [] = 1
next_handle ((id, t) ∷ slots) = t.next_session_handle

-- The library is as it should be, and no handle is free that was not free before.
pub record Kept (l l' : Library) : Type 0 where
  pub good : IsGood l'
  pub next : next_handle l.slots ≤ next_handle l'.slots

pub IsGood-cases :
    (l : Library)
    → IsGood l
    → (l.initialized ≡ false)
      ⊎ ((l.initialized ≡ true) × (t : Slot) × (l.slots ≡ (0, t) ∷ []) × IsSlot t)
IsGood-cases l g = elim (Bool-cases l.initialized) [
  | inr e ↦ inl e
  | inl e ↦ let (t, i, k) = subst (λ i. AreSlots i l.slots) e g in inr (e, t, i, k)
]

Kept-refl : (l : Library) → IsGood l → Kept l l
Kept-refl l g = record { good = g; next = omega arith }

Kept-one :
    (l : Library) (t t' : Slot)
    → l.initialized ≡ true
    → l.slots ≡ (0, t) ∷ []
    → KeptSlot t t'
    → Kept l (record l { slots = (0, t') ∷ [] })
unfolding next_handle
Kept-one l t t' e i k = record {
  good = subst (λ z. AreSlots z ((0, t') ∷ [])) (sym e) (t', refl, k.slot);
  next = subst (λ z. next_handle z ≤ t'.next_session_handle) (sym i) k.next;
}

close-one :
    (h id : ℕ) (t : Slot)
    → (close_first h ((id, t) ∷ [])).1 ≡ (id, (Token.close_session h t).1) ∷ []
unfolding close_first get_session Token.close_session
close-one h id t = ground arith

-- A method on the slot keeps the library, if it keeps the slot.
pub in_slot-Kept :
    {A B : Type 0} (fail : Ckr → A) (slot_id : ℕ) (method : Slot → B → A × Slot × B) (l : Library)
    (b : B)
    → IsGood l
    → ((t : Slot) → IsSlot t → KeptSlot t (method t b).1)
    → Kept l (in_slot fail slot_id method l b).1
unfolding in_slot lookup insert
in_slot-Kept fail slot_id method l b g keeps = elim (IsGood-cases l g) [
  | inl e ↦
      let same : (in_slot fail slot_id method l b).1 ≡ l = ground arith in
      subst (Kept l) (sym same) (Kept-refl l g)
  | inr (e, t, i, k) ↦ elim (Bool-cases (0 == slot_id)) [
    | inr n ↦
        let same : (in_slot fail slot_id method l b).1 ≡ l = simp (e, i, n, in_slot) in
        subst (Kept l) (sym same) (Kept-refl l g)
    | inl z ↦
        let changed : (in_slot fail slot_id method l b).1
            ≡ record l { slots = (0, (method t b).1) ∷ [] } =
          simp (e, i, z, in_slot, insert) in
        subst (Kept l) (sym changed) (Kept-one l t (method t b).1 e i (keeps t k))
  ]
]

pub in_session-Kept :
    {A B : Type 0} (fail : Ckr → A) (h : ℕ) (method : Session.Session → B → A × Session.Session × B)
    (l : Library) (b : B)
    → IsGood l
    → ((s : Session.Session) → IsValid s → IsValid (method s b).1)
    → Kept l (in_session fail h method l b).1
unfolding in_session find_session put_session get_session
in_session-Kept fail h method l b g keeps = elim (IsGood-cases l g) [
  | inl e ↦
      let same : (in_session fail h method l b).1 ≡ l = ground arith in
      subst (Kept l) (sym same) (Kept-refl l g)
  | inr (e, t, i, k) ↦ elim (Option-cases (lookup h t.sessions)) [
    | inl n ↦
        let same : (in_session fail h method l b).1 ≡ l = simp (e, i, n, in_session) in
        subst (Kept l) (sym same) (Kept-refl l g)
    | inr (s, z) ↦
        let changed : (in_session fail h method l b).1 ≡ record l {
          slots = (0, record t { sessions = insert h (method s b).1 t.sessions }) ∷ [];
        } =
          simp (e, i, z, in_session) in
        subst (Kept l) (sym changed)
          (Kept-one l t _ e i (KeptSlot-put h (method s b).1 s t k z (keeps s (k.valid h s z))))
  ]
]

module _ {B : Type 0} (link : Link B) where
  pub c_open_session-Kept :
      (slot_id flags : ℕ) (l : Library) (b : B)
      → IsGood l
      → Kept l (c_open_session link slot_id flags l b).1
  unfolding c_open_session
  c_open_session-Kept slot_id flags l b g =
      in_slot-Kept (λ rv. (rv, 0)) slot_id
        (λ t b. let r = Token.open_session link.ask flags t b in (opened r.0, r.1, r.2)) l b g
        (λ t k. KeptSlot-open link.ask flags t b k)

  -- A handle that `C_OpenSession` returns is the next one.
  pub c_open_session_ok :
      (slot_id flags h : ℕ) (l : Library) (b : B)
      → IsGood l
      → (c_open_session link slot_id flags l b).0 ≡ (Ckr.ok, h)
      → (h ≡ next_handle l.slots)
        × (next_handle (c_open_session link slot_id flags l b).1.slots ≡ suc h)
  unfolding c_open_session next_handle
  c_open_session_ok slot_id flags h l b g o = elim (IsGood-cases l g) [
    | inl e ↦
        let f : (c_open_session link slot_id flags l b).0 ≡ (Ckr.cryptoki_not_initialized, 0) =
          simp (e, c_open_session, in_slot) in
        ground arith
    | inr (e, t, i, k) ↦ elim (Bool-cases (0 == slot_id)) [
      | inr n ↦
          let f : (c_open_session link slot_id flags l b).0 ≡ (Ckr.slot_id_invalid, 0) =
            simp (e, i, n, c_open_session, in_slot) in
          ground arith
      | inl z ↦
          let opened_one = Token.open_session link.ask flags t b in
          let f : (c_open_session link slot_id flags l b).0 ≡ opened opened_one.0 =
            simp (e, i, z, c_open_session, in_slot) in
          let changed : (c_open_session link slot_id flags l b).1.slots ≡ (0, opened_one.1) ∷ [] =
            simp (e, i, z, c_open_session, in_slot, insert) in
          let one = open_session_ok link.ask flags h t b (sym f ∙ o) in
          (one.0 ∙ sym (ap next_handle i), ap next_handle changed ∙ (one.1 ∙ ap suc (sym one.0)))
    ]
  ]

  pub c_close_all_sessions-Kept :
      (slot_id : ℕ) (l : Library) (b : B)
      → IsGood l
      → Kept l (c_close_all_sessions link slot_id l b).1
  unfolding c_close_all_sessions
  c_close_all_sessions-Kept slot_id l b g =
      in_slot-Kept (λ rv. rv) slot_id (λ t b. let r = Token.close_all_sessions t in (r.0, r.1, b)) l
        b g (λ t k. KeptSlot-close_all t k)

  pub c_close_session-Kept :
      (h : ℕ) (l : Library) (b : B) → IsGood l → Kept l (c_close_session link h l b).1
  unfolding c_close_session close_first get_session
  c_close_session-Kept h l b g = elim (IsGood-cases l g) [
    | inl e ↦
        let same : (c_close_session link h l b).1 ≡ l = ground arith in
        subst (Kept l) (sym same) (Kept-refl l g)
    | inr (e, t, i, k) ↦
        let changed : (c_close_session link h l b).1
            ≡ record l { slots = (0, (Token.close_session h t).1) ∷ [] } =
          simp (e, i, close-one h 0 t, c_close_session) in
        subst (Kept l) (sym changed) (Kept-one l t _ e i (KeptSlot-close h t k))
  ]

  pub c_initialize-IsGood : (l : Library) (b : B) → IsGood l → IsGood (c_initialize link l b).1
  unfolding c_initialize
  c_initialize-IsGood l b g = elim (Bool-cases l.initialized) [
    | inl e ↦
        let same : (c_initialize link l b).1 ≡ l = simp (e, c_initialize) in
        subst IsGood (sym same) g
    | inr e ↦
        let i : l.slots ≡ [] = subst (λ z. AreSlots z l.slots) e g in
        elim (Bool-cases (link.connect b).0) [
          | inl f ↦
              let first : (c_initialize link l b).1
                  ≡ record { initialized = true; slots = (0, new_slot 0) ∷ [] } =
                simp (e, f, i, c_initialize, insert) in
              subst IsGood (sym first) (new_slot 0, refl, new_slot-IsSlot)
          | inr f ↦
              let same : (c_initialize link l b).1 ≡ l = simp (e, f, c_initialize) in
              subst IsGood (sym same) g
        ]
  ]

  pub c_finalize-IsGood : (l : Library) (b : B) → IsGood l → IsGood (c_finalize link l b).1
  unfolding c_finalize
  c_finalize-IsGood l b g = ground arith
