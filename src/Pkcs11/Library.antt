-- ===== src/Pkcs11/Library.antt =====
-- `BrokerPKCS11Lib` of security/broker/pkcs11/lib.py: its state, and its functions. The broker and the
-- connection to it are a parameter. Logging and the fixed descriptions are left out.
pub mod Calls
pub mod Found
pub mod Slots
pub mod Good
pub mod Keeps
pub mod Asks
pub mod Steps
pub mod Apart
use renesas_ra8m1_provisioni.Prelude.{
  ℕ, String, Bool, true, false, not, Option, none, some, List, [], ◌∷◌, ◌⊎◌, inl, inr, map, is_some,
  if◌then◌else◌,
}
use renesas_ra8m1_provisioni.Pkcs11.Table.{lookup, insert}
use renesas_ra8m1_provisioni.Pkcs11.Types.{Ckr, Cks, Attribute}
use renesas_ra8m1_provisioni.Pkcs11.Token.{
  Slot, new_slot, open_session, close_session, close_all_sessions, get_session, MechanismInfo,
  get_mechanism_list, get_mechanism_info, get_token_info,
}
use renesas_ra8m1_provisioni.Pkcs11.Session as Session
use renesas_ra8m1_provisioni.Pkcs11.Session.{Broker, KeyInfo}
use renesas_ra8m1_provisioni.Pkcs11.Session.Objects as Objects
use renesas_ra8m1_provisioni.Pkcs11.Session.Objects.{Texts}

-- The transport: a request and its answer, `create_transport` with `connect`, of which false is an
-- exception, and `disconnect`, which raises none.
pub record Link (B : Type 0) : Type 0 where
  pub ask : Broker B
  pub connect : B → Bool × B
  pub disconnect : B → B

pub record Library : Type 0 where
  pub initialized : Bool
  pub slots : List (ℕ × Slot)

-- `__init__`
abbrev pub new_library : Library
new_library = record { initialized = false; slots = [] }

-- `_get_session`: the first slot that has it.
unfoldable pub find_session : ℕ → List (ℕ × Slot) → Option Session.Session
unfolding get_session
find_session handle [] = none
find_session handle ((id, t) ∷ slots) =
    if is_some (get_session handle t) then get_session handle t else find_session handle slots

-- What the object that `_get_session` returns has become.
unfoldable pub put_session : ℕ → Session.Session → List (ℕ × Slot) → List (ℕ × Slot)
unfolding get_session insert
put_session handle s [] = []
put_session handle s ((id, t) ∷ slots) =
    let rest = put_session handle s slots in
    if is_some (get_session handle t)
    then (id, record t { sessions = insert handle s t.sessions }) ∷ slots
    else (id, t) ∷ rest

unfoldable pub close_first : ℕ → List (ℕ × Slot) → Ckr × List (ℕ × Slot)
unfolding get_session close_session
close_first handle [] = (Ckr.session_handle_invalid, [])
close_first handle ((id, t) ∷ slots) =
    let rest = close_first handle slots in
    if is_some (get_session handle t)
    then (let (rv, t') = close_session handle t in (rv, (id, t') ∷ slots))
    else (rest.0, (id, t) ∷ rest.1)

abbrev pub no_bytes : Ckr → Ckr × List ℕ
no_bytes rv = (rv, [])

-- What the functions on a session share: a method is called on the object, once it is found.
unfoldable pub in_session :
    {A B : Type 0}
    → (Ckr → A)
    → ℕ
    → (Session.Session → B → A × Session.Session × B)
    → Library
    → B
    → A × Library × B
unfolding find_session put_session
in_session fail handle method l b =
    if not l.initialized
    then (fail Ckr.cryptoki_not_initialized, l, b)
    else elim (find_session handle l.slots) [
      | none ↦ (fail Ckr.session_handle_invalid, l, b)
      | some s ↦
          let (out, s', b') = method s b in
          (out, record l { slots = put_session handle s' l.slots }, b')
    ]

-- What the functions on a slot share, likewise.
unfoldable pub in_slot :
    {A B : Type 0} → (Ckr → A) → ℕ → (Slot → B → A × Slot × B) → Library → B → A × Library × B
unfolding lookup insert
in_slot fail slot_id method l b =
    if not l.initialized
    then (fail Ckr.cryptoki_not_initialized, l, b)
    else elim (lookup slot_id l.slots) [
      | none ↦ (fail Ckr.slot_id_invalid, l, b)
      | some t ↦
          let (out, t', b') = method t b in
          (out, record l { slots = insert slot_id t' l.slots }, b')
    ]

unfoldable pub c_get_slot_list : Library → Ckr × List ℕ
c_get_slot_list l =
    if not l.initialized
    then (Ckr.cryptoki_not_initialized, [])
    else (Ckr.ok, map (λ entry. entry.0) l.slots)

-- `e.rv`, or the result.
abbrev pub caught : {A : Type 0} → Ckr ⊎ A → Ckr × Option A
caught (inl rv) = (rv, none)
caught (inr a) = (Ckr.ok, some a)

abbrev pub opened : Ckr ⊎ Session.Session → Ckr × ℕ
opened (inl rv) = (rv, 0)
opened (inr s) = (Ckr.ok, s.handle)

module _ {B : Type 0} (link : Link B) where
  unfoldable pub c_initialize : Library → B → Ckr × Library × B
  unfolding insert new_slot
  c_initialize l b =
      if l.initialized
      then (Ckr.cryptoki_already_initialized, l, b)
      else (let (fine, b') = link.connect b in
          if fine
          then (Ckr.ok, record { initialized = true; slots = insert 0 (new_slot 0) l.slots }, b')
          else (Ckr.function_failed, l, b'))

  -- The sessions are closed and the slots dropped.
  unfoldable pub c_finalize : Library → B → Ckr × Library × B
  c_finalize l b =
      if not l.initialized
      then (Ckr.cryptoki_not_initialized, l, b)
      else (Ckr.ok, record { initialized = false; slots = [] }, link.disconnect b)

  unfoldable pub c_get_token_info : ℕ → Library → B → (Ckr × Option (ℕ × ℕ)) × Library × B
  unfolding in_slot get_token_info
  c_get_token_info slot_id =
      in_slot (λ rv. (rv, none)) slot_id (λ t b. ((Ckr.ok, some (get_token_info t)), t, b))

  unfoldable pub c_get_mechanism_list : ℕ → Library → B → (Ckr × List ℕ) × Library × B
  unfolding in_slot
  c_get_mechanism_list slot_id =
      in_slot no_bytes slot_id (λ t b. ((Ckr.ok, get_mechanism_list), t, b))

  unfoldable pub c_get_mechanism_info :
      ℕ → ℕ → Library → B → (Ckr × Option MechanismInfo) × Library × B
  unfolding in_slot get_mechanism_info
  c_get_mechanism_info slot_id mechanism =
      in_slot (λ rv. (rv, none)) slot_id (λ t b. (caught (get_mechanism_info mechanism), t, b))

  unfoldable pub c_open_session : ℕ → ℕ → Library → B → (Ckr × ℕ) × Library × B
  unfolding in_slot open_session
  c_open_session slot_id flags =
      in_slot (λ rv. (rv, 0)) slot_id
        (λ t b. let (out, t', b') = open_session link.ask flags t b in (opened out, t', b'))

  unfoldable pub c_close_session : ℕ → Library → B → Ckr × Library × B
  unfolding close_first
  c_close_session session l b =
      if not l.initialized
      then (Ckr.cryptoki_not_initialized, l, b)
      else (let (rv, slots) = close_first session l.slots in (rv, record l { slots = slots }, b))

  unfoldable pub c_close_all_sessions : ℕ → Library → B → Ckr × Library × B
  unfolding in_slot close_all_sessions
  c_close_all_sessions slot_id =
      in_slot (λ rv. rv) slot_id (λ t b. let (rv, t') = close_all_sessions t in (rv, t', b))

  -- `CK_SESSION_INFO`: the slot, the state and the flags.
  unfoldable pub c_get_session_info : ℕ → Library → B → (Ckr × Option (ℕ × Cks × ℕ)) × Library × B
  unfolding in_session
  c_get_session_info session =
      in_session (λ rv. (rv, none)) session
        (λ s b. ((Ckr.ok, some (s.slot_id, s.state, s.flags)), s, b))
