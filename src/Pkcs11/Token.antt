-- ===== src/Pkcs11/Token.antt =====
-- `Slot` of security/broker/pkcs11/token.py. An error is the value that its exception carries. The fixed
-- descriptions are left out. The broker's identifiers of sessions are texts.
use renesas_ra8m1_provisioni.Prelude.{
  ℕ, suc, String, not, Option, none, some, List, [], ◌∷◌, ◌⊎◌, inl, inr, if◌then◌else◌, length,
  is_some,
}
use renesas_ra8m1_provisioni.Broker.Text.{is_empty}
use renesas_ra8m1_provisioni.Broker.Json.{Json, Fields, get}
use renesas_ra8m1_provisioni.Pkcs11.Table.{lookup, insert, erase}
use renesas_ra8m1_provisioni.Pkcs11.Types.{
  Ckr, is_ecdsa, is_hash, has_flag, rw_session, serial_session, ecdsa, ecdsa_sha256, ecdsa_sha384,
  ecdsa_sha512, sha256, sha384, sha512, sha_1,
}
use renesas_ra8m1_provisioni.Pkcs11.Session.{Broker, Session, new_session}

pub record Slot : Type 0 where
  pub slot_id : ℕ
  pub sessions : List (ℕ × Session)
  pub next_session_handle : ℕ

-- `__init__`
unfoldable pub new_slot : ℕ → Slot
new_slot slot_id = record { slot_id = slot_id; sessions = []; next_session_handle = 1 }

-- `result.get("session_id")`, where it is true.
unfoldable pub session_id_of : Option Fields → Option String
unfolding get
session_id_of none = none
session_id_of (some result) = elim (get "session_id" result) [
  | Json.str s ↦ (if is_empty s then none else some s)
  | _ ↦ none
]

-- The new session and its entry.
unfoldable pub add_session : ℕ → String → Slot → Session × Slot
unfolding new_session insert
add_session flags broker_session_id t =
    let session = new_session t.next_session_handle t.slot_id flags broker_session_id in
    (
      session,
      record t {
        sessions = insert t.next_session_handle session t.sessions;
        next_session_handle = suc t.next_session_handle;
      },
    )

unfoldable pub open_session : {B : Type 0} → Broker B → ℕ → Slot → B → (Ckr ⊎ Session) × Slot × B
unfolding has_flag session_id_of add_session
open_session broker flags t b =
    if not (has_flag serial_session flags)
    then (inl Ckr.session_parallel_not_supported, t, b)
    else (let (result, b') = broker "open_session" Fields.end b in
        elim (session_id_of result) [
          | none ↦ (inl Ckr.function_failed, t, b')
          | some id ↦ let (session, t') = add_session flags id t in (inr session, t', b')
        ])

-- `del` closes nothing at the broker.
unfoldable pub close_session : ℕ → Slot → Ckr × Slot
unfolding lookup erase
close_session handle t =
    if not (is_some (lookup handle t.sessions))
    then (Ckr.session_handle_invalid, t)
    else (Ckr.ok, record t { sessions = erase handle t.sessions })

unfoldable pub close_all_sessions : Slot → Ckr × Slot
close_all_sessions t = (Ckr.ok, record t { sessions = [] })

unfoldable pub get_session : ℕ → Slot → Option Session
unfolding lookup
get_session handle t = lookup handle t.sessions

-- The sessions that may write, of the entries.
unfoldable pub rw_sessions : List (ℕ × Session) → ℕ
unfolding has_flag
rw_sessions [] = 0
rw_sessions ((handle, s) ∷ d) =
    let rest = rw_sessions d in if has_flag rw_session s.flags then suc rest else rest

-- What of `get_token_info` depends on the slot: the numbers of sessions.
unfoldable pub get_token_info : Slot → ℕ × ℕ
unfolding rw_sessions
get_token_info t = (length t.sessions, rw_sessions t.sessions)

abbrev pub get_mechanism_list : List ℕ
get_mechanism_list =
    ecdsa ∷ ecdsa_sha256 ∷ ecdsa_sha384 ∷ ecdsa_sha512 ∷ sha256 ∷ sha384 ∷ sha512 ∷ sha_1 ∷ []

-- `CK_MECHANISM_INFO`
pub record MechanismInfo : Type 0 where
  pub min_key_size : ℕ
  pub max_key_size : ℕ
  pub flags : ℕ

unfoldable pub get_mechanism_info : ℕ → Ckr ⊎ MechanismInfo
unfolding is_ecdsa is_hash
get_mechanism_info mechanism =
    if is_ecdsa mechanism
    then inr (record { min_key_size = 256; max_key_size = 521; flags = 0x902800 })
    else if is_hash mechanism
    then inr (record { min_key_size = 0; max_key_size = 0; flags = 0x400 })
    else inl Ckr.mechanism_invalid
