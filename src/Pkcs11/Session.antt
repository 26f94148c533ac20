-- ===== src/Pkcs11/Session.antt =====
-- `Session` of security/broker/pkcs11/session.py: its state, login and the three kinds of operations.
-- The broker behind the transport is a parameter: what a request is answered, `none` for any exception
-- on the way (an error reply, a closed connection), and the state that it leaves. Results are objects.
-- A mechanism is its number; its parameter is never read. Logging is left out, except that it names the
-- kind of user.
pub mod Objects
pub mod Calls
use Prim.Native.String.{◌++◌ as append}
use renesas_ra8m1_provisioni.Prelude.{
  ℕ, suc, String, Bool, true, false, not, Option, none, some, List, [], ◌∷◌, ◌++◌, ltb, ◌==◌,
  if◌then◌else◌, is_some,
}
use renesas_ra8m1_provisioni.Broker.Text.{pos}
use renesas_ra8m1_provisioni.Broker.Json.{Json, Fields, get}
use renesas_ra8m1_provisioni.Broker.Base64.{encode, decode}
use renesas_ra8m1_provisioni.Pkcs11.Table.{lookup}
use renesas_ra8m1_provisioni.Pkcs11.Types.{
  Ckr, Cks, is_ecdsa, is_hash, has_flag, rw_session, ecdsa, sha256, sha384, sha512, sha_1,
  Attribute,
}

-- `_broker_request` with its method and parameters
abbrev pub Broker : Type 0 → Type 0
Broker B = String → Fields → B → Option Fields × B

-- What `C_GenerateKeyPair` keeps of a key.
pub record KeyInfo : Type 0 where
  pub key_arn : String
  pub public_key : Json
  pub key_type : String
  pub curve : String
  pub label : Json

pub record Session : Type 0 where
  pub handle : ℕ
  pub slot_id : ℕ
  pub flags : ℕ
  pub broker_session_id : String
  pub state : Cks
  pub logged_in : Bool
  pub user_type : Option ℕ
  pub sign_mechanism : Option ℕ
  pub sign_key : Option ℕ
  pub sign_data : List ℕ
  pub verify_mechanism : Option ℕ
  pub verify_key : Option ℕ
  pub verify_data : List ℕ
  pub digest_mechanism : Option ℕ
  pub digest_data : List ℕ
  pub find_template : Option (List Attribute)
  pub find_results : List ℕ
  pub find_index : ℕ
  pub object_handles : List (ℕ × String)
  pub next_handle : ℕ
  pub key_info : List (ℕ × KeyInfo)

-- `__init__`
unfoldable pub new_session : ℕ → ℕ → ℕ → String → Session
new_session handle slot_id flags broker_session_id = record {
  handle = handle;
  slot_id = slot_id;
  flags = flags;
  broker_session_id = broker_session_id;
  state = Cks.ro_public_session;
  logged_in = false;
  user_type = none;
  sign_mechanism = none;
  sign_key = none;
  sign_data = [];
  verify_mechanism = none;
  verify_key = none;
  verify_data = [];
  digest_mechanism = none;
  digest_data = [];
  find_template = none;
  find_results = [];
  find_index = 0;
  object_handles = [];
  next_handle = 1;
  key_info = [];
}

abbrev pub end_sign : Session → Session
end_sign s = record s { sign_mechanism = none; sign_key = none; sign_data = [] }

unfoldable pub sign_init : ℕ → ℕ → Session → Ckr × Session
unfolding lookup is_ecdsa
sign_init mechanism key s =
    if not s.logged_in
    then (Ckr.user_not_logged_in, s)
    else if is_some s.sign_mechanism
    then (Ckr.operation_active, s)
    else if not (is_some (lookup key s.object_handles))
    then (Ckr.key_handle_invalid, s)
    else if not (is_ecdsa mechanism)
    then (Ckr.mechanism_invalid, s)
    else (Ckr.ok, record s { sign_mechanism = some mechanism; sign_key = some key; sign_data = [] })

unfoldable pub sign_update : List ℕ → Session → Ckr × Session
sign_update part s =
    if is_some s.sign_mechanism
    then (Ckr.ok, record s { sign_data = s.sign_data ++ part })
    else (Ckr.operation_not_initialized, s)

unfoldable pub verify_init : ℕ → ℕ → Session → Ckr × Session
unfolding lookup is_ecdsa
verify_init mechanism key s =
    if not s.logged_in
    then (Ckr.user_not_logged_in, s)
    else if is_some s.verify_mechanism
    then (Ckr.operation_active, s)
    else if not (is_some (lookup key s.object_handles))
    then (Ckr.key_handle_invalid, s)
    else if not (is_ecdsa mechanism)
    then (Ckr.mechanism_invalid, s)
    else (
      Ckr.ok,
      record s { verify_mechanism = some mechanism; verify_key = some key; verify_data = [] },
    )

unfoldable pub digest_init : ℕ → Session → Ckr × Session
unfolding is_hash
digest_init mechanism s =
    if is_some s.digest_mechanism
    then (Ckr.operation_active, s)
    else if not (is_hash mechanism)
    then (Ckr.mechanism_invalid, s)
    else (Ckr.ok, record s { digest_mechanism = some mechanism; digest_data = [] })

unfoldable pub digest_update : List ℕ → Session → Ckr × Session
digest_update part s =
    if is_some s.digest_mechanism
    then (Ckr.ok, record s { digest_data = s.digest_data ++ part })
    else (Ckr.operation_not_initialized, s)

-- `self._object_handles[key]`; `none` is the `KeyError`, also of a key that is none.
unfoldable pub arn_of : Option ℕ → Session → Option String
unfolding lookup
arn_of none s = none
arn_of (some key) s = lookup key s.object_handles

-- `base64.b64decode(response[name])`; `none` is an exception.
unfoldable pub decoded : String → Option Fields → Option (List ℕ)
unfolding get decode
decoded name none = none
decoded name (some response) = elim (get name response) [ Json.str s ↦ decode s | _ ↦ none ]

-- `base64.b64encode(data).decode("ascii")`
abbrev pub encoded : List ℕ → Json
encoded data' = Json.str (encode data')

abbrev pub fields1 : String → Json → Fields
fields1 a x = Fields.field a x Fields.end

-- The method and the parameters of a signing request.
unfoldable pub sign_request : ℕ → String → List ℕ → String × Fields
sign_request mechanism key_arn data' =
    if mechanism == ecdsa
    then (
      "sign_digest",
      Fields.field "key_arn" (Json.str key_arn) (fields1 "digest" (encoded data')),
    )
    else (
      "sign",
      Fields.field "key_arn" (Json.str key_arn)
          (Fields.field "data" (encoded data') (fields1 "mechanism" (Json.num (pos mechanism)))),
    )

-- What an operation returns: its result, or the failure.
abbrev pub or_failed : Option (List ℕ) → Ckr × List ℕ
or_failed none = (Ckr.function_failed, [])
or_failed (some bytes) = (Ckr.ok, bytes)

abbrev pub algorithm : ℕ → String
algorithm m =
    if m == sha256
    then "SHA256"
    else if m == sha384
    then "SHA384"
    else if m == sha512
    then "SHA512"
    else if m == sha_1
    then "SHA1"
    else "SHA256"

-- `response.get("valid")` is true; what else Python takes for true the broker does not send.
unfoldable pub verdict : Option Fields → Ckr
unfolding get
verdict none = Ckr.function_failed
verdict (some response) = elim (get "valid" response) [
  | Json.bool b ↦ (if b then Ckr.ok else Ckr.signature_invalid)
  | _ ↦ Ckr.signature_invalid
]

unfoldable pub rw_or_ro : Cks → Cks → Session → Cks
unfolding has_flag
rw_or_ro rw ro s = if has_flag rw_session s.flags then rw else ro

module _ {B : Type 0} (broker : Broker B) where
  -- After the state has changed the kind of user is named, which fails for one that is none.
  unfoldable pub login : ℕ → Session → B → Ckr × Session × B
  unfolding rw_or_ro
  login user_type s b =
      if s.logged_in
      then (Ckr.user_already_logged_in, s, b)
      else (let (response, b') =
            broker "login"
              (Fields.field "session_id" (Json.str s.broker_session_id)
                (fields1 "user_type" (Json.num (pos user_type))))
              b in
          elim response [
            | none ↦ (Ckr.function_failed, s, b')
            | some r ↦ (
              if ltb user_type 3 then Ckr.ok else Ckr.function_failed,
              record s {
                logged_in = true;
                user_type = some user_type;
                state = rw_or_ro Cks.rw_user_functions Cks.ro_user_functions s;
              },
              b',
            )
          ])

  unfoldable pub logout : Session → B → Ckr × Session × B
  unfolding rw_or_ro
  logout s b =
      if not s.logged_in
      then (Ckr.user_not_logged_in, s, b)
      else (let (response, b') = broker "logout" Fields.end b in
          elim response [
            | none ↦ (Ckr.function_failed, s, b')
            | some r ↦ (
              Ckr.ok,
              record s {
                logged_in = false;
                user_type = none;
                state = rw_or_ro Cks.rw_public_session Cks.ro_public_session s;
              },
              b',
            )
          ])

  -- The request of `C_Sign`, and its signature.
  unfoldable pub sign_by : ℕ → Option String → List ℕ → B → Option (List ℕ) × B
  unfolding sign_request decoded
  sign_by mechanism none data' b = (none, b)
  sign_by mechanism (some key_arn) data' b =
      let (method, params) = sign_request mechanism key_arn data' in
      let (response, b') = broker method params b in (decoded "signature" response, b')

  unfoldable pub sign : List ℕ → Session → B → (Ckr × List ℕ) × Session × B
  unfolding sign_by arn_of
  sign data' s b = elim s.sign_mechanism [
    | none ↦ ((Ckr.operation_not_initialized, []), s, b)
    | some mechanism ↦
        let (signature, b') = sign_by mechanism (arn_of s.sign_key s) data' b in
        (or_failed signature, end_sign s, b')
  ]

  unfoldable pub sign_final : Session → B → (Ckr × List ℕ) × Session × B
  unfolding sign
  sign_final s b =
      if is_some s.sign_mechanism
      then sign s.sign_data s b
      else ((Ckr.operation_not_initialized, []), s, b)

  unfoldable pub verify_by : Option String → List ℕ → List ℕ → B → Option Fields × B
  verify_by none data' signature b = (none, b)
  verify_by (some key_arn) data' signature b =
      broker "verify"
        (Fields.field "key_arn" (Json.str key_arn)
          (Fields.field "data" (encoded data') (fields1 "signature" (encoded signature))))
        b

  -- A failure leaves the data of the operation.
  unfoldable pub verify : List ℕ → List ℕ → Session → B → Ckr × Session × B
  unfolding verify_by arn_of verdict
  verify data' signature s b =
      if not (is_some s.verify_mechanism)
      then (Ckr.operation_not_initialized, s, b)
      else (let (response, b') = verify_by (arn_of s.verify_key s) data' signature b in
          (
            verdict response,
            record s {
              verify_mechanism = none;
              verify_key = none;
              verify_data = if is_some response then [] else s.verify_data;
            },
            b',
          ))

  -- A failure leaves the data of the operation.
  unfoldable pub digest : List ℕ → Session → B → (Ckr × List ℕ) × Session × B
  unfolding decoded
  digest data' s b = elim s.digest_mechanism [
    | none ↦ ((Ckr.operation_not_initialized, []), s, b)
    | some mechanism ↦
        let (response, b') =
          broker "hash"
            (Fields.field "data" (encoded data')
              (fields1 "algorithm" (Json.str (algorithm mechanism))))
            b in
        let d = decoded "digest" response in
        (
          or_failed d,
          record s {
            digest_mechanism = none;
            digest_data = if is_some d then [] else s.digest_data;
          },
          b',
        )
  ]

  unfoldable pub digest_final : Session → B → (Ckr × List ℕ) × Session × B
  unfolding digest
  digest_final s b =
      if is_some s.digest_mechanism
      then digest s.digest_data s b
      else ((Ckr.operation_not_initialized, []), s, b)
