-- ===== src/Broker/Tests.antt =====
-- The theorems on sessions and requests at concrete inputs, and runs.
mod Policies
mod Messages
use mathlib.Core.List.{flatten}
use renesas_ra8m1_provisioni.Prelude.{
  ℕ, String, Option, List, ◌≢◌, ◌≡◌, ◌↔◌, ◌⊎◌, inl, inr, refl, ap, true, false, none, some, [], ◌∷◌,
  ◌++◌, arith, str_eq, str_eq_iff, Bool-cases, get_elem?, is_some,
}
use renesas_ra8m1_provisioni.Broker.Text.{pos, negsuc, lookup, insert, show_int, is_empty}
use renesas_ra8m1_provisioni.Broker.Json.{Json, Fields}
use renesas_ra8m1_provisioni.Broker.Base64.{encode, decode}
use renesas_ra8m1_provisioni.Broker.Exn.{ok}
use renesas_ra8m1_provisioni.Broker.Glob.{
  Host, Token, translate, matches, accepts, in_ranges, match_ignoring_case,
}
use renesas_ra8m1_provisioni.Broker.Policy.{
  ClientIdentity, client_id, ClientPolicy, AuthorizationManager, allows_key, allows_operation,
  key_refused, get_policy, add_policy, check_authorization, policy_key, wildcard_policy,
  check_policy, member, matches_any,
}
use renesas_ra8m1_provisioni.Broker.Policy.Laws.{
  Matched, allows_key_iff, check_authorization_iff, get_policy-add_policy,
}
use renesas_ra8m1_provisioni.Broker.Session.{
  logged_in, ClientSession, Limits, Manager, new_session, create_session, cleanup_expired,
  expired_ids, close_each, close_session, get_session, is_expired_at, add_session, with_session,
  generate_session_id, is_expired, modify, update, touch, close,
}
use renesas_ra8m1_provisioni.Broker.Session.Kept.{
  IsLive, IsValid, close_session-IsValid, get_session_lem,
}
use renesas_ra8m1_provisioni.Broker.Session.Cleanup.{cleanup_expired_lem}
use renesas_ra8m1_provisioni.Broker.Session.Created.{create_session-IsValid, create_session_returns}
use renesas_ra8m1_provisioni.Broker.Session.Fresh.{generate_session_id_returns}
use renesas_ra8m1_provisioni.Broker.Service.{done, failed, KmsClient, Service, State, Call}
use renesas_ra8m1_provisioni.Broker.Backend as Backend
use renesas_ra8m1_provisioni.Broker.Framing.{
  Socket, Read, unpack, pack, read_message, write_message,
}
use renesas_ra8m1_provisioni.Broker.Framing.Segments.{
  AreOpen, read_message-write_message, read_message_too_large,
}
use renesas_ra8m1_provisioni.Broker.Handler.{
  Request, Failure, Response, handler_of, or_empty, respond, handle_request,
}
use renesas_ra8m1_provisioni.Broker.Handler.Crypto as Crypto
use renesas_ra8m1_provisioni.Broker.Handler.Guard as Guard
use renesas_ra8m1_provisioni.Broker.Policy as Policy
use renesas_ra8m1_provisioni.Broker.Handler.Guard.{
  Caller, required, session_of, has_login, needs_login, b64decode, check_policies, touch_session,
}
use renesas_ra8m1_provisioni.Broker.Handler.Calls.Rules.{Serves, Granted}
use renesas_ra8m1_provisioni.Broker.Handler.Calls.{handle_request_calls}
use renesas_ra8m1_provisioni.Broker.Handler.Kept.{Reaches, Reaches-IsValid}
use renesas_ra8m1_provisioni.Broker.Handler.Errors.{sign_not_logged_in, login_any_state}
use renesas_ra8m1_provisioni.Broker.Tests.Policies.{user, oem_policies}

-- Two sessions at most, which expire after ten units of time.
abbrev limits : Limits
limits = record { session_timeout = 10; max_sessions = 2 }

abbrev session_a : ClientSession
session_a = record {
  session_id = "a";
  client_identity = user;
  state = logged_in;
  created_at = 0;
  last_activity = 5;
  login_time = some 5;
}

abbrev manager : Manager
manager = record { objects = session_a ∷ []; sessions = ("a", 0) ∷ []; tokens = "a" ∷ "b" ∷ [] }

manager-IsLive :
    (session_id : String) (r : ℕ)
    → lookup session_id manager.sessions ≡ some r
    → IsLive manager.objects session_id r
unfolding lookup
manager-IsLive session_id r h = elim (Bool-cases (str_eq "a" session_id)) [
  | inl e ↦
      let k : 0 ≡ r = ground arith in
      (
        session_a,
        ground (arith, ap (get_elem? manager.objects)),
        ground (arith, str_eq_iff "a" session_id),
        λ x. cc,
      )
  | inr e ↦ absurd (ground arith)
]

manager-IsValid : IsValid limits manager
unfolding lookup
manager-IsValid = record { distinct = (refl, tt); live = manager-IsLive; bounded = omega arith }

get_session_lem_example :
    ((r : ℕ) × (get_session limits "a" 15 manager ≡ (some r, manager))
      × (lookup "a" manager.sessions ≡ some r)
      × IsLive manager.objects "a" r
      × (is_expired_at limits 15 manager.objects r ≡ false))
    ⊎ (((get_session limits "a" 15 manager).0 ≡ none)
        × ((r : ℕ)
            → lookup "a" manager.sessions ≡ some r
            → is_expired_at limits 15 manager.objects r ≡ true)
        × (lookup "a" (get_session limits "a" 15 manager).1.sessions ≡ none)
        × ((j : String)
            → "a" ≢ j
            → lookup j (get_session limits "a" 15 manager).1.sessions ≡ lookup j manager.sessions))
get_session_lem_example = get_session_lem limits "a" 15 manager manager-IsValid

create_session_returns_example :
    (id : String) × (n : Manager) × (create_session limits user 9 manager ≡ some (ok 1, n))
    × (lookup id manager.sessions ≡ none)
    × (lookup id n.sessions ≡ some 1)
    × (get_elem? n.objects 1 ≡ some (new_session user 9 id))
unfolding member
create_session_returns_example =
    create_session_returns limits user 9 manager (omega arith) (refl, (refl, tt)) (omega arith)

create_session-IsValid_example : IsValid limits (with_session user 9 "b" [] manager)
unfolding create_session add_session generate_session_id lookup with_session insert
create_session-IsValid_example =
    create_session-IsValid limits user 9 manager (ok 1) (with_session user 9 "b" [] manager)
      manager-IsValid refl

-- A key service whose signatures are the data.
abbrev kms : KmsClient
kms = record {
  sign_data = λ k d. done d;
  sign_digest = λ k d. done d;
  get_public_key = λ k. done (1 ∷ []);
  verify_signature = λ p d g k. done true;
  hash_data = λ d a. done (2 ∷ []);
  generate_key_pair = λ t v l. failed "no";
  list_keys = done [];
}

abbrev service : Service
service = record {
  host = Host.posix;
  limits = limits;
  authorization_manager = some oem_policies;
  backend = record { connected = true; region = "eu-west-2"; client = kms };
  base64_error = λ t. "Incorrect padding";
}

abbrev caller : Caller
caller = record { client = user; session = some 0; now = 9 }

abbrev state : State
state = record { manager = manager; calls = [] }

abbrev signing : Request
signing = record {
  method = "sign";
  params = some (("key_arn", "oem-1") ∷ ("data", "AQID") ∷ []);
  id = Json.num (pos 1);
  jsonrpc = "2.0";
}

abbrev stranger : Caller
stranger = record { client = user; session = none; now = 9 }

-- After it: the session was active, and the key service signed three bytes.
abbrev signed : State
signed = record {
  manager = modify (touch 9) 0 manager;
  calls = Call.sign "oem-1" (1 ∷ 2 ∷ 3 ∷ []) ∷ [];
}

handle_request-signs :
    handle_request service caller signing state
    ≡ some (
      Response.success (Json.num (pos 1)) (
          Json.obj (
            Fields.field "signature"
              (Json.str "AQID")
              (Fields.field "key_arn" (Json.str "oem-1") Fields.end))),
      signed,
    )
unfolding handle_request handler_of Crypto.sign Guard.check_authorization check_policies required
    b64decode touch_session has_login session_of needs_login or_empty respond lookup is_empty decode
    encode member Backend.sign Backend.ensure_connected Policy.check_authorization get_policy
    add_policy check_policy allows_operation allows_key key_refused matches_any match_ignoring_case
    translate matches accepts in_ranges client_id policy_key insert show_int modify update
handle_request-signs = refl

handle_request_calls_example :
    (signed.calls ≡ state.calls)
    ⊎ ((key : Option String) × (ks : List Call) × (signed.calls ≡ state.calls ++ ks)
        × Serves service "sign" key ks
        × Granted service caller state "sign" key)
handle_request_calls_example =
    handle_request_calls service caller signing state _ signed handle_request-signs

sign_not_logged_in_example :
    (f : Failure) × (handle_request service stranger signing state
      ≡ some (Response.failure (Json.num (pos 1)) f, state))
    × (f.code ≡ negsuc 32000)
unfolding required lookup has_login session_of is_empty
sign_not_logged_in_example =
    sign_not_logged_in service stranger (Json.num (pos 1))
      (("key_arn", "oem-1") ∷ ("data", "AQID") ∷ []) "oem-1" "AQID" state refl refl refl

-- The session was closed, the connection still has it, and there is no authorization manager.
abbrev closed_state : State
closed_state = record { manager = (close_session "a" manager).1; calls = [] }

abbrev open_service : Service
open_service = record service { authorization_manager = none }

login_any_state_example :
    (j : Json) × (t : State) × (handle_request open_service caller
        (record { method = "login"; params = none; id = Json.null; jsonrpc = "2.0" })
        closed_state
      ≡ some (Response.success Json.null j, t))
    × (has_login caller t ≡ true)
unfolding close_session lookup modify update
login_any_state_example =
    login_any_state open_service caller Json.null closed_state 0 (close session_a) refl refl refl
      refl

Reaches-IsValid_example : IsValid limits signed.manager
Reaches-IsValid_example =
    Reaches-IsValid service
      (Reaches.request caller signing _ (Reaches.start state) handle_request-signs) manager-IsValid

cleanup_expired_lem_example :
    (lookup "a" manager.sessions ≡ some 0)
    × (is_expired_at limits 15 (cleanup_expired limits 15 manager).1.objects 0 ≡ false)
unfolding cleanup_expired expired_ids close_each is_expired_at is_expired lookup
cleanup_expired_lem_example = cleanup_expired_lem limits 15 0 "a" manager manager-IsValid refl
