-- ===== src/Broker/Handler.antt =====
-- security/broker/service/handler.py: a request's dispatch, and the reply to its result or its error.
pub mod Guard
pub mod Crypto
pub mod Sessions
pub mod Calls
pub mod Errors
pub mod Kept
use Prim.Native.String.{◌++◌ as append}
use renesas_ra8m1_provisioni.Prelude.{
  ℕ, String, Bool, true, false, Option, none, some, List, [], ◌∷◌, if◌then◌else◌, str_eq, ◌==◌,
}
use renesas_ra8m1_provisioni.Broker.Text.{ℤ, pos, negsuc, lookup}
use renesas_ra8m1_provisioni.Broker.Json.{Json}
use renesas_ra8m1_provisioni.Broker.Exn.{Exn, Result, ok, raised, Details}
use renesas_ra8m1_provisioni.Broker.Service.{Service, State, Action}
use renesas_ra8m1_provisioni.Broker.Handler.Guard.{Params, Caller}
use renesas_ra8m1_provisioni.Broker.Handler.Crypto as Crypto
use renesas_ra8m1_provisioni.Broker.Handler.Sessions as Sessions

-- `BrokerRequest` of security/broker/protocol.py
pub record Request : Type 0 where
  pub method : String
  pub params : Option Params
  pub id : Json
  pub jsonrpc : String

-- `BrokerError` of security/broker/protocol.py; its data are texts.
pub record Failure : Type 0 where
  pub code : ℤ
  pub message : String
  pub data' : Option Details

-- `BrokerResponse.success` and `BrokerResponse.failure`
pub data Response : Type 0 where
  success : Json → Json → Response
  failure : Json → Failure → Response

-- `_methods.get(method)`
unfoldable pub handler_of : Service → Caller → String → Option (Params → Action Json)
unfolding Crypto.sign Crypto.sign_digest Crypto.verify Crypto.hash Crypto.get_public_key
    Crypto.list_keys Crypto.generate_key_pair Sessions.initialize Sessions.finalize
    Sessions.open_session Sessions.close_session_method Sessions.login_method Sessions.logout_method
    Sessions.ping Sessions.get_info
handler_of sv c method =
    if str_eq method "initialize"
    then some (Sessions.initialize c)
    else if str_eq method "finalize"
    then some (Sessions.finalize c)
    else if str_eq method "open_session"
    then some (Sessions.open_session sv c)
    else if str_eq method "close_session"
    then some (Sessions.close_session_method sv c)
    else if str_eq method "login"
    then some (Sessions.login_method sv c)
    else if str_eq method "logout"
    then some (Sessions.logout_method c)
    else if str_eq method "sign"
    then some (Crypto.sign sv c)
    else if str_eq method "sign_digest"
    then some (Crypto.sign_digest sv c)
    else if str_eq method "verify"
    then some (Crypto.verify sv c)
    else if str_eq method "hash"
    then some (Crypto.hash sv c)
    else if str_eq method "get_public_key"
    then some (Crypto.get_public_key sv c)
    else if str_eq method "list_keys"
    then some (Crypto.list_keys sv c)
    else if str_eq method "generate_key_pair"
    then some (Crypto.generate_key_pair sv c)
    else if str_eq method "ping"
    then some (Sessions.ping c)
    else if str_eq method "get_info"
    then some (Sessions.get_info sv c)
    else none

-- `e.error_code or BrokerErrorCode.INTERNAL_ERROR`
code_or_internal : Option ℤ → ℤ
code_or_internal none = negsuc 32602
code_or_internal (some (pos n)) = if n == 0 then negsuc 32602 else pos n
code_or_internal (some (negsuc n)) = negsuc n

-- The `except` clauses.
unfoldable pub failure_of : Exn → Failure
unfolding code_or_internal
failure_of (Exn.authorization message details) = record {
  code = negsuc 32000;
  message = message;
  data' = some details;
}
failure_of (Exn.broker code message details) = record {
  code = code_or_internal code;
  message = message;
  data' = some details;
}
failure_of (Exn.other message) = record {
  code = negsuc 32602;
  message = append "Internal error: " message;
  data' = none;
}

unfoldable pub respond : Json → Result Json → Response
unfolding failure_of
respond id (ok result) = Response.success id result
respond id (raised e) = Response.failure id (failure_of e)

unfoldable pub or_empty : Option Params → Params
or_empty none = []
or_empty (some params) = params

-- `handle_request`; none if the request does not end.
unfoldable pub handle_request : Service → Caller → Request → State → Option (Response × State)
unfolding handler_of respond or_empty
handle_request sv c q s =
    if str_eq q.jsonrpc "2.0"
    then elim (handler_of sv c q.method) [
      | none ↦ some (
        Response.failure q.id (record {
          code = negsuc 32600;
          message = append "Method not found: " q.method;
          data' = none;
        }),
        s,
      )
      | some handler ↦ elim (handler (or_empty q.params) s) [
        | none ↦ none
        | some (r, t) ↦ some (respond q.id r, t)
      ]
    ]
    else some (
      Response.failure q.id
          (record { code = negsuc 32599; message = "Invalid JSON-RPC version"; data' = none }),
      s,
    )
