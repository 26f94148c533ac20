-- ===== src/Broker/Handler/Sessions.antt =====
-- security/broker/service/handler.py: the methods on sessions, and those on the service.
use renesas_ra8m1_provisioni.Prelude.{
  ℕ, String, Bool, true, false, not, Option, none, some, if◌then◌else◌, str_eq, length, get_elem?,
}
use renesas_ra8m1_provisioni.Broker.Text.{is_empty, lookup, pos}
use renesas_ra8m1_provisioni.Broker.Json.{Json, Fields}
use renesas_ra8m1_provisioni.Broker.Exn.{Result, ok, raised, authorization_error, broker_error}
use renesas_ra8m1_provisioni.Broker.Policy.{client_id, check_client_allowed}
use renesas_ra8m1_provisioni.Broker.Session.{
  ClientSession, Manager, modify, authenticate, login, logout, state_value, close_session,
  create_session, get_session,
}
use renesas_ra8m1_provisioni.Broker.Service.{
  Service, State, Action, ◌>>=◌, ◌>>◌, pure, lift, reads, manage,
}
use renesas_ra8m1_provisioni.Broker.Backend as Backend
use renesas_ra8m1_provisioni.Broker.Handler.Guard.{Params, Caller, session_of}

abbrev pub status : String → Json
status s = Json.obj (Fields.field "status" (Json.str s) Fields.end)

unfoldable pub initialize : Caller → Params → Action Json
unfolding client_id
initialize c params = pure (
    Json.obj (
      Fields.field "status" (Json.str "ok") (
        Fields.field "version" (Json.str "1.0") (
          Fields.field "client_id" (Json.str (client_id c.client))
            (Fields.field "server_time" (Json.time c.now) Fields.end)))))

-- `close_session` of the manager, on the session object's identifier.
unfoldable pub close_session_of : Option ClientSession → Action Bool
unfolding close_session
close_session_of none = pure false
close_session_of (some x) = manage (close_session x.session_id)

unfoldable pub finalize : Caller → Params → Action Json
unfolding session_of close_session_of
finalize c params = do
  session ← reads (λ (s : State). ok (session_of c s))
  close_session_of session
  pure (status "ok")

unfoldable pub opened : ClientSession → Json
opened x = Json.obj (
    Fields.field "session_id" (Json.str x.session_id)
      (Fields.field "state" (Json.str (state_value x.state)) Fields.end))

unfoldable pub logged : ClientSession → Json
logged x = Json.obj (
    Fields.field "status" (Json.str "ok") (
      Fields.field "session_id" (Json.str x.session_id)
        (Fields.field "state" (Json.str (state_value x.state)) Fields.end)))

-- The object at a place. A place has its object, so the error does not occur.
unfoldable pub object_at : ℕ → State → Result {0} ClientSession
object_at r s = elim (get_elem? s.manager.objects r) [
  | none ↦ raised (broker_error "Invalid or expired session")
  | some x ↦ ok x
]

-- `create_session`, as an action.
unfoldable pub create : Service → Caller → Action ℕ
unfolding create_session
create sv c s = elim (create_session sv.limits c.client c.now s.manager) [
  | none ↦ none
  | some (r, m) ↦ some (r, record s { manager = m })
]

unfoldable pub change : (ClientSession → ClientSession) → ℕ → Action Unit
unfolding modify
change f r = manage (λ (m : Manager). (tt, modify f r m))

unfoldable pub open_session : Service → Caller → Params → Action Json
unfolding create change object_at opened
open_session sv c params = do
  r ← create sv c
  change (authenticate c.now) r
  x ← reads (object_at r)
  pure (opened x)

-- The identifier that is to be closed: the parameter's, or the connection's session's.
unfoldable pub closed_id : Caller → Params → State → Result {0} String
unfolding lookup session_of
closed_id c params s =
    let own : Result String = elim (session_of c s) [
      | none ↦ raised (broker_error "No session_id provided")
      | some x ↦ ok x.session_id
    ] in
    elim (lookup "session_id" params) [
      | none ↦ own
      | some session_id ↦ (if is_empty session_id then own else ok session_id)
    ]

unfoldable pub close_session_method : Service → Caller → Params → Action Json
unfolding closed_id close_session
close_session_method sv c params = do
  session_id ← reads (closed_id c params)
  closed ← manage (close_session session_id)
  pure (status (if closed then "ok" else "not_found"))

-- The place of the session to log in: the parameter's, if it is found, or the connection's.
unfoldable pub login_session : Service → Caller → Params → Action (Option ℕ)
unfolding lookup get_session
login_session sv c params = elim (lookup "session_id" params) [
  | none ↦ pure c.session
  | some session_id ↦
      (if is_empty session_id
        then pure c.session
        else manage (get_session sv.limits session_id c.now))
]

unfoldable pub found : Option ℕ → Result {0} ℕ
found none = raised (broker_error "Invalid or expired session")
found (some r) = ok r

-- The session is this client's, and the client has a policy.
unfoldable pub may_login : Service → Caller → ℕ → State → Result {0} Unit
unfolding client_id check_client_allowed authorization_error object_at
may_login sv c r s = elim (object_at r s) [
  | raised e ↦ raised e
  | ok x ↦
      (if not (str_eq (client_id x.client_identity) (client_id c.client))
        then raised (
            authorization_error "Session does not belong to this client" (some (client_id c.client))
              none none)
        else elim sv.authorization_manager [
          | none ↦ ok tt
          | some m ↦ check_client_allowed sv.host m c.client
        ])
]

unfoldable pub login_method : Service → Caller → Params → Action Json
unfolding login_session found may_login change object_at logged
login_method sv c params = do
  session ← login_session sv c params
  r ← lift (found session)
  reads (may_login sv c r)
  change (login c.now) r
  x ← reads (object_at r)
  pure (logged x)

unfoldable pub logout_method : Caller → Params → Action Json
unfolding change object_at logged
logout_method c params = elim c.session [
  | none ↦ pure (status "no_session")
  | some r ↦ do change (logout c.now) r; x ← reads (object_at r); pure (logged x)
]

unfoldable pub ping : Caller → Params → Action Json
ping c params = pure (
    Json.obj (
      Fields.field "pong" (Json.bool true) (Fields.field "timestamp" (Json.time c.now) Fields.end)))

unfoldable pub info : Service → Caller → State → Json
unfolding Backend.get_info client_id
info sv c s = Json.obj (
    Fields.field "version" (Json.str "1.0") (
      Fields.field "backend" (Backend.get_info sv.backend) (
        Fields.field "sessions"
          (Json.obj (
            Fields.field "count" (Json.num (pos (length s.manager.sessions)))
              (Fields.field "max" (Json.num (pos sv.limits.max_sessions)) Fields.end)))
          (Fields.field "client"
            (Json.obj (
              Fields.field "id" (Json.str (client_id c.client))
                (Fields.field "platform" (Json.str c.client.platform) Fields.end)))
            Fields.end))))

unfoldable pub get_info : Service → Caller → Params → Action Json
unfolding info
get_info sv c params = reads (λ (s : State). ok (info sv c s))
