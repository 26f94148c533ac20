-- ===== src/Broker/Handler/Errors.antt =====
-- Requests of security/broker/service/handler.py without a session that is logged in.
use renesas_ra8m1_provisioni.Prelude.{
  ℕ, String, ◌≡◌, refl, true, false, none, some, arith, get_elem?, get_elem?-set_self,
  lt_of_get_elem?, str_eq_iff,
}
use renesas_ra8m1_provisioni.Broker.Text.{negsuc}
use renesas_ra8m1_provisioni.Broker.Json.{Json}
use renesas_ra8m1_provisioni.Broker.Exn.{ok, authorization_error}
use renesas_ra8m1_provisioni.Broker.Policy.{client_id}
use renesas_ra8m1_provisioni.Broker.Service.{Service, State}
use renesas_ra8m1_provisioni.Broker.Session.{ClientSession, login, modify, update, Manager}
use renesas_ra8m1_provisioni.Broker.Handler.{
  Failure, Response, handler_of, failure_of, handle_request,
}
use renesas_ra8m1_provisioni.Broker.Handler.Guard.{
  Params, Caller, required, session_of, has_login, needs_login, check_authorization,
}
use renesas_ra8m1_provisioni.Broker.Handler.Crypto as Crypto
use renesas_ra8m1_provisioni.Broker.Handler.Sessions as Sessions

-- A request to sign, with a key and data, on a connection whose session is not logged in is answered
-- with the code of an authorization error, -32001, and changes nothing.
pub sign_not_logged_in :
    (sv : Service) (c : Caller) (id : Json) (params : Params) (key_arn text : String) (s : State)
    → required "key_arn" params ≡ ok key_arn
    → required "data" params ≡ ok text
    → has_login c s ≡ false
    → (f : Failure) × (handle_request sv c
          (record { method = "sign"; params = some params; id = id; jsonrpc = "2.0" })
          s
        ≡ some (Response.failure id f, s))
      × (f.code ≡ negsuc 32000)
unfolding handle_request handler_of Crypto.sign check_authorization needs_login
sign_not_logged_in sv c id params key_arn text s h k n = (
  failure_of
      (authorization_error "Session not logged in" (some (client_id c.client)) (some "sign") none),
  rw (h, k, n) refl,
  refl,
)

modified :
    (f : ClientSession → ClientSession) (r : ℕ) (m : Manager) (x : ClientSession)
    → get_elem? m.objects r ≡ some x
    → get_elem? (modify f r m).objects r ≡ some (f x)
unfolding modify update
modified f r m x k =
    ground (arith, get_elem?-set_self m.objects r (f x) (lt_of_get_elem? m.objects r k))

-- A request to log in without a `session_id` logs in the connection's session whatever its state is,
-- closed included, if it is the client's and there is no authorization manager.
pub login_any_state :
    (sv : Service) (c : Caller) (id : Json) (s : State) (r : ℕ) (x : ClientSession)
    → c.session ≡ some r
    → get_elem? s.manager.objects r ≡ some x
    → client_id x.client_identity ≡ client_id c.client
    → sv.authorization_manager ≡ none
    → (j : Json) × (t : State) × (handle_request sv c
          (record { method = "login"; params = none; id = id; jsonrpc = "2.0" })
          s
        ≡ some (Response.success id j, t))
      × (has_login c t ≡ true)
unfolding handle_request handler_of Sessions.login_method Sessions.login_session Sessions.found
    Sessions.may_login Sessions.change Sessions.object_at has_login session_of
login_any_state sv c id s r x h k e a =
    let g = modified (login c.now) r s.manager x k in
    let i = str_eq_iff (client_id x.client_identity) (client_id c.client) in
    (
      Sessions.logged (login c.now x),
      record s { manager = modify (login c.now) r s.manager },
      ground arith,
      ground arith,
    )
