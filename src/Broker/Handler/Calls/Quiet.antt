-- ===== src/Broker/Handler/Calls/Quiet.antt =====
-- The calls of the methods on sessions and on the service, in security/broker/service/handler.py.
use renesas_ra8m1_provisioni.Prelude.{
  ℕ, inl, inr, Option, none, some, arith, if◌then◌else◌, Option-cases,
}
use renesas_ra8m1_provisioni.Broker.Json.{Json}
use renesas_ra8m1_provisioni.Broker.Exn.{ok}
use renesas_ra8m1_provisioni.Broker.Session.{ClientSession, close_session, login}
use renesas_ra8m1_provisioni.Broker.Service.{Service, State, ◌>>=◌, pure, reads}
use renesas_ra8m1_provisioni.Broker.Handler.Guard.{Params, Caller, session_of}
use renesas_ra8m1_provisioni.Broker.Handler.Sessions as Sessions
use renesas_ra8m1_provisioni.Broker.Handler.Calls.Rules.{
  IsQuiet, IsQuiet-pure, IsQuiet-lift, IsQuiet-reads, IsQuiet-manage, IsQuiet-bind,
}

close_session_of-IsQuiet : (x : Option ClientSession) → IsQuiet (Sessions.close_session_of x)
unfolding Sessions.close_session_of
close_session_of-IsQuiet none = IsQuiet-pure _
close_session_of-IsQuiet (some x) = IsQuiet-manage _

pub finalize-IsQuiet : (c : Caller) (params : Params) → IsQuiet (Sessions.finalize c params)
unfolding Sessions.finalize
finalize-IsQuiet c params =
    IsQuiet-bind _ _ (IsQuiet-reads (λ (s : State). ok (session_of c s))) (λ x.
      IsQuiet-bind _ _ (close_session_of-IsQuiet x) (λ _. IsQuiet-pure (Sessions.status "ok")))

create-IsQuiet : (sv : Service) (c : Caller) → IsQuiet (Sessions.create sv c)
unfolding Sessions.create
create-IsQuiet sv c s r t h = ground arith

change-IsQuiet : (f : ClientSession → ClientSession) (r : ℕ) → IsQuiet (Sessions.change f r)
unfolding Sessions.change
change-IsQuiet f r = IsQuiet-manage _

-- A change of an object, and a reply about it.
reply-IsQuiet :
    (f : ClientSession → ClientSession) (r : ℕ) (j : ClientSession → Json)
    → IsQuiet (Sessions.change f r >>= λ _. (reads (Sessions.object_at r) >>= λ x. pure (j x)))
reply-IsQuiet f r j =
    IsQuiet-bind _ _ (change-IsQuiet f r)
      (λ _. IsQuiet-bind _ _ (IsQuiet-reads _) (λ _. IsQuiet-pure _))

pub open_session-IsQuiet :
    (sv : Service) (c : Caller) (params : Params) → IsQuiet (Sessions.open_session sv c params)
unfolding Sessions.open_session
open_session-IsQuiet sv c params = IsQuiet-bind _ _ (create-IsQuiet sv c) (λ r. reply-IsQuiet _ r _)

pub close_session_method-IsQuiet :
    (sv : Service) (c : Caller) (params : Params)
    → IsQuiet (Sessions.close_session_method sv c params)
unfolding Sessions.close_session_method
close_session_method-IsQuiet sv c params =
    IsQuiet-bind _ _ (IsQuiet-reads (Sessions.closed_id c params)) (λ id.
      IsQuiet-bind _ _ (IsQuiet-manage (close_session id))
        (λ closed. IsQuiet-pure (Sessions.status (if closed then "ok" else "not_found"))))

login_session-IsQuiet :
    (sv : Service) (c : Caller) (params : Params) → IsQuiet (Sessions.login_session sv c params)
unfolding Sessions.login_session
login_session-IsQuiet sv c params s r t h = ground arith

pub login_method-IsQuiet :
    (sv : Service) (c : Caller) (params : Params) → IsQuiet (Sessions.login_method sv c params)
unfolding Sessions.login_method
login_method-IsQuiet sv c params = IsQuiet-bind _ _ (login_session-IsQuiet sv c params) (λ session.
    IsQuiet-bind _ _ (IsQuiet-lift (Sessions.found session)) (λ r.
      IsQuiet-bind _ _ (IsQuiet-reads (Sessions.may_login sv c r))
        (λ _. reply-IsQuiet (login c.now) r Sessions.logged)))

pub logout_method-IsQuiet :
    (c : Caller) (params : Params) → IsQuiet (Sessions.logout_method c params)
unfolding Sessions.logout_method
logout_method-IsQuiet c params = elim (Option-cases c.session) [
  | inl e ↦ rw (e, Sessions.logout_method) (IsQuiet-pure _)
  | inr (r, e) ↦ rw (e, Sessions.logout_method) (reply-IsQuiet _ r _)
]

pub get_info-IsQuiet :
    (sv : Service) (c : Caller) (params : Params) → IsQuiet (Sessions.get_info sv c params)
unfolding Sessions.get_info
get_info-IsQuiet sv c params = IsQuiet-reads _
