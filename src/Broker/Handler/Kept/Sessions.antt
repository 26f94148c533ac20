-- ===== src/Broker/Handler/Kept/Sessions.antt =====
-- The invariant of the session manager along the methods on sessions.
use renesas_ra8m1_provisioni.Prelude.{ℕ, inl, inr, Option, none, some, Option-cases, Bool-cases}
use renesas_ra8m1_provisioni.Broker.Text.{lookup, is_empty}
use renesas_ra8m1_provisioni.Broker.Json.{Json}
use renesas_ra8m1_provisioni.Broker.Exn.{ok}
use renesas_ra8m1_provisioni.Broker.Session.{
  ClientSession, Limits, modify, login, logout, authenticate, close_session, create_session,
  get_session,
}
use renesas_ra8m1_provisioni.Broker.Session.Kept.{
  IsValid, close_session-IsValid, get_session-IsValid,
}
use renesas_ra8m1_provisioni.Broker.Session.Created.{create_session-IsValid}
use renesas_ra8m1_provisioni.Broker.Session.Changed.{IsHarmless, modify-IsValid}
use renesas_ra8m1_provisioni.Broker.Service.{Service, State, ◌>>=◌, pure, reads}
use renesas_ra8m1_provisioni.Broker.Handler.Guard.{Params, Caller, session_of}
use renesas_ra8m1_provisioni.Broker.Handler.Sessions as Sessions
use renesas_ra8m1_provisioni.Broker.Handler.Kept.Rules.{
  IsKept, IsKept-some, IsKept-after, IsKept-then, IsKeeping-pure,
}
use renesas_ra8m1_provisioni.Broker.Handler.Kept.Methods.{
  login-IsHarmless, logout-IsHarmless, authenticate-IsHarmless,
}

close_session_of-IsKept :
    (l : Limits) (x : Option ClientSession) (s : State)
    → IsValid l s.manager
    → IsKept l (Sessions.close_session_of x s)
unfolding Sessions.close_session_of
close_session_of-IsKept l none s v = IsKept-some l _ s v
close_session_of-IsKept l (some x) s v =
    IsKept-some l _ (record s { manager = (close_session x.session_id s.manager).1 })
      (close_session-IsValid l x.session_id s.manager v)

pub finalize-IsKept :
    (l : Limits) (c : Caller) (params : Params) (s : State)
    → IsValid l s.manager
    → IsKept l (Sessions.finalize c params s)
unfolding Sessions.finalize
finalize-IsKept l c params s v =
    IsKept-then l (Sessions.close_session_of (session_of c s) s) _
      (close_session_of-IsKept l (session_of c s) s v)
      (λ _. IsKeeping-pure l (Sessions.status "ok"))

-- A change of an object, and a reply about it.
reply-IsKept :
    (l : Limits) (f : ClientSession → ClientSession) (r : ℕ) (j : ClientSession → Json) (s : State)
    → IsHarmless f
    → IsValid l s.manager
    → IsKept l ((Sessions.change f r >>= λ _. (reads (Sessions.object_at r) >>= λ x. pure (j x))) s)
unfolding Sessions.change
reply-IsKept l f r j s h v =
    let u : State = record s { manager = modify f r s.manager } in
    let w : IsValid l u.manager = modify-IsValid l f r s.manager h v in
    IsKept-after l u (Sessions.object_at r u) (λ x. pure (j x) u) w
      (λ x. IsKept-some l (ok (j x)) u w)

create-IsKept :
    (sv : Service) (c : Caller) (s : State)
    → IsValid sv.limits s.manager
    → IsKept sv.limits (Sessions.create sv c s)
unfolding Sessions.create
create-IsKept sv c s v = elim (Option-cases (create_session sv.limits c.client c.now s.manager)) [
  | inl e ↦ rw (e, Sessions.create) (λ r t i. cc)
  | inr ((r, m), e) ↦
      rw (e, Sessions.create)
        (IsKept-some sv.limits r (record s { manager = m })
          (create_session-IsValid sv.limits c.client c.now s.manager r m v e))
]

pub open_session-IsKept :
    (sv : Service) (c : Caller) (params : Params) (s : State)
    → IsValid sv.limits s.manager
    → IsKept sv.limits (Sessions.open_session sv c params s)
unfolding Sessions.open_session
open_session-IsKept sv c params s v =
    IsKept-then sv.limits (Sessions.create sv c s) _ (create-IsKept sv c s v) (λ r u w.
      reply-IsKept sv.limits (authenticate c.now) r Sessions.opened u
        (authenticate-IsHarmless c.now) w)

pub close_session_method-IsKept :
    (l : Limits) (sv : Service) (c : Caller) (params : Params) (s : State)
    → IsValid l s.manager
    → IsKept l (Sessions.close_session_method sv c params s)
unfolding Sessions.close_session_method
close_session_method-IsKept l sv c params s v =
    IsKept-after l s (Sessions.closed_id c params s) _ v (λ id.
      IsKept-some l _ (record s { manager = (close_session id s.manager).1 })
        (close_session-IsValid l id s.manager v))

login_session-IsKept :
    (sv : Service) (c : Caller) (params : Params) (s : State)
    → IsValid sv.limits s.manager
    → IsKept sv.limits (Sessions.login_session sv c params s)
unfolding Sessions.login_session
login_session-IsKept sv c params s v = elim (Option-cases (lookup "session_id" params)) [
  | inl e ↦ rw (e, Sessions.login_session) (IsKept-some sv.limits _ s v)
  | inr (id, e) ↦ elim (Bool-cases (is_empty id)) [
    | inl i ↦
        rw (e, Sessions.login_session)
          (rw (i, Sessions.login_session) (IsKept-some sv.limits _ s v))
    | inr i ↦
        rw (e, Sessions.login_session)
          (rw (i, Sessions.login_session)
            (IsKept-some sv.limits _
              (record s { manager = (get_session sv.limits id c.now s.manager).1 })
              (get_session-IsValid sv.limits id c.now s.manager v)))
  ]
]

pub login_method-IsKept :
    (sv : Service) (c : Caller) (params : Params) (s : State)
    → IsValid sv.limits s.manager
    → IsKept sv.limits (Sessions.login_method sv c params s)
unfolding Sessions.login_method
login_method-IsKept sv c params s v =
    IsKept-then sv.limits (Sessions.login_session sv c params s) _
      (login_session-IsKept sv c params s v)
      (λ session u w. IsKept-after sv.limits u (Sessions.found session) _ w (λ r.
        IsKept-after sv.limits u (Sessions.may_login sv c r u) _ w (λ _.
          reply-IsKept sv.limits (login c.now) r Sessions.logged u (login-IsHarmless c.now) w)))

pub logout_method-IsKept :
    (l : Limits) (c : Caller) (params : Params) (s : State)
    → IsValid l s.manager
    → IsKept l (Sessions.logout_method c params s)
unfolding Sessions.logout_method
logout_method-IsKept l c params s v = elim (Option-cases c.session) [
  | inl e ↦ rw (e, Sessions.logout_method) (IsKept-some l _ s v)
  | inr (r, e) ↦
      rw (e, Sessions.logout_method)
        (reply-IsKept l (logout c.now) r Sessions.logged s (logout-IsHarmless c.now) v)
]
