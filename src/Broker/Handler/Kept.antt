-- ===== src/Broker/Handler/Kept.antt =====
-- The invariant of the session manager along the requests of security/broker/service/handler.py.
pub mod Rules
pub mod Methods
pub mod Sessions
use mathlib.Core.Path.{subst}
use renesas_ra8m1_provisioni.Prelude.{
  ℕ, String, ◌≡◌, refl, sym, ap, ◌∙◌, ◌⊎◌, inl, inr, Bool, true, false, Option, none, some, List,
  [], ◌∷◌, ◌++◌, arith, if◌then◌else◌, str_eq, Option-cases, Bool-cases,
}
use renesas_ra8m1_provisioni.Broker.Json.{Json}
use renesas_ra8m1_provisioni.Broker.Exn.{ok}
use renesas_ra8m1_provisioni.Broker.Session.{Limits}
use renesas_ra8m1_provisioni.Broker.Session.Kept.{IsValid}
use renesas_ra8m1_provisioni.Broker.Service.{Service, State, Action}
use renesas_ra8m1_provisioni.Broker.Handler.{
  Request, Response, handler_of, or_empty, handle_request,
}
use renesas_ra8m1_provisioni.Broker.Handler.Guard.{Params, Caller}
use renesas_ra8m1_provisioni.Broker.Handler.Sessions as SessionMethods
use renesas_ra8m1_provisioni.Broker.Handler.Calls.{pick}
use renesas_ra8m1_provisioni.Broker.Handler.Kept.Rules.{IsKept, IsKept-some, IsKeeping}
use renesas_ra8m1_provisioni.Broker.Handler.Kept.Sessions.{
  finalize-IsKept, open_session-IsKept, close_session_method-IsKept, login_method-IsKept,
  logout_method-IsKept,
}
use renesas_ra8m1_provisioni.Broker.Handler.Kept.Methods.{
  sign-IsKept, sign_digest-IsKept, verify-IsKept, hash-IsKept, get_public_key-IsKept,
  list_keys-IsKept, generate_key_pair-IsKept,
}

handler_of-IsKeeping :
    (sv : Service) (c : Caller) (method : String) (h : Params → Action Json)
    → handler_of sv c method ≡ some h
    → (params : Params) → IsKeeping sv.limits (h params)
unfolding handler_of SessionMethods.initialize SessionMethods.ping SessionMethods.get_info
handler_of-IsKeeping sv c method =
    let l : Limits = sv.limits in
    let P : (Params → Action Json) → Type 0 =
      λ h. (params : Params) → IsKeeping sv.limits (h params) in
    pick P (str_eq method "initialize") (λ p s v. IsKept-some l _ s v)
      (pick P (str_eq method "finalize") (finalize-IsKept l c) (
        pick P (str_eq method "open_session") (open_session-IsKept sv c) (
          pick P (str_eq method "close_session") (close_session_method-IsKept l sv c) (
            pick P (str_eq method "login") (login_method-IsKept sv c) (
              pick P (str_eq method "logout") (logout_method-IsKept l c) (
                pick P (str_eq method "sign") (sign-IsKept l sv c) (
                  pick P (str_eq method "sign_digest") (sign_digest-IsKept l sv c) (
                    pick P (str_eq method "verify") (verify-IsKept l sv c) (
                      pick P (str_eq method "hash") (hash-IsKept l sv c) (
                        pick P (str_eq method "get_public_key") (get_public_key-IsKept l sv c) (
                          pick P (str_eq method "list_keys") (list_keys-IsKept l sv c) (
                            pick P (str_eq method "generate_key_pair")
                              (generate_key_pair-IsKept l sv c)
                              (pick P (str_eq method "ping") (λ p s v. IsKept-some l _ s v)
                                (pick P (str_eq method "get_info") (λ p s v. IsKept-some l _ s v)
                                  (λ h e. absurd (ground arith))))))))))))))))

-- A request that ends keeps the manager's invariant, whatever the request is.
pub handle_request-IsValid :
    (sv : Service) (c : Caller) (q : Request) (s : State) (r : Response) (t : State)
    → IsValid sv.limits s.manager
    → handle_request sv c q s ≡ some (r, t)
    → IsValid sv.limits t.manager
unfolding handle_request
handle_request-IsValid sv c q s r t v h = elim (Option-cases (handler_of sv c q.method)) [
  | inl e ↦ (let k : s ≡ t = ground arith in subst (λ (z : State). IsValid sv.limits z.manager) k v)
  | inr (f, e) ↦ elim (Option-cases (f (or_empty q.params) s)) [
    | inl i ↦
        (let k : s ≡ t = ground arith in subst (λ (z : State). IsValid sv.limits z.manager) k v)
    | inr ((a, u), i) ↦ elim (Bool-cases (str_eq q.jsonrpc "2.0")) [
      | inl j ↦
          let k : u ≡ t = ground arith in
          subst (λ (z : State). IsValid sv.limits z.manager) k
            (handler_of-IsKeeping sv c q.method f e (or_empty q.params) s v a u i)
      | inr j ↦
          (let k : s ≡ t = ground arith in subst (λ (z : State). IsValid sv.limits z.manager) k v)
    ]
  ]
]

-- States that requests lead to, one after the other, from any callers.
pub data Reaches (sv : Service) : State → State → Type 0 where
  start : (s : State) → Reaches sv s s
  request :
      {s t u : State} (c : Caller) (q : Request) (r : Response)
      → Reaches sv s t
      → handle_request sv c q t ≡ some (r, u)
      → Reaches sv s u

-- After any sequence of requests that end, from any clients and at any times, the manager's
-- identifiers are distinct, its entries are of sessions that are not closed, and there are no more
-- than allowed, if this was so before.
pub Reaches-IsValid :
    (sv : Service) {s t : State}
    → Reaches sv s t
    → IsValid sv.limits s.manager
    → IsValid sv.limits t.manager
Reaches-IsValid sv (start s) v = v
Reaches-IsValid sv (request {t = t} {u = u} c q r p h) v =
    handle_request-IsValid sv c q t r u (Reaches-IsValid sv p v) h
