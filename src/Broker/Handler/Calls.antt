-- ===== src/Broker/Handler/Calls.antt =====
-- Which requests of security/broker/service/handler.py reach the key service.
pub mod Rules
mod Quiet
mod Methods
use mathlib.Core.Path.{subst}
use renesas_ra8m1_provisioni.Prelude.{
  String, ◌≡◌, refl, sym, ap, ◌∙◌, ◌⊎◌, inl, inr, Bool, true, false, Option, none, some, List, [],
  ◌∷◌, ◌++◌, arith, if◌then◌else◌, str_eq, str_eq_iff, Option-cases, Bool-cases,
}
use renesas_ra8m1_provisioni.Broker.Json.{Json}
use renesas_ra8m1_provisioni.Broker.Service.{Service, State, Call, Action}
use renesas_ra8m1_provisioni.Broker.Handler.{
  Request, Response, handler_of, or_empty, handle_request,
}
use renesas_ra8m1_provisioni.Broker.Handler.Guard.{Params, Caller}
use renesas_ra8m1_provisioni.Broker.Handler.Crypto as Crypto
use renesas_ra8m1_provisioni.Broker.Handler.Sessions as Sessions
use renesas_ra8m1_provisioni.Broker.Handler.Calls.Rules.{
  Serves, Granted, AreGuarded, IsQuiet, IsGuarded, IsQuiet-pure, IsGuarded-quiet,
}
use renesas_ra8m1_provisioni.Broker.Handler.Calls.Quiet.{
  finalize-IsQuiet, open_session-IsQuiet, close_session_method-IsQuiet, login_method-IsQuiet,
  logout_method-IsQuiet, get_info-IsQuiet,
}
use renesas_ra8m1_provisioni.Broker.Handler.Calls.Methods.{
  sign-IsGuarded, sign_digest-IsGuarded, verify-IsGuarded, hash-IsGuarded, get_public_key-IsGuarded,
  list_keys-IsGuarded, generate_key_pair-IsGuarded,
}

-- A handler that is picked has what all have.
pub pick :
    (P : (Params → Action Json) → Type 0) (b : Bool) {x : Params → Action Json}
    {rest : Option (Params → Action Json)}
    → P x
    → ((h : Params → Action Json) → rest ≡ some h → P h)
    → (h : Params → Action Json) → (if b then some x else rest) ≡ some h
    → P h
pick P true {x} p f h e =
    subst P (ap (λ (o : Option (Params → Action Json)). elim o [ none ↦ h | some y ↦ y ]) e) p
pick P false p f h e = f h e

-- The same, if what a handler has may rest on its test.
pick_named :
    (P : (Params → Action Json) → Type 0) (method name : String) {x : Params → Action Json}
    {rest : Option (Params → Action Json)}
    → (method ≡ name → P x)
    → ((h : Params → Action Json) → rest ≡ some h → P h)
    → (h : Params → Action Json) → (if str_eq method name then some x else rest) ≡ some h
    → P h
pick_named P method name {x} {rest} p f h e = elim (Bool-cases (str_eq method name)) [
  | inl i ↦
      let here : some x ≡ some h = ground arith in
      pick P true (p ((str_eq_iff method name).0 i)) f h here
  | inr i ↦ let later : rest ≡ some h = ground arith in f h later
]

named-IsGuarded :
    (sv : Service) (c : Caller) (s : State) (method name : String) (x : Params → Action Json)
    → ((params : Params) → IsGuarded sv c s name (x params s))
    → method ≡ name
    → (params : Params) → IsGuarded sv c s method (x params s)
named-IsGuarded sv c s method name x g e params =
    subst (λ z. IsGuarded sv c s z (x params s)) (sym e) (g params)

handler_of-IsGuarded :
    (sv : Service) (c : Caller) (s : State) (method : String) (h : Params → Action Json)
    → handler_of sv c method ≡ some h
    → (params : Params) → IsGuarded sv c s method (h params s)
unfolding handler_of Sessions.initialize Sessions.ping
handler_of-IsGuarded sv c s method =
    let P : (Params → Action Json) → Type 0 =
      λ h. (params : Params) → IsGuarded sv c s method (h params s) in
    let quiet : (h : Params → Action Json) → ((p : Params) → IsQuiet (h p)) → P h =
      λ h q p. IsGuarded-quiet sv c s (h p) (q p) in
    pick P (str_eq method "initialize") (quiet (Sessions.initialize c) (λ p. IsQuiet-pure _)) (
      pick P (str_eq method "finalize") (quiet (Sessions.finalize c) (finalize-IsQuiet c)) (
        pick P (str_eq method "open_session")
          (quiet (Sessions.open_session sv c) (open_session-IsQuiet sv c))
          (pick P (str_eq method "close_session")
            (quiet (Sessions.close_session_method sv c) (close_session_method-IsQuiet sv c))
            (pick P (str_eq method "login")
              (quiet (Sessions.login_method sv c) (login_method-IsQuiet sv c))
              (pick P (str_eq method "logout")
                (quiet (Sessions.logout_method c) (logout_method-IsQuiet c))
                (pick_named P method "sign"
                  (named-IsGuarded sv c s method "sign" (Crypto.sign sv c) (sign-IsGuarded sv c s))
                  (pick_named P method "sign_digest"
                    (named-IsGuarded sv c s method "sign_digest" (Crypto.sign_digest sv c)
                      (sign_digest-IsGuarded sv c s))
                    (pick_named P method "verify"
                      (named-IsGuarded sv c s method "verify" (Crypto.verify sv c)
                        (verify-IsGuarded sv c s))
                      (pick_named P method "hash"
                        (named-IsGuarded sv c s method "hash" (Crypto.hash sv c)
                          (hash-IsGuarded sv c s))
                        (pick_named P method "get_public_key"
                          (named-IsGuarded sv c s method "get_public_key"
                            (Crypto.get_public_key sv c) (get_public_key-IsGuarded sv c s))
                          (pick_named P method "list_keys"
                            (named-IsGuarded sv c s method "list_keys" (Crypto.list_keys sv c)
                              (list_keys-IsGuarded sv c s))
                            (pick_named P method "generate_key_pair"
                              (named-IsGuarded sv c s method "generate_key_pair"
                                (Crypto.generate_key_pair sv c)
                                (generate_key_pair-IsGuarded sv c s))
                              (pick P (str_eq method "ping")
                                (quiet (Sessions.ping c) (λ p. IsQuiet-pure _))
                                (pick P (str_eq method "get_info")
                                  (quiet (Sessions.get_info sv c) (get_info-IsQuiet sv c))
                                  (λ h e. absurd (ground arith))))))))))))))))

-- A request makes no call of the key service's client, or those of the operation that its method names,
-- which is then granted when the request comes: the session of the connection is logged in, unless the
-- method is `list_keys`, and, if there is an authorization manager, the client's policy allows the
-- operation and its key. An operation makes one call, but for `verify`, which first asks for the public
-- key of the key that it is granted for, and makes a second call, that of `verify_signature` with this
-- key, if it gets it.
pub handle_request_calls :
    (sv : Service) (c : Caller) (q : Request) (s : State) (r : Response) (t : State)
    → handle_request sv c q s ≡ some (r, t)
    → (t.calls ≡ s.calls)
      ⊎ ((key : Option String) × (ks : List Call) × (t.calls ≡ s.calls ++ ks)
          × Serves sv q.method key ks
          × Granted sv c s q.method key)
unfolding handle_request
handle_request_calls sv c q s r t h = elim (Option-cases (handler_of sv c q.method)) [
  | inl e ↦ inl (ground arith)
  | inr (f, e) ↦ elim (Option-cases (f (or_empty q.params) s)) [
    | inl i ↦ inl (ground arith)
    | inr ((a, u), i) ↦ elim (Bool-cases (str_eq q.jsonrpc "2.0")) [
      | inl j ↦
          let k : u ≡ t = ground arith in
          subst (AreGuarded sv c s q.method) k
            (handler_of-IsGuarded sv c s q.method f e (or_empty q.params) a u i)
      | inr j ↦ inl (ground arith)
    ]
  ]
]
