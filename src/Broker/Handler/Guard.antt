-- ===== src/Broker/Handler/Guard.antt =====
-- security/broker/service/handler.py: what its methods share, the parameters of a request and the
-- authorization check. Parameters are texts; one that is null is missing.
use Prim.Native.String.{◌++◌ as append}
use renesas_ra8m1_provisioni.Prelude.{
  ℕ, String, Bool, false, not, ◌&&◌, Option, none, some, List, [], ◌∷◌, if◌then◌else◌, get_elem?,
}
use renesas_ra8m1_provisioni.Broker.Text.{is_empty, lookup}
use renesas_ra8m1_provisioni.Broker.Base64.{decode}
use renesas_ra8m1_provisioni.Broker.Exn.{Exn, Result, ok, raised, authorization_error, broker_error}
use renesas_ra8m1_provisioni.Broker.Policy.{ClientIdentity, client_id, member}
use renesas_ra8m1_provisioni.Broker.Policy as Policy
use renesas_ra8m1_provisioni.Broker.Session.{ClientSession, is_logged_in, touch, modify, Manager}
use renesas_ra8m1_provisioni.Broker.Service.{Service, State, Action, manage}

abbrev pub Params : Type 0
Params = List (String × String)

-- Who calls, the place of the session object of the connection, and the time.
pub record Caller : Type 0 where
  pub client : ClientIdentity
  pub session : Option ℕ
  pub now : ℕ

-- The connection's session object.
unfoldable pub session_of : Caller → State → Option ClientSession
session_of c s = elim c.session [ none ↦ none | some r ↦ get_elem? s.manager.objects r ]

-- A parameter, or the error that it is missing.
unfoldable pub required : String → Params → Result {0} String
unfolding lookup
required name params = elim (lookup name params) [
  | none ↦ raised (broker_error (append "Missing " (append name " parameter")))
  | some v ↦
      (if is_empty v
        then raised (broker_error (append "Missing " (append name " parameter")))
        else ok v)
]

-- `params.get(name, default)`
unfoldable pub or_else : String → String → Params → String
unfolding lookup
or_else name default params = elim (lookup name params) [ none ↦ default | some v ↦ v ]

unfoldable pub b64decode : Service → String → Result {0} (List ℕ)
unfolding decode
b64decode sv text = elim (decode text) [
  | none ↦ raised (Exn.other (sv.base64_error text))
  | some bytes ↦ ok bytes
]

-- The operations that need a session that is logged in.
unfoldable pub needs_login : String → Bool
unfolding member
needs_login operation =
    member operation
      ("sign" ∷ "sign_digest" ∷ "verify" ∷ "hash" ∷ "get_public_key" ∷ "generate_key_pair" ∷ [])

unfoldable pub has_login : Caller → State → Bool
unfolding session_of
has_login c s = elim (session_of c s) [ none ↦ false | some x ↦ is_logged_in x ]

unfoldable pub check_policies : Service → ClientIdentity → String → Option String → Result {0} Unit
unfolding Policy.check_authorization
check_policies sv client operation key_arn = elim sv.authorization_manager [
  | none ↦ ok tt
  | some m ↦ Policy.check_authorization sv.host m client operation key_arn
]

-- `_check_authorization`
unfoldable pub check_authorization :
    Service → Caller → String → Option String → State → Result {0} Unit
unfolding needs_login has_login check_policies authorization_error client_id
check_authorization sv c operation key_arn s =
    if needs_login operation && not (has_login c s)
    then raised (
        authorization_error "Session not logged in" (some (client_id c.client)) (some operation)
          none)
    else check_policies sv c.client operation key_arn

-- `if session: session.touch()`
unfoldable pub touch_session : Caller → Action Unit
unfolding modify
touch_session c =
    manage
      (λ (m : Manager). elim c.session [ none ↦ (tt, m) | some r ↦ (tt, modify (touch c.now) r m) ])
