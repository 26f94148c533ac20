-- ===== src/Broker/Exn.antt =====
-- The exceptions of security/broker/exceptions.py, and the results of code that may raise them.
use renesas_ra8m1_provisioni.Prelude.{
  String, Option, none, some, List, [], ◌∷◌, ◌++◌, if◌then◌else◌,
}
use renesas_ra8m1_provisioni.Broker.Text.{ℤ, negsuc, is_empty}

abbrev pub Details : Type 0
Details = List (String × String)

-- `AuthorizationError`; the other subclasses of `BrokerError` with their error code, or with none; and
-- any exception that is no `BrokerError`. The text is `str(e)`.
pub data Exn : Type 0 where
  authorization : String → Details → Exn
  broker : Option ℤ → String → Details → Exn
  other : String → Exn

pub data Result {ℓ} (A : Type ℓ) : Type ℓ where
  ok : A → Result A
  raised : Exn → Result A

detail : String → Option String → Details
detail name none = []
detail name (some v) = if is_empty v then [] else (name, v) ∷ []

-- `AuthorizationError(message, client_id=…, operation=…, resource=…)`
unfoldable pub authorization_error : String → Option String → Option String → Option String → Exn
unfolding detail
authorization_error message client_id operation resource =
    Exn.authorization message
      (detail "client_id" client_id ++ (detail "operation" operation ++ detail "resource" resource))

-- `BrokerError(message)`
abbrev pub broker_error : String → Exn
broker_error message = Exn.broker none message []

-- `SessionError(message)`: its error code is -32003.
abbrev pub session_error : String → Exn
session_error message = Exn.broker (some (negsuc 32002)) message []

infixl 5 ◌>>=◌ ◌>>◌
abbrev pub ◌>>=◌ {ℓ κ} : {A : Type ℓ} {B : Type κ} → Result A → (A → Result B) → Result B
ok a >>= f = f a
raised e >>= f = raised e

abbrev pub ◌>>◌ {ℓ κ} : {A : Type ℓ} {B : Type κ} → Result A → Result B → Result B
m >> k = m >>= λ _. k
