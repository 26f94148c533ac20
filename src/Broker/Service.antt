-- ===== src/Broker/Service.antt =====
-- The state of the broker's service and the actions on it. The client of AWS KMS (security/hsm/aws_kms.py)
-- is a parameter: what each of its calls returns, or the text of the exception that it raises.
use renesas_ra8m1_provisioni.Prelude.{ℕ, String, Bool, Option, none, some, List}
use renesas_ra8m1_provisioni.Broker.Exn.{Result, ok, raised}
use renesas_ra8m1_provisioni.Broker.Glob.{Host}
use renesas_ra8m1_provisioni.Broker.Policy.{AuthorizationManager}
use renesas_ra8m1_provisioni.Broker.Session.{Limits, Manager}

pub data Reply (A : Type 0) : Type 0 where
  done : A → Reply A
  failed : String → Reply A

-- `KeyType` and `KeyCurve` of models/keys.py, as far as the broker names them.
pub data KeyType : Type 0 where
  oem_root oem_bootloader customer : KeyType

pub data KeyCurve : Type 0 where
  secp256r1 secp384r1 secp521r1 : KeyCurve

-- `KeyPair` of models/keys.py, without what the broker does not read.
pub record KeyPair : Type 0 where
  pub public_key : List ℕ
  pub private_key_handle : Option String
  pub label : Option String

-- What `list_keys` says of a key; a missing field is none.
pub record KeyInfo : Type 0 where
  pub key_id : Option String
  pub arn : Option String
  pub key_state : Option String
  pub key_spec : Option String
  pub key_usage : Option String

pub record KmsClient : Type 0 where
  pub sign_data : String → List ℕ → Reply (List ℕ)
  pub sign_digest : String → List ℕ → Reply (List ℕ)
  pub get_public_key : String → Reply (List ℕ)
  pub verify_signature : List ℕ → List ℕ → List ℕ → String → Reply Bool
  pub hash_data : List ℕ → String → Reply (List ℕ)
  pub generate_key_pair : KeyType → KeyCurve → Option String → Reply KeyPair
  pub list_keys : Reply (List KeyInfo)

-- `KMSBackend`: whether it is connected, the region in its configuration, and its client.
pub record Backend : Type 0 where
  pub connected : Bool
  pub region : String
  pub client : KmsClient

-- What a request handler is made of; `base64_error` is the text of the exception of `b64decode`.
pub record Service : Type 0 where
  pub host : Host
  pub limits : Limits
  pub authorization_manager : Option AuthorizationManager
  pub backend : Backend
  pub base64_error : String → String

-- The calls of the client, with what they are given.
pub data Call : Type 0 where
  sign : String → List ℕ → Call
  sign_digest : String → List ℕ → Call
  verify_signature : List ℕ → List ℕ → List ℕ → String → Call
  hash : List ℕ → String → Call
  get_public_key : String → Call
  generate_key_pair : KeyType → KeyCurve → Option String → Call
  list_keys : Call

-- The session manager, and the calls of the client so far.
pub record State : Type 0 where
  pub manager : Manager
  pub calls : List Call

-- None stands for an action that does not end.
abbrev pub Action : Type 0 → Type 0
Action A = State → Option (Result A × State)

infixl 5 ◌>>=◌ ◌>>◌
abbrev pub ◌>>=◌ : {A B : Type 0} → Action A → (A → Action B) → Action B
◌>>=◌ m f s = elim (m s) [
  | none ↦ none
  | some (r, s') ↦ elim r [ ok a ↦ f a s' | raised e ↦ some (raised e, s') ]
]

abbrev pub ◌>>◌ : {A B : Type 0} → Action A → Action B → Action B
m >> k = m >>= λ _. k

abbrev pub pure : {A : Type 0} → A → Action A
pure a s = some (ok a, s)

-- A result of code that reads the state and leaves it.
abbrev pub reads : {A : Type 0} → (State → Result A) → Action A
reads f s = some (f s, s)

abbrev pub lift : {A : Type 0} → Result A → Action A
lift r s = some (r, s)

-- A change of the sessions that returns a value.
abbrev pub manage : {A : Type 0} → (Manager → A × Manager) → Action A
manage f s = let (a, m) = f s.manager in some (ok a, record s { manager = m })
