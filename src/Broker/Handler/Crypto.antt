-- ===== src/Broker/Handler/Crypto.antt =====
-- security/broker/service/handler.py: the methods that use the keys.
use renesas_ra8m1_provisioni.Prelude.{ℕ, String, none, some, List}
use renesas_ra8m1_provisioni.Broker.Text.{lookup}
use renesas_ra8m1_provisioni.Broker.Json.{Json, Fields}
use renesas_ra8m1_provisioni.Broker.Base64.{encode}
use renesas_ra8m1_provisioni.Broker.Service.{Service, Action, ◌>>=◌, ◌>>◌, pure, lift, reads}
use renesas_ra8m1_provisioni.Broker.Backend as Backend
use renesas_ra8m1_provisioni.Broker.Handler.Guard.{
  Params, Caller, required, or_else, b64decode, check_authorization, touch_session,
}

abbrev keyed : String → Json → String → Json
keyed name value key_arn =
    Json.obj (Fields.field name value (Fields.field "key_arn" (Json.str key_arn) Fields.end))

-- `base64.b64encode(b).decode("ascii")`
abbrev encoded : List ℕ → Json
encoded b = Json.str (encode b)

unfoldable pub sign : Service → Caller → Params → Action Json
unfolding required check_authorization b64decode Backend.sign touch_session
sign sv c params = do
  key_arn ← lift (required "key_arn" params)
  data_b64 ← lift (required "data" params)
  reads (check_authorization sv c "sign" (some key_arn))
  data' ← lift (b64decode sv data_b64)
  signature ← Backend.sign sv.backend key_arn data'
  touch_session c
  pure (keyed "signature" (encoded signature) key_arn)

unfoldable pub sign_digest : Service → Caller → Params → Action Json
unfolding required check_authorization b64decode Backend.sign_digest touch_session
sign_digest sv c params = do
  key_arn ← lift (required "key_arn" params)
  digest_b64 ← lift (required "digest" params)
  reads (check_authorization sv c "sign_digest" (some key_arn))
  digest ← lift (b64decode sv digest_b64)
  signature ← Backend.sign_digest sv.backend key_arn digest
  touch_session c
  pure (keyed "signature" (encoded signature) key_arn)

unfoldable pub verify : Service → Caller → Params → Action Json
unfolding required check_authorization b64decode Backend.verify touch_session
verify sv c params = do
  key_arn ← lift (required "key_arn" params)
  data_b64 ← lift (required "data" params)
  signature_b64 ← lift (required "signature" params)
  reads (check_authorization sv c "verify" (some key_arn))
  data' ← lift (b64decode sv data_b64)
  signature ← lift (b64decode sv signature_b64)
  is_valid ← Backend.verify sv.backend key_arn data' signature
  touch_session c
  pure (keyed "valid" (Json.bool is_valid) key_arn)

unfoldable pub hash : Service → Caller → Params → Action Json
unfolding required or_else check_authorization b64decode Backend.hash_data touch_session
hash sv c params = do
  let algorithm = or_else "algorithm" "SHA256" params
  data_b64 ← lift (required "data" params)
  reads (check_authorization sv c "hash" none)
  data' ← lift (b64decode sv data_b64)
  digest ← Backend.hash_data sv.backend data' algorithm
  touch_session c
  pure (
      Json.obj (
        Fields.field "digest" (encoded digest)
          (Fields.field "algorithm" (Json.str algorithm) Fields.end)))

unfoldable pub get_public_key : Service → Caller → Params → Action Json
unfolding required check_authorization Backend.get_public_key touch_session
get_public_key sv c params = do
  key_arn ← lift (required "key_arn" params)
  reads (check_authorization sv c "get_public_key" (some key_arn))
  public_key ← Backend.get_public_key sv.backend key_arn
  touch_session c
  pure (
      Json.obj (
        Fields.field "public_key" (encoded public_key) (
          Fields.field "key_arn" (Json.str key_arn)
            (Fields.field "format" (Json.str "DER") Fields.end))))

unfoldable pub list_keys : Service → Caller → Params → Action Json
unfolding check_authorization Backend.list_keys touch_session
list_keys sv c params = do
  reads (check_authorization sv c "list_keys" none)
  keys ← Backend.list_keys sv.backend
  touch_session c
  pure (Json.obj (Fields.field "keys" keys Fields.end))

unfoldable pub generate_key_pair : Service → Caller → Params → Action Json
unfolding lookup required or_else check_authorization Backend.generate_key_pair touch_session
generate_key_pair sv c params = do
  key_type ← lift (required "key_type" params)
  reads (check_authorization sv c "generate_key_pair" none)
  result ←
      Backend.generate_key_pair sv.backend key_type (or_else "curve" "secp256r1" params)
        (lookup "label" params)
  touch_session c
  pure result
