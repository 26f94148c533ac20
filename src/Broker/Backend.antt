-- ===== src/Broker/Backend.antt =====
-- security/broker/service/kms_backend.py: the operations, once the backend is made. Connecting and
-- disconnecting are not modelled, and the curve's case is folded as ASCII.
use Prim.Native.String.{◌++◌ as append}
use renesas_ra8m1_provisioni.Prelude.{
  ℕ, String, Bool, true, false, ◌&&◌, ◌||◌, Option, none, some, List, [], ◌∷◌, ◌++◌, map, ◌==◌,
  if◌then◌else◌,
}
use renesas_ra8m1_provisioni.Broker.Text.{codes}
use renesas_ra8m1_provisioni.Broker.Json.{Json, Items, Fields}
use renesas_ra8m1_provisioni.Broker.Base64.{encode}
use renesas_ra8m1_provisioni.Broker.Exn.{Result, ok, raised, broker_error}
use renesas_ra8m1_provisioni.Broker.Glob.{lower}
use renesas_ra8m1_provisioni.Broker.Service.{
  Reply, done, failed, KeyType, KeyCurve, KeyPair, KeyInfo, Backend, Call, Action, ◌>>=◌, ◌>>◌,
  pure, lift,
}

-- `_ensure_connected`
unfoldable pub ensure_connected : Backend → Result {0} Unit
ensure_connected b =
    if b.connected then ok tt else raised (broker_error "KMS backend not connected")

-- `raise BrokerError(f"{what} failed: {str(e)}")`
abbrev failure : {A : Type 0} → String → String → Result A
failure what e = raised (broker_error (append what (append " failed: " e)))

abbrev pub reply : {A : Type 0} → String → Reply A → Result A
reply what (done a) = ok a
reply what (failed e) = failure what e

-- A call of the client, and what comes of it.
abbrev pub call : {A : Type 0} → Call → Result A → Action A
call c r s = some (r, record s { calls = s.calls ++ (c ∷ []) })

unfoldable pub sign : Backend → String → List ℕ → Action (List ℕ)
unfolding ensure_connected
sign b key_arn data' = do
  lift (ensure_connected b)
  call (Call.sign key_arn data') (reply "Sign operation" (b.client.sign_data key_arn data'))

unfoldable pub sign_digest : Backend → String → List ℕ → Action (List ℕ)
unfolding ensure_connected
sign_digest b key_arn digest = do
  lift (ensure_connected b)
  call (Call.sign_digest key_arn digest)
      (reply "Sign digest operation" (b.client.sign_digest key_arn digest))

-- The public key is asked for first, and the client checks the signature with it.
unfoldable pub verify : Backend → String → List ℕ → List ℕ → Action Bool
unfolding ensure_connected
verify b key_arn data' signature = do
  lift (ensure_connected b)
  public_key ←
      call (Call.get_public_key key_arn)
        (reply "Verify operation" (b.client.get_public_key key_arn))
  call (Call.verify_signature public_key data' signature key_arn)
      (reply "Verify operation" (b.client.verify_signature public_key data' signature key_arn))

unfoldable pub get_public_key : Backend → String → Action (List ℕ)
unfolding ensure_connected
get_public_key b key_arn = do
  lift (ensure_connected b)
  call (Call.get_public_key key_arn) (reply "Get public key" (b.client.get_public_key key_arn))

unfoldable pub hash_data : Backend → List ℕ → String → Action (List ℕ)
unfolding ensure_connected
hash_data b data' algorithm = do
  lift (ensure_connected b)
  call (Call.hash data' algorithm) (reply "Hash operation" (b.client.hash_data data' algorithm))

same_codes : List ℕ → List ℕ → Bool
same_codes [] [] = true
same_codes (c ∷ cs) (d ∷ ds) = (c == d) && same_codes cs ds
same_codes cs ds = false

-- `s.lower() == key`
unfoldable pub lowers_to : String → String → Bool
unfolding same_codes lower
lowers_to s key = same_codes (map lower (codes s)) (codes key)

-- `curve_map` and `curve_enum_map`, which have the same keys.
unfoldable pub curve_spec : String → Option (KeyCurve × String)
unfolding lowers_to
curve_spec curve =
    if lowers_to curve "secp256r1" || lowers_to curve "p-256"
    then some (KeyCurve.secp256r1, "ECC_NIST_P256")
    else if lowers_to curve "secp384r1" || lowers_to curve "p-384"
    then some (KeyCurve.secp384r1, "ECC_NIST_P384")
    else if lowers_to curve "secp521r1" || lowers_to curve "p-521"
    then some (KeyCurve.secp521r1, "ECC_NIST_P521")
    else none

-- `key_type_map`
unfoldable pub key_type_of : String → Option KeyType
unfolding lowers_to
key_type_of key_type =
    if lowers_to key_type "oem_root"
    then some KeyType.oem_root
    else if lowers_to key_type "oem_bootloader"
    then some KeyType.oem_bootloader
    else if lowers_to key_type "customer"
    then some KeyType.customer
    else none

abbrev optional : Option String → Json
optional none = Json.null
optional (some s) = Json.str s

unfoldable pub key_fields : KeyPair → String → String → String → Fields
unfolding encode
key_fields k key_spec key_type curve = Fields.field "key_id" (optional k.private_key_handle) (
    Fields.field "arn" (optional k.private_key_handle) (
      Fields.field "public_key" (Json.str (encode k.public_key)) (
        Fields.field "key_spec" (Json.str key_spec) (
          Fields.field "label" (optional k.label) (
            Fields.field "key_type" (Json.str key_type)
              (Fields.field "curve" (Json.str curve) Fields.end))))))

-- A key type that is not known is an error inside the `try`, so it is reported as a failed generation.
unfoldable pub generate :
    Backend → String → KeyCurve → String → String → Option String → Action Json
unfolding key_type_of key_fields
generate b key_type kc curve key_spec label = elim (key_type_of key_type) [
  | none ↦ lift (failure "Key generation" (append "Unknown key type: " key_type))
  | some kt ↦ do
    k ←
        call (Call.generate_key_pair kt kc label)
          (reply "Key generation" (b.client.generate_key_pair kt kc label))
    pure (Json.obj (key_fields k key_spec key_type curve))
]

unfoldable pub for_curve :
    Backend → String → String → Option String → Option (KeyCurve × String) → Action Json
unfolding generate
for_curve b key_type curve label none =
    lift (raised (broker_error (append "Unsupported curve: " curve)))
for_curve b key_type curve label (some (kc, key_spec)) = generate b key_type kc curve key_spec label

unfoldable pub generate_key_pair : Backend → String → String → Option String → Action Json
unfolding ensure_connected curve_spec for_curve
generate_key_pair b key_type curve label = do
  lift (ensure_connected b)
  for_curve b key_type curve label (curve_spec curve)

key_info : KeyInfo → Json
key_info k = Json.obj (
    Fields.field "key_id" (optional k.key_id) (
      Fields.field "arn" (optional k.arn) (
        Fields.field "state" (optional k.key_state) (
          Fields.field "key_spec" (optional k.key_spec)
            (Fields.field "key_usage" (optional k.key_usage) Fields.end)))))

key_infos : List KeyInfo → Items
unfolding key_info
key_infos [] = Items.nil
key_infos (k ∷ ks) = Items.cons (key_info k) (key_infos ks)

unfoldable pub list_keys : Backend → Action Json
unfolding ensure_connected key_infos
list_keys b = do
  lift (ensure_connected b)
  ks ← call Call.list_keys (reply "List keys" b.client.list_keys)
  pure (Json.arr (key_infos ks))

unfoldable pub get_info : Backend → Json
get_info b = Json.obj (
    Fields.field "type" (Json.str "aws_kms") (
      Fields.field "region" (Json.str b.region)
        (Fields.field "connected" (Json.bool b.connected) Fields.end)))
