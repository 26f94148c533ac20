-- ===== src/Pkcs11/Types.antt =====
-- security/broker/pkcs11/types.py: the constants and structures that the sessions use. Return values are
-- those that the code returns; mechanisms, attributes and flags are their numbers.
use Prim.Native.Nat.{bit_and}
use renesas_ra8m1_provisioni.Prelude.{ℕ, String, Bool, not, ◌||◌, List, ◌==◌}

pub data Ckr : Type 0 where
  ok slot_id_invalid function_failed key_handle_invalid mechanism_invalid : Ckr
  object_handle_invalid operation_active operation_not_initialized : Ckr
  session_handle_invalid session_parallel_not_supported signature_invalid : Ckr
  user_already_logged_in user_not_logged_in : Ckr
  cryptoki_not_initialized cryptoki_already_initialized : Ckr

pub data Cks : Type 0 where
  ro_public_session ro_user_functions rw_public_session rw_user_functions : Cks

abbrev pub ec_key_pair_gen : ℕ
ec_key_pair_gen = 0x1040

abbrev pub ecdsa : ℕ
ecdsa = 0x1041

abbrev pub ecdsa_sha256 : ℕ
ecdsa_sha256 = 0x1044

abbrev pub ecdsa_sha384 : ℕ
ecdsa_sha384 = 0x1045

abbrev pub ecdsa_sha512 : ℕ
ecdsa_sha512 = 0x1046

abbrev pub sha_1 : ℕ
sha_1 = 0x220

abbrev pub sha256 : ℕ
sha256 = 0x250

abbrev pub sha384 : ℕ
sha384 = 0x260

abbrev pub sha512 : ℕ
sha512 = 0x270

-- `mechanism in [CKM.ECDSA, …]`
unfoldable pub is_ecdsa : ℕ → Bool
is_ecdsa m = m == ecdsa || (m == ecdsa_sha256 || (m == ecdsa_sha384 || m == ecdsa_sha512))

-- `mechanism in [CKM.SHA256, …]`
unfoldable pub is_hash : ℕ → Bool
is_hash m = m == sha256 || (m == sha384 || (m == sha512 || m == sha_1))

-- `flags & CKF.RW_SESSION`
unfoldable pub has_flag : ℕ → ℕ → Bool
has_flag flag flags = not (bit_and flags flag == 0)

abbrev pub rw_session : ℕ
rw_session = 2

abbrev pub serial_session : ℕ
serial_session = 4

-- The value of a `CK_ATTRIBUTE`.
pub data Value : Type 0 where
  unset : Value
  number : ℕ → Value
  flag : Bool → Value
  text : String → Value
  bytes : List ℕ → Value

-- `CK_ATTRIBUTE`, less the length of its value, which no code reads.
pub record Attribute : Type 0 where
  pub type : ℕ
  pub value : Value
