-- ===== src/Device/Boot.antt =====
-- The queries of the boot firmware and `initialize_device` of device/ra8_provisioning_client.py. The reset
-- of the board and the new connection are a parameter. Delays and logging are left out.
pub mod Locked
use renesas_ra8m1_provisioni.Prelude.{
  ℕ, zero, suc, Bool, true, false, not, Option, none, some, List, [], ◌∷◌, ◌++◌, ◌==◌,
  if◌then◌else◌, get_elem?,
}
use Prim.Native.Nat.{bit_and}
use renesas_ra8m1_provisioni.Device.Serial.{
  Action, Result, ok, raised, Exn, ◌>>=◌, ◌>>◌, pure, raise, write, read, calc_sum,
  receive_data_packet,
}
use renesas_ra8m1_provisioni.Device.Command.{framed}

-- `packet[i]`
abbrev pub byte_at : List ℕ → ℕ → Action ℕ
byte_at packet i = elim (get_elem? packet i) [ none ↦ raise Exn.index_error | some b ↦ pure b ]

-- `packet[3] & 0x7F`
unfoldable pub response_of : List ℕ → Action ℕ
response_of packet = do b ← byte_at packet 3; pure (bit_and b 0x7F)

-- The level that a reply gives, 0xFF for a reply to another command.
unfoldable pub level_of : ℕ → List ℕ → ℕ → Action ℕ
level_of command packet res = if res == command then byte_at packet 4 else pure 0xFF

-- A query: its packet is `01 00 01`, the command, the checksum and `03`.
unfoldable pub query : ℕ → List ℕ → Action (ℕ × ℕ)
query command packet = do
  write packet
  rp ← receive_data_packet
  res ← response_of rp
  level ← level_of command rp res
  pure (res, level)

unfoldable pub get_dlm_state : Action (ℕ × ℕ)
get_dlm_state = query 0x2C (0x01 ∷ 0x00 ∷ 0x01 ∷ 0x2C ∷ 0xD3 ∷ 0x03 ∷ [])

unfoldable pub get_protection_level : Action (ℕ × ℕ)
get_protection_level = query 0x73 (0x01 ∷ 0x00 ∷ 0x01 ∷ 0x73 ∷ 0x8C ∷ 0x03 ∷ [])

unfoldable pub get_authentication_level : Action (ℕ × ℕ)
get_authentication_level = do
  answer ← query 0x75 (0x01 ∷ 0x00 ∷ 0x01 ∷ 0x75 ∷ 0x8A ∷ 0x03 ∷ [])
  if answer.0 == 0x75 then pure answer else raise Exn.device_error

unfoldable pub command_inquiry : Action Unit
command_inquiry = write (0x01 ∷ 0x00 ∷ 0x01 ∷ 0x00 ∷ 0xFF ∷ 0x03 ∷ [])

unfoldable pub command_signature_request : Action ℕ
command_signature_request = do
  write (0x01 ∷ 0x00 ∷ 0x01 ∷ 0x3A ∷ 0xC5 ∷ 0x03 ∷ [])
  rp ← receive_data_packet
  res ← response_of rp
  if res == 0x3A then pure res else raise Exn.device_error

-- The rounds of the handshake: what was read is the acknowledgement, or the next round.
unfoldable pub handshake : ℕ → Action Bool
handshake zero = pure false
handshake (suc loopcount) = do
  write (0x00 ∷ 0x00 ∷ 0x00 ∷ [])
  h ← read
  elim h [ [] ↦ handshake loopcount | b ∷ bs ↦ (if b == 0 then pure true else handshake loopcount) ]

unfoldable pub communication_setting : Action Bool
communication_setting = handshake 20

-- A packet of a command on two states, which are bytes, and the reply to it.
unfoldable pub change_states : ℕ → ℕ → ℕ → Action ℕ
change_states command source target = do
  write (framed 0x01 (0x00 ∷ 0x03 ∷ command ∷ source ∷ target ∷ []))
  rp ← receive_data_packet
  response_of rp

unfoldable pub dlm_state_transition : ℕ → ℕ → Action Bool
dlm_state_transition source_state target_state = do
  res ← change_states 0x71 source_state target_state
  pure (res == 0x71)

-- A `DeviceError` is logged.
abbrev pub unless_device_error : {A : Type 0} → Action A → Action Unit
unless_device_error m s =
    let (r, s') = m s in
    elim r [
      | ok a ↦ (ok tt, s')
      | raised Exn.device_error ↦ (ok tt, s')
      | raised e ↦ (raised e, s')
    ]

unfoldable pub verify_levels : Action Unit
verify_levels =
    unless_device_error
      (get_dlm_state >>= λ dlm. get_protection_level >>= λ pl. get_authentication_level)

-- The handshake after the reset.
unfoldable pub after_reset : Bool → Action Unit
after_reset connected =
    if connected
    then write (0x55 ∷ []) >>= (λ u. read >>= λ b. verify_levels)
    else raise Exn.device_error

unfoldable pub initialized : Action Unit → ℕ → Action Unit
initialized reset res =
    if res == 0x50
    then reset >>= (λ u. communication_setting >>= after_reset)
    else raise Exn.device_error

-- The Initialize command, in the state OEM.
unfoldable pub initialize_oem : Action Unit → Action Unit
initialize_oem reset = do res ← change_states 0x50 0x04 0x04; initialized reset res

unfoldable pub from_cm : Action Unit → Bool → Action Unit
from_cm reset transition_ok = if transition_ok then initialize_oem reset else raise Exn.device_error

-- By the state: virgin, OEM, or another, for which there is no initialization.
unfoldable pub initialize_from : Action Unit → ℕ → Action Unit
initialize_from reset dlm =
    if dlm == 0x01
    then dlm_state_transition 0x01 0x04 >>= from_cm reset
    else if dlm == 0x04
    then initialize_oem reset
    else raise Exn.device_error

unfoldable pub initialize_device : Action Unit → Action Unit
initialize_device reset = do answer ← get_dlm_state; initialize_from reset answer.1
