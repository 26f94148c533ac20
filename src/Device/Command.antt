-- ===== src/Device/Command.antt =====
-- `_command_erase` and `_command_write` of device/ra8_srec_programmer.py. Delays and logging are left
-- out.
pub mod Frames
use renesas_ra8m1_provisioni.Prelude.{
  ℕ, zero, suc, ◌+◌, ◌-◌, ◌/◌, ◌%◌, Bool, true, false, List, [], ◌∷◌, ◌++◌, arith, ◌==◌, ◌&&◌, not,
  if◌then◌else◌, length, take, drop,
}
use renesas_ra8m1_provisioni.Device.Serial.{
  Action, Exn, ◌>>=◌, ◌>>◌, pure, raise, write, to_bytes4, calc_sum, receive_data_packet,
  decode_status_packet, is_value, is_clear,
}

-- A start byte, the packet's body, its checksum and the end byte.
unfoldable pub framed : ℕ → List ℕ → List ℕ
framed start body = start ∷ (body ++ (calc_sum body ∷ 0x03 ∷ []))

unfoldable pub command_body : ℕ → List ℕ → List ℕ → List ℕ
command_body cmd sad ead = 0x00 ∷ 0x09 ∷ cmd ∷ (sad ++ ead)

unfoldable pub data_body : List ℕ → List ℕ
data_body chunk = let length' = length chunk + 1 in (length' / 256) ∷ (length' % 256) ∷ 0x13 ∷ chunk

-- `(address + len(data) - 1).to_bytes(4, 'big')`: -1 has no such bytes.
unfoldable pub last_address : ℕ → ℕ → Action (List ℕ)
unfolding to_bytes4
last_address address n =
    if address + n == 0 then raise Exn.overflow else to_bytes4 (address + n - 1)

-- The reply to the erase packet.
unfoldable pub erase_reply : Action Bool
unfolding receive_data_packet decode_status_packet
erase_reply = do
  rp ← receive_data_packet
  let st = decode_status_packet rp
  pure (is_value st.res 0x12 && is_clear st.sts)

unfoldable pub send_erase : List ℕ → List ℕ → Action Bool
unfolding framed command_body erase_reply
send_erase sad ead = do write (framed 0x01 (command_body 0x12 sad ead)); erase_reply

unfoldable pub command_erase : ℕ → ℕ → Action Bool
unfolding to_bytes4 send_erase
command_erase start_addr end_addr = do
  sad ← to_bytes4 start_addr
  ead ← to_bytes4 end_addr
  send_erase sad ead

-- The reply to a write packet: is it accepted?
unfoldable pub is_accepted : List ℕ → Bool
unfolding decode_status_packet
is_accepted rp = let st = decode_status_packet rp in is_value st.res 0x13 && is_clear st.sts

unfoldable pub accepted : Action Bool
unfolding receive_data_packet is_accepted
accepted = do rp ← receive_data_packet; pure (is_accepted rp)

-- `if not accepted: return False`, and what follows it.
abbrev pub after_reply : Bool → Action Bool → Action Bool
after_reply true k = k
after_reply false k = pure false

-- `while offset < len(data)`, over what is left of the data and on fuel. Each round takes a byte or
-- more, so that the length of the data is enough.
unfoldable pub write_chunks : ℕ → List ℕ → Action Bool
unfolding framed data_body accepted
write_chunks fuel [] = pure true
write_chunks zero (b ∷ bs) = pure false
write_chunks (suc fuel) (b ∷ bs) =
    let chunk = take 1024 (b ∷ bs) in
    do
      write (framed 0x81 (data_body chunk))
      good ← accepted
      after_reply good (write_chunks fuel (drop 1024 (b ∷ bs)))

-- The packets of `_command_write`, once the addresses are bytes.
unfoldable pub send_write : List ℕ → List ℕ → List ℕ → Action Bool
unfolding framed command_body accepted write_chunks
send_write data' sad ead = do
  write (framed 0x01 (command_body 0x13 sad ead))
  good ← accepted
  after_reply good (write_chunks (length data') data')

unfoldable pub command_write : ℕ → List ℕ → Action Bool
unfolding to_bytes4 last_address send_write
command_write address data' = do
  sad ← to_bytes4 address
  ead ← last_address address (length data')
  send_write data' sad ead
