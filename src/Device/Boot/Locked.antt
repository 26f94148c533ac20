-- ===== src/Device/Boot/Locked.antt =====
-- `initialize_device` of device/ra8_provisioning_client.py in a state that it does not initialize.
use Prim.Native.Nat.{bit_and}
use renesas_ra8m1_provisioni.Prelude.{
  ℕ, ◌≡◌, ◌≢◌, refl, sym, ap, ◌∙◌, false, List, [], ◌∷◌, ◌++◌, ◌==◌, Bool-cases, arith, inl, inr,
  Option-cases, get_elem?,
}
use renesas_ra8m1_provisioni.Device.Serial.{
  Action, Port, ok, raised, Exn, ◌>>=◌, pure, receive_data_packet,
}
use renesas_ra8m1_provisioni.Device.Serial.Quiet.{IsQuiet, >>=-IsQuiet, receive_data_packet-IsQuiet}
use renesas_ra8m1_provisioni.Device.Boot.{
  byte_at, response_of, level_of, query, get_dlm_state, initialize_from, initialize_device,
}

initialize_from-other :
    (reset : Action Unit) (dlm : ℕ) (s : Port)
    → dlm ≢ 0x01
    → dlm ≢ 0x04
    → initialize_from reset dlm s ≡ (raised Exn.device_error, s)
unfolding initialize_from
initialize_from-other reset dlm s m n =
    let virgin : (dlm == 0x01) ≡ false = ground arith in
    let oem : (dlm == 0x04) ≡ false = ground arith in rw (virgin, oem) refl

bind-ok :
    {A B : Type 0} (m : Action A) (f : A → Action B) (s s' : Port) (a : A)
    → m s ≡ (ok a, s')
    → (m >>= f) s ≡ f a s'
bind-ok m f s s' a e = ap (λ z. elim z.0 [ ok b ↦ f b z.1 | raised x ↦ (raised x, z.1) ]) e

byte_at-IsQuiet : (packet : List ℕ) (i : ℕ) → IsQuiet (byte_at packet i)
byte_at-IsQuiet packet i s = elim (Option-cases (get_elem? packet i)) [
  | inl e ↦ rw (e, byte_at) refl
  | inr (b, e) ↦ rw (e, byte_at) refl
]

level_of-IsQuiet : (command : ℕ) (packet : List ℕ) (res : ℕ) → IsQuiet (level_of command packet res)
unfolding level_of
level_of-IsQuiet command packet res s = elim (Bool-cases (res == command)) [
  | inl e ↦ rw e (byte_at-IsQuiet packet 4 s)
  | inr e ↦ rw e refl
]

response_of-IsQuiet : (packet : List ℕ) → IsQuiet (response_of packet)
unfolding response_of
response_of-IsQuiet packet =
    >>=-IsQuiet {B = ℕ} (byte_at packet 3) (λ b. pure (bit_and b 0x7F)) (byte_at-IsQuiet packet 3)
      (λ b s. refl)

-- What a query does with the reply.
abbrev answer : ℕ → List ℕ → Action (ℕ × ℕ)
answer command rp = response_of rp >>= λ res. level_of command rp res >>= λ level. pure (res, level)

answer-IsQuiet : (command : ℕ) (rp : List ℕ) → IsQuiet (answer command rp)
answer-IsQuiet command rp =
    >>=-IsQuiet {B = ℕ × ℕ} (response_of rp)
      (λ res. level_of command rp res >>= λ level. pure (res, level)) (response_of-IsQuiet rp)
      (λ res.
        >>=-IsQuiet {B = ℕ × ℕ} (level_of command rp res) (λ level. pure (res, level))
          (level_of-IsQuiet command rp res) (λ level s. refl))

reply-IsQuiet : (command : ℕ) → IsQuiet (receive_data_packet >>= answer command)
reply-IsQuiet command =
    >>=-IsQuiet receive_data_packet (answer command) receive_data_packet-IsQuiet
      (answer-IsQuiet command)

query_sent :
    (command : ℕ) (packet : List ℕ) (s : Port)
    → (query command packet s).1.sent ≡ s.sent ++ packet ∷ []
unfolding query
query_sent command packet s = reply-IsQuiet command (record s { sent = s.sent ++ packet ∷ [] })

abbrev pub dlm_query : List ℕ
dlm_query = 0x01 ∷ 0x00 ∷ 0x01 ∷ 0x2C ∷ 0xD3 ∷ 0x03 ∷ []

get_dlm_state_sent : (s : Port) → (get_dlm_state s).1.sent ≡ s.sent ++ dlm_query ∷ []
unfolding get_dlm_state
get_dlm_state_sent s = query_sent 0x2C dlm_query s

-- On a device in any state but CM and OEM, the initialization raises a `DeviceError`, has sent the query of
-- the state and nothing else, and does not ask for a reset.
pub initialize_device-other :
    (reset : Action Unit) (res dlm : ℕ) (s s' : Port)
    → get_dlm_state s ≡ (ok (res, dlm), s')
    → dlm ≢ 0x01
    → dlm ≢ 0x04
    → (initialize_device reset s ≡ (raised Exn.device_error, s'))
      × (s'.sent ≡ s.sent ++ dlm_query ∷ [])
unfolding initialize_device
initialize_device-other reset res dlm s s' e m n = (
  bind-ok get_dlm_state (λ answer. initialize_from reset answer.1) s s' (res, dlm) e
      ∙ initialize_from-other reset dlm s' m n,
  ap (λ z. z.1.sent) (sym e) ∙ get_dlm_state_sent s,
)
