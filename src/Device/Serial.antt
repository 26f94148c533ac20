-- ===== src/Device/Serial.antt =====
-- The serial port as device/ra8_provisioning_client.py uses it, and its packet layer. The port is
-- pyserial's: what the device sends is the list `input`, in which `none` is a read that times out and
-- returns b''; what the tool writes is appended to `sent`, one entry to a call of `write`. The port
-- stays open: the checks of `_check_serial_alive` and `SerialException` are not modelled.
pub mod Checksum
pub mod Quiet
use Prim.Native.Nat.{bit_and}
use renesas_ra8m1_provisioni.Prelude.{
  ℕ, zero, suc, ◌+◌, ◌-◌, ◌*◌, ◌%◌, ◌/◌, ◌^◌, Bool, true, false, ◌≡◌, refl, Option, none, some,
  List, [], ◌∷◌, ◌++◌, ltb, ◌==◌, if◌then◌else◌, length, get_elem?,
}

pub record Port : Type 0 where
  pub input : List (Option ℕ)
  pub sent : List (List ℕ)

-- The exceptions that leave these methods: `DeviceError`, the tool's `TimeoutError`, and Python's own
-- `OverflowError` and `IndexError`.
pub data Exn : Type 0 where
  device_error timeout overflow index_error : Exn

pub data Result {ℓ} (A : Type ℓ) : Type ℓ where
  ok : A → Result A
  raised : Exn → Result A

abbrev pub Action : Type 0 → Type 0
Action A = Port → Result A × Port

infixl 5 ◌>>=◌ ◌>>◌
abbrev pub ◌>>=◌ : {A B : Type 0} → Action A → (A → Action B) → Action B
◌>>=◌ m f s = let (r, s') = m s in elim r [ ok a ↦ f a s' | raised e ↦ (raised e, s') ]

abbrev pub ◌>>◌ : {A B : Type 0} → Action A → Action B → Action B
m >> k = m >>= λ _. k

abbrev pub pure : {A : Type 0} → A → Action A
pure a s = (ok a, s)

abbrev pub raise : {A : Type 0} → Exn → Action A
raise e s = (raised e, s)

-- A sequence that returns was two calls that return.
bind_result :
    {A B : Type 0} (r : Result A) (s1 : Port) (f : A → Action B) {b : B} {s' : Port}
    → ◌≡◌ {A = Result B × Port} (elim r [ ok a ↦ f a s1 | raised e ↦ (raised e, s1) ]) (ok b, s')
    → (a : A) × (r ≡ ok a) × (f a s1 ≡ (ok b, s'))
bind_result (ok a) s1 f h = (a, refl, h)
bind_result (raised e) s1 f h = cc

pub >>=-eq-ok :
    {A B : Type 0} (m : Action A) (f : A → Action B) {s : Port} {b : B} {s' : Port}
    → (m >>= f) s ≡ (ok b, s')
    → (a : A) × ((m s).0 ≡ ok a) × (f a (m s).1 ≡ (ok b, s'))
>>=-eq-ok m f {s} h = bind_result (m s).0 (m s).1 f h

-- `ser.write(pkt)`
abbrev pub write : List ℕ → Action Unit
write pkt s = (ok tt, record s { sent = s.sent ++ pkt ∷ [] })

pop : List (Option ℕ) → List ℕ × List (Option ℕ)
pop [] = ([], [])
pop (none ∷ rest) = ([], rest)
pop (some b ∷ rest) = (b ∷ [], rest)

-- `ser.read()`: one byte, or nothing after a timeout
unfoldable pub read : Action (List ℕ)
unfolding pop
read s = let (b, rest) = pop s.input in (ok b, record s { input = rest })

-- `n` calls of `ser.read()`, each appended to `packet`
unfoldable pub read_times : ℕ → List ℕ → Action (List ℕ)
unfolding read
read_times zero packet = pure packet
read_times (suc n) packet = do b ← read; read_times n (packet ++ b)

-- `ser.read(n)`: up to `n` bytes, less if they do not come in time
unfoldable pub pop_many : ℕ → List (Option ℕ) → List ℕ × List (Option ℕ)
pop_many zero input = ([], input)
pop_many (suc n) [] = ([], [])
pop_many (suc n) (none ∷ rest) = ([], rest)
pop_many (suc n) (some b ∷ rest) = let (bs, rest') = pop_many n rest in (b ∷ bs, rest')

unfoldable pub read_many : ℕ → Action (List ℕ)
unfolding pop_many
read_many n s = let (bs, rest) = pop_many n s.input in (ok bs, record s { input = rest })

-- `int.from_bytes(b, "big")`
unfoldable pub from_bytes : ℕ → List ℕ → ℕ
from_bytes acc [] = acc
from_bytes acc (b ∷ bs) = from_bytes (acc * 256 + b) bs

-- `(x).to_bytes(4, 'big')`: the four bytes, and the `OverflowError`.
unfoldable pub be32 : ℕ → List ℕ
be32 x = (x / 2 ^ 24) ∷ (x / 2 ^ 16 % 256) ∷ (x / 2 ^ 8 % 256) ∷ (x % 256) ∷ []

unfoldable pub to_bytes4 : ℕ → Action (List ℕ)
unfolding be32
to_bytes4 x = if ltb x (2 ^ 32) then pure (be32 x) else raise overflow

unfoldable pub sum_bytes : List ℕ → ℕ
sum_bytes [] = 0
sum_bytes (b ∷ bs) = b + sum_bytes bs

-- `_calc_sum`
unfoldable pub calc_sum : List ℕ → ℕ
unfolding sum_bytes
calc_sum bytes = let count = sum_bytes bytes % 256 in (256 - count) % 256

-- `_receive_data_packet`, first its two endings: the rest of an error packet, and the length and the
-- rest of a data packet.
unfoldable pub receive_error : ℕ → Action (List ℕ)
unfolding read_many
receive_error sod = do read_many 7; raise device_error

unfoldable pub receive_length : ℕ → List ℕ → List ℕ → Action (List ℕ)
unfolding read_times from_bytes
receive_length sod lnh lnl =
    read_times (from_bytes 0 lnh * 256 + from_bytes 0 lnl + 2) ((sod ∷ lnh) ++ lnl)

unfoldable pub receive_low : ℕ → List ℕ → Action (List ℕ)
unfolding receive_length
receive_low sod lnh = do lnl ← read; receive_length sod lnh lnl

unfoldable pub receive_body : ℕ → Action (List ℕ)
unfolding receive_low
receive_body sod = do lnh ← read; receive_low sod lnh

-- The test of the start byte. For the log the source also empties the buffer after a timeout of the
-- first read, when the buffer holds nothing.
unfoldable pub receive_after_start : List ℕ → Action (List ℕ)
unfolding receive_error receive_body
receive_after_start [] = raise timeout
receive_after_start (sod ∷ _) =
    if sod == 0x01
    then receive_error sod
    else if sod == 0x81
    then receive_body sod
    else raise device_error

unfoldable pub receive_data_packet : Action (List ℕ)
unfolding receive_after_start read
receive_data_packet = do sod ← read; receive_after_start sod

-- The keys that `_decode_status_packet` sets; a packet of fewer than four bytes leaves the keys from
-- the first missing byte on unset, and its `IndexError` is dropped.
pub record Status : Type 0 where
  pub res : Option ℕ
  pub sts : Option ℕ
  pub st2 : Option ℕ
  pub adr : Option ℕ

unfoldable pub decode_status_packet : List ℕ → Status
unfolding from_bytes
decode_status_packet (sod ∷ lnh ∷ lnl ∷ res ∷ rest) = record {
  res = some (bit_and res 0x7F);
  sts = get_elem? rest 0;
  st2 = get_elem? rest 1;
  adr = elim rest [
    | a ∷ (r1 ∷ (b ∷ (c ∷ (d ∷ (e ∷ r))))) ↦ some (from_bytes 0 (b ∷ c ∷ d ∷ e ∷ []))
    | _ ↦ none
  ];
}
decode_status_packet _ = record { res = none; sts = none; st2 = none; adr = none }

-- `st.get("RES") == code`
abbrev pub is_value : Option ℕ → ℕ → Bool
is_value none code = false
is_value (some v) code = v == code

-- `st.get("STS") in (0x00, None)`
abbrev pub is_clear : Option ℕ → Bool
is_clear none = true
is_clear (some v) = v == 0
