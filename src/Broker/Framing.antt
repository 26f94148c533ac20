-- ===== src/Broker/Framing.antt =====
-- `read_message` and `write_message` of security/broker/protocol.py. A socket is what its calls of
-- `recv` will find, piece by piece; none is left, or the piece is empty, when the peer has closed.
pub mod Segments
use renesas_ra8m1_provisioni.Prelude.{
  ℕ, zero, suc, ◌+◌, ◌-◌, ◌*◌, ◌/◌, ◌%◌, min, Option, none, some, List, [], ◌∷◌, ◌++◌, ltb,
  if◌then◌else◌, length, take, drop,
}

abbrev pub Socket : Type 0
Socket = List (List ℕ)

-- What is left of a piece, in front of the pieces after it.
unfoldable pub push_back : List ℕ → Socket → Socket
push_back [] s = s
push_back (b ∷ bs) s = (b ∷ bs) ∷ s

unfoldable pub recv : ℕ → Socket → List ℕ × Socket
unfolding push_back
recv n [] = ([], [])
recv n (piece ∷ s) = (take n piece, push_back (drop n piece) s)

-- A chunk in front of what the rest of the loop reads; an empty one ends it.
unfoldable pub gather : List ℕ → Option (List ℕ × Socket) → Option (List ℕ × Socket)
gather [] more = none
gather (b ∷ bs) none = none
gather (b ∷ bs) (some (data', s')) = some ((b ∷ bs) ++ data', s')

-- The loop that asks for the `need` bytes that are left, at most `most` at a time; none if the
-- connection closes. A round takes a byte or more, so that as much fuel as bytes is enough.
unfoldable pub recv_all : ℕ → ℕ → ℕ → Socket → Option (List ℕ × Socket)
unfolding recv gather
recv_all most fuel zero s = some ([], s)
recv_all most zero (suc need) s = none
recv_all most (suc fuel) (suc need) s =
    let (chunk, rest) = recv (min (suc need) most) s in
    gather chunk (recv_all most fuel (suc need - length chunk) rest)

-- `struct.unpack(">I", b)` of four bytes
unfoldable pub unpack : List ℕ → ℕ
unpack (a ∷ b ∷ c ∷ d ∷ []) = ((a * 256 + b) * 256 + c) * 256 + d
unpack bs = 0

-- `struct.pack(">I", n)`; none is the `struct.error` of a number that four bytes do not hold.
unfoldable pub pack : ℕ → Option (List ℕ)
pack n =
    if ltb n 0x100000000
    then some (n / 0x1000000 ∷ n / 0x10000 % 256 ∷ n / 0x100 % 256 ∷ n % 256 ∷ [])
    else none

-- A message and what is left of the socket, or the `ConnectionError` or `ValueError`.
pub data Read : Type 0 where
  message : List ℕ → Socket → Read
  connection_closed too_large : Read

unfoldable pub read_body : ℕ → Socket → Read
unfolding recv_all
read_body n s = if ltb (16 * 1024 * 1024) n then Read.too_large else elim (recv_all 65536 n n s) [
  | none ↦ Read.connection_closed
  | some (data', s') ↦ Read.message data' s'
]

unfoldable pub read_message : Socket → Read
unfolding recv_all unpack read_body
read_message s = elim (recv_all 4 4 4 s) [
  | none ↦ Read.connection_closed
  | some (length_data, s') ↦ read_body (unpack length_data) s'
]

-- The bytes that `write_message` sends.
unfoldable pub write_message : List ℕ → Option (List ℕ)
unfolding pack
write_message data' = elim (pack (length data')) [
  | none ↦ none
  | some length_prefix ↦ some (length_prefix ++ data')
]
