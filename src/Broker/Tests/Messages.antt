-- ===== src/Broker/Tests/Messages.antt =====
-- The theorems on the framing of messages at concrete inputs.
use mathlib.Core.List.{flatten}
use renesas_ra8m1_provisioni.Prelude.{◌≡◌, refl, [], ◌∷◌, arith}
use renesas_ra8m1_provisioni.Broker.Framing.{
  Socket, Read, unpack, pack, read_message, write_message,
}
use renesas_ra8m1_provisioni.Broker.Framing.Segments.{
  AreOpen, read_message-write_message, read_message_too_large,
}

-- A message of three bytes in three pieces, and the first byte of the next message.
abbrev pieces : Socket
pieces = (0 ∷ 0 ∷ []) ∷ (0 ∷ 3 ∷ 7 ∷ []) ∷ (8 ∷ 9 ∷ 0 ∷ []) ∷ []

read_message-write_message_example :
    (s' : Socket) × (read_message pieces ≡ Read.message (7 ∷ 8 ∷ 9 ∷ []) s')
    × AreOpen s'
    × (flatten s' ≡ 0 ∷ [])
unfolding write_message pack flatten
read_message-write_message_example =
    read_message-write_message (7 ∷ 8 ∷ 9 ∷ []) (0 ∷ 0 ∷ 0 ∷ 3 ∷ 7 ∷ 8 ∷ 9 ∷ []) (0 ∷ []) pieces
      refl (omega arith) (omega arith, (omega arith, (omega arith, tt))) refl

read_message_too_large_example : read_message ((2 ∷ 0 ∷ 0 ∷ 0 ∷ []) ∷ []) ≡ Read.too_large
unfolding unpack flatten
read_message_too_large_example =
    read_message_too_large (2 ∷ 0 ∷ 0 ∷ 0 ∷ []) [] ((2 ∷ 0 ∷ 0 ∷ 0 ∷ []) ∷ []) refl (omega arith)
      (omega arith, tt) refl
