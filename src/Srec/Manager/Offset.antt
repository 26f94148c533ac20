-- ===== src/Srec/Manager/Offset.antt =====
-- `offset_addresses` of utils/srec_manager.py.
pub mod Moved
use renesas_ra8m1_provisioni.Prelude.{
  ℕ, suc, ◌+◌, ◌-◌, Bool, true, false, not, ◌||◌, Option, none, some, List, [], ◌∷◌, ◌++◌, leb,
  ◌==◌, if◌then◌else◌, length, take, drop,
}
use renesas_ra8m1_provisioni.Broker.Text.{ℤ, pos, negsuc}
use renesas_ra8m1_provisioni.Srec.Hex.{◌>>=◌, strip, to_hex, slice}
use renesas_ra8m1_provisioni.Srec.Manager.{read_hex, with_checksum}

-- `address + offset`: whether there is a minus, and the number.
abbrev pub moved : ℕ → ℤ → Bool × ℕ
moved address (pos k) = (false, address + k)
moved address (negsuc k) =
    if leb (suc k) address then (false, address - suc k) else (true, suc k - address)

-- The new address in at least w characters, of which a minus is one.
abbrev pub address_text : ℕ → Bool × ℕ → List ℕ
address_text w (false, n) = to_hex w n
address_text w (true, n) = b'-' ∷ to_hex (w - 1) n

-- A record with its new address: the data are those up to the old checksum.
unfoldable pub offset_record : ℤ → ℕ → ℕ → List ℕ → List ℕ → Option (List ℕ)
offset_record offset kind addr_len data' line = do
  byte_count ← read_hex (slice 2 4 line)
  address ← read_hex (slice 4 (4 + addr_len) line)
  with_checksum (
      b'S'
      ∷ kind
      ∷ (to_hex 2 byte_count ++ (address_text addr_len (moved address offset) ++ data')))

-- `line[4 + addr_len:][:-2]`
abbrev pub old_data : ℕ → List ℕ → List ℕ
old_data addr_len line = let rest = drop (4 + addr_len) line in take (length rest - 2) rest

unfoldable pub offset_kind : ℤ → ℕ → List ℕ → Option (List ℕ)
offset_kind offset kind line =
    if kind == b'1'
    then offset_record offset kind 4 (old_data 4 line) line
    else if kind == b'2'
    then offset_record offset kind 6 (old_data 6 line) line
    else if kind == b'3'
    then offset_record offset kind 8 (old_data 8 line) line
    else if kind == b'9'
    then offset_record offset kind 4 [] line
    else if kind == b'8'
    then offset_record offset kind 6 [] line
    else if kind == b'7'
    then offset_record offset kind 8 [] line
    else some line

-- A line, stripped: headers, counts and what is no record stay.
unfoldable pub offset_line : ℤ → List ℕ → Option (List ℕ)
offset_line offset (c ∷ kind ∷ cs) =
    if c == b'S' then offset_kind offset kind (c ∷ kind ∷ cs) else some (c ∷ kind ∷ cs)
offset_line offset line = some line

unfoldable pub offset_addresses : ℤ → List (List ℕ) → Option (List (List ℕ))
offset_addresses offset [] = some []
offset_addresses offset (line ∷ lines) = do
  rest ← offset_addresses offset lines
  elim (strip line) [
    | [] ↦ some rest
    | c ∷ cs ↦ (offset_line offset (c ∷ cs) >>= λ out. some (out ∷ rest))
  ]
