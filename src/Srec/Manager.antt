-- ===== src/Srec/Manager.antt =====
-- utils/srec_manager.py on the lines of a file, each the list of its characters: the checksum, records
-- put together, a key written over records. None is an exception. A count or an address
-- that is read with a minus sign, which no writer of S-records makes, counts as one.
pub mod Offset
pub mod Records
pub mod Files
pub mod Coalesced
pub mod Injected
use renesas_ra8m1_provisioni.Prelude.{
  ℕ, zero, suc, ◌+◌, ◌-◌, ◌*◌, ◌%◌, Bool, true, false, not, ◌&&◌, ◌||◌, Option, none, some, List,
  [], ◌∷◌, ◌++◌, ltb, leb, ◌==◌, if◌then◌else◌, length, drop, set, get_elem?, min,
}
use mathlib.Core.Option.{map as option_map}
use renesas_ra8m1_provisioni.Srec.Hex.{◌>>=◌, strip, int16, from_hex, hex, to_hex, index, slice}

abbrev no_minus : Option (Bool × ℕ) → Option ℕ
no_minus (some (false, n)) = some n
no_minus n = none

unfoldable pub read_hex : List ℕ → Option ℕ
read_hex cs = no_minus (int16 cs)

-- A byte; modulo 256, as its sum is used, where it has a minus.
abbrev pub byte_of : Option (Bool × ℕ) → Option ℕ
byte_of (some (false, n)) = some n
byte_of (some (true, n)) = some (256 - n)
byte_of none = none

-- The sum of the bytes of a text, two characters each; a last one may stand alone.
unfoldable pub hex_total : List ℕ → Option ℕ
hex_total [] = some 0
hex_total (c ∷ []) = byte_of (int16 (c ∷ []))
hex_total (c ∷ d ∷ cs) = do b ← byte_of (int16 (c ∷ d ∷ [])); total ← hex_total cs; some (b + total)

-- `(~total) & 0xFF`
unfoldable pub calculate_checksum : List ℕ → Option ℕ
calculate_checksum cs = do total ← hex_total cs; some (255 - total % 256)

-- `f"{text}{checksum:02X}"`, the checksum of what follows the record's type.
unfoldable pub with_checksum : List ℕ → Option (List ℕ)
with_checksum text = do
  checksum ← calculate_checksum (drop 2 text)
  some (text ++ to_hex 2 checksum)

-- An S3 record with some count.
unfoldable pub s3_record : ℕ → ℕ → List ℕ → Option (List ℕ)
s3_record count addr data' =
    with_checksum (b'S' ∷ b'3' ∷ (to_hex 2 count ++ (to_hex 8 addr ++ hex data')))

abbrev pub is_s3 : List ℕ → Bool
is_s3 (c ∷ d ∷ cs) = c == b'S' && d == b'3'
is_s3 cs = false

-- Count, address and data of an S3 record.
unfoldable pub read_s3 : List ℕ → Option (ℕ × ℕ)
read_s3 line = do
  count ← read_hex (slice 2 4 line)
  addr ← read_hex (slice 4 12 line)
  some (count, addr)

-- `line[12:12 + (count - 5) * 2]`
unfoldable pub data_of : ℕ → List ℕ → Option (List ℕ)
data_of count line = from_hex (slice 12 (index (length line) (12 + 2 * count) 10) line)

-- A record of `parsed`: one that stays as it is, or an address and its data.
pub data Entry : Type 0 where
  other : List ℕ → Entry
  data_at : ℕ → List ℕ → Entry

unfoldable pub parse_record : List ℕ → Option Entry
parse_record record' = if not (is_s3 record') then some (Entry.other record') else do
  (count, addr) ← read_s3 record'
  data' ← data_of count record'
  some (Entry.data_at addr data')

unfoldable pub parse_records : List (List ℕ) → Option (List Entry)
parse_records [] = some []
parse_records (r ∷ records) = do e ← parse_record r; rest ← parse_records records; some (e ∷ rest)

-- The group so far, as a record before those that follow.
abbrev closed : Option (ℕ × List ℕ) → List Entry → List Entry
closed none rest = rest
closed (some (addr, merged)) rest = Entry.data_at addr merged ∷ rest

abbrev continues : Option (ℕ × List ℕ) → ℕ → Bool
continues none addr = false
continues (some (start, merged)) addr = addr == start + length merged

abbrev extended : Option (ℕ × List ℕ) → ℕ → List ℕ → ℕ × List ℕ
extended none addr data' = (addr, data')
extended (some (start, merged)) addr data' = (start, merged ++ data')

-- The groups of records that follow each other.
unfoldable pub merge_groups : Option (ℕ × List ℕ) → List Entry → List Entry
merge_groups group [] = closed group []
merge_groups group (Entry.other t ∷ es) = closed group (Entry.other t ∷ merge_groups none es)
merge_groups group (Entry.data_at addr data' ∷ es) =
    let more = merge_groups (some (extended group addr data')) es in
    let fresh = merge_groups (some (addr, data')) es in
    if continues group addr then more else closed group fresh

unfoldable pub write_entry : Entry → Option (List ℕ)
write_entry (Entry.other t) = some t
write_entry (Entry.data_at addr data') = s3_record (length data' + 5) addr data'

unfoldable pub write_entries : List Entry → Option (List (List ℕ))
write_entries [] = some []
write_entries (e ∷ es) = do line ← write_entry e; lines ← write_entries es; some (line ∷ lines)

unfoldable pub coalesce_records : List (List ℕ) → Option (List (List ℕ))
coalesce_records records = do
  parsed ← parse_records records
  write_entries (merge_groups none parsed)

-- The loop that writes n bytes of the key from k on over the data from i on.
unfoldable pub inject_bytes : ℕ → ℕ → ℕ → List ℕ → List ℕ → Option (List ℕ)
inject_bytes zero i k key data' = some data'
inject_bytes (suc n) i k key data' = do
  b ← get_elem? key k
  elim (get_elem? data' i) [
    | none ↦ none
    | some old ↦ inject_bytes n (suc i) (suc k) key (set data' i b)
  ]

-- The bytes of the key that fall into a record.
unfoldable pub inject_data : List ℕ → ℕ → ℕ → ℕ → List ℕ → Option (List ℕ)
inject_data key start count addr data' =
    let inject_start = start - addr in
    let inject_end = min (count - 5) (start + length key - addr) in
    inject_bytes (inject_end - inject_start) inject_start (addr - start) key data'

unfoldable pub inject_record : List ℕ → ℕ → ℕ → ℕ → List ℕ → Option (List ℕ)
inject_record key start count addr line = do
  data' ← data_of count line
  filled ← inject_data key start count addr data'
  s3_record count addr filled

unfoldable pub inject_at : List ℕ → ℕ → ℕ → ℕ → List ℕ → Option (List ℕ)
inject_at key start count addr line =
    if leb (addr + count) (start + 5) || leb (start + length key) addr
    then some line
    else inject_record key start count addr line

unfoldable pub inject_line : List ℕ → ℕ → List ℕ → Option (List ℕ)
inject_line key start line =
    if not (is_s3 line)
    then some line
    else do (count, addr) ← read_s3 line; inject_at key start count addr line

unfoldable pub inject_lines : List ℕ → ℕ → List (List ℕ) → Option (List (List ℕ))
inject_lines key start [] = some []
inject_lines key start (line ∷ lines) = do
  out ← inject_line key start (strip line)
  rest ← inject_lines key start lines
  some (out ∷ rest)

abbrev pub is_data : List ℕ → Bool
is_data (c ∷ d ∷ cs) = c == b'S' && (d == b'1' || (d == b'2' || d == b'3'))
is_data cs = false

unfoldable pub data_records : List (List ℕ) → ℕ
data_records [] = 0
data_records (line ∷ lines) =
    let rest = data_records lines in if is_data line then suc rest else rest

abbrev pub is_s5 : List ℕ → Bool
is_s5 (c ∷ d ∷ cs) = c == b'S' && d == b'5'
is_s5 cs = false

unfoldable pub counted : ℕ → List ℕ → Option (List ℕ)
counted n line =
    if is_s5 line then with_checksum (b'S' ∷ b'5' ∷ b'0' ∷ b'3' ∷ to_hex 4 n) else some line

-- The count of the data records in place of an old one.
unfoldable pub with_count : ℕ → List (List ℕ) → Option (List (List ℕ))
with_count n [] = some []
with_count n (line ∷ lines) = do rest ← with_count n lines; out ← counted n line; some (out ∷ rest)

-- The first byte of a key of the right length; the raw form is refused too.
abbrev pub is_der : List ℕ → Bool
is_der [] = false
is_der (b ∷ bs) = length (b ∷ bs) == 91 && b == 0x30

unfoldable pub inject_customer_key : List (List ℕ) → List ℕ → ℕ → Option (List (List ℕ))
inject_customer_key lines key start =
    if not (is_der key)
    then none
    else do out ← inject_lines key start lines; with_count (data_records out) out
