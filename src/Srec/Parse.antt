-- ===== src/Srec/Parse.antt =====
-- `_parse_srec_file_strict` of device/ra8_srec_programmer.py, on the lines of the file. A line is the
-- list of its characters. The texts of the errors are left out, the numbers in them are not.
use renesas_ra8m1_provisioni.Prelude.{
  ℕ, suc, ◌+◌, ◌*◌, ◌%◌, Bool, false, not, ◌||◌, Option, none, some, List, [], ◌∷◌, ◌⊎◌, inl, inr,
  ltb, ◌==◌, if◌then◌else◌, take, length,
}
use renesas_ra8m1_provisioni.Device.Serial.{sum_bytes}
use renesas_ra8m1_provisioni.Srec.Hex.{strip, int16, from_hex, index, slice}

pub data ParseError : Type 0 where
  empty_file no_records failed : ParseError
  corrupted : List ℕ → ParseError
  invalid_format : ℕ → ParseError

-- What a line is: nothing to read, a block, a failed checksum, a `ValueError`, or an exception that ends
-- the parsing.
pub data Line : Type 0 where
  ignored bad_checksum bad_format broken : Line
  block : ℕ → List ℕ → Line

-- The end of the record: `4 + count * 2`, less some more.
abbrev pub data_end : Bool → ℕ → ℕ → ℕ → ℕ
data_end negative count less len =
    if negative then index len 4 (2 * count + less) else index len (4 + 2 * count) less

-- The block, once the checksum is right.
abbrev block_of : ℕ → Option (List ℕ) → Line
block_of address none = Line.broken
block_of address (some data') = Line.block address data'

-- The bytes of the record are checked. An address with a minus does not get past this.
abbrev pub checked : ℕ → Option (List ℕ) → Option (List ℕ) → Line
checked address none data' = Line.bad_format
checked address (some raw) data' =
    if sum_bytes raw % 256 == 0xFF then block_of address data' else Line.bad_checksum

unfoldable pub data_record : ℕ → List ℕ → Line
data_record addr_len line = elim (int16 (slice 2 4 line)) [
  | none ↦ Line.bad_format
  | some (negative, count) ↦ elim (int16 (slice 4 (4 + addr_len) line)) [
    | none ↦ Line.bad_format
    | some (below, address) ↦
        checked address (from_hex (slice 2 (data_end negative count 0 (length line)) line))
          (from_hex (slice (4 + addr_len) (data_end negative count 2 (length line)) line))
  ]
]

-- A line, stripped.
unfoldable pub parse_line : List ℕ → Line
parse_line [] = Line.ignored
parse_line (c ∷ []) = if c == b'S' then Line.broken else Line.ignored
parse_line (c ∷ t ∷ cs) =
    if not (c == b'S')
    then Line.ignored
    else if t == b'1'
    then data_record 4 (c ∷ t ∷ cs)
    else if t == b'2'
    then data_record 6 (c ∷ t ∷ cs)
    else if t == b'3'
    then data_record 8 (c ∷ t ∷ cs)
    else Line.ignored

-- The loop: the blocks, the numbers of the lines with a wrong checksum, and how many have a wrong format.
pub record Parsed : Type 0 where
  pub blocks : List (ℕ × List ℕ)
  pub checksum_errors : List ℕ
  pub format_errors : ℕ

abbrev no_lines : Parsed
no_lines = record { blocks = []; checksum_errors = []; format_errors = 0 }

abbrev pub add_line : ℕ → Line → Option Parsed → Option Parsed
add_line ln Line.broken rest = none
add_line ln line none = none
add_line ln Line.ignored (some p) = some p
add_line ln Line.bad_checksum (some p) =
    some (record p { checksum_errors = ln ∷ p.checksum_errors })
add_line ln Line.bad_format (some p) = some (record p { format_errors = suc p.format_errors })
add_line ln (Line.block address data') (some p) =
    some (record p { blocks = (address, data') ∷ p.blocks })

unfoldable pub parse_lines : ℕ → List (List ℕ) → Option Parsed
parse_lines ln [] = some no_lines
parse_lines ln (line ∷ lines) = add_line ln (parse_line (strip line)) (parse_lines (suc ln) lines)

-- `line.strip().startswith('S')`
abbrev pub is_record : List ℕ → Bool
is_record [] = false
is_record (c ∷ cs) = c == b'S'

unfoldable pub has_s_records : List (List ℕ) → Bool
has_s_records [] = false
has_s_records (line ∷ lines) = is_record (strip line) || has_s_records lines

-- The errors are reported after the loop, those of checksums first, by the first ten lines.
abbrev reported : Parsed → ParseError ⊎ List (ℕ × List ℕ)
reported p =
    if ltb 0 (length p.checksum_errors)
    then inl (ParseError.corrupted (take 10 p.checksum_errors))
    else if ltb 0 p.format_errors
    then inl (ParseError.invalid_format p.format_errors)
    else inr p.blocks

abbrev pub outcome : Option Parsed → ParseError ⊎ List (ℕ × List ℕ)
outcome none = inl ParseError.failed
outcome (some p) = reported p

unfoldable pub parse_srec_file_strict : List (List ℕ) → ParseError ⊎ List (ℕ × List ℕ)
parse_srec_file_strict [] = inl ParseError.empty_file
parse_srec_file_strict (line ∷ lines) =
    if has_s_records (line ∷ lines)
    then outcome (parse_lines 1 (line ∷ lines))
    else inl ParseError.no_records
