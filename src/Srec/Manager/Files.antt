-- ===== src/Srec/Manager/Files.antt =====
-- Files of the records that utils/srec_manager.py writes, read by device/ra8_srec_programmer.py.
use renesas_ra8m1_provisioni.Prelude.{
  ℕ, suc, ◌+◌, ◌<◌, ◌≤◌, ◌≡◌, refl, ap, ◌∙◌, inr, true, Option, some, List, [], ◌∷◌, length, map,
  arith,
}
use renesas_ra8m1_provisioni.Srec.Hex.{is_space, strip}
use renesas_ra8m1_provisioni.Srec.Hex.Written.{AreBytes, AreBlack, hex-AreBlack, strip-AreBlack}
use renesas_ra8m1_provisioni.Srec.Parse.{
  Line, parse_line, Parsed, parse_lines, has_s_records, parse_srec_file_strict, outcome, is_record,
}
use renesas_ra8m1_provisioni.Srec.Manager.Records.{
  s3_text, parse_line-s3_text, whole, whole-AreBytes,
}

-- A block that one record can hold.
abbrev pub IsWritable : ℕ × List ℕ → Type 0
IsWritable (addr, data') = (length data' ≤ 250) × (addr < 4294967296) × AreBytes data'

abbrev pub AreWritable : List (ℕ × List ℕ) → Type 0
AreWritable [] = Unit
AreWritable (block ∷ blocks) = IsWritable block × AreWritable blocks

-- The record of a block.
abbrev pub text_of : ℕ × List ℕ → List ℕ
text_of (addr, data') = s3_text (length data' + 5) addr data'

pub text-AreBlack : (block : ℕ × List ℕ) → IsWritable block → AreBlack (text_of block)
unfolding is_space
text-AreBlack (addr, data') (l, a, h) = (
  refl,
  (
    refl,
    hex-AreBlack (whole (length data' + 5) addr data')
        (whole-AreBytes (length data' + 5) addr data' (omega arith) a h),
  ),
)

abbrev all_read : List (ℕ × List ℕ) → Parsed
all_read blocks = record { blocks = blocks; checksum_errors = []; format_errors = 0 }

parse_lines-text_of :
    (ln : ℕ) (blocks : List (ℕ × List ℕ))
    → AreWritable blocks
    → parse_lines ln (map text_of blocks) ≡ some (all_read blocks)
unfolding parse_lines
parse_lines-text_of ln [] w = refl
parse_lines-text_of ln ((addr, data') ∷ blocks) ((l, a, h), ws) =
    let read : parse_line (strip (text_of (addr, data'))) ≡ Line.block addr data' =
      ap parse_line (strip-AreBlack (text_of (addr, data')) (text-AreBlack (addr, data') (l, a, h)))
      ∙ parse_line-s3_text addr data' l a h in
    rw (read, parse_lines-text_of (suc ln) blocks ws) refl

has_s_records-cons :
    (line : List ℕ) (lines : List (List ℕ))
    → is_record (strip line) ≡ true
    → has_s_records (line ∷ lines) ≡ true
unfolding has_s_records
has_s_records-cons line lines e = rw e refl

parse_srec_file_strict_lem :
    (line : List ℕ) (lines : List (List ℕ)) (p : Option Parsed)
    → has_s_records (line ∷ lines) ≡ true
    → parse_lines 1 (line ∷ lines) ≡ p
    → parse_srec_file_strict (line ∷ lines) ≡ outcome p
unfolding parse_srec_file_strict
parse_srec_file_strict_lem line lines p e i = rw (e, i) refl

-- A file of the records of some blocks, one or more, is read as these blocks.
pub parse_srec_file_strict-text_of :
    (block : ℕ × List ℕ) (blocks : List (ℕ × List ℕ))
    → AreWritable (block ∷ blocks)
    → parse_srec_file_strict (map text_of (block ∷ blocks)) ≡ inr (block ∷ blocks)
parse_srec_file_strict-text_of block blocks (w, ws) =
    parse_srec_file_strict_lem (text_of block) (map text_of blocks)
      (some (all_read (block ∷ blocks)))
      (has_s_records-cons (text_of block) (map text_of blocks)
        (ap is_record (strip-AreBlack (text_of block) (text-AreBlack block w))))
      (parse_lines-text_of 1 (block ∷ blocks) (w, ws))
