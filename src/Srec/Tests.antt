-- ===== src/Srec/Tests.antt =====
-- The theorems on S-records at concrete inputs, and records that are read.
use renesas_ra8m1_provisioni.Prelude.{
  ℕ, ◌≡◌, ◌<◌, ◌++◌, true, refl, inl, inr, some, List, [], ◌∷◌, map, arith, length, get_elem?,
  replicate, Option, ◌∙◌, ap,
}
use renesas_ra8m1_provisioni.Broker.Text.{codes, negsuc}
use renesas_ra8m1_provisioni.Srec.Manager.Offset.{offset_addresses}
use renesas_ra8m1_provisioni.Srec.Manager.Offset.Moved.{offset_addresses_lem}
use renesas_ra8m1_provisioni.Device.Serial.{sum_bytes, Port, ok}
use renesas_ra8m1_provisioni.Device.Region.{classify_region}
use renesas_ra8m1_provisioni.Device.Program.{program_blocks, sort_blocks, code_blocks}
use renesas_ra8m1_provisioni.Device.Program.Correct.{Programmed}
use renesas_ra8m1_provisioni.Srec.Program.{program_srec_file, collect_osm_srec_records, osm_records}
use renesas_ra8m1_provisioni.Srec.Program.Programmed.{
  program_srec_file-parsed, program_srec_file-Programmed,
}
use renesas_ra8m1_provisioni.Srec.Program.Windows.{
  AreOption, collect_osm_srec_records-AreOption, collect_osm_srec_records-parsed,
}
use renesas_ra8m1_provisioni.Srec.Hex.{int16, from_hex, strip, is_space, nibble}
use renesas_ra8m1_provisioni.Srec.Parse.{
  ParseError, data_record, parse_line, parse_lines, has_s_records, parse_srec_file_strict,
}
use renesas_ra8m1_provisioni.Srec.Manager.{coalesce_records, inject_line}
use renesas_ra8m1_provisioni.Srec.Manager.Injected.{after_injection, inject_line_lem}
use renesas_ra8m1_provisioni.Srec.Manager.Coalesced.{cells, merge_blocks, coalesce_records_lem}
use renesas_ra8m1_provisioni.Srec.Manager.Files.{
  AreWritable, text_of, parse_srec_file_strict-text_of,
}

-- A record that is one byte short, and whose bytes have the right sum all the same.
truncated : parse_srec_file_strict (codes "S104000AF1\n" ∷ []) ≡ inr ((0x000A, 0xF1 ∷ []) ∷ [])
unfolding parse_srec_file_strict has_s_records parse_lines parse_line data_record int16 from_hex
    strip is_space nibble sum_bytes
truncated = refl

-- A letter S alone ends the parsing.
lone_letter : parse_srec_file_strict (codes "S\n" ∷ []) ≡ inl ParseError.failed
unfolding parse_srec_file_strict has_s_records parse_lines parse_line strip is_space
lone_letter = refl

abbrev low : ℕ × List ℕ
low = (0x02000000, 1 ∷ 2 ∷ [])

abbrev high : ℕ × List ℕ
high = (0x02000002, 3 ∷ [])

two-AreWritable : AreWritable (low ∷ high ∷ [])
two-AreWritable = (
  (omega arith, omega arith, (omega arith, (omega arith, tt))),
  ((omega arith, omega arith, (omega arith, tt)), tt),
)

parse_srec_file_strict-text_of_example :
    parse_srec_file_strict (map text_of (low ∷ high ∷ [])) ≡ inr (low ∷ high ∷ [])
parse_srec_file_strict-text_of_example =
    parse_srec_file_strict-text_of low (high ∷ []) two-AreWritable

coalesce_records_lem_example :
    (lines : List (List ℕ)) × (out : List (ℕ × List ℕ)) × (coalesce_records
        (map text_of (low ∷ high ∷ []))
      ≡ some lines)
    × (parse_srec_file_strict lines ≡ inr out)
    × (cells out ≡ cells (low ∷ high ∷ []))
unfolding merge_blocks
coalesce_records_lem_example =
    coalesce_records_lem low (high ∷ []) two-AreWritable
      ((omega arith, omega arith, (omega arith, (omega arith, (omega arith, tt)))), tt)

inject_line_lem_example :
    (out : List ℕ) × (inject_line (9 ∷ 8 ∷ []) 0x02000001 (text_of low)
      ≡ some (text_of (0x02000000, out)))
    × (length out ≡ 2)
    × ((j : ℕ)
        → j < 2
        → get_elem? out j ≡ after_injection (9 ∷ 8 ∷ []) 0x02000001 0x02000000 (1 ∷ 2 ∷ []) j)
inject_line_lem_example =
    inject_line_lem (9 ∷ 8 ∷ []) 0x02000001 0x02000000 (1 ∷ 2 ∷ []) two-AreWritable.0
      (omega arith, (omega arith, tt))

-- The device's reply to a packet that it accepts.
abbrev reply : ℕ → List (Option ℕ)
reply code = some 0x81 ∷ some 0x00 ∷ some 0x02 ∷ some code ∷ some 0x00 ∷ some 0x00 ∷ some 0x03 ∷ []

abbrev port : Port
port = record { input = reply 0x12 ++ (reply 0x13 ++ reply 0x13); sent = [] }

low-AreWritable : AreWritable (low ∷ [])
low-AreWritable = (two-AreWritable.0, tt)

abbrev programmed : Port
programmed = (program_blocks (low ∷ []) true port).1

program_blocks_run : program_blocks (low ∷ []) true port ≡ (ok tt, programmed)
unfolding program_blocks
program_blocks_run = refl

program_srec_file_run : program_srec_file (map text_of (low ∷ [])) true port ≡ (ok tt, programmed)
program_srec_file_run =
    program_srec_file-parsed (map text_of (low ∷ [])) (low ∷ []) true port
      (parse_srec_file_strict-text_of low [] low-AreWritable)
    ∙ program_blocks_run

program_srec_file-Programmed_example :
    Programmed (code_blocks true (sort_blocks (low ∷ []))) port programmed
unfolding classify_region
program_srec_file-Programmed_example =
    program_srec_file-Programmed low [] true port programmed low-AreWritable (omega arith)
      (ground arith) program_srec_file_run

abbrev options : ℕ × List ℕ
options = (0x0300A0FF, 8 ∷ 9 ∷ [])

options-AreWritable : AreWritable (options ∷ [])
options-AreWritable = ((omega arith, omega arith, (omega arith, (omega arith, tt))), tt)

-- The byte of the block in the memory, padded.
abbrev option_records : List (ℕ × List ℕ)
option_records = (0x0300A100, 9 ∷ replicate 15 0xFF) ∷ []

sort_blocks_run : sort_blocks (osm_records (options ∷ [])) ≡ option_records
unfolding osm_records sort_blocks
sort_blocks_run = refl

collect_osm_srec_records_run :
    collect_osm_srec_records (map text_of (options ∷ [])) ≡ inr option_records
collect_osm_srec_records_run =
    collect_osm_srec_records-parsed (map text_of (options ∷ [])) (options ∷ [])
      (parse_srec_file_strict-text_of options [] options-AreWritable)
    ∙ ap inr sort_blocks_run

collect_osm_srec_records-AreOption_example : AreOption option_records
collect_osm_srec_records-AreOption_example =
    collect_osm_srec_records-AreOption (map text_of (options ∷ [])) option_records
      collect_osm_srec_records_run

-- Down by 256.
offset_addresses_lem_example :
    (lines : List (List ℕ)) × (offset_addresses (negsuc 255) (map text_of (low ∷ [])) ≡ some lines)
    × (parse_srec_file_strict lines ≡ inr ((0x01FFFF00, 1 ∷ 2 ∷ []) ∷ []))
offset_addresses_lem_example =
    offset_addresses_lem (negsuc 255) low (0x01FFFF00, 1 ∷ 2 ∷ []) [] [] low-AreWritable
      ((refl, omega arith, refl), tt)
