-- ===== src/Srec/Program/Programmed.antt =====
-- `program_srec_file` of device/ra8_srec_programmer.py, from the lines of the file to the port.
use renesas_ra8m1_provisioni.Prelude.{ℕ, ◌≡◌, sym, ap, ◌∙◌, Bool, List, ◌∷◌, map, inr}
use renesas_ra8m1_provisioni.Device.Serial.{Port, ok}
use renesas_ra8m1_provisioni.Device.Merge.{Block}
use renesas_ra8m1_provisioni.Device.Program.{program_blocks, sort_blocks, code_blocks}
use renesas_ra8m1_provisioni.Device.Program.Correct.{
  Programmed, NoneNonsec, program_blocks-Programmed,
}
use renesas_ra8m1_provisioni.Device.Program.Order.{AreSeparate}
use renesas_ra8m1_provisioni.Srec.Parse.{parse_srec_file_strict}
use renesas_ra8m1_provisioni.Srec.Program.{program_srec_file, on_parsed}
use renesas_ra8m1_provisioni.Srec.Manager.Files.{
  AreWritable, text_of, parse_srec_file_strict-text_of,
}

pub program_srec_file-parsed :
    (lines : List (List ℕ)) (blocks : List Block) (enforce : Bool) (s : Port)
    → parse_srec_file_strict lines ≡ inr blocks
    → program_srec_file lines enforce s ≡ program_blocks blocks enforce s
unfolding program_srec_file
program_srec_file-parsed lines blocks enforce s e =
    ap (λ r. on_parsed r (λ bs. program_blocks bs enforce) s) e

-- A file of the S3 records of blocks that have bytes and share no address, none of them in the non-secure
-- alias: a run that raises nothing has sent nothing if none of them is a code block that is kept, and
-- otherwise the erase packet of the merged code blocks and then for each of their phrases the
-- announcement and the data. The phrases are whole and aligned and ascend, and hold every byte of the
-- code blocks at its address, and 0xFF at other addresses.
pub program_srec_file-Programmed :
    (b : Block) (bs : List Block) (enforce : Bool) (s s' : Port)
    → AreWritable (b ∷ bs)
    → AreSeparate (b ∷ bs)
    → NoneNonsec (b ∷ bs)
    → program_srec_file (map text_of (b ∷ bs)) enforce s ≡ (ok tt, s')
    → Programmed (code_blocks enforce (sort_blocks (b ∷ bs))) s s'
program_srec_file-Programmed b bs enforce s s' w apart secure h =
    program_blocks-Programmed b bs enforce s s' apart secure (
      sym (
        program_srec_file-parsed (map text_of (b ∷ bs)) (b ∷ bs) enforce s
          (parse_srec_file_strict-text_of b bs w))
      ∙ h)
