-- ===== src/Device/Tests.antt =====
-- Runs of the device-side definitions, and the theorems about them at concrete inputs.
use mathlib.Core.List.{flatten}
use renesas_ra8m1_provisioni.Prelude.{
  ℕ, ◌+◌, ◌%◌, ◌*◌, ◌/◌, ◌^◌, ◌≤◌, ◌<◌, ◌≡◌, ◌⊎◌, ◌↔◌, refl, true, false, Option, none, some, List,
  [], ◌∷◌, ◌++◌, map, arith, if◌then◌else◌, ltb, length,
}
use renesas_ra8m1_provisioni.Device.Region.{
  RegionClass, classify_region, remap_alias, range_check_block, nonsec_alias_limit,
}
use renesas_ra8m1_provisioni.Device.Region.Alias.{remap_alias_overflow, range_check_block_sound}
use renesas_ra8m1_provisioni.Device.Merge.{Block, merge_contiguous_blocks}
use renesas_ra8m1_provisioni.Device.Merge.Image.{or_else, read_block, read, Fills}
use renesas_ra8m1_provisioni.Device.Merge.Sorted.{IsSpaced, merge_contiguous_blocks_image}
use renesas_ra8m1_provisioni.Device.Merge.Overlap.{merge_overlapping_pair}
use renesas_ra8m1_provisioni.Device.Phrase.{phrases}
use renesas_ra8m1_provisioni.Device.Phrase.Cover.{ArePhrases, phrases_cover}
use renesas_ra8m1_provisioni.Device.Serial.{
  Port, Exn, ok, raised, pure, receive_data_packet, sum_bytes, calc_sum,
}
use renesas_ra8m1_provisioni.Device.Serial.Checksum.{calc_sum_unique}
use renesas_ra8m1_provisioni.Device.Boot.{
  get_dlm_state, query, response_of, level_of, initialize_device,
}
use renesas_ra8m1_provisioni.Device.Boot.Locked.{dlm_query, initialize_device-other}
use renesas_ra8m1_provisioni.Device.Command.{command_write, write_chunks}
use renesas_ra8m1_provisioni.Device.Command.Frames.{
  AreChunks, announcement, chunk_frame, command_write_sent, write_chunks_fuel,
}
use renesas_ra8m1_provisioni.Device.Program.{program_blocks, sort_blocks, code_blocks, erase_span}
use renesas_ra8m1_provisioni.Device.Program.Correct.{Programmed, program_blocks-Programmed}

remap_alias_overflow_example : nonsec_alias_limit < remap_alias 0x021F0000 false
remap_alias_overflow_example = remap_alias_overflow 0x021F0000 (omega arith) (omega arith)

range_check_block_sound_example :
    (classify_region (0x02000000 + 3) ≡ classify_region 0x02000000)
    × ((classify_region 0x02000000 ≡ RegionClass.code_secure)
        ⊎ (classify_region 0x02000000 ≡ RegionClass.code_nonsec))
unfolding range_check_block
range_check_block_sound_example = range_check_block_sound 0x02000000 8 3 refl (omega arith)

-- Two blocks with a small gap and one far away.
abbrev image : List Block
image = (0x02000000, 1 ∷ 2 ∷ []) ∷ (0x02000004, 3 ∷ []) ∷ (0x02001000, 4 ∷ []) ∷ []

merge_image_run :
    merge_contiguous_blocks image 128
    ≡ some ((0x02000000, 1 ∷ 2 ∷ 0xFF ∷ 0xFF ∷ 3 ∷ []) ∷ (0x02001000, 4 ∷ []) ∷ [])
unfolding merge_contiguous_blocks
merge_image_run = refl

merge_contiguous_blocks_image_example :
    (out : List Block) × (merge_contiguous_blocks image 128 ≡ some out)
    × IsSpaced 128 out
    × ((x : ℕ) → Fills (read image x) (read out x))
merge_contiguous_blocks_image_example = merge_contiguous_blocks_image image 128 (omega arith)

-- The last two bytes of the second block are lost.
merge_overlap_run :
    merge_contiguous_blocks
      ((0x02000000, 1 ∷ 2 ∷ 3 ∷ 4 ∷ []) ∷ (0x02000002, 5 ∷ 6 ∷ 7 ∷ 8 ∷ []) ∷ [])
      128
    ≡ some ((0x02000000, 1 ∷ 2 ∷ 5 ∷ 6 ∷ 0xFF ∷ 0xFF ∷ []) ∷ [])
unfolding merge_contiguous_blocks
merge_overlap_run = refl

merge_overlapping_pair_example :
    (out : List ℕ) × (merge_contiguous_blocks ((10, 1 ∷ 2 ∷ []) ∷ (11, 5 ∷ 6 ∷ []) ∷ []) 128
      ≡ some ((10, out) ∷ []))
    × ((x : ℕ)
        → read_block 10 out x ≡ (
            if ltb x (10 + length {A = ℕ} (1 ∷ 2 ∷ []))
            then or_else (read_block 11 (5 ∷ 6 ∷ []) x) (read_block 10 (1 ∷ 2 ∷ []) x)
            else if ltb x (11 + length {A = ℕ} (5 ∷ 6 ∷ []))
            then some 0xFF
            else none))
merge_overlapping_pair_example =
    merge_overlapping_pair 10 (1 ∷ 2 ∷ []) 11 (5 ∷ 6 ∷ []) (omega arith) (omega arith) 128

phrases_cover_example :
    ArePhrases (0x02000084 / 128 * 128) (phrases 0x02000084 (7 ∷ []))
    × (length (phrases 0x02000084 (7 ∷ [])) * 128
        ≤ 0x02000084 % 128 + length {A = ℕ} (7 ∷ []) + 127)
    × ((x : ℕ) → Fills (read_block 0x02000084 (7 ∷ []) x) (read (phrases 0x02000084 (7 ∷ [])) x))
phrases_cover_example = phrases_cover 0x02000084 (7 ∷ [])

calc_sum_unique_example :
    (calc_sum (0x00 ∷ 0x01 ∷ 0x3A ∷ []) < 256)
    × ((sum_bytes ((0x00 ∷ 0x01 ∷ 0x3A ∷ []) ++ 0xC5 ∷ []) % 256 ≡ 0)
        ↔ (0xC5 ≡ calc_sum (0x00 ∷ 0x01 ∷ 0x3A ∷ [])))
calc_sum_unique_example = calc_sum_unique (0x00 ∷ 0x01 ∷ 0x3A ∷ []) 0xC5 (omega arith)

-- The device's reply to a packet that it accepts.
abbrev reply : ℕ → List (Option ℕ)
reply code = some 0x81 ∷ some 0x00 ∷ some 0x02 ∷ some code ∷ some 0x00 ∷ some 0x00 ∷ some 0x03 ∷ []

abbrev port : Port
port = record { input = reply 0x12 ++ (reply 0x13 ++ reply 0x13); sent = [] }

abbrev write_port : Port
write_port = record { input = reply 0x13 ++ reply 0x13; sent = [] }

abbrev written : Port
written = (command_write 0x02000000 (1 ∷ 2 ∷ []) write_port).1

command_write_run : command_write 0x02000000 (1 ∷ 2 ∷ []) write_port ≡ (ok true, written)
unfolding command_write
command_write_run = refl

command_write_sent_example :
    (cs : List (List ℕ)) × (flatten cs ≡ 1 ∷ 2 ∷ [])
    × AreChunks cs
    × (written.sent
        ≡ [] ++ announcement 0x02000000 (length {A = ℕ} (1 ∷ 2 ∷ [])) ∷ map chunk_frame cs)
    × (0x02000000 + length {A = ℕ} (1 ∷ 2 ∷ []) ≤ 2 ^ 32)
command_write_sent_example =
    command_write_sent 0x02000000 (1 ∷ 2 ∷ []) write_port written command_write_run

write_chunks_fuel_example : write_chunks 2 (1 ∷ 2 ∷ []) ≡ write_chunks 9 (1 ∷ 2 ∷ [])
write_chunks_fuel_example = write_chunks_fuel 2 9 (1 ∷ 2 ∷ []) (omega arith) (omega arith)

-- The last byte to program is at a multiple of the sector size, and is not in the erased range.
erase_span_run : erase_span (0x02007FFF, 1 ∷ 2 ∷ []) [] ≡ (0x02000000, 0x02007FFF)
unfolding erase_span
erase_span_run = refl

-- Parsed blocks: one of code, one of option-setting memory, which is skipped.
abbrev parsed : List Block
parsed = (0x0300A100, 9 ∷ []) ∷ (0x02000000, 1 ∷ 2 ∷ []) ∷ []

abbrev programmed : Port
programmed = (program_blocks parsed true port).1

program_blocks_run : program_blocks parsed true port ≡ (ok tt, programmed)
unfolding program_blocks
program_blocks_run = refl

program_blocks-Programmed_example :
    Programmed (code_blocks true (sort_blocks parsed)) port programmed
unfolding classify_region
program_blocks-Programmed_example =
    program_blocks-Programmed (0x0300A100, 9 ∷ []) ((0x02000000, 1 ∷ 2 ∷ []) ∷ []) true port
      programmed (omega arith) (ground arith) program_blocks_run

-- A device in the state LCK_BOOT.
abbrev locked : Port
locked = record {
  input = some 0x81 ∷ some 0x00 ∷ some 0x02 ∷ some 0x2C ∷ some 0x06 ∷ some 0xCC ∷ some 0x03 ∷ [];
  sent = [];
}

abbrev asked : Port
asked = (get_dlm_state locked).1

get_dlm_state_run : get_dlm_state locked ≡ (ok (0x2C, 0x06), asked)
unfolding get_dlm_state query response_of level_of receive_data_packet
get_dlm_state_run = refl

initialize_device-other_example :
    (initialize_device (pure tt) locked ≡ (raised Exn.device_error, asked))
    × (asked.sent ≡ dlm_query ∷ [])
initialize_device-other_example =
    initialize_device-other (pure tt) 0x2C 0x06 locked asked get_dlm_state_run (ground arith)
      (ground arith)
