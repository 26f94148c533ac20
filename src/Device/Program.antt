-- ===== src/Device/Program.antt =====
-- `program_srec_file` of device/ra8_srec_programmer.py, from the blocks that the parser returns.
pub mod Order
pub mod Sent
pub mod Image
pub mod Erase
pub mod Correct
use renesas_ra8m1_provisioni.Prelude.{
  ℕ, ◌+◌, ◌-◌, min, max, Bool, true, false, Option, none, some, List, [], ◌∷◌, ◌++◌, leb,
  if◌then◌else◌, length,
}
use renesas_ra8m1_provisioni.Device.Region.{
  RegionClass, classify_region, remap_alias, range_check_block, align_down, align_up,
  erase_sector_size,
}
use renesas_ra8m1_provisioni.Device.Merge.{Block, merge_contiguous_blocks}
use renesas_ra8m1_provisioni.Device.Phrase.{phrases}
use renesas_ra8m1_provisioni.Device.Serial.{Action, Exn, ◌>>=◌, ◌>>◌, pure, raise}
use renesas_ra8m1_provisioni.Device.Command.{command_erase, command_write}

-- `blocks.sort(key=lambda x: x[0])`: equal keys keep their order.
unfoldable pub insert_block : Block → List Block → List Block
insert_block b [] = b ∷ []
insert_block b (c ∷ cs) = if leb b.0 c.0 then b ∷ c ∷ cs else c ∷ insert_block b cs

unfoldable pub sort_blocks : List Block → List Block
unfolding insert_block
sort_blocks [] = []
sort_blocks (b ∷ bs) = insert_block b (sort_blocks bs)

-- The loop that classifies. What it skips is collected and not used.
unfoldable pub keep_code : Bool → Block → List Block → List Block
unfolding classify_region remap_alias
keep_code enforce_secure_alias (addr, d) rest = elim (classify_region addr) [
  | RegionClass.code_secure ↦ (addr, d) ∷ rest
  | RegionClass.code_nonsec ↦
      (if enforce_secure_alias then (remap_alias addr true, d) ∷ rest else (addr, d) ∷ rest)
  | _ ↦ rest
]

unfoldable pub code_blocks : Bool → List Block → List Block
unfolding keep_code
code_blocks enforce_secure_alias [] = []
code_blocks enforce_secure_alias (b ∷ bs) =
    keep_code enforce_secure_alias b (code_blocks enforce_secure_alias bs)

unfoldable pub all_in_range : List Block → Bool
unfolding range_check_block
all_in_range [] = true
all_in_range ((addr, d) ∷ bs) =
    let rest = all_in_range bs in if range_check_block addr (length d) then rest else false

-- `min(a for a, _ in blocks)` and `max(a + len(d) - 1 for a, d in blocks)`, from the first block on.
unfoldable pub min_addr : ℕ → List Block → ℕ
min_addr m [] = m
min_addr m ((a, d) ∷ bs) = min_addr (min m a) bs

unfoldable pub max_addr : ℕ → List Block → ℕ
max_addr m [] = m
max_addr m ((a, d) ∷ bs) = max_addr (max m (a + length d - 1)) bs

-- The range that `_erase_srec_span_skip_bootblock` erases, both ends included.
unfoldable pub erase_span : Block → List Block → ℕ × ℕ
unfolding min_addr max_addr align_down align_up
erase_span (a, d) bs = (
  align_down (min_addr a bs) erase_sector_size,
  align_up (max_addr (a + length d - 1) bs) erase_sector_size - 1,
)

unfoldable pub erase_srec_span_skip_bootblock : List Block → Action Bool
unfolding erase_span command_erase
erase_srec_span_skip_bootblock [] = pure true
erase_srec_span_skip_bootblock (b ∷ bs) = let span = erase_span b bs in command_erase span.0 span.1

-- `if not ok: raise DeviceError(...)`, and what follows it.
abbrev pub or_fail : Bool → Action Unit → Action Unit
or_fail true k = k
or_fail false k = raise Exn.device_error

-- The loop of `_write_block_in_phrases_aligned`.
unfoldable pub write_phrases : List Block → Action Unit
unfolding command_write
write_phrases [] = pure tt
write_phrases ((phrase_addr, phrase) ∷ rest) = do
  good ← command_write phrase_addr phrase
  or_fail good (write_phrases rest)

unfoldable pub write_block_in_phrases_aligned : ℕ → List ℕ → Action Unit
unfolding write_phrases phrases
write_block_in_phrases_aligned start_addr data_bytes = write_phrases (phrases start_addr data_bytes)

unfoldable pub write_blocks : List Block → Action Unit
unfolding write_block_in_phrases_aligned
write_blocks [] = pure tt
write_blocks ((address, d) ∷ rest) = do write_block_in_phrases_aligned address d; write_blocks rest

-- The steps after merging: the erase and the writes.
unfoldable pub erase_and_write : List Block → Action Unit
unfolding erase_srec_span_skip_bootblock write_blocks
erase_and_write merged = do
  erased ← erase_srec_span_skip_bootblock merged
  or_fail erased (write_blocks merged)

unfoldable pub merge_and_write : List Block → Action Unit
unfolding merge_contiguous_blocks erase_and_write all_in_range
merge_and_write code =
    if all_in_range code
    then elim (merge_contiguous_blocks code 128) [
      | none ↦ raise Exn.index_error
      | some merged ↦ erase_and_write merged
    ]
    else raise Exn.device_error

unfoldable pub program_blocks : List Block → Bool → Action Unit
unfolding sort_blocks code_blocks merge_and_write
program_blocks [] enforce_secure_alias = raise Exn.device_error
program_blocks (b ∷ bs) enforce_secure_alias =
    merge_and_write (code_blocks enforce_secure_alias (sort_blocks (b ∷ bs)))
