-- ===== src/Srec/Program.antt =====
-- `program_srec_file`, `_collect_osm_srec_records` and `program_osm_from_srec` of
-- device/ra8_srec_programmer.py, on the lines of the file.
pub mod Programmed
pub mod Windows
use renesas_ra8m1_provisioni.Prelude.{
  ℕ, suc, ◌+◌, ◌-◌, ◌%◌, min, max, Bool, true, false, ◌||◌, Option, none, some, List, [], ◌∷◌, ◌++◌,
  ◌⊎◌, inl, inr, leb, ltb, take, drop, replicate, length, if◌then◌else◌,
}
use renesas_ra8m1_provisioni.Device.Serial.{Action, Exn, ◌>>=◌, ◌>>◌, pure, raise}
use renesas_ra8m1_provisioni.Device.Merge.{Block}
use renesas_ra8m1_provisioni.Device.Command.{command_write}
use renesas_ra8m1_provisioni.Device.Program.{program_blocks, sort_blocks}
use renesas_ra8m1_provisioni.Srec.Parse.{ParseError, parse_srec_file_strict}

-- A `DeviceError` of the parser, or what follows.
abbrev pub on_parsed : ParseError ⊎ List Block → (List Block → Action Unit) → Action Unit
on_parsed (inl e) k = raise Exn.device_error
on_parsed (inr blocks) k = k blocks

unfoldable pub program_srec_file : List (List ℕ) → Bool → Action Unit
program_srec_file lines enforce_secure_alias =
    on_parsed (parse_srec_file_strict lines) (λ blocks. program_blocks blocks enforce_secure_alias)

-- The option-setting memories of code flash and of data flash, both ends included.
abbrev pub cf_min : ℕ
cf_min = 0x0300A100

abbrev pub cf_max : ℕ
cf_max = 0x0300A2FF

abbrev pub df_min : ℕ
df_min = 0x27030050

abbrev pub df_max : ℕ
df_max = 0x270303FF

-- `(-len(data)) % 16`
abbrev pub tail_of : List ℕ → ℕ
tail_of d = (16 - length d % 16) % 16

unfoldable pub pad16_ff : List ℕ → ℕ → List ℕ
pad16_ff d max_len = take max_len (d ++ replicate (tail_of d) 0xFF)

-- What of a block lies in a memory.
unfoldable pub intersection : ℕ → ℕ → Block → List Block
unfolding pad16_ff
intersection low high (addr, d) =
    let end = addr + length d in
    if leb end low || ltb high addr
    then []
    else (let s = max addr low in
        let e = min end (suc high) in
        (s, pad16_ff (take (e - s) (drop (s - addr) d)) (suc high - s)) ∷ [])

unfoldable pub osm_records : List Block → List Block
unfolding intersection
osm_records [] = []
osm_records (b ∷ bs) =
    intersection cf_min cf_max b ++ (intersection df_min df_max b ++ osm_records bs)

unfoldable pub collect_osm_srec_records : List (List ℕ) → ParseError ⊎ List Block
collect_osm_srec_records lines = elim (parse_srec_file_strict lines) [
  | inl e ↦ inl e
  | inr blocks ↦ inr (sort_blocks (osm_records blocks))
]

-- What the writes return is not looked at.
unfoldable pub write_osm : List Block → Action Unit
unfolding command_write
write_osm [] = pure tt
write_osm ((addr, d) ∷ records) = do written ← command_write addr d; write_osm records

unfoldable pub program_osm_from_srec : List (List ℕ) → Action Unit
unfolding collect_osm_srec_records write_osm
program_osm_from_srec lines = on_parsed (collect_osm_srec_records lines) write_osm
