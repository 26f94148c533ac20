-- ===== src/Device/Program/Erase.antt =====
-- The range of `_erase_srec_span_skip_bootblock`.
use renesas_ra8m1_provisioni.Prelude.{ℕ, ◌+◌, ◌-◌, List, length}
use renesas_ra8m1_provisioni.Device.Merge.{Block}
use renesas_ra8m1_provisioni.Device.Program.{max_addr}

module _ (a : ℕ) (d : List ℕ) (bs : List Block) where
  -- The last address of the data, as the method computes it.
  abbrev pub last_code_address : ℕ
  last_code_address = max_addr (a + length d - 1) bs
