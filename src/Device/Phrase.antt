-- ===== src/Device/Phrase.antt =====
-- The buffer and the phrases of `_write_block_in_phrases_aligned` in device/ra8_srec_programmer.py.
pub mod Mask
pub mod Cover
use Prim.Native.Nat.{bit_and}
use renesas_ra8m1_provisioni.Prelude.{
  ℕ, zero, suc, ◌+◌, ◌-◌, ◌/◌, ◌%◌, List, [], ◌∷◌, ◌++◌, length, take, drop, replicate,
}
use renesas_ra8m1_provisioni.Device.Region.{flash_block_size}
use renesas_ra8m1_provisioni.Device.Merge.{Block}

-- `start_addr & ~(FLASH_BLOCK_SIZE - 1)`: the address without its bits below the block size.
unfoldable pub phrase_start : ℕ → ℕ
phrase_start start_addr = start_addr - bit_and start_addr (flash_block_size - 1)

-- `buf`: 0xFF up to the data, the data, and 0xFF up to a multiple of the block size.
unfoldable pub phrase_buffer : ℕ → List ℕ → List ℕ
unfolding phrase_start
phrase_buffer start_addr data_bytes =
    let buf = replicate (start_addr - phrase_start start_addr) 0xFF ++ data_bytes in
    let tail = (flash_block_size - length buf % flash_block_size) % flash_block_size in
    buf ++ replicate tail 0xFF

-- `for i in range(0, len(buf), FLASH_BLOCK_SIZE)`, by the number of rounds left.
unfoldable pub slices : ℕ → ℕ → List ℕ → List Block
slices zero addr buf = []
slices (suc n) addr buf =
    (addr, take flash_block_size buf)
    ∷ slices n (addr + flash_block_size) (drop flash_block_size buf)

-- The pairs of `phrase_addr` and `phrase` in the order of the write commands.
unfoldable pub phrases : ℕ → List ℕ → List Block
unfolding phrase_start phrase_buffer slices
phrases start_addr data_bytes =
    let buf = phrase_buffer start_addr data_bytes in
    slices ((length buf + flash_block_size - 1) / flash_block_size) (phrase_start start_addr) buf
