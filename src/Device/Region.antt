-- ===== src/Device/Region.antt =====
-- The memory map of the RA8M1 in device/ra8_srec_programmer.py: the constants of
-- `RA8ProvisioningClient`, alias remapping, region classes, range checks and alignment.
pub mod Alias
pub mod Align
use renesas_ra8m1_provisioni.Prelude.{
  ℕ, ◌+◌, ◌-◌, ◌*◌, ◌/◌, ◌%◌, Bool, true, false, ◌&&◌, ◌||◌, leb, if◌then◌else◌,
}

abbrev pub secure_alias_base : ℕ
secure_alias_base = 0x02000000

abbrev pub secure_alias_limit : ℕ
secure_alias_limit = 0x021F7FFF

abbrev pub nonsec_alias_base : ℕ
nonsec_alias_base = 0x12008000

abbrev pub nonsec_alias_limit : ℕ
nonsec_alias_limit = 0x121F7FFF

abbrev pub erase_sector_size : ℕ
erase_sector_size = 32 * 1024

abbrev pub flash_block_size : ℕ
flash_block_size = 128

-- `lo <= x <= hi`
abbrev pub in_range : ℕ → ℕ → ℕ → Bool
in_range lo hi x = leb lo x && leb x hi

-- The strings that `_classify_region` returns.
pub data RegionClass : Type 0 where
  code_secure code_nonsec option_setting data_flash sram other : RegionClass

unfoldable pub remap_alias : ℕ → Bool → ℕ
remap_alias address true =
    if in_range nonsec_alias_base nonsec_alias_limit address
    then secure_alias_base + (address - nonsec_alias_base)
    else address
remap_alias address false =
    if in_range secure_alias_base secure_alias_limit address
    then nonsec_alias_base + (address - secure_alias_base)
    else address

unfoldable pub classify_region : ℕ → RegionClass
classify_region addr =
    if in_range secure_alias_base secure_alias_limit addr
    then RegionClass.code_secure
    else if in_range nonsec_alias_base nonsec_alias_limit addr
    then RegionClass.code_nonsec
    else if in_range 0x0300A000 0x0300AFFF addr
    then RegionClass.option_setting
    else if in_range 0x37000000 0x37002FFF addr
    then RegionClass.data_flash
    else if in_range 0x22000000 0x22FFFFFF addr
    then RegionClass.sram
    else RegionClass.other

-- `end_addr` is `addr + data_len - 1`; it is -1, below every base, only at `addr` 0 with no data,
-- where the test on `addr` fails already.
unfoldable pub range_check_block : ℕ → ℕ → Bool
range_check_block addr data_len =
    let end_addr = addr + data_len - 1 in
    (in_range secure_alias_base secure_alias_limit addr
      && in_range secure_alias_base secure_alias_limit end_addr)
    || (in_range nonsec_alias_base nonsec_alias_limit addr
        && in_range nonsec_alias_base nonsec_alias_limit end_addr)

unfoldable pub align_down : ℕ → ℕ → ℕ
align_down addr size = addr - addr % size

unfoldable pub align_up : ℕ → ℕ → ℕ
align_up addr size = (addr + size - 1) / size * size
