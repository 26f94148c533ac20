-- ===== src/Device/Region/Alias.antt =====
-- Remapping between the secure and the non-secure alias, and the classes of addresses.
use renesas_ra8m1_provisioni.Prelude.{ℕ, ◌+◌, ◌≤◌, ◌<◌, ◌≡◌, ◌≢◌, ◌⊎◌, true, false, arith}
use renesas_ra8m1_provisioni.Device.Region.{
  RegionClass, classify_region, remap_alias, range_check_block, secure_alias_limit,
  nonsec_alias_limit,
}

-- An address that is classified as non-secure code flash is remapped to one that is classified as
-- secure code flash, and the remapping back restores it.
pub remap_alias-code_nonsec :
    (a : ℕ)
    → classify_region a ≡ RegionClass.code_nonsec
    → (classify_region (remap_alias a true) ≡ RegionClass.code_secure)
      × (remap_alias (remap_alias a true) false ≡ a)
unfolding classify_region remap_alias
remap_alias-code_nonsec a h = ground arith

-- After remapping to the secure alias no address is classified as non-secure code, and an address
-- that was not so classified before is unchanged.
pub remap_alias_secure :
    (a : ℕ)
    → (classify_region (remap_alias a true) ≢ RegionClass.code_nonsec)
      × (classify_region a ≢ RegionClass.code_nonsec → remap_alias a true ≡ a)
unfolding classify_region remap_alias
remap_alias_secure a = (ground arith, ground arith)

-- A secure code address from 0x021F0000 on is remapped to an address beyond the non-secure alias.
pub remap_alias_overflow :
    (a : ℕ) → 0x021F0000 ≤ a → a ≤ secure_alias_limit → nonsec_alias_limit < remap_alias a false
unfolding remap_alias
remap_alias_overflow a h k = ground arith

-- In a block that passes the range check every byte has the class of the first one, which is secure
-- or non-secure code flash.
pub range_check_block_sound :
    (addr len i : ℕ)
    → range_check_block addr len ≡ true
    → i < len
    → (classify_region (addr + i) ≡ classify_region addr)
      × ((classify_region addr ≡ RegionClass.code_secure)
          ⊎ (classify_region addr ≡ RegionClass.code_nonsec))
unfolding range_check_block classify_region
range_check_block_sound addr len i h k = (ground arith, ground arith)
