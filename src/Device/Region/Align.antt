-- ===== src/Device/Region/Align.antt =====
-- `_align_down` and `_align_up` of device/ra8_srec_programmer.py.
use native.Mathlib.Nat.{add-mul-mod_self_right, zero-mod, div-add-mod', mod-lt}
use renesas_ra8m1_provisioni.Prelude.{ℕ, ◌+◌, ◌-◌, ◌*◌, ◌/◌, ◌%◌, ◌≤◌, ◌<◌, ◌≡◌, ◌∙◌, ap, arith}
use renesas_ra8m1_provisioni.Device.Region.{align_down, align_up}

pub mul-mod_self : (k s : ℕ) → k * s % s ≡ 0
mul-mod_self k s =
    let e : k * s ≡ 0 + k * s = omega arith in
    ap (λ t. t % s) e ∙ add-mul-mod_self_right 0 k s ∙ zero-mod s

-- A product that is known to be a remainder's complement is divisible.
sub-mod-mod : (a s : ℕ) → (a - a % s) % s ≡ 0
sub-mod-mod a s =
    let e : a - a % s ≡ a / s * s = omega (arith, div-add-mod' a s) in
    ap (λ t. t % s) e ∙ mul-mod_self (a / s) s

-- For a positive size, `align_down` gives the multiple of the size at or below the address, less than
-- one size away, and `align_up` the multiple at or above it, less than one size away.
pub align_bounds :
    (a s : ℕ)
    → 0 < s
    → (align_down a s ≤ a)
      × (a < align_down a s + s)
      × (align_down a s % s ≡ 0)
      × (a ≤ align_up a s)
      × (align_up a s < a + s)
      × (align_up a s % s ≡ 0)
unfolding align_down align_up
align_bounds a s h = (
  omega arith,
  omega (arith, mod-lt a h),
  sub-mod-mod a s,
  omega (arith, div-add-mod' (a + s - 1) s, mod-lt (a + s - 1) h),
  omega (arith, div-add-mod' (a + s - 1) s),
  mul-mod_self ((a + s - 1) / s) s,
)
