-- ===== src/Device/Phrase/Mask.antt =====
-- The mask of `_write_block_in_phrases_aligned`, as a quotient and a remainder.
use Prim.Native.Nat.{bit_and, digits, bit_and-bitwise}
use renesas_ra8m1_provisioni.Prelude.{
  ℕ, zero, suc, ◌+◌, ◌*◌, ◌/◌, ◌%◌, ◌≤◌, ◌≡◌, refl, ap, min, arith,
}
use renesas_ra8m1_provisioni.Device.Phrase.{phrase_start}

-- A number of `k` ones, and the `k` lowest digits of a number.
abbrev ones : ℕ → ℕ
ones zero = 0
ones (suc k) = ones k * 2 + 1

abbrev low_digits : ℕ → ℕ → ℕ
low_digits zero a = 0
low_digits (suc k) a = low_digits k (a / 2) * 2 + a % 2

low_digits-zero : (k : ℕ) → low_digits k 0 ≡ 0
low_digits-zero zero = refl
low_digits-zero (suc k) = omega (arith, low_digits-zero k)

-- The recursion that `bit_and` stands for keeps the digits where the mask has ones.
mask_keeps_low :
    (k limit a : ℕ) → a ≤ limit → digits (λ rest. zero) min limit a (ones k) ≡ low_digits k a
mask_keeps_low k zero zero h = omega (arith, low_digits-zero k)
mask_keeps_low k zero (suc a) h = absurd (omega arith)
mask_keeps_low k (suc limit) zero h = omega (arith, low_digits-zero k)
mask_keeps_low zero (suc limit) (suc a) h =
    omega (arith, mask_keeps_low zero limit (suc a / 2) (omega arith))
mask_keeps_low (suc k) (suc limit) (suc a) h =
    let half : ones (suc k) / 2 ≡ ones k = omega arith in
    omega (
      arith,
      ap (digits (λ rest. zero) min limit (suc a / 2)) half,
      mask_keeps_low k limit (suc a / 2) (omega arith),
    )

-- A mask of seven ones is a remainder.
pub bit_and_127 : (a : ℕ) → bit_and a 127 ≡ a % 128
bit_and_127 a = omega (arith, bit_and-bitwise a 127, mask_keeps_low 7 a a (omega arith))

pub phrase_start_lem : (a : ℕ) → phrase_start a ≡ a / 128 * 128
unfolding phrase_start
phrase_start_lem a = omega (arith, bit_and_127 a)
