-- ===== src/Device/Serial/Checksum.antt =====
-- The checksum of the packets.
use renesas_ra8m1_provisioni.Prelude.{ℕ, ◌+◌, ◌%◌, ◌<◌, ◌≡◌, ◌↔◌, List, [], ◌∷◌, ◌++◌, arith}
use renesas_ra8m1_provisioni.Device.Serial.{sum_bytes, calc_sum}

pub sum_bytes-append : (xs ys : List ℕ) → sum_bytes (xs ++ ys) ≡ sum_bytes xs + sum_bytes ys
unfolding sum_bytes
sum_bytes-append [] ys = omega arith
sum_bytes-append (x ∷ xs) ys = omega (arith, sum_bytes-append xs ys)

-- The checksum is one byte, and a byte makes the sum of the packet a multiple of 256 exactly if it is
-- the checksum.
pub calc_sum_unique :
    (bytes : List ℕ) (c : ℕ)
    → c < 256
    → (calc_sum bytes < 256) × ((sum_bytes (bytes ++ c ∷ []) % 256 ≡ 0) ↔ (c ≡ calc_sum bytes))
unfolding calc_sum sum_bytes
calc_sum_unique bytes c h = (
  omega arith,
  (
    λ e. omega (arith, e, sum_bytes-append bytes (c ∷ [])),
    λ e. omega (arith, e, sum_bytes-append bytes (c ∷ [])),
  ),
)
