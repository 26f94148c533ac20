-- ===== src/Device/Merge/Image.antt =====
-- The memory image of a list of blocks, the view by which merging and programming are specified.
use renesas_ra8m1_provisioni.Prelude.{
  ℕ, zero, suc, ◌+◌, ◌≤◌, ◌<◌, ◌≡◌, refl, ◌⊎◌, Option, none, some, List, [], ◌∷◌, ◌++◌, arith, ltb,
  leb, ◌==◌, ◌&&◌, if◌then◌else◌, length, replicate,
}

abbrev pub or_else {ℓ} : {A : Type ℓ} → Option A → Option A → Option A
or_else none o = o
or_else (some a) o = some a

-- The byte at address `x` of the data that begins at address `a`.
unfoldable pub read_block : ℕ → List ℕ → ℕ → Option ℕ
read_block a [] x = none
read_block a (v ∷ vs) x = if x == a then some v else read_block (a + 1) vs x

-- The byte at an address of the first block that holds the address.
unfoldable pub read : List (ℕ × List ℕ) → ℕ → Option ℕ
unfolding read_block
read [] x = none
read ((a, d) ∷ bs) x = or_else (read_block a d x) (read bs x)

pub read_block_below : (a : ℕ) (d : List ℕ) (x : ℕ) → x < a → read_block a d x ≡ none
unfolding read_block
read_block_below a [] x h = refl
read_block_below a (v ∷ d) x h = ground (arith, read_block_below (a + 1) d x)

pub read_block_above : (a : ℕ) (d : List ℕ) (x : ℕ) → a + length d ≤ x → read_block a d x ≡ none
unfolding read_block
read_block_above a [] x h = refl
read_block_above a (v ∷ d) x h = ground (arith, read_block_above (a + 1) d x)

pub read_block-append :
    (a : ℕ) (d e : List ℕ) (x : ℕ)
    → read_block a (d ++ e) x ≡ or_else (read_block a d x) (read_block (a + length d) e x)
unfolding read_block
read_block-append a [] e x = let p : a + 0 ≡ a = omega arith in rw p
read_block-append a (v ∷ d) e x =
    let p : a + suc (length d) ≡ a + 1 + length d = omega arith in
    rw p (ground (arith, read_block-append (a + 1) d e x))

pub read_block-replicate :
    (a n v x : ℕ)
    → read_block a (replicate n v) x ≡ (if leb a x && ltb x (a + n) then some v else none)
unfolding read_block
read_block-replicate a zero v x = ground arith
read_block-replicate a (suc n) v x = ground (arith, read_block-replicate (a + 1) n v x)

-- The image `new` has what the image `old` has, and may have 0xFF where `old` has nothing.
abbrev pub Fills : Option ℕ → Option ℕ → Type 0
Fills old new = (new ≡ old) ⊎ ((old ≡ none) × (new ≡ some 0xFF))
