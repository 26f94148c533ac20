-- ===== src/Device/Merge/Overlap.antt =====
-- The branch of `_merge_contiguous_blocks` for blocks that overlap.
use renesas_ra8m1_provisioni.Prelude.{
  ℕ, zero, suc, ◌+◌, ◌-◌, ◌≤◌, ◌<◌, ◌≡◌, refl, ap, ◌∙◌, min, none, some, List, [], ◌∷◌, ◌++◌, arith,
  ltb, ◌==◌, if◌then◌else◌, length, length-append, length-replicate, length-set, length-take, set,
  take, replicate,
}
use renesas_ra8m1_provisioni.Device.Merge.{store, overlay, absorb, merge_contiguous_blocks}
use renesas_ra8m1_provisioni.Device.Merge.Image.{
  or_else, read_block, read_block_below, read_block_above, read_block-append, read_block-replicate,
}

read_block-set :
    (a : ℕ) (d : List ℕ) (j v x : ℕ)
    → j < length d
    → read_block a (set d j v) x ≡ (if x == a + j then some v else read_block a d x)
unfolding read_block
read_block-set a [] j v x h = elim h [ ]
read_block-set a (w ∷ d) zero v x h = ground arith
read_block-set a (w ∷ d) (suc j) v x h =
    let e : a + suc j ≡ a + 1 + j = omega arith in
    rw e (ground (arith, read_block-set (a + 1) d j v x (omega arith)))

store_inside :
    (a : ℕ) (d : List ℕ) (i v : ℕ)
    → a ≤ i
    → i < a + length d
    → store a d i v ≡ some (set d (i - a) v)
unfolding store
store_inside a d i v h k = ground arith

-- Inside the current data the loop stores every byte and changes no other.
overlay_inside :
    (a : ℕ) (d : List ℕ) (i : ℕ) (vs : List ℕ)
    → a ≤ i
    → i + length vs ≤ a + length d
    → (out : List ℕ) × (overlay a d i vs ≡ some out)
      × ((x : ℕ) → read_block a out x ≡ or_else (read_block i vs x) (read_block a d x))
unfolding overlay read_block
overlay_inside a d i [] h k = (d, refl, λ x. refl)
overlay_inside a d i (v ∷ vs) h k =
    let d' = set d (i - a) v in
    let n : length d' ≡ length d = length-set d (i - a) v in
    let r = overlay_inside a d' (i + 1) vs (omega arith) (omega arith) in
    (
      r.0,
      rw (store_inside a d i v h (omega arith), overlay) r.1,
      λ x. ground (
        arith,
        r.2 x,
        read_block-set a d (i - a) v x (omega arith),
        read_block_below (i + 1) vs x,
      ),
    )

read_block-take :
    (b n : ℕ) (e : List ℕ) (x : ℕ)
    → read_block b (take n e) x ≡ (if ltb x (b + n) then read_block b e x else none)
unfolding read_block
read_block-take b zero e x = ground (arith, read_block_below b e x)
read_block-take b (suc n) [] x = ground arith
read_block-take b (suc n) (v ∷ e) x = ground (arith, read_block-take (b + 1) n e x)

module _ (a : ℕ) (d : List ℕ) (b : ℕ) (e : List ℕ) (h : a ≤ b) (k : b < a + length d) where
  -- What the branch for an overlap leaves at each address: the new bytes up to the old end of the
  -- current block, 0xFF from there to the end of the new block, and the old bytes elsewhere.
  absorb_image :
      (out : List ℕ) × (absorb a d b e ≡ some out)
      × ((x : ℕ)
          → read_block a out x ≡ (
              if ltb x (a + length d)
              then or_else (read_block b e x) (read_block a d x)
              else if ltb x (b + length e)
              then some 0xFF
              else none))
  unfolding absorb
  absorb_image =
      let stop = a + length d in
      let extra = b + length e - stop in
      let n = min stop (b + length e) - b in
      let padded : List ℕ = d ++ replicate extra 0xFF in
      let size : length padded ≡ length d + extra =
        length-append d (replicate extra 0xFF)
        ∙ ap (λ t. length d + t) (length-replicate extra 0xFF) in
      let r = overlay_inside a padded b (take n e) h (omega (arith, length-take n e)) in
      (
        r.0,
        r.1,
        λ x.
            r.2 x
            ∙ ground (
              arith,
              read_block-take b n e x,
              read_block-append a d (replicate extra 0xFF) x,
              read_block-replicate stop extra 0xFF x,
              read_block_above a d x,
              read_block_above b e x,
            ),
      )

  -- Two blocks of which the second begins inside the first are merged into one, at the address of the
  -- first: where the second has a byte inside the first, that byte; elsewhere inside the first, the
  -- byte of the first; and from the end of the first to the end of the second 0xFF, whatever the
  -- second holds there.
  pub merge_overlapping_pair :
      (p : ℕ)
      → (out : List ℕ) × (merge_contiguous_blocks ((a, d) ∷ (b, e) ∷ []) p ≡ some ((a, out) ∷ []))
        × ((x : ℕ)
            → read_block a out x ≡ (
                if ltb x (a + length d)
                then or_else (read_block b e x) (read_block a d x)
                else if ltb x (b + length e)
                then some 0xFF
                else none))
  unfolding merge_contiguous_blocks
  merge_overlapping_pair p = (absorb_image.0, ground (arith, absorb_image.1), absorb_image.2)
