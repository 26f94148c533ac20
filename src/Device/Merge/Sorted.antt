-- ===== src/Device/Merge/Sorted.antt =====
-- `_merge_contiguous_blocks` on blocks that ascend without overlap: the image and the distances of the
-- blocks of the result.
use renesas_ra8m1_provisioni.Prelude.{
  ℕ, ◌+◌, ◌-◌, ◌*◌, ◌/◌, ◌≤◌, ◌<◌, ◌≡◌, refl, true, false, inl, inr, Option, none, some, List, [],
  ◌∷◌, ◌++◌, arith, ltb, leb, ◌&&◌, if◌then◌else◌, leb→le, Bool-cases, ◌∙◌, ap, length,
  length-append, length-replicate, replicate,
}
use renesas_ra8m1_provisioni.Device.Merge.{
  Block, has_full_aligned_phrase, push_block, merge_from, merge_contiguous_blocks,
}
use renesas_ra8m1_provisioni.Device.Merge.Image.{
  or_else, read_block, read, read_block_below, read_block_above, read_block-append,
  read_block-replicate, Fills,
}

-- The blocks ascend, and none begins below `stop` or the end of the one before.
abbrev pub IsAbove : ℕ → List Block → Type 0
IsAbove stop [] = Unit
IsAbove stop ((a, d) ∷ bs) = (stop ≤ a) × IsAbove (a + length d) bs

abbrev pub IsDisjoint : List Block → Type 0
IsDisjoint = IsAbove 0

-- Each block begins a whole aligned phrase or more after the end of the one before.
abbrev pub IsSpacedFrom : ℕ → ℕ → List Block → Type 0
IsSpacedFrom p stop [] = Unit
IsSpacedFrom p stop ((a, d) ∷ bs) =
    ((stop + p - 1) / p * p + p ≤ a) × IsSpacedFrom p (a + length d) bs

abbrev pub IsSpaced : ℕ → List Block → Type 0
IsSpaced p [] = Unit
IsSpaced p ((a, d) ∷ bs) = IsSpacedFrom p (a + length d) bs

-- What the loop returns from the current block `(a, d)`: the first block still begins at `a`.
record Merged (p a : ℕ) (d : List ℕ) (bs out : List Block) : Type 0 where
  head : List ℕ
  rest : List Block
  shape : out ≡ (a, head) ∷ rest
  longer : length d ≤ length head
  spaced : IsSpaced p out
  image : (x : ℕ) → Fills (read ((a, d) ∷ bs) x) (read out x)

-- The data of two blocks with the padding between them, at one address.
read_joined :
    (a : ℕ) (d : List ℕ) (b : ℕ) (e : List ℕ) (x : ℕ)
    → a + length d ≤ b
    → read_block a (d ++ (replicate (b - (a + length d)) 0xFF ++ e)) x
      ≡ or_else
          (read_block a d x)
          (or_else (if leb (a + length d) x && ltb x b then some 0xFF else none) (read_block b e x))
read_joined a d b e x h =
    let gap = b - (a + length d) in
    let n : length {A = ℕ} (replicate gap 0xFF) ≡ gap = length-replicate gap 0xFF in
    let end : a + length d + gap ≡ b = omega arith in
    rw
      (
        read_block-append a d (replicate gap 0xFF ++ e) x,
        read_block-append (a + length d) (replicate gap 0xFF) e x,
        n,
        end,
        read_block-replicate (a + length d) gap 0xFF x,
        end,
      )
      refl

read_above_none : (stop x : ℕ) (bs : List Block) → IsAbove stop bs → x < stop → read bs x ≡ none
unfolding read
read_above_none stop x [] h k = refl
read_above_none stop x ((a, d) ∷ bs) h k = ground (
  arith,
  read_block_below a d x (omega arith),
  read_above_none (a + length d) x bs h.1 (omega arith),
)

Fills-trans_joined :
    (a : ℕ) (d : List ℕ) (b : ℕ) (e : List ℕ) (bs : List Block) (x : ℕ) (new : Option ℕ)
    → a + length d ≤ b
    → IsAbove (b + length e) bs
    → Fills (read ((a, d ++ (replicate (b - (a + length d)) 0xFF ++ e)) ∷ bs) x) new
    → Fills (read ((a, d) ∷ (b, e) ∷ bs) x) new
unfolding read
Fills-trans_joined a d b e bs x new h k f = ground (
  arith,
  read_joined a d b e x h,
  read_block_below b e x,
  read_block_above a d x,
  read_above_none (b + length e) x bs k,
)

module _ (p a : ℕ) (d : List ℕ) (b : ℕ) (e : List ℕ) (bs : List Block) (h : a + length d ≤ b) where
  step_far :
      has_full_aligned_phrase p (a + length d) b ≡ true
      → merge_from p a d ((b, e) ∷ bs) ≡ push_block (a, d) (merge_from p b e bs)
  unfolding merge_from
  step_far far = ground arith

  step_near :
      has_full_aligned_phrase p (a + length d) b ≡ false
      → merge_from p a d ((b, e) ∷ bs)
        ≡ merge_from p a (d ++ (replicate (b - (a + length d)) 0xFF ++ e)) bs
  unfolding merge_from
  step_near near = ground arith

  Merged-far :
      (out : List Block)
      → has_full_aligned_phrase p (a + length d) b ≡ true
      → Merged p b e bs out
      → Merged p a d ((b, e) ∷ bs) ((a, d) ∷ out)
  unfolding has_full_aligned_phrase read
  Merged-far out far m = record {
    head = d;
    rest = out;
    shape = refl;
    longer = omega arith;
    spaced = rw m.shape (leb→le _ _ far, rw m.shape at m.spaced);
    image = λ x. ground (arith, m.image x);
  }

  Merged-near :
      (out : List Block)
      → IsAbove (b + length e) bs
      → Merged p a (d ++ (replicate (b - (a + length d)) 0xFF ++ e)) bs out
      → Merged p a d ((b, e) ∷ bs) out
  Merged-near out k m = record {
    head = m.head;
    rest = m.rest;
    shape = m.shape;
    longer = omega (arith, length-append d (replicate (b - (a + length d)) 0xFF ++ e), m.longer);
    spaced = m.spaced;
    image = λ x. Fills-trans_joined a d b e bs x (read out x) h k (m.image x);
  }

length_joined :
    (a : ℕ) (d : List ℕ) (b : ℕ) (e : List ℕ)
    → a + length d ≤ b
    → a + length (d ++ (replicate (b - (a + length d)) 0xFF ++ e)) ≡ b + length e
length_joined a d b e h = omega (
  arith,
  length-append d (replicate (b - (a + length d)) 0xFF ++ e),
  length-append (replicate (b - (a + length d)) 0xFF) e,
  length-replicate {A = ℕ} (b - (a + length d)) 0xFF,
)

merge_from-Merged :
    (p a : ℕ) (d : List ℕ) (bs : List Block)
    → IsAbove (a + length d) bs
    → (out : List Block) × (merge_from p a d bs ≡ some out) × Merged p a d bs out
unfolding merge_from push_block
merge_from-Merged p a d [] h = (
  (a, d) ∷ [],
  refl,
  record {
    head = d;
    rest = [];
    shape = refl;
    longer = omega arith;
    spaced = tt;
    image = λ x. inl refl;
  },
)
merge_from-Merged p a d ((b, e) ∷ bs) (h, k) =
    let far_rest = merge_from-Merged p b e bs k in
    let near_rest =
      merge_from-Merged p a (d ++ (replicate (b - (a + length d)) 0xFF ++ e)) bs
        (rw (length_joined a d b e h) k) in
    elim (Bool-cases (has_full_aligned_phrase p (a + length d) b)) [
      | inl far ↦ (
        (a, d) ∷ far_rest.0,
        step_far p a d b e bs h far ∙ ap (push_block (a, d)) far_rest.1,
        Merged-far p a d b e bs h far_rest.0 far far_rest.2,
      )
      | inr near ↦ (
        near_rest.0,
        step_near p a d b e bs h near ∙ near_rest.1,
        Merged-near p a d b e bs h near_rest.0 k near_rest.2,
      )
    ]

-- Merging blocks that ascend without overlap raises no error. In the result each block begins a whole
-- aligned phrase or more after the end of the one before it, and every address holds the byte that
-- the input has there, or 0xFF, or nothing, where the input has no byte.
pub merge_contiguous_blocks_image :
    (blocks : List Block) (p : ℕ)
    → IsDisjoint blocks
    → (out : List Block) × (merge_contiguous_blocks blocks p ≡ some out)
      × IsSpaced p out
      × ((x : ℕ) → Fills (read blocks x) (read out x))
unfolding merge_contiguous_blocks
merge_contiguous_blocks_image [] p h = ([], refl, tt, λ x. inl refl)
merge_contiguous_blocks_image ((a, d) ∷ bs) p h =
    let r = merge_from-Merged p a d bs h.1 in (r.0, r.1, r.2.spaced, r.2.image)
