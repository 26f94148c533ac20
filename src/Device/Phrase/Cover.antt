-- ===== src/Device/Phrase/Cover.antt =====
-- The phrases of a block, their addresses and the bytes that they hold.
use mathlib.Core.Path.{subst}
use renesas_ra8m1_provisioni.Prelude.{
  ℕ, zero, suc, ◌+◌, ◌-◌, ◌*◌, ◌/◌, ◌%◌, ◌≤◌, ◌≡◌, refl, sym, ap, ◌∙◌, List, [], ◌∷◌, ◌++◌, arith,
  length, length-append, length-replicate, length-take, length-drop, take, drop, replicate,
  take-append-drop,
}
use renesas_ra8m1_provisioni.Device.Region.{flash_block_size}
use renesas_ra8m1_provisioni.Device.Merge.{Block}
use renesas_ra8m1_provisioni.Device.Merge.Image.{
  or_else, read_block, read, read_block_below, read_block_above, read_block-append,
  read_block-replicate, Fills,
}
use renesas_ra8m1_provisioni.Device.Phrase.{phrase_start, phrase_buffer, slices, phrases}
use renesas_ra8m1_provisioni.Device.Phrase.Mask.{phrase_start_lem}

-- Phrases at `addr` and on, each of the block size.
abbrev pub ArePhrases : ℕ → List Block → Type 0
ArePhrases addr [] = Unit
ArePhrases addr ((a, d) ∷ bs) =
    (a ≡ addr) × (length d ≡ flash_block_size) × ArePhrases (addr + flash_block_size) bs

slices-ArePhrases :
    (n addr : ℕ) (buf : List ℕ)
    → length buf ≡ n * flash_block_size
    → ArePhrases addr (slices n addr buf)
unfolding slices
slices-ArePhrases zero addr buf h = tt
slices-ArePhrases (suc n) addr buf h = (
  refl,
  omega (arith, length-take flash_block_size buf),
  slices-ArePhrases n (addr + flash_block_size) (drop flash_block_size buf)
      (omega (arith, length-drop flash_block_size buf)),
)

length-slices : (n addr : ℕ) (buf : List ℕ) → length (slices n addr buf) ≡ n
unfolding slices
length-slices zero addr buf = refl
length-slices (suc n) addr buf =
    ap suc (length-slices n (addr + flash_block_size) (drop flash_block_size buf))

read-slices :
    (n addr : ℕ) (buf : List ℕ) (x : ℕ)
    → length buf ≡ n * flash_block_size
    → read (slices n addr buf) x ≡ read_block addr buf x
unfolding slices read
read-slices zero addr [] x h = refl
read-slices zero addr (v ∷ buf) x h = absurd (omega arith)
read-slices (suc n) addr buf x h =
    let head : List ℕ = take flash_block_size buf in
    let rest : List ℕ = drop flash_block_size buf in
    let size : length head ≡ flash_block_size = omega (arith, length-take flash_block_size buf) in
    let whole : read_block addr (head ++ rest) x ≡ read_block addr buf x =
      ap (λ d. read_block addr d x) (take-append-drop flash_block_size buf) in
    let split = read_block-append addr head rest x in
    let ih =
      read-slices n (addr + flash_block_size) rest x
        (omega (arith, length-drop flash_block_size buf)) in
    ap (λ o. or_else (read_block addr head x) o) ih
    ∙ ap (λ t. or_else (read_block addr head x) (read_block (addr + t) rest x)) (sym size)
    ∙ sym split
    ∙ whole

-- Padding on both sides of the data.
read_padded :
    (s n : ℕ) (d : List ℕ) (t x : ℕ)
    → Fills (read_block (s + n) d x) (read_block s ((replicate n 0xFF ++ d) ++ replicate t 0xFF) x)
read_padded s n d t x =
    let front : List ℕ = replicate n 0xFF in
    let size : length front ≡ n = length-replicate n 0xFF in
    let size_both : length (front ++ d) ≡ n + length d =
      length-append front d ∙ ap (λ k. k + length d) size in
    let split = read_block-append s (front ++ d) (replicate t 0xFF) x in
    let split_front = read_block-append s front d x in
    let front_lem = read_block-replicate s n 0xFF x in
    let back_lem = read_block-replicate (s + length (front ++ d)) t 0xFF x in
    let data_at : read_block (s + length front) d x ≡ read_block (s + n) d x =
      ap (λ k. read_block (s + k) d x) size in
    ground (arith, read_block_below (s + n) d x, read_block_above (s + n) d x)

-- How many phrases the buffer fills.
abbrev phrase_count : ℕ → List ℕ → ℕ
phrase_count a d = (length (phrase_buffer a d) + flash_block_size - 1) / flash_block_size

module _ (a : ℕ) (d : List ℕ) where
  length-phrase_buffer : length (phrase_buffer a d) ≡ phrase_count a d * flash_block_size
  unfolding phrase_buffer
  length-phrase_buffer =
      let pad : List ℕ = replicate (a - phrase_start a) 0xFF in
      let buf : List ℕ = pad ++ d in
      let tail = (flash_block_size - length buf % flash_block_size) % flash_block_size in
      omega (arith, length-append buf (replicate tail 0xFF), length-replicate {A = ℕ} tail 0xFF)

  phrase_buffer_bound : length (phrase_buffer a d) ≤ a % 128 + length d + 127
  unfolding phrase_buffer
  phrase_buffer_bound =
      let pad : List ℕ = replicate (a - phrase_start a) 0xFF in
      let buf : List ℕ = pad ++ d in
      let tail = (flash_block_size - length buf % flash_block_size) % flash_block_size in
      let pad_size : length pad ≡ a % 128 =
        length-replicate (a - phrase_start a) 0xFF ∙ omega (arith, phrase_start_lem a) in
      omega (
        arith,
        pad_size,
        length-append pad d,
        length-append buf (replicate tail 0xFF),
        length-replicate {A = ℕ} tail 0xFF,
      )

  read-phrase_buffer :
      (x : ℕ) → Fills (read_block a d x) (read_block (phrase_start a) (phrase_buffer a d) x)
  unfolding phrase_buffer
  read-phrase_buffer x =
      let s = phrase_start a in
      let at_start : s + (a - s) ≡ a = omega (arith, phrase_start_lem a) in
      let tail =
        (flash_block_size - length (replicate (a - s) 0xFF ++ d) % flash_block_size)
        % flash_block_size in
      subst (λ k. Fills (read_block k d x) (read_block s (phrase_buffer a d) x)) at_start
        (read_padded s (a - s) d tail x)

  -- The phrases of a block are consecutive, each of the block size, from the multiple of the block
  -- size at or below the address of the block; they end less than one block size after its last byte;
  -- and at every address they hold the byte of the block there, or 0xFF, or nothing, where the block
  -- has no byte.
  pub phrases_cover :
      ArePhrases (a / 128 * 128) (phrases a d)
      × (length (phrases a d) * 128 ≤ a % 128 + length d + 127)
      × ((x : ℕ) → Fills (read_block a d x) (read (phrases a d) x))
  unfolding phrases
  phrases_cover =
      let n = phrase_count a d in
      let s = phrase_start a in
      let b = phrase_buffer a d in
      let size = length-phrase_buffer in
      (
        subst (λ k. ArePhrases k (slices n s b)) (phrase_start_lem a)
            (slices-ArePhrases n s b size),
        rw (length-slices n s b) (omega (arith, size, phrase_buffer_bound)),
        λ x.
            subst (λ o. Fills (read_block a d x) o) (sym (read-slices n s b x size))
              (read-phrase_buffer x),
      )
