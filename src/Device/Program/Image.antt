-- ===== src/Device/Program/Image.antt =====
-- The flash image that the write commands of a programming run add up to.
use mathlib.Core.Path.{subst}
use renesas_ra8m1_provisioni.Prelude.{
  ℕ, ◌+◌, ◌*◌, ◌/◌, ◌%◌, ◌≤◌, ◌<◌, ◌≡◌, refl, sym, ap, ◌∙◌, inl, none, Option, List, [], ◌∷◌, ◌++◌,
  arith, length,
}
use renesas_ra8m1_provisioni.Device.Merge.{Block}
use renesas_ra8m1_provisioni.Device.Merge.Image.{
  or_else, read, read_block_below, read_block_above, Fills,
}
use renesas_ra8m1_provisioni.Device.Merge.Sorted.{IsSpaced, IsSpacedFrom}
use renesas_ra8m1_provisioni.Device.Phrase.{phrases}
use renesas_ra8m1_provisioni.Device.Phrase.Cover.{ArePhrases, phrases_cover}
use renesas_ra8m1_provisioni.Device.Program.Sent.{all_phrases}

-- Whole aligned phrases at ascending addresses, from `stop` on: no address is written twice.
abbrev pub IsPhraseSeq : ℕ → List Block → Type 0
IsPhraseSeq stop [] = Unit
IsPhraseSeq stop ((a, d) ∷ bs) =
    (stop ≤ a) × (a % 128 ≡ 0) × (length d ≡ 128) × IsPhraseSeq (a + 128) bs

read-append : (bs cs : List Block) (x : ℕ) → read (bs ++ cs) x ≡ or_else (read bs x) (read cs x)
unfolding read
read-append [] cs x = refl
read-append ((a, d) ∷ bs) cs x = ground (arith, read-append bs cs x)

read_phrases_above :
    (addr : ℕ) (ps : List Block) (x : ℕ)
    → ArePhrases addr ps
    → addr + length ps * 128 ≤ x
    → read ps x ≡ none
unfolding read
read_phrases_above addr [] x h k = refl
read_phrases_above addr ((a, d) ∷ ps) x h k = ground (
  arith,
  read_block_above a d x (omega (arith, h.0, h.1)),
  read_phrases_above (addr + 128) ps x h.2 (omega arith),
)

read_spaced_below :
    (stop : ℕ) (bs : List Block) (x : ℕ)
    → IsSpacedFrom 128 stop bs
    → x < stop + 128
    → read bs x ≡ none
unfolding read
read_spaced_below stop [] x h k = refl
read_spaced_below stop ((a, d) ∷ bs) x h k = ground (
  arith,
  read_block_below a d x (omega (arith, h.0)),
  read_spaced_below (a + length d) bs x h.1 (omega (arith, h.0)),
)

-- The phrases of a block end below the next block.
phrases_above : (a : ℕ) (d : List ℕ) (x : ℕ) → a + length d + 128 ≤ x → read (phrases a d) x ≡ none
phrases_above a d x h =
    let c = phrases_cover a d in
    read_phrases_above (a / 128 * 128) (phrases a d) x c.0 (omega (arith, c.1))

Fills-phrases :
    (a : ℕ) (d : List ℕ) (bs : List Block) (x : ℕ) (new : Option ℕ)
    → IsSpacedFrom 128 (a + length d) bs
    → Fills (read bs x) new
    → Fills (read ((a, d) ∷ bs) x) (or_else (read (phrases a d) x) new)
unfolding read
Fills-phrases a d bs x new h f = ground (
  arith,
  (phrases_cover a d).2 x,
  phrases_above a d x,
  read_spaced_below (a + length d) bs x h,
  read_block_above a d x,
)

all_phrases_image_from :
    (a : ℕ) (d : List ℕ) (bs : List Block) (x : ℕ)
    → IsSpacedFrom 128 (a + length d) bs
    → Fills (read ((a, d) ∷ bs) x) (read (all_phrases ((a, d) ∷ bs)) x)
all_phrases_image_from a d [] x h =
    subst (λ o. Fills (read ((a, d) ∷ []) x) o) (sym (read-append (phrases a d) [] x))
      (Fills-phrases a d [] x (read [] x) h (inl refl))
all_phrases_image_from a d ((b, e) ∷ bs) x h =
    subst (λ o. Fills (read ((a, d) ∷ (b, e) ∷ bs) x) o)
      (sym (read-append (phrases a d) (all_phrases ((b, e) ∷ bs)) x))
      (Fills-phrases a d ((b, e) ∷ bs) x (read (all_phrases ((b, e) ∷ bs)) x) h
        (all_phrases_image_from b e bs x h.1))

pub all_phrases_image :
    (bs : List Block) (x : ℕ) → IsSpaced 128 bs → Fills (read bs x) (read (all_phrases bs) x)
all_phrases_image [] x h = inl refl
all_phrases_image ((a, d) ∷ bs) x h = all_phrases_image_from a d bs x h

IsPhraseSeq-weaken :
    (low stop : ℕ) (qs : List Block) → low ≤ stop → IsPhraseSeq stop qs → IsPhraseSeq low qs
IsPhraseSeq-weaken low stop [] h q = tt
IsPhraseSeq-weaken low stop ((a, d) ∷ qs) h q = (omega (arith, q.0), q.1, q.2, q.3)

IsPhraseSeq-append :
    (stop addr : ℕ) (ps qs : List Block)
    → stop ≤ addr
    → addr % 128 ≡ 0
    → ArePhrases addr ps
    → IsPhraseSeq (addr + length ps * 128) qs
    → IsPhraseSeq stop (ps ++ qs)
IsPhraseSeq-append stop addr [] qs h k p q =
    IsPhraseSeq-weaken stop (addr + 0 * 128) qs (omega arith) q
IsPhraseSeq-append stop addr ((a, d) ∷ ps) qs h k p q = (
  omega (arith, p.0),
  ap (λ t. t % 128) p.0 ∙ k,
  p.1,
  IsPhraseSeq-append (a + 128) (addr + 128) ps qs (omega (arith, p.0)) (omega arith) p.2
      (subst (λ t. IsPhraseSeq t qs) (omega arith) q),
)

all_phrases-IsPhraseSeq_from :
    (stop end : ℕ) (bs : List Block)
    → IsSpacedFrom 128 end bs
    → stop ≤ (end + 127) / 128 * 128
    → IsPhraseSeq stop (all_phrases bs)
all_phrases-IsPhraseSeq_from stop end [] h k = tt
all_phrases-IsPhraseSeq_from stop end ((a, d) ∷ bs) h k =
    let c = phrases_cover a d in
    IsPhraseSeq-append stop (a / 128 * 128) (phrases a d) (all_phrases bs) (omega (arith, h.0))
      (omega arith) c.0
      (all_phrases-IsPhraseSeq_from (a / 128 * 128 + length (phrases a d) * 128) (a + length d) bs
        h.1 (omega (arith, c.1)))

pub all_phrases-IsPhraseSeq : (bs : List Block) → IsSpaced 128 bs → IsPhraseSeq 0 (all_phrases bs)
all_phrases-IsPhraseSeq [] h = tt
all_phrases-IsPhraseSeq ((a, d) ∷ bs) h =
    let c = phrases_cover a d in
    IsPhraseSeq-append 0 (a / 128 * 128) (phrases a d) (all_phrases bs) (omega arith) (omega arith)
      c.0
      (all_phrases-IsPhraseSeq_from (a / 128 * 128 + length (phrases a d) * 128) (a + length d) bs h
        (omega (arith, c.1)))
