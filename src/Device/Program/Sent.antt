-- ===== src/Device/Program/Sent.antt =====
-- The packets of a whole programming run.
use mathlib.Core.List.{append-nil, append_assoc}
use renesas_ra8m1_provisioni.Prelude.{
  ℕ, ◌+◌, ◌*◌, ◌/◌, ◌≡◌, refl, sym, ap, ◌∙◌, true, false, List, [], ◌∷◌, ◌++◌, arith, length,
}
use renesas_ra8m1_provisioni.Device.Merge.{Block}
use renesas_ra8m1_provisioni.Device.Phrase.{phrases}
use renesas_ra8m1_provisioni.Device.Phrase.Cover.{ArePhrases, phrases_cover}
use renesas_ra8m1_provisioni.Device.Serial.{Port, Action, ok, >>=-eq-ok}
use renesas_ra8m1_provisioni.Device.Command.{command_write}
use renesas_ra8m1_provisioni.Device.Command.Frames.{announcement, chunk_frame, command_write_short}
use renesas_ra8m1_provisioni.Device.Program.{
  or_fail, write_phrases, write_block_in_phrases_aligned, write_blocks,
}

-- For each phrase its announcement and its data.
abbrev pub phrase_frames : List Block → List (List ℕ)
phrase_frames [] = []
phrase_frames ((a, d) ∷ bs) = announcement a (length d) ∷ chunk_frame d ∷ phrase_frames bs

-- The phrases of all blocks, in order.
abbrev pub all_phrases : List Block → List Block
all_phrases [] = []
all_phrases ((a, d) ∷ bs) = phrases a d ++ all_phrases bs

phrase_frames-append :
    (bs cs : List Block) → phrase_frames (bs ++ cs) ≡ phrase_frames bs ++ phrase_frames cs
phrase_frames-append [] cs = refl
phrase_frames-append ((a, d) ∷ bs) cs =
    ap (λ t. announcement a (length d) ∷ chunk_frame d ∷ t) (phrase_frames-append bs cs)

pub or_fail_ok :
    (good : _) (k : Action Unit) (s : Port) {s' : Port}
    → or_fail good k s ≡ (ok tt, s')
    → (good ≡ true) × (k s ≡ (ok tt, s'))
or_fail_ok true k s h = (refl, h)
or_fail_ok false k s h = cc

pub pair_eta : {A : Type 0} (r : A) (x : A × Port) → x.0 ≡ r → x ≡ (r, x.1)
pair_eta r x h = λ i. (h i, x.1)

write_phrases_sent :
    (addr : ℕ) (bs : List Block) (s s' : Port)
    → ArePhrases addr bs
    → write_phrases bs s ≡ (ok tt, s')
    → s'.sent ≡ s.sent ++ phrase_frames bs
unfolding write_phrases
write_phrases_sent addr [] s s' p h = simp append-nil (ap (λ r. r.1.sent) (sym h))
write_phrases_sent addr ((a, d) ∷ bs) s s' p h =
    let r = >>=-eq-ok (command_write a d) (λ good. or_fail good (write_phrases bs)) {s = s} h in
    let t = (command_write a d s).1 in
    let q = or_fail_ok r.0 (write_phrases bs) t r.2 in
    let first : t.sent ≡ s.sent ++ announcement a (length d) ∷ chunk_frame d ∷ [] =
      command_write_short a d s t (omega (arith, p.1)) (omega (arith, p.1))
        (pair_eta (ok true) (command_write a d s) (r.1 ∙ ap ok q.0)) in
    write_phrases_sent (addr + 128) bs t s' p.2 q.1
    ∙ ap (λ x. x ++ phrase_frames bs) first
    ∙ append_assoc s.sent (announcement a (length d) ∷ chunk_frame d ∷ []) (phrase_frames bs)

-- A run of the write loop that ends without an exception has sent, for each phrase of each block in
-- order, its announcement and its data, and nothing else.
pub write_blocks_sent :
    (bs : List Block) (s s' : Port)
    → write_blocks bs s ≡ (ok tt, s')
    → s'.sent ≡ s.sent ++ phrase_frames (all_phrases bs)
unfolding write_blocks write_block_in_phrases_aligned
write_blocks_sent [] s s' h = simp append-nil (ap (λ r. r.1.sent) (sym h))
write_blocks_sent ((a, d) ∷ bs) s s' h =
    let r = >>=-eq-ok (write_phrases (phrases a d)) (λ _. write_blocks bs) {s = s} h in
    let t = (write_phrases (phrases a d) s).1 in
    let first =
      write_phrases_sent (a / 128 * 128) (phrases a d) s t (phrases_cover a d).0
        (pair_eta (ok tt) (write_phrases (phrases a d) s) (r.1)) in
    write_blocks_sent bs t s' r.2
    ∙ ap (λ x. x ++ phrase_frames (all_phrases bs)) first
    ∙ append_assoc s.sent (phrase_frames (phrases a d)) (phrase_frames (all_phrases bs))
    ∙ ap (λ x. s.sent ++ x) (sym (phrase_frames-append (phrases a d) (all_phrases bs)))
