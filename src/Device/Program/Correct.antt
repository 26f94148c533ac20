-- ===== src/Device/Program/Correct.antt =====
-- `program_srec_file` as a whole: what a run that raises nothing has sent, and what it programs.
use mathlib.Core.List.{append-nil, append_assoc}
use renesas_ra8m1_provisioni.Prelude.{
  ℕ, ◌+◌, ◌≤◌, ◌≡◌, ◌≢◌, ◌⊎◌, sym, ap, ◌∙◌, Bool, inl, inr, Option, some, List, [], ◌∷◌, ◌++◌,
  arith, Bool-cases, leb, length,
}
use renesas_ra8m1_provisioni.Device.Region.{RegionClass, classify_region}
use renesas_ra8m1_provisioni.Device.Merge.{Block, merge_contiguous_blocks}
use renesas_ra8m1_provisioni.Device.Merge.Image.{read, Fills}
use renesas_ra8m1_provisioni.Device.Merge.Sorted.{
  IsAbove, IsDisjoint, merge_contiguous_blocks_image,
}
use renesas_ra8m1_provisioni.Device.Serial.{Port, ok, >>=-eq-ok}
use renesas_ra8m1_provisioni.Device.Command.Frames.{erase_frame, command_erase_sent}
use renesas_ra8m1_provisioni.Device.Program.{
  insert_block, sort_blocks, keep_code, code_blocks, erase_span, erase_srec_span_skip_bootblock,
  or_fail, write_blocks, erase_and_write, merge_and_write, program_blocks,
}
use renesas_ra8m1_provisioni.Device.Program.Order.{AreSeparate, sort_blocks-IsDisjoint}
use renesas_ra8m1_provisioni.Device.Program.Sent.{
  phrase_frames, all_phrases, write_blocks_sent, or_fail_ok, pair_eta,
}
use renesas_ra8m1_provisioni.Device.Program.Image.{
  IsPhraseSeq, all_phrases_image, all_phrases-IsPhraseSeq,
}

-- The erase packet, if there is anything to program.
abbrev pub erase_frames : List Block → List (List ℕ)
erase_frames [] = []
erase_frames (b ∷ bs) = erase_frame (erase_span b bs).0 (erase_span b bs).1 ∷ []

erase_sent :
    (bs : List Block) (s s' : Port) (r : Bool)
    → erase_srec_span_skip_bootblock bs s ≡ (ok r, s')
    → s'.sent ≡ s.sent ++ erase_frames bs
unfolding erase_srec_span_skip_bootblock
erase_sent [] s s' r h = simp append-nil (ap (λ x. x.1.sent) (sym h))
erase_sent (b ∷ bs) s s' r h = command_erase_sent (erase_span b bs).0 (erase_span b bs).1 s s' r h

erase_and_write_sent :
    (bs : List Block) (s s' : Port)
    → erase_and_write bs s ≡ (ok tt, s')
    → s'.sent ≡ s.sent ++ (erase_frames bs ++ phrase_frames (all_phrases bs))
unfolding erase_and_write
erase_and_write_sent bs s s' h =
    let r =
      >>=-eq-ok (erase_srec_span_skip_bootblock bs) (λ good. or_fail good (write_blocks bs)) {s = s}
        h in
    let t = (erase_srec_span_skip_bootblock bs s).1 in
    let q = or_fail_ok r.0 (write_blocks bs) t r.2 in
    let first =
      erase_sent bs s t r.0 (pair_eta (ok r.0) (erase_srec_span_skip_bootblock bs s) r.1) in
    write_blocks_sent bs t s' q.1
    ∙ ap (λ x. x ++ phrase_frames (all_phrases bs)) first
    ∙ append_assoc s.sent (erase_frames bs) (phrase_frames (all_phrases bs))

-- What a run has programmed: the merged blocks of `code`, their image padded, in whole aligned phrases,
-- none of them twice.
pub record Programmed (code : List Block) (s s' : Port) : Type 0 where
  pub merged : List Block
  pub merging : merge_contiguous_blocks code 128 ≡ some merged
  pub sent : s'.sent ≡ s.sent ++ (erase_frames merged ++ phrase_frames (all_phrases merged))
  pub once : IsPhraseSeq 0 (all_phrases merged)
  pub image : (x : ℕ) → Fills (read code x) (read (all_phrases merged) x)

Fills-trans : (a b c : Option ℕ) → Fills a b → Fills b c → Fills a c
Fills-trans a b c h k = ground arith

merge_and_write-Programmed :
    (code : List Block) (s s' : Port)
    → IsDisjoint code
    → merge_and_write code s ≡ (ok tt, s')
    → Programmed code s s'
unfolding merge_and_write
merge_and_write-Programmed code s s' apart h =
    let m = merge_contiguous_blocks_image code 128 apart in
    let run : erase_and_write m.0 s ≡ (ok tt, s') = ground (arith, m.1) in
    record {
      merged = m.0;
      merging = m.1;
      sent = erase_and_write_sent m.0 s s' run;
      once = all_phrases-IsPhraseSeq m.0 m.2;
      image = λ x.
          Fills-trans (read code x) (read m.0 x) (read (all_phrases m.0) x) (m.3 x)
            (all_phrases_image m.0 x m.2);
    }

-- No block begins in the non-secure alias.
abbrev pub NoneNonsec : List Block → Type 0
NoneNonsec [] = Unit
NoneNonsec (b ∷ bs) = (classify_region b.0 ≢ RegionClass.code_nonsec) × NoneNonsec bs

insert_block-NoneNonsec :
    (b : Block) (cs : List Block)
    → classify_region b.0 ≢ RegionClass.code_nonsec
    → NoneNonsec cs
    → NoneNonsec (insert_block b cs)
unfolding insert_block
insert_block-NoneNonsec b [] h k = (h, tt)
insert_block-NoneNonsec b (c ∷ cs) h k = elim (Bool-cases (leb b.0 c.0)) [
  | inl first ↦ rw first (h, k)
  | inr later ↦ rw later (k.0, insert_block-NoneNonsec b cs h k.1)
]

sort_blocks-NoneNonsec : (bs : List Block) → NoneNonsec bs → NoneNonsec (sort_blocks bs)
unfolding sort_blocks
sort_blocks-NoneNonsec [] h = tt
sort_blocks-NoneNonsec (b ∷ bs) h =
    insert_block-NoneNonsec b (sort_blocks bs) h.0 (sort_blocks-NoneNonsec bs h.1)

IsAbove-weaken : (low stop : ℕ) (bs : List Block) → low ≤ stop → IsAbove stop bs → IsAbove low bs
IsAbove-weaken low stop [] h k = tt
IsAbove-weaken low stop (b ∷ bs) h k = (omega (arith, k.0), k.1)

keep_code-cases :
    (b : Bool) (a : ℕ) (d : List ℕ) (rest : List Block)
    → classify_region a ≢ RegionClass.code_nonsec
    → (keep_code b (a, d) rest ≡ (a, d) ∷ rest) ⊎ (keep_code b (a, d) rest ≡ rest)
unfolding keep_code
keep_code-cases b a d rest h = ground arith

code_blocks-IsAbove :
    (enforce : Bool) (stop : ℕ) (bs : List Block)
    → NoneNonsec bs
    → IsAbove stop bs
    → IsAbove stop (code_blocks enforce bs)
unfolding code_blocks
code_blocks-IsAbove enforce stop [] n h = tt
code_blocks-IsAbove enforce stop ((a, d) ∷ bs) n h =
    let ih = code_blocks-IsAbove enforce (a + length d) bs n.1 h.1 in
    elim (keep_code-cases enforce a d (code_blocks enforce bs) n.0) [
      | inl kept ↦ rw kept (h.0, ih)
      | inr skipped ↦
          rw skipped
            (IsAbove-weaken stop (a + length d) (code_blocks enforce bs) (omega (arith, h.0)) ih)
    ]

-- Take parsed blocks that have bytes and share no address, none of them in the non-secure alias, in
-- any order. A programming run on them that raises nothing has sent the erase packet of the merged
-- code blocks, if there are any, and then for each of their phrases the announcement and the data,
-- and nothing else. The phrases are whole and aligned and ascend, so that no address is programmed
-- twice, and together they hold every byte of the code blocks at its address, and 0xFF at other
-- addresses.
pub program_blocks-Programmed :
    (b : Block) (bs : List Block) (enforce : Bool) (s s' : Port)
    → AreSeparate (b ∷ bs)
    → NoneNonsec (b ∷ bs)
    → program_blocks (b ∷ bs) enforce s ≡ (ok tt, s')
    → Programmed (code_blocks enforce (sort_blocks (b ∷ bs))) s s'
unfolding program_blocks
program_blocks-Programmed b bs enforce s s' apart secure h =
    let sorted = sort_blocks (b ∷ bs) in
    merge_and_write-Programmed (code_blocks enforce sorted) s s'
      (code_blocks-IsAbove enforce 0 sorted (sort_blocks-NoneNonsec (b ∷ bs) secure)
        (sort_blocks-IsDisjoint (b ∷ bs) apart))
      h
