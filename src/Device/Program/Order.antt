-- ===== src/Device/Program/Order.antt =====
-- Sorting the parsed blocks by address.
use renesas_ra8m1_provisioni.Prelude.{
  ℕ, ◌+◌, ◌≤◌, ◌<◌, ◌⊎◌, inl, inr, List, [], ◌∷◌, arith, leb, Bool-cases, length,
}
use renesas_ra8m1_provisioni.Device.Merge.{Block}
use renesas_ra8m1_provisioni.Device.Merge.Sorted.{IsAbove, IsDisjoint}
use renesas_ra8m1_provisioni.Device.Program.{insert_block, sort_blocks}

-- One of the blocks ends before the other begins.
abbrev pub AreApart : Block → Block → Type 0
AreApart b c = (b.0 + length b.1 ≤ c.0) ⊎ (c.0 + length c.1 ≤ b.0)

abbrev pub IsApartFrom : Block → List Block → Type 0
IsApartFrom b [] = Unit
IsApartFrom b (c ∷ cs) = AreApart b c × IsApartFrom b cs

-- Every block has a byte, and no two share an address, in whatever order they stand.
abbrev pub AreSeparate : List Block → Type 0
AreSeparate [] = Unit
AreSeparate (b ∷ bs) = (0 < length b.1) × IsApartFrom b bs × AreSeparate bs

abbrev HaveBytes : List Block → Type 0
HaveBytes [] = Unit
HaveBytes (b ∷ bs) = (0 < length b.1) × HaveBytes bs

insert_block-IsAbove :
    (stop : ℕ) (b : Block) (cs : List Block)
    → IsAbove stop cs
    → HaveBytes cs
    → stop ≤ b.0
    → 0 < length b.1
    → IsApartFrom b cs
    → IsAbove stop (insert_block b cs)
unfolding insert_block
insert_block-IsAbove stop b [] above bytes h k apart = (h, tt)
insert_block-IsAbove stop b (c ∷ cs) above bytes h k apart = elim (Bool-cases (leb b.0 c.0)) [
  | inl first ↦ rw first (ground (arith, apart.0))
  | inr later ↦ rw later (
    above.0,
    insert_block-IsAbove (c.0 + length c.1) b cs above.1 bytes.1 (ground (arith, apart.0)) k
        apart.1,
  )
]

insert_block-HaveBytes :
    (b : Block) (cs : List Block) → HaveBytes cs → 0 < length b.1 → HaveBytes (insert_block b cs)
unfolding insert_block
insert_block-HaveBytes b [] h k = (k, tt)
insert_block-HaveBytes b (c ∷ cs) h k = ground (arith, insert_block-HaveBytes b cs h.1 k)

insert_block-IsApartFrom :
    (x b : Block) (cs : List Block)
    → AreApart x b
    → IsApartFrom x cs
    → IsApartFrom x (insert_block b cs)
unfolding insert_block
insert_block-IsApartFrom x b [] h k = (h, tt)
insert_block-IsApartFrom x b (c ∷ cs) h k = elim (Bool-cases (leb b.0 c.0)) [
  | inl first ↦ rw first (h, k)
  | inr later ↦ rw later (k.0, insert_block-IsApartFrom x b cs h k.1)
]

sort_blocks-IsApartFrom :
    (x : Block) (bs : List Block) → IsApartFrom x bs → IsApartFrom x (sort_blocks bs)
unfolding sort_blocks
sort_blocks-IsApartFrom x [] h = tt
sort_blocks-IsApartFrom x (b ∷ bs) h =
    insert_block-IsApartFrom x b (sort_blocks bs) h.0 (sort_blocks-IsApartFrom x bs h.1)

sort_blocks-HaveBytes : (bs : List Block) → AreSeparate bs → HaveBytes (sort_blocks bs)
unfolding sort_blocks
sort_blocks-HaveBytes [] h = tt
sort_blocks-HaveBytes (b ∷ bs) h =
    insert_block-HaveBytes b (sort_blocks bs) (sort_blocks-HaveBytes bs h.2) h.0

-- Blocks that have bytes and share no address are sorted into ascending order without overlap.
pub sort_blocks-IsDisjoint : (bs : List Block) → AreSeparate bs → IsDisjoint (sort_blocks bs)
unfolding sort_blocks
sort_blocks-IsDisjoint [] h = tt
sort_blocks-IsDisjoint (b ∷ bs) h =
    insert_block-IsAbove 0 b (sort_blocks bs) (sort_blocks-IsDisjoint bs h.2)
      (sort_blocks-HaveBytes bs h.2) (omega arith) h.0 (sort_blocks-IsApartFrom b bs h.1)
