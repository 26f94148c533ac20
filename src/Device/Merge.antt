-- ===== src/Device/Merge.antt =====
-- `_merge_contiguous_blocks` of device/ra8_srec_programmer.py. A block is an address and its bytes.
-- The source keeps the last address of the current block, `cur_end`; here it is `stop`, one more,
-- since `cur_end` is below the address, and may be -1, for a block with no data.
pub mod Image
pub mod Sorted
pub mod Overlap
use renesas_ra8m1_provisioni.Prelude.{
  ℕ, ◌+◌, ◌-◌, ◌*◌, ◌/◌, ◌≤◌, min, Bool, true, false, Option, none, some, List, [], ◌∷◌, ◌++◌, ltb,
  leb, if◌then◌else◌, length, set, take, replicate,
}

abbrev pub Block : Type 0
Block = ℕ × List ℕ

-- `cur_data[i - cur_addr] = v`: a negative index counts from the end; `none` is the `IndexError`.
unfoldable pub store : ℕ → List ℕ → ℕ → ℕ → Option (List ℕ)
store cur_addr cur_data i v =
    if leb cur_addr i
    then (if ltb (i - cur_addr) (length cur_data)
        then some (set cur_data (i - cur_addr) v)
        else none)
    else if leb (cur_addr - i) (length cur_data)
    then some (set cur_data (length cur_data - (cur_addr - i)) v)
    else none

-- The loop that stores `data[i - addr]` for `i` from `overlap_start` to `overlap_end`.
unfoldable pub overlay : ℕ → List ℕ → ℕ → List ℕ → Option (List ℕ)
unfolding store
overlay cur_addr cur_data i [] = some cur_data
overlay cur_addr cur_data i (v ∷ vs) = elim (store cur_addr cur_data i v) [
  | none ↦ none
  | some cur_data' ↦ overlay cur_addr cur_data' (i + 1) vs
]

-- The branch for an overlap. `overlap_end` is taken before the data is extended.
unfoldable pub absorb : ℕ → List ℕ → ℕ → List ℕ → Option (List ℕ)
unfolding overlay
absorb cur_addr cur_data addr data' =
    let stop = cur_addr + length cur_data in
    overlay cur_addr (cur_data ++ replicate (addr + length data' - stop) 0xFF) addr
      (take (min stop (addr + length data') - addr) data')

-- The gap from `stop` up to `addr` holds a whole aligned phrase.
unfoldable pub has_full_aligned_phrase : ℕ → ℕ → ℕ → Bool
has_full_aligned_phrase phrase_size stop addr =
    leb ((stop + phrase_size - 1) / phrase_size * phrase_size + phrase_size) addr

unfoldable pub push_block : Block → Option (List Block) → Option (List Block)
push_block b none = none
push_block b (some bs) = some (b ∷ bs)

-- The loop over `blocks[1:]`, with the current block as its state; what it appends to `merged` comes
-- in front of the rest of the result.
unfoldable pub merge_from : ℕ → ℕ → List ℕ → List Block → Option (List Block)
unfolding absorb has_full_aligned_phrase push_block
merge_from phrase_size cur_addr cur_data [] = some ((cur_addr, cur_data) ∷ [])
merge_from phrase_size cur_addr cur_data ((addr, data') ∷ rest) =
    let stop = cur_addr + length cur_data in
    elim (ltb addr stop) [
      | true ↦ elim (absorb cur_addr cur_data addr data') [
        | none ↦ none
        | some cur_data' ↦ merge_from phrase_size cur_addr cur_data' rest
      ]
      | false ↦ elim (has_full_aligned_phrase phrase_size stop addr) [
        | true ↦ push_block (cur_addr, cur_data) (merge_from phrase_size addr data' rest)
        | false ↦
            merge_from phrase_size cur_addr (cur_data ++ (replicate (addr - stop) 0xFF ++ data'))
              rest
      ]
    ]

unfoldable pub merge_contiguous_blocks : List Block → ℕ → Option (List Block)
unfolding merge_from
merge_contiguous_blocks [] phrase_size = some []
merge_contiguous_blocks ((addr, data') ∷ rest) phrase_size = merge_from phrase_size addr data' rest
