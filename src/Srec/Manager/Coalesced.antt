-- ===== src/Srec/Manager/Coalesced.antt =====
-- `_coalesce_records` of utils/srec_manager.py, and what the parser of device/ra8_srec_programmer.py reads
-- of the records that it makes.
use mathlib.Core.List.{append_assoc}
use mathlib.Core.Path.{subst}
use renesas_ra8m1_provisioni.Prelude.{
  ℕ, suc, ◌+◌, ◌*◌, ◌<◌, ◌≡◌, refl, sym, ap, ◌∙◌, inl, inr, false, Option, none, some, List, [],
  ◌∷◌, ◌++◌, ◌==◌, ==_iff, length, map, arith, if◌then◌else◌, Bool-cases,
}
use renesas_ra8m1_provisioni.Srec.Hex.{int16, from_hex, index, slice}
use renesas_ra8m1_provisioni.Srec.Hex.Written.{int16-hex, from_hex-hex}
use renesas_ra8m1_provisioni.Srec.Parse.{parse_srec_file_strict}
use renesas_ra8m1_provisioni.Srec.Manager.{
  read_hex, read_s3, data_of, Entry, parse_record, parse_records, merge_groups, write_entry,
  write_entries, coalesce_records, no_minus,
}
use renesas_ra8m1_provisioni.Srec.Manager.Records.{
  s3_text, s3_record-s3_text, body-AreBytes, slice-data, slice-count, slice-address, index-le,
  value-address,
}
use renesas_ra8m1_provisioni.Srec.Manager.Files.{
  IsWritable, AreWritable, text_of, parse_srec_file_strict-text_of,
}

-- The blocks that follow each other are put together.
abbrev ended : Option (ℕ × List ℕ) → List (ℕ × List ℕ) → List (ℕ × List ℕ)
ended none blocks = blocks
ended (some group) blocks = group ∷ blocks

unfoldable pub merge_blocks : Option (ℕ × List ℕ) → List (ℕ × List ℕ) → List (ℕ × List ℕ)
merge_blocks group [] = ended group []
merge_blocks none ((addr, data') ∷ blocks) = merge_blocks (some (addr, data')) blocks
merge_blocks (some (start, merged)) ((addr, data') ∷ blocks) =
    let more = merge_blocks (some (start, merged ++ data')) blocks in
    let fresh = merge_blocks (some (addr, data')) blocks in
    if addr == start + length merged then more else (start, merged) ∷ fresh

abbrev entry_of : ℕ × List ℕ → Entry
entry_of (addr, data') = Entry.data_at addr data'

merge_groups-entry_of :
    (group : Option (ℕ × List ℕ)) (blocks : List (ℕ × List ℕ))
    → merge_groups group (map entry_of blocks) ≡ map entry_of (merge_blocks group blocks)
unfolding merge_groups merge_blocks
merge_groups-entry_of none [] = refl
merge_groups-entry_of (some group) [] = refl
merge_groups-entry_of none ((addr, data') ∷ blocks) =
    merge_groups-entry_of (some (addr, data')) blocks
merge_groups-entry_of (some (start, merged)) ((addr, data') ∷ blocks) =
    let more = merge_groups-entry_of (some (start, merged ++ data')) blocks in
    let fresh = merge_groups-entry_of (some (addr, data')) blocks in
    elim (Bool-cases (addr == start + length merged)) [
      | inl e ↦ rw e more
      | inr e ↦ rw e (ap (λ l. Entry.data_at start merged ∷ l) fresh)
    ]

write_entries-entry_of :
    (blocks : List (ℕ × List ℕ))
    → AreWritable blocks
    → write_entries (map entry_of blocks) ≡ some (map text_of blocks)
unfolding write_entries write_entry
write_entries-entry_of [] w = refl
write_entries-entry_of ((addr, data') ∷ blocks) ((l, a, h), ws) =
    let one = s3_record-s3_text (length data' + 5) addr data' (omega arith) a h in
    rw (one, write_entries-entry_of blocks ws) refl

pub read_hex-signed :
    (cs : List ℕ) (n m : ℕ) → int16 cs ≡ some (false, n) → n ≡ m → read_hex cs ≡ some m
unfolding read_hex
read_hex-signed cs n m e i = ap no_minus e ∙ ap some i

read_s3_lem :
    (line : List ℕ) (count addr : ℕ)
    → read_hex (slice 2 4 line) ≡ some count
    → read_hex (slice 4 12 line) ≡ some addr
    → read_s3 line ≡ some (count, addr)
unfolding read_s3
read_s3_lem line count addr e f = rw (e, f) refl

pub read_s3-text_of :
    (count addr : ℕ) (data' : List ℕ)
    → count < 256
    → addr < 4294967296
    → read_s3 (s3_text count addr data') ≡ some (count, addr)
read_s3-text_of count addr data' c a =
    read_s3_lem (s3_text count addr data') count addr
      (read_hex-signed _ (256 * 0 + count) count
        (ap int16 (slice-count count addr data') ∙ int16-hex count [] (c, tt)) (omega arith))
      (read_hex-signed _ _ addr
        (ap int16 (slice-address count addr data')
          ∙ int16-hex _ _ (body-AreBytes 0 addr [] (omega arith) a tt).1)
        (value-address addr a))

pub data_of-text_of :
    (block : ℕ × List ℕ)
    → IsWritable block
    → data_of (length block.1 + 5) (text_of block) ≡ some block.1
unfolding data_of
data_of-text_of (addr, data') (l, a, h) =
    let count = length data' + 5 in
    let line = text_of (addr, data') in
    let same : index (length line) (12 + 2 * count) 10 ≡ index (length line) (4 + 2 * count) 2 =
      omega (
        arith,
        index-le (length line) (12 + 2 * count) 10 (omega arith),
        index-le (length line) (4 + 2 * count) 2 (omega arith),
      ) in
    ap (λ k. from_hex (slice 12 k line)) same
    ∙ (ap from_hex (slice-data addr data') ∙ from_hex-hex data' h)

parse_record-text_of :
    (block : ℕ × List ℕ) → IsWritable block → parse_record (text_of block) ≡ some (entry_of block)
unfolding parse_record
parse_record-text_of (addr, data') (l, a, h) =
    rw
      (
        read_s3-text_of (length data' + 5) addr data' (omega arith) a,
        data_of-text_of (addr, data') (l, a, h),
      )
      refl

parse_records-text_of :
    (blocks : List (ℕ × List ℕ))
    → AreWritable blocks
    → parse_records (map text_of blocks) ≡ some (map entry_of blocks)
unfolding parse_records
parse_records-text_of [] w = refl
parse_records-text_of (block ∷ blocks) (w, ws) =
    rw (parse_record-text_of block w, parse_records-text_of blocks ws) refl

-- The bytes of the blocks with their addresses, in order.
abbrev bytes_at : ℕ → List ℕ → List (ℕ × ℕ)
bytes_at addr [] = []
bytes_at addr (b ∷ bs) = (addr, b) ∷ bytes_at (suc addr) bs

abbrev pub cells : List (ℕ × List ℕ) → List (ℕ × ℕ)
cells [] = []
cells ((addr, data') ∷ blocks) = bytes_at addr data' ++ cells blocks

bytes_at-append :
    (addr : ℕ) (xs ys : List ℕ)
    → bytes_at addr (xs ++ ys) ≡ bytes_at addr xs ++ bytes_at (addr + length xs) ys
bytes_at-append addr [] ys = let e : addr ≡ addr + 0 = omega arith in ap (λ a. bytes_at a ys) e
bytes_at-append addr (x ∷ xs) ys =
    let e : suc addr + length xs ≡ addr + suc (length xs) = omega arith in
    ap (λ l. (addr, x) ∷ l)
      (bytes_at-append (suc addr) xs ys ∙ ap (λ a. bytes_at (suc addr) xs ++ bytes_at a ys) e)

cells-merge_blocks :
    (group : Option (ℕ × List ℕ)) (blocks : List (ℕ × List ℕ))
    → cells (merge_blocks group blocks) ≡ cells (ended group blocks)
unfolding merge_blocks
cells-merge_blocks none [] = refl
cells-merge_blocks (some group) [] = refl
cells-merge_blocks none ((addr, data') ∷ blocks) = cells-merge_blocks (some (addr, data')) blocks
cells-merge_blocks (some (start, merged)) ((addr, data') ∷ blocks) =
    let more = cells-merge_blocks (some (start, merged ++ data')) blocks in
    let fresh = cells-merge_blocks (some (addr, data')) blocks in
    elim (Bool-cases (addr == start + length merged)) [
      | inl e ↦
          let next : addr ≡ start + length merged = (==_iff addr (start + length merged)).0 e in
          rw e (
            more
            ∙ (ap (λ l. l ++ cells blocks) (bytes_at-append start merged data')
                ∙ (append_assoc (bytes_at start merged) (bytes_at (start + length merged) data')
                      (cells blocks)
                    ∙ ap (λ a. bytes_at start merged ++ (bytes_at a data' ++ cells blocks))
                        (sym next))))
      | inr e ↦ rw e (ap (λ l. bytes_at start merged ++ l) fresh)
    ]

-- There is a first block.
merge_blocks-cons :
    (group : ℕ × List ℕ) (blocks : List (ℕ × List ℕ))
    → (first : ℕ × List ℕ) × (rest : List (ℕ × List ℕ)) × (merge_blocks (some group) blocks
        ≡ first ∷ rest)
unfolding merge_blocks
merge_blocks-cons group [] = (group, [], refl)
merge_blocks-cons (start, merged) ((addr, data') ∷ blocks) =
    elim (Bool-cases (addr == start + length merged)) [
      | inl e ↦ rw e (merge_blocks-cons (start, merged ++ data') blocks)
      | inr e ↦ rw e ((start, merged), merge_blocks (some (addr, data')) blocks, refl)
    ]

read_back :
    (out : List (ℕ × List ℕ)) (first : ℕ × List ℕ) (rest : List (ℕ × List ℕ))
    → out ≡ first ∷ rest
    → AreWritable out
    → parse_srec_file_strict (map text_of out) ≡ inr out
read_back out first rest e w =
    subst (λ z. parse_srec_file_strict (map text_of z) ≡ inr z) (sym e)
      (parse_srec_file_strict-text_of first rest (subst AreWritable e w))

coalesce_records-some :
    (records : List (List ℕ)) (parsed : List Entry)
    → parse_records records ≡ some parsed
    → coalesce_records records ≡ write_entries (merge_groups none parsed)
unfolding coalesce_records
coalesce_records-some records parsed e = rw e refl

-- The records of some blocks, if those that follow each other fit into one record, become records of
-- which the parser reads the same bytes at the same addresses, in the same order.
pub coalesce_records_lem :
    (block : ℕ × List ℕ) (blocks : List (ℕ × List ℕ))
    → AreWritable (block ∷ blocks)
    → AreWritable (merge_blocks (some block) blocks)
    → (lines : List (List ℕ)) × (out : List (ℕ × List ℕ)) × (coalesce_records
          (map text_of (block ∷ blocks))
        ≡ some lines)
      × (parse_srec_file_strict lines ≡ inr out)
      × (cells out ≡ cells (block ∷ blocks))
unfolding merge_blocks
coalesce_records_lem block blocks w v =
    let out = merge_blocks (some block) blocks in
    let (first, rest, e) = merge_blocks-cons block blocks in
    (
      map text_of out,
      out,
      coalesce_records-some (map text_of (block ∷ blocks)) (map entry_of (block ∷ blocks))
            (parse_records-text_of (block ∷ blocks) w)
          ∙ (ap write_entries (merge_groups-entry_of none (block ∷ blocks))
              ∙ write_entries-entry_of out v),
      read_back out first rest e v,
      cells-merge_blocks (some block) blocks,
    )
