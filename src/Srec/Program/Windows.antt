-- ===== src/Srec/Program/Windows.antt =====
-- Where the records of option-setting memory lie that device/ra8_srec_programmer.py collects.
use mathlib.Core.Path.{subst}
use renesas_ra8m1_provisioni.Prelude.{
  ℕ, suc, ◌+◌, ◌-◌, ◌≤◌, ◌≡◌, ◌⊎◌, refl, inl, inr, min, max, ◌||◌, List, [], ◌∷◌, ◌++◌, leb, ltb,
  take, drop, replicate, length, length-take, Bool-cases, arith,
}
use renesas_ra8m1_provisioni.Device.Merge.{Block}
use renesas_ra8m1_provisioni.Device.Program.{insert_block, sort_blocks}
use renesas_ra8m1_provisioni.Srec.Parse.{ParseError, parse_srec_file_strict}
use renesas_ra8m1_provisioni.Srec.Program.{
  cf_min, cf_max, df_min, df_max, tail_of, pad16_ff, intersection, osm_records,
  collect_osm_srec_records,
}

abbrev IsWithin : ℕ → ℕ → Block → Type 0
IsWithin low high (addr, d) = (low ≤ addr) × (addr + length d ≤ suc high)

-- In one of the two memories.
abbrev pub IsOption : Block → Type 0
IsOption b = IsWithin cf_min cf_max b ⊎ IsWithin df_min df_max b

abbrev pub AreOption : List Block → Type 0
AreOption [] = Unit
AreOption (b ∷ bs) = IsOption b × AreOption bs

AreOption-append : (xs ys : List Block) → AreOption xs → AreOption ys → AreOption (xs ++ ys)
AreOption-append [] ys h k = k
AreOption-append (x ∷ xs) ys (h, hs) k = (h, AreOption-append xs ys hs k)

pad16_ff-IsWithin :
    (low high s : ℕ) (d : List ℕ)
    → low ≤ s
    → s ≤ suc high
    → IsWithin low high (s, pad16_ff d (suc high - s))
unfolding pad16_ff
pad16_ff-IsWithin low high s d l h =
    (l, omega (arith, length-take (suc high - s) (d ++ replicate (tail_of d) 0xFF)))

abbrev AreWithin : ℕ → ℕ → List Block → Type 0
AreWithin low high [] = Unit
AreWithin low high (b ∷ bs) = IsWithin low high b × AreWithin low high bs

intersection-AreWithin :
    (low high : ℕ) (b : Block) → low ≤ high → AreWithin low high (intersection low high b)
unfolding intersection
intersection-AreWithin low high (addr, d) l =
    elim (Bool-cases (leb (addr + length d) low || ltb high addr)) [
      | inl e ↦ rw (e, intersection) tt
      | inr e ↦
          rw (e, intersection)
            (
              pad16_ff-IsWithin low high (max addr low)
                  (take (min (addr + length d) (suc high) - max addr low)
                    (drop (max addr low - addr) d))
                  (omega arith) (ground arith),
              tt,
            )
    ]

AreOption-code : (bs : List Block) → AreWithin cf_min cf_max bs → AreOption bs
AreOption-code [] h = tt
AreOption-code (b ∷ bs) (h, hs) = (inl h, AreOption-code bs hs)

AreOption-data : (bs : List Block) → AreWithin df_min df_max bs → AreOption bs
AreOption-data [] h = tt
AreOption-data (b ∷ bs) (h, hs) = (inr h, AreOption-data bs hs)

osm_records-AreOption : (bs : List Block) → AreOption (osm_records bs)
unfolding osm_records
osm_records-AreOption [] = tt
osm_records-AreOption (b ∷ bs) =
    AreOption-append (intersection cf_min cf_max b) (intersection df_min df_max b ++ osm_records bs)
      (AreOption-code (intersection cf_min cf_max b)
        (intersection-AreWithin cf_min cf_max b (omega arith)))
      (AreOption-append (intersection df_min df_max b) (osm_records bs)
        (AreOption-data (intersection df_min df_max b)
          (intersection-AreWithin df_min df_max b (omega arith)))
        (osm_records-AreOption bs))

insert_block-AreOption :
    (b : Block) (bs : List Block) → IsOption b → AreOption bs → AreOption (insert_block b bs)
unfolding insert_block
insert_block-AreOption b [] h k = (h, tt)
insert_block-AreOption b (c ∷ cs) h (k, ks) = elim (Bool-cases (leb b.0 c.0)) [
  | inl e ↦ rw e (h, (k, ks))
  | inr e ↦ rw e (k, insert_block-AreOption b cs h ks)
]

sort_blocks-AreOption : (bs : List Block) → AreOption bs → AreOption (sort_blocks bs)
unfolding sort_blocks
sort_blocks-AreOption [] h = tt
sort_blocks-AreOption (b ∷ bs) (h, hs) =
    insert_block-AreOption b (sort_blocks bs) h (sort_blocks-AreOption bs hs)

abbrev AreCollected : ParseError ⊎ List Block → Type 0
AreCollected (inl e) = Unit
AreCollected (inr out) = AreOption out

collected :
    (r : ParseError ⊎ List Block)
    → AreCollected (elim r [ inl e ↦ inl e | inr blocks ↦ inr (sort_blocks (osm_records blocks)) ])
collected (inl e) = tt
collected (inr blocks) = sort_blocks-AreOption (osm_records blocks) (osm_records-AreOption blocks)

-- Every record that is collected from a file lies, with its padding, in one of the two option-setting memories.
pub collect_osm_srec_records-AreOption :
    (lines : List (List ℕ)) (out : List Block)
    → collect_osm_srec_records lines ≡ inr out
    → AreOption out
unfolding collect_osm_srec_records
collect_osm_srec_records-AreOption lines out e =
    subst AreCollected e (collected (parse_srec_file_strict lines))

pub collect_osm_srec_records-parsed :
    (lines : List (List ℕ)) (blocks : List Block)
    → parse_srec_file_strict lines ≡ inr blocks
    → collect_osm_srec_records lines ≡ inr (sort_blocks (osm_records blocks))
unfolding collect_osm_srec_records
collect_osm_srec_records-parsed lines blocks e = rw (e, collect_osm_srec_records) refl
