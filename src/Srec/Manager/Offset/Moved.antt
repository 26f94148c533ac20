-- ===== src/Srec/Manager/Offset/Moved.antt =====
-- The records of blocks after `offset_addresses` of utils/srec_manager.py.
use mathlib.Core.Path.{subst}
use renesas_ra8m1_provisioni.Prelude.{
  ℕ, ◌+◌, ◌-◌, ◌*◌, ◌<◌, ◌≤◌, ◌≡◌, refl, sym, ap, ◌∙◌, inr, false, some, List, [], ◌∷◌, ◌++◌,
  length, length-append, map, take, arith,
}
use renesas_ra8m1_provisioni.Broker.Text.{ℤ}
use renesas_ra8m1_provisioni.Srec.Hex.{int16, hex, to_hex, slice, strip}
use renesas_ra8m1_provisioni.Srec.Hex.Written.{
  AreBytes, int16-hex, hex-append, length-hex, strip-AreBlack,
}
use renesas_ra8m1_provisioni.Srec.Parse.{parse_srec_file_strict}
use renesas_ra8m1_provisioni.Srec.Manager.{read_hex, with_checksum, s3_record}
use renesas_ra8m1_provisioni.Srec.Manager.Records.{
  s3_record-s3_text, slice-count, slice-address, value-address, body-AreBytes, take-append, whole,
  body, checksum_of,
}
use renesas_ra8m1_provisioni.Srec.Manager.Files.{
  IsWritable, AreWritable, text_of, text-AreBlack, parse_srec_file_strict-text_of,
}
use renesas_ra8m1_provisioni.Srec.Manager.Coalesced.{read_hex-signed}
use renesas_ra8m1_provisioni.Srec.Manager.Offset.{
  moved, address_text, offset_record, old_data, offset_kind, offset_line, offset_addresses,
}

-- A block at its new address, which is one.
abbrev pub IsMoved : ℤ → ℕ × List ℕ → ℕ × List ℕ → Type 0
IsMoved offset (addr, data') (n, out) =
    (moved addr offset ≡ (false, n)) × (n < 4294967296) × (out ≡ data')

abbrev pub AreMoved : ℤ → List (ℕ × List ℕ) → List (ℕ × List ℕ) → Type 0
AreMoved offset [] [] = Unit
AreMoved offset [] (o ∷ out) = ⊥
AreMoved offset (b ∷ bs) [] = ⊥
AreMoved offset (b ∷ bs) (o ∷ out) = IsMoved offset b o × AreMoved offset bs out

old_data-text_of : (addr : ℕ) (data' : List ℕ) → old_data 8 (text_of (addr, data')) ≡ hex data'
unfolding hex
old_data-text_of addr data' =
    let last = checksum_of (body (length data' + 5) addr data') ∷ [] in
    let size : length (hex (data' ++ last)) - 2 ≡ length (hex data') =
      omega (arith, length-hex (data' ++ last), length-append data' last, length-hex data') in
    ap (λ k. take k (hex (data' ++ last))) size
    ∙ (ap (λ l. take (length (hex data')) l) (hex-append data' last)
        ∙ take-append (hex data') (hex last))

offset_record_lem :
    (offset : ℤ) (count addr n : ℕ) (data' : List ℕ) (line : List ℕ)
    → read_hex (slice 2 4 line) ≡ some count
    → read_hex (slice 4 (4 + 8) line) ≡ some addr
    → moved addr offset ≡ (false, n)
    → offset_record offset b'3' 8 (hex data') line ≡ s3_record count n data'
unfolding offset_record s3_record
offset_record_lem offset count addr n data' line e f m =
    rw (e, f)
      (ap (λ a. with_checksum (b'S' ∷ b'3' ∷ (to_hex 2 count ++ (address_text 8 a ++ hex data'))))
        m)

offset_line-s3 :
    (offset : ℤ) (cs : List ℕ)
    → offset_line offset (b'S' ∷ b'3' ∷ cs)
      ≡ offset_record offset b'3' 8 (old_data 8 (b'S' ∷ b'3' ∷ cs)) (b'S' ∷ b'3' ∷ cs)
unfolding offset_line offset_kind
offset_line-s3 offset cs = refl

offset_line-text_of :
    (offset : ℤ) (addr n : ℕ) (data' : List ℕ)
    → IsWritable (addr, data')
    → moved addr offset ≡ (false, n)
    → n < 4294967296
    → offset_line offset (text_of (addr, data')) ≡ some (text_of (n, data'))
offset_line-text_of offset addr n data' (l, a, h) m b =
    let count = length data' + 5 in
    let line = text_of (addr, data') in
    offset_line-s3 offset (hex (whole count addr data'))
    ∙ (ap (λ d. offset_record offset b'3' 8 d line) (old_data-text_of addr data')
        ∙ (offset_record_lem offset count addr n data' line
              (read_hex-signed _ (256 * 0 + count) count
                (ap int16 (slice-count count addr data') ∙ int16-hex count [] (omega arith, tt))
                (omega arith))
              (read_hex-signed _ _ addr
                (ap int16 (slice-address count addr data')
                  ∙ int16-hex _ _ (body-AreBytes 0 addr [] (omega arith) a tt).1)
                (value-address addr a))
              m
            ∙ s3_record-s3_text count n data' (omega arith) b h))

-- A line that is no blank, from its new text.
offset_addresses-cons :
    (offset : ℤ) (c : ℕ) (cs out : List ℕ) (lines rest : List (List ℕ))
    → strip (c ∷ cs) ≡ c ∷ cs
    → offset_line offset (c ∷ cs) ≡ some out
    → offset_addresses offset lines ≡ some rest
    → offset_addresses offset ((c ∷ cs) ∷ lines) ≡ some (out ∷ rest)
unfolding offset_addresses
offset_addresses-cons offset c cs out lines rest e f g = rw (g, e, f) refl

offset_addresses-nil : (offset : ℤ) → offset_addresses offset [] ≡ some []
unfolding offset_addresses
offset_addresses-nil offset = refl

offset_addresses-text_of :
    (offset : ℤ) (blocks out : List (ℕ × List ℕ))
    → AreWritable blocks
    → AreMoved offset blocks out
    → offset_addresses offset (map text_of blocks) ≡ some (map text_of out)
offset_addresses-text_of offset [] [] w m = offset_addresses-nil offset
offset_addresses-text_of offset [] (o ∷ out) w m = absurd m
offset_addresses-text_of offset (b ∷ bs) [] w m = absurd m
offset_addresses-text_of offset ((addr, data') ∷ bs) ((n, d) ∷ out) (w, ws) ((m, b, e), ms) =
    offset_addresses-cons offset b'S' (b'3' ∷ hex (whole (length data' + 5) addr data'))
      (text_of (n, d)) (map text_of bs) (map text_of out)
      (strip-AreBlack (text_of (addr, data')) (text-AreBlack (addr, data') w))
      (offset_line-text_of offset addr n data' w m b ∙ ap (λ z. some (text_of (n, z))) (sym e))
      (offset_addresses-text_of offset bs out ws ms)

AreMoved-AreWritable :
    (offset : ℤ) (blocks out : List (ℕ × List ℕ))
    → AreWritable blocks
    → AreMoved offset blocks out
    → AreWritable out
AreMoved-AreWritable offset [] [] w m = tt
AreMoved-AreWritable offset [] (o ∷ out) w m = absurd m
AreMoved-AreWritable offset (b ∷ bs) [] w m = absurd m
AreMoved-AreWritable offset ((addr, data') ∷ bs) ((n, d) ∷ out) ((l, a, h), ws) ((m, b, e), ms) = (
  (subst (λ z. length z ≤ 250) (sym e) l, b, subst AreBytes (sym e) h),
  AreMoved-AreWritable offset bs out ws ms,
)

-- A file of the S3 records of one or more blocks, none of whose addresses leaves 32 bits, becomes one of which
-- the strict parser reads the blocks at the new addresses.
pub offset_addresses_lem :
    (offset : ℤ) (b o : ℕ × List ℕ) (bs out : List (ℕ × List ℕ))
    → AreWritable (b ∷ bs)
    → AreMoved offset (b ∷ bs) (o ∷ out)
    → (lines : List (List ℕ)) × (offset_addresses offset (map text_of (b ∷ bs)) ≡ some lines)
      × (parse_srec_file_strict lines ≡ inr (o ∷ out))
offset_addresses_lem offset b o bs out w m = (
  map text_of (o ∷ out),
  offset_addresses-text_of offset (b ∷ bs) (o ∷ out) w m,
  parse_srec_file_strict-text_of o out (AreMoved-AreWritable offset (b ∷ bs) (o ∷ out) w m),
)
