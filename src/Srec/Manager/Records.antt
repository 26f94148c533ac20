-- ===== src/Srec/Manager/Records.antt =====
-- The S3 records that utils/srec_manager.py writes, read by device/ra8_srec_programmer.py.
use renesas_ra8m1_provisioni.Prelude.{
  ℕ, ◌+◌, ◌-◌, ◌*◌, ◌%◌, ◌<◌, ◌≤◌, ◌≡◌, refl, sym, ap, ◌∙◌, Bool, false, some, List, [], ◌∷◌, ◌++◌,
  take, length, length-append, arith,
}
use renesas_ra8m1_provisioni.Device.Serial.{sum_bytes}
use renesas_ra8m1_provisioni.Srec.Hex.{int16, from_hex, hex, to_hex, index, slice}
use renesas_ra8m1_provisioni.Srec.Hex.Written.{
  AreBytes, value, address_bytes, int16-hex, from_hex-hex, hex-append, length-hex, to_hex-count,
  to_hex-address,
}
use renesas_ra8m1_provisioni.Srec.Parse.{Line, data_record, parse_line, data_end}
use renesas_ra8m1_provisioni.Srec.Manager.{
  byte_of, hex_total, calculate_checksum, with_checksum, s3_record,
}

-- The sum of the bytes of a text is the sum of the bytes that it spells.
hex_total-hex : (bs : List ℕ) → AreBytes bs → hex_total (hex bs) ≡ some (sum_bytes bs)
unfolding hex_total hex sum_bytes
hex_total-hex [] h = refl
hex_total-hex (b ∷ bs) (h, hs) =
    let plus : 256 * 0 + b ≡ b = omega arith in
    let one : byte_of (int16 (hex (b ∷ []))) ≡ some b =
      ap byte_of (int16-hex b [] (h, tt)) ∙ ap some plus in
    rw (one, hex_total-hex bs hs) refl

abbrev pub checksum_of : List ℕ → ℕ
checksum_of bs = 255 - sum_bytes bs % 256

calculate_checksum-hex :
    (bs : List ℕ) → AreBytes bs → calculate_checksum (hex bs) ≡ some (checksum_of bs)
unfolding calculate_checksum
calculate_checksum-hex bs h = rw (hex_total-hex bs h) refl

pub AreBytes-append : (xs ys : List ℕ) → AreBytes xs → AreBytes ys → AreBytes (xs ++ ys)
AreBytes-append [] ys h k = k
AreBytes-append (x ∷ xs) ys (h, hs) k = (h, AreBytes-append xs ys hs k)

-- The bytes of a record before its checksum, and the record.
abbrev pub body : ℕ → ℕ → List ℕ → List ℕ
body count addr data' = count ∷ (address_bytes addr ++ data')

abbrev pub s3_text : ℕ → ℕ → List ℕ → List ℕ
s3_text count addr data' =
    b'S' ∷ b'3' ∷ hex (body count addr data' ++ (checksum_of (body count addr data') ∷ []))

pub body-AreBytes :
    (count addr : ℕ) (data' : List ℕ)
    → count < 256
    → addr < 4294967296
    → AreBytes data'
    → AreBytes (body count addr data')
body-AreBytes count addr data' c a h =
    (c, (omega arith, (omega arith, (omega arith, (omega arith, h)))))

with_checksum_lem :
    (s r : ℕ) (cs : List ℕ) (checksum : ℕ)
    → calculate_checksum cs ≡ some checksum
    → with_checksum (s ∷ r ∷ cs) ≡ some (s ∷ r ∷ (cs ++ to_hex 2 checksum))
unfolding with_checksum
with_checksum_lem s r cs checksum e = rw e refl

with_checksum-hex :
    (s r : ℕ) (bs : List ℕ)
    → AreBytes bs
    → with_checksum (s ∷ r ∷ hex bs) ≡ some (s ∷ r ∷ hex (bs ++ (checksum_of bs ∷ [])))
with_checksum-hex s r bs h =
    let joined : hex bs ++ to_hex 2 (checksum_of bs) ≡ hex (bs ++ (checksum_of bs ∷ [])) =
      ap (λ l. hex bs ++ l) (to_hex-count (checksum_of bs) (omega arith))
      ∙ sym (hex-append bs (checksum_of bs ∷ [])) in
    with_checksum_lem s r (hex bs) (checksum_of bs) (calculate_checksum-hex bs h)
    ∙ ap (λ l. some (s ∷ r ∷ l)) joined

hex-body :
    (count addr : ℕ) (data' : List ℕ)
    → count < 256
    → addr < 4294967296
    → to_hex 2 count ++ (to_hex 8 addr ++ hex data') ≡ hex (body count addr data')
unfolding hex
hex-body count addr data' c a =
    ap (λ l. l ++ (to_hex 8 addr ++ hex data')) (to_hex-count count c)
    ∙ ap (λ l. hex (count ∷ []) ++ (l ++ hex data')) (to_hex-address addr a)

s3_record-with_checksum :
    (count addr : ℕ) (data' : List ℕ)
    → s3_record count addr data'
      ≡ with_checksum (b'S' ∷ b'3' ∷ (to_hex 2 count ++ (to_hex 8 addr ++ hex data')))
unfolding s3_record
s3_record-with_checksum count addr data' = refl

pub s3_record-s3_text :
    (count addr : ℕ) (data' : List ℕ)
    → count < 256
    → addr < 4294967296
    → AreBytes data'
    → s3_record count addr data' ≡ some (s3_text count addr data')
s3_record-s3_text count addr data' c a h =
    s3_record-with_checksum count addr data'
    ∙ (ap (λ l. with_checksum (b'S' ∷ b'3' ∷ l)) (hex-body count addr data' c a)
        ∙ with_checksum-hex b'S' b'3' (body count addr data')
            (body-AreBytes count addr data' c a h))

sum_bytes-append : (xs ys : List ℕ) → sum_bytes (xs ++ ys) ≡ sum_bytes xs + sum_bytes ys
unfolding sum_bytes
sum_bytes-append [] ys = omega arith
sum_bytes-append (x ∷ xs) ys = omega (arith, sum_bytes-append xs ys)

pub take-append : (xs ys : List ℕ) → take (length xs) (xs ++ ys) ≡ xs
take-append [] ys = refl
take-append (x ∷ xs) ys = ap (λ l. x ∷ l) (take-append xs ys)

take-length : (xs : List ℕ) → take (length xs) xs ≡ xs
take-length [] = refl
take-length (x ∷ xs) = ap (λ l. x ∷ l) (take-length xs)

-- The whole record, from the count on.
abbrev pub whole : ℕ → ℕ → List ℕ → List ℕ
whole count addr data' = body count addr data' ++ (checksum_of (body count addr data') ∷ [])

pub whole-AreBytes :
    (count addr : ℕ) (data' : List ℕ)
    → count < 256
    → addr < 4294967296
    → AreBytes data'
    → AreBytes (whole count addr data')
whole-AreBytes count addr data' c a h =
    AreBytes-append (body count addr data') (checksum_of (body count addr data') ∷ [])
      (body-AreBytes count addr data' c a h) (omega arith, tt)

sum-whole : (count addr : ℕ) (data' : List ℕ) → sum_bytes (whole count addr data') % 256 ≡ 0xFF
unfolding sum_bytes
sum-whole count addr data' =
    let bytes = body count addr data' in
    omega (arith, sum_bytes-append bytes (checksum_of bytes ∷ []))

pub index-le : (len plus minus : ℕ) → minus ≤ plus → index len plus minus ≡ plus - minus
index-le len plus minus h = ground arith

slice-raw :
    (addr : ℕ) (data' : List ℕ)
    → let line = s3_text (length data' + 5) addr data' in
      slice 2 (data_end false (length data' + 5) 0 (length line)) line
      ≡ hex (whole (length data' + 5) addr data')
slice-raw addr data' =
    let count = length data' + 5 in
    let bytes = body count addr data' in
    let text = hex (whole count addr data') in
    let size : index (length (s3_text count addr data')) (4 + 2 * count) 0 - 2 ≡ length text =
      omega (
        arith,
        index-le (length (s3_text count addr data')) (4 + 2 * count) 0 (omega arith),
        length-hex (whole count addr data'),
        length-append bytes (checksum_of bytes ∷ []),
      ) in
    ap (λ k. take k text) size ∙ take-length text

pub slice-data :
    (addr : ℕ) (data' : List ℕ)
    → let line = s3_text (length data' + 5) addr data' in
      slice 12 (data_end false (length data' + 5) 2 (length line)) line ≡ hex data'
unfolding hex
slice-data addr data' =
    let count = length data' + 5 in
    let line = s3_text count addr data' in
    let last = checksum_of (body count addr data') ∷ [] in
    let size : index (length line) (4 + 2 * count) 2 - 12 ≡ length (hex data') =
      omega (arith, index-le (length line) (4 + 2 * count) 2 (omega arith), length-hex data') in
    ap (λ k. take k (hex (data' ++ last))) size
    ∙ (ap (λ l. take (length (hex data')) l) (hex-append data' last)
        ∙ take-append (hex data') (hex last))

pub slice-count :
    (count addr : ℕ) (data' : List ℕ) → slice 2 4 (s3_text count addr data') ≡ hex (count ∷ [])
unfolding hex
slice-count count addr data' = refl

pub slice-address :
    (count addr : ℕ) (data' : List ℕ)
    → slice 4 (4 + 8) (s3_text count addr data') ≡ hex (address_bytes addr)
unfolding hex
slice-address count addr data' = refl

pub value-address : (addr : ℕ) → addr < 4294967296 → value 0 (address_bytes addr) ≡ addr
value-address addr h = omega arith

data_record_lem :
    (addr_len count address : ℕ) (negative below : Bool) (line raw data' : List ℕ)
    → int16 (slice 2 4 line) ≡ some (negative, count)
    → int16 (slice 4 (4 + addr_len) line) ≡ some (below, address)
    → from_hex (slice 2 (data_end negative count 0 (length line)) line) ≡ some raw
    → from_hex (slice (4 + addr_len) (data_end negative count 2 (length line)) line) ≡ some data'
    → sum_bytes raw % 256 ≡ 0xFF
    → data_record addr_len line ≡ Line.block address data'
unfolding data_record
data_record_lem addr_len count address negative below line raw data' e f g i s =
    rw (e, f, g, i, s, data_record) refl

parse_line-s3 : (cs : List ℕ) → parse_line (b'S' ∷ b'3' ∷ cs) ≡ data_record 8 (b'S' ∷ b'3' ∷ cs)
unfolding parse_line
parse_line-s3 cs = refl

-- A record of at most 250 bytes is read as the block that it was written for.
pub parse_line-s3_text :
    (addr : ℕ) (data' : List ℕ)
    → length data' ≤ 250
    → addr < 4294967296
    → AreBytes data'
    → parse_line (s3_text (length data' + 5) addr data') ≡ Line.block addr data'
parse_line-s3_text addr data' l a h =
    let count = length data' + 5 in
    let c : count < 256 = omega arith in
    let plus : 256 * 0 + count ≡ count = omega arith in
    let head' : int16 (slice 2 4 (s3_text count addr data')) ≡ some (false, count) =
      ap int16 (slice-count count addr data')
      ∙ (int16-hex count [] (c, tt) ∙ ap (λ n. some (false, n)) plus) in
    let address : int16 (slice 4 (4 + 8) (s3_text count addr data')) ≡ some (false, addr) =
      ap int16 (slice-address count addr data')
      ∙ (int16-hex _ _ (body-AreBytes 0 addr [] (omega arith) a tt).1
          ∙ ap (λ n. some (false, n)) (value-address addr a)) in
    let raw =
      ap from_hex (slice-raw addr data')
      ∙ from_hex-hex (whole count addr data') (whole-AreBytes count addr data' c a h) in
    let bytes = ap from_hex (slice-data addr data') ∙ from_hex-hex data' h in
    parse_line-s3 (hex (whole count addr data'))
    ∙ data_record_lem 8 count addr false false (s3_text count addr data') (whole count addr data')
        data' head' address raw bytes (sum-whole count addr data')
