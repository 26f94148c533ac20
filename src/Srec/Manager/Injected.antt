-- ===== src/Srec/Manager/Injected.antt =====
-- `inject_customer_key` of utils/srec_manager.py: the bytes of a record after it.
use mathlib.Core.Path.{subst}
use renesas_ra8m1_provisioni.Prelude.{
  ℕ, zero, suc, ◌+◌, ◌-◌, ◌<◌, ◌≤◌, ◌≡◌, ◌≢◌, refl, sym, ap, ◌∙◌, inl, inr, Bool, true, false,
  Option, some, List, [], ◌∷◌, ◌==◌, ◌&&◌, ◌||◌, ltb, leb, ==_iff, length, arith, if◌then◌else◌,
  Bool-cases, set, get_elem?, get_elem?-set_self, get_elem?-set_ne, length-set, min,
}
use renesas_ra8m1_provisioni.Srec.Hex.Written.{AreBytes}
use renesas_ra8m1_provisioni.Srec.Manager.{
  inject_bytes, inject_data, inject_record, inject_at, inject_line, data_of, s3_record,
}
use renesas_ra8m1_provisioni.Srec.Manager.Records.{s3_text, s3_record-s3_text}
use renesas_ra8m1_provisioni.Srec.Manager.Files.{IsWritable, text_of}
use renesas_ra8m1_provisioni.Srec.Manager.Coalesced.{read_s3-text_of, data_of-text_of}

-- A position in a list has an element.
elem_at :
    (xs : List ℕ) (i : ℕ)
    → AreBytes xs
    → i < length xs
    → (b : ℕ) × (get_elem? xs i ≡ some b) × (b < 256)
elem_at [] i h l = absurd (omega arith)
elem_at (x ∷ xs) zero (h, hs) l = (x, refl, h)
elem_at (x ∷ xs) (suc i) (h, hs) l = elem_at xs i hs (omega arith)

AreBytes-set : (xs : List ℕ) (i b : ℕ) → AreBytes xs → b < 256 → AreBytes (set xs i b)
AreBytes-set [] i b h l = tt
AreBytes-set (x ∷ xs) zero b (h, hs) l = (l, hs)
AreBytes-set (x ∷ xs) (suc i) b (h, hs) l = (h, AreBytes-set xs i b hs l)

-- What stands at a position after n bytes of the key, from k on, were written from i on.
abbrev written : ℕ → ℕ → ℕ → List ℕ → List ℕ → ℕ → Option ℕ
written n i k key data' j =
    if leb i j && ltb j (i + n) then get_elem? key (k + (j - i)) else get_elem? data' j

written-same :
    (n i k b : ℕ) (key data' : List ℕ)
    → i < length data'
    → get_elem? key k ≡ some b
    → written n (suc i) (suc k) key (set data' i b) i ≡ written (suc n) i k key data' i
written-same n i k b key data' l e =
    let past : (leb (suc i) i && ltb i (suc i + n)) ≡ false = ground arith in
    let here : (leb i i && ltb i (i + suc n)) ≡ true = ground arith in
    let same : k ≡ k + (i - i) = omega arith in
    rw (past, here) (get_elem?-set_self data' i b l ∙ (sym e ∙ ap (get_elem? key) same))

written-other :
    (n i k b : ℕ) (key data' : List ℕ) (j : ℕ)
    → i ≢ j
    → written n (suc i) (suc k) key (set data' i b) j ≡ written (suc n) i k key data' j
written-other n i k b key data' j d = elim (Bool-cases (leb (suc i) j && ltb j (suc i + n))) [
  | inl c ↦
      let c2 : (leb i j && ltb j (i + suc n)) ≡ true = ground arith in
      let above : i < j = ground arith in
      let same : suc k + (j - suc i) ≡ k + (j - i) = omega arith in
      rw (c, c2) (ap (get_elem? key) same)
  | inr c ↦
      let c2 : (leb i j && ltb j (i + suc n)) ≡ false = ground arith in
      rw (c, c2) (get_elem?-set_ne data' i j b d)
]

written-step :
    (n i k b : ℕ) (key data' : List ℕ) (j : ℕ)
    → i < length data'
    → get_elem? key k ≡ some b
    → written n (suc i) (suc k) key (set data' i b) j ≡ written (suc n) i k key data' j
written-step n i k b key data' j l e = elim (Bool-cases (i == j)) [
  | inl q ↦
      subst (λ z. written n (suc i) (suc k) key (set data' i b) z ≡ written (suc n) i k key data' z)
        ((==_iff i j).0 q) (written-same n i k b key data' l e)
  | inr q ↦ written-other n i k b key data' j (λ z. ground (arith, (==_iff i j).1 z))
]

inject_bytes-written :
    (n i k : ℕ) (key data' : List ℕ)
    → k + n ≤ length key
    → i + n ≤ length data'
    → AreBytes key
    → AreBytes data'
    → (out : List ℕ) × (inject_bytes n i k key data' ≡ some out)
      × (length out ≡ length data')
      × AreBytes out
      × ((j : ℕ) → get_elem? out j ≡ written n i k key data' j)
unfolding inject_bytes
inject_bytes-written zero i k key data' p q h g = (data', refl, refl, g, λ j. ground arith)
inject_bytes-written (suc n) i k key data' p q h g =
    let (b, e, l) = elem_at key k h (omega arith) in
    let (old, f, m) = elem_at data' i g (omega arith) in
    let (out, r, s, t, w) =
      inject_bytes-written n (suc i) (suc k) key (set data' i b) (omega arith)
        (omega (arith, length-set data' i b)) h (AreBytes-set data' i b g l) in
    (
      out,
      rw (e, f) r,
      s ∙ length-set data' i b,
      t,
      λ j. w j ∙ written-step n i k b key data' j (omega arith) e,
    )

-- The bytes of a record at an address after the injection: those of the key in its range, the old ones
-- elsewhere.
abbrev pub after_injection : List ℕ → ℕ → ℕ → List ℕ → ℕ → Option ℕ
after_injection key start addr data' j =
    if leb start (addr + j) && ltb (addr + j) (start + length key)
    then get_elem? key (addr + j - start)
    else get_elem? data' j

written-after :
    (key : List ℕ) (start addr : ℕ) (data' : List ℕ) (j : ℕ)
    → addr < start + length key
    → start < addr + length data'
    → j < length data'
    → written
        (min (length data' + 5 - 5) (start + length key - addr) - (start - addr))
        (start - addr)
        (addr - start)
        key
        data'
        j
      ≡ after_injection key start addr data' j
written-after key start addr data' j p q l =
    let i = start - addr in
    let n = min (length data' + 5 - 5) (start + length key - addr) - i in
    elim (Bool-cases (leb start (addr + j) && ltb (addr + j) (start + length key))) [
      | inl c ↦
          let c2 : (leb i j && ltb j (i + n)) ≡ true = ground arith in
          let same : addr - start + (j - i) ≡ addr + j - start = ground arith in
          rw (c, c2) (ap (get_elem? key) same)
      | inr c ↦ let c2 : (leb i j && ltb j (i + n)) ≡ false = ground arith in rw (c, c2) refl
    ]

inject_data-written :
    (key : List ℕ) (start addr : ℕ) (data' : List ℕ)
    → AreBytes key
    → AreBytes data'
    → addr < start + length key
    → start < addr + length data'
    → (out : List ℕ) × (inject_data key start (length data' + 5) addr data' ≡ some out)
      × (length out ≡ length data')
      × AreBytes out
      × ((j : ℕ) → j < length data' → get_elem? out j ≡ after_injection key start addr data' j)
unfolding inject_data
inject_data-written key start addr data' h g p q =
    let i = start - addr in
    let k = addr - start in
    let n = min (length data' + 5 - 5) (start + length key - addr) - i in
    let (out, r, s, t, w) = inject_bytes-written n i k key data' (omega arith) (omega arith) h g in
    (out, r, s, t, λ j l. w j ∙ written-after key start addr data' j p q l)

inject_line-text_of :
    (key : List ℕ) (start addr : ℕ) (data' : List ℕ)
    → IsWritable (addr, data')
    → inject_line key start (text_of (addr, data'))
      ≡ inject_at key start (length data' + 5) addr (text_of (addr, data'))
unfolding inject_line
inject_line-text_of key start addr data' (l, a, g) =
    rw (read_s3-text_of (length data' + 5) addr data' (omega arith) a) refl

-- What the condition on the ranges asks.
abbrev is_apart : List ℕ → ℕ → ℕ → ℕ → Bool
is_apart key start count addr = leb (addr + count) (start + 5) || leb (start + length key) addr

inject_at-apart :
    (key : List ℕ) (start count addr : ℕ) (line : List ℕ)
    → is_apart key start count addr ≡ true
    → inject_at key start count addr line ≡ some line
unfolding inject_at
inject_at-apart key start count addr line e = rw e refl

inject_at-touched :
    (key : List ℕ) (start count addr : ℕ) (line data' out result : List ℕ)
    → is_apart key start count addr ≡ false
    → data_of count line ≡ some data'
    → inject_data key start count addr data' ≡ some out
    → s3_record count addr out ≡ some result
    → inject_at key start count addr line ≡ some result
unfolding inject_at inject_record
inject_at-touched key start count addr line data' out result e f g h = rw (e, f, g) h

-- A record that the key does not touch stays; of any other record of a block, the result is the record
-- of a block at the same address and of the same length, whose bytes are those of the key in the key's range
-- and the old ones elsewhere.
pub inject_line_lem :
    (key : List ℕ) (start addr : ℕ) (data' : List ℕ)
    → IsWritable (addr, data')
    → AreBytes key
    → (out : List ℕ) × (inject_line key start (text_of (addr, data')) ≡ some (text_of (addr, out)))
      × (length out ≡ length data')
      × ((j : ℕ) → j < length data' → get_elem? out j ≡ after_injection key start addr data' j)
inject_line_lem key start addr data' (l, a, g) h =
    let count = length data' + 5 in
    let read = inject_line-text_of key start addr data' (l, a, g) in
    elim (Bool-cases (is_apart key start count addr)) [
      | inl e ↦ (
        data',
        read ∙ inject_at-apart key start count addr (text_of (addr, data')) e,
        refl,
        λ j b.
            let outside : (leb start (addr + j) && ltb (addr + j) (start + length key)) ≡ false =
              ground arith in
            rw outside refl,
      )
      | inr e ↦
          let (out, r, s, t, w) =
            inject_data-written key start addr data' h g (ground arith) (ground arith) in
          let size : s3_text count addr out ≡ text_of (addr, out) =
            ap (λ n. s3_text (n + 5) addr out) (sym s) in
          (
            out,
            read
                ∙ (inject_at-touched key start count addr (text_of (addr, data')) data' out
                      (s3_text count addr out) e (data_of-text_of (addr, data') (l, a, g)) r
                      (s3_record-s3_text count addr out (omega arith) a t)
                    ∙ ap some size),
            s,
            w,
          )
    ]
