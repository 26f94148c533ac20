-- ===== src/Pkcs11/Session/Calls/Signed.antt =====
-- Whole signing and digest operations of security/broker/pkcs11/session.py.
use mathlib.Core.List.{flatten, append-nil, append_assoc}
use renesas_ra8m1_provisioni.Prelude.{
  ℕ, String, ◌≡◌, inl, inr, refl, sym, ap, ◌∙◌, true, Option, none, some, List, [], ◌∷◌, ◌++◌,
  arith, Option-cases,
}
use renesas_ra8m1_provisioni.Pkcs11.Table.{lookup}
use renesas_ra8m1_provisioni.Pkcs11.Types.{Ckr, is_ecdsa}
use renesas_ra8m1_provisioni.Pkcs11.Session as Session
use renesas_ra8m1_provisioni.Pkcs11.Session.{Broker, arn_of, or_failed, end_sign}
use renesas_ra8m1_provisioni.Pkcs11.Session.Objects.{Texts}
use renesas_ra8m1_provisioni.Pkcs11.Session.Calls.{Call, after, after_all}
use renesas_ra8m1_provisioni.Pkcs11.Session.Calls.Valid.{IsValid}
use renesas_ra8m1_provisioni.Pkcs11.Session.Calls.Keeps.{after-IsValid, sign_init-IsValid}
use renesas_ra8m1_provisioni.Pkcs11.Session.Calls.Quiet.{
  IsOther, IsQuiet, IsQuiet-refl, after-IsQuiet,
}

abbrev pub AreOther : List Call → Type 0
AreOther [] = Unit
AreOther (c ∷ cs) = IsOther c × AreOther cs

-- The operation of a session after `C_SignUpdate` with each part.
unfoldable pub sign_updates : List (List ℕ) → Session.Session → Session.Session
unfolding Session.sign_update
sign_updates [] s = s
sign_updates (part ∷ parts) s = sign_updates parts (Session.sign_update part s).1

sign_updates-flatten :
    (parts : List (List ℕ)) (m : ℕ) (s : Session.Session)
    → s.sign_mechanism ≡ some m
    → sign_updates parts s ≡ record s { sign_data = s.sign_data ++ flatten parts }
unfolding sign_updates Session.sign_update flatten
sign_updates-flatten [] m s e = ap (λ d. record s { sign_data = d }) (sym (append-nil s.sign_data))
sign_updates-flatten (part ∷ parts) m s e =
    let more : Session.Session = record s { sign_data = s.sign_data ++ part } in
    let one : (Session.sign_update part s).1 ≡ more = ground arith in
    ap (sign_updates parts) one
    ∙ (sign_updates-flatten parts m more e
        ∙ ap (λ d. record s { sign_data = d }) (append_assoc s.sign_data part (flatten parts)))

sign_updates-none :
    (parts : List (List ℕ)) (s : Session.Session)
    → s.sign_mechanism ≡ none
    → sign_updates parts s ≡ s
unfolding sign_updates Session.sign_update
sign_updates-none [] s e = refl
sign_updates-none (part ∷ parts) s e =
    let same : (Session.sign_update part s).1 ≡ s = ground arith in
    ap (sign_updates parts) same ∙ sign_updates-none parts s e

-- The operation of a session after `C_DigestUpdate` with each part.
unfoldable pub digest_updates : List (List ℕ) → Session.Session → Session.Session
unfolding Session.digest_update
digest_updates [] s = s
digest_updates (part ∷ parts) s = digest_updates parts (Session.digest_update part s).1

digest_updates-flatten :
    (parts : List (List ℕ)) (m : ℕ) (s : Session.Session)
    → s.digest_mechanism ≡ some m
    → digest_updates parts s ≡ record s { digest_data = s.digest_data ++ flatten parts }
unfolding digest_updates Session.digest_update flatten
digest_updates-flatten [] m s e =
    ap (λ d. record s { digest_data = d }) (sym (append-nil s.digest_data))
digest_updates-flatten (part ∷ parts) m s e =
    let more : Session.Session = record s { digest_data = s.digest_data ++ part } in
    let one : (Session.digest_update part s).1 ≡ more = ground arith in
    ap (digest_updates parts) one
    ∙ (digest_updates-flatten parts m more e
        ∙ ap (λ d. record s { digest_data = d }) (append_assoc s.digest_data part (flatten parts)))

digest_updates-none :
    (parts : List (List ℕ)) (s : Session.Session)
    → s.digest_mechanism ≡ none
    → digest_updates parts s ≡ s
unfolding digest_updates Session.digest_update
digest_updates-none [] s e = refl
digest_updates-none (part ∷ parts) s e =
    let same : (Session.digest_update part s).1 ≡ s = ground arith in
    ap (digest_updates parts) same ∙ digest_updates-none parts s e

arn_of-sign_data :
    (key : Option ℕ) (d : List ℕ) (s : Session.Session)
    → arn_of key (record s { sign_data = d }) ≡ arn_of key s
unfolding arn_of
arn_of-sign_data none d s = refl
arn_of-sign_data (some key) d s = refl

module _ {B : Type 0} (broker : Broker B) where
  -- What `C_Sign` does in an operation.
  sign_outcome :
      (m : ℕ) (d : List ℕ) (s : Session.Session) (b : B)
      → s.sign_mechanism ≡ some m
      → Session.sign broker d s b ≡ (
          let q = Session.sign_by broker m (arn_of s.sign_key s) d b in
          (or_failed q.0, end_sign s, q.1))
  unfolding Session.sign
  sign_outcome m d s b i = simp (i, Session.sign)

  -- Read as the entry of its key.
  sign_entry :
      (m k : ℕ) (arn : String) (d : List ℕ) (s : Session.Session) (b : B)
      → s.sign_mechanism ≡ some m
      → s.sign_key ≡ some k
      → lookup k s.object_handles ≡ some arn
      → Session.sign broker d s b
        ≡ (let q = Session.sign_by broker m (some arn) d b in (or_failed q.0, end_sign s, q.1))
  unfolding arn_of
  sign_entry m k arn d s b i j e =
      let known : arn_of s.sign_key s ≡ some arn = ground arith in
      sign_outcome m d s b i
      ∙ ap (λ z. let q = Session.sign_by broker m z d b in (or_failed q.0, end_sign s, q.1)) known

  sign-sign_data :
      (m : ℕ) (d e : List ℕ) (s : Session.Session) (b : B)
      → s.sign_mechanism ≡ some m
      → Session.sign broker d (record s { sign_data = e }) b ≡ Session.sign broker d s b
  sign-sign_data m d e s b i =
      sign_outcome m d (record s { sign_data = e }) b i
      ∙ (rw (arn_of-sign_data s.sign_key e s) refl ∙ sym (sign_outcome m d s b i))

  sign_final_inactive :
      (d : List ℕ) (s : Session.Session) (b : B)
      → s.sign_mechanism ≡ none
      → Session.sign_final broker s b ≡ Session.sign broker d s b
  unfolding Session.sign Session.sign_final
  sign_final_inactive d s b i = rw i refl

  -- With no data so far, `C_SignFinal` after `C_SignUpdate` with each part does what `C_Sign` of the
  -- parts together does: the same result, session and state of the broker.
  pub sign_final-sign_updates :
      (parts : List (List ℕ)) (s : Session.Session) (b : B)
      → s.sign_data ≡ []
      → Session.sign_final broker (sign_updates parts s) b ≡ Session.sign broker (flatten parts) s b
  unfolding Session.sign_final
  sign_final-sign_updates parts s b e = elim (Option-cases s.sign_mechanism) [
    | inl i ↦ rw (sign_updates-none parts s i) (sign_final_inactive (flatten parts) s b i)
    | inr (m, i) ↦
        let all : Session.Session = record s { sign_data = s.sign_data ++ flatten parts } in
        let now : sign_updates parts s ≡ record s { sign_data = flatten parts } =
          sign_updates-flatten parts m s i
          ∙ ap (λ d. record s { sign_data = d ++ flatten parts }) e in
        ap (λ z. Session.sign_final broker z b) now
        ∙ (rw (i, Session.sign_final) refl ∙ sign-sign_data m (flatten parts) (flatten parts) s b i)
  ]

  -- The same of a digest, for its result and the broker: a failure leaves the data of the parts.
  pub digest_final-digest_updates :
      (parts : List (List ℕ)) (s : Session.Session) (b : B)
      → s.digest_data ≡ []
      → ((Session.digest_final broker (digest_updates parts s) b).0
          ≡ (Session.digest broker (flatten parts) s b).0)
        × ((Session.digest_final broker (digest_updates parts s) b).2
            ≡ (Session.digest broker (flatten parts) s b).2)
  unfolding Session.digest_final Session.digest
  digest_final-digest_updates parts s b e = elim (Option-cases s.digest_mechanism) [
    | inl i ↦ rw (digest_updates-none parts s i, i) (refl, refl)
    | inr (m, i) ↦ rw (digest_updates-flatten parts m s i, i, e) (refl, refl)
  ]

-- `C_SignInit` that returns ok has noted the mechanism and the key, which has an entry.
sign_init_ok :
    (m k : ℕ) (s : Session.Session)
    → (Session.sign_init m k s).0 ≡ Ckr.ok
    → (is_ecdsa m ≡ true)
      × ((arn : String) × (lookup k s.object_handles ≡ some arn))
      × ((Session.sign_init m k s).1
          ≡ record s { sign_mechanism = some m; sign_key = some k; sign_data = [] })
unfolding Session.sign_init
sign_init_ok m k s e = elim (Option-cases (lookup k s.object_handles)) [
  | inl i ↦ ground arith
  | inr (arn, i) ↦ let ok : is_ecdsa m ≡ true = ground arith in (ok, (arn, i), ground arith)
]

module _ {B : Type 0} (broker : Broker B) (x : Texts) where
  after_all-IsQuiet :
      (cs : List Call) (s : Session.Session) (b : B)
      → IsValid s
      → AreOther cs
      → IsQuiet s (after_all broker x cs s b).0
  unfolding after_all
  after_all-IsQuiet [] s b v o = IsQuiet-refl s
  after_all-IsQuiet (c ∷ cs) s b v (o, os) =
      let r = after broker x c s b in
      let q : IsQuiet s r.0 = after-IsQuiet broker x c s b v o in
      let w : IsQuiet r.0 (after_all broker x cs r.0 r.1).0 =
        after_all-IsQuiet cs r.0 r.1 (after-IsValid broker x c s b v) os in
      record {
        grows = λ h arn e. w.grows h arn (q.grows h arn e);
        mechanism = w.mechanism ∙ q.mechanism;
        key = w.key ∙ q.key;
        parts = w.parts ∙ q.parts;
      }

  -- After a `sign_init` of a valid session that returned ok for a key with an entry, and any calls that
  -- are not of signing, `sign` asks the broker for a signature by the key's name with the mechanism,
  -- returns what comes of it, and ends the operation.
  pub sign-sign_init :
      (m k : ℕ) (arn : String) (cs : List Call) (d : List ℕ) (s : Session.Session) (b : B)
      → IsValid s
      → (Session.sign_init m k s).0 ≡ Ckr.ok
      → lookup k s.object_handles ≡ some arn
      → AreOther cs
      → (let r = after_all broker x cs (Session.sign_init m k s).1 b in
          let q = Session.sign_by broker m (some arn) d r.1 in
          Session.sign broker d r.0 r.1 ≡ (or_failed q.0, end_sign r.0, q.1))
  sign-sign_init m k arn cs d s b v e i o =
      let (_, _, start) = sign_init_ok m k s e in
      let s1 = (Session.sign_init m k s).1 in
      let q : IsQuiet s1 (after_all broker x cs s1 b).0 =
        after_all-IsQuiet cs s1 b (sign_init-IsValid m k s v) o in
      let r = after_all broker x cs s1 b in
      sign_entry broker m k arn d r.0 r.1 (q.mechanism ∙ ap (λ z. z.sign_mechanism) start)
        (q.key ∙ ap (λ z. z.sign_key) start)
        (q.grows k arn (ap (λ z. lookup k z.object_handles) start ∙ i))
