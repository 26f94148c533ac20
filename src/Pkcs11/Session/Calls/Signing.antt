-- ===== src/Pkcs11/Session/Calls/Signing.antt =====
-- The signing operation of security/broker/pkcs11/session.py, and an abstract one that has no handles.
use mathlib.Core.Path.{subst}
use renesas_ra8m1_provisioni.Prelude.{
  ℕ, String, ◌≡◌, ◌≢◌, refl, sym, ap, ◌∙◌, ◌⊎◌, inl, inr, true, false, Option, none, some, List, [],
  ◌++◌, arith, Option-cases, Bool-cases,
}
use renesas_ra8m1_provisioni.Pkcs11.Table.{lookup}
use renesas_ra8m1_provisioni.Pkcs11.Types.{is_ecdsa}
use renesas_ra8m1_provisioni.Pkcs11.Session as Session
use renesas_ra8m1_provisioni.Pkcs11.Session.{Broker, arn_of}
use renesas_ra8m1_provisioni.Pkcs11.Session.Objects.{Texts}
use renesas_ra8m1_provisioni.Pkcs11.Session.Calls.{Call, after}
use renesas_ra8m1_provisioni.Pkcs11.Session.Calls.Valid.{IsValid, IsKeyed}
use renesas_ra8m1_provisioni.Pkcs11.Session.Calls.Quiet.{IsOther, IsQuiet, after-IsQuiet}

-- No operation, or one with its mechanism, the key's name and the data so far.
pub data Operation : Type 0 where
  idle : Operation
  signing : ℕ → String → List ℕ → Operation

abbrev operation_of : Option ℕ → Option String → List ℕ → Operation
operation_of (some mechanism) (some key_arn) data' = signing mechanism key_arn data'
operation_of (some mechanism) none data' = idle
operation_of none key_arn data' = idle

-- What a session's signing operation is.
abbrev pub view : Session.Session → Operation
view s = operation_of s.sign_mechanism (arn_of s.sign_key s) s.sign_data

-- What a call of the session `s` does to its operation, which is `o'` afterwards: `sign_init` starts
-- one if it may and is refused otherwise, `sign_update` adds to the data if there is an operation,
-- `sign` and `sign_final` end it, and a call that is none of these does not change it.
pub data Move (s : Session.Session) (o' : Operation) : Call → Type 0 where
  start :
      (mechanism key : ℕ) (key_arn : String)
      → s.logged_in ≡ true
      → view s ≡ idle
      → lookup key s.object_handles ≡ some key_arn
      → is_ecdsa mechanism ≡ true
      → o' ≡ signing mechanism key_arn []
      → Move s o' (Call.sign_init mechanism key)
  refused :
      (mechanism key : ℕ)
      → (s.logged_in ≡ false)
        ⊎ ((view s ≢ idle) ⊎ ((lookup key s.object_handles ≡ none) ⊎ (is_ecdsa mechanism ≡ false)))
      → o' ≡ view s
      → Move s o' (Call.sign_init mechanism key)
  add :
      (part : List ℕ) (mechanism : ℕ) (key_arn : String) (data' : List ℕ)
      → view s ≡ signing mechanism key_arn data'
      → o' ≡ signing mechanism key_arn (data' ++ part)
      → Move s o' (Call.sign_update part)
  nothing_to_add : (part : List ℕ) → view s ≡ idle → o' ≡ idle → Move s o' (Call.sign_update part)
  finish : (data' : List ℕ) → o' ≡ idle → Move s o' (Call.sign data')
  finish_parts : o' ≡ idle → Move s o' Call.sign_final
  keep : (c : Call) → IsOther c → o' ≡ view s → Move s o' c

view_idle : (s : Session.Session) → s.sign_mechanism ≡ none → view s ≡ idle
view_idle s e = rw (e, view) refl

view_signing :
    (s : Session.Session) (m k : ℕ) (arn : String)
    → s.sign_mechanism ≡ some m
    → s.sign_key ≡ some k
    → lookup k s.object_handles ≡ some arn
    → view s ≡ signing m arn s.sign_data
unfolding arn_of
view_signing s m k arn e f g = ground arith

-- A valid session that signs has a key with an entry.
view_cases :
    (s : Session.Session)
    → IsValid s
    → (s.sign_mechanism ≡ none)
      ⊎ ((m : ℕ) × (k : ℕ) × (arn : String) × (s.sign_mechanism ≡ some m)
          × (s.sign_key ≡ some k)
          × (lookup k s.object_handles ≡ some arn))
view_cases s v = elim (Option-cases s.sign_mechanism) [
  | inl e ↦ inl e
  | inr (m, e) ↦
      let (_, (k, arn, f, g)) = subst (λ z. IsKeyed s.object_handles z s.sign_key) e v.signing in
      inr (m, k, arn, e, f, g)
]

view-quiet : (s t : Session.Session) → IsValid s → IsQuiet s t → view t ≡ view s
view-quiet s t v q = elim (view_cases s v) [
  | inl e ↦ view_idle t (q.mechanism ∙ e) ∙ sym (view_idle s e)
  | inr (m, k, arn, e, f, g) ↦
      view_signing t m k arn (q.mechanism ∙ e) (q.key ∙ f) (q.grows k arn g)
      ∙ (ap (signing m arn) q.parts ∙ sym (view_signing s m k arn e f g))
]

sign_update-Move :
    (part : List ℕ) (s : Session.Session)
    → IsValid s
    → Move s (view (Session.sign_update part s).1) (Call.sign_update part)
unfolding Session.sign_update
sign_update-Move part s v = elim (view_cases s v) [
  | inl e ↦
      let j : (Session.sign_update part s).1 ≡ s = ground arith in
      nothing_to_add part (view_idle s e) (ap view j ∙ view_idle s e)
  | inr (m, k, arn, e, f, g) ↦
      let more : (Session.sign_update part s).1 ≡ record s { sign_data = s.sign_data ++ part } =
        ground arith in
      add part m arn s.sign_data (view_signing s m k arn e f g)
        (ap view more ∙ view_signing (record s { sign_data = s.sign_data ++ part }) m k arn e f g)
]

signing_ne_idle : (m : ℕ) (arn : String) (data' : List ℕ) → signing m arn data' ≢ idle
signing_ne_idle m arn data' h = cc

sign_init-started :
    (m k : ℕ) (arn : String) (s : Session.Session)
    → s.logged_in ≡ true
    → s.sign_mechanism ≡ none
    → lookup k s.object_handles ≡ some arn
    → is_ecdsa m ≡ true
    → (Session.sign_init m k s).1
      ≡ record s { sign_mechanism = some m; sign_key = some k; sign_data = [] }
unfolding Session.sign_init
sign_init-started m k arn s h e f g = ground arith

sign_init-Move :
    (m k : ℕ) (s : Session.Session)
    → IsValid s
    → Move s (view (Session.sign_init m k s).1) (Call.sign_init m k)
unfolding Session.sign_init
sign_init-Move m k s v = elim (Bool-cases s.logged_in) [
  | inr h ↦ same (inl h) (ground arith)
  | inl h ↦ elim (view_cases s v) [
    | inr (n, j, name, i, p, q) ↦
        let active : view s ≢ idle =
          λ z. signing_ne_idle n name s.sign_data (sym (view_signing s n j name i p q) ∙ z) in
        same (inr (inl active)) (ground arith)
    | inl i ↦ elim (Option-cases (lookup k s.object_handles)) [
      | inl e ↦ same (inr (inr (inl e))) (ground arith)
      | inr (arn, e) ↦ elim (Bool-cases (is_ecdsa m)) [
        | inr x ↦ same (inr (inr (inr x))) (ground arith)
        | inl x ↦ start m k arn h (view_idle s i) e x (
            ap view (sign_init-started m k arn s h i e x)
            ∙ view_signing (record s { sign_mechanism = some m; sign_key = some k; sign_data = [] })
                m k arn refl refl e)
      ]
    ]
  ]
]
  where
    same :
        (s.logged_in ≡ false)
          ⊎ ((view s ≢ idle) ⊎ ((lookup k s.object_handles ≡ none) ⊎ (is_ecdsa m ≡ false)))
        → (Session.sign_init m k s).1 ≡ s
        → Move s (view (Session.sign_init m k s).1) (Call.sign_init m k)
    same why i = refused m k why (ap view i)

module _ {B : Type 0} (broker : Broker B) (x : Texts) where
  sign_ends : (d : List ℕ) (s : Session.Session) (b : B) → view (Session.sign broker d s b).1 ≡ idle
  unfolding Session.sign
  sign_ends d s b = elim (Option-cases s.sign_mechanism) [
    | inl e ↦ rw (e, Session.sign) (view_idle s e)
    | inr (m, e) ↦ rw (e, Session.sign) refl
  ]

  sign_final_ends : (s : Session.Session) (b : B) → view (Session.sign_final broker s b).1 ≡ idle
  unfolding Session.sign_final
  sign_final_ends s b = elim (Option-cases s.sign_mechanism) [
    | inl e ↦ rw (e, Session.sign_final) refl
    | inr (m, e) ↦
        let same : Session.sign_final broker s b ≡ Session.sign broker s.sign_data s b =
          rw (e, Session.sign_final) refl in
        ap (λ r. view r.1) same ∙ sign_ends s.sign_data s b
  ]

  other-Move :
      (c : Call) (s : Session.Session) (b : B)
      → IsValid s
      → IsOther c
      → Move s (view (after broker x c s b).0) c
  other-Move c s b v o =
      keep c o (view-quiet s (after broker x c s b).0 v (after-IsQuiet broker x c s b v o))

  -- Every call of a valid session is such a move, whatever the broker answers. `sign_init` starts an
  -- operation, with the name of its key and no data, exactly if the user is logged in, no signing
  -- operation is active, the handle has an entry and the mechanism is one of ECDSA, and otherwise leaves
  -- the operation as it is; `sign_update` adds its part to the data of an operation, and does nothing
  -- without one; after `sign` and `sign_final` there is none; and every other call leaves it.
  pub after-Move :
      (c : Call) (s : Session.Session) (b : B)
      → IsValid s
      → Move s (view (after broker x c s b).0) c
  unfolding after
  after-Move (Call.sign_init m k) s b v = sign_init-Move m k s v
  after-Move (Call.sign d) s b v = finish d (sign_ends d s b)
  after-Move (Call.sign_update part) s b v = sign_update-Move part s v
  after-Move Call.sign_final s b v = finish_parts (sign_final_ends s b)
  after-Move (Call.login u) s b v = other-Move (Call.login u) s b v tt
  after-Move Call.logout s b v = other-Move Call.logout s b v tt
  after-Move (Call.verify_init m k) s b v = other-Move (Call.verify_init m k) s b v tt
  after-Move (Call.verify d g) s b v = other-Move (Call.verify d g) s b v tt
  after-Move (Call.digest_init m) s b v = other-Move (Call.digest_init m) s b v tt
  after-Move (Call.digest d) s b v = other-Move (Call.digest d) s b v tt
  after-Move (Call.digest_update d) s b v = other-Move (Call.digest_update d) s b v tt
  after-Move Call.digest_final s b v = other-Move Call.digest_final s b v tt
  after-Move (Call.find_objects_init t) s b v = other-Move (Call.find_objects_init t) s b v tt
  after-Move (Call.find_objects n) s b v = other-Move (Call.find_objects n) s b v tt
  after-Move Call.find_objects_final s b v = other-Move Call.find_objects_final s b v tt
  after-Move (Call.generate_key_pair m p q) s b v =
      other-Move (Call.generate_key_pair m p q) s b v tt
  after-Move (Call.register_key a) s b v = other-Move (Call.register_key a) s b v tt
