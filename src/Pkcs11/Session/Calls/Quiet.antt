-- ===== src/Pkcs11/Session/Calls/Quiet.antt =====
-- The calls of security/broker/pkcs11/session.py that have nothing to do with signing.
use renesas_ra8m1_provisioni.Prelude.{
  ℕ, String, ◌≡◌, refl, inl, inr, Option, none, some, List, [], ◌∷◌, ◌++◌, arith, Option-cases,
  Bool-cases, is_some,
}
use renesas_ra8m1_provisioni.Broker.Json.{Json, Items, Fields}
use renesas_ra8m1_provisioni.Pkcs11.Table.{lookup}
use renesas_ra8m1_provisioni.Pkcs11.Types.{Attribute}
use renesas_ra8m1_provisioni.Pkcs11.Session as Session
use renesas_ra8m1_provisioni.Pkcs11.Session.{Broker, arn_of}
use renesas_ra8m1_provisioni.Pkcs11.Session.Objects as Objects
use renesas_ra8m1_provisioni.Pkcs11.Session.Objects.{Texts, add_handle}
use renesas_ra8m1_provisioni.Pkcs11.Session.Calls.{Call, after}
use renesas_ra8m1_provisioni.Pkcs11.Session.Calls.Valid.{
  IsValid, lookup-add_handle, found_one, add_handle-IsValid, searching-IsValid,
}

-- An entry stays through the calls.
pub lookup-add_found :
    (keys : Items) (h : ℕ) (arn : String) (s : Session.Session)
    → IsValid s
    → lookup h s.object_handles ≡ some arn
    → lookup h (Objects.add_found keys s).1.object_handles ≡ some arn
unfolding Objects.add_found
lookup-add_found Items.nil h arn s v e = e
lookup-add_found (Items.cons (Json.obj d) keys) h arn s v e =
    elim (Option-cases (Objects.name_of d)) [
      | inl i ↦ rw (i, Objects.add_found) (lookup-add_found keys h arn s v e)
      | inr (key_arn, i) ↦
          rw (i, Objects.add_found)
            (lookup-add_found keys h arn
              (record (add_handle key_arn s) {
                find_results = s.find_results ++ (s.next_handle ∷ []);
              })
              (found_one key_arn s v) (lookup-add_handle key_arn arn h s v.handles e))
    ]
lookup-add_found (Items.cons j keys) h arn s v e = e

-- The entries stay, and the signing operation is not touched.
pub record IsQuiet (s t : Session.Session) : Type 0 where
  pub grows :
      (h : ℕ) (arn : String)
      → lookup h s.object_handles ≡ some arn
      → lookup h t.object_handles ≡ some arn
  pub mechanism : t.sign_mechanism ≡ s.sign_mechanism
  pub key : t.sign_key ≡ s.sign_key
  pub parts : t.sign_data ≡ s.sign_data

pub IsQuiet-refl : (s : Session.Session) → IsQuiet s s
IsQuiet-refl s = record { grows = λ h arn e. e; mechanism = refl; key = refl; parts = refl }

add_found-signing :
    (keys : Items) (s : Session.Session)
    → ((Objects.add_found keys s).1.sign_mechanism ≡ s.sign_mechanism)
      × ((Objects.add_found keys s).1.sign_key ≡ s.sign_key)
      × ((Objects.add_found keys s).1.sign_data ≡ s.sign_data)
unfolding Objects.add_found add_handle
add_found-signing Items.nil s = (refl, refl, refl)
add_found-signing (Items.cons (Json.obj d) keys) s = elim (Option-cases (Objects.name_of d)) [
  | inl i ↦ rw (i, Objects.add_found) (add_found-signing keys s)
  | inr (key_arn, i) ↦
      rw (i, Objects.add_found)
        (add_found-signing keys
          (record (add_handle key_arn s) { find_results = s.find_results ++ (s.next_handle ∷ []) }))
]
add_found-signing (Items.cons j keys) s = (refl, refl, refl)

found-IsQuiet :
    (response : Option Fields) (s : Session.Session)
    → IsValid s
    → IsQuiet s (Objects.found response s).1
unfolding Objects.found
found-IsQuiet none s v = IsQuiet-refl s
found-IsQuiet (some response) s v = elim (Option-cases (Objects.keys_of response)) [
  | inl e ↦ rw (e, Objects.found) (IsQuiet-refl s)
  | inr (keys, e) ↦
      let same = add_found-signing keys s in
      rw (e, Objects.found)
        (record {
          grows = λ h arn i. lookup-add_found keys h arn s v i;
          mechanism = same.0;
          key = same.1;
          parts = same.2;
        })
]

add_handle-IsQuiet :
    (key_arn : String) (s : Session.Session) → IsValid s → IsQuiet s (add_handle key_arn s)
unfolding add_handle
add_handle-IsQuiet key_arn s v = record {
  grows = λ h arn e. lookup-add_handle key_arn arn h s v.handles e;
  mechanism = refl;
  key = refl;
  parts = refl;
}

generated-IsQuiet :
    (kind : String) (response : Option Fields) (s : Session.Session)
    → IsValid s
    → IsQuiet s (Objects.generated kind response s).1
unfolding Objects.generated Objects.add_pair add_handle
generated-IsQuiet kind none s v = IsQuiet-refl s
generated-IsQuiet kind (some response) s v = elim (Option-cases (Objects.name_of response)) [
  | inl e ↦ rw (e, Objects.generated) (IsQuiet-refl s)
  | inr (key_arn, e) ↦
      rw (e, Objects.generated)
        (record {
          grows = λ h arn i.
              lookup-add_handle key_arn arn h (add_handle key_arn s)
                (add_handle-IsValid key_arn s v).handles
                (lookup-add_handle key_arn arn h s v.handles i);
          mechanism = refl;
          key = refl;
          parts = refl;
        })
]

-- A call that has nothing to do with signing.
abbrev pub IsOther : Call → Type 0
IsOther (Call.sign_init m k) = ⊥
IsOther (Call.sign d) = ⊥
IsOther (Call.sign_update d) = ⊥
IsOther Call.sign_final = ⊥
IsOther c = Unit

register_key-IsQuiet :
    (key_arn : String) (s : Session.Session)
    → IsValid s
    → IsQuiet s (Objects.register_key key_arn s).1
unfolding Objects.register_key
register_key-IsQuiet key_arn s v =
    elim (Option-cases (Objects.handle_of key_arn s.object_handles)) [
      | inl e ↦ rw (e, Objects.register_key) (add_handle-IsQuiet key_arn s v)
      | inr (h, e) ↦ rw (e, Objects.register_key) (IsQuiet-refl s)
    ]

module _ {B : Type 0} (broker : Broker B) (x : Texts) where
  find_objects_init-IsQuiet :
      (t : List Attribute) (s : Session.Session) (b : B)
      → IsValid s
      → IsQuiet s (Objects.find_objects_init broker t s b).1
  unfolding Objects.find_objects_init
  find_objects_init-IsQuiet t s b v =
      let fresh : Session.Session = record s {
        find_template = some t;
        find_results = [];
        find_index = 0;
      } in
      let q : IsQuiet fresh (Objects.found (broker "list_keys" Fields.end b).0 fresh).1 =
        found-IsQuiet (broker "list_keys" Fields.end b).0 fresh (searching-IsValid t s v) in
      elim (Bool-cases (is_some s.find_template)) [
        | inl e ↦ rw (e, Objects.find_objects_init) (IsQuiet-refl s)
        | inr e ↦
            rw (e, Objects.find_objects_init)
              (record { grows = q.grows; mechanism = q.mechanism; key = q.key; parts = q.parts })
      ]

  generate_named-IsQuiet :
      (label kind : Option String) (s : Session.Session) (b : B)
      → IsValid s
      → IsQuiet s (Objects.generate_named broker x label kind s b).1
  unfolding Objects.generate_named
  generate_named-IsQuiet label kind s b v =
      let named = Objects.type_or_label x label kind in
      generated-IsQuiet named
        (broker "generate_key_pair"
          (Fields.field "key_type" (Json.str named) (
            Fields.field "curve" (Json.str "secp256r1")
              (Session.fields1 "label" (Objects.optional label))))
          b).0
        s v

  generate_key_pair-IsQuiet :
      (m : ℕ) (p q : List Attribute) (s : Session.Session) (b : B)
      → IsValid s
      → IsQuiet s (Objects.generate_key_pair broker x m p q s b).1
  unfolding Objects.generate_key_pair
  generate_key_pair-IsQuiet m p q s b v =
      elim (Option-cases (Objects.template_names x q (none, none))) [
        | inl e ↦ ground arith
        | inr ((label, kind), e) ↦ ground (arith, generate_named-IsQuiet label kind s b v)
      ]

  pub after-IsQuiet :
      (c : Call) (s : Session.Session) (b : B)
      → IsValid s
      → IsOther c
      → IsQuiet s (after broker x c s b).0
  unfolding after
  after-IsQuiet (Call.login u) s b v o = ground arith
  after-IsQuiet Call.logout s b v o = ground arith
  after-IsQuiet (Call.sign_init m k) s b v o = absurd o
  after-IsQuiet (Call.sign d) s b v o = absurd o
  after-IsQuiet (Call.sign_update part) s b v o = absurd o
  after-IsQuiet Call.sign_final s b v o = absurd o
  after-IsQuiet (Call.verify_init m k) s b v o = ground arith
  after-IsQuiet (Call.verify d g) s b v o = ground arith
  after-IsQuiet (Call.digest_init m) s b v o = ground arith
  after-IsQuiet (Call.digest d) s b v o = ground arith
  after-IsQuiet (Call.digest_update d) s b v o = ground arith
  after-IsQuiet Call.digest_final s b v o = ground arith
  after-IsQuiet (Call.find_objects_init t) s b v o = find_objects_init-IsQuiet t s b v
  after-IsQuiet (Call.find_objects n) s b v o = ground arith
  after-IsQuiet Call.find_objects_final s b v o = ground arith
  after-IsQuiet (Call.generate_key_pair m p q) s b v o = generate_key_pair-IsQuiet m p q s b v
  after-IsQuiet (Call.register_key a) s b v o = register_key-IsQuiet a s v
