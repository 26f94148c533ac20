-- ===== src/Pkcs11/Session/Calls/Keeps.antt =====
-- The invariant of a session along its calls.
use mathlib.Core.Path.{subst}
use renesas_ra8m1_provisioni.Prelude.{
  ℕ, String, ◌≡◌, refl, sym, ◌⊎◌, inl, inr, Option, none, some, List, [], ◌∷◌, arith, Option-cases,
  Bool-cases, is_some,
}
use renesas_ra8m1_provisioni.Broker.Json.{Json, Fields}
use renesas_ra8m1_provisioni.Pkcs11.Table.{lookup}
use renesas_ra8m1_provisioni.Pkcs11.Types.{Attribute, is_ecdsa}
use renesas_ra8m1_provisioni.Pkcs11.Session as Session
use renesas_ra8m1_provisioni.Pkcs11.Session.{Broker}
use renesas_ra8m1_provisioni.Pkcs11.Session.Objects as Objects
use renesas_ra8m1_provisioni.Pkcs11.Session.Objects.{Texts, add_handle}
use renesas_ra8m1_provisioni.Pkcs11.Session.Calls.{Call, after, after_all}
use renesas_ra8m1_provisioni.Pkcs11.Session.Calls.Valid.{
  IsValid, find_objects-IsValid, find_objects_final-IsValid, register_key-IsValid, found-IsValid,
  generated-IsValid, searching-IsValid,
}

pub sign_init-IsValid :
    (m k : ℕ) (s : Session.Session) → IsValid s → IsValid (Session.sign_init m k s).1
unfolding Session.sign_init
sign_init-IsValid m k s v = elim (Option-cases (lookup k s.object_handles)) [
  | inl e ↦ same (ground arith)
  | inr (arn, e) ↦ elim (Bool-cases (is_ecdsa m)) [
    | inr x ↦ same (ground arith)
    | inl x ↦
        let started : Session.Session = record s {
          sign_mechanism = some m;
          sign_key = some k;
          sign_data = [];
        } in
        let w : IsValid started = record {
          handles = v.handles;
          results = v.results;
          index = v.index;
          signing = (x, (k, arn, refl, e));
          verifying = v.verifying;
          digesting = v.digesting;
        } in
        let outcome : ((Session.sign_init m k s).1 ≡ s) ⊎ ((Session.sign_init m k s).1 ≡ started) =
          ground arith in
        elim outcome [ inl i ↦ same i | inr i ↦ subst IsValid (sym i) w ]
  ]
]
  where
    same : (Session.sign_init m k s).1 ≡ s → IsValid (Session.sign_init m k s).1
    same i = subst IsValid (sym i) v

verify_init-IsValid :
    (m k : ℕ) (s : Session.Session) → IsValid s → IsValid (Session.verify_init m k s).1
unfolding Session.verify_init
verify_init-IsValid m k s v = elim (Option-cases (lookup k s.object_handles)) [
  | inl e ↦ same (ground arith)
  | inr (arn, e) ↦ elim (Bool-cases (is_ecdsa m)) [
    | inr x ↦ same (ground arith)
    | inl x ↦
        let started : Session.Session = record s {
          verify_mechanism = some m;
          verify_key = some k;
          verify_data = [];
        } in
        let w : IsValid started = record {
          handles = v.handles;
          results = v.results;
          index = v.index;
          verifying = (x, (k, arn, refl, e));
          signing = v.signing;
          digesting = v.digesting;
        } in
        let outcome : ((Session.verify_init m k s).1 ≡ s)
            ⊎ ((Session.verify_init m k s).1 ≡ started) =
          ground arith in
        elim outcome [ inl i ↦ same i | inr i ↦ subst IsValid (sym i) w ]
  ]
]
  where
    same : (Session.verify_init m k s).1 ≡ s → IsValid (Session.verify_init m k s).1
    same i = subst IsValid (sym i) v

digest_init-IsValid :
    (m : ℕ) (s : Session.Session) → IsValid s → IsValid (Session.digest_init m s).1
unfolding Session.digest_init
digest_init-IsValid m s v = ground (arith, v.digesting m)

module _ {B : Type 0} (broker : Broker B) where
  login-IsValid :
      (u : ℕ) (s : Session.Session) (b : B) → IsValid s → IsValid (Session.login broker u s b).1
  unfolding Session.login
  login-IsValid u s b v = ground arith

  logout-IsValid : (s : Session.Session) (b : B) → IsValid s → IsValid (Session.logout broker s b).1
  unfolding Session.logout
  logout-IsValid s b v = ground arith

  sign-IsValid :
      (d : List ℕ) (s : Session.Session) (b : B) → IsValid s → IsValid (Session.sign broker d s b).1
  unfolding Session.sign
  sign-IsValid d s b v = ground arith

  sign_final-IsValid :
      (s : Session.Session) (b : B) → IsValid s → IsValid (Session.sign_final broker s b).1
  unfolding Session.sign_final
  sign_final-IsValid s b v = ground (arith, sign-IsValid s.sign_data s b)

  verify-IsValid :
      (d g : List ℕ) (s : Session.Session) (b : B)
      → IsValid s
      → IsValid (Session.verify broker d g s b).1
  unfolding Session.verify
  verify-IsValid d g s b v = ground arith

  digest-IsValid :
      (d : List ℕ) (s : Session.Session) (b : B)
      → IsValid s
      → IsValid (Session.digest broker d s b).1
  unfolding Session.digest
  digest-IsValid d s b v = ground arith

  digest_final-IsValid :
      (s : Session.Session) (b : B) → IsValid s → IsValid (Session.digest_final broker s b).1
  unfolding Session.digest_final
  digest_final-IsValid s b v = ground (arith, digest-IsValid s.digest_data s b)

  find_objects_init-IsValid :
      (template : List Attribute) (s : Session.Session) (b : B)
      → IsValid s
      → IsValid (Objects.find_objects_init broker template s b).1
  unfolding Objects.find_objects_init
  find_objects_init-IsValid template s b v = elim (Bool-cases (is_some s.find_template)) [
    | inl e ↦ rw (e, Objects.find_objects_init) v
    | inr e ↦
        rw (e, Objects.find_objects_init)
          (found-IsValid (broker "list_keys" Fields.end b).0 _ (searching-IsValid template s v))
  ]

  generate_named-IsValid :
      (x : Texts) (label kind : Option String) (s : Session.Session) (b : B)
      → IsValid s
      → IsValid (Objects.generate_named broker x label kind s b).1
  unfolding Objects.generate_named
  generate_named-IsValid x label kind s b v =
      let named = Objects.type_or_label x label kind in
      generated-IsValid named
        (broker "generate_key_pair"
          (Fields.field "key_type" (Json.str named) (
            Fields.field "curve" (Json.str "secp256r1")
              (Session.fields1 "label" (Objects.optional label))))
          b).0
        s v

  generate_key_pair-IsValid :
      (x : Texts) (m : ℕ) (p q : List Attribute) (s : Session.Session) (b : B)
      → IsValid s
      → IsValid (Objects.generate_key_pair broker x m p q s b).1
  unfolding Objects.generate_key_pair
  generate_key_pair-IsValid x m p q s b v =
      elim (Option-cases (Objects.template_names x q (none, none))) [
        | inl e ↦ ground arith
        | inr ((label, kind), e) ↦ ground (arith, generate_named-IsValid x label kind s b v)
      ]

  -- Every call keeps it.
  pub after-IsValid :
      (x : Texts) (c : Call) (s : Session.Session) (b : B)
      → IsValid s
      → IsValid (after broker x c s b).0
  unfolding after
  after-IsValid x (Call.login u) s b v = login-IsValid u s b v
  after-IsValid x Call.logout s b v = logout-IsValid s b v
  after-IsValid x (Call.sign_init m k) s b v = sign_init-IsValid m k s v
  after-IsValid x (Call.sign d) s b v = sign-IsValid d s b v
  after-IsValid x (Call.sign_update d) s b v = ground arith
  after-IsValid x Call.sign_final s b v = sign_final-IsValid s b v
  after-IsValid x (Call.verify_init m k) s b v = verify_init-IsValid m k s v
  after-IsValid x (Call.verify d g) s b v = verify-IsValid d g s b v
  after-IsValid x (Call.digest_init m) s b v = digest_init-IsValid m s v
  after-IsValid x (Call.digest d) s b v = digest-IsValid d s b v
  after-IsValid x (Call.digest_update d) s b v = ground arith
  after-IsValid x Call.digest_final s b v = digest_final-IsValid s b v
  after-IsValid x (Call.find_objects_init t) s b v = find_objects_init-IsValid t s b v
  after-IsValid x (Call.find_objects n) s b v = find_objects-IsValid n s v
  after-IsValid x Call.find_objects_final s b v = find_objects_final-IsValid s v
  after-IsValid x (Call.generate_key_pair m p q) s b v = generate_key_pair-IsValid x m p q s b v
  after-IsValid x (Call.register_key a) s b v = register_key-IsValid a s v

  -- Any sequence of calls, whatever the broker answers, keeps a session valid: its object handles ascend
  -- from 1 and are below the next one, each handle of the search is above 0 and below the next one, the
  -- search has not passed its end, a signing or verification in progress has a mechanism of ECDSA and a
  -- key with an entry, and a digest in progress a mechanism of hashing.
  pub after_all-IsValid :
      (x : Texts) (cs : List Call) (s : Session.Session) (b : B)
      → IsValid s
      → IsValid (after_all broker x cs s b).0
  unfolding after_all
  after_all-IsValid x [] s b v = v
  after_all-IsValid x (c ∷ cs) s b v =
      let r = after broker x c s b in after_all-IsValid x cs r.0 r.1 (after-IsValid x c s b v)
