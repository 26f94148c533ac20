-- ===== src/Pkcs11/Session/Calls/Search.antt =====
-- What a search of security/broker/pkcs11/session.py finds.
use mathlib.Core.List.{append-nil, append_assoc}
use renesas_ra8m1_provisioni.Prelude.{
  ℕ, zero, suc, ◌≤◌, String, ◌≡◌, refl, sym, ap, ◌∙◌, inl, inr, Bool, true, none, some, List, [],
  ◌∷◌, ◌++◌, arith, length, length-map, take, drop, map, Option-cases, Bool-cases, is_some,
  if◌then◌else◌,
}
use renesas_ra8m1_provisioni.Broker.Json.{Json, Items, Fields}
use renesas_ra8m1_provisioni.Pkcs11.Table.{lookup, lookup-insert}
use renesas_ra8m1_provisioni.Pkcs11.Types.{Ckr, Attribute}
use renesas_ra8m1_provisioni.Pkcs11.Session as Session
use renesas_ra8m1_provisioni.Pkcs11.Session.{Broker}
use renesas_ra8m1_provisioni.Pkcs11.Session.Objects as Objects
use renesas_ra8m1_provisioni.Pkcs11.Session.Objects.{add_handle}
use renesas_ra8m1_provisioni.Pkcs11.Session.Calls.Valid.{IsValid, found_one, searching-IsValid}
use renesas_ra8m1_provisioni.Pkcs11.Session.Calls.Quiet.{lookup-add_found}
use renesas_ra8m1_provisioni.Pkcs11.Session.Calls.Pages.{page, paged, find_objects_active}

-- The names of the broker's keys, less those without one.
abbrev names : Items → List String
names Items.nil = []
names (Items.cons (Json.obj d) keys) = elim (Objects.name_of d) [
  | none ↦ names keys
  | some key_arn ↦ key_arn ∷ names keys
]
names (Items.cons j keys) = []

names-unnamed :
    (d : Fields) (keys : Items)
    → Objects.name_of d ≡ none
    → names (Items.cons (Json.obj d) keys) ≡ names keys
names-unnamed d keys i = simp (i, names)

names-named :
    (d : Fields) (key_arn : String) (keys : Items)
    → Objects.name_of d ≡ some key_arn
    → names (Items.cons (Json.obj d) keys) ≡ key_arn ∷ names keys
names-named d key_arn keys i = simp (i, names)

-- A key with a name gets the next handle.
abbrev one_more : String → Session.Session → Session.Session
one_more key_arn s = record (add_handle key_arn s) {
  find_results = s.find_results ++ (s.next_handle ∷ []);
}

add_found-unnamed :
    (d : Fields) (keys : Items) (s : Session.Session)
    → Objects.name_of d ≡ none
    → Objects.add_found (Items.cons (Json.obj d) keys) s ≡ Objects.add_found keys s
unfolding Objects.add_found
add_found-unnamed d keys s i = simp (i, Objects.add_found)

add_found-named :
    (d : Fields) (key_arn : String) (keys : Items) (s : Session.Session)
    → Objects.name_of d ≡ some key_arn
    → Objects.add_found (Items.cons (Json.obj d) keys) s
      ≡ Objects.add_found keys (one_more key_arn s)
unfolding Objects.add_found
add_found-named d key_arn keys s i = simp (i, Objects.add_found)

-- The search has found the keys that have these names.
abbrev HasFound : Session.Session → List String → Bool × Session.Session → Type 0
HasFound s key_arns r =
    (hs : List ℕ) × (r.1.find_results ≡ s.find_results ++ hs)
    × (map (λ h. lookup h r.1.object_handles) hs ≡ map some key_arns)

HasFound-one :
    (key_arn : String) (key_arns : List String) (s : Session.Session) (r : Bool × Session.Session)
    → lookup s.next_handle r.1.object_handles ≡ some key_arn
    → HasFound (one_more key_arn s) key_arns r
    → HasFound s (key_arn ∷ key_arns) r
HasFound-one key_arn key_arns s r e (hs, i, j) =
    (s.next_handle ∷ hs, i ∙ append_assoc s.find_results (s.next_handle ∷ []) hs, rw (e, j) refl)

lookup-one_more :
    (key_arn : String) (s : Session.Session)
    → lookup s.next_handle (one_more key_arn s).object_handles ≡ some key_arn
unfolding add_handle
lookup-one_more key_arn s =
    ground (arith, lookup-insert s.next_handle s.next_handle key_arn s.object_handles)

add_found-names :
    (keys : Items) (s : Session.Session)
    → IsValid s
    → (Objects.add_found keys s).0 ≡ true
    → HasFound s (names keys) (Objects.add_found keys s)
unfolding Objects.add_found
add_found-names Items.nil s v e = ([], sym (append-nil s.find_results), refl)
add_found-names (Items.cons (Json.obj d) keys) s v e = elim (Option-cases (Objects.name_of d)) [
  | inl i ↦
      let same = add_found-unnamed d keys s i in
      rw (same, names-unnamed d keys i) (add_found-names keys s v (sym (ap (λ r. r.0) same) ∙ e))
  | inr (key_arn, i) ↦
      let same = add_found-named d key_arn keys s i in
      let t = one_more key_arn s in
      rw (same, names-named d key_arn keys i)
        (HasFound-one key_arn (names keys) s (Objects.add_found keys t)
          (lookup-add_found keys s.next_handle key_arn t (found_one key_arn s v)
            (lookup-one_more key_arn s))
          (add_found-names keys t (found_one key_arn s v) (sym (ap (λ r. r.0) same) ∙ e)))
]
add_found-names (Items.cons (Json.str u) keys) s v e = cc
add_found-names (Items.cons Json.null keys) s v e = cc
add_found-names (Items.cons (Json.bool u) keys) s v e = cc
add_found-names (Items.cons (Json.num u) keys) s v e = cc
add_found-names (Items.cons (Json.time u) keys) s v e = cc
add_found-names (Items.cons (Json.arr u) keys) s v e = cc

-- The search goes on from where it was.
add_found-search :
    (keys : Items) (s : Session.Session)
    → ((Objects.add_found keys s).1.find_template ≡ s.find_template)
      × ((Objects.add_found keys s).1.find_index ≡ s.find_index)
unfolding Objects.add_found add_handle
add_found-search Items.nil s = (refl, refl)
add_found-search (Items.cons (Json.obj d) keys) s = elim (Option-cases (Objects.name_of d)) [
  | inl i ↦ rw (add_found-unnamed d keys s i) (add_found-search keys s)
  | inr (key_arn, i) ↦
      rw (add_found-named d key_arn keys s i) (add_found-search keys (one_more key_arn s))
]
add_found-search (Items.cons j keys) s = (refl, refl)

found-keys :
    (response : Fields) (keys : Items) (s : Session.Session)
    → Objects.keys_of response ≡ some keys
    → let r = Objects.add_found keys s in
      Objects.found (some response) s ≡ (if r.0 then Ckr.ok else Ckr.function_failed, r.1)
unfolding Objects.found
found-keys response keys s i = rw (i, Objects.found) refl

take-all : (n : ℕ) (xs : List ℕ) → length xs ≤ n → take n xs ≡ xs
take-all zero [] h = refl
take-all (suc n) [] h = refl
take-all zero (x ∷ xs) h = absurd (omega arith)
take-all (suc n) (x ∷ xs) h = ap (λ l. x ∷ l) (take-all n xs (omega arith))

module _ {B : Type 0} (broker : Broker B) where
  -- A search that starts has the outcome of the loop over the keys.
  find_objects_init_ok :
      (template : List Attribute) (response : Fields) (keys : Items) (s : Session.Session) (b : B)
      → (broker "list_keys" Fields.end b).0 ≡ some response
      → Objects.keys_of response ≡ some keys
      → (Objects.find_objects_init broker template s b).0 ≡ Ckr.ok
      → let r =
          Objects.add_found keys
            (record s { find_template = some template; find_results = []; find_index = 0 }) in
        (r.0 ≡ true) × ((Objects.find_objects_init broker template s b).1 ≡ r.1)
  unfolding Objects.find_objects_init
  find_objects_init_ok template response keys s b e i o =
      let r =
        Objects.add_found keys
          (record s { find_template = some template; find_results = []; find_index = 0 }) in
      elim (Bool-cases (is_some s.find_template)) [
        | inl f ↦
            let out : (Objects.find_objects_init broker template s b).0 ≡ Ckr.operation_active =
              simp (f, Objects.find_objects_init) in
            ground arith
        | inr f ↦
            let fresh : Session.Session = record s {
              find_template = some template;
              find_results = [];
              find_index = 0;
            } in
            let asked : (
              (Objects.find_objects_init broker template s b).0,
              (Objects.find_objects_init broker template s b).1,
            )
                ≡ Objects.found (broker "list_keys" Fields.end b).0 fresh =
              simp (f, Objects.find_objects_init) in
            let all =
              asked ∙ (ap (λ z. Objects.found z fresh) e ∙ found-keys response keys fresh i) in
            let out : (Objects.find_objects_init broker template s b).0
                ≡ (if r.0 then Ckr.ok else Ckr.function_failed) =
              ap (λ z. z.0) all in
            let state : (Objects.find_objects_init broker template s b).1 ≡ r.1 =
              ap (λ z. z.1) all in
            elim (Bool-cases r.0) [ inl z ↦ (z, state) | inr z ↦ ground arith ]
      ]

  -- A search that starts, asked for at least as many handles as keys, returns handles of exactly the
  -- broker's keys that have a name, in their order.
  pub find_objects_lem :
      (template : List Attribute) (n : ℕ) (response : Fields) (keys : Items) (s : Session.Session)
      (b : B)
      → IsValid s
      → (broker "list_keys" Fields.end b).0 ≡ some response
      → Objects.keys_of response ≡ some keys
      → (Objects.find_objects_init broker template s b).0 ≡ Ckr.ok
      → length (names keys) ≤ n
      → let t = (Objects.find_objects_init broker template s b).1 in
        let r = Objects.find_objects n t in
        (r.0.0 ≡ Ckr.ok) × (map (λ h. Objects.get_key_arn h r.1) r.0.1 ≡ map some (names keys))
  unfolding Objects.get_key_arn
  find_objects_lem template n response keys s b v e i o l =
      let fresh : Session.Session = record s {
        find_template = some template;
        find_results = [];
        find_index = 0;
      } in
      let r = Objects.add_found keys fresh in
      let (fine, state) = find_objects_init_ok template response keys s b e i o in
      let (hs, results, known) = add_found-names keys fresh (searching-IsValid template s v) fine in
      let (searching, start) = add_found-search keys fresh in
      let count : length hs ≡ length (names keys) =
        sym (length-map hs (λ h. lookup h r.1.object_handles))
        ∙ (ap length known ∙ length-map (names keys) (λ z. some z)) in
      let everything : page n r.1 ≡ hs =
        ap (λ j. take n (drop j r.1.find_results)) start
        ∙ (ap (take n) results ∙ take-all n hs (omega (arith, count, l))) in
      let asked : Objects.find_objects n (Objects.find_objects_init broker template s b).1
          ≡ ((Ckr.ok, hs), paged n r.1) =
        ap (Objects.find_objects n) state
        ∙ (find_objects_active n r.1 (ap is_some searching)
            ∙ ap (λ xs. ((Ckr.ok, xs), paged n r.1)) everything) in
      (ap (λ z. z.0.0) asked, ap (λ z. map (λ h. Objects.get_key_arn h z.1) z.0.1) asked ∙ known)
