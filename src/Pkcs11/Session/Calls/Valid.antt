-- ===== src/Pkcs11/Session/Calls/Valid.antt =====
-- The invariant of a session.
use renesas_ra8m1_provisioni.Prelude.{
  ℕ, suc, ◌≤◌, ◌<◌, String, ◌≡◌, inl, inr, true, Option, none, some, List, [], ◌∷◌, ◌++◌, arith,
  length, drop, length-take, length-drop, length-append, Option-cases,
}
use renesas_ra8m1_provisioni.Broker.Json.{Json, Items, Fields}
use renesas_ra8m1_provisioni.Pkcs11.Table.{
  lookup, lookup-insert, AreAscending, lookup_range, AreAscending-le, AreAscending-insert,
}
use renesas_ra8m1_provisioni.Pkcs11.Types.{Attribute, is_ecdsa, is_hash}
use renesas_ra8m1_provisioni.Pkcs11.Session as Session
use renesas_ra8m1_provisioni.Pkcs11.Session.{Broker}
use renesas_ra8m1_provisioni.Pkcs11.Session.Objects as Objects
use renesas_ra8m1_provisioni.Pkcs11.Session.Objects.{Texts, add_handle}

-- The key of an operation in progress: its mechanism is one for keys, and its handle has an entry.
abbrev pub IsKeyed : List (ℕ × String) → Option ℕ → Option ℕ → Type 0
IsKeyed d none key = Unit
IsKeyed d (some mechanism) key =
    (is_ecdsa mechanism ≡ true)
    × ((k : ℕ) × (key_arn : String) × (key ≡ some k) × (lookup k d ≡ some key_arn))

abbrev pub AreHandles : ℕ → List ℕ → Type 0
AreHandles next [] = Unit
AreHandles next (h ∷ hs) = (0 < h) × (h < next) × AreHandles next hs

-- The handles ascend from 1 and are below the next one, those found are between; the search has not passed its
-- end; the operations in progress have a key and a mechanism that they allow.
pub record IsValid (s : Session.Session) : Type 0 where
  pub handles : AreAscending 1 s.next_handle s.object_handles
  pub results : AreHandles s.next_handle s.find_results
  pub index : s.find_index ≤ length s.find_results
  pub signing : IsKeyed s.object_handles s.sign_mechanism s.sign_key
  pub verifying : IsKeyed s.object_handles s.verify_mechanism s.verify_key
  pub digesting : (m : ℕ) → s.digest_mechanism ≡ some m → is_hash m ≡ true

pub new_session-IsValid :
    (handle slot_id flags : ℕ) (id : String) → IsValid (Session.new_session handle slot_id flags id)
unfolding Session.new_session
new_session-IsValid handle slot_id flags id = record {
  handles = omega arith;
  results = tt;
  index = omega arith;
  signing = tt;
  verifying = tt;
  digesting = λ m e. cc;
}

-- An entry stays when a handle is added.
pub lookup-add_handle :
    (key_arn arn : String) (h : ℕ) (s : Session.Session)
    → AreAscending 1 s.next_handle s.object_handles
    → lookup h s.object_handles ≡ some arn
    → lookup h (add_handle key_arn s).object_handles ≡ some arn
unfolding add_handle
lookup-add_handle key_arn arn h s v e = ground (
  arith,
  lookup-insert s.next_handle h key_arn s.object_handles,
  lookup_range 1 s.next_handle h arn s.object_handles v e,
)

IsKeyed-add_handle :
    (key_arn : String) (m k : Option ℕ) (s : Session.Session)
    → AreAscending 1 s.next_handle s.object_handles
    → IsKeyed s.object_handles m k
    → IsKeyed (add_handle key_arn s).object_handles m k
IsKeyed-add_handle key_arn none k s v i = tt
IsKeyed-add_handle key_arn (some m) k s v (e, (h, arn, p, q)) =
    (e, (h, arn, p, lookup-add_handle key_arn arn h s v q))

AreHandles-weaken : (n : ℕ) (hs : List ℕ) → AreHandles n hs → AreHandles (suc n) hs
AreHandles-weaken n [] h = tt
AreHandles-weaken n (x ∷ xs) (p, q, hs) = (p, omega arith, AreHandles-weaken n xs hs)

AreHandles-append :
    (n : ℕ) (xs ys : List ℕ) → AreHandles n xs → AreHandles n ys → AreHandles n (xs ++ ys)
AreHandles-append n [] ys h k = k
AreHandles-append n (x ∷ xs) ys (p, q, hs) k = (p, q, AreHandles-append n xs ys hs k)

pub add_handle-IsValid :
    (key_arn : String) (s : Session.Session) → IsValid s → IsValid (add_handle key_arn s)
unfolding add_handle
add_handle-IsValid key_arn s v = record {
  handles = AreAscending-insert 1 s.next_handle key_arn s.object_handles v.handles;
  results = AreHandles-weaken s.next_handle s.find_results v.results;
  index = v.index;
  signing = IsKeyed-add_handle key_arn s.sign_mechanism s.sign_key s v.handles v.signing;
  verifying = IsKeyed-add_handle key_arn s.verify_mechanism s.verify_key s v.handles v.verifying;
  digesting = v.digesting;
}

pub find_objects-IsValid :
    (n : ℕ) (s : Session.Session) → IsValid s → IsValid (Objects.find_objects n s).1
unfolding Objects.find_objects
find_objects-IsValid n s v = ground (
  arith,
  length-take n (drop s.find_index s.find_results),
  length-drop s.find_index s.find_results,
)

pub find_objects_final-IsValid :
    (s : Session.Session) → IsValid s → IsValid (Objects.find_objects_final s).1
unfolding Objects.find_objects_final
find_objects_final-IsValid s v = ground arith

pub register_key-IsValid :
    (key_arn : String) (s : Session.Session)
    → IsValid s
    → IsValid (Objects.register_key key_arn s).1
unfolding Objects.register_key
register_key-IsValid key_arn s v =
    elim (Option-cases (Objects.handle_of key_arn s.object_handles)) [
      | inl e ↦ rw (e, Objects.register_key) (add_handle-IsValid key_arn s v)
      | inr (h, e) ↦ rw (e, Objects.register_key) v
    ]

pub found_one :
    (key_arn : String) (s : Session.Session)
    → IsValid s
    → IsValid
        (record (add_handle key_arn s) { find_results = s.find_results ++ (s.next_handle ∷ []) })
unfolding add_handle
found_one key_arn s v =
    let w = add_handle-IsValid key_arn s v in
    record {
      handles = w.handles;
      results =
          AreHandles-append (suc s.next_handle) s.find_results (s.next_handle ∷ []) w.results (
            omega (arith, AreAscending-le 1 s.next_handle s.object_handles v.handles),
            omega arith,
            tt,
          );
      index = omega (arith, v.index, length-append s.find_results (s.next_handle ∷ []));
      signing = w.signing;
      verifying = w.verifying;
      digesting = w.digesting;
    }

add_found-IsValid :
    (keys : Items) (s : Session.Session) → IsValid s → IsValid (Objects.add_found keys s).1
unfolding Objects.add_found
add_found-IsValid Items.nil s v = v
add_found-IsValid (Items.cons (Json.obj d) keys) s v = elim (Option-cases (Objects.name_of d)) [
  | inl e ↦ rw (e, Objects.add_found) (add_found-IsValid keys s v)
  | inr (key_arn, e) ↦ rw (e, Objects.add_found) (add_found-IsValid keys _ (found_one key_arn s v))
]
add_found-IsValid (Items.cons j keys) s v = v

pub found-IsValid :
    (response : Option Fields) (s : Session.Session)
    → IsValid s
    → IsValid (Objects.found response s).1
unfolding Objects.found
found-IsValid none s v = v
found-IsValid (some response) s v = elim (Option-cases (Objects.keys_of response)) [
  | inl e ↦ rw (e, Objects.found) v
  | inr (keys, e) ↦ rw (e, Objects.found) (add_found-IsValid keys s v)
]

pub generated-IsValid :
    (kind : String) (response : Option Fields) (s : Session.Session)
    → IsValid s
    → IsValid (Objects.generated kind response s).1
unfolding Objects.generated Objects.add_pair
generated-IsValid kind none s v = v
generated-IsValid kind (some response) s v = elim (Option-cases (Objects.name_of response)) [
  | inl e ↦ rw (e, Objects.generated) v
  | inr (key_arn, e) ↦
      let w = add_handle-IsValid key_arn (add_handle key_arn s) (add_handle-IsValid key_arn s v) in
      rw (e, Objects.generated)
        (record {
          handles = w.handles;
          results = w.results;
          index = w.index;
          signing = w.signing;
          verifying = w.verifying;
          digesting = w.digesting;
        })
]

pub searching-IsValid :
    (template : List Attribute) (s : Session.Session)
    → IsValid s
    → IsValid (record s { find_template = some template; find_results = []; find_index = 0 })
searching-IsValid template s v = record {
  handles = v.handles;
  results = tt;
  index = omega arith;
  signing = v.signing;
  verifying = v.verifying;
  digesting = v.digesting;
}
