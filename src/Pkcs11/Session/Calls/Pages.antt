-- ===== src/Pkcs11/Session/Calls/Pages.antt =====
-- The pages of a search of security/broker/pkcs11/session.py.
use renesas_ra8m1_provisioni.Prelude.{
  ℕ, zero, suc, ◌+◌, ◌≡◌, refl, sym, ap, ◌∙◌, inl, inr, true, false, List, [], ◌∷◌, ◌++◌, arith,
  length, length-append, take, drop, Bool-cases, is_some,
}
use renesas_ra8m1_provisioni.Pkcs11.Types.{Ckr}
use renesas_ra8m1_provisioni.Pkcs11.Session as Session
use renesas_ra8m1_provisioni.Pkcs11.Session.{Broker}
use renesas_ra8m1_provisioni.Pkcs11.Session.Objects as Objects
use renesas_ra8m1_provisioni.Pkcs11.Session.Objects.{add_handle}

suc-add : (i j : ℕ) → suc i + j ≡ suc (i + j)
suc-add i j = omega arith

drop-drop : (i j : ℕ) (xs : List ℕ) → drop (i + j) xs ≡ drop j (drop i xs)
drop-drop zero j xs = let e : 0 + j ≡ j = omega arith in ap (λ n. drop n xs) e
drop-drop (suc i) zero [] = rw (suc-add i 0) refl
drop-drop (suc i) (suc j) [] = rw (suc-add i (suc j)) refl
drop-drop (suc i) j (x ∷ xs) = rw (suc-add i j) (drop-drop i j xs)

take-pages :
    (k m : ℕ) (xs : List ℕ) → take (k + m) xs ≡ take k xs ++ take m (drop (length (take k xs)) xs)
take-pages zero m xs = let e : 0 + m ≡ m = omega arith in ap (λ n. take n xs) e
take-pages (suc k) zero [] = rw (suc-add k 0) refl
take-pages (suc k) (suc m) [] = rw (suc-add k (suc m)) refl
take-pages (suc k) m (x ∷ xs) = rw (suc-add k m) (ap (λ l. x ∷ l) (take-pages k m xs))

-- What a page does.
abbrev pub page : ℕ → Session.Session → List ℕ
page n s = take n (drop s.find_index s.find_results)

abbrev pub paged : ℕ → Session.Session → Session.Session
paged n s = record s { find_index = s.find_index + length (page n s) }

pub find_objects_active :
    (n : ℕ) (s : Session.Session)
    → is_some s.find_template ≡ true
    → Objects.find_objects n s ≡ ((Ckr.ok, page n s), paged n s)
unfolding Objects.find_objects
find_objects_active n s e = simp (e, Objects.find_objects)

find_objects_inactive :
    (n : ℕ) (s : Session.Session)
    → is_some s.find_template ≡ false
    → Objects.find_objects n s ≡ ((Ckr.operation_not_initialized, []), s)
unfolding Objects.find_objects
find_objects_inactive n s e = simp (e, Objects.find_objects)

page-pages : (k m : ℕ) (s : Session.Session) → page (k + m) s ≡ page k s ++ page m (paged k s)
page-pages k m s =
    take-pages k m (drop s.find_index s.find_results)
    ∙ ap (λ xs. page k s ++ take m xs)
        (sym (drop-drop s.find_index (length (page k s)) s.find_results))

paged-pages : (k m : ℕ) (s : Session.Session) → paged (k + m) s ≡ paged m (paged k s)
paged-pages k m s =
    let n : s.find_index + length (page (k + m) s)
        ≡ s.find_index + length (page k s) + length (page m (paged k s)) =
      omega (arith, ap length (page-pages k m s), length-append (page k s) (page m (paged k s))) in
    ap (λ i. record s { find_index = i }) n

-- Two pages of a search are one page of both sizes, and leave the search where that one does.
pub find_objects_pages :
    (k m : ℕ) (s : Session.Session)
    → let first = Objects.find_objects k s in
      let second = Objects.find_objects m first.1 in
      let both = Objects.find_objects (k + m) s in
      (both.0.1 ≡ first.0.1 ++ second.0.1) × (both.0.0 ≡ second.0.0) × (both.1 ≡ second.1)
find_objects_pages k m s = elim (Bool-cases (is_some s.find_template)) [
  | inr e ↦
      let i : (n : ℕ) → Objects.find_objects n s ≡ ((Ckr.operation_not_initialized, []), s) =
        λ n. find_objects_inactive n s e in
      let second : Objects.find_objects m (Objects.find_objects k s).1
          ≡ ((Ckr.operation_not_initialized, []), s) =
        ap (λ z. Objects.find_objects m z.1) (i k) ∙ i m in
      rw (second, i k, i (k + m)) (refl, refl, refl)
  | inl e ↦
      let second : Objects.find_objects m (Objects.find_objects k s).1
          ≡ ((Ckr.ok, page m (paged k s)), paged m (paged k s)) =
        ap (λ z. Objects.find_objects m z.1) (find_objects_active k s e)
        ∙ find_objects_active m (paged k s) e in
      rw (second, find_objects_active k s e, find_objects_active (k + m) s e)
        (page-pages k m s, refl, paged-pages k m s)
]
