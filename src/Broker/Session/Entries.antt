-- ===== src/Broker/Session/Entries.antt =====
-- Dictionaries whose keys are distinct: deleting and adding an entry.
use mathlib.Core.Path.{subst}
use renesas_ra8m1_provisioni.Prelude.{
  suc, ◌≤◌, String, ◌≡◌, ◌≢◌, refl, sym, ap, inl, inr, Bool-cases, true, false, none, List, [], ◌∷◌,
  arith, if◌then◌else◌, str_eq, str_eq_iff, length,
}
use renesas_ra8m1_provisioni.Broker.Text.{lookup, insert, erase, lookup-insert}

module _ {ℓ} {V : Type ℓ} where
  abbrev pub IsDistinct : List (String × V) → Type ℓ
  IsDistinct [] = Unit {ℓ}
  IsDistinct ((k, v) ∷ d) = (lookup k d ≡ none) × IsDistinct d

  pub lookup-erase_ne :
      (k j : String) (d : List (String × V)) → k ≢ j → lookup j (erase k d) ≡ lookup j d
  unfolding lookup erase
  lookup-erase_ne k j [] n = refl
  lookup-erase_ne k j ((i, v) ∷ d) n =
      ground (arith, str_eq_iff i k, str_eq_iff i j, lookup-erase_ne k j d n)

  pub lookup-erase_self :
      (k : String) (d : List (String × V)) → IsDistinct d → lookup k (erase k d) ≡ none
  unfolding lookup erase
  lookup-erase_self k [] h = refl
  lookup-erase_self k ((i, v) ∷ d) (h, hs) =
      ground (arith, str_eq_iff i k, lookup-erase_self k d hs, ap (λ z. lookup z d))

  pub lookup-erase-none :
      (k j : String) (d : List (String × V)) → lookup j d ≡ none → lookup j (erase k d) ≡ none
  unfolding lookup erase
  lookup-erase-none k j [] n = refl
  lookup-erase-none k j ((i, v) ∷ d) n =
      ground (arith, str_eq_iff i k, str_eq_iff i j, lookup-erase-none k j d)

  pub erase-IsDistinct :
      (k : String) (d : List (String × V)) → IsDistinct d → IsDistinct (erase k d)
  unfolding erase
  erase-IsDistinct k [] h = tt
  erase-IsDistinct k ((i, v) ∷ d) (h, hs) =
      elim (str_eq i k) as (λ b. IsDistinct (if b then d else (i, v) ∷ erase k d)) [
        | true ↦ hs
        | false ↦ (lookup-erase-none k i d h, erase-IsDistinct k d hs)
      ]

  pub length-erase : (k : String) (d : List (String × V)) → length (erase k d) ≤ length d
  unfolding erase
  length-erase k [] = omega arith
  length-erase k ((i, v) ∷ d) = ground (arith, length-erase k d)

  pub length-insert_fresh :
      (k : String) (v : V) (d : List (String × V))
      → lookup k d ≡ none
      → length (insert k v d) ≡ suc (length d)
  unfolding lookup insert
  length-insert_fresh k v [] h = refl
  length-insert_fresh k v ((i, w) ∷ d) h = ground (arith, length-insert_fresh k v d)

  lookup-insert-none :
      (k j : String) (v : V) (d : List (String × V))
      → k ≢ j
      → lookup j d ≡ none
      → lookup j (insert k v d) ≡ none
  lookup-insert-none k j v d n h = ground (arith, lookup-insert k j v d, str_eq_iff k j)

  pub insert_fresh-IsDistinct :
      (k : String) (v : V) (d : List (String × V))
      → lookup k d ≡ none
      → IsDistinct d
      → IsDistinct (insert k v d)
  unfolding lookup insert
  insert_fresh-IsDistinct k v [] h hs = (refl, tt)
  insert_fresh-IsDistinct k v ((i, w) ∷ d) h (hi, hs) = elim (Bool-cases (str_eq i k)) [
    | inl e ↦ absurd (ground arith)
    | inr e ↦
        subst (λ b. IsDistinct (if b then (i, v) ∷ d else (i, w) ∷ insert k v d)) (sym e)
          (
            lookup-insert-none k i v d (ground (arith, str_eq_iff i k)) hi,
            insert_fresh-IsDistinct k v d (ground arith) hs,
          )
  ]
