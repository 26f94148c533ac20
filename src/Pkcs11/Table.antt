-- ===== src/Pkcs11/Table.antt =====
-- Dictionaries keyed by handles, in the order of insertion.
use renesas_ra8m1_provisioni.Prelude.{
  ℕ, suc, ◌≤◌, ◌<◌, ◌≡◌, refl, Option, none, some, List, [], ◌∷◌, ◌==◌, ◌⊎◌, arith, if◌then◌else◌,
}

module _ {ℓ} {V : Type ℓ} where
  -- `d.get(k)`
  unfoldable pub lookup : ℕ → List (ℕ × V) → Option V
  lookup k [] = none
  lookup k ((j, v) ∷ d) = if j == k then some v else lookup k d

  -- `d[k] = v`
  unfoldable pub insert : ℕ → V → List (ℕ × V) → List (ℕ × V)
  insert k v [] = (k, v) ∷ []
  insert k v ((j, w) ∷ d) = if j == k then (j, v) ∷ d else (j, w) ∷ insert k v d

  -- `del d[k]`
  unfoldable pub erase : ℕ → List (ℕ × V) → List (ℕ × V)
  erase k [] = []
  erase k ((j, v) ∷ d) = if j == k then d else (j, v) ∷ erase k d

  pub lookup-insert :
      (k j : ℕ) (v : V) (d : List (ℕ × V))
      → lookup j (insert k v d) ≡ (if k == j then some v else lookup j d)
  unfolding lookup insert
  lookup-insert k j v [] = refl
  lookup-insert k j v ((i, w) ∷ d) = ground (arith, lookup-insert k j v d)

  -- The keys ascend, from a lower bound on and below an upper one.
  abbrev pub AreAscending : ℕ → ℕ → List (ℕ × V) → Type 0
  AreAscending low high [] = low ≤ high
  AreAscending low high ((k, v) ∷ d) = (low ≤ k) × AreAscending (suc k) high d

  pub AreAscending-le : (low high : ℕ) (d : List (ℕ × V)) → AreAscending low high d → low ≤ high
  AreAscending-le low high [] h = h
  AreAscending-le low high ((k, v) ∷ d) (h, hs) =
      omega (arith, h, AreAscending-le (suc k) high d hs)

  pub lookup_range :
      (low high k : ℕ) (v : V) (d : List (ℕ × V))
      → AreAscending low high d
      → lookup k d ≡ some v
      → (low ≤ k) × (k < high)
  unfolding lookup
  lookup_range low high k v [] h e = cc
  lookup_range low high k v ((j, w) ∷ d) (h, hs) e =
      ground (arith, AreAscending-le (suc j) high d hs, lookup_range (suc j) high k v d hs)

  -- A key at the bound is appended.
  pub AreAscending-insert :
      (low high : ℕ) (v : V) (d : List (ℕ × V))
      → AreAscending low high d
      → AreAscending low (suc high) (insert high v d)
  unfolding insert
  AreAscending-insert low high v [] h = (h, omega arith)
  AreAscending-insert low high v ((j, w) ∷ d) (h, hs) =
      ground (arith, AreAscending-le (suc j) high d hs, AreAscending-insert (suc j) high v d hs)

  -- A key that is there is written in its place.
  pub AreAscending-replace :
      (low high k : ℕ) (v w : V) (d : List (ℕ × V))
      → AreAscending low high d
      → lookup k d ≡ some v
      → AreAscending low high (insert k w d)
  unfolding lookup insert
  AreAscending-replace low high k v w [] h e = cc
  AreAscending-replace low high k v w ((j, u) ∷ d) (h, hs) e =
      ground (arith, AreAscending-replace (suc j) high k v w d hs)

  AreAscending-low :
      (low lower high : ℕ) (d : List (ℕ × V))
      → lower ≤ low
      → AreAscending low high d
      → AreAscending lower high d
  AreAscending-low low lower high [] l h = omega arith
  AreAscending-low low lower high ((j, u) ∷ d) l (h, hs) = (omega arith, hs)

  pub AreAscending-erase :
      (low high k : ℕ) (d : List (ℕ × V))
      → AreAscending low high d
      → AreAscending low high (erase k d)
  unfolding erase
  AreAscending-erase low high k [] h = h
  AreAscending-erase low high k ((j, u) ∷ d) (h, hs) = ground (
    arith,
    AreAscending-erase (suc j) high k d hs,
    AreAscending-low (suc j) low high d (omega arith) hs,
  )

  -- What is found after a removal was there before.
  pub lookup-erase :
      (low high k j : ℕ) (v : V) (d : List (ℕ × V))
      → AreAscending low high d
      → lookup j (erase k d) ≡ some v
      → lookup j d ≡ some v
  unfolding lookup erase
  lookup-erase low high k j v [] h e = e
  lookup-erase low high k j v ((i, u) ∷ d) (h, hs) e =
      ground (arith, lookup-erase (suc i) high k j v d hs, lookup_range (suc i) high j v d hs)

  pub insert_cases :
      (k j : ℕ) (v w : V) (d : List (ℕ × V))
      → lookup j (insert k v d) ≡ some w
      → (v ≡ w) ⊎ (lookup j d ≡ some w)
  insert_cases k j v w d e = ground (arith, lookup-insert k j v d)
