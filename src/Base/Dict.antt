-- ===== src/Base/Dict.antt =====
-- Go's maps as association lists: one entry for a key, in the order in which `range` visits them.
use mathlib.Core.Path.{◌≡◌, refl, subst, ◌∙◌}
use mathlib.Core.Bool.{false}
use mathlib.Core.Logic.{inl, inr}
use mathlib.Core.List.{List, [], ◌∷◌}
use mathlib.Core.Option.{Option, none, some}
use native.Mathlib.Omega.{arith}
use easy_proxies_v.Base.Tests.{if◌then◌else◌, Eq, ◌==◌, ==_iff, Bool-cases}

module _ {K : Type 0} {V : Type 0} ⦃e : Eq K⦄ where
  unfoldable pub lookup : K → List (K × V) → Option V
  lookup wanted [] = none
  lookup wanted ((key, value) ∷ rest) = if key == wanted then some value else lookup wanted rest

  unfoldable pub insert : K → V → List (K × V) → List (K × V)
  insert key value [] = (key, value) ∷ []
  insert key value ((first, old) ∷ rest) =
      if first == key then (key, value) ∷ rest else (first, old) ∷ insert key value rest

  unfoldable pub delete : K → List (K × V) → List (K × V)
  delete k [] = []
  delete k ((j, w) ∷ m) = let rest = delete k m in if j == k then rest else (j, w) ∷ rest

  -- What a key holds after a store: the stored value under that key, and what it held otherwise.
  pub lookup-insert :
      (key wanted : K) (value : V) (map : List (K × V))
      → lookup wanted (insert key value map)
        ≡ (if key == wanted then some value else lookup wanted map)
  unfolding lookup insert
  lookup-insert key wanted value [] = refl
  lookup-insert key wanted value ((first, old) ∷ rest) = ground (
    arith,
    ==_iff first wanted,
    ==_iff first key,
    ==_iff key wanted,
    lookup-insert key wanted value rest,
  )

  pub lookup-delete :
      (k j : K) (m : List (K × V)) → lookup j (delete k m) ≡ (if k == j then none else lookup j m)
  unfolding lookup delete
  lookup-delete k j [] = ground arith
  lookup-delete k j ((i, w) ∷ m) =
      ground (arith, ==_iff k j, ==_iff i k, ==_iff i j, lookup-delete k j m)

  pub lookup-cons_ne :
      (j k : K) (v w : V) (m : List (K × V))
      → (j == k) ≡ false
      → lookup k ((j, v) ∷ m) ≡ lookup k ((j, w) ∷ m)
  unfolding lookup
  lookup-cons_ne j k v w m h = rw h

  pub lookup-cons_tail :
      (j k : K) (v : V) (m n : List (K × V))
      → lookup k m ≡ lookup k n
      → lookup k ((j, v) ∷ m) ≡ lookup k ((j, v) ∷ n)
  unfolding lookup
  lookup-cons_tail j k v m n h = rw h

  -- A predicate over entries, which may read the key.
  abbrev pub Each {κ} : (K → V → Type κ) → List (K × V) → Type κ
  Each P [] = Unit
  Each P ((k, v) ∷ m) = P k v × Each P m

  pub Each-insert {κ} :
      (P : K → V → Type κ) (k : K) (v : V) (m : List (K × V))
      → P k v
      → Each P m
      → Each P (insert k v m)
  unfolding insert
  Each-insert P k v [] p h = (p, tt)
  Each-insert P k v ((j, w) ∷ m) p h = elim (Bool-cases (j == k)) [
    | inl same ↦ rw same (p, h.1)
    | inr other ↦ rw other (h.0, Each-insert P k v m p h.1)
  ]

  pub Each-lookup {κ} :
      (P : K → V → Type κ) (k : K) (m : List (K × V)) {v : V}
      → Each P m
      → lookup k m ≡ some v
      → P k v
  unfolding lookup
  Each-lookup P k [] h f = absurd (ground arith)
  Each-lookup P k ((j, w) ∷ m) {v} h f = elim (Bool-cases (j == k)) [
    | inl same ↦
        let value : w ≡ v = ground arith in
        subst (λ i. P i v) ((==_iff j k).0 same) (subst (P j) value h.0)
    | inr other ↦ Each-lookup P k m h.1 (rw other at f)
  ]

  pub Each-map {κ μ} :
      {P : K → V → Type κ} {Q : K → V → Type μ}
      → ((k : K) (v : V) → P k v → Q k v)
      → (m : List (K × V)) → Each P m
      → Each Q m
  Each-map f [] h = tt
  Each-map f ((k, v) ∷ m) h = (f k v h.0, Each-map f m h.1)

  -- No key twice.
  abbrev pub Distinct : List (K × V) → Type 0
  Distinct [] = Unit
  Distinct ((k, v) ∷ m) = (lookup k m ≡ none) × Distinct m

  pub Distinct-insert : (k : K) (v : V) (m : List (K × V)) → Distinct m → Distinct (insert k v m)
  unfolding insert lookup
  Distinct-insert k v [] h = (refl, tt)
  Distinct-insert k v ((j, w) ∷ m) h = elim (Bool-cases (j == k)) [
    | inl same ↦ rw same (subst (λ i. lookup i m ≡ none) ((==_iff j k).0 same) h.0, h.1)
    | inr other ↦ rw other (
      lookup-insert k j v m ∙ ground (arith, ==_iff j k, ==_iff k j, h.0),
      Distinct-insert k v m h.1,
    )
  ]
