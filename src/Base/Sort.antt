-- ===== src/Base/Sort.antt =====
-- Go's `sort.Slice`: a sort by a strict order.
use Prim.Native.Nat.{suc}
use mathlib.Core.Path.{◌≡◌, refl, ◌∙◌}
use mathlib.Core.Logic.{inl, inr}
use mathlib.Core.Bool.{Bool, true, false, ◌||◌}
use mathlib.Core.List.{List, [], ◌∷◌, ◌++◌}
use native.Mathlib.Omega.{arith}
use easy_proxies_v.Base.Tests.{if◌then◌else◌, Bool-cases, if_cases, Eq, ◌==◌}
use easy_proxies_v.Base.Lists.{length, All, All-map, contains, keep}

module _ {A : Type 0} (less : A → A → Bool) where
  -- `sort.Slice` by a strict order, which keeps equal elements in no promised order.
  abbrev pub insert_by : A → List A → List A
  insert_by x [] = x ∷ []
  insert_by x (y ∷ ys) = let rest = insert_by x ys in if less y x then y ∷ rest else x ∷ y ∷ ys

  unfoldable pub sort_by : List A → List A
  sort_by [] = []
  sort_by (x ∷ xs) = insert_by x (sort_by xs)

  length-insert_by : (x : A) (xs : List A) → length (insert_by x xs) ≡ suc (length xs)
  length-insert_by x [] = refl
  length-insert_by x (y ∷ ys) = ground (arith, length-insert_by x ys)

  pub length-sort_by : (xs : List A) → length (sort_by xs) ≡ length xs
  unfolding sort_by
  length-sort_by [] = refl
  length-sort_by (x ∷ xs) = omega (arith, length-insert_by x (sort_by xs), length-sort_by xs)

  All-insert_by {κ} :
      (P : A → Type κ) (x : A) (xs : List A) → P x → All P xs → All P (insert_by x xs)
  All-insert_by P x [] p h = (p, tt)
  All-insert_by P x (y ∷ ys) p h =
      if_cases (All P) (less y x) _ _ (λ _. (h.0, All-insert_by P x ys p h.1)) (λ _. (p, h))

  pub All-sort_by {κ} : (P : A → Type κ) (xs : List A) → All P xs → All P (sort_by xs)
  unfolding sort_by
  All-sort_by P [] h = tt
  All-sort_by P (x ∷ xs) h = All-insert_by P x (sort_by xs) h.0 (All-sort_by P xs h.1)

  All-insert_by_inv {κ} :
      (P : A → Type κ) (x : A) (xs : List A) → All P (insert_by x xs) → P x × All P xs
  All-insert_by_inv P x [] h = (h.0, tt)
  All-insert_by_inv P x (y ∷ ys) h = elim (Bool-cases (less y x)) [
    | inl e ↦
        let h' : P y × All P (insert_by x ys) = rw e at h in
        let (first, rest) = All-insert_by_inv P x ys h'.1 in (first, (h'.0, rest))
    | inr e ↦ let h' : P x × All P (y ∷ ys) = rw e at h in h'
  ]

  pub All-sort_by_inv {κ} : (P : A → Type κ) (xs : List A) → All P (sort_by xs) → All P xs
  unfolding sort_by
  All-sort_by_inv P [] h = tt
  All-sort_by_inv P (x ∷ xs) h =
      let (first, rest) = All-insert_by_inv P x (sort_by xs) h in (first, All-sort_by_inv P xs rest)

  length-keep-insert_by :
      (p : A → Bool) (x : A) (xs : List A)
      → length (keep p (insert_by x xs)) ≡ length (keep p (x ∷ xs))
  length-keep-insert_by p x [] = refl
  length-keep-insert_by p x (y ∷ ys) = ground (arith, length-keep-insert_by p x ys)

  -- Sorting moves elements only.
  pub length-keep-sort_by :
      (p : A → Bool) (xs : List A) → length (keep p (sort_by xs)) ≡ length (keep p xs)
  unfolding sort_by
  length-keep-sort_by p [] = refl
  length-keep-sort_by p (x ∷ xs) =
      ground (arith, length-keep-insert_by p x (sort_by xs), length-keep-sort_by p xs)

  -- No element is less than one before it.
  abbrev pub IsSorted : List A → Type 0
  IsSorted [] = Unit
  IsSorted (x ∷ xs) = All (λ y. less y x ≡ false) xs × IsSorted xs

  module _ (asym : (a b : A) → less a b ≡ true → less b a ≡ false)
      (trans : (a b c : A) → less a b ≡ false → less b c ≡ false → less a c ≡ false) where
    IsSorted-insert_by : (x : A) (xs : List A) → IsSorted xs → IsSorted (insert_by x xs)
    IsSorted-insert_by x [] h = (tt, tt)
    IsSorted-insert_by x (y ∷ ys) h =
        if_cases IsSorted (less y x) _ _
          (λ e. (
            All-insert_by (λ z. less z y ≡ false) x ys (asym y x e) h.0,
            IsSorted-insert_by x ys h.1,
          ))
          (λ e. ((e, All-map (λ z q. trans z y x q e) ys h.0), h))

    pub sort_by-IsSorted : (xs : List A) → IsSorted (sort_by xs)
    unfolding sort_by
    sort_by-IsSorted [] = tt
    sort_by-IsSorted (x ∷ xs) = IsSorted-insert_by x (sort_by xs) (sort_by-IsSorted xs)

pub contains-append_one :
    {A : Type 0} ⦃e : Eq A⦄ (a x : A) (xs : List A)
    → contains a (xs ++ x ∷ []) ≡ (contains a xs || x == a)
contains-append_one a x [] = ground arith
contains-append_one a x (y ∷ ys) = ground (arith, contains-append_one a x ys)

contains-insert_by :
    {A : Type 0} ⦃e : Eq A⦄ (less : A → A → Bool) (a x : A) (xs : List A)
    → contains a (insert_by less x xs) ≡ (x == a || contains a xs)
contains-insert_by less a x [] = ground arith
contains-insert_by less a x (y ∷ ys) = ground (arith, contains-insert_by less a x ys)

pub contains-sort_by :
    {A : Type 0} ⦃e : Eq A⦄ (less : A → A → Bool) (a : A) (xs : List A)
    → contains a (sort_by less xs) ≡ contains a xs
unfolding sort_by
contains-sort_by less a [] = refl
contains-sort_by less a (x ∷ xs) =
    contains-insert_by less a x (sort_by less xs) ∙ rw (contains-sort_by less a xs)
