-- ===== src/Dial/Rotation.antt =====
-- A dial tries the eligible members in a circle, each at most once.

use native.Mathlib.Nat.{mod-eq_of_lt, mod-eq-sub-mod}
use easy_proxies_v.Base.{
  Bool-cases, List, [], ap, arith, drop, inl, inr, length, length-append, length-drop, length-take,
  ltb, ltb→lt, refl, some, suc, sym, take, zero, ℕ, ◌%◌, ◌++◌, ◌+◌, ◌-◌, ◌<◌, ◌∙◌, ◌∷◌, ◌≡◌, ◌≤◌,
}
use easy_proxies_v.Dial.Attempt.{Cursor}
use easy_proxies_v.Dial.Select.{MemberRef, get_elem?, rotate}

-- The members that a cursor still has to give.

unfoldable pub remaining : Cursor → List MemberRef
remaining c = drop c.used (rotate c.start c.members)

pub get_elem?-drop {ℓ} :
    {A : Type ℓ} (xs : List A) (n : ℕ)
    → n < length xs
    → (a : A) × (get_elem? xs n ≡ some a) × (drop n xs ≡ a ∷ drop (suc n) xs)
get_elem?-drop [] n h = absurd (omega (arith, h))
get_elem?-drop (x ∷ xs) zero h = (x, refl, refl)
get_elem?-drop (x ∷ xs) (suc n) h = get_elem?-drop xs n (omega (arith, h))

get_elem?-append_left {ℓ} :
    {A : Type ℓ} (xs ys : List A) (n : ℕ) → n < length xs → get_elem? (xs ++ ys) n ≡ get_elem? xs n
get_elem?-append_left [] ys n h = absurd (omega (arith, h))
get_elem?-append_left (x ∷ xs) ys zero h = refl
get_elem?-append_left (x ∷ xs) ys (suc n) h = get_elem?-append_left xs ys n (omega (arith, h))

get_elem?-append_right {ℓ} :
    {A : Type ℓ} (xs ys : List A) (n : ℕ) → get_elem? (xs ++ ys) (length xs + n) ≡ get_elem? ys n
get_elem?-append_right [] ys n = let e : 0 + n ≡ n = omega arith in ap (get_elem? ys) e
get_elem?-append_right (x ∷ xs) ys n =
    let e : suc (length xs) + n ≡ suc (length xs + n) = omega arith in
    ap (get_elem? (x ∷ (xs ++ ys))) e ∙ get_elem?-append_right xs ys n

get_elem?-take {ℓ} :
    {A : Type ℓ} (xs : List A) (m n : ℕ) → n < m → get_elem? (take m xs) n ≡ get_elem? xs n
get_elem?-take xs zero n h = absurd (omega (arith, h))
get_elem?-take [] (suc m) n h = refl
get_elem?-take (x ∷ xs) (suc m) zero h = refl
get_elem?-take (x ∷ xs) (suc m) (suc n) h = get_elem?-take xs m n (omega (arith, h))

get_elem?-of_drop {ℓ} :
    {A : Type ℓ} (xs : List A) (m n : ℕ) → get_elem? (drop m xs) n ≡ get_elem? xs (m + n)
get_elem?-of_drop xs zero n = let e : n ≡ 0 + n = omega arith in ap (get_elem? xs) e
get_elem?-of_drop [] (suc m) n = refl
get_elem?-of_drop (x ∷ xs) (suc m) n =
    let e : suc (m + n) ≡ suc m + n = omega arith in
    get_elem?-of_drop xs m n ∙ ap (get_elem? (x ∷ xs)) e

pub length-rotate {ℓ} :
    {A : Type ℓ} (start : ℕ) (xs : List A) → length (rotate start xs) ≡ length xs
length-rotate start xs = omega (
  arith,
  length-append (drop start xs) (take start xs),
  length-drop start xs,
  length-take start xs,
)

-- Position `n` of the circle is position `(start + n) % length` of the list.
pub get_elem?-rotate {ℓ} :
    {A : Type ℓ} (start n : ℕ) (xs : List A)
    → start < length xs
    → n < length xs
    → get_elem? (rotate start xs) n ≡ get_elem? xs ((start + n) % length xs)
get_elem?-rotate start n xs s h = elim (Bool-cases (ltb n (length xs - start))) [
  | inl front ↦
      let place : start + n ≡ (start + n) % length xs =
        sym (mod-eq_of_lt (omega (arith, s, ltb→lt n (length xs - start) front))) in
      get_elem?-append_left (drop start xs) (take start xs) n
        (omega (arith, length-drop start xs, ltb→lt n (length xs - start) front))
      ∙ get_elem?-of_drop xs start n
      ∙ ap (get_elem? xs) place
  | inr back ↦
      let late : length xs - start ≤ n = ground (arith, back) in
      let k = n - (length xs - start) in
      let split : n ≡ length (drop start xs) + k = omega (arith, length-drop start xs, late) in
      let place : k ≡ (start + n) % length xs = sym (
        mod-eq-sub-mod (omega (arith, s, late))
        ∙ mod-eq_of_lt (omega (arith, s, h, late))
        ∙ omega (arith, s, late)) in
      ap (get_elem? (rotate start xs)) split
      ∙ get_elem?-append_right (drop start xs) (take start xs) k
      ∙ get_elem?-take xs start k (omega (arith, s, h, late))
      ∙ ap (get_elem? xs) place
]

pub drop_end {ℓ} : {A : Type ℓ} (n : ℕ) (xs : List A) → length xs ≤ n → drop n xs ≡ []
drop_end zero [] h = refl
drop_end zero (x ∷ xs) h = absurd (omega (arith, h))
drop_end (suc n) [] h = refl
drop_end (suc n) (x ∷ xs) h = drop_end n xs (omega (arith, h))
