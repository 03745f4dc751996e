-- ===== src/Healer/Slots.antt =====
-- How many candidates get a slot in a plan of internal/group/healer.go.

use easy_proxies_v.Base.{
  ==_iff, Bool, Bool-cases, List, [], arith, contains, false, if_cases, inl, inr, keep, length,
  length-append, ltb_ℤ, map, none, not, pos, refl, subst, sym, true, ℕ, ℤ, ℤ_eq, ◌&&◌, ◌+◌, ◌==◌,
  ◌||◌, ◌∷◌, ◌≡◌, ◌≤◌,
}
use easy_proxies_v.Healer.Plan.{
  chosen, invalid_candidate, select_members, select_node, select_where,
}
use easy_proxies_v.Healer.Policy.{HealCandidate, HealPolicy}

select_node-length :
    (target : ℕ) (id : ℤ) (selected : List ℤ)
    → length selected ≤ target
    → length (select_node (pos target) id selected) ≤ target
unfolding select_node
select_node-length target id selected h =
    if_cases (λ (ids : List ℤ). length ids ≤ target)
      (ltb_ℤ (pos (length selected)) (pos target) && not (contains id selected)) _ _
      (λ e. ground (arith, length-append selected (id ∷ []))) (λ _. h)

select_where-length :
    (target : ℕ) (p : HealCandidate → Bool) (candidates : List HealCandidate) (selected : List ℤ)
    → length selected ≤ target
    → length (select_where (pos target) p candidates selected) ≤ target
unfolding select_where
select_where-length target p [] selected h = h
select_where-length target p (n ∷ rest) selected h = select_where-length target p rest _ (
    if_cases (λ (ids : List ℤ). length ids ≤ target) (p n) _ _
      (λ _. select_node-length target n.node_id selected h) (λ _. h))

pub select_members-length :
    (policy : HealPolicy) (target : ℕ) (healthy : HealCandidate → Bool)
    (candidates : List HealCandidate)
    → policy.target_size ≡ pos target
    → length (select_members policy healthy candidates) ≤ target
unfolding select_members
select_members-length policy target healthy candidates e =
    let current =
      select_where-length target (λ n. n.active && healthy n) candidates [] (omega arith) in
    rw e (
      select_where-length target (λ n. n.active) candidates _
        (if_cases (λ (ids : List ℤ). length ids ≤ target) _ _ _
          (λ _. select_where-length target (λ n. not n.active && healthy n) candidates _ current)
          (λ _. current)))

-- No id twice, and none of the seen.
abbrev pub Fresh : List ℤ → List HealCandidate → Type 0
Fresh seen [] = Unit
Fresh seen (n ∷ rest) = (contains n.node_id seen ≡ false) × Fresh (n.node_id ∷ seen) rest

pub invalid_candidate-Fresh :
    (candidates : List HealCandidate) (seen : List ℤ)
    → invalid_candidate candidates seen ≡ none
    → Fresh seen candidates
unfolding invalid_candidate
invalid_candidate-Fresh [] seen = λ h. tt
invalid_candidate-Fresh (n ∷ rest) seen =
    elim (Bool-cases (not (ltb_ℤ (pos 0) n.node_id) || contains n.node_id seen)) [
      | inl e ↦ rw e (λ h. absurd (ground arith))
      | inr e ↦ rw e (λ h. (ground arith, invalid_candidate-Fresh rest (n.node_id ∷ seen) h))
    ]

-- A fresh list has an id that was seen nowhere.
Fresh-count_seen :
    (s : ℤ) (seen : List ℤ) (candidates : List HealCandidate)
    → contains s seen ≡ true
    → Fresh seen candidates
    → length (keep (λ (n : HealCandidate). s == n.node_id) candidates) ≡ 0
Fresh-count_seen s seen [] known h = refl
Fresh-count_seen s seen (n ∷ rest) known h = elim (Bool-cases (s == n.node_id)) [
  | inl e ↦
      let here : contains n.node_id seen ≡ true =
        subst (λ (i : ℤ). contains i seen ≡ true) ((==_iff s n.node_id).0 e) known in
      absurd (ground (arith, h.0, here))
  | inr e ↦
      let still : contains s (n.node_id ∷ seen) ≡ true = ground (arith, known) in
      rw e (Fresh-count_seen s (n.node_id ∷ seen) rest still h.1)
]

Fresh-count_one :
    (s : ℤ) (seen : List ℤ) (candidates : List HealCandidate)
    → Fresh seen candidates
    → length (keep (λ (n : HealCandidate). s == n.node_id) candidates) ≤ 1
Fresh-count_one s seen [] h = omega arith
Fresh-count_one s seen (n ∷ rest) h = elim (Bool-cases (s == n.node_id)) [
  | inl e ↦
      let known : contains s (n.node_id ∷ seen) ≡ true =
        let same = (==_iff s n.node_id).0 e in
        let back : (n.node_id == s) ≡ true = (==_iff n.node_id s).1 (sym same) in
        ground (arith, back) in
      rw e (omega (arith, Fresh-count_seen s (n.node_id ∷ seen) rest known h.1))
  | inr e ↦ rw e (Fresh-count_one s (n.node_id ∷ seen) rest h.1)
]

keep_or-length :
    {A : Type 0} (p q : A → Bool) (xs : List A)
    → length (keep (λ x. p x || q x) xs) ≤ length (keep p xs) + length (keep q xs)
keep_or-length p q [] = omega arith
keep_or-length p q (x ∷ xs) = ground (arith, keep_or-length p q xs)

keep-false-length : {A : Type 0} (xs : List A) → length (keep (λ (x : A). false) xs) ≡ 0
keep-false-length [] = refl
keep-false-length (x ∷ xs) = keep-false-length xs

-- As many candidates are chosen as there are slots, at most.
pub chosen-length :
    (seen : List ℤ) (candidates : List HealCandidate)
    → Fresh seen candidates
    → (selected : List ℤ) → length (keep (chosen selected) candidates) ≤ length selected
chosen-length seen candidates h [] = omega (arith, keep-false-length candidates)
chosen-length seen candidates h (s ∷ selected) = omega (
  arith,
  keep_or-length (λ (n : HealCandidate). s == n.node_id) (chosen selected) candidates,
  Fresh-count_one s seen candidates h,
  chosen-length seen candidates h selected,
)

pub length-map : {A B : Type 0} (f : A → B) (xs : List A) → length (map f xs) ≡ length xs
length-map f [] = refl
length-map f (x ∷ xs) = omega (arith, length-map f xs)
