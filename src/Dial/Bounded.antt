-- ===== src/Dial/Bounded.antt =====
-- The index that `selectionIndex` gives is one of the candidates'.
use native.Mathlib.Nat.{mod-lt}
use easy_proxies_v.Base.{
  Bool-cases, List, Option, Option-cases, [], arith, if_cases, if◌then◌else◌, inl, inr, leb, length,
  ltb, nat_eq, none, option_cases, some, suc, zero, ℕ, ◌%◌, ◌+◌, ◌-◌, ◌/◌, ◌<◌, ◌^◌, ◌||◌, ◌∷◌, ◌≡◌,
  ◌≤◌,
}
use easy_proxies_v.Dial.Select.{
  Dispatch, MemberRef, Snapshot, current_at, first_candidate, get_elem?, index_of, index_of_current,
  least_active, mode_balance, mode_balance_p2c, mode_fixed, mode_lowest_latency, mode_random,
  mode_sequential, next_fixed_index, or_else, same_ref, selection_index, two_choice_index,
}

get_elem?-lt :
    (xs : List MemberRef) (n : ℕ) {m : MemberRef} → get_elem? xs n ≡ some m → n < length xs
get_elem?-lt [] n e = absurd (ground (arith, e))
get_elem?-lt (x ∷ xs) zero e = omega arith
get_elem?-lt (x ∷ xs) (suc n) e = omega (arith, get_elem?-lt xs n e)

index_of-lt : (m : MemberRef) (xs : List MemberRef) (n : ℕ) → index_of m xs ≡ some n → n < length xs
unfolding index_of
index_of-lt m [] n e = absurd (ground (arith, e))
index_of-lt m (x ∷ xs) n e = elim (Bool-cases (same_ref x m)) [
  | inl here ↦ let zeroth : some 0 ≡ some n = rw here at e in ground (arith, zeroth)
  | inr there ↦ elim (Option-cases (index_of m xs)) [
    | inl f ↦ absurd (ground (arith, rw (there, f) at e))
    | inr (k, f) ↦
        let later : some (suc k) ≡ some n = rw (there, f) at e in
        let place = index_of-lt m xs k f in ground (arith, later, place)
  ]
]

least_active-lt :
    (bound index selected min_active : ℕ) (xs : List MemberRef)
    → selected < bound
    → index + length xs ≤ bound
    → least_active index selected min_active xs < bound
unfolding least_active
least_active-lt bound index selected min_active [] s h = s
least_active-lt bound index selected min_active (x ∷ xs) s h =
    let chosen = nat_eq index 0 || ltb x.active min_active in
    let next : (if chosen then index else selected) < bound =
      if_cases (λ (n : ℕ). n < bound) chosen index selected (λ _. omega (arith, h)) (λ _. s) in
    let rest =
      least_active-lt bound (index + 1) (if chosen then index else selected)
        (if chosen then x.active else min_active) xs next (omega (arith, h)) in
    if_cases (λ (n : ℕ). n < bound) (nat_eq x.active 0) _ _ (λ _. omega (arith, h)) (λ _. rest)

two_choice_index-lt :
    (xs : List MemberRef) (random : ℕ) → 0 < length xs → two_choice_index xs random < length xs
unfolding two_choice_index
two_choice_index-lt xs random h =
    let first = (random % 2 ^ 32) % length xs in
    let drawn = (random / 2 ^ 32) % (length xs - 1) in
    let second = if leb first drawn then drawn + 1 else drawn in
    let P : ℕ → Type 0 = λ n. n < length xs in
    let bounded : first < length xs = mod-lt (random % 2 ^ 32) h in
    if_cases P (nat_eq (length xs) 1) _ _ (λ _. h)
      (λ _.
        option_cases P (get_elem? xs second) first _ (λ _. bounded)
          (λ b e.
            option_cases P (get_elem? xs first) first _ (λ _. bounded)
              (λ a f.
                if_cases P (ltb b.active a.active) second first (λ _. get_elem?-lt xs second e)
                  (λ _. bounded))))

first_candidate-lt :
    (xs ring : List MemberRef) → 0 < length xs → first_candidate xs ring < length xs
unfolding first_candidate
first_candidate-lt xs [] h = h
first_candidate-lt xs (m ∷ ring) h =
    option_cases (λ (n : ℕ). n < length xs) (index_of m xs) _ (λ n. n)
      (λ _. first_candidate-lt xs ring h) (λ n e. index_of-lt m xs n e)

next_fixed_index-lt :
    (snapshot : Snapshot) (xs : List MemberRef) (previous : Option MemberRef)
    → 0 < length xs
    → next_fixed_index snapshot xs previous < length xs
unfolding next_fixed_index
next_fixed_index-lt snapshot xs none h = h
next_fixed_index-lt snapshot xs (some p) h =
    option_cases (λ (n : ℕ). n < length xs) (index_of p snapshot.all_members) 0 _ (λ _. h)
      (λ n e. first_candidate-lt xs _ h)

-- An index, if there is one, is one of the list's.
abbrev IsPlace : List MemberRef → Option ℕ → Type 0
IsPlace xs none = Unit
IsPlace xs (some n) = n < length xs

current_at-IsPlace :
    (c : MemberRef) (indexed xs : List MemberRef) → IsPlace xs (current_at c indexed xs)
current_at-IsPlace c indexed xs =
    option_cases (IsPlace xs) (index_of c indexed) none _ (λ _. tt)
      (λ n _.
        option_cases (IsPlace xs) (get_elem? xs n) none _ (λ _. tt)
          (λ m e.
            if_cases (IsPlace xs) (same_ref m c) (some n) none (λ _. get_elem?-lt xs n e)
              (λ _. tt)))

or_else-IsPlace :
    (xs : List MemberRef) (a b : Option ℕ) → IsPlace xs a → IsPlace xs b → IsPlace xs (or_else a b)
or_else-IsPlace xs none b h k = k
or_else-IsPlace xs (some n) b h k = h

index_of_current-IsPlace :
    (snapshot : Snapshot) (xs : List MemberRef) (current : Option MemberRef)
    → IsPlace xs (index_of_current snapshot xs current)
unfolding index_of_current
index_of_current-IsPlace snapshot xs none = tt
index_of_current-IsPlace snapshot xs (some c) =
    or_else-IsPlace xs _ _ (current_at-IsPlace c snapshot.members xs) (
      or_else-IsPlace xs _ _ (current_at-IsPlace c snapshot.tcp_members xs)
        (current_at-IsPlace c snapshot.udp_members xs))

place_or :
    (xs : List MemberRef) (o : Option ℕ) (other : ℕ)
    → IsPlace xs o
    → other < length xs
    → elim o [ none ↦ other | some n ↦ n ] < length xs
place_or xs none other h k = k
place_or xs (some n) other h k = h

-- The first attempt of a dial is at an eligible member, in every mode.
pub selection_index-lt :
    (d : Dispatch) (snapshot : Snapshot) (xs : List MemberRef)
    → 0 < length xs
    → selection_index d snapshot xs < length xs
unfolding selection_index
selection_index-lt d snapshot xs h =
    let here = index_of_current-IsPlace snapshot xs d.current in
    elim d.mode as (λ m. selection_index (record d { mode = m }) snapshot xs < length xs) [
      | mode_sequential ↦ mod-lt d.round_robin h
      | mode_random ↦ mod-lt d.random h
      | mode_balance ↦ least_active-lt (length xs) 0 0 0 xs h (omega arith)
      | mode_balance_p2c ↦ two_choice_index-lt xs d.random h
      | mode_fixed ↦
          place_or xs (index_of_current snapshot xs d.current)
            (next_fixed_index snapshot xs d.current) here
            (next_fixed_index-lt snapshot xs d.current h)
      | mode_lowest_latency ↦ place_or xs (index_of_current snapshot xs d.current) 0 here h
    ]
