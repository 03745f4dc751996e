-- ===== src/Tags/Mutex.antt =====
-- Which of the matched rules are applied.

use mathlib.Core.List.{append_assoc, append-nil}
use easy_proxies_v.Base.{
  ==_iff, Bool, Bool-cases, List, Option, [], arith, false, if_cases, if◌then◌else◌, inl, inr,
  insert, keep, length, length-keep-append_one, length-keep-sort_by, lookup, lookup-insert, nat_eq,
  none, refl, some, sort_by, subst, sym, take, true, ℕ, ℕ_eq, ◌&&◌, ◌++◌, ◌+◌, ◌==◌, ◌∙◌, ◌∷◌, ◌≡◌,
}
use easy_proxies_v.Tags.Resolve.{
  Progress, Rule, ShadowNote, TagMeta, contend, occupy_manual, precedes, resolve_rules, shadow_note,
  visit_rule, visit_rules,
}

-- The holder of a group; no tag holds the group 0.
abbrev pub holder : ℕ → List (ℕ × TagMeta) → Option TagMeta
holder g occupants = if g == 0 then none else lookup g occupants

-- Whether a shadow note is about a tag in a group.
abbrev pub note_is : ℕ → ℕ → ShadowNote → Bool
note_is t g n = n.tag_id == t && n.mutex_group_id == g

module _ {C : Type 0} where
  abbrev pub in_group : ℕ → Rule C → Bool
  in_group g r = r.mutex_group_id == g

  -- The rules of a group that it lets through, when they come in this order.
  abbrev pub let_through : ℕ → Option TagMeta → List (Rule C) → List (Rule C)
  let_through g (some winner) rules = []
  let_through g none rules =
      if g == 0 then keep (in_group g) rules else take 1 (keep (in_group g) rules)

  keep-append_one :
      (g : ℕ) (xs : List (Rule C)) (r : Rule C)
      → keep (in_group g) (xs ++ r ∷ [])
        ≡ (if in_group g r then keep (in_group g) xs ++ r ∷ [] else keep (in_group g) xs)
  keep-append_one g [] r = ground arith
  keep-append_one g (x ∷ xs) r = ground (arith, keep-append_one g xs r)

  let_through-skip :
      (g : ℕ) (h : Option TagMeta) (r : Rule C) (rest : List (Rule C))
      → in_group g r ≡ false
      → let_through g h (r ∷ rest) ≡ let_through g h rest
  let_through-skip g none r rest e = rw e
  let_through-skip g (some m) r rest e = refl

  let_through-zero :
      (g : ℕ) (occupants : List (ℕ × TagMeta)) (rules : List (Rule C))
      → (g == 0) ≡ true
      → let_through g (holder g occupants) rules ≡ keep (in_group g) rules
  let_through-zero g occupants rules e =
      subst (λ (k : ℕ). let_through k (holder k occupants) rules ≡ keep (in_group k) rules)
        (sym ((==_iff g 0).0 e)) refl

  -- What is applied of a group, with what the rest lets through.
  abbrev applied_with : ℕ → List (Rule C) → Progress C → List (Rule C)
  applied_with g rest p = keep (in_group g) p.applied ++ let_through g (holder g p.occupants) rest

  applied_with-ungrouped :
      (g : ℕ) (r : Rule C) (rest : List (Rule C)) (p : Progress C)
      → (r.mutex_group_id == 0) ≡ true
      → applied_with g rest (record p { applied = p.applied ++ r ∷ [] })
        ≡ applied_with g (r ∷ rest) p
  applied_with-ungrouped g r rest p zero_group = elim (Bool-cases (g == 0)) [
    | inl e ↦
        let here : in_group g r ≡ true = ground (arith, zero_group, e) in
        let mine : keep (in_group g) (r ∷ rest) ≡ r ∷ keep (in_group g) rest = rw here in
        rw
          (
            keep-append_one g p.applied r,
            here,
            let_through-zero g p.occupants rest e,
            let_through-zero g p.occupants (r ∷ rest) e,
            mine,
          )
          (append_assoc (keep (in_group g) p.applied) (r ∷ []) (keep (in_group g) rest))
    | inr e ↦
        let away : in_group g r ≡ false = ground (arith, zero_group, e) in
        rw (keep-append_one g p.applied r, let_through-skip g (holder g p.occupants) r rest away)
          (rw away)
  ]

  contend-applied_with :
      (g : ℕ) (by_hand : List (ℕ × TagMeta)) (r : Rule C) (rest : List (Rule C)) (p : Progress C)
      (held : Option TagMeta)
      → lookup r.mutex_group_id p.occupants ≡ held
      → (r.mutex_group_id == 0) ≡ false
      → applied_with g rest (contend by_hand r held p) ≡ applied_with g (r ∷ rest) p
  unfolding contend
  contend-applied_with g by_hand r rest p (some winner) held grouped =
      elim (Bool-cases (in_group g r)) [
        | inl e ↦
            let taken : holder g p.occupants ≡ some winner =
              let same = (==_iff r.mutex_group_id g).0 e in rw (← same, grouped) held in
            rw taken
        | inr e ↦ rw (let_through-skip g (holder g p.occupants) r rest e)
      ]
  contend-applied_with g by_hand r rest p none held grouped = elim (Bool-cases (in_group g r)) [
    | inl e ↦
        let same = (==_iff r.mutex_group_id g).0 e in
        let free : holder g p.occupants ≡ none = rw (← same, grouped) held in
        let taken : holder g (insert r.mutex_group_id r.meta p.occupants) ≡ some r.meta =
          rw (lookup-insert r.mutex_group_id g r.meta p.occupants, e) (rw (← same, grouped)) in
        rw (keep-append_one g p.applied r, taken, free, e)
          (let held_group : nat_eq g 0 ≡ false = rw same at grouped in
            rw held_group (append-nil (keep (in_group g) p.applied ++ r ∷ [])))
    | inr e ↦
        let other : holder g (insert r.mutex_group_id r.meta p.occupants) ≡ holder g p.occupants =
          rw (lookup-insert r.mutex_group_id g r.meta p.occupants, e) in
        rw
          (keep-append_one g p.applied r, other, let_through-skip g (holder g p.occupants) r rest e)
          (rw e)
  ]

  visit_rule-applied_with :
      (g : ℕ) (by_hand : List (ℕ × TagMeta)) (r : Rule C) (rest : List (Rule C)) (p : Progress C)
      → applied_with g rest (visit_rule by_hand r p) ≡ applied_with g (r ∷ rest) p
  unfolding visit_rule
  visit_rule-applied_with g by_hand r rest p =
      if_cases (λ (q : Progress C). applied_with g rest q ≡ applied_with g (r ∷ rest) p)
        (r.mutex_group_id == 0) _ _ (applied_with-ungrouped g r rest p)
        (contend-applied_with g by_hand r rest p (lookup r.mutex_group_id p.occupants) refl)

  let_through-nil : (g : ℕ) (h : Option TagMeta) → let_through g h [] ≡ []
  let_through-nil g none = ground arith
  let_through-nil g (some m) = refl

  visit_rules-applied_with :
      (g : ℕ) (by_hand : List (ℕ × TagMeta)) (rules : List (Rule C)) (p : Progress C)
      → keep (in_group g) (visit_rules by_hand rules p).applied ≡ applied_with g rules p
  unfolding visit_rules
  visit_rules-applied_with g by_hand [] p =
      rw (let_through-nil g (holder g p.occupants)) (sym (append-nil (keep (in_group g) p.applied)))
  visit_rules-applied_with g by_hand (r ∷ rest) p =
      visit_rules-applied_with g by_hand rest (visit_rule by_hand r p)
      ∙ visit_rule-applied_with g by_hand r rest p

  pub resolve_rules-applied :
      (g : ℕ) (matched : List (Rule C)) (manual : List ℕ) (meta : List (ℕ × TagMeta))
      → keep (in_group g) (resolve_rules matched manual meta).applied
        ≡ let_through g (holder g (occupy_manual meta manual [])) (sort_by precedes matched)
  unfolding resolve_rules
  resolve_rules-applied g matched manual meta =
      let by_hand = occupy_manual meta manual [] in
      visit_rules-applied_with g by_hand (sort_by precedes matched)
        (record { occupants = by_hand; applied = []; shadowed = [] })

  -- Whether a rule is of a tag in a group.
  abbrev pub rule_is : ℕ → ℕ → Rule C → Bool
  rule_is t g r = r.tag_id == t && r.mutex_group_id == g

  -- The applied rules of the tag, and the notes about it.
  abbrev accounted : ℕ → ℕ → Progress C → ℕ
  accounted t g p = length (keep (rule_is t g) p.applied) + length (keep (note_is t g) p.shadowed)

  contend-accounted :
      (t g : ℕ) (by_hand : List (ℕ × TagMeta)) (r : Rule C) (held : Option TagMeta) (p : Progress C)
      → accounted t g (contend by_hand r held p)
        ≡ accounted t g p + (if rule_is t g r then 1 else 0)
  unfolding contend
  contend-accounted t g by_hand r none p =
      omega (arith, length-keep-append_one (rule_is t g) p.applied r)
  contend-accounted t g by_hand r (some w) p =
      omega (arith, length-keep-append_one (note_is t g) p.shadowed (shadow_note by_hand r w))

  visit_rule-accounted :
      (t g : ℕ) (by_hand : List (ℕ × TagMeta)) (r : Rule C) (p : Progress C)
      → accounted t g (visit_rule by_hand r p) ≡ accounted t g p + (if rule_is t g r then 1 else 0)
  unfolding visit_rule
  visit_rule-accounted t g by_hand r p =
      if_cases
        (λ (q : Progress C). accounted t g q ≡ accounted t g p + (if rule_is t g r then 1 else 0))
        (r.mutex_group_id == 0) _ _
        (λ _. omega (arith, length-keep-append_one (rule_is t g) p.applied r))
        (λ _. contend-accounted t g by_hand r (lookup r.mutex_group_id p.occupants) p)

  visit_rules-accounted :
      (t g : ℕ) (by_hand : List (ℕ × TagMeta)) (rules : List (Rule C)) (p : Progress C)
      → accounted t g (visit_rules by_hand rules p)
        ≡ accounted t g p + length (keep (rule_is t g) rules)
  unfolding visit_rules
  visit_rules-accounted t g by_hand [] p = omega arith
  visit_rules-accounted t g by_hand (r ∷ rest) p = ground (
    arith,
    visit_rules-accounted t g by_hand rest (visit_rule by_hand r p),
    visit_rule-accounted t g by_hand r p,
  )

  -- Every rule that matched is accounted for, tag by tag: for each tag id and group, the applied
  -- rules and the shadow notes of that tag are together as many as the matched rules of it.
  pub resolve_rules-accounts :
      (t g : ℕ) (matched : List (Rule C)) (manual : List ℕ) (meta : List (ℕ × TagMeta))
      → length (keep (rule_is t g) (resolve_rules matched manual meta).applied)
          + length (keep (note_is t g) (resolve_rules matched manual meta).shadowed)
        ≡ length (keep (rule_is t g) matched)
  unfolding resolve_rules
  resolve_rules-accounts t g matched manual meta = omega (
    arith,
    visit_rules-accounted t g (occupy_manual meta manual []) (sort_by precedes matched)
        (record { occupants = occupy_manual meta manual []; applied = []; shadowed = [] }),
    length-keep-sort_by precedes (rule_is t g) matched,
  )
