-- ===== src/Facts/Bounds.antt =====
-- `Validate` bounds the number of conditions of a rule and its depth.

use easy_proxies_v.Base.{
  Bool-cases, Option-cases, arith, bind_cases, false, inl, inr, max, not, refl, some, suc, true, ℕ,
  ◌+◌, ◌≡◌,
}
use easy_proxies_v.Facts.Compare.{Library}
use easy_proxies_v.Facts.Condition.{
  Condition, Conditions, Head, children_of, condition, cons, head_of, is_empty, is_group, nil,
  no_children,
}
use easy_proxies_v.Facts.Evaluate.{is_combinator}
use easy_proxies_v.Facts.Schema.{Registry}
use easy_proxies_v.Facts.Validate.{
  Limits, exceeds, validate, validate_children, validate_leaf, validate_node,
}

unfoldable mutual
  pub size : Condition → ℕ
  size (condition c children) = suc (sizes children)

  pub sizes : Conditions → ℕ
  sizes nil = 0
  sizes (cons c cs) = size c + sizes cs

unfoldable mutual
  pub depth_of : Condition → ℕ
  depth_of (condition c children) = suc (depths_of children)

  pub depths_of : Conditions → ℕ
  depths_of nil = 0
  depths_of (cons c cs) = max (depth_of c) (depths_of cs)

-- What a successful visit of a subtree at a depth says of it.
abbrev IsWithin : Limits → ℕ → ℕ → ℕ → ℕ → Type 0
IsWithin limits deepest count size n =
    (n ≡ count + size)
    × (exceeds limits.max_conditions n ≡ false)
    × (exceeds limits.max_depth deepest ≡ false)

no_children-none : (cs : Conditions) → no_children cs ≡ true → (sizes cs ≡ 0) × (depths_of cs ≡ 0)
unfolding size depth_of
no_children-none nil h = (refl, refl)
no_children-none (cons c cs) h = absurd (ground arith)

module _ (lib : Library) (registry : Registry) (limits : Limits) where
  -- What a successful visit of a node says of it.
  pub validate_node-leaf :
      (depth count n : ℕ) (c : Head) (children : Conditions)
      → validate_node lib registry limits depth count (condition c children) ≡ some n
      → is_group c ≡ false
      → validate_leaf lib registry limits c ≡ true
  unfolding validate_node
  validate_node-leaf depth count n c children e g = ground (arith, rw g at e)

  pub validate_node-group :
      (depth count n : ℕ) (c : Head) (children : Conditions)
      → validate_node lib registry limits depth count (condition c children) ≡ some n
      → is_group c ≡ true
      → (is_combinator c.match_with ≡ true)
        × (not (no_children children) ≡ true)
        × (validate_children lib registry limits (depth + 1) (count + 1) children ≡ some n)
  unfolding validate_node
  validate_node-group depth count n c children e g = ground (arith, rw g at e)

  mutual
    unfolding validate_node size depth_of

    validate_node-IsWithin :
        (depth count : ℕ) (c : Condition) {n : ℕ}
        → validate_node lib registry limits (suc depth) count c ≡ some n
        → IsWithin limits (depth + depth_of c) count (size c) n
    validate_node-IsWithin depth count (condition c children) {n} e =
        elim (Bool-cases (is_group c)) [
          | inl g ↦
              let visited : validate_children lib registry limits (suc (suc depth)) (suc count)
                    children
                  ≡ some n =
                ground (arith, rw g at e) in
              let below : IsWithin limits (suc depth + depths_of children) (suc count)
                  (sizes children) n =
                validate_children-IsWithin (suc depth) (suc count) children (ground (arith, e))
                  (ground (arith, e)) visited in
              ground (arith, below)
          | inr g ↦ ground (arith, rw g at e, no_children-none children)
        ]

    validate_children-IsWithin :
        (depth count : ℕ) (cs : Conditions) {n : ℕ}
        → exceeds limits.max_conditions count ≡ false
        → exceeds limits.max_depth depth ≡ false
        → validate_children lib registry limits (suc depth) count cs ≡ some n
        → IsWithin limits (depth + depths_of cs) count (sizes cs) n
    validate_children-IsWithin depth count nil {n} a b e = ground arith
    validate_children-IsWithin depth count (cons c cs) {n} a b e =
        let (m, f, rest) =
          bind_cases (validate_node lib registry limits (suc depth) count c)
            (λ m. validate_children lib registry limits (suc depth) m cs) e in
        let here : IsWithin limits (depth + depth_of c) count (size c) m =
          validate_node-IsWithin depth count c f in
        let there : IsWithin limits (depth + depths_of cs) m (sizes cs) n =
          validate_children-IsWithin depth m cs here.1 b rest in
        ground (arith, here, there)

-- A condition that is not empty and passes `Validate` has no more nodes than `MaxConditions` and is
-- nested no deeper than `MaxDepth`, for each of the two limits that is set.
pub validate-IsWithin :
    (lib : Library) (registry : Registry) (limits : Limits) (c : Condition)
    → is_empty (head_of c) (children_of c) ≡ false
    → validate lib registry limits c ≡ true
    → (exceeds limits.max_conditions (size c) ≡ false)
      × (exceeds limits.max_depth (depth_of c) ≡ false)
unfolding validate
validate-IsWithin lib registry limits (condition c children) filled e =
    elim (Option-cases (validate_node lib registry limits 1 0 (condition c children))) [
      | inl f ↦ absurd (ground (arith, rw (filled, f) at e))
      | inr (n, f) ↦
          let within : IsWithin limits (0 + depth_of (condition c children)) 0
              (size (condition c children)) n =
            validate_node-IsWithin lib registry limits 0 0 (condition c children) f in
          ground (arith, within)
    ]
