-- ===== src/Facts/Unmeasured.antt =====
-- A rule never takes in a node for lack of a measurement.

-- No leaf asks whether a fact is known.

use easy_proxies_v.Base.{
  Bool, Bool-cases, Option-cases, String, arith, bind_cases, eq_ℤ, false, inl, inr, negsuc, not,
  pos, refl, some, suc, true, zero, ℕ, ℤ, ◌&&◌, ◌+◌, ◌||◌, ◌≡◌,
}
use easy_proxies_v.Facts.Bounds.{validate_node-group}
use easy_proxies_v.Facts.Compare.{Library}
use easy_proxies_v.Facts.Condition.{
  Condition, Conditions, Head, Match, condition, cons, head_of, is_empty, is_group, nil,
  no_children,
}
use easy_proxies_v.Facts.Evaluate.{
  evaluate, evaluate_as, evaluate_truth, fact_of, is_combinator, leaf_truth, observes_unknown,
  truth_children,
}
use easy_proxies_v.Facts.Schema.{NodeFacts, Registry, Value, aged, duration, value_of}
use easy_proxies_v.Facts.Validate.{Limits, validate, validate_children, validate_node}

unfoldable mutual
  pub is_blind : Condition → Bool
  is_blind (condition c children) = not (observes_unknown c.op) && are_blind children

  pub are_blind : Conditions → Bool
  are_blind nil = true
  are_blind (cons c cs) = is_blind c && are_blind cs

module _ (lib : Library) (facts : NodeFacts) (now : ℕ) (registry : Registry) (limits : Limits)
    (unknown : (field : String) → (value_of facts field).known ≡ false) where
  aged_unknown : (age : ℤ) (v : Value) → v.known ≡ false → (aged age now v).known ≡ false
  unfolding aged
  aged_unknown (negsuc a) v h = h
  aged_unknown (pos zero) v h = h
  aged_unknown (pos (suc a)) v h = ground (arith, h)

  leaf_truth_unknown :
      (c : Head)
      → observes_unknown c.op ≡ false
      → leaf_truth lib facts now c ≡ some (record { matched = false; known = false })
  unfolding leaf_truth fact_of
  leaf_truth_unknown c h =
      rw
        (
          h,
          aged_unknown (duration c.max_age_seconds) (value_of facts c.field_name)
              (unknown c.field_name),
        )
        refl

  mutual
    unfolding evaluate_truth validate_node is_blind

    evaluate_truth_unknown :
        (depth count n : ℕ) (c : Condition)
        → validate_node lib registry limits depth count c ≡ some n
        → is_blind c ≡ true
        → evaluate_truth lib facts now c ≡ some (record { matched = false; known = false })
    evaluate_truth_unknown depth count n (condition c children) e b =
        elim (Bool-cases (is_group c)) [
          | inl g ↦
              let (m, filled, below) =
                validate_node-group lib registry limits depth count n c children e g in
              rw g (
                truth_children_unknown (depth + 1) (count + 1) n c.match_with false children m below
                  filled (ground (arith, b)))
          | inr g ↦ rw g (leaf_truth_unknown c (ground (arith, b)))
        ]

    -- The first child makes the loop uncertain, and no later one decides it.
    truth_children_unknown :
        (depth count n : ℕ) (m : Match) (seen : Bool) (cs : Conditions)
        → is_combinator m ≡ true
        → validate_children lib registry limits depth count cs ≡ some n
        → (seen || not (no_children cs)) ≡ true
        → are_blind cs ≡ true
        → truth_children lib facts now m seen cs ≡ some (record { matched = false; known = false })
    truth_children_unknown depth count n m seen nil h e s b = ground (arith, s)
    truth_children_unknown depth count n m seen (cons c cs) h e s b =
        let (k, f, rest) =
          bind_cases (validate_node lib registry limits depth count c)
            (λ k. validate_children lib registry limits depth k cs) e in
        let here : evaluate_truth lib facts now c
            ≡ some (record { matched = false; known = false }) =
          evaluate_truth_unknown depth count k c f (ground (arith, b)) in
        rw here (
          truth_children_unknown depth k n m (seen || true) cs h rest (ground arith)
            (ground (arith, b)))

-- Where all facts of a node are unknown, a condition that passes `Validate`, has no is_known or is_unknown, and whose region version is not 1
-- evaluates to false without an error, below `none` and under negation too.
pub evaluate_unknown :
    (lib : Library) (facts : NodeFacts) (now : ℕ) (registry : Registry) (limits : Limits)
    (c : Condition)
    → ((field : String) → (value_of facts field).known ≡ false)
    → eq_ℤ (head_of c).region_version (pos 1) ≡ false
    → validate lib registry limits c ≡ true
    → is_blind c ≡ true
    → evaluate lib facts now c ≡ some false
unfolding validate evaluate evaluate_as
evaluate_unknown lib facts now registry limits (condition c children) unknown new v b =
    elim (Option-cases (validate_node lib registry limits 1 0 (condition c children))) [
      | inl f ↦ let empty : is_empty c children ≡ true = ground (arith, rw f at v) in rw empty refl
      | inr (n, f) ↦
          rw
            (
              new,
              evaluate_truth_unknown lib facts now registry limits unknown 1 0 n
                  (condition c children) f b,
            )
            (ground arith)
    ]
