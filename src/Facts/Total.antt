-- ===== src/Facts/Total.antt =====
-- A rule that passes `Validate` never fails in `Evaluate`: the whole tree.

use easy_proxies_v.Base.{
  Bool, Bool-cases, Each, Option, Option-cases, String_eq, arith, bind_cases, false, if_cases, inl,
  inr, none, not, pos, refl, some, true, ℕ, ℤ, ◌+◌, ◌||◌, ◌≡◌,
}
use easy_proxies_v.Facts.Bounds.{validate_node-group, validate_node-leaf}
use easy_proxies_v.Facts.Compare.{Library}
use easy_proxies_v.Facts.Condition.{
  Condition, Conditions, Head, Match, condition, cons, is_empty, is_group, nil,
}
use easy_proxies_v.Facts.Evaluate.{
  Truth, after_child, all_match, any_match, evaluate, evaluate_as, evaluate_group, evaluate_truth,
  is_combinator, is_version_one, leaf_truth, truth_children,
}
use easy_proxies_v.Facts.Schema.{NodeFacts, Registry}
use easy_proxies_v.Facts.Sound.{IsTyped, evaluate_leaf-total}
use easy_proxies_v.Facts.Validate.{
  Limits, is_some, validate, validate_children, validate_leaf, validate_node,
}

chain_total {ℓ κ} :
    {A : Type ℓ} {B : Type κ} (o : Option A) (f : A → Option B)
    → is_some o ≡ true
    → ((a : A) → is_some (f a) ≡ true)
    → is_some (elim o [ none ↦ none | some a ↦ f a ]) ≡ true
chain_total none f h g = absurd (ground arith)
chain_total (some a) f h g = g a

module _ (lib : Library) (facts : NodeFacts) (now : ℕ) (registry : Registry) (limits : Limits)
    (typed : Each (IsTyped facts) registry.fields) where
  leaf_truth-total :
      (c : Head)
      → validate_leaf lib registry limits c ≡ true
      → is_some (leaf_truth lib facts now c) ≡ true
  unfolding leaf_truth
  leaf_truth-total c v =
      ground (arith, evaluate_leaf-total lib registry limits facts now (pos 2) c typed v)

  after_child-total :
      (m : Match) (t : Truth) (rest : Option Truth)
      → is_some rest ≡ true
      → is_some (after_child m t rest) ≡ true
  after_child-total m t rest h = ground arith

  mutual
    unfolding evaluate_truth validate_node

    evaluate_truth-total :
        (depth count n : ℕ) (c : Condition)
        → validate_node lib registry limits depth count c ≡ some n
        → is_some (evaluate_truth lib facts now c) ≡ true
    evaluate_truth-total depth count n (condition c children) e = elim (Bool-cases (is_group c)) [
      | inl g ↦
          let (m, filled, below) =
            validate_node-group lib registry limits depth count n c children e g in
          rw g (truth_children-total (depth + 1) (count + 1) n c.match_with false children m below)
      | inr g ↦
          rw g (
            leaf_truth-total c
              (validate_node-leaf lib registry limits depth count n c children e g))
    ]

    truth_children-total :
        (depth count n : ℕ) (m : Match) (unknown : Bool) (cs : Conditions)
        → is_combinator m ≡ true
        → validate_children lib registry limits depth count cs ≡ some n
        → is_some (truth_children lib facts now m unknown cs) ≡ true
    truth_children-total depth count n m unknown nil h e = ground arith
    truth_children-total depth count n m unknown (cons c cs) h e =
        let (k, f, rest) =
          bind_cases (validate_node lib registry limits depth count c)
            (λ k. validate_children lib registry limits depth k cs) e in
        chain_total (evaluate_truth lib facts now c) _ (evaluate_truth-total depth count k c f)
          (λ t.
            after_child-total m t _
              (truth_children-total depth k n m (unknown || not t.known) cs h rest))

  evaluate_group-total :
      (m : Match) (all_matched any_matched : Option Bool)
      → is_combinator m ≡ true
      → is_some all_matched ≡ true
      → is_some any_matched ≡ true
      → is_some (evaluate_group m all_matched any_matched) ≡ true
  evaluate_group-total m all_matched any_matched h a b = ground arith

  mutual
    unfolding evaluate_as validate_node

    evaluate_as-total :
        (version : ℤ) (depth count n : ℕ) (c : Condition)
        → validate_node lib registry limits depth count c ≡ some n
        → is_some (evaluate_as lib facts now version c) ≡ true
    evaluate_as-total version depth count n (condition c children) e =
        if_cases (λ (o : Option Bool). is_some o ≡ true) (is_empty c children) _ _ (λ _. refl)
          (λ _.
            if_cases (λ (o : Option Bool). is_some o ≡ true) (not (is_version_one version)) _ _
              (λ _.
                chain_total (evaluate_truth lib facts now (condition c children)) _
                  (evaluate_truth-total depth count n (condition c children) e) (λ _. refl))
              (λ _. elim (Bool-cases (is_group c)) [
                | inl g ↦
                    let (m, filled, below) =
                      validate_node-group lib registry limits depth count n c children e g in
                    rw g (
                      evaluate_group-total c.match_with _ _ m
                        (all_match-total version (depth + 1) (count + 1) n children below)
                        (any_match-total version (depth + 1) (count + 1) n children below))
                | inr g ↦ rw g (
                    evaluate_leaf-total lib registry limits facts now version c typed
                      (validate_node-leaf lib registry limits depth count n c children e g))
              ]))

    all_match-total :
        (version : ℤ) (depth count n : ℕ) (cs : Conditions)
        → validate_children lib registry limits depth count cs ≡ some n
        → is_some (all_match lib facts now version cs) ≡ true
    all_match-total version depth count n nil e = refl
    all_match-total version depth count n (cons c cs) e =
        let (k, f, rest) =
          bind_cases (validate_node lib registry limits depth count c)
            (λ k. validate_children lib registry limits depth k cs) e in
        chain_total (evaluate_as lib facts now version c) _
          (evaluate_as-total version depth count k c f)
          (λ b.
            if_cases (λ (o : Option Bool). is_some o ≡ true) (not b) (some false) _ (λ _. refl)
              (λ _. all_match-total version depth k n cs rest))

    any_match-total :
        (version : ℤ) (depth count n : ℕ) (cs : Conditions)
        → validate_children lib registry limits depth count cs ≡ some n
        → is_some (any_match lib facts now version cs) ≡ true
    any_match-total version depth count n nil e = refl
    any_match-total version depth count n (cons c cs) e =
        let (k, f, rest) =
          bind_cases (validate_node lib registry limits depth count c)
            (λ k. validate_children lib registry limits depth k cs) e in
        chain_total (evaluate_as lib facts now version c) _
          (evaluate_as-total version depth count k c f)
          (λ b.
            if_cases (λ (o : Option Bool). is_some o ≡ true) b (some true) _ (λ _. refl)
              (λ _. any_match-total version depth k n cs rest))

-- A condition that passes `Validate` is evaluated without an error, in both versions of the region
-- rules, at every time and on all facts that are typed by the registry: each registered field has
-- the operators of its kind, and the fact that is read for it is unknown or has its kind.
pub evaluate-total :
    (lib : Library) (facts : NodeFacts) (now : ℕ) (registry : Registry) (limits : Limits)
    (c : Condition)
    → Each (IsTyped facts) registry.fields
    → validate lib registry limits c ≡ true
    → is_some (evaluate lib facts now c) ≡ true
unfolding validate evaluate evaluate_as
evaluate-total lib facts now registry limits (condition c children) typed v =
    elim (Option-cases (validate_node lib registry limits 1 0 (condition c children))) [
      | inl f ↦ let empty : is_empty c children ≡ true = ground (arith, rw f at v) in rw empty refl
      | inr (n, f) ↦
          evaluate_as-total lib facts now registry limits typed c.region_version 1 0 n
            (condition c children) f
    ]
