-- ===== src/Facts/Frame.antt =====
-- `Evaluate` reads no other facts than those that `ReferencedFields` lists, and the region's.

-- The facts that a rule with these field names can read.

use easy_proxies_v.Base.{
  ==_refl, Bool, List, Option-cases, String, String_eq, [], ap, arith, contains, false, if_cases,
  if◌then◌else◌, inl, inr, not, pos, refl, some, true, ℕ, ℤ, ◌&&◌, ◌++◌, ◌==◌, ◌||◌, ◌∷◌, ◌≡◌,
}
use easy_proxies_v.Facts.Compare.{Library}
use easy_proxies_v.Facts.Condition.{
  Condition, Conditions, Head, Match, collect_children, collect_fields, condition, cons, head_of,
  nil,
}
use easy_proxies_v.Facts.Evaluate.{
  after_child, all_match, any_match, evaluate, evaluate_as, evaluate_leaf, evaluate_truth, fact_of,
  field_read, is_version_one, judge_leaf, leaf_truth, node_region, node_region_legacy,
  truth_children,
}
use easy_proxies_v.Facts.Schema.{NodeFacts, aged, duration, value_of}

abbrev pub may_read : List String → String → Bool
may_read names n = (n == "" || n == node_region_legacy) || contains n names

abbrev pub SameOn : List String → NodeFacts → NodeFacts → Type 0
SameOn names f g = (n : String) → may_read names n ≡ true → value_of f n ≡ value_of g n

contains-append :
    (n : String) (xs ys : List String) → contains n xs ≡ true → contains n (xs ++ ys) ≡ true
contains-append n [] ys h = absurd (ground arith)
contains-append n (x ∷ xs) ys h = ground (arith, contains-append n xs ys)

contains_last : (n : String) (xs : List String) → contains n (xs ++ n ∷ []) ≡ true
contains_last n [] = ground (arith, ==_refl n)
contains_last n (x ∷ xs) = ground (arith, contains_last n xs)

-- The names after a node itself was visited.
abbrev visited : Head → List String → List String
visited c seen =
    if c.field_name == "" || contains c.field_name seen then seen else seen ++ c.field_name ∷ []

visited-keeps :
    (c : Head) (n : String) (seen : List String)
    → contains n seen ≡ true
    → contains n (visited c seen) ≡ true
visited-keeps c n seen h = ground (arith, contains-append n seen (c.field_name ∷ []))

visited-own : (c : Head) (seen : List String) → may_read (visited c seen) c.field_name ≡ true
visited-own c seen = ground (arith, contains_last c.field_name seen)

mutual
  unfolding collect_fields

  collect_fields-keeps :
      (c : Condition) (n : String) (seen : List String)
      → contains n seen ≡ true
      → contains n (collect_fields c seen) ≡ true
  collect_fields-keeps (condition c children) n seen h =
      collect_children-keeps children n (visited c seen) (visited-keeps c n seen h)

  collect_children-keeps :
      (cs : Conditions) (n : String) (seen : List String)
      → contains n seen ≡ true
      → contains n (collect_children cs seen) ≡ true
  collect_children-keeps nil n seen h = h
  collect_children-keeps (cons c cs) n seen h =
      collect_children-keeps cs n (collect_fields c seen) (collect_fields-keeps c n seen h)

module _ (lib : Library) (f g : NodeFacts) (now : ℕ) where
  SameOn-narrower :
      (names more : List String)
      → ((n : String) → contains n names ≡ true → contains n more ≡ true)
      → SameOn more f g
      → SameOn names f g
  SameOn-narrower names more le same n h = same n (ground (arith, le n))

  may_read-field_read :
      (version : ℤ) (name : String) (names : List String)
      → may_read names name ≡ true
      → may_read names (field_read version name) ≡ true
  may_read-field_read version name names own =
      if_cases (λ n. may_read names n ≡ true) (name == node_region && is_version_one version) _ _
        (λ _. refl) (λ _. own)

  evaluate_leaf-same :
      (version : ℤ) (c : Head) (names : List String)
      → SameOn names f g
      → may_read names c.field_name ≡ true
      → evaluate_leaf lib f now version c ≡ evaluate_leaf lib g now version c
  unfolding evaluate_leaf fact_of judge_leaf
  evaluate_leaf-same version c names same own =
      ap (λ v. judge_leaf lib f now version c (aged (duration c.max_age_seconds) now v))
        (same (field_read version c.field_name)
          (may_read-field_read version c.field_name names own))

  leaf_truth-same :
      (c : Head) (names : List String)
      → SameOn names f g
      → may_read names c.field_name ≡ true
      → leaf_truth lib f now c ≡ leaf_truth lib g now c
  unfolding leaf_truth fact_of
  leaf_truth-same c names same own =
      rw (same c.field_name own, evaluate_leaf-same (pos 2) c names same own) refl

  mutual
    unfolding evaluate_truth collect_fields

    evaluate_truth-same :
        (c : Condition) (seen : List String)
        → SameOn (collect_fields c seen) f g
        → evaluate_truth lib f now c ≡ evaluate_truth lib g now c
    evaluate_truth-same (condition c children) seen same =
        rw
          (
            leaf_truth-same c (visited c seen)
                (SameOn-narrower (visited c seen) _
                  (λ n. collect_children-keeps children n (visited c seen)) same)
                (visited-own c seen),
            truth_children-same c.match_with false children (visited c seen) same,
          )
          refl

    truth_children-same :
        (m : Match) (unknown : Bool) (cs : Conditions) (seen : List String)
        → SameOn (collect_children cs seen) f g
        → truth_children lib f now m unknown cs ≡ truth_children lib g now m unknown cs
    truth_children-same m unknown nil seen same = refl
    truth_children-same m unknown (cons c cs) seen same =
        let here : evaluate_truth lib f now c ≡ evaluate_truth lib g now c =
          evaluate_truth-same c seen (
            SameOn-narrower (collect_fields c seen) _
              (λ n. collect_children-keeps cs n (collect_fields c seen)) same) in
        elim (Option-cases (evaluate_truth lib g now c)) [
          | inl e ↦ rw (here, e) refl
          | inr (t, e) ↦
              rw (here, e)
                (ap (after_child m t)
                  (truth_children-same m (unknown || not t.known) cs (collect_fields c seen) same))
        ]

  mutual
    unfolding evaluate_as collect_fields

    evaluate_as-same :
        (version : ℤ) (c : Condition) (seen : List String)
        → SameOn (collect_fields c seen) f g
        → evaluate_as lib f now version c ≡ evaluate_as lib g now version c
    evaluate_as-same version (condition c children) seen same =
        rw
          (
            evaluate_truth-same (condition c children) seen same,
            evaluate_leaf-same version c (visited c seen)
                (SameOn-narrower (visited c seen) _
                  (λ n. collect_children-keeps children n (visited c seen)) same)
                (visited-own c seen),
            all_match-same version children (visited c seen) same,
            any_match-same version children (visited c seen) same,
          )
          refl

    all_match-same :
        (version : ℤ) (cs : Conditions) (seen : List String)
        → SameOn (collect_children cs seen) f g
        → all_match lib f now version cs ≡ all_match lib g now version cs
    all_match-same version nil seen same = refl
    all_match-same version (cons c cs) seen same =
        let here : evaluate_as lib f now version c ≡ evaluate_as lib g now version c =
          evaluate_as-same version c seen (
            SameOn-narrower (collect_fields c seen) _
              (λ n. collect_children-keeps cs n (collect_fields c seen)) same) in
        elim (Option-cases (evaluate_as lib g now version c)) [
          | inl e ↦ rw (here, e) refl
          | inr (b, e) ↦
              rw (here, e)
                (ap (λ rest. if not b then some false else rest)
                  (all_match-same version cs (collect_fields c seen) same))
        ]

    any_match-same :
        (version : ℤ) (cs : Conditions) (seen : List String)
        → SameOn (collect_children cs seen) f g
        → any_match lib f now version cs ≡ any_match lib g now version cs
    any_match-same version nil seen same = refl
    any_match-same version (cons c cs) seen same =
        let here : evaluate_as lib f now version c ≡ evaluate_as lib g now version c =
          evaluate_as-same version c seen (
            SameOn-narrower (collect_fields c seen) _
              (λ n. collect_children-keeps cs n (collect_fields c seen)) same) in
        elim (Option-cases (evaluate_as lib g now version c)) [
          | inl e ↦ rw (here, e) refl
          | inr (b, e) ↦
              rw (here, e)
                (ap (λ rest. if b then some true else rest)
                  (any_match-same version cs (collect_fields c seen) same))
        ]

-- The answer to a condition depends on no other facts than those of the fields that
-- `ReferencedFields` collects, of the empty field name and of the legacy region: on two sets of facts
-- that agree on these, `Evaluate` gives the same, errors included.
pub evaluate-collect_fields :
    (lib : Library) (f g : NodeFacts) (now : ℕ) (c : Condition)
    → SameOn (collect_fields c []) f g
    → evaluate lib f now c ≡ evaluate lib g now c
unfolding evaluate
evaluate-collect_fields lib f g now c same =
    evaluate_as-same lib f g now (head_of c).region_version c [] same
