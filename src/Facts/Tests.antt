-- ===== src/Facts/Tests.antt =====
-- Runs of the evaluator of conditions.

use easy_proxies_v.Base.{
  ==_iff, Bool-cases, Each, String, String_eq, [], arith, false, if_cases, inl, inr, insert, lookup,
  none, pos, refl, some, subst, sym, true, ℕ, ℤ, ◌&&◌, ◌-◌, ◌==◌, ◌↔◌, ◌∷◌, ◌≡◌,
}
use easy_proxies_v.Facts.Bounds.{depth_of, size, validate-IsWithin}
use easy_proxies_v.Facts.Compare.{
  Library, compare_int, compare_region, compare_value, operand_int, operand_string,
}
use easy_proxies_v.Facts.Condition.{
  Condition, Conditions, Match, Operand, collect_fields, condition, cons, integer, match_all,
  match_none, nil, no_match, no_operand, text,
}
use easy_proxies_v.Facts.Evaluate.{
  evaluate, evaluate_as, evaluate_leaf, evaluate_truth, fact_of, is_version_one, judge_leaf,
  leaf_truth,
}
use easy_proxies_v.Facts.Frame.{SameOn, evaluate-collect_fields, may_read}
use easy_proxies_v.Facts.Kleene.{evaluate-meaning, meaning, yes}
use easy_proxies_v.Facts.Schema.{
  Field, NodeFacts, Operator, Registry, Value, aged, duration, kind_enum, kind_int, new_registry,
  no_op, no_value, op_eq, op_lt, operator_arity, operators_for_kind, register, value_of,
}
use easy_proxies_v.Facts.Sound.{IsOfKind, IsTyped}
use easy_proxies_v.Facts.Total.{evaluate-total}
use easy_proxies_v.Facts.Unmeasured.{evaluate_unknown, is_blind}
use easy_proxies_v.Facts.Validate.{
  default_limits, exceeds, is_some, validate, validate_arity, validate_leaf, validate_node,
  validate_operand,
}
use easy_proxies_v.Select.Region.{Texts, matches, normalize}

abbrev plain_texts : Texts
plain_texts = record { fold = λ t. t; flag = λ t. t; aliases = λ t. t; names = λ t. none }

-- Texts compared as they are, and no text that is a number or a pattern.
abbrev plain_library : Library
plain_library = record {
  trim_space = λ t. t;
  parse_int = λ t. none;
  parse_float = λ t. none;
  parse_bool = λ t. none;
  int_of_float64 = λ n. pos n;
  int_of_float32 = λ n. pos n;
  format_int = λ n. "n";
  format_bool = λ b. "b";
  format_float64 = λ n. "f";
  format_float32 = λ n. "f";
  equal_fold = λ a b. a == b;
  to_lower = λ t. t;
  contains_text = λ a b. a == b;
  text_less = λ a b. false;
  rune_count = λ t. 1;
  compile = λ t. none;
  regions = plain_texts;
  marshal_size = λ c. some 100;
}

abbrev latency_field : Field
latency_field = record {
  name = "latency_ms";
  group = "perf";
  kind = kind_int;
  operators = [];
  supports_max_age = true;
}

abbrev region_field : Field
region_field = record {
  name = "node.region";
  group = "basic";
  kind = kind_enum;
  operators = [];
  supports_max_age = false;
}

abbrev small_registry : Registry
small_registry = record {
  fields =
      ("latency_ms", record latency_field { operators = operators_for_kind kind_int })
      ∷ ("node.region", record region_field { operators = operators_for_kind kind_enum })
      ∷ [];
  order = "latency_ms" ∷ "node.region" ∷ [];
}

small_registry_built : register region_field (register latency_field new_registry) ≡ small_registry
unfolding register lookup insert
small_registry_built = refl

abbrev leaf : String → Operator → Operand → ℤ → Condition
leaf name op value age =
    condition
      (record {
        region_version = pos 0;
        match_with = no_match;
        field_name = name;
        op = op;
        value = value;
        values = [];
        max_age_seconds = age;
        negate = false;
      })
      nil

abbrev group_of : Match → Conditions → Condition
group_of match_with children =
    condition
      (record {
        region_version = pos 2;
        match_with = match_with;
        field_name = "";
        op = no_op;
        value = no_operand;
        values = [];
        max_age_seconds = pos 0;
        negate = false;
      })
      children

-- Measured below 300 ms within the last minute, and in no region called hk.
abbrev rule : Condition
rule = group_of match_all (
    cons (leaf "latency_ms" op_lt (integer (pos 300)) (pos 60))
      (cons (group_of match_none (cons (leaf "node.region" op_eq (text "hk") (pos 0)) nil)) nil))

abbrev region_fact : String → Value
region_fact code = record no_value { kind = kind_enum; known = true; str = code }

abbrev latency_fact : ℕ → Value
latency_fact at = record no_value { kind = kind_int; known = true; checked_at = at; num = pos 120 }

abbrev measured : ℕ → NodeFacts
measured at = ("latency_ms", latency_fact at) ∷ ("node.region", region_fact "jp") ∷ []

abbrev noon : ℕ
noon = 1000000000000

evaluate_fresh : evaluate plain_library (measured (noon - 1)) noon rule ≡ some true
unfolding evaluate evaluate_as evaluate_truth leaf_truth evaluate_leaf judge_leaf fact_of value_of
    aged compare_value compare_int operand_int compare_region matches normalize lookup
evaluate_fresh = refl

-- A measurement of 61 seconds ago counts as none.
evaluate_stale : evaluate plain_library (measured (noon - 61000000000)) noon rule ≡ some false
unfolding evaluate evaluate_as evaluate_truth leaf_truth evaluate_leaf judge_leaf fact_of value_of
    aged compare_value compare_int operand_int compare_region matches normalize lookup
evaluate_stale = refl

rule_passes : validate plain_library small_registry default_limits rule ≡ true
unfolding validate validate_node validate_leaf operator_arity operators_for_kind validate_arity
    validate_operand operand_int operand_string lookup
rule_passes = refl

-- A limit of 18446744074 seconds wraps around to less than a second.
duration_wraps : duration (pos 18446744074) ≡ pos 290448384
duration_wraps = refl

evaluate-meaning_example :
    (true ≡ true) ↔ (meaning plain_library (measured (noon - 1)) noon rule ≡ yes)
evaluate-meaning_example =
    evaluate-meaning plain_library (measured (noon - 1)) noon rule refl refl evaluate_fresh

abbrev with_asn : NodeFacts
with_asn = ("unlock.ip.asn", region_fact "as1") ∷ measured 5

with_asn-SameOn : SameOn (collect_fields rule []) with_asn (measured 5)
unfolding value_of lookup collect_fields
with_asn-SameOn n h = elim (Bool-cases ("unlock.ip.asn" == n)) [
  | inl e ↦
      let read : may_read (collect_fields rule []) "unlock.ip.asn" ≡ true =
        subst (λ m. may_read (collect_fields rule []) m ≡ true)
          (sym ((==_iff "unlock.ip.asn" n).0 e)) h in
      absurd (ground (arith, read))
  | inr e ↦ rw (value_of, lookup, e) refl
]

evaluate-collect_fields_example :
    evaluate plain_library with_asn noon rule ≡ evaluate plain_library (measured 5) noon rule
evaluate-collect_fields_example =
    evaluate-collect_fields plain_library with_asn (measured 5) noon rule with_asn-SameOn

validate-IsWithin_example :
    (exceeds default_limits.max_conditions (size rule) ≡ false)
    × (exceeds default_limits.max_depth (depth_of rule) ≡ false)
validate-IsWithin_example =
    validate-IsWithin plain_library small_registry default_limits rule refl rule_passes

measured-IsTyped : Each (IsTyped (measured 5)) small_registry.fields
unfolding value_of lookup
measured-IsTyped = (
  (refl, λ version. inr refl),
  (
    (
      refl,
      λ version.
          if_cases (λ n. IsOfKind kind_enum (value_of (measured 5) n))
            (true && is_version_one version) _ _ (λ _. inl refl) (λ _. inr refl),
    ),
    tt,
  ),
)

evaluate-total_example : is_some (evaluate plain_library (measured 5) noon rule) ≡ true
evaluate-total_example =
    evaluate-total plain_library (measured 5) noon small_registry default_limits rule
      measured-IsTyped rule_passes

nothing_known : (field : String) → (value_of [] field).known ≡ false
unfolding value_of lookup
nothing_known field = refl

rule_blind : is_blind rule ≡ true
unfolding is_blind
rule_blind = refl

evaluate_unknown_example : evaluate plain_library [] noon rule ≡ some false
evaluate_unknown_example =
    evaluate_unknown plain_library [] noon small_registry default_limits rule nothing_known refl
      rule_passes rule_blind
