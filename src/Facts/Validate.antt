-- ===== src/Facts/Validate.antt =====
-- internal/nodefacts/condition.go: `Validate`. The limits are positive where the source tests them,
-- 0 is no limit. The counter of conditions is passed on; `none` is an error, `some n` success with
-- the counter at n.

use easy_proxies_v.Base.{
  Bool, List, Option, String_eq, [], false, if◌then◌else◌, length, ltb, ltb_ℤ, nat_eq, negsuc, none,
  not, pos, some, true, ℕ, ℤ, ◌&&◌, ◌+◌, ◌==◌, ◌||◌, ◌∷◌,
}
use easy_proxies_v.Facts.Compare.{Library, operand_bool, operand_int, operand_string}
use easy_proxies_v.Facts.Condition.{
  Condition, Conditions, Head, Operand, condition, cons, is_empty, is_group, nil, no_children,
  no_operand,
}
use easy_proxies_v.Facts.Evaluate.{is_combinator}
use easy_proxies_v.Facts.Schema.{
  Arity, Field, Kind, Operator, Registry, arity_many, arity_none, arity_one, arity_two, field_of,
  kind_bool, kind_enum, kind_int, kind_set, kind_string, no_op, op_regex, operator_arity, same_op,
  supports_operator,
}

pub record Limits : Type 0 where
  pub max_conditions : ℕ
  pub max_depth : ℕ
  pub max_value_items : ℕ
  pub max_regex_length : ℕ
  pub max_rule_bytes : ℕ

abbrev pub default_limits : Limits
default_limits = record {
  max_conditions = 50;
  max_depth = 3;
  max_value_items = 100;
  max_regex_length = 200;
  max_rule_bytes = 16384;
}

-- `limit > 0 && n > limit`
abbrev pub exceeds : ℕ → ℕ → Bool
exceeds limit n = ltb 0 limit && ltb limit n

abbrev pub is_present : Operand → Bool
is_present no_operand = false
is_present _ = true

abbrev pub is_some {ℓ} : {A : Type ℓ} → Option A → Bool
is_some none = false
is_some (some a) = true

abbrev pub every {ℓ} : {A : Type ℓ} → (A → Bool) → List A → Bool
every p [] = true
every p (x ∷ xs) = p x && every p xs

module _ (lib : Library) where
  abbrev pub fits_kind : Kind → Operand → Bool
  fits_kind kind_int operand = is_some (operand_int lib operand)
  fits_kind kind_bool operand = is_some (operand_bool lib operand)
  fits_kind _ operand = is_some (operand_string lib operand)

  abbrev pub allows_regex : Kind → Bool
  allows_regex kind_string = true
  allows_regex kind_enum = true
  allows_regex kind_set = true
  allows_regex _ = false

  unfoldable pub validate_operand : Field → Operator → Operand → Bool
  validate_operand field op operand =
      fits_kind field.kind operand && not (same_op op op_regex && not (allows_regex field.kind))

  unfoldable pub validate_arity : Field → Arity → Limits → Head → Bool
  validate_arity field arity_none limits c = not (is_present c.value || ltb 0 (length c.values))
  validate_arity field arity_one limits c =
      is_present c.value && (not (ltb 0 (length c.values)) && validate_operand field c.op c.value)
  validate_arity field arity_two limits c =
      nat_eq (length c.values) 2 && every (validate_operand field c.op) c.values
  validate_arity field arity_many limits c =
      not (nat_eq (length c.values) 0)
      && (not (exceeds limits.max_value_items (length c.values))
          && every (validate_operand field c.op) c.values)

  unfoldable pub validate_regex : Operand → Limits → Bool
  validate_regex operand limits = elim (operand_string lib operand) [
    | none ↦ false
    | some pattern ↦
        not (exceeds limits.max_regex_length (lib.rune_count pattern))
        && is_some (lib.compile pattern)
  ]

  abbrev pub is_negative : ℤ → Bool
  is_negative (pos n) = false
  is_negative (negsuc n) = true

  abbrev pub is_positive : ℤ → Bool
  is_positive n = ltb_ℤ (pos 0) n

  -- The checks of a leaf whose field and operator are known.
  abbrev pub validate_field : Limits → Head → Field → Arity → Bool
  validate_field limits c field arity =
      supports_operator field c.op
      && (not (is_negative c.max_age_seconds)
          && (not (is_positive c.max_age_seconds && not field.supports_max_age)
              && (validate_arity field arity limits c
                  && (not (same_op c.op op_regex) || validate_regex c.value limits))))

  unfoldable pub validate_leaf : Registry → Limits → Head → Bool
  validate_leaf registry limits c = elim (field_of registry c.field_name) [
    | none ↦ false
    | some field ↦ elim (operator_arity c.op) [
      | none ↦ false
      | some arity ↦ validate_field limits c field arity
    ]
  ]

  -- The checks of a group before its children are visited.
  abbrev pub validate_group : Head → Conditions → Bool
  validate_group c children =
      is_combinator c.match_with
      && (not (not (c.field_name == "") || not (same_op c.op no_op)) && not (no_children children))

  unfoldable mutual
    pub validate_node : Registry → Limits → ℕ → ℕ → Condition → Option ℕ
    validate_node registry limits depth count (condition c children) =
        let visited = validate_children registry limits (depth + 1) (count + 1) children in
        if exceeds limits.max_depth depth
        then none
        else if exceeds limits.max_conditions (count + 1)
        then none
        else if is_group c
        then (if validate_group c children then visited else none)
        else if c.field_name == "" || not (no_children children)
        then none
        else if validate_leaf registry limits c
        then some (count + 1)
        else none

    pub validate_children : Registry → Limits → ℕ → ℕ → Conditions → Option ℕ
    validate_children registry limits depth count nil = some count
    validate_children registry limits depth count (cons child rest) =
        elim (validate_node registry limits depth count child) [
          | none ↦ none
          | some visited ↦ validate_children registry limits depth visited rest
        ]

  -- Whether the encoded rule is within its limit; not asked when there is no limit.
  abbrev pub fits_bytes : Limits → Condition → Bool
  fits_bytes limits c =
      if ltb 0 limits.max_rule_bytes
      then elim (lib.marshal_size c) [
        | none ↦ false
        | some bytes ↦ not (ltb limits.max_rule_bytes bytes)
      ]
      else true

  abbrev pub is_version : ℤ → Bool
  is_version version = not (is_negative version) && not (ltb_ℤ (pos 2) version)

  unfoldable pub validate : Registry → Limits → Condition → Bool
  validate registry limits (condition c children) =
      is_version c.region_version
      && (is_empty c children
          || (fits_bytes limits (condition c children)
              && is_some (validate_node registry limits 1 0 (condition c children))))
