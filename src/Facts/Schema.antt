-- ===== src/Facts/Schema.antt =====
-- internal/nodefacts/schema.go and fact.go: kinds, operators, the field registry and values. A
-- field keeps what rules read; its label, unit, option key and source are display text.

use easy_proxies_v.Base.{
  Bool, List, Option, String, String_eq, [], any, false, if◌then◌else◌, insert, lookup, ltb, map,
  min, nat_eq, negsuc, none, not, pos, some, suc, zero, ℕ, ℤ, ◌%◌, ◌*◌, ◌++◌, ◌-◌, ◌==◌, ◌^◌, ◌||◌,
  ◌∷◌,
}

pub data Kind : Type 0 where
  kind_string kind_enum kind_int kind_bool kind_set kind_other : Kind

-- `no_op` is the empty text, `other_op` every text that names no operator.
pub data Operator : Type 0 where
  op_eq op_ne op_in op_not_in op_contains op_not_contains : Operator
  op_gt op_gte op_lt op_lte op_between op_regex op_is_unknown op_is_known no_op other_op : Operator

abbrev pub op_code : Operator → ℕ
op_code op_eq = 0
op_code op_ne = 1
op_code op_in = 2
op_code op_not_in = 3
op_code op_contains = 4
op_code op_not_contains = 5
op_code op_gt = 6
op_code op_gte = 7
op_code op_lt = 8
op_code op_lte = 9
op_code op_between = 10
op_code op_regex = 11
op_code op_is_unknown = 12
op_code op_is_known = 13
op_code no_op = 14
op_code other_op = 15

abbrev pub same_op : Operator → Operator → Bool
same_op a b = nat_eq (op_code a) (op_code b)

pub data Arity : Type 0 where
  arity_one arity_many arity_two arity_none : Arity

unfoldable pub operator_arity : Operator → Option Arity
operator_arity op_in = some arity_many
operator_arity op_not_in = some arity_many
operator_arity op_between = some arity_two
operator_arity op_is_unknown = some arity_none
operator_arity op_is_known = some arity_none
operator_arity no_op = none
operator_arity other_op = none
operator_arity _ = some arity_one

unfoldable pub operators_for_kind : Kind → List Operator
operators_for_kind kind_int =
    op_eq ∷ op_ne ∷ op_gt ∷ op_gte ∷ op_lt ∷ op_lte ∷ op_between ∷ op_in ∷ op_not_in ∷ op_is_known
    ∷ op_is_unknown ∷ []
operators_for_kind kind_bool = op_eq ∷ op_ne ∷ op_is_known ∷ op_is_unknown ∷ []
operators_for_kind kind_enum = op_eq ∷ op_ne ∷ op_in ∷ op_not_in ∷ op_is_known ∷ op_is_unknown ∷ []
operators_for_kind kind_set =
    op_contains ∷ op_not_contains ∷ op_in ∷ op_not_in ∷ op_is_known ∷ op_is_unknown ∷ []
operators_for_kind _ =
    op_eq ∷ op_ne ∷ op_in ∷ op_not_in ∷ op_contains ∷ op_not_contains ∷ op_regex ∷ op_is_known
    ∷ op_is_unknown ∷ []

pub record Field : Type 0 where
  pub name : String
  pub group : String
  pub kind : Kind
  pub operators : List Operator
  pub supports_max_age : Bool

abbrev pub supports_operator : Field → Operator → Bool
supports_operator field op = any (λ candidate. same_op candidate op) field.operators

pub record Registry : Type 0 where
  pub fields : List (String × Field)
  pub order : List String

abbrev pub new_registry : Registry
new_registry = record { fields = []; order = [] }

-- `if len(field.Operators) == 0 { ... }`
abbrev pub with_operators : Field → Field
with_operators field = elim field.operators [
  | [] ↦ record field { operators = operators_for_kind field.kind }
  | _ ∷ _ ↦ field
]

unfoldable pub register : Field → Registry → Registry
register field registry = if field.name == "" then registry else record {
  fields = insert field.name (with_operators field) registry.fields;
  order = elim (lookup field.name registry.fields) [
    | none ↦ registry.order ++ field.name ∷ []
    | some _ ↦ registry.order
  ];
}

abbrev pub field_of : Registry → String → Option Field
field_of registry name = lookup name registry.fields

-- The zero value of a field, which `Fields` puts for a name without an entry.
abbrev pub no_field : Field
no_field = record {
  name = "";
  group = "";
  kind = kind_other;
  operators = [];
  supports_max_age = false;
}

abbrev pub field_or_zero : Registry → String → Field
field_or_zero registry name = elim (field_of registry name) [ none ↦ no_field | some f ↦ f ]

unfoldable pub fields : Registry → List Field
fields registry = map (field_or_zero registry) registry.order

pub record Value : Type 0 where
  pub kind : Kind
  pub known : Bool
  pub checked_at : ℕ
  pub str : String
  pub num : ℤ
  pub bool : Bool
  pub set : List String

-- The zero value, which is unknown.
abbrev pub no_value : Value
no_value = record {
  kind = kind_other;
  known = false;
  checked_at = 0;
  str = "";
  num = pos 0;
  bool = false;
  set = [];
}

abbrev pub NodeFacts : Type 0
NodeFacts = List (String × Value)

unfoldable pub value_of : NodeFacts → String → Value
value_of facts field = elim (lookup field facts) [ none ↦ no_value | some v ↦ v ]

unfoldable pub set_value : String → Value → NodeFacts → NodeFacts
set_value field value facts = if field == "" then facts else insert field value facts

abbrev pub max_duration : ℕ
max_duration = 2 ^ 63 - 1

-- A 64-bit signed integer from the bits of a natural number.
abbrev pub int64_of : ℕ → ℤ
int64_of n = let low = n % 2 ^ 64 in if ltb low (2 ^ 63) then pos low else negsuc (2 ^ 64 - low - 1)

-- `time.Duration(seconds) * time.Second`; a negative number is not used (`if MaxAgeSeconds > 0`).
abbrev pub duration : ℤ → ℤ
duration (pos s) = int64_of (s * 1000000000)
duration (negsuc s) = negsuc s

-- `now.Sub(then) > age` for a positive age: `Sub` stops at the longest duration.
abbrev pub is_older : ℕ → ℕ → ℕ → Bool
is_older age now then_at = ltb age (min (now - then_at) max_duration)

unfoldable pub aged : ℤ → ℕ → Value → Value
aged (negsuc _) now value = value
aged (pos zero) now value = value
aged (pos (suc age)) now value =
    if not value.known || nat_eq value.checked_at 0
    then value
    else if is_older (suc age) now value.checked_at
    then record value { known = false }
    else value
