-- ===== src/Facts/Condition.antt =====
-- internal/nodefacts/condition.go: the condition tree. `head_of` and `children_of` read a node as
-- the source's struct does: a group and a leaf are the same type.

use easy_proxies_v.Base.{
  Bool, List, String, String_eq, [], contains, false, if◌then◌else◌, not, true, ℕ, ℤ, ◌&&◌, ◌++◌,
  ◌==◌, ◌||◌, ◌∷◌,
}
use easy_proxies_v.Facts.Schema.{Operator, no_op, same_op}

pub data Match : Type 0 where
  match_all match_any match_none no_match other_match : Match

-- A value of Go's `any`, as JSON decoders make it. A float is the number that encodes its bits;
-- `other_value` is a map or a slice.
pub data Operand : Type 0 where
  no_operand other_value : Operand
  text : String → Operand
  flag : Bool → Operand
  integer : ℤ → Operand
  float64 : ℕ → Operand
  float32 : ℕ → Operand
  number : String → Operand

pub record Head : Type 0 where
  pub region_version : ℤ
  pub match_with : Match
  pub field_name : String
  pub op : Operator
  pub value : Operand
  pub values : List Operand
  pub max_age_seconds : ℤ
  pub negate : Bool

mutual
  pub data Condition : Type 0 where
    condition : Head → Conditions → Condition

  pub data Conditions : Type 0 where
    nil : Conditions
    cons : Condition → Conditions → Conditions

abbrev pub head_of : Condition → Head
head_of (condition head children) = head

abbrev pub children_of : Condition → Conditions
children_of (condition head children) = children

abbrev pub no_children : Conditions → Bool
no_children nil = true
no_children (cons c cs) = false

abbrev pub is_group : Head → Bool
is_group head = elim head.match_with [ no_match ↦ false | _ ↦ true ]

abbrev pub is_empty : Head → Conditions → Bool
is_empty head children =
    not (is_group head)
    && (head.field_name == "" && (same_op head.op no_op && no_children children))

-- collectFields: the names into a set, here in the order of the visit.
unfoldable mutual
  pub collect_fields : Condition → List String → List String
  collect_fields (condition head children) seen = collect_children children (
      if head.field_name == "" || contains head.field_name seen
      then seen
      else seen ++ head.field_name ∷ [])

  pub collect_children : Conditions → List String → List String
  collect_children nil seen = seen
  collect_children (cons c cs) seen = collect_children cs (collect_fields c seen)
