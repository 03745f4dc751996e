-- ===== src/Facts/Compare.antt =====
-- internal/nodefacts/evaluate.go: a known value against the operands of a leaf. `none` is an
-- error; its text is not kept. Parsing and printing of numbers, the folding of texts, the order of
-- texts, regular expressions and noderegion's tables are parameters. The cache of compiled patterns
-- gives what the compiler gives.

-- strconv, strings, regexp and encoding/json; ParseFloat gives the bits of a float, and
-- `marshal_size` the number of bytes of a condition's JSON, if it has one.

use easy_proxies_v.Base.{
  Bool, List, Option, String, [], any, eq_ℤ, false, if◌then◌else◌, ltb_ℤ, none, not, pos, some, ℕ,
  ℤ, ◌&&◌, ◌∷◌,
}
use easy_proxies_v.Facts.Condition.{
  Condition, Head, Operand, flag, float32, float64, integer, number, text,
}
use easy_proxies_v.Facts.Schema.{
  Operator, Value, kind_bool, kind_int, kind_set, op_between, op_contains, op_eq, op_gt, op_gte,
  op_in, op_lt, op_lte, op_ne, op_not_contains, op_not_in, op_regex,
}
use easy_proxies_v.Location.Decide.{same_bool}
use easy_proxies_v.Select.Region.{Texts, matches}

pub record Library : Type 0 where
  pub trim_space : String → String
  pub parse_int : String → Option ℤ
  pub parse_float : String → Option ℕ
  pub parse_bool : String → Option Bool
  pub int_of_float64 : ℕ → ℤ
  pub int_of_float32 : ℕ → ℤ
  pub format_int : ℤ → String
  pub format_bool : Bool → String
  pub format_float64 : ℕ → String
  pub format_float32 : ℕ → String
  pub equal_fold : String → String → Bool
  pub to_lower : String → String
  pub contains_text : String → String → Bool
  pub text_less : String → String → Bool
  pub rune_count : String → ℕ
  pub compile : String → Option (String → Bool)
  pub regions : Texts
  pub marshal_size : Condition → Option ℕ

abbrev pub first_of : {A : Type 0} → Option A → Option A → Option A
first_of none other = other
first_of (some a) other = some a

module _ (lib : Library) where
  abbrev pub parsed_float : String → Option ℤ
  parsed_float t = elim (lib.parse_float t) [
    | none ↦ none
    | some bits ↦ some (lib.int_of_float64 bits)
  ]

  unfoldable pub operand_int : Operand → Option ℤ
  operand_int (integer n) = some n
  operand_int (float32 bits) = some (lib.int_of_float32 bits)
  operand_int (float64 bits) = some (lib.int_of_float64 bits)
  operand_int (number t) = first_of (lib.parse_int t) (parsed_float t)
  operand_int (text t) =
      first_of (lib.parse_int (lib.trim_space t)) (parsed_float (lib.trim_space t))
  operand_int _ = none

  unfoldable pub operand_bool : Operand → Option Bool
  operand_bool (flag b) = some b
  operand_bool (text t) = lib.parse_bool (lib.trim_space t)
  operand_bool operand = elim (operand_int operand) [
    | none ↦ none
    | some n ↦ some (not (eq_ℤ n (pos 0)))
  ]

  unfoldable pub operand_string : Operand → Option String
  operand_string (text t) = some t
  operand_string (flag b) = some (lib.format_bool b)
  operand_string (number t) = some t
  operand_string (float64 bits) = some (lib.format_float64 bits)
  operand_string (float32 bits) = some (lib.format_float32 bits)
  operand_string (integer n) = some (lib.format_int n)
  operand_string _ = none

  -- Whether an operand can be read and passes a test: the body of the loops over `Values`.
  abbrev pub reads {ℓ} : {A : Type ℓ} → (Operand → Option A) → (A → Bool) → Operand → Bool
  reads read test operand = elim (read operand) [ none ↦ false | some wanted ↦ test wanted ]

  abbrev pub is_among_int : ℤ → List Operand → Bool
  is_among_int actual values = any (reads operand_int (λ w. eq_ℤ w actual)) values

  -- The two bounds of a range, put in order; an error when there are not two or one is unreadable.
  abbrev pub between {ℓ} :
      {A : Type ℓ} → (Operand → Option A) → (A → A → Bool) → A → List Operand → Option Bool
  between read less actual (first ∷ second ∷ []) = elim (read first) [
    | none ↦ none
    | some low ↦ elim (read second) [
      | none ↦ none
      | some high ↦ some (
          if less high low
          then not (less actual high) && not (less low actual)
          else not (less actual low) && not (less high actual))
    ]
  ]
  between read less actual _ = none

  abbrev pub order_int : Operator → ℤ → ℤ → Option Bool
  order_int op_eq actual wanted = some (eq_ℤ actual wanted)
  order_int op_ne actual wanted = some (not (eq_ℤ actual wanted))
  order_int op_gt actual wanted = some (ltb_ℤ wanted actual)
  order_int op_gte actual wanted = some (not (ltb_ℤ actual wanted))
  order_int op_lt actual wanted = some (ltb_ℤ actual wanted)
  order_int op_lte actual wanted = some (not (ltb_ℤ wanted actual))
  order_int _ actual wanted = none

  -- The operators that compare with `Value`.
  abbrev pub against {ℓ} :
      {A : Type ℓ} → (Operand → Option A) → (A → Option Bool) → Operand → Option Bool
  against read test operand = elim (read operand) [ none ↦ none | some wanted ↦ test wanted ]

  unfoldable pub compare_int : ℤ → Head → Option Bool
  compare_int actual c = elim c.op [
    | op_in ↦ some (is_among_int actual c.values)
    | op_not_in ↦ some (not (is_among_int actual c.values))
    | op_between ↦ between operand_int ltb_ℤ actual c.values
    | op ↦ against operand_int (order_int op actual) c.value
  ]

  abbrev pub equal_bool : Operator → Bool → Bool → Option Bool
  equal_bool op_eq actual wanted = some (same_bool actual wanted)
  equal_bool op_ne actual wanted = some (not (same_bool actual wanted))
  equal_bool _ actual wanted = none

  unfoldable pub compare_bool : Bool → Head → Option Bool
  compare_bool actual c = against operand_bool (equal_bool c.op actual) c.value

  abbrev pub contains_fold : List String → String → Bool
  contains_fold values wanted = any (λ v. lib.equal_fold v wanted) values

  abbrev pub intersects : List String → List Operand → Bool
  intersects actual values = any (reads operand_string (contains_fold actual)) values

  unfoldable pub compare_set : List String → Head → Option Bool
  compare_set actual c = elim c.op [
    | op_contains ↦ against operand_string (λ w. some (contains_fold actual w)) c.value
    | op_not_contains ↦ against operand_string (λ w. some (not (contains_fold actual w))) c.value
    | op_in ↦ some (intersects actual c.values)
    | op_not_in ↦ some (not (intersects actual c.values))
    | _ ↦ none
  ]

  abbrev pub contains_fold_text : String → String → Bool
  contains_fold_text haystack needle =
      lib.contains_text (lib.to_lower haystack) (lib.to_lower needle)

  abbrev pub order_text : Operator → String → String → Option Bool
  order_text op_eq actual wanted = some (lib.equal_fold actual wanted)
  order_text op_ne actual wanted = some (not (lib.equal_fold actual wanted))
  order_text op_contains actual wanted = some (contains_fold_text actual wanted)
  order_text op_not_contains actual wanted = some (not (contains_fold_text actual wanted))
  order_text op_regex actual wanted = elim (lib.compile wanted) [
    | none ↦ none
    | some expression ↦ some (expression actual)
  ]
  order_text op_gt actual wanted = some (lib.text_less wanted actual)
  order_text op_gte actual wanted = some (not (lib.text_less actual wanted))
  order_text op_lt actual wanted = some (lib.text_less actual wanted)
  order_text op_lte actual wanted = some (not (lib.text_less wanted actual))
  order_text _ actual wanted = none

  abbrev pub is_among : String → List Operand → Bool
  is_among actual values = any (reads operand_string (λ w. lib.equal_fold w actual)) values

  unfoldable pub compare_string : String → Head → Option Bool
  compare_string actual c = elim c.op [
    | op_in ↦ some (is_among actual c.values)
    | op_not_in ↦ some (not (is_among actual c.values))
    | op_between ↦ between operand_string lib.text_less actual c.values
    | op ↦ against operand_string (order_text op actual) c.value
  ]

  unfoldable pub compare_value : Value → Head → Option Bool
  compare_value v c = elim v.kind [
    | kind_int ↦ compare_int v.num c
    | kind_bool ↦ compare_bool v.bool c
    | kind_set ↦ compare_set v.set c
    | _ ↦ compare_string v.str c
  ]

  -- Only a text can name a region.
  abbrev pub names_region : String → Operand → Bool
  names_region actual (text t) = matches lib.regions actual (t ∷ []) false 2
  names_region actual _ = false

  unfoldable pub compare_region : Value → Head → Option Bool
  compare_region v c = elim c.op [
    | op_eq ↦ some (names_region v.str c.value)
    | op_ne ↦ some (not (names_region v.str c.value))
    | op_in ↦ some (any (names_region v.str) c.values)
    | op_not_in ↦ some (not (any (names_region v.str) c.values))
    | _ ↦ compare_value v c
  ]
