-- ===== src/Facts/Sound.antt =====
-- A rule that passes `Validate` never fails in `Evaluate`.

-- A fact is unknown or has the kind of its field.

use easy_proxies_v.Base.{
  Bool, Bool-cases, Each, Each-lookup, List, Option, String, String_eq, [], any, arith, false,
  found_cases, if_cases, inl, inr, length, ltb_ℤ, nat_eq, negsuc, none, not, pos, refl, some, subst,
  suc, true, zero, ℕ, ℤ, ◌&&◌, ◌||◌, ◌∷◌, ◌≡◌, ◌⊎◌,
}
use easy_proxies_v.Facts.Compare.{
  Library, between, compare_bool, compare_int, compare_region, compare_set, compare_string,
  compare_value, operand_int,
}
use easy_proxies_v.Facts.Condition.{Head, Operand}
use easy_proxies_v.Facts.Evaluate.{evaluate_leaf, fact_of, field_read, judge_leaf, observes_unknown}
use easy_proxies_v.Facts.Schema.{
  Arity, Field, Kind, NodeFacts, Operator, Registry, Value, aged, arity_many, arity_none, arity_one,
  arity_two, duration, field_of, is_older, kind_bool, kind_enum, kind_int, kind_other, kind_set,
  kind_string, op_between, op_in, op_is_known, op_is_unknown, op_not_in, op_regex, operator_arity,
  operators_for_kind, same_op, value_of,
}
use easy_proxies_v.Facts.Validate.{
  Limits, every, fits_kind, is_some, validate_arity, validate_field, validate_leaf,
  validate_operand, validate_regex,
}

abbrev pub IsOfKind : Kind → Value → Type 0
IsOfKind k v = (v.known ≡ false) ⊎ (v.kind ≡ k)

-- What the registry and a node's facts keep to: each field has the operators of its kind, and
-- the fact behind it has its kind, in both versions of the region field.
abbrev pub IsTyped : NodeFacts → String → Field → Type 0
IsTyped facts name field =
    (field.operators ≡ operators_for_kind field.kind)
    × ((version : ℤ) → IsOfKind field.kind (value_of facts (field_read version name)))

and_left : (a b : Bool) → (a && b) ≡ true → a ≡ true
and_left a b h = ground arith

every_weaken {ℓ} :
    {A : Type ℓ} {p q : A → Bool}
    → ((a : A) → p a ≡ true → q a ≡ true)
    → (xs : List A) → every p xs ≡ true
    → every q xs ≡ true
every_weaken f [] h = refl
every_weaken f (x ∷ xs) h = ground (arith, f x, every_weaken f xs)

module _ (lib : Library) where
  between-total {ℓ} :
      {A : Type ℓ} (read : Operand → Option A) (less : A → A → Bool) (actual : A)
      (values : List Operand)
      → nat_eq (length values) 2 ≡ true
      → every (λ o. is_some (read o)) values ≡ true
      → is_some (between lib read less actual values) ≡ true
  between-total read less actual [] n h = absurd (ground arith)
  between-total read less actual (a ∷ []) n h = absurd (ground arith)
  between-total read less actual (a ∷ b ∷ []) n h = ground arith
  between-total read less actual (a ∷ b ∷ c ∷ values) n h = absurd (ground arith)

  validate_operand-fits :
      (field : Field) (op : Operator) (o : Operand)
      → validate_operand lib field op o ≡ true
      → fits_kind lib field.kind o ≡ true
  unfolding validate_operand
  validate_operand-fits field op o h = and_left _ _ h

  -- The operands that an operator reads can be read.
  abbrev readable : Kind → Operator → Head → Bool
  readable k op c = elim op [
    | op_in ↦ true
    | op_not_in ↦ true
    | op_is_unknown ↦ true
    | op_is_known ↦ true
    | op_between ↦ nat_eq (length c.values) 2 && every (fits_kind lib k) c.values
    | _ ↦ fits_kind lib k c.value
  ]

  validate_arity-readable :
      (field : Field) (limits : Limits) (c : Head) (op : Operator) (arity : Arity)
      → operator_arity op ≡ some arity
      → validate_arity lib field arity limits c ≡ true
      → readable field.kind op c ≡ true
  unfolding operator_arity validate_arity
  validate_arity-readable field limits c op arity_none e v = ground arith
  validate_arity-readable field limits c op arity_one e v =
      ground (arith, validate_operand-fits field c.op c.value)
  validate_arity-readable field limits c op arity_many e v = ground arith
  validate_arity-readable field limits c op arity_two e v =
      ground (arith, every_weaken (validate_operand-fits field c.op) c.values)

  -- The operators that compare a value of a kind.
  abbrev compares : Kind → Operator → Bool
  compares k op = not (observes_unknown op) && any (λ o. same_op o op) (operators_for_kind k)

  compare_int-total :
      (n : ℤ) (c : Head) (op : Operator)
      → compares kind_int op ≡ true
      → readable kind_int op c ≡ true
      → is_some (compare_int lib n (record c { op = op })) ≡ true
  unfolding compare_int operators_for_kind
  compare_int-total n c op k r = ground (arith, between-total (operand_int lib) ltb_ℤ n c.values)

  compare_bool-total :
      (b : Bool) (c : Head) (op : Operator)
      → compares kind_bool op ≡ true
      → readable kind_bool op c ≡ true
      → is_some (compare_bool lib b (record c { op = op })) ≡ true
  unfolding compare_bool operators_for_kind
  compare_bool-total b c op k r = ground arith

  compare_set-total :
      (xs : List String) (c : Head) (op : Operator)
      → compares kind_set op ≡ true
      → readable kind_set op c ≡ true
      → is_some (compare_set lib xs (record c { op = op })) ≡ true
  unfolding compare_set operators_for_kind
  compare_set-total xs c op k r = ground arith

  compare_string-total :
      (t : String) (c : Head) (limits : Limits) (op : Operator)
      → compares kind_string op ≡ true
      → readable kind_string op c ≡ true
      → (not (same_op op op_regex) || validate_regex lib c.value limits) ≡ true
      → is_some (compare_string lib t (record c { op = op })) ≡ true
  unfolding compare_string operators_for_kind validate_regex
  compare_string-total t c limits op k r g = ground arith

  -- A leaf of a kind that `Validate` lets through.
  abbrev IsComparable : Kind → Limits → Head → Type 0
  IsComparable k limits c =
      (compares k c.op ≡ true)
      × (readable k c.op c ≡ true)
      × ((not (same_op c.op op_regex) || validate_regex lib c.value limits) ≡ true)

  compares_text : (op : Operator) → compares kind_enum op ≡ true → compares kind_string op ≡ true
  unfolding operators_for_kind
  compares_text op h = ground arith

  compare_value-total :
      (k : Kind) (v : Value) (limits : Limits) (c : Head)
      → v.kind ≡ k
      → IsComparable k limits c
      → is_some (compare_value lib v c) ≡ true
  unfolding compare_value operators_for_kind
  compare_value-total kind_int v limits c e (k, r, g) = rw e (compare_int-total v.num c c.op k r)
  compare_value-total kind_bool v limits c e (k, r, g) = rw e (compare_bool-total v.bool c c.op k r)
  compare_value-total kind_set v limits c e (k, r, g) = rw e (compare_set-total v.set c c.op k r)
  compare_value-total kind_string v limits c e (k, r, g) =
      rw e (compare_string-total v.str c limits c.op k r g)
  compare_value-total kind_other v limits c e (k, r, g) =
      rw e (compare_string-total v.str c limits c.op k r g)
  compare_value-total kind_enum v limits c e (k, r, g) =
      rw e (compare_string-total v.str c limits c.op (compares_text c.op k) r g)

  compare_region-total :
      (k : Kind) (v : Value) (limits : Limits) (c : Head)
      → v.kind ≡ k
      → IsComparable k limits c
      → is_some (compare_region lib v c) ≡ true
  unfolding compare_region
  compare_region-total k v limits c e h = ground (arith, compare_value-total k v limits c e h)

  judge_leaf-total :
      (facts : NodeFacts) (now : ℕ) (version : ℤ) (c : Head) (limits : Limits) (k : Kind)
      (v : Value)
      → IsOfKind k v
      → (observes_unknown c.op ≡ true) ⊎ IsComparable k limits c
      → is_some (judge_leaf lib facts now version c v) ≡ true
  unfolding judge_leaf
  judge_leaf-total facts now version c limits k v (inl u) (inl o) = ground arith
  judge_leaf-total facts now version c limits k v (inr e) (inl o) = ground arith
  judge_leaf-total facts now version c limits k v (inl u) (inr h) = ground arith
  judge_leaf-total facts now version c limits k v (inr e) (inr h) =
      ground (arith, compare_value-total k v limits c e h, compare_region-total k v limits c e h)

  aged-IsOfKind :
      (age : ℤ) (now : ℕ) (k : Kind) (v : Value) → IsOfKind k v → IsOfKind k (aged age now v)
  unfolding aged
  aged-IsOfKind (negsuc a) now k v h = h
  aged-IsOfKind (pos zero) now k v h = h
  aged-IsOfKind (pos (suc a)) now k v h =
      if_cases (IsOfKind k) (not v.known || nat_eq v.checked_at 0) _ _ (λ _. h)
        (λ _.
          if_cases (IsOfKind k) (is_older (suc a) now v.checked_at) _ _ (λ _. inl refl) (λ _. h))

  validate_field-IsComparable :
      (limits : Limits) (c : Head) (field : Field) (arity : Arity)
      → operator_arity c.op ≡ some arity
      → field.operators ≡ operators_for_kind field.kind
      → validate_field lib limits c field arity ≡ true
      → (observes_unknown c.op ≡ true) ⊎ IsComparable field.kind limits c
  validate_field-IsComparable limits c field arity e o v =
      elim (Bool-cases (observes_unknown c.op)) [
        | inl u ↦ inl u
        | inr u ↦ inr (
          rw u (
              subst (λ (ops : List Operator). any (λ p. same_op p c.op) ops ≡ true) o
                (and_left _ _ v)),
          validate_arity-readable field limits c c.op arity e (ground (arith, v)),
          ground (arith, v),
        )
      ]

  pub evaluate_leaf-total :
      (registry : Registry) (limits : Limits) (facts : NodeFacts) (now : ℕ) (version : ℤ) (c : Head)
      → Each (IsTyped facts) registry.fields
      → validate_leaf lib registry limits c ≡ true
      → is_some (evaluate_leaf lib facts now version c) ≡ true
  unfolding evaluate_leaf fact_of validate_leaf
  evaluate_leaf-total registry limits facts now version c typed v =
      let (field, f, rest) =
        found_cases (field_of registry c.field_name)
          (λ field. elim (operator_arity c.op) [
            | none ↦ false
            | some arity ↦ validate_field lib limits c field arity
          ])
          v in
      let (arity, a, checks) =
        found_cases (operator_arity c.op) (validate_field lib limits c field) rest in
      let (standard, kinds) = Each-lookup (IsTyped facts) c.field_name registry.fields typed f in
      judge_leaf-total facts now version c limits field.kind _
        (aged-IsOfKind (duration c.max_age_seconds) now field.kind _ (kinds version))
        (validate_field-IsComparable limits c field arity a standard checks)
