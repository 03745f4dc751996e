-- ===== src/Facts/Evaluate.antt =====
-- internal/nodefacts/evaluate.go: `Evaluate`, in the two versions of region rules. `none` is an
-- error. Version 1 hands its region version down to the children, so the version of a node is an
-- argument beside the node.

use easy_proxies_v.Base.{
  Bool, Option, String, String_eq, eq_ℤ, false, if◌then◌else◌, none, not, pos, some, true, ℕ, ℤ,
  ◌&&◌, ◌==◌, ◌||◌,
}
use easy_proxies_v.Facts.Compare.{Library, compare_region, compare_value}
use easy_proxies_v.Facts.Condition.{
  Condition, Conditions, Head, Match, condition, cons, head_of, is_empty, is_group, match_all,
  match_any, match_none, nil,
}
use easy_proxies_v.Facts.Schema.{
  NodeFacts, Operator, Value, aged, duration, op_is_known, op_is_unknown, value_of,
}
use easy_proxies_v.Location.Decide.{same_bool}

abbrev pub node_region : String
node_region = "node.region"

abbrev pub node_region_legacy : String
node_region_legacy = "_legacy.node.region"

-- What evaluateTruth returns beside the error.
pub record Truth : Type 0 where
  pub matched : Bool
  pub known : Bool

abbrev pub observes_unknown : Operator → Bool
observes_unknown op_is_unknown = true
observes_unknown op_is_known = true
observes_unknown _ = false

abbrev pub is_combinator : Match → Bool
is_combinator match_all = true
is_combinator match_any = true
is_combinator match_none = true
is_combinator _ = false

-- The answer at which the loop over the children stops.
abbrev pub decided : Match → Bool → Option Truth
decided match_all false = some (record { matched = false; known = true })
decided match_any true = some (record { matched = true; known = true })
decided match_none true = some (record { matched = false; known = true })
decided _ _ = none

-- An unknown child is passed over.
abbrev pub stops : Match → Truth → Option Truth
stops match_with t = if not t.known then none else decided match_with t.matched

abbrev pub after_child : Match → Truth → Option Truth → Option Truth
after_child match_with t rest = elim (stops match_with t) [
  | some answer ↦ some answer
  | none ↦ rest
]

-- After the loop.
abbrev pub undecided : Match → Bool → Option Truth
undecided match_with unknown =
    if not (is_combinator match_with)
    then none
    else if unknown
    then some (record { matched = false; known = false })
    else some (record { matched = elim match_with [ match_any ↦ false | _ ↦ true ]; known = true })

abbrev pub is_version_one : ℤ → Bool
is_version_one version = eq_ℤ version (pos 1)

abbrev pub field_read : ℤ → String → String
field_read version name =
    if name == node_region && is_version_one version then node_region_legacy else name

abbrev pub flip : Bool → Option Bool → Option Bool
flip negate result = elim result [
  | none ↦ none
  | some matched ↦ some (not (same_bool negate matched))
]

-- The combinator of a version 1 group, over what the loop for `all` and the other loop give.
abbrev pub evaluate_group : Match → Option Bool → Option Bool → Option Bool
evaluate_group match_all all_matched any_matched = all_matched
evaluate_group match_any all_matched any_matched = any_matched
evaluate_group match_none all_matched any_matched = elim any_matched [
  | none ↦ none
  | some matched ↦ some (not matched)
]
evaluate_group _ all_matched any_matched = none

module _ (lib : Library) (facts : NodeFacts) (now : ℕ) where
  -- The fact that a leaf reads, unknown when it is too old.
  unfoldable pub fact_of : String → Head → Value
  fact_of field c = aged (duration c.max_age_seconds) now (value_of facts field)

  -- The leaf once its fact is read.
  unfoldable pub judge_leaf : ℤ → Head → Value → Option Bool
  judge_leaf version c value = elim c.op [
    | op_is_unknown ↦ some (not (same_bool c.negate (not value.known)))
    | op_is_known ↦ some (not (same_bool c.negate value.known))
    | _ ↦
        if not value.known
        then some false
        else if c.field_name == node_region && not (is_version_one version)
        then flip c.negate (compare_region lib value c)
        else flip c.negate (compare_value lib value c)
  ]

  unfoldable pub evaluate_leaf : ℤ → Head → Option Bool
  evaluate_leaf version c = judge_leaf version c (fact_of (field_read version c.field_name) c)

  unfoldable pub leaf_truth : Head → Option Truth
  leaf_truth c =
      if not (observes_unknown c.op) && not (fact_of c.field_name c).known
      then some (record { matched = false; known = false })
      else elim (evaluate_leaf (pos 2) c) [
        | none ↦ none
        | some matched ↦ some (record { matched = matched; known = true })
      ]

  unfoldable mutual
    pub evaluate_truth : Condition → Option Truth
    evaluate_truth (condition c children) =
        if not (is_group c) then leaf_truth c else truth_children c.match_with false children

    pub truth_children : Match → Bool → Conditions → Option Truth
    truth_children match_with unknown nil = undecided match_with unknown
    truth_children match_with unknown (cons child rest) = elim (evaluate_truth child) [
      | none ↦ none
      | some t ↦ after_child match_with t (truth_children match_with (unknown || not t.known) rest)
    ]

  unfoldable mutual
    pub evaluate_as : ℤ → Condition → Option Bool
    evaluate_as version (condition c children) =
        if is_empty c children
        then some false
        else if not (is_version_one version)
        then elim (evaluate_truth (condition c children)) [
          | none ↦ none
          | some t ↦ some (t.matched && t.known)
        ]
        else if is_group c
        then evaluate_group c.match_with (all_match version children) (any_match version children)
        else evaluate_leaf version c

    pub all_match : ℤ → Conditions → Option Bool
    all_match version nil = some true
    all_match version (cons child rest) = elim (evaluate_as version child) [
      | none ↦ none
      | some matched ↦ if not matched then some false else all_match version rest
    ]

    pub any_match : ℤ → Conditions → Option Bool
    any_match version nil = some false
    any_match version (cons child rest) = elim (evaluate_as version child) [
      | none ↦ none
      | some matched ↦ if matched then some true else any_match version rest
    ]

  unfoldable pub evaluate : Condition → Option Bool
  evaluate c = evaluate_as (head_of c).region_version c
