-- ===== src/Healer/Capacity.antt =====
-- What `PlanHealing` and `CapacitySelection` of internal/group/healer.go keep to.

use easy_proxies_v.Base.{
  All, Bool, List, any, contains, inl, inr, keep, length, ltb, map, none, pos_part, some, true, ℕ,
  ℤ_eq, ◌&&◌, ◌+◌, ◌-◌, ◌≡◌, ◌≤◌, ◌⊎◌,
}
use easy_proxies_v.Healer.Plan.{is_healthy}
use easy_proxies_v.Healer.Policy.{
  HealAction, HealCandidate, HealInput, HealPlan, PlanError, capacity_alert, kind_eq,
}

-- The candidates with a slot in the plan that are healthy.
abbrev pub in_service : HealInput → HealPlan → ℕ
in_service input plan = elim input.now [
  | none ↦ 0
  | some now ↦ length (
      keep
        (λ (n : HealCandidate).
          contains n.node_id plan.desired_ids && is_healthy now input.max_health_age n)
        input.candidates)
]

abbrev pub is_alert : HealAction → Bool
is_alert a = kind_eq a.kind capacity_alert

-- What a plan promises: slots within the target, every candidate in a slot or on standby, the
-- healthy candidates with a slot as the projected ones, a deficit that is what those lack of the
-- minimum, and an alert exactly when there is a deficit.
abbrev pub Fits : HealInput → HealPlan → Type 0
Fits input plan =
    (length plan.desired_ids ≤ pos_part input.policy.target_size)
    × (length plan.desired_ids + length plan.standby_ids ≡ length input.candidates)
    × (plan.projected ≡ in_service input plan)
    × (plan.deficit ≡ pos_part input.policy.min_healthy - in_service input plan)
    × (any is_alert plan.actions ≡ ltb 0 plan.deficit)

abbrev AreListed : List HealCandidate → List HealCandidate → Type 0
AreListed all =
    All (λ (n : HealCandidate).
      contains n.node_id (map (λ (m : HealCandidate). m.node_id) all) ≡ true)

-- A result that is an error or a plan that fits.
abbrev FitsIfPlanned : HealInput → HealPlan ⊎ PlanError → Type 0
FitsIfPlanned input (inl plan) = Fits input plan
FitsIfPlanned input (inr e) = Unit
