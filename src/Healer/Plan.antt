-- ===== src/Healer/Plan.antt =====
-- internal/group/healer.go: `PlanHealing`, `uniquePositiveIDs` and `CapacitySelection`. The set
-- `selected` is a list of node ids; a reason text is not kept.

-- `slices.Compact`.

use easy_proxies_v.Base.{
  Bool, List, Option, String_eq, [], contains, eq_ℤ, false, if◌then◌else◌, inl, inr, keep, leb,
  length, ltb, ltb_ℤ, map, none, not, pos, pos_part, some, sort_by, take, ℕ, ℤ, ℤ_eq, ◌&&◌, ◌++◌,
  ◌-◌, ◌==◌, ◌||◌, ◌∷◌, ◌⊎◌,
}
use easy_proxies_v.Healer.Policy.{
  ActionKind, HealAction, HealCandidate, HealInput, HealPlan, HealPolicy, PlanError, bad_candidate,
  bad_policy, capacity_alert, has_kind, no_clock, probe_quarantined, promote_standby,
  refresh_subscription, validate,
}

unfoldable pub compact : List ℤ → List ℤ
compact [] = []
compact (x ∷ xs) =
    let rest = compact xs in elim xs [ [] ↦ x ∷ rest | y ∷ _ ↦ if eq_ℤ x y then rest else x ∷ rest ]

unfoldable pub unique_positive_ids : List ℤ → List ℤ
unique_positive_ids ids = compact (sort_by ltb_ℤ (keep (λ id. ltb_ℤ (pos 0) id) ids))

-- The loop over the previous slots.
unfoldable pub select_slots : List ℤ → ℕ → List ℤ → List ℤ → List ℤ
select_slots allowed target selected [] = selected
select_slots allowed target selected (id ∷ rest) =
    select_slots allowed target
      (if contains id allowed && ltb (length selected) target
        then selected ++ id ∷ []
        else selected)
      rest

-- A previous selection that is nil is `none`.
unfoldable pub capacity_selection : List ℤ → Option (List ℤ) → ℤ → List ℤ
capacity_selection candidates previous target =
    let ids = unique_positive_ids candidates in
    if not (ltb_ℤ (pos 0) target) then ids else elim previous [
      | none ↦ take (pos_part target) ids
      | some slots ↦ select_slots ids (pos_part target) [] (unique_positive_ids slots)
    ]

-- The first candidate whose id is not positive or was seen before.
unfoldable pub invalid_candidate : List HealCandidate → List ℤ → Option ℤ
invalid_candidate [] seen = none
invalid_candidate (n ∷ rest) seen =
    let later = invalid_candidate rest (n.node_id ∷ seen) in
    if not (ltb_ℤ (pos 0) n.node_id) || contains n.node_id seen then some n.node_id else later

-- The closure `healthy`.
unfoldable pub is_healthy : ℕ → ℤ → HealCandidate → Bool
is_healthy now max_age n = elim n.health_checked_at [
  | none ↦ false
  | some checked ↦
      n.status == "ALIVE"
      && n.available
      && n.initial_check_done
      && not n.provisional
      && leb checked now
      && not (ltb_ℤ max_age (pos (now - checked)))
]

-- The closure `selectNode`.
unfoldable pub select_node : ℤ → ℤ → List ℤ → List ℤ
select_node target id selected =
    if ltb_ℤ (pos (length selected)) target && not (contains id selected)
    then selected ++ id ∷ []
    else selected

unfoldable pub select_where : ℤ → (HealCandidate → Bool) → List HealCandidate → List ℤ → List ℤ
select_where target p [] selected = selected
select_where target p (n ∷ rest) selected =
    select_where target p rest (if p n then select_node target n.node_id selected else selected)

abbrev pub ids_where : (HealCandidate → Bool) → List HealCandidate → List ℤ
ids_where p candidates = map (λ (n : HealCandidate). n.node_id) (keep p candidates)

abbrev pub chosen : List ℤ → HealCandidate → Bool
chosen selected n = contains n.node_id selected

-- The asynchronous actions of a group that is short, in the configured order.
unfoldable pub refill_actions : ℕ → List HealCandidate → List ℤ → List ActionKind → List HealAction
refill_actions now candidates subscriptions [] = []
refill_actions now candidates subscriptions (probe_quarantined ∷ rest) =
    let later = refill_actions now candidates subscriptions rest in
    elim (ids_where
      (λ n. n.status == "EVICTED" && n.recovery_enabled && leb n.recovery_cooldown_end now)
      candidates) [
        | [] ↦ later
        | id ∷ ids ↦
            record {
              kind = probe_quarantined;
              node_ids = id ∷ ids;
              removed_ids = [];
              subscription_ids = [];
            }
            ∷ later
      ]
refill_actions now candidates subscriptions (refresh_subscription ∷ rest) =
    let later = refill_actions now candidates subscriptions rest in
    elim (unique_positive_ids subscriptions) [
      | [] ↦ later
      | id ∷ ids ↦
          record {
            kind = refresh_subscription;
            node_ids = [];
            removed_ids = [];
            subscription_ids = id ∷ ids;
          }
          ∷ later
    ]
refill_actions now candidates subscriptions (_ ∷ rest) =
    refill_actions now candidates subscriptions rest

-- The nodes that get a slot: healthy members, then healthy standbys when that is short and promotion
-- is configured, then the other members.
unfoldable pub select_members : HealPolicy → (HealCandidate → Bool) → List HealCandidate → List ℤ
select_members policy healthy candidates =
    let target = policy.target_size in
    let current = select_where target (λ n. n.active && healthy n) candidates [] in
    let promoted =
      if ltb_ℤ (pos (length current)) policy.min_healthy && has_kind promote_standby policy.refill
      then select_where target (λ n. not n.active && healthy n) candidates current
      else current in
    select_where target (λ n. n.active) candidates promoted

abbrev pub promotion : List ℤ → List ℤ → List HealAction
promotion [] [] = []
promotion added removed =
    record {
      kind = promote_standby;
      node_ids = added;
      removed_ids = removed;
      subscription_ids = [];
    }
    ∷ []

abbrev pub alert : HealAction
alert = record { kind = capacity_alert; node_ids = []; removed_ids = []; subscription_ids = [] }

-- The plan of a valid input with capacity management on; `candidates` are sorted.
unfoldable pub plan_for : HealInput → ℕ → List HealCandidate → HealPlan
plan_for input now candidates =
    let healthy = is_healthy now input.max_health_age in
    let selected = select_members input.policy healthy candidates in
    let projected = length (keep (λ n. chosen selected n && healthy n) candidates) in
    let deficit = pos_part input.policy.min_healthy - projected in
    let added = ids_where (λ n. chosen selected n && not n.active) candidates in
    let removed = ids_where (λ n. not (chosen selected n) && n.active) candidates in
    record {
      group_id = input.group_id;
      dry_run = not input.policy.execute;
      healthy = length (keep (λ n. n.active && healthy n) candidates);
      projected = projected;
      deficit = deficit;
      desired_ids = ids_where (chosen selected) candidates;
      standby_ids = ids_where (λ n. not (chosen selected n)) candidates;
      actions =
          promotion added removed
          ++ (if ltb 0 deficit
              then refill_actions now candidates input.subscription_ids input.policy.refill
                ++ alert ∷ []
              else []);
    }

abbrev pub empty_plan : HealInput → HealPlan
empty_plan input = record {
  group_id = input.group_id;
  dry_run = not input.policy.execute;
  healthy = 0;
  projected = 0;
  deficit = 0;
  desired_ids = [];
  standby_ids = [];
  actions = [];
}

-- The checks after the policy's.
unfoldable pub plan_checked : HealInput → HealPlan ⊎ PlanError
plan_checked input =
    if eq_ℤ input.policy.target_size (pos 0) then inl (empty_plan input) else elim input.now [
      | none ↦ inr no_clock
      | some now ↦
          if not (ltb_ℤ (pos 0) input.max_health_age)
          then inr no_clock
          else let candidates =
              sort_by (λ (a b : HealCandidate). ltb_ℤ a.node_id b.node_id) input.candidates in
            elim (invalid_candidate candidates []) [
              | some id ↦ inr (bad_candidate id)
              | none ↦ inl (plan_for input now candidates)
            ]
    ]

unfoldable pub plan_healing : HealInput → HealPlan ⊎ PlanError
plan_healing input = elim (validate input.policy) [
  | some e ↦ inr (bad_policy e)
  | none ↦ plan_checked input
]
