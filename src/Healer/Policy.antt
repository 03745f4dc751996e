-- ===== src/Healer/Policy.antt =====
-- internal/group/healer.go: `HealPolicy` and `Validate`, and the types of a plan.

use easy_proxies_v.Base.{
  Bool, List, Option, String, String_eq, [], any, false, if◌then◌else◌, ltb, ltb_ℤ, none, pos, some,
  suc, true, ℕ, ℤ, ◌&&◌, ◌==◌, ◌||◌, ◌∷◌,
}

pub data ActionKind : Type 0 where
  promote_standby probe_quarantined refresh_subscription capacity_alert : ActionKind
  unknown : String → ActionKind

abbrev pub kind_eq : ActionKind → ActionKind → Bool
kind_eq promote_standby promote_standby = true
kind_eq probe_quarantined probe_quarantined = true
kind_eq refresh_subscription refresh_subscription = true
kind_eq capacity_alert capacity_alert = true
kind_eq (unknown a) (unknown b) = a == b
kind_eq _ _ = false

pub record HealPolicy : Type 0 where
  pub min_healthy : ℤ
  pub target_size : ℤ
  pub execute : Bool
  pub refill : List ActionKind

pub data PolicyError : Type 0 where
  capacity_out_of_range : PolicyError
  unknown_action : ActionKind → PolicyError
  duplicate_action : ActionKind → PolicyError
  wrong_order : PolicyError

-- `slices.Index` in the three refill actions.
abbrev pub refill_order : ActionKind → Option ℕ
refill_order promote_standby = some 0
refill_order probe_quarantined = some 1
refill_order refresh_subscription = some 2
refill_order capacity_alert = none
refill_order (unknown _) = none

abbrev pub has_kind : ActionKind → List ActionKind → Bool
has_kind k kinds = any (kind_eq k) kinds

-- The loop over the refill; `next` is `previous + 1`, so that no action yet is 0.
unfoldable pub validate_refill : List ActionKind → List ActionKind → ℕ → Option PolicyError
validate_refill [] seen next = none
validate_refill (action ∷ rest) seen next = elim (refill_order action) [
  | none ↦ some (unknown_action action)
  | some order ↦
      if has_kind action seen
      then some (duplicate_action action)
      else if ltb (suc order) next
      then some wrong_order
      else validate_refill rest (action ∷ seen) (suc order)
]

unfoldable pub validate : HealPolicy → Option PolicyError
validate p =
    if ltb_ℤ p.min_healthy (pos 0)
      || ltb_ℤ p.target_size (pos 0)
      || ltb_ℤ p.target_size p.min_healthy
      || ltb_ℤ (pos 100000) p.target_size
    then some capacity_out_of_range
    else validate_refill p.refill [] 0

-- `Status` stays a text, which is compared.
pub record HealCandidate : Type 0 where
  pub node_id : ℤ
  pub active : Bool
  pub status : String
  pub available : Bool
  pub initial_check_done : Bool
  pub provisional : Bool
  pub health_checked_at : Option ℕ
  pub recovery_enabled : Bool
  pub recovery_cooldown_end : ℕ

-- Times are nanoseconds; a zero time is `none`.
pub record HealInput : Type 0 where
  pub group_id : ℕ
  pub policy : HealPolicy
  pub candidates : List HealCandidate
  pub subscription_ids : List ℤ
  pub now : Option ℕ
  pub max_health_age : ℤ

pub record HealAction : Type 0 where
  pub kind : ActionKind
  pub node_ids : List ℤ
  pub removed_ids : List ℤ
  pub subscription_ids : List ℤ

pub record HealPlan : Type 0 where
  pub group_id : ℕ
  pub dry_run : Bool
  pub healthy : ℕ
  pub projected : ℕ
  pub deficit : ℕ
  pub desired_ids : List ℤ
  pub standby_ids : List ℤ
  pub actions : List HealAction

pub data PlanError : Type 0 where
  bad_policy : PolicyError → PlanError
  no_clock : PlanError
  bad_candidate : ℤ → PlanError

-- `HealingActionAllowed`.
unfoldable pub healing_action_allowed : HealInput → ActionKind → Bool
healing_action_allowed input action =
    input.policy.execute
    && ltb_ℤ (pos 0) input.policy.target_size
    && has_kind action input.policy.refill
