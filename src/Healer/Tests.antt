-- ===== src/Healer/Tests.antt =====
-- Runs of the capacity healer of internal/group/healer.go and healer_coordinator.go.

use easy_proxies_v.Base.{
  All, Bool, List, [], arith, false, length, lookup, none, pos, refl, some, suc, true, ℕ, ◌*◌, ◌+◌,
  ◌<◌, ◌∷◌, ◌≡◌, ◌≤◌,
}
use easy_proxies_v.Healer.Attempts.{
  Answers, Healer, attempt_of, backoff, failed, is_deferred, minute, perform, run_action,
  start_tick,
}
use easy_proxies_v.Healer.Budget.{backoff-grows, scheduled}
use easy_proxies_v.Healer.Policy.{
  HealCandidate, HealInput, HealPlan, HealPolicy, probe_quarantined, promote_standby,
  refresh_subscription, validate, validate_refill,
}
use easy_proxies_v.Healer.Refill.{Ascending, validate-Ascending}
use easy_proxies_v.Healer.Rounds.{
  IsBefore, Move, moves, perform-InBudget, perform-failed_waits, performs, runs, ticks,
}

abbrev policy : HealPolicy
policy = record {
  min_healthy = pos 1;
  target_size = pos 1;
  execute = true;
  refill = promote_standby ∷ refresh_subscription ∷ [];
}

abbrev candidate : ℕ → Bool → HealCandidate
candidate id active = record {
  node_id = pos id;
  active = active;
  status = "ALIVE";
  available = true;
  initial_check_done = true;
  provisional = false;
  health_checked_at = some 90;
  recovery_enabled = false;
  recovery_cooldown_end = 0;
}

abbrev input : HealInput
input = record {
  group_id = 1;
  policy = policy;
  candidates = candidate 2 false ∷ candidate 1 true ∷ [];
  subscription_ids = [];
  now = some 100;
  max_health_age = pos 60;
}

abbrev plan : HealPlan
plan = record {
  group_id = 1;
  dry_run = false;
  healthy = 1;
  projected = 1;
  deficit = 0;
  desired_ids = pos 1 ∷ [];
  standby_ids = pos 2 ∷ [];
  actions = [];
}

policy-validate : validate policy ≡ none
unfolding validate validate_refill
policy-validate = refl

validate-Ascending_example : Ascending 0 policy.refill × (length policy.refill ≤ 3)
validate-Ascending_example = validate-Ascending policy policy-validate

abbrev healer : Healer
healer = record { attempts = []; window = some 0; probes = 19; refreshes = 0; cursor = 0 }

abbrev answers : ℕ → Answers
answers now = record {
  cancelled = false;
  now = now;
  planned_audit_fails = false;
  run = failed;
  later = now + 1;
}

abbrev round : List Move
round =
    ticks 150
    ∷ performs "probe:7" probe_quarantined (answers 160)
    ∷ performs "probe:8" probe_quarantined (answers 170)
    ∷ []

perform-InBudget_example :
    (runs probe_quarantined round (start_tick 60000000100 healer) ≤ 20)
    × (runs refresh_subscription round (start_tick 60000000100 healer) ≤ 2)
perform-InBudget_example =
    perform-InBudget 60000000100 round healer refl (omega arith, (tt, (tt, tt)))

healer-ran : (perform "probe:7" probe_quarantined (answers 100) healer).ran ≡ true
unfolding perform run_action is_deferred attempt_of lookup
healer-ran = refl

within_backoff : 200 < 101 + backoff probe_quarantined (suc (attempt_of "probe:7" healer).failures)
unfolding backoff attempt_of lookup
within_backoff = omega arith

round-IsBefore :
    All
      (IsBefore (101 + backoff probe_quarantined (suc (attempt_of "probe:7" healer).failures)))
      round
unfolding backoff attempt_of lookup
round-IsBefore = (omega arith, (omega arith, (omega arith, tt)))

perform-failed_waits_example :
    (perform "probe:7" probe_quarantined
      (answers 200)
      (moves round (perform "probe:7" probe_quarantined (answers 100) healer).healer)).ran
    ≡ false
perform-failed_waits_example =
    perform-failed_waits "probe:7" probe_quarantined (answers 100) (answers 200) healer round
      healer-ran refl round-IsBefore within_backoff

backoff-grows_example :
    (backoff refresh_subscription 1 ≡ scheduled refresh_subscription 0)
    × (0 < backoff refresh_subscription 1)
    × (backoff refresh_subscription 1 ≤ backoff refresh_subscription 2)
    × (backoff refresh_subscription 2 ≤ 30 * minute)
backoff-grows_example = backoff-grows refresh_subscription 0
