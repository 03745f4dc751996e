-- ===== src/Healer/Attempts.antt =====
-- internal/group/healer_coordinator.go: `perform`, the budgets of `Tick` and the backoff. Times are
-- nanoseconds. What the backend, the clock and the context answer during one call is a record.

use easy_proxies_v.Base.{
  Bool, List, Option, String, String_eq, [], false, if◌then◌else◌, insert, leb, lookup, ltb, max,
  min, none, some, suc, true, zero, ℕ, ◌%◌, ◌&&◌, ◌*◌, ◌+◌, ◌-◌, ◌^◌, ◌||◌, ◌∷◌,
}
use easy_proxies_v.Healer.Policy.{
  ActionKind, kind_eq, probe_quarantined, promote_standby, refresh_subscription,
}

abbrev pub second : ℕ
second = 1000000000

abbrev pub minute : ℕ
minute = 60000000000

abbrev pub hour : ℕ
hour = 3600000000000

abbrev pub probe_budget : ℕ
probe_budget = 20

abbrev pub refresh_budget : ℕ
refresh_budget = 2

pub record HealAttempt : Type 0 where
  pub next : ℕ
  pub failures : ℕ

abbrev pub no_attempt : HealAttempt
no_attempt = record { next = 0; failures = 0 }

-- The fields of `Healer` that change.
pub record Healer : Type 0 where
  pub attempts : List (String × HealAttempt)
  pub window : Option ℕ
  pub probes : ℕ
  pub refreshes : ℕ
  pub cursor : ℕ

-- How `run` ends; a `DeferredHealing` carries the time until which it is deferred.
pub data RunResult : Type 0 where
  succeeded failed : RunResult
  deferred : ℕ → RunResult

pub data Status : Type 0 where
  status_planned status_deferred status_succeeded status_failed : Status

pub record Answers : Type 0 where
  pub cancelled : Bool
  pub now : ℕ
  pub planned_audit_fails : Bool
  pub run : RunResult
  pub later : ℕ

pub record Performed : Type 0 where
  pub healer : Healer
  pub audits : List Status
  pub ran : Bool

unfoldable pub attempt_of : String → Healer → HealAttempt
attempt_of key h = elim (lookup key h.attempts) [ none ↦ no_attempt | some attempt ↦ attempt ]

-- Whether `reason` is set: a backoff, or a budget that is used up.
unfoldable pub is_deferred : ActionKind → ℕ → HealAttempt → Healer → Bool
is_deferred kind now previous h =
    ltb now previous.next
    || (kind_eq kind probe_quarantined && leb probe_budget h.probes)
    || (kind_eq kind refresh_subscription && leb refresh_budget h.refreshes)

unfoldable pub spend : ActionKind → Healer → Healer
spend kind h = record h {
  probes = if kind_eq kind probe_quarantined then suc h.probes else h.probes;
  refreshes = if kind_eq kind refresh_subscription then suc h.refreshes else h.refreshes;
}

abbrev pub base_delay : ActionKind → ℕ
base_delay kind =
    if kind_eq kind promote_standby
    then 10 * second
    else if kind_eq kind refresh_subscription
    then 5 * minute
    else minute

-- The delay after the given number of failures in a row, which is at least one.
unfoldable pub backoff : ActionKind → ℕ → ℕ
backoff kind failures =
    let doubled = base_delay kind * 2 ^ min (failures - 1) 4 in
    min (if kind_eq kind refresh_subscription && leb 3 failures then 30 * minute else doubled)
      (30 * minute)

unfoldable pub after_run : ActionKind → ℕ → RunResult → HealAttempt → HealAttempt
after_run kind now (deferred until) previous = record previous {
  next = max (now + base_delay kind) until;
}
after_run kind now failed previous = record {
  failures = suc previous.failures;
  next = now + backoff kind (suc previous.failures);
}
after_run kind now succeeded previous = record { failures = 0; next = now + base_delay kind }

abbrev pub status_of : RunResult → Status
status_of (deferred until) = status_deferred
status_of failed = status_failed
status_of succeeded = status_succeeded

unfoldable pub run_action : String → ActionKind → Answers → Healer → Performed
run_action key kind answers h = record {
  healer = record (spend kind h) {
    attempts = insert key (after_run kind answers.later answers.run (attempt_of key h)) h.attempts;
  };
  audits = status_planned ∷ status_of answers.run ∷ [];
  ran = true;
}

unfoldable pub perform : String → ActionKind → Answers → Healer → Performed
perform key kind answers h =
    if answers.cancelled
    then record { healer = h; audits = []; ran = false }
    else if is_deferred kind answers.now (attempt_of key h) h
    then record { healer = h; audits = status_deferred ∷ []; ran = false }
    else if answers.planned_audit_fails
    then record { healer = h; audits = status_planned ∷ []; ran = false }
    else run_action key kind answers h

-- The start of `Tick`: a new window each minute, and attempts forgotten an hour after their time.
abbrev pub window_over : ℕ → Option ℕ → Bool
window_over now none = true
window_over now (some start) = leb (start + minute) now

unfoldable pub prune_attempts : ℕ → List (String × HealAttempt) → List (String × HealAttempt)
prune_attempts now [] = []
prune_attempts now ((key, attempt) ∷ rest) =
    let kept = prune_attempts now rest in
    if ltb (attempt.next + hour) now then kept else (key, attempt) ∷ kept

unfoldable pub start_tick : ℕ → Healer → Healer
start_tick now h = record {
  attempts = prune_attempts now h.attempts;
  window = if window_over now h.window then some now else h.window;
  probes = if window_over now h.window then 0 else h.probes;
  refreshes = if window_over now h.window then 0 else h.refreshes;
  cursor = h.cursor;
}

-- The end of `Tick`: the group that goes first next time.
unfoldable pub advance_cursor : ℕ → Healer → Healer
advance_cursor zero h = h
advance_cursor (suc groups) h = record h { cursor = (h.cursor + 1) % suc groups }
