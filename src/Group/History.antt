-- ===== src/Group/History.antt =====
-- Histories of a process: the operations of the group runtime in the order in which their locks
-- were taken, each with the clock that it read.

use easy_proxies_v.Base.{All, Bool, List, Option, String, [], ℕ, ℤ, ◌<◌, ◌∷◌}
use easy_proxies_v.Group.Current.{current_tag, member_available, set_current_tag}
use easy_proxies_v.Group.Failing.{record_failure-WorldOk, record_group_health_failure-WorldOk}
use easy_proxies_v.Group.Failure.{record_failure, record_group_health_failure}
use easy_proxies_v.Group.Installing.{register-WorldOk}
use easy_proxies_v.Group.Invariant.{WorldOk}
use easy_proxies_v.Group.Leaving.{group_runtime_snapshots-WorldOk, unregister-WorldOk}
use easy_proxies_v.Group.Migrating.{notify_events-WorldOk, reconcile_silent-WorldOk}
use easy_proxies_v.Group.Reconcile.{RuntimeUpdate, notify_events, reconcile_silent}
use easy_proxies_v.Group.Recovering.{record_health_success-WorldOk, restore_group_member-WorldOk}
use easy_proxies_v.Group.Register.{register}
use easy_proxies_v.Group.Serving.{
  current_tag-WorldOk, member_available-WorldOk, set_current_tag-WorldOk,
}
use easy_proxies_v.Group.Snapshots.{group_runtime_snapshots, reset, unregister}
use easy_proxies_v.Group.State.{InitialState, RecoveryPolicy, World}
use easy_proxies_v.Group.Success.{record_health_success, restore_group_member}

pub data Op : Type 0 where
  registers : ℕ → ℤ → ℤ → String → List (String × InitialState) → Option RecoveryPolicy → Op
  reconciles : ℕ → RuntimeUpdate → Op
  fails : ℕ → String → Option String → ℕ → Op
  fails_probe : ℕ → String → String → Option String → ℕ → Op
  succeeds_probe : ℕ → String → String → Op
  restores : ℕ → ℕ → Op
  asks_available : ℕ → String → Op
  asks_current : ℕ → Op
  sets_current : ℕ → String → Op
  asks_snapshots : Op
  unregisters : ℕ → Bool → Op
  resets : Op

-- A reconciliation announces its events once the pool has published its snapshot.
unfoldable pub step : ℕ → Op → World → World
step now (registers group window threshold tag initial recovery) w =
    register now group window threshold tag initial recovery w
step now (reconciles group update) w =
    let (w', events) = reconcile_silent now group update w in notify_events now events w'
step now (fails group tag cause at) w = (record_failure now group tag cause at w).0
step now (fails_probe group tag probe cause at) w =
    (record_group_health_failure now group tag probe cause at w).0
step now (succeeds_probe group tag probe) w = (record_health_success now group tag probe w).0
step now (restores group node) w = (restore_group_member group node w).0
step now (asks_available group tag) w = (member_available now group tag w).0
step now (asks_current group) w = (current_tag now group w).0
step now (sets_current group tag) w = set_current_tag now group tag w
step now asks_snapshots w = group_runtime_snapshots now w
step now (unregisters group same) w = unregister group same w
step now resets w = reset w

unfoldable pub run : List (ℕ × Op) → World → World
run [] w = w
run ((now, op) ∷ rest) w = run rest (step now op w)

unfoldable pub boot : World
boot = record { groups = []; evicted_nodes = []; clock = 0; log = [] }

-- A failure carries a time, not the zero time.
abbrev pub IsDated : Op → Type 0
IsDated (fails group tag cause at) = 0 < at
IsDated (fails_probe group tag probe cause at) = 0 < at
IsDated _ = Unit

abbrev pub IsTimed : ℕ × Op → Type 0
IsTimed (now, op) = (0 < now) × IsDated op

step-WorldOk :
    (now : ℕ) (op : Op) (w : World) → IsTimed (now, op) → WorldOk w → WorldOk (step now op w)
unfolding step
step-WorldOk now (registers group window threshold tag initial recovery) w h all =
    register-WorldOk now group window threshold tag initial recovery w h.0 all
step-WorldOk now (reconciles group update) w h all =
    notify_events-WorldOk now _ _ h.0 (reconcile_silent-WorldOk now group update w h.0 all)
step-WorldOk now (fails group tag cause at) w h all =
    record_failure-WorldOk now group tag cause at w h.0 h.1 all
step-WorldOk now (fails_probe group tag probe cause at) w h all =
    record_group_health_failure-WorldOk now group tag probe cause at w h.0 h.1 all
step-WorldOk now (succeeds_probe group tag probe) w h all =
    record_health_success-WorldOk now group tag probe w all
step-WorldOk now (restores group node) w h all = restore_group_member-WorldOk group node w all
step-WorldOk now (asks_available group tag) w h all = member_available-WorldOk now group tag w all
step-WorldOk now (asks_current group) w h all = current_tag-WorldOk now group w all
step-WorldOk now (sets_current group tag) w h all = set_current_tag-WorldOk now group tag w all
step-WorldOk now asks_snapshots w h all = group_runtime_snapshots-WorldOk now w all
step-WorldOk now (unregisters group same) w h all = unregister-WorldOk group same w all
step-WorldOk now resets w h all = tt

run-WorldOk : (ops : List (ℕ × Op)) (w : World) → All IsTimed ops → WorldOk w → WorldOk (run ops w)
unfolding run
run-WorldOk [] w h all = all
run-WorldOk ((now, op) ∷ rest) w h all = run-WorldOk rest _ h.1 (step-WorldOk now op w h.0 all)

-- After every sequence of registrations and their cleanups, reconciliations, failures, health
-- probes, restores by the operator, availability questions, reads and choices of the current member,
-- snapshots that prune and resets, from an empty process and with a running clock:
-- each group is stored under its id with a positive window and thresholds; its current tag is
-- empty or names a member that is neither standby nor evicted; and each member carries its own
-- tag, has no recovery streak unless it is evicted, has a streak below the threshold of its
-- group, has a time of eviction if it is evicted, remembers at most 64 probes, and has no
-- revision beyond the global clock.
pub run-boot-WorldOk : (ops : List (ℕ × Op)) → All IsTimed ops → WorldOk (run ops boot)
unfolding boot
run-boot-WorldOk ops h = run-WorldOk ops _ h tt
