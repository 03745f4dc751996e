-- ===== src/Group/Tests.antt =====
-- Runs of the group runtime of internal/group/runtime.go.

use easy_proxies_v.Base.{
  List, String_eq, [], arith, contains, false, lookup, pos, refl, some, true, ℕ, ℕ_eq, ◌-◌, ◌∷◌,
  ◌≡◌, ◌⊎◌,
}
use easy_proxies_v.Group.Everywhere.{
  Pairwise, banned_count, live_count, propagate_eviction-live_count,
  recover_evicted_node_everywhere-banned_count, restore_group_member-banned_count,
}
use easy_proxies_v.Group.Failure.{record_failure, record_group_health_failure}
use easy_proxies_v.Group.History.{
  Op, boot, fails, fails_probe, registers, run, run-boot-WorldOk, succeeds_probe,
}
use easy_proxies_v.Group.Invariant.{WorldOk}
use easy_proxies_v.Group.Readmission.{AreNew, Readmitted, deliver, deliver-Readmitted}
use easy_proxies_v.Group.Recovery.{Awaiting}
use easy_proxies_v.Group.Redelivery.{
  record_group_health_failure-replay, record_health_success-replay,
}
use easy_proxies_v.Group.State.{InitialState, Member, RecoveryPolicy, Runtime, World}
use easy_proxies_v.Group.Success.{record_health_success, restore_group_member}
use easy_proxies_v.Group.Sweep.{propagate_eviction, recover_evicted_node_everywhere}
use easy_proxies_v.Group.Threshold.{Counting, IsOut, report, report-evicts}

abbrev policy : RecoveryPolicy
policy = record { enabled = true; success_threshold = pos 2; cooldown = pos 100 }

abbrev banned : Member
banned = record {
  standby = false;
  node_id = 7;
  tag = "a";
  failure_history = [];
  evicted = true;
  last_error = "refused";
  evicted_at = 10;
  recovery_successes = 0;
  applied_probes = [];
  revision = 1;
}

abbrev healthy : Member
healthy = record {
  standby = false;
  node_id = 8;
  tag = "b";
  failure_history = [];
  evicted = false;
  last_error = "";
  evicted_at = 0;
  recovery_successes = 0;
  applied_probes = [];
  revision = 1;
}

abbrev pool : Runtime
pool = record {
  id = 1;
  window = 1000;
  threshold = 3;
  recovery = policy;
  current_tag = "";
  members = ("a", banned) ∷ ("b", healthy) ∷ [];
  last_current_notify = 0;
  current_notify_pending = false;
  current_pending_node_id = 0;
}

abbrev world : World
world = record { groups = (1, pool) ∷ []; evicted_nodes = 7 ∷ []; clock = 1; log = [] }

abbrev restored : InitialState
restored = record {
  standby = false;
  node_id = 7;
  failure_history = [];
  evicted = false;
  last_error = "";
  evicted_at = 0;
  revision = 0;
}

abbrev history : List (ℕ × Op)
history =
    (5, registers 1 (pos 1000) (pos 1) "a" (("a", restored) ∷ []) (some policy))
    ∷ (6, fails 1 "a" (some "refused") 6)
    ∷ (200, succeeds_probe 1 "a" "p1")
    ∷ (300, succeeds_probe 1 "a" "p2")
    ∷ []

run-boot-WorldOk_example : WorldOk (run history boot)
run-boot-WorldOk_example =
    run-boot-WorldOk history (
      (omega arith, tt),
      ((omega arith, omega arith), ((omega arith, tt), ((omega arith, tt), tt))),
    )

banned-Awaiting : Awaiting 1 "a" 2 100 10 0 world
unfolding lookup
banned-Awaiting = record {
  runtime = pool;
  member = banned;
  named = refl;
  in_world = refl;
  in_group = refl;
  enabled = refl;
  threshold = refl;
  quiet = refl;
  evicted = refl;
  evicted_at = refl;
  counted = refl;
}

first_and_last-AreNew : AreNew 1 "a" 2 100 10 ((200, "p1") ∷ (300, "p2") ∷ []) world
unfolding lookup
first_and_last-AreNew = (omega arith, (refl, refl), (refl, tt), (omega arith, (refl, refl), tt, tt))

deliver-Readmitted_example :
    Awaiting 1 "a" 2 100 10 1 (deliver 1 "a" 2 100 10 ((200, "p1") ∷ []) world)
    × Readmitted 1 "a" (deliver 1 "a" 2 100 10 ((200, "p1") ∷ (300, "p2") ∷ []) world)
deliver-Readmitted_example =
    deliver-Readmitted 1 "a" 2 100 10 ((200, "p1") ∷ []) (300, "p2") 0 world refl banned-Awaiting
      first_and_last-AreNew

pool_in_world : lookup 1 world.groups ≡ some pool
unfolding lookup
pool_in_world = refl

-- Reports between two deliveries.
abbrev between : List (ℕ × Op)
between =
    (202, fails 1 "b" (some "refused") 202)
    ∷ (203, succeeds_probe 1 "a" "p2")
    ∷ (204, fails_probe 1 "b" "p3" (some "refused") 204)
    ∷ []

a_in_pool : lookup "a" pool.members ≡ some banned
unfolding lookup
a_in_pool = refl

b_in_pool : lookup "b" pool.members ≡ some healthy
unfolding lookup
b_in_pool = refl

record_health_success-replay_example :
    let w' = run between (record_health_success 200 1 "a" "p1" world).0 in
    (record_health_success 210 1 "a" "p1" w').0 ≡ w'
record_health_success-replay_example =
    record_health_success-replay 1 "a" "p1" refl world pool_in_world a_in_pool refl between
      (tt, (tt, (tt, tt))) (omega arith) 200 210

record_group_health_failure-replay_example :
    let w' =
      run between (record_group_health_failure 200 1 "b" "p1" (some "refused") 200 world).0 in
    (record_group_health_failure 210 1 "b" "p1" (some "refused") 200 w').0 ≡ w'
record_group_health_failure-replay_example =
    record_group_health_failure-replay 1 "b" "p1" refl world pool_in_world b_in_pool refl between
      (tt, (tt, (tt, tt))) (omega arith) 200 210 (some "refused") 200

propagate_eviction-live_count_example :
    Pairwise
      (λ before after. live_count 8 after ≡ live_count 8 before - 1)
      world.groups
      (propagate_eviction 20 8 "refused" 20 world).groups
propagate_eviction-live_count_example = propagate_eviction-live_count 20 8 "refused" 20 world refl

recover_evicted_node_everywhere-banned_count_example :
    Pairwise
      (λ before after. (before.id ≡ 2) ⊎ (banned_count 7 after ≡ 0))
      world.groups
      (recover_evicted_node_everywhere 7 2 world).groups
recover_evicted_node_everywhere-banned_count_example =
    recover_evicted_node_everywhere-banned_count 7 2 world refl

restore_group_member-banned_count_example :
    let w' = (restore_group_member 1 7 world).0 in
    Pairwise (λ before after. banned_count 7 after ≡ 0) world.groups w'.groups
    × (contains 7 w'.evicted_nodes ≡ false)
restore_group_member-banned_count_example =
    restore_group_member-banned_count 1 7 world pool_in_world

abbrev serving : Runtime
serving = record pool { window = 300000000000; threshold = 2; current_tag = "b" }

abbrev served : World
served = record world { groups = (1, serving) ∷ [] }

served-Counting : Counting 1 "b" 2 300000000000 [] served
unfolding lookup
served-Counting = record {
  runtime = serving;
  member = healthy;
  in_world = refl;
  in_group = refl;
  live = refl;
  recorded = refl;
  limit = refl;
  span = refl;
}

report-evicts_example :
    Counting 1 "b" 2 300000000000
      (10 ∷ [])
      (report 1 "b" 2 300000000000 ((10500000000, some "refused", 10500000000) ∷ []) served)
    × IsOut 1 "b" 2 300000000000 (
        record_failure 11500000000 1 "b"
          (some "refused")
          11500000000
          (report 1 "b" 2 300000000000 ((10500000000, some "refused", 10500000000) ∷ []) served))
report-evicts_example =
    report-evicts 1 "b" 2 300000000000 ((10500000000, some "refused", 10500000000) ∷ []) 11500000000
      (some "refused") 11500000000 [] served refl served-Counting
      ((tt, refl), (((omega arith, tt), refl), tt))
