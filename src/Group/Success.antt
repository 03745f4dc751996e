-- ===== src/Group/Success.antt =====
-- internal/group/runtime.go: `RecordHealthSuccess`, the recovery of evicted members, and
-- `RestoreGroupMember`.

-- The last step of a recovery: this group first, then every other group of the node.

use easy_proxies_v.Base.{
  Bool, List, Option, String, String_eq, [], any, false, if◌then◌else◌, length, lookup, ltb_ℤ, none,
  not, pos, some, sub_ℕ, true, ℕ, ℕ_eq, ◌+◌, ◌==◌, ◌||◌, ◌∷◌,
}
use easy_proxies_v.Group.Failure.{put_member}
use easy_proxies_v.Group.Member.{already_applied_probe, clear_member_eviction}
use easy_proxies_v.Group.State.{Member, Runtime, World, notify, unmark_evicted}
use easy_proxies_v.Group.Sweep.{
  recover_evicted_node_everywhere, recovered_event, sweep_world, visit_restore,
}

unfoldable pub readmit : ℕ → Runtime → String → Member → World → World
readmit group r tag m w =
    let revision = w.clock + 1 in
    let cleared = record (clear_member_eviction m) { revision = revision } in
    recover_evicted_node_everywhere m.node_id group (
      notify (recovered_event group m.node_id revision)
        (unmark_evicted m.node_id (put_member group r tag cleared (record w { clock = revision }))))

-- A success of an evicted member.
unfoldable pub count_success : ℕ → ℕ → Runtime → String → Member → World → World × Bool
count_success now group r tag m w =
    let counted = record m { recovery_successes = m.recovery_successes + 1 } in
    if not r.recovery.enabled
    then (put_member group r tag (record m { recovery_successes = 0 }) w, false)
    else if ltb_ℤ (sub_ℕ now m.evicted_at) r.recovery.cooldown
    then (put_member group r tag m w, false)
    else if ltb_ℤ (pos counted.recovery_successes) r.recovery.success_threshold
    then (put_member group r tag counted w, false)
    else (readmit group r tag counted w, true)

-- A success of a member that is not evicted ends its failure streak.
unfoldable pub clear_failures : ℕ → Runtime → String → Member → World → World × Bool
clear_failures group r tag m w =
    let revision = w.clock + 1 in
    let cleared = record m {
      failure_history = [];
      last_error = "";
      recovery_successes = 0;
      revision = revision;
    } in
    if length m.failure_history == 0
    then (put_member group r tag (record m { recovery_successes = 0 }) w, true)
    else (
      notify (recovered_event group m.node_id revision)
          (put_member group r tag cleared (record w { clock = revision })),
      true,
    )

unfoldable pub record_health_success : ℕ → ℕ → String → String → World → World × Bool
record_health_success now group tag probe w = elim (lookup group w.groups) [
  | none ↦ (w, false)
  | some r ↦ elim (lookup tag r.members) [
    | none ↦ (w, false)
    | some m ↦
        let (recorded, seen) = already_applied_probe probe m in
        if seen
        then (w, not m.evicted)
        else if m.evicted
        then count_success now group r tag recorded w
        else clear_failures group r tag recorded w
  ]
]

pub data RestoreError : Type 0 where
  group_not_found member_not_found : RestoreError

-- Whether some group has a member of the node.
unfoldable pub is_member_somewhere : ℕ → List (ℕ × Runtime) → Bool
is_member_somewhere node [] = false
is_member_somewhere node ((_, r) ∷ rest) =
    any (λ (e : String × Member). e.1.node_id == node) r.members || is_member_somewhere node rest

-- The explicit release by the operator. The mark goes even where no member is found.
unfoldable pub restore_group_member : ℕ → ℕ → World → World × Option RestoreError
restore_group_member group node w = elim (lookup group w.groups) [
  | none ↦ (w, some group_not_found)
  | some _ ↦ (
    sweep_world (visit_restore node) (unmark_evicted node w),
    if is_member_somewhere node w.groups then none else some member_not_found,
  )
]
