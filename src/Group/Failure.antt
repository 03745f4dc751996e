-- ===== src/Group/Failure.antt =====
-- internal/group/runtime.go: `RecordFailure` and `RecordGroupHealthFailure`. An operation reads
-- the clock once, as `now`; `at` is the time of the failure.

use easy_proxies_v.Base.{
  Bool, List, Option, String, String_eq, [], false, if◌then◌else◌, insert, leb, length, lookup,
  none, some, true, ℕ, ℕ_eq, ◌++◌, ◌+◌, ◌-◌, ◌==◌, ◌∷◌,
}
use easy_proxies_v.Group.Member.{already_applied_probe, ends_at, overwrite, since}
use easy_proxies_v.Group.State.{Member, Runtime, World, blank_event, mark_evicted, notify, unix}
use easy_proxies_v.Group.Sweep.{propagate_eviction}

unfoldable pub put_member : ℕ → Runtime → String → Member → World → World
put_member group r tag m w = record w {
  groups = insert group (record r { members = insert tag m r.members }) w.groups;
}

-- Whether the failures in the window reach the threshold.
abbrev pub trips : Runtime → List ℕ → ℕ → Bool
trips r history at = leb r.threshold (length (history ++ unix at ∷ []))

-- The member with the failure counted, and evicted if that trips the threshold.
unfoldable pub counted_member : Runtime → Member → List ℕ → Option String → ℕ → ℕ → Member
counted_member r m history cause at revision = record m {
  failure_history = history ++ unix at ∷ [];
  recovery_successes = 0;
  last_error = elim cause [ none ↦ m.last_error | some e ↦ e ];
  evicted = if trips r history at then true else m.evicted;
  evicted_at = if trips r history at then at else m.evicted_at;
  revision = revision;
}

-- The counted member is put back, the current tag is given up if it was this one, and the change
-- is announced.
unfoldable pub announce_failure : ℕ → Runtime → String → Member → World → World
announce_failure group r tag counted w =
    let was_current = r.current_tag == tag in
    notify
      (record (blank_event group counted.node_id) {
        failure_history = counted.failure_history;
        evicted = counted.evicted;
        last_error = counted.last_error;
        evicted_at = counted.evicted_at;
        current_changed = was_current;
        state_changed = true;
        revision = counted.revision;
      })
      (put_member group (record r { current_tag = if was_current then "" else r.current_tag }) tag
        counted (record w { clock = counted.revision }))

unfoldable pub count_failure :
    ℕ → ℕ → Runtime → String → Member → List ℕ → Option String → ℕ → World → World × Bool
count_failure now group r tag m history cause at w =
    let counted = counted_member r m history cause at (w.clock + 1) in
    let w' = announce_failure group r tag counted w in
    (
      if trips r history at
          then propagate_eviction now m.node_id counted.last_error counted.evicted_at
              (mark_evicted m.node_id w')
          else w',
      counted.evicted,
    )

-- A member that is not evicted. On a second failure of one second the filter has already written
-- into the member's array.
unfoldable pub fail_member :
    ℕ → ℕ → Runtime → String → Member → Option String → ℕ → World → World × Bool
fail_member now group r tag m cause at w =
    let history = since (unix (at - r.window)) m.failure_history in
    if ends_at (unix at) history
    then (
      put_member group r tag (record m { failure_history = overwrite history m.failure_history }) w,
      m.evicted,
    )
    else count_failure now group r tag m history cause at w

unfoldable pub record_failure : ℕ → ℕ → String → Option String → ℕ → World → World × Bool
record_failure now group tag cause at w = elim (lookup group w.groups) [
  | none ↦ (w, false)
  | some r ↦ elim (lookup tag r.members) [
    | none ↦ (w, false)
    | some m ↦
        if m.evicted
        then (put_member group r tag (record m { recovery_successes = 0 }) w, true)
        else fail_member now group r tag m cause at w
  ]
]

-- A failed background probe: a replayed probe and a second report of one second are left out. The
-- source releases the lock before `RecordFailure`; here both are one step.
unfoldable pub record_group_health_failure :
    ℕ → ℕ → String → String → Option String → ℕ → World → World × Bool
record_group_health_failure now group tag probe cause at w = elim (lookup group w.groups) [
  | none ↦ record_failure now group tag cause at w
  | some r ↦ elim (lookup tag r.members) [
    | none ↦ record_failure now group tag cause at w
    | some m ↦
        let (recorded, seen) = already_applied_probe probe m in
        let w' = put_member group r tag recorded w in
        if seen
        then (w, m.evicted)
        else if ends_at (unix at) recorded.failure_history
        then (w', m.evicted)
        else record_failure now group tag cause at w'
  ]
]
