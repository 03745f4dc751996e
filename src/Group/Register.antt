-- ===== src/Group/Register.antt =====
-- internal/group/runtime.go: `Register` installs a group and spreads the evictions that it knows.
-- The cleanup that it returns is not modelled.

use easy_proxies_v.Base.{
  List, Option, String, String_eq, [], contains, false, if◌then◌else◌, insert, lookup, none,
  positive_or, some, true, ℕ, ℕ_eq, ℤ, ◌&&◌, ◌==◌, ◌||◌, ◌∷◌,
}
use easy_proxies_v.Group.Member.{is_available}
use easy_proxies_v.Group.State.{
  InitialState, Member, RecoveryPolicy, Runtime, World, advance_state_revision, blank_event,
  default_recovery_policy, mark_evicted, normalize_recovery_policy, notify,
}
use easy_proxies_v.Group.Sweep.{propagate_eviction}

abbrev pub default_window : ℕ
default_window = 300000000000

abbrev pub default_threshold : ℕ
default_threshold = 3

-- One entry of `members`: its mark, its runtime member, and the clock.
unfoldable pub restore_member : ℕ → String → InitialState → World → Member × World
restore_member now tag initial w =
    let marks =
      if initial.evicted then (mark_evicted initial.node_id w).evicted_nodes else w.evicted_nodes in
    let evicted = initial.evicted || contains initial.node_id marks in
    (
      record {
        standby = initial.standby;
        node_id = initial.node_id;
        tag = tag;
        failure_history = initial.failure_history;
        evicted = evicted;
        last_error = initial.last_error;
        evicted_at = if evicted && initial.evicted_at == 0 then now else initial.evicted_at;
        recovery_successes = 0;
        applied_probes = [];
        revision = initial.revision;
      },
      record w { evicted_nodes = marks; clock = advance_state_revision initial.revision w.clock },
    )

unfoldable pub restore_members :
    ℕ → List (String × InitialState) → World → List (String × Member) × World
restore_members now [] w = ([], w)
restore_members now ((tag, initial) ∷ rest) w =
    let (m, w') = restore_member now tag initial w in
    let (ms, w'') = restore_members now rest w' in ((tag, m) ∷ ms, w'')

-- The current tag stays if its member may serve.
unfoldable pub keep_current : String → List (String × Member) → String
keep_current tag members = elim (lookup tag members) [
  | none ↦ ""
  | some m ↦ if is_available m then tag else ""
]

-- The member under a tag of a stored group, as the shared runtime has it now.
abbrev pub live_member : ℕ → String → World → Option Member
live_member group tag w = elim (lookup group w.groups) [
  | none ↦ none
  | some r ↦ lookup tag r.members
]

unfoldable pub propagate_member : ℕ → Option Member → World → World
propagate_member now none w = w
propagate_member now (some m) w =
    if m.evicted then propagate_eviction now m.node_id m.last_error m.evicted_at w else w

-- The loop reads the members as the evictions before have left them.
unfoldable pub propagate_members : ℕ → ℕ → List (String × Member) → World → World
propagate_members now group [] w = w
propagate_members now group ((tag, _) ∷ rest) w =
    propagate_members now group rest (propagate_member now (live_member group tag w) w)

-- What is announced of the current member.
unfoldable pub announce_current : ℕ → String → Option Member → World → World
announce_current group preferred (some m) w =
    notify
      (record (blank_event group m.node_id) { current_node_id = m.node_id; current_changed = true })
      w
announce_current group preferred none w =
    if preferred == ""
    then w
    else notify (record (blank_event group 0) { current_changed = true }) w

-- The group is stored before anything is announced.
unfoldable pub install : ℕ → ℕ → String → Runtime → World → World
install now group preferred r w = propagate_members now group r.members (
    announce_current group preferred (lookup r.current_tag r.members)
      (record w { groups = insert group r w.groups }))

unfoldable pub new_runtime : ℕ → ℤ → ℤ → RecoveryPolicy → String → List (String × Member) → Runtime
new_runtime group window threshold policy tag members = record {
  id = group;
  window = positive_or default_window window;
  threshold = positive_or default_threshold threshold;
  recovery = policy;
  current_tag = keep_current tag members;
  members = members;
  last_current_notify = 0;
  current_notify_pending = false;
  current_pending_node_id = 0;
}

abbrev pub policy_or_default : Option RecoveryPolicy → RecoveryPolicy
policy_or_default none = default_recovery_policy
policy_or_default (some p) = normalize_recovery_policy p

unfoldable pub register :
    ℕ → ℕ → ℤ → ℤ → String → List (String × InitialState) → Option RecoveryPolicy → World → World
register now group window threshold tag initial recovery w =
    let (members, w') = restore_members now initial w in
    if group == 0
    then w
    else install now group tag
        (new_runtime group window threshold (policy_or_default recovery) tag members) w'
