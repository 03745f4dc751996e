-- ===== src/Group/Reconcile.antt =====
-- internal/group/runtime.go: `ReconcileSilent` moves the member state to a new topology by node,
-- and `NotifyEvents` announces it.

use easy_proxies_v.Base.{
  Bool, List, Option, String, String_eq, [], any, contains, false, if◌then◌else◌, insert, leb,
  length, lookup, none, not, positive_or, some, true, ℕ, ℕ_eq, ℤ, ◌&&◌, ◌++◌, ◌+◌, ◌==◌, ◌||◌, ◌∷◌,
}
use easy_proxies_v.Group.Current.{node_of}
use easy_proxies_v.Group.Member.{is_available, prune_failures}
use easy_proxies_v.Group.Register.{default_threshold, default_window}
use easy_proxies_v.Group.State.{
  InitialState, Member, RecoveryPolicy, Runtime, StateEvent, World, advance_state_revision,
  blank_event, normalize_recovery_policy, notify, recovery_policy_provided, same_policy,
  unmark_evicted,
}
use easy_proxies_v.Group.Sweep.{propagate_eviction}

pub record RuntimeUpdate : Type 0 where
  pub failure_window : ℤ
  pub failure_threshold : ℤ
  pub preferred_node_id : ℕ
  pub members : List (String × InitialState)
  pub recovery : RecoveryPolicy

-- `oldByNodeID`: of two members of one node the later wins.
unfoldable pub by_node : List (String × Member) → List (ℕ × Member) → List (ℕ × Member)
by_node [] found = found
by_node ((_, m) ∷ rest) found = by_node rest (insert m.node_id m found)

-- What the loop over the new members carries.
pub record Migration : Type 0 where
  pub next : List (String × Member)
  pub evicted_nodes : List ℕ
  pub clock : ℕ
  pub events : List StateEvent

-- The member before it is pruned: the old state of its node, or the restored state.
unfoldable pub carry_member : String → InitialState → Option Member → Member
carry_member tag initial (some old) = record {
  standby = initial.standby;
  node_id = initial.node_id;
  tag = tag;
  failure_history = old.failure_history;
  evicted = old.evicted;
  last_error = old.last_error;
  evicted_at = old.evicted_at;
  recovery_successes = old.recovery_successes;
  applied_probes = [];
  revision = old.revision;
}
carry_member tag initial none = record {
  standby = initial.standby;
  node_id = initial.node_id;
  tag = tag;
  failure_history = initial.failure_history;
  evicted = initial.evicted;
  last_error = initial.last_error;
  evicted_at = initial.evicted_at;
  recovery_successes = 0;
  applied_probes = [];
  revision = initial.revision;
}

-- `old != nil && old.tag != tag`.
abbrev pub is_renamed : String → Option Member → Bool
is_renamed tag none = false
is_renamed tag (some old) = not (old.tag == tag)

-- A newly restored revision raises the clock.
abbrev pub resume_clock : InitialState → Option Member → ℕ → ℕ
resume_clock initial none clock = advance_state_revision initial.revision clock
resume_clock initial (some _) clock = clock

-- The evictions and resets of one member after it was pruned.
unfoldable pub settle_member : ℕ → ℕ → Bool → Member → Member
settle_member now threshold restart m =
    let newly_evicted = not m.evicted && leb threshold (length m.failure_history) in
    let evicted = m.evicted || newly_evicted in
    let evicted_at = if newly_evicted then now else m.evicted_at in
    record m {
      evicted = evicted;
      evicted_at = if evicted && evicted_at == 0 then now else evicted_at;
      recovery_successes = if evicted && restart then 0 else m.recovery_successes;
    }

unfoldable pub migrated_event : ℕ → Member → StateEvent
migrated_event group m = record (blank_event group m.node_id) {
  failure_history = m.failure_history;
  evicted = m.evicted;
  last_error = m.last_error;
  evicted_at = m.evicted_at;
  state_changed = true;
  revision = m.revision;
}

-- The settled member takes its place; one that changed takes the next revision and is announced.
unfoldable pub place_member : ℕ → Bool → Bool → String → Member → ℕ → Migration → Migration
place_member group pruned newly_evicted tag m clock s =
    let touched = record m { revision = clock + 1 } in
    let marks =
      if newly_evicted && not (contains m.node_id s.evicted_nodes)
      then m.node_id ∷ s.evicted_nodes
      else s.evicted_nodes in
    if pruned || newly_evicted
    then record {
      next = insert tag touched s.next;
      evicted_nodes = marks;
      clock = clock + 1;
      events = s.events ++ migrated_event group touched ∷ [];
    }
    else record {
      next = insert tag m s.next;
      evicted_nodes = marks;
      clock = clock;
      events = s.events;
    }

-- The carried member, evicted too where its node is marked.
unfoldable pub marked_member : String → InitialState → Option Member → List ℕ → Member
marked_member tag initial before marks =
    let carried = carry_member tag initial before in
    record carried { evicted = carried.evicted || contains carried.node_id marks }

-- One round of the loop over the new members.
unfoldable pub migrate_member :
    ℕ → ℕ → ℕ → ℕ → Bool → List (ℕ × Member) → String → InitialState → Migration → Migration
migrate_member now group window threshold policy_changed old tag initial s =
    let before = lookup initial.node_id old in
    let (m, pruned) =
      prune_failures window now (marked_member tag initial before s.evicted_nodes) in
    place_member group pruned (not m.evicted && leb threshold (length m.failure_history)) tag
      (settle_member now threshold (policy_changed || is_renamed tag before) m)
      (resume_clock initial before s.clock) s

unfoldable pub migrate :
    ℕ → ℕ → ℕ → ℕ → Bool → List (ℕ × Member) → List (String × InitialState) → Migration → Migration
migrate now group window threshold policy_changed old [] s = s
migrate now group window threshold policy_changed old ((tag, initial) ∷ rest) s =
    migrate now group window threshold policy_changed old rest
      (migrate_member now group window threshold policy_changed old tag initial s)

-- The tag of the first member of the node that may serve.
unfoldable pub find_available : ℕ → List (String × Member) → String
find_available node [] = ""
find_available node ((tag, m) ∷ rest) =
    let later = find_available node rest in
    if m.node_id == node && is_available m then tag else later

-- The nodes that the update leaves out.
unfoldable pub removed_nodes : List (String × InitialState) → List (ℕ × Member) → List ℕ
removed_nodes members [] = []
removed_nodes members ((node, _) ∷ rest) =
    let removed = removed_nodes members rest in
    if any (λ (e : String × InitialState). e.1.node_id == node) members
    then removed
    else node ∷ removed

abbrev pub is_evicted_in : ℕ → Runtime → Bool
is_evicted_in node r = any (λ (e : String × Member). e.1.node_id == node && e.1.evicted) r.members

-- `pruneGlobalEvictions`: a mark outlives its node's membership only where some group still has
-- the node evicted.
unfoldable pub prune_global_evictions : List ℕ → World → World
prune_global_evictions [] w = w
prune_global_evictions (node ∷ rest) w =
    let still = any (λ (e : ℕ × Runtime). is_evicted_in node e.1) w.groups in
    prune_global_evictions rest
      (if contains node w.evicted_nodes && not still then unmark_evicted node w else w)

-- `runtime.recovery` after the update.
unfoldable pub next_policy : RecoveryPolicy → RecoveryPolicy → RecoveryPolicy
next_policy update current =
    if recovery_policy_provided update then normalize_recovery_policy update else current

unfoldable pub reconcile_runtime : ℕ → ℕ → RuntimeUpdate → Runtime → World → World × List StateEvent
reconcile_runtime now group update r w =
    let window = positive_or default_window update.failure_window in
    let threshold = positive_or default_threshold update.failure_threshold in
    let old = by_node r.members [] in
    let policy = next_policy update.recovery r.recovery in
    let current = node_of (lookup r.current_tag r.members) in
    let s =
      migrate now group window threshold (not (same_policy policy r.recovery)) old update.members
        (record { next = []; evicted_nodes = w.evicted_nodes; clock = w.clock; events = [] }) in
    let preferred = if current == 0 then update.preferred_node_id else current in
    let tag = find_available preferred s.next in
    let next_current = node_of (lookup tag s.next) in
    let r' = record r {
      window = window;
      threshold = threshold;
      members = s.next;
      recovery = policy;
      current_tag = tag;
    } in
    let moved = record (blank_event group next_current) {
      current_node_id = next_current;
      current_changed = true;
    } in
    (
      prune_global_evictions (removed_nodes update.members old) (record w {
        groups = insert group r' w.groups;
        evicted_nodes = s.evicted_nodes;
        clock = s.clock;
      }),
      if next_current == current then s.events else s.events ++ moved ∷ [],
    )

unfoldable pub reconcile_silent : ℕ → ℕ → RuntimeUpdate → World → World × List StateEvent
reconcile_silent now group update w = elim (lookup group w.groups) [
  | none ↦ (w, [])
  | some r ↦ reconcile_runtime now group update r w
]

unfoldable pub notify_events : ℕ → List StateEvent → World → World
notify_events now [] w = w
notify_events now (event ∷ rest) w =
    let w' = notify event w in
    notify_events now rest (
      if event.evicted
      then propagate_eviction now event.node_id event.last_error event.evicted_at w'
      else w')
