-- ===== src/Group/Snapshots.antt =====
-- internal/group/runtime.go: what `GroupRuntimeSnapshots` changes before it answers (the pruning of
-- old failures), the cleanup that `Register` returns, and `Reset`. The clock is read once.

-- An evicted member keeps its failures.

use easy_proxies_v.Base.{
  Bool, List, String, [], delete, false, if◌then◌else◌, true, ℕ, ℕ_eq, ◌+◌, ◌∷◌,
}
use easy_proxies_v.Group.Member.{prune_failures}
use easy_proxies_v.Group.State.{Member, Runtime, StateEvent, World, blank_event}
use easy_proxies_v.Group.Sweep.{Swept, next_revision}

unfoldable pub prune_live : ℕ → ℕ → Member → Member × Bool
prune_live window now m = if m.evicted then (m, false) else prune_failures window now m

-- A member that lost a failure takes the next revision.
abbrev pub stamp : Bool → ℕ → Member → Member
stamp true clock m = record m { revision = clock + 1 }
stamp false clock m = m

abbrev pub expired_event : ℕ → Member → StateEvent
expired_event group m = record (blank_event group m.node_id) {
  failure_history = m.failure_history;
  last_error = m.last_error;
  state_changed = true;
  revision = m.revision;
}

pub record Pruned : Type 0 where
  pub members : List (String × Member)
  pub clock : ℕ
  pub log : List StateEvent

unfoldable pub prune_members : ℕ → ℕ → ℕ → List (String × Member) → ℕ → List StateEvent → Pruned
prune_members now group window [] clock log = record { members = []; clock = clock; log = log }
prune_members now group window ((tag, m) ∷ rest) clock log =
    let p = prune_live window now m in
    let n = stamp p.1 clock p.0 in
    let s =
      prune_members now group window rest (next_revision p.1 clock)
        (if p.1 then expired_event group n ∷ log else log) in
    record { members = (tag, n) ∷ s.members; clock = s.clock; log = s.log }

unfoldable pub prune_groups : ℕ → List (ℕ × Runtime) → ℕ → List StateEvent → Swept
prune_groups now [] clock log = record { groups = []; clock = clock; log = log }
prune_groups now ((g, r) ∷ rest) clock log =
    let p = prune_members now r.id r.window r.members clock log in
    let s = prune_groups now rest p.clock p.log in
    record {
      groups = (g, record r { members = p.members }) ∷ s.groups;
      clock = s.clock;
      log = s.log;
    }

unfoldable pub group_runtime_snapshots : ℕ → World → World
group_runtime_snapshots now w =
    let s = prune_groups now w.groups w.clock w.log in
    record w { groups = s.groups; clock = s.clock; log = s.log }

-- `CompareAndDelete`: the flag says whether the stored runtime is still the registered one.
unfoldable pub unregister : ℕ → Bool → World → World
unregister group same w = if same then record w { groups = delete group w.groups } else w

abbrev pub reset : World → World
reset w = record w { groups = []; evicted_nodes = [] }
