-- ===== src/Group/Sweep.antt =====
-- internal/group/runtime.go: `groupRuntimeStore.Range` with a callback that changes the group it
-- visits, and the two global consequences of a member's change, eviction and recovery everywhere.

-- What a visit leaves: the group, the revision clock, and the event to announce.

use easy_proxies_v.Base.{
  Bool, List, Option, String, String_eq, [], false, if◌then◌else◌, none, not, some, true, ℕ, ℕ_eq,
  ◌&&◌, ◌+◌, ◌==◌, ◌∷◌,
}
use easy_proxies_v.Group.Member.{clear_member_eviction}
use easy_proxies_v.Group.State.{Member, Runtime, StateEvent, World, blank_event, unmark_evicted}

pub record Visit : Type 0 where
  pub runtime : Runtime
  pub clock : ℕ
  pub event : Option StateEvent

abbrev pub emit : Option StateEvent → List StateEvent → List StateEvent
emit none log = log
emit (some event) log = event ∷ log

pub record Swept : Type 0 where
  pub groups : List (ℕ × Runtime)
  pub clock : ℕ
  pub log : List StateEvent

unfoldable pub sweep : (Runtime → ℕ → Visit) → List (ℕ × Runtime) → ℕ → List StateEvent → Swept
sweep visit [] clock log = record { groups = []; clock = clock; log = log }
sweep visit ((g, r) ∷ rest) clock log =
    let v = visit r clock in
    let s = sweep visit rest v.clock (emit v.event log) in
    record { groups = (g, v.runtime) ∷ s.groups; clock = s.clock; log = s.log }

abbrev pub sweep_world : (Runtime → ℕ → Visit) → World → World
sweep_world visit w =
    let s = sweep visit w.groups w.clock w.log in
    record w { groups = s.groups; clock = s.clock; log = s.log }

-- The eviction of one member by `propagateEviction`.
unfoldable pub evict_member : String → ℕ → ℕ → Member → Member
evict_member last_error evicted_at revision m = record m {
  evicted = true;
  evicted_at = evicted_at;
  last_error = last_error;
  recovery_successes = 0;
  revision = revision;
}

abbrev pub behind :
    String × Member
    → Option (Member × List (String × Member))
    → Option (Member × List (String × Member))
behind e none = none
behind e (some (m, rest)) = some (m, e ∷ rest)

-- The first member of the node that is not evicted yet, evicted; and the members around it.
unfoldable pub evict_first :
    ℕ → (Member → Member) → List (String × Member) → Option (Member × List (String × Member))
evict_first node evict [] = none
evict_first node evict ((tag, m) ∷ rest) =
    let later = behind (tag, m) (evict_first node evict rest) in
    if m.node_id == node && not m.evicted then some (evict m, (tag, evict m) ∷ rest) else later

-- The group with the member evicted, and the event that tells of it.
unfoldable pub announce_evicted :
    ℕ → String → ℕ → Runtime → ℕ → Option (Member × List (String × Member)) → Visit
announce_evicted node last_error evicted_at r clock none = record {
  runtime = r;
  clock = clock;
  event = none;
}
announce_evicted node last_error evicted_at r clock (some (m, members)) = record {
  runtime = record r {
    members = members;
    current_tag = if r.current_tag == m.tag then "" else r.current_tag;
  };
  clock = clock + 1;
  event = some (record (blank_event r.id node) {
    failure_history = m.failure_history;
    evicted = true;
    last_error = last_error;
    evicted_at = evicted_at;
    current_changed = r.current_tag == m.tag;
    state_changed = true;
    revision = clock + 1;
  });
}

unfoldable pub visit_evict : ℕ → String → ℕ → Runtime → ℕ → Visit
unfolding announce_evicted
visit_evict node last_error evicted_at r clock =
    announce_evicted node last_error evicted_at r clock
      (evict_first node (evict_member last_error evicted_at (clock + 1)) r.members)

-- `propagateEviction`.
unfoldable pub propagate_eviction : ℕ → ℕ → String → ℕ → World → World
propagate_eviction now node last_error evicted_at w =
    if node == 0
    then w
    else sweep_world (visit_evict node last_error (if evicted_at == 0 then now else evicted_at)) w

-- A member that is cleared takes the next revision.
abbrev pub next_revision : Bool → ℕ → ℕ
next_revision true clock = clock + 1
next_revision false clock = clock

unfoldable pub clear_selected : Bool → ℕ → Member → Member
clear_selected true clock m = record (clear_member_eviction m) { revision = clock + 1 }
clear_selected false clock m = m

-- The members of the node that `which` selects, cleared, each with a revision of its own. The
-- result has the last revision given out.
unfoldable pub clear_members :
    (Member → Bool) → List (String × Member) → ℕ → List (String × Member) × ℕ
clear_members which [] clock = ([], clock)
clear_members which ((tag, m) ∷ rest) clock =
    let r = clear_members which rest (next_revision (which m) clock) in
    ((tag, clear_selected (which m) clock m) ∷ r.0, r.1)

abbrev pub recovered_event : ℕ → ℕ → ℕ → StateEvent
recovered_event group node revision = record (blank_event group node) {
  state_changed = true;
  recovered = true;
  revision = revision;
}

abbrev pub visit_clear : ℕ → (Member → Bool) → Runtime → ℕ → Visit
visit_clear node which r clock =
    let (members, clock') = clear_members which r.members clock in
    record {
      runtime = record r { members = members };
      clock = clock';
      event = if clock' == clock then none else some (recovered_event r.id node clock');
    }

-- `recoverEvictedNodeEverywhere` leaves out the group that proved the recovery.
unfoldable pub visit_recover : ℕ → ℕ → Runtime → ℕ → Visit
visit_recover node origin r clock =
    if r.id == origin
    then record { runtime = r; clock = clock; event = none }
    else visit_clear node (λ m. m.node_id == node && m.evicted) r clock

unfoldable pub recover_evicted_node_everywhere : ℕ → ℕ → World → World
recover_evicted_node_everywhere node origin w =
    if node == 0 then w else sweep_world (visit_recover node origin) (unmark_evicted node w)

-- `RestoreGroupMember` clears every member of the node, evicted or not.
unfoldable pub visit_restore : ℕ → Runtime → ℕ → Visit
visit_restore node r clock = visit_clear node (λ m. m.node_id == node) r clock
