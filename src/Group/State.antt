-- ===== src/Group/State.antt =====
-- internal/group/runtime.go: the data of the group runtimes and of the policy that readmits
-- evicted members. Times are nanoseconds since Go's zero time, which is 0; failure histories hold
-- whole seconds on the same axis. Revisions and identifiers are 64-bit in the source and count
-- state changes and database rows, so they are unbounded here.

use easy_proxies_v.Base.{
  Bool, List, String, [], contains, eq_ℤ, false, if◌then◌else◌, keep, leb, not, pos, pos_part,
  positive_or, true, ℕ, ℕ_eq, ℤ, ◌&&◌, ◌/◌, ◌==◌, ◌||◌, ◌∷◌,
}

pub record RecoveryPolicy : Type 0 where
  pub enabled : Bool
  pub success_threshold : ℤ
  pub cooldown : ℤ

abbrev pub default_recovery_success_threshold : ℕ
default_recovery_success_threshold = 3

abbrev pub default_recovery_cooldown : ℕ
default_recovery_cooldown = 300000000000

unfoldable pub default_recovery_policy : RecoveryPolicy
default_recovery_policy = record {
  enabled = true;
  success_threshold = pos default_recovery_success_threshold;
  cooldown = pos default_recovery_cooldown;
}

unfoldable pub normalize_recovery_policy : RecoveryPolicy → RecoveryPolicy
normalize_recovery_policy p = record {
  enabled = p.enabled;
  success_threshold = pos (positive_or default_recovery_success_threshold p.success_threshold);
  cooldown = pos (pos_part p.cooldown);
}

unfoldable pub recovery_policy_provided : RecoveryPolicy → Bool
recovery_policy_provided p =
    p.enabled || (not (eq_ℤ p.success_threshold (pos 0)) || not (eq_ℤ p.cooldown (pos 0)))

-- `==` on two values of the struct.
abbrev pub same_bool : Bool → Bool → Bool
same_bool true b = b
same_bool false b = not b

unfoldable pub same_policy : RecoveryPolicy → RecoveryPolicy → Bool
same_policy p q =
    same_bool p.enabled q.enabled
    && (eq_ℤ p.success_threshold q.success_threshold && eq_ℤ p.cooldown q.cooldown)

pub record InitialState : Type 0 where
  pub standby : Bool
  pub node_id : ℕ
  pub failure_history : List ℕ
  pub evicted : Bool
  pub last_error : String
  pub evicted_at : ℕ
  pub revision : ℕ

pub record Member : Type 0 where
  pub standby : Bool
  pub node_id : ℕ
  pub tag : String
  pub failure_history : List ℕ
  pub evicted : Bool
  pub last_error : String
  pub evicted_at : ℕ
  pub recovery_successes : ℕ
  pub applied_probes : List String
  pub revision : ℕ

pub record Runtime : Type 0 where
  pub id : ℕ
  pub window : ℕ
  pub threshold : ℕ
  pub recovery : RecoveryPolicy
  pub current_tag : String
  pub members : List (String × Member)
  pub last_current_notify : ℕ
  pub current_notify_pending : Bool
  pub current_pending_node_id : ℕ

-- What the persistence observer and the subscribers are called with.
pub record StateEvent : Type 0 where
  pub group_id : ℕ
  pub node_id : ℕ
  pub failure_history : List ℕ
  pub evicted : Bool
  pub last_error : String
  pub evicted_at : ℕ
  pub current_node_id : ℕ
  pub current_changed : Bool
  pub state_changed : Bool
  pub recovered : Bool
  pub revision : ℕ

-- The struct literal that sets `GroupID` and `NodeID` only.
abbrev pub blank_event : ℕ → ℕ → StateEvent
blank_event group node = record {
  group_id = group;
  node_id = node;
  failure_history = [];
  evicted = false;
  last_error = "";
  evicted_at = 0;
  current_node_id = 0;
  current_changed = false;
  state_changed = false;
  recovered = false;
  revision = 0;
}

-- The package's variables: `groupRuntimeStore`, `globalEvictedNodes`, `stateRevision`, and the
-- events that `notifyGroupState` has passed to its callbacks, the newest first.
pub record World : Type 0 where
  pub groups : List (ℕ × Runtime)
  pub evicted_nodes : List ℕ
  pub clock : ℕ
  pub log : List StateEvent

abbrev pub notify : StateEvent → World → World
notify event w = record w { log = event ∷ w.log }

-- `globalEvictedNodes.Store(node, true)` and `Delete(node)`.
abbrev pub mark_evicted : ℕ → World → World
mark_evicted node w = record w {
  evicted_nodes = if contains node w.evicted_nodes then w.evicted_nodes else node ∷ w.evicted_nodes;
}

abbrev pub unmark_evicted : ℕ → World → World
unmark_evicted node w = record w { evicted_nodes = keep (λ n. not (n == node)) w.evicted_nodes }

-- `advanceStateRevision`: the clock never runs behind a restored revision.
unfoldable pub advance_state_revision : ℕ → ℕ → ℕ
advance_state_revision revision clock = if leb revision clock then clock else revision

-- `t.Unix()`.
abbrev pub unix : ℕ → ℕ
unix t = t / 1000000000
