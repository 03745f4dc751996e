-- ===== src/Group/Clearing.antt =====
-- A recovery keeps the world well formed: the loops that clear a node's evictions.

use native.Mathlib.Nat.{le_trans}
use easy_proxies_v.Base.{
  Bool, Bool-cases, Each, Each-map, List, String, String_eq, [], arith, false, inl, inr, lookup,
  pos_part, refl, true, ℕ, ℕ_eq, ◌<◌, ◌==◌, ◌∷◌, ◌≡◌, ◌≤◌,
}
use easy_proxies_v.Group.Invariant.{
  KeepsOk, MemberOk, MemberOk-mono, RuntimeOk, Usable, WorldOk, sweep_world-WorldOk,
}
use easy_proxies_v.Group.Member.{clear_member_eviction}
use easy_proxies_v.Group.State.{Member, RecoveryPolicy, Runtime, World, unmark_evicted}
use easy_proxies_v.Group.Sweep.{
  clear_members, clear_selected, next_revision, recover_evicted_node_everywhere, sweep_world,
  visit_clear, visit_recover, visit_restore,
}

-- The members that a recovery clears.
next_revision-le : (hit : Bool) (clock : ℕ) → clock ≤ next_revision hit clock
next_revision-le true clock = omega arith
next_revision-le false clock = omega arith

clear_selected-MemberOk :
    (p : RecoveryPolicy)
    → 0 < pos_part p.success_threshold
    → (hit : Bool) (clock : ℕ) (tag : String) (m : Member) → MemberOk p clock tag m
    → MemberOk p (next_revision hit clock) tag (clear_selected hit clock m)
unfolding clear_selected clear_member_eviction
clear_selected-MemberOk p policy_ok true clock tag m ok = record {
  tagged = ok.tagged;
  idle = λ e. refl;
  short = policy_ok;
  dated = λ e. cc;
  ring = ok.ring;
  stamped = omega arith;
}
clear_selected-MemberOk p policy_ok false clock tag m ok = ok

clear_selected-usable :
    (hit : Bool) (clock : ℕ) (m : Member)
    → (m.standby ≡ false) × (m.evicted ≡ false)
    → let c = clear_selected hit clock m in (c.standby ≡ false) × (c.evicted ≡ false)
unfolding clear_selected clear_member_eviction
clear_selected-usable true clock m h = (h.0, refl)
clear_selected-usable false clock m h = h

clear_members-Each :
    (p : RecoveryPolicy)
    → 0 < pos_part p.success_threshold
    → (which : Member → Bool) → (members : List (String × Member)) (clock : ℕ)
    → Each (MemberOk p clock) members
    → let r = clear_members which members clock in (clock ≤ r.1) × Each (MemberOk p r.1) r.0
unfolding clear_members
clear_members-Each p policy_ok which [] clock ok = (omega arith, tt)
clear_members-Each p policy_ok which ((tag, m) ∷ rest) clock ok =
    let first = next_revision-le (which m) clock in
    let (forward, tail) =
      clear_members-Each p policy_ok which rest (next_revision (which m) clock)
        (Each-map (MemberOk-mono p first) rest ok.1) in
    (
      le_trans first forward,
      (
        MemberOk-mono p forward tag _
            (clear_selected-MemberOk p policy_ok (which m) clock tag m ok.0),
        tail,
      ),
    )

clear_members-Usable :
    (which : Member → Bool) (current : String) (members : List (String × Member)) (clock : ℕ)
    → Usable (lookup current members)
    → Usable (lookup current (clear_members which members clock).0)
unfolding clear_members lookup
clear_members-Usable which current [] clock u = u
clear_members-Usable which current ((tag, m) ∷ rest) clock u = elim (Bool-cases (tag == current)) [
  | inl e ↦ rw e (clear_selected-usable (which m) clock m (rw e at u))
  | inr e ↦ rw e (clear_members-Usable which current rest _ (rw e at u))
]

visit_clear-RuntimeOk :
    (node : ℕ) (which : Member → Bool) (group : ℕ) (r : Runtime) (clock : ℕ)
    → RuntimeOk clock group r
    → let v = visit_clear node which r clock in
      (clock ≤ v.clock) × RuntimeOk v.clock group v.runtime
visit_clear-RuntimeOk node which group r clock ok =
    let (forward, all) =
      clear_members-Each r.recovery ok.policy_ok which r.members clock ok.members_ok in
    (
      forward,
      record {
        named = ok.named;
        members_ok = all;
        current_ok = elim ok.current_ok [
          | inl e ↦ inl e
          | inr u ↦ inr (clear_members-Usable which r.current_tag r.members clock u)
        ];
        policy_ok = ok.policy_ok;
        window_ok = ok.window_ok;
        threshold_ok = ok.threshold_ok;
      },
    )

visit_recover-KeepsOk : (node origin : ℕ) → KeepsOk (visit_recover node origin)
unfolding visit_recover
visit_recover-KeepsOk node origin clock group r ok = elim (Bool-cases (r.id == origin)) [
  | inl e ↦ rw e (omega arith, ok)
  | inr e ↦ rw e (visit_clear-RuntimeOk node _ group r clock ok)
]

visit_restore-KeepsOk : (node : ℕ) → KeepsOk (visit_restore node)
unfolding visit_restore
visit_restore-KeepsOk node clock group r ok = visit_clear-RuntimeOk node _ group r clock ok

-- `recoverEvictedNodeEverywhere` keeps every group well formed.
pub recover_evicted_node_everywhere-WorldOk :
    (node origin : ℕ) (w : World)
    → WorldOk w
    → WorldOk (recover_evicted_node_everywhere node origin w)
unfolding recover_evicted_node_everywhere
recover_evicted_node_everywhere-WorldOk node origin w ok = elim (Bool-cases (node == 0)) [
  | inl e ↦ rw e ok
  | inr e ↦
      rw e (sweep_world-WorldOk _ (visit_recover-KeepsOk node origin) (unmark_evicted node w) ok)
]

pub restore_sweep-WorldOk :
    (node : ℕ) (w : World)
    → WorldOk w
    → WorldOk (sweep_world (visit_restore node) (unmark_evicted node w))
restore_sweep-WorldOk node w ok =
    sweep_world-WorldOk _ (visit_restore-KeepsOk node) (unmark_evicted node w) ok
