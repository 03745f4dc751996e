-- ===== src/Group/Migrating.antt =====
-- Reconciling a group with a new topology keeps the world well formed.

use easy_proxies_v.Base.{
  ==_iff, ==_refl, Bool-cases, Distinct, Each-lookup, List, Option-cases, String, String_eq, [],
  any, arith, contains, if_cases, inl, inr, lookup, none, not, pos_part, positive_or, refl, subst,
  sym, ℕ, ℕ_eq, ◌&&◌, ◌<◌, ◌==◌, ◌∷◌, ◌≡◌,
}
use easy_proxies_v.Group.Installing.{positive_or-pos}
use easy_proxies_v.Group.Invariant.{RuntimeOk, Serves, Usable, WorldOk, insert-WorldOk}
use easy_proxies_v.Group.Member.{is_available}
use easy_proxies_v.Group.Reconcile.{
  RuntimeUpdate, by_node, find_available, is_evicted_in, next_policy, notify_events,
  prune_global_evictions, reconcile_runtime, reconcile_silent,
}
use easy_proxies_v.Group.Register.{default_threshold, default_window}
use easy_proxies_v.Group.Settling.{by_node-OldOk, migrate-MigrationOk, same_policy-threshold}
use easy_proxies_v.Group.Spread.{propagate_eviction-WorldOk}
use easy_proxies_v.Group.State.{
  Member, RecoveryPolicy, Runtime, StateEvent, World, normalize_recovery_policy, notify,
  recovery_policy_provided, same_policy,
}

Usable-tail :
    (tag t : String) (m : Member) (rest : List (String × Member))
    → lookup tag rest ≡ none
    → Usable (lookup t rest)
    → Usable (lookup t ((tag, m) ∷ rest))
unfolding lookup
Usable-tail tag t m rest h u = elim (Bool-cases (tag == t)) [
  | inl e ↦
      let gone : Usable none =
        subst Usable h (subst (λ k. Usable (lookup k rest)) (sym ((==_iff tag t).0 e)) u) in
      absurd gone
  | inr e ↦ rw e u
]

-- The tag that is chosen names a member that may serve.
find_available-Usable :
    (node : ℕ) (members : List (String × Member))
    → Distinct members
    → Serves (find_available node members) members
unfolding find_available
find_available-Usable node [] h = inl refl
find_available-Usable node ((tag, m) ∷ rest) h =
    if_cases (λ t. Serves t ((tag, m) ∷ rest)) (m.node_id == node && is_available m) _ _
      (λ free. inr (unfold lookup is_available in rw (==_refl tag) (ground arith, ground arith)))
      (λ _. elim (find_available-Usable node rest h.1) [
        | inl blank ↦ inl blank
        | inr usable ↦ inr (Usable-tail tag _ m rest h.0 usable)
      ])

next_policy-pos :
    (update current : RecoveryPolicy)
    → 0 < pos_part current.success_threshold
    → 0 < pos_part (next_policy update current).success_threshold
unfolding next_policy normalize_recovery_policy
next_policy-pos update current h =
    if_cases (λ (p : RecoveryPolicy). 0 < pos_part p.success_threshold)
      (recovery_policy_provided update) _ _
      (λ _. positive_or-pos 3 update.success_threshold (omega arith)) (λ _. h)

prune_global_evictions-WorldOk :
    (nodes : List ℕ) (w : World) → WorldOk w → WorldOk (prune_global_evictions nodes w)
unfolding prune_global_evictions
prune_global_evictions-WorldOk [] w all = all
prune_global_evictions-WorldOk (node ∷ rest) w all = prune_global_evictions-WorldOk rest _ (
    if_cases WorldOk
      (contains node w.evicted_nodes
        && not (any (λ (e : ℕ × Runtime). is_evicted_in node e.1) w.groups))
      _ _ (λ _. all) (λ _. all))

reconcile_runtime-WorldOk :
    (now group : ℕ) (update : RuntimeUpdate) (r : Runtime) (w : World)
    → 0 < now
    → RuntimeOk w.clock group r
    → WorldOk w
    → WorldOk (reconcile_runtime now group update r w).0
unfolding reconcile_runtime
reconcile_runtime-WorldOk now group update r w h ok all =
    let policy = next_policy update.recovery r.recovery in
    let p_ok = next_policy-pos update.recovery r.recovery ok.policy_ok in
    let (later, mok) =
      migrate-MigrationOk policy r.recovery p_ok (not (same_policy policy r.recovery))
        (λ e. same_policy-threshold policy r.recovery (ground arith)) now group
        (positive_or default_window update.failure_window)
        (positive_or default_threshold update.failure_threshold) (by_node r.members [])
        update.members
        (record { next = []; evicted_nodes = w.evicted_nodes; clock = w.clock; events = [] })
        w.clock h (omega arith) (by_node-OldOk r.recovery w.clock r.members [] ok.members_ok tt)
        (tt, tt) in
    prune_global_evictions-WorldOk _ _ (
      insert-WorldOk group _ w _ later
        (record {
          named = ok.named;
          members_ok = mok.0;
          current_ok = find_available-Usable _ _ mok.1;
          policy_ok = p_ok;
          window_ok = positive_or-pos default_window update.failure_window (omega arith);
          threshold_ok = positive_or-pos default_threshold update.failure_threshold (omega arith);
        })
        all)

pub reconcile_silent-WorldOk :
    (now group : ℕ) (update : RuntimeUpdate) (w : World)
    → 0 < now
    → WorldOk w
    → WorldOk (reconcile_silent now group update w).0
unfolding reconcile_silent
reconcile_silent-WorldOk now group update w h all = elim (Option-cases (lookup group w.groups)) [
  | inl e ↦ rw (e, reconcile_silent) all
  | inr (r, e) ↦
      rw (e, reconcile_silent)
        (reconcile_runtime-WorldOk now group update r w h
          (Each-lookup (RuntimeOk w.clock) group w.groups all e) all)
]

pub notify_events-WorldOk :
    (now : ℕ) (events : List StateEvent) (w : World)
    → 0 < now
    → WorldOk w
    → WorldOk (notify_events now events w)
unfolding notify_events
notify_events-WorldOk now [] w h all = all
notify_events-WorldOk now (event ∷ rest) w h all = notify_events-WorldOk now rest _ h (
    if_cases WorldOk event.evicted _ _
      (λ _. propagate_eviction-WorldOk now event.node_id _ _ (notify event w) h all) (λ _. all))
