-- ===== src/Group/Leaving.antt =====
-- The snapshots' pruning, the cleanup of a registration and `Reset` keep every group well formed.

use native.Mathlib.Nat.{le_trans}
use easy_proxies_v.Base.{
  Bool, Bool-cases, Each, Each-map, List, String, String_eq, [], ap, arith, delete, false, if_cases,
  if◌then◌else◌, inl, inr, lookup, refl, true, ℕ, ℕ_eq, ◌==◌, ◌∙◌, ◌∷◌, ◌≡◌, ◌≤◌,
}
use easy_proxies_v.Group.Invariant.{
  MemberOk, MemberOk-mono, RuntimeOk, RuntimeOk-mono, Usable, WorldOk,
}
use easy_proxies_v.Group.Serving.{prune_failures-MemberOk, prune_failures-flags}
use easy_proxies_v.Group.Snapshots.{
  expired_event, group_runtime_snapshots, prune_groups, prune_live, prune_members, stamp,
  unregister,
}
use easy_proxies_v.Group.State.{Member, RecoveryPolicy, Runtime, StateEvent, World}
use easy_proxies_v.Group.Sweep.{next_revision}

prune_live-flags :
    (window now : ℕ) (m : Member)
    → let n = (prune_live window now m).0 in
      n ≡ record m { failure_history = n.failure_history; last_error = n.last_error }
unfolding prune_live
prune_live-flags window now m =
    if_cases
      (λ (p : Member × Bool).
        p.0 ≡ record m { failure_history = p.0.failure_history; last_error = p.0.last_error })
      m.evicted _ _ (λ _. refl) (λ _. prune_failures-flags window now m)

stamp-MemberOk :
    (p : RecoveryPolicy) (hit : Bool) (clock : ℕ) (tag : String) (m : Member)
    → MemberOk p clock tag m
    → MemberOk p (next_revision hit clock) tag (stamp hit clock m)
stamp-MemberOk p true clock tag m ok = record {
  tagged = ok.tagged;
  idle = ok.idle;
  short = ok.short;
  dated = ok.dated;
  ring = ok.ring;
  stamped = omega arith;
}
stamp-MemberOk p false clock tag m ok = ok

prune_live-MemberOk :
    (p : RecoveryPolicy) (clock : ℕ) (tag : String) (window now : ℕ) (m : Member)
    → MemberOk p clock tag m
    → MemberOk p clock tag (prune_live window now m).0
unfolding prune_live
prune_live-MemberOk p clock tag window now m ok =
    if_cases (λ (q : Member × Bool). MemberOk p clock tag q.0) m.evicted _ _ (λ _. ok)
      (λ _. prune_failures-MemberOk p clock tag window now m ok)

next_revision-forward : (hit : Bool) (clock : ℕ) → clock ≤ next_revision hit clock
next_revision-forward true clock = omega arith
next_revision-forward false clock = omega arith

prune_members-Each :
    (p : RecoveryPolicy) (now group window : ℕ) (members : List (String × Member)) (clock : ℕ)
    (log : List StateEvent)
    → Each (MemberOk p clock) members
    → let s = prune_members now group window members clock log in
      (clock ≤ s.clock) × Each (MemberOk p s.clock) s.members
unfolding prune_members
prune_members-Each p now group window [] clock log ok = (omega arith, tt)
prune_members-Each p now group window ((tag, m) ∷ rest) clock log ok =
    let q = prune_live window now m in
    let n = stamp q.1 clock q.0 in
    let first = next_revision-forward q.1 clock in
    let (forward, tail) =
      prune_members-Each p now group window rest (next_revision q.1 clock)
        (if q.1 then expired_event group n ∷ log else log)
        (Each-map (MemberOk-mono p first) rest ok.1) in
    (
      le_trans first forward,
      (
        MemberOk-mono p forward tag n (
            stamp-MemberOk p q.1 clock tag q.0 (prune_live-MemberOk p clock tag window now m ok.0)),
        tail,
      ),
    )

stamp-usable :
    (hit : Bool) (clock window now : ℕ) (m : Member)
    → (m.standby ≡ false) × (m.evicted ≡ false)
    → let c = stamp hit clock (prune_live window now m).0 in
      (c.standby ≡ false) × (c.evicted ≡ false)
stamp-usable true clock window now m h = (
  ap (λ (x : Member). x.standby) (prune_live-flags window now m) ∙ h.0,
  ap (λ (x : Member). x.evicted) (prune_live-flags window now m) ∙ h.1,
)
stamp-usable false clock window now m h = (
  ap (λ (x : Member). x.standby) (prune_live-flags window now m) ∙ h.0,
  ap (λ (x : Member). x.evicted) (prune_live-flags window now m) ∙ h.1,
)

prune_members-Usable :
    (current : String) (now group window : ℕ) (members : List (String × Member)) (clock : ℕ)
    (log : List StateEvent)
    → Usable (lookup current members)
    → Usable (lookup current (prune_members now group window members clock log).members)
unfolding prune_members lookup
prune_members-Usable current now group window [] clock log u = u
prune_members-Usable current now group window ((tag, m) ∷ rest) clock log u =
    elim (Bool-cases (tag == current)) [
      | inl e ↦ rw e (stamp-usable (prune_live window now m).1 clock window now m (rw e at u))
      | inr e ↦ rw e (prune_members-Usable current now group window rest _ _ (rw e at u))
    ]

prune_groups-RuntimeOk :
    (now : ℕ) (groups : List (ℕ × Runtime)) (clock : ℕ) (log : List StateEvent)
    → Each (RuntimeOk clock) groups
    → let s = prune_groups now groups clock log in
      (clock ≤ s.clock) × Each (RuntimeOk s.clock) s.groups
unfolding prune_groups
prune_groups-RuntimeOk now [] clock log ok = (omega arith, tt)
prune_groups-RuntimeOk now ((g, r) ∷ rest) clock log ok =
    let p = prune_members now r.id r.window r.members clock log in
    let (forward, all) =
      prune_members-Each r.recovery now r.id r.window r.members clock log ok.0.members_ok in
    let (later, tail) =
      prune_groups-RuntimeOk now rest p.clock p.log (Each-map (RuntimeOk-mono forward) rest ok.1) in
    let head : RuntimeOk p.clock g (record r { members = p.members }) = record {
      named = ok.0.named;
      members_ok = all;
      current_ok = elim ok.0.current_ok [
        | inl e ↦ inl e
        | inr u ↦ inr (prune_members-Usable r.current_tag now r.id r.window r.members clock log u)
      ];
      policy_ok = ok.0.policy_ok;
      window_ok = ok.0.window_ok;
      threshold_ok = ok.0.threshold_ok;
    } in
    (le_trans forward later, (RuntimeOk-mono later g _ head, tail))

pub group_runtime_snapshots-WorldOk :
    (now : ℕ) (w : World) → WorldOk w → WorldOk (group_runtime_snapshots now w)
unfolding group_runtime_snapshots
group_runtime_snapshots-WorldOk now w ok = (prune_groups-RuntimeOk now w.groups w.clock w.log ok).1

delete-Each :
    (clock group : ℕ) (groups : List (ℕ × Runtime))
    → Each (RuntimeOk clock) groups
    → Each (RuntimeOk clock) (delete group groups)
unfolding delete
delete-Each clock group [] ok = tt
delete-Each clock group ((g, r) ∷ rest) ok =
    if_cases (Each (RuntimeOk clock)) (g == group) _ _ (λ _. delete-Each clock group rest ok.1)
      (λ _. (ok.0, delete-Each clock group rest ok.1))

pub unregister-WorldOk :
    (group : ℕ) (same : Bool) (w : World) → WorldOk w → WorldOk (unregister group same w)
unfolding unregister
unregister-WorldOk group true w ok = delete-Each w.clock group w.groups ok
unregister-WorldOk group false w ok = ok
