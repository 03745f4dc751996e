-- ===== src/Group/Installing.antt =====
-- Registering a group keeps the world well formed.

use native.Mathlib.Nat.{le_trans}
use easy_proxies_v.Base.{
  Each, Each-insert, Each-map, List, Option, Option-cases, String, String_eq, [], arith, if_cases,
  inl, inr, lookup, negsuc, none, pos, pos_part, positive_or, refl, some, suc, zero, ℕ, ℕ_eq, ℤ,
  ◌<◌, ◌==◌, ◌∙◌, ◌∷◌, ◌≡◌, ◌≤◌,
}
use easy_proxies_v.Group.Invariant.{
  MemberOk, MemberOk-mono, RuntimeOk, RuntimeOk-mono, Serves, WorldOk,
}
use easy_proxies_v.Group.Member.{is_available}
use easy_proxies_v.Group.Register.{
  announce_current, default_threshold, default_window, install, keep_current, new_runtime,
  policy_or_default, propagate_member, propagate_members, register, restore_member, restore_members,
}
use easy_proxies_v.Group.Spread.{propagate_eviction-WorldOk}
use easy_proxies_v.Group.State.{
  InitialState, Member, RecoveryPolicy, World, advance_state_revision, default_recovery_policy,
  normalize_recovery_policy,
}

pub advance-le :
    (revision clock : ℕ)
    → (revision ≤ advance_state_revision revision clock)
      × (clock ≤ advance_state_revision revision clock)
unfolding advance_state_revision
advance-le revision clock = ground arith

-- What restoring the members leaves: the groups as they were, the clock no earlier, and members
-- that are well formed under any policy.
abbrev Restores : World → List (String × Member) → World → Type 0
Restores w members w' =
    (w'.groups ≡ w.groups)
    × (w.clock ≤ w'.clock)
    × ((p : RecoveryPolicy) → 0 < pos_part p.success_threshold → Each (MemberOk p w'.clock) members)

restore_member-MemberOk :
    (now : ℕ) (tag : String) (initial : InitialState) (w : World) (p : RecoveryPolicy)
    → 0 < now
    → 0 < pos_part p.success_threshold
    → let r = restore_member now tag initial w in MemberOk p r.1.clock tag r.0
unfolding restore_member
restore_member-MemberOk now tag initial w p h ok = record {
  tagged = refl;
  idle = λ e. refl;
  short = ok;
  dated = λ e. ground arith;
  ring = omega arith;
  stamped = (advance-le initial.revision w.clock).0;
}

restore_members-Restores :
    (now : ℕ) (initial : List (String × InitialState)) (w : World)
    → 0 < now
    → let r = restore_members now initial w in Restores w r.0 r.1
unfolding restore_members
restore_members-Restores now [] w h = (refl, omega arith, λ p ok. tt)
restore_members-Restores now ((tag, i) ∷ rest) w h =
    let r = restore_member now tag i w in
    let (same, later, each) = restore_members-Restores now rest r.1 h in
    let forward : w.clock ≤ r.1.clock =
      unfold restore_member in (advance-le i.revision w.clock).1 in
    let kept : r.1.groups ≡ w.groups = unfold restore_member in refl in
    (
      same ∙ kept,
      le_trans forward later,
      λ p ok.
          (MemberOk-mono p later tag r.0 (restore_member-MemberOk now tag i w p h ok), each p ok),
    )

keep_current-Serves :
    (tag : String) (members : List (String × Member)) → Serves (keep_current tag members) members
unfolding keep_current
keep_current-Serves tag members = elim (Option-cases (lookup tag members)) [
  | inl e ↦ rw (e, keep_current) (inl refl)
  | inr (m, e) ↦
      rw (e, keep_current)
        (if_cases (λ t. Serves t members) (is_available m) _ _
          (λ free. inr (rw e (unfold is_available in (ground arith, ground arith))))
          (λ _. inl refl))
]

pub positive_or-pos : (d : ℕ) (z : ℤ) → 0 < d → 0 < positive_or d z
positive_or-pos d (pos zero) h = h
positive_or-pos d (pos (suc n)) h = omega arith
positive_or-pos d (negsuc n) h = h

policy_or_default-pos :
    (p : Option RecoveryPolicy) → 0 < pos_part (policy_or_default p).success_threshold
unfolding default_recovery_policy normalize_recovery_policy
policy_or_default-pos none = omega arith
policy_or_default-pos (some p) = positive_or-pos 3 p.success_threshold (omega arith)

propagate_member-WorldOk :
    (now : ℕ) (live : Option Member) (w : World)
    → 0 < now
    → WorldOk w
    → WorldOk (propagate_member now live w)
unfolding propagate_member
propagate_member-WorldOk now none w h all = all
propagate_member-WorldOk now (some m) w h all =
    if_cases WorldOk m.evicted _ _
      (λ _. propagate_eviction-WorldOk now m.node_id m.last_error m.evicted_at w h all) (λ _. all)

propagate_members-WorldOk :
    (now group : ℕ) (members : List (String × Member)) (w : World)
    → 0 < now
    → WorldOk w
    → WorldOk (propagate_members now group members w)
unfolding propagate_members
propagate_members-WorldOk now group [] w h all = all
propagate_members-WorldOk now group ((tag, _) ∷ rest) w h all =
    propagate_members-WorldOk now group rest _ h (propagate_member-WorldOk now _ w h all)

announce_current-WorldOk :
    (group : ℕ) (preferred : String) (current : Option Member) (w : World)
    → WorldOk w
    → WorldOk (announce_current group preferred current w)
unfolding announce_current
announce_current-WorldOk group preferred (some m) w all = all
announce_current-WorldOk group preferred none w all =
    if_cases WorldOk (preferred == "") _ _ (λ _. all) (λ _. all)

-- `Register` keeps every group well formed, whatever state it restores.
pub register-WorldOk :
    (now group : ℕ) (window threshold : ℤ) (tag : String) (initial : List (String × InitialState))
    (recovery : Option RecoveryPolicy) (w : World)
    → 0 < now
    → WorldOk w
    → WorldOk (register now group window threshold tag initial recovery w)
unfolding register install new_runtime
register-WorldOk now group window threshold tag initial recovery w h all =
    let (same, later, each) = restore_members-Restores now initial w h in
    let (members, w') = restore_members now initial w in
    if_cases WorldOk (group == 0) _ _ (λ _. all)
      (λ _. propagate_members-WorldOk now group members _ h (
        announce_current-WorldOk group tag _ _ (
          Each-insert (RuntimeOk w'.clock) group _ w'.groups
            (record {
              named = refl;
              members_ok = each (policy_or_default recovery) (policy_or_default-pos recovery);
              current_ok = keep_current-Serves tag members;
              policy_ok = policy_or_default-pos recovery;
              window_ok = positive_or-pos default_window window (omega arith);
              threshold_ok = positive_or-pos default_threshold threshold (omega arith);
            })
            (rw same (Each-map (RuntimeOk-mono later) w.groups all)))))
