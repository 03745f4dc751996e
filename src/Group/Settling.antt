-- ===== src/Group/Settling.antt =====
-- The loop of `ReconcileSilent` over the new members keeps them well formed.

-- The old members by node, with the policy that they were counted under.

use native.Mathlib.Nat.{le_trans}
use easy_proxies_v.Base.{
  Bool, Distinct, Distinct-insert, Each, Each-insert, Each-lookup, Each-map, List, Option,
  Option-cases, String, String_eq, [], arith, eq_ℤ, false, if_cases, inl, inr, insert, length,
  lookup, negsuc, none, pos, pos_part, refl, some, subst, sym, true, ℕ, ℕ_eq, ℤ, ◌+◌, ◌<◌, ◌||◌,
  ◌∷◌, ◌≡◌, ◌≤◌,
}
use easy_proxies_v.Group.Installing.{advance-le}
use easy_proxies_v.Group.Invariant.{MemberOk, MemberOk-mono}
use easy_proxies_v.Group.Member.{group_probe_ring, prune_failures}
use easy_proxies_v.Group.Reconcile.{
  Migration, by_node, carry_member, is_renamed, marked_member, migrate, migrate_member,
  place_member, resume_clock, settle_member,
}
use easy_proxies_v.Group.Serving.{prune_failures-flags}
use easy_proxies_v.Group.State.{InitialState, Member, RecoveryPolicy, same_policy}

abbrev pub OldOk : RecoveryPolicy → ℕ → ℕ → Member → Type 0
OldOk p clock node m = MemberOk p clock m.tag m

abbrev pub OldState : RecoveryPolicy → ℕ → Option Member → Type 0
OldState p clock none = Unit
OldState p clock (some m) = MemberOk p clock m.tag m

pub by_node-OldOk :
    (p : RecoveryPolicy) (clock : ℕ) (members : List (String × Member)) (found : List (ℕ × Member))
    → Each (MemberOk p clock) members
    → Each (OldOk p clock) found
    → Each (OldOk p clock) (by_node members found)
unfolding by_node
by_node-OldOk p clock [] found ok old = old
by_node-OldOk p clock ((tag, m) ∷ rest) found ok old = by_node-OldOk p clock rest _ ok.1 (
    Each-insert (OldOk p clock) m.node_id m found
      (subst (λ t. MemberOk p clock t m) (sym ok.0.tagged) ok.0) old)

eq_ℤ-pos_part : (a b : ℤ) → eq_ℤ a b ≡ true → pos_part a ≡ pos_part b
eq_ℤ-pos_part (pos a) (pos b) h = ground arith
eq_ℤ-pos_part (pos a) (negsuc b) h = ground arith
eq_ℤ-pos_part (negsuc a) (pos b) h = ground arith
eq_ℤ-pos_part (negsuc a) (negsuc b) h = refl

-- Policies that compare equal have one threshold.
pub same_policy-threshold :
    (p q : RecoveryPolicy)
    → same_policy p q ≡ true
    → pos_part p.success_threshold ≡ pos_part q.success_threshold
unfolding same_policy
same_policy-threshold p q h = eq_ℤ-pos_part p.success_threshold q.success_threshold (ground arith)

-- A carried member before its evictions are settled: the streak is short unless it is reset.
record CarriedOk (p : RecoveryPolicy) (again : Bool) (c : ℕ) (tag : String) (m : Member)
    : Type 0 where
  tagged : m.tag ≡ tag
  idle : m.evicted ≡ false → m.recovery_successes ≡ 0
  short : again ≡ false → m.recovery_successes < pos_part p.success_threshold
  ring : length m.applied_probes ≤ group_probe_ring
  stamped : m.revision ≤ c

settle_member-MemberOk :
    (p : RecoveryPolicy) (now threshold : ℕ) (restart : Bool) (clock : ℕ) (tag : String)
    (m : Member)
    → 0 < now
    → 0 < pos_part p.success_threshold
    → CarriedOk p restart clock tag m
    → MemberOk p clock tag (settle_member now threshold restart m)
unfolding settle_member
settle_member-MemberOk p now threshold restart clock tag m h k ok = record {
  tagged = ok.tagged;
  idle = λ e. ground (arith, ok.idle);
  short = ground (arith, ok.idle, ok.short);
  dated = λ e. ground arith;
  ring = ok.ring;
  stamped = ok.stamped;
}

prune_failures-CarriedOk :
    (p : RecoveryPolicy) (restart : Bool) (clock : ℕ) (tag : String) (window now : ℕ) (m : Member)
    → CarriedOk p restart clock tag m
    → CarriedOk p restart clock tag (prune_failures window now m).0
prune_failures-CarriedOk p restart clock tag window now m ok =
    rw (prune_failures-flags window now m) (record {
      tagged = ok.tagged;
      idle = ok.idle;
      short = ok.short;
      ring = ok.ring;
      stamped = ok.stamped;
    })

-- The policy of the update, against the policy that the old members were counted under.
module _ (p q : RecoveryPolicy) (p_ok : 0 < pos_part p.success_threshold) (policy_changed : Bool)
    (unchanged : policy_changed ≡ false
      → pos_part p.success_threshold ≡ pos_part q.success_threshold) where
  marked_member-CarriedOk :
      (tag : String) (initial : InitialState) (old : Option Member) (marks : List ℕ) (c clock : ℕ)
      → c ≤ clock
      → OldState q c old
      → CarriedOk p
          (policy_changed || is_renamed tag old)
          (resume_clock initial old clock)
          tag
          (marked_member tag initial old marks)
  unfolding marked_member carry_member
  marked_member-CarriedOk tag initial none marks c clock h old = record {
    tagged = refl;
    idle = λ e. refl;
    short = λ e. p_ok;
    ring = omega arith;
    stamped = (advance-le initial.revision clock).0;
  }
  marked_member-CarriedOk tag initial (some m) marks c clock h old = record {
    tagged = refl;
    idle = λ e. old.idle (ground arith);
    short = λ e. ground (arith, old.short, unchanged);
    ring = omega arith;
    stamped = omega (arith, old.stamped);
  }

  -- What the loop over the new members keeps.
  abbrev pub MigrationOk : Migration → Type 0
  MigrationOk s = Each (MemberOk p s.clock) s.next × Distinct s.next

  next-MigrationOk :
      (tag : String) (m : Member) (s : Migration) (clock : ℕ)
      → s.clock ≤ clock
      → MemberOk p clock tag m
      → MigrationOk s
      → Each (MemberOk p clock) (insert tag m s.next) × Distinct (insert tag m s.next)
  next-MigrationOk tag m s clock h mok ok = (
    Each-insert (MemberOk p clock) tag m s.next mok (Each-map (MemberOk-mono p h) s.next ok.0),
    Distinct-insert tag m s.next ok.1,
  )

  resume_clock-le :
      (initial : InitialState) (old : Option Member) (clock : ℕ)
      → clock ≤ resume_clock initial old clock
  resume_clock-le initial none clock = (advance-le initial.revision clock).1
  resume_clock-le initial (some _) clock = omega arith

  place_member-MigrationOk :
      (group : ℕ) (pruned newly : Bool) (tag : String) (m : Member) (clock : ℕ) (s : Migration)
      → s.clock ≤ clock
      → MemberOk p clock tag m
      → MigrationOk s
      → let t = place_member group pruned newly tag m clock s in (s.clock ≤ t.clock) × MigrationOk t
  unfolding place_member
  place_member-MigrationOk group pruned newly tag m clock s h mok ok =
      if_cases (λ (t : Migration). (s.clock ≤ t.clock) × MigrationOk t) (pruned || newly) _ _
        (λ _. (
          omega arith,
          next-MigrationOk tag (record m { revision = clock + 1 }) s (clock + 1) (omega arith)
              (record {
                tagged = mok.tagged;
                idle = mok.idle;
                short = mok.short;
                dated = mok.dated;
                ring = mok.ring;
                stamped = omega arith;
              })
              ok,
        ))
        (λ _. (h, next-MigrationOk tag m s clock h mok ok))

  old-OldState :
      (c : ℕ) (node : ℕ) (old : List (ℕ × Member))
      → Each (OldOk q c) old
      → OldState q c (lookup node old)
  old-OldState c node old olds = elim (Option-cases (lookup node old)) [
    | inl e ↦ rw e tt
    | inr (m, e) ↦ rw e (Each-lookup (OldOk q c) node old olds e)
  ]

  migrate_member-MigrationOk :
      (now group window threshold : ℕ) (old : List (ℕ × Member)) (tag : String)
      (initial : InitialState) (s : Migration) (c : ℕ)
      → 0 < now
      → c ≤ s.clock
      → Each (OldOk q c) old
      → MigrationOk s
      → let t = migrate_member now group window threshold policy_changed old tag initial s in
        (s.clock ≤ t.clock) × MigrationOk t
  unfolding migrate_member
  migrate_member-MigrationOk now group window threshold old tag initial s c h k olds ok =
      let before = lookup initial.node_id old in
      let clock = resume_clock initial before s.clock in
      place_member-MigrationOk group _ _ tag _ clock s (resume_clock-le initial before s.clock)
        (settle_member-MemberOk p now threshold (policy_changed || is_renamed tag before) clock tag
          _ h p_ok
          (prune_failures-CarriedOk p _ clock tag window now _ (
            marked_member-CarriedOk tag initial before s.evicted_nodes c s.clock k
              (old-OldState c initial.node_id old olds))))
        ok

  pub migrate-MigrationOk :
      (now group window threshold : ℕ) (old : List (ℕ × Member))
      (members : List (String × InitialState)) (s : Migration) (c : ℕ)
      → 0 < now
      → c ≤ s.clock
      → Each (OldOk q c) old
      → MigrationOk s
      → let t = migrate now group window threshold policy_changed old members s in
        (s.clock ≤ t.clock) × MigrationOk t
  unfolding migrate
  migrate-MigrationOk now group window threshold old [] s c h k olds ok = (omega arith, ok)
  migrate-MigrationOk now group window threshold old ((tag, initial) ∷ rest) s c h k olds ok =
      let t = migrate_member now group window threshold policy_changed old tag initial s in
      let (first, tok) =
        migrate_member-MigrationOk now group window threshold old tag initial s c h k olds ok in
      let (later, uok) =
        migrate-MigrationOk now group window threshold old rest t c h (le_trans k first) olds tok in
      (le_trans first later, uok)
