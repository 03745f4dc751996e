-- ===== src/Group/Recovering.antt =====
-- A recorded success, a restore and the operations on the current member keep the world well
-- formed.

use easy_proxies_v.Base.{
  Bool, Each-lookup, Option-cases, String, String_eq, ap, arith, false, if_cases, inl, inr, length,
  lookup, ltb_ℤ, not, pos, pos_part, refl, some, sub_ℕ, subst, sym, true, ℕ, ℕ_eq, ◌+◌, ◌<◌, ◌==◌,
  ◌∙◌, ◌≡◌, ◌≤◌,
}
use easy_proxies_v.Group.Clearing.{recover_evicted_node_everywhere-WorldOk, restore_sweep-WorldOk}
use easy_proxies_v.Group.Failure.{put_member}
use easy_proxies_v.Group.Invariant.{IsAbsent, MemberOk, RuntimeOk, Stays-of_flags, Usable, WorldOk}
use easy_proxies_v.Group.Member.{already_applied_probe, clear_member_eviction, group_probe_ring}
use easy_proxies_v.Group.Probes.{already_applied_probe-MemberOk, already_applied_probe-rest}
use easy_proxies_v.Group.Put.{put_member-WorldOk}
use easy_proxies_v.Group.State.{Member, Runtime, World}
use easy_proxies_v.Group.Success.{
  clear_failures, count_success, readmit, record_health_success, restore_group_member,
}

pub record_health_success_cases {κ} :
    (P : World × Bool → Type κ) (now group : ℕ) (tag probe : String) (w : World)
    → (IsAbsent group tag w → P (w, false))
    → ((r : Runtime) (m : Member)
        → lookup group w.groups ≡ some r
        → lookup tag r.members ≡ some m
        → (already_applied_probe probe m).1 ≡ true
        → P (w, not m.evicted))
    → ((r : Runtime) (m : Member)
        → lookup group w.groups ≡ some r
        → lookup tag r.members ≡ some m
        → m.evicted ≡ true
        → P (count_success now group r tag (already_applied_probe probe m).0 w))
    → ((r : Runtime) (m : Member)
        → lookup group w.groups ≡ some r
        → lookup tag r.members ≡ some m
        → m.evicted ≡ false
        → P (clear_failures group r tag (already_applied_probe probe m).0 w))
    → P (record_health_success now group tag probe w)
unfolding record_health_success
record_health_success_cases P now group tag probe w absent replayed banned live =
    elim (Option-cases (lookup group w.groups)) [
      | inl e ↦ rw (e, record_health_success) (absent (inl e))
      | inr (r, e) ↦ elim (Option-cases (lookup tag r.members)) [
        | inl f ↦ rw (e, f, record_health_success) (absent (inr (r, e, f)))
        | inr (m, f) ↦
            rw (e, f, record_health_success)
              (if_cases P (already_applied_probe probe m).1 _ _ (replayed r m e f)
                (λ _. if_cases P m.evicted _ _ (banned r m e f) (live r m e f)))
      ]
    ]

module _ (group : ℕ) (r : Runtime) (tag : String) (m : Member) (w : World)
    (found : lookup tag r.members ≡ some m) (ok : RuntimeOk w.clock group r) (all : WorldOk w) where
  -- A change that clears the member under a new revision.
  put_new-WorldOk :
      (n : Member)
      → MemberOk r.recovery (w.clock + 1) tag n
      → n.standby ≡ m.standby
      → n.evicted ≡ false
      → WorldOk (put_member group r tag n (record w { clock = w.clock + 1 }))
  put_new-WorldOk n nok s e =
      put_member-WorldOk group r tag n w (w.clock + 1) (omega arith) ok nok
        (λ same usable.
          let u : Usable (some m) =
            subst Usable found (subst (λ t. Usable (lookup t r.members)) (sym same) usable) in
          (s ∙ u.0, e))
        all

  readmit-WorldOk :
      (n : Member)
      → n.tag ≡ tag
      → length n.applied_probes ≤ group_probe_ring
      → n.standby ≡ m.standby
      → WorldOk (readmit group r tag n w)
  unfolding readmit clear_member_eviction
  readmit-WorldOk n t h s = recover_evicted_node_everywhere-WorldOk n.node_id group _ (
      put_new-WorldOk _
        (record {
          tagged = t;
          idle = λ e. refl;
          short = ok.policy_ok;
          dated = λ e. cc;
          ring = h;
          stamped = omega arith;
        })
        s refl)

  count_success-WorldOk :
      (now : ℕ) (n : Member)
      → MemberOk r.recovery w.clock tag n
      → n.standby ≡ m.standby
      → n.evicted ≡ m.evicted
      → m.evicted ≡ true
      → WorldOk (count_success now group r tag n w).0
  unfolding count_success
  count_success-WorldOk now n nok s e banned =
      if_cases (λ (p : World × Bool). WorldOk p.0) (not r.recovery.enabled) _ _
        (λ _. put (record n { recovery_successes = 0 }) (streak 0 ok.policy_ok) s e)
        (λ _.
          if_cases (λ (p : World × Bool). WorldOk p.0)
            (ltb_ℤ (sub_ℕ now n.evicted_at) r.recovery.cooldown) _ _ (λ _. put n nok s e)
            (λ _.
              if_cases (λ (p : World × Bool). WorldOk p.0)
                (ltb_ℤ (pos (n.recovery_successes + 1)) r.recovery.success_threshold) _ _
                (λ below.
                  put (record n { recovery_successes = n.recovery_successes + 1 })
                    (streak (n.recovery_successes + 1) (ground arith)) s e)
                (λ _. readmit-WorldOk _ nok.tagged nok.ring s)))
    where
      put :
          (x : Member)
          → MemberOk r.recovery w.clock tag x
          → x.standby ≡ m.standby
          → x.evicted ≡ m.evicted
          → WorldOk (put_member group r tag x w)
      put x xok s' e' =
          put_member-WorldOk group r tag x w w.clock (omega arith) ok xok
            (Stays-of_flags r.current_tag tag r.members m x found s' e') all

      streak :
          (k : ℕ)
          → k < pos_part r.recovery.success_threshold
          → MemberOk r.recovery w.clock tag (record n { recovery_successes = k })
      streak k h = record {
        tagged = nok.tagged;
        idle = λ live. absurd (ground arith);
        short = h;
        dated = nok.dated;
        ring = nok.ring;
        stamped = nok.stamped;
      }

  clear_failures-WorldOk :
      (n : Member)
      → MemberOk r.recovery w.clock tag n
      → n.standby ≡ m.standby
      → n.evicted ≡ false
      → m.evicted ≡ false
      → WorldOk (clear_failures group r tag n w).0
  unfolding clear_failures
  clear_failures-WorldOk n nok s e live =
      if_cases (λ (p : World × Bool). WorldOk p.0) (length n.failure_history == 0) _ _
        (λ _.
          put_member-WorldOk group r tag (record n { recovery_successes = 0 }) w w.clock
            (omega arith) ok
            (record {
              tagged = nok.tagged;
              idle = λ _. refl;
              short = ok.policy_ok;
              dated = nok.dated;
              ring = nok.ring;
              stamped = nok.stamped;
            })
            (Stays-of_flags r.current_tag tag r.members m (record n { recovery_successes = 0 })
              found s (e ∙ sym live))
            all)
        (λ _.
          put_new-WorldOk _
            (record {
              tagged = nok.tagged;
              idle = λ _. refl;
              short = ok.policy_ok;
              dated = nok.dated;
              ring = nok.ring;
              stamped = omega arith;
            })
            s e)

-- `RecordHealthSuccess` keeps every group well formed.
pub record_health_success-WorldOk :
    (now group : ℕ) (tag probe : String) (w : World)
    → WorldOk w
    → WorldOk (record_health_success now group tag probe w).0
record_health_success-WorldOk now group tag probe w all =
    record_health_success_cases (λ p. WorldOk p.0) now group tag probe w (λ _. all)
      (λ r m e f seen. all)
      (λ r m e f banned.
        let ok = Each-lookup (RuntimeOk w.clock) group w.groups all e in
        count_success-WorldOk group r tag m w f ok all now _ (probed r m f ok) (standby m)
          (evicted m) banned)
      (λ r m e f live.
        let ok = Each-lookup (RuntimeOk w.clock) group w.groups all e in
        clear_failures-WorldOk group r tag m w f ok all _ (probed r m f ok) (standby m)
          (evicted m ∙ live) live)
  where
    standby : (m : Member) → (already_applied_probe probe m).0.standby ≡ m.standby
    standby m = ap (λ (x : Member). x.standby) (already_applied_probe-rest probe m)

    evicted : (m : Member) → (already_applied_probe probe m).0.evicted ≡ m.evicted
    evicted m = ap (λ (x : Member). x.evicted) (already_applied_probe-rest probe m)

    probed :
        (r : Runtime) (m : Member)
        → lookup tag r.members ≡ some m
        → RuntimeOk w.clock group r
        → MemberOk r.recovery w.clock tag (already_applied_probe probe m).0
    probed r m f ok =
        already_applied_probe-MemberOk r.recovery w.clock tag probe m
          (Each-lookup (MemberOk r.recovery w.clock) tag r.members ok.members_ok f)

-- `RestoreGroupMember` keeps every group well formed.
pub restore_group_member-WorldOk :
    (group node : ℕ) (w : World) → WorldOk w → WorldOk (restore_group_member group node w).0
unfolding restore_group_member
restore_group_member-WorldOk group node w all = elim (Option-cases (lookup group w.groups)) [
  | inl e ↦ rw (e, restore_group_member) all
  | inr (r, e) ↦ rw (e, restore_group_member) (restore_sweep-WorldOk node w all)
]
