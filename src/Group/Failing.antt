-- ===== src/Group/Failing.antt =====
-- A recorded failure keeps the world well formed.

use easy_proxies_v.Base.{
  ==_iff, Bool, Each-insert, Each-lookup, Each-map, List, Option, Option-cases, String, String_eq,
  ap, arith, false, if_cases, if◌then◌else◌, inl, inr, insert, lookup, refl, some, true, ℕ, ℕ_eq,
  ◌+◌, ◌-◌, ◌<◌, ◌==◌, ◌≡◌,
}
use easy_proxies_v.Group.Failure.{
  announce_failure, count_failure, counted_member, fail_member, put_member, record_failure,
  record_group_health_failure, trips,
}
use easy_proxies_v.Group.Invariant.{
  IsAbsent, MemberOk, MemberOk-mono, RuntimeOk, Serves, Serves-insert, Stays-of_flags, WorldOk,
  insert-WorldOk,
}
use easy_proxies_v.Group.Member.{already_applied_probe, ends_at, overwrite, since}
use easy_proxies_v.Group.Probes.{already_applied_probe-MemberOk, already_applied_probe-rest}
use easy_proxies_v.Group.Put.{put_member-WorldOk}
use easy_proxies_v.Group.Spread.{propagate_eviction-WorldOk}
use easy_proxies_v.Group.State.{Member, Runtime, World, mark_evicted, unix}

pub record_failure_cases {κ} :
    (P : World × Bool → Type κ) (now group : ℕ) (tag : String) (cause : Option String) (at : ℕ)
    (w : World)
    → (IsAbsent group tag w → P (w, false))
    → ((r : Runtime) (m : Member)
        → lookup group w.groups ≡ some r
        → lookup tag r.members ≡ some m
        → m.evicted ≡ true
        → P (put_member group r tag (record m { recovery_successes = 0 }) w, true))
    → ((r : Runtime) (m : Member)
        → lookup group w.groups ≡ some r
        → lookup tag r.members ≡ some m
        → m.evicted ≡ false
        → P (fail_member now group r tag m cause at w))
    → P (record_failure now group tag cause at w)
unfolding record_failure
record_failure_cases P now group tag cause at w absent banned live =
    elim (Option-cases (lookup group w.groups)) [
      | inl e ↦ rw (e, record_failure) (absent (inl e))
      | inr (r, e) ↦ elim (Option-cases (lookup tag r.members)) [
        | inl f ↦ rw (e, f, record_failure) (absent (inr (r, e, f)))
        | inr (m, f) ↦
            rw (e, f, record_failure) (if_cases P m.evicted _ _ (banned r m e f) (live r m e f))
      ]
    ]

module _ (group : ℕ) (r : Runtime) (tag : String) (m : Member) (w : World)
    (found : lookup tag r.members ≡ some m) (ok : RuntimeOk w.clock group r)
    (mok : MemberOk r.recovery w.clock tag m) (all : WorldOk w) where
  -- A change of the member that leaves its flags and its revision alone.
  pub put_same-WorldOk :
      (n : Member)
      → MemberOk r.recovery w.clock tag n
      → n.standby ≡ m.standby
      → n.evicted ≡ m.evicted
      → WorldOk (put_member group r tag n w)
  put_same-WorldOk n nok s e =
      put_member-WorldOk group r tag n w w.clock (omega arith) ok nok
        (Stays-of_flags r.current_tag tag r.members m n found s e) all

  -- The member that a counted failure leaves.
  counted-MemberOk :
      (history : List ℕ) (cause : Option String) (at : ℕ)
      → 0 < at
      → MemberOk r.recovery (w.clock + 1) tag (counted_member r m history cause at (w.clock + 1))
  unfolding counted_member
  counted-MemberOk history cause at h = record {
    tagged = mok.tagged;
    idle = λ e. refl;
    short = ok.policy_ok;
    dated = λ e. ground (arith, mok.dated);
    ring = mok.ring;
    stamped = omega arith;
  }

  -- The group after the current tag was given up, where it was this member's.
  yield-RuntimeOk :
      (n : Member)
      → MemberOk r.recovery (w.clock + 1) tag n
      → RuntimeOk (w.clock + 1) group (record r {
        current_tag = if r.current_tag == tag then "" else r.current_tag;
        members = insert tag n r.members;
      })
  yield-RuntimeOk n nok = record {
    named = ok.named;
    members_ok =
        Each-insert (MemberOk r.recovery (w.clock + 1)) tag n r.members nok
          (Each-map (MemberOk-mono r.recovery (omega arith)) r.members ok.members_ok);
    current_ok =
        if_cases (λ t. Serves t (insert tag n r.members)) (r.current_tag == tag) "" r.current_tag
          (λ e. inl refl)
          (λ e.
            Serves-insert r.current_tag tag n r.members ok.current_ok
              (λ same. absurd (ground (arith, ==_iff r.current_tag tag, same))));
    policy_ok = ok.policy_ok;
    window_ok = ok.window_ok;
    threshold_ok = ok.threshold_ok;
  }

  announce_failure-WorldOk :
      (history : List ℕ) (cause : Option String) (at : ℕ)
      → 0 < at
      → WorldOk (announce_failure group r tag (counted_member r m history cause at (w.clock + 1)) w)
  unfolding announce_failure put_member counted_member
  announce_failure-WorldOk history cause at h =
      insert-WorldOk group _ w (w.clock + 1) (omega arith)
        (yield-RuntimeOk _ (counted-MemberOk history cause at h)) all

  pub count_failure-WorldOk :
      (now : ℕ) (history : List ℕ) (cause : Option String) (at : ℕ)
      → 0 < now
      → 0 < at
      → WorldOk (count_failure now group r tag m history cause at w).0
  unfolding count_failure
  count_failure-WorldOk now history cause at h k =
      let kept = announce_failure-WorldOk history cause at k in
      if_cases WorldOk (trips r history at) _ _
        (λ e. propagate_eviction-WorldOk now m.node_id _ _ (mark_evicted m.node_id _) h kept)
        (λ e. kept)

  fail_member-WorldOk :
      (now : ℕ) (cause : Option String) (at : ℕ)
      → 0 < now
      → 0 < at
      → WorldOk (fail_member now group r tag m cause at w).0
  unfolding fail_member
  fail_member-WorldOk now cause at h k =
      let history = since (unix (at - r.window)) m.failure_history in
      if_cases (λ (p : World × Bool). WorldOk p.0) (ends_at (unix at) history) _ _
        (λ e.
          put_same-WorldOk (record m { failure_history = overwrite history m.failure_history })
            (record {
              tagged = mok.tagged;
              idle = mok.idle;
              short = mok.short;
              dated = mok.dated;
              ring = mok.ring;
              stamped = mok.stamped;
            })
            refl refl)
        (λ e. count_failure-WorldOk now history cause at h k)

-- `RecordFailure` keeps every group well formed.
pub record_failure-WorldOk :
    (now group : ℕ) (tag : String) (cause : Option String) (at : ℕ) (w : World)
    → 0 < now
    → 0 < at
    → WorldOk w
    → WorldOk (record_failure now group tag cause at w).0
record_failure-WorldOk now group tag cause at w h k all =
    record_failure_cases (λ p. WorldOk p.0) now group tag cause at w (λ _. all)
      (λ r m found hit banned.
        let ok = Each-lookup (RuntimeOk w.clock) group w.groups all found in
        let mok = Each-lookup (MemberOk r.recovery w.clock) tag r.members ok.members_ok hit in
        put_same-WorldOk group r tag m w hit ok mok all (record m { recovery_successes = 0 })
          (record {
            tagged = mok.tagged;
            idle = λ e. refl;
            short = ok.policy_ok;
            dated = mok.dated;
            ring = mok.ring;
            stamped = mok.stamped;
          })
          refl refl)
      (λ r m found hit live.
        let ok = Each-lookup (RuntimeOk w.clock) group w.groups all found in
        let mok = Each-lookup (MemberOk r.recovery w.clock) tag r.members ok.members_ok hit in
        fail_member-WorldOk group r tag m w hit ok mok all now cause at h k)

-- `RecordGroupHealthFailure` keeps every group well formed.
pub record_group_health_failure-WorldOk :
    (now group : ℕ) (tag probe : String) (cause : Option String) (at : ℕ) (w : World)
    → 0 < now
    → 0 < at
    → WorldOk w
    → WorldOk (record_group_health_failure now group tag probe cause at w).0
unfolding record_group_health_failure
record_group_health_failure-WorldOk now group tag probe cause at w h k all =
    elim (Option-cases (lookup group w.groups)) [
      | inl e ↦
          rw (e, record_group_health_failure)
            (record_failure-WorldOk now group tag cause at w h k all)
      | inr (r, e) ↦ elim (Option-cases (lookup tag r.members)) [
        | inl f ↦
            rw (e, f, record_group_health_failure)
              (record_failure-WorldOk now group tag cause at w h k all)
        | inr (m, f) ↦
            let ok = Each-lookup (RuntimeOk w.clock) group w.groups all e in
            let mok = Each-lookup (MemberOk r.recovery w.clock) tag r.members ok.members_ok f in
            let n = (already_applied_probe probe m).0 in
            let kept =
              put_same-WorldOk group r tag m w f ok mok all n
                (already_applied_probe-MemberOk r.recovery w.clock tag probe m mok)
                (ap (λ (x : Member). x.standby) (already_applied_probe-rest probe m))
                (ap (λ (x : Member). x.evicted) (already_applied_probe-rest probe m)) in
            rw (e, f, record_group_health_failure)
              (if_cases (λ (p : World × Bool). WorldOk p.0) (already_applied_probe probe m).1 _ _
                (λ _. all)
                (λ _.
                  if_cases (λ (p : World × Bool). WorldOk p.0) (ends_at (unix at) n.failure_history)
                    _ _ (λ _. kept)
                    (λ _. record_failure-WorldOk now group tag cause at _ h k kept)))
      ]
    ]
