-- ===== src/Group/Recovery.antt =====
-- The readmission of an evicted member: exactly the threshold of successes after the cooldown.

-- The member under the tag is evicted, has `streak` successes of the `needed`, and `known` probes.

use easy_proxies_v.Base.{
  ==_refl, String, String_eq, ap, arith, contains, false, insert, lookup, lookup-insert, ltb_ℤ, pos,
  some, sub_ℕ, suc, true, ℕ, ℕ_eq, ◌+◌, ◌<◌, ◌==◌, ◌∙◌, ◌≡◌, ◌≤◌,
}
use easy_proxies_v.Group.Failure.{put_member}
use easy_proxies_v.Group.Member.{already_applied_probe}
use easy_proxies_v.Group.Probes.{already_applied_probe-new, already_applied_probe-rest}
use easy_proxies_v.Group.Replay.{remembers}
use easy_proxies_v.Group.State.{Member, Runtime, World}
use easy_proxies_v.Group.Success.{count_success, readmit, record_health_success}

pub record Awaiting (group : ℕ) (tag : String) (needed cooldown at streak : ℕ) (w : World)
    : Type 0 where
  pub runtime : Runtime
  pub member : Member
  pub named : runtime.id ≡ group
  pub in_world : lookup group w.groups ≡ some runtime
  pub in_group : lookup tag runtime.members ≡ some member
  pub enabled : runtime.recovery.enabled ≡ true
  pub threshold : runtime.recovery.success_threshold ≡ pos needed
  pub quiet : runtime.recovery.cooldown ≡ pos cooldown
  pub evicted : member.evicted ≡ true
  pub evicted_at : member.evicted_at ≡ at
  pub counted : member.recovery_successes ≡ streak

-- The probe is new to the member under the tag.
abbrev pub IsNew : String → ℕ → String → World → Type 0
IsNew probe group tag w = ((probe == "") ≡ false) × (remembers probe group tag w.groups ≡ false)

-- A probe that is not remembered is recorded.
pub new_probe :
    (probe : String) (group : ℕ) (tag : String) (w : World) (r : Runtime) (m : Member)
    → lookup group w.groups ≡ some r
    → lookup tag r.members ≡ some m
    → IsNew probe group tag w
    → (already_applied_probe probe m).1 ≡ false
unfolding already_applied_probe
new_probe probe group tag w r m e f new =
    let unknown : contains probe m.applied_probes ≡ false = rw (e, f) at new.1 in
    rw (new.0, unknown)

module _ (group : ℕ) (tag : String) (w : World) (r : Runtime) (m : Member)
    (e : lookup group w.groups ≡ some r) (f : lookup tag r.members ≡ some m)
    (banned : m.evicted ≡ true) (enabled : r.recovery.enabled ≡ true) where
  pub success-eq :
      (now : ℕ) (probe : String)
      → (already_applied_probe probe m).1 ≡ false
      → record_health_success now group tag probe w
        ≡ count_success now group r tag (already_applied_probe probe m).0 w
  unfolding record_health_success
  success-eq now probe new = rw (e, f, record_health_success) (ground (arith, new, banned))

  -- A success after the cooldown, short of the threshold, is counted.
  pub count_success-short :
      (now : ℕ) (n : Member)
      → ltb_ℤ (sub_ℕ now n.evicted_at) r.recovery.cooldown ≡ false
      → ltb_ℤ (pos (n.recovery_successes + 1)) r.recovery.success_threshold ≡ true
      → count_success now group r tag n w ≡ (
        put_member group r tag (record n { recovery_successes = n.recovery_successes + 1 }) w,
        false,
      )
  unfolding count_success
  count_success-short now n late short = ground (arith, enabled, late, short)

  -- The success that reaches the threshold readmits the member.
  pub count_success-enough :
      (now : ℕ) (n : Member)
      → ltb_ℤ (sub_ℕ now n.evicted_at) r.recovery.cooldown ≡ false
      → ltb_ℤ (pos (n.recovery_successes + 1)) r.recovery.success_threshold ≡ false
      → count_success now group r tag n w
        ≡ (readmit group r tag (record n { recovery_successes = n.recovery_successes + 1 }) w, true)
  unfolding count_success
  count_success-enough now n late enough = ground (arith, enabled, late, enough)

pub cooled : (now at c : ℕ) → at + c ≤ now → ltb_ℤ (sub_ℕ now at) (pos c) ≡ false
cooled now at c h = ground arith

-- What a member that was put back reads as.
pub put_member-lookup :
    (group : ℕ) (r : Runtime) (tag : String) (n : Member) (w : World)
    → (lookup group (put_member group r tag n w).groups
        ≡ some (record r { members = insert tag n r.members }))
      × (lookup tag (insert tag n r.members) ≡ some n)
unfolding put_member
put_member-lookup group r tag n w = (
  lookup-insert group group _ w.groups ∙ rw (==_refl group),
  lookup-insert tag tag n r.members ∙ rw (==_refl tag),
)

module _ (group : ℕ) (tag : String) (needed cooldown at : ℕ) where
  -- A success that is counted: the streak grows by one, and the member stays evicted.
  pub success-Awaiting :
      (now streak : ℕ) (probe : String) (w : World)
      → at + cooldown ≤ now
      → suc streak < needed
      → Awaiting group tag needed cooldown at streak w
      → IsNew probe group tag w
      → Awaiting group tag needed cooldown at
          (suc streak)
          (record_health_success now group tag probe w).0
  success-Awaiting now streak probe w late short a new =
      let r = a.runtime in
      let m = a.member in
      let n = (already_applied_probe probe m).0 in
      let rest = already_applied_probe-rest probe m in
      let n' = record n { recovery_successes = n.recovery_successes + 1 } in
      let banned : n.evicted ≡ true = ap (λ (x : Member). x.evicted) rest ∙ a.evicted in
      let since_at : n.evicted_at ≡ at = ap (λ (x : Member). x.evicted_at) rest ∙ a.evicted_at in
      let streak_now : n.recovery_successes ≡ streak =
        ap (λ (x : Member). x.recovery_successes) rest ∙ a.counted in
      let (there, here) = put_member-lookup group r tag n' w in
      let step =
        success-eq group tag w r m a.in_world a.in_group a.evicted a.enabled now probe
          (new_probe probe group tag w r m a.in_world a.in_group new)
        ∙ count_success-short group tag w r m a.in_world a.in_group a.evicted a.enabled now n
            (rw (since_at, a.quiet) (cooled now at cooldown late))
            (rw (streak_now, a.threshold) (ground arith)) in
      rw step (record {
        runtime = record r { members = insert tag n' r.members };
        member = n';
        named = a.named;
        in_world = there;
        in_group = here;
        enabled = a.enabled;
        threshold = a.threshold;
        quiet = a.quiet;
        evicted = banned;
        evicted_at = since_at;
        counted = omega (arith, streak_now);
      })

  -- Another probe that was new stays new.
  pub success-IsNew :
      (now streak : ℕ) (probe other : String) (w : World)
      → at + cooldown ≤ now
      → suc streak < needed
      → Awaiting group tag needed cooldown at streak w
      → IsNew probe group tag w
      → (probe == other) ≡ false
      → IsNew other group tag w
      → IsNew other group tag (record_health_success now group tag probe w).0
  success-IsNew now streak probe other w late short a new apart fresh =
      let r = a.runtime in
      let m = a.member in
      let n = (already_applied_probe probe m).0 in
      let rest = already_applied_probe-rest probe m in
      let since_at : n.evicted_at ≡ at = ap (λ (x : Member). x.evicted_at) rest ∙ a.evicted_at in
      let streak_now : n.recovery_successes ≡ streak =
        ap (λ (x : Member). x.recovery_successes) rest ∙ a.counted in
      let n' = record n { recovery_successes = n.recovery_successes + 1 } in
      let (there, here) = put_member-lookup group r tag n' w in
      let unknown : contains other m.applied_probes ≡ false =
        rw (a.in_world, a.in_group) at fresh.1 in
      let step =
        success-eq group tag w r m a.in_world a.in_group a.evicted a.enabled now probe
          (new_probe probe group tag w r m a.in_world a.in_group new)
        ∙ count_success-short group tag w r m a.in_world a.in_group a.evicted a.enabled now n
            (rw (since_at, a.quiet) (cooled now at cooldown late))
            (rw (streak_now, a.threshold) (ground arith)) in
      (fresh.0, rw step (rw (there, here) (already_applied_probe-new probe other m apart unknown)))
