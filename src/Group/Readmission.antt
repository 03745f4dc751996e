-- ===== src/Group/Readmission.antt =====
-- The readmission of an evicted member takes exactly the threshold of successes.

use native.Mathlib.Nat.{add-zero, add-suc, suc-add}
use easy_proxies_v.Base.{
  ==_iff, All, Bool-cases, List, String, String_eq, [], ap, arith, contains, contains-keep_ne,
  false, if_cases, inl, inr, insert, length, lookup, refl, some, suc, ℕ, ℕ_eq, ◌++◌, ◌+◌, ◌<◌, ◌==◌,
  ◌∙◌, ◌∷◌, ◌≡◌, ◌≤◌,
}
use easy_proxies_v.Group.Member.{already_applied_probe, clear_member_eviction}
use easy_proxies_v.Group.Probes.{already_applied_probe-rest}
use easy_proxies_v.Group.Recovery.{
  Awaiting, IsNew, cooled, count_success-enough, new_probe, put_member-lookup, success-Awaiting,
  success-IsNew, success-eq,
}
use easy_proxies_v.Group.State.{Member, Runtime, StateEvent, World}
use easy_proxies_v.Group.Success.{readmit, record_health_success}
use easy_proxies_v.Group.Sweep.{Visit, recover_evicted_node_everywhere, sweep, visit_recover}

pub record Readmitted (group : ℕ) (tag : String) (w : World) : Type 0 where
  pub runtime : Runtime
  pub member : Member
  pub in_world : lookup group w.groups ≡ some runtime
  pub in_group : lookup tag runtime.members ≡ some member
  pub admitted : member.evicted ≡ false
  pub clean : member.failure_history ≡ []
  pub unmarked : contains member.node_id w.evicted_nodes ≡ false

sweep-lookup_fixed :
    (visit : Runtime → ℕ → Visit) (group : ℕ) (r : Runtime)
    → ((clock : ℕ) → (visit r clock).runtime ≡ r)
    → (groups : List (ℕ × Runtime)) (clock : ℕ) (log : List StateEvent)
    → lookup group groups ≡ some r
    → lookup group (sweep visit groups clock log).groups ≡ some r
unfolding sweep lookup
sweep-lookup_fixed visit group r fixed [] clock log h = absurd (ground arith)
sweep-lookup_fixed visit group r fixed ((g, r') ∷ rest) clock log h =
    elim (Bool-cases (g == group)) [
      | inl e ↦ let same : r' ≡ r = ground arith in rw e (ap some (rw same (fixed clock)))
      | inr e ↦ rw e (sweep-lookup_fixed visit group r fixed rest _ _ (rw e at h))
    ]

-- The recovery elsewhere leaves the group that proved it, and takes the mark of the node away.
recover_elsewhere :
    (node group : ℕ) (r : Runtime) (w : World)
    → lookup group w.groups ≡ some r
    → r.id ≡ group
    → contains node w.evicted_nodes ≡ false
    → let w' = recover_evicted_node_everywhere node group w in
      (lookup group w'.groups ≡ some r) × (contains node w'.evicted_nodes ≡ false)
unfolding recover_evicted_node_everywhere visit_recover
recover_elsewhere node group r w there named clear =
    if_cases
      (λ (v : World). (lookup group v.groups ≡ some r) × (contains node v.evicted_nodes ≡ false))
      (node == 0) _ _ (λ _. (there, clear))
      (λ _. (
        sweep-lookup_fixed (visit_recover node group) group r
            (λ clock. unfold visit_recover in rw ((==_iff r.id group).1 named)) w.groups w.clock
            w.log there,
        contains-keep_ne node w.evicted_nodes,
      ))

readmit-Readmitted :
    (group : ℕ) (tag : String) (r : Runtime) (n : Member) (w : World)
    → r.id ≡ group
    → Readmitted group tag (readmit group r tag n w)
unfolding readmit
readmit-Readmitted group tag r n w named =
    let cleared = record (clear_member_eviction n) { revision = w.clock + 1 } in
    let v = record w { clock = w.clock + 1 } in
    let (there, here) = put_member-lookup group r tag cleared v in
    let (kept, clear) =
      recover_elsewhere n.node_id group _ _ there named (contains-keep_ne n.node_id _) in
    record {
      runtime = record r { members = insert tag cleared r.members };
      member = cleared;
      in_world = kept;
      in_group = here;
      admitted = unfold clear_member_eviction in refl;
      clean = unfold clear_member_eviction in refl;
      unmarked = unfold clear_member_eviction in clear;
    }

module _ (group : ℕ) (tag : String) (needed cooldown at : ℕ) where
  -- The health probes of the member, delivered in order.
  unfoldable pub deliver : List (ℕ × String) → World → World
  deliver [] w = w
  deliver ((now, probe) ∷ rest) w = deliver rest (record_health_success now group tag probe w).0

  -- The deliveries come after the cooldown, with probes that are new and differ.
  abbrev pub AreNew : List (ℕ × String) → World → Type 0
  AreNew [] w = Unit
  AreNew ((now, probe) ∷ rest) w =
      (at + cooldown ≤ now)
      × IsNew probe group tag w
      × All (λ (d : ℕ × String). (probe == d.1) ≡ false) rest
      × AreNew rest w

  AreNew-step :
      (now streak : ℕ) (probe : String) (w : World)
      → at + cooldown ≤ now
      → suc streak < needed
      → Awaiting group tag needed cooldown at streak w
      → IsNew probe group tag w
      → (rest : List (ℕ × String)) → All (λ (d : ℕ × String). (probe == d.1) ≡ false) rest
      → AreNew rest w
      → AreNew rest (record_health_success now group tag probe w).0
  AreNew-step now streak probe w late short a new [] apart h = tt
  AreNew-step now streak probe w late short a new ((later, other) ∷ rest) apart h = (
    h.0,
    success-IsNew group tag needed cooldown at now streak probe other w late short a new apart.0
        h.1,
    h.2,
    AreNew-step now streak probe w late short a new rest apart.1 h.3,
  )

  last-Readmitted :
      (now streak : ℕ) (probe : String) (w : World)
      → at + cooldown ≤ now
      → suc streak ≡ needed
      → Awaiting group tag needed cooldown at streak w
      → IsNew probe group tag w
      → Readmitted group tag (record_health_success now group tag probe w).0
  last-Readmitted now streak probe w late enough a new =
      let r = a.runtime in
      let m = a.member in
      let n = (already_applied_probe probe m).0 in
      let rest = already_applied_probe-rest probe m in
      let since_at : n.evicted_at ≡ at = ap (λ (x : Member). x.evicted_at) rest ∙ a.evicted_at in
      let streak_now : n.recovery_successes ≡ streak =
        ap (λ (x : Member). x.recovery_successes) rest ∙ a.counted in
      let step =
        success-eq group tag w r m a.in_world a.in_group a.evicted a.enabled now probe
          (new_probe probe group tag w r m a.in_world a.in_group new)
        ∙ count_success-enough group tag w r m a.in_world a.in_group a.evicted a.enabled now n
            (rw (since_at, a.quiet) (cooled now at cooldown late))
            (rw (streak_now, a.threshold) (ground arith)) in
      rw step (readmit-Readmitted group tag r _ w a.named)

  -- A member evicted at a time, whose group needs a number of successes of which the member has
  -- some, under distinct new probes after the cooldown: it stays evicted, with the streak grown by
  -- one for each, until the last success that is needed, which readmits it with a clean history
  -- and takes the global mark of its node away.
  pub deliver-Readmitted :
      (probes : List (ℕ × String)) (last : ℕ × String) (streak : ℕ) (w : World)
      → streak + length probes + 1 ≡ needed
      → Awaiting group tag needed cooldown at streak w
      → AreNew (probes ++ last ∷ []) w
      → Awaiting group tag needed cooldown at (streak + length probes) (deliver probes w)
        × Readmitted group tag (deliver (probes ++ last ∷ []) w)
  unfolding deliver
  deliver-Readmitted [] (now, probe) streak w enough a new =
      (rw add-zero a, last-Readmitted now streak probe w new.0 (omega arith) a new.1)
  deliver-Readmitted ((now, probe) ∷ rest) last streak w enough a new =
      let short : suc streak < needed = omega arith in
      let (waits, admitted) =
        deliver-Readmitted rest last (suc streak) _ (omega arith)
          (success-Awaiting group tag needed cooldown at now streak probe w new.0 short a new.1)
          (AreNew-step now streak probe w new.0 short a new.1 (rest ++ last ∷ []) new.2 new.3) in
      (rw (add-suc, ← suc-add) waits, admitted)
