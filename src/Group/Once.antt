-- ===== src/Group/Once.antt =====
-- What a health probe that succeeds leaves of the rings of applied probes.

-- A change of the ring of the member that is put, seen from the ring of another.

use easy_proxies_v.Base.{
  ==_iff, Bool, Bool-cases, List, Option-cases, String, String_eq, arith, contains, false, if_cases,
  if◌then◌else◌, inl, inr, insert, length, lookup, lookup-insert, ltb_ℤ, not, pos, refl, some,
  sub_ℕ, true, ℕ, ℕ_eq, ◌&&◌, ◌+◌, ◌==◌, ◌∙◌, ◌≡◌, ◌⊎◌,
}
use easy_proxies_v.Group.Failure.{put_member}
use easy_proxies_v.Group.Member.{already_applied_probe, clear_member_eviction}
use easy_proxies_v.Group.Recovering.{record_health_success_cases}
use easy_proxies_v.Group.Replay.{
  ring_of, sweep-ring, visit_evict-KeepsProbes, visit_recover-KeepsProbes,
}
use easy_proxies_v.Group.Ring.{already_applied_probe-pushed, pushed}
use easy_proxies_v.Group.State.{Member, Runtime, World}
use easy_proxies_v.Group.Success.{clear_failures, count_success, readmit, record_health_success}
use easy_proxies_v.Group.Sweep.{propagate_eviction, recover_evicted_node_everywhere}

abbrev pub at_member :
    ℕ → String → ℕ → String → (List String → List String) → List String → List String
at_member group tag g t change ring = if g == group && t == tag then change ring else ring

pub at_member-same :
    (group : ℕ) (tag : String) (g : ℕ) (t : String) (ring : List String)
    → at_member group tag g t (λ xs. xs) ring ≡ ring
at_member-same group tag g t ring = ground arith

module _ (group : ℕ) (tag : String) where
  pub put_member-ring :
      (change : List String → List String) (g : ℕ) (r stored : Runtime) (t : String) (m n : Member)
      (w : World)
      → lookup g w.groups ≡ some stored
      → lookup t stored.members ≡ some m
      → r.members ≡ stored.members
      → n.applied_probes ≡ change m.applied_probes
      → ring_of group tag (put_member g r t n w).groups
        ≡ at_member group tag g t change (ring_of group tag w.groups)
  unfolding put_member
  put_member-ring change g r stored t m n w e f same changed =
      rw (lookup-insert g group (record r { members = insert t n r.members }) w.groups)
        (elim (Bool-cases (g == group)) [
          | inr away ↦ rw away refl
          | inl here ↦
              let found : lookup group w.groups ≡ some stored =
                rw (← ((==_iff g group).0 here)) e in
              rw (here, found, lookup-insert t tag n r.members)
                (elim (Bool-cases (t == tag)) [
                  | inr other ↦ rw (other, same) refl
                  | inl mine ↦
                      let held : lookup tag stored.members ≡ some m =
                        rw (← ((==_iff t tag).0 mine)) f in
                      rw (mine, held) changed
                ])
        ])

  pub propagate_eviction-ring :
      (now node : ℕ) (last_error : String) (at : ℕ) (w : World)
      → ring_of group tag (propagate_eviction now node last_error at w).groups
        ≡ ring_of group tag w.groups
  unfolding propagate_eviction
  propagate_eviction-ring now node last_error at w =
      if_cases (λ (v : World). ring_of group tag v.groups ≡ ring_of group tag w.groups) (node == 0)
        _ _ (λ _. refl)
        (λ _.
          sweep-ring _ (visit_evict-KeepsProbes node last_error (if at == 0 then now else at)) group
            tag w.groups w.clock w.log)

  recover_evicted_node_everywhere-ring :
      (node origin : ℕ) (w : World)
      → ring_of group tag (recover_evicted_node_everywhere node origin w).groups
        ≡ ring_of group tag w.groups
  unfolding recover_evicted_node_everywhere
  recover_evicted_node_everywhere-ring node origin w =
      if_cases (λ (v : World). ring_of group tag v.groups ≡ ring_of group tag w.groups) (node == 0)
        _ _ (λ _. refl)
        (λ _. sweep-ring _ (visit_recover-KeepsProbes node origin) group tag w.groups w.clock w.log)

  -- A world in which a probe of a member was recorded, seen from the ring.
  abbrev pub Pushed : ℕ → String → String → World → World × Bool → Type 0
  Pushed g t probe w p =
      ring_of group tag p.0.groups
      ≡ at_member group tag g t (pushed probe) (ring_of group tag w.groups)

  -- A world after a probe of a member, seen from the ring.
  abbrev pub Pushes : ℕ → String → String → World → World × Bool → Type 0
  Pushes g t probe w p =
      (ring_of group tag p.0.groups ≡ ring_of group tag w.groups)
      ⊎ (ring_of group tag p.0.groups
          ≡ at_member group tag g t (pushed probe) (ring_of group tag w.groups))

  module _ (g : ℕ) (t probe : String) (r : Runtime) (m n : Member) (w : World)
      (e : lookup g w.groups ≡ some r) (f : lookup t r.members ≡ some m)
      (changed : n.applied_probes ≡ pushed probe m.applied_probes) where
    count_success-Pushed : (now : ℕ) → Pushed g t probe w (count_success now g r t n w)
    unfolding count_success
    count_success-Pushed now =
        if_cases (Pushed g t probe w) (not r.recovery.enabled) _ _
          (λ _. put_member-ring (pushed probe) g r r t m _ w e f refl changed)
          (λ _.
            if_cases (Pushed g t probe w) (ltb_ℤ (sub_ℕ now n.evicted_at) r.recovery.cooldown) _ _
              (λ _. put_member-ring (pushed probe) g r r t m n w e f refl changed)
              (λ _.
                if_cases (Pushed g t probe w)
                  (ltb_ℤ (pos (n.recovery_successes + 1)) r.recovery.success_threshold) _ _
                  (λ _. put_member-ring (pushed probe) g r r t m _ w e f refl changed)
                  (λ _. readmit-counted)))
      where
        readmit-counted :
            ring_of group tag
              (readmit g r t (record n { recovery_successes = n.recovery_successes + 1 }) w).groups
            ≡ at_member group tag g t (pushed probe) (ring_of group tag w.groups)
        readmit-counted =
            unfold readmit in
            unfold clear_member_eviction in
            recover_evicted_node_everywhere-ring n.node_id g _
            ∙ put_member-ring (pushed probe) g r r t m _ (record w { clock = w.clock + 1 }) e f refl
                changed

    clear_failures-Pushed : Pushed g t probe w (clear_failures g r t n w)
    unfolding clear_failures
    clear_failures-Pushed =
        if_cases (Pushed g t probe w) (length n.failure_history == 0) _ _
          (λ _. put_member-ring (pushed probe) g r r t m _ w e f refl changed)
          (λ _.
            put_member-ring (pushed probe) g r r t m _ (record w { clock = w.clock + 1 }) e f refl
              changed)

  -- The first delivery of a probe records it.
  pub record_health_success_new :
      (now g : ℕ) (t probe : String) (r : Runtime) (m : Member) (w : World)
      → lookup g w.groups ≡ some r
      → lookup t r.members ≡ some m
      → (already_applied_probe probe m).1 ≡ false
      → Pushed g t probe w (record_health_success now g t probe w)
  unfolding record_health_success
  record_health_success_new now g t probe r m w e f new =
      let n = (already_applied_probe probe m).0 in
      let changed = already_applied_probe-pushed probe m in
      rw (e, f, record_health_success)
        (if_cases (Pushed g t probe w) (already_applied_probe probe m).1 _ _
          (λ seen. absurd (ground (arith, seen, new)))
          (λ _.
            if_cases (Pushed g t probe w) m.evicted _ _
              (λ _. count_success-Pushed g t probe r m n w e f changed now)
              (λ _. clear_failures-Pushed g t probe r m n w e f changed)))

  pub record_health_success-Pushes :
      (now g : ℕ) (t probe : String) (w : World)
      → Pushes g t probe w (record_health_success now g t probe w)
  record_health_success-Pushes now g t probe w =
      record_health_success_cases (Pushes g t probe w) now g t probe w (λ _. inl refl)
        (λ r m e f seen. inl refl)
        (λ r m e f banned. inr (
          count_success-Pushed g t probe r m (already_applied_probe probe m).0 w e f
            (already_applied_probe-pushed probe m) now))
        (λ r m e f live. inr (
          clear_failures-Pushed g t probe r m (already_applied_probe probe m).0 w e f
            (already_applied_probe-pushed probe m)))

  -- A probe that is remembered has no effect as a success.
  pub record_health_success_seen :
      (probe : String) (now : ℕ) (w : World)
      → (probe == "") ≡ false
      → contains probe (ring_of group tag w.groups) ≡ true
      → (record_health_success now group tag probe w).0 ≡ w
  unfolding record_health_success already_applied_probe
  record_health_success_seen probe now w named h = elim (Option-cases (lookup group w.groups)) [
    | inl e ↦ rw (e, record_health_success)
    | inr (r, e) ↦ elim (Option-cases (lookup tag r.members)) [
      | inl f ↦ rw (e, f, record_health_success)
      | inr (m, f) ↦
          let seen : contains probe m.applied_probes ≡ true = rw (e, f) at h in
          rw (e, f, record_health_success, named, seen)
    ]
  ]
