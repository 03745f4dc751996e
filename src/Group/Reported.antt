-- ===== src/Group/Reported.antt =====
-- What failures and failed health probes leave of the rings of applied probes.

use easy_proxies_v.Base.{
  Bool, List, Option, Option-cases, String, String_eq, arith, contains, false, if_cases,
  if◌then◌else◌, inl, inr, lookup, refl, some, true, ℕ, ℕ_eq, ◌+◌, ◌-◌, ◌==◌, ◌∙◌, ◌≡◌,
}
use easy_proxies_v.Group.Failing.{record_failure_cases}
use easy_proxies_v.Group.Failure.{
  announce_failure, count_failure, counted_member, fail_member, put_member, record_failure,
  record_group_health_failure, trips,
}
use easy_proxies_v.Group.Member.{already_applied_probe, ends_at, since}
use easy_proxies_v.Group.Once.{
  Pushed, Pushes, at_member-same, propagate_eviction-ring, put_member-ring,
}
use easy_proxies_v.Group.Replay.{ring_of}
use easy_proxies_v.Group.Ring.{already_applied_probe-pushed, pushed}
use easy_proxies_v.Group.State.{Member, Runtime, World, unix}

module _ (group : ℕ) (tag : String) where
  module _ (g : ℕ) (t : String) (r : Runtime) (m : Member) (w : World)
      (e : lookup g w.groups ≡ some r) (f : lookup t r.members ≡ some m) where
    -- A change of the member that leaves its ring alone.
    put_same-ring :
        (n : Member)
        → n.applied_probes ≡ m.applied_probes
        → ring_of group tag (put_member g r t n w).groups ≡ ring_of group tag w.groups
    put_same-ring n same =
        put_member-ring group tag (λ xs. xs) g r r t m n w e f refl same
        ∙ at_member-same group tag g t (ring_of group tag w.groups)

    count_failure-ring :
        (now : ℕ) (history : List ℕ) (cause : Option String) (at : ℕ)
        → ring_of group tag (count_failure now g r t m history cause at w).0.groups
          ≡ ring_of group tag w.groups
    unfolding count_failure announce_failure counted_member
    count_failure-ring now history cause at =
        let counted = counted_member r m history cause at (w.clock + 1) in
        let r' = record r { current_tag = if r.current_tag == t then "" else r.current_tag } in
        let kept =
          put_member-ring group tag (λ xs. xs) g r' r t m counted (record w { clock = w.clock + 1 })
            e f refl refl
          ∙ at_member-same group tag g t (ring_of group tag w.groups) in
        if_cases (λ (v : World). ring_of group tag v.groups ≡ ring_of group tag w.groups)
          (trips r history at) _ _
          (λ _. propagate_eviction-ring group tag now m.node_id _ _ _ ∙ kept) (λ _. kept)

    fail_member-ring :
        (now : ℕ) (cause : Option String) (at : ℕ)
        → ring_of group tag (fail_member now g r t m cause at w).0.groups
          ≡ ring_of group tag w.groups
    unfolding fail_member
    fail_member-ring now cause at =
        if_cases (λ (p : World × Bool). ring_of group tag p.0.groups ≡ ring_of group tag w.groups)
          (ends_at (unix at) (since (unix (at - r.window)) m.failure_history)) _ _
          (λ _. put_same-ring _ refl) (λ _. count_failure-ring now _ cause at)

  pub record_failure-ring :
      (now g : ℕ) (t : String) (cause : Option String) (at : ℕ) (w : World)
      → ring_of group tag (record_failure now g t cause at w).0.groups ≡ ring_of group tag w.groups
  record_failure-ring now g t cause at w =
      record_failure_cases (λ p. ring_of group tag p.0.groups ≡ ring_of group tag w.groups) now g t
        cause at w (λ _. refl) (λ r m e f banned. put_same-ring g t r m w e f _ refl)
        (λ r m e f live. fail_member-ring g t r m w e f now cause at)

  pub record_group_health_failure-Pushes :
      (now g : ℕ) (t probe : String) (cause : Option String) (at : ℕ) (w : World)
      → Pushes group tag g t probe w (record_group_health_failure now g t probe cause at w)
  unfolding record_group_health_failure
  record_group_health_failure-Pushes now g t probe cause at w =
      elim (Option-cases (lookup g w.groups)) [
        | inl e ↦ rw (e, record_group_health_failure) (inl (record_failure-ring now g t cause at w))
        | inr (r, e) ↦ elim (Option-cases (lookup t r.members)) [
          | inl f ↦
              rw (e, f, record_group_health_failure) (inl (record_failure-ring now g t cause at w))
          | inr (m, f) ↦
              let n = (already_applied_probe probe m).0 in
              let kept =
                put_member-ring group tag (pushed probe) g r r t m n w e f refl
                  (already_applied_probe-pushed probe m) in
              rw (e, f, record_group_health_failure)
                (if_cases (Pushes group tag g t probe w) (already_applied_probe probe m).1 _ _
                  (λ _. inl refl)
                  (λ _.
                    if_cases (Pushes group tag g t probe w) (ends_at (unix at) n.failure_history) _
                      _ (λ _. inr kept)
                      (λ _.
                        inr (record_failure-ring now g t cause at (put_member g r t n w) ∙ kept))))
        ]
      ]

  -- The first delivery of a probe records it.
  pub record_group_health_failure_new :
      (now g : ℕ) (t probe : String) (cause : Option String) (at : ℕ) (r : Runtime) (m : Member)
      (w : World)
      → lookup g w.groups ≡ some r
      → lookup t r.members ≡ some m
      → (already_applied_probe probe m).1 ≡ false
      → Pushed group tag g t probe w (record_group_health_failure now g t probe cause at w)
  unfolding record_group_health_failure
  record_group_health_failure_new now g t probe cause at r m w e f new =
      let n = (already_applied_probe probe m).0 in
      let kept =
        put_member-ring group tag (pushed probe) g r r t m n w e f refl
          (already_applied_probe-pushed probe m) in
      rw (e, f, record_group_health_failure)
        (if_cases (Pushed group tag g t probe w) (already_applied_probe probe m).1 _ _
          (λ seen. absurd (ground (arith, seen, new)))
          (λ _.
            if_cases (Pushed group tag g t probe w) (ends_at (unix at) n.failure_history) _ _
              (λ _. kept)
              (λ _. record_failure-ring now g t cause at (put_member g r t n w) ∙ kept)))

  -- A probe that is remembered has no effect as a failure.
  pub record_group_health_failure_seen :
      (probe : String) (now : ℕ) (cause : Option String) (at : ℕ) (w : World)
      → (probe == "") ≡ false
      → contains probe (ring_of group tag w.groups) ≡ true
      → (record_group_health_failure now group tag probe cause at w).0 ≡ w
  unfolding record_group_health_failure already_applied_probe
  record_group_health_failure_seen probe now cause at w named h =
      elim (Option-cases (lookup group w.groups)) [
        | inl e ↦ absurd (let gone : false ≡ true = rw e at h in cc)
        | inr (r, e) ↦ elim (Option-cases (lookup tag r.members)) [
          | inl f ↦ absurd (let gone : false ≡ true = rw (e, f) at h in cc)
          | inr (m, f) ↦
              let seen : contains probe m.applied_probes ≡ true = rw (e, f) at h in
              rw (e, f, record_group_health_failure, named, seen)
        ]
      ]
