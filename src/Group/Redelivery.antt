-- ===== src/Group/Redelivery.antt =====
-- A health probe that is delivered again is applied once, as long as the ring holds it: whatever
-- reports come between, with at most 63 other health probes of the member.

use easy_proxies_v.Base.{
  ==_refl, All, Bool, Bool-cases, List, Option, String, String_eq, [], arith, contains, false,
  if◌then◌else◌, inl, inr, lookup, refl, some, suc, true, ℕ, ℕ_eq, ◌&&◌, ◌+◌, ◌<◌, ◌==◌, ◌∙◌, ◌∷◌,
  ◌≡◌, ◌≤◌,
}
use easy_proxies_v.Group.Failure.{record_group_health_failure}
use easy_proxies_v.Group.History.{
  Op, asks_available, asks_current, asks_snapshots, fails, fails_probe, reconciles, registers,
  resets, restores, run, sets_current, step, succeeds_probe, unregisters,
}
use easy_proxies_v.Group.Member.{already_applied_probe}
use easy_proxies_v.Group.Once.{
  Pushed, Pushes, record_health_success-Pushes, record_health_success_new,
  record_health_success_seen,
}
use easy_proxies_v.Group.Replay.{ring_of}
use easy_proxies_v.Group.Reported.{
  record_failure-ring, record_group_health_failure-Pushes, record_group_health_failure_new,
  record_group_health_failure_seen,
}
use easy_proxies_v.Group.Ring.{
  Recent, Recent-contains, Recent-le, pushed, pushed-Recent, pushed-new,
}
use easy_proxies_v.Group.State.{Member, Runtime, World}
use easy_proxies_v.Group.Success.{record_health_success}

module _ (group : ℕ) (tag : String) where
  -- Reports of failures and health probes, of any members.
  abbrev pub IsReport : Op → Type 0
  IsReport (fails g t cause at) = Unit
  IsReport (fails_probe g t probe cause at) = Unit
  IsReport (succeeds_probe g t probe) = Unit
  IsReport _ = ⊥

  -- One for a health probe of this member.
  abbrev pub is_probe_here : Op → ℕ
  is_probe_here (fails_probe g t probe cause at) = if g == group && t == tag then 1 else 0
  is_probe_here (succeeds_probe g t probe) = if g == group && t == tag then 1 else 0
  is_probe_here _ = 0

  abbrev pub probes_here : List (ℕ × Op) → ℕ
  probes_here [] = 0
  probes_here ((now, op) ∷ rest) = is_probe_here op + probes_here rest

  Pushes-Recent :
      (probe : String) (after g : ℕ) (t other : String) (w : World) (p : World × Bool)
      → Pushes group tag g t other w p
      → after + (if g == group && t == tag then 1 else 0) ≤ 63
      → Recent probe after (ring_of group tag w.groups)
      → Recent probe
          (after + (if g == group && t == tag then 1 else 0))
          (ring_of group tag p.0.groups)
  Pushes-Recent probe after g t other w p (inl same) room recent =
      rw same (Recent-le probe after _ (ring_of group tag w.groups) (omega arith) recent)
  Pushes-Recent probe after g t other w p (inr moved) room recent =
      rw moved (elim (Bool-cases (g == group && t == tag)) [
        | inl here ↦
            let less : after < 63 = omega (arith, rw here at room) in
            rw here (
              Recent-le probe (suc after) _ (pushed other (ring_of group tag w.groups))
                (omega arith)
                (pushed-Recent probe other after (ring_of group tag w.groups) recent less))
        | inr away ↦
            rw away (Recent-le probe after _ (ring_of group tag w.groups) (omega arith) recent)
      ])

  step-Recent :
      (probe : String) (after now : ℕ) (op : Op) (w : World)
      → IsReport op
      → after + is_probe_here op ≤ 63
      → Recent probe after (ring_of group tag w.groups)
      → Recent probe (after + is_probe_here op) (ring_of group tag (step now op w).groups)
  unfolding step
  step-Recent probe after now (fails g t cause at) w reported room recent =
      rw (record_failure-ring group tag now g t cause at w)
        (Recent-le probe after _ (ring_of group tag w.groups) (omega arith) recent)
  step-Recent probe after now (fails_probe g t other cause at) w reported room recent =
      Pushes-Recent probe after g t other w (record_group_health_failure now g t other cause at w)
        (record_group_health_failure-Pushes group tag now g t other cause at w) room recent
  step-Recent probe after now (succeeds_probe g t other) w reported room recent =
      Pushes-Recent probe after g t other w (record_health_success now g t other w)
        (record_health_success-Pushes group tag now g t other w) room recent
  step-Recent probe after now (registers g window threshold first initial recovery) w reported room
        recent =
      elim reported [ ]
  step-Recent probe after now (reconciles g update) w reported room recent = elim reported [ ]
  step-Recent probe after now (restores g node) w reported room recent = elim reported [ ]
  step-Recent probe after now (asks_available g t) w reported room recent = elim reported [ ]
  step-Recent probe after now (asks_current g) w reported room recent = elim reported [ ]
  step-Recent probe after now (sets_current g t) w reported room recent = elim reported [ ]
  step-Recent probe after now asks_snapshots w reported room recent = elim reported [ ]
  step-Recent probe after now (unregisters g same) w reported room recent = elim reported [ ]
  step-Recent probe after now resets w reported room recent = elim reported [ ]

  run-remembers :
      (probe : String) (ops : List (ℕ × Op)) (after : ℕ) (w : World)
      → All (λ (o : ℕ × Op). IsReport o.1) ops
      → after + probes_here ops ≤ 63
      → Recent probe after (ring_of group tag w.groups)
      → contains probe (ring_of group tag (run ops w).groups) ≡ true
  unfolding run
  run-remembers probe [] after w reports room recent =
      Recent-contains probe after (ring_of group tag w.groups) recent
  run-remembers probe ((now, op) ∷ rest) after w reports room recent =
      run-remembers probe rest (after + is_probe_here op) (step now op w) reports.1 (omega arith)
        (step-Recent probe after now op w reports.0 (omega arith) recent)

  module _ (probe : String) (named : (probe == "") ≡ false) {r : Runtime} {m : Member} (w : World)
      (in_world : lookup group w.groups ≡ some r) (in_group : lookup tag r.members ≡ some m)
      (fresh : contains probe m.applied_probes ≡ false) (ops : List (ℕ × Op))
      (reports : All (λ (o : ℕ × Op). IsReport o.1) ops) (few : probes_here ops ≤ 63) where
    new_probe : (already_applied_probe probe m).1 ≡ false
    unfolding already_applied_probe
    new_probe = ground (arith, named, fresh)

    Pushed-remembers :
        (p : World × Bool)
        → Pushed group tag group tag probe w p
        → contains probe (ring_of group tag (run ops p.0).groups) ≡ true
    Pushed-remembers p recorded =
        let ring : ring_of group tag w.groups ≡ m.applied_probes = rw (in_world, in_group) refl in
        let now_there : ring_of group tag p.0.groups ≡ pushed probe m.applied_probes =
          recorded ∙ rw (ring, ==_refl group, ==_refl tag) refl in
        run-remembers probe ops 0 p.0 reports (omega (arith, few))
          (rw now_there (pushed-new probe m.applied_probes named fresh))

    -- A success with a probe that is new to the member is delivered; then come reports of failures
    -- and of health probes, of any members, with at most 63 health probes of this one. Delivering
    -- the first probe again has no effect then.
    pub record_health_success-replay :
        (now later : ℕ)
        → let w' = run ops (record_health_success now group tag probe w).0 in
          (record_health_success later group tag probe w').0 ≡ w'
    record_health_success-replay now later =
        record_health_success_seen group tag probe later _ named (
          Pushed-remembers (record_health_success now group tag probe w) (
            record_health_success_new group tag now group tag probe r m w in_world in_group
              new_probe))

    -- A failure with a probe that is new to the member is delivered; then come reports of failures
    -- and of health probes, of any members, with at most 63 health probes of this one. Delivering
    -- the first probe again has no effect then.
    pub record_group_health_failure-replay :
        (now later : ℕ) (cause : Option String) (at : ℕ)
        → let w' = run ops (record_group_health_failure now group tag probe cause at w).0 in
          (record_group_health_failure later group tag probe cause at w').0 ≡ w'
    record_group_health_failure-replay now later cause at =
        record_group_health_failure_seen group tag probe later cause at _ named (
          Pushed-remembers (record_group_health_failure now group tag probe cause at w) (
            record_group_health_failure_new group tag now group tag probe cause at r m w in_world
              in_group new_probe))
