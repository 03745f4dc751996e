-- ===== src/Healer/Budget.antt =====
-- The delays of internal/group/healer_coordinator.go: growing backoffs, kept by `perform` and `Tick`.

use easy_proxies_v.Base.{
  ==_refl, Bool-cases, List, String, String_eq, [], arith, false, if_cases, inl, inr, lookup,
  lookup-insert, ltb, min, refl, some, suc, true, zero, ℕ, ◌*◌, ◌+◌, ◌<◌, ◌==◌, ◌^◌, ◌∙◌, ◌∷◌, ◌≡◌,
  ◌≤◌,
}
use easy_proxies_v.Healer.Attempts.{
  Answers, HealAttempt, Healer, Performed, RunResult, after_run, attempt_of, backoff, failed, hour,
  is_deferred, minute, perform, prune_attempts, run_action, start_tick,
}
use easy_proxies_v.Healer.Policy.{
  ActionKind, capacity_alert, probe_quarantined, promote_standby, refresh_subscription, unknown,
}

early_deferred :
    (kind : ActionKind) (now : ℕ) (previous : HealAttempt) (h : Healer)
    → ltb now previous.next ≡ true
    → is_deferred kind now previous h ≡ false
    → ⊥
unfolding is_deferred
early_deferred kind now previous h waits e = ground (arith, waits, e)

-- Before the time that an earlier call set for the key, the action does not run and the healer does
-- not change.
pub perform-early :
    (key : String) (kind : ActionKind) (answers : Answers) (h : Healer)
    → answers.now < (attempt_of key h).next
    → ((perform key kind answers h).ran ≡ false) × ((perform key kind answers h).healer ≡ h)
unfolding perform
perform-early key kind answers h early =
    let waits : ltb answers.now (attempt_of key h).next ≡ true = ground arith in
    let P : Performed → Type 0 = λ p. (p.ran ≡ false) × (p.healer ≡ h) in
    if_cases P answers.cancelled _ _ (λ _. (refl, refl))
      (λ _.
        if_cases P (is_deferred kind answers.now (attempt_of key h) h) _ _ (λ _. (refl, refl))
          (λ e. absurd (early_deferred kind answers.now (attempt_of key h) h waits e)))

doubling-monotone : (n : ℕ) → 2 ^ min n 4 ≤ 2 ^ min (suc n) 4
doubling-monotone zero = omega arith
doubling-monotone (suc zero) = omega arith
doubling-monotone (suc (suc zero)) = omega arith
doubling-monotone (suc (suc (suc zero))) = omega arith
doubling-monotone (suc (suc (suc (suc n)))) =
    let four : min (suc (suc (suc (suc n)))) 4 ≡ 4 = omega arith in
    let still : min (suc (suc (suc (suc (suc n))))) 4 ≡ 4 = omega arith in
    rw (four, still) (omega arith)

doubling-positive : (n : ℕ) → 0 < 2 ^ min n 4
doubling-positive zero = omega arith
doubling-positive (suc n) = omega (arith, doubling-positive n, doubling-monotone n)

backoff-bounds :
    (kind : ActionKind) (n : ℕ)
    → (0 < backoff kind (suc n))
      × (backoff kind (suc n) ≤ backoff kind (suc (suc n)))
      × (backoff kind (suc (suc n)) ≤ 30 * minute)
unfolding backoff
backoff-bounds kind n = ground (arith, doubling-positive n, doubling-monotone n)

-- How often the first delay doubles: no more than four times.
abbrev pub doublings : ℕ → ℕ
doublings zero = 1
doublings (suc zero) = 2
doublings (suc (suc zero)) = 4
doublings (suc (suc (suc zero))) = 8
doublings (suc (suc (suc (suc n)))) = 16

doublings_lem : (n : ℕ) → 2 ^ min n 4 ≡ doublings n
doublings_lem zero = refl
doublings_lem (suc zero) = refl
doublings_lem (suc (suc zero)) = refl
doublings_lem (suc (suc (suc zero))) = refl
doublings_lem (suc (suc (suc (suc n)))) =
    let four : min (suc (suc (suc (suc n)))) 4 ≡ 4 = omega arith in rw four refl

-- The first delays of each kind of action, in nanoseconds, and the delays of a refresh.
abbrev pub scheduled : ActionKind → ℕ → ℕ
scheduled refresh_subscription zero = 300000000000
scheduled refresh_subscription (suc zero) = 600000000000
scheduled refresh_subscription (suc (suc n)) = 1800000000000
scheduled promote_standby n = 10000000000 * doublings n
scheduled probe_quarantined n = 60000000000 * doublings n
scheduled capacity_alert n = 60000000000 * doublings n
scheduled (unknown _) n = 60000000000 * doublings n

doublings-bounded : (n : ℕ) → doublings n ≤ 16
doublings-bounded zero = omega arith
doublings-bounded (suc zero) = omega arith
doublings-bounded (suc (suc zero)) = omega arith
doublings-bounded (suc (suc (suc zero))) = omega arith
doublings-bounded (suc (suc (suc (suc n)))) = omega arith

backoff-scheduled : (kind : ActionKind) (n : ℕ) → backoff kind (suc n) ≡ scheduled kind n
unfolding backoff
backoff-scheduled refresh_subscription zero = refl
backoff-scheduled refresh_subscription (suc zero) = refl
backoff-scheduled refresh_subscription (suc (suc n)) = ground arith
backoff-scheduled promote_standby n = ground (arith, doublings_lem n, doublings-bounded n)
backoff-scheduled probe_quarantined n = ground (arith, doublings_lem n, doublings-bounded n)
backoff-scheduled capacity_alert n = ground (arith, doublings_lem n, doublings-bounded n)
backoff-scheduled (unknown k) n = ground (arith, doublings_lem n, doublings-bounded n)

-- The delay after n + 1 failures in a row: for a refresh 5, 10 and then 30 minutes; for every other
-- action the first delay (10 seconds for a promotion, a minute else), doubled with each further
-- failure up to four times. It is positive, does not shrink with one more failure, and is at most
-- thirty minutes.
pub backoff-grows :
    (kind : ActionKind) (n : ℕ)
    → (backoff kind (suc n) ≡ scheduled kind n)
      × (0 < backoff kind (suc n))
      × (backoff kind (suc n) ≤ backoff kind (suc (suc n)))
      × (backoff kind (suc (suc n)) ≤ 30 * minute)
backoff-grows kind n =
    let (positive, grows, bounded) = backoff-bounds kind n in
    (backoff-scheduled kind n, positive, grows, bounded)

pub prune-keeps :
    (now : ℕ) (key : String) (attempt : HealAttempt) (attempts : List (String × HealAttempt))
    → lookup key attempts ≡ some attempt
    → now ≤ attempt.next + hour
    → lookup key (prune_attempts now attempts) ≡ some attempt
unfolding lookup prune_attempts
prune-keeps now key attempt [] h late = absurd (ground (arith, h))
prune-keeps now key attempt ((k, a) ∷ rest) h late =
    let P : List (String × HealAttempt) → Type 0 = λ m. lookup key m ≡ some attempt in
    let kept = prune_attempts now rest in
    elim (Bool-cases (k == key)) [
      | inl e ↦
          let value : some a ≡ some attempt = rw e at h in
          let next : a.next ≡ attempt.next = ground (arith, value) in
          let alive : ltb (a.next + hour) now ≡ false = ground (arith, next, late) in
          if_cases P (ltb (a.next + hour) now) _ _ (λ gone. absurd (ground (arith, gone, alive)))
            (λ _. rw e value)
      | inr e ↦
          let later : lookup key kept ≡ some attempt =
            prune-keeps now key attempt rest (rw e at h) late in
          if_cases P (ltb (a.next + hour) now) _ _ (λ _. later) (λ _. rw e later)
    ]

pub perform-ran :
    (key : String) (kind : ActionKind) (answers : Answers) (h : Healer)
    → (perform key kind answers h).ran ≡ true
    → (perform key kind answers h).healer ≡ (run_action key kind answers h).healer
unfolding perform
perform-ran key kind answers h =
    let P : Performed → Type 0 =
      λ p. p.ran ≡ true → p.healer ≡ (run_action key kind answers h).healer in
    if_cases P answers.cancelled _ _ (λ _ e. absurd (ground (arith, e)))
      (λ _.
        if_cases P (is_deferred kind answers.now (attempt_of key h) h) _ _
          (λ _ e. absurd (ground (arith, e)))
          (λ _.
            if_cases P answers.planned_audit_fails _ _ (λ _ e. absurd (ground (arith, e)))
              (λ _ _. refl)))

pub run_action-attempt :
    (key : String) (kind : ActionKind) (answers : Answers) (h : Healer)
    → lookup key (run_action key kind answers h).healer.attempts
      ≡ some (after_run kind answers.later answers.run (attempt_of key h))
unfolding run_action
run_action-attempt key kind answers h =
    lookup-insert key key (after_run kind answers.later answers.run (attempt_of key h)) h.attempts
    ∙ rw (==_refl key)

pub after_run-failed :
    (kind : ActionKind) (now : ℕ) (run : RunResult) (previous : HealAttempt)
    → run ≡ failed
    → (after_run kind now run previous).next ≡ now + backoff kind (suc previous.failures)
unfolding after_run
after_run-failed kind now run previous e = rw e

start_tick-attempt :
    (key : String) (tick : ℕ) (attempt : HealAttempt) (h : Healer)
    → lookup key h.attempts ≡ some attempt
    → tick ≤ attempt.next + hour
    → attempt_of key (start_tick tick h) ≡ attempt
unfolding start_tick attempt_of
start_tick-attempt key tick attempt h found late =
    rw (attempt_of, prune-keeps tick key attempt h.attempts found late)
