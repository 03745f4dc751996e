-- ===== src/Healer/Rounds.antt =====
-- Sequences of ticks and actions of internal/group/healer_coordinator.go: budgets of a minute, and
-- the wait after a failure.

-- What happens to a healer: the start of a tick, or an action.

use easy_proxies_v.Base.{
  ==_iff, All, Bool-cases, List, String, String_eq, [], arith, false, if_cases, if◌then◌else◌, inl,
  inr, lookup, lookup-insert, max, refl, some, suc, true, ℕ, ◌&&◌, ◌+◌, ◌<◌, ◌==◌, ◌∙◌, ◌∷◌, ◌≡◌,
  ◌≤◌,
}
use easy_proxies_v.Healer.Attempts.{
  Answers, HealAttempt, Healer, Performed, after_run, attempt_of, backoff, failed, is_deferred,
  minute, perform, probe_budget, refresh_budget, run_action, spend, start_tick, window_over,
}
use easy_proxies_v.Healer.Budget.{
  after_run-failed, perform-early, perform-ran, prune-keeps, run_action-attempt,
}
use easy_proxies_v.Healer.Policy.{ActionKind, kind_eq, probe_quarantined, refresh_subscription}

pub data Move : Type 0 where
  ticks : ℕ → Move
  performs : String → ActionKind → Answers → Move

abbrev pub moved : Move → Healer → Healer
moved (ticks now) h = start_tick now h
moved (performs key kind answers) h = (perform key kind answers h).healer

unfoldable pub moves : List Move → Healer → Healer
moves [] h = h
moves (m ∷ rest) h = moves rest (moved m h)

-- One for a run of an action of the kind.
abbrev pub ran_kind : ActionKind → Move → Healer → ℕ
ran_kind kind (ticks now) h = 0
ran_kind kind (performs key k answers) h =
    if kind_eq k kind && (perform key k answers h).ran then 1 else 0

-- The runs of actions of a kind in a sequence.
unfoldable pub runs : ActionKind → List Move → Healer → ℕ
runs kind [] h = 0
runs kind (m ∷ rest) h = ran_kind kind m h + runs kind rest (moved m h)

-- Ticks before a time.
abbrev pub TicksBefore : ℕ → Move → Type 0
TicksBefore end (ticks now) = now < end
TicksBefore end (performs key kind answers) = Unit

-- Ticks no later, and actions earlier, than a time.
abbrev pub IsBefore : ℕ → Move → Type 0
IsBefore end (ticks now) = now ≤ end
IsBefore end (performs key kind answers) = answers.now < end

start_tick_same :
    (start now : ℕ) (h : Healer)
    → now < start + minute
    → h.window ≡ some start
    → ((start_tick now h).window ≡ some start)
      × ((start_tick now h).probes ≡ h.probes)
      × ((start_tick now h).refreshes ≡ h.refreshes)
unfolding start_tick
start_tick_same start now h early window =
    let open_still : window_over now h.window ≡ false = rw window (ground arith) in
    (rw open_still window, rw open_still, rw open_still)

start_tick_opens :
    (now : ℕ) (h : Healer)
    → window_over now h.window ≡ true
    → ((start_tick now h).window ≡ some now)
      × ((start_tick now h).probes ≡ 0)
      × ((start_tick now h).refreshes ≡ 0)
unfolding start_tick
start_tick_opens now h over = (rw over, rw over, rw over)

perform-idle :
    (key : String) (kind : ActionKind) (answers : Answers) (h : Healer)
    → (perform key kind answers h).ran ≡ false
    → (perform key kind answers h).healer ≡ h
unfolding perform run_action
perform-idle key kind answers h =
    let P : Performed → Type 0 = λ p. p.ran ≡ false → p.healer ≡ h in
    if_cases P answers.cancelled _ _ (λ _ _. refl)
      (λ _.
        if_cases P (is_deferred kind answers.now (attempt_of key h) h) _ _ (λ _ _. refl)
          (λ _.
            if_cases P answers.planned_audit_fails _ _ (λ _ _. refl)
              (λ _ e. absurd (ground (arith, e)))))

-- A run takes one from the budget of its kind.
perform-counts :
    (key : String) (kind : ActionKind) (answers : Answers) (h : Healer)
    → let after = (perform key kind answers h).healer in
      (after.window ≡ h.window)
      × (h.probes + ran_kind probe_quarantined (performs key kind answers) h ≡ after.probes)
      × (h.refreshes + ran_kind refresh_subscription (performs key kind answers) h
          ≡ after.refreshes)
      × (after.probes ≤ max h.probes probe_budget)
      × (after.refreshes ≤ max h.refreshes refresh_budget)
unfolding perform run_action spend is_deferred
perform-counts key kind answers h = ground arith

-- The runs of a sequence keep to what is left of the budgets.
module _ (start : ℕ) where
  runs-Within :
      (steps : List Move) (h : Healer)
      → All (TicksBefore (start + minute)) steps
      → h.window ≡ some start
      → h.probes ≤ probe_budget
      → h.refreshes ≤ refresh_budget
      → (h.probes + runs probe_quarantined steps h ≤ probe_budget)
        × (h.refreshes + runs refresh_subscription steps h ≤ refresh_budget)
  unfolding runs
  runs-Within [] h early window probes refreshes = (omega arith, omega arith)
  runs-Within (ticks now ∷ rest) h early window probes refreshes =
      let (same, p, r) = start_tick_same start now h early.0 window in
      let (left, right) =
        runs-Within rest (start_tick now h) early.1 same (omega (arith, p)) (omega (arith, r)) in
      (omega (arith, left, p), omega (arith, right, r))
  runs-Within (performs key kind answers ∷ rest) h early window probes refreshes =
      let (same, p, r, below_p, below_r) = perform-counts key kind answers h in
      let (left, right) =
        runs-Within rest (perform key kind answers h).healer early.1 (same ∙ window)
          (omega (arith, below_p)) (omega (arith, below_r)) in
      (omega (arith, left, p), omega (arith, right, r))

-- In the minute that a tick opens, whatever the backend answers, at most twenty probes and two
-- refreshes run, however many ticks and actions come in it.
pub perform-InBudget :
    (now : ℕ) (steps : List Move) (h : Healer)
    → window_over now h.window ≡ true
    → All (TicksBefore (now + minute)) steps
    → (runs probe_quarantined steps (start_tick now h) ≤ 20)
      × (runs refresh_subscription steps (start_tick now h) ≤ 2)
perform-InBudget now steps h over early =
    let (window, probes, refreshes) = start_tick_opens now h over in
    let (left, right) =
      runs-Within now steps (start_tick now h) early window (omega (arith, probes))
        (omega (arith, refreshes)) in
    (omega (arith, left), omega (arith, right))

-- The attempt of a key until which it waits.
abbrev Waits : String → ℕ → Healer → Type 0
Waits key until h =
    (attempt : HealAttempt) × (lookup key h.attempts ≡ some attempt) × (attempt.next ≡ until)

run_action-other :
    (key other : String) (kind : ActionKind) (answers : Answers) (h : Healer)
    → (other == key) ≡ false
    → lookup key (run_action other kind answers h).healer.attempts ≡ lookup key h.attempts
unfolding run_action
run_action-other key other kind answers h apart =
    lookup-insert other key (after_run kind answers.later answers.run (attempt_of other h))
      h.attempts
    ∙ rw apart

Waits-early :
    (key : String) (until : ℕ) (kind : ActionKind) (answers : Answers) (h : Healer)
    → Waits key until h
    → answers.now < until
    → ((perform key kind answers h).ran ≡ false) × ((perform key kind answers h).healer ≡ h)
unfolding attempt_of
Waits-early key until kind answers h (attempt, found, same) early =
    perform-early key kind answers h (rw (attempt_of, found) (omega (arith, same)))

moved-Waits :
    (key : String) (until : ℕ) (m : Move) (h : Healer)
    → IsBefore until m
    → Waits key until h
    → Waits key until (moved m h)
moved-Waits key until (ticks now) h early (attempt, found, same) = (
  attempt,
  unfold start_tick in prune-keeps now key attempt h.attempts found (omega (arith, same)),
  same,
)
moved-Waits key until (performs other kind answers) h early w = elim (Bool-cases (other == key)) [
  | inl e ↦
      let here : other ≡ key = (==_iff other key).0 e in
      let still = Waits-early key until kind answers h w early in rw here (rw (still.1) w)
  | inr apart ↦ elim (Bool-cases (perform other kind answers h).ran) [
    | inl ran ↦
        rw (perform-ran other kind answers h ran)
          (w.0, run_action-other key other kind answers h apart ∙ w.1, w.2)
    | inr idle ↦ rw (perform-idle other kind answers h idle) w
  ]
]

moves-Waits :
    (key : String) (until : ℕ) (steps : List Move) (h : Healer)
    → All (IsBefore until) steps
    → Waits key until h
    → Waits key until (moves steps h)
unfolding moves
moves-Waits key until [] h early w = w
moves-Waits key until (m ∷ rest) h early w =
    moves-Waits key until rest (moved m h) early.1 (moved-Waits key until m h early.0 w)

-- After a run that fails, the action of that key does not run again before the backoff is over,
-- whatever ticks and actions, of this and of other keys, come in between.
pub perform-failed_waits :
    (key : String) (kind : ActionKind) (answers again : Answers) (h : Healer) (steps : List Move)
    → (perform key kind answers h).ran ≡ true
    → answers.run ≡ failed
    → All (IsBefore (answers.later + backoff kind (suc (attempt_of key h).failures))) steps
    → again.now < answers.later + backoff kind (suc (attempt_of key h).failures)
    → (perform key kind again (moves steps (perform key kind answers h).healer)).ran ≡ false
perform-failed_waits key kind answers again h steps ran fail order early =
    let until = answers.later + backoff kind (suc (attempt_of key h).failures) in
    let attempt = after_run kind answers.later answers.run (attempt_of key h) in
    let found : lookup key (perform key kind answers h).healer.attempts ≡ some attempt =
      rw (perform-ran key kind answers h ran) (run_action-attempt key kind answers h) in
    let waits =
      moves-Waits key until steps (perform key kind answers h).healer order
        (attempt, found, after_run-failed kind answers.later answers.run (attempt_of key h) fail) in
    (Waits-early key until kind again (moves steps (perform key kind answers h).healer) waits
      early).0
