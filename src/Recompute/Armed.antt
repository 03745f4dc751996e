-- ===== src/Recompute/Armed.antt =====
-- The timer of the queue of internal/nodetag/queue.go.

-- A batch that waits for its deadline.

use easy_proxies_v.Base.{
  Bool, List, arith, false, if◌then◌else◌, length, max, nat_eq, none, not, refl, some, true, ℕ,
  ℕ_eq, ℤ, ◌&&◌, ◌+◌, ◌-◌, ◌<◌, ◌==◌, ◌||◌, ◌≡◌, ◌≤◌,
}
use easy_proxies_v.Recompute.Queue.{
  Label, Queue, Reachable, Settings, Step, Worker, cancelled, closed, complete, ended, enqueued,
  enqueued_all, failed, fired, first_of_batch, flushed, found_full, gave_up, max_wait, millisecond,
  quiet, receive, received, retry, selecting, sent, spilled, started, stepped, sweep_failed, swept,
  swept_all, ticked, unlocked,
}

abbrev pub has_batch : Queue → Bool
has_batch q = q.full || not (nat_eq (length q.pending) 0)

abbrev pub is_armed : Queue → Bool
is_armed q = elim q.deadline [ none ↦ false | some at ↦ true ]

abbrev is_selecting : Worker → Bool
is_selecting selecting = true
is_selecting _ = false

-- The worker is at its select with a batch that no timer will wake it for.
abbrev pub is_stranded : Queue → Bool
is_stranded q = is_selecting q.worker && (has_batch q && not (is_armed q))

module _ (settings : Settings) where
  quiet_bounded :
      (now first : ℕ)
      → 0 < settings.debounce
      → first ≤ now
      → (0 < quiet settings (now - first))
        × (quiet settings (now - first) ≤ max settings.debounce millisecond)
        × (now + quiet settings (now - first) ≤ max (first + max_wait settings) (now + millisecond))
  unfolding quiet
  quiet_bounded now first d h = ground (arith, d, h)

  Step-first_event :
      {l : Label} {q r : Queue}
      → Step settings l q r
      → q.first_event ≤ q.now
      → r.first_event ≤ r.now
  unfolding receive complete retry
  Step-first_event (ticked d) h = omega (arith, h)
  Step-first_event (enqueued ids c o) h = h
  Step-first_event (enqueued_all c o) h = h
  Step-first_event (sent head tail c o) h = h
  Step-first_event (found_full head tail c o) h = h
  Step-first_event (spilled tail c) h = h
  Step-first_event (unlocked c) h = h
  Step-first_event (closed c) h = h
  Step-first_event cancelled h = h
  Step-first_event (received head tail w e) h = ground (arith, h)
  Step-first_event (fired at w d e) h = h
  Step-first_event (swept w) h = h
  Step-first_event (flushed w c) h = omega arith
  Step-first_event (failed w) h = h
  Step-first_event (swept_all w c) h = omega arith
  Step-first_event (sweep_failed w) h = h
  Step-first_event (ended w c e) h = h
  Step-first_event (gave_up w c) h = h

  Reachable-first_event : {q : Queue} → Reachable settings q → q.first_event ≤ q.now
  Reachable-first_event (started now) = omega arith
  Reachable-first_event (stepped reached step) =
      Step-first_event step (Reachable-first_event reached)

  -- In a reachable state with a positive debounce, the timer that is set when an event is received
  -- fires later than now, at most the larger of the debounce and a millisecond from now, and not after
  -- both of: the maximal wait from the first event of the batch (the recorded time of it, or now when
  -- there is none), and a millisecond from now. So a batch can outlast its maximal wait, by a
  -- millisecond for each event that comes after it.
  pub receive-deadline :
      (id : ℤ) (rest : List ℤ) {q : Queue} {at : ℕ}
      → 0 < settings.debounce
      → Reachable settings q
      → (receive settings id rest q).deadline ≡ some at
      → (q.now < at)
        × (at ≤ q.now + max settings.debounce millisecond)
        × (at
            ≤ max
                ((if q.first_event == 0 then q.now else q.first_event) + max_wait settings)
                (q.now + millisecond))
  unfolding receive
  receive-deadline id rest {q} {at} d reached e =
      let first : first_of_batch settings q ≤ q.now =
        ground (arith, Reachable-first_event reached) in
      let same : q.now + quiet settings (q.now - first_of_batch settings q) ≡ at =
        ground (arith, e) in
      let bounds = quiet_bounded q.now (first_of_batch settings q) d first in
      (omega (arith, same, bounds.0), omega (arith, same, bounds.1), omega (arith, same, bounds.2))

  Step-stranded :
      {l : Label} {q r : Queue}
      → Step settings l q r
      → is_stranded q ≡ false
      → is_stranded r ≡ false
  unfolding receive complete retry
  Step-stranded (ticked d) h = h
  Step-stranded (enqueued ids c o) h = h
  Step-stranded (enqueued_all c o) h = h
  Step-stranded (sent head tail c o) h = h
  Step-stranded (found_full head tail c o) h = h
  Step-stranded (spilled tail c) h = h
  Step-stranded (unlocked c) h = h
  Step-stranded (closed c) h = h
  Step-stranded cancelled h = h
  Step-stranded (received head tail w e) h = ground arith
  Step-stranded (fired at w d e) h = refl
  Step-stranded (swept w) h = refl
  Step-stranded (flushed w c) h = refl
  Step-stranded (failed w) h = ground arith
  Step-stranded (swept_all w c) h = refl
  Step-stranded (sweep_failed w) h = refl
  Step-stranded (ended w c e) h = refl
  Step-stranded (gave_up w c) h = refl

  -- In a reachable state, a worker at its select that holds nodes or a request for all nodes has
  -- its timer set.
  pub Reachable-stranded : {q : Queue} → Reachable settings q → is_stranded q ≡ false
  Reachable-stranded (started now) = refl
  Reachable-stranded (stepped reached step) = Step-stranded step (Reachable-stranded reached)
