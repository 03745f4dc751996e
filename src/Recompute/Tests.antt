-- ===== src/Recompute/Tests.antt =====
-- Runs of the queue of internal/nodetag/queue.go.

-- A buffer of one request and a debounce of two seconds.

use easy_proxies_v.Base.{
  [], any, arith, false, if◌then◌else◌, max, pos, refl, some, true, ℕ_eq, ℤ, ◌+◌, ◌<◌, ◌==◌, ◌∷◌,
  ◌≡◌, ◌≤◌, ◌⊎◌,
}
use easy_proxies_v.Recompute.Armed.{Reachable-stranded, is_armed, is_stranded, receive-deadline}
use easy_proxies_v.Recompute.Covered.{Run, Run-requested, covers, done, is_due, next}
use easy_proxies_v.Recompute.Queue.{
  Queue, Reachable, Settings, asks, complete, enqueued, fired, flushed, found_full, max_wait,
  millisecond, new_queue, quiet, receive, received, requested, returned, sending, sent, silent,
  spilled, started, stepped, ticked,
}

abbrev small : Settings
small = record { capacity = 1; debounce = 2000000000 }

abbrev start : Queue
start = new_queue 100

abbrev node : ℤ
node = pos 7

abbrev asked_for : Queue
asked_for = record start { caller = sending (requested (node ∷ pos 0 ∷ [])) }

abbrev on_channel : Queue
on_channel = record start { caller = sending []; events = node ∷ [] }

abbrev received_once : Queue
received_once = receive small node [] on_channel

received_once_deadline : received_once.deadline ≡ some 2000000100
unfolding receive quiet max_wait
received_once_deadline = refl

to_received : Run small (silent ∷ silent ∷ []) asked_for received_once
to_received = next (sent node [] refl refl) (next (received node [] refl refl) done)

Run-requested_example :
    (any (covers node) (silent ∷ silent ∷ []) ≡ true)
    ⊎ ((is_due node received_once ≡ true) ⊎ (received_once.worker ≡ returned))
Run-requested_example = Run-requested small node (node ∷ pos 0 ∷ []) start refl refl to_received

on_channel-Reachable : Reachable small on_channel
on_channel-Reachable =
    stepped (stepped (started 100) (enqueued (node ∷ []) refl refl)) (sent node [] refl refl)

receive-deadline_example :
    (100 < 2000000100)
    × (2000000100 ≤ 100 + max small.debounce millisecond)
    × (2000000100
        ≤ max
            ((if on_channel.first_event == 0 then on_channel.now else on_channel.first_event)
              + max_wait small)
            (100 + millisecond))
receive-deadline_example =
    receive-deadline small node [] (omega arith) on_channel-Reachable received_once_deadline

Reachable-stranded_example : is_stranded received_once ≡ false
Reachable-stranded_example =
    Reachable-stranded small (stepped on_channel-Reachable (received node [] refl refl))

-- The flag is stored after the worker has taken the last event: the batch is computed without node
-- 8, and nothing wakes the worker for it but the next event or sweep.
abbrev late_flag : Queue
late_flag = record start { caller = sending []; overflow = true; now = 2000000100 }

late_flag-Reachable : Reachable small late_flag
unfolding receive complete quiet max_wait asks
late_flag-Reachable =
    let s0 = stepped (started 100) (enqueued (node ∷ pos 8 ∷ []) refl refl) in
    let s1 = stepped s0 (sent node (pos 8 ∷ []) refl refl) in
    let s2 = stepped s1 (found_full (pos 8) [] refl refl) in
    let s3 = stepped s2 (received node [] refl refl) in
    let s4 = stepped s3 (spilled [] refl) in
    let s5 = stepped s4 (ticked 2000000000) in
    let s6 = stepped s5 (fired 2000000100 refl refl refl) in stepped s6 (flushed refl refl)

late_flag_unarmed : is_armed late_flag ≡ false
late_flag_unarmed = refl
