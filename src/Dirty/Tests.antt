-- ===== src/Dirty/Tests.antt =====
-- Runs of the membership queue of internal/app/membership_queue.go.

use easy_proxies_v.Base.{List, [], contains, false, pos, refl, true, ℤ, ℤ_eq, ◌∷◌, ◌≡◌, ◌⊎◌}
use easy_proxies_v.Dirty.Queue.{
  Queue, applying, draining, enter, in_flight, is_dirty, new_queue, put_back, refused, started,
}
use easy_proxies_v.Dirty.Retention.{Reachable-no_lost_wake, Step-dirty}

abbrev busy : Queue
busy = record { pending = []; wake = false; closed = false; phase = applying (pos 7 ∷ []) }

busy-is_dirty : is_dirty (pos 7) busy ≡ true
unfolding in_flight
busy-is_dirty = refl

Step-dirty_example :
    (is_dirty (pos 7) (put_back (pos 7 ∷ []) busy) ≡ true)
    ⊎ ((ids : List ℤ) × (busy.phase ≡ applying ids)
        × (contains (pos 7) ids ≡ true)
        × (put_back (pos 7 ∷ []) busy ≡ enter draining busy))
Step-dirty_example =
    Step-dirty {q = busy} {r = put_back (pos 7 ∷ []) busy} (pos 7) (refused (pos 7 ∷ []) refl) refl
      refl busy-is_dirty

Reachable-no_lost_wake_example : new_queue.pending ≡ []
Reachable-no_lost_wake_example = Reachable-no_lost_wake {q = new_queue} started refl refl refl
