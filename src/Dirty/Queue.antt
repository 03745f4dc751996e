-- ===== src/Dirty/Queue.antt =====
-- internal/app/membership_queue.go as a step relation: callers of `Enqueue` and `Close` interleave
-- with the one goroutine of `run`. The map `pending` is a list of ids, and the buffered channel
-- `wake` holds one token or none.

-- Where the goroutine is: at the outer select, at the head of the inner loop, inside `apply` with a
-- batch, in the retry timer, or returned.

use easy_proxies_v.Base.{
  Bool, List, [], contains, false, if◌then◌else◌, length, ltb, ltb_ℤ, not, pos, sort_by, true, ℤ,
  ℤ_eq, ◌&&◌, ◌++◌, ◌||◌, ◌∷◌, ◌≡◌,
}

pub data Phase : Type 0 where
  waiting draining retrying returned : Phase
  applying : List ℤ → Phase

pub record Queue : Type 0 where
  pub pending : List ℤ
  pub wake : Bool
  pub closed : Bool
  pub phase : Phase

abbrev pub new_queue : Queue
new_queue = record { pending = []; wake = false; closed = false; phase = waiting }

-- `q.pending[id] = struct{}{}` for the positive ids.
unfoldable pub mark : List ℤ → List ℤ → List ℤ
mark [] pending = pending
mark (id ∷ ids) pending =
    mark ids (if ltb_ℤ (pos 0) id && not (contains id pending) then pending ++ id ∷ [] else pending)

-- A closed queue takes nothing.
unfoldable pub enqueue : List ℤ → Queue → Queue
enqueue ids q = if q.closed then q else record q { pending = mark ids q.pending; wake = true }

abbrev pub enter : Phase → Queue → Queue
enter phase q = record q { phase = phase }

-- After a batch that failed: dirty again, and then the timer, or the end when the queue was closed.
unfoldable pub put_back : List ℤ → Queue → Queue
put_back ids q = enter (if q.closed then returned else retrying) (enqueue ids q)

pub data Step : Queue → Queue → Type 0 where
  enqueued : {q : Queue} (ids : List ℤ) → Step q (enqueue ids q)
  cancelled : {q : Queue} → Step q (record q { closed = true })
  woken :
      {q : Queue}
      → q.phase ≡ waiting
      → q.wake ≡ true
      → Step q (record q { wake = false; phase = draining })
  taken :
      {q : Queue}
      → q.phase ≡ draining
      → q.closed ≡ false
      → ltb 0 (length q.pending) ≡ true
      → Step q (record q { pending = []; phase = applying (sort_by ltb_ℤ q.pending) })
  emptied :
      {q : Queue}
      → q.phase ≡ draining
      → q.closed ≡ false
      → q.pending ≡ []
      → Step q (enter waiting q)
  applied : {q : Queue} (ids : List ℤ) → q.phase ≡ applying ids → Step q (enter draining q)
  refused : {q : Queue} (ids : List ℤ) → q.phase ≡ applying ids → Step q (put_back ids q)
  retried : {q : Queue} → q.phase ≡ retrying → Step q (enter draining q)
  interrupted : {q : Queue} → q.phase ≡ draining → q.closed ≡ true → Step q (enter waiting q)
  stopped : {q : Queue} → q.closed ≡ true → q.phase ≡ waiting → Step q (enter returned q)
  abandoned : {q : Queue} → q.closed ≡ true → q.phase ≡ retrying → Step q (enter returned q)

pub data Reachable : Queue → Type 0 where
  started : Reachable new_queue
  stepped : {q r : Queue} → Reachable q → Step q r → Reachable r

-- The ids that `run` has taken and not yet seen applied.
unfoldable pub in_flight : Phase → List ℤ
in_flight (applying ids) = ids
in_flight waiting = []
in_flight draining = []
in_flight retrying = []
in_flight returned = []

-- An id that still has to be reconciled.
abbrev pub is_dirty : ℤ → Queue → Bool
is_dirty id q = contains id q.pending || contains id (in_flight q.phase)
