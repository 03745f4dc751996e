-- ===== src/Recompute/Queue.antt =====
-- internal/nodetag/queue.go as a step relation: one caller at a time is inside `Enqueue` or
-- `EnqueueAll`, which hold the mutex, and interleaves with the worker of `run`. The clock is a part
-- of the state. The channel is a list with a capacity; a request for all nodes is the id 0.

-- The caller that holds the mutex: the ids that it still has to send, and `spilling` between a send
-- that found the buffer full and the store of the flag.

use easy_proxies_v.Base.{
  Bool, List, Option, [], contains, eq_ℤ, false, if◌then◌else◌, keep, leb, length, ltb, ltb_ℤ,
  nat_eq, none, not, pos, some, sort_by, true, ℕ, ℤ, ℤ_eq, ◌*◌, ◌++◌, ◌+◌, ◌-◌, ◌||◌, ◌∷◌, ◌≡◌,
}

pub data Caller : Type 0 where
  idle : Caller
  sending spilling : List ℤ → Caller

-- The worker: at its select, inside `flush` for a deadline or for a sweep, or returned.
pub data Worker : Type 0 where
  selecting flushing sweeping returned : Worker

pub record Settings : Type 0 where
  pub capacity : ℕ
  pub debounce : ℕ

pub record Queue : Type 0 where
  pub events : List ℤ
  pub overflow : Bool
  pub closed : Bool
  pub cancelled : Bool
  pub caller : Caller
  pub worker : Worker
  pub pending : List ℤ
  pub full : Bool
  pub first_event : ℕ
  pub deadline : Option ℕ
  pub now : ℕ

-- What a step has the service compute.
pub data Label : Type 0 where
  silent recomputed_all : Label
  recomputed : List ℤ → Label

abbrev pub all_nodes : ℤ
all_nodes = pos 0

abbrev pub millisecond : ℕ
millisecond = 1000000

abbrev pub max_wait_absolute : ℕ
max_wait_absolute = 30000000000

abbrev pub new_queue : ℕ → Queue
new_queue now = record {
  events = [];
  overflow = false;
  closed = false;
  cancelled = false;
  caller = idle;
  worker = selecting;
  pending = [];
  full = false;
  first_event = 0;
  deadline = none;
  now = now;
}

-- The ids that `Enqueue` does not skip.
abbrev pub requested : List ℤ → List ℤ
requested ids = keep (λ id. ltb_ℤ (pos 0) id) ids

module _ (settings : Settings) where
  unfoldable pub max_wait : ℕ
  max_wait =
      if ltb max_wait_absolute (settings.debounce * 16)
      then max_wait_absolute
      else settings.debounce * 16

  -- How long the timer runs after an event, when the first event of the batch is `age` old.
  unfoldable pub quiet : ℕ → ℕ
  quiet age =
      if not (ltb max_wait (age + settings.debounce))
      then settings.debounce
      else if ltb (max_wait - age) millisecond
      then millisecond
      else max_wait - age

  abbrev pub first_of_batch : Queue → ℕ
  first_of_batch q = if nat_eq q.first_event 0 then q.now else q.first_event

  abbrev pub join_pending : ℤ → List ℤ → List ℤ
  join_pending id pending =
      if eq_ℤ id all_nodes || contains id pending then pending else pending ++ id ∷ []

  -- One event off the channel; the overflow flag is swapped for false.
  unfoldable pub receive : ℤ → List ℤ → Queue → Queue
  receive id rest q = record q {
    events = rest;
    overflow = false;
    pending = join_pending id q.pending;
    full = q.full || (eq_ℤ id all_nodes || q.overflow);
    first_event = first_of_batch q;
    deadline = some (q.now + quiet (q.now - first_of_batch q));
  }

  -- A batch that was computed.
  unfoldable pub complete : Queue → Queue
  complete q = record q { worker = selecting; pending = []; full = false; first_event = 0 }

  -- A batch that failed is kept, and tried again after the debounce.
  unfoldable pub retry : Bool → Queue → Queue
  retry full q = record q {
    worker = selecting;
    full = full;
    deadline = some (q.now + settings.debounce);
  }

  -- What `flush` asks of the service.
  unfoldable pub asks : Bool → List ℤ → Label
  asks true pending = recomputed_all
  asks false [] = silent
  asks false (id ∷ ids) = recomputed (sort_by ltb_ℤ (id ∷ ids))

  pub data Step : Label → Queue → Queue → Type 0 where
    ticked : {q : Queue} (d : ℕ) → Step silent q (record q { now = q.now + d })
    enqueued :
        {q : Queue} (ids : List ℤ)
        → q.caller ≡ idle
        → q.closed ≡ false
        → Step silent q (record q { caller = sending (requested ids) })
    enqueued_all :
        {q : Queue}
        → q.caller ≡ idle
        → q.closed ≡ false
        → Step silent q (record q { caller = sending (all_nodes ∷ []) })
    sent :
        {q : Queue} (id : ℤ) (rest : List ℤ)
        → q.caller ≡ sending (id ∷ rest)
        → ltb (length q.events) settings.capacity ≡ true
        → Step silent q (record q { caller = sending rest; events = q.events ++ id ∷ [] })
    found_full :
        {q : Queue} (id : ℤ) (rest : List ℤ)
        → q.caller ≡ sending (id ∷ rest)
        → ltb (length q.events) settings.capacity ≡ false
        → Step silent q (record q { caller = spilling rest })
    spilled :
        {q : Queue} (rest : List ℤ)
        → q.caller ≡ spilling rest
        → Step silent q (record q { caller = sending rest; overflow = true })
    unlocked : {q : Queue} → q.caller ≡ sending [] → Step silent q (record q { caller = idle })
    closed : {q : Queue} → q.caller ≡ idle → Step silent q (record q { closed = true })
    cancelled : {q : Queue} → Step silent q (record q { cancelled = true })
    received :
        {q : Queue} (id : ℤ) (rest : List ℤ)
        → q.worker ≡ selecting
        → q.events ≡ id ∷ rest
        → Step silent q (receive id rest q)
    fired :
        {q : Queue} (at : ℕ)
        → q.worker ≡ selecting
        → q.deadline ≡ some at
        → leb at q.now ≡ true
        → Step silent q (record q { worker = flushing; deadline = none })
    swept :
        {q : Queue}
        → q.worker ≡ selecting
        → Step silent q (record q { worker = sweeping; deadline = none })
    flushed :
        {q : Queue}
        → q.worker ≡ flushing
        → q.cancelled ≡ false
        → Step (asks q.full q.pending) q (complete q)
    failed : {q : Queue} → q.worker ≡ flushing → Step silent q (retry q.full q)
    swept_all :
        {q : Queue} → q.worker ≡ sweeping → q.cancelled ≡ false → Step recomputed_all q (complete q)
    sweep_failed : {q : Queue} → q.worker ≡ sweeping → Step silent q (retry true q)
    ended :
        {q : Queue}
        → q.worker ≡ selecting
        → q.closed ≡ true
        → q.events ≡ []
        → Step (asks q.full q.pending) q (record q { worker = returned })
    gave_up :
        {q : Queue}
        → q.worker ≡ selecting
        → q.cancelled ≡ true
        → Step silent q (record q { worker = returned })

  pub data Reachable : Queue → Type 0 where
    started : (now : ℕ) → Reachable (new_queue now)
    stepped : {l : Label} {q r : Queue} → Reachable q → Step l q r → Reachable r
