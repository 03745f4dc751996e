-- ===== src/Dirty/Retention.antt =====
-- No node is forgotten by the queue of internal/app/membership_queue.go while it is open.

use easy_proxies_v.Base.{
  ==_iff, Bool-cases, List, [], ap, arith, contains, contains-append_one, contains-sort_by, false,
  if_cases, inl, inr, ltb_ℤ, not, pos, refl, subst, sym, true, ℤ, ℤ_eq, ◌&&◌, ◌==◌, ◌||◌, ◌∙◌, ◌∷◌,
  ◌≡◌, ◌⊎◌,
}
use easy_proxies_v.Dirty.Queue.{
  Phase, Queue, Reachable, Step, abandoned, applied, applying, cancelled, draining, emptied,
  enqueue, enqueued, enter, in_flight, interrupted, is_dirty, mark, put_back, refused, retried,
  retrying, returned, started, stepped, stopped, taken, waiting, woken,
}

mark-keeps :
    (id : ℤ) (ids pending : List ℤ)
    → contains id pending ≡ true
    → contains id (mark ids pending) ≡ true
unfolding mark
mark-keeps id [] pending h = h
mark-keeps id (x ∷ ids) pending h = mark-keeps id ids _ (
    if_cases (λ (xs : List ℤ). contains id xs ≡ true) (ltb_ℤ (pos 0) x && not (contains x pending))
      _ _ (λ _. ground (arith, contains-append_one id x pending, h)) (λ _. h))

mark-adds :
    (id : ℤ) (ids pending : List ℤ)
    → ltb_ℤ (pos 0) id ≡ true
    → contains id ids ≡ true
    → contains id (mark ids pending) ≡ true
unfolding mark
mark-adds id [] pending positive h = absurd (ground (arith, h))
mark-adds id (x ∷ ids) pending positive h = elim (Bool-cases (x == id)) [
  | inl e ↦
      let same = (==_iff x id).0 e in
      mark-keeps id ids _ (
        if_cases (λ (xs : List ℤ). contains id xs ≡ true)
          (ltb_ℤ (pos 0) x && not (contains x pending)) _ _
          (λ _. ground (arith, contains-append_one id x pending, e))
          (λ known.
            let here : ltb_ℤ (pos 0) x ≡ true =
              subst (λ (k : ℤ). ltb_ℤ (pos 0) k ≡ true) (sym same) positive in
            let there : contains x pending ≡ true = ground (arith, known, here) in
            subst (λ (k : ℤ). contains k pending ≡ true) same there))
  | inr e ↦ let rest : contains id ids ≡ true = rw e at h in mark-adds id ids _ positive rest
]

put_back-dirty :
    (id : ℤ) (ids : List ℤ) (q : Queue)
    → ltb_ℤ (pos 0) id ≡ true
    → q.closed ≡ false
    → (contains id q.pending || contains id ids) ≡ true
    → contains id (put_back ids q).pending ≡ true
unfolding put_back enqueue
put_back-dirty id ids q positive is_open h = elim (Bool-cases (contains id q.pending)) [
  | inl e ↦ rw is_open (mark-keeps id ids q.pending e)
  | inr e ↦ rw is_open (mark-adds id ids q.pending positive (rw e at h))
]

enqueue-dirty :
    (id : ℤ) (ids : List ℤ) (q : Queue) → is_dirty id q ≡ true → is_dirty id (enqueue ids q) ≡ true
unfolding enqueue
enqueue-dirty id ids q h =
    if_cases (λ (r : Queue). is_dirty id r ≡ true) q.closed _ _ (λ _. h)
      (λ _. elim (Bool-cases (contains id q.pending)) [
        | inl e ↦ ground (arith, mark-keeps id ids q.pending e)
        | inr e ↦
            let flying : contains id (in_flight q.phase) ≡ true = rw e at h in
            ground (arith, flying)
      ])

-- Outside a batch, a dirty node is a pending one.
pending_of_dirty :
    (id : ℤ) (q : Queue)
    → in_flight q.phase ≡ []
    → is_dirty id q ≡ true
    → contains id q.pending ≡ true
pending_of_dirty id q none_flying h =
    let nowhere : contains id (in_flight q.phase) ≡ false = rw none_flying in
    ground (arith, h, nowhere)

-- While the queue is open, a node (of positive id) that is dirty stays dirty through every step but the end of the
-- batch that was applied with it: an error, a retry and a second `Enqueue` keep it.
pub Step-dirty :
    {q r : Queue} (id : ℤ)
    → Step q r
    → ltb_ℤ (pos 0) id ≡ true
    → q.closed ≡ false
    → is_dirty id q ≡ true
    → (is_dirty id r ≡ true)
      ⊎ ((ids : List ℤ) × (q.phase ≡ applying ids)
          × (contains id ids ≡ true)
          × (r ≡ enter draining q))
unfolding in_flight
Step-dirty {q} id (enqueued ids) positive is_open h = inl (enqueue-dirty id ids q h)
Step-dirty id cancelled positive is_open h = inl h
Step-dirty {q} id (woken at_select token) positive is_open h =
    inl (ground (arith, pending_of_dirty id q (ap in_flight at_select) h))
Step-dirty {q} id (taken head still some_pending) positive is_open h =
    inl (contains-sort_by ltb_ℤ id q.pending ∙ pending_of_dirty id q (ap in_flight head) h)
Step-dirty {q} id (emptied head still none_pending) positive is_open h =
    inl (ground (arith, pending_of_dirty id q (ap in_flight head) h))
Step-dirty {q} id (applied ids at) positive is_open h = elim (Bool-cases (contains id q.pending)) [
  | inl e ↦ inl (ground (arith, e))
  | inr e ↦
      let flying : contains id (in_flight q.phase) ≡ true = rw e at h in
      inr (ids, at, subst (λ (xs : List ℤ). contains id xs ≡ true) (ap in_flight at) flying, refl)
]
Step-dirty {q} id (refused ids at) positive is_open h =
    let somewhere : (contains id q.pending || contains id ids) ≡ true =
      subst (λ (xs : List ℤ). (contains id q.pending || contains id xs) ≡ true) (ap in_flight at)
        h in
    inl (ground (arith, put_back-dirty id ids q positive is_open somewhere))
Step-dirty {q} id (retried at) positive is_open h =
    inl (ground (arith, pending_of_dirty id q (ap in_flight at) h))
Step-dirty id (interrupted at closed) positive is_open h = absurd (ground (arith, closed, is_open))
Step-dirty id (stopped closed at) positive is_open h = absurd (ground (arith, closed, is_open))
Step-dirty id (abandoned closed at) positive is_open h = absurd (ground (arith, closed, is_open))

-- A pending node never waits for a wake-up that will not come.
abbrev pub IsAwake : Queue → Type 0
IsAwake q = q.closed ≡ false → q.wake ≡ false → q.phase ≡ waiting → q.pending ≡ []

Step-IsAwake : {q r : Queue} → Step q r → IsAwake q → IsAwake r
unfolding enqueue put_back
Step-IsAwake {q} (enqueued ids) awake =
    if_cases IsAwake q.closed q (record q { pending = mark ids q.pending; wake = true })
      (λ _. awake) (λ _ still token idle. absurd (ground (arith, token)))
Step-IsAwake cancelled awake = λ still token idle. absurd (ground (arith, still))
Step-IsAwake (woken at_select token) awake = λ still used idle. absurd (ground (arith, idle))
Step-IsAwake (taken head still some_pending) awake = λ _ _ _. refl
Step-IsAwake (emptied head still none_pending) awake = λ _ _ _. none_pending
Step-IsAwake (applied ids at) awake = λ still token idle. absurd (ground (arith, idle))
Step-IsAwake {q} (refused ids at) awake =
    let P : Phase → Type 0 = λ phase. IsAwake (enter phase (enqueue ids q)) in
    if_cases P q.closed returned retrying (λ _ still token idle. absurd (ground (arith, idle)))
      (λ _ still token idle. absurd (ground (arith, idle)))
Step-IsAwake (retried at) awake = λ still token idle. absurd (ground (arith, idle))
Step-IsAwake (interrupted at closed) awake =
    λ still token idle. absurd (ground (arith, still, closed))
Step-IsAwake (stopped closed at) awake = λ still token idle. absurd (ground (arith, idle))
Step-IsAwake (abandoned closed at) awake = λ still token idle. absurd (ground (arith, idle))

Reachable-IsAwake : {q : Queue} → Reachable q → IsAwake q
Reachable-IsAwake started = λ _ _ _. refl
Reachable-IsAwake (stepped reached s) = Step-IsAwake s (Reachable-IsAwake reached)

-- In every state that the queue reaches while it is open, an idle goroutine without a token in the
-- channel means that no node is pending: no pending node waits for a wake-up that will not come.
pub Reachable-no_lost_wake :
    {q : Queue}
    → Reachable q
    → q.closed ≡ false
    → q.wake ≡ false
    → q.phase ≡ waiting
    → q.pending ≡ []
Reachable-no_lost_wake reached = Reachable-IsAwake reached
