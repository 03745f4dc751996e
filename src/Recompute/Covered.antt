-- ===== src/Recompute/Covered.antt =====
-- No requested node is lost by the queue of internal/nodetag/queue.go while its worker runs.

-- A node that is still to be computed: asked for by the caller at work, on the channel, in the
-- batch, or due because everything is.

use easy_proxies_v.Base.{
  ==_iff, Bool, Bool-cases, List, [], any, arith, contains, contains-append_one, contains-sort_by,
  false, if_cases, inl, inr, ltb_ℤ, pos, refl, subst, sym, true, ℤ, ℤ_eq, ◌==◌, ◌||◌, ◌∙◌, ◌∷◌, ◌≡◌,
  ◌⊎◌,
}
use easy_proxies_v.Recompute.Queue.{
  Caller, Label, Queue, Settings, Step, all_nodes, asks, cancelled, closed, complete, ended,
  enqueued, enqueued_all, failed, fired, flushed, found_full, gave_up, idle, receive, received,
  recomputed, recomputed_all, requested, retry, returned, sending, sent, silent, spilled, spilling,
  sweep_failed, swept, swept_all, ticked, unlocked,
}

abbrev pub is_asked : ℤ → Caller → Bool
is_asked id idle = false
is_asked id (sending ids) = contains id ids || contains all_nodes ids
is_asked id (spilling ids) = true

abbrev pub is_due : ℤ → Queue → Bool
is_due id q =
    is_asked id q.caller
    || ((contains id q.events || contains all_nodes q.events)
        || (contains id q.pending || (q.full || q.overflow)))

-- The service was asked to compute the node.
abbrev pub covers : ℤ → Label → Bool
covers id silent = false
covers id recomputed_all = true
covers id (recomputed ids) = contains id ids

asks-covers :
    (settings : Settings) (id : ℤ) (full : Bool) (pending : List ℤ)
    → (contains id pending || full) ≡ true
    → covers id (asks settings full pending) ≡ true
unfolding asks
asks-covers settings id true pending h = refl
asks-covers settings id false [] h = absurd (ground (arith, h))
asks-covers settings id false (x ∷ pending) h =
    contains-sort_by ltb_ℤ id (x ∷ pending) ∙ ground (arith, h)

receive_due :
    (settings : Settings) (id head : ℤ) (rest : List ℤ) (q : Queue)
    → q.events ≡ head ∷ rest
    → is_due id q ≡ true
    → is_due id (receive settings head rest q) ≡ true
unfolding receive
receive_due settings id head rest q e h =
    ground
      (arith, e, h, contains-append_one id head q.pending, ==_iff head id, ==_iff head all_nodes)

Step-due :
    (settings : Settings) (id : ℤ) {l : Label} {q r : Queue}
    → Step settings l q r
    → is_due id q ≡ true
    → (is_due id r ≡ true) ⊎ ((covers id l ≡ true) ⊎ (r.worker ≡ returned))
unfolding complete retry
Step-due settings id (ticked d) h = inl h
Step-due settings id (enqueued ids c o) h = inl (ground (arith, rw c at h))
Step-due settings id (enqueued_all c o) h = inl (ground (arith, rw c at h))
Step-due settings id {q = q} (sent head rest c o) h = inl (
    ground (
      arith,
      rw c at h,
      contains-append_one id head q.events,
      contains-append_one all_nodes head q.events,
    ))
Step-due settings id (found_full head rest c o) h = inl refl
Step-due settings id (spilled rest c) h = inl (ground arith)
Step-due settings id (unlocked c) h = inl (ground (arith, rw c at h))
Step-due settings id (closed c) h = inl h
Step-due settings id cancelled h = inl h
Step-due settings id {q = q} (received head rest w e) h =
    inl (receive_due settings id head rest q e h)
Step-due settings id (fired at w d e) h = inl h
Step-due settings id (swept w) h = inl h
Step-due settings id {q = q} (flushed w c) h = elim (Bool-cases (contains id q.pending || q.full)) [
  | inl e ↦ inr (inl (asks-covers settings id q.full q.pending e))
  | inr e ↦ inl (ground (arith, e, h))
]
Step-due settings id (failed w) h = inl h
Step-due settings id (swept_all w c) h = inr (inl refl)
Step-due settings id (sweep_failed w) h = inl (ground arith)
Step-due settings id (ended w c e) h = inr (inr refl)
Step-due settings id (gave_up w c) h = inr (inr refl)

requested-contains :
    (id : ℤ) (ids : List ℤ)
    → ltb_ℤ (pos 0) id ≡ true
    → contains id ids ≡ true
    → contains id (requested ids) ≡ true
requested-contains id [] p h = h
requested-contains id (x ∷ ids) p h = elim (Bool-cases (x == id)) [
  | inl e ↦
      let here : ltb_ℤ (pos 0) x ≡ true =
        subst (λ (k : ℤ). ltb_ℤ (pos 0) k ≡ true) (sym ((==_iff x id).0 e)) p in
      rw here (ground (arith, e))
  | inr e ↦
      let rest : contains id ids ≡ true = rw e at h in
      if_cases (λ (xs : List ℤ). contains id xs ≡ true) (ltb_ℤ (pos 0) x) _ _
        (λ _. ground (arith, requested-contains id ids p rest))
        (λ _. requested-contains id ids p rest)
]

-- Labelled steps in a row.
pub data Run (settings : Settings) : List Label → Queue → Queue → Type 0 where
  done : {q : Queue} → Run settings [] q q
  next :
      {l : Label} {ls : List Label} {q r s : Queue}
      → Step settings l q r
      → Run settings ls r s
      → Run settings (l ∷ ls) q s

Step-returned :
    (settings : Settings) {l : Label} {q r : Queue}
    → Step settings l q r
    → q.worker ≡ returned
    → r.worker ≡ returned
Step-returned settings (ticked d) h = h
Step-returned settings (enqueued ids c o) h = h
Step-returned settings (enqueued_all c o) h = h
Step-returned settings (sent head tail c o) h = h
Step-returned settings (found_full head tail c o) h = h
Step-returned settings (spilled tail c) h = h
Step-returned settings (unlocked c) h = h
Step-returned settings (closed c) h = h
Step-returned settings cancelled h = h
Step-returned settings (received head tail w e) h = absurd (ground (arith, w, h))
Step-returned settings (fired at w d e) h = absurd (ground (arith, w, h))
Step-returned settings (swept w) h = absurd (ground (arith, w, h))
Step-returned settings (flushed w c) h = absurd (ground (arith, w, h))
Step-returned settings (failed w) h = absurd (ground (arith, w, h))
Step-returned settings (swept_all w c) h = absurd (ground (arith, w, h))
Step-returned settings (sweep_failed w) h = absurd (ground (arith, w, h))
Step-returned settings (ended w c e) h = refl
Step-returned settings (gave_up w c) h = refl

Run-returned :
    (settings : Settings) {ls : List Label} {q r : Queue}
    → Run settings ls q r
    → q.worker ≡ returned
    → r.worker ≡ returned
Run-returned settings done h = h
Run-returned settings (next step run) h = Run-returned settings run (Step-returned settings step h)

Run-due :
    (settings : Settings) (id : ℤ) {ls : List Label} {q r : Queue}
    → Run settings ls q r
    → is_due id q ≡ true
    → (any (covers id) ls ≡ true) ⊎ ((is_due id r ≡ true) ⊎ (r.worker ≡ returned))
Run-due settings id done h = inr (inl h)
Run-due settings id {ls = l ∷ ls} (next step run) h = elim (Step-due settings id step h) [
  | inl due ↦ elim (Run-due settings id run due) [
    | inl found ↦ inl (ground (arith, found))
    | inr other ↦ inr other
  ]
  | inr (inl now) ↦ inl (ground (arith, now))
  | inr (inr gone) ↦ inr (inr (Run-returned settings run gone))
]

-- A positive node id that is passed to `Enqueue` is not lost: after any steps of the callers and the
-- worker, the service was asked to compute the node, or the node is still due, or the worker has
-- returned. It is due while it is with the caller, on the channel or in the batch, or while all
-- nodes are due.
pub Run-requested :
    (settings : Settings) (id : ℤ) (ids : List ℤ) (q : Queue) {ls : List Label} {r : Queue}
    → ltb_ℤ (pos 0) id ≡ true
    → contains id ids ≡ true
    → Run settings ls (record q { caller = sending (requested ids) }) r
    → (any (covers id) ls ≡ true) ⊎ ((is_due id r ≡ true) ⊎ (r.worker ≡ returned))
Run-requested settings id ids q p h run =
    Run-due settings id run (ground (arith, requested-contains id ids p h))
