-- ===== src/Journal/Prune.antt =====
-- The journal and the cursors of internal/store/health_events.go.

use easy_proxies_v.Base.{
  ==_iff, ==_refl, Bool, Bool-cases, List, Option-cases, String, String_eq, [], arith, contains,
  false, inl, inr, keep, lookup, lookup-insert, ltb, max, not, refl, some, true, ℕ, ◌&&◌, ◌==◌, ◌∷◌,
  ◌≡◌, ◌≤◌,
}
use easy_proxies_v.Journal.Store.{
  HealthEvent, Journal, after, all_passed, cursor_or_zero, forward, prune_events, put_cursor,
}

all_passed-contains :
    (active : List String) (consumer : String) (seq : ℕ) (j : Journal)
    → contains consumer active ≡ true
    → ltb (cursor_or_zero consumer j) seq ≡ true
    → all_passed active seq j ≡ false
unfolding all_passed
all_passed-contains [] consumer seq j h owed = absurd (ground (arith, h))
all_passed-contains (first ∷ active) consumer seq j h owed = elim (Bool-cases (first == consumer)) [
  | inl e ↦ rw ((==_iff first consumer).0 e) (ground (arith, owed))
  | inr e ↦
      let rest : contains consumer active ≡ true = rw e at h in
      ground (arith, all_passed-contains active consumer seq j rest owed)
]

keep-after :
    (drops : HealthEvent → Bool) (seq : ℕ) (events : List HealthEvent)
    → ((event : HealthEvent) → ltb seq event.seq ≡ true → drops event ≡ false)
    → after seq (keep (λ event. not (drops event)) events) ≡ after seq events
keep-after drops seq [] h = refl
keep-after drops seq (event ∷ events) h = ground (arith, h event, keep-after drops seq events h)

-- Pruning keeps each event that an active consumer has not committed: the rows after the stored
-- cursor of a consumer that is listed as active are the same before and after, where a consumer
-- without a stored cursor has committed nothing.
pub prune_events-after :
    (older_than : ℕ) (active : List String) (consumer : String) (j : Journal)
    → contains consumer active ≡ true
    → after (cursor_or_zero consumer j) (prune_events older_than active j).rows
      ≡ after (cursor_or_zero consumer j) j.rows
unfolding prune_events
prune_events-after older_than active consumer j h =
    keep-after (λ event. ltb event.recorded_at older_than && all_passed active event.seq j)
      (cursor_or_zero consumer j) j.rows
      (λ event owed. ground (arith, all_passed-contains active consumer event.seq j h owed))

-- Above the cursor of an active consumer too.
pub prune_events-later :
    (older_than : ℕ) (active : List String) (consumer : String) (seq : ℕ) (j : Journal)
    → contains consumer active ≡ true
    → cursor_or_zero consumer j ≤ seq
    → after seq (prune_events older_than active j).rows ≡ after seq j.rows
unfolding prune_events
prune_events-later older_than active consumer seq j h le =
    keep-after (λ event. ltb event.recorded_at older_than && all_passed active event.seq j) seq
      j.rows
      (λ event owed.
        let further : ltb (cursor_or_zero consumer j) event.seq ≡ true = ground (arith, le, owed) in
        ground (arith, all_passed-contains active consumer event.seq j h further))

pub put_cursor-cursor_or_zero :
    (consumer : String) (seq : ℕ) (j : Journal)
    → cursor_or_zero consumer (put_cursor consumer seq j) ≡ max (cursor_or_zero consumer j) seq
unfolding cursor_or_zero put_cursor
put_cursor-cursor_or_zero consumer seq j =
    let stored : lookup consumer (put_cursor consumer seq j).cursors
        ≡ some (forward seq (lookup consumer j.cursors)) =
      ground (
        arith,
        lookup-insert consumer consumer (forward seq (lookup consumer j.cursors)) j.cursors,
        ==_refl consumer,
      ) in
    elim (Option-cases (lookup consumer j.cursors)) [
      | inl e ↦ ground (arith, stored, e)
      | inr (old, e) ↦ ground (arith, stored, e)
    ]
