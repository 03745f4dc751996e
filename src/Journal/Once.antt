-- ===== src/Journal/Once.antt =====
-- A durable consumer sees every event of the journal once and in order: from its start.

-- The tables as the statements leave them.

use easy_proxies_v.Base.{
  All, Bool, List, Option, Option-cases, String, String_eq, [], ap, arith, false, if_cases,
  if◌then◌else◌, inl, inr, keep, lookup, ltb, none, refl, some, subst, sym, ℕ, ◌<◌, ◌==◌, ◌∙◌, ◌∷◌,
  ◌≡◌, ◌≤◌,
}
use easy_proxies_v.Journal.Delivered.{journaled_events}
use easy_proxies_v.Journal.Exact.{Good-Run}
use easy_proxies_v.Journal.Kept.{Good, after_twice}
use easy_proxies_v.Journal.Order.{Ascending, up_to}
use easy_proxies_v.Journal.Prune.{put_cursor-cursor_or_zero}
use easy_proxies_v.Journal.Store.{
  GroupNodeState, HealthEvent, Journal, after, cursor_or_zero, get_cursor, largest_seq,
  max_event_seq, put_cursor,
}
use easy_proxies_v.Journal.Subscription.{Delivery, Subscription, event_matches, init_cursor}
use easy_proxies_v.Journal.System.{Run, World, boot, place}

pub record IsJournal (consumer : String) (j : Journal) : Type 0 where
  pub ordered : Ascending j.rows
  pub bounded : All (λ event. event.seq ≤ j.sequence) j.rows
  pub cursor_known : cursor_or_zero consumer j ≤ j.sequence

-- A consumer that was just made.
pub record IsFresh (s : Subscription) : Type 0 where
  pub keyed : (s.consumer == "") ≡ false
  pub unlogged : s.log ≡ []
  pub settled : s.pending_cursor ≡ 0

up_to-after : (seq : ℕ) (events : List HealthEvent) → up_to seq (after seq events) ≡ []
up_to-after seq [] = refl
up_to-after seq (event ∷ events) = ground (arith, up_to-after seq events)

All-keep :
    (P : HealthEvent → Type 0) (p : HealthEvent → Bool) (events : List HealthEvent)
    → All P events
    → All P (keep p events)
All-keep P p [] h = tt
All-keep P p (event ∷ events) h =
    if_cases (All P) (p event) _ _ (λ _. (h.0, All-keep P p events h.1))
      (λ _. All-keep P p events h.1)

Ascending-after :
    (seq : ℕ) (events : List HealthEvent) → Ascending events → Ascending (after seq events)
Ascending-after seq [] h = tt
Ascending-after seq (event ∷ events) h =
    if_cases Ascending (ltb seq event.seq) _ _
      (λ _. (
        All-keep (λ later. event.seq < later.seq) (λ e. ltb seq e.seq) events h.0,
        Ascending-after seq events h.1,
      ))
      (λ _. Ascending-after seq events h.1)

largest_seq-le :
    (bound : ℕ) (events : List HealthEvent)
    → All (λ event. event.seq ≤ bound) events
    → largest_seq events ≤ bound
largest_seq-le bound [] h = omega arith
largest_seq-le bound (event ∷ events) h = omega (arith, h.0, largest_seq-le bound events h.1)

-- Any cursor between the stored one and the end is a good place to start.
Good-start :
    (j : Journal) (s : Subscription) (seq : ℕ)
    → Ascending j.rows
    → All (λ event. event.seq ≤ j.sequence) j.rows
    → seq ≤ j.sequence
    → cursor_or_zero s.consumer j ≤ seq
    → IsFresh s
    → Good
        (event_matches s)
        (record { journal = j; subscription = record s { cursor = seq }; owed = after seq j.rows })
Good-start j s seq ordered bounded known stored fresh = record {
  ascending = Ascending-after seq j.rows ordered;
  below = All-keep (λ event. event.seq ≤ j.sequence) (λ e. ltb seq e.seq) j.rows bounded;
  known = known;
  kept = sym (after_twice seq seq j.rows (omega arith));
  stored = stored;
  pending = omega (arith, fresh.settled);
  filter = refl;
  current =
      ap journaled_events fresh.unlogged
      ∙ ap (keep (event_matches s)) (sym (up_to-after seq j.rows));
}

cursor_or_zero-lookup :
    (consumer : String) (j : Journal) (o : Option ℕ)
    → lookup consumer j.cursors ≡ o
    → cursor_or_zero consumer j ≡ elim o [ none ↦ 0 | some seq ↦ seq ]
unfolding cursor_or_zero
cursor_or_zero-lookup consumer j o e = ap (λ (p : Option ℕ). elim p [ none ↦ 0 | some seq ↦ seq ]) e

-- The cursor that a durable consumer starts with, when the store answers.
init_cursor-durable :
    (put_fails : Bool) (j : Journal) (s : Subscription) (o : Option ℕ)
    → (s.consumer == "") ≡ false
    → lookup s.consumer j.cursors ≡ o
    → init_cursor false false put_fails j s ≡ elim o [
      | some seq ↦ (j, record s { cursor = seq })
      | none ↦ (
        if put_fails then j else put_cursor s.consumer (largest_seq j.rows) j,
        record s { cursor = largest_seq j.rows },
      )
    ]
unfolding init_cursor get_cursor max_event_seq
init_cursor-durable put_fails j s none key e = ground (arith, key, e)
init_cursor-durable put_fails j s (some seq) key e = ground (arith, key, e)

Good-boot :
    (put_fails : Bool) (j : Journal) (s : Subscription)
    → IsJournal s.consumer j
    → IsFresh s
    → Good (event_matches s) (boot false false put_fails j s)
Good-boot put_fails j s ok fresh = elim (Option-cases (lookup s.consumer j.cursors)) [
  | inr (seq, e) ↦
      let here = cursor_or_zero-lookup s.consumer j (some seq) e in
      subst (λ (p : Journal × Subscription). Good (event_matches s) (place p))
        (sym (init_cursor-durable put_fails j s (some seq) fresh.keyed e))
        (Good-start j s seq ok.ordered ok.bounded (omega (arith, ok.cursor_known, here))
          (omega (arith, here)) fresh)
  | inl e ↦
      let none_stored = cursor_or_zero-lookup s.consumer j none e in
      let tail = largest_seq j.rows in
      let reached : tail ≤ j.sequence = largest_seq-le j.sequence j.rows ok.bounded in
      let put = put_cursor s.consumer tail j in
      subst (λ (p : Journal × Subscription). Good (event_matches s) (place p))
        (sym (init_cursor-durable put_fails j s none fresh.keyed e))
        (if_cases (λ (k : Journal). Good (event_matches s) (place (k, record s { cursor = tail })))
          put_fails j put
          (λ _.
            Good-start j s tail ok.ordered ok.bounded reached (omega (arith, none_stored)) fresh)
          (λ _.
            Good-start put s tail (unfold put_cursor in ok.ordered)
              (unfold put_cursor in ok.bounded) (unfold put_cursor in reached)
              (omega (arith, put_cursor-cursor_or_zero s.consumer tail j, none_stored)) fresh))
]

-- A durable consumer is handed each event once and in order. It starts on a journal whose rows
-- ascend up to the last number given, with its stored cursor not beyond that, and the reads of its
-- start succeed. After any steps of publishers, of pruning that knows the consumer, of failed
-- reads and writes and of the consumer itself: the events that its callback was handed are exactly
-- those after its first cursor and up to its cursor that match its filter, in the order of their
-- numbers; and each accepted event beyond its cursor is still in the journal.
pub Run-delivers :
    (callback : List Delivery → Delivery → List GroupNodeState) (exists : GroupNodeState → Bool)
    (put_fails : Bool) (j : Journal) (s : Subscription) {w : World}
    → IsJournal s.consumer j
    → IsFresh s
    → Run callback exists (boot false false put_fails j s) w
    → (journaled_events w.subscription.log
        ≡ keep (event_matches s) (up_to w.subscription.cursor w.owed))
      × (after w.subscription.cursor w.journal.rows ≡ after w.subscription.cursor w.owed)
      × Ascending w.owed
Run-delivers callback exists put_fails j s ok fresh run =
    let g = Good-Run callback exists (event_matches s) run (Good-boot put_fails j s ok fresh) in
    (g.current, g.kept, g.ascending)
