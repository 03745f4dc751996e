-- ===== src/Journal/Tests.antt =====
-- Runs of the health journal and its consumer.

use easy_proxies_v.Base.{
  Bool, List, [], arith, false, insert, keep, lookup, pos, refl, true, ◌++◌, ◌+◌, ◌∷◌, ◌≡◌,
}
use easy_proxies_v.Journal.Delivered.{journaled_events}
use easy_proxies_v.Journal.Once.{IsFresh, IsJournal, Run-delivers}
use easy_proxies_v.Journal.Order.{Ascending, up_to}
use easy_proxies_v.Journal.Prune.{prune_events-after}
use easy_proxies_v.Journal.Store.{
  GroupNodeState, HealthEvent, Journal, advance_cursor_with_state, after, append_event,
  cursor_or_zero, get_cursor, list_events_after, max_event_seq, prune_events, put_cursor, row_of,
  upsert_state, upsert_states,
}
use easy_proxies_v.Journal.Subscription.{
  Delivery, Subscription, consume, consume_all, deliver, event_matches, flush_cursor, init_cursor,
  inlined, journaled, notify, read_journal, record_state, record_states, recorded, refreshed,
}
use easy_proxies_v.Journal.System.{
  Run, World, appended, boot, done, flush_world, flushed, next, noticed, read,
}

abbrev blank_event : HealthEvent
blank_event = record {
  seq = 0;
  node_id = pos 5;
  identity_token = "";
  identity_revision = pos 0;
  tag = "a";
  probe_id = "p";
  success = false;
  latency_ms = pos 0;
  error = "timeout";
  checked_at = 10;
  recorded_at = 10;
}

abbrev old_row : HealthEvent
old_row = record blank_event { seq = 3 }

abbrev used_journal : Journal
used_journal = record { rows = old_row ∷ []; sequence = 3; cursors = []; states = [] }

abbrev group_consumer : Subscription
group_consumer = record {
  consumer = "group:1";
  global = false;
  tags = "a" ∷ [];
  node_ids = [];
  cursor = 0;
  pending_cursor = 0;
  dirty = false;
  refresh = false;
  cursor_blocked = false;
  pending_states = [];
  inline = [];
  closed = false;
  gaps = 0;
  dropped = 0;
  read_failures = 0;
  cursor_failures = 0;
  log = [];
}

-- A callback that evicts the member of each failure.
abbrev evicting : List Delivery → Delivery → List GroupNodeState
evicting log (journaled event) =
    (record {
      group_id = pos 1;
      node_id = event.node_id;
      evicted = true;
      revision = pos 0;
      body = "";
    })
    ∷ []
evicting log (inlined event) = []
evicting log refreshed = []

abbrev all_exist : GroupNodeState → Bool
all_exist state = true

abbrev booted : World
booted = boot false false false used_journal group_consumer

abbrev grown : Journal
grown = record booted.journal {
  rows = booted.journal.rows ++ row_of 20 blank_event booted.journal ∷ [];
  sequence = booted.journal.sequence + 1;
}

abbrev with_event : World
with_event = record booted {
  journal = grown;
  owed = booted.owed ++ row_of 20 blank_event booted.journal ∷ [];
}

abbrev told : World
told = record with_event { subscription = notify recorded with_event.subscription }

abbrev delivered : World
delivered = record told {
  subscription = (read_journal evicting false told.journal told.subscription).0;
}

abbrev committed : World
committed = flush_world evicting all_exist false delivered

used_journal_numbers : IsJournal "group:1" used_journal
unfolding cursor_or_zero lookup
used_journal_numbers = record {
  ordered = (tt, tt);
  bounded = (omega arith, tt);
  cursor_known = omega arith;
}

group_consumer_new : IsFresh group_consumer
group_consumer_new = record { keyed = refl; unlogged = refl; settled = refl }

to_committed : Run evicting all_exist booted committed
unfolding init_cursor append_event get_cursor lookup max_event_seq put_cursor insert
to_committed =
    next (appended 20 4 blank_event grown refl)
      (next (noticed recorded) (next (read false) (next (flushed false) done)))

Run-delivers_example :
    (journaled_events committed.subscription.log
      ≡ keep (event_matches group_consumer) (up_to committed.subscription.cursor committed.owed))
    × (after committed.subscription.cursor committed.journal.rows
        ≡ after committed.subscription.cursor committed.owed)
    × Ascending committed.owed
Run-delivers_example =
    Run-delivers evicting all_exist false used_journal group_consumer used_journal_numbers
      group_consumer_new to_committed

-- The delivery reached the cursor and the state of the member.
committed_cursor : cursor_or_zero "group:1" committed.journal ≡ 4
unfolding init_cursor get_cursor lookup max_event_seq put_cursor insert notify read_journal
    list_events_after consume_all consume deliver record_states record_state flush_world
    flush_cursor advance_cursor_with_state upsert_states upsert_state cursor_or_zero
committed_cursor = refl

-- A cursor that could not be read starts the consumer at the tail: event 3 was owed and is passed.
skipped_after_fault :
    (boot true false false (put_cursor "group:1" 2 used_journal) group_consumer).subscription.cursor
    ≡ 3
unfolding init_cursor get_cursor lookup max_event_seq put_cursor insert
skipped_after_fault = refl

prune_events-after_example :
    after
      (cursor_or_zero "group:1" used_journal)
      (prune_events 100 ("group:1" ∷ []) used_journal).rows
    ≡ after (cursor_or_zero "group:1" used_journal) used_journal.rows
prune_events-after_example = prune_events-after 100 ("group:1" ∷ []) "group:1" used_journal refl
