-- ===== src/Journal/Subscription.antt =====
-- internal/monitor/health_event_hub.go: one consumer of the journal. A failure of the store is an
-- argument. One call of `read_journal` or `flush_cursor` is a step: the callbacks of a batch run in
-- it, and `closed` is read once. The wake channel and the retry timer are not modelled.

-- What a callback is handed.

use easy_proxies_v.Base.{
  Bool, List, Option, String, String_eq, [], any, contains, eq_ℤ, false, if◌then◌else◌, leb, length,
  ltb, nat_eq, none, not, pos, pos_part, some, true, ℕ, ℤ, ℤ_eq, ◌&&◌, ◌++◌, ◌+◌, ◌==◌, ◌||◌, ◌∷◌,
}
use easy_proxies_v.Journal.Store.{
  GroupNodeState, HealthEvent, Journal, advance_cursor_with_state, get_cursor, list_events_after,
  max_event_seq, put_cursor, same_member,
}

pub data Delivery : Type 0 where
  journaled inlined : HealthEvent → Delivery
  refreshed : Delivery

pub record Subscription : Type 0 where
  pub consumer : String
  pub global : Bool
  pub tags : List String
  pub node_ids : List ℤ
  pub cursor : ℕ
  pub pending_cursor : ℕ
  pub dirty : Bool
  pub refresh : Bool
  pub cursor_blocked : Bool
  pub pending_states : List GroupNodeState
  pub inline : List HealthEvent
  pub closed : Bool
  pub gaps : ℕ
  pub dropped : ℕ
  pub read_failures : ℕ
  pub cursor_failures : ℕ
  -- What was delivered so far; `delivered` of the source is its length.
  pub log : List Delivery

abbrev pub read_batch : ℤ
read_batch = pos 64

abbrev pub inline_limit : ℕ
inline_limit = 1024

-- What a publisher tells the consumer.
pub data Notice : Type 0 where
  snapshot_only recorded : Notice
  unrecorded : HealthEvent → Notice

unfoldable pub notify : Notice → Subscription → Subscription
notify snapshot_only s = if s.closed then s else record s { refresh = true }
notify recorded s = if s.closed then s else record s { dirty = true }
notify (unrecorded event) s =
    if s.closed
    then s
    else if leb inline_limit (length s.inline)
    then record s { dropped = s.dropped + 1 }
    else record s { inline = s.inline ++ event ∷ [] }

-- The newest state of a member wins.
unfoldable pub record_state : GroupNodeState → List GroupNodeState → List GroupNodeState
record_state state [] = state ∷ []
record_state state (queued ∷ rest) =
    let others = record_state state rest in
    if same_member queued state then state ∷ rest else queued ∷ others

unfoldable pub record_states : List GroupNodeState → List GroupNodeState → List GroupNodeState
record_states [] pending = pending
record_states (state ∷ states) pending = record_states states (record_state state pending)

-- States that could not be written go back, unless a newer one is queued.
unfoldable pub restore_states : List GroupNodeState → List GroupNodeState → List GroupNodeState
restore_states [] pending = pending
restore_states (state ∷ states) pending =
    restore_states states
      (if any (λ queued. same_member queued state) pending then pending else pending ++ state ∷ [])

abbrev pub event_matches : Subscription → HealthEvent → Bool
event_matches s event =
    s.global
    || (contains event.tag s.tags
        || (not (eq_ℤ event.node_id (pos 0)) && contains event.node_id s.node_ids))

-- The callback may depend on all that was delivered before.
module _ (callback : List Delivery → Delivery → List GroupNodeState) where
  unfoldable pub deliver : Delivery → Subscription → Subscription
  deliver d s = record s {
    pending_states = record_states (callback s.log d) s.pending_states;
    log = s.log ++ d ∷ [];
  }

  -- The cursor moves over each event, whether it matches or not.
  abbrev pub pass : HealthEvent → Subscription → Subscription
  pass event s =
      if ltb s.cursor event.seq
      then record s {
        cursor = event.seq;
        pending_cursor = if s.consumer == "" then s.pending_cursor else event.seq;
      }
      else s

  abbrev pub count_gap : HealthEvent → Subscription → Subscription
  count_gap event s = if ltb (s.cursor + 1) event.seq then record s { gaps = s.gaps + 1 } else s

  unfoldable pub consume : HealthEvent → Subscription → Subscription
  consume event s =
      let counted = count_gap event s in
      pass event (if event_matches s event then deliver (journaled event) counted else counted)

  unfoldable pub consume_all : List HealthEvent → Subscription → Subscription
  consume_all [] s = s
  consume_all (event ∷ events) s = consume_all events (consume event s)

  -- After a full batch the journal probably holds more.
  abbrev pub after_batch : ℕ → Subscription → Subscription × Bool
  after_batch count s =
      if nat_eq count (pos_part read_batch) then (record s { dirty = true }, true) else (s, false)

  unfoldable pub read_journal : Bool → Journal → Subscription → Subscription × Bool
  read_journal store_fails j s =
      if s.closed || (not s.dirty || s.cursor_blocked)
      then (s, false)
      else if store_fails
      then (record s { read_failures = s.read_failures + 1; dirty = true }, false)
      else let events = list_events_after s.cursor read_batch j in
        after_batch (length events) (consume_all events (record s { dirty = false }))

unfoldable pub flush_cursor :
    (GroupNodeState → Bool) → Bool → Journal → Subscription → Journal × Subscription × Bool
flush_cursor exists store_fails j s =
    if s.closed
      || (s.consumer == "" || (nat_eq s.pending_cursor 0 && nat_eq (length s.pending_states) 0))
    then (j, s, false)
    else if store_fails
    then (
      j,
      record s {
        pending_states = restore_states s.pending_states [];
        cursor_failures = s.cursor_failures + 1;
        cursor_blocked = true;
      },
      false,
    )
    else (
      advance_cursor_with_state exists s.consumer s.pending_cursor s.pending_states j,
      record s { pending_states = []; pending_cursor = 0; cursor_blocked = false },
      true,
    )

unfoldable pub pop_inline : Subscription → Option (HealthEvent × Subscription)
pop_inline s =
    if s.closed
    then none
    else elim s.inline [ [] ↦ none | event ∷ rest ↦ some (event, record s { inline = rest }) ]

-- An empty key is an observer without a stored cursor. A cursor that could not be read is treated
-- as a missing one: the consumer starts at the tail, and the tail is stored.
unfoldable pub init_cursor :
    (get_fails tail_fails put_fails : Bool) → Journal → Subscription → Journal × Subscription
init_cursor get_fails tail_fails put_fails j s =
    elim (if s.consumer == "" || get_fails then none else get_cursor s.consumer j) [
      | some seq ↦ (j, record s { cursor = seq })
      | none ↦ if tail_fails then (j, s) else (
        if s.consumer == "" || put_fails then j else put_cursor s.consumer (max_event_seq j) j,
        record s { cursor = max_event_seq j },
      )
    ]
