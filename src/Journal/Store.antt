-- ===== src/Journal/Store.antt =====
-- internal/store/health_events.go, with the upsert of sqlite.go that it uses: the SQL statements as
-- functions on the tables. A table is a list in the order of its key; the key of the events counts
-- up and is never used again (AUTOINCREMENT). A time is a number, and the empty text of the zero
-- time is 0.

use easy_proxies_v.Base.{
  Bool, List, Option, String, String_eq, [], eq_ℤ, if◌then◌else◌, insert, keep, leb, length, lookup,
  ltb, ltb_ℤ, max, nat_eq, none, not, pos, pos_part, some, take, true, ℕ, ℤ, ◌&&◌, ◌++◌, ◌+◌, ◌==◌,
  ◌||◌, ◌∷◌,
}

pub record HealthEvent : Type 0 where
  pub seq : ℕ
  pub node_id : ℤ
  pub identity_token : String
  pub identity_revision : ℤ
  pub tag : String
  pub probe_id : String
  pub success : Bool
  pub latency_ms : ℤ
  pub error : String
  pub checked_at : ℕ
  pub recorded_at : ℕ

-- What the upsert reads of a member's state, and the rest of the row as one text.
pub record GroupNodeState : Type 0 where
  pub group_id : ℤ
  pub node_id : ℤ
  pub evicted : Bool
  pub revision : ℤ
  pub body : String

pub record Journal : Type 0 where
  pub rows : List HealthEvent
  pub sequence : ℕ
  pub cursors : List (String × ℕ)
  pub states : List GroupNodeState

abbrev pub journal_limit : ℕ
journal_limit = 8192

-- The row that the insert makes of an event.
abbrev pub row_of : ℕ → HealthEvent → Journal → HealthEvent
row_of now event j = record event {
  seq = j.sequence + 1;
  recorded_at = if nat_eq event.recorded_at 0 then now else event.recorded_at;
}

-- `none` is ErrHealthEventJournalFull.
unfoldable pub append_event : ℕ → HealthEvent → Journal → Option (ℕ × Journal)
append_event now event j =
    if leb journal_limit (length j.rows)
    then none
    else some (
      j.sequence + 1,
      record j { rows = j.rows ++ row_of now event j ∷ []; sequence = j.sequence + 1 },
    )

abbrev pub after : ℕ → List HealthEvent → List HealthEvent
after seq events = keep (λ event. ltb seq event.seq) events

abbrev pub page : ℤ → ℕ
page limit = if ltb_ℤ (pos 0) limit && not (ltb_ℤ (pos 512) limit) then pos_part limit else 512

unfoldable pub list_events_after : ℕ → ℤ → Journal → List HealthEvent
list_events_after seq limit j = take (page limit) (after seq j.rows)

abbrev pub largest_seq : List HealthEvent → ℕ
largest_seq [] = 0
largest_seq (event ∷ events) = max event.seq (largest_seq events)

unfoldable pub max_event_seq : Journal → ℕ
max_event_seq j = largest_seq j.rows

unfoldable pub get_cursor : String → Journal → Option ℕ
get_cursor consumer j = lookup consumer j.cursors

-- The stored cursor only moves forward.
abbrev pub forward : ℕ → Option ℕ → ℕ
forward seq none = seq
forward seq (some old) = if ltb old seq then seq else old

unfoldable pub put_cursor : String → ℕ → Journal → Journal
put_cursor consumer seq j = record j {
  cursors = insert consumer (forward seq (lookup consumer j.cursors)) j.cursors;
}

abbrev pub same_member : GroupNodeState → GroupNodeState → Bool
same_member a b = eq_ℤ a.group_id b.group_id && eq_ℤ a.node_id b.node_id

-- A write with a revision is applied only over a row that is not newer.
unfoldable pub upsert_state : GroupNodeState → List GroupNodeState → List GroupNodeState
upsert_state state [] = state ∷ []
upsert_state state (row ∷ rows) =
    let rest = upsert_state state rows in
    if same_member row state
    then (if eq_ℤ state.revision (pos 0) || not (ltb_ℤ state.revision row.revision)
        then state ∷ rows
        else row ∷ rows)
    else row ∷ rest

-- The states whose group or node is gone are dropped; `exists` is the answer of the foreign keys.
unfoldable pub upsert_states :
    (GroupNodeState → Bool) → List GroupNodeState → List GroupNodeState → List GroupNodeState
upsert_states exists [] rows = rows
upsert_states exists (state ∷ states) rows =
    upsert_states exists states (if exists state then upsert_state state rows else rows)

-- The transaction that commits. One that fails changes nothing.
unfoldable pub advance_cursor_with_state :
    (GroupNodeState → Bool) → String → ℕ → List GroupNodeState → Journal → Journal
advance_cursor_with_state exists consumer seq states j =
    let written = record j { states = upsert_states exists states j.states } in
    if consumer == "" || nat_eq seq 0 then written else put_cursor consumer seq written

-- COALESCE(c.seq, 0)
unfoldable pub cursor_or_zero : String → Journal → ℕ
cursor_or_zero consumer j = elim (lookup consumer j.cursors) [ none ↦ 0 | some seq ↦ seq ]

-- Whether no active consumer is before the event.
unfoldable pub all_passed : List String → ℕ → Journal → Bool
all_passed [] seq j = true
all_passed (consumer ∷ active) seq j =
    leb seq (cursor_or_zero consumer j) && all_passed active seq j

unfoldable pub prune_events : ℕ → List String → Journal → Journal
prune_events older_than active j = record j {
  rows =
      keep (λ event. not (ltb event.recorded_at older_than && all_passed active event.seq j))
        j.rows;
}
