-- ===== src/Journal/System.antt =====
-- The journal of internal/store/health_events.go and one durable consumer of
-- internal/monitor/health_event_hub.go, with publishers and the pruning of
-- internal/monitor/health_event_prune.go, as a step relation.

-- `owed` is every event after the consumer's first cursor that the journal has accepted; the
-- program does not keep it.

use easy_proxies_v.Base.{
  Bool, List, String, String_eq, [], contains, false, if◌then◌else◌, none, not, some, true, ℕ, ◌++◌,
  ◌||◌, ◌∷◌, ◌≡◌,
}
use easy_proxies_v.Journal.Store.{
  GroupNodeState, HealthEvent, Journal, after, append_event, prune_events, row_of,
}
use easy_proxies_v.Journal.Subscription.{
  Delivery, Notice, Subscription, deliver, flush_cursor, init_cursor, inlined, notify, pop_inline,
  read_journal, refreshed,
}

pub record World : Type 0 where
  pub journal : Journal
  pub subscription : Subscription
  pub owed : List HealthEvent

-- A consumer on a journal, from its cursor on.
abbrev pub place : Journal × Subscription → World
place p = record { journal = p.0; subscription = p.1; owed = after p.1.cursor p.0.rows }

-- The start of a consumer on a journal that may have been used before.
abbrev pub boot : (get_fails tail_fails put_fails : Bool) → Journal → Subscription → World
boot get_fails tail_fails put_fails j s = place (init_cursor get_fails tail_fails put_fails j s)

module _ (callback : List Delivery → Delivery → List GroupNodeState) where
  -- What the worker does beside the journal: an inline event, or a refresh.
  unfoldable pub deliver_inline : Subscription → Subscription
  deliver_inline s = elim (pop_inline s) [ none ↦ s | some p ↦ deliver callback (inlined p.0) p.1 ]

  unfoldable pub take_refresh : Subscription → Subscription
  take_refresh s =
      if s.closed || not s.refresh
      then s
      else deliver callback refreshed (record s { refresh = false })

module _ (callback : List Delivery → Delivery → List GroupNodeState)
    (exists : GroupNodeState → Bool) where
  unfoldable pub flush_world : Bool → World → World
  flush_world store_fails w =
      let (j, s, flushed_any) = flush_cursor exists store_fails w.journal w.subscription in
      record w { journal = j; subscription = s }

  pub data Step : World → World → Type 0 where
    appended :
        {w : World} (now seq : ℕ) (event : HealthEvent) (j : Journal)
        → append_event now event w.journal ≡ some (seq, j)
        → Step w (record w { journal = j; owed = w.owed ++ row_of now event w.journal ∷ [] })
    noticed :
        {w : World} (notice : Notice)
        → Step w (record w { subscription = notify notice w.subscription })
    took_inline :
        {w : World} → Step w (record w { subscription = deliver_inline callback w.subscription })
    took_refresh :
        {w : World} → Step w (record w { subscription = take_refresh callback w.subscription })
    read :
        {w : World} (store_fails : Bool)
        → Step w (record w {
          subscription = (read_journal callback store_fails w.journal w.subscription).0;
        })
    flushed : {w : World} (store_fails : Bool) → Step w (flush_world store_fails w)
    pruned :
        {w : World} (older_than : ℕ) (active : List String)
        → contains w.subscription.consumer active ≡ true
        → Step w (record w { journal = prune_events older_than active w.journal })
    closed :
        {w : World}
        → Step w (record w { subscription = record w.subscription { closed = true; inline = [] } })

  pub data Run : World → World → Type 0 where
    done : {w : World} → Run w w
    next : {u v w : World} → Step u v → Run v w → Run u w
