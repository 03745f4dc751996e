-- ===== src/Journal/Delivered.antt =====
-- Each event of the journal is delivered once and in order.
use mathlib.Core.List.{append-nil}
use easy_proxies_v.Base.{
  Bool, List, [], ap, arith, keep, max, refl, sym, ◌++◌, ◌<◌, ◌∙◌, ◌∷◌, ◌≡◌, ◌≤◌,
}
use easy_proxies_v.Journal.Order.{Ascending, after-IsNext, up_to}
use easy_proxies_v.Journal.Store.{GroupNodeState, HealthEvent, after}
use easy_proxies_v.Journal.Subscription.{
  Delivery, Subscription, consume, consume_all, deliver, event_matches, inlined, journaled,
  refreshed,
}

abbrev pub journaled_events : List Delivery → List HealthEvent
journaled_events [] = []
journaled_events (journaled event ∷ log) = event ∷ journaled_events log
journaled_events (inlined event ∷ log) = journaled_events log
journaled_events (refreshed ∷ log) = journaled_events log

pub journaled_events-append :
    (log : List Delivery) (d : Delivery)
    → journaled_events (log ++ d ∷ []) ≡ journaled_events log ++ journaled_events (d ∷ [])
journaled_events-append [] (journaled event) = refl
journaled_events-append [] (inlined event) = refl
journaled_events-append [] refreshed = refl
journaled_events-append (journaled event ∷ log) d =
    ap (λ es. event ∷ es) (journaled_events-append log d)
journaled_events-append (inlined event ∷ log) d = journaled_events-append log d
journaled_events-append (refreshed ∷ log) d = journaled_events-append log d

-- A consumer keeps its key and its filter.
abbrev pub SameFilter : Subscription → Subscription → Type 0
SameFilter s t =
    (t.consumer ≡ s.consumer)
    × (t.global ≡ s.global)
    × (t.tags ≡ s.tags)
    × (t.node_ids ≡ s.node_ids)

-- What consuming one event changes.
abbrev pub Consumed : HealthEvent → Subscription → Subscription → Type 0
Consumed event s t =
    (t.cursor ≡ event.seq)
    × (t.pending_cursor ≤ max s.pending_cursor event.seq)
    × (journaled_events t.log ≡ journaled_events s.log ++ keep (event_matches s) (event ∷ []))

module _ (callback : List Delivery → Delivery → List GroupNodeState) where
  consume-SameFilter :
      (event : HealthEvent) (s : Subscription) → SameFilter s (consume callback event s)
  unfolding consume deliver
  consume-SameFilter event s = ground arith

  consume-Consumed :
      (event : HealthEvent) (s : Subscription)
      → s.cursor < event.seq
      → Consumed event s (consume callback event s)
  unfolding consume deliver
  consume-Consumed event s h = ground (
    arith,
    h,
    journaled_events-append s.log (journaled event),
    append-nil (journaled_events s.log),
  )

-- The consumer is up to date with the part of `owed` before its cursor.
abbrev pub IsCurrent : (HealthEvent → Bool) → List HealthEvent → Subscription → Type 0
IsCurrent wanted owed s = journaled_events s.log ≡ keep wanted (up_to s.cursor owed)

abbrev pub event_matches-SameFilter :
    (s t : Subscription) → SameFilter s t → event_matches t ≡ event_matches s
event_matches-SameFilter s t h = rw (h.1, h.2, h.3) refl

keep-append :
    (p : HealthEvent → Bool) (xs ys : List HealthEvent) → keep p (xs ++ ys) ≡ keep p xs ++ keep p ys
keep-append p [] ys = refl
keep-append p (x ∷ xs) ys = ground (arith, keep-append p xs ys)

-- A consumer after a batch, with `rest` of the events still before it.
abbrev pub Advanced :
    (HealthEvent → Bool)
    → List HealthEvent
    → List HealthEvent
    → Subscription
    → Subscription
    → Type 0
Advanced wanted owed rest s t =
    SameFilter s t
    × IsCurrent wanted owed t
    × (after t.cursor owed ≡ rest)
    × (s.cursor ≤ t.cursor)
    × (t.pending_cursor ≤ max s.pending_cursor t.cursor)

SameFilter-trans : (s t u : Subscription) → SameFilter s t → SameFilter t u → SameFilter s u
SameFilter-trans s t u a b = (b.0 ∙ a.0, b.1 ∙ a.1, b.2 ∙ a.2, b.3 ∙ a.3)

module _ (callback : List Delivery → Delivery → List GroupNodeState) (wanted : HealthEvent → Bool)
    (owed : List HealthEvent) (ascending : Ascending owed) where
  -- A batch that is the next part of `owed`.
  pub consume_all-Advanced :
      (batch rest : List HealthEvent) (s : Subscription)
      → event_matches s ≡ wanted
      → after s.cursor owed ≡ batch ++ rest
      → IsCurrent wanted owed s
      → Advanced wanted owed rest s (consume_all callback batch s)
  unfolding consume_all
  consume_all-Advanced [] rest s m e h = ((refl, refl, refl, refl), h, e, omega arith, omega arith)
  consume_all-Advanced (event ∷ batch) rest s m e h =
      let next = after-IsNext s.cursor owed ascending e in
      let t = consume callback event s in
      let same = consume-SameFilter callback event s in
      let made = consume-Consumed callback event s next.0 in
      let current : IsCurrent wanted owed t =
        made.2
        ∙ ap (λ f. journaled_events s.log ++ keep f (event ∷ [])) m
        ∙ ap (λ es. es ++ keep wanted (event ∷ [])) h
        ∙ sym (keep-append wanted (up_to s.cursor owed) (event ∷ []))
        ∙ ap (keep wanted) (sym next.2)
        ∙ ap (λ c. keep wanted (up_to c owed)) (sym made.0) in
      let later =
        consume_all-Advanced batch rest t (event_matches-SameFilter s t same ∙ m)
          (ap (λ c. after c owed) made.0 ∙ next.1) current in
      (
        SameFilter-trans s t (consume_all callback batch t) same later.0,
        later.1,
        later.2,
        omega (arith, later.3, made.0, next.0),
        omega (arith, later.4, later.3, made.0, made.1),
      )
