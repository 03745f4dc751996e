-- ===== src/Journal/Kept.antt =====
-- A durable consumer sees every event of the journal once and in order.
use mathlib.Core.List.{append-nil}
use easy_proxies_v.Base.{
  All, All-append, All-map, Bool, List, [], ap, arith, drop, if_cases, keep, ltb, max, option_cases,
  refl, some, subst, suc, sym, take, zero, ℕ, ◌++◌, ◌+◌, ◌<◌, ◌∙◌, ◌∷◌, ◌≡◌, ◌≤◌,
}
use easy_proxies_v.Journal.Delivered.{
  IsCurrent, SameFilter, event_matches-SameFilter, journaled_events, journaled_events-append,
}
use easy_proxies_v.Journal.Order.{
  Ascending, Ascending-append_one, after-append_one, up_to, up_to-append_one,
}
use easy_proxies_v.Journal.Store.{GroupNodeState, HealthEvent, Journal, after, cursor_or_zero}
use easy_proxies_v.Journal.Subscription.{
  Delivery, Notice, Subscription, consume, consume_all, deliver, event_matches, inlined, notify,
  pop_inline, recorded, refreshed, snapshot_only, unrecorded,
}
use easy_proxies_v.Journal.System.{World, deliver_inline, take_refresh}

pub record Good (wanted : HealthEvent → Bool) (w : World) : Type 0 where
  pub ascending : Ascending w.owed
  pub below : All (λ event. event.seq ≤ w.journal.sequence) w.owed
  pub known : w.subscription.cursor ≤ w.journal.sequence
  pub kept : after w.subscription.cursor w.journal.rows ≡ after w.subscription.cursor w.owed
  pub stored : cursor_or_zero w.subscription.consumer w.journal ≤ w.subscription.cursor
  pub pending : w.subscription.pending_cursor ≤ w.subscription.cursor
  pub filter : event_matches w.subscription ≡ wanted
  pub current : IsCurrent wanted w.owed w.subscription

-- A step of the consumer that leaves the journal's events alone.
abbrev pub Unmoved : Subscription → Subscription → Type 0
Unmoved s t =
    SameFilter s t
    × (t.cursor ≡ s.cursor)
    × (t.pending_cursor ≤ max s.pending_cursor 0)
    × (journaled_events t.log ≡ journaled_events s.log)

pub after_twice :
    (first second : ℕ) (events : List HealthEvent)
    → first ≤ second
    → after second (after first events) ≡ after second events
after_twice first second [] h = refl
after_twice first second (event ∷ events) h = ground (arith, h, after_twice first second events h)

pub take-drop : (n : ℕ) (events : List HealthEvent) → take n events ++ drop n events ≡ events
take-drop zero events = refl
take-drop (suc n) [] = refl
take-drop (suc n) (event ∷ events) = ap (λ es. event ∷ es) (take-drop n events)

pub All-after :
    (bound seq : ℕ) (events : List HealthEvent)
    → All (λ event. event.seq ≤ bound) events
    → All (λ event. event.seq ≤ bound) (after seq events)
All-after bound seq [] h = tt
All-after bound seq (event ∷ events) h =
    if_cases (All (λ e. e.seq ≤ bound)) (ltb seq event.seq) _ _
      (λ _. (h.0, All-after bound seq events h.1)) (λ _. All-after bound seq events h.1)

pub All-take :
    (bound n : ℕ) (events : List HealthEvent)
    → All (λ event. event.seq ≤ bound) events
    → All (λ event. event.seq ≤ bound) (take n events)
All-take bound zero events h = tt
All-take bound (suc n) [] h = tt
All-take bound (suc n) (event ∷ events) h = (h.0, All-take bound n events h.1)

module _ (callback : List Delivery → Delivery → List GroupNodeState) where
  pub consume_all-bounded :
      (bound : ℕ) (batch : List HealthEvent) (s : Subscription)
      → All (λ event. event.seq ≤ bound) batch
      → s.cursor ≤ bound
      → (consume_all callback batch s).cursor ≤ bound
  unfolding consume_all
  consume_all-bounded bound [] s h k = k
  consume_all-bounded bound (event ∷ batch) s h k =
      consume_all-bounded bound batch (consume callback event s) h.1
        (unfold consume in unfold deliver in ground (arith, h.0, k))

  popped-Unmoved :
      (s : Subscription) (event : HealthEvent) (t : Subscription)
      → pop_inline s ≡ some (event, t)
      → Unmoved s (deliver callback (inlined event) t)
  unfolding deliver pop_inline
  popped-Unmoved s event t e =
      ground (
        arith,
        e,
        journaled_events-append t.log (inlined event),
        append-nil (journaled_events t.log),
      )

  pub deliver_inline-Unmoved : (s : Subscription) → Unmoved s (deliver_inline callback s)
  unfolding deliver_inline deliver pop_inline
  deliver_inline-Unmoved s =
      option_cases (Unmoved s) (pop_inline s) s (λ p. deliver callback (inlined p.0) p.1)
        (λ _. ((refl, refl, refl, refl), refl, omega arith, refl))
        (λ p e. popped-Unmoved s p.0 p.1 e)

  pub take_refresh-Unmoved : (s : Subscription) → Unmoved s (take_refresh callback s)
  unfolding take_refresh deliver
  take_refresh-Unmoved s =
      ground (arith, journaled_events-append s.log refreshed, append-nil (journaled_events s.log))

  pub notify-Unmoved : (notice : Notice) (s : Subscription) → Unmoved s (notify notice s)
  unfolding notify
  notify-Unmoved snapshot_only s = ground arith
  notify-Unmoved recorded s = ground arith
  notify-Unmoved (unrecorded event) s = ground arith

module _ (callback : List Delivery → Delivery → List GroupNodeState)
    (exists : GroupNodeState → Bool) (wanted : HealthEvent → Bool) where
  pub Good-Unmoved :
      (w : World) (t : Subscription)
      → Good wanted w
      → Unmoved w.subscription t
      → Good wanted (record w { subscription = t })
  Good-Unmoved w t g (same, cursor, pending, log) = record {
    ascending = g.ascending;
    below = g.below;
    known = omega (arith, g.known, cursor);
    kept = subst (λ (c : ℕ). after c w.journal.rows ≡ after c w.owed) (sym cursor) g.kept;
    stored =
        let key : cursor_or_zero t.consumer w.journal
            ≡ cursor_or_zero w.subscription.consumer w.journal =
          ap (λ c. cursor_or_zero c w.journal) same.0 in
        omega (arith, g.stored, cursor, key);
    pending = omega (arith, g.pending, pending, cursor);
    filter = event_matches-SameFilter w.subscription t same ∙ g.filter;
    current = log ∙ g.current ∙ ap (λ c. keep wanted (up_to c w.owed)) (sym cursor);
  }

  pub Good-journal :
      (w : World) (j : Journal)
      → Good wanted w
      → j.sequence ≡ w.journal.sequence
      → after w.subscription.cursor j.rows ≡ after w.subscription.cursor w.journal.rows
      → cursor_or_zero w.subscription.consumer j ≤ w.subscription.cursor
      → Good wanted (record w { journal = j })
  Good-journal w j g sequence rows stored = record {
    ascending = g.ascending;
    below =
        subst (λ (b : ℕ). All (λ (event : HealthEvent). event.seq ≤ b) w.owed) (sym sequence)
          g.below;
    known = omega (arith, g.known, sequence);
    kept = rows ∙ g.kept;
    stored = stored;
    pending = g.pending;
    filter = g.filter;
    current = g.current;
  }

  pub Good-row :
      (w : World) (row : HealthEvent)
      → Good wanted w
      → row.seq ≡ w.journal.sequence + 1
      → Good wanted (record w {
        journal = record w.journal {
          rows = w.journal.rows ++ row ∷ [];
          sequence = w.journal.sequence + 1;
        };
        owed = w.owed ++ row ∷ [];
      })
  unfolding cursor_or_zero
  Good-row w row g seq =
      let later : w.subscription.cursor < row.seq = omega (arith, g.known, seq) in
      record {
        ascending =
            Ascending-append_one w.owed row g.ascending
              (All-map (λ event h. omega (arith, h, seq)) w.owed g.below);
        below =
            All-append (λ event. event.seq ≤ w.journal.sequence + 1) w.owed (row ∷ [])
              (All-map (λ event h. omega (arith, h)) w.owed g.below) (omega (arith, seq), tt);
        known = omega (arith, g.known);
        kept =
            after-append_one w.subscription.cursor w.journal.rows row later
            ∙ ap (λ es. es ++ row ∷ []) g.kept
            ∙ sym (after-append_one w.subscription.cursor w.owed row later);
        stored = g.stored;
        pending = g.pending;
        filter = g.filter;
        current =
            g.current
            ∙ ap (keep wanted) (sym (up_to-append_one w.subscription.cursor w.owed row later));
      }
