-- ===== src/Journal/Exact.antt =====
-- A durable consumer sees every event of the journal once and in order: the steps.

use easy_proxies_v.Base.{
  All, Bool, Bool-cases, List, String, String_eq, [], ap, arith, drop, false, if_cases,
  if◌then◌else◌, inl, inr, leb, length, max, nat_eq, not, refl, subst, sym, take, true, ℕ, ◌&&◌,
  ◌++◌, ◌+◌, ◌==◌, ◌||◌, ◌∙◌, ◌∷◌, ◌≡◌, ◌≤◌,
}
use easy_proxies_v.Journal.Delivered.{Advanced, consume_all-Advanced, event_matches-SameFilter}
use easy_proxies_v.Journal.Kept.{
  All-after, All-take, Good, Good-Unmoved, Good-journal, Good-row, after_twice, consume_all-bounded,
  deliver_inline-Unmoved, notify-Unmoved, take-drop, take_refresh-Unmoved,
}
use easy_proxies_v.Journal.Prune.{prune_events-later, put_cursor-cursor_or_zero}
use easy_proxies_v.Journal.Store.{
  GroupNodeState, HealthEvent, Journal, advance_cursor_with_state, after, append_event,
  cursor_or_zero, journal_limit, list_events_after, prune_events, put_cursor, row_of, upsert_states,
}
use easy_proxies_v.Journal.Subscription.{
  Delivery, Subscription, consume_all, flush_cursor, read_batch, read_journal, restore_states,
}
use easy_proxies_v.Journal.System.{
  Run, Step, World, appended, closed, done, flush_world, flushed, next, noticed, pruned, read,
  took_inline, took_refresh,
}

module _ (callback : List Delivery → Delivery → List GroupNodeState)
    (exists : GroupNodeState → Bool) (wanted : HealthEvent → Bool) where
  Good-batch :
      (w : World)
      → Good wanted w
      → let events = list_events_after w.subscription.cursor read_batch w.journal in
        Good wanted (record w {
          subscription = consume_all callback events (record w.subscription { dirty = false });
        })
  unfolding list_events_after
  Good-batch w g =
      let s = w.subscription in
      let start = record s { dirty = false } in
      let ahead = after s.cursor w.journal.rows in
      let batch = take 64 ahead in
      let t = consume_all callback batch start in
      let split : after s.cursor w.owed ≡ batch ++ drop 64 ahead =
        sym g.kept ∙ sym (take-drop 64 ahead) in
      let moved : Advanced wanted w.owed (drop 64 ahead) start t =
        consume_all-Advanced callback wanted w.owed g.ascending batch (drop 64 ahead) start g.filter
          split g.current in
      let below : All (λ (event : HealthEvent). event.seq ≤ w.journal.sequence) ahead =
        subst
          (λ (es : List HealthEvent).
            All (λ (event : HealthEvent). event.seq ≤ w.journal.sequence) es)
          (sym g.kept) (All-after w.journal.sequence s.cursor w.owed g.below) in
      let key : cursor_or_zero t.consumer w.journal ≡ cursor_or_zero s.consumer w.journal =
        ap (λ c. cursor_or_zero c w.journal) moved.0.0 in
      record {
        ascending = g.ascending;
        below = g.below;
        known =
            consume_all-bounded callback w.journal.sequence batch start
              (All-take w.journal.sequence 64 ahead below) g.known;
        kept =
            sym (after_twice s.cursor t.cursor w.journal.rows moved.3)
            ∙ ap (after t.cursor) g.kept
            ∙ after_twice s.cursor t.cursor w.owed moved.3;
        stored = omega (arith, g.stored, key, moved.3);
        pending = omega (arith, g.pending, moved.3, moved.4);
        filter = event_matches-SameFilter start t moved.0 ∙ g.filter;
        current = moved.1;
      }

  Good-read :
      (w : World) (store_fails : Bool)
      → Good wanted w
      → Good wanted (record w {
        subscription = (read_journal callback store_fails w.journal w.subscription).0;
      })
  unfolding read_journal
  Good-read w store_fails g =
      let s = w.subscription in
      let P : Subscription × Bool → Type 0 = λ p. Good wanted (record w { subscription = p.0 }) in
      let events = list_events_after s.cursor read_batch w.journal in
      let t = consume_all callback events (record s { dirty = false }) in
      if_cases P (s.closed || (not s.dirty || s.cursor_blocked)) _ _ (λ _. g)
        (λ _.
          if_cases P store_fails _ _
            (λ _.
              Good-Unmoved callback exists wanted w _ g
                ((refl, refl, refl, refl), refl, omega arith, refl))
            (λ _.
              if_cases P (nat_eq (length events) 64) _ _
                (λ _.
                  Good-Unmoved callback exists wanted (record w { subscription = t })
                    (record t { dirty = true }) (Good-batch w g)
                    ((refl, refl, refl, refl), refl, omega arith, refl))
                (λ _. Good-batch w g)))

  advance-rows :
      (consumer : String) (seq : ℕ) (states : List GroupNodeState) (j : Journal)
      → let k = advance_cursor_with_state exists consumer seq states j in
        (k.rows ≡ j.rows)
        × (k.sequence ≡ j.sequence)
        × (cursor_or_zero consumer k ≤ max (cursor_or_zero consumer j) seq)
  unfolding advance_cursor_with_state cursor_or_zero
  advance-rows consumer seq states j =
      let written = record j { states = upsert_states exists states j.states } in
      let P : Journal → Type 0 = λ k.
        (k.rows ≡ j.rows)
        × (k.sequence ≡ j.sequence)
        × (cursor_or_zero consumer k ≤ max (cursor_or_zero consumer j) seq) in
      if_cases P (consumer == "" || nat_eq seq 0) written (put_cursor consumer seq written)
        (λ _. (refl, refl, omega arith))
        (λ _. (
          unfold put_cursor in refl,
          unfold put_cursor in refl,
          omega (arith, put_cursor-cursor_or_zero consumer seq written),
        ))

  Good-flush :
      (w : World) (store_fails : Bool)
      → Good wanted w
      → Good wanted (flush_world callback exists store_fails w)
  unfolding flush_world flush_cursor
  Good-flush w store_fails g =
      let s = w.subscription in
      let P : Journal × Subscription × Bool → Type 0 =
        λ p. Good wanted (record w { journal = p.0; subscription = p.1 }) in
      let j =
        advance_cursor_with_state exists s.consumer s.pending_cursor s.pending_states w.journal in
      let (rows, sequence, stored) =
        advance-rows s.consumer s.pending_cursor s.pending_states w.journal in
      let failed = record s {
        pending_states = restore_states s.pending_states [];
        cursor_failures = s.cursor_failures + 1;
        cursor_blocked = true;
      } in
      let written = record s { pending_states = []; pending_cursor = 0; cursor_blocked = false } in
      let idle =
        s.closed
        || (s.consumer == ""
            || (nat_eq s.pending_cursor 0 && nat_eq (length s.pending_states) 0)) in
      if_cases P idle (w.journal, s, false)
        (if store_fails then (w.journal, failed, false) else (j, written, true)) (λ _. g)
        (λ _.
          if_cases P store_fails (w.journal, failed, false) (j, written, true)
            (λ _.
              Good-Unmoved callback exists wanted w failed g
                ((refl, refl, refl, refl), refl, omega arith, refl))
            (λ _.
              Good-Unmoved callback exists wanted (record w { journal = j }) written
                (Good-journal callback exists wanted w j g sequence (ap (after s.cursor) rows)
                  (omega (arith, stored, g.stored, g.pending)))
                ((refl, refl, refl, refl), refl, omega arith, refl)))

  pub Good-Step : {v w : World} → Step callback exists v w → Good wanted v → Good wanted w
  unfolding append_event prune_events
  Good-Step {v = v} (appended now seq event j e) g =
      elim (Bool-cases (leb journal_limit (length v.journal.rows))) [
        | inl full ↦ absurd (ground (arith, rw full at e))
        | inr room ↦
            let row = row_of now event v.journal in
            let stored : Journal = record v.journal {
              rows = v.journal.rows ++ row ∷ [];
              sequence = v.journal.sequence + 1;
            } in
            let same : stored ≡ j = ground (arith, rw room at e) in
            subst
              (λ (k : Journal). Good wanted (record v { journal = k; owed = v.owed ++ row ∷ [] }))
              same (Good-row callback exists wanted v row g refl)
      ]
  Good-Step {v = v} (noticed notice) g =
      Good-Unmoved callback exists wanted v _ g (notify-Unmoved callback notice v.subscription)
  Good-Step {v = v} took_inline g =
      Good-Unmoved callback exists wanted v _ g (deliver_inline-Unmoved callback v.subscription)
  Good-Step {v = v} took_refresh g =
      Good-Unmoved callback exists wanted v _ g (take_refresh-Unmoved callback v.subscription)
  Good-Step {v = v} (read store_fails) g = Good-read v store_fails g
  Good-Step {v = v} (flushed store_fails) g = Good-flush v store_fails g
  Good-Step {v = v} (pruned older_than active h) g =
      Good-journal callback exists wanted v (prune_events older_than active v.journal) g refl
        (prune_events-later older_than active v.subscription.consumer v.subscription.cursor
          v.journal h g.stored)
        (unfold cursor_or_zero in g.stored)
  Good-Step {v = v} closed g =
      Good-Unmoved callback exists wanted v _ g ((refl, refl, refl, refl), refl, omega arith, refl)

  pub Good-Run : {v w : World} → Run callback exists v w → Good wanted v → Good wanted w
  Good-Run done g = g
  Good-Run (next step run) g = Good-Run run (Good-Step step g)
