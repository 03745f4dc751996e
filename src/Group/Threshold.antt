-- ===== src/Group/Threshold.antt =====
-- Which failure evicts a live member.

-- A member in service, with the failures that its group remembers of it.

use mathlib.Core.List.{append_assoc, append-nil}
use easy_proxies_v.Base.{
  All, Bool, List, Option, String, String_eq, [], arith, false, if◌then◌else◌, insert, leb, length,
  length-append, lookup, refl, some, subst, suc, sym, true, ℕ, ℕ_eq, ◌++◌, ◌+◌, ◌-◌, ◌<◌, ◌==◌, ◌∙◌,
  ◌∷◌, ◌≡◌, ◌≤◌,
}
use easy_proxies_v.Group.Banned.{is_banned, propagate_eviction-banned}
use easy_proxies_v.Group.Failure.{
  announce_failure, count_failure, counted_member, fail_member, record_failure, trips,
}
use easy_proxies_v.Group.Member.{ends_at, since}
use easy_proxies_v.Group.Recovery.{put_member-lookup}
use easy_proxies_v.Group.State.{Member, Runtime, World, unix}

pub record Counting (group : ℕ) (tag : String) (threshold window : ℕ) (history : List ℕ) (w : World)
    : Type 0 where
  pub runtime : Runtime
  pub member : Member
  pub in_world : lookup group w.groups ≡ some runtime
  pub in_group : lookup tag runtime.members ≡ some member
  pub live : member.evicted ≡ false
  pub recorded : member.failure_history ≡ history
  pub limit : runtime.threshold ≡ threshold
  pub span : runtime.window ≡ window

since-All :
    (cutoff : ℕ) (history : List ℕ)
    → All (λ (s : ℕ). cutoff ≤ s) history
    → since cutoff history ≡ history
since-All cutoff [] h = refl
since-All cutoff (s ∷ rest) h =
    let here : leb cutoff s ≡ true = let le = h.0 in ground arith in
    rw (here, since-All cutoff rest h.1)

module _ (group : ℕ) (tag : String) (threshold window : ℕ) where
  -- A failure that the window and the rule on one second both count.
  abbrev pub Counts : ℕ → List ℕ → Type 0
  Counts at history =
      All (λ (s : ℕ). unix (at - window) ≤ s) history × (ends_at (unix at) history ≡ false)

  record_failure-eq :
      (now : ℕ) (cause : Option String) (at : ℕ) (history : List ℕ) (w : World)
      (c : Counting group tag threshold window history w)
      → Counts at history
      → record_failure now group tag cause at w
        ≡ count_failure now group c.runtime tag c.member history cause at w
  unfolding record_failure fail_member
  record_failure-eq now cause at history w c counts =
      let kept : since (unix (at - c.runtime.window)) c.member.failure_history ≡ history =
        rw (c.recorded, c.span) (since-All (unix (at - window)) history counts.0) in
      rw (record_failure, c.in_world, c.in_group, c.live) (rw (kept, counts.1))

  count_failure-below :
      (now : ℕ) (cause : Option String) (at : ℕ) (history : List ℕ) (w : World)
      (c : Counting group tag threshold window history w)
      → suc (length history) < threshold
      → count_failure now group c.runtime tag c.member history cause at w ≡ (
        announce_failure group c.runtime tag
            (counted_member c.runtime c.member history cause at (w.clock + 1))
            w,
        false,
      )
  unfolding count_failure counted_member
  count_failure-below now cause at history w c below =
      let waits : trips c.runtime history at ≡ false =
        rw (c.limit, length-append history (unix at ∷ [])) (ground arith) in
      rw (waits, c.live)

  counted-Counting :
      (cause : Option String) (at : ℕ) (history : List ℕ) (w : World)
      (c : Counting group tag threshold window history w)
      → suc (length history) < threshold
      → Counting group tag threshold window (history ++ unix at ∷ []) (
          announce_failure group c.runtime tag
            (counted_member c.runtime c.member history cause at (w.clock + 1))
            w)
  unfolding announce_failure counted_member
  counted-Counting cause at history w c below =
      let r = c.runtime in
      let counted = counted_member r c.member history cause at (w.clock + 1) in
      let r' = record r { current_tag = if r.current_tag == tag then "" else r.current_tag } in
      let (there, here) =
        put_member-lookup group r' tag counted (record w { clock = counted.revision }) in
      let waits : trips r history at ≡ false =
        rw (c.limit, length-append history (unix at ∷ [])) (ground arith) in
      record {
        runtime = record r' { members = insert tag counted r.members };
        member = counted;
        in_world = there;
        in_group = here;
        live = rw waits c.live;
        recorded = refl;
        limit = c.limit;
        span = c.span;
      }

  -- The member is stored as evicted, and the report says so.
  abbrev pub IsOut : World × Bool → Type 0
  IsOut p = (p.1 ≡ true) × (is_banned group tag p.0.groups ≡ true)

  record_failure-last :
      (now : ℕ) (cause : Option String) (at : ℕ) (history : List ℕ) (w : World)
      (c : Counting group tag threshold window history w)
      → threshold ≤ suc (length history)
      → IsOut (count_failure now group c.runtime tag c.member history cause at w)
  unfolding count_failure counted_member announce_failure
  record_failure-last now cause at history w c enough =
      let r = c.runtime in
      let trip : trips r history at ≡ true =
        rw (c.limit, length-append history (unix at ∷ [])) (ground arith) in
      let counted = counted_member r c.member history cause at (w.clock + 1) in
      let r' = record r { current_tag = if r.current_tag == tag then "" else r.current_tag } in
      let (there, here) =
        put_member-lookup group r' tag counted (record w { clock = counted.revision }) in
      let stored : is_banned group tag (announce_failure group r tag counted w).groups ≡ true =
        rw (there, here) (rw trip refl) in
      rw trip
        (refl, propagate_eviction-banned group tag now c.member.node_id _ _ _ (rw trip at stored))

  -- The reports of failures of the member, in order; each is dated.
  unfoldable pub report : List (ℕ × Option String × ℕ) → World → World
  report [] w = w
  report ((now, cause, at) ∷ rest) w = report rest (record_failure now group tag cause at w).0

  abbrev pub seconds : List (ℕ × Option String × ℕ) → List ℕ
  seconds [] = []
  seconds ((now, cause, at) ∷ rest) = unix at ∷ seconds rest

  -- Each report counts beside the ones before it.
  abbrev pub AllCount : List (ℕ × Option String × ℕ) → List ℕ → Type 0
  AllCount [] history = Unit
  AllCount ((now, cause, at) ∷ rest) history =
      Counts at history × AllCount rest (history ++ unix at ∷ [])

  -- A member in service with some failures, and reports of further ones that each fall into
  -- another second and into the window of the later ones: the member stays in service, with every
  -- failure recorded, until the threshold is reached, and after the report that reaches it the member
  -- is stored as evicted.
  pub report-evicts :
      (reports : List (ℕ × Option String × ℕ)) (now : ℕ) (cause : Option String) (at : ℕ)
      (history : List ℕ) (w : World)
      → suc (length history + length reports) ≡ threshold
      → Counting group tag threshold window history w
      → AllCount (reports ++ (now, cause, at) ∷ []) history
      → Counting group tag threshold window (history ++ seconds reports) (report reports w)
        × IsOut (record_failure now group tag cause at (report reports w))
  unfolding report
  report-evicts [] now cause at history w enough c all = (
    rw (append-nil history) c,
    subst IsOut (sym (record_failure-eq now cause at history w c all.0))
        (record_failure-last now cause at history w c (omega arith)),
  )
  report-evicts ((now', cause', at') ∷ rest) now cause at history w enough c all =
      let step =
        record_failure-eq now' cause' at' history w c all.0
        ∙ count_failure-below now' cause' at' history w c (omega arith) in
      let next : Counting group tag threshold window (history ++ unix at' ∷ [])
          (record_failure now' group tag cause' at' w).0 =
        rw step (counted-Counting cause' at' history w c (omega arith)) in
      let (waits, evicts) =
        report-evicts rest now cause at (history ++ unix at' ∷ []) _
          (omega (arith, length-append history (unix at' ∷ []))) next all.1 in
      (rw⁻¹ (append_assoc history (unix at' ∷ []) (seconds rest)) waits, evicts)
