-- ===== src/Location/Stability.antt =====
-- When an accepted landing location changes.

-- An observation of a probe other than the last one, decided on the present evidence.

use easy_proxies_v.Base.{
  ==_iff, String_eq, ap, arith, false, if◌then◌else◌, leb, not, sym, true, ◌+◌, ◌<◌, ◌==◌, ◌∙◌, ◌≡◌,
}
use easy_proxies_v.Location.Debounce.{IsCurrent, decide_current}
use easy_proxies_v.Location.Decide.{
  Change, Evidence, Library, Location, Observation, State, apply, classify, decide, is_success,
  legacy, manual, named_location, no_location, replay, source_eq, source_priority, weigh,
}

pub decide-fresh :
    (lib : Library) (s : State) (obs : Observation)
    → IsCurrent s obs
    → (obs.probe_id == s.last_probe_id) ≡ false
    → decide lib s obs ≡ apply lib s obs (is_success lib obs) s.evidence
decide-fresh lib s obs c fresh = decide_current lib s obs c ∙ ground (arith, fresh)

-- Two classifications of one new probe, the second of higher priority: deciding both leaves the
-- state that deciding the second alone leaves, so the probe counts once.
pub decide-reclassified :
    (lib : Library) (s : State) (a b : Observation)
    → IsCurrent s a
    → IsCurrent s b
    → (a.probe_id == s.last_probe_id) ≡ false
    → b.probe_id ≡ a.probe_id
    → b.started_at ≡ a.started_at
    → source_priority a.source < source_priority b.source
    → (decide lib (decide lib s a).0 b).0 ≡ (decide lib s b).0
unfolding apply replay
decide-reclassified lib s a b ca cb fresh probe started higher =
    let s' = (apply lib s a (is_success lib a) s.evidence).0 in
    let first = decide-fresh lib s a ca fresh in
    let cb' : IsCurrent s' b = record {
      named = cb.named;
      identity = cb.identity;
      revision = cb.revision;
      probed = cb.probed;
      started = cb.started;
      finished = cb.finished;
      ranked = cb.ranked;
      in_order = omega (arith, started);
    } in
    let fresh_b : (b.probe_id == s.last_probe_id) ≡ false = rw probe fresh in
    ap (λ (d : State × Change). (decide lib d.0 b).0) first
    ∙ ap (λ (d : State × Change). d.0) (decide_current lib s' b cb')
    ∙ ground (arith, ==_iff b.probe_id a.probe_id, probe, started, higher)
    ∙ sym (ap (λ (d : State × Change). d.0) (decide-fresh lib s b cb fresh_b))

-- A known location that is neither legacy nor set by hand, and no better evidence than a probe.
pub record IsSettled (s : State) : Type 0 where
  pub known : s.evidence.current.known ≡ true
  pub verified : source_eq s.evidence.current.source legacy ≡ false
  pub automatic : source_eq s.evidence.current.source manual ≡ false

-- A successful observation by a probe, of a country other than the current one.
pub record Contradicts (lib : Library) (s : State) (obs : Observation) : Type 0 where
  pub current : IsCurrent s obs
  pub fresh : (obs.probe_id == s.last_probe_id) ≡ false
  pub automatic : source_eq obs.source manual ≡ false
  pub success : is_success lib obs ≡ true
  pub elsewhere : (lib.normalize obs.iso == s.evidence.current.iso) ≡ false

-- What an observation that contradicts a settled location leaves, by the number of confirmations.
Contradicts-eq :
    (lib : Library) (s : State) (obs : Observation)
    → IsSettled s
    → Contradicts lib s obs
    → (decide lib s obs).0.evidence ≡ (
        let next = named_location lib s.evidence obs in
        let n =
          (if not (lib.normalize obs.iso == s.evidence.candidate.iso)
            then 0
            else s.evidence.confirmations)
          + 1 in
        if leb 2 n
        then record { current = next; candidate = no_location; confirmations = 0 }
        else record { current = s.evidence.current; candidate = next; confirmations = n })
unfolding apply weigh classify named_location
Contradicts-eq lib s obs settled c =
    ap (λ (d : State × Change). d.0.evidence) (decide-fresh lib s obs c.current c.fresh)
    ∙ ground (arith, settled, c.automatic, c.success, c.elsewhere)

-- A new probe that fails, or that no country can be read from, keeps the location and
-- starts the confirmations over.
decide-failed :
    (lib : Library) (s : State) (obs : Observation)
    → IsCurrent s obs
    → (obs.probe_id == s.last_probe_id) ≡ false
    → is_success lib obs ≡ false
    → let e = (decide lib s obs).0.evidence in
      (e.current ≡ s.evidence.current) × (e.confirmations ≡ 0)
unfolding apply weigh
decide-failed lib s obs c fresh failed =
    let e = ap (λ (d : State × Change). d.0.evidence) (decide-fresh lib s obs c fresh) in
    (
      ap (λ (v : Evidence). v.current) e ∙ ground (arith, failed),
      ap (λ (v : Evidence). v.confirmations) e ∙ ground (arith, failed),
    )

-- The first contradiction of a settled location waits.
first_waits :
    (lib : Library) (s : State) (a : Observation)
    → IsSettled s
    → Contradicts lib s a
    → (lib.normalize a.iso == s.evidence.candidate.iso) ≡ false
    → (decide lib s a).0.evidence ≡ record {
      current = s.evidence.current;
      candidate = named_location lib s.evidence a;
      confirmations = 1;
    }
first_waits lib s a settled c new = Contradicts-eq lib s a settled c ∙ ground (arith, new)

-- Two probes in a row contradict a settled location. The first leaves it in place; the second
-- moves it if it names the country of the first, and leaves it in place if it names a third.
pub decide-confirms :
    (lib : Library) (s : State) (a b : Observation)
    → IsSettled s
    → Contradicts lib s a
    → (lib.normalize a.iso == s.evidence.candidate.iso) ≡ false
    → Contradicts lib (decide lib s a).0 b
    → let s1 = (decide lib s a).0 in
      let s2 = (decide lib s1 b).0 in
      (s1.evidence.current ≡ s.evidence.current)
      × (s2.evidence.current ≡ (
          if lib.normalize b.iso == lib.normalize a.iso
          then named_location lib s1.evidence b
          else s.evidence.current))
unfolding named_location
decide-confirms lib s a b settled ca new cb =
    let s1 = (decide lib s a).0 in
    let first = first_waits lib s a settled ca new in
    let kept : s1.evidence.current ≡ s.evidence.current = ap (λ (e : Evidence). e.current) first in
    let settled1 : IsSettled s1 = record {
      known = rw kept settled.known;
      verified = rw kept settled.verified;
      automatic = rw kept settled.automatic;
    } in
    (
      kept,
      ap (λ (e : Evidence). e.current) (Contradicts-eq lib s1 b settled1 cb)
          ∙ ground (arith, first),
    )

-- A node of unknown location: one classification of a probe is accepted, and a failed
-- classification of the same probe, of higher priority, makes the location unknown again.
pub decide-reclassified_erases :
    (lib : Library) (s : State) (a b : Observation)
    → s.evidence.current.known ≡ false
    → source_eq s.evidence.current.source manual ≡ false
    → IsCurrent s a
    → is_success lib a ≡ true
    → IsCurrent s b
    → is_success lib b ≡ false
    → (a.probe_id == s.last_probe_id) ≡ false
    → b.probe_id ≡ a.probe_id
    → b.started_at ≡ a.started_at
    → source_priority a.source < source_priority b.source
    → ((decide lib s a).0.evidence.current.known ≡ true)
      × ((decide lib (decide lib s a).0 b).0.evidence.current.known ≡ false)
unfolding apply weigh classify named_location
decide-reclassified_erases lib s a b unknown automatic ca sa cb fb fresh probe started higher =
    let fresh_b : (b.probe_id == s.last_probe_id) ≡ false = rw probe fresh in
    (
      ap (λ (d : State × Change). d.0.evidence.current.known) (decide-fresh lib s a ca fresh)
          ∙ ground (arith, unknown, automatic, sa),
      ap (λ (t : State). t.evidence.current.known)
            (decide-reclassified lib s a b ca cb fresh probe started higher)
          ∙ ap (λ (l : Location). l.known) (decide-failed lib s b cb fresh_b fb).0
          ∙ unknown,
    )
