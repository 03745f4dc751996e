-- ===== src/Location/Debounce.antt =====
-- What a sequence of observations does to the landing location.

-- The guards of `decide` in order, for an observation that is neither stale nor malformed.

use easy_proxies_v.Base.{
  ==_iff, String_eq, ap, arith, false, if_cases, if◌then◌else◌, inl, inr, ltb, not, refl, sym, ℕ_eq,
  ◌&&◌, ◌==◌, ◌||◌, ◌∙◌, ◌≡◌, ◌≤◌, ◌⊎◌,
}
use easy_proxies_v.Location.Decide.{
  Change, Evidence, Library, Observation, State, apply, decide, is_success, replay, source_priority,
}

pub record IsCurrent (s : State) (obs : Observation) : Type 0 where
  pub named : (obs.token.identity == "") ≡ false
  pub identity : obs.token.identity ≡ s.token.identity
  pub revision : obs.token.revision ≡ s.token.revision
  pub probed : (obs.probe_id == "") ≡ false
  pub started : (obs.started_at == 0) ≡ false
  pub finished : obs.started_at ≤ obs.checked_at
  pub ranked : (source_priority obs.source == 0) ≡ false
  pub in_order : s.last_started_at ≤ obs.started_at

-- A current observation gets past the guards.
pub decide_current :
    (lib : Library) (s : State) (obs : Observation)
    → IsCurrent s obs
    → decide lib s obs ≡ (
        if obs.probe_id == s.last_probe_id
        then replay lib s obs (is_success lib obs)
        else apply lib s obs (is_success lib obs) s.evidence)
unfolding decide
decide_current lib s obs c = ground (
  arith,
  c,
  ==_iff obs.token.identity s.token.identity,
  ==_iff obs.token.revision s.token.revision,
)

-- A decision rejects the observation, or applies it to one of two bases.
abbrev Outcome : Library → State → Observation → State × Change → Type 0
Outcome lib s obs d =
    ((d.0 ≡ s) × (d.1.applied ≡ false))
    ⊎ (IsCurrent s obs
        × ((base : Evidence) × ((base ≡ s.evidence)
              ⊎ ((base ≡ s.before_probe) × (obs.probe_id ≡ s.last_probe_id)))
            × (d ≡ apply lib s obs (is_success lib obs) base)))

replay-Outcome :
    (lib : Library) (s : State) (obs : Observation)
    → IsCurrent s obs
    → obs.probe_id ≡ s.last_probe_id
    → Outcome lib s obs (replay lib s obs (is_success lib obs))
unfolding replay
replay-Outcome lib s obs c same =
    if_cases (Outcome lib s obs) (not (obs.started_at == s.last_started_at)) _ _
      (λ _. inl (refl, refl))
      (λ _.
        if_cases (Outcome lib s obs)
          (ltb (source_priority obs.source) (source_priority s.last_source)
            || (source_priority obs.source == source_priority s.last_source
                && (s.last_succeeded || not (is_success lib obs))))
          _ _ (λ _. inl (refl, refl)) (λ _. inr (c, (s.before_probe, inr (refl, same), refl))))

decide-Outcome :
    (lib : Library) (s : State) (obs : Observation) → Outcome lib s obs (decide lib s obs)
unfolding decide
decide-Outcome lib s obs =
    if_cases (Outcome lib s obs)
      (obs.token.identity == ""
        || (not (obs.token.identity == s.token.identity)
            || not (obs.token.revision == s.token.revision)))
      _ _ (λ _. inl (refl, refl))
      (λ token.
        if_cases (Outcome lib s obs)
          (obs.probe_id == "" || (obs.started_at == 0 || ltb obs.checked_at obs.started_at)) _ _
          (λ _. inl (refl, refl))
          (λ valid.
            if_cases (Outcome lib s obs) (source_priority obs.source == 0) _ _
              (λ _. inl (refl, refl))
              (λ ranked.
                if_cases (Outcome lib s obs) (ltb obs.started_at s.last_started_at) _ _
                  (λ _. inl (refl, refl))
                  (λ in_order.
                    let c = current token valid ranked in_order in
                    if_cases (Outcome lib s obs) (obs.probe_id == s.last_probe_id) _ _
                      (λ same.
                        replay-Outcome lib s obs c ((==_iff obs.probe_id s.last_probe_id).0 same))
                      (λ _. inr (c, (s.evidence, inl refl, refl)))))))
  where
    current :
        (obs.token.identity == ""
            || (not (obs.token.identity == s.token.identity)
                || not (obs.token.revision == s.token.revision)))
          ≡ false
        → (obs.probe_id == "" || (obs.started_at == 0 || ltb obs.checked_at obs.started_at)) ≡ false
        → (source_priority obs.source == 0) ≡ false
        → ltb obs.started_at s.last_started_at ≡ false
        → IsCurrent s obs
    current token valid ranked in_order = record {
      named = ground (arith, token);
      identity = ground (arith, token, ==_iff obs.token.identity s.token.identity);
      revision = ground (arith, token);
      probed = ground (arith, valid);
      started = ground (arith, valid);
      finished = ground (arith, valid);
      ranked = ranked;
      in_order = ground (arith, in_order);
    }

-- The state that an applied observation leaves.
apply-IsCurrent :
    (lib : Library) (s : State) (obs : Observation) (base : Evidence)
    → IsCurrent s obs
    → IsCurrent (apply lib s obs (is_success lib obs) base).0 obs
unfolding apply
apply-IsCurrent lib s obs base c = record {
  named = c.named;
  identity = c.identity;
  revision = c.revision;
  probed = c.probed;
  started = c.started;
  finished = c.finished;
  ranked = c.ranked;
  in_order = omega arith;
}

apply_again :
    (lib : Library) (s : State) (obs : Observation) (base : Evidence)
    → IsCurrent s obs
    → let s' = (apply lib s obs (is_success lib obs) base).0 in (decide lib s' obs).0 ≡ s'
unfolding apply replay
apply_again lib s obs base c =
    let s' = (apply lib s obs (is_success lib obs) base).0 in
    ap (λ (d : State × Change). d.0) (decide_current lib s' obs (apply-IsCurrent lib s obs base c))
    ∙ ground (arith, ==_iff obs.probe_id obs.probe_id)

-- Deciding the same observation again changes nothing, whatever the first decision was.
pub decide-again :
    (lib : Library) (s : State) (obs : Observation)
    → (decide lib (decide lib s obs).0 obs).0 ≡ (decide lib s obs).0
decide-again lib s obs = elim (decide-Outcome lib s obs) [
  | inl (same, _) ↦ ap (λ t. (decide lib t obs).0) same
  | inr (c, (base, _, e)) ↦
      let first = ap (λ (d : State × Change). d.0) e in
      ap (λ t. (decide lib t obs).0) first ∙ apply_again lib s obs base c ∙ sym first
]
