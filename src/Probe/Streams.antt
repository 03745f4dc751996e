-- ===== src/Probe/Streams.antt =====
-- What a valid measurement event may write, over internal/probe/applier.go.

use easy_proxies_v.Base.{
  ==_iff, Bool-cases, Option, Option-cases, String, String_eq, arith, false, if_cases,
  if◌then◌else◌, inl, inr, ltb, ltb_ℤ, nat_eq, none, not, pos, refl, some, subst, true, ℕ_eq, ℤ_eq,
  ◌&&◌, ◌+◌, ◌==◌, ◌||◌, ◌≡◌, ◌⊎◌,
}
use easy_proxies_v.Probe.Event.{
  Detection, Invalid, Kind, Origin, Result, check_detection, check_payload, health, health_probe,
  is_health_probe, is_origin, kind_eq, landing, latency, manual_diagnostic, may_publish, other_kind,
  other_origin, payloads, present, quality, speed, startup_exit, unlock, unlock_check, untouched,
  validate, writes_other,
}

may_publish-other :
    (o : Origin) (k : Kind)
    → kind_eq k health ≡ false
    → may_publish o k ≡ true
    → is_health_probe o ≡ false
unfolding may_publish
may_publish-other health_probe k other may = absurd (ground (arith, other, may))
may_publish-other manual_diagnostic k other may = refl
may_publish-other startup_exit k other may = refl
may_publish-other unlock_check k other may = refl
may_publish-other (other_origin _) k other may = refl

-- A column that a detection does not write.
abbrev pub IsUnset : String → Type 0
IsUnset status = (status ≡ "") ⊎ (status ≡ "untested")

kind-latency : (k : Kind) → kind_eq k latency ≡ true → k ≡ latency
kind-latency latency h = refl
kind-latency speed h = absurd (ground (arith, h))
kind-latency landing h = absurd (ground (arith, h))
kind-latency quality h = absurd (ground (arith, h))
kind-latency unlock h = absurd (ground (arith, h))
kind-latency health h = absurd (ground (arith, h))
kind-latency (other_kind k) h = absurd (ground (arith, h))

kind-speed : (k : Kind) → kind_eq k speed ≡ true → k ≡ speed
kind-speed speed h = refl
kind-speed latency h = absurd (ground (arith, h))
kind-speed landing h = absurd (ground (arith, h))
kind-speed quality h = absurd (ground (arith, h))
kind-speed unlock h = absurd (ground (arith, h))
kind-speed health h = absurd (ground (arith, h))
kind-speed (other_kind k) h = absurd (ground (arith, h))

kind-landing : (k : Kind) → kind_eq k landing ≡ true → k ≡ landing
kind-landing landing h = refl
kind-landing latency h = absurd (ground (arith, h))
kind-landing speed h = absurd (ground (arith, h))
kind-landing quality h = absurd (ground (arith, h))
kind-landing unlock h = absurd (ground (arith, h))
kind-landing health h = absurd (ground (arith, h))
kind-landing (other_kind k) h = absurd (ground (arith, h))

untouched-IsUnset : (status : String) → untouched status ≡ true → IsUnset status
untouched-IsUnset status h = elim (Bool-cases (status == "")) [
  | inl e ↦ inl ((==_iff status "").0 e)
  | inr e ↦ inr ((==_iff status "untested").0 (ground (arith, h, e)))
]

column :
    (kind own : Kind) (status : String)
    → ((k : Kind) → kind_eq k own ≡ true → k ≡ own)
    → (not (kind_eq kind own) && not (untouched status)) ≡ false
    → (kind ≡ own) ⊎ IsUnset status
column kind own status same h = elim (Bool-cases (kind_eq kind own)) [
  | inl e ↦ inl (same kind e)
  | inr e ↦ inr (untouched-IsUnset status (ground (arith, h, e)))
]

module _ (trim_space : String → String) where
  validate-inv :
      (r : Result)
      → validate trim_space r ≡ none
      → (may_publish r.origin r.kind ≡ true)
        × (payloads r ≡ 1)
        × (check_payload trim_space r r.kind ≡ none)
  unfolding validate
  validate-inv r h =
      let o = r.observation in
      let P : Option Invalid → Type 0 = λ e.
        e ≡ none
        → (may_publish r.origin r.kind ≡ true)
          × (payloads r ≡ 1)
          × (check_payload trim_space r r.kind ≡ none) in
      if_cases P
        (not (ltb_ℤ (pos 0) r.node_id)
          || o.identity == ""
          || not (ltb_ℤ (pos 0) o.revision)
          || o.probe_id == ""
          || o.started_at == 0
          || ltb o.checked_at o.started_at)
        _ _ (λ _ e. absurd (ground (arith, e)))
        (λ _.
          if_cases P (not (is_origin r.origin)) _ _ (λ _ e. absurd (ground (arith, e)))
            (λ _.
              if_cases P (not (may_publish r.origin r.kind)) _ _ (λ _ e. absurd (ground (arith, e)))
                (λ may.
                  if_cases P (not (nat_eq (payloads r) 1)) _ _ (λ _ e. absurd (ground (arith, e)))
                    (λ one e. (ground (arith, may), ground (arith, one), e)))))
        h

  check_payload-health :
      (r : Result) (kind : Kind)
      → check_payload trim_space r kind ≡ none
      → may_publish r.origin kind ≡ true
      → is_health_probe r.origin ≡ kind_eq kind health
  unfolding check_payload may_publish
  check_payload-health r health h may = elim (Option-cases r.health) [
    | inl none_there ↦ absurd (ground (arith, h, none_there))
    | inr (tag, there) ↦ ground (arith, h, there)
  ]
  check_payload-health r latency h may = may_publish-other r.origin latency refl may
  check_payload-health r speed h may = may_publish-other r.origin speed refl may
  check_payload-health r landing h may = may_publish-other r.origin landing refl may
  check_payload-health r quality h may = may_publish-other r.origin quality refl may
  check_payload-health r unlock h may = may_publish-other r.origin unlock refl may
  check_payload-health r (other_kind k) h may = may_publish-other r.origin (other_kind k) refl may

  alone_detection :
      (r : Result) → check_detection r r.detection ≡ none → payloads r ≡ 1 → present r.health ≡ 0
  unfolding check_detection payloads
  alone_detection r h one = elim (Option-cases r.detection) [
    | inl e ↦ absurd (ground (arith, rw e at h))
    | inr (d, e) ↦ let sum = one in omega (arith, rw e at sum)
  ]

  check_payload-has_health :
      (r : Result) (kind : Kind)
      → check_payload trim_space r kind ≡ none
      → payloads r ≡ 1
      → present r.health ≡ (if kind_eq kind health then 1 else 0)
  unfolding check_payload payloads check_detection
  check_payload-has_health r health h one = elim (Option-cases r.health) [
    | inl e ↦ absurd (ground (arith, h, e))
    | inr (tag, e) ↦ rw e refl
  ]
  check_payload-has_health r latency h one = alone_detection r h one
  check_payload-has_health r speed h one = alone_detection r h one
  check_payload-has_health r landing h one = alone_detection r h one
  check_payload-has_health r quality h one = elim (Option-cases r.quality) [
    | inl e ↦ absurd (ground (arith, h, e))
    | inr (q, e) ↦ let one' = one in ground (arith, rw e at one')
  ]
  check_payload-has_health r unlock h one = elim (Option-cases r.unlock) [
    | inl e ↦ absurd (ground (arith, h, e))
    | inr (u, e) ↦ let one' = one in ground (arith, rw e at one')
  ]
  check_payload-has_health r (other_kind k) h one = absurd (ground (arith, h))

  -- A valid event carries a health payload exactly when its origin is the health probe and exactly
  -- when its kind is health, and it carries one payload in all: no diagnostic, start-up probe or
  -- unlock check can change the health of a node, and the health probe writes nothing else.
  pub validate-health :
      (r : Result)
      → validate trim_space r ≡ none
      → (is_health_probe r.origin ≡ kind_eq r.kind health)
        × (present r.health ≡ (if is_health_probe r.origin then 1 else 0))
        × (present r.detection + present r.quality + present r.unlock + present r.health ≡ 1)
  unfolding payloads
  validate-health r h =
      let (may, one, valid) = validate-inv r h in
      let same = check_payload-health r r.kind valid may in
      (same, rw same (check_payload-has_health r r.kind valid one), one)

  check_detection-own :
      (r : Result) (d : Detection)
      → check_detection r (some d) ≡ none
      → (d.node_id ≡ r.node_id) × (writes_other r.kind d ≡ false)
  unfolding check_detection
  check_detection-own r d h =
      ((==_iff d.node_id r.node_id).0 (ground (arith, h)), ground (arith, h))

  check_payload-detection :
      (r : Result) (d : Detection)
      → (kind : Kind) → check_payload trim_space r kind ≡ none
      → r.detection ≡ some d
      → payloads r ≡ 1
      → check_detection r (some d) ≡ none
  unfolding check_payload payloads
  check_payload-detection r d latency h e one =
      subst (λ (o : Option Detection). check_detection r o ≡ none) e h
  check_payload-detection r d speed h e one =
      subst (λ (o : Option Detection). check_detection r o ≡ none) e h
  check_payload-detection r d landing h e one =
      subst (λ (o : Option Detection). check_detection r o ≡ none) e h
  check_payload-detection r d health h e one = elim (Option-cases r.health) [
    | inl gone ↦ absurd (ground (arith, h, gone))
    | inr (tag, there) ↦ absurd (ground (arith, one, e, there))
  ]
  check_payload-detection r d quality h e one = elim (Option-cases r.quality) [
    | inl gone ↦ absurd (ground (arith, h, gone))
    | inr (q, there) ↦ absurd (ground (arith, one, e, there))
  ]
  check_payload-detection r d unlock h e one = elim (Option-cases r.unlock) [
    | inl gone ↦ absurd (ground (arith, h, gone))
    | inr (u, there) ↦ absurd (ground (arith, one, e, there))
  ]
  check_payload-detection r d (other_kind k) h e one = absurd (ground (arith, h))

  -- The detection that a valid event carries is of the event's node, and each of its three columns
  -- is empty or "untested" unless it is the column of the event's kind.
  pub validate-detection :
      (r : Result) (d : Detection)
      → validate trim_space r ≡ none
      → r.detection ≡ some d
      → (d.node_id ≡ r.node_id)
        × ((r.kind ≡ latency) ⊎ IsUnset d.latency_status)
        × ((r.kind ≡ speed) ⊎ IsUnset d.speed_status)
        × ((r.kind ≡ landing) ⊎ IsUnset d.exit_ip_status)
  validate-detection r d h e =
      let (may, one, valid) = validate-inv r h in
      let (own, clean) = check_detection-own r d (check_payload-detection r d r.kind valid e one) in
      (
        own,
        column r.kind latency d.latency_status kind-latency
            (unfold writes_other in ground (arith, clean)),
        column r.kind speed d.speed_status kind-speed
            (unfold writes_other in ground (arith, clean)),
        column r.kind landing d.exit_ip_status kind-landing
            (unfold writes_other in ground (arith, clean)),
      )
