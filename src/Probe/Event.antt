-- ===== src/Probe/Event.antt =====
-- internal/probe/applier.go: `validate`. Of a payload the fields that
-- are read are kept; a time that was never set is 0. `strings.TrimSpace` is a parameter.

use easy_proxies_v.Base.{
  Bool, Option, String, String_eq, false, if◌then◌else◌, ltb, ltb_ℤ, nat_eq, none, not, pos, some,
  true, ℕ, ℕ_eq, ℤ, ℤ_eq, ◌&&◌, ◌+◌, ◌==◌, ◌||◌,
}
use easy_proxies_v.Location.Decide.{Source, exit_probe, geoip_exit, source_eq}

pub data Kind : Type 0 where
  latency speed landing quality unlock health : Kind
  other_kind : String → Kind

pub data Origin : Type 0 where
  health_probe manual_diagnostic startup_exit unlock_check : Origin
  other_origin : String → Origin

pub record Observation : Type 0 where
  pub identity : String
  pub revision : ℤ
  pub probe_id : String
  pub started_at : ℕ
  pub checked_at : ℕ
  pub source : Source

pub record Detection : Type 0 where
  pub node_id : ℤ
  pub latency_status : String
  pub speed_status : String
  pub exit_ip_status : String

pub record Quality : Type 0 where
  pub node_id : ℤ
  pub provider : String

-- A result, with the node of the unlock payload and the tag of the health payload.
pub record Result : Type 0 where
  pub node_id : ℤ
  pub kind : Kind
  pub origin : Origin
  pub observation : Observation
  pub detection : Option Detection
  pub quality : Option Quality
  pub unlock : Option ℤ
  pub health : Option String

pub data Invalid : Type 0 where
  bad_identity_or_time bad_origin origin_cannot_publish payload_count health_needs_probe : Invalid
  bad_detection needs_manual_origin needs_exit_evidence writes_other_stream bad_quality : Invalid
  bad_unlock bad_kind : Invalid

abbrev pub kind_eq : Kind → Kind → Bool
kind_eq latency latency = true
kind_eq speed speed = true
kind_eq landing landing = true
kind_eq quality quality = true
kind_eq unlock unlock = true
kind_eq health health = true
kind_eq (other_kind a) (other_kind b) = a == b
kind_eq _ _ = false

abbrev pub is_origin : Origin → Bool
is_origin (other_origin _) = false
is_origin health_probe = true
is_origin manual_diagnostic = true
is_origin startup_exit = true
is_origin unlock_check = true

abbrev pub is_manual : Origin → Bool
is_manual manual_diagnostic = true
is_manual _ = false

abbrev pub is_health_probe : Origin → Bool
is_health_probe health_probe = true
is_health_probe _ = false

-- The kinds that an origin other than a manual diagnostic is confined to.
unfoldable pub may_publish : Origin → Kind → Bool
may_publish health_probe kind = kind_eq kind health
may_publish startup_exit kind = kind_eq kind landing
may_publish unlock_check kind = kind_eq kind unlock
may_publish manual_diagnostic kind = true
may_publish (other_origin _) kind = true

abbrev pub present : {A : Type 0} → Option A → ℕ
present none = 0
present (some _) = 1

unfoldable pub payloads : Result → ℕ
payloads r = present r.detection + present r.quality + present r.unlock + present r.health

abbrev pub untouched : String → Bool
untouched status = status == "" || status == "untested"

-- A detection writes only the columns of its own kind.
unfoldable pub writes_other : Kind → Detection → Bool
writes_other kind d =
    (not (kind_eq kind latency) && not (untouched d.latency_status))
    || (not (kind_eq kind speed) && not (untouched d.speed_status))
    || (not (kind_eq kind landing) && not (untouched d.exit_ip_status))

unfoldable pub check_detection : Result → Option Detection → Option Invalid
check_detection r none = some bad_detection
check_detection r (some d) =
    if not (d.node_id == r.node_id)
    then some bad_detection
    else if not (kind_eq r.kind landing) && not (is_manual r.origin)
    then some needs_manual_origin
    else if kind_eq r.kind landing
        && not
            (source_eq r.observation.source geoip_exit || source_eq r.observation.source exit_probe)
    then some needs_exit_evidence
    else if writes_other r.kind d
    then some writes_other_stream
    else none

module _ (trim_space : String → String) where
  unfoldable pub check_payload : Result → Kind → Option Invalid
  check_payload r health = elim r.health [
    | none ↦ some health_needs_probe
    | some tag ↦
        if not (is_health_probe r.origin) || tag == "" then some health_needs_probe else none
  ]
  check_payload r latency = check_detection r r.detection
  check_payload r speed = check_detection r r.detection
  check_payload r landing = check_detection r r.detection
  check_payload r quality = elim r.quality [
    | none ↦ some bad_quality
    | some q ↦
        if not (is_manual r.origin) || not (q.node_id == r.node_id) || trim_space q.provider == ""
        then some bad_quality
        else none
  ]
  check_payload r unlock = elim r.unlock [
    | none ↦ some bad_unlock
    | some node ↦
        if not (is_manual r.origin || elim r.origin [ unlock_check ↦ true | _ ↦ false ])
          || not (node == r.node_id)
        then some bad_unlock
        else none
  ]
  check_payload r (other_kind _) = some bad_kind

  unfoldable pub validate : Result → Option Invalid
  validate r =
      let o = r.observation in
      if not (ltb_ℤ (pos 0) r.node_id)
        || o.identity == ""
        || not (ltb_ℤ (pos 0) o.revision)
        || o.probe_id == ""
        || o.started_at == 0
        || ltb o.checked_at o.started_at
      then some bad_identity_or_time
      else if not (is_origin r.origin)
      then some bad_origin
      else if not (may_publish r.origin r.kind)
      then some origin_cannot_publish
      else if not (nat_eq (payloads r) 1)
      then some payload_count
      else check_payload r r.kind
