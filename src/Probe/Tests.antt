-- ===== src/Probe/Tests.antt =====
-- Validation of measurement events of internal/probe/applier.go.

use easy_proxies_v.Base.{String, if◌then◌else◌, none, pos, refl, some, ◌+◌, ◌≡◌, ◌⊎◌}
use easy_proxies_v.Location.Decide.{exit_probe}
use easy_proxies_v.Probe.Event.{
  Detection, Observation, Result, check_detection, check_payload, health, is_health_probe, kind_eq,
  landing, latency, may_publish, payloads, present, speed, startup_exit, validate, writes_other,
}
use easy_proxies_v.Probe.Streams.{IsUnset, validate-detection, validate-health}

abbrev observation : Observation
observation = record {
  identity = "node";
  revision = pos 1;
  probe_id = "p1";
  started_at = 10;
  checked_at = 20;
  source = exit_probe;
}

abbrev exit : Detection
exit = record {
  node_id = pos 7;
  latency_status = "untested";
  speed_status = "";
  exit_ip_status = "success";
}

abbrev event : Result
event = record {
  node_id = pos 7;
  kind = landing;
  origin = startup_exit;
  observation = observation;
  detection = some exit;
  quality = none;
  unlock = none;
  health = none;
}

abbrev trim : String → String
trim t = t

event-validate : validate trim event ≡ none
unfolding validate may_publish payloads check_payload check_detection writes_other
event-validate = refl

validate-health_example :
    (is_health_probe event.origin ≡ kind_eq event.kind health)
    × (present event.health ≡ (if is_health_probe event.origin then 1 else 0))
    × (present event.detection + present event.quality + present event.unlock + present event.health
        ≡ 1)
validate-health_example = validate-health trim event event-validate

validate-detection_example :
    (exit.node_id ≡ event.node_id)
    × ((event.kind ≡ latency) ⊎ IsUnset exit.latency_status)
    × ((event.kind ≡ speed) ⊎ IsUnset exit.speed_status)
    × ((event.kind ≡ landing) ⊎ IsUnset exit.exit_ip_status)
validate-detection_example = validate-detection trim event exit event-validate refl
