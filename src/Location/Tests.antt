-- ===== src/Location/Tests.antt =====
-- Runs of `Decide` of internal/nodeloc/state.go on one node.

use easy_proxies_v.Base.{
  Bool, String, String_eq, arith, false, if◌then◌else◌, not, refl, true, ℕ, ◌+◌, ◌<◌, ◌==◌, ◌≡◌,
}
use easy_proxies_v.Location.Debounce.{IsCurrent, decide-again}
use easy_proxies_v.Location.Decide.{
  Evidence, Library, Location, Observation, Source, State, Token, apply, classify, decide,
  exit_probe, geoip_exit, is_success, named_location, no_location, replay, source_priority, weigh,
}
use easy_proxies_v.Location.Stability.{
  Contradicts, IsSettled, decide-confirms, decide-reclassified, decide-reclassified_erases,
}

abbrev lib : Library
lib = record {
  normalize = λ t. t;
  valid = λ t. not (t == "");
  trim_space = λ t. t;
  parses_addr = λ t. not (t == "");
}

abbrev token : Token
token = record { identity = "node"; revision = 1 }

abbrev at_home : Location
at_home = record {
  iso = "jp";
  country = "Japan";
  source = exit_probe;
  known = true;
  checked_at = 50;
}

abbrev nowhere : Evidence
nowhere = record { current = no_location; candidate = no_location; confirmations = 0 }

abbrev settled : State
settled = record {
  token = token;
  evidence = record { current = at_home; candidate = no_location; confirmations = 0 };
  before_probe = nowhere;
  last_probe_id = "p0";
  last_started_at = 40;
  last_source = exit_probe;
  last_succeeded = true;
}

abbrev unsettled : State
unsettled = record settled { evidence = nowhere }

abbrev seen : String → ℕ → Source → String → Bool → Observation
seen probe started source iso succeeded = record {
  token = token;
  probe_id = probe;
  started_at = started;
  checked_at = started + 5;
  ip = "192.0.2.1";
  source = source;
  succeeded = succeeded;
  iso = iso;
  country = iso;
}

decide-again_example :
    (decide lib
      (decide lib settled (seen "p1" 60 exit_probe "us" true)).0
      (seen "p1" 60 exit_probe "us" true)).0
    ≡ (decide lib settled (seen "p1" 60 exit_probe "us" true)).0
decide-again_example = decide-again lib settled (seen "p1" 60 exit_probe "us" true)

settled-IsCurrent_geoip : IsCurrent settled (seen "p1" 60 geoip_exit "us" true)
unfolding source_priority
settled-IsCurrent_geoip = record {
  named = refl;
  identity = refl;
  revision = refl;
  probed = refl;
  started = refl;
  finished = omega arith;
  ranked = refl;
  in_order = omega arith;
}

settled-IsCurrent_exit : IsCurrent settled (seen "p1" 60 exit_probe "us" true)
unfolding source_priority
settled-IsCurrent_exit = record {
  named = refl;
  identity = refl;
  revision = refl;
  probed = refl;
  started = refl;
  finished = omega arith;
  ranked = refl;
  in_order = omega arith;
}

exit_over_geoip : source_priority geoip_exit < source_priority exit_probe
unfolding source_priority
exit_over_geoip = omega arith

decide-reclassified_example :
    (decide lib
      (decide lib settled (seen "p1" 60 geoip_exit "us" true)).0
      (seen "p1" 60 exit_probe "us" true)).0
    ≡ (decide lib settled (seen "p1" 60 exit_probe "us" true)).0
decide-reclassified_example =
    decide-reclassified lib settled (seen "p1" 60 geoip_exit "us" true)
      (seen "p1" 60 exit_probe "us" true) settled-IsCurrent_geoip settled-IsCurrent_exit refl refl
      refl exit_over_geoip

settled-Contradicts : Contradicts lib settled (seen "p1" 60 exit_probe "us" true)
unfolding is_success
settled-Contradicts = record {
  current = settled-IsCurrent_exit;
  fresh = refl;
  automatic = refl;
  success = refl;
  elsewhere = refl;
}

settled-IsSettled : IsSettled settled
settled-IsSettled = record { known = refl; verified = refl; automatic = refl }

then-Contradicts :
    Contradicts lib
      (decide lib settled (seen "p1" 60 exit_probe "us" true)).0
      (seen "p2" 70 exit_probe "us" true)
unfolding is_success source_priority decide apply weigh classify named_location replay
then-Contradicts = record {
  current = record {
    named = refl;
    identity = refl;
    revision = refl;
    probed = refl;
    started = refl;
    finished = omega arith;
    ranked = refl;
    in_order = omega arith;
  };
  fresh = refl;
  automatic = refl;
  success = refl;
  elsewhere = refl;
}

decide-confirms_example :
    let s1 = (decide lib settled (seen "p1" 60 exit_probe "us" true)).0 in
    let s2 = (decide lib s1 (seen "p2" 70 exit_probe "us" true)).0 in
    (s1.evidence.current ≡ settled.evidence.current)
    × (s2.evidence.current ≡ (
        if lib.normalize "us" == lib.normalize "us"
        then named_location lib s1.evidence (seen "p2" 70 exit_probe "us" true)
        else settled.evidence.current))
decide-confirms_example =
    decide-confirms lib settled (seen "p1" 60 exit_probe "us" true)
      (seen "p2" 70 exit_probe "us" true) settled-IsSettled settled-Contradicts refl
      then-Contradicts

failed-is_success : is_success lib (seen "p1" 60 exit_probe "us" false) ≡ false
unfolding is_success
failed-is_success = refl

unsettled-IsCurrent : IsCurrent unsettled (seen "p1" 60 geoip_exit "us" true)
unfolding source_priority
unsettled-IsCurrent = record {
  named = refl;
  identity = refl;
  revision = refl;
  probed = refl;
  started = refl;
  finished = omega arith;
  ranked = refl;
  in_order = omega arith;
}

unsettled-IsCurrent_failed : IsCurrent unsettled (seen "p1" 60 exit_probe "us" false)
unfolding source_priority
unsettled-IsCurrent_failed = record {
  named = refl;
  identity = refl;
  revision = refl;
  probed = refl;
  started = refl;
  finished = omega arith;
  ranked = refl;
  in_order = omega arith;
}

geoip-is_success : is_success lib (seen "p1" 60 geoip_exit "us" true) ≡ true
unfolding is_success
geoip-is_success = refl

decide-reclassified_erases_example :
    let s1 = (decide lib unsettled (seen "p1" 60 geoip_exit "us" true)).0 in
    (s1.evidence.current.known ≡ true)
    × ((decide lib s1 (seen "p1" 60 exit_probe "us" false)).0.evidence.current.known ≡ false)
decide-reclassified_erases_example =
    decide-reclassified_erases lib unsettled (seen "p1" 60 geoip_exit "us" true)
      (seen "p1" 60 exit_probe "us" false) refl refl unsettled-IsCurrent geoip-is_success
      unsettled-IsCurrent_failed failed-is_success refl refl refl exit_over_geoip
