-- ===== src/Location/Decide.antt =====
-- internal/nodeloc/state.go: `Decide`. `noderegion.Normalize` and `Valid` read a table that
-- golang.org/x/text builds, and `netip.ParseAddr` and `strings.TrimSpace` are library code: they
-- are the parameters of the model. Times are nanoseconds since Go's zero time, which is 0.

use easy_proxies_v.Base.{
  Bool, String, String_eq, false, if◌then◌else◌, leb, ltb, not, true, ℕ, ℕ_eq, ◌&&◌, ◌+◌, ◌==◌,
  ◌||◌,
}

pub data Source : Type 0 where
  legacy geoip_exit exit_probe manual other_source : Source

abbrev pub source_eq : Source → Source → Bool
source_eq legacy legacy = true
source_eq geoip_exit geoip_exit = true
source_eq exit_probe exit_probe = true
source_eq manual manual = true
source_eq other_source other_source = true
source_eq _ _ = false

pub record Location : Type 0 where
  pub iso : String
  pub country : String
  pub source : Source
  pub known : Bool
  pub checked_at : ℕ

pub record Token : Type 0 where
  pub identity : String
  pub revision : ℕ

pub record Evidence : Type 0 where
  pub current : Location
  pub candidate : Location
  pub confirmations : ℕ

pub record State : Type 0 where
  pub token : Token
  pub evidence : Evidence
  pub before_probe : Evidence
  pub last_probe_id : String
  pub last_started_at : ℕ
  pub last_source : Source
  pub last_succeeded : Bool

pub data Reason : Type 0 where
  identity_changed invalid_observation unsupported_source older_observation invalid_replay : Reason
  duplicate_observation failed_or_unclassified manual_override accepted : Reason
  awaiting_confirmation confirmed : Reason

pub record Change : Type 0 where
  pub location : Location
  pub changed : Bool
  pub membership_changed : Bool
  pub applied : Bool
  pub reason : Reason

pub record Observation : Type 0 where
  pub token : Token
  pub probe_id : String
  pub started_at : ℕ
  pub checked_at : ℕ
  pub ip : String
  pub source : Source
  pub succeeded : Bool
  pub iso : String
  pub country : String

-- The library code that `Decide` calls.
pub record Library : Type 0 where
  pub normalize : String → String
  pub valid : String → Bool
  pub trim_space : String → String
  pub parses_addr : String → Bool

unfoldable pub source_priority : Source → ℕ
source_priority manual = 3
source_priority exit_probe = 2
source_priority geoip_exit = 1
source_priority legacy = 0
source_priority other_source = 0

-- The zero value `Location{}`; its source, the empty string, is none of the named ones.
abbrev pub no_location : Location
no_location = record {
  iso = "";
  country = "";
  source = other_source;
  known = false;
  checked_at = 0;
}

abbrev pub same_bool : Bool → Bool → Bool
same_bool true b = b
same_bool false b = not b

-- The evidence after the sequence of checks: what was accepted, and why.
pub record Verdict : Type 0 where
  pub evidence : Evidence
  pub reason : Reason

abbrev pub settle : Location → Reason → Verdict
settle current reason = record {
  evidence = record { current = current; candidate = no_location; confirmations = 0 };
  reason = reason;
}

-- A successful observation names `next`: it is accepted at once, or it waits to be confirmed.
unfoldable pub classify : Evidence → Source → Location → Verdict
classify e source next =
    let count = (if not (next.iso == e.candidate.iso) then 0 else e.confirmations) + 1 in
    if not e.current.known
      || (source_eq e.current.source legacy
          || (next.iso == e.current.iso || source_eq source manual))
    then settle next accepted
    else if leb 2 count
    then settle next confirmed
    else record {
      evidence = record { current = e.current; candidate = next; confirmations = count };
      reason = awaiting_confirmation;
    }

-- The location that an observation names; an unnamed country keeps its old name.
unfoldable pub named_location : Library → Evidence → Observation → Location
named_location lib e obs =
    let iso = lib.normalize obs.iso in
    let country = lib.trim_space obs.country in
    record {
      iso = iso;
      country = if iso == e.current.iso && country == "" then e.current.country else country;
      source = obs.source;
      known = true;
      checked_at = obs.checked_at;
    }

unfoldable pub is_success : Library → Observation → Bool
is_success lib obs =
    obs.succeeded
    && (lib.valid (lib.normalize obs.iso)
        && (source_eq obs.source manual || lib.parses_addr (lib.trim_space obs.ip)))

-- The new evidence from the evidence before the probe.
unfoldable pub weigh : Library → Evidence → Observation → Bool → Verdict
weigh lib e obs success =
    if not success
    then settle e.current failed_or_unclassified
    else if source_eq e.current.source manual && not (source_eq obs.source manual)
    then settle e.current manual_override
    else classify e obs.source (named_location lib e obs)

-- The state with the observation recorded, and the change that it makes.
unfoldable pub apply : Library → State → Observation → Bool → Evidence → State × Change
apply lib s obs success base =
    let v = weigh lib base obs success in
    let before = s.evidence.current in
    let now = v.evidence.current in
    (
      record {
        token = s.token;
        evidence = v.evidence;
        before_probe = base;
        last_probe_id = obs.probe_id;
        last_started_at = obs.started_at;
        last_source = obs.source;
        last_succeeded = success;
      },
      record {
        location = now;
        changed =
            not (before.iso == now.iso)
            || (not (before.country == now.country) || not (same_bool before.known now.known));
        membership_changed = not (before.iso == now.iso) || not (same_bool before.known now.known);
        applied = true;
        reason = v.reason;
      },
    )

abbrev pub reject : State → Reason → State × Change
reject s reason = (
  s,
  record {
    location = s.evidence.current;
    changed = false;
    membership_changed = false;
    applied = false;
    reason = reason;
  },
)

-- A second classification of the last probe: only better evidence of it counts.
unfoldable pub replay : Library → State → Observation → Bool → State × Change
replay lib s obs success =
    let new = source_priority obs.source in
    let old = source_priority s.last_source in
    if not (obs.started_at == s.last_started_at)
    then reject s invalid_replay
    else if ltb new old || (new == old && (s.last_succeeded || not success))
    then reject s duplicate_observation
    else apply lib s obs success s.before_probe

unfoldable pub decide : Library → State → Observation → State × Change
decide lib s obs =
    let success = is_success lib obs in
    if obs.token.identity == ""
      || (not (obs.token.identity == s.token.identity)
          || not (obs.token.revision == s.token.revision))
    then reject s identity_changed
    else if obs.probe_id == "" || (obs.started_at == 0 || ltb obs.checked_at obs.started_at)
    then reject s invalid_observation
    else if source_priority obs.source == 0
    then reject s unsupported_source
    else if ltb obs.started_at s.last_started_at
    then reject s older_observation
    else if obs.probe_id == s.last_probe_id
    then replay lib s obs success
    else apply lib s obs success s.evidence
