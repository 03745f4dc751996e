-- ===== src/Pool/Shared.antt =====
-- internal/outbound/pool/shared_state.go. The store is a map from tags; the clock is the argument
-- `now`, in nanoseconds, and a time that was never set is 0. The monitor's entry handle is outside
-- this package's state: its calls are a list of notices.

use easy_proxies_v.Base.{
  Bool, List, String, String_eq, [], false, if◌then◌else◌, insert, keep, length, lookup, ltb, ltb_ℤ,
  nat_eq, neg_part, negsuc, none, pos, pos_part, some, sub_ℕ, suc, true, zero, ℕ, ℤ, ◌%◌, ◌&&◌, ◌*◌,
  ◌++◌, ◌+◌, ◌-◌, ◌∷◌,
}

abbrev pub int32_max : ℕ
int32_max = 2147483648

pub data Notice : Type 0 where
  failure_recorded : String → Notice
  blacklisted_until : ℕ → Notice
  blacklist_cleared : Notice
  success_recorded : String → Notice
  active_increased active_decreased : Notice
  traffic_added : ℤ → ℤ → Notice

pub record SharedMemberState : Type 0 where
  pub failures : List ℕ
  pub blacklisted : Bool
  pub blacklisted_until : ℕ
  pub has_entry : Bool
  pub active : ℤ
  pub total_upload : ℕ
  pub total_download : ℕ

abbrev pub new_state : SharedMemberState
new_state = record {
  failures = [];
  blacklisted = false;
  blacklisted_until = 0;
  has_entry = false;
  active = pos 0;
  total_upload = 0;
  total_download = 0;
}

abbrev pub SharedStateStore : Type 0
SharedStateStore = List (String × SharedMemberState)

-- `acquireSharedState`, with `LoadOrStore`.
unfoldable pub acquire_shared_state :
    String → SharedStateStore → SharedMemberState × SharedStateStore
acquire_shared_state tag store = elim (lookup tag store) [
  | some state ↦ (state, store)
  | none ↦ (new_state, insert tag new_state store)
]

abbrev pub reset_shared_state_store : SharedStateStore → SharedStateStore
reset_shared_state_store store = []

-- What reaches the monitor: nothing without an entry handle.
abbrev pub notify : SharedMemberState → List Notice → List Notice
notify s notices = if s.has_entry then notices else []

-- A window of 0 keeps every failure; otherwise those after now - window.
unfoldable pub in_window : ℕ → ℕ → List ℕ → List ℕ
in_window window now failures =
    if ltb 0 window then keep (λ ts. ltb now (ts + window)) failures else failures

pub record FailureReport : Type 0 where
  pub count : ℕ
  pub triggered : Bool
  pub until : ℕ
  pub notices : List Notice

unfoldable pub record_failure :
    ℕ → ℤ → ℕ → ℕ → String → SharedMemberState → SharedMemberState × FailureReport
record_failure now threshold duration window destination s =
    let kept = in_window window now (s.failures ++ now ∷ []) in
    let count = length kept in
    if ltb_ℤ (pos count) threshold
    then (
      record s { failures = kept },
      record {
        count = count;
        triggered = false;
        until = 0;
        notices = notify s (failure_recorded destination ∷ []);
      },
    )
    else (
      record s { failures = []; blacklisted = true; blacklisted_until = now + duration },
      record {
        count = count;
        triggered = true;
        until = now + duration;
        notices = notify s (failure_recorded destination ∷ blacklisted_until (now + duration) ∷ []);
      },
    )

unfoldable pub record_success : String → SharedMemberState → List Notice
record_success destination s = notify s (success_recorded destination ∷ [])

unfoldable pub record_established_success : SharedMemberState → SharedMemberState
record_established_success s = record s { failures = [] }

-- The answer, the state after an expired blacklist is cleared, and the notices.
unfoldable pub is_blacklisted : ℕ → SharedMemberState → Bool × SharedMemberState × List Notice
is_blacklisted now s =
    if s.blacklisted && ltb s.blacklisted_until now
    then (
      false,
      record s { blacklisted = false; blacklisted_until = 0 },
      notify s (blacklist_cleared ∷ []),
    )
    else (s.blacklisted, s, [])

unfoldable pub force_release : SharedMemberState → SharedMemberState × List Notice
force_release s = (
  record s { failures = []; blacklisted = false; blacklisted_until = 0 },
  notify s (blacklist_cleared ∷ []),
)

-- `releaseSharedMember`: a tag without a state is left alone.
unfoldable pub release_shared_member : String → SharedStateStore → SharedStateStore
release_shared_member tag store = elim (lookup tag store) [
  | none ↦ store
  | some state ↦ insert tag (force_release state).0 store
]

-- `atomic.Int32.Add`: the sum wraps around.
abbrev pub add_one : ℤ → ℤ
add_one (pos n) = if nat_eq (suc n) int32_max then negsuc n else pos (suc n)
add_one (negsuc zero) = pos 0
add_one (negsuc (suc n)) = negsuc n

abbrev pub sub_one : ℤ → ℤ
sub_one (pos zero) = negsuc 0
sub_one (pos (suc n)) = pos n
sub_one (negsuc n) = if nat_eq (suc n) int32_max then pos n else negsuc (suc n)

unfoldable pub inc_active : SharedMemberState → SharedMemberState × List Notice
inc_active s = (record s { active = add_one s.active }, notify s (active_increased ∷ []))

unfoldable pub dec_active : SharedMemberState → SharedMemberState × List Notice
dec_active s = (record s { active = sub_one s.active }, notify s (active_decreased ∷ []))

unfoldable pub attach_entry : Bool → SharedMemberState → SharedMemberState
attach_entry present s = if present then record s { has_entry = true } else s

-- The counters of bytes, to which only positive amounts are added.
unfoldable pub add_traffic : ℤ → ℤ → SharedMemberState → SharedMemberState × List Notice
add_traffic upload download s = (
  record s {
    total_upload = s.total_upload + pos_part upload;
    total_download = s.total_download + pos_part download;
  },
  notify s (traffic_added upload download ∷ []),
)

-- The sum of two 32-bit numbers, which wraps around.
abbrev pub add_int32 : ℤ → ℤ → ℤ
add_int32 a b =
    let low =
      (pos_part a + pos_part b + 2 * (2 * int32_max) - neg_part a - neg_part b) % (2 * int32_max) in
    if ltb low int32_max then pos low else sub_ℕ low (2 * int32_max)

-- `ActiveConnections` over the store.
unfoldable pub active_connections : SharedStateStore → ℤ
active_connections [] = pos 0
active_connections ((tag, s) ∷ rest) = add_int32 s.active (active_connections rest)
