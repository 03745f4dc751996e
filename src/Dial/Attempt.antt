-- ===== src/Dial/Attempt.antt =====
-- internal/outbound/pool/pool.go: the attempts of `DialContext`, and of `ListenPacket`, which is
-- the same loop. What the dial of a member answers is an argument. The loop runs on fuel.

-- One dial: connected; failed, with what `dialFailureAttributable` says of the error; or failed
-- with the caller's context over.

use easy_proxies_v.Base.{
  Bool, List, Option, [], false, if◌then◌else◌, leb, length, nat_eq, none, some, suc, true, zero, ℕ,
  ◌%◌, ◌++◌, ◌+◌, ◌∷◌,
}
use easy_proxies_v.Dial.Select.{Dispatch, MemberRef, Snapshot, get_elem?, selection_index}

pub data Answer : Type 0 where
  connected_to : Answer
  failed cancelled_while : Bool → Answer

-- What the pool does for the members, in order.
pub data Action : Type 0 where
  inc_active dec_active record_failure record_success : MemberRef → Action

pub data Outcome : Type 0 where
  connected : MemberRef → Outcome
  context_over all_failed no_healthy out_of_fuel : Outcome

pub record Cursor : Type 0 where
  pub members : List MemberRef
  pub start : ℕ
  pub used : ℕ

unfoldable pub next_member : Cursor → Option (MemberRef × Cursor)
next_member c =
    if leb (length c.members) c.used
    then none
    else elim (get_elem? c.members ((c.start + c.used) % length c.members)) [
      | none ↦ none
      | some member ↦ some (member, record c { used = c.used + 1 })
    ]

-- The members that were tried, the actions, and the outcome.
pub record Dialed : Type 0 where
  pub tried : List MemberRef
  pub actions : List Action
  pub outcome : Outcome

abbrev pub blame : Bool → MemberRef → List Action
blame true member = record_failure member ∷ []
blame false member = []

abbrev pub ended : MemberRef → List Action → Outcome → Dialed
ended member actions outcome = record {
  tried = member ∷ [];
  actions = inc_active member ∷ actions;
  outcome = outcome;
}

abbrev pub and_then : MemberRef → List Action → Dialed → Dialed
and_then member actions rest = record {
  tried = member ∷ rest.tried;
  actions = inc_active member ∷ actions ++ rest.actions;
  outcome = rest.outcome;
}

-- What the answer of a member leads to; `rest` is what the next attempts give.
abbrev pub after_dial : MemberRef → Answer → Dialed → Dialed
after_dial member connected_to rest = ended member (record_success member ∷ []) (connected member)
after_dial member (cancelled_while blamed) rest =
    ended member (dec_active member ∷ blame blamed member) context_over
after_dial member (failed blamed) rest =
    and_then member (dec_active member ∷ blame blamed member) rest

-- No member is left; `failed_before` is `dialErr != nil`.
abbrev pub exhausted : Bool → Dialed
exhausted failed_before = record {
  tried = [];
  actions = [];
  outcome = if failed_before then all_failed else no_healthy;
}

unfoldable pub dial_loop : (MemberRef → Answer) → ℕ → Bool → Cursor → Dialed
dial_loop dial zero failed_before c = record { tried = []; actions = []; outcome = out_of_fuel }
dial_loop dial (suc fuel) failed_before c = elim (next_member c) [
  | none ↦ exhausted failed_before
  | some p ↦ after_dial p.0 (dial p.0) (dial_loop dial fuel true p.1)
]

-- newAttemptCursor: nothing is dialed without an eligible member.
unfoldable pub dial_context : (MemberRef → Answer) → Dispatch → Snapshot → (is_udp : Bool) → Dialed
dial_context dial d snapshot is_udp =
    let members = if is_udp then snapshot.udp_members else snapshot.tcp_members in
    if nat_eq (length members) 0
    then exhausted false
    else dial_loop dial (length members + 1) false
        (record { members = members; start = selection_index d snapshot members; used = 0 })
