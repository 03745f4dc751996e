-- ===== src/Dial/Select.antt =====
-- internal/outbound/pool/pool.go: `selectionIndex` and the policies that it chooses from. A member
-- is named by its address. The random words, the counter of the round robin and the counts of
-- active connections are arguments; the counts are natural numbers.

use easy_proxies_v.Base.{
  Bool, List, Option, String, [], drop, eq_ℤ, if◌then◌else◌, leb, length, ltb, ltb_ℤ, nat_eq, none,
  not, pos, some, suc, take, zero, ℕ, ℤ, ◌%◌, ◌&&◌, ◌++◌, ◌+◌, ◌-◌, ◌/◌, ◌^◌, ◌||◌, ◌∷◌,
}
use easy_proxies_v.Location.Decide.{same_bool}

pub data Mode : Type 0 where
  mode_sequential mode_random mode_balance mode_balance_p2c mode_fixed mode_lowest_latency : Mode

pub record MemberRef : Type 0 where
  pub address : ℕ
  pub tag : String
  pub node_id : ℤ
  pub active : ℕ
  pub latency_ms : ℤ

abbrev pub same_ref : MemberRef → MemberRef → Bool
same_ref a b = nat_eq a.address b.address

pub record Snapshot : Type 0 where
  pub members : List MemberRef
  pub tcp_members : List MemberRef
  pub udp_members : List MemberRef
  pub all_members : List MemberRef

-- What the choice reads beside the snapshot.
pub record Dispatch : Type 0 where
  pub mode : Mode
  pub current : Option MemberRef
  pub round_robin : ℕ
  pub random : ℕ

abbrev pub get_elem? {ℓ} : {A : Type ℓ} → List A → ℕ → Option A
get_elem? [] n = none
get_elem? (x ∷ xs) zero = some x
get_elem? (x ∷ xs) (suc n) = get_elem? xs n

-- The index of a member, as the snapshot's maps from members to indexes have it.
unfoldable pub index_of : MemberRef → List MemberRef → Option ℕ
index_of wanted [] = none
index_of wanted (member ∷ members) =
    let later = index_of wanted members in
    if same_ref member wanted then some 0 else elim later [ none ↦ none | some n ↦ some (suc n) ]

-- The loop of the balance mode: `best` is the index that was chosen so far and its count.
unfoldable pub least_active : ℕ → ℕ → ℕ → List MemberRef → ℕ
least_active index selected min_active [] = selected
least_active index selected min_active (member ∷ members) =
    let chosen = nat_eq index 0 || ltb member.active min_active in
    let rest =
      least_active (index + 1) (if chosen then index else selected)
        (if chosen then member.active else min_active) members in
    if nat_eq member.active 0 then index else rest

-- Two members from the halves of a 64-bit word, and the one with fewer connections of them.
unfoldable pub two_choice_index : List MemberRef → ℕ → ℕ
two_choice_index candidates random =
    let first = (random % 2 ^ 32) % length candidates in
    let drawn = (random / 2 ^ 32) % (length candidates - 1) in
    let second = if leb first drawn then drawn + 1 else drawn in
    if nat_eq (length candidates) 1 then 0 else elim (get_elem? candidates second) [
      | none ↦ first
      | some b ↦ elim (get_elem? candidates first) [
        | none ↦ first
        | some a ↦ if ltb b.active a.active then second else first
      ]
    ]

-- The first member after a place in the topology that is a candidate.
unfoldable pub first_candidate : List MemberRef → List MemberRef → ℕ
first_candidate candidates [] = 0
first_candidate candidates (member ∷ ring) =
    let later = first_candidate candidates ring in
    elim (index_of member candidates) [ none ↦ later | some index ↦ index ]

-- The members from one place on, around the end.
abbrev pub rotate {ℓ} : {A : Type ℓ} → ℕ → List A → List A
rotate start members = drop start members ++ take start members

unfoldable pub next_fixed_index : Snapshot → List MemberRef → Option MemberRef → ℕ
next_fixed_index snapshot candidates previous = elim previous [
  | none ↦ 0
  | some p ↦ elim (index_of p snapshot.all_members) [
    | none ↦ 0
    | some index ↦ first_candidate candidates (rotate (index + 1) snapshot.all_members)
  ]
]

-- The index that a map of the snapshot has for the current member, if it is right for the
-- candidates.
abbrev pub current_at : MemberRef → List MemberRef → List MemberRef → Option ℕ
current_at current indexed candidates = elim (index_of current indexed) [
  | none ↦ none
  | some index ↦ elim (get_elem? candidates index) [
    | none ↦ none
    | some member ↦ if same_ref member current then some index else none
  ]
]

abbrev pub or_else {ℓ} : {A : Type ℓ} → Option A → Option A → Option A
or_else none other = other
or_else (some a) other = some a

unfoldable pub index_of_current : Snapshot → List MemberRef → Option MemberRef → Option ℕ
index_of_current snapshot candidates current = elim current [
  | none ↦ none
  | some member ↦ or_else (current_at member snapshot.members candidates) (
      or_else (current_at member snapshot.tcp_members candidates)
        (current_at member snapshot.udp_members candidates))
]

unfoldable pub selection_index : Dispatch → Snapshot → List MemberRef → ℕ
selection_index d snapshot candidates = elim d.mode [
  | mode_random ↦ d.random % length candidates
  | mode_balance ↦ least_active 0 0 0 candidates
  | mode_balance_p2c ↦ two_choice_index candidates d.random
  | mode_fixed ↦ elim (index_of_current snapshot candidates d.current) [
    | some index ↦ index
    | none ↦ next_fixed_index snapshot candidates d.current
  ]
  | mode_lowest_latency ↦ elim (index_of_current snapshot candidates d.current) [
    | some index ↦ index
    | none ↦ 0
  ]
  | mode_sequential ↦ d.round_robin % length candidates
]

-- The order in which a rebuild puts the members of the lowest-latency mode.
unfoldable pub latency_member_less : (String → String → Bool) → MemberRef → MemberRef → Bool
latency_member_less text_less left right =
    let left_known = ltb_ℤ (pos 0) left.latency_ms in
    let right_known = ltb_ℤ (pos 0) right.latency_ms in
    if not (same_bool left_known right_known)
    then left_known
    else if left_known && not (eq_ℤ left.latency_ms right.latency_ms)
    then ltb_ℤ left.latency_ms right.latency_ms
    else if not (eq_ℤ left.node_id right.node_id)
    then ltb_ℤ left.node_id right.node_id
    else text_less left.tag right.tag
