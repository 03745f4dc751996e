-- ===== src/Group/Current.antt =====
-- internal/group/runtime.go: the availability tests and the current member of a group.

-- `MemberAvailable` drops the expired failures of the member that it asks about.

use easy_proxies_v.Base.{
  Bool, Option, String, String_eq, false, if◌then◌else◌, insert, leb, length, lookup, none, not,
  some, true, ℕ, ℕ_eq, ◌&&◌, ◌+◌, ◌==◌, ◌||◌,
}
use easy_proxies_v.Group.Failure.{put_member}
use easy_proxies_v.Group.Member.{is_available, prune_failures}
use easy_proxies_v.Group.State.{Member, Runtime, StateEvent, World, blank_event, notify}

unfoldable pub member_available : ℕ → ℕ → String → World → World × Bool
member_available now group tag w = elim (lookup group w.groups) [
  | none ↦ (w, true)
  | some r ↦ elim (lookup tag r.members) [
    | none ↦ (w, false)
    | some m ↦
        let pruned = if m.evicted then m else (prune_failures r.window now m).0 in
        (put_member group r tag pruned w, is_available pruned)
  ]
]

unfoldable pub member_not_evicted : ℕ → String → World → Bool
member_not_evicted group tag w = elim (lookup group w.groups) [
  | none ↦ true
  | some r ↦ elim (lookup tag r.members) [ none ↦ false | some m ↦ not m.standby && not m.evicted ]
]

abbrev pub current_tag_notify_interval : ℕ
current_tag_notify_interval = 500000000

abbrev current_event : ℕ → ℕ → StateEvent
current_event group node = record (blank_event group node) {
  current_node_id = node;
  current_changed = true;
}

-- `now.Sub(last) >= interval`.
abbrev is_due : ℕ → ℕ → Bool
is_due now last = leb (last + current_tag_notify_interval) now

-- The current member may serve: a held-back announcement is made when its time has come.
unfoldable pub serve_current : ℕ → ℕ → Runtime → World → World × String
serve_current now group r w =
    let flush = r.current_notify_pending && is_due now r.last_current_notify in
    let r' = record r {
      current_notify_pending = if flush then false else r.current_notify_pending;
      last_current_notify = if flush then now else r.last_current_notify;
    } in
    let w' = record w { groups = insert group r' w.groups } in
    (if flush then notify (current_event group r.current_pending_node_id) w' else w', r.current_tag)

-- The current member may not serve, or there is none.
unfoldable pub drop_current : ℕ → Runtime → World → World × String
drop_current group r w =
    let r' = record r { current_tag = ""; current_notify_pending = false } in
    if r.current_tag == "" then (record w { groups = insert group r w.groups }, "") else (
      notify (record (blank_event group 0) { current_changed = true })
          (record w { groups = insert group r' w.groups }),
      "",
    )

unfoldable pub current_tag : ℕ → ℕ → World → World × String
current_tag now group w = elim (lookup group w.groups) [
  | none ↦ (w, "")
  | some r ↦ elim (lookup r.current_tag r.members) [
    | none ↦ drop_current group r w
    | some m ↦
        let pruned = (prune_failures r.window now m).0 in
        let r' = record r { members = insert r.current_tag pruned r.members } in
        if m.standby || m.evicted
        then drop_current group r w
        else if length pruned.failure_history == 0
        then serve_current now group r' w
        else drop_current group r' w
  ]
]

-- `tag != "" && (member == nil || member.standby || member.evicted)`.
abbrev pub refuses : String → Option Member → Bool
refuses tag member =
    not (tag == "") && elim member [ none ↦ true | some m ↦ m.standby || m.evicted ]

abbrev pub node_of : Option Member → ℕ
node_of none = 0
node_of (some m) = m.node_id

unfoldable pub set_current_tag : ℕ → ℕ → String → World → World
set_current_tag now group tag w = elim (lookup group w.groups) [
  | none ↦ w
  | some r ↦
      let member = lookup tag r.members in
      let node = node_of member in
      let moved = record r { current_tag = tag } in
      let held = record moved { current_notify_pending = true; current_pending_node_id = node } in
      let announced = record moved { last_current_notify = now; current_notify_pending = false } in
      if refuses tag member
      then w
      else if r.current_tag == tag
      then w
      else if not (r.last_current_notify == 0) && not (is_due now r.last_current_notify)
      then record w { groups = insert group held w.groups }
      else notify (current_event group node) (record w { groups = insert group announced w.groups })
]
