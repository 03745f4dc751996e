-- ===== src/Group/Serving.antt =====
-- Asking for a member, and asking for or moving the current member, keep the world well formed.

use easy_proxies_v.Base.{
  ==_iff, Bool, Bool-cases, Each-lookup, List, Option-cases, String, String_eq, ap, arith, false,
  if_cases, if◌then◌else◌, inl, inr, insert, leb, length, lookup, not, refl, some, true, ℕ, ℕ_eq,
  ◌&&◌, ◌+◌, ◌==◌, ◌||◌, ◌≡◌,
}
use easy_proxies_v.Group.Current.{
  current_tag, current_tag_notify_interval, drop_current, member_available, node_of, refuses,
  serve_current, set_current_tag,
}
use easy_proxies_v.Group.Failure.{put_member}
use easy_proxies_v.Group.Invariant.{
  MemberOk, RuntimeOk, Serves, Stays-of_flags, WorldOk, insert-WorldOk,
}
use easy_proxies_v.Group.Member.{prune_failures}
use easy_proxies_v.Group.Put.{put-RuntimeOk}
use easy_proxies_v.Group.State.{Member, RecoveryPolicy, Runtime, World}

pub prune_failures-flags :
    (window now : ℕ) (m : Member)
    → let n = (prune_failures window now m).0 in
      n ≡ record m { failure_history = n.failure_history; last_error = n.last_error }
unfolding prune_failures
prune_failures-flags window now m = ground arith

pub prune_failures-MemberOk :
    (p : RecoveryPolicy) (clock : ℕ) (tag : String) (window now : ℕ) (m : Member)
    → MemberOk p clock tag m
    → MemberOk p clock tag (prune_failures window now m).0
prune_failures-MemberOk p clock tag window now m ok =
    rw (prune_failures-flags window now m) (record {
      tagged = ok.tagged;
      idle = ok.idle;
      short = ok.short;
      dated = ok.dated;
      ring = ok.ring;
      stamped = ok.stamped;
    })

module _ (now group : ℕ) (r : Runtime) (tag : String) (m : Member) (w : World)
    (found : lookup tag r.members ≡ some m) (ok : RuntimeOk w.clock group r) where
  abbrev pruned : Member
  pruned = (prune_failures r.window now m).0

  prune-RuntimeOk : RuntimeOk w.clock group (record r { members = insert tag pruned r.members })
  prune-RuntimeOk =
      put-RuntimeOk group w.clock w.clock r tag pruned (omega arith) ok
        (prune_failures-MemberOk r.recovery w.clock tag r.window now m
          (Each-lookup (MemberOk r.recovery w.clock) tag r.members ok.members_ok found))
        (Stays-of_flags r.current_tag tag r.members m pruned found
          (ap (λ (x : Member). x.standby) (prune_failures-flags r.window now m))
          (ap (λ (x : Member). x.evicted) (prune_failures-flags r.window now m)))

-- `MemberAvailable` keeps every group well formed.
pub member_available-WorldOk :
    (now group : ℕ) (tag : String) (w : World)
    → WorldOk w
    → WorldOk (member_available now group tag w).0
unfolding member_available put_member
member_available-WorldOk now group tag w all = elim (Option-cases (lookup group w.groups)) [
  | inl e ↦ rw (e, member_available) all
  | inr (r, e) ↦ elim (Option-cases (lookup tag r.members)) [
    | inl f ↦ rw (e, f, member_available) all
    | inr (m, f) ↦
        let ok = Each-lookup (RuntimeOk w.clock) group w.groups all e in
        rw (e, f, member_available)
          (if_cases (λ n. WorldOk (put_member group r tag n w)) m.evicted _ _
            (λ _.
              insert-WorldOk group _ w w.clock (omega arith)
                (put-RuntimeOk group w.clock w.clock r tag m (omega arith) ok
                  (Each-lookup (MemberOk r.recovery w.clock) tag r.members ok.members_ok f)
                  (Stays-of_flags r.current_tag tag r.members m m f refl refl))
                all)
            (λ _.
              insert-WorldOk group _ w w.clock (omega arith)
                (prune-RuntimeOk now group r tag m w f ok) all))
  ]
]

-- The group with another current tag or other marks of the notification.
retag-RuntimeOk :
    (clock group : ℕ) (r : Runtime) (tag : String) (last : ℕ) (pending : Bool) (node : ℕ)
    → RuntimeOk clock group r
    → Serves tag r.members
    → RuntimeOk clock group (record r {
      current_tag = tag;
      last_current_notify = last;
      current_notify_pending = pending;
      current_pending_node_id = node;
    })
retag-RuntimeOk clock group r tag last pending node ok serves = record {
  named = ok.named;
  members_ok = ok.members_ok;
  current_ok = serves;
  policy_ok = ok.policy_ok;
  window_ok = ok.window_ok;
  threshold_ok = ok.threshold_ok;
}

serve_current-WorldOk :
    (now group : ℕ) (r : Runtime) (w : World)
    → RuntimeOk w.clock group r
    → WorldOk w
    → WorldOk (serve_current now group r w).0
unfolding serve_current
serve_current-WorldOk now group r w ok all =
    let kept =
      insert-WorldOk group _ w w.clock (omega arith)
        (retag-RuntimeOk w.clock group r r.current_tag
          (if r.current_notify_pending
              && leb (r.last_current_notify + current_tag_notify_interval) now
            then now
            else r.last_current_notify)
          (if r.current_notify_pending
              && leb (r.last_current_notify + current_tag_notify_interval) now
            then false
            else r.current_notify_pending)
          r.current_pending_node_id ok ok.current_ok)
        all in
    if_cases WorldOk
      (r.current_notify_pending && leb (r.last_current_notify + current_tag_notify_interval) now) _
      _ (λ _. kept) (λ _. kept)

drop_current-WorldOk :
    (group : ℕ) (r : Runtime) (w : World)
    → RuntimeOk w.clock group r
    → WorldOk w
    → WorldOk (drop_current group r w).0
unfolding drop_current
drop_current-WorldOk group r w ok all =
    if_cases (λ (p : World × String). WorldOk p.0) (r.current_tag == "") _ _
      (λ _. insert-WorldOk group r w w.clock (omega arith) ok all)
      (λ _.
        insert-WorldOk group _ w w.clock (omega arith)
          (retag-RuntimeOk w.clock group r "" r.last_current_notify false r.current_pending_node_id
            ok (inl refl))
          all)

-- `CurrentTag` keeps every group well formed.
pub current_tag-WorldOk :
    (now group : ℕ) (w : World) → WorldOk w → WorldOk (current_tag now group w).0
unfolding current_tag
current_tag-WorldOk now group w all = elim (Option-cases (lookup group w.groups)) [
  | inl e ↦ rw (e, current_tag) all
  | inr (r, e) ↦
      let ok = Each-lookup (RuntimeOk w.clock) group w.groups all e in
      elim (Option-cases (lookup r.current_tag r.members)) [
        | inl f ↦ rw (e, f, current_tag) (drop_current-WorldOk group r w ok all)
        | inr (m, f) ↦
            let ok' = prune-RuntimeOk now group r r.current_tag m w f ok in
            rw (e, f, current_tag)
              (if_cases (λ (p : World × String). WorldOk p.0) (m.standby || m.evicted) _ _
                (λ _. drop_current-WorldOk group r w ok all)
                (λ _.
                  if_cases (λ (p : World × String). WorldOk p.0)
                    (length (prune_failures r.window now m).0.failure_history == 0) _ _
                    (λ _. serve_current-WorldOk now group _ w ok' all)
                    (λ _. drop_current-WorldOk group _ w ok' all)))
      ]
]

-- A tag that is not refused serves.
Serves-of_refuses :
    (tag : String) (members : List (String × Member))
    → refuses tag (lookup tag members) ≡ false
    → Serves tag members
Serves-of_refuses tag members h = elim (Bool-cases (tag == "")) [
  | inl e ↦ inl ((==_iff tag "").0 e)
  | inr e ↦ elim (Option-cases (lookup tag members)) [
    | inl f ↦ absurd (ground (arith, f, e))
    | inr (m, f) ↦ inr (rw f (ground (arith, f, e), ground (arith, f, e)))
  ]
]

-- `SetCurrentTag` keeps every group well formed.
pub set_current_tag-WorldOk :
    (now group : ℕ) (tag : String) (w : World)
    → WorldOk w
    → WorldOk (set_current_tag now group tag w)
unfolding set_current_tag
set_current_tag-WorldOk now group tag w all = elim (Option-cases (lookup group w.groups)) [
  | inl e ↦ rw (e, set_current_tag) all
  | inr (r, e) ↦
      let ok = Each-lookup (RuntimeOk w.clock) group w.groups all e in
      rw (e, set_current_tag)
        (if_cases WorldOk (refuses tag (lookup tag r.members)) _ _ (λ _. all)
          (λ allowed.
            if_cases WorldOk (r.current_tag == tag) _ _ (λ _. all)
              (λ _.
                let serves = Serves-of_refuses tag r.members allowed in
                if_cases WorldOk
                  (not (r.last_current_notify == 0)
                    && not (leb (r.last_current_notify + current_tag_notify_interval) now))
                  _ _
                  (λ _.
                    insert-WorldOk group _ w w.clock (omega arith)
                      (retag-RuntimeOk w.clock group r tag r.last_current_notify true
                        (node_of (lookup tag r.members)) ok serves)
                      all)
                  (λ _.
                    insert-WorldOk group _ w w.clock (omega arith)
                      (retag-RuntimeOk w.clock group r tag now false r.current_pending_node_id ok
                        serves)
                      all))))
]
