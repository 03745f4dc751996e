-- ===== src/Group/Put.antt =====
-- Putting a changed member back keeps the world well formed.

use easy_proxies_v.Base.{Each-insert, Each-map, String, String_eq, insert, ℕ, ◌≤◌}
use easy_proxies_v.Group.Failure.{put_member}
use easy_proxies_v.Group.Invariant.{
  MemberOk, MemberOk-mono, RuntimeOk, Serves-insert, Stays, WorldOk, insert-WorldOk,
}
use easy_proxies_v.Group.State.{Member, Runtime, World}

pub put-RuntimeOk :
    (group clock d : ℕ) (r : Runtime) (tag : String) (m : Member)
    → clock ≤ d
    → RuntimeOk clock group r
    → MemberOk r.recovery d tag m
    → Stays r.current_tag tag r.members m
    → RuntimeOk d group (record r { members = insert tag m r.members })
put-RuntimeOk group clock d r tag m h ok mok usable = record {
  named = ok.named;
  members_ok =
      Each-insert (MemberOk r.recovery d) tag m r.members mok
        (Each-map (MemberOk-mono r.recovery h) r.members ok.members_ok);
  current_ok = Serves-insert r.current_tag tag m r.members ok.current_ok usable;
  policy_ok = ok.policy_ok;
  window_ok = ok.window_ok;
  threshold_ok = ok.threshold_ok;
}

pub put_member-WorldOk :
    (group : ℕ) (r : Runtime) (tag : String) (m : Member) (w : World) (d : ℕ)
    → w.clock ≤ d
    → RuntimeOk w.clock group r
    → MemberOk r.recovery d tag m
    → Stays r.current_tag tag r.members m
    → WorldOk w
    → WorldOk (put_member group r tag m (record w { clock = d }))
unfolding put_member
put_member-WorldOk group r tag m w d h ok mok usable all =
    insert-WorldOk group _ w d h (put-RuntimeOk group w.clock d r tag m h ok mok usable) all
