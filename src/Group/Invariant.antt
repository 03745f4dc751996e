-- ===== src/Group/Invariant.antt =====
-- What holds of every group between two operations, and how a sweep over the groups keeps it.

-- A member under a policy, with revisions given out up to `clock`.

use easy_proxies_v.Base.{
  ==_iff, Bool-cases, Each, Each-insert, Each-map, List, Option, String, String_eq, [], arith,
  false, inl, inr, insert, length, lookup, lookup-insert, none, pos_part, some, subst, sym, true, ℕ,
  ℕ_eq, ◌<◌, ◌==◌, ◌∙◌, ◌∷◌, ◌≡◌, ◌≤◌, ◌⊎◌,
}
use easy_proxies_v.Group.Member.{group_probe_ring}
use easy_proxies_v.Group.State.{Member, RecoveryPolicy, Runtime, StateEvent, World}
use easy_proxies_v.Group.Sweep.{Visit, emit, sweep, sweep_world}

pub record MemberOk (p : RecoveryPolicy) (clock : ℕ) (tag : String) (m : Member) : Type 0 where
  pub tagged : m.tag ≡ tag
  pub idle : m.evicted ≡ false → m.recovery_successes ≡ 0
  pub short : m.recovery_successes < pos_part p.success_threshold
  pub dated : m.evicted ≡ true → 0 < m.evicted_at
  pub ring : length m.applied_probes ≤ group_probe_ring
  pub stamped : m.revision ≤ clock

abbrev pub Usable : Option Member → Type 0
Usable none = ⊥
Usable (some m) = (m.standby ≡ false) × (m.evicted ≡ false)

-- The current tag is empty, or names a member that is neither standby nor evicted.
abbrev pub Serves : String → List (String × Member) → Type 0
Serves tag members = (tag ≡ "") ⊎ Usable (lookup tag members)

pub record RuntimeOk (clock : ℕ) (group : ℕ) (r : Runtime) : Type 0 where
  pub named : r.id ≡ group
  pub members_ok : Each (MemberOk r.recovery clock) r.members
  pub current_ok : Serves r.current_tag r.members
  pub policy_ok : 0 < pos_part r.recovery.success_threshold
  pub window_ok : 0 < r.window
  pub threshold_ok : 0 < r.threshold

abbrev pub WorldOk : World → Type 0
WorldOk w = Each (RuntimeOk w.clock) w.groups

pub MemberOk-mono :
    (p : RecoveryPolicy) {c d : ℕ}
    → c ≤ d
    → (tag : String) (m : Member) → MemberOk p c tag m
    → MemberOk p d tag m
MemberOk-mono p h tag m ok = record {
  tagged = ok.tagged;
  idle = ok.idle;
  short = ok.short;
  dated = ok.dated;
  ring = ok.ring;
  stamped = omega arith;
}

pub RuntimeOk-mono :
    {c d : ℕ} → c ≤ d → (group : ℕ) (r : Runtime) → RuntimeOk c group r → RuntimeOk d group r
RuntimeOk-mono h group r ok = record {
  named = ok.named;
  members_ok = Each-map (MemberOk-mono r.recovery h) r.members ok.members_ok;
  current_ok = ok.current_ok;
  policy_ok = ok.policy_ok;
  window_ok = ok.window_ok;
  threshold_ok = ok.threshold_ok;
}

-- A visit that keeps the invariant of the group and does not turn the clock back.
abbrev pub KeepsOk : (Runtime → ℕ → Visit) → Type 0
KeepsOk visit =
    (clock group : ℕ) (r : Runtime)
    → RuntimeOk clock group r
    → (clock ≤ (visit r clock).clock)
      × RuntimeOk (visit r clock).clock group (visit r clock).runtime

pub sweep-RuntimeOk :
    (visit : Runtime → ℕ → Visit)
    → KeepsOk visit
    → (groups : List (ℕ × Runtime)) (clock : ℕ) (log : List StateEvent)
    → Each (RuntimeOk clock) groups
    → let s = sweep visit groups clock log in (clock ≤ s.clock) × Each (RuntimeOk s.clock) s.groups
unfolding sweep
sweep-RuntimeOk visit keeps [] clock log ok = (omega arith, tt)
sweep-RuntimeOk visit keeps ((g, r) ∷ rest) clock log ok =
    let v = visit r clock in
    let (forward, head) = keeps clock g r ok.0 in
    let (later, tail) =
      sweep-RuntimeOk visit keeps rest v.clock (emit v.event log)
        (Each-map (RuntimeOk-mono forward) rest ok.1) in
    (omega arith, (RuntimeOk-mono later g v.runtime head, tail))

pub sweep_world-WorldOk :
    (visit : Runtime → ℕ → Visit)
    → KeepsOk visit
    → (w : World) → WorldOk w
    → WorldOk (sweep_world visit w)
sweep_world-WorldOk visit keeps w ok = (sweep-RuntimeOk visit keeps w.groups w.clock w.log ok).1

-- A changed group is put back.
pub insert-WorldOk :
    (group : ℕ) (r : Runtime) (w : World) (clock : ℕ)
    → w.clock ≤ clock
    → RuntimeOk clock group r
    → WorldOk w
    → Each (RuntimeOk clock) (insert group r w.groups)
insert-WorldOk group r w clock h ok all =
    Each-insert (RuntimeOk clock) group r w.groups ok (Each-map (RuntimeOk-mono h) w.groups all)

-- The member put under `tag` may serve if that tag is current and its member could.
abbrev pub Stays : String → String → List (String × Member) → Member → Type 0
Stays current tag members m =
    (tag ≡ current) → Usable (lookup current members) → (m.standby ≡ false) × (m.evicted ≡ false)

pub Serves-insert :
    (current tag : String) (m : Member) (members : List (String × Member))
    → Serves current members
    → Stays current tag members m
    → Serves current (insert tag m members)
Serves-insert current tag m members (inl e) h = inl e
Serves-insert current tag m members (inr u) h = inr (go (Bool-cases (tag == current)))
  where
    go :
        ((tag == current) ≡ true) ⊎ ((tag == current) ≡ false)
        → Usable (lookup current (insert tag m members))
    go (inl same) =
        rw (lookup-insert tag current m members, same) (h ((==_iff tag current).0 same) u)
    go (inr other) = rw (lookup-insert tag current m members, other) u

-- A member that keeps its flags stays.
pub Stays-of_flags :
    (current tag : String) (members : List (String × Member)) (m n : Member)
    → lookup tag members ≡ some m
    → n.standby ≡ m.standby
    → n.evicted ≡ m.evicted
    → Stays current tag members n
Stays-of_flags current tag members m n found standby evicted same usable =
    let u : Usable (some m) =
      subst Usable found (subst (λ t. Usable (lookup t members)) (sym same) usable) in
    (standby ∙ u.0, evicted ∙ u.1)

-- No member stands under the tag of the group.
abbrev pub IsAbsent : ℕ → String → World → Type 0
IsAbsent group tag w =
    (lookup group w.groups ≡ none)
    ⊎ ((r : Runtime) × (lookup group w.groups ≡ some r) × (lookup tag r.members ≡ none))
