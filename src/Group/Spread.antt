-- ===== src/Group/Spread.antt =====
-- The global consequences of a change keep every group well formed: the eviction of a node in all
-- groups, its recovery, and its release by hand.

-- What `evict_first` leaves: all members well formed, and no other tag's entry changed.

use easy_proxies_v.Base.{
  ==_sym, Bool-cases, Each, Each-map, List, Option, String, String_eq, [], arith, false,
  if◌then◌else◌, inl, inr, lookup, lookup-cons_ne, lookup-cons_tail, none, not, pos_part, refl,
  some, subst, ℕ, ℕ_eq, ◌&&◌, ◌+◌, ◌<◌, ◌==◌, ◌∷◌, ◌≡◌, ◌≤◌,
}
use easy_proxies_v.Group.Invariant.{
  KeepsOk, MemberOk, MemberOk-mono, RuntimeOk, Serves, WorldOk, sweep_world-WorldOk,
}
use easy_proxies_v.Group.State.{Member, RecoveryPolicy, Runtime, World}
use easy_proxies_v.Group.Sweep.{
  announce_evicted, behind, evict_first, evict_member, propagate_eviction, visit_evict,
}

abbrev EvictsOne :
    RecoveryPolicy → ℕ → List (String × Member) → Option (Member × List (String × Member)) → Type 0
EvictsOne p clock old none = Unit
EvictsOne p clock old (some (m, members)) =
    Each (MemberOk p clock) members
    × ((tag : String) → (m.tag == tag) ≡ false → lookup tag members ≡ lookup tag old)

module _ (p : RecoveryPolicy) (policy_ok : 0 < pos_part p.success_threshold) where
  evict_member-MemberOk :
      (last_error : String) (at clock : ℕ) (tag : String) (m : Member)
      → 0 < at
      → MemberOk p clock tag m
      → MemberOk p (clock + 1) tag (evict_member last_error at (clock + 1) m)
  unfolding evict_member
  evict_member-MemberOk last_error at clock tag m dated ok = record {
    tagged = ok.tagged;
    idle = λ e. refl;
    short = policy_ok;
    dated = λ e. dated;
    ring = ok.ring;
    stamped = omega arith;
  }

  behind-EvictsOne :
      (clock : ℕ) (tag : String) (m : Member) (rest : List (String × Member))
      (found : Option (Member × List (String × Member)))
      → MemberOk p clock tag m
      → EvictsOne p clock rest found
      → EvictsOne p clock ((tag, m) ∷ rest) (behind (tag, m) found)
  behind-EvictsOne clock tag m rest none ok h = tt
  behind-EvictsOne clock tag m rest (some (n, members)) ok h =
      ((ok, h.0), λ t other. lookup-cons_tail tag t m members rest (h.1 t other))

  evict_first-EvictsOne :
      (node : ℕ) (last_error : String) (at clock : ℕ) (members : List (String × Member))
      → 0 < at
      → Each (MemberOk p clock) members
      → EvictsOne p
          (clock + 1)
          members
          (evict_first node (evict_member last_error at (clock + 1)) members)
  unfolding evict_first
  evict_first-EvictsOne node last_error at clock [] dated ok = tt
  evict_first-EvictsOne node last_error at clock ((tag, m) ∷ rest) dated ok =
      let up : (t : String) (n : Member) → MemberOk p clock t n → MemberOk p (clock + 1) t n =
        MemberOk-mono p (omega arith) in
      let later = evict_first-EvictsOne node last_error at clock rest dated ok.1 in
      let found = evict_member-MemberOk last_error at clock tag m dated ok.0 in
      elim (Bool-cases (m.node_id == node && not m.evicted)) [
        | inl hit ↦ rw hit (
          (found, Each-map up rest ok.1),
          λ t other.
              lookup-cons_ne tag t _ m rest (subst (λ x. (x == t) ≡ false) found.tagged other),
        )
        | inr miss ↦ rw miss (behind-EvictsOne (clock + 1) tag m rest _ (up tag m ok.0) later)
      ]

-- The current tag is given up exactly where its member is evicted.
Serves-evicted :
    (current : String) (m : Member) (members old : List (String × Member))
    → ((tag : String) → (m.tag == tag) ≡ false → lookup tag members ≡ lookup tag old)
    → Serves current old
    → Serves (if current == m.tag then "" else current) members
Serves-evicted current m members old same ok = elim (Bool-cases (current == m.tag)) [
  | inl e ↦ rw e (inl refl)
  | inr e ↦ rw e (elim ok [
    | inl blank ↦ inl blank
    | inr usable ↦ inr (rw (same current (==_sym current m.tag e)) usable)
  ])
]

announce_evicted-RuntimeOk :
    (node : ℕ) (last_error : String) (at group : ℕ) (r : Runtime) (clock : ℕ)
    (found : Option (Member × List (String × Member)))
    → RuntimeOk clock group r
    → EvictsOne r.recovery (clock + 1) r.members found
    → let v = announce_evicted node last_error at r clock found in
      (clock ≤ v.clock) × RuntimeOk v.clock group v.runtime
unfolding announce_evicted
announce_evicted-RuntimeOk node last_error at group r clock none ok h = (omega arith, ok)
announce_evicted-RuntimeOk node last_error at group r clock (some (m, members)) ok h = (
  omega arith,
  record {
    named = ok.named;
    members_ok = h.0;
    current_ok = Serves-evicted r.current_tag m members r.members h.1 ok.current_ok;
    policy_ok = ok.policy_ok;
    window_ok = ok.window_ok;
    threshold_ok = ok.threshold_ok;
  },
)

pub visit_evict-KeepsOk :
    (node : ℕ) (last_error : String) (at : ℕ) → 0 < at → KeepsOk (visit_evict node last_error at)
unfolding visit_evict
visit_evict-KeepsOk node last_error at dated clock group r ok =
    announce_evicted-RuntimeOk node last_error at group r clock _ ok (
      evict_first-EvictsOne r.recovery ok.policy_ok node last_error at clock r.members dated
        ok.members_ok)

-- `propagateEviction` keeps every group well formed.
pub propagate_eviction-WorldOk :
    (now node : ℕ) (last_error : String) (at : ℕ) (w : World)
    → 0 < now
    → WorldOk w
    → WorldOk (propagate_eviction now node last_error at w)
unfolding propagate_eviction
propagate_eviction-WorldOk now node last_error at w h ok = elim (Bool-cases (node == 0)) [
  | inl e ↦ rw e ok
  | inr e ↦ rw e (
      sweep_world-WorldOk _
        (visit_evict-KeepsOk node last_error (if at == 0 then now else at) (ground arith)) w ok)
]
