-- ===== src/Group/Replay.antt =====
-- The ring of applied probes of a member, which the loops over all groups leave alone.

use easy_proxies_v.Base.{
  Bool, Bool-cases, List, Option, String, String_eq, [], contains, false, if_cases, inl, inr,
  lookup, none, not, refl, some, true, ℕ, ℕ_eq, ◌&&◌, ◌+◌, ◌==◌, ◌∷◌, ◌≡◌,
}
use easy_proxies_v.Group.Member.{clear_member_eviction}
use easy_proxies_v.Group.State.{Member, Runtime, StateEvent}
use easy_proxies_v.Group.Sweep.{
  Visit, announce_evicted, behind, clear_members, clear_selected, evict_first, evict_member, sweep,
  visit_evict, visit_recover,
}

abbrev ring_member : Option Member → List String
ring_member none = []
ring_member (some m) = m.applied_probes

abbrev ring_group : String → Option Runtime → List String
ring_group tag none = []
ring_group tag (some r) = ring_member (lookup tag r.members)

-- The probes that the member of the group remembers.
abbrev pub ring_of : ℕ → String → List (ℕ × Runtime) → List String
ring_of group tag groups = ring_group tag (lookup group groups)

-- Whether the member of the group has applied the probe.
abbrev pub remembers : String → ℕ → String → List (ℕ × Runtime) → Bool
remembers probe group tag groups = contains probe (ring_of group tag groups)

clear_members-ring :
    (tag : String) (which : Member → Bool) (members : List (String × Member)) (clock : ℕ)
    → ring_member (lookup tag (clear_members which members clock).0)
      ≡ ring_member (lookup tag members)
unfolding clear_members lookup
clear_members-ring tag which [] clock = refl
clear_members-ring tag which ((t, m) ∷ rest) clock = elim (Bool-cases (t == tag)) [
  | inl e ↦ rw e (same (which m))
  | inr e ↦ rw e (clear_members-ring tag which rest _)
]
  where
    same : (hit : Bool) → (clear_selected hit clock m).applied_probes ≡ m.applied_probes
    same true = unfold clear_selected clear_member_eviction in refl
    same false = unfold clear_selected in refl

abbrev pub KeepsProbes : (Runtime → ℕ → Visit) → Type 0
KeepsProbes visit =
    (tag : String) (r : Runtime) (clock : ℕ)
    → ring_member (lookup tag (visit r clock).runtime.members) ≡ ring_member (lookup tag r.members)

pub visit_recover-KeepsProbes : (node origin : ℕ) → KeepsProbes (visit_recover node origin)
unfolding visit_recover
visit_recover-KeepsProbes node origin tag r clock =
    if_cases
      (λ (v : Visit).
        ring_member (lookup tag v.runtime.members) ≡ ring_member (lookup tag r.members))
      (r.id == origin) _ _ (λ _. refl) (λ _. clear_members-ring tag _ r.members clock)

-- What one eviction leaves of the memory of probes.
abbrev SameRing :
    String → List (String × Member) → Option (Member × List (String × Member)) → Type 0
SameRing tag old none = Unit
SameRing tag old (some (m, members)) =
    ring_member (lookup tag members) ≡ ring_member (lookup tag old)

behind-SameRing :
    (tag t : String) (m : Member) (rest : List (String × Member))
    (found : Option (Member × List (String × Member)))
    → SameRing tag rest found
    → SameRing tag ((t, m) ∷ rest) (behind (t, m) found)
unfolding lookup
behind-SameRing tag t m rest none h = tt
behind-SameRing tag t m rest (some (n, members)) h = elim (Bool-cases (t == tag)) [
  | inl e ↦ rw e refl
  | inr e ↦ rw e h
]

evict_first-SameRing :
    (tag : String) (node : ℕ) (last_error : String) (at revision : ℕ)
    (members : List (String × Member))
    → SameRing tag members (evict_first node (evict_member last_error at revision) members)
unfolding evict_first evict_member
evict_first-SameRing tag node last_error at revision [] = tt
evict_first-SameRing tag node last_error at revision ((t, m) ∷ rest) =
    if_cases (SameRing tag ((t, m) ∷ rest)) (m.node_id == node && not m.evicted) _ _
      (λ _. unfold lookup in elim (Bool-cases (t == tag)) [ inl e ↦ rw e refl | inr e ↦ rw e refl ])
      (λ _.
        behind-SameRing tag t m rest _ (evict_first-SameRing tag node last_error at revision rest))

pub visit_evict-KeepsProbes :
    (node : ℕ) (last_error : String) (at : ℕ) → KeepsProbes (visit_evict node last_error at)
unfolding visit_evict
visit_evict-KeepsProbes node last_error at tag r clock =
    announced _ (evict_first-SameRing tag node last_error at (clock + 1) r.members)
  where
    announced :
        (found : Option (Member × List (String × Member)))
        → SameRing tag r.members found
        → ring_member
            (lookup tag (announce_evicted node last_error at r clock found).runtime.members)
          ≡ ring_member (lookup tag r.members)
    announced none h = refl
    announced (some (m, members)) h = h

pub sweep-ring :
    (visit : Runtime → ℕ → Visit)
    → KeepsProbes visit
    → (group : ℕ) (tag : String) (groups : List (ℕ × Runtime)) (clock : ℕ) (log : List StateEvent)
    → ring_of group tag (sweep visit groups clock log).groups ≡ ring_of group tag groups
unfolding sweep lookup
sweep-ring visit keeps group tag [] clock log = refl
sweep-ring visit keeps group tag ((g, r) ∷ rest) clock log = elim (Bool-cases (g == group)) [
  | inl e ↦ rw e (keeps tag r clock)
  | inr e ↦ rw e (sweep-ring visit keeps group tag rest _ _)
]
