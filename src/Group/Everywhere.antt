-- ===== src/Group/Everywhere.antt =====
-- An eviction and a recovery reach every group.

-- How many members of a node still stand un-evicted, and how many are evicted.

use easy_proxies_v.Base.{
  ==_iff, Bool, Bool-cases, List, Option, String, [], arith, contains, contains-keep_ne, false,
  if_cases, if◌then◌else◌, inl, inr, lookup, none, not, refl, some, suc, true, ℕ, ℕ_eq, ◌&&◌, ◌+◌,
  ◌-◌, ◌==◌, ◌∷◌, ◌≡◌, ◌⊎◌,
}
use easy_proxies_v.Group.Member.{clear_member_eviction}
use easy_proxies_v.Group.State.{Member, Runtime, StateEvent, World}
use easy_proxies_v.Group.Success.{restore_group_member}
use easy_proxies_v.Group.Sweep.{
  Visit, announce_evicted, behind, clear_members, clear_selected, evict_first, evict_member,
  propagate_eviction, recover_evicted_node_everywhere, sweep, visit_evict, visit_recover,
  visit_restore,
}

abbrev pub count : (Member → Bool) → List (String × Member) → ℕ
count which [] = 0
count which ((tag, m) ∷ rest) = if which m then suc (count which rest) else count which rest

abbrev pub live_of : ℕ → Member → Bool
live_of node m = m.node_id == node && not m.evicted

abbrev pub banned_of : ℕ → Member → Bool
banned_of node m = m.node_id == node && m.evicted

abbrev pub live_count : ℕ → Runtime → ℕ
live_count node r = count (live_of node) r.members

abbrev pub banned_count : ℕ → Runtime → ℕ
banned_count node r = count (banned_of node) r.members

-- A statement about each group before and after.
abbrev pub Pairwise :
    (Runtime → Runtime → Type 0) → List (ℕ × Runtime) → List (ℕ × Runtime) → Type 0
Pairwise R [] [] = Unit
Pairwise R [] (_ ∷ _) = ⊥
Pairwise R (_ ∷ _) [] = ⊥
Pairwise R ((g, r) ∷ rest) ((g', r') ∷ rest') = (g ≡ g') × R r r' × Pairwise R rest rest'

sweep-Pairwise :
    (R : Runtime → Runtime → Type 0) (visit : Runtime → ℕ → Visit)
    → ((r : Runtime) (clock : ℕ) → R r (visit r clock).runtime)
    → (groups : List (ℕ × Runtime)) (clock : ℕ) (log : List StateEvent)
    → Pairwise R groups (sweep visit groups clock log).groups
unfolding sweep
sweep-Pairwise R visit each [] clock log = tt
sweep-Pairwise R visit each ((g, r) ∷ rest) clock log =
    (refl, each r clock, sweep-Pairwise R visit each rest _ _)

-- One eviction takes one live member away.
abbrev EvictsCount : ℕ → List (String × Member) → Option (Member × List (String × Member)) → Type 0
EvictsCount node old none = count (live_of node) old ≡ 0
EvictsCount node old (some (m, members)) =
    count (live_of node) old ≡ suc (count (live_of node) members)

behind-EvictsCount :
    (node : ℕ) (tag : String) (m : Member) (rest : List (String × Member))
    (found : Option (Member × List (String × Member)))
    → live_of node m ≡ false
    → EvictsCount node rest found
    → EvictsCount node ((tag, m) ∷ rest) (behind (tag, m) found)
behind-EvictsCount node tag m rest none dead h = rw dead h
behind-EvictsCount node tag m rest (some (n, members)) dead h = rw dead h

evict_first-EvictsCount :
    (node : ℕ) (last_error : String) (at revision : ℕ) (members : List (String × Member))
    → EvictsCount node members (evict_first node (evict_member last_error at revision) members)
unfolding evict_first evict_member
evict_first-EvictsCount node last_error at revision [] = refl
evict_first-EvictsCount node last_error at revision ((tag, m) ∷ rest) =
    if_cases (EvictsCount node ((tag, m) ∷ rest)) (live_of node m) _ _
      (λ live. rw live (ground (arith, live)))
      (λ dead.
        behind-EvictsCount node tag m rest _ dead
          (evict_first-EvictsCount node last_error at revision rest))

announce_evicted-live_count :
    (node : ℕ) (last_error : String) (at : ℕ) (r : Runtime) (clock : ℕ)
    (found : Option (Member × List (String × Member)))
    → EvictsCount node r.members found
    → live_count node (announce_evicted node last_error at r clock found).runtime
      ≡ live_count node r - 1
unfolding announce_evicted
announce_evicted-live_count node last_error at r clock none h = omega (arith, h)
announce_evicted-live_count node last_error at r clock (some (m, members)) h = omega (arith, h)

-- The eviction of a node with an id takes one live member of the node away in every group that has one, and
-- leaves no more than it found; so it leaves none where the group has the node under one tag.
pub propagate_eviction-live_count :
    (now node : ℕ) (last_error : String) (at : ℕ) (w : World)
    → (node == 0) ≡ false
    → Pairwise
        (λ before after. live_count node after ≡ live_count node before - 1)
        w.groups
        (propagate_eviction now node last_error at w).groups
unfolding propagate_eviction visit_evict
propagate_eviction-live_count now node last_error at w h = rw h (
    sweep-Pairwise (λ before after. live_count node after ≡ live_count node before - 1) _
      (λ r clock.
        announce_evicted-live_count node last_error _ r clock _
          (evict_first-EvictsCount node last_error _ (clock + 1) r.members))
      w.groups w.clock w.log)

clear_members-banned :
    (node : ℕ) (which : Member → Bool) (members : List (String × Member)) (clock : ℕ)
    → ((m : Member) → which m ≡ false → banned_of node m ≡ false)
    → count (banned_of node) (clear_members which members clock).0 ≡ 0
unfolding clear_members
clear_members-banned node which [] clock h = refl
clear_members-banned node which ((tag, m) ∷ rest) clock h =
    rw (cleared (which m) refl) (clear_members-banned node which rest _ h)
  where
    cleared : (hit : Bool) → which m ≡ hit → banned_of node (clear_selected hit clock m) ≡ false
    cleared true e = unfold clear_selected clear_member_eviction in ground arith
    cleared false e = unfold clear_selected in h m e

-- The recovery of a node with an id leaves no member of it evicted in any group but the one that proved it.
pub recover_evicted_node_everywhere-banned_count :
    (node origin : ℕ) (w : World)
    → (node == 0) ≡ false
    → Pairwise
        (λ before after. (before.id ≡ origin) ⊎ (banned_count node after ≡ 0))
        w.groups
        (recover_evicted_node_everywhere node origin w).groups
unfolding recover_evicted_node_everywhere visit_recover
recover_evicted_node_everywhere-banned_count node origin w h = rw h (
    sweep-Pairwise (λ before after. (before.id ≡ origin) ⊎ (banned_count node after ≡ 0)) _
      (λ r clock. elim (Bool-cases (r.id == origin)) [
        | inl e ↦ inl ((==_iff r.id origin).0 e)
        | inr e ↦ rw e (inr (clear_members-banned node (banned_of node) r.members clock (λ m d. d)))
      ])
      w.groups w.clock w.log)

-- A restore that names a registered group leaves no member of the node evicted in any group, and takes its global mark away.
pub restore_group_member-banned_count :
    (group node : ℕ) (w : World) {r : Runtime}
    → lookup group w.groups ≡ some r
    → let w' = (restore_group_member group node w).0 in
      Pairwise (λ before after. banned_count node after ≡ 0) w.groups w'.groups
      × (contains node w'.evicted_nodes ≡ false)
unfolding restore_group_member visit_restore
restore_group_member-banned_count group node w e =
    rw (e, restore_group_member)
      (
        sweep-Pairwise (λ before after. banned_count node after ≡ 0) _
            (λ r clock.
              clear_members-banned node (λ m. m.node_id == node) r.members clock
                (λ m d. ground (arith, d)))
            w.groups w.clock w.log,
        contains-keep_ne node w.evicted_nodes,
      )
