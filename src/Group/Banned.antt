-- ===== src/Group/Banned.antt =====
-- The eviction of a node elsewhere leaves an evicted member evicted.

use easy_proxies_v.Base.{
  Bool, Bool-cases, List, Option, String, String_eq, [], arith, false, if_cases, if◌then◌else◌, inl,
  inr, lookup, none, not, refl, some, true, ℕ, ℕ_eq, ◌&&◌, ◌+◌, ◌==◌, ◌∷◌, ◌≡◌, ◌⊎◌,
}
use easy_proxies_v.Group.State.{Member, Runtime, StateEvent, World}
use easy_proxies_v.Group.Sweep.{
  Visit, announce_evicted, behind, evict_first, evict_member, propagate_eviction, sweep,
  visit_evict,
}

abbrev pub banned_member : Option Member → Bool
banned_member none = false
banned_member (some m) = m.evicted

abbrev banned_group : String → Option Runtime → Bool
banned_group tag none = false
banned_group tag (some r) = banned_member (lookup tag r.members)

-- Whether the member of the group is stored as evicted.
abbrev pub is_banned : ℕ → String → List (ℕ × Runtime) → Bool
is_banned group tag groups = banned_group tag (lookup group groups)

-- What one eviction leaves of the evicted members.
abbrev StaysBanned :
    String → List (String × Member) → Option (Member × List (String × Member)) → Type 0
StaysBanned tag old none = Unit
StaysBanned tag old (some (m, members)) =
    (banned_member (lookup tag old) ≡ false) ⊎ (banned_member (lookup tag members) ≡ true)

behind-StaysBanned :
    (tag t : String) (m : Member) (rest : List (String × Member))
    (found : Option (Member × List (String × Member)))
    → StaysBanned tag rest found
    → StaysBanned tag ((t, m) ∷ rest) (behind (t, m) found)
unfolding lookup
behind-StaysBanned tag t m rest none h = tt
behind-StaysBanned tag t m rest (some (n, members)) h = elim (Bool-cases (t == tag)) [
  | inl e ↦ rw e (elim (Bool-cases m.evicted) [ inl b ↦ inr b | inr b ↦ inl b ])
  | inr e ↦ rw e h
]

evict_first-StaysBanned :
    (tag : String) (node : ℕ) (last_error : String) (at revision : ℕ)
    (members : List (String × Member))
    → StaysBanned tag members (evict_first node (evict_member last_error at revision) members)
unfolding evict_first evict_member
evict_first-StaysBanned tag node last_error at revision [] = tt
evict_first-StaysBanned tag node last_error at revision ((t, m) ∷ rest) =
    if_cases (StaysBanned tag ((t, m) ∷ rest)) (m.node_id == node && not m.evicted) _ _
      (λ _.
        unfold lookup in
        elim (Bool-cases (t == tag)) [
          | inl e ↦ rw e (inr refl)
          | inr e ↦ rw e (elim (Bool-cases (banned_member (lookup tag rest))) [
            | inl b ↦ inr b
            | inr b ↦ inl b
          ])
        ])
      (λ _.
        behind-StaysBanned tag t m rest _
          (evict_first-StaysBanned tag node last_error at revision rest))

visit_evict-banned :
    (node : ℕ) (last_error : String) (at : ℕ) (tag : String) (r : Runtime) (clock : ℕ)
    → banned_member (lookup tag r.members) ≡ true
    → banned_member (lookup tag (visit_evict node last_error at r clock).runtime.members) ≡ true
unfolding visit_evict
visit_evict-banned node last_error at tag r clock h =
    announced _ (evict_first-StaysBanned tag node last_error at (clock + 1) r.members)
  where
    announced :
        (found : Option (Member × List (String × Member)))
        → StaysBanned tag r.members found
        → banned_member
            (lookup tag (announce_evicted node last_error at r clock found).runtime.members)
          ≡ true
    announced none s = h
    announced (some (m, members)) (inl free) = absurd (ground (arith, h, free))
    announced (some (m, members)) (inr still) = still

sweep-banned :
    (visit : Runtime → ℕ → Visit) (tag : String)
    → ((r : Runtime) (clock : ℕ)
        → banned_member (lookup tag r.members) ≡ true
        → banned_member (lookup tag (visit r clock).runtime.members) ≡ true)
    → (group : ℕ) (groups : List (ℕ × Runtime)) (clock : ℕ) (log : List StateEvent)
    → is_banned group tag groups ≡ true
    → is_banned group tag (sweep visit groups clock log).groups ≡ true
unfolding sweep lookup
sweep-banned visit tag keeps group [] clock log h = h
sweep-banned visit tag keeps group ((g, r) ∷ rest) clock log h = elim (Bool-cases (g == group)) [
  | inl e ↦ rw e (keeps r clock (rw e at h))
  | inr e ↦ rw e (sweep-banned visit tag keeps group rest _ _ (rw e at h))
]

pub propagate_eviction-banned :
    (group : ℕ) (tag : String) (now node : ℕ) (last_error : String) (at : ℕ) (w : World)
    → is_banned group tag w.groups ≡ true
    → is_banned group tag (propagate_eviction now node last_error at w).groups ≡ true
unfolding propagate_eviction
propagate_eviction-banned group tag now node last_error at w h =
    if_cases (λ (v : World). is_banned group tag v.groups ≡ true) (node == 0) _ _ (λ _. h)
      (λ _.
        sweep-banned _ tag (visit_evict-banned node last_error (if at == 0 then now else at) tag)
          group w.groups w.clock w.log h)
