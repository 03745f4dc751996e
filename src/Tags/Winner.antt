-- ===== src/Tags/Winner.antt =====
-- Which of the matched rules takes a mutex group.

use easy_proxies_v.Base.{
  All, All-map, All-sort_by_inv, Bool-cases, IsSorted, List, Option, [], arith, eq_ℤ, false, inl,
  inr, keep, ltb_ℤ, none, refl, some, sort_by, sort_by-IsSorted, subst, sym, take, true, ℕ, ℕ_eq,
  ◌==◌, ◌∙◌, ◌∷◌, ◌≡◌, ◌≤◌, ◌⊎◌,
}
use easy_proxies_v.Tags.Mutex.{holder, in_group, let_through, resolve_rules-applied}
use easy_proxies_v.Tags.Resolve.{Rule, TagMeta, occupy_manual, precedes, resolve_rules}

module _ {C : Type 0} where
  precedes_asym : (a b : Rule C) → precedes a b ≡ true → precedes b a ≡ false
  precedes_asym a b h = ground (arith, h)

  precedes_trans :
      (a b c : Rule C) → precedes a b ≡ false → precedes b c ≡ false → precedes a c ≡ false
  precedes_trans a b c h k = ground (arith, h, k)

  -- A rule of lower priority than the winner, or of the same priority and no lower tag id.
  abbrev pub ComesAfter : Rule C → Rule C → Type 0
  ComesAfter winner r =
      (ltb_ℤ r.priority winner.priority ≡ true)
      ⊎ ((r.priority ≡ winner.priority) × (winner.tag_id ≤ r.tag_id))

  precedes-ComesAfter : (winner r : Rule C) → precedes r winner ≡ false → ComesAfter winner r
  precedes-ComesAfter winner r h = elim (Bool-cases (eq_ℤ r.priority winner.priority)) [
    | inl e ↦ inr (ground (arith, e), ground (arith, e, h))
    | inr e ↦ inl (ground (arith, e, h))
  ]

  -- A rule outside the group, or one that comes after the winner.
  abbrev pub Yields : ℕ → Rule C → Rule C → Type 0
  Yields g winner r = (in_group g r ≡ false) ⊎ ComesAfter winner r

  first-Yields :
      (g : ℕ) (winner : Rule C) (rules : List (Rule C))
      → IsSorted precedes rules
      → take 1 (keep (in_group g) rules) ≡ winner ∷ []
      → All (Yields g winner) rules
  first-Yields g winner [] sorted h = tt
  first-Yields g winner (r ∷ rest) sorted h = elim (Bool-cases (in_group g r)) [
    | inl e ↦
        let first : r ∷ [] ≡ winner ∷ [] = rw e at h in
        let same : r ≡ winner = ground (arith, first) in
        subst (λ (w : Rule C). All (Yields g w) (r ∷ rest)) same
          (
            inr (inr (refl, omega arith)),
            All-map {Q = Yields g r}
                (λ (s : Rule C) (k : precedes s r ≡ false). inr (precedes-ComesAfter r s k)) rest
                sorted.0,
          )
    | inr e ↦ (inl e, first-Yields g winner rest sorted.1 (rw e at h))
  ]

  let_through-Yields :
      (g : ℕ) (winner : Rule C) (held : Option TagMeta) (rules : List (Rule C))
      → (g == 0) ≡ false
      → IsSorted precedes rules
      → let_through g held rules ≡ winner ∷ []
      → All (Yields g winner) rules
  let_through-Yields g winner none rules grouped sorted h =
      first-Yields g winner rules sorted (rw grouped at h)
  let_through-Yields g winner (some m) rules grouped sorted h = absurd (ground (arith, h))

  -- When `Resolve` applies one rule of a mutex group, every rule that matched in the group has a
  -- lower priority, or the same priority and no lower tag id.
  pub resolve_rules-best :
      (g : ℕ) (winner : Rule C) (matched : List (Rule C)) (manual : List ℕ)
      (meta : List (ℕ × TagMeta))
      → (g == 0) ≡ false
      → keep (in_group g) (resolve_rules matched manual meta).applied ≡ winner ∷ []
      → All (Yields g winner) matched
  resolve_rules-best g winner matched manual meta grouped h =
      All-sort_by_inv precedes (Yields g winner) matched (
        let_through-Yields g winner (holder g (occupy_manual meta manual []))
          (sort_by precedes matched) grouped
          (sort_by-IsSorted precedes precedes_asym precedes_trans matched)
          (sym (resolve_rules-applied g matched manual meta) ∙ h))
