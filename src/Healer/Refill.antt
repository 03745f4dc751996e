-- ===== src/Healer/Refill.antt =====
-- What `Validate` of internal/group/healer.go accepts as a refill.

-- A strict order that the refill goes through.

use easy_proxies_v.Base.{
  Bool-cases, List, Option, [], ap, arith, false, if_cases, inl, inr, length, ltb, ltb_ℤ, max,
  nat_eq, nat_eq_iff, none, option_cases, pos, refl, some, subst, suc, sym, true, zero, ℕ, ◌+◌, ◌<◌,
  ◌||◌, ◌∙◌, ◌∷◌, ◌≡◌, ◌≤◌,
}
use easy_proxies_v.Healer.Policy.{
  ActionKind, HealPolicy, PolicyError, capacity_alert, capacity_out_of_range, has_kind, kind_eq,
  probe_quarantined, promote_standby, refill_order, refresh_subscription, unknown, validate,
  validate_refill,
}

abbrev pub Ascending : ℕ → List ActionKind → Type 0
Ascending next [] = Unit
Ascending next (a ∷ rest) =
    (order : ℕ) × (refill_order a ≡ some order) × (next ≤ order) × Ascending (suc order) rest

order_bound : (a : ActionKind) (n : ℕ) → refill_order a ≡ some n → n < 3
order_bound promote_standby n e = ground arith
order_bound probe_quarantined n e = ground arith
order_bound refresh_subscription n e = ground arith
order_bound capacity_alert n e = absurd (ground arith)
order_bound (unknown t) n e = absurd (ground arith)

length-Ascending :
    (next : ℕ) (kinds : List ActionKind) → Ascending next kinds → length kinds + next ≤ max next 3
length-Ascending next [] h = omega arith
length-Ascending next (a ∷ rest) (order, e, le, h) =
    omega (arith, order_bound a order e, length-Ascending (suc order) rest h)

abbrev kind_of : ℕ → ActionKind
kind_of zero = promote_standby
kind_of (suc zero) = probe_quarantined
kind_of (suc (suc n)) = refresh_subscription

refill_order-inv :
    (a : ActionKind) (n : ℕ) → refill_order a ≡ some n → (a ≡ kind_of n) × (kind_eq a a ≡ true)
refill_order-inv promote_standby n e =
    let zero_order : 0 ≡ n = ground arith in (ap kind_of zero_order, refl)
refill_order-inv probe_quarantined n e = let one : 1 ≡ n = ground arith in (ap kind_of one, refl)
refill_order-inv refresh_subscription n e = let two : 2 ≡ n = ground arith in (ap kind_of two, refl)
refill_order-inv capacity_alert n e = absurd (ground arith)
refill_order-inv (unknown t) n e = absurd (ground arith)

same_order :
    (a b : ActionKind) (n : ℕ)
    → refill_order a ≡ some n
    → refill_order b ≡ some n
    → kind_eq b a ≡ true
same_order a b n ea eb =
    let (ka, ra) = refill_order-inv a n ea in
    let (kb, rb) = refill_order-inv b n eb in
    subst (λ (k : ActionKind). kind_eq k a ≡ true) (ka ∙ sym kb) ra

-- The action just before `next` was seen.
abbrev SeenBefore : ℕ → List ActionKind → Type 0
SeenBefore next seen =
    (b : ActionKind) (n : ℕ) → refill_order b ≡ some n → suc n ≡ next → has_kind b seen ≡ true

just_seen :
    (a : ActionKind) (seen : List ActionKind) (order : ℕ)
    → refill_order a ≡ some order
    → (b : ActionKind) (n : ℕ) → refill_order b ≡ some n
    → n ≡ order
    → has_kind b (a ∷ seen) ≡ true
just_seen a seen order e b n eb same =
    let first : kind_eq b a ≡ true =
      same_order a b n (subst (λ (k : ℕ). refill_order a ≡ some k) (sym same) e) eb in
    ground (arith, first)

not_again :
    (seen : List ActionKind) (next : ℕ)
    → SeenBefore next seen
    → (a : ActionKind) (order : ℕ) → refill_order a ≡ some order
    → has_kind a seen ≡ false
    → ltb (suc order) next ≡ false
    → next ≤ order
not_again seen next before a order e new forward = elim (Bool-cases (nat_eq (suc order) next)) [
  | inl same ↦
      let known = before a order e ((nat_eq_iff (suc order) next).0 same) in
      absurd (ground (arith, known, new))
  | inr other ↦ ground arith
]

validate_refill-Ascending :
    (kinds seen : List ActionKind) (next : ℕ)
    → SeenBefore next seen
    → validate_refill kinds seen next ≡ none
    → Ascending next kinds
unfolding validate_refill
validate_refill-Ascending [] seen next before = λ h. tt
validate_refill-Ascending (a ∷ rest) seen next before =
    let P : Option PolicyError → Type 0 = λ r. r ≡ none → Ascending next (a ∷ rest) in
    option_cases P (refill_order a) _ _ (λ _ h. absurd (ground (arith, h)))
      (λ order e.
        if_cases P (has_kind a seen) _ _ (λ _ h. absurd (ground (arith, h)))
          (λ new.
            if_cases P (ltb (suc order) next) _ _ (λ _ h. absurd (ground (arith, h)))
              (λ forward h. (
                order,
                e,
                not_again seen next before a order e new forward,
                validate_refill-Ascending rest (a ∷ seen) (suc order)
                    (λ b n eb same. just_seen a seen order e b n eb (ground (arith, same))) h,
              ))))

-- `Validate` accepts a refill only when its actions are among the three, each at most once, in the
-- fixed order; so there are at most three.
pub validate-Ascending :
    (p : HealPolicy) → validate p ≡ none → Ascending 0 p.refill × (length p.refill ≤ 3)
unfolding validate
validate-Ascending p =
    let P : Option PolicyError → Type 0 =
      λ r. r ≡ none → Ascending 0 p.refill × (length p.refill ≤ 3) in
    if_cases P
      (ltb_ℤ p.min_healthy (pos 0)
        || ltb_ℤ p.target_size (pos 0)
        || ltb_ℤ p.target_size p.min_healthy
        || ltb_ℤ (pos 100000) p.target_size)
      (some capacity_out_of_range) (validate_refill p.refill [] 0)
      (λ _ h. absurd (ground (arith, h)))
      (λ _ h.
        let ascending =
          validate_refill-Ascending p.refill [] 0 (λ b n eb same. absurd (ground (arith, same)))
            h in
        (ascending, omega (arith, length-Ascending 0 p.refill ascending)))
