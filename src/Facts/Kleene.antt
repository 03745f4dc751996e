-- ===== src/Facts/Kleene.antt =====
-- Version 2 of `Evaluate` is the strong three-valued logic over the tree.

use easy_proxies_v.Base.{
  Bool, Bool-cases, Option-cases, arith, eq_ℤ, false, if◌then◌else◌, inl, inr, none, not, pos, refl,
  some, sym, true, ℕ, ◌||◌, ◌↔◌, ◌∙◌, ◌≡◌,
}
use easy_proxies_v.Facts.Compare.{Library}
use easy_proxies_v.Facts.Condition.{
  Condition, Conditions, Head, Match, children_of, condition, cons, head_of, is_empty, is_group,
  match_all, match_any, match_none, nil,
}
use easy_proxies_v.Facts.Evaluate.{
  Truth, after_child, evaluate, evaluate_as, evaluate_truth, leaf_truth, stops, truth_children,
}
use easy_proxies_v.Facts.Schema.{NodeFacts}

pub data Three : Type 0 where
  yes no unsure : Three

abbrev pub both : Three → Three → Three
both no _ = no
both yes b = b
both unsure no = no
both unsure _ = unsure

abbrev pub either : Three → Three → Three
either yes _ = yes
either no b = b
either unsure yes = yes
either unsure _ = unsure

abbrev pub opposite : Three → Three
opposite yes = no
opposite no = yes
opposite unsure = unsure

abbrev pub three_of : Truth → Three
three_of t = if t.known then (if t.matched then yes else no) else unsure

abbrev pub group_meaning : Match → Three → Three → Three
group_meaning match_all every_child some_child = every_child
group_meaning match_any every_child some_child = some_child
group_meaning match_none every_child some_child = opposite some_child
group_meaning _ every_child some_child = unsure

-- A group whose first children left the answer open, some of them unknown.
abbrev pub joined : Match → Bool → Three → Three → Three
joined match_with unknown every_child some_child =
    group_meaning match_with (both (if unknown then unsure else yes) every_child)
      (either (if unknown then unsure else no) some_child)

joined-stops :
    (m : Match) (unknown : Bool) (t answer : Truth) (e s : Three)
    → stops m t ≡ some answer
    → three_of answer ≡ joined m unknown (both (three_of t) e) (either (three_of t) s)
joined-stops m unknown t answer e s h = ground arith

joined_goes_on :
    (m : Match) (unknown : Bool) (t : Truth) (e s : Three)
    → stops m t ≡ none
    → joined m (unknown || not t.known) e s
      ≡ joined m unknown (both (three_of t) e) (either (three_of t) s)
joined_goes_on m unknown t e s h = ground arith

-- The reference: connectives over the children, and the evaluator's answer at a leaf.
module _ (lib : Library) (facts : NodeFacts) (now : ℕ) where
  abbrev pub leaf_meaning : Head → Three
  leaf_meaning c = elim (leaf_truth lib facts now c) [ none ↦ unsure | some t ↦ three_of t ]

  unfoldable mutual
    pub meaning : Condition → Three
    meaning (condition c children) =
        if not (is_group c)
        then leaf_meaning c
        else group_meaning c.match_with (every_meaning children) (some_meaning children)

    pub every_meaning : Conditions → Three
    every_meaning nil = yes
    every_meaning (cons child rest) = both (meaning child) (every_meaning rest)

    pub some_meaning : Conditions → Three
    some_meaning nil = no
    some_meaning (cons child rest) = either (meaning child) (some_meaning rest)

  -- What the loop has left to say when some child before was unknown, or none was.
  abbrev pub so_far : Match → Bool → Conditions → Three
  so_far match_with unknown rest =
      joined match_with unknown (every_meaning rest) (some_meaning rest)

  mutual
    unfolding evaluate_truth meaning

    pub evaluate_truth-meaning :
        (c : Condition) {t : Truth}
        → evaluate_truth lib facts now c ≡ some t
        → three_of t ≡ meaning c
    evaluate_truth-meaning (condition c children) {t} e = elim (Bool-cases (is_group c)) [
      | inl g ↦ rw g (truth_children-meaning c.match_with false children (rw g at e))
      | inr g ↦
          let leaf : leaf_truth lib facts now c ≡ some t = rw g at e in
          rw (g, leaf_meaning, leaf) refl
    ]

    truth_children-meaning :
        (m : Match) (unknown : Bool) (cs : Conditions) {t : Truth}
        → truth_children lib facts now m unknown cs ≡ some t
        → three_of t ≡ so_far m unknown cs
    truth_children-meaning m unknown nil {t} e = ground arith
    truth_children-meaning m unknown (cons child rest) {t} e =
        elim (Option-cases (evaluate_truth lib facts now child)) [
          | inl f ↦ absurd (ground (arith, rw f at e))
          | inr (u, f) ↦
              let ih : three_of u ≡ meaning child = evaluate_truth-meaning child f in
              let step : after_child m u
                    (truth_children lib facts now m (unknown || not u.known) rest)
                  ≡ some t =
                rw f at e in
              elim (Option-cases (stops m u)) [
                | inl d ↦ rw (sym ih) (
                    truth_children-meaning m (unknown || not u.known) rest
                      (rw (after_child, d) at step)
                    ∙ joined_goes_on m unknown u (every_meaning rest) (some_meaning rest) d)
                | inr (answer, d) ↦
                    let same : answer ≡ t = ground (arith, rw (after_child, d) at step) in
                    rw (sym ih, sym same)
                      (joined-stops m unknown u answer (every_meaning rest) (some_meaning rest) d)
              ]
        ]

  -- Version 2 of the rules is the strong three-valued logic. When `Evaluate` gives an answer on a
  -- condition that is not empty and whose region version is not 1, the answer is true exactly when
  -- the condition has the meaning `yes`: `all` is the conjunction of its children, `any` their
  -- disjunction, `none` the negation of the disjunction, each over true, false and unknown, and a
  -- leaf has what its own evaluation gives, or unknown when that fails.
  pub evaluate-meaning :
      (c : Condition) {b : Bool}
      → eq_ℤ (head_of c).region_version (pos 1) ≡ false
      → is_empty (head_of c) (children_of c) ≡ false
      → evaluate lib facts now c ≡ some b
      → (b ≡ true) ↔ (meaning c ≡ yes)
  unfolding evaluate evaluate_as
  evaluate-meaning (condition c children) {b} v filled e =
      elim (Option-cases (evaluate_truth lib facts now (condition c children))) [
        | inl f ↦ absurd (ground (arith, rw (v, filled, f) at e))
        | inr (t, f) ↦
            ground (arith, rw (v, filled, f) at e, evaluate_truth-meaning (condition c children) f)
      ]
