-- ===== src/Dial/Tries.antt =====
-- The attempts of a dial: each eligible member at most once, and in the end an outcome.

use easy_proxies_v.Base.{
  Bool, Bool-cases, List, [], ap, arith, drop, false, if_cases, if◌then◌else◌, inl, inr, leb,
  leb→le, length, nat_eq, none, option_cases, refl, some, subst, suc, sym, take, true, zero, ℕ, ◌%◌,
  ◌+◌, ◌<◌, ◌∙◌, ◌∷◌, ◌≡◌, ◌≤◌, ◌⊎◌,
}
use easy_proxies_v.Dial.Attempt.{
  Action, Answer, Cursor, Dialed, Outcome, after_dial, all_failed, cancelled_while, connected,
  connected_to, dec_active, dial_context, dial_loop, exhausted, failed, inc_active, next_member,
  no_healthy, out_of_fuel,
}
use easy_proxies_v.Dial.Bounded.{selection_index-lt}
use easy_proxies_v.Dial.Rotation.{
  drop_end, get_elem?-drop, get_elem?-rotate, length-rotate, remaining,
}
use easy_proxies_v.Dial.Select.{Dispatch, MemberRef, Snapshot, get_elem?, rotate, selection_index}

abbrev pub is_out_of_fuel : Outcome → Bool
is_out_of_fuel out_of_fuel = true
is_out_of_fuel _ = false

-- The outcome when no member is left to try.
abbrev pub gives_up : Outcome → Bool
gives_up all_failed = true
gives_up no_healthy = true
gives_up _ = false

abbrev pub holds : Outcome → ℕ
holds (connected member) = 1
holds _ = 0

abbrev pub raised : List Action → ℕ
raised [] = 0
raised (inc_active member ∷ actions) = suc (raised actions)
raised (_ ∷ actions) = raised actions

abbrev pub lowered : List Action → ℕ
lowered [] = 0
lowered (dec_active member ∷ actions) = suc (lowered actions)
lowered (_ ∷ actions) = lowered actions

-- A dial over a circle of members: it tries a part of the circle from its start, the whole of it
-- when it gives up, and keeps one count of active connections for the connection that it returns.
abbrev pub Tries : List MemberRef → Dialed → Type 0
Tries circle r =
    (is_out_of_fuel r.outcome ≡ false)
    × (r.tried ≡ take (length r.tried) circle)
    × ((gives_up r.outcome ≡ false) ⊎ (r.tried ≡ circle))
    × (raised r.actions ≡ lowered r.actions + holds r.outcome)

next_member-remaining :
    (c : Cursor)
    → c.start < length c.members
    → c.used < length c.members
    → (m : MemberRef) × (next_member c ≡ some (m, record c { used = c.used + 1 }))
      × (remaining c ≡ m ∷ remaining (record c { used = c.used + 1 }))
unfolding next_member remaining
next_member-remaining c s u =
    let (m, found, rest) =
      get_elem?-drop (rotate c.start c.members) c.used
        (omega (arith, length-rotate c.start c.members, u)) in
    let here : get_elem? c.members ((c.start + c.used) % length c.members) ≡ some m =
      sym (get_elem?-rotate c.start c.used c.members s u) ∙ found in
    let next : suc c.used ≡ c.used + 1 = omega arith in
    (m, ground (arith, u, here), rest ∙ ap (λ n. m ∷ drop n (rotate c.start c.members)) next)

next_member-some :
    (c : Cursor) (p : MemberRef × Cursor)
    → c.start < length c.members
    → next_member c ≡ some p
    → (p.1 ≡ record c { used = c.used + 1 })
      × (remaining c ≡ p.0 ∷ remaining p.1)
      × (c.used + 1 ≤ length c.members)
next_member-some c p s e = elim (Bool-cases (leb (length c.members) c.used)) [
  | inl over ↦ absurd (unfold next_member in ground (arith, rw over at e))
  | inr more ↦
      let (m, found, rest) = next_member-remaining c s (ground (arith, more)) in
      let same : (m, record c { used = c.used + 1 }) ≡ p = ground (arith, sym found ∙ e) in
      subst
        (λ (q : MemberRef × Cursor).
          (q.1 ≡ record c { used = c.used + 1 })
          × (remaining c ≡ q.0 ∷ remaining q.1)
          × (c.used + 1 ≤ length c.members))
        same (refl, rest, ground (arith, more))
]

next_member-none :
    (c : Cursor) → c.start < length c.members → next_member c ≡ none → remaining c ≡ []
next_member-none c s e = elim (Bool-cases (leb (length c.members) c.used)) [
  | inl over ↦
      unfold remaining in
      drop_end c.used (rotate c.start c.members)
        (omega (arith, length-rotate c.start c.members, leb→le (length c.members) c.used over))
  | inr more ↦
      let (m, found, rest) = next_member-remaining c s (ground (arith, more)) in
      absurd (ground (arith, sym found ∙ e))
]

after_dial-Tries :
    (m : MemberRef) (answer : Answer) (circle : List MemberRef) (r : Dialed)
    → Tries circle r
    → Tries (m ∷ circle) (after_dial m answer r)
after_dial-Tries m connected_to circle r h = (refl, refl, inl refl, refl)
after_dial-Tries m (cancelled_while true) circle r h = (refl, refl, inl refl, refl)
after_dial-Tries m (cancelled_while false) circle r h = (refl, refl, inl refl, refl)
after_dial-Tries m (failed true) circle r (a, b, inl c, d) =
    (a, ap (λ ms. m ∷ ms) b, inl c, omega (arith, d))
after_dial-Tries m (failed true) circle r (a, b, inr c, d) =
    (a, ap (λ ms. m ∷ ms) b, inr (ap (λ ms. m ∷ ms) c), omega (arith, d))
after_dial-Tries m (failed false) circle r (a, b, inl c, d) =
    (a, ap (λ ms. m ∷ ms) b, inl c, omega (arith, d))
after_dial-Tries m (failed false) circle r (a, b, inr c, d) =
    (a, ap (λ ms. m ∷ ms) b, inr (ap (λ ms. m ∷ ms) c), omega (arith, d))

exhausted-Tries : (failed_before : Bool) → Tries [] (exhausted failed_before)
exhausted-Tries true = (refl, refl, inr refl, refl)
exhausted-Tries false = (refl, refl, inr refl, refl)

pub dial_loop-Tries :
    (dial : MemberRef → Answer) (fuel : ℕ) (failed_before : Bool) (c : Cursor)
    → c.start < length c.members
    → length c.members < c.used + fuel
    → c.used ≤ length c.members
    → Tries (remaining c) (dial_loop dial fuel failed_before c)
unfolding dial_loop
dial_loop-Tries dial zero failed_before c s f u = absurd (omega (arith, f, u))
dial_loop-Tries dial (suc fuel) failed_before c s f u =
    option_cases (Tries (remaining c)) (next_member c) (exhausted failed_before)
      (λ p. after_dial p.0 (dial p.0) (dial_loop dial fuel true p.1))
      (λ e. rw (next_member-none c s e) (exhausted-Tries failed_before))
      (λ p e.
        let (moved, rest, enough) = next_member-some c p s e in
        let ready =
          subst
            (λ (k : Cursor).
              (k.start < length k.members)
              × (length k.members < k.used + fuel)
              × (k.used ≤ length k.members))
            (sym moved) (s, omega (arith, f), enough) in
        rw rest (
          after_dial-Tries p.0 (dial p.0) (remaining p.1) (dial_loop dial fuel true p.1)
            (dial_loop-Tries dial fuel true p.1 ready.0 ready.1 ready.2)))

rotate_nil : (start : ℕ) → rotate {A = MemberRef} start [] ≡ []
rotate_nil zero = refl
rotate_nil (suc start) = refl

empty_list : (members : List MemberRef) → length members ≡ 0 → members ≡ []
empty_list [] h = refl
empty_list (m ∷ members) h = absurd (omega (arith, h))

-- A dial ends, for all answers of the members: it tries a part of the circle of the eligible
-- members, from the chosen one on, so each at most once; it gives up only when it has tried the whole
-- circle; and it raises the counts of active connections as often as it lowers them, and once more
-- when it returns a connection.
pub dial_context-Tries :
    (dial : MemberRef → Answer) (d : Dispatch) (snapshot : Snapshot) (is_udp : Bool)
    → let members = if is_udp then snapshot.udp_members else snapshot.tcp_members in
      Tries
        (rotate (selection_index d snapshot members) members)
        (dial_context dial d snapshot is_udp)
unfolding dial_context remaining
dial_context-Tries dial d snapshot is_udp =
    let members = if is_udp then snapshot.udp_members else snapshot.tcp_members in
    let start = selection_index d snapshot members in
    if_cases (Tries (rotate start members)) (nat_eq (length members) 0) _ _
      (λ e.
        let none_there : rotate start members ≡ [] =
          ap (rotate start) (empty_list members (ground (arith, e))) ∙ rotate_nil start in
        rw none_there (exhausted-Tries false))
      (λ e.
        dial_loop-Tries dial (length members + 1) false
          (record { members = members; start = start; used = 0 })
          (selection_index-lt d snapshot members (ground (arith, e))) (omega arith) (omega arith))
