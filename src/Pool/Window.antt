-- ===== src/Pool/Window.antt =====
-- Which of the failures of a node, over its whole history, blacklists it: the window of
-- `recordFailure` in internal/outbound/pool/shared_state.go.

-- The failures that are less than a window old.

use easy_proxies_v.Base.{
  Bool-cases, List, String, [], ap, arith, false, if◌then◌else◌, inl, inr, keep, leb, length, ltb,
  ltb_ℤ, pos, refl, suc, true, ℕ, ◌++◌, ◌+◌, ◌<◌, ◌∙◌, ◌∷◌, ◌≡◌, ◌≤◌,
}
use easy_proxies_v.Pool.Shared.{SharedMemberState, in_window, new_state, record_failure}

abbrev pub recent : ℕ → ℕ → List ℕ → ℕ
recent window now [] = 0
recent window now (t ∷ times) = (if ltb now (t + window) then 1 else 0) + recent window now times

-- Times in order, between two others.
abbrev pub Ordered : ℕ → List ℕ → ℕ → Type 0
Ordered from [] to = from ≤ to
Ordered from (t ∷ times) to = (from ≤ t) × Ordered t times to

Ordered-le : (from : ℕ) (times : List ℕ) (to : ℕ) → Ordered from times to → from ≤ to
Ordered-le from [] to h = h
Ordered-le from (t ∷ times) to h = omega (arith, h.0, Ordered-le t times to h.1)

recent-append_one :
    (window now t : ℕ) (times : List ℕ)
    → recent window now (times ++ t ∷ []) ≡ recent window now times + recent window now (t ∷ [])
recent-append_one window now t [] = omega arith
recent-append_one window now t (u ∷ times) = omega (arith, recent-append_one window now t times)

-- A failure that was dropped is outside every later window.
recent-keep :
    (window before now : ℕ) (times : List ℕ)
    → before ≤ now
    → recent window now (keep (λ ts. ltb before (ts + window)) times) ≡ recent window now times
recent-keep window before now [] h = refl
recent-keep window before now (t ∷ times) h =
    ground (arith, h, recent-keep window before now times h)

length-keep-recent :
    (window now : ℕ) (times : List ℕ)
    → length (keep (λ ts. ltb now (ts + window)) times) ≡ recent window now times
length-keep-recent window now [] = refl
length-keep-recent window now (t ∷ times) = ground (arith, length-keep-recent window now times)

in_window-keep :
    (window now : ℕ) (times : List ℕ)
    → 0 < window
    → in_window window now times ≡ keep (λ ts. ltb now (ts + window)) times
unfolding in_window
in_window-keep window now times h = let on : ltb 0 window ≡ true = ground (arith, h) in rw on

module _ (threshold duration window : ℕ) (destination : String) where
  -- The failures of a node one after the other.
  unfoldable pub fail_all : List ℕ → SharedMemberState → SharedMemberState
  fail_all [] s = s
  fail_all (t ∷ times) s =
      fail_all times (record_failure t (pos threshold) duration window destination s).0

  record_failure-blacklisted :
      (now : ℕ) (s : SharedMemberState)
      → s.blacklisted ≡ true
      → (record_failure now (pos threshold) duration window destination s).0.blacklisted ≡ true
  unfolding record_failure
  record_failure-blacklisted now s h = ground (arith, h)

  fail_all-blacklisted :
      (times : List ℕ) (s : SharedMemberState)
      → s.blacklisted ≡ true
      → (fail_all times s).blacklisted ≡ true
  unfolding fail_all
  fail_all-blacklisted [] s h = h
  fail_all-blacklisted (t ∷ times) s h =
      fail_all-blacklisted times _ (record_failure-blacklisted t s h)

  record_failure-waits :
      (now : ℕ) (s : SharedMemberState)
      → (record_failure now (pos threshold) duration window destination s).0.blacklisted ≡ false
      → (record_failure now (pos threshold) duration window destination s).0.failures
        ≡ in_window window now (s.failures ++ now ∷ [])
  unfolding record_failure
  record_failure-waits now s =
      elim (Bool-cases
        (ltb_ℤ (pos (length (in_window window now (s.failures ++ now ∷ [])))) (pos threshold))) [
          | inl e ↦ rw e (λ h. refl)
          | inr e ↦ rw e (λ h. absurd (ground (arith, h)))
        ]

  fail_all-recent :
      (times : List ℕ) (from now : ℕ) (s : SharedMemberState)
      → 0 < window
      → Ordered from times now
      → (fail_all times s).blacklisted ≡ false
      → recent window now (fail_all times s).failures
        ≡ recent window now s.failures + recent window now times
  unfolding fail_all
  fail_all-recent [] from now s positive order free = omega arith
  fail_all-recent (t ∷ times) from now s positive order free =
      let s' = (record_failure t (pos threshold) duration window destination s).0 in
      let open_still : s'.blacklisted ≡ false = elim (Bool-cases s'.blacklisted) [
        | inl e ↦ absurd (ground (arith, free, fail_all-blacklisted times s' e))
        | inr e ↦ e
      ] in
      let kept : s'.failures ≡ keep (λ ts. ltb t (ts + window)) (s.failures ++ t ∷ []) =
        record_failure-waits t s open_still
        ∙ in_window-keep window t (s.failures ++ t ∷ []) positive in
      let counts : recent window now s'.failures ≡ recent window now (s.failures ++ t ∷ []) =
        ap (recent window now) kept
        ∙ recent-keep window t now (s.failures ++ t ∷ []) (Ordered-le t times now order.1) in
      omega (
        arith,
        fail_all-recent times t now s' positive order.1 free,
        counts,
        recent-append_one window now t s.failures,
      )

  record_failure-triggers :
      (now : ℕ) (s : SharedMemberState)
      → 0 < window
      → s.blacklisted ≡ false
      → let r = record_failure now (pos threshold) duration window destination s in
        (r.1.triggered ≡ leb threshold (suc (recent window now s.failures)))
        × (r.0.blacklisted ≡ leb threshold (suc (recent window now s.failures)))
  unfolding record_failure
  record_failure-triggers now s positive free =
      let here : recent window now (now ∷ []) ≡ 1 = ground (arith, positive) in
      let count : length (in_window window now (s.failures ++ now ∷ []))
          ≡ suc (recent window now s.failures) =
        ap length (in_window-keep window now (s.failures ++ now ∷ []) positive)
        ∙ length-keep-recent window now (s.failures ++ now ∷ [])
        ∙ omega (arith, recent-append_one window now now s.failures, here) in
      rw count (ground (arith, free))

  -- After failures of a fresh node at times in order, none of which blacklisted it, a further failure
  -- blacklists it exactly when it is at least the threshold-th of all of them that lie less than a
  -- window before it, itself included.
  pub record_failure-threshold :
      (times : List ℕ) (now : ℕ)
      → 0 < window
      → Ordered 0 times now
      → (fail_all times new_state).blacklisted ≡ false
      → let r =
          record_failure now
            (pos threshold)
            duration
            window
            destination
            (fail_all times new_state) in
        (r.1.triggered ≡ leb threshold (suc (recent window now times)))
        × (r.0.blacklisted ≡ leb threshold (suc (recent window now times)))
  record_failure-threshold times now positive order free =
      let count : recent window now (fail_all times new_state).failures ≡ recent window now times =
        omega (arith, fail_all-recent times 0 now new_state positive order free) in
      rw (← count) (record_failure-triggers now (fail_all times new_state) positive free)
