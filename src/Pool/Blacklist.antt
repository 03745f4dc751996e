-- ===== src/Pool/Blacklist.antt =====
-- When a node is blacklisted and when it is released, over internal/outbound/pool/shared_state.go.

-- The node is not usable at a time: what the pool asks before it dials.

use easy_proxies_v.Base.{
  Bool, Bool-cases, String, [], arith, false, inl, inr, leb, length, ltb, ltb_ℤ, neg_part, negsuc,
  not, pos, refl, suc, true, zero, ℕ, ℤ, ◌&&◌, ◌++◌, ◌+◌, ◌∷◌, ◌≡◌, ◌≤◌,
}
use easy_proxies_v.Pool.Shared.{
  SharedMemberState, add_one, dec_active, in_window, inc_active, int32_max, is_blacklisted,
  record_failure, sub_one,
}

abbrev pub blocked_at : ℕ → SharedMemberState → Bool
blocked_at now s = (is_blacklisted now s).0

blocked_at_lem :
    (now : ℕ) (s : SharedMemberState)
    → blocked_at now s ≡ (s.blacklisted && not (ltb s.blacklisted_until now))
unfolding is_blacklisted
blocked_at_lem now s = ground arith

-- When a failure triggers the blacklist, the node is blocked at the times up to `now` + `duration`
-- and at no later one.
pub record_failure-blocks :
    (now later threshold duration window : ℕ) (destination : String) (s : SharedMemberState)
    → (record_failure now (pos threshold) duration window destination s).1.triggered ≡ true
    → blocked_at later (record_failure now (pos threshold) duration window destination s).0
      ≡ leb later (now + duration)
unfolding record_failure
record_failure-blocks now later threshold duration window destination s =
    elim (Bool-cases
      (ltb_ℤ (pos (length (in_window window now (s.failures ++ now ∷ [])))) (pos threshold))) [
        | inl e ↦ rw e (λ h. absurd (ground arith))
        | inr e ↦ rw e (λ h. ground (
          arith,
          blocked_at_lem later
              (record s { failures = []; blacklisted = true; blacklisted_until = now + duration }),
        ))
      ]

-- A node that `isBlacklisted` has found free is free at every other time, as long as no failure
-- comes in between.
pub is_blacklisted-released :
    (now later : ℕ) (s : SharedMemberState)
    → blocked_at now s ≡ false
    → blocked_at later (is_blacklisted now s).1 ≡ false
unfolding is_blacklisted
is_blacklisted-released now later s h = ground arith

sub_one-add_one : (n : ℤ) → neg_part n ≤ int32_max → sub_one (add_one n) ≡ n
sub_one-add_one (pos n) h = ground arith
sub_one-add_one (negsuc zero) h = refl
sub_one-add_one (negsuc (suc n)) h = ground arith

-- Opening and closing one connection leaves the counter of active connections as it was, for every
-- value that 32 bits hold, also where the sum wraps around.
pub dec_active-inc_active :
    (s : SharedMemberState)
    → neg_part s.active ≤ int32_max
    → (dec_active (inc_active s).0).0.active ≡ s.active
unfolding dec_active inc_active
dec_active-inc_active s h = sub_one-add_one s.active h
