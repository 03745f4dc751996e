-- ===== src/Pool/Tests.antt =====
-- Runs of the shared node state of internal/outbound/pool/shared_state.go.

use easy_proxies_v.Base.{[], arith, false, leb, pos, refl, suc, true, ◌+◌, ◌∷◌, ◌≡◌}
use easy_proxies_v.Pool.Blacklist.{blocked_at, is_blacklisted-released, record_failure-blocks}
use easy_proxies_v.Pool.Shared.{
  SharedMemberState, in_window, is_blacklisted, new_state, record_failure,
}
use easy_proxies_v.Pool.Window.{fail_all, recent, record_failure-threshold}

abbrev failing : SharedMemberState
failing = record new_state { failures = 90 ∷ 95 ∷ []; active = pos 3 }

two_failures : (fail_all 3 500 60 "example.org" (30 ∷ 90 ∷ []) new_state).blacklisted ≡ false
unfolding fail_all record_failure in_window
two_failures = refl

record_failure-threshold_example :
    let r =
      record_failure 100
        (pos 3)
        500
        60
        "example.org"
        (fail_all 3 500 60 "example.org" (30 ∷ 90 ∷ []) new_state) in
    (r.1.triggered ≡ leb 3 (suc (recent 60 100 (30 ∷ 90 ∷ []))))
    × (r.0.blacklisted ≡ leb 3 (suc (recent 60 100 (30 ∷ 90 ∷ []))))
record_failure-threshold_example =
    record_failure-threshold 3 500 60 "example.org" (30 ∷ 90 ∷ []) 100 (omega arith)
      (omega arith, (omega arith, omega arith)) two_failures

failing-triggered : (record_failure 100 (pos 3) 500 60 "example.org" failing).1.triggered ≡ true
unfolding record_failure in_window
failing-triggered = refl

record_failure-blocks_example :
    blocked_at 700 (record_failure 100 (pos 3) 500 60 "example.org" failing).0 ≡ leb 700 (100 + 500)
record_failure-blocks_example =
    record_failure-blocks 100 700 3 500 60 "example.org" failing failing-triggered

failing-blocked_at : blocked_at 100 failing ≡ false
unfolding is_blacklisted
failing-blocked_at = refl

is_blacklisted-released_example : blocked_at 200 (is_blacklisted 100 failing).1 ≡ false
is_blacklisted-released_example = is_blacklisted-released 100 200 failing failing-blocked_at
