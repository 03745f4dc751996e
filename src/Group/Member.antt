-- ===== src/Group/Member.antt =====
-- internal/group/runtime.go: what happens to one member under the lock of its group.

use easy_proxies_v.Base.{
  Bool, List, String, String_eq, [], contains, drop, false, if◌then◌else◌, keep, last?, leb, length,
  none, not, some, true, ℕ, ℕ_eq, ◌&&◌, ◌++◌, ◌-◌, ◌==◌, ◌∷◌,
}
use easy_proxies_v.Group.State.{Member, unix}

abbrev pub group_probe_ring : ℕ
group_probe_ring = 64

-- `alreadyAppliedProbe`: the member with the probe recorded, and whether it was there before.
unfoldable pub already_applied_probe : String → Member → Member × Bool
already_applied_probe probe m =
    if probe == "" then (m, false) else if contains probe m.applied_probes then (m, true) else (
      record m {
        applied_probes =
            (if leb group_probe_ring (length m.applied_probes)
              then drop 1 m.applied_probes
              else m.applied_probes)
            ++ probe ∷ [];
      },
      false,
    )

unfoldable pub clear_member_eviction : Member → Member
clear_member_eviction m = record m {
  evicted = false;
  evicted_at = 0;
  failure_history = [];
  last_error = "";
  recovery_successes = 0;
}

-- The failures at or after the cutoff second, in order.
abbrev pub since : ℕ → List ℕ → List ℕ
since cutoff history = keep (leb cutoff) history

-- `pruneFailures`: the member, and whether an expired failure was dropped.
unfoldable pub prune_failures : ℕ → ℕ → Member → Member × Bool
prune_failures window now m =
    let kept = since (unix (now - window)) m.failure_history in
    if length m.failure_history == 0 then (m, false) else (
      record m {
        failure_history = kept;
        last_error = if length kept == 0 then "" else m.last_error;
      },
      not (length kept == length m.failure_history),
    )

-- Appending to `xs[:0]` writes into the array of `xs`: what `xs` reads afterwards.
abbrev pub overwrite : List ℕ → List ℕ → List ℕ
overwrite written xs = written ++ drop (length written) xs

-- `len(history) > 0 && history[len(history)-1] == second`.
abbrev pub ends_at : ℕ → List ℕ → Bool
ends_at second history = elim (last? history) [ none ↦ false | some last ↦ last == second ]

-- A member that may serve: not standby, not evicted, no failure in the window.
unfoldable pub is_available : Member → Bool
is_available m = not m.standby && (not m.evicted && length m.failure_history == 0)
