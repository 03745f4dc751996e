-- ===== src/Group/Probes.antt =====
-- The ring of applied probes of a member, and what recording a probe leaves alone.

-- Recording a probe changes the ring only.

use easy_proxies_v.Base.{
  ==_refl, List, String, String_eq, [], arith, contains, drop, false, length, length-append,
  length-drop, refl, true, ℕ, ◌++◌, ◌==◌, ◌||◌, ◌∷◌, ◌≡◌, ◌≤◌,
}
use easy_proxies_v.Group.Invariant.{MemberOk}
use easy_proxies_v.Group.Member.{already_applied_probe, group_probe_ring}
use easy_proxies_v.Group.State.{Member, RecoveryPolicy}

pub already_applied_probe-rest :
    (probe : String) (m : Member)
    → let n = (already_applied_probe probe m).0 in
      n ≡ record m { applied_probes = n.applied_probes }
unfolding already_applied_probe
already_applied_probe-rest probe m = ground arith

already_applied_probe-ring :
    (probe : String) (m : Member)
    → length m.applied_probes ≤ group_probe_ring
    → length (already_applied_probe probe m).0.applied_probes ≤ group_probe_ring
unfolding already_applied_probe
already_applied_probe-ring probe m h = ground (
  arith,
  length-append (drop 1 m.applied_probes) (probe ∷ []),
  length-append m.applied_probes (probe ∷ []),
  length-drop 1 m.applied_probes,
)

pub already_applied_probe-MemberOk :
    (p : RecoveryPolicy) (clock : ℕ) (tag : String) (probe : String) (m : Member)
    → MemberOk p clock tag m
    → MemberOk p clock tag (already_applied_probe probe m).0
already_applied_probe-MemberOk p clock tag probe m ok =
    rw (already_applied_probe-rest probe m) (record {
      tagged = ok.tagged;
      idle = ok.idle;
      short = ok.short;
      dated = ok.dated;
      ring = already_applied_probe-ring probe m ok.ring;
      stamped = ok.stamped;
    })

pub contains-append_last : (a : String) (xs : List String) → contains a (xs ++ a ∷ []) ≡ true
contains-append_last a [] = rw (==_refl a)
contains-append_last a (x ∷ xs) = ground (arith, contains-append_last a xs)

-- A probe that was recorded is recognised, whatever fell out of the ring.
pub already_applied_probe_again :
    (probe : String) (m : Member)
    → (probe == "") ≡ false
    → let n = (already_applied_probe probe m).0 in already_applied_probe probe n ≡ (n, true)
unfolding already_applied_probe
already_applied_probe_again probe m h = ground (
  arith,
  contains-append_last probe (drop 1 m.applied_probes),
  contains-append_last probe m.applied_probes,
)

contains-append :
    (a b : String) (xs : List String) → contains a (xs ++ b ∷ []) ≡ (contains a xs || b == a)
contains-append a b [] = ground arith
contains-append a b (x ∷ xs) = ground (arith, contains-append a b xs)

contains-drop_one :
    (a : String) (xs : List String) → contains a xs ≡ false → contains a (drop 1 xs) ≡ false
contains-drop_one a [] h = refl
contains-drop_one a (x ∷ xs) h = ground (arith, h)

-- A probe that was new to the member is new after another was recorded.
pub already_applied_probe-new :
    (probe other : String) (m : Member)
    → (probe == other) ≡ false
    → contains other m.applied_probes ≡ false
    → contains other (already_applied_probe probe m).0.applied_probes ≡ false
unfolding already_applied_probe
already_applied_probe-new probe other m apart h = ground (
  arith,
  contains-append other probe (drop 1 m.applied_probes),
  contains-append other probe m.applied_probes,
  contains-drop_one other m.applied_probes h,
)
