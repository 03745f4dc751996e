-- ===== src/Group/Ring.antt =====
-- How long a probe stays in the ring of 64 of internal/group/runtime.go.

-- What `alreadyAppliedProbe` makes of the ring of a member.

use mathlib.Core.List.{append_assoc}
use easy_proxies_v.Base.{
  ==_refl, List, String, String_eq, [], arith, contains, drop, false, if_cases, if◌then◌else◌, leb,
  length, length-append, refl, subst, suc, sym, true, ℕ, ◌++◌, ◌<◌, ◌==◌, ◌∷◌, ◌≡◌, ◌≤◌,
}
use easy_proxies_v.Group.Member.{already_applied_probe, group_probe_ring}
use easy_proxies_v.Group.State.{Member}

abbrev pub pushed : String → List String → List String
pushed probe ring =
    if probe == ""
    then ring
    else if contains probe ring
    then ring
    else (if leb group_probe_ring (length ring) then drop 1 ring else ring) ++ probe ∷ []

pub already_applied_probe-pushed :
    (probe : String) (m : Member)
    → (already_applied_probe probe m).0.applied_probes ≡ pushed probe m.applied_probes
unfolding already_applied_probe
already_applied_probe-pushed probe m = ground arith

-- The probe is in the ring with at most so many after it.
pub record Recent (probe : String) (after : ℕ) (ring : List String) : Type 0 where
  pub front : List String
  pub back : List String
  pub here : ring ≡ front ++ probe ∷ back
  pub near : length back ≤ after

contains-split :
    (probe : String) (front back : List String) → contains probe (front ++ probe ∷ back) ≡ true
contains-split probe [] back = rw (==_refl probe) refl
contains-split probe (x ∷ front) back = ground (arith, contains-split probe front back)

pub Recent-contains :
    (probe : String) (after : ℕ) (ring : List String)
    → Recent probe after ring
    → contains probe ring ≡ true
Recent-contains probe after ring r = rw (r.here) (contains-split probe r.front r.back)

pub Recent-le :
    (probe : String) (few more : ℕ) (ring : List String)
    → few ≤ more
    → Recent probe few ring
    → Recent probe more ring
Recent-le probe few more ring le r = record {
  front = r.front;
  back = r.back;
  here = r.here;
  near = omega (arith, le, r.near);
}

appended-Recent :
    (probe other : String) (after : ℕ) (front back : List String)
    → length back ≤ after
    → Recent probe (suc after) ((front ++ probe ∷ back) ++ other ∷ [])
appended-Recent probe other after front back near = record {
  front = front;
  back = back ++ other ∷ [];
  here = append_assoc front (probe ∷ back) (other ∷ []);
  near = omega (arith, near, length-append back (other ∷ []));
}

-- A full ring drops its first probe, which is another one.
dropped-Recent :
    (probe other : String) (after : ℕ) (front back : List String)
    → length back ≤ after
    → after < 63
    → Recent probe (suc after) (
        (if leb group_probe_ring (length (front ++ probe ∷ back))
          then drop 1 (front ++ probe ∷ back)
          else front ++ probe ∷ back)
        ++ other ∷ [])
dropped-Recent probe other after [] back near room =
    let short : leb 64 (suc (length back)) ≡ false = ground (arith, near, room) in
    rw short (appended-Recent probe other after [] back near)
dropped-Recent probe other after (x ∷ front) back near room =
    if_cases (λ (ring : List String). Recent probe (suc after) (ring ++ other ∷ []))
      (leb group_probe_ring (length (x ∷ front ++ probe ∷ back))) _ _
      (λ _. appended-Recent probe other after front back near)
      (λ _. appended-Recent probe other after (x ∷ front) back near)

-- Another probe pushes a recent one back by at most one place.
pub pushed-Recent :
    (probe other : String) (after : ℕ) (ring : List String)
    → Recent probe after ring
    → after < 63
    → Recent probe (suc after) (pushed other ring)
pushed-Recent probe other after ring r room =
    if_cases (Recent probe (suc after)) (other == "") _ _
      (λ _. Recent-le probe after (suc after) ring (omega arith) r)
      (λ _.
        if_cases (Recent probe (suc after)) (contains other ring) _ _
          (λ _. Recent-le probe after (suc after) ring (omega arith) r)
          (λ _.
            subst
              (λ (xs : List String).
                Recent probe (suc after)
                  ((if leb group_probe_ring (length xs) then drop 1 xs else xs) ++ other ∷ []))
              (sym r.here) (dropped-Recent probe other after r.front r.back r.near room)))

-- A new probe is the last of the ring.
pub pushed-new :
    (probe : String) (ring : List String)
    → (probe == "") ≡ false
    → contains probe ring ≡ false
    → Recent probe 0 (pushed probe ring)
pushed-new probe ring named new = record {
  front = if leb group_probe_ring (length ring) then drop 1 ring else ring;
  back = [];
  here = rw (named, new) refl;
  near = omega arith;
}
