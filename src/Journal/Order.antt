-- ===== src/Journal/Order.antt =====
-- Events in the order of their sequence numbers.

use easy_proxies_v.Base.{
  All, All-append, All-map, Bool-cases, List, [], arith, inl, inr, keep, leb, ltb, ltb→lt, refl,
  subst, true, ℕ, ◌++◌, ◌<◌, ◌∷◌, ◌≡◌,
}
use easy_proxies_v.Journal.Store.{HealthEvent, after}

abbrev pub Ascending : List HealthEvent → Type 0
Ascending [] = Unit
Ascending (event ∷ events) = All (λ later. event.seq < later.seq) events × Ascending events

-- The events up to a sequence number.
abbrev pub up_to : ℕ → List HealthEvent → List HealthEvent
up_to seq events = keep (λ event. leb event.seq seq) events

after_beyond :
    (seq : ℕ) (events : List HealthEvent)
    → All (λ event. seq < event.seq) events
    → after seq events ≡ events
after_beyond seq [] h = refl
after_beyond seq (event ∷ events) h = ground (arith, h.0, after_beyond seq events h.1)

up_to_none :
    (seq : ℕ) (events : List HealthEvent)
    → All (λ event. seq < event.seq) events
    → up_to seq events ≡ []
up_to_none seq [] h = refl
up_to_none seq (event ∷ events) h = ground (arith, h.0, up_to_none seq events h.1)

-- Taking the first event after a place moves the place by one event.
abbrev pub IsNext : ℕ → HealthEvent → List HealthEvent → List HealthEvent → Type 0
IsNext seq event rest events =
    (seq < event.seq)
    × (after event.seq events ≡ rest)
    × (up_to event.seq events ≡ up_to seq events ++ event ∷ [])

first_IsNext :
    (seq : ℕ) (x : HealthEvent) (xs : List HealthEvent)
    → All (λ later. x.seq < later.seq) xs
    → ltb seq x.seq ≡ true
    → IsNext seq x (after seq xs) (x ∷ xs)
first_IsNext seq x xs a h =
    let below : All (λ (f : HealthEvent). seq < f.seq) xs =
      All-map (λ f g. omega (arith, ltb→lt seq x.seq h, g)) xs a in
    (
      ltb→lt seq x.seq h,
      ground (arith, after_beyond x.seq xs a, after_beyond seq xs below),
      ground (arith, up_to_none x.seq xs a, up_to_none seq xs below, h),
    )

pub after-IsNext :
    (seq : ℕ) (events : List HealthEvent) {event : HealthEvent} {rest : List HealthEvent}
    → Ascending events
    → after seq events ≡ event ∷ rest
    → IsNext seq event rest events
after-IsNext seq [] a e = absurd (ground (arith, e))
after-IsNext seq (x ∷ xs) {event} {rest} a e = elim (Bool-cases (ltb seq x.seq)) [
  | inl later ↦
      let step : (x ∷ after seq xs) ≡ (event ∷ rest) = rw later at e in
      let same : x ≡ event = ground (arith, step) in
      let tail : after seq xs ≡ rest = ground (arith, step) in
      subst (λ (f : HealthEvent). IsNext seq f rest (x ∷ xs)) same
        (subst (λ (r : List HealthEvent). IsNext seq x r (x ∷ xs)) tail
          (first_IsNext seq x xs a.0 later))
  | inr earlier ↦
      let step : after seq xs ≡ (event ∷ rest) = rw earlier at e in
      let next = after-IsNext seq xs a.1 step in ground (arith, earlier, next.0, next.1, next.2)
]

pub after-append_one :
    (seq : ℕ) (events : List HealthEvent) (event : HealthEvent)
    → seq < event.seq
    → after seq (events ++ event ∷ []) ≡ after seq events ++ event ∷ []
after-append_one seq [] event h = ground (arith, h)
after-append_one seq (x ∷ xs) event h = ground (arith, after-append_one seq xs event h)

pub up_to-append_one :
    (seq : ℕ) (events : List HealthEvent) (event : HealthEvent)
    → seq < event.seq
    → up_to seq (events ++ event ∷ []) ≡ up_to seq events
up_to-append_one seq [] event h = ground (arith, h)
up_to-append_one seq (x ∷ xs) event h = ground (arith, up_to-append_one seq xs event h)

pub Ascending-append_one :
    (events : List HealthEvent) (event : HealthEvent)
    → Ascending events
    → All (λ earlier. earlier.seq < event.seq) events
    → Ascending (events ++ event ∷ [])
Ascending-append_one [] event a h = (tt, tt)
Ascending-append_one (x ∷ xs) event a h = (
  All-append (λ later. x.seq < later.seq) xs (event ∷ []) a.0 (h.0, tt),
  Ascending-append_one xs event a.1 h.1,
)
