-- ===== src/Matcher/Wait.antt =====
-- When and why `wait` returns.
use race_link_host.Prelude.{
  ℕ, zero, suc, ◌+◌, ◌≤◌, ◌<◌, ◌≡◌, refl, ◌⊎◌, inl, inr, true, false, Option, none, some, List, [],
  ◌∷◌, arith, ltb, leb, Bool-cases,
}
use race_link_host.Matcher.{
  PendingMatcher, done, Reason, count, idle, max_timeout, no_reply, Turn, return, sleep, wait_turn,
  wait, at_deadline, before_deadline,
}

-- The condition under which a turn of the loop has each outcome.
abbrev pub TurnIs : ℕ → ℕ → PendingMatcher → Turn → Type 0
TurnIs anchor now m (return count) = done m ≡ true
TurnIs anchor now m (return no_reply) =
    (done m ≡ false) × (anchor + m.max_timeout ≤ now) × (m.last_match ≡ none)
TurnIs anchor now m (return max_timeout) =
    (done m ≡ false) × (anchor + m.max_timeout ≤ now) × ((ts : ℕ) × (m.last_match ≡ some ts))
TurnIs anchor now m (return idle) =
    (done m ≡ false)
    × (now < anchor + m.max_timeout)
    × (0 < m.idle_timeout)
    × ((ts : ℕ) × (m.last_match ≡ some ts) × (ts + m.idle_timeout ≤ now))
TurnIs anchor now m (sleep d) = (done m ≡ false) × (0 < d) × (now + d ≤ anchor + m.max_timeout)

module _ (anchor now : ℕ) (m : PendingMatcher) (busy : done m ≡ false) where
  expired :
      (last : Option ℕ)
      → m.last_match ≡ last
      → anchor + m.max_timeout ≤ now
      → TurnIs anchor now m (return (at_deadline last))
  expired none e h = (busy, h, e)
  expired (some ts) e h = (busy, h, (ts, e))

  early :
      (last : Option ℕ) (window : ℕ)
      → m.last_match ≡ last
      → m.idle_timeout ≡ window
      → now < anchor + m.max_timeout
      → TurnIs anchor now m (before_deadline last window (anchor + m.max_timeout) now)
  early none window e w h = (busy, omega arith, omega arith)
  early (some ts) zero e w h = (busy, omega arith, omega arith)
  early (some ts) (suc d) e w h = elim (Bool-cases (ltb (anchor + m.max_timeout) (ts + suc d))) [
    | inl far ↦ elim (Bool-cases (leb (anchor + m.max_timeout) now)) [
      | inl late ↦ absurd (ground arith)
      | inr soon ↦ rw (far, soon) (busy, ground arith, ground arith)
    ]
    | inr near ↦ elim (Bool-cases (leb (ts + suc d) now)) [
      | inl late ↦ rw (near, late) (busy, h, omega arith, (ts, e, ground arith))
      | inr soon ↦ rw (near, soon) (busy, ground arith, ground arith)
    ]
  ]

-- What a turn of the loop does, from the state of the matcher and the clock: it returns "count" when
-- the matcher is done; else, at or after the hard deadline, "no_reply" if nothing ever matched and
-- "max_timeout" otherwise; else "idle" when the idle window is on and has passed since the last match;
-- else it sleeps, for a time that is positive and does not reach past the deadline.
wait_turn_lem : (anchor now : ℕ) (m : PendingMatcher) → TurnIs anchor now m (wait_turn anchor now m)
unfolding wait_turn
wait_turn_lem anchor now m = elim (Bool-cases (done m)) [
  | inl finished ↦ rw finished finished
  | inr busy ↦ elim (Bool-cases (leb (anchor + m.max_timeout) now)) [
    | inl late ↦ rw (busy, late) (expired anchor now m busy m.last_match refl (ground arith))
    | inr soon ↦
        rw (busy, soon)
          (early anchor now m busy m.last_match m.idle_timeout refl refl (ground arith))
  ]
]

-- Some wake-up comes at or after the hard deadline.
abbrev pub Reaches : ℕ → List (ℕ × PendingMatcher) → Type 0
Reaches anchor [] = ⊥
Reaches anchor ((now, m) ∷ later) = (anchor + m.max_timeout ≤ now) ⊎ Reaches anchor later

-- A waiter that is woken once at or after its hard deadline, whatever woke it before and whatever
-- was collected meanwhile, returns.
pub wait_ends :
    (anchor : ℕ) (wakes : List (ℕ × PendingMatcher))
    → Reaches anchor wakes
    → (reason : Reason) × (wait anchor wakes ≡ some reason)
unfolding wait
wait_ends anchor [] h = absurd h
wait_ends anchor ((now, m) ∷ later) h =
    turn (wait_turn anchor now m) (wait_turn_lem anchor now m) h (wait_ends anchor later)
  where
    turn :
        (t : Turn)
        → TurnIs anchor now m t
        → (anchor + m.max_timeout ≤ now) ⊎ Reaches anchor later
        → (Reaches anchor later → (reason : Reason) × (wait anchor later ≡ some reason))
        → (reason : Reason) × (elim t [
          | return reason' ↦ some reason'
          | sleep d ↦ wait anchor later
        ]
            ≡ some reason)
    turn (return reason) is at ih = (reason, refl)
    turn (sleep d) is (inl late) ih = absurd (omega arith)
    turn (sleep d) is (inr reached) ih = ih reached
