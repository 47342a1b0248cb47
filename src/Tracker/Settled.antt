-- ===== src/Tracker/Settled.antt =====
-- After each operation a poll is armed exactly while a gateway is missing.
use race_link_host.Prelude.{
  ℕ, ◌≡◌, refl, sym, ap, ◌∙◌, ◌⊎◌, inl, inr, true, false, Option, none, some, List, [], ◌∷◌, ◌++◌,
  String, is_some, if-both, if-cases,
}
use race_link_host.Tracker.{
  Gateways, Tracker, new_tracker, missing_macs, broadcast_state, arm_once, evaluate_missing,
  evaluate_and_arm, drop_timer, poll, fire, cancelled_by, cancel, clear_cancelled, shutdown,
}

-- A tracker that is shut down has no timer, and one that is not knows when its timer fires.
abbrev pub IsSound : Tracker → Type 0
IsSound t =
    ((t.is_shut_down ≡ true) × (t.timer ≡ none))
    ⊎ ((t.is_shut_down ≡ false) × (is_some t.timer ≡ is_some t.next_fire_ts))

-- Either shut down, or the last broadcast was `missing`, and a timer runs, with its time known,
-- exactly if `missing` is not empty.
abbrev IsArmedFor : List String → Tracker → Type 0
IsArmedFor [] t = (t.timer ≡ none) × (t.next_fire_ts ≡ none)
IsArmedFor (mac ∷ macs) t = (is_some t.timer ≡ true) × (is_some t.next_fire_ts ≡ true)

abbrev last_broadcast : Tracker → Option (List String)
last_broadcast t = elim t.broadcasts as (λ b. Option (List String)) [
  | [] ↦ none
  | missing ∷ earlier ↦ some missing
]

abbrev pub Settles : List String → Tracker → Type 0
Settles missing t =
    ((t.is_shut_down ≡ true) × (t.timer ≡ none))
    ⊎ ((t.is_shut_down ≡ false) × (last_broadcast t ≡ some missing) × IsArmedFor missing t)

module _ (upper : String → String) (interval : ℕ) where
  evaluate_missing-Settles :
      (now : ℕ) (missing : List String) (t : Tracker)
      → t.is_shut_down ≡ false
      → is_some t.timer ≡ is_some t.next_fire_ts
      → Settles missing (evaluate_missing upper interval now missing t)
  evaluate_missing-Settles now [] t h e = inr (h, refl, (refl, refl))
  evaluate_missing-Settles now (mac ∷ macs) t h e = running t.timer refl
    where
      running :
          (o : Option ℕ)
          → t.timer ≡ o
          → Settles
              (mac ∷ macs)
              (broadcast_state upper interval (mac ∷ macs) (arm_once upper interval now o t))
      running none same = inr (h, refl, (refl, refl))
      running (some id) same = inr (h, refl, (rw same refl, sym e ∙ rw same refl))

  pub same_cancelled :
      (g : Gateways) (t u : Tracker)
      → t.cancelled ≡ u.cancelled
      → missing_macs upper g t ≡ missing_macs upper g u
  unfolding missing_macs
  same_cancelled g t u e = rw e refl

  -- A sound tracker is settled by its evaluation.
  pub evaluate-Settles :
      (now : ℕ) (g : Gateways) (t : Tracker)
      → IsSound t
      → Settles (missing_macs upper g t) (evaluate_and_arm upper interval now g t)
  unfolding evaluate_and_arm
  evaluate-Settles now g t (inl down) = simp (down.0) (inl (refl, refl))
  evaluate-Settles now g t (inr up) =
      simp (up.0) (evaluate_missing-Settles now (missing_macs upper g t) t up.0 up.1)

  pub Settles-IsSound : (missing : List String) (t : Tracker) → Settles missing t → IsSound t
  Settles-IsSound missing t (inl down) = inl down
  Settles-IsSound [] t (inr up) = inr (up.0, ap is_some up.2.0 ∙ sym (ap is_some up.2.1))
  Settles-IsSound (mac ∷ macs) t (inr up) = inr (up.0, up.2.0 ∙ sym up.2.1)

  -- What no evaluation changes.
  abbrev pub SameChoices : Tracker → Tracker → Type 0
  SameChoices t u = (u.cancelled ≡ t.cancelled) × (u.is_shut_down ≡ t.is_shut_down)

  armed-SameChoices :
      (now : ℕ) (missing : List String) (t : Tracker) (o : Option ℕ)
      → SameChoices t (broadcast_state upper interval missing (arm_once upper interval now o t))
  armed-SameChoices now missing t none = (refl, refl)
  armed-SameChoices now missing t (some id) = (refl, refl)

  evaluate_missing-SameChoices :
      (now : ℕ) (missing : List String) (t : Tracker)
      → SameChoices t (evaluate_missing upper interval now missing t)
  evaluate_missing-SameChoices now [] t = (refl, refl)
  evaluate_missing-SameChoices now (mac ∷ macs) t = armed-SameChoices now (mac ∷ macs) t t.timer

  pub evaluate-SameChoices :
      (now : ℕ) (g : Gateways) (t : Tracker)
      → SameChoices t (evaluate_and_arm upper interval now g t)
  unfolding evaluate_and_arm
  evaluate-SameChoices now g t =
      if-both (λ (u : Tracker). SameChoices t u) t.is_shut_down _ _ (refl, refl)
        (evaluate_missing-SameChoices now (missing_macs upper g t) t)

  -- What an operation leaves is settled for what is missing then.
  abbrev pub IsSettled : Gateways × Tracker → Type 0
  IsSettled (g, t) = Settles (missing_macs upper g t) t

  evaluated :
      (now : ℕ) (g : Gateways) (t : Tracker)
      → IsSound t
      → IsSettled (g, evaluate_and_arm upper interval now g t)
  evaluated now g t s =
      let u = evaluate_and_arm upper interval now g t in
      rw (same_cancelled g u t ((evaluate-SameChoices now g t).0)) (evaluate-Settles now g t s)

  pub fired :
      (rediscover : Gateways → Gateways) (now : ℕ) (g : Gateways) (t : Tracker)
      → IsSound t
      → IsSettled (fire upper interval rediscover now (g, t))
  unfolding fire
  fired rediscover now g t s =
      let dropped = drop_timer upper interval t in
      let found = poll upper interval rediscover (missing_macs upper g dropped) g in
      if-cases IsSettled t.is_shut_down (g, dropped)
        (found, evaluate_and_arm upper interval now found dropped) (λ down. inl (down, refl))
        (λ up. evaluated now found dropped (inr (up, refl)))

  cancelled-IsSettled :
      (now : ℕ) (mac : Option String) (g : Gateways) (t : Tracker)
      → IsSound t
      → IsSettled (g, cancel upper interval now mac g t)
  unfolding cancel
  cancelled-IsSettled now mac g t s =
      evaluated now g (record t { cancelled = cancelled_by upper interval g mac ++ t.cancelled }) s

  cleared-IsSettled :
      (now : ℕ) (g : Gateways) (t : Tracker)
      → IsSound t
      → IsSettled (g, clear_cancelled upper interval now g t)
  unfolding clear_cancelled
  cleared-IsSettled now g t s = evaluated now g (record t { cancelled = [] }) s

  -- What may happen to the tracker: the controller's gateways change, or one of its methods is called;
  -- a timer that was cancelled too late may still fire.
  pub data Step : Gateways × Tracker → Gateways × Tracker → Type 0 where
    changed : {g h : Gateways} {t : Tracker} → Step (g, t) (h, t)
    evaluation :
        {g : Gateways} {t : Tracker} (now : ℕ)
        → Step (g, t) (g, evaluate_and_arm upper interval now g t)
    firing :
        {g : Gateways} {t : Tracker} (rediscover : Gateways → Gateways) (now : ℕ)
        → Step (g, t) (fire upper interval rediscover now (g, t))
    cancellation :
        {g : Gateways} {t : Tracker} (now : ℕ) (mac : Option String)
        → Step (g, t) (g, cancel upper interval now mac g t)
    clearing :
        {g : Gateways} {t : Tracker} (now : ℕ)
        → Step (g, t) (g, clear_cancelled upper interval now g t)
    stopping : {g : Gateways} {t : Tracker} → Step (g, t) (g, shutdown upper interval t)

  pub data Reachable : Gateways × Tracker → Type 0 where
    created : {g : Gateways} → Reachable (g, new_tracker)
    next : {s u : Gateways × Tracker} → Reachable s → Step s u → Reachable u

  settled-IsSound : (s : Gateways × Tracker) → IsSettled s → IsSound s.1
  settled-IsSound s h = Settles-IsSound (missing_macs upper s.0 s.1) s.1 h

  Step-IsSound : {s u : Gateways × Tracker} → Step s u → IsSound s.1 → IsSound u.1
  Step-IsSound changed h = h
  Step-IsSound (evaluation {g} {t} now) h = settled-IsSound _ (evaluated now g t h)
  Step-IsSound (firing {g} {t} rediscover now) h = settled-IsSound _ (fired rediscover now g t h)
  Step-IsSound (cancellation {g} {t} now mac) h =
      settled-IsSound _ (cancelled-IsSettled now mac g t h)
  Step-IsSound (clearing {g} {t} now) h = settled-IsSound _ (cleared-IsSettled now g t h)
  Step-IsSound (stopping {g} {t}) h = unfold shutdown in inl (refl, refl)

  -- In every state that the tracker can reach, whatever happens to the controller in between: once it
  -- is shut down no timer is armed again, and until then it knows the time of its timer exactly while
  -- it has one.
  Reachable-IsSound : {s : Gateways × Tracker} → Reachable s → IsSound s.1
  Reachable-IsSound created = inr (refl, refl)
  Reachable-IsSound (next r step) = Step-IsSound step (Reachable-IsSound r)

  -- In any reachable state, each of evaluate_and_arm, a firing timer, cancel and clear_cancelled
  -- leaves a tracker that is shut down without a timer, or one that has broadcast the gateways that
  -- are missing then, and whose timer is armed exactly if there are any.
  pub operations_settle :
      {g : Gateways} {t : Tracker} (rediscover : Gateways → Gateways) (now : ℕ)
      (mac : Option String)
      → Reachable (g, t)
      → IsSettled (g, evaluate_and_arm upper interval now g t)
        × IsSettled (fire upper interval rediscover now (g, t))
        × IsSettled (g, cancel upper interval now mac g t)
        × IsSettled (g, clear_cancelled upper interval now g t)
  operations_settle {g} {t} rediscover now mac r =
      let s = Reachable-IsSound r in
      (
        evaluated now g t s,
        fired rediscover now g t s,
        cancelled-IsSettled now mac g t s,
        cleared-IsSettled now g t s,
      )
