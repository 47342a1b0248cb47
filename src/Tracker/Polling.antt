-- ===== src/Tracker/Polling.antt =====
-- A missing gateway is polled for until the polls have attached it, and no longer.
use race_link_host.Prelude.{
  ℕ, zero, suc, ◌≤◌, ◌<◌, ◌≡◌, refl, sym, ap, ◌∙◌, ◌≢◌, inl, inr, true, false, none, List, [], ◌∷◌,
  arith, String, is_some, if-cases,
}
use race_link_host.Tracker.{
  Gateways, Tracker, missing_macs, drop_timer, poll, evaluate_and_arm, fire,
}
use race_link_host.Tracker.Settled.{
  IsSound, Settles, same_cancelled, evaluate-SameChoices, Settles-IsSound, fired,
}

module _ (upper : String → String) (interval : ℕ) (rediscover : Gateways → Gateways) (now : ℕ) where
  -- The timer fires `n` times.
  abbrev pub fire_times : ℕ → Gateways × Tracker → Gateways × Tracker
  fire_times zero s = s
  fire_times (suc n) s = fire upper interval rediscover now (fire_times n s)

  -- The controller after `n` polls.
  abbrev pub polled : ℕ → Gateways → Gateways
  polled zero g = g
  polled (suc n) g = rediscover (polled n g)

  abbrev pub IsMissing : Gateways → Tracker → Type 0
  IsMissing g t = missing_macs upper g t ≢ []

  poll-rediscover :
      (missing : List String) (g : Gateways)
      → missing ≢ []
      → poll upper interval rediscover missing g ≡ rediscover g
  poll-rediscover [] g h = absurd (h refl)
  poll-rediscover (mac ∷ macs) g h = refl

  -- One more poll of a tracker that runs and misses something.
  OnePoll : Gateways → Tracker → Gateways × Tracker → Type 0
  OnePoll g t s = (s.0 ≡ rediscover g) × (s.1.cancelled ≡ t.cancelled) × (s.1.is_shut_down ≡ false)

  fire-OnePoll :
      (g : Gateways) (t : Tracker)
      → t.is_shut_down ≡ false
      → IsMissing g t
      → OnePoll g t (fire upper interval rediscover now (g, t))
  unfolding fire OnePoll
  fire-OnePoll g t up missing =
      let dropped = drop_timer upper interval t in
      let found = poll upper interval rediscover (missing_macs upper g dropped) g in
      if-cases (λ (s : Gateways × Tracker). OnePoll g t s) t.is_shut_down (g, dropped)
        (found, evaluate_and_arm upper interval now found dropped)
        (λ down. absurd (cc (sym down ∙ up)))
        (λ still. (
          poll-rediscover (missing_macs upper g dropped) g
              (λ e. missing (same_cancelled upper interval g t dropped refl ∙ e)),
          (evaluate-SameChoices upper interval now found dropped).0,
          (evaluate-SameChoices upper interval now found dropped).1 ∙ up,
        ))

  -- `n` polls, each of a tracker that missed something.
  abbrev Polls : ℕ → Gateways → Tracker → Gateways × Tracker → Type 0
  Polls n g t s =
      (s.0 ≡ polled n g) × (s.1.cancelled ≡ t.cancelled) × (s.1.is_shut_down ≡ false) × IsSound s.1

  fire_times-Polls :
      (n : ℕ) (g : Gateways) (t : Tracker)
      → t.is_shut_down ≡ false
      → IsSound t
      → ((k : ℕ) → k < n → IsMissing (polled k g) t)
      → Polls n g t (fire_times n (g, t))
  unfolding OnePoll
  fire_times-Polls zero g t up sound missing = (refl, refl, up, sound)
  fire_times-Polls (suc n) g t up sound missing =
      let s = fire_times n (g, t) in
      let before = fire_times-Polls n g t up sound (λ k less. missing k (omega arith)) in
      let still : IsMissing s.0 s.1 = λ e. missing n (omega arith) (
        same_cancelled upper interval (polled n g) t s.1 (sym before.1)
        ∙ ap (λ (h : Gateways). missing_macs upper h s.1) (sym before.0)
        ∙ e) in
      let one = fire-OnePoll s.0 s.1 before.2 still in
      (
        one.0 ∙ ap rediscover before.0,
        one.1 ∙ before.1,
        one.2,
        Settles-IsSound upper interval _ _ (fired upper interval rediscover now s.0 s.1 before.3),
      )

  settled_timer :
      (missing : List String) (t : Tracker)
      → t.is_shut_down ≡ false
      → Settles missing t
      → (missing ≡ [] → t.timer ≡ none) × (missing ≢ [] → is_some t.timer ≡ true)
  settled_timer missing t up (inl down) = absurd (cc (sym down.0 ∙ up))
  settled_timer [] t up (inr h) = (λ e. h.2.0, λ n. absurd (n refl))
  settled_timer (mac ∷ macs) t up (inr h) = (λ e. absurd (cc e), λ n. h.2.0)

  -- If a tracker that is not shut down misses a gateway before each of the first polls, and the last of
  -- these polls leaves none missing, then every poll before the last leaves the timer armed for the
  -- next one, and the last leaves no timer: polling goes on until the gateways are back, and ends then.
  pub polling_ends :
      (n : ℕ) (g : Gateways) (t : Tracker)
      → t.is_shut_down ≡ false
      → IsSound t
      → ((k : ℕ) → k ≤ n → IsMissing (polled k g) t)
      → missing_macs upper (polled (suc n) g) t ≡ []
      → ((k : ℕ) → k < n → is_some (fire_times (suc k) (g, t)).1.timer ≡ true)
        × ((fire_times (suc n) (g, t)).0 ≡ polled (suc n) g)
        × ((fire_times (suc n) (g, t)).1.timer ≡ none)
  polling_ends n g t up sound missing last = (
    λ k less.
        (timer_after k (λ i small. missing i (omega arith))).1 (missing (suc k) (omega arith)),
    (fire_times-Polls (suc n) g t up sound (λ k less. missing k (omega arith))).0,
    (timer_after n (λ i small. missing i (omega arith))).0 last,
  )
    where
      timer_after :
          (k : ℕ)
          → ((i : ℕ) → i < suc k → IsMissing (polled i g) t)
          → (missing_macs upper (polled (suc k) g) t ≡ []
              → (fire_times (suc k) (g, t)).1.timer ≡ none)
            × (missing_macs upper (polled (suc k) g) t ≢ []
                → is_some (fire_times (suc k) (g, t)).1.timer ≡ true)
      timer_after k before =
          let s = fire_times k (g, t) in
          let u = fire_times (suc k) (g, t) in
          let polls = fire_times-Polls (suc k) g t up sound before in
          let earlier = fire_times-Polls k g t up sound (λ i less. before i (omega arith)) in
          let settled =
            settled_timer (missing_macs upper u.0 u.1) u.1 polls.2
              (fired upper interval rediscover now s.0 s.1 earlier.3) in
          let same : missing_macs upper u.0 u.1 ≡ missing_macs upper (polled (suc k) g) t =
            same_cancelled upper interval u.0 u.1 t polls.1
            ∙ ap (λ (h : Gateways). missing_macs upper h t) polls.0 in
          (λ e. settled.0 (same ∙ e), λ n. settled.1 (λ e. n (sym same ∙ e)))
