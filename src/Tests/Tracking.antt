-- ===== src/Tests/Tracking.antt =====
-- A tracker that waits for one gateway, which comes back with the second poll.
use race_link_host.Prelude.{
  ℕ, zero, suc, ◌≤◌, ◌<◌, ◌≡◌, refl, inr, true, none, some, [], ◌∷◌, arith, String, is_some,
}
use race_link_host.Tracker.{
  Gateways, Tracker, new_tracker, macs_of, missing_macs, evaluate_and_arm, fire, cancel,
  clear_cancelled,
}
use race_link_host.Tracker.Settled.{
  IsSettled, Reachable, created, next, evaluation, cancellation, operations_settle,
}
use race_link_host.Tracker.Polling.{fire_times, polled, IsMissing, polling_ends}

abbrev upper : String → String
upper s = s

abbrev lost : Gateways
lost = record { gateway_macs = some "AA" ∷ none ∷ some "BB" ∷ []; ident_macs = some "BB" ∷ [] }

-- Each poll finds one more gateway port; the second has "AA".
abbrev find : Gateways → Gateways
find g = elim g.ident_macs as (λ m. Gateways) [
  | [] ↦ g
  | m ∷ [] ↦ record g { ident_macs = none ∷ m ∷ [] }
  | m ∷ n ∷ rest ↦ record g { ident_macs = some "AA" ∷ m ∷ n ∷ rest }
]

-- "BB" is cancelled, after the tracker has been evaluated.
abbrev waiting : Tracker
waiting = cancel upper 5000 10 (some "BB") lost (evaluate_and_arm upper 5000 0 lost new_tracker)

waiting-Reachable : Reachable upper 5000 (lost, waiting)
waiting-Reachable = next (next created (evaluation 0)) (cancellation 10 (some "BB"))

operations_settle_example :
    IsSettled upper 5000 (lost, evaluate_and_arm upper 5000 20 lost waiting)
    × IsSettled upper 5000 (fire upper 5000 find 20 (lost, waiting))
    × IsSettled upper 5000 (lost, cancel upper 5000 20 none lost waiting)
    × IsSettled upper 5000 (lost, clear_cancelled upper 5000 20 lost waiting)
operations_settle_example = operations_settle upper 5000 find 20 none waiting-Reachable

IsMissing-before :
    (k : ℕ) → k ≤ 1 → IsMissing upper 5000 find 30 (polled upper 5000 find 30 k lost) new_tracker
unfolding missing_macs macs_of
IsMissing-before zero h e = absurd (cc e)
IsMissing-before (suc zero) h e = absurd (cc e)
IsMissing-before (suc (suc k)) h e = absurd (omega arith)

polling_ends_example :
    ((k : ℕ)
      → k < 1
      → is_some (fire_times upper 5000 find 30 (suc k) (lost, new_tracker)).1.timer ≡ true)
    × ((fire_times upper 5000 find 30 2 (lost, new_tracker)).0 ≡ polled upper 5000 find 30 2 lost)
    × ((fire_times upper 5000 find 30 2 (lost, new_tracker)).1.timer ≡ none)
unfolding missing_macs macs_of
polling_ends_example =
    polling_ends upper 5000 find 30 1 lost new_tracker refl (inr (refl, refl)) IsMissing-before refl
