-- ===== src/Scene/Run/Rows.antt =====
-- The rows that a run reports, where it stops, and the events that announce them.
use race_link_host.Prelude.{
  ℕ, suc, ◌≡◌, refl, sym, ap, ◌∙◌, ◌⊎◌, inl, inr, Bool, true, false, not, ◌&&◌, &&-parts, Option,
  none, some, List, [], ◌∷◌, map, if◌then◌else◌, Bool-cases, Result, ok, err, if-both,
}
use race_link_host.Dispatch.Op.{
  ActionKind, delay, sync, offset_group, rl_preset, wled_preset, rl_effect, startblock, other_kind,
}
use race_link_host.Dispatch.Action.{ActionFields, Action, action, Actions}
use race_link_host.Dispatch.Planner.{PlanError, ActionPlan, plan_sync}
use race_link_host.Scene.Scope.{Scene}
use race_link_host.Scene.Runner.{
  Services, Host, RunScope, send_failed, offset_group_partial_failure, skipped_aborted,
  ActionResult, was_skipped, Outcomes, completed, stopped, plan_error_of, error_unless, all_ok,
  sent_result, outcome_result, degraded_result, send_ops, execute_plan, execute_planned, narrowed,
  plan_now, dispatch_kind, dispatch,
}
use race_link_host.Scene.Runner.Detail.{OpOutcome}
use race_link_host.Scene.Run.{
  Progress, kind_of, skipped_result, skipped_from, started_event, result_event, skipped_event,
  aborts, scope_of_scene, play, run,
}

-- A row of an action that was played: it has the action's index and kind, is not marked as skipped,
-- and is not both degraded and ok.
abbrev IsRow : ℕ → ActionKind → ActionResult → Type 0
IsRow index kind r =
    (r.index ≡ index)
    × (r.kind ≡ kind)
    × (was_skipped r.error ≡ false)
    × ((r.degraded && r.is_ok) ≡ false)

not_skipped :
    (b : Bool)
    → (was_skipped (error_unless b send_failed) ≡ false)
      × (was_skipped (error_unless b offset_group_partial_failure) ≡ false)
not_skipped true = (refl, refl)
not_skipped false = (refl, refl)

plan_error_not_skipped : (e : Option PlanError) → was_skipped (some (plan_error_of e)) ≡ false
plan_error_not_skipped none = refl
plan_error_not_skipped (some e) = refl

sent_result-IsRow :
    (index : ℕ) (kind : ActionKind) (plan : ActionPlan) (os : List OpOutcome)
    → IsRow index kind (sent_result index kind plan os)
unfolding sent_result
sent_result-IsRow index delay plan os = (refl, refl, (not_skipped (all_ok os)).0, refl)
sent_result-IsRow index sync plan os = (refl, refl, (not_skipped (all_ok os)).0, refl)
sent_result-IsRow index offset_group plan os = (refl, refl, (not_skipped (all_ok os)).1, refl)
sent_result-IsRow index rl_preset plan os = (refl, refl, (not_skipped (all_ok os)).0, refl)
sent_result-IsRow index wled_preset plan os = (refl, refl, (not_skipped (all_ok os)).0, refl)
sent_result-IsRow index rl_effect plan os = (refl, refl, (not_skipped (all_ok os)).0, refl)
sent_result-IsRow index startblock plan os = (refl, refl, (not_skipped (all_ok os)).0, refl)
sent_result-IsRow index (other_kind name) plan os = (refl, refl, (not_skipped (all_ok os)).0, refl)

outcome_result-IsRow :
    (index : ℕ) (kind : ActionKind) (plan : ActionPlan) (o : Outcomes)
    → IsRow index kind (outcome_result index kind plan o)
outcome_result-IsRow index kind plan (completed os) = sent_result-IsRow index kind plan os
outcome_result-IsRow index kind plan (stopped e) = (refl, refl, refl, refl)

-- The placeholders of the actions from an index on: one for each, in their order.
abbrev pub Placeholders : ℕ → List Action → List ActionResult → Type 0
Placeholders index [] [] = Unit
Placeholders index [] (r ∷ results) = ⊥
Placeholders index (a ∷ actions) [] = ⊥
Placeholders index (a ∷ actions) (r ∷ results) =
    (r.index ≡ index)
    × (r.kind ≡ kind_of a)
    × (r.is_ok ≡ false)
    × (r.degraded ≡ false)
    × (r.error ≡ some skipped_aborted)
    × Placeholders (suc index) actions results

abbrev pub EndsRun : Bool → ActionResult → Type 0
EndsRun stop r = (stop ≡ true) × (r.is_ok ≡ false) × (r.degraded ≡ false)

abbrev pub GoesOn : Bool → ActionResult → Type 0
GoesOn stop r = (stop ≡ false) ⊎ ((r.is_ok ≡ true) ⊎ (r.degraded ≡ true))

-- How a run may go on from an action: no action is left; or the action's row, which is no
-- placeholder, does not end the run and the rest goes on; or it does, and each later action has a
-- placeholder.
abbrev pub Continues : Bool → ℕ → List Action → List ActionResult → Option ℕ → Type 0
Continues stop index [] results aborted = (results ≡ []) × (aborted ≡ none)
Continues stop index (a ∷ actions) [] aborted = ⊥
Continues stop index (a ∷ actions) (r ∷ results) aborted =
    (r.index ≡ index)
    × (r.kind ≡ kind_of a)
    × (was_skipped r.error ≡ false)
    × ((GoesOn stop r × Continues stop (suc index) actions results aborted)
        ⊎ (EndsRun stop r × (aborted ≡ some index) × Placeholders (suc index) actions results))

aborts-EndsRun : (stop : Bool) (r : ActionResult) → aborts stop r ≡ true → EndsRun stop r
aborts-EndsRun stop r h =
    let outer = &&-parts (stop && not r.is_ok) (not r.degraded) h in
    let inner = &&-parts stop (not r.is_ok) outer.0 in
    (inner.0, unset r.is_ok inner.1, unset r.degraded outer.1)
  where
    unset : (b : Bool) → not b ≡ true → b ≡ false
    unset true e = absurd (cc e)
    unset false e = refl

aborts-GoesOn : (stop : Bool) (r : ActionResult) → aborts stop r ≡ false → GoesOn stop r
aborts-GoesOn stop r h = by_value stop r.is_ok r.degraded h
  where
    by_value :
        (stop is_ok degraded : Bool)
        → (stop && not is_ok && not degraded) ≡ false
        → (stop ≡ false) ⊎ ((is_ok ≡ true) ⊎ (degraded ≡ true))
    by_value false is_ok degraded e = inl refl
    by_value true true degraded e = inr (inl refl)
    by_value true false true e = inr (inr refl)
    by_value true false false e = absurd (cc e)

skipped_from-Placeholders :
    (index : ℕ) (actions : List Action) → Placeholders index actions (skipped_from index actions)
unfolding skipped_from
skipped_from-Placeholders index [] = tt
skipped_from-Placeholders index (a ∷ actions) =
    (refl, refl, refl, refl, refl, skipped_from-Placeholders (suc index) actions)

module _ {World : Type 0} (services : Services World) where
  execute_plan-IsRow :
      (scope : RunScope) (index : ℕ) (kind : ActionKind) (plan : ActionPlan) (h : Host World)
      → IsRow index kind (execute_plan services scope index kind plan h).0
  unfolding execute_plan
  execute_plan-IsRow scope index kind plan h =
      let sent = send_ops services scope plan.ops h in
      if-both (λ (x : ActionResult × Host World). IsRow index kind x.0) plan.degraded
        (degraded_result index kind plan, h) (outcome_result index kind plan sent.0, sent.1)
        (refl, refl, plan_error_not_skipped plan.error, refl)
        (outcome_result-IsRow index kind plan sent.0)

  execute_planned-IsRow :
      (scope : RunScope) (index : ℕ) (kind : ActionKind) (plan : Result ActionPlan) (h : Host World)
      → IsRow index kind (execute_planned services scope index kind plan h).0
  execute_planned-IsRow scope index kind (err e) h = (refl, refl, refl, refl)
  execute_planned-IsRow scope index kind (ok plan) h = execute_plan-IsRow scope index kind plan h

  dispatch_kind-IsRow :
      (k : ActionKind) (scope : RunScope) (index : ℕ) (a : ActionFields) (children : Actions)
      (h : Host World)
      → IsRow index k (dispatch_kind services k scope index a children h).0
  dispatch_kind-IsRow delay scope index a children h = (refl, refl, refl, refl)
  dispatch_kind-IsRow sync scope index a children h =
      execute_plan-IsRow scope index sync plan_sync h
  dispatch_kind-IsRow offset_group scope index a children h =
      execute_planned-IsRow (narrowed (services.fleet h.world) a.target scope) index offset_group
        (plan_now services (action a children) h) h
  dispatch_kind-IsRow rl_preset scope index a children h =
      execute_planned-IsRow scope index rl_preset (plan_now services (action a children) h) h
  dispatch_kind-IsRow wled_preset scope index a children h =
      execute_planned-IsRow scope index wled_preset (plan_now services (action a children) h) h
  dispatch_kind-IsRow rl_effect scope index a children h =
      execute_planned-IsRow scope index rl_effect (plan_now services (action a children) h) h
  dispatch_kind-IsRow startblock scope index a children h =
      execute_planned-IsRow scope index startblock (plan_now services (action a children) h) h
  dispatch_kind-IsRow (other_kind name) scope index a children h = (refl, refl, refl, refl)

  dispatch-IsRow :
      (scope : RunScope) (index : ℕ) (a : Action) (h : Host World)
      → IsRow index (kind_of a) (dispatch services scope index a h).0
  unfolding dispatch
  dispatch-IsRow scope index (action a children) h =
      dispatch_kind-IsRow a.kind scope index a children h

  play-Continues :
      (scope : RunScope) (stop : Bool) (index : ℕ) (actions : List Action) (h : Host World)
      → let played = play services scope stop index actions h in
        Continues stop index actions played.results played.aborted_at_index
  unfolding play
  play-Continues scope stop index [] h = (refl, refl)
  play-Continues scope stop index (a ∷ actions) h =
      let done = dispatch services scope index a h in
      let row = dispatch-IsRow scope index a h in
      (
        row.0,
        row.1,
        row.2,
        elim (Bool-cases (aborts stop done.0)) [
          | inl ends ↦ inr (
            aborts-EndsRun stop done.0 ends,
            rw ends refl,
            rw ends (skipped_from-Placeholders (suc index) actions),
          )
          | inr goes ↦ inl (
            aborts-GoesOn stop done.0 goes,
            rw goes (play-Continues scope stop (suc index) actions done.1),
          )
        ],
      )

  -- A run of a scene reports one row for each action, in their order and with their kinds. If the
  -- scene stops on errors, the first row that is neither ok nor degraded ends the run: its index is
  -- reported, and each later action has a placeholder, which is not ok and marked as skipped. If the
  -- scene does not stop on errors, or there is no such row, no index is reported and no row is a
  -- placeholder.
  pub run-Continues :
      (scene : Scene) (h : Host World)
      → let result = (run services (some scene) h).0 in
        Continues scene.stop_on_error 0 scene.actions result.actions result.aborted_at_index
  unfolding run
  run-Continues scene h =
      play-Continues (scope_of_scene (services.fleet h.world) scene) scene.stop_on_error 0
        scene.actions h

  -- The events of rows: a placeholder has one, each other row two.
  abbrev pub announced : List ActionResult → List Progress
  announced [] = []
  announced (r ∷ results) =
      let rest = announced results in
      if was_skipped r.error
      then skipped_event r ∷ rest
      else started_event r.index r.kind ∷ result_event r ∷ rest

  skipped-announced :
      (index : ℕ) (actions : List Action)
      → map skipped_event (skipped_from index actions) ≡ announced (skipped_from index actions)
  unfolding skipped_from
  skipped-announced index [] = refl
  skipped-announced index (a ∷ actions) =
      ap (λ es. skipped_event (skipped_result index (kind_of a)) ∷ es)
        (skipped-announced (suc index) actions)

  announced-row :
      (index : ℕ) (k : ActionKind) (r : ActionResult) (results : List ActionResult)
      → IsRow index k r
      → announced (r ∷ results) ≡ started_event index k ∷ result_event r ∷ announced results
  announced-row index k r results row = rw (row.2) (rw (row.0, row.1) refl)

  play-announced :
      (scope : RunScope) (stop : Bool) (index : ℕ) (actions : List Action) (h : Host World)
      → let played = play services scope stop index actions h in
        played.events ≡ announced played.results
  unfolding play
  play-announced scope stop index [] h = refl
  play-announced scope stop index (a ∷ actions) h =
      let done = dispatch services scope index a h in
      let row = dispatch-IsRow scope index a h in
      elim (Bool-cases (aborts stop done.0)) [
        | inl ends ↦ rw ends (
            ap (λ es. started_event index (kind_of a) ∷ result_event done.0 ∷ es)
              (skipped-announced (suc index) actions)
            ∙ sym (announced-row index (kind_of a) done.0 (skipped_from (suc index) actions) row))
        | inr goes ↦ rw goes (
            ap (λ es. started_event index (kind_of a) ∷ result_event done.0 ∷ es)
              (play-announced scope stop (suc index) actions done.1)
            ∙ sym (
                announced-row index (kind_of a) done.0
                  (play services scope stop (suc index) actions done.1).results row))
      ]

  -- The progress events of a run are those of its rows in their order: one event for a placeholder,
  -- and for any other row one when the action starts and one with the row's state when it has ended.
  run-announced :
      (scene : Scene) (h : Host World)
      → let outcome = run services (some scene) h in outcome.1 ≡ announced outcome.0.actions
  unfolding run
  run-announced scene h =
      play-announced (scope_of_scene (services.fleet h.world) scene) scene.stop_on_error 0
        scene.actions h
