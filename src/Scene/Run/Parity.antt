-- ===== src/Scene/Run/Parity.antt =====
-- The runner makes as many calls as the estimator counts packets; and what a degraded plan sends.
use race_link_host.Prelude.{
  ℕ, suc, ◌+◌, ◌≡◌, refl, sym, ap, ◌∙◌, Bool, true, false, ◌&&◌, Option, none, some, List, [], ◌∷◌,
  arith, String, if◌then◌else◌, length, any_of, length-append, All, ℤ, pos, eqb_ℤ, Result, ok, err,
  WhenOk,
}
use race_link_host.Dispatch.Op.{
  Payload, offset_kwargs, sync_kwargs, effect_kwargs, Sender, send_offset, send_sync, send_control,
  send_wled_preset, send_startblock, ActionKind, delay, sync, offset_group, rl_preset, wled_preset,
  rl_effect, startblock, other_kind, WireOp,
}
use race_link_host.Dispatch.Action.{ActionFields, action, Actions, container_target, PlannerInputs}
use race_link_host.Dispatch.Optimizer.{OptimizerPlan, plan_offset_setup}
use race_link_host.Dispatch.Planner.{
  ActionPlan, unknown_kind, empty_detail, degraded_plan, plan_sync,
}
use race_link_host.Dispatch.Planner.Container.{
  container_or_all, offset_of, force_offset_flag, targets_of, group_plan, plan_by_kind,
  plan_action_dispatch, plan_children,
}
use race_link_host.Dispatch.Planner.Coherent.{SuitsSender, Coherent, plan_sync-Coherent}
use race_link_host.Dispatch.Planner.EachOp.{Planned}
use race_link_host.Dispatch.Cost.{ActionCost, is_delay, estimate_action}
use race_link_host.Dispatch.Cost.Totals.{estimate_action-CostOf}
use race_link_host.Scene.Runner.{
  Services, Host, RunScope, RunError, exception, Call, CallReply, returned, raised, call_of,
  ActionResult, Outcomes, completed, stopped, and_outcome, dispatch_op, go_on, send_ops,
  degraded_result, outcome_result, execute_plan, execute_planned, narrowed, plan_now, dispatch_kind,
  dispatch,
}
use race_link_host.Scene.Runner.Detail.{OpOutcome}
use race_link_host.Scene.Run.Calls.{scope_for, planned}

abbrev pub ended_by_exception : Option RunError → Bool
ended_by_exception (some (exception e)) = true
ended_by_exception _ = false

called :
    (scope : RunScope) (now : ℕ) (g : ℤ) (s : Option Sender) (p : Payload)
    → SuitsSender g s p
    → (call : Call) × (call_of true scope now g s p ≡ some call)
called scope now g (some send_offset) (offset_kwargs config) f = (_, refl)
called scope now g (some send_sync) (sync_kwargs brightness trigger_armed) f = (_, refl)
called scope now g (some send_control) (effect_kwargs params kwargs) f = (_, refl)
called scope now g (some send_wled_preset) (effect_kwargs params kwargs) f = (_, refl)
called scope now g (some send_startblock) (effect_kwargs params kwargs) f = (_, refl)
called scope now g none p f = absurd f
called scope now g (some send_offset) (sync_kwargs x y) f = absurd f
called scope now g (some send_offset) (effect_kwargs x y) f = absurd f
called scope now g (some send_sync) (offset_kwargs x) f = absurd f
called scope now g (some send_sync) (effect_kwargs x y) f = absurd f
called scope now g (some send_control) (offset_kwargs x) f = absurd f
called scope now g (some send_control) (sync_kwargs x y) f = absurd f
called scope now g (some send_wled_preset) (offset_kwargs x) f = absurd f
called scope now g (some send_wled_preset) (sync_kwargs x y) f = absurd f
called scope now g (some send_startblock) (offset_kwargs x) f = absurd f
called scope now g (some send_startblock) (sync_kwargs x y) f = absurd f

not_blocked : (b c : Bool) → c ≡ false → (b && c) ≡ false
not_blocked true c h = h
not_blocked false c h = refl

module _ {World : Type 0} (services : Services World) where
  -- The number of calls so far.
  abbrev pub calls : Host World → ℕ
  calls h = length h.log

  module _ (with_startblock : services.has_startblock ≡ true) (scope : RunScope)
      (addressable : scope.is_explicit_empty ≡ false) where
    dispatch_op-calls :
        (op : WireOp) (h : Host World)
        → Coherent op
        → calls (dispatch_op services scope op h).1 ≡ suc (calls h)
    unfolding dispatch_op
    dispatch_op-calls op h c =
        let call =
          called scope (services.clock_ms h.world) op.target_group op.sender op.payload c in
        rw
          (
            not_blocked (eqb_ℤ op.target_group (pos 255)) scope.is_explicit_empty addressable,
            with_startblock,
            call.1,
          )
          (omega (arith, length-append h.log (call.0 ∷ [])))

    -- If no exception is raised, each operation has been called for once.
    abbrev AllSent : List WireOp → Host World → Outcomes → Host World → Type 0
    AllSent ops h (stopped e) h' = Unit
    AllSent ops h (completed os) h' = calls h' ≡ calls h + length ops

    and_outcome-AllSent :
        (op : WireOp) (o : OpOutcome) (ops : List WireOp) (before h : Host World) (later : Outcomes)
        (h' : Host World)
        → calls h ≡ suc (calls before)
        → AllSent ops h later h'
        → AllSent (op ∷ ops) before (and_outcome o later) h'
    and_outcome-AllSent op o ops before h (stopped e) h' k s = tt
    and_outcome-AllSent op o ops before h (completed os) h' k s = omega arith

    go_on-AllSent :
        (op : WireOp) (ops : List WireOp) (reply : CallReply) (before h : Host World)
        → calls h ≡ suc (calls before)
        → (let later = send_ops services scope ops h in AllSent ops h later.0 later.1)
        → let sent = go_on services op reply h (send_ops services scope ops) in
          AllSent (op ∷ ops) before sent.0 sent.1
    go_on-AllSent op ops (raised e) before h k s = tt
    go_on-AllSent op ops (returned b) before h k s =
        let later = send_ops services scope ops h in
        and_outcome-AllSent op (record { is_ok = b; op = op }) ops before h later.0 later.1 k s

    send_ops-AllSent :
        (ops : List WireOp) (h : Host World)
        → All Coherent ops
        → let sent = send_ops services scope ops h in AllSent ops h sent.0 sent.1
    unfolding send_ops
    send_ops-AllSent [] h c = omega arith
    send_ops-AllSent (op ∷ ops) h c =
        let first = dispatch_op services scope op h in
        go_on-AllSent op ops first.0 h first.1 (dispatch_op-calls op h c.0)
          (send_ops-AllSent ops first.1 c.1)

    completed-calls :
        (index : ℕ) (kind : ActionKind) (plan : ActionPlan) (ops : List WireOp) (h : Host World)
        (o : Outcomes) (h' : Host World)
        → AllSent ops h o h'
        → ended_by_exception (outcome_result index kind plan o).error ≡ false
        → calls h' ≡ calls h + length ops
    completed-calls index kind plan ops h (completed os) h' s e = s
    completed-calls index kind plan ops h (stopped x) h' s e = absurd (cc e)

    by_flag :
        (b : Bool) (index : ℕ) (kind : ActionKind) (plan : ActionPlan) (r : ActionResult)
        (o : Outcomes) (h h' : Host World)
        → b ≡ false
        → AllSent plan.ops h o h'
        → ended_by_exception
            (if◌then◌else◌ {A = ActionResult × Host World} b
              (r, h)
              (outcome_result index kind plan o, h')).0.error
          ≡ false
        → calls
            (if◌then◌else◌ {A = ActionResult × Host World} b
              (r, h)
              (outcome_result index kind plan o, h')).1
          ≡ calls h + length plan.ops
    by_flag true index kind plan r o h h' d s e = absurd (cc d)
    by_flag false index kind plan r o h h' d s e =
        completed-calls index kind plan plan.ops h o h' s e

    execute_plan-calls :
        (index : ℕ) (kind : ActionKind) (plan : ActionPlan) (h : Host World)
        → Planned Coherent plan
        → plan.degraded ≡ false
        → ended_by_exception (execute_plan services scope index kind plan h).0.error ≡ false
        → calls (execute_plan services scope index kind plan h).1 ≡ calls h + length plan.ops
    unfolding execute_plan
    execute_plan-calls index kind plan h c d e =
        let sent = send_ops services scope plan.ops h in
        by_flag plan.degraded index kind plan (degraded_result index kind plan) sent.0 h sent.1 d
          (send_ops-AllSent plan.ops h c) e

    execute_planned-calls :
        (index : ℕ) (kind : ActionKind) (r : Result ActionPlan) (plan : ActionPlan) (h : Host World)
        → WhenOk (Planned Coherent) r
        → r ≡ ok plan
        → plan.degraded ≡ false
        → ended_by_exception (execute_planned services scope index kind r h).0.error ≡ false
        → calls (execute_planned services scope index kind r h).1 ≡ calls h + length plan.ops
    execute_planned-calls index kind (err x) plan h c r d e = absurd (cc r)
    execute_planned-calls index kind (ok p) plan h c r d e =
        let same : p ≡ plan = cc in
        let counted = execute_plan-calls index kind p h c (ap ActionPlan.degraded same ∙ d) e in
        counted ∙ ap (λ (q : ActionPlan). calls h + length q.ops) same

  planned_sync :
      (k : ActionKind) (inputs : PlannerInputs) (a : ActionFields) (children : Actions)
      (plans : Result (List ActionPlan)) (plan : ActionPlan)
      → k ≡ sync
      → plan_by_kind k inputs none a children plans ≡ ok plan
      → plan_sync ≡ plan
  planned_sync k inputs a children plans plan e h = let known = rw e at h in cc

  unknown_plan :
      (k : ActionKind) (name : String) (inputs : PlannerInputs) (a : ActionFields)
      (children : Actions) (plans : Result (List ActionPlan)) (plan : ActionPlan)
      → k ≡ other_kind name
      → plan_by_kind k inputs none a children plans ≡ ok plan
      → plan.degraded ≡ true
  unknown_plan k name inputs a children plans plan e h =
      let known : ok (degraded_plan (other_kind name) unknown_kind empty_detail) ≡ ok plan =
        rw e at h in
      let same : degraded_plan (other_kind name) unknown_kind empty_detail ≡ plan = cc in
      ap ActionPlan.degraded (sym same)

  dispatch_kind-calls :
      (k : ActionKind) (scope : RunScope) (index : ℕ) (a : ActionFields) (children : Actions)
      (h : Host World) (plan : ActionPlan)
      → services.has_startblock ≡ true
      → (scope_for k (services.fleet h.world) a.target scope).is_explicit_empty ≡ false
      → a.kind ≡ k
      → is_delay k ≡ false
      → plan_now services (action a children) h ≡ ok plan
      → plan.degraded ≡ false
      → ended_by_exception (dispatch_kind services k scope index a children h).0.error ≡ false
      → calls (dispatch_kind services k scope index a children h).1 ≡ calls h + length plan.ops
  unfolding plan_action_dispatch
  dispatch_kind-calls delay scope index a children h plan ws ad same nd p d e = absurd (cc nd)
  dispatch_kind-calls sync scope index a children h plan ws ad same nd p d e =
      let inputs = services.planner_inputs h.world in
      let eq =
        planned_sync a.kind inputs a children (plan_children inputs (force_offset_flag a) children)
          plan same p in
      execute_plan-calls ws scope ad index sync plan_sync h plan_sync-Coherent
        (ap ActionPlan.degraded eq ∙ d) e
      ∙ ap (λ (q : ActionPlan). calls h + length q.ops) eq
  dispatch_kind-calls offset_group scope index a children h plan ws ad same nd p d e =
      execute_planned-calls ws (narrowed (services.fleet h.world) a.target scope) ad index
        offset_group (plan_now services (action a children) h) plan h
        (planned services (action a children) h) p d e
  dispatch_kind-calls rl_preset scope index a children h plan ws ad same nd p d e =
      execute_planned-calls ws scope ad index rl_preset (plan_now services (action a children) h)
        plan h (planned services (action a children) h) p d e
  dispatch_kind-calls wled_preset scope index a children h plan ws ad same nd p d e =
      execute_planned-calls ws scope ad index wled_preset (plan_now services (action a children) h)
        plan h (planned services (action a children) h) p d e
  dispatch_kind-calls rl_effect scope index a children h plan ws ad same nd p d e =
      execute_planned-calls ws scope ad index rl_effect (plan_now services (action a children) h)
        plan h (planned services (action a children) h) p d e
  dispatch_kind-calls startblock scope index a children h plan ws ad same nd p d e =
      execute_planned-calls ws scope ad index startblock (plan_now services (action a children) h)
        plan h (planned services (action a children) h) p d e
  dispatch_kind-calls (other_kind name) scope index a children h plan ws ad same nd p d e =
      let inputs = services.planner_inputs h.world in
      let bad =
        unknown_plan a.kind name inputs a children
          (plan_children inputs (force_offset_flag a) children) plan same p in
      absurd (cc (sym bad ∙ d))

  -- For an action that is no delay and whose plan is not degraded, the runner calls the services
  -- exactly as often as the estimator counts packets, if no service raises an exception, the
  -- controller has its start-block method, and the action's scope is not explicit and empty.
  pub dispatch-estimate :
      (scope : RunScope) (index : ℕ) (a : ActionFields) (children : Actions) (h : Host World)
      (plan : ActionPlan)
      → services.has_startblock ≡ true
      → (scope_for a.kind (services.fleet h.world) a.target scope).is_explicit_empty ≡ false
      → is_delay a.kind ≡ false
      → plan_action_dispatch (services.planner_inputs h.world) none (action a children) ≡ ok plan
      → plan.degraded ≡ false
      → ended_by_exception (dispatch services scope index (action a children) h).0.error ≡ false
      → (cost : ActionCost) × (estimate_action (services.planner_inputs h.world) (action a children)
          ≡ ok cost)
        × (calls (dispatch services scope index (action a children) h).1 ≡ calls h + cost.packets)
  unfolding dispatch
  dispatch-estimate scope index a children h plan ws ad nd p d e =
      let estimated =
        estimate_action-CostOf (services.planner_inputs h.world) a children plan nd p in
      (
        estimated.0,
        estimated.1,
        dispatch_kind-calls a.kind scope index a children h plan ws ad refl nd p d e
            ∙ ap (λ n. calls h + n) (sym (estimated.2.0)),
      )

  -- Nothing was sent, and the row is degraded and not ok.
  abbrev Silent : Host World → ActionResult × Host World → Type 0
  Silent h done = (done.1.log ≡ h.log) × (done.0.degraded ≡ true) × (done.0.is_ok ≡ false)

  flag_silences :
      (b : Bool) (index : ℕ) (kind : ActionKind) (plan : ActionPlan) (h : Host World)
      (other : ActionResult × Host World)
      → b ≡ true
      → Silent h (if b then (degraded_result index kind plan, h) else other)
  flag_silences true index kind plan h other e = (refl, refl, refl)
  flag_silences false index kind plan h other e = absurd (cc e)

  planned_silence :
      (scope : RunScope) (index : ℕ) (kind : ActionKind) (r : Result ActionPlan) (plan : ActionPlan)
      (h : Host World)
      → r ≡ ok plan
      → plan.degraded ≡ true
      → Silent h (execute_planned services scope index kind r h)
  unfolding execute_plan
  planned_silence scope index kind (err x) plan h r d = absurd (cc r)
  planned_silence scope index kind (ok p) plan h r d =
      let same : p ≡ plan = cc in
      flag_silences p.degraded index kind p h _ (ap ActionPlan.degraded same ∙ d)

  container_silence :
      (k : ActionKind) (scope : RunScope) (index : ℕ) (a : ActionFields) (children : Actions)
      (h : Host World) (plan : ActionPlan)
      → k ≡ offset_group
      → plan_now services (action a children) h ≡ ok plan
      → plan.degraded ≡ true
      → Silent h (dispatch_kind services k scope index a children h)
  container_silence k scope index a children h plan e p d = rw e (
      planned_silence (narrowed (services.fleet h.world) a.target scope) index offset_group
        (plan_now services (action a children) h) plan h p d)

  container_plan :
      (k : ActionKind) (inputs : PlannerInputs) (a : ActionFields) (children : Actions)
      (o : OptimizerPlan) (plans : List ActionPlan)
      → k ≡ offset_group
      → plan_offset_setup
          (container_target (container_or_all a))
          (offset_of a)
          inputs.known_group_ids
        ≡ ok o
      → plan_by_kind k inputs none a children (ok plans)
        ≡ ok (group_plan a (targets_of children) o plans)
  container_plan k inputs a children o plans e setup = rw (e, setup) refl

  -- An offset_group with a child whose plan is degraded sends nothing at all: its row is degraded and
  -- not ok, and neither its offsets nor any other child is called for.
  pub degraded_child :
      (scope : RunScope) (index : ℕ) (a : ActionFields) (children : Actions) (h : Host World)
      (o : OptimizerPlan) (plans : List ActionPlan)
      → a.kind ≡ offset_group
      → plan_offset_setup
          (container_target (container_or_all a))
          (offset_of a)
          (services.planner_inputs h.world).known_group_ids
        ≡ ok o
      → plan_children (services.planner_inputs h.world) (force_offset_flag a) children ≡ ok plans
      → any_of ActionPlan.degraded plans ≡ true
      → let done = dispatch services scope index (action a children) h in
        (done.1.log ≡ h.log) × (done.0.degraded ≡ true) × (done.0.is_ok ≡ false)
  unfolding dispatch plan_action_dispatch group_plan
  degraded_child scope index a children h o plans k setup cs d =
      let inputs = services.planner_inputs h.world in
      container_silence a.kind scope index a children h (group_plan a (targets_of children) o plans)
        k
        (ap (plan_by_kind a.kind inputs none a children) cs
          ∙ container_plan a.kind inputs a children o plans k setup)
        d
