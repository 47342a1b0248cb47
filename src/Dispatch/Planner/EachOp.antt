-- ===== src/Dispatch/Planner/EachOp.antt =====
-- A property of every operation that an action is planned to, from those of its parts.
use race_link_host.Prelude.{
  ℕ, suc, ◌⊎◌, inl, inr, Bool, Option, none, some, List, [], ◌∷◌, map, All, Result, map_ok, WhenOk,
  WhenOk-bind, WhenOk-map_ok, All-append, All-map,
}
use race_link_host.Dispatch.Op.{
  UserFlags, Params, TargetKwargs, PresetDetail, ActionKind, delay, sync, offset_group, rl_preset,
  wled_preset, rl_effect, startblock, other_kind, WireOp,
}
use race_link_host.Dispatch.Optimizer.{OptimizerPlan, plan_offset_setup}
use race_link_host.Dispatch.Optimizer.Made.{AllMade, Made, plan_offset_setup-Made}
use race_link_host.Dispatch.Action.{
  Target, container_target, ActionFields, Action, action, Actions, no_actions, next_action,
  PlannerInputs,
}
use race_link_host.Dispatch.Planner.{
  ActionPlan, PlanError, Materialised, plan_sync, plan_effect, effect_for, effect_plan, effect_ops,
  build_effect_op, merge_flags, forced, resolve_target, materialize,
}
use race_link_host.Dispatch.Planner.Container.{
  tag_offset, tag_child, child_ops, container_or_all, offset_of, force_offset_flag, targets_of,
  group_plan, plan_phases, plan_by_kind, plan_action_dispatch, plan_children,
}

module _ (Q : WireOp → Type 0) where
  abbrev pub Planned : ActionPlan → Type 0
  Planned p = All Q p.ops

  abbrev AllQ : List WireOp → Type 0
  AllQ ops = All Q ops

  abbrev pub AllPlanned : List ActionPlan → Type 0
  AllPlanned ps = All Planned ps

  module _
      (built : (kind : ActionKind) (params : Params) (preset : Option PresetDetail)
          (kwargs : TargetKwargs)
        → WhenOk Q (build_effect_op kind params preset kwargs)) where
    effect_plan-All :
        (kind : ActionKind) (force : Option Bool) (override : UserFlags)
        (targets : List TargetKwargs) (m : Materialised ⊎ PlanError)
        → WhenOk Planned (effect_plan kind force override targets m)
    unfolding effect_ops
    effect_plan-All kind force override targets (inr e) = tt
    effect_plan-All kind force override targets (inl m) =
        let params = merge_flags m.params m.persisted (forced force override) in
        let make : TargetKwargs → Result WireOp = build_effect_op kind params m.preset in
        WhenOk-bind AllQ Planned (map_ok make targets) _
          (WhenOk-map_ok Q make (built kind params m.preset) targets) (λ ops h. h)

    effect_for-All :
        (inputs : PlannerInputs) (force : Option Bool) (a : ActionFields)
        (targets : Option (List TargetKwargs))
        → WhenOk Planned (effect_for inputs force a targets)
    effect_for-All inputs force a none = tt
    effect_for-All inputs force a (some targets) =
        effect_plan-All a.kind force a.flags_override targets
          (materialize inputs.rl_preset_lookup a.kind a.params)

    pub plan_effect-All :
        (inputs : PlannerInputs) (force : Option Bool) (a : ActionFields)
        → WhenOk Planned (plan_effect inputs force a)
    unfolding plan_effect
    plan_effect-All inputs force a =
        effect_for-All inputs force a (resolve_target inputs.device_lookup a.target)

  module _
      (tagged : (idx : ℕ) (kind : ActionKind) (op : WireOp)
        → Q op
        → Q (tag_child idx kind op)) where
    child_ops-All : (idx : ℕ) (ps : List ActionPlan) → AllPlanned ps → All Q (child_ops idx ps)
    unfolding child_ops
    child_ops-All idx [] h = tt
    child_ops-All idx (p ∷ ps) h =
        All-append Q (map (tag_child idx p.kind) p.ops) (child_ops (suc idx) ps)
          (All-map Q Q (tag_child idx p.kind) (tagged idx p.kind) p.ops h.0)
          (child_ops-All (suc idx) ps h.1)

    module _ (made : (op : WireOp) → Made op → Q (tag_offset op)) where
      group_plan-All :
          (a : ActionFields) (targets : List (Option Target)) (o : OptimizerPlan)
          (ps : List ActionPlan)
          → AllMade o
          → AllPlanned ps
          → Planned (group_plan a targets o ps)
      unfolding group_plan
      group_plan-All a targets o ps ho hs =
          All-append Q (map tag_offset o.ops) (child_ops 0 ps)
            (All-map Made Q tag_offset made o.ops ho) (child_ops-All 0 ps hs)

      pub plan_phases-All :
          (inputs : PlannerInputs) (a : ActionFields) (targets : List (Option Target))
          (plans : Result (List ActionPlan))
          → WhenOk AllPlanned plans
          → WhenOk Planned (plan_phases inputs a targets plans)
      plan_phases-All inputs a targets plans h =
          let setup =
            plan_offset_setup (container_target (container_or_all a)) (offset_of a)
              inputs.known_group_ids in
          WhenOk-bind AllMade Planned setup _
            (plan_offset_setup-Made (container_target (container_or_all a)) (offset_of a)
              inputs.known_group_ids)
            (λ o ho.
              WhenOk-bind AllPlanned Planned plans _ h
                (λ ps hs. group_plan-All a targets o ps ho hs))

      module _ (synced : Planned plan_sync)
          (effect : (inputs : PlannerInputs) (force : Option Bool) (a : ActionFields)
            → WhenOk Planned (plan_effect inputs force a)) where
        plan_by_kind-All :
            (k : ActionKind) (inputs : PlannerInputs) (force : Option Bool) (a : ActionFields)
            (children : Actions) (plans : Result (List ActionPlan))
            → WhenOk AllPlanned plans
            → WhenOk Planned (plan_by_kind k inputs force a children plans)
        plan_by_kind-All delay inputs force a children plans h = tt
        plan_by_kind-All sync inputs force a children plans h = synced
        plan_by_kind-All offset_group inputs force a children plans h =
            plan_phases-All inputs a (targets_of children) plans h
        plan_by_kind-All rl_preset inputs force a children plans h = effect inputs force a
        plan_by_kind-All wled_preset inputs force a children plans h = effect inputs force a
        plan_by_kind-All rl_effect inputs force a children plans h = effect inputs force a
        plan_by_kind-All startblock inputs force a children plans h = effect inputs force a
        plan_by_kind-All (other_kind name) inputs force a children plans h = tt

        mutual
          unfolding plan_action_dispatch plan_children

          pub plan_action_dispatch-All :
              (inputs : PlannerInputs) (force : Option Bool) (a : Action)
              → WhenOk Planned (plan_action_dispatch inputs force a)
          plan_action_dispatch-All inputs force (action a children) =
              plan_by_kind-All a.kind inputs force a children
                (plan_children inputs (force_offset_flag a) children)
                (plan_children-All inputs (force_offset_flag a) children)

          pub plan_children-All :
              (inputs : PlannerInputs) (force : Bool) (children : Actions)
              → WhenOk AllPlanned (plan_children inputs force children)
          plan_children-All inputs force no_actions = tt
          plan_children-All inputs force (next_action a rest) =
              WhenOk-bind Planned AllPlanned (plan_action_dispatch inputs (some force) a) _
                (plan_action_dispatch-All inputs (some force) a)
                (λ p hp.
                  WhenOk-bind AllPlanned AllPlanned (plan_children inputs force rest) _
                    (plan_children-All inputs force rest) (λ ps hps. (hp, hps)))
