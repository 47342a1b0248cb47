-- ===== src/Dispatch/Planner/Container.antt =====
-- racelink/services/dispatch_planner.py: the plan of an offset_group, and of any action.
use race_link_host.Prelude.{
  ℕ, suc, Bool, false, not, Option, none, some, List, [], ◌∷◌, ◌++◌, map, get_or, length, any_of,
  Result, ok, ◌>>=◌,
}
use race_link_host.Formula.{OffsetSpec, spec_mode}
use race_link_host.Dispatch.Op.{
  send_offset, ActionKind, delay, sync, offset_group, rl_preset, wled_preset, rl_effect, startblock,
  other_kind, offset_phase, child_phase, WireOp, total_bytes,
}
use race_link_host.Dispatch.Optimizer.{OptimizerPlan, packet_count, plan_offset_setup, is_none_mode}
use race_link_host.Dispatch.Action.{
  Target, to_all, container_target, ActionFields, Action, action, Actions, no_actions, next_action,
  PlannerInputs,
}
use race_link_host.Dispatch.Planner.{
  unknown_kind, ChildPlan, empty_detail, delay_detail, group_detail, ActionPlan, degraded_plan,
  plan_of, plan_sync, plan_effect,
}

-- An operation of phase 1, with the sender that it falls back to.
abbrev pub tag_offset : WireOp → WireOp
tag_offset op = record op {
  sender = some (get_or op.sender send_offset);
  detail = record { phase = some (offset_phase op.payload); preset = none; approximate = false };
}

-- An operation of phase 2.
abbrev pub tag_child : ℕ → ActionKind → WireOp → WireOp
tag_child child_idx kind op = record op {
  detail = record op.detail { phase = some (child_phase child_idx kind) };
}

-- The operations of the children in their order.
unfoldable pub child_ops : ℕ → List ActionPlan → List WireOp
child_ops child_idx [] = []
child_ops child_idx (p ∷ ps) =
    map (tag_child child_idx p.kind) p.ops ++ child_ops (suc child_idx) ps

abbrev pub default_offset : OffsetSpec
default_offset = record {
  mode = none;
  offset_ms = none;
  base_ms = none;
  step_ms = none;
  center = none;
  cycle = none;
  values = [];
}

-- `action.get("target") or {"kind": "broadcast"}` and `action.get("offset") or {"mode": "none"}`
abbrev pub container_or_all : ActionFields → Target
container_or_all a = get_or a.target to_all

abbrev pub offset_of : ActionFields → OffsetSpec
offset_of a = get_or a.offset default_offset

-- `offset_mode != "none"`
abbrev pub force_offset_flag : ActionFields → Bool
force_offset_flag a = not (is_none_mode (spec_mode (offset_of a).mode))

abbrev pub child_plan : Option Target → ActionPlan → ChildPlan
child_plan target p = record {
  kind = p.kind;
  degraded = p.degraded;
  error = p.error;
  target = target;
}

abbrev pub targets_of : Actions → List (Option Target)
targets_of no_actions = []
targets_of (next_action (action a children) rest) = a.target ∷ targets_of rest

abbrev pub child_plans_of : List (Option Target) → List ActionPlan → List ChildPlan
child_plans_of [] _ = []
child_plans_of _ [] = []
child_plans_of (t ∷ ts) (p ∷ ps) = child_plan t p ∷ child_plans_of ts ps

-- `_plan_offset_group` once the optimizer and the children have been planned.
unfoldable pub group_plan :
    ActionFields → List (Option Target) → OptimizerPlan → List ActionPlan → ActionPlan
group_plan a targets optimizer_plan child_plans = record {
  kind = offset_group;
  ops = map tag_offset optimizer_plan.ops ++ child_ops 0 child_plans;
  degraded = any_of ActionPlan.degraded child_plans;
  error = none;
  detail = group_detail (record {
    wire_path = optimizer_plan.strategy;
    offset_mode = spec_mode (offset_of a).mode;
    offset_packets = packet_count optimizer_plan;
    offset_total_bytes = total_bytes optimizer_plan.ops;
    child_count = length child_plans;
    child_plans = child_plans_of targets child_plans;
  });
}

-- The two phases of an `offset_group`.
abbrev pub plan_phases :
    PlannerInputs
    → ActionFields
    → List (Option Target)
    → Result (List ActionPlan)
    → Result ActionPlan
plan_phases inputs a targets child_plans = do
  optimizer_plan ←
      plan_offset_setup (container_target (container_or_all a)) (offset_of a) inputs.known_group_ids
  plans ← child_plans
  ok (group_plan a targets optimizer_plan plans)

abbrev pub plan_by_kind :
    ActionKind
    → PlannerInputs
    → Option Bool
    → ActionFields
    → Actions
    → Result (List ActionPlan)
    → Result ActionPlan
plan_by_kind delay inputs force a children plans =
    ok (plan_of delay [] (delay_detail a.duration_ms))
plan_by_kind sync inputs force a children plans = ok plan_sync
plan_by_kind offset_group inputs force a children plans =
    plan_phases inputs a (targets_of children) plans
plan_by_kind (other_kind name) inputs force a children plans =
    ok (degraded_plan (other_kind name) unknown_kind empty_detail)
plan_by_kind rl_preset inputs force a children plans = plan_effect inputs force a
plan_by_kind wled_preset inputs force a children plans = plan_effect inputs force a
plan_by_kind rl_effect inputs force a children plans = plan_effect inputs force a
plan_by_kind startblock inputs force a children plans = plan_effect inputs force a

unfoldable mutual
  pub plan_action_dispatch : PlannerInputs → Option Bool → Action → Result ActionPlan
  plan_action_dispatch inputs force (action a children) =
      plan_by_kind a.kind inputs force a children
        (plan_children inputs (force_offset_flag a) children)

  -- The children of a container, each with the container's flag.
  pub plan_children : PlannerInputs → Bool → Actions → Result (List ActionPlan)
  plan_children inputs force no_actions = ok []
  plan_children inputs force (next_action a rest) = do
    p ← plan_action_dispatch inputs (some force) a
    ps ← plan_children inputs force rest
    ok (p ∷ ps)
