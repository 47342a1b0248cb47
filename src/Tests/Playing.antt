-- ===== src/Tests/Playing.antt =====
-- A scene with a container of two effects, an effect of an unknown device, and a sync.
use race_link_host.Prelude.{
  ◌↔◌, ◌≢◌, Within, ℕ, suc, ◌+◌, ◌≡◌, refl, true, false, Option, none, some, List, [], ◌∷◌, String,
  if◌then◌else◌, All, ℤ, pos, ◌+ℤ◌, ◌*ℤ◌, eqb_ℤ, Result, ok, err, map_ok,
}
use race_link_host.Struct.{pack}
use race_link_host.Protocol.Packets.{build_sync_body}
use race_link_host.Protocol.ControlBody.{build_control_body, main_fields, ext_fields}
use race_link_host.Protocol.OffsetBody.{build_offset_body, offset_body, coerce_mode, mode_of_name}
use race_link_host.Formula.{OffsetSpec, spec_mode, evaluate_offset_ms, evaluate_mode}
use race_link_host.Dispatch.Op.{
  ControlFields, no_flags, Params, Device, ActionKind, sync, offset_group, rl_preset, rl_effect,
  other_kind,
}
use race_link_host.Dispatch.Optimizer.{
  OptimizerPlan, broadcast_formula, plan_offset_setup, plan_for, strategy_a, strategy_b, strategy_c,
  clear_groups, cheaper, first_cheapest, make_offset_op,
}
use race_link_host.Dispatch.Action.{
  Target, to_all, to_groups, to_addr, container_target, ActionFields, Action, action, Actions,
  no_actions, next_action, Preset, PlannerInputs,
}
use race_link_host.Dispatch.Planner.{
  ActionPlan, plan_sync, plan_effect, resolve_target, merge_flags, materialize_ref,
  materialize_rl_preset, materialize, masked_fields, control_body_len, build_effect_op, effect_ops,
}
use race_link_host.Dispatch.Planner.Container.{
  child_ops, group_plan, plan_action_dispatch, plan_children, container_or_all, offset_of,
}
use race_link_host.Dispatch.Planner.Sizes.{Sized, planned_sizes}
use race_link_host.Dispatch.Planner.Effects.{EffectOutcome, plan_effect_total}
use race_link_host.Dispatch.Cost.{
  lora_airtime_us, ActionCost, no_cost, add_packet, estimate_action, SceneCost, estimate_from,
  estimate_scene,
}
use race_link_host.Dispatch.Cost.Totals.{AddsUp, estimate_scene-AddsUp}
use race_link_host.Scene.Scope.{Fleet, explicit_scope, Scene}
use race_link_host.Broadcast.Targets.{AreDistinct}
use race_link_host.Scene.Scope.{
  all_known_network_ids, network_id_from_group, network_ids_for_target, scene_network_ids,
}
use race_link_host.Scene.Scope.Reach.{Reached, scene_network_ids-Reached}
use race_link_host.Scene.Consistency.{
  check_target, check_action, check_children, check_actions, validate_explicit,
  validate_scene_scope_consistency,
}
use race_link_host.Scene.Consistency.Inside.{ActionInside, accepted_in_scope}
use race_link_host.Scene.Runner.{
  Services, Host, RunScope, returned, sent_result, dispatch_op, send_ops, execute_plan, dispatch,
}
use race_link_host.Scene.Run.{run}
use race_link_host.Scene.Run.Rows.{Continues, run-Continues}
use race_link_host.Scene.Run.Parity.{calls, dispatch-estimate, degraded_child}

abbrev no_fields : ControlFields
no_fields = record {
  brightness = none;
  mode = none;
  speed = none;
  intensity = none;
  custom1 = none;
  custom2 = none;
  custom3 = none;
  check1 = none;
  check2 = none;
  check3 = none;
  palette = none;
  color1 = none;
  color2 = none;
  color3 = none;
}

abbrev bright : Params
bright = record {
  fields = record no_fields {
    brightness = some (pos 128);
    mode = some (pos 300);
    color1 = some (pos 255, pos 0, pos 7);
  };
  preset_id = none;
  flags = no_flags;
}

-- A stored preset that asks for offset mode and for arming.
abbrev stored : Preset
stored = record {
  key = "fade";
  id = pos 4;
  params = bright;
  flags = record no_flags { arm_on_sync = some true; offset_mode = some true };
}

abbrev pub ramp : OffsetSpec
ramp = record {
  mode = some "linear";
  offset_ms = none;
  base_ms = some (pos 100);
  step_ms = some (pos 50);
  center = none;
  cycle = none;
  values = [];
}

abbrev pub fields_of : ActionKind → Option Target → ActionFields
fields_of kind target = record {
  kind = kind;
  target = target;
  params = bright;
  flags_override = no_flags;
  duration_ms = 0;
  offset = none;
}

abbrev effect_fields : ActionFields
effect_fields = fields_of rl_effect (some (to_groups (pos 1 ∷ pos 2 ∷ [])))

abbrev preset_fields : ActionFields
preset_fields = record (fields_of rl_preset (some to_all)) {
  params = record { fields = no_fields; preset_id = some (pos 4); flags = no_flags };
}

abbrev lost_fields : ActionFields
lost_fields = fields_of rl_effect (some (to_addr "AABBCC"))

abbrev group_fields : ActionFields
group_fields = record (fields_of offset_group (some (to_groups (pos 1 ∷ pos 2 ∷ [])))) {
  offset = some ramp;
}

abbrev plain : ActionFields → Action
plain a = action a no_actions

abbrev group_children : Actions
group_children = next_action (plain effect_fields) (next_action (plain preset_fields) no_actions)

abbrev group_action : Action
group_action = action group_fields group_children

abbrev find_preset : ℤ → Option Preset
find_preset id = if eqb_ℤ id (pos 4) then some stored else none

abbrev no_device : String → Option Device
no_device addr = none

abbrev inputs : PlannerInputs
inputs = record {
  known_group_ids = pos 1 ∷ pos 2 ∷ pos 3 ∷ [];
  rl_preset_lookup = some find_preset;
  device_lookup = some no_device;
}

abbrev value_of : {A : Type 0} → A → Result A → A
value_of d (ok a) = a
value_of d (err e) = d

abbrev the_plan : ActionPlan
the_plan = value_of plan_sync (plan_action_dispatch inputs none group_action)

the_plan-ok : plan_action_dispatch inputs none group_action ≡ ok the_plan
unfolding plan_action_dispatch plan_effect resolve_target effect_ops build_effect_op
    control_body_len build_control_body main_fields ext_fields materialize materialize_rl_preset
    materialize_ref group_plan child_ops plan_offset_setup plan_for strategy_a strategy_b strategy_c
    clear_groups spec_mode mode_of_name first_cheapest cheaper make_offset_op build_offset_body
    coerce_mode offset_body evaluate_offset_ms evaluate_mode pack masked_fields ◌+ℤ◌ ◌*ℤ◌
    merge_flags
the_plan-ok = refl

planned_sizes_example : All (Sized (pos 5)) the_plan.ops
planned_sizes_example = planned_sizes (pos 5) inputs none group_action the_plan the_plan-ok

plan_effect_total_example :
    (plan : ActionPlan) × (plan_effect inputs (some false) preset_fields ≡ ok plan)
    × EffectOutcome inputs (some false) preset_fields plan
plan_effect_total_example = plan_effect_total inputs (some false) preset_fields

abbrev sync_action : Action
sync_action = plain (fields_of sync none)

abbrev the_cost : SceneCost
the_cost =
    value_of (record { total = no_cost; per_action = [] })
      (estimate_scene inputs (group_action ∷ sync_action ∷ []))

the_cost-ok : estimate_scene inputs (group_action ∷ sync_action ∷ []) ≡ ok the_cost
unfolding estimate_from estimate_action add_packet lora_airtime_us plan_sync build_sync_body
    plan_action_dispatch plan_effect resolve_target effect_ops build_effect_op control_body_len
    build_control_body main_fields ext_fields materialize materialize_rl_preset materialize_ref
    group_plan child_ops plan_offset_setup plan_for strategy_a strategy_b strategy_c clear_groups
    spec_mode mode_of_name first_cheapest cheaper make_offset_op build_offset_body coerce_mode
    offset_body evaluate_offset_ms evaluate_mode pack masked_fields ◌+ℤ◌ ◌*ℤ◌ merge_flags
the_cost-ok = refl

estimate_scene-AddsUp_example :
    (map_ok (estimate_action inputs) (group_action ∷ sync_action ∷ []) ≡ ok the_cost.per_action)
    × AddsUp no_cost the_cost.per_action the_cost.total
estimate_scene-AddsUp_example =
    estimate_scene-AddsUp inputs (group_action ∷ sync_action ∷ []) the_cost the_cost-ok

abbrev fleet : Fleet
fleet = record {
  network_repository = some ("north" ∷ "south" ∷ []);
  groups =
      record { name = "Unconfigured"; network_id = none }
      ∷ record { name = "A"; network_id = some "north" }
      ∷ record { name = "B"; network_id = some "north" }
      ∷ [];
  device_of = λ addr. none;
}

-- Services that send everything; the world counts the calls.
abbrev services : Services ℕ
services = record {
  perform = λ call w. (returned true, suc w);
  sleep = λ ms w. w;
  clock_ms = λ w. w;
  planner_inputs = λ w. inputs;
  fleet = λ w. fleet;
  has_startblock = true;
}

abbrev start : Host ℕ
start = record { world = 0; log = [] }

abbrev scene : Scene
scene = record {
  network_scope = explicit_scope ("north" ∷ "gone" ∷ []);
  stop_on_error = true;
  actions =
      group_action ∷ plain lost_fields ∷ plain (fields_of (other_kind "x") none) ∷ sync_action ∷ [];
}

run-Continues_example :
    let result = (run services (some scene) start).0 in
    Continues true 0 scene.actions result.actions result.aborted_at_index
run-Continues_example = run-Continues services scene start

abbrev north : RunScope
north = record {
  broadcast_scope = some (record { network_ids = "north" ∷ [] });
  is_explicit_empty = false;
}

abbrev effect_plan_value : ActionPlan
effect_plan_value = value_of plan_sync (plan_action_dispatch inputs none (plain effect_fields))

effect_plan-ok : plan_action_dispatch inputs none (plain effect_fields) ≡ ok effect_plan_value
unfolding plan_action_dispatch plan_effect resolve_target effect_ops build_effect_op
    control_body_len build_control_body main_fields ext_fields materialize merge_flags masked_fields
effect_plan-ok = refl

dispatch-estimate_example :
    (cost : ActionCost) × (estimate_action inputs (plain effect_fields) ≡ ok cost)
    × (calls services (dispatch services north 0 (plain effect_fields) start).1
        ≡ calls services start + cost.packets)
unfolding dispatch execute_plan send_ops dispatch_op sent_result plan_action_dispatch plan_effect
    resolve_target effect_ops build_effect_op control_body_len build_control_body main_fields
    ext_fields materialize merge_flags masked_fields
dispatch-estimate_example =
    dispatch-estimate services north 0 effect_fields no_actions start effect_plan_value refl refl
      refl effect_plan-ok refl refl

abbrev mixed_children : Actions
mixed_children = next_action (plain effect_fields) (next_action (plain lost_fields) no_actions)

abbrev mixed_plans : List ActionPlan
mixed_plans = value_of [] (plan_children inputs true mixed_children)

abbrev the_setup : OptimizerPlan
the_setup =
    value_of (record { strategy = broadcast_formula; ops = [] })
      (plan_offset_setup (container_target (container_or_all group_fields)) (offset_of group_fields)
        inputs.known_group_ids)

degraded_child_example :
    let done = dispatch services north 0 (action group_fields mixed_children) start in
    (done.1.log ≡ []) × (done.0.degraded ≡ true) × (done.0.is_ok ≡ false)
unfolding plan_offset_setup plan_for strategy_a strategy_b strategy_c clear_groups spec_mode
    mode_of_name first_cheapest cheaper make_offset_op build_offset_body coerce_mode offset_body
    evaluate_offset_ms evaluate_mode pack ◌+ℤ◌ ◌*ℤ◌ plan_children plan_action_dispatch plan_effect
    resolve_target effect_ops build_effect_op control_body_len build_control_body main_fields
    ext_fields materialize merge_flags masked_fields
degraded_child_example =
    degraded_child services north 0 group_fields mixed_children start the_setup mixed_plans refl
      refl refl refl

abbrev pinned : Scene
pinned = record scene {
  network_scope = explicit_scope ("south" ∷ "north" ∷ []);
  actions = group_action ∷ sync_action ∷ [];
}

accepted : validate_scene_scope_consistency fleet pinned ≡ none
unfolding validate_scene_scope_consistency validate_explicit check_actions check_action
    check_children check_target network_ids_for_target all_known_network_ids network_id_from_group
accepted = refl

accepted_in_scope_example : All (ActionInside fleet (scene_network_ids fleet pinned)) pinned.actions
accepted_in_scope_example = accepted_in_scope fleet pinned ("south" ∷ "north" ∷ []) refl accepted

scene_network_ids-Reached_example :
    AreDistinct (scene_network_ids fleet scene)
    × ((x : String)
        → Within x (scene_network_ids fleet scene)
          ↔ ((x ≢ "") × Reached fleet scene.network_scope scene.actions x))
scene_network_ids-Reached_example = scene_network_ids-Reached fleet scene
