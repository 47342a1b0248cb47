-- ===== src/Dispatch/Planner.antt =====
-- racelink/services/dispatch_planner.py: every packet that an action would emit.
pub mod Container
pub mod EachOp
pub mod Sizes
pub mod Effects
pub mod Coherent
pub mod OffsetFlag
use race_link_host.Prelude.{
  ℕ, zero, suc, ◌+◌, ◌-◌, ◌*◌, ◌/◌, ◌%◌, ◌≤◌, ◌<◌, ◌≡◌, refl, sym, ap, ◌∙◌, ◌≢◌, ◌↔◌, ◌⊎◌, inl, inr,
  Bool, true, false, not, ◌&&◌, ◌||◌, Option, none, some, List, [], ◌∷◌, ◌++◌, map, arith, str_eq,
  eq_iff, String, ltb, leb, ◌==◌, ==_iff, lt→leb_false, if◌then◌else◌, Bool-cases, Option-cases,
  get_or, is_some, length, take, drop, keep_if, any_of, all_of, length-append, length-map,
  length-keep_if, All, Within, Within-left, Within-right, Within-append, append-eq-nil, sum,
  sum-append, ℤ, pos, negsuc, pos_part, neg_part, sub_ℕ, ◌+ℤ◌, ◌*ℤ◌, ◌≤ℤ◌, leb_ℤ, eqb_ℤ, distance,
  mask, clamp, clamp_bounds, clamp_id, mask-byte-lt, Error, value_error, key_error, struct_error,
  index_error, assertion_error, Result, ok, err, ◌>>=◌, ◌>>◌, require, or_raise, map_ok,
  map_ok-eq-map, lower_eq, &&-parts, ||-parts, not-parts, append_nil, append_assoc, take_whole,
}
use race_link_host.Struct.{Bytes}
use race_link_host.Protocol.Packets.{
  byte, build_preset_body, build_sync_body, sync_flag_trigger_armed,
}
use race_link_host.Protocol.ControlBody.{build_control_body}
use race_link_host.Protocol.OffsetBody.{OffsetMode, mode_none}
use race_link_host.Formula.{OffsetSpec, spec_mode}
use race_link_host.Dispatch.Op.{
  Opcode, opc_offset, opc_control, opc_preset, opc_sync, Sender, send_offset, send_sync,
  send_control, send_wled_preset, send_startblock, ControlFields, UserFlags, no_flags, Params,
  Device, TargetKwargs, to_group, to_device, Payload, offset_kwargs, sync_kwargs, effect_kwargs,
  ActionKind, delay, sync, offset_group, rl_preset, wled_preset, rl_effect, startblock, other_kind,
  Phase, offset_phase, child_phase, PresetDetail, resolved, unresolved, OpDetail, no_detail, WireOp,
  total_bytes,
}
use race_link_host.Dispatch.Optimizer.{
  Strategy, OptimizerPlan, packet_count, plan_offset_setup, is_none_mode,
}
use race_link_host.Dispatch.Action.{
  Target, to_all, to_groups, to_addr, other_kind_target, container_target, ActionFields, Action,
  action, Actions, no_actions, next_action, Preset, PlannerInputs,
}

pub data PlanError : Type 0 where
  unknown_kind target_not_found missing_preset_id : PlanError
  preset_not_found : ℤ → PlanError

-- What is read of the plan of a child action.
pub record ChildPlan : Type 0 where
  pub kind : ActionKind
  pub degraded : Bool
  pub error : Option PlanError
  pub target : Option Target

pub record OffsetDetail : Type 0 where
  pub wire_path : Strategy
  pub offset_mode : Option OffsetMode
  pub offset_packets : ℕ
  pub offset_total_bytes : ℕ
  pub child_count : ℕ
  pub child_plans : List ChildPlan

pub data PlanDetail : Type 0 where
  empty_detail : PlanDetail
  delay_detail : ℕ → PlanDetail
  target_detail : Option Target → PlanDetail
  preset_plan_detail : Option PresetDetail → PlanDetail
  group_detail : OffsetDetail → PlanDetail

pub record ActionPlan : Type 0 where
  pub kind : ActionKind
  pub ops : List WireOp
  pub degraded : Bool
  pub error : Option PlanError
  pub detail : PlanDetail

abbrev pub degraded_plan : ActionKind → PlanError → PlanDetail → ActionPlan
degraded_plan kind error detail = record {
  kind = kind;
  ops = [];
  degraded = true;
  error = some error;
  detail = detail;
}

abbrev pub plan_of : ActionKind → List WireOp → PlanDetail → ActionPlan
plan_of kind ops detail = record {
  kind = kind;
  ops = ops;
  degraded = false;
  error = none;
  detail = detail;
}

unfoldable pub plan_sync : ActionPlan
plan_sync =
    plan_of sync
      (record {
        opcode = opc_sync;
        target_group = pos 255;
        payload = sync_kwargs (pos 0) true;
        body_bytes = length (build_sync_body (pos 0) (pos 0) sync_flag_trigger_armed);
        sender = some send_sync;
        detail = no_detail;
      }
        ∷ [])
      empty_detail

-- `_resolve_target`; `none` is a target that cannot be resolved.
abbrev pub found_device : Option Device → Option (List TargetKwargs)
found_device none = none
found_device (some device) = some (to_device device ∷ [])

unfoldable pub resolve_target :
    Option (String → Option Device) → Option Target → Option (List TargetKwargs)
resolve_target lookup none = none
resolve_target lookup (some to_all) = some (to_group (pos 255) ∷ [])
resolve_target lookup (some (to_groups [])) = none
resolve_target lookup (some (to_groups (g ∷ gs))) = some (map to_group (g ∷ gs))
resolve_target none (some (to_addr addr)) = none
resolve_target (some lookup) (some (to_addr addr)) = found_device (lookup addr)
resolve_target lookup (some other_kind_target) = none

-- `override[key] if key in override else persisted.get(key, False)`, written only where it is true.
abbrev pub merged_flag : Option Bool → Option Bool → Option Bool
merged_flag (some true) persisted = some true
merged_flag (some false) persisted = none
merged_flag none (some true) = some true
merged_flag none _ = none

unfoldable pub merge_flags : Params → UserFlags → UserFlags → Params
merge_flags base persisted override = record base {
  flags = record {
    arm_on_sync = merged_flag override.arm_on_sync persisted.arm_on_sync;
    force_tt0 = merged_flag override.force_tt0 persisted.force_tt0;
    force_reapply = merged_flag override.force_reapply persisted.force_reapply;
    offset_mode = merged_flag override.offset_mode persisted.offset_mode;
  };
}

pub record Materialised : Type 0 where
  pub params : Params
  pub persisted : UserFlags
  pub preset : Option PresetDetail

abbrev pub with_brightness : Option ℤ → Params → Params
with_brightness none p = p
with_brightness (some b) p = record p { fields = record p.fields { brightness = some b } }

-- The preset that was looked up, with the action's brightness.
abbrev pub merge_preset : Params → Option Preset → Option Materialised
merge_preset base none = none
merge_preset base (some preset) = some (record {
  params = with_brightness base.fields.brightness preset.params;
  persisted = preset.flags;
  preset = some (resolved preset.key preset.id);
})

-- `_materialize_rl_preset`, once the reference is known to be there.
unfoldable pub materialize_ref : Option (ℤ → Option Preset) → Params → ℤ → Option Materialised
materialize_ref none base ref = some (record {
  params = record base { preset_id = none };
  persisted = no_flags;
  preset = some (unresolved ref);
})
materialize_ref (some lookup) base ref = merge_preset base (lookup ref)

-- The params, flags and detail of an action, or the error of the degraded plan.
abbrev pub or_not_found : ℤ → Option Materialised → Materialised ⊎ PlanError
or_not_found ref none = inr (preset_not_found ref)
or_not_found ref (some m) = inl m

unfoldable pub materialize_rl_preset :
    Option (ℤ → Option Preset) → Params → Option ℤ → Materialised ⊎ PlanError
materialize_rl_preset lookup base none = inr missing_preset_id
materialize_rl_preset lookup base (some ref) = or_not_found ref (materialize_ref lookup base ref)

unfoldable pub materialize :
    Option (ℤ → Option Preset) → ActionKind → Params → Materialised ⊎ PlanError
materialize lookup rl_preset base = materialize_rl_preset lookup base base.preset_id
materialize lookup _ base = inl (record { params = base; persisted = no_flags; preset = none })

-- `int(v) & 0xFF`, where the key is given.
abbrev pub masked_value : Option ℤ → Option ℤ
masked_value none = none
masked_value (some v) = some (byte v)

abbrev pub masked_color : Option (ℤ × ℤ × ℤ) → Option (ℤ × ℤ × ℤ)
masked_color none = none
masked_color (some (r, g, b)) = some (byte r, byte g, byte b)

-- The keyword arguments of `_control_body_len`.
unfoldable pub masked_fields : ControlFields → ControlFields
masked_fields f = record {
  brightness = masked_value f.brightness;
  mode = masked_value f.mode;
  speed = masked_value f.speed;
  intensity = masked_value f.intensity;
  custom1 = masked_value f.custom1;
  custom2 = masked_value f.custom2;
  custom3 = masked_value f.custom3;
  check1 = f.check1;
  check2 = f.check2;
  check3 = f.check3;
  palette = masked_value f.palette;
  color1 = masked_color f.color1;
  color2 = masked_color f.color2;
  color3 = masked_color f.color3;
}

unfoldable pub control_body_len : ControlFields → Result ℕ
control_body_len f = do
  body ← build_control_body (pos 0) (pos 0) (masked_fields f)
  ok (length body)

-- `gid if 0 <= gid <= 254`
abbrev pub device_group : Option ℤ → ℤ
device_group none = pos 255
device_group (some gid) = if leb_ℤ (pos 0) gid && leb_ℤ gid (pos 254) then gid else pos 255

abbrev pub target_group_for_op : TargetKwargs → ℤ
target_group_for_op (to_group g) = g
target_group_for_op (to_device d) = device_group d.group_id

abbrev pub effect_detail : Option PresetDetail → Bool → OpDetail
effect_detail preset approximate = record {
  phase = none;
  preset = preset;
  approximate = approximate;
}

abbrev pub control_op : Sender → Bool → Params → Option PresetDetail → TargetKwargs → Result WireOp
control_op sender approximate params preset kwargs = do
  n ← control_body_len params.fields
  ok (record {
    opcode = opc_control;
    target_group = target_group_for_op kwargs;
    payload = effect_kwargs params kwargs;
    body_bytes = n;
    sender = some sender;
    detail = effect_detail preset approximate;
  })

unfoldable pub build_effect_op :
    ActionKind → Params → Option PresetDetail → TargetKwargs → Result WireOp
build_effect_op wled_preset params preset kwargs = do
  body ← build_preset_body (pos 0) (pos 0) (pos 0) (pos 0)
  ok (record {
    opcode = opc_preset;
    target_group = target_group_for_op kwargs;
    payload = effect_kwargs params kwargs;
    body_bytes = length body;
    sender = some send_wled_preset;
    detail = effect_detail preset false;
  })
build_effect_op startblock params preset kwargs =
    control_op send_startblock true params preset kwargs
build_effect_op _ params preset kwargs = control_op send_control false params preset kwargs

abbrev pub forced : Option Bool → UserFlags → UserFlags
forced none override = override
forced (some b) override = record override { offset_mode = some b }

-- One operation for each resolved target.
unfoldable pub effect_ops :
    ActionKind → Option Bool → UserFlags → Materialised → List TargetKwargs → Result (List WireOp)
effect_ops kind force override m targets =
    map_ok
      (build_effect_op kind (merge_flags m.params m.persisted (forced force override)) m.preset)
      targets

abbrev pub effect_plan :
    ActionKind
    → Option Bool
    → UserFlags
    → List TargetKwargs
    → Materialised ⊎ PlanError
    → Result ActionPlan
effect_plan kind force override targets (inr error) = ok (degraded_plan kind error empty_detail)
effect_plan kind force override targets (inl m) = do
  ops ← effect_ops kind force override m targets
  ok (plan_of kind ops (preset_plan_detail m.preset))

abbrev pub effect_for :
    PlannerInputs → Option Bool → ActionFields → Option (List TargetKwargs) → Result ActionPlan
effect_for inputs force a none = ok (degraded_plan a.kind target_not_found (target_detail a.target))
effect_for inputs force a (some targets) =
    effect_plan a.kind force a.flags_override targets
      (materialize inputs.rl_preset_lookup a.kind a.params)

unfoldable pub plan_effect : PlannerInputs → Option Bool → ActionFields → Result ActionPlan
plan_effect inputs force a =
    effect_for inputs force a (resolve_target inputs.device_lookup a.target)
