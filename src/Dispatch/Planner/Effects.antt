-- ===== src/Dispatch/Planner/Effects.antt =====
-- An effect is planned to one operation for each target that its action resolves to.
use race_link_host.Prelude.{
  ℕ, String, ℤ, get_or, if◌then◌else◌, ◌≢◌, ◌≡◌, refl, ◌⊎◌, inl, inr, Bool, true, false, Option,
  none, some, List, [], ◌∷◌, map, length, pos, ok, map_ok,
}
use race_link_host.Protocol.ControlBody.RoundTrip.{read_control-build}
use race_link_host.Protocol.Packets.{masked_bodies}
use race_link_host.Dispatch.Op.{
  ControlFields, UserFlags, Params, TargetKwargs, to_group, to_device, Device, no_flags,
  effect_kwargs, PresetDetail, Sender, send_control, send_startblock, ActionKind, delay, sync,
  offset_group, rl_preset, wled_preset, rl_effect, startblock, other_kind, WireOp,
}
use race_link_host.Dispatch.Action.{
  Target, to_all, to_groups, to_addr, other_kind_target, Preset, ActionFields, PlannerInputs,
}
use race_link_host.Dispatch.Planner.{
  ActionPlan, PlanError, target_not_found, missing_preset_id, preset_not_found, found_device,
  merged_flag, or_not_found, merge_preset, materialize_ref, materialize_rl_preset, plan_effect,
  effect_for, effect_plan, effect_ops, control_op, build_effect_op, control_body_len, masked_fields,
  resolve_target, materialize, merge_flags, forced, Materialised,
}

-- The operation carries these params to this target.
abbrev Carries : Params → TargetKwargs → WireOp → Type 0
Carries params kwargs op = op.payload ≡ effect_kwargs params kwargs

control_body_len-ok : (f : ControlFields) → (n : ℕ) × (control_body_len f ≡ ok n)
unfolding control_body_len
control_body_len-ok f =
    let built = read_control-build (pos 0) (pos 0) (masked_fields f) in
    (length built.0, rw (built.1.0))

control_op-ok :
    (sender : Sender) (approximate : Bool) (params : Params) (preset : Option PresetDetail)
    (kwargs : TargetKwargs)
    → (op : WireOp) × (control_op sender approximate params preset kwargs ≡ ok op)
      × Carries params kwargs op
control_op-ok sender approximate params preset kwargs =
    let len = control_body_len-ok params.fields in rw (len.1) (_, refl, refl)

build_effect_op-ok :
    (kind : ActionKind) (params : Params) (preset : Option PresetDetail) (kwargs : TargetKwargs)
    → (op : WireOp) × (build_effect_op kind params preset kwargs ≡ ok op) × Carries params kwargs op
unfolding build_effect_op
build_effect_op-ok wled_preset params preset kwargs =
    rw ((masked_bodies (pos 0) (pos 0) (pos 0) (pos 0) (pos 0)).2) (_, refl, refl)
build_effect_op-ok startblock params preset kwargs =
    control_op-ok send_startblock true params preset kwargs
build_effect_op-ok delay params preset kwargs =
    control_op-ok send_control false params preset kwargs
build_effect_op-ok sync params preset kwargs = control_op-ok send_control false params preset kwargs
build_effect_op-ok offset_group params preset kwargs =
    control_op-ok send_control false params preset kwargs
build_effect_op-ok rl_preset params preset kwargs =
    control_op-ok send_control false params preset kwargs
build_effect_op-ok rl_effect params preset kwargs =
    control_op-ok send_control false params preset kwargs
build_effect_op-ok (other_kind name) params preset kwargs =
    control_op-ok send_control false params preset kwargs

each_op-ok :
    (kind : ActionKind) (params : Params) (preset : Option PresetDetail)
    (targets : List TargetKwargs)
    → (ops : List WireOp) × (map_ok (build_effect_op kind params preset) targets ≡ ok ops)
      × (map WireOp.payload ops ≡ map (effect_kwargs params) targets)
each_op-ok kind params preset [] = ([], refl, refl)
each_op-ok kind params preset (kwargs ∷ targets) =
    let first = build_effect_op-ok kind params preset kwargs in
    let rest = each_op-ok kind params preset targets in
    (first.0 ∷ rest.0, rw (first.1, rest.1), rw (first.2, rest.2))

-- An empty plan that says why.
abbrev Degraded : ActionPlan → PlanError → Type 0
Degraded plan e = (plan.degraded ≡ true) × (plan.error ≡ some e) × (plan.ops ≡ [])

-- The target names nobody: it is missing or of no known kind, it has no group, or its device is not
-- found.
abbrev pub IsUnresolved : Option (String → Option Device) → Option Target → Type 0
IsUnresolved lookup none = Unit
IsUnresolved lookup (some to_all) = ⊥
IsUnresolved lookup (some (to_groups ids)) = ids ≡ []
IsUnresolved lookup (some (to_addr addr)) =
    (lookup ≡ none) ⊎ ((find : String → Option Device) × (lookup ≡ some find) × (find addr ≡ none))
IsUnresolved lookup (some other_kind_target) = Unit

abbrev pub PerGroup : List ℤ → List TargetKwargs → Type 0
PerGroup [] [] = Unit
PerGroup (g ∷ ids) (kwargs ∷ targets) = (kwargs ≡ to_group g) × PerGroup ids targets
PerGroup _ _ = ⊥

-- The receivers of a target: the broadcast group, each group in its place, or the device.
abbrev pub GoesTo : Option (String → Option Device) → Option Target → List TargetKwargs → Type 0
GoesTo lookup none targets = ⊥
GoesTo lookup (some to_all) targets = targets ≡ to_group (pos 255) ∷ []
GoesTo lookup (some (to_groups ids)) targets = (ids ≢ []) × PerGroup ids targets
GoesTo lookup (some (to_addr addr)) targets =
    (find : String → Option Device) × (device : Device) × (lookup ≡ some find)
    × (find addr ≡ some device)
    × (targets ≡ to_device device ∷ [])
GoesTo lookup (some other_kind_target) targets = ⊥

-- The stored fields, with the action's brightness if it has one.
abbrev PresetFields : Option ℤ → ControlFields → ControlFields → Type 0
PresetFields none stored fields = fields ≡ stored
PresetFields (some b) stored fields = fields ≡ record stored { brightness = some b }

-- Where the fields, the reference and the persisted flags of what is sent come from: from the preset
-- that the action refers to, or from the action.
abbrev pub Source :
    ActionKind → Option (ℤ → Option Preset) → Params → ControlFields → Option ℤ → UserFlags → Type 0
Source rl_preset lookup base fields preset_id persisted =
    (ref : ℤ) × (base.preset_id ≡ some ref)
    × (((lookup ≡ none) × (fields ≡ base.fields) × (preset_id ≡ none) × (persisted ≡ no_flags))
        ⊎ ((find : ℤ → Option Preset) × (preset : Preset) × (lookup ≡ some find)
            × (find ref ≡ some preset)
            × PresetFields base.fields.brightness preset.params.fields fields
            × (preset_id ≡ preset.params.preset_id)
            × (persisted ≡ preset.flags)))
Source _ lookup base fields preset_id persisted =
    (fields ≡ base.fields) × (preset_id ≡ base.preset_id) × (persisted ≡ no_flags)

-- The preset cannot be had, and the error says which.
abbrev pub PresetMissing : ActionKind → Option (ℤ → Option Preset) → Params → PlanError → Type 0
PresetMissing rl_preset lookup base e =
    ((base.preset_id ≡ none) × (e ≡ missing_preset_id))
    ⊎ ((ref : ℤ) × (find : ℤ → Option Preset) × (base.preset_id ≡ some ref)
        × (lookup ≡ some find)
        × (find ref ≡ none)
        × (e ≡ preset_not_found ref))
PresetMissing _ lookup base e = ⊥

-- A flag stands in the params only where it is true.
abbrev written : Bool → Option Bool
written b = if b then some true else none

-- A flag is sent as the override says, else as it is persisted, else not at all.
abbrev FlagOf : Option Bool → Option Bool → Option Bool → Type 0
FlagOf override persisted sent = sent ≡ written (get_or override (get_or persisted false))

-- offset_mode is forced before all else.
abbrev pub FlagsOf : Option Bool → UserFlags → UserFlags → UserFlags → Type 0
FlagsOf force override persisted sent =
    FlagOf override.arm_on_sync persisted.arm_on_sync sent.arm_on_sync
    × FlagOf override.force_tt0 persisted.force_tt0 sent.force_tt0
    × FlagOf override.force_reapply persisted.force_reapply sent.force_reapply
    × (sent.offset_mode
        ≡ written (get_or force (get_or override.offset_mode (get_or persisted.offset_mode false))))

-- What becomes of an effect: see the theorem below.
abbrev pub EffectOutcome : PlannerInputs → Option Bool → ActionFields → ActionPlan → Type 0
EffectOutcome inputs force a plan =
    (IsUnresolved inputs.device_lookup a.target × Degraded plan target_not_found)
    ⊎ ((targets : List TargetKwargs) × GoesTo inputs.device_lookup a.target targets
        × (((e : PlanError) × PresetMissing a.kind inputs.rl_preset_lookup a.params e
              × Degraded plan e)
            ⊎ ((sent : Params) × (persisted : UserFlags) × (plan.degraded ≡ false)
                × (map WireOp.payload plan.ops ≡ map (effect_kwargs sent) targets)
                × Source a.kind inputs.rl_preset_lookup a.params sent.fields sent.preset_id
                    persisted
                × FlagsOf force a.flags_override persisted sent.flags)))

merged-FlagOf :
    (override persisted : Option Bool) → FlagOf override persisted (merged_flag override persisted)
merged-FlagOf (some true) persisted = refl
merged-FlagOf (some false) persisted = refl
merged-FlagOf none (some true) = refl
merged-FlagOf none (some false) = refl
merged-FlagOf none none = refl

merged-FlagsOf :
    (force : Option Bool) (override persisted : UserFlags) (base : Params)
    → FlagsOf force override persisted (merge_flags base persisted (forced force override)).flags
unfolding merge_flags
merged-FlagsOf none override persisted base = (
  merged-FlagOf override.arm_on_sync persisted.arm_on_sync,
  merged-FlagOf override.force_tt0 persisted.force_tt0,
  merged-FlagOf override.force_reapply persisted.force_reapply,
  merged-FlagOf override.offset_mode persisted.offset_mode,
)
merged-FlagsOf (some b) override persisted base = (
  merged-FlagOf override.arm_on_sync persisted.arm_on_sync,
  merged-FlagOf override.force_tt0 persisted.force_tt0,
  merged-FlagOf override.force_reapply persisted.force_reapply,
  merged-FlagOf (some b) persisted.offset_mode,
)

-- The params and persisted flags that were found, or why there are none.
abbrev Found : ActionKind → Option (ℤ → Option Preset) → Params → Materialised ⊎ PlanError → Type 0
Found kind lookup base (inl m) =
    Source kind lookup base m.params.fields m.params.preset_id m.persisted
Found kind lookup base (inr e) = PresetMissing kind lookup base e

preset-Found :
    (lookup : Option (ℤ → Option Preset)) (base : Params)
    → Found rl_preset lookup base (materialize_rl_preset lookup base base.preset_id)
unfolding materialize_rl_preset materialize_ref
preset-Found lookup base = by_ref base.preset_id refl lookup refl
  where
    looked_up :
        (ref : ℤ) (find : ℤ → Option Preset) (o : Option Preset)
        → base.preset_id ≡ some ref
        → lookup ≡ some find
        → find ref ≡ o
        → Found rl_preset lookup base (or_not_found ref (merge_preset base o))
    looked_up ref find none e l f = inr (ref, find, e, l, f, refl)
    looked_up ref find (some preset) e l f = by_brightness base.fields.brightness refl
      where
        by_brightness :
            (b : Option ℤ)
            → base.fields.brightness ≡ b
            → Found rl_preset lookup base (or_not_found ref (merge_preset base (some preset)))
        by_brightness none h = (ref, e, inr (find, preset, l, f, rw h refl, rw h refl, refl))
        by_brightness (some b) h = (ref, e, inr (find, preset, l, f, rw h refl, rw h refl, refl))

    by_ref :
        (o : Option ℤ)
        → base.preset_id ≡ o
        → (l : Option (ℤ → Option Preset)) → lookup ≡ l
        → Found rl_preset lookup base (materialize_rl_preset l base o)
    by_ref none e l h = inl (e, refl)
    by_ref (some ref) e none h = (ref, e, inl (h, refl, refl, refl))
    by_ref (some ref) e (some find) h = looked_up ref find (find ref) e h refl

materialize-Found :
    (kind : ActionKind) (lookup : Option (ℤ → Option Preset)) (base : Params)
    → Found kind lookup base (materialize lookup kind base)
unfolding materialize
materialize-Found rl_preset lookup base = preset-Found lookup base
materialize-Found delay lookup base = (refl, refl, refl)
materialize-Found sync lookup base = (refl, refl, refl)
materialize-Found offset_group lookup base = (refl, refl, refl)
materialize-Found wled_preset lookup base = (refl, refl, refl)
materialize-Found rl_effect lookup base = (refl, refl, refl)
materialize-Found startblock lookup base = (refl, refl, refl)
materialize-Found (other_kind name) lookup base = (refl, refl, refl)

-- The receivers that were resolved, or that there are none.
abbrev Resolved :
    Option (String → Option Device) → Option Target → Option (List TargetKwargs) → Type 0
Resolved lookup target none = IsUnresolved lookup target
Resolved lookup target (some targets) = GoesTo lookup target targets

each-PerGroup : (ids : List ℤ) → PerGroup ids (map to_group ids)
each-PerGroup [] = tt
each-PerGroup (g ∷ ids) = (refl, each-PerGroup ids)

resolve_target-Resolved :
    (lookup : Option (String → Option Device)) (target : Option Target)
    → Resolved lookup target (resolve_target lookup target)
unfolding resolve_target
resolve_target-Resolved lookup none = tt
resolve_target-Resolved lookup (some to_all) = refl
resolve_target-Resolved lookup (some (to_groups [])) = refl
resolve_target-Resolved lookup (some (to_groups (g ∷ ids))) = ((λ e. cc e), each-PerGroup (g ∷ ids))
resolve_target-Resolved none (some (to_addr addr)) = inl refl
resolve_target-Resolved (some find) (some (to_addr addr)) = by_device (find addr) refl
  where
    by_device :
        (o : Option Device)
        → find addr ≡ o
        → Resolved (some find) (some (to_addr addr)) (found_device o)
    by_device none e = inr (find, refl, e)
    by_device (some device) e = (find, device, refl, e, refl)
resolve_target-Resolved lookup (some other_kind_target) = tt

by_params :
    (inputs : PlannerInputs) (force : Option Bool) (a : ActionFields) (targets : List TargetKwargs)
    (m : Materialised ⊎ PlanError)
    → GoesTo inputs.device_lookup a.target targets
    → Found a.kind inputs.rl_preset_lookup a.params m
    → (plan : ActionPlan) × (effect_plan a.kind force a.flags_override targets m ≡ ok plan)
      × EffectOutcome inputs force a plan
unfolding effect_ops merge_flags
by_params inputs force a targets (inr e) g f =
    (_, refl, inr (targets, g, inl (e, f, (refl, refl, refl))))
by_params inputs force a targets (inl m) g f =
    let sent = merge_flags m.params m.persisted (forced force a.flags_override) in
    let each = each_op-ok a.kind sent m.preset targets in
    rw (each.1) (
      _,
      refl,
      inr (
        targets,
        g,
        inr (
          sent,
          m.persisted,
          refl,
          each.2,
          f,
          merged-FlagsOf force a.flags_override m.persisted m.params,
        ),
      ),
    )

by_targets :
    (inputs : PlannerInputs) (force : Option Bool) (a : ActionFields)
    (targets : Option (List TargetKwargs))
    → Resolved inputs.device_lookup a.target targets
    → (plan : ActionPlan) × (effect_for inputs force a targets ≡ ok plan)
      × EffectOutcome inputs force a plan
by_targets inputs force a none r = (_, refl, inl (r, (refl, refl, refl)))
by_targets inputs force a (some targets) r =
    by_params inputs force a targets (materialize inputs.rl_preset_lookup a.kind a.params) r
      (materialize-Found a.kind inputs.rl_preset_lookup a.params)

-- An effect always has a plan. If its target cannot be resolved, the plan is empty, marked degraded and
-- says so. Else, if it is a preset action without a reference, or its preset is not found, the plan is
-- empty, marked degraded and names that error. Else it has one operation for the broadcast group, for
-- each group of the target in their order, or for the device; all carry the same params: those of the
-- preset with the action's brightness, or the action's own, with each flag as the force, the override
-- or the preset says, in this order.
pub plan_effect_total :
    (inputs : PlannerInputs) (force : Option Bool) (a : ActionFields)
    → (plan : ActionPlan) × (plan_effect inputs force a ≡ ok plan)
      × EffectOutcome inputs force a plan
unfolding plan_effect
plan_effect_total inputs force a =
    by_targets inputs force a (resolve_target inputs.device_lookup a.target)
      (resolve_target-Resolved inputs.device_lookup a.target)
