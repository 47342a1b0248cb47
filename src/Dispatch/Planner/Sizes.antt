-- ===== src/Dispatch/Planner/Sizes.antt =====
-- The planned sizes are those of the bodies that the services have built.
use race_link_host.Prelude.{
  ℕ, ◌≡◌, refl, sym, ap, ◌∙◌, Bool, true, false, Option, none, some, leb, get_or, is_some,
  if◌then◌else◌, length, All, ℤ, pos, negsuc, assertion_error, Result, ok, ◌>>=◌, ◌>>◌, require,
  WhenOk, WhenOk-of, WhenOk-value, WhenOk-bind,
}
use race_link_host.Struct.{Bytes}
use race_link_host.Protocol.Packets.{byte, build_sync_body, masked_bodies}
use race_link_host.Protocol.ControlBody.{
  build_control_body, control_bytes, main_fields, ext_fields, body_max,
}
use race_link_host.Protocol.OffsetBody.{
  OffsetMode, OffsetConfig, OffsetArgs, mode_none, mode_explicit, mode_linear, mode_vshape,
  mode_modulo, mode_name, mode_of_config, args_of_config, by_name,
}
use race_link_host.Protocol.OffsetBody.RoundTrip.{sent, build-eq-sent, coerce_mode-name}
use race_link_host.Dispatch.Op.{
  ControlFields, Params, TargetKwargs, PresetDetail, Sender, send_offset, send_sync, send_control,
  send_wled_preset, send_startblock, ActionKind, delay, sync, offset_group, rl_preset, wled_preset,
  rl_effect, startblock, other_kind, WireOp,
}
use race_link_host.Dispatch.Optimizer.Made.{Made}
use race_link_host.Dispatch.Optimizer.Ops.{op_for}
use race_link_host.Dispatch.Action.{Action, PlannerInputs}
use race_link_host.Dispatch.Planner.{
  ActionPlan, plan_sync, control_op, build_effect_op, control_body_len, masked_fields, masked_value,
  masked_color,
}
use race_link_host.Dispatch.Planner.Container.{tag_offset, tag_child, plan_action_dispatch}
use race_link_host.Dispatch.Planner.EachOp.{Planned, plan_effect-All, plan_action_dispatch-All}
use race_link_host.Sending.{
  byte_kwarg, color_kwarg, control_kwargs, control_frame, preset_frame, offset_frame, frame_of,
  group_b, effect_flags, brightness_val,
}

abbrev pub body_length : Result Bytes → Result ℕ
body_length frame = frame >>= λ body. ok (length body)

-- `body_bytes` is the length of the body that the operation's sender has built at the clock tick
-- `ts24`; the body of a start block is the controller's.
abbrev SizedBy : ℤ → Option Sender → WireOp → Type 0
SizedBy ts24 none op = ⊥
SizedBy ts24 (some send_startblock) op = Unit
SizedBy ts24 (some s) op =
    body_length (frame_of ts24 s op.target_group op.payload) ≡ ok op.body_bytes

abbrev pub Sized : ℤ → WireOp → Type 0
Sized ts24 op = SizedBy ts24 op.sender op

offset_length :
    (g : ℤ) (m : OffsetMode) (a : OffsetArgs) → length (sent (byte g) m a) ≡ length (sent g m a)
offset_length g mode_none a = refl
offset_length g mode_explicit a = refl
offset_length g mode_linear a = refl
offset_length g mode_vshape a = refl
offset_length g mode_modulo a = refl

offset_size :
    (g : ℤ) (kw : OffsetConfig) → body_length (offset_frame g kw) ≡ ok (op_for g kw).body_bytes
unfolding op_for
offset_size g kw =
    let m = mode_of_config kw in
    rw (build-eq-sent (byte g) (by_name (mode_name m)) m (args_of_config kw) (coerce_mode-name m).0)
      (ap ok (offset_length g m (args_of_config kw)))

Made-Sized : (ts24 : ℤ) (op : WireOp) → Made op → Sized ts24 (tag_offset op)
unfolding frame_of op_for
Made-Sized ts24 op (g, kw, e) = rw e (offset_size g kw)

-- The length of a control body does not depend on the group or on the flags.
measured :
    (b : Bool) (body : Bytes)
    → body_length (require b assertion_error >> ok body)
      ≡ (require b assertion_error >> ok (length body))
measured true body = refl
measured false body = refl

control_length :
    (g flags : ℤ) (f : ControlFields)
    → body_length (build_control_body g flags f)
      ≡ body_length (build_control_body (pos 0) (pos 0) f)
unfolding build_control_body
control_length g flags f =
    let rest = λ (x : ℤ) (y : ℤ). control_bytes x y (main_fields f) (ext_fields f) in
    measured (leb (length (rest g flags)) body_max) (rest g flags)
    ∙ sym (measured (leb (length (rest (pos 0) (pos 0))) body_max) (rest (pos 0) (pos 0)))

-- The planner's filter of the fields and the service's agree.
same_brightness :
    (f : ControlFields)
    → (if is_some f.brightness then some (brightness_val f) else none) ≡ masked_value f.brightness
same_brightness f = by_value f.brightness
  where
    by_value :
        (o : Option ℤ)
        → (if is_some o then some (elim o as (λ o. ℤ) [ none ↦ pos 0 | some b ↦ byte b ]) else none)
          ≡ masked_value o
    by_value none = refl
    by_value (some b) = refl

same_byte : (o : Option ℤ) → byte_kwarg o ≡ masked_value o
same_byte none = refl
same_byte (some v) = refl

same_color : (o : Option (ℤ × ℤ × ℤ)) → color_kwarg o ≡ masked_color o
same_color none = refl
same_color (some (r, g, b)) = refl

control_kwargs-masked : (f : ControlFields) → control_kwargs f ≡ masked_fields f
unfolding control_kwargs masked_fields
control_kwargs-masked f =
    rw
      (
        same_brightness f,
        same_byte f.mode,
        same_byte f.speed,
        same_byte f.intensity,
        same_byte f.custom1,
        same_byte f.custom2,
        same_byte f.custom3,
        same_byte f.palette,
        same_color f.color1,
        same_color f.color2,
        same_color f.color3,
      )
      refl

control_size :
    (params : Params) (kwargs : TargetKwargs)
    → body_length (control_frame params kwargs) ≡ control_body_len params.fields
unfolding control_frame control_body_len
control_size params kwargs =
    ap
      (λ f. body_length (
        build_control_body (group_b kwargs) (effect_flags (brightness_val params.fields) params) f))
      (control_kwargs-masked params.fields)
    ∙ control_length (group_b kwargs) (effect_flags (brightness_val params.fields) params)
        (masked_fields params.fields)

preset_size :
    (params : Params) (kwargs : TargetKwargs) → body_length (preset_frame params kwargs) ≡ ok 4
unfolding preset_frame
preset_size params kwargs =
    let lit = get_or params.fields.brightness (pos 0) in
    let flags = byte (effect_flags lit params) in
    rw (
      (masked_bodies (group_b kwargs) flags (byte (get_or params.preset_id (pos 1))) (byte lit)
        (pos 0)).2)

control_op-Sized :
    (ts24 : ℤ) (params : Params) (preset : Option PresetDetail) (kwargs : TargetKwargs)
    → WhenOk (Sized ts24) (control_op send_control false params preset kwargs)
unfolding frame_of
control_op-Sized ts24 params preset kwargs =
    WhenOk-bind (λ n. control_body_len params.fields ≡ ok n) (Sized ts24)
      (control_body_len params.fields) _
      (WhenOk-of (λ n. control_body_len params.fields ≡ ok n) (control_body_len params.fields)
        (λ n e. e))
      (λ n e. control_size params kwargs ∙ e)

startblock_op-Sized :
    (ts24 : ℤ) (params : Params) (preset : Option PresetDetail) (kwargs : TargetKwargs)
    → WhenOk (Sized ts24) (control_op send_startblock true params preset kwargs)
startblock_op-Sized ts24 params preset kwargs =
    WhenOk-bind (λ n. Unit {0}) (Sized ts24) (control_body_len params.fields) _
      (WhenOk-of (λ n. Unit {0}) (control_body_len params.fields) (λ n e. tt)) (λ n e. tt)

preset_op-Sized :
    (ts24 : ℤ) (params : Params) (preset : Option PresetDetail) (kwargs : TargetKwargs)
    → WhenOk (Sized ts24) (build_effect_op wled_preset params preset kwargs)
unfolding frame_of build_effect_op
preset_op-Sized ts24 params preset kwargs =
    rw ((masked_bodies (pos 0) (pos 0) (pos 0) (pos 0) (pos 0)).2) (preset_size params kwargs)

build_effect_op-Sized :
    (ts24 : ℤ) (kind : ActionKind) (params : Params) (preset : Option PresetDetail)
    (kwargs : TargetKwargs)
    → WhenOk (Sized ts24) (build_effect_op kind params preset kwargs)
unfolding build_effect_op
build_effect_op-Sized ts24 wled_preset params preset kwargs =
    preset_op-Sized ts24 params preset kwargs
build_effect_op-Sized ts24 startblock params preset kwargs =
    startblock_op-Sized ts24 params preset kwargs
build_effect_op-Sized ts24 delay params preset kwargs = control_op-Sized ts24 params preset kwargs
build_effect_op-Sized ts24 sync params preset kwargs = control_op-Sized ts24 params preset kwargs
build_effect_op-Sized ts24 offset_group params preset kwargs =
    control_op-Sized ts24 params preset kwargs
build_effect_op-Sized ts24 rl_preset params preset kwargs =
    control_op-Sized ts24 params preset kwargs
build_effect_op-Sized ts24 rl_effect params preset kwargs =
    control_op-Sized ts24 params preset kwargs
build_effect_op-Sized ts24 (other_kind name) params preset kwargs =
    control_op-Sized ts24 params preset kwargs

plan_sync-Sized : (ts24 : ℤ) → Planned (Sized ts24) plan_sync
unfolding plan_sync frame_of build_sync_body
plan_sync-Sized (pos t) = (refl, tt)
plan_sync-Sized (negsuc t) = (refl, tt)

tagged :
    (ts24 : ℤ) (idx : ℕ) (kind : ActionKind) (s : Option Sender) (op : WireOp)
    → SizedBy ts24 s op
    → SizedBy ts24 s (tag_child idx kind op)
tagged ts24 idx kind none op h = h
tagged ts24 idx kind (some send_offset) op h = h
tagged ts24 idx kind (some send_sync) op h = h
tagged ts24 idx kind (some send_control) op h = h
tagged ts24 idx kind (some send_wled_preset) op h = h
tagged ts24 idx kind (some send_startblock) op h = tt

-- Every operation that any action is planned to, also inside a container, has the size of the body
-- that the service has built from its payload, whichever clock tick it is sent at; a start block's
-- body is left open.
pub planned_sizes :
    (ts24 : ℤ) (inputs : PlannerInputs) (force : Option Bool) (a : Action) (plan : ActionPlan)
    → plan_action_dispatch inputs force a ≡ ok plan
    → All (Sized ts24) plan.ops
planned_sizes ts24 inputs force a plan h =
    WhenOk-value (Planned (Sized ts24)) (plan_action_dispatch inputs force a) plan h (
      plan_action_dispatch-All (Sized ts24) (λ idx kind op q. tagged ts24 idx kind op.sender op q)
        (Made-Sized ts24) (plan_sync-Sized ts24)
        (plan_effect-All (Sized ts24) (build_effect_op-Sized ts24)) inputs force a)
