-- ===== src/Dispatch/Planner/Coherent.antt =====
-- Each planned operation carries the payload of its sender, and the group that its payload addresses.
use race_link_host.Prelude.{
  ◌≡◌, refl, Bool, true, false, Option, some, ℤ, pos, Result, WhenOk, WhenOk-of, WhenOk-bind,
}
use race_link_host.Dispatch.Op.{
  Params, TargetKwargs, Payload, offset_kwargs, sync_kwargs, effect_kwargs, PresetDetail, Sender,
  send_offset, send_sync, send_control, send_wled_preset, send_startblock, ActionKind, delay, sync,
  offset_group, rl_preset, wled_preset, rl_effect, startblock, other_kind, WireOp,
}
use race_link_host.Protocol.Packets.{build_preset_body}
use race_link_host.Dispatch.Optimizer.Made.{Made}
use race_link_host.Dispatch.Optimizer.Ops.{op_for}
use race_link_host.Dispatch.Action.{Action, PlannerInputs}
use race_link_host.Dispatch.Planner.{
  plan_sync, control_op, build_effect_op, control_body_len, target_group_for_op,
}
use race_link_host.Dispatch.Planner.Container.{tag_offset, plan_action_dispatch}
use race_link_host.Dispatch.Planner.EachOp.{Planned, plan_effect-All, plan_action_dispatch-All}

-- The payload is one that the sender takes, and the operation's group is the one addressed by it.
abbrev pub SuitsSender : ℤ → Option Sender → Payload → Type 0
SuitsSender g (some send_offset) (offset_kwargs config) = Unit
SuitsSender g (some send_sync) (sync_kwargs brightness trigger_armed) = g ≡ pos 255
SuitsSender g (some send_control) (effect_kwargs params kwargs) = g ≡ target_group_for_op kwargs
SuitsSender g (some send_wled_preset) (effect_kwargs params kwargs) = g ≡ target_group_for_op kwargs
SuitsSender g (some send_startblock) (effect_kwargs params kwargs) = g ≡ target_group_for_op kwargs
SuitsSender g _ _ = ⊥

abbrev pub Coherent : WireOp → Type 0
Coherent op = SuitsSender op.target_group op.sender op.payload

-- Nothing is asked of a value that is only measured.
unasked : {A : Type 0} (r : Result A) → WhenOk (λ a. Unit {0}) r
unasked r = WhenOk-of (λ a. Unit {0}) r (λ a e. tt)

control_op-Coherent :
    (params : Params) (preset : Option PresetDetail) (kwargs : TargetKwargs)
    → WhenOk Coherent (control_op send_control false params preset kwargs)
      × WhenOk Coherent (control_op send_startblock true params preset kwargs)
control_op-Coherent params preset kwargs =
    let len = control_body_len params.fields in
    (
      WhenOk-bind (λ n. Unit {0}) Coherent len _ (unasked len) (λ n t. refl),
      WhenOk-bind (λ n. Unit {0}) Coherent len _ (unasked len) (λ n t. refl),
    )

build_effect_op-Coherent :
    (kind : ActionKind) (params : Params) (preset : Option PresetDetail) (kwargs : TargetKwargs)
    → WhenOk Coherent (build_effect_op kind params preset kwargs)
unfolding build_effect_op
build_effect_op-Coherent wled_preset params preset kwargs =
    let body = build_preset_body (pos 0) (pos 0) (pos 0) (pos 0) in
    WhenOk-bind (λ b. Unit {0}) Coherent body _ (unasked body) (λ b t. refl)
build_effect_op-Coherent startblock params preset kwargs =
    (control_op-Coherent params preset kwargs).1
build_effect_op-Coherent delay params preset kwargs = (control_op-Coherent params preset kwargs).0
build_effect_op-Coherent sync params preset kwargs = (control_op-Coherent params preset kwargs).0
build_effect_op-Coherent offset_group params preset kwargs =
    (control_op-Coherent params preset kwargs).0
build_effect_op-Coherent rl_preset params preset kwargs =
    (control_op-Coherent params preset kwargs).0
build_effect_op-Coherent rl_effect params preset kwargs =
    (control_op-Coherent params preset kwargs).0
build_effect_op-Coherent (other_kind name) params preset kwargs =
    (control_op-Coherent params preset kwargs).0

Made-Coherent : (op : WireOp) → Made op → Coherent (tag_offset op)
unfolding op_for
Made-Coherent op (tg, kw, e) = rw e tt

pub plan_sync-Coherent : Planned Coherent plan_sync
unfolding plan_sync
plan_sync-Coherent = (refl, tt)

pub plan-Coherent :
    (inputs : PlannerInputs) (force : Option Bool) (a : Action)
    → WhenOk (Planned Coherent) (plan_action_dispatch inputs force a)
plan-Coherent inputs force a =
    plan_action_dispatch-All Coherent (λ idx kind op q. q) Made-Coherent plan_sync-Coherent
      (plan_effect-All Coherent build_effect_op-Coherent) inputs force a
