-- ===== src/Scene/Runner.antt =====
-- racelink/services/scene_runner_service.py: the runner that plays a scene. The services that it
-- calls, the repositories that they read and the clock are the parameter `Services`.
pub mod Detail
use race_link_host.Prelude.{
  ℕ, zero, suc, ◌+◌, ◌-◌, ◌*◌, ◌/◌, ◌%◌, ◌^◌, ◌≤◌, ◌<◌, ◌≡◌, refl, sym, ap, ◌∙◌, ◌≢◌, ◌↔◌, ◌⊎◌, inl,
  inr, Bool, true, false, not, ◌&&◌, ◌||◌, Option, none, some, List, [], ◌∷◌, ◌++◌, map, arith,
  str_eq, eq_iff, String, ltb, leb, ◌==◌, ==_iff, lt→leb_false, if◌then◌else◌, Bool-cases,
  Option-cases, get_or, is_some, length, take, drop, keep_if, any_of, all_of, length-append,
  length-map, length-keep_if, All, Within, Within-left, Within-right, Within-append, append-eq-nil,
  sum, sum-append, ℤ, pos, negsuc, pos_part, neg_part, sub_ℕ, ◌+ℤ◌, ◌*ℤ◌, ◌≤ℤ◌, leb_ℤ, eqb_ℤ,
  distance, mask, clamp, clamp_bounds, clamp_id, mask-byte-lt, Error, value_error, key_error,
  struct_error, index_error, assertion_error, Result, ok, err, ◌>>=◌, ◌>>◌, require, or_raise,
  map_ok, map_ok-eq-map, lower_eq, &&-parts, ||-parts, not-parts, append_nil, append_assoc,
  take_whole, WhenOk, WhenOk-of, WhenOk-value, WhenOk-mono, WhenOk-if, WhenOk-require, WhenOk-bind,
  WhenOk-map_ok, All-append, All-map,
}
use race_link_host.Protocol.OffsetBody.{OffsetConfig}
use race_link_host.Broadcast.{BroadcastTarget, from_ids}
use race_link_host.Dispatch.Op.{
  Params, TargetKwargs, Payload, offset_kwargs, sync_kwargs, effect_kwargs, Sender, send_offset,
  send_sync, send_control, send_wled_preset, send_startblock, ActionKind, delay, sync, offset_group,
  rl_preset, wled_preset, rl_effect, startblock, other_kind, WireOp,
}
use race_link_host.Dispatch.Action.{
  Target, to_all, ActionFields, Action, action, Actions, PlannerInputs,
}
use race_link_host.Dispatch.Planner.{PlanError, PlanDetail, ActionPlan, plan_sync}
use race_link_host.Dispatch.Planner.Container.{plan_action_dispatch}
use race_link_host.Dispatch.Cost.{strip_child_plans}
use race_link_host.Scene.Scope.{
  Fleet, NetworkScope, explicit_scope, auto_scope, Scene, is_empty, network_ids_for_target,
  scene_network_ids,
}
use race_link_host.Scene.Runner.Detail.{OpOutcome, OffsetRunDetail, build_offset_group_detail}

-- A call of a service, with the arguments that the runner passes.
pub data Call : Type 0 where
  call_offset : ℤ → Option BroadcastTarget → OffsetConfig → Call
  call_control call_wled_preset : Option BroadcastTarget → Params → TargetKwargs → Call
  call_sync : ℕ → ℤ → Bool → Option BroadcastTarget → Call
  call_startblock : Params → TargetKwargs → Call

-- What a call comes back with: a truth value, or an exception.
pub data CallReply : Type 0 where
  returned : Bool → CallReply
  raised : Error → CallReply

pub record Services (World : Type 0) : Type 0 where
  pub perform : Call → World → CallReply × World
  pub sleep : ℕ → World → World
  pub clock_ms : World → ℕ
  pub planner_inputs : World → PlannerInputs
  pub fleet : World → Fleet
  pub has_startblock : Bool

-- `_current_broadcast_scope` and `_broadcast_is_explicit_empty`.
pub record RunScope : Type 0 where
  pub broadcast_scope : Option BroadcastTarget
  pub is_explicit_empty : Bool

pub data RunError : Type 0 where
  skipped_aborted send_failed offset_group_partial_failure unknown_action degraded_run : RunError
  plan_failed : PlanError → RunError
  exception : Error → RunError

pub data RunDetail : Type 0 where
  no_run_detail : RunDetail
  plan_detail : PlanDetail → RunDetail
  offset_run_detail : OffsetRunDetail → RunDetail
  requested_ms : ℕ → RunDetail

pub record ActionResult : Type 0 where
  pub index : ℕ
  pub kind : ActionKind
  pub is_ok : Bool
  pub error : Option RunError
  pub degraded : Bool
  pub detail : RunDetail

-- The terminal state of a row.
pub data RowState : Type 0 where
  started_row skipped_row degraded_row ok_row error_row : RowState

abbrev pub was_skipped : Option RunError → Bool
was_skipped (some skipped_aborted) = true
was_skipped _ = false

unfoldable pub state_of : ActionResult → RowState
state_of r =
    if was_skipped r.error
    then skipped_row
    else if r.degraded
    then degraded_row
    else if r.is_ok
    then ok_row
    else error_row

-- The target of a call to group `g`.
abbrev pub target_for : RunScope → ℤ → Option BroadcastTarget
target_for scope g = if eqb_ℤ g (pos 255) then scope.broadcast_scope else none

abbrev pub broadcast_blocked : RunScope → WireOp → Bool
broadcast_blocked scope op = eqb_ℤ op.target_group (pos 255) && scope.is_explicit_empty

-- The call that a sender names, for a group and a payload; `none` where nothing is called.
abbrev pub call_of : Bool → RunScope → ℕ → ℤ → Option Sender → Payload → Option Call
call_of has_startblock scope now g (some send_offset) (offset_kwargs config) =
    some (call_offset g (target_for scope g) config)
call_of has_startblock scope now g (some send_control) (effect_kwargs params kwargs) =
    some (call_control (target_for scope g) params kwargs)
call_of has_startblock scope now g (some send_wled_preset) (effect_kwargs params kwargs) =
    some (call_wled_preset (target_for scope g) params kwargs)
call_of has_startblock scope now g (some send_sync) (sync_kwargs brightness trigger_armed) =
    some (call_sync (now % 2 ^ 24) brightness trigger_armed scope.broadcast_scope)
call_of has_startblock scope now g (some send_startblock) (effect_kwargs params kwargs) =
    if has_startblock then some (call_startblock params kwargs) else none
call_of has_startblock scope now g _ _ = none

abbrev pub call_for : Bool → RunScope → ℕ → WireOp → Option Call
call_for has_startblock scope now op =
    call_of has_startblock scope now op.target_group op.sender op.payload

-- `send_sync` counts as sent whatever the service returns.
abbrev pub call_reply : Call → CallReply → CallReply
call_reply (call_sync ts24 brightness trigger_armed target) (returned b) = returned true
call_reply call reply = reply

-- The world, with the calls made so far in their order.
pub record Host (World : Type 0) : Type 0 where
  pub world : World
  pub log : List Call

-- The outcomes of the operations, or the exception that ended them.
pub data Outcomes : Type 0 where
  completed : List OpOutcome → Outcomes
  stopped : Error → Outcomes

abbrev pub and_outcome : OpOutcome → Outcomes → Outcomes
and_outcome o (completed outcomes) = completed (o ∷ outcomes)
and_outcome o (stopped e) = stopped e

abbrev pub all_ok : List OpOutcome → Bool
all_ok outcomes = all_of OpOutcome.is_ok outcomes

abbrev pub plan_error_of : Option PlanError → RunError
plan_error_of none = degraded_run
plan_error_of (some e) = plan_failed e

abbrev pub degraded_result : ℕ → ActionKind → ActionPlan → ActionResult
degraded_result index kind plan = record {
  index = index;
  kind = kind;
  is_ok = false;
  error = some (plan_error_of plan.error);
  degraded = true;
  detail = plan_detail (strip_child_plans plan.detail);
}

abbrev pub exception_result : ℕ → ActionKind → Error → ActionResult
exception_result index kind e = record {
  index = index;
  kind = kind;
  is_ok = false;
  error = some (exception e);
  degraded = false;
  detail = no_run_detail;
}

abbrev is_nil : List WireOp → Bool
is_nil [] = true
is_nil (op ∷ ops) = false

abbrev pub error_unless : Bool → RunError → Option RunError
error_unless b e = if b then none else some e

-- The row of a plan whose operations have been sent. The detail of a group has no `child_count`, so
-- a group without operations is not ok.
unfoldable pub sent_result : ℕ → ActionKind → ActionPlan → List OpOutcome → ActionResult
sent_result index offset_group plan outcomes = record {
  index = index;
  kind = offset_group;
  is_ok = all_ok outcomes && not (is_nil plan.ops);
  error = error_unless (all_ok outcomes) offset_group_partial_failure;
  degraded = false;
  detail = offset_run_detail (build_offset_group_detail plan.detail outcomes);
}
sent_result index kind plan outcomes = record {
  index = index;
  kind = kind;
  is_ok = all_ok outcomes;
  error = error_unless (all_ok outcomes) send_failed;
  degraded = false;
  detail = plan_detail (strip_child_plans plan.detail);
}

abbrev pub outcome_result : ℕ → ActionKind → ActionPlan → Outcomes → ActionResult
outcome_result index kind plan (completed outcomes) = sent_result index kind plan outcomes
outcome_result index kind plan (stopped e) = exception_result index kind e

-- `BroadcastTarget.from_ids(ids) if ids else None`
abbrev pub target_option : Result BroadcastTarget → Option BroadcastTarget
target_option (ok target) = some target
target_option (err e) = none

unfoldable pub target_of_ids : List String → Option BroadcastTarget
target_of_ids ids = if is_empty ids then none else target_option (from_ids (map some ids))

-- The scope of a container's dispatch: that of its own target, unless it is a broadcast.
unfoldable pub narrowed : Fleet → Option Target → RunScope → RunScope
narrowed fleet none scope = scope
narrowed fleet (some to_all) scope = scope
narrowed fleet (some target) scope = record {
  broadcast_scope = target_of_ids (network_ids_for_target fleet none target);
  is_explicit_empty = false;
}

module _ {World : Type 0} (services : Services World) where
  -- `_dispatch_op`
  abbrev pub make_call : WireOp → Option Call → Host World → (CallReply × Host World)
  make_call op none h = (returned false, h)
  make_call op (some call) h =
      let done = services.perform call h.world in
      (call_reply call done.0, record { world = done.1; log = h.log ++ call ∷ [] })

  unfoldable pub dispatch_op : RunScope → WireOp → Host World → (CallReply × Host World)
  dispatch_op scope op h =
      if broadcast_blocked scope op
      then (returned false, h)
      else make_call op (call_for services.has_startblock scope (services.clock_ms h.world) op) h

  -- The loop over `plan.ops`; an exception leaves it.
  abbrev pub go_on :
      WireOp → CallReply → Host World → (Host World → Outcomes × Host World) → Outcomes × Host World
  go_on op (raised e) h rest = (stopped e, h)
  go_on op (returned b) h rest =
      let later = rest h in (and_outcome (record { is_ok = b; op = op }) later.0, later.1)

  unfoldable pub send_ops : RunScope → List WireOp → Host World → Outcomes × Host World
  send_ops scope [] h = (completed [], h)
  send_ops scope (op ∷ ops) h =
      let first = dispatch_op scope op h in go_on op first.0 first.1 (send_ops scope ops)

  unfoldable pub execute_plan :
      RunScope → ℕ → ActionKind → ActionPlan → Host World → ActionResult × Host World
  execute_plan scope index kind plan h =
      if plan.degraded
      then (degraded_result index kind plan, h)
      else (let sent = send_ops scope plan.ops h in (outcome_result index kind plan sent.0, sent.1))

  -- `_plan_and_execute`: an exception of the planner makes the row.
  abbrev pub execute_planned :
      RunScope → ℕ → ActionKind → Result ActionPlan → Host World → ActionResult × Host World
  execute_planned scope index kind (err e) h = (exception_result index kind e, h)
  execute_planned scope index kind (ok plan) h = execute_plan scope index kind plan h

  abbrev pub run_delay : ℕ → ℕ → Host World → ActionResult × Host World
  run_delay index duration_ms h = (
    record {
      index = index;
      kind = delay;
      is_ok = true;
      error = none;
      degraded = false;
      detail = requested_ms duration_ms;
    },
    record h { world = services.sleep duration_ms h.world },
  )

  abbrev pub unknown_result : ℕ → ActionKind → ActionResult
  unknown_result index kind = record {
    index = index;
    kind = kind;
    is_ok = false;
    error = some unknown_action;
    degraded = false;
    detail = no_run_detail;
  }

  abbrev pub plan_now : Action → Host World → Result ActionPlan
  plan_now a h = plan_action_dispatch (services.planner_inputs h.world) none a

  abbrev pub dispatch_kind :
      ActionKind → RunScope → ℕ → ActionFields → Actions → Host World → ActionResult × Host World
  dispatch_kind delay scope index a children h = run_delay index a.duration_ms h
  dispatch_kind sync scope index a children h = execute_plan scope index sync plan_sync h
  dispatch_kind offset_group scope index a children h =
      execute_planned (narrowed (services.fleet h.world) a.target scope) index offset_group
        (plan_now (action a children) h) h
  dispatch_kind (other_kind name) scope index a children h =
      (unknown_result index (other_kind name), h)
  dispatch_kind kind scope index a children h =
      execute_planned scope index kind (plan_now (action a children) h) h

  unfoldable pub dispatch : RunScope → ℕ → Action → Host World → ActionResult × Host World
  dispatch scope index (action a children) h = dispatch_kind a.kind scope index a children h
