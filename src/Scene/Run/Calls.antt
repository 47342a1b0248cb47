-- ===== src/Scene/Run/Calls.antt =====
-- The calls of the services that an action makes: their targets, and their number.
use race_link_host.Prelude.{
  ℕ, ◌≡◌, refl, sym, ap, ◌∙◌, inl, inr, Bool, true, false, ◌&&◌, Option, none, some, List, [], ◌∷◌,
  ◌++◌, Bool-cases, All, ℤ, pos, eqb_ℤ, Result, ok, err, append_nil, append_assoc, if-both, WhenOk,
  All-append,
}
use race_link_host.Broadcast.{BroadcastTarget}
use race_link_host.Dispatch.Op.{
  Payload, offset_kwargs, sync_kwargs, effect_kwargs, Sender, send_offset, send_sync, send_control,
  send_wled_preset, send_startblock, ActionKind, delay, sync, offset_group, rl_preset, wled_preset,
  rl_effect, startblock, other_kind, WireOp,
}
use race_link_host.Dispatch.Action.{Target, ActionFields, Action, action, Actions}
use race_link_host.Dispatch.Planner.{ActionPlan, plan_sync, target_group_for_op}
use race_link_host.Dispatch.Planner.Coherent.{
  SuitsSender, Coherent, plan_sync-Coherent, plan-Coherent,
}
use race_link_host.Dispatch.Planner.EachOp.{Planned}
use race_link_host.Scene.Scope.{Fleet}
use race_link_host.Scene.Runner.{
  Services, Host, RunScope, Call, call_offset, call_control, call_wled_preset, call_sync,
  call_startblock, CallReply, returned, raised, target_for, broadcast_blocked, call_of, call_for,
  ActionResult, Outcomes, make_call, dispatch_op, go_on, send_ops, degraded_result, outcome_result,
  execute_plan, execute_planned, narrowed, plan_now, dispatch_kind, dispatch,
}

-- A call to group `g` goes to the scope's networks if `g` is the broadcast group, and then the scope
-- is not one that is explicit and empty; else it has no target.
abbrev Addressed : RunScope → ℤ → Option BroadcastTarget → Type 0
Addressed scope g target =
    (target ≡ target_for scope g) × ((eqb_ℤ g (pos 255) && scope.is_explicit_empty) ≡ false)

abbrev pub InScope : RunScope → Call → Type 0
InScope scope (call_offset g target config) = Addressed scope g target
InScope scope (call_control target params kwargs) =
    Addressed scope (target_group_for_op kwargs) target
InScope scope (call_wled_preset target params kwargs) =
    Addressed scope (target_group_for_op kwargs) target
InScope scope (call_sync ts24 brightness trigger_armed target) = Addressed scope (pos 255) target
InScope scope (call_startblock params kwargs) =
    (eqb_ℤ (target_group_for_op kwargs) (pos 255) && scope.is_explicit_empty) ≡ false

abbrev IfCalled : (Call → Type 0) → Option Call → Type 0
IfCalled P none = Unit
IfCalled P (some call) = P call

call_of-InScope :
    (has_startblock : Bool) (scope : RunScope) (now : ℕ) (g : ℤ) (s : Option Sender) (p : Payload)
    → SuitsSender g s p
    → (eqb_ℤ g (pos 255) && scope.is_explicit_empty) ≡ false
    → IfCalled (InScope scope) (call_of has_startblock scope now g s p)
call_of-InScope b scope now g (some send_offset) (offset_kwargs config) f h = (refl, h)
call_of-InScope b scope now g (some send_sync) (sync_kwargs brightness trigger_armed) f h =
    (refl, rw f at h)
call_of-InScope b scope now g (some send_control) (effect_kwargs params kwargs) f h =
    (ap (target_for scope) f, rw f at h)
call_of-InScope b scope now g (some send_wled_preset) (effect_kwargs params kwargs) f h =
    (ap (target_for scope) f, rw f at h)
call_of-InScope true scope now g (some send_startblock) (effect_kwargs params kwargs) f h =
    rw f at h
call_of-InScope false scope now g (some send_startblock) (effect_kwargs params kwargs) f h = tt
call_of-InScope b scope now g none p f h = absurd f
call_of-InScope b scope now g (some send_offset) (sync_kwargs x y) f h = absurd f
call_of-InScope b scope now g (some send_offset) (effect_kwargs x y) f h = absurd f
call_of-InScope b scope now g (some send_sync) (offset_kwargs x) f h = absurd f
call_of-InScope b scope now g (some send_sync) (effect_kwargs x y) f h = absurd f
call_of-InScope b scope now g (some send_control) (offset_kwargs x) f h = absurd f
call_of-InScope b scope now g (some send_control) (sync_kwargs x y) f h = absurd f
call_of-InScope b scope now g (some send_wled_preset) (offset_kwargs x) f h = absurd f
call_of-InScope b scope now g (some send_wled_preset) (sync_kwargs x y) f h = absurd f
call_of-InScope b scope now g (some send_startblock) (offset_kwargs x) f h = absurd f
call_of-InScope b scope now g (some send_startblock) (sync_kwargs x y) f h = absurd f

module _ {World : Type 0} where
  -- The second host has made more calls, each of them with `P`.
  abbrev pub Extends : (Call → Type 0) → Host World → Host World → Type 0
  Extends P h h' = (new : List Call) × (h'.log ≡ h.log ++ new) × All P new

  unchanged : (P : Call → Type 0) (h : Host World) → Extends P h h
  unchanged P h = ([], sym (append_nil h.log), tt)

  followed :
      (P : Call → Type 0) (a b c : Host World) → Extends P a b → Extends P b c → Extends P a c
  followed P a b c (xs, e, hx) (ys, f, hy) =
      (xs ++ ys, f ∙ ap (λ l. l ++ ys) e ∙ append_assoc a.log xs ys, All-append P xs ys hx hy)

-- The scope in which an action is dispatched.
abbrev pub scope_for : ActionKind → Fleet → Option Target → RunScope → RunScope
scope_for offset_group fleet target scope = narrowed fleet target scope
scope_for _ fleet target scope = scope

module _ {World : Type 0} (services : Services World) where
  make_call-Extends :
      (P : Call → Type 0) (op : WireOp) (call : Option Call) (h : Host World)
      → IfCalled P call
      → Extends P h (make_call services op call h).1
  make_call-Extends P op none h p = unchanged P h
  make_call-Extends P op (some call) h p = (call ∷ [], refl, (p, tt))

  dispatch_op-InScope :
      (scope : RunScope) (op : WireOp) (h : Host World)
      → Coherent op
      → Extends (InScope scope) h (dispatch_op services scope op h).1
  unfolding dispatch_op
  dispatch_op-InScope scope op h c =
      let now = services.clock_ms h.world in
      elim (Bool-cases (broadcast_blocked scope op)) [
        | inl blocked ↦ rw blocked (unchanged (InScope scope) h)
        | inr free ↦ rw free (
            make_call-Extends (InScope scope) op (call_for services.has_startblock scope now op) h (
              call_of-InScope services.has_startblock scope now op.target_group op.sender op.payload
                c free))
      ]

  go_on-Extends :
      (P : Call → Type 0) (op : WireOp) (reply : CallReply) (h : Host World)
      (rest : Host World → Outcomes × Host World)
      → ((k : Host World) → Extends P k (rest k).1)
      → Extends P h (go_on services op reply h rest).1
  go_on-Extends P op (raised e) h rest k = unchanged P h
  go_on-Extends P op (returned b) h rest k = k h

  send_ops-InScope :
      (scope : RunScope) (ops : List WireOp) (h : Host World)
      → All Coherent ops
      → Extends (InScope scope) h (send_ops services scope ops h).1
  unfolding send_ops
  send_ops-InScope scope [] h c = unchanged (InScope scope) h
  send_ops-InScope scope (op ∷ ops) h c =
      let first = dispatch_op services scope op h in
      followed (InScope scope) h first.1
        (go_on services op first.0 first.1 (send_ops services scope ops)).1
        (dispatch_op-InScope scope op h c.0)
        (go_on-Extends (InScope scope) op first.0 first.1 (send_ops services scope ops)
          (λ k. send_ops-InScope scope ops k c.1))

  execute_plan-InScope :
      (scope : RunScope) (index : ℕ) (kind : ActionKind) (plan : ActionPlan) (h : Host World)
      → Planned Coherent plan
      → Extends (InScope scope) h (execute_plan services scope index kind plan h).1
  unfolding execute_plan
  execute_plan-InScope scope index kind plan h c =
      let sent = send_ops services scope plan.ops h in
      if-both (λ (x : ActionResult × Host World). Extends (InScope scope) h x.1) plan.degraded
        (degraded_result index kind plan, h) (outcome_result index kind plan sent.0, sent.1)
        (unchanged (InScope scope) h) (send_ops-InScope scope plan.ops h c)

  execute_planned-InScope :
      (scope : RunScope) (index : ℕ) (kind : ActionKind) (plan : Result ActionPlan) (h : Host World)
      → WhenOk (Planned Coherent) plan
      → Extends (InScope scope) h (execute_planned services scope index kind plan h).1
  execute_planned-InScope scope index kind (err e) h c = unchanged (InScope scope) h
  execute_planned-InScope scope index kind (ok plan) h c =
      execute_plan-InScope scope index kind plan h c

  pub planned : (a : Action) (h : Host World) → WhenOk (Planned Coherent) (plan_now services a h)
  planned a h = plan-Coherent (services.planner_inputs h.world) none a

  dispatch_kind-InScope :
      (k : ActionKind) (scope : RunScope) (index : ℕ) (a : ActionFields) (children : Actions)
      (h : Host World)
      → Extends
          (InScope (scope_for k (services.fleet h.world) a.target scope))
          h
          (dispatch_kind services k scope index a children h).1
  dispatch_kind-InScope delay scope index a children h = ([], sym (append_nil h.log), tt)
  dispatch_kind-InScope sync scope index a children h =
      execute_plan-InScope scope index sync plan_sync h plan_sync-Coherent
  dispatch_kind-InScope offset_group scope index a children h =
      execute_planned-InScope (narrowed (services.fleet h.world) a.target scope) index offset_group
        (plan_now services (action a children) h) h (planned (action a children) h)
  dispatch_kind-InScope rl_preset scope index a children h =
      execute_planned-InScope scope index rl_preset (plan_now services (action a children) h) h
        (planned (action a children) h)
  dispatch_kind-InScope wled_preset scope index a children h =
      execute_planned-InScope scope index wled_preset (plan_now services (action a children) h) h
        (planned (action a children) h)
  dispatch_kind-InScope rl_effect scope index a children h =
      execute_planned-InScope scope index rl_effect (plan_now services (action a children) h) h
        (planned (action a children) h)
  dispatch_kind-InScope startblock scope index a children h =
      execute_planned-InScope scope index startblock (plan_now services (action a children) h) h
        (planned (action a children) h)
  dispatch_kind-InScope (other_kind name) scope index a children h = unchanged (InScope scope) h

  -- Every call that the dispatch of an action makes is in the scope that `scope_for` gives.
  pub dispatch-NarrowedScope :
      (scope : RunScope) (index : ℕ) (a : ActionFields) (children : Actions) (h : Host World)
      → Extends
          (InScope (scope_for a.kind (services.fleet h.world) a.target scope))
          h
          (dispatch services scope index (action a children) h).1
  unfolding dispatch
  dispatch-NarrowedScope scope index a children h =
      dispatch_kind-InScope a.kind scope index a children h
