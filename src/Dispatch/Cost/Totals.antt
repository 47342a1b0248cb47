-- ===== src/Dispatch/Cost/Totals.antt =====
-- The estimate of an action counts its plan, and the estimate of a scene adds its actions.
use race_link_host.Prelude.{
  ℕ, ◌+◌, ◌*◌, ◌≡◌, refl, sym, ◌∙◌, false, none, List, [], ◌∷◌, ◌++◌, map, arith, length, sum, ok,
  map_ok, append_nil, append_assoc, WhenOk, WhenOk-of, WhenOk-value, WhenOk-mono, WhenOk-bind,
}
use race_link_host.Dispatch.Op.{WireOp, total_bytes}
use race_link_host.Dispatch.Action.{ActionFields, Action, action, Actions, PlannerInputs}
use race_link_host.Dispatch.Planner.{ActionPlan}
use race_link_host.Dispatch.Planner.Container.{plan_action_dispatch}
use race_link_host.Dispatch.Cost.{
  radio_header_bytes, usb_framing_bytes, wire_overhead_us, lora_airtime_us, ActionCost, no_cost,
  add_packet, add_packets, plan_cost, is_delay, estimate_action, SceneCost, add_cost, estimate_from,
  estimate_scene,
}

-- The time on air of the operations' frames.
abbrev pub frames_airtime : List WireOp → ℕ
frames_airtime [] = 0
frames_airtime (op ∷ ops) =
    lora_airtime_us (op.body_bytes + radio_header_bytes) + frames_airtime ops

-- What the packets of the operations add to a cost.
abbrev Counts : ActionCost → List WireOp → ActionCost → Type 0
Counts before ops after =
    (after.packets ≡ before.packets + length ops)
    × (after.bytes
        ≡ before.bytes + (total_bytes ops + (radio_header_bytes + usb_framing_bytes) * length ops))
    × (after.airtime_us ≡ before.airtime_us + frames_airtime ops)
    × (after.wall_clock_us
        ≡ before.wall_clock_us + (frames_airtime ops + wire_overhead_us * length ops))

add_packets_lem : (c : ActionCost) (ops : List WireOp) → Counts c ops (add_packets c ops)
unfolding add_packet
add_packets_lem c [] = (omega arith, omega arith, omega arith, omega arith)
add_packets_lem c (op ∷ ops) =
    let rest = add_packets_lem (add_packet c op.body_bytes) ops in
    (omega (arith, rest.0), omega (arith, rest.1), omega (arith, rest.2), omega (arith, rest.3))

-- A cost counts exactly the packets of a plan.
abbrev pub CostOf : ActionPlan → ActionCost → Type 0
CostOf plan cost =
    (cost.packets ≡ length plan.ops)
    × (cost.bytes ≡ total_bytes plan.ops + 9 * cost.packets)
    × (cost.airtime_us ≡ frames_airtime plan.ops)
    × (cost.wall_clock_us ≡ cost.airtime_us + 12000 * cost.packets)

plan_cost-CostOf : (plan : ActionPlan) → CostOf plan (plan_cost plan)
plan_cost-CostOf plan =
    let c = add_packets_lem no_cost plan.ops in
    (omega (arith, c.0), omega (arith, c.0, c.1), omega (arith, c.2), omega (arith, c.0, c.2, c.3))

-- If the planner returns a plan for an action that is no delay, the estimate of the action counts
-- that plan's packets, nine bytes of framing over each body, the time on air of each frame, and
-- twelve milliseconds over it for each packet.
pub estimate_action-CostOf :
    (inputs : PlannerInputs) (a : ActionFields) (children : Actions) (plan : ActionPlan)
    → is_delay a.kind ≡ false
    → plan_action_dispatch inputs none (action a children) ≡ ok plan
    → (cost : ActionCost) × (estimate_action inputs (action a children) ≡ ok cost)
      × CostOf plan cost
unfolding estimate_action
estimate_action-CostOf inputs a children plan k h =
    rw (k, h) (plan_cost plan, refl, plan_cost-CostOf plan)

abbrev sum_of : (ActionCost → ℕ) → List ActionCost → ℕ
sum_of f costs = sum (map f costs)

-- The total of a scene is the sum of the costs of its actions.
abbrev pub AddsUp : ActionCost → List ActionCost → ActionCost → Type 0
AddsUp before costs after =
    (after.packets ≡ before.packets + sum_of ActionCost.packets costs)
    × (after.bytes ≡ before.bytes + sum_of ActionCost.bytes costs)
    × (after.airtime_us ≡ before.airtime_us + sum_of ActionCost.airtime_us costs)
    × (after.wall_clock_us ≡ before.wall_clock_us + sum_of ActionCost.wall_clock_us costs)

-- The loop with its accumulator.
abbrev LoopResult : PlannerInputs → SceneCost → List Action → SceneCost → Type 0
LoopResult inputs out actions result =
    (costs : List ActionCost) × (map_ok (estimate_action inputs) actions ≡ ok costs)
    × (result.per_action ≡ out.per_action ++ costs)
    × AddsUp out.total costs result.total

estimate_from_lem :
    (inputs : PlannerInputs) (actions : List Action) (out : SceneCost)
    → WhenOk (LoopResult inputs out actions) (estimate_from inputs out actions)
unfolding estimate_from
estimate_from_lem inputs [] out = (
  [],
  refl,
  sym (append_nil out.per_action),
  (omega arith, omega arith, omega arith, omega arith),
)
estimate_from_lem inputs (a ∷ actions) out =
    let is_cost : ActionCost → Type 0 = λ c. estimate_action inputs a ≡ ok c in
    WhenOk-bind is_cost (LoopResult inputs out (a ∷ actions)) (estimate_action inputs a) _
      (WhenOk-of is_cost (estimate_action inputs a) (λ c e. e))
      (λ c e.
        WhenOk-mono (LoopResult inputs (add_cost out c) actions)
          (LoopResult inputs out (a ∷ actions)) (estimate_from inputs (add_cost out c) actions)
          (estimate_from_lem inputs actions (add_cost out c))
          (λ r h. (
            c ∷ h.0,
            rw (e, h.1),
            h.2 ∙ append_assoc out.per_action (c ∷ []) h.0,
            (
              omega (arith, h.3.0),
              omega (arith, h.3.1),
              omega (arith, h.3.2),
              omega (arith, h.3.3),
            ),
          )))

-- The estimate of a scene is made of the estimates of its actions, in their order, and its packets,
-- bytes and times are the sums of theirs.
pub estimate_scene-AddsUp :
    (inputs : PlannerInputs) (actions : List Action) (cost : SceneCost)
    → estimate_scene inputs actions ≡ ok cost
    → (map_ok (estimate_action inputs) actions ≡ ok cost.per_action)
      × AddsUp no_cost cost.per_action cost.total
estimate_scene-AddsUp inputs actions cost h =
    let start : SceneCost = record { total = no_cost; per_action = [] } in
    let r =
      WhenOk-value (LoopResult inputs start actions) (estimate_scene inputs actions) cost h
        (estimate_from_lem inputs actions start) in
    (rw (r.2) (r.1), rw (r.2) (r.3))
