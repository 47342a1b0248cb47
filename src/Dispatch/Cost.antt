-- ===== src/Dispatch/Cost.antt =====
-- racelink/services/scene_cost_estimator.py: packets, bytes and time of a scene before it runs. Times
-- are whole microseconds: a quarter of a symbol is 256 of them.
pub mod Totals
use race_link_host.Prelude.{
  ℕ, zero, suc, ◌+◌, ◌-◌, ◌*◌, ◌/◌, ◌%◌, ◌^◌, ◌≤◌, ◌<◌, ◌≡◌, refl, sym, ap, ◌∙◌, ◌≢◌, ◌↔◌, ◌⊎◌, inl,
  inr, Bool, true, false, not, ◌&&◌, ◌||◌, Option, none, some, List, [], ◌∷◌, ◌++◌, map, arith,
  str_eq, eq_iff, String, ltb, leb, ◌==◌, ==_iff, lt→leb_false, if◌then◌else◌, Bool-cases,
  Option-cases, get_or, is_some, length, take, drop, keep_if, any_of, all_of, length-append,
  length-map, length-keep_if, All, Within, Within-left, Within-right, Within-append, append-eq-nil,
  sum, sum-append, ℤ, pos, negsuc, pos_part, neg_part, sub_ℕ, ◌+ℤ◌, ◌*ℤ◌, ◌≤ℤ◌, leb_ℤ, eqb_ℤ,
  distance, mask, clamp, clamp_bounds, clamp_id, mask-byte-lt, Error, value_error, key_error,
  struct_error, index_error, assertion_error, Result, ok, err, ◌>>=◌, ◌>>◌, require, or_raise,
  map_ok, map_ok-eq-map, lower_eq, &&-parts, ||-parts, not-parts, append_nil, append_assoc,
  take_whole, WhenOk, WhenOk-of, WhenOk-value, WhenOk-if, WhenOk-require, WhenOk-bind,
  WhenOk-map_ok, All-append, All-map,
}
use race_link_host.Dispatch.Op.{ActionKind, delay, WireOp, total_bytes}
use race_link_host.Dispatch.Action.{ActionFields, Action, action, Actions, PlannerInputs}
use race_link_host.Dispatch.Planner.{PlanDetail, empty_detail, group_detail, ActionPlan}
use race_link_host.Dispatch.Planner.Container.{plan_action_dispatch}

abbrev lora_sf : ℕ
lora_sf = 7

abbrev lora_cr : ℕ
lora_cr = 5

abbrev lora_preamble_sym : ℕ
lora_preamble_sym = 8

abbrev pub radio_header_bytes : ℕ
radio_header_bytes = 7

abbrev pub usb_framing_bytes : ℕ
usb_framing_bytes = 2

-- WIRE_OVERHEAD_MS_PER_PACKET
abbrev pub wire_overhead_us : ℕ
wire_overhead_us = 12000

-- `math.ceil(num / den)`, for a `den` other than 0.
abbrev pub ceil_div : ℕ → ℕ → ℕ
ceil_div num den = (num + den - 1) / den

-- 2^SF / BW of a symbol, in quarters: 2^7 / 125 kHz is 1024 microseconds.
abbrev quarter_symbol_us : ℕ
quarter_symbol_us = 2 ^ lora_sf * 8 / 4

-- `lora_airtime_ms`, with the explicit header, the CRC and no low-data-rate optimisation.
unfoldable pub lora_airtime_us : ℕ → ℕ
lora_airtime_us payload_bytes =
    let payload = if payload_bytes == 0 then 1 else payload_bytes in
    let num = 8 * payload + 28 + 16 - 4 * lora_sf in
    let n_payload = ceil_div num (4 * lora_sf) * lora_cr + 8 in
    (4 * lora_preamble_sym + 17 + 4 * n_payload) * quarter_symbol_us

pub record ActionCost : Type 0 where
  pub packets : ℕ
  pub bytes : ℕ
  pub airtime_us : ℕ
  pub wall_clock_us : ℕ
  pub detail : PlanDetail

abbrev pub no_cost : ActionCost
no_cost = record {
  packets = 0;
  bytes = 0;
  airtime_us = 0;
  wall_clock_us = 0;
  detail = empty_detail;
}

unfoldable pub add_packet : ActionCost → ℕ → ActionCost
add_packet cost body_bytes =
    let frame = body_bytes + radio_header_bytes in
    let airtime = lora_airtime_us frame in
    record {
      packets = cost.packets + 1;
      bytes = cost.bytes + (frame + usb_framing_bytes);
      airtime_us = cost.airtime_us + airtime;
      wall_clock_us = cost.wall_clock_us + (airtime + wire_overhead_us);
      detail = cost.detail;
    }

-- `for op in plan.ops: cost.add_packet(op.body_bytes)`
abbrev pub add_packets : ActionCost → List WireOp → ActionCost
add_packets cost [] = cost
add_packets cost (op ∷ ops) = add_packets (add_packet cost op.body_bytes) ops

-- The detail without `child_plans`.
abbrev pub strip_child_plans : PlanDetail → PlanDetail
strip_child_plans (group_detail d) = group_detail (record d { child_plans = [] })
strip_child_plans detail = detail

abbrev pub delay_cost : ℕ → ActionCost
delay_cost duration_ms = record {
  packets = 0;
  bytes = 0;
  airtime_us = duration_ms * 1000;
  wall_clock_us = duration_ms * 1000;
  detail = empty_detail;
}

abbrev pub plan_cost : ActionPlan → ActionCost
plan_cost plan = record (add_packets no_cost plan.ops) { detail = strip_child_plans plan.detail }

abbrev pub is_delay : ActionKind → Bool
is_delay delay = true
is_delay _ = false

unfoldable pub estimate_action : PlannerInputs → Action → Result ActionCost
estimate_action inputs (action a children) =
    if is_delay a.kind
    then ok (delay_cost a.duration_ms)
    else (do plan ← plan_action_dispatch inputs none (action a children); ok (plan_cost plan))

pub record SceneCost : Type 0 where
  pub total : ActionCost
  pub per_action : List ActionCost

-- The body of the loop of `estimate_scene`.
abbrev pub add_cost : SceneCost → ActionCost → SceneCost
add_cost out cost = record {
  total = record {
    packets = out.total.packets + cost.packets;
    bytes = out.total.bytes + cost.bytes;
    airtime_us = out.total.airtime_us + cost.airtime_us;
    wall_clock_us = out.total.wall_clock_us + cost.wall_clock_us;
    detail = out.total.detail;
  };
  per_action = out.per_action ++ cost ∷ [];
}

unfoldable pub estimate_from : PlannerInputs → SceneCost → List Action → Result SceneCost
estimate_from inputs out [] = ok out
estimate_from inputs out (a ∷ actions) = do
  cost ← estimate_action inputs a
  estimate_from inputs (add_cost out cost) actions

abbrev pub estimate_scene : PlannerInputs → List Action → Result SceneCost
estimate_scene inputs actions =
    estimate_from inputs (record { total = no_cost; per_action = [] }) actions
