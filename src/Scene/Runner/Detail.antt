-- ===== src/Scene/Runner/Detail.antt =====
-- The detail of an offset_group's row: `_build_offset_group_detail` of the scene runner.
use race_link_host.Prelude.{
  ℕ, suc, Bool, true, false, not, Option, none, some, List, [], ◌∷◌, ltb, ◌==◌, if◌then◌else◌, ℤ,
  pos, eqb_ℤ,
}
use race_link_host.Protocol.OffsetBody.{OffsetMode, mode_of_config}
use race_link_host.Dispatch.Op.{
  Payload, offset_kwargs, ActionKind, Phase, offset_phase, child_phase, WireOp,
}
use race_link_host.Dispatch.Optimizer.{Strategy}
use race_link_host.Dispatch.Action.{Target}
use race_link_host.Dispatch.Planner.{
  PlanError, target_not_found, ChildPlan, PlanDetail, group_detail,
}

-- An entry of `op_outcomes`.
pub record OpOutcome : Type 0 where
  pub is_ok : Bool
  pub op : WireOp

-- A row of `offset_packets`; a row that is not ok says "send_offset_failed".
pub record PacketRow : Type 0 where
  pub is_ok : Bool
  pub mode : Option OffsetMode
  pub target_group : Option ℤ

pub data ChildError : Type 0 where
  child_send_failed : ChildError
  child_plan_error : PlanError → ChildError

pub record ChildRow : Type 0 where
  pub kind : ActionKind
  pub is_ok : Bool
  pub error : Option ChildError
  pub degraded : Bool
  pub target : Option Target

pub record OffsetRunDetail : Type 0 where
  pub wire_path : Option Strategy
  pub offset_mode : Option OffsetMode
  pub offset_packets : List (ℤ × PacketRow)
  pub offset_packet_count : ℕ
  pub offset_total_bytes : ℕ
  pub children : List (ℕ × ChildRow)

-- `offset_packets[str(target_group)] = row`
unfoldable pub put_row : ℤ → PacketRow → List (ℤ × PacketRow) → List (ℤ × PacketRow)
put_row g row [] = (g, row) ∷ []
put_row g row ((h, other) ∷ rows) =
    let rest = put_row g row rows in if eqb_ℤ g h then (g, row) ∷ rows else (h, other) ∷ rest

abbrev pub mode_of_payload : Payload → Option OffsetMode
mode_of_payload (offset_kwargs config) = some (mode_of_config config)
mode_of_payload _ = none

abbrev pub packet_row : Bool → WireOp → PacketRow
packet_row b op = record {
  is_ok = b;
  mode = mode_of_payload op.payload;
  target_group = if eqb_ℤ op.target_group (pos 255) then none else some op.target_group;
}

abbrev pub sent_row : ActionKind → ChildRow
sent_row kind = record { kind = kind; is_ok = true; error = none; degraded = false; target = none }

abbrev pub failed_if : Bool → ChildRow → ChildRow
failed_if true row = row
failed_if false row = record row { is_ok = false; error = some child_send_failed }

-- `per_child.setdefault(idx, …)` and the marks of a failure; the rows are kept in the order of their
-- indices, in which they are listed in the end.
unfoldable pub mark_child : ℕ → ActionKind → Bool → List (ℕ × ChildRow) → List (ℕ × ChildRow)
mark_child idx kind b [] = (idx, failed_if b (sent_row kind)) ∷ []
mark_child idx kind b ((i, row) ∷ rows) =
    let rest = mark_child idx kind b rows in
    if idx == i
    then (i, failed_if b row) ∷ rows
    else if ltb idx i
    then (idx, failed_if b (sent_row kind)) ∷ (i, row) ∷ rows
    else (i, row) ∷ rest

-- `if child_idx in per_child: continue`, else the row of the child's plan.
unfoldable pub add_planned : ℕ → ChildRow → List (ℕ × ChildRow) → List (ℕ × ChildRow)
add_planned idx planned [] = (idx, planned) ∷ []
add_planned idx planned ((i, row) ∷ rows) =
    let rest = add_planned idx planned rows in
    if idx == i
    then (i, row) ∷ rows
    else if ltb idx i
    then (idx, planned) ∷ (i, row) ∷ rows
    else (i, row) ∷ rest

-- `child_plan.detail` has the target where the target was not found.
abbrev pub detail_target : Option PlanError → Option Target → Option Target
detail_target (some target_not_found) target = target
detail_target _ target = none

abbrev pub plan_error : Option PlanError → Option ChildError
plan_error none = none
plan_error (some e) = some (child_plan_error e)

abbrev pub planned_row : ChildPlan → ChildRow
planned_row p = record {
  kind = p.kind;
  is_ok = not p.degraded;
  error = if p.degraded then plan_error p.error else none;
  degraded = p.degraded;
  target = if p.degraded then detail_target p.error p.target else none;
}

pub record Rows : Type 0 where
  pub offset_packets : List (ℤ × PacketRow)
  pub per_child : List (ℕ × ChildRow)

-- The body of the loop over `op_outcomes`, by the phase of the operation.
abbrev pub add_by_phase : Option Phase → Bool → WireOp → Rows → Rows
add_by_phase none b op rows = rows
add_by_phase (some (offset_phase payload)) b op rows = record rows {
  offset_packets = put_row op.target_group (packet_row b op) rows.offset_packets;
}
add_by_phase (some (child_phase idx kind)) b op rows = record rows {
  per_child = mark_child idx kind b rows.per_child;
}

unfoldable pub add_outcomes : List OpOutcome → Rows → Rows
add_outcomes [] rows = rows
add_outcomes (o ∷ outcomes) rows =
    add_outcomes outcomes (add_by_phase o.op.detail.phase o.is_ok o.op rows)

unfoldable pub add_plans : ℕ → List ChildPlan → List (ℕ × ChildRow) → List (ℕ × ChildRow)
add_plans idx [] rows = rows
add_plans idx (p ∷ plans) rows = add_plans (suc idx) plans (add_planned idx (planned_row p) rows)

abbrev no_rows : Rows
no_rows = record { offset_packets = []; per_child = [] }

unfoldable pub build_offset_group_detail : PlanDetail → List OpOutcome → OffsetRunDetail
build_offset_group_detail (group_detail d) outcomes =
    let rows = add_outcomes outcomes no_rows in
    record {
      wire_path = some d.wire_path;
      offset_mode = d.offset_mode;
      offset_packets = rows.offset_packets;
      offset_packet_count = d.offset_packets;
      offset_total_bytes = d.offset_total_bytes;
      children = add_plans 0 d.child_plans rows.per_child;
    }
build_offset_group_detail _ outcomes =
    let rows = add_outcomes outcomes no_rows in
    record {
      wire_path = none;
      offset_mode = none;
      offset_packets = rows.offset_packets;
      offset_packet_count = 0;
      offset_total_bytes = 0;
      children = rows.per_child;
    }
