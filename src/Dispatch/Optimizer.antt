-- ===== src/Dispatch/Optimizer.antt =====
-- racelink/services/offset_dispatch_optimizer.py: the OPC_OFFSET packets of an offset_group.
pub mod Ops
pub mod Made
pub mod Choice
pub mod Bodies
pub mod Plans
pub mod Delivery
pub mod Price
use race_link_host.Prelude.{
  ℕ, zero, suc, ◌+◌, ◌-◌, ◌*◌, ◌/◌, ◌%◌, ◌≤◌, ◌<◌, ◌≡◌, refl, sym, ap, ◌∙◌, ◌≢◌, ◌↔◌, ◌⊎◌, inl, inr,
  Bool, true, false, not, ◌&&◌, ◌||◌, Option, none, some, List, [], ◌∷◌, ◌++◌, map, arith, str_eq,
  eq_iff, String, ltb, leb, ◌==◌, ==_iff, if◌then◌else◌, Bool-cases, Option-cases, get_or, is_some,
  length, take, drop, keep_if, any_of, all_of, length-append, length-map, length-keep_if, All, sum,
  sum-append, ℤ, pos, negsuc, pos_part, neg_part, sub_ℕ, ◌+ℤ◌, ◌*ℤ◌, ◌≤ℤ◌, leb_ℤ, eqb_ℤ, distance,
  mask, clamp, clamp_bounds, clamp_id, mask-byte-lt, Error, value_error, key_error, struct_error,
  index_error, assertion_error, Result, ok, err, ◌>>=◌, ◌>>◌, require, or_raise, map_ok,
  map_ok-eq-map, lower_eq,
}
use race_link_host.Struct.{Bytes}
use race_link_host.Protocol.OffsetBody.{
  OffsetMode, mode_none, mode_explicit, mode_linear, mode_vshape, mode_modulo, mode_name, by_name,
  OffsetConfig, no_offset, explicit, linear, vshape, modulo, mode_of_config, args_of_config,
  build_offset_body,
}
use race_link_host.Formula.{OffsetSpec, spec_mode, evaluate_offset_ms}
use race_link_host.Dispatch.Op.{
  WireOp, opc_offset, send_offset, offset_kwargs, no_detail, total_bytes,
}

pub data Strategy : Type 0 where
  broadcast_formula per_group_explicit formula_plus_overrides : Strategy

pub record OptimizerPlan : Type 0 where
  pub strategy : Strategy
  pub ops : List WireOp

abbrev pub packet_count : OptimizerPlan → ℕ
packet_count p = length p.ops

-- The unified target of a container; any other kind is refused.
pub data ContainerTarget : Type 0 where
  broadcast : ContainerTarget
  groups : List ℤ → ContainerTarget
  other_target : ContainerTarget

abbrev pub at_least_one : ℤ → ℤ
at_least_one n = if leb_ℤ (pos 1) n then n else pos 1

abbrev pub offset_payload_kwargs : OffsetMode → OffsetSpec → OffsetConfig
offset_payload_kwargs mode_none params = no_offset
offset_payload_kwargs mode_explicit params = explicit (get_or params.offset_ms (pos 0))
offset_payload_kwargs mode_linear params =
    linear (get_or params.base_ms (pos 0)) (get_or params.step_ms (pos 0))
offset_payload_kwargs mode_vshape params =
    vshape (get_or params.base_ms (pos 0)) (get_or params.step_ms (pos 0))
      (get_or params.center (pos 0))
offset_payload_kwargs mode_modulo params =
    modulo (get_or params.base_ms (pos 0)) (get_or params.step_ms (pos 0))
      (at_least_one (get_or params.cycle (pos 1)))

-- The bytes of an operation: `build_offset_body(group_id=…, mode=mode, **kw)`.
abbrev pub body_of : ℤ → OffsetConfig → Result Bytes
body_of target_group kw =
    build_offset_body target_group (by_name (mode_name (mode_of_config kw))) (args_of_config kw)

-- `_make_offset_op` after its keyword arguments have been extracted.
unfoldable pub make_offset_op : ℤ → OffsetConfig → Result WireOp
make_offset_op target_group kw = do
  body ← body_of target_group kw
  ok (record {
    opcode = opc_offset;
    target_group = target_group;
    payload = offset_kwargs kw;
    body_bytes = length body;
    sender = some send_offset;
    detail = no_detail;
  })

-- `mode in FORMULA_MODES`
abbrev pub is_formula : Option OffsetMode → Bool
is_formula none = false
is_formula (some mode_explicit) = false
is_formula (some _) = true

abbrev pub is_none_mode : Option OffsetMode → Bool
is_none_mode (some mode_none) = true
is_none_mode _ = false

abbrev pub kwargs_of : Option OffsetMode → OffsetSpec → Result OffsetConfig
kwargs_of none params = err value_error
kwargs_of (some m) params = ok (offset_payload_kwargs m params)

abbrev pub member : ℤ → List ℤ → Bool
member g gs = any_of (λ h. eqb_ℤ g h) gs

-- `{int(v["id"]): int(v["offset_ms"]) for v in values}.get(gid, 0)`: the last entry wins.
abbrev pub explicit_value : ℤ → List (ℤ × ℤ) → Option ℤ
explicit_value gid [] = none
explicit_value gid ((i, ms) ∷ vs) = elim (explicit_value gid vs) [
  | some later ↦ some later
  | none ↦ if eqb_ℤ gid i then some ms else none
]

-- The value that strategy B sends to a group.
abbrev pub group_value : Option OffsetMode → OffsetSpec → ℤ → Result ℤ
group_value (some mode_explicit) offset gid = ok (get_or (explicit_value gid offset.values) (pos 0))
group_value m offset gid = evaluate_offset_ms offset gid

unfoldable pub strategy_a : Bool → Option OffsetMode → OffsetSpec → Result (Option OptimizerPlan)
strategy_a is_all m offset =
    if is_all && is_formula m
    then (do
      kw ← kwargs_of m offset
      op ← make_offset_op (pos 255) kw
      ok (some (record { strategy = broadcast_formula; ops = op ∷ [] })))
    else ok none

unfoldable pub strategy_b : List ℤ → Option OffsetMode → OffsetSpec → Result (Option OptimizerPlan)
strategy_b [] m offset = ok none
strategy_b (g ∷ gs) m offset = do
  ops ← map_ok (λ gid. group_value m offset gid >>= λ ms. make_offset_op gid (explicit ms)) (g ∷ gs)
  ok (some (record { strategy = per_group_explicit; ops = ops }))

abbrev pub non_participants : List ℤ → List ℤ → List ℤ
non_participants known participants = keep_if (λ gid. not (member gid participants)) known

unfoldable pub strategy_c :
    Bool → List ℤ → List ℤ → Option OffsetMode → OffsetSpec → Result (Option OptimizerPlan)
strategy_c is_all participants [] m offset = ok none
strategy_c is_all participants (k ∷ known) m offset =
    if not is_all && is_formula m && not (is_none_mode m)
    then (do
      kw ← kwargs_of m offset
      op ← make_offset_op (pos 255) kw
      overrides ←
          map_ok (λ gid. make_offset_op gid no_offset) (non_participants (k ∷ known) participants)
      ok (some (record { strategy = formula_plus_overrides; ops = op ∷ overrides })))
    else ok none

-- Mode "none" at concrete groups: a NONE to each of them takes the place of strategy B.
unfoldable pub clear_groups :
    Bool → List ℤ → Option OffsetMode → Option OptimizerPlan → Result (Option OptimizerPlan)
clear_groups is_all concrete m b =
    if is_none_mode m && not is_all
    then (do
      ops ← map_ok (λ gid. make_offset_op gid no_offset) concrete
      ok (some (record { strategy = per_group_explicit; ops = ops })))
    else ok b

-- `[p for p in (a, b, c) if p is not None]`
abbrev pub present : List (Option OptimizerPlan) → List OptimizerPlan
present [] = []
present (none ∷ ps) = present ps
present (some p ∷ ps) = p ∷ present ps

-- Is the key (packets, bytes) of `q` below that of `p`?
unfoldable pub cheaper : OptimizerPlan → OptimizerPlan → Bool
cheaper q p =
    ltb (packet_count q) (packet_count p)
    || (packet_count q == packet_count p && ltb (total_bytes q.ops) (total_bytes p.ops))

-- The first of a stable sort by that key.
unfoldable pub first_cheapest : OptimizerPlan → List OptimizerPlan → OptimizerPlan
first_cheapest p [] = p
first_cheapest p (q ∷ qs) = first_cheapest (if cheaper q p then q else p) qs

abbrev pub choose : List OptimizerPlan → OptimizerPlan
choose [] = record { strategy = broadcast_formula; ops = [] }
choose (p ∷ ps) = first_cheapest p ps

-- `plan_offset_setup` once the kind of the target is known.
unfoldable pub plan_for : Bool → List ℤ → OffsetSpec → List ℤ → Result OptimizerPlan
plan_for is_all participants offset known =
    let m = spec_mode offset.mode in
    let concrete = if is_all then known else participants in
    do
      a ← strategy_a is_all m offset
      b ← strategy_b concrete m offset
      c ← strategy_c is_all participants known m offset
      b' ← clear_groups is_all concrete m b
      ok (choose (present (a ∷ b' ∷ c ∷ [])))

unfoldable pub plan_offset_setup : ContainerTarget → OffsetSpec → List ℤ → Result OptimizerPlan
unfolding plan_for
plan_offset_setup broadcast offset known = plan_for true [] offset known
plan_offset_setup (groups value) offset known = plan_for false value offset known
plan_offset_setup other_target offset known = err value_error
