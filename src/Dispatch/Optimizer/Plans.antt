-- ===== src/Dispatch/Optimizer/Plans.antt =====
-- What the optimizer considers for a formula: it never raises, and its candidates are these.
use race_link_host.Prelude.{
  ◌≡◌, refl, Bool, true, false, Option, none, some, List, [], ◌∷◌, map, arith, if◌then◌else◌, ℤ,
  pos, ok, ◌>>=◌, map_ok-eq-map,
}
use race_link_host.Protocol.OffsetBody.{
  OffsetMode, mode_none, mode_explicit, mode_linear, mode_vshape, mode_modulo, no_offset, explicit,
}
use race_link_host.Formula.{OffsetSpec, spec_mode, evaluate_offset_ms}
use race_link_host.Dispatch.Optimizer.{
  broadcast_formula, per_group_explicit, formula_plus_overrides, OptimizerPlan,
  offset_payload_kwargs, make_offset_op, is_formula, is_none_mode, group_value, strategy_a,
  strategy_b, non_participants, strategy_c, clear_groups, present, choose, plan_for,
}
use race_link_host.Dispatch.Optimizer.Ops.{op_for, make_offset_op-ok}
use race_link_host.Dispatch.Optimizer.Bodies.{is_cascade, host_value, evaluate-ok}

-- The plans that the three strategies make for a formula.
abbrev pub plan_a : OffsetMode → OffsetSpec → OptimizerPlan
plan_a m offset = record {
  strategy = broadcast_formula;
  ops = op_for (pos 255) (offset_payload_kwargs m offset) ∷ [];
}

abbrev pub plan_b : OffsetSpec → List ℤ → OptimizerPlan
plan_b offset gs = record {
  strategy = per_group_explicit;
  ops = map (λ gid. op_for gid (explicit (host_value offset gid))) gs;
}

abbrev pub plan_c : OffsetMode → OffsetSpec → List ℤ → List ℤ → OptimizerPlan
plan_c m offset known gs = record {
  strategy = formula_plus_overrides;
  ops =
      op_for (pos 255) (offset_payload_kwargs m offset)
      ∷ map (λ gid. op_for gid no_offset) (non_participants known gs);
}

-- Strategy C needs a list of groups as its target and some known group.
abbrev pub candidate_c : Bool → OffsetMode → OffsetSpec → List ℤ → List ℤ → Option OptimizerPlan
candidate_c is_all m offset [] gs = none
candidate_c is_all m offset (k ∷ known) gs =
    if is_all then none else some (plan_c m offset (k ∷ known) gs)

group_value_eq :
    (m : OffsetMode) (offset : OffsetSpec) (g : ℤ)
    → is_cascade m ≡ true
    → group_value (some m) offset g ≡ evaluate_offset_ms offset g
group_value_eq mode_none offset g c = refl
group_value_eq mode_explicit offset g c = absurd (cc c)
group_value_eq mode_linear offset g c = refl
group_value_eq mode_vshape offset g c = refl
group_value_eq mode_modulo offset g c = refl

module _ (m : OffsetMode) (offset : OffsetSpec) (c : is_cascade m ≡ true) where
  is_formula-cascade : is_formula (some m) ≡ true
  is_formula-cascade = ground arith

  is_none_mode-cascade : is_none_mode (some m) ≡ false
  is_none_mode-cascade = ground arith

  strategy_a-ok :
      (is_all : Bool)
      → strategy_a is_all (some m) offset ≡ ok (if is_all then some (plan_a m offset) else none)
  unfolding strategy_a
  strategy_a-ok true =
      rw (is_formula-cascade, make_offset_op-ok (pos 255) (offset_payload_kwargs m offset))
  strategy_a-ok false = refl

  strategy_c-ok :
      (is_all : Bool) (known gs : List ℤ)
      → strategy_c is_all gs known (some m) offset ≡ ok (candidate_c is_all m offset known gs)
  unfolding strategy_c
  strategy_c-ok true [] gs = refl
  strategy_c-ok false [] gs = refl
  strategy_c-ok true (k ∷ known) gs = refl
  strategy_c-ok false (k ∷ known) gs = rw (
    is_formula-cascade,
    is_none_mode-cascade,
    make_offset_op-ok (pos 255) (offset_payload_kwargs m offset),
    map_ok-eq-map (λ gid. make_offset_op gid no_offset) (λ gid. op_for gid no_offset)
        (λ gid. make_offset_op-ok gid no_offset) (non_participants (k ∷ known) gs),
  )

  clear_groups-ok :
      (is_all : Bool) (gs : List ℤ) (b : Option OptimizerPlan)
      → clear_groups is_all gs (some m) b ≡ ok b
  unfolding clear_groups
  clear_groups-ok is_all gs b = rw is_none_mode-cascade

  module _ (e : spec_mode offset.mode ≡ some m) where
    group_op :
        (g : ℤ)
        → (group_value (some m) offset g >>= λ ms. make_offset_op g (explicit ms))
          ≡ ok (op_for g (explicit (host_value offset g)))
    group_op g = rw (
      group_value_eq m offset g c,
      evaluate-ok m offset g e,
      make_offset_op-ok g (explicit (host_value offset g)),
    )

    strategy_b-ok :
        (g : ℤ) (gs : List ℤ)
        → strategy_b (g ∷ gs) (some m) offset ≡ ok (some (plan_b offset (g ∷ gs)))
    unfolding strategy_b
    strategy_b-ok g gs = rw (
        map_ok-eq-map
          (λ gid. group_value (some m) offset gid >>= λ ms. make_offset_op gid (explicit ms))
          (λ gid. op_for gid (explicit (host_value offset gid))) group_op (g ∷ gs))

    -- The plan for a formula, with at least one group to address.
    pub plan_for-ok :
        (is_all : Bool) (gs known : List ℤ) (g : ℤ) (rest : List ℤ)
        → (if is_all then known else gs) ≡ g ∷ rest
        → plan_for is_all gs offset known
          ≡ ok (
              choose (
                present (
                  (if is_all then some (plan_a m offset) else none)
                  ∷ some (plan_b offset (g ∷ rest))
                  ∷ candidate_c is_all m offset known gs
                  ∷ [])))
    unfolding plan_for
    plan_for-ok is_all gs known g rest h = rw (
      e,
      h,
      strategy_a-ok is_all,
      strategy_b-ok g rest,
      strategy_c-ok is_all known gs,
      clear_groups-ok is_all (g ∷ rest) (some (plan_b offset (g ∷ rest))),
    )
