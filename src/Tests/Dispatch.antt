-- ===== src/Tests/Dispatch.antt =====
-- An offset_group with a linear ramp, of which groups 3 and 5 of four known groups take part.
use race_link_host.Prelude.{
  ◌+◌, ◌≡◌, refl, ◌⊎◌, none, some, List, [], ◌∷◌, arith, String, length, ℤ, pos, ◌+ℤ◌, ◌*ℤ◌, ok,
}
use race_link_host.Protocol.OffsetBody.{
  mode_linear, mode_vshape, mode_modulo, no_offset, explicit, mode_of_name,
}
use race_link_host.Formula.{
  OffsetSpec, spec_mode, evaluate_offset_ms, evaluate_for_groups, Entries, evaluate_for_groups_lem,
}
use race_link_host.Dispatch.Optimizer.{
  OptimizerPlan, broadcast, groups, packet_count, non_participants, plan_offset_setup,
}
use race_link_host.Dispatch.Optimizer.Ops.{hear_all}
use race_link_host.Dispatch.Optimizer.Bodies.{InRange, device_offset}
use race_link_host.Dispatch.Optimizer.Delivery.{plan_delivers}
use race_link_host.Dispatch.Optimizer.Price.{plan_packets, bystanders}
use Prim.Native.Nat.{min}

abbrev block : String → OffsetSpec
block name = record {
  mode = some name;
  offset_ms = none;
  base_ms = some (pos 100);
  step_ms = some (pos 50);
  center = some (pos 4);
  cycle = some (pos 3);
  values = [];
}

abbrev ramp : OffsetSpec
ramp = block "linear"

abbrev known : List ℤ
known = pos 1 ∷ pos 3 ∷ pos 4 ∷ pos 5 ∷ []

ramp-InRange : InRange ramp
ramp-InRange = record {
  base_low = omega arith;
  base_high = omega arith;
  step_low = omega arith;
  step_high = omega arith;
  center_low = omega arith;
  center_high = omega arith;
  cycle_high = omega arith;
}

linear_name : spec_mode ramp.mode ≡ some mode_linear
unfolding spec_mode mode_of_name
linear_name = refl

vshape_name : spec_mode (block "VShape").mode ≡ some mode_vshape
unfolding spec_mode mode_of_name
vshape_name = refl

modulo_name : spec_mode (block "modulo").mode ≡ some mode_modulo
unfolding spec_mode mode_of_name
modulo_name = refl

plan_delivers_example :
    (p : OptimizerPlan) × (plan_offset_setup (groups (pos 3 ∷ pos 5 ∷ [])) ramp known ≡ ok p)
    × (device_offset (hear_all (pos 5) no_offset p.ops) (pos 5)
        ≡ some (evaluate_offset_ms ramp (pos 5)))
plan_delivers_example =
    plan_delivers (groups (pos 3 ∷ pos 5 ∷ [])) ramp known mode_linear (pos 5) no_offset linear_name
      refl ramp-InRange
      (
        (omega arith, omega arith),
        (
          (omega arith, omega arith),
          ((omega arith, omega arith), ((omega arith, omega arith), tt)),
        ),
      )
      ((omega arith, omega arith), ((omega arith, omega arith), tt)) refl

plan_packets_example :
    (p q : OptimizerPlan) × (plan_offset_setup (groups (pos 3 ∷ pos 4 ∷ pos 5 ∷ [])) ramp known
      ≡ ok p)
    × (packet_count p
        ≡ min
            (length (pos 3 ∷ pos 4 ∷ pos 5 ∷ []))
            (1 + length (non_participants known (pos 3 ∷ pos 4 ∷ pos 5 ∷ []))))
    × (plan_offset_setup broadcast ramp known ≡ ok q)
    × (packet_count q ≡ 1)
plan_packets_example =
    plan_packets ramp mode_linear linear_name refl (pos 3) (pos 1) (pos 4 ∷ pos 5 ∷ [])
      (pos 3 ∷ pos 4 ∷ pos 5 ∷ [])

bystanders_example :
    (p : OptimizerPlan) × (plan_offset_setup (groups (pos 3 ∷ pos 5 ∷ [])) ramp known ≡ ok p)
    × ((hear_all (pos 4) (explicit (pos 7)) p.ops ≡ explicit (pos 7))
        ⊎ (hear_all (pos 4) (explicit (pos 7)) p.ops ≡ no_offset))
bystanders_example =
    bystanders ramp mode_linear linear_name refl (pos 3) (pos 5 ∷ []) known (pos 4)
      (explicit (pos 7)) ((omega arith, omega arith), ((omega arith, omega arith), tt))
      (
        (omega arith, omega arith),
        (
          (omega arith, omega arith),
          ((omega arith, omega arith), ((omega arith, omega arith), tt)),
        ),
      )
      refl refl

two_offsets :
    evaluate_for_groups ramp (pos 3 ∷ pos 300 ∷ []) ≡ ok ((3, pos 250) ∷ (44, pos 2300) ∷ [])
unfolding evaluate_for_groups evaluate_offset_ms spec_mode mode_of_name ◌+ℤ◌ ◌*ℤ◌
two_offsets = refl

evaluate_for_groups_lem_example :
    Entries ramp (pos 3 ∷ pos 300 ∷ []) ((3, pos 250) ∷ (44, pos 2300) ∷ [])
evaluate_for_groups_lem_example =
    evaluate_for_groups_lem ramp (pos 3 ∷ pos 300 ∷ []) ((3, pos 250) ∷ (44, pos 2300) ∷ [])
      two_offsets
