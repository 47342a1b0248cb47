-- ===== src/Dispatch/Optimizer/Price.antt =====
-- The price of the plan that is chosen, and what it does to the groups that are not addressed.
use race_link_host.Prelude.{
  ◌+◌, ◌≤◌, ◌≡◌, refl, ◌∙◌, ◌⊎◌, inl, inr, true, false, none, some, List, [], ◌∷◌, map, arith,
  length, length-map, All, ℤ, ok,
}
use race_link_host.Protocol.OffsetBody.{OffsetMode, OffsetConfig, no_offset, explicit}
use race_link_host.Formula.{OffsetSpec, spec_mode}
use race_link_host.Dispatch.Optimizer.{
  OptimizerPlan, packet_count, broadcast, groups, offset_payload_kwargs, member, non_participants,
  present, cheaper, first_cheapest, choose, plan_offset_setup,
}
use Prim.Native.Nat.{min}
use race_link_host.Dispatch.Optimizer.Ops.{
  op_for, hear_all, on_the_wire, IsGroupId, hear_all-map, hear_all-broadcast,
}
use race_link_host.Dispatch.Optimizer.Choice.{first_cheapest-All, first_cheapest_min, NoDearer}
use race_link_host.Dispatch.Optimizer.Bodies.{is_cascade, host_value}
use race_link_host.Dispatch.Optimizer.Plans.{plan_a, plan_b, plan_c, plan_for-ok}
use race_link_host.Dispatch.Optimizer.Delivery.{
  choose-candidates, member-non_participants, non_participants-All,
}

NoDearer-packet_count : (p q : OptimizerPlan) → NoDearer p q → packet_count p ≤ packet_count q
unfolding cheaper
NoDearer-packet_count p q h = ground arith

-- Of two candidates the one with fewer packets is chosen.
choose_two :
    (b c : OptimizerPlan)
    → packet_count (choose (present (none ∷ some b ∷ some c ∷ [])))
      ≡ min (packet_count b) (packet_count c)
choose_two b c =
    let chosen = first_cheapest b (c ∷ []) in
    let low = first_cheapest_min b (c ∷ []) in
    let same =
      first_cheapest-All
        (λ p. (packet_count p ≡ packet_count b) ⊎ (packet_count p ≡ packet_count c)) b (c ∷ [])
        (inl refl) (inr refl, tt) in
    omega
      (arith, NoDearer-packet_count chosen b low.0, NoDearer-packet_count chosen c low.1.0, same)

module _ (offset : OffsetSpec) (m : OffsetMode) (e : spec_mode offset.mode ≡ some m)
    (c : is_cascade m ≡ true) where
  -- For a linear, v-shape or modulo block sent to a list of groups, with some known group, the plan has
  -- exactly as many packets as the cheaper of one for each listed group, and one and one more for each
  -- known group that is not listed; such a block sent to all known groups takes one packet.
  pub plan_packets :
      (x k : ℤ) (xs ks : List ℤ)
      → (p q : OptimizerPlan) × (plan_offset_setup (groups (x ∷ xs)) offset (k ∷ ks) ≡ ok p)
        × (packet_count p ≡ min (length (x ∷ xs)) (1 + length (non_participants (k ∷ ks) (x ∷ xs))))
        × (plan_offset_setup broadcast offset (k ∷ ks) ≡ ok q)
        × (packet_count q ≡ 1)
  unfolding plan_offset_setup
  plan_packets x k xs ks = (
    choose (present (none ∷ some listed ∷ some others ∷ [])),
    choose (present (some whole ∷ some (plan_b offset (k ∷ ks)) ∷ none ∷ [])),
    plan_for-ok m offset c e false (x ∷ xs) (k ∷ ks) x xs refl,
    choose_two listed others ∙ sizes,
    plan_for-ok m offset c e true [] (k ∷ ks) k ks refl,
    one,
  )
    where
      listed : OptimizerPlan
      listed = plan_b offset (x ∷ xs)

      others : OptimizerPlan
      others = plan_c m offset (k ∷ ks) (x ∷ xs)

      whole : OptimizerPlan
      whole = plan_a m offset

      sizes :
          min (packet_count listed) (packet_count others)
          ≡ min (length (x ∷ xs)) (1 + length (non_participants (k ∷ ks) (x ∷ xs)))
      sizes = omega (
        arith,
        length-map (λ gid. op_for gid (explicit (host_value offset gid))) (x ∷ xs),
        length-map (λ gid. op_for gid no_offset) (non_participants (k ∷ ks) (x ∷ xs)),
      )

      one :
          packet_count (choose (present (some whole ∷ some (plan_b offset (k ∷ ks)) ∷ none ∷ [])))
          ≡ 1
      one =
          let low = first_cheapest_min whole (plan_b offset (k ∷ ks) ∷ []) in
          let same =
            first_cheapest-All (λ p. 1 ≤ packet_count p) whole (plan_b offset (k ∷ ks) ∷ [])
              (omega arith) (omega arith, tt) in
          omega (arith, NoDearer-packet_count _ whole low.0, same)

  -- For a linear, v-shape or modulo block sent to a list of groups, all ids being 0 to 254, a node in a
  -- known group that is not in the list keeps its configuration, or is taken out of offset mode.
  pub bystanders :
      (x : ℤ) (xs known : List ℤ) (g : ℤ) (before : OffsetConfig)
      → All IsGroupId (x ∷ xs)
      → All IsGroupId known
      → member g (x ∷ xs) ≡ false
      → member g known ≡ true
      → (p : OptimizerPlan) × (plan_offset_setup (groups (x ∷ xs)) offset known ≡ ok p)
        × ((hear_all g before p.ops ≡ before) ⊎ (hear_all g before p.ops ≡ no_offset))
  unfolding plan_offset_setup
  bystanders x xs [] g before hg hk out here = absurd (cc here)
  bystanders x xs (k ∷ ks) g before hg hk out here = (
    choose (
        present
          (none ∷ some (plan_b offset (x ∷ xs)) ∷ some (plan_c m offset (k ∷ ks) (x ∷ xs)) ∷ [])),
    plan_for-ok m offset c e false (x ∷ xs) (k ∷ ks) x xs refl,
    choose-candidates LeavesAlone none (some (plan_c m offset (k ∷ ks) (x ∷ xs)))
        (plan_b offset (x ∷ xs)) tt (inl listed) (inr others),
  )
    where
      LeavesAlone : OptimizerPlan → Type 0
      LeavesAlone p = (hear_all g before p.ops ≡ before) ⊎ (hear_all g before p.ops ≡ no_offset)

      listed : hear_all g before (plan_b offset (x ∷ xs)).ops ≡ before
      listed = rw (hear_all-map g (λ gid. explicit (host_value offset gid)) (x ∷ xs) before hg, out)

      others : hear_all g before (plan_c m offset (k ∷ ks) (x ∷ xs)).ops ≡ no_offset
      others =
          let kw = offset_payload_kwargs m offset in
          let rest = non_participants (k ∷ ks) (x ∷ xs) in
          rw (
            hear_all-broadcast g before kw (map (λ gid. op_for gid no_offset) rest),
            hear_all-map g (λ gid. no_offset) rest (on_the_wire kw)
                (non_participants-All (k ∷ ks) (x ∷ xs) hk),
            member-non_participants g (k ∷ ks) (x ∷ xs),
            here,
            out,
          )
