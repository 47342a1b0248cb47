-- ===== src/Dispatch/Optimizer/Delivery.antt =====
-- Whatever strategy is chosen for a formula, each addressed group ends with its offset, and each
-- other known group is left alone or taken out of offset mode.
use race_link_host.Prelude.{
  ◌≡◌, refl, inl, inr, Bool, true, false, not, ◌&&◌, Option, none, some, List, [], ◌∷◌, map, arith,
  if◌then◌else◌, Bool-cases, All, ℤ, eqb_ℤ, ok,
}
use race_link_host.Protocol.OffsetBody.{OffsetMode, OffsetConfig, no_offset, explicit}
use race_link_host.Formula.{OffsetSpec, spec_mode, evaluate_offset_ms}
use race_link_host.Dispatch.Optimizer.{
  OptimizerPlan, ContainerTarget, broadcast, groups, other_target, offset_payload_kwargs, member,
  non_participants, present, choose, plan_for, plan_offset_setup,
}
use race_link_host.Dispatch.Optimizer.Ops.{
  op_for, hear_all, on_the_wire, IsGroupId, hear_all-map, eqb_ℤ→eq, hear_all-broadcast,
}
use race_link_host.Dispatch.Optimizer.Choice.{first_cheapest-All}
use race_link_host.Dispatch.Optimizer.Bodies.{
  is_cascade, InRange, device_offset, host_value, formula-body, explicit-body,
}
use race_link_host.Dispatch.Optimizer.Plans.{plan_a, plan_b, plan_c, candidate_c, plan_for-ok}

-- The groups that a container addresses.
abbrev pub addressed_groups : ContainerTarget → List ℤ → List ℤ
addressed_groups broadcast known = known
addressed_groups (groups value) known = value
addressed_groups other_target known = []

abbrev pub IfPresent : (OptimizerPlan → Type 0) → Option OptimizerPlan → Type 0
IfPresent P none = Unit
IfPresent P (some p) = P p

pub choose-candidates :
    (P : OptimizerPlan → Type 0) (a c : Option OptimizerPlan) (b : OptimizerPlan)
    → IfPresent P a
    → P b
    → IfPresent P c
    → P (choose (present (a ∷ some b ∷ c ∷ [])))
choose-candidates P none none b ha hb hc = first_cheapest-All P b [] hb tt
choose-candidates P none (some c) b ha hb hc = first_cheapest-All P b (c ∷ []) hb (hc, tt)
choose-candidates P (some a) none b ha hb hc = first_cheapest-All P a (b ∷ []) ha (hb, tt)
choose-candidates P (some a) (some c) b ha hb hc =
    first_cheapest-All P a (b ∷ c ∷ []) ha (hb, (hc, tt))

pub member-non_participants :
    (g : ℤ) (known gs : List ℤ)
    → member g (non_participants known gs) ≡ (member g known && not (member g gs))
member-non_participants g [] gs = refl
member-non_participants g (k ∷ known) gs = elim (Bool-cases (eqb_ℤ g k)) [
  | inl same ↦ rw (eqb_ℤ→eq g k same) (ground (arith, member-non_participants k known gs))
  | inr apart ↦ ground (arith, member-non_participants g known gs)
]

pub non_participants-All :
    (known gs : List ℤ) → All IsGroupId known → All IsGroupId (non_participants known gs)
non_participants-All [] gs h = tt
non_participants-All (k ∷ known) gs h = elim (Bool-cases (member k gs)) [
  | inl inside ↦ rw inside (non_participants-All known gs h.1)
  | inr outside ↦ rw outside (h.0, non_participants-All known gs h.1)
]

module _ (m : OffsetMode) (offset : OffsetSpec) (c : is_cascade m ≡ true)
    (e : spec_mode offset.mode ≡ some m) (g : ℤ) (before : OffsetConfig) where
  -- After the operations of a plan, a node in group `g` plays at the formula's offset.
  abbrev Delivers : OptimizerPlan → Type 0
  Delivers p = device_offset (hear_all g before p.ops) g ≡ some (evaluate_offset_ms offset g)

  plan_a-Delivers : InRange offset → Delivers (plan_a m offset)
  unfolding hear_all
  plan_a-Delivers r =
      rw (hear_all-broadcast g before (offset_payload_kwargs m offset) [])
        (formula-body offset r g m c e)

  plan_b-Delivers :
      (gs : List ℤ) → All IsGroupId gs → member g gs ≡ true → Delivers (plan_b offset gs)
  plan_b-Delivers gs h k =
      rw (hear_all-map g (λ gid. explicit (host_value offset gid)) gs before h, k)
        (explicit-body m offset g e)

  plan_c-Delivers :
      (known gs : List ℤ)
      → InRange offset
      → All IsGroupId known
      → member g gs ≡ true
      → Delivers (plan_c m offset known gs)
  plan_c-Delivers known gs r h k =
      let kw = offset_payload_kwargs m offset in
      let others = non_participants known gs in
      rw
        (
          hear_all-broadcast g before kw (map (λ gid. op_for gid no_offset) others),
          hear_all-map g (λ gid. no_offset) others (on_the_wire kw)
              (non_participants-All known gs h),
          member-non_participants g known gs,
          k,
        )
        (either (member g known))
    where
      either :
          (b : Bool)
          → device_offset
              (if b && false then no_offset else on_the_wire (offset_payload_kwargs m offset))
              g
            ≡ some (evaluate_offset_ms offset g)
      either true = formula-body offset r g m c e
      either false = formula-body offset r g m c e

  candidates-Deliver :
      (is_all : Bool) (gs known : List ℤ) (x : ℤ) (xs : List ℤ)
      → InRange offset
      → (if is_all then known else gs) ≡ x ∷ xs
      → All IsGroupId known
      → All IsGroupId (x ∷ xs)
      → member g (x ∷ xs) ≡ true
      → (p : OptimizerPlan) × (plan_for is_all gs offset known ≡ ok p) × Delivers p
  candidates-Deliver is_all gs known x xs r h hk hg mem = (
    choose (
        present (
          (if is_all then some (plan_a m offset) else none)
          ∷ some (plan_b offset (x ∷ xs))
          ∷ candidate_c is_all m offset known gs
          ∷ [])),
    plan_for-ok m offset c e is_all gs known x xs h,
    choose-candidates Delivers _ _ _ (first is_all) (plan_b-Delivers (x ∷ xs) hg mem)
        (third is_all known h hk),
  )
    where
      first : (b : Bool) → IfPresent Delivers (if b then some (plan_a m offset) else none)
      first true = plan_a-Delivers r
      first false = tt

      third :
          (b : Bool) (ks : List ℤ)
          → (if b then ks else gs) ≡ x ∷ xs
          → All IsGroupId ks
          → IfPresent Delivers (candidate_c b m offset ks gs)
      third true [] h' hk' = tt
      third false [] h' hk' = tt
      third true (k ∷ ks) h' hk' = tt
      third false (k ∷ ks) h' hk' = plan_c-Delivers (k ∷ ks) gs r hk' (rw h' mem)

-- For a linear, v-shape or modulo block with parameters in the ranges of the wire, and group ids 0 to
-- 254, the optimizer returns a plan (it does not raise), and a node in any addressed group, whatever
-- it was set to before, plays after the plan's packets at the offset that the host's evaluator gives
-- for its group: whichever of the three strategies was the cheapest.
pub plan_delivers :
    (target : ContainerTarget) (offset : OffsetSpec) (known : List ℤ) (m : OffsetMode) (g : ℤ)
    (before : OffsetConfig)
    → spec_mode offset.mode ≡ some m
    → is_cascade m ≡ true
    → InRange offset
    → All IsGroupId known
    → All IsGroupId (addressed_groups target known)
    → member g (addressed_groups target known) ≡ true
    → (p : OptimizerPlan) × (plan_offset_setup target offset known ≡ ok p)
      × (device_offset (hear_all g before p.ops) g ≡ some (evaluate_offset_ms offset g))
unfolding plan_offset_setup
plan_delivers broadcast offset [] m g before e c r hk hg mem = absurd (cc mem)
plan_delivers broadcast offset (k ∷ known) m g before e c r hk hg mem =
    candidates-Deliver m offset c e g before true [] (k ∷ known) k known r refl hk hg mem
plan_delivers (groups []) offset known m g before e c r hk hg mem = absurd (cc mem)
plan_delivers (groups (x ∷ xs)) offset known m g before e c r hk hg mem =
    candidates-Deliver m offset c e g before false (x ∷ xs) known x xs r refl hk hg mem
plan_delivers other_target offset known m g before e c r hk hg mem = absurd (cc mem)
