-- ===== src/Dispatch/Optimizer/Made.antt =====
-- Every operation that the optimizer plans is one that it has made by make_offset_op.
use race_link_host.Prelude.{
  ◌≡◌, refl, Bool, true, false, not, ◌&&◌, Option, none, some, List, [], ◌∷◌, if◌then◌else◌, All, ℤ,
  pos, Result, ok, err, ◌>>=◌, map_ok, WhenOk, WhenOk-if, WhenOk-bind, WhenOk-map_ok,
}
use race_link_host.Protocol.OffsetBody.{OffsetMode, OffsetConfig, no_offset, explicit}
use race_link_host.Formula.{OffsetSpec, spec_mode}
use race_link_host.Dispatch.Op.{WireOp}
use race_link_host.Dispatch.Optimizer.{
  OptimizerPlan, ContainerTarget, broadcast, groups, other_target, make_offset_op, is_formula,
  is_none_mode, kwargs_of, group_value, strategy_a, strategy_b, strategy_c, clear_groups,
  non_participants, present, choose, first_cheapest, plan_for, plan_offset_setup,
}
use race_link_host.Dispatch.Optimizer.Ops.{op_for, make_offset_op-ok}
use race_link_host.Dispatch.Optimizer.Choice.{first_cheapest-All}

-- What `make_offset_op` returns for some group and configuration.
abbrev pub Made : WireOp → Type 0
Made op = (tg : ℤ) × (kw : OffsetConfig) × (op ≡ op_for tg kw)

abbrev pub AllMade : OptimizerPlan → Type 0
AllMade p = All Made p.ops

abbrev MaybeMade : Option OptimizerPlan → Type 0
MaybeMade none = Unit
MaybeMade (some p) = AllMade p

make_offset_op-Made : (tg : ℤ) (kw : OffsetConfig) → WhenOk Made (make_offset_op tg kw)
make_offset_op-Made tg kw = rw (make_offset_op-ok tg kw) (tg, kw, refl)

anything : {A : Type 0} (r : Result A) → WhenOk (λ a. Unit {0}) r
anything (ok a) = tt
anything (err e) = tt

each-Made :
    (gs : List ℤ) (kw : ℤ → OffsetConfig)
    → WhenOk (All Made) (map_ok (λ gid. make_offset_op gid (kw gid)) gs)
each-Made gs kw =
    WhenOk-map_ok Made (λ gid. make_offset_op gid (kw gid))
      (λ gid. make_offset_op-Made gid (kw gid)) gs

strategy_a-Made :
    (is_all : Bool) (m : Option OffsetMode) (offset : OffsetSpec)
    → WhenOk MaybeMade (strategy_a is_all m offset)
unfolding strategy_a
strategy_a-Made is_all m offset =
    WhenOk-if MaybeMade (is_all && is_formula m) _ _
      (WhenOk-bind (λ kw. Unit {0}) MaybeMade (kwargs_of m offset) _ (anything (kwargs_of m offset))
        (λ kw t.
          WhenOk-bind Made MaybeMade (make_offset_op (pos 255) kw) _
            (make_offset_op-Made (pos 255) kw) (λ op h. (h, tt))))
      tt

strategy_b-Made :
    (gs : List ℤ) (m : Option OffsetMode) (offset : OffsetSpec)
    → WhenOk MaybeMade (strategy_b gs m offset)
unfolding strategy_b
strategy_b-Made [] m offset = tt
strategy_b-Made (g ∷ gs) m offset =
    let make : ℤ → Result WireOp =
      λ gid. group_value m offset gid >>= λ ms. make_offset_op gid (explicit ms) in
    WhenOk-bind (All Made) MaybeMade (map_ok make (g ∷ gs)) _
      (WhenOk-map_ok Made make
        (λ gid.
          WhenOk-bind (λ ms. Unit {0}) Made (group_value m offset gid) _
            (anything (group_value m offset gid)) (λ ms t. make_offset_op-Made gid (explicit ms)))
        (g ∷ gs))
      (λ ops h. h)

strategy_c-Made :
    (is_all : Bool) (gs known : List ℤ) (m : Option OffsetMode) (offset : OffsetSpec)
    → WhenOk MaybeMade (strategy_c is_all gs known m offset)
unfolding strategy_c
strategy_c-Made is_all gs [] m offset = tt
strategy_c-Made is_all gs (k ∷ known) m offset =
    let others = non_participants (k ∷ known) gs in
    WhenOk-if MaybeMade (not is_all && is_formula m && not (is_none_mode m)) _ _
      (WhenOk-bind (λ kw. Unit {0}) MaybeMade (kwargs_of m offset) _ (anything (kwargs_of m offset))
        (λ kw t.
          WhenOk-bind Made MaybeMade (make_offset_op (pos 255) kw) _
            (make_offset_op-Made (pos 255) kw)
            (λ op h.
              WhenOk-bind (All Made) MaybeMade (map_ok (λ gid. make_offset_op gid no_offset) others)
                _ (each-Made others (λ gid. no_offset)) (λ ops hs. (h, hs)))))
      tt

clear_groups-Made :
    (is_all : Bool) (gs : List ℤ) (m : Option OffsetMode) (b : Option OptimizerPlan)
    → MaybeMade b
    → WhenOk MaybeMade (clear_groups is_all gs m b)
unfolding clear_groups
clear_groups-Made is_all gs m b hb =
    WhenOk-if MaybeMade (is_none_mode m && not is_all) _ _
      (WhenOk-bind (All Made) MaybeMade (map_ok (λ gid. make_offset_op gid no_offset) gs) _
        (each-Made gs (λ gid. no_offset)) (λ ops h. h))
      hb

choose-Made :
    (a b c : Option OptimizerPlan)
    → MaybeMade a
    → MaybeMade b
    → MaybeMade c
    → AllMade (choose (present (a ∷ b ∷ c ∷ [])))
unfolding first_cheapest
choose-Made none none none ha hb hc = tt
choose-Made none none (some c) ha hb hc = hc
choose-Made none (some b) none ha hb hc = hb
choose-Made none (some b) (some c) ha hb hc = first_cheapest-All AllMade b (c ∷ []) hb (hc, tt)
choose-Made (some a) none none ha hb hc = ha
choose-Made (some a) none (some c) ha hb hc = first_cheapest-All AllMade a (c ∷ []) ha (hc, tt)
choose-Made (some a) (some b) none ha hb hc = first_cheapest-All AllMade a (b ∷ []) ha (hb, tt)
choose-Made (some a) (some b) (some c) ha hb hc =
    first_cheapest-All AllMade a (b ∷ c ∷ []) ha (hb, (hc, tt))

plan_for-Made :
    (is_all : Bool) (gs : List ℤ) (offset : OffsetSpec) (known : List ℤ)
    → WhenOk AllMade (plan_for is_all gs offset known)
unfolding plan_for
plan_for-Made is_all gs offset known =
    let m = spec_mode offset.mode in
    let concrete = if is_all then known else gs in
    WhenOk-bind MaybeMade AllMade (strategy_a is_all m offset) _ (strategy_a-Made is_all m offset)
      (λ a ha.
        WhenOk-bind MaybeMade AllMade (strategy_b concrete m offset) _
          (strategy_b-Made concrete m offset)
          (λ b hb.
            WhenOk-bind MaybeMade AllMade (strategy_c is_all gs known m offset) _
              (strategy_c-Made is_all gs known m offset)
              (λ c hc.
                WhenOk-bind MaybeMade AllMade (clear_groups is_all concrete m b) _
                  (clear_groups-Made is_all concrete m b hb)
                  (λ b' hb'. choose-Made a b' c ha hb' hc))))

pub plan_offset_setup-Made :
    (target : ContainerTarget) (offset : OffsetSpec) (known : List ℤ)
    → WhenOk AllMade (plan_offset_setup target offset known)
unfolding plan_offset_setup
plan_offset_setup-Made broadcast offset known = plan_for-Made true [] offset known
plan_offset_setup-Made (groups value) offset known = plan_for-Made false value offset known
plan_offset_setup-Made other_target offset known = tt
