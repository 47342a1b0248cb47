-- ===== src/Dispatch/Optimizer/Bodies.antt =====
-- What one body makes a node do: the formula, or an explicit value computed by the host.
use race_link_host.Prelude.{
  ℕ, ◌≡◌, refl, sym, ap, ◌∙◌, Bool, true, false, Option, none, some, [], arith, get_or, ℤ, pos,
  negsuc, ◌≤ℤ◌, clamp, clamp_id, Result, ok, err,
}
use race_link_host.Protocol.OffsetBody.{
  OffsetMode, mode_none, mode_explicit, mode_linear, mode_vshape, mode_modulo, mode_name,
  mode_of_name, OffsetConfig, no_offset, explicit, mode_of_config, args_of_config,
}
use race_link_host.Formula.{
  OffsetSpec, spec_mode, evaluate_offset_ms, evaluate_mode, evaluate_bounds, positive_cycle,
  low_byte,
}
use race_link_host.Dispatch.Optimizer.{at_least_one, offset_payload_kwargs}
use race_link_host.Dispatch.Optimizer.Ops.{on_the_wire}

-- linear, vshape and modulo.
abbrev pub is_cascade : OffsetMode → Bool
is_cascade mode_none = false
is_cascade mode_explicit = false
is_cascade _ = true

-- The parameters are within the ranges that the wire carries.
pub record InRange (offset : OffsetSpec) : Type 0 where
  pub base_low : negsuc 32767 ≤ℤ get_or offset.base_ms (pos 0)
  pub base_high : get_or offset.base_ms (pos 0) ≤ℤ pos 32767
  pub step_low : negsuc 32767 ≤ℤ get_or offset.step_ms (pos 0)
  pub step_high : get_or offset.step_ms (pos 0) ≤ℤ pos 32767
  pub center_low : pos 0 ≤ℤ get_or offset.center (pos 0)
  pub center_high : get_or offset.center (pos 0) ≤ℤ pos 254
  pub cycle_high : get_or offset.cycle (pos 1) ≤ℤ pos 255

-- The offset block that a configuration stands for.
abbrev pub spec_of : OffsetConfig → OffsetSpec
spec_of kw =
    let a = args_of_config kw in
    record {
      mode = some (mode_name (mode_of_config kw));
      offset_ms = some a.offset_ms;
      base_ms = some a.base_ms;
      step_ms = some a.step_ms;
      center = some a.center;
      cycle = some a.cycle;
      values = [];
    }

-- The offset at which a node in group `g` plays; `none` is a node outside offset mode. The firmware
-- evaluates the same formula as the host.
abbrev pub device_offset : OffsetConfig → ℤ → Option (Result ℤ)
device_offset no_offset g = none
device_offset kw g = some (evaluate_offset_ms (spec_of kw) g)

spec_mode-name : (m : OffsetMode) → spec_mode (some (mode_name m)) ≡ some m
unfolding spec_mode mode_of_name
spec_mode-name mode_none = refl
spec_mode-name mode_explicit = refl
spec_mode-name mode_linear = refl
spec_mode-name mode_vshape = refl
spec_mode-name mode_modulo = refl

at_least_one-positive : (n : ℤ) → positive_cycle (at_least_one n) ≡ positive_cycle n
at_least_one-positive (pos n) = ground arith
at_least_one-positive (negsuc n) = ground arith

at_least_one-range :
    (n : ℤ) → n ≤ℤ pos 255 → clamp (pos 1) (pos 255) (at_least_one n) ≡ at_least_one n
at_least_one-range (pos n) h = ground arith
at_least_one-range (negsuc n) h = ground arith

-- A body that carries the formula makes a node play at the host's offset for its group.
module _ (offset : OffsetSpec) (r : InRange offset) (g : ℤ) where
  pub formula-body :
      (m : OffsetMode)
      → is_cascade m ≡ true
      → spec_mode offset.mode ≡ some m
      → device_offset (on_the_wire (offset_payload_kwargs m offset)) g
        ≡ some (evaluate_offset_ms offset g)
  unfolding evaluate_offset_ms evaluate_mode
  formula-body mode_none c e = absurd (cc c)
  formula-body mode_explicit c e = absurd (cc c)
  formula-body mode_linear c e = rw (
    spec_mode-name mode_linear,
    e,
    clamp_id _ _ (get_or offset.base_ms (pos 0)) r.base_low r.base_high,
    clamp_id _ _ (get_or offset.step_ms (pos 0)) r.step_low r.step_high,
  )
  formula-body mode_vshape c e = rw (
    spec_mode-name mode_vshape,
    e,
    clamp_id _ _ (get_or offset.base_ms (pos 0)) r.base_low r.base_high,
    clamp_id _ _ (get_or offset.step_ms (pos 0)) r.step_low r.step_high,
    clamp_id _ _ (get_or offset.center (pos 0)) r.center_low r.center_high,
  )
  formula-body mode_modulo c e = rw (
    spec_mode-name mode_modulo,
    e,
    clamp_id _ _ (get_or offset.base_ms (pos 0)) r.base_low r.base_high,
    clamp_id _ _ (get_or offset.step_ms (pos 0)) r.step_low r.step_high,
    at_least_one-range (get_or offset.cycle (pos 1)) r.cycle_high,
    at_least_one-positive (get_or offset.cycle (pos 1)),
  )

-- The value of a successful evaluation.
abbrev pub value_of : Result ℤ → ℤ
value_of (ok v) = v
value_of (err e) = pos 0

evaluate_mode-ok :
    (m : OffsetMode) (offset : OffsetSpec) (k : ℕ)
    → evaluate_mode (some m) offset k ≡ ok (value_of (evaluate_mode (some m) offset k))
unfolding evaluate_mode
evaluate_mode-ok mode_none offset k = refl
evaluate_mode-ok mode_explicit offset k = refl
evaluate_mode-ok mode_linear offset k = refl
evaluate_mode-ok mode_vshape offset k = refl
evaluate_mode-ok mode_modulo offset k = refl

-- What a host-side evaluation sends to a group.
abbrev pub host_value : OffsetSpec → ℤ → ℤ
host_value offset g = value_of (evaluate_offset_ms offset g)

pub evaluate-ok :
    (m : OffsetMode) (offset : OffsetSpec) (g : ℤ)
    → spec_mode offset.mode ≡ some m
    → evaluate_offset_ms offset g ≡ ok (host_value offset g)
unfolding evaluate_offset_ms
evaluate-ok m offset g e = rw e (evaluate_mode-ok m offset (low_byte g))

evaluate-explicit :
    (v g : ℤ)
    → pos 0 ≤ℤ v
    → v ≤ℤ pos 65535
    → evaluate_offset_ms (spec_of (on_the_wire (explicit v))) g ≡ ok v
unfolding evaluate_offset_ms evaluate_mode
evaluate-explicit v g h k = rw (
  spec_mode-name mode_explicit,
  clamp_id (pos 0) (pos 65535) v h k,
  clamp_id (pos 0) (pos 65535) v h k,
)

pub explicit-body :
    (m : OffsetMode) (offset : OffsetSpec) (g : ℤ)
    → spec_mode offset.mode ≡ some m
    → device_offset (on_the_wire (explicit (host_value offset g))) g
      ≡ some (evaluate_offset_ms offset g)
explicit-body m offset g e =
    let eval = evaluate-ok m offset g e in
    let range = evaluate_bounds offset g (host_value offset g) eval in
    ap {B = Option (Result ℤ)} some
      (evaluate-explicit (host_value offset g) g range.0 range.1 ∙ sym eval)
