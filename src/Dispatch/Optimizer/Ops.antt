-- ===== src/Dispatch/Optimizer/Ops.antt =====
-- The operations that the optimizer makes, and what a receiver does with them.
use race_link_host.Prelude.{
  ◌≡◌, refl, ap, ◌∙◌, true, ◌||◌, some, List, [], ◌∷◌, map, arith, if◌then◌else◌, length, All, ℤ,
  pos, negsuc, ◌≤ℤ◌, eqb_ℤ, Result, ok, err, ◌>>=◌,
}
use race_link_host.Protocol.Packets.{byte}
use race_link_host.Protocol.OffsetBody.{
  mode_name, by_name, OffsetConfig, ParsedOffset, mode_of_config, args_of_config, parse_offset_body,
}
use race_link_host.Protocol.OffsetBody.RoundTrip.{
  requested, sent, build-eq-sent, parse-sent, coerce_mode-name,
}
use race_link_host.Dispatch.Op.{WireOp, Payload, opc_offset, send_offset, offset_kwargs, no_detail}
use race_link_host.Dispatch.Optimizer.{body_of, make_offset_op, member}

-- The operation that `make_offset_op` returns.
unfoldable pub op_for : ℤ → OffsetConfig → WireOp
op_for target_group kw = record {
  opcode = opc_offset;
  target_group = target_group;
  payload = offset_kwargs kw;
  body_bytes = length (sent target_group (mode_of_config kw) (args_of_config kw));
  sender = some send_offset;
  detail = no_detail;
}

body_of-eq-sent :
    (tg : ℤ) (kw : OffsetConfig)
    → body_of tg kw ≡ ok (sent tg (mode_of_config kw) (args_of_config kw))
body_of-eq-sent tg kw =
    build-eq-sent tg (by_name (mode_name (mode_of_config kw))) (mode_of_config kw)
      (args_of_config kw) (coerce_mode-name (mode_of_config kw)).0

pub make_offset_op-ok : (tg : ℤ) (kw : OffsetConfig) → make_offset_op tg kw ≡ ok (op_for tg kw)
unfolding make_offset_op op_for
make_offset_op-ok tg kw = rw (body_of-eq-sent tg kw)

-- A node in group `g` that hears a body: it takes the configuration over if the body is addressed to
-- all groups or to its own.
abbrev pub hear : ℤ → OffsetConfig → Result ParsedOffset → OffsetConfig
hear g before (ok p) = if eqb_ℤ p.group_id (pos 255) || eqb_ℤ p.group_id g then p.config else before
hear g before (err e) = before

-- The same for a planned operation, by way of the bytes that it puts on the wire.
abbrev pub hear_payload : ℤ → OffsetConfig → ℤ → Payload → OffsetConfig
hear_payload g before tg (offset_kwargs kw) = hear g before (body_of tg kw >>= parse_offset_body)
hear_payload g before tg _ = before

unfoldable pub hear_op : ℤ → OffsetConfig → WireOp → OffsetConfig
hear_op g before op = hear_payload g before op.target_group op.payload

unfoldable pub hear_all : ℤ → OffsetConfig → List WireOp → OffsetConfig
hear_all g before [] = before
hear_all g before (op ∷ ops) = hear_all g (hear_op g before op) ops

-- A configuration as it arrives: each parameter clamped by the builder.
abbrev pub on_the_wire : OffsetConfig → OffsetConfig
on_the_wire kw = requested (mode_of_config kw) (args_of_config kw)

pub hear_op-op_for :
    (g tg : ℤ) (before kw : OffsetConfig)
    → hear_op g before (op_for tg kw)
      ≡ (if eqb_ℤ (byte tg) (pos 255) || eqb_ℤ (byte tg) g then on_the_wire kw else before)
unfolding hear_op op_for
hear_op-op_for g tg before kw =
    rw (body_of-eq-sent tg kw, parse-sent tg (mode_of_config kw) (args_of_config kw))

-- A group id that is a byte and not the broadcast address.
abbrev pub IsGroupId : ℤ → Type 0
IsGroupId g = (pos 0 ≤ℤ g) × (g ≤ℤ pos 254)

addressed :
    (g tg : ℤ) → IsGroupId tg → (eqb_ℤ (byte tg) (pos 255) || eqb_ℤ (byte tg) g) ≡ eqb_ℤ g tg
addressed (pos m) (pos n) h = ground arith
addressed (pos m) (negsuc n) h = absurd (omega arith)
addressed (negsuc m) (pos n) h = ground arith
addressed (negsuc m) (negsuc n) h = absurd (omega arith)

pub eqb_ℤ→eq : (a b : ℤ) → eqb_ℤ a b ≡ true → a ≡ b
eqb_ℤ→eq (pos m) (pos n) h = ground arith
eqb_ℤ→eq (pos m) (negsuc n) h = ground arith
eqb_ℤ→eq (negsuc m) (pos n) h = ground arith
eqb_ℤ→eq (negsuc m) (negsuc n) h = ground arith

pub hear_all-cons :
    (g : ℤ) (before : OffsetConfig) (op : WireOp) (ops : List WireOp)
    → hear_all g before (op ∷ ops) ≡ hear_all g (hear_op g before op) ops
unfolding hear_all
hear_all-cons g before op ops = refl

pub hear_one :
    (g tg : ℤ) (before kw : OffsetConfig)
    → IsGroupId tg
    → hear_op g before (op_for tg kw) ≡ (if eqb_ℤ g tg then on_the_wire kw else before)
hear_one g tg before kw h = rw (hear_op-op_for g tg before kw, addressed g tg h)

-- A unicast to each group of a list reaches the members and no one else.
pub hear_all-map :
    (g : ℤ) (kw : ℤ → OffsetConfig) (gs : List ℤ) (before : OffsetConfig)
    → All IsGroupId gs
    → hear_all g before (map (λ gid. op_for gid (kw gid)) gs)
      ≡ (if member g gs then on_the_wire (kw g) else before)
hear_all-map g kw [] before h = unfold hear_all in refl
hear_all-map g kw (x ∷ gs) before h =
    hear_all-cons g before (op_for x (kw x)) (map (λ gid. op_for gid (kw gid)) gs)
    ∙ hear_all-map g kw gs (hear_op g before (op_for x (kw x))) h.1
    ∙ rw (hear_one g x before (kw x) h.0) last
  where
    last :
        (if member g gs
          then on_the_wire (kw g)
          else if eqb_ℤ g x
          then on_the_wire (kw x)
          else before)
        ≡ (if eqb_ℤ g x || member g gs then on_the_wire (kw g) else before)
    last = ground (arith, eqb_ℤ→eq g x)

-- A broadcast reaches every node.
pub hear_all-broadcast :
    (g : ℤ) (before kw : OffsetConfig) (ops : List WireOp)
    → hear_all g before (op_for (pos 255) kw ∷ ops) ≡ hear_all g (on_the_wire kw) ops
hear_all-broadcast g before kw ops =
    hear_all-cons g before (op_for (pos 255) kw) ops
    ∙ ap (λ s. hear_all g s ops) (hear_op-op_for g (pos 255) before kw)
