-- ===== src/Dispatch/Op.antt =====
-- `WireOp` of racelink/services/offset_dispatch_optimizer.py, with the payloads of its senders.
use race_link_host.Prelude.{ℕ, ◌+◌, Bool, false, Option, none, List, [], ◌∷◌, String, ℤ}
use race_link_host.Protocol.OffsetBody.{OffsetConfig}

pub data Opcode : Type 0 where
  opc_offset opc_control opc_preset opc_sync : Opcode

pub data Sender : Type 0 where
  send_offset send_sync send_control send_wled_preset send_startblock : Sender

-- The keyword arguments of `build_control_body`; `none` is a field that is not sent.
pub record ControlFields : Type 0 where
  pub brightness : Option ℤ
  pub mode : Option ℤ
  pub speed : Option ℤ
  pub intensity : Option ℤ
  pub custom1 : Option ℤ
  pub custom2 : Option ℤ
  pub custom3 : Option ℤ
  pub check1 : Option Bool
  pub check2 : Option Bool
  pub check3 : Option Bool
  pub palette : Option ℤ
  pub color1 : Option (ℤ × ℤ × ℤ)
  pub color2 : Option (ℤ × ℤ × ℤ)
  pub color3 : Option (ℤ × ℤ × ℤ)

-- The four user flags as a mapping: a key may be missing.
pub record UserFlags : Type 0 where
  pub arm_on_sync : Option Bool
  pub force_tt0 : Option Bool
  pub force_reapply : Option Bool
  pub offset_mode : Option Bool

abbrev pub no_flags : UserFlags
no_flags = record { arm_on_sync = none; force_tt0 = none; force_reapply = none; offset_mode = none }

-- The `params` dict of an effect: what is sent, the preset that it names, and its flag keys.
pub record Params : Type 0 where
  pub fields : ControlFields
  pub preset_id : Option ℤ
  pub flags : UserFlags

pub record Device : Type 0 where
  pub addr : String
  pub group_id : Option ℤ

pub data TargetKwargs : Type 0 where
  to_group : ℤ → TargetKwargs
  to_device : Device → TargetKwargs

-- The keyword arguments that are spread into the sender.
pub data Payload : Type 0 where
  offset_kwargs : OffsetConfig → Payload
  sync_kwargs : ℤ → Bool → Payload
  effect_kwargs : Params → TargetKwargs → Payload

pub data ActionKind : Type 0 where
  delay sync offset_group rl_preset wled_preset rl_effect startblock : ActionKind
  other_kind : String → ActionKind

pub data Phase : Type 0 where
  offset_phase : Payload → Phase
  child_phase : ℕ → ActionKind → Phase

-- `preset_key` and `preset_id` of a resolved preset, or the reference that was not looked up.
pub data PresetDetail : Type 0 where
  resolved : String → ℤ → PresetDetail
  unresolved : ℤ → PresetDetail

pub record OpDetail : Type 0 where
  pub phase : Option Phase
  pub preset : Option PresetDetail
  pub approximate : Bool

abbrev pub no_detail : OpDetail
no_detail = record { phase = none; preset = none; approximate = false }

pub record WireOp : Type 0 where
  pub opcode : Opcode
  pub target_group : ℤ
  pub payload : Payload
  pub body_bytes : ℕ
  pub sender : Option Sender
  pub detail : OpDetail

abbrev pub total_bytes : List WireOp → ℕ
total_bytes [] = 0
total_bytes (op ∷ ops) = op.body_bytes + total_bytes ops
