-- ===== src/Dispatch/Action.antt =====
-- The canonical action dicts of a scene, as the planner and the runner read them.
use race_link_host.Prelude.{ℕ, Option, List, String, ℤ}
use race_link_host.Formula.{OffsetSpec}
use race_link_host.Dispatch.Op.{UserFlags, Params, Device, ActionKind}
use race_link_host.Dispatch.Optimizer.{ContainerTarget, broadcast, groups, other_target}

-- The unified `target`; `other_kind_target` is any other kind, which nothing resolves.
pub data Target : Type 0 where
  to_all : Target
  to_groups : List ℤ → Target
  to_addr : String → Target
  other_kind_target : Target

-- The target as the offset optimizer sees it.
abbrev pub container_target : Target → ContainerTarget
container_target to_all = broadcast
container_target (to_groups value) = groups value
container_target (to_addr addr) = other_target
container_target other_kind_target = other_target

-- The keys of an action but for its child actions; `none` is a missing key.
pub record ActionFields : Type 0 where
  pub kind : ActionKind
  pub target : Option Target
  pub params : Params
  pub flags_override : UserFlags
  pub duration_ms : ℕ
  pub offset : Option OffsetSpec

mutual
  pub data Action : Type 0 where
    action : ActionFields → Actions → Action

  -- `action["actions"]`
  pub data Actions : Type 0 where
    no_actions : Actions
    next_action : Action → Actions → Actions

-- A stored preset: what it sets and its persisted flags.
pub record Preset : Type 0 where
  pub key : String
  pub id : ℤ
  pub params : Params
  pub flags : UserFlags

-- What the planner is given: the fleet's groups, and two look-ups, each of which may be missing.
pub record PlannerInputs : Type 0 where
  pub known_group_ids : List ℤ
  pub rl_preset_lookup : Option (ℤ → Option Preset)
  pub device_lookup : Option (String → Option Device)
