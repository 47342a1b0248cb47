-- ===== src/Scene/Run/InScope.antt =====
-- Where the calls of an action go, against the networks that its target touches.
use race_link_host.Prelude.{
  ◌≡◌, ◌≢◌, ◌↔◌, ◌⊎◌, true, false, Option, none, some, [], String, Within, ℤ, pos, eqb_ℤ,
}
use race_link_host.Broadcast.{BroadcastTarget}
use race_link_host.Dispatch.Op.{ActionKind, offset_group}
use race_link_host.Dispatch.Action.{Target, to_groups, to_addr, other_kind_target}
use race_link_host.Dispatch.Planner.{target_group_for_op}
use race_link_host.Scene.Scope.{Fleet}
use race_link_host.Scene.Scope.Touches.{TargetTouches}
use race_link_host.Scene.Runner.{
  RunScope, Call, call_offset, call_control, call_wled_preset, call_sync, call_startblock,
}

-- The target names the networks with a property and no other; there is none if no network has it.
abbrev Names : (String → Type 0) → Option BroadcastTarget → Type 0
Names P none = (x : String) → x ≢ "" → ¬ P x
Names P (some target) = (x : String) → Within x target.network_ids ↔ ((x ≢ "") × P x)

-- The target of a broadcast call: the networks that the target of a container touches, unless that
-- is itself a broadcast, and the networks of the scene otherwise.
abbrev pub BroadcastsTo :
    ActionKind → Fleet → Option Target → RunScope → Option BroadcastTarget → Type 0
BroadcastsTo offset_group fleet (some (to_groups ids)) scope target =
    Names (TargetTouches fleet [] (to_groups ids)) target
BroadcastsTo offset_group fleet (some (to_addr addr)) scope target =
    Names (TargetTouches fleet [] (to_addr addr)) target
BroadcastsTo offset_group fleet (some other_kind_target) scope target =
    Names (TargetTouches fleet [] other_kind_target) target
BroadcastsTo _ fleet own scope target = target ≡ scope.broadcast_scope

-- No broadcast is made from a scope that is explicit and empty, but for a container with groups of
-- its own.
abbrev pub MayBroadcast : ActionKind → Option Target → RunScope → Type 0
MayBroadcast offset_group (some (to_groups ids)) scope = Unit
MayBroadcast offset_group (some (to_addr addr)) scope = Unit
MayBroadcast offset_group (some other_kind_target) scope = Unit
MayBroadcast _ own scope = scope.is_explicit_empty ≡ false

module _ (kind : ActionKind) (fleet : Fleet) (own : Option Target) (scope : RunScope) where
  abbrev pub Goes : ℤ → Option BroadcastTarget → Type 0
  Goes g target =
      ((eqb_ℤ g (pos 255) ≡ false) × (target ≡ none))
      ⊎ ((eqb_ℤ g (pos 255) ≡ true)
          × BroadcastsTo kind fleet own scope target
          × MayBroadcast kind own scope)

  -- A start-block call carries no target.
  abbrev pub CallGoes : Call → Type 0
  CallGoes (call_offset g target config) = Goes g target
  CallGoes (call_control target params kwargs) = Goes (target_group_for_op kwargs) target
  CallGoes (call_wled_preset target params kwargs) = Goes (target_group_for_op kwargs) target
  CallGoes (call_sync ts24 brightness trigger_armed target) = Goes (pos 255) target
  CallGoes (call_startblock params kwargs) =
      (eqb_ℤ (target_group_for_op kwargs) (pos 255) ≡ false) ⊎ MayBroadcast kind own scope
