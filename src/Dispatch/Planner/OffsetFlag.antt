-- ===== src/Dispatch/Planner/OffsetFlag.antt =====
-- A container decides whether its children's effects are in offset mode.
use race_link_host.Prelude.{◌≡◌, Bool, true, false, none, some, if◌then◌else◌}
use race_link_host.Dispatch.Op.{
  Payload, offset_kwargs, sync_kwargs, effect_kwargs, ActionKind, offset_group, WireOp,
}
use race_link_host.Dispatch.Optimizer.Made.{Made}
use race_link_host.Dispatch.Action.{action, Actions, no_actions, next_action}

-- An effect's params have the flag `offset_mode` if `b` is true, and do not have it otherwise.
abbrev Flagged : Bool → Payload → Type 0
Flagged b (offset_kwargs config) = Unit
Flagged b (sync_kwargs brightness trigger_armed) = Unit
Flagged b (effect_kwargs params kwargs) = params.flags.offset_mode ≡ (if b then some true else none)

abbrev pub HasFlag : Bool → WireOp → Type 0
HasFlag b op = Flagged b op.payload

abbrev is_container : ActionKind → Bool
is_container offset_group = true
is_container _ = false

-- No child is a container itself.
abbrev pub NoContainers : Actions → Type 0
NoContainers no_actions = Unit
NoContainers (next_action (action a children) rest) =
    (is_container a.kind ≡ false) × NoContainers rest
