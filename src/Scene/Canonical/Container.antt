-- ===== src/Scene/Canonical/Container.antt =====
-- racelink/services/scenes_service.py: the target and the offset block of a container, in
-- `_canonical_offset_group_action`. The children are left out.
use race_link_host.Prelude.{
  ℕ, Bool, Option, none, some, List, str_eq, String, leb, if◌then◌else◌, length, ℤ, pos, eqb_ℤ,
  value_error, Result, ok, err, ◌>>=◌, ◌>>◌, require,
}
use race_link_host.Formula.{OffsetSpec}
use race_link_host.Dispatch.Action.{Target, to_groups}
use race_link_host.Scene.Canonical.{
  Json, null, integer, text, array, object, element, Members, no_members, member, field,
  canonical_offset_group_container_target,
}
use race_link_host.Scene.Canonical.Block.{canonical_offset_block}

abbrev pub broadcast_json : Json
broadcast_json = object (member "kind" (text "broadcast") no_members)

-- The target that the legacy field `groups` stands for: "all", 255, or a list that is not empty.
unfoldable pub migrate_legacy_offset_group_groups_field : Json → Result Json
migrate_legacy_offset_group_groups_field (text s) =
    if str_eq s "all" then ok broadcast_json else err value_error
migrate_legacy_offset_group_groups_field (integer n) =
    if eqb_ℤ n (pos 255) then ok broadcast_json else err value_error
migrate_legacy_offset_group_groups_field (array (element raw rest)) =
    ok (
      object (member "kind" (text "groups") (member "value" (array (element raw rest)) no_members)))
migrate_legacy_offset_group_groups_field _ = err value_error

-- `target_raw`
unfoldable pub container_raw_target : Json → Members → Result Json
container_raw_target null entries =
    migrate_legacy_offset_group_groups_field (field "groups" entries)
container_raw_target raw entries = ok raw

-- `canonical_ids`, where `none` is a broadcast; a device has been refused before.
abbrev pub container_ids : Target → Option (List ℤ)
container_ids (to_groups ids) = some ids
container_ids _ = none

abbrev pub max_groups_offset_entries : ℕ
max_groups_offset_entries = 64

abbrev pub count_ids : Option (List ℤ) → ℕ
count_ids none = 0
count_ids (some ids) = length ids

module _ (int_of_text : String → Option ℤ) (strip_upper : String → String)
    (is_mac12 : String → Bool) where
  -- The block is validated against the groups of the target.
  unfoldable pub container_offset : Members → Target → Result (Target × OffsetSpec)
  container_offset entries target = do
    require (leb (count_ids (container_ids target)) max_groups_offset_entries) value_error
    offset ← canonical_offset_block int_of_text (container_ids target) (field "offset" entries)
    ok (target, offset)

  unfoldable pub canonical_group_fields : Members → Result (Target × OffsetSpec)
  canonical_group_fields entries = do
    raw ← container_raw_target (field "target" entries) entries
    target ← canonical_offset_group_container_target int_of_text strip_upper is_mac12 raw
    container_offset entries target
