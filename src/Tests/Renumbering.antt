-- ===== src/Tests/Renumbering.antt =====
-- A container over three groups, of which the second is deleted.
use race_link_host.Prelude.{
  Bool, ok, ℕ, ◌≡◌, refl, ◌≢◌, inr, true, false, Option, none, some, List, [], ◌∷◌, map, arith,
  String, ℤ, pos, ◌+ℤ◌, value_error, err,
}
use race_link_host.Formula.{OffsetSpec}
use race_link_host.Dispatch.Op.{offset_group, rl_effect}
use race_link_host.Dispatch.Action.{
  Action, to_groups, ActionFields, action, Actions, no_actions, next_action,
}
use race_link_host.Scene.Renumber.{
  shift_group_value, map_group_value, is_seen, dedup, shift_target_groups_list, shift_values,
  shift_offset_block, shift_fields, rewrite_action, rewrite_children, renumber_action, remap_action,
}
use race_link_host.Scene.Canonical.{
  canonical_offset_group_container_target, canonical_target, migrate_legacy_target, current_target,
  groups_target, group_ids, insert, sort, Members, Json, integer, text, array, object, no_elements,
  element, no_members, member, validate_int,
}
use race_link_host.Scene.Canonical.Block.{
  bare_block, canonical_offset_block, explicit_block, explicit_values, insert_value,
}
use race_link_host.Scene.Collapse.Refused.{stored_group}
use race_link_host.Scene.Canonical.Container.{
  container_raw_target, container_offset, canonical_group_fields,
}
use race_link_host.Scene.Renumber.Image.{references, rewrite-references}
use race_link_host.Scene.Renumber.OnePerGroup.{IsCoherent, renumber-IsCoherent}
use race_link_host.Scene.Renumber.Positions.{group_at, remove_at, shift_group_value-same}
use race_link_host.Tests.Playing.{fields_of, ramp}

abbrev table : List (ℤ × ℤ) → OffsetSpec
table values = record ramp { mode = some "explicit"; values = values }

abbrev row : List ℤ → OffsetSpec → ActionFields
row ids offset = record (fields_of offset_group (some (to_groups ids))) { offset = some offset }

abbrev child_of : List ℤ → Actions
child_of ids =
    next_action (action (fields_of rl_effect (some (to_groups ids))) no_actions) no_actions

abbrev before : ActionFields
before =
    row (pos 1 ∷ pos 2 ∷ pos 3 ∷ [])
      (table ((pos 1, pos 0) ∷ (pos 2, pos 100) ∷ (pos 3, pos 200) ∷ []))

abbrev after : ActionFields
after =
    row (pos 1 ∷ pos 0 ∷ pos 2 ∷ [])
      (table ((pos 1, pos 0) ∷ (pos 0, pos 100) ∷ (pos 2, pos 200) ∷ []))

abbrev swap : List (ℤ × ℤ)
swap = (pos 2, pos 3) ∷ (pos 3, pos 2) ∷ []

abbrev swapped : ActionFields
swapped =
    row (pos 1 ∷ pos 3 ∷ pos 2 ∷ [])
      (table ((pos 1, pos 0) ∷ (pos 3, pos 100) ∷ (pos 2, pos 200) ∷ []))

rewritten_rows :
    (renumber_action (action before (child_of (pos 3 ∷ []))) (pos 2)
      ≡ (action after (child_of (pos 2 ∷ [])), true))
    × (remap_action (action before (child_of (pos 3 ∷ []))) swap
        ≡ (action swapped (child_of (pos 2 ∷ [])), true))
    × (renumber_action (action before (child_of (pos 3 ∷ []))) (pos 9)
        ≡ (action before (child_of (pos 3 ∷ [])), false))
unfolding renumber_action remap_action rewrite_action rewrite_children shift_fields
    shift_offset_block shift_values shift_target_groups_list dedup shift_group_value map_group_value
    ◌+ℤ◌
rewritten_rows = (refl, refl, refl)

renumber-IsCoherent_example :
    IsCoherent (renumber_action (action before (child_of (pos 3 ∷ []))) (pos 2)).0
    × IsCoherent (remap_action (action before (child_of (pos 3 ∷ []))) swap).0
renumber-IsCoherent_example =
    renumber-IsCoherent before (child_of (pos 3 ∷ [])) (pos 2) swap refl
      (inr refl, ((refl, tt), tt))

rewrite-references_example :
    (is_seen
        (pos 0)
        (references (renumber_action (action before (child_of (pos 3 ∷ []))) (pos 2)).0)
      ≡ is_seen (pos 0) (
          map
            (λ value. shift_group_value value (pos 2))
            (references (action before (child_of (pos 3 ∷ []))))))
    × (is_seen (pos 0) (references (remap_action (action before (child_of (pos 3 ∷ []))) swap).0)
        ≡ is_seen (pos 0) (
            map
              (λ value. map_group_value value swap)
              (references (action before (child_of (pos 3 ∷ []))))))
rewrite-references_example =
    rewrite-references (action before (child_of (pos 3 ∷ []))) (pos 2) swap (pos 0)

abbrev names : List String
names = "Unconfigured" ∷ "left" ∷ "middle" ∷ "right" ∷ []

shift_group_value-same_example :
    (w : ℕ) × (shift_group_value (pos 3) (pos 2) ≡ pos w)
    × (group_at w (remove_at 2 names) ≡ group_at 3 names)
shift_group_value-same_example = shift_group_value-same names 2 3 distinct
  where
    distinct : ◌≢◌ {A = ℕ} 3 2
    distinct e = omega arith

abbrev no_number : String → Option ℤ
no_number s = none

abbrev value_json : ℕ → ℕ → Json
value_json gid ms =
    object (member "id" (integer (pos gid)) (member "offset_ms" (integer (pos ms)) no_members))

-- The validation accepts two entries for one group; the deletion of any other group keeps one of them,
-- and then the block has too few.
repeated_entries :
    (renumber_action
        (action
          (row (pos 1 ∷ pos 2 ∷ []) (table ((pos 1, pos 100) ∷ (pos 1, pos 200) ∷ [])))
          no_actions)
        (pos 9)
      ≡ (action (row (pos 1 ∷ pos 2 ∷ []) (table ((pos 1, pos 100) ∷ []))) no_actions, true))
    × (canonical_offset_block no_number (some (pos 1 ∷ pos 2 ∷ [])) (
          object (
            member "mode"
              (text "explicit")
              (member "values" (array (element (value_json 1 100) no_elements)) no_members)))
        ≡ err value_error)
unfolding renumber_action rewrite_action rewrite_children shift_fields shift_offset_block
    shift_values shift_target_groups_list dedup shift_group_value ◌+ℤ◌ canonical_offset_block
    explicit_block explicit_values insert_value validate_int
repeated_entries = (refl, refl)

-- The container names both known groups; its child names one of them.
abbrev stored_rows : List Action
stored_rows =
    action (row (pos 1 ∷ pos 2 ∷ []) (table ((pos 1, pos 0) ∷ (pos 2, pos 100) ∷ [])))
      (child_of (pos 2 ∷ []))
    ∷ []

abbrev explicit_entries : Members
explicit_entries = member "mode" (text "explicit") (
    member "values" (array (element (value_json 1 0) (element (value_json 2 100) no_elements)))
      no_members)

abbrev same_text : String → String
same_text s = s

abbrev never_mac : String → Bool
never_mac s = false

abbrev container_entries : Members
container_entries = member "kind" (text "offset_group") (
    member "groups" (array (element (integer (pos 2)) (element (integer (pos 1)) no_elements)))
      (member "offset" (object explicit_entries) no_members))

-- The table is accepted again with the target as it was, before it became a broadcast.
accepted_before :
    canonical_group_fields no_number same_text never_mac
      (stored_group (to_groups (pos 1 ∷ pos 2 ∷ [])) ((pos 1, pos 0) ∷ (pos 2, pos 100) ∷ []))
    ≡ ok (
      to_groups (pos 1 ∷ pos 2 ∷ []),
      record (bare_block "explicit") { values = (pos 1, pos 0) ∷ (pos 2, pos 100) ∷ [] },
    )
unfolding canonical_group_fields container_raw_target container_offset
    canonical_offset_group_container_target canonical_target migrate_legacy_target current_target
    groups_target group_ids insert sort canonical_offset_block explicit_block explicit_values
    insert_value validate_int
accepted_before = refl
