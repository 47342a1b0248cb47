-- ===== src/Tests/Documents.antt =====
-- Tests of the validation of a scene's targets and offset blocks.
use race_link_host.Prelude.{
  ℕ, ◌≡◌, refl, Bool, true, Option, none, some, List, [], ◌∷◌, str_eq, String, ℤ, pos, negsuc,
  value_error, Result, ok, err,
}
use race_link_host.Formula.{OffsetSpec}
use race_link_host.Dispatch.Action.{to_all, to_groups}
use race_link_host.Scene.Canonical.{
  Json, boolean, integer, text, array, object, no_elements, element, no_members, member,
  canonical_target, canonical_offset_group_child_target, current_target, migrate_legacy_target,
  groups_target, group_ids, validate_int, sort, insert,
}
use race_link_host.Scene.Canonical.Block.{
  canonical_offset_block, explicit_block, explicit_values, insert_value, cascade_block,
}
use race_link_host.Scene.Canonical.Ranges.{Fits, canonical_offset_block-Fits}
use race_link_host.Scene.Canonical.Stable.{IsCanonical, target_json, canonical_target-IsCanonical}

abbrev no_number : String → Option ℤ
no_number s = none

abbrev same_text : String → String
same_text s = s

abbrev twelve : String → Bool
twelve s = str_eq s "AABBCCDDEEFF"

abbrev id_list : Json
id_list =
    array
      (element (integer (pos 9)) (element (integer (pos 2)) (element (boolean true) no_elements)))

abbrev three_groups : Json
three_groups = object (member "kind" (text "groups") (member "value" id_list no_members))

accepted_targets :
    (canonical_target no_number same_text twelve three_groups
      ≡ ok (to_groups (pos 1 ∷ pos 2 ∷ pos 9 ∷ [])))
    × (canonical_target no_number same_text twelve
          (object (member "kind" (text "scope") no_members))
        ≡ ok to_all)
    × (canonical_target no_number same_text twelve
          (object (member "kind" (text "group") (member "value" (integer (pos 255)) no_members)))
        ≡ err value_error)
unfolding canonical_target current_target migrate_legacy_target groups_target group_ids validate_int
    sort insert
accepted_targets = (refl, refl, refl)

child_targets :
    (canonical_offset_group_child_target no_number same_text twelve
        (some (pos 1 ∷ pos 2 ∷ []))
        three_groups
      ≡ err value_error)
    × (canonical_offset_group_child_target no_number same_text twelve none three_groups
        ≡ ok (to_groups (pos 1 ∷ pos 2 ∷ pos 9 ∷ [])))
unfolding canonical_offset_group_child_target canonical_target current_target migrate_legacy_target
    groups_target group_ids validate_int sort insert
child_targets = (refl, refl)

canonical_target-IsCanonical_example :
    IsCanonical no_number same_text twelve (to_groups (pos 1 ∷ pos 2 ∷ pos 9 ∷ []))
    × (canonical_target no_number same_text twelve
          (target_json (to_groups (pos 1 ∷ pos 2 ∷ pos 9 ∷ [])))
        ≡ ok (to_groups (pos 1 ∷ pos 2 ∷ pos 9 ∷ [])))
unfolding canonical_target current_target migrate_legacy_target groups_target group_ids validate_int
    sort insert
canonical_target-IsCanonical_example =
    canonical_target-IsCanonical no_number same_text twelve (λ s. refl) three_groups
      (to_groups (pos 1 ∷ pos 2 ∷ pos 9 ∷ [])) refl

abbrev vshape_json : Json
vshape_json = object (
    member "mode" (text "vshape")
      (member "base_ms" (integer (negsuc 32767)) (member "center" (integer (pos 254)) no_members)))

abbrev vshape_spec : OffsetSpec
vshape_spec = record (cascade_block no_number "vshape" (negsuc 32767) (pos 0)) {
  center = some (pos 254);
}

canonical_offset_block-Fits_example : Fits none vshape_spec
unfolding canonical_offset_block validate_int
canonical_offset_block-Fits_example =
    canonical_offset_block-Fits no_number none vshape_json vshape_spec refl

abbrev value_json : ℕ → ℕ → Json
value_json gid ms =
    object (member "id" (integer (pos gid)) (member "offset_ms" (integer (pos ms)) no_members))

abbrev values_json : Json → Json → Json
values_json first second = object (
    member "mode" (text "explicit")
      (member "values" (array (element first (element second no_elements))) no_members))

abbrev values_of : Result OffsetSpec → List (ℤ × ℤ)
values_of (ok spec) = spec.values
values_of (err e) = []

-- Two entries for the same group pass the check of their number, and the other group has none.
explicit_blocks :
    (values_of (
        canonical_offset_block no_number
          (some (pos 1 ∷ pos 2 ∷ []))
          (values_json (value_json 1 100) (value_json 1 200)))
      ≡ (pos 1, pos 100) ∷ (pos 1, pos 200) ∷ [])
    × (canonical_offset_block no_number none (values_json (value_json 1 100) (value_json 2 200))
        ≡ err value_error)
unfolding canonical_offset_block explicit_block explicit_values insert_value validate_int
explicit_blocks = (refl, refl)
