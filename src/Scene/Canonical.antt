-- ===== src/Scene/Canonical.antt =====
-- racelink/services/scenes_service.py: the targets and offset blocks of actions, from JSON to their
-- canonical form. `int_of_text` is Python's int() on a text, `strip_upper` its strip and upper, and
-- `is_mac12` the match of twelve hexadecimal digits.
pub mod Block
pub mod Container
pub mod Ranges
pub mod Sorted
pub mod Stable
use race_link_host.Prelude.{
  ℕ, zero, suc, ◌+◌, ◌-◌, ◌*◌, ◌/◌, ◌%◌, ◌≤◌, ◌<◌, ◌≡◌, refl, sym, ap, ◌∙◌, ◌≢◌, ◌↔◌, ◌⊎◌, inl, inr,
  Bool, true, false, not, ◌&&◌, ◌||◌, Option, none, some, List, [], ◌∷◌, ◌++◌, map, arith, str_eq,
  eq_iff, String, ltb, leb, ◌==◌, ==_iff, lt→leb_false, if◌then◌else◌, Bool-cases, Option-cases,
  get_or, is_some, length, take, drop, keep_if, any_of, all_of, length-append, length-map,
  length-keep_if, All, Within, Within-left, Within-right, Within-append, append-eq-nil, sum,
  sum-append, ℤ, pos, negsuc, pos_part, neg_part, sub_ℕ, ◌+ℤ◌, ◌*ℤ◌, ◌≤ℤ◌, leb_ℤ, eqb_ℤ, distance,
  mask, clamp, clamp_bounds, clamp_id, mask-byte-lt, Error, value_error, key_error, struct_error,
  index_error, assertion_error, Result, ok, err, ◌>>=◌, ◌>>◌, require, or_raise, map_ok,
  map_ok-eq-map, lower_eq, &&-parts, ||-parts, not-parts, append_nil, append_assoc, take_whole,
  if-both, if-cases, if-true, if-false, WhenOk, WhenOk-of, WhenOk-value, WhenOk-mono, WhenOk-if,
  WhenOk-require, WhenOk-bind, WhenOk-map_ok, All-append, All-map,
}
use race_link_host.Formula.{OffsetSpec}
use race_link_host.Dispatch.Action.{Target, to_all, to_groups, to_addr, other_kind_target}

-- A JSON document without fractions.
mutual
  pub data Json : Type 0 where
    null : Json
    boolean : Bool → Json
    integer : ℤ → Json
    text : String → Json
    array : Elements → Json
    object : Members → Json

  pub data Elements : Type 0 where
    no_elements : Elements
    element : Json → Elements → Elements

  pub data Members : Type 0 where
    no_members : Members
    member : String → Json → Members → Members

-- `raw.get(key)`, and `raw.get(key, default)`
abbrev pub field_or : Json → String → Members → Json
field_or default key no_members = default
field_or default key (member k value entries) =
    let rest = field_or default key entries in if str_eq key k then value else rest

abbrev pub field : String → Members → Json
field key entries = field_or null key entries

abbrev pub is_text : String → Json → Bool
is_text name (text s) = str_eq s name
is_text name _ = false

abbrev pub group_id_max : ℤ
group_id_max = pos 254

abbrev pub is_within : ℤ → ℤ → ℤ → Bool
is_within lo hi v = leb_ℤ lo v && leb_ℤ v hi

unfoldable pub insert : ℤ → List ℤ → List ℤ
insert v [] = v ∷ []
insert v (x ∷ xs) = let rest = insert v xs in if leb_ℤ v x then v ∷ x ∷ xs else x ∷ rest

-- `ids.sort()`
unfoldable pub sort : List ℤ → List ℤ
sort [] = []
sort (x ∷ xs) = insert x (sort xs)

module _ (int_of_text : String → Option ℤ) where
  -- `int(raw)`
  abbrev pub read_int : Json → Option ℤ
  read_int (integer n) = some n
  read_int (boolean b) = some (if b then pos 1 else pos 0)
  read_int (text s) = int_of_text s
  read_int _ = none

  abbrev pub within_or_raise : ℤ → ℤ → Option ℤ → Result ℤ
  within_or_raise lo hi none = err value_error
  within_or_raise lo hi (some v) = if is_within lo hi v then ok v else err value_error

  unfoldable pub validate_int : ℤ → ℤ → Json → Result ℤ
  validate_int lo hi raw = within_or_raise lo hi (read_int raw)

  abbrev pub single_group : Option ℤ → Members → Json
  single_group none entries = object entries
  single_group (some v) entries = object (
      member "kind" (text "groups")
        (member "value" (array (element (integer v) no_elements)) no_members))

  unfoldable pub migrate_legacy_target : Json → Json
  migrate_legacy_target (object entries) =
      let kind = field "kind" entries in
      if is_text "scope" kind
      then object (member "kind" (text "broadcast") no_members)
      else if is_text "group" kind
      then single_group (read_int (field "value" entries)) entries
      else object entries
  migrate_legacy_target raw = raw

  -- The loop over the group ids: each is an integer in range that has not been seen.
  unfoldable pub group_ids : List ℤ → Elements → Result (List ℤ)
  group_ids seen no_elements = ok []
  group_ids seen (element raw rest) = do
    v ← validate_int (pos 0) group_id_max raw
    require (not (any_of (eqb_ℤ v) seen)) value_error
    ids ← group_ids (v ∷ seen) rest
    ok (v ∷ ids)

  unfoldable pub groups_target : Json → Result Target
  groups_target (array (element raw rest)) = do
    ids ← group_ids [] (element raw rest)
    ok (to_groups (sort ids))
  groups_target _ = err value_error

  module _ (strip_upper : String → String) (is_mac12 : String → Bool) where
    unfoldable pub device_target : Json → Result Target
    device_target (text s) =
        let v = strip_upper s in if is_mac12 v then ok (to_addr v) else err value_error
    device_target _ = err value_error

    unfoldable pub current_target : Json → Result Target
    current_target (object entries) =
        let kind = field "kind" entries in
        if is_text "broadcast" kind
        then ok to_all
        else if is_text "groups" kind
        then groups_target (field "value" entries)
        else if is_text "device" kind
        then device_target (field "value" entries)
        else err value_error
    current_target _ = err value_error

    unfoldable pub canonical_target : Json → Result Target
    canonical_target raw = current_target (migrate_legacy_target raw)

    -- A container is not for a single device.
    abbrev pub refuse_device : Target → Result Target
    refuse_device (to_addr v) = err value_error
    refuse_device target = ok target

    unfoldable pub canonical_offset_group_container_target : Json → Result Target
    canonical_offset_group_container_target raw = canonical_target raw >>= refuse_device

    -- `none` stands for the container that addresses all groups.
    abbrev pub subset_of : Option (List ℤ) → Target → Result Target
    subset_of (some parent) (to_groups ids) =
        if all_of (λ v. any_of (eqb_ℤ v) parent) ids then ok (to_groups ids) else err value_error
    subset_of parent target = ok target

    unfoldable pub canonical_offset_group_child_target : Option (List ℤ) → Json → Result Target
    canonical_offset_group_child_target parent_groups raw =
        canonical_target raw >>= subset_of parent_groups
