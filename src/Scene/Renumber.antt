-- ===== src/Scene/Renumber.antt =====
-- racelink/services/scenes_service.py: rewriting the group ids of stored actions after a group has
-- been deleted (`_renumber_action`) or the groups have been sorted (`_remap_action`), two walks that
-- differ in the rule for one id, here the parameter `shift`.
pub mod Image
pub mod OnePerGroup
pub mod Positions
pub mod Rewritten
use race_link_host.Prelude.{
  ℕ, zero, suc, ◌+◌, ◌-◌, ◌*◌, ◌/◌, ◌%◌, ◌≤◌, ◌<◌, ◌≡◌, refl, sym, ap, ◌∙◌, ◌≢◌, ◌↔◌, ◌⊎◌, inl, inr,
  Bool, true, false, not, ◌&&◌, ◌||◌, Option, none, some, List, [], ◌∷◌, ◌++◌, map, arith, str_eq,
  eq_iff, String, ltb, leb, ◌==◌, ==_iff, lt→leb_false, if◌then◌else◌, Bool-cases, Option-cases,
  get_or, is_some, length, take, drop, keep_if, any_of, all_of, length-append, length-map,
  length-keep_if, All, Within, Within-left, Within-right, Within-append, append-eq-nil, sum,
  sum-append, ℤ, pos, negsuc, pos_part, neg_part, sub_ℕ, ◌+ℤ◌, ◌*ℤ◌, ◌≤ℤ◌, leb_ℤ, eqb_ℤ, distance,
  mask, clamp, clamp_bounds, clamp_id, mask-byte-lt, Error, value_error, key_error, struct_error,
  index_error, assertion_error, Result, ok, err, ◌>>=◌, ◌>>◌, require, or_raise, map_ok,
  map_ok-eq-map, lower_eq, &&-parts, ||-parts, not-parts, append_nil, append_assoc, take_whole,
  if-both, if-cases, if-true, if-false, WhenOk, WhenOk-of, WhenOk-value, WhenOk-mono, WhenOk-if,
  WhenOk-require, WhenOk-bind, WhenOk-map_ok, All-append, All-map,
}
use race_link_host.Formula.{OffsetSpec}
use race_link_host.Dispatch.Op.{
  ActionKind, delay, sync, offset_group, rl_preset, wled_preset, rl_effect, startblock, other_kind,
}
use race_link_host.Dispatch.Action.{
  Target, to_all, to_groups, to_addr, other_kind_target, ActionFields, Action, action, Actions,
  no_actions, next_action,
}

unfoldable pub shift_group_value : ℤ → ℤ → ℤ
shift_group_value value deleted_gid =
    if eqb_ℤ value deleted_gid
    then pos 0
    else if leb_ℤ value deleted_gid
    then value
    else value +ℤ negsuc 0

-- `mapping.get(value, value)`; a mapping is a list of its items.
unfoldable pub map_group_value : ℤ → List (ℤ × ℤ) → ℤ
map_group_value value [] = value
map_group_value value (item ∷ mapping) =
    let rest = map_group_value value mapping in if eqb_ℤ item.0 value then item.1 else rest

abbrev pub is_seen : ℤ → List ℤ → Bool
is_seen g seen = any_of (eqb_ℤ g) seen

-- `seen.add(g)`
abbrev pub add_seen : ℤ → List ℤ → List ℤ
add_seen g seen = if is_seen g seen then seen else g ∷ seen

-- The loop that keeps the first of each id.
unfoldable pub dedup : List ℤ → List ℤ → List ℤ
dedup seen [] = []
dedup seen (g ∷ ids) =
    let rest = dedup (add_seen g seen) ids in if is_seen g seen then rest else g ∷ rest

-- `deduped == list(raw_value)`
abbrev pub same_ids : List ℤ → List ℤ → Bool
same_ids [] [] = true
same_ids (x ∷ xs) (y ∷ ys) = eqb_ℤ x y && same_ids xs ys
same_ids [] (y ∷ ys) = false
same_ids (x ∷ xs) [] = false

abbrev pub is_explicit_mode : Option String → Bool
is_explicit_mode none = false
is_explicit_mode (some name) = str_eq name "explicit"

abbrev pub is_container : ActionKind → Bool
is_container offset_group = true
is_container _ = false

module _ (shift : ℤ → ℤ) where
  abbrev pub shift_ids : List ℤ → List ℤ
  shift_ids ids = dedup [] (map shift ids)

  unfoldable pub shift_target_groups_list : Target → Target × Bool
  shift_target_groups_list (to_groups ids) =
      let deduped = shift_ids ids in
      if same_ids deduped ids then (to_groups ids, false) else (to_groups deduped, true)
  shift_target_groups_list target = (target, false)

  abbrev pub shift_target : Option Target → Option Target × Bool
  shift_target none = (none, false)
  shift_target (some target) =
      let shifted = shift_target_groups_list target in (some shifted.0, shifted.1)

  -- The loop over the entries of an explicit block: the new entries, and whether any differs.
  unfoldable pub shift_values : List ℤ → List (ℤ × ℤ) → List (ℤ × ℤ) × Bool
  shift_values seen [] = ([], false)
  shift_values seen (entry ∷ values) =
      let g = shift entry.0 in
      let rest = shift_values (add_seen g seen) values in
      (
        if is_seen g seen then rest.0 else (g, entry.1) ∷ rest.0,
        not (eqb_ℤ g entry.0) || is_seen g seen || rest.1,
      )

  unfoldable pub shift_offset_block : OffsetSpec → OffsetSpec × Bool
  shift_offset_block offset =
      let shifted = shift_values [] offset.values in
      if is_explicit_mode offset.mode && shifted.1
      then (record offset { values = shifted.0 }, true)
      else (offset, false)

  abbrev pub shift_offset : Option OffsetSpec → Option OffsetSpec × Bool
  shift_offset none = (none, false)
  shift_offset (some offset) =
      let shifted = shift_offset_block offset in (some shifted.0, shifted.1)

  -- The fields of an action, given whether its child actions have changed.
  unfoldable pub shift_fields : ActionFields → Bool → ActionFields × Bool
  shift_fields a children_changed =
      let target = shift_target a.target in
      let offset = if is_container a.kind then shift_offset a.offset else (a.offset, false) in
      (record a { target = target.0; offset = offset.0 }, target.1 || children_changed || offset.1)

  -- The rewritten action, and whether anything has changed.
  unfoldable mutual
    pub rewrite_action : Action → Action × Bool
    rewrite_action (action a children) =
        let rewritten = rewrite_children children in
        let fields = shift_fields a (is_container a.kind && rewritten.1) in
        if fields.1
        then (action fields.0 (if is_container a.kind then rewritten.0 else children), true)
        else (action a children, false)

    pub rewrite_children : Actions → Actions × Bool
    rewrite_children no_actions = (no_actions, false)
    rewrite_children (next_action a children) =
        let first = rewrite_action a in
        let rest = rewrite_children children in (next_action first.0 rest.0, first.1 || rest.1)

unfoldable pub renumber_action : Action → ℤ → Action × Bool
renumber_action a deleted_gid = rewrite_action (λ value. shift_group_value value deleted_gid) a

unfoldable pub remap_action : Action → List (ℤ × ℤ) → Action × Bool
remap_action a mapping = rewrite_action (λ value. map_group_value value mapping) a
