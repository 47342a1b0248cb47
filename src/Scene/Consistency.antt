-- ===== src/Scene/Consistency.antt =====
-- racelink/domain/network_boundary.py: validate_scene_scope_consistency.
pub mod Inside
use race_link_host.Prelude.{
  is_some, if◌then◌else◌, ℕ, zero, suc, ◌+◌, ◌-◌, ◌*◌, ◌/◌, ◌%◌, ◌≤◌, ◌<◌, ◌≡◌, refl, sym, ap, ◌∙◌,
  ◌≢◌, ◌↔◌, ◌⊎◌, inl, inr, Bool, true, false, not, ◌&&◌, ◌||◌, Option, none, some, List, [], ◌∷◌,
  ◌++◌, map, arith, str_eq, eq_iff, String, ltb, leb, ◌==◌, ==_iff, lt→leb_false, if◌then◌else◌,
  Bool-cases, Option-cases, get_or, is_some, length, take, drop, keep_if, any_of, all_of,
  length-append, length-map, length-keep_if, All, Within, Within-left, Within-right, Within-append,
  append-eq-nil, sum, sum-append, ℤ, pos, negsuc, pos_part, neg_part, sub_ℕ, ◌+ℤ◌, ◌*ℤ◌, ◌≤ℤ◌,
  leb_ℤ, eqb_ℤ, distance, mask, clamp, clamp_bounds, clamp_id, mask-byte-lt, Error, value_error,
  key_error, struct_error, index_error, assertion_error, Result, ok, err, ◌>>=◌, ◌>>◌, require,
  or_raise, map_ok, map_ok-eq-map, lower_eq, &&-parts, ||-parts, not-parts, append_nil,
  append_assoc, take_whole, if-both, if-true, if-false, WhenOk, WhenOk-of, WhenOk-value,
  WhenOk-mono, WhenOk-if, WhenOk-require, WhenOk-bind, WhenOk-map_ok, All-append, All-map,
}
use race_link_host.Dispatch.Action.{
  Target, to_all, to_groups, to_addr, other_kind_target, ActionFields, Action, action, Actions,
  no_actions, next_action,
}
use race_link_host.Scene.Scope.{
  Fleet, NetworkScope, auto_scope, explicit_scope, Scene, all_known_network_ids, is_listed,
  network_ids_for_target,
}

-- The codes of a SceneScopeViolation, with their details.
pub data ScopeViolation : Type 0 where
  scope_empty : ScopeViolation
  unknown_network_id : List String → List String → ScopeViolation
  scope_violation : ℕ → List String → List String → ScopeViolation

abbrev pub not_in : List String → List String → List String
not_in ids listed = keep_if (λ nid. not (is_listed nid listed)) ids

-- The first violation of two checks in a row.
abbrev pub or_else : Option ScopeViolation → Option ScopeViolation → Option ScopeViolation
or_else none next = next
or_else (some v) next = some v

abbrev pub violation_if : List String → ScopeViolation → Option ScopeViolation
violation_if [] v = none
violation_if (nid ∷ nids) v = some v

abbrev pub check_networks : List String → ℕ → List String → Option ScopeViolation
check_networks scope index resolved =
    violation_if (not_in resolved scope) (scope_violation index resolved scope)

-- A broadcast is in scope by construction.
unfoldable pub check_target : Fleet → List String → ℕ → Option Target → Option ScopeViolation
check_target fleet scope index none = none
check_target fleet scope index (some to_all) = none
check_target fleet scope index (some (to_groups value)) =
    check_networks scope index (network_ids_for_target fleet none (to_groups value))
check_target fleet scope index (some (to_addr addr)) =
    check_networks scope index (network_ids_for_target fleet none (to_addr addr))
check_target fleet scope index (some other_kind_target) =
    check_networks scope index (network_ids_for_target fleet none other_kind_target)

-- `_check_action`: the actions inside report the index of the outermost.
unfoldable mutual
  pub check_action : Fleet → List String → ℕ → Action → Option ScopeViolation
  check_action fleet scope index (action a children) =
      or_else (check_target fleet scope index a.target) (check_children fleet scope index children)

  pub check_children : Fleet → List String → ℕ → Actions → Option ScopeViolation
  check_children fleet scope index no_actions = none
  check_children fleet scope index (next_action a rest) =
      or_else (check_action fleet scope index a) (check_children fleet scope index rest)

unfoldable pub check_actions : Fleet → List String → ℕ → List Action → Option ScopeViolation
check_actions fleet scope index [] = none
check_actions fleet scope index (a ∷ actions) =
    or_else (check_action fleet scope index a) (check_actions fleet scope (suc index) actions)

-- Without a repository no id is unknown.
abbrev pub unknown_ids : Fleet → List String → List String
unknown_ids fleet ids =
    if is_some fleet.network_repository then not_in ids (all_known_network_ids fleet) else []

unfoldable pub validate_explicit : Fleet → List String → List Action → Option ScopeViolation
validate_explicit fleet [] actions = some scope_empty
validate_explicit fleet (nid ∷ nids) actions =
    let unknown = unknown_ids fleet (nid ∷ nids) in
    or_else (violation_if unknown (unknown_network_id unknown (nid ∷ nids)))
      (check_actions fleet (nid ∷ nids) 0 actions)

-- `none` is the return, a violation is raised.
unfoldable pub validate_scene_scope_consistency : Fleet → Scene → Option ScopeViolation
validate_scene_scope_consistency fleet scene = elim scene.network_scope [
  | auto_scope ↦ none
  | explicit_scope ids ↦ validate_explicit fleet ids scene.actions
]
