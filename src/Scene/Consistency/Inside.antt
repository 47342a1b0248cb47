-- ===== src/Scene/Consistency/Inside.antt =====
-- A scene that is accepted reaches, when it is played, every network that its actions target.
use race_link_host.Prelude.{
  ℕ, suc, ◌≡◌, refl, sym, ◌∙◌, ◌≢◌, ◌⊎◌, inl, inr, Bool, false, Option, none, some, List, [], ◌∷◌,
  str_eq, eq_iff, String, Bool-cases, get_or, is_some, keep_if, All, Within, ℤ, mask, if-both,
  if-cases, if-true, All-append,
}
use race_link_host.Broadcast.Targets.{seen_iff}
use race_link_host.Dispatch.Action.{
  Target, to_all, to_groups, to_addr, other_kind_target, Action, action, Actions, no_actions,
  next_action,
}
use race_link_host.Scene.Scope.{
  Fleet, explicit_scope, Scene, all_known_network_ids, is_named, is_listed, network_ids_for_target,
  scene_network_ids,
}
use race_link_host.Scene.Scope.Reach.{IsKnown, scene_network_ids-Reached}
use race_link_host.Boundary.{Member, Group, bound_network}
use race_link_host.Scene.Scope.{
  to_list, group_network, group_networks, group_at, member_network, network_id_from_group,
  network_id_from_device, is_named,
}
use race_link_host.Scene.Consistency.{
  ScopeViolation, unknown_ids, unknown_network_id, not_in, or_else, violation_if, check_networks,
  check_target, check_action, check_children, check_actions, validate_explicit,
  validate_scene_scope_consistency,
}

or_else-none : (a b : Option ScopeViolation) → or_else a b ≡ none → (a ≡ none) × (b ≡ none)
or_else-none none b h = (refl, h)
or_else-none (some v) b h = absurd (cc h)

violation_if-none :
    (nids : List String) (v : ScopeViolation) → violation_if nids v ≡ none → nids ≡ []
violation_if-none [] v h = refl
violation_if-none (nid ∷ nids) v h = absurd (cc h)

-- Every network of the list stands in `scope`.
abbrev pub Inside : List String → List String → Type 0
Inside scope nids = All (λ nid. Within nid scope) nids

not_in-Inside : (nids scope : List String) → not_in nids scope ≡ [] → Inside scope nids
not_in-Inside [] scope h = tt
not_in-Inside (nid ∷ nids) scope h = elim (Bool-cases (is_listed nid scope)) [
  | inl listed ↦ ((seen_iff nid scope).0 listed, not_in-Inside nids scope (rw listed at h))
  | inr absent ↦ absurd (cc (rw absent at h))
]

-- The networks of a target other than a broadcast stand in `scope`.
abbrev pub TargetInside : Fleet → List String → Option Target → Type 0
TargetInside fleet scope none = Unit
TargetInside fleet scope (some to_all) = Unit
TargetInside fleet scope (some target) = Inside scope (network_ids_for_target fleet none target)

mutual
  -- So do those of an action and of all actions inside it.
  pub ActionInside : Fleet → List String → Action → Type 0
  ActionInside fleet scope (action a children) =
      TargetInside fleet scope a.target × ChildrenInside fleet scope children

  pub ChildrenInside : Fleet → List String → Actions → Type 0
  ChildrenInside fleet scope no_actions = Unit
  ChildrenInside fleet scope (next_action a rest) =
      ActionInside fleet scope a × ChildrenInside fleet scope rest

check_networks-Inside :
    (scope : List String) (index : ℕ) (resolved : List String)
    → check_networks scope index resolved ≡ none
    → Inside scope resolved
check_networks-Inside scope index resolved h =
    not_in-Inside resolved scope (violation_if-none (not_in resolved scope) _ h)

check_target-Inside :
    (fleet : Fleet) (scope : List String) (index : ℕ) (target : Option Target)
    → check_target fleet scope index target ≡ none
    → TargetInside fleet scope target
unfolding check_target
check_target-Inside fleet scope index none h = tt
check_target-Inside fleet scope index (some to_all) h = tt
check_target-Inside fleet scope index (some (to_groups value)) h =
    check_networks-Inside scope index _ h
check_target-Inside fleet scope index (some (to_addr addr)) h =
    check_networks-Inside scope index _ h
check_target-Inside fleet scope index (some other_kind_target) h =
    check_networks-Inside scope index _ h

mutual
  unfolding check_action check_children ActionInside ChildrenInside

  check_action-Inside :
      (fleet : Fleet) (scope : List String) (index : ℕ) (a : Action)
      → check_action fleet scope index a ≡ none
      → ActionInside fleet scope a
  check_action-Inside fleet scope index (action a children) h =
      let parts =
        or_else-none (check_target fleet scope index a.target)
          (check_children fleet scope index children) h in
      (
        check_target-Inside fleet scope index a.target parts.0,
        check_children-Inside fleet scope index children parts.1,
      )

  check_children-Inside :
      (fleet : Fleet) (scope : List String) (index : ℕ) (children : Actions)
      → check_children fleet scope index children ≡ none
      → ChildrenInside fleet scope children
  check_children-Inside fleet scope index no_actions h = tt
  check_children-Inside fleet scope index (next_action a rest) h =
      let parts =
        or_else-none (check_action fleet scope index a) (check_children fleet scope index rest) h in
      (
        check_action-Inside fleet scope index a parts.0,
        check_children-Inside fleet scope index rest parts.1,
      )

check_actions-Inside :
    (fleet : Fleet) (scope : List String) (index : ℕ) (actions : List Action)
    → check_actions fleet scope index actions ≡ none
    → All (ActionInside fleet scope) actions
unfolding check_actions
check_actions-Inside fleet scope index [] h = tt
check_actions-Inside fleet scope index (a ∷ actions) h =
    let parts =
      or_else-none (check_action fleet scope index a)
        (check_actions fleet scope (suc index) actions) h in
    (
      check_action-Inside fleet scope index a parts.0,
      check_actions-Inside fleet scope (suc index) actions parts.1,
    )

no_repository :
    (fleet : Fleet) → is_some fleet.network_repository ≡ false → all_known_network_ids fleet ≡ []
unfolding all_known_network_ids
no_repository fleet h = by_value fleet.network_repository h
  where
    by_value : (o : Option (List String)) → is_some o ≡ false → keep_if is_named (get_or o []) ≡ []
    by_value none h = refl
    by_value (some nids) h = absurd (cc h)

none_unknown :
    (fleet : Fleet) (ids : List String)
    → unknown_ids fleet ids ≡ []
    → (all_known_network_ids fleet ≡ []) ⊎ Inside (all_known_network_ids fleet) ids
none_unknown fleet ids h = elim (Bool-cases (is_some fleet.network_repository)) [
  | inr missing ↦ inl (no_repository fleet missing)
  | inl present ↦ inr (
      not_in-Inside ids (all_known_network_ids fleet) (
        sym (
          if-true (is_some fleet.network_repository) (not_in ids (all_known_network_ids fleet)) []
            present)
        ∙ h))
]

validate_explicit-Inside :
    (fleet : Fleet) (ids : List String) (actions : List Action)
    → validate_explicit fleet ids actions ≡ none
    → ((all_known_network_ids fleet ≡ []) ⊎ Inside (all_known_network_ids fleet) ids)
      × All (ActionInside fleet ids) actions
unfolding validate_explicit
validate_explicit-Inside fleet [] actions h = absurd (cc h)
validate_explicit-Inside fleet (nid ∷ nids) actions h =
    let unknown = unknown_ids fleet (nid ∷ nids) in
    let parts =
      or_else-none (violation_if unknown (unknown_network_id unknown (nid ∷ nids)))
        (check_actions fleet (nid ∷ nids) 0 actions) h in
    (
      none_unknown fleet (nid ∷ nids) (violation_if-none unknown _ parts.0),
      check_actions-Inside fleet (nid ∷ nids) 0 actions parts.1,
    )

abbrev AreNamed : List String → Type 0
AreNamed nids = All (λ nid. nid ≢ "") nids

bound_named : (o : Option String) → AreNamed (to_list (bound_network o))
bound_named none = tt
bound_named (some nid) =
    if-cases (λ o. AreNamed (to_list o)) (str_eq nid "") none (some nid) (λ h. tt)
      (λ h. (λ e. cc (sym h ∙ (eq_iff nid "").1 e), tt))

group_named : (o : Option Group) → AreNamed (to_list (group_network o))
group_named none = tt
group_named (some g) = bound_named g.network_id

groups_named :
    (fleet : Fleet) (value : List ℤ)
    → AreNamed (network_ids_for_target fleet none (to_groups value))
unfolding network_ids_for_target network_id_from_group
groups_named fleet [] = tt
groups_named fleet (g ∷ value) =
    All-append (λ nid. nid ≢ "") (to_list (network_id_from_group fleet g))
      (group_networks fleet value) (group_named (group_at (mask 256 g) fleet.groups))
      (groups_named fleet value)

member_named : (o : Option Member) → AreNamed (to_list (member_network o))
member_named none = tt
member_named (some dev) = bound_named dev.network_id

addr_named :
    (fleet : Fleet) (addr : String) → AreNamed (network_ids_for_target fleet none (to_addr addr))
unfolding network_ids_for_target
addr_named fleet addr =
    if-both AreNamed (str_eq addr "") [] (to_list (network_id_from_device fleet addr)) tt
      (member_named (fleet.device_of addr))

module _ (fleet : Fleet) (small large : List String)
    (grows : (x : String) → x ≢ "" → Within x small → Within x large) where
  Inside-grows : (nids : List String) → AreNamed nids → Inside small nids → Inside large nids
  Inside-grows [] n h = tt
  Inside-grows (nid ∷ nids) n h = (grows nid n.0 h.0, Inside-grows nids n.1 h.1)

  TargetInside-grows :
      (target : Option Target) → TargetInside fleet small target → TargetInside fleet large target
  unfolding network_ids_for_target
  TargetInside-grows none h = tt
  TargetInside-grows (some to_all) h = tt
  TargetInside-grows (some (to_groups value)) h = Inside-grows _ (groups_named fleet value) h
  TargetInside-grows (some (to_addr addr)) h = Inside-grows _ (addr_named fleet addr) h
  TargetInside-grows (some other_kind_target) h = tt

  mutual
    unfolding ActionInside ChildrenInside

    ActionInside-grows : (a : Action) → ActionInside fleet small a → ActionInside fleet large a
    ActionInside-grows (action a children) h =
        (TargetInside-grows a.target h.0, ChildrenInside-grows children h.1)

    ChildrenInside-grows :
        (children : Actions)
        → ChildrenInside fleet small children
        → ChildrenInside fleet large children
    ChildrenInside-grows no_actions h = tt
    ChildrenInside-grows (next_action a rest) h =
        (ActionInside-grows a h.0, ChildrenInside-grows rest h.1)

  AllInside-grows :
      (actions : List Action)
      → All (ActionInside fleet small) actions
      → All (ActionInside fleet large) actions
  AllInside-grows [] h = tt
  AllInside-grows (a ∷ actions) h = (ActionInside-grows a h.0, AllInside-grows actions h.1)

Inside-Within :
    (scope nids : List String) → Inside scope nids → (x : String) → Within x nids → Within x scope
Inside-Within scope [] h x w = absurd w
Inside-Within scope (nid ∷ nids) h x (inl same) = rw same h.0
Inside-Within scope (nid ∷ nids) h x (inr w) = Inside-Within scope nids h.1 x w

explicit_in_scope :
    (fleet : Fleet) (ids : List String) (stop : Bool) (actions : List Action)
    → validate_explicit fleet ids actions ≡ none
    → All
        (ActionInside fleet (
          scene_network_ids fleet (record {
            network_scope = explicit_scope ids;
            stop_on_error = stop;
            actions = actions;
          })))
        actions
explicit_in_scope fleet ids stop actions h =
    let scene : Scene = record {
      network_scope = explicit_scope ids;
      stop_on_error = stop;
      actions = actions;
    } in
    let parts = validate_explicit-Inside fleet ids actions h in
    let reached = scene_network_ids-Reached fleet scene in
    AllInside-grows fleet ids (scene_network_ids fleet scene)
      (λ x n w. (reached.1 x).1 (n, (w, known x w parts.0))) actions parts.1
  where
    known :
        (x : String)
        → Within x ids
        → (all_known_network_ids fleet ≡ []) ⊎ Inside (all_known_network_ids fleet) ids
        → IsKnown (all_known_network_ids fleet) x
    known x w (inl no_networks) = inl no_networks
    known x w (inr listed) = inr (Inside-Within (all_known_network_ids fleet) ids listed x w)

-- In a scene with an explicit scope that the check accepts, every network that a target other than a
-- broadcast resolves to, also inside a container, is one that the scope has when the scene is played.
pub accepted_in_scope :
    (fleet : Fleet) (scene : Scene) (ids : List String)
    → scene.network_scope ≡ explicit_scope ids
    → validate_scene_scope_consistency fleet scene ≡ none
    → All (ActionInside fleet (scene_network_ids fleet scene)) scene.actions
unfolding validate_scene_scope_consistency scene_network_ids
accepted_in_scope fleet scene ids e h =
    rw e (explicit_in_scope fleet ids scene.stop_on_error scene.actions (rw e at h))
