-- ===== src/Scene/Scope.antt =====
-- racelink/services/scene_network_scope.py: the networks that a scene's broadcasts reach.
pub mod Reach
pub mod Touches
use race_link_host.Prelude.{
  ℕ, zero, suc, Bool, true, false, not, ◌&&◌, ◌||◌, Option, none, some, List, [], ◌∷◌, ◌++◌, str_eq,
  get_or, String, if◌then◌else◌, keep_if, any_of, ℤ, mask,
}
use race_link_host.Boundary.{Member, Group, bound_network}
use race_link_host.Dispatch.Action.{
  Target, to_all, to_groups, to_addr, other_kind_target, Action, action, Actions, no_actions,
  next_action,
}

-- What the controller's repositories answer: the ids of the networks, if there is a repository for
-- them (one that raises has none), the groups in their order, and the device of an address.
pub record Fleet : Type 0 where
  pub network_repository : Option (List String)
  pub groups : List Group
  pub device_of : String → Option Member

-- `scene["network_scope"]`
pub data NetworkScope : Type 0 where
  auto_scope : NetworkScope
  explicit_scope : List String → NetworkScope

pub record Scene : Type 0 where
  pub network_scope : NetworkScope
  pub stop_on_error : Bool
  pub actions : List Action

abbrev pub member_network : Option Member → Option String
member_network none = none
member_network (some dev) = bound_network dev.network_id

abbrev pub network_id_from_device : Fleet → String → Option String
network_id_from_device fleet addr = member_network (fleet.device_of addr)

-- `groups[i]`, where `i` is in range.
abbrev pub group_at : ℕ → List Group → Option Group
group_at n [] = none
group_at zero (g ∷ gs) = some g
group_at (suc n) (g ∷ gs) = group_at n gs

abbrev pub group_network : Option Group → Option String
group_network none = none
group_network (some g) = bound_network g.network_id

unfoldable pub network_id_from_group : Fleet → ℤ → Option String
network_id_from_group fleet group_id = group_network (group_at (mask 256 group_id) fleet.groups)

abbrev pub is_named : String → Bool
is_named s = not (str_eq s "")

abbrev pub listed_networks : Fleet → List String
listed_networks fleet = get_or fleet.network_repository []

unfoldable pub all_known_network_ids : Fleet → List String
all_known_network_ids fleet = keep_if is_named (listed_networks fleet)

abbrev pub to_list : Option String → List String
to_list none = []
to_list (some nid) = nid ∷ []

abbrev pub group_networks : Fleet → List ℤ → List String
group_networks fleet [] = []
group_networks fleet (g ∷ gs) = to_list (network_id_from_group fleet g) ++ group_networks fleet gs

-- `parent_scope`, if the target is that of a child action.
unfoldable pub network_ids_for_target : Fleet → Option (List String) → Target → List String
network_ids_for_target fleet (some parent_scope) to_all = parent_scope
network_ids_for_target fleet none to_all = all_known_network_ids fleet
network_ids_for_target fleet parent (to_groups value) = group_networks fleet value
network_ids_for_target fleet parent (to_addr addr) =
    if str_eq addr "" then [] else to_list (network_id_from_device fleet addr)
network_ids_for_target fleet parent other_kind_target = []

abbrev pub is_listed : String → List String → Bool
is_listed s ids = any_of (str_eq s) ids

-- `_add`
unfoldable pub add_id : List String → String → List String
add_id ordered nid = if str_eq nid "" || is_listed nid ordered then ordered else ordered ++ nid ∷ []

abbrev pub add_all : List String → List String → List String
add_all ordered [] = ordered
add_all ordered (nid ∷ nids) = add_all (add_id ordered nid) nids

abbrev pub own_networks : Fleet → Option (List String) → Option Target → List String
own_networks fleet parent none = []
own_networks fleet parent (some target) = network_ids_for_target fleet parent target

abbrev pub child_scope : Fleet → Option (List String) → Option Target → Option (List String)
child_scope fleet parent none = parent
child_scope fleet parent (some target) = some (network_ids_for_target fleet parent target)

unfoldable mutual
  pub walk : Fleet → Option (List String) → Action → List String → List String
  walk fleet parent (action a children) ordered =
      walk_children fleet (child_scope fleet parent a.target) children
        (add_all ordered (own_networks fleet parent a.target))

  pub walk_children : Fleet → Option (List String) → Actions → List String → List String
  walk_children fleet parent no_actions ordered = ordered
  walk_children fleet parent (next_action a rest) ordered =
      walk_children fleet parent rest (walk fleet parent a ordered)

abbrev pub walk_actions : Fleet → List Action → List String → List String
walk_actions fleet [] ordered = ordered
walk_actions fleet (a ∷ actions) ordered = walk_actions fleet actions (walk fleet none a ordered)

abbrev pub is_empty : List String → Bool
is_empty [] = true
is_empty (s ∷ ids) = false

-- A named id that is known, or any named id if no network is known.
abbrev pub is_kept : List String → String → Bool
is_kept known s = is_named s && (is_empty known || is_listed s known)

-- The loop over an explicit scope.
unfoldable pub keep_known : List String → List String → List String → List String
keep_known known out [] = out
keep_known known out (s ∷ ids) =
    keep_known known (if is_kept known s && not (is_listed s out) then out ++ s ∷ [] else out) ids

unfoldable pub scene_network_ids : Fleet → Scene → List String
scene_network_ids fleet scene = elim scene.network_scope [
  | explicit_scope ids ↦ keep_known (all_known_network_ids fleet) [] ids
  | auto_scope ↦ walk_actions fleet scene.actions []
]
