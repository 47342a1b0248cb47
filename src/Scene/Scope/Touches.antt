-- ===== src/Scene/Scope/Touches.antt =====
-- The networks that a target or an action touches, described without the walk that collects them.
use race_link_host.Prelude.{
  ◌≡◌, refl, sym, ap, ◌∙◌, ◌≢◌, ◌↔◌, ◌⊎◌, inl, inr, Bool, true, false, not, Option, none, some,
  List, [], ◌∷◌, ◌++◌, str_eq, eq_iff, String, if◌then◌else◌, Bool-cases, keep_if, Within,
  Within-left, Within-right, Within-append, ℤ, mask,
}
use race_link_host.Boundary.{Member, Group, bound_network}
use race_link_host.Dispatch.Action.{
  Target, to_all, to_groups, to_addr, other_kind_target, Action, action, Actions, no_actions,
  next_action,
}
use race_link_host.Scene.Scope.{
  Fleet, listed_networks, group_at, member_network, group_network, network_id_from_device,
  network_id_from_group, is_named, all_known_network_ids, to_list, group_networks,
  network_ids_for_target, own_networks, child_scope,
}

-- The ids that pass a test are those that are listed and pass it.
pub Within-keep_if :
    (p : String → Bool) (x : String) (xs : List String)
    → Within x (keep_if p xs) ↔ (Within x xs × (p x ≡ true))
Within-keep_if p x [] = (λ w. absurd w, λ w. absurd w.0)
Within-keep_if p x (y ∷ ys) = elim (Bool-cases (p y)) [
  | inl kept ↦ rw kept (
    λ w. elim w [
      | inl same ↦ (inl same, ap p same ∙ kept)
      | inr later ↦ let h = (Within-keep_if p x ys).0 later in (inr h.0, h.1)
    ],
    λ w. elim w.0 [
      | inl same ↦ inl same
      | inr later ↦ inr ((Within-keep_if p x ys).1 (later, w.1))
    ],
  )
  | inr dropped ↦ rw dropped (
    λ w. let h = (Within-keep_if p x ys).0 w in (inr h.0, h.1),
    λ w. elim w.0 [
      | inl same ↦ absurd (cc (sym (w.1) ∙ ap p same ∙ dropped))
      | inr later ↦ (Within-keep_if p x ys).1 (later, w.1)
    ],
  )
]

abbrev GroupIsIn : String → Option Group → Type 0
GroupIsIn x none = ⊥
GroupIsIn x (some g) = g.network_id ≡ some x

abbrev DeviceIsIn : String → Option Member → Type 0
DeviceIsIn x none = ⊥
DeviceIsIn x (some dev) = dev.network_id ≡ some x

-- One of the groups stands in the network.
abbrev AnyGroupIsIn : String → List Group → List ℤ → Type 0
AnyGroupIsIn x groups [] = ⊥
AnyGroupIsIn x groups (g ∷ ids) =
    GroupIsIn x (group_at (mask 256 g) groups) ⊎ AnyGroupIsIn x groups ids

-- The network is touched by a target that stands inside the targets `outer`, from the inside out: a
-- broadcast touches what the target around it does, and every network if there is none around it.
abbrev pub TargetTouches : Fleet → List Target → Target → String → Type 0
TargetTouches fleet [] to_all x = Within x (listed_networks fleet)
TargetTouches fleet (around ∷ outer) to_all x = TargetTouches fleet outer around x
TargetTouches fleet [] (to_groups ids) x = AnyGroupIsIn x fleet.groups ids
TargetTouches fleet (around ∷ outer) (to_groups ids) x = AnyGroupIsIn x fleet.groups ids
TargetTouches fleet [] (to_addr addr) x = (addr ≢ "") × DeviceIsIn x (fleet.device_of addr)
TargetTouches fleet (around ∷ outer) (to_addr addr) x =
    (addr ≢ "") × DeviceIsIn x (fleet.device_of addr)
TargetTouches fleet [] other_kind_target x = ⊥
TargetTouches fleet (around ∷ outer) other_kind_target x = ⊥

abbrev pub OwnTouches : Fleet → List Target → Option Target → String → Type 0
OwnTouches fleet outer none x = ⊥
OwnTouches fleet outer (some t) x = TargetTouches fleet outer t x

-- The targets around the children of an action.
abbrev pub around_children : Option Target → List Target → List Target
around_children none outer = outer
around_children (some t) outer = t ∷ outer

-- An action touches what its target does, and what its children do.
abbrev mutual
  pub Touches : Fleet → List Target → Action → String → Type 0
  Touches fleet outer (action a children) x =
      OwnTouches fleet outer a.target x
      ⊎ ChildrenTouch fleet (around_children a.target outer) children x

  pub ChildrenTouch : Fleet → List Target → Actions → String → Type 0
  ChildrenTouch fleet outer no_actions x = ⊥
  ChildrenTouch fleet outer (next_action a children) x =
      Touches fleet outer a x ⊎ ChildrenTouch fleet outer children x

abbrev pub AnyTouches : Fleet → List Action → String → Type 0
AnyTouches fleet [] x = ⊥
AnyTouches fleet (a ∷ actions) x = Touches fleet [] a x ⊎ AnyTouches fleet actions x

bound_iff :
    (x : String) (o : Option String) → x ≢ "" → Within x (to_list (bound_network o)) ↔ (o ≡ some x)
bound_iff x none n = (λ w. absurd w, λ e. absurd (cc e))
bound_iff x (some s) n = elim (Bool-cases (str_eq s "")) [
  | inl blank ↦ rw blank (λ w. absurd w, λ e. absurd (n (same e ∙ (eq_iff s "").0 blank)))
  | inr named ↦
      rw named (λ w. elim w [ inl e ↦ ap some (sym e) | inr z ↦ absurd z ], λ e. inl (same e))
]
  where
    same : some s ≡ some x → x ≡ s
    same e = cc e

module _ (fleet : Fleet) (x : String) (n : x ≢ "") where
  group_iff : (o : Option Group) → Within x (to_list (group_network o)) ↔ GroupIsIn x o
  group_iff none = (λ w. absurd w, λ e. absurd e)
  group_iff (some g) = bound_iff x g.network_id n

  device_iff : (o : Option Member) → Within x (to_list (member_network o)) ↔ DeviceIsIn x o
  device_iff none = (λ w. absurd w, λ e. absurd e)
  device_iff (some dev) = bound_iff x dev.network_id n

  groups_iff :
      (ids : List ℤ) → Within x (group_networks fleet ids) ↔ AnyGroupIsIn x fleet.groups ids
  unfolding network_id_from_group
  groups_iff [] = (λ w. absurd w, λ e. absurd e)
  groups_iff (g ∷ ids) =
      let own = to_list (network_id_from_group fleet g) in
      let first = group_iff (group_at (mask 256 g) fleet.groups) in
      let rest = groups_iff ids in
      (
        λ w. elim (Within-append x own (group_networks fleet ids) w) [
          | inl v ↦ inl (first.0 v)
          | inr v ↦ inr (rest.0 v)
        ],
        λ t. elim t [
          | inl v ↦ Within-left x own (group_networks fleet ids) (first.1 v)
          | inr v ↦ Within-right x own (group_networks fleet ids) (rest.1 v)
        ],
      )

  known_iff : Within x (all_known_network_ids fleet) ↔ Within x (listed_networks fleet)
  unfolding all_known_network_ids
  known_iff = (
    λ w. ((Within-keep_if is_named x (listed_networks fleet)).0 w).0,
    λ w. (Within-keep_if is_named x (listed_networks fleet)).1 (w, named (str_eq x "") refl),
  )
    where
      named : (b : Bool) → str_eq x "" ≡ b → not (str_eq x "") ≡ true
      named true e = absurd (n ((eq_iff x "").0 e))
      named false e = ap not e

  addr_iff :
      (addr : String)
      → Within x (if str_eq addr "" then [] else to_list (network_id_from_device fleet addr))
        ↔ ((addr ≢ "") × DeviceIsIn x (fleet.device_of addr))
  addr_iff addr = elim (Bool-cases (str_eq addr "")) [
    | inl blank ↦ rw blank (λ w. absurd w, λ h. absurd (h.0 ((eq_iff addr "").0 blank)))
    | inr given ↦ rw given (
      λ w. (λ e. cc (sym given ∙ (eq_iff addr "").1 e), (device_iff (fleet.device_of addr)).0 w),
      λ h. (device_iff (fleet.device_of addr)).1 h.1,
    )
  ]

  -- The resolved networks of the target around, which the walk hands to the children.
  abbrev pub IsScopeOf : List Target → Option (List String) → Type 0
  IsScopeOf [] parent = parent ≡ none
  IsScopeOf (around ∷ outer) parent =
      (p : List String) × (parent ≡ some p) × (Within x p ↔ TargetTouches fleet outer around x)

  pub target_iff :
      (outer : List Target) (parent : Option (List String)) (t : Target)
      → IsScopeOf outer parent
      → Within x (network_ids_for_target fleet parent t) ↔ TargetTouches fleet outer t x
  unfolding network_ids_for_target
  target_iff [] parent to_all s = rw s known_iff
  target_iff (around ∷ outer) parent to_all s = rw (s.1) (s.2)
  target_iff [] none (to_groups ids) s = groups_iff ids
  target_iff [] (some p) (to_groups ids) s = groups_iff ids
  target_iff (around ∷ outer) none (to_groups ids) s = groups_iff ids
  target_iff (around ∷ outer) (some p) (to_groups ids) s = groups_iff ids
  target_iff [] none (to_addr addr) s = addr_iff addr
  target_iff [] (some p) (to_addr addr) s = addr_iff addr
  target_iff (around ∷ outer) none (to_addr addr) s = addr_iff addr
  target_iff (around ∷ outer) (some p) (to_addr addr) s = addr_iff addr
  target_iff [] none other_kind_target s = (λ w. absurd w, λ h. absurd h)
  target_iff [] (some p) other_kind_target s = (λ w. absurd w, λ h. absurd h)
  target_iff (around ∷ outer) none other_kind_target s = (λ w. absurd w, λ h. absurd h)
  target_iff (around ∷ outer) (some p) other_kind_target s = (λ w. absurd w, λ h. absurd h)

  pub own_iff :
      (outer : List Target) (parent : Option (List String)) (t : Option Target)
      → IsScopeOf outer parent
      → Within x (own_networks fleet parent t) ↔ OwnTouches fleet outer t x
  own_iff outer parent none s = (λ w. absurd w, λ h. absurd h)
  own_iff outer parent (some t) s = target_iff outer parent t s

  pub child_scope-IsScopeOf :
      (outer : List Target) (parent : Option (List String)) (t : Option Target)
      → IsScopeOf outer parent
      → IsScopeOf (around_children t outer) (child_scope fleet parent t)
  child_scope-IsScopeOf outer parent none s = s
  child_scope-IsScopeOf outer parent (some t) s =
      (network_ids_for_target fleet parent t, refl, target_iff outer parent t s)

-- Membership in an appended list, from that in its parts.
pub append_iff :
    (x : String) (xs ys : List String) (P Q : Type 0)
    → Within x xs ↔ P
    → Within x ys ↔ Q
    → Within x (xs ++ ys) ↔ (P ⊎ Q)
append_iff x xs ys P Q f g = (
  λ w. elim (Within-append x xs ys w) [ inl v ↦ inl (f.0 v) | inr v ↦ inr (g.0 v) ],
  λ t. elim t [ inl v ↦ Within-left x xs ys (f.1 v) | inr v ↦ Within-right x xs ys (g.1 v) ],
)
