-- ===== src/Scene/Collapse.antt =====
-- racelink/services/scenes_service.py: the rewriting of a target that names every known group to a
-- broadcast, when a scene is stored. The flags that say whether anything has changed only decide which
-- lists are shared, and are left out.
pub mod Refused
use race_link_host.Prelude.{
  ◌≡◌, refl, sym, ap, ◌∙◌, inl, inr, Bool, true, false, ◌||◌, Option, none, some, List, [], ◌∷◌,
  ◌++◌, map, String, if◌then◌else◌, Bool-cases, all_of, ℤ, eqb_ℤ, value_error, err, &&-parts,
  if-cases, if-true,
}
use race_link_host.Dispatch.Action.{
  Target, to_all, to_groups, to_addr, other_kind_target, Action, action, Actions, no_actions,
  next_action,
}
use race_link_host.Scene.Canonical.{object, text, Members, field}
use race_link_host.Scene.Canonical.Block.{canonical_offset_block, explicit_block}
use race_link_host.Scene.Renumber.{is_seen, is_container}
use race_link_host.Dispatch.Optimizer.Ops.{eqb_ℤ→eq}

-- `set(value).issuperset(known_set)`
abbrev pub names_all : List ℤ → List ℤ → Bool
names_all known value = all_of (λ g. is_seen g value) known

unfoldable pub collapse_groups_target : List ℤ → Target → Target
collapse_groups_target [] target = target
collapse_groups_target known (to_groups []) = to_groups []
collapse_groups_target (g ∷ known) (to_groups (v ∷ value)) =
    if names_all (g ∷ known) (v ∷ value) then to_all else to_groups (v ∷ value)
collapse_groups_target known target = target

abbrev pub collapse_target : List ℤ → Option Target → Option Target
collapse_target known none = none
collapse_target known (some target) = some (collapse_groups_target known target)

unfoldable mutual
  pub collapse_action : List ℤ → Action → Action
  collapse_action known (action a children) =
      let collapsed = collapse_children known children in
      action (record a { target = collapse_target known a.target })
        (if is_container a.kind then collapsed else children)

  pub collapse_children : List ℤ → Actions → Actions
  collapse_children known no_actions = no_actions
  collapse_children known (next_action a children) =
      next_action (collapse_action known a) (collapse_children known children)

unfoldable pub collapse_actions_to_broadcast : List Action → List ℤ → List Action
collapse_actions_to_broadcast actions [] = actions
collapse_actions_to_broadcast actions (g ∷ known) = map (collapse_action (g ∷ known)) actions

-- Whether a target reaches a group; a device is reached whatever its group.
abbrev pub reaches : ℤ → Option Target → Bool
reaches g (some to_all) = true
reaches g (some (to_groups ids)) = is_seen g ids
reaches g _ = false

-- For an action and, in order, each of its children: whether it reaches the group.
abbrev mutual
  pub reached : ℤ → Action → List Bool
  reached g (action a children) = reaches g a.target ∷ reached_children g children

  pub reached_children : ℤ → Actions → List Bool
  reached_children g no_actions = []
  reached_children g (next_action a children) = reached g a ++ reached_children g children

named :
    (known value : List ℤ) (g : ℤ)
    → is_seen g known ≡ true
    → names_all known value ≡ true
    → is_seen g value ≡ true
named [] value g k h = absurd (cc k)
named (x ∷ known) value g k h =
    let p = &&-parts (is_seen x value) (names_all known value) h in
    elim (Bool-cases (eqb_ℤ g x)) [
      | inl e ↦ ap (λ y. is_seen y value) (eqb_ℤ→eq g x e) ∙ p.0
      | inr e ↦ named known value g (ap (λ b. b || is_seen g known) (sym e) ∙ k) p.1
    ]

module _ (known : List ℤ) (g : ℤ) (k : is_seen g known ≡ true) where
  target-reaches : (t : Option Target) → reaches g (collapse_target known t) ≡ reaches g t
  unfolding collapse_groups_target
  target-reaches none = refl
  target-reaches (some t) = by_shape known k t
    where
      by_shape :
          (ks : List ℤ)
          → is_seen g ks ≡ true
          → (t : Target) → reaches g (some (collapse_groups_target ks t)) ≡ reaches g (some t)
      by_shape [] h t = refl
      by_shape (x ∷ ks) h to_all = refl
      by_shape (x ∷ ks) h (to_addr v) = refl
      by_shape (x ∷ ks) h other_kind_target = refl
      by_shape (x ∷ ks) h (to_groups []) = refl
      by_shape (x ∷ ks) h (to_groups (v ∷ value)) =
          if-cases (λ (t : Target). reaches g (some t) ≡ is_seen g (v ∷ value))
            (names_all (x ∷ ks) (v ∷ value)) to_all (to_groups (v ∷ value))
            (λ e. sym (named (x ∷ ks) (v ∷ value) g h e)) (λ e. refl)

  if_reached :
      (b : Bool) (xs ys : Actions)
      → reached_children g xs ≡ reached_children g ys
      → reached_children g (if b then xs else ys) ≡ reached_children g ys
  if_reached true xs ys e = e
  if_reached false xs ys e = refl

  mutual
    unfolding collapse_action collapse_children

    collapse-reached : (a : Action) → reached g (collapse_action known a) ≡ reached g a
    collapse-reached (action a children) =
        rw
          (
            target-reaches a.target,
            if_reached (is_container a.kind) (collapse_children known children) children
                (children-reached children),
          )
          refl

    children-reached :
        (children : Actions)
        → reached_children g (collapse_children known children) ≡ reached_children g children
    children-reached no_actions = refl
    children-reached (next_action a children) =
        rw (collapse-reached a, children-reached children) refl
