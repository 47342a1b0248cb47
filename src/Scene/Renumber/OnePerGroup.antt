-- ===== src/Scene/Renumber/OnePerGroup.antt =====
-- A container that has one offset for each group has one for each after a rewriting.
use race_link_host.Prelude.{
  ◌≡◌, refl, sym, ap, ◌∙◌, ◌⊎◌, inl, inr, Bool, true, false, ◌||◌, Option, none, some, List, [],
  ◌∷◌, map, arith, Bool-cases, All, ℤ, eqb_ℤ, if-both, if-cases,
}
use race_link_host.Formula.{OffsetSpec}
use race_link_host.Dispatch.Action.{
  Target, to_all, to_groups, to_addr, other_kind_target, ActionFields, Action, action, Actions,
  no_actions, next_action,
}
use race_link_host.Dispatch.Optimizer.Ops.{eqb_ℤ→eq}
use race_link_host.Scene.Renumber.{
  shift_group_value, map_group_value, is_seen, add_seen, dedup, same_ids, is_explicit_mode,
  is_container, shift_ids, shift_target_groups_list, shift_target, shift_offset, rewrite_action,
  rewrite_children, renumber_action, remap_action,
}
use race_link_host.Scene.Renumber.Rewritten.{
  same_ids→eq, ids_of, shifted_ids, shifted_values, shifted_mode, rewritten,
}
use race_link_host.Scene.Renumber.Image.{dedup_same, values-dedup}

-- An explicit block has one entry for each group of the target, in the same order.
abbrev pub IsCovered : Option Target → Option OffsetSpec → Type 0
IsCovered (some (to_groups ids)) (some offset) =
    (is_explicit_mode offset.mode ≡ false) ⊎ (ids_of offset.values ≡ ids)
IsCovered _ _ = Unit

abbrev pub IsTargetInside : List ℤ → Option Target → Type 0
IsTargetInside ids (some (to_groups chosen)) = All (λ v. is_seen v ids ≡ true) chosen
IsTargetInside ids _ = Unit

-- The children's groups are among the container's.
abbrev pub AreInside : List ℤ → Actions → Type 0
AreInside ids no_actions = Unit
AreInside ids (next_action (action c nested) children) =
    IsTargetInside ids c.target × AreInside ids children

abbrev pub IsInside : Option Target → Actions → Type 0
IsInside (some (to_groups ids)) children = AreInside ids children
IsInside _ children = Unit

-- One offset for each group, and no child outside the groups.
abbrev pub IsCoherent : Action → Type 0
IsCoherent (action a children) = IsCovered a.target a.offset × IsInside a.target children

eqb_same : (v : ℤ) → eqb_ℤ v v ≡ true
eqb_same v = ground arith

All-dedup : (P : ℤ → Type 0) (seen xs : List ℤ) → All P xs → All P (dedup seen xs)
unfolding dedup
All-dedup P seen [] h = tt
All-dedup P seen (x ∷ xs) h =
    let rest = All-dedup P (add_seen x seen) xs h.1 in
    if-both (All P) (is_seen x seen) (dedup (add_seen x seen) xs) (x ∷ dedup (add_seen x seen) xs)
      rest (h.0, rest)

module _ (shift : ℤ → ℤ) where
  shift-is_seen :
      (v : ℤ) (ids : List ℤ) → is_seen v ids ≡ true → is_seen (shift v) (map shift ids) ≡ true
  shift-is_seen v [] h = h
  shift-is_seen v (x ∷ ids) h = elim (Bool-cases (eqb_ℤ v x)) [
    | inl e ↦
        ap (λ b. b || is_seen (shift v) (map shift ids))
          (ap (λ y. eqb_ℤ (shift v) (shift y)) (sym (eqb_ℤ→eq v x e)) ∙ eqb_same (shift v))
    | inr e ↦
        or_true (eqb_ℤ (shift v) (shift x)) (is_seen (shift v) (map shift ids))
          (shift-is_seen v ids (ap (λ b. b || is_seen v ids) (sym e) ∙ h))
  ]
    where
      or_true : (a b : Bool) → b ≡ true → (a || b) ≡ true
      or_true true b e = refl
      or_true false b e = e

  shifted-AreInside :
      (ids chosen : List ℤ)
      → All (λ v. is_seen v ids ≡ true) chosen
      → All (λ v. is_seen v (shift_ids shift ids) ≡ true) (shift_ids shift chosen)
  shifted-AreInside ids chosen h =
      All-dedup (λ v. is_seen v (shift_ids shift ids) ≡ true) [] (map shift chosen) (each chosen h)
    where
      each :
          (xs : List ℤ)
          → All (λ v. is_seen v ids ≡ true) xs
          → All (λ v. is_seen v (shift_ids shift ids) ≡ true) (map shift xs)
      each [] h = tt
      each (x ∷ xs) h =
          (dedup_same (shift x) (map shift ids) ∙ shift-is_seen x ids h.0, each xs h.1)

  target_stays :
      (ids : List ℤ) (t : Option Target)
      → IsTargetInside ids t
      → IsTargetInside (shift_ids shift ids) (shift_target shift t).0
  unfolding shift_target_groups_list
  target_stays ids none h = tt
  target_stays ids (some to_all) h = tt
  target_stays ids (some (to_addr v)) h = tt
  target_stays ids (some other_kind_target) h = tt
  target_stays ids (some (to_groups chosen)) h =
      if-cases (λ (r : Target × Bool). IsTargetInside (shift_ids shift ids) (some r.0))
        (same_ids (shift_ids shift chosen) chosen) (to_groups chosen, false)
        (to_groups (shift_ids shift chosen), true)
        (λ e.
          rw (sym (same_ids→eq (shift_ids shift chosen) chosen e)) (shifted-AreInside ids chosen h))
        (λ e. shifted-AreInside ids chosen h)

  children_stay :
      (ids : List ℤ) (children : Actions)
      → AreInside ids children
      → AreInside (shift_ids shift ids) (rewrite_children shift children).0
  unfolding rewrite_children
  children_stay ids no_actions h = tt
  children_stay ids (next_action (action c nested) children) h =
      rw (rewritten shift c nested) (target_stays ids c.target h.0, children_stay ids children h.1)

  shift-IsCovered :
      (t : Option Target) (o : Option OffsetSpec)
      → IsCovered t o
      → IsCovered (shift_target shift t).0 (shift_offset shift o).0
  unfolding shift_target_groups_list
  shift-IsCovered none o h = tt
  shift-IsCovered (some to_all) o h = tt
  shift-IsCovered (some (to_addr v)) o h = tt
  shift-IsCovered (some other_kind_target) o h = tt
  shift-IsCovered (some (to_groups ids)) none h = rw (shifted_ids shift ids) tt
  shift-IsCovered (some (to_groups ids)) (some offset) h =
      rw (shifted_ids shift ids) (elim (Bool-cases (is_explicit_mode offset.mode)) [
        | inr m ↦ inl (ap is_explicit_mode (shifted_mode shift offset) ∙ m)
        | inl m ↦ inr (
            ap ids_of (shifted_values shift offset m)
            ∙ values-dedup shift [] offset.values
            ∙ ap (shift_ids shift) (same h m))
      ])
    where
      same :
          (is_explicit_mode offset.mode ≡ false) ⊎ (ids_of offset.values ≡ ids)
          → is_explicit_mode offset.mode ≡ true
          → ids_of offset.values ≡ ids
      same (inl n) m = let e : true ≡ false = sym m ∙ n in absurd (cc e)
      same (inr e) m = e

  shift-IsInside :
      (t : Option Target) (children : Actions)
      → IsInside t children
      → IsInside (shift_target shift t).0 (rewrite_children shift children).0
  unfolding shift_target_groups_list
  shift-IsInside none children h = tt
  shift-IsInside (some to_all) children h = tt
  shift-IsInside (some (to_addr v)) children h = tt
  shift-IsInside (some other_kind_target) children h = tt
  shift-IsInside (some (to_groups ids)) children h =
      rw (shifted_ids shift ids) (children_stay ids children h)

  rewrite-IsCoherent :
      (a : ActionFields) (children : Actions)
      → is_container a.kind ≡ true
      → IsCoherent (action a children)
      → IsCoherent (rewrite_action shift (action a children)).0
  rewrite-IsCoherent a children k h =
      rw (rewritten shift a children, k)
        (shift-IsCovered a.target a.offset h.0, shift-IsInside a.target children h.1)

-- If an explicit offset block of a container has one entry for each of its groups, and its children's
-- groups are among them, then the same holds after a deletion or a sorting of the groups.
pub renumber-IsCoherent :
    (a : ActionFields) (children : Actions) (deleted_gid : ℤ) (mapping : List (ℤ × ℤ))
    → is_container a.kind ≡ true
    → IsCoherent (action a children)
    → IsCoherent (renumber_action (action a children) deleted_gid).0
      × IsCoherent (remap_action (action a children) mapping).0
unfolding renumber_action remap_action
renumber-IsCoherent a children deleted_gid mapping k h = (
  rewrite-IsCoherent (λ value. shift_group_value value deleted_gid) a children k h,
  rewrite-IsCoherent (λ value. map_group_value value mapping) a children k h,
)
