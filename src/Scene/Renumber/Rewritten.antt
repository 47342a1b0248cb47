-- ===== src/Scene/Renumber/Rewritten.antt =====
-- A rewriting that reports no change returns what it was given, so that its result is the rewritten
-- fields and children in either case.
use race_link_host.Prelude.{
  ◌≡◌, refl, sym, ap, ◌∙◌, Bool, true, false, not, ◌&&◌, ◌||◌, Option, none, some, List, [], ◌∷◌,
  map, if◌then◌else◌, ℤ, eqb_ℤ, &&-parts, ||-parts, if-both, if-cases, if-false,
}
use race_link_host.Formula.{OffsetSpec}
use race_link_host.Dispatch.Action.{
  Target, to_all, to_groups, to_addr, other_kind_target, ActionFields, Action, action, Actions,
  no_actions, next_action,
}
use race_link_host.Dispatch.Optimizer.Ops.{eqb_ℤ→eq}
use race_link_host.Scene.Renumber.{
  is_seen, add_seen, same_ids, is_explicit_mode, is_container, shift_ids, shift_target_groups_list,
  shift_target, shift_values, shift_offset_block, shift_offset, shift_fields, rewrite_action,
  rewrite_children,
}

pub same_ids→eq : (xs ys : List ℤ) → same_ids xs ys ≡ true → xs ≡ ys
same_ids→eq [] [] h = refl
same_ids→eq (x ∷ xs) (y ∷ ys) h =
    let p = &&-parts (eqb_ℤ x y) (same_ids xs ys) h in
    rw (eqb_ℤ→eq x y p.0, same_ids→eq xs ys p.1) refl
same_ids→eq [] (y ∷ ys) h = absurd (cc h)
same_ids→eq (x ∷ xs) [] h = absurd (cc h)

not-false : (b : Bool) → not b ≡ false → b ≡ true
not-false true h = refl
not-false false h = absurd (cc h)

abbrev pub ids_of : List (ℤ × ℤ) → List ℤ
ids_of values = map (λ entry. entry.0) values

pub ids_of-if :
    (b : Bool) (entry : ℤ × ℤ) (rest : List (ℤ × ℤ))
    → ids_of (if b then rest else entry ∷ rest) ≡ (if b then ids_of rest else entry.0 ∷ ids_of rest)
ids_of-if true entry rest = refl
ids_of-if false entry rest = refl

module _ (shift : ℤ → ℤ) where
  -- The target's ids are the rewritten ones also when no change is reported.
  pub shifted_ids :
      (ids : List ℤ)
      → (shift_target_groups_list shift (to_groups ids)).0 ≡ to_groups (shift_ids shift ids)
  unfolding shift_target_groups_list
  shifted_ids ids =
      let deduped = shift_ids shift ids in
      if-cases (λ (r : Target × Bool). r.0 ≡ to_groups deduped) (same_ids deduped ids)
        (to_groups ids, false) (to_groups deduped, true)
        (λ h. ap to_groups (sym (same_ids→eq deduped ids h))) (λ h. refl)

  unchanged_list :
      (t : Target)
      → (shift_target_groups_list shift t).1 ≡ false
      → (shift_target_groups_list shift t).0 ≡ t
  unfolding shift_target_groups_list
  unchanged_list (to_groups ids) =
      let deduped = shift_ids shift ids in
      if-cases (λ (r : Target × Bool). r.1 ≡ false → r.0 ≡ to_groups ids) (same_ids deduped ids)
        (to_groups ids, false) (to_groups deduped, true) (λ h e. refl) (λ h e. absurd (cc e))
  unchanged_list to_all = λ h. refl
  unchanged_list (to_addr v) = λ h. refl
  unchanged_list other_kind_target = λ h. refl

  unchanged_target :
      (t : Option Target) → (shift_target shift t).1 ≡ false → (shift_target shift t).0 ≡ t
  unchanged_target none h = refl
  unchanged_target (some t) h = ap some (unchanged_list t h)

  unchanged_values :
      (seen : List ℤ) (values : List (ℤ × ℤ))
      → (shift_values shift seen values).1 ≡ false
      → (shift_values shift seen values).0 ≡ values
  unfolding shift_values
  unchanged_values seen [] h = refl
  unchanged_values seen (entry ∷ values) h =
      let g = shift entry.0 in
      let rest = shift_values shift (add_seen g seen) values in
      let first = ||-parts (not (eqb_ℤ g entry.0) || is_seen g seen) rest.1 h in
      let second = ||-parts (not (eqb_ℤ g entry.0)) (is_seen g seen) first.0 in
      let same = eqb_ℤ→eq g entry.0 (not-false (eqb_ℤ g entry.0) second.0) in
      if-false (is_seen g seen) rest.0 ((g, entry.1) ∷ rest.0) second.1
      ∙ ap (λ x. (x, entry.1) ∷ rest.0) same
      ∙ ap (λ l. entry ∷ l) (unchanged_values (add_seen g seen) values first.1)

  -- The entries of an explicit block are the rewritten ones also when no change is reported.
  pub shifted_values :
      (offset : OffsetSpec)
      → is_explicit_mode offset.mode ≡ true
      → (shift_offset_block shift offset).0.values ≡ (shift_values shift [] offset.values).0
  unfolding shift_offset_block
  shifted_values offset h =
      let shifted = shift_values shift [] offset.values in
      if-cases (λ (r : OffsetSpec × Bool). r.0.values ≡ shifted.0)
        (is_explicit_mode offset.mode && shifted.1) (record offset { values = shifted.0 }, true)
        (offset, false) (λ e. refl)
        (λ e.
          sym (
            unchanged_values [] offset.values (still (is_explicit_mode offset.mode) shifted.1 h e)))
    where
      still : (a b : Bool) → a ≡ true → (a && b) ≡ false → b ≡ false
      still true b h e = e
      still false b h e = absurd (cc h)

  pub shifted_mode : (offset : OffsetSpec) → (shift_offset_block shift offset).0.mode ≡ offset.mode
  unfolding shift_offset_block
  shifted_mode offset =
      if-both (λ (r : OffsetSpec × Bool). r.0.mode ≡ offset.mode)
        (is_explicit_mode offset.mode && (shift_values shift [] offset.values).1) _ _ refl refl

  pub other_mode :
      (offset : OffsetSpec)
      → is_explicit_mode offset.mode ≡ false
      → (shift_offset_block shift offset).0 ≡ offset
  unfolding shift_offset_block
  other_mode offset h = rw (h) refl

  unchanged_block :
      (offset : OffsetSpec)
      → (shift_offset_block shift offset).1 ≡ false
      → (shift_offset_block shift offset).0 ≡ offset
  unfolding shift_offset_block
  unchanged_block offset =
      if-both (λ (r : OffsetSpec × Bool). r.1 ≡ false → r.0 ≡ offset)
        (is_explicit_mode offset.mode && (shift_values shift [] offset.values).1) _ _
        (λ e. absurd (cc e)) (λ e. refl)

  abbrev pub offset_of : ActionFields → Option OffsetSpec × Bool
  offset_of a = if is_container a.kind then shift_offset shift a.offset else (a.offset, false)

  unchanged_offset :
      (b : Bool) (o : Option OffsetSpec)
      → (if b then shift_offset shift o else (o, false)).1 ≡ false
      → (if b then shift_offset shift o else (o, false)).0 ≡ o
  unchanged_offset true none h = refl
  unchanged_offset true (some offset) h = ap some (unchanged_block offset h)
  unchanged_offset false o h = refl

  abbrev pub children_of : ActionFields → Actions → Actions
  children_of a children =
      if is_container a.kind then (rewrite_children shift children).0 else children

  unchanged_action :
      (a : Action) → (rewrite_action shift a).1 ≡ false → (rewrite_action shift a).0 ≡ a
  unfolding rewrite_action
  unchanged_action (action a children) =
      if-both (λ (r : Action × Bool). r.1 ≡ false → r.0 ≡ action a children)
        (shift_fields shift a (is_container a.kind && (rewrite_children shift children).1)).1 _ _
        (λ e. absurd (cc e)) (λ e. refl)

  unchanged_children :
      (children : Actions)
      → (rewrite_children shift children).1 ≡ false
      → (rewrite_children shift children).0 ≡ children
  unfolding rewrite_children
  unchanged_children no_actions h = refl
  unchanged_children (next_action a children) h =
      let p = ||-parts (rewrite_action shift a).1 (rewrite_children shift children).1 h in
      rw (unchanged_action a p.0, unchanged_children children p.1) refl

  if_children :
      (b : Bool) (children : Actions)
      → (b && (rewrite_children shift children).1) ≡ false
      → (if b then (rewrite_children shift children).0 else children) ≡ children
  if_children true children h = unchanged_children children h
  if_children false children h = refl

  abbrev pub fields_of : ActionFields → ActionFields
  fields_of a = record a { target = (shift_target shift a.target).0; offset = (offset_of a).0 }

  pub rewritten :
      (a : ActionFields) (children : Actions)
      → (rewrite_action shift (action a children)).0 ≡ action (fields_of a) (children_of a children)
  unfolding rewrite_action shift_fields
  rewritten a children =
      let changed = is_container a.kind && (rewrite_children shift children).1 in
      if-cases (λ (r : Action × Bool). r.0 ≡ action (fields_of a) (children_of a children))
        ((shift_target shift a.target).1 || changed || (offset_of a).1)
        (action (fields_of a) (children_of a children), true) (action a children, false) (λ h. refl)
        (λ h.
          let first = ||-parts ((shift_target shift a.target).1 || changed) (offset_of a).1 h in
          let second = ||-parts (shift_target shift a.target).1 changed first.0 in
          sym (
            rw
              (
                unchanged_target a.target second.0,
                unchanged_offset (is_container a.kind) a.offset first.1,
                if_children (is_container a.kind) children second.1,
              )
              refl))
