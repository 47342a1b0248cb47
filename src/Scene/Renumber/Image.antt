-- ===== src/Scene/Renumber/Image.antt =====
-- The ids that an action refers to after a rewriting are the rewritten ones.
use race_link_host.Prelude.{
  ◌≡◌, refl, sym, ap, ◌∙◌, inl, inr, Bool, true, false, ◌||◌, Option, none, some, List, [], ◌∷◌,
  ◌++◌, map, if◌then◌else◌, Bool-cases, ℤ, eqb_ℤ, if-true, if-false,
}
use race_link_host.Formula.{OffsetSpec}
use race_link_host.Dispatch.Action.{
  Target, to_all, to_groups, to_addr, other_kind_target, ActionFields, Action, action, Actions,
  no_actions, next_action,
}
use race_link_host.Dispatch.Optimizer.Ops.{eqb_ℤ→eq}
use race_link_host.Scene.Renumber.{
  shift_group_value, map_group_value, is_seen, add_seen, dedup, is_explicit_mode, is_container,
  shift_target_groups_list, shift_target, shift_values, shift_offset_block, shift_offset,
  rewrite_action, rewrite_children, renumber_action, remap_action,
}
use race_link_host.Scene.Renumber.Rewritten.{
  ids_of, ids_of-if, shifted_ids, shifted_values, shifted_mode, other_mode, children_of, fields_of,
  rewritten,
}

abbrev SameIds : List ℤ → List ℤ → Type 0
SameIds xs ys = (w : ℤ) → is_seen w xs ≡ is_seen w ys

is_seen-append : (w : ℤ) (xs ys : List ℤ) → is_seen w (xs ++ ys) ≡ is_seen w xs || is_seen w ys
is_seen-append w [] ys = refl
is_seen-append w (x ∷ xs) ys =
    ap (λ b. eqb_ℤ w x || b) (is_seen-append w xs ys)
    ∙ or_assoc (eqb_ℤ w x) (is_seen w xs) (is_seen w ys)
  where
    or_assoc : (a b c : Bool) → (a || (b || c)) ≡ ((a || b) || c)
    or_assoc true b c = refl
    or_assoc false b c = refl

map-append : (f : ℤ → ℤ) (xs ys : List ℤ) → map f (xs ++ ys) ≡ map f xs ++ map f ys
map-append f [] ys = refl
map-append f (x ∷ xs) ys = ap (λ l. f x ∷ l) (map-append f xs ys)

-- What is listed after the repetitions have been removed is what was listed before.
dedup-is_seen :
    (w : ℤ) (seen ids : List ℤ)
    → (is_seen w (dedup seen ids) || is_seen w seen) ≡ (is_seen w ids || is_seen w seen)
unfolding dedup
dedup-is_seen w seen [] = refl
dedup-is_seen w seen (g ∷ ids) = step (is_seen g seen) refl (dedup-is_seen w (add_seen g seen) ids)
  where
    known :
        (a r i s : Bool) → (a ≡ true → s ≡ true) → (r || s) ≡ (i || s) → (r || s) ≡ ((a || i) || s)
    known false r i s f e = e
    known true true i s f e = refl
    known true false i s f e = f refl

    new : (a r i s : Bool) → (r || (a || s)) ≡ (i || (a || s)) → ((a || r) || s) ≡ ((a || i) || s)
    new true r i s e = refl
    new false r i s e = e

    step :
        (b : Bool)
        → is_seen g seen ≡ b
        → (is_seen w (dedup (add_seen g seen) ids) || is_seen w (add_seen g seen))
          ≡ (is_seen w ids || is_seen w (add_seen g seen))
        → (is_seen w (
              if is_seen g seen
              then dedup (add_seen g seen) ids
              else g ∷ dedup (add_seen g seen) ids)
            || is_seen w seen)
          ≡ ((eqb_ℤ w g || is_seen w ids) || is_seen w seen)
    step true h ih =
        let rest = dedup (add_seen g seen) ids in
        let same = if-true (is_seen g seen) seen (g ∷ seen) h in
        ap (λ l. is_seen w l || is_seen w seen) (if-true (is_seen g seen) rest (g ∷ rest) h)
        ∙ known (eqb_ℤ w g) (is_seen w rest) (is_seen w ids) (is_seen w seen)
            (λ e. ap (λ v. is_seen v seen) (eqb_ℤ→eq w g e) ∙ h)
            (ap (λ l. is_seen w rest || is_seen w l) (sym same)
              ∙ ih
              ∙ ap (λ l. is_seen w ids || is_seen w l) same)
    step false h ih =
        let rest = dedup (add_seen g seen) ids in
        let more = if-false (is_seen g seen) seen (g ∷ seen) h in
        ap (λ l. is_seen w l || is_seen w seen) (if-false (is_seen g seen) rest (g ∷ rest) h)
        ∙ new (eqb_ℤ w g) (is_seen w rest) (is_seen w ids) (is_seen w seen) (
            ap (λ l. is_seen w rest || is_seen w l) (sym more)
            ∙ ih
            ∙ ap (λ l. is_seen w ids || is_seen w l) more)

pub dedup_same : (w : ℤ) (ids : List ℤ) → is_seen w (dedup [] ids) ≡ is_seen w ids
dedup_same w ids =
    sym (or_false (is_seen w (dedup [] ids))) ∙ dedup-is_seen w [] ids ∙ or_false (is_seen w ids)
  where
    or_false : (b : Bool) → (b || false) ≡ b
    or_false true = refl
    or_false false = refl

abbrev target_ids : Option Target → List ℤ
target_ids (some (to_groups ids)) = ids
target_ids _ = []

abbrev offset_ids : Option OffsetSpec → List ℤ
offset_ids none = []
offset_ids (some offset) = if is_explicit_mode offset.mode then ids_of offset.values else []

abbrev own_offset_ids : ActionFields → List ℤ
own_offset_ids a = if is_container a.kind then offset_ids a.offset else []

-- The group ids that the walk visits: those of the target, and for a container those of its explicit
-- offsets and of its children.
unfoldable mutual
  pub references : Action → List ℤ
  references (action a children) =
      target_ids a.target
      ++ (own_offset_ids a ++ (if is_container a.kind then child_references children else []))

  pub child_references : Actions → List ℤ
  child_references no_actions = []
  child_references (next_action a children) = references a ++ child_references children

module _ (shift : ℤ → ℤ) where
  -- The entries of an explicit block keep the same ids as the groups of a target.
  pub values-dedup :
      (seen : List ℤ) (values : List (ℤ × ℤ))
      → ids_of (shift_values shift seen values).0 ≡ dedup seen (map shift (ids_of values))
  unfolding shift_values dedup
  values-dedup seen [] = refl
  values-dedup seen (entry ∷ values) =
      let g = shift entry.0 in
      let rest = shift_values shift (add_seen g seen) values in
      ids_of-if (is_seen g seen) (g, entry.1) rest.0
      ∙ ap (λ l. if is_seen g seen then l else g ∷ l) (values-dedup (add_seen g seen) values)

  Same-append :
      (xs ys : List ℤ) (xs2 ys2 : List ℤ)
      → SameIds xs (map shift xs2)
      → SameIds ys (map shift ys2)
      → SameIds (xs ++ ys) (map shift (xs2 ++ ys2))
  Same-append xs ys xs2 ys2 h k w =
      is_seen-append w xs ys
      ∙ ap (λ b. b || is_seen w ys) (h w)
      ∙ ap (λ b. is_seen w (map shift xs2) || b) (k w)
      ∙ sym (is_seen-append w (map shift xs2) (map shift ys2))
      ∙ ap (is_seen w) (sym (map-append shift xs2 ys2))

  target-Same :
      (t : Option Target) → SameIds (target_ids (shift_target shift t).0) (map shift (target_ids t))
  unfolding shift_target_groups_list
  target-Same none w = refl
  target-Same (some to_all) w = refl
  target-Same (some (to_groups ids)) w =
      ap (λ t. is_seen w (target_ids (some t))) (shifted_ids shift ids)
      ∙ dedup_same w (map shift ids)
  target-Same (some (to_addr v)) w = refl
  target-Same (some other_kind_target) w = refl

  block-Same :
      (offset : OffsetSpec)
      → SameIds
          (offset_ids (some (shift_offset_block shift offset).0))
          (map shift (offset_ids (some offset)))
  block-Same offset w = elim (Bool-cases (is_explicit_mode offset.mode)) [
    | inl h ↦
        ap (is_seen w) (
          if-true (is_explicit_mode (shift_offset_block shift offset).0.mode)
            (ids_of (shift_offset_block shift offset).0.values) []
            (ap is_explicit_mode (shifted_mode shift offset) ∙ h))
        ∙ ap (λ l. is_seen w (ids_of l)) (shifted_values shift offset h)
        ∙ ap (is_seen w) (values-dedup [] offset.values)
        ∙ dedup_same w (map shift (ids_of offset.values))
        ∙ ap (λ l. is_seen w (map shift l))
            (sym (if-true (is_explicit_mode offset.mode) (ids_of offset.values) [] h))
    | inr h ↦
        ap (λ o. is_seen w (offset_ids (some o))) (other_mode shift offset h)
        ∙ ap (is_seen w) (if-false (is_explicit_mode offset.mode) (ids_of offset.values) [] h)
        ∙ ap (λ l. is_seen w (map shift l))
            (sym (if-false (is_explicit_mode offset.mode) (ids_of offset.values) [] h))
  ]

  offset-Same :
      (o : Option OffsetSpec)
      → SameIds (offset_ids (shift_offset shift o).0) (map shift (offset_ids o))
  offset-Same none w = refl
  offset-Same (some offset) w = block-Same offset w

  own-Same :
      (b : Bool) (o : Option OffsetSpec)
      → SameIds
          (if b then offset_ids (if b then shift_offset shift o else (o, false)).0 else [])
          (map shift (if b then offset_ids o else []))
  own-Same true o w = offset-Same o w
  own-Same false o w = refl

  inner-Same :
      (b : Bool) (children : Actions)
      → SameIds
          (child_references (rewrite_children shift children).0)
          (map shift (child_references children))
      → SameIds
          (if b
            then child_references (if b then (rewrite_children shift children).0 else children)
            else [])
          (map shift (if b then child_references children else []))
  inner-Same true children h w = h w
  inner-Same false children h w = refl

  mutual
    unfolding references child_references rewrite_children

    references-rewrite :
        (a : Action) → SameIds (references (rewrite_action shift a).0) (map shift (references a))
    references-rewrite (action a children) w =
        ap (λ act. is_seen w (references act)) (rewritten shift a children)
        ∙ Same-append (target_ids (shift_target shift a.target).0)
            (own_offset_ids (fields_of shift a)
              ++ (if is_container a.kind
                  then child_references (children_of shift a children)
                  else []))
            (target_ids a.target)
            (own_offset_ids a ++ (if is_container a.kind then child_references children else []))
            (target-Same a.target)
            (Same-append (own_offset_ids (fields_of shift a))
              (if is_container a.kind then child_references (children_of shift a children) else [])
              (own_offset_ids a) (if is_container a.kind then child_references children else [])
              (own-Same (is_container a.kind) a.offset)
              (inner-Same (is_container a.kind) children (children-rewrite children)))
            w

    children-rewrite :
        (children : Actions)
        → SameIds
            (child_references (rewrite_children shift children).0)
            (map shift (child_references children))
    children-rewrite no_actions w = refl
    children-rewrite (next_action a children) w =
        Same-append (references (rewrite_action shift a).0)
          (child_references (rewrite_children shift children).0) (references a)
          (child_references children) (references-rewrite a) (children-rewrite children) w

-- After a deletion or a sorting of the groups, the group ids that an action refers to, in its target and
-- for a container in its explicit offsets and its children, are exactly the new numbers of those it
-- referred to before.
pub rewrite-references :
    (a : Action) (deleted_gid : ℤ) (mapping : List (ℤ × ℤ)) (w : ℤ)
    → (is_seen w (references (renumber_action a deleted_gid).0)
        ≡ is_seen w (map (λ value. shift_group_value value deleted_gid) (references a)))
      × (is_seen w (references (remap_action a mapping).0)
          ≡ is_seen w (map (λ value. map_group_value value mapping) (references a)))
unfolding renumber_action remap_action
rewrite-references a deleted_gid mapping w = (
  references-rewrite (λ value. shift_group_value value deleted_gid) a w,
  references-rewrite (λ value. map_group_value value mapping) a w,
)
