-- ===== src/Scene/Scope/Reach.antt =====
-- The networks that the scope of a scene is made of.
use race_link_host.Prelude.{
  ◌≡◌, refl, sym, ap, ◌∙◌, ◌≢◌, ◌↔◌, ◌⊎◌, inl, inr, Bool, true, false, not, ◌&&◌, ◌||◌, Option,
  none, List, [], ◌∷◌, ◌++◌, str_eq, eq_iff, String, if◌then◌else◌, Bool-cases, keep_if, Within,
  Within-left, Within-right, Within-append,
}
use race_link_host.Broadcast.Targets.{AreDistinct, seen_iff, skip_or_take}
use race_link_host.Scene.Scope.Touches.{
  Within-keep_if, OwnTouches, around_children, Touches, ChildrenTouch, AnyTouches, IsScopeOf,
  own_iff, child_scope-IsScopeOf, append_iff,
}
use race_link_host.Dispatch.Action.{Target, Action, action, Actions, no_actions, next_action}
use race_link_host.Scene.Scope.{
  Fleet, NetworkScope, auto_scope, explicit_scope, Scene, all_known_network_ids, is_listed, add_id,
  add_all, own_networks, child_scope, walk, walk_children, walk_actions, is_empty, is_kept,
  keep_known, scene_network_ids,
}

distinct_snoc :
    (xs : List String) (s : String) → AreDistinct xs → ¬ Within s xs → AreDistinct (xs ++ s ∷ [])
distinct_snoc [] s d n = (λ w. w, tt)
distinct_snoc (x ∷ xs) s d n = (
  λ w. elim (Within-append x xs (s ∷ []) w) [
    | inl before ↦ d.0 before
    | inr (inl e) ↦ n (inl (sym e))
    | inr (inr w) ↦ absurd w
  ],
  distinct_snoc xs s d.1 (λ w. n (inr w)),
)

add_id-distinct :
    (ordered : List String) (s : String) → AreDistinct ordered → AreDistinct (add_id ordered s)
unfolding add_id
add_id-distinct ordered s d = elim (skip_or_take s ordered) [
  | inl (why, e) ↦ rw e d
  | inr (fresh, e) ↦ rw e (distinct_snoc ordered s d fresh.1)
]

-- What `_add` makes of a list: the list, and the id if it is named.
abbrev Added : String → List String → List String → Type 0
Added x ordered nids = Within x ordered ⊎ ((x ≢ "") × Within x nids)

add_id_iff :
    (x : String) (ordered : List String) (s : String)
    → Within x (add_id ordered s) ↔ Added x ordered (s ∷ [])
unfolding add_id
add_id_iff x ordered s = elim (skip_or_take s ordered) [
  | inl (inl empty, e) ↦ rw e (
    λ w. inl w,
    λ a. elim a [
      | inl w ↦ w
      | inr (n, inl same) ↦ absurd (n (same ∙ empty))
      | inr (n, inr w) ↦ absurd w
    ],
  )
  | inl (inr listed, e) ↦ rw e (
    λ w. inl w,
    λ a. elim a [ inl w ↦ w | inr (n, inl same) ↦ rw same listed | inr (n, inr w) ↦ absurd w ],
  )
  | inr (fresh, e) ↦ rw e (
    λ w. elim (Within-append x ordered (s ∷ []) w) [
      | inl before ↦ inl before
      | inr (inl same) ↦ inr (rw same fresh.0, inl same)
      | inr (inr w) ↦ absurd w
    ],
    λ a. elim a [
      | inl w ↦ Within-left x ordered (s ∷ []) w
      | inr (n, w) ↦ Within-right x ordered (s ∷ []) w
    ],
  )
]

pub add_all-distinct :
    (nids ordered : List String) → AreDistinct ordered → AreDistinct (add_all ordered nids)
add_all-distinct [] ordered d = d
add_all-distinct (s ∷ nids) ordered d =
    add_all-distinct nids (add_id ordered s) (add_id-distinct ordered s d)

pub add_all_iff :
    (x : String) (nids ordered : List String)
    → Within x (add_all ordered nids) ↔ Added x ordered nids
add_all_iff x [] ordered = (λ w. inl w, λ a. elim a [ inl w ↦ w | inr (n, w) ↦ absurd w ])
add_all_iff x (s ∷ nids) ordered =
    let rest = add_all_iff x nids (add_id ordered s) in
    let first = add_id_iff x ordered s in
    (
      λ w. elim (rest.0 w) [
        | inl v ↦ elim (first.0 v) [
          | inl before ↦ inl before
          | inr (n, inl same) ↦ inr (n, inl same)
          | inr (n, inr z) ↦ absurd z
        ]
        | inr (n, later) ↦ inr (n, inr later)
      ],
      λ a. elim a [
        | inl before ↦ rest.1 (inl (first.1 (inl before)))
        | inr (n, inl same) ↦ rest.1 (inl (first.1 (inr (n, inl same))))
        | inr (n, inr later) ↦ rest.1 (inr (n, later))
      ],
    )

add_all-append :
    (xs ys ordered : List String) → add_all ordered (xs ++ ys) ≡ add_all (add_all ordered xs) ys
add_all-append [] ys ordered = refl
add_all-append (x ∷ xs) ys ordered = add_all-append xs ys (add_id ordered x)

-- The networks of an action and of the actions inside it, in the order of the walk.
unfoldable mutual
  pub touched : Fleet → Option (List String) → Action → List String
  touched fleet parent (action a children) =
      own_networks fleet parent a.target
      ++ touched_children fleet (child_scope fleet parent a.target) children

  pub touched_children : Fleet → Option (List String) → Actions → List String
  touched_children fleet parent no_actions = []
  touched_children fleet parent (next_action a rest) =
      touched fleet parent a ++ touched_children fleet parent rest

abbrev pub touched_by_all : Fleet → List Action → List String
touched_by_all fleet [] = []
touched_by_all fleet (a ∷ actions) = touched fleet none a ++ touched_by_all fleet actions

mutual
  unfolding walk walk_children touched touched_children

  walk-touched :
      (fleet : Fleet) (parent : Option (List String)) (a : Action) (ordered : List String)
      → walk fleet parent a ordered ≡ add_all ordered (touched fleet parent a)
  walk-touched fleet parent (action a children) ordered =
      let own = own_networks fleet parent a.target in
      let scope = child_scope fleet parent a.target in
      walk_children-touched fleet scope children (add_all ordered own)
      ∙ sym (add_all-append own (touched_children fleet scope children) ordered)

  walk_children-touched :
      (fleet : Fleet) (parent : Option (List String)) (children : Actions) (ordered : List String)
      → walk_children fleet parent children ordered
        ≡ add_all ordered (touched_children fleet parent children)
  walk_children-touched fleet parent no_actions ordered = refl
  walk_children-touched fleet parent (next_action a rest) ordered =
      walk_children-touched fleet parent rest (walk fleet parent a ordered)
      ∙ ap (λ o. add_all o (touched_children fleet parent rest))
          (walk-touched fleet parent a ordered)
      ∙ sym (add_all-append (touched fleet parent a) (touched_children fleet parent rest) ordered)

walk_actions-touched :
    (fleet : Fleet) (actions : List Action) (ordered : List String)
    → walk_actions fleet actions ordered ≡ add_all ordered (touched_by_all fleet actions)
walk_actions-touched fleet [] ordered = refl
walk_actions-touched fleet (a ∷ actions) ordered =
    walk_actions-touched fleet actions (walk fleet none a ordered)
    ∙ ap (λ o. add_all o (touched_by_all fleet actions)) (walk-touched fleet none a ordered)
    ∙ sym (add_all-append (touched fleet none a) (touched_by_all fleet actions) ordered)

keep_step :
    (empty known listed : Bool) (out longer : List String)
    → (if (not empty && known) && not listed then longer else out)
      ≡ (if not empty && known then (if empty || listed then out else longer) else out)
keep_step true known listed out longer = refl
keep_step false true true out longer = refl
keep_step false true false out longer = refl
keep_step false false listed out longer = refl

keep_known-add_all :
    (known ids out : List String)
    → keep_known known out ids ≡ add_all out (keep_if (is_kept known) ids)
unfolding keep_known add_id
keep_known-add_all known [] out = refl
keep_known-add_all known (s ∷ ids) out =
    let step =
      keep_step (str_eq s "") (is_empty known || is_listed s known) (is_listed s out) out
        (out ++ s ∷ []) in
    ap (λ o. keep_known known o ids) step ∙ elim (Bool-cases (is_kept known s)) [
      | inl kept ↦ rw kept (keep_known-add_all known ids (add_id out s))
      | inr dropped ↦ rw dropped (keep_known-add_all known ids out)
    ]

-- The network is known, or no network is known at all.
abbrev pub IsKnown : List String → String → Type 0
IsKnown known x = (known ≡ []) ⊎ Within x known

is_kept-IsKnown :
    (known : List String) (x : String) → x ≢ "" → (is_kept known x ≡ true) ↔ IsKnown known x
is_kept-IsKnown [] x n = (
  λ h. inl refl,
  λ h. elim (Bool-cases (str_eq x "")) [
    | inl same ↦ absurd (n ((eq_iff x "").0 same))
    | inr apart ↦ rw apart refl
  ],
)
is_kept-IsKnown (k ∷ known) x n = elim (Bool-cases (str_eq x "")) [
  | inl same ↦ absurd (n ((eq_iff x "").0 same))
  | inr apart ↦ rw apart (
    λ h. inr ((seen_iff x (k ∷ known)).0 h),
    λ h. elim h [ inl e ↦ absurd (cc e) | inr w ↦ (seen_iff x (k ∷ known)).1 w ],
  )
]

mutual
  unfolding touched touched_children

  touched_iff :
      (fleet : Fleet) (x : String) (n : x ≢ "") (outer : List Target)
      (parent : Option (List String)) (a : Action)
      → IsScopeOf fleet x n outer parent
      → Within x (touched fleet parent a) ↔ Touches fleet outer a x
  touched_iff fleet x n outer parent (action a children) s =
      let scope = child_scope fleet parent a.target in
      append_iff x (own_networks fleet parent a.target) (touched_children fleet scope children)
        (OwnTouches fleet outer a.target x)
        (ChildrenTouch fleet (around_children a.target outer) children x)
        (own_iff fleet x n outer parent a.target s)
        (touched_children_iff fleet x n (around_children a.target outer) scope children
          (child_scope-IsScopeOf fleet x n outer parent a.target s))

  touched_children_iff :
      (fleet : Fleet) (x : String) (n : x ≢ "") (outer : List Target)
      (parent : Option (List String)) (children : Actions)
      → IsScopeOf fleet x n outer parent
      → Within x (touched_children fleet parent children) ↔ ChildrenTouch fleet outer children x
  touched_children_iff fleet x n outer parent no_actions s = (λ w. absurd w, λ h. absurd h)
  touched_children_iff fleet x n outer parent (next_action a children) s =
      append_iff x (touched fleet parent a) (touched_children fleet parent children)
        (Touches fleet outer a x) (ChildrenTouch fleet outer children x)
        (touched_iff fleet x n outer parent a s)
        (touched_children_iff fleet x n outer parent children s)

all_touched_iff :
    (fleet : Fleet) (x : String) (n : x ≢ "") (actions : List Action)
    → Within x (touched_by_all fleet actions) ↔ AnyTouches fleet actions x
all_touched_iff fleet x n [] = (λ w. absurd w, λ h. absurd h)
all_touched_iff fleet x n (a ∷ actions) =
    append_iff x (touched fleet none a) (touched_by_all fleet actions) (Touches fleet [] a x)
      (AnyTouches fleet actions x) (touched_iff fleet x n [] none a refl)
      (all_touched_iff fleet x n actions)

-- What a scope reaches: an explicit one its ids that are known, an automatic one the networks that an
-- action touches.
abbrev pub Reached : Fleet → NetworkScope → List Action → String → Type 0
Reached fleet (explicit_scope ids) actions x =
    Within x ids × IsKnown (all_known_network_ids fleet) x
Reached fleet auto_scope actions x = AnyTouches fleet actions x

-- The list has each named network that is reached once, and no other.
abbrev ListsReached : Fleet → NetworkScope → List Action → List String → Type 0
ListsReached fleet scope actions ids =
    AreDistinct ids × ((x : String) → Within x ids ↔ ((x ≢ "") × Reached fleet scope actions x))

collected :
    (fleet : Fleet) (scope : NetworkScope) (actions : List Action) (nids : List String)
    → ((x : String) → x ≢ "" → Within x nids ↔ Reached fleet scope actions x)
    → ListsReached fleet scope actions (add_all [] nids)
collected fleet scope actions nids same = (
  add_all-distinct nids [] tt,
  λ x. (
    λ w. elim ((add_all_iff x nids []).0 w) [
      | inl none_yet ↦ absurd none_yet
      | inr (n, v) ↦ (n, (same x n).0 v)
    ],
    λ r. (add_all_iff x nids []).1 (inr (r.0, (same x r.0).1 r.1)),
  ),
)

by_scope :
    (fleet : Fleet) (scope : NetworkScope) (stop : Bool) (actions : List Action)
    → ListsReached fleet scope actions (
        scene_network_ids fleet
          (record { network_scope = scope; stop_on_error = stop; actions = actions }))
unfolding scene_network_ids
by_scope fleet auto_scope stop actions = rw (walk_actions-touched fleet actions []) (
    collected fleet auto_scope actions (touched_by_all fleet actions)
      (λ x n. all_touched_iff fleet x n actions))
by_scope fleet (explicit_scope ids) stop actions =
    let known = all_known_network_ids fleet in
    rw (keep_known-add_all known ids []) (
      collected fleet (explicit_scope ids) actions (keep_if (is_kept known) ids) (λ x n. (
        λ w.
            let h = (Within-keep_if (is_kept known) x ids).0 w in
            (h.0, (is_kept-IsKnown known x n).0 h.1),
        λ r. (Within-keep_if (is_kept known) x ids).1 (r.0, (is_kept-IsKnown known x n).1 r.1),
      )))

-- The scope of a scene has no network twice. It has exactly the named networks that are reached: with
-- an explicit scope those of its ids that exist, or all of them if no network exists; otherwise those
-- that an action or an action inside it touches: with a group that stands in the network, with a device
-- of the network, or with a broadcast, which touches every network at the top level and inside a
-- container what the container's target touches.
pub scene_network_ids-Reached :
    (fleet : Fleet) (scene : Scene)
    → AreDistinct (scene_network_ids fleet scene)
      × ((x : String)
          → Within x (scene_network_ids fleet scene)
            ↔ ((x ≢ "") × Reached fleet scene.network_scope scene.actions x))
scene_network_ids-Reached fleet scene =
    by_scope fleet scene.network_scope scene.stop_on_error scene.actions
