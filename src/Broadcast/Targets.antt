-- ===== src/Broadcast/Targets.antt =====
-- The networks of a target are those that the caller named, each once.
use race_link_host.Prelude.{
  ◌≡◌, refl, sym, ap, ◌∙◌, ◌≢◌, ◌↔◌, ◌⊎◌, inl, inr, true, false, ◌||◌, Option, List, [], ◌∷◌, map,
  str_eq, eq_iff, String, Bool-cases, get_or, any_of, All, Within, value_error, ok, err,
}
use race_link_host.Broadcast.{BroadcastTarget, target_of, ordered_from, from_ids}

-- No element stands twice.
abbrev pub AreDistinct : {A : Type 0} → List A → Type 0
AreDistinct [] = Unit
AreDistinct (x ∷ xs) = (¬ Within x xs) × AreDistinct xs

pub seen_iff : (s : String) (seen : List String) → (any_of (str_eq s) seen ≡ true) ↔ Within s seen
seen_iff s [] = (λ h. absurd (cc h), λ w. absurd w)
seen_iff s (x ∷ seen) = elim (Bool-cases (str_eq s x)) [
  | inl same ↦ (λ h. inl ((eq_iff s x).0 same), λ w. rw same refl)
  | inr other ↦ (
    λ h. inr ((seen_iff s seen).0 (rw other at h)),
    λ w. elim w [
      | inl e ↦ absurd (cc (sym other ∙ (eq_iff s x).1 e))
      | inr w ↦ rw other ((seen_iff s seen).1 w)
    ],
  )
]

-- The id is usable: not None, and not the empty string.
abbrev pub IsUsable : String → List (Option String) → List String → Type 0
IsUsable x nids seen = (x ≢ "") × (Within x (map (λ o. get_or o "") nids) × (¬ Within x seen))

pub skip_or_take :
    (s : String) (seen : List String)
    → (((s ≡ "") ⊎ Within s seen) × ((str_eq s "" || any_of (str_eq s) seen) ≡ true))
      ⊎ (((s ≢ "") × (¬ Within s seen)) × ((str_eq s "" || any_of (str_eq s) seen) ≡ false))
skip_or_take s seen = elim (Bool-cases (str_eq s "")) [
  | inl e ↦ inl (inl ((eq_iff s "").0 e), rw e refl)
  | inr n ↦ elim (Bool-cases (any_of (str_eq s) seen)) [
    | inl w ↦ inl (inr ((seen_iff s seen).0 w), rw (n, w) refl)
    | inr f ↦ inr (
      (λ e. cc (sym n ∙ (eq_iff s "").1 e), λ w. cc (sym f ∙ (seen_iff s seen).1 w)),
      rw (n, f) refl,
    )
  ]
]

pub ordered_from_sound :
    (nids : List (Option String)) (seen : List String) (x : String)
    → Within x (ordered_from seen nids)
    → IsUsable x nids seen
unfolding ordered_from
ordered_from_sound [] seen x w = absurd w
ordered_from_sound (nid ∷ nids) seen x w = elim (skip_or_take (get_or nid "") seen) [
  | inl (why, e) ↦ let h = ordered_from_sound nids seen x (rw e at w) in (h.0, (inr h.1.0, h.1.1))
  | inr (fresh, e) ↦ elim (rw e at w) [
    | inl same ↦ (rw same fresh.0, (inl same, rw same fresh.1))
    | inr later ↦
        let h = ordered_from_sound nids (get_or nid "" ∷ seen) x later in
        (h.0, (inr h.1.0, λ s. h.1.1 (inr s)))
  ]
]

pub ordered_from_complete :
    (nids : List (Option String)) (seen : List String) (x : String)
    → IsUsable x nids seen
    → Within x (ordered_from seen nids)
unfolding ordered_from
ordered_from_complete [] seen x h = absurd h.1.0
ordered_from_complete (nid ∷ nids) seen x h = elim (skip_or_take (get_or nid "") seen) [
  | inl (why, e) ↦ rw e (elim h.1.0 [
    | inl same ↦ elim why [
      | inl blank ↦ absurd (h.0 (same ∙ blank))
      | inr known ↦ absurd (h.1.1 (rw same known))
    ]
    | inr later ↦ ordered_from_complete nids seen x (h.0, (later, h.1.1))
  ])
  | inr (fresh, e) ↦ rw e (elim h.1.0 [
    | inl same ↦ inl same
    | inr later ↦ elim (Bool-cases (str_eq x (get_or nid ""))) [
      | inl same ↦ inl ((eq_iff x (get_or nid "")).0 same)
      | inr other ↦ inr (
          ordered_from_complete nids (get_or nid "" ∷ seen) x (
            h.0,
            (
              later,
              λ s. elim s [
                | inl same ↦ cc (sym other ∙ (eq_iff x (get_or nid "")).1 same)
                | inr s ↦ h.1.1 s
              ],
            ),
          ))
    ]
  ])
]

ordered_from-AreDistinct :
    (nids : List (Option String)) (seen : List String) → AreDistinct (ordered_from seen nids)
unfolding ordered_from
ordered_from-AreDistinct [] seen = tt
ordered_from-AreDistinct (nid ∷ nids) seen = elim (skip_or_take (get_or nid "") seen) [
  | inl (why, e) ↦ rw e (ordered_from-AreDistinct nids seen)
  | inr (fresh, e) ↦ rw e (
    (λ w. (ordered_from_sound nids (get_or nid "" ∷ seen) (get_or nid "") w).1.1 (inl refl)),
    ordered_from-AreDistinct nids (get_or nid "" ∷ seen),
  )
]

target_of-ok :
    (xs : List String) (target : BroadcastTarget)
    → target_of xs ≡ ok target
    → target.network_ids ≡ xs
target_of-ok [] target h = absurd (cc h)
target_of-ok (x ∷ xs) target h =
    let same : record { network_ids = x ∷ xs } ≡ target = cc h in ap (λ t. t.network_ids) (sym same)

target_of-err : (xs : List String) → (target_of xs ≡ err value_error) ↔ (xs ≡ [])
target_of-err [] = (λ h. refl, λ h. refl)
target_of-err (x ∷ xs) = (λ h. absurd (cc h), λ h. absurd (cc h))

nothing-Within : (xs : List String) → ((x : String) → ¬ Within x xs) → xs ≡ []
nothing-Within [] h = refl
nothing-Within (x ∷ xs) h = absurd (h x (inl refl))

-- A target that `from_ids` returns names no id twice, and names an id exactly if the caller gave it
-- and it is not the empty string; None counts as the empty string.
from_ids_lem :
    (nids : List (Option String)) (target : BroadcastTarget) (x : String)
    → from_ids nids ≡ ok target
    → AreDistinct target.network_ids
      × (Within x target.network_ids ↔ ((x ≢ "") × Within x (map (λ o. get_or o "") nids)))
unfolding from_ids
from_ids_lem nids target x h = rw (target_of-ok (ordered_from [] nids) target h) (
  ordered_from-AreDistinct nids [],
  (
    (λ w. let s = ordered_from_sound nids [] x w in (s.0, s.1.0)),
    λ u. ordered_from_complete nids [] x (u.0, (u.1, λ s. s)),
  ),
)

-- No id is usable.
abbrev pub AreBlank : List (Option String) → Type 0
AreBlank nids = All (λ o. get_or o "" ≡ "") nids

AreBlank-sound :
    (nids : List (Option String)) (x : String)
    → AreBlank nids
    → Within x (map (λ o. get_or o "") nids)
    → x ≡ ""
AreBlank-sound [] x h w = absurd w
AreBlank-sound (n ∷ nids) x h (inl e) = e ∙ h.0
AreBlank-sound (n ∷ nids) x h (inr w) = AreBlank-sound nids x h.1 w

AreBlank-complete :
    (nids : List (Option String))
    → ((x : String) → Within x (map (λ o. get_or o "") nids) → ¬ (x ≢ ""))
    → AreBlank nids
AreBlank-complete [] h = tt
AreBlank-complete (n ∷ nids) h = (
  elim (Bool-cases (str_eq (get_or n "") "")) [
    | inl e ↦ (eq_iff (get_or n "") "").0 e
    | inr f ↦ absurd (h (get_or n "") (inl refl) (λ e. cc (sym f ∙ (eq_iff (get_or n "") "").1 e)))
  ],
  AreBlank-complete nids (λ x w. h x (inr w)),
)

-- `from_ids` raises exactly when the caller gave nothing but None and empty strings.
from_ids_error : (nids : List (Option String)) → (from_ids nids ≡ err value_error) ↔ AreBlank nids
unfolding from_ids
from_ids_error nids = (
  λ h. AreBlank-complete nids (λ x w n.
      let none_left = (target_of-err (ordered_from [] nids)).0 h in
      rw none_left at (ordered_from_complete nids [] x (n, (w, λ s. s)))),
  λ blank. (target_of-err (ordered_from [] nids)).1 (
      nothing-Within (ordered_from [] nids)
        (λ x w. let s = ordered_from_sound nids [] x w in s.0 (AreBlank-sound nids x blank s.1.0))),
)
