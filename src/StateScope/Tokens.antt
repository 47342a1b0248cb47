-- ===== src/StateScope/Tokens.antt =====
-- The topics by the tokens that a caller gives.
use race_link_host.Prelude.{
  ℕ, zero, suc, ◌≡◌, refl, sym, ap, ◌∙◌, ◌↔◌, ◌⊎◌, inl, inr, Bool, true, false, ◌||◌, Option, none,
  some, List, [], ◌∷◌, str_eq, eq_iff, String, ◌==◌, ==_iff, Bool-cases, any_of, Within, if-cases,
}
use race_link_host.StateScope.{
  Scope, devices, device_membership, device_specials, groups, rl_presets, wled_presets, scenes,
  full, nothing, scope_of, code_of, has, known_scopes, or_full, normalize_scopes, Topic,
  devices_topic, groups_topic, rl_presets_topic, wled_presets_topic, scenes_topic, refreshes,
  sse_what_from_scopes, topics_of-tests,
}

-- The token of a scope.
abbrev pub token : Scope → String
token devices = "devices"
token device_membership = "device_membership"
token device_specials = "device_specials"
token groups = "groups"
token rl_presets = "rl_presets"
token wled_presets = "wled_presets"
token scenes = "scenes"
token full = "full"
token nothing = "none"

scope_of-token : (t : Scope) → scope_of (token t) ≡ some t
unfolding scope_of
scope_of-token devices = refl
scope_of-token device_membership = refl
scope_of-token device_specials = refl
scope_of-token groups = refl
scope_of-token rl_presets = refl
scope_of-token wled_presets = refl
scope_of-token scenes = refl
scope_of-token full = refl
scope_of-token nothing = refl

-- A text whose scope is known is its token.
abbrev IsTokenOf : String → Option Scope → Type 0
IsTokenOf s none = Unit
IsTokenOf s (some t) = s ≡ token t

scope_of-IsTokenOf : (s : String) → IsTokenOf s (scope_of s)
unfolding scope_of
scope_of-IsTokenOf s =
    let P = IsTokenOf s in
    if-cases P (str_eq s "devices") (some devices) _ (eq_iff s "devices").0 (λ h.
      if-cases P (str_eq s "device_membership") (some device_membership) _
        (eq_iff s "device_membership").0
        (λ h.
          if-cases P (str_eq s "device_specials") (some device_specials) _
            (eq_iff s "device_specials").0
            (λ h. if-cases P (str_eq s "groups") (some groups) _ (eq_iff s "groups").0 (λ h.
              if-cases P (str_eq s "rl_presets") (some rl_presets) _ (eq_iff s "rl_presets").0 (λ h.
                if-cases P (str_eq s "wled_presets") (some wled_presets) _
                  (eq_iff s "wled_presets").0
                  (λ h. if-cases P (str_eq s "scenes") (some scenes) _ (eq_iff s "scenes").0 (λ h.
                    if-cases P (str_eq s "full") (some full) _ (eq_iff s "full").0 (λ h.
                      if-cases P (str_eq s "none") (some nothing) none (eq_iff s "none").0
                        (λ h. tt)))))))))

abbrev scope_at : ℕ → Scope
scope_at zero = devices
scope_at (suc zero) = device_membership
scope_at (suc (suc zero)) = device_specials
scope_at (suc (suc (suc zero))) = groups
scope_at (suc (suc (suc (suc zero)))) = rl_presets
scope_at (suc (suc (suc (suc (suc zero))))) = wled_presets
scope_at (suc (suc (suc (suc (suc (suc zero)))))) = scenes
scope_at (suc (suc (suc (suc (suc (suc (suc zero))))))) = full
scope_at _ = nothing

scope_at-code : (t : Scope) → scope_at (code_of t) ≡ t
scope_at-code devices = refl
scope_at-code device_membership = refl
scope_at-code device_specials = refl
scope_at-code groups = refl
scope_at-code rl_presets = refl
scope_at-code wled_presets = refl
scope_at-code scenes = refl
scope_at-code full = refl
scope_at-code nothing = refl

same_code : (t u : Scope) → (code_of t == code_of u) ≡ true → t ≡ u
same_code t u h =
    sym (scope_at-code t) ∙ ap scope_at ((==_iff (code_of t) (code_of u)).0 h) ∙ scope_at-code u

has_head :
    (t u : Scope) (rest : List Scope) → has t (u ∷ rest) ≡ true → (t ≡ u) ⊎ (has t rest ≡ true)
unfolding has
has_head t u rest h = elim (Bool-cases (code_of t == code_of u)) [
  | inl same ↦ inl (same_code t u same)
  | inr other ↦ inr (ap (λ b. b || has t rest) (sym other) ∙ h)
]

has_self : (t : Scope) (rest : List Scope) → has t (t ∷ rest) ≡ true
unfolding has
has_self t rest = rw ((==_iff (code_of t) (code_of t)).1 refl) refl

has_later : (t u : Scope) (rest : List Scope) → has t rest ≡ true → has t (u ∷ rest) ≡ true
unfolding has
has_later t u rest h =
    or_true (code_of t == code_of u) (any_of (λ v. code_of t == code_of v) rest) h
  where
    or_true : (a b : Bool) → b ≡ true → (a || b) ≡ true
    or_true true b e = refl
    or_true false b e = e

has_nothing : (t : Scope) → has t [] ≡ true → ⊥
unfolding has
has_nothing t h = cc h

-- A scope is among the known ones exactly if its token is in the list.
known_iff : (t : Scope) (ss : List String) → (has t (known_scopes ss) ≡ true) ↔ Within (token t) ss
unfolding known_scopes
known_iff t [] = (has_nothing t, λ w. absurd w)
known_iff t (s ∷ ss) = by_scope (known_iff t ss) (scope_of s) refl (scope_of-IsTokenOf s)
  where
    own : token t ≡ s → scope_of s ≡ some t
    own e = ap scope_of (sym e) ∙ scope_of-token t

    by_scope :
        (has t (known_scopes ss) ≡ true) ↔ Within (token t) ss
        → (o : Option Scope) → scope_of s ≡ o
        → IsTokenOf s (scope_of s)
        → (has t (elim (scope_of s) as (λ o. List Scope) [
          | none ↦ known_scopes ss
          | some scope ↦ scope ∷ known_scopes ss
        ])
            ≡ true)
          ↔ Within (token t) (s ∷ ss)
    by_scope ih none e k = rw e (
      λ h. inr (ih.0 h),
      λ w. elim w [ inl same ↦ absurd (cc (sym e ∙ own same)) | inr later ↦ ih.1 later ],
    )
    by_scope ih (some u) e k = rw e (
      λ h. elim (has_head t u (known_scopes ss) h) [
        | inl same ↦ inl (ap token same ∙ sym (rw e at k))
        | inr later ↦ inr (ih.0 later)
      ],
      λ w. elim w [
        | inl same ↦ rw (some_same u t (sym e ∙ own same)) (has_self t (known_scopes ss))
        | inr later ↦ has_later t u (known_scopes ss) (ih.1 later)
      ],
    )
      where
        some_same : (u t : Scope) → some u ≡ some t → u ≡ t
        some_same u t h = cc h

-- The topics that the tokens of the list ask for.
abbrev pub AskedFor : List String → List Topic → Type 0
AskedFor scopes ts =
    ((refreshes devices_topic ts ≡ true) ↔ (
      Within "devices" scopes
      ⊎ (Within "device_membership" scopes ⊎ Within "device_specials" scopes)))
    × ((refreshes groups_topic ts ≡ true)
        ↔ (Within "groups" scopes ⊎ Within "device_membership" scopes))
    × ((refreshes rl_presets_topic ts ≡ true) ↔ Within "rl_presets" scopes)
    × ((refreshes wled_presets_topic ts ≡ true) ↔ Within "wled_presets" scopes)
    × ((refreshes scenes_topic ts ≡ true) ↔ Within "scenes" scopes)

-- No text of the list is a token.
abbrev pub NoToken : List String → Type 0
NoToken scopes = (t : Scope) → ¬ Within (token t) scopes

or_iff : (a b : Bool) (P Q : Type 0) → (a ≡ true) ↔ P → (b ≡ true) ↔ Q → ((a || b) ≡ true) ↔ (P ⊎ Q)
or_iff true b P Q f g = (λ h. inl (f.0 refl), λ h. refl)
or_iff false b P Q f g =
    (λ h. inr (g.0 h), λ h. elim h [ inl p ↦ absurd (cc (f.1 p)) | inr q ↦ g.1 q ])

tested : (x b : Bool) (P : Type 0) → x ≡ b → (b ≡ true) ↔ P → (x ≡ true) ↔ P
tested x b P e f = (λ h. f.0 (sym e ∙ h), λ p. e ∙ f.1 p)

-- If the list has the token "full" or no token at all, as the empty list, groups and devices are
-- refreshed. Otherwise exactly what its tokens ask for, whatever else the list has: devices for
-- "devices", "device_membership" or "device_specials"; groups for "groups" or "device_membership"; and
-- the two preset topics and the scenes for their own tokens.
pub sse_what_from_scopes_lem :
    (scopes : List String)
    → ((Within "full" scopes ⊎ NoToken scopes)
        × (sse_what_from_scopes scopes ≡ groups_topic ∷ devices_topic ∷ []))
      ⊎ ((¬ Within "full" scopes)
          × ((t : Scope) × Within (token t) scopes)
          × AskedFor scopes (sse_what_from_scopes scopes))
unfolding normalize_scopes
sse_what_from_scopes_lem scopes = by_known (known_scopes scopes) refl
  where
    Outcome : Type 0
    Outcome =
        ((Within "full" scopes ⊎ NoToken scopes)
          × (sse_what_from_scopes scopes ≡ groups_topic ∷ devices_topic ∷ []))
        ⊎ ((¬ Within "full" scopes)
            × ((t : Scope) × Within (token t) scopes)
            × AskedFor scopes (sse_what_from_scopes scopes))

    some_known :
        (u : Scope) (k : List Scope)
        → known_scopes scopes ≡ u ∷ k
        → ((t : Scope) → has t (normalize_scopes scopes) ≡ has t (known_scopes scopes))
        → Outcome
    some_known u k e same =
        let has_iff : (t : Scope)
            → (has t (normalize_scopes scopes) ≡ true) ↔ Within (token t) scopes =
          λ t.
            tested (has t (normalize_scopes scopes)) (has t (known_scopes scopes))
              (Within (token t) scopes) (same t) (known_iff t scopes) in
        elim (topics_of-tests scopes) [
          | inl (all, topics) ↦ inl (inl ((has_iff full).0 all), topics)
          | inr (partial, t) ↦ inr (
            (λ w. cc (sym partial ∙ (has_iff full).1 w)),
            (u, (known_iff u scopes).0 (ap (has u) e ∙ has_self u k)),
            (
              tested _ _ _ t.0 (
                  or_iff _ _ _ _ (has_iff devices)
                    (or_iff _ _ _ _ (has_iff device_membership) (has_iff device_specials))),
              tested _ _ _ t.1 (or_iff _ _ _ _ (has_iff groups) (has_iff device_membership)),
              tested _ _ _ t.2 (has_iff rl_presets),
              tested _ _ _ t.3 (has_iff wled_presets),
              tested _ _ _ t.4 (has_iff scenes),
            ),
          )
        ]

    by_known : (k : List Scope) → known_scopes scopes ≡ k → Outcome
    by_known [] e = elim (topics_of-tests scopes) [
      | inl (all, topics) ↦
          inl (inr (λ t w. has_nothing t (ap (has t) (sym e) ∙ (known_iff t scopes).1 w)), topics)
      | inr (partial, t) ↦
          absurd (cc (sym partial ∙ ap (λ k. has full (or_full k)) e ∙ has_self full []))
    ]
    by_known (u ∷ k) e = some_known u k e (λ t. ap (λ k. has t (or_full k)) e ∙ ap (has t) (sym e))
