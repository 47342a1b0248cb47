-- ===== src/StateScope.antt =====
-- racelink/domain/state_scope.py: what a state change makes the clients refresh.
pub mod Tokens
use race_link_host.Prelude.{
  ℕ, ◌≡◌, refl, ◌≢◌, ◌⊎◌, inl, inr, Bool, true, false, ◌||◌, Option, none, some, List, [], ◌∷◌,
  ◌++◌, arith, str_eq, eq_iff, sym, ap, ◌∙◌, ◌↔◌, ==_iff, if-cases, Within, String, ◌==◌,
  if◌then◌else◌, Bool-cases, any_of, all_of,
}

pub data Scope : Type 0 where
  devices device_membership device_specials groups rl_presets wled_presets scenes full nothing :
      Scope

-- A member of ALL, by its token.
unfoldable pub scope_of : String → Option Scope
scope_of s =
    if str_eq s "devices"
    then some devices
    else if str_eq s "device_membership"
    then some device_membership
    else if str_eq s "device_specials"
    then some device_specials
    else if str_eq s "groups"
    then some groups
    else if str_eq s "rl_presets"
    then some rl_presets
    else if str_eq s "wled_presets"
    then some wled_presets
    else if str_eq s "scenes"
    then some scenes
    else if str_eq s "full"
    then some full
    else if str_eq s "none"
    then some nothing
    else none

abbrev pub code_of : Scope → ℕ
code_of devices = 0
code_of device_membership = 1
code_of device_specials = 2
code_of groups = 3
code_of rl_presets = 4
code_of wled_presets = 5
code_of scenes = 6
code_of full = 7
code_of nothing = 8

-- `scope in resolved`; a set is a list whose order and repetitions nothing reads.
unfoldable pub has : Scope → List Scope → Bool
has s resolved = any_of (λ t. code_of s == code_of t) resolved

-- The known tokens of a list; unknown ones are dropped.
unfoldable pub known_scopes : List String → List Scope
known_scopes [] = []
known_scopes (s ∷ ss) =
    let rest = known_scopes ss in elim (scope_of s) [ none ↦ rest | some scope ↦ scope ∷ rest ]

abbrev pub or_full : List Scope → List Scope
or_full [] = full ∷ []
or_full (s ∷ ss) = s ∷ ss

-- None is the empty list.
unfoldable pub normalize_scopes : List String → List Scope
normalize_scopes scopes = or_full (known_scopes scopes)

-- `resolved == {NONE}` for a set that is not empty.
unfoldable pub is_only_nothing : List Scope → Bool
is_only_nothing resolved = all_of (λ s. code_of s == code_of nothing) resolved

pub data Topic : Type 0 where
  devices_topic groups_topic rl_presets_topic wled_presets_topic scenes_topic : Topic

abbrev pub topic_code : Topic → ℕ
topic_code devices_topic = 0
topic_code groups_topic = 1
topic_code rl_presets_topic = 2
topic_code wled_presets_topic = 3
topic_code scenes_topic = 4

abbrev pub topic_if : Bool → Topic → List Topic
topic_if true t = t ∷ []
topic_if false t = []

unfoldable pub topics_of : List Scope → List Topic
topics_of resolved =
    if has full resolved
    then groups_topic ∷ devices_topic ∷ []
    else if is_only_nothing resolved
    then []
    else topic_if
        (has devices resolved || (has device_membership resolved || has device_specials resolved))
        devices_topic
      ++ (topic_if (has groups resolved || has device_membership resolved) groups_topic
          ++ (topic_if (has rl_presets resolved) rl_presets_topic
              ++ (topic_if (has wled_presets resolved) wled_presets_topic
                  ++ topic_if (has scenes resolved) scenes_topic)))

unfoldable pub sse_what_from_scopes : List String → List Topic
sse_what_from_scopes scopes = topics_of (normalize_scopes scopes)

-- The topic is in the list.
abbrev pub refreshes : Topic → List Topic → Bool
refreshes t ts = any_of (λ u. topic_code t == topic_code u) ts

-- A set of NONE alone has no other token.
only_nothing :
    (s : Scope) (resolved : List Scope)
    → is_only_nothing resolved ≡ true
    → code_of s ≢ 8
    → has s resolved ≡ false
unfolding is_only_nothing has
only_nothing s [] h n = refl
only_nothing s (t ∷ resolved) h n = ground (arith, only_nothing s resolved)

-- The five topics, each by a test.
abbrev chosen : Bool → Bool → Bool → Bool → Bool → List Topic
chosen d g r w s =
    topic_if d devices_topic
    ++ (topic_if g groups_topic
        ++ (topic_if r rl_presets_topic
            ++ (topic_if w wled_presets_topic ++ topic_if s scenes_topic)))

abbrev pub Refreshes : List Topic → Bool → Bool → Bool → Bool → Bool → Type 0
Refreshes ts d g r w s =
    (refreshes devices_topic ts ≡ d)
    × (refreshes groups_topic ts ≡ g)
    × (refreshes rl_presets_topic ts ≡ r)
    × (refreshes wled_presets_topic ts ≡ w)
    × (refreshes scenes_topic ts ≡ s)

chosen_last : (d g r w s : Bool) → Refreshes (chosen d g r w s) d g r w s
chosen_last true true true w s = ground arith
chosen_last true true false w s = ground arith
chosen_last true false true w s = ground arith
chosen_last true false false w s = ground arith
chosen_last false true true w s = ground arith
chosen_last false true false w s = ground arith
chosen_last false false true w s = ground arith
chosen_last false false false w s = ground arith

-- The topics by the normalised tokens.
pub topics_of-tests :
    (scopes : List String)
    → let r = normalize_scopes scopes in
      ((has full r ≡ true) × (sse_what_from_scopes scopes ≡ groups_topic ∷ devices_topic ∷ []))
      ⊎ ((has full r ≡ false)
          × Refreshes
              (sse_what_from_scopes scopes)
              (has devices r || (has device_membership r || has device_specials r))
              (has groups r || has device_membership r)
              (has rl_presets r)
              (has wled_presets r)
              (has scenes r))
unfolding sse_what_from_scopes topics_of
topics_of-tests scopes = elim (Bool-cases (has full (normalize_scopes scopes))) [
  | inl all ↦ inl (all, rw all refl)
  | inr some_only ↦ inr (
    some_only,
    elim (Bool-cases (is_only_nothing (normalize_scopes scopes))) [
      | inl alone ↦
          rw
            (
              some_only,
              alone,
              only_nothing devices (normalize_scopes scopes) alone (omega arith),
              only_nothing device_membership (normalize_scopes scopes) alone (omega arith),
              only_nothing device_specials (normalize_scopes scopes) alone (omega arith),
              only_nothing groups (normalize_scopes scopes) alone (omega arith),
              only_nothing rl_presets (normalize_scopes scopes) alone (omega arith),
              only_nothing wled_presets (normalize_scopes scopes) alone (omega arith),
              only_nothing scenes (normalize_scopes scopes) alone (omega arith),
            )
            (refl, refl, refl, refl, refl)
      | inr more ↦ rw (some_only, more) (chosen_last _ _ _ _ _)
    ],
  )
]
