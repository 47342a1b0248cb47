-- ===== src/Scene/Collapse/Refused.antt =====
-- A container that validation has accepted, after it has been collapsed and stored.
use race_link_host.Prelude.{◌≡◌, Bool, Option, List, [], ◌∷◌, String, ℤ}
use race_link_host.Formula.{OffsetSpec}
use race_link_host.Dispatch.Action.{Target}
use race_link_host.Scene.Canonical.{
  integer, text, array, object, Elements, no_elements, element, Members, no_members, member,
}
use race_link_host.Scene.Canonical.Stable.{target_json, IsCanonical}

abbrev entries_json : List (ℤ × ℤ) → Elements
entries_json [] = no_elements
entries_json (v ∷ values) =
    element (object (member "id" (integer v.0) (member "offset_ms" (integer v.1) no_members)))
      (entries_json values)

-- The stored form of a container with a table.
abbrev pub stored_group : Target → List (ℤ × ℤ) → Members
stored_group target values = member "kind" (text "offset_group") (
    member "target" (target_json target) (
      member "offset"
        (object (
          member "mode" (text "explicit")
            (member "values" (array (entries_json values)) no_members)))
        no_members))

module _ (int_of_text : String → Option ℤ) (strip_upper : String → String)
    (is_mac12 : String → Bool) where
  module _ (idempotent : (s : String) → strip_upper (strip_upper s) ≡ strip_upper s) where
    abbrev TargetIsCanonical : Target × OffsetSpec → Type 0
    TargetIsCanonical r = IsCanonical int_of_text strip_upper is_mac12 r.0
