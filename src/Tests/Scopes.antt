-- ===== src/Tests/Scopes.antt =====
-- A bulk change of groups.
use race_link_host.Prelude.{◌≡◌, ◌⊎◌, Within, List, [], ◌∷◌, String}
use race_link_host.StateScope.{Scope, groups_topic, devices_topic, sse_what_from_scopes}
use race_link_host.StateScope.Tokens.{token, NoToken, AskedFor, sse_what_from_scopes_lem}

abbrev changed : List String
changed = "device_membership" ∷ "unknown" ∷ []

sse_what_from_scopes_lem_example :
    ((Within "full" changed ⊎ NoToken changed)
      × (sse_what_from_scopes changed ≡ groups_topic ∷ devices_topic ∷ []))
    ⊎ ((¬ Within "full" changed)
        × ((t : Scope) × Within (token t) changed)
        × AskedFor changed (sse_what_from_scopes changed))
sse_what_from_scopes_lem_example = sse_what_from_scopes_lem changed
