-- ===== src/Tests/Regroup.antt =====
-- Two devices of one network and an unbound one are moved into a group of that network.
use race_link_host.Prelude.{
  ◌≡◌, refl, ◌↔◌, ◌⊎◌, true, Option, none, some, List, [], ◌∷◌, String, pos,
}
use race_link_host.Boundary.{
  Member, Group, bound_network, is_unconfigured, note, networks_seen, conflict_of,
  validate_group_membership,
}
use race_link_host.Boundary.Membership.{Fits, validate_group_membership_iff}

abbrev member_on : String → Option String → Member
member_on addr network_id = record { addr = addr; network_id = network_id }

abbrev selected : List Member
selected = member_on "AA" (some "n1") ∷ member_on "BB" none ∷ member_on "CC" (some "n1") ∷ []

abbrev row : Group
row = record { name = "row"; network_id = some "n1" }

accepted : validate_group_membership selected row (some (pos 4)) ≡ none
unfolding validate_group_membership networks_seen note conflict_of
accepted = refl

validate_group_membership_iff_example :
    (validate_group_membership selected row (some (pos 4)) ≡ none)
    ↔ ((is_unconfigured (some (pos 4)) ≡ true) ⊎ Fits (bound_network row.network_id) selected)
validate_group_membership_iff_example = validate_group_membership_iff selected row (some (pos 4))
