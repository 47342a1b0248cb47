-- ===== src/Boundary.antt =====
-- racelink/domain/network_boundary.py: moving devices into a group.
pub mod Membership
use race_link_host.Prelude.{
  ℕ, zero, suc, ◌+◌, ◌-◌, ◌*◌, ◌/◌, ◌%◌, ◌≤◌, ◌<◌, ◌≡◌, refl, sym, ap, ◌∙◌, ◌≢◌, ◌↔◌, ◌⊎◌, inl, inr,
  Bool, true, false, not, ◌&&◌, ◌||◌, Option, none, some, List, [], ◌∷◌, ◌++◌, map, arith, str_eq,
  eq_iff, String, ltb, leb, ◌==◌, ==_iff, lt→leb_false, if◌then◌else◌, Bool-cases, Option-cases,
  get_or, is_some, length, take, drop, keep_if, any_of, all_of, length-append, length-map,
  length-keep_if, All, Within, Within-left, Within-right, Within-append, append-eq-nil, sum,
  sum-append, ℤ, pos, negsuc, pos_part, neg_part, sub_ℕ, ◌+ℤ◌, ◌*ℤ◌, ◌≤ℤ◌, leb_ℤ, eqb_ℤ, distance,
  mask, clamp, clamp_bounds, clamp_id, mask-byte-lt, Error, value_error, key_error, struct_error,
  index_error, assertion_error, Result, ok, err, ◌>>=◌, ◌>>◌, require, or_raise, map_ok,
  map_ok-eq-map, lower_eq,
}

-- The attributes of an `RL_Device` that the check reads.
pub record Member : Type 0 where
  pub addr : String
  pub network_id : Option String

-- Those of an `RL_DeviceGroup`.
pub record Group : Type 0 where
  pub name : String
  pub network_id : Option String

-- `str(nid) if nid else None`
abbrev pub bound_network : Option String → Option String
bound_network none = none
bound_network (some nid) = if str_eq nid "" then none else some nid

-- The two codes of a NetworkBoundaryViolation, with the details that identify the conflict.
pub data Violation : Type 0 where
  devices_span_multiple_networks : List (String × List String) → Violation
  group_network_mismatch : String → String → List String → Option ℤ → String → Violation

-- `networks_seen.setdefault(nid, []).append(addr)`
unfoldable pub note : String → String → List (String × List String) → List (String × List String)
note nid addr [] = (nid, addr ∷ []) ∷ []
note nid addr ((k, addrs) ∷ rest) =
    let noted = note nid addr rest in
    if str_eq k nid then (k, addrs ++ addr ∷ []) ∷ rest else (k, addrs) ∷ noted

abbrev pub note_bound :
    Option String → String → List (String × List String) → List (String × List String)
note_bound none addr seen = seen
note_bound (some nid) addr seen = note nid addr seen

unfoldable pub networks_seen :
    List (String × List String) → List Member → List (String × List String)
networks_seen seen [] = seen
networks_seen seen (dev ∷ devs) =
    networks_seen (note_bound (bound_network dev.network_id) dev.addr seen) devs

abbrev pub is_unconfigured : Option ℤ → Bool
is_unconfigured none = false
is_unconfigured (some n) = eqb_ℤ n (pos 0)

-- The two conflict checks, on the networks seen and the group's network.
unfoldable pub conflict_of :
    List (String × List String) → Option String → Group → Option ℤ → Option Violation
conflict_of (a ∷ b ∷ rest) target group target_id =
    some (devices_span_multiple_networks (a ∷ b ∷ rest))
conflict_of [] target group target_id = none
conflict_of ((nid, macs) ∷ []) none group target_id = none
conflict_of ((nid, macs) ∷ []) (some target) group target_id =
    if str_eq nid target
    then none
    else some (group_network_mismatch nid target macs target_id group.name)

-- `none` is the return, a violation is raised.
unfoldable pub validate_group_membership : List Member → Group → Option ℤ → Option Violation
validate_group_membership devices target_group target_group_id =
    if is_unconfigured target_group_id
    then none
    else conflict_of (networks_seen [] devices) (bound_network target_group.network_id) target_group
        target_group_id
