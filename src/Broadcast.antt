-- ===== src/Broadcast.antt =====
-- racelink/transport/broadcast_target.py: the networks that a broadcast addresses.
pub mod Targets
pub mod Resolve
use race_link_host.Prelude.{
  ℕ, zero, suc, ◌+◌, ◌-◌, ◌*◌, ◌/◌, ◌%◌, ◌≤◌, ◌<◌, ◌≡◌, refl, sym, ap, ◌∙◌, ◌≢◌, ◌↔◌, ◌⊎◌, inl, inr,
  Bool, true, false, not, ◌&&◌, ◌||◌, Option, none, some, List, [], ◌∷◌, ◌++◌, map, arith, str_eq,
  eq_iff, String, ltb, leb, ◌==◌, ==_iff, lt→leb_false, if◌then◌else◌, Bool-cases, Option-cases,
  get_or, is_some, length, take, drop, keep_if, any_of, all_of, length-append, length-map,
  length-keep_if, All, Within, Within-left, Within-right, Within-append, append-eq-nil, sum,
  sum-append, ℤ, pos, negsuc, pos_part, neg_part, sub_ℕ, ◌+ℤ◌, ◌*ℤ◌, ◌≤ℤ◌, leb_ℤ, eqb_ℤ, distance,
  mask, clamp, clamp_bounds, clamp_id, mask-byte-lt, Error, value_error, key_error, struct_error,
  index_error, assertion_error, Result, ok, err, ◌>>=◌, ◌>>◌, require, or_raise, map_ok,
  map_ok-eq-map, lower_eq,
}

-- A `BroadcastTarget`, by its `network_ids`. The constructor refuses an empty tuple.
pub record BroadcastTarget : Type 0 where
  pub network_ids : List String

abbrev pub target_of : List String → Result BroadcastTarget
target_of [] = err value_error
target_of (nid ∷ nids) = ok (record { network_ids = nid ∷ nids })

-- The loop of `from_ids` and of `all_attached`: what it appends to `ordered`, given `seen`.
unfoldable pub ordered_from : List String → List (Option String) → List String
ordered_from seen [] = []
ordered_from seen (nid ∷ nids) =
    let s = get_or nid "" in
    let skipped = ordered_from seen nids in
    let rest = ordered_from (s ∷ seen) nids in
    if str_eq s "" || any_of (str_eq s) seen then skipped else s ∷ rest

unfoldable pub from_ids : List (Option String) → Result BroadcastTarget
from_ids network_ids = target_of (ordered_from [] network_ids)

unfoldable pub single : String → Result BroadcastTarget
single network_id = if str_eq network_id "" then err value_error else target_of (network_id ∷ [])

-- An attached transport: the identity of the object, and its stamped network.
pub record Transport : Type 0 where
  pub ident : ℕ
  pub network_id : Option String

unfoldable pub all_attached : List Transport → Result BroadcastTarget
all_attached transports = target_of (ordered_from [] (map (λ t. t.network_id) transports))

-- `resolve_transports`, given the controller's `transport_for_network`.
unfoldable pub resolve_from : (String → Option Transport) → List ℕ → List String → List Transport
resolve_from transport_for_network seen [] = []
resolve_from transport_for_network seen (nid ∷ nids) = elim (transport_for_network nid) [
  | none ↦ resolve_from transport_for_network seen nids
  | some t ↦
      if any_of (λ ident. t.ident == ident) seen
      then resolve_from transport_for_network seen nids
      else t ∷ resolve_from transport_for_network (t.ident ∷ seen) nids
]

unfoldable pub resolve_transports : (String → Option Transport) → BroadcastTarget → List Transport
resolve_transports transport_for_network target =
    resolve_from transport_for_network [] target.network_ids
