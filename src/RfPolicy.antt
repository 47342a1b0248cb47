-- ===== src/RfPolicy.antt =====
-- racelink/domain/rf_policy.py: networks that would interfere with each other.
pub mod Clashes
pub mod Picker
use race_link_host.Prelude.{
  ℕ, zero, suc, ◌+◌, ◌-◌, ◌*◌, ◌/◌, ◌%◌, ◌≤◌, ◌<◌, ◌≡◌, refl, sym, ap, ◌∙◌, ◌≢◌, ◌↔◌, ◌⊎◌, inl, inr,
  Bool, true, false, not, ◌&&◌, ◌||◌, Option, none, some, List, [], ◌∷◌, ◌++◌, map, arith, str_eq,
  eq_iff, String, ltb, leb, ◌==◌, ==_iff, if◌then◌else◌, Bool-cases, Option-cases, get_or, is_some,
  length, take, drop, keep_if, any_of, all_of, length-append, length-map, length-keep_if, All,
  Within, Within-left, Within-right, Within-append, sum, sum-append, ℤ, pos, negsuc, pos_part,
  neg_part, sub_ℕ, ◌+ℤ◌, ◌*ℤ◌, ◌≤ℤ◌, leb_ℤ, eqb_ℤ, distance, mask, clamp, clamp_bounds, clamp_id,
  mask-byte-lt, Error, value_error, key_error, struct_error, index_error, assertion_error, Result,
  ok, err, ◌>>=◌, ◌>>◌, require, or_raise, map_ok, map_ok-eq-map, lower_eq,
}
use race_link_host.Protocol.RfConfig.{RfDict}

-- The part of an `RL_Network` that the policy reads; "" is a missing id or name.
pub record Network : Type 0 where
  pub id : String
  pub name : String
  pub rf_config : Option RfDict

abbrev pub min_separation_hz : ℕ
min_separation_hz = 500000

abbrev pub both_given : Option ℤ → Option ℤ → Option (ℤ × ℤ)
both_given (some freq) (some sync) = some (freq, sync)
both_given _ _ = none

-- `_network_rf_config`: the frequency and the sync word, if the configuration has both.
abbrev pub usable : Option RfDict → Option (ℤ × ℤ)
usable none = none
usable (some cfg) = both_given cfg.freq_hz cfg.sync_word

abbrev pub network_rf_config : Network → Option (ℤ × ℤ)
network_rf_config net = usable net.rf_config

pub record Side : Type 0 where
  pub id : String
  pub name : String
  pub freq_hz : ℤ
  pub sync_word : ℕ

-- A conflict; its `reason` is always "freq_too_close_same_sync".
pub record Conflict : Type 0 where
  pub a : Side
  pub b : Side
  pub gap_hz : ℕ
  pub min_separation : ℕ

-- `id_a and id_b and id_a == id_b`
abbrev pub same_network : String → String → Bool
same_network a b = not (str_eq a "") && (not (str_eq b "") && str_eq a b)

abbrev pub side : Network → ℤ → ℤ → Side
side net freq sync = record {
  id = net.id;
  name = net.name;
  freq_hz = freq;
  sync_word = mask 256 sync;
}

-- The body of the inner loop: the conflict of two networks, if they have one.
unfoldable pub conflict_between : ℕ → Network → ℤ × ℤ → Network → Option (ℤ × ℤ) → Option Conflict
conflict_between min_hz a cfg_a b none = none
conflict_between min_hz a (freq_a, sync_a) b (some (freq_b, sync_b)) =
    if same_network a.id b.id
    then none
    else if not (mask 256 sync_a == mask 256 sync_b)
    then none
    else if leb min_hz (distance freq_a freq_b)
    then none
    else some (record {
      a = side a freq_a sync_a;
      b = side b freq_b sync_b;
      gap_hz = distance freq_a freq_b;
      min_separation = min_hz;
    })

abbrev pub cons_some {ℓ} : {A : Type ℓ} → Option A → List A → List A
cons_some none xs = xs
cons_some (some x) xs = x ∷ xs

-- `for b in materialized[i + 1:]`
unfoldable pub conflicts_of : ℕ → Network → ℤ × ℤ → List Network → List Conflict
conflicts_of min_hz a cfg_a [] = []
conflicts_of min_hz a cfg_a (b ∷ bs) =
    cons_some (conflict_between min_hz a cfg_a b (network_rf_config b))
      (conflicts_of min_hz a cfg_a bs)

abbrev pub conflicts_if_usable : ℕ → Network → Option (ℤ × ℤ) → List Network → List Conflict
conflicts_if_usable min_hz a none bs = []
conflicts_if_usable min_hz a (some cfg) bs = conflicts_of min_hz a cfg bs

unfoldable pub validate_networks_separation : ℕ → List Network → List Conflict
validate_networks_separation min_hz [] = []
validate_networks_separation min_hz (a ∷ rest) =
    conflicts_if_usable min_hz a (network_rf_config a) rest
    ++ validate_networks_separation min_hz rest

pub record Occupant : Type 0 where
  pub id : String
  pub name : String
  pub freq_hz : ℤ
  pub sync_word : ℕ
  pub gap_hz : ℕ

unfoldable pub occupant : ℕ → String → ℤ × ℤ → Network → Option (ℤ × ℤ) → Option Occupant
occupant min_hz skip cfg net none = none
occupant min_hz skip (freq, sync) net (some (other_freq, other_sync)) =
    if not (str_eq skip "") && str_eq net.id skip
    then none
    else if not (mask 256 other_sync == mask 256 sync)
    then none
    else if leb min_hz (distance other_freq freq)
    then none
    else some (record {
      id = net.id;
      name = net.name;
      freq_hz = other_freq;
      sync_word = mask 256 other_sync;
      gap_hz = distance other_freq freq;
    })

unfoldable pub occupants_from : ℕ → String → ℤ × ℤ → List Network → List Occupant
occupants_from min_hz skip cfg [] = []
occupants_from min_hz skip cfg (net ∷ nets) =
    cons_some (occupant min_hz skip cfg net (network_rf_config net))
      (occupants_from min_hz skip cfg nets)

-- `skip` is the id of the network that is being edited, "" if there is none.
unfoldable pub occupants_of : ℕ → String → Option RfDict → List Network → List Occupant
occupants_of min_hz skip rf_config nets = elim (usable rf_config) [
  | none ↦ []
  | some cfg ↦ occupants_from min_hz skip cfg nets
]
