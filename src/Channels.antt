-- ===== src/Channels.antt =====
-- racelink/domain/rf_channels.py: the table of regions and channels, its look-ups and its self-check.
pub mod Validated
pub mod Networks
use race_link_host.Prelude.{
  ℕ, zero, suc, ◌+◌, ◌-◌, ◌*◌, ◌/◌, ◌%◌, ◌≤◌, ◌<◌, ◌≡◌, refl, sym, ap, ◌∙◌, ◌≢◌, ◌↔◌, ◌⊎◌, inl, inr,
  Bool, true, false, not, ◌&&◌, ◌||◌, Option, none, some, List, [], ◌∷◌, ◌++◌, map, arith, str_eq,
  eq_iff, String, ltb, leb, ◌==◌, ==_iff, lt→leb_false, if◌then◌else◌, Bool-cases, Option-cases,
  get_or, is_some, length, take, drop, keep_if, any_of, all_of, length-append, length-map,
  length-keep_if, All, Within, Within-left, Within-right, Within-append, append-eq-nil, sum,
  sum-append, ℤ, pos, negsuc, pos_part, neg_part, sub_ℕ, ◌+ℤ◌, ◌*ℤ◌, ◌≤ℤ◌, leb_ℤ, eqb_ℤ, distance,
  mask, clamp, clamp_bounds, clamp_id, mask-byte-lt, Error, value_error, key_error, struct_error,
  index_error, assertion_error, Result, ok, err, ◌>>=◌, ◌>>◌, require, or_raise, map_ok,
  map_ok-eq-map, lower_eq,
}
use race_link_host.Protocol.RfConfig.{RfConfig, RfDict}

-- A descriptor: `id`, `name` and the seven fields of the wire configuration.
pub record Channel : Type 0 where
  pub id : ℤ
  pub name : String
  pub rf : RfConfig

abbrev pub default_sync_word : ℤ
default_sync_word = pos 18

abbrev channel : ℕ → String → ℕ → Channel
channel id name freq_hz = record {
  id = pos id;
  name = name;
  rf = record {
    freq_hz = pos freq_hz;
    bw_khz_x10 = pos 1250;
    sf = pos 7;
    cr_den = pos 5;
    sync_word = default_sync_word;
    tx_power_dbm = pos 14;
    preamble = pos 8;
  };
}

abbrev pub region_channels : List (String × List Channel)
region_channels =
    (
      "EU868",
      channel 1 "Default" 867700000
          ∷ channel 2 "Alt-1" 868200000
          ∷ channel 3 "Alt-2" 868700000
          ∷ channel 4 "Alt-3" 869200000
          ∷ channel 5 "High" 869700000
          ∷ [],
    )
    ∷ (
      "US915",
      channel 1 "Default" 904300000
          ∷ channel 2 "Alt-1" 905300000
          ∷ channel 3 "Alt-2" 906300000
          ∷ channel 4 "Alt-3" 907300000
          ∷ channel 5 "High" 908300000
          ∷ [],
    )
    ∷ []

abbrev pub max_channels_per_region : ℕ
max_channels_per_region = 5

abbrev pub channel_separation_hz : ℕ
channel_separation_hz = 500000

-- `table.get(region, [])`
unfoldable pub list_channels : List (String × List Channel) → String → List Channel
list_channels [] region = []
list_channels ((key, channels) ∷ table) region =
    let rest = list_channels table region in if str_eq key region then channels else rest

unfoldable pub channel_with_id : List Channel → ℤ → Option Channel
channel_with_id [] channel_id = none
channel_with_id (ch ∷ channels) channel_id =
    let rest = channel_with_id channels channel_id in
    if eqb_ℤ ch.id channel_id then some ch else rest

-- `channel_id` is `none` where the caller passes None.
unfoldable pub get_channel : List (String × List Channel) → String → Option ℤ → Option Channel
get_channel table region none = none
get_channel table region (some channel_id) = channel_with_id (list_channels table region) channel_id

abbrev pub rf_dict : RfConfig → RfDict
rf_dict c = record {
  freq_hz = some c.freq_hz;
  bw_khz_x10 = some c.bw_khz_x10;
  sf = some c.sf;
  cr_den = some c.cr_den;
  sync_word = some c.sync_word;
  tx_power_dbm = some c.tx_power_dbm;
  preamble = some c.preamble;
}

abbrev dict_of_channel : Option Channel → Option RfDict
dict_of_channel none = none
dict_of_channel (some ch) = some (rf_dict ch.rf)

unfoldable pub channel_rf_config : List (String × List Channel) → String → Option ℤ → Option RfDict
channel_rf_config table region channel_id = dict_of_channel (get_channel table region channel_id)

-- `for x in xs:` with a body that may raise.
abbrev pub for_each : {A : Type 0} → (A → Result (Unit {0})) → List A → Result (Unit {0})
for_each body [] = ok tt
for_each body (x ∷ xs) = body x >> for_each body xs

-- `len(set(ids)) == len(ids)`
abbrev pub no_duplicates : List ℤ → Bool
no_duplicates [] = true
no_duplicates (x ∷ xs) = not (any_of (eqb_ℤ x) xs) && no_duplicates xs

abbrev pub in_band : Channel → Result (Unit {0})
in_band ch =
    require (leb_ℤ (pos 800000000) ch.rf.freq_hz && leb_ℤ ch.rf.freq_hz (pos 1000000000))
      assertion_error

-- The body of the innermost loop: channels with one sync word keep their distance.
abbrev pub separated : Channel → Channel → Result (Unit {0})
separated a b =
    if not (eqb_ℤ a.rf.sync_word b.rf.sync_word)
    then ok tt
    else require (leb channel_separation_hz (distance a.rf.freq_hz b.rf.freq_hz)) assertion_error

abbrev pub all_separated : List Channel → Result (Unit {0})
all_separated [] = ok tt
all_separated (a ∷ rest) = for_each (separated a) rest >> all_separated rest

-- The checks of one region.
unfoldable pub validate_region : List Channel → Result (Unit {0})
validate_region channels =
    require (leb 1 (length channels) && leb (length channels) max_channels_per_region)
      assertion_error
    >> require (no_duplicates (map (λ ch. ch.id) channels)) assertion_error
    >> for_each in_band channels
    >> all_separated channels

unfoldable pub validate_table : List (String × List Channel) → Result (Unit {0})
validate_table [] = ok tt
validate_table ((region, channels) ∷ table) = validate_region channels >> validate_table table
