-- ===== src/Tests/Networks.antt =====
-- Three networks on the first two channels of EU868, and broadcasts to them.
use race_link_host.Prelude.{
  ℕ, ◌≡◌, refl, ◌↔◌, inl, inr, none, some, List, [], ◌∷◌, map, arith, String, length, All, Within,
  pos, ok,
}
use race_link_host.RfPolicy.{
  Network, min_separation_hz, conflict_between, conflicts_of, validate_networks_separation,
  occupant, occupants_from, occupants_of,
}
use race_link_host.RfPolicy.Clashes.{AreSeparate, validate_iff}
use race_link_host.RfPolicy.Picker.{free_channel_adds_no_conflict}
use race_link_host.Channels.{
  Channel, region_channels, list_channels, rf_dict, validate_region, validate_table,
}
use race_link_host.Channels.Networks.{channels_are_compatible}
use race_link_host.Broadcast.{
  BroadcastTarget, ordered_from, from_ids, Transport, resolve_transports,
}
use race_link_host.Broadcast.Targets.{AreDistinct}
use race_link_host.Broadcast.Resolve.{
  idents, resolve_transports-AreDistinct, resolve_transports-reaches,
}

table_passes : validate_table region_channels ≡ ok tt
unfolding validate_table validate_region
table_passes = refl

abbrev eu868 : List Channel
eu868 = list_channels region_channels "EU868"

-- A network on a channel.
abbrev network_on : Channel → Network
network_on ch = record { id = ch.name; name = "net"; rf_config = some (rf_dict ch.rf) }

validate_iff_example :
    (validate_networks_separation 500000 (map network_on eu868) ≡ [])
    ↔ AreSeparate 500000 (map network_on eu868)
validate_iff_example = validate_iff 500000 (map network_on eu868)

abbrev on_frequency : String → ℕ → Network
on_frequency id freq_hz = record {
  id = id;
  name = id;
  rf_config = some (record {
    freq_hz = some (pos freq_hz);
    bw_khz_x10 = some (pos 1250);
    sf = some (pos 7);
    cr_den = some (pos 5);
    sync_word = some (pos 18);
    tx_power_dbm = some (pos 14);
    preamble = some (pos 8);
  });
}

-- Two networks that were saved when nothing checked them.
abbrev old : List Network
old = on_frequency "a" 868200000 ∷ on_frequency "b" 868300000 ∷ []

abbrev moved : Network
moved = on_frequency "c" 867700000

shown_as_free : occupants_of 500000 "c" moved.rf_config old ≡ []
unfolding occupants_of occupants_from occupant
shown_as_free = refl

free_channel_adds_no_conflict_example :
    validate_networks_separation 500000 (moved ∷ old) ≡ validate_networks_separation 500000 old
free_channel_adds_no_conflict_example =
    free_channel_adds_no_conflict 500000 "c" moved old (inr refl) shown_as_free

-- The two old networks conflict, so saving the third one on the free channel is rejected.
still_rejected : length (validate_networks_separation 500000 (moved ∷ old)) ≡ 1
unfolding validate_networks_separation conflicts_of conflict_between
still_rejected = refl

abbrev second : Channel
second = record {
  id = pos 2;
  name = "Alt-1";
  rf = record {
    freq_hz = pos 868200000;
    bw_khz_x10 = pos 1250;
    sf = pos 7;
    cr_den = pos 5;
    sync_word = pos 18;
    tx_power_dbm = pos 14;
    preamble = pos 8;
  };
}

channels_are_compatible_example :
    validate_networks_separation min_separation_hz
      (map network_on (list_channels region_channels "EU868"))
    ≡ []
unfolding list_channels
channels_are_compatible_example =
    channels_are_compatible network_on region_channels "EU868" (λ ch. refl)
      (
        (omega arith, omega arith),
        (
          (omega arith, omega arith),
          (
            (omega arith, omega arith),
            ((omega arith, omega arith), ((omega arith, omega arith), tt)),
          ),
        ),
      )
      table_passes

abbrev both : BroadcastTarget
both = record { network_ids = "a" ∷ "b" ∷ [] }

two_ids : from_ids (some "a" ∷ none ∷ some "b" ∷ some "a" ∷ []) ≡ ok both
unfolding from_ids ordered_from
two_ids = refl

abbrev second_id : String
second_id = "b"

-- One gateway that serves every network.
abbrev gateway : Transport
gateway = record { ident = 7; network_id = some "a" }

resolve_transports-AreDistinct_example :
    AreDistinct (idents (resolve_transports (λ nid. some gateway) both))
    × All
        (λ x. (nid : String) × (Within nid both.network_ids × (some gateway ≡ some x)))
        (resolve_transports (λ nid. some gateway) both)
resolve_transports-AreDistinct_example = resolve_transports-AreDistinct (λ nid. some gateway) both

resolve_transports-reaches_example :
    Within 7 (idents (resolve_transports (λ nid. some gateway) both))
resolve_transports-reaches_example =
    resolve_transports-reaches (λ nid. some gateway) both "b" gateway (inr (inl refl)) refl
