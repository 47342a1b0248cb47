-- ===== src/Channels/Networks.antt =====
-- Networks on the channels of one region, under racelink/domain/rf_policy.py.
use race_link_host.Prelude.{
  ◌≡◌, refl, ap, inl, inr, true, Option, none, some, List, [], ◌∷◌, map, arith, String, leb, ◌==◌,
  ==_iff, Bool-cases, All, ℤ, pos, negsuc, ◌≤ℤ◌, eqb_ℤ, distance, mask, assertion_error, ok,
}
use race_link_host.Channels.{
  Channel, channel_separation_hz, list_channels, rf_dict, for_each, separated, all_separated,
  validate_table,
}
use race_link_host.Channels.Validated.{>>-ok, require-ok, region_parts, list_channels-validated}
use race_link_host.RfPolicy.{
  Network, network_rf_config, usable, conflict_between, conflicts_of, conflicts_if_usable,
  validate_networks_separation, min_separation_hz, same_network,
}

-- The sync word is a byte, as the radio's register is.
abbrev pub HasByteSync : Channel → Type 0
HasByteSync ch = (pos 0 ≤ℤ ch.rf.sync_word) × (ch.rf.sync_word ≤ℤ pos 255)

mask-eqb :
    (a b : ℤ)
    → pos 0 ≤ℤ a
    → a ≤ℤ pos 255
    → pos 0 ≤ℤ b
    → b ≤ℤ pos 255
    → mask 256 a ≡ mask 256 b
    → eqb_ℤ a b ≡ true
mask-eqb (pos a) (pos b) ha ka hb kb h = ground arith
mask-eqb (negsuc a) b ha ka hb kb h = absurd (omega arith)
mask-eqb (pos a) (negsuc b) ha ka hb kb h = absurd (omega arith)

module _ (net : Channel → Network)
    (on_channel : (ch : Channel) → (net ch).rf_config ≡ some (rf_dict ch.rf)) where
  no_conflict :
      (a b : Channel)
      → HasByteSync a
      → HasByteSync b
      → separated a b ≡ ok tt
      → conflict_between min_separation_hz
          (net a)
          (a.rf.freq_hz, a.rf.sync_word)
          (net b)
          (some (b.rf.freq_hz, b.rf.sync_word))
        ≡ none
  unfolding conflict_between
  no_conflict a b ha hb h = elim (Bool-cases (same_network (net a).id (net b).id)) [
    | inl same ↦ rw same
    | inr different ↦ elim (Bool-cases (mask 256 a.rf.sync_word == mask 256 b.rf.sync_word)) [
      | inr other_sync ↦ rw (different, other_sync)
      | inl same_sync ↦
          let eq =
            mask-eqb a.rf.sync_word b.rf.sync_word ha.0 ha.1 hb.0 hb.1 ((==_iff _ _).0 same_sync) in
          let far =
            require-ok (leb channel_separation_hz (distance a.rf.freq_hz b.rf.freq_hz))
              assertion_error (rw eq at h) in
          rw (different, same_sync, far)
    ]
  ]

  cfg_of : (ch : Channel) → network_rf_config (net ch) ≡ some (ch.rf.freq_hz, ch.rf.sync_word)
  cfg_of ch = ap usable (on_channel ch)

  no_conflict_of :
      (a b : Channel) (o : Option (ℤ × ℤ))
      → o ≡ some (b.rf.freq_hz, b.rf.sync_word)
      → HasByteSync a
      → HasByteSync b
      → separated a b ≡ ok tt
      → conflict_between min_separation_hz (net a) (a.rf.freq_hz, a.rf.sync_word) (net b) o ≡ none
  no_conflict_of a b o e ha hb h = rw e (no_conflict a b ha hb h)

  none_if :
      (a : Channel) (o : Option (ℤ × ℤ)) (nets : List Network)
      → o ≡ some (a.rf.freq_hz, a.rf.sync_word)
      → conflicts_of min_separation_hz (net a) (a.rf.freq_hz, a.rf.sync_word) nets ≡ []
      → conflicts_if_usable min_separation_hz (net a) o nets ≡ []
  none_if a o nets e h = rw e h

  none_with :
      (a : Channel) (rest : List Channel)
      → HasByteSync a
      → All HasByteSync rest
      → for_each (separated a) rest ≡ ok tt
      → conflicts_of min_separation_hz (net a) (a.rf.freq_hz, a.rf.sync_word) (map net rest) ≡ []
  unfolding conflicts_of
  none_with a [] ha hs h = refl
  none_with a (b ∷ rest) ha hs h =
      let parts = >>-ok (separated a b) (for_each (separated a) rest) h in
      rw (no_conflict_of a b (network_rf_config (net b)) (cfg_of b) ha hs.0 parts.0)
        (none_with a rest ha hs.1 parts.1)

  separated-networks :
      (channels : List Channel)
      → All HasByteSync channels
      → all_separated channels ≡ ok tt
      → validate_networks_separation min_separation_hz (map net channels) ≡ []
  unfolding validate_networks_separation
  separated-networks [] hs h = refl
  separated-networks (a ∷ rest) hs h =
      let parts = >>-ok (for_each (separated a) rest) (all_separated rest) h in
      rw
        (none_if a (network_rf_config (net a)) (map net rest) (cfg_of a)
          (none_with a rest hs.0 hs.1 parts.0))
        (separated-networks rest hs.1 parts.1)

-- A table that passes the self-check and whose sync words are bytes never leads to a rejection: one
-- network on each channel of a region, whatever their ids and names, gives the validator no conflict.
pub channels_are_compatible :
    (net : Channel → Network) (table : List (String × List Channel)) (region : String)
    → ((ch : Channel) → (net ch).rf_config ≡ some (rf_dict ch.rf))
    → All HasByteSync (list_channels table region)
    → validate_table table ≡ ok tt
    → validate_networks_separation min_separation_hz (map net (list_channels table region)) ≡ []
unfolding validate_networks_separation
channels_are_compatible net table region on_channel hs h =
    elim (list_channels-validated table region h) [
      | inl empty ↦ rw empty refl
      | inr valid ↦
          separated-networks net on_channel (list_channels table region) hs (region_parts _ valid).1
    ]
