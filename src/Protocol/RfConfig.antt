-- ===== src/Protocol/RfConfig.antt =====
-- `P_RfConfig`: RF_CONFIG_STRUCT, build_rf_config_body and unpack_rf_config_body of packets.py.
pub mod RoundTrip
use race_link_host.Prelude.{
  ℕ, ◌≡◌, refl, ◌⊎◌, inl, inr, Bool, true, false, List, [], ◌∷◌, ◌++◌, ℤ, pos, negsuc, mask, arith,
  length, Option, none, some, Result, ok, err, ◌>>=◌, or_raise, key_error, struct_error, ◌==◌,
  if◌then◌else◌, take, value_error,
}
use race_link_host.Struct.{Bytes, Format, u8, i8, u16, u32, pack, unpack}
use race_link_host.Protocol.Packets.{byte}

-- A complete configuration.
pub record RfConfig : Type 0 where
  pub freq_hz : ℤ
  pub bw_khz_x10 : ℤ
  pub sf : ℤ
  pub cr_den : ℤ
  pub sync_word : ℤ
  pub tx_power_dbm : ℤ
  pub preamble : ℤ

-- The dict that a caller hands over: any key may be missing.
pub record RfDict : Type 0 where
  pub freq_hz : Option ℤ
  pub bw_khz_x10 : Option ℤ
  pub sf : Option ℤ
  pub cr_den : Option ℤ
  pub sync_word : Option ℤ
  pub tx_power_dbm : Option ℤ
  pub preamble : Option ℤ

abbrev pub rf_config_struct : List Format
rf_config_struct = u32 ∷ u16 ∷ u8 ∷ u8 ∷ u8 ∷ i8 ∷ u16 ∷ []

unfoldable pub build_rf_config_body : RfDict → Result Bytes
build_rf_config_body rf_config = do
  freq_hz ← or_raise rf_config.freq_hz key_error
  bw_khz_x10 ← or_raise rf_config.bw_khz_x10 key_error
  sf ← or_raise rf_config.sf key_error
  cr_den ← or_raise rf_config.cr_den key_error
  sync_word ← or_raise rf_config.sync_word key_error
  tx_power_dbm ← or_raise rf_config.tx_power_dbm key_error
  preamble ← or_raise rf_config.preamble key_error
  pack (
      (u32, pos (mask 4294967296 freq_hz))
      ∷ (u16, pos (mask 65536 bw_khz_x10))
      ∷ (u8, byte sf)
      ∷ (u8, byte cr_den)
      ∷ (u8, byte sync_word)
      ∷ (i8, tx_power_dbm)
      ∷ (u16, pos (mask 65536 preamble))
      ∷ [])

-- `zip(RF_CONFIG_FIELDS, fields)`; the format yields seven fields, so no other list arises.
abbrev pub rf_config_of : List ℤ → Result RfConfig
rf_config_of (a ∷ b ∷ c ∷ d ∷ e ∷ f ∷ g ∷ []) = ok (record {
  freq_hz = a;
  bw_khz_x10 = b;
  sf = c;
  cr_den = d;
  sync_word = e;
  tx_power_dbm = f;
  preamble = g;
})
rf_config_of _ = err value_error

unfoldable pub unpack_rf_config_body : Bytes → Result RfConfig
unpack_rf_config_body bytes = do
  fields ← unpack rf_config_struct (take 12 bytes)
  rf_config_of fields
