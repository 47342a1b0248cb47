-- ===== src/Protocol/RfConfig/RoundTrip.antt =====
-- Packing a radio configuration and reading it back.
use race_link_host.Prelude.{
  take_whole, ◌≡◌, refl, true, false, List, [], ◌∷◌, ◌++◌, ℤ, pos, negsuc, mask, arith, length,
  some, Result, ok, err, ◌>>=◌, struct_error, take,
}
use race_link_host.Struct.{Bytes, Format, u8, i8, u16, u32, pack, unpack, fits}
use race_link_host.Struct.RoundTrip.{
  pack-eq-layout, unpack-layout, layout, AllFit, AreBytes, with_values, pack-unpack, pack-AllFit,
}
use race_link_host.Protocol.Packets.{byte}
use race_link_host.Protocol.RfConfig.{
  RfConfig, RfDict, build_rf_config_body, unpack_rf_config_body, rf_config_struct, rf_config_of,
}

-- The dict of a complete configuration.
abbrev pub to_dict : RfConfig → RfDict
to_dict c = record {
  freq_hz = some c.freq_hz;
  bw_khz_x10 = some c.bw_khz_x10;
  sf = some c.sf;
  cr_den = some c.cr_den;
  sync_word = some c.sync_word;
  tx_power_dbm = some c.tx_power_dbm;
  preamble = some c.preamble;
}

-- The masks of the builder; the power is not masked.
abbrev pub masked : RfConfig → RfConfig
masked c = record {
  freq_hz = pos (mask 4294967296 c.freq_hz);
  bw_khz_x10 = pos (mask 65536 c.bw_khz_x10);
  sf = byte c.sf;
  cr_den = byte c.cr_den;
  sync_word = byte c.sync_word;
  tx_power_dbm = c.tx_power_dbm;
  preamble = pos (mask 65536 c.preamble);
}

abbrev pub fields : RfConfig → List (Format × ℤ)
fields c =
    (u32, c.freq_hz)
    ∷ (u16, c.bw_khz_x10)
    ∷ (u8, c.sf)
    ∷ (u8, c.cr_den)
    ∷ (u8, c.sync_word)
    ∷ (i8, c.tx_power_dbm)
    ∷ (u16, c.preamble)
    ∷ []

mask-fits :
    (v : ℤ)
    → (fits u8 (pos (mask 256 v)) ≡ true)
      × (fits u16 (pos (mask 65536 v)) ≡ true)
      × (fits u32 (pos (mask 4294967296 v)) ≡ true)
mask-fits (pos n) = ground arith
mask-fits (negsuc n) = ground arith

masked-AllFit : (c : RfConfig) → fits i8 c.tx_power_dbm ≡ true → AllFit (fields (masked c))
masked-AllFit c h = (
  (mask-fits c.freq_hz).2,
  (
    (mask-fits c.bw_khz_x10).1,
    (
      (mask-fits c.sf).0,
      ((mask-fits c.cr_den).0, ((mask-fits c.sync_word).0, (h, ((mask-fits c.preamble).1, tt)))),
    ),
  ),
)

take-layout : (c : RfConfig) → take 12 (layout (fields c)) ≡ layout (fields c)
take-layout c = refl

build-fits :
    (c : RfConfig)
    → fits i8 c.tx_power_dbm ≡ true
    → build_rf_config_body (to_dict c) ≡ ok (layout (fields (masked c)))
unfolding build_rf_config_body
build-fits c h = pack-eq-layout (fields (masked c)) (masked-AllFit c h)

-- A complete configuration whose power fits a signed byte is packed to twelve bytes, and these are
-- read back as the configuration with the builder's masks applied.
pub unpack-build :
    (c : RfConfig) (rest : Bytes)
    → fits i8 c.tx_power_dbm ≡ true
    → (bs : Bytes) × (build_rf_config_body (to_dict c) ≡ ok bs)
      × (length bs ≡ 12)
      × (unpack_rf_config_body (bs ++ rest) ≡ ok (masked c))
unfolding unpack_rf_config_body
unpack-build c rest h = (
  layout (fields (masked c)),
  build-fits c h,
  refl,
  rw (unpack-layout (fields (masked c)) (masked-AllFit c h)),
)

-- A power outside -128..127 is refused with struct.error, whatever the other fields.
build_overflow :
    (c : RfConfig)
    → fits i8 c.tx_power_dbm ≡ false
    → build_rf_config_body (to_dict c) ≡ err struct_error
unfolding build_rf_config_body pack
build_overflow c h = rw (
  (mask-fits c.freq_hz).2,
  (mask-fits c.bw_khz_x10).1,
  (mask-fits c.sf).0,
  (mask-fits c.cr_den).0,
  (mask-fits c.sync_word).0,
  h,
)

mask_id :
    (v : ℤ)
    → ((fits u8 v ≡ true) → pos (mask 256 v) ≡ v)
      × ((fits u16 v ≡ true) → pos (mask 65536 v) ≡ v)
      × ((fits u32 v ≡ true) → pos (mask 4294967296 v) ≡ v)
mask_id (pos n) = (λ h. ground arith, λ h. ground arith, λ h. ground arith)
mask_id (negsuc n) = (λ h. ground arith, λ h. ground arith, λ h. ground arith)

build-fields :
    (c : RfConfig) (bs : Bytes) → pack (fields c) ≡ ok bs → build_rf_config_body (to_dict c) ≡ ok bs
unfolding build_rf_config_body
build-fields c bs h =
    let (f0, (f1, (f2, (f3, (f4, (f5, (f6, f7))))))) = pack-AllFit (fields c) bs h in
    rw
      (
        (mask_id c.freq_hz).2 f0,
        (mask_id c.bw_khz_x10).1 f1,
        (mask_id c.sf).0 f2,
        (mask_id c.cr_den).0 f3,
        (mask_id c.sync_word).0 f4,
        (mask_id c.preamble).1 f6,
      )
      h

rf_config_of-fields :
    (vs : List ℤ) (c : RfConfig)
    → rf_config_of vs ≡ ok c
    → with_values rf_config_struct vs ≡ fields c
rf_config_of-fields (x0 ∷ x1 ∷ x2 ∷ x3 ∷ x4 ∷ x5 ∷ x6 ∷ []) c h = ground arith
rf_config_of-fields _ c h = ground arith

rebuild :
    (bs : Bytes) (c : RfConfig) (r : Result (List ℤ))
    → AreBytes bs
    → unpack rf_config_struct bs ≡ r
    → (r >>= rf_config_of) ≡ ok c
    → build_rf_config_body (to_dict c) ≡ ok bs
rebuild bs c (err x) k u h = absurd (cc h)
rebuild bs c (ok vs) k u h =
    build-fields c bs (rw (rf_config_of-fields vs c h) at (pack-unpack rf_config_struct vs bs u k))

-- Whatever is read from twelve bytes, packing it gives those twelve bytes again.
build-unpack :
    (bs : Bytes) (c : RfConfig)
    → length bs ≡ 12
    → AreBytes bs
    → unpack_rf_config_body bs ≡ ok c
    → build_rf_config_body (to_dict c) ≡ ok bs
unfolding unpack_rf_config_body
build-unpack bs c h k e =
    rebuild bs c (unpack rf_config_struct bs) k refl (rw (take_whole 12 bs h) at e)
