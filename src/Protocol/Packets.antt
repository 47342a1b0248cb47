-- ===== src/Protocol/Packets.antt =====
-- The fixed-length bodies of racelink/protocol/packets.py, and OPC_SYNC.
use race_link_host.Prelude.{
  ℕ, ◌+◌, ◌*◌, ◌/◌, ◌%◌, ◌≡◌, refl, List, [], ◌∷◌, ◌++◌, ℤ, pos, negsuc, mask, arith, length,
  Result, ok, ◌==◌, if◌then◌else◌, map,
}
use race_link_host.Struct.{Bytes, Format, u8, pack}

abbrev pub byte : ℤ → ℤ
byte v = pos (mask 256 v)

unfoldable pub build_get_devices_body : ℤ → ℤ → Result Bytes
build_get_devices_body group_id flags = pack ((u8, byte group_id) ∷ (u8, byte flags) ∷ [])

unfoldable pub build_set_group_body : ℤ → Result Bytes
build_set_group_body group_id = pack ((u8, byte group_id) ∷ [])

unfoldable pub build_preset_body : ℤ → ℤ → ℤ → ℤ → Result Bytes
build_preset_body group_id flags preset_id brightness =
    pack
      ((u8, byte group_id) ∷ (u8, byte flags) ∷ (u8, byte preset_id) ∷ (u8, byte brightness) ∷ [])

unfoldable pub build_indicate_body : ℤ → ℤ → Result Bytes
build_indicate_body indicator_type duration_sec =
    pack ((u8, byte indicator_type) ∷ (u8, byte duration_sec) ∷ [])

unfoldable pub build_config_body : ℤ → ℤ → ℤ → ℤ → ℤ → Result Bytes
build_config_body option data0 data1 data2 data3 = pack (
    (u8, byte option)
    ∷ (u8, byte data0)
    ∷ (u8, byte data1)
    ∷ (u8, byte data2)
    ∷ (u8, byte data3)
    ∷ [])

unfoldable pub build_get_config_body : ℤ → Result Bytes
build_get_config_body option = pack ((u8, byte option) ∷ [])

unfoldable pub build_get_rf_config_body : ℤ → Result Bytes
build_get_rf_config_body reserved = pack ((u8, byte reserved) ∷ [])

abbrev pub sync_flag_trigger_armed : ℤ
sync_flag_trigger_armed = pos 1

-- Four bytes for a clock tick, a fifth with the flags if there are any.
unfoldable pub build_sync_body : ℤ → ℤ → ℤ → Bytes
build_sync_body ts24 brightness flags =
    let ts = mask 16777216 ts24 in
    let base = ts % 256 ∷ ts / 256 % 256 ∷ ts / 65536 % 256 ∷ mask 256 brightness ∷ [] in
    let f = mask 256 flags in if f == 0 then base else base ++ f ∷ []

-- The timestamp that the first three bytes of an OPC_SYNC body carry.
abbrev pub sync_ts24 : Bytes → ℕ
sync_ts24 (a ∷ b ∷ c ∷ rest) = a + b * 256 + c * 65536
sync_ts24 _ = 0

abbrev pub fourth_byte : Bytes → ℕ
fourth_byte (a ∷ b ∷ c ∷ d ∷ rest) = d
fourth_byte _ = 0

-- An OPC_SYNC body carries the low 24 bits of the timestamp and the low byte of the brightness, and
-- has the legacy length 4 exactly when no flag is set in the low byte, else 5.
build_sync_body_lem :
    (ts24 brightness flags : ℤ)
    → let body = build_sync_body ts24 brightness flags in
      (sync_ts24 body ≡ mask 16777216 ts24)
      × (fourth_byte body ≡ mask 256 brightness)
      × (length body ≡ (if mask 256 flags == 0 then 4 else 5))
unfolding build_sync_body
build_sync_body_lem (pos t) b f = ground arith
build_sync_body_lem (negsuc t) b f = ground arith

bytes_of : List ℤ → List (Format × ℤ)
bytes_of [] = []
bytes_of (v ∷ vs) = (u8, byte v) ∷ bytes_of vs

pack-bytes_of : (vs : List ℤ) → pack (bytes_of vs) ≡ ok (map (mask 256) vs)
unfolding pack bytes_of
pack-bytes_of [] = refl
pack-bytes_of (pos n ∷ vs) = rw (pack-bytes_of vs) (ground arith)
pack-bytes_of (negsuc n ∷ vs) = rw (pack-bytes_of vs) (ground arith)

-- The six masked builders accept every integer and never raise: the body is one byte for each
-- argument, its low eight bits.
pub masked_bodies :
    (a b c d e : ℤ)
    → (build_get_devices_body a b ≡ ok (mask 256 a ∷ mask 256 b ∷ []))
      × (build_set_group_body a ≡ ok (mask 256 a ∷ []))
      × (build_preset_body a b c d ≡ ok (mask 256 a ∷ mask 256 b ∷ mask 256 c ∷ mask 256 d ∷ []))
      × (build_indicate_body a b ≡ ok (mask 256 a ∷ mask 256 b ∷ []))
      × (build_config_body a b c d e
          ≡ ok (mask 256 a ∷ mask 256 b ∷ mask 256 c ∷ mask 256 d ∷ mask 256 e ∷ []))
      × (build_get_config_body a ≡ ok (mask 256 a ∷ []))
unfolding bytes_of build_get_devices_body build_set_group_body build_preset_body build_indicate_body
    build_config_body build_get_config_body
masked_bodies a b c d e = (
  pack-bytes_of (a ∷ b ∷ []),
  pack-bytes_of (a ∷ []),
  pack-bytes_of (a ∷ b ∷ c ∷ d ∷ []),
  pack-bytes_of (a ∷ b ∷ []),
  pack-bytes_of (a ∷ b ∷ c ∷ d ∷ e ∷ []),
  pack-bytes_of (a ∷ []),
)
