-- ===== src/Protocol/OffsetBody/RoundTrip.antt =====
-- What `build_offset_body` sends is what `parse_offset_body` reads.
use race_link_host.Prelude.{
  ◌%◌, ◌≤◌, ◌≡◌, refl, true, List, [], ◌∷◌, arith, length, ℤ, pos, negsuc, clamp, ok,
}
use race_link_host.Struct.{Bytes, Format, u8, u16, i16, fits}
use race_link_host.Struct.RoundTrip.{layout, AllFit, pack-eq-layout, unpack-layout}
use race_link_host.Protocol.Packets.{byte}
use race_link_host.Protocol.OffsetBody.{
  OffsetMode, mode_none, mode_explicit, mode_linear, mode_vshape, mode_modulo, mode_byte, ModeArg,
  by_int, by_name, coerce_mode, mode_of_name, mode_name, OffsetArgs, clamp_offset, clamp_base,
  clamp_center, clamp_cycle, offset_body, build_offset_body, OffsetConfig, no_offset, explicit,
  linear, vshape, modulo, parse_config, parse_offset_body,
}

-- The configuration that the arguments ask for, each parameter brought into its range.
abbrev pub requested : OffsetMode → OffsetArgs → OffsetConfig
requested mode_none a = no_offset
requested mode_explicit a = explicit (clamp_offset a.offset_ms)
requested mode_linear a = linear (clamp_base a.base_ms) (clamp_base a.step_ms)
requested mode_vshape a =
    vshape (clamp_base a.base_ms) (clamp_base a.step_ms) (clamp (pos 0) (pos 254) a.center)
requested mode_modulo a =
    modulo (clamp_base a.base_ms) (clamp_base a.step_ms) (clamp (pos 1) (pos 255) a.cycle)

clamp_fits :
    (v : ℤ)
    → (fits u16 (clamp_offset v) ≡ true)
      × (fits i16 (clamp_base v) ≡ true)
      × (fits u8 (clamp_center v) ≡ true)
      × (fits u8 (clamp_cycle v) ≡ true)
clamp_fits (pos n) = ground arith
clamp_fits (negsuc n) = ground arith

byte-clamp :
    (v : ℤ)
    → (clamp_center v ≡ clamp (pos 0) (pos 254) v) × (clamp_cycle v ≡ clamp (pos 1) (pos 255) v)
byte-clamp (pos n) = ground arith
byte-clamp (negsuc n) = ground arith

byte-fits : (v : ℤ) → fits u8 (byte v) ≡ true
byte-fits (pos n) = ground arith
byte-fits (negsuc n) = ground arith

-- The fields after the two leading bytes.
abbrev parameters : OffsetMode → OffsetArgs → List (Format × ℤ)
parameters mode_none a = []
parameters mode_explicit a = (u16, clamp_offset a.offset_ms) ∷ []
parameters mode_linear a = (i16, clamp_base a.base_ms) ∷ (i16, clamp_base a.step_ms) ∷ []
parameters mode_vshape a =
    (i16, clamp_base a.base_ms) ∷ (i16, clamp_base a.step_ms) ∷ (u8, clamp_center a.center) ∷ []
parameters mode_modulo a =
    (i16, clamp_base a.base_ms) ∷ (i16, clamp_base a.step_ms) ∷ (u8, clamp_cycle a.cycle) ∷ []

parameters-AllFit : (m : OffsetMode) (a : OffsetArgs) → AllFit (parameters m a)
parameters-AllFit mode_none a = tt
parameters-AllFit mode_explicit a = ((clamp_fits a.offset_ms).0, tt)
parameters-AllFit mode_linear a = ((clamp_fits a.base_ms).1, ((clamp_fits a.step_ms).1, tt))
parameters-AllFit mode_vshape a =
    ((clamp_fits a.base_ms).1, ((clamp_fits a.step_ms).1, ((clamp_fits a.center).2, tt)))
parameters-AllFit mode_modulo a =
    ((clamp_fits a.base_ms).1, ((clamp_fits a.step_ms).1, ((clamp_fits a.cycle).3, tt)))

-- The bytes that are sent.
abbrev pub sent : ℤ → OffsetMode → OffsetArgs → Bytes
sent group_id m a = layout ((u8, byte group_id) ∷ (u8, pos (mode_byte m)) ∷ parameters m a)

offset_body-eq-sent :
    (group_id : ℤ) (m : OffsetMode) (a : OffsetArgs)
    → offset_body (byte group_id) m a ≡ ok (sent group_id m a)
unfolding offset_body
offset_body-eq-sent g mode_none a =
    pack-eq-layout _ (byte-fits g, (refl, parameters-AllFit mode_none a))
offset_body-eq-sent g mode_explicit a =
    pack-eq-layout _ (byte-fits g, (refl, parameters-AllFit mode_explicit a))
offset_body-eq-sent g mode_linear a =
    pack-eq-layout _ (byte-fits g, (refl, parameters-AllFit mode_linear a))
offset_body-eq-sent g mode_vshape a =
    pack-eq-layout _ (byte-fits g, (refl, parameters-AllFit mode_vshape a))
offset_body-eq-sent g mode_modulo a =
    pack-eq-layout _ (byte-fits g, (refl, parameters-AllFit mode_modulo a))

parse-parameters :
    (m : OffsetMode) (a : OffsetArgs)
    → parse_config (mode_byte m) (layout (parameters m a)) ≡ ok (requested m a)
parse-parameters mode_none a = refl
parse-parameters mode_explicit a =
    rw (unpack-layout (parameters mode_explicit a) (parameters-AllFit mode_explicit a))
parse-parameters mode_linear a =
    rw (unpack-layout (parameters mode_linear a) (parameters-AllFit mode_linear a))
parse-parameters mode_vshape a = rw (
  unpack-layout (parameters mode_vshape a) (parameters-AllFit mode_vshape a),
  (byte-clamp a.center).0,
)
parse-parameters mode_modulo a = rw (
  unpack-layout (parameters mode_modulo a) (parameters-AllFit mode_modulo a),
  (byte-clamp a.cycle).1,
)

mode_byte_id : (m : OffsetMode) → mode_byte m % 256 ≡ mode_byte m
mode_byte_id mode_none = refl
mode_byte_id mode_explicit = refl
mode_byte_id mode_linear = refl
mode_byte_id mode_vshape = refl
mode_byte_id mode_modulo = refl

byte_id : (v : ℤ) → byte (byte v) ≡ byte v
byte_id (pos n) = ground arith
byte_id (negsuc n) = ground arith

-- The receiver's view of the bytes that are sent.
pub parse-sent :
    (g : ℤ) (m : OffsetMode) (a : OffsetArgs)
    → parse_offset_body (sent g m a) ≡ ok (record { group_id = byte g; config = requested m a })
unfolding parse_offset_body
parse-sent g m a = rw (mode_byte_id m, parse-parameters m a, byte_id g)

sent-length :
    (g : ℤ) (m : OffsetMode) (a : OffsetArgs)
    → (2 ≤ length (sent g m a)) × (length (sent g m a) ≤ 7)
sent-length g mode_none a = omega arith
sent-length g mode_explicit a = omega arith
sent-length g mode_linear a = omega arith
sent-length g mode_vshape a = omega arith
sent-length g mode_modulo a = omega arith

pub build-eq-sent :
    (g : ℤ) (arg : ModeArg) (m : OffsetMode) (a : OffsetArgs)
    → coerce_mode arg ≡ ok m
    → build_offset_body g arg a ≡ ok (sent g m a)
unfolding build_offset_body
build-eq-sent g arg m a h = rw (h, offset_body-eq-sent g m a)

-- For a mode that is known, by number or by name, and any integers, the builder makes a body of 2 to
-- 7 bytes, and the parser reads from it the group's low byte, the mode and each parameter clamped to
-- its documented range.
pub parse-build :
    (g : ℤ) (arg : ModeArg) (m : OffsetMode) (a : OffsetArgs)
    → coerce_mode arg ≡ ok m
    → (bs : Bytes) × (build_offset_body g arg a ≡ ok bs)
      × (2 ≤ length bs)
      × (length bs ≤ 7)
      × (parse_offset_body bs ≡ ok (record { group_id = byte g; config = requested m a }))
parse-build g arg m a h = (
  sent g m a,
  build-eq-sent g arg m a h,
  (sent-length g m a).0,
  (sent-length g m a).1,
  parse-sent g m a,
)

-- A mode's number and its name are the same argument, and neither is refused.
pub coerce_mode-name :
    (m : OffsetMode)
    → (coerce_mode (by_name (mode_name m)) ≡ ok m)
      × (coerce_mode (by_int (pos (mode_byte m))) ≡ ok m)
unfolding coerce_mode mode_of_name
coerce_mode-name mode_none = (refl, refl)
coerce_mode-name mode_explicit = (refl, refl)
coerce_mode-name mode_linear = (refl, refl)
coerce_mode-name mode_vshape = (refl, refl)
coerce_mode-name mode_modulo = (refl, refl)
