-- ===== src/Protocol/ControlBody.antt =====
-- `build_control_body` of racelink/protocol/packets.py, the variable-length OPC_CONTROL body.
pub mod Reader
pub mod Blocks
pub mod Decode
pub mod RoundTrip
use race_link_host.Prelude.{
  ℕ, zero, suc, ◌+◌, ◌-◌, ◌*◌, ◌/◌, ◌%◌, ◌≤◌, ◌<◌, ◌≡◌, refl, sym, ap, ◌∙◌, ◌≢◌, ◌↔◌, ◌⊎◌, inl, inr,
  Bool, true, false, not, ◌&&◌, ◌||◌, Option, none, some, List, [], ◌∷◌, ◌++◌, map, arith, str_eq,
  eq_iff, String, ltb, leb, ◌==◌, ==_iff, lt→leb_false, if◌then◌else◌, Bool-cases, Option-cases,
  get_or, is_some, length, take, drop, keep_if, any_of, all_of, length-append, length-map,
  length-keep_if, All, Within, Within-left, Within-right, Within-append, append-eq-nil, sum,
  sum-append, ℤ, pos, negsuc, pos_part, neg_part, sub_ℕ, ◌+ℤ◌, ◌*ℤ◌, ◌≤ℤ◌, leb_ℤ, eqb_ℤ, distance,
  mask, clamp, clamp_bounds, clamp_id, mask-byte-lt, Error, value_error, key_error, struct_error,
  index_error, assertion_error, Result, ok, err, ◌>>=◌, ◌>>◌, require, or_raise, map_ok,
  map_ok-eq-map, lower_eq,
}
use race_link_host.Struct.{Bytes}
use race_link_host.Protocol.Flags.{or_bit, or_bit_if}
use race_link_host.Dispatch.Op.{ControlFields}

-- The bytes of an optional argument, none if it is not given.
abbrev pub byte_of : Option ℤ → Option Bytes
byte_of none = none
byte_of (some v) = some (mask 256 v ∷ [])

abbrev pub rgb_bytes : Option (ℤ × ℤ × ℤ) → Option Bytes
rgb_bytes none = none
rgb_bytes (some (r, g, b)) = some (mask 256 r ∷ mask 256 g ∷ mask 256 b ∷ [])

abbrev given : Option Bool → Bool
given o = get_or o false

-- custom3 in five bits, 0 if it is not given, and a bit for each check that is given and true.
abbrev pub packed_checks : ControlFields → ℕ
packed_checks f =
    let c3 = elim f.custom3 as (λ o. ℕ) [ none ↦ 0 | some v ↦ mask 32 v ] in
    or_bit_if (given f.check3) (or_bit_if (given f.check2) (or_bit_if (given f.check1) c3 32) 64)
      128

abbrev pub custom3_checks : ControlFields → Option Bytes
custom3_checks f =
    if is_some f.custom3 || (is_some f.check1 || (is_some f.check2 || is_some f.check3))
    then some (packed_checks f ∷ [])
    else none

-- `mask |= bit` and the bytes at the end of the tail, if the field is given.
abbrev pub add_field : ℕ → Option Bytes → ℕ × Bytes → ℕ × Bytes
add_field bit none s = s
add_field bit (some bs) (m, tail) = (or_bit m bit, tail ++ bs)

-- `field_mask` and `tail_main`
unfoldable pub main_fields : ControlFields → ℕ × Bytes
main_fields f =
    let s = add_field 1 (byte_of f.brightness) (0, []) in
    let s = add_field 2 (byte_of f.mode) s in
    let s = add_field 4 (byte_of f.speed) s in
    let s = add_field 8 (byte_of f.intensity) s in
    let s = add_field 16 (byte_of f.custom1) s in
    let s = add_field 32 (byte_of f.custom2) s in add_field 64 (custom3_checks f) s

-- `ext_mask` and `tail_ext`
unfoldable pub ext_fields : ControlFields → ℕ × Bytes
ext_fields f =
    let s = add_field 1 (byte_of f.palette) (0, []) in
    let s = add_field 2 (rgb_bytes f.color1) s in
    let s = add_field 4 (rgb_bytes f.color2) s in add_field 8 (rgb_bytes f.color3) s

abbrev pub body_max : ℕ
body_max = 22

abbrev pub control_bytes : ℤ → ℤ → ℕ × Bytes → ℕ × Bytes → Bytes
control_bytes group_id flags (field_mask, tail_main) (ext_mask, tail_ext) =
    mask 256 group_id
    ∷ mask 256 flags
    ∷ (if ext_mask == 0
        then field_mask ∷ tail_main
        else or_bit field_mask 128 ∷ (tail_main ++ ext_mask ∷ tail_ext))

unfoldable pub build_control_body : ℤ → ℤ → ControlFields → Result Bytes
build_control_body group_id flags f =
    let body = control_bytes group_id flags (main_fields f) (ext_fields f) in
    require (leb (length body) body_max) assertion_error >> ok body
