-- ===== src/Protocol/Flags.antt =====
-- racelink/domain/flags.py: the flags byte of OPC_PRESET and OPC_CONTROL.
use race_link_host.Prelude.{
  ℕ, ◌+◌, ◌/◌, ◌%◌, ◌<◌, ◌≡◌, Bool, true, false, arith, ◌==◌, if◌then◌else◌,
}

-- `m |= bit` for a power of two `bit`.
abbrev pub or_bit : ℕ → ℕ → ℕ
or_bit m bit = if m / bit % 2 == 1 then m else m + bit

-- `if b: out |= bit`
abbrev pub or_bit_if : Bool → ℕ → ℕ → ℕ
or_bit_if true m bit = or_bit m bit
or_bit_if false m bit = m

-- The keyword arguments of `build_flags_byte`.
pub record Flags : Type 0 where
  pub power_on : Bool
  pub has_bri : Bool
  pub arm_on_sync : Bool
  pub force_tt0 : Bool
  pub force_reapply : Bool
  pub offset_mode : Bool

unfoldable pub build_flags_byte : Flags → ℕ
build_flags_byte f =
    let out = or_bit_if f.power_on 0 1 in
    let out = or_bit_if f.arm_on_sync out 2 in
    let out = or_bit_if f.has_bri out 4 in
    let out = or_bit_if f.force_tt0 out 8 in
    let out = or_bit_if f.force_reapply out 16 in
    let out = or_bit_if f.offset_mode out 32 in out % 256

-- Bit `bit` of a byte, as a receiver reads it.
abbrev pub has_bit : ℕ → ℕ → Bool
has_bit byte bit = byte / bit % 2 == 1

-- What a receiver reads from a flags byte.
unfoldable pub flags_of_byte : ℕ → Flags
flags_of_byte byte = record {
  power_on = has_bit byte 1;
  has_bri = has_bit byte 4;
  arm_on_sync = has_bit byte 2;
  force_tt0 = has_bit byte 8;
  force_reapply = has_bit byte 16;
  offset_mode = has_bit byte 32;
}

six_cases :
    (p b a t r o : Bool)
    → let f : Flags = record {
      power_on = p;
      has_bri = b;
      arm_on_sync = a;
      force_tt0 = t;
      force_reapply = r;
      offset_mode = o;
    } in
      (flags_of_byte (build_flags_byte f) ≡ f) × (build_flags_byte f < 64)
unfolding build_flags_byte flags_of_byte
six_cases true true true t r o = ground arith
six_cases true true false t r o = ground arith
six_cases true false true t r o = ground arith
six_cases true false false t r o = ground arith
six_cases false true true t r o = ground arith
six_cases false true false t r o = ground arith
six_cases false false true t r o = ground arith
six_cases false false false t r o = ground arith

-- The six flags stand at fixed bits of the byte: each is read back, and the two reserved bits are
-- never set.
flags_of_byte-build_flags_byte :
    (f : Flags) → (flags_of_byte (build_flags_byte f) ≡ f) × (build_flags_byte f < 64)
flags_of_byte-build_flags_byte f =
    six_cases f.power_on f.has_bri f.arm_on_sync f.force_tt0 f.force_reapply f.offset_mode
