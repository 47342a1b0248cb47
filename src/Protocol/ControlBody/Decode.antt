-- ===== src/Protocol/ControlBody/Decode.antt =====
-- What a receiver makes of an OPC_CONTROL body: the value of every field, the shared byte of custom3 and
-- the three checks included.
use race_link_host.Prelude.{
  ℕ, ◌+◌, ◌*◌, ◌/◌, ◌%◌, ◌≤◌, ◌<◌, ◌≡◌, refl, ap, ◌∙◌, Bool, true, false, ◌||◌, Option, none, some,
  List, [], ◌∷◌, arith, ◌==◌, if◌then◌else◌, get_or, is_some, length, ℤ, pos, mask, ok,
}
use race_link_host.Struct.{Bytes}
use race_link_host.Protocol.Flags.{or_bit_if}
use race_link_host.Dispatch.Op.{ControlFields}
use race_link_host.Protocol.ControlBody.{build_control_body, byte_of, rgb_bytes, custom3_checks}
use race_link_host.Protocol.ControlBody.Reader.{and_then, or_bit-above}
use race_link_host.Protocol.ControlBody.Blocks.{Control, read_control}
use race_link_host.Protocol.ControlBody.RoundTrip.{read_control-build}

-- custom3 and the checks, which share a byte.
pub record Checks : Type 0 where
  pub custom3 : ℕ
  pub check1 : Bool
  pub check2 : Bool
  pub check3 : Bool

-- The values that a body sets; `none` leaves a field as it is.
pub record ControlValues : Type 0 where
  pub group_id : ℕ
  pub flags : ℕ
  pub brightness : Option ℕ
  pub mode : Option ℕ
  pub speed : Option ℕ
  pub intensity : Option ℕ
  pub custom1 : Option ℕ
  pub custom2 : Option ℕ
  pub checks : Option Checks
  pub palette : Option ℕ
  pub color1 : Option (ℕ × ℕ × ℕ)
  pub color2 : Option (ℕ × ℕ × ℕ)
  pub color3 : Option (ℕ × ℕ × ℕ)

abbrev one_byte : Option Bytes → Option ℕ
one_byte (some (b ∷ [])) = some b
one_byte _ = none

-- Five bits of custom3, then one for each check.
abbrev checks_byte : Option Bytes → Option Checks
checks_byte (some (b ∷ [])) = some (record {
  custom3 = b % 32;
  check1 = b / 32 % 2 == 1;
  check2 = b / 64 % 2 == 1;
  check3 = b / 128 % 2 == 1;
})
checks_byte _ = none

abbrev three_bytes : Option Bytes → Option (ℕ × ℕ × ℕ)
three_bytes (some (r ∷ g ∷ b ∷ [])) = some (r, g, b)
three_bytes _ = none

abbrev values_of : Control → Option ControlValues
values_of c = by_lists c.group_id c.flags c.main c.ext
  where
    by_lists : ℕ → ℕ → List (Option Bytes) → List (Option Bytes) → Option ControlValues
    by_lists group_id flags (a ∷ b ∷ c ∷ d ∷ e ∷ f ∷ g ∷ []) (p ∷ x ∷ y ∷ z ∷ []) = some (record {
      group_id = group_id;
      flags = flags;
      brightness = one_byte a;
      mode = one_byte b;
      speed = one_byte c;
      intensity = one_byte d;
      custom1 = one_byte e;
      custom2 = one_byte f;
      checks = checks_byte g;
      palette = one_byte p;
      color1 = three_bytes x;
      color2 = three_bytes y;
      color3 = three_bytes z;
    })
    by_lists group_id flags _ _ = none

unfoldable pub decode_control : Bytes → Option ControlValues
decode_control body = and_then (read_control body) values_of

abbrev low : Option ℤ → Option ℕ
low none = none
low (some v) = some (mask 256 v)

abbrev low_color : Option (ℤ × ℤ × ℤ) → Option (ℕ × ℕ × ℕ)
low_color none = none
low_color (some (r, g, b)) = some (mask 256 r, mask 256 g, mask 256 b)

-- custom3 and the checks as they are given; where one of the four is given, the others are sent as 0.
abbrev given_checks : Option ℤ → Option Bool → Option Bool → Option Bool → Option Checks
given_checks none none none none = none
given_checks custom3 check1 check2 check3 = some (record {
  custom3 = mask 32 (get_or custom3 (pos 0));
  check1 = get_or check1 false;
  check2 = get_or check2 false;
  check3 = get_or check3 false;
})

-- The values that the arguments of the builder mean.
abbrev pub meant : ℤ → ℤ → ControlFields → ControlValues
meant group_id flags f = record {
  group_id = mask 256 group_id;
  flags = mask 256 flags;
  brightness = low f.brightness;
  mode = low f.mode;
  speed = low f.speed;
  intensity = low f.intensity;
  custom1 = low f.custom1;
  custom2 = low f.custom2;
  checks = given_checks f.custom3 f.check1 f.check2 f.check3;
  palette = low f.palette;
  color1 = low_color f.color1;
  color2 = low_color f.color2;
  color3 = low_color f.color3;
}

one_byte-byte_of : (o : Option ℤ) → one_byte (byte_of o) ≡ low o
one_byte-byte_of none = refl
one_byte-byte_of (some v) = refl

three_bytes-rgb : (o : Option (ℤ × ℤ × ℤ)) → three_bytes (rgb_bytes o) ≡ low_color o
three_bytes-rgb none = refl
three_bytes-rgb (some (r, g, b)) = refl

abbrev bit : Bool → ℕ
bit true = 1
bit false = 0

or_bit_if-above : (b : Bool) (m n : ℕ) → m < n → or_bit_if b m n ≡ m + n * bit b
or_bit_if-above true m n h = or_bit-above m n h ∙ omega arith
or_bit_if-above false m n h = omega arith

bit-le : (b : Bool) → bit b ≤ 1
bit-le true = omega arith
bit-le false = omega arith

abbrev packed : ℕ → Bool → Bool → Bool → ℕ
packed c b1 b2 b3 = or_bit_if b3 (or_bit_if b2 (or_bit_if b1 c 32) 64) 128

packed-eq :
    (c : ℕ) (b1 b2 b3 : Bool)
    → c < 32
    → packed c b1 b2 b3 ≡ c + 32 * bit b1 + 64 * bit b2 + 128 * bit b3
packed-eq c b1 b2 b3 h =
    let l1 = bit-le b1 in
    let l2 = bit-le b2 in
    let e1 = or_bit_if-above b1 c 32 h in
    let e2 = or_bit_if-above b2 (c + 32 * bit b1) 64 (omega arith) in
    let e3 = or_bit_if-above b3 (c + 32 * bit b1 + 64 * bit b2) 128 (omega arith) in
    rw (e1, e2, e3) refl

is_one : (b : Bool) → (bit b == 1) ≡ b
is_one true = refl
is_one false = refl

split_32 : (c x y z : ℕ) → c < 32 → (c + 32 * x + 64 * y + 128 * z) % 32 ≡ c
split_32 c x y z h = omega arith

split_bits :
    (c x y z : ℕ)
    → c < 32
    → x ≤ 1
    → y ≤ 1
    → z ≤ 1
    → ((c + 32 * x + 64 * y + 128 * z) / 32 % 2 ≡ x)
      × ((c + 32 * x + 64 * y + 128 * z) / 64 % 2 ≡ y)
      × ((c + 32 * x + 64 * y + 128 * z) / 128 % 2 ≡ z)
split_bits c x y z h hx hy hz = (omega arith, omega arith, omega arith)

unpacked :
    (c : ℕ) (b1 b2 b3 : Bool)
    → c < 32
    → checks_byte (some (packed c b1 b2 b3 ∷ []))
      ≡ some (record { custom3 = c; check1 = b1; check2 = b2; check3 = b3 })
unpacked c b1 b2 b3 h =
    let s = split_bits c (bit b1) (bit b2) (bit b3) h (bit-le b1) (bit-le b2) (bit-le b3) in
    rw (packed-eq c b1 b2 b3 h) (
      rw (split_32 c (bit b1) (bit b2) (bit b3) h, s.0, s.1, s.2)
        (rw (is_one b1, is_one b2, is_one b3) refl))

five_bits : (v : ℤ) → mask 32 v < 32
five_bits v = ground arith

checks-given :
    (f : ControlFields)
    → checks_byte (custom3_checks f) ≡ given_checks f.custom3 f.check1 f.check2 f.check3
checks-given f = by_given f.custom3 f.check1 f.check2 f.check3
  where
    shared : Option ℤ → Option Bool → Option Bool → Option Bool → Option Bytes
    shared c o1 o2 o3 =
        if is_some c || (is_some o1 || (is_some o2 || is_some o3))
        then some (
            packed (elim c as (λ o. ℕ) [ none ↦ 0 | some v ↦ mask 32 v ]) (get_or o1 false)
              (get_or o2 false) (get_or o3 false)
            ∷ [])
        else none

    by_given :
        (c : Option ℤ) (o1 o2 o3 : Option Bool)
        → checks_byte (shared c o1 o2 o3) ≡ given_checks c o1 o2 o3
    by_given (some v) o1 o2 o3 =
        unpacked (mask 32 v) (get_or o1 false) (get_or o2 false) (get_or o3 false) (five_bits v)
    by_given none (some b) o2 o3 = unpacked 0 b (get_or o2 false) (get_or o3 false) (omega arith)
    by_given none none (some b) o3 = unpacked 0 false b (get_or o3 false) (omega arith)
    by_given none none none (some b) = unpacked 0 false false b (omega arith)
    by_given none none none none = refl

-- The builder of OPC_CONTROL bodies never fails: its length assertion always holds, the body has at
-- most 21 bytes, and a receiver that goes by the two masks decodes from it the low bytes of the group,
-- the flags and exactly the fields that were given, but that custom3 (five bits) and the three checks
-- share a byte: where one of them is given, those that are not are decoded as 0.
pub decode-build :
    (group_id flags : ℤ) (f : ControlFields)
    → (body : Bytes) × (build_control_body group_id flags f ≡ ok body)
      × (length body ≤ 21)
      × (decode_control body ≡ some (meant group_id flags f))
unfolding decode_control
decode-build group_id flags f =
    let built = read_control-build group_id flags f in
    (
      built.0,
      built.1.0,
      built.1.1.0,
      ap (λ c. and_then c values_of) built.1.1.1
          ∙ rw
              (
                one_byte-byte_of f.brightness,
                one_byte-byte_of f.mode,
                one_byte-byte_of f.speed,
                one_byte-byte_of f.intensity,
                one_byte-byte_of f.custom1,
                one_byte-byte_of f.custom2,
                checks-given f,
                one_byte-byte_of f.palette,
                three_bytes-rgb f.color1,
                three_bytes-rgb f.color2,
                three_bytes-rgb f.color3,
              )
              refl,
    )
