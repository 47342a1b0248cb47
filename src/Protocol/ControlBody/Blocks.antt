-- ===== src/Protocol/ControlBody/Blocks.antt =====
-- OPC_CONTROL bodies by their two blocks of fields, and a receiver that goes by the masks.
use race_link_host.Prelude.{
  append_nil, ℕ, zero, suc, ◌+◌, ◌*◌, ◌≤◌, ◌<◌, ◌≡◌, refl, sym, ap, inl, inr, Bool, true, false,
  ◌||◌, Option, none, some, List, [], ◌∷◌, ◌++◌, map, arith, ◌==◌, ==_iff, if◌then◌else◌,
  Bool-cases, is_some, length, length-append, sum, ℤ,
}
use race_link_host.Struct.{Bytes}
use race_link_host.Protocol.Flags.{or_bit}
use race_link_host.Dispatch.Op.{ControlFields}
use race_link_host.Protocol.ControlBody.{byte_of, rgb_bytes, packed_checks, custom3_checks}
use race_link_host.Protocol.ControlBody.Reader.{
  and_then, read_fields, HasWidth, HaveWidths, mask_from, tail_of, read_fields-tail_of,
  or_bit-above,
}

abbrev pub main_list : ControlFields → List (Option Bytes)
main_list f =
    byte_of f.brightness
    ∷ byte_of f.mode
    ∷ byte_of f.speed
    ∷ byte_of f.intensity
    ∷ byte_of f.custom1
    ∷ byte_of f.custom2
    ∷ custom3_checks f
    ∷ []

abbrev pub ext_list : ControlFields → List (Option Bytes)
ext_list f = byte_of f.palette ∷ rgb_bytes f.color1 ∷ rgb_bytes f.color2 ∷ rgb_bytes f.color3 ∷ []

abbrev pub main_widths : List ℕ
main_widths = 1 ∷ 1 ∷ 1 ∷ 1 ∷ 1 ∷ 1 ∷ 1 ∷ []

abbrev pub ext_widths : List ℕ
ext_widths = 1 ∷ 3 ∷ 3 ∷ 3 ∷ []

-- What a body says: the group, the flags, the seven main fields and the four extended ones.
pub record Control : Type 0 where
  pub group_id : ℕ
  pub flags : ℕ
  pub main : List (Option Bytes)
  pub ext : List (Option Bytes)

abbrev nothing_left : List (Option Bytes) × (ℕ × Bytes) → Option (List (Option Bytes))
nothing_left (fs, (m, [])) = some fs
nothing_left (fs, (m, b ∷ bs)) = none

-- The extended fields, given the rest of the field mask.
abbrev read_ext : List ℕ → ℕ × Bytes → Option (List (Option Bytes))
read_ext widths (zero, []) = some (map (λ n. none) widths)
read_ext widths (suc zero, ext_mask ∷ bs) = and_then (read_fields widths ext_mask bs) nothing_left
read_ext widths _ = none

unfoldable pub read_layout : List ℕ → List ℕ → Bytes → Option Control
read_layout main ext (g ∷ f ∷ m ∷ bs) = and_then (read_fields main m bs) (λ p.
    and_then (read_ext ext p.1)
      (λ ext. some (record { group_id = g; flags = f; main = p.0; ext = ext })))
read_layout main ext _ = none

-- A receiver: the extended block is there exactly if bit 7 of the field mask is set, and nothing may
-- be left over.
abbrev pub read_control : Bytes → Option Control
read_control body = read_layout main_widths ext_widths body

byte_of-HasWidth : (o : Option ℤ) → HasWidth 1 (byte_of o)
byte_of-HasWidth none = tt
byte_of-HasWidth (some v) = refl

rgb_bytes-HasWidth : (o : Option (ℤ × ℤ × ℤ)) → HasWidth 3 (rgb_bytes o)
rgb_bytes-HasWidth none = tt
rgb_bytes-HasWidth (some (r, g, b)) = refl

if-HasWidth : (b : Bool) (x : ℕ) → HasWidth 1 (if b then some (x ∷ []) else none)
if-HasWidth true x = refl
if-HasWidth false x = tt

pub main_list-HaveWidths : (f : ControlFields) → HaveWidths main_widths (main_list f)
main_list-HaveWidths f = (
  byte_of-HasWidth f.brightness,
  (
    byte_of-HasWidth f.mode,
    (
      byte_of-HasWidth f.speed,
      (
        byte_of-HasWidth f.intensity,
        (
          byte_of-HasWidth f.custom1,
          (
            byte_of-HasWidth f.custom2,
            (
              if-HasWidth
                  (is_some f.custom3
                    || (is_some f.check1 || (is_some f.check2 || is_some f.check3)))
                  (packed_checks f),
              tt,
            ),
          ),
        ),
      ),
    ),
  ),
)

pub ext_list-HaveWidths : (f : ControlFields) → HaveWidths ext_widths (ext_list f)
ext_list-HaveWidths f = (
  byte_of-HasWidth f.palette,
  (rgb_bytes-HasWidth f.color1, (rgb_bytes-HasWidth f.color2, (rgb_bytes-HasWidth f.color3, tt))),
)

tail_of-length :
    (ns : List ℕ) (fs : List (Option Bytes)) → HaveWidths ns fs → length (tail_of fs) ≤ sum ns
tail_of-length [] [] h = omega arith
tail_of-length [] (f ∷ fs) h = absurd h
tail_of-length (n ∷ ns) [] h = absurd h
tail_of-length (n ∷ ns) (none ∷ fs) h = omega (arith, tail_of-length ns fs h.1)
tail_of-length (n ∷ ns) (some bs ∷ fs) h =
    omega (arith, tail_of-length ns fs h.1, length-append bs (tail_of fs), h.0)

abbrev pub weight : List ℕ → ℕ
weight [] = 1
weight (n ∷ ns) = 2 * weight ns

mask_from-lt :
    (ns : List ℕ) (fs : List (Option Bytes)) → HaveWidths ns fs → mask_from 0 fs < weight ns
mask_from-lt [] [] h = omega arith
mask_from-lt [] (f ∷ fs) h = absurd h
mask_from-lt (n ∷ ns) [] h = absurd h
mask_from-lt (n ∷ ns) (none ∷ fs) h = omega (arith, mask_from-lt ns fs h.1)
mask_from-lt (n ∷ ns) (some bs ∷ fs) h = omega (arith, mask_from-lt ns fs h.1)

mask_from-high :
    (ns : List ℕ) (fs : List (Option Bytes))
    → HaveWidths ns fs
    → mask_from 1 fs ≡ mask_from 0 fs + weight ns
mask_from-high [] [] h = refl
mask_from-high [] (f ∷ fs) h = absurd h
mask_from-high (n ∷ ns) [] h = absurd h
mask_from-high (n ∷ ns) (none ∷ fs) h = omega (arith, mask_from-high ns fs h.1)
mask_from-high (n ∷ ns) (some bs ∷ fs) h = omega (arith, mask_from-high ns fs h.1)

no_fields :
    (ns : List ℕ) (fs : List (Option Bytes))
    → HaveWidths ns fs
    → mask_from 0 fs ≡ 0
    → map (λ n. none) ns ≡ fs
no_fields [] [] h e = refl
no_fields [] (f ∷ fs) h e = absurd h
no_fields (n ∷ ns) [] h e = absurd h
no_fields (n ∷ ns) (none ∷ fs) h e = ap (λ t. none ∷ t) (no_fields ns fs h.1 (omega arith))
no_fields (n ∷ ns) (some bs ∷ fs) h e = absurd (omega arith)

-- The bytes after the flags, for a main and an extended block.
abbrev pub blocks : ℕ → List (Option Bytes) → List (Option Bytes) → Bytes
blocks bit main ext =
    if mask_from 0 ext == 0
    then mask_from 0 main ∷ tail_of main
    else or_bit (mask_from 0 main) bit ∷ (tail_of main ++ mask_from 0 ext ∷ tail_of ext)

module _ (ns es : List ℕ) (main ext : List (Option Bytes)) (hm : HaveWidths ns main)
    (he : HaveWidths es ext) where
  read_to_end :
      (fs : List (Option Bytes)) (widths : List ℕ) (high : ℕ)
      → HaveWidths widths fs
      → read_fields widths (mask_from high fs) (tail_of fs) ≡ some (fs, (high, []))
  read_to_end fs widths high h =
      rw (append_nil (tail_of fs)) at (read_fields-tail_of widths fs high [] h)

  pub read_blocks :
      (g f : ℕ)
      → read_layout ns es (g ∷ f ∷ blocks (weight ns) main ext)
        ≡ some (record { group_id = g; flags = f; main = main; ext = ext })
  unfolding read_layout
  read_blocks g f = elim (Bool-cases (mask_from 0 ext == 0)) [
    | inl e ↦ rw (e, read_to_end main ns 0 hm, no_fields es ext he ((==_iff _ _).0 e)) refl
    | inr e ↦
        rw
          (
            e,
            or_bit-above _ _ (mask_from-lt ns main hm),
            sym (mask_from-high ns main hm),
            read_fields-tail_of ns main 1 (mask_from 0 ext ∷ tail_of ext) hm,
            read_to_end ext es 0 he,
          )
          refl
  ]

  pub length-blocks : (bit : ℕ) → length (blocks bit main ext) ≤ 2 + sum ns + sum es
  length-blocks bit = elim (Bool-cases (mask_from 0 ext == 0)) [
    | inl e ↦ rw e (omega (arith, tail_of-length ns main hm))
    | inr e ↦ rw e (
        omega (
          arith,
          tail_of-length ns main hm,
          tail_of-length es ext he,
          length-append (tail_of main) (mask_from 0 ext ∷ tail_of ext),
        ))
  ]
