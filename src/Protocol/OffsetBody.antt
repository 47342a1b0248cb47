-- ===== src/Protocol/OffsetBody.antt =====
-- OPC_OFFSET bodies: _coerce_mode, build_offset_body and parse_offset_body of packets.py.
pub mod RoundTrip
use race_link_host.Prelude.{
  ℕ, zero, suc, ◌+◌, ◌-◌, ◌*◌, ◌/◌, ◌%◌, ◌≤◌, ◌<◌, ◌≡◌, refl, sym, ap, ◌∙◌, ◌≢◌, ◌↔◌, ◌⊎◌, inl, inr,
  Bool, true, false, not, ◌&&◌, ◌||◌, Option, none, some, List, [], ◌∷◌, ◌++◌, map, arith, str_eq,
  eq_iff, String, ltb, leb, ◌==◌, ==_iff, if◌then◌else◌, Bool-cases, Option-cases, get_or, is_some,
  length, take, drop, keep_if, any_of, all_of, length-append, length-map, length-keep_if, All, sum,
  sum-append, ℤ, pos, negsuc, pos_part, neg_part, sub_ℕ, ◌+ℤ◌, ◌*ℤ◌, ◌≤ℤ◌, leb_ℤ, eqb_ℤ, distance,
  mask, clamp, clamp_bounds, clamp_id, mask-byte-lt, Error, value_error, key_error, struct_error,
  index_error, assertion_error, Result, ok, err, ◌>>=◌, ◌>>◌, require, or_raise, lower_eq,
}
use race_link_host.Struct.{Bytes, u8, u16, i16, pack, unpack}
use race_link_host.Protocol.Packets.{byte}

-- OFFSET_MODE_NONE to OFFSET_MODE_MODULO.
pub data OffsetMode : Type 0 where
  mode_none mode_explicit mode_linear mode_vshape mode_modulo : OffsetMode

abbrev pub mode_byte : OffsetMode → ℕ
mode_byte mode_none = 0
mode_byte mode_explicit = 1
mode_byte mode_linear = 2
mode_byte mode_vshape = 3
mode_byte mode_modulo = 4

-- OFFSET_MODE_NAMES, read from the integer side.
abbrev pub mode_of_int : ℤ → Option OffsetMode
mode_of_int (pos n) =
    if n == 0
    then some mode_none
    else if n == 1
    then some mode_explicit
    else if n == 2
    then some mode_linear
    else if n == 3
    then some mode_vshape
    else if n == 4
    then some mode_modulo
    else none
mode_of_int (negsuc n) = none

-- OFFSET_MODE_VALUES, at the lower-case form of a name.
unfoldable pub mode_of_name : String → Option OffsetMode
mode_of_name s =
    if lower_eq s "none"
    then some mode_none
    else if lower_eq s "explicit"
    then some mode_explicit
    else if lower_eq s "linear"
    then some mode_linear
    else if lower_eq s "vshape"
    then some mode_vshape
    else if lower_eq s "modulo"
    then some mode_modulo
    else none

abbrev pub mode_name : OffsetMode → String
mode_name mode_none = "none"
mode_name mode_explicit = "explicit"
mode_name mode_linear = "linear"
mode_name mode_vshape = "vshape"
mode_name mode_modulo = "modulo"

-- `mode: int | str`
pub data ModeArg : Type 0 where
  by_int : ℤ → ModeArg
  by_name : String → ModeArg

unfoldable pub coerce_mode : ModeArg → Result OffsetMode
coerce_mode (by_int n) = or_raise (mode_of_int n) value_error
coerce_mode (by_name s) = or_raise (mode_of_name s) value_error

-- The keyword arguments of `build_offset_body`.
pub record OffsetArgs : Type 0 where
  pub offset_ms : ℤ
  pub base_ms : ℤ
  pub step_ms : ℤ
  pub center : ℤ
  pub cycle : ℤ

-- Their defaults.
abbrev pub default_args : OffsetArgs
default_args = record {
  offset_ms = pos 0;
  base_ms = pos 0;
  step_ms = pos 0;
  center = pos 0;
  cycle = pos 1;
}

abbrev pub clamp_offset : ℤ → ℤ
clamp_offset v = clamp (pos 0) (pos 65535) v

-- OFFSET_BASE_MIN, OFFSET_BASE_MAX; the bounds on the step are the same.
abbrev pub clamp_base : ℤ → ℤ
clamp_base v = clamp (negsuc 32767) (pos 32767) v

abbrev pub clamp_center : ℤ → ℤ
clamp_center v = byte (clamp (pos 0) (pos 254) v)

abbrev pub clamp_cycle : ℤ → ℤ
clamp_cycle v = byte (clamp (pos 1) (pos 255) v)

-- The `if m == …` chain of `build_offset_body`.
unfoldable pub offset_body : ℤ → OffsetMode → OffsetArgs → Result Bytes
offset_body g mode_none a = pack ((u8, g) ∷ (u8, pos 0) ∷ [])
offset_body g mode_explicit a = pack ((u8, g) ∷ (u8, pos 1) ∷ (u16, clamp_offset a.offset_ms) ∷ [])
offset_body g mode_linear a =
    pack ((u8, g) ∷ (u8, pos 2) ∷ (i16, clamp_base a.base_ms) ∷ (i16, clamp_base a.step_ms) ∷ [])
offset_body g mode_vshape a = pack (
    (u8, g)
    ∷ (u8, pos 3)
    ∷ (i16, clamp_base a.base_ms)
    ∷ (i16, clamp_base a.step_ms)
    ∷ (u8, clamp_center a.center)
    ∷ [])
offset_body g mode_modulo a = pack (
    (u8, g)
    ∷ (u8, pos 4)
    ∷ (i16, clamp_base a.base_ms)
    ∷ (i16, clamp_base a.step_ms)
    ∷ (u8, clamp_cycle a.cycle)
    ∷ [])

unfoldable pub build_offset_body : ℤ → ModeArg → OffsetArgs → Result Bytes
unfolding offset_body
build_offset_body group_id mode args = do m ← coerce_mode mode; offset_body (byte group_id) m args

-- The mode with its parameters, as the parser's dict has them.
pub data OffsetConfig : Type 0 where
  no_offset : OffsetConfig
  explicit : ℤ → OffsetConfig
  linear : ℤ → ℤ → OffsetConfig
  vshape : ℤ → ℤ → ℤ → OffsetConfig
  modulo : ℤ → ℤ → ℤ → OffsetConfig

pub record ParsedOffset : Type 0 where
  pub group_id : ℤ
  pub config : OffsetConfig

-- `(ms,) = struct.unpack(…)` and its like; another count raises ValueError.
abbrev pub one_value : (ℤ → OffsetConfig) → List ℤ → Result OffsetConfig
one_value f (a ∷ []) = ok (f a)
one_value f _ = err value_error

abbrev pub two_values : (ℤ → ℤ → OffsetConfig) → List ℤ → Result OffsetConfig
two_values f (a ∷ b ∷ []) = ok (f a b)
two_values f _ = err value_error

abbrev pub three_values : (ℤ → ℤ → ℤ → OffsetConfig) → List ℤ → Result OffsetConfig
three_values f (a ∷ b ∷ c ∷ []) = ok (f a b c)
three_values f _ = err value_error

-- `rest` is what follows the two leading bytes.
abbrev pub parse_config : ℕ → Bytes → Result OffsetConfig
parse_config m rest =
    if m == 0
    then (if length rest == 0 then ok no_offset else err value_error)
    else if m == 1
    then (if length rest == 2
        then (do vs ← unpack (u16 ∷ []) rest; one_value explicit vs)
        else err value_error)
    else if m == 2
    then (if length rest == 4
        then (do vs ← unpack (i16 ∷ i16 ∷ []) rest; two_values linear vs)
        else err value_error)
    else if m == 3
    then (if length rest == 5
        then (do vs ← unpack (i16 ∷ i16 ∷ u8 ∷ []) rest; three_values vshape vs)
        else err value_error)
    else if m == 4
    then (if length rest == 5
        then (do vs ← unpack (i16 ∷ i16 ∷ u8 ∷ []) rest; three_values modulo vs)
        else err value_error)
    else err value_error

unfoldable pub parse_offset_body : Bytes → Result ParsedOffset
parse_offset_body (g ∷ m ∷ rest) = do
  config ← parse_config m rest
  ok (record { group_id = pos g; config = config })
parse_offset_body _ = err value_error

-- A configuration as the `mode` argument and the keyword arguments that stand for it.
abbrev pub mode_of_config : OffsetConfig → OffsetMode
mode_of_config no_offset = mode_none
mode_of_config (explicit ms) = mode_explicit
mode_of_config (linear b s) = mode_linear
mode_of_config (vshape b s c) = mode_vshape
mode_of_config (modulo b s n) = mode_modulo

abbrev pub args_of_config : OffsetConfig → OffsetArgs
args_of_config no_offset = default_args
args_of_config (explicit ms) = record default_args { offset_ms = ms }
args_of_config (linear b s) = record default_args { base_ms = b; step_ms = s }
args_of_config (vshape b s c) = record default_args { base_ms = b; step_ms = s; center = c }
args_of_config (modulo b s n) = record default_args { base_ms = b; step_ms = s; cycle = n }
