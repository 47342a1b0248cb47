-- ===== src/Struct.antt =====
-- The part of Python's `struct` module that the packet builders use: little-endian, unaligned
-- fields of fixed width. `pack` raises where a value does not fit its field.
pub mod RoundTrip
use race_link_host.Prelude.{
  ℕ, zero, suc, ◌+◌, ◌*◌, ◌/◌, ◌%◌, ◌-◌, List, [], ◌∷◌, ◌++◌, Bool, ◌&&◌, ℤ, pos, negsuc, leb_ℤ,
  mask, Result, ok, err, struct_error, ◌>>=◌, if◌then◌else◌, ltb,
}

abbrev pub Bytes : Type 0
Bytes = List ℕ

-- The format characters `B b H h I`.
pub data Format : Type 0 where
  u8 i8 u16 i16 u32 : Format

abbrev pub size : Format → ℕ
size u8 = 1
size i8 = 1
size u16 = 2
size i16 = 2
size u32 = 4

-- The smallest and the largest value of a field.
abbrev pub low : Format → ℤ
low u8 = pos 0
low i8 = negsuc 127
low u16 = pos 0
low i16 = negsuc 32767
low u32 = pos 0

abbrev pub high : Format → ℤ
high u8 = pos 255
high i8 = pos 127
high u16 = pos 65535
high i16 = pos 32767
high u32 = pos 4294967295

abbrev pub fits : Format → ℤ → Bool
fits f v = leb_ℤ (low f) v && leb_ℤ v (high f)

-- The bytes of a value that fits, in two's complement, low byte first.
abbrev pub to_bytes : Format → ℤ → Bytes
to_bytes u8 v = mask 256 v ∷ []
to_bytes i8 v = mask 256 v ∷ []
to_bytes u16 v = mask 65536 v % 256 ∷ mask 65536 v / 256 ∷ []
to_bytes i16 v = mask 65536 v % 256 ∷ mask 65536 v / 256 ∷ []
to_bytes u32 v =
    mask 4294967296 v % 256
    ∷ mask 4294967296 v / 256 % 256
    ∷ mask 4294967296 v / 65536 % 256
    ∷ mask 4294967296 v / 16777216
    ∷ []

abbrev pub signed : ℕ → ℕ → ℤ
signed m n = if ltb (n * 2) m then pos n else negsuc (m - 1 - n)

-- Reads one field and hands back the bytes that follow it.
unfoldable pub decode : Format → Bytes → Result (ℤ × Bytes)
decode u8 (a ∷ r) = ok (pos a, r)
decode i8 (a ∷ r) = ok (signed 256 a, r)
decode u16 (a ∷ b ∷ r) = ok (pos (a + b * 256), r)
decode i16 (a ∷ b ∷ r) = ok (signed 65536 (a + b * 256), r)
decode u32 (a ∷ b ∷ c ∷ d ∷ r) = ok (pos (a + b * 256 + c * 65536 + d * 16777216), r)
decode _ _ = err struct_error

-- `struct.pack(fmt, *values)`
unfoldable pub pack : List (Format × ℤ) → Result Bytes
pack [] = ok []
pack ((f, v) ∷ rest) = do
  let tail = pack rest
  if fits f v then (do bs ← tail; ok (to_bytes f v ++ bs)) else err struct_error

-- `struct.unpack(fmt, data)`: the data must be used up.
unfoldable pub unpack : List Format → Bytes → Result (List ℤ)
unpack [] [] = ok []
unpack [] (b ∷ bs) = err struct_error
unpack (f ∷ fs) bs = do field ← decode f bs; vs ← unpack fs field.1; ok (field.0 ∷ vs)
