-- ===== src/Struct/RoundTrip.antt =====
-- `unpack` undoes `pack`, and values in range always pack.
use race_link_host.Prelude.{
  List, [], ◌∷◌, ◌++◌, true, ℤ, pos, negsuc, ◌≡◌, refl, arith, Result, ok, err, struct_error, ◌>>=◌,
  if◌then◌else◌, All, ◌<◌,
}
use race_link_host.Struct.{
  Bytes, Format, u8, i8, u16, i16, u32, fits, to_bytes, decode, pack, unpack,
}

-- The values that a list of fields stands for, and the bytes of fields that fit.
abbrev pub values : List (Format × ℤ) → List ℤ
values [] = []
values ((f, v) ∷ rest) = v ∷ values rest

abbrev pub formats : List (Format × ℤ) → List Format
formats [] = []
formats ((f, v) ∷ rest) = f ∷ formats rest

abbrev pub AllFit : List (Format × ℤ) → Type 0
AllFit [] = Unit
AllFit ((f, v) ∷ rest) = (fits f v ≡ true) × AllFit rest

abbrev pub layout : List (Format × ℤ) → Bytes
layout [] = []
layout ((f, v) ∷ rest) = to_bytes f v ++ layout rest

pub decode-to_bytes :
    (f : Format) (v : ℤ) (rest : Bytes)
    → fits f v ≡ true
    → decode f (to_bytes f v ++ rest) ≡ ok (v, rest)
unfolding decode
decode-to_bytes u8 (pos n) rest h = ground arith
decode-to_bytes u8 (negsuc n) rest h = ground arith
decode-to_bytes i8 (pos n) rest h = ground arith
decode-to_bytes i8 (negsuc n) rest h = ground arith
decode-to_bytes u16 (pos n) rest h = ground arith
decode-to_bytes u16 (negsuc n) rest h = ground arith
decode-to_bytes i16 (pos n) rest h = ground arith
decode-to_bytes i16 (negsuc n) rest h = ground arith
decode-to_bytes u32 (pos n) rest h = ground arith
decode-to_bytes u32 (negsuc n) rest h = ground arith

pub pack-eq-layout : (fs : List (Format × ℤ)) → AllFit fs → pack fs ≡ ok (layout fs)
unfolding pack
pack-eq-layout [] h = refl
pack-eq-layout ((f, v) ∷ fs) h = rw (h.0, pack-eq-layout fs h.1)

pub unpack-layout :
    (fs : List (Format × ℤ)) → AllFit fs → unpack (formats fs) (layout fs) ≡ ok (values fs)
unfolding unpack
unpack-layout [] h = refl
unpack-layout ((f, v) ∷ fs) h = rw (decode-to_bytes f v (layout fs) h.0, unpack-layout fs h.1)

-- What `pack` accepts, all fields fit.
rest-AllFit :
    (f : Format) (v : ℤ) (fs : List (Format × ℤ)) (r : Result Bytes) (bs : Bytes)
    → ((tail : Bytes) → r ≡ ok tail → AllFit fs)
    → (if fits f v then (r >>= λ tail. ok (to_bytes f v ++ tail)) else err struct_error) ≡ ok bs
    → AllFit ((f, v) ∷ fs)
rest-AllFit f v fs (err x) bs ih h = ground arith
rest-AllFit f v fs (ok tail) bs ih h = ground (arith, ih tail refl)

pub pack-AllFit : (fs : List (Format × ℤ)) (bs : Bytes) → pack fs ≡ ok bs → AllFit fs
unfolding pack
pack-AllFit [] bs h = tt
pack-AllFit ((f, v) ∷ fs) bs h = rest-AllFit f v fs (pack fs) bs (pack-AllFit fs) h

abbrev pub AreBytes : Bytes → Type 0
AreBytes bs = All (λ b. b < 256) bs

-- What was decoded encodes to the bytes that it was read from.
pub to_bytes-decode :
    (f : Format) (v : ℤ) (bs rest : Bytes)
    → decode f bs ≡ ok (v, rest)
    → AreBytes bs
    → (to_bytes f v ++ rest ≡ bs) × (fits f v ≡ true) × AreBytes rest
unfolding decode
to_bytes-decode u8 v (a ∷ r) rest h k = ground arith
to_bytes-decode i8 v (a ∷ r) rest h k = ground arith
to_bytes-decode u16 v (a ∷ b ∷ r) rest h k = ground arith
to_bytes-decode i16 v (a ∷ b ∷ r) rest h k = ground arith
to_bytes-decode u32 v (a ∷ b ∷ c ∷ d ∷ r) rest h k = ground arith
to_bytes-decode _ v _ rest h k = ground arith

-- The fields of a format, at the values that were read.
abbrev pub with_values : List Format → List ℤ → List (Format × ℤ)
with_values (f ∷ fs) (v ∷ vs) = (f, v) ∷ with_values fs vs
with_values _ _ = []

-- A body of bytes that unpacks packs to itself.
unpack-cons :
    (f : Format) (fs : List Format) (vs : List ℤ) (bs : Bytes) (r : Result (ℤ × Bytes))
    → decode f bs ≡ r
    → AreBytes bs
    → ((vs' : List ℤ) (rest : Bytes)
        → unpack fs rest ≡ ok vs'
        → AreBytes rest
        → pack (with_values fs vs') ≡ ok rest)
    → (r >>= λ field. unpack fs field.1 >>= λ vs'. ok (field.0 ∷ vs')) ≡ ok vs
    → pack (with_values (f ∷ fs) vs) ≡ ok bs
unfolding pack
unpack-cons f fs vs bs (err x) d k ih h = absurd (cc h)
unpack-cons f fs vs bs (ok (v, rest)) d k ih h = step (unpack fs rest) refl h
  where
    step :
        (u : Result (List ℤ))
        → unpack fs rest ≡ u
        → (u >>= λ vs'. ok (v ∷ vs')) ≡ ok vs
        → pack (with_values (f ∷ fs) vs) ≡ ok bs
    step (err x) e h' = absurd (cc h')
    step (ok vs') e h' =
        let here = to_bytes-decode f v bs rest d k in
        let same : vs ≡ v ∷ vs' = cc in rw (same, here.1, ih vs' rest e here.2, here.0)

pub pack-unpack :
    (fs : List Format) (vs : List ℤ) (bs : Bytes)
    → unpack fs bs ≡ ok vs
    → AreBytes bs
    → pack (with_values fs vs) ≡ ok bs
unfolding unpack pack
pack-unpack [] vs [] h k = refl
pack-unpack [] vs (b ∷ bs) h k = absurd (cc h)
pack-unpack (f ∷ fs) vs bs h k =
    unpack-cons f fs vs bs (decode f bs) refl k (λ vs' rest. pack-unpack fs vs' rest) h
