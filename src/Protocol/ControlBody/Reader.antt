-- ===== src/Protocol/ControlBody/Reader.antt =====
-- A reader of OPC_CONTROL bodies by the layout comment above `build_control_body`, and the bodies
-- that it is given.
use race_link_host.Prelude.{
  append_nil, append_assoc, ℕ, ◌+◌, ◌*◌, ◌/◌, ◌%◌, ◌<◌, ◌≡◌, refl, sym, ap, ◌∙◌, true, false,
  Option, none, some, List, [], ◌∷◌, ◌++◌, arith, leb, ◌==◌, if◌then◌else◌, length, take, drop,
  length-append,
}
use native.Mathlib.Nat.{div-eq_of_lt}
use race_link_host.Struct.{Bytes}
use race_link_host.Protocol.Flags.{or_bit}
use race_link_host.Protocol.ControlBody.{add_field}

-- The next `n` bytes, if there are so many.
abbrev pub read_bytes : ℕ → Bytes → Option (Bytes × Bytes)
read_bytes n bs = if leb n (length bs) then some (take n bs, drop n bs) else none

abbrev pub and_then : {A B : Type 0} → Option A → (A → Option B) → Option B
and_then none f = none
and_then (some a) f = f a

-- The fields that a mask announces, lowest bit first, each of its width; then what is left of the
-- mask and of the bytes.
abbrev pub read_fields : List ℕ → ℕ → Bytes → Option (List (Option Bytes) × (ℕ × Bytes))
read_fields [] m bs = some ([], (m, bs))
read_fields (n ∷ ns) m bs =
    if m % 2 == 1
    then and_then (read_bytes n bs)
        (λ p. and_then (read_fields ns (m / 2) p.1) (λ q. some (some p.0 ∷ q.0, q.1)))
    else and_then (read_fields ns (m / 2) bs) (λ q. some (none ∷ q.0, q.1))

-- `fs` are fields of the given widths.
abbrev pub HasWidth : ℕ → Option Bytes → Type 0
HasWidth n none = Unit
HasWidth n (some bs) = length bs ≡ n

abbrev pub HaveWidths : List ℕ → List (Option Bytes) → Type 0
HaveWidths [] [] = Unit
HaveWidths (n ∷ ns) (f ∷ fs) = HasWidth n f × HaveWidths ns fs
HaveWidths _ _ = ⊥

-- The mask of the given fields, lowest bit first, below the bits `high`.
abbrev pub mask_from : ℕ → List (Option Bytes) → ℕ
mask_from high [] = high
mask_from high (none ∷ fs) = 2 * mask_from high fs
mask_from high (some bs ∷ fs) = 1 + 2 * mask_from high fs

abbrev pub tail_of : List (Option Bytes) → Bytes
tail_of [] = []
tail_of (none ∷ fs) = tail_of fs
tail_of (some bs ∷ fs) = bs ++ tail_of fs

take-append : (bs rest : Bytes) → take (length bs) (bs ++ rest) ≡ bs
take-append [] rest = refl
take-append (b ∷ bs) rest = ap (λ t. b ∷ t) (take-append bs rest)

drop-append : (bs rest : Bytes) → drop (length bs) (bs ++ rest) ≡ rest
drop-append [] rest = refl
drop-append (b ∷ bs) rest = drop-append bs rest

read_bytes-append : (bs rest : Bytes) → read_bytes (length bs) (bs ++ rest) ≡ some (bs, rest)
read_bytes-append bs rest =
    let enough : leb (length bs) (length (bs ++ rest)) ≡ true =
      ground (arith, length-append bs rest) in
    rw (enough, take-append bs rest, drop-append bs rest) refl

odd_bit : (k : ℕ) → ((1 + 2 * k) % 2 == 1) ≡ true
odd_bit k = ground arith

even_bit : (k : ℕ) → (2 * k % 2 == 1) ≡ false
even_bit k = ground arith

odd_half : (k : ℕ) → (1 + 2 * k) / 2 ≡ k
odd_half k = omega arith

even_half : (k : ℕ) → 2 * k / 2 ≡ k
even_half k = omega arith

-- A reader that knows the widths recovers the fields from their mask and their bytes.
pub read_fields-tail_of :
    (ns : List ℕ) (fs : List (Option Bytes)) (high : ℕ) (rest : Bytes)
    → HaveWidths ns fs
    → read_fields ns (mask_from high fs) (tail_of fs ++ rest) ≡ some (fs, (high, rest))
read_fields-tail_of [] [] high rest h = refl
read_fields-tail_of [] (f ∷ fs) high rest h = absurd h
read_fields-tail_of (n ∷ ns) [] high rest h = absurd h
read_fields-tail_of (n ∷ ns) (none ∷ fs) high rest h =
    rw
      (
        even_bit (mask_from high fs),
        even_half (mask_from high fs),
        read_fields-tail_of ns fs high rest h.1,
      )
      refl
read_fields-tail_of (n ∷ ns) (some bs ∷ fs) high rest (w, h) =
    rw
      (
        odd_bit (mask_from high fs),
        odd_half (mask_from high fs),
        append_assoc bs (tail_of fs) rest,
        sym w,
        read_bytes-append bs (tail_of fs ++ rest),
        read_fields-tail_of ns fs high rest h,
      )
      refl

pub or_bit-above : (m bit : ℕ) → m < bit → or_bit m bit ≡ m + bit
or_bit-above m bit h = rw (div-eq_of_lt h) refl

-- The fields' mask and bytes, as `build_control_body` gathers them: each with its bit, from `bit` up.
abbrev pub gather : ℕ → List (Option Bytes) → ℕ × Bytes → ℕ × Bytes
gather bit [] s = s
gather bit (f ∷ fs) s = gather (2 * bit) fs (add_field bit f s)

zero_product : (m bit : ℕ) → m + bit * 0 ≡ m
zero_product m bit = omega arith

next_product : (m bit k : ℕ) → m + bit + 2 * bit * k ≡ m + bit * (1 + 2 * k)
next_product m bit k = omega arith

pub gather-eq :
    (fs : List (Option Bytes)) (bit m : ℕ) (tail : Bytes)
    → m < bit
    → gather bit fs (m, tail) ≡ (m + bit * mask_from 0 fs, tail ++ tail_of fs)
gather-eq [] bit m tail h = cc (append_nil tail, zero_product m bit)
gather-eq (none ∷ fs) bit m tail h =
    let first = gather-eq fs (2 * bit) m tail (omega arith) in
    first ∙ ap (λ k. (k, tail ++ tail_of fs)) (omega arith)
gather-eq (some bs ∷ fs) bit m tail h =
    let set = or_bit-above m bit h in
    let rest = gather-eq fs (2 * bit) (m + bit) (tail ++ bs) (omega arith) in
    rw set (rest ∙ cc (append_assoc tail bs (tail_of fs), next_product m bit (mask_from 0 fs)))
