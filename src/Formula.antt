-- ===== src/Formula.antt =====
-- racelink/domain/offset_formula.py: the offset of a group under a scene action's offset block.
use race_link_host.Prelude.{
  ℕ, ◌+◌, ◌-◌, ◌%◌, ◌≤◌, ◌<◌, ◌≡◌, refl, Option, none, some, List, [], ◌∷◌, arith, str_eq, String,
  ◌==◌, if◌then◌else◌, get_or, ℤ, pos, negsuc, ◌+ℤ◌, ◌*ℤ◌, ◌≤ℤ◌, distance, mask, clamp,
  clamp_bounds, value_error, Result, ok, err, ◌>>=◌,
}
use native.Mathlib.Nat.{add-mod_right}
use race_link_host.Protocol.OffsetBody.{
  OffsetMode, mode_none, mode_explicit, mode_linear, mode_vshape, mode_modulo, mode_of_name,
}

-- The `offset` block of an action: a mapping, each key of which may be missing. `values` has the
-- (id, offset_ms) entries of an explicit block.
pub record OffsetSpec : Type 0 where
  pub mode : Option String
  pub offset_ms : Option ℤ
  pub base_ms : Option ℤ
  pub step_ms : Option ℤ
  pub center : Option ℤ
  pub cycle : Option ℤ
  pub values : List (ℤ × ℤ)

-- `(spec.get("mode") or "none").lower()`, as the mode that it names; `none` is a name that no
-- branch of the callers tests for.
unfoldable pub spec_mode : Option String → Option OffsetMode
spec_mode none = some mode_none
spec_mode (some s) = if str_eq s "" then some mode_none else mode_of_name s

abbrev pub clamp_ms : ℤ → ℤ
clamp_ms v = clamp (pos 0) (pos 65535) v

-- `group_id & 0xFF`
abbrev pub low_byte : ℤ → ℕ
low_byte v = mask 256 v

-- `base + k * step`, clamped.
abbrev pub cascade : OffsetSpec → ℕ → ℤ
cascade spec k = clamp_ms (get_or spec.base_ms (pos 0) +ℤ pos k *ℤ get_or spec.step_ms (pos 0))

abbrev pub positive_cycle : ℤ → ℕ
positive_cycle (pos n) = if n == 0 then 1 else n
positive_cycle (negsuc n) = 1

-- The chain of tests on the mode.
unfoldable pub evaluate_mode : Option OffsetMode → OffsetSpec → ℕ → Result ℤ
evaluate_mode (some mode_none) spec gid = ok (pos 0)
evaluate_mode (some mode_explicit) spec gid = ok (clamp_ms (get_or spec.offset_ms (pos 0)))
evaluate_mode (some mode_linear) spec gid = ok (cascade spec gid)
evaluate_mode (some mode_vshape) spec gid =
    ok (cascade spec (distance (pos gid) (pos (low_byte (get_or spec.center (pos 0))))))
evaluate_mode (some mode_modulo) spec gid =
    ok (cascade spec (gid % positive_cycle (get_or spec.cycle (pos 1))))
evaluate_mode none spec gid = err value_error

unfoldable pub evaluate_offset_ms : OffsetSpec → ℤ → Result ℤ
unfolding evaluate_mode
evaluate_offset_ms spec group_id = evaluate_mode (spec_mode spec.mode) spec (low_byte group_id)

-- `[{"id": …, "offset_ms": …} for g in group_ids]`
unfoldable pub evaluate_for_groups : OffsetSpec → List ℤ → Result (List (ℕ × ℤ))
evaluate_for_groups spec [] = ok []
evaluate_for_groups spec (g ∷ gs) = do
  ms ← evaluate_offset_ms spec g
  rest ← evaluate_for_groups spec gs
  ok ((low_byte g, ms) ∷ rest)

clamped :
    (v ms : ℤ) → ◌≡◌ {A = Result ℤ} (ok (clamp_ms v)) (ok ms) → (pos 0 ≤ℤ ms) × (ms ≤ℤ pos 65535)
clamped v ms h =
    let same : clamp_ms v ≡ ms = cc in
    rw (← same) (clamp_bounds (pos 0) (pos 65535) v (omega arith))

cascaded :
    (spec : OffsetSpec) (k : ℕ) (ms : ℤ)
    → ◌≡◌ {A = Result ℤ} (ok (cascade spec k)) (ok ms)
    → (pos 0 ≤ℤ ms) × (ms ≤ℤ pos 65535)
cascaded spec k ms h =
    clamped (get_or spec.base_ms (pos 0) +ℤ pos k *ℤ get_or spec.step_ms (pos 0)) ms h

pub evaluate_mode_bounds :
    (m : Option OffsetMode) (spec : OffsetSpec) (g : ℕ) (ms : ℤ)
    → evaluate_mode m spec g ≡ ok ms
    → (pos 0 ≤ℤ ms) × (ms ≤ℤ pos 65535)
unfolding evaluate_mode
evaluate_mode_bounds (some mode_none) spec g ms h = ground arith
evaluate_mode_bounds (some mode_explicit) spec g ms h = clamped (get_or spec.offset_ms (pos 0)) ms h
evaluate_mode_bounds (some mode_linear) spec g ms h = cascaded spec g ms h
evaluate_mode_bounds (some mode_vshape) spec g ms h =
    cascaded spec (distance (pos g) (pos (low_byte (get_or spec.center (pos 0))))) ms h
evaluate_mode_bounds (some mode_modulo) spec g ms h =
    cascaded spec (g % positive_cycle (get_or spec.cycle (pos 1))) ms h
evaluate_mode_bounds none spec g ms h = absurd (cc h)

pub evaluate_bounds :
    (spec : OffsetSpec) (g ms : ℤ)
    → evaluate_offset_ms spec g ≡ ok ms
    → (pos 0 ≤ℤ ms) × (ms ≤ℤ pos 65535)
unfolding evaluate_offset_ms
evaluate_bounds spec g ms h = evaluate_mode_bounds (spec_mode spec.mode) spec (low_byte g) ms h

-- The entry that belongs to a group.
abbrev pub Entries : OffsetSpec → List ℤ → List (ℕ × ℤ) → Type 0
Entries spec [] [] = Unit
Entries spec (g ∷ gs) ((id, ms) ∷ es) =
    (id ≡ low_byte g)
    × (evaluate_offset_ms spec g ≡ ok ms)
    × (pos 0 ≤ℤ ms)
    × (ms ≤ℤ pos 65535)
    × Entries spec gs es
Entries spec _ _ = ⊥

evaluate_for_groups-cons :
    (spec : OffsetSpec) (g : ℤ) (gs : List ℤ) (es : List (ℕ × ℤ)) (r : Result ℤ)
    → evaluate_offset_ms spec g ≡ r
    → ((rest : List (ℕ × ℤ)) → evaluate_for_groups spec gs ≡ ok rest → Entries spec gs rest)
    → (r >>= λ ms. evaluate_for_groups spec gs >>= λ rest. ok ((low_byte g, ms) ∷ rest)) ≡ ok es
    → Entries spec (g ∷ gs) es
unfolding evaluate_offset_ms
evaluate_for_groups-cons spec g gs es (err x) e ih h = absurd (cc h)
evaluate_for_groups-cons spec g gs es (ok ms) e ih h = step (evaluate_for_groups spec gs) refl h
  where
    step :
        (u : Result (List (ℕ × ℤ)))
        → evaluate_for_groups spec gs ≡ u
        → (u >>= λ rest. ok ((low_byte g, ms) ∷ rest)) ≡ ok es
        → Entries spec (g ∷ gs) es
    step (err x) k h' = absurd (cc h')
    step (ok rest) k h' =
        let same : (low_byte g, ms) ∷ rest ≡ es = cc in
        let range = evaluate_mode_bounds (spec_mode spec.mode) spec (low_byte g) ms e in
        rw (← same) (refl, e, range.0, range.1, ih rest k)

-- When the evaluation of a list of groups succeeds, there is one entry for each group, in order: the
-- low byte of its id and its offset, which is an unsigned 16-bit number.
pub evaluate_for_groups_lem :
    (spec : OffsetSpec) (gs : List ℤ) (es : List (ℕ × ℤ))
    → evaluate_for_groups spec gs ≡ ok es
    → Entries spec gs es
unfolding evaluate_for_groups
evaluate_for_groups_lem spec [] [] h = tt
evaluate_for_groups_lem spec [] (e ∷ es) h = absurd (cc h)
evaluate_for_groups_lem spec (g ∷ gs) es h =
    evaluate_for_groups-cons spec g gs es (evaluate_offset_ms spec g) refl
      (evaluate_for_groups_lem spec gs) h

-- A v-shape gives two groups at the same distance from its centre the same offset, where the centre
-- and both groups are byte values.
vshape_symmetric :
    (spec : OffsetSpec) (c d : ℕ)
    → c + d < 256
    → d ≤ c
    → get_or spec.center (pos 0) ≡ pos c
    → spec_mode spec.mode ≡ some mode_vshape
    → evaluate_offset_ms spec (pos (c + d)) ≡ evaluate_offset_ms spec (pos (c - d))
unfolding evaluate_offset_ms
vshape_symmetric spec c d hc hd ec e = rw (e, ec, apart)
  where
    apart :
        distance (pos ((c + d) % 256)) (pos (c % 256))
        ≡ distance (pos ((c - d) % 256)) (pos (c % 256))
    apart = omega arith

-- A modulo block gives two groups one cycle apart the same offset, where both are byte values.
modulo_periodic :
    (spec : OffsetSpec) (g n : ℕ)
    → 0 < n
    → g + n < 256
    → get_or spec.cycle (pos 1) ≡ pos n
    → spec_mode spec.mode ≡ some mode_modulo
    → evaluate_offset_ms spec (pos (g + n)) ≡ evaluate_offset_ms spec (pos g)
unfolding evaluate_offset_ms
modulo_periodic spec g n hn hg en e = rw (e, en, positive, period)
  where
    wide : (g + n) % 256 ≡ g + n
    wide = omega arith

    narrow : g % 256 ≡ g
    narrow = omega arith

    period : (g + n) % 256 % n ≡ g % 256 % n
    period = rw (wide, narrow) (add-mod_right g n)

    positive : positive_cycle (pos n) ≡ n
    positive = ground arith
