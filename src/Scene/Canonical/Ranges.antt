-- ===== src/Scene/Canonical/Ranges.antt =====
-- The parameters of an offset block that the validation accepts.
use race_link_host.Prelude.{
  ◌≡◌, refl, Bool, true, false, Option, none, some, List, [], ◌∷◌, arith, String, ◌==◌,
  if◌then◌else◌, length, any_of, All, ℤ, pos, negsuc, ◌≤ℤ◌, leb_ℤ, eqb_ℤ, value_error, Result, ok,
  err, require, if-both, WhenOk, WhenOk-value, WhenOk-if, WhenOk-require, WhenOk-bind,
}
use race_link_host.Formula.{OffsetSpec}
use race_link_host.Dispatch.Optimizer.Bodies.{InRange}
use race_link_host.Scene.Canonical.{
  Json, null, boolean, integer, text, array, object, Elements, no_elements, element, Members,
  field_or, field, is_text, group_id_max, validate_int,
}
use race_link_host.Scene.Canonical.Block.{
  Bounds, validate_int-Bounds, elements_length, insert_value, sort_values, bare_block,
  explicit_values, explicit_block, formula_int, cascade_block, formula_block, with_center,
  with_cycle, canonical_offset_block,
}

abbrev CycleFits : Option ℤ → Type 0
CycleFits none = Unit
CycleFits (some cycle) = (pos 1 ≤ℤ cycle) × (cycle ≤ℤ pos 255)

abbrev IsGroupOf : Option (List ℤ) → ℤ → Type 0
IsGroupOf none gid = ⊥
IsGroupOf (some ids) gid = any_of (eqb_ℤ gid) ids ≡ true

-- An entry of the table.
abbrev EntryFits : Option (List ℤ) → ℤ × ℤ → Type 0
EntryFits group_ids (gid, ms) =
    (pos 0 ≤ℤ gid) × (gid ≤ℤ pos 254) × (pos 0 ≤ℤ ms) × (ms ≤ℤ pos 65535) × IsGroupOf group_ids gid

abbrev pub Fits : Option (List ℤ) → OffsetSpec → Type 0
Fits group_ids spec = InRange spec × CycleFits spec.cycle × All (EntryFits group_ids) spec.values

insert_value-All :
    (P : ℤ × ℤ → Type 0) (v : ℤ × ℤ) (vs : List (ℤ × ℤ))
    → P v
    → All P vs
    → All P (insert_value v vs)
unfolding insert_value
insert_value-All P v [] p h = (p, tt)
insert_value-All P v (w ∷ vs) p h =
    if-both (All P) (leb_ℤ v.0 w.0) (v ∷ w ∷ vs) (w ∷ insert_value v vs) (p, h)
      (h.0, insert_value-All P v vs p h.1)

sort_values-All : (P : ℤ × ℤ → Type 0) (vs : List (ℤ × ℤ)) → All P vs → All P (sort_values vs)
sort_values-All P [] h = tt
sort_values-All P (v ∷ vs) h = insert_value-All P v (sort_values vs) h.0 (sort_values-All P vs h.1)

module _ (int_of_text : String → Option ℤ) where
  unset-InRange :
      (name : String) (values : List (ℤ × ℤ))
      → InRange (record (bare_block name) { values = values })
  unset-InRange name values = record {
    base_low = omega arith;
    base_high = omega arith;
    step_low = omega arith;
    step_high = omega arith;
    center_low = omega arith;
    center_high = omega arith;
    cycle_high = omega arith;
  }

  Word : ℤ → Type 0
  Word v = Bounds int_of_text (negsuc 32767) (pos 32767) v

  linear-Fits :
      (group_ids : Option (List ℤ)) (name : String) (base step : ℤ)
      → Word base
      → Word step
      → Fits group_ids (cascade_block int_of_text name base step)
  unfolding Word
  linear-Fits group_ids name base step b s = (
    record {
      base_low = b.0;
      base_high = b.1;
      step_low = s.0;
      step_high = s.1;
      center_low = omega arith;
      center_high = omega arith;
      cycle_high = omega arith;
    },
    tt,
    tt,
  )

  center-Fits :
      (group_ids : Option (List ℤ)) (entries : Members) (base step : ℤ)
      → Word base
      → Word step
      → WhenOk (Fits group_ids) (with_center int_of_text entries base step)
  unfolding Word
  center-Fits group_ids entries base step b s =
      WhenOk-bind (Bounds int_of_text (pos 0) group_id_max) (Fits group_ids)
        (formula_int int_of_text (pos 0) group_id_max "center" (pos 0) entries) _
        (validate_int-Bounds int_of_text (pos 0) group_id_max
          (field_or (integer (pos 0)) "center" entries))
        (λ center c. (
          record {
            base_low = b.0;
            base_high = b.1;
            step_low = s.0;
            step_high = s.1;
            center_low = c.0;
            center_high = c.1;
            cycle_high = omega arith;
          },
          tt,
          tt,
        ))

  cycle-Fits :
      (group_ids : Option (List ℤ)) (entries : Members) (base step : ℤ)
      → Word base
      → Word step
      → WhenOk (Fits group_ids) (with_cycle int_of_text entries base step)
  unfolding Word
  cycle-Fits group_ids entries base step b s =
      WhenOk-bind (Bounds int_of_text (pos 1) (pos 255)) (Fits group_ids)
        (formula_int int_of_text (pos 1) (pos 255) "cycle" (pos 1) entries) _
        (validate_int-Bounds int_of_text (pos 1) (pos 255)
          (field_or (integer (pos 1)) "cycle" entries))
        (λ cycle c. (
          record {
            base_low = b.0;
            base_high = b.1;
            step_low = s.0;
            step_high = s.1;
            center_low = omega arith;
            center_high = omega arith;
            cycle_high = c.1;
          },
          c,
          tt,
        ))

  formula_block-Fits :
      (group_ids : Option (List ℤ)) (entries : Members) (finish : ℤ → ℤ → Result OffsetSpec)
      → ((base step : ℤ) → Word base → Word step → WhenOk (Fits group_ids) (finish base step))
      → WhenOk (Fits group_ids) (formula_block int_of_text entries finish)
  unfolding Word
  formula_block-Fits group_ids entries finish f =
      let raw : String → Json = λ key. field_or (integer (pos 0)) key entries in
      WhenOk-bind Word (Fits group_ids)
        (formula_int int_of_text (negsuc 32767) (pos 32767) "base_ms" (pos 0) entries) _
        (validate_int-Bounds int_of_text (negsuc 32767) (pos 32767) (raw "base_ms"))
        (λ base b.
          WhenOk-bind Word (Fits group_ids)
            (formula_int int_of_text (negsuc 32767) (pos 32767) "step_ms" (pos 0) entries) _
            (validate_int-Bounds int_of_text (negsuc 32767) (pos 32767) (raw "step_ms"))
            (λ step s. f base step b s))

  listed : (b : Bool) → WhenOk (λ u. b ≡ true) (require b value_error)
  listed true = refl
  listed false = tt

  explicit_values-Fits :
      (ids : List ℤ) (raw : Elements)
      → WhenOk (All (EntryFits (some ids))) (explicit_values int_of_text ids raw)
  unfolding explicit_values
  explicit_values-Fits ids no_elements = tt
  explicit_values-Fits ids (element (object entry) rest) =
      WhenOk-bind (Bounds int_of_text (pos 0) group_id_max) (All (EntryFits (some ids)))
        (validate_int int_of_text (pos 0) group_id_max (field "id" entry)) _
        (validate_int-Bounds int_of_text (pos 0) group_id_max (field "id" entry))
        (λ gid g.
          WhenOk-bind (λ u. any_of (eqb_ℤ gid) ids ≡ true) (All (EntryFits (some ids)))
            (require (any_of (eqb_ℤ gid) ids) value_error) _ (listed (any_of (eqb_ℤ gid) ids))
            (λ u l.
              WhenOk-bind (Bounds int_of_text (pos 0) (pos 65535)) (All (EntryFits (some ids)))
                (validate_int int_of_text (pos 0) (pos 65535) (field "offset_ms" entry)) _
                (validate_int-Bounds int_of_text (pos 0) (pos 65535) (field "offset_ms" entry))
                (λ ms m.
                  WhenOk-bind (All (EntryFits (some ids))) (All (EntryFits (some ids)))
                    (explicit_values int_of_text ids rest) (λ values. ok ((gid, ms) ∷ values))
                    (explicit_values-Fits ids rest) (λ values vs. ((g.0, g.1, m.0, m.1, l), vs)))))
  explicit_values-Fits ids (element null rest) = tt
  explicit_values-Fits ids (element (boolean b) rest) = tt
  explicit_values-Fits ids (element (integer n) rest) = tt
  explicit_values-Fits ids (element (text s) rest) = tt
  explicit_values-Fits ids (element (array es) rest) = tt

  explicit_block-Fits :
      (group_ids : Option (List ℤ)) (raw : Json)
      → WhenOk (Fits group_ids) (explicit_block int_of_text group_ids raw)
  unfolding explicit_block
  explicit_block-Fits (some ids) (array entries) =
      WhenOk-require (Fits (some ids)) (elements_length entries == length ids) value_error _ (
        WhenOk-bind (All (EntryFits (some ids))) (Fits (some ids))
          (explicit_values int_of_text ids entries) _ (explicit_values-Fits ids entries)
          (λ values vs. (
            unset-InRange "explicit" (sort_values values),
            tt,
            sort_values-All (EntryFits (some ids)) values vs,
          )))
  explicit_block-Fits (some ids) null = tt
  explicit_block-Fits (some ids) (boolean b) = tt
  explicit_block-Fits (some ids) (integer n) = tt
  explicit_block-Fits (some ids) (text s) = tt
  explicit_block-Fits (some ids) (object entries) = tt
  explicit_block-Fits none raw = tt

  block-Fits :
      (group_ids : Option (List ℤ)) (raw : Json)
      → WhenOk (Fits group_ids) (canonical_offset_block int_of_text group_ids raw)
  unfolding canonical_offset_block
  block-Fits group_ids (object entries) =
      let mode = field "mode" entries in
      let linear : Result OffsetSpec =
        formula_block int_of_text entries
          (λ base step. ok (cascade_block int_of_text "linear" base step)) in
      let vshape : Result OffsetSpec =
        formula_block int_of_text entries (with_center int_of_text entries) in
      let modulo : Result OffsetSpec =
        formula_block int_of_text entries (with_cycle int_of_text entries) in
      let values : Result OffsetSpec =
        explicit_block int_of_text group_ids (field "values" entries) in
      let refused : Result OffsetSpec = err value_error in
      let fourth : Result OffsetSpec = if is_text "modulo" mode then modulo else refused in
      let third : Result OffsetSpec = if is_text "vshape" mode then vshape else fourth in
      let second : Result OffsetSpec = if is_text "linear" mode then linear else third in
      let first : Result OffsetSpec = if is_text "explicit" mode then values else second in
      WhenOk-if (Fits group_ids) (is_text "none" mode) (ok (bare_block "none")) first
        (unset-InRange "none" [], tt, tt)
        (WhenOk-if (Fits group_ids) (is_text "explicit" mode) values second
          (explicit_block-Fits group_ids (field "values" entries))
          (WhenOk-if (Fits group_ids) (is_text "linear" mode) linear third
            (formula_block-Fits group_ids entries
              (λ base step. ok (cascade_block int_of_text "linear" base step))
              (linear-Fits group_ids "linear"))
            (WhenOk-if (Fits group_ids) (is_text "vshape" mode) vshape fourth
              (formula_block-Fits group_ids entries (with_center int_of_text entries)
                (center-Fits group_ids entries))
              (WhenOk-if (Fits group_ids) (is_text "modulo" mode) modulo refused
                (formula_block-Fits group_ids entries (with_cycle int_of_text entries)
                  (cycle-Fits group_ids entries))
                tt))))
  block-Fits group_ids null = tt
  block-Fits group_ids (boolean b) = tt
  block-Fits group_ids (integer n) = tt
  block-Fits group_ids (text s) = tt
  block-Fits group_ids (array entries) = tt

  -- An offset block that the validation accepts has all its parameters in the ranges of the packet's
  -- fields: base and step from -32768 to 32767, the centre from 0 to 254, a cycle that is given from 1 to
  -- 255, and each entry of a table an offset from 0 to 65535 for an id from 0 to 254 that is one of the
  -- container's groups; where the container addresses all groups, there is no entry.
  pub canonical_offset_block-Fits :
      (group_ids : Option (List ℤ)) (raw : Json) (spec : OffsetSpec)
      → canonical_offset_block int_of_text group_ids raw ≡ ok spec
      → Fits group_ids spec
  canonical_offset_block-Fits group_ids raw spec e =
      WhenOk-value (Fits group_ids) (canonical_offset_block int_of_text group_ids raw) spec e
        (block-Fits group_ids raw)
