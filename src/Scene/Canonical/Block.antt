-- ===== src/Scene/Canonical/Block.antt =====
-- racelink/services/scenes_service.py: `_canonical_offset_block`.
use race_link_host.Prelude.{
  ℕ, suc, ◌≡◌, true, Option, none, some, List, [], ◌∷◌, arith, String, ◌==◌, if◌then◌else◌, length,
  any_of, ℤ, pos, negsuc, ◌≤ℤ◌, leb_ℤ, eqb_ℤ, value_error, Result, ok, err, ◌>>=◌, ◌>>◌, require,
  if-cases, WhenOk,
}
use race_link_host.Formula.{OffsetSpec}
use race_link_host.Scene.Canonical.{
  Json, integer, array, object, Elements, no_elements, element, Members, field_or, field, is_text,
  group_id_max, is_within, read_int, within_or_raise, validate_int,
}

abbrev pub elements_length : Elements → ℕ
elements_length no_elements = 0
elements_length (element raw rest) = suc (elements_length rest)

-- `canonical_values.sort(key=lambda e: e["id"])`, which is stable.
unfoldable pub insert_value : ℤ × ℤ → List (ℤ × ℤ) → List (ℤ × ℤ)
insert_value v [] = v ∷ []
insert_value v (w ∷ vs) =
    let rest = insert_value v vs in if leb_ℤ v.0 w.0 then v ∷ w ∷ vs else w ∷ rest

abbrev pub sort_values : List (ℤ × ℤ) → List (ℤ × ℤ)
sort_values [] = []
sort_values (v ∷ vs) = insert_value v (sort_values vs)

abbrev pub bare_block : String → OffsetSpec
bare_block name = record {
  mode = some name;
  offset_ms = none;
  base_ms = none;
  step_ms = none;
  center = none;
  cycle = none;
  values = [];
}

module _ (int_of_text : String → Option ℤ) where
  -- The entries of an explicit block, each for one of the groups.
  unfoldable pub explicit_values : List ℤ → Elements → Result (List (ℤ × ℤ))
  explicit_values ids no_elements = ok []
  explicit_values ids (element (object entry) rest) = do
    gid ← validate_int int_of_text (pos 0) group_id_max (field "id" entry)
    require (any_of (eqb_ℤ gid) ids) value_error
    ms ← validate_int int_of_text (pos 0) (pos 65535) (field "offset_ms" entry)
    values ← explicit_values ids rest
    ok ((gid, ms) ∷ values)
  explicit_values ids (element raw rest) = err value_error

  unfoldable pub explicit_block : Option (List ℤ) → Json → Result OffsetSpec
  explicit_block (some ids) (array entries) = do
    require (elements_length entries == length ids) value_error
    values ← explicit_values ids entries
    ok (record (bare_block "explicit") { values = sort_values values })
  explicit_block _ _ = err value_error

  abbrev pub formula_int : ℤ → ℤ → String → ℤ → Members → Result ℤ
  formula_int lo hi key default entries =
      validate_int int_of_text lo hi (field_or (integer default) key entries)

  abbrev pub cascade_block : String → ℤ → ℤ → OffsetSpec
  cascade_block name base step = record (bare_block name) {
    base_ms = some base;
    step_ms = some step;
  }

  -- The formula modes, with what follows their common parameters.
  abbrev pub formula_block : Members → (ℤ → ℤ → Result OffsetSpec) → Result OffsetSpec
  formula_block entries finish = do
    base ← formula_int (negsuc 32767) (pos 32767) "base_ms" (pos 0) entries
    step ← formula_int (negsuc 32767) (pos 32767) "step_ms" (pos 0) entries
    finish base step

  abbrev pub with_center : Members → ℤ → ℤ → Result OffsetSpec
  with_center entries base step = do
    center ← formula_int (pos 0) group_id_max "center" (pos 0) entries
    ok (record (cascade_block "vshape" base step) { center = some center })

  abbrev pub with_cycle : Members → ℤ → ℤ → Result OffsetSpec
  with_cycle entries base step = do
    cycle ← formula_int (pos 1) (pos 255) "cycle" (pos 1) entries
    ok (record (cascade_block "modulo" base step) { cycle = some cycle })

  -- `none` in place of the groups is a target that addresses all of them.
  unfoldable pub canonical_offset_block : Option (List ℤ) → Json → Result OffsetSpec
  canonical_offset_block group_ids (object entries) =
      let mode = field "mode" entries in
      if is_text "none" mode
      then ok (bare_block "none")
      else if is_text "explicit" mode
      then explicit_block group_ids (field "values" entries)
      else if is_text "linear" mode
      then formula_block entries (λ base step. ok (cascade_block "linear" base step))
      else if is_text "vshape" mode
      then formula_block entries (with_center entries)
      else if is_text "modulo" mode
      then formula_block entries (with_cycle entries)
      else err value_error
  canonical_offset_block group_ids _ = err value_error

  abbrev pub Bounds : ℤ → ℤ → ℤ → Type 0
  Bounds lo hi v = (lo ≤ℤ v) × (v ≤ℤ hi)

  within-Bounds : (lo hi v : ℤ) → is_within lo hi v ≡ true → Bounds lo hi v
  within-Bounds lo hi v h = ground arith

  pub validate_int-Bounds :
      (lo hi : ℤ) (raw : Json) → WhenOk (Bounds lo hi) (validate_int int_of_text lo hi raw)
  unfolding validate_int
  validate_int-Bounds lo hi raw = by_value (read_int int_of_text raw)
    where
      by_value : (o : Option ℤ) → WhenOk (Bounds lo hi) (within_or_raise int_of_text lo hi o)
      by_value none = tt
      by_value (some v) =
          if-cases (WhenOk (Bounds lo hi)) (is_within lo hi v) (ok v) (err value_error)
            (within-Bounds lo hi v) (λ h. tt)
