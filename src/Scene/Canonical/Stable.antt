-- ===== src/Scene/Canonical/Stable.antt =====
-- What the validation of a target returns is canonical, and canonical targets are left as they are.
use race_link_host.Prelude.{
  ◌≡◌, refl, sym, ◌≢◌, Bool, true, false, not, Option, List, [], ◌∷◌, arith, String, if◌then◌else◌,
  All, ℤ, pos, leb_ℤ, value_error, Result, ok, err, ◌>>=◌, ◌>>◌, require, if-both, if-cases, WhenOk,
  WhenOk-of, WhenOk-value, WhenOk-if, WhenOk-require, WhenOk-bind,
}
use race_link_host.Dispatch.Action.{Target, to_all, to_groups, to_addr, other_kind_target}
use race_link_host.Dispatch.Optimizer.Ops.{IsGroupId}
use race_link_host.Scene.Canonical.{
  Json, null, boolean, integer, text, array, object, Elements, no_elements, element, no_members,
  member, field, is_text, group_id_max, is_within, validate_int, migrate_legacy_target, group_ids,
  insert, sort, groups_target, device_target, current_target, canonical_target,
}
use race_link_host.Scene.Canonical.Sorted.{
  IsAscending, AreFresh, listed, above-eqb, sort-All, sort-IsAscending, sort_ascending, Accepted,
  group_ids-Accepted,
}

-- The JSON form in which a target is stored.
abbrev pub ids_json : List ℤ → Elements
ids_json [] = no_elements
ids_json (v ∷ vs) = element (integer v) (ids_json vs)

abbrev pub target_json : Target → Json
target_json to_all = object (member "kind" (text "broadcast") no_members)
target_json (to_groups ids) =
    object (member "kind" (text "groups") (member "value" (array (ids_json ids)) no_members))
target_json (to_addr v) =
    object (member "kind" (text "device") (member "value" (text v) no_members))
target_json other_kind_target = null

anything : {A : Type 0} → (r : Result A) → WhenOk (λ a. Unit {0}) r
anything r = WhenOk-of (λ a. Unit {0}) r (λ a e. tt)

module _ (int_of_text : String → Option ℤ) (strip_upper : String → String)
    (is_mac12 : String → Bool) where
  -- Ids in range, at least one, in ascending order; an address of twelve hexadecimal digits.
  abbrev pub IsCanonical : Target → Type 0
  IsCanonical to_all = Unit
  IsCanonical (to_groups []) = ⊥
  IsCanonical (to_groups (v ∷ vs)) = All IsGroupId (v ∷ vs) × IsAscending (v ∷ vs)
  IsCanonical (to_addr v) = (v ≡ strip_upper v) × (is_mac12 v ≡ true)
  IsCanonical other_kind_target = ⊥

  sorted-IsCanonical :
      (ids : List ℤ) → ids ≢ [] → All IsGroupId ids → IsAscending ids → IsCanonical (to_groups ids)
  sorted-IsCanonical [] n r a = absurd (n refl)
  sorted-IsCanonical (v ∷ vs) n r a = (r, a)

  module _ (idempotent : (s : String) → strip_upper (strip_upper s) ≡ strip_upper s) where
    device-IsCanonical :
        (raw : Json) → WhenOk IsCanonical (device_target int_of_text strip_upper is_mac12 raw)
    unfolding device_target
    device-IsCanonical (text s) =
        if-cases (WhenOk IsCanonical) (is_mac12 (strip_upper s)) (ok (to_addr (strip_upper s)))
          (err value_error) (λ h. (sym (idempotent s), h)) (λ h. tt)
    device-IsCanonical null = tt
    device-IsCanonical (boolean b) = tt
    device-IsCanonical (integer n) = tt
    device-IsCanonical (array entries) = tt
    device-IsCanonical (object entries) = tt

    insert_nonempty : (v : ℤ) (xs : List ℤ) → insert v xs ≢ []
    unfolding insert
    insert_nonempty v [] e = cc e
    insert_nonempty v (x ∷ xs) e =
        if-both (λ (l : List ℤ). l ≢ []) (leb_ℤ v x) (v ∷ x ∷ xs) (x ∷ insert v xs) (λ e. cc e)
          (λ e. cc e) e

    sort_nonempty : (xs : List ℤ) → xs ≢ [] → sort xs ≢ []
    unfolding sort
    sort_nonempty [] n e = n e
    sort_nonempty (x ∷ xs) n e = insert_nonempty x (sort xs) e

    ids_nonempty :
        (raw : Json) (rest : Elements)
        → WhenOk (λ ids. ids ≢ []) (group_ids int_of_text [] (element raw rest))
    unfolding group_ids
    ids_nonempty raw rest =
        let checked = validate_int int_of_text (pos 0) group_id_max raw in
        let tail : ℤ → Result (List ℤ) =
          λ v. group_ids int_of_text (v ∷ []) rest >>= (λ ids. ok (v ∷ ids)) in
        let tail_nonempty : (v : ℤ) → WhenOk (λ ids. ids ≢ []) (tail v) = λ v.
          WhenOk-bind (λ ids. Unit {0}) (λ ids. ids ≢ []) (group_ids int_of_text (v ∷ []) rest)
            (λ ids. ok (v ∷ ids)) (anything (group_ids int_of_text (v ∷ []) rest))
            (λ ids t e. cc e) in
        WhenOk-bind (λ v. Unit {0}) (λ ids. ids ≢ []) checked
          (λ v. require (not (listed v [])) value_error >> tail v) (anything checked)
          (λ v t.
            WhenOk-require (λ ids. ids ≢ []) (not (listed v [])) value_error (tail v)
              (tail_nonempty v))

    groups-IsCanonical : (raw : Json) → WhenOk IsCanonical (groups_target int_of_text raw)
    unfolding groups_target
    groups-IsCanonical (array (element raw rest)) =
        let found = group_ids int_of_text [] (element raw rest) in
        WhenOk-bind (λ ids. found ≡ ok ids) IsCanonical found _
          (WhenOk-of (λ ids. found ≡ ok ids) found (λ ids e. e))
          (λ ids e.
            let acc =
              WhenOk-value (Accepted int_of_text []) found ids e
                (group_ids-Accepted int_of_text (element raw rest) []) in
            let some_ids = WhenOk-value (λ l. l ≢ []) found ids e (ids_nonempty raw rest) in
            sorted-IsCanonical (sort ids) (sort_nonempty ids some_ids)
              (sort-All int_of_text IsGroupId ids acc.0) (sort-IsAscending int_of_text ids acc.1))
    groups-IsCanonical (array no_elements) = tt
    groups-IsCanonical null = tt
    groups-IsCanonical (boolean b) = tt
    groups-IsCanonical (integer n) = tt
    groups-IsCanonical (text s) = tt
    groups-IsCanonical (object entries) = tt

    pub current-IsCanonical :
        (raw : Json) → WhenOk IsCanonical (current_target int_of_text strip_upper is_mac12 raw)
    unfolding current_target
    current-IsCanonical (object entries) =
        let kind = field "kind" entries in
        let value = field "value" entries in
        let device : Result Target = device_target int_of_text strip_upper is_mac12 value in
        let third : Result Target = if is_text "device" kind then device else err value_error in
        let second : Result Target =
          if is_text "groups" kind then groups_target int_of_text value else third in
        WhenOk-if IsCanonical (is_text "broadcast" kind) (ok to_all) second tt (
          WhenOk-if IsCanonical (is_text "groups" kind) (groups_target int_of_text value) third
            (groups-IsCanonical value)
            (WhenOk-if IsCanonical (is_text "device" kind) device (err value_error)
              (device-IsCanonical value) tt))
    current-IsCanonical null = tt
    current-IsCanonical (boolean b) = tt
    current-IsCanonical (integer n) = tt
    current-IsCanonical (text s) = tt
    current-IsCanonical (array entries) = tt

    in_range : (v : ℤ) → IsGroupId v → is_within (pos 0) group_id_max v ≡ true
    in_range v h = ground arith

    -- Ids in ascending order pass the loop as they are.
    ids_stable :
        (ids seen : List ℤ)
        → All IsGroupId ids
        → IsAscending ids
        → AreFresh seen ids
        → group_ids int_of_text seen (ids_json ids) ≡ ok ids
    unfolding group_ids validate_int
    ids_stable [] seen r a f = refl
    ids_stable (v ∷ vs) seen r a f =
        rw (in_range v r.0, f.0, ids_stable vs (v ∷ seen) r.1 a.1 (still_fresh vs a.0 f.1)) refl
      where
        still_fresh :
            (ws : List ℤ)
            → All (λ y. leb_ℤ y v ≡ false) ws
            → AreFresh seen ws
            → AreFresh (v ∷ seen) ws
        still_fresh [] h k = tt
        still_fresh (w ∷ ws) h k = (rw (above-eqb w v h.0, k.0) refl, still_fresh ws h.1 k.1)

    canonical-stable :
        (t : Target)
        → IsCanonical t
        → canonical_target int_of_text strip_upper is_mac12 (target_json t) ≡ ok t
    unfolding canonical_target migrate_legacy_target current_target groups_target device_target
    canonical-stable to_all c = refl
    canonical-stable (to_groups []) c = absurd c
    canonical-stable (to_groups (v ∷ vs)) c =
        rw
          (
            ids_stable (v ∷ vs) [] c.0 c.1 (fresh_start (v ∷ vs)),
            sort_ascending int_of_text (v ∷ vs) c.1,
          )
          refl
      where
        fresh_start : (ws : List ℤ) → AreFresh [] ws
        fresh_start [] = tt
        fresh_start (w ∷ ws) = (refl, fresh_start ws)
    canonical-stable (to_addr v) c = rw (sym c.0, c.1) refl
    canonical-stable other_kind_target c = absurd c

    -- If stripping and upper-casing a text twice is the same as doing it once: a target that the
    -- validation returns has, if it names groups, at least one, all in range and in ascending order
    -- without repetition, and, if it names a device, an address of twelve digits; and its stored form is
    -- accepted again and gives the same target.
    pub canonical_target-IsCanonical :
        (raw : Json) (t : Target)
        → canonical_target int_of_text strip_upper is_mac12 raw ≡ ok t
        → IsCanonical t × (canonical_target int_of_text strip_upper is_mac12 (target_json t) ≡ ok t)
    unfolding canonical_target
    canonical_target-IsCanonical raw t e =
        let c =
          WhenOk-value IsCanonical (canonical_target int_of_text strip_upper is_mac12 raw) t e
            (current-IsCanonical (migrate_legacy_target int_of_text raw)) in
        (c, canonical-stable t c)
