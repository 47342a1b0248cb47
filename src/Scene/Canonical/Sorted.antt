-- ===== src/Scene/Canonical/Sorted.antt =====
-- The ids of a groups target: an accepted list is sorted, in range and without repetition.
use race_link_host.Prelude.{
  ◌≡◌, refl, ap, ◌∙◌, Bool, true, false, not, Option, List, [], ◌∷◌, arith, String, any_of, All, ℤ,
  pos, leb_ℤ, eqb_ℤ, value_error, require, ||-parts, if-both, if-cases, if-true, WhenOk,
  WhenOk-bind,
}
use race_link_host.Dispatch.Optimizer.Ops.{IsGroupId}
use race_link_host.Scene.Canonical.{
  Elements, no_elements, element, group_id_max, validate_int, group_ids, insert, sort,
}
use race_link_host.Scene.Canonical.Block.{Bounds, validate_int-Bounds}

-- Each id is below the ones that follow it.
abbrev pub IsAscending : List ℤ → Type 0
IsAscending [] = Unit
IsAscending (x ∷ xs) = All (λ y. leb_ℤ y x ≡ false) xs × IsAscending xs

abbrev pub listed : ℤ → List ℤ → Bool
listed v xs = any_of (eqb_ℤ v) xs

abbrev NoRepeat : List ℤ → Type 0
NoRepeat [] = Unit
NoRepeat (x ∷ xs) = (listed x xs ≡ false) × NoRepeat xs

-- None of them is listed.
abbrev pub AreFresh : List ℤ → List ℤ → Type 0
AreFresh seen ids = All (λ v. listed v seen ≡ false) ids

above_distinct : (v x : ℤ) → leb_ℤ v x ≡ true → eqb_ℤ v x ≡ false → leb_ℤ x v ≡ false
above_distinct v x h k = ground arith

above_more : (y x v : ℤ) → leb_ℤ y x ≡ false → leb_ℤ v x ≡ true → leb_ℤ y v ≡ false
above_more y x v h k = ground arith

above-leb : (y x : ℤ) → leb_ℤ y x ≡ false → leb_ℤ x y ≡ true
above-leb y x h = ground arith

pub above-eqb : (y x : ℤ) → leb_ℤ y x ≡ false → eqb_ℤ y x ≡ false
above-eqb y x h = ground arith

eqb_swap : (x y : ℤ) → eqb_ℤ x y ≡ eqb_ℤ y x
eqb_swap x y = ground arith

All-mono : (P Q : ℤ → Type 0) → ((y : ℤ) → P y → Q y) → (xs : List ℤ) → All P xs → All Q xs
All-mono P Q f [] h = tt
All-mono P Q f (x ∷ xs) h = (f x h.0, All-mono P Q f xs h.1)

module _ (int_of_text : String → Option ℤ) where
  pub insert-All : (P : ℤ → Type 0) (v : ℤ) (xs : List ℤ) → P v → All P xs → All P (insert v xs)
  unfolding insert
  insert-All P v [] p h = (p, tt)
  insert-All P v (x ∷ xs) p h =
      if-both (All P) (leb_ℤ v x) (v ∷ x ∷ xs) (x ∷ insert v xs) (p, h)
        (h.0, insert-All P v xs p h.1)

  pub sort-All : (P : ℤ → Type 0) (xs : List ℤ) → All P xs → All P (sort xs)
  unfolding sort
  sort-All P [] h = tt
  sort-All P (x ∷ xs) h = insert-All P x (sort xs) h.0 (sort-All P xs h.1)

  insert-IsAscending :
      (v : ℤ) (xs : List ℤ) → IsAscending xs → listed v xs ≡ false → IsAscending (insert v xs)
  unfolding insert
  insert-IsAscending v [] a n = (tt, tt)
  insert-IsAscending v (x ∷ xs) a n =
      let apart = ||-parts (eqb_ℤ v x) (listed v xs) n in
      if-cases IsAscending (leb_ℤ v x) (v ∷ x ∷ xs) (x ∷ insert v xs)
        (λ below. (
          (above_distinct v x below apart.0, All-mono _ _ (λ y h. above_more y x v h below) xs a.0),
          a,
        ))
        (λ above.
          (insert-All (λ y. leb_ℤ y x ≡ false) v xs above a.0, insert-IsAscending v xs a.1 apart.1))

  -- What is not listed before is not listed after sorting.
  sort-fresh : (v : ℤ) (xs : List ℤ) → listed v xs ≡ false → listed v (sort xs) ≡ false
  sort-fresh v xs n = none_listed (sort xs) (sort-All (λ y. eqb_ℤ v y ≡ false) xs (all_apart xs n))
    where
      all_apart : (ys : List ℤ) → listed v ys ≡ false → All (λ y. eqb_ℤ v y ≡ false) ys
      all_apart [] h = tt
      all_apart (y ∷ ys) h = let p = ||-parts (eqb_ℤ v y) (listed v ys) h in (p.0, all_apart ys p.1)

      none_listed : (ys : List ℤ) → All (λ y. eqb_ℤ v y ≡ false) ys → listed v ys ≡ false
      none_listed [] h = refl
      none_listed (y ∷ ys) h = rw (h.0, none_listed ys h.1) refl

  pub sort-IsAscending : (xs : List ℤ) → NoRepeat xs → IsAscending (sort xs)
  unfolding sort
  sort-IsAscending [] h = tt
  sort-IsAscending (x ∷ xs) h =
      insert-IsAscending x (sort xs) (sort-IsAscending xs h.1) (sort-fresh x xs h.0)

  insert_first : (x : ℤ) (xs : List ℤ) → All (λ y. leb_ℤ y x ≡ false) xs → insert x xs ≡ x ∷ xs
  unfolding insert
  insert_first x [] h = refl
  insert_first x (y ∷ ys) h = if-true (leb_ℤ x y) _ _ (above-leb y x h.0)

  pub sort_ascending : (xs : List ℤ) → IsAscending xs → sort xs ≡ xs
  unfolding sort
  sort_ascending [] a = refl
  sort_ascending (x ∷ xs) a = ap (insert x) (sort_ascending xs a.1) ∙ insert_first x xs a.0

  -- What the loop over the ids returns.
  abbrev pub Accepted : List ℤ → List ℤ → Type 0
  Accepted seen ids = All IsGroupId ids × NoRepeat ids × AreFresh seen ids

  fresh_head :
      (v : ℤ) (seen ids : List ℤ)
      → AreFresh (v ∷ seen) ids
      → (listed v ids ≡ false) × AreFresh seen ids
  fresh_head v seen [] h = (refl, tt)
  fresh_head v seen (w ∷ ids) h =
      let p = ||-parts (eqb_ℤ w v) (listed w seen) h.0 in
      let rest = fresh_head v seen ids h.1 in (rw (eqb_swap v w, p.0, rest.0) refl, (p.1, rest.1))

  required : (b : Bool) → WhenOk (λ u. b ≡ false) (require (not b) value_error)
  required true = tt
  required false = refl

  pub group_ids-Accepted :
      (raw : Elements) (seen : List ℤ) → WhenOk (Accepted seen) (group_ids int_of_text seen raw)
  unfolding group_ids
  group_ids-Accepted no_elements seen = (tt, tt, tt)
  group_ids-Accepted (element j rest) seen =
      WhenOk-bind (Bounds int_of_text (pos 0) group_id_max) (Accepted seen)
        (validate_int int_of_text (pos 0) group_id_max j) _
        (validate_int-Bounds int_of_text (pos 0) group_id_max j)
        (λ v b.
          WhenOk-bind (λ u. listed v seen ≡ false) (Accepted seen)
            (require (not (listed v seen)) value_error) _ (required (listed v seen))
            (λ u fresh.
              WhenOk-bind (Accepted (v ∷ seen)) (Accepted seen)
                (group_ids int_of_text (v ∷ seen) rest) _ (group_ids-Accepted rest (v ∷ seen))
                (λ ids acc.
                  let head = fresh_head v seen ids acc.2 in
                  ((b, acc.0), (head.0, acc.1), (fresh, head.1)))))
