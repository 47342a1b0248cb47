-- ===== src/Scene/Renumber/Positions.antt =====
-- After the deletion of a group its number is free, and each id still names the group that it named.
use race_link_host.Prelude.{
  ℕ, zero, suc, ◌+◌, ◌-◌, ◌≤◌, ◌<◌, ◌≡◌, refl, ap, ◌∙◌, ◌≢◌, Bool, true, false, Option, none, some,
  List, [], ◌∷◌, arith, ltb, leb, if◌then◌else◌, pos, negsuc, ◌+ℤ◌, leb_ℤ, eqb_ℤ, if-true, if-false,
}
use race_link_host.Scene.Renumber.{shift_group_value}

shift_below : (v d : ℕ) → v < d → shift_group_value (pos v) (pos d) ≡ pos v
unfolding shift_group_value
shift_below v d h = ground arith

predecessor : (n : ℕ) → pos (suc n) +ℤ negsuc 0 ≡ pos n
unfolding ◌+ℤ◌
predecessor n =
    if-true (leb 1 (suc n + 0)) (pos (suc n + 0 - 1)) (negsuc (1 - (suc n + 0) - 1)) (ground arith)
    ∙ ap pos (omega arith)

shift_above : (n d : ℕ) → d ≤ n → shift_group_value (pos (suc n)) (pos d) ≡ pos n
unfolding shift_group_value
shift_above n d h =
    if-false (eqb_ℤ (pos (suc n)) (pos d)) (pos 0)
      (if leb_ℤ (pos (suc n)) (pos d) then pos (suc n) else pos (suc n) +ℤ negsuc 0) (ground arith)
    ∙ if-false (leb_ℤ (pos (suc n)) (pos d)) (pos (suc n)) (pos (suc n) +ℤ negsuc 0) (ground arith)
    ∙ predecessor n

module _ {ℓ} {A : Type ℓ} where
  -- The group with a number.
  abbrev pub group_at : ℕ → List A → Option A
  group_at n [] = none
  group_at zero (g ∷ groups) = some g
  group_at (suc n) (g ∷ groups) = group_at n groups

  -- `del groups[n]`
  abbrev pub remove_at : ℕ → List A → List A
  remove_at n [] = []
  remove_at zero (g ∷ groups) = groups
  remove_at (suc n) (g ∷ groups) = g ∷ remove_at n groups

  below : (n d : ℕ) (groups : List A) → n < d → group_at n (remove_at d groups) ≡ group_at n groups
  below n zero groups h = absurd (omega arith)
  below n (suc d) [] h = refl
  below zero (suc d) (g ∷ groups) h = refl
  below (suc n) (suc d) (g ∷ groups) h = below n d groups (omega arith)

  above :
      (n d : ℕ) (groups : List A)
      → d ≤ n
      → group_at n (remove_at d groups) ≡ group_at (suc n) groups
  above n d [] h = refl
  above n zero (g ∷ groups) h = refl
  above zero (suc d) (g ∷ groups) h = absurd (omega arith)
  above (suc n) (suc d) (g ∷ groups) h = above n d groups (omega arith)

  -- If a group is removed, the new number that shift_group_value computes for any other group is the
  -- number of the same group in the shorter list.
  pub shift_group_value-same :
      (groups : List A) (deleted_gid v : ℕ)
      → v ≢ deleted_gid
      → (w : ℕ) × (shift_group_value (pos v) (pos deleted_gid) ≡ pos w)
        × (group_at w (remove_at deleted_gid groups) ≡ group_at v groups)
  shift_group_value-same groups d v h = by_order v (ltb v d) refl h
    where
      by_order :
          (v : ℕ) (b : Bool)
          → ltb v d ≡ b
          → v ≢ d
          → (w : ℕ) × (shift_group_value (pos v) (pos d) ≡ pos w)
            × (group_at w (remove_at d groups) ≡ group_at v groups)
      by_order v true e h = (v, shift_below v d (ground arith), below v d groups (ground arith))
      by_order zero false e h = absurd (h (ground arith))
      by_order (suc n) false e h =
          (n, shift_above n d (ground arith), above n d groups (ground arith))
