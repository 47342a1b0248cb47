-- ===== src/RfPolicy/Picker.antt =====
-- A channel that the picker shows as free brings no conflict with it when the network is saved.
use race_link_host.Prelude.{
  &&-parts, not-parts, ℕ, ◌≡◌, refl, sym, ap, ◌∙◌, ◌⊎◌, inl, inr, true, false, not, ◌&&◌, Option,
  none, some, List, [], ◌∷◌, ◌++◌, arith, str_eq, eq_iff, String, leb, ◌==◌, ==_iff, Bool-cases,
  Option-cases, ℤ, distance, mask,
}
use race_link_host.RfPolicy.Clashes.{cons_some-nil}
use race_link_host.RfPolicy.{
  Network, network_rf_config, same_network, conflict_between, conflicts_of, conflicts_if_usable,
  validate_networks_separation, Occupant, occupant, occupants_from, occupants_of,
}

distance_comm : (a b : ℤ) → distance a b ≡ distance b a
distance_comm a b = omega arith

same_network_self : (a b : String) → str_eq a "" ≡ false → b ≡ a → same_network a b ≡ true
same_network_self a b h e = let self : str_eq a a ≡ true = (eq_iff a a).1 refl in rw (e, h, self)

-- The network that is saved is the one the picker was told to skip, where it was told one.
module _ (min_hz : ℕ) (skip : String) (freq sync : ℤ) (new : Network)
    (mine : (skip ≡ "") ⊎ (new.id ≡ skip)) where
  skip_same :
      (b : Network)
      → (not (str_eq skip "") && str_eq b.id skip) ≡ true
      → same_network new.id b.id ≡ true
  skip_same b h =
      let parts : (not (str_eq skip "") ≡ true) × (str_eq b.id skip ≡ true) =
        &&-parts (not (str_eq skip "")) (str_eq b.id skip) h in
      let some_skip : str_eq skip "" ≡ false = not-parts (str_eq skip "") parts.0 in
      let same : b.id ≡ skip = (eq_iff b.id skip).0 parts.1 in
      elim mine [
        | inl no_skip ↦ absurd (cc (sym some_skip ∙ (eq_iff skip "").1 no_skip))
        | inr own ↦ same_network_self new.id b.id (rw own some_skip) (rw (same, own))
      ]

  some-occupant :
      (b : Network) (f s : ℤ)
      → (not (str_eq skip "") && str_eq b.id skip) ≡ false
      → (mask 256 sync == mask 256 s) ≡ true
      → leb min_hz (distance freq f) ≡ false
      → ¬ (occupant min_hz skip (freq, sync) b (some (f, s)) ≡ none)
  unfolding occupant
  some-occupant b f s kept same_sync near h =
      let sync' : (mask 256 s == mask 256 sync) ≡ true =
        (==_iff _ _).1 (sym ((==_iff _ _).0 same_sync)) in
      let near' : leb min_hz (distance f freq) ≡ false = rw (distance_comm f freq) near in
      cc (rw (kept, sync', near') at h)

  occupant-none :
      (b : Network) (o : Option (ℤ × ℤ))
      → occupant min_hz skip (freq, sync) b o ≡ none
      → conflict_between min_hz new (freq, sync) b o ≡ none
  unfolding occupant conflict_between
  occupant-none b none h = refl
  occupant-none b (some (f, s)) h = elim (Bool-cases (same_network new.id b.id)) [
    | inl same ↦ rw same
    | inr different ↦ elim (Bool-cases (mask 256 sync == mask 256 s)) [
      | inr other_sync ↦ rw (different, other_sync)
      | inl same_sync ↦ elim (Bool-cases (leb min_hz (distance freq f))) [
        | inl far ↦ rw (different, same_sync, far)
        | inr near ↦ elim (Bool-cases (not (str_eq skip "") && str_eq b.id skip)) [
          | inl skipped ↦ absurd (cc (sym different ∙ skip_same b skipped))
          | inr kept ↦ absurd (some-occupant b f s kept same_sync near h)
        ]
      ]
    ]
  ]

  no_conflicts :
      (nets : List Network)
      → occupants_from min_hz skip (freq, sync) nets ≡ []
      → conflicts_of min_hz new (freq, sync) nets ≡ []
  unfolding occupants_from conflicts_of
  no_conflicts [] h = refl
  no_conflicts (b ∷ nets) h =
      let parts =
        cons_some-nil (occupant min_hz skip (freq, sync) b (network_rf_config b))
          (occupants_from min_hz skip (freq, sync) nets) h in
      rw (occupant-none b (network_rf_config b) parts.0) (no_conflicts nets parts.1)

  no_new_conflict :
      (nets : List Network) (o : Option (ℤ × ℤ))
      → o ≡ some (freq, sync)
      → occupants_from min_hz skip (freq, sync) nets ≡ []
      → conflicts_if_usable min_hz new o nets ≡ []
  no_new_conflict nets none e h = refl
  no_new_conflict nets (some cfg) e h =
      let same : cfg ≡ (freq, sync) = cc e in rw same (no_conflicts nets h)

occupants-nil :
    (min_hz : ℕ) (skip : String) (nets : List Network) (o : Option (ℤ × ℤ)) (cfg : ℤ × ℤ)
    → o ≡ some cfg
    → elim o as (λ o. List Occupant) [ none ↦ [] | some cfg ↦ occupants_from min_hz skip cfg nets ]
      ≡ []
    → occupants_from min_hz skip cfg nets ≡ []
occupants-nil min_hz skip nets none cfg e h = absurd (cc e)
occupants-nil min_hz skip nets (some other) cfg e h = let same : cfg ≡ other = cc e in rw same h

-- The picker shows a configuration as free, either without a network to skip or skipping the network
-- that is saved; then saving that network on the configuration gives exactly the conflicts that the
-- other networks have among themselves.
pub free_channel_adds_no_conflict :
    (min_hz : ℕ) (skip : String) (new : Network) (nets : List Network)
    → (skip ≡ "") ⊎ (new.id ≡ skip)
    → occupants_of min_hz skip new.rf_config nets ≡ []
    → validate_networks_separation min_hz (new ∷ nets) ≡ validate_networks_separation min_hz nets
unfolding occupants_of validate_networks_separation
free_channel_adds_no_conflict min_hz skip new nets mine h =
    elim (Option-cases (network_rf_config new)) [
      | inl e ↦ rw e refl
      | inr (cfg, e) ↦
          ap (λ cs. cs ++ validate_networks_separation min_hz nets)
            (no_new_conflict min_hz skip cfg.0 cfg.1 new mine nets (network_rf_config new) e
              (occupants-nil min_hz skip nets (network_rf_config new) cfg e h))
    ]
