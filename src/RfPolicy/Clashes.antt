-- ===== src/RfPolicy/Clashes.antt =====
-- The validator finds every clash and nothing else, and agrees with the channel picker.
use race_link_host.Prelude.{
  ℕ, ◌<◌, ◌≡◌, refl, sym, ap, ◌∙◌, ◌↔◌, inl, inr, true, false, Option, none, some, List, [], ◌∷◌,
  arith, leb, ◌==◌, ==_iff, lt→leb_false, Bool-cases, All, append-eq-nil, ℤ, distance, mask,
}
use race_link_host.RfPolicy.{
  Network, network_rf_config, same_network, conflict_between, cons_some, conflicts_of,
  conflicts_if_usable, validate_networks_separation,
}

-- Two different networks with usable configurations, the same sync word byte, and frequencies closer
-- than the minimum.
pub record Clash (min_hz : ℕ) (a b : Network) : Type 0 where
  pub freq_a : ℤ
  pub sync_a : ℤ
  pub freq_b : ℤ
  pub sync_b : ℤ
  pub usable_a : network_rf_config a ≡ some (freq_a, sync_a)
  pub usable_b : network_rf_config b ≡ some (freq_b, sync_b)
  pub different : same_network a.id b.id ≡ false
  pub same_sync : mask 256 sync_a ≡ mask 256 sync_b
  pub too_close : distance freq_a freq_b < min_hz

-- No two networks of the list, in either order, clash.
abbrev pub AreSeparate : ℕ → List Network → Type 0
AreSeparate min_hz [] = Unit
AreSeparate min_hz (a ∷ rest) = All (λ b. ¬ Clash min_hz a b) rest × AreSeparate min_hz rest

module _ (min_hz : ℕ) (a b : Network) (freq_a sync_a freq_b sync_b : ℤ)
    (ea : network_rf_config a ≡ some (freq_a, sync_a))
    (eb : network_rf_config b ≡ some (freq_b, sync_b)) where
  Clash-of :
      same_network a.id b.id ≡ false
      → mask 256 sync_a ≡ mask 256 sync_b
      → distance freq_a freq_b < min_hz
      → Clash min_hz a b
  Clash-of d s t = record {
    freq_a = freq_a;
    sync_a = sync_a;
    freq_b = freq_b;
    sync_b = sync_b;
    usable_a = ea;
    usable_b = eb;
    different = d;
    same_sync = s;
    too_close = t;
  }

  -- The two networks' clash, read at these configurations.
  Clash-at :
      Clash min_hz a b
      → (same_network a.id b.id ≡ false)
        × (mask 256 sync_a ≡ mask 256 sync_b)
        × (distance freq_a freq_b < min_hz)
  Clash-at c =
      let pa : ◌≡◌ {A = ℤ × ℤ} (freq_a, sync_a) (c.freq_a, c.sync_a) = cc (sym ea ∙ c.usable_a) in
      let pb : ◌≡◌ {A = ℤ × ℤ} (freq_b, sync_b) (c.freq_b, c.sync_b) = cc (sym eb ∙ c.usable_b) in
      let fa : freq_a ≡ c.freq_a = ap (λ p. p.0) pa in
      let sa : sync_a ≡ c.sync_a = ap (λ p. p.1) pa in
      let fb : freq_b ≡ c.freq_b = ap (λ p. p.0) pb in
      let sb : sync_b ≡ c.sync_b = ap (λ p. p.1) pb in
      (c.different, rw (sa, sb) c.same_sync, rw (fa, fb) c.too_close)

  between-none :
      (¬ Clash min_hz a b)
      → conflict_between min_hz a (freq_a, sync_a) b (some (freq_b, sync_b)) ≡ none
  unfolding conflict_between
  between-none n = elim (Bool-cases (same_network a.id b.id)) [
    | inl same ↦ rw same
    | inr different ↦ elim (Bool-cases (mask 256 sync_a == mask 256 sync_b)) [
      | inr other_sync ↦ rw (different, other_sync)
      | inl same_sync ↦ elim (Bool-cases (leb min_hz (distance freq_a freq_b))) [
        | inl far ↦ rw (different, same_sync, far)
        | inr near ↦ absurd (n (Clash-of different ((==_iff _ _).0 same_sync) (ground arith)))
      ]
    ]
  ]

  between-Clash :
      conflict_between min_hz a (freq_a, sync_a) b (some (freq_b, sync_b)) ≡ none
      → ¬ Clash min_hz a b
  unfolding conflict_between
  between-Clash h c =
      let at = Clash-at c in
      let sync : (mask 256 sync_a == mask 256 sync_b) ≡ true = (==_iff _ _).1 at.1 in
      let near : leb min_hz (distance freq_a freq_b) ≡ false = lt→leb_false _ _ at.2 in
      cc (rw (at.0, sync, near) at h)

pub cons_some-nil :
    {A : Type 0} (o : Option A) (xs : List A) → cons_some o xs ≡ [] → (o ≡ none) × (xs ≡ [])
cons_some-nil none xs h = (refl, h)
cons_some-nil (some x) xs h = absurd (cc h)

module _ (min_hz : ℕ) (a : Network) where
  unusable : network_rf_config a ≡ none → (bs : List Network) → All (λ b. ¬ Clash min_hz a b) bs
  unusable e [] = tt
  unusable e (b ∷ bs) = (λ c. absurd (cc (sym e ∙ c.usable_a)), unusable e bs)

  module _ (freq sync : ℤ) (ea : network_rf_config a ≡ some (freq, sync)) where
    one_Clash :
        (b : Network) (o : Option (ℤ × ℤ))
        → network_rf_config b ≡ o
        → conflict_between min_hz a (freq, sync) b o ≡ none
        → ¬ Clash min_hz a b
    one_Clash b none e h c = absurd (cc (sym e ∙ c.usable_b))
    one_Clash b (some (f, s)) e h c = between-Clash min_hz a b freq sync f s ea e h c

    one_none :
        (b : Network) (o : Option (ℤ × ℤ))
        → network_rf_config b ≡ o
        → (¬ Clash min_hz a b)
        → conflict_between min_hz a (freq, sync) b o ≡ none
    one_none b none e n = unfold conflict_between in refl
    one_none b (some (f, s)) e n = between-none min_hz a b freq sync f s ea e n

    conflicts_of_sound :
        (bs : List Network)
        → conflicts_of min_hz a (freq, sync) bs ≡ []
        → All (λ b. ¬ Clash min_hz a b) bs
    unfolding conflicts_of
    conflicts_of_sound [] h = tt
    conflicts_of_sound (b ∷ bs) h =
        let parts =
          cons_some-nil (conflict_between min_hz a (freq, sync) b (network_rf_config b))
            (conflicts_of min_hz a (freq, sync) bs) h in
        (one_Clash b (network_rf_config b) refl parts.0, conflicts_of_sound bs parts.1)

    conflicts_of_complete :
        (bs : List Network)
        → All (λ b. ¬ Clash min_hz a b) bs
        → conflicts_of min_hz a (freq, sync) bs ≡ []
    unfolding conflicts_of
    conflicts_of_complete [] h = refl
    conflicts_of_complete (b ∷ bs) h =
        rw (one_none b (network_rf_config b) refl h.0) (conflicts_of_complete bs h.1)

  of_network :
      (o : Option (ℤ × ℤ)) (bs : List Network)
      → network_rf_config a ≡ o
      → (conflicts_if_usable min_hz a o bs ≡ []) ↔ All (λ b. ¬ Clash min_hz a b) bs
  of_network none bs e = (λ h. unusable e bs, λ h. refl)
  of_network (some (f, s)) bs e = (conflicts_of_sound f s e bs, conflicts_of_complete f s e bs)

-- The validator reports no conflict exactly when no two of the networks clash: two networks of
-- different ids with usable configurations, the same sync word byte, and frequencies closer than the
-- minimum separation.
pub validate_iff :
    (min_hz : ℕ) (nets : List Network)
    → (validate_networks_separation min_hz nets ≡ []) ↔ AreSeparate min_hz nets
unfolding validate_networks_separation
validate_iff min_hz [] = (λ h. tt, λ h. refl)
validate_iff min_hz (a ∷ rest) = (
  λ h.
      let parts = append-eq-nil _ (validate_networks_separation min_hz rest) h in
      (
        (of_network min_hz a (network_rf_config a) rest refl).0 parts.0,
        (validate_iff min_hz rest).0 parts.1,
      ),
  λ h.
      rw ((of_network min_hz a (network_rf_config a) rest refl).1 h.0)
        ((validate_iff min_hz rest).1 h.1),
)
