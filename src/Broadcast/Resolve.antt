-- ===== src/Broadcast/Resolve.antt =====
-- A broadcast reaches the transport of every network it addresses, and no transport twice.
use race_link_host.Prelude.{
  ℕ, ◌≡◌, refl, sym, ap, ◌∙◌, ◌↔◌, ◌⊎◌, inl, inr, true, Option, none, some, List, [], ◌∷◌, map,
  String, ◌==◌, ==_iff, Bool-cases, any_of, All, Within,
}
use race_link_host.Broadcast.{BroadcastTarget, Transport, resolve_from, resolve_transports}
use race_link_host.Broadcast.Targets.{AreDistinct}

-- The identities of transports.
abbrev pub idents : List Transport → List ℕ
idents ts = map (λ t. t.ident) ts

ident_seen : (n : ℕ) (seen : List ℕ) → (any_of (λ i. n == i) seen ≡ true) ↔ Within n seen
ident_seen n [] = (λ h. absurd (cc h), λ w. absurd w)
ident_seen n (x ∷ seen) = elim (Bool-cases (n == x)) [
  | inl same ↦ (λ h. inl ((==_iff n x).0 same), λ w. rw same refl)
  | inr other ↦ (
    λ h. inr ((ident_seen n seen).0 (rw other at h)),
    λ w. elim w [
      | inl e ↦ absurd (cc (sym other ∙ (==_iff n x).1 e))
      | inr w ↦ rw other ((ident_seen n seen).1 w)
    ],
  )
]

module _ (transport_for_network : String → Option Transport) where
  -- The three cases of the loop's body.
  abbrev Case : List ℕ → String → List String → Option Transport → Type 0
  Case seen nid nids o =
      let whole = resolve_from transport_for_network seen (nid ∷ nids) in
      ((o ≡ none) × (whole ≡ resolve_from transport_for_network seen nids))
      ⊎ ((t : Transport) × ((o ≡ some t)
            × ((Within t.ident seen × (whole ≡ resolve_from transport_for_network seen nids))
                ⊎ ((¬ Within t.ident seen)
                    × (whole ≡ t ∷ resolve_from transport_for_network (t.ident ∷ seen) nids)))))

  Case-of :
      (seen : List ℕ) (nid : String) (nids : List String) (o : Option Transport)
      → transport_for_network nid ≡ o
      → Case seen nid nids o
  unfolding resolve_from
  Case-of seen nid nids none e = inl (refl, rw (resolve_from, e) refl)
  Case-of seen nid nids (some t) e = elim (Bool-cases (any_of (λ i. t.ident == i) seen)) [
    | inl known ↦
        inr (t, (refl, inl ((ident_seen t.ident seen).0 known, rw (resolve_from, e, known) refl)))
    | inr new ↦ inr (
      t,
      (
        refl,
        inr ((λ w. cc (sym new ∙ (ident_seen t.ident seen).1 w)), rw (resolve_from, e, new) refl),
      ),
    )
  ]

  resolved-source :
      (nids : List String) (seen : List ℕ) (x : Transport)
      → Within x (resolve_from transport_for_network seen nids)
      → (¬ Within x.ident seen)
        × ((nid : String) × (Within nid nids × (transport_for_network nid ≡ some x)))
  unfolding resolve_from
  resolved-source [] seen x w = absurd w
  resolved-source (nid ∷ nids) seen x w =
      elim (Case-of seen nid nids (transport_for_network nid) refl) [
        | inl (e, eq) ↦ later seen (resolved-source nids seen x (rw eq at w))
        | inr (t, (e, inl (known, eq))) ↦ later seen (resolved-source nids seen x (rw eq at w))
        | inr (t, (e, inr (new, eq))) ↦ elim (rw eq at w) [
          | inl same ↦ (rw same new, (nid, (inl refl, e ∙ ap some (sym same))))
          | inr w ↦
              let h = resolved-source nids (t.ident ∷ seen) x w in
              later seen ((λ s. h.0 (inr s)), h.1)
        ]
      ]
    where
      later :
          (seen : List ℕ)
          → (¬ Within x.ident seen)
            × ((nid : String) × (Within nid nids × (transport_for_network nid ≡ some x)))
          → (¬ Within x.ident seen)
            × ((m : String) × (Within m (nid ∷ nids) × (transport_for_network m ≡ some x)))
      later seen h = (h.0, (h.1.0, (inr h.1.1.0, h.1.1.1)))

  same_transport : (o : Option Transport) (s t : Transport) → o ≡ some s → o ≡ some t → s ≡ t
  same_transport o s t e f = cc (sym e ∙ f)

  reached :
      (nids : List String) (seen : List ℕ) (nid : String) (t : Transport)
      → Within nid nids
      → transport_for_network nid ≡ some t
      → Within t.ident seen ⊎ Within t.ident (idents (resolve_from transport_for_network seen nids))
  reached [] seen nid t w e = absurd w
  reached (n ∷ nids) seen nid t w e = elim (Case-of seen n nids (transport_for_network n) refl) [
    | inl (off, eq) ↦ rw eq (elim w [
      | inl same ↦ absurd (cc (sym off ∙ ap transport_for_network (sym same) ∙ e))
      | inr w ↦ reached nids seen nid t w e
    ])
    | inr (s, (on, inl (known, eq))) ↦ rw eq (elim w [
      | inl same ↦ inl (
          rw
            (same_transport (transport_for_network n) s t on
              (ap transport_for_network (sym same) ∙ e))
            at known)
      | inr w ↦ reached nids seen nid t w e
    ])
    | inr (s, (on, inr (new, eq))) ↦ rw eq (elim w [
      | inl same ↦ inr (
          inl (
            ap (λ x. x.ident)
              (sym (
                same_transport (transport_for_network n) s t on
                  (ap transport_for_network (sym same) ∙ e)))))
      | inr w ↦ elim (reached nids (s.ident ∷ seen) nid t w e) [
        | inl (inl first) ↦ inr (inl first)
        | inl (inr before) ↦ inl before
        | inr after ↦ inr (inr after)
      ]
    ])
  ]

  from_ident :
      (n : ℕ) (ts : List Transport)
      → Within n (idents ts)
      → (t : Transport) × ((n ≡ t.ident) × Within t ts)
  from_ident n [] w = absurd w
  from_ident n (t ∷ ts) (inl e) = (t, (e, inl refl))
  from_ident n (t ∷ ts) (inr w) = let h = from_ident n ts w in (h.0, (h.1.0, inr h.1.1))

  once :
      (nids : List String) (seen : List ℕ)
      → AreDistinct (idents (resolve_from transport_for_network seen nids))
  unfolding resolve_from
  once [] seen = tt
  once (nid ∷ nids) seen = elim (Case-of seen nid nids (transport_for_network nid) refl) [
    | inl (off, eq) ↦ rw eq (once nids seen)
    | inr (t, (on, inl (known, eq))) ↦ rw eq (once nids seen)
    | inr (t, (on, inr (new, eq))) ↦ rw eq (
      (λ w.
          let h = from_ident t.ident (resolve_from transport_for_network (t.ident ∷ seen) nids) w in
          (resolved-source nids (t.ident ∷ seen) h.0 h.1.1).0 (inl (sym h.1.0))),
      once nids (t.ident ∷ seen),
    )
  ]

All-of :
    {P : Transport → Type 0} (ts : List Transport)
    → ((t : Transport) → Within t ts → P t)
    → All P ts
All-of [] h = tt
All-of (t ∷ ts) h = (h t (inl refl), All-of ts (λ x w. h x (inr w)))

-- A broadcast is sent on a list of transports without repetition, and each is the controller's
-- transport for a network of the target.
pub resolve_transports-AreDistinct :
    (transport_for_network : String → Option Transport) (target : BroadcastTarget)
    → AreDistinct (idents (resolve_transports transport_for_network target))
      × All
          (λ x.
            (nid : String) × (Within nid target.network_ids × (transport_for_network nid ≡ some x)))
          (resolve_transports transport_for_network target)
unfolding resolve_transports
resolve_transports-AreDistinct tfn target = (
  once tfn target.network_ids [],
  All-of (resolve_from tfn [] target.network_ids)
      (λ x w. (resolved-source tfn target.network_ids [] x w).1),
)

-- Every network of the target that has a transport is reached: that transport is in the list.
pub resolve_transports-reaches :
    (transport_for_network : String → Option Transport) (target : BroadcastTarget) (nid : String)
    (t : Transport)
    → Within nid target.network_ids
    → transport_for_network nid ≡ some t
    → Within t.ident (idents (resolve_transports transport_for_network target))
unfolding resolve_transports
resolve_transports-reaches tfn target nid t w e =
    elim (reached tfn target.network_ids [] nid t w e) [
      | inl before ↦ absurd before
      | inr after ↦ after
    ]
