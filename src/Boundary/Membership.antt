-- ===== src/Boundary/Membership.antt =====
-- When a regroup is refused.
use race_link_host.Prelude.{
  ◌≡◌, refl, sym, ap, ◌∙◌, ◌↔◌, ◌⊎◌, inl, inr, true, Option, none, some, List, [], ◌∷◌, str_eq,
  eq_iff, String, Bool-cases, All, ℤ,
}
use race_link_host.Boundary.{
  Member, Group, bound_network, note, note_bound, networks_seen, is_unconfigured, conflict_of,
  validate_group_membership,
}

-- Every device that is bound to a network is bound to this one.
abbrev pub AllOn : String → List Member → Type 0
AllOn nid devs =
    All (λ d. (bound_network d.network_id ≡ none) ⊎ (bound_network d.network_id ≡ some nid)) devs

-- The bound devices share one network, the group's if the group is bound.
abbrev pub Fits : Option String → List Member → Type 0
Fits none devs = (nid : String) × AllOn nid devs
Fits (some nid) devs = AllOn nid devs

abbrev OneKey : String → List (String × List String) → Type 0
OneKey n seen = All (λ e. e.0 ≡ n) seen

abbrev HasKey : String → List (String × List String) → Type 0
HasKey n [] = ⊥
HasKey n (e ∷ seen) = (e.0 ≡ n) ⊎ HasKey n seen

abbrev DistinctKeys : List (String × List String) → Type 0
DistinctKeys [] = Unit
DistinctKeys (e ∷ seen) = (¬ HasKey e.0 seen) × DistinctKeys seen

note-OneKey :
    (n nid addr : String) (seen : List (String × List String))
    → OneKey n (note nid addr seen) ↔ (OneKey n seen × (nid ≡ n))
unfolding note
note-OneKey n nid addr [] = (λ h. (tt, h.0), λ h. (h.1, tt))
note-OneKey n nid addr ((k, addrs) ∷ seen) = elim (Bool-cases (str_eq k nid)) [
  | inl same ↦
      (λ h. let g = rw same at h in (g, sym ((eq_iff k nid).0 same) ∙ g.0), λ h. rw same h.0)
  | inr other ↦ (
    λ h. let g = rw other at h in let r = (note-OneKey n nid addr seen).0 g.1 in ((g.0, r.0), r.1),
    λ h. rw other (h.0.0, (note-OneKey n nid addr seen).1 (h.0.1, h.1)),
  )
]

note-HasKey :
    (n nid addr : String) (seen : List (String × List String))
    → HasKey n (note nid addr seen)
    → HasKey n seen ⊎ (nid ≡ n)
unfolding note
note-HasKey n nid addr [] (inl e) = inr e
note-HasKey n nid addr [] (inr h) = absurd h
note-HasKey n nid addr ((k, addrs) ∷ seen) h = elim (Bool-cases (str_eq k nid)) [
  | inl same ↦ inl (rw same at h)
  | inr other ↦ elim (rw other at h) [
    | inl e ↦ inl (inl e)
    | inr later ↦ elim (note-HasKey n nid addr seen later) [
      | inl old ↦ inl (inr old)
      | inr new ↦ inr new
    ]
  ]
]

note-DistinctKeys :
    (nid addr : String) (seen : List (String × List String))
    → DistinctKeys seen
    → DistinctKeys (note nid addr seen)
unfolding note
note-DistinctKeys nid addr [] h = (λ k. k, tt)
note-DistinctKeys nid addr ((k, addrs) ∷ seen) h = elim (Bool-cases (str_eq k nid)) [
  | inl same ↦ rw same h
  | inr other ↦ rw other (
    (λ w. elim (note-HasKey k nid addr seen w) [
      | inl old ↦ h.0 old
      | inr new ↦ cc (sym other ∙ (eq_iff k nid).1 (sym new))
    ]),
    note-DistinctKeys nid addr seen h.1,
  )
]

seen-DistinctKeys :
    (devs : List Member) (seen : List (String × List String))
    → DistinctKeys seen
    → DistinctKeys (networks_seen seen devs)
unfolding networks_seen
seen-DistinctKeys [] seen h = h
seen-DistinctKeys (d ∷ devs) seen h =
    seen-DistinctKeys devs (note_bound (bound_network d.network_id) d.addr seen)
      (noted (bound_network d.network_id))
  where
    noted : (o : Option String) → DistinctKeys (note_bound o d.addr seen)
    noted none = h
    noted (some nid) = note-DistinctKeys nid d.addr seen h

bound-OneKey :
    (n addr : String) (o : Option String) (seen : List (String × List String))
    → OneKey n (note_bound o addr seen) ↔ (OneKey n seen × ((o ≡ none) ⊎ (o ≡ some n)))
bound-OneKey n addr none seen = (λ h. (h, inl refl), λ h. h.0)
bound-OneKey n addr (some nid) seen = (
  (λ h. let r = (note-OneKey n nid addr seen).0 h in (r.0, inr (ap some r.1))),
  λ h. (note-OneKey n nid addr seen).1 (h.0, elim h.1 [ inl e ↦ absurd (cc e) | inr e ↦ cc e ]),
)

seen-OneKey :
    (n : String) (devs : List Member) (seen : List (String × List String))
    → OneKey n (networks_seen seen devs) ↔ (OneKey n seen × AllOn n devs)
unfolding networks_seen
seen-OneKey n [] seen = (λ h. (h, tt), λ h. h.0)
seen-OneKey n (d ∷ devs) seen =
    let step = bound-OneKey n d.addr (bound_network d.network_id) seen in
    let rest = seen-OneKey n devs (note_bound (bound_network d.network_id) d.addr seen) in
    (
      (λ h. let r = rest.0 h in let s = step.0 r.0 in (s.0, (s.1, r.1))),
      λ h. rest.1 (step.1 (h.0, h.1.0), h.1.1),
    )

abbrev KeysFit : Option String → List (String × List String) → Type 0
KeysFit none seen = (nid : String) × OneKey nid seen
KeysFit (some nid) seen = OneKey nid seen

two_keys :
    (n : String) (a b : String × List String) (rest : List (String × List String))
    → DistinctKeys (a ∷ b ∷ rest)
    → ¬ OneKey n (a ∷ b ∷ rest)
two_keys n a b rest d h = d.0 (inl (h.1.0 ∙ sym h.0))

conflict_of-none :
    (seen : List (String × List String)) (o : Option String) (group : Group) (target_id : Option ℤ)
    → DistinctKeys seen
    → (conflict_of seen o group target_id ≡ none) ↔ KeysFit o seen
unfolding conflict_of
conflict_of-none [] none group target_id d = (λ h. ("", tt), λ h. refl)
conflict_of-none [] (some t) group target_id d = (λ h. tt, λ h. refl)
conflict_of-none ((nid, macs) ∷ []) none group target_id d = (λ h. (nid, (refl, tt)), λ h. refl)
conflict_of-none ((nid, macs) ∷ []) (some t) group target_id d = elim (Bool-cases (str_eq nid t)) [
  | inl same ↦ (λ h. ((eq_iff nid t).0 same, tt), λ h. rw same refl)
  | inr other ↦
      (λ h. absurd (cc (rw other at h)), λ h. absurd (cc (sym other ∙ (eq_iff nid t).1 h.0)))
]
conflict_of-none (a ∷ b ∷ rest) none group target_id d =
    (λ h. absurd (cc h), λ h. absurd (two_keys h.0 a b rest d h.1))
conflict_of-none (a ∷ b ∷ rest) (some t) group target_id d =
    (λ h. absurd (cc h), λ h. absurd (two_keys t a b rest d h))

KeysFit-Fits :
    (o : Option String) (devs : List Member) → KeysFit o (networks_seen [] devs) ↔ Fits o devs
KeysFit-Fits none devs = (
  λ h. (h.0, ((seen-OneKey h.0 devs []).0 h.1).1),
  λ h. (h.0, (seen-OneKey h.0 devs []).1 (tt, h.1)),
)
KeysFit-Fits (some t) devs =
    (λ h. ((seen-OneKey t devs []).0 h).1, λ h. (seen-OneKey t devs []).1 (tt, h))

-- A regroup is accepted exactly when the target is the group 0 ("Unconfigured"), or the devices that
-- are bound to a network are all bound to one network, which is the group's if the group is bound.
pub validate_group_membership_iff :
    (devices : List Member) (group : Group) (target_id : Option ℤ)
    → (validate_group_membership devices group target_id ≡ none)
      ↔ ((is_unconfigured target_id ≡ true) ⊎ Fits (bound_network group.network_id) devices)
unfolding validate_group_membership
validate_group_membership_iff devices group target_id =
    let o = bound_network group.network_id in
    let checks =
      conflict_of-none (networks_seen [] devices) o group target_id
        (seen-DistinctKeys devices [] tt) in
    elim (Bool-cases (is_unconfigured target_id)) [
      | inl free ↦ (λ h. inl free, λ h. rw free refl)
      | inr bound ↦ (
        λ h. inr ((KeysFit-Fits o devices).0 (checks.0 (rw bound at h))),
        λ h. rw bound (elim h [
          | inl free ↦ absurd (cc (sym bound ∙ free))
          | inr fits ↦ checks.1 ((KeysFit-Fits o devices).1 fits)
        ]),
      )
    ]
