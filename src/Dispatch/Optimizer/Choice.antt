-- ===== src/Dispatch/Optimizer/Choice.antt =====
-- The choice between the strategies.
use race_link_host.Prelude.{
  ◌≡◌, refl, sym, inl, inr, true, false, List, [], ◌∷◌, arith, if◌then◌else◌, Bool-cases, All,
}
use mathlib.Core.Path.{subst}
use race_link_host.Dispatch.Optimizer.{OptimizerPlan, cheaper, first_cheapest}

-- What holds of every candidate holds of the plan that is chosen.
pub first_cheapest-All :
    (P : OptimizerPlan → Type 0) (p : OptimizerPlan) (ps : List OptimizerPlan)
    → P p
    → All P ps
    → P (first_cheapest p ps)
unfolding first_cheapest
first_cheapest-All P p [] h k = h
first_cheapest-All P p (q ∷ qs) h k = elim (Bool-cases (cheaper q p)) [
  | inl below ↦ rw below (first_cheapest-All P q qs k.0 k.1)
  | inr above ↦ rw above (first_cheapest-All P p qs h k.1)
]

-- The order of the keys (packets, bytes).
abbrev pub NoDearer : OptimizerPlan → OptimizerPlan → Type 0
NoDearer p q = cheaper q p ≡ false

cheaper_trans : (p q r : OptimizerPlan) → NoDearer p q → NoDearer q r → NoDearer p r
unfolding cheaper
cheaper_trans p q r h k = ground arith

cheaper_refl : (p : OptimizerPlan) → NoDearer p p
unfolding cheaper
cheaper_refl p = ground arith

cheaper_asym : (p q : OptimizerPlan) → cheaper q p ≡ true → NoDearer q p
unfolding cheaper
cheaper_asym p q h = ground arith

first_cheapest-cons :
    (p q : OptimizerPlan) (qs : List OptimizerPlan)
    → first_cheapest p (q ∷ qs) ≡ first_cheapest (if cheaper q p then q else p) qs
unfolding first_cheapest
first_cheapest-cons p q qs = refl

IsCheapest : OptimizerPlan → List OptimizerPlan → OptimizerPlan → Type 0
IsCheapest p qs r = NoDearer r p × All (NoDearer r) qs

-- No candidate is cheaper than the plan that is chosen, the first included.
pub first_cheapest_min :
    (p : OptimizerPlan) (ps : List OptimizerPlan)
    → NoDearer (first_cheapest p ps) p × All (NoDearer (first_cheapest p ps)) ps
unfolding IsCheapest
first_cheapest_min p [] = unfold first_cheapest in (cheaper_refl p, tt)
first_cheapest_min p (q ∷ qs) = elim (Bool-cases (cheaper q p)) [
  | inl below ↦
      let rest = first_cheapest_min q qs in
      let e : first_cheapest p (q ∷ qs) ≡ first_cheapest q qs =
        rw (first_cheapest-cons p q qs, below) in
      subst (IsCheapest p (q ∷ qs)) (sym e)
        (cheaper_trans (first_cheapest q qs) q p rest.0 (cheaper_asym p q below), (rest.0, rest.1))
  | inr above ↦
      let rest = first_cheapest_min p qs in
      let e : first_cheapest p (q ∷ qs) ≡ first_cheapest p qs =
        rw (first_cheapest-cons p q qs, above) in
      subst (IsCheapest p (q ∷ qs)) (sym e)
        (rest.0, (cheaper_trans (first_cheapest p qs) p q rest.0 above, rest.1))
]
