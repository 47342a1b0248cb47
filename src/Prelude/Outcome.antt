-- ===== src/Prelude/Outcome.antt =====
-- What holds of the value of a computation that may raise.
use mathlib.Core.Path.{◌≡◌, refl}
use mathlib.Core.Bool.{Bool, true, false}
use mathlib.Core.List.{List, [], ◌∷◌, ◌++◌, map}
use race_link_host.Prelude.Lists.{All}
use race_link_host.Prelude.Exceptions.{Error, Result, ok, err, ◌>>=◌, ◌>>◌, require, map_ok}
use race_link_host.Prelude.Tests.{if◌then◌else◌}

-- The value satisfies `P`, if there is one.
abbrev pub WhenOk {ℓ κ} : {A : Type ℓ} → (A → Type κ) → Result A → Type κ
WhenOk P (ok a) = P a
WhenOk P (err e) = Unit

module _ {ℓ κ} {A : Type ℓ} (P : A → Type κ) where
  pub WhenOk-of : (r : Result A) → ((a : A) → r ≡ ok a → P a) → WhenOk P r
  WhenOk-of (ok a) h = h a refl
  WhenOk-of (err e) h = tt

  pub WhenOk-value : (r : Result A) (a : A) → r ≡ ok a → WhenOk P r → P a
  WhenOk-value (ok b) a h p = let same : a ≡ b = cc in rw same p
  WhenOk-value (err e) a h p = absurd (cc h)

  pub WhenOk-if :
      (b : Bool) (r s : Result A) → WhenOk P r → WhenOk P s → WhenOk P (if b then r else s)
  WhenOk-if true r s p q = p
  WhenOk-if false r s p q = q

  pub WhenOk-require :
      (b : Bool) (e : Error) (r : Result A) → WhenOk P r → WhenOk P (require b e >> r)
  WhenOk-require true e r p = p
  WhenOk-require false e r p = tt

module _ {ℓ κ m n} {A : Type ℓ} {B : Type m} (Q : A → Type κ) (P : B → Type n) where
  pub WhenOk-bind :
      (r : Result A) (next : A → Result B)
      → WhenOk Q r
      → ((a : A) → Q a → WhenOk P (next a))
      → WhenOk P (r >>= next)
  WhenOk-bind (ok a) next q h = h a q
  WhenOk-bind (err e) next q h = tt

module _ {ℓ κ m} {A : Type ℓ} (P : A → Type κ) (Q : A → Type m) where
  pub WhenOk-mono : (r : Result A) → WhenOk P r → ((a : A) → P a → Q a) → WhenOk Q r
  WhenOk-mono (ok a) p h = h a p
  WhenOk-mono (err e) p h = tt

module _ {ℓ κ m} {A : Type ℓ} {B : Type m} (P : B → Type κ) (f : A → Result B) where
  pub WhenOk-map_ok : ((x : A) → WhenOk P (f x)) → (xs : List A) → WhenOk (All P) (map_ok f xs)
  WhenOk-map_ok h [] = tt
  WhenOk-map_ok h (x ∷ xs) =
      WhenOk-bind P (All P) (f x) (λ y. map_ok f xs >>= λ ys. ok (y ∷ ys)) (h x)
        (λ y p.
          WhenOk-bind (All P) (All P) (map_ok f xs) (λ ys. ok (y ∷ ys)) (WhenOk-map_ok h xs)
            (λ ys ps. (p, ps)))

module _ {ℓ κ} {A : Type ℓ} (P : A → Type κ) where
  pub All-append : (xs ys : List A) → All P xs → All P ys → All P (xs ++ ys)
  All-append [] ys h k = k
  All-append (x ∷ xs) ys h k = (h.0, All-append xs ys h.1 k)

module _ {ℓ κ m n} {A : Type ℓ} {B : Type m} (P : A → Type κ) (Q : B → Type n) (f : A → B) where
  pub All-map : ((x : A) → P x → Q (f x)) → (xs : List A) → All P xs → All Q (map f xs)
  All-map h [] k = tt
  All-map h (x ∷ xs) k = (h x k.0, All-map h xs k.1)
