-- ===== src/Prelude/Exceptions.antt =====
-- Python exceptions as values.
use mathlib.Core.Path.{◌≡◌, refl}
use mathlib.Core.List.{List, [], ◌∷◌, map}
use mathlib.Core.Bool.{Bool, true, false}
use mathlib.Core.Option.{Option, none, some}

pub data Error : Type 0 where
  value_error key_error struct_error index_error assertion_error : Error

pub data Result {ℓ} (A : Type ℓ) : Type ℓ where
  ok : A → Result A
  err : Error → Result A

-- A statement that raises ends what follows.
abbrev pub ◌>>=◌ {ℓ κ} : {A : Type ℓ} {B : Type κ} → Result A → (A → Result B) → Result B
err problem >>= next = err problem
ok value >>= next = next value

infixl 5 ◌>>=◌
abbrev pub ◌>>◌ {κ} : {B : Type κ} → Result (Unit {0}) → Result B → Result B
first >> second = first >>= λ done. second

infixl 5 ◌>>◌
-- `if not b: raise e`
abbrev pub require : Bool → Error → Result (Unit {0})
require false problem = err problem
require true problem = ok tt

abbrev pub or_raise {ℓ} : {A : Type ℓ} → Option A → Error → Result A
or_raise none e = err e
or_raise (some a) e = ok a

-- `[f(x) for x in xs]` where `f` may raise: the first error ends it.
abbrev pub map_ok {ℓ κ} : {A : Type ℓ} {B : Type κ} → (A → Result B) → List A → Result (List B)
map_ok f [] = ok []
map_ok f (x ∷ xs) = f x >>= λ y. map_ok f xs >>= λ ys. ok (y ∷ ys)

pub map_ok-eq-map {ℓ κ} :
    {A : Type ℓ} {B : Type κ} (f : A → Result B) (g : A → B)
    → ((x : A) → f x ≡ ok (g x))
    → (xs : List A) → map_ok f xs ≡ ok (map g xs)
map_ok-eq-map f g h [] = refl
map_ok-eq-map f g h (x ∷ xs) = rw (h x, map_ok-eq-map f g h xs)
