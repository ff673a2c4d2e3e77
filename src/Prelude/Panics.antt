-- ===== src/Prelude/Panics.antt =====
-- Code that panics, and `?` on an `Option`: `none` ends it, with `do`.
use mathlib.Core.Option.{Option, none, some}
use mathlib.Core.List.{List, [], ◌∷◌, ◌++◌, append_assoc}
use mathlib.Core.Path.{◌≡◌}
use mathlib.Core.Logic.{inl, inr}
use native.Mathlib.Omega.{arith}
use goodgrep.Prelude.Tests.{Option-cases}

infixl 5 ◌>>=◌
abbrev pub ◌>>=◌ {ℓ κ} : {A : Type ℓ} {B : Type κ} → Option A → (A → Option B) → Option B
none >>= f = none
some a >>= f = f a

-- `flat_map` with a body that may panic.
abbrev pub flat_map {ℓ κ} :
    {A : Type ℓ} {B : Type κ} → (A → Option (List B)) → List A → Option (List B)
flat_map f [] = some []
flat_map f (x ∷ xs) = f x >>= λ first. flat_map f xs >>= λ rest. some (first ++ rest)

flat_map-cons {ℓ κ} :
    {A : Type ℓ} {B : Type κ} (f : A → Option (List B)) (x : A) (xs : List A) (out : List B)
    → flat_map f (x ∷ xs) ≡ some out
    → (a : List B) × (b : List B) × (f x ≡ some a) × (flat_map f xs ≡ some b) × (out ≡ a ++ b)
flat_map-cons f x xs out h = elim (Option-cases (f x)) [
  | inl panic ↦ absurd (ground (arith, h, panic))
  | inr (a, first) ↦ elim (Option-cases (flat_map f xs)) [
    | inl panic ↦ absurd (ground (arith, h, first, panic))
    | inr (b, rest) ↦ (a, b, first, rest, ground (arith, h, first, rest))
  ]
]

pub flat_map-append {ℓ κ} :
    {A : Type ℓ} {B : Type κ} (f : A → Option (List B)) (xs ys : List A) (out more : List B)
    → flat_map f xs ≡ some out
    → flat_map f ys ≡ some more
    → flat_map f (xs ++ ys) ≡ some (out ++ more)
flat_map-append f [] ys out more first rest = ground (arith, first, rest)
flat_map-append f (x ∷ xs) ys out more first rest =
    let (a, b, here, later, e) = flat_map-cons f x xs out first in
    ground (arith, here, flat_map-append f xs ys b more later rest, e, append_assoc a b more)
