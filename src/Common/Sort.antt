-- ===== src/Common/Sort.antt =====
-- Python's `sorted`: a stable sort by a key. An insertion sort, which gives the same list.
use Prim.Native.Nat.{ℕ, ◌+◌, ◌≤◌}
use mathlib.Core.Path.{◌≡◌, refl}
use mathlib.Core.Logic.{inl, inr}
use mathlib.Core.Bool.{Bool, true, false}
use mathlib.Core.List.{List, [], ◌∷◌}
use native.Mathlib.Omega.{arith}
use polymarket_quant.Common.Tests.{if◌then◌else◌, Bool-cases}
use polymarket_quant.Common.Lists.{All, sum_of}

module _ {ℓ} {A : Type ℓ} (le : A → A → Bool) where
  abbrev pub insert : A → List A → List A
  insert x [] = x ∷ []
  insert x (y ∷ ys) = if le x y then x ∷ y ∷ ys else y ∷ insert x ys

  abbrev pub sort : List A → List A
  sort [] = []
  sort (x ∷ xs) = insert x (sort xs)

  pub All-insert {κ} : (P : A → Type κ) (x : A) (xs : List A) → P x → All P xs → All P (insert x xs)
  All-insert P x [] h a = (h, a)
  All-insert P x (y ∷ ys) h a = elim (Bool-cases (le x y)) [
    | inl e ↦ rw e (h, a)
    | inr e ↦ rw e (a.0, All-insert P x ys h a.1)
  ]

  pub All-sort {κ} : (P : A → Type κ) (xs : List A) → All P xs → All P (sort xs)
  All-sort P [] a = a
  All-sort P (x ∷ xs) a = All-insert P x (sort xs) a.0 (All-sort P xs a.1)

  pub sum_of-insert : (f : A → ℕ) (x : A) (xs : List A) → sum_of f (insert x xs) ≡ f x + sum_of f xs
  sum_of-insert f x [] = refl
  sum_of-insert f x (y ∷ ys) = ground (arith, sum_of-insert f x ys)

  pub sum_of-sort : (f : A → ℕ) (xs : List A) → sum_of f (sort xs) ≡ sum_of f xs
  sum_of-sort f [] = refl
  sum_of-sort f (x ∷ xs) = rw (sum_of-insert f x (sort xs)) (ground (arith, sum_of-sort f xs))

module _ {ℓ} {A : Type ℓ} (f : A → ℕ) where
  -- No value of `f` is above a later one.
  abbrev pub IsAscending : List A → Type 0
  IsAscending [] = Unit
  IsAscending (x ∷ xs) = All (λ y. f x ≤ f y) xs × IsAscending xs

module _ {ℓ} {A : Type ℓ} (f : A → ℕ) (le : A → A → Bool)
    (before : (x y : A) → le x y ≡ true → f x ≤ f y)
    (after : (x y : A) → le x y ≡ false → f y ≤ f x) where
  All-above :
      (x y : A) (ys : List A) → f x ≤ f y → All (λ z. f y ≤ f z) ys → All (λ z. f x ≤ f z) ys
  All-above x y [] h a = tt
  All-above x y (z ∷ zs) h a = (omega arith, All-above x y zs h a.1)

  insert-IsAscending : (x : A) (xs : List A) → IsAscending f xs → IsAscending f (insert le x xs)
  insert-IsAscending x [] a = (tt, tt)
  insert-IsAscending x (y ∷ ys) a = elim (Bool-cases (le x y)) [
    | inl e ↦ rw e ((before x y e, All-above x y ys (before x y e) a.0), a)
    | inr e ↦
        rw e (All-insert le (λ z. f y ≤ f z) x ys (after x y e) a.0, insert-IsAscending x ys a.1)
  ]

  pub sort-IsAscending : (xs : List A) → IsAscending f (sort le xs)
  sort-IsAscending [] = tt
  sort-IsAscending (x ∷ xs) = insert-IsAscending x (sort le xs) (sort-IsAscending xs)
