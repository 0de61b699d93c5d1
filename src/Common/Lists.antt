-- ===== src/Common/Lists.antt =====
-- Sums and predicates over lists.
use Prim.Native.Nat.{ℕ, zero, suc, ◌+◌, ◌≤◌, ◌<◌}
use mathlib.Core.Option.{Option, none, some, some-ne-none}
use mathlib.Core.Path.{◌≡◌, refl, sym}
use mathlib.Core.Logic.{◌≢◌}
use mathlib.Core.List.{List, [], ◌∷◌, ◌++◌}
use native.Mathlib.Omega.{arith}

abbrev pub All {ℓ κ} : {A : Type ℓ} → (A → Type κ) → List A → Type κ
All P [] = Unit
All P (x ∷ xs) = P x × All P xs

pub All-append {ℓ κ} :
    {A : Type ℓ} (P : A → Type κ) (xs ys : List A) → All P xs → All P ys → All P (xs ++ ys)
All-append P [] ys hx hy = hy
All-append P (x ∷ xs) ys hx hy = (hx.0, All-append P xs ys hx.1 hy)

pub All-map {ℓ κ μ} :
    {A : Type ℓ} {P : A → Type κ} {Q : A → Type μ} (xs : List A)
    → ((x : A) → P x → Q x)
    → All P xs
    → All Q xs
All-map [] f h = tt
All-map (x ∷ xs) f (p, h) = (f x p, All-map xs f h)

-- No two elements have the same id.
abbrev pub Distinct {ℓ} : {A : Type ℓ} → (A → ℕ) → List A → Type 0
Distinct id [] = Unit
Distinct id (x ∷ xs) = All (λ y. id y ≢ id x) xs × Distinct id xs

pub Distinct-append {ℓ} :
    {A : Type ℓ} (id : A → ℕ) (xs : List A) (y : A)
    → Distinct id xs
    → All (λ x. id x ≢ id y) xs
    → Distinct id (xs ++ y ∷ [])
Distinct-append id [] y d h = (tt, tt)
Distinct-append id (x ∷ xs) y (a, d) (n, h) = (
  All-append (λ z. id z ≢ id x) xs (y ∷ []) a ((λ p. n (sym p)), tt),
  Distinct-append id xs y d h,
)

module _ {ℓ} {A : Type ℓ} where
  abbrev pub sum_of : (A → ℕ) → List A → ℕ
  sum_of f [] = 0
  sum_of f (x ∷ xs) = f x + sum_of f xs

  abbrev pub length : List A → ℕ
  length [] = 0
  length (_ ∷ xs) = suc (length xs)

  pub sum_of-append : (f : A → ℕ) (xs ys : List A) → sum_of f (xs ++ ys) ≡ sum_of f xs + sum_of f ys
  sum_of-append f [] ys = omega arith
  sum_of-append f (x ∷ xs) ys = omega (arith, sum_of-append f xs ys)

module _ {ℓ} {A : Type ℓ} where
  -- The element at a position that is counted from 0.
  abbrev pub get_elem? : List A → ℕ → Option A
  get_elem? [] n = none
  get_elem? (x ∷ xs) zero = some x
  get_elem? (x ∷ xs) (suc n) = get_elem? xs n

  pub length-append : (xs ys : List A) → length (xs ++ ys) ≡ length xs + length ys
  length-append [] ys = omega arith
  length-append (x ∷ xs) ys = omega (arith, length-append xs ys)

  pub get_elem?-append :
      (xs : List A) (x : A) (k : ℕ) {y : A}
      → get_elem? xs k ≡ some y
      → get_elem? (xs ++ x ∷ []) k ≡ some y
  get_elem?-append [] x k h = absurd (some-ne-none _ (sym h))
  get_elem?-append (z ∷ xs) x zero h = h
  get_elem?-append (z ∷ xs) x (suc k) h = get_elem?-append xs x k h

  pub get_elem?-last : (xs : List A) (x : A) → get_elem? (xs ++ x ∷ []) (length xs) ≡ some x
  get_elem?-last [] x = refl
  get_elem?-last (z ∷ xs) x = get_elem?-last xs x

  -- One more element at the end changes no earlier position, and no position after it.
  pub get_elem?-before :
      (xs : List A) (x : A) (k : ℕ) → k < length xs → get_elem? (xs ++ x ∷ []) k ≡ get_elem? xs k
  get_elem?-before [] x k h = absurd (omega arith)
  get_elem?-before (z ∷ xs) x zero h = refl
  get_elem?-before (z ∷ xs) x (suc k) h = get_elem?-before xs x k (omega arith)

  pub get_elem?-past : (xs : List A) (k : ℕ) → length xs ≤ k → get_elem? xs k ≡ none
  get_elem?-past [] k h = refl
  get_elem?-past (x ∷ xs) zero h = absurd (omega arith)
  get_elem?-past (x ∷ xs) (suc k) h = get_elem?-past xs k (omega arith)
