-- ===== src/Common/Dict.antt =====
-- Python's `dict` as an association list in the order of insertion.
use Prim.Native.Nat.{ℕ, ◌+◌, ◌≤◌}
use mathlib.Core.Path.{◌≡◌, refl, subst, sym}
use mathlib.Core.Logic.{◌↔◌, inl, inr}
use mathlib.Core.Bool.{Bool, true, false, ◌&&◌}
use mathlib.Core.Option.{Option, none, some}
use mathlib.Core.List.{List, [], ◌∷◌}
use native.Mathlib.Omega.{arith}
use polymarket_quant.Common.Tests.{◌==◌ as nat_beq, if◌then◌else◌, Bool-cases}
use polymarket_quant.Common.Lists.{sum_of}

-- Python's `==` on the keys, which decides equality.
pub record Eq (K : Type 0) : Type 0 where
  pub beq : K → K → Bool
  pub beq_iff : (a b : K) → (beq a b ≡ true) ↔ (a ≡ b)

pub nat_beq_iff : (a b : ℕ) → (nat_beq a b ≡ true) ↔ (a ≡ b)
nat_beq_iff a b = ground arith

instance abbrev pub nat_eq : Eq ℕ
nat_eq = record { beq = nat_beq; beq_iff = nat_beq_iff }

pub pair_beq_iff : (a b : ℕ × ℕ) → (nat_beq a.0 b.0 && nat_beq a.1 b.1 ≡ true) ↔ (a ≡ b)
pair_beq_iff a b = ground arith

-- Tuples of two.
instance abbrev pub pair_eq : Eq (ℕ × ℕ)
pair_eq = record { beq = λ a b. nat_beq a.0 b.0 && nat_beq a.1 b.1; beq_iff = pair_beq_iff }

abbrev pub same : {K : Type 0} ⦃e : Eq K⦄ → K → K → Bool
same ⦃e⦄ = e.beq

module _ {K : Type 0} ⦃e : Eq K⦄ where
  pub same_eq : (a b : K) → same a b ≡ true → a ≡ b
  same_eq a b h = (e.beq_iff a b).0 h

  pub same_refl : (a : K) → same a a ≡ true
  same_refl a = (e.beq_iff a a).1 refl

module _ {K A : Type 0} ⦃e : Eq K⦄ where
  -- `d.get(key)`
  unfoldable pub lookup : K → List (K × A) → Option A
  lookup key [] = none
  lookup key ((k, a) ∷ d) = let rest = lookup key d in if same key k then some a else rest

  -- `d[key] = a`
  unfoldable pub store : K → A → List (K × A) → List (K × A)
  store key a [] = (key, a) ∷ []
  store key a ((k, b) ∷ d) =
      let rest = store key a d in if same key k then (k, a) ∷ d else (k, b) ∷ rest

  -- `d.pop(key, None)`
  unfoldable pub drop_key : K → List (K × A) → List (K × A)
  drop_key key [] = []
  drop_key key ((k, b) ∷ d) =
      let rest = drop_key key d in if same key k then rest else (k, b) ∷ rest

  -- `d.get(key, default)`
  abbrev pub get_or : A → K → List (K × A) → A
  get_or default key d = elim (lookup key d) [ none ↦ default | some a ↦ a ]

  pub lookup-store :
      (k key : K) (a : A) (d : List (K × A))
      → lookup k (store key a d) ≡ (if same k key then some a else lookup k d)
  unfolding lookup store
  lookup-store k key a [] = refl
  lookup-store k key a ((j, b) ∷ d) = elim (Bool-cases (same key j)) [
    | inl h ↦
        rw (h, same_eq key j h)
          (elim (Bool-cases (same k j)) [ inl e ↦ rw e refl | inr e ↦ rw e refl ])
    | inr h ↦
        rw (h, lookup-store k key a d)
          (elim (Bool-cases (same k key)) [
            | inl f ↦
                let g : same k j ≡ false =
                  subst (λ x. same x j ≡ false) (sym (same_eq k key f)) h in
                rw (f, g) refl
            | inr f ↦ rw f refl
          ])
  ]

  pub lookup-drop_key :
      (k key : K) (d : List (K × A))
      → lookup k (drop_key key d) ≡ (if same k key then none else lookup k d)
  unfolding lookup drop_key
  lookup-drop_key k key [] = elim (Bool-cases (same k key)) [
    | inl f ↦ rw f refl
    | inr f ↦ rw f refl
  ]
  lookup-drop_key k key ((j, b) ∷ d) = elim (Bool-cases (same key j)) [
    | inl h ↦
        rw (h, lookup-drop_key k key d, same_eq key j h)
          (elim (Bool-cases (same k j)) [ inl e ↦ rw e refl | inr e ↦ rw e refl ])
    | inr h ↦
        rw (h, lookup-drop_key k key d)
          (elim (Bool-cases (same k key)) [
            | inl f ↦
                let g : same k j ≡ false =
                  subst (λ x. same x j ≡ false) (sym (same_eq k key f)) h in
                rw (f, g) refl
            | inr f ↦ rw f refl
          ])
  ]

  -- A sum over the entries after a store, against the entry that it replaced.
  abbrev pub weight_of : (K × A → ℕ) → K → Option A → ℕ
  weight_of w key none = 0
  weight_of w key (some b) = w (key, b)

  pub sum_of-store :
      (w : K × A → ℕ) (key : K) (a : A) (d : List (K × A))
      → sum_of w (store key a d) + weight_of w key (lookup key d) ≡ sum_of w d + w (key, a)
  unfolding lookup store
  sum_of-store w key a [] = omega arith
  sum_of-store w key a ((j, b) ∷ d) = elim (Bool-cases (same key j)) [
    | inl h ↦ rw (h, same_eq key j h) (omega arith)
    | inr h ↦ rw h (omega (arith, sum_of-store w key a d))
  ]

  pub sum_of-drop_key :
      (w : K × A → ℕ) (key : K) (d : List (K × A)) → sum_of w (drop_key key d) ≤ sum_of w d
  unfolding drop_key
  sum_of-drop_key w key [] = omega arith
  sum_of-drop_key w key ((j, b) ∷ d) = elim (Bool-cases (same key j)) [
    | inl h ↦ rw h (omega (arith, sum_of-drop_key w key d))
    | inr h ↦ rw h (omega (arith, sum_of-drop_key w key d))
  ]
