-- ===== src/Action.antt =====
-- A Python method: it changes the object `S`, and returns a value or raises. What was written before
-- a raise stays written, so the object comes back in both cases.
use polymarket_quant.Common.{Bool, ◌≡◌, refl, ap, if◌then◌else◌}
use polymarket_quant.Numeric.{Error, Result, ok, err}

abbrev pub Action : Type 0 → Type 0 → Type 0
Action S A = S → Result A × S

infixl 5 ◌>>=◌ ◌>>◌
abbrev pub ◌>>=◌ : {S A B : Type 0} → Action S A → (A → Action S B) → Action S B
◌>>=◌ m f s = let (r, s') = m s in elim r [ ok a ↦ f a s' | err e ↦ (err e, s') ]

abbrev pub ◌>>◌ : {S B : Type 0} → Action S (Unit {0}) → Action S B → Action S B
m >> k = m >>= λ _. k

module _ {S A : Type 0} where
  abbrev pub pure : A → Action S A
  pure a s = (ok a, s)

  abbrev pub lift : Result A → Action S A
  lift r s = (r, s)

module _ {S : Type 0} where
  abbrev pub get : Action S S
  get s = (ok s, s)

  abbrev pub modify : (S → S) → Action S (Unit {0})
  modify f s = (ok tt, f s)

  abbrev pub raise_when : Bool → Error → Action S (Unit {0})
  raise_when c e s = (if c then err e else ok tt, s)

-- `try: m except Exception: cleanup; raise`
abbrev pub try_cleanup : {S A : Type 0} → Action S A → Action S (Unit {0}) → Action S A
try_cleanup m cleanup s =
    let (r, s') = m s in elim r [ ok a ↦ (ok a, s') | err e ↦ (cleanup >> λ t. (err e, t)) s' ]

-- A call that raised left its object as it was.
abbrev pub IsAtomic : {S A : Type 0} → S → Result A × S → Type 0
IsAtomic s (ok _, _) = Unit
IsAtomic s (err _, s') = s' ≡ s

-- A call that raised and left its object as it was.
abbrev pub Refuses : {S A : Type 0} → S → Result A × S → Type 0
Refuses s (ok _, _) = ⊥
Refuses s (err _, s') = s' ≡ s

-- A sequence goes on from where an accepted call leaves the object.
pub >>-eq :
    {S B : Type 0} (m : Action S (Unit {0})) (k : Action S B) (s s' : S)
    → m s ≡ (ok tt, s')
    → (m >> k) s ≡ k s'
>>-eq {S} {B} m k s s' e =
    let go_on : Result (Unit {0}) × S → Result B × S =
      λ p. elim p.0 [ ok a ↦ k p.1 | err x ↦ (err x, p.1) ] in
    ap go_on e

-- What holds of the error of the first call and of the rest after it holds of a sequence.
pub >>-cases :
    {S B : Type 0} (P : Result B × S → Type 0) (m : Action S (Unit {0})) (k : Action S B) (s : S)
    → ((e : Error) → P (err e, (m s).1))
    → P (k (m s).1)
    → P ((m >> k) s)
>>-cases {S} {B} P m k s bad good =
    elim (m s).0 as (λ r. P (elim r [ ok a ↦ k (m s).1 | err e ↦ (err e, (m s).1) ])) [
      | ok a ↦ good
      | err e ↦ bad e
    ]

pub >>=-cases :
    {S A B : Type 0} (P : Result B × S → Type 0) (m : Action S A) (f : A → Action S B) (s : S)
    → ((e : Error) → P (err e, (m s).1))
    → ((a : A) → (m s).0 ≡ ok a → P (f a (m s).1))
    → P ((m >>= f) s)
>>=-cases {S} {A} {B} P m f s bad good =
    let go : (r : Result A)
        → (m s).0 ≡ r
        → P (elim r [ ok a ↦ f a (m s).1 | err e ↦ (err e, (m s).1) ]) =
      λ r.
        elim r
          as (λ r. (m s).0 ≡ r → P (elim r [ ok a ↦ f a (m s).1 | err e ↦ (err e, (m s).1) ])) [
            | ok a ↦ λ h. good a h
            | err e ↦ λ h. bad e
          ] in
    go (m s).0 refl

-- What holds of the value of `try` and of the exception after the cleanup holds of the block.
pub try_cleanup-cases :
    {S A : Type 0} (P : Result A × S → Type 0) (m : Action S A) (cleanup : Action S (Unit {0}))
    (s : S)
    → ((a : A) → (m s).0 ≡ ok a → P (ok a, (m s).1))
    → ((e : Error) → P ((cleanup >> λ t. (err e, t)) (m s).1))
    → P (try_cleanup m cleanup s)
try_cleanup-cases {S} {A} P m cleanup s good bad =
    let go : (r : Result A)
        → (m s).0 ≡ r
        → P (elim r [ ok a ↦ (ok a, (m s).1) | err e ↦ (cleanup >> λ t. (err e, t)) (m s).1 ]) =
      λ r.
        elim r
          as (λ r.
            (m s).0 ≡ r
            → P (elim r [
              | ok a ↦ (ok a, (m s).1)
              | err e ↦ (cleanup >> λ t. (err e, t)) (m s).1
            ])) [ ok a ↦ λ h. good a h | err e ↦ λ h. bad e ] in
    go (m s).0 refl
