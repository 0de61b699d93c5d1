-- ===== src/Opposite/Initial.antt =====
-- What the initial direction says of the fills (src/std0_quant/events/first_opposite.py).
use polymarket_quant.Common.{
  ℕ, ◌+◌, ◌≤◌, ◌<◌, ◌≡◌, sym, subst, ◌⊎◌, inl, inr, ◌&&◌, Option, none, some, List, [], ◌∷◌, ◌==◌,
  sort, nat_eq, if◌then◌else◌, arith, All, All-map, All-sort, sum_of, sum_of-sort,
}
use polymarket_quant.Episodes.{TradeFill}
use polymarket_quant.Opposite.{
  bought_at, collect_first, outcome_le, decide, analyze_initial_direction,
}
use polymarket_quant.Opposite.Entries.{
  covers, IsCovered, Said, Bought, All-IsCovered, collected-All,
}

-- 1 for a BUY of that outcome at that time.
abbrev pub there : ℕ × ℕ → Option (ℕ × ℕ) → ℕ
there a none = 0
there a (some b) = if a.0 == b.0 && a.1 == b.1 then 1 else 0

abbrev pub bought_there : ℕ × ℕ → TradeFill → ℕ
bought_there a f = there a (bought_at f)

-- Some BUY has that outcome and that time.
abbrev pub Occurs : List TradeFill → ℕ × ℕ → Type 0
Occurs fs a = 1 ≤ sum_of (bought_there a) fs

All-Occurs : (fs : List TradeFill) → All (Bought (Occurs fs)) fs
All-Occurs [] = tt
All-Occurs (f ∷ fs) = (
  elim (bought_at f) as (λ o. Said (λ b. 1 ≤ there b o + sum_of (bought_there b) fs) o) [
    | none ↦ tt
    | some b ↦ ground arith
  ],
  All-map fs
      (λ g. elim (bought_at g) as (λ o. Said (Occurs fs) o → Said (Occurs (f ∷ fs)) o) [
        | none ↦ λ h. tt
        | some b ↦ λ h. omega (arith, h)
      ])
      (All-Occurs fs),
)

-- The first is not after the second, and is before it if the second is in another direction.
abbrev pub IsFirst : ℕ × ℕ → ℕ × ℕ → Type 0
IsFirst a b = (a.1 ≤ b.1) × ((b.0 ≡ a.0) ⊎ (a.1 < b.1))

module _ (o t : ℕ) where
  decided-IsFirst :
      (es : List (ℕ × ℕ)) (b : ℕ × ℕ)
      → (decide es).direction ≡ some o
      → (decide es).first_timestamp_ms ≡ some t
      → IsCovered es b
      → IsFirst (o, t) b
  decided-IsFirst [] b f g h = absurd (ground arith)
  decided-IsFirst (x ∷ []) b f g h = ground arith
  decided-IsFirst (x ∷ y ∷ []) b f g h = ground arith
  decided-IsFirst (x ∷ y ∷ z ∷ es) b f g h = absurd (ground arith)

  decided_among :
      (P : ℕ × ℕ → Type 0) (es : List (ℕ × ℕ))
      → (decide es).direction ≡ some o
      → (decide es).first_timestamp_ms ≡ some t
      → All P es
      → P (o, t)
  decided_among P [] f g h = absurd (ground arith)
  decided_among P (x ∷ []) f g h = let e : x ≡ (o, t) = ground arith in subst P e h.0
  decided_among P (x ∷ y ∷ []) f g h =
      let e : (x ≡ (o, t)) ⊎ (y ≡ (o, t)) = ground arith in
      elim e [ inl k ↦ subst P k h.0 | inr k ↦ subst P k h.1.0 ]
  decided_among P (x ∷ y ∷ z ∷ es) f g h = absurd (ground arith)

-- Of the BUY fills that have a time and an outcome, where an initial direction is found: one of them has it
-- at its time, all of them are at that time or later, and all of them in another direction are later.
pub initial-IsFirst :
    (fs : List TradeFill) (o t : ℕ)
    → (analyze_initial_direction fs).direction ≡ some o
    → (analyze_initial_direction fs).first_timestamp_ms ≡ some t
    → Occurs fs (o, t) × All (Bought (IsFirst (o, t))) fs
unfolding analyze_initial_direction
initial-IsFirst fs o t f g =
    let d : List (ℕ × ℕ) = collect_first fs [] in
    (
      decided_among o t (Occurs fs) (sort outcome_le d) f g
          (All-sort outcome_le (Occurs fs) d (collected-All (Occurs fs) fs [] (All-Occurs fs) tt)),
      All-map fs
          (λ x. elim (bought_at x) as (λ b. Said (IsCovered d) b → Said (IsFirst (o, t)) b) [
            | none ↦ λ h. tt
            | some b ↦ λ h.
                decided-IsFirst o t (sort outcome_le d) b f g
                  (subst (λ n. 1 ≤ n) (sym (sum_of-sort outcome_le (covers b) d)) h)
          ])
          (All-IsCovered fs []),
    )
