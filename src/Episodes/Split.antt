-- ===== src/Episodes/Split.antt =====
-- The chains of one market and direction (src/std0_quant/events/episode_builder.py).
use mathlib.Core.List.{append_assoc}
use polymarket_quant.Common.{
  ℕ, ◌+◌, ◌-◌, ◌≤◌, ◌<◌, ◌≡◌, refl, ap, ◌∙◌, true, false, List, [], ◌∷◌, ◌++◌, All, arith, ltb,
}
use polymarket_quant.Episodes.{BuyFill, Chain, fills_of, first_of, chains, split}

-- Every fill is at most the window after the one before it.
abbrev pub IsLinked : ℕ → List BuyFill → Type 0
IsLinked w [] = Unit
IsLinked w (f ∷ []) = Unit
IsLinked w (f ∷ g ∷ fs) = (g.timestamp_ms ≤ f.timestamp_ms + w) × IsLinked w (g ∷ fs)

-- Every chain starts more than the window after the end of the one before it.
abbrev pub IsApart : ℕ → List Chain → Type 0
IsApart w [] = Unit
IsApart w (c ∷ []) = Unit
IsApart w (c ∷ d ∷ cs) = (c.1.timestamp_ms + w < (first_of d).timestamp_ms) × IsApart w (d ∷ cs)

abbrev pub joined : List Chain → List BuyFill
joined [] = []
joined (c ∷ cs) = fills_of c ++ joined cs

module _ (w : ℕ) where
  joined-chains : (c : Chain) (fs : List BuyFill) → joined (chains w c fs) ≡ fills_of c ++ fs
  unfolding chains
  joined-chains c [] = refl
  joined-chains c (f ∷ fs) =
      elim (ltb w (f.timestamp_ms - c.1.timestamp_ms))
        as (λ b.
          joined (elim b [ true ↦ c ∷ chains w ([], f) fs | false ↦ chains w (fills_of c, f) fs ])
          ≡ fills_of c ++ f ∷ fs) [
            | true ↦ ap (λ x. fills_of c ++ x) (joined-chains ([], f) fs)
            | false ↦ joined-chains (fills_of c, f) fs ∙ append_assoc (fills_of c) (f ∷ []) fs
          ]

  link-append :
      (fs : List BuyFill) (l f : BuyFill)
      → IsLinked w (fs ++ l ∷ [])
      → f.timestamp_ms ≤ l.timestamp_ms + w
      → IsLinked w ((fs ++ l ∷ []) ++ f ∷ [])
  link-append [] l f h n = (n, tt)
  link-append (a ∷ []) l f h n = (h.0, (n, tt))
  link-append (a ∷ b ∷ fs) l f h n = (h.0, link-append (b ∷ fs) l f h.1 n)

  chains-IsLinked :
      (c : Chain) (fs : List BuyFill)
      → IsLinked w (fills_of c)
      → All (λ d. IsLinked w (fills_of d)) (chains w c fs)
  unfolding chains
  chains-IsLinked c [] h = (h, tt)
  chains-IsLinked c (f ∷ fs) h =
      let gap : ℕ = f.timestamp_ms - c.1.timestamp_ms in
      elim (ltb w gap)
          as (λ b.
            ltb w gap ≡ b
            → All (λ d. IsLinked w (fills_of d))
                (elim b [ true ↦ c ∷ chains w ([], f) fs | false ↦ chains w (fills_of c, f) fs ])) [
                  | true ↦ λ e. (h, chains-IsLinked ([], f) fs tt)
                  | false ↦ λ e.
                      chains-IsLinked (fills_of c, f) fs (link-append c.0 c.1 f h (ground arith))
                ]
        refl

  first_of-longer : (c : Chain) (f : BuyFill) → first_of (fills_of c, f) ≡ first_of c
  first_of-longer ([], l) f = refl
  first_of-longer (a ∷ fs, l) f = refl

  before-chains :
      (b c : Chain) (fs : List BuyFill)
      → b.1.timestamp_ms + w < (first_of c).timestamp_ms
      → IsApart w (chains w c fs)
      → IsApart w (b ∷ chains w c fs)
  unfolding chains
  before-chains b c [] h = λ a. (h, tt)
  before-chains b c (f ∷ fs) h =
      elim (ltb w (f.timestamp_ms - c.1.timestamp_ms))
        as (λ t.
          IsApart w
            (elim t [ true ↦ c ∷ chains w ([], f) fs | false ↦ chains w (fills_of c, f) fs ])
          → IsApart w (
              b
              ∷ elim t [ true ↦ c ∷ chains w ([], f) fs | false ↦ chains w (fills_of c, f) fs ])) [
                | true ↦ λ a. (h, a)
                | false ↦ λ a. before-chains b (fills_of c, f) fs (rw (first_of-longer c f) h) a
              ]

  chains-IsApart : (c : Chain) (fs : List BuyFill) → IsApart w (chains w c fs)
  unfolding chains
  chains-IsApart c [] = tt
  chains-IsApart c (f ∷ fs) =
      let gap : ℕ = f.timestamp_ms - c.1.timestamp_ms in
      elim (ltb w gap)
          as (λ b.
            ltb w gap ≡ b
            → IsApart w
                (elim b [ true ↦ c ∷ chains w ([], f) fs | false ↦ chains w (fills_of c, f) fs ])) [
                  | true ↦
                      λ e. before-chains c ([], f) fs (ground arith) (chains-IsApart ([], f) fs)
                  | false ↦ λ e. chains-IsApart (fills_of c, f) fs
                ]
        refl

-- The chains of a list have all its fills, in their order, each once; in a chain every fill is at most the
-- window after the one before it; and every chain starts more than the window after the one before it ended.
pub split_partitions :
    (w : ℕ) (fs : List BuyFill)
    → (joined (split w fs) ≡ fs)
      × All (λ c. IsLinked w (fills_of c)) (split w fs)
      × IsApart w (split w fs)
split_partitions w [] = (refl, tt, tt)
split_partitions w (f ∷ fs) =
    (joined-chains w ([], f) fs, chains-IsLinked w ([], f) fs tt, chains-IsApart w ([], f) fs)
