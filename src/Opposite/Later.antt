-- ===== src/Opposite/Later.antt =====
-- The first opposite episode against the initial direction (src/std0_quant/events/first_opposite.py).
use polymarket_quant.Common.{
  ℕ, ◌+◌, ◌≤◌, ◌<◌, ◌≡◌, ◌≢◌, refl, sym, ap, subst, ◌∙◌, inl, inr, true, false, ◌&&◌, Option, none,
  some, List, [], ◌∷◌, ◌==◌, if◌then◌else◌, arith, All, All-map, sum_of, Bool-cases,
}
use polymarket_quant.Episodes.{TradeFill, Episode}
use polymarket_quant.Opposite.{
  bought_at, analyze_initial_direction, is_earlier, earliest_opposite, find_first_opposite,
}
use polymarket_quant.Opposite.Entries.{Said, Bought}
use polymarket_quant.Opposite.Initial.{Occurs, IsFirst, there, bought_there, initial-IsFirst}

occurring-IsFirst :
    (fs : List TradeFill) (a b : ℕ × ℕ) → All (Bought (IsFirst a)) fs → Occurs fs b → IsFirst a b
occurring-IsFirst [] a b h n = absurd (omega (arith, n))
occurring-IsFirst (f ∷ fs) a b h n =
    elim (bought_at f)
        as (λ o. Said (IsFirst a) o → 1 ≤ there b o + sum_of (bought_there b) fs → IsFirst a b) [
          | none ↦ λ s m. occurring-IsFirst fs a b h.1 (omega (arith, m))
          | some c ↦ λ s m. elim (Bool-cases (b.0 == c.0 && b.1 == c.1)) [
            | inl e ↦ let same_pair : c ≡ b = ground arith in subst (IsFirst a) same_pair s
            | inr e ↦ occurring-IsFirst fs a b h.1 (ground arith)
          ]
        ]
      h.0 n

-- What is said of the best episode so far.
abbrev Best : (Episode → Type 0) → Option Episode → Type 0
Best P none = Unit
Best P (some b) = P b

module _ (d : ℕ) where
  -- Each step keeps the best episode, or takes one in another direction.
  abbrev better : Option Episode → Episode → Option Episode
  better best e =
      if e.direction == d
      then best
      else elim best [ none ↦ some e | some b ↦ if is_earlier e b then some e else some b ]

  better-Best :
      (P : Episode → Type 0) (best : Option Episode) (e : Episode)
      → Best P best
      → ((e.direction == d) ≡ false → P e)
      → Best P (better best e)
  better-Best P best e b h =
      elim (e.direction == d)
          as (λ c.
            (e.direction == d) ≡ c
            → Best P (
                if c then best else elim best [
                  | none ↦ some e
                  | some b ↦ if is_earlier e b then some e else some b
                ])) [
                  | true ↦ λ k. b
                  | false ↦ λ k.
                      elim best
                          as (λ o.
                            Best P o
                            → Best P (elim o [
                              | none ↦ some e
                              | some b ↦ if is_earlier e b then some e else some b
                            ])) [
                              | none ↦ λ x. h k
                              | some o ↦ λ x.
                                  elim (is_earlier e o)
                                    as (λ c. Best P (if c then some e else some o)) [
                                      | true ↦ h k
                                      | false ↦ x
                                    ]
                            ]
                        b
                ]
        refl

  earliest-Best :
      (P : Episode → Type 0) (best : Option Episode) (es : List Episode)
      → Best P best
      → All (λ e. (e.direction == d) ≡ false → P e) es
      → Best P (earliest_opposite d best es)
  unfolding earliest_opposite
  earliest-Best P best [] b h = b
  earliest-Best P best (e ∷ es) b h =
      earliest-Best P (better best e) es (better-Best P best e b h.0) h.1

  -- Not later than an episode.
  abbrev IsBy : ℕ → Option Episode → Type 0
  IsBy start none = ⊥
  IsBy start (some b) = b.episode_start_ms ≤ start

  better-IsBy :
      (start : ℕ) (best : Option Episode) (e : Episode)
      → IsBy start best
      → IsBy start (better best e)
  better-IsBy start none e h = absurd h
  better-IsBy start (some b) e h = ground arith

  taken-IsBy :
      (best : Option Episode) (e : Episode)
      → (e.direction == d) ≡ false
      → IsBy e.episode_start_ms (better best e)
  taken-IsBy none e h = ground arith
  taken-IsBy (some b) e h = ground arith

  earliest-IsBy :
      (start : ℕ) (best : Option Episode) (es : List Episode)
      → IsBy start best
      → IsBy start (earliest_opposite d best es)
  unfolding earliest_opposite
  earliest-IsBy start best [] h = h
  earliest-IsBy start best (e ∷ es) h =
      earliest-IsBy start (better best e) es (better-IsBy start best e h)

  All-IsBy :
      (best : Option Episode) (es : List Episode)
      → All
          (λ e. (e.direction == d) ≡ false → IsBy e.episode_start_ms (earliest_opposite d best es))
          es
  unfolding earliest_opposite
  All-IsBy best [] = tt
  All-IsBy best (e ∷ es) = (
    λ h. earliest-IsBy e.episode_start_ms (better best e) es (taken-IsBy best e h),
    All-IsBy (better best e) es,
  )

-- The first opposite episode goes in another direction than the initial one, starts after the initial fill,
-- and starts no later than any other episode in another direction, where every episode starts with one of
-- the BUY fills. What the code logs as inconsistent data does not come up.
pub first_opposite_is_later :
    (fs : List TradeFill) (es : List Episode) (o t : ℕ) (r : Episode)
    → (analyze_initial_direction fs).direction ≡ some o
    → (analyze_initial_direction fs).first_timestamp_ms ≡ some t
    → All (λ e. Occurs fs (e.direction, e.episode_start_ms)) es
    → find_first_opposite es (analyze_initial_direction fs) ≡ some r
    → (r.direction ≢ o)
      × (t < r.episode_start_ms)
      × All (λ e. (e.direction == o) ≡ false → r.episode_start_ms ≤ e.episode_start_ms) es
unfolding find_first_opposite
first_opposite_is_later fs es o t r f g h k =
    let firsts : All (Bought (IsFirst (o, t))) fs = (initial-IsFirst fs o t f g).1 in
    let P : Episode → Type 0 = λ e. (e.direction ≢ o) × (t < e.episode_start_ms) in
    let chosen : earliest_opposite o none es ≡ some r =
      sym (ap (λ (m : Option ℕ). elim m [ none ↦ none | some d ↦ earliest_opposite d none es ]) f)
      ∙ k in
    let later : Best P (some r) = subst (Best P) chosen (
      earliest-Best o P none es tt (
        All-map es
          (λ e n x.
            let first : IsFirst (o, t) (e.direction, e.episode_start_ms) =
              occurring-IsFirst fs (o, t) (e.direction, e.episode_start_ms) firsts n in
            let differs : e.direction ≢ o = λ q. absurd (ground arith) in
            (differs, elim first.1 [ inl q ↦ absurd (differs q) | inr q ↦ q ]))
          h)) in
    (
      later.0,
      later.1,
      All-map es (λ e n x. subst (IsBy o e.episode_start_ms) chosen (n x)) (All-IsBy o none es),
    )
