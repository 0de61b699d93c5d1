-- ===== src/Opposite/Entries.antt =====
-- What the first times of the outcomes say of the fills (src/std0_quant/events/first_opposite.py).
use polymarket_quant.Common.{
  ℕ, ◌+◌, ◌≤◌, ◌<◌, ◌≡◌, refl, subst, inl, inr, true, false, ◌&&◌, Option, none, some, List, [],
  ◌∷◌, ltb, leb, ◌==◌, lookup, store, nat_eq, if◌then◌else◌, arith, All, sum_of, sum_of-store,
  weight_of, ltb→lt, ltb→le, Bool-cases, same, same_eq,
}
use polymarket_quant.Episodes.{TradeFill}
use polymarket_quant.Opposite.{bought_at, note_first, collect_first}

-- 1 for an entry of the outcome that is not later.
abbrev pub covers : ℕ × ℕ → ℕ × ℕ → ℕ
covers b e = if e.0 == b.0 && leb e.1 b.1 then 1 else 0

-- A BUY has an entry that is not later.
abbrev pub IsCovered : List (ℕ × ℕ) → ℕ × ℕ → Type 0
IsCovered d b = 1 ≤ sum_of (covers b) d

lookup_weight : (w : ℕ × ℕ → ℕ) (o : ℕ) (d : List (ℕ × ℕ)) → weight_of w o (lookup o d) ≤ sum_of w d
unfolding lookup
lookup_weight w o [] = omega arith
lookup_weight w o ((k, v) ∷ d) = elim (Bool-cases (same o k)) [
  | inl h ↦ rw (h, same_eq o k h) (omega arith)
  | inr h ↦ rw h (omega (arith, lookup_weight w o d))
]

-- Noting a BUY keeps what is covered, and covers the BUY.
noted-IsCovered : (b c : ℕ × ℕ) (d : List (ℕ × ℕ)) → IsCovered d c → IsCovered (note_first b d) c
noted-IsCovered b c d h =
    elim (lookup b.0 d)
        as (λ o.
          lookup b.0 d ≡ o
          → IsCovered
              (elim o [
                | none ↦ store b.0 b.1 d
                | some current ↦ if ltb b.1 current then store b.0 b.1 d else d
              ])
              c) [
                | none ↦ λ t.
                    let s : sum_of (covers c) (store b.0 b.1 d) + 0
                        ≡ sum_of (covers c) d + covers c b =
                      subst
                        (λ o.
                          sum_of (covers c) (store b.0 b.1 d) + weight_of (covers c) b.0 o
                          ≡ sum_of (covers c) d + covers c b)
                        t (sum_of-store (covers c) b.0 b.1 d) in
                    omega (arith, s)
                | some current ↦ λ t.
                    let s : sum_of (covers c) (store b.0 b.1 d) + covers c (b.0, current)
                        ≡ sum_of (covers c) d + covers c b =
                      subst
                        (λ o.
                          sum_of (covers c) (store b.0 b.1 d) + weight_of (covers c) b.0 o
                          ≡ sum_of (covers c) d + covers c b)
                        t (sum_of-store (covers c) b.0 b.1 d) in
                    elim (Bool-cases (ltb b.1 current)) [
                      | inl e ↦ rw e (earlier s (ltb→lt b.1 current e))
                      | inr e ↦ rw e h
                    ]
              ]
      refl
  where
    earlier :
        {current : ℕ}
        → sum_of (covers c) (store b.0 b.1 d) + covers c (b.0, current)
          ≡ sum_of (covers c) d + covers c b
        → b.1 < current
        → IsCovered (store b.0 b.1 d) c
    earlier {current} s e =
        let less : covers c (b.0, current) ≤ covers c b = ground arith in omega (arith, s, less, h)

newly-IsCovered : (b : ℕ × ℕ) (d : List (ℕ × ℕ)) → IsCovered (note_first b d) b
newly-IsCovered b d =
    elim (lookup b.0 d)
        as (λ o.
          lookup b.0 d ≡ o
          → IsCovered
              (elim o [
                | none ↦ store b.0 b.1 d
                | some current ↦ if ltb b.1 current then store b.0 b.1 d else d
              ])
              b) [
                | none ↦ λ t.
                    let s : sum_of (covers b) (store b.0 b.1 d) + 0
                        ≡ sum_of (covers b) d + covers b b =
                      subst
                        (λ o.
                          sum_of (covers b) (store b.0 b.1 d) + weight_of (covers b) b.0 o
                          ≡ sum_of (covers b) d + covers b b)
                        t (sum_of-store (covers b) b.0 b.1 d) in
                    omega (arith, s, covers_itself b)
                | some current ↦ λ t.
                    let s : sum_of (covers b) (store b.0 b.1 d) + covers b (b.0, current)
                        ≡ sum_of (covers b) d + covers b b =
                      subst
                        (λ o.
                          sum_of (covers b) (store b.0 b.1 d) + weight_of (covers b) b.0 o
                          ≡ sum_of (covers b) d + covers b b)
                        t (sum_of-store (covers b) b.0 b.1 d) in
                    let there : covers b (b.0, current) ≤ sum_of (covers b) d =
                      subst (λ o. weight_of (covers b) b.0 o ≤ sum_of (covers b) d) t
                        (lookup_weight (covers b) b.0 d) in
                    elim (Bool-cases (ltb b.1 current)) [
                      | inl e ↦ rw e (omega (arith, s, there, covers_itself b))
                      | inr e ↦
                          rw e (omega (arith, there, not_later b current (ltb→le b.1 current e)))
                    ]
              ]
      refl
  where
    covers_itself : (b : ℕ × ℕ) → covers b b ≡ 1
    covers_itself b = ground arith

    not_later : (b : ℕ × ℕ) (c : ℕ) → c ≤ b.1 → covers b (b.0, c) ≡ 1
    not_later b c h = ground arith

-- What is said of the outcome and the time of a BUY.
abbrev pub Said : (ℕ × ℕ → Type 0) → Option (ℕ × ℕ) → Type 0
Said P none = Unit
Said P (some b) = P b

abbrev pub Bought : (ℕ × ℕ → Type 0) → TradeFill → Type 0
Bought P f = Said P (bought_at f)

collect-IsCovered :
    (fs : List TradeFill) (d : List (ℕ × ℕ)) (c : ℕ × ℕ)
    → IsCovered d c
    → IsCovered (collect_first fs d) c
unfolding collect_first
collect-IsCovered [] d c h = h
collect-IsCovered (f ∷ fs) d c h =
    elim (bought_at f)
      as (λ o. IsCovered (collect_first fs (elim o [ none ↦ d | some b ↦ note_first b d ])) c) [
        | none ↦ collect-IsCovered fs d c h
        | some b ↦ collect-IsCovered fs (note_first b d) c (noted-IsCovered b c d h)
      ]

pub All-IsCovered :
    (fs : List TradeFill) (d : List (ℕ × ℕ)) → All (Bought (IsCovered (collect_first fs d))) fs
unfolding collect_first
All-IsCovered [] d = tt
All-IsCovered (f ∷ fs) d =
    elim (bought_at f)
      as (λ o.
        let e = collect_first fs (elim o [ none ↦ d | some b ↦ note_first b d ]) in
        Said (IsCovered e) o × All (Bought (IsCovered e)) fs) [
          | none ↦ (tt, All-IsCovered fs d)
          | some b ↦ (
            collect-IsCovered fs (note_first b d) b (newly-IsCovered b d),
            All-IsCovered fs (note_first b d),
          )
        ]

module _ (P : ℕ × ℕ → Type 0) where
  All-store : (k v : ℕ) (d : List (ℕ × ℕ)) → P (k, v) → All P d → All P (store k v d)
  unfolding store
  All-store k v [] p h = (p, tt)
  All-store k v ((j, u) ∷ d) p h = elim (Bool-cases (same k j)) [
    | inl e ↦ rw e (subst (λ n. P (n, v)) (same_eq k j e) p, h.1)
    | inr e ↦ rw e (h.0, All-store k v d p h.1)
  ]

  noted-All : (b : ℕ × ℕ) (d : List (ℕ × ℕ)) → P b → All P d → All P (note_first b d)
  noted-All b d p h =
      elim (lookup b.0 d)
        as (λ o. All P (elim o [
          | none ↦ store b.0 b.1 d
          | some current ↦ if ltb b.1 current then store b.0 b.1 d else d
        ])) [
          | none ↦ All-store b.0 b.1 d p h
          | some current ↦
              elim (ltb b.1 current) as (λ c. All P (if c then store b.0 b.1 d else d)) [
                | true ↦ All-store b.0 b.1 d p h
                | false ↦ h
              ]
        ]

  pub collected-All :
      (fs : List TradeFill) (d : List (ℕ × ℕ))
      → All (Bought P) fs
      → All P d
      → All P (collect_first fs d)
  unfolding collect_first
  collected-All [] d h g = g
  collected-All (f ∷ fs) d h g =
      elim (bought_at f)
          as (λ o.
            Said P o → All P (collect_first fs (elim o [ none ↦ d | some b ↦ note_first b d ]))) [
              | none ↦ λ p. collected-All fs d h.1 g
              | some b ↦ λ p. collected-All fs (note_first b d) h.1 (noted-All b d p g)
            ]
        h.0
