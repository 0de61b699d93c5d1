-- ===== src/Episodes/Counts.antt =====
-- The fills that the episodes account for (src/std0_quant/events/episode_builder.py).
use polymarket_quant.Common.{
  ℕ, ◌+◌, ◌≡◌, ◌==◌, if◌then◌else◌, refl, ap, List, [], ◌∷◌, ◌++◌, map, sort, length, get_or, store,
  pair_eq, sum_of, sum_of-append, sum_of-sort, sum_of-store, arith,
}
use polymarket_quant.Episodes.{
  TradeFill, TradeSide, BuyFill, InvalidFill, Validated, Episode, validate_buy_fill, Chain,
  fills_of, make_episode, split,
}
use polymarket_quant.Episodes.Split.{joined, split_partitions}
use polymarket_quant.Episodes.Build.{
  Groups, Grouping, take_buy, group_fills, fill_le, episode_le, pair_le, group_episodes, no_groups,
  build_episodes,
}

-- A weight of the ids, on the BUY fills.
abbrev pub weight_of_buys : (ℕ → ℕ) → TradeFill → ℕ
weight_of_buys w f = elim f.side [
  | TradeSide.buy ↦ w f.fill_id
  | TradeSide.sell ↦ 0
  | TradeSide.other ↦ 0
]

-- 1 for that id, and 1 for every id.
abbrev pub is_id : ℕ → ℕ → ℕ
is_id n id = if id == n then 1 else 0

abbrev pub any_id : ℕ → ℕ
any_id id = 1

length_as_sum : {A : Type 0} (xs : List A) → length xs ≡ sum_of (λ _. 1) xs
length_as_sum [] = refl
length_as_sum (x ∷ xs) = omega (arith, length_as_sum xs)

module _ (w : ℕ → ℕ) where
  abbrev weight : BuyFill → ℕ
  weight b = w b.fill_id

  abbrev group_weight : (ℕ × ℕ) × List BuyFill → ℕ
  group_weight g = sum_of weight g.1

  abbrev invalid_weight : InvalidFill → ℕ
  invalid_weight x = w x.fill_id

  abbrev weighed : Grouping → ℕ
  weighed g = sum_of group_weight g.groups + sum_of invalid_weight g.invalid

  store_weighs :
      (key : ℕ × ℕ) (b : BuyFill) (gs : Groups)
      → sum_of group_weight (store key (get_or [] key gs ++ b ∷ []) gs)
        ≡ sum_of group_weight gs + weight b
  store_weighs key b gs = ground (
    arith,
    sum_of-store group_weight key (get_or [] key gs ++ b ∷ []) gs,
    sum_of-append weight (get_or [] key gs) (b ∷ []),
  )

  abbrev IsTaken : TradeFill → Grouping → Validated → Type 0
  IsTaken f g (Validated.excluded _) = Unit
  IsTaken f g (Validated.accepted _ b) = b.fill_id ≡ f.fill_id

  same_id : (f : TradeFill) (g : Grouping) → IsTaken f g (validate_buy_fill f)
  unfolding validate_buy_fill
  same_id f g = ground arith

  take_buy_weighs :
      (f : TradeFill) (g : Grouping) → weighed (take_buy f g) ≡ weighed g + w f.fill_id
  take_buy_weighs f g =
      elim (validate_buy_fill f)
          as (λ v.
            IsTaken f g v
            → weighed (elim v [
              | Validated.excluded reason ↦ record g {
                invalid =
                    g.invalid
                    ++ record {
                      fill_id = f.fill_id;
                      condition_id = f.condition_id;
                      reason = reason;
                    }
                      ∷ [];
              }
              | Validated.accepted key b ↦ record g {
                groups = store key (get_or [] key g.groups ++ b ∷ []) g.groups;
              }
            ])
              ≡ weighed g + w f.fill_id) [
                | Validated.excluded reason ↦ λ h. omega (
                  arith,
                  sum_of-append invalid_weight g.invalid (
                      record { fill_id = f.fill_id; condition_id = f.condition_id; reason = reason }
                      ∷ []),
                )
                | Validated.accepted key b ↦ λ h. omega (arith, store_weighs key b g.groups, ap w h)
              ]
        (same_id f g)

  group_fills_weighs :
      (fs : List TradeFill) (g : Grouping)
      → weighed (group_fills fs g) ≡ weighed g + sum_of (weight_of_buys w) fs
  unfolding group_fills
  group_fills_weighs [] g = omega arith
  group_fills_weighs (f ∷ fs) g =
      elim f.side
        as (λ s.
          weighed (elim s [
            | TradeSide.buy ↦ group_fills fs (take_buy f g)
            | TradeSide.sell ↦ group_fills fs g
            | TradeSide.other ↦ group_fills fs g
          ])
          ≡ weighed g
            + (elim s [ TradeSide.buy ↦ w f.fill_id | TradeSide.sell ↦ 0 | TradeSide.other ↦ 0 ]
                + sum_of (weight_of_buys w) fs)) [
                  | TradeSide.buy ↦
                      omega (arith, group_fills_weighs fs (take_buy f g), take_buy_weighs f g)
                  | TradeSide.sell ↦ omega (arith, group_fills_weighs fs g)
                  | TradeSide.other ↦ omega (arith, group_fills_weighs fs g)
                ]

  -- A value of episodes that is, for those that are made, the weight of their fills.
  module _ (of_episode : Episode → ℕ)
      (of_made : (key : ℕ × ℕ) (c : Chain)
        → of_episode (make_episode key c) ≡ sum_of weight (fills_of c)) where
    chain_weighs :
        (key : ℕ × ℕ) (cs : List Chain)
        → sum_of of_episode (map (make_episode key) cs) ≡ sum_of weight (joined cs)
    chain_weighs key [] = refl
    chain_weighs key (c ∷ cs) =
        omega
          (arith, chain_weighs key cs, of_made key c, sum_of-append weight (fills_of c) (joined cs))

    group_episodes_weighs :
        (window : ℕ) (gs : Groups)
        → sum_of of_episode (group_episodes window gs) ≡ sum_of group_weight gs
    group_episodes_weighs window [] = refl
    group_episodes_weighs window ((key, group) ∷ rest) =
        let cs = split window (sort fill_le group) in
        omega (
          arith,
          sum_of-append of_episode (map (make_episode key) cs) (group_episodes window rest),
          chain_weighs key cs,
          ap (sum_of weight) (split_partitions window (sort fill_le group)).0,
          sum_of-sort fill_le weight group,
          group_episodes_weighs window rest,
        )

    every_buy_weighed :
        (fills : List TradeFill) (window_ms : ℕ)
        → let r = build_episodes fills window_ms in
          sum_of of_episode r.episodes + sum_of invalid_weight r.invalid_buy_fills
          ≡ sum_of (weight_of_buys w) fills
    unfolding build_episodes
    every_buy_weighed fills window_ms =
        let g : Grouping = group_fills fills no_groups in
        let le = λ (a b : (ℕ × ℕ) × List BuyFill). pair_le a.0 b.0 in
        omega (
          arith,
          sum_of-sort episode_le of_episode (group_episodes window_ms (sort le g.groups)),
          group_episodes_weighs window_ms (sort le g.groups),
          sum_of-sort le group_weight g.groups,
          group_fills_weighs fills no_groups,
        )

sum_of-map :
    {A B : Type 0} (w : B → ℕ) (f : A → B) (xs : List A)
    → sum_of w (map f xs) ≡ sum_of (λ x. w (f x)) xs
sum_of-map w f [] = refl
sum_of-map w f (x ∷ xs) = omega (arith, sum_of-map w f xs)

abbrev pub times_in : ℕ → Episode → ℕ
times_in id e = sum_of (is_id id) e.constituent_fill_ids

-- Every id is as many times among the fills of the episodes and the excluded fills, together, as among the
-- BUY fills; and the fill counts of the episodes and the excluded fills are together as many as the BUY
-- fills.
pub every_buy_counted :
    (fills : List TradeFill) (window_ms id : ℕ)
    → let r = build_episodes fills window_ms in
      (sum_of (times_in id) r.episodes
          + sum_of (λ (x : InvalidFill). is_id id x.fill_id) r.invalid_buy_fills
        ≡ sum_of (weight_of_buys (is_id id)) fills)
      × (sum_of (λ (e : Episode). e.fill_count) r.episodes + length r.invalid_buy_fills
          ≡ sum_of (weight_of_buys any_id) fills)
every_buy_counted fills window_ms id = (
  every_buy_weighed (is_id id) (times_in id)
      (λ key c. sum_of-map (is_id id) (λ (b : BuyFill). b.fill_id) (fills_of c)) fills window_ms,
  omega (
    arith,
    every_buy_weighed any_id (λ e. e.fill_count) (λ key c. length_as_sum (fills_of c)) fills
        window_ms,
    length_as_sum (build_episodes fills window_ms).invalid_buy_fills,
  ),
)
