-- ===== src/Game/Liquidity/Capacity.antt =====
-- The figures of a summary, against each other.
use adx_agentic_payment.Base.{
  ℕ, suc, ◌+◌, ◌*◌, ◌≤◌, Bool, true, false, List, [], ◌∷◌, length, ◌≡◌, refl, ap, ◌∙◌, inl, inr,
  Bool-cases, arith, built, ok,
}
use adx_agentic_payment.Base.Int.{ℤ, leb_ℤ}
use adx_agentic_payment.Base.Sort.{sort_by, insert_by}
use mathlib.Core.Path.{subst}
use adx_agentic_payment.Game.Goods.{GoodId}
use adx_agentic_payment.Game.Market.{MarketSide}
use adx_agentic_payment.Game.Liquidity.{
  LiquidityIntent, RoundLiquiditySummary, match_limits, compatible_capacity, limits, summarize_good,
  summary_guards, summary_of, summarize_round_liquidity,
}

match_limits-bounds :
    (bs ss : List ℤ) → (match_limits bs ss ≤ length bs) × (match_limits bs ss ≤ length ss)
match_limits-bounds [] ss = (omega arith, omega arith)
match_limits-bounds (b ∷ bs) [] = let ih = match_limits-bounds bs [] in (omega (arith, ih.0), ih.1)
match_limits-bounds (b ∷ bs) (s ∷ ss) =
    let taken = match_limits-bounds bs ss in
    let passed = match_limits-bounds bs (s ∷ ss) in
    elim (Bool-cases (leb_ℤ s b)) [
      | inl e ↦ rw e (omega (arith, taken.0), omega (arith, taken.1))
      | inr e ↦ rw e (omega (arith, passed.0), passed.1)
    ]

length-insert : (x : ℤ) (xs : List ℤ) → length (insert_by leb_ℤ x xs) ≡ suc (length xs)
unfolding insert_by
length-insert x [] = refl
length-insert x (y ∷ ys) = elim (Bool-cases (leb_ℤ x y)) [
  | inl e ↦ rw e refl
  | inr e ↦ rw e (ap suc (length-insert x ys))
]

length-sort : (xs : List ℤ) → length (sort_by leb_ℤ xs) ≡ length xs
unfolding sort_by
length-sort [] = refl
length-sort (x ∷ xs) = length-insert x (sort_by leb_ℤ xs) ∙ ap suc (length-sort xs)

capacity-bounds :
    (bs ss : List ℤ)
    → (compatible_capacity bs ss ≤ length bs) × (compatible_capacity bs ss ≤ length ss)
unfolding compatible_capacity
capacity-bounds bs ss =
    let (b, s) = match_limits-bounds (sort_by leb_ℤ bs) (sort_by leb_ℤ ss) in
    (omega (arith, length-sort bs), omega (arith, length-sort ss))

count : GoodId → Bool → List LiquidityIntent → ℕ
count g buying is = length (limits g buying is)

counts-cons :
    (i : LiquidityIntent) (good : GoodId) (side : MarketSide) (is : List LiquidityIntent)
    → i.good ≡ good
    → i.side ≡ side
    → count GoodId.grain true (i ∷ is)
        + count GoodId.grain false (i ∷ is)
        + (count GoodId.iron true (i ∷ is) + count GoodId.iron false (i ∷ is))
        + (count GoodId.warhorse true (i ∷ is)
            + count GoodId.warhorse false (i ∷ is)
            + (count GoodId.gems true (i ∷ is) + count GoodId.gems false (i ∷ is)))
      ≡ 1
        + (count GoodId.grain true is
            + count GoodId.grain false is
            + (count GoodId.iron true is + count GoodId.iron false is)
            + (count GoodId.warhorse true is
                + count GoodId.warhorse false is
                + (count GoodId.gems true is + count GoodId.gems false is)))
unfolding count
counts-cons i GoodId.grain MarketSide.buy is g s = rw (g, s) (omega arith)
counts-cons i GoodId.grain MarketSide.sell is g s = rw (g, s) (omega arith)
counts-cons i GoodId.iron MarketSide.buy is g s = rw (g, s) (omega arith)
counts-cons i GoodId.iron MarketSide.sell is g s = rw (g, s) (omega arith)
counts-cons i GoodId.warhorse MarketSide.buy is g s = rw (g, s) (omega arith)
counts-cons i GoodId.warhorse MarketSide.sell is g s = rw (g, s) (omega arith)
counts-cons i GoodId.gems MarketSide.buy is g s = rw (g, s) (omega arith)
counts-cons i GoodId.gems MarketSide.sell is g s = rw (g, s) (omega arith)

-- Every intent is of one good and one side.
counts_sum :
    (is : List LiquidityIntent)
    → count GoodId.grain true is
        + count GoodId.grain false is
        + (count GoodId.iron true is + count GoodId.iron false is)
        + (count GoodId.warhorse true is
            + count GoodId.warhorse false is
            + (count GoodId.gems true is + count GoodId.gems false is))
      ≡ length is
unfolding count
counts_sum [] = omega arith
counts_sum (i ∷ is) = counts-cons i i.good i.side is refl refl ∙ omega (arith, counts_sum is)

summary_of-consistent :
    (n : ℕ) (is : List LiquidityIntent)
    → ((summary_of n is).price_compatible_capacity ≤ (summary_of n is).opposite_side_capacity)
      × (2 * (summary_of n is).opposite_side_capacity ≤ length is)
unfolding summarize_good count
summary_of-consistent n is =
    let grain = capacity-bounds (limits GoodId.grain true is) (limits GoodId.grain false is) in
    let iron = capacity-bounds (limits GoodId.iron true is) (limits GoodId.iron false is) in
    let warhorse =
      capacity-bounds (limits GoodId.warhorse true is) (limits GoodId.warhorse false is) in
    let gems = capacity-bounds (limits GoodId.gems true is) (limits GoodId.gems false is) in
    (omega arith, omega (arith, counts_sum is))

-- When the summary returns, intents and passes add up to the participants, no more pairs are price
-- compatible than there are opposite intents, and these pairs need no more intents than there are,
-- so the published unmatched count and compatibility gap are not negative.
pub summarize_round_liquidity_consistent :
    (n : ℕ) (is : List LiquidityIntent) (s : RoundLiquiditySummary)
    → summarize_round_liquidity n is ≡ ok s
    → (s.intent_count + s.pass_count ≡ s.participant_count)
      × (s.price_compatible_capacity ≤ s.opposite_side_capacity)
      × (2 * s.opposite_side_capacity ≤ s.intent_count)
unfolding summarize_round_liquidity
summarize_round_liquidity_consistent n is s h =
    let (g, e) = built (summary_guards n is) (summary_of n is) h in
    let room = g.1.0 in
    let (low, high) = summary_of-consistent n is in
    subst
      (λ s.
        (s.intent_count + s.pass_count ≡ s.participant_count)
        × (s.price_compatible_capacity ≤ s.opposite_side_capacity)
        × (2 * s.opposite_side_capacity ≤ s.intent_count))
      e (ground (arith, room), low, high)
