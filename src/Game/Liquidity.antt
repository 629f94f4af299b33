-- ===== src/Game/Liquidity.antt =====
-- arena_game/liquidity.py: what a round's summary tells of the intents. A negative participant
-- count would be rejected, so the count is a natural number; goods and sides are checked by type.
pub mod Capacity
use adx_agentic_payment.Base.{
  ℕ, suc, ◌+◌, ◌*◌, ◌-◌, min, String, Bool, true, false, not, ◌&&◌, List, [], ◌∷◌, map, select,
  length, ltb, has_duplicates, string_eq, Result, ok, err, checks, and_then, if◌then◌else◌,
}
use adx_agentic_payment.Base.Int.{ℤ, pos, leb_ℤ}
use adx_agentic_payment.Base.Sort.{sort_by}
use adx_agentic_payment.Payments.Models.{is_empty}
use adx_agentic_payment.Game.Goods.{GoodId, ByGood, good_ids, same_good}
use adx_agentic_payment.Game.Market.{MarketSide, is_buy}

-- The `ValueError`s, by their messages.
pub data LiquidityError : Type 0 where
  participant_required limit_not_positive several_intents too_many_intents : LiquidityError

pub record LiquidityIntent : Type 0 where
  pub participant_id : String
  pub side : MarketSide
  pub good : GoodId
  pub limit_price_atomic : ℤ

-- `LiquidityIntent.__post_init__`.
unfoldable pub make_intent : LiquidityIntent → Result LiquidityError LiquidityIntent
make_intent i =
    and_then
      (checks (
        (is_empty i.participant_id, participant_required)
        ∷ (leb_ℤ i.limit_price_atomic (pos 0), limit_not_positive)
        ∷ []))
      (λ _. ok i)

pub record GoodLiquiditySummary : Type 0 where
  pub buy_intent_count : ℕ
  pub sell_intent_count : ℕ
  pub opposite_side_capacity : ℕ
  pub price_compatible_capacity : ℕ

pub record RoundLiquiditySummary : Type 0 where
  pub participant_count : ℕ
  pub intent_count : ℕ
  pub pass_count : ℕ
  pub opposite_side_capacity : ℕ
  pub price_compatible_capacity : ℕ
  pub by_good : ByGood GoodLiquiditySummary

-- The loop over the sorted buyers; the sellers are those from `seller_index` on.
abbrev pub match_limits : List ℤ → List ℤ → ℕ
match_limits [] sellers = 0
match_limits (b ∷ bs) [] = match_limits bs []
match_limits (b ∷ bs) (s ∷ ss) =
    let taken = match_limits bs ss in
    let passed = match_limits bs (s ∷ ss) in if leb_ℤ s b then suc taken else passed

-- `_compatible_capacity`.
unfoldable pub compatible_capacity : List ℤ → List ℤ → ℕ
compatible_capacity buyers sellers = match_limits (sort_by leb_ℤ buyers) (sort_by leb_ℤ sellers)

abbrev pub chooses : GoodId → Bool → LiquidityIntent → Bool
chooses good buying i =
    same_good i.good good && (if buying then is_buy i.side else not (is_buy i.side))

abbrev pub limits : GoodId → Bool → List LiquidityIntent → List ℤ
limits good buying intents = map (λ i. i.limit_price_atomic) (select (chooses good buying) intents)

-- The body of the loop over the goods.
unfoldable pub summarize_good : List LiquidityIntent → GoodId → GoodLiquiditySummary
summarize_good intents g = record {
  buy_intent_count = length (limits g true intents);
  sell_intent_count = length (limits g false intents);
  opposite_side_capacity = min (length (limits g true intents)) (length (limits g false intents));
  price_compatible_capacity = compatible_capacity (limits g true intents) (limits g false intents);
}

abbrev pub sum_goods : (GoodLiquiditySummary → ℕ) → ByGood GoodLiquiditySummary → List GoodId → ℕ
sum_goods f by_good [] = 0
sum_goods f by_good (g ∷ gs) = f (by_good g) + sum_goods f by_good gs

abbrev pub summary_guards : ℕ → List LiquidityIntent → List (Bool × LiquidityError)
summary_guards participants intents =
    (has_duplicates (map (λ i. i.participant_id) intents), several_intents)
    ∷ (ltb participants (length intents), too_many_intents)
    ∷ []

abbrev pub summary_of : ℕ → List LiquidityIntent → RoundLiquiditySummary
summary_of participants intents = record {
  participant_count = participants;
  intent_count = length intents;
  pass_count = participants - length intents;
  opposite_side_capacity =
      sum_goods (λ s. s.opposite_side_capacity) (summarize_good intents) good_ids;
  price_compatible_capacity =
      sum_goods (λ s. s.price_compatible_capacity) (summarize_good intents) good_ids;
  by_good = summarize_good intents;
}

-- `summarize_round_liquidity`.
unfoldable pub summarize_round_liquidity :
    ℕ → List LiquidityIntent → Result LiquidityError RoundLiquiditySummary
summarize_round_liquidity participants intents =
    and_then (checks (summary_guards participants intents))
      (λ _. ok (summary_of participants intents))
