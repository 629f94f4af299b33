-- ===== src/Game/Tests.antt =====
-- Concrete games, prices, portfolios and summaries.
use adx_agentic_payment.Base.{
  ℕ, ◌+◌, ◌*◌, ◌≤◌, String, string_eq, true, Option, none, some, List, [], ◌∷◌, ◌≡◌, refl, ok,
  checks, contains,
}
use adx_agentic_payment.Base.Int.{ℤ, pos, ◌+ℤ◌, ◌*ℤ◌, ◌≤ℤ◌, ◌<ℤ◌}
use adx_agentic_payment.Base.Dict.{Dict}
use adx_agentic_payment.Game.Goods.{GoodId, initial_prices}
use adx_agentic_payment.Game.Market.{MarketSide}
use adx_agentic_payment.Game.Money.{max_gold_atomic, apply_basis_points}
use adx_agentic_payment.Game.Money.Rounding.{apply_basis_points_rounds}
use adx_agentic_payment.Game.Events.{
  EffectKind, PriceTarget, WorldEvent, WorldSnapshot, starting, apply_market_feedback,
}
use adx_agentic_payment.Game.Events.Bounds.{FedFrom, apply_market_feedback_within}
use adx_agentic_payment.Game.Portfolio.{Portfolio, distribute_balanced_portfolios}
use adx_agentic_payment.Game.Portfolio.Worth.{HasTwenty, distribute_balanced_portfolios_worth}
use adx_agentic_payment.Game.Liquidity.{LiquidityIntent, summary_of, summarize_round_liquidity}
use adx_agentic_payment.Game.Liquidity.Capacity.{summarize_round_liquidity_consistent}
use adx_agentic_payment.Game.Rounds.{
  PortfolioMode, GameConfig, PawnhouseGame, RoundPhase, new_game, make_game,
}
use adx_agentic_payment.Game.Rounds.Phases.{
  Op, joins, locks, starts, moves, run, IsOrderly, game-IsOrderly,
}

adjusted_up : apply_basis_points (pos 3) (pos 5000) ≡ ok (pos 5)
unfolding apply_basis_points checks ◌+ℤ◌ ◌*ℤ◌
adjusted_up = refl

apply_basis_points_rounds_example :
    (pos 0 ≤ℤ pos 5)
    × (pos 5 ≤ℤ max_gold_atomic)
    × (pos 10000 *ℤ pos 5 ≤ℤ pos 3 *ℤ (pos 10000 +ℤ pos 5000) +ℤ pos 5000)
    × (pos 3 *ℤ (pos 10000 +ℤ pos 5000) +ℤ pos 5000 <ℤ pos 10000 *ℤ (pos 5 +ℤ pos 1))
apply_basis_points_rounds_example = apply_basis_points_rounds (pos 3) (pos 5000) (pos 5) adjusted_up

abbrev calm : WorldSnapshot
calm = record { round_index = 1; prices = starting (λ g. pos 1000); revealed_event_ids = [] }

abbrev all_buy : GoodId → Option ℤ
all_buy g = some (pos 10000)

abbrev pushed : WorldSnapshot
pushed = record calm {
  prices = record (starting (λ g. pos 1000)) { market_prices = λ g. pos 1200 };
}

abbrev iron_trade : GoodId → Option ℤ
iron_trade GoodId.iron = some (pos 400)
iron_trade _ = none

-- The price of iron starts from 850, that of grain from 1000.
pushed_market :
    (s : WorldSnapshot) × (apply_market_feedback calm iron_trade all_buy ≡ ok s)
    × (s.prices.market_prices GoodId.iron ≡ pos 1020)
    × (s.prices.market_prices GoodId.grain ≡ pos 1200)
unfolding apply_market_feedback apply_basis_points checks ◌+ℤ◌ ◌*ℤ◌
pushed_market = (_, refl, refl, refl)

apply_market_feedback_within_example :
    FedFrom (pos 1000) (some (pos 400)) (pushed_market.0.prices.market_prices GoodId.iron)
apply_market_feedback_within_example =
    apply_market_feedback_within calm pushed_market.0 iron_trade all_buy GoodId.iron pushed_market.1

abbrev agents : List String
agents = "ann" ∷ "bob" ∷ []

abbrev a_digest : String → ℕ
a_digest t = 6

distribute_balanced_portfolios_worth_example :
    (out : Dict String Portfolio) × (distribute_balanced_portfolios a_digest agents "seed"
        initial_prices
      ≡ ok out)
    × ((x : String) → contains agents x ≡ true → HasTwenty out x)
distribute_balanced_portfolios_worth_example =
    distribute_balanced_portfolios_worth a_digest agents "seed" refl

abbrev intents : List LiquidityIntent
intents =
    record {
      participant_id = "ann";
      side = MarketSide.buy;
      good = GoodId.gems;
      limit_price_atomic = pos 7;
    }
    ∷ record {
      participant_id = "bob";
      side = MarketSide.sell;
      good = GoodId.gems;
      limit_price_atomic = pos 4;
    }
    ∷ []

intents_summary : summarize_round_liquidity 3 intents ≡ ok (summary_of 3 intents)
unfolding summarize_round_liquidity checks
intents_summary = refl

summarize_round_liquidity_consistent_example :
    ((summary_of 3 intents).intent_count + (summary_of 3 intents).pass_count
      ≡ (summary_of 3 intents).participant_count)
    × ((summary_of 3 intents).price_compatible_capacity
        ≤ (summary_of 3 intents).opposite_side_capacity)
    × (2 * (summary_of 3 intents).opposite_side_capacity ≤ (summary_of 3 intents).intent_count)
summarize_round_liquidity_consistent_example =
    summarize_round_liquidity_consistent 3 intents (summary_of 3 intents) intents_summary

abbrev config : GameConfig
config = record {
  round_count = 1;
  action_timeout_ms = 90000;
  max_negotiation_turns = 3;
  min_participants = 2;
  max_participants = 16;
  portfolio_mode = PortfolioMode.balanced_auto;
}

abbrev drought : WorldEvent
drought = record {
  event_id = "drought";
  display_name = "Drought";
  narrative = "";
  reveal_round = 1;
  duration_rounds = none;
  effects =
      record {
        kind = EffectKind.price_multiply_bps;
        good = GoodId.grain;
        target = PriceTarget.both;
        basis_points = some (pos 2000);
        order_price_atomic = none;
        order_limit = none;
      }
      ∷ [];
}

abbrev game : PawnhouseGame
game = new_game "g" config (drought ∷ []) "seed"

game_made : make_game "g" config (drought ∷ []) "seed" ≡ ok game
unfolding make_game checks
game_made = refl

abbrev play : List Op
play =
    joins "u1" "ann"
    ∷ joins "u2" "bob"
    ∷ locks
    ∷ starts
    ∷ moves RoundPhase.decide RoundPhase.match
    ∷ []

game-IsOrderly_example : IsOrderly (run a_digest play game)
game-IsOrderly_example =
    game-IsOrderly a_digest "g" config (drought ∷ []) "seed" game play game_made
