-- ===== src/Game/Portfolio.antt =====
-- arena_game/portfolio.py: cash and holdings, and their value. Holdings are a dict whose keys a
-- caller chooses; prices have exactly the four goods as keys.
pub mod Worth
use adx_agentic_payment.Base.{
  ℕ, suc, ◌%◌, String, Bool, true, not, ◌||◌, Option, none, some, List, [], ◌∷◌, map, any, contains,
  has_duplicates, get_elem?, ◌==◌, string_eq, Result, ok, err, and_then, if◌then◌else◌,
}
use adx_agentic_payment.Base.Int.{ℤ, pos, ◌+ℤ◌, ◌-ℤ◌, ◌*ℤ◌, ltb_ℤ, int_eq}
use adx_agentic_payment.Base.Dict
use adx_agentic_payment.Base.Dict.{Dict}
use adx_agentic_payment.Base.Text.{joined, decimal, is_blank}
use adx_agentic_payment.Game.Goods.{GoodId, ByGood, good_ids, good_name, initial_prices}

-- `PortfolioError`, by its messages.
pub data PortfolioError : Type 0 where
  duplicate_agents unknown_goods quantity_range negative_cash not_twenty_gold : PortfolioError
  game_id_required agent_id_required missing_portfolio : PortfolioError

-- `INITIAL_NET_WORTH_ATOMIC`.
abbrev pub initial_net_worth_atomic : ℤ
initial_net_worth_atomic = pos 20000000

abbrev pub Holdings : Type 0
Holdings = Dict String ℤ

pub record Portfolio : Type 0 where
  pub cash_atomic : ℤ
  pub holdings : Holdings

abbrev unknown_keys : List (String × ℤ) → Bool
unknown_keys entries = any (λ e. not (contains (map good_name good_ids) e.0)) entries

-- `values.get(good_id, 0)`.
abbrev pub held_of : Holdings → GoodId → ℤ
held_of values g = elim (Dict.get values (good_name g)) [ none ↦ pos 0 | some q ↦ q ]

abbrev pub bad_quantity : ℤ → Bool
bad_quantity q = ltb_ℤ q (pos 0) || ltb_ℤ (pos 1000000) q

-- The loop of `normalize_holdings`.
pub normalize_goods : Holdings → List GoodId → Holdings → Result PortfolioError Holdings
normalize_goods values [] normalized = ok normalized
normalize_goods values (g ∷ gs) normalized =
    let rest = normalize_goods values gs (Dict.put normalized (good_name g) (held_of values g)) in
    if bad_quantity (held_of values g) then err quantity_range else rest

pub normalize_holdings : Holdings → Result PortfolioError Holdings
unfolding normalize_goods
normalize_holdings values =
    let normalized = normalize_goods values good_ids Dict.empty in
    if unknown_keys values.entries then err unknown_goods else normalized

-- `sum(normalized[good_id] * prices[good_id] for good_id in GOOD_IDS)`.
abbrev pub worth : Holdings → ByGood ℤ → List GoodId → ℤ
worth values prices [] = pos 0
worth values prices (g ∷ gs) = held_of values g *ℤ prices g +ℤ worth values prices gs

pub portfolio_value : ℤ → Holdings → ByGood ℤ → Result PortfolioError ℤ
unfolding normalize_holdings
portfolio_value cash holdings prices =
    if ltb_ℤ cash (pos 0)
    then err negative_cash
    else and_then (normalize_holdings holdings)
        (λ normalized. ok (cash +ℤ worth normalized prices good_ids))

-- `Portfolio.initial`.
pub initial : ℤ → Holdings → ByGood ℤ → Result PortfolioError Portfolio
unfolding normalize_holdings portfolio_value
initial cash holdings prices = and_then (normalize_holdings holdings) (λ normalized.
    and_then (portfolio_value cash normalized prices) (λ value.
      if value == initial_net_worth_atomic
      then ok (record { cash_atomic = cash; holdings = normalized })
      else err not_twenty_gold))

pub net_worth : Portfolio → ByGood ℤ → Result PortfolioError ℤ
unfolding portfolio_value
net_worth p prices = portfolio_value p.cash_atomic p.holdings prices

abbrev good_at : ℕ → GoodId
good_at n = elim (get_elem? good_ids n) [ none ↦ GoodId.grain | some g ↦ g ]

abbrev one_unit : GoodId → Holdings
one_unit good =
    Dict.put (record { entries = map (λ g. (good_name g, pos 0)) good_ids }) (good_name good)
      (pos 1)

-- `digest t` is the number that the first four bytes of the SHA-256 digest of `t` make.
module _ (digest : String → ℕ) where
  abbrev pub seeded_good : String → String → ℕ → GoodId
  seeded_good seed agent_id index =
      good_at (digest (joined (seed ∷ agent_id ∷ decimal index ∷ [])) % 4)

  -- The loop, from an index on.
  pub distribute_from :
      List String
      → ℕ
      → String
      → ByGood ℤ
      → Dict String Portfolio
      → Result PortfolioError (Dict String Portfolio)
  unfolding initial
  distribute_from [] index seed prices done = ok done
  distribute_from (a ∷ rest) index seed prices done =
      let good = seeded_good seed a index in
      and_then (initial (initial_net_worth_atomic -ℤ prices good) (one_unit good) prices)
        (λ p. distribute_from rest (suc index) seed prices (Dict.put done a p))

  pub distribute_balanced_portfolios :
      List String → String → ByGood ℤ → Result PortfolioError (Dict String Portfolio)
  unfolding distribute_from
  distribute_balanced_portfolios agent_ids seed prices =
      let all = distribute_from agent_ids 0 seed prices Dict.empty in
      if has_duplicates agent_ids then err duplicate_agents else all
