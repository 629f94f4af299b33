-- ===== src/Game/Ranking.antt =====
-- arena_game/ranking.py: the order of the agents by net worth at the end. The comparisons of
-- `rank / participant_count` with 0.25 and 0.6 are those of the fractions.
use adx_agentic_payment.Base.{
  ℕ, suc, ◌*◌, String, Bool, ◌||◌, ◌&&◌, List, [], ◌∷◌, length, leb, ◌==◌, nat_eq, Result, ok,
  and_then, if◌then◌else◌,
}
use adx_agentic_payment.Base.Int.{ℤ, ltb_ℤ, int_eq}
use adx_agentic_payment.Base.Sort.{sort_by}
use adx_agentic_payment.Base.Dict.{Dict}
use adx_agentic_payment.Base.Text.{text_leb}
use adx_agentic_payment.Game.Goods.{ByGood}
use adx_agentic_payment.Game.Portfolio.{Portfolio, PortfolioError, net_worth}

pub record RankingEntry : Type 0 where
  pub rank : ℕ
  pub agent_id : String
  pub net_worth_atomic : ℤ
  pub tier : String

abbrev pub promotion_tier : ℕ → ℕ → String
promotion_tier rank count =
    if rank == 1
    then "公爵"
    else if leb (4 * rank) count
    then "御用商人"
    else if leb (5 * rank) (3 * count)
    then "王城行商"
    else "流浪商贩"

-- The sort key: the negated worth, then the id.
abbrev pub richer : String × ℤ → String × ℤ → Bool
richer a b = ltb_ℤ b.1 a.1 || ((a.1 == b.1) && text_leb a.0 b.0)

pub worths : List (String × Portfolio) → ByGood ℤ → Result PortfolioError (List (String × ℤ))
worths [] prices = ok []
worths ((id, p) ∷ rest) prices =
    and_then (net_worth p prices) (λ w. and_then (worths rest prices) (λ ws. ok ((id, w) ∷ ws)))

pub rank_from : ℕ → ℕ → List (String × ℤ) → List RankingEntry
rank_from rank count [] = []
rank_from rank count ((id, w) ∷ rest) =
    record { rank = rank; agent_id = id; net_worth_atomic = w; tier = promotion_tier rank count }
    ∷ rank_from (suc rank) count rest

unfoldable pub calculate_rankings :
    Dict String Portfolio → ByGood ℤ → Result PortfolioError (List RankingEntry)
unfolding worths rank_from
calculate_rankings portfolios prices =
    and_then (worths portfolios.entries prices)
      (λ ws. ok (rank_from 1 (length ws) (sort_by richer ws)))
