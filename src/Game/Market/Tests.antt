-- ===== src/Game/Market/Tests.antt =====
-- A pool of a buyer and two sellers of grain.
use adx_agentic_payment.Base.{
  Bool, ◌==◌, string_eq, ℕ, true, ◌≤◌, String, some, List, [], ◌∷◌, ◌≡◌, refl, ok, All, checks,
}
use adx_agentic_payment.Base.Int.{ℤ, pos}
use adx_agentic_payment.Base.Sort.{insert_by, sort_by}
use adx_agentic_payment.Game.Market.{Pairing, GoodId, MarketSide, PoolEntry, pairing_of, fcfs_pair}
use adx_agentic_payment.Game.Market.Returns.{fcfs_pair_returns}
use adx_agentic_payment.Game.Market.Pairs.Made.{IsPair}
use adx_agentic_payment.Game.Market.Pairs.{uses_of, fcfs_pair-IsPair, fcfs_pair_once}

abbrev entry : String → String → MarketSide → ℕ → ℤ → PoolEntry
entry id owner side time limit = record {
  pool_entry_id = id;
  game_id = "g";
  round_id = "r";
  participant_id = owner;
  side = side;
  good = GoodId.grain;
  entered_at = record { instant = time; aware = true };
  quantity = pos 1;
  limit_price_atomic = some limit;
}

abbrev bid : PoolEntry
bid = entry "b" "ann" MarketSide.buy 3 (pos 5)

abbrev ask_dear : PoolEntry
ask_dear = entry "s1" "bob" MarketSide.sell 1 (pos 9)

abbrev ask_cheap : PoolEntry
ask_cheap = entry "s2" "cat" MarketSide.sell 2 (pos 4)

abbrev pool : List PoolEntry
pool = bid ∷ ask_dear ∷ ask_cheap ∷ []

-- The first seller asks too much: the second is paired.
pool_paired : fcfs_pair pool ≡ ok (pairing_of GoodId.grain bid ask_cheap 1 ∷ [])
unfolding fcfs_pair checks insert_by sort_by
pool_paired = refl

fcfs_pair-IsPair_example : All (IsPair pool) (pairing_of GoodId.grain bid ask_cheap 1 ∷ [])
fcfs_pair-IsPair_example =
    fcfs_pair-IsPair pool (pairing_of GoodId.grain bid ask_cheap 1 ∷ []) pool_paired

fcfs_pair_once_example : uses_of "s2" (pairing_of GoodId.grain bid ask_cheap 1 ∷ []) ≤ 1
fcfs_pair_once_example =
    fcfs_pair_once pool (pairing_of GoodId.grain bid ask_cheap 1 ∷ []) "s2" pool_paired

abbrev buyers_role : String → Bool
buyers_role id = id == "ann"

fcfs_pair_returns_example : (ps : List Pairing) × (fcfs_pair pool ≡ ok ps)
fcfs_pair_returns_example =
    fcfs_pair_returns buyers_role pool (refl, (refl, tt))
      ((refl, refl), ((refl, refl), ((refl, refl), tt)))
