-- ===== src/Game/Market.antt =====
-- arena_game/market.py: the decision pool and first-come-first-served pairing. A `Datetime` is
-- that of the payments module; quantities and prices are Python integers.
pub mod Pairs
pub mod Returns
pub mod Tests
use adx_agentic_payment.Base.{
  ℕ, suc, String, Bool, true, false, not, ◌||◌, ◌&&◌, Option, none, some, List, [], ◌∷◌, ◌++◌, ltb,
  leb, ◌==◌, nat_eq, string_eq, option_eq, is_none, has_duplicates, any, select, map, if◌then◌else◌,
  Result, ok, err, checks, and_then,
}
use adx_agentic_payment.Base.Int.{ℤ, pos, leb_ℤ, min_ℤ}
pub use adx_agentic_payment.Game.Goods.{GoodId, good_code, good_name, same_good, good_ids}
use adx_agentic_payment.Base.Sort.{sort_by}
use adx_agentic_payment.Base.Text.{text_leb, decimal, joined}
use adx_agentic_payment.Payments.Models.{Datetime, earlier}

pub data MarketSide : Type 0 where
  buy sell : MarketSide

-- `MarketError`, by its messages.
pub data MarketError : Type 0 where
  entered_at_naive quantity_not_positive limit_not_positive : MarketError
  pairing_quantity_not_positive duplicate_entry_ids several_rounds self_trade : MarketError

abbrev pub is_buy : MarketSide → Bool
is_buy MarketSide.buy = true
is_buy MarketSide.sell = false

pub record PoolEntry : Type 0 where
  pub pool_entry_id : String
  pub game_id : String
  pub round_id : String
  pub participant_id : String
  pub side : MarketSide
  pub good : GoodId
  pub entered_at : Datetime
  pub quantity : ℤ
  pub limit_price_atomic : Option ℤ

abbrev bad_limit : Option ℤ → Bool
bad_limit none = false
bad_limit (some p) = leb_ℤ p (pos 0)

-- `PoolEntry.__post_init__`.
abbrev pub entry_guards : PoolEntry → List (Bool × MarketError)
entry_guards e =
    (not e.entered_at.aware, entered_at_naive)
    ∷ (leb_ℤ e.quantity (pos 0), quantity_not_positive)
    ∷ (bad_limit e.limit_price_atomic, limit_not_positive)
    ∷ []

unfoldable pub make_entry : PoolEntry → Result MarketError PoolEntry
make_entry e = and_then (checks (entry_guards e)) (λ _. ok e)

pub record Pairing : Type 0 where
  pub pairing_id : String
  pub game_id : String
  pub round_id : String
  pub good : GoodId
  pub buyer_entry_id : String
  pub seller_entry_id : String
  pub buyer_participant_id : String
  pub seller_participant_id : String
  pub sequence : ℕ
  pub quantity : ℤ
  pub buyer_limit_price_atomic : Option ℤ
  pub seller_limit_price_atomic : Option ℤ

-- `Pairing.__post_init__`.
abbrev pub make_pairing : Pairing → Result MarketError Pairing
make_pairing p = if leb_ℤ p.quantity (pos 0) then err pairing_quantity_not_positive else ok p

abbrev pub overlap : Option ℤ → Option ℤ → Bool
overlap none s = true
overlap (some b) none = true
overlap (some b) (some s) = leb_ℤ s b

-- `_limits_overlap`.
abbrev pub limits_overlap : PoolEntry → PoolEntry → Bool
limits_overlap buyer seller = overlap buyer.limit_price_atomic seller.limit_price_atomic

-- The sort key: the time of entry, then the id.
abbrev pub entered_first : PoolEntry → PoolEntry → Bool
entered_first a b =
    earlier a.entered_at b.entered_at
    || ((a.entered_at.instant == b.entered_at.instant) && text_leb a.pool_entry_id b.pool_entry_id)

abbrev pub of_good : GoodId → Bool → PoolEntry → Bool
of_good good buying e =
    same_good e.good good && (if buying then is_buy e.side else not (is_buy e.side))

-- The entries of one good and side, in order.
abbrev pub queue : GoodId → Bool → List PoolEntry → List PoolEntry
queue good buying entries = sort_by entered_first (select (of_good good buying) entries)

abbrev keep_first :
    PoolEntry → Option (PoolEntry × List PoolEntry) → Option (PoolEntry × List PoolEntry)
keep_first s none = none
keep_first s (some (t, rest)) = some (t, s ∷ rest)

-- The first seller whose limit overlaps, and the others: `next(...)` and `pop`.
pub pop_compatible : PoolEntry → List PoolEntry → Option (PoolEntry × List PoolEntry)
pop_compatible buyer [] = none
pop_compatible buyer (s ∷ rest) =
    let later = keep_first s (pop_compatible buyer rest) in
    if limits_overlap buyer s then some (s, rest) else later

abbrev pub pairing_of : GoodId → PoolEntry → PoolEntry → ℕ → Pairing
pairing_of good buyer seller sequence = record {
  pairing_id =
      joined ("pair" ∷ buyer.game_id ∷ buyer.round_id ∷ good_name good ∷ decimal sequence ∷ []);
  game_id = buyer.game_id;
  round_id = buyer.round_id;
  good = good;
  buyer_entry_id = buyer.pool_entry_id;
  seller_entry_id = seller.pool_entry_id;
  buyer_participant_id = buyer.participant_id;
  seller_participant_id = seller.participant_id;
  sequence = sequence;
  quantity = min_ℤ buyer.quantity seller.quantity;
  buyer_limit_price_atomic = buyer.limit_price_atomic;
  seller_limit_price_atomic = seller.limit_price_atomic;
}

abbrev prefixed :
    List Pairing → Result MarketError (List Pairing) → Result MarketError (List Pairing)
prefixed front r = and_then r (λ rest. ok (front ++ rest))

-- The body of the loop once a seller was found, before the buyers after this one.
abbrev pub pair_one : GoodId → PoolEntry → PoolEntry → ℕ → Result MarketError Pairing
pair_one good buyer seller sequence =
    if buyer.participant_id == seller.participant_id
    then err self_trade
    else make_pairing (pairing_of good buyer seller sequence)

-- The loop over the buyers of a good; the last argument counts the pairings made so far.
pub pair_buyers : GoodId → List PoolEntry → List PoolEntry → ℕ → Result MarketError (List Pairing)
unfolding pop_compatible
pair_buyers good [] sellers made = ok []
pair_buyers good (b ∷ bs) sellers made = elim (pop_compatible b sellers) [
  | none ↦ pair_buyers good bs sellers made
  | some (s, rest) ↦
      and_then (pair_one good b s (suc made))
        (λ p. prefixed (p ∷ []) (pair_buyers good bs rest (suc made)))
]

-- The loop over the goods.
pub pair_goods : List PoolEntry → List GoodId → Result MarketError (List Pairing)
unfolding pair_buyers
pair_goods entries [] = ok []
pair_goods entries (g ∷ gs) =
    and_then (pair_buyers g (queue g true entries) (queue g false entries) 0)
      (λ here. prefixed here (pair_goods entries gs))

-- `len(set(xs)) != 1` for a non-empty list.
abbrev several : List String → Bool
several [] = true
several (x ∷ xs) = any (λ y. not (y == x)) xs

abbrev pub fcfs_guards : List PoolEntry → List (Bool × MarketError)
fcfs_guards entries =
    (has_duplicates (map (λ e. e.pool_entry_id) entries), duplicate_entry_ids)
    ∷ (
      several (map (λ e. e.game_id) entries) || several (map (λ e. e.round_id) entries),
      several_rounds,
    )
    ∷ []

-- `fcfs_pair`.
unfoldable pub fcfs_pair : List PoolEntry → Result MarketError (List Pairing)
unfolding pair_goods
fcfs_pair [] = ok []
fcfs_pair (e ∷ es) = and_then (checks (fcfs_guards (e ∷ es))) (λ _. pair_goods (e ∷ es) good_ids)
