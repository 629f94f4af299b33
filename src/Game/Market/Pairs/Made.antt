-- ===== src/Game/Market/Pairs/Made.antt =====
-- `fcfs_pair`: what a pairing is made of.
use adx_agentic_payment.Base.{
  ℕ, Bool, true, false, some, List, nat_eq, string_eq, option_eq, arith, ◌⊎◌, Option, none, not,
  ◌&&◌, ◌≡◌, ◌≢◌, refl, inl, inr, Bool-cases, some_inj,
}
use adx_agentic_payment.Base.Int.{ℤ, pos, ◌≤ℤ◌, leb_ℤ, ltb_ℤ, min_ℤ}
use mathlib.Core.List.{Mem}
use adx_agentic_payment.Game.Goods.{same_good, same_good_exact}
use adx_agentic_payment.Game.Market.{
  GoodId, MarketSide, PoolEntry, Pairing, limits_overlap, of_good, pairing_of, is_buy, overlap,
}

-- An entry of the pool that is of a good and a side.
pub record Stands (es : List PoolEntry) (good : GoodId) (buying : Bool) (e : PoolEntry)
    : Type 0 where
  pub in_pool : Mem e es
  pub chosen : of_good good buying e ≡ true

-- What a pairing is made of: a buying and a selling entry of the pool, both of its good and of
-- different participants, the seller's limit at most the buyer's where both have one. Its ids and
-- limits are those of the entries, and its quantity, which is positive, is at most that of both and
-- is that of one.
pub record IsPair (es : List PoolEntry) (p : Pairing) : Type 0 where
  pub buyer : PoolEntry
  pub seller : PoolEntry
  pub buyer_in : Mem buyer es
  pub seller_in : Mem seller es
  pub buys : buyer.side ≡ MarketSide.buy
  pub sells : seller.side ≡ MarketSide.sell
  pub buyer_good : buyer.good ≡ p.good
  pub seller_good : seller.good ≡ p.good
  pub distinct : buyer.participant_id ≢ seller.participant_id
  pub affordable :
      (b s : ℤ) → buyer.limit_price_atomic ≡ some b → seller.limit_price_atomic ≡ some s → s ≤ℤ b
  pub game : p.game_id ≡ buyer.game_id
  pub round : p.round_id ≡ buyer.round_id
  pub buyer_entry : p.buyer_entry_id ≡ buyer.pool_entry_id
  pub seller_entry : p.seller_entry_id ≡ seller.pool_entry_id
  pub buyer_participant : p.buyer_participant_id ≡ buyer.participant_id
  pub seller_participant : p.seller_participant_id ≡ seller.participant_id
  pub buyer_limit : p.buyer_limit_price_atomic ≡ buyer.limit_price_atomic
  pub seller_limit : p.seller_limit_price_atomic ≡ seller.limit_price_atomic
  pub positive : pos 1 ≤ℤ p.quantity
  pub within_buyer : p.quantity ≤ℤ buyer.quantity
  pub within_seller : p.quantity ≤ℤ seller.quantity
  pub full : (p.quantity ≡ buyer.quantity) ⊎ (p.quantity ≡ seller.quantity)

side-buy : (s : MarketSide) → is_buy s ≡ true → s ≡ MarketSide.buy
side-buy MarketSide.buy h = refl
side-buy MarketSide.sell h = cc

side-sell : (s : MarketSide) → not (is_buy s) ≡ true → s ≡ MarketSide.sell
side-sell MarketSide.buy h = cc
side-sell MarketSide.sell h = refl

both-hold : (a b : Bool) → (a && b) ≡ true → (a ≡ true) × (b ≡ true)
both-hold true b h = (refl, h)
both-hold false b h = cc

overlap-≤ : (x y : Option ℤ) → overlap x y ≡ true → (b s : ℤ) → x ≡ some b → y ≡ some s → s ≤ℤ b
overlap-≤ none y h b s e f = cc
overlap-≤ (some c) none h b s e f = cc
overlap-≤ (some c) (some t) h b s e f =
    let low : leb_ℤ s b ≡ true = rw (some_inj e, some_inj f) at h in ground (arith, low)

min_full : (a b : ℤ) → (min_ℤ a b ≡ a) ⊎ (min_ℤ a b ≡ b)
min_full a b = elim (Bool-cases (ltb_ℤ b a)) [ inl e ↦ rw e (inr refl) | inr e ↦ rw e (inl refl) ]

min_within : (a b : ℤ) → (min_ℤ a b ≤ℤ a) × (min_ℤ a b ≤ℤ b)
min_within a b = (ground arith, ground arith)

not-positive : (q : ℤ) → leb_ℤ q (pos 0) ≡ false → pos 1 ≤ℤ q
not-positive q h = ground (arith, h)

-- What `pairing_of` makes of two entries that stand in the queues of a good.
pub pairing_of-IsPair :
    (g : GoodId) (es : List PoolEntry) (b s : PoolEntry) (n : ℕ)
    → Stands es g true b
    → Stands es g false s
    → limits_overlap b s ≡ true
    → b.participant_id ≢ s.participant_id
    → leb_ℤ (min_ℤ b.quantity s.quantity) (pos 0) ≡ false
    → IsPair es (pairing_of g b s n)
pairing_of-IsPair g es b s n hb hs fits different some_left =
    let (good_b, side_b) = both-hold (same_good b.good g) (is_buy b.side) hb.chosen in
    let (good_s, side_s) = both-hold (same_good s.good g) (not (is_buy s.side)) hs.chosen in
    let (at_most_b, at_most_s) = min_within b.quantity s.quantity in
    record {
      buyer = b;
      seller = s;
      buyer_in = hb.in_pool;
      seller_in = hs.in_pool;
      buys = side-buy b.side side_b;
      sells = side-sell s.side side_s;
      buyer_good = same_good_exact b.good g good_b;
      seller_good = same_good_exact s.good g good_s;
      distinct = different;
      affordable = overlap-≤ b.limit_price_atomic s.limit_price_atomic fits;
      game = refl;
      round = refl;
      buyer_entry = refl;
      seller_entry = refl;
      buyer_participant = refl;
      seller_participant = refl;
      buyer_limit = refl;
      seller_limit = refl;
      positive = not-positive (min_ℤ b.quantity s.quantity) some_left;
      within_buyer = at_most_b;
      within_seller = at_most_s;
      full = min_full b.quantity s.quantity;
    }
