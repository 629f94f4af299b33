-- ===== src/Game/Events.antt =====
-- arena_game/events.py: the events of the world and the prices that follow from them.
pub mod Bounds
use adx_agentic_payment.Base.{
  ℕ, suc, zero, ◌+◌, ◌*◌, String, Bool, true, false, not, ◌||◌, ◌&&◌, Option, none, some, List, [],
  ◌∷◌, ◌++◌, select, contains, leb, ltb, ◌==◌, nat_eq, string_eq, is_none, Result, ok, err,
  and_then, checks, if◌then◌else◌, Action, pure, raise, raise_if, gets, modify, lift, or_raise,
  ◌>>=◌, ◌>>◌,
}
use adx_agentic_payment.Base.Int.{ℤ, pos, negsuc, ◌+ℤ◌, ◌*ℤ◌, leb_ℤ, ltb_ℤ, max_ℤ, min_ℤ, floor_div}
use adx_agentic_payment.Base.Dict
use adx_agentic_payment.Base.Dict.{Dict}
use adx_agentic_payment.Game.Goods.{GoodId, ByGood, set_good, good_ids}
use adx_agentic_payment.Game.Money.{MoneyError, apply_basis_points}

-- `EventError` by its messages, and the other exceptions that pass through.
pub data EventError : Type 0 where
  bps_required bps_not_accepted order_fields_required order_fields_not_accepted : EventError
  price_not_positive unknown_event wrong_round already_revealed : EventError
  key_error assertion_error : EventError
  money_error : MoneyError → EventError

pub data EffectKind : Type 0 where
  price_multiply_bps price_reset_to_base supply_index_add_bps : EffectKind
  bubble_add_bps bubble_clear create_royal_order : EffectKind

pub data PriceTarget : Type 0 where
  market final both : PriceTarget

pub record EventEffect : Type 0 where
  pub kind : EffectKind
  pub good : GoodId
  pub target : PriceTarget
  pub basis_points : Option ℤ
  pub order_price_atomic : Option ℤ
  pub order_limit : Option ℤ

abbrev needs_bps : EffectKind → Bool
needs_bps EffectKind.price_multiply_bps = true
needs_bps EffectKind.supply_index_add_bps = true
needs_bps EffectKind.bubble_add_bps = true
needs_bps _ = false

abbrev is_order : EffectKind → Bool
is_order EffectKind.create_royal_order = true
is_order _ = false

abbrev not_positive : Option ℤ → Bool
not_positive none = true
not_positive (some n) = leb_ℤ n (pos 0)

-- `EventEffect.__post_init__`.
abbrev pub effect_guards : EventEffect → List (Bool × EventError)
effect_guards e =
    (needs_bps e.kind && is_none e.basis_points, bps_required)
    ∷ (not (needs_bps e.kind) && not (is_none e.basis_points), bps_not_accepted)
    ∷ (
      is_order e.kind && (not_positive e.order_price_atomic || not_positive e.order_limit),
      order_fields_required,
    )
    ∷ (
      not (is_order e.kind) && (not (is_none e.order_price_atomic) || not (is_none e.order_limit)),
      order_fields_not_accepted,
    )
    ∷ []

unfoldable pub make_effect : EventEffect → Result EventError EventEffect
make_effect e = and_then (checks (effect_guards e)) (λ _. ok e)

pub record WorldEvent : Type 0 where
  pub event_id : String
  pub display_name : String
  pub narrative : String
  pub reveal_round : ℕ
  pub duration_rounds : Option ℕ
  pub effects : List EventEffect

-- `active_in_round`.
abbrev within : Option ℕ → ℕ → ℕ → Bool
within none start round = true
within (some d) start round = ltb round (start + d)

abbrev pub active_in_round : WorldEvent → ℕ → Bool
active_in_round e round =
    if ltb round e.reveal_round then false else within e.duration_rounds e.reveal_round round

pub record RoyalOrder : Type 0 where
  pub event_id : String
  pub good : GoodId
  pub price_atomic : ℤ
  pub quantity_limit : ℤ

-- The dicts and the list that `snapshot` fills.
pub record Prices : Type 0 where
  pub market_prices : ByGood ℤ
  pub final_prices : ByGood ℤ
  pub supply_index_bps : ByGood ℤ
  pub bubble_premium_bps : ByGood ℤ
  pub royal_orders : List RoyalOrder

pub record WorldSnapshot : Type 0 where
  pub round_index : ℕ
  pub prices : Prices
  pub revealed_event_ids : List String

pub record WorldState : Type 0 where
  pub event_catalog : Dict String WorldEvent
  pub base_prices : ByGood ℤ
  pub revealed_event_ids : List String

-- `WorldState.__post_init__`; the keys of the prices are the goods by their type.
abbrev any_not_positive : ByGood ℤ → List GoodId → Bool
any_not_positive prices [] = false
any_not_positive prices (g ∷ gs) = leb_ℤ (prices g) (pos 0) || any_not_positive prices gs

unfoldable pub make_world : Dict String WorldEvent → ByGood ℤ → Result EventError WorldState
make_world catalog prices =
    if any_not_positive prices good_ids
    then err price_not_positive
    else ok (record { event_catalog = catalog; base_prices = prices; revealed_event_ids = [] })

-- `effect.basis_points or 0`.
abbrev bps_of : EventEffect → ℤ
bps_of e = elim e.basis_points [ none ↦ pos 0 | some n ↦ n ]

abbrev pub priced : Result MoneyError ℤ → (ℤ → Prices) → Result EventError Prices
priced (ok x) f = ok (f x)
priced (err e) f = err (money_error e)

abbrev in_market : PriceTarget → Bool
in_market PriceTarget.final = false
in_market _ = true

abbrev in_final : PriceTarget → Bool
in_final PriceTarget.market = false
in_final _ = true

abbrev add_order : String → GoodId → Option ℤ → Option ℤ → Prices → Result EventError Prices
add_order id good (some price) (some limit) p = ok (record p {
  royal_orders =
      p.royal_orders
      ++ record { event_id = id; good = good; price_atomic = price; quantity_limit = limit } ∷ [];
})
add_order id good _ _ p = err assertion_error

-- `_apply_market_effect` for an effect on the market, by its kind.
pub market_effect_by :
    EffectKind → String → EventEffect → ByGood ℤ → Prices → Result EventError Prices
market_effect_by EffectKind.price_multiply_bps id e base p =
    priced (apply_basis_points (p.market_prices e.good) (bps_of e))
      (λ x. record p { market_prices = set_good p.market_prices e.good x })
market_effect_by EffectKind.price_reset_to_base id e base p =
    ok (record p { market_prices = set_good p.market_prices e.good (base e.good) })
market_effect_by EffectKind.supply_index_add_bps id e base p = ok (record p {
  supply_index_bps =
      set_good p.supply_index_bps e.good (max_ℤ (pos 0) (p.supply_index_bps e.good +ℤ bps_of e));
})
market_effect_by EffectKind.bubble_add_bps id e base p = ok (record p {
  bubble_premium_bps =
      set_good p.bubble_premium_bps e.good (p.bubble_premium_bps e.good +ℤ bps_of e);
})
market_effect_by EffectKind.bubble_clear id e base p =
    ok (record p { bubble_premium_bps = set_good p.bubble_premium_bps e.good (pos 0) })
market_effect_by EffectKind.create_royal_order id e base p =
    add_order id e.good e.order_price_atomic e.order_limit p

pub apply_market_effect : String → EventEffect → ByGood ℤ → Prices → Result EventError Prices
unfolding market_effect_by
apply_market_effect id e base p =
    if in_market e.target then market_effect_by e.kind id e base p else ok p

abbrev pub final_effect_by : EffectKind → EventEffect → ByGood ℤ → Prices → Result EventError Prices
final_effect_by EffectKind.price_multiply_bps e base p =
    priced (apply_basis_points (p.final_prices e.good) (bps_of e))
      (λ x. record p { final_prices = set_good p.final_prices e.good x })
final_effect_by EffectKind.price_reset_to_base e base p =
    ok (record p { final_prices = set_good p.final_prices e.good (base e.good) })
final_effect_by _ e base p = ok p

pub apply_final_effect : EventEffect → ByGood ℤ → Prices → Result EventError Prices
apply_final_effect e base p = if in_final e.target then final_effect_by e.kind e base p else ok p

-- The loops over the effects of an event, and over the revealed events.
pub market_effects : String → List EventEffect → ByGood ℤ → Prices → Result EventError Prices
unfolding apply_market_effect
market_effects id [] base p = ok p
market_effects id (e ∷ es) base p =
    and_then (apply_market_effect id e base p) (λ q. market_effects id es base q)

pub final_effects : List EventEffect → ByGood ℤ → Prices → Result EventError Prices
unfolding apply_final_effect
final_effects [] base p = ok p
final_effects (e ∷ es) base p =
    and_then (apply_final_effect e base p) (λ q. final_effects es base q)

pub apply_events : List WorldEvent → ℕ → ByGood ℤ → Prices → Result EventError Prices
unfolding market_effects final_effects
apply_events [] round base p = ok p
apply_events (e ∷ es) round base p =
    and_then (if active_in_round e round then market_effects e.event_id e.effects base p else ok p)
      (λ q. and_then (final_effects e.effects base q) (λ r. apply_events es round base r))

-- The events that were revealed for a round, `self.event_catalog[event_id]` for each id.
pub revealed_by : Dict String WorldEvent → ℕ → List String → Result EventError (List WorldEvent)
revealed_by catalog round [] = ok []
revealed_by catalog round (id ∷ ids) = elim (Dict.get catalog id) [
  | none ↦ err key_error
  | some e ↦
      and_then (revealed_by catalog round ids)
        (λ rest. ok (if leb e.reveal_round round then e ∷ rest else rest))
]

abbrev pub starting : ByGood ℤ → Prices
starting base = record {
  market_prices = base;
  final_prices = base;
  supply_index_bps = λ g. pos 10000;
  bubble_premium_bps = λ g. pos 0;
  royal_orders = [];
}

-- `WorldState.snapshot`, for a round that is not negative.
pub snapshot : WorldState → ℕ → Result EventError WorldSnapshot
unfolding revealed_by apply_events
snapshot w round = and_then (revealed_by w.event_catalog round w.revealed_event_ids) (λ events.
    and_then (apply_events events round w.base_prices (starting w.base_prices)) (λ p.
      ok (record { round_index = round; prices = p; revealed_event_ids = w.revealed_event_ids })))

-- `WorldState.reveal`.
unfoldable pub reveal : String → ℕ → Action WorldState EventError WorldSnapshot
unfolding snapshot
reveal event_id round = do
  event ← or_raise (← gets (λ w. Dict.get w.event_catalog event_id)) unknown_event
  raise_if (not (event.reveal_round == round)) wrong_round
  ids ← gets (λ w. w.revealed_event_ids)
  raise_if (contains ids event_id) already_revealed
  modify (λ w. record w { revealed_event_ids = w.revealed_event_ids ++ event_id ∷ [] })
  λ w. (snapshot w round, w)

-- `max(low, min(high, x))`.
abbrev pub clamp : ℤ → ℤ → ℤ → ℤ
clamp low high x = max_ℤ low (min_ℤ high x)

-- The price that the feedback starts from.
abbrev pub anchor : ℤ → Option ℤ → ℤ
anchor price none = price
anchor price (some last) =
    if ltb_ℤ (pos 0) last then floor_div (price *ℤ pos 3 +ℤ last) 4 else price

abbrev pub pressure_of : Option ℤ → ℤ
pressure_of none = pos 0
pressure_of (some n) = n

abbrev pub pressure_effect : Option ℤ → ℤ
pressure_effect o =
    clamp (negsuc 1999) (pos 2000) (floor_div (clamp (negsuc 9999) (pos 10000) (pressure_of o)) 5)

-- The body of the loop of `apply_market_feedback`.
abbrev pub fed_price : ℤ → Option ℤ → Option ℤ → Result MoneyError ℤ
fed_price price last pressure =
    and_then (apply_basis_points (anchor price last) (pressure_effect pressure))
      (λ x. ok (max_ℤ (pos 1) x))

unfoldable pub feed_goods :
    List GoodId
    → (GoodId → Option ℤ)
    → (GoodId → Option ℤ)
    → ByGood ℤ
    → Result MoneyError (ByGood ℤ)
feed_goods [] last pressure prices = ok prices
feed_goods (g ∷ gs) last pressure prices =
    and_then (fed_price (prices g) (last g) (pressure g))
      (λ x. feed_goods gs last pressure (set_good prices g x))

-- `apply_market_feedback`; the two mappings are read by `get`.
unfoldable pub apply_market_feedback :
    WorldSnapshot → (GoodId → Option ℤ) → (GoodId → Option ℤ) → Result MoneyError WorldSnapshot
unfolding feed_goods
apply_market_feedback s last pressure =
    and_then (feed_goods good_ids last pressure s.prices.market_prices)
      (λ prices. ok (record s { prices = record s.prices { market_prices = prices } }))
