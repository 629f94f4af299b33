-- ===== src/Game/AgentMarket/Directory/Offers.antt =====
-- The tests of the loop in `public_directory`, against what an offer is.
use adx_agentic_payment.Base.{
  suc, ◌≤◌, string_eq, Bool, true, false, not, ◌&&◌, ◌≡◌, ◌≢◌, ◌↔◌, ◌==◌, ==_iff, ==_false, ==_refl,
  refl, ap, ◌∙◌, nat_eq, inl, inr, none, List, [], ◌∷◌, select, Option-cases, Bool-cases, arith,
}
use mathlib.Core.Path.{subst}
use mathlib.Core.Logic.Or
use mathlib.Core.List.{Mem, Mem-prop, mem-cons, not-mem-nil}
use adx_agentic_payment.Base.Int.{◌≤ℤ◌, ltb_ℤ}
use adx_agentic_payment.Base.Dict
use adx_agentic_payment.Base.Dict.{Dict}
use adx_agentic_payment.Payments.Models.{Datetime, at_most}
use adx_agentic_payment.Game.Goods.{GoodId, good_code, same_good, same_good_exact}
use adx_agentic_payment.Game.Market.{MarketSide, is_buy}
use adx_agentic_payment.Game.AgentMarket.Terms.{AgentMarketIntent}
use adx_agentic_payment.Game.AgentMarket.State.{AgentDrivenMarket, slot_eq, slot_key, is_reserved}
use adx_agentic_payment.Game.AgentMarket.Publishing.{is_eligible}

-- A stored intent that another participant sells the requester's good by, in its round, that has
-- not expired, that asks no more than the requester's limit, and whose slot nobody has reserved.
pub record Offered (m : AgentDrivenMarket) (requester : AgentMarketIntent) (at : Datetime)
    (i : AgentMarketIntent) : Type 0 where
  pub stored : Mem i (Dict.values m.intents)
  pub sells : i.side ≡ MarketSide.sell
  pub same_game : i.game_id ≡ requester.game_id
  pub same_round : i.round_id ≡ requester.round_id
  pub other : i.participant_id ≢ requester.participant_id
  pub good : i.good ≡ requester.good
  pub unexpired : suc at.instant ≤ i.expires_at.instant
  pub within : i.limit_price_atomic ≤ℤ requester.limit_price_atomic
  pub free : Dict.get m.reserved_slots (slot_key i) ≡ none

pub mem-select :
    {A : Type 0} (p : A → Bool) (a : A) (xs : List A)
    → Mem a (select p xs) ↔ (Mem a xs × (p a ≡ true))
mem-select p a [] = (λ m. absurd (not-mem-nil m), λ h. absurd (not-mem-nil h.0))
mem-select p a (x ∷ xs) = elim (Bool-cases (p x)) [
  | inl e ↦ rw e (
    λ m.
        Or.elim (hlevel (Mem-prop)) (mem-cons.0 m)
          (λ same. (mem-cons.1 (Or.inl same), ap p same ∙ e))
          (λ later. let (u, v) = (mem-select p a xs).0 later in (mem-cons.1 (Or.inr u), v)),
    λ h.
        Or.elim Mem-prop (mem-cons.0 h.0) (λ same. mem-cons.1 (Or.inl same))
          (λ later. mem-cons.1 (Or.inr ((mem-select p a xs).1 (later, h.1)))),
  )
  | inr e ↦ rw e (
    λ m. let (u, v) = (mem-select p a xs).0 m in (mem-cons.1 (Or.inr u), v),
    λ h.
        Or.elim Mem-prop (mem-cons.0 h.0) (λ same. cc (h.1, ap p same, e))
          (λ later. (mem-select p a xs).1 (later, h.1)),
  )
]

and_parts : (a b : Bool) → (a && b) ≡ true → (a ≡ true) × (b ≡ true)
and_parts true b h = (refl, h)
and_parts false b h = cc

not-true : (b : Bool) → not b ≡ true → b ≡ false
not-true true h = cc
not-true false h = refl

sells_side : (s : MarketSide) → is_buy s ≡ false → s ≡ MarketSide.sell
sells_side MarketSide.buy h = cc
sells_side MarketSide.sell h = refl

same_good_refl : (g : GoodId) → same_good g g ≡ true
same_good_refl g = ==_refl (good_code g)

module _ (m : AgentDrivenMarket) (requester : AgentMarketIntent) (at : Datetime) where
  -- The tests hold of the offers.
  Offered-is_eligible :
      (i : AgentMarketIntent) → Offered m requester at i → is_eligible m requester at i ≡ true
  Offered-is_eligible i o =
      let side : is_buy i.side ≡ false = ap is_buy o.sells in
      let game = (==_iff i.game_id requester.game_id).1 o.same_game in
      let round = (==_iff i.round_id requester.round_id).1 o.same_round in
      let other = ==_false i.participant_id requester.participant_id o.other in
      let good : same_good i.good requester.good ≡ true =
        subst (λ g. same_good i.good g ≡ true) o.good (same_good_refl i.good) in
      let alive : at_most i.expires_at at ≡ false = ground (arith, o.unexpired) in
      let price : ltb_ℤ requester.limit_price_atomic i.limit_price_atomic ≡ false =
        ground (arith, o.within) in
      rw (side, game, round, other, good, alive, price, o.free) refl

  eligible-free :
      (i : AgentMarketIntent)
      → is_reserved m i ≡ false
      → Dict.get m.reserved_slots (slot_key i) ≡ none
  eligible-free i h = elim (Option-cases (Dict.get m.reserved_slots (slot_key i))) [
    | inl none_ ↦ none_
    | inr (k, there) ↦ cc (rw there at h)
  ]

  -- What passes the tests is an offer, when it is stored.
  is_eligible-Offered :
      (i : AgentMarketIntent)
      → Mem i (Dict.values m.intents)
      → is_eligible m requester at i ≡ true
      → Offered m requester at i
  is_eligible-Offered i stored h =
      let (side, h1) = and_parts (not (is_buy i.side)) _ h in
      let (game, h2) = and_parts (i.game_id == requester.game_id) _ h1 in
      let (round, h3) = and_parts (i.round_id == requester.round_id) _ h2 in
      let (other, h4) = and_parts (not (i.participant_id == requester.participant_id)) _ h3 in
      let (good, h5) = and_parts (same_good i.good requester.good) _ h4 in
      let (alive, h6) = and_parts (not (at_most i.expires_at at)) _ h5 in
      let (price, free) =
        and_parts (not (ltb_ℤ requester.limit_price_atomic i.limit_price_atomic)) _ h6 in
      record {
        stored = stored;
        sells = sells_side i.side (not-true (is_buy i.side) side);
        same_game = (==_iff i.game_id requester.game_id).0 game;
        same_round = (==_iff i.round_id requester.round_id).0 round;
        other = λ e. cc (other, (==_iff i.participant_id requester.participant_id).1 e);
        good = same_good_exact i.good requester.good good;
        unexpired = ground (arith, alive);
        within = ground (arith, price);
        free = eligible-free i (not-true (is_reserved m i) free);
      }

  pub mem_eligible_iff :
      (i : AgentMarketIntent)
      → Mem i (select (is_eligible m requester at) (Dict.values m.intents))
        ↔ Offered m requester at i
  mem_eligible_iff i =
      let chosen = mem-select (is_eligible m requester at) i (Dict.values m.intents) in
      (
        λ h. let (there, fits) = chosen.0 h in is_eligible-Offered i there fits,
        λ o. chosen.1 (o.stored, Offered-is_eligible i o),
      )
