-- ===== src/Game/AgentMarket/Calls/Promises.antt =====
-- What the market promises after any calls: fair deals, one engagement for each reserved slot, records
-- that stay, and calls that either have their effect or leave the market as it was.
use adx_agentic_payment.Base.{
  ℕ, nat_eq, String, string_eq, Bool, true, false, ◌≡◌, ◌≢◌, ◌↔◌, refl, sym, ap, ◌∙◌, ◌⊎◌, inl, inr,
  some, List, [], ◌∷◌, ok, err, ◌==◌, ==_iff, ◌||◌, not, some_inj, err_inj, arith,
}
use mathlib.Core.Path.{subst}
use adx_agentic_payment.Base.Int.{ℤ, pos, ◌≤ℤ◌, leb_ℤ, ltb_ℤ}
use adx_agentic_payment.Base.Dict
use adx_agentic_payment.Base.Dict.{Dict}
use adx_agentic_payment.Base.Text.{joined}
use adx_agentic_payment.Game.Goods.{GoodId, same_good, same_good_exact}
use adx_agentic_payment.Game.AgentMarket.Terms.{
  AgentMarketError, counterparty_busy, is_key_error, AgentMarketIntent, AgentMarketDeal,
  RequestRecord,
}
use adx_agentic_payment.Game.AgentMarket.State.{
  Slot, ActionKind, AgentDrivenMarket, make_market, slot_eq,
}
use adx_agentic_payment.Game.AgentMarket.Publishing.{is_pending}
use adx_agentic_payment.Game.AgentMarket.Engaging.{with_request_status, mark_busy, slot_engagement}
use adx_agentic_payment.Game.AgentMarket.Claims.{Keeps}
use adx_agentic_payment.Game.AgentMarket.Steps.{Outcome, claim_of}
use adx_agentic_payment.Game.AgentMarket.Stored.{Stored, Dealt}
use adx_agentic_payment.Game.AgentMarket.Slots.{Occupied}
use adx_agentic_payment.Game.AgentMarket.Calls.{
  Op, call, run, call-Outcome, run-IsSound, run-Grows, made-IsSound,
}

-- A deal of one unit between two different participants of one round, who published intents for its
-- good, at a positive price within both private limits.
pub record IsFair (m : AgentDrivenMarket) (d : AgentMarketDeal) : Type 0 where
  pub buyer : AgentMarketIntent
  pub seller : AgentMarketIntent
  pub published :
      (Dict.get m.intents buyer.intent_id ≡ some buyer)
      × (Dict.get m.intents seller.intent_id ≡ some seller)
  pub parties :
      (d.buyer_participant_id ≡ buyer.participant_id)
      × (d.seller_participant_id ≡ seller.participant_id)
  pub apart : buyer.participant_id ≢ seller.participant_id
  pub one_round : (buyer.game_id ≡ seller.game_id) × (buyer.round_id ≡ seller.round_id)
  pub goods : (d.good ≡ buyer.good) × (d.good ≡ seller.good)
  pub quantity : d.quantity ≡ pos 1
  pub positive : pos 1 ≤ℤ d.unit_price_atomic
  pub floor : seller.limit_price_atomic ≤ℤ d.unit_price_atomic
  pub ceiling : d.unit_price_atomic ≤ℤ buyer.limit_price_atomic

fair_price :
    (p b s : ℤ)
    → (leb_ℤ p (pos 0) || (ltb_ℤ b p || ltb_ℤ p s)) ≡ false
    → (pos 1 ≤ℤ p) × (s ≤ℤ p) × (p ≤ℤ b)
fair_price p b s h = (ground (arith, h), ground (arith, h), ground (arith, h))

negated : (a b : String) → not (a == b) ≡ false → a ≡ b
negated a b h = ground (arith, ==_iff a b)

different : (a b : String) → (a == b) ≡ false → a ≢ b
different a b h e = cc (h, (==_iff a b).1 e)

no_difference : (a b c d : String) → (not (a == b) || not (c == d)) ≡ false → (a ≡ b) × (c ≡ d)
no_difference a b c d h =
    (ground (arith, ==_iff a b, ==_iff c d), ground (arith, ==_iff a b, ==_iff c d))

first_holds : (b c : Bool) → (not b || c) ≡ false → b ≡ true
first_holds b c h = ground arith

good_of_guard : (a b : GoodId) (c : Bool) → (not (same_good a b) || c) ≡ false → a ≡ b
good_of_guard a b c h = same_good_exact a b (first_holds (same_good a b) c h)

Dealt-IsFair :
    (m : AgentDrivenMarket) (k : String) (d : AgentMarketDeal)
    → Stored m m
    → Dealt m k d
    → IsFair m d
Dealt-IsFair m k d h dealt =
    let g = h.engaged d.engagement_id dealt.engagement dealt.has_engagement in
    let p = g.pairing in
    let same_b : dealt.buyer ≡ p.buyer = some_inj (sym dealt.has_buyer ∙ p.has_buyer) in
    let same_s : dealt.seller ≡ p.seller = some_inj (sym dealt.has_seller ∙ p.has_seller) in
    let t = dealt.terms in
    let price =
      fair_price d.unit_price_atomic p.buyer.limit_price_atomic p.seller.limit_price_atomic (
        subst
          (λ s.
            (leb_ℤ d.unit_price_atomic (pos 0)
              || (ltb_ℤ p.buyer.limit_price_atomic d.unit_price_atomic
                  || ltb_ℤ d.unit_price_atomic s.limit_price_atomic))
            ≡ false)
          same_s
          (subst
            (λ b.
              (leb_ℤ d.unit_price_atomic (pos 0)
                || (ltb_ℤ b.limit_price_atomic d.unit_price_atomic
                    || ltb_ℤ d.unit_price_atomic dealt.seller.limit_price_atomic))
              ≡ false)
            same_b dealt.within)) in
    let b_id = (h.intents dealt.engagement.buyer_intent_id p.buyer p.has_buyer).0 in
    let s_id = (h.intents dealt.engagement.seller_intent_id p.seller p.has_seller).0 in
    let goods = good_of_guard p.buyer.good p.seller.good _ p.fit.1.1.1.0 in
    let own = t.3 ∙ g.same_good in
    record {
      buyer = p.buyer;
      seller = p.seller;
      published =
          (ap (Dict.get m.intents) b_id ∙ p.has_buyer, ap (Dict.get m.intents) s_id ∙ p.has_seller);
      parties = (t.1 ∙ g.buyer_side, t.2 ∙ g.seller_side);
      apart = different p.buyer.participant_id p.seller.participant_id p.fit.1.0;
      one_round =
          no_difference p.buyer.game_id p.seller.game_id p.buyer.round_id p.seller.round_id
            p.fit.1.1.0;
      goods = (own, own ∙ goods);
      quantity = t.4;
      positive = price.0;
      floor = price.1;
      ceiling = price.2;
    }

module _ (budget : ℕ) (m : AgentDrivenMarket) (ops : List Op) where
  -- Every deal of a new market after any calls is fair: one unit between two different participants of
  -- one round who published intents for its good, at a positive price within both private limits.
  pub deal-IsFair :
      (k : String) (d : AgentMarketDeal)
      → make_market budget ≡ ok m
      → Dict.get (run ops m).deals k ≡ some d
      → IsFair (run ops m) d
  deal-IsFair k d made there =
      let h = (run-IsSound ops m (made-IsSound budget m made)).stored in
      Dealt-IsFair (run ops m) k d h (h.deals k d there)

  -- After any calls on a new market, `slot_engagement` finds an engagement for a slot exactly when that
  -- engagement is live and the slot is its buyer's or its seller's.
  pub slot_engagement_iff :
      (s : Slot) (k : String)
      → make_market budget ≡ ok m
      → (slot_engagement s (run ops m) ≡ some k) ↔ Occupied (run ops m) s k
  unfolding slot_engagement
  slot_engagement_iff s k made =
      let a = (run-IsSound ops m (made-IsSound budget m made)).slots in
      (a.occupied s k, a.reserved s k)

  -- After any calls on a new market, two live engagements with a slot in common are the same one: no
  -- participant is in two negotiations of a round at once.
  pub no_double_booking :
      (s : Slot) (j k : String)
      → make_market budget ≡ ok m
      → Occupied (run ops m) s j
      → Occupied (run ops m) s k
      → j ≡ k
  no_double_booking s j k made o p =
      let a = (run-IsSound ops m (made-IsSound budget m made)).slots in
      some_inj (sym (a.reserved s j o) ∙ a.reserved s k p)

  -- After any calls on a new market, further calls keep every stored intent, every deal and every claim
  -- on a result exactly as it is.
  pub records_kept :
      (more : List Op)
      → make_market budget ≡ ok m
      → Keeps (run ops m).intents (run more (run ops m)).intents
        × Keeps (run ops m).deals (run more (run ops m)).deals
        × Keeps (run ops m).result_claims (run more (run ops m)).result_claims
  records_kept more made =
      let g = run-Grows more (run ops m) (run-IsSound ops m (made-IsSound budget m made)) in
      (g.intents, g.deals, g.claims)

  -- After any calls on a new market, two deals with the same acceptance result are the same deal.
  pub one_deal_per_acceptance :
      (j k : String) (d e : AgentMarketDeal)
      → make_market budget ≡ ok m
      → Dict.get (run ops m).deals j ≡ some d
      → Dict.get (run ops m).deals k ≡ some e
      → d.acceptance_result_id ≡ e.acceptance_result_id
      → (j ≡ k) × (d ≡ e)
  one_deal_per_acceptance j k d e made has_d has_e same =
      let h = (run-IsSound ops m (made-IsSound budget m made)).stored in
      let x = h.deals j d has_d in
      let y = h.deals k e has_e in
      let claims : some (claim_of ActionKind.acceptance d.engagement_id)
          ≡ some (claim_of ActionKind.acceptance e.engagement_id) =
        sym x.claimed ∙ ap (Dict.get (run ops m).result_claims) same ∙ y.claimed in
      let ids = ap (λ c. c.action_id) (some_inj claims) in
      let keys : j ≡ k =
        x.of_engagement ∙ ap (λ i. joined ("deal" ∷ i ∷ [])) ids ∙ sym y.of_engagement in
      (keys, some_inj (sym has_d ∙ ap (Dict.get (run ops m).deals) keys ∙ has_e))

  -- A call that raises after any calls on a new market does not raise a `KeyError`, and it leaves the market
  -- as it was, except that a busy counterparty is written down as the status of one pending request.
  pub raising_call :
      (op : Op) (e : AgentMarketError)
      → make_market budget ≡ ok m
      → (call op (run ops m)).0 ≡ err e
      → (is_key_error e ≡ false)
        × (((call op (run ops m)).1 ≡ run ops m)
            ⊎ ((e ≡ counterparty_busy)
                × ((id : String) × (r : RequestRecord) × (Dict.get (run ops m).requests id ≡ some r)
                    × (is_pending r.status ≡ true)
                    × ((call op (run ops m)).1
                        ≡ with_request_status id (mark_busy r) (run ops m)))))
  raising_call op e made raised =
      elim (call-Outcome (run ops m) (run-IsSound ops m (made-IsSound budget m made)) op) [
        | Outcome.returned a q ↦ cc (ap (λ r. r.0) q, raised)
        | Outcome.stepped a m' s q ↦ cc (ap (λ r. r.0) q, raised)
        | Outcome.refused x k q ↦ (
          subst (λ y. is_key_error y ≡ false)
              (err_inj {A = Unit {0}} (sym (ap (λ r. r.0) q) ∙ raised)) k,
          inl (ap (λ r. r.1) q),
        )
        | Outcome.busied id r there waits q ↦
            let eq = err_inj {A = Unit {0}} (sym (ap (λ r. r.0) q) ∙ raised) in
            (
              subst (λ y. is_key_error y ≡ false) eq refl,
              inr (sym eq, (id, r, there, waits, ap (λ x. x.1) q)),
            )
      ]
