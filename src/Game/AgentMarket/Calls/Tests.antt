-- ===== src/Game/AgentMarket/Calls/Tests.antt =====
-- A market with a buyer and a seller who make a deal.
use adx_agentic_payment.Base.{
  ℕ, String, string_eq, option_eq, nat_eq, true, false, ◌≡◌, ◌↔◌, refl, ◌⊎◌, none, some, List, [],
  ◌∷◌, ok, err, checks, length, ◌≤◌,
}
use adx_agentic_payment.Base.Int.{pos}
use adx_agentic_payment.Base.Dict
use adx_agentic_payment.Base.Dict.{Dict}
use adx_agentic_payment.Base.Text.{is_blank}
use adx_agentic_payment.Payments.Models.{Datetime}
use adx_agentic_payment.Game.Goods.{GoodId}
use adx_agentic_payment.Game.Market.{MarketSide}
use adx_agentic_payment.Game.AgentMarket.Terms.{
  not_pending, counterparty_busy, is_key_error, RequestRecord, AgentMarketEngagement,
  AgentMarketIntent, AgentNegotiationRequest, AgentMarketDeal, make_intent, make_request,
}
use adx_agentic_payment.Game.AgentMarket.State.{
  AgentDrivenMarket, Slot, slot_eq, new_market, make_market, claim_results, Claim-discrete,
}
use adx_agentic_payment.Game.AgentMarket.Publishing.{
  publish_intent, publish_by, publish_unseen, publish_new, is_pending, targets_of, submit_requests,
  submit_by, submit_new,
}
use adx_agentic_payment.Game.AgentMarket.Engaging.{
  ClosingStatus, Terms, close_as, close_engagement, engagement_of, slot_engagement,
  with_request_status, mark_busy, engage_request, engage_by, engage_new, engage_free, freeze_deal,
  freeze_by, freeze_new,
}
use adx_agentic_payment.Game.AgentMarket.Claims.{Keeps}
use adx_agentic_payment.Game.AgentMarket.Slots.{Occupied}
use adx_agentic_payment.Game.AgentMarket.Calls.{Op, call, apply, run}
use adx_agentic_payment.Game.AgentMarket.Calls.Promises.{
  IsFair, deal-IsFair, slot_engagement_iff, no_double_booking, records_kept,
  one_deal_per_acceptance, raising_call,
}
use adx_agentic_payment.Base.Sort.{sort_by, insert_by}
use adx_agentic_payment.Game.AgentMarket.Publishing.{public_directory}
use adx_agentic_payment.Game.AgentMarket.Directory.{Directory, public_directory_lists}
use adx_agentic_payment.Game.AgentMarket.Calls.Budget.{requests_of, OneUnresolved, rfq_budget}
use adx_agentic_payment.Game.AgentMarket.Calls.Release.{timeout_frees_slots}

abbrev at : ℕ → Datetime
at n = record { instant = n; aware = true }

abbrev bid : AgentMarketIntent
bid = record {
  intent_id = "b";
  source_result_id = "r1";
  game_id = "g";
  round_id = "1";
  participant_id = "ann";
  agent_id = "agent-a";
  display_name = "Ann";
  side = MarketSide.buy;
  good = GoodId.gems;
  public_price_atomic = pos 4;
  limit_price_atomic = pos 7;
  expires_at = at 9;
  public_message = none;
  failed_negotiations = pos 0;
  quantity = pos 1;
}

abbrev ask : AgentMarketIntent
ask = record bid {
  intent_id = "s";
  source_result_id = "r2";
  participant_id = "bob";
  agent_id = "agent-b";
  display_name = "Bob";
  side = MarketSide.sell;
  public_price_atomic = pos 6;
  limit_price_atomic = pos 5;
}

abbrev offer : AgentNegotiationRequest
offer = record {
  request_id = "q";
  source_result_id = "r3";
  buyer_intent_id = "b";
  seller_intent_id = "s";
  opening_price_atomic = pos 6;
  public_message = "gems?";
  created_at = at 2;
}

abbrev engaged : List Op
engaged =
    Op.publishes bid ∷ Op.publishes ask ∷ Op.submits (offer ∷ []) ∷ Op.engages "bob" "q" "r4" ∷ []

abbrev acceptance : Terms
acceptance = record {
  engagement_id = "engagement:q";
  latest_proposal_result_id = "r3";
  latest_proposal_actor_id = "ann";
  acceptance_result_id = "r5";
  accepted_by_participant_id = "bob";
  unit_price_atomic = pos 6;
}

abbrev agreed : List Op
agreed =
    Op.publishes bid
    ∷ Op.publishes ask
    ∷ Op.submits (offer ∷ [])
    ∷ Op.engages "bob" "q" "r4"
    ∷ Op.freezes acceptance
    ∷ []

abbrev deal : AgentMarketDeal
deal = record {
  deal_id = "deal:engagement:q";
  engagement_id = "engagement:q";
  request_id = "q";
  buyer_participant_id = "ann";
  seller_participant_id = "bob";
  good = GoodId.gems;
  quantity = pos 1;
  unit_price_atomic = pos 6;
  latest_proposal_result_id = "r3";
  acceptance_result_id = "r5";
  accepted_by_participant_id = "bob";
}

market_made : make_market 3 ≡ ok (new_market 3)
unfolding make_market
market_made = refl

deal_there : Dict.get (run agreed (new_market 3)).deals "deal:engagement:q" ≡ some deal
unfolding Dict.get Dict.find_in Dict.put run apply call make_intent checks publish_intent publish_by
    publish_unseen publish_new claim_results Claim-discrete make_request submit_requests submit_by
    submit_new engage_request engage_by engage_new engage_free freeze_deal freeze_by freeze_new
    is_blank
deal_there = refl

deal-IsFair_example : IsFair (run agreed (new_market 3)) deal
deal-IsFair_example =
    deal-IsFair 3 (new_market 3) agreed "deal:engagement:q" deal market_made deal_there

abbrev ann_slot : Slot
ann_slot = record { game_id = "g"; round_id = "1"; participant_id = "ann" }

slot_engagement_iff_example :
    (slot_engagement ann_slot (run agreed (new_market 3)) ≡ some "engagement:q")
    ↔ Occupied (run agreed (new_market 3)) ann_slot "engagement:q"
slot_engagement_iff_example =
    slot_engagement_iff 3 (new_market 3) agreed ann_slot "engagement:q" market_made

ann_reserved : slot_engagement ann_slot (run agreed (new_market 3)) ≡ some "engagement:q"
unfolding slot_engagement Dict.get Dict.find_in Dict.put run apply call make_intent checks
    publish_intent publish_by publish_unseen publish_new claim_results Claim-discrete make_request
    submit_requests submit_by submit_new engage_request engage_by engage_new engage_free freeze_deal
    freeze_by freeze_new is_blank
ann_reserved = refl

ann_busy : Occupied (run agreed (new_market 3)) ann_slot "engagement:q"
ann_busy =
    (slot_engagement_iff 3 (new_market 3) agreed ann_slot "engagement:q" market_made).0 ann_reserved

no_double_booking_example : ◌≡◌ {A = String} "engagement:q" "engagement:q"
no_double_booking_example =
    no_double_booking 3 (new_market 3) agreed ann_slot "engagement:q" "engagement:q" market_made
      ann_busy ann_busy

records_kept_example :
    Keeps (run agreed (new_market 3)).intents (run engaged (run agreed (new_market 3))).intents
    × Keeps (run agreed (new_market 3)).deals (run engaged (run agreed (new_market 3))).deals
    × Keeps
        (run agreed (new_market 3)).result_claims
        (run engaged (run agreed (new_market 3))).result_claims
records_kept_example = records_kept 3 (new_market 3) agreed engaged market_made

one_deal_per_acceptance_example :
    (◌≡◌ {A = String} "deal:engagement:q" "deal:engagement:q") × (deal ≡ deal)
one_deal_per_acceptance_example =
    one_deal_per_acceptance 3 (new_market 3) agreed "deal:engagement:q" "deal:engagement:q" deal
      deal market_made deal_there deal_there refl

second_engagement :
    (call (Op.engages "bob" "q" "r9") (run engaged (new_market 3))).0 ≡ err not_pending
unfolding Dict.get Dict.find_in Dict.put run apply call make_intent checks publish_intent publish_by
    publish_unseen publish_new claim_results Claim-discrete make_request submit_requests submit_by
    submit_new engage_request engage_by engage_new engage_free is_blank
second_engagement = refl

raising_call_example :
    (is_key_error not_pending ≡ false)
    × (((call (Op.engages "bob" "q" "r9") (run engaged (new_market 3))).1
          ≡ run engaged (new_market 3))
        ⊎ ((not_pending ≡ counterparty_busy)
            × ((id : String) × (r : RequestRecord) × (Dict.get
                    (run engaged (new_market 3)).requests
                    id
                  ≡ some r)
                × (is_pending r.status ≡ true)
                × ((call (Op.engages "bob" "q" "r9") (run engaged (new_market 3))).1
                    ≡ with_request_status id (mark_busy r) (run engaged (new_market 3))))))
raising_call_example =
    raising_call 3 (new_market 3) engaged (Op.engages "bob" "q" "r9") not_pending market_made
      second_engagement

rfq_budget_example :
    (1 ≤ 3)
    × (3 ≤ 3)
    × (length (requests_of (run engaged (new_market 3)) "b") ≤ 3)
    × (length (targets_of (run engaged (new_market 3)) "b") ≤ 3)
    × OneUnresolved (run engaged (new_market 3)).requests
rfq_budget_example = rfq_budget 3 (new_market 3) engaged "b" market_made

abbrev engagement : AgentMarketEngagement
engagement = engagement_of "q" bid ask "r4"

engaged_there : Dict.get (run engaged (new_market 3)).engagements "engagement:q" ≡ some engagement
unfolding Dict.get Dict.find_in Dict.put run apply call make_intent checks publish_intent publish_by
    publish_unseen publish_new claim_results Claim-discrete make_request submit_requests submit_by
    submit_new engage_request engage_by engage_new engage_free is_blank
engaged_there = refl

timeout_frees_slots_example :
    ((close_engagement "engagement:q" ClosingStatus.timed_out none (run engaged (new_market 3))).0
      ≡ ok (close_as engagement ClosingStatus.timed_out none))
    × ((s : Slot)
        → Occupied (run engaged (new_market 3)) s "engagement:q"
        → slot_engagement s
            (close_engagement "engagement:q" ClosingStatus.timed_out none
              (run engaged (new_market 3))).1
          ≡ none)
timeout_frees_slots_example =
    timeout_frees_slots 3 (new_market 3) engaged "engagement:q" engagement market_made engaged_there
      refl

abbrev published : AgentDrivenMarket
published = run (Op.publishes bid ∷ Op.publishes ask ∷ []) (new_market 3)

directory_shown : public_directory "b" (at 3) published ≡ (ok (ask ∷ [], at 9), published)
unfolding public_directory sort_by insert_by Dict.get Dict.find_in Dict.put run apply call
    make_intent checks publish_intent publish_by publish_unseen publish_new claim_results
    Claim-discrete is_blank
directory_shown = refl

public_directory_lists_example :
    (published ≡ published)
    × ((requester : AgentMarketIntent) × (Dict.get published.intents "b" ≡ some requester)
        × Directory published requester (at 3) (ask ∷ []) (at 9))
public_directory_lists_example =
    public_directory_lists published published "b" (at 3) (ask ∷ []) (at 9) directory_shown
