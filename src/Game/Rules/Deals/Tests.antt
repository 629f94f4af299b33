-- ===== src/Game/Rules/Deals/Tests.antt =====
-- Two runtimes that agree.
use adx_agentic_payment.Base.{
  String, string_eq, nat_eq, ◌≡◌, refl, none, some, [], ◌∷◌, length, ok, checks,
}
use adx_agentic_payment.Base.Int.{pos, ◌≤ℤ◌, ◌<ℤ◌}
use adx_agentic_payment.Base.Text.{is_blank}
use adx_agentic_payment.Base.Dict
use adx_agentic_payment.Base.Dict.{Dict}
use adx_agentic_payment.Game.Goods.{GoodId}
use adx_agentic_payment.Game.Negotiation.{
  Negotiation, NegotiationStatus, make_action, make_negotiation,
}
use adx_agentic_payment.Game.Rules.{RuleStrategy, RuleIntent, offer, rule_negotiation}
use adx_agentic_payment.Game.Rules.Deals.{rule_negotiation_ends}

abbrev buys : RuleStrategy
buys = record {
  intent = RuleIntent.buy;
  good = GoodId.iron;
  target_price_atomic = pos 7;
  public_message = "seven";
}

abbrev sells : RuleStrategy
sells = record {
  intent = RuleIntent.sell;
  good = GoodId.iron;
  target_price_atomic = pos 5;
  public_message = "five";
}

abbrev runtimes : Dict String RuleStrategy
runtimes = record { entries = ("ann", buys) ∷ ("bob", sells) ∷ [] }

abbrev start : Negotiation
start = record {
  negotiation_id = "n";
  buyer_participant_id = "ann";
  seller_participant_id = "bob";
  max_turns = 3;
  status = NegotiationStatus.active;
  turns = [];
  accepted_price_atomic = none;
}

start_made : make_negotiation "n" "ann" "bob" 3 ≡ ok start
unfolding make_negotiation checks
start_made = refl

ann_runs : Dict.get runtimes "ann" ≡ some buys
unfolding Dict.get Dict.find_in
ann_runs = refl

bob_runs : Dict.get runtimes "bob" ≡ some sells
unfolding Dict.get Dict.find_in
bob_runs = refl

offer_made : make_action (offer buys) ≡ ok (offer buys)
unfolding make_action checks is_blank
offer_made = refl

ask_made : make_action (offer sells) ≡ ok (offer sells)
unfolding make_action checks is_blank
ask_made = refl

rule_negotiation_ends_example :
    (n : Negotiation) × (rule_negotiation runtimes start ≡ ok n)
    × ((pos 5 ≤ℤ pos 7
          → (n.status ≡ NegotiationStatus.accepted_pending_settlement)
            × (n.accepted_price_atomic ≡ some (pos 7))
            × (length n.turns ≡ 2))
        × (pos 7 <ℤ pos 5
            → (n.status ≡ NegotiationStatus.rejected)
              × (n.accepted_price_atomic ≡ none)
              × (length n.turns ≡ 3)))
rule_negotiation_ends_example =
    rule_negotiation_ends runtimes buys sells "n" "ann" "bob" 3 start start_made ann_runs bob_runs
      offer_made ask_made
