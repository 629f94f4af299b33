-- ===== src/Game/Negotiation/Tests.antt =====
-- Runs of a negotiation that a buyer opens and the seller accepts.
use adx_agentic_payment.Base.{none, some, List, [], ◌∷◌, ◌≡◌, ◌≢◌, refl, ok, All, checks}
use adx_agentic_payment.Base.Int.{pos}
use adx_agentic_payment.Base.Text.{is_blank}
use adx_agentic_payment.Game.Negotiation.{
  NegotiationRole, NegotiationActionKind, NegotiationStatus, NegotiationAction, Negotiation,
  make_action, make_negotiation, apply, expire, next_role,
}
use adx_agentic_payment.Game.Negotiation.Bounded.{
  Call, applies, expires, IsProper, call, run, IsSound, negotiation-IsSound, can_reject,
}

abbrev opened : Negotiation
opened = record {
  negotiation_id = "n1";
  buyer_participant_id = "b";
  seller_participant_id = "s";
  max_turns = 3;
  status = NegotiationStatus.active;
  turns = [];
  accepted_price_atomic = none;
}

abbrev offer : NegotiationAction
offer = record {
  action = NegotiationActionKind.propose;
  price_atomic = some (pos 7);
  message = some "hi";
}

abbrev yes_please : NegotiationAction
yes_please = record { action = NegotiationActionKind.accept; price_atomic = none; message = none }

abbrev deal : List Call
deal =
    applies NegotiationRole.buyer offer ∷ applies NegotiationRole.seller yes_please ∷ expires ∷ []

abbrev one_offer : List Call
one_offer = applies NegotiationRole.buyer offer ∷ []

opened_made : make_negotiation "n1" "b" "s" 3 ≡ ok opened
unfolding make_negotiation checks
opened_made = refl

deal-IsProper : All IsProper deal
unfolding make_action checks is_blank
deal-IsProper = (refl, (refl, (tt, tt)))

one_offer-IsProper : All IsProper one_offer
unfolding make_action checks is_blank
one_offer-IsProper = (refl, tt)

deal_price : (run deal opened).accepted_price_atomic ≡ some (pos 7)
unfolding run call apply expire checks
deal_price = refl

deal_closed : (run deal opened).status ≡ NegotiationStatus.accepted_pending_settlement
unfolding run call apply expire checks
deal_closed = refl

offer_open : (run one_offer opened).status ≡ NegotiationStatus.active
unfolding run call apply expire checks
offer_open = refl

offer_turns : (run one_offer opened).turns ≢ []
unfolding run call apply expire checks
offer_turns e = cc

negotiation-IsSound_example : IsSound (run deal opened)
negotiation-IsSound_example =
    negotiation-IsSound "n1" "b" "s" 3 opened deal opened_made deal-IsProper

can_reject_example :
    (n : Negotiation) × (apply
        (run one_offer opened)
        (next_role (run one_offer opened))
        (record { action = NegotiationActionKind.reject; price_atomic = none; message = none })
      ≡ ok n)
    × (n.status ≡ NegotiationStatus.rejected)
can_reject_example =
    can_reject "n1" "b" "s" 3 opened one_offer opened_made one_offer-IsProper offer_open offer_turns
