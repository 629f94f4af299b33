-- ===== src/Game/AgentMarket/Publishing.antt =====
-- `AgentDrivenMarket`: `publish_intent`, the buyer's directory, requests and the seller's inbox.
use adx_agentic_payment.Base.{
  ◌+◌, String, Bool, true, false, not, ◌||◌, ◌&&◌, Option, none, some, List, [], ◌∷◌, length, ltb,
  any, contains, select, get_elem?, ◌==◌, string_eq, if◌then◌else◌, checks, pure, raise, raise_if,
  lift, gets, or_raise, modify, ◌>>=◌, ◌>>◌,
}
use adx_agentic_payment.Base.Int.{ltb_ℤ, int_eq}
use adx_agentic_payment.Base.Dict
use adx_agentic_payment.Base.Dict.{Dict}
use adx_agentic_payment.Base.Sort.{sort_by}
use adx_agentic_payment.Base.Text.{joined, text_leb}
use adx_agentic_payment.Payments.Models.{Datetime, at_most, earlier}
use adx_agentic_payment.Game.Goods.{same_good}
use adx_agentic_payment.Game.Market.{is_buy}
use adx_agentic_payment.Game.AgentMarket.Terms.{
  AgentMarketError, naive_datetime, other_intent_published, intent_id_taken, already_published,
  not_a_buyer, requester_expired, one_seller, other_batch, unresolved_request, budget_exhausted,
  request_id_taken, request_of_other_result, wrong_sides, self_negotiation, other_round, other_good,
  no_overlap, intent_expired, opening_above_ceiling, counterparty_busy, already_requested,
  key_error, RequestStatus, AgentMarketIntent, AgentNegotiationRequest, RequestRecord, other_intent,
  other_request,
}
use adx_agentic_payment.Game.AgentMarket.State.{
  ActionKind, AgentDrivenMarket, Call, require_intent, slot_key, is_reserved, claim_results,
  slot_eq,
}

-- The writes at the end of `publish_intent`.
abbrev pub with_intent : AgentMarketIntent → AgentDrivenMarket → AgentDrivenMarket
with_intent i m = record m {
  intents = Dict.put m.intents i.intent_id i;
  intent_by_result = Dict.put m.intent_by_result i.source_result_id i.intent_id;
  intent_by_participant_round = Dict.put m.intent_by_participant_round (slot_key i) i.intent_id;
}

unfoldable pub publish_new : AgentMarketIntent → Call AgentMarketIntent
publish_new i = do
  m ← gets (λ m. m)
  raise_if (Dict.has m.intent_by_participant_round (slot_key i)) already_published
  claim_results
      ((i.source_result_id, record { kind = ActionKind.intent; action_id = i.intent_id }) ∷ [])
  modify (with_intent i)
  pure i

-- The stored intent, when it is the same as the published one.
unfoldable pub same_intent :
    AgentMarketError → AgentMarketIntent → AgentMarketIntent → Call AgentMarketIntent
same_intent e i existing = do raise_if (other_intent existing i) e; pure existing

unfoldable pub publish_unseen :
    AgentMarketIntent → Option AgentMarketIntent → Call AgentMarketIntent
publish_unseen i none = publish_new i
publish_unseen i (some existing) = same_intent intent_id_taken i existing

unfoldable pub publish_by : AgentMarketIntent → Option String → Call AgentMarketIntent
publish_by i none = do publish_unseen i (← gets (λ m. Dict.get m.intents i.intent_id))
publish_by i (some id) = do
  existing ← or_raise (← gets (λ m. Dict.get m.intents id)) key_error
  same_intent other_intent_published i existing

unfoldable pub publish_intent : AgentMarketIntent → Call AgentMarketIntent
publish_intent i = do publish_by i (← gets (λ m. Dict.get m.intent_by_result i.source_result_id))

-- The tests of the loop in `public_directory`.
abbrev pub is_eligible : AgentDrivenMarket → AgentMarketIntent → Datetime → AgentMarketIntent → Bool
is_eligible m requester observed_at c =
    not (is_buy c.side)
    && ((c.game_id == requester.game_id)
        && ((c.round_id == requester.round_id)
            && (not (c.participant_id == requester.participant_id)
                && ((same_good c.good requester.good)
                    && (not (at_most c.expires_at observed_at)
                        && (not (ltb_ℤ requester.limit_price_atomic c.limit_price_atomic)
                            && not (is_reserved m c)))))))

abbrev pub earliest : Datetime → List AgentMarketIntent → Datetime
earliest d [] = d
earliest d (i ∷ is) = if earlier i.expires_at d then earliest i.expires_at is else earliest d is

abbrev pub intent_first : AgentMarketIntent → AgentMarketIntent → Bool
intent_first a b = text_leb a.intent_id b.intent_id

abbrev pub directory_of :
    AgentMarketIntent → List AgentMarketIntent → List AgentMarketIntent × Datetime
directory_of requester entries = (entries, earliest requester.expires_at entries)

-- `public_directory`: the entries stand for the intents that they are made from, with the expiry.
unfoldable pub public_directory : String → Datetime → Call (List AgentMarketIntent × Datetime)
public_directory requester_intent_id observed_at = do
  raise_if (not observed_at.aware) naive_datetime
  requester ← require_intent requester_intent_id
  raise_if (not (is_buy requester.side)) not_a_buyer
  raise_if (at_most requester.expires_at observed_at) requester_expired
  m ← gets (λ m. m)
  pure (
      directory_of requester (
        sort_by intent_first
          (select (is_eligible m requester observed_at) (Dict.values m.intents))))

abbrev pub counterparty_guards :
    AgentMarketIntent → AgentMarketIntent → List (Bool × AgentMarketError)
counterparty_guards buyer seller =
    (not (is_buy buyer.side) || is_buy seller.side, wrong_sides)
    ∷ (buyer.participant_id == seller.participant_id, self_negotiation)
    ∷ (
      not (buyer.game_id == seller.game_id) || not (buyer.round_id == seller.round_id),
      other_round,
    )
    ∷ (
      not (same_good buyer.good seller.good) || not (buyer.quantity == seller.quantity),
      other_good,
    )
    ∷ (ltb_ℤ buyer.limit_price_atomic seller.limit_price_atomic, no_overlap)
    ∷ []

-- The checks of one request in the loop of `submit_requests`, after the counterparties'.
abbrev pub request_terms_guards :
    AgentDrivenMarket
    → AgentMarketIntent
    → AgentMarketIntent
    → List String
    → AgentNegotiationRequest
    → List (Bool × AgentMarketError)
request_terms_guards m buyer seller targets r =
    (
      at_most buyer.expires_at r.created_at || at_most seller.expires_at r.created_at,
      intent_expired,
    )
    ∷ (ltb_ℤ buyer.limit_price_atomic r.opening_price_atomic, opening_above_ceiling)
    ∷ (is_reserved m buyer || is_reserved m seller, counterparty_busy)
    ∷ (contains targets seller.intent_id, already_requested)
    ∷ []

abbrev pub is_unresolved : RequestStatus → Bool
is_unresolved RequestStatus.pending = true
is_unresolved RequestStatus.engaged = true
is_unresolved _ = false

abbrev pub is_outstanding : String → RequestRecord → Bool
is_outstanding buyer_intent_id r =
    (r.request.buyer_intent_id == buyer_intent_id) && is_unresolved r.status

abbrev pub targets_of : AgentDrivenMarket → String → List String
targets_of m buyer_intent_id = elim (Dict.get m.request_targets_by_buyer buyer_intent_id) [
  | none ↦ []
  | some ts ↦ ts
]

abbrev pub id_taken :
    AgentNegotiationRequest → Option RequestRecord → List (Bool × AgentMarketError)
id_taken r none = []
id_taken r (some existing) =
    (other_request existing.request r, request_id_taken) ∷ (true, request_of_other_result) ∷ []

-- `targets.add(...)`.
abbrev pub add_target : String → List String → List String
add_target t ts = if contains ts t then ts else t ∷ ts

abbrev pub with_request : AgentNegotiationRequest → AgentDrivenMarket → AgentDrivenMarket
with_request r m = record m {
  requests =
      Dict.put m.requests r.request_id
        (record { request = r; status = RequestStatus.pending; engagement_id = none });
  request_targets_by_buyer =
      Dict.put m.request_targets_by_buyer r.buyer_intent_id
        (add_target r.seller_intent_id (targets_of m r.buyer_intent_id));
  request_ids_by_result = Dict.put m.request_ids_by_result r.source_result_id (r.request_id ∷ []);
}

unfoldable pub submit_new : AgentNegotiationRequest → Call (List AgentNegotiationRequest)
unfolding checks
submit_new r = do
  buyer ← require_intent r.buyer_intent_id
  m ← gets (λ m. m)
  raise_if (any (is_outstanding buyer.intent_id) (Dict.values m.requests)) unresolved_request
  raise_if (ltb m.max_outbound_rfq (length (targets_of m buyer.intent_id) + 1)) budget_exhausted
  lift (checks (id_taken r (Dict.get m.requests r.request_id)))
  seller ← require_intent r.seller_intent_id
  lift (checks (counterparty_guards buyer seller))
  lift (checks (request_terms_guards m buyer seller (targets_of m buyer.intent_id) r))
  claim_results (
      (
        r.source_result_id,
        record {
          kind = ActionKind.rfq;
          action_id = joined ("rfq-batch" ∷ r.source_result_id ∷ []);
        },
      )
      ∷ [])
  modify (with_request r)
  pure (r ∷ [])

-- The requests that are stored under `ids`.
abbrev pub stored_requests : List String → Call (List AgentNegotiationRequest)
stored_requests [] = pure []
stored_requests (id ∷ ids) = do
  found ← or_raise (← gets (λ m. Dict.get m.requests id)) key_error
  rest ← stored_requests ids
  pure (found.request ∷ rest)

abbrev pub other_requests : List AgentNegotiationRequest → List AgentNegotiationRequest → Bool
other_requests [] [] = false
other_requests (a ∷ xs) (b ∷ ys) = other_request a b || other_requests xs ys
other_requests _ _ = true

unfoldable pub submit_by :
    AgentNegotiationRequest → Option (List String) → Call (List AgentNegotiationRequest)
submit_by r none = submit_new r
submit_by r (some ids) = do
  existing ← stored_requests ids
  raise_if (other_requests existing (r ∷ [])) other_batch
  pure existing

-- `submit_requests`: its first guard leaves only batches of one request, and of those the guards on
-- the batch's ids hold.
unfoldable pub submit_requests : List AgentNegotiationRequest → Call (List AgentNegotiationRequest)
submit_requests [] = raise one_seller
submit_requests (r ∷ []) = do
  submit_by r (← gets (λ m. Dict.get m.request_ids_by_result r.source_result_id))
submit_requests (r ∷ _ ∷ _) = raise one_seller

-- `submit_request`; an empty tuple would raise `IndexError`.
unfoldable pub submit_request : AgentNegotiationRequest → Call AgentNegotiationRequest
submit_request r = do rs ← submit_requests (r ∷ []); or_raise (get_elem? rs 0) key_error

abbrev pub request_first : AgentNegotiationRequest → AgentNegotiationRequest → Bool
request_first a b = text_leb a.request_id b.request_id

abbrev pub is_pending : RequestStatus → Bool
is_pending RequestStatus.pending = true
is_pending _ = false

abbrev pub inbox : String → List RequestRecord → Call (List AgentNegotiationRequest)
inbox seller_participant_id [] = pure []
inbox seller_participant_id (r ∷ rs) =
    let later = inbox seller_participant_id rs in
    if is_pending r.status
    then (do
      seller ← require_intent r.request.seller_intent_id
      rest ← later
      pure (if seller.participant_id == seller_participant_id then r.request ∷ rest else rest))
    else later

unfoldable pub inbound_requests : String → Call (List AgentNegotiationRequest)
inbound_requests seller_participant_id = do
  m ← gets (λ m. m)
  found ← inbox seller_participant_id (Dict.values m.requests)
  pure (sort_by request_first found)
