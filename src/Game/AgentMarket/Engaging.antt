-- ===== src/Game/AgentMarket/Engaging.antt =====
-- `AgentDrivenMarket`: `engage_request`, `close_engagement`, `freeze_deal` and the two lookups.
use adx_agentic_payment.Base.{
  String, Bool, true, false, not, ◌||◌, ◌&&◌, Option, none, some, List, [], ◌∷◌, any, ◌==◌,
  string_eq, option_eq, if◌then◌else◌, is_none, checks, pure, raise, raise_if, lift, gets, or_raise,
  modify, ◌>>=◌, ◌>>◌,
}
use adx_agentic_payment.Base.Int.{ℤ, pos, leb_ℤ, ltb_ℤ, int_eq}
use adx_agentic_payment.Base.Dict
use adx_agentic_payment.Base.Dict.{Dict}
use adx_agentic_payment.Base.Text.{joined}
use adx_agentic_payment.Game.AgentMarket.Terms.{
  AgentMarketError, bad_identifier, counterparty_busy, other_selection, not_pending, not_the_seller,
  already_terminal, rejection_needs_result, timeout_has_result, same_result, deal_immutable,
  not_active, not_counterparties, binding_changed, outside_limits, key_error, RequestStatus,
  EngagementStatus, AgentMarketIntent, AgentNegotiationRequest, AgentMarketEngagement,
  AgentMarketDeal, RequestRecord, bad_id,
}
use adx_agentic_payment.Game.AgentMarket.State.{
  Slot, ActionKind, Claim, AgentDrivenMarket, Call, require_intent, require_request,
  require_engagement, slot_key, is_reserved, claim_results, slot_eq,
}
use adx_agentic_payment.Game.AgentMarket.Publishing.{is_pending}

abbrev pub engagement_of :
    String → AgentMarketIntent → AgentMarketIntent → String → AgentMarketEngagement
engagement_of request_id buyer seller selection_result_id = record {
  engagement_id = joined ("engagement" ∷ request_id ∷ []);
  negotiation_id = joined ("negotiation" ∷ request_id ∷ []);
  request_id = request_id;
  buyer_intent_id = buyer.intent_id;
  seller_intent_id = seller.intent_id;
  buyer_participant_id = buyer.participant_id;
  seller_participant_id = seller.participant_id;
  good = buyer.good;
  selection_result_id = selection_result_id;
  status = EngagementStatus.active;
  terminal_source_result_id = none;
}

abbrev pub with_request_status : String → RequestRecord → AgentDrivenMarket → AgentDrivenMarket
with_request_status id r m = record m { requests = Dict.put m.requests id r }

abbrev pub mark_busy : RequestRecord → RequestRecord
mark_busy r = record r { status = RequestStatus.counterparty_was_busy }

abbrev pub mark_engaged : RequestRecord → String → RequestRecord
mark_engaged r id = record r { status = RequestStatus.engaged; engagement_id = some id }

abbrev pub mark_rejected : RequestRecord → RequestRecord
mark_rejected r = record r { status = RequestStatus.rejected }

-- The writes at the end of `engage_request`.
abbrev pub with_engagement :
    RequestRecord
    → AgentMarketIntent
    → AgentMarketIntent
    → AgentMarketEngagement
    → AgentDrivenMarket
    → AgentDrivenMarket
with_engagement r buyer seller e m = record m {
  engagements = Dict.put m.engagements e.engagement_id e;
  engagement_by_selection_result =
      Dict.put m.engagement_by_selection_result e.selection_result_id e.engagement_id;
  reserved_slots =
      Dict.put (Dict.put m.reserved_slots (slot_key buyer) e.engagement_id) (slot_key seller)
        e.engagement_id;
  requests = Dict.put m.requests e.request_id (mark_engaged r e.engagement_id);
}

-- `engage_request` on free slots, and on busy ones, where the request's status is written before
-- the error is raised.
unfoldable pub engage_free :
    RequestRecord
    → AgentMarketIntent
    → AgentMarketIntent
    → AgentMarketEngagement
    → Call AgentMarketEngagement
engage_free r buyer seller e = do
  claim_results (
      (e.selection_result_id, record { kind = ActionKind.engage; action_id = e.engagement_id })
      ∷ [])
  modify (with_engagement r buyer seller e)
  pure e

unfoldable pub refuse_busy : String → RequestRecord → Call AgentMarketEngagement
refuse_busy request_id r = do
  modify (with_request_status request_id (mark_busy r))
  raise counterparty_busy

unfoldable pub engage_new : String → String → String → Call AgentMarketEngagement
engage_new actor_participant_id request_id selection_result_id = do
  r ← require_request request_id
  raise_if (not (is_pending r.status)) not_pending
  buyer ← require_intent r.request.buyer_intent_id
  seller ← require_intent r.request.seller_intent_id
  raise_if (not (seller.participant_id == actor_participant_id)) not_the_seller
  m ← gets (λ m. m)
  if is_reserved m buyer || is_reserved m seller
      then refuse_busy request_id r
      else engage_free r buyer seller (engagement_of request_id buyer seller selection_result_id)

unfoldable pub engage_by : String → String → String → Option String → Call AgentMarketEngagement
engage_by actor_participant_id request_id selection_result_id none =
    engage_new actor_participant_id request_id selection_result_id
engage_by actor_participant_id request_id selection_result_id (some id) = do
  e ← or_raise (← gets (λ m. Dict.get m.engagements id)) key_error
  raise_if
      (not (e.request_id == request_id) || not (e.seller_participant_id == actor_participant_id))
      other_selection
  pure e

unfoldable pub engage_request : String → String → String → Call AgentMarketEngagement
engage_request actor_participant_id request_id selection_result_id = do
  raise_if (bad_id selection_result_id) bad_identifier
  engage_by actor_participant_id request_id selection_result_id
      (← gets (λ m. Dict.get m.engagement_by_selection_result selection_result_id))

-- The statuses that `close_engagement` takes.
pub data ClosingStatus : Type 0 where
  rejected timed_out : ClosingStatus

abbrev pub closed_as : ClosingStatus → EngagementStatus
closed_as ClosingStatus.rejected = EngagementStatus.rejected
closed_as ClosingStatus.timed_out = EngagementStatus.timed_out

abbrev pub is_active : EngagementStatus → Bool
is_active EngagementStatus.active = true
is_active _ = false

abbrev pub is_closed_as : ClosingStatus → EngagementStatus → Bool
is_closed_as ClosingStatus.rejected EngagementStatus.rejected = true
is_closed_as ClosingStatus.timed_out EngagementStatus.timed_out = true
is_closed_as _ _ = false

abbrev pub closing_guards : ClosingStatus → Option String → List (Bool × AgentMarketError)
closing_guards ClosingStatus.rejected source = (is_none source, rejection_needs_result) ∷ []
closing_guards ClosingStatus.timed_out source = (not (is_none source), timeout_has_result) ∷ []

-- The claim of a rejection's result.
unfoldable pub claim_rejection : Option String → String → Call Unit
claim_rejection none engagement_id = pure tt
claim_rejection (some id) engagement_id = do
  raise_if (bad_id id) bad_identifier
  claim_results ((id, record { kind = ActionKind.reject; action_id = engagement_id }) ∷ [])

abbrev pub close_as : AgentMarketEngagement → ClosingStatus → Option String → AgentMarketEngagement
close_as e status source = record e {
  status = closed_as status;
  terminal_source_result_id = source;
}

abbrev pub with_engagement_state :
    String → AgentMarketEngagement → AgentDrivenMarket → AgentDrivenMarket
with_engagement_state id e m = record m { engagements = Dict.put m.engagements id e }

-- `_release_slots` on one slot and on both.
abbrev pub release_slot : String → Slot → Dict Slot String → Dict Slot String
release_slot id s d = if Dict.get d s == some id then Dict.del d s else d

abbrev pub with_released :
    String → AgentMarketIntent → AgentMarketIntent → AgentDrivenMarket → AgentDrivenMarket
with_released id buyer seller m = record m {
  reserved_slots =
      release_slot id (slot_key seller) (release_slot id (slot_key buyer) m.reserved_slots);
}

unfoldable pub release_slots : AgentMarketEngagement → Call Unit
release_slots e = do
  buyer ← require_intent e.buyer_intent_id
  seller ← require_intent e.seller_intent_id
  modify (with_released e.engagement_id buyer seller)

unfoldable pub close_active :
    String → AgentMarketEngagement → ClosingStatus → Option String → Call AgentMarketEngagement
unfolding checks
close_active engagement_id e status source = do
  lift (checks (closing_guards status source))
  claim_rejection source engagement_id
  modify (with_engagement_state engagement_id (close_as e status source))
  r ← or_raise (← gets (λ m. Dict.get m.requests e.request_id)) key_error
  modify (with_request_status e.request_id (mark_rejected r))
  release_slots e
  pure (close_as e status source)

unfoldable pub close_terminal :
    AgentMarketEngagement → ClosingStatus → Option String → Call AgentMarketEngagement
close_terminal e status source =
    if is_closed_as status e.status && (e.terminal_source_result_id == source)
    then pure e
    else raise already_terminal

unfoldable pub close_engagement :
    String → ClosingStatus → Option String → Call AgentMarketEngagement
close_engagement engagement_id status source = do
  e ← require_engagement engagement_id
  if is_active e.status
      then close_active engagement_id e status source
      else close_terminal e status source

-- The arguments of `freeze_deal`.
pub record Terms : Type 0 where
  pub engagement_id : String
  pub latest_proposal_result_id : String
  pub latest_proposal_actor_id : String
  pub acceptance_result_id : String
  pub accepted_by_participant_id : String
  pub unit_price_atomic : ℤ

abbrev pub terms_guards : Terms → List (Bool × AgentMarketError)
terms_guards t =
    (
      any bad_id (
          t.latest_proposal_result_id ∷ t.latest_proposal_actor_id ∷ t.acceptance_result_id
          ∷ t.accepted_by_participant_id ∷ []),
      bad_identifier,
    )
    ∷ (t.latest_proposal_result_id == t.acceptance_result_id, same_result)
    ∷ []

abbrev pub other_deal : AgentMarketDeal → Terms → Bool
other_deal d t =
    not (d.latest_proposal_result_id == t.latest_proposal_result_id)
    || (not (d.acceptance_result_id == t.acceptance_result_id)
        || (not (d.unit_price_atomic == t.unit_price_atomic)
            || not (d.accepted_by_participant_id == t.accepted_by_participant_id)))

-- `{a, b} == {c, d}`.
abbrev pub same_pair : String → String → String → String → Bool
same_pair a b c d =
    ((a == c) || (a == d))
    && (((b == c) || (b == d)) && (((c == a) || (c == b)) && ((d == a) || (d == b))))

abbrev pub binding_opening : AgentNegotiationRequest → Terms → Bool
binding_opening r t = t.latest_proposal_result_id == r.source_result_id

abbrev pub freeze_guards :
    AgentMarketIntent
    → AgentMarketIntent
    → AgentNegotiationRequest
    → Terms
    → List (Bool × AgentMarketError)
freeze_guards buyer seller r t =
    (
      binding_opening r t
          && (not (t.latest_proposal_actor_id == buyer.participant_id)
              || not (t.unit_price_atomic == r.opening_price_atomic)),
      binding_changed,
    )
    ∷ (
      leb_ℤ t.unit_price_atomic (pos 0)
          || (ltb_ℤ buyer.limit_price_atomic t.unit_price_atomic
              || ltb_ℤ t.unit_price_atomic seller.limit_price_atomic),
      outside_limits,
    )
    ∷ []

abbrev pub freeze_claims : AgentNegotiationRequest → Terms → List (String × Claim)
freeze_claims r t =
    let acceptance : List (String × Claim) =
      (t.acceptance_result_id, record { kind = ActionKind.acceptance; action_id = t.engagement_id })
      ∷ [] in
    if binding_opening r t
    then acceptance
    else (
      t.latest_proposal_result_id,
      record { kind = ActionKind.proposal; action_id = t.engagement_id },
    )
      ∷ acceptance

abbrev pub deal_of : AgentMarketEngagement → Terms → AgentMarketDeal
deal_of e t = record {
  deal_id = joined ("deal" ∷ t.engagement_id ∷ []);
  engagement_id = t.engagement_id;
  request_id = e.request_id;
  buyer_participant_id = e.buyer_participant_id;
  seller_participant_id = e.seller_participant_id;
  good = e.good;
  quantity = pos 1;
  unit_price_atomic = t.unit_price_atomic;
  latest_proposal_result_id = t.latest_proposal_result_id;
  acceptance_result_id = t.acceptance_result_id;
  accepted_by_participant_id = t.accepted_by_participant_id;
}

abbrev pub accept : AgentMarketEngagement → Terms → AgentMarketEngagement
accept e t = record e {
  status = EngagementStatus.accepted_pending_settlement;
  terminal_source_result_id = some t.acceptance_result_id;
}

abbrev pub with_deal : AgentMarketEngagement → Terms → AgentDrivenMarket → AgentDrivenMarket
with_deal e t m = record m {
  deals = Dict.put m.deals (joined ("deal" ∷ t.engagement_id ∷ [])) (deal_of e t);
  engagements = Dict.put m.engagements t.engagement_id (accept e t);
}

unfoldable pub freeze_new : AgentMarketEngagement → Terms → Call AgentMarketDeal
unfolding checks
freeze_new e t = do
  raise_if (not (is_active e.status)) not_active
  raise_if
      (not (
        same_pair t.latest_proposal_actor_id t.accepted_by_participant_id e.buyer_participant_id
          e.seller_participant_id))
      not_counterparties
  buyer ← require_intent e.buyer_intent_id
  seller ← require_intent e.seller_intent_id
  r ← require_request e.request_id
  lift (checks (freeze_guards buyer seller r.request t))
  claim_results (freeze_claims r.request t)
  modify (with_deal e t)
  pure (deal_of e t)

unfoldable pub freeze_by :
    AgentMarketEngagement → Terms → Option AgentMarketDeal → Call AgentMarketDeal
freeze_by e t none = freeze_new e t
freeze_by e t (some existing) = do raise_if (other_deal existing t) deal_immutable; pure existing

unfoldable pub freeze_deal : Terms → Call AgentMarketDeal
unfolding checks
freeze_deal t = do
  lift (checks (terms_guards t))
  e ← require_engagement t.engagement_id
  freeze_by e t (← gets (λ m. Dict.get m.deals (joined ("deal" ∷ t.engagement_id ∷ []))))

unfoldable pub request_status : String → Call RequestStatus
request_status request_id = do r ← require_request request_id; pure r.status

unfoldable pub slot_engagement : Slot → AgentDrivenMarket → Option String
slot_engagement s m = Dict.get m.reserved_slots s
