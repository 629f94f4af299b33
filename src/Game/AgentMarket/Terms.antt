-- ===== src/Game/AgentMarket/Terms.antt =====
-- The records of arena_game/a2a_market.py with their `__post_init__` guards. A `source_result_id`
-- names the agent's result that made the action.
use adx_agentic_payment.Base.{
  String, String-discrete, Bool, true, false, not, ◌||◌, ◌&&◌, Option, none, some, List, [], ◌∷◌,
  ltb, any, ◌==◌, string_eq, Result, ok, checks, and_then, refuted,
}
use adx_agentic_payment.Base.Int.{ℤ, pos, leb_ℤ, ltb_ℤ, int_eq}
use adx_agentic_payment.Base.Text.{is_blank}
use adx_agentic_payment.Payments.Models.{Datetime, is_empty}
use adx_agentic_payment.Game.Goods.{GoodId}
use adx_agentic_payment.Game.Market.{MarketSide, is_buy}
use Prim.Native.String.{count}
use native.Mathlib.Decide.{ℕ_discrete}

-- `AgentMarketError`, by its messages; `key_error` is a missing key.
pub data AgentMarketError : Type 0 where
  bad_identifier naive_datetime bad_display_name not_one_unit price_not_positive : AgentMarketError
  above_ceiling below_floor negative_failures bad_message opening_not_positive : AgentMarketError
  budget_range other_intent_published intent_id_taken already_published : AgentMarketError
  several_actions other_action intent_not_found request_not_found engagement_not_found :
      AgentMarketError
  not_a_buyer requester_expired one_seller other_batch unresolved_request budget_exhausted :
      AgentMarketError
  request_id_taken request_of_other_result wrong_sides self_negotiation other_round :
      AgentMarketError
  other_good no_overlap intent_expired opening_above_ceiling counterparty_busy : AgentMarketError
  already_requested other_selection not_pending not_the_seller already_terminal : AgentMarketError
  rejection_needs_result timeout_has_result same_result deal_immutable not_active : AgentMarketError
  not_counterparties binding_changed outside_limits key_error : AgentMarketError

abbrev pub is_key_error : AgentMarketError → Bool
is_key_error key_error = true
is_key_error _ = false

pub data RequestStatus : Type 0 where
  pending engaged rejected counterparty_was_busy : RequestStatus

pub data EngagementStatus : Type 0 where
  active accepted_pending_settlement rejected timed_out : EngagementStatus

-- `_require_identifier`.
abbrev pub bad_id : String → Bool
bad_id s = is_empty s || ltb 512 (count s)

abbrev pub bad_text : String → Bool
bad_text s = is_blank s || ltb 100 (count s)

abbrev bad_optional_text : Option String → Bool
bad_optional_text none = false
bad_optional_text (some s) = bad_text s

pub record AgentMarketIntent : Type 0 where
  pub intent_id : String
  pub source_result_id : String
  pub game_id : String
  pub round_id : String
  pub participant_id : String
  pub agent_id : String
  pub display_name : String
  pub side : MarketSide
  pub good : GoodId
  pub public_price_atomic : ℤ
  pub limit_price_atomic : ℤ
  pub expires_at : Datetime
  pub public_message : Option String
  pub failed_negotiations : ℤ
  pub quantity : ℤ

abbrev pub intent_guards : AgentMarketIntent → List (Bool × AgentMarketError)
intent_guards i =
    (
      any bad_id (
          i.intent_id ∷ i.source_result_id ∷ i.game_id ∷ i.round_id ∷ i.participant_id ∷ i.agent_id
          ∷ []),
      bad_identifier,
    )
    ∷ (bad_text i.display_name, bad_display_name)
    ∷ (not (i.quantity == pos 1), not_one_unit)
    ∷ (
      leb_ℤ i.public_price_atomic (pos 0) || leb_ℤ i.limit_price_atomic (pos 0),
      price_not_positive,
    )
    ∷ (is_buy i.side && ltb_ℤ i.limit_price_atomic i.public_price_atomic, above_ceiling)
    ∷ (not (is_buy i.side) && ltb_ℤ i.public_price_atomic i.limit_price_atomic, below_floor)
    ∷ (ltb_ℤ i.failed_negotiations (pos 0), negative_failures)
    ∷ (not i.expires_at.aware, naive_datetime)
    ∷ (bad_optional_text i.public_message, bad_message)
    ∷ []

unfoldable pub make_intent : AgentMarketIntent → Result AgentMarketError AgentMarketIntent
make_intent i = and_then (checks (intent_guards i)) (λ _. ok i)

pub record AgentNegotiationRequest : Type 0 where
  pub request_id : String
  pub source_result_id : String
  pub buyer_intent_id : String
  pub seller_intent_id : String
  pub opening_price_atomic : ℤ
  pub public_message : String
  pub created_at : Datetime

abbrev pub request_guards : AgentNegotiationRequest → List (Bool × AgentMarketError)
request_guards r =
    (
      any bad_id (r.request_id ∷ r.source_result_id ∷ r.buyer_intent_id ∷ r.seller_intent_id ∷ []),
      bad_identifier,
    )
    ∷ (leb_ℤ r.opening_price_atomic (pos 0), opening_not_positive)
    ∷ (bad_text r.public_message, bad_message)
    ∷ (not r.created_at.aware, naive_datetime)
    ∷ []

unfoldable pub make_request :
    AgentNegotiationRequest → Result AgentMarketError AgentNegotiationRequest
make_request r = and_then (checks (request_guards r)) (λ _. ok r)

pub record AgentMarketEngagement : Type 0 where
  pub engagement_id : String
  pub negotiation_id : String
  pub request_id : String
  pub buyer_intent_id : String
  pub seller_intent_id : String
  pub buyer_participant_id : String
  pub seller_participant_id : String
  pub good : GoodId
  pub selection_result_id : String
  pub status : EngagementStatus
  pub terminal_source_result_id : Option String

pub record AgentMarketDeal : Type 0 where
  pub deal_id : String
  pub engagement_id : String
  pub request_id : String
  pub buyer_participant_id : String
  pub seller_participant_id : String
  pub good : GoodId
  pub quantity : ℤ
  pub unit_price_atomic : ℤ
  pub latest_proposal_result_id : String
  pub acceptance_result_id : String
  pub accepted_by_participant_id : String

-- `_RequestRecord`.
pub record RequestRecord : Type 0 where
  pub request : AgentNegotiationRequest
  pub status : RequestStatus
  pub engagement_id : Option String

unfoldable pub AgentMarketIntent-discrete : Discrete AgentMarketIntent
AgentMarketIntent-discrete = hlevel (ℕ_discrete, String-discrete)

unfoldable pub AgentNegotiationRequest-discrete : Discrete AgentNegotiationRequest
AgentNegotiationRequest-discrete = hlevel (ℕ_discrete, String-discrete)

-- `a != b` on the dataclasses.
abbrev pub other_intent : AgentMarketIntent → AgentMarketIntent → Bool
other_intent a b = refuted (AgentMarketIntent-discrete a b)

abbrev pub other_request : AgentNegotiationRequest → AgentNegotiationRequest → Bool
other_request a b = refuted (AgentNegotiationRequest-discrete a b)
