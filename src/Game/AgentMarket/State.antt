-- ===== src/Game/AgentMarket/State.antt =====
-- The state of `AgentDrivenMarket`, its lookups, and `_claim_results`.
use adx_agentic_payment.Base.{
  ℕ, String, String-discrete, Bool, true, false, ◌||◌, ◌&&◌, Option, none, some, List, [], ◌∷◌, ltb,
  arith, ◌≡◌, ==_iff, Eq, ◌==◌, string_eq, if◌then◌else◌, Result, ok, err, refuted, Action, lift,
  gets, or_raise, modify, ◌>>=◌,
}
use adx_agentic_payment.Base.Dict
use adx_agentic_payment.Base.Dict.{Dict}
use adx_agentic_payment.Game.AgentMarket.Terms.{
  AgentMarketError, several_actions, other_action, intent_not_found, request_not_found,
  engagement_not_found, budget_range, AgentMarketIntent, AgentMarketEngagement, AgentMarketDeal,
  RequestRecord,
}

-- A participant in a round, the key of the slots.
pub record Slot : Type 0 where
  pub game_id : String
  pub round_id : String
  pub participant_id : String

abbrev pub same_slot : Slot → Slot → Bool
same_slot a b =
    (a.game_id == b.game_id)
    && ((a.round_id == b.round_id) && (a.participant_id == b.participant_id))

pub same_slot_exact : (a b : Slot) → same_slot a b ≡ true → a ≡ b
same_slot_exact a b h = ground (
  arith,
  ==_iff a.game_id b.game_id,
  ==_iff a.round_id b.round_id,
  ==_iff a.participant_id b.participant_id,
)

pub same_slot_refl : (a : Slot) → same_slot a a ≡ true
same_slot_refl a = ground (
  arith,
  ==_iff a.game_id a.game_id,
  ==_iff a.round_id a.round_id,
  ==_iff a.participant_id a.participant_id,
)

instance abbrev pub slot_eq : Eq Slot
slot_eq = record { same = same_slot; reflexive = same_slot_refl; exact = same_slot_exact }

-- What a result was used for: the kind of action and its id.
pub data ActionKind : Type 0 where
  intent rfq engage reject proposal acceptance : ActionKind

pub record Claim : Type 0 where
  pub kind : ActionKind
  pub action_id : String

unfoldable pub Claim-discrete : Discrete Claim
Claim-discrete = hlevel (String-discrete)

abbrev pub other_claim : Option Claim → Claim → Bool
other_claim none c = false
other_claim (some d) c = refuted (Claim-discrete d c)

pub record AgentDrivenMarket : Type 0 where
  pub max_outbound_rfq : ℕ
  pub result_claims : Dict String Claim
  pub intents : Dict String AgentMarketIntent
  pub intent_by_participant_round : Dict Slot String
  pub intent_by_result : Dict String String
  pub requests : Dict String RequestRecord
  pub request_ids_by_result : Dict String (List String)
  pub request_targets_by_buyer : Dict String (List String)
  pub engagements : Dict String AgentMarketEngagement
  pub engagement_by_selection_result : Dict String String
  pub reserved_slots : Dict Slot String
  pub deals : Dict String AgentMarketDeal

abbrev pub new_market : ℕ → AgentDrivenMarket
new_market budget = record {
  max_outbound_rfq = budget;
  result_claims = Dict.empty;
  intents = Dict.empty;
  intent_by_participant_round = Dict.empty;
  intent_by_result = Dict.empty;
  requests = Dict.empty;
  request_ids_by_result = Dict.empty;
  request_targets_by_buyer = Dict.empty;
  engagements = Dict.empty;
  engagement_by_selection_result = Dict.empty;
  reserved_slots = Dict.empty;
  deals = Dict.empty;
}

-- `AgentDrivenMarket.__init__`.
unfoldable pub make_market : ℕ → Result AgentMarketError AgentDrivenMarket
make_market budget =
    if ltb budget 1 || ltb 3 budget then err budget_range else ok (new_market budget)

abbrev pub Call : Type 0 → Type 0
Call = Action AgentDrivenMarket AgentMarketError

-- `_require_intent`, `_require_request_record`, `_require_engagement`.
abbrev pub require_intent : String → Call AgentMarketIntent
require_intent id = do or_raise (← gets (λ m. Dict.get m.intents id)) intent_not_found

abbrev pub require_request : String → Call RequestRecord
require_request id = do or_raise (← gets (λ m. Dict.get m.requests id)) request_not_found

abbrev pub require_engagement : String → Call AgentMarketEngagement
require_engagement id = do or_raise (← gets (λ m. Dict.get m.engagements id)) engagement_not_found

abbrev pub slot_key : AgentMarketIntent → Slot
slot_key i = record {
  game_id = i.game_id;
  round_id = i.round_id;
  participant_id = i.participant_id;
}

-- `_is_reserved`.
abbrev pub is_reserved : AgentDrivenMarket → AgentMarketIntent → Bool
is_reserved m i = Dict.has m.reserved_slots (slot_key i)

-- The loop of `_claim_results`, with the claims that are pending.
abbrev pub collect_claims :
    Dict String Claim
    → List (String × Claim)
    → Dict String Claim
    → Result AgentMarketError (Dict String Claim)
collect_claims claims [] pending = ok pending
collect_claims claims ((id, c) ∷ rest) pending =
    let later = collect_claims claims rest (Dict.put pending id c) in
    if other_claim (Dict.get pending id) c
    then err several_actions
    else if other_claim (Dict.get claims id) c
    then err other_action
    else later

-- `self._result_claims.update(pending)`.
abbrev pub put_claims : List (String × Claim) → Dict String Claim → Dict String Claim
put_claims [] claims = claims
put_claims ((id, c) ∷ rest) claims = put_claims rest (Dict.put claims id c)

unfoldable pub claim_results : List (String × Claim) → Call Unit
unfolding Claim-discrete
claim_results claims = do
  m ← gets (λ m. m)
  pending ← lift (collect_claims m.result_claims claims Dict.empty)
  modify (λ m. record m { result_claims = put_claims pending.entries m.result_claims })
