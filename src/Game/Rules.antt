-- ===== src/Game/Rules.antt =====
-- arena_game/rule_runtime.py: the deterministic runtime of the Arena's own participants, and the loop
-- of arena_game/postgres.py in which two of them negotiate, less its reads and writes of the database.
pub mod Deals
use adx_agentic_payment.Base.{
  ℕ, zero, suc, String, string_eq, nat_eq, Bool, true, false, Option, none, some, List, [], ◌∷◌,
  last?, length, leb, ◌==◌, if◌then◌else◌, Result, ok, err, and_then,
}
use adx_agentic_payment.Base.Int.{ℤ, leb_ℤ}
use adx_agentic_payment.Base.Dict
use adx_agentic_payment.Base.Dict.{Dict}
use adx_agentic_payment.Game.Goods.{GoodId}
use adx_agentic_payment.Game.Negotiation.{
  NegotiationError, NegotiationRole, NegotiationAction, NegotiationActionKind, NegotiationTurn,
  Negotiation, make_action, is_propose, is_active, next_role, apply,
}

pub data RuleIntent : Type 0 where
  buy sell pass : RuleIntent

pub record RuleStrategy : Type 0 where
  pub intent : RuleIntent
  pub good : GoodId
  pub target_price_atomic : ℤ
  pub public_message : String

pub record RuleDecision : Type 0 where
  pub action : RuleIntent
  pub good : Option GoodId

abbrev decided_good : RuleIntent → GoodId → Option GoodId
decided_good RuleIntent.pass good = none
decided_good _ good = some good

-- `RuleRuntime.decide`.
unfoldable pub decide : RuleStrategy → RuleDecision
decide s = record { action = s.intent; good = decided_good s.intent s.good }

-- The errors of a runtime and of the loop; `fuel_spent` is none of the program's.
pub data RuleError : Type 0 where
  buyer_first quote_required not_a_rule_runtime fuel_spent : RuleError
  negotiation_error : NegotiationError → RuleError

abbrev pub raised_by : {A : Type 0} → Result NegotiationError A → Result RuleError A
raised_by (ok a) = ok a
raised_by (err e) = err (negotiation_error e)

abbrev pub offer : RuleStrategy → NegotiationAction
offer s = record {
  action = NegotiationActionKind.propose;
  price_atomic = some s.target_price_atomic;
  message = some s.public_message;
}

abbrev pub acceptance : NegotiationAction
acceptance = record { action = NegotiationActionKind.accept; price_atomic = none; message = none }

abbrev pub refusal : NegotiationAction
refusal = record {
  action = NegotiationActionKind.reject;
  price_atomic = none;
  message = some "价差未合，今日就此作罢。";
}

abbrev pub is_acceptable : RuleStrategy → NegotiationRole → ℤ → Bool
is_acceptable s NegotiationRole.buyer price = leb_ℤ price s.target_price_atomic
is_acceptable s NegotiationRole.seller price = leb_ℤ s.target_price_atomic price

abbrev pub open_with : RuleStrategy → NegotiationRole → Result RuleError NegotiationAction
open_with s NegotiationRole.buyer = raised_by (make_action (offer s))
open_with s NegotiationRole.seller = err buyer_first

abbrev pub answer :
    RuleStrategy → NegotiationRole → ℕ → Option ℤ → ℕ → Result RuleError NegotiationAction
answer s role sequence none max_turns = err quote_required
answer s role sequence (some price) max_turns =
    if is_acceptable s role price
    then raised_by (make_action acceptance)
    else if leb max_turns sequence
    then raised_by (make_action refusal)
    else raised_by (make_action (offer s))

-- `RuleRuntime.negotiate`.
unfoldable pub negotiate :
    RuleStrategy → NegotiationRole → ℕ → Option ℤ → ℕ → Result RuleError NegotiationAction
negotiate s role sequence latest max_turns =
    if sequence == 1 then open_with s role else answer s role sequence latest max_turns

abbrev pub proposed_price : Option NegotiationTurn → Option ℤ
proposed_price none = none
proposed_price (some t) = if is_propose t.action.action then t.action.price_atomic else none

abbrev pub participant : Negotiation → NegotiationRole → String
participant n NegotiationRole.buyer = n.buyer_participant_id
participant n NegotiationRole.seller = n.seller_participant_id

abbrev pub runtime_of : Option RuleStrategy → Result RuleError RuleStrategy
runtime_of none = err not_a_rule_runtime
runtime_of (some s) = ok s

-- The body of the loop.
unfoldable pub rule_turn : Dict String RuleStrategy → Negotiation → Result RuleError Negotiation
rule_turn runtimes n = and_then (runtime_of (Dict.get runtimes (participant n (next_role n)))) (λ s.
    and_then
      (negotiate s (next_role n) (suc (length n.turns)) (proposed_price (last? n.turns))
        n.max_turns)
      (λ a. raised_by (apply n (next_role n) a)))

-- The loop, with as much fuel as there may be turns.
unfoldable pub rule_turns :
    ℕ → Dict String RuleStrategy → Negotiation → Result RuleError Negotiation
rule_turns zero runtimes n = if is_active n.status then err fuel_spent else ok n
rule_turns (suc fuel) runtimes n =
    if is_active n.status then and_then (rule_turn runtimes n) (rule_turns fuel runtimes) else ok n

unfoldable pub rule_negotiation :
    Dict String RuleStrategy → Negotiation → Result RuleError Negotiation
rule_negotiation runtimes n = rule_turns n.max_turns runtimes n
