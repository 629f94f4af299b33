-- ===== src/Game/AgentMarket/Steps.antt =====
-- The market as a state machine: the steps that a call can take, with the guards that it has passed
-- as the premises, and what a call does: it returns or raises without a write, takes one step and
-- returns, or writes that the counterparty was busy and raises.
pub mod Publishing
pub mod Engaging
use adx_agentic_payment.Base.{
  ℕ, ◌+◌, String, Bool, true, false, ◌≡◌, refl, Option, none, some, List, [], ◌∷◌, All, any, length,
  ltb, AllPass, Bool-cases, Option-cases, Result-cases, ◌||◌, string_eq, if◌then◌else◌, Result, ok,
  err, checks, checks-AllPass, checks_err, Action, raise_if, or_raise, lift, ◌>>=◌, ◌⊎◌, inl, inr,
}
use adx_agentic_payment.Base.Dict
use adx_agentic_payment.Base.Dict.{Dict}
use adx_agentic_payment.Base.Text.{joined}
use adx_agentic_payment.Game.AgentMarket.Terms.{
  AgentMarketError, counterparty_busy, is_key_error, intent_guards, request_guards,
  AgentMarketIntent, AgentNegotiationRequest, AgentMarketEngagement, RequestRecord,
}
use adx_agentic_payment.Game.AgentMarket.State.{
  ActionKind, Claim, AgentDrivenMarket, Call, slot_key, is_reserved, claim_results, slot_eq,
}
use adx_agentic_payment.Game.AgentMarket.Claims.{Claimed, Keeps, claim_results-Claimed}
use adx_agentic_payment.Game.AgentMarket.Publishing.{
  with_intent, with_request, counterparty_guards, request_terms_guards, is_outstanding, targets_of,
  is_pending,
}
use adx_agentic_payment.Game.AgentMarket.Engaging.{
  engagement_of, with_engagement, with_request_status, mark_busy, mark_rejected, ClosingStatus,
  is_active, close_as, with_engagement_state, with_released, Terms, same_pair, freeze_guards,
  freeze_claims, with_deal,
}

abbrev pub with_claims : Dict String Claim → AgentDrivenMarket → AgentDrivenMarket
with_claims d m = record m { result_claims = d }

abbrev pub claim_of : ActionKind → String → Claim
claim_of kind id = record { kind = kind; action_id = id }

-- The market after `close_engagement` has written all that it writes.
abbrev pub after_closing :
    String
    → AgentMarketEngagement
    → ClosingStatus
    → Option String
    → RequestRecord
    → AgentMarketIntent
    → AgentMarketIntent
    → AgentDrivenMarket
    → AgentDrivenMarket
after_closing id e status source r buyer seller m = with_released e.engagement_id buyer seller (
    with_request_status e.request_id (mark_rejected r)
      (with_engagement_state id (close_as e status source) m))

pub data Step (m m' : AgentDrivenMarket) : Type 0 where
  publishes :
      (i : AgentMarketIntent) (d : Dict String Claim)
      → AllPass (intent_guards i)
      → Dict.get m.intents i.intent_id ≡ none
      → Claimed
          ((i.source_result_id, claim_of ActionKind.intent i.intent_id) ∷ [])
          m.result_claims
          d
      → m' ≡ with_intent i (with_claims d m)
      → Step m m'
  requests :
      (r : AgentNegotiationRequest) (buyer seller : AgentMarketIntent) (d : Dict String Claim)
      → AllPass (request_guards r)
      → Dict.get m.requests r.request_id ≡ none
      → Dict.get m.intents r.buyer_intent_id ≡ some buyer
      → Dict.get m.intents r.seller_intent_id ≡ some seller
      → any (is_outstanding buyer.intent_id) (Dict.values m.requests) ≡ false
      → ltb m.max_outbound_rfq (length (targets_of m buyer.intent_id) + 1) ≡ false
      → AllPass (counterparty_guards buyer seller)
      → AllPass (request_terms_guards m buyer seller (targets_of m buyer.intent_id) r)
      → Claimed
          ((
            r.source_result_id,
            claim_of ActionKind.rfq (joined ("rfq-batch" ∷ r.source_result_id ∷ [])),
          )
            ∷ [])
          m.result_claims
          d
      → m' ≡ with_request r (with_claims d m)
      → Step m m'
  busies :
      (id : String) (r : RequestRecord)
      → Dict.get m.requests id ≡ some r
      → is_pending r.status ≡ true
      → m' ≡ with_request_status id (mark_busy r) m
      → Step m m'
  engages :
      (id selection : String) (r : RequestRecord) (buyer seller : AgentMarketIntent)
      (d : Dict String Claim)
      → Dict.get m.requests id ≡ some r
      → is_pending r.status ≡ true
      → Dict.get m.intents r.request.buyer_intent_id ≡ some buyer
      → Dict.get m.intents r.request.seller_intent_id ≡ some seller
      → (is_reserved m buyer || is_reserved m seller) ≡ false
      → Claimed
          ((selection, claim_of ActionKind.engage (joined ("engagement" ∷ id ∷ []))) ∷ [])
          m.result_claims
          d
      → m'
        ≡ with_engagement r buyer seller (engagement_of id buyer seller selection) (with_claims d m)
      → Step m m'
  closes :
      (id : String) (e : AgentMarketEngagement) (status : ClosingStatus) (source : Option String)
      (r : RequestRecord) (buyer seller : AgentMarketIntent) (d : Dict String Claim)
      → Dict.get m.engagements id ≡ some e
      → is_active e.status ≡ true
      → Dict.get m.requests e.request_id ≡ some r
      → Dict.get m.intents e.buyer_intent_id ≡ some buyer
      → Dict.get m.intents e.seller_intent_id ≡ some seller
      → Keeps m.result_claims d
      → m' ≡ after_closing id e status source r buyer seller (with_claims d m)
      → Step m m'
  freezes :
      (t : Terms) (e : AgentMarketEngagement) (r : RequestRecord) (buyer seller : AgentMarketIntent)
      (d : Dict String Claim)
      → Dict.get m.deals (joined ("deal" ∷ t.engagement_id ∷ [])) ≡ none
      → Dict.get m.engagements t.engagement_id ≡ some e
      → is_active e.status ≡ true
      → same_pair t.latest_proposal_actor_id t.accepted_by_participant_id e.buyer_participant_id
          e.seller_participant_id
        ≡ true
      → Dict.get m.intents e.buyer_intent_id ≡ some buyer
      → Dict.get m.intents e.seller_intent_id ≡ some seller
      → Dict.get m.requests e.request_id ≡ some r
      → AllPass (freeze_guards buyer seller r.request t)
      → Claimed (freeze_claims r.request t) m.result_claims d
      → m' ≡ with_deal e t (with_claims d m)
      → Step m m'

pub data Outcome {A : Type 0} (m : AgentDrivenMarket)
    (r : Result AgentMarketError A × AgentDrivenMarket) : Type 0 where
  returned : (a : A) → r ≡ (ok a, m) → Outcome m r
  stepped : (a : A) (m' : AgentDrivenMarket) → Step m m' → r ≡ (ok a, m') → Outcome m r
  refused : (e : AgentMarketError) → is_key_error e ≡ false → r ≡ (err e, m) → Outcome m r
  busied :
      (id : String) (q : RequestRecord)
      → Dict.get m.requests id ≡ some q
      → is_pending q.status ≡ true
      → r ≡ (err counterparty_busy, with_request_status id (mark_busy q) m)
      → Outcome m r

-- One command of a method: the rest runs when the command does not raise.
module _ {A : Type 0} (m : AgentDrivenMarket) where
  pub guard-Outcome :
      (c : Bool) (e : AgentMarketError) (f : Unit → Call A)
      → is_key_error e ≡ false
      → (c ≡ false → Outcome m (f tt m))
      → Outcome m ((raise_if c e >>= f) m)
  guard-Outcome true e f k h = Outcome.refused e k refl
  guard-Outcome false e f k h = h refl

  pub checks-Outcome :
      (guards : List (Bool × AgentMarketError)) (f : Unit → Call A)
      → All (λ g. is_key_error g.1 ≡ false) guards
      → (AllPass guards → Outcome m (f tt m))
      → Outcome m ((lift (checks guards) >>= f) m)
  checks-Outcome guards f k h = elim (Result-cases (checks guards)) [
    | inl (u, pass) ↦ rw pass (h (checks-AllPass guards pass))
    | inr (e, raised) ↦
        rw raised
          (Outcome.refused e (checks_err (λ x. is_key_error x ≡ false) guards e k raised) refl)
  ]

  pub claims-Outcome :
      (l : List (String × Claim)) (f : Unit → Call A)
      → ((d : Dict String Claim) → Claimed l m.result_claims d → Outcome m (f tt (with_claims d m)))
      → Outcome m ((claim_results l >>= f) m)
  claims-Outcome l f h = elim (claim_results-Claimed l m) [
    | inl (d, claimed, done) ↦ rw done (h d claimed)
    | inr (e, k, raised) ↦ rw raised (Outcome.refused e k refl)
  ]

module _ {A B : Type 0} (m : AgentDrivenMarket) where
  pub raise-Outcome :
      (o : Option B) (e : AgentMarketError) (f : B → Call A)
      → is_key_error e ≡ false
      → ((b : B) → o ≡ some b → Outcome m (f b m))
      → Outcome m ((or_raise o e >>= f) m)
  raise-Outcome none e f k h = Outcome.refused e k refl
  raise-Outcome (some b) e f k h = h b refl
