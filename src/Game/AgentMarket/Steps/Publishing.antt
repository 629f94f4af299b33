-- ===== src/Game/AgentMarket/Steps/Publishing.antt =====
-- What `publish_intent`, `submit_requests` and the two lists of the market do to it.
use adx_agentic_payment.Base.{
  ◌+◌, String, string_eq, false, ◌≡◌, refl, ◌⊎◌, inl, inr, Option, none, some, List, [], ◌∷◌, All,
  any, length, ◌==◌, ltb, AllPass, Bool-cases, Option-cases, not, if◌then◌else◌, ok, err, pure,
}
use adx_agentic_payment.Base.Dict
use adx_agentic_payment.Base.Dict.{Dict}
use adx_agentic_payment.Payments.Models.{Datetime, at_most}
use adx_agentic_payment.Game.Market.{is_buy}
use adx_agentic_payment.Game.AgentMarket.Terms.{
  AgentMarketError, naive_datetime, other_intent_published, intent_id_taken, already_published,
  not_a_buyer, requester_expired, other_batch, one_seller, unresolved_request, budget_exhausted,
  intent_not_found, is_key_error, intent_guards, request_guards, AgentMarketIntent,
  AgentNegotiationRequest, RequestRecord, other_intent,
}
use adx_agentic_payment.Game.AgentMarket.State.{ActionKind, AgentDrivenMarket, slot_key, slot_eq}
use adx_agentic_payment.Game.AgentMarket.Publishing.{
  with_intent, publish_new, same_intent, publish_unseen, publish_by, publish_intent,
  counterparty_guards, request_terms_guards, is_outstanding, targets_of, id_taken, submit_new,
  submit_by, submit_requests, stored_requests, other_requests, public_directory, inbound_requests,
  inbox, is_pending,
}
use adx_agentic_payment.Game.AgentMarket.Steps.{
  Step, Outcome, claim_of, with_claims, guard-Outcome, checks-Outcome, claims-Outcome,
  raise-Outcome,
}

module _ (m : AgentDrivenMarket) where
  same_intent-Outcome :
      (e : AgentMarketError) (i existing : AgentMarketIntent)
      → is_key_error e ≡ false
      → Outcome m (same_intent e i existing m)
  unfolding same_intent
  same_intent-Outcome e i existing k =
      guard-Outcome m (other_intent existing i) e (λ _. pure existing) k
        (λ same. Outcome.returned existing refl)

  publish_new-Outcome :
      (i : AgentMarketIntent)
      → AllPass (intent_guards i)
      → Dict.get m.intents i.intent_id ≡ none
      → Outcome m (publish_new i m)
  unfolding publish_new
  publish_new-Outcome i pass new =
      guard-Outcome m (Dict.has m.intent_by_participant_round (slot_key i)) already_published _ refl
        (λ first.
          claims-Outcome m ((i.source_result_id, claim_of ActionKind.intent i.intent_id) ∷ []) _
            (λ d claimed.
              Outcome.stepped i (with_intent i (with_claims d m))
                (Step.publishes i d pass new claimed refl) refl))

  pub publish_intent-Outcome :
      (i : AgentMarketIntent)
      → AllPass (intent_guards i)
      → ((s k : String)
          → Dict.get m.intent_by_result s ≡ some k
          → (j : AgentMarketIntent) × (Dict.get m.intents k ≡ some j))
      → Outcome m (publish_intent i m)
  unfolding publish_intent publish_by publish_unseen
  publish_intent-Outcome i pass stored =
      elim (Option-cases (Dict.get m.intent_by_result i.source_result_id)) [
        | inr (k, seen) ↦
            let (j, there) = stored i.source_result_id k seen in
            rw (seen, there) (same_intent-Outcome other_intent_published i j refl)
        | inl unseen ↦ elim (Option-cases (Dict.get m.intents i.intent_id)) [
          | inr (j, there) ↦ rw (unseen, there) (same_intent-Outcome intent_id_taken i j refl)
          | inl new ↦ rw (unseen, new) (publish_new-Outcome i pass new)
        ]
      ]

  pub public_directory-Outcome :
      (id : String) (at : Datetime) → Outcome m (public_directory id at m)
  unfolding public_directory
  public_directory-Outcome id at = guard-Outcome m (not at.aware) naive_datetime _ refl (λ aware.
      raise-Outcome m (Dict.get m.intents id) intent_not_found _ refl (λ requester found.
        guard-Outcome m (not (is_buy requester.side)) not_a_buyer _ refl (λ buys.
          guard-Outcome m (at_most requester.expires_at at) requester_expired _ refl
            (λ live. Outcome.returned _ refl))))

  id_taken-none :
      (r : AgentNegotiationRequest) (o : Option RequestRecord) → AllPass (id_taken r o) → o ≡ none
  id_taken-none r none h = refl
  id_taken-none r (some x) h = cc (h.1.0)

  id_taken-errors :
      (r : AgentNegotiationRequest) (o : Option RequestRecord)
      → All (λ g. is_key_error g.1 ≡ false) (id_taken r o)
  id_taken-errors r none = tt
  id_taken-errors r (some x) = (refl, (refl, tt))

  submit_new-Outcome :
      (r : AgentNegotiationRequest) → AllPass (request_guards r) → Outcome m (submit_new r m)
  unfolding submit_new
  submit_new-Outcome r pass =
      raise-Outcome m (Dict.get m.intents r.buyer_intent_id) intent_not_found _ refl
        (λ buyer has_buyer.
          guard-Outcome m (any (is_outstanding buyer.intent_id) (Dict.values m.requests))
            unresolved_request _ refl
            (λ resolved.
              guard-Outcome m (ltb m.max_outbound_rfq (length (targets_of m buyer.intent_id) + 1))
                budget_exhausted _ refl
                (λ within.
                  checks-Outcome m (id_taken r (Dict.get m.requests r.request_id)) _
                    (id_taken-errors r (Dict.get m.requests r.request_id))
                    (λ free.
                      raise-Outcome m (Dict.get m.intents r.seller_intent_id) intent_not_found _
                        refl
                        (λ seller has_seller.
                          checks-Outcome m (counterparty_guards buyer seller) _
                            (refl, (refl, (refl, (refl, (refl, tt)))))
                            (λ fit.
                              checks-Outcome m
                                (request_terms_guards m buyer seller (targets_of m buyer.intent_id)
                                  r)
                                _ (refl, (refl, (refl, (refl, tt))))
                                (λ terms. claims-Outcome m _ _ (λ d claimed.
                                  Outcome.stepped _ _
                                    (Step.requests r buyer seller d pass
                                      (id_taken-none r (Dict.get m.requests r.request_id) free)
                                      has_buyer has_seller resolved within fit terms claimed refl)
                                    refl))))))))

  stored_requests-found :
      (ids : List String)
      → All (λ k. (q : RequestRecord) × (Dict.get m.requests k ≡ some q)) ids
      → (l : List AgentNegotiationRequest) × (stored_requests ids m ≡ (ok l, m))
  stored_requests-found [] h = ([], refl)
  stored_requests-found (id ∷ ids) h =
      let (q, there) = h.0 in
      let (l, found) = stored_requests-found ids h.1 in (q.request ∷ l, rw (there, found) refl)

  submit_by-Outcome :
      (r : AgentNegotiationRequest) (o : Option (List String))
      → AllPass (request_guards r)
      → ((ks : List String)
          → o ≡ some ks
          → All (λ k. (q : RequestRecord) × (Dict.get m.requests k ≡ some q)) ks)
      → Outcome m (submit_by r o m)
  unfolding submit_by
  submit_by-Outcome r none pass stored = submit_new-Outcome r pass
  submit_by-Outcome r (some ks) pass stored =
      let (l, found) = stored_requests-found ks (stored ks refl) in
      rw found (
        guard-Outcome m (other_requests l (r ∷ [])) other_batch (λ _. pure l) refl
          (λ same. Outcome.returned l refl))

  pub submit_requests-Outcome :
      (rs : List AgentNegotiationRequest)
      → All (λ r. AllPass (request_guards r)) rs
      → ((s : String) (ks : List String)
          → Dict.get m.request_ids_by_result s ≡ some ks
          → All (λ k. (q : RequestRecord) × (Dict.get m.requests k ≡ some q)) ks)
      → Outcome m (submit_requests rs m)
  unfolding submit_requests
  submit_requests-Outcome [] pass stored = Outcome.refused one_seller refl refl
  submit_requests-Outcome (r ∷ []) pass stored =
      submit_by-Outcome r (Dict.get m.request_ids_by_result r.source_result_id) pass.0
        (stored r.source_result_id)
  submit_requests-Outcome (r ∷ s ∷ rs) pass stored = Outcome.refused one_seller refl refl

  inbox-reads :
      (seller : String) (rs : List RequestRecord)
      → ((l : List AgentNegotiationRequest) × (inbox seller rs m ≡ (ok l, m)))
        ⊎ (inbox seller rs m ≡ (err intent_not_found, m))
  inbox-reads seller [] = inl ([], refl)
  inbox-reads seller (r ∷ rs) = elim (Bool-cases (is_pending r.status)) [
    | inr settled ↦ rw settled (inbox-reads seller rs)
    | inl waits ↦ elim (Option-cases (Dict.get m.intents r.request.seller_intent_id)) [
      | inl none_ ↦ inr (rw (waits, none_) refl)
      | inr (i, there) ↦ elim (inbox-reads seller rs) [
        | inl (l, read) ↦
            inl (
              if i.participant_id == seller then r.request ∷ l else l,
              rw (waits, there, read) refl,
            )
        | inr raised ↦ inr (rw (waits, there, raised) refl)
      ]
    ]
  ]

  pub inbound_requests-Outcome : (seller : String) → Outcome m (inbound_requests seller m)
  unfolding inbound_requests
  inbound_requests-Outcome seller = elim (inbox-reads seller (Dict.values m.requests)) [
    | inl (l, read) ↦ rw read (Outcome.returned _ refl)
    | inr raised ↦ rw raised (Outcome.refused intent_not_found refl refl)
  ]
