-- ===== src/Game/AgentMarket/Steps/Engaging.antt =====
-- What `engage_request`, `close_engagement`, `freeze_deal` and `request_status` do to the market.
use adx_agentic_payment.Base.{
  String, string_eq, option_eq, Bool, true, false, ◌≡◌, refl, inl, inr, Option, none, some, [], ◌∷◌,
  All, Bool-cases, not, ◌||◌, ◌&&◌, ◌==◌, if◌then◌else◌, ◌>>=◌, pure,
}
use adx_agentic_payment.Base.Dict
use adx_agentic_payment.Base.Dict.{Dict}
use adx_agentic_payment.Base.Text.{joined}
use adx_agentic_payment.Game.AgentMarket.Terms.{
  bad_identifier, other_selection, not_pending, not_the_seller, already_terminal, deal_immutable,
  not_active, not_counterparties, intent_not_found, request_not_found, engagement_not_found,
  is_key_error, bad_id, AgentMarketIntent, AgentMarketEngagement, AgentMarketDeal, RequestRecord,
}
use adx_agentic_payment.Game.AgentMarket.State.{
  ActionKind, Claim, AgentDrivenMarket, Call, is_reserved, slot_eq,
}
use adx_agentic_payment.Game.AgentMarket.Publishing.{is_pending}
use adx_agentic_payment.Game.AgentMarket.Engaging.{
  engagement_of, engage_free, refuse_busy, engage_new, engage_by, engage_request, ClosingStatus,
  is_active, is_closed_as, closing_guards, claim_rejection, close_as, release_slots, close_active,
  close_terminal, close_engagement, Terms, terms_guards, other_deal, same_pair, freeze_guards,
  freeze_claims, deal_of, with_deal, freeze_new, freeze_by, freeze_deal, request_status,
}
use adx_agentic_payment.Game.AgentMarket.Claims.{Keeps}
use adx_agentic_payment.Game.AgentMarket.Steps.{
  Step, Outcome, claim_of, with_claims, after_closing, guard-Outcome, checks-Outcome,
  claims-Outcome, raise-Outcome,
}

not-false : (b : Bool) → not b ≡ false → b ≡ true
not-false true h = refl
not-false false h = cc

module _ (m : AgentDrivenMarket) where
  engage_slots-Outcome :
      (id selection : String) (r : RequestRecord) (buyer seller : AgentMarketIntent)
      → Dict.get m.requests id ≡ some r
      → is_pending r.status ≡ true
      → Dict.get m.intents r.request.buyer_intent_id ≡ some buyer
      → Dict.get m.intents r.request.seller_intent_id ≡ some seller
      → Outcome m (
          (if is_reserved m buyer || is_reserved m seller
              then refuse_busy id r
              else engage_free r buyer seller (engagement_of id buyer seller selection))
            m)
  unfolding refuse_busy engage_free
  engage_slots-Outcome id selection r buyer seller there waits has_buyer has_seller =
      elim (Bool-cases (is_reserved m buyer || is_reserved m seller)) [
        | inl busy ↦ rw busy (Outcome.busied id r there waits refl)
        | inr free ↦ rw free (
            claims-Outcome m _ _ (λ d claimed.
              Outcome.stepped _ _
                (Step.engages id selection r buyer seller d there waits has_buyer has_seller free
                  claimed refl)
                refl))
      ]

  engage_new-Outcome : (actor id selection : String) → Outcome m (engage_new actor id selection m)
  unfolding engage_new
  engage_new-Outcome actor id selection =
      raise-Outcome m (Dict.get m.requests id) request_not_found _ refl (λ r there.
        guard-Outcome m (not (is_pending r.status)) not_pending _ refl (λ waits.
          raise-Outcome m (Dict.get m.intents r.request.buyer_intent_id) intent_not_found _ refl
            (λ buyer has_buyer.
              raise-Outcome m (Dict.get m.intents r.request.seller_intent_id) intent_not_found _
                refl
                (λ seller has_seller.
                  guard-Outcome m (not (seller.participant_id == actor)) not_the_seller _ refl
                    (λ own.
                      engage_slots-Outcome id selection r buyer seller there
                        (not-false (is_pending r.status) waits) has_buyer has_seller)))))

  engage_by-Outcome :
      (actor id selection : String) (o : Option String)
      → ((k : String)
          → o ≡ some k
          → (e : AgentMarketEngagement) × (Dict.get m.engagements k ≡ some e))
      → Outcome m (engage_by actor id selection o m)
  unfolding engage_by
  engage_by-Outcome actor id selection none stored = engage_new-Outcome actor id selection
  engage_by-Outcome actor id selection (some k) stored =
      let (e, there) = stored k refl in
      rw there (
        guard-Outcome m (not (e.request_id == id) || not (e.seller_participant_id == actor))
          other_selection (λ _. pure e) refl (λ same. Outcome.returned e refl))

  pub engage_request-Outcome :
      (actor id selection : String)
      → ((s k : String)
          → Dict.get m.engagement_by_selection_result s ≡ some k
          → (e : AgentMarketEngagement) × (Dict.get m.engagements k ≡ some e))
      → Outcome m (engage_request actor id selection m)
  unfolding engage_request
  engage_request-Outcome actor id selection stored =
      guard-Outcome m (bad_id selection) bad_identifier _ refl (λ good.
        engage_by-Outcome actor id selection (Dict.get m.engagement_by_selection_result selection)
          (stored selection))

  claim_rejection-Outcome :
      {A : Type 0} (source : Option String) (id : String) (f : Unit → Call A)
      → ((d : Dict String Claim) → Keeps m.result_claims d → Outcome m (f tt (with_claims d m)))
      → Outcome m ((claim_rejection source id >>= f) m)
  unfolding claim_rejection
  claim_rejection-Outcome none id f h = h m.result_claims (λ k v g. g)
  claim_rejection-Outcome (some s) id f h = elim (Bool-cases (bad_id s)) [
    | inl bad ↦ rw bad (Outcome.refused bad_identifier refl refl)
    | inr good ↦ rw good (
        claims-Outcome m ((s, claim_of ActionKind.reject id) ∷ []) f
          (λ d claimed. h d claimed.keeps))
  ]

  closing_errors :
      (status : ClosingStatus) (source : Option String)
      → All (λ g. is_key_error g.1 ≡ false) (closing_guards status source)
  closing_errors ClosingStatus.rejected source = (refl, tt)
  closing_errors ClosingStatus.timed_out source = (refl, tt)

  close_active-Outcome :
      (id : String) (e : AgentMarketEngagement) (status : ClosingStatus) (source : Option String)
      (r : RequestRecord) (buyer seller : AgentMarketIntent)
      → Dict.get m.engagements id ≡ some e
      → is_active e.status ≡ true
      → Dict.get m.requests e.request_id ≡ some r
      → Dict.get m.intents e.buyer_intent_id ≡ some buyer
      → Dict.get m.intents e.seller_intent_id ≡ some seller
      → Outcome m (close_active id e status source m)
  unfolding close_active release_slots
  close_active-Outcome id e status source r buyer seller there active has_request has_buyer
        has_seller =
      checks-Outcome m (closing_guards status source) _ (closing_errors status source) (λ allowed.
        claim_rejection-Outcome source id _ (λ d kept.
          Outcome.stepped (close_as e status source)
            (after_closing id e status source r buyer seller (with_claims d m))
            (Step.closes id e status source r buyer seller d there active has_request has_buyer
              has_seller kept refl)
            (rw (has_request, has_buyer, has_seller) refl)))

  close_terminal-Outcome :
      (e : AgentMarketEngagement) (status : ClosingStatus) (source : Option String)
      → Outcome m (close_terminal e status source m)
  unfolding close_terminal
  close_terminal-Outcome e status source =
      elim (Bool-cases (is_closed_as status e.status && (e.terminal_source_result_id == source))) [
        | inl same ↦ rw same (Outcome.returned e refl)
        | inr other ↦ rw other (Outcome.refused already_terminal refl refl)
      ]

  pub close_engagement-Outcome :
      (id : String) (status : ClosingStatus) (source : Option String)
      → ((k : String) (e : AgentMarketEngagement)
          → Dict.get m.engagements k ≡ some e
          → ((r : RequestRecord) × (Dict.get m.requests e.request_id ≡ some r))
            × ((buyer : AgentMarketIntent) × (Dict.get m.intents e.buyer_intent_id ≡ some buyer))
            × ((seller : AgentMarketIntent) × (Dict.get m.intents e.seller_intent_id
                  ≡ some seller)))
      → Outcome m (close_engagement id status source m)
  unfolding close_engagement
  close_engagement-Outcome id status source stored =
      raise-Outcome m (Dict.get m.engagements id) engagement_not_found _ refl (λ e there.
        elim (Bool-cases (is_active e.status)) [
          | inl active ↦
              let ((r, has_request), (buyer, has_buyer), (seller, has_seller)) =
                stored id e there in
              rw active (
                close_active-Outcome id e status source r buyer seller there active has_request
                  has_buyer has_seller)
          | inr ended ↦ rw ended (close_terminal-Outcome e status source)
        ])

  freeze_new-Outcome :
      (e : AgentMarketEngagement) (t : Terms)
      → Dict.get m.engagements t.engagement_id ≡ some e
      → Dict.get m.deals (joined ("deal" ∷ t.engagement_id ∷ [])) ≡ none
      → Outcome m (freeze_new e t m)
  unfolding freeze_new
  freeze_new-Outcome e t there new =
      guard-Outcome m (not (is_active e.status)) not_active _ refl (λ active.
        guard-Outcome m
          (not (
            same_pair t.latest_proposal_actor_id t.accepted_by_participant_id e.buyer_participant_id
              e.seller_participant_id))
          not_counterparties _ refl
          (λ opposite.
            raise-Outcome m (Dict.get m.intents e.buyer_intent_id) intent_not_found _ refl
              (λ buyer has_buyer.
                raise-Outcome m (Dict.get m.intents e.seller_intent_id) intent_not_found _ refl
                  (λ seller has_seller.
                    raise-Outcome m (Dict.get m.requests e.request_id) request_not_found _ refl
                      (λ r has_request.
                        checks-Outcome m (freeze_guards buyer seller r.request t) _
                          (refl, (refl, tt))
                          (λ pass. claims-Outcome m (freeze_claims r.request t) _ (λ d claimed.
                            Outcome.stepped (deal_of e t) (with_deal e t (with_claims d m))
                              (Step.freezes t e r buyer seller d new there
                                (not-false (is_active e.status) active)
                                (not-false
                                  (same_pair t.latest_proposal_actor_id t.accepted_by_participant_id
                                    e.buyer_participant_id e.seller_participant_id)
                                  opposite)
                                has_buyer has_seller has_request pass claimed refl)
                              refl)))))))

  freeze_by-Outcome :
      (e : AgentMarketEngagement) (t : Terms) (o : Option AgentMarketDeal)
      → Dict.get m.engagements t.engagement_id ≡ some e
      → Dict.get m.deals (joined ("deal" ∷ t.engagement_id ∷ [])) ≡ o
      → Outcome m (freeze_by e t o m)
  unfolding freeze_by
  freeze_by-Outcome e t none there new = freeze_new-Outcome e t there new
  freeze_by-Outcome e t (some d) there old =
      guard-Outcome m (other_deal d t) deal_immutable (λ _. pure d) refl
        (λ same. Outcome.returned d refl)

  pub freeze_deal-Outcome : (t : Terms) → Outcome m (freeze_deal t m)
  unfolding freeze_deal
  freeze_deal-Outcome t =
      checks-Outcome m (terms_guards t) _ (refl, (refl, tt))
        (λ pass.
          raise-Outcome m (Dict.get m.engagements t.engagement_id) engagement_not_found _ refl
            (λ e there.
              freeze_by-Outcome e t (Dict.get m.deals (joined ("deal" ∷ t.engagement_id ∷ [])))
                there refl))

  pub request_status-Outcome : (id : String) → Outcome m (request_status id m)
  unfolding request_status
  request_status-Outcome id =
      raise-Outcome m (Dict.get m.requests id) request_not_found _ refl
        (λ r there. Outcome.returned r.status refl)
