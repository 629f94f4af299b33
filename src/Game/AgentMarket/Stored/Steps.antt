-- ===== src/Game/AgentMarket/Stored/Steps.antt =====
-- Each step adds facts on its new entries to those on the old ones.
use adx_agentic_payment.Base.{
  String, string_eq, ◌≡◌, refl, sym, ◌∙◌, inl, inr, Option, none, some, [], ◌∷◌, All, AllPass,
  Bool-cases, ==_refl, some_inj,
}
use mathlib.Core.Path.{subst}
use adx_agentic_payment.Base.Dict
use adx_agentic_payment.Base.Dict.{Dict}
use adx_agentic_payment.Base.Text.{joined}
use adx_agentic_payment.Game.AgentMarket.Terms.{
  EngagementStatus, AgentMarketIntent, AgentNegotiationRequest, AgentMarketEngagement,
  RequestRecord, RequestStatus, intent_guards, request_guards,
}
use adx_agentic_payment.Game.AgentMarket.State.{ActionKind, Claim, AgentDrivenMarket, slot_eq}
use adx_agentic_payment.Game.AgentMarket.Publishing.{counterparty_guards, with_intent, with_request}
use adx_agentic_payment.Game.AgentMarket.Engaging.{
  with_request_status, mark_busy, mark_engaged, mark_rejected, with_engagement, engagement_of,
  ClosingStatus, close_as, Terms, freeze_guards, freeze_claims, accept, deal_of, with_deal,
  binding_opening,
}
use adx_agentic_payment.Game.AgentMarket.Claims.{Claimed}
use adx_agentic_payment.Game.AgentMarket.Steps.{Step, with_claims, after_closing, claim_of}
use adx_agentic_payment.Game.AgentMarket.Kept.{Step-Grows}
use adx_agentic_payment.Game.AgentMarket.Stored.{
  put-Each, HasIntent, HasRequest, HasEngagement, Pairing, Requested, Engaged, Dealt, Stored, carry,
  stored-Unengaged,
}

get-put_here {ℓ} :
    {V : Type ℓ} (d : Dict String V) (k : String) (v : V) → Dict.get (Dict.put d k v) k ≡ some v
get-put_here d k v = rw (Dict.get-put d k k v, ==_refl k) refl

Requested-same :
    (m : AgentDrivenMarket) (k : String) (r r' : RequestRecord)
    → r.request ≡ r'.request
    → Requested m k r
    → Requested m k r'
Requested-same m k r r' same h = record {
  id = subst (λ q. q.request_id ≡ k) same h.id;
  valid = subst (λ q. AllPass (request_guards q)) same h.valid;
  pairing = subst (λ q. Pairing m q.buyer_intent_id q.seller_intent_id) same h.pairing;
}

-- An engagement whose status alone differs.
Engaged-same :
    (m : AgentDrivenMarket) (k : String) (e : AgentMarketEngagement) (status : EngagementStatus)
    (source : Option String)
    → Engaged m k e
    → Engaged m k (record e { status = status; terminal_source_result_id = source })
Engaged-same m k e status source h = record {
  own = h.own;
  of_request = h.of_request;
  request = h.request;
  has_request = h.has_request;
  settled = h.settled;
  pairing = h.pairing;
  buyer_side = h.buyer_side;
  seller_side = h.seller_side;
  same_good = h.same_good;
}

acceptance_listed :
    (d : Dict String Claim) (r : AgentNegotiationRequest) (t : Terms)
    → All (λ x. Dict.get d x.0 ≡ some x.1) (freeze_claims r t)
    → Dict.get d t.acceptance_result_id ≡ some (claim_of ActionKind.acceptance t.engagement_id)
acceptance_listed d r t h = elim (Bool-cases (binding_opening r t)) [
  | inl binding ↦ (rw binding at h).0
  | inr free ↦ (rw free at h).1.0
]

module _ (m : AgentDrivenMarket) where
  publishes-Stored :
      (i : AgentMarketIntent) (d : Dict String Claim)
      → AllPass (intent_guards i)
      → Stored m (with_intent i (with_claims d m))
      → Stored (with_intent i (with_claims d m)) (with_intent i (with_claims d m))
  publishes-Stored i d valid c =
      let m' : AgentDrivenMarket = with_intent i (with_claims d m) in
      record {
        published =
            put-Each (λ s k. HasIntent m' k) m.intent_by_result i.source_result_id i.intent_id
              (i, get-put_here m.intents i.intent_id i) c.published;
        submitted = c.submitted;
        selected = c.selected;
        intents =
            put-Each (λ k j. (j.intent_id ≡ k) × AllPass (intent_guards j)) m.intents i.intent_id i
              (refl, valid) c.intents;
        requests = c.requests;
        engaged = c.engaged;
        deals = c.deals;
      }

  requests-Stored :
      (r : AgentNegotiationRequest) (d : Dict String Claim)
      → AllPass (request_guards r)
      → Pairing (with_request r (with_claims d m)) r.buyer_intent_id r.seller_intent_id
      → Stored m (with_request r (with_claims d m))
      → Stored (with_request r (with_claims d m)) (with_request r (with_claims d m))
  requests-Stored r d valid pairing c =
      let m' : AgentDrivenMarket = with_request r (with_claims d m) in
      let q : RequestRecord = record {
        request = r;
        status = RequestStatus.pending;
        engagement_id = none;
      } in
      record {
        published = c.published;
        submitted =
            put-Each (λ s ks. All (HasRequest m') ks) m.request_ids_by_result r.source_result_id
              (r.request_id ∷ []) ((q, get-put_here m.requests r.request_id q), tt) c.submitted;
        selected = c.selected;
        intents = c.intents;
        requests =
            put-Each (Requested m') m.requests r.request_id q
              (record { id = refl; valid = valid; pairing = pairing }) c.requests;
        engaged = c.engaged;
        deals = c.deals;
      }

  busies-Stored :
      (id : String) (r : RequestRecord)
      → Dict.get m.requests id ≡ some r
      → Stored m (with_request_status id (mark_busy r) m)
      → Stored (with_request_status id (mark_busy r) m) (with_request_status id (mark_busy r) m)
  busies-Stored id r there c =
      let m' : AgentDrivenMarket = with_request_status id (mark_busy r) m in
      record {
        published = c.published;
        submitted = c.submitted;
        selected = c.selected;
        intents = c.intents;
        requests =
            put-Each (Requested m') m.requests id (mark_busy r)
              (Requested-same m' id r (mark_busy r) refl (c.requests id r there)) c.requests;
        engaged = c.engaged;
        deals = c.deals;
      }

  engages-Stored :
      (id selection : String) (r : RequestRecord) (buyer seller : AgentMarketIntent)
      (d : Dict String Claim)
      → Dict.get m.requests id ≡ some r
      → Dict.get m.intents r.request.buyer_intent_id ≡ some buyer
      → Dict.get m.intents r.request.seller_intent_id ≡ some seller
      → Stored m (
          with_engagement r buyer seller
            (engagement_of id buyer seller selection)
            (with_claims d m))
      → Stored
          (with_engagement r buyer seller
            (engagement_of id buyer seller selection)
            (with_claims d m))
          (with_engagement r buyer seller
            (engagement_of id buyer seller selection)
            (with_claims d m))
  engages-Stored id selection r buyer seller d there has_buyer has_seller c =
      let e : AgentMarketEngagement = engagement_of id buyer seller selection in
      let m' : AgentDrivenMarket = with_engagement r buyer seller e (with_claims d m) in
      let q : RequestRecord = mark_engaged r e.engagement_id in
      let old = c.requests id r there in
      let b_id = (c.intents r.request.buyer_intent_id buyer has_buyer).0 in
      let s_id = (c.intents r.request.seller_intent_id seller has_seller).0 in
      let same_buyer : old.pairing.buyer ≡ buyer =
        some_inj (sym old.pairing.has_buyer ∙ has_buyer) in
      let same_seller : old.pairing.seller ≡ seller =
        some_inj (sym old.pairing.has_seller ∙ has_seller) in
      record {
        published = c.published;
        submitted = c.submitted;
        selected =
            put-Each (λ s k. HasEngagement m' k) m.engagement_by_selection_result selection
              e.engagement_id (e, get-put_here m.engagements e.engagement_id e) c.selected;
        intents = c.intents;
        requests =
            put-Each (Requested m') m.requests id q (Requested-same m' id r q refl old) c.requests;
        engaged =
            put-Each (Engaged m') m.engagements e.engagement_id e
              (record {
                own = refl;
                of_request = refl;
                request = q;
                has_request = get-put_here m.requests id q;
                settled = refl;
                pairing = record {
                  buyer = buyer;
                  seller = seller;
                  has_buyer = subst (λ x. Dict.get m.intents x ≡ some buyer) (sym b_id) has_buyer;
                  has_seller =
                      subst (λ x. Dict.get m.intents x ≡ some seller) (sym s_id) has_seller;
                  fit =
                      subst (λ s. AllPass (counterparty_guards buyer s)) same_seller
                        (subst (λ b. AllPass (counterparty_guards b old.pairing.seller)) same_buyer
                          old.pairing.fit);
                };
                buyer_side = refl;
                seller_side = refl;
                same_good = refl;
              })
              c.engaged;
        deals = c.deals;
      }

  closes-Stored :
      (id : String) (e : AgentMarketEngagement) (status : ClosingStatus) (source : Option String)
      (r : RequestRecord) (buyer seller : AgentMarketIntent) (d : Dict String Claim)
      → Dict.get m.engagements id ≡ some e
      → Dict.get m.requests e.request_id ≡ some r
      → Stored m (after_closing id e status source r buyer seller (with_claims d m))
      → Stored
          (after_closing id e status source r buyer seller (with_claims d m))
          (after_closing id e status source r buyer seller (with_claims d m))
  closes-Stored id e status source r buyer seller d there has_request c =
      let m' : AgentDrivenMarket =
        after_closing id e status source r buyer seller (with_claims d m) in
      record {
        published = c.published;
        submitted = c.submitted;
        selected = c.selected;
        intents = c.intents;
        requests =
            put-Each (Requested m') m.requests e.request_id (mark_rejected r)
              (Requested-same m' e.request_id r (mark_rejected r) refl
                (c.requests e.request_id r has_request))
              c.requests;
        engaged =
            put-Each (Engaged m') m.engagements id (close_as e status source)
              (Engaged-same m' id e (close_as e status source).status source (c.engaged id e there))
              c.engaged;
        deals = c.deals;
      }

  freezes-Stored :
      (t : Terms) (e : AgentMarketEngagement) (r : AgentNegotiationRequest)
      (buyer seller : AgentMarketIntent) (d : Dict String Claim)
      → Dict.get m.engagements t.engagement_id ≡ some e
      → Dict.get m.intents e.buyer_intent_id ≡ some buyer
      → Dict.get m.intents e.seller_intent_id ≡ some seller
      → AllPass (freeze_guards buyer seller r t)
      → Claimed (freeze_claims r t) m.result_claims d
      → Stored m (with_deal e t (with_claims d m))
      → Stored (with_deal e t (with_claims d m)) (with_deal e t (with_claims d m))
  freezes-Stored t e r buyer seller d there has_buyer has_seller pass claimed c =
      let m' : AgentDrivenMarket = with_deal e t (with_claims d m) in
      record {
        published = c.published;
        submitted = c.submitted;
        selected = c.selected;
        intents = c.intents;
        requests = c.requests;
        engaged =
            put-Each (Engaged m') m.engagements t.engagement_id (accept e t)
              (Engaged-same m' t.engagement_id e EngagementStatus.accepted_pending_settlement
                (some t.acceptance_result_id) (c.engaged t.engagement_id e there))
              c.engaged;
        deals =
            put-Each (Dealt m') m.deals (joined ("deal" ∷ t.engagement_id ∷ [])) (deal_of e t)
              (record {
                of_engagement = refl;
                engagement = accept e t;
                has_engagement = get-put_here m.engagements t.engagement_id (accept e t);
                accepted = refl;
                claimed = acceptance_listed d r t claimed.lists;
                buyer = buyer;
                seller = seller;
                has_buyer = has_buyer;
                has_seller = has_seller;
                terms = (refl, refl, refl, refl, refl);
                within = pass.1.0;
              })
              c.deals;
      }

  pub Step-Stored : (m' : AgentDrivenMarket) → Stored m m → Step m m' → Stored m' m'
  Step-Stored m' h s = go s (carry m m' (Step-Grows m m' (stored-Unengaged m h) s) h)
    where
      go : Step m m' → Stored m m' → Stored m' m'
      go (Step.publishes i d pass new claimed eq) c =
          subst (λ x. Stored m x → Stored x x) (sym eq) (publishes-Stored i d pass) c
      go (Step.requests r buyer seller d pass new hb hs resolved within fit terms claimed eq) c =
          subst (λ x. Stored m x → Stored x x) (sym eq)
            (requests-Stored r d pass (record {
              buyer = buyer;
              seller = seller;
              has_buyer = hb;
              has_seller = hs;
              fit = fit;
            }))
            c
      go (Step.busies id r there waits eq) c =
          subst (λ x. Stored m x → Stored x x) (sym eq) (busies-Stored id r there) c
      go (Step.engages id selection r buyer seller d there waits hb hs free claimed eq) c =
          subst (λ x. Stored m x → Stored x x) (sym eq)
            (engages-Stored id selection r buyer seller d there hb hs) c
      go (Step.closes id e status source r buyer seller d there active hr hb hs kept eq) c =
          subst (λ x. Stored m x → Stored x x) (sym eq)
            (closes-Stored id e status source r buyer seller d there hr) c
      go (Step.freezes t e r buyer seller d new there active pair hb hs hr pass claimed eq) c =
          subst (λ x. Stored m x → Stored x x) (sym eq)
            (freezes-Stored t e r.request buyer seller d there hb hs pass claimed) c
