-- ===== src/Game/AgentMarket/Kept.antt =====
-- What every step of the market keeps: intents, claims and deals are never changed, a request keeps
-- its terms and never waits again, an engagement keeps its terms and, once ended, its status.
use adx_agentic_payment.Base.{
  String, string_eq, Eq, true, false, ◌≡◌, refl, sym, ap, ◌∙◌, inl, inr, Option, none, some, [],
  ◌∷◌, Bool-cases, ◌==◌, ==_iff, some_inj,
}
use mathlib.Core.Path.{subst}
use adx_agentic_payment.Base.Dict
use adx_agentic_payment.Base.Dict.{Dict}
use adx_agentic_payment.Base.Text.{joined}
use adx_agentic_payment.Game.AgentMarket.Terms.{
  RequestStatus, AgentMarketIntent, AgentNegotiationRequest, AgentMarketEngagement, RequestRecord,
}
use adx_agentic_payment.Game.AgentMarket.State.{Claim, AgentDrivenMarket, slot_eq}
use adx_agentic_payment.Game.AgentMarket.Publishing.{is_pending, with_intent, with_request}
use adx_agentic_payment.Game.AgentMarket.Engaging.{
  is_active, with_request_status, mark_busy, mark_engaged, mark_rejected, with_engagement,
  engagement_of, ClosingStatus, close_as, Terms, accept, deal_of, with_deal,
}
use adx_agentic_payment.Game.AgentMarket.Claims.{Keeps}
use adx_agentic_payment.Game.AgentMarket.Steps.{Step, with_claims, after_closing}

module _ {ℓ κ} {K : Type κ} {V : Type ℓ} ⦃e : Eq K⦄ where
  -- Every entry is still there, perhaps with another value that `R` relates to it.
  abbrev pub Evolves {μ} : (V → V → Type μ) → Dict K V → Dict K V → Type (ℓ ⊔ κ ⊔ μ)
  Evolves R d d' =
      (k : K) (x : V) → Dict.get d k ≡ some x → (y : V) × (Dict.get d' k ≡ some y) × R x y

  pub put-new-Keeps :
      (d : Dict K V) (k : K) (v : V) → Dict.get d k ≡ none → Keeps d (Dict.put d k v)
  put-new-Keeps d k v new j x h = elim (Bool-cases (k == j)) [
    | inl same ↦ cc (new, subst (λ i. Dict.get d i ≡ some x) (sym ((==_iff k j).0 same)) h)
    | inr other ↦ rw (Dict.get-put d k j v, other) h
  ]

  pub put-Evolves {μ} :
      (R : V → V → Type μ) (d : Dict K V) (k : K) (old v : V)
      → ((x : V) → R x x)
      → Dict.get d k ≡ some old
      → R old v
      → Evolves R d (Dict.put d k v)
  put-Evolves R d k old v r there changed j x h = elim (Bool-cases (k == j)) [
    | inl same ↦
        let eq : old ≡ x =
          some_inj (sym there ∙ subst (λ i. Dict.get d i ≡ some x) (sym ((==_iff k j).0 same)) h) in
        (v, rw (Dict.get-put d k j v, same) refl, subst (λ y. R y v) eq changed)
    | inr other ↦ (x, rw (Dict.get-put d k j v, other) h, r x)
  ]

  pub Keeps-Evolves {μ} :
      (R : V → V → Type μ) (d d' : Dict K V) → ((x : V) → R x x) → Keeps d d' → Evolves R d d'
  Keeps-Evolves R d d' r h j x g = (x, h j x g, r x)

abbrev pub RequestKept : RequestRecord → RequestRecord → Type 0
RequestKept r r' =
    (r'.request ≡ r.request) × (is_pending r.status ≡ false → is_pending r'.status ≡ false)

abbrev pub EngagementKept : AgentMarketEngagement → AgentMarketEngagement → Type 0
EngagementKept e e' =
    (e' ≡ record e { status = e'.status; terminal_source_result_id = e'.terminal_source_result_id })
    × (is_active e.status ≡ false → e' ≡ e)

pub RequestKept-refl : (r : RequestRecord) → RequestKept r r
RequestKept-refl r = (refl, λ h. h)

pub EngagementKept-refl : (e : AgentMarketEngagement) → EngagementKept e e
EngagementKept-refl e = (refl, λ h. refl)

pub record Grows (m m' : AgentDrivenMarket) : Type 0 where
  pub claims : Keeps m.result_claims m'.result_claims
  pub intents : Keeps m.intents m'.intents
  pub deals : Keeps m.deals m'.deals
  pub requests : Evolves RequestKept m.requests m'.requests
  pub engagements : Evolves EngagementKept m.engagements m'.engagements

pub Grows-refl : (m : AgentDrivenMarket) → Grows m m
Grows-refl m = record {
  claims = λ k v h. h;
  intents = λ k v h. h;
  deals = λ k v h. h;
  requests = λ k r h. (r, h, RequestKept-refl r);
  engagements = λ k e h. (e, h, EngagementKept-refl e);
}

RequestKept-trans : (a b c : RequestRecord) → RequestKept a b → RequestKept b c → RequestKept a c
RequestKept-trans a b c h g = (g.0 ∙ h.0, λ w. g.1 (h.1 w))

EngagementKept-trans :
    (a b c : AgentMarketEngagement) → EngagementKept a b → EngagementKept b c → EngagementKept a c
EngagementKept-trans a b c h g = (
  g.0
      ∙ ap {A = AgentMarketEngagement}
          (λ x. record x {
            status = c.status;
            terminal_source_result_id = c.terminal_source_result_id;
          })
          h.0,
  λ w. g.1 (subst (λ x. is_active x.status ≡ false) (sym (h.1 w)) w) ∙ h.1 w,
)

pub Grows-trans : (a b c : AgentDrivenMarket) → Grows a b → Grows b c → Grows a c
Grows-trans a b c h g = record {
  claims = λ k v w. g.claims k v (h.claims k v w);
  intents = λ k v w. g.intents k v (h.intents k v w);
  deals = λ k v w. g.deals k v (h.deals k v w);
  requests = λ k r w.
      let (r1, w1, k1) = h.requests k r w in
      let (r2, w2, k2) = g.requests k r1 w1 in (r2, w2, RequestKept-trans r r1 r2 k1 k2);
  engagements = λ k e w.
      let (e1, w1, k1) = h.engagements k e w in
      let (e2, w2, k2) = g.engagements k e1 w1 in (e2, w2, EngagementKept-trans e e1 e2 k1 k2);
}

-- A request that waits has no engagement, so a new engagement is filed under a new id.
abbrev pub Unengaged : AgentDrivenMarket → Type 0
Unengaged m =
    (id : String) (r : RequestRecord)
    → Dict.get m.requests id ≡ some r
    → is_pending r.status ≡ true
    → Dict.get m.engagements (joined ("engagement" ∷ id ∷ [])) ≡ none

module _ (m : AgentDrivenMarket) where
  publishes-Grows :
      (i : AgentMarketIntent) (d : Dict String Claim)
      → Dict.get m.intents i.intent_id ≡ none
      → Keeps m.result_claims d
      → Grows m (with_intent i (with_claims d m))
  publishes-Grows i d new kept = record {
    claims = kept;
    intents = put-new-Keeps m.intents i.intent_id i new;
    deals = (Grows-refl m).deals;
    requests = (Grows-refl m).requests;
    engagements = (Grows-refl m).engagements;
  }

  requests-Grows :
      (r : AgentNegotiationRequest) (d : Dict String Claim)
      → Dict.get m.requests r.request_id ≡ none
      → Keeps m.result_claims d
      → Grows m (with_request r (with_claims d m))
  requests-Grows r d new kept = record {
    claims = kept;
    requests =
        Keeps-Evolves RequestKept m.requests (with_request r (with_claims d m)).requests
          RequestKept-refl
          (put-new-Keeps m.requests r.request_id
            (record { request = r; status = RequestStatus.pending; engagement_id = none }) new);
    intents = (Grows-refl m).intents;
    deals = (Grows-refl m).deals;
    engagements = (Grows-refl m).engagements;
  }

  request_put-Evolves :
      (id : String) (r r' : RequestRecord)
      → Dict.get m.requests id ≡ some r
      → r'.request ≡ r.request
      → is_pending r'.status ≡ false
      → Evolves RequestKept m.requests (Dict.put m.requests id r')
  request_put-Evolves id r r' there same settled =
      put-Evolves RequestKept m.requests id r r' RequestKept-refl there (same, λ _. settled)

  busies-Grows :
      (id : String) (r : RequestRecord)
      → Dict.get m.requests id ≡ some r
      → Grows m (with_request_status id (mark_busy r) m)
  busies-Grows id r there = record {
    requests = request_put-Evolves id r (mark_busy r) there refl refl;
    claims = (Grows-refl m).claims;
    intents = (Grows-refl m).intents;
    deals = (Grows-refl m).deals;
    engagements = (Grows-refl m).engagements;
  }

  engages-Grows :
      (id selection : String) (r : RequestRecord) (buyer seller : AgentMarketIntent)
      (d : Dict String Claim)
      → Dict.get m.requests id ≡ some r
      → Dict.get m.engagements (joined ("engagement" ∷ id ∷ [])) ≡ none
      → Keeps m.result_claims d
      → Grows m (
          with_engagement r buyer seller
            (engagement_of id buyer seller selection)
            (with_claims d m))
  engages-Grows id selection r buyer seller d there new kept = record {
    claims = kept;
    requests =
        request_put-Evolves id r (mark_engaged r (joined ("engagement" ∷ id ∷ []))) there refl refl;
    engagements =
        Keeps-Evolves EngagementKept m.engagements
          (with_engagement r buyer seller (engagement_of id buyer seller selection)
            (with_claims d m)).engagements
          EngagementKept-refl
          (put-new-Keeps m.engagements (joined ("engagement" ∷ id ∷ []))
            (engagement_of id buyer seller selection) new);
    intents = (Grows-refl m).intents;
    deals = (Grows-refl m).deals;
  }

  engagement_put-Evolves :
      (id : String) (e e' : AgentMarketEngagement)
      → Dict.get m.engagements id ≡ some e
      → is_active e.status ≡ true
      → e'
        ≡ record e { status = e'.status; terminal_source_result_id = e'.terminal_source_result_id }
      → Evolves EngagementKept m.engagements (Dict.put m.engagements id e')
  engagement_put-Evolves id e e' there active same =
      put-Evolves EngagementKept m.engagements id e e' EngagementKept-refl there
        (same, λ ended. cc (active, ended))

  closes-Grows :
      (id : String) (e : AgentMarketEngagement) (status : ClosingStatus) (source : Option String)
      (r : RequestRecord) (buyer seller : AgentMarketIntent) (d : Dict String Claim)
      → Dict.get m.engagements id ≡ some e
      → is_active e.status ≡ true
      → Dict.get m.requests e.request_id ≡ some r
      → Keeps m.result_claims d
      → Grows m (after_closing id e status source r buyer seller (with_claims d m))
  closes-Grows id e status source r buyer seller d there active has_request kept = record {
    claims = kept;
    requests = request_put-Evolves e.request_id r (mark_rejected r) has_request refl refl;
    engagements = engagement_put-Evolves id e (close_as e status source) there active refl;
    intents = (Grows-refl m).intents;
    deals = (Grows-refl m).deals;
  }

  freezes-Grows :
      (t : Terms) (e : AgentMarketEngagement) (d : Dict String Claim)
      → Dict.get m.deals (joined ("deal" ∷ t.engagement_id ∷ [])) ≡ none
      → Dict.get m.engagements t.engagement_id ≡ some e
      → is_active e.status ≡ true
      → Keeps m.result_claims d
      → Grows m (with_deal e t (with_claims d m))
  freezes-Grows t e d new there active kept = record {
    claims = kept;
    deals = put-new-Keeps m.deals (joined ("deal" ∷ t.engagement_id ∷ [])) (deal_of e t) new;
    engagements = engagement_put-Evolves t.engagement_id e (accept e t) there active refl;
    intents = (Grows-refl m).intents;
    requests = (Grows-refl m).requests;
  }

  pub Step-Grows : (m' : AgentDrivenMarket) → Unengaged m → Step m m' → Grows m m'
  Step-Grows m' u (Step.publishes i d pass new claimed eq) =
      subst (Grows m) (sym eq) (publishes-Grows i d new claimed.keeps)
  Step-Grows m' u
        (Step.requests r buyer seller d pass new hb hs resolved within fit terms claimed eq) =
      subst (Grows m) (sym eq) (requests-Grows r d new claimed.keeps)
  Step-Grows m' u (Step.busies id r there waits eq) =
      subst (Grows m) (sym eq) (busies-Grows id r there)
  Step-Grows m' u (Step.engages id selection r buyer seller d there waits hb hs free claimed eq) =
      subst (Grows m) (sym eq)
        (engages-Grows id selection r buyer seller d there (u id r there waits) claimed.keeps)
  Step-Grows m' u (Step.closes id e status source r buyer seller d there active hr hb hs kept eq) =
      subst (Grows m) (sym eq)
        (closes-Grows id e status source r buyer seller d there active hr kept)
  Step-Grows m' u
        (Step.freezes t e r buyer seller d new there active pair hb hs hr pass claimed eq) =
      subst (Grows m) (sym eq) (freezes-Grows t e d new there active claimed.keeps)
