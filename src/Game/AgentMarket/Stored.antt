-- ===== src/Game/AgentMarket/Stored.antt =====
-- How the dicts of the market fit together: the facts on every entry, and that each step keeps them.
-- `Stored m m'` has the facts that `m'` shows about the entries of `m`, so a step carries the facts on the
-- old entries over and adds those on the new.
pub mod Steps
use adx_agentic_payment.Base.{
  ℕ, String, string_eq, Eq, Bool, true, false, ◌≡◌, refl, sym, ap, ◌∙◌, ◌⊎◌, inl, inr, Option, none,
  some, List, [], ◌∷◌, All, All-imp, AllPass, ◌==◌, ◌||◌, some_inj, Option-cases,
}
use mathlib.Core.Path.{subst}
use adx_agentic_payment.Base.Int.{ℤ, pos, leb_ℤ, ltb_ℤ}
use adx_agentic_payment.Base.Dict
use adx_agentic_payment.Base.Dict.{Dict}
use adx_agentic_payment.Base.Text.{joined, joined_inj}
use adx_agentic_payment.Game.Goods.{GoodId}
use adx_agentic_payment.Game.AgentMarket.Terms.{
  EngagementStatus, AgentMarketIntent, AgentNegotiationRequest, AgentMarketEngagement,
  AgentMarketDeal, RequestRecord, RequestStatus, intent_guards, request_guards,
}
use adx_agentic_payment.Game.AgentMarket.State.{ActionKind, Claim, AgentDrivenMarket, slot_eq}
use adx_agentic_payment.Game.AgentMarket.Publishing.{
  is_pending, counterparty_guards, with_intent, with_request,
}
use adx_agentic_payment.Game.AgentMarket.Engaging.{
  is_active, with_request_status, mark_busy, mark_engaged, mark_rejected, with_engagement,
  engagement_of, ClosingStatus, close_as, Terms, same_pair, freeze_guards, freeze_claims, accept,
  deal_of, with_deal, binding_opening,
}
use adx_agentic_payment.Game.AgentMarket.Claims.{Claimed, Keeps}
use adx_agentic_payment.Game.AgentMarket.Steps.{Step, with_claims, after_closing, claim_of}
use adx_agentic_payment.Game.AgentMarket.Kept.{
  Grows, RequestKept, EngagementKept, Unengaged, Step-Grows,
}

-- A predicate on every key with its value.
abbrev pub Each {ℓ κ μ} :
    {K : Type κ} {V : Type ℓ} ⦃e : Eq K⦄ → (K → V → Type μ) → Dict K V → Type (ℓ ⊔ κ ⊔ μ)
Each {K = K} {V = V} P d = (k : K) (v : V) → Dict.get d k ≡ some v → P k v

pub put-Each {ℓ κ μ} :
    {K : Type κ} {V : Type ℓ} ⦃e : Eq K⦄ (P : K → V → Type μ) (d : Dict K V) (k : K) (v : V)
    → P k v
    → Each P d
    → Each P (Dict.put d k v)
put-Each P d k v new old j w h = elim (Dict.get-put_cases d k j v w h) [
  | inl (there, same) ↦ subst (λ x. P x w) there (subst (P k) same new)
  | inr (away, stored) ↦ old j w stored
]

abbrev pub HasIntent : AgentDrivenMarket → String → Type 0
HasIntent m k = (i : AgentMarketIntent) × (Dict.get m.intents k ≡ some i)

abbrev pub HasRequest : AgentDrivenMarket → String → Type 0
HasRequest m k = (r : RequestRecord) × (Dict.get m.requests k ≡ some r)

abbrev pub HasEngagement : AgentDrivenMarket → String → Type 0
HasEngagement m k = (e : AgentMarketEngagement) × (Dict.get m.engagements k ≡ some e)

-- Two stored intents that may trade with each other.
pub record Pairing (m : AgentDrivenMarket) (buyer_id seller_id : String) : Type 0 where
  pub buyer : AgentMarketIntent
  pub seller : AgentMarketIntent
  pub has_buyer : Dict.get m.intents buyer_id ≡ some buyer
  pub has_seller : Dict.get m.intents seller_id ≡ some seller
  pub fit : AllPass (counterparty_guards buyer seller)

pub record Requested (m : AgentDrivenMarket) (k : String) (r : RequestRecord) : Type 0 where
  pub id : r.request.request_id ≡ k
  pub valid : AllPass (request_guards r.request)
  pub pairing : Pairing m r.request.buyer_intent_id r.request.seller_intent_id

pub record Engaged (m : AgentDrivenMarket) (k : String) (e : AgentMarketEngagement) : Type 0 where
  pub own : e.engagement_id ≡ k
  pub of_request : k ≡ joined ("engagement" ∷ e.request_id ∷ [])
  pub request : RequestRecord
  pub has_request : Dict.get m.requests e.request_id ≡ some request
  pub settled : is_pending request.status ≡ false
  pub pairing : Pairing m e.buyer_intent_id e.seller_intent_id
  pub buyer_side : e.buyer_participant_id ≡ pairing.buyer.participant_id
  pub seller_side : e.seller_participant_id ≡ pairing.seller.participant_id
  pub same_good : e.good ≡ pairing.buyer.good

pub record Dealt (m : AgentDrivenMarket) (k : String) (d : AgentMarketDeal) : Type 0 where
  pub of_engagement : k ≡ joined ("deal" ∷ d.engagement_id ∷ [])
  pub engagement : AgentMarketEngagement
  pub has_engagement : Dict.get m.engagements d.engagement_id ≡ some engagement
  pub accepted : engagement.status ≡ EngagementStatus.accepted_pending_settlement
  pub claimed :
      Dict.get m.result_claims d.acceptance_result_id
      ≡ some (claim_of ActionKind.acceptance d.engagement_id)
  pub buyer : AgentMarketIntent
  pub seller : AgentMarketIntent
  pub has_buyer : Dict.get m.intents engagement.buyer_intent_id ≡ some buyer
  pub has_seller : Dict.get m.intents engagement.seller_intent_id ≡ some seller
  pub terms :
      (d.request_id ≡ engagement.request_id)
      × (d.buyer_participant_id ≡ engagement.buyer_participant_id)
      × (d.seller_participant_id ≡ engagement.seller_participant_id)
      × (d.good ≡ engagement.good)
      × (d.quantity ≡ pos 1)
  pub within :
      (leb_ℤ d.unit_price_atomic (pos 0)
        || (ltb_ℤ buyer.limit_price_atomic d.unit_price_atomic
            || ltb_ℤ d.unit_price_atomic seller.limit_price_atomic))
      ≡ false

pub record Stored (m m' : AgentDrivenMarket) : Type 0 where
  pub published : Each (λ s k. HasIntent m' k) m.intent_by_result
  pub submitted : Each (λ s ks. All (HasRequest m') ks) m.request_ids_by_result
  pub selected : Each (λ s k. HasEngagement m' k) m.engagement_by_selection_result
  pub intents : Each (λ k i. (i.intent_id ≡ k) × AllPass (intent_guards i)) m.intents
  pub requests : Each (Requested m') m.requests
  pub engaged : Each (Engaged m') m.engagements
  pub deals : Each (Dealt m') m.deals

module _ (m m' : AgentDrivenMarket) (g : Grows m m') where
  carry-HasRequest : (k : String) → HasRequest m k → HasRequest m' k
  carry-HasRequest k (r, h) = let (r', h', kept) = g.requests k r h in (r', h')

  carry-HasEngagement : (k : String) → HasEngagement m k → HasEngagement m' k
  carry-HasEngagement k (e, h) = let (e', h', kept) = g.engagements k e h in (e', h')

  carry-Pairing : (b s : String) → Pairing m b s → Pairing m' b s
  carry-Pairing b s p = record {
    buyer = p.buyer;
    seller = p.seller;
    has_buyer = g.intents b p.buyer p.has_buyer;
    has_seller = g.intents s p.seller p.has_seller;
    fit = p.fit;
  }

  carry-Requested : (k : String) (r : RequestRecord) → Requested m k r → Requested m' k r
  carry-Requested k r h = record {
    id = h.id;
    valid = h.valid;
    pairing = carry-Pairing r.request.buyer_intent_id r.request.seller_intent_id h.pairing;
  }

  carry-Engaged : (k : String) (e : AgentMarketEngagement) → Engaged m k e → Engaged m' k e
  unfolding carry-Pairing
  carry-Engaged k e h =
      let (r', there, kept) = g.requests e.request_id h.request h.has_request in
      record {
        own = h.own;
        of_request = h.of_request;
        request = r';
        has_request = there;
        settled = kept.1 h.settled;
        pairing = carry-Pairing e.buyer_intent_id e.seller_intent_id h.pairing;
        buyer_side = h.buyer_side;
        seller_side = h.seller_side;
        same_good = h.same_good;
      }

  ended :
      (s : EngagementStatus)
      → s ≡ EngagementStatus.accepted_pending_settlement
      → is_active s ≡ false
  ended s h = rw h refl

  carry-Dealt : (k : String) (d : AgentMarketDeal) → Dealt m k d → Dealt m' k d
  carry-Dealt k d h =
      let (e', there, kept) = g.engagements d.engagement_id h.engagement h.has_engagement in
      record {
        of_engagement = h.of_engagement;
        engagement = h.engagement;
        has_engagement = there ∙ ap some (kept.1 (ended h.engagement.status h.accepted));
        accepted = h.accepted;
        claimed =
            g.claims d.acceptance_result_id (claim_of ActionKind.acceptance d.engagement_id)
              h.claimed;
        buyer = h.buyer;
        seller = h.seller;
        has_buyer = g.intents h.engagement.buyer_intent_id h.buyer h.has_buyer;
        has_seller = g.intents h.engagement.seller_intent_id h.seller h.has_seller;
        terms = h.terms;
        within = h.within;
      }

  pub carry : Stored m m → Stored m m'
  carry h = record {
    published = λ s k w. let (i, there) = h.published s k w in (i, g.intents k i there);
    submitted = λ s ks w. All-imp carry-HasRequest ks (h.submitted s ks w);
    selected = λ s k w. carry-HasEngagement k (h.selected s k w);
    intents = h.intents;
    requests = λ k r w. carry-Requested k r (h.requests k r w);
    engaged = λ k e w. carry-Engaged k e (h.engaged k e w);
    deals = λ k d w. carry-Dealt k d (h.deals k d w);
  }

-- The facts on a market's own entries, from those on the old ones.
pub stored-Unengaged : (m : AgentDrivenMarket) → Stored m m → Unengaged m
stored-Unengaged m h id r there waits =
    elim (Option-cases (Dict.get m.engagements (joined ("engagement" ∷ id ∷ [])))) [
      | inl none_ ↦ none_
      | inr (e, found) ↦
          let g = h.engaged (joined ("engagement" ∷ id ∷ [])) e found in
          let same : id ≡ e.request_id = joined_inj "engagement" id e.request_id g.of_request in
          let there_too : Dict.get m.requests id ≡ some g.request =
            subst (λ x. Dict.get m.requests x ≡ some g.request) (sym same) g.has_request in
          let eq : r ≡ g.request = some_inj (sym there ∙ there_too) in cc (waits, g.settled, eq)
    ]
