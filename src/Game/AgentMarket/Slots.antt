-- ===== src/Game/AgentMarket/Slots.antt =====
-- The reserved slots: a slot is reserved exactly by the live engagement that it takes part in.
pub mod Steps
use adx_agentic_payment.Base.{
  ℕ, String, string_eq, option_eq, Eq, Bool, true, false, ◌≡◌, ◌≢◌, refl, sym, ap, ◌∙◌, ◌⊎◌, inl,
  inr, ◌↔◌, Option, none, some, List, [], ◌∷◌, Bool-cases, Option-cases, ◌==◌, ==_iff, ==_refl,
  ◌||◌, some_inj, if◌then◌else◌, is_none, not, arith,
}
use mathlib.Core.Path.{subst}
use adx_agentic_payment.Base.Dict
use adx_agentic_payment.Base.Dict.{Dict}
use adx_agentic_payment.Base.Text.{joined}
use adx_agentic_payment.Game.AgentMarket.Terms.{
  EngagementStatus, AgentMarketIntent, AgentNegotiationRequest, AgentMarketEngagement,
  RequestRecord,
}
use adx_agentic_payment.Game.AgentMarket.State.{
  Slot, Claim, AgentDrivenMarket, slot_key, is_reserved, slot_eq,
}
use adx_agentic_payment.Game.AgentMarket.Publishing.{with_intent, with_request}
use adx_agentic_payment.Game.AgentMarket.Engaging.{
  is_active, with_engagement, engagement_of, ClosingStatus, close_as, closed_as, Terms, accept,
  with_deal, release_slot,
}
use adx_agentic_payment.Game.AgentMarket.Steps.{Step, with_claims, after_closing}
use adx_agentic_payment.Game.AgentMarket.Claims.{Keeps}
use adx_agentic_payment.Game.AgentMarket.Kept.{Grows, Step-Grows, EngagementKept}
use adx_agentic_payment.Game.AgentMarket.Stored.{Each, Stored, stored-Unengaged, put-Each}

abbrev pub is_live : EngagementStatus → Bool
is_live EngagementStatus.active = true
is_live EngagementStatus.accepted_pending_settlement = true
is_live _ = false

-- The engagement `k` is live and the slot is its buyer's or its seller's.
pub record Occupied (m : AgentDrivenMarket) (s : Slot) (k : String) : Type 0 where
  pub engagement : AgentMarketEngagement
  pub has_engagement : Dict.get m.engagements k ≡ some engagement
  pub live : is_live engagement.status ≡ true
  pub buyer : AgentMarketIntent
  pub seller : AgentMarketIntent
  pub has_buyer : Dict.get m.intents engagement.buyer_intent_id ≡ some buyer
  pub has_seller : Dict.get m.intents engagement.seller_intent_id ≡ some seller
  pub place : (s ≡ slot_key buyer) ⊎ (s ≡ slot_key seller)

pub record SlotsAgree (m : AgentDrivenMarket) : Type 0 where
  pub reserved : (s : Slot) (k : String) → Occupied m s k → Dict.get m.reserved_slots s ≡ some k
  pub occupied : (s : Slot) (k : String) → Dict.get m.reserved_slots s ≡ some k → Occupied m s k

-- Slots that a release leaves.
pub release_slot-get :
    (id k : String) (t s : Slot) (d : Dict Slot String)
    → Dict.get (release_slot id t d) s ≡ some k
    → (Dict.get d s ≡ some k) × (t ≡ s → k ≢ id)
release_slot-get id k t s d h = elim (Bool-cases (Dict.get d t == some id)) [
  | inl held ↦ elim (Bool-cases (t == s)) [
    | inl same ↦ cc (rw (held, Dict.get-del d t s, same) at h)
    | inr apart ↦ (rw (held, Dict.get-del d t s, apart) at h, λ eq. cc (apart, (==_iff t s).1 eq))
  ]
  | inr away ↦
      let there : Dict.get d s ≡ some k = rw away at h in
      (
        there,
        λ eq mine.
            cc (
              away,
              (==_iff (Dict.get d t) (some id)).1 (ap (Dict.get d) eq ∙ there ∙ ap some mine),
            ),
      )
]

pub release_slot-other :
    (id k : String) (t s : Slot) (d : Dict Slot String)
    → k ≢ id
    → Dict.get d s ≡ some k
    → Dict.get (release_slot id t d) s ≡ some k
release_slot-other id k t s d other h = elim (Bool-cases (Dict.get d t == some id)) [
  | inr away ↦ rw away h
  | inl held ↦ rw held (
      rw (Dict.get-del d t s) (elim (Bool-cases (t == s)) [
        | inr apart ↦ rw apart h
        | inl same ↦
            let eq = (==_iff t s).0 same in
            absurd (
              other (
                some_inj (
                  sym h
                  ∙ subst (λ x. Dict.get d x ≡ some id) eq
                      ((==_iff (Dict.get d t) (some id)).0 held))))
      ]))
]

module _ (m m' : AgentDrivenMarket) (g : Grows m m') where
  -- A live engagement that is live after a step still occupies its slots, and no others.
  pub carry-Occupied :
      (s : Slot) (k : String) (o : Occupied m s k) (e' : AgentMarketEngagement)
      → Dict.get m'.engagements k ≡ some e'
      → is_live e'.status ≡ true
      → e'.buyer_intent_id ≡ o.engagement.buyer_intent_id
      → e'.seller_intent_id ≡ o.engagement.seller_intent_id
      → Occupied m' s k
  carry-Occupied s k o e' there live buys sells = record {
    engagement = e';
    has_engagement = there;
    live = live;
    buyer = o.buyer;
    seller = o.seller;
    has_buyer =
        subst (λ x. Dict.get m'.intents x ≡ some o.buyer) (sym buys)
          (g.intents o.engagement.buyer_intent_id o.buyer o.has_buyer);
    has_seller =
        subst (λ x. Dict.get m'.intents x ≡ some o.seller) (sym sells)
          (g.intents o.engagement.seller_intent_id o.seller o.has_seller);
    place = o.place;
  }

  pub back-Occupied :
      Stored m m
      → (s : Slot) (k : String) (o : Occupied m' s k) (e : AgentMarketEngagement)
      → Dict.get m.engagements k ≡ some e
      → is_live e.status ≡ true
      → o.engagement.buyer_intent_id ≡ e.buyer_intent_id
      → o.engagement.seller_intent_id ≡ e.seller_intent_id
      → Occupied m s k
  back-Occupied h s k o e there live buys sells =
      let p = (h.engaged k e there).pairing in
      let same_buyer : p.buyer ≡ o.buyer = some_inj (
        sym (g.intents e.buyer_intent_id p.buyer p.has_buyer)
        ∙ ap (Dict.get m'.intents) (sym buys)
        ∙ o.has_buyer) in
      let same_seller : p.seller ≡ o.seller = some_inj (
        sym (g.intents e.seller_intent_id p.seller p.has_seller)
        ∙ ap (Dict.get m'.intents) (sym sells)
        ∙ o.has_seller) in
      record {
        engagement = e;
        has_engagement = there;
        live = live;
        buyer = o.buyer;
        seller = o.seller;
        has_buyer = p.has_buyer ∙ ap some same_buyer;
        has_seller = p.has_seller ∙ ap some same_seller;
        place = o.place;
      }

  pub quiet-SlotsAgree :
      m'.engagements ≡ m.engagements
      → m'.reserved_slots ≡ m.reserved_slots
      → Stored m m
      → SlotsAgree m
      → SlotsAgree m'
  quiet-SlotsAgree same_e same_r h a = record {
    reserved = λ s k o.
        ap (λ d. Dict.get d s) same_r
        ∙ a.reserved s k (
            back-Occupied h s k o o.engagement
              (ap (λ d. Dict.get d k) (sym same_e) ∙ o.has_engagement) o.live refl refl);
    occupied = λ s k there.
        let o = a.occupied s k (ap (λ d. Dict.get d s) (sym same_r) ∙ there) in
        carry-Occupied s k o o.engagement (ap (λ d. Dict.get d k) same_e ∙ o.has_engagement) o.live
          refl refl;
  }

  -- The step writes another status of the engagement `id`, which stays live.
  pub status-SlotsAgree :
      (id : String) (e e' : AgentMarketEngagement)
      → m'.engagements ≡ Dict.put m.engagements id e'
      → m'.reserved_slots ≡ m.reserved_slots
      → Dict.get m.engagements id ≡ some e
      → is_live e.status ≡ true
      → is_live e'.status ≡ true
      → e'.buyer_intent_id ≡ e.buyer_intent_id
      → e'.seller_intent_id ≡ e.seller_intent_id
      → Stored m m
      → SlotsAgree m
      → SlotsAgree m'
  status-SlotsAgree id e e' put_e same_r there live live' buys sells h a = record {
    reserved = λ s k o.
        ap (λ d. Dict.get d s) same_r
        ∙ a.reserved s k
            (elim (Dict.get-put_cases m.engagements id k e' o.engagement
              (ap (λ d. Dict.get d k) (sym put_e) ∙ o.has_engagement)) [
                | inl (here, eq) ↦
                    back-Occupied h s k o e
                      (subst (λ x. Dict.get m.engagements x ≡ some e) here there) live
                      (ap (λ x. x.buyer_intent_id) (sym eq) ∙ buys)
                      (ap (λ x. x.seller_intent_id) (sym eq) ∙ sells)
                | inr (away, old) ↦ back-Occupied h s k o o.engagement old o.live refl refl
              ]);
    occupied = λ s k held.
        let o = a.occupied s k (ap (λ d. Dict.get d s) (sym same_r) ∙ held) in
        elim (Bool-cases (id == k)) [
          | inl here ↦
              let eq : e ≡ o.engagement = some_inj (
                sym there
                ∙ ap (Dict.get m.engagements) ((==_iff id k).0 here)
                ∙ o.has_engagement) in
              carry-Occupied s k o e'
                (ap (λ d. Dict.get d k) put_e ∙ rw (Dict.get-put m.engagements id k e', here) refl)
                live' (buys ∙ ap (λ x. x.buyer_intent_id) eq)
                (sells ∙ ap (λ x. x.seller_intent_id) eq)
          | inr away ↦
              carry-Occupied s k o o.engagement
                (ap (λ d. Dict.get d k) put_e
                  ∙ rw (Dict.get-put m.engagements id k e', away) o.has_engagement)
                o.live refl refl
        ];
  }
