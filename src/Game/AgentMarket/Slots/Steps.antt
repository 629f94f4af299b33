-- ===== src/Game/AgentMarket/Slots/Steps.antt =====
-- Each step keeps the agreement of the reserved slots with the live engagements.
use adx_agentic_payment.Base.{
  String, string_eq, option_eq, Bool, true, false, ◌≡◌, ◌≢◌, refl, sym, ap, ◌∙◌, ◌⊎◌, inl, inr,
  Option, none, some, [], ◌∷◌, Bool-cases, Option-cases, ◌==◌, ==_iff, ==_refl, ◌||◌, some_inj,
  is_none, not, arith,
}
use mathlib.Core.Path.{subst}
use adx_agentic_payment.Base.Dict
use adx_agentic_payment.Base.Dict.{Dict}
use adx_agentic_payment.Base.Text.{joined}
use adx_agentic_payment.Game.AgentMarket.Terms.{
  EngagementStatus, AgentMarketIntent, AgentMarketEngagement, RequestRecord,
}
use adx_agentic_payment.Game.AgentMarket.State.{
  Slot, Claim, AgentDrivenMarket, slot_key, is_reserved, slot_eq,
}
use adx_agentic_payment.Game.AgentMarket.Engaging.{
  is_active, with_engagement, engagement_of, ClosingStatus, close_as, closed_as, accept,
  release_slot,
}
use adx_agentic_payment.Game.AgentMarket.Steps.{Step, with_claims, after_closing}
use adx_agentic_payment.Game.AgentMarket.Kept.{Grows, Step-Grows, put-new-Keeps}
use adx_agentic_payment.Game.AgentMarket.Stored.{Stored, stored-Unengaged}
use adx_agentic_payment.Game.AgentMarket.Slots.{
  is_live, Occupied, SlotsAgree, release_slot-get, release_slot-other, carry-Occupied,
  back-Occupied, quiet-SlotsAgree, status-SlotsAgree,
}

unreserved :
    (d : Dict Slot String) (s : Slot) → not (is_none (Dict.get d s)) ≡ false → Dict.get d s ≡ none
unreserved d s h = elim (Option-cases (Dict.get d s)) [
  | inl none_ ↦ none_
  | inr (k, there) ↦ cc (rw there at h)
]

either_false : (a b : Bool) → (a || b) ≡ false → (a ≡ false) × (b ≡ false)
either_false a b h = ground arith

active-live : (s : EngagementStatus) → is_active s ≡ true → is_live s ≡ true
active-live EngagementStatus.active h = refl
active-live EngagementStatus.accepted_pending_settlement h = refl
active-live EngagementStatus.rejected h = cc
active-live EngagementStatus.timed_out h = cc

closed_dead : (s : ClosingStatus) → is_live (closed_as s) ≡ false
closed_dead ClosingStatus.rejected = refl
closed_dead ClosingStatus.timed_out = refl

-- Two assignments of one value: both keys have it, and a key that differs from both keeps its own.
module _ (d : Dict Slot String) (a b : Slot) (k : String) where
  both_first : Dict.get (Dict.put (Dict.put d a k) b k) a ≡ some k
  both_first = elim (Bool-cases (b == a)) [
    | inl same ↦ rw (Dict.get-put (Dict.put d a k) b a k, same) refl
    | inr other ↦
        rw (Dict.get-put (Dict.put d a k) b a k, other, Dict.get-put d a a k, ==_refl a) refl
  ]

  both_second : Dict.get (Dict.put (Dict.put d a k) b k) b ≡ some k
  both_second = rw (Dict.get-put (Dict.put d a k) b b k, ==_refl b) refl

  both_other :
      (s : Slot) (j : String)
      → Dict.get d a ≡ none
      → Dict.get d b ≡ none
      → Dict.get d s ≡ some j
      → Dict.get (Dict.put (Dict.put d a k) b k) s ≡ some j
  both_other s j free_a free_b h = elim (Bool-cases (b == s)) [
    | inl same ↦ cc (h, free_b, ap (Dict.get d) ((==_iff b s).0 same))
    | inr other ↦ elim (Bool-cases (a == s)) [
      | inl same ↦ cc (h, free_a, ap (Dict.get d) ((==_iff a s).0 same))
      | inr apart ↦ rw (Dict.get-put (Dict.put d a k) b s k, other, Dict.get-put d a s k, apart) h
    ]
  ]

module _ (m : AgentDrivenMarket) (h : Stored m m) (a : SlotsAgree m) where
  engages-SlotsAgree :
      (id selection : String) (r : RequestRecord) (buyer seller : AgentMarketIntent)
      (d : Dict String Claim)
      → Dict.get m.engagements (joined ("engagement" ∷ id ∷ [])) ≡ none
      → Dict.get m.intents r.request.buyer_intent_id ≡ some buyer
      → Dict.get m.intents r.request.seller_intent_id ≡ some seller
      → (is_reserved m buyer || is_reserved m seller) ≡ false
      → Grows m (
          with_engagement r buyer seller
            (engagement_of id buyer seller selection)
            (with_claims d m))
      → SlotsAgree (
          with_engagement r buyer seller
            (engagement_of id buyer seller selection)
            (with_claims d m))
  engages-SlotsAgree id selection r buyer seller d new has_buyer has_seller free g =
      let e : AgentMarketEngagement = engagement_of id buyer seller selection in
      let m' : AgentDrivenMarket = with_engagement r buyer seller e (with_claims d m) in
      let k0 : String = e.engagement_id in
      let (fb, fs) = either_false (is_reserved m buyer) (is_reserved m seller) free in
      let free_b = unreserved m.reserved_slots (slot_key buyer) fb in
      let free_s = unreserved m.reserved_slots (slot_key seller) fs in
      let b_there : Dict.get m.intents buyer.intent_id ≡ some buyer =
        subst (λ x. Dict.get m.intents x ≡ some buyer)
          (sym (h.intents r.request.buyer_intent_id buyer has_buyer).0) has_buyer in
      let s_there : Dict.get m.intents seller.intent_id ≡ some seller =
        subst (λ x. Dict.get m.intents x ≡ some seller)
          (sym (h.intents r.request.seller_intent_id seller has_seller).0) has_seller in
      let e_there : Dict.get m'.engagements k0 ≡ some e =
        rw (Dict.get-put m.engagements k0 k0 e, ==_refl k0) refl in
      let at_new : (s : Slot) → (s ≡ slot_key buyer) ⊎ (s ≡ slot_key seller) → Occupied m' s k0 =
        λ s place. record {
          engagement = e;
          has_engagement = e_there;
          live = refl;
          buyer = buyer;
          seller = seller;
          has_buyer = b_there;
          has_seller = s_there;
          place = place;
        } in
      record {
        reserved = λ s k o.
            elim (Dict.get-put_cases m.engagements k0 k e o.engagement o.has_engagement) [
              | inr (away, old) ↦
                  both_other m.reserved_slots (slot_key buyer) (slot_key seller) k0 s k free_b
                    free_s
                    (a.reserved s k
                      (back-Occupied m m' g h s k o o.engagement old o.live refl refl))
              | inl (here, eq) ↦
                  let same_b : o.buyer ≡ buyer = some_inj (
                    sym o.has_buyer
                    ∙ ap (λ x. Dict.get m.intents x.buyer_intent_id) (sym eq)
                    ∙ b_there) in
                  let same_s : o.seller ≡ seller = some_inj (
                    sym o.has_seller
                    ∙ ap (λ x. Dict.get m.intents x.seller_intent_id) (sym eq)
                    ∙ s_there) in
                  elim o.place [
                    | inl place ↦
                        subst (λ x. Dict.get m'.reserved_slots x ≡ some k)
                          (sym (place ∙ ap slot_key same_b))
                          (both_first m.reserved_slots (slot_key buyer) (slot_key seller) k0
                            ∙ ap some here)
                    | inr place ↦
                        subst (λ x. Dict.get m'.reserved_slots x ≡ some k)
                          (sym (place ∙ ap slot_key same_s))
                          (both_second m.reserved_slots (slot_key buyer) (slot_key seller) k0
                            ∙ ap some here)
                  ]
            ];
        occupied = λ s k held.
            elim (Dict.get-put_cases (Dict.put m.reserved_slots (slot_key buyer) k0)
              (slot_key seller) s k0 k held) [
                | inl (there, same) ↦ subst (Occupied m' s) same (at_new s (inr (sym there)))
                | inr (away, held2) ↦
                    elim (Dict.get-put_cases m.reserved_slots (slot_key buyer) s k0 k held2) [
                      | inl (there, same) ↦ subst (Occupied m' s) same (at_new s (inl (sym there)))
                      | inr (away2, old) ↦
                          let o = a.occupied s k old in
                          carry-Occupied m m' g s k o o.engagement
                            (put-new-Keeps m.engagements k0 e new k o.engagement o.has_engagement)
                            o.live refl refl
                    ]
              ];
      }

  closes-SlotsAgree :
      (id : String) (e : AgentMarketEngagement) (status : ClosingStatus) (source : Option String)
      (r : RequestRecord) (buyer seller : AgentMarketIntent) (d : Dict String Claim)
      → Dict.get m.engagements id ≡ some e
      → is_active e.status ≡ true
      → Dict.get m.intents e.buyer_intent_id ≡ some buyer
      → Dict.get m.intents e.seller_intent_id ≡ some seller
      → Grows m (after_closing id e status source r buyer seller (with_claims d m))
      → SlotsAgree (after_closing id e status source r buyer seller (with_claims d m))
  closes-SlotsAgree id e status source r buyer seller d there active has_buyer has_seller g =
      let m' : AgentDrivenMarket =
        after_closing id e status source r buyer seller (with_claims d m) in
      let own : e.engagement_id ≡ id = (h.engaged id e there).own in
      let once : Dict Slot String =
        release_slot e.engagement_id (slot_key buyer) m.reserved_slots in
      record {
        reserved = λ s k o.
            elim (Dict.get-put_cases m.engagements id k (close_as e status source) o.engagement
              o.has_engagement) [
                | inl (here, eq) ↦ cc (o.live, closed_dead status, ap (λ x. is_live x.status) eq)
                | inr (away, old) ↦
                    let apart : k ≢ e.engagement_id =
                      λ q. cc (away, (==_iff id k).1 (sym (q ∙ own))) in
                    release_slot-other e.engagement_id k (slot_key seller) s once apart (
                      release_slot-other e.engagement_id k (slot_key buyer) s m.reserved_slots apart
                        (a.reserved s k
                          (back-Occupied m m' g h s k o o.engagement old o.live refl refl)))
              ];
        occupied = λ s k held.
            let (held1, not_seller) =
              release_slot-get e.engagement_id k (slot_key seller) s once held in
            let (held0, not_buyer) =
              release_slot-get e.engagement_id k (slot_key buyer) s m.reserved_slots held1 in
            let o = a.occupied s k held0 in
            elim (Bool-cases (id == k)) [
              | inr away ↦
                  carry-Occupied m m' g s k o o.engagement
                    (rw (Dict.get-put m.engagements id k (close_as e status source), away)
                      o.has_engagement)
                    o.live refl refl
              | inl here ↦
                  let eq : id ≡ k = (==_iff id k).0 here in
                  let same_e : o.engagement ≡ e =
                    some_inj
                      (sym o.has_engagement ∙ ap (Dict.get m.engagements) (sym eq) ∙ there) in
                  let same_b : o.buyer ≡ buyer = some_inj (
                    sym o.has_buyer
                    ∙ ap (λ x. Dict.get m.intents x.buyer_intent_id) same_e
                    ∙ has_buyer) in
                  let same_s : o.seller ≡ seller = some_inj (
                    sym o.has_seller
                    ∙ ap (λ x. Dict.get m.intents x.seller_intent_id) same_e
                    ∙ has_seller) in
                  elim o.place [
                    | inl place ↦
                        absurd (not_buyer (sym (place ∙ ap slot_key same_b)) (sym eq ∙ sym own))
                    | inr place ↦
                        absurd (not_seller (sym (place ∙ ap slot_key same_s)) (sym eq ∙ sym own))
                  ]
            ];
      }

  pub Step-SlotsAgree : (m' : AgentDrivenMarket) → Step m m' → SlotsAgree m'
  Step-SlotsAgree m' s = go s (Step-Grows m m' (stored-Unengaged m h) s)
    where
      go : Step m m' → Grows m m' → SlotsAgree m'
      go (Step.publishes i d pass new claimed eq) g =
          quiet-SlotsAgree m m' g (ap (λ x. x.engagements) eq) (ap (λ x. x.reserved_slots) eq) h a
      go (Step.requests r buyer seller d pass new hb hs resolved within fit terms claimed eq) g =
          quiet-SlotsAgree m m' g (ap (λ x. x.engagements) eq) (ap (λ x. x.reserved_slots) eq) h a
      go (Step.busies id r there waits eq) g =
          quiet-SlotsAgree m m' g (ap (λ x. x.engagements) eq) (ap (λ x. x.reserved_slots) eq) h a
      go (Step.engages id selection r buyer seller d there waits hb hs free claimed eq) g =
          subst (λ x. Grows m x → SlotsAgree x) (sym eq)
            (engages-SlotsAgree id selection r buyer seller d
              (stored-Unengaged m h id r there waits) hb hs free)
            g
      go (Step.closes id e status source r buyer seller d there active hr hb hs kept eq) g =
          subst (λ x. Grows m x → SlotsAgree x) (sym eq)
            (closes-SlotsAgree id e status source r buyer seller d there active hb hs) g
      go (Step.freezes t e r buyer seller d new there active pair hb hs hr pass claimed eq) g =
          status-SlotsAgree m m' g t.engagement_id e (accept e t) (ap (λ x. x.engagements) eq)
            (ap (λ x. x.reserved_slots) eq) there (active-live e.status active) refl refl refl h a
