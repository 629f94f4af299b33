-- ===== src/Game/AgentMarket/Calls/Release.antt =====
-- The Arena's timeout of an active engagement.
use adx_agentic_payment.Base.{
  ℕ, String, string_eq, option_eq, true, ◌≡◌, refl, sym, ap, ◌∙◌, inl, inr, none, some, List, ok,
  checks, Option-cases, some_inj,
}
use adx_agentic_payment.Base.Dict
use adx_agentic_payment.Base.Dict.{Dict}
use adx_agentic_payment.Game.AgentMarket.Terms.{AgentMarketEngagement}
use adx_agentic_payment.Game.AgentMarket.State.{
  Slot, AgentDrivenMarket, make_market, slot_key, slot_eq,
}
use adx_agentic_payment.Game.AgentMarket.Engaging.{
  ClosingStatus, is_active, close_as, close_active, close_engagement, claim_rejection,
  release_slots, release_slot, slot_engagement,
}
use adx_agentic_payment.Game.AgentMarket.Steps.{after_closing}
use adx_agentic_payment.Game.AgentMarket.Slots.{Occupied, release_slot-get}
use adx_agentic_payment.Game.AgentMarket.Calls.{Op, run, IsSound, run-IsSound, made-IsSound}

module _ (m : AgentDrivenMarket) (h : IsSound m) (k : String) (e : AgentMarketEngagement) where
  closing_call :
      (there : Dict.get m.engagements k ≡ some e)
      → is_active e.status ≡ true
      → close_engagement k ClosingStatus.timed_out none m ≡ (
        ok (close_as e ClosingStatus.timed_out none),
        after_closing k e ClosingStatus.timed_out none
            (h.stored.engaged k e there).request
            (h.stored.engaged k e there).pairing.buyer
            (h.stored.engaged k e there).pairing.seller
            m,
      )
  unfolding close_engagement close_active claim_rejection release_slots checks
  closing_call there active =
      let g = h.stored.engaged k e there in
      rw (there, active, g.has_request, g.pairing.has_buyer, g.pairing.has_seller) refl

  released :
      (there : Dict.get m.engagements k ≡ some e) (s : Slot)
      → Occupied m s k
      → Dict.get
          (after_closing k e ClosingStatus.timed_out none
            (h.stored.engaged k e there).request
            (h.stored.engaged k e there).pairing.buyer
            (h.stored.engaged k e there).pairing.seller
            m).reserved_slots
          s
        ≡ none
  released there s o =
      let g = h.stored.engaged k e there in
      let p = g.pairing in
      let once : Dict Slot String =
        release_slot e.engagement_id (slot_key p.buyer) m.reserved_slots in
      elim (Option-cases (Dict.get (release_slot e.engagement_id (slot_key p.seller) once) s)) [
        | inl free ↦ free
        | inr (j, held) ↦
            let (held1, not_seller) =
              release_slot-get e.engagement_id j (slot_key p.seller) s once held in
            let (held0, not_buyer) =
              release_slot-get e.engagement_id j (slot_key p.buyer) s m.reserved_slots held1 in
            let mine : j ≡ e.engagement_id =
              some_inj (sym held0 ∙ h.slots.reserved s k o) ∙ sym g.own in
            let same_e : o.engagement ≡ e = some_inj (sym o.has_engagement ∙ there) in
            let same_b : o.buyer ≡ p.buyer = some_inj (
              sym o.has_buyer
              ∙ ap (λ x. Dict.get m.intents x.buyer_intent_id) same_e
              ∙ p.has_buyer) in
            let same_s : o.seller ≡ p.seller = some_inj (
              sym o.has_seller
              ∙ ap (λ x. Dict.get m.intents x.seller_intent_id) same_e
              ∙ p.has_seller) in
            elim o.place [
              | inl place ↦ absurd (not_buyer (sym (place ∙ ap slot_key same_b)) mine)
              | inr place ↦ absurd (not_seller (sym (place ∙ ap slot_key same_s)) mine)
            ]
      ]

module _ (budget : ℕ) (m : AgentDrivenMarket) (ops : List Op) where
  -- After any calls on a new market, the timeout of an active engagement succeeds, and then no engagement
  -- has the slots that it occupied.
  pub timeout_frees_slots :
      (k : String) (e : AgentMarketEngagement)
      → make_market budget ≡ ok m
      → Dict.get (run ops m).engagements k ≡ some e
      → is_active e.status ≡ true
      → ((close_engagement k ClosingStatus.timed_out none (run ops m)).0
          ≡ ok (close_as e ClosingStatus.timed_out none))
        × ((s : Slot)
            → Occupied (run ops m) s k
            → slot_engagement s (close_engagement k ClosingStatus.timed_out none (run ops m)).1
              ≡ none)
  unfolding slot_engagement
  timeout_frees_slots k e made there active =
      let h = run-IsSound ops m (made-IsSound budget m made) in
      let done = closing_call (run ops m) h k e there active in
      (
        ap (λ r. r.0) done,
        λ s o. ap (λ r. Dict.get r.1.reserved_slots s) done ∙ released (run ops m) h k e there s o,
      )
