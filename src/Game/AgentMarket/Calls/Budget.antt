-- ===== src/Game/AgentMarket/Calls/Budget.antt =====
-- The buyer's budget of requests: so many sellers in all, and one request at a time.
use adx_agentic_payment.Base.{
  ℕ, ◌+◌, ◌≤◌, String, string_eq, Bool, true, false, ◌≡◌, refl, sym, ap, ◌∙◌, inl, inr, Option,
  none, some, List, [], ◌∷◌, All, length, any, ltb, ok, ◌==◌, ==_iff, contains, Bool-cases,
  Option-cases, arith,
}
use mathlib.Core.Path.{subst}
use adx_agentic_payment.Base.Dict
use adx_agentic_payment.Base.Dict.{Dict}
use adx_agentic_payment.Base.Dict.Count.{selected, count-put_new, count-put_same}
use adx_agentic_payment.Game.AgentMarket.Terms.{
  AgentNegotiationRequest, RequestRecord, RequestStatus,
}
use adx_agentic_payment.Game.AgentMarket.State.{AgentDrivenMarket, new_market, make_market, slot_eq}
use adx_agentic_payment.Game.AgentMarket.Publishing.{
  is_pending, is_unresolved, is_outstanding, targets_of, add_target, with_request,
}
use adx_agentic_payment.Game.AgentMarket.Engaging.{mark_busy, mark_engaged, mark_rejected}
use adx_agentic_payment.Game.AgentMarket.Steps.{Step, with_claims}
use adx_agentic_payment.Game.AgentMarket.Stored.{Each, put-Each}
use adx_agentic_payment.Game.AgentMarket.Calls.{
  Op, run, IsSound, run-invariant, made-market, made-IsSound,
}

-- No two requests of one buyer intent are unresolved at once.
abbrev pub OneUnresolved : Dict String RequestRecord → Type 0
OneUnresolved d =
    (j k : String) (q r : RequestRecord)
    → Dict.get d j ≡ some q
    → Dict.get d k ≡ some r
    → q.request.buyer_intent_id ≡ r.request.buyer_intent_id
    → is_unresolved q.status ≡ true
    → is_unresolved r.status ≡ true
    → j ≡ k

abbrev pub of_buyer : String → RequestRecord → Bool
of_buyer b r = r.request.buyer_intent_id == b

-- The stored requests of a buyer intent, whatever their status.
abbrev pub requests_of : AgentDrivenMarket → String → List RequestRecord
requests_of m b = selected (of_buyer b) m.requests

pub record WithinBudget (budget : ℕ) (m : AgentDrivenMarket) : Type 0 where
  pub limit : m.max_outbound_rfq ≡ budget
  pub targets : Each (λ b ts. length ts ≤ budget) m.request_targets_by_buyer
  pub counted : (b : String) → length (requests_of m b) ≤ length (targets_of m b)
  pub single : OneUnresolved m.requests

any-All {ℓ} : {A : Type ℓ} (p : A → Bool) (l : List A) → any p l ≡ false → All (λ x. p x ≡ false) l
any-All p [] h = tt
any-All p (x ∷ l) h = elim (Bool-cases (p x)) [
  | inl holds ↦ cc (rw holds at h)
  | inr fails ↦ (fails, any-All p l (rw fails at h))
]

-- A status that is written over a request, which is resolved unless the old one was not.
status-OneUnresolved :
    (d : Dict String RequestRecord) (id : String) (r r' : RequestRecord)
    → Dict.get d id ≡ some r
    → r'.request ≡ r.request
    → (is_unresolved r'.status ≡ true → is_unresolved r.status ≡ true)
    → OneUnresolved d
    → OneUnresolved (Dict.put d id r')
status-OneUnresolved d id r r' there same settled one j k p q hp hq buyers up uq =
    let back : (i : String) (x : RequestRecord)
        → Dict.get (Dict.put d id r') i ≡ some x
        → is_unresolved x.status ≡ true
        → (y : RequestRecord) × (Dict.get d i ≡ some y)
          × (y.request ≡ x.request)
          × (is_unresolved y.status ≡ true) =
      λ i x h u. elim (Dict.get-put_cases d id i r' x h) [
        | inl (here, eq) ↦ (
          r,
          ap (Dict.get d) (sym here) ∙ there,
          sym same ∙ ap (λ z. z.request) eq,
          settled (subst (λ z. is_unresolved z.status ≡ true) (sym eq) u),
        )
        | inr (away, old) ↦ (x, old, refl, u)
      ] in
    let (p0, hp0, ep, up0) = back j p hp up in
    let (q0, hq0, eq, uq0) = back k q hq uq in
    one j k p0 q0 hp0 hq0
      (ap (λ z. z.buyer_intent_id) ep ∙ buyers ∙ sym (ap (λ z. z.buyer_intent_id) eq)) up0 uq0

-- A new request of a buyer whose other requests are all resolved.
new-OneUnresolved :
    (d : Dict String RequestRecord) (id : String) (r : RequestRecord)
    → any (is_outstanding r.request.buyer_intent_id) (Dict.values d) ≡ false
    → OneUnresolved d
    → OneUnresolved (Dict.put d id r)
new-OneUnresolved d id r resolved one j k p q hp hq buyers up uq =
    let clash : (i : String) (x : RequestRecord)
        → Dict.get d i ≡ some x
        → x.request.buyer_intent_id ≡ r.request.buyer_intent_id
        → is_unresolved x.status ≡ true
        → j ≡ k =
      λ i x h same u.
        let out =
          Dict.get-All (λ y. is_outstanding r.request.buyer_intent_id y ≡ false) d i x
            (any-All (is_outstanding r.request.buyer_intent_id) (Dict.values d) resolved) h in
        cc (rw (u, (==_iff x.request.buyer_intent_id r.request.buyer_intent_id).1 same) at out) in
    elim (Dict.get-put_cases d id j r p hp) [
      | inl (here, eq) ↦ elim (Dict.get-put_cases d id k r q hq) [
        | inl (here2, eq2) ↦ sym here ∙ here2
        | inr (away2, old2) ↦
            clash k q old2 (sym buyers ∙ ap (λ z. z.request.buyer_intent_id) (sym eq)) uq
      ]
      | inr (away, old) ↦ elim (Dict.get-put_cases d id k r q hq) [
        | inl (here2, eq2) ↦
            clash j p old (buyers ∙ ap (λ z. z.request.buyer_intent_id) (sym eq2)) up
        | inr (away2, old2) ↦ one j k p q old old2 buyers up uq
      ]
    ]

pending-unresolved : (s : RequestStatus) → is_pending s ≡ true → is_unresolved s ≡ true
pending-unresolved RequestStatus.pending h = refl
pending-unresolved RequestStatus.engaged h = cc
pending-unresolved RequestStatus.rejected h = cc
pending-unresolved RequestStatus.counterparty_was_busy h = cc

length-add_target : (t : String) (ts : List String) → length (add_target t ts) ≤ length ts + 1
length-add_target t ts = elim (Bool-cases (contains ts t)) [
  | inl old ↦ rw old (omega arith)
  | inr new ↦ rw new (omega arith)
]

within : (a b : ℕ) → ltb a b ≡ false → b ≤ a
within a b h = ground (arith, h)

-- A status that is written over a request leaves the buyers' numbers of requests.
status-counted :
    (m : AgentDrivenMarket) (id : String) (r r' : RequestRecord)
    → Dict.get m.requests id ≡ some r
    → r'.request ≡ r.request
    → ((b : String) → length (requests_of m b) ≤ length (targets_of m b))
    → (b : String)
    → length (selected (of_buyer b) (Dict.put m.requests id r')) ≤ length (targets_of m b)
status-counted m id r r' there same counted b =
    let kept =
      count-put_same (of_buyer b) m.requests id r' r there
        (ap (λ x. x.buyer_intent_id == b) same) in
    rw kept (counted b)

-- The targets that a lookup shows.
abbrev listed : Option (List String) → List String
listed none = []
listed (some ts) = ts

-- A new request to a seller that is not among the targets is counted by a new target.
new-counted :
    (m : AgentDrivenMarket) (r : AgentNegotiationRequest) (b : String)
    → contains (targets_of m r.buyer_intent_id) r.seller_intent_id ≡ false
    → Dict.get m.requests r.request_id ≡ none
    → length (requests_of m r.buyer_intent_id) ≤ length (targets_of m r.buyer_intent_id)
    → length (requests_of m b) ≤ length (targets_of m b)
    → length (requests_of (with_request r m) b) ≤ length (targets_of (with_request r m) b)
new-counted m r b fresh new own counted =
    let stored : RequestRecord = record {
      request = r;
      status = RequestStatus.pending;
      engagement_id = none;
    } in
    let added = count-put_new (of_buyer b) m.requests r.request_id stored new in
    let found =
      Dict.get-put m.request_targets_by_buyer r.buyer_intent_id b
        (add_target r.seller_intent_id (targets_of m r.buyer_intent_id)) in
    elim (Bool-cases (r.buyer_intent_id == b)) [
      | inl same ↦
          let own_b : length (requests_of m b) ≤ length (targets_of m r.buyer_intent_id) =
            subst (λ x. length (requests_of m x) ≤ length (targets_of m r.buyer_intent_id))
              ((==_iff r.buyer_intent_id b).0 same) own in
          let targets : targets_of (with_request r m) b
              ≡ r.seller_intent_id ∷ targets_of m r.buyer_intent_id =
            ap listed {y = some (r.seller_intent_id ∷ targets_of m r.buyer_intent_id)}
              (found ∙ rw (same, fresh) refl) in
          let count : length (requests_of (with_request r m) b) ≡ length (requests_of m b) + 1 =
            added ∙ rw same refl in
          rw targets (omega (arith, own_b, count))
      | inr other ↦
          let targets : targets_of (with_request r m) b ≡ targets_of m b =
            ap listed {y = Dict.get m.request_targets_by_buyer b} (found ∙ rw other refl) in
          let count : length (requests_of (with_request r m) b) ≡ length (requests_of m b) + 0 =
            added ∙ rw other refl in
          rw targets (omega (arith, counted, count))
    ]

Step-WithinBudget :
    (budget : ℕ) (m m' : AgentDrivenMarket)
    → IsSound m
    → Step m m'
    → WithinBudget budget m
    → WithinBudget budget m'
Step-WithinBudget budget m m' h (Step.publishes i d pass new claimed eq) w =
    subst (WithinBudget budget) (sym eq)
      (record { limit = w.limit; targets = w.targets; counted = w.counted; single = w.single })
Step-WithinBudget budget m m' h
      (Step.requests r buyer seller d pass new hb hs resolved room fit terms claimed eq) w =
    let b_id : buyer.intent_id ≡ r.buyer_intent_id =
      (h.stored.intents r.buyer_intent_id buyer hb).0 in
    let room_now : length (targets_of m r.buyer_intent_id) + 1 ≤ budget =
      subst (λ x. length (targets_of m r.buyer_intent_id) + 1 ≤ x) w.limit
        (within m.max_outbound_rfq (length (targets_of m r.buyer_intent_id) + 1)
          (subst (λ x. ltb m.max_outbound_rfq (length (targets_of m x) + 1) ≡ false) b_id room)) in
    let s_id : seller.intent_id ≡ r.seller_intent_id =
      (h.stored.intents r.seller_intent_id seller hs).0 in
    let fresh_seller : contains (targets_of m r.buyer_intent_id) r.seller_intent_id ≡ false =
      subst (λ x. contains (targets_of m x) r.seller_intent_id ≡ false) b_id
        (subst (λ x. contains (targets_of m buyer.intent_id) x ≡ false) s_id terms.1.1.1.0) in
    subst (WithinBudget budget) (sym eq) (record {
      limit = w.limit;
      targets =
          put-Each (λ b ts. length ts ≤ budget) m.request_targets_by_buyer r.buyer_intent_id
            (add_target r.seller_intent_id (targets_of m r.buyer_intent_id))
            (omega (
              arith,
              room_now,
              length-add_target r.seller_intent_id (targets_of m r.buyer_intent_id),
            ))
            w.targets;
      counted = λ b.
          new-counted (with_claims d m) r b fresh_seller new (w.counted r.buyer_intent_id)
            (w.counted b);
      single =
          new-OneUnresolved m.requests r.request_id
            (record { request = r; status = RequestStatus.pending; engagement_id = none })
            (subst (λ x. any (is_outstanding x) (Dict.values m.requests) ≡ false) b_id resolved)
            w.single;
    })
Step-WithinBudget budget m m' h (Step.busies id r there waits eq) w =
    subst (WithinBudget budget) (sym eq) (record {
      limit = w.limit;
      targets = w.targets;
      counted = status-counted m id r (mark_busy r) there refl w.counted;
      single = status-OneUnresolved m.requests id r (mark_busy r) there refl (λ u. cc u) w.single;
    })
Step-WithinBudget budget m m' h
      (Step.engages id selection r buyer seller d there waits hb hs free claimed eq) w =
    subst (WithinBudget budget) (sym eq) (record {
      limit = w.limit;
      targets = w.targets;
      counted = status-counted m id r (mark_engaged r _) there refl w.counted;
      single =
          status-OneUnresolved m.requests id r (mark_engaged r _) there refl
            (λ u. pending-unresolved r.status waits) w.single;
    })
Step-WithinBudget budget m m' h
      (Step.closes id e status source r buyer seller d there active hr hb hs kept eq) w =
    subst (WithinBudget budget) (sym eq) (record {
      limit = w.limit;
      targets = w.targets;
      counted = status-counted m e.request_id r (mark_rejected r) hr refl w.counted;
      single =
          status-OneUnresolved m.requests e.request_id r (mark_rejected r) hr refl (λ u. cc u)
            w.single;
    })
Step-WithinBudget budget m m' h
      (Step.freezes t e r buyer seller d new there active pair hb hs hr pass claimed eq) w =
    subst (WithinBudget budget) (sym eq)
      (record { limit = w.limit; targets = w.targets; counted = w.counted; single = w.single })

new_market-WithinBudget : (budget : ℕ) → WithinBudget budget (new_market budget)
new_market-WithinBudget budget = record {
  limit = refl;
  targets = λ b ts w. cc (Dict.get-empty {V = List String} b, w);
  counted = λ b. omega arith;
  single = λ j k q r w. cc (Dict.get-empty {V = RequestRecord} j, w);
}

targets_of-le :
    (budget : ℕ) (m : AgentDrivenMarket) (b : String)
    → WithinBudget budget m
    → length (targets_of m b) ≤ budget
targets_of-le budget m b w = elim (Option-cases (Dict.get m.request_targets_by_buyer b)) [
  | inl none_ ↦ rw (none_, length) (omega arith)
  | inr (ts, there) ↦ rw (there, length) (w.targets b ts there)
]

module _ (budget : ℕ) (m : AgentDrivenMarket) (ops : List Op) where
  -- After any calls on a new market, no more requests of a buyer intent are stored, whatever has become
  -- of them, than the market's budget, which is one to three, nor are more sellers among its targets;
  -- and no two of its requests are unresolved at once.
  pub rfq_budget :
      (b : String)
      → make_market budget ≡ ok m
      → (1 ≤ budget)
        × (budget ≤ 3)
        × (length (requests_of (run ops m) b) ≤ budget)
        × (length (targets_of (run ops m) b) ≤ budget)
        × OneUnresolved (run ops m).requests
  rfq_budget b made =
      let (same, range) = made-market budget m made in
      let w =
        run-invariant (WithinBudget budget) (Step-WithinBudget budget) ops m
          (made-IsSound budget m made)
          (subst (WithinBudget budget) (sym same) (new_market-WithinBudget budget)) in
      let few = targets_of-le budget (run ops m) b w in
      (ground (arith, range), ground (arith, range), omega (arith, few, w.counted b), few, w.single)
