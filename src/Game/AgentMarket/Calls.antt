-- ===== src/Game/AgentMarket/Calls.antt =====
-- Sequences of calls on one market. Intents and requests go through their constructors first. The
-- directory, the inbox and the status are read only.
pub mod Promises
pub mod Budget
pub mod Release
pub mod Tests
use adx_agentic_payment.Base.{
  ℕ, String, string_eq, Bool, true, false, ◌≡◌, refl, sym, ap, ◌∙◌, built, built_err, err_inj, ◌⊎◌,
  inl, inr, Option, none, some, List, [], ◌∷◌, ◌++◌, All, AllPass, Result, ok, err, Result-cases,
  checks, checks-AllPass, checks_err, and_then, Action, lift, pure, ◌>>=◌, ◌>>◌, ltb, ◌||◌,
  if◌then◌else◌, Bool-cases, ok_inj,
}
use mathlib.Core.Path.{subst}
use adx_agentic_payment.Base.Dict
use adx_agentic_payment.Base.Dict.{Dict}
use adx_agentic_payment.Payments.Models.{Datetime}
use adx_agentic_payment.Game.AgentMarket.Terms.{
  AgentMarketError, is_key_error, AgentMarketIntent, AgentNegotiationRequest, AgentMarketEngagement,
  AgentMarketDeal, make_intent, make_request, intent_guards, request_guards, RequestRecord,
}
use adx_agentic_payment.Game.AgentMarket.State.{
  Slot, Claim, AgentDrivenMarket, Call, new_market, make_market, slot_eq,
}
use adx_agentic_payment.Game.AgentMarket.Publishing.{
  publish_intent, public_directory, submit_requests, inbound_requests,
}
use adx_agentic_payment.Game.AgentMarket.Engaging.{
  ClosingStatus, Terms, engage_request, close_engagement, freeze_deal, request_status,
}
use adx_agentic_payment.Game.AgentMarket.Steps.{Step, Outcome}
use adx_agentic_payment.Game.AgentMarket.Steps.Publishing.{
  publish_intent-Outcome, public_directory-Outcome, submit_requests-Outcome,
  inbound_requests-Outcome,
}
use adx_agentic_payment.Game.AgentMarket.Steps.Engaging.{
  engage_request-Outcome, close_engagement-Outcome, freeze_deal-Outcome, request_status-Outcome,
}
use adx_agentic_payment.Game.AgentMarket.Kept.{Grows, Grows-refl, Grows-trans, Step-Grows}
use adx_agentic_payment.Game.AgentMarket.Stored.{Stored, HasRequest, stored-Unengaged}
use adx_agentic_payment.Game.AgentMarket.Stored.Steps.{Step-Stored}
use adx_agentic_payment.Game.AgentMarket.Slots.{Occupied, SlotsAgree}
use adx_agentic_payment.Game.AgentMarket.Slots.Steps.{Step-SlotsAgree}

pub data Op : Type 0 where
  publishes : AgentMarketIntent → Op
  discovers : String → Datetime → Op
  submits : List AgentNegotiationRequest → Op
  reads_inbox : String → Op
  engages : String → String → String → Op
  closes : String → ClosingStatus → Option String → Op
  freezes : Terms → Op
  reads_status : String → Op

abbrev pub make_requests :
    List AgentNegotiationRequest → Result AgentMarketError (List AgentNegotiationRequest)
make_requests [] = ok []
make_requests (r ∷ rs) =
    and_then (make_request r) (λ q. and_then (make_requests rs) (λ qs. ok (q ∷ qs)))

abbrev pub discard : {A : Type 0} → Call A → Call Unit
discard c = c >> pure tt

unfoldable pub call : Op → Call Unit
call (publishes i) = discard (lift (make_intent i) >>= publish_intent)
call (discovers id at) = discard (public_directory id at)
call (submits rs) = discard (lift (make_requests rs) >>= submit_requests)
call (reads_inbox p) = discard (inbound_requests p)
call (engages actor id selection) = discard (engage_request actor id selection)
call (closes id status source) = discard (close_engagement id status source)
call (freezes t) = discard (freeze_deal t)
call (reads_status id) = discard (request_status id)

-- The market after a call, whether it returned or raised.
unfoldable pub apply : Op → AgentDrivenMarket → AgentDrivenMarket
apply op m = (call op m).1

unfoldable pub run : List Op → AgentDrivenMarket → AgentDrivenMarket
run [] m = m
run (op ∷ ops) m = run ops (apply op m)

pub record IsSound (m : AgentDrivenMarket) : Type 0 where
  pub stored : Stored m m
  pub slots : SlotsAgree m

module _ (m : AgentDrivenMarket) where
  discard-Outcome : {A : Type 0} (c : Call A) → Outcome m (c m) → Outcome m (discard c m)
  discard-Outcome c (Outcome.returned a e) = rw e (Outcome.returned tt refl)
  discard-Outcome c (Outcome.stepped a m' s e) = rw e (Outcome.stepped tt m' s refl)
  discard-Outcome c (Outcome.refused x k e) = rw e (Outcome.refused x k refl)
  discard-Outcome c (Outcome.busied id q there waits e) =
      rw e (Outcome.busied id q there waits refl)

  made-Outcome :
      {A B : Type 0} (r : Result AgentMarketError A) (f : A → Call B)
      → ((e : AgentMarketError) → r ≡ err e → is_key_error e ≡ false)
      → ((a : A) → r ≡ ok a → Outcome m (f a m))
      → Outcome m ((lift r >>= f) m)
  made-Outcome (ok a) f k h = h a refl
  made-Outcome (err e) f k h = Outcome.refused e (k e refl) refl

abbrev Harmless : AgentMarketError → Type 0
Harmless e = is_key_error e ≡ false

make_intent-err :
    (i : AgentMarketIntent) (e : AgentMarketError) → make_intent i ≡ err e → Harmless e
unfolding make_intent
make_intent-err i e h =
    built_err Harmless (intent_guards i) i e
      (refl, (refl, (refl, (refl, (refl, (refl, (refl, (refl, (refl, tt))))))))) h

make_intent-valid : (i j : AgentMarketIntent) → make_intent i ≡ ok j → AllPass (intent_guards j)
unfolding make_intent
make_intent-valid i j h =
    let (pass, same) = built (intent_guards i) i h in
    subst (λ x. AllPass (intent_guards x)) same pass

make_request-err :
    (r : AgentNegotiationRequest) (e : AgentMarketError) → make_request r ≡ err e → Harmless e
unfolding make_request
make_request-err r e h =
    built_err Harmless (request_guards r) r e (refl, (refl, (refl, (refl, tt)))) h

make_request-valid :
    (r q : AgentNegotiationRequest) → make_request r ≡ ok q → AllPass (request_guards q)
unfolding make_request
make_request-valid r q h =
    let (pass, same) = built (request_guards r) r h in
    subst (λ x. AllPass (request_guards x)) same pass

make_requests-err :
    (rs : List AgentNegotiationRequest) (e : AgentMarketError)
    → make_requests rs ≡ err e
    → Harmless e
make_requests-err [] e h = cc
make_requests-err (r ∷ rs) e h = elim (Result-cases (make_request r)) [
  | inr (x, raised) ↦
      subst Harmless (err_inj {A = List AgentNegotiationRequest} (rw raised at h))
        (make_request-err r x raised)
  | inl (q, made) ↦ elim (Result-cases (make_requests rs)) [
    | inr (x, raised) ↦
        subst Harmless (err_inj {A = List AgentNegotiationRequest} (rw (made, raised) at h))
          (make_requests-err rs x raised)
    | inl (qs, all) ↦ cc (rw (made, all) at h)
  ]
]

make_requests-valid :
    (rs qs : List AgentNegotiationRequest)
    → make_requests rs ≡ ok qs
    → All (λ q. AllPass (request_guards q)) qs
make_requests-valid [] qs h =
    subst (All (λ q. AllPass (request_guards q))) (ok_inj {E = AgentMarketError} h) tt
make_requests-valid (r ∷ rs) qs h = elim (Result-cases (make_request r)) [
  | inr (x, raised) ↦ cc (rw raised at h)
  | inl (q, made) ↦ elim (Result-cases (make_requests rs)) [
    | inr (x, raised) ↦ cc (rw (made, raised) at h)
    | inl (rest, all) ↦
        subst (All (λ q. AllPass (request_guards q)))
          (ok_inj {E = AgentMarketError} (rw (made, all) at h))
          (make_request-valid r q made, make_requests-valid rs rest all)
  ]
]

module _ (m : AgentDrivenMarket) (h : IsSound m) where
  pub call-Outcome : (op : Op) → Outcome m (call op m)
  unfolding call
  call-Outcome (publishes i) = discard-Outcome m (lift (make_intent i) >>= publish_intent) (
      made-Outcome m (make_intent i) publish_intent (make_intent-err i)
        (λ j made. publish_intent-Outcome m j (make_intent-valid i j made) h.stored.published))
  call-Outcome (discovers id at) =
      discard-Outcome m (public_directory id at) (public_directory-Outcome m id at)
  call-Outcome (submits rs) = discard-Outcome m (lift (make_requests rs) >>= submit_requests) (
      made-Outcome m (make_requests rs) submit_requests (make_requests-err rs) (λ qs made.
        submit_requests-Outcome m qs (make_requests-valid rs qs made) h.stored.submitted))
  call-Outcome (reads_inbox p) =
      discard-Outcome m (inbound_requests p) (inbound_requests-Outcome m p)
  call-Outcome (engages actor id selection) =
      discard-Outcome m (engage_request actor id selection)
        (engage_request-Outcome m actor id selection h.stored.selected)
  call-Outcome (closes id status source) = discard-Outcome m (close_engagement id status source) (
      close_engagement-Outcome m id status source (λ k e there.
        let g = h.stored.engaged k e there in
        (
          (g.request, g.has_request),
          (g.pairing.buyer, g.pairing.has_buyer),
          (g.pairing.seller, g.pairing.has_seller),
        )))
  call-Outcome (freezes t) = discard-Outcome m (freeze_deal t) (freeze_deal-Outcome m t)
  call-Outcome (reads_status id) =
      discard-Outcome m (request_status id) (request_status-Outcome m id)

  -- A call leaves the market as it is, or takes one step.
  pub apply_moves : (op : Op) → (m ≡ apply op m) ⊎ Step m (apply op m)
  unfolding apply
  apply_moves op = elim (call-Outcome op) [
    | Outcome.returned a e ↦ inl (sym (ap (λ r. r.1) e))
    | Outcome.stepped a m' s e ↦ inr (subst (Step m) (sym (ap (λ r. r.1) e)) s)
    | Outcome.refused x k e ↦ inl (sym (ap (λ r. r.1) e))
    | Outcome.busied id q there waits e ↦ inr (Step.busies id q there waits (ap (λ r. r.1) e))
  ]

  apply-IsSound : (op : Op) → IsSound (apply op m)
  apply-IsSound op = elim (apply_moves op) [
    | inl same ↦ subst IsSound same h
    | inr s ↦ record {
      stored = Step-Stored m (apply op m) h.stored s;
      slots = Step-SlotsAgree m h.stored h.slots (apply op m) s;
    }
  ]

  apply-Grows : (op : Op) → Grows m (apply op m)
  apply-Grows op = elim (apply_moves op) [
    | inl same ↦ subst (Grows m) same (Grows-refl m)
    | inr s ↦ Step-Grows m (apply op m) (stored-Unengaged m h.stored) s
  ]

-- A relation of markets that every step keeps holds after any calls.
module _ {ℓ} (P : AgentDrivenMarket → Type ℓ) where
  pub run-invariant :
      ((m m' : AgentDrivenMarket) → IsSound m → Step m m' → P m → P m')
      → (ops : List Op) (m : AgentDrivenMarket) → IsSound m
      → P m
      → P (run ops m)
  unfolding run
  run-invariant f [] m h p = p
  run-invariant f (op ∷ ops) m h p =
      run-invariant f ops (apply op m) (apply-IsSound m h op)
        (elim (apply_moves m h op) [ inl same ↦ subst P same p | inr s ↦ f m (apply op m) h s p ])

pub run-IsSound : (ops : List Op) (m : AgentDrivenMarket) → IsSound m → IsSound (run ops m)
unfolding run
run-IsSound [] m h = h
run-IsSound (op ∷ ops) m h = run-IsSound ops (apply op m) (apply-IsSound m h op)

pub run-Grows : (ops : List Op) (m : AgentDrivenMarket) → IsSound m → Grows m (run ops m)
unfolding run
run-Grows [] m h = Grows-refl m
run-Grows (op ∷ ops) m h =
    Grows-trans m (apply op m) (run ops (apply op m)) (apply-Grows m h op)
      (run-Grows ops (apply op m) (apply-IsSound m h op))

none_some : {A : Type 0} {a : A} {B : Type 0} → Option.none ≡ some a → B
none_some h = cc

-- A new market: its dicts are empty.
new_market-IsSound : (budget : ℕ) → IsSound (new_market budget)
new_market-IsSound budget = record {
  stored = record {
    published = λ s k w. cc (Dict.get-empty {V = String} s, w);
    submitted = λ s ks w. cc (Dict.get-empty {V = List String} s, w);
    selected = λ s k w. cc (Dict.get-empty {V = String} s, w);
    intents = λ k i w. cc (Dict.get-empty {V = AgentMarketIntent} k, w);
    requests = λ k r w. cc (Dict.get-empty {V = RequestRecord} k, w);
    engaged = λ k e w. cc (Dict.get-empty {V = AgentMarketEngagement} k, w);
    deals = λ k d w. cc (Dict.get-empty {V = AgentMarketDeal} k, w);
  };
  slots = record {
    reserved = λ s k o. cc (Dict.get-empty {V = AgentMarketEngagement} k, o.has_engagement);
    occupied = λ s k w. none_some (sym (Dict.get-empty {V = String} s) ∙ w);
  };
}

pub made-market :
    (budget : ℕ) (m : AgentDrivenMarket)
    → make_market budget ≡ ok m
    → (m ≡ new_market budget) × ((ltb budget 1 || ltb 3 budget) ≡ false)
unfolding make_market
made-market budget m h = elim (Bool-cases (ltb budget 1 || ltb 3 budget)) [
  | inl bad ↦ cc (rw bad at h)
  | inr good ↦ (sym (ok_inj {E = AgentMarketError} (rw good at h)), good)
]

pub made-IsSound : (budget : ℕ) (m : AgentDrivenMarket) → make_market budget ≡ ok m → IsSound m
made-IsSound budget m h = subst IsSound (sym (made-market budget m h).0) (new_market-IsSound budget)
