-- ===== src/Payments/Repository/Ledger/Kept.antt =====
-- Every step, and so every sequence of steps, keeps the invariant.
use mathlib.Core.Path.{subst}
use adx_agentic_payment.Base.{String, ◌≡◌, ap, sym, ◌∙◌, string_eq}
use adx_agentic_payment.Payments.Repository.{Repository, new_reservation}
use adx_agentic_payment.Payments.Repository.Steps.{
  consumed_form, submitted_form, released_form, Step, reserves, consumes, submits, releases,
  revokes, opens,
}
use adx_agentic_payment.Payments.Repository.Ledger.{make_reservation-ok, IsLedger}
use adx_agentic_payment.Payments.Repository.Steps.{Reach, here, next}
use adx_agentic_payment.Payments.Repository.Ledger.Stored.{
  store-IsLedger, revokes-MandateOk, opens-MandateOk,
}
use adx_agentic_payment.Payments.Repository.Ledger.Settled.{
  submits-IsLedger, consumes-IsLedger, releases-IsLedger,
}
use adx_agentic_payment.Payments.Repository.Ledger.Reserved.{reserved_state, reserves-IsLedger}

module _ (identifier : String → String → String → String) where
  module _
      (identifier_injective : (m i h m' i' h' : String)
        → identifier m i h ≡ identifier m' i' h'
        → i ≡ i') where
    Step-IsLedger :
        {s s' : Repository} → Step identifier s s' → IsLedger identifier s → IsLedger identifier s'
    Step-IsLedger {s} (reserves k t now m m' r em fresh amount pass acc made e) l =
        subst (IsLedger identifier)
          (sym (
            e
            ∙ ap (λ x. reserved_state identifier identifier_injective s k t m' x)
                (make_reservation-ok (new_reservation identifier k t now) made)))
          (reserves-IsLedger identifier identifier_injective s k t now m m' l em fresh amount acc)
    Step-IsLedger {s} (consumes k tx now r r' m m' found live made owner acc e) l =
        subst (IsLedger identifier) (sym e) (
          consumes-IsLedger identifier s k tx now r r' m m' l found live
            (make_reservation-ok (consumed_form r tx now) made) owner acc)
    Step-IsLedger {s} (submits k tx r r' found st made e) l = subst (IsLedger identifier) (sym e) (
        submits-IsLedger identifier s k tx r r' l found st
          (make_reservation-ok (submitted_form r tx) made))
    Step-IsLedger {s} (releases k reason now r r' m m' found st made owner acc e) l =
        subst (IsLedger identifier) (sym e) (
          releases-IsLedger identifier s k reason now r r' m m' l found st
            (make_reservation-ok (released_form r reason now) made) owner acc)
    Step-IsLedger {s} (revokes k now m m' em rev e) l = subst (IsLedger identifier) (sym e) (
        store-IsLedger identifier s k m' l
          (revokes-MandateOk identifier s k now m m' (l.accounts k m em) rev))
    Step-IsLedger {s} (opens m fm prior free e) l =
        subst (IsLedger identifier) (sym e)
          (store-IsLedger identifier s m.mandate_id m l (opens-MandateOk identifier s m l fm prior))

    pub Reach-IsLedger :
        {s s' : Repository} → Reach identifier s s' → IsLedger identifier s → IsLedger identifier s'
    Reach-IsLedger here l = l
    Reach-IsLedger (next r st) l = Step-IsLedger st (Reach-IsLedger r l)
