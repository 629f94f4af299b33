-- ===== src/Payments/Repository/Ledger/Settled.antt =====
-- Submitting, consuming and releasing a reservation keep the invariant.
use adx_agentic_payment.Base.{String, ◌≡◌, refl, ap, true, false, some, ok, string_eq}
use adx_agentic_payment.Base.Int.{pos, ◌+ℤ◌, ◌-ℤ◌, sub-add, add_nothing_right}
use adx_agentic_payment.Base.Dict
use adx_agentic_payment.Base.Dict.{Dict}
use adx_agentic_payment.Base.Text.{lower}
use adx_agentic_payment.Payments.Models.{
  Datetime, PaymentMandate, with_accounting, PaymentReservation, ReservationStatus,
}
use adx_agentic_payment.Payments.Repository.{Repository}
use adx_agentic_payment.Payments.Repository.Validity.{with_accounting-ok}
use adx_agentic_payment.Payments.Repository.Steps.{
  is_live, consumed_form, submitted_form, released_form,
}
use adx_agentic_payment.Payments.Repository.Accounts.{
  spent, held_live, held_dead, spent_consumed, spent_unconsumed, live-unconsumed, submitted_held,
  submitted_spent, same_shares, exchange-AccountsOk,
}
use adx_agentic_payment.Payments.Repository.Ledger.{IsLedger, still_owned, refiled}

module _ (identifier : String → String → String → String) where
  pub submits-IsLedger :
      (s : Repository) (k tx : String) (r r' : PaymentReservation)
      → IsLedger identifier s
      → Dict.get s.reservations k ≡ some r
      → r.status ≡ ReservationStatus.reserved
      → r' ≡ record (submitted_form r tx) { payee = lower r.payee }
      → IsLedger identifier (record s { reservations = Dict.put s.reservations k r' })
  submits-IsLedger s k tx r r' l found st shape = record {
    distinct = l.distinct;
    distinct_reservations = Dict.put-IsDistinct s.reservations k r' l.distinct_reservations;
    accounts = λ j m h.
        same_shares s.reservations k r r' found j m (rw shape (submitted_held j r tx st))
          (rw shape (submitted_spent j r tx st)) (l.accounts j m h);
    filing =
        refiled identifier s s.mandates k r r' l (λ j h. h) found (ap (λ x. x.mandate_id) shape)
          (ap (λ x. x.settlement_intent_id) shape) (ap (λ x. x.intent_hash) shape)
          (ap (λ x. x.amount_atomic) shape);
  }

  -- A live reservation is settled: its mandate's reserved figure falls by the amount.
  settle-IsLedger :
      (s : Repository) (k : String) (r r' : PaymentReservation) (m m' : PaymentMandate)
      → IsLedger identifier s
      → Dict.get s.reservations k ≡ some r
      → Dict.get s.mandates r.mandate_id ≡ some m
      → is_live r.status ≡ true
      → is_live r'.status ≡ false
      → r'.mandate_id ≡ r.mandate_id
      → r'.settlement_intent_id ≡ r.settlement_intent_id
      → r'.intent_hash ≡ r.intent_hash
      → r'.amount_atomic ≡ r.amount_atomic
      → with_accounting m
          (m.reserved_atomic -ℤ r.amount_atomic)
          (m.consumed_atomic +ℤ spent r.mandate_id r')
        ≡ ok m'
      → IsLedger identifier (record s {
        mandates = Dict.put s.mandates m.mandate_id m';
        reservations = Dict.put s.reservations k r';
      })
  settle-IsLedger s k r r' m m' l found owner live dead em ei eh ea acc =
      let (valid, shape) = with_accounting-ok m _ _ (l.accounts r.mandate_id m owner).valid acc in
      record {
        distinct = Dict.put-IsDistinct s.mandates m.mandate_id m' l.distinct;
        distinct_reservations = Dict.put-IsDistinct s.reservations k r' l.distinct_reservations;
        accounts =
            exchange-AccountsOk s.reservations k r r' found s.mandates m m' l.accounts owner em
              (ap (λ x. x.mandate_id) shape) valid
              (rw (shape, held_live r live, held_dead r.mandate_id r' dead)
                (sub-add m.reserved_atomic r.amount_atomic))
              (rw (shape, spent_unconsumed r.mandate_id r (live-unconsumed r.status live))
                (add_nothing_right (m.consumed_atomic +ℤ spent r.mandate_id r')));
        filing =
            refiled identifier s (Dict.put s.mandates m.mandate_id m') k r r' l
              (λ j h. still_owned identifier s.mandates m.mandate_id j m' h) found em ei eh ea;
      }

  pub consumes-IsLedger :
      (s : Repository) (k tx : String) (now : Datetime) (r r' : PaymentReservation)
      (m m' : PaymentMandate)
      → IsLedger identifier s
      → Dict.get s.reservations k ≡ some r
      → is_live r.status ≡ true
      → r' ≡ record (consumed_form r tx now) { payee = lower r.payee }
      → Dict.get s.mandates r.mandate_id ≡ some m
      → with_accounting m
          (m.reserved_atomic -ℤ r.amount_atomic)
          (m.consumed_atomic +ℤ r.amount_atomic)
        ≡ ok m'
      → IsLedger identifier (record s {
        mandates = Dict.put s.mandates m.mandate_id m';
        reservations = Dict.put s.reservations k r';
      })
  consumes-IsLedger s k tx now r r' m m' l found live shape owner acc =
      let share : spent r.mandate_id r' ≡ r.amount_atomic =
        rw shape
          (spent_consumed (record (consumed_form r tx now) { payee = lower r.payee }) refl) in
      settle-IsLedger s k r r' m m' l found owner live (ap (λ x. is_live x.status) shape)
        (ap (λ x. x.mandate_id) shape) (ap (λ x. x.settlement_intent_id) shape)
        (ap (λ x. x.intent_hash) shape) (ap (λ x. x.amount_atomic) shape) (rw share acc)

  pub releases-IsLedger :
      (s : Repository) (k reason : String) (now : Datetime) (r r' : PaymentReservation)
      (m m' : PaymentMandate)
      → IsLedger identifier s
      → Dict.get s.reservations k ≡ some r
      → r.status ≡ ReservationStatus.reserved
      → r' ≡ record (released_form r reason now) { payee = lower r.payee }
      → Dict.get s.mandates r.mandate_id ≡ some m
      → with_accounting m (m.reserved_atomic -ℤ r.amount_atomic) m.consumed_atomic ≡ ok m'
      → IsLedger identifier (record s {
        mandates = Dict.put s.mandates m.mandate_id m';
        reservations = Dict.put s.reservations k r';
      })
  releases-IsLedger s k reason now r r' m m' l found st shape owner acc =
      let share : spent r.mandate_id r' ≡ pos 0 = rw shape (
        spent_unconsumed r.mandate_id
          (record (released_form r reason now) { payee = lower r.payee }) refl) in
      settle-IsLedger s k r r' m m' l found owner (ap is_live st) (ap (λ x. is_live x.status) shape)
        (ap (λ x. x.mandate_id) shape) (ap (λ x. x.settlement_intent_id) shape)
        (ap (λ x. x.intent_hash) shape) (ap (λ x. x.amount_atomic) shape)
        (rw (share, add_nothing_right m.consumed_atomic) acc)
