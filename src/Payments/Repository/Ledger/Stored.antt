-- ===== src/Payments/Repository/Ledger/Stored.antt =====
-- Storing a mandate keeps the invariant: one that was revoked, and one that is new.
use adx_agentic_payment.Base.{
  String, ◌≡◌, refl, ap, sym, ◌∙◌, ◌⊎◌, inl, inr, false, none, some, ok, ◌==◌, string_eq, ==_false,
  All, All-imp,
}
use adx_agentic_payment.Base.Dict
use adx_agentic_payment.Base.Dict.{Dict}
use adx_agentic_payment.Payments.Models.{Datetime, PaymentMandate, with_revocation}
use adx_agentic_payment.Payments.Repository.{Repository}
use adx_agentic_payment.Payments.Repository.Validity.{with_revocation-ok}
use adx_agentic_payment.Payments.Repository.Steps.{IsFresh}
use adx_agentic_payment.Payments.Repository.Accounts.{
  held, spent, held_other, spent_other, MandateOk, store-AccountsOk,
}
use adx_agentic_payment.Payments.Repository.Ledger.{IsLedger, still_owned}

module _ (identifier : String → String → String → String) where
  -- A mandate is stored beside the reservations.
  pub store-IsLedger :
      (s : Repository) (k : String) (m : PaymentMandate)
      → IsLedger identifier s
      → MandateOk s.reservations k m
      → IsLedger identifier (record s { mandates = Dict.put s.mandates k m })
  store-IsLedger s k m l o = record {
    distinct = Dict.put-IsDistinct s.mandates k m l.distinct;
    distinct_reservations = l.distinct_reservations;
    accounts = store-AccountsOk s.mandates s.reservations k m l.accounts o;
    filing = λ j q h.
        let f = l.filing j q h in
        record {
          filed = f.filed;
          indexed = f.indexed;
          positive = f.positive;
          owned = still_owned identifier s.mandates k q.mandate_id m f.owned;
        };
  }

  pub revokes-MandateOk :
      (s : Repository) (k : String) (now : Datetime) (m m' : PaymentMandate)
      → MandateOk s.reservations k m
      → with_revocation m now ≡ ok m'
      → MandateOk s.reservations k m'
  revokes-MandateOk s k now m m' o rev =
      let (valid, shape) = with_revocation-ok m now o.valid rev in
      record {
        named = ap (λ x. x.mandate_id) shape ∙ o.named;
        valid = valid;
        reserved_sum = ap (λ x. x.reserved_atomic) shape ∙ o.reserved_sum;
        consumed_sum = ap (λ x. x.consumed_atomic) shape ∙ o.consumed_sum;
      }

  -- No reservation is on a mandate that is not stored.
  unowned :
      (s : Repository) (k : String)
      → IsLedger identifier s
      → Dict.get s.mandates k ≡ none
      → All (λ r. (r.mandate_id == k) ≡ false) (Dict.values s.reservations)
  unowned s k l absent =
      Dict.values-All (λ r. (r.mandate_id == k) ≡ false) s.reservations l.distinct_reservations
        (λ j r h. ==_false r.mandate_id k (λ e. (l.filing j r h).owned (rw e absent)))

  pub opens-MandateOk :
      (s : Repository) (m : PaymentMandate)
      → IsLedger identifier s
      → IsFresh m
      → (Dict.get s.mandates m.mandate_id ≡ none) ⊎ (Dict.get s.mandates m.mandate_id ≡ some m)
      → MandateOk s.reservations m.mandate_id m
  opens-MandateOk s m l fm (inr present) = l.accounts m.mandate_id m present
  opens-MandateOk s m l fm (inl absent) =
      let alone = unowned s m.mandate_id l absent in
      record {
        named = refl;
        valid = fm.0;
        reserved_sum =
            fm.1
            ∙ sym (
                Dict.sum_by_zero (held m.mandate_id) s.reservations (
                  All-imp (λ r h. held_other m.mandate_id r h) (Dict.values s.reservations) alone));
        consumed_sum =
            fm.2
            ∙ sym (
                Dict.sum_by_zero (spent m.mandate_id) s.reservations (
                  All-imp (λ r h. spent_other m.mandate_id r h) (Dict.values s.reservations)
                    alone));
      }
