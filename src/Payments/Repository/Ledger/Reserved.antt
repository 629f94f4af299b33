-- ===== src/Payments/Repository/Ledger/Reserved.antt =====
-- Making a reservation keeps the invariant, given that digests of different intents differ.
use mathlib.Core.Path.{subst₂}
use adx_agentic_payment.Base.{
  String, ◌≡◌, ◌≢◌, refl, ap, sym, ◌∙◌, inl, inr, none, some, ok, string_eq, ==_refl, ==_false,
  Option-cases,
}
use adx_agentic_payment.Base.Int.{pos, ◌+ℤ◌, ◌≤ℤ◌, add_nothing_right}
use adx_agentic_payment.Base.Dict
use adx_agentic_payment.Base.Dict.{Dict}
use adx_agentic_payment.Base.Text.{lower}
use adx_agentic_payment.Payments.Models.{
  Datetime, PaymentMandate, with_accounting, SettlementTerms, PaymentReservation,
}
use adx_agentic_payment.Payments.Repository.{Repository, new_reservation}
use adx_agentic_payment.Payments.Repository.Validity.{with_accounting-ok}
use adx_agentic_payment.Payments.Repository.Accounts.{held_live, spent_unconsumed, add-AccountsOk}
use adx_agentic_payment.Payments.Repository.Ledger.{ReservationOk, IsLedger, still_owned}

module _ (identifier : String → String → String → String) where
  -- A reservation that is stored under another digest has another intent.
  module _
      (identifier_injective : (m i h m' i' h' : String)
        → identifier m i h ≡ identifier m' i' h'
        → i ≡ i') where
    -- The digest of an intent that is not indexed is not in use.
    pub unused :
        (s : Repository) (k i h : String)
        → IsLedger identifier s
        → Dict.get s.reservations_by_intent i ≡ none
        → Dict.get s.reservations (identifier k i h) ≡ none
    unused s k i h l fresh = elim (Option-cases (Dict.get s.reservations (identifier k i h))) [
      | inl e ↦ e
      | inr (q, e) ↦
          let o = l.filing (identifier k i h) q e in
          let same =
            identifier_injective k i h q.mandate_id q.settlement_intent_id q.intent_hash o.filed in
          cc (fresh, same, o.indexed)
    ]

    -- The reservation as it is stored.
    abbrev pub stored : String → SettlementTerms → Datetime → PaymentReservation
    stored k t now = record (new_reservation identifier k t now) { payee = lower t.payee }

    abbrev pub reserved_state :
        Repository → String → SettlementTerms → PaymentMandate → PaymentReservation → Repository
    reserved_state s k t m' r = record {
      mandates = Dict.put s.mandates k m';
      reservations = Dict.put s.reservations r.reservation_id r;
      reservations_by_intent =
          Dict.put s.reservations_by_intent t.settlement_intent_id r.reservation_id;
    }

    reserve_filing :
        (s : Repository) (k : String) (t : SettlementTerms) (now : Datetime) (m' : PaymentMandate)
        → IsLedger identifier s
        → Dict.get s.reservations_by_intent t.settlement_intent_id ≡ none
        → Dict.get s.mandates k ≢ none
        → pos 1 ≤ℤ t.amount_atomic
        → (j : String) (q : PaymentReservation)
        → Dict.get (reserved_state s k t m' (stored k t now)).reservations j ≡ some q
        → ReservationOk identifier (reserved_state s k t m' (stored k t now)) j q
    reserve_filing s k t now m' l fresh owned amount j q h =
        let new = stored k t now in
        elim (Dict.get-put_cases s.reservations new.reservation_id j new q h) [
          | inl (e, f) ↦
              subst₂ (λ x y. ReservationOk identifier (reserved_state s k t m' new) x y) e f
                (record {
                  filed = refl;
                  indexed =
                      Dict.get-put s.reservations_by_intent t.settlement_intent_id
                        t.settlement_intent_id new.reservation_id
                      ∙ rw (==_refl t.settlement_intent_id) refl;
                  positive = amount;
                  owned = still_owned identifier s.mandates k k m' owned;
                })
          | inr (e, f) ↦
              let o = l.filing j q f in
              record {
                filed = o.filed;
                indexed =
                    Dict.get-put s.reservations_by_intent t.settlement_intent_id
                      q.settlement_intent_id new.reservation_id
                    ∙ rw
                        (==_false t.settlement_intent_id q.settlement_intent_id
                          (λ p. cc (rw p at fresh, o.indexed)))
                        o.indexed;
                positive = o.positive;
                owned = still_owned identifier s.mandates k q.mandate_id m' o.owned;
              }
        ]

    pub reserves-IsLedger :
        (s : Repository) (k : String) (t : SettlementTerms) (now : Datetime) (m m' : PaymentMandate)
        → IsLedger identifier s
        → Dict.get s.mandates k ≡ some m
        → Dict.get s.reservations_by_intent t.settlement_intent_id ≡ none
        → pos 1 ≤ℤ t.amount_atomic
        → with_accounting m (m.reserved_atomic +ℤ t.amount_atomic) m.consumed_atomic ≡ ok m'
        → IsLedger identifier (reserved_state s k t m' (stored k t now))
    reserves-IsLedger s k t now m m' l em fresh amount acc =
        let (valid, shape) = with_accounting-ok m _ _ (l.accounts k m em).valid acc in
        let new = stored k t now in
        record {
          distinct = Dict.put-IsDistinct s.mandates k m' l.distinct;
          distinct_reservations =
              Dict.put-IsDistinct s.reservations new.reservation_id new l.distinct_reservations;
          accounts =
              add-AccountsOk s.mandates s.reservations new.reservation_id new m m' l.accounts
                (unused s k t.settlement_intent_id t.intent_hash l fresh) em
                (ap (λ x. x.mandate_id) shape) valid (rw (shape, held_live new refl) refl)
                (rw (shape, spent_unconsumed k new refl)
                  (sym (add_nothing_right m.consumed_atomic)));
          filing = reserve_filing s k t now m' l fresh (λ p. cc (p, em)) amount;
        }
