-- ===== src/Payments/Repository/Ledger.antt =====
-- The invariant of the repository: dicts without repeated keys, figures that are the sums of the
-- reservations, and reservations that are filed under their digest and found from their intent.
pub mod Stored
pub mod Settled
pub mod Reserved
pub mod Kept
use mathlib.Core.Path.{subst, subst₂}
use adx_agentic_payment.Base.{
  ℕ, String, ◌≡◌, ◌≢◌, refl, ap, sym, ◌∙◌, ◌⊎◌, inl, inr, Bool, true, false, Option, none, some,
  List, [], ◌∷◌, arith, Result, ok, AllPass, built, ◌==◌, string_eq, ==_refl, ==_false,
  Option-cases, All, All-imp, if◌then◌else◌,
}
use adx_agentic_payment.Base.Int.{
  ℤ, pos, ◌+ℤ◌, ◌-ℤ◌, ◌≤ℤ◌, +ℤ_parts, -ℤ_parts, eq_of_parts, sub-add, add_nothing_right,
}
use adx_agentic_payment.Base.Dict
use adx_agentic_payment.Base.Dict.{Dict}
use adx_agentic_payment.Base.Text.{lower}
use adx_agentic_payment.Payments.Models.{
  Datetime, PaymentMandate, with_accounting, with_revocation, SettlementTerms, PaymentReservation,
  ReservationStatus, make_reservation, reservation_guards,
}
use adx_agentic_payment.Payments.Repository.{Repository, new_reservation}
use adx_agentic_payment.Payments.Repository.Validity.{
  Validated, account, revoke, with_accounting-ok, with_revocation-ok,
}
use adx_agentic_payment.Payments.Repository.Steps.{
  is_live, consumed_form, submitted_form, released_form, Step, reserves, consumes, submits,
  releases, revokes, opens, IsFresh,
}
use adx_agentic_payment.Payments.Repository.Accounts.{
  held, spent, held_live, held_dead, spent_consumed, spent_unconsumed, live-unconsumed, held_other,
  spent_other, submitted_held, submitted_spent, MandateOk, AccountsOk, same_shares,
  exchange-AccountsOk, add-AccountsOk, store-AccountsOk,
}

pub make_reservation-ok :
    (r : PaymentReservation) {r' : PaymentReservation}
    → make_reservation r ≡ ok r'
    → r' ≡ record r { payee = lower r.payee }
unfolding make_reservation
make_reservation-ok r h =
    sym (built (reservation_guards r) (record r { payee = lower r.payee }) h).1

module _ (identifier : String → String → String → String) where
  -- A stored reservation: filed under the digest of its fields, found from its intent, of a
  -- positive amount and on a stored mandate.
  pub record ReservationOk (s : Repository) (k : String) (r : PaymentReservation) : Type 0 where
    pub filed : k ≡ identifier r.mandate_id r.settlement_intent_id r.intent_hash
    pub indexed : Dict.get s.reservations_by_intent r.settlement_intent_id ≡ some k
    pub positive : pos 1 ≤ℤ r.amount_atomic
    pub owned : Dict.get s.mandates r.mandate_id ≢ none

  pub record IsLedger (s : Repository) : Type 0 where
    pub distinct : Dict.IsDistinct s.mandates
    pub distinct_reservations : Dict.IsDistinct s.reservations
    pub accounts : AccountsOk s.mandates s.reservations
    pub filing :
        (k : String) (r : PaymentReservation)
        → Dict.get s.reservations k ≡ some r
        → ReservationOk s k r

  -- A stored mandate stays stored.
  pub still_owned :
      (ms : Dict String PaymentMandate) (k j : String) (m : PaymentMandate)
      → Dict.get ms j ≢ none
      → Dict.get (Dict.put ms k m) j ≢ none
  still_owned ms k j m h e = h (go (k == j) refl)
    where
      go : (b : Bool) → (k == j) ≡ b → Dict.get ms j ≡ none
      go true t = cc (rw (Dict.get-put ms k j m, t) at e)
      go false f = rw (Dict.get-put ms k j m, f) at e

  -- The filing after a reservation was replaced by one with the same fields.
  pub refiled :
      (s : Repository) (ms : Dict String PaymentMandate) (k : String) (r r' : PaymentReservation)
      → IsLedger s
      → ((j : String) → Dict.get s.mandates j ≢ none → Dict.get ms j ≢ none)
      → Dict.get s.reservations k ≡ some r
      → r'.mandate_id ≡ r.mandate_id
      → r'.settlement_intent_id ≡ r.settlement_intent_id
      → r'.intent_hash ≡ r.intent_hash
      → r'.amount_atomic ≡ r.amount_atomic
      → let s' : Repository = record s {
        mandates = ms;
        reservations = Dict.put s.reservations k r';
      } in
        (j : String) (q : PaymentReservation)
        → Dict.get s'.reservations j ≡ some q
        → ReservationOk s' j q
  refiled s ms k r r' l keeps found em ei eh ea j q h =
      let s' : Repository = record s {
        mandates = ms;
        reservations = Dict.put s.reservations k r';
      } in
      elim (Dict.get-put_cases s.reservations k j r' q h) [
        | inl (e, f) ↦
            let o = l.filing k r found in
            subst₂ (λ x y. ReservationOk s' x y) e f
              (record {
                filed = rw (em, ei, eh) o.filed;
                indexed = rw ei o.indexed;
                positive = rw ea o.positive;
                owned = keeps r'.mandate_id (rw em o.owned);
              })
        | inr (e, f) ↦
            let o = l.filing j q f in
            record {
              filed = o.filed;
              indexed = o.indexed;
              positive = o.positive;
              owned = keeps q.mandate_id o.owned;
            }
      ]
