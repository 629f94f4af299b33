-- ===== src/Payments/Repository/Steps.antt =====
-- The repository as a state machine. A method call, whatever its outcome, moves the repository
-- along these steps: a reservation is made, submitted, consumed or released, a mandate is revoked
-- or stored. The guards that a call has passed are
-- the premises of its step.
pub mod Reserving
pub mod Settling
pub mod Creating
use adx_agentic_payment.Base.{
  ℕ, String, ◌≡◌, refl, ap, sym, ◌∙◌, All, ==_sym, ltb, ◌||◌, ◌⊎◌, inl, inr, Bool, true, false, not,
  Option, none, some, List, [], ◌∷◌, any, Result, ok, err, AllPass, Bool-cases, refuted_false,
  arith, resume, Option-cases, Result-cases, checks, checks-AllPass, ◌==◌, string_eq, option_eq,
  is_none, if◌then◌else◌,
}
use adx_agentic_payment.Base.Int.{ℤ, pos, ◌≤ℤ◌, ◌+ℤ◌, ◌-ℤ◌}
use adx_agentic_payment.Base.Dict
use adx_agentic_payment.Base.Dict.{Dict}
use Prim.Native.String.{count}
use mathlib.Core.Path.{subst}
use adx_agentic_payment.Base.Text.{lower}
use adx_agentic_payment.Payments.Models.{
  PaymentError, Datetime, is_empty, PaymentMandate, with_accounting, with_revocation,
  SettlementTerms, PaymentReservation, ReservationStatus, make_reservation,
}
use adx_agentic_payment.Payments.Repository.Validity.{Validated}
use adx_agentic_payment.Payments.Repository.{
  Repository, mandate_terms_guards, new_reservation, reserve_mandate, reserve_new, reserve_again,
  reserve_by, consume_live, consume_by, submit_by, release_by, other_tx, superseded, differs,
  PaymentMandate-discrete, create_end, consume_reservation, submit_reservation, release_reservation,
  revoke_mandate, create_mandate, revoke_expired, rivals, same_request,
}

abbrev pub is_live : ReservationStatus → Bool
is_live ReservationStatus.reserved = true
is_live ReservationStatus.submitted = true
is_live _ = false

abbrev pub consumed_form : PaymentReservation → String → Datetime → PaymentReservation
consumed_form r tx now = record r {
  status = ReservationStatus.consumed;
  finalized_at = some now;
  tx_hash = some (lower tx);
}

abbrev pub submitted_form : PaymentReservation → String → PaymentReservation
submitted_form r tx = record r { status = ReservationStatus.submitted; tx_hash = some (lower tx) }

abbrev pub released_form : PaymentReservation → String → Datetime → PaymentReservation
released_form r reason now = record r {
  status = ReservationStatus.released;
  finalized_at = some now;
  release_reason = some reason;
}

-- A mandate as a caller makes it: validated, and with nothing reserved or consumed.
abbrev pub IsFresh : PaymentMandate → Type 0
IsFresh m = Validated m × (m.reserved_atomic ≡ pos 0) × (m.consumed_atomic ≡ pos 0)

module _ (identifier : String → String → String → String) where
  pub data Step (s s' : Repository) : Type 0 where
    reserves :
        (k : String) (t : SettlementTerms) (now : Datetime) (m m' : PaymentMandate)
        (r : PaymentReservation)
        → Dict.get s.mandates k ≡ some m
        → Dict.get s.reservations_by_intent t.settlement_intent_id ≡ none
        → pos 1 ≤ℤ t.amount_atomic
        → AllPass (mandate_terms_guards m t now)
        → with_accounting m (m.reserved_atomic +ℤ t.amount_atomic) m.consumed_atomic ≡ ok m'
        → make_reservation (new_reservation identifier k t now) ≡ ok r
        → s' ≡ record {
          mandates = Dict.put s.mandates k m';
          reservations = Dict.put s.reservations r.reservation_id r;
          reservations_by_intent =
              Dict.put s.reservations_by_intent t.settlement_intent_id r.reservation_id;
        }
        → Step s s'
    consumes :
        (k tx : String) (now : Datetime) (r r' : PaymentReservation) (m m' : PaymentMandate)
        → Dict.get s.reservations k ≡ some r
        → is_live r.status ≡ true
        → make_reservation (consumed_form r tx now) ≡ ok r'
        → Dict.get s.mandates r.mandate_id ≡ some m
        → with_accounting m
            (m.reserved_atomic -ℤ r.amount_atomic)
            (m.consumed_atomic +ℤ r.amount_atomic)
          ≡ ok m'
        → s' ≡ record s {
          mandates = Dict.put s.mandates m.mandate_id m';
          reservations = Dict.put s.reservations k r';
        }
        → Step s s'
    submits :
        (k tx : String) (r r' : PaymentReservation)
        → Dict.get s.reservations k ≡ some r
        → r.status ≡ ReservationStatus.reserved
        → make_reservation (submitted_form r tx) ≡ ok r'
        → s' ≡ record s { reservations = Dict.put s.reservations k r' }
        → Step s s'
    releases :
        (k reason : String) (now : Datetime) (r r' : PaymentReservation) (m m' : PaymentMandate)
        → Dict.get s.reservations k ≡ some r
        → r.status ≡ ReservationStatus.reserved
        → make_reservation (released_form r reason now) ≡ ok r'
        → Dict.get s.mandates r.mandate_id ≡ some m
        → with_accounting m (m.reserved_atomic -ℤ r.amount_atomic) m.consumed_atomic ≡ ok m'
        → s' ≡ record s {
          mandates = Dict.put s.mandates m.mandate_id m';
          reservations = Dict.put s.reservations k r';
        }
        → Step s s'
    revokes :
        (k : String) (now : Datetime) (m m' : PaymentMandate)
        → Dict.get s.mandates k ≡ some m
        → with_revocation m now ≡ ok m'
        → s' ≡ record s { mandates = Dict.put s.mandates k m' }
        → Step s s'
    opens :
        (m : PaymentMandate)
        → IsFresh m
        → (Dict.get s.mandates m.mandate_id ≡ none) ⊎ (Dict.get s.mandates m.mandate_id ≡ some m)
        → any (rivals m) (Dict.values s.mandates) ≡ false
        → s' ≡ record s { mandates = Dict.put s.mandates m.mandate_id m }
        → Step s s'

  -- No step, or one.
  abbrev pub AtMostOne : Repository → Repository → Type 0
  AtMostOne s s' = (s' ≡ s) ⊎ Step s s'

  -- Any number of steps.
  pub data Reach (s : Repository) : Repository → Type 0 where
    here : Reach s s
    next : {u v : Repository} → Reach s u → Step u v → Reach s v

  pub Reach-AtMostOne : {s u v : Repository} → Reach s u → AtMostOne u v → Reach s v
  Reach-AtMostOne r (inl e) = subst (Reach _) (sym e) r
  Reach-AtMostOne r (inr st) = next r st

  pub Reach-trans : {s u v : Repository} → Reach s u → Reach u v → Reach s v
  Reach-trans r here = r
  Reach-trans r (next q st) = next (Reach-trans r q) st
