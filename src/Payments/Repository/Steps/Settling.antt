-- ===== src/Payments/Repository/Steps/Settling.antt =====
-- `consume_reservation`, `submit_reservation`, `release_reservation` and `revoke_mandate` take at
-- most one step, on every branch.
use adx_agentic_payment.Base.{
  String, ◌≡◌, refl, ap, ltb, ◌||◌, inl, inr, true, some, Bool-cases, Option-cases, Result-cases,
  ◌==◌, string_eq, option_eq, is_none,
}
use adx_agentic_payment.Base.Int.{◌+ℤ◌, ◌-ℤ◌}
use adx_agentic_payment.Base.Dict
use adx_agentic_payment.Base.Dict.{Dict}
use Prim.Native.String.{count}
use adx_agentic_payment.Payments.Models.{
  Datetime, is_empty, with_accounting, with_revocation, PaymentReservation, ReservationStatus,
  make_reservation,
}
use adx_agentic_payment.Payments.Repository.{
  Repository, consume_live, consume_by, submit_by, release_by, other_tx, consume_reservation,
  submit_reservation, release_reservation, revoke_mandate,
}
use adx_agentic_payment.Payments.Repository.Steps.{
  is_live, consumed_form, submitted_form, released_form, consumes, submits, releases, revokes,
  AtMostOne,
}

module _ (identifier : String → String → String → String) where
  consume_live-Step :
      (k tx : String) (r : PaymentReservation) (now : Datetime) (s : Repository)
      → Dict.get s.reservations k ≡ some r
      → is_live r.status ≡ true
      → AtMostOne identifier s (consume_live k r tx now s).1
  unfolding consume_live
  consume_live-Step k tx r now s found live =
      elim (Result-cases (make_reservation (consumed_form r tx now))) [
        | inr (x, e) ↦ rw e (inl refl)
        | inl (r', e) ↦ rw e (elim (Option-cases (Dict.get s.mandates r.mandate_id)) [
          | inl f ↦ rw f (inl refl)
          | inr (m, f) ↦
              rw f
                (elim (Result-cases (
                  with_accounting m (m.reserved_atomic -ℤ r.amount_atomic)
                    (m.consumed_atomic +ℤ r.amount_atomic))) [
                      | inr (x, g) ↦ rw g (inl refl)
                      | inl (m', g) ↦ rw g (inr (consumes k tx now r r' m m' found live e f g refl))
                    ])
        ])
      ]

  consume_by-Step :
      (st : ReservationStatus) (k tx : String) (r : PaymentReservation) (now : Datetime)
      (s : Repository)
      → Dict.get s.reservations k ≡ some r
      → r.status ≡ st
      → AtMostOne identifier s (consume_by st k r tx now s).1
  unfolding consume_by
  consume_by-Step ReservationStatus.consumed k tx r now s found e =
      elim (Bool-cases (other_tx r tx)) [ inl g ↦ rw g (inl refl) | inr g ↦ rw g (inl refl) ]
  consume_by-Step ReservationStatus.reserved k tx r now s found e =
      consume_live-Step k tx r now s found (ap is_live e)
  consume_by-Step ReservationStatus.submitted k tx r now s found e =
      consume_live-Step k tx r now s found (ap is_live e)
  consume_by-Step ReservationStatus.released k tx r now s found e = inl refl

  pub consume-Step :
      (k tx : String) (now : Datetime) (s : Repository)
      → AtMostOne identifier s (consume_reservation k tx now s).1
  unfolding consume_reservation
  consume-Step k tx now s = elim (Option-cases (Dict.get s.reservations k)) [
    | inl e ↦ rw e (inl refl)
    | inr (r, e) ↦ rw e (consume_by-Step r.status k tx r now s e refl)
  ]

  submit_by-Step :
      (st : ReservationStatus) (k tx : String) (r : PaymentReservation) (s : Repository)
      → Dict.get s.reservations k ≡ some r
      → r.status ≡ st
      → AtMostOne identifier s (submit_by st k r tx s).1
  unfolding submit_by
  submit_by-Step ReservationStatus.submitted k tx r s found e = elim (Bool-cases (other_tx r tx)) [
    | inl g ↦ rw g (inl refl)
    | inr g ↦ rw g (inl refl)
  ]
  submit_by-Step ReservationStatus.consumed k tx r s found e = elim (Bool-cases (other_tx r tx)) [
    | inl g ↦ rw g (inl refl)
    | inr g ↦ rw g (inl refl)
  ]
  submit_by-Step ReservationStatus.reserved k tx r s found e =
      elim (Result-cases (make_reservation (submitted_form r tx))) [
        | inr (x, g) ↦ rw g (inl refl)
        | inl (r', g) ↦ rw g (inr (submits k tx r r' found e g refl))
      ]
  submit_by-Step ReservationStatus.released k tx r s found e = inl refl

  pub submit-Step :
      (k tx : String) (now : Datetime) (s : Repository)
      → AtMostOne identifier s (submit_reservation k tx now s).1
  unfolding submit_reservation
  submit-Step k tx now s = elim (Option-cases (Dict.get s.reservations k)) [
    | inl e ↦ rw e (inl refl)
    | inr (r, e) ↦ rw e (submit_by-Step r.status k tx r s e refl)
  ]

  release_by-Step :
      (st : ReservationStatus) (k reason : String) (r : PaymentReservation) (now : Datetime)
      (s : Repository)
      → Dict.get s.reservations k ≡ some r
      → r.status ≡ st
      → AtMostOne identifier s (release_by st k r reason now s).1
  unfolding release_by
  release_by-Step ReservationStatus.released k reason r now s found e =
      elim (Bool-cases (r.release_reason == some reason)) [
        | inl g ↦ rw g (inl refl)
        | inr g ↦ rw g (inl refl)
      ]
  release_by-Step ReservationStatus.reserved k reason r now s found live =
      elim (Result-cases (make_reservation (released_form r reason now))) [
        | inr (x, e) ↦ rw e (inl refl)
        | inl (r', e) ↦ rw e (elim (Option-cases (Dict.get s.mandates r.mandate_id)) [
          | inl f ↦ rw f (inl refl)
          | inr (m, f) ↦
              rw f
                (elim (Result-cases
                  (with_accounting m (m.reserved_atomic -ℤ r.amount_atomic) m.consumed_atomic)) [
                    | inr (x, g) ↦ rw g (inl refl)
                    | inl (m', g) ↦
                        rw g (inr (releases k reason now r r' m m' found live e f g refl))
                  ])
        ])
      ]
  release_by-Step ReservationStatus.submitted k reason r now s found e = inl refl
  release_by-Step ReservationStatus.consumed k reason r now s found e = inl refl

  pub release-Step :
      (k reason : String) (now : Datetime) (s : Repository)
      → AtMostOne identifier s (release_reservation k reason now s).1
  unfolding release_reservation
  release-Step k reason now s = elim (Bool-cases (is_empty reason || ltb 100 (count reason))) [
    | inl bad ↦ rw bad (inl refl)
    | inr good ↦ rw good (elim (Option-cases (Dict.get s.reservations k)) [
      | inl e ↦ rw e (inl refl)
      | inr (r, e) ↦ rw e (release_by-Step r.status k reason r now s e refl)
    ])
  ]

  pub revoke-Step :
      (k user : String) (now : Datetime) (s : Repository)
      → AtMostOne identifier s (revoke_mandate k user now s).1
  unfolding revoke_mandate
  revoke-Step k user now s = elim (Option-cases (Dict.get s.mandates k)) [
    | inl e ↦ rw e (inl refl)
    | inr (m, e) ↦ rw e (elim (Bool-cases (m.user_id == user)) [
      | inr f ↦ rw f (inl refl)
      | inl f ↦ rw f (elim (Bool-cases (is_none m.revoked_at)) [
        | inr g ↦ rw g (inl refl)
        | inl g ↦ rw g (elim (Result-cases (with_revocation m now)) [
          | inr (x, h) ↦ rw h (inl refl)
          | inl (m', h) ↦ rw h (inr (revokes k now m m' e h refl))
        ])
      ])
    ])
  ]
