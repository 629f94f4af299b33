-- ===== src/Payments/Repository/Steps/Reserving.antt =====
-- `reserve_mandate` takes at most one step, on every branch.
use adx_agentic_payment.Base.{
  String, ◌≡◌, refl, inl, inr, none, Bool-cases, Option-cases, Result-cases, checks, checks-AllPass,
  string_eq, option_eq,
}
use adx_agentic_payment.Base.Int.{pos, ◌≤ℤ◌, ◌+ℤ◌}
use adx_agentic_payment.Base.Dict
use adx_agentic_payment.Base.Dict.{Dict}
use adx_agentic_payment.Payments.Models.{
  Datetime, with_accounting, SettlementTerms, make_reservation,
}
use adx_agentic_payment.Payments.Repository.{
  Repository, mandate_terms_guards, new_reservation, reserve_mandate, reserve_new, reserve_by,
  same_request,
}
use adx_agentic_payment.Payments.Repository.Steps.{reserves, AtMostOne}

module _ (identifier : String → String → String → String) where
  reserve_new-Step :
      (k : String) (t : SettlementTerms) (now : Datetime) (s : Repository)
      → pos 1 ≤ℤ t.amount_atomic
      → Dict.get s.reservations_by_intent t.settlement_intent_id ≡ none
      → AtMostOne identifier s (reserve_new identifier k t now s).1
  unfolding reserve_new
  reserve_new-Step k t now s amount fresh = elim (Option-cases (Dict.get s.mandates k)) [
    | inl e ↦ rw e (inl refl)
    | inr (m, e) ↦ rw e (elim (Result-cases (checks (mandate_terms_guards m t now))) [
      | inr (x, f) ↦ rw f (inl refl)
      | inl (u, f) ↦
          rw f (elim (Result-cases (make_reservation (new_reservation identifier k t now))) [
            | inr (x, g) ↦ rw g (inl refl)
            | inl (r, g) ↦
                rw g
                  (elim (Result-cases
                    (with_accounting m (m.reserved_atomic +ℤ t.amount_atomic) m.consumed_atomic)) [
                      | inr (x, h) ↦ rw h (inl refl)
                      | inl (m', h) ↦ rw h (
                          inr
                            (reserves k t now m m' r e fresh amount (checks-AllPass _ f) h g refl))
                    ])
          ])
    ])
  ]

  pub reserve-Step :
      (k : String) (t : SettlementTerms) (now : Datetime) (s : Repository)
      → pos 1 ≤ℤ t.amount_atomic
      → AtMostOne identifier s (reserve_mandate identifier k t now s).1
  unfolding reserve_mandate
  reserve-Step k t now s amount =
      elim (Option-cases (Dict.get s.reservations_by_intent t.settlement_intent_id)) [
        | inl e ↦ rw (e, reserve_by) (reserve_new-Step k t now s amount e)
        | inr (k', e) ↦
            rw (e, reserve_by)
              (elim (Option-cases (Dict.get s.reservations k')) [
                | inl f ↦ rw f (inl refl)
                | inr (r, f) ↦ rw f (elim (Bool-cases (same_request k t r)) [
                  | inl g ↦ rw g (inl refl)
                  | inr g ↦ rw g (inl refl)
                ])
              ])
      ]
