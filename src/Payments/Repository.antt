-- ===== src/Payments/Repository.antt =====
-- arena_payments/repository.py, class `InMemoryPaymentRepository`: mandates and reservations. Each
-- method is one action on the repository, as its lock makes it. A dict lookup by `[]` of a missing
-- key is `key_error`.
mod Validity
mod Steps
mod Accounts
mod Ledger
pub mod History
pub mod Finality
pub mod Exclusive
mod Tests
use adx_agentic_payment.Base.{
  String-discrete, ℕ, String, ◌≡◌, ◌≢◌, Bool, true, false, not, ◌&&◌, ◌||◌, Option, none, some,
  List, [], ◌∷◌, ltb, leb, if◌then◌else◌, Eq, ◌==◌, ==_iff, string_eq, option_eq, is_none, contains,
  any, Bool-cases, refuted, inl, inr, Result, ok, err, checks, and_then, Action, pure, raise, lift,
  gets, or_raise, modify, raise_if, ◌>>=◌, ◌>>◌,
}
use adx_agentic_payment.Base.Int.{ℤ, pos, ◌+ℤ◌, ◌-ℤ◌, leb_ℤ, ltb_ℤ, int_eq}
use adx_agentic_payment.Base.Dict
use adx_agentic_payment.Base.Dict.{Dict}
use adx_agentic_payment.Base.Text.{lower}
use adx_agentic_payment.Payments.Models.{
  PaymentError, key_error, type_error, mandate_conflict, active_game_mandate_exists,
  reservation_intent_conflict, mandate_not_found, mandate_cumulative_limit, reservation_tx_conflict,
  reservation_not_consumable, reservation_not_submittable, invalid_release_reason,
  reservation_release_conflict, reservation_not_releasable, reservation_not_found, mandate_revoked,
  mandate_not_yet_valid, mandate_expired, mandate_game_mismatch, mandate_chain_mismatch,
  mandate_token_mismatch, mandate_payee_not_allowed, mandate_per_payment_limit, Datetime,
  incomparable, at_most, earlier, is_empty, PaymentMandate, MandateLimits, make_mandate,
  with_accounting, with_revocation, SettlementTerms, PaymentReservation, ReservationStatus,
  make_reservation,
}
use Prim.Native.String.{count}
use native.Mathlib.Decide.{ℕ_discrete}

PaymentMandate-discrete : Discrete PaymentMandate
PaymentMandate-discrete = hlevel (ℕ_discrete, String-discrete)

pub record Repository : Type 0 where
  pub mandates : Dict String PaymentMandate
  pub reservations : Dict String PaymentReservation
  pub reservations_by_intent : Dict String String

abbrev pub new_repository : Repository
new_repository = record {
  mandates = Dict.empty;
  reservations = Dict.empty;
  reservations_by_intent = Dict.empty;
}

abbrev pub Call : Type 0 → Type 0
Call = Action Repository PaymentError

abbrev pub store_mandate : String → PaymentMandate → Call Unit
store_mandate k m = modify (λ s. record s { mandates = Dict.put s.mandates k m })

abbrev pub store_reservation : String → PaymentReservation → Call Unit
store_reservation k r = modify (λ s. record s { reservations = Dict.put s.reservations k r })

-- `self._reservation(reservation_id)`.
find_reservation : String → Call PaymentReservation
find_reservation k = do or_raise (← gets (λ s. Dict.get s.reservations k)) reservation_not_found

-- `self.mandates[mandate_id]`.
mandate_at : String → Call PaymentMandate
mandate_at k = do or_raise (← gets (λ s. Dict.get s.mandates k)) key_error

-- One step of the first loop of `create_mandate`: a live mandate of the same user and game that
-- has expired is revoked.
superseded : PaymentMandate → Datetime → PaymentMandate → Bool
superseded mandate observed_at value =
    (value.user_id == mandate.user_id)
    && ((value.game_id == mandate.game_id)
        && (is_none value.revoked_at
            && (at_most value.expires_at observed_at
                && not (value.mandate_id == mandate.mandate_id))))

revoke_expired : PaymentMandate → Datetime → List (String × PaymentMandate) → Call Unit
unfolding superseded
revoke_expired mandate observed_at [] = pure tt
revoke_expired mandate observed_at ((k, value) ∷ rest) =
    let here : Call Unit =
      if superseded mandate observed_at value
      then (do revoked ← lift (with_revocation value observed_at); store_mandate k revoked)
      else pure tt in
    here >> revoke_expired mandate observed_at rest

-- The test of the second loop.
pub rivals : PaymentMandate → PaymentMandate → Bool
rivals mandate value =
    (value.user_id == mandate.user_id)
    && ((value.game_id == mandate.game_id)
        && (is_none value.revoked_at && not (value.mandate_id == mandate.mandate_id)))

abbrev differs : Option PaymentMandate → PaymentMandate → Bool
differs none mandate = false
differs (some current) mandate = refuted (PaymentMandate-discrete current mandate)

-- The second loop and the assignment.
create_end : PaymentMandate → Call PaymentMandate
unfolding rivals
create_end mandate = do
  others ← gets (λ s. Dict.values s.mandates)
  raise_if (any (rivals mandate) others) active_game_mandate_exists
  store_mandate mandate.mandate_id mandate
  pure mandate

pub create_mandate : PaymentMandate → Datetime → Call PaymentMandate
unfolding revoke_expired create_end PaymentMandate-discrete
create_mandate mandate observed_at = do
  current ← gets (λ s. Dict.get s.mandates mandate.mandate_id)
  raise_if (differs current mandate) mandate_conflict
  items ← gets (λ s. s.mandates.entries)
  revoke_expired mandate observed_at items
  create_end mandate

-- The comparisons of the loop are made in turn, each when those before it have passed.
first_active :
    String → String → Datetime → List PaymentMandate → Result PaymentError (Option PaymentMandate)
first_active user game now [] = ok none
first_active user game now (m ∷ rest) =
    let later = first_active user game now rest in
    if not ((m.user_id == user) && ((m.game_id == game) && is_none m.revoked_at))
    then later
    else if incomparable now m.valid_from
    then err type_error
    else if earlier now m.valid_from
    then later
    else if incomparable now m.expires_at
    then err type_error
    else if earlier now m.expires_at
    then ok (some m)
    else later

pub active_mandate : String → String → Datetime → Call (Option PaymentMandate)
unfolding first_active
active_mandate user game now = do
  lift (← gets (λ s. first_active user game now (Dict.values s.mandates)))

-- `_validate_mandate`.
abbrev pub mandate_terms_guards :
    PaymentMandate → SettlementTerms → Datetime → List (Bool × PaymentError)
mandate_terms_guards m t now =
    (not (is_none m.revoked_at), mandate_revoked)
    ∷ (incomparable now m.valid_from, type_error)
    ∷ (earlier now m.valid_from, mandate_not_yet_valid)
    ∷ (incomparable now m.expires_at, type_error)
    ∷ (at_most m.expires_at now, mandate_expired)
    ∷ (not (m.game_id == t.game_id), mandate_game_mismatch)
    ∷ (not (m.chain_id == t.chain_id), mandate_chain_mismatch)
    ∷ (not (m.token_address == t.token_address), mandate_token_mismatch)
    ∷ (not (contains m.allowed_payees t.payee), mandate_payee_not_allowed)
    ∷ (ltb_ℤ m.limits.max_per_payment_atomic t.amount_atomic, mandate_per_payment_limit)
    ∷ (
      ltb_ℤ m.limits.max_cumulative_atomic
          (m.reserved_atomic +ℤ m.consumed_atomic +ℤ t.amount_atomic),
      mandate_cumulative_limit,
    )
    ∷ []

-- The conflict test on a reservation that the intent already has.
abbrev pub same_request : String → SettlementTerms → PaymentReservation → Bool
same_request mandate_id t existing =
    (existing.mandate_id == mandate_id)
    && ((existing.intent_hash == t.intent_hash)
        && ((existing.amount_atomic == t.amount_atomic) && (existing.payee == t.payee)))

-- `identifier m i h` is the SHA-256 identifier of the fields of a reservation: the digest is a
-- parameter.
module _ (identifier : String → String → String → String) where
  abbrev pub new_reservation : String → SettlementTerms → Datetime → PaymentReservation
  new_reservation mandate_id t now = record {
    reservation_id = identifier mandate_id t.settlement_intent_id t.intent_hash;
    mandate_id = mandate_id;
    settlement_intent_id = t.settlement_intent_id;
    intent_hash = t.intent_hash;
    amount_atomic = t.amount_atomic;
    payee = t.payee;
    status = ReservationStatus.reserved;
    reserved_at = now;
    finalized_at = none;
    tx_hash = none;
    release_reason = none;
  }

  reserve_new : String → SettlementTerms → Datetime → Call PaymentReservation
  reserve_new mandate_id t now = do
    mandate ← or_raise (← gets (λ s. Dict.get s.mandates mandate_id)) mandate_not_found
    lift (checks (mandate_terms_guards mandate t now))
    reservation ← lift (make_reservation (new_reservation mandate_id t now))
    updated ← lift (
        with_accounting mandate (mandate.reserved_atomic +ℤ t.amount_atomic)
          mandate.consumed_atomic)
    store_mandate mandate_id updated
    store_reservation reservation.reservation_id reservation
    modify (λ s. record s {
      reservations_by_intent =
          Dict.put s.reservations_by_intent t.settlement_intent_id reservation.reservation_id;
    })
    pure reservation

  reserve_again : String → String → SettlementTerms → Call PaymentReservation
  reserve_again existing_id mandate_id t = do
    existing ← or_raise (← gets (λ s. Dict.get s.reservations existing_id)) key_error
    raise_if (not (same_request mandate_id t existing)) reservation_intent_conflict
    pure existing

  abbrev reserve_by : Option String → String → SettlementTerms → Datetime → Call PaymentReservation
  reserve_by none mandate_id t now = reserve_new mandate_id t now
  reserve_by (some existing_id) mandate_id t now = reserve_again existing_id mandate_id t

  pub reserve_mandate : String → SettlementTerms → Datetime → Call PaymentReservation
  unfolding reserve_new reserve_again
  reserve_mandate mandate_id t now s =
      reserve_by (Dict.get s.reservations_by_intent t.settlement_intent_id) mandate_id t now s

-- `reservation.tx_hash != tx_hash.lower()`.
abbrev pub other_tx : PaymentReservation → String → Bool
other_tx r tx_hash = not (r.tx_hash == some (lower tx_hash))

-- The end of `consume_reservation`, for a reservation that is reserved or submitted.
consume_live : String → PaymentReservation → String → Datetime → Call PaymentReservation
unfolding mandate_at
consume_live reservation_id r tx_hash now = do
  consumed ← lift (
      make_reservation (record r {
        status = ReservationStatus.consumed;
        finalized_at = some now;
        tx_hash = some (lower tx_hash);
      }))
  mandate ← mandate_at r.mandate_id
  updated ← lift (
      with_accounting mandate (mandate.reserved_atomic -ℤ r.amount_atomic)
        (mandate.consumed_atomic +ℤ r.amount_atomic))
  store_mandate mandate.mandate_id updated
  store_reservation reservation_id consumed
  pure consumed

consume_by :
    ReservationStatus → String → PaymentReservation → String → Datetime → Call PaymentReservation
unfolding consume_live
consume_by ReservationStatus.consumed k r tx now = do
  raise_if (other_tx r tx) reservation_tx_conflict
  pure r
consume_by ReservationStatus.reserved k r tx now = consume_live k r tx now
consume_by ReservationStatus.submitted k r tx now = consume_live k r tx now
consume_by ReservationStatus.released k r tx now = raise reservation_not_consumable

pub consume_reservation : String → String → Datetime → Call PaymentReservation
unfolding find_reservation consume_by
consume_reservation k tx now = do r ← find_reservation k; consume_by r.status k r tx now

submit_by : ReservationStatus → String → PaymentReservation → String → Call PaymentReservation
submit_by ReservationStatus.submitted k r tx = do
  raise_if (other_tx r tx) reservation_tx_conflict
  pure r
submit_by ReservationStatus.consumed k r tx = do
  raise_if (other_tx r tx) reservation_tx_conflict
  pure r
submit_by ReservationStatus.reserved k r tx = do
  submitted ← lift (
      make_reservation
        (record r { status = ReservationStatus.submitted; tx_hash = some (lower tx) }))
  store_reservation k submitted
  pure submitted
submit_by ReservationStatus.released k r tx = raise reservation_not_submittable

pub submit_reservation : String → String → Datetime → Call PaymentReservation
unfolding find_reservation submit_by
submit_reservation k tx now = do r ← find_reservation k; submit_by r.status k r tx

release_by :
    ReservationStatus → String → PaymentReservation → String → Datetime → Call PaymentReservation
unfolding mandate_at
release_by ReservationStatus.released k r reason now = do
  raise_if (not (r.release_reason == some reason)) reservation_release_conflict
  pure r
release_by ReservationStatus.reserved k r reason now = do
  released ← lift (
      make_reservation (record r {
        status = ReservationStatus.released;
        finalized_at = some now;
        release_reason = some reason;
      }))
  mandate ← mandate_at r.mandate_id
  updated ←
      lift (
        with_accounting mandate (mandate.reserved_atomic -ℤ r.amount_atomic)
          mandate.consumed_atomic)
  store_mandate mandate.mandate_id updated
  store_reservation k released
  pure released
release_by ReservationStatus.submitted k r reason now = raise reservation_not_releasable
release_by ReservationStatus.consumed k r reason now = raise reservation_not_releasable

pub release_reservation : String → String → Datetime → Call PaymentReservation
unfolding find_reservation release_by
release_reservation k reason now = do
  raise_if (is_empty reason || ltb 100 (count reason)) invalid_release_reason
  r ← find_reservation k
  release_by r.status k r reason now

pub revoke_mandate : String → String → Datetime → Call PaymentMandate
revoke_mandate k user now = do
  mandate ← or_raise (← gets (λ s. Dict.get s.mandates k)) mandate_not_found
  raise_if (not (mandate.user_id == user)) mandate_not_found
  if is_none mandate.revoked_at
      then (do revoked ← lift (with_revocation mandate now); store_mandate k revoked; pure revoked)
      else pure mandate
