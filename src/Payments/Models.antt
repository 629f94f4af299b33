-- ===== src/Payments/Models.antt =====
-- arena_payments/models.py: the validated facts of a payment. A constructor of the source is a
-- function here: it runs the guards of `__post_init__` in their order and normalises addresses.
use adx_agentic_payment.Base.{
  ℕ, String, Bool, true, false, not, ◌||◌, Option, none, some, List, [], ◌∷◌, map, leb, ltb,
  if◌then◌else◌, is_nil, ◌==◌, string_eq, is_none, any, has_duplicates, Result, ok, checks,
  and_then,
}
use adx_agentic_payment.Base.Int.{ℤ, pos, ◌+ℤ◌, leb_ℤ, ltb_ℤ}
use adx_agentic_payment.Base.Text.{lower, prefixed_hex, sha256_text, starts_with}
use Prim.Native.String.{count}

-- The messages of the errors that the models and the repository raise; `type_error` and
-- `key_error` are Python's own.
pub data PaymentError : Type 0 where
  invalid_evm_address invalid_per_payment_limit invalid_cumulative_limit : PaymentError
  mandate_identifier_required invalid_chain_id invalid_allowed_payees : PaymentError
  invalid_dynamic_payee_rule invalid_mandate_window mandate_timezone_required : PaymentError
  invalid_mandate_accounting mandate_cumulative_limit type_error key_error : PaymentError
  invalid_transaction_hash invalid_reserved_payment invalid_submitted_payment : PaymentError
  invalid_consumed_payment invalid_released_payment mandate_conflict : PaymentError
  active_game_mandate_exists reservation_intent_conflict mandate_not_found : PaymentError
  reservation_tx_conflict reservation_not_consumable reservation_not_submittable : PaymentError
  invalid_release_reason reservation_release_conflict reservation_not_releasable : PaymentError
  reservation_not_found mandate_revoked mandate_not_yet_valid mandate_expired : PaymentError
  mandate_game_mismatch mandate_chain_mismatch mandate_token_mismatch : PaymentError
  settlement_identifier_required invalid_intent_hash payer_and_payee_must_differ : PaymentError
  invalid_token_config invalid_payment_amount invalid_token_eip712_domain : PaymentError
  invalid_resource_url : PaymentError
  mandate_payee_not_allowed mandate_per_payment_limit : PaymentError

-- A `datetime`: the instant that it stands for, and whether it carries a timezone.
pub record Datetime : Type 0 where
  pub instant : ℕ
  pub aware : Bool

-- Comparing an aware with a naive `datetime` raises `TypeError`.
abbrev pub incomparable : Datetime → Datetime → Bool
incomparable a b = if a.aware then not b.aware else b.aware

abbrev pub at_most : Datetime → Datetime → Bool
at_most a b = leb a.instant b.instant

abbrev pub earlier : Datetime → Datetime → Bool
earlier a b = ltb a.instant b.instant

-- `not text`.
abbrev pub is_empty : String → Bool
is_empty s = s == ""

-- `^0x[0-9a-fA-F]{40}$` and `^0x[0-9a-fA-F]{64}$`.
abbrev pub is_address : String → Bool
is_address s = prefixed_hex 40 s

abbrev pub is_tx_hash : String → Bool
is_tx_hash s = prefixed_hex 64 s

pub record MandateLimits : Type 0 where
  pub max_per_payment_atomic : ℤ
  pub max_cumulative_atomic : ℤ

unfoldable pub make_limits : MandateLimits → Result PaymentError MandateLimits
make_limits l =
    and_then
      (checks (
        (leb_ℤ l.max_per_payment_atomic (pos 0), invalid_per_payment_limit)
        ∷ (ltb_ℤ l.max_cumulative_atomic l.max_per_payment_atomic, invalid_cumulative_limit)
        ∷ []))
      (λ _. ok l)

pub record PaymentMandate : Type 0 where
  pub mandate_id : String
  pub user_id : String
  pub wallet_id : String
  pub game_id : String
  pub chain_id : ℤ
  pub token_address : String
  pub limits : MandateLimits
  pub allowed_payees : List String
  pub valid_from : Datetime
  pub expires_at : Datetime
  pub reserved_atomic : ℤ
  pub consumed_atomic : ℤ
  pub revoked_at : Option Datetime
  pub allowed_payee_rule : Option String
  pub join_authorization_id : Option String

abbrev pub missing_text : Option String → Bool
missing_text none = true
missing_text (some s) = is_empty s

-- The two branches on `allowed_payee_rule`, with the payees and the join authorization.
abbrev pub bad_static_payees : Option String → List String → Option String → Bool
bad_static_payees none payees join =
    is_nil payees || (has_duplicates (map lower payees) || not (is_none join))
bad_static_payees (some rule) payees join = false

abbrev pub bad_dynamic_rule : Option String → List String → Option String → Bool
bad_dynamic_rule none payees join = false
bad_dynamic_rule (some rule) payees join =
    if rule == "same_game_settlement_account"
    then not (is_nil payees) || missing_text join
    else true

abbrev pub mandate_guards : PaymentMandate → List (Bool × PaymentError)
mandate_guards m =
    (
      is_empty m.mandate_id || (is_empty m.user_id || (is_empty m.wallet_id || is_empty m.game_id)),
      mandate_identifier_required,
    )
    ∷ (leb_ℤ m.chain_id (pos 0), invalid_chain_id)
    ∷ (not (is_address m.token_address), invalid_evm_address)
    ∷ (any (λ a. not (is_address a)) m.allowed_payees, invalid_evm_address)
    ∷ (
      bad_static_payees m.allowed_payee_rule m.allowed_payees m.join_authorization_id,
      invalid_allowed_payees,
    )
    ∷ (
      bad_dynamic_rule m.allowed_payee_rule m.allowed_payees m.join_authorization_id,
      invalid_dynamic_payee_rule,
    )
    ∷ (incomparable m.expires_at m.valid_from, type_error)
    ∷ (at_most m.expires_at m.valid_from, invalid_mandate_window)
    ∷ (not m.valid_from.aware || not m.expires_at.aware, mandate_timezone_required)
    ∷ (
      ltb_ℤ m.reserved_atomic (pos 0) || ltb_ℤ m.consumed_atomic (pos 0),
      invalid_mandate_accounting,
    )
    ∷ (
      ltb_ℤ m.limits.max_cumulative_atomic (m.reserved_atomic +ℤ m.consumed_atomic),
      mandate_cumulative_limit,
    )
    ∷ []

abbrev pub normalize_mandate : PaymentMandate → PaymentMandate
normalize_mandate m = record m {
  token_address = lower m.token_address;
  allowed_payees = map lower m.allowed_payees;
}

unfoldable pub make_mandate : PaymentMandate → Result PaymentError PaymentMandate
make_mandate m = and_then (checks (mandate_guards m)) (λ _. ok (normalize_mandate m))

-- `with_accounting` and `replace(..., revoked_at=...)` build a new mandate, guards included.
unfoldable pub with_accounting : PaymentMandate → ℤ → ℤ → Result PaymentError PaymentMandate
unfolding make_mandate
with_accounting m reserved consumed =
    make_mandate (record m { reserved_atomic = reserved; consumed_atomic = consumed })

unfoldable pub with_revocation : PaymentMandate → Datetime → Result PaymentError PaymentMandate
unfolding make_mandate
with_revocation m now = make_mandate (record m { revoked_at = some now })

pub record SettlementTerms : Type 0 where
  pub settlement_intent_id : String
  pub intent_hash : String
  pub game_id : String
  pub payer : String
  pub payee : String
  pub chain_id : ℤ
  pub token_address : String
  pub token_symbol : String
  pub token_decimals : ℤ
  pub token_eip712_name : String
  pub token_eip712_version : String
  pub amount_atomic : ℤ
  pub resource_url : String

abbrev pub terms_guards : SettlementTerms → List (Bool × PaymentError)
terms_guards t =
    (is_empty t.settlement_intent_id || is_empty t.game_id, settlement_identifier_required)
    ∷ (not (sha256_text t.intent_hash), invalid_intent_hash)
    ∷ (not (is_address t.payer), invalid_evm_address)
    ∷ (not (is_address t.payee), invalid_evm_address)
    ∷ (not (is_address t.token_address), invalid_evm_address)
    ∷ (lower t.payer == lower t.payee, payer_and_payee_must_differ)
    ∷ (leb_ℤ t.chain_id (pos 0) || ltb_ℤ t.token_decimals (pos 0), invalid_token_config)
    ∷ (is_empty t.token_symbol || leb_ℤ t.amount_atomic (pos 0), invalid_payment_amount)
    ∷ (
      is_empty t.token_eip712_name
          || (ltb 128 (count t.token_eip712_name)
              || (is_empty t.token_eip712_version || ltb 32 (count t.token_eip712_version))),
      invalid_token_eip712_domain,
    )
    ∷ (
      not (starts_with t.resource_url "https://" || starts_with t.resource_url "http://localhost"),
      invalid_resource_url,
    )
    ∷ []

abbrev pub normalize_terms : SettlementTerms → SettlementTerms
normalize_terms t = record t {
  payer = lower t.payer;
  payee = lower t.payee;
  token_address = lower t.token_address;
}

unfoldable pub make_terms : SettlementTerms → Result PaymentError SettlementTerms
make_terms t = and_then (checks (terms_guards t)) (λ _. ok (normalize_terms t))

pub data ReservationStatus : Type 0 where
  reserved submitted consumed released : ReservationStatus

pub record PaymentReservation : Type 0 where
  pub reservation_id : String
  pub mandate_id : String
  pub settlement_intent_id : String
  pub intent_hash : String
  pub amount_atomic : ℤ
  pub payee : String
  pub status : ReservationStatus
  pub reserved_at : Datetime
  pub finalized_at : Option Datetime
  pub tx_hash : Option String
  pub release_reason : Option String

abbrev bad_tx_hash : Option String → Bool
bad_tx_hash none = false
bad_tx_hash (some tx) = not (is_tx_hash tx)

abbrev pub status_guard : ReservationStatus → PaymentReservation → Bool × PaymentError
status_guard reserved r = (
  not (is_none r.finalized_at) || (not (is_none r.tx_hash) || not (is_none r.release_reason)),
  invalid_reserved_payment,
)
status_guard submitted r = (
  not (is_none r.finalized_at) || (is_none r.tx_hash || not (is_none r.release_reason)),
  invalid_submitted_payment,
)
status_guard consumed r = (
  is_none r.finalized_at || (is_none r.tx_hash || not (is_none r.release_reason)),
  invalid_consumed_payment,
)
status_guard released r = (
  is_none r.finalized_at || (not (is_none r.tx_hash) || missing_text r.release_reason),
  invalid_released_payment,
)

abbrev pub reservation_guards : PaymentReservation → List (Bool × PaymentError)
reservation_guards r =
    (not (is_address r.payee), invalid_evm_address)
    ∷ (bad_tx_hash r.tx_hash, invalid_transaction_hash)
    ∷ status_guard r.status r
    ∷ []

unfoldable pub make_reservation : PaymentReservation → Result PaymentError PaymentReservation
make_reservation r =
    and_then (checks (reservation_guards r)) (λ _. ok (record r { payee = lower r.payee }))
