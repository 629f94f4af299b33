-- ===== src/Game/Settlement.antt =====
-- arena_game/settlement.py: the frozen terms of a settlement and the check of the chain's evidence
-- against them. Addresses and hashes are kept in lower case, as the constructors write them. The wire
-- snapshots and their SHA-256 digests are left out.
pub mod Evidence
use adx_agentic_payment.Base.{
  ℕ, String, string_eq, nat_eq, Bool, true, false, not, ◌||◌, ◌&&◌, Option, none, some, List, [],
  ◌∷◌, any, ltb, ◌==◌, if◌then◌else◌, is_none, Result, ok, err, checks, and_then,
}
use adx_agentic_payment.Base.Int.{ℤ, pos, ◌*ℤ◌, leb_ℤ, ltb_ℤ, int_eq}
use adx_agentic_payment.Base.Text.{lower}
use adx_agentic_payment.Payments.Models.{is_address, is_tx_hash, is_empty}
use Prim.Native.String.{count}

pub data AuthorizationMode : Type 0 where
  no_authorization single_eip3009 : AuthorizationMode

pub data CustodyMode : Type 0 where
  wallet sandbox_guest : CustodyMode

-- `SettlementError`, by its codes.
pub data SettlementError : Type 0 where
  invalid_evm_address invalid_transaction_hash invalid_authorization_nonce invalid_block_hash :
      SettlementError
  disabled_settlement_has_chain_config unsupported_authorization_mode invalid_chain_id :
      SettlementError
  token_address_required invalid_token_symbol token_decimals_must_match_gold_scale : SettlementError
  invalid_token_eip712_name invalid_token_eip712_version invalid_required_confirmations :
      SettlementError
  settlement_identifier_required buyer_and_seller_accounts_must_differ : SettlementError
  settlement_quantity_must_be_positive settlement_price_must_be_positive
        settlement_amount_mismatch :
      SettlementError
  incomplete_token_eip712_domain invalid_token_eip712_domain : SettlementError
  invalid_confirmation_amount invalid_confirmation_height : SettlementError
  chain_transaction_failed chain_id_mismatch token_mismatch payer_mismatch payee_mismatch :
      SettlementError
  amount_mismatch insufficient_confirmations : SettlementError

unfoldable pub normalize_evm_address : String → Result SettlementError String
normalize_evm_address value = if is_address value then ok (lower value) else err invalid_evm_address

unfoldable pub normalize_tx_hash : String → Result SettlementError String
normalize_tx_hash value =
    if is_tx_hash value then ok (lower value) else err invalid_transaction_hash

unfoldable pub normalize_authorization_nonce : String → Result SettlementError String
normalize_authorization_nonce value =
    if is_tx_hash value then ok (lower value) else err invalid_authorization_nonce

pub record SettlementConfig : Type 0 where
  pub authorization_mode : AuthorizationMode
  pub chain_id : Option ℤ
  pub token_address : Option String
  pub token_symbol : Option String
  pub token_decimals : Option ℤ
  pub token_eip712_name : Option String
  pub token_eip712_version : Option String
  pub required_confirmations : ℤ

abbrev bad_chain : Option ℤ → Bool
bad_chain none = true
bad_chain (some c) = leb_ℤ c (pos 0)

abbrev bad_label : ℕ → Option String → Bool
bad_label longest none = true
bad_label longest (some s) = is_empty s || ltb longest (count s)

abbrev not_six : Option ℤ → Bool
not_six none = true
not_six (some d) = not (d == pos 6)

abbrev pub outside_confirmations : ℤ → Bool
outside_confirmations c = ltb_ℤ c (pos 1) || ltb_ℤ (pos 100) c

abbrev has_chain_config : SettlementConfig → Bool
has_chain_config c =
    not (is_none c.chain_id)
    || (not (is_none c.token_address)
        || (not (is_none c.token_symbol)
            || (not (is_none c.token_decimals)
                || (not (is_none c.token_eip712_name) || not (is_none c.token_eip712_version)))))

abbrev token_guards : SettlementConfig → List (Bool × SettlementError)
token_guards c =
    (bad_label 20 c.token_symbol, invalid_token_symbol)
    ∷ (not_six c.token_decimals, token_decimals_must_match_gold_scale)
    ∷ (bad_label 128 c.token_eip712_name, invalid_token_eip712_name)
    ∷ (bad_label 32 c.token_eip712_version, invalid_token_eip712_version)
    ∷ (outside_confirmations c.required_confirmations, invalid_required_confirmations)
    ∷ []

abbrev config_with_token :
    SettlementConfig → Option String → Result SettlementError SettlementConfig
config_with_token c none = err token_address_required
config_with_token c (some token) = and_then (normalize_evm_address token) (λ address.
    and_then (checks (token_guards c)) (λ _. ok (record c { token_address = some address })))

abbrev config_by : AuthorizationMode → SettlementConfig → Result SettlementError SettlementConfig
config_by AuthorizationMode.no_authorization c =
    if has_chain_config c then err disabled_settlement_has_chain_config else ok c
config_by AuthorizationMode.single_eip3009 c =
    if bad_chain c.chain_id then err invalid_chain_id else config_with_token c c.token_address

-- `SettlementConfig.__post_init__`.
unfoldable pub make_config : SettlementConfig → Result SettlementError SettlementConfig
make_config c = config_by c.authorization_mode c

pub record SettlementAccount : Type 0 where
  pub chain_id : ℤ
  pub address : String
  pub custody_mode : CustodyMode

unfoldable pub make_account : SettlementAccount → Result SettlementError SettlementAccount
make_account a = and_then (checks ((leb_ℤ a.chain_id (pos 0), invalid_chain_id) ∷ [])) (λ _.
    and_then (normalize_evm_address a.address) (λ address. ok (record a { address = address })))

pub record SettlementIntent : Type 0 where
  pub settlement_intent_id : String
  pub game_id : String
  pub round_id : String
  pub pairing_id : String
  pub negotiation_id : String
  pub buyer_participant_id : String
  pub seller_participant_id : String
  pub buyer_agent_id : String
  pub seller_agent_id : String
  pub buyer_account : String
  pub seller_account : String
  pub good : String
  pub quantity : ℤ
  pub unit_price_atomic : ℤ
  pub amount_atomic : ℤ
  pub chain_id : ℤ
  pub token_address : String
  pub token_symbol : String
  pub token_decimals : ℤ
  pub required_confirmations : ℤ
  pub authorization_mode : AuthorizationMode
  pub idempotency_key : String
  pub token_eip712_name : Option String
  pub token_eip712_version : Option String

abbrev pub is_disabled : AuthorizationMode → Bool
is_disabled AuthorizationMode.no_authorization = true
is_disabled AuthorizationMode.single_eip3009 = false

abbrev half_domain : Option String → Option String → Bool
half_domain none none = false
half_domain (some n) (some v) = false
half_domain _ _ = true

abbrev bad_domain : Option String → Option String → Bool
bad_domain none version = false
bad_domain (some name) version = bad_label 128 (some name) || bad_label 32 version

abbrev pub settlement_guards : SettlementIntent → List (Bool × SettlementError)
settlement_guards i =
    (
      any is_empty (
          i.settlement_intent_id ∷ i.game_id ∷ i.round_id ∷ i.pairing_id ∷ i.negotiation_id
          ∷ i.buyer_participant_id ∷ i.seller_participant_id ∷ i.buyer_agent_id ∷ i.seller_agent_id
          ∷ i.good ∷ i.idempotency_key ∷ []),
      settlement_identifier_required,
    )
    ∷ (not (is_address i.buyer_account), invalid_evm_address)
    ∷ (not (is_address i.seller_account), invalid_evm_address)
    ∷ (not (is_address i.token_address), invalid_evm_address)
    ∷ (lower i.buyer_account == lower i.seller_account, buyer_and_seller_accounts_must_differ)
    ∷ (leb_ℤ i.quantity (pos 0), settlement_quantity_must_be_positive)
    ∷ (leb_ℤ i.unit_price_atomic (pos 0), settlement_price_must_be_positive)
    ∷ (not (i.amount_atomic == i.unit_price_atomic *ℤ i.quantity), settlement_amount_mismatch)
    ∷ (leb_ℤ i.chain_id (pos 0), invalid_chain_id)
    ∷ (not (i.token_decimals == pos 6), token_decimals_must_match_gold_scale)
    ∷ (outside_confirmations i.required_confirmations, invalid_required_confirmations)
    ∷ (is_disabled i.authorization_mode, unsupported_authorization_mode)
    ∷ (half_domain i.token_eip712_name i.token_eip712_version, incomplete_token_eip712_domain)
    ∷ (bad_domain i.token_eip712_name i.token_eip712_version, invalid_token_eip712_domain)
    ∷ []

abbrev pub normalized : SettlementIntent → SettlementIntent
normalized i = record i {
  buyer_account = lower i.buyer_account;
  seller_account = lower i.seller_account;
  token_address = lower i.token_address;
}

-- `SettlementIntent.__post_init__`; a failed normalization is its guard.
unfoldable pub make_settlement_intent : SettlementIntent → Result SettlementError SettlementIntent
make_settlement_intent i = and_then (checks (settlement_guards i)) (λ _. ok (normalized i))

pub record ChainConfirmation : Type 0 where
  pub tx_hash : String
  pub chain_id : ℤ
  pub facilitator_address : String
  pub token_address : String
  pub from_account : String
  pub to_account : String
  pub amount_atomic : ℤ
  pub block_number : ℤ
  pub block_hash : String
  pub confirmation_count : ℤ
  pub success : Bool

abbrev pub confirmation_guards : ChainConfirmation → List (Bool × SettlementError)
confirmation_guards c =
    (not (is_tx_hash c.tx_hash), invalid_transaction_hash)
    ∷ (not (is_address c.facilitator_address), invalid_evm_address)
    ∷ (not (is_address c.token_address), invalid_evm_address)
    ∷ (not (is_address c.from_account), invalid_evm_address)
    ∷ (not (is_address c.to_account), invalid_evm_address)
    ∷ (not (is_tx_hash c.block_hash), invalid_block_hash)
    ∷ (leb_ℤ c.chain_id (pos 0), invalid_chain_id)
    ∷ (leb_ℤ c.amount_atomic (pos 0), invalid_confirmation_amount)
    ∷ (
      ltb_ℤ c.block_number (pos 0) || ltb_ℤ c.confirmation_count (pos 0),
      invalid_confirmation_height,
    )
    ∷ []

abbrev pub in_lower_case : ChainConfirmation → ChainConfirmation
in_lower_case c = record c {
  tx_hash = lower c.tx_hash;
  facilitator_address = lower c.facilitator_address;
  token_address = lower c.token_address;
  from_account = lower c.from_account;
  to_account = lower c.to_account;
  block_hash = lower c.block_hash;
}

-- `ChainConfirmation.__post_init__`.
unfoldable pub make_confirmation : ChainConfirmation → Result SettlementError ChainConfirmation
make_confirmation c = and_then (checks (confirmation_guards c)) (λ _. ok (in_lower_case c))

abbrev pub evidence_guards : SettlementIntent → ChainConfirmation → List (Bool × SettlementError)
evidence_guards i c =
    (not c.success, chain_transaction_failed)
    ∷ (not (c.chain_id == i.chain_id), chain_id_mismatch)
    ∷ (not (c.token_address == i.token_address), token_mismatch)
    ∷ (not (c.from_account == i.buyer_account), payer_mismatch)
    ∷ (not (c.to_account == i.seller_account), payee_mismatch)
    ∷ (not (c.amount_atomic == i.amount_atomic), amount_mismatch)
    ∷ (ltb_ℤ c.confirmation_count i.required_confirmations, insufficient_confirmations)
    ∷ []

unfoldable pub validate_chain_confirmation :
    SettlementIntent → ChainConfirmation → Result SettlementError (Unit {0})
unfolding checks
validate_chain_confirmation i c = checks (evidence_guards i c)
