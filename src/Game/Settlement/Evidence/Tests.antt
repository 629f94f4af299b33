-- ===== src/Game/Settlement/Evidence/Tests.antt =====
-- A settlement of two units and its evidence, given in capitals.
use adx_agentic_payment.Base.{String, string_eq, true, none, ◌≡◌, ◌≢◌, ◌↔◌, refl, ok, checks, arith}
use adx_agentic_payment.Base.Int.{pos, ◌*ℤ◌}
use adx_agentic_payment.Base.Text.{lower, hex_digits, prefixed_hex}
use adx_agentic_payment.Game.Settlement.{
  AuthorizationMode, SettlementIntent, make_settlement_intent, normalized, ChainConfirmation,
  make_confirmation, in_lower_case, validate_chain_confirmation,
}
use adx_agentic_payment.Game.Settlement.Evidence.{
  IsFrozen, Proves, make_settlement_intent-IsFrozen, validate_chain_confirmation_iff,
  confirmed_transfer,
}

abbrev hash : String
hash = "0x00000000000000000000000000000000000000000000000000000000000000DD"

abbrev settlement : SettlementIntent
settlement = record {
  settlement_intent_id = "i";
  game_id = "g";
  round_id = "1";
  pairing_id = "p";
  negotiation_id = "n";
  buyer_participant_id = "ann";
  seller_participant_id = "bob";
  buyer_agent_id = "a";
  seller_agent_id = "b";
  buyer_account = "0x00000000000000000000000000000000000000AA";
  seller_account = "0x00000000000000000000000000000000000000BB";
  good = "iron";
  quantity = pos 2;
  unit_price_atomic = pos 5;
  amount_atomic = pos 10;
  chain_id = pos 1439;
  token_address = "0x00000000000000000000000000000000000000CC";
  token_symbol = "G";
  token_decimals = pos 6;
  required_confirmations = pos 1;
  authorization_mode = AuthorizationMode.single_eip3009;
  idempotency_key = "k";
  token_eip712_name = none;
  token_eip712_version = none;
}

abbrev evidence : ChainConfirmation
evidence = record {
  tx_hash = hash;
  chain_id = pos 1439;
  facilitator_address = "0x00000000000000000000000000000000000000EE";
  token_address = "0x00000000000000000000000000000000000000CC";
  from_account = "0x00000000000000000000000000000000000000AA";
  to_account = "0x00000000000000000000000000000000000000bb";
  amount_atomic = pos 10;
  block_number = pos 3;
  block_hash = hash;
  confirmation_count = pos 1;
  success = true;
}

settlement_made : make_settlement_intent settlement ≡ ok (normalized settlement)
unfolding make_settlement_intent checks prefixed_hex hex_digits lower ◌*ℤ◌
settlement_made = refl

evidence_made : make_confirmation evidence ≡ ok (in_lower_case evidence)
unfolding make_confirmation checks prefixed_hex hex_digits
evidence_made = refl

evidence_valid :
    validate_chain_confirmation (normalized settlement) (in_lower_case evidence) ≡ ok tt
unfolding validate_chain_confirmation checks lower
evidence_valid = refl

make_settlement_intent-IsFrozen_example :
    IsFrozen (normalized settlement)
    × (make_settlement_intent (normalized settlement) ≡ ok (normalized settlement))
make_settlement_intent-IsFrozen_example =
    make_settlement_intent-IsFrozen settlement (normalized settlement) settlement_made

validate_chain_confirmation_iff_example :
    (validate_chain_confirmation (normalized settlement) (in_lower_case evidence) ≡ ok tt)
    ↔ Proves (normalized settlement) (in_lower_case evidence)
validate_chain_confirmation_iff_example =
    validate_chain_confirmation_iff (normalized settlement) (in_lower_case evidence)

confirmed_transfer_example :
    (pos 10 ≡ pos 5 *ℤ pos 2)
    × ((in_lower_case evidence).from_account ≢ (in_lower_case evidence).to_account)
    × (lower evidence.from_account ≡ lower settlement.buyer_account)
    × (lower evidence.to_account ≡ lower settlement.seller_account)
    × (validate_chain_confirmation
          (normalized settlement)
          (record (in_lower_case evidence) { confirmation_count = pos 9 })
        ≡ ok tt)
confirmed_transfer_example =
    confirmed_transfer settlement (normalized settlement) evidence (in_lower_case evidence) (pos 9)
      settlement_made evidence_made evidence_valid (omega arith)
