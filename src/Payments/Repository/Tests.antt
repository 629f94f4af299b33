-- ===== src/Payments/Repository/Tests.antt =====
-- A mandate that is created, reserved against, and consumed.
use adx_agentic_payment.Base.{
  ℕ, String, string_eq, true, none, some, List, [], ◌∷◌, ◌≡◌, refl, All, ok, checks,
}
use adx_agentic_payment.Base.Int.{pos, ◌+ℤ◌, ◌-ℤ◌}
use adx_agentic_payment.Base.Dict
use adx_agentic_payment.Base.Text.{lower, hex_digits, prefixed_hex, starts_with, sha256_text}
use adx_agentic_payment.Payments.Models.{
  Datetime, PaymentMandate, SettlementTerms, PaymentReservation, ReservationStatus, make_mandate,
  make_terms, with_accounting, make_reservation,
}
use adx_agentic_payment.Payments.Repository.{
  new_repository, active_mandate, create_end, revoke_expired, create_mandate, reserve_mandate,
  consume_reservation,
}
use adx_agentic_payment.Payments.Repository.Validity.{WithinLimits}
use adx_agentic_payment.Payments.Repository.Accounts.{held, spent}
use adx_agentic_payment.Payments.Repository.History.{
  Op, create, reserve, consume, release, IsProper, run, apply, mandate_accounting,
}
use adx_agentic_payment.Payments.Repository.Finality.{settled_final}
use adx_agentic_payment.Payments.Repository.Exclusive.{IsOpen, one_open_mandate}

abbrev at : ℕ → Datetime
at n = record { instant = n; aware = true }

abbrev shop : String
shop = "0x00000000000000000000000000000000000000aa"

abbrev coin : String
coin = "0x00000000000000000000000000000000000000cc"

abbrev mandate : PaymentMandate
mandate = record {
  mandate_id = "m";
  user_id = "u";
  wallet_id = "w";
  game_id = "g";
  chain_id = pos 1439;
  token_address = coin;
  limits = record { max_per_payment_atomic = pos 5; max_cumulative_atomic = pos 8 };
  allowed_payees = shop ∷ [];
  valid_from = at 1;
  expires_at = at 9;
  reserved_atomic = pos 0;
  consumed_atomic = pos 0;
  revoked_at = none;
  allowed_payee_rule = none;
  join_authorization_id = none;
}

abbrev terms : SettlementTerms
terms = record {
  settlement_intent_id = "i";
  intent_hash = "sha256:0000000000000000000000000000000000000000000000000000000000000000";
  game_id = "g";
  payer = "0x00000000000000000000000000000000000000bb";
  payee = shop;
  chain_id = pos 1439;
  token_address = coin;
  token_symbol = "G";
  token_decimals = pos 6;
  token_eip712_name = "Gold";
  token_eip712_version = "1";
  amount_atomic = pos 5;
  resource_url = "https://arena/x";
}

abbrev hash : String
hash = "0x00000000000000000000000000000000000000000000000000000000000000dd"

abbrev calls : List Op
calls = create mandate (at 2) ∷ reserve "m" terms (at 3) ∷ consume "i" hash (at 4) ∷ []

abbrev late_calls : List Op
late_calls = release "i" "too late" (at 5) ∷ consume "i" hash (at 6) ∷ []

-- A digest that gives the intent.
abbrev by_intent : String → String → String → String
by_intent m i h = i

abbrev paid_mandate : PaymentMandate
paid_mandate = record mandate { consumed_atomic = pos 5 }

abbrev paid : PaymentReservation
paid = record {
  reservation_id = "i";
  mandate_id = "m";
  settlement_intent_id = "i";
  intent_hash = terms.intent_hash;
  amount_atomic = pos 5;
  payee = shop;
  status = ReservationStatus.consumed;
  reserved_at = at 3;
  finalized_at = some (at 4);
  tx_hash = some hash;
  release_reason = none;
}

mandate_made : make_mandate mandate ≡ ok mandate
unfolding make_mandate checks prefixed_hex lower hex_digits ◌+ℤ◌
mandate_made = refl

terms_made : make_terms terms ≡ ok terms
unfolding make_terms checks prefixed_hex lower sha256_text starts_with hex_digits
terms_made = refl

calls-IsProper : All IsProper calls
calls-IsProper = ((mandate_made, refl, refl), (terms_made, (tt, tt)))

late_calls-IsProper : All IsProper late_calls
late_calls-IsProper = (tt, (tt, tt))

mandate_paid : Dict.get (run by_intent calls new_repository).mandates "m" ≡ some paid_mandate
unfolding run apply create_mandate reserve_mandate consume_reservation make_mandate with_accounting
    make_reservation checks prefixed_hex lower hex_digits ◌+ℤ◌ ◌-ℤ◌ Dict.get Dict.find_in Dict.put
mandate_paid = refl

reservation_paid : Dict.get (run by_intent calls new_repository).reservations "i" ≡ some paid
unfolding run apply create_mandate reserve_mandate consume_reservation make_mandate with_accounting
    make_reservation checks prefixed_hex lower hex_digits ◌+ℤ◌ ◌-ℤ◌ Dict.get Dict.find_in Dict.put
reservation_paid = refl

mandate_accounting_example :
    (pos 0 ≡ Dict.sum_by (held "m") (run by_intent calls new_repository).reservations)
    × (pos 5 ≡ Dict.sum_by (spent "m") (run by_intent calls new_repository).reservations)
    × WithinLimits mandate.limits (pos 0) (pos 5)
mandate_accounting_example =
    mandate_accounting by_intent (λ m i h m' i' h' e. e) calls "m" paid_mandate calls-IsProper
      mandate_paid

settled_final_example :
    Dict.get (run by_intent late_calls (run by_intent calls new_repository)).reservations "i"
    ≡ some paid
settled_final_example =
    settled_final by_intent (λ m i h m' i' h' e. e) calls late_calls "i" paid calls-IsProper
      late_calls-IsProper reservation_paid refl

-- A second mandate of the user in the game is refused while the first is open.
abbrev second : PaymentMandate
second = record mandate { mandate_id = "m2" }

second_made : make_mandate second ≡ ok second
unfolding make_mandate checks prefixed_hex lower hex_digits ◌+ℤ◌
second_made = refl

abbrev openings : List Op
openings = create mandate (at 2) ∷ create second (at 3) ∷ []

openings-IsProper : All IsProper openings
openings-IsProper = ((mandate_made, refl, refl), ((second_made, refl, refl), tt))

first_open : Dict.get (run by_intent openings new_repository).mandates "m" ≡ some mandate
unfolding run apply create_mandate create_end revoke_expired Dict.get Dict.find_in Dict.put
first_open = refl

first_active_found :
    (active_mandate "u" "g" (at 3) (run by_intent openings new_repository)).0 ≡ ok (some mandate)
unfolding active_mandate run apply create_mandate create_end revoke_expired Dict.get Dict.find_in
    Dict.put
first_active_found = refl

first-IsOpen : IsOpen "u" "g" (run by_intent openings new_repository).mandates "m"
first-IsOpen = record {
  mandate = mandate;
  stored = first_open;
  of_user = refl;
  of_game = refl;
  unrevoked = refl;
}

one_open_mandate_example : ◌≡◌ {A = String} "m" "m"
one_open_mandate_example =
    one_open_mandate by_intent (λ m i h m' i' h' e. e) openings "u" "g" "m" "m" openings-IsProper
      first-IsOpen first-IsOpen
