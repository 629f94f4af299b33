-- ===== src/Payments/Wallets/Binding/Tests.antt =====
-- Two users with one wallet each.
use adx_agentic_payment.Base.{
  String, string_eq, nat_eq, option_eq, Bool, true, some, [], ◌∷◌, ◌≡◌, refl, checks,
}
use adx_agentic_payment.Base.Int.{pos}
use adx_agentic_payment.Base.Dict
use adx_agentic_payment.Base.Sort.{sort_by, insert_by}
use adx_agentic_payment.Base.Text.{lower, hex_digits, prefixed_hex}
use adx_agentic_payment.Payments.Models.{Datetime}
use adx_agentic_payment.Payments.Wallets.{
  WalletStatus, WalletInventoryItem, UserWalletBinding, IdentityProvider, WalletStore, new_store,
  make_item, make_binding, bind_first, bind_by, get_or_bind_wallet,
}
use adx_agentic_payment.Payments.Wallets.Binding.{Op, run, wallet_bound_once}

abbrev at : Datetime
at = record { instant = 1; aware = true }

abbrev item : String → WalletInventoryItem
item id = record {
  wallet_id = id;
  chain_id = pos 1439;
  address = "0x00000000000000000000000000000000000000aa";
  secret_ref = "vault/x";
  status = WalletStatus.available;
}

abbrev any_digits : String → Bool
any_digits s = true

abbrev op : String → Op
op user = record {
  user_id = user;
  provider = IdentityProvider.github;
  subject = some user;
  now = at;
}

abbrev binding : String → String → UserWalletBinding
binding user id = record {
  user_id = user;
  github_subject = some user;
  wallet_id = id;
  chain_id = pos 1439;
  address = "0x00000000000000000000000000000000000000aa";
  bound_at = at;
}

abbrev after_two : WalletStore
after_two = run any_digits (op "7" ∷ op "8" ∷ []) (new_store (item "w2" ∷ item "w1" ∷ []))

first_bound : Dict.get after_two.wallet_bindings "7" ≡ some (binding "7" "w1")
unfolding run get_or_bind_wallet bind_by bind_first make_binding make_item checks sort_by insert_by
    Dict.get Dict.find_in Dict.put prefixed_hex hex_digits lower
first_bound = refl

second_bound : Dict.get after_two.wallet_bindings "8" ≡ some (binding "8" "w2")
unfolding run get_or_bind_wallet bind_by bind_first make_binding make_item checks sort_by insert_by
    Dict.get Dict.find_in Dict.put prefixed_hex hex_digits lower
second_bound = refl

wallet_bound_once_example :
    ((binding "7" "w1").wallet_id ≡ (binding "8" "w2").wallet_id → ◌≡◌ {A = String} "7" "8")
    × ((x : String)
        → (binding "7" "w1").github_subject ≡ some x
        → (binding "8" "w2").github_subject ≡ some x
        → ◌≡◌ {A = String} "7" "8")
    × (Dict.get (run any_digits (op "7" ∷ []) after_two).wallet_bindings "7"
        ≡ some (binding "7" "w1"))
wallet_bound_once_example =
    wallet_bound_once any_digits (item "w2" ∷ item "w1" ∷ []) (op "7" ∷ op "8" ∷ []) (op "7" ∷ [])
      "7" "8" (binding "7" "w1") (binding "8" "w2") first_bound second_bound
