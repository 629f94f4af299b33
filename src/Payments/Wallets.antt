-- ===== src/Payments/Wallets.antt =====
-- The wallets of arena_payments: the inventory and the bindings of models.py, and the methods of
-- `InMemoryPaymentRepository` on them. `str.isdigit` reads the Unicode tables and is a parameter.
pub mod Binding
use adx_agentic_payment.Base.{
  ℕ, String, string_eq, nat_eq, Bool, true, false, not, ◌||◌, ◌&&◌, Option, none, some, List, [],
  ◌∷◌, select, ltb, ◌==◌, option_eq, is_none, if◌then◌else◌, Result, ok, err, checks, and_then,
  Action, pure, raise, raise_if, lift, gets, modify, ◌>>=◌, ◌>>◌,
}
use adx_agentic_payment.Base.Int.{ℤ, pos, leb_ℤ}
use adx_agentic_payment.Base.Dict
use adx_agentic_payment.Base.Dict.{Dict}
use adx_agentic_payment.Base.Sort.{sort_by}
use adx_agentic_payment.Base.Text.{lower, text_leb}
use adx_agentic_payment.Payments.Models.{Datetime, is_empty, is_address}
use Prim.Native.String
use Prim.Native.String.{count}
use Prim.Native.Char.{Char, code}

pub data WalletStatus : Type 0 where
  available bound disabled : WalletStatus

-- The `ValueError`s of the constructors and `WalletUnavailable`, by their codes.
pub data WalletError : Type 0 where
  invalid_wallet_id invalid_chain_id invalid_evm_address invalid_secret_ref invalid_wallet_binding :
      WalletError
  platform_identity_required platform_identity_conflict wallet_pool_exhausted : WalletError

pub record WalletInventoryItem : Type 0 where
  pub wallet_id : String
  pub chain_id : ℤ
  pub address : String
  pub secret_ref : String
  pub status : WalletStatus

-- `any(char in text for char in ("\n", "\r", "\0"))`.
has_line_break : String → Bool
has_line_break String.[] = false
has_line_break (String.◌∷◌ c s) =
    (code c == 10) || ((code c == 13) || ((code c == 0) || has_line_break s))

unfoldable pub make_item : WalletInventoryItem → Result WalletError WalletInventoryItem
unfolding has_line_break
make_item w =
    and_then
      (checks (
        (is_empty w.wallet_id || ltb 128 (count w.wallet_id), invalid_wallet_id)
        ∷ (leb_ℤ w.chain_id (pos 0), invalid_chain_id)
        ∷ (not (is_address w.address), invalid_evm_address)
        ∷ (
          is_empty w.secret_ref || (ltb 512 (count w.secret_ref) || has_line_break w.secret_ref),
          invalid_secret_ref,
        )
        ∷ []))
      (λ _. ok (record w { address = lower w.address }))

pub record UserWalletBinding : Type 0 where
  pub user_id : String
  pub github_subject : Option String
  pub wallet_id : String
  pub chain_id : ℤ
  pub address : String
  pub bound_at : Datetime

pub data IdentityProvider : Type 0 where
  github password another_provider : IdentityProvider

pub record WalletStore : Type 0 where
  pub wallet_inventory : Dict String WalletInventoryItem
  pub wallet_bindings : Dict String UserWalletBinding
  pub bindings_by_subject : Dict String String

abbrev stock :
    List WalletInventoryItem → Dict String WalletInventoryItem → Dict String WalletInventoryItem
stock [] d = d
stock (w ∷ ws) d = stock ws (Dict.put d w.wallet_id w)

-- The three dicts after `__init__`.
abbrev pub new_store : List WalletInventoryItem → WalletStore
new_store ws = record {
  wallet_inventory = stock ws Dict.empty;
  wallet_bindings = Dict.empty;
  bindings_by_subject = Dict.empty;
}

abbrev missing : Option String → Bool
missing none = true
missing (some s) = is_empty s

-- The guards before the lock.
abbrev pub identity_check : IdentityProvider → Option String → Result WalletError (Unit {0})
identity_check IdentityProvider.github subject =
    if missing subject then err platform_identity_required else ok tt
identity_check IdentityProvider.password subject =
    if is_none subject then ok tt else err platform_identity_conflict
identity_check IdentityProvider.another_provider subject = err platform_identity_required

-- The subject belongs to another user.
abbrev pub subject_taken : WalletStore → String → Option String → Bool
subject_taken s user_id none = false
subject_taken s user_id (some subject) =
    not (is_none (Dict.get s.bindings_by_subject subject))
    && not (Dict.get s.bindings_by_subject subject == some user_id)

abbrev pub is_available : WalletInventoryItem → Bool
is_available w = elim w.status [ WalletStatus.available ↦ true | _ ↦ false ]

abbrev pub wallet_first : WalletInventoryItem → WalletInventoryItem → Bool
wallet_first a b = text_leb a.wallet_id b.wallet_id

abbrev pub available_wallets : WalletStore → List WalletInventoryItem
available_wallets s = sort_by wallet_first (select is_available (Dict.values s.wallet_inventory))

abbrev pub with_subject : Option String → String → Dict String String → Dict String String
with_subject none user_id d = d
with_subject (some subject) user_id d = Dict.put d subject user_id

abbrev pub with_binding : UserWalletBinding → WalletInventoryItem → WalletStore → WalletStore
with_binding b w s = record {
  wallet_inventory = Dict.put s.wallet_inventory w.wallet_id w;
  wallet_bindings = Dict.put s.wallet_bindings b.user_id b;
  bindings_by_subject = with_subject b.github_subject b.user_id s.bindings_by_subject;
}

module _ (isdigit : String → Bool) where
  abbrev bad_subject : Option String → Bool
  bad_subject none = false
  bad_subject (some s) = not (isdigit s)

  unfoldable pub make_binding : UserWalletBinding → Result WalletError UserWalletBinding
  make_binding b =
      and_then
        (checks (
          (is_empty b.user_id || bad_subject b.github_subject, invalid_wallet_binding)
          ∷ (not (is_address b.address), invalid_evm_address)
          ∷ []))
        (λ _. ok (record b { address = lower b.address }))

  abbrev pub binding_of :
      String → Option String → Datetime → WalletInventoryItem → UserWalletBinding
  binding_of user_id subject now w = record {
    user_id = user_id;
    github_subject = subject;
    wallet_id = w.wallet_id;
    chain_id = w.chain_id;
    address = w.address;
    bound_at = now;
  }

  unfoldable pub bind_first :
      String
      → Option String
      → Datetime
      → List WalletInventoryItem
      → Action WalletStore WalletError UserWalletBinding
  bind_first user_id subject now [] = raise wallet_pool_exhausted
  bind_first user_id subject now (w ∷ _) = do
    b ← lift (make_binding (binding_of user_id subject now w))
    taken ← lift (make_item (record w { status = WalletStatus.bound }))
    modify (with_binding b taken)
    pure b

  unfoldable pub bind_by :
      String
      → Option String
      → Datetime
      → Option UserWalletBinding
      → Action WalletStore WalletError UserWalletBinding
  bind_by user_id subject now (some existing) = do
    raise_if (not (existing.github_subject == subject)) platform_identity_conflict
    pure existing
  bind_by user_id subject now none = do
    s ← gets (λ s. s)
    raise_if (subject_taken s user_id subject) platform_identity_conflict
    bind_first user_id subject now (available_wallets s)

  unfoldable pub get_or_bind_wallet :
      String
      → IdentityProvider
      → Option String
      → Datetime
      → Action WalletStore WalletError UserWalletBinding
  get_or_bind_wallet user_id provider subject now = do
    lift (identity_check provider subject)
    bind_by user_id subject now (← gets (λ s. Dict.get s.wallet_bindings user_id))

-- `wallet_for_user`.
abbrev pub wallet_for_user : String → WalletStore → Option UserWalletBinding
wallet_for_user user_id s = Dict.get s.wallet_bindings user_id
