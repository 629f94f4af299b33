-- ===== src/Game/Settlement/Evidence.antt =====
-- What a made settlement intent is, and what evidence on the chain proves about it.
pub mod Tests
use adx_agentic_payment.Base.{
  ℕ, String, string_eq, Bool, true, false, not, ◌||◌, ◌≡◌, ◌≢◌, ◌↔◌, refl, sym, ap, ◌∙◌, List, [],
  ◌∷◌, ltb, ◌==◌, ==_iff, ==_false, Result, ok, err, checks, checks-AllPass, AllPass,
  AllPass-checks, and_then, built, build, arith, if◌then◌else◌,
}
use mathlib.Core.Path.{subst}
use adx_agentic_payment.Base.Int.{ℤ, pos, ◌*ℤ◌, ◌≤ℤ◌, leb_ℤ, ltb_ℤ, int_eq}
use adx_agentic_payment.Base.Text.{lower, lower_idem, prefixed_hex-lower}
use adx_agentic_payment.Payments.Models.{is_address}
use adx_agentic_payment.Game.Settlement.{
  SettlementIntent, settlement_guards, normalized, make_settlement_intent, ChainConfirmation,
  confirmation_guards, in_lower_case, make_confirmation, evidence_guards,
  validate_chain_confirmation, outside_confirmations,
}

-- An address in lower case.
abbrev pub IsNormal : String → Type 0
IsNormal a = (is_address a ≡ true) × (lower a ≡ a)

-- Frozen terms: the amount is the price times the quantity, both positive, between two accounts that
-- differ, with one to a hundred confirmations required, and addresses in their normal form.
pub record IsFrozen (i : SettlementIntent) : Type 0 where
  pub amount : i.amount_atomic ≡ i.unit_price_atomic *ℤ i.quantity
  pub quantity : pos 1 ≤ℤ i.quantity
  pub price : pos 1 ≤ℤ i.unit_price_atomic
  pub accounts : i.buyer_account ≢ i.seller_account
  pub confirmations : (pos 1 ≤ℤ i.required_confirmations) × (i.required_confirmations ≤ℤ pos 100)
  pub normal : IsNormal i.buyer_account × IsNormal i.seller_account × IsNormal i.token_address

negated : (b : Bool) → not b ≡ false → b ≡ true
negated true h = refl
negated false h = cc

positive : (n : ℤ) → leb_ℤ n (pos 0) ≡ false → pos 1 ≤ℤ n
positive n h = ground (arith, h)

in_range : (n : ℤ) → outside_confirmations n ≡ false → (pos 1 ≤ℤ n) × (n ≤ℤ pos 100)
in_range n h = (ground (arith, h), ground (arith, h))

normal : (a : String) → not (is_address a) ≡ false → IsNormal (lower a)
normal a h = (prefixed_hex-lower 40 a (negated (is_address a) h), lower_idem a)

still_address : (a : String) → not (is_address a) ≡ false → not (is_address (lower a)) ≡ false
still_address a h = ap not (normal a h).0

equal_ints : (a b : ℤ) → not (a == b) ≡ false → a ≡ b
equal_ints a b h = (==_iff a b).0 (negated (a == b) h)

equal_texts : (a b : String) → not (a == b) ≡ false → a ≡ b
equal_texts a b h = (==_iff a b).0 (negated (a == b) h)

normalized-IsFrozen :
    (i : SettlementIntent) → AllPass (settlement_guards i) → IsFrozen (normalized i)
normalized-IsFrozen i
      (
        ids,
        (
          buyer,
          (
            seller,
            (token, (differ, (quantity, (price, (amount, (chain, (six, (confirmations, rest)))))))),
          ),
        ),
      ) =
    record {
      amount = equal_ints i.amount_atomic (i.unit_price_atomic *ℤ i.quantity) amount;
      quantity = positive i.quantity quantity;
      price = positive i.unit_price_atomic price;
      accounts = λ e. cc (differ, (==_iff (lower i.buyer_account) (lower i.seller_account)).1 e);
      confirmations = in_range i.required_confirmations confirmations;
      normal = (
        normal i.buyer_account buyer,
        normal i.seller_account seller,
        normal i.token_address token,
      );
    }

normalized-passes :
    (i : SettlementIntent)
    → AllPass (settlement_guards i)
    → AllPass (settlement_guards (normalized i))
normalized-passes i (ids, (buyer, (seller, (token, (differ, rest))))) = (
  ids,
  (
    still_address i.buyer_account buyer,
    (
      still_address i.seller_account seller,
      (
        still_address i.token_address token,
        (rw (lower_idem i.buyer_account, lower_idem i.seller_account) differ, rest),
      ),
    ),
  ),
)

normalized_twice : (i : SettlementIntent) → normalized (normalized i) ≡ normalized i
normalized_twice i =
    rw (lower_idem i.buyer_account, lower_idem i.seller_account, lower_idem i.token_address) refl

-- A settlement intent that the constructor returns has frozen terms, and the constructor returns it
-- unchanged when it gets it again.
pub make_settlement_intent-IsFrozen :
    (i j : SettlementIntent)
    → make_settlement_intent i ≡ ok j
    → IsFrozen j × (make_settlement_intent j ≡ ok j)
unfolding make_settlement_intent
make_settlement_intent-IsFrozen i j made =
    let (pass, same) = built (settlement_guards i) (normalized i) made in
    subst
      (λ x. IsFrozen x × (and_then (checks (settlement_guards x)) (λ _. ok (normalized x)) ≡ ok x))
      same
      (
        normalized-IsFrozen i pass,
        build (settlement_guards (normalized i)) (normalized (normalized i))
              (normalized-passes i pass)
            ∙ ap ok (normalized_twice i),
      )

-- The evidence is of a successful transfer of the intent's amount of its token, from its buyer to its
-- seller on its chain, with the required confirmations.
pub record Proves (i : SettlementIntent) (c : ChainConfirmation) : Type 0 where
  pub success : c.success ≡ true
  pub chain : c.chain_id ≡ i.chain_id
  pub token : c.token_address ≡ i.token_address
  pub payer : c.from_account ≡ i.buyer_account
  pub payee : c.to_account ≡ i.seller_account
  pub amount : c.amount_atomic ≡ i.amount_atomic
  pub confirmed : i.required_confirmations ≤ℤ c.confirmation_count

unequal_false : (a b : String) → a ≡ b → not (a == b) ≡ false
unequal_false a b e = ap not ((==_iff a b).1 e)

unequal_int_false : (a b : ℤ) → a ≡ b → not (a == b) ≡ false
unequal_int_false a b e = ap not ((==_iff a b).1 e)

-- The check of the evidence passes exactly when it proves the intent's transfer.
pub validate_chain_confirmation_iff :
    (i : SettlementIntent) (c : ChainConfirmation)
    → (validate_chain_confirmation i c ≡ ok tt) ↔ Proves i c
unfolding validate_chain_confirmation
validate_chain_confirmation_iff i c = (
  λ h.
      let (success, (chain, (token, (payer, (payee, (amount, (count, u))))))) =
        checks-AllPass (evidence_guards i c) h in
      record {
        success = negated c.success success;
        chain = equal_ints c.chain_id i.chain_id chain;
        token = equal_texts c.token_address i.token_address token;
        payer = equal_texts c.from_account i.buyer_account payer;
        payee = equal_texts c.to_account i.seller_account payee;
        amount = equal_ints c.amount_atomic i.amount_atomic amount;
        confirmed = ground (arith, count);
      },
  λ p. AllPass-checks (evidence_guards i c) (
    ap not p.success,
    (
      unequal_int_false c.chain_id i.chain_id p.chain,
      (
        unequal_false c.token_address i.token_address p.token,
        (
          unequal_false c.from_account i.buyer_account p.payer,
          (
            unequal_false c.to_account i.seller_account p.payee,
            (
              unequal_int_false c.amount_atomic i.amount_atomic p.amount,
              (ground (arith, p.confirmed), tt),
            ),
          ),
        ),
      ),
    ),
  ),
)

-- When made evidence passes the check against a made intent, it is of a transfer of the price times the
-- quantity between two different accounts, which are the given buyer's and seller's but for case, and the
-- same evidence with more confirmations passes as well.
pub confirmed_transfer :
    (i j : SettlementIntent) (c d : ChainConfirmation) (later : ℤ)
    → make_settlement_intent i ≡ ok j
    → make_confirmation c ≡ ok d
    → validate_chain_confirmation j d ≡ ok tt
    → d.confirmation_count ≤ℤ later
    → (d.amount_atomic ≡ i.unit_price_atomic *ℤ i.quantity)
      × (d.from_account ≢ d.to_account)
      × (lower c.from_account ≡ lower i.buyer_account)
      × (lower c.to_account ≡ lower i.seller_account)
      × (validate_chain_confirmation j (record d { confirmation_count = later }) ≡ ok tt)
unfolding make_settlement_intent make_confirmation
confirmed_transfer i j c d later made_i made_c valid more =
    let frozen = (make_settlement_intent-IsFrozen i j made_i).0 in
    let (pass_i, same_i) = built (settlement_guards i) (normalized i) made_i in
    let (pass_c, same_c) = built (confirmation_guards c) (in_lower_case c) made_c in
    let p = (validate_chain_confirmation_iff j d).0 valid in
    (
      p.amount ∙ frozen.amount ∙ ap (λ x. x.unit_price_atomic *ℤ x.quantity) (sym same_i),
      (λ e. frozen.accounts (sym p.payer ∙ e ∙ p.payee)),
      ap (λ x. x.from_account) same_c ∙ p.payer ∙ ap (λ x. x.buyer_account) (sym same_i),
      ap (λ x. x.to_account) same_c ∙ p.payee ∙ ap (λ x. x.seller_account) (sym same_i),
      (validate_chain_confirmation_iff j (record d { confirmation_count = later })).1 (record {
        success = p.success;
        chain = p.chain;
        token = p.token;
        payer = p.payer;
        payee = p.payee;
        amount = p.amount;
        confirmed = omega (arith, p.confirmed, more);
      }),
    )
