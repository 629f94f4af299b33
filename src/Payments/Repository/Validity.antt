-- ===== src/Payments/Repository/Validity.antt =====
-- A mandate that its constructor returned passes the constructor again unchanged, so that
-- `with_accounting` and the revocations fail only on the accounting.
use mathlib.Core.Path.{subst}
use adx_agentic_payment.Base.{
  String, ◌≡◌, refl, ap, sym, ◌∙◌, false, not, Option, none, some, List, [], ◌∷◌, map, arith, any,
  ok, AllPass, built, build, Bool-cases, inl, inr, is_nil, string_eq,
}
use adx_agentic_payment.Base.Int.{ℤ, pos, ◌+ℤ◌, ◌≤ℤ◌}
use adx_agentic_payment.Base.Text.{lower, lower_idem, prefixed_hex-lower}
use adx_agentic_payment.Payments.Models.{
  Datetime, MandateLimits, PaymentMandate, make_mandate, bad_static_payees, bad_dynamic_rule,
  mandate_guards, normalize_mandate, with_accounting, with_revocation, is_address,
}

pub map-lower_idem : (xs : List String) → map lower (map lower xs) ≡ map lower xs
map-lower_idem [] = refl
map-lower_idem (x ∷ xs) = rw (lower_idem x, map-lower_idem xs) refl

addresses-lower :
    (xs : List String)
    → any (λ a. not (is_address a)) xs ≡ false
    → any (λ a. not (is_address a)) (map lower xs) ≡ false
addresses-lower [] h = refl
addresses-lower (x ∷ xs) h = elim (Bool-cases (is_address x)) [
  | inl e ↦ rw (prefixed_hex-lower 40 x e) (addresses-lower xs (rw e at h))
  | inr e ↦ cc (rw e at h)
]

is_nil-map : (xs : List String) → is_nil (map lower xs) ≡ is_nil xs
is_nil-map [] = refl
is_nil-map (x ∷ xs) = refl

static-lower :
    (rule : Option String) (payees : List String) (join : Option String)
    → bad_static_payees rule (map lower payees) join ≡ bad_static_payees rule payees join
static-lower none payees join = rw (is_nil-map payees, map-lower_idem payees) refl
static-lower (some rule) payees join = refl

dynamic-lower :
    (rule : Option String) (payees : List String) (join : Option String)
    → bad_dynamic_rule rule (map lower payees) join ≡ bad_dynamic_rule rule payees join
dynamic-lower none payees join = refl
dynamic-lower (some rule) payees join = rw (is_nil-map payees) refl

address-lower : (a : String) → not (is_address a) ≡ false → not (is_address (lower a)) ≡ false
address-lower a h = elim (Bool-cases (is_address a)) [
  | inl e ↦ rw (prefixed_hex-lower 40 a e) refl
  | inr e ↦ cc (rw e at h)
]

guards-normalize :
    (m : PaymentMandate)
    → AllPass (mandate_guards m)
    → AllPass (mandate_guards (normalize_mandate m))
guards-normalize m (ids, (chain, (token, (payees, (static, (dynamic, rest)))))) = (
  ids,
  (
    chain,
    (
      address-lower m.token_address token,
      (
        addresses-lower m.allowed_payees payees,
        (
          static-lower m.allowed_payee_rule m.allowed_payees m.join_authorization_id ∙ static,
          (
            dynamic-lower m.allowed_payee_rule m.allowed_payees m.join_authorization_id ∙ dynamic,
            rest,
          ),
        ),
      ),
    ),
  ),
)

normalize_idem :
    (m : PaymentMandate) → normalize_mandate (normalize_mandate m) ≡ normalize_mandate m
normalize_idem m = rw (lower_idem m.token_address, map-lower_idem m.allowed_payees) refl

-- A mandate as its constructor returns it.
abbrev pub Validated : PaymentMandate → Type 0
Validated m = make_mandate m ≡ ok m

-- What the constructor returned passes it again.
pub make_mandate-Validated :
    (raw : PaymentMandate) {m : PaymentMandate} → make_mandate raw ≡ ok m → Validated m
unfolding make_mandate
make_mandate-Validated raw h =
    let (guards, e) = built (mandate_guards raw) (normalize_mandate raw) h in
    subst (λ m. make_mandate m ≡ ok m) e
      (build (mandate_guards (normalize_mandate raw)) (normalize_mandate (normalize_mandate raw))
          (guards-normalize raw guards)
        ∙ ap ok (normalize_idem raw))

Validated-guards :
    (m : PaymentMandate) → Validated m → AllPass (mandate_guards m) × (normalize_mandate m ≡ m)
unfolding make_mandate
Validated-guards m v = built (mandate_guards m) (normalize_mandate m) v

abbrev pub account : PaymentMandate → ℤ → ℤ → PaymentMandate
account m held spent = record m { reserved_atomic = held; consumed_atomic = spent }

abbrev pub revoke : PaymentMandate → Datetime → PaymentMandate
revoke m now = record m { revoked_at = some now }

-- The accounting of a mandate within its limits.
abbrev pub WithinLimits : MandateLimits → ℤ → ℤ → Type 0
WithinLimits l held spent =
    (pos 0 ≤ℤ held) × (pos 0 ≤ℤ spent) × (held +ℤ spent ≤ℤ l.max_cumulative_atomic)

pub Validated-WithinLimits :
    (m : PaymentMandate) → Validated m → WithinLimits m.limits m.reserved_atomic m.consumed_atomic
Validated-WithinLimits m v =
    let g = (Validated-guards m v).0.1.1.1.1.1.1.1.1.1 in
    let negative = g.0 in let over = g.1.0 in (ground arith, ground arith, ground arith)

-- New figures within the limits are accepted, and the rest of the mandate stays.
pub with_accounting-eq :
    (m : PaymentMandate) (held spent : ℤ)
    → Validated m
    → WithinLimits m.limits held spent
    → with_accounting m held spent ≡ ok (account m held spent)
unfolding with_accounting
with_accounting-eq m held spent v w =
    let (guards, same) = Validated-guards m v in
    build (mandate_guards (account m held spent)) (normalize_mandate (account m held spent)) (
      guards.0,
      (
        guards.1.0,
        (
          guards.1.1.0,
          (
            guards.1.1.1.0,
            (
              guards.1.1.1.1.0,
              (
                guards.1.1.1.1.1.0,
                (
                  guards.1.1.1.1.1.1.0,
                  (
                    guards.1.1.1.1.1.1.1.0,
                    (guards.1.1.1.1.1.1.1.1.0, (ground arith, (ground arith, tt))),
                  ),
                ),
              ),
            ),
          ),
        ),
      ),
    )
    ∙ ap (λ x. ok (account x held spent)) same

-- Conversely, accepted figures are within the limits.
pub with_accounting-ok :
    (m : PaymentMandate) (held spent : ℤ) {m' : PaymentMandate}
    → Validated m
    → with_accounting m held spent ≡ ok m'
    → Validated m' × (m' ≡ account m held spent)
unfolding with_accounting
with_accounting-ok m held spent v h =
    let same = (Validated-guards m v).1 in
    let e =
      (built (mandate_guards (account m held spent)) (normalize_mandate (account m held spent))
        h).1 in
    (make_mandate-Validated (account m held spent) h, sym e ∙ ap (λ x. account x held spent) same)

pub with_revocation-eq :
    (m : PaymentMandate) (now : Datetime) → Validated m → with_revocation m now ≡ ok (revoke m now)
unfolding with_revocation
with_revocation-eq m now v =
    let (guards, same) = Validated-guards m v in
    build (mandate_guards (revoke m now)) (normalize_mandate (revoke m now)) guards
    ∙ ap (λ x. ok (revoke x now)) same

pub with_revocation-ok :
    (m : PaymentMandate) (now : Datetime) {m' : PaymentMandate}
    → Validated m
    → with_revocation m now ≡ ok m'
    → Validated m' × (m' ≡ revoke m now)
unfolding with_revocation
with_revocation-ok m now v h =
    let same = (Validated-guards m v).1 in
    let e = (built (mandate_guards (revoke m now)) (normalize_mandate (revoke m now)) h).1 in
    (make_mandate-Validated (revoke m now) h, sym e ∙ ap (λ x. revoke x now) same)
