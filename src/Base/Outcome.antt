-- ===== src/Base/Outcome.antt =====
-- Python's exceptions as values: fallible functions, methods that mutate an object and may raise,
-- and a sequence of guards.
use mathlib.Core.Path.{◌≡◌, refl, subst}
use mathlib.Core.Logic.{◌⊎◌, inl, inr}
use mathlib.Core.Bool.{Bool, true, false}
use mathlib.Core.List.{List, [], ◌∷◌}
use mathlib.Core.Option.{Option, none, some}
use adx_agentic_payment.Base.Tests.{if◌then◌else◌}
use adx_agentic_payment.Base.Lists.{All}

pub data Result {ℓ κ} (E : Type ℓ) (A : Type κ) : Type (ℓ ⊔ κ) where
  ok : A → Result E A
  err : E → Result E A

pub Result-cases {ℓ κ} :
    {E : Type ℓ} {A : Type κ} (r : Result E A) → ((a : A) × (r ≡ ok a)) ⊎ ((e : E) × (r ≡ err e))
Result-cases (ok a) = inl (a, refl)
Result-cases (err e) = inr (e, refl)

pub err_inj {ℓ κ} :
    {E : Type ℓ} {A : Type κ} {e f : E} → ◌≡◌ {A = Result E A} (err e) (err f) → e ≡ f
err_inj h = cc

pub ok_inj {ℓ κ} : {E : Type ℓ} {A : Type κ} {a b : A} → ◌≡◌ {A = Result E A} (ok a) (ok b) → a ≡ b
ok_inj h = cc

module _ {ℓ κ μ} {E : Type ℓ} {A : Type κ} {B : Type μ} where
  abbrev pub and_then : Result E A → (A → Result E B) → Result E B
  and_then (ok a) f = f a
  and_then (err e) f = err e

-- A method: what was written before a raise stays written, so the state comes back with the error.
abbrev pub Action {ℓ} : Type ℓ → Type ℓ → Type ℓ → Type ℓ
Action S E A = S → Result E A × S

module _ {ℓ} {S E A : Type ℓ} where
  abbrev pub pure : A → Action S E A
  pure a s = (ok a, s)

  abbrev pub raise : E → Action S E A
  raise e s = (err e, s)

  abbrev pub lift : Result E A → Action S E A
  lift r s = (r, s)

  abbrev pub gets : (S → A) → Action S E A
  gets f s = (ok (f s), s)

  abbrev pub or_raise : Option A → E → Action S E A
  or_raise none e s = (err e, s)
  or_raise (some a) e s = (ok a, s)

module _ {ℓ} {S E : Type ℓ} where
  abbrev pub modify : (S → S) → Action S E Unit
  modify f s = (ok tt, f s)

  abbrev pub raise_if : Bool → E → Action S E Unit
  raise_if c e s = (if c then err e else ok tt, s)

module _ {ℓ} {S E A B : Type ℓ} where
  abbrev pub resume : Result E A → (A → Action S E B) → Action S E B
  resume (ok a) f s = f a s
  resume (err e) f s = (err e, s)

  infixl 5 ◌>>=◌ ◌>>◌
  abbrev pub ◌>>=◌ : Action S E A → (A → Action S E B) → Action S E B
  ◌>>=◌ m f s = let (r, s') = m s in resume r f s'

  abbrev pub ◌>>◌ : Action S E A → Action S E B → Action S E B
  m >> k = m >>= λ _. k

-- `if c: raise e`, one after the other: the first guard whose test is true raises its error.
module _ {ℓ} {E : Type ℓ} where
  unfoldable pub checks : List (Bool × E) → Result E (Unit {0})
  checks [] = ok tt
  checks ((c, e) ∷ rest) = let later = checks rest in if c then err e else later

  abbrev pub AllPass : List (Bool × E) → Type 0
  AllPass [] = Unit
  AllPass ((c, e) ∷ rest) = (c ≡ false) × AllPass rest

  pub checks-AllPass : (guards : List (Bool × E)) → checks guards ≡ ok tt → AllPass guards
  unfolding checks
  checks-AllPass [] h = tt
  checks-AllPass ((true, e) ∷ rest) h = cc
  checks-AllPass ((false, e) ∷ rest) h = (refl, checks-AllPass rest h)

  pub AllPass-checks : (guards : List (Bool × E)) → AllPass guards → checks guards ≡ ok tt
  unfolding checks
  AllPass-checks [] h = refl
  AllPass-checks ((true, e) ∷ rest) h = cc
  AllPass-checks ((false, e) ∷ rest) h = AllPass-checks rest h.1

pub checks_err {ℓ κ} :
    {E : Type ℓ} (P : E → Type κ) (guards : List (Bool × E)) (e : E)
    → All (λ g. P g.1) guards
    → checks guards ≡ err e
    → P e
unfolding checks
checks_err P [] e h k = cc
checks_err P ((true, f) ∷ rest) e h k = subst P (err_inj {A = Unit {0}} k) h.0
checks_err P ((false, f) ∷ rest) e h k = checks_err P rest e h.1 k

-- A constructor that runs its guards and then returns a value.
module _ {ℓ κ} {E : Type ℓ} {A : Type κ} where
  pub built :
      (guards : List (Bool × E)) (a : A) {b : A}
      → and_then (checks guards) (λ _. ok a) ≡ ok b
      → AllPass guards × (a ≡ b)
  built guards a {b} h = go (checks guards) refl h
    where
      go :
          (r : Result E (Unit {0}))
          → checks guards ≡ r
          → and_then r (λ _. ok a) ≡ ok b
          → AllPass guards × (a ≡ b)
      go (ok tt) e h = (checks-AllPass guards e, cc)
      go (err x) e h = cc

  pub built_err {μ} :
      (P : E → Type μ) (guards : List (Bool × E)) (a : A) (e : E)
      → All (λ g. P g.1) guards
      → and_then (checks guards) (λ _. ok a) ≡ err e
      → P e
  built_err P guards a e errors h = elim (Result-cases (checks guards)) [
    | inl (u, pass) ↦ cc (rw pass at h)
    | inr (x, raised) ↦
        subst P (err_inj {A = A} (rw raised at h)) (checks_err P guards x errors raised)
  ]

  pub build :
      (guards : List (Bool × E)) (a : A)
      → AllPass guards
      → and_then (checks guards) (λ _. ok a) ≡ ok a
  build guards a h = rw (AllPass-checks guards h) refl
