-- ===== src/Base/Tests.antt =====
-- Boolean tests on numbers and texts, the conditional, and splits on computed values.
use Prim.Native.Nat.{ℕ, compare, Ordering}
use Prim.Native.String.{String}
use mathlib.Core.Path.{◌≡◌, refl, sym, subst}
use mathlib.Core.Logic.{◌≢◌, ◌↔◌, ◌⊎◌, inl, inr}
use mathlib.Core.Bool.{Bool, true, false}
use mathlib.Core.Option.{Option, none, some}
use native.Mathlib.Omega.{arith}
use text.Mathlib.Text.{◌==◌ as text_eq}
use text.Mathlib.TextEquality.{eq_iff}

abbrev pub ltb : ℕ → ℕ → Bool
ltb a b = elim (compare a b) [ Ordering.lt ↦ true | _ ↦ false ]

abbrev pub leb : ℕ → ℕ → Bool
leb a b = elim (compare a b) [ Ordering.gt ↦ false | _ ↦ true ]

abbrev nat_beq : ℕ → ℕ → Bool
nat_beq a b = elim (compare a b) [ Ordering.eq ↦ true | _ ↦ false ]

infix 1 if◌then◌else◌
abbrev pub if◌then◌else◌ {ℓ} : {A : Type ℓ} → Bool → A → A → A
if true then x else y = x
if false then x else y = y

pub nat_beq_iff : (a b : ℕ) → (nat_beq a b ≡ true) ↔ (a ≡ b)
nat_beq_iff a b = ground arith

pub Bool-cases : (b : Bool) → (b ≡ true) ⊎ (b ≡ false)
Bool-cases true = inl refl
Bool-cases false = inr refl

pub Option-cases {ℓ} : {A : Type ℓ} (o : Option A) → (o ≡ none) ⊎ ((a : A) × (o ≡ some a))
Option-cases none = inl refl
Option-cases (some a) = inr (a, refl)

pub some_inj {ℓ} : {A : Type ℓ} {a b : A} → some a ≡ some b → a ≡ b
some_inj e = cc

-- A type whose values the program compares by `==`: the test finds equal exactly what is equal.
pub record Eq {ℓ} (A : Type ℓ) : Type ℓ where
  pub same : A → A → Bool
  pub reflexive : (x : A) → same x x ≡ true
  pub exact : (x y : A) → same x y ≡ true → x ≡ y

infix 50 ◌==◌
abbrev pub ◌==◌ {ℓ} : {A : Type ℓ} ⦃keys : Eq A⦄ → A → A → Bool
◌==◌ ⦃keys⦄ = keys.same

instance abbrev pub nat_eq : Eq ℕ
nat_eq = record {
  same = nat_beq;
  reflexive = λ n. (nat_beq_iff n n).1 refl;
  exact = λ n m. (nat_beq_iff n m).0;
}

instance abbrev pub string_eq : Eq String
string_eq = record {
  same = text_eq;
  reflexive = λ s. (eq_iff s s).1 refl;
  exact = λ s t. (eq_iff s t).0;
}

module _ {ℓ} {A : Type ℓ} ⦃e : Eq A⦄ where
  pub ==_iff : (a b : A) → ((a == b) ≡ true) ↔ (a ≡ b)
  ==_iff a b = (e.exact a b, λ p. subst (λ x. e.same a x ≡ true) p (e.reflexive a))

  pub ==_refl : (a : A) → (a == a) ≡ true
  ==_refl a = e.reflexive a

  pub ==_sym : (a b : A) → (a == b) ≡ false → (b == a) ≡ false
  ==_sym a b h = elim (Bool-cases (b == a)) [
    | inl e ↦ cc (h, (==_iff a b).1 (sym ((==_iff b a).0 e)))
    | inr e ↦ e
  ]

  pub ==_false : (a b : A) → a ≢ b → (a == b) ≡ false
  ==_false a b h = elim (Bool-cases (a == b)) [ inl e ↦ absurd (h ((==_iff a b).0 e)) | inr e ↦ e ]

-- `a == b` on optional values: `None` equals only `None`.
abbrev option_beq {ℓ} : {A : Type ℓ} ⦃e : Eq A⦄ → Option A → Option A → Bool
option_beq none none = true
option_beq none (some b) = false
option_beq (some a) none = false
option_beq (some a) (some b) = a == b

pub option_beq_iff {ℓ} :
    {A : Type ℓ} ⦃e : Eq A⦄ (a b : Option A) → (option_beq a b ≡ true) ↔ (a ≡ b)
option_beq_iff none none = ((λ _. refl), (λ _. refl))
option_beq_iff none (some b) = ((λ h. cc), (λ h. cc))
option_beq_iff (some a) none = ((λ h. cc), (λ h. cc))
option_beq_iff (some a) (some b) = ground (arith, ==_iff a b)

instance abbrev pub option_eq {ℓ} : {A : Type ℓ} ⦃e : Eq A⦄ → Eq (Option A)
option_eq = record {
  same = option_beq;
  reflexive = λ o. (option_beq_iff o o).1 refl;
  exact = λ o p. (option_beq_iff o p).0;
}

abbrev pub is_none {ℓ} : {A : Type ℓ} → Option A → Bool
is_none none = true
is_none (some a) = false

-- The test that a decision answers `no`.
module _ {ℓ} {A : Type ℓ} where
  abbrev pub refuted : Dec A → Bool
  refuted (yes p) = false
  refuted (no p) = true

  pub refuted_false : (d : Dec A) → refuted d ≡ false → A
  refuted_false (yes p) h = p
  refuted_false (no p) h = cc

pub String-discrete : Discrete String
String-discrete a b = elim (Bool-cases (a == b)) [
  | inl e ↦ yes ((==_iff a b).0 e)
  | inr e ↦ no (λ p. cc (e, (==_iff a b).1 p))
]
