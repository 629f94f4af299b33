-- ===== src/Base/Int.antt =====
-- Python's unbounded signed integers over the native numbers, with floor division.
use adx_agentic_payment.Base.Tests.{if◌then◌else◌, ltb, leb, Eq}
use Prim.Native.Nat.{ℕ, suc, ◌+◌, ◌-◌, ◌*◌, ◌/◌, ◌≤◌}
use mathlib.Core.Path.{◌≡◌, refl}
use mathlib.Core.Logic.{◌↔◌}
use mathlib.Core.Bool.{Bool, true, ◌&&◌}
use native.Mathlib.Omega.{arith}

-- `negsuc n` is -(n + 1).
pub data ℤ : Type 0 where
  pos : ℕ → ℤ
  negsuc : ℕ → ℤ

abbrev pub pos_part : ℤ → ℕ
pos_part (pos n) = n
pos_part (negsuc n) = 0

abbrev pub neg_part : ℤ → ℕ
neg_part (pos n) = 0
neg_part (negsuc n) = suc n

abbrev pub sub_ℕ : ℕ → ℕ → ℤ
sub_ℕ a b = if leb b a then pos (a - b) else negsuc (b - a - 1)

infixl 65 ◌+ℤ◌ ◌-ℤ◌
infixl 70 ◌*ℤ◌
infix 50 ◌≤ℤ◌ ◌<ℤ◌
unfoldable pub ◌+ℤ◌ : ℤ → ℤ → ℤ
a +ℤ b = sub_ℕ (pos_part a + pos_part b) (neg_part a + neg_part b)

unfoldable pub ◌-ℤ◌ : ℤ → ℤ → ℤ
a -ℤ b = sub_ℕ (pos_part a + neg_part b) (neg_part a + pos_part b)

unfoldable pub ◌*ℤ◌ : ℤ → ℤ → ℤ
a *ℤ b =
    sub_ℕ (pos_part a * pos_part b + neg_part a * neg_part b)
      (pos_part a * neg_part b + neg_part a * pos_part b)

abbrev pub ◌≤ℤ◌ : ℤ → ℤ → Type 0
a ≤ℤ b = pos_part a + neg_part b ≤ pos_part b + neg_part a

abbrev pub ◌<ℤ◌ : ℤ → ℤ → Type 0
a <ℤ b = suc (pos_part a + neg_part b) ≤ pos_part b + neg_part a

abbrev pub ltb_ℤ : ℤ → ℤ → Bool
ltb_ℤ a b = ltb (pos_part a + neg_part b) (pos_part b + neg_part a)

abbrev pub leb_ℤ : ℤ → ℤ → Bool
leb_ℤ a b = leb (pos_part a + neg_part b) (pos_part b + neg_part a)

abbrev pub eqb_ℤ : ℤ → ℤ → Bool
eqb_ℤ a b = leb_ℤ a b && leb_ℤ b a

pub eqb_ℤ_iff : (a b : ℤ) → (eqb_ℤ a b ≡ true) ↔ (a ≡ b)
eqb_ℤ_iff a b = ground arith

instance abbrev pub int_eq : Eq ℤ
int_eq = record {
  same = eqb_ℤ;
  reflexive = λ a. (eqb_ℤ_iff a a).1 refl;
  exact = λ a b. (eqb_ℤ_iff a b).0;
}

-- `max(a, b)` and `min(a, b)`.
abbrev pub max_ℤ : ℤ → ℤ → ℤ
max_ℤ a b = if ltb_ℤ a b then b else a

abbrev pub min_ℤ : ℤ → ℤ → ℤ
min_ℤ a b = if ltb_ℤ b a then b else a

-- `a // d` for a positive divisor: rounds towards minus infinity.
abbrev pub floor_div : ℤ → ℕ → ℤ
floor_div (pos n) d = pos (n / d)
floor_div (negsuc n) d = negsuc (n / d)

pub +ℤ_parts :
    (a b : ℤ)
    → pos_part (a +ℤ b) + neg_part a + neg_part b ≡ neg_part (a +ℤ b) + pos_part a + pos_part b
unfolding ◌+ℤ◌
+ℤ_parts a b = ground arith

pub -ℤ_parts :
    (a b : ℤ)
    → pos_part (a -ℤ b) + neg_part a + pos_part b ≡ neg_part (a -ℤ b) + pos_part a + neg_part b
unfolding ◌-ℤ◌
-ℤ_parts a b = ground arith

pub eq_of_parts : (a b : ℤ) → pos_part a + neg_part b ≡ pos_part b + neg_part a → a ≡ b
eq_of_parts a b h = ground arith

pub ruleset int_laws = (arith, +ℤ_parts, -ℤ_parts, eq_of_parts)

pub *ℤ_pos : (a b : ℕ) → pos a *ℤ pos b ≡ pos (a * b)
unfolding ◌*ℤ◌
*ℤ_pos a b = ground arith

pub +ℤ_pos : (a b : ℕ) → pos a +ℤ pos b ≡ pos (a + b)
unfolding ◌+ℤ◌
+ℤ_pos a b = ground arith

pub parts_of_eq : (a b : ℤ) → a ≡ b → pos_part a + neg_part b ≡ pos_part b + neg_part a
parts_of_eq a b h = rw h

-- A figure that equals a sum still does after both exchange `x` for `y`.
pub balance : (m m' s s' x y : ℤ) → m ≡ s → s' +ℤ x ≡ s +ℤ y → m' +ℤ x ≡ m +ℤ y → m' ≡ s'
balance m m' s s' x y h k l = eq_of_parts m' s' (
    omega (
      arith,
      +ℤ_parts,
      parts_of_eq m s h,
      parts_of_eq (s' +ℤ x) (s +ℤ y) k,
      parts_of_eq (m' +ℤ x) (m +ℤ y) l,
    ))

pub balance_new : (m m' s s' y : ℤ) → m ≡ s → s' ≡ s +ℤ y → m' ≡ m +ℤ y → m' ≡ s'
balance_new m m' s s' y h k l = eq_of_parts m' s' (
    omega
      (arith, +ℤ_parts, parts_of_eq m s h, parts_of_eq s' (s +ℤ y) k, parts_of_eq m' (m +ℤ y) l))

pub add_nothing : (m y : ℤ) → y ≡ pos 0 → m ≡ m +ℤ y
add_nothing m y h = rw h (eq_of_parts m (m +ℤ pos 0) (omega (arith, +ℤ_parts)))

pub sub-add : (m a : ℤ) → m -ℤ a +ℤ a ≡ m +ℤ pos 0
sub-add m a = eq_of_parts (m -ℤ a +ℤ a) (m +ℤ pos 0) (omega (arith, +ℤ_parts, -ℤ_parts))

pub add_nothing_right : (m : ℤ) → m +ℤ pos 0 ≡ m
add_nothing_right m = eq_of_parts (m +ℤ pos 0) m (omega (arith, +ℤ_parts))
