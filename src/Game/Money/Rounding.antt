-- ===== src/Game/Money/Rounding.antt =====
-- Rounding and bounds of an adjustment.
use adx_agentic_payment.Base.{
  ℕ, ◌+◌, ◌*◌, ◌/◌, ◌-◌, true, false, ◌||◌, ok, checks, checks-AllPass, AllPass, ◌≡◌, refl, ◌∙◌,
  inl, inr, Bool-cases, Result-cases, arith,
}
use adx_agentic_payment.Base.Int.{ℤ, pos, negsuc, ◌+ℤ◌, ◌*ℤ◌, ◌≤ℤ◌, ◌<ℤ◌, ltb_ℤ, *ℤ_pos, +ℤ_pos}
use adx_agentic_payment.Game.Money.{
  max_gold_atomic, bps_guards, adjusted, in_range, apply_basis_points,
}

passed :
    (v bps r : ℤ)
    → apply_basis_points v bps ≡ ok r
    → AllPass (bps_guards v bps) × (in_range (adjusted v bps) ≡ ok r)
unfolding apply_basis_points
passed v bps r h = elim (Result-cases (checks (bps_guards v bps))) [
  | inl (u, e) ↦ (checks-AllPass (bps_guards v bps) e, rw e at h)
  | inr (x, e) ↦ cc (rw e at h)
]

in_range-ok : (x r : ℤ) → in_range x ≡ ok r → (r ≡ x) × (pos 0 ≤ℤ x) × (x ≤ℤ max_gold_atomic)
in_range-ok x r h = elim (Bool-cases (ltb_ℤ x (pos 0) || ltb_ℤ max_gold_atomic x)) [
  | inl e ↦ cc (rw e at h)
  | inr e ↦ (cc (rw e at h), ground arith, ground arith)
]

-- A value as a natural number, and the factor as one.
natural : (v : ℤ) → ltb_ℤ v (pos 0) ≡ false → (n : ℕ) × (v ≡ pos n)
natural (pos n) h = (n, refl)
natural (negsuc n) h = cc (show n)
  where
    show : (n : ℕ) → ltb_ℤ (negsuc n) (pos 0) ≡ true
    show n = ground arith

factor :
    (bps : ℤ)
    → (ltb_ℤ bps (negsuc 9999) || ltb_ℤ (pos 1000000) bps) ≡ false
    → (m : ℕ) × (pos 10000 +ℤ bps ≡ pos m)
unfolding ◌+ℤ◌
factor (pos n) h = (10000 + n, ground arith)
factor (negsuc n) h = (10000 - n - 1, ground arith)

-- An adjustment that returns, on natural numbers.
pub record Natural (v bps r : ℤ) : Type 0 where
  pub value : ℕ
  pub scale : ℕ
  pub value_eq : v ≡ pos value
  pub scale_eq : pos 10000 +ℤ bps ≡ pos scale
  pub result_eq : r ≡ pos ((value * scale + 5000) / 10000)
  pub at_most_max : r ≤ℤ max_gold_atomic

pub apply_basis_points-Natural : (v bps r : ℤ) → apply_basis_points v bps ≡ ok r → Natural v bps r
apply_basis_points-Natural v bps r h =
    let (g, e) = passed v bps r h in
    let (same, low, high) = in_range-ok (adjusted v bps) r e in
    let (n, ev) = natural v g.0 in
    let (m, em) = factor bps g.1.0 in
    record {
      value = n;
      scale = m;
      value_eq = ev;
      scale_eq = em;
      result_eq = same ∙ rw (ev, em, *ℤ_pos n m, +ℤ_pos (n * m) 5000) refl;
      at_most_max = rw same high;
    }

-- An adjustment that returns is rounded half up, is not negative and is within the bound: ten
-- thousand times the result is at most the product plus a half unit, which is less than ten
-- thousand times the next result.
pub apply_basis_points_rounds :
    (v bps r : ℤ)
    → apply_basis_points v bps ≡ ok r
    → (pos 0 ≤ℤ r)
      × (r ≤ℤ max_gold_atomic)
      × (pos 10000 *ℤ r ≤ℤ v *ℤ (pos 10000 +ℤ bps) +ℤ pos 5000)
      × (v *ℤ (pos 10000 +ℤ bps) +ℤ pos 5000 <ℤ pos 10000 *ℤ (r +ℤ pos 1))
apply_basis_points_rounds v bps r h =
    let a = apply_basis_points-Natural v bps r h in
    let k = a.value * a.scale in
    let q = (k + 5000) / 10000 in
    (
      rw a.result_eq (omega arith),
      a.at_most_max,
      rw
          (
            a.result_eq,
            a.value_eq,
            a.scale_eq,
            *ℤ_pos a.value a.scale,
            +ℤ_pos k 5000,
            *ℤ_pos 10000 q,
          )
          (omega arith),
      rw
          (
            a.result_eq,
            a.value_eq,
            a.scale_eq,
            *ℤ_pos a.value a.scale,
            +ℤ_pos k 5000,
            +ℤ_pos q 1,
            *ℤ_pos 10000 (q + 1),
          )
          (omega arith),
    )
