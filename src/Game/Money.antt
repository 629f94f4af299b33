-- ===== src/Game/Money.antt =====
-- arena_game/money.py: adjusting amounts of atomic gold by basis points.
pub mod Rounding
use adx_agentic_payment.Base.{
  ℕ, ◌^◌, ◌-◌, Bool, ◌||◌, List, [], ◌∷◌, Result, ok, err, checks, and_then, if◌then◌else◌,
}
use adx_agentic_payment.Base.Int.{ℤ, pos, negsuc, ◌+ℤ◌, ◌*ℤ◌, ltb_ℤ, floor_div}

-- `MoneyError`, by its messages.
pub data MoneyError : Type 0 where
  negative_value basis_points_range result_range : MoneyError

-- `MAX_GOLD_ATOMIC`.
abbrev pub max_gold_atomic : ℤ
max_gold_atomic = pos 99999999999999999999999999999999999999

abbrev pub bps_guards : ℤ → ℤ → List (Bool × MoneyError)
bps_guards value bps =
    (ltb_ℤ value (pos 0), negative_value)
    ∷ (ltb_ℤ bps (negsuc 9999) || ltb_ℤ (pos 1000000) bps, basis_points_range)
    ∷ []

abbrev pub adjusted : ℤ → ℤ → ℤ
adjusted value bps = floor_div (value *ℤ (pos 10000 +ℤ bps) +ℤ pos 5000) 10000

abbrev pub in_range : ℤ → Result MoneyError ℤ
in_range result =
    if ltb_ℤ result (pos 0) || ltb_ℤ max_gold_atomic result then err result_range else ok result

unfoldable pub apply_basis_points : ℤ → ℤ → Result MoneyError ℤ
apply_basis_points value bps =
    and_then (checks (bps_guards value bps)) (λ _. in_range (adjusted value bps))
