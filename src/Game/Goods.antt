-- ===== src/Game/Goods.antt =====
-- arena_game/goods.py: the four goods. A dict with exactly these keys is a function on them.
use adx_agentic_payment.Base.{
  ℕ, String, Bool, List, [], ◌∷◌, ◌==◌, ==_iff, nat_eq, string_eq, if◌then◌else◌, ◌≡◌, refl, sym,
  ap, ◌∙◌, true,
}
use adx_agentic_payment.Base.Int.{ℤ, pos}

-- `GoodId`.
pub data GoodId : Type 0 where
  grain iron warhorse gems : GoodId

abbrev pub good_code : GoodId → ℕ
good_code GoodId.grain = 0
good_code GoodId.iron = 1
good_code GoodId.warhorse = 2
good_code GoodId.gems = 3

abbrev pub good_name : GoodId → String
good_name GoodId.grain = "grain"
good_name GoodId.iron = "iron"
good_name GoodId.warhorse = "warhorse"
good_name GoodId.gems = "gems"

abbrev pub same_good : GoodId → GoodId → Bool
same_good a b = good_code a == good_code b

-- `GOOD_IDS`.
abbrev pub good_ids : List GoodId
good_ids = GoodId.grain ∷ GoodId.iron ∷ GoodId.warhorse ∷ GoodId.gems ∷ []

-- A dict with the four goods as its keys, and `d[good] = value`.
abbrev pub ByGood : Type 0 → Type 0
ByGood A = GoodId → A

abbrev pub set_good : {A : Type 0} → ByGood A → GoodId → A → ByGood A
set_good d good value g = if same_good g good then value else d g

-- `INITIAL_PRICES`, in atomic units of gold.
abbrev pub initial_prices : ByGood ℤ
initial_prices GoodId.grain = pos 2000000
initial_prices GoodId.iron = pos 5000000
initial_prices GoodId.warhorse = pos 8000000
initial_prices GoodId.gems = pos 3000000

-- The good of a code.
good_with_code : ℕ → GoodId
good_with_code n =
    if n == 0
    then GoodId.grain
    else if n == 1
    then GoodId.iron
    else if n == 2
    then GoodId.warhorse
    else GoodId.gems

good_with_code-good_code : (a : GoodId) → good_with_code (good_code a) ≡ a
unfolding good_with_code
good_with_code-good_code GoodId.grain = refl
good_with_code-good_code GoodId.iron = refl
good_with_code-good_code GoodId.warhorse = refl
good_with_code-good_code GoodId.gems = refl

pub same_good_exact : (a b : GoodId) → same_good a b ≡ true → a ≡ b
same_good_exact a b h =
    sym (good_with_code-good_code a)
    ∙ ap good_with_code ((==_iff (good_code a) (good_code b)).0 h)
    ∙ good_with_code-good_code b
