-- ===== src/Game/Events/Bounds.antt =====
-- How far the market's feedback moves prices.
use adx_agentic_payment.Base.{
  ℕ, ◌+◌, ◌*◌, ◌/◌, ◌-◌, ◌≤◌, Option, none, some, List, [], ◌∷◌, ok, ◌≡◌, refl, ◌⊎◌, ap, sym, ◌∙◌,
  inl, inr, Bool-cases, Result-cases, arith,
}
use adx_agentic_payment.Base.Int.{
  ℤ, pos, negsuc, ◌+ℤ◌, ◌*ℤ◌, ◌≤ℤ◌, ltb_ℤ, max_ℤ, floor_div, *ℤ_pos, +ℤ_pos,
}
use mathlib.Core.Path.{subst}
use adx_agentic_payment.Game.Goods.{GoodId, ByGood, good_ids, set_good}
use adx_agentic_payment.Game.Money.{max_gold_atomic, apply_basis_points}
use adx_agentic_payment.Game.Money.Rounding.{Natural, apply_basis_points-Natural}
use native.Mathlib.Nat.{mul-le-mul_left}
use adx_agentic_payment.Game.Events.{
  WorldSnapshot, anchor, clamp, pressure_of, pressure_effect, fed_price, feed_goods,
  apply_market_feedback,
}

-- One step of the loop over the goods.
feed_goods-step :
    (g : GoodId) (gs : List GoodId) (last pressure : GoodId → Option ℤ) (prices out : ByGood ℤ)
    → feed_goods (g ∷ gs) last pressure prices ≡ ok out
    → (x : ℤ) × (fed_price (prices g) (last g) (pressure g) ≡ ok x)
      × (feed_goods gs last pressure (set_good prices g x) ≡ ok out)
unfolding feed_goods
feed_goods-step g gs last pressure prices out h =
    elim (Result-cases (fed_price (prices g) (last g) (pressure g))) [
      | inl (x, e) ↦ (x, e, rw (e, feed_goods) at h)
      | inr (x, e) ↦ cc (rw (e, feed_goods) at h)
    ]

feed_goods-all :
    (last pressure : GoodId → Option ℤ) (prices out : ByGood ℤ)
    → feed_goods good_ids last pressure prices ≡ ok out
    → (g : GoodId) → fed_price (prices g) (last g) (pressure g) ≡ ok (out g)
unfolding feed_goods
feed_goods-all last pressure prices out h g =
    let (x1, e1, h1) =
      feed_goods-step GoodId.grain (GoodId.iron ∷ GoodId.warhorse ∷ GoodId.gems ∷ []) last pressure
        prices out h in
    let p1 : ByGood ℤ = set_good prices GoodId.grain x1 in
    let (x2, e2, h2) =
      feed_goods-step GoodId.iron (GoodId.warhorse ∷ GoodId.gems ∷ []) last pressure p1 out h1 in
    let p2 : ByGood ℤ = set_good p1 GoodId.iron x2 in
    let (x3, e3, h3) = feed_goods-step GoodId.warhorse (GoodId.gems ∷ []) last pressure p2 out h2 in
    let p3 : ByGood ℤ = set_good p2 GoodId.warhorse x3 in
    let (x4, e4, h4) = feed_goods-step GoodId.gems [] last pressure p3 out h3 in
    let same : set_good p3 GoodId.gems x4 ≡ out = cc h4 in by_good x1 x2 x3 x4 e1 e2 e3 e4 same g
  where
    by_good :
        (x1 x2 x3 x4 : ℤ)
        → fed_price (prices GoodId.grain) (last GoodId.grain) (pressure GoodId.grain) ≡ ok x1
        → fed_price (prices GoodId.iron) (last GoodId.iron) (pressure GoodId.iron) ≡ ok x2
        → fed_price (prices GoodId.warhorse) (last GoodId.warhorse) (pressure GoodId.warhorse)
          ≡ ok x3
        → fed_price (prices GoodId.gems) (last GoodId.gems) (pressure GoodId.gems) ≡ ok x4
        → set_good
            (set_good
              (set_good (set_good prices GoodId.grain x1) GoodId.iron x2)
              GoodId.warhorse
              x3)
            GoodId.gems
            x4
          ≡ out
        → (g : GoodId) → fed_price (prices g) (last g) (pressure g) ≡ ok (out g)
    by_good x1 x2 x3 x4 e1 e2 e3 e4 same GoodId.grain = e1 ∙ ap (λ f. ok (f GoodId.grain)) same
    by_good x1 x2 x3 x4 e1 e2 e3 e4 same GoodId.iron = e2 ∙ ap (λ f. ok (f GoodId.iron)) same
    by_good x1 x2 x3 x4 e1 e2 e3 e4 same GoodId.warhorse =
        e3 ∙ ap (λ f. ok (f GoodId.warhorse)) same
    by_good x1 x2 x3 x4 e1 e2 e3 e4 same GoodId.gems = e4 ∙ ap (λ f. ok (f GoodId.gems)) same

clamp-within :
    (low high x : ℤ) → low ≤ℤ high → (low ≤ℤ clamp low high x) × (clamp low high x ≤ℤ high)
clamp-within low high x h = (ground arith, ground arith)

-- A factor between 8000 and 12000.
times_factor : (n m : ℕ) → 8000 ≤ m → m ≤ 12000 → (8000 * n ≤ n * m) × (n * m ≤ 12000 * n)
times_factor n m low high =
    let a = mul-le-mul_left n low in let b = mul-le-mul_left n high in (omega arith, omega arith)

factor_of :
    (e : ℤ)
    → negsuc 1999 ≤ℤ e
    → e ≤ℤ pos 2000
    → (m : ℕ) × (pos 10000 +ℤ e ≡ pos m) × (8000 ≤ m) × (m ≤ 12000)
unfolding ◌+ℤ◌
factor_of (pos n) low high = (10000 + n, ground arith, omega arith, omega arith)
factor_of (negsuc n) low high = (10000 - n - 1, ground arith, omega arith, omega arith)

-- A price after the feedback, from the price `a` that it starts from: at least one, within the
-- bound, and within a fifth of `a`, up to rounding.
pub record WithinFifth (a x : ℤ) : Type 0 where
  pub positive : pos 1 ≤ℤ x
  pub bounded : x ≤ℤ max_gold_atomic
  pub above : pos 8000 *ℤ a ≤ℤ pos 10000 *ℤ x +ℤ pos 5000
  pub below : pos 10000 *ℤ x ≤ℤ pos 12000 *ℤ a +ℤ pos 10000

pos_inj : {a b : ℕ} → pos a ≡ pos b → a ≡ b
pos_inj e = cc

at_least_one :
    (a r e : ℤ) → negsuc 1999 ≤ℤ e → e ≤ℤ pos 2000 → Natural a e r → WithinFifth a (max_ℤ (pos 1) r)
unfolding ◌+ℤ◌ ◌*ℤ◌
at_least_one a r e low high p =
    let (m, em, lo, hi) = factor_of e low high in
    let same : p.scale ≡ m = pos_inj (sym p.scale_eq ∙ em) in
    let (t, u) = times_factor p.value p.scale (rw same lo) (rw same hi) in
    let q = (p.value * p.scale + 5000) / 10000 in
    let top : pos q ≤ℤ max_gold_atomic =
      subst (λ x. x ≤ℤ max_gold_atomic) p.result_eq p.at_most_max in
    elim (Bool-cases (ltb_ℤ (pos 1) (pos q))) [
      | inl more ↦
          rw (p.result_eq, p.value_eq, more)
            (record {
              positive = ground (arith, more);
              bounded = top;
              above =
                  rw (*ℤ_pos 8000 p.value, *ℤ_pos 10000 q, +ℤ_pos (10000 * q) 5000) (omega arith);
              below =
                  rw (*ℤ_pos 12000 p.value, *ℤ_pos 10000 q, +ℤ_pos (12000 * p.value) 10000)
                    (omega arith);
            })
      | inr few ↦
          let small : q ≤ 1 = ground (arith, few) in
          rw (p.result_eq, p.value_eq, few)
            (record {
              positive = omega arith;
              bounded = omega arith;
              above = rw (*ℤ_pos 8000 p.value) (omega arith);
              below = rw (*ℤ_pos 12000 p.value, +ℤ_pos (12000 * p.value) 10000) (omega arith);
            })
    ]

fed_price-WithinFifth :
    (price : ℤ) (last pressure : Option ℤ) (x : ℤ)
    → fed_price price last pressure ≡ ok x
    → WithinFifth (anchor price last) x × ((v : ℕ) × (anchor price last ≡ pos v))
fed_price-WithinFifth price last pressure x h =
    elim (Result-cases (apply_basis_points (anchor price last) (pressure_effect pressure))) [
      | inl (r, e) ↦
          let (low, high) =
            clamp-within (negsuc 1999) (pos 2000)
              (floor_div (clamp (negsuc 9999) (pos 10000) (pressure_of pressure)) 5)
              (omega arith) in
          let n = apply_basis_points-Natural (anchor price last) (pressure_effect pressure) r e in
          (
            subst (WithinFifth (anchor price last)) (cc (rw e at h))
                (at_least_one (anchor price last) r (pressure_effect pressure) low high n),
            (n.value, n.value_eq),
          )
      | inr (f, e) ↦ cc (rw e at h)
    ]

-- No trade with a positive price came before.
abbrev pub Untraded : Option ℤ → Type 0
Untraded last = (last ≡ none) ⊎ ((l : ℤ) × (last ≡ some l) × (l ≤ℤ pos 0))

-- A price `x` that the feedback makes of an event price and the last clearing price. Without a
-- positive last price it is within a fifth of the event price; with one it is within a fifth of
-- their mean, weighted three to one: four times `x` is compared with the weighted sum. Both are up
-- to rounding.
pub data FedFrom (price : ℤ) (last : Option ℤ) (x : ℤ) : Type 0 where
  alone : Untraded last → WithinFifth price x → FedFrom price last x
  mixed :
      (l : ℤ)
      → last ≡ some l
      → pos 1 ≤ℤ l
      → pos 1 ≤ℤ x
      → x ≤ℤ max_gold_atomic
      → pos 8000 *ℤ (price *ℤ pos 3 +ℤ l) ≤ℤ pos 40000 *ℤ x +ℤ pos 44000
      → pos 40000 *ℤ x ≤ℤ pos 12000 *ℤ (price *ℤ pos 3 +ℤ l) +ℤ pos 40000
      → FedFrom price last x

-- The bounds by the quarter of a sum, as bounds by the sum.
quarter_bounds :
    (t x : ℤ) (v : ℕ)
    → floor_div t 4 ≡ pos v
    → WithinFifth (floor_div t 4) x
    → (pos 8000 *ℤ t ≤ℤ pos 40000 *ℤ x +ℤ pos 44000)
      × (pos 40000 *ℤ x ≤ℤ pos 12000 *ℤ t +ℤ pos 40000)
quarter_bounds (negsuc n) x v e w = cc
quarter_bounds (pos n) (negsuc y) v e w = absurd (omega (arith, w.positive))
quarter_bounds (pos n) (pos y) v e w =
    let low = rw (*ℤ_pos 8000 (n / 4), *ℤ_pos 10000 y, +ℤ_pos (10000 * y) 5000) at w.above in
    let high =
      rw (*ℤ_pos 12000 (n / 4), *ℤ_pos 10000 y, +ℤ_pos (12000 * (n / 4)) 10000) at w.below in
    (
      rw (*ℤ_pos 8000 n, *ℤ_pos 40000 y, +ℤ_pos (40000 * y) 44000) (omega arith),
      rw (*ℤ_pos 12000 n, *ℤ_pos 40000 y, +ℤ_pos (12000 * n) 40000) (omega arith),
    )

fed_price-FedFrom :
    (price : ℤ) (last pressure : Option ℤ) (x : ℤ)
    → fed_price price last pressure ≡ ok x
    → FedFrom price last x
fed_price-FedFrom price none pressure x h =
    alone (inl refl) (fed_price-WithinFifth price none pressure x h).0
fed_price-FedFrom price (some l) pressure x h =
    let (w, v) = fed_price-WithinFifth price (some l) pressure x h in
    elim (Bool-cases (ltb_ℤ (pos 0) l)) [
      | inr not_positive ↦
          alone (inr (l, refl, ground (arith, not_positive)))
            (subst (λ a. WithinFifth a x) (rw not_positive refl) w)
      | inl traded ↦
          let start : anchor price (some l) ≡ floor_div (price *ℤ pos 3 +ℤ l) 4 = rw traded refl in
          let w' : WithinFifth (floor_div (price *ℤ pos 3 +ℤ l) 4) x =
            subst (λ a. WithinFifth a x) start w in
          let (low, high) = quarter_bounds (price *ℤ pos 3 +ℤ l) x v.0 (sym start ∙ v.1) w' in
          mixed l refl (ground (arith, traded)) w.positive w.bounded low high
    ]

-- When the feedback returns a snapshot, each market price is at least one and within the bound of
-- amounts. For a good without a positive last clearing price it is within twenty percent of its
-- price in the given snapshot; for one with such a price it is within twenty percent of the mean of
-- the two, weighted three to one. Both are up to rounding.
pub apply_market_feedback_within :
    (s s' : WorldSnapshot) (last pressure : GoodId → Option ℤ) (g : GoodId)
    → apply_market_feedback s last pressure ≡ ok s'
    → FedFrom (s.prices.market_prices g) (last g) (s'.prices.market_prices g)
unfolding apply_market_feedback
apply_market_feedback_within s s' last pressure g h =
    elim (Result-cases (feed_goods good_ids last pressure s.prices.market_prices)) [
      | inl (out, e) ↦
          let same : record s { prices = record s.prices { market_prices = out } } ≡ s' =
            cc (rw e at h) in
          subst (λ w. FedFrom (s.prices.market_prices g) (last g) (w.prices.market_prices g)) same
            (fed_price-FedFrom (s.prices.market_prices g) (last g) (pressure g) (out g)
              (feed_goods-all last pressure s.prices.market_prices out e g))
      | inr (f, e) ↦ cc (rw e at h)
    ]
