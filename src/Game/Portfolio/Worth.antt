-- ===== src/Game/Portfolio/Worth.antt =====
-- The value of the portfolios that the program makes.
use adx_agentic_payment.Base.{
  ℕ, suc, String, string_eq, true, false, some, List, [], ◌∷◌, ok, ◌≡◌, refl, ◌∙◌, inl, inr,
  Bool-cases, has_duplicates, contains, ◌⊎◌, ◌==◌,
}
use adx_agentic_payment.Base.Int.{◌+ℤ◌, ◌-ℤ◌, ◌*ℤ◌, int_eq}
use adx_agentic_payment.Base.Dict
use adx_agentic_payment.Base.Dict.{Dict}
use adx_agentic_payment.Game.Goods.{GoodId, initial_prices}
use adx_agentic_payment.Game.Portfolio.{
  Portfolio, initial_net_worth_atomic, normalize_holdings, normalize_goods, portfolio_value,
  initial, net_worth, one_unit, seeded_good, distribute_from, distribute_balanced_portfolios,
}

-- The portfolio with one unit of a good and the rest of twenty gold in cash.
abbrev pub balanced : GoodId → Portfolio
balanced g = record {
  cash_atomic = initial_net_worth_atomic -ℤ initial_prices g;
  holdings = one_unit g;
}

balanced-initial :
    (g : GoodId)
    → initial (initial_net_worth_atomic -ℤ initial_prices g) (one_unit g) initial_prices
      ≡ ok (balanced g)
unfolding initial portfolio_value normalize_holdings normalize_goods Dict.get Dict.find_in ◌+ℤ◌ ◌-ℤ◌
    ◌*ℤ◌ Dict.put
balanced-initial GoodId.grain = refl
balanced-initial GoodId.iron = refl
balanced-initial GoodId.warhorse = refl
balanced-initial GoodId.gems = refl

balanced-worth : (g : GoodId) → net_worth (balanced g) initial_prices ≡ ok initial_net_worth_atomic
unfolding net_worth portfolio_value normalize_holdings normalize_goods Dict.get Dict.find_in ◌+ℤ◌
    ◌-ℤ◌ ◌*ℤ◌ Dict.put
balanced-worth GoodId.grain = refl
balanced-worth GoodId.iron = refl
balanced-worth GoodId.warhorse = refl
balanced-worth GoodId.gems = refl

-- An agent whose portfolio in a dict is worth twenty gold at the initial prices.
pub record HasTwenty (d : Dict String Portfolio) (agent_id : String) : Type 0 where
  pub portfolio : Portfolio
  pub found : Dict.get d agent_id ≡ some portfolio
  pub worth_twenty : net_worth portfolio initial_prices ≡ ok initial_net_worth_atomic

put-HasTwenty :
    (d : Dict String Portfolio) (a x : String) (g : GoodId) (rest : List String)
    → (contains (a ∷ rest) x ≡ true) ⊎ HasTwenty d x
    → (contains rest x ≡ true) ⊎ HasTwenty (Dict.put d a (balanced g)) x
put-HasTwenty d a x g rest h = elim (Bool-cases (a == x)) [
  | inl same ↦ inr (record {
    portfolio = balanced g;
    found = Dict.get-put d a x (balanced g) ∙ rw same refl;
    worth_twenty = balanced-worth g;
  })
  | inr other ↦ elim h [
    | inl c ↦ inl (rw other at c)
    | inr t ↦ inr (record {
      portfolio = t.portfolio;
      found = Dict.get-put d a x (balanced g) ∙ rw other t.found;
      worth_twenty = t.worth_twenty;
    })
  ]
]

module _ (digest : String → ℕ) where
  distribute_from-HasTwenty :
      (agents : List String) (index : ℕ) (seed : String) (done : Dict String Portfolio)
      → (out : Dict String Portfolio) × (distribute_from digest agents index seed initial_prices
            done
          ≡ ok out)
        × ((x : String) → (contains agents x ≡ true) ⊎ HasTwenty done x → HasTwenty out x)
  unfolding distribute_from
  distribute_from-HasTwenty [] index seed done =
      (done, refl, λ x h. elim h [ inl c ↦ cc | inr t ↦ t ])
  distribute_from-HasTwenty (a ∷ rest) index seed done =
      let g = seeded_good digest seed a index in
      let (out, e, f) =
        distribute_from-HasTwenty rest (suc index) seed (Dict.put done a (balanced g)) in
      (out, rw (balanced-initial g) e, λ x h. f x (put-HasTwenty done a x g rest h))

  -- For agent ids without repetition and the initial prices, the distribution returns, whatever the
  -- digests, and each of the agents has a portfolio that is worth exactly twenty gold.
  pub distribute_balanced_portfolios_worth :
      (agents : List String) (seed : String)
      → has_duplicates agents ≡ false
      → (out : Dict String Portfolio) × (distribute_balanced_portfolios digest agents seed
            initial_prices
          ≡ ok out)
        × ((x : String) → contains agents x ≡ true → HasTwenty out x)
  unfolding distribute_balanced_portfolios
  distribute_balanced_portfolios_worth agents seed h =
      let (out, e, f) = distribute_from-HasTwenty agents 0 seed Dict.empty in
      (out, rw h e, λ x c. f x (inl c))
