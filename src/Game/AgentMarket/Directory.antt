-- ===== src/Game/AgentMarket/Directory.antt =====
-- What `public_directory` shows to a buyer.
pub mod Offers
use adx_agentic_payment.Base.{
  ℕ, suc, ◌≤◌, String, string_eq, Bool, true, false, not, ◌≡◌, ◌↔◌, refl, sym, ap, inl, inr, some,
  List, [], ◌∷◌, All, All-imp, select, ok, Option-cases, Bool-cases, arith, ok_inj,
}
use mathlib.Core.Path.{subst}
use mathlib.Core.List.{Mem, Perm}
use mathlib.Core.List.Perm
use adx_agentic_payment.Game.AgentMarket.Directory.Offers.{Offered, mem_eligible_iff}
use adx_agentic_payment.Base.Dict
use adx_agentic_payment.Base.Dict.{Dict}
use adx_agentic_payment.Base.Sort.{sort_by, sort_by-perm, sort_by-All}
use adx_agentic_payment.Payments.Models.{Datetime, at_most, earlier}
use adx_agentic_payment.Game.Market.{is_buy}
use adx_agentic_payment.Game.AgentMarket.Terms.{AgentMarketError, AgentMarketIntent}
use adx_agentic_payment.Game.AgentMarket.State.{AgentDrivenMarket, slot_eq}
use adx_agentic_payment.Game.AgentMarket.Publishing.{
  is_eligible, earliest, intent_first, directory_of, public_directory,
}

-- The directory of a buyer: all offers to the buyer and no others, and a time after the
-- observation at which none of them, nor the buyer's own intent, has expired.
pub record Directory (m : AgentDrivenMarket) (requester : AgentMarketIntent) (at : Datetime)
    (entries : List AgentMarketIntent) (expiry : Datetime) : Type 0 where
  pub buys : is_buy requester.side ≡ true
  pub offers : (i : AgentMarketIntent) → Mem i entries ↔ Offered m requester at i
  pub each_once : Perm entries (select (is_eligible m requester at) (Dict.values m.intents))
  pub own : expiry.instant ≤ requester.expires_at.instant
  pub alive : All (λ i. expiry.instant ≤ i.expires_at.instant) entries
  pub later : suc at.instant ≤ expiry.instant

select-passes : {A : Type 0} (p : A → Bool) (xs : List A) → All (λ x. p x ≡ true) (select p xs)
select-passes p [] = tt
select-passes p (x ∷ xs) = elim (Bool-cases (p x)) [
  | inl e ↦ rw e (e, select-passes p xs)
  | inr e ↦ rw e (select-passes p xs)
]

earliest-own : (d : Datetime) (is : List AgentMarketIntent) → (earliest d is).instant ≤ d.instant
earliest-own d [] = omega arith
earliest-own d (i ∷ is) = elim (Bool-cases (earlier i.expires_at d)) [
  | inl sooner ↦ rw sooner (ground (arith, sooner, earliest-own i.expires_at is))
  | inr no_sooner ↦ rw no_sooner (earliest-own d is)
]

earliest-alive :
    (d : Datetime) (is : List AgentMarketIntent)
    → All (λ i. (earliest d is).instant ≤ i.expires_at.instant) is
earliest-alive d [] = tt
earliest-alive d (i ∷ is) = elim (Bool-cases (earlier i.expires_at d)) [
  | inl sooner ↦
      let eq : earliest d (i ∷ is) ≡ earliest i.expires_at is = rw sooner refl in
      subst (λ x. All (λ j. x.instant ≤ j.expires_at.instant) (i ∷ is)) (sym eq)
        (earliest-own i.expires_at is, earliest-alive i.expires_at is)
  | inr no_sooner ↦
      let eq : earliest d (i ∷ is) ≡ earliest d is = rw no_sooner refl in
      subst (λ x. All (λ j. x.instant ≤ j.expires_at.instant) (i ∷ is)) (sym eq)
        (ground (arith, no_sooner, earliest-own d is), earliest-alive d is)
]

earliest-later :
    (n : ℕ) (d : Datetime) (is : List AgentMarketIntent)
    → suc n ≤ d.instant
    → All (λ i. suc n ≤ i.expires_at.instant) is
    → suc n ≤ (earliest d is).instant
earliest-later n d [] h all = h
earliest-later n d (i ∷ is) h all = elim (Bool-cases (earlier i.expires_at d)) [
  | inl sooner ↦ rw sooner (earliest-later n i.expires_at is all.0 all.1)
  | inr no_sooner ↦ rw no_sooner (earliest-later n d is h all.1)
]

unexpired :
    (m : AgentDrivenMarket) (requester : AgentMarketIntent) (at : Datetime) (i : AgentMarketIntent)
    → is_eligible m requester at i ≡ true
    → suc at.instant ≤ i.expires_at.instant
unexpired m requester at i h = ground arith

not-false : (b : Bool) → not b ≡ false → b ≡ true
not-false true h = refl
not-false false h = cc

directory_of-Directory :
    (m : AgentDrivenMarket) (requester : AgentMarketIntent) (at : Datetime)
    → is_buy requester.side ≡ true
    → at_most requester.expires_at at ≡ false
    → Directory m requester at
        (directory_of requester
          (sort_by intent_first (select (is_eligible m requester at) (Dict.values m.intents)))).0
        (directory_of requester
          (sort_by intent_first (select (is_eligible m requester at) (Dict.values m.intents)))).1
directory_of-Directory m requester at buys live =
    let chosen : List AgentMarketIntent =
      select (is_eligible m requester at) (Dict.values m.intents) in
    let found : List AgentMarketIntent = sort_by intent_first chosen in
    let fit =
      sort_by-All intent_first (λ i. is_eligible m requester at i ≡ true) chosen
        (select-passes (is_eligible m requester at) (Dict.values m.intents)) in
    record {
      buys = buys;
      offers = λ i.
          let sorted = Perm.mem_iff {a = i} (sort_by-perm intent_first chosen) in
          let offered = mem_eligible_iff m requester at i in
          (λ h. offered.0 (sorted.0 h), λ o. sorted.1 (offered.1 o));
      each_once = sort_by-perm intent_first chosen;
      own = earliest-own requester.expires_at found;
      alive = earliest-alive requester.expires_at found;
      later =
          earliest-later at.instant requester.expires_at found (ground (arith, live))
            (All-imp (unexpired m requester at) found fit);
    }

-- When the directory returns, the requester is a stored buyer's intent and the market is as it was. The
-- entries are exactly the stored intents that sell the requester's good in its game and round, of
-- another participant, not expired at the observation, at no more than the requester's limit, with a
-- slot that is not reserved, each once for each time it is stored. The expiry is after the observation and at or before that of every
-- entry and of the requester.
pub public_directory_lists :
    (m m' : AgentDrivenMarket) (id : String) (at : Datetime) (entries : List AgentMarketIntent)
    (expiry : Datetime)
    → public_directory id at m ≡ (ok (entries, expiry), m')
    → (m' ≡ m)
      × ((requester : AgentMarketIntent) × (Dict.get m.intents id ≡ some requester)
          × Directory m requester at entries expiry)
unfolding public_directory
public_directory_lists m m' id at entries expiry h = elim (Bool-cases (not at.aware)) [
  | inl naive ↦ cc (rw naive at h)
  | inr aware ↦ elim (Option-cases (Dict.get m.intents id)) [
    | inl none_ ↦ cc (rw (aware, none_) at h)
    | inr (requester, there) ↦ elim (Bool-cases (not (is_buy requester.side))) [
      | inl sells ↦ cc (rw (aware, there, sells) at h)
      | inr buys ↦ elim (Bool-cases (at_most requester.expires_at at)) [
        | inl gone ↦ cc (rw (aware, there, buys, gone) at h)
        | inr live ↦
            let shown = rw (aware, there, buys, live) at h in
            let found : List AgentMarketIntent =
              sort_by intent_first (select (is_eligible m requester at) (Dict.values m.intents)) in
            let same : directory_of requester found ≡ (entries, expiry) =
              ok_inj {E = AgentMarketError} (ap (λ r. r.0) shown) in
            (
              sym (ap (λ r. r.1) shown),
              (
                requester,
                there,
                subst (λ p. Directory m requester at p.0 p.1) same
                    (directory_of-Directory m requester at (not-false (is_buy requester.side) buys)
                      live),
              ),
            )
      ]
    ]
  ]
]
