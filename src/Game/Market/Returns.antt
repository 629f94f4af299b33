-- ===== src/Game/Market/Returns.antt =====
-- When the pairing returns at all.
use adx_agentic_payment.Base.{
  ℕ, suc, String, Bool, true, false, List, [], ◌∷◌, ◌++◌, ==_false, string_eq, nat_eq, All, All-imp,
  select, ◌∙◌, ◌≡◌, ◌≢◌, refl, ap, sym, inl, inr, Option-cases, ok, AllPass, AllPass-checks, arith,
}
use adx_agentic_payment.Base.Int.{pos, leb_ℤ, min_ℤ}
use mathlib.Core.Path.{subst}
use adx_agentic_payment.Game.Market.{
  GoodId, PoolEntry, Pairing, of_good, entered_first, queue, pop_compatible, pairing_of, pair_one,
  pair_buyers, good_ids, pair_goods, fcfs_guards, fcfs_pair, is_buy,
}
use adx_agentic_payment.Game.Market.Pairs.{pop-Popped, All-middle, All-both, select-All, select-sub}
use adx_agentic_payment.Base.Sort.{sort_by-All}

pair_one-returns :
    (g : GoodId) (b s : PoolEntry) (n : ℕ)
    → b.participant_id ≢ s.participant_id
    → leb_ℤ b.quantity (pos 0) ≡ false
    → leb_ℤ s.quantity (pos 0) ≡ false
    → pair_one g b s n ≡ ok (pairing_of g b s n)
pair_one-returns g b s n d qb qs =
    let e = ==_false b.participant_id s.participant_id d in
    let q : leb_ℤ (min_ℤ b.quantity s.quantity) (pos 0) ≡ false = ground (arith, qb, qs) in
    rw (e, q) refl

-- A positive entry whose participant is on the side that `role` gives.
abbrev pub HasRole : (String → Bool) → PoolEntry → Type 0
HasRole role e = (leb_ℤ e.quantity (pos 0) ≡ false) × (role e.participant_id ≡ is_buy e.side)

-- One that is on a given side.
abbrev Stays : (String → Bool) → Bool → PoolEntry → Type 0
Stays role buying e = (leb_ℤ e.quantity (pos 0) ≡ false) × (role e.participant_id ≡ buying)

stays :
    (role : String → Bool) (g : GoodId) (buying : Bool) (e : PoolEntry)
    → HasRole role e
    → of_good g buying e ≡ true
    → Stays role buying e
stays role g true e h c = (h.0, h.1 ∙ ground (arith, c))
stays role g false e h c = (h.0, h.1 ∙ ground (arith, c))

queue-Stays :
    (role : String → Bool) (es : List PoolEntry) (g : GoodId) (buying : Bool)
    → All (HasRole role) es
    → All (Stays role buying) (queue g buying es)
queue-Stays role es g buying h =
    sort_by-All entered_first (Stays role buying) (select (of_good g buying) es) (
      All-imp (λ e x. stays role g buying e x.0 x.1) (select (of_good g buying) es)
        (All-both (HasRole role) (λ e. of_good g buying e ≡ true) (select (of_good g buying) es)
          (select-sub (HasRole role) (of_good g buying) es h) (select-All (of_good g buying) es)))

module _ (role : String → Bool) where
  pair_buyers-returns :
      (g : GoodId) (buyers sellers : List PoolEntry) (n : ℕ)
      → All (Stays role true) buyers
      → All (Stays role false) sellers
      → (ps : List Pairing) × (pair_buyers g buyers sellers n ≡ ok ps)
  unfolding pair_buyers
  pair_buyers-returns g [] sellers n hb hs = ([], refl)
  pair_buyers-returns g (b ∷ bs) sellers n hb hs = elim (Option-cases (pop_compatible b sellers)) [
    | inl e ↦
        let (ps, f) = pair_buyers-returns g bs sellers n hb.1 hs in (ps, rw (e, pair_buyers) f)
    | inr (found, e) ↦
        let p = pop-Popped b sellers found.0 found.1 e in
        let (here, others) =
          All-middle (Stays role false) p.before p.after found.0
            (subst (All (Stays role false)) p.split hs) in
        let (ps, f) =
          pair_buyers-returns g bs found.1 (suc n) hb.1
            (subst (All (Stays role false)) (sym p.others) others) in
        let one =
          pair_one-returns g b found.0 (suc n) (λ same. cc (hb.0.1, here.1, ap role same)) hb.0.0
            here.0 in
        (pairing_of g b found.0 (suc n) ∷ ps, rw (e, pair_buyers) (rw (one, f) refl))
  ]

  pair_goods-returns :
      (es : List PoolEntry) (gs : List GoodId)
      → All (HasRole role) es
      → (ps : List Pairing) × (pair_goods es gs ≡ ok ps)
  unfolding pair_goods
  pair_goods-returns es [] h = ([], refl)
  pair_goods-returns es (g ∷ gs) h =
      let (ps, e) =
        pair_buyers-returns g (queue g true es) (queue g false es) 0 (queue-Stays role es g true h)
          (queue-Stays role es g false h) in
      let (qs, f) = pair_goods-returns es gs h in (ps ++ qs, rw (e, f) refl)

  -- The pairing of a pool returns when the entry ids differ, all entries are of one game round, the
  -- quantities are positive, and no participant both buys and sells: a role tells its side.
  pub fcfs_pair_returns :
      (es : List PoolEntry)
      → AllPass (fcfs_guards es)
      → All (HasRole role) es
      → (ps : List Pairing) × (fcfs_pair es ≡ ok ps)
  unfolding fcfs_pair
  fcfs_pair_returns [] pass h = ([], refl)
  fcfs_pair_returns (e ∷ es) pass h =
      let (ps, f) = pair_goods-returns (e ∷ es) good_ids h in
      (ps, rw (AllPass-checks (fcfs_guards (e ∷ es)) pass) f)
