-- ===== src/Game/Market/Pairs.antt =====
-- What the pairing returns: the entries that pairings are made of, and how often each is used.
pub mod Made
use adx_agentic_payment.Base.{
  ℕ, suc, ◌+◌, ◌≤◌, String, Bool, true, false, some, List, [], ◌∷◌, ◌++◌, ◌==◌, ==_iff, nat_eq,
  string_eq, option_eq, contains, has_duplicates, select, map, arith, All, All-imp, All-append, ◌⊎◌,
  Option, none, not, ◌&&◌, ◌≡◌, ◌≢◌, refl, ap, sym, ◌∙◌, inl, inr, Bool-cases, Result-cases,
  Option-cases, some_inj, if◌then◌else◌, ok, checks, checks-AllPass,
}
use adx_agentic_payment.Base.Int.{ℤ, pos, ◌≤ℤ◌, leb_ℤ, ltb_ℤ, min_ℤ}
use adx_agentic_payment.Base.Sort.{insert_by, sort_by, sort_by-All}
use mathlib.Core.List.{Mem, mem-cons}
use mathlib.Core.Logic.Or
use mathlib.Core.Path.{subst}
use adx_agentic_payment.Game.Goods.{same_good, same_good_exact}
use adx_agentic_payment.Game.Market.{
  GoodId, MarketSide, PoolEntry, Pairing, limits_overlap, entered_first, of_good, queue,
  pop_compatible, pairing_of, pair_one, pair_buyers, good_ids, is_buy, overlap, pair_goods,
  fcfs_guards, fcfs_pair,
}
use adx_agentic_payment.Game.Market.Pairs.Made.{Stands, IsPair, pairing_of-IsPair}

-- How many of the entries have an id.
abbrev pub entries_with : String → List PoolEntry → ℕ
entries_with id [] = 0
entries_with id (e ∷ es) = (if e.pool_entry_id == id then 1 else 0) + entries_with id es

-- How often pairings name an id.
abbrev pub uses_of : String → List Pairing → ℕ
uses_of id [] = 0
uses_of id (p ∷ ps) =
    (if p.buyer_entry_id == id then 1 else 0)
    + (if p.seller_entry_id == id then 1 else 0)
    + uses_of id ps

uses_of-append :
    (id : String) (ps qs : List Pairing) → uses_of id (ps ++ qs) ≡ uses_of id ps + uses_of id qs
uses_of-append id [] qs = omega arith
uses_of-append id (p ∷ ps) qs = omega (arith, uses_of-append id ps qs)

entries_with-append :
    (id : String) (xs ys : List PoolEntry)
    → entries_with id (xs ++ ys) ≡ entries_with id xs + entries_with id ys
entries_with-append id [] ys = omega arith
entries_with-append id (x ∷ xs) ys = omega (arith, entries_with-append id xs ys)

entries_with-insert :
    (id : String) (x : PoolEntry) (xs : List PoolEntry)
    → entries_with id (insert_by entered_first x xs) ≡ entries_with id (x ∷ xs)
unfolding insert_by
entries_with-insert id x [] = refl
entries_with-insert id x (y ∷ ys) = elim (Bool-cases (entered_first x y)) [
  | inl e ↦ rw e refl
  | inr e ↦ let rest = entries_with-insert id x ys in rw (e, rest) (omega arith)
]

entries_with-sort :
    (id : String) (xs : List PoolEntry)
    → entries_with id (sort_by entered_first xs) ≡ entries_with id xs
unfolding sort_by
entries_with-sort id [] = refl
entries_with-sort id (x ∷ xs) =
    entries_with-insert id x (sort_by entered_first xs)
    ∙ ap (λ n. (if x.pool_entry_id == id then 1 else 0) + n) (entries_with-sort id xs)

-- The seller that is popped is the first whose limit overlaps.
pub record Popped (b : PoolEntry) (sellers : List PoolEntry) (s : PoolEntry) (rest : List PoolEntry)
    : Type 0 where
  pub before : List PoolEntry
  pub after : List PoolEntry
  pub split : sellers ≡ before ++ s ∷ after
  pub others : rest ≡ before ++ after
  pub fits : limits_overlap b s ≡ true
  pub skipped : All (λ t. limits_overlap b t ≡ false) before

pub pop-Popped :
    (b : PoolEntry) (sellers : List PoolEntry) (s : PoolEntry) (rest : List PoolEntry)
    → pop_compatible b sellers ≡ some (s, rest)
    → Popped b sellers s rest
unfolding pop_compatible
pop-Popped b [] s rest h = cc
pop-Popped b (t ∷ ts) s rest h = elim (Bool-cases (limits_overlap b t)) [
  | inl e ↦
      let same = some_inj (rw e at h) in
      let seller : t ≡ s = ap (λ x. x.0) same in
      record {
        before = [];
        after = ts;
        split = ap (λ x. x ∷ ts) seller;
        others = sym (ap (λ x. x.1) same);
        fits = subst (λ x. limits_overlap b x ≡ true) seller e;
        skipped = tt;
      }
  | inr e ↦ elim (Option-cases (pop_compatible b ts)) [
    | inl n ↦ cc (rw (e, n) at h)
    | inr (found, n) ↦
        let same = some_inj (rw (e, n) at h) in
        let p = pop-Popped b ts found.0 found.1 n in
        let seller : found.0 ≡ s = ap (λ x. x.0) same in
        record {
          before = t ∷ p.before;
          after = p.after;
          split = ap (λ x. t ∷ x) (p.split ∙ ap (λ x. p.before ++ x ∷ p.after) seller);
          others = sym (ap (λ x. x.1) same) ∙ ap (λ x. t ∷ x) p.others;
          fits = subst (λ x. limits_overlap b x ≡ true) seller p.fits;
          skipped = (e, p.skipped);
        }
  ]
]

pop-entries :
    (b : PoolEntry) (sellers : List PoolEntry) (s : PoolEntry) (rest : List PoolEntry) (id : String)
    → Popped b sellers s rest
    → entries_with id sellers ≡ (if s.pool_entry_id == id then 1 else 0) + entries_with id rest
pop-entries b sellers s rest id p =
    rw (p.split, p.others)
      (omega (
        arith,
        entries_with-append id p.before (s ∷ p.after),
        entries_with-append id p.before p.after,
      ))

pub All-middle {ℓ κ} :
    {A : Type ℓ} (P : A → Type κ) (xs ys : List A) (y : A)
    → All P (xs ++ y ∷ ys)
    → P y × All P (xs ++ ys)
All-middle P [] ys y h = (h.0, h.1)
All-middle P (x ∷ xs) ys y h = let (a, b) = All-middle P xs ys y h.1 in (a, (h.0, b))

pair_one-ok :
    (g : GoodId) (b s : PoolEntry) (n : ℕ) (p : Pairing)
    → pair_one g b s n ≡ ok p
    → (p ≡ pairing_of g b s n)
      × (b.participant_id ≢ s.participant_id)
      × (leb_ℤ p.quantity (pos 0) ≡ false)
pair_one-ok g b s n p h = elim (Bool-cases (b.participant_id == s.participant_id)) [
  | inl e ↦ cc (rw e at h)
  | inr e ↦ elim (Bool-cases (leb_ℤ (min_ℤ b.quantity s.quantity) (pos 0))) [
    | inl z ↦ cc (rw (e, z) at h)
    | inr z ↦
        let same : pairing_of g b s n ≡ p = cc (rw (e, z) at h) in
        (
          sym same,
          (λ q. cc (e, (==_iff b.participant_id s.participant_id).1 q)),
          subst (λ x. leb_ℤ x.quantity (pos 0) ≡ false) same z,
        )
  ]
]

-- One step of the loop over buyers.
data Paired (g : GoodId) (b : PoolEntry) (bs sellers : List PoolEntry) (n : ℕ) (ps : List Pairing)
    : Type 0 where
  skips : pair_buyers g bs sellers n ≡ ok ps → Paired g b bs sellers n ps
  pairs :
      (s : PoolEntry) (rest : List PoolEntry) (p : Pairing) (qs : List Pairing)
      → Popped b sellers s rest
      → pair_one g b s (suc n) ≡ ok p
      → pair_buyers g bs rest (suc n) ≡ ok qs
      → ps ≡ p ∷ qs
      → Paired g b bs sellers n ps

pair_buyers-step :
    (g : GoodId) (b : PoolEntry) (bs sellers : List PoolEntry) (n : ℕ) (ps : List Pairing)
    → pair_buyers g (b ∷ bs) sellers n ≡ ok ps
    → Paired g b bs sellers n ps
unfolding pair_buyers
pair_buyers-step g b bs sellers n ps h = elim (Option-cases (pop_compatible b sellers)) [
  | inl e ↦ skips (rw (e, pair_buyers) at h)
  | inr (found, e) ↦ elim (Result-cases (pair_one g b found.0 (suc n))) [
    | inr (x, f) ↦ cc (rw (e, f, pair_buyers) at h)
    | inl (p, f) ↦ elim (Result-cases (pair_buyers g bs found.1 (suc n))) [
      | inr (x, k) ↦ cc (rw (e, f, k, pair_buyers) at h)
      | inl (qs, k) ↦
          pairs found.0 found.1 p qs (pop-Popped b sellers found.0 found.1 e) f k
            (cc (rw (e, f, k, pair_buyers) at h))
    ]
  ]
]

pair_buyers-uses :
    (g : GoodId) (buyers sellers : List PoolEntry) (n : ℕ) (ps : List Pairing) (id : String)
    → pair_buyers g buyers sellers n ≡ ok ps
    → uses_of id ps ≤ entries_with id buyers + entries_with id sellers
unfolding pair_buyers
pair_buyers-uses g [] sellers n ps id h =
    let none_made : [] ≡ ps = cc in
    subst (λ x. uses_of id x ≤ 0 + entries_with id sellers) none_made (omega arith)
pair_buyers-uses g (b ∷ bs) sellers n ps id h = elim (pair_buyers-step g b bs sellers n ps h) [
  | skips k ↦ let ih = pair_buyers-uses g bs sellers n ps id k in omega arith
  | pairs s rest p qs popped one k e ↦
      let ih = pair_buyers-uses g bs rest (suc n) qs id k in
      let made = (pair_one-ok g b s (suc n) p one).0 in
      let taken = pop-entries b sellers s rest id popped in
      let buys : p.buyer_entry_id ≡ b.pool_entry_id = ap (λ x. x.buyer_entry_id) made in
      let sells : p.seller_entry_id ≡ s.pool_entry_id = ap (λ x. x.seller_entry_id) made in
      rw (e, buys, sells) (omega arith)
]

pair_buyers-IsPair :
    (g : GoodId) (es buyers sellers : List PoolEntry) (n : ℕ) (ps : List Pairing)
    → All (Stands es g true) buyers
    → All (Stands es g false) sellers
    → pair_buyers g buyers sellers n ≡ ok ps
    → All (IsPair es) ps
unfolding pair_buyers
pair_buyers-IsPair g es [] sellers n ps hb hs h =
    let none_made : [] ≡ ps = cc in subst (All (IsPair es)) none_made tt
pair_buyers-IsPair g es (b ∷ bs) sellers n ps hb hs h =
    elim (pair_buyers-step g b bs sellers n ps h) [
      | skips k ↦ pair_buyers-IsPair g es bs sellers n ps hb.1 hs k
      | pairs s rest p qs popped one k e ↦
          let (made, different, positive) = pair_one-ok g b s (suc n) p one in
          let (here, others) =
            All-middle (Stands es g false) popped.before popped.after s
              (subst (All (Stands es g false)) popped.split hs) in
          subst (All (IsPair es)) (sym e) (
            subst (IsPair es) (sym made) (
                pairing_of-IsPair g es b s (suc n) hb.0 here popped.fits different
                  (subst (λ x. leb_ℤ x.quantity (pos 0) ≡ false) made positive)),
            pair_buyers-IsPair g es bs rest (suc n) qs hb.1
                (subst (All (Stands es g false)) (sym popped.others) others) k,
          )
    ]

-- The entries of one good and side, over the eight lists that the loop makes.
slots : String → List GoodId → List PoolEntry → ℕ
slots id [] es = 0
slots id (g ∷ gs) es =
    entries_with id (queue g true es) + entries_with id (queue g false es) + slots id gs es

pair_goods-uses :
    (es : List PoolEntry) (gs : List GoodId) (ps : List Pairing) (id : String)
    → pair_goods es gs ≡ ok ps
    → uses_of id ps ≤ slots id gs es
unfolding pair_goods slots
pair_goods-uses es [] ps id h =
    let none_made : [] ≡ ps = cc in subst (λ x. uses_of id x ≤ 0) none_made (omega arith)
pair_goods-uses es (g ∷ gs) ps id h =
    elim (Result-cases (pair_buyers g (queue g true es) (queue g false es) 0)) [
      | inr (x, e) ↦ cc (rw e at h)
      | inl (front, e) ↦ elim (Result-cases (pair_goods es gs)) [
        | inr (x, f) ↦ cc (rw (e, f) at h)
        | inl (rest, f) ↦
            let whole : front ++ rest ≡ ps = cc (rw (e, f) at h) in
            let one = pair_buyers-uses g (queue g true es) (queue g false es) 0 front id e in
            let more = pair_goods-uses es gs rest id f in
            subst (λ x. uses_of id x ≤ slots id (g ∷ gs) es) whole
              (omega (arith, uses_of-append id front rest))
      ]
    ]

-- An entry stands in at most one of the eight lists.
module _ (id : String) where
  -- How many entries of a good and side have the id.
  part : GoodId → Bool → List PoolEntry → ℕ
  part g buying es = entries_with id (select (of_good g buying) es)

  parts-cons :
      (e : PoolEntry) (good : GoodId) (side : MarketSide) (es : List PoolEntry)
      → e.good ≡ good
      → e.side ≡ side
      → part GoodId.grain true (e ∷ es)
          + part GoodId.grain false (e ∷ es)
          + (part GoodId.iron true (e ∷ es) + part GoodId.iron false (e ∷ es))
          + (part GoodId.warhorse true (e ∷ es)
              + part GoodId.warhorse false (e ∷ es)
              + (part GoodId.gems true (e ∷ es) + part GoodId.gems false (e ∷ es)))
        ≡ (if e.pool_entry_id == id then 1 else 0)
          + (part GoodId.grain true es
              + part GoodId.grain false es
              + (part GoodId.iron true es + part GoodId.iron false es)
              + (part GoodId.warhorse true es
                  + part GoodId.warhorse false es
                  + (part GoodId.gems true es + part GoodId.gems false es)))
  unfolding part
  parts-cons e GoodId.grain MarketSide.buy es g s = rw (g, s) (omega arith)
  parts-cons e GoodId.grain MarketSide.sell es g s = rw (g, s) (omega arith)
  parts-cons e GoodId.iron MarketSide.buy es g s = rw (g, s) (omega arith)
  parts-cons e GoodId.iron MarketSide.sell es g s = rw (g, s) (omega arith)
  parts-cons e GoodId.warhorse MarketSide.buy es g s = rw (g, s) (omega arith)
  parts-cons e GoodId.warhorse MarketSide.sell es g s = rw (g, s) (omega arith)
  parts-cons e GoodId.gems MarketSide.buy es g s = rw (g, s) (omega arith)
  parts-cons e GoodId.gems MarketSide.sell es g s = rw (g, s) (omega arith)

  parts_sum :
      (es : List PoolEntry)
      → part GoodId.grain true es
          + part GoodId.grain false es
          + (part GoodId.iron true es + part GoodId.iron false es)
          + (part GoodId.warhorse true es
              + part GoodId.warhorse false es
              + (part GoodId.gems true es + part GoodId.gems false es))
        ≡ entries_with id es
  unfolding part
  parts_sum [] = omega arith
  parts_sum (e ∷ es) =
      parts-cons e e.good e.side es refl refl
      ∙ ap (λ n. (if e.pool_entry_id == id then 1 else 0) + n) (parts_sum es)

  part-queue :
      (g : GoodId) (buying : Bool) (es : List PoolEntry)
      → entries_with id (queue g buying es) ≡ part g buying es
  unfolding part
  part-queue g buying es = entries_with-sort id (select (of_good g buying) es)

  -- An entry stands in one of the eight lists.
  slots-entries : (es : List PoolEntry) → slots id good_ids es ≡ entries_with id es
  unfolding slots
  slots-entries es =
      rw
        (
          part-queue GoodId.grain true es,
          part-queue GoodId.grain false es,
          part-queue GoodId.iron true es,
          part-queue GoodId.iron false es,
          part-queue GoodId.warhorse true es,
          part-queue GoodId.warhorse false es,
          part-queue GoodId.gems true es,
          part-queue GoodId.gems false es,
        )
        (omega (arith, parts_sum es))

  no_entry :
      (es : List PoolEntry)
      → contains (map (λ e. e.pool_entry_id) es) id ≡ false
      → entries_with id es ≡ 0
  no_entry [] h = refl
  no_entry (e ∷ es) h = ground (arith, no_entry es)

at_most_one :
    (id : String) (es : List PoolEntry)
    → has_duplicates (map (λ e. e.pool_entry_id) es) ≡ false
    → entries_with id es ≤ 1
at_most_one id [] h = omega arith
at_most_one id (e ∷ es) h =
    elim (Bool-cases (contains (map (λ x. x.pool_entry_id) es) e.pool_entry_id)) [
      | inl c ↦ cc (rw c at h)
      | inr c ↦ elim (Bool-cases (e.pool_entry_id == id)) [
        | inl same ↦
            let gone = no_entry e.pool_entry_id es c in
            let gone' : entries_with id es ≡ 0 =
              subst (λ x. entries_with x es ≡ 0) ((==_iff e.pool_entry_id id).0 same) gone in
            rw (same, gone') (omega arith)
        | inr other ↦ let ih = at_most_one id es (rw c at h) in rw other (omega arith)
      ]
    ]

pub select-All {ℓ} : {A : Type ℓ} (q : A → Bool) (xs : List A) → All (λ x. q x ≡ true) (select q xs)
select-All q [] = tt
select-All q (x ∷ xs) = elim (Bool-cases (q x)) [
  | inl e ↦ rw e (e, select-All q xs)
  | inr e ↦ rw e (select-All q xs)
]

pub select-sub {ℓ κ} :
    {A : Type ℓ} (P : A → Type κ) (q : A → Bool) (xs : List A) → All P xs → All P (select q xs)
select-sub P q [] h = tt
select-sub P q (x ∷ xs) h = elim (Bool-cases (q x)) [
  | inl e ↦ rw e (h.0, select-sub P q xs h.1)
  | inr e ↦ rw e (select-sub P q xs h.1)
]

pub All-both {ℓ κ μ} :
    {A : Type ℓ} (P : A → Type κ) (Q : A → Type μ) (xs : List A)
    → All P xs
    → All Q xs
    → All (λ x. P x × Q x) xs
All-both P Q [] p q = tt
All-both P Q (x ∷ xs) p q = ((p.0, q.0), All-both P Q xs p.1 q.1)

All-Mem {ℓ} : {A : Type ℓ} (xs : List A) → All (λ x. Mem x xs) xs
All-Mem [] = tt
All-Mem (x ∷ xs) =
    (mem-cons.1 (Or.inl refl), All-imp (λ y h. mem-cons.1 (Or.inr h)) xs (All-Mem xs))

pub queue-Stands :
    (es : List PoolEntry) (g : GoodId) (buying : Bool)
    → All (Stands es g buying) (queue g buying es)
queue-Stands es g buying =
    sort_by-All entered_first (Stands es g buying) (select (of_good g buying) es) (
      All-imp (λ e h. record { in_pool = h.0; chosen = h.1 }) (select (of_good g buying) es)
        (All-both (λ e. Mem e es) (λ e. of_good g buying e ≡ true) (select (of_good g buying) es)
          (select-sub (λ e. Mem e es) (of_good g buying) es (All-Mem es))
          (select-All (of_good g buying) es)))

pair_goods-IsPair :
    (es : List PoolEntry) (gs : List GoodId) (ps : List Pairing)
    → pair_goods es gs ≡ ok ps
    → All (IsPair es) ps
unfolding pair_goods
pair_goods-IsPair es [] ps h = let none_made : [] ≡ ps = cc in subst (All (IsPair es)) none_made tt
pair_goods-IsPair es (g ∷ gs) ps h =
    elim (Result-cases (pair_buyers g (queue g true es) (queue g false es) 0)) [
      | inr (x, e) ↦ cc (rw e at h)
      | inl (front, e) ↦ elim (Result-cases (pair_goods es gs)) [
        | inr (x, f) ↦ cc (rw (e, f) at h)
        | inl (rest, f) ↦
            let whole : front ++ rest ≡ ps = cc (rw (e, f) at h) in
            let here =
              pair_buyers-IsPair g es (queue g true es) (queue g false es) 0 front
                (queue-Stands es g true) (queue-Stands es g false) e in
            subst (All (IsPair es)) whole
              (All-append (IsPair es) front rest here (pair_goods-IsPair es gs rest f))
      ]
    ]

-- What `fcfs_pair` has seen when it returns.
fcfs_pair-ok :
    (es : List PoolEntry) (ps : List Pairing)
    → fcfs_pair es ≡ ok ps
    → (has_duplicates (map (λ e. e.pool_entry_id) es) ≡ false)
      × ((pair_goods es good_ids ≡ ok ps) ⊎ (ps ≡ []))
unfolding fcfs_pair
fcfs_pair-ok [] ps h = (refl, inr cc)
fcfs_pair-ok (e ∷ es) ps h = elim (Result-cases (checks (fcfs_guards (e ∷ es)))) [
  | inl (u, g) ↦ ((checks-AllPass (fcfs_guards (e ∷ es)) g).0, inl (rw g at h))
  | inr (x, g) ↦ cc (rw g at h)
]

-- When the pairing returns, every pairing is of a buying and a selling entry of the pool, both of
-- its good and of different participants, the seller's limit at most the buyer's where both have
-- one. Its game, round and buyer's ids and limit are the buyer's, its seller's ids and limit the
-- seller's, and its quantity is positive, at most that of both entries, and that of one of them.
pub fcfs_pair-IsPair :
    (es : List PoolEntry) (ps : List Pairing) → fcfs_pair es ≡ ok ps → All (IsPair es) ps
fcfs_pair-IsPair es ps h = elim ((fcfs_pair-ok es ps h).1) [
  | inl e ↦ pair_goods-IsPair es good_ids ps e
  | inr e ↦ rw e tt
]

-- When the pairing returns, no pool entry stands in two pairings, nor on both sides of one.
pub fcfs_pair_once :
    (es : List PoolEntry) (ps : List Pairing) (id : String)
    → fcfs_pair es ≡ ok ps
    → uses_of id ps ≤ 1
fcfs_pair_once es ps id h =
    let (unique, result) = fcfs_pair-ok es ps h in
    elim result [
      | inl e ↦
          let used = pair_goods-uses es good_ids ps id e in
          let stand = slots-entries id es in let few = at_most_one id es unique in omega arith
      | inr e ↦ rw e (omega arith)
    ]
