-- ===== src/Payments/Wallets/Binding.antt =====
-- Wallets are bound once: what holds of the store after any calls of `get_or_bind_wallet`.
pub mod Tests
use adx_agentic_payment.Base.{
  ℕ, String, string_eq, Bool, true, false, not, ◌&&◌, ◌≡◌, refl, sym, ap, ◌∙◌, ◌⊎◌, inl, inr,
  Option, none, some, List, [], ◌∷◌, All, select, ◌==◌, ==_iff, option_eq, some_inj, is_none,
  Bool-cases, Option-cases, Result, ok, err, Result-cases, checks, built, resume, arith,
}
use mathlib.Core.Path.{subst}
use adx_agentic_payment.Base.Dict
use adx_agentic_payment.Base.Dict.{Dict}
use adx_agentic_payment.Base.Sort.{sort_by, sort_by-All}
use adx_agentic_payment.Payments.Models.{Datetime}
use adx_agentic_payment.Payments.Wallets.{
  WalletStatus, WalletError, WalletInventoryItem, make_item, UserWalletBinding, IdentityProvider,
  WalletStore, stock, new_store, identity_check, subject_taken, is_available, wallet_first,
  available_wallets, with_subject, with_binding, make_binding, binding_of, bind_first, bind_by,
  get_or_bind_wallet,
}

-- The wallets are filed under their ids, a binding is filed under its user and its wallet is no longer
-- available, a wallet has one user, and a subject is filed under its user.
pub record IsSound (s : WalletStore) : Type 0 where
  pub distinct : Dict.IsDistinct s.wallet_inventory
  pub keyed :
      (k : String) (w : WalletInventoryItem)
      → Dict.get s.wallet_inventory k ≡ some w
      → w.wallet_id ≡ k
  pub owned :
      (u : String) (b : UserWalletBinding)
      → Dict.get s.wallet_bindings u ≡ some b
      → (b.user_id ≡ u)
        × ((w : WalletInventoryItem) × (Dict.get s.wallet_inventory b.wallet_id ≡ some w)
            × (is_available w ≡ false))
  pub single :
      (u v : String) (b c : UserWalletBinding)
      → Dict.get s.wallet_bindings u ≡ some b
      → Dict.get s.wallet_bindings v ≡ some c
      → b.wallet_id ≡ c.wallet_id
      → u ≡ v
  pub subjects :
      (u x : String) (b : UserWalletBinding)
      → Dict.get s.wallet_bindings u ≡ some b
      → b.github_subject ≡ some x
      → Dict.get s.bindings_by_subject x ≡ some u

-- A call that binds an available wallet to a user who has none.
record Binds (s s' : WalletStore) : Type 0 where
  binding : UserWalletBinding
  wallet : WalletInventoryItem
  taken : WalletInventoryItem
  unbound : Dict.get s.wallet_bindings binding.user_id ≡ none
  free : subject_taken s binding.user_id binding.github_subject ≡ false
  there : Dict.get s.wallet_inventory wallet.wallet_id ≡ some wallet
  available : is_available wallet ≡ true
  of_wallet : binding.wallet_id ≡ wallet.wallet_id
  same_wallet : taken.wallet_id ≡ wallet.wallet_id
  bound : is_available taken ≡ false
  after : s' ≡ with_binding binding taken s

select-All {ℓ} :
    {A : Type 0} (P : A → Type ℓ) (p : A → Bool) (xs : List A)
    → All P xs
    → All (λ x. P x × (p x ≡ true)) (select p xs)
select-All P p [] h = tt
select-All P p (x ∷ xs) h = elim (Bool-cases (p x)) [
  | inl e ↦ rw e ((h.0, e), select-All P p xs h.1)
  | inr e ↦ rw e (select-All P p xs h.1)
]

module _ (s : WalletStore) (h : IsSound s) where
  Stocked : WalletInventoryItem → Type 0
  Stocked w = (Dict.get s.wallet_inventory w.wallet_id ≡ some w) × (is_available w ≡ true)

  available-Stocked : All Stocked (available_wallets s)
  unfolding Stocked
  available-Stocked =
      sort_by-All wallet_first
        (λ w. (Dict.get s.wallet_inventory w.wallet_id ≡ some w) × (is_available w ≡ true))
        (select is_available (Dict.values s.wallet_inventory))
        (select-All (λ w. Dict.get s.wallet_inventory w.wallet_id ≡ some w) is_available
          (Dict.values s.wallet_inventory)
          (Dict.values-All (λ w. Dict.get s.wallet_inventory w.wallet_id ≡ some w)
            s.wallet_inventory h.distinct
            (λ k w found.
              subst (λ x. Dict.get s.wallet_inventory x ≡ some w) (sym (h.keyed k w found)) found)))

  module _ (isdigit : String → Bool) (user_id : String) (subject : Option String)
      (now : Datetime) where
    bind_first-Binds :
        (ws : List WalletInventoryItem)
        → All Stocked ws
        → Dict.get s.wallet_bindings user_id ≡ none
        → subject_taken s user_id subject ≡ false
        → ((bind_first isdigit user_id subject now ws s).1 ≡ s)
          ⊎ Binds s (bind_first isdigit user_id subject now ws s).1
    unfolding bind_first make_binding make_item Stocked
    bind_first-Binds [] all unbound free = inl refl
    bind_first-Binds (w ∷ ws) all unbound free =
        elim (Result-cases (make_binding isdigit (binding_of isdigit user_id subject now w))) [
          | inr (e, raised) ↦ inl (rw raised refl)
          | inl (b, made) ↦
              elim (Result-cases (make_item (record w { status = WalletStatus.bound }))) [
                | inr (e, raised) ↦ inl (rw (made, raised) refl)
                | inl (taken, made_item) ↦
                    let b_is = (built _ _ made).1 in
                    let t_is = (built _ _ made_item).1 in
                    inr (record {
                      binding = b;
                      wallet = w;
                      taken = taken;
                      unbound = ap (λ x. Dict.get s.wallet_bindings x.user_id) (sym b_is) ∙ unbound;
                      free = ap (λ x. subject_taken s x.user_id x.github_subject) (sym b_is) ∙ free;
                      there = all.0.0;
                      available = all.0.1;
                      of_wallet = ap (λ x. x.wallet_id) (sym b_is);
                      same_wallet = ap (λ x. x.wallet_id) (sym t_is);
                      bound = ap is_available (sym t_is);
                      after = rw (made, made_item) refl;
                    })
              ]
        ]

    bind_by-Binds :
        (o : Option UserWalletBinding)
        → Dict.get s.wallet_bindings user_id ≡ o
        → ((bind_by isdigit user_id subject now o s).1 ≡ s)
          ⊎ Binds s (bind_by isdigit user_id subject now o s).1
    unfolding bind_by
    bind_by-Binds (some b) found = elim (Bool-cases (not (b.github_subject == subject))) [
      | inl other ↦ inl (rw other refl)
      | inr same ↦ inl (rw same refl)
    ]
    bind_by-Binds none unbound = elim (Bool-cases (subject_taken s user_id subject)) [
      | inl taken ↦ inl (rw taken refl)
      | inr free ↦ rw free (bind_first-Binds (available_wallets s) available-Stocked unbound free)
    ]

    call-Binds :
        (provider : IdentityProvider)
        → ((get_or_bind_wallet isdigit user_id provider subject now s).1 ≡ s)
          ⊎ Binds s (get_or_bind_wallet isdigit user_id provider subject now s).1
    unfolding get_or_bind_wallet
    call-Binds provider = elim (Result-cases (identity_check provider subject)) [
      | inr (e, raised) ↦ inl (rw raised refl)
      | inl (u, passed) ↦ rw passed (bind_by-Binds (Dict.get s.wallet_bindings user_id) refl)
    ]

get-put_here {ℓ} :
    {V : Type ℓ} (d : Dict String V) (k j : String) (v : V)
    → k ≡ j
    → Dict.get (Dict.put d k v) j ≡ some v
get-put_here d k j v e = rw (Dict.get-put d k j v, (==_iff k j).1 e) refl

-- The subjects' dict after a binding.
subject_here :
    (o : Option String) (u x : String) (d : Dict String String)
    → o ≡ some x
    → Dict.get (with_subject o u d) x ≡ some u
subject_here none u x d e = cc
subject_here (some y) u x d e = get-put_here d y x u (some_inj e)

subject_there :
    (s : WalletStore) (o : Option String) (u v x : String)
    → subject_taken s u o ≡ false
    → Dict.get s.bindings_by_subject x ≡ some v
    → Dict.get (with_subject o u s.bindings_by_subject) x ≡ some v
subject_there s none u v x free h = h
subject_there s (some y) u v x free h = elim (Bool-cases (y == x)) [
  | inr other ↦ rw (Dict.get-put s.bindings_by_subject y x u, other) h
  | inl same ↦
      let at_y : Dict.get s.bindings_by_subject y ≡ some v =
        ap (Dict.get s.bindings_by_subject) ((==_iff y x).0 same) ∙ h in
      let mine : (Dict.get s.bindings_by_subject y == some u) ≡ true =
        ground (arith, rw at_y at free, at_y) in
      get-put_here s.bindings_by_subject y x u ((==_iff y x).0 same)
      ∙ sym ((==_iff (Dict.get s.bindings_by_subject y) (some u)).0 mine)
      ∙ at_y
]

module _ (s : WalletStore) (h : IsSound s) (s' : WalletStore) (g : Binds s s') where
  -- The wallet that is bound was available, so no earlier binding has it.
  fresh_wallet :
      (u : String) (c : UserWalletBinding)
      → Dict.get s.wallet_bindings u ≡ some c
      → c.wallet_id ≡ g.wallet.wallet_id
      → is_available g.wallet ≡ false
  fresh_wallet u c found same =
      let (w0, there, gone) = (h.owned u c found).1 in
      let eq : w0 ≡ g.wallet =
        some_inj (sym there ∙ ap (Dict.get s.wallet_inventory) same ∙ g.there) in
      subst (λ w. is_available w ≡ false) eq gone

  next : WalletStore
  next = with_binding g.binding g.taken s

  bound-owned :
      (u : String) (c : UserWalletBinding)
      → Dict.get next.wallet_bindings u ≡ some c
      → (c.user_id ≡ u)
        × ((w : WalletInventoryItem) × (Dict.get next.wallet_inventory c.wallet_id ≡ some w)
            × (is_available w ≡ false))
  unfolding next
  bound-owned u c found =
      elim (Dict.get-put_cases s.wallet_bindings g.binding.user_id u g.binding c found) [
        | inl (here, eq) ↦ (
          ap (λ x. x.user_id) (sym eq) ∙ here,
          (
            g.taken,
            get-put_here s.wallet_inventory g.taken.wallet_id c.wallet_id g.taken
                (g.same_wallet ∙ sym g.of_wallet ∙ ap (λ x. x.wallet_id) eq),
            g.bound,
          ),
        )
        | inr (away, old) ↦
            let (user, (w0, there, gone)) = h.owned u c old in
            (
              user,
              elim (Bool-cases (g.taken.wallet_id == c.wallet_id)) [
                | inl same ↦ (
                  g.taken,
                  get-put_here s.wallet_inventory g.taken.wallet_id c.wallet_id g.taken
                      ((==_iff g.taken.wallet_id c.wallet_id).0 same),
                  g.bound,
                )
                | inr other ↦ (
                  w0,
                  rw (Dict.get-put s.wallet_inventory g.taken.wallet_id c.wallet_id g.taken, other)
                      there,
                  gone,
                )
              ],
            )
      ]

  bound-single :
      (u v : String) (b c : UserWalletBinding)
      → Dict.get next.wallet_bindings u ≡ some b
      → Dict.get next.wallet_bindings v ≡ some c
      → b.wallet_id ≡ c.wallet_id
      → u ≡ v
  unfolding next
  bound-single u v b c has_b has_c same =
      elim (Dict.get-put_cases s.wallet_bindings g.binding.user_id u g.binding b has_b) [
        | inl (here, eq) ↦
            elim (Dict.get-put_cases s.wallet_bindings g.binding.user_id v g.binding c has_c) [
              | inl (here2, eq2) ↦ sym here ∙ here2
              | inr (away2, old2) ↦ cc (
                g.available,
                fresh_wallet v c old2 (sym same ∙ ap (λ x. x.wallet_id) (sym eq) ∙ g.of_wallet),
              )
            ]
        | inr (away, old) ↦
            elim (Dict.get-put_cases s.wallet_bindings g.binding.user_id v g.binding c has_c) [
              | inl (here2, eq2) ↦ cc (
                g.available,
                fresh_wallet u b old (same ∙ ap (λ x. x.wallet_id) (sym eq2) ∙ g.of_wallet),
              )
              | inr (away2, old2) ↦ h.single u v b c old old2 same
            ]
      ]

  bound-subjects :
      (u x : String) (c : UserWalletBinding)
      → Dict.get next.wallet_bindings u ≡ some c
      → c.github_subject ≡ some x
      → Dict.get next.bindings_by_subject x ≡ some u
  unfolding next
  bound-subjects u x c found subject =
      elim (Dict.get-put_cases s.wallet_bindings g.binding.user_id u g.binding c found) [
        | inl (here, eq) ↦
            subject_here g.binding.github_subject g.binding.user_id x s.bindings_by_subject
              (ap (λ y. y.github_subject) eq ∙ subject)
            ∙ ap some here
        | inr (away, old) ↦
            subject_there s g.binding.github_subject g.binding.user_id u x g.free
              (h.subjects u x c old subject)
      ]

  bound-keyed :
      (k : String) (w : WalletInventoryItem)
      → Dict.get next.wallet_inventory k ≡ some w
      → w.wallet_id ≡ k
  unfolding next
  bound-keyed k w found =
      elim (Dict.get-put_cases s.wallet_inventory g.taken.wallet_id k g.taken w found) [
        | inl (here, eq) ↦ ap (λ x. x.wallet_id) (sym eq) ∙ here
        | inr (away, old) ↦ h.keyed k w old
      ]

  Binds-IsSound : IsSound s'
  unfolding next
  Binds-IsSound = subst IsSound (sym g.after) (record {
    distinct = Dict.put-IsDistinct s.wallet_inventory g.taken.wallet_id g.taken h.distinct;
    keyed = bound-keyed;
    owned = bound-owned;
    single = bound-single;
    subjects = bound-subjects;
  })

  -- A binding that is there stays there.
  Binds-keeps :
      (u : String) (c : UserWalletBinding)
      → Dict.get s.wallet_bindings u ≡ some c
      → Dict.get s'.wallet_bindings u ≡ some c
  Binds-keeps u c found = elim (Bool-cases (g.binding.user_id == u)) [
    | inl same ↦ cc (g.unbound, found, (==_iff g.binding.user_id u).0 same)
    | inr other ↦
        ap (λ x. Dict.get x.wallet_bindings u) g.after
        ∙ rw (Dict.get-put s.wallet_bindings g.binding.user_id u g.binding, other) found
  ]

-- A call of `get_or_bind_wallet`.
pub record Op : Type 0 where
  pub user_id : String
  pub provider : IdentityProvider
  pub subject : Option String
  pub now : Datetime

stock-IsSound :
    (ws : List WalletInventoryItem) (d : Dict String WalletInventoryItem)
    → Dict.IsDistinct d
    → ((k : String) (w : WalletInventoryItem) → Dict.get d k ≡ some w → w.wallet_id ≡ k)
    → Dict.IsDistinct (stock ws d)
      × ((k : String) (w : WalletInventoryItem)
          → Dict.get (stock ws d) k ≡ some w
          → w.wallet_id ≡ k)
stock-IsSound [] d distinct keyed = (distinct, keyed)
stock-IsSound (w ∷ ws) d distinct keyed =
    stock-IsSound ws (Dict.put d w.wallet_id w) (Dict.put-IsDistinct d w.wallet_id w distinct)
      (λ k v found. elim (Dict.get-put_cases d w.wallet_id k w v found) [
        | inl (here, eq) ↦ ap (λ x. x.wallet_id) (sym eq) ∙ here
        | inr (away, old) ↦ keyed k v old
      ])

nothing : {A B : Type 0} {a : A} → Option.none ≡ some a → B
nothing h = cc

new_store-IsSound : (ws : List WalletInventoryItem) → IsSound (new_store ws)
new_store-IsSound ws =
    let (distinct, keyed) =
      stock-IsSound ws Dict.empty tt
        (λ k w found. cc (Dict.get-empty {V = WalletInventoryItem} k, found)) in
    record {
      distinct = distinct;
      keyed = keyed;
      owned = λ u b found. nothing (sym (Dict.get-empty {V = UserWalletBinding} u) ∙ found);
      single = λ u v b c found. cc (Dict.get-empty {V = UserWalletBinding} u, found);
      subjects = λ u x b found. cc (Dict.get-empty {V = UserWalletBinding} u, found);
    }

module _ (isdigit : String → Bool) where
  unfoldable pub run : List Op → WalletStore → WalletStore
  run [] s = s
  run (op ∷ ops) s =
      run ops (get_or_bind_wallet isdigit op.user_id op.provider op.subject op.now s).1

  run-IsSound : (ops : List Op) (s : WalletStore) → IsSound s → IsSound (run ops s)
  unfolding run
  run-IsSound [] s h = h
  run-IsSound (op ∷ ops) s h =
      let s' : WalletStore =
        (get_or_bind_wallet isdigit op.user_id op.provider op.subject op.now s).1 in
      run-IsSound ops s' (elim (call-Binds s h isdigit op.user_id op.subject op.now op.provider) [
        | inl same ↦ subst IsSound (sym same) h
        | inr g ↦ Binds-IsSound s h s' g
      ])

  run-keeps :
      (ops : List Op) (s : WalletStore) (u : String) (c : UserWalletBinding)
      → IsSound s
      → Dict.get s.wallet_bindings u ≡ some c
      → Dict.get (run ops s).wallet_bindings u ≡ some c
  unfolding run
  run-keeps [] s u c h found = found
  run-keeps (op ∷ ops) s u c h found =
      let s' : WalletStore =
        (get_or_bind_wallet isdigit op.user_id op.provider op.subject op.now s).1 in
      elim (call-Binds s h isdigit op.user_id op.subject op.now op.provider) [
        | inl same ↦
            run-keeps ops s' u c (subst IsSound (sym same) h)
              (ap (λ x. Dict.get x.wallet_bindings u) same ∙ found)
        | inr g ↦ run-keeps ops s' u c (Binds-IsSound s h s' g) (Binds-keeps s h s' g u c found)
      ]

  -- After any calls on a new store: two users with bindings to one wallet, or with one subject, are the
  -- same user, and a user's binding stays the same after any further calls.
  pub wallet_bound_once :
      (ws : List WalletInventoryItem) (ops more : List Op) (u v : String) (b c : UserWalletBinding)
      → Dict.get (run ops (new_store ws)).wallet_bindings u ≡ some b
      → Dict.get (run ops (new_store ws)).wallet_bindings v ≡ some c
      → (b.wallet_id ≡ c.wallet_id → u ≡ v)
        × ((x : String) → b.github_subject ≡ some x → c.github_subject ≡ some x → u ≡ v)
        × (Dict.get (run more (run ops (new_store ws))).wallet_bindings u ≡ some b)
  wallet_bound_once ws ops more u v b c has_b has_c =
      let h = run-IsSound ops (new_store ws) (new_store-IsSound ws) in
      (
        h.single u v b c has_b has_c,
        (λ x sb sc. some_inj (sym (h.subjects u x b has_b sb) ∙ h.subjects v x c has_c sc)),
        run-keeps more (run ops (new_store ws)) u b h has_b,
      )
