-- ===== src/Payments/Repository/Exclusive.antt =====
-- At most one open mandate for a user in a game, over any calls.
use mathlib.Core.Path.{subst}
use adx_agentic_payment.Base.{
  String, string_eq, option_eq, ◌≡◌, ap, sym, ◌∙◌, inl, inr, Bool, false, none, some, List, [], ◌∷◌,
  All, any, ◌==◌, ==_iff, Bool-cases,
}
use adx_agentic_payment.Base.Int.{ℤ, int_eq}
use adx_agentic_payment.Base.Dict
use adx_agentic_payment.Base.Dict.{Dict}
use adx_agentic_payment.Payments.Models.{PaymentMandate}
use adx_agentic_payment.Payments.Repository.{Repository, new_repository, rivals}
use adx_agentic_payment.Payments.Repository.Validity.{
  account, with_accounting-ok, with_revocation-ok,
}
use adx_agentic_payment.Payments.Repository.Steps.{
  Step, reserves, consumes, submits, releases, revokes, opens, Reach, here, next,
}
use adx_agentic_payment.Payments.Repository.Ledger.{IsLedger}
use adx_agentic_payment.Payments.Repository.Ledger.Kept.{Reach-IsLedger}
use adx_agentic_payment.Payments.Repository.History.{
  Op, IsProper, run, IsLedger-new, apply, apply-Reach,
}

-- A mandate of a user in a game that is not revoked.
pub record IsOpen (user game : String) (d : Dict String PaymentMandate) (k : String) : Type 0 where
  pub mandate : PaymentMandate
  pub stored : Dict.get d k ≡ some mandate
  pub of_user : mandate.user_id ≡ user
  pub of_game : mandate.game_id ≡ game
  pub unrevoked : mandate.revoked_at ≡ none

abbrev pub OneOpen : Dict String PaymentMandate → Type 0
OneOpen d = (user game j k : String) → IsOpen user game d j → IsOpen user game d k → j ≡ k

-- A write that keeps the user and the game, and opens nothing that was revoked.
put-OneOpen :
    (d : Dict String PaymentMandate) (i : String) (m m' : PaymentMandate)
    → Dict.get d i ≡ some m
    → m'.user_id ≡ m.user_id
    → m'.game_id ≡ m.game_id
    → (m'.revoked_at ≡ none → m.revoked_at ≡ none)
    → OneOpen d
    → OneOpen (Dict.put d i m')
put-OneOpen d i m m' there user_eq game_eq closed one user game j k p q =
    one user game j k (back j p) (back k q)
  where
    back : (x : String) → IsOpen user game (Dict.put d i m') x → IsOpen user game d x
    back x o = elim (Dict.get-put_cases d i x m' o.mandate o.stored) [
      | inl (here_, eq) ↦ record {
        mandate = m;
        stored = subst (λ y. Dict.get d y ≡ some m) here_ there;
        of_user = sym user_eq ∙ ap (λ y. y.user_id) eq ∙ o.of_user;
        of_game = sym game_eq ∙ ap (λ y. y.game_id) eq ∙ o.of_game;
        unrevoked = closed (ap (λ y. y.revoked_at) eq ∙ o.unrevoked);
      }
      | inr (away, old) ↦ record {
        mandate = o.mandate;
        stored = old;
        of_user = o.of_user;
        of_game = o.of_game;
        unrevoked = o.unrevoked;
      }
    ]

any-false :
    (p : PaymentMandate → Bool) (l : List PaymentMandate)
    → any p l ≡ false
    → All (λ x. p x ≡ false) l
any-false p [] h = tt
any-false p (x ∷ l) h = elim (Bool-cases (p x)) [
  | inl holds ↦ cc (rw holds at h)
  | inr fails ↦ (fails, any-false p l (rw fails at h))
]

-- An open mandate that does not rival a new one is stored under its id.
not-rival :
    (m v : PaymentMandate)
    → rivals m v ≡ false
    → v.user_id ≡ m.user_id
    → v.game_id ≡ m.game_id
    → v.revoked_at ≡ none
    → v.mandate_id ≡ m.mandate_id
unfolding rivals
not-rival m v h user game unrevoked = elim (Bool-cases (v.mandate_id == m.mandate_id)) [
  | inl same ↦ (==_iff v.mandate_id m.mandate_id).0 same
  | inr other ↦ cc (
      rw
        ((==_iff v.user_id m.user_id).1 user, (==_iff v.game_id m.game_id).1 game, unrevoked, other)
        at h)
]

-- A new mandate, when no stored one rivals it.
new-OneOpen :
    (d : Dict String PaymentMandate) (m : PaymentMandate)
    → ((k : String) (v : PaymentMandate) → Dict.get d k ≡ some v → v.mandate_id ≡ k)
    → any (rivals m) (Dict.values d) ≡ false
    → OneOpen d
    → OneOpen (Dict.put d m.mandate_id m)
new-OneOpen d m named free one user game j k p q =
    elim (Dict.get-put_cases d m.mandate_id j m p.mandate p.stored) [
      | inl (here_j, eq_p) ↦ elim (Dict.get-put_cases d m.mandate_id k m q.mandate q.stored) [
        | inl (here_k, eq_q) ↦ sym here_j ∙ here_k
        | inr (away_k, old_q) ↦ sym here_j ∙ sym (clash p eq_p k q old_q)
      ]
      | inr (away_j, old_p) ↦ elim (Dict.get-put_cases d m.mandate_id k m q.mandate q.stored) [
        | inl (here_k, eq_q) ↦ clash q eq_q j p old_p ∙ here_k
        | inr (away_k, old_q) ↦
            one user game j k
              (record {
                mandate = p.mandate;
                stored = old_p;
                of_user = p.of_user;
                of_game = p.of_game;
                unrevoked = p.unrevoked;
              })
              (record {
                mandate = q.mandate;
                stored = old_q;
                of_user = q.of_user;
                of_game = q.of_game;
                unrevoked = q.unrevoked;
              })
      ]
    ]
  where
    clash :
        {i : String} (o : IsOpen user game (Dict.put d m.mandate_id m) i)
        → m ≡ o.mandate
        → (x : String) (w : IsOpen user game (Dict.put d m.mandate_id m) x)
        → Dict.get d x ≡ some w.mandate
        → x ≡ m.mandate_id
    clash o eq x w old =
        sym (named x w.mandate old)
        ∙ not-rival m w.mandate
            (Dict.get-All (λ y. rivals m y ≡ false) d x w.mandate
              (any-false (rivals m) (Dict.values d) free) old)
            (w.of_user ∙ sym o.of_user ∙ sym (ap (λ y. y.user_id) eq))
            (w.of_game ∙ sym o.of_game ∙ sym (ap (λ y. y.game_id) eq)) w.unrevoked

-- A mandate with new figures, under the key it was found at.
figures-OneOpen :
    (d : Dict String PaymentMandate) (i : String) (m m' : PaymentMandate) (held spent : ℤ)
    → Dict.get d i ≡ some m
    → m' ≡ account m held spent
    → OneOpen d
    → OneOpen (Dict.put d i m')
figures-OneOpen d i m m' held spent there shape =
    put-OneOpen d i m m' there (ap (λ x. x.user_id) shape) (ap (λ x. x.game_id) shape)
      (λ e. ap (λ x. x.revoked_at) (sym shape) ∙ e)

module _ (identifier : String → String → String → String) where
  Step-OneOpen :
      {s s' : Repository}
      → Step identifier s s'
      → IsLedger identifier s
      → OneOpen s.mandates
      → OneOpen s'.mandates
  Step-OneOpen {s} (reserves k t now m m' r found fresh amount pass acc made e) l one =
      let shape = (with_accounting-ok m _ _ (l.accounts k m found).valid acc).1 in
      rw e (figures-OneOpen s.mandates k m m' _ _ found shape one)
  Step-OneOpen {s} (consumes k tx now r r' m m' f live made owner acc e) l one =
      let o = l.accounts r.mandate_id m owner in
      let shape = (with_accounting-ok m _ _ o.valid acc).1 in
      let found = subst (λ x. Dict.get s.mandates x ≡ some m) (sym o.named) owner in
      rw e (figures-OneOpen s.mandates m.mandate_id m m' _ _ found shape one)
  Step-OneOpen (submits k tx r r' f st made e) l one = rw e one
  Step-OneOpen {s} (releases k reason now r r' m m' f st made owner acc e) l one =
      let o = l.accounts r.mandate_id m owner in
      let shape = (with_accounting-ok m _ _ o.valid acc).1 in
      let found = subst (λ x. Dict.get s.mandates x ≡ some m) (sym o.named) owner in
      rw e (figures-OneOpen s.mandates m.mandate_id m m' _ _ found shape one)
  Step-OneOpen {s} (revokes k now m m' found rev e) l one =
      let shape = (with_revocation-ok m now (l.accounts k m found).valid rev).1 in
      rw e (
        put-OneOpen s.mandates k m m' found (ap (λ x. x.user_id) shape) (ap (λ x. x.game_id) shape)
          (λ still. cc (ap (λ x. x.revoked_at) shape, still)) one)
  Step-OneOpen {s} (opens m fresh prior free e) l one =
      rw e (new-OneOpen s.mandates m (λ k v h. (l.accounts k v h).named) free one)

  module _
      (identifier_injective : (m i h m' i' h' : String)
        → identifier m i h ≡ identifier m' i' h'
        → i ≡ i') where
    Reach-OneOpen :
        {s s' : Repository}
        → Reach identifier s s'
        → IsLedger identifier s
        → OneOpen s.mandates
        → OneOpen s'.mandates
    Reach-OneOpen here l one = one
    Reach-OneOpen (next q st) l one =
        Step-OneOpen st (Reach-IsLedger identifier identifier_injective q l) (Reach-OneOpen q l one)

    run-OneOpen :
        (ops : List Op) (s : Repository)
        → All IsProper ops
        → IsLedger identifier s
        → OneOpen s.mandates
        → OneOpen (run identifier ops s).mandates
    unfolding run
    run-OneOpen [] s p l one = one
    run-OneOpen (op ∷ ops) s p l one =
        let q = apply-Reach identifier op s p.0 l in
        run-OneOpen ops (apply identifier op s) p.1
          (Reach-IsLedger identifier identifier_injective q l) (Reach-OneOpen q l one)

    -- After any proper calls on a new repository, whatever each returned or raised, two stored mandates
    -- of one user in one game that are both not revoked are one, under one id. Digests of
    -- reservations with different intents are taken to differ.
    pub one_open_mandate :
        (ops : List Op) (user game j k : String)
        → All IsProper ops
        → IsOpen user game (run identifier ops new_repository).mandates j
        → IsOpen user game (run identifier ops new_repository).mandates k
        → j ≡ k
    one_open_mandate ops user game j k p =
        run-OneOpen ops new_repository p (IsLedger-new identifier)
          (λ u g x y o q. cc (Dict.get-empty {V = PaymentMandate} x, o.stored)) user game j k
