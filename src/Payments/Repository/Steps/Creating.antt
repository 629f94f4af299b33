-- ===== src/Payments/Repository/Steps/Creating.antt =====
-- `create_mandate`: its loop revokes the user's expired mandates of the game, one step each, before
-- the new mandate is stored.
use adx_agentic_payment.Base.{
  String, ◌≡◌, refl, ap, ◌∙◌, All, ==_sym, ◌⊎◌, inl, inr, true, false, Option, none, some, List, [],
  ◌∷◌, any, Result, ok, err, Bool-cases, refuted_false, arith, resume, Result-cases, ◌==◌,
  string_eq, option_eq,
}
use adx_agentic_payment.Base.Dict
use adx_agentic_payment.Base.Dict.{Dict}
use mathlib.Core.Path.{subst}
use adx_agentic_payment.Payments.Models.{PaymentError, Datetime, PaymentMandate, with_revocation}
use adx_agentic_payment.Payments.Repository.{
  Repository, superseded, differs, PaymentMandate-discrete, create_end, create_mandate,
  revoke_expired, rivals,
}
use adx_agentic_payment.Payments.Repository.Steps.{
  IsFresh, revokes, opens, Reach, here, next, Reach-trans,
}

module _ (identifier : String → String → String → String) where
  module _ (m : PaymentMandate) (now : Datetime) where
    -- The items that the loop has yet to visit are still in the dict, under their own ids.
    abbrev Pending : Repository → List (String × PaymentMandate) → Type 0
    Pending s items =
        Dict.DistinctKeys items
        × All (λ x. Dict.get s.mandates x.0 ≡ some x.1) items
        × All (λ x. x.1.mandate_id ≡ x.0) items

    Pending-put :
        (s : Repository) (k : String) (v : PaymentMandate) (items : List (String × PaymentMandate))
        → All (λ x. (x.0 == k) ≡ false) items
        → All (λ x. Dict.get s.mandates x.0 ≡ some x.1) items
        → All (λ x. Dict.get (Dict.put s.mandates k v) x.0 ≡ some x.1) items
    Pending-put s k v [] h g = tt
    Pending-put s k v (x ∷ l) h g =
        (Dict.get-put s.mandates k x.0 v ∙ rw (==_sym x.0 k h.0) g.0, Pending-put s k v l h.1 g.1)

    superseded-other :
        (v : PaymentMandate) → superseded m now v ≡ true → (v.mandate_id == m.mandate_id) ≡ false
    unfolding superseded
    superseded-other v h = ground arith

    abbrev LoopKeeps : Repository → Repository → Type 0
    LoopKeeps s s' =
        Reach identifier s s'
        × (Dict.get s'.mandates m.mandate_id ≡ Dict.get s.mandates m.mandate_id)

    visited :
        (k : String) (v v' : PaymentMandate) (rest : List (String × PaymentMandate))
        (s : Repository) {s' : Repository}
        → Pending s ((k, v) ∷ rest)
        → superseded m now v ≡ true
        → with_revocation v now ≡ ok v'
        → LoopKeeps (record s { mandates = Dict.put s.mandates k v' }) s'
        → LoopKeeps s s'
    visited k v v' rest s p e f (r, same) = (
      Reach-trans identifier (next here (revokes k now v v' p.1.0 f refl)) r,
      same
          ∙ Dict.get-put s.mandates k m.mandate_id v'
          ∙ rw (subst (λ j. (j == m.mandate_id) ≡ false) p.2.0 (superseded-other v e)) refl,
    )

    -- The loop takes steps, and leaves the entry of the new mandate's id alone.
    revoke_expired-Reach :
        (items : List (String × PaymentMandate)) (s : Repository)
        → Pending s items
        → let s' = (revoke_expired m now items s).1 in LoopKeeps s s'
    unfolding revoke_expired
    revoke_expired-Reach [] s p = (here, refl)
    revoke_expired-Reach ((k, v) ∷ rest) s p = elim (Bool-cases (superseded m now v)) [
      | inr e ↦ rw e (revoke_expired-Reach rest s (p.0.1, p.1.1, p.2.1))
      | inl e ↦ rw e (elim (Result-cases (with_revocation v now)) [
        | inr (x, f) ↦ rw f (here, refl)
        | inl (v', f) ↦ rw f (
            visited k v v' rest s p e f (
              revoke_expired-Reach rest (record s { mandates = Dict.put s.mandates k v' })
                (p.0.1, Pending-put s k v' rest (Dict.find_in-none rest k p.0.0) p.1.1, p.2.1)))
      ])
    ]

    differs-cases : (o : Option PaymentMandate) → differs o m ≡ false → (o ≡ none) ⊎ (o ≡ some m)
    differs-cases none h = inl refl
    differs-cases (some c) h = inr (ap some (refuted_false (PaymentMandate-discrete c m) h))

    create_rest :
        IsFresh m
        → (r : Result PaymentError Unit) (s s' : Repository)
        → differs (Dict.get s.mandates m.mandate_id) m ≡ false
        → LoopKeeps s s'
        → Reach identifier s (resume r (λ _. create_end m) s').1
    unfolding create_end
    create_rest fm (err e) s s' d k = k.0
    create_rest fm (ok tt) s s' d k = elim (Bool-cases (any (rivals m) (Dict.values s'.mandates))) [
      | inl e ↦ rw e k.0
      | inr e ↦ rw e (
          next k.0
            (opens m fm (differs-cases (Dict.get s'.mandates m.mandate_id) (rw k.1 d)) e refl))
    ]

    -- `create_mandate` takes steps from a repository whose dict of mandates is in order.
    pub create-Reach :
        (s : Repository)
        → IsFresh m
        → Dict.IsDistinct s.mandates
        → All (λ x. x.1.mandate_id ≡ x.0) s.mandates.entries
        → Reach identifier s (create_mandate m now s).1
    unfolding create_mandate
    create-Reach s fm distinct ids =
        elim (Bool-cases (differs (Dict.get s.mandates m.mandate_id) m)) [
          | inl e ↦ rw e here
          | inr e ↦ rw e (
              create_rest fm (revoke_expired m now s.mandates.entries s).0 s
                (revoke_expired m now s.mandates.entries s).1 e
                (revoke_expired-Reach s.mandates.entries s
                  (distinct, Dict.get-entries s.mandates distinct, ids)))
        ]
