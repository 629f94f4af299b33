-- ===== src/Payments/Repository/Finality.antt =====
-- Settled reservations, over any later calls.
use adx_agentic_payment.Base.{
  String, string_eq, option_eq, some_inj, ◌≡◌, ap, sym, ◌∙◌, true, false, some, List, [], ◌∷◌, All,
  ◌==◌, ==_iff, Bool-cases, inl, inr,
}
use adx_agentic_payment.Base.Int.{int_eq}
use adx_agentic_payment.Base.Dict
use adx_agentic_payment.Payments.Models.{PaymentReservation}
use adx_agentic_payment.Payments.Repository.{Repository, new_repository, new_reservation}
use adx_agentic_payment.Payments.Repository.Steps.{
  is_live, Step, reserves, consumes, submits, releases, revokes, opens, Reach, here, next,
}
use adx_agentic_payment.Payments.Repository.Ledger.{IsLedger, make_reservation-ok}
use adx_agentic_payment.Payments.Repository.Ledger.Reserved.{unused}
use adx_agentic_payment.Payments.Repository.Ledger.Kept.{Reach-IsLedger}
use adx_agentic_payment.Payments.Repository.History.{
  Op, IsProper, run, run-IsLedger, IsLedger-new, apply, apply-Reach,
}

module _ (identifier : String → String → String → String) where
  -- A write to another reservation's key keeps a settled reservation.
  kept :
      (s : Repository) (k j : String) (r q q' : PaymentReservation)
      → Dict.get s.reservations k ≡ some r
      → is_live r.status ≡ false
      → Dict.get s.reservations j ≡ some q
      → is_live q.status ≡ true
      → Dict.get (Dict.put s.reservations j q') k ≡ some r
  kept s k j r q q' found dead hq live = elim (Bool-cases (j == k)) [
    | inl same ↦ clash ((==_iff j k).0 same)
    | inr other ↦ Dict.get-put s.reservations j k q' ∙ rw other found
  ]
    where
      clash : j ≡ k → Dict.get (Dict.put s.reservations j q') k ≡ some r
      clash e =
          let same = some_inj (sym found ∙ ap (Dict.get s.reservations) (sym e) ∙ hq) in
          cc (dead, live, ap (λ x. is_live x.status) same)

  module _
      (identifier_injective : (m i h m' i' h' : String)
        → identifier m i h ≡ identifier m' i' h'
        → i ≡ i') where
    Step-final :
        {s s' : Repository} (k : String) (r : PaymentReservation)
        → Step identifier s s'
        → IsLedger identifier s
        → Dict.get s.reservations k ≡ some r
        → is_live r.status ≡ false
        → Dict.get s'.reservations k ≡ some r
    Step-final {s} k r (reserves k' t now m m' q em fresh amount pass acc made e) l found dead =
        rw e (
          added q.reservation_id q (
            ap (λ x. x.reservation_id)
              (make_reservation-ok (new_reservation identifier k' t now) made)))
      where
        id : String
        id = identifier k' t.settlement_intent_id t.intent_hash

        added :
            (j : String) (q : PaymentReservation)
            → j ≡ id
            → Dict.get (Dict.put s.reservations j q) k ≡ some r
        added j q ej = elim (Bool-cases (j == k)) [
          | inl same ↦
              let gone =
                unused identifier identifier_injective s k' t.settlement_intent_id t.intent_hash l
                  fresh in
              let at_k = ap (Dict.get s.reservations) (sym ((==_iff j k).0 same) ∙ ej) in
              cc (gone, at_k, found)
          | inr other ↦ Dict.get-put s.reservations j k q ∙ rw other found
        ]
    Step-final {s} k r (consumes j tx now q q' m m' f live made owner acc e) l found dead =
        rw e (kept s k j r q q' found dead f live)
    Step-final {s} k r (submits j tx q q' f st made e) l found dead =
        rw e (kept s k j r q q' found dead f (ap is_live st))
    Step-final {s} k r (releases j reason now q q' m m' f st made owner acc e) l found dead =
        rw e (kept s k j r q q' found dead f (ap is_live st))
    Step-final k r (revokes j now m m' em rev e) l found dead = rw e found
    Step-final k r (opens m fm prior free e) l found dead = rw e found

    Reach-final :
        {s s' : Repository} (k : String) (r : PaymentReservation)
        → Reach identifier s s'
        → IsLedger identifier s
        → Dict.get s.reservations k ≡ some r
        → is_live r.status ≡ false
        → Dict.get s'.reservations k ≡ some r
    Reach-final k r here l found dead = found
    Reach-final k r (next q st) l found dead =
        Step-final k r st (Reach-IsLedger identifier identifier_injective q l)
          (Reach-final k r q l found dead) dead

    later-final :
        (ops : List Op) (s : Repository) (k : String) (r : PaymentReservation)
        → All IsProper ops
        → IsLedger identifier s
        → Dict.get s.reservations k ≡ some r
        → is_live r.status ≡ false
        → Dict.get (run identifier ops s).reservations k ≡ some r
    unfolding run
    later-final [] s k r p l found dead = found
    later-final (op ∷ ops) s k r p l found dead =
        let q = apply-Reach identifier op s p.0 l in
        later-final ops (apply identifier op s) k r p.1
          (Reach-IsLedger identifier identifier_injective q l) (Reach-final k r q l found dead) dead

    -- A reservation that is consumed or released after some proper calls on a new repository is the
    -- same record after any further proper calls, whatever they return or raise. Digests of
    -- reservations with different intents are taken to differ.
    pub settled_final :
        (before after : List Op) (k : String) (r : PaymentReservation)
        → All IsProper before
        → All IsProper after
        → Dict.get (run identifier before new_repository).reservations k ≡ some r
        → is_live r.status ≡ false
        → Dict.get (run identifier after (run identifier before new_repository)).reservations k
          ≡ some r
    settled_final before after k r p q found dead =
        later-final after (run identifier before new_repository) k r q
          (run-IsLedger identifier identifier_injective before new_repository p
            (IsLedger-new identifier))
          found dead
