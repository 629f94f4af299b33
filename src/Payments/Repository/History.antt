-- ===== src/Payments/Repository/History.antt =====
-- Any sequence of calls on a new repository, failing ones included.
use adx_agentic_payment.Base.{
  String, string_eq, built, ◌≡◌, some, List, [], ◌∷◌, arith, ok, All, All-imp,
}
use adx_agentic_payment.Base.Int.{pos, ◌≤ℤ◌}
use adx_agentic_payment.Base.Dict
use adx_agentic_payment.Payments.Models.{
  Datetime, PaymentMandate, SettlementTerms, PaymentReservation, make_terms, terms_guards,
  normalize_terms,
}
use adx_agentic_payment.Payments.Repository.{
  Repository, new_repository, create_mandate, reserve_mandate, consume_reservation,
  submit_reservation, release_reservation, revoke_mandate,
}
use adx_agentic_payment.Payments.Repository.Validity.{WithinLimits, Validated-WithinLimits}
use adx_agentic_payment.Payments.Repository.Steps.{IsFresh, Reach, here, Reach-AtMostOne}
use adx_agentic_payment.Payments.Repository.Steps.Reserving.{reserve-Step}
use adx_agentic_payment.Payments.Repository.Steps.Settling.{
  consume-Step, submit-Step, release-Step, revoke-Step,
}
use adx_agentic_payment.Payments.Repository.Steps.Creating.{create-Reach}
use adx_agentic_payment.Payments.Repository.Accounts.{held, spent}
use adx_agentic_payment.Payments.Repository.Ledger.{IsLedger}
use adx_agentic_payment.Payments.Repository.Ledger.Kept.{Reach-IsLedger}

-- A call, with the clock's reading where the method takes or reads one.
pub data Op : Type 0 where
  create : PaymentMandate → Datetime → Op
  reserve : String → SettlementTerms → Datetime → Op
  consume submit release revoke : String → String → Datetime → Op

-- Terms as their constructor returns them; their amount is positive.
abbrev pub AreTerms : SettlementTerms → Type 0
AreTerms t = make_terms t ≡ ok t

AreTerms-positive : (t : SettlementTerms) → AreTerms t → pos 1 ≤ℤ t.amount_atomic
unfolding make_terms
AreTerms-positive t h =
    let guard = (built (terms_guards t) (normalize_terms t) h).0.1.1.1.1.1.1.1.0 in ground arith

-- What a caller can pass: a mandate made by its constructor with no figures yet, and terms made by
-- theirs.
abbrev pub IsProper : Op → Type 0
IsProper (create m now) = IsFresh m
IsProper (reserve k t now) = AreTerms t
IsProper _ = Unit

module _ (identifier : String → String → String → String) where
  -- The repository after the call, whether it returned or raised.
  unfoldable pub apply : Op → Repository → Repository
  apply (create m now) s = (create_mandate m now s).1
  apply (reserve k t now) s = (reserve_mandate identifier k t now s).1
  apply (consume k tx now) s = (consume_reservation k tx now s).1
  apply (submit k tx now) s = (submit_reservation k tx now s).1
  apply (release k reason now) s = (release_reservation k reason now s).1
  apply (revoke k user now) s = (revoke_mandate k user now s).1

  unfoldable pub run : List Op → Repository → Repository
  run [] s = s
  run (op ∷ ops) s = run ops (apply op s)

  pub IsLedger-new : IsLedger identifier new_repository
  IsLedger-new = record {
    distinct = tt;
    distinct_reservations = tt;
    accounts = λ k m h. cc (Dict.get-empty {V = PaymentMandate} k, h);
    filing = λ k r h. cc (Dict.get-empty {V = PaymentReservation} k, h);
  }

  pub apply-Reach :
      (op : Op) (s : Repository)
      → IsProper op
      → IsLedger identifier s
      → Reach identifier s (apply op s)
  unfolding apply
  apply-Reach (create m now) s p l = create-Reach identifier m now s p l.distinct (ids s l)
    where
      ids :
          (s : Repository)
          → IsLedger identifier s
          → All (λ x. x.1.mandate_id ≡ x.0) s.mandates.entries
      ids s l =
          All-imp (λ x h. (l.accounts x.0 x.1 h).named) s.mandates.entries
            (Dict.get-entries s.mandates l.distinct)
  apply-Reach (reserve k t now) s p l =
      Reach-AtMostOne identifier here (reserve-Step identifier k t now s (AreTerms-positive t p))
  apply-Reach (consume k tx now) s p l =
      Reach-AtMostOne identifier here (consume-Step identifier k tx now s)
  apply-Reach (submit k tx now) s p l =
      Reach-AtMostOne identifier here (submit-Step identifier k tx now s)
  apply-Reach (release k reason now) s p l =
      Reach-AtMostOne identifier here (release-Step identifier k reason now s)
  apply-Reach (revoke k user now) s p l =
      Reach-AtMostOne identifier here (revoke-Step identifier k user now s)

  module _
      (identifier_injective : (m i h m' i' h' : String)
        → identifier m i h ≡ identifier m' i' h'
        → i ≡ i') where
    pub run-IsLedger :
        (ops : List Op) (s : Repository)
        → All IsProper ops
        → IsLedger identifier s
        → IsLedger identifier (run ops s)
    unfolding run
    run-IsLedger [] s p l = l
    run-IsLedger (op ∷ ops) s p l =
        run-IsLedger ops (apply op s) p.1
          (Reach-IsLedger identifier identifier_injective (apply-Reach op s p.0 l) l)

    -- After any sequence of proper calls on a new repository, whatever each returned or raised, the
    -- reserved figure of a stored mandate is the sum of its reserved and submitted reservations, its
    -- consumed figure is the sum of its consumed ones, neither is negative, and together they do not
    -- pass the cumulative limit. Digests of reservations with different intents are taken to differ.
    pub mandate_accounting :
        (ops : List Op) (k : String) (m : PaymentMandate)
        → All IsProper ops
        → Dict.get (run ops new_repository).mandates k ≡ some m
        → (m.reserved_atomic ≡ Dict.sum_by (held k) (run ops new_repository).reservations)
          × (m.consumed_atomic ≡ Dict.sum_by (spent k) (run ops new_repository).reservations)
          × WithinLimits m.limits m.reserved_atomic m.consumed_atomic
    mandate_accounting ops k m p h =
        let o = (run-IsLedger ops new_repository p IsLedger-new).accounts k m h in
        (o.reserved_sum, o.consumed_sum, Validated-WithinLimits m o.valid)
