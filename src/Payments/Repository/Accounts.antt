-- ===== src/Payments/Repository/Accounts.antt =====
-- What a mandate's figures mean: the reserved figure is the sum of its live reservations, the
-- consumed figure that of its consumed ones. One lemma for each way in which a step changes them.
use adx_agentic_payment.Base.{
  String, ◌≡◌, refl, ap, sym, ◌∙◌, inl, inr, Bool, true, false, ◌&&◌, none, some, arith,
  if◌then◌else◌, ◌==◌, string_eq, ==_refl,
}
use adx_agentic_payment.Base.Int.{ℤ, pos, ◌+ℤ◌, balance, balance_new, add_nothing}
use mathlib.Core.Path.{subst₂}
use adx_agentic_payment.Base.Dict
use adx_agentic_payment.Base.Dict.{Dict}
use adx_agentic_payment.Payments.Models.{PaymentMandate, PaymentReservation, ReservationStatus}
use adx_agentic_payment.Payments.Repository.Validity.{Validated}
use adx_agentic_payment.Payments.Repository.Steps.{is_live, submitted_form}
use adx_agentic_payment.Base.Text.{lower}

abbrev pub is_consumed : ReservationStatus → Bool
is_consumed ReservationStatus.consumed = true
is_consumed _ = false

-- A reservation's share of the reserved and of the consumed figure of mandate `j`.
pub held : String → PaymentReservation → ℤ
held j r = if (r.mandate_id == j) && is_live r.status then r.amount_atomic else pos 0

pub spent : String → PaymentReservation → ℤ
spent j r = if (r.mandate_id == j) && is_consumed r.status then r.amount_atomic else pos 0

pub record MandateOk (rs : Dict String PaymentReservation) (k : String) (m : PaymentMandate)
    : Type 0 where
  pub named : m.mandate_id ≡ k
  pub valid : Validated m
  pub reserved_sum : m.reserved_atomic ≡ Dict.sum_by (held k) rs
  pub consumed_sum : m.consumed_atomic ≡ Dict.sum_by (spent k) rs

abbrev pub AccountsOk : Dict String PaymentMandate → Dict String PaymentReservation → Type 0
AccountsOk ms rs = (k : String) (m : PaymentMandate) → Dict.get ms k ≡ some m → MandateOk rs k m

-- Another mandate's reservation counts for nothing.
pub held_other :
    (j : String) (r : PaymentReservation) → (r.mandate_id == j) ≡ false → held j r ≡ pos 0
unfolding held
held_other j r h = rw h refl

pub spent_other :
    (j : String) (r : PaymentReservation) → (r.mandate_id == j) ≡ false → spent j r ≡ pos 0
unfolding spent
spent_other j r h = rw h refl

-- The shares of a mandate's own reservation, by its status.
pub held_live :
    (r : PaymentReservation) → is_live r.status ≡ true → held r.mandate_id r ≡ r.amount_atomic
unfolding held
held_live r h = rw (==_refl r.mandate_id, h) refl

pub held_dead : (j : String) (r : PaymentReservation) → is_live r.status ≡ false → held j r ≡ pos 0
unfolding held
held_dead j r h = rw h (ground arith)

pub spent_consumed :
    (r : PaymentReservation) → is_consumed r.status ≡ true → spent r.mandate_id r ≡ r.amount_atomic
unfolding spent
spent_consumed r h = rw (==_refl r.mandate_id, h) refl

pub spent_unconsumed :
    (j : String) (r : PaymentReservation) → is_consumed r.status ≡ false → spent j r ≡ pos 0
unfolding spent
spent_unconsumed j r h = rw h (ground arith)

pub live-unconsumed : (st : ReservationStatus) → is_live st ≡ true → is_consumed st ≡ false
live-unconsumed st h = ground arith

-- Submission moves no share.
pub submitted_held :
    (j : String) (r : PaymentReservation) (tx : String)
    → r.status ≡ ReservationStatus.reserved
    → held j (record (submitted_form r tx) { payee = lower r.payee }) ≡ held j r
unfolding held
submitted_held j r tx h = rw (ap is_live h) refl

pub submitted_spent :
    (j : String) (r : PaymentReservation) (tx : String)
    → r.status ≡ ReservationStatus.reserved
    → spent j (record (submitted_form r tx) { payee = lower r.payee }) ≡ spent j r
unfolding spent
submitted_spent j r tx h = rw (ap is_consumed h) refl

-- The shares of a replaced reservation move between a mandate's figures and the sums alike.
module _ (rs : Dict String PaymentReservation) (k : String) (r r' : PaymentReservation)
    (found : Dict.get rs k ≡ some r) where
  pub moved :
      (j : String) (m m' : PaymentMandate)
      → m'.mandate_id ≡ j
      → Validated m'
      → m'.reserved_atomic +ℤ held j r ≡ m.reserved_atomic +ℤ held j r'
      → m'.consumed_atomic +ℤ spent j r ≡ m.consumed_atomic +ℤ spent j r'
      → MandateOk rs j m
      → MandateOk (Dict.put rs k r') j m'
  moved j m m' id valid dh ds o = record {
    named = id;
    valid = valid;
    reserved_sum = balance _ _ _ _ _ _ o.reserved_sum (Dict.sum_by-put (held j) rs k r' r found) dh;
    consumed_sum =
        balance _ _ _ _ _ _ o.consumed_sum (Dict.sum_by-put (spent j) rs k r' r found) ds;
  }

  -- A mandate keeps its facts when the shares are the same.
  pub same_shares :
      (j : String) (m : PaymentMandate)
      → held j r' ≡ held j r
      → spent j r' ≡ spent j r
      → MandateOk rs j m
      → MandateOk (Dict.put rs k r') j m
  same_shares j m h g o =
      moved j m m o.named o.valid (ap (λ x. m.reserved_atomic +ℤ x) (sym h))
        (ap (λ x. m.consumed_atomic +ℤ x) (sym g)) o

  -- A reservation and its mandate change together.
  pub exchange-AccountsOk :
      (ms : Dict String PaymentMandate) (m m' : PaymentMandate)
      → AccountsOk ms rs
      → Dict.get ms r.mandate_id ≡ some m
      → r'.mandate_id ≡ r.mandate_id
      → m'.mandate_id ≡ m.mandate_id
      → Validated m'
      → m'.reserved_atomic +ℤ held r.mandate_id r ≡ m.reserved_atomic +ℤ held r.mandate_id r'
      → m'.consumed_atomic +ℤ spent r.mandate_id r ≡ m.consumed_atomic +ℤ spent r.mandate_id r'
      → AccountsOk (Dict.put ms m.mandate_id m') (Dict.put rs k r')
  exchange-AccountsOk ms m m' ok owner same id valid dh ds j w h =
      let o = ok r.mandate_id m owner in
      elim (Dict.get-put_cases ms m.mandate_id j m' w h) [
        | inl (e, f) ↦
            subst₂ (λ i v. MandateOk (Dict.put rs k r') i v) (sym o.named ∙ e) f
              (moved r.mandate_id m m' (id ∙ o.named) valid dh ds o)
        | inr (e, f) ↦
            let apart : (r.mandate_id == j) ≡ false = rw (← o.named) e in
            let apart' : (r'.mandate_id == j) ≡ false = rw same apart in
            same_shares j w (held_other j r' apart' ∙ sym (held_other j r apart))
              (spent_other j r' apart' ∙ sym (spent_other j r apart)) (ok j w f)
      ]

-- A new reservation and its mandate.
pub add-AccountsOk :
    (ms : Dict String PaymentMandate) (rs : Dict String PaymentReservation) (k : String)
    (r : PaymentReservation) (m m' : PaymentMandate)
    → AccountsOk ms rs
    → Dict.get rs k ≡ none
    → Dict.get ms r.mandate_id ≡ some m
    → m'.mandate_id ≡ m.mandate_id
    → Validated m'
    → m'.reserved_atomic ≡ m.reserved_atomic +ℤ held r.mandate_id r
    → m'.consumed_atomic ≡ m.consumed_atomic +ℤ spent r.mandate_id r
    → AccountsOk (Dict.put ms r.mandate_id m') (Dict.put rs k r)
add-AccountsOk ms rs k r m m' ok free owner id valid dh ds j w h =
    let o = ok r.mandate_id m owner in
    elim (Dict.get-put_cases ms r.mandate_id j m' w h) [
      | inl (e, f) ↦
          subst₂ (λ i v. MandateOk (Dict.put rs k r) i v) e f
            (record {
              named = id ∙ o.named;
              valid = valid;
              reserved_sum =
                  balance_new _ _ _ _ _ o.reserved_sum
                    (Dict.sum_by-put_new (held r.mandate_id) rs k r free) dh;
              consumed_sum =
                  balance_new _ _ _ _ _ o.consumed_sum
                    (Dict.sum_by-put_new (spent r.mandate_id) rs k r free) ds;
            })
      | inr (e, f) ↦
          let p = ok j w f in
          record {
            named = p.named;
            valid = p.valid;
            reserved_sum =
                balance_new _ _ _ _ _ p.reserved_sum (Dict.sum_by-put_new (held j) rs k r free)
                  (add_nothing _ _ (held_other j r e));
            consumed_sum =
                balance_new _ _ _ _ _ p.consumed_sum (Dict.sum_by-put_new (spent j) rs k r free)
                  (add_nothing _ _ (spent_other j r e));
          }
    ]

-- A mandate is stored with figures that are right for its id.
pub store-AccountsOk :
    (ms : Dict String PaymentMandate) (rs : Dict String PaymentReservation) (k : String)
    (m : PaymentMandate)
    → AccountsOk ms rs
    → MandateOk rs k m
    → AccountsOk (Dict.put ms k m) rs
store-AccountsOk ms rs k m ok new j w h = elim (Dict.get-put_cases ms k j m w h) [
  | inl (e, f) ↦ subst₂ (λ i v. MandateOk rs i v) e f new
  | inr (e, f) ↦ ok j w f
]
