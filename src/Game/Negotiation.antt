-- ===== src/Game/Negotiation.antt =====
-- arena_game/negotiation.py: the bounded negotiation of one buyer and one seller. A negative
-- `max_turns` would be rejected as 0 is, so it is a natural number; a price may be negative.
pub mod Bounded
pub mod Tests
use adx_agentic_payment.Base.{
  ℕ, suc, ◌%◌, String, Bool, true, false, not, ◌||◌, ◌&&◌, Option, none, some, List, [], ◌∷◌, ◌++◌,
  ltb, leb, ◌==◌, nat_eq, string_eq, length, last?, is_none, is_nil, if◌then◌else◌, Result, ok, err,
  checks, and_then, Action,
}
use adx_agentic_payment.Base.Int.{ℤ, pos, leb_ℤ}
use adx_agentic_payment.Base.Text.{is_blank}
use Prim.Native.String.{count}

pub data NegotiationRole : Type 0 where
  buyer seller : NegotiationRole

pub data NegotiationActionKind : Type 0 where
  propose accept reject : NegotiationActionKind

pub data NegotiationStatus : Type 0 where
  active accepted_pending_settlement settled settlement_failed rejected timeout : NegotiationStatus

-- `NegotiationError`, by its messages.
pub data NegotiationError : Type 0 where
  price_required message_required price_not_allowed message_not_allowed message_length :
      NegotiationError
  max_turns_range same_participant : NegotiationError
  already_terminal out_of_turn turn_limit_reached must_open_with_proposal last_turn_must_close :
      NegotiationError
  nothing_to_accept not_latest_proposal : NegotiationError

pub record NegotiationAction : Type 0 where
  pub action : NegotiationActionKind
  pub price_atomic : Option ℤ
  pub message : Option String

abbrev pub is_propose : NegotiationActionKind → Bool
is_propose NegotiationActionKind.propose = true
is_propose _ = false

abbrev pub is_accept : NegotiationActionKind → Bool
is_accept NegotiationActionKind.accept = true
is_accept _ = false

abbrev no_price : Option ℤ → Bool
no_price none = true
no_price (some p) = leb_ℤ p (pos 0)

abbrev no_message : Option String → Bool
no_message none = true
no_message (some m) = is_blank m

abbrev bad_length : Option String → Bool
bad_length none = false
bad_length (some m) = is_blank m || ltb 100 (count m)

-- `NegotiationAction.__post_init__`.
abbrev pub action_guards : NegotiationAction → List (Bool × NegotiationError)
action_guards a =
    (is_propose a.action && no_price a.price_atomic, price_required)
    ∷ (is_propose a.action && no_message a.message, message_required)
    ∷ (not (is_propose a.action) && not (is_none a.price_atomic), price_not_allowed)
    ∷ (is_accept a.action && not (is_none a.message), message_not_allowed)
    ∷ (bad_length a.message, message_length)
    ∷ []

unfoldable pub make_action : NegotiationAction → Result NegotiationError NegotiationAction
make_action a = and_then (checks (action_guards a)) (λ _. ok a)

pub record NegotiationTurn : Type 0 where
  pub sequence : ℕ
  pub role : NegotiationRole
  pub action : NegotiationAction

pub record Negotiation : Type 0 where
  pub negotiation_id : String
  pub buyer_participant_id : String
  pub seller_participant_id : String
  pub max_turns : ℕ
  pub status : NegotiationStatus
  pub turns : List NegotiationTurn
  pub accepted_price_atomic : Option ℤ

-- The defaults of the fields and `__post_init__`.
unfoldable pub make_negotiation : String → String → String → ℕ → Result NegotiationError Negotiation
make_negotiation id buyer_id seller_id max_turns =
    and_then
      (checks (
        (ltb max_turns 2 || ltb 6 max_turns, max_turns_range)
        ∷ (buyer_id == seller_id, same_participant)
        ∷ []))
      (λ _. ok (record {
        negotiation_id = id;
        buyer_participant_id = buyer_id;
        seller_participant_id = seller_id;
        max_turns = max_turns;
        status = NegotiationStatus.active;
        turns = [];
        accepted_price_atomic = none;
      }))

abbrev pub same_role : NegotiationRole → NegotiationRole → Bool
same_role NegotiationRole.buyer NegotiationRole.buyer = true
same_role NegotiationRole.seller NegotiationRole.seller = true
same_role _ _ = false

-- The role that makes the turn after `n` turns, as `next_role` reads it off the number of turns.
abbrev pub role_after : ℕ → NegotiationRole
role_after n = if (n % 2) == 0 then NegotiationRole.buyer else NegotiationRole.seller

abbrev pub next_role : Negotiation → NegotiationRole
next_role n = role_after (length n.turns)

abbrev pub is_active : NegotiationStatus → Bool
is_active NegotiationStatus.active = true
is_active _ = false

-- `NegotiationStatus.terminal`.
abbrev pub terminal : NegotiationStatus → Bool
terminal s = not (is_active s)

-- The guards of `apply` before it looks at an acceptance.
abbrev pub turn_guards :
    Negotiation → NegotiationRole → NegotiationAction → List (Bool × NegotiationError)
turn_guards n role a =
    let sequence = suc (length n.turns) in
    (not (is_active n.status), already_terminal)
    ∷ (not (same_role role (next_role n)), out_of_turn)
    ∷ (ltb n.max_turns sequence, turn_limit_reached)
    ∷ ((sequence == 1) && not (is_propose a.action), must_open_with_proposal)
    ∷ ((sequence == n.max_turns) && is_propose a.action, last_turn_must_close)
    ∷ []

abbrev pub with_turn : Negotiation → NegotiationRole → NegotiationAction → Negotiation
with_turn n role a = record n {
  turns = n.turns ++ record { sequence = suc (length n.turns); role = role; action = a } ∷ [];
}

-- An acceptance, by the last turn.
abbrev pub accept_last :
    Option NegotiationTurn
    → Negotiation
    → NegotiationRole
    → NegotiationAction
    → Result NegotiationError Negotiation
accept_last none n role a = err nothing_to_accept
accept_last (some previous) n role a =
    if same_role previous.role role || not (is_propose previous.action.action)
    then err not_latest_proposal
    else ok (record (with_turn n role a) {
      status = NegotiationStatus.accepted_pending_settlement;
      accepted_price_atomic = previous.action.price_atomic;
    })

abbrev pub act_by :
    NegotiationActionKind
    → Negotiation
    → NegotiationRole
    → NegotiationAction
    → Result NegotiationError Negotiation
act_by NegotiationActionKind.accept n role a = accept_last (last? n.turns) n role a
act_by NegotiationActionKind.reject n role a =
    ok (record (with_turn n role a) { status = NegotiationStatus.rejected })
act_by NegotiationActionKind.propose n role a = ok (with_turn n role a)

-- `Negotiation.apply`: the negotiation after the turn, or the error, which leaves it as it was. The
-- turn that the method returns is the last one.
unfoldable pub apply :
    Negotiation → NegotiationRole → NegotiationAction → Result NegotiationError Negotiation
apply n role a = and_then (checks (turn_guards n role a)) (λ _. act_by a.action n role a)

unfoldable pub expire : Negotiation → Negotiation
expire n = if is_active n.status then record n { status = NegotiationStatus.timeout } else n
