-- ===== src/Game/Rules/Deals.antt =====
-- How a negotiation of two rule runtimes ends.
pub mod Tests
use adx_agentic_payment.Base.{
  ℕ, zero, suc, ◌+◌, ◌-◌, ◌≤◌, ◌%◌, String, string_eq, nat_eq, Bool, true, false, not, ◌&&◌, ◌||◌,
  ◌≡◌, refl, sym, ap, ◌∙◌, Option, none, some, List, [], ◌∷◌, ◌++◌, last?, last?-snoc, length,
  length-append, leb, ltb, ◌==◌, if◌then◌else◌, Result, ok, err, and_then, Bool-cases, AllPass,
  AllPass-checks, checks, arith, built, inl, inr,
}
use mathlib.Core.Path.{subst}
use adx_agentic_payment.Base.Int.{ℤ, pos, leb_ℤ, ◌≤ℤ◌, ◌<ℤ◌}
use adx_agentic_payment.Base.Text.{is_blank}
use adx_agentic_payment.Base.Dict
use adx_agentic_payment.Base.Dict.{Dict}
use adx_agentic_payment.Game.Negotiation.{
  NegotiationRole, NegotiationAction, NegotiationActionKind, NegotiationStatus, NegotiationTurn,
  Negotiation, make_action, action_guards, make_negotiation, max_turns_range, same_participant,
  accept_last, is_propose, is_active, role_after, next_role, same_role, turn_guards, with_turn,
  act_by, apply,
}
use adx_agentic_payment.Game.Rules.{
  RuleStrategy, offer, acceptance, refusal, is_acceptable, open_with, answer, negotiate,
  proposed_price, participant, raised_by, rule_turn, rule_turns, rule_negotiation,
}

same_role_refl : (r : NegotiationRole) → same_role r r ≡ true
same_role_refl NegotiationRole.buyer = refl
same_role_refl NegotiationRole.seller = refl

abbrev other : NegotiationRole → NegotiationRole
other NegotiationRole.buyer = NegotiationRole.seller
other NegotiationRole.seller = NegotiationRole.buyer

not_other : (r : NegotiationRole) → same_role r (other r) ≡ false
not_other NegotiationRole.buyer = refl
not_other NegotiationRole.seller = refl

role_after-suc : (k : ℕ) → role_after (suc k) ≡ other (role_after k)
role_after-suc k = ground arith

-- The turn of the role that is to act, when no guard stops it.
apply_passes :
    (n : Negotiation) (k : ℕ) (a : NegotiationAction)
    → n.status ≡ NegotiationStatus.active
    → length n.turns ≡ k
    → suc k ≤ n.max_turns
    → ((suc k == 1) && not (is_propose a.action)) ≡ false
    → ((suc k == n.max_turns) && is_propose a.action) ≡ false
    → apply n (role_after k) a ≡ act_by a.action n (role_after k) a
unfolding apply
apply_passes n k a active count room opens closes =
    let same : same_role (role_after k) (role_after (length n.turns)) ≡ true =
      subst (λ x. same_role (role_after k) (role_after x) ≡ true) (sym count)
        (same_role_refl (role_after k)) in
    rw
      (AllPass-checks (turn_guards n (role_after k) a) (
        ap (λ x. not (is_active x)) active,
        (
          ap not same,
          (
            subst (λ x. ltb n.max_turns (suc x) ≡ false) (sym count) (ground (arith, room)),
            (
              subst (λ x. ((suc x == 1) && not (is_propose a.action)) ≡ false) (sym count) opens,
              (
                subst (λ x. ((suc x == n.max_turns) && is_propose a.action) ≡ false) (sym count)
                    closes,
                tt,
              ),
            ),
          ),
        ),
      ))
      refl

module _ (runtimes : Dict String RuleStrategy) (b s : RuleStrategy) where
  abbrev strategy : NegotiationRole → RuleStrategy
  strategy NegotiationRole.buyer = b
  strategy NegotiationRole.seller = s

  -- An active negotiation after `k` proposals, the last of them the other role's target.
  record Ready (n : Negotiation) (k : ℕ) : Type 0 where
    active : n.status ≡ NegotiationStatus.active
    count : length n.turns ≡ k
    room : suc k ≤ n.max_turns
    unpriced : n.accepted_price_atomic ≡ none
    runs : (r : NegotiationRole) → Dict.get runtimes (participant n r) ≡ some (strategy r)

  abbrev Quoted : Negotiation → NegotiationRole → Type 0
  Quoted n r =
      last? n.turns
      ≡ some (record { sequence = length n.turns; role = r; action = offer (strategy r) })

  module _
      (made : (r : NegotiationRole)
        → make_action (offer (strategy r)) ≡ ok (offer (strategy r))) where
    acceptable_offer :
        (r : NegotiationRole)
        → is_acceptable (strategy (other r)) (other r) (strategy r).target_price_atomic
          ≡ leb_ℤ s.target_price_atomic b.target_price_atomic
    acceptable_offer NegotiationRole.buyer = refl
    acceptable_offer NegotiationRole.seller = refl

    snoc-runs :
        (n : Negotiation) (k : ℕ) (r : NegotiationRole) (a : NegotiationAction)
        → Ready n k
        → (q : NegotiationRole)
        → Dict.get runtimes (participant (with_turn n r a) q) ≡ some (strategy q)
    snoc-runs n k r a h NegotiationRole.buyer = h.runs NegotiationRole.buyer
    snoc-runs n k r a h NegotiationRole.seller = h.runs NegotiationRole.seller

    Ready-snoc :
        (n : Negotiation) (k : ℕ) (r : NegotiationRole) (a : NegotiationAction)
        → Ready n k
        → suc (suc k) ≤ n.max_turns
        → Ready (with_turn n r a) (suc k)
    Ready-snoc n k r a h more = record {
      active = h.active;
      count = omega (
        arith,
        h.count,
        length-append n.turns
            (record { sequence = suc (length n.turns); role = r; action = a } ∷ []),
      );
      room = more;
      unpriced = h.unpriced;
      runs = snoc-runs n k r a h;
    }

    -- The turn of the role that is to act, by its runtime's answer.
    turn :
        (n : Negotiation) (k : ℕ) (a : NegotiationAction)
        → Ready n k
        → negotiate
            (strategy (role_after k))
            (role_after k)
            (suc k)
            (proposed_price (last? n.turns))
            n.max_turns
          ≡ ok a
        → ((suc k == 1) && not (is_propose a.action)) ≡ false
        → ((suc k == n.max_turns) && is_propose a.action) ≡ false
        → rule_turn runtimes n ≡ raised_by (act_by a.action n (role_after k) a)
    unfolding rule_turn
    turn n k a h answered opens closes =
        rw
          (
            h.count,
            h.runs (role_after k),
            answered,
            apply_passes n k a h.active h.count h.room opens closes,
          )
          refl

    opening :
        (n : Negotiation)
        → Ready n 0
        → n.turns ≡ []
        → 2 ≤ n.max_turns
        → rule_turn runtimes n ≡ ok (with_turn n NegotiationRole.buyer (offer b))
    unfolding negotiate
    opening n h start enough =
        turn n 0 (offer b) h (rw (made NegotiationRole.buyer) refl) refl (ground (arith, enough))

    -- The answer to the other role's target: both roles accept it under the same condition.
    abbrev reply : NegotiationRole → ℕ → ℕ → NegotiationAction
    reply r sequence max_turns =
        if leb_ℤ s.target_price_atomic b.target_price_atomic
        then acceptance
        else if leb max_turns sequence
        then refusal
        else offer (strategy r)

    acceptance_made : make_action acceptance ≡ ok acceptance
    unfolding make_action checks
    acceptance_made = refl

    refusal_made : make_action refusal ≡ ok refusal
    unfolding make_action checks is_blank
    refusal_made = refl

    later_turn : (k : ℕ) → (suc (suc k) == 1) ≡ false
    later_turn k = ground arith

    first_offer :
        (k : ℕ) (a : NegotiationAction) → ((suc (suc k) == 1) && not (is_propose a.action)) ≡ false
    first_offer k a = ap (λ c. c && not (is_propose a.action)) (later_turn k)

    replies :
        (r : NegotiationRole) (k : ℕ) (max_turns : ℕ)
        → negotiate
            (strategy (other r))
            (other r)
            (suc (suc k))
            (some (strategy r).target_price_atomic)
            max_turns
          ≡ ok (reply (other r) (suc (suc k)) max_turns)
    unfolding negotiate
    replies r k max_turns = elim (Bool-cases (leb_ℤ s.target_price_atomic b.target_price_atomic)) [
      | inl fits ↦ rw (later_turn k, acceptable_offer r, fits, acceptance_made) refl
      | inr apart ↦ elim (Bool-cases (leb max_turns (suc (suc k)))) [
        | inl last ↦ rw (later_turn k, acceptable_offer r, apart, last, refusal_made) refl
        | inr more ↦ rw (later_turn k, acceptable_offer r, apart, more, made (other r)) refl
      ]
    ]

    answering :
        (k : ℕ) (max_turns : ℕ)
        → negotiate
            (strategy (role_after (suc k)))
            (role_after (suc k))
            (suc (suc k))
            (some (strategy (role_after k)).target_price_atomic)
            max_turns
          ≡ ok (reply (role_after (suc k)) (suc (suc k)) max_turns)
    answering k max_turns = rw (role_after-suc k) (replies (role_after k) k max_turns)

    quoted :
        (n : Negotiation) (r : NegotiationRole)
        → Quoted n r
        → proposed_price (last? n.turns) ≡ some (strategy r).target_price_atomic
    quoted n r q = rw q refl

    -- A later turn, when the two targets meet and when they do not.
    accepting :
        (n : Negotiation) (k : ℕ)
        → Ready n (suc k)
        → Quoted n (role_after k)
        → leb_ℤ s.target_price_atomic b.target_price_atomic ≡ true
        → rule_turn runtimes n
          ≡ ok (record (with_turn n (role_after (suc k)) acceptance) {
            status = NegotiationStatus.accepted_pending_settlement;
            accepted_price_atomic = some (strategy (role_after k)).target_price_atomic;
          })
    accepting n k h q fits =
        let answered : negotiate (strategy (role_after (suc k))) (role_after (suc k)) (suc (suc k))
              (proposed_price (last? n.turns)) n.max_turns
            ≡ ok acceptance =
          rw (quoted n (role_after k) q) (
            answering k n.max_turns
            ∙ ap ok (
                ap
                  (λ c.
                    if c
                    then acceptance
                    else if leb n.max_turns (suc (suc k))
                    then refusal
                    else offer (strategy (role_after (suc k))))
                  fits)) in
        let apart : same_role (role_after k) (role_after (suc k)) ≡ false =
          rw (role_after-suc k) (not_other (role_after k)) in
        turn n (suc k) acceptance h answered (first_offer k acceptance) (ground arith)
        ∙ rw (q, apart) refl

    refusing :
        (n : Negotiation) (k : ℕ)
        → Ready n (suc k)
        → Quoted n (role_after k)
        → leb_ℤ s.target_price_atomic b.target_price_atomic ≡ false
        → leb n.max_turns (suc (suc k)) ≡ true
        → rule_turn runtimes n
          ≡ ok (record (with_turn n (role_after (suc k)) refusal) {
            status = NegotiationStatus.rejected;
          })
    refusing n k h q apart last =
        let answered : negotiate (strategy (role_after (suc k))) (role_after (suc k)) (suc (suc k))
              (proposed_price (last? n.turns)) n.max_turns
            ≡ ok refusal =
          rw (quoted n (role_after k) q) (rw (apart, last) at (answering k n.max_turns)) in
        turn n (suc k) refusal h answered (first_offer k refusal) (ground arith)

    offering :
        (n : Negotiation) (k : ℕ)
        → Ready n (suc k)
        → Quoted n (role_after k)
        → leb_ℤ s.target_price_atomic b.target_price_atomic ≡ false
        → leb n.max_turns (suc (suc k)) ≡ false
        → rule_turn runtimes n
          ≡ ok (with_turn n (role_after (suc k)) (offer (strategy (role_after (suc k)))))
    offering n k h q apart more =
        let answered : negotiate (strategy (role_after (suc k))) (role_after (suc k)) (suc (suc k))
              (proposed_price (last? n.turns)) n.max_turns
            ≡ ok (offer (strategy (role_after (suc k)))) =
          rw (quoted n (role_after k) q) (rw (apart, more) at (answering k n.max_turns)) in
        turn n (suc k) (offer (strategy (role_after (suc k)))) h answered
          (first_offer k (offer (strategy (role_after (suc k))))) (ground (arith, more))

    with_turn-Quoted :
        (n : Negotiation) (r : NegotiationRole) → Quoted (with_turn n r (offer (strategy r))) r
    with_turn-Quoted n r =
        last?-snoc n.turns
          (record { sequence = suc (length n.turns); role = r; action = offer (strategy r) })
        ∙ ap (λ k. some (record { sequence = k; role = r; action = offer (strategy r) }))
            (omega (
              arith,
              length-append n.turns (
                  record { sequence = suc (length n.turns); role = r; action = offer (strategy r) }
                  ∷ []),
            ))

    abbrev Rejected : ℕ → Negotiation → Type 0
    Rejected turns n =
        (n.status ≡ NegotiationStatus.rejected)
        × (n.accepted_price_atomic ≡ none)
        × (length n.turns ≡ turns)

    ended :
        (n : Negotiation) (fuel : ℕ)
        → is_active n.status ≡ false
        → rule_turns fuel runtimes n ≡ ok n
    unfolding rule_turns
    ended n zero dead = rw dead refl
    ended n (suc fuel) dead = rw dead refl

    one_turn :
        (fuel : ℕ) (n n1 : Negotiation)
        → is_active n.status ≡ true
        → rule_turn runtimes n ≡ ok n1
        → rule_turns (suc fuel) runtimes n ≡ rule_turns fuel runtimes n1
    unfolding rule_turns
    one_turn fuel n n1 alive turned = rw (alive, turned) refl

    -- Targets that do not meet: the roles repeat them until the last turn, which rejects.
    haggling :
        (fuel : ℕ) (n : Negotiation) (k : ℕ)
        → Ready n (suc k)
        → Quoted n (role_after k)
        → leb_ℤ s.target_price_atomic b.target_price_atomic ≡ false
        → n.max_turns ≡ fuel + suc k
        → (n' : Negotiation) × (rule_turns fuel runtimes n ≡ ok n') × Rejected n.max_turns n'
    unfolding rule_turns
    haggling zero n k h q apart left = absurd (omega (arith, h.room, left))
    haggling (suc fuel) n k h q apart left = elim (Bool-cases (leb n.max_turns (suc (suc k)))) [
      | inl last ↦
          let full : length (with_turn n (role_after (suc k)) refusal).turns ≡ n.max_turns =
            ground (
              arith,
              last,
              h.room,
              h.count,
              length-append n.turns (
                  record {
                    sequence = suc (length n.turns);
                    role = role_after (suc k);
                    action = refusal;
                  }
                  ∷ []),
            ) in
          let n' : Negotiation = record (with_turn n (role_after (suc k)) refusal) {
            status = NegotiationStatus.rejected;
          } in
          (
            n',
            one_turn fuel n n' (ap is_active h.active) (refusing n k h q apart last)
                ∙ ended n' fuel refl,
            (refl, h.unpriced, full),
          )
      | inr more ↦
          let n1 : Negotiation =
            with_turn n (role_after (suc k)) (offer (strategy (role_after (suc k)))) in
          let (n', runs, end) =
            haggling fuel n1 (suc k)
              (Ready-snoc n (suc k) (role_after (suc k)) (offer (strategy (role_after (suc k)))) h
                (ground (arith, more)))
              (with_turn-Quoted n (role_after (suc k))) apart (omega (arith, left)) in
          (n', one_turn fuel n n1 (ap is_active h.active) (offering n k h q apart more) ∙ runs, end)
    ]

    -- Targets that meet: the seller accepts the buyer's opening.
    meeting :
        (fuel : ℕ) (n : Negotiation)
        → Ready n 1
        → Quoted n NegotiationRole.buyer
        → leb_ℤ s.target_price_atomic b.target_price_atomic ≡ true
        → (n' : Negotiation) × (rule_turns (suc fuel) runtimes n ≡ ok n')
          × ((n'.status ≡ NegotiationStatus.accepted_pending_settlement)
              × (n'.accepted_price_atomic ≡ some b.target_price_atomic)
              × (length n'.turns ≡ 2))
    unfolding rule_turns
    meeting fuel n h q fits =
        let n' : Negotiation = record (with_turn n NegotiationRole.seller acceptance) {
          status = NegotiationStatus.accepted_pending_settlement;
          accepted_price_atomic = some b.target_price_atomic;
        } in
        (
          n',
          one_turn fuel n n' (ap is_active h.active) (accepting n 0 h q fits) ∙ ended n' fuel refl,
          (
            refl,
            refl,
            omega (
              arith,
              h.count,
              length-append n.turns (
                  record {
                    sequence = suc (length n.turns);
                    role = NegotiationRole.seller;
                    action = acceptance;
                  }
                  ∷ []),
            ),
          ),
        )

    finishing :
        (fuel : ℕ) (n : Negotiation)
        → Ready n 0
        → n.turns ≡ []
        → n.max_turns ≡ suc (suc fuel)
        → (n' : Negotiation) × (rule_negotiation runtimes n ≡ ok n')
          × ((s.target_price_atomic ≤ℤ b.target_price_atomic
                → (n'.status ≡ NegotiationStatus.accepted_pending_settlement)
                  × (n'.accepted_price_atomic ≡ some b.target_price_atomic)
                  × (length n'.turns ≡ 2))
              × (b.target_price_atomic <ℤ s.target_price_atomic → Rejected n.max_turns n'))
    unfolding rule_negotiation
    finishing fuel n h start turns =
        let n1 : Negotiation = with_turn n NegotiationRole.buyer (offer b) in
        let h1 = Ready-snoc n 0 NegotiationRole.buyer (offer b) h (omega (arith, turns)) in
        let q1 = with_turn-Quoted n NegotiationRole.buyer in
        let first =
          one_turn (suc fuel) n n1 (ap is_active h.active)
            (opening n h start (omega (arith, turns))) in
        elim (Bool-cases (leb_ℤ s.target_price_atomic b.target_price_atomic)) [
          | inl fits ↦
              let (n', runs, end) = meeting fuel n1 h1 q1 fits in
              (
                n',
                ap (λ k. rule_turns k runtimes n) turns ∙ first ∙ runs,
                ((λ below. end), λ above. absurd (ground (arith, fits, above))),
              )
          | inr apart ↦
              let (n', runs, end) = haggling (suc fuel) n1 0 h1 q1 apart (omega (arith, turns)) in
              (
                n',
                ap (λ k. rule_turns k runtimes n) turns ∙ first ∙ runs,
                ((λ below. absurd (ground (arith, apart, below))), λ above. end),
              )
        ]

new_negotiation :
    (id buyer_id seller_id : String) (max_turns : ℕ) (n : Negotiation)
    → make_negotiation id buyer_id seller_id max_turns ≡ ok n
    → (2 ≤ max_turns)
      × (n ≡ record {
        negotiation_id = id;
        buyer_participant_id = buyer_id;
        seller_participant_id = seller_id;
        max_turns = max_turns;
        status = NegotiationStatus.active;
        turns = [];
        accepted_price_atomic = none;
      })
unfolding make_negotiation
new_negotiation id buyer_id seller_id max_turns n h =
    let (guards, same) =
      built
        ((ltb max_turns 2 || ltb 6 max_turns, max_turns_range)
          ∷ (buyer_id == seller_id, same_participant)
          ∷ [])
        (record {
          negotiation_id = id;
          buyer_participant_id = buyer_id;
          seller_participant_id = seller_id;
          max_turns = max_turns;
          status = NegotiationStatus.active;
          turns = [];
          accepted_price_atomic = none;
        })
        h in
    let range = guards.0 in (ground (arith, range), sym same)

by_role :
    (P : NegotiationRole → Type 0)
    → P NegotiationRole.buyer
    → P NegotiationRole.seller
    → (r : NegotiationRole) → P r
by_role P x y NegotiationRole.buyer = x
by_role P x y NegotiationRole.seller = y

-- Two rule runtimes whose offers are well formed finish every new negotiation within its turns: when the
-- seller's target is at most the buyer's, they agree on the buyer's in two turns; when it is higher, all
-- turns are made and the last one rejects.
pub rule_negotiation_ends :
    (runtimes : Dict String RuleStrategy) (b s : RuleStrategy) (id buyer_id seller_id : String)
    (max_turns : ℕ) (n : Negotiation)
    → make_negotiation id buyer_id seller_id max_turns ≡ ok n
    → Dict.get runtimes buyer_id ≡ some b
    → Dict.get runtimes seller_id ≡ some s
    → make_action (offer b) ≡ ok (offer b)
    → make_action (offer s) ≡ ok (offer s)
    → (n' : Negotiation) × (rule_negotiation runtimes n ≡ ok n')
      × ((s.target_price_atomic ≤ℤ b.target_price_atomic
            → (n'.status ≡ NegotiationStatus.accepted_pending_settlement)
              × (n'.accepted_price_atomic ≡ some b.target_price_atomic)
              × (length n'.turns ≡ 2))
          × (b.target_price_atomic <ℤ s.target_price_atomic
              → (n'.status ≡ NegotiationStatus.rejected)
                × (n'.accepted_price_atomic ≡ none)
                × (length n'.turns ≡ max_turns)))
rule_negotiation_ends runtimes b s id buyer_id seller_id max_turns n made has_b has_s made_b
      made_s =
    let (enough, new) = new_negotiation id buyer_id seller_id max_turns n made in
    let size : n.max_turns ≡ max_turns = ap (λ x. x.max_turns) new in
    let made_by =
      by_role
        (λ r. make_action (offer (strategy runtimes b s r)) ≡ ok (offer (strategy runtimes b s r)))
        made_b made_s in
    let ready : Ready runtimes b s n 0 = record {
      active = ap (λ x. x.status) new;
      count = ap (λ x. length x.turns) new;
      room = omega (arith, enough, size);
      unpriced = ap (λ x. x.accepted_price_atomic) new;
      runs =
          by_role (λ r. Dict.get runtimes (participant n r) ≡ some (strategy runtimes b s r))
            (ap (λ x. Dict.get runtimes x.buyer_participant_id) new ∙ has_b)
            (ap (λ x. Dict.get runtimes x.seller_participant_id) new ∙ has_s);
    } in
    let (n', runs, (meets, parts)) =
      finishing runtimes b s made_by (max_turns - 2) n ready (ap (λ x. x.turns) new)
        (omega (arith, enough, size)) in
    (
      n',
      runs,
      (meets, λ above. let (status, price, count) = parts above in (status, price, count ∙ size)),
    )
