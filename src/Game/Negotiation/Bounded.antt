-- ===== src/Game/Negotiation/Bounded.antt =====
-- What holds of a negotiation after any calls of `apply` and `expire`, the failing ones included.
use adx_agentic_payment.Base.{
  ℕ, suc, ◌+◌, ◌≤◌, ◌<◌, String, Bool, true, false, Option, none, some, List, [], ◌∷◌, ◌++◌, inl,
  inr, ◌≡◌, ◌≢◌, refl, ap, sym, ◌∙◌, arith, length, length-append, last?, All, All-append, Result,
  ok, err, Result-cases, built, Bool-cases, Option-cases, some_inj, checks, checks-AllPass,
  AllPass-checks, AllPass, not, ◌&&◌, ◌||◌, ltb, ◌==◌, nat_eq, string_eq,
}
use adx_agentic_payment.Base.Int.{ℤ, pos, ◌≤ℤ◌}
use mathlib.Core.Path.{subst}
use adx_agentic_payment.Game.Negotiation.{
  NegotiationRole, NegotiationActionKind, NegotiationStatus, NegotiationAction, NegotiationTurn,
  Negotiation, NegotiationError, is_propose, make_action, action_guards, make_negotiation,
  role_after, next_role, same_role, is_active, max_turns_range, same_participant, turn_guards,
  with_turn, act_by, accept_last, apply, expire,
}

-- A call with the arguments that a caller can make.
pub data Call : Type 0 where
  applies : NegotiationRole → NegotiationAction → Call
  expires : Call

abbrev pub IsMade : NegotiationAction → Type 0
IsMade a = make_action a ≡ ok a

abbrev pub IsProper : Call → Type 0
IsProper (applies role a) = IsMade a
IsProper expires = Unit

abbrev after : Result NegotiationError Negotiation → Negotiation → Negotiation
after (ok n') n = n'
after (err e) n = n

-- The negotiation after a call: a call that raises leaves it as it was.
unfoldable pub call : Call → Negotiation → Negotiation
call (applies role a) n = after (apply n role a) n
call expires n = expire n

unfoldable pub run : List Call → Negotiation → Negotiation
run [] n = n
run (c ∷ cs) n = run cs (call c n)

-- Turns after `k` others are numbered from `k + 1` and alternate.
abbrev pub Numbered : ℕ → List NegotiationTurn → Type 0
Numbered k [] = Unit
Numbered k (t ∷ ts) = (t.sequence ≡ suc k) × (t.role ≡ role_after k) × Numbered (suc k) ts

abbrev pub IsProposal : NegotiationTurn → Type 0
IsProposal t = t.action.action ≡ NegotiationActionKind.propose

-- The last turn accepts the proposal before it, which is the other role's, and the accepted price
-- is the proposal's and positive.
pub record Agreed (n : Negotiation) : Type 0 where
  pub earlier : List NegotiationTurn
  pub proposal : NegotiationTurn
  pub acceptance : NegotiationTurn
  pub price : ℤ
  pub at_end : n.turns ≡ earlier ++ proposal ∷ acceptance ∷ []
  pub proposes : IsProposal proposal
  pub accepts : acceptance.action.action ≡ NegotiationActionKind.accept
  pub other_role : same_role proposal.role acceptance.role ≡ false
  pub offered : proposal.action.price_atomic ≡ some price
  pub accepted : n.accepted_price_atomic ≡ some price
  pub positive : pos 1 ≤ℤ price

-- What a negotiation of each status looks like; the two settlement outcomes are not reached here.
abbrev pub Form : NegotiationStatus → Negotiation → Type 0
Form NegotiationStatus.active n =
    All IsProposal n.turns × (length n.turns < n.max_turns) × (n.accepted_price_atomic ≡ none)
Form NegotiationStatus.timeout n = All IsProposal n.turns × (n.accepted_price_atomic ≡ none)
Form NegotiationStatus.accepted_pending_settlement n = Agreed n
Form NegotiationStatus.rejected n = n.accepted_price_atomic ≡ none
Form NegotiationStatus.settled n = ⊥
Form NegotiationStatus.settlement_failed n = ⊥

pub record IsSound (n : Negotiation) : Type 0 where
  pub bounded : length n.turns ≤ n.max_turns
  pub limit : n.max_turns ≤ 6
  pub numbered : Numbered 0 n.turns
  pub made : All (λ t. IsMade t.action) n.turns
  pub form : Form n.status n

Numbered-snoc :
    (k m : ℕ) (ts : List NegotiationTurn) (t : NegotiationTurn)
    → Numbered k ts
    → m ≡ k + length ts
    → t.sequence ≡ suc m
    → t.role ≡ role_after m
    → Numbered k (ts ++ t ∷ [])
Numbered-snoc k m [] t h d e r =
    let same : m ≡ k = omega arith in (e ∙ ap suc same, r ∙ ap role_after same, tt)
Numbered-snoc k m (s ∷ ts) t h d e r =
    (h.0, h.1, Numbered-snoc (suc k) m ts t h.2 (omega arith) e r)

last?-split {ℓ} :
    {A : Type ℓ} (xs : List A) (x : A) → last? xs ≡ some x → (ys : List A) × (xs ≡ ys ++ x ∷ [])
last?-split [] x h = cc
last?-split (y ∷ []) x h = ([], cc)
last?-split (y ∷ z ∷ zs) x h = let (ys, e) = last?-split (z ∷ zs) x h in (y ∷ ys, ap (λ w. y ∷ w) e)

snoc-append {ℓ} : {A : Type ℓ} (ys : List A) (x y : A) → (ys ++ x ∷ []) ++ y ∷ [] ≡ ys ++ x ∷ y ∷ []
snoc-append [] x y = refl
snoc-append (z ∷ ys) x y = ap (λ w. z ∷ w) (snoc-append ys x y)

same_role-≡ : (a b : NegotiationRole) → same_role a b ≡ true → a ≡ b
same_role-≡ NegotiationRole.buyer NegotiationRole.buyer h = refl
same_role-≡ NegotiationRole.seller NegotiationRole.seller h = refl
same_role-≡ NegotiationRole.buyer NegotiationRole.seller h = cc
same_role-≡ NegotiationRole.seller NegotiationRole.buyer h = cc

-- The negotiation with a further turn, before its status.
module _ (n : Negotiation) (role : NegotiationRole) (a : NegotiationAction) where
  new_turn : NegotiationTurn
  new_turn = record { sequence = suc (length n.turns); role = role; action = a }

  turn-bounded :
      suc (length n.turns) ≤ n.max_turns → length (with_turn n role a).turns ≤ n.max_turns
  turn-bounded h = omega (
    arith,
    length-append n.turns
        (record { sequence = suc (length n.turns); role = role; action = a } ∷ []),
  )

  turn-Numbered : Numbered 0 n.turns → role ≡ next_role n → Numbered 0 (with_turn n role a).turns
  turn-Numbered h e =
      Numbered-snoc 0 (length n.turns) n.turns
        (record { sequence = suc (length n.turns); role = role; action = a }) h (omega arith) refl e

  turn-IsMade :
      All (λ t. IsMade t.action) n.turns
      → IsMade a
      → All (λ t. IsMade t.action) (with_turn n role a).turns
  turn-IsMade h m =
      All-append (λ t. IsMade t.action) n.turns
        (record { sequence = suc (length n.turns); role = role; action = a } ∷ []) h (m, tt)

  -- A turn that passed the guards keeps all but the form.
  turn-IsSound :
      (n' : Negotiation)
      → IsSound n
      → IsMade a
      → role ≡ next_role n
      → suc (length n.turns) ≤ n.max_turns
      → n'.turns ≡ (with_turn n role a).turns
      → n'.max_turns ≡ n.max_turns
      → Form n'.status n'
      → IsSound n'
  turn-IsSound n' s m e b et em f = record {
    bounded = rw (et, em) (turn-bounded b);
    limit = rw em s.limit;
    numbered = rw et (turn-Numbered s.numbered e);
    made = rw et (turn-IsMade s.made m);
    form = f;
  }

-- A proposal that was made carries a positive price.
proposal_price :
    (a : NegotiationAction)
    → IsMade a
    → a.action ≡ NegotiationActionKind.propose
    → (x : ℤ) × (a.price_atomic ≡ some x) × (pos 1 ≤ℤ x)
unfolding make_action
proposal_price a m e = elim (Option-cases a.price_atomic) [
  | inl absent ↦ let g = (built (action_guards a) a m).0.0 in cc (rw (e, absent) at g)
  | inr (x, present) ↦
      let g = (built (action_guards a) a m).0.0 in
      let g' = rw (e, present) at g in (x, present, ground (arith, g'))
]

All-last {ℓ κ} :
    {A : Type ℓ} (P : A → Type κ) (xs : List A) (x : A) → All P xs → last? xs ≡ some x → P x
All-last P [] x h e = cc
All-last P (y ∷ []) x h e = subst P (some_inj e) h.0
All-last P (y ∷ z ∷ zs) x h e = All-last P (z ∷ zs) x h.1 e

-- What an acceptance that returns has seen.
accept_last-ok :
    (o : Option NegotiationTurn) (n n' : Negotiation) (role : NegotiationRole)
    (a : NegotiationAction)
    → accept_last o n role a ≡ ok n'
    → (p : NegotiationTurn) × (o ≡ some p)
      × (same_role p.role role ≡ false)
      × (n' ≡ record (with_turn n role a) {
        status = NegotiationStatus.accepted_pending_settlement;
        accepted_price_atomic = p.action.price_atomic;
      })
accept_last-ok none n n' role a h = cc
accept_last-ok (some p) n n' role a h = elim (Bool-cases (same_role p.role role)) [
  | inl same ↦ cc (rw same at h)
  | inr other ↦ elim (Bool-cases (is_propose p.action.action)) [
    | inl e ↦ (p, refl, other, cc (rw (other, e) at h))
    | inr e ↦ cc (rw (other, e) at h)
  ]
]

accept-IsSound :
    (n n' : Negotiation) (role : NegotiationRole) (a : NegotiationAction)
    → IsSound n
    → All IsProposal n.turns
    → IsMade a
    → role ≡ next_role n
    → suc (length n.turns) ≤ n.max_turns
    → a.action ≡ NegotiationActionKind.accept
    → accept_last (last? n.turns) n role a ≡ ok n'
    → IsSound n'
accept-IsSound n n' role a s proposals m e b kind h =
    let (p, found, other, result) = accept_last-ok (last? n.turns) n n' role a h in
    let (earlier, split) = last?-split n.turns p found in
    let proposes = All-last IsProposal n.turns p proposals found in
    let (x, offered, positive) =
      proposal_price p.action (All-last (λ t. IsMade t.action) n.turns p s.made found) proposes in
    subst IsSound (sym result) (
      turn-IsSound n role a (accepted_form p) s m e b refl refl (record {
        earlier = earlier;
        proposal = p;
        acceptance = record { sequence = suc (length n.turns); role = role; action = a };
        price = x;
        at_end =
            ap
              (λ ts. ts ++ record { sequence = suc (length n.turns); role = role; action = a } ∷ [])
              split
            ∙ snoc-append earlier p
                (record { sequence = suc (length n.turns); role = role; action = a });
        proposes = proposes;
        accepts = kind;
        other_role = other;
        offered = offered;
        accepted = offered;
        positive = positive;
      }))
  where
    accepted_form : NegotiationTurn → Negotiation
    accepted_form p = record (with_turn n role a) {
      status = NegotiationStatus.accepted_pending_settlement;
      accepted_price_atomic = p.action.price_atomic;
    }

-- The guards that a turn has passed.
passed :
    (n n' : Negotiation) (role : NegotiationRole) (a : NegotiationAction)
    → apply n role a ≡ ok n'
    → AllPass (turn_guards n role a) × (act_by a.action n role a ≡ ok n')
unfolding apply
passed n n' role a h = elim (Result-cases (checks (turn_guards n role a))) [
  | inl (u, e) ↦ (checks-AllPass (turn_guards n role a) e, rw e at h)
  | inr (x, e) ↦ cc (rw e at h)
]

active_only : (st : NegotiationStatus) → not (is_active st) ≡ false → st ≡ NegotiationStatus.active
active_only NegotiationStatus.active h = refl
active_only NegotiationStatus.accepted_pending_settlement h = cc
active_only NegotiationStatus.settled h = cc
active_only NegotiationStatus.settlement_failed h = cc
active_only NegotiationStatus.rejected h = cc
active_only NegotiationStatus.timeout h = cc

-- The form of an active negotiation, by its status.
active-Form :
    (n : Negotiation)
    → IsSound n
    → n.status ≡ NegotiationStatus.active
    → Form NegotiationStatus.active n
active-Form n s e = subst (λ st. Form st n) e s.form

act-IsSound :
    (k : NegotiationActionKind) (n n' : Negotiation) (role : NegotiationRole)
    (a : NegotiationAction)
    → a.action ≡ k
    → IsSound n
    → IsMade a
    → AllPass (turn_guards n role a)
    → act_by k n role a ≡ ok n'
    → IsSound n'
act-IsSound k n n' role a kind s m g h =
    let live = active_only n.status g.0 in
    let f = active-Form n s live in
    let mine = same_role-≡ role (next_role n) (ground (arith, g.1.0)) in
    let room : suc (length n.turns) ≤ n.max_turns = omega (arith, f.1) in
    by_kind k kind live f mine room g.1.1.1.1.0 h
  where
    by_kind :
        (k : NegotiationActionKind)
        → a.action ≡ k
        → n.status ≡ NegotiationStatus.active
        → Form NegotiationStatus.active n
        → role ≡ next_role n
        → suc (length n.turns) ≤ n.max_turns
        → ((suc (length n.turns) == n.max_turns) && is_propose a.action) ≡ false
        → act_by k n role a ≡ ok n'
        → IsSound n'
    by_kind NegotiationActionKind.accept kind live f mine room last h =
        accept-IsSound n n' role a s f.0 m mine room kind h
    by_kind NegotiationActionKind.reject kind live f mine room last h = subst IsSound (cc h) (
        turn-IsSound n role a (record (with_turn n role a) { status = NegotiationStatus.rejected })
          s m mine room refl refl f.2)
    by_kind NegotiationActionKind.propose kind live f mine room last h = subst IsSound (cc h) (
        turn-IsSound n role a (with_turn n role a) s m mine room refl refl (
          subst (λ st. Form st (with_turn n role a)) (sym live)
            (
              All-append IsProposal n.turns
                  (record { sequence = suc (length n.turns); role = role; action = a } ∷ []) f.0
                  (kind, tt),
              (let more = rw kind at last in
                  let grown =
                    length-append n.turns
                      (record { sequence = suc (length n.turns); role = role; action = a } ∷ []) in
                  ground arith),
              f.2,
            )))

expire-IsSound : (n : Negotiation) → IsSound n → IsSound (expire n)
unfolding expire
expire-IsSound n s = elim (Bool-cases (is_active n.status)) [
  | inl live ↦
      let f = active-Form n s (active_only n.status (ap not live)) in
      rw live (record {
        bounded = s.bounded;
        limit = s.limit;
        numbered = s.numbered;
        made = s.made;
        form = (f.0, f.2);
      })
  | inr dead ↦ rw dead s
]

call-IsSound : (c : Call) (n : Negotiation) → IsProper c → IsSound n → IsSound (call c n)
unfolding call
call-IsSound (applies role a) n m s = elim (Result-cases (apply n role a)) [
  | inl (n', e) ↦
      let (g, h) = passed n n' role a e in rw e (act-IsSound a.action n n' role a refl s m g h)
  | inr (x, e) ↦ rw e s
]
call-IsSound expires n m s = expire-IsSound n s

run-IsSound : (cs : List Call) (n : Negotiation) → All IsProper cs → IsSound n → IsSound (run cs n)
unfolding run
run-IsSound [] n m s = s
run-IsSound (c ∷ cs) n m s = run-IsSound cs (call c n) m.1 (call-IsSound c n m.0 s)

make_negotiation-IsSound :
    (id b s : String) (max_turns : ℕ) (n : Negotiation)
    → make_negotiation id b s max_turns ≡ ok n
    → IsSound n
unfolding make_negotiation
make_negotiation-IsSound id b s max_turns n h =
    let (g, e) =
      built
        ((ltb max_turns 2 || ltb 6 max_turns, max_turns_range) ∷ (b == s, same_participant) ∷ [])
        (record {
          negotiation_id = id;
          buyer_participant_id = b;
          seller_participant_id = s;
          max_turns = max_turns;
          status = NegotiationStatus.active;
          turns = [];
          accepted_price_atomic = none;
        })
        h in
    let range = g.0 in
    subst IsSound e (record {
      bounded = omega arith;
      limit = ground (arith, range);
      numbered = tt;
      made = tt;
      form = (tt, ground (arith, range), refl);
    })

-- After any calls with made actions on a new negotiation, whatever they return or raise: there are
-- at most `max_turns` turns, which are at most six, numbered from one, made by buyer and seller in
-- turn; while it is active, and after a timeout, all of them are proposals, and while it is active
-- a further turn is left; an accepted price is the positive price of the other role's proposal
-- directly before the acceptance, which is the last turn; and otherwise there is no accepted price.
pub negotiation-IsSound :
    (id b s : String) (max_turns : ℕ) (n : Negotiation) (cs : List Call)
    → make_negotiation id b s max_turns ≡ ok n
    → All IsProper cs
    → IsSound (run cs n)
negotiation-IsSound id b s max_turns n cs made proper =
    run-IsSound cs n proper (make_negotiation-IsSound id b s max_turns n made)

same_role_refl : (r : NegotiationRole) → not (same_role r r) ≡ false
same_role_refl NegotiationRole.buyer = refl
same_role_refl NegotiationRole.seller = refl

no_proposal : (b : Bool) → (b && false) ≡ false
no_proposal true = refl
no_proposal false = refl

first_turn : (ts : List NegotiationTurn) → ts ≢ [] → ((suc (length ts) == 1) && true) ≡ false
first_turn [] h = absurd (h refl)
first_turn (t ∷ ts) h = ground arith

-- After any calls with made actions on a new negotiation: if it is active and has a turn, then a
-- rejection by the role that is to act returns, and the negotiation is rejected.
pub can_reject :
    (id b s : String) (max_turns : ℕ) (n : Negotiation) (cs : List Call)
    → make_negotiation id b s max_turns ≡ ok n
    → All IsProper cs
    → (run cs n).status ≡ NegotiationStatus.active
    → (run cs n).turns ≢ []
    → (n' : Negotiation) × (apply
          (run cs n)
          (next_role (run cs n))
          (record { action = NegotiationActionKind.reject; price_atomic = none; message = none })
        ≡ ok n')
      × (n'.status ≡ NegotiationStatus.rejected)
unfolding apply
can_reject id b s max_turns n cs made proper live some_turn =
    closes (run cs n) (negotiation-IsSound id b s max_turns n cs made proper) live some_turn
  where
    closes :
        (n : Negotiation)
        → IsSound n
        → n.status ≡ NegotiationStatus.active
        → n.turns ≢ []
        → (n' : Negotiation) × (apply n (next_role n) (record {
          action = NegotiationActionKind.reject;
          price_atomic = none;
          message = none;
        })
            ≡ ok n')
          × (n'.status ≡ NegotiationStatus.rejected)
    closes n s live some_turn =
        let f = active-Form n s live in
        let a : NegotiationAction = record {
          action = NegotiationActionKind.reject;
          price_atomic = none;
          message = none;
        } in
        let pass : AllPass (turn_guards n (next_role n) a) = (
          rw live refl,
          (
            same_role_refl (next_role n),
            (
              ground arith,
              (
                first_turn n.turns some_turn,
                (no_proposal (suc (length n.turns) == n.max_turns), tt),
              ),
            ),
          ),
        ) in
        (
          record (with_turn n (next_role n) a) { status = NegotiationStatus.rejected },
          rw (AllPass-checks (turn_guards n (next_role n) a) pass) refl,
          refl,
        )
