-- ===== src/Game/Rounds/Phases.antt =====
-- The order of the phases, after any calls, the failing ones included.
use adx_agentic_payment.Base.{
  ℕ, suc, ◌-◌, ◌≤◌, String, Bool, true, false, ◌||◌, ◌&&◌, Option, none, some, List, [], ◌∷◌, any,
  contains, get_elem?, leb, ltb, ◌==◌, ==_iff, nat_eq, string_eq, is_none, ok, checks,
  checks-AllPass, if◌then◌else◌, ◌≡◌, ◌≢◌, refl, ap, sym, ◌∙◌, inl, inr, ◌⊎◌, Bool-cases,
  Result-cases, Option-cases, arith, built,
}
use adx_agentic_payment.Base.Dict
use mathlib.Core.Path.{subst}
use adx_agentic_payment.Game.Events.{WorldEvent, reveal, snapshot}
use adx_agentic_payment.Game.Portfolio.{Portfolio, distribute_balanced_portfolios}
use adx_agentic_payment.Payments.Models.{is_empty}
use adx_agentic_payment.Game.Goods.{initial_prices}
use adx_agentic_payment.Game.Ranking.{calculate_rankings}
use adx_agentic_payment.Game.Rounds.{
  GamePhase, RoundPhase, GameConfig, PawnhouseGame, config_guards, game_guards, new_game, make_game,
  phase_code, in_phase, in_round, is_round, allowed, join, configure_portfolio, lock_portfolios,
  distribute, reveal_current_event, start, move_round_phase, next_round, open_round, complete,
  portfolios_of, keys_of, PortfolioMode,
}

-- Where the round counter and the round's phase stand in each phase of the game.
abbrev pub Standing : GamePhase → ℕ → Option RoundPhase → ℕ → Type 0
Standing GamePhase.running round p count = (1 ≤ round) × (round ≤ count) × (p ≢ none)
Standing GamePhase.final_valuation round p count = (round ≡ count) × (p ≡ none)
Standing GamePhase.completed round p count = (round ≡ count) × (p ≡ none)
Standing GamePhase.cancelled round p count = ⊥
Standing GamePhase.registration round p count = (round ≡ 0) × (p ≡ none)
Standing GamePhase.portfolio_setup round p count = (round ≡ 0) × (p ≡ none)
Standing GamePhase.portfolio_locked round p count = (round ≡ 0) × (p ≡ none)

pub record IsOrderly (g : PawnhouseGame) : Type 0 where
  pub rounds : 1 ≤ g.config.round_count
  pub standing : Standing g.phase g.current_round g.round_phase g.config.round_count

abbrev phase_of : ℕ → GamePhase
phase_of n =
    if n == 0
    then GamePhase.registration
    else if n == 1
    then GamePhase.portfolio_setup
    else if n == 2
    then GamePhase.portfolio_locked
    else if n == 3
    then GamePhase.running
    else if n == 4
    then GamePhase.final_valuation
    else if n == 5
    then GamePhase.completed
    else GamePhase.cancelled

phase_of-code : (p : GamePhase) → phase_of (phase_code p) ≡ p
phase_of-code GamePhase.registration = refl
phase_of-code GamePhase.portfolio_setup = refl
phase_of-code GamePhase.portfolio_locked = refl
phase_of-code GamePhase.running = refl
phase_of-code GamePhase.final_valuation = refl
phase_of-code GamePhase.completed = refl
phase_of-code GamePhase.cancelled = refl

in_phase-≡ : (p : GamePhase) (g : PawnhouseGame) → in_phase p g ≡ true → g.phase ≡ p
in_phase-≡ p g h =
    sym (phase_of-code g.phase)
    ∙ ap phase_of ((==_iff (phase_code g.phase) (phase_code p)).0 h)
    ∙ phase_of-code p

both_left : (a b : Bool) → (a && b) ≡ true → a ≡ true
both_left true b h = refl
both_left false b h = cc

in_round-running :
    (p : RoundPhase) (g : PawnhouseGame) → in_round p g ≡ true → g.phase ≡ GamePhase.running
in_round-running p g h =
    in_phase-≡ GamePhase.running g
      (both_left (in_phase GamePhase.running g) (is_round g.round_phase p) h)

Standing-in :
    (p : GamePhase) (g : PawnhouseGame)
    → g.phase ≡ p
    → IsOrderly g
    → Standing p g.current_round g.round_phase g.config.round_count
Standing-in p g e o =
    subst (λ x. Standing x g.current_round g.round_phase g.config.round_count) e o.standing

-- A state in a known phase.
IsOrderly-in :
    (p : GamePhase) (g : PawnhouseGame)
    → g.phase ≡ p
    → 1 ≤ g.config.round_count
    → Standing p g.current_round g.round_phase g.config.round_count
    → IsOrderly g
IsOrderly-in p g e r st = record {
  rounds = r;
  standing = subst (λ x. Standing x g.current_round g.round_phase g.config.round_count) (sym e) st;
}

some_phase : (p : RoundPhase) → some p ≢ none
some_phase p e = cc

reveal_current_event-IsOrderly :
    (g : PawnhouseGame) → IsOrderly g → IsOrderly (reveal_current_event g).1
unfolding reveal_current_event
reveal_current_event-IsOrderly g o = elim (Bool-cases (in_round RoundPhase.event_reveal g)) [
  | inr out ↦ rw out o
  | inl here ↦
      let running = in_round-running RoundPhase.event_reveal g here in
      let st = Standing-in GamePhase.running g running o in
      elim (Option-cases (get_elem? g.events (g.current_round - 1))) [
        | inl gone ↦ rw (here, gone) o
        | inr (e, found) ↦ elim (Result-cases ((reveal e.event_id g.current_round g.world).0)) [
          | inl (s, shown) ↦
              rw (here, found, shown)
                (IsOrderly-in GamePhase.running
                  (record g {
                    world = (reveal e.event_id g.current_round g.world).1;
                    round_phase = some RoundPhase.decide;
                  })
                  running o.rounds (st.0, st.1, some_phase RoundPhase.decide))
          | inr (x, failed) ↦
              rw (here, found, failed)
                (IsOrderly-in GamePhase.running
                  (record g { world = (reveal e.event_id g.current_round g.world).1 }) running
                  o.rounds st)
        ]
      ]
]

start-IsOrderly : (g : PawnhouseGame) → IsOrderly g → IsOrderly (start g).1
unfolding start
start-IsOrderly g o = elim (Bool-cases (in_phase GamePhase.portfolio_locked g)) [
  | inr out ↦ rw out o
  | inl here ↦ rw here (
      reveal_current_event-IsOrderly
        (record g {
          phase = GamePhase.running;
          current_round = 1;
          round_phase = some RoundPhase.event_reveal;
        })
        (record {
          rounds = o.rounds;
          standing = (omega arith, o.rounds, some_phase RoundPhase.event_reveal);
        }))
]

move_round_phase-IsOrderly :
    (expected target : RoundPhase) (g : PawnhouseGame)
    → IsOrderly g
    → IsOrderly (move_round_phase expected target g).1
unfolding move_round_phase
move_round_phase-IsOrderly expected target g o = elim (Bool-cases (in_round expected g)) [
  | inr out ↦ rw out o
  | inl here ↦ elim (Bool-cases (is_round (allowed expected) target)) [
    | inr bad ↦ rw (here, bad) o
    | inl good ↦
        let running = in_round-running expected g here in
        let st = Standing-in GamePhase.running g running o in
        rw (here, good)
          (IsOrderly-in GamePhase.running (record g { round_phase = some target }) running o.rounds
            (st.0, st.1, some_phase target))
  ]
]

-- What follows a round does not depend on the outcome of the reveal.
open_round-state :
    (g : PawnhouseGame)
    → (open_round g).1
      ≡ (reveal_current_event (record g {
        current_round = suc g.current_round;
        round_phase = some RoundPhase.event_reveal;
      })).1
unfolding open_round
open_round-state g =
    elim (Result-cases (
      (reveal_current_event (record g {
        current_round = suc g.current_round;
        round_phase = some RoundPhase.event_reveal;
      })).0)) [ inl (s, e) ↦ rw e refl | inr (x, e) ↦ rw e refl ]

next_round-IsOrderly : (g : PawnhouseGame) → IsOrderly g → IsOrderly (next_round g).1
unfolding next_round
next_round-IsOrderly g o = elim (Bool-cases (in_round RoundPhase.round_completed g)) [
  | inr out ↦ rw out o
  | inl here ↦
      let running = in_round-running RoundPhase.round_completed g here in
      let st = Standing-in GamePhase.running g running o in
      elim (Bool-cases (leb g.config.round_count g.current_round)) [
        | inl last ↦
            let high = st.1 in
            rw (here, last) (record { rounds = o.rounds; standing = (ground (arith, last), refl) })
        | inr more ↦
            rw (here, more)
              (subst IsOrderly (sym (open_round-state g)) (
                reveal_current_event-IsOrderly
                  (record g {
                    current_round = suc g.current_round;
                    round_phase = some RoundPhase.event_reveal;
                  })
                  (IsOrderly-in GamePhase.running
                    (record g {
                      current_round = suc g.current_round;
                      round_phase = some RoundPhase.event_reveal;
                    })
                    running o.rounds
                    (omega arith, ground (arith, more), some_phase RoundPhase.event_reveal))))
      ]
]

either : (a b : Bool) → (a || b) ≡ true → (a ≡ true) ⊎ (b ≡ true)
either true b h = inl refl
either false b h = inr h

join-IsOrderly :
    (user_id agent_id : String) (g : PawnhouseGame)
    → IsOrderly g
    → IsOrderly (join user_id agent_id g).1
unfolding join
join-IsOrderly user_id agent_id g o =
    elim (Bool-cases (in_phase GamePhase.registration g || in_phase GamePhase.portfolio_setup g)) [
      | inr closed ↦ rw closed o
      | inl early ↦ elim (Bool-cases (is_empty user_id || is_empty agent_id)) [
        | inl missing ↦ rw (early, missing) o
        | inr given ↦ elim (Bool-cases (contains g.users user_id)) [
          | inl twice ↦ rw (early, given, twice) o
          | inr once ↦ elim (Bool-cases (Dict.has g.participants agent_id)) [
            | inl twice ↦ rw (early, given, once, twice) o
            | inr fresh ↦
                elim (Bool-cases (leb g.config.max_participants (Dict.size g.participants))) [
                  | inl full ↦ rw (early, given, once, fresh, full) o
                  | inr room ↦
                      rw (early, given, once, fresh, room)
                        (record { rounds = o.rounds; standing = unstarted early })
                ]
          ]
        ]
      ]
    ]
  where
    unstarted :
        (in_phase GamePhase.registration g || in_phase GamePhase.portfolio_setup g) ≡ true
        → (g.current_round ≡ 0) × (g.round_phase ≡ none)
    unstarted early =
        elim (either (in_phase GamePhase.registration g) (in_phase GamePhase.portfolio_setup g)
          early) [
            | inl r ↦ Standing-in GamePhase.registration g (in_phase-≡ GamePhase.registration g r) o
            | inr s ↦
                Standing-in GamePhase.portfolio_setup g (in_phase-≡ GamePhase.portfolio_setup g s) o
          ]

configure_portfolio-IsOrderly :
    (agent_id : String) (p : Portfolio) (g : PawnhouseGame)
    → IsOrderly g
    → IsOrderly (configure_portfolio agent_id p g).1
unfolding configure_portfolio
configure_portfolio-IsOrderly agent_id p g o =
    elim (Bool-cases (in_phase GamePhase.portfolio_setup g)) [
      | inr out ↦ rw out o
      | inl setup ↦ elim (Option-cases (Dict.get g.participants agent_id)) [
        | inl gone ↦ rw (setup, gone) o
        | inr (q, found) ↦ rw (setup, found) (record { rounds = o.rounds; standing = o.standing })
      ]
    ]

complete-IsOrderly : (g : PawnhouseGame) → IsOrderly g → IsOrderly (complete g).1
unfolding complete
complete-IsOrderly g o = elim (Bool-cases (in_phase GamePhase.final_valuation g)) [
  | inr out ↦ rw out o
  | inl final ↦
      let st =
        Standing-in GamePhase.final_valuation g (in_phase-≡ GamePhase.final_valuation g final) o in
      elim (Result-cases (snapshot g.world g.config.round_count)) [
        | inr (x, e) ↦ rw (final, e) o
        | inl (s, e) ↦ elim (Result-cases (portfolios_of g.participants.entries Dict.empty)) [
          | inr (x, f) ↦ rw (final, e, f) o
          | inl (ps, f) ↦ elim (Result-cases (calculate_rankings ps s.prices.final_prices)) [
            | inr (x, k) ↦ rw (final, e, f, k) o
            | inl (rs, k) ↦ rw (final, e, f, k) (record { rounds = o.rounds; standing = st })
          ]
        ]
      ]
]

-- A call of a method.
pub data Op : Type 0 where
  joins : String → String → Op
  configures : String → Portfolio → Op
  locks starts reveals advances completes : Op
  moves : RoundPhase → RoundPhase → Op

module _ (digest : String → ℕ) where
  distribute-IsOrderly :
      (m : PortfolioMode) (g : PawnhouseGame) → IsOrderly g → IsOrderly (distribute digest m g).1
  unfolding distribute
  distribute-IsOrderly PortfolioMode.manual g o = o
  distribute-IsOrderly PortfolioMode.balanced_auto g o =
      elim (Result-cases (
        distribute_balanced_portfolios digest (keys_of g.participants.entries) g.event_seed
          initial_prices)) [
            | inl (ps, e) ↦ rw e (record { rounds = o.rounds; standing = o.standing })
            | inr (x, e) ↦ rw e o
          ]

  distribute-phase :
      (m : PortfolioMode) (g : PawnhouseGame) → ((distribute digest m g).1.phase ≡ g.phase)
  unfolding distribute
  distribute-phase PortfolioMode.manual g = refl
  distribute-phase PortfolioMode.balanced_auto g =
      elim (Result-cases (
        distribute_balanced_portfolios digest (keys_of g.participants.entries) g.event_seed
          initial_prices)) [ inl (ps, e) ↦ rw e refl | inr (x, e) ↦ rw e refl ]

  lock_portfolios-IsOrderly :
      (g : PawnhouseGame) → IsOrderly g → IsOrderly (lock_portfolios digest g).1
  unfolding lock_portfolios
  lock_portfolios-IsOrderly g o = elim (Bool-cases (in_phase GamePhase.portfolio_setup g)) [
    | inr out ↦ rw out o
    | inl setup ↦ elim (Bool-cases (ltb (Dict.size g.participants) g.config.min_participants)) [
      | inl few ↦ rw (setup, few) o
      | inr enough ↦
          let h = (distribute digest g.config.portfolio_mode g).1 in
          let oh = distribute-IsOrderly g.config.portfolio_mode g o in
          let st =
            Standing-in GamePhase.portfolio_setup h
              (distribute-phase g.config.portfolio_mode g
                ∙ in_phase-≡ GamePhase.portfolio_setup g setup)
              oh in
          elim (Result-cases ((distribute digest g.config.portfolio_mode g).0)) [
            | inr (x, e) ↦ rw (setup, enough, e) oh
            | inl (u, e) ↦
                elim (Bool-cases (any (λ p. is_none p.portfolio) (Dict.values h.participants))) [
                  | inl missing ↦ rw (setup, enough, e, missing) oh
                  | inr all ↦
                      rw (setup, enough, e, all) (record { rounds = oh.rounds; standing = st })
                ]
          ]
    ]
  ]

  -- The game after a call, whether it returned or raised.
  unfoldable pub apply : Op → PawnhouseGame → PawnhouseGame
  apply (joins u a) g = (join u a g).1
  apply (configures a p) g = (configure_portfolio a p g).1
  apply locks g = (lock_portfolios digest g).1
  apply starts g = (start g).1
  apply reveals g = (reveal_current_event g).1
  apply advances g = (next_round g).1
  apply completes g = (complete g).1
  apply (moves expected target) g = (move_round_phase expected target g).1

  unfoldable pub run : List Op → PawnhouseGame → PawnhouseGame
  run [] g = g
  run (op ∷ ops) g = run ops (apply op g)

  apply-IsOrderly : (op : Op) (g : PawnhouseGame) → IsOrderly g → IsOrderly (apply op g)
  unfolding apply
  apply-IsOrderly (joins u a) g o = join-IsOrderly u a g o
  apply-IsOrderly (configures a p) g o = configure_portfolio-IsOrderly a p g o
  apply-IsOrderly locks g o = lock_portfolios-IsOrderly g o
  apply-IsOrderly starts g o = start-IsOrderly g o
  apply-IsOrderly reveals g o = reveal_current_event-IsOrderly g o
  apply-IsOrderly advances g o = next_round-IsOrderly g o
  apply-IsOrderly completes g o = complete-IsOrderly g o
  apply-IsOrderly (moves expected target) g o = move_round_phase-IsOrderly expected target g o

  run-IsOrderly : (ops : List Op) (g : PawnhouseGame) → IsOrderly g → IsOrderly (run ops g)
  unfolding run
  run-IsOrderly [] g o = o
  run-IsOrderly (op ∷ ops) g o = run-IsOrderly ops (apply op g) (apply-IsOrderly op g o)

  make_game-IsOrderly :
      (id : String) (config : GameConfig) (events : List WorldEvent) (seed : String)
      (g : PawnhouseGame)
      → make_game id config events seed ≡ ok g
      → IsOrderly g
  unfolding make_game
  make_game-IsOrderly id config events seed g h =
      elim (Result-cases (checks (config_guards config))) [
        | inr (x, e) ↦ cc (rw e at h)
        | inl (u, e) ↦
            let (pass, same) =
              built (game_guards id config events seed) (new_game id config events seed)
                (rw e at h) in
            let range = (checks-AllPass (config_guards config) e).0 in
            subst IsOrderly same
              (record { rounds = ground (arith, range); standing = (refl, refl) })
      ]

  -- After any calls on a new game, whatever they return or raise: while it runs, the round is from
  -- one to the configured number and has a phase; before, the round is zero and has no phase; from
  -- the final valuation on, the round is the last and has no phase; and it is never cancelled.
  pub game-IsOrderly :
      (id : String) (config : GameConfig) (events : List WorldEvent) (seed : String)
      (g : PawnhouseGame) (ops : List Op)
      → make_game id config events seed ≡ ok g
      → IsOrderly (run ops g)
  game-IsOrderly id config events seed g ops h =
      run-IsOrderly ops g (make_game-IsOrderly id config events seed g h)
