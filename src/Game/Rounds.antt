-- ===== src/Game/Rounds.antt =====
-- arena_game/game.py: the phases of a game and of its rounds.
pub mod Phases
use adx_agentic_payment.Base.{
  ℕ, zero, suc, ◌-◌, ◌+◌, String, Bool, true, false, not, ◌||◌, ◌&&◌, Option, none, some, List, [],
  ◌∷◌, map, any, has_duplicates, get_elem?, contains, length, leb, ltb, ◌==◌, nat_eq, string_eq,
  is_none, Result, ok, err, checks, and_then, if◌then◌else◌, Action, pure, raise, raise_if, gets,
  modify, lift, or_raise, ◌>>=◌, ◌>>◌,
}
use adx_agentic_payment.Base.Int.{ℤ}
use adx_agentic_payment.Base.Dict
use adx_agentic_payment.Base.Dict.{Dict}
use adx_agentic_payment.Payments.Models.{is_empty}
use adx_agentic_payment.Game.Goods.{initial_prices}
use adx_agentic_payment.Game.Events.{
  EventError, WorldEvent, WorldState, WorldSnapshot, reveal, snapshot,
}
use adx_agentic_payment.Game.Portfolio.{Portfolio, PortfolioError, distribute_balanced_portfolios}
use adx_agentic_payment.Game.Ranking.{RankingEntry, calculate_rankings}

pub data GamePhase : Type 0 where
  registration portfolio_setup portfolio_locked running final_valuation completed cancelled :
      GamePhase

pub data RoundPhase : Type 0 where
  event_reveal decide match negotiate settle round_close round_completed : RoundPhase

-- `GameError` by its messages, and the errors of the parts.
pub data GameError : Type 0 where
  game_id_required seed_required one_event_per_round round_cover duplicate_events : GameError
  round_count_range timeout_range turns_range participant_bounds : GameError
  not_accepting ids_required user_twice agent_twice participant_limit : GameError
  setup_only not_participant not_in_setup not_enough portfolio_required : GameError
  not_locked not_ready_to_reveal invalid_transition round_not_complete not_ready_for_valuation :
      GameError
  portfolio_missing index_error : GameError
  event_error : EventError → GameError
  portfolio_error : PortfolioError → GameError

pub data PortfolioMode : Type 0 where
  manual balanced_auto : PortfolioMode

pub record GameConfig : Type 0 where
  pub round_count : ℕ
  pub action_timeout_ms : ℕ
  pub max_negotiation_turns : ℕ
  pub min_participants : ℕ
  pub max_participants : ℕ
  pub portfolio_mode : PortfolioMode

-- `GameConfig.__post_init__`.
abbrev pub config_guards : GameConfig → List (Bool × GameError)
config_guards c =
    (ltb c.round_count 1 || ltb 20 c.round_count, round_count_range)
    ∷ (ltb c.action_timeout_ms 100 || ltb 900000 c.action_timeout_ms, timeout_range)
    ∷ (ltb c.max_negotiation_turns 2 || ltb 6 c.max_negotiation_turns, turns_range)
    ∷ (ltb c.min_participants 2 || ltb c.max_participants c.min_participants, participant_bounds)
    ∷ []

pub record GameParticipant : Type 0 where
  pub user_id : String
  pub agent_id : String
  pub portfolio : Option Portfolio

pub record PawnhouseGame : Type 0 where
  pub game_id : String
  pub config : GameConfig
  pub events : List WorldEvent
  pub event_seed : String
  pub phase : GamePhase
  pub current_round : ℕ
  pub round_phase : Option RoundPhase
  pub participants : Dict String GameParticipant
  pub users : List String
  pub world : WorldState
  pub rankings : List RankingEntry

-- `list(range(start, start + count))`.
abbrev pub numbers_from : ℕ → ℕ → List ℕ
numbers_from start zero = []
numbers_from start (suc count) = start ∷ numbers_from (suc start) count

abbrev same_numbers : List ℕ → List ℕ → Bool
same_numbers [] [] = true
same_numbers (x ∷ xs) (y ∷ ys) = (x == y) && same_numbers xs ys
same_numbers _ _ = false

-- `PawnhouseGame.__post_init__`; the commitment, a digest of the schedule, is left out.
abbrev pub game_guards : String → GameConfig → List WorldEvent → String → List (Bool × GameError)
game_guards id config events seed =
    (is_empty id, game_id_required)
    ∷ (is_empty seed, seed_required)
    ∷ (not (length events == config.round_count), one_event_per_round)
    ∷ (
      not (same_numbers (map (λ e. e.reveal_round) events) (numbers_from 1 config.round_count)),
      round_cover,
    )
    ∷ (has_duplicates (map (λ e. e.event_id) events), duplicate_events)
    ∷ []

abbrev catalog_of : List WorldEvent → List (String × WorldEvent)
catalog_of [] = []
catalog_of (e ∷ es) = (e.event_id, e) ∷ catalog_of es

abbrev pub new_game : String → GameConfig → List WorldEvent → String → PawnhouseGame
new_game id config events seed = record {
  game_id = id;
  config = config;
  events = events;
  event_seed = seed;
  phase = GamePhase.registration;
  current_round = 0;
  round_phase = none;
  participants = Dict.empty;
  users = [];
  world = record {
    event_catalog = record { entries = catalog_of events };
    base_prices = initial_prices;
    revealed_event_ids = [];
  };
  rankings = [];
}

unfoldable pub make_game :
    String → GameConfig → List WorldEvent → String → Result GameError PawnhouseGame
make_game id config events seed = and_then (checks (config_guards config)) (λ _.
    and_then (checks (game_guards id config events seed))
      (λ _. ok (new_game id config events seed)))

abbrev pub Call : Type 0 → Type 0
Call = Action PawnhouseGame GameError

abbrev pub phase_code : GamePhase → ℕ
phase_code GamePhase.registration = 0
phase_code GamePhase.portfolio_setup = 1
phase_code GamePhase.portfolio_locked = 2
phase_code GamePhase.running = 3
phase_code GamePhase.final_valuation = 4
phase_code GamePhase.completed = 5
phase_code GamePhase.cancelled = 6

abbrev pub round_code : RoundPhase → ℕ
round_code RoundPhase.event_reveal = 0
round_code RoundPhase.decide = 1
round_code RoundPhase.match = 2
round_code RoundPhase.negotiate = 3
round_code RoundPhase.settle = 4
round_code RoundPhase.round_close = 5
round_code RoundPhase.round_completed = 6

abbrev pub in_phase : GamePhase → PawnhouseGame → Bool
in_phase p g = phase_code g.phase == phase_code p

abbrev is_round : Option RoundPhase → RoundPhase → Bool
is_round none p = false
is_round (some q) p = round_code q == round_code p

-- `phase is RUNNING and round_phase is p`.
abbrev pub in_round : RoundPhase → PawnhouseGame → Bool
in_round p g = in_phase GamePhase.running g && is_round g.round_phase p

unfoldable pub join : String → String → Call Unit
join user_id agent_id = do
  g ← gets (λ g. g)
  raise_if (not (in_phase GamePhase.registration g || in_phase GamePhase.portfolio_setup g))
      not_accepting
  raise_if (is_empty user_id || is_empty agent_id) ids_required
  raise_if (contains g.users user_id) user_twice
  raise_if (Dict.has g.participants agent_id) agent_twice
  raise_if (leb g.config.max_participants (Dict.size g.participants)) participant_limit
  modify (λ g. record g {
    users = user_id ∷ g.users;
    participants =
        Dict.put g.participants agent_id
          (record { user_id = user_id; agent_id = agent_id; portfolio = none });
    phase = GamePhase.portfolio_setup;
  })

abbrev with_portfolio : String → Portfolio → GameParticipant → PawnhouseGame → PawnhouseGame
with_portfolio agent_id portfolio p g = record g {
  participants = Dict.put g.participants agent_id (record p { portfolio = some portfolio });
}

unfoldable pub configure_portfolio : String → Portfolio → Call Unit
configure_portfolio agent_id portfolio = do
  g ← gets (λ g. g)
  raise_if (not (in_phase GamePhase.portfolio_setup g)) setup_only
  p ← or_raise (Dict.get g.participants agent_id) not_participant
  modify (with_portfolio agent_id portfolio p)

abbrev keys_of : List (String × GameParticipant) → List String
keys_of [] = []
keys_of ((k, p) ∷ rest) = k ∷ keys_of rest

-- `self.participants[agent_id].portfolio = portfolio` for each item, whose ids are keys.
pub assign_portfolios :
    List (String × Portfolio) → Dict String GameParticipant → Dict String GameParticipant
assign_portfolios [] ps = ps
assign_portfolios ((id, portfolio) ∷ rest) ps = elim (Dict.get ps id) [
  | none ↦ assign_portfolios rest ps
  | some p ↦ assign_portfolios rest (Dict.put ps id (record p { portfolio = some portfolio }))
]

abbrev lift_event : {A : Type 0} → Result EventError A → Result GameError A
lift_event (ok a) = ok a
lift_event (err e) = err (event_error e)

abbrev lift_portfolio : {A : Type 0} → Result PortfolioError A → Result GameError A
lift_portfolio (ok a) = ok a
lift_portfolio (err e) = err (portfolio_error e)

-- `digest` is the number read off a SHA-256 digest, as for the portfolios.
module _ (digest : String → ℕ) where
  distribute : PortfolioMode → Call Unit
  unfolding assign_portfolios
  distribute PortfolioMode.manual = pure tt
  distribute PortfolioMode.balanced_auto = do
    g ← gets (λ g. g)
    portfolios ← lift (
        lift_portfolio (
          distribute_balanced_portfolios digest (keys_of g.participants.entries) g.event_seed
            initial_prices))
    modify (λ g. record g { participants = assign_portfolios portfolios.entries g.participants })

  unfoldable pub lock_portfolios : Call Unit
  unfolding distribute
  lock_portfolios = do
    g ← gets (λ g. g)
    raise_if (not (in_phase GamePhase.portfolio_setup g)) not_in_setup
    raise_if (ltb (Dict.size g.participants) g.config.min_participants) not_enough
    distribute g.config.portfolio_mode
    items ← gets (λ g. Dict.values g.participants)
    raise_if (any (λ p. is_none p.portfolio) items) portfolio_required
    modify (λ g. record g { phase = GamePhase.portfolio_locked })

-- `self.world.reveal(...)`, on the world inside the game.
abbrev on_world :
    {A : Type 0}
    → Result EventError A × WorldState
    → PawnhouseGame
    → Result GameError A × PawnhouseGame
on_world (r, w) g = (lift_event r, record g { world = w })

unfoldable pub reveal_current_event : Call WorldSnapshot
reveal_current_event = do
  g ← gets (λ g. g)
  raise_if (not (in_round RoundPhase.event_reveal g)) not_ready_to_reveal
  event ← or_raise (get_elem? g.events (g.current_round - 1)) index_error
  s ← (λ g. on_world (reveal event.event_id g.current_round g.world) g)
  modify (λ g. record g { round_phase = some RoundPhase.decide })
  pure s

unfoldable pub start : Call WorldSnapshot
unfolding reveal_current_event
start = do
  g ← gets (λ g. g)
  raise_if (not (in_phase GamePhase.portfolio_locked g)) not_locked
  modify (λ g. record g {
    phase = GamePhase.running;
    current_round = 1;
    round_phase = some RoundPhase.event_reveal;
  })
  reveal_current_event

-- The table `allowed`.
abbrev pub allowed : RoundPhase → Option RoundPhase
allowed RoundPhase.decide = some RoundPhase.match
allowed RoundPhase.match = some RoundPhase.negotiate
allowed RoundPhase.negotiate = some RoundPhase.settle
allowed RoundPhase.settle = some RoundPhase.round_close
allowed RoundPhase.round_close = some RoundPhase.round_completed
allowed _ = none

unfoldable pub move_round_phase : RoundPhase → RoundPhase → Call Unit
move_round_phase expected target = do
  g ← gets (λ g. g)
  raise_if (not (in_round expected g)) invalid_transition
  raise_if (not (is_round (allowed expected) target)) invalid_transition
  modify (λ g. record g { round_phase = some target })

abbrev some_snapshot : WorldSnapshot → Call (Option WorldSnapshot)
some_snapshot s = pure (some s)

abbrev close_game : Call (Option WorldSnapshot)
close_game = do
  modify (λ g. record g { phase = GamePhase.final_valuation; round_phase = none })
  pure none

open_round : Call (Option WorldSnapshot)
unfolding reveal_current_event
open_round = do
  modify (λ g. record g {
    current_round = suc g.current_round;
    round_phase = some RoundPhase.event_reveal;
  })
  s ← reveal_current_event
  pure (some s)

unfoldable pub next_round : Call (Option WorldSnapshot)
unfolding open_round
next_round = do
  g ← gets (λ g. g)
  raise_if (not (in_round RoundPhase.round_completed g)) round_not_complete
  if leb g.config.round_count g.current_round then close_game else open_round

pub portfolios_of :
    List (String × GameParticipant)
    → Dict String Portfolio
    → Result GameError (Dict String Portfolio)
portfolios_of [] done = ok done
portfolios_of ((id, p) ∷ rest) done = elim p.portfolio [
  | none ↦ err portfolio_missing
  | some portfolio ↦ portfolios_of rest (Dict.put done id portfolio)
]

unfoldable pub complete : Call (List RankingEntry)
unfolding portfolios_of
complete = do
  g ← gets (λ g. g)
  raise_if (not (in_phase GamePhase.final_valuation g)) not_ready_for_valuation
  s ← lift (lift_event (snapshot g.world g.config.round_count))
  portfolios ← lift (portfolios_of g.participants.entries Dict.empty)
  rankings ← lift (lift_portfolio (calculate_rankings portfolios s.prices.final_prices))
  modify (λ g. record g { rankings = rankings; phase = GamePhase.completed })
  pure rankings
