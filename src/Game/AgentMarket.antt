-- ===== src/Game/AgentMarket.antt =====
-- arena_game/a2a_market.py: the market that the agents' own actions drive. Its state is a record of
-- the dicts of `AgentDrivenMarket`, and each method is one action on it.
pub mod Terms
pub mod State
pub mod Claims
pub mod Publishing
pub mod Engaging
pub mod Steps
pub mod Kept
pub mod Stored
pub mod Slots
pub mod Calls
pub mod Directory
