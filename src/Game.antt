-- ===== src/Game.antt =====
-- The game's market: arena_game.
pub mod Negotiation
pub mod Market
pub mod Goods
pub mod Money
pub mod Portfolio
pub mod Events
pub mod Ranking
pub mod Rounds
pub mod AgentMarket
pub mod Rules
pub mod Settlement
pub mod Liquidity
pub mod Tests
