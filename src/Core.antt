-- ===== src/Core.antt =====
-- The core of the arena: arena_core.
pub mod Results
