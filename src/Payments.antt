-- ===== src/Payments.antt =====
-- Payments: arena_payments.
pub mod Models
pub mod Repository
pub mod Wallets
