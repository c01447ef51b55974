-- ===== src/Protection.antt =====
-- The insurance funds, src/protection: tiers, funds, their transactions and health, and the cover of
-- liquidation shortfalls.
pub mod State
pub mod Funds
pub mod Shortfall
pub mod Ledger
pub mod Cover
pub mod Covered
pub mod Health
pub mod Books
pub mod Tests
