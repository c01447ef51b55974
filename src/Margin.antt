-- ===== src/Margin.antt =====
-- Margin trading, src/margin: pairs, positions, interest, and liquidation with the insurance funds.
pub mod State
pub mod Calculator
pub mod Price
pub mod Positions
pub mod Engine
pub mod Settlement
pub mod Finality
pub mod Loss
pub mod Interest
pub mod Closed
pub mod Daily
mod Tests
