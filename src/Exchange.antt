-- ===== src/Exchange.antt =====
-- The liquidity pools, src/exchange: reserves, swaps at a constant product, and liquidity tokens.
pub mod State
pub mod Amm
pub mod Pools
pub mod Trades
pub mod Swaps
pub mod Product
pub mod Shares
pub mod Balanced
pub mod History
pub mod Supply
pub mod Rounding
pub mod Fees
mod Tests
