-- ===== src/Orders.antt =====
-- The trading core, src/orders: the order entity, the matching engine, the orders service and the
-- monitor of stop orders.
pub mod Order
pub mod Book
pub mod Service
pub mod Rows
pub mod Stops
pub mod History
pub mod Conservation
mod Tests
