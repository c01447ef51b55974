-- ===== src/Messages.antt =====
-- The queue's bookkeeping of messages, src/queue.
pub mod Backoff
pub mod Ordering
pub mod Deduplication
mod Tests
