-- ===== src/RateLimit.antt =====
-- Rate limits, src/ratelimit.
pub mod Bucket
pub mod Window
mod Tests
