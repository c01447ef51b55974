-- ===== src/RateLimit/Bucket.antt =====
-- src/ratelimit/deterministic-rate-limit.service.ts. Tokens are counted in parts, `unit` of which are
-- one token, so that the tokens added in a millisecond are a whole number of parts. At a time before
-- the last refill, where the source takes tokens back, nothing is added; the theorems are about times
-- that do not decrease.
use peerx_backend.Common.{
  ℕ, ◌+◌, ◌-◌, ◌*◌, min, Bool, true, false, Option, none, some, String, if◌then◌else◌, ltb,
  with_colon, includes, keep, not, text_keys,
}
use peerx_backend.Common.JsMap.{JsMap, get, set}

pub record BucketState : Type 0 where
  pub tokens : ℕ
  pub last_refill_ms : ℕ

-- `${endpoint}::${key}`.
abbrev pub bucket_key : String → String → String
bucket_key key endpoint = with_colon endpoint (with_colon "" key)

abbrev pub bucket_or_full : ℕ → ℕ → Option BucketState → BucketState
bucket_or_full now capacity none = record { tokens = capacity; last_refill_ms = now }
bucket_or_full now capacity (some b) = b

abbrev pub refill : ℕ → ℕ → ℕ → BucketState → BucketState
refill now capacity rate b = record {
  tokens = min capacity (b.tokens + (now - b.last_refill_ms) * rate);
  last_refill_ms = now;
}

abbrev pub spend : ℕ → BucketState → BucketState × Bool
spend unit b =
    if ltb b.tokens unit then (b, false) else (record b { tokens = b.tokens - unit }, true)

unfoldable pub is_allowed :
    ℕ → ℕ → String → String → ℕ → ℕ → JsMap String BucketState → JsMap String BucketState × Bool
is_allowed unit now key endpoint capacity rate buckets =
    let id = bucket_key key endpoint in
    let (b, allowed) =
      spend unit (refill now capacity rate (bucket_or_full now capacity (get id buckets))) in
    (set id b buckets, allowed)

-- Every bucket whose key contains `::` and the given key goes.
unfoldable pub clear_key : String → JsMap String BucketState → JsMap String BucketState
clear_key key buckets = keep (λ e. not (includes e.0 (with_colon "" (with_colon "" key)))) buckets
