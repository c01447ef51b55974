-- ===== src/RateLimit/Tests.antt =====
-- Runs of src/ratelimit/deterministic-rate-limit.service.ts, and its theorem at a concrete input.
use peerx_backend.Common.{ℕ, ◌+◌, ◌-◌, ◌*◌, ◌≤◌, ◌≡◌, refl, arith, List, [], ◌∷◌, String, text_keys}
use peerx_backend.Common.JsMap.{get, set}
use peerx_backend.RateLimit.Bucket.{BucketState, bucket_key, is_allowed, clear_key}
use peerx_backend.RateLimit.Window.{Request, count_allowed, count_allowed-le_window}

limiting : Unit {0}
unfolding is_allowed clear_key count_allowed get set
limiting = tt

abbrev ask : ℕ → String → Request
ask now key = record { now = now; key = key; endpoint = "kyc"; capacity = 2000; rate = 1 }

abbrev asked : List Request
asked = ask 0 "u" ∷ ask 10 "u" ∷ ask 20 "v" ∷ ask 30 "u" ∷ ask 1200 "u" ∷ []

-- Two tokens at once, and a third after a second.
three_let_through : count_allowed 1000 "kyc::u" asked [] ≡ 3
unfolding limiting
three_let_through = refl

-- Clearing one user's key clears those of users whose key begins with it.
clears_others :
    clear_key "1" ((bucket_key "10" "kyc", record { tokens = 5; last_refill_ms = 0 }) ∷ []) ≡ []
unfolding limiting
clears_others = refl

-- The window starts after the requests of another one, with the bucket filled up again.
abbrev later_asked : List Request
later_asked = ask 90000 "u" ∷ ask 90001 "u" ∷ ask 90002 "u" ∷ []

abbrev long_unused : BucketState
long_unused = record { tokens = 1800; last_refill_ms = 30 }

count_allowed-le_window_example :
    count_allowed 1000 "kyc::u" later_asked (("kyc::u", long_unused) ∷ []) * 1000
    ≤ 2000 + (90010 - 90000) * 1
count_allowed-le_window_example =
    count_allowed-le_window 1000 2000 1 90000 90010 "kyc::u" later_asked
      (("kyc::u", long_unused) ∷ [])
      ((λ _. (refl, refl)), ((λ _. (refl, refl)), ((λ _. (refl, refl)), tt)))
      (omega arith, (omega arith, (omega arith, omega arith)))
