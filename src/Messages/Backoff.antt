-- ===== src/Messages/Backoff.antt =====
-- The delays of src/queue/exponential-backoff.service.ts and queue.config.ts, exactly: the multiplier
-- in tenths, the jitter in hundredths, `Math.random()` as a fraction.
use native.Mathlib.Nat.{
  div-mul-le_self, le_of_mul-le-mul_right, mul-le-mul_left, mul-le-mul_right, mul-pos, pow-suc,
}
use peerx_backend.Common.{
  ℕ, zero, suc, ◌+◌, ◌*◌, ◌/◌, ◌^◌, ◌≤◌, ◌<◌, ◌≡◌, sym, Bool, true, false, arith, Bool-cases, inl,
  inr, leb, ltb, leb→le, if◌then◌else◌,
}
use peerx_backend.Orders.Order.{Ratio}

pub data RetryPolicy : Type 0 where
  critical high normal low : RetryPolicy

pub record RetryPolicyConfig : Type 0 where
  pub max_attempts : ℕ
  pub base_delay : ℕ
  pub max_delay : ℕ
  pub backoff_multiplier : ℕ
  pub jitter_factor : ℕ

abbrev pub policy_row : ℕ → ℕ → ℕ → ℕ → ℕ → RetryPolicyConfig
policy_row attempts base most multiplier jitter = record {
  max_attempts = attempts;
  base_delay = base;
  max_delay = most;
  backoff_multiplier = multiplier;
  jitter_factor = jitter;
}

abbrev pub retry_policies : RetryPolicy → RetryPolicyConfig
retry_policies critical = policy_row 5 1000 60000 20 10
retry_policies high = policy_row 4 2000 45000 18 15
retry_policies normal = policy_row 3 5000 30000 15 20
retry_policies low = policy_row 1 10000 10000 10 0

-- `Math.min(baseDelay * Math.pow(multiplier, attempt), maxDelay)`.
unfoldable pub capped_delay : ℕ → RetryPolicyConfig → Ratio
capped_delay attempt p =
    let num = p.base_delay * p.backoff_multiplier ^ attempt in
    let den = 10 ^ attempt in
    if leb num (p.max_delay * den)
    then record { num = num; den = den }
    else record { num = p.max_delay; den = 1 }

-- The integral part of the capped delay with its jitter.
abbrev pub with_jitter : ℕ → Ratio → Ratio → ℕ
with_jitter jitter capped random =
    capped.num * (100 * random.den + jitter * random.num) / (capped.den * (100 * random.den))

abbrev pub calculate_backoff_delay : ℕ → RetryPolicyConfig → Ratio → ℕ
calculate_backoff_delay attempt p random =
    with_jitter p.jitter_factor (capped_delay attempt p) random

pub record BackoffResult : Type 0 where
  pub should_retry : Bool
  pub delay : ℕ
  pub attempt : ℕ
  pub max_attempts : ℕ

unfoldable pub calculate_retry_delay : ℕ → RetryPolicy → Ratio → BackoffResult
calculate_retry_delay attempts policy random =
    let p = retry_policies policy in
    if ltb attempts p.max_attempts
    then record {
      should_retry = true;
      delay = calculate_backoff_delay attempts p random;
      attempt = attempts;
      max_attempts = p.max_attempts;
    }
    else record {
      should_retry = false;
      delay = 0;
      attempt = attempts;
      max_attempts = p.max_attempts;
    }

positive_power : (n : ℕ) → 0 < 10 ^ n
positive_power zero = omega arith
positive_power (suc n) = rw (pow-suc 10 n) (omega (arith, positive_power n))

record IsCapped (p : RetryPolicyConfig) (c : Ratio) : Type 0 where
  positive : 0 < c.den
  most : c.num ≤ p.max_delay * c.den

capped_delay-IsCapped : (attempt : ℕ) (p : RetryPolicyConfig) → IsCapped p (capped_delay attempt p)
unfolding capped_delay
capped_delay-IsCapped attempt p =
    elim (Bool-cases
      (leb (p.base_delay * p.backoff_multiplier ^ attempt) (p.max_delay * 10 ^ attempt))) [
        | inl below ↦ rw below record { positive = positive_power attempt; most = leb→le _ _ below }
        | inr above ↦ rw above record { positive = omega arith; most = omega arith }
      ]

-- A delay with its jitter is at most the longest delay and its share of jitter.
with_jitter_le :
    (p : RetryPolicyConfig) (c random : Ratio)
    → IsCapped p c
    → random.num ≤ random.den
    → 0 < random.den
    → with_jitter p.jitter_factor c random * 100 ≤ p.max_delay * (100 + p.jitter_factor)
with_jitter_le p c random k below some_den =
    let n = c.num * (100 * random.den + p.jitter_factor * random.num) in
    let d = c.den * (100 * random.den) in
    let taken = div-mul-le_self n d in
    let share = mul-le-mul_left p.jitter_factor below in
    let whole : 100 * random.den + p.jitter_factor * random.num
        ≤ 100 * random.den + p.jitter_factor * random.den =
      omega (arith, share) in
    let more = mul-le-mul_left c.num whole in
    let most = mul-le-mul_right (100 * random.den + p.jitter_factor * random.den) k.most in
    le_of_mul-le-mul_right {k = c.den * random.den} (grind (arith, taken, more, most))
      (mul-pos k.positive some_den)

-- A retry's answer.
pub record IsBounded (attempts : ℕ) (policy : RetryPolicy) (r : BackoffResult) : Type 0 where
  pub retries : r.should_retry ≡ ltb attempts (retry_policies policy).max_attempts
  pub within :
      r.delay * 100
      ≤ (retry_policies policy).max_delay * (100 + (retry_policies policy).jitter_factor)

-- For a random fraction that is at most 1 and has a positive denominator: a job is retried exactly
-- while the attempts made are fewer than its policy allows, and the delay is at most the policy's
-- longest delay and its jitter on top.
pub calculate_retry_delay-IsBounded :
    (attempts : ℕ) (policy : RetryPolicy) (random : Ratio)
    → random.num ≤ random.den
    → 0 < random.den
    → IsBounded attempts policy (calculate_retry_delay attempts policy random)
unfolding calculate_retry_delay
calculate_retry_delay-IsBounded attempts policy random below some_den =
    let p = retry_policies policy in
    elim (Bool-cases (ltb attempts p.max_attempts)) [
      | inl left ↦ rw left record {
        retries = sym left;
        within =
            with_jitter_le p (capped_delay attempts p) random (capped_delay-IsCapped attempts p)
              below some_den;
      }
      | inr exhausted ↦ rw exhausted record { retries = sym exhausted; within = omega arith }
    ]
