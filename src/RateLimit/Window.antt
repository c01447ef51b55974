-- ===== src/RateLimit/Window.antt =====
-- src/ratelimit/deterministic-rate-limit.service.ts over sequences of requests.
use peerx_backend.Common.{
  ℕ, ◌+◌, ◌-◌, ◌*◌, ◌≤◌, ◌≡◌, refl, sym, ◌∙◌, subst, Bool, true, false, ◌&&◌, some, List, [], ◌∷◌,
  String, arith, All, if◌then◌else◌, ◌==◌, text_keys, Bool-cases, ne_of_same, inl, inr,
}
use peerx_backend.Common.JsMap.{JsMap, get, get-set_self, get-set_ne}
use peerx_backend.RateLimit.Bucket.{
  BucketState, bucket_key, bucket_or_full, refill, spend, is_allowed,
}

pub record Request : Type 0 where
  pub now : ℕ
  pub key : String
  pub endpoint : String
  pub capacity : ℕ
  pub rate : ℕ

abbrev pub bucket_of : Request → String
bucket_of q = bucket_key q.key q.endpoint

-- How many of the requests on a bucket are let through.
unfoldable pub count_allowed : ℕ → String → List Request → JsMap String BucketState → ℕ
count_allowed unit id [] buckets = 0
count_allowed unit id (q ∷ qs) buckets =
    let (after, allowed) = is_allowed unit q.now q.key q.endpoint q.capacity q.rate buckets in
    (if bucket_of q == id && allowed then 1 else 0) + count_allowed unit id qs after

-- Times that do not decrease, from one time to another.
abbrev pub InOrder : ℕ → List Request → ℕ → Type 0
InOrder start [] end = start ≤ end
InOrder start (q ∷ qs) end = (start ≤ q.now) × InOrder q.now qs end

InOrder-le : (start : ℕ) (qs : List Request) (end : ℕ) → InOrder start qs end → start ≤ end
InOrder-le start [] end o = o
InOrder-le start (q ∷ qs) end o = omega (arith, o.0, InOrder-le q.now qs end o.1)

InOrder-earlier :
    (start earlier : ℕ) (qs : List Request) (end : ℕ)
    → earlier ≤ start
    → InOrder start qs end
    → InOrder earlier qs end
InOrder-earlier start earlier [] end h o = omega (arith, h, o)
InOrder-earlier start earlier (q ∷ qs) end h o = (omega (arith, h, o.0), o.1)

-- The requests on a bucket have one capacity and one rate.
abbrev pub HasLimit : String → ℕ → ℕ → Request → Type 0
HasLimit id capacity rate q = bucket_of q ≡ id → (q.capacity ≡ capacity) × (q.rate ≡ rate)

-- What is let through and what is left come from what was there and what was added.
spend-refill :
    (unit now capacity rate : ℕ) (b : BucketState)
    → (if (spend unit (refill now capacity rate b)).1 then unit else 0)
        + (spend unit (refill now capacity rate b)).0.tokens
      ≤ b.tokens + (now - b.last_refill_ms) * rate
spend-refill unit now capacity rate b = ground arith

-- The bucket that a request of another bucket leaves, and the one that its own finds.
get-is_allowed_ne :
    (unit : ℕ) (id : String) (q : Request) (buckets : JsMap String BucketState)
    → (bucket_of q == id) ≡ false
    → get id (is_allowed unit q.now q.key q.endpoint q.capacity q.rate buckets).0 ≡ get id buckets
unfolding is_allowed
get-is_allowed_ne unit id q buckets h =
    get-set_ne (bucket_of q) id _ buckets (ne_of_same (bucket_of q) id h)

record IsServed (unit : ℕ) (id : String) (q : Request) (buckets : JsMap String BucketState)
    (b : BucketState) : Type 0 where
  kept :
      get id (is_allowed unit q.now q.key q.endpoint q.capacity q.rate buckets).0
      ≡ some (spend unit (refill q.now q.capacity q.rate b)).0
  answer :
      (is_allowed unit q.now q.key q.endpoint q.capacity q.rate buckets).1
      ≡ (spend unit (refill q.now q.capacity q.rate b)).1

is_allowed-IsServed :
    (unit : ℕ) (id : String) (q : Request) (buckets : JsMap String BucketState)
    → bucket_of q ≡ id
    → IsServed unit id q buckets (bucket_or_full q.now q.capacity (get id buckets))
unfolding is_allowed
is_allowed-IsServed unit id q buckets h =
    subst (λ i. IsServed unit i q buckets (bucket_or_full q.now q.capacity (get i buckets))) h
      record { kept = get-set_self (bucket_of q) _ buckets; answer = refl }

last-spend :
    (unit now capacity rate : ℕ) (b : BucketState)
    → (spend unit (refill now capacity rate b)).0.last_refill_ms ≡ now
last-spend unit now capacity rate b = ground arith

elapsed : (l n e r : ℕ) → l ≤ n → n ≤ e → (n - l) * r + (e - n) * r ≡ (e - l) * r
elapsed l n e r h k = subst (λ z. (n - l) * r + (e - n) * r ≡ z * r) sum (omega arith)
  where
    sum : (n - l) + (e - n) ≡ e - l
    sum = omega (arith, h, k)

-- One request and the ones after it.
both_windows :
    (allowed : Bool) (c unit before after added later all : ℕ)
    → (if allowed then unit else 0) + after ≤ before + added
    → c * unit ≤ after + later
    → added + later ≡ all
    → ((if allowed then 1 else 0) + c) * unit ≤ before + all
both_windows true c unit before after added later all h k e = omega (arith, h, k, e)
both_windows false c unit before after added later all h k e = omega (arith, h, k, e)

-- A request on the bucket, and what the requests after it are allowed.
own_request :
    (unit rate end : ℕ) (id : String) (b : BucketState) (q : Request) (qs : List Request)
    (buckets : JsMap String BucketState)
    → (bucket_of q == id) ≡ true
    → q.rate ≡ rate
    → IsServed unit id q buckets b
    → b.last_refill_ms ≤ q.now
    → q.now ≤ end
    → count_allowed unit id qs (is_allowed unit q.now q.key q.endpoint q.capacity q.rate buckets).0
        * unit
      ≤ (spend unit (refill q.now q.capacity q.rate b)).0.tokens + (end - q.now) * rate
    → count_allowed unit id (q ∷ qs) buckets * unit ≤ b.tokens + (end - b.last_refill_ms) * rate
unfolding count_allowed
own_request unit rate end id b q qs buckets same e served h k later =
    let turn = spend unit (refill q.now q.capacity q.rate b) in
    let rest = (is_allowed unit q.now q.key q.endpoint q.capacity q.rate buckets).0 in
    let now =
      subst
        (λ r.
          (if turn.1 then unit else 0) + turn.0.tokens ≤ b.tokens + (q.now - b.last_refill_ms) * r)
        e (spend-refill unit q.now q.capacity q.rate b) in
    rw (same, served.answer)
      (both_windows turn.1 (count_allowed unit id qs rest) unit b.tokens turn.0.tokens _ _ _ now
        later (elapsed b.last_refill_ms q.now end rate h k))

-- From a bucket that is there.
count_allowed-le_from :
    (unit capacity rate end : ℕ) (id : String) (b : BucketState) (qs : List Request)
    (buckets : JsMap String BucketState)
    → get id buckets ≡ some b
    → All (HasLimit id capacity rate) qs
    → InOrder b.last_refill_ms qs end
    → count_allowed unit id qs buckets * unit ≤ b.tokens + (end - b.last_refill_ms) * rate
unfolding count_allowed
count_allowed-le_from unit capacity rate end id b [] buckets h a o = omega arith
count_allowed-le_from unit capacity rate end id b (q ∷ qs) buckets h a o =
    elim (Bool-cases (bucket_of q == id)) [
      | inl same ↦
          let mine : bucket_of q ≡ id = (text_keys.same_iff (bucket_of q) id).0 same in
          let turn = spend unit (refill q.now q.capacity q.rate b) in
          let last = last-spend unit q.now q.capacity q.rate b in
          let rest = (is_allowed unit q.now q.key q.endpoint q.capacity q.rate buckets).0 in
          let served : IsServed unit id q buckets b =
            subst (λ o. IsServed unit id q buckets (bucket_or_full q.now q.capacity o)) h
              (is_allowed-IsServed unit id q buckets mine) in
          own_request unit rate end id b q qs buckets same (a.0 mine).1 served o.0
            (InOrder-le q.now qs end o.1)
            (subst (λ t. count_allowed unit id qs rest * unit ≤ turn.0.tokens + (end - t) * rate)
              last
              (count_allowed-le_from unit capacity rate end id turn.0 qs rest served.kept a.1
                (subst (λ t. InOrder t qs end) (sym last) o.1)))
      | inr apart ↦
          let earlier = InOrder-earlier q.now b.last_refill_ms qs end o.0 o.1 in
          let rest =
            count_allowed-le_from unit capacity rate end id b qs _
              (get-is_allowed_ne unit id q buckets apart ∙ h) a.1 earlier in
          rw apart (omega (arith, rest))
    ]

-- Whatever a bucket held, what a request is let through and what is left fit in the capacity.
spend-refill_cap :
    (unit now capacity rate : ℕ) (b : BucketState)
    → (if (spend unit (refill now capacity rate b)).1 then unit else 0)
        + (spend unit (refill now capacity rate b)).0.tokens
      ≤ capacity
spend-refill_cap unit now capacity rate b = ground arith

-- The first request on the bucket in a window, and the ones after it.
first_request :
    (unit capacity rate end : ℕ) (id : String) (b : BucketState) (q : Request) (qs : List Request)
    (buckets : JsMap String BucketState)
    → (bucket_of q == id) ≡ true
    → q.capacity ≡ capacity
    → IsServed unit id q buckets b
    → count_allowed unit id qs (is_allowed unit q.now q.key q.endpoint q.capacity q.rate buckets).0
        * unit
      ≤ (spend unit (refill q.now q.capacity q.rate b)).0.tokens + (end - q.now) * rate
    → count_allowed unit id (q ∷ qs) buckets * unit ≤ capacity + (end - q.now) * rate
unfolding count_allowed
first_request unit capacity rate end id b q qs buckets same e served later =
    let turn = spend unit (refill q.now q.capacity q.rate b) in
    let rest = (is_allowed unit q.now q.key q.endpoint q.capacity q.rate buckets).0 in
    let now =
      subst (λ c. (if turn.1 then unit else 0) + turn.0.tokens ≤ c) e
        (spend-refill_cap unit q.now q.capacity q.rate b) in
    rw (same, served.answer)
      (both_windows turn.1 (count_allowed unit id qs rest) unit capacity turn.0.tokens 0
        ((end - q.now) * rate) ((end - q.now) * rate) (omega (arith, now)) later (omega arith))

-- In a window of time, in a sequence of requests at times that do not decrease, from whatever buckets
-- there are at its start and whichever other buckets the requests use: on a bucket with one capacity
-- and one rate, the tokens let through are at most the capacity and what the rate adds between the
-- start and the end of the window.
pub count_allowed-le_window :
    (unit capacity rate start end : ℕ) (id : String) (qs : List Request)
    (buckets : JsMap String BucketState)
    → All (HasLimit id capacity rate) qs
    → InOrder start qs end
    → count_allowed unit id qs buckets * unit ≤ capacity + (end - start) * rate
unfolding count_allowed
count_allowed-le_window unit capacity rate start end id [] buckets a o = omega arith
count_allowed-le_window unit capacity rate start end id (q ∷ qs) buckets a o =
    elim (Bool-cases (bucket_of q == id)) [
      | inl same ↦
          let mine : bucket_of q ≡ id = (text_keys.same_iff (bucket_of q) id).0 same in
          let b = bucket_or_full q.now q.capacity (get id buckets) in
          let turn = spend unit (refill q.now q.capacity q.rate b) in
          let last = last-spend unit q.now q.capacity q.rate b in
          let rest = (is_allowed unit q.now q.key q.endpoint q.capacity q.rate buckets).0 in
          let served : IsServed unit id q buckets b = is_allowed-IsServed unit id q buckets mine in
          let own =
            first_request unit capacity rate end id b q qs buckets same (a.0 mine).0 served (
              subst (λ t. count_allowed unit id qs rest * unit ≤ turn.0.tokens + (end - t) * rate)
                last
                (count_allowed-le_from unit capacity rate end id turn.0 qs rest served.kept a.1
                  (subst (λ t. InOrder t qs end) (sym last) o.1))) in
          omega (arith, own, elapsed start q.now end rate o.0 (InOrder-le q.now qs end o.1))
      | inr apart ↦
          let rest =
            count_allowed-le_window unit capacity rate start end id qs
              (is_allowed unit q.now q.key q.endpoint q.capacity q.rate buckets).0 a.1
              (InOrder-earlier q.now start qs end o.0 o.1) in
          rw apart (omega (arith, rest))
    ]
