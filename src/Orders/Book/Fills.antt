-- ===== src/Orders/Book/Fills.antt =====
-- What `matchTakerOrder` and `applyFill`, src/orders/services/order-book.service.ts, do to amounts,
-- prices and averages.
use native.Mathlib.Nat.{mul-pos}
use peerx_backend.Common.{
  ℕ, suc, ◌+◌, ◌*◌, ◌≤◌, ◌<◌, ◌≡◌, leb→le, refl, true, Option, none, some, List, [], ◌∷◌, arith,
  All, All-of_mem, Bool-cases, inl, inr, text_keys, length, ◌==◌, ap, sum_of, subst,
}
use peerx_backend.Orders.Order.{
  Order, OrderSide, buy, sell, limit, Ratio, is_resting, remaining_amount, number,
}
use peerx_backend.Orders.Book.{
  Matching, Trade, TradeExecutedEvent, FillResult, eligible, in_bound, price_bound, average_after,
  apply_fill, save_order, fill_amount, fill_round, match_taker_order,
}
use peerx_backend.Orders.Book.Best.{IsBest}
use peerx_backend.Orders.Book.Rounds.{match_rounds_inv}

-- No order is filled beyond its amount.
abbrev pub IsWithin : Order → Type 0
IsWithin o = o.filled_amount ≤ o.amount

pub All-save_order :
    (P : Order → Type 0) (o : Order) (rows : List Order)
    → P o
    → All P rows
    → All P (save_order o rows)
unfolding save_order
All-save_order P o [] h a = tt
All-save_order P o (r ∷ rs) h a = (
  elim (Bool-cases (r.id == o.id)) [ inl e ↦ rw e h | inr e ↦ rw e (a.0) ],
  All-save_order P o rs h a.1,
)

apply_fill-IsWithin :
    (now amount price : ℕ) (o : Order)
    → amount ≤ remaining_amount o
    → IsWithin o
    → IsWithin (apply_fill now amount price o)
unfolding apply_fill
apply_fill-IsWithin now amount price o h k = omega arith

abbrev AllWithin : Matching → Type 0
AllWithin s = IsWithin s.taker × All IsWithin s.orders

fill_round-AllWithin :
    (now : ℕ) (m : Order) (s : Matching)
    → IsBest s.taker m s.orders
    → AllWithin s
    → AllWithin (fill_round now m s)
unfolding fill_round
fill_round-AllWithin now m s b (t, rows) = (
  apply_fill-IsWithin now (fill_amount s.taker m) _ s.taker (unfold fill_amount in omega arith) t,
  All-save_order IsWithin _ s.orders
      (apply_fill-IsWithin now (fill_amount s.taker m) _ m (unfold fill_amount in omega arith)
        (All-of_mem IsWithin m s.orders b.listed rows))
      rows,
)

-- If neither the taker nor any row is filled beyond its amount, matching leaves it so.
pub match_taker_order-IsWithin :
    (now : ℕ) (taker : Order) (orders : List Order) (trades : List Trade)
    (events : List TradeExecutedEvent)
    → IsWithin taker
    → All IsWithin orders
    → IsWithin (match_taker_order now taker orders trades events).taker
      × All IsWithin (match_taker_order now taker orders trades events).orders
unfolding match_taker_order
match_taker_order-IsWithin now taker orders trades events t rows =
    let done =
      match_rounds_inv AllWithin now (λ m s b _ p. fill_round-AllWithin now m s b p)
        (suc (length orders)) _ (t, rows) in
    (done.0, All-save_order IsWithin _ _ done.0 done.1)

-- The price of a fill against a limit: a buyer pays no more, a seller gets no less.
abbrev pub AtFairPrice : OrderSide → ℕ → FillResult → Type 0
AtFairPrice buy bound f = f.fill_price ≤ bound
AtFairPrice sell bound f = bound ≤ f.fill_price

abbrev InBound : OrderSide → Option ℕ → FillResult → Type 0
InBound side bound f = in_bound side bound (some f.fill_price) ≡ true

InBound-AtFairPrice :
    (side : OrderSide) (bound : ℕ) (f : FillResult)
    → InBound side (some bound) f
    → AtFairPrice side bound f
unfolding in_bound
InBound-AtFairPrice buy bound f h = leb→le f.fill_price bound h
InBound-AtFairPrice sell bound f h = leb→le bound f.fill_price h

All-AtFairPrice :
    (side : OrderSide) (bound : ℕ) (fs : List FillResult)
    → All (InBound side (some bound)) fs
    → All (AtFairPrice side bound) fs
All-AtFairPrice side bound [] h = tt
All-AtFairPrice side bound (f ∷ fs) h =
    (InBound-AtFairPrice side bound f h.0, All-AtFairPrice side bound fs h.1)

in_bound-number :
    (side : OrderSide) (bound price : Option ℕ)
    → in_bound side bound price ≡ true
    → in_bound side bound (some (number price)) ≡ true
unfolding in_bound
in_bound-number buy none price h = refl
in_bound-number sell none price h = refl
in_bound-number buy (some b) none h = cc
in_bound-number sell (some b) none h = cc
in_bound-number side (some b) (some p) h = h

in_bound-eligible :
    (t m : Order) → eligible t m ≡ true → in_bound t.side (price_bound t) m.price ≡ true
unfolding eligible
in_bound-eligible t m h = ground arith

record FairSoFar (side : OrderSide) (bound : Option ℕ) (s : Matching) : Type 0 where
  same_side : s.taker.side ≡ side
  same_bound : price_bound s.taker ≡ bound
  fair : All (InBound side bound) s.fills

fill_round-FairSoFar :
    (side : OrderSide) (bound : Option ℕ) (now : ℕ) (m : Order) (s : Matching)
    → IsBest s.taker m s.orders
    → FairSoFar side bound s
    → FairSoFar side bound (fill_round now m s)
unfolding fill_round apply_fill price_bound
fill_round-FairSoFar side bound now m s b h = record {
  same_side = h.same_side;
  same_bound = h.same_bound;
  fair = (
    in_bound-number side bound m.price
        (rw (← h.same_side, ← h.same_bound) (in_bound-eligible s.taker m b.fits)),
    h.fair,
  );
}

fills-InBound :
    (now : ℕ) (taker : Order) (orders : List Order) (trades : List Trade)
    (events : List TradeExecutedEvent)
    → All
        (InBound taker.side (price_bound taker))
        (match_taker_order now taker orders trades events).fills
unfolding match_taker_order
fills-InBound now taker orders trades events =
    (match_rounds_inv (FairSoFar taker.side (price_bound taker)) now
      (λ m s b _ p. fill_round-FairSoFar taker.side (price_bound taker) now m s b p)
      (suc (length orders)) _ (record { same_side = refl; same_bound = refl; fair = tt })).fair

price_bound_of_limit :
    (o : Order) (bound : ℕ) → o.type ≡ limit → o.price ≡ some bound → price_bound o ≡ some bound
unfolding price_bound
price_bound_of_limit o bound t p = rw (t, p) refl

-- For a taker that is a LIMIT order with a price: every fill of a call is at a price of at most that
-- price if the taker buys, and of at least that price if it sells.
pub match_taker_order-AtFairPrice :
    (now bound : ℕ) (taker : Order) (orders : List Order) (trades : List Trade)
    (events : List TradeExecutedEvent)
    → taker.type ≡ limit
    → taker.price ≡ some bound
    → All (AtFairPrice taker.side bound) (match_taker_order now taker orders trades events).fills
match_taker_order-AtFairPrice now bound taker orders trades events t p =
    All-AtFairPrice taker.side bound (match_taker_order now taker orders trades events).fills (
      subst
        (λ b. All (InBound taker.side b) (match_taker_order now taker orders trades events).fills)
        (price_bound_of_limit taker bound t p) (fills-InBound now taker orders trades events))

-- What the fills add up to, in amount and in value.
abbrev pub filled_by : List FillResult → ℕ
filled_by = sum_of (λ f. f.fill_amount)

abbrev pub value_of : List FillResult → ℕ
value_of = sum_of (λ f. f.fill_amount * f.fill_price)

-- `average_fill_price` is a number, `value / filled_amount`; an order with no fill has none.
abbrev pub IsAverage : ℕ → ℕ → Option Ratio → Type 0
IsAverage value amount none = value ≡ 0
IsAverage value amount (some r) = (0 < r.den) × (r.num * amount ≡ value * r.den)

average_step :
    (n d x v a p : ℕ) → n * x ≡ v * d → (x * n + a * p * d) * (x + a) ≡ (v + a * p) * (d * (x + a))
average_step n d x v a p h = omega (arith, ap (λ (t : ℕ). t * (x + a)) h)

average_after-IsAverage :
    (x a p v : ℕ) (r : Option Ratio)
    → 0 < a
    → IsAverage v x r
    → IsAverage (v + a * p) (x + a) (some (average_after x r a p))
unfolding average_after
average_after-IsAverage x a p v none k h = (omega (arith, k), grind arith)
average_after-IsAverage x a p v (some r) k h =
    (mul-pos h.0 (omega (arith, k)), average_step r.num r.den x v a p h.1)

IsAverage-cast : (v w x : ℕ) (r : Option Ratio) → v ≡ w → IsAverage v x r → IsAverage w x r
IsAverage-cast v w x r e h = subst (λ u. IsAverage u x r) e h

-- An order that rests in the book has an amount left.
abbrev pub HasLeft : Order → Type 0
HasLeft o = is_resting o.status ≡ true → 0 < remaining_amount o

apply_fill-HasLeft : (now amount price : ℕ) (o : Order) → HasLeft (apply_fill now amount price o)
unfolding apply_fill
apply_fill-HasLeft now amount price o r = ground arith

eligible-resting : (t m : Order) → eligible t m ≡ true → is_resting m.status ≡ true
unfolding eligible
eligible-resting t m h = ground arith

record Accounted (start value : ℕ) (s : Matching) : Type 0 where
  amounts : s.taker.filled_amount ≡ start + filled_by s.fills
  average : IsAverage (value + value_of s.fills) s.taker.filled_amount s.taker.average_fill_price
  left : All HasLeft s.orders

fill_round-Accounted :
    (start value now : ℕ) (m : Order) (s : Matching)
    → IsBest s.taker m s.orders
    → 0 < remaining_amount s.taker
    → Accounted start value s
    → Accounted start value (fill_round now m s)
unfolding fill_round apply_fill
fill_round-Accounted start value now m s b k h =
    let amount = fill_amount s.taker m in
    let price = number m.price in
    let of_maker : 0 < remaining_amount m =
      All-of_mem HasLeft m s.orders b.listed h.left (eligible-resting s.taker m b.fits) in
    let some_filled : 0 < amount = unfold fill_amount in omega (arith, k, of_maker) in
    let next =
      average_after-IsAverage s.taker.filled_amount amount price (value + value_of s.fills)
        s.taker.average_fill_price some_filled h.average in
    record {
      amounts = omega (arith, h.amounts);
      average = (next.0, omega (arith, next.1));
      left =
          All-save_order HasLeft (apply_fill now amount price m) s.orders
            (apply_fill-HasLeft now amount price m) h.left;
    }

-- What a call makes of the taker's average price.
pub record IsAveraged (value : ℕ) (taker : Order) (r : Matching) : Type 0 where
  pub amounts : r.taker.filled_amount ≡ taker.filled_amount + filled_by r.fills
  pub average :
      IsAverage (value + value_of r.fills) r.taker.filled_amount r.taker.average_fill_price

-- If every resting row has an amount left: a call fills the taker by exactly the sum of its fills;
-- and if the taker's average price was a number, its value over its filled amount, or absent with no
-- value, it is so after the call, with the value of the fills added.
pub match_taker_order-IsAverage :
    (now value : ℕ) (taker : Order) (orders : List Order) (trades : List Trade)
    (events : List TradeExecutedEvent)
    → All HasLeft orders
    → IsAverage value taker.filled_amount taker.average_fill_price
    → IsAveraged value taker (match_taker_order now taker orders trades events)
unfolding match_taker_order
match_taker_order-IsAverage now value taker orders trades events left h =
    let done =
      match_rounds_inv (Accounted taker.filled_amount value) now
        (λ m s b k p. fill_round-Accounted taker.filled_amount value now m s b k p)
        (suc (length orders)) _
        (record {
          amounts = omega arith;
          average =
              IsAverage-cast value (value + 0) taker.filled_amount taker.average_fill_price
                (omega arith) h;
          left = left;
        }) in
    record { amounts = done.amounts; average = done.average }
