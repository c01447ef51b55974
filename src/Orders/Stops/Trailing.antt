-- ===== src/Orders/Stops/Trailing.antt =====
-- Trailing stops in src/orders/services/stop-order-monitor.service.ts: the reference price is
-- written only when it moves away from a stored one.
use peerx_backend.Common.{
  ℕ, ◌*◌, ◌<◌, ◌≡◌, refl, Bool, true, false, not, ◌&&◌, ltb, Option, none, some, List, [], ◌∷◌,
  arith, keep, Bool-cases, Option-cases, inl, inr,
}
use peerx_backend.Orders.Order.{Order, OrderSide, buy, sell, is_trailing_stop, number}
use peerx_backend.Orders.Service.{Db}
use peerx_backend.Orders.Stops.{
  is_dormant, moves, retraced, process_trailing_stop, process, sweep_from, sweep,
}

-- A price that is its own reference has not retraced.
retraced_self :
    (side : OrderSide) (current delta : ℕ)
    → 0 < current
    → 0 < delta
    → retraced side current current delta ≡ false
unfolding retraced
retraced_self sell current delta h k = let pos : 0 < current * delta = grind arith in ground arith
retraced_self buy current delta h k = let pos : 0 < current * delta = grind arith in ground arith

moves_self : (side : OrderSide) (current : ℕ) → moves side current current ≡ false
unfolding moves
moves_self sell current = ground arith
moves_self buy current = ground arith

abbrev pub is_absent : Option ℕ → Bool
is_absent none = true
is_absent (some n) = false

is_absent-none : (o : Option ℕ) → is_absent o ≡ true → o ≡ none
is_absent-none none h = refl
is_absent-none (some n) h = cc

-- A trailing stop with no reference price stored, as `placeOrder` creates it.
record IsUnset (o : Order) : Type 0 where
  trailing : is_trailing_stop o.type ≡ true
  no_reference : o.trailing_reference_price ≡ none
  positive : 0 < number o.trailing_delta

process_of_IsUnset :
    (now current : ℕ) (o : Order) (db : Db)
    → 0 < current
    → IsUnset o
    → process now current o db ≡ db
unfolding process process_trailing_stop
process_of_IsUnset now current o db h u = ground (
  arith,
  u.trailing,
  u.no_reference,
  moves_self o.side current,
  retraced_self o.side current (number o.trailing_delta) h u.positive,
)

abbrev pub ArePositive : (ℕ → Option ℕ) → Type 0
ArePositive prices = (asset price : ℕ) → prices asset ≡ some price → 0 < price

-- The same as a test, on any order.
unfoldable pub is_unset : Order → Bool
is_unset o =
    is_trailing_stop o.type
    && is_absent o.trailing_reference_price
    && ltb 0 (number o.trailing_delta)

is_unset-IsUnset : (o : Order) → is_unset o ≡ true → IsUnset o
unfolding is_unset
is_unset-IsUnset o h = record {
  trailing = ground arith;
  no_reference = is_absent-none o.trailing_reference_price (ground arith);
  positive = ground arith;
}

-- The orders of a sweep, with those left out that it does nothing to.
sweep_from-keep :
    (now : ℕ) (prices : ℕ → Option ℕ) (os : List Order) (db : Db)
    → ArePositive prices
    → sweep_from now prices (keep is_dormant os) db
      ≡ sweep_from now prices (keep (λ o. is_dormant o && not (is_unset o)) os) db
unfolding sweep_from
sweep_from-keep now prices [] db h = refl
sweep_from-keep now prices (o ∷ os) db h = elim (Bool-cases (is_dormant o)) [
  | inr awake ↦ rw awake (sweep_from-keep now prices os db h)
  | inl dormant ↦ elim (Bool-cases (is_unset o)) [
    | inr set_before ↦ rw (dormant, set_before) (sweep_from-keep now prices os _ h)
    | inl unset ↦
        rw (dormant, unset)
          (elim (Option-cases (prices o.asset_id)) [
            | inl e ↦ rw (sweep_from, e) (sweep_from-keep now prices os db h)
            | inr (p, e) ↦
                rw (sweep_from, e)
                  (rw (process_of_IsUnset now p o db (h o.asset_id p e) (is_unset-IsUnset o unset))
                    (sweep_from-keep now prices os db h))
          ])
  ]
]

-- If prices are positive, whatever orders the table holds: a sweep does exactly what it would do
-- without the trailing stops that have a positive distance and no reference price stored, so it
-- neither stores a reference for such an order nor triggers it.
pub sweep_of_IsUnset :
    (now : ℕ) (prices : ℕ → Option ℕ) (db : Db)
    → ArePositive prices
    → sweep now prices db
      ≡ sweep_from now prices (keep (λ o. is_dormant o && not (is_unset o)) db.orders) db
unfolding sweep
sweep_of_IsUnset now prices db h = sweep_from-keep now prices db.orders db h
