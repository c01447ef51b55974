-- ===== src/Orders/Tests.antt =====
-- Runs of the trading core, src/orders, and the theorems at concrete inputs.
use mathlib.Core.List.{Memᴰ}
use mathlib.Core.Option.{some-injective}
use peerx_backend.Common.{
  ℕ, ◌+◌, ◌≤◌, ◌≡◌, refl, true, not, ◌&&◌, keep, Option, none, some, List, [], ◌∷◌, String, arith,
  All, text_keys, nat_keys, ne_of_same,
}
use peerx_backend.Common.Outcome.{throws, after}
use peerx_backend.Orders.Order.{
  Order, OrderSide, buy, sell, OrderType, limit, stop_loss, trailing_stop, pending, filled,
}
use peerx_backend.Orders.Book.{
  match_taker_order, match_rounds, next_maker, best_maker, eligible, better, price_bound, in_bound,
  fill_round, fill_amount, apply_fill, average_after, save_order,
}
use peerx_backend.Orders.Book.Best.{ComesFirst, best_maker-ComesFirst}
use peerx_backend.Orders.Book.Rounds.{IsMatched, match_taker_order-IsMatched}
use peerx_backend.Orders.Book.Fills.{
  IsWithin, AtFairPrice, filled_by, match_taker_order-IsWithin, match_taker_order-AtFairPrice,
  IsAveraged, match_taker_order-IsAverage,
}
use peerx_backend.Orders.Rows.{Unique}
use peerx_backend.Orders.Conservation.{total_filled, match_taker_order-total_filled}
use peerx_backend.Orders.Service.{
  Db, CreateOrderDto, place_order, run_match, match_if, new_order, reserve, validate_order_shape,
  find_balance, save_balance, broadcast_order, insufficient_balance,
}
use peerx_backend.Orders.Service.Reserved.{reserved}
use peerx_backend.Orders.Service.Balances.{locked}
use peerx_backend.Orders.Stops.{sweep, sweep_from, is_dormant}
use peerx_backend.Orders.Stops.Trailing.{ArePositive, is_unset, sweep_of_IsUnset}
use peerx_backend.Orders.History.{done, serve, places, reserved-le-locked}

matching : Unit {0}
unfolding match_taker_order match_rounds next_maker best_maker eligible better price_bound in_bound
    fill_round fill_amount apply_fill average_after save_order
matching = tt

abbrev order : String → ℕ → OrderSide → OrderType → ℕ → Option ℕ → ℕ → Order
order id user side type amount price created = record {
  id = id;
  user_id = user;
  asset_id = 1;
  side = side;
  type = type;
  status = pending;
  amount = amount;
  filled_amount = 0;
  average_fill_price = none;
  price = price;
  stop_price = none;
  trailing_delta = none;
  trailing_reference_price = none;
  triggered_at = none;
  filled_at = none;
  cancelled_at = none;
  expires_at = none;
  created_at = created;
}

abbrev buyer : Order
buyer = order "taker" 9 buy limit 10 (some 30) 5

abbrev cheap : Order
cheap = order "b" 2 sell limit 7 (some 20) 2

abbrev book : List Order
book =
    order "a" 1 sell limit 4 (some 30) 1 ∷ cheap ∷ order "c" 3 sell limit 9 (some 31) 0 ∷ buyer ∷ []

-- The cheaper maker is taken first, and the one above the limit is left alone.
fills_in_order :
    (match_taker_order 100 buyer book [] []).fills
    ≡ record { taker_order = "taker"; maker_order = "a"; fill_amount = 3; fill_price = 30 }
      ∷ record { taker_order = "taker"; maker_order = "b"; fill_amount = 7; fill_price = 20 }
      ∷ []
unfolding matching
fills_in_order = refl

taker_filled : (match_taker_order 100 buyer book [] []).taker.status ≡ filled
unfolding matching
taker_filled = refl

best_maker-ComesFirst_example :
    Memᴰ cheap book
    × (eligible buyer cheap ≡ true)
    × All (λ o. eligible buyer o ≡ true → ComesFirst buy cheap o) book
best_maker-ComesFirst_example = best_maker-ComesFirst buyer cheap book (unfold matching in refl)

match_taker_order-IsMatched_example :
    IsMatched
      (match_taker_order 100 buyer book [] []).taker
      (match_taker_order 100 buyer book [] []).orders
match_taker_order-IsMatched_example = match_taker_order-IsMatched 100 buyer book [] []

match_taker_order-IsWithin_example :
    IsWithin (match_taker_order 100 buyer book [] []).taker
    × All IsWithin (match_taker_order 100 buyer book [] []).orders
match_taker_order-IsWithin_example =
    match_taker_order-IsWithin 100 buyer book [] [] (omega arith) (omega arith)

match_taker_order-AtFairPrice_example :
    All (AtFairPrice buy 30) (match_taker_order 100 buyer book [] []).fills
match_taker_order-AtFairPrice_example =
    match_taker_order-AtFairPrice 100 30 buyer book [] [] refl refl

match_taker_order-IsAverage_example : IsAveraged 0 buyer (match_taker_order 100 buyer book [] [])
match_taker_order-IsAverage_example =
    match_taker_order-IsAverage 100 0 buyer book [] []
      ((λ _. omega arith), ((λ _. omega arith), ((λ _. omega arith), ((λ _. omega arith), tt))))
      refl

book-Unique : Unique book
book-Unique = (
  (ne_of_same "b" "a" refl, (ne_of_same "c" "a" refl, (ne_of_same "taker" "a" refl, tt))),
  (
    (ne_of_same "c" "b" refl, (ne_of_same "taker" "b" refl, tt)),
    ((ne_of_same "taker" "c" refl, tt), (tt, tt)),
  ),
)

match_taker_order-total_filled_example :
    total_filled sell (match_taker_order 100 buyer book [] []).orders
    ≡ total_filled sell book + filled_by (match_taker_order 100 buyer book [] []).fills
match_taker_order-total_filled_example =
    match_taker_order-total_filled 100 buyer book [] [] book-Unique (
      (λ e. absurd (ne_of_same "a" "taker" refl e)),
      (
        (λ e. absurd (ne_of_same "b" "taker" refl e)),
        ((λ e. absurd (ne_of_same "c" "taker" refl e)), ((λ _. refl), tt)),
      ),
    )

abbrev funded : Db
funded = record {
  orders = [];
  balances = record { user_id = 2; asset_id = 1; balance = 10; locked_balance = 0 } ∷ [];
  trades = [];
  events = [];
  updates = [];
}

abbrev offer : CreateOrderDto
offer = record {
  asset_id = 1;
  side = sell;
  type = limit;
  amount = 7;
  price = some 20;
  stop_price = none;
  trailing_delta = none;
  expires_in_seconds = none;
}

placing : Unit {0}
unfolding matching place_order run_match match_if new_order reserve validate_order_shape
    find_balance save_balance broadcast_order
placing = tt

offer_locks : locked 2 1 (after funded (place_order 2 "b" 2 offer funded)).balances ≡ 7
unfolding placing
offer_locks = refl

-- A second offer of the same size is refused.
offer_refused :
    place_order 3 "d" 2 offer (after funded (place_order 2 "b" 2 offer funded))
    ≡ throws insufficient_balance
unfolding placing
offer_refused = refl

reserved-le-locked_example :
    reserved 2 1 (after funded (place_order 2 "b" 2 offer funded)).orders
    ≤ locked 2 1 (after funded (place_order 2 "b" 2 offer funded)).balances
reserved-le-locked_example =
    reserved-le-locked funded (after funded (place_order 2 "b" 2 offer funded)) 2 1 refl
      (serve (places 2 2 "b" offer tt) done)

abbrev trailing : Db
trailing = record funded {
  orders = record (order "t" 2 sell trailing_stop 5 none 1) { trailing_delta = some 50000 } ∷ [];
}

abbrev price_of : ℕ → Option ℕ
price_of asset = some 40

price_of-ArePositive : ArePositive price_of
price_of-ArePositive asset price e = omega (arith, some-injective 40 price e)

-- A sweep that triggers another order of the same table.
abbrev mixed : Db
mixed = record trailing {
  orders = record (order "s" 2 sell stop_loss 3 none 1) { stop_price = some 50 } ∷ trailing.orders;
}

sweep_of_IsUnset_example :
    sweep 9 price_of mixed
    ≡ sweep_from 9 price_of (keep (λ o. is_dormant o && not (is_unset o)) mixed.orders) mixed
sweep_of_IsUnset_example = sweep_of_IsUnset 9 price_of mixed price_of-ArePositive
