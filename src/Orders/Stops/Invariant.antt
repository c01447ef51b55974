-- ===== src/Orders/Stops/Invariant.antt =====
-- Triggering a stop order, src/orders/services/stop-order-monitor.service.ts, keeps the reservation
-- invariant of the orders service.
use mathlib.Core.List.{Memᴰ}
use peerx_backend.Common.{
  ℕ, ◌≡◌, refl, true, Option, none, some, arith, if_both, Bool-cases, inl, inr,
}
use peerx_backend.Orders.Order.{Order, is_pending, triggered, is_trailing_stop, number}
use peerx_backend.Orders.Book.{save_order}
use peerx_backend.Orders.Rows.{find_order-Memᴰ, save_order-Unique, sum_of-save_order}
use peerx_backend.Orders.Service.{Db, find_order}
use peerx_backend.Orders.Service.Reserved.{reserves}
use peerx_backend.Orders.Service.Covered.{IsCovered, Memᴰ-save_order, run_match-IsCovered}
use peerx_backend.Orders.Service.Invariant.{broadcast_order-IsCovered}
use peerx_backend.Orders.Stops.{
  retraced, moves, is_fixed_stop_triggered, fired, fire, fire_fresh, trigger, process_fixed_stop,
  process_trailing_stop, process,
}

-- Saving an order that reserves what its row does.
save-IsCovered :
    (o row : Order) (db : Db)
    → o.id ≡ row.id
    → ((user asset : ℕ) → reserves user asset o ≡ reserves user asset row)
    → Memᴰ row db.orders
    → IsCovered db
    → IsCovered (record db { orders = save_order o db.orders })
save-IsCovered o row db e same l v = record {
  unique = save_order-Unique o db.orders v.unique;
  covered = λ u a. omega (
    arith,
    v.covered u a,
    same u a,
    sum_of-save_order (reserves u a) o row db.orders v.unique l e,
  );
}

fire-IsCovered :
    (now : ℕ) (o : Order) (db : Db)
    → is_pending o.status ≡ true
    → Memᴰ o db.orders
    → IsCovered db
    → IsCovered (fire now o db)
unfolding fire
fire-IsCovered now o db p l v = broadcast_order-IsCovered now _ _ (
    run_match-IsCovered now (fired now o) saved _ refl refl (λ u a. refl)
      (Memᴰ-save_order saved o db.orders refl l)
      (save-IsCovered saved o db refl (λ u a. ground arith) l v))
  where
    saved : Order
    saved = record o { status = triggered; triggered_at = some now }

fire_fresh-IsCovered :
    (now : ℕ) (fresh : Option Order) (db : Db)
    → ((o : Order) → fresh ≡ some o → Memᴰ o db.orders)
    → IsCovered db
    → IsCovered (fire_fresh now fresh db)
unfolding fire_fresh
fire_fresh-IsCovered now none db l v = v
fire_fresh-IsCovered now (some o) db l v = elim (Bool-cases (is_pending o.status)) [
  | inl e ↦ rw e (fire-IsCovered now o db e (l o refl) v)
  | inr e ↦ rw e v
]

pub trigger-IsCovered :
    (now : ℕ) (o : Order) (db : Db) → IsCovered db → IsCovered (trigger now o db)
unfolding trigger
trigger-IsCovered now o db v =
    fire_fresh-IsCovered now (find_order o.id db.orders) db
      (λ fresh e. (find_order-Memᴰ o.id db.orders e).0) v

-- So does one step of the sweep, for an order that is as its row.
pub process-IsCovered :
    (now current : ℕ) (o : Order) (db : Db)
    → Memᴰ o db.orders
    → IsCovered db
    → IsCovered (process now current o db)
unfolding process process_fixed_stop process_trailing_stop
process-IsCovered now current o db l v =
    if_both IsCovered (is_trailing_stop o.type)
      (if_both IsCovered (retraced o.side current _ (number o.trailing_delta))
        (trigger-IsCovered now o db v)
        (if_both IsCovered (moves o.side current _) (save-IsCovered _ o db refl (λ u a. refl) l v)
          v))
      (if_both IsCovered (is_fixed_stop_triggered o.type o.side current (number o.stop_price))
        (trigger-IsCovered now o db v) v)
