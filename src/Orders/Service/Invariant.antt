-- ===== src/Orders/Service/Invariant.antt =====
-- Every operation of src/orders/orders.service.ts, and every trigger of
-- src/orders/services/stop-order-monitor.service.ts, keeps the reservation invariant.
use mathlib.Core.List.{Memᴰ}
use peerx_backend.Common.{
  ℕ, ◌≡◌, refl, ◌∙◌, ◌||◌, not, Bool, true, false, List, [], ◌∷◌, ◌++◌, String, arith,
  sum_of-append, ◌==◌, nat_keys,
}
use peerx_backend.Common.Outcome.{
  returns, guard, or_fail, after, after_bind, guard-eq-returns, or_fail-eq-returns,
}
use peerx_backend.Orders.Order.{Order, is_closed, is_resting, is_limit, is_market}
use peerx_backend.Orders.Book.{save_order}
use peerx_backend.Orders.Rows.{
  Fresh, Unique-append, save_order-Unique, sum_of-save_order, find_order-Memᴰ,
}
use peerx_backend.Orders.Service.{
  Db, UserBalance, not_cancellable, not_modifiable, CreateOrderDto, ModifyOrderDto, find_order,
  reserve, new_order, match_if, broadcast_order, release, cancelled_order, modify_amount,
  modify_price, modify_stop_price, modify_trailing_delta, place_order, cancel_order, modify_order,
  validate_order_shape, order_not_found, not_owner,
}
use peerx_backend.Orders.Service.Reserved.{reserves}
use peerx_backend.Orders.Service.Covered.{
  IsCovered, Keeps, Keeps-trans, reserve-locked, release-locked, modify_amount-locked,
  modify_amount-same, modify_price-Keeps, modify_stop_price-Keeps, modify_trailing_delta-Keeps,
  Memᴰ-last, Memᴰ-save_order, run_match-IsCovered,
}

match_if-IsCovered :
    (test : Bool) (now : ℕ) (o : Order) (db : Db)
    → is_closed o.status ≡ false
    → Memᴰ o db.orders
    → IsCovered db
    → IsCovered (match_if test now o db).0
unfolding match_if
match_if-IsCovered true now o db open_o l v =
    run_match-IsCovered now o o db open_o refl (λ user asset. refl) l v
match_if-IsCovered false now o db open_o l v = v

pub broadcast_order-IsCovered :
    (now : ℕ) (o : Order) (db : Db) → IsCovered db → IsCovered (broadcast_order now o db)
unfolding broadcast_order
broadcast_order-IsCovered now o db v = record { unique = v.unique; covered = v.covered }

pub place_order-IsCovered :
    (now user : ℕ) (id : String) (dto : CreateOrderDto) (db : Db)
    → Fresh id db.orders
    → IsCovered db
    → IsCovered (after db (place_order now id user dto db))
unfolding place_order
place_order-IsCovered now user id dto db f v =
    after_bind IsCovered db (validate_order_shape dto) _ v λ _ _.
      after_bind IsCovered db (reserve user dto db.balances) _ v λ balances e.
        broadcast_order-IsCovered now _ _ (
          match_if-IsCovered (is_market dto.type || is_limit dto.type) now
            (new_order now id user dto) _ (unfold new_order in refl)
            (Memᴰ-last db.orders (new_order now id user dto)) (stored balances e))
  where
    stored :
        (balances : List UserBalance)
        → reserve user dto db.balances ≡ returns balances
        → IsCovered (record db {
          orders = db.orders ++ new_order now id user dto ∷ [];
          balances = balances;
        })
    stored balances e = record {
      unique = Unique-append db.orders (new_order now id user dto) v.unique (unfold new_order in f);
      covered = λ u a. omega (
        arith,
        v.covered u a,
        reserve-locked u a now user id dto db.balances balances e,
        sum_of-append (reserves u a) db.orders (new_order now id user dto ∷ []),
      );
    }

cancelled-IsCovered :
    (now : ℕ) (o : Order) (db : Db)
    → Memᴰ o db.orders
    → is_closed o.status ≡ false
    → IsCovered db
    → IsCovered (record db {
      orders = save_order (cancelled_order now o) db.orders;
      balances = release o db.balances;
    })
unfolding cancelled_order
cancelled-IsCovered now o db l h v = record {
  unique = save_order-Unique (cancelled_order now o) db.orders v.unique;
  covered = λ u a. ground (
    arith,
    v.covered u a,
    release-locked u a o db.balances h,
    sum_of-save_order (reserves u a) (cancelled_order now o) o db.orders v.unique l refl,
  );
}

pub cancel_order-IsCovered :
    (now user : ℕ) (id : String) (db : Db)
    → IsCovered db
    → IsCovered (after db (cancel_order now user id db))
unfolding cancel_order
cancel_order-IsCovered now user id db v =
    after_bind IsCovered db (or_fail (find_order id db.orders) order_not_found) _ v
      λ existing found.
        after_bind IsCovered db (guard (existing.user_id == user) not_owner) _ v λ _ _.
          after_bind IsCovered db (guard (not (is_closed existing.status)) not_cancellable) _ v
            λ u g. broadcast_order-IsCovered now _ _ (
              cancelled-IsCovered now existing db
                (find_order-Memᴰ id db.orders (or_fail-eq-returns _ _ existing found)).0
                (ground (arith, guard-eq-returns _ _ u g)) v)

modified-IsCovered :
    (dto : ModifyOrderDto) (o o1 o4 : Order) (balances : List UserBalance) (db : Db)
    → Memᴰ o db.orders
    → is_closed o.status ≡ false
    → modify_amount dto.amount o db.balances ≡ returns (balances, o1)
    → Keeps o1 o4
    → IsCovered db
    → IsCovered (record db { orders = save_order o4 db.orders; balances = balances })
modified-IsCovered dto o o1 o4 balances db l h e k v = record {
  unique = save_order-Unique o4 db.orders v.unique;
  covered = λ u a. omega (
    arith,
    v.covered u a,
    k.reserved_same u a,
    modify_amount-locked u a dto.amount o o1 db.balances balances h e,
    sum_of-save_order (reserves u a) o4 o db.orders v.unique l
        (k.id_same ∙ (modify_amount-same dto.amount o o1 db.balances balances e).0),
  );
}

rematch-IsCovered :
    (now : ℕ) (dto : ModifyOrderDto) (o o1 o4 : Order) (balances : List UserBalance) (db : Db)
    → Memᴰ o db.orders
    → is_closed o.status ≡ false
    → modify_amount dto.amount o db.balances ≡ returns (balances, o1)
    → Keeps o1 o4
    → IsCovered db
    → IsCovered
        (match_if
          (is_limit o4.type)
          now
          o4
          (record db { orders = save_order o4 db.orders; balances = balances })).0
rematch-IsCovered now dto o o1 o4 balances db l h e k v =
    let same = modify_amount-same dto.amount o o1 db.balances balances e in
    match_if-IsCovered (is_limit o4.type) now o4 _ (rw (k.status_same, same.1) h)
      (Memᴰ-save_order o4 o db.orders (k.id_same ∙ same.0) l)
      (modified-IsCovered dto o o1 o4 balances db l h e k v)

pub modify_order-IsCovered :
    (now user : ℕ) (dto : ModifyOrderDto) (db : Db)
    → IsCovered db
    → IsCovered (after db (modify_order now user dto db))
unfolding modify_order
modify_order-IsCovered now user dto db v =
    after_bind IsCovered db (or_fail (find_order dto.order_id db.orders) order_not_found) _ v
      λ existing found.
        after_bind IsCovered db (guard (existing.user_id == user) not_owner) _ v λ _ _.
          after_bind IsCovered db (guard (is_resting existing.status) not_modifiable) _ v λ u g.
            after_bind IsCovered db (modify_amount dto.amount existing db.balances) _ v λ r e1.
              after_bind IsCovered db (modify_price dto.price r.1) _ v λ o2 e2.
                after_bind IsCovered db (modify_stop_price dto.stop_price o2) _ v λ o3 e3.
                  after_bind IsCovered db (modify_trailing_delta dto.trailing_delta o3) _ v λ o4 e4.
                    broadcast_order-IsCovered now _ _ (
                      rematch-IsCovered now dto existing r.1 o4 r.0 db
                        (find_order-Memᴰ dto.order_id db.orders
                          (or_fail-eq-returns _ _ existing found)).0
                        (ground (arith, guard-eq-returns _ _ u g)) e1
                        (Keeps-trans r.1 o3 o4
                          (Keeps-trans r.1 o2 o3 (modify_price-Keeps dto.price r.1 o2 e2)
                            (modify_stop_price-Keeps dto.stop_price o2 o3 e3))
                          (modify_trailing_delta-Keeps dto.trailing_delta o3 o4 e4))
                        v)
