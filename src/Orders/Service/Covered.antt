-- ===== src/Orders/Service/Covered.antt =====
-- The reservation invariant of src/orders: the locked balance of a user in an asset covers what is
-- left of the user's open SELL orders in it. One lemma for each part of an operation.
use mathlib.Core.List.{Memᴰ}
use peerx_backend.Common.{
  ℕ, ◌+◌, ◌-◌, ◌≤◌, ◌≡◌, refl, sym, ◌∙◌, ◌&&◌, false, Option, none, some, List, [], ◌∷◌, ◌++◌,
  String, arith, All-map, ◌==◌, nat_keys, text_keys, Option-cases, Bool-cases, inl, inr, ◌⊎◌,
}
use peerx_backend.Common.Outcome.{returns}
use peerx_backend.Orders.Order.{Order, is_closed, remaining_amount}
use peerx_backend.Orders.Book.{save_order}
use peerx_backend.Orders.Rows.{Unique, Unique-same}
use peerx_backend.Orders.Service.{
  Db, UserBalance, CreateOrderDto, find_balance, save_balance, reserve, new_order, run_match,
  release, relock, modify_amount, modify_price, modify_stop_price, modify_trailing_delta,
}
use peerx_backend.Orders.Service.Reserved.{reserves, reserved, reserved-match_taker_order}
use peerx_backend.Orders.Service.Balances.{
  locked, find_balance-keys, locked-save_balance_self, locked-save_balance_ne,
}

pub record IsCovered (db : Db) : Type 0 where
  pub unique : Unique db.orders
  pub covered : (user asset : ℕ) → reserved user asset db.orders ≤ locked user asset db.balances

-- Writing `n` as the locked balance of a row that is there.
locked-write :
    (user asset u a n : ℕ) (b : UserBalance) (bs : List UserBalance)
    → find_balance u a bs ≡ some b
    → ((user ≡ u)
        × (asset ≡ a)
        × (locked user asset (save_balance (record b { locked_balance = n }) bs) ≡ n)
        × (locked user asset bs ≡ b.locked_balance))
      ⊎ (((u == user && a == asset) ≡ false)
          × (locked user asset (save_balance (record b { locked_balance = n }) bs)
              ≡ locked user asset bs))
locked-write user asset u a n b bs e = elim (Bool-cases (u == user && a == asset)) [
  | inl h ↦
      let p : u ≡ user = ground arith in
      let q : a ≡ asset = ground arith in
      let found : find_balance user asset bs ≡ some b = rw (← p, ← q) e in
      let keys = find_balance-keys user asset bs b found in
      inl (
        sym p,
        sym q,
        locked-save_balance_self user asset (record b { locked_balance = n }) b bs found keys.0
            keys.1,
        rw found,
      )
  | inr h ↦
      let keys = find_balance-keys u a bs b e in
      inr (
        h,
        locked-save_balance_ne user asset (record b { locked_balance = n }) bs
            (rw (keys.0, keys.1) h),
      )
]

pub reserve-locked :
    (user asset : ℕ) (now u : ℕ) (id : String) (dto : CreateOrderDto) (bs bs' : List UserBalance)
    → reserve u dto bs ≡ returns bs'
    → locked user asset bs + reserves user asset (new_order now id u dto) ≤ locked user asset bs'
unfolding reserve new_order
reserve-locked user asset now u id dto bs bs' e =
    elim (Option-cases (find_balance u dto.asset_id bs)) [
      | inl n ↦ ground arith
      | inr (b, s) ↦
          ground
            (arith, locked-write user asset u dto.asset_id (b.locked_balance + dto.amount) b bs s)
    ]

pub release-locked :
    (user asset : ℕ) (o : Order) (bs : List UserBalance)
    → is_closed o.status ≡ false
    → locked user asset bs ≤ locked user asset (release o bs) + reserves user asset o
unfolding release
release-locked user asset o bs h = elim (Option-cases (find_balance o.user_id o.asset_id bs)) [
  | inl n ↦ ground arith
  | inr (b, s) ↦ ground (
    arith,
    locked-write user asset o.user_id o.asset_id (b.locked_balance - remaining_amount o) b bs s,
  )
]

pub modify_amount-locked :
    (user asset : ℕ) (amount : Option ℕ) (o o' : Order) (bs bs' : List UserBalance)
    → is_closed o.status ≡ false
    → modify_amount amount o bs ≡ returns (bs', o')
    → locked user asset bs + reserves user asset o' ≤ locked user asset bs' + reserves user asset o
unfolding modify_amount relock
modify_amount-locked user asset none o o' bs bs' h e = ground arith
modify_amount-locked user asset (some amount) o o' bs bs' h e =
    elim (Option-cases (find_balance o.user_id o.asset_id bs)) [
      | inl n ↦ ground arith
      | inr (b, s) ↦ ground (
        arith,
        locked-write user asset o.user_id o.asset_id
            (b.locked_balance + (amount - o.filled_amount) - remaining_amount o) b bs s,
      )
    ]

pub modify_amount-same :
    (amount : Option ℕ) (o o' : Order) (bs bs' : List UserBalance)
    → modify_amount amount o bs ≡ returns (bs', o')
    → (o'.id ≡ o.id) × (o'.status ≡ o.status)
unfolding modify_amount
modify_amount-same none o o' bs bs' e = (ground arith, ground arith)
modify_amount-same (some amount) o o' bs bs' e = (ground arith, ground arith)

-- What the other changes of `modifyOrder` leave alone.
pub record Keeps (o o' : Order) : Type 0 where
  pub reserved_same : (user asset : ℕ) → reserves user asset o' ≡ reserves user asset o
  pub id_same : o'.id ≡ o.id
  pub status_same : o'.status ≡ o.status

pub Keeps-trans : (a b c : Order) → Keeps a b → Keeps b c → Keeps a c
Keeps-trans a b c h k = record {
  reserved_same = λ user asset. k.reserved_same user asset ∙ h.reserved_same user asset;
  id_same = k.id_same ∙ h.id_same;
  status_same = k.status_same ∙ h.status_same;
}

pub modify_price-Keeps : (p : Option ℕ) (o o' : Order) → modify_price p o ≡ returns o' → Keeps o o'
unfolding modify_price
modify_price-Keeps none o o' e = record {
  reserved_same = λ user asset. ground arith;
  id_same = ground arith;
  status_same = ground arith;
}
modify_price-Keeps (some p) o o' e = record {
  reserved_same = λ user asset. ground arith;
  id_same = ground arith;
  status_same = ground arith;
}

pub modify_stop_price-Keeps :
    (p : Option ℕ) (o o' : Order) → modify_stop_price p o ≡ returns o' → Keeps o o'
unfolding modify_stop_price
modify_stop_price-Keeps none o o' e = record {
  reserved_same = λ user asset. ground arith;
  id_same = ground arith;
  status_same = ground arith;
}
modify_stop_price-Keeps (some p) o o' e = record {
  reserved_same = λ user asset. ground arith;
  id_same = ground arith;
  status_same = ground arith;
}

pub modify_trailing_delta-Keeps :
    (p : Option ℕ) (o o' : Order) → modify_trailing_delta p o ≡ returns o' → Keeps o o'
unfolding modify_trailing_delta
modify_trailing_delta-Keeps none o o' e = record {
  reserved_same = λ user asset. ground arith;
  id_same = ground arith;
  status_same = ground arith;
}
modify_trailing_delta-Keeps (some p) o o' e = record {
  reserved_same = λ user asset. ground arith;
  id_same = ground arith;
  status_same = ground arith;
}

pub Memᴰ-last : (rows : List Order) (o : Order) → Memᴰ o (rows ++ o ∷ [])
Memᴰ-last [] o = Memᴰ.head refl
Memᴰ-last (r ∷ rs) o = Memᴰ.tail (Memᴰ-last rs o)

pub Memᴰ-save_order :
    (o m : Order) (rows : List Order) → o.id ≡ m.id → Memᴰ m rows → Memᴰ o (save_order o rows)
unfolding save_order
Memᴰ-save_order o m [] e l = elim l [ ]
Memᴰ-save_order o m (r ∷ rs) e (Memᴰ.head same) =
    Memᴰ.head (ground (arith, text_keys.same_iff r.id o.id))
Memᴰ-save_order o m (r ∷ rs) e (Memᴰ.tail later) = Memᴰ.tail (Memᴰ-save_order o m rs e later)

-- Matching an open order that is a row, or reserves what its row does, keeps the invariant.
pub run_match-IsCovered :
    (now : ℕ) (o row : Order) (db : Db)
    → is_closed o.status ≡ false
    → o.id ≡ row.id
    → ((user asset : ℕ) → reserves user asset o ≡ reserves user asset row)
    → Memᴰ row db.orders
    → IsCovered db
    → IsCovered (run_match now o db).0
unfolding run_match
run_match-IsCovered now o row db open_o same_id same l v = record {
  unique = (kept 0 0).0;
  covered = λ user asset. omega (arith, (kept user asset).1, v.covered user asset);
}
  where
    kept :
        (user asset : ℕ)
        → Unique (run_match now o db).0.orders
          × (reserved user asset (run_match now o db).0.orders ≤ reserved user asset db.orders)
    kept user asset =
        reserved-match_taker_order user asset now o db.orders db.trades db.events open_o v.unique (
          All-map (λ r h e. omega (arith, same user asset, h (e ∙ same_id))) db.orders
            (Unique-same (λ r. reserves user asset row ≤ reserves user asset r) row db.orders
              v.unique l (omega arith)))
