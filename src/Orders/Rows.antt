-- ===== src/Orders/Rows.antt =====
-- The table of orders, as src/orders/services/order-book.service.ts and src/orders/orders.service.ts
-- read and write it by primary key: identifiers stay distinct, and what a save does to a sum over
-- the rows.
use mathlib.Core.List.{Memᴰ}
use peerx_backend.Common.{
  ℕ, ◌+◌, ◌≤◌, ◌≡◌, refl, sym, ◌∙◌, ◌≢◌, some, List, [], ◌∷◌, ◌++◌, String, arith, All, All-of_mem,
  ap, subst, sum_of, ◌==◌, text_keys, Bool-cases, inl, inr,
}
use peerx_backend.Orders.Order.{Order}
use peerx_backend.Orders.Book.{save_order}
use peerx_backend.Orders.Service.{find_order}

abbrev pub Fresh : String → List Order → Type 0
Fresh id rows = All (λ r. r.id ≢ id) rows

abbrev pub Unique : List Order → Type 0
Unique [] = Unit
Unique (o ∷ os) = Fresh o.id os × Unique os

Fresh-save_order :
    (id : String) (o : Order) (rows : List Order) → Fresh id rows → Fresh id (save_order o rows)
unfolding save_order
Fresh-save_order id o [] h = tt
Fresh-save_order id o (r ∷ rs) h =
    (ground (arith, h.0, text_keys.same_iff r.id o.id), Fresh-save_order id o rs h.1)

pub save_order-Unique : (o : Order) (rows : List Order) → Unique rows → Unique (save_order o rows)
unfolding save_order
save_order-Unique o [] h = tt
save_order-Unique o (r ∷ rs) h = elim (Bool-cases (r.id == o.id)) [
  | inl e ↦ rw e (
    Fresh-save_order o.id o rs (rw ((text_keys.same_iff r.id o.id).0 e) at (h.0)),
    save_order-Unique o rs h.1,
  )
  | inr e ↦ rw e (Fresh-save_order r.id o rs h.0, save_order-Unique o rs h.1)
]

pub Unique-append :
    (rows : List Order) (o : Order) → Unique rows → Fresh o.id rows → Unique (rows ++ o ∷ [])
Unique-append [] o u f = (tt, tt)
Unique-append (r ∷ rs) o u f = (fresh_at_end rs u.0, Unique-append rs o u.1 f.1)
  where
    fresh_at_end : (os : List Order) → Fresh r.id os → Fresh r.id (os ++ o ∷ [])
    fresh_at_end [] h = ((λ e. f.0 (sym e)), tt)
    fresh_at_end (x ∷ xs) h = (h.0, fresh_at_end xs h.1)

save_order_of_Fresh : (o : Order) (rows : List Order) → Fresh o.id rows → save_order o rows ≡ rows
unfolding save_order
save_order_of_Fresh o [] h = refl
save_order_of_Fresh o (r ∷ rs) h =
    ground (arith, text_keys.same_iff r.id o.id, h.0, save_order_of_Fresh o rs h.1)

-- Saving over the row `m` puts the new row's share of a sum for the old one's.
pub sum_of-save_order :
    (f : Order → ℕ) (o m : Order) (rows : List Order)
    → Unique rows
    → Memᴰ m rows
    → o.id ≡ m.id
    → sum_of f (save_order o rows) + f m ≡ sum_of f rows + f o
unfolding save_order
sum_of-save_order f o m [] u l e = elim l [ ]
sum_of-save_order f o m (r ∷ rs) u (Memᴰ.head same) e =
    let done : r.id ≡ o.id = ap (λ x. x.id) (sym same) ∙ sym e in
    let fresh : Fresh o.id rs = subst (λ i. Fresh i rs) done u.0 in
    ground (arith, ap f same, (text_keys.same_iff r.id o.id).1 done, save_order_of_Fresh o rs fresh)
sum_of-save_order f o m (r ∷ rs) u (Memᴰ.tail later) e =
    let elsewhere = All-of_mem (λ x. x.id ≢ r.id) m rs later u.0 in
    ground (arith, elsewhere, text_keys.same_iff r.id o.id, sum_of-save_order f o m rs u.1 later e)

-- A save that lowers the share of each row it replaces lowers the sum.
pub sum_of-save_order_le :
    (f : Order → ℕ) (o : Order) (rows : List Order)
    → All (λ r. r.id ≡ o.id → f o ≤ f r) rows
    → sum_of f (save_order o rows) ≤ sum_of f rows
unfolding save_order
sum_of-save_order_le f o [] h = omega arith
sum_of-save_order_le f o (r ∷ rs) h =
    ground (arith, h.0, text_keys.same_iff r.id o.id, sum_of-save_order_le f o rs h.1)

-- The rows with a row's identifier are that row.
pub Unique-same :
    (P : Order → Type 0) (m : Order) (rows : List Order)
    → Unique rows
    → Memᴰ m rows
    → P m
    → All (λ r. r.id ≡ m.id → P r) rows
Unique-same P m [] u l p = elim l [ ]
Unique-same P m (r ∷ rs) u (Memᴰ.head same) p =
    ((λ _. subst P same p), vacuous rs (subst (λ x. Fresh x.id rs) (sym same) u.0))
  where
    vacuous : (os : List Order) → Fresh m.id os → All (λ x. x.id ≡ m.id → P x) os
    vacuous [] h = tt
    vacuous (x ∷ xs) h = ((λ e. absurd (h.0 e)), vacuous xs h.1)
Unique-same P m (r ∷ rs) u (Memᴰ.tail later) p = (
  (λ e. absurd (All-of_mem (λ x. x.id ≢ r.id) m rs later u.0 (sym e))),
  Unique-same P m rs u.1 later p,
)

pub find_order-Memᴰ :
    (id : String) (rows : List Order) {o : Order}
    → find_order id rows ≡ some o
    → Memᴰ o rows × (o.id ≡ id)
unfolding find_order
find_order-Memᴰ id [] e = cc
find_order-Memᴰ id (r ∷ rs) e = elim (Bool-cases (r.id == id)) [
  | inl h ↦ (Memᴰ.head (ground arith), ground (arith, text_keys.same_iff r.id id))
  | inr h ↦ let rest = find_order-Memᴰ id rs (ground arith) in (Memᴰ.tail (rest.0), rest.1)
]
