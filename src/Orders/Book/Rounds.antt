-- ===== src/Orders/Book/Rounds.antt =====
-- The loop of `matchTakerOrder`, src/orders/services/order-book.service.ts: each round closes the
-- taker or uses up a maker, so a round for each row is enough, and the loop ends by its test.
use mathlib.Core.List.{Memᴰ}
use peerx_backend.Common.{
  ℕ, zero, suc, ◌≤◌, ◌<◌, ◌≡◌, refl, ◌⊎◌, Bool, true, false, none, some, List, [], ◌∷◌, arith, All,
  Option-cases, Bool-cases, inl, inr, text_keys, count_if, count_if-le-length, length, leb, ltb,
  ltb→le, leb→le, leb→lt,
}
use peerx_backend.Orders.Order.{Order, remaining_amount, number}
use peerx_backend.Orders.Book.{
  Matching, Trade, TradeExecutedEvent, eligible, price_bound, apply_fill, save_order, next_maker,
  fill_amount, fill_round, match_rounds, match_taker_order, matched,
}
use peerx_backend.Orders.Book.Best.{IsBest, best_maker-IsBest, best_maker-none}

-- A fill changes nothing that the query reads of the taker.
pub eligible-apply_fill_taker :
    (now amount price : ℕ) (t o : Order) → eligible (apply_fill now amount price t) o ≡ eligible t o
unfolding eligible apply_fill price_bound
eligible-apply_fill_taker now amount price t o = refl

-- A maker that is filled up leaves the book.
pub eligible-apply_fill_maker :
    (now amount price : ℕ) (t t' m : Order)
    → remaining_amount m ≤ amount
    → eligible t (apply_fill now amount price m) ≡ false
unfolding eligible apply_fill
eligible-apply_fill_maker now amount price t t' m h = ground arith

count-save_order_le :
    (p : Order → Bool) (o : Order) (rows : List Order)
    → p o ≡ false
    → count_if p (save_order o rows) ≤ count_if p rows
unfolding save_order
count-save_order_le p o [] h = omega arith
count-save_order_le p o (r ∷ rs) h = ground (arith, count-save_order_le p o rs h)

count-save_order_lt :
    (p : Order → Bool) (o m : Order) (rows : List Order)
    → p o ≡ false
    → o.id ≡ m.id
    → p m ≡ true
    → Memᴰ m rows
    → count_if p (save_order o rows) < count_if p rows
unfolding save_order
count-save_order_lt p o m [] h e k l = elim l [ ]
count-save_order_lt p o m (r ∷ rs) h e k (Memᴰ.head same) =
    ground (arith, same, text_keys.same_iff r.id o.id, count-save_order_le p o rs h)
count-save_order_lt p o m (r ∷ rs) h e k (Memᴰ.tail later) =
    ground (arith, count-save_order_lt p o m rs h e k later)

next_maker-IsBest : (s : Matching) (m : Order) → next_maker s ≡ some m → IsBest s.taker m s.orders
unfolding next_maker
next_maker-IsBest s m e = best_maker-IsBest s.taker m s.orders (ground arith)

next_maker-pos : (s : Matching) (m : Order) → next_maker s ≡ some m → 0 < remaining_amount s.taker
unfolding next_maker
next_maker-pos s m e = ground arith

-- The number of rows that the taker can still match.
abbrev open_rows : Matching → ℕ
open_rows s = count_if (eligible s.taker) s.orders

remaining-apply_fill_taker :
    (now price : ℕ) (t m : Order)
    → remaining_amount t ≤ remaining_amount m
    → ltb 0 (remaining_amount (apply_fill now (fill_amount t m) price t)) ≡ false
unfolding apply_fill fill_amount
remaining-apply_fill_taker now price t m h = ground arith

next_maker_of_full : (s : Matching) → ltb 0 (remaining_amount s.taker) ≡ false → next_maker s ≡ none
unfolding next_maker
next_maker_of_full s e = rw e

open_rows-fill_round :
    (now : ℕ) (m : Order) (s : Matching)
    → IsBest s.taker m s.orders
    → remaining_amount m ≤ fill_amount s.taker m
    → open_rows (fill_round now m s) < open_rows s
unfolding fill_round apply_fill eligible price_bound
open_rows-fill_round now m s b h =
    count-save_order_lt (eligible s.taker)
      (apply_fill now (fill_amount s.taker m) (number m.price) m) m s.orders
      (eligible-apply_fill_maker now (fill_amount s.taker m) (number m.price) s.taker s.taker m h)
      refl b.fits b.listed

-- After a round the taker is full, or fewer rows are left.
fill_round_progress :
    (now : ℕ) (m : Order) (s : Matching)
    → IsBest s.taker m s.orders
    → (next_maker (fill_round now m s) ≡ none) ⊎ (open_rows (fill_round now m s) < open_rows s)
fill_round_progress now m s b =
    elim (Bool-cases (leb (remaining_amount s.taker) (remaining_amount m))) [
      | inl e ↦ inl (
          next_maker_of_full (fill_round now m s) (
            unfold fill_round in
            remaining-apply_fill_taker now (number m.price) s.taker m (leb→le _ _ e)))
      | inr e ↦
          inr (open_rows-fill_round now m s b (unfold fill_amount in omega (arith, leb→lt _ _ e)))
    ]

match_rounds_of_none :
    (rounds now : ℕ) (s : Matching) → next_maker s ≡ none → match_rounds rounds now s ≡ s
unfolding match_rounds
match_rounds_of_none zero now s e = refl
match_rounds_of_none (suc rounds) now s e = rw (e, match_rounds)

match_rounds_ends :
    (rounds now : ℕ) (s : Matching)
    → open_rows s < rounds
    → next_maker (match_rounds rounds now s) ≡ none
unfolding match_rounds
match_rounds_ends zero now s h = elim h [ ]
match_rounds_ends (suc rounds) now s h = elim (Option-cases (next_maker s)) [
  | inl e ↦ rw (e, match_rounds) e
  | inr (m, e) ↦
      rw (e, match_rounds)
        (elim (fill_round_progress now m s (next_maker-IsBest s m e)) [
          | inl d ↦ rw (match_rounds_of_none rounds now (fill_round now m s) d) d
          | inr d ↦ match_rounds_ends rounds now (fill_round now m s) (omega arith)
        ])
]

-- What the end of the loop means: nothing is left of the taker, or nothing that it could match.
abbrev pub IsMatched : Order → List Order → Type 0
IsMatched t rows = (remaining_amount t ≡ 0) ⊎ All (λ o. eligible t o ≡ false) rows

IsMatched-of_none : (s : Matching) → next_maker s ≡ none → IsMatched s.taker s.orders
unfolding next_maker
IsMatched-of_none s e = elim (Bool-cases (ltb 0 (remaining_amount s.taker))) [
  | inl left ↦ inr (best_maker-none s.taker s.orders (ground arith))
  | inr full ↦ inl (omega (arith, ltb→le _ _ full))
]

All-save_order :
    (t o : Order) (rows : List Order)
    → eligible t o ≡ false
    → All (λ r. eligible t r ≡ false) rows
    → All (λ r. eligible t r ≡ false) (save_order o rows)
unfolding save_order
All-save_order t o [] h a = tt
All-save_order t o (r ∷ rs) h a = (ground (arith, a.0), All-save_order t o rs h a.1)

-- An order is never its own counterpart.
eligible_irrefl : (t : Order) → eligible t t ≡ false
unfolding eligible
eligible_irrefl t = ground arith

IsMatched-save_order :
    (t : Order) (rows : List Order) → IsMatched t rows → IsMatched t (save_order t rows)
IsMatched-save_order t rows (inl full) = inl full
IsMatched-save_order t rows (inr none_left) =
    inr (All-save_order t t rows (eligible_irrefl t) none_left)

-- For every taker and book, the rounds that the model allows are enough: when the call is done,
-- the taker is filled up or no row of the book is eligible for it.
pub match_taker_order-IsMatched :
    (now : ℕ) (taker : Order) (orders : List Order) (trades : List Trade)
    (events : List TradeExecutedEvent)
    → IsMatched
        (match_taker_order now taker orders trades events).taker
        (match_taker_order now taker orders trades events).orders
unfolding match_taker_order
match_taker_order-IsMatched now taker orders trades events =
    let done = matched now taker orders trades events in
    IsMatched-save_order done.taker done.orders (
      IsMatched-of_none done (
        match_rounds_ends (suc (length orders)) now _
          (omega (arith, count_if-le-length (eligible taker) orders))))

-- What holds before the loop, and is kept by a round with the best maker, holds after it.
pub match_rounds_inv {ℓ} :
    (P : Matching → Type ℓ) (now : ℕ)
    → ((m : Order) (s : Matching)
        → IsBest s.taker m s.orders
        → 0 < remaining_amount s.taker
        → P s
        → P (fill_round now m s))
    → (rounds : ℕ) (s : Matching) → P s
    → P (match_rounds rounds now s)
unfolding match_rounds
match_rounds_inv P now keep zero s p = p
match_rounds_inv P now keep (suc rounds) s p = elim (Option-cases (next_maker s)) [
  | inl e ↦ rw (e, match_rounds) p
  | inr (m, e) ↦
      rw (e, match_rounds)
        (match_rounds_inv P now keep rounds (fill_round now m s)
          (keep m s (next_maker-IsBest s m e) (next_maker-pos s m e) p))
]
