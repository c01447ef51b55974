-- ===== src/Exchange/Tests.antt =====
-- Runs of the services of src/exchange, and their theorems at concrete inputs.
use native.Mathlib.Nat.{add-mul-div_right}
use peerx_backend.Common.{
  ℕ, ◌/◌, ◌<◌, ap, ◌∙◌, ◌==◌, if◌then◌else◌, Bool-cases, inl, inr, ◌+◌, ◌*◌, ◌≡◌, refl, arith, none,
  some, [], ◌∷◌, text_keys, nat_keys, pair_keys,
}
use peerx_backend.Common.Outcome.{throws, after}
use peerx_backend.Exchange.State.{LiquidityPool, PoolSwap, Exchange, below_minimum, pool_exists}
use peerx_backend.Orders.Order.{Ratio}
use peerx_backend.Exchange.Amm.{
  whole, SwapQuote, amount_out_of, get_amount_out, calculate_lp_tokens_to_mint,
  calculate_withdraw_amounts, distribute_fees,
}
use peerx_backend.Exchange.Pools.{
  pair_taken, new_pool, create_pool, deposited, add_liquidity, remove_liquidity, emergency_withdraw,
}
use peerx_backend.Exchange.Trades.{swap_a, swap_b, swap}
use peerx_backend.Exchange.Product.{KeepsProduct, swap_quote, get_amount_out-KeepsProduct}
use peerx_backend.Exchange.Supply.{IsBalanced}
use peerx_backend.Exchange.History.{
  HasProperRoot, creates, adds, empty_exchange, Reached, founded, later, Reached-IsBalanced,
}
use peerx_backend.Exchange.Balanced.{KeepsWhole}

trading : Unit {0}
unfolding amount_out_of get_amount_out calculate_lp_tokens_to_mint calculate_withdraw_amounts
    distribute_fees pair_taken create_pool deposited add_liquidity remove_liquidity
    emergency_withdraw swap_a swap_b swap
trading = tt

-- A column of whole units that rounds to the nearest, and the roots of two products.
abbrev nearest : Ratio → ℕ
nearest r = (r.num * 2 + r.den) / (r.den * 2)

abbrev root : ℕ → Ratio
root n = if n == 3600 then whole 60 else record { num = n; den = 60 }

root-HasProperRoot : HasProperRoot root
root-HasProperRoot n = elim (Bool-cases (n == 3600)) [
  | inl square ↦ rw square (omega arith)
  | inr other ↦ rw other (omega arith)
]

twice_on : (n num den : ℕ) → (n * den + num) * 2 + den ≡ (num * 2 + den) + n * (den * 2)
twice_on n num den = grind arith

nearest-KeepsWhole : KeepsWhole nearest
nearest-KeepsWhole n r h =
    let den : 0 < r.den * 2 = omega (arith, h) in
    ap (λ x. x / (r.den * 2)) (twice_on n r.num r.den)
    ∙ add-mul-div_right (r.num * 2 + r.den) n den
    ∙ (omega arith)

abbrev start : Exchange
start = empty_exchange (record { id = 1; symbol = "A" } ∷ record { id = 2; symbol = "B" } ∷ [])

abbrev with_pool : Exchange
with_pool = after start (create_pool 5 1 2 "main" (some 1000) start)

abbrev supplied : Exchange
supplied = after with_pool (add_liquidity nearest root 5 7 40 90 with_pool)

abbrev supplied_pool : LiquidityPool
supplied_pool = record (new_pool 5 1 2 "main" (some 1000)) {
  reserve_a = 40;
  reserve_b = 90;
  total_lp_supply = 60;
}

-- 16.53 units, stored as 17.
abbrev quote : SwapQuote
quote = swap_quote 10 40 90 1000

abbrev swap_row : PoolSwap
swap_row = record {
  pool_id = 5;
  user_id = 8;
  token_in = "A";
  token_out = "B";
  amount_in = 10;
  amount_out = 17;
  fee_paid = 1;
  price_impact = quote.price_impact;
}

abbrev swapped : Exchange
swapped = after supplied (swap nearest 5 8 "A" 10 none supplied)

too_little : swap nearest 5 8 "A" 10 (some 17) supplied ≡ throws below_minimum
unfolding trading
too_little = refl

pair_exists : create_pool 6 1 2 "main" (some 1000) with_pool ≡ throws pool_exists
unfolding trading
pair_exists = refl

-- An emergency withdrawal that nobody has approved pays out all the same.
withdrawn_unapproved :
    (after supplied (emergency_withdraw nearest 5 7 60 "exit" none supplied)).pools
    ≡ new_pool 5 1 2 "main" (some 1000) ∷ []
unfolding trading
withdrawn_unapproved = refl

reached : Reached nearest root supplied
unfolding trading
reached =
    let first : Reached nearest root start = founded start.assets in
    let second : Reached nearest root with_pool =
      later {db = start} first
        (creates 5 1 2 "main" (some 1000) (new_pool 5 1 2 "main" (some 1000)) refl refl) in
    later {db = with_pool} second (
      adds 5 7 40 90
        (record { lp_tokens_minted = whole 60; amount_a = whole 40; amount_b = whole 90 }) refl)

get_amount_out-KeepsProduct_example : KeepsProduct 10 40 90 quote
get_amount_out-KeepsProduct_example =
    get_amount_out-KeepsProduct 10 40 90 1000 quote (unfold trading in refl) (omega arith)

Reached-IsBalanced_example : IsBalanced supplied
Reached-IsBalanced_example =
    Reached-IsBalanced nearest root supplied nearest-KeepsWhole root-HasProperRoot reached
