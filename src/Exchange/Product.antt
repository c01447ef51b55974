-- ===== src/Exchange/Product.antt =====
-- The constant product of src/exchange/services/amm.service.ts, on exact quotes.
use native.Mathlib.Nat.{mul-le-mul_left, mul-pos}
use peerx_backend.Common.{
  ℕ, ◌+◌, ◌-◌, ◌*◌, ◌≤◌, ◌<◌, ◌≡◌, ap, sym, subst, arith, Bool-cases, inl, inr, ltb, ltb→lt,
}
use peerx_backend.Common.Outcome.{returns, returns-injective}
use peerx_backend.Exchange.State.{ExchangeError}
use peerx_backend.Exchange.Amm.{
  SwapQuote, amount_in_with_fee, amount_out_of, impact_of, get_amount_out,
}

-- A quote against the reserves: the output is a number below the reserve it is taken from, and the
-- product of the reserves afterwards is at least the product before, both times the denominator.
pub record KeepsProduct (amount ri ro : ℕ) (q : SwapQuote) : Type 0 where
  pub proper : 0 < q.amount_out.den
  pub taken : q.amount_out.num < ro * q.amount_out.den
  pub product :
      ri * (ro * q.amount_out.den) ≤ (ri + amount) * (ro * q.amount_out.den - q.amount_out.num)

-- The numbers of an output: with the input `w` after the fee, what is left of the output's reserve.
left_over : (w ri ro : ℕ) → ro * (ri * 10000 + w) - w * ro ≡ ri * ro * 10000
left_over w ri ro =
    let whole : ro * (ri * 10000 + w) ≡ ri * ro * 10000 + w * ro = grind arith in
    omega (arith, whole)

product_kept :
    (amount w ri ro : ℕ)
    → w ≤ amount * 10000
    → ri * (ro * (ri * 10000 + w)) ≤ (ri + amount) * (ri * ro * 10000)
product_kept amount w ri ro h = let scaled = mul-le-mul_left (ri * ro) h in grind (arith, scaled)

output_taken : (w ri ro : ℕ) → 0 < ri → 0 < ro → w * ro < ro * (ri * 10000 + w)
output_taken w ri ro h k = let some_left = mul-pos h k in grind (arith, some_left)

amount_out_of-KeepsProduct :
    (amount ri ro fee : ℕ) (q : SwapQuote)
    → 0 < ri
    → 0 < ro
    → q.amount_out ≡ amount_out_of amount ri ro fee
    → KeepsProduct amount ri ro q
unfolding amount_out_of
amount_out_of-KeepsProduct amount ri ro fee q h k e =
    let w = amount_in_with_fee amount fee in
    let below : w ≤ amount * 10000 = mul-le-mul_left amount (omega arith) in
    record {
      proper = rw e (omega (arith, h));
      taken = rw e (output_taken w ri ro h k);
      product = rw e (
          subst (λ x. ri * (ro * (ri * 10000 + w)) ≤ (ri + amount) * x) (sym (left_over w ri ro))
            (product_kept amount w ri ro below));
    }

-- What is quoted for a swap.
abbrev pub swap_quote : ℕ → ℕ → ℕ → ℕ → SwapQuote
swap_quote amount ri ro fee = record {
  amount_out = amount_out_of amount ri ro fee;
  fee_amount = record { num = amount * fee; den = 10000 };
  price_impact = impact_of amount (amount_out_of amount ri ro fee) ri ro;
}

-- A quote that is returned, and the tests before it.
pub record IsOffered (amount ri ro fee : ℕ) (q : SwapQuote) : Type 0 where
  pub has_in : 0 < ri
  pub has_out : 0 < ro
  pub quote : swap_quote amount ri ro fee ≡ q

pub get_amount_out-IsOffered :
    (amount ri ro fee : ℕ) (q : SwapQuote)
    → get_amount_out amount ri ro fee ≡ returns q
    → IsOffered amount ri ro fee q
unfolding get_amount_out
get_amount_out-IsOffered amount ri ro fee q h = elim (Bool-cases (ltb 0 amount)) [
  | inr none_in ↦ ground arith
  | inl some_in ↦ elim (Bool-cases (ltb 0 ri)) [
    | inr empty ↦ ground arith
    | inl full ↦ elim (Bool-cases (ltb 0 ro)) [
      | inr empty ↦ ground arith
      | inl left ↦ record {
        has_in = ltb→lt 0 ri full;
        has_out = ltb→lt 0 ro left;
        quote =
            returns-injective {E = ExchangeError} (swap_quote amount ri ro fee) q
              (rw (some_in, full, left) at h);
      }
    ]
  ]
]

-- If the fee is at most 10000 basis points: the exact output that is quoted for a swap is below the
-- reserve it is taken from, and the product of the reserves, with the input added to one and the output
-- taken from the other, is at least what it was.
pub get_amount_out-KeepsProduct :
    (amount ri ro fee : ℕ) (q : SwapQuote)
    → get_amount_out amount ri ro fee ≡ returns q
    → fee ≤ 10000
    → KeepsProduct amount ri ro q
get_amount_out-KeepsProduct amount ri ro fee q h bounded =
    let o = get_amount_out-IsOffered amount ri ro fee q h in
    amount_out_of-KeepsProduct amount ri ro fee q o.has_in o.has_out
      (ap (λ x. x.amount_out) (sym o.quote))
