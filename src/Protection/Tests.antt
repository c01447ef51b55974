-- ===== src/Protection/Tests.antt =====
-- Runs of the services of src/protection, and their theorems at concrete inputs.
use peerx_backend.Common.{
  ℕ, ◌+◌, ◌≡◌, ◌≤◌, refl, subst, arith, false, none, [], ◌∷◌, text_keys, nat_keys, ne_of_same,
}
use peerx_backend.Common.Outcome.{returns, throws, after, returns-injective}
use peerx_backend.Protection.State.{
  low, medium, high, critical, ProtectionError, payout, replenishment, healthy, InsuranceFundTier,
  InsuranceFund, Protection, insufficient_balance, FundTier,
}
use peerx_backend.Protection.Funds.{
  calculate_health_percent, resolve_health_status, update_fund_health, find_tier, find_fund,
  get_funds_by_tier, debit_balance, credit_balance, execute_record_transaction, record_transaction,
}
use peerx_backend.Protection.Shortfall.{
  pay, pay_again, pay_first, walk_tiers, refresh_health, cover_shortfall, CoverShortfallResult,
}
use peerx_backend.Protection.Ledger.{balance_of}
use peerx_backend.Protection.Covered.{
  IsConserved, cover_shortfall-IsConserved, NotRefilled, cover_shortfall-drained,
}
use peerx_backend.Protection.Books.{
  start, call, records, covers, paid_in, paid_out, Past-IsBalanced,
}

unfoldable pub covering : Unit {0}
unfolding calculate_health_percent resolve_health_status update_fund_health find_tier find_fund
    get_funds_by_tier debit_balance credit_balance execute_record_transaction record_transaction pay
    pay_again pay_first walk_tiers refresh_health cover_shortfall
covering = tt

abbrev tier_row : ℕ → FundTier → InsuranceFundTier
tier_row id tier = record {
  id = id;
  tier = tier;
  min_reserve = 10;
  max_exposure = 1000;
  fee_contribution_pct = 5;
}

abbrev fund_row : ℕ → ℕ → InsuranceFund
fund_row id balance = record {
  id = id;
  tier_id = id;
  asset = "USDT";
  balance = balance;
  target_reserve = 400;
  health_status = healthy;
  health_percent = record { num = 50; den = 1 };
}

abbrev funded : Protection
funded = record {
  tiers = tier_row 1 low ∷ tier_row 2 medium ∷ [];
  funds = fund_row 1 100 ∷ fund_row 2 300 ∷ [];
  transactions = [];
  liquidations = [];
  events = [];
}

abbrev result_or_zero : ℕ → Protection → ℕ
result_or_zero shortfall db = elim (cover_shortfall 7 shortfall none "USDT" none db db) [
  | returns (now, r) ↦ r.remaining_shortfall
  | throws e ↦ 0
]

two_tiers_pay : result_or_zero 250 funded ≡ 0
unfolding covering
two_tiers_pay = refl

part_remains : result_or_zero 500 funded ≡ 100
unfolding covering
part_remains = refl

-- A payout beyond the balance is refused.
refused : record_transaction 1 payout 101 none none funded ≡ throws insufficient_balance
unfolding covering
refused = refl

abbrev drained : Protection
drained = after funded (cover_shortfall 7 500 none "USDT" none funded funded)

abbrev of_500 : CoverShortfallResult
of_500 = record {
  covered_amount = 400;
  remaining_shortfall = 100;
  cascade_prevented = false;
  funds_used =
      record { fund_id = 1; amount = 100; tier = low }
      ∷ record { fund_id = 2; amount = 300; tier = medium }
      ∷ [];
}

cover_shortfall-IsConserved_example : IsConserved 500 funded drained of_500
cover_shortfall-IsConserved_example =
    cover_shortfall-IsConserved 7 500 none "USDT" none funded funded drained of_500
      (unfold covering in refl) ((ne_of_same 2 1 refl, tt), (tt, tt))

-- Another cover has taken 60 of the second fund between the reads and the transaction.
abbrev raced : Protection
raced = record funded { funds = fund_row 1 100 ∷ fund_row 2 240 ∷ [] }

abbrev drained_late : Protection
drained_late = after raced (cover_shortfall 7 500 none "USDT" none funded raced)

abbrev of_500_late : CoverShortfallResult
of_500_late = record {
  covered_amount = 340;
  remaining_shortfall = 160;
  cascade_prevented = false;
  funds_used =
      record { fund_id = 1; amount = 100; tier = low }
      ∷ record { fund_id = 2; amount = 240; tier = medium }
      ∷ [];
}

raced-NotRefilled : NotRefilled "USDT" funded raced
unfolding covering
raced-NotRefilled low g e =
    subst (λ x. balance_of x.id raced.funds ≤ x.balance)
      (returns-injective {E = ProtectionError} (fund_row 1 100) g e) (omega arith)
raced-NotRefilled medium g e =
    subst (λ x. balance_of x.id raced.funds ≤ x.balance)
      (returns-injective {E = ProtectionError} (fund_row 2 300) g e) (omega arith)
raced-NotRefilled high g e = cc
raced-NotRefilled critical g e = cc

cover_shortfall-drained_example : balance_of 2 drained_late.funds ≡ 0
cover_shortfall-drained_example =
    cover_shortfall-drained 7 500 none "USDT" none funded raced drained_late of_500_late medium
      (fund_row 2 300) (unfold covering in refl) raced-NotRefilled (omega arith)
      (unfold covering in refl)

abbrev refilled : Protection
refilled = after drained (record_transaction 2 replenishment 50 none none drained)

Past-IsBalanced_example :
    balance_of 2 refilled.funds + paid_out 2 refilled.transactions
    ≡ balance_of 2 funded.funds + paid_in 2 refilled.transactions
Past-IsBalanced_example =
    Past-IsBalanced funded refilled refl
      (call (covers 7 500 none "USDT" none funded)
        (call (records 2 replenishment 50 none none) start))
      2
