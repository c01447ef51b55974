-- ===== src/Protection/Funds.antt =====
-- src/protection/services/insurance-fund.service.ts, fund-health.service.ts and
-- insurance-fee-contribution.service.ts. A percentage is exact; its column rounds to two places.
use peerx_backend.Common.{
  ℕ, ◌+◌, ◌-◌, ◌*◌, ◌/◌, Bool, true, false, not, ◌&&◌, Option, none, some, List, [], ◌∷◌, String,
  if◌then◌else◌, leb, ltb, ◌==◌, nat_keys, text_keys,
}
use peerx_backend.Common.Outcome.{Outcome, returns, ◌>>=◌, or_fail}
use peerx_backend.Common.Table.{find_row, save_row}
use peerx_backend.Protection.State.{
  FundTier, same_tier, FundHealthStatus, healthy, warning, critical_health, depleted,
  InsuranceTxType, payout, fee_contribution, replenishment, Percent, InsuranceFundTier,
  InsuranceFund, InsuranceTransaction, Protection, ProtectionError, fund_not_found, tier_not_found,
  insufficient_balance, fund_health_alert,
}

abbrev pub fund_key : InsuranceFund → ℕ
fund_key f = f.id

abbrev pub health_warning_threshold : ℕ
health_warning_threshold = 20

unfoldable pub calculate_health_percent : ℕ → ℕ → Percent
calculate_health_percent balance target =
    if target == 0
    then record { num = 100; den = 1 }
    else if leb target balance
    then record { num = 100; den = 1 }
    else record { num = balance * 100; den = target }

-- Whether a percentage is below a whole number.
abbrev pub is_below : ℕ → Percent → Bool
is_below limit p = ltb p.num (limit * p.den)

unfoldable pub resolve_health_status : Percent → FundHealthStatus
resolve_health_status p =
    if p.num == 0
    then depleted
    else if is_below health_warning_threshold p
    then critical_health
    else if is_below 50 p
    then warning
    else healthy

abbrev pub with_health : InsuranceFund → InsuranceFund
with_health f =
    let percent = calculate_health_percent f.balance f.target_reserve in
    record f { health_percent = percent; health_status = resolve_health_status percent }

unfoldable pub update_fund_health :
    ℕ → Protection → Outcome ProtectionError (Protection × InsuranceFund)
update_fund_health id db = do
  fund ← or_fail (find_row fund_key id db.funds) fund_not_found
  let f = with_health fund
  let crossed =
      is_below health_warning_threshold f.health_percent
      && not (is_below health_warning_threshold fund.health_percent)
  let alert = fund_health_alert f.id f.health_percent f.balance f.target_reserve
  returns (
    record db {
      funds = save_row fund_key f db.funds;
      events = if crossed then alert ∷ db.events else db.events;
    },
    f,
  )

unfoldable pub find_tier : FundTier → List InsuranceFundTier → Option InsuranceFundTier
find_tier tier [] = none
find_tier tier (t ∷ ts) = if same_tier t.tier tier then some t else find_tier tier ts

unfoldable pub find_fund : ℕ → String → List InsuranceFund → Option InsuranceFund
find_fund tier_id asset [] = none
find_fund tier_id asset (f ∷ fs) =
    if f.tier_id == tier_id && f.asset == asset then some f else find_fund tier_id asset fs

unfoldable pub get_funds_by_tier :
    FundTier → String → Protection → Outcome ProtectionError InsuranceFund
get_funds_by_tier tier asset db = do
  t ← or_fail (find_tier tier db.tiers) tier_not_found
  or_fail (find_fund t.id asset db.funds) fund_not_found

-- `UPDATE ... SET balance = balance - amount WHERE id = id AND balance >= amount`: whether a row
-- was updated.
unfoldable pub debit_balance : ℕ → ℕ → List InsuranceFund → Option (List InsuranceFund)
debit_balance id amount funds = elim (find_row fund_key id funds) [
  | none ↦ none
  | some f ↦
      if leb amount f.balance
      then some (save_row fund_key (record f { balance = f.balance - amount }) funds)
      else none
]

unfoldable pub credit_balance : ℕ → ℕ → List InsuranceFund → List InsuranceFund
credit_balance id amount funds = elim (find_row fund_key id funds) [
  | none ↦ funds
  | some f ↦ save_row fund_key (record f { balance = f.balance + amount }) funds
]

abbrev pub is_payout : InsuranceTxType → Bool
is_payout payout = true
is_payout _ = false

abbrev pub moved :
    InsuranceTxType → ℕ → ℕ → List InsuranceFund → Outcome ProtectionError (List InsuranceFund)
moved type id amount funds =
    if is_payout type
    then or_fail (debit_balance id amount funds) insufficient_balance
    else returns (credit_balance id amount funds)

abbrev pub transaction_row :
    InsuranceTxType → ℕ → Option String → Option ℕ → InsuranceFund → ℕ → InsuranceTransaction
transaction_row type amount reference user fund id = record {
  fund_id = id;
  type = type;
  amount = amount;
  balance_before = if is_payout type then fund.balance + amount else fund.balance - amount;
  balance_after = fund.balance;
  reference_id = reference;
  user_id = user;
}

unfoldable pub execute_record_transaction :
    ℕ
    → InsuranceTxType
    → ℕ
    → Option String
    → Option ℕ
    → Protection
    → Outcome ProtectionError (Protection × InsuranceTransaction)
execute_record_transaction id type amount reference user db = do
  funds ← moved type id amount db.funds
  fund ← or_fail (find_row fund_key id funds) fund_not_found
  let t = transaction_row type amount reference user fund id
  returns (record db { funds = funds; transactions = t ∷ db.transactions }, t)

-- Outside another transaction: the health follows the commit.
unfoldable pub record_transaction :
    ℕ
    → InsuranceTxType
    → ℕ
    → Option String
    → Option ℕ
    → Protection
    → Outcome ProtectionError (Protection × InsuranceTransaction)
record_transaction id type amount reference user db = do
  (after, t) ← execute_record_transaction id type amount reference user db
  (fresh, _) ← update_fund_health id after
  returns (fresh, t)

abbrev pub replenish_fund :
    ℕ → ℕ → Option String → Protection → Outcome ProtectionError (Protection × InsuranceTransaction)
replenish_fund id amount reference db = record_transaction id replenishment amount reference none db

abbrev pub contribute_from_fees :
    ℕ → ℕ → String → Protection → Outcome ProtectionError (Protection × InsuranceTransaction)
contribute_from_fees id amount trade db =
    record_transaction id fee_contribution amount (some trade) none db

abbrev pub tier_row_key : InsuranceFundTier → ℕ
tier_row_key t = t.id

-- `fund.tier?.feeContributionPct ?? 10`.
abbrev pub contribution_pct : Option InsuranceFundTier → ℕ
contribution_pct none = 10
contribution_pct (some t) = t.fee_contribution_pct

-- The contribution is rounded down to the smallest unit, in which amounts are counted.
unfoldable pub contribute_from_trade_fee :
    String → ℕ → String → FundTier → Protection → Outcome ProtectionError (Protection × ℕ)
contribute_from_trade_fee trade fee asset tier db = do
  fund ← get_funds_by_tier tier asset db
  let pct = contribution_pct (find_row tier_row_key fund.tier_id db.tiers)
  let contribution = fee * pct / 100
  let contributed = do
    (after, _) ← contribute_from_fees fund.id contribution trade db
    returns (after, contribution)
  if contribution == 0 then returns (db, 0) else contributed
