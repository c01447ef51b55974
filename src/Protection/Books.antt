-- ===== src/Protection/Books.antt =====
-- The books of src/protection: the balances of the funds against the table of transactions, in any
-- sequence of calls of the services.
use peerx_backend.Common.{
  ℕ, ◌+◌, ◌≡◌, refl, sym, ◌∙◌, subst, false, not, ◌&&◌, Option, some, List, [], ◌∷◌, String, arith,
  if◌then◌else◌, ◌==◌, nat_keys, sum_of, Bool-cases, Option-cases, inl, inr, ne_of_same,
  nat_same_iff,
}
use peerx_backend.Common.Outcome.{Outcome-cases, returns, after, after_bind}
use peerx_backend.Common.Table.{
  find_row, save_row, find_row-key, find_row-save_self, find_row-save_ne,
}
use peerx_backend.Protection.State.{
  FundTier, InsuranceTxType, payout, deposit, fee_contribution, replenishment, InsuranceFund,
  InsuranceTransaction, Protection,
}
use peerx_backend.Protection.Funds.{
  fund_key, credit_balance, is_payout, transaction_row, execute_record_transaction,
  record_transaction, update_fund_health,
}
use peerx_backend.Protection.Shortfall.{Walk, noted, cover_shortfall}
use peerx_backend.Protection.Ledger.{
  balance_of, IsPaid, payout-IsPaid, debited_self, debited_other, Payouts, none_more, one_more,
  walk_tiers-Payouts,
}
use peerx_backend.Protection.Shortfall.{tiers_to_try}
use peerx_backend.Protection.Covered.{cover_shortfall-IsWalked}
use peerx_backend.Protection.Health.{SameBalances, update_fund_health-SameBalances}

-- What the transactions on a fund have paid out, and what they have paid in.
abbrev pub paid_out : ℕ → List InsuranceTransaction → ℕ
paid_out id = sum_of (λ t. if t.fund_id == id && is_payout t.type then t.amount else 0)

abbrev pub paid_in : ℕ → List InsuranceTransaction → ℕ
paid_in id = sum_of (λ t. if t.fund_id == id && not (is_payout t.type) then t.amount else 0)

-- Every balance is what the fund opened with, what was paid in, less what was paid out.
pub record IsBalanced (opening : ℕ → ℕ) (db : Protection) : Type 0 where
  pub books :
      (id : ℕ)
      → balance_of id db.funds + paid_out id db.transactions
        ≡ opening id + paid_in id db.transactions

pub paid-IsBalanced :
    (opening : ℕ → ℕ) (id amount : ℕ) (before now : Protection)
    → IsPaid id amount before now
    → IsBalanced opening before
    → IsBalanced opening now
paid-IsBalanced opening id amount before now p b = record {
  books = λ j. rw p.logged (elim (Bool-cases (id == j)) [
    | inl same ↦
        let e : id ≡ j = (nat_same_iff id j).0 same in
        subst
          (λ k.
            balance_of k now.funds + paid_out k (p.transaction ∷ before.transactions)
            ≡ opening k + paid_in k (p.transaction ∷ before.transactions))
          e
          (rw p.about.0 (
            rw p.about.1 (
              rw p.about.2 (
                ground (
                  arith,
                  b.books id,
                  nat_same_iff id id,
                  debited_self id amount before.funds now.funds p.debited,
                )))))
    | inr apart ↦
        let other =
          debited_other id amount before.funds now.funds p.debited j (ne_of_same id j apart) in
        rw (p.about.0, apart) (omega (arith, b.books j, other))
  ]);
}

-- A credit of a fund that is there.
credited-IsBalanced :
    (opening : ℕ → ℕ) (type : InsuranceTxType) (id amount : ℕ) (reference : Option String)
    (user : Option ℕ) (before now : Protection) (t : InsuranceTransaction)
    → is_payout type ≡ false
    → execute_record_transaction id type amount reference user before ≡ returns (now, t)
    → IsBalanced opening before
    → IsBalanced opening now
unfolding execute_record_transaction credit_balance
credited-IsBalanced opening type id amount reference user before now t kind h b =
    elim (Option-cases (find_row fund_key id before.funds)) [
      | inl missing ↦ ground arith
      | inr (f, found) ↦
          let new : InsuranceFund = record f { balance = f.balance + amount } in
          let key = find_row-key fund_key id f before.funds found in
          let there : find_row fund_key id (save_row fund_key new before.funds) ≡ some new =
            subst (λ i. find_row fund_key i (save_row fund_key new before.funds) ≡ some new) key
              (find_row-save_self fund_key new f before.funds
                (subst (λ i. find_row fund_key i before.funds ≡ some f) (sym key) found)) in
          let row = transaction_row type amount reference user new id in
          let funds : now.funds ≡ save_row fund_key new before.funds = ground arith in
          let logged : now.transactions ≡ row ∷ before.transactions = ground arith in
          record {
            books = λ j.
                rw (funds, logged)
                  (elim (Bool-cases (id == j)) [
                    | inl same ↦
                        subst
                          (λ k.
                            balance_of k (save_row fund_key new before.funds)
                              + paid_out k (row ∷ before.transactions)
                            ≡ opening k + paid_in k (row ∷ before.transactions))
                          ((nat_same_iff id j).0 same)
                          (rw (there, kind) (ground (arith, b.books id, nat_same_iff id id, found)))
                    | inr apart ↦
                        let other =
                          find_row-save_ne fund_key j new before.funds
                            (λ e. ne_of_same id j apart (sym key ∙ e)) in
                        rw (other, apart) (omega (arith, b.books j))
                  ]);
          }
    ]

same_IsBalanced :
    (opening : ℕ → ℕ) (before now : Protection)
    → SameBalances before now
    → IsBalanced opening before
    → IsBalanced opening now
same_IsBalanced opening before now s b = record {
  books = λ j. rw (s.balances j, s.transactions) (b.books j);
}

pub Payouts-IsBalanced :
    (opening : ℕ → ℕ) (v w : Walk) → Payouts v w → IsBalanced opening w.db → IsBalanced opening v.db
Payouts-IsBalanced opening v w none_more b = b
Payouts-IsBalanced opening v w (one_more id amount tier db p h rest) b =
    Payouts-IsBalanced opening v (noted id tier amount w (some db)) rest
      (paid-IsBalanced opening id amount w.db db p b)

execute-IsBalanced :
    (opening : ℕ → ℕ) (type : InsuranceTxType) (id amount : ℕ) (reference : Option String)
    (user : Option ℕ) (before now : Protection) (t : InsuranceTransaction)
    → execute_record_transaction id type amount reference user before ≡ returns (now, t)
    → IsBalanced opening before
    → IsBalanced opening now
execute-IsBalanced opening payout id amount reference user before now t h b =
    paid-IsBalanced opening id amount before now
      (payout-IsPaid reference user id amount before now t h) b
execute-IsBalanced opening deposit id amount reference user before now t h b =
    credited-IsBalanced opening deposit id amount reference user before now t refl h b
execute-IsBalanced opening fee_contribution id amount reference user before now t h b =
    credited-IsBalanced opening fee_contribution id amount reference user before now t refl h b
execute-IsBalanced opening replenishment id amount reference user before now t h b =
    credited-IsBalanced opening replenishment id amount reference user before now t refl h b

record_transaction-IsBalanced :
    (opening : ℕ → ℕ) (type : InsuranceTxType) (id amount : ℕ) (reference : Option String)
    (user : Option ℕ) (db : Protection)
    → IsBalanced opening db
    → IsBalanced opening (after db (record_transaction id type amount reference user db))
unfolding record_transaction
record_transaction-IsBalanced opening type id amount reference user db b =
    after_bind (IsBalanced opening) db (execute_record_transaction id type amount reference user db)
      _ b
      λ (mid, t) e.
        let half = execute-IsBalanced opening type id amount reference user db mid t e b in
        after_bind (IsBalanced opening) db (update_fund_health id mid) _ b λ (now, f) k.
          same_IsBalanced opening mid now (update_fund_health-SameBalances id mid now f k) half

-- The calls that change balances: direct transactions, and shortfalls covered with whatever reads
-- came before.
pub data Call (db : Protection) : Protection → Type 0 where
  records :
      (id : ℕ) (type : InsuranceTxType) (amount : ℕ) (reference : Option String) (user : Option ℕ)
      → Call db (after db (record_transaction id type amount reference user db))
  refreshes : (id : ℕ) → Call db (after db (update_fund_health id db))
  covers :
      (user shortfall : ℕ) (position : Option String) (asset : String) (preferred : Option FundTier)
      (before : Protection)
      → Call db (after db (cover_shortfall user shortfall position asset preferred before db))

pub data Past (now : Protection) : Protection → Type 0 where
  start : Past now now
  call : {before later : Protection} → Call before later → Past now later → Past now before

cover_shortfall-IsBalanced :
    (opening : ℕ → ℕ) (user shortfall : ℕ) (position : Option String) (asset : String)
    (preferred : Option FundTier) (before db : Protection)
    → IsBalanced opening db
    → IsBalanced opening
        (after db (cover_shortfall user shortfall position asset preferred before db))
cover_shortfall-IsBalanced opening user shortfall position asset preferred before db b =
    elim (Outcome-cases (cover_shortfall user shortfall position asset preferred before db)) [
      | inl ((now, r), e) ↦
          let k =
            cover_shortfall-IsWalked user shortfall position asset preferred before db now r e in
          rw e (
            same_IsBalanced opening k.walk.db now k.kept (
              Payouts-IsBalanced opening k.walk _
                (walk_tiers-Payouts user position _ (tiers_to_try preferred) _ k.walk k.walked) b))
      | inr (x, e) ↦ rw e b
    ]

Call-IsBalanced :
    (opening : ℕ → ℕ) {db now : Protection}
    → Call db now
    → IsBalanced opening db
    → IsBalanced opening now
Call-IsBalanced opening {db} (records id type amount reference user) b =
    record_transaction-IsBalanced opening type id amount reference user db b
Call-IsBalanced opening {db} (refreshes id) b = elim (Outcome-cases (update_fund_health id db)) [
  | inl ((now, f), e) ↦
      rw e (same_IsBalanced opening db now (update_fund_health-SameBalances id db now f e) b)
  | inr (x, e) ↦ rw e b
]
Call-IsBalanced opening {db} (covers user shortfall position asset preferred before) b =
    cover_shortfall-IsBalanced opening user shortfall position asset preferred before db b

-- Whatever calls are made, from funds with no transactions: the balance of every fund is what it
-- opened with and what its transactions have paid in, less what they have paid out.
pub Past-IsBalanced :
    (begin now : Protection)
    → begin.transactions ≡ []
    → Past now begin
    → (id : ℕ)
    → balance_of id now.funds + paid_out id now.transactions
      ≡ balance_of id begin.funds + paid_in id now.transactions
Past-IsBalanced begin now e past = (kept past opened).books
  where
    opening : ℕ → ℕ
    opening id = balance_of id begin.funds

    opened : IsBalanced opening begin
    opened = record { books = λ id. rw e refl }

    kept : {db : Protection} → Past now db → IsBalanced opening db → IsBalanced opening now
    kept start b = b
    kept (call c rest) b = kept rest (Call-IsBalanced opening c b)
