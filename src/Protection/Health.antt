-- ===== src/Protection/Health.antt =====
-- Health of the funds of src/protection, which is written after the balances: what
-- `updateFundHealth` changes, and that no fund is left with a status that is not its balance's.
use peerx_backend.Common.{
  ℕ, ◌≡◌, refl, sym, ◌∙◌, subst, some, List, [], ◌∷◌, arith, ◌==◌, nat_keys, Bool-cases,
  Option-cases, inl, inr, ne_of_same, nat_same_iff,
}
use peerx_backend.Common.Outcome.{Outcome-cases, returns}
use peerx_backend.Common.Table.{
  find_row, save_row, Unique, find_row-key, find_row-save_self, find_row-save_ne, sum_of-save_row,
  save_row-Unique,
}
use peerx_backend.Protection.State.{InsuranceFund, Protection}
use peerx_backend.Protection.Funds.{fund_key, with_health, update_fund_health}
use peerx_backend.Protection.Shortfall.{FundUse, refresh_health}
use peerx_backend.Protection.Ledger.{balance_of, total_balance}

-- The fund is there, and its health is written; nothing else of the funds is.
record IsRefreshed (id : ℕ) (before after : Protection) : Type 0 where
  row : InsuranceFund
  found : find_row fund_key id before.funds ≡ some row
  written : after.funds ≡ save_row fund_key (with_health row) before.funds
  same_transactions : after.transactions ≡ before.transactions

update_fund_health-IsRefreshed :
    (id : ℕ) (before after : Protection) (f : InsuranceFund)
    → update_fund_health id before ≡ returns (after, f)
    → IsRefreshed id before after
unfolding update_fund_health
update_fund_health-IsRefreshed id before after f h =
    elim (Option-cases (find_row fund_key id before.funds)) [
      | inl missing ↦ ground arith
      | inr (row, found) ↦ record {
        row = row;
        found = found;
        written = ground arith;
        same_transactions = ground arith;
      }
    ]

-- The funds' balances are the same, and so are the transactions.
pub record SameBalances (before after : Protection) : Type 0 where
  pub unique : Unique fund_key before.funds → Unique fund_key after.funds
  pub balances : (j : ℕ) → balance_of j after.funds ≡ balance_of j before.funds
  pub total : Unique fund_key before.funds → total_balance after.funds ≡ total_balance before.funds
  pub transactions : after.transactions ≡ before.transactions

refreshed-SameBalances :
    (id : ℕ) (before after : Protection) → IsRefreshed id before after → SameBalances before after
refreshed-SameBalances id before after r =
    let new = with_health r.row in
    let key : r.row.id ≡ id = find_row-key fund_key id r.row before.funds r.found in
    let there : find_row fund_key r.row.id before.funds ≡ some r.row =
      subst (λ i. find_row fund_key i before.funds ≡ some r.row) (sym key) r.found in
    record {
      unique = λ u. rw r.written (save_row-Unique fund_key new before.funds u);
      balances = λ j. elim (Bool-cases (r.row.id == j)) [
        | inl same ↦
            subst (λ k. balance_of k after.funds ≡ balance_of k before.funds)
              ((nat_same_iff r.row.id j).0 same)
              (rw (r.written, find_row-save_self fund_key new r.row before.funds there, there) refl)
        | inr apart ↦
            rw
              (
                r.written,
                find_row-save_ne fund_key j new before.funds (ne_of_same r.row.id j apart),
              )
              refl
      ];
      total = λ u. rw r.written (
          omega (
            arith,
            sum_of-save_row fund_key (λ (f : InsuranceFund). f.balance) new r.row before.funds u
                there,
          ));
      transactions = r.same_transactions;
    }

pub update_fund_health-SameBalances :
    (id : ℕ) (before after : Protection) (f : InsuranceFund)
    → update_fund_health id before ≡ returns (after, f)
    → SameBalances before after
update_fund_health-SameBalances id before after f h =
    refreshed-SameBalances id before after (update_fund_health-IsRefreshed id before after f h)

SameBalances-trans : (a b c : Protection) → SameBalances a b → SameBalances b c → SameBalances a c
SameBalances-trans a b c p q = record {
  unique = λ u. q.unique (p.unique u);
  balances = λ j. q.balances j ∙ p.balances j;
  total = λ u. q.total (p.unique u) ∙ p.total u;
  transactions = q.transactions ∙ p.transactions;
}

pub refresh_health-SameBalances :
    (used : List FundUse) (before after : Protection)
    → refresh_health used before ≡ returns after
    → SameBalances before after
unfolding refresh_health
refresh_health-SameBalances [] before after h =
    let same : before ≡ after = ground arith in
    subst (SameBalances before) same
      record { unique = λ u. u; balances = λ j. refl; total = λ u. refl; transactions = refl }
refresh_health-SameBalances (u ∷ us) before after h =
    elim (Outcome-cases (update_fund_health u.fund_id before)) [
      | inl ((mid, f), e) ↦
          SameBalances-trans before mid after
            (update_fund_health-SameBalances u.fund_id before mid f e)
            (refresh_health-SameBalances us mid after (ground arith))
      | inr (x, e) ↦ ground arith
    ]
