-- ===== src/Protection/Ledger.antt =====
-- Payouts from the funds of src/protection: what a conditional update moves, and sequences of payouts
-- in a walk over the tiers.
use peerx_backend.Common.{
  ℕ, ◌+◌, ◌-◌, ◌≤◌, ◌<◌, ◌≡◌, ◌≢◌, refl, sym, ◌∙◌, subst, min, Option, none, some, List, [], ◌∷◌,
  String, arith, leb, ◌==◌, nat_keys, sum_of, Bool-cases, Option-cases, inl, inr, ne_of_same,
  nat_same_iff, leb→le, leb→lt,
}
use peerx_backend.Common.Outcome.{Outcome-cases, returns}
use peerx_backend.Common.Table.{
  find_row, save_row, Unique, find_row-key, find_row-save_self, find_row-save_ne, sum_of-save_row,
  save_row-Unique,
}
use peerx_backend.Protection.State.{
  FundTier, payout, InsuranceFund, InsuranceTransaction, Protection, insufficient_balance,
  fund_not_found, tier_not_found, invalid_shortfall,
}
use peerx_backend.Protection.Funds.{
  fund_key, debit_balance, transaction_row, execute_record_transaction,
}
use peerx_backend.Protection.Shortfall.{
  Walk, pay, noted, pay_again, pay_first, cover_from, walk_tiers,
}

abbrev pub balance_in : Option InsuranceFund → ℕ
balance_in none = 0
balance_in (some f) = f.balance

-- The balance of a fund; 0 without one.
abbrev pub balance_of : ℕ → List InsuranceFund → ℕ
balance_of id funds = balance_in (find_row fund_key id funds)

abbrev pub total_balance : List InsuranceFund → ℕ
total_balance funds = sum_of (λ f. f.balance) funds

-- The fund is there, has the amount, and loses it; nothing else is written.
pub record IsDebited (id amount : ℕ) (before after : List InsuranceFund) : Type 0 where
  pub row : InsuranceFund
  pub found : find_row fund_key id before ≡ some row
  pub enough : amount ≤ row.balance
  pub written : after ≡ save_row fund_key (record row { balance = row.balance - amount }) before

debit_balance-IsDebited :
    (id amount : ℕ) (before after : List InsuranceFund)
    → debit_balance id amount before ≡ some after
    → IsDebited id amount before after
unfolding debit_balance
debit_balance-IsDebited id amount before after h =
    elim (Option-cases (find_row fund_key id before)) [
      | inl missing ↦ ground arith
      | inr (f, found) ↦ elim (Bool-cases (leb amount f.balance)) [
        | inl e ↦ record {
          row = f;
          found = found;
          enough = leb→le amount f.balance e;
          written = ground arith;
        }
        | inr e ↦ ground arith
      ]
    ]

module _ (id amount : ℕ) (before after : List InsuranceFund)
    (d : IsDebited id amount before after) where
  row-key : d.row.id ≡ id
  row-key = find_row-key fund_key id d.row before d.found

  pub debited-Unique : Unique fund_key before → Unique fund_key after
  debited-Unique u = rw d.written (save_row-Unique fund_key _ before u)

  pub debited_total : Unique fund_key before → total_balance after + amount ≡ total_balance before
  debited_total u =
      let new : InsuranceFund = record d.row { balance = d.row.balance - amount } in
      let moved_by =
        sum_of-save_row fund_key (λ f. f.balance) new d.row before u
          (subst (λ i. find_row fund_key i before ≡ some d.row) (sym row-key) d.found) in
      rw d.written (omega (arith, moved_by, d.enough))

  pub debited_self : balance_of id after + amount ≡ balance_of id before
  debited_self =
      let new : InsuranceFund = record d.row { balance = d.row.balance - amount } in
      let there =
        find_row-save_self fund_key new d.row before
          (subst (λ i. find_row fund_key i before ≡ some d.row) (sym row-key) d.found) in
      let now : find_row fund_key id (save_row fund_key new before) ≡ some new =
        subst (λ i. find_row fund_key i (save_row fund_key new before) ≡ some new) row-key there in
      rw (d.written, now, d.found) (omega (arith, d.enough))

  pub debited_other : (j : ℕ) → id ≢ j → balance_of j after ≡ balance_of j before
  debited_other j apart =
      let new : InsuranceFund = record d.row { balance = d.row.balance - amount } in
      rw (d.written, find_row-save_ne fund_key j new before (λ e. apart (sym row-key ∙ e))) refl

  pub debited_le : (j : ℕ) → balance_of j after ≤ balance_of j before
  debited_le j = elim (Bool-cases (id == j)) [
    | inl same ↦
        subst (λ k. balance_of k after ≤ balance_of k before) ((nat_same_iff id j).0 same)
          (omega (arith, debited_self))
    | inr apart ↦ omega (arith, debited_other j (ne_of_same id j apart))
  ]

-- What a payout that succeeds has done.
pub record IsPaid (id amount : ℕ) (before after : Protection) : Type 0 where
  pub debited : IsDebited id amount before.funds after.funds
  pub transaction : InsuranceTransaction
  pub logged : after.transactions ≡ transaction ∷ before.transactions
  pub about :
      (transaction.fund_id ≡ id) × (transaction.type ≡ payout) × (transaction.amount ≡ amount)

pub payout-IsPaid :
    (reference : Option String) (user : Option ℕ) (id amount : ℕ) (before after : Protection)
    (t : InsuranceTransaction)
    → execute_record_transaction id payout amount reference user before ≡ returns (after, t)
    → IsPaid id amount before after
unfolding execute_record_transaction
payout-IsPaid reference user id amount before after t h =
    elim (Option-cases (debit_balance id amount before.funds)) [
      | inl missing ↦ ground arith
      | inr (funds, debited) ↦ elim (Option-cases (find_row fund_key id funds)) [
        | inl missing ↦ ground arith
        | inr (f, there) ↦ record {
          debited =
              let same : funds ≡ after.funds = ground arith in
              subst (IsDebited id amount before.funds) same
                (debit_balance-IsDebited id amount before.funds funds debited);
          transaction = transaction_row payout amount reference user f id;
          logged = ground arith;
          about = (refl, refl, refl);
        }
      ]
    ]

pub pay-IsPaid :
    (user : ℕ) (position : Option String) (id amount : ℕ) (before after : Protection)
    → pay user position id amount before ≡ returns (some after)
    → IsPaid id amount before after
unfolding pay
pay-IsPaid user position id amount before after h =
    elim (Outcome-cases (execute_record_transaction id payout amount position (some user) before)) [
      | inl ((db, t), e) ↦
          let same : db ≡ after = ground arith in
          payout-IsPaid position (some user) id amount before after t (rw (← same) e)
      | inr (fund_not_found, e) ↦ ground arith
      | inr (tier_not_found, e) ↦ ground arith
      | inr (insufficient_balance, e) ↦ ground arith
      | inr (invalid_shortfall, e) ↦ ground arith
    ]

-- A payout that is refused: the balance does not have the amount, or there is no such fund.
pub pay-none :
    (user : ℕ) (position : Option String) (id amount : ℕ) (db : Protection)
    → pay user position id amount db ≡ returns none
    → 0 < amount
    → balance_of id db.funds < amount
unfolding pay execute_record_transaction debit_balance
pay-none user position id amount db h pos = elim (Option-cases (find_row fund_key id db.funds)) [
  | inl missing ↦ rw missing pos
  | inr (f, found) ↦ elim (Bool-cases (leb amount f.balance)) [
    | inl enough ↦
        let new : InsuranceFund = record f { balance = f.balance - amount } in
        let there : find_row fund_key id (save_row fund_key new db.funds) ≡ some new =
          subst (λ i. find_row fund_key i (save_row fund_key new db.funds) ≡ some new)
            (find_row-key fund_key id f db.funds found)
            (find_row-save_self fund_key new f db.funds (
              subst (λ i. find_row fund_key i db.funds ≡ some f)
                (sym (find_row-key fund_key id f db.funds found)) found)) in
        ground arith
    | inr lacking ↦ rw found (leb→lt amount f.balance lacking)
  ]
]

-- One payout after another, from a walk to a later one.
pub data Payouts (now : Walk) : Walk → Type 0 where
  none_more : Payouts now now
  one_more :
      {w : Walk} (id amount : ℕ) (tier : FundTier) (db : Protection)
      → IsPaid id amount w.db db
      → amount ≤ w.remaining
      → Payouts now (noted id tier amount w (some db))
      → Payouts now w

Payouts-trans : {u v w : Walk} → Payouts v w → Payouts u v → Payouts u w
Payouts-trans none_more q = q
Payouts-trans (one_more id amount tier db p h rest) q =
    one_more id amount tier db p h (Payouts-trans rest q)

-- A walk that goes on from a payment, or from none.
noted-Payouts :
    (user : ℕ) (position : Option String) (id amount : ℕ) (tier : FundTier) (w : Walk)
    (paid : Option Protection)
    → pay user position id amount w.db ≡ returns paid
    → amount ≤ w.remaining
    → Payouts (noted id tier amount w paid) w
noted-Payouts user position id amount tier w none h k = none_more
noted-Payouts user position id amount tier w (some db) h k =
    one_more id amount tier db (pay-IsPaid user position id amount w.db db h) k none_more

pay_again-Payouts :
    (user : ℕ) (position : Option String) (tier : FundTier) (id : ℕ) (w v : Walk)
    → pay_again user position tier id w ≡ returns v
    → Payouts v w
unfolding pay_again
pay_again-Payouts user position tier id w v h =
    elim (Option-cases (find_row fund_key id w.db.funds)) [
      | inl missing ↦ ground arith
      | inr (fresh, found) ↦
          let amount = min fresh.balance w.remaining in
          elim (Bool-cases (fresh.balance == 0)) [
            | inl drained ↦
                let same : w ≡ v = ground arith in subst (λ x. Payouts x w) same none_more
            | inr some_left ↦ elim (Outcome-cases (pay user position id amount w.db)) [
              | inl (paid, e) ↦
                  let same : noted id tier amount w paid ≡ v = ground arith in
                  subst (λ x. Payouts x w) same
                    (noted-Payouts user position id amount tier w paid e (omega arith))
              | inr (x, e) ↦ ground arith
            ]
          ]
    ]

pay_first-Payouts :
    (user : ℕ) (position : Option String) (tier : FundTier) (f : InsuranceFund) (w v : Walk)
    → pay_first user position tier f w ≡ returns v
    → Payouts v w
unfolding pay_first
pay_first-Payouts user position tier f w v h =
    let amount = min f.balance w.remaining in
    elim (Outcome-cases (pay user position f.id amount w.db)) [
      | inl (paid, e) ↦ elim (Option-cases paid) [
        | inl refused ↦ pay_again-Payouts user position tier f.id w v (ground arith)
        | inr (db, given) ↦
            let same : noted f.id tier amount w paid ≡ v = ground arith in
            subst (λ x. Payouts x w) same
              (noted-Payouts user position f.id amount tier w paid e (omega arith))
      ]
      | inr (x, e) ↦ ground arith
    ]

pub cover_from-Payouts :
    (user : ℕ) (position : Option String) (tier : FundTier) (f : Option InsuranceFund) (w v : Walk)
    → cover_from user position tier f w ≡ returns v
    → Payouts v w
cover_from-Payouts user position tier none w v h =
    let same : w ≡ v = ground arith in subst (λ x. Payouts x w) same none_more
cover_from-Payouts user position tier (some f) w v h = elim (Bool-cases (f.balance == 0)) [
  | inl empty ↦ let same : w ≡ v = ground arith in subst (λ x. Payouts x w) same none_more
  | inr some_left ↦ pay_first-Payouts user position tier f w v (ground arith)
]

pub walk_tiers-Payouts :
    (user : ℕ) (position : Option String) (seen : FundTier → Option InsuranceFund)
    (tiers : List FundTier) (w v : Walk)
    → walk_tiers user position seen tiers w ≡ returns v
    → Payouts v w
unfolding walk_tiers
walk_tiers-Payouts user position seen [] w v h =
    let same : w ≡ v = ground arith in subst (λ x. Payouts x w) same none_more
walk_tiers-Payouts user position seen (tier ∷ tiers) w v h = elim (Bool-cases (w.remaining == 0)) [
  | inl done ↦ let same : w ≡ v = ground arith in subst (λ x. Payouts x w) same none_more
  | inr more ↦ elim (Outcome-cases (cover_from user position tier (seen tier) w)) [
    | inl (u, e) ↦
        Payouts-trans (cover_from-Payouts user position tier (seen tier) w u e)
          (walk_tiers-Payouts user position seen tiers u v (ground arith))
    | inr (x, e) ↦ ground arith
  ]
]
