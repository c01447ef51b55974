-- ===== src/Protection/Cover.antt =====
-- What `coverShortfall` of src/protection/services/liquidation-protection.service.ts takes from the
-- funds, and when it leaves a part uncovered.
use peerx_backend.Common.{
  ℕ, ◌+◌, ◌≤◌, ◌<◌, ◌≡◌, refl, sym, ◌∙◌, subst, min, Option, some, List, [], ◌∷◌, String, arith,
  All, ◌==◌, nat_keys, sum_of, sum_of-append, Bool-cases, Option-cases, inl, inr, nat_same_iff,
}
use peerx_backend.Common.Outcome.{Outcome-cases, returns}
use peerx_backend.Common.Table.{find_row, Unique}
use peerx_backend.Protection.State.{FundTier, InsuranceFund, Protection}
use peerx_backend.Protection.Funds.{fund_key}
use peerx_backend.Protection.Shortfall.{
  FundUse, Walk, pay, noted, pay_again, pay_first, cover_from, walk_tiers,
}
use peerx_backend.Protection.Ledger.{
  balance_of, total_balance, IsPaid, pay-IsPaid, pay-none, debited-Unique, debited_total,
  debited_self, debited_le, Payouts, none_more, one_more, cover_from-Payouts, walk_tiers-Payouts,
}

abbrev pub used_sum : List FundUse → ℕ
used_sum used = sum_of (λ u. u.amount) used

-- A later walk against an earlier one: what the funds have lost is what remains less, and what is
-- noted more.
pub record IsAccounted (w v : Walk) : Type 0 where
  pub unique : Unique fund_key v.db.funds
  pub total : total_balance v.db.funds + w.remaining ≡ total_balance w.db.funds + v.remaining
  pub less : v.remaining ≤ w.remaining
  pub used : used_sum v.funds_used + v.remaining ≡ used_sum w.funds_used + w.remaining

pub Payouts-IsAccounted : (v w : Walk) → Payouts v w → Unique fund_key w.db.funds → IsAccounted w v
Payouts-IsAccounted v w none_more u = record {
  unique = u;
  total = refl;
  less = omega arith;
  used = refl;
}
Payouts-IsAccounted v w (one_more id amount tier db p h rest) u =
    let d = p.debited in
    let step = noted id tier amount w (some db) in
    let later =
      Payouts-IsAccounted v step rest (debited-Unique id amount w.db.funds db.funds d u) in
    let lost = debited_total id amount w.db.funds db.funds d u in
    record {
      unique = later.unique;
      total = omega (arith, later.total, lost, h);
      less = omega (arith, later.less);
      used = omega (
        arith,
        later.used,
        h,
        sum_of-append (λ (f : FundUse). f.amount) w.funds_used
            (record { fund_id = id; amount = amount; tier = tier } ∷ []),
      );
    }

Payouts-le :
    (v w : Walk) → Payouts v w → (j : ℕ) → balance_of j v.db.funds ≤ balance_of j w.db.funds
Payouts-le v w none_more j = omega arith
Payouts-le v w (one_more id amount tier db p h rest) j = omega (
  arith,
  debited_le id amount w.db.funds db.funds p.debited j,
  Payouts-le v (noted id tier amount w (some db)) rest j,
)

-- A payout of all that the fund has or the walk needs: if the walk needs more, the fund has nothing
-- left.
paid-drained :
    (id most : ℕ) (tier : FundTier) (w : Walk) (db : Protection)
    → IsPaid id (min most w.remaining) w.db db
    → balance_of id w.db.funds ≤ most
    → 0 < (noted id tier (min most w.remaining) w (some db)).remaining
    → balance_of id db.funds ≡ 0
paid-drained id most tier w db p le left =
    let self = debited_self id (min most w.remaining) w.db.funds db.funds p.debited in
    omega (arith, self, le, left)

-- The fund has nothing left, if something remains.
pay_again-drained :
    (user : ℕ) (position : Option String) (tier : FundTier) (id : ℕ) (w v : Walk)
    → pay_again user position tier id w ≡ returns v
    → 0 < v.remaining
    → balance_of id v.db.funds ≡ 0
unfolding pay_again
pay_again-drained user position tier id w v h left =
    elim (Option-cases (find_row fund_key id w.db.funds)) [
      | inl missing ↦ ground arith
      | inr (fresh, found) ↦
          let amount = min fresh.balance w.remaining in
          let held : balance_of id w.db.funds ≡ fresh.balance = rw found refl in
          elim (Bool-cases (fresh.balance == 0)) [
            | inl drained ↦
                let same : w ≡ v = ground arith in
                let none_left : fresh.balance ≡ 0 = ground arith in
                subst (λ x. balance_of id x.db.funds ≡ 0) same (held ∙ none_left)
            | inr some_left ↦ elim (Outcome-cases (pay user position id amount w.db)) [
              | inl (paid, e) ↦ elim (Option-cases paid) [
                | inl refused ↦
                    let same : w ≡ v = ground arith in
                    let open_part : 0 < w.remaining =
                      subst (λ x. 0 < x.remaining) (sym same) left in
                    let lacking =
                      pay-none user position id amount w.db (ground arith)
                        (ground (arith, open_part)) in
                    absurd (omega (arith, lacking, held))
                | inr (db, given) ↦
                    let same : noted id tier amount w (some db) ≡ v = ground arith in
                    let paid_out : IsPaid id amount w.db db =
                      pay-IsPaid user position id amount w.db db (ground arith) in
                    subst (λ x. balance_of id x.db.funds ≡ 0) same
                      (paid-drained id fresh.balance tier w db paid_out (omega (arith, held))
                        (subst (λ x. 0 < x.remaining) (sym same) left))
              ]
              | inr (x, e) ↦ ground arith
            ]
          ]
    ]

pay_first-drained :
    (user : ℕ) (position : Option String) (tier : FundTier) (f : InsuranceFund) (w v : Walk)
    → pay_first user position tier f w ≡ returns v
    → balance_of f.id w.db.funds ≤ f.balance
    → 0 < v.remaining
    → balance_of f.id v.db.funds ≡ 0
unfolding pay_first
pay_first-drained user position tier f w v h le left =
    let amount = min f.balance w.remaining in
    elim (Outcome-cases (pay user position f.id amount w.db)) [
      | inl (paid, e) ↦ elim (Option-cases paid) [
        | inl refused ↦ pay_again-drained user position tier f.id w v (ground arith) left
        | inr (db, given) ↦
            let same : noted f.id tier amount w (some db) ≡ v = ground arith in
            let paid_out : IsPaid f.id amount w.db db =
              pay-IsPaid user position f.id amount w.db db (ground arith) in
            subst (λ x. balance_of f.id x.db.funds ≡ 0) same
              (paid-drained f.id f.balance tier w db paid_out le
                (subst (λ x. 0 < x.remaining) (sym same) left))
      ]
      | inr (x, e) ↦ ground arith
    ]

cover_from-drained :
    (user : ℕ) (position : Option String) (tier : FundTier) (f : InsuranceFund) (w v : Walk)
    → cover_from user position tier (some f) w ≡ returns v
    → balance_of f.id w.db.funds ≤ f.balance
    → 0 < v.remaining
    → balance_of f.id v.db.funds ≡ 0
cover_from-drained user position tier f w v h le left = elim (Bool-cases (f.balance == 0)) [
  | inl empty ↦
      let same : w ≡ v = ground arith in
      subst (λ x. balance_of f.id x.db.funds ≡ 0) same
        (omega (arith, le, (nat_same_iff f.balance 0).0 empty))
  | inr some_left ↦ pay_first-drained user position tier f w v (ground arith) le left
]

-- A read that does not promise less than a fund holds.
abbrev pub AtLeast : (FundTier → Option InsuranceFund) → Walk → Type 0
AtLeast seen w =
    (t : FundTier) (f : InsuranceFund) → seen t ≡ some f → balance_of f.id w.db.funds ≤ f.balance

abbrev pub IsDrained : (FundTier → Option InsuranceFund) → Walk → FundTier → Type 0
IsDrained seen v t = (f : InsuranceFund) → seen t ≡ some f → balance_of f.id v.db.funds ≡ 0

-- What remains does not grow; this holds of any rows.
Payouts-less : (v w : Walk) → Payouts v w → v.remaining ≤ w.remaining
Payouts-less v w none_more = omega arith
Payouts-less v w (one_more id amount tier db p h rest) =
    omega (arith, Payouts-less v (noted id tier amount w (some db)) rest)

drained_stays :
    (f : InsuranceFund) (u v : Walk)
    → Payouts v u
    → balance_of f.id u.db.funds ≡ 0
    → balance_of f.id v.db.funds ≡ 0
drained_stays f u v p e = omega (arith, Payouts-le v u p f.id, e)

pub walk_tiers-AllDrained :
    (user : ℕ) (position : Option String) (seen : FundTier → Option InsuranceFund)
    (tiers : List FundTier) (w v : Walk)
    → walk_tiers user position seen tiers w ≡ returns v
    → AtLeast seen w
    → 0 < v.remaining
    → All (IsDrained seen v) tiers
unfolding walk_tiers
walk_tiers-AllDrained user position seen [] w v h le left = tt
walk_tiers-AllDrained user position seen (tier ∷ tiers) w v h le left =
    elim (Bool-cases (w.remaining == 0)) [
      | inl done ↦
          let same : w ≡ v = ground arith in
          let none_left : w.remaining ≡ 0 = ground arith in
          absurd (omega (arith, subst (λ x. 0 < x.remaining) (sym same) left, none_left))
      | inr more ↦ elim (Outcome-cases (cover_from user position tier (seen tier) w)) [
        | inl (u, e) ↦
            let first = cover_from-Payouts user position tier (seen tier) w u e in
            let after : walk_tiers user position seen tiers u ≡ returns v = ground arith in
            let rest = walk_tiers-Payouts user position seen tiers u v after in
            (
              (λ f known.
                  let now : cover_from user position tier (some f) w ≡ returns u =
                    subst (λ o. cover_from user position tier o w ≡ returns u) known e in
                  drained_stays f u v rest (
                    cover_from-drained user position tier f w u now (le tier f known)
                      (omega (arith, left, Payouts-less v u rest)))),
              walk_tiers-AllDrained user position seen tiers u v after
                  (λ t f known. omega (arith, le t f known, Payouts-le u w first f.id)) left,
            )
        | inr (x, e) ↦ ground arith
      ]
    ]
