-- ===== src/Protection/Covered.antt =====
-- `coverShortfall` of src/protection/services/liquidation-protection.service.ts as a whole: what the
-- funds lose, and when a part stays uncovered.
use mathlib.Core.Option.{some-injective}
use peerx_backend.Common.{
  ℕ, ◌+◌, ◌≤◌, ◌<◌, ◌≡◌, ◌≢◌, refl, sym, ◌∙◌, subst, Option, none, some, List, [], ◌∷◌, String,
  arith, All, ltb, ◌==◌, nat_keys, text_keys, ◌&&◌, Bool-cases, Option-cases, inl, inr,
  nat_same_iff,
}
use peerx_backend.Common.Outcome.{Outcome, Outcome-cases, returns, throws}
use peerx_backend.Common.Table.{find_row, Unique}
use peerx_backend.Protection.State.{
  FundTier, low, medium, high, critical, InsuranceFund, Protection, ProtectionError,
}
use peerx_backend.Protection.Funds.{fund_key, get_funds_by_tier, find_fund, find_tier}
use peerx_backend.Protection.Shortfall.{
  Walk, found_or_skipped, walk_tiers, tiers_to_try, CoverShortfallResult, result_of,
  with_liquidation, refresh_health, emitted, cover_shortfall,
}
use peerx_backend.Protection.Ledger.{balance_of, total_balance, walk_tiers-Payouts}
use peerx_backend.Protection.Health.{SameBalances, refresh_health-SameBalances}
use peerx_backend.Protection.Cover.{used_sum, Payouts-IsAccounted, IsDrained, walk_tiers-AllDrained}

-- `coverShortfall` that returns: the walk it has made, and what follows the commit.
pub record IsWalked (user shortfall : ℕ) (position : Option String)
    (seen : FundTier → Option InsuranceFund) (tiers : List FundTier) (db after : Protection)
    (r : CoverShortfallResult) : Type 0 where
  pub walk : Walk
  pub walked :
      walk_tiers user position seen tiers
        (record { db = db; remaining = shortfall; funds_used = []; primary_fund_id = none })
      ≡ returns walk
  pub result : r ≡ result_of shortfall walk
  pub kept : SameBalances walk.db after

pub cover_shortfall-IsWalked :
    (user shortfall : ℕ) (position : Option String) (asset : String) (preferred : Option FundTier)
    (before db after : Protection) (r : CoverShortfallResult)
    → cover_shortfall user shortfall position asset preferred before db ≡ returns (after, r)
    → IsWalked user shortfall position
        (λ t. found_or_skipped (get_funds_by_tier t asset before))
        (tiers_to_try preferred)
        db
        after
        r
unfolding cover_shortfall
cover_shortfall-IsWalked user shortfall position asset preferred before db after r h =
    let seen = λ (t : FundTier). found_or_skipped (get_funds_by_tier t asset before) in
    let w : Walk = record {
      db = db;
      remaining = shortfall;
      funds_used = [];
      primary_fund_id = none;
    } in
    elim (Bool-cases (ltb 0 shortfall)) [
      | inl pos ↦ elim (Outcome-cases (walk_tiers user position seen (tiers_to_try preferred) w)) [
        | inl (v, e) ↦
            elim (Outcome-cases
              (refresh_health v.funds_used (with_liquidation user shortfall position v))) [
                | inl (committed, c) ↦
                    let kept =
                      refresh_health-SameBalances v.funds_used
                        (with_liquidation user shortfall position v) committed c in
                    let same : emitted user shortfall (result_of shortfall v) committed ≡ after =
                      ground arith in
                    record {
                      walk = v;
                      walked = e;
                      result = ground arith;
                      kept = subst (SameBalances v.db) same record {
                        unique = kept.unique;
                        balances = kept.balances;
                        total = kept.total;
                        transactions = kept.transactions;
                      };
                    }
                | inr (x, c) ↦ ground arith
              ]
        | inr (x, e) ↦ ground arith
      ]
      | inr zero_or_less ↦ ground arith
    ]

-- The amounts of a cover against the funds.
pub record IsConserved (shortfall : ℕ) (db after : Protection) (r : CoverShortfallResult)
    : Type 0 where
  pub lost : total_balance after.funds + r.covered_amount ≡ total_balance db.funds
  pub noted_sum : used_sum r.funds_used ≡ r.covered_amount
  pub parts : r.covered_amount + r.remaining_shortfall ≡ shortfall

-- If identifiers of funds are distinct, and whatever the funds held when they were read: the funds
-- lose exactly what is covered, which is the sum of the payouts noted, and what is covered and what
-- remains make the shortfall.
pub cover_shortfall-IsConserved :
    (user shortfall : ℕ) (position : Option String) (asset : String) (preferred : Option FundTier)
    (before db after : Protection) (r : CoverShortfallResult)
    → cover_shortfall user shortfall position asset preferred before db ≡ returns (after, r)
    → Unique fund_key db.funds
    → IsConserved shortfall db after r
cover_shortfall-IsConserved user shortfall position asset preferred before db after r h u =
    let k = cover_shortfall-IsWalked user shortfall position asset preferred before db after r h in
    let w : Walk = record {
      db = db;
      remaining = shortfall;
      funds_used = [];
      primary_fund_id = none;
    } in
    let p = walk_tiers-Payouts user position _ (tiers_to_try preferred) w k.walk k.walked in
    let a = Payouts-IsAccounted k.walk w p u in
    let t = k.kept.total a.unique in
    rw k.result record {
      lost = omega (arith, a.total, a.less, t);
      noted_sum = omega (arith, a.used, a.less);
      parts = omega (arith, a.less);
    }

find_fund-apart :
    (tier_id : ℕ) (asset : String) (k : ℕ) (f : InsuranceFund) (fs : List InsuranceFund)
    → find_fund tier_id asset fs ≡ some f
    → All (λ s. s.id ≢ k) fs
    → f.id ≢ k
unfolding find_fund
find_fund-apart tier_id asset k f [] h a = cc
find_fund-apart tier_id asset k f (g ∷ gs) h a =
    elim (Bool-cases (g.tier_id == tier_id && g.asset == asset)) [
      | inl hit ↦ subst (λ x. x.id ≢ k) (some-injective g f (ground arith)) a.0
      | inr miss ↦ find_fund-apart tier_id asset k f gs (ground arith) a.1
    ]

-- In a table with one row for an identifier, the fund found for a tier is the one of its identifier.
find_fund-find_row :
    (tier_id : ℕ) (asset : String) (f : InsuranceFund) (fs : List InsuranceFund)
    → find_fund tier_id asset fs ≡ some f
    → Unique fund_key fs
    → find_row fund_key f.id fs ≡ some f
unfolding find_fund
find_fund-find_row tier_id asset f [] h u = cc
find_fund-find_row tier_id asset f (g ∷ gs) h u =
    elim (Bool-cases (g.tier_id == tier_id && g.asset == asset)) [
      | inl hit ↦
          let same : g ≡ f = some-injective g f (ground arith) in
          subst (λ x. find_row fund_key x.id (g ∷ gs) ≡ some x) same
            (ground (arith, nat_same_iff g.id g.id))
      | inr miss ↦
          let later : find_fund tier_id asset gs ≡ some f = ground arith in
          let apart = find_fund-apart tier_id asset g.id f gs later u.0 in
          ground (
            arith,
            nat_same_iff g.id f.id,
            λ (e : g.id ≡ f.id). apart (sym e),
            find_fund-find_row tier_id asset f gs later u.1,
          )
    ]

get_funds_by_tier-balance :
    (tier : FundTier) (asset : String) (db : Protection) (f : InsuranceFund)
    → get_funds_by_tier tier asset db ≡ returns f
    → Unique fund_key db.funds
    → balance_of f.id db.funds ≤ f.balance
unfolding get_funds_by_tier
get_funds_by_tier-balance tier asset db f h u = elim (Option-cases (find_tier tier db.tiers)) [
  | inl missing ↦ ground arith
  | inr (t, e) ↦ rw (find_fund-find_row t.id asset f db.funds (ground arith) u) (omega arith)
]

found_or_skipped-eq-some :
    (o : Outcome ProtectionError InsuranceFund) (f : InsuranceFund)
    → found_or_skipped o ≡ some f
    → o ≡ returns f
found_or_skipped-eq-some (returns g) f h = ground arith
found_or_skipped-eq-some (throws e) f h = cc

-- Every tier is tried, whichever is preferred.
All-tiers_to_try :
    (P : FundTier → Type 0) (preferred : Option FundTier)
    → All P (tiers_to_try preferred)
    → (t : FundTier) → P t
All-tiers_to_try P none a low = a.0
All-tiers_to_try P none a medium = a.1.0
All-tiers_to_try P none a high = a.1.1.0
All-tiers_to_try P none a critical = a.1.1.1.0
All-tiers_to_try P (some low) a low = a.0
All-tiers_to_try P (some low) a medium = a.1.0
All-tiers_to_try P (some low) a high = a.1.1.0
All-tiers_to_try P (some low) a critical = a.1.1.1.0
All-tiers_to_try P (some medium) a low = a.1.0
All-tiers_to_try P (some medium) a medium = a.0
All-tiers_to_try P (some medium) a high = a.1.1.0
All-tiers_to_try P (some medium) a critical = a.1.1.1.0
All-tiers_to_try P (some high) a low = a.1.0
All-tiers_to_try P (some high) a medium = a.1.1.0
All-tiers_to_try P (some high) a high = a.0
All-tiers_to_try P (some high) a critical = a.1.1.1.0
All-tiers_to_try P (some critical) a low = a.1.0
All-tiers_to_try P (some critical) a medium = a.1.1.0
All-tiers_to_try P (some critical) a high = a.1.1.1.0
All-tiers_to_try P (some critical) a critical = a.0

-- No fund that the reads have found has gained since.
abbrev pub NotRefilled : String → Protection → Protection → Type 0
NotRefilled asset before db =
    (t : FundTier) (g : InsuranceFund)
    → get_funds_by_tier t asset before ≡ returns g
    → balance_of g.id db.funds ≤ g.balance

-- Without a change between the reads and the transaction it is so.
pub same-NotRefilled :
    (asset : String) (db : Protection) → Unique fund_key db.funds → NotRefilled asset db db
same-NotRefilled asset db u = λ t g e. get_funds_by_tier-balance t asset db g e u

-- If no fund that the reads found has gained between them and the transaction, while other covers may
-- have drained them: when a part of the shortfall remains, the fund of the asset that was read in
-- every tier that has one is empty.
pub cover_shortfall-drained :
    (user shortfall : ℕ) (position : Option String) (asset : String) (preferred : Option FundTier)
    (before db after : Protection) (r : CoverShortfallResult) (tier : FundTier) (f : InsuranceFund)
    → cover_shortfall user shortfall position asset preferred before db ≡ returns (after, r)
    → NotRefilled asset before db
    → 0 < r.remaining_shortfall
    → get_funds_by_tier tier asset before ≡ returns f
    → balance_of f.id after.funds ≡ 0
cover_shortfall-drained user shortfall position asset preferred before db after r tier f h fresh
      left known =
    let seen = λ (t : FundTier). found_or_skipped (get_funds_by_tier t asset before) in
    let k = cover_shortfall-IsWalked user shortfall position asset preferred before db after r h in
    let w : Walk = record {
      db = db;
      remaining = shortfall;
      funds_used = [];
      primary_fund_id = none;
    } in
    let open_part : 0 < k.walk.remaining =
      subst (λ (x : CoverShortfallResult). 0 < x.remaining_shortfall) k.result left in
    let all =
      walk_tiers-AllDrained user position seen (tiers_to_try preferred) w k.walk k.walked
        (λ t g e. fresh t g (found_or_skipped-eq-some (get_funds_by_tier t asset before) g e))
        open_part in
    k.kept.balances f.id
    ∙ All-tiers_to_try (IsDrained seen k.walk) preferred all tier f (rw known refl)
