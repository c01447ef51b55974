-- ===== src/Orders/Service/Balances.antt =====
-- The table of balances, src/database/entities/user-balance.entity.ts: what a save does to the
-- locked balances.
use peerx_backend.Common.{
  ℕ, ◌≡◌, refl, false, Option, none, some, List, [], ◌∷◌, arith, nat_keys, Bool-cases, inl, inr,
}
use peerx_backend.Orders.Service.{UserBalance, is_balance_of, find_balance, save_balance}

abbrev pub locked_in : Option UserBalance → ℕ
locked_in none = 0
locked_in (some b) = b.locked_balance

-- The locked balance of a user in an asset; 0 without a row.
abbrev pub locked : ℕ → ℕ → List UserBalance → ℕ
locked user asset balances = locked_in (find_balance user asset balances)

pub find_balance-keys :
    (user asset : ℕ) (bs : List UserBalance) (b : UserBalance)
    → find_balance user asset bs ≡ some b
    → (b.user_id ≡ user) × (b.asset_id ≡ asset)
unfolding find_balance
find_balance-keys user asset [] b e = cc
find_balance-keys user asset (c ∷ cs) b e = elim (Bool-cases (is_balance_of user asset c)) [
  | inl h ↦ (ground arith, ground arith)
  | inr h ↦ find_balance-keys user asset cs b (ground arith)
]

pub locked-save_balance_self :
    (user asset : ℕ) (b c : UserBalance) (bs : List UserBalance)
    → find_balance user asset bs ≡ some c
    → b.user_id ≡ user
    → b.asset_id ≡ asset
    → locked user asset (save_balance b bs) ≡ b.locked_balance
unfolding find_balance save_balance
locked-save_balance_self user asset b c [] e p q = cc
locked-save_balance_self user asset b c (d ∷ ds) e p q =
    ground (arith, locked-save_balance_self user asset b c ds)

pub locked-save_balance_ne :
    (user asset : ℕ) (b : UserBalance) (bs : List UserBalance)
    → is_balance_of user asset b ≡ false
    → locked user asset (save_balance b bs) ≡ locked user asset bs
unfolding find_balance save_balance
locked-save_balance_ne user asset b [] h = refl
locked-save_balance_ne user asset b (d ∷ ds) h =
    ground (arith, locked-save_balance_ne user asset b ds h)
