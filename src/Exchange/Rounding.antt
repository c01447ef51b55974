-- ===== src/Exchange/Rounding.antt =====
-- Sums of columns that are near the fractions they stand for, for src/exchange.
use peerx_backend.Common.{ℕ, ◌+◌, ◌*◌, ◌≤◌, ◌<◌, ◌≡◌, arith}
use peerx_backend.Orders.Order.{Ratio}

-- `got` parts of `den` against `due`, at most `off` parts apart.
pub record IsNear (off den due got : ℕ) : Type 0 where
  pub most : got * den ≤ due + off * den
  pub least : due ≤ got * den + off * den

-- A column is at most one unit off a fraction.
abbrev pub RoundsNear : (Ratio → ℕ) → Type 0
RoundsNear store = (r : Ratio) → 0 < r.den → IsNear 1 r.den r.num (store r)

pub IsNear-add :
    (off more den due owed got gain : ℕ)
    → IsNear off den due got
    → IsNear more den owed gain
    → IsNear (off + more) den (due + owed) (got + gain)
IsNear-add off more den due owed got gain a b = record {
  most = grind (arith, a.most, b.most);
  least = grind (arith, a.least, b.least);
}

-- On top of whole units.
pub IsNear-on :
    (units off den due got : ℕ)
    → IsNear off den due got
    → IsNear off den (units * den + due) (units + got)
IsNear-on units off den due got a = record {
  most = grind (arith, a.most);
  least = grind (arith, a.least);
}

pub row_and_rest :
    (units rest den num lp held : ℕ)
    → (units * den + num * lp) + (rest * den + num * held)
      ≡ (units + rest) * den + num * (lp + held)
row_and_rest units rest den num lp held = grind arith
