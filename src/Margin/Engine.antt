-- ===== src/Margin/Engine.antt =====
-- src/margin/services/liquidation-engine.service.ts. A position is evaluated on the copy that was
-- read before, and saving it writes that copy over the row.
use peerx_backend.Common.{
  ℕ, ◌-◌, Bool, false, Option, none, some, List, [], ◌∷◌, String, if◌then◌else◌, ltb, ◌==◌,
  nat_keys, text_keys,
}
use peerx_backend.Common.Int.{ℤ}
use peerx_backend.Common.Outcome.{Outcome, returns, throws}
use peerx_backend.Common.Table.{find_row, save_row}
use peerx_backend.Protection.State.{Protection, ProtectionError}
use peerx_backend.Protection.Shortfall.{cover_shortfall, CoverShortfallResult}
use peerx_backend.Margin.State.{
  opened, margin_call, is_margin_call, MarginPairConfig, MarginPosition, Margin, margin_call_sent,
  position_liquidated,
}
use peerx_backend.Margin.Calculator.{
  MarginMetrics, compute_metrics, should_liquidate, should_margin_call,
}
use peerx_backend.Margin.Positions.{
  config_key, asset_key, position_key, liquidate_position, get_open_positions,
}

abbrev pub save_position : MarginPosition → Margin → Margin
save_position p db = record db { positions = save_row position_key p db.positions }

-- A failure is caught, and its transaction leaves the funds as they were.
abbrev pub covered_or_same :
    Protection → Outcome ProtectionError (Protection × CoverShortfallResult) → Protection
covered_or_same funds (returns (after, r)) = after
covered_or_same funds (throws e) = funds

-- `coverShortfall(userId, shortfall, positionId)`, its asset USDT and its tier left open.
abbrev pub covered : ℕ → ℕ → String → Protection → Protection
covered user shortfall position funds =
    if ltb 0 shortfall
    then covered_or_same funds
        (cover_shortfall user shortfall (some position) "USDT" none funds funds)
    else funds

unfoldable pub liquidate : MarginPosition → MarginPairConfig → ℕ → ℤ → ℕ → Margin → Margin
liquidate position c price equity now db =
    let done = liquidate_position position c price now db in
    let l = done.1 in
    record done.0 {
      insurance = covered position.user_id l.shortfall position.id done.0.insurance;
      events =
          position_liquidated l.position.id l.position.user_id price equity l.shortfall
          ∷ done.0.events;
    }

abbrev pub hour_ms : ℕ
hour_ms = 3600000

abbrev pub recently_notified : Option ℕ → ℕ → Bool
recently_notified none now = false
recently_notified (some at) now = ltb (now - at) hour_ms

unfoldable pub trigger_margin_call :
    MarginPosition → MarginPairConfig → ℕ → MarginMetrics → ℕ → Margin → Margin
trigger_margin_call position c price m now db =
    let p = record position { status = margin_call } in
    let told = record p { margin_call_notified_at = some now } in
    let sent =
      margin_call_sent p.id p.user_id c.id price m.equity m.maintenance_requirement
        p.liquidation_price in
    if recently_notified position.margin_call_notified_at now
    then save_position p db
    else record (save_position told db) { events = sent ∷ db.events }

abbrev pub metrics_of : MarginPosition → MarginPairConfig → ℕ → MarginMetrics
metrics_of p c price =
    compute_metrics p.side p.size p.entry_price price p.collateral p.accrued_interest
      c.maintenance_margin_rate

unfoldable pub evaluate_position : MarginPosition → MarginPairConfig → ℕ → ℕ → Margin → Margin
evaluate_position position c price now db =
    let m = metrics_of position c price in
    let p = record position { unrealized_pnl = m.unrealized_pnl } in
    let saved = save_position p db in
    if should_liquidate m.equity m.maintenance_requirement
    then liquidate p c price m.equity now saved
    else if should_margin_call m.equity m.maintenance_requirement c.margin_call_threshold_ratio
    then trigger_margin_call p c price m now saved
    else if is_margin_call p.status
    then save_position (record p { status = opened }) saved
    else saved

-- One turn of the monitor's loop, with the pairs and prices that were read before it.
abbrev pub monitored : List MarginPairConfig → (ℕ → Option ℕ) → ℕ → MarginPosition → Margin → Margin
monitored pairs price_of now p db = elim (find_row config_key p.pair_config_id pairs) [
  | none ↦ db
  | some c ↦ elim (price_of c.base_asset_id) [
    | none ↦ db
    | some price ↦ if price == 0 then db else evaluate_position p c price now db
  ]
]

unfoldable pub monitor_from :
    List MarginPairConfig → (ℕ → Option ℕ) → ℕ → List MarginPosition → Margin → Margin
monitor_from pairs price_of now [] db = db
monitor_from pairs price_of now (p ∷ ps) db =
    monitor_from pairs price_of now ps (monitored pairs price_of now p db)

unfoldable pub asset_price : Margin → ℕ → Option ℕ
asset_price db id = elim (find_row asset_key id db.assets) [ none ↦ none | some a ↦ some a.price ]

abbrev pub monitor_positions : ℕ → Margin → Margin
monitor_positions now db = monitor_from db.configs (asset_price db) now (get_open_positions db) db
