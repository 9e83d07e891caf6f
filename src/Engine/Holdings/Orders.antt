-- ===== src/Engine/Holdings/Orders.antt =====
-- The order for a rule exit has the shares of the exit.
use kyo_trading_tool.Prelude.{◌≡◌, ◌≤◌, refl, true, some, pos, String}
use kyo_trading_tool.Domain.Result.{ok}
use kyo_trading_tool.Domain.Decimal.{of_ℕ, mul, ltb_dec}
use kyo_trading_tool.Domain.Money.{Price, money, price_amount}
use kyo_trading_tool.Domain.Models.{DateTime, ExitSignal, Position}
use kyo_trading_tool.Rules.Schema.{RuleSet, exit_valid}
use kyo_trading_tool.Rules.Exit.{check_exit}
use kyo_trading_tool.Broker.{Uuids}
use kyo_trading_tool.Market.{MarketDataProvider}
use kyo_trading_tool.Engine.Approval.{order_qty}
use kyo_trading_tool.Engine.Approval.Sizing.{above_cent, decision_qty}
use kyo_trading_tool.Engine.Holdings.{exit_decision, sell_qty}
use kyo_trading_tool.Engine.Holdings.Fractions.{sell_qty-bounds, signal-fraction}

-- what the approval gate reads of the decision
decision_fields :
    {S : Type 0} (market : MarketDataProvider S) (uuids : Uuids S) (rules : RuleSet)
    (cycle_id rule_set_sha256 mode id : String) (now : DateTime) (position : Position)
    (price : Price) (signal : ExitSignal)
    → let d =
        exit_decision market uuids rules cycle_id rule_set_sha256 mode now id position price
          signal in
      (d.proposed_notional
        ≡ some (money (mul (price_amount price) (of_ℕ (sell_qty position signal.fraction).shares))))
      × (d.reference_price ≡ some price)
unfolding exit_decision
decision_fields market uuids rules cycle_id rule_set_sha256 mode id now position price signal =
    (refl, refl)

-- Under valid rules, for a position of at least one share and above one cent a share, the approval
-- gate sizes the decision of an exit to exactly the shares that the exit means to sell.
pub exit_decision-order_qty :
    {S : Type 0} (market : MarketDataProvider S) (uuids : Uuids S) (rules : RuleSet)
    (cycle_id rule_set_sha256 mode id : String) (now : DateTime) (position : Position)
    (price : Price) (signal : ExitSignal)
    → exit_valid rules.exit ≡ true
    → 1 ≤ position.qty.shares
    → ltb_dec (record { num = pos 1; below = 99 }) (price_amount price) ≡ true
    → check_exit position price rules now ≡ some signal
    → order_qty (
        exit_decision market uuids rules cycle_id rule_set_sha256 mode now id position price signal)
      ≡ ok (sell_qty position signal.fraction)
exit_decision-order_qty market uuids rules cycle_id rule_set_sha256 mode id now position price
      signal valid held above h =
    let (t, et, big) = above_cent price above in
    let (least, most) =
      sell_qty-bounds position signal.fraction held
        (signal-fraction position price rules now signal valid h) in
    decision_qty
      (exit_decision market uuids rules cycle_id rule_set_sha256 mode now id position price signal)
      (money (mul (price_amount price) (of_ℕ (sell_qty position signal.fraction).shares))) price
      price (sell_qty position signal.fraction).shares t least et big refl refl
      (decision_fields market uuids rules cycle_id rule_set_sha256 mode id now position price
        signal).0
      (decision_fields market uuids rules cycle_id rule_set_sha256 mode id now position price
        signal).1
