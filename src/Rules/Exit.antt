-- ===== src/Rules/Exit.antt =====
-- src/trader/rules/exit_checks.py: the sell signal of a held position, by priority.
pub mod Triggers
use kyo_trading_tool.Prelude.{Option, some, none, pos, leb_ℤ, if◌then◌else◌}
use kyo_trading_tool.Domain.Decimal.{Decimal, of_ℕ, add, sub, hundredth}
use kyo_trading_tool.Domain.Money.{Price, price_mul, price_le}
use kyo_trading_tool.Domain.Models.{DateTime, days_between, ExitReason, ExitSignal, Position}
use kyo_trading_tool.Rules.Schema.{RuleSet}

-- `Decimal(1) + pct / _HUNDRED`
abbrev pub raised_by : Decimal → Decimal
raised_by pct = add (of_ℕ 1) (hundredth pct)

-- `Decimal(1) - pct / _HUNDRED`
abbrev pub lowered_by : Decimal → Decimal
lowered_by pct = sub (of_ℕ 1) (hundredth pct)

unfoldable pub stop_loss_price : Position → RuleSet → Price
stop_loss_price position rules = price_mul position.avg_cost (raised_by rules.exit.stop_loss_pct)

unfoldable pub take_profit_price : Position → RuleSet → Price
take_profit_price position rules =
    price_mul position.avg_cost (raised_by rules.exit.partial_take_profit_pct)

unfoldable pub trailing_stop_price : Position → RuleSet → Price
trailing_stop_price position rules =
    price_mul position.high_watermark (lowered_by rules.exit.trailing_stop_pct)

-- a signal for `position` at `price`
abbrev pub signal : Position → Price → ExitReason → Decimal → Option ExitSignal
signal position price reason fraction = some (record {
  ticker = position.ticker;
  reason = reason;
  fraction = fraction;
  trigger_price = price;
})

unfoldable pub check_exit : Position → Price → RuleSet → DateTime → Option ExitSignal
check_exit position price rules now =
    if price_le price (stop_loss_price position rules)
    then signal position price ExitReason.stop_loss (of_ℕ 1)
    else if leb_ℤ (pos rules.position.max_holding_days) (days_between now position.opened_at)
    then signal position price ExitReason.max_holding_days (of_ℕ 1)
    else if position.partial_tp_done
    then if price_le price (trailing_stop_price position rules)
      then signal position price ExitReason.trailing_stop (of_ℕ 1)
      else none
    else if price_le (take_profit_price position rules) price
    then signal position price ExitReason.partial_take_profit
        rules.exit.partial_take_profit_fraction
    else none
