-- ===== src/Examples/Rules.antt =====
-- The theorems on the rules and on settlement, at concrete inputs.
use kyo_trading_tool.Engine.Holdings.{exit_decision, sell_qty}
use kyo_trading_tool.Engine.Holdings.Orders.{exit_decision-order_qty}
use kyo_trading_tool.Prelude.{◌∷◌, ◌↔◌, length, ℕ, ◌-ℤ◌, ◌<◌, str_eq, is_text}
use kyo_trading_tool.Prelude.{
  ◌≤◌, ◌≡◌, refl, arith, true, false, none, some, [], pos, negsuc, ◌≤ℤ◌, ◌+ℤ◌,
}
use kyo_trading_tool.Domain.Result.{ok}
use kyo_trading_tool.Domain.Decimal.{
  Decimal, of_ℕ, mul, add, div_suc, div, quot_fraction, trunc_div, ltb_dec, leb_dec, half_even,
  half_even_of, round_half_even, quantize,
}
use kyo_trading_tool.Domain.Money.{Price, money, price, amount, price_amount, money_le, price_mul}
use kyo_trading_tool.Domain.Models.{ExitReason, ExitSignal, days_between}
use kyo_trading_tool.Rules.Schema.{
  exit_valid, rules_valid, pct_valid, cap_valid, cost_valid, cost_pct_valid, entry_valid,
  loss_limits_valid, position_valid,
}
use kyo_trading_tool.Rules.Entry.{EntryPlan, size_plan, check_entry}
use kyo_trading_tool.Rules.Entry.Sizing.{IsEligible, check_entry_iff, check_entry_within_limit}
use kyo_trading_tool.Rules.Exit.{stop_loss_price, take_profit_price, check_exit}
use kyo_trading_tool.Rules.Exit.Triggers.{FirstReached, check_exit-FirstReached, check_exit-sides}
use kyo_trading_tool.Rules.Loss.Limits.{Figures, FirstBreach, evaluated, evaluate-FirstBreach}
use kyo_trading_tool.Ledger.TradeCloser.{TradeCloserError, average_cost, apply_sell}
use kyo_trading_tool.Ledger.TradeCloser.Average.{average_cost_bounds}
use kyo_trading_tool.Ledger.TradeCloser.Selling.{Sold, apply_sell-Sold}
use kyo_trading_tool.Engine.Approval.{order_qty}
use kyo_trading_tool.Engine.Approval.Sizing.{order_qty-plan}
use kyo_trading_tool.Report.Estimate.{estimate}
use kyo_trading_tool.Report.Estimate.Costs.{estimate-at_most}
use kyo_trading_tool.Config.{TradingMode, decide_mode, decide_mode-live_iff}
use kyo_trading_tool.Domain.Retry.{RetryPolicy, backoff_delays, element, Clipped, backoff_delays-at}
use kyo_trading_tool.Examples.{market, uuids, rules, limits, decision, position, fill, carried}

abbrev latest : Price
latest = record { ticks = pos 120000 }

-- 41 shares at 12 dollars
abbrev plan : EntryPlan
plan = record {
  ticker = "ACME";
  qty = record { shares = 41 };
  reference_price = latest;
  notional = record { cents = pos 49200 };
  limit = limits.max_notional_per_ticker;
}

rules-valid : rules_valid rules ≡ true
unfolding rules_valid pct_valid cap_valid cost_valid cost_pct_valid entry_valid loss_limits_valid
    position_valid exit_valid
rules-valid = refl

plan-checked : check_entry "ACME" rules limits [] true latest 5000 none ≡ ok plan
unfolding check_entry size_plan div quot_fraction trunc_div mul money quantize round_half_even
    half_even half_even_of
plan-checked = refl

IsEligible_example :
    IsEligible "ACME" rules limits [] true latest 5000 none
    × (size_plan "ACME" limits latest ≡ ok plan)
IsEligible_example =
    (check_entry_iff "ACME" rules limits [] true latest 5000 none plan).0 plan-checked

within_limit_example :
    (1 ≤ 41)
    × (money_le plan.notional limits.max_notional_per_ticker ≡ true)
    × (leb_dec (mul (price_amount latest) (of_ℕ 41)) (amount limits.max_notional_per_ticker) ≡ true)
    × (ltb_dec (amount limits.max_notional_per_ticker) (mul (price_amount latest) (of_ℕ 42)) ≡ true)
within_limit_example =
    check_entry_within_limit "ACME" rules limits [] true latest 5000 none plan rules-valid
      plan-checked

FirstReached_example :
    FirstReached position
      (record { ticks = pos 150000 })
      rules
      300
      (check_exit position (record { ticks = pos 150000 }) rules 300)
FirstReached_example = check_exit-FirstReached position (record { ticks = pos 150000 }) rules 300

abbrev take_profit : ExitSignal
take_profit = record {
  ticker = "ACME";
  reason = ExitReason.partial_take_profit;
  fraction = record { num = pos 1; below = 1 };
  trigger_price = record { ticks = pos 150000 };
}

exit-valid : exit_valid rules.exit ≡ true
unfolding exit_valid pct_valid
exit-valid = refl

exit-checked : check_exit position (record { ticks = pos 150000 }) rules 300 ≡ some take_profit
unfolding check_exit stop_loss_price take_profit_price price_mul price mul add div_suc quantize
    round_half_even half_even half_even_of days_between ◌+ℤ◌
exit-checked = refl

sides_example :
    (take_profit.reason ≡ ExitReason.stop_loss → pos 150000 ≤ℤ pos 120000)
    × (take_profit.reason ≡ ExitReason.partial_take_profit
        → (pos 120000 ≤ℤ pos 150000)
          × (position.partial_tp_done ≡ false)
          × (ltb_dec (of_ℕ 0) take_profit.fraction ≡ true)
          × (ltb_dec take_profit.fraction (of_ℕ 1) ≡ true))
sides_example =
    check_exit-sides position (record { ticks = pos 150000 }) rules 300 120000 take_profit
      exit-valid refl exit-checked

average_cost_bounds_example :
    (c : Price) × (average_cost {E = TradeCloserError}
        (record { ticks = pos 100000 })
        3
        (record { ticks = pos 120000 })
        1
      ≡ ok c)
    × (pos 100000 ≤ℤ c.ticks)
    × (c.ticks ≤ℤ pos 120000)
average_cost_bounds_example =
    average_cost_bounds (record { ticks = pos 100000 }) (record { ticks = pos 120000 }) 3 1
      (pos 100000) (pos 120000) (omega arith) (omega arith, omega arith) (omega arith, omega arith)

apply_sell-Sold_example :
    Sold position fill decision
      (some ExitReason.partial_take_profit)
      carried
      (apply_sell (some position) fill decision (some ExitReason.partial_take_profit) carried)
apply_sell-Sold_example =
    apply_sell-Sold position fill decision (some ExitReason.partial_take_profit) carried

abbrev figures : Figures
figures = record {
  limits = limits;
  realized_today = record { cents = negsuc 9999 };
  unrealized_now = record { cents = negsuc 11999 };
  realized_week = record { cents = negsuc 9999 };
  equity = record { cents = pos 980000 };
  peak_equity = record { cents = pos 1000000 };
}

FirstBreach_example : FirstBreach figures (evaluated figures)
FirstBreach_example = evaluate-FirstBreach figures

-- the decision made of the plan has the plan's shares
order_qty_example : order_qty decision ≡ ok (record { shares = 41 })
order_qty_example =
    order_qty-plan "ACME" rules limits [] true latest 5000 none plan decision rules-valid
      plan-checked refl refl refl

costs-valid : cost_valid rules.cost_assumptions ≡ true
unfolding cost_valid cost_pct_valid cap_valid
costs-valid = refl

estimate_example :
    let e =
      estimate
        (record { cents = pos 100000 })
        (fill ∷ [])
        2
        (record { cents = pos 1000000 })
        rules.cost_assumptions in
    (e.estimated_live_pnl.cents
      ≡ pos 100000
        -ℤ e.slippage_cost.cents
        -ℤ e.commission_cost.cents
        -ℤ e.fixed_commission_cost.cents
        -ℤ e.fx_cost.cents)
    × (e.estimated_live_pnl.cents ≤ℤ pos 100000)
estimate_example =
    estimate-at_most (record { cents = pos 100000 }) (fill ∷ []) 2 (record { cents = pos 1000000 })
      rules.cost_assumptions costs-valid (omega arith, tt) (omega arith)

live_example :
    (decide_mode (λ s. s) (some "live") none true (some "I_ACCEPT_REAL_MONEY_RISK")
      ≡ ok TradingMode.live)
    ↔ ((str_eq "live" "live" ≡ true)
        × (is_text "test" none ≡ false)
        × (true ≡ true)
        × (is_text "I_ACCEPT_REAL_MONEY_RISK" (some "I_ACCEPT_REAL_MONEY_RISK") ≡ true))
live_example =
    decide_mode-live_iff (λ s. s) (some "live") none true (some "I_ACCEPT_REAL_MONEY_RISK")

-- three attempts, one second and then two, and at most five
abbrev policy : RetryPolicy
policy = record { max_attempts = 3; base_delay_s = of_ℕ 1; max_delay_s = of_ℕ 5 }

backoff_example :
    (length (backoff_delays policy) ≡ 2)
    × ((k : ℕ)
        → k < 2
        → (d : Decimal) × (element k (backoff_delays policy) ≡ some d) × Clipped policy k d)
backoff_example = backoff_delays-at policy

-- half of 41 shares, rounded down
exit_order_example :
    order_qty (
      exit_decision market uuids rules "c1" "sha" "paper" 300 "dec_1" position
        (record { ticks = pos 150000 })
        take_profit)
    ≡ ok (sell_qty position (record { num = pos 1; below = 1 }))
exit_order_example =
    exit_decision-order_qty market uuids rules "c1" "sha" "paper" "dec_1" 300 position
      (record { ticks = pos 150000 }) take_profit exit-valid (omega arith) refl exit-checked
