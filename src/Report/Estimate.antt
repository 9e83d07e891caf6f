-- ===== src/Report/Estimate.antt =====
-- src/trader/report/live_estimate.py: paper profit less the costs of trading with real money.
pub mod Costs
use kyo_trading_tool.Prelude.{ℕ, Option, none, some, List, [], ◌∷◌, if◌then◌else◌}
use kyo_trading_tool.Domain.Decimal.{Decimal, of_ℕ, add, mul, hundredth, ltb_dec}
use kyo_trading_tool.Domain.Money.{Money, amount, price_amount, money, ◌-$◌}
use kyo_trading_tool.Domain.Models.{Fill}
use kyo_trading_tool.Rules.Schema.{CostAssumptions}

pub record LiveEstimate : Type 0 where
  pub paper_pnl : Money
  pub slippage_cost : Money
  pub commission_cost : Money
  pub fixed_commission_cost : Money
  pub fx_cost : Money
  pub estimated_live_pnl : Money

unfoldable pub fill_notional : Fill → Decimal
fill_notional fill = mul (price_amount fill.price) (of_ℕ fill.qty.shares)

-- the sum of what `f` takes from each fill
unfoldable pub sum_of : (Fill → Decimal) → Decimal → List Fill → Decimal
sum_of f total [] = total
sum_of f total (fill ∷ fills) = sum_of f (add total (f fill)) fills

unfoldable pub slippage_of : CostAssumptions → Fill → Decimal
slippage_of cost fill = hundredth (mul (fill_notional fill) cost.slippage_pct_per_side)

-- `_slippage_cost`
unfoldable pub slippage_cost : List Fill → CostAssumptions → Money
slippage_cost fills cost = money (sum_of (slippage_of cost) (of_ℕ 0) fills)

-- `min(commission, cap)`, where there is a cap
unfoldable pub capped : Option Decimal → Decimal → Decimal
capped none commission = commission
capped (some cap) commission = if ltb_dec cap commission then cap else commission

unfoldable pub commission_of : CostAssumptions → Fill → Decimal
commission_of cost fill =
    capped cost.commission_cap_usd (hundredth (mul (fill_notional fill) cost.commission_pct))

-- `_commission_cost`
unfoldable pub commission_cost : List Fill → CostAssumptions → Money
commission_cost fills cost = money (sum_of (commission_of cost) (of_ℕ 0) fills)

unfoldable pub estimate : Money → List Fill → ℕ → Money → CostAssumptions → LiveEstimate
estimate paper_pnl fills order_count capital cost =
    let slippage = slippage_cost fills cost in
    let commission = commission_cost fills cost in
    let fixed = money (mul (of_ℕ order_count) cost.commission_usd_per_order) in
    let fx = money (mul (hundredth (mul (amount capital) cost.fx_cost_pct_one_way)) (of_ℕ 2)) in
    record {
      paper_pnl = paper_pnl;
      slippage_cost = slippage;
      commission_cost = commission;
      fixed_commission_cost = fixed;
      fx_cost = fx;
      estimated_live_pnl = paper_pnl -$ slippage -$ commission -$ fixed -$ fx;
    }
