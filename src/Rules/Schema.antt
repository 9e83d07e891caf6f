-- ===== src/Rules/Schema.antt =====
-- src/trader/rules/schema.py: the rule set, what its validation promises, and the derived limits.
use kyo_trading_tool.Prelude.{ℕ, Bool, true, ◌&&◌, leb, String, Option, List, negsuc, none, some}
use kyo_trading_tool.Domain.Decimal.{Decimal, of_ℕ, of_int, leb_dec, ltb_dec}
use kyo_trading_tool.Domain.Money.{Money, money, pct_of}

pub record PositionRules : Type 0 where
  pub max_notional_per_ticker_pct : Decimal
  pub max_concurrent_positions : ℕ
  pub max_holding_days : ℕ

pub record ExitRules : Type 0 where
  pub stop_loss_pct : Decimal
  pub partial_take_profit_pct : Decimal
  pub partial_take_profit_fraction : Decimal
  pub trailing_stop_pct : Decimal

pub record LossLimitRules : Type 0 where
  pub max_daily_loss_pct : Decimal
  pub max_weekly_loss_pct : Decimal
  pub max_drawdown_pct : Decimal

pub record EntryRules : Type 0 where
  pub min_price_usd : Decimal
  pub min_avg_daily_volume : ℕ
  pub excluded_tickers : List String

pub record CostAssumptions : Type 0 where
  pub slippage_pct_per_side : Decimal
  pub commission_pct : Decimal
  pub commission_cap_usd : Option Decimal
  pub commission_usd_per_order : Decimal
  pub fx_cost_pct_one_way : Decimal

pub record RuleSet : Type 0 where
  pub approved_by : String
  pub approved_at : String
  pub capital_usd : Decimal
  pub position : PositionRules
  pub exit : ExitRules
  pub loss_limits : LossLimitRules
  pub entry : EntryRules
  pub cost_assumptions : CostAssumptions

-- `_Pct`: Field(gt=0, le=100)
unfoldable pub pct_valid : Decimal → Bool
pct_valid d = ltb_dec (of_ℕ 0) d && leb_dec d (of_ℕ 100)

-- Field(ge=0, le=100), of the cost assumptions
unfoldable pub cost_pct_valid : Decimal → Bool
cost_pct_valid d = leb_dec (of_ℕ 0) d && leb_dec d (of_ℕ 100)

unfoldable pub position_valid : PositionRules → Bool
unfolding pct_valid
position_valid r =
    pct_valid r.max_notional_per_ticker_pct
    && leb 1 r.max_concurrent_positions
    && leb 1 r.max_holding_days

unfoldable pub exit_valid : ExitRules → Bool
unfolding pct_valid
exit_valid r =
    ltb_dec (of_int (negsuc 99)) r.stop_loss_pct
    && ltb_dec r.stop_loss_pct (of_ℕ 0)
    && pct_valid r.partial_take_profit_pct
    && ltb_dec (of_ℕ 0) r.partial_take_profit_fraction
    && ltb_dec r.partial_take_profit_fraction (of_ℕ 1)
    && pct_valid r.trailing_stop_pct

unfoldable pub loss_limits_valid : LossLimitRules → Bool
unfolding pct_valid
loss_limits_valid r =
    pct_valid r.max_daily_loss_pct
    && pct_valid r.max_weekly_loss_pct
    && pct_valid r.max_drawdown_pct

unfoldable pub entry_valid : EntryRules → Bool
entry_valid r = ltb_dec (of_ℕ 0) r.min_price_usd

unfoldable pub cap_valid : Option Decimal → Bool
cap_valid none = true
cap_valid (some cap_usd) = ltb_dec (of_ℕ 0) cap_usd

unfoldable pub cost_valid : CostAssumptions → Bool
unfolding cost_pct_valid cap_valid
cost_valid r =
    cost_pct_valid r.slippage_pct_per_side
    && cost_pct_valid r.commission_pct
    && cap_valid r.commission_cap_usd
    && leb_dec (of_ℕ 0) r.commission_usd_per_order
    && cost_pct_valid r.fx_cost_pct_one_way

-- `RuleSet.model_validate`, on data of the right types
unfoldable pub rules_valid : RuleSet → Bool
rules_valid r =
    ltb_dec (of_ℕ 0) r.capital_usd
    && position_valid r.position
    && exit_valid r.exit
    && loss_limits_valid r.loss_limits
    && entry_valid r.entry
    && cost_valid r.cost_assumptions

pub record DerivedLimits : Type 0 where
  pub max_notional_per_ticker : Money
  pub max_daily_loss : Money
  pub max_weekly_loss : Money
  pub max_drawdown_pct : Decimal

unfoldable pub derive_limits : RuleSet → DerivedLimits
derive_limits rules =
    let capital = money rules.capital_usd in
    record {
      max_notional_per_ticker = pct_of capital rules.position.max_notional_per_ticker_pct;
      max_daily_loss = pct_of capital rules.loss_limits.max_daily_loss_pct;
      max_weekly_loss = pct_of capital rules.loss_limits.max_weekly_loss_pct;
      max_drawdown_pct = rules.loss_limits.max_drawdown_pct;
    }
