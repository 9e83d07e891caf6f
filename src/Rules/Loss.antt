-- ===== src/Rules/Loss.antt =====
-- src/trader/rules/loss_limits.py. The New York calendar is `zoneinfo`'s, a parameter.
pub mod Limits
use kyo_trading_tool.Prelude.{ℕ, Bool, Option, none, some, pos, ◌-ℤ◌, ◌-◌, ◌&&◌, if◌then◌else◌}
use kyo_trading_tool.Domain.Decimal.{Decimal, of_ℕ, sub, mul, quot, leb_dec, ltb_dec}
use kyo_trading_tool.Domain.Money.{Money, amount, ◌+$◌}
use kyo_trading_tool.Domain.Models.{Note, DateTime, Date}
use kyo_trading_tool.Rules.Schema.{DerivedLimits}

pub data LossKind : Type 0 where
  daily weekly drawdown : LossKind

-- `Money | Decimal`
pub data Observed : Type 0 where
  usd : Money → Observed
  percent : Decimal → Observed

pub record LossLimitBreach : Type 0 where
  pub kind : LossKind
  pub observed : Observed
  pub limit : Observed
  pub reason : Note

-- `-limit.amount`
abbrev pub negated : Money → Decimal
negated m = record { num = pos 0 -ℤ m.cents; below = 99 }

-- `(peak.amount - equity.amount) / peak.amount * Decimal(100)`
unfoldable pub drawdown_of : Money → Money → Decimal
drawdown_of peak equity = mul (quot (sub (amount peak) (amount equity)) (amount peak)) (of_ℕ 100)

-- `peak.amount > 0`
abbrev pub is_positive : Money → Bool
is_positive m = ltb_dec (of_ℕ 0) (amount m)

unfoldable pub evaluate :
    DerivedLimits → Money → Money → Money → Money → Money → Option LossLimitBreach
unfolding drawdown_of
evaluate limits realized_today unrealized_now realized_week equity peak_equity =
    let daily_total = realized_today +$ unrealized_now in
    let weekly_total = realized_week +$ unrealized_now in
    let drawdown_pct = drawdown_of peak_equity equity in
    if leb_dec (amount daily_total) (negated limits.max_daily_loss)
    then some (record {
      kind = daily;
      observed = usd daily_total;
      limit = usd limits.max_daily_loss;
      reason = Note.daily_loss daily_total limits.max_daily_loss realized_today unrealized_now;
    })
    else if leb_dec (amount weekly_total) (negated limits.max_weekly_loss)
    then some (record {
      kind = weekly;
      observed = usd weekly_total;
      limit = usd limits.max_weekly_loss;
      reason = Note.weekly_loss weekly_total limits.max_weekly_loss realized_week unrealized_now;
    })
    else if is_positive peak_equity && leb_dec limits.max_drawdown_pct drawdown_pct
    then some (record {
      kind = drawdown;
      observed = percent drawdown_pct;
      limit = percent limits.max_drawdown_pct;
      reason = Note.drawdown drawdown_pct limits.max_drawdown_pct peak_equity equity;
    })
    else none

-- `now_utc.astimezone(_NY).date()`, with the calendar as a parameter
abbrev pub trading_day : (DateTime → Date) → DateTime → Date
trading_day ny_date now_utc = ny_date now_utc

-- `day.weekday()` is 0 on a Monday
abbrev pub trading_week_start : (DateTime → Date) → (Date → ℕ) → DateTime → Date
trading_week_start ny_date weekday now_utc =
    let day = trading_day ny_date now_utc in day - weekday day
