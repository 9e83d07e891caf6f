-- ===== src/Domain/Models/Values.antt =====
-- Time, shares and exit reasons, and the formatted messages, each as the values that it shows.
use kyo_trading_tool.Prelude.{List, ℕ, ◌/◌, String, ℤ, pos, negsuc, ◌-◌, leb, if◌then◌else◌}
use kyo_trading_tool.Domain.Decimal.{Decimal}
use kyo_trading_tool.Domain.Money.{Money, Price}

-- microseconds of UTC
abbrev pub DateTime : Type 0
DateTime = ℕ

-- a calendar day, counted from the same day
abbrev pub Date : Type 0
Date = ℕ

abbrev pub day_length : ℕ
day_length = 86400000000

-- `value.date()`
abbrev pub date : DateTime → Date
date t = t / day_length

-- `(later - earlier).days`: whole days, rounded down also where the difference is negative
unfoldable pub days_between : DateTime → DateTime → ℤ
days_between later earlier =
    if leb earlier later
    then pos ((later - earlier) / day_length)
    else negsuc ((earlier - later - 1) / day_length)

-- `Quantity`: a whole number of shares, which `Quantity.parse` holds to be no less than 0
pub record Quantity : Type 0 where
  pub shares : ℕ

pub data ExitReason : Type 0 where
  stop_loss partial_take_profit trailing_stop max_holding_days llm : ExitReason

pub data Note : Type 0 where
  text : String → Note
  excluded_ticker : String → Note
  already_held : String → Note
  max_concurrent_positions : ℕ → ℕ → Note
  min_price : Price → Decimal → Note
  min_avg_volume : ℕ → ℕ → Note
  price_over_limit : Price → Money → Decimal → Decimal → Note
  within_limit : Money → Money → Decimal → Decimal → Note
  daily_loss : Money → Money → Money → Money → Note
  weekly_loss : Money → Money → Money → Money → Note
  drawdown : Decimal → Decimal → Money → Money → Note
  exit_triggered : ExitReason → Price → ℕ → ℕ → Note
  exit_rule : ExitReason → Price → Note
  llm_action : String → Note
  ledger_could_not : String → Note
  ledger_no_such : String → String → Note
  no_price_for : List String → Note
  holdings_full : ℕ → ℕ → Note
  llm_call_failed : String → Note
  invalid_llm_output : Note → Note
  invalid_fields : List String → Note
