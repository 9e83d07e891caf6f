-- ===== src/Rules/Entry.antt =====
-- src/trader/rules/entry_checks.py: the only way from a candidate to a plan to buy.
pub mod Sizing
use kyo_trading_tool.Prelude.{
  ℕ, Bool, not, Option, List, String, length, contains, leb, ltb, is_some, some, none, pos,
  pos_part, if◌then◌else◌,
}
use kyo_trading_tool.Domain.Result.{Result, ok, err, raised, ◌>>=◌}
use kyo_trading_tool.Domain.Decimal.{of_ℕ, mul, div, trunc, leb_dec, ltb_dec}
use kyo_trading_tool.Domain.Money.{Money, Price, amount, price_amount, money}
use kyo_trading_tool.Domain.Models.{Note, Quantity}
use kyo_trading_tool.Rules.Schema.{RuleSet, DerivedLimits}
use kyo_trading_tool.Rules.Loss.{LossLimitBreach}

pub record EntryPlan : Type 0 where
  pub ticker : String
  pub qty : Quantity
  pub notional : Money
  pub limit : Money
  pub reference_price : Price

pub record RuleRejection : Type 0 where
  pub ticker : String
  pub code : String
  pub reason : Note

-- `Err(RuleRejection(...))`
abbrev pub reject : String → String → Note → Result RuleRejection EntryPlan
reject ticker code reason = err (record { ticker = ticker; code = code; reason = reason })

-- `loss_state.reason`, where there is a loss state
abbrev pub breach_note : Option LossLimitBreach → Note
breach_note none = Note.text ""
breach_note (some b) = b.reason

-- the size of the buy: `int(limit // price)` shares
-- a negative number of shares, which only rules that are not valid allow, counts as none
unfoldable pub size_plan : String → DerivedLimits → Price → Result RuleRejection EntryPlan
size_plan ticker limits latest_price = do
  quotient ← div (amount limits.max_notional_per_ticker) (price_amount latest_price)
  let shares = pos_part (trunc quotient)
  ok (record {
    ticker = ticker;
    qty = record { shares = shares };
    notional = money (mul (price_amount latest_price) (of_ℕ shares));
    limit = limits.max_notional_per_ticker;
    reference_price = latest_price;
  })

unfoldable pub check_entry :
    String
    → RuleSet
    → DerivedLimits
    → List String
    → Bool
    → Price
    → ℕ
    → Option LossLimitBreach
    → Result RuleRejection EntryPlan
check_entry ticker rules limits holdings market_open latest_price avg_volume loss_state =
    if contains ticker rules.entry.excluded_tickers
    then reject ticker "excluded_ticker" (Note.excluded_ticker ticker)
    else if contains ticker holdings
    then reject ticker "already_held" (Note.already_held ticker)
    else if leb rules.position.max_concurrent_positions (length holdings)
    then reject ticker "max_concurrent_positions"
        (Note.max_concurrent_positions (length holdings) rules.position.max_concurrent_positions)
    else if not market_open
    then reject ticker "market_closed" (Note.text "market is not open")
    else if is_some loss_state
    then reject ticker "loss_limit_reached" (breach_note loss_state)
    else if ltb_dec (price_amount latest_price) rules.entry.min_price_usd
    then reject ticker "min_price" (Note.min_price latest_price rules.entry.min_price_usd)
    else if ltb avg_volume rules.entry.min_avg_daily_volume
    then reject ticker "min_avg_volume"
        (Note.min_avg_volume avg_volume rules.entry.min_avg_daily_volume)
    else if ltb_dec (amount limits.max_notional_per_ticker) (price_amount latest_price)
    then reject ticker "price_over_limit" (
        Note.price_over_limit latest_price limits.max_notional_per_ticker
          rules.position.max_notional_per_ticker_pct rules.capital_usd)
    else size_plan ticker limits latest_price
