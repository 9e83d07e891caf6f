-- ===== src/Report/Metrics.antt =====
-- src/trader/report/metrics.py: the figures of a report.
pub mod Counts
pub mod Tallies
use kyo_trading_tool.Prelude.{
  ℕ, suc, ◌+◌, ltb, ◌==◌, Bool, true, false, ◌&&◌, Option, none, some, List, [], ◌∷◌, map, keep,
  count, length, String, str_eq, pos, if◌then◌else◌,
}
use kyo_trading_tool.Domain.Decimal.{Decimal, of_ℕ, sub, mul, quot, quantize, ltb_dec}
use kyo_trading_tool.Domain.Money.{Money, amount, money, zero_money, ◌+$◌}
use kyo_trading_tool.Domain.Models.{
  Date, date, ExitReason, Action, RuleCheck, Decision, Position, Trade, EquitySnapshot,
}
use kyo_trading_tool.Rules.Loss.{drawdown_of, is_positive}

pub record Period : Type 0 where
  pub start : Option Date
  pub end : Option Date

-- a `Counter`: how often each key was counted, in the order of their first counts
abbrev pub Counter : Type 0 → Type 0
Counter K = List (K × ℕ)

pub record Metrics : Type 0 where
  pub period_pnl : Money
  pub trade_count : ℕ
  pub win_count : ℕ
  pub loss_count : ℕ
  pub win_rate_pct : Decimal
  pub avg_pnl : Money
  pub max_drawdown_pct : Decimal
  pub exit_reason_counts : Counter ExitReason
  pub decision_counts : Counter String
  pub open_positions : List Position

-- `value < period.start` and `value > period.end`, where there is a bound
abbrev pub before_start : Date → Option Date → Bool
before_start value none = false
before_start value (some start) = ltb value start

abbrev pub after_end : Date → Option Date → Bool
after_end value none = false
after_end value (some end) = ltb end value

-- `_in_period`
unfoldable pub in_period : Date → Period → Bool
in_period value period =
    if before_start value period.start
    then false
    else if after_end value period.end
    then false
    else true

unfoldable pub filter_trades_by_period : List Trade → Period → List Trade
unfolding in_period
filter_trades_by_period trades period =
    keep (λ (t : Trade). in_period (date t.closed_at) period) trades

unfoldable pub filter_decisions : List Decision → Period → List Decision
unfolding in_period
filter_decisions decisions period =
    keep (λ (d : Decision). in_period (date d.decided_at) period) decisions

-- `_quantize_pct`
unfoldable pub quantize_pct : Decimal → Decimal
quantize_pct value = record { num = quantize 100 value; below = 99 }

-- the loop of `_max_drawdown_pct`
unfoldable pub worst_drawdown : Money → Decimal → List EquitySnapshot → Decimal
worst_drawdown running_peak worst [] = worst
worst_drawdown running_peak worst (s ∷ ss) =
    let peak = if ltb_dec (amount running_peak) (amount s.equity) then s.equity else running_peak in
    let drawdown = drawdown_of peak s.equity in
    worst_drawdown peak (if is_positive peak && ltb_dec worst drawdown then drawdown else worst) ss

-- `_max_drawdown_pct`
unfoldable pub max_drawdown_pct : List EquitySnapshot → Decimal
unfolding quantize_pct worst_drawdown
max_drawdown_pct [] = record { num = pos 0; below = 99 }
max_drawdown_pct (s ∷ ss) = quantize_pct (worst_drawdown s.equity (of_ℕ 0) (s ∷ ss))

-- `_decision_bucket`
unfoldable pub bucket_of : Action → RuleCheck → String
bucket_of Action.skip check = "skip"
bucket_of Action.hold check = "hold"
bucket_of Action.buy RuleCheck.passed = "passed"
bucket_of Action.buy RuleCheck.rejected = "rejected"
bucket_of Action.sell RuleCheck.passed = "passed"
bucket_of Action.sell RuleCheck.rejected = "rejected"

abbrev pub decision_bucket : Decision → String
decision_bucket d = bucket_of d.action d.rule_check

-- `sum((t.realized_pnl for t in period_trades), _ZERO_MONEY)`
unfoldable pub sum_pnl : Money → List Trade → Money
sum_pnl total [] = total
sum_pnl total (t ∷ ts) = sum_pnl (total +$ t.realized_pnl) ts

-- `counter[key] += 1`
unfoldable pub increment : {K : Type 0} → (K → K → Bool) → K → Counter K → Counter K
increment same key [] = (key, 1) ∷ []
increment same key ((k, n) ∷ rest) =
    if same k key then (k, suc n) ∷ rest else (k, n) ∷ increment same key rest

-- `Counter(keys)`
unfoldable pub tally : {K : Type 0} → (K → K → Bool) → List K → Counter K → Counter K
unfolding increment
tally same [] counter = counter
tally same (k ∷ ks) counter = tally same ks (increment same k counter)

abbrev pub reason_index : ExitReason → ℕ
reason_index ExitReason.stop_loss = 0
reason_index ExitReason.partial_take_profit = 1
reason_index ExitReason.trailing_stop = 2
reason_index ExitReason.max_holding_days = 3
reason_index ExitReason.llm = 4

abbrev pub same_reason : ExitReason → ExitReason → Bool
same_reason r q = reason_index r == reason_index q

abbrev pub is_win : Trade → Bool
is_win t = ltb_dec (of_ℕ 0) (amount t.realized_pnl)

abbrev pub is_loss : Trade → Bool
is_loss t = ltb_dec (amount t.realized_pnl) (of_ℕ 0)

-- `if trade_count`
unfoldable pub win_rate : ℕ → ℕ → Decimal
unfolding quantize_pct
win_rate trade_count win_count =
    if trade_count == 0
    then record { num = pos 0; below = 99 }
    else quantize_pct (mul (quot (of_ℕ win_count) (of_ℕ trade_count)) (of_ℕ 100))

unfoldable pub average_pnl : ℕ → Money → Money
average_pnl trade_count pnl =
    if trade_count == 0 then zero_money else money (quot (amount pnl) (of_ℕ trade_count))

unfoldable pub compute :
    List Trade → List Decision → List EquitySnapshot → List Position → Period → Metrics
compute trades decisions snapshots positions period =
    let period_trades = filter_trades_by_period trades period in
    let period_decisions = filter_decisions decisions period in
    let trade_count = length period_trades in
    let period_pnl = sum_pnl zero_money period_trades in
    let win_count = count is_win period_trades in
    record {
      period_pnl = period_pnl;
      trade_count = trade_count;
      win_count = win_count;
      loss_count = count is_loss period_trades;
      win_rate_pct = win_rate trade_count win_count;
      avg_pnl = average_pnl trade_count period_pnl;
      max_drawdown_pct = max_drawdown_pct snapshots;
      exit_reason_counts = tally same_reason (map (λ (t : Trade). t.exit_reason) period_trades) [];
      decision_counts = tally str_eq (map decision_bucket period_decisions) [];
      open_positions = positions;
    }
