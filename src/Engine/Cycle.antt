-- ===== src/Engine/Cycle.antt =====
-- src/trader/engine/cycle.py: one decision and order cycle, the parts that its steps share. The New
-- York calendar, the text of a reason and the ISO form of a time are parameters.
pub mod Executing
pub mod Running
pub mod Committed
pub mod State
pub mod Closed
pub mod Idle
pub mod Halted
pub mod Ending
pub mod Termination
use kyo_trading_tool.Prelude.{
  ℕ, ltb, leb, ◌==◌, Bool, true, false, Option, none, some, List, [], ◌∷◌, keep, length, String,
  if◌then◌else◌,
}
use kyo_trading_tool.Domain.Result.{Result, ok, err, raised}
use kyo_trading_tool.Domain.Decimal.{Decimal, of_ℕ}
use kyo_trading_tool.Domain.Money.{Money, zero_money, money_lt, ◌+$◌}
use kyo_trading_tool.Domain.Models.{DateTime, Date, Note, Trade, EquitySnapshot}
use kyo_trading_tool.Rules.Schema.{RuleSet, DerivedLimits}
use kyo_trading_tool.Rules.Loss.{
  LossLimitBreach, trading_day, trading_week_start, drawdown_of, is_positive, evaluate,
}
use kyo_trading_tool.Ledger.Db.{Conn, Tables, LedgerError, could_not, no_such, commit_open}
use kyo_trading_tool.Ledger.Portfolio.{
  list_trades, list_equity_snapshots, set_engine_state, finish_cycle, upsert_equity_snapshot,
}
use kyo_trading_tool.Broker.{Broker, BrokerError, BrokerAccount, Clock, Uuids}
use kyo_trading_tool.Market.{MarketDataProvider}
use kyo_trading_tool.Config.{TradingMode, mode_value}
use kyo_trading_tool.Analysis.Output.{Reader}
use kyo_trading_tool.Analysis.Analyst.{LlmClient}
use kyo_trading_tool.Engine.KillSwitch.{
  KillSwitchError, not_persisted, not_resumed, KillSwitchOutcome, trigger,
}
use kyo_trading_tool.Engine.Holdings.{HoldingsOutcome}

abbrev pub serenity_source_id : String
serenity_source_id = "serenity"

abbrev pub last_cycle_id_key : String
last_cycle_id_key = "last_cycle_id"

pub data CycleStatus : Type 0 where
  finished halted market_unavailable error : CycleStatus

-- the text of a status
abbrev pub status_text : CycleStatus → String
status_text CycleStatus.finished = "ok"
status_text CycleStatus.halted = "halted"
status_text CycleStatus.market_unavailable = "market_unavailable"
status_text CycleStatus.error = "error"

-- `CycleError.message`
abbrev pub CycleError : Type 0
CycleError = Note

pub record CycleOutcome : Type 0 where
  pub cycle_id : String
  pub outcome : CycleStatus
  pub decisions : ℕ
  pub orders : ℕ
  pub fills : ℕ
  pub error_summary : Option Note
  pub candidates_skipped_reason : Option Note

-- the functions of Python that a cycle calls
pub record Library : Type 0 where
  pub reason_text : Note → String
  pub isoformat : DateTime → String
  pub ny_date : DateTime → Date
  pub weekday : Date → ℕ

-- everything but the connection, which is passed on, and the lock
pub record CycleDeps (S : Type 0) : Type 0 where
  pub mode : TradingMode
  pub rules : RuleSet
  pub limits : DerivedLimits
  pub rule_set_sha256 : String
  pub broker : Broker S
  pub market : MarketDataProvider S
  pub llm : Option (LlmClient S)
  pub reader : Reader
  pub clock : Clock S
  pub uuids : Uuids S
  pub capital : Money
  pub poll_timeout_s : ℕ
  pub poll_interval_s : ℕ
  pub library : Library

-- the message of an error of the ledger, and of the kill switch
abbrev pub ledger_note : LedgerError → Note
ledger_note (could_not what) = Note.ledger_could_not what
ledger_note (no_such what id) = Note.ledger_no_such what id

abbrev pub kill_note : KillSwitchError → Note
kill_note (not_persisted e) = ledger_note e
kill_note (not_resumed e) = ledger_note e

abbrev pub last_peak : Money → List EquitySnapshot → Money
last_peak m [] = m
last_peak m (s ∷ ss) = last_peak s.peak_equity ss

-- `_prior_peak_equity`
unfoldable pub prior_peak_equity : Tables → Money → Date → Money
prior_peak_equity t capital today =
    last_peak capital
      (keep (λ (s : EquitySnapshot). ltb s.snapshot_date today) (list_equity_snapshots t))

-- the loop of `_realized_totals`
unfoldable pub add_realized :
    (DateTime → Date) → Date → Date → List Trade → Money × Money → Money × Money
add_realized ny_date today week_start [] totals = totals
add_realized ny_date today week_start (trade ∷ trades) (realized_today, realized_week) =
    let trade_day = trading_day ny_date trade.closed_at in
    add_realized ny_date today week_start trades (
      if trade_day == today then realized_today +$ trade.realized_pnl else realized_today,
      if leb week_start trade_day then realized_week +$ trade.realized_pnl else realized_week,
    )

-- `_realized_totals`
unfoldable pub realized_totals : Library → List Trade → DateTime → Money × Money
realized_totals library trades now =
    add_realized library.ny_date (trading_day library.ny_date now)
      (trading_week_start library.ny_date library.weekday now) trades (zero_money, zero_money)

-- what a cycle returns
abbrev pub Ended : Type 0
Ended = Result CycleError CycleOutcome × Conn

-- the commit at the end, for what the call returns after it
abbrev pub of_commit : Result CycleError CycleOutcome → Result CycleError (Unit {0}) × Conn → Ended
of_commit r (ok _, c) = (r, c)
of_commit r (err e, c) = (err e, c)
of_commit r (raised x, c) = (raised x, c)

-- `if outcome != "error": set_engine_state(...)`, whose result is not looked at
unfoldable pub set_last_cycle : CycleStatus → String → Conn → Conn
set_last_cycle CycleStatus.error cycle_id c = c
set_last_cycle CycleStatus.finished cycle_id c = (set_engine_state last_cycle_id_key cycle_id c).1
set_last_cycle CycleStatus.halted cycle_id c = (set_engine_state last_cycle_id_key cycle_id c).1
set_last_cycle CycleStatus.market_unavailable cycle_id c =
    (set_engine_state last_cycle_id_key cycle_id c).1

-- after the update of the row of the cycle
unfoldable pub close : CycleOutcome → Result LedgerError (Unit {0}) × Conn → Ended
close out (ok _, c) =
    of_commit (ok out) (commit_open tt (set_last_cycle out.outcome out.cycle_id c))
close out (err e, c) = of_commit (err (ledger_note e)) (commit_open tt c)
close out (raised x, c) = (raised x, c)

-- `_finish`, at a time
unfoldable pub finish : CycleOutcome → DateTime → Conn → Ended
finish out now c =
    close out (finish_cycle out.cycle_id now (status_text out.outcome) out.error_summary c)

-- the outcome of a cycle that has sent nothing
abbrev pub nothing_sent : String → CycleStatus → Option Note → ℕ → CycleOutcome
nothing_sent cycle_id outcome error_summary decisions = record {
  cycle_id = cycle_id;
  outcome = outcome;
  decisions = decisions;
  orders = 0;
  fills = 0;
  error_summary = error_summary;
  candidates_skipped_reason = none;
}

-- what `_evaluate_risk` returns: a finished cycle, or `none` to go on
abbrev pub Risk : Type 0 → Type 0
Risk S = Option (Result CycleError CycleOutcome) × Conn × S

abbrev pub stop : {S : Type 0} → S → Ended → Risk S
stop s (r, c) = (some r, c, s)

-- `Money(max(prior_peak.amount, equity.amount))`
abbrev pub max_money : Money → Money → Money
max_money a b = if money_lt a b then b else a

-- `drawdown_pct`
unfoldable pub snapshot_drawdown : Money → Money → Decimal
snapshot_drawdown peak equity = if is_positive peak then drawdown_of peak equity else of_ℕ 0

module _ {S : Type 0} (deps : CycleDeps S) (cycle_id : String) (decisions_count : ℕ) where
  abbrev pub stop_with : CycleStatus → Note → Conn → S → Risk S
  stop_with outcome summary c s =
      stop s
        (finish (nothing_sent cycle_id outcome (some summary) decisions_count) (deps.clock.now s) c)

  -- after the kill switch
  unfoldable pub after_kill :
      LossLimitBreach → (Result KillSwitchError KillSwitchOutcome × Conn) × S → Risk S
  after_kill breach ((ok out, c), s) = stop_with CycleStatus.halted breach.reason c s
  after_kill breach ((err e, c), s) = stop_with CycleStatus.error (kill_note e) c s
  after_kill breach ((raised x, c), s) = (some (raised x), c, s)

  -- `if breach is not None`
  unfoldable pub on_breach : Option LossLimitBreach → Conn → S → Risk S
  on_breach none c s = (none, c, s)
  on_breach (some breach) c s =
      after_kill breach
        (trigger deps.library.reason_text deps.library.isoformat deps.broker deps.clock breach c s)

  -- after the snapshot: the loss limits
  unfoldable pub check_losses :
      Money → Money → Money → DateTime → S → Result LedgerError (Unit {0}) × Conn → Risk S
  check_losses unrealized equity peak now s (ok _, c) =
      let (realized_today, realized_week) =
        realized_totals deps.library (list_trades c.tables) now in
      on_breach (evaluate deps.limits realized_today unrealized realized_week equity peak) c s
  check_losses unrealized equity peak now s (err e, c) =
      stop_with CycleStatus.error (ledger_note e) c s
  check_losses unrealized equity peak now s (raised x, c) = (some (raised x), c, s)

  -- with the account of the broker
  unfoldable pub on_account : HoldingsOutcome → Conn → Result BrokerError BrokerAccount × S → Risk S
  on_account holdings c (ok account, s) =
      let now = deps.clock.now s in
      let today = trading_day deps.library.ny_date now in
      let equity = account.cash +$ holdings.positions_value in
      let peak = max_money (prior_peak_equity c.tables deps.capital today) equity in
      check_losses holdings.unrealized_pnl equity peak now s (
        upsert_equity_snapshot today (mode_value deps.mode) account.cash holdings.positions_value
          peak (snapshot_drawdown peak equity) now c)
  on_account holdings c (err m, s) = stop_with CycleStatus.market_unavailable (Note.text m) c s
  on_account holdings c (raised x, s) = (some (raised x), c, s)

  -- `_evaluate_risk`
  unfoldable pub evaluate_risk : HoldingsOutcome → Conn → S → Risk S
  evaluate_risk holdings c s = on_account holdings c (deps.broker.account s)
