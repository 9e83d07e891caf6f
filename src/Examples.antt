-- ===== src/Examples.antt =====
-- Concrete data for the examples: rules, a decision, tables, and a world outside that counts calls.
pub mod Rules
pub mod Orders
pub mod Cycles
pub mod Reports
use Prim.Native.String.{◌++◌}
use kyo_trading_tool.Prelude.{
  ℕ, suc, zero, ◌+◌, Option, none, some, List, [], ◌∷◌, String, true, false, pos, negsuc,
}
use kyo_trading_tool.Domain.Result.{ok, err}
use kyo_trading_tool.Domain.Decimal.{Decimal, of_ℕ, of_int}
use kyo_trading_tool.Domain.Money.{Money, Price, zero_money}
use kyo_trading_tool.Domain.Models.{
  DateTime, Quantity, ExitReason, Side, Action, Origin, RuleCheck, OrderStatus, Approver, Note,
  Decision, Approval, Fill, Position,
}
use kyo_trading_tool.Rules.Schema.{RuleSet, DerivedLimits}
use kyo_trading_tool.Rules.Loss.{LossKind, Observed, LossLimitBreach}
use kyo_trading_tool.Ledger.Db.{Cycle, Tables, Conn}
use kyo_trading_tool.Ledger.TradeCloser.{Carried}
use kyo_trading_tool.Broker.{Broker, BrokerOrder, Clock, Uuids}
use kyo_trading_tool.Market.{MarketClock, MarketDataProvider}
use kyo_trading_tool.Engine.Fills.Polling.{Outside, Job}

abbrev pub rules : RuleSet
rules = record {
  approved_by = "kyo";
  approved_at = "2026-01-01";
  capital_usd = of_ℕ 10000;
  position = record {
    max_notional_per_ticker_pct = of_ℕ 5;
    max_concurrent_positions = 3;
    max_holding_days = 30;
  };
  exit = record {
    stop_loss_pct = of_int (negsuc 7);
    partial_take_profit_pct = of_ℕ 20;
    partial_take_profit_fraction = record { num = pos 1; below = 1 };
    trailing_stop_pct = of_ℕ 10;
  };
  loss_limits = record {
    max_daily_loss_pct = of_ℕ 2;
    max_weekly_loss_pct = of_ℕ 5;
    max_drawdown_pct = of_ℕ 10;
  };
  entry = record {
    min_price_usd = of_ℕ 5;
    min_avg_daily_volume = 1000;
    excluded_tickers = "GME" ∷ [];
  };
  cost_assumptions = record {
    slippage_pct_per_side = of_ℕ 0;
    commission_pct = of_ℕ 0;
    commission_cap_usd = none;
    commission_usd_per_order = of_ℕ 0;
    fx_cost_pct_one_way = of_ℕ 0;
  };
}

abbrev pub limits : DerivedLimits
limits = record {
  max_notional_per_ticker = record { cents = pos 50000 };
  max_daily_loss = record { cents = pos 20000 };
  max_weekly_loss = record { cents = pos 50000 };
  max_drawdown_pct = of_ℕ 10;
}

-- a decision to buy for 500 dollars at 12
abbrev pub decision : Decision
decision = record {
  id = "d1";
  cycle_id = "c1";
  decided_at = 100;
  mode = "live";
  ticker = "ACME";
  action = Action.buy;
  origin = Origin.llm;
  confidence = none;
  rationale = Note.text "";
  evidence_mention_ids = [];
  llm_model = none;
  prompt_sha256 = none;
  response_sha256 = none;
  rule_set_sha256 = "sha";
  rule_check = RuleCheck.passed;
  rule_check_reason = Note.text "";
  proposed_notional = some (record { cents = pos 49200 });
  reference_price = some (record { ticks = pos 120000 });
}

abbrev pub approval : Approval
approval = record {
  id = "appr_1";
  decision_id = "d1";
  approver = Approver.kyo;
  approved_at = 110;
  expires_at = 900;
}

abbrev pub market_clock : MarketClock
market_clock = record { is_open = true; next_open = 800; next_close = 900 }

abbrev pub tables : Tables
tables = record {
  sources = [];
  mentions = [];
  rule_sets = "sha" ∷ [];
  cycles =
      record {
        id = "c1";
        started_at = 100;
        finished_at = none;
        mode = "live";
        outcome = none;
        error_summary = none;
      }
      ∷ [];
  decisions = decision ∷ [];
  approvals = approval ∷ [];
  orders = [];
  fills = [];
  positions = [];
  trades = [];
  equity_snapshots = [];
  engine_state = ("halted", "true") ∷ ("peak_equity", "10500.00") ∷ [];
}

-- nothing is refused, and all is committed
abbrev pub conn : Conn
conn = record { tables = tables; committed = tables; refusals = [] }

-- the broker's view of the order: one share is filled
abbrev pub broker_order : BrokerOrder
broker_order = record {
  broker_order_id = "b1";
  client_order_id = "order_d1";
  status = OrderStatus.partially_filled;
  filled_qty = record { shares = 1 };
  filled_avg_price = some (record { ticks = pos 120000 });
  updated_at = 120;
}

-- a broker that takes orders and cannot cancel; the state counts the calls
abbrev pub broker : Broker ℕ
broker = record {
  submit_market_order = λ request s. (ok broker_order, s + 1);
  cancel_all_open = λ s. (err "unreachable", s + 1);
  get_order = λ id s. (ok broker_order, s + 1);
  positions = λ s. (ok [], s + 1);
  account = λ s. (err "unreachable", s + 1);
}

abbrev pub clock : Clock ℕ
clock = record { now = λ s. 200 + s; sleep = λ n s. s + n }

abbrev pub uuids : Uuids ℕ
uuids = record { uuid4_hex = λ s. ("u", s + 1) }

abbrev pub outside : Outside ℕ
outside = record { broker = broker; clock = clock; uuids = uuids }

abbrev pub job : Job
job = record {
  client_order_id = "order_d1";
  order_id = "order_d1";
  decision = decision;
  side = Side.buy;
  exit_reason = none;
  poll_timeout_s = 3;
  poll_interval_s = 1;
}

abbrev pub position : Position
position = record {
  ticker = "ACME";
  qty = record { shares = 41 };
  avg_cost = record { ticks = pos 120000 };
  opened_at = 100;
  high_watermark = record { ticks = pos 130000 };
  partial_tp_done = false;
}

abbrev pub fill : Fill
fill = record {
  id = "fill_1";
  order_id = "order_d2";
  filled_at = 300;
  qty = record { shares = 21 };
  price = record { ticks = pos 150000 };
  fee = zero_money;
}

abbrev pub carried : Carried
carried = record {
  entry_decision_id = none;
  exit_decision_ids = [];
  realized_so_far = zero_money;
  fees_so_far = zero_money;
}

abbrev pub breach : LossLimitBreach
breach = record {
  kind = LossKind.daily;
  observed = Observed.usd (record { cents = negsuc 20000 });
  limit = Observed.usd (record { cents = pos 20000 });
  reason = Note.text "daily loss";
}

-- every share is at 15 dollars
abbrev pub market : MarketDataProvider ℕ
market = record {
  daily_bars = λ ticker s. (err "no bars", s);
  latest_price = λ ticker s. (ok (record { ticks = pos 150000 }), s);
  market_clock = λ s. (ok market_clock, s);
}
