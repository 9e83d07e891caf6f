-- ===== src/Examples/Orders.antt =====
-- The theorems on orders, on the kill switch and on polling, at concrete inputs.
use kyo_trading_tool.Engine.Fills.{ReplayState, replay, empty_replay}
use kyo_trading_tool.Engine.Fills.Replay.{Represents, Step, replay-Represents}
use kyo_trading_tool.Ledger.TradeCloser.{
  TradeCloserError, open_position, apply_buy, apply_fill, apply_sell, finish_sell, resolve_reason,
}
use kyo_trading_tool.Ledger.Repository.{FillContext}
use kyo_trading_tool.Domain.Money.{zero_money}
use kyo_trading_tool.Domain.Models.{Position}
use kyo_trading_tool.Examples.{carried}
use kyo_trading_tool.Prelude.{none, false}
use kyo_trading_tool.Rules.Schema.{exit_valid, pct_valid}
use kyo_trading_tool.Engine.Fills.Polling.{total_shares}
use kyo_trading_tool.Engine.Fills.Polling.Rows.{recorded_shares}
use kyo_trading_tool.Engine.Fills.Polling.Recorded.{AtMost, poll_and_settle-Bounded}
use kyo_trading_tool.Engine.Holdings.{evaluate_holdings}
use kyo_trading_tool.Engine.Holdings.Exits.{Decided, evaluate_holdings-Decided}
use kyo_trading_tool.Prelude.{
  ℕ, ◌≤◌, ◌<◌, ◌≡◌, ◌⊎◌, refl, arith, true, some, [], ◌∷◌, pos, ◌+ℤ◌, String,
}
use kyo_trading_tool.Domain.Result.{Result, ok, err}
use kyo_trading_tool.Domain.Decimal.{of_ℕ, mul, quot_fraction, floor_div, add}
use kyo_trading_tool.Domain.Money.{money, price_amount}
use kyo_trading_tool.Domain.Models.{DateTime, Note, Side}
use kyo_trading_tool.Ledger.Db.{
  Conn, LedgerError, statement, transaction, next_refused, later_refusals,
}
use kyo_trading_tool.Ledger.Db.Transactions.{Atomic, transaction-Atomic}
use kyo_trading_tool.Ledger.Repository.{insert_by, sort_by, find_valid_approval}
use kyo_trading_tool.Ledger.Portfolio.{set_engine_state}
use kyo_trading_tool.Config.{TradingMode}
use kyo_trading_tool.Engine.Approval.{
  ApprovedOrderRequest, make, side_of, shares_for, to_qty, size_order, live_approval, approval_for,
  resolve_approval,
}
use kyo_trading_tool.Engine.Approval.Sizing.{shares_for-too_many}
use kyo_trading_tool.Engine.Executor.{new_order, record_order, execute}
use kyo_trading_tool.Engine.Executor.Recording.{Recorded, record_order-Recorded}
use kyo_trading_tool.Engine.Executor.Submission.{
  NotSent, SentOnRecord, execute-records_first, execute-live_never_sent,
}
use kyo_trading_tool.Engine.KillSwitch.{resume, trigger}
use kyo_trading_tool.Engine.KillSwitch.Halting.{
  Triggered, trigger-persists_halt, Resumed, resume-clears_halt,
}
use kyo_trading_tool.Engine.Fills.{FillsError, PollOutcome}
use kyo_trading_tool.Engine.Fills.Polling.{poll_and_settle}
use kyo_trading_tool.Engine.Fills.Polling.Termination.{poll_and_settle-terminates}
use kyo_trading_tool.Examples.{
  market, uuids, position, rules, decision, approval, market_clock, tables, conn, broker, clock,
  outside, job, breach,
}

abbrev request : ApprovedOrderRequest
request = record {
  decision = decision;
  approval = approval;
  side = Side.buy;
  qty = record { shares = 41 };
  client_order_id = "order_d1";
}

request-resolved :
    resolve_approval decision TradingMode.live tables 200 market_clock "appr_2" ≡ ok request
unfolding resolve_approval side_of size_order to_qty shares_for quot_fraction floor_div add
    approval_for live_approval find_valid_approval insert_by sort_by make ◌+ℤ◌
request-resolved = refl

never_sent_example : NotSent conn 0 (execute broker clock request TradingMode.live conn 0)
never_sent_example =
    execute-live_never_sent broker clock decision conn 200 market_clock "appr_2" request 0
      request-resolved

-- a new approval by the system
abbrev paper_request : ApprovedOrderRequest
paper_request = record request { approval = record approval { id = "appr_3" } }

records_first_example :
    NotSent conn 0 (execute broker clock paper_request TradingMode.paper conn 0)
    ⊎ SentOnRecord conn paper_request TradingMode.paper
        (execute broker clock paper_request TradingMode.paper conn 0)
records_first_example = execute-records_first broker clock paper_request TradingMode.paper conn 0

Recorded_example :
    Recorded paper_request
      (new_order paper_request TradingMode.paper)
      conn
      (record_order paper_request (new_order paper_request TradingMode.paper) conn)
Recorded_example =
    record_order-Recorded paper_request (new_order paper_request TradingMode.paper) conn

-- 1000 shares at four tenths of a cent are 4 dollars
too_many_example :
    (k : ℕ) × (shares_for
        (money (mul (price_amount (record { ticks = pos 40 })) (of_ℕ 1000)))
        (record { ticks = pos 40 })
      ≡ pos k)
    × (1000 < k)
too_many_example =
    shares_for-too_many (record { ticks = pos 40 }) 39 1000 refl 400 (omega arith) (omega arith)

state_kept : (set_engine_state "peak_equity" "1" conn).1.committed ≡ conn.committed
unfolding set_engine_state statement next_refused later_refusals
state_kept = refl

Atomic_example :
    Atomic conn
      (set_engine_state "peak_equity" "1" conn)
      (transaction (LedgerError.could_not "commit") (set_engine_state "peak_equity" "1") conn)
Atomic_example =
    transaction-Atomic (LedgerError.could_not "commit") (set_engine_state "peak_equity" "1") conn
      state_kept

abbrev text_of : Note → String
text_of n = "daily loss"

abbrev time_text : DateTime → String
time_text t = "2026-01-05T12:00:00+00:00"

Triggered_example :
    Triggered "daily loss" "2026-01-05T12:00:00+00:00"
      (err "unreachable")
      201
      conn
      (trigger text_of time_text broker clock breach conn 0).0
Triggered_example = trigger-persists_halt text_of time_text broker clock breach conn 0

Resumed_example : Resumed conn (resume conn)
Resumed_example = resume-clears_halt conn

terminates_example :
    (x : Result FillsError PollOutcome × Conn × ℕ) × (poll_and_settle outside job conn 0 ≡ some x)
terminates_example = poll_and_settle-terminates outside job conn 0 (omega arith)

-- one share is reported at every poll
AtMost_example : (id : String) (t : ℕ) → AtMost 1 (outside.broker.get_order id t)
AtMost_example id t = omega arith

no_fills : recorded_shares "order_d1" tables ≤ 1
unfolding total_shares
no_fills = omega arith

Bounded_example :
    (x : Result FillsError PollOutcome × Conn × ℕ) × (poll_and_settle outside job conn 0 ≡ some x)
    × (recorded_shares "order_d1" x.1.tables ≤ 1)
Bounded_example = poll_and_settle-Bounded outside job 1 conn 0 (omega arith) AtMost_example no_fills

rules-exit_valid : exit_valid rules.exit ≡ true
unfolding exit_valid pct_valid
rules-exit_valid = refl

Decided_example :
    Decided
      (position ∷ [])
      (evaluate_holdings market clock uuids rules "c1" "sha" "paper" (position ∷ []) conn 0)
Decided_example =
    evaluate_holdings-Decided market clock uuids rules "c1" "sha" "paper" (position ∷ []) conn 0
      rules-exit_valid (omega arith, tt)

-- a buy of 20 shares and a sell of 5
abbrev bought : FillContext
bought = record {
  fill = record {
    id = "fill_1";
    order_id = "order_d1";
    filled_at = 300;
    qty = record { shares = 20 };
    price = record { ticks = pos 120000 };
    fee = zero_money;
  };
  decision_id = "d1";
  side = Side.buy;
}

abbrev sold : FillContext
sold = record {
  fill = record {
    id = "fill_2";
    order_id = "order_d2";
    filled_at = 400;
    qty = record { shares = 5 };
    price = record { ticks = pos 150000 };
    fee = zero_money;
  };
  decision_id = "d2";
  side = Side.sell;
}

abbrev after_buy : Position
after_buy = record {
  ticker = "ACME";
  qty = record { shares = 20 };
  avg_cost = record { ticks = pos 120000 };
  opened_at = 300;
  high_watermark = record { ticks = pos 120000 };
  partial_tp_done = false;
}

abbrev after_sell : Position
after_sell = record after_buy { qty = record { shares = 15 } }

buy-applied : apply_buy none bought.fill decision ≡ ok (open_position after_buy)
unfolding apply_buy
buy-applied = refl

sell-applied : Step after_buy sold after_sell
unfolding apply_fill apply_sell finish_sell resolve_reason
sell-applied = record {
  decision = decision;
  now = 400;
  reason = none;
  carried = carried;
  applied = refl;
}

replay_example :
    (last : ReplayState) × (replay {E = TradeCloserError} "fill_3" (bought ∷ sold ∷ []) empty_replay
      ≡ ok last)
    × Represents last after_sell
replay_example =
    replay-Represents "fill_3" bought (sold ∷ []) decision after_buy after_sell refl buy-applied
      (after_sell, sell-applied, refl) (refl, (refl, tt))
