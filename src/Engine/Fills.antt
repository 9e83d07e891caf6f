-- ===== src/Engine/Fills.antt =====
-- src/trader/engine/fills.py: replaying the fills of a position and settling one fill.
pub mod Polling
pub mod Replay
use Prim.Native.String.{◌++◌}
use kyo_trading_tool.Prelude.{
  ℕ, zero, suc, ◌+◌, ◌-◌, ltb, leb, Bool, true, false, ◌&&◌, Option, none, some, List, [], ◌∷◌,
  snoc, String, str_eq, if◌then◌else◌, ℤ, pos, ◌+ℤ◌, ◌-ℤ◌,
}
use kyo_trading_tool.Domain.Result.{Result, ok, err, raised, ◌>>=◌}
use kyo_trading_tool.Domain.Decimal.{of_ℕ, of_int, add, mul, div, quot}
use kyo_trading_tool.Domain.Money.{
  Money, Price, amount, price_amount, money, price, zero_money, ◌+$◌, ◌-$◌,
}
use kyo_trading_tool.Domain.Models.{
  DateTime, Quantity, ExitReason, Side, OrderStatus, Decision, Fill, Position,
}
use kyo_trading_tool.Rules.Loss.{is_positive}
use kyo_trading_tool.Ledger.Db.{Conn, Sql, LedgerError}
use kyo_trading_tool.Ledger.Repository.{
  FillContext, insert_fill, list_fills, list_fill_context_for_ticker_since, update_order_status,
}
use kyo_trading_tool.Ledger.Portfolio.{get_position, upsert_position, delete_position, insert_trade}
use kyo_trading_tool.Ledger.TradeCloser.{
  PositionUpdate, open_position, closed_trade, TradeCloserError, Carried, fill_pnl, apply_fill,
}
use kyo_trading_tool.Broker.{Broker, BrokerError, BrokerOrder, Clock, Uuids}

-- `FillsError`: where the message comes from
pub data FillsError : Type 0 where
  not_applied : TradeCloserError → FillsError
  not_stored : LedgerError → FillsError
  not_polled : BrokerError → FillsError

pub record PollOutcome : Type 0 where
  pub fills_recorded : ℕ
  pub final_status : OrderStatus

-- `_ReplayState`; `qty` is a plain int
pub record ReplayState : Type 0 where
  pub entry_decision_id : Option String
  pub exit_decision_ids : List String
  pub realized_so_far : Money
  pub fees_so_far : Money
  pub qty : ℤ
  pub avg_cost : Option Price

abbrev pub empty_replay : ReplayState
empty_replay = record {
  entry_decision_id = none;
  exit_decision_ids = [];
  realized_so_far = zero_money;
  fees_so_far = zero_money;
  qty = pos 0;
  avg_cost = none;
}

-- `Price((avg_cost * qty + price * fill_qty) / Decimal(total_shares))`
unfoldable pub replay_average : {E : Type 0} → Price → ℤ → Fill → Result E Price
replay_average avg qty fill = do
  mean ←
      div
        (add (mul (price_amount avg) (of_int qty))
          (mul (price_amount fill.price) (of_ℕ fill.qty.shares)))
        (of_int (qty +ℤ pos fill.qty.shares))
  ok (price mean)

unfoldable pub replay_buy_at :
    {E : Type 0} → Option Price → ReplayState → FillContext → Result E ReplayState
replay_buy_at none state ctx = ok (record state {
  entry_decision_id = some ctx.decision_id;
  qty = pos ctx.fill.qty.shares;
  avg_cost = some ctx.fill.price;
})
replay_buy_at (some avg) state ctx = do
  new_avg_cost ← replay_average avg state.qty ctx.fill
  ok (record state { qty = state.qty +ℤ pos ctx.fill.qty.shares; avg_cost = some new_avg_cost })

-- `_replay_buy`
abbrev pub replay_buy : {E : Type 0} → ReplayState → FillContext → Result E ReplayState
replay_buy state ctx = replay_buy_at state.avg_cost state ctx

-- `avg_cost if not None else Price(Decimal(0))`
abbrev pub cost_or_zero : Option Price → Price
cost_or_zero none = record { ticks = pos 0 }
cost_or_zero (some p) = p

-- `_replay_sell`
unfoldable pub replay_sell : ReplayState → FillContext → ReplayState
replay_sell state ctx = record state {
  exit_decision_ids = snoc state.exit_decision_ids ctx.decision_id;
  realized_so_far = state.realized_so_far +$ fill_pnl (cost_or_zero state.avg_cost) ctx.fill;
  fees_so_far = state.fees_so_far +$ ctx.fill.fee;
  qty = state.qty -ℤ pos ctx.fill.qty.shares;
}

unfoldable pub replay_side : {E : Type 0} → Side → ReplayState → FillContext → Result E ReplayState
replay_side Side.buy state ctx = replay_buy state ctx
replay_side Side.sell state ctx = ok (replay_sell state ctx)

-- the loop of `_replay_prior_fills`
unfoldable pub replay :
    {E : Type 0} → String → List FillContext → ReplayState → Result E ReplayState
replay exclude_fill_id [] state = ok state
replay exclude_fill_id (ctx ∷ rest) state =
    (if str_eq ctx.fill.id exclude_fill_id then ok state else replay_side ctx.side state ctx)
    >>= replay exclude_fill_id rest

unfoldable pub carried_of : ReplayState → Carried
carried_of state = record {
  entry_decision_id = state.entry_decision_id;
  exit_decision_ids = state.exit_decision_ids;
  realized_so_far = state.realized_so_far;
  fees_so_far = state.fees_so_far;
}

-- what `_settle_fill` carries over: only a sell of an open position needs the history
unfoldable pub carried_for :
    {E : Type 0} → Side → Option Position → Conn → Decision → Fill → Result E Carried
carried_for Side.sell (some position) c decision fill = do
  state ←
      replay fill.id
        (list_fill_context_for_ticker_since c.tables decision.ticker position.opened_at)
        empty_replay
  ok (carried_of state)
carried_for Side.sell none c decision fill = ok (carried_of empty_replay)
carried_for Side.buy position c decision fill = ok (carried_of empty_replay)

abbrev pub stored : Result LedgerError (Unit {0}) × Conn → Result FillsError (Unit {0}) × Conn
stored (ok _, c) = (ok tt, c)
stored (err e, c) = (err (not_stored e), c)
stored (raised x, c) = (raised x, c)

abbrev pub and_then :
    (Conn → Result FillsError (Unit {0}) × Conn)
    → Result FillsError (Unit {0}) × Conn
    → Result FillsError (Unit {0}) × Conn
and_then k (ok _, c) = k c
and_then k (err e, c) = (err e, c)
and_then k (raised x, c) = (raised x, c)

-- the update of the tables
unfoldable pub store_update :
    Decision → Result TradeCloserError PositionUpdate → Sql FillsError (Unit {0})
store_update decision (ok (open_position p)) c = stored (upsert_position p c)
store_update decision (ok (closed_trade t)) c =
    and_then (λ c'. stored (insert_trade t c')) (delete_position decision.ticker c)
store_update decision (err e) c = (err (not_applied e), c)
store_update decision (raised x) c = (raised x, c)

-- `_settle_fill`
unfoldable pub settle_fill : Decision → Fill → Side → Option ExitReason → Sql FillsError (Unit {0})
settle_fill decision fill side exit_reason c =
    let position = get_position c.tables decision.ticker in
    store_update decision
      (carried_for side position c decision fill >>= λ carried.
        apply_fill position fill decision side fill.filled_at exit_reason carried)
      c
