-- ===== src/Engine/Executor.antt =====
-- src/trader/engine/order_executor.py: record the order, then submit it.
pub mod Recording
pub mod Submission
use kyo_trading_tool.Prelude.{none, some}
use kyo_trading_tool.Domain.Result.{Result, ok, err, raised}
use kyo_trading_tool.Domain.Models.{DateTime, Decision, Order, OrderStatus}
use kyo_trading_tool.Ledger.Db.{Conn, Sql, LedgerError, could_not, transaction, on_err, ◌>>◌}
use kyo_trading_tool.Ledger.Repository.{
  get_decision, insert_decision, insert_approval, insert_order, update_order_status,
}
use kyo_trading_tool.Broker.{Broker, BrokerError, BrokerOrder, OrderRequest, Clock}
use kyo_trading_tool.Config.{TradingMode, mode_value}
use kyo_trading_tool.Engine.Approval.{ApprovedOrderRequest, order_id_of}

-- `ExecError`: what failed, with its message
pub data ExecError : Type 0 where
  not_recorded : LedgerError → ExecError
  not_submitted : BrokerError → ExecError
  not_updated : LedgerError → ExecError

unfoldable pub new_order : ApprovedOrderRequest → TradingMode → Order
new_order req mode = record {
  id = order_id_of req.decision;
  decision_id = req.decision.id;
  approval_id = req.approval.id;
  client_order_id = req.client_order_id;
  broker_order_id = none;
  mode = mode_value mode;
  side = req.side;
  qty = req.qty;
  order_type = "market";
  status = OrderStatus.recorded;
  submitted_at = none;
  last_error = none;
}

-- a decision that is stored already is not inserted again
unfoldable pub ensure_decision : Decision → Sql LedgerError (Unit {0})
unfolding insert_decision
ensure_decision decision c = elim (get_decision c.tables decision.id) [
  | none ↦ insert_decision decision c
  | some d ↦ (ok tt, c)
]

-- the block of the transaction: the decision, the approval and the order
unfoldable pub record_block : ApprovedOrderRequest → Order → Sql LedgerError (Unit {0})
unfolding ensure_decision insert_approval insert_order
record_block req order = do
  ensure_decision req.decision
  insert_approval req.approval
  insert_order order

unfoldable pub record_order : ApprovedOrderRequest → Order → Sql ExecError (Unit {0})
record_order req order =
    transaction (not_recorded (could_not "commit")) (on_err not_recorded (record_block req order))

unfoldable pub order_request : ApprovedOrderRequest → OrderRequest
order_request req = record {
  client_order_id = req.client_order_id;
  ticker = req.decision.ticker;
  side = req.side;
  qty = req.qty;
}

-- after the status update: what the call returns, unless the update failed
unfoldable pub after_update :
    Result ExecError Order → Result LedgerError (Unit {0}) × Conn → Result ExecError Order × Conn
after_update result (ok _, c) = (result, c)
after_update result (err e, c) = (err (not_updated e), c)
after_update result (raised x, c) = (raised x, c)

-- the broker refused: the order is marked `failed`, and never submitted again
unfoldable pub mark_failed : Order → BrokerError → Sql ExecError Order
mark_failed order message c =
    after_update (err (not_submitted message))
      (update_order_status order.id OrderStatus.failed (some message) none none c)

-- the broker took the order
unfoldable pub mark_submitted : Order → BrokerOrder → DateTime → Sql ExecError Order
mark_submitted order broker_order submitted_at c =
    after_update
      (ok (record order {
        status = OrderStatus.submitted;
        broker_order_id = some broker_order.broker_order_id;
        submitted_at = some submitted_at;
      }))
      (update_order_status order.id OrderStatus.submitted none (some broker_order.broker_order_id)
        (some submitted_at) c)

module _ {S : Type 0} (broker : Broker S) (clock : Clock S) where
  -- after the broker's answer
  unfoldable pub after_answer :
      Order → Conn → Result BrokerError BrokerOrder × S → Result ExecError Order × Conn × S
  after_answer order c (ok broker_order, s) =
      let (q, c') = mark_submitted order broker_order (clock.now s) c in (q, c', s)
  after_answer order c (err message, s) = let (q, c') = mark_failed order message c in (q, c', s)
  after_answer order c (raised x, s) = (raised x, c, s)

  unfoldable pub submit :
      ApprovedOrderRequest → Order → Conn → S → Result ExecError Order × Conn × S
  submit req order c s = after_answer order c (broker.submit_market_order (order_request req) s)

  -- only a recorded order is submitted
  unfoldable pub when_recorded :
      ApprovedOrderRequest
      → Order
      → S
      → Result ExecError (Unit {0}) × Conn
      → Result ExecError Order × Conn × S
  when_recorded req order s (ok _, c) = submit req order c s
  when_recorded req order s (err e, c) = (err e, c, s)
  when_recorded req order s (raised x, c) = (raised x, c, s)

  unfoldable pub execute :
      ApprovedOrderRequest → TradingMode → Conn → S → Result ExecError Order × Conn × S
  execute req mode c s =
      let order = new_order req mode in when_recorded req order s (record_order req order c)
