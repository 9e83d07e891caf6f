-- ===== src/Engine/Fills/Polling.antt =====
-- `poll_and_settle` of src/trader/engine/fills.py, on fuel: one unit for each poll.
pub mod Termination
pub mod Rows
pub mod Recorded
use Prim.Native.String.{◌++◌}
use kyo_trading_tool.Prelude.{
  ℕ, zero, suc, ◌+◌, ◌-◌, ltb, leb, ◌==◌, Bool, true, false, ◌&&◌, ◌||◌, Option, none, some, List,
  [], ◌∷◌, String, if◌then◌else◌,
}
use kyo_trading_tool.Domain.Result.{Result, ok, err, raised}
use kyo_trading_tool.Domain.Decimal.{Decimal, of_ℕ, add, mul, quot}
use kyo_trading_tool.Domain.Money.{
  Money, Price, amount, price_amount, money, price, zero_money, ◌-$◌,
}
use kyo_trading_tool.Domain.Models.{
  DateTime, Quantity, ExitReason, Side, OrderStatus, Decision, Fill,
}
use kyo_trading_tool.Rules.Loss.{is_positive}
use kyo_trading_tool.Ledger.Db.{Conn, LedgerError}
use kyo_trading_tool.Ledger.Repository.{insert_fill, list_fills, update_order_status}
use kyo_trading_tool.Broker.{Broker, BrokerError, BrokerOrder, Clock, Uuids}
use kyo_trading_tool.Engine.Fills.{
  FillsError, not_stored, not_polled, PollOutcome, stored, and_then, settle_fill,
}

-- what one poll adds to the record
pub record NewFill : Type 0 where
  pub new_qty : ℕ
  pub cumulative_notional : Money
  pub delta_price : Price

-- a fill is recorded for new shares that have a price and whose notional has grown
unfoldable pub new_fill_at : ℕ → Money → ℕ → Option Price → Option NewFill
new_fill_at recorded_qty recorded_notional filled none = none
new_fill_at recorded_qty recorded_notional filled (some avg) =
    let new_qty = filled - recorded_qty in
    let cumulative_notional = money (mul (price_amount avg) (of_ℕ filled)) in
    let delta_notional = cumulative_notional -$ recorded_notional in
    if ltb recorded_qty filled && is_positive delta_notional
    then some (record {
      new_qty = new_qty;
      cumulative_notional = cumulative_notional;
      delta_price = price (quot (amount delta_notional) (of_ℕ new_qty));
    })
    else none

-- `_TERMINAL_STATUSES`
abbrev pub is_terminal : OrderStatus → Bool
is_terminal OrderStatus.filled = true
is_terminal OrderStatus.canceled = true
is_terminal OrderStatus.rejected = true
is_terminal _ = false

status_number : OrderStatus → ℕ
status_number OrderStatus.recorded = 0
status_number OrderStatus.submitted = 1
status_number OrderStatus.partially_filled = 2
status_number OrderStatus.filled = 3
status_number OrderStatus.canceled = 4
status_number OrderStatus.rejected = 5
status_number OrderStatus.failed = 6

unfoldable pub same_status : OrderStatus → OrderStatus → Bool
unfolding status_number
same_status a b = status_number a == status_number b

-- the variables of the loop
pub record Poll : Type 0 where
  pub recorded_qty : ℕ
  pub recorded_notional : Money
  pub fills_recorded : ℕ
  pub last_status : OrderStatus
  pub elapsed : ℕ

-- `sum(f.qty.shares for f in fills)`
unfoldable pub total_shares : List Fill → ℕ
total_shares [] = 0
total_shares (f ∷ fs) = f.qty.shares + total_shares fs

-- `sum((f.price.amount * f.qty.shares for f in fills), start=total)`
unfoldable pub sum_notional : Decimal → List Fill → Decimal
sum_notional total [] = total
sum_notional total (f ∷ fs) =
    sum_notional (add total (mul (price_amount f.price) (of_ℕ f.qty.shares))) fs

unfoldable pub start_poll : List Fill → Poll
start_poll existing_fills = record {
  recorded_qty = total_shares existing_fills;
  recorded_notional = money (sum_notional (of_ℕ 0) existing_fills);
  fills_recorded = 0;
  last_status = OrderStatus.submitted;
  elapsed = 0;
}

unfoldable pub fill_row : String → String → DateTime → NewFill → Fill
fill_row uuid order_id now n = record {
  id = "fill_" ++ uuid;
  order_id = order_id;
  filled_at = now;
  qty = record { shares = n.new_qty };
  price = n.delta_price;
  fee = zero_money;
}

-- record the fill, then settle it
unfoldable pub store_fill :
    Fill → Decision → Side → Option ExitReason → Conn → Result FillsError (Unit {0}) × Conn
store_fill fill decision side exit_reason c =
    and_then (settle_fill decision fill side exit_reason) (stored (insert_fill fill c))

-- the loop's variables after a fill was stored
abbrev pub advance : Poll → BrokerOrder → NewFill → Poll
advance p b n = record p {
  recorded_qty = b.filled_qty.shares;
  recorded_notional = n.cumulative_notional;
  fills_recorded = p.fills_recorded + 1;
}

-- the value that a success yields
abbrev pub yield :
    {A : Type 0} → A → Result FillsError (Unit {0}) × Conn → Result FillsError A × Conn
yield a (ok _, c) = (ok a, c)
yield a (err e, c) = (err e, c)
yield a (raised x, c) = (raised x, c)

-- the status of the order, if it differs from the last one seen
unfoldable pub note_status : String → BrokerOrder → Poll → Conn → Result FillsError Poll × Conn
note_status order_id b p c =
    if same_status b.status p.last_status
    then (ok p, c)
    else yield (record p { last_status = b.status })
        (stored (update_order_status order_id b.status none (some b.broker_order_id) none c))

abbrev pub and_note :
    String → BrokerOrder → Result FillsError Poll × Conn → Result FillsError Poll × Conn
and_note order_id b (ok p, c) = note_status order_id b p c
and_note order_id b (err e, c) = (err e, c)
and_note order_id b (raised x, c) = (raised x, c)

-- the world outside, as the engine reaches it
pub record Outside (S : Type 0) : Type 0 where
  pub broker : Broker S
  pub clock : Clock S
  pub uuids : Uuids S

-- the arguments of `poll_and_settle` that do not change
pub record Job : Type 0 where
  pub client_order_id : String
  pub order_id : String
  pub decision : Decision
  pub side : Side
  pub exit_reason : Option ExitReason
  pub poll_timeout_s : ℕ
  pub poll_interval_s : ℕ

module _ {S : Type 0} (out : Outside S) (job : Job) where
  -- record what the poll has shown to be new
  unfoldable pub record_new :
      BrokerOrder → Poll → Option NewFill → Conn → S → (Result FillsError Poll × Conn) × S
  record_new b p none c s = ((ok p, c), s)
  record_new b p (some n) c s =
      let (uuid, s') = out.uuids.uuid4_hex s in
      let fill = fill_row uuid job.order_id (out.clock.now s') n in
      (yield (advance p b n) (store_fill fill job.decision job.side job.exit_reason c), s')

  -- the body of the loop up to its exits, for the broker's answer
  unfoldable pub on_answer :
      Poll
      → Conn
      → Result BrokerError BrokerOrder × S
      → (Result FillsError Poll × Conn) × OrderStatus × S
  on_answer p c (ok b, s) =
      let (r, s') =
        record_new b p
          (new_fill_at p.recorded_qty p.recorded_notional b.filled_qty.shares b.filled_avg_price) c
          s in
      (and_note job.order_id b r, b.status, s')
  on_answer p c (err m, s) = ((err (not_polled m), c), p.last_status, s)
  on_answer p c (raised x, s) = ((raised x, c), p.last_status, s)

  -- what the call returns at an exit
  abbrev pub outcome : Poll → OrderStatus → Result FillsError PollOutcome
  outcome p status = ok (record { fills_recorded = p.fills_recorded; final_status = status })

  -- the exits: a terminal status, the timeout, an error; else sleep and go on
  unfoldable pub decide :
      (Poll → Conn → S → Option (Result FillsError PollOutcome × Conn × S))
      → (Result FillsError Poll × Conn) × OrderStatus × S
      → Option (Result FillsError PollOutcome × Conn × S)
  decide continue ((ok p, c), status, s) =
      let rest =
        continue (record p { elapsed = p.elapsed + job.poll_interval_s }) c
          (out.clock.sleep job.poll_interval_s s) in
      if is_terminal status
      then some (outcome p status, c, s)
      else if leb job.poll_timeout_s p.elapsed
      then some (outcome p p.last_status, c, s)
      else rest
  decide continue ((err e, c), status, s) = some (err e, c, s)
  decide continue ((raised x, c), status, s) = some (raised x, c, s)

  -- `while True`; `none` means that the fuel ran out
  unfoldable pub poll_loop : ℕ → Poll → Conn → S → Option (Result FillsError PollOutcome × Conn × S)
  poll_loop zero p c s = none
  poll_loop (suc fuel) p c s =
      decide (poll_loop fuel) (on_answer p c (out.broker.get_order job.client_order_id s))

  -- enough fuel for an interval of one second or more
  abbrev pub poll_fuel : ℕ
  poll_fuel = job.poll_timeout_s + 1

  unfoldable pub poll_and_settle : Conn → S → Option (Result FillsError PollOutcome × Conn × S)
  poll_and_settle c s = poll_loop poll_fuel (start_poll (list_fills c.tables job.order_id)) c s
