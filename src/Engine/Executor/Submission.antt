-- ===== src/Engine/Executor/Submission.antt =====
-- What `execute` may do to the world outside, and when.
use kyo_trading_tool.Prelude.{
  ◌≡◌, refl, ◌∙◌, ap, arith, ◌⊎◌, inl, inr, Bool, true, false, Option, none, some, snoc, String,
}
use kyo_trading_tool.Domain.Result.{Result, ok, err, raised, is_ok}
use kyo_trading_tool.Domain.Models.{DateTime, Decision, Approval, Order, OrderStatus}
use kyo_trading_tool.Ledger.Db.{Tables, Conn, LedgerError, statement}
use kyo_trading_tool.Ledger.Db.Transactions.{KeepsCommitted, statement-KeepsCommitted}
use kyo_trading_tool.Ledger.Repository.{
  has_approval, has_order, has_client_order, update_order_status, update_orders, check_rowcount,
  find_valid_approval,
}
use kyo_trading_tool.Ledger.Repository.Rows.{find_valid_approval-has_approval}
use kyo_trading_tool.Broker.{Broker, BrokerOrder, BrokerError, Clock}
use kyo_trading_tool.Market.{MarketClock}
use kyo_trading_tool.Config.{TradingMode}
use kyo_trading_tool.Engine.Approval.{
  ApprovedOrderRequest, order_id_of, resolve_approval, approval_for, live_approval, make,
}
use kyo_trading_tool.Engine.Executor.{
  ExecError, new_order, record_order, execute, submit, order_request, after_answer, when_recorded,
  after_update, mark_failed, mark_submitted,
}
use kyo_trading_tool.Engine.Executor.Recording.{Recorded, record_order-Recorded}

check_rowcount-committed :
    (e : LedgerError) (found : Bool) (x : Result LedgerError (Unit {0}) × Conn)
    → (check_rowcount e found x).1.committed ≡ x.1.committed
unfolding check_rowcount
check_rowcount-committed e found (ok _, c) = refl
check_rowcount-committed e found (err _, c) = refl
check_rowcount-committed e found (raised _, c) = refl

after_update-committed :
    (r : Result ExecError Order) (x : Result LedgerError (Unit {0}) × Conn)
    → (after_update r x).1.committed ≡ x.1.committed
unfolding after_update
after_update-committed r (ok _, c) = refl
after_update-committed r (err _, c) = refl
after_update-committed r (raised _, c) = refl

update_order_status-KeepsCommitted :
    (id : String) (st : OrderStatus) (e b : Option String) (at : Option DateTime)
    → KeepsCommitted (update_order_status id st e b at)
unfolding update_order_status
update_order_status-KeepsCommitted id st e b at c =
    check_rowcount-committed _ _ (statement _ (update_orders id st e b at) c)
    ∙ statement-KeepsCommitted _ (update_orders id st e b at) c

mark_failed-KeepsCommitted : (o : Order) (m : BrokerError) → KeepsCommitted (mark_failed o m)
unfolding mark_failed
mark_failed-KeepsCommitted o m c =
    after_update-committed _ (update_order_status o.id OrderStatus.failed (some m) none none c)
    ∙ update_order_status-KeepsCommitted o.id OrderStatus.failed (some m) none none c

mark_submitted-KeepsCommitted :
    (o : Order) (b : BrokerOrder) (t : DateTime) → KeepsCommitted (mark_submitted o b t)
unfolding mark_submitted
mark_submitted-KeepsCommitted o b t c =
    after_update-committed _
      (update_order_status o.id OrderStatus.submitted none (some b.broker_order_id) (some t) c)
    ∙ update_order_status-KeepsCommitted o.id OrderStatus.submitted none (some b.broker_order_id)
        (some t) c

-- The call did not reach the broker: the world is as it was, the connection is back at the tables
-- that were committed, and the caller is told.
abbrev pub NotSent : {S : Type 0} → Conn → S → Result ExecError Order × Conn × S → Type 0
NotSent c s (r, c', s') =
    (is_ok r ≡ false) × (s' ≡ s) × (c'.tables ≡ c.committed) × (c'.committed ≡ c.committed)

-- The approval and the order were new, and the order is committed in the state `recorded`.
abbrev pub SentOnRecord :
    {S : Type 0}
    → Conn
    → ApprovedOrderRequest
    → TradingMode
    → Result ExecError Order × Conn × S
    → Type 0
SentOnRecord c req mode (r, c', s') =
    (has_approval c.tables req.approval.id ≡ false)
    × (has_order c.tables (order_id_of req.decision) ≡ false)
    × (has_client_order c.tables req.client_order_id ≡ false)
    × (c'.committed.orders ≡ snoc c.tables.orders (new_order req mode))

live_approval-found :
    (d : Decision) (o : Option Approval) (a : Approval) → live_approval d o ≡ ok a → o ≡ some a
unfolding live_approval
live_approval-found d none a h = cc
live_approval-found d (some b) a h = ground arith

resolve_live-found :
    (d : Decision) (t : Tables) (now : DateTime) (market_clock : MarketClock) (uuid : String)
    (req : ApprovedOrderRequest)
    → resolve_approval d TradingMode.live t now market_clock uuid ≡ ok req
    → live_approval d (find_valid_approval t d.id now) ≡ ok req.approval
unfolding resolve_approval approval_for make
resolve_live-found d t now market_clock uuid req h = ground arith

live_approval_stored :
    (d : Decision) (t : Tables) (now : DateTime) (market_clock : MarketClock) (uuid : String)
    (req : ApprovedOrderRequest)
    → resolve_approval d TradingMode.live t now market_clock uuid ≡ ok req
    → has_approval t req.approval.id ≡ true
live_approval_stored d t now market_clock uuid req h =
    find_valid_approval-has_approval t d.id now req.approval (
      live_approval-found d (find_valid_approval t d.id now) req.approval
        (resolve_live-found d t now market_clock uuid req h))

module _ {S : Type 0} (broker : Broker S) (clock : Clock S) where
  sent-committed :
      (o : Order) (c : Conn) (x : Result BrokerError BrokerOrder × S)
      → (after_answer broker clock o c x).1.committed ≡ c.committed
  unfolding after_answer
  sent-committed o c (ok b, s) = mark_submitted-KeepsCommitted o b (clock.now s) c
  sent-committed o c (err m, s) = mark_failed-KeepsCommitted o m c
  sent-committed o c (raised x, s) = refl

  after_record :
      (req : ApprovedOrderRequest) (mode : TradingMode) (c : Conn) (s : S)
      (x : Result ExecError (Unit {0}) × Conn)
      → Recorded req (new_order req mode) c x
      → NotSent c s (when_recorded broker clock req (new_order req mode) s x)
        ⊎ SentOnRecord c req mode (when_recorded broker clock req (new_order req mode) s x)
  unfolding when_recorded new_order submit
  after_record req mode c s (ok tt, c') (a, b, d, orders) = inr (
    a,
    b,
    d,
    ap (λ (t : Tables). t.orders)
          (sent-committed (new_order req mode) c'
            (broker.submit_market_order (order_request req) s))
        ∙ orders,
  )
  after_record req mode c s (err e, c') h = inl (refl, refl, h.0, h.1)
  after_record req mode c s (raised e, c') h = inl (refl, refl, h.0, h.1)

  -- Either the broker is not called at all (the world outside is unchanged, everything since the
  -- last commit is rolled back and the result is no success), or the approval and the order ids
  -- were new and the order stands committed in state `recorded`, whatever the broker answers.
  pub execute-records_first :
      (req : ApprovedOrderRequest) (mode : TradingMode) (c : Conn) (s : S)
      → NotSent c s (execute broker clock req mode c s)
        ⊎ SentOnRecord c req mode (execute broker clock req mode c s)
  unfolding execute
  execute-records_first req mode c s =
      after_record req mode c s (record_order req (new_order req mode) c)
        (record_order-Recorded req (new_order req mode) c)

  -- A live order that `resolve_approval` has approved on the connection's tables is never sent by
  -- `execute` on that connection: the broker is not called, and the result is no success.
  pub execute-live_never_sent :
      (decision : Decision) (c : Conn) (now : DateTime) (market_clock : MarketClock) (uuid : String)
      (req : ApprovedOrderRequest) (s : S)
      → resolve_approval decision TradingMode.live c.tables now market_clock uuid ≡ ok req
      → NotSent c s (execute broker clock req TradingMode.live c s)
  execute-live_never_sent decision c now market_clock uuid req s h =
      let stored = live_approval_stored decision c.tables now market_clock uuid req h in
      elim (execute-records_first req TradingMode.live c s) [
        | inl unsent ↦ unsent
        | inr sent ↦ cc (sent.0, stored)
      ]
