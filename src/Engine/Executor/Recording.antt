-- ===== src/Engine/Executor/Recording.antt =====
-- The order is recorded, and committed, before the broker hears of it.
use kyo_trading_tool.Prelude.{◌≡◌, refl, ◌∙◌, arith, false, snoc}
use kyo_trading_tool.Domain.Result.{Result, ok, err, raised}
use kyo_trading_tool.Domain.Models.{Decision, Approval, Order}
use kyo_trading_tool.Ledger.Db.{Conn, LedgerError, could_not, statement, on_err}
use kyo_trading_tool.Ledger.Db.Transactions.{Atomic, transaction-Atomic}
use kyo_trading_tool.Ledger.Repository.{
  has_approval, has_order, has_client_order, add_decision, add_approval, add_order, insert_decision,
  insert_approval, insert_order,
}
use kyo_trading_tool.Engine.Approval.{ApprovedOrderRequest}
use kyo_trading_tool.Engine.Executor.{
  ExecError, not_recorded, ensure_decision, record_block, record_order,
}

-- Storing the decision touches neither the committed tables nor the approvals and orders.
ensure_decision_keeps :
    (d : Decision) (c : Conn)
    → let (r, c') = ensure_decision d c in
      (c'.committed ≡ c.committed)
      × (c'.tables.approvals ≡ c.tables.approvals)
      × (c'.tables.orders ≡ c.tables.orders)
unfolding ensure_decision insert_decision statement add_decision
ensure_decision_keeps d c = ground arith

-- An approval that goes in was not there, and the orders stay.
insert_approval_keeps :
    (a : Approval) (c : Conn)
    → let (r, c') = insert_approval a c in
      (c'.committed ≡ c.committed)
      × (c'.tables.orders ≡ c.tables.orders)
      × (r ≡ ok tt → has_approval c.tables a.id ≡ false)
unfolding insert_approval statement add_approval
insert_approval_keeps a c = ground arith

-- An order that goes in was not there, by either id, and is there afterwards.
insert_order_keeps :
    (o : Order) (c : Conn)
    → let (r, c') = insert_order o c in
      (c'.committed ≡ c.committed)
      × (r ≡ ok tt
          → (has_order c.tables o.id ≡ false)
            × (has_client_order c.tables o.client_order_id ≡ false)
            × (c'.tables.orders ≡ snoc c.tables.orders o))
unfolding insert_order statement add_order
insert_order_keeps o c = ground arith

module _ (req : ApprovedOrderRequest) (o : Order) (c : Conn) where
  record_block-committed : (record_block req o c).1.committed ≡ c.committed
  unfolding record_block
  record_block-committed =
      let (r, c1) = ensure_decision req.decision c in
      let (r2, c2) = insert_approval req.approval c1 in
      ground (
        arith,
        ensure_decision_keeps req.decision c,
        insert_approval_keeps req.approval c1,
        insert_order_keeps o c2,
      )

  -- The block succeeds only where neither the approval nor the order was there before, and then
  -- the order is there.
  record_block-ok :
      (record_block req o c).0 ≡ ok tt
      → (has_approval c.tables req.approval.id ≡ false)
        × (has_order c.tables o.id ≡ false)
        × (has_client_order c.tables o.client_order_id ≡ false)
        × ((record_block req o c).1.tables.orders ≡ snoc c.tables.orders o)
  unfolding record_block
  record_block-ok h =
      let (r, c1) = ensure_decision req.decision c in
      let (r2, c2) = insert_approval req.approval c1 in
      ground (
        arith,
        ensure_decision_keeps req.decision c,
        insert_approval_keeps req.approval c1,
        insert_order_keeps o c2,
      )

-- What recording has done, by how it ended.
abbrev pub Recorded :
    ApprovedOrderRequest → Order → Conn → Result ExecError (Unit {0}) × Conn → Type 0
Recorded req o c (ok _, c') =
    (has_approval c.tables req.approval.id ≡ false)
    × (has_order c.tables o.id ≡ false)
    × (has_client_order c.tables o.client_order_id ≡ false)
    × (c'.committed.orders ≡ snoc c.tables.orders o)
Recorded req o c (err _, c') = (c'.tables ≡ c.committed) × (c'.committed ≡ c.committed)
Recorded req o c (raised _, c') = (c'.tables ≡ c.committed) × (c'.committed ≡ c.committed)

on_err-ok :
    (m : Result LedgerError (Unit {0}) × Conn) (c : Conn)
    → (on_err not_recorded (λ _. m) c).0 ≡ ok tt
    → (m.0 ≡ ok tt) × ((on_err not_recorded (λ _. m) c).1 ≡ m.1)
on_err-ok (ok _, c') c h = (refl, refl)
on_err-ok (err e, c') c h = cc
on_err-ok (raised x, c') c h = cc

on_err-committed :
    (m : Result LedgerError (Unit {0}) × Conn) (c : Conn)
    → (on_err not_recorded (λ _. m) c).1.committed ≡ m.1.committed
on_err-committed (ok _, c') c = refl
on_err-committed (err e, c') c = refl
on_err-committed (raised x, c') c = refl

Recorded-of_Atomic :
    (req : ApprovedOrderRequest) (o : Order) (c : Conn) (out : Result ExecError (Unit {0}) × Conn)
    → Atomic c (on_err not_recorded (record_block req o) c) out
    → Recorded req o c out
Recorded-of_Atomic req o c (ok tt, c') (done, seen, kept) =
    let (fine, same) = on_err-ok (record_block req o c) c done in
    let (a, b, d, orders) = record_block-ok req o c fine in
    (a, b, d, ground (arith, kept, same, orders))
Recorded-of_Atomic req o c (err e, c') h = h
Recorded-of_Atomic req o c (raised x, c') h = h

-- Recording an order is all or nothing: where it succeeds, the approval's id, the order's id and
-- its client order id were not stored, and the committed orders are the old ones and the new; else
-- the connection is back at the tables that were committed before.
pub record_order-Recorded :
    (req : ApprovedOrderRequest) (o : Order) (c : Conn) → Recorded req o c (record_order req o c)
unfolding record_order
record_order-Recorded req o c = Recorded-of_Atomic req o c (record_order req o c) (
    transaction-Atomic (not_recorded (could_not "commit"))
      (on_err not_recorded (record_block req o)) c
      (on_err-committed (record_block req o c) c ∙ record_block-committed req o c))
