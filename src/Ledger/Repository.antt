-- ===== src/Ledger/Repository.antt =====
-- src/trader/ledger/repository.py: decisions, approvals, orders and fills. A row is kept as the
-- record it is read back as; that its text form reads back is not modelled.
pub mod Rows
use Prim.Native.Nat.{Ordering}
use Prim.Native.String.{compare}
use kyo_trading_tool.Prelude.{
  ltb, leb, ◌==◌, Bool, true, false, not, ◌&&◌, ◌||◌, Option, none, some, coalesce, List, [], ◌∷◌,
  snoc, find, keep, any, String, str_eq, if◌then◌else◌,
}
use kyo_trading_tool.Domain.Result.{Result, ok, err, raised}
use kyo_trading_tool.Domain.Models.{DateTime, Side, OrderStatus, Decision, Approval, Order, Fill}
use kyo_trading_tool.Ledger.Db.{
  Conn, Tables, Cycle, Sql, LedgerError, could_not, no_such, statement, ◌>>=◌,
}

-- a stable sort, for ORDER BY; `before a b` lets `a` stand in front of `b`
unfoldable pub insert_by {ℓ} : {A : Type ℓ} → (A → A → Bool) → A → List A → List A
insert_by before a [] = a ∷ []
insert_by before a (b ∷ bs) =
    let rest = insert_by before a bs in if before a b then a ∷ b ∷ bs else b ∷ rest

unfoldable pub sort_by {ℓ} : {A : Type ℓ} → (A → A → Bool) → List A → List A
unfolding insert_by
sort_by before [] = []
sort_by before (a ∷ rest) = insert_by before a (sort_by before rest)

-- the rows that hold a key
abbrev pub has_decision : Tables → String → Bool
has_decision t id = any (λ (d : Decision). str_eq d.id id) t.decisions

abbrev pub has_approval : Tables → String → Bool
has_approval t id = any (λ (a : Approval). str_eq a.id id) t.approvals

abbrev pub has_order : Tables → String → Bool
has_order t id = any (λ (o : Order). str_eq o.id id) t.orders

abbrev pub has_client_order : Tables → String → Bool
has_client_order t id = any (λ (o : Order). str_eq o.client_order_id id) t.orders

abbrev pub has_cycle : Tables → String → Bool
has_cycle t id = any (λ (c : Cycle). str_eq c.id id) t.cycles

-- INSERT INTO decisions: PRIMARY KEY id, REFERENCES cycles and rule_sets
unfoldable pub add_decision : Decision → Tables → Option Tables
add_decision d t =
    if has_decision t d.id
      || not (has_cycle t d.cycle_id)
      || not (any (str_eq d.rule_set_sha256) t.rule_sets)
    then none
    else some (record t { decisions = snoc t.decisions d })

unfoldable pub insert_decision : Decision → Sql LedgerError (Unit {0})
unfolding statement add_decision
insert_decision d = statement (could_not "insert decision") (add_decision d)

-- INSERT INTO approvals: PRIMARY KEY id, REFERENCES decisions
unfoldable pub add_approval : Approval → Tables → Option Tables
add_approval a t =
    if has_approval t a.id || not (has_decision t a.decision_id)
    then none
    else some (record t { approvals = snoc t.approvals a })

unfoldable pub insert_approval : Approval → Sql LedgerError (Unit {0})
unfolding statement add_approval
insert_approval a = statement (could_not "insert approval") (add_approval a)

-- INSERT INTO orders: PRIMARY KEY id, UNIQUE client_order_id, REFERENCES decisions and approvals
unfoldable pub add_order : Order → Tables → Option Tables
add_order o t =
    if has_order t o.id
      || has_client_order t o.client_order_id
      || not (has_decision t o.decision_id)
      || not (has_approval t o.approval_id)
    then none
    else some (record t { orders = snoc t.orders o })

unfoldable pub insert_order : Order → Sql LedgerError (Unit {0})
unfolding statement add_order
insert_order o = statement (could_not "insert order") (add_order o)

-- the columns that `update_order_status` sets
unfoldable pub set_status :
    OrderStatus → Option String → Option String → Option DateTime → Order → Order
set_status status last_error broker_order_id submitted_at o = record o {
  status = status;
  last_error = coalesce last_error o.last_error;
  broker_order_id = coalesce broker_order_id o.broker_order_id;
  submitted_at = coalesce submitted_at o.submitted_at;
}

-- UPDATE orders SET ... WHERE id = ?
unfoldable pub update_order : String → (Order → Order) → List Order → List Order
update_order id f [] = []
update_order id f (o ∷ os) = (if str_eq o.id id then f o else o) ∷ update_order id f os

-- `if cursor.rowcount == 0`: no row was found, and none has changed
unfoldable pub check_rowcount :
    LedgerError → Bool → Result LedgerError (Unit {0}) × Conn → Result LedgerError (Unit {0}) × Conn
check_rowcount missing found (ok _, c) = (if found then ok tt else err missing, c)
check_rowcount missing found (err e, c) = (err e, c)
check_rowcount missing found (raised x, c) = (raised x, c)

-- the change that the UPDATE makes
unfoldable pub update_orders :
    String → OrderStatus → Option String → Option String → Option DateTime → Tables → Option Tables
unfolding set_status update_order
update_orders id status last_error broker_order_id submitted_at t = some (record t {
  orders = update_order id (set_status status last_error broker_order_id submitted_at) t.orders;
})

unfoldable pub update_order_status :
    String
    → OrderStatus
    → Option String
    → Option String
    → Option DateTime
    → Sql LedgerError (Unit {0})
update_order_status id status last_error broker_order_id submitted_at c =
    check_rowcount (no_such "order" id) (has_order c.tables id) (
      statement (could_not "update order")
        (update_orders id status last_error broker_order_id submitted_at) c)

-- INSERT INTO fills: PRIMARY KEY id, REFERENCES orders
unfoldable pub add_fill : Fill → Tables → Option Tables
add_fill f t =
    if any (λ (g : Fill). str_eq g.id f.id) t.fills || not (has_order t f.order_id)
    then none
    else some (record t { fills = snoc t.fills f })

unfoldable pub insert_fill : Fill → Sql LedgerError (Unit {0})
unfolding statement add_fill
insert_fill f = statement (could_not "insert fill") (add_fill f)

unfoldable pub list_fills : Tables → String → List Fill
unfolding sort_by
list_fills t order_id =
    sort_by (λ (f g : Fill). leb f.filled_at g.filled_at)
      (keep (λ (f : Fill). str_eq f.order_id order_id) t.fills)

-- newest first
abbrev pub decided_later : Decision → Decision → Bool
decided_later d e = leb e.decided_at d.decided_at

unfoldable pub list_decisions : Tables → Option String → List Decision
unfolding sort_by
list_decisions t none = sort_by decided_later t.decisions
list_decisions t (some cycle_id) =
    sort_by decided_later (keep (λ (d : Decision). str_eq d.cycle_id cycle_id) t.decisions)

-- ORDER BY COALESCE(submitted_at, '') ASC, id ASC: an order without a time comes first
abbrev pub by_id : Order → Order → Bool
by_id o p = elim (compare o.id p.id) [ Ordering.gt ↦ false | _ ↦ true ]

abbrev pub submitted_before : Order → Order → Option DateTime → Option DateTime → Bool
submitted_before o p none none = by_id o p
submitted_before o p none (some b) = true
submitted_before o p (some a) none = false
submitted_before o p (some a) (some b) = if a == b then by_id o p else ltb a b

unfoldable pub list_orders : Tables → List Order
unfolding sort_by
list_orders t =
    sort_by (λ (o p : Order). submitted_before o p o.submitted_at p.submitted_at) t.orders

unfoldable pub list_all_fills : Tables → List Fill
unfolding sort_by
list_all_fills t = sort_by (λ (f g : Fill). leb f.filled_at g.filled_at) t.fills

unfoldable pub get_order : Tables → String → Option Order
get_order t id = find (λ (o : Order). str_eq o.id id) t.orders

unfoldable pub get_decision : Tables → String → Option Decision
get_decision t id = find (λ (d : Decision). str_eq d.id id) t.decisions

-- ORDER BY approved_at DESC, and the first that has not expired
unfoldable pub find_valid_approval : Tables → String → DateTime → Option Approval
unfolding sort_by
find_valid_approval t decision_id now =
    find (λ a. ltb now a.expires_at)
      (sort_by (λ (a b : Approval). leb b.approved_at a.approved_at)
        (keep (λ (a : Approval). str_eq a.decision_id decision_id) t.approvals))

pub record FillContext : Type 0 where
  pub fill : Fill
  pub side : Side
  pub decision_id : String

-- one fill joined to its order and its decision
unfoldable pub join_fill : Tables → String → DateTime → Fill → Option FillContext
unfolding get_order get_decision
join_fill t ticker since f = elim (get_order t f.order_id) [
  | none ↦ none
  | some o ↦ elim (get_decision t o.decision_id) [
    | none ↦ none
    | some d ↦
        if str_eq d.ticker ticker && leb since f.filled_at
        then some (record { fill = f; side = o.side; decision_id = o.decision_id })
        else none
  ]
]

unfoldable pub collect {ℓ κ} : {A : Type ℓ} {B : Type κ} → (A → Option B) → List A → List B
collect f [] = []
collect f (a ∷ more) = let rest = collect f more in elim (f a) [ none ↦ rest | some b ↦ b ∷ rest ]

unfoldable pub list_fill_context_for_ticker_since : Tables → String → DateTime → List FillContext
unfolding sort_by join_fill collect
list_fill_context_for_ticker_since t ticker since =
    sort_by (λ (c d : FillContext). leb c.fill.filled_at d.fill.filled_at)
      (collect (join_fill t ticker since) t.fills)
