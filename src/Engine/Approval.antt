-- ===== src/Engine/Approval.antt =====
-- src/trader/engine/approval.py: how a decision that passed the rules becomes an order request.
-- The token that keeps other modules from building one has no part in the model.
pub mod Sizing
use Prim.Native.String.{◌++◌}
use kyo_trading_tool.Prelude.{
  zero, suc, Bool, true, false, Option, none, some, String, ℤ, pos, negsuc, if◌then◌else◌,
}
use kyo_trading_tool.Domain.Result.{Result, ok, err, raised, ◌>>=◌}
use kyo_trading_tool.Domain.Decimal.{Decimal, of_ℕ, add, quot, floor, leb_dec}
use kyo_trading_tool.Domain.Money.{Money, Price, amount, price_amount}
use kyo_trading_tool.Domain.Models.{
  DateTime, Quantity, Action, Approval, Approver, Decision, Side, is_passed,
}
use kyo_trading_tool.Ledger.Db.{Tables, Sql, LedgerError, could_not, commit, ◌>>=◌ as sql_bind}
use kyo_trading_tool.Ledger.Repository.{find_valid_approval, get_decision, insert_approval}
use kyo_trading_tool.Market.{MarketClock}
use kyo_trading_tool.Config.{TradingMode}

-- `ApprovalError`, one constructor for each message
pub data ApprovalError : Type 0 where
  not_passed : String → ApprovalError
  not_buy_or_sell : String → Action → ApprovalError
  no_size : String → ApprovalError
  price_not_positive : String → ApprovalError
  zero_shares : String → ApprovalError
  no_valid_approval : String → ApprovalError
  not_from_kyo : String → ApprovalError
  no_such_decision : String → ApprovalError
  could_not_record : LedgerError → ApprovalError

pub record ApprovedOrderRequest : Type 0 where
  pub decision : Decision
  pub approval : Approval
  pub side : Side
  pub qty : Quantity
  pub client_order_id : String

-- f"order_{decision.id}"
abbrev pub order_id_of : Decision → String
order_id_of decision = "order_" ++ decision.id

unfoldable pub make : Decision → Approval → Side → Quantity → ApprovedOrderRequest
make decision approval side qty = record {
  decision = decision;
  approval = approval;
  side = side;
  qty = qty;
  client_order_id = order_id_of decision;
}

unfoldable pub side_of : String → Action → Result ApprovalError Side
side_of id Action.buy = ok Side.buy
side_of id Action.sell = ok Side.sell
side_of id Action.hold = err (not_buy_or_sell id Action.hold)
side_of id Action.skip = err (not_buy_or_sell id Action.skip)

-- `_order_side`
abbrev pub order_side : Decision → Result ApprovalError Side
order_side decision = side_of decision.id decision.action

-- Decimal("0.005")
abbrev pub half_cent : Decimal
half_cent = record { num = pos 5; below = 999 }

-- `int(((notional + _HALF_CENT) / price).to_integral_value(rounding=ROUND_FLOOR))`
unfoldable pub shares_for : Money → Price → ℤ
shares_for notional price = floor (quot (add (amount notional) half_cent) (price_amount price))

-- `if shares <= 0` and the quantity
unfoldable pub to_qty : String → ℤ → Result ApprovalError Quantity
to_qty id (pos zero) = err (zero_shares id)
to_qty id (pos (suc n)) = ok (record { shares = suc n })
to_qty id (negsuc n) = err (zero_shares id)

unfoldable pub size_order : String → Option Money → Option Price → Result ApprovalError Quantity
size_order id none p = err (no_size id)
size_order id (some m) none = err (no_size id)
size_order id (some notional) (some price) =
    if leb_dec (price_amount price) (of_ℕ 0)
    then err (price_not_positive id)
    else to_qty id (shares_for notional price)

-- `_order_qty`
abbrev pub order_qty : Decision → Result ApprovalError Quantity
order_qty decision = size_order decision.id decision.proposed_notional decision.reference_price

-- the approval of a paper order, with the id that `uuid4` gives
unfoldable pub system_approval : String → Decision → DateTime → MarketClock → Approval
system_approval id decision now market_clock = record {
  id = id;
  decision_id = decision.id;
  approver = Approver.system;
  approved_at = now;
  expires_at = market_clock.next_close;
}

abbrev pub is_kyo : Approver → Bool
is_kyo Approver.kyo = true
is_kyo Approver.system = false

-- a live order needs an approval by kyo that has not expired
unfoldable pub live_approval : Decision → Option Approval → Result ApprovalError Approval
live_approval decision none = err (no_valid_approval decision.id)
live_approval decision (some a) = if is_kyo a.approver then ok a else err (not_from_kyo decision.id)

unfoldable pub approval_for :
    TradingMode
    → Decision
    → Tables
    → DateTime
    → MarketClock
    → String
    → Result ApprovalError Approval
approval_for TradingMode.paper decision tables now market_clock uuid =
    ok (system_approval uuid decision now market_clock)
approval_for TradingMode.live decision tables now market_clock uuid =
    live_approval decision (find_valid_approval tables decision.id now)

-- `uuid` is f"appr_{uuid.uuid4().hex}"
unfoldable pub resolve_approval :
    Decision
    → TradingMode
    → Tables
    → DateTime
    → MarketClock
    → String
    → Result ApprovalError ApprovedOrderRequest
resolve_approval decision mode tables now market_clock uuid =
    if is_passed decision.rule_check
    then (do
      side ← order_side decision
      qty ← order_qty decision
      approval ← approval_for mode decision tables now market_clock uuid
      ok (make decision approval side qty))
    else err (not_passed decision.id)

-- the approval that `trader approve` records
unfoldable pub kyo_approval : String → String → DateTime → MarketClock → Approval
kyo_approval uuid decision_id now market_clock = record {
  id = uuid;
  decision_id = decision_id;
  approver = Approver.kyo;
  approved_at = now;
  expires_at = market_clock.next_close;
}

abbrev pub approval_stored :
    Approval → Result LedgerError (Unit {0}) → Result ApprovalError Approval
approval_stored a (ok _) = ok a
approval_stored a (err e) = err (could_not_record e)
approval_stored a (raised x) = raised x

-- `with transaction(conn) as tx:` around the insert. An `Err` of the insert is returned from inside
-- the block, so the block commits also then; a commit that fails is caught.
unfoldable pub store_approval : Approval → Sql ApprovalError Approval
unfolding commit insert_approval
store_approval approval c =
    let (r, c') = insert_approval approval c in
    let (q, c'') = commit (could_not_record (could_not "record approval")) tt c' in
    elim q [
      | ok _ ↦ (approval_stored approval r, c'')
      | err e ↦ (err e, c'')
      | raised x ↦ (raised x, c'')
    ]

unfoldable pub record_human_approval :
    String → DateTime → MarketClock → String → Sql ApprovalError Approval
unfolding kyo_approval store_approval
record_human_approval decision_id now market_clock uuid c =
    elim (get_decision c.tables decision_id) [
      | none ↦ (err (no_such_decision decision_id), c)
      | some d ↦
          if is_passed d.rule_check
          then store_approval (kyo_approval uuid decision_id now market_clock) c
          else (err (not_passed decision_id), c)
    ]
