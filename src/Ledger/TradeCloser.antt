-- ===== src/Ledger/TradeCloser.antt =====
-- src/trader/ledger/trade_closer.py: one fill applied to a position.
pub mod Average
pub mod Selling
use Prim.Native.String.{◌++◌}
use kyo_trading_tool.Prelude.{
  ℕ, zero, suc, ◌+◌, ◌-◌, ltb, Bool, true, false, ◌||◌, if◌then◌else◌, Option, none, some, coalesce,
  List, snoc, String, sub_ℕ, ℤ,
}
use kyo_trading_tool.Domain.Result.{Result, ok, err, ◌>>=◌}
use kyo_trading_tool.Domain.Decimal.{Decimal, of_ℕ, add, sub, mul, div, ltb_dec}
use kyo_trading_tool.Domain.Money.{Money, Price, price_amount, money, price, ◌+$◌, ◌-$◌, price_lt}
use kyo_trading_tool.Domain.Models.{
  DateTime, date, Quantity, ExitReason, Side, Origin, Decision, Fill, Position, Trade, is_partial,
}

pub data PositionUpdate : Type 0 where
  open_position : Position → PositionUpdate
  closed_trade : Trade → PositionUpdate

-- `TradeCloserError`, one constructor for each message
pub data TradeCloserError : Type 0 where
  no_open_position : String → TradeCloserError
  oversell : ℕ → String → ℕ → TradeCloserError
  unexplained_close : TradeCloserError

-- `Price((avg_cost * qty + price * fill_qty) / Decimal(total_shares))`
unfoldable pub average_cost : {E : Type 0} → Price → ℕ → Price → ℕ → Result E Price
average_cost avg_cost qty fill_price fill_qty = do
  mean ←
      div
        (add (mul (price_amount avg_cost) (of_ℕ qty))
          (mul (price_amount fill_price) (of_ℕ fill_qty)))
        (of_ℕ (qty + fill_qty))
  ok (price mean)

-- `Price(max(a.amount, b.amount))`
unfoldable pub max_price : Price → Price → Price
max_price a b = price (if price_lt a b then price_amount b else price_amount a)

unfoldable pub apply_buy :
    Option Position → Fill → Decision → Result TradeCloserError PositionUpdate
apply_buy none fill decision = ok (
    open_position (record {
      ticker = decision.ticker;
      qty = fill.qty;
      avg_cost = fill.price;
      opened_at = fill.filled_at;
      high_watermark = fill.price;
      partial_tp_done = false;
    }))
apply_buy (some position) fill decision = do
  new_avg_cost ← average_cost position.avg_cost position.qty.shares fill.price fill.qty.shares
  ok (
      open_position (record position {
        qty = record { shares = position.qty.shares + fill.qty.shares };
        avg_cost = new_avg_cost;
        high_watermark = max_price position.high_watermark fill.price;
      }))

-- `Money((price - avg_cost) * shares) - fee`
unfoldable pub fill_pnl : Price → Fill → Money
fill_pnl avg_cost fill =
    money (mul (sub (price_amount fill.price) (price_amount avg_cost)) (of_ℕ fill.qty.shares))
    -$ fill.fee

-- the reason of the caller, or `llm` for a decision of the LLM
unfoldable pub resolve_reason : Option ExitReason → Origin → Option ExitReason
resolve_reason (some r) o = some r
resolve_reason none Origin.llm = some ExitReason.llm
resolve_reason none Origin.rule_exit = none

abbrev pub is_partial_exit : Option ExitReason → Bool
is_partial_exit none = false
is_partial_exit (some r) = is_partial r

-- what a settlement carries from the earlier fills of the position
pub record Carried : Type 0 where
  pub entry_decision_id : Option String
  pub exit_decision_ids : List String
  pub realized_so_far : Money
  pub fees_so_far : Money

-- `entry_decision_id if entry_decision_id is not None else decision.id`
abbrev pub entry_id : Option String → String → String
entry_id none d = d
entry_id (some e) d = e

-- the closed row
unfoldable pub close_trade : Position → Fill → Decision → ExitReason → Carried → Trade
unfolding fill_pnl
close_trade position fill decision reason carried =
    let entry = entry_id carried.entry_decision_id decision.id in
    record {
      id = entry ++ ":" ++ decision.id;
      ticker = position.ticker;
      opened_at = position.opened_at;
      closed_at = fill.filled_at;
      entry_decision_id = entry;
      exit_decision_ids = snoc carried.exit_decision_ids decision.id;
      exit_reason = reason;
      realized_pnl = carried.realized_so_far +$ fill_pnl position.avg_cost fill;
      fees = carried.fees_so_far +$ fill.fee;
      holding_days = sub_ℕ (date fill.filled_at) (date position.opened_at);
    }

-- the end of `_apply_sell`, for the reason that was resolved
unfoldable pub finish_sell :
    Position
    → Fill
    → Decision
    → Option ExitReason
    → Carried
    → Result TradeCloserError PositionUpdate
finish_sell position fill decision reason carried =
    if ltb 0 (position.qty.shares - fill.qty.shares)
    then ok (
        open_position (record position {
          qty = record { shares = position.qty.shares - fill.qty.shares };
          partial_tp_done = position.partial_tp_done || is_partial_exit reason;
        }))
    else elim reason [
      | none ↦ err unexplained_close
      | some r ↦ ok (closed_trade (close_trade position fill decision r carried))
    ]

unfoldable pub apply_sell :
    Option Position
    → Fill
    → Decision
    → Option ExitReason
    → Carried
    → Result TradeCloserError PositionUpdate
apply_sell none fill decision exit_reason carried = err (no_open_position decision.ticker)
apply_sell (some position) fill decision exit_reason carried =
    if ltb position.qty.shares fill.qty.shares
    then err (oversell fill.qty.shares decision.ticker position.qty.shares)
    else finish_sell position fill decision (resolve_reason exit_reason decision.origin) carried

unfoldable pub apply_fill :
    Option Position
    → Fill
    → Decision
    → Side
    → DateTime
    → Option ExitReason
    → Carried
    → Result TradeCloserError PositionUpdate
apply_fill position fill decision Side.buy now exit_reason carried =
    apply_buy position fill decision
apply_fill position fill decision Side.sell now exit_reason carried =
    apply_sell position fill decision exit_reason carried
