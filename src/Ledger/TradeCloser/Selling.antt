-- ===== src/Ledger/TradeCloser/Selling.antt =====
-- A sell: what is left of the position, or the trade that closes it.
use kyo_trading_tool.Prelude.{
  ℕ, ◌+◌, ◌-◌, ◌<◌, ◌≤◌, ◌≡◌, refl, arith, ltb, Bool, true, false, ◌⊎◌, inl, inr, Bool-cases,
  Option-cases, Option, none, some, ◌+ℤ◌, ◌||◌,
}
use kyo_trading_tool.Domain.Result.{Result, ok, err, raised}
use kyo_trading_tool.Domain.Money.Laws.{cents-add}
use kyo_trading_tool.Domain.Models.{ExitReason, Origin, Decision, Fill, Position}
use kyo_trading_tool.Ledger.TradeCloser.{
  PositionUpdate, open_position, closed_trade, TradeCloserError, Carried, fill_pnl, resolve_reason,
  close_trade, finish_sell, apply_sell, is_partial_exit,
}

-- What a sell of an open position promises. A position that stays open keeps the shares that were
-- not sold, and its cost, watermark and opening time; a trade is closed only when every share was
-- sold, and its result is what was realized before plus what this fill realizes, in whole cents.
-- An error is a fill of more shares than are held, or a close that no rule and no LLM explains.
abbrev pub Sold :
    Position
    → Fill
    → Decision
    → Option ExitReason
    → Carried
    → Result TradeCloserError PositionUpdate
    → Type 0
Sold position fill decision exit_reason carried (ok (open_position p)) =
    (p.qty.shares + fill.qty.shares ≡ position.qty.shares)
    × (0 < p.qty.shares)
    × (p.avg_cost ≡ position.avg_cost)
    × (p.high_watermark ≡ position.high_watermark)
    × (p.opened_at ≡ position.opened_at)
    × (position.partial_tp_done ≡ true → p.partial_tp_done ≡ true)
Sold position fill decision exit_reason carried (ok (closed_trade t)) =
    (fill.qty.shares ≡ position.qty.shares)
    × (t.realized_pnl.cents
        ≡ carried.realized_so_far.cents +ℤ (fill_pnl position.avg_cost fill).cents)
    × (t.fees.cents ≡ carried.fees_so_far.cents +ℤ fill.fee.cents)
Sold position fill decision exit_reason carried (err e) =
    (position.qty.shares < fill.qty.shares)
    ⊎ ((fill.qty.shares ≡ position.qty.shares)
        × (exit_reason ≡ none)
        × (decision.origin ≡ Origin.rule_exit))
Sold position fill decision exit_reason carried (raised x) = ⊥

close_trade-totals :
    (position : Position) (fill : Fill) (decision : Decision) (r : ExitReason) (carried : Carried)
    → ((close_trade position fill decision r carried).realized_pnl.cents
        ≡ carried.realized_so_far.cents +ℤ (fill_pnl position.avg_cost fill).cents)
      × ((close_trade position fill decision r carried).fees.cents
          ≡ carried.fees_so_far.cents +ℤ fill.fee.cents)
unfolding close_trade
close_trade-totals position fill decision r carried = (
  cents-add carried.realized_so_far (fill_pnl position.avg_cost fill),
  cents-add carried.fees_so_far fill.fee,
)

resolve_reason-none :
    (r : Option ExitReason) (o : Origin)
    → resolve_reason r o ≡ none
    → (r ≡ none) × (o ≡ Origin.rule_exit)
unfolding resolve_reason
resolve_reason-none r o h = ground arith

ltb→lt : (a b : ℕ) → ltb a b ≡ true → a < b
ltb→lt a b h = ground arith

ltb→ge : (a b : ℕ) → ltb a b ≡ false → b ≤ a
ltb→ge a b h = ground arith

stays_done : (done partial : Bool) → done ≡ true → (done || partial) ≡ true
stays_done done partial h = ground arith

finish_sell-Sold :
    (position : Position) (fill : Fill) (decision : Decision)
    (exit_reason reason : Option ExitReason) (carried : Carried)
    → ¬ (position.qty.shares < fill.qty.shares)
    → (reason ≡ none → (exit_reason ≡ none) × (decision.origin ≡ Origin.rule_exit))
    → Sold position fill decision exit_reason carried
        (finish_sell position fill decision reason carried)
unfolding finish_sell
finish_sell-Sold position fill decision exit_reason reason carried n h =
    elim (Bool-cases (ltb 0 (position.qty.shares - fill.qty.shares))) [
      | inl l ↦ rw l (
        omega (arith, ltb→lt 0 (position.qty.shares - fill.qty.shares) l),
        ltb→lt 0 (position.qty.shares - fill.qty.shares) l,
        refl,
        refl,
        refl,
        stays_done position.partial_tp_done (is_partial_exit reason),
      )
      | inr l ↦
          let all : fill.qty.shares ≡ position.qty.shares =
            omega (arith, n, ltb→ge 0 (position.qty.shares - fill.qty.shares) l) in
          elim (Option-cases reason) [
            | inl e ↦ rw (l, e) (inr (all, (h e).0, (h e).1))
            | inr (r, e) ↦
                rw (l, e)
                  (
                    all,
                    (close_trade-totals position fill decision r carried).0,
                    (close_trade-totals position fill decision r carried).1,
                  )
          ]
    ]

-- A sell of an open position, on every branch. Where it stays open, the shares that are left and
-- those that were sold add up to the shares held, some are left, and cost, watermark, opening time
-- and a partial take profit that was done are kept. Where it is closed, every share was sold, and
-- the trade's result and fees are what was carried plus this fill's, in whole cents. An error
-- means more shares were sold than held, or that all were sold with no exit reason by a decision
-- that is not the LLM's. No exception is raised.
pub apply_sell-Sold :
    (position : Position) (fill : Fill) (decision : Decision) (exit_reason : Option ExitReason)
    (carried : Carried)
    → Sold position fill decision exit_reason carried
        (apply_sell (some position) fill decision exit_reason carried)
unfolding apply_sell
apply_sell-Sold position fill decision exit_reason carried =
    elim (Bool-cases (ltb position.qty.shares fill.qty.shares)) [
      | inl l ↦ rw l (inl (ltb→lt position.qty.shares fill.qty.shares l))
      | inr l ↦ rw l (
          finish_sell-Sold position fill decision exit_reason
            (resolve_reason exit_reason decision.origin) carried
            (λ k. omega (arith, k, ltb→ge position.qty.shares fill.qty.shares l))
            (resolve_reason-none exit_reason decision.origin))
    ]
