-- ===== src/Engine/Holdings/Fractions.antt =====
-- The shares that an exit sells: how `_sell_qty` and the fractions of the signals are bounded.
use native.Mathlib.Nat.{div-add-mod, mul-le-mul_right}
use kyo_trading_tool.Prelude.{
  ℕ, zero, suc, max, ◌*◌, ◌/◌, ◌≤◌, ◌≡◌, refl, sym, subst, arith, true, some, ℤ, pos, negsuc, neg,
  pos_part, ◌*ℤ◌, ◌≤ℤ◌, leb_ℤ→le, mul_pos_parts,
}
use kyo_trading_tool.Domain.Decimal.{Decimal, den, of_ℕ, mul, mul_below, floor_div, leb_dec}
use kyo_trading_tool.Domain.Decimal.Rounding.{le_of_mul_lt}
use kyo_trading_tool.Domain.Money.{Price}
use kyo_trading_tool.Domain.Models.{DateTime, ExitReason, ExitSignal, Position}
use kyo_trading_tool.Rules.Schema.{RuleSet, exit_valid}
use kyo_trading_tool.Rules.Exit.{check_exit}
use kyo_trading_tool.Rules.Exit.Triggers.{
  FirstReached, check_exit-FirstReached, fraction_of, exit_valid-fraction,
}
use kyo_trading_tool.Engine.Holdings.{sell_qty}

floor_neg : (m b : ℕ) → pos_part (floor_div (neg m) (suc b)) ≤ 0
unfolding floor_div
floor_neg zero b = le_of_mul_lt (0 / suc b) 0 b (omega (arith, div-add-mod 0 (suc b)))
floor_neg (suc m) b = omega arith

floor_le :
    (q : ℕ) (w : ℤ) (b : ℕ) → w ≤ℤ pos (suc b) → pos_part (floor_div (pos q *ℤ w) (suc b)) ≤ q
unfolding floor_div
floor_le q (pos k) b h =
    let small : k ≤ suc b = omega arith in
    le_of_mul_lt (q * k / suc b) q b
      (omega (arith, div-add-mod (q * k) (suc b), mul-le-mul_right q small))
floor_le q (negsuc k) b h = omega (arith, floor_neg (q * suc k) b)

max_bounds : (x q : ℕ) → 1 ≤ q → x ≤ q → (1 ≤ max 1 x) × (max 1 x ≤ q)
max_bounds x q h k = omega arith

pub sell_qty-bounds :
    (position : Position) (fraction : Decimal)
    → 1 ≤ position.qty.shares
    → leb_dec fraction (of_ℕ 1) ≡ true
    → (1 ≤ (sell_qty position fraction).shares)
      × ((sell_qty position fraction).shares ≤ position.qty.shares)
unfolding sell_qty mul
sell_qty-bounds position fraction h k =
    let at_most : fraction.num ≤ℤ pos (den fraction) = omega (
      arith,
      leb_ℤ→le (fraction.num *ℤ pos 1) (pos 1 *ℤ pos (den fraction)) k,
      mul_pos_parts fraction.num 1,
    ) in
    max_bounds _ position.qty.shares h (
      floor_le position.qty.shares fraction.num (mul_below 0 fraction.below)
        (omega (arith, at_most)))

-- the fraction of a signal
fraction_at_most_one :
    (rules : RuleSet) (r : ExitReason)
    → exit_valid rules.exit ≡ true
    → leb_dec (fraction_of rules r) (of_ℕ 1) ≡ true
fraction_at_most_one rules ExitReason.stop_loss v = refl
fraction_at_most_one rules ExitReason.max_holding_days v = refl
fraction_at_most_one rules ExitReason.trailing_stop v = refl
fraction_at_most_one rules ExitReason.llm v = refl
fraction_at_most_one rules ExitReason.partial_take_profit v =
    let proper = (exit_valid-fraction rules.exit v).1 in ground (arith, proper)

pub signal-fraction :
    (position : Position) (price : Price) (rules : RuleSet) (now : DateTime) (s : ExitSignal)
    → exit_valid rules.exit ≡ true
    → check_exit position price rules now ≡ some s
    → leb_dec s.fraction (of_ℕ 1) ≡ true
signal-fraction position price rules now s v h =
    let first : FirstReached position price rules now (some s) =
      subst (FirstReached position price rules now) h
        (check_exit-FirstReached position price rules now) in
    subst (λ f. leb_dec f (of_ℕ 1) ≡ true) (sym first.2) (fraction_at_most_one rules s.reason v)
