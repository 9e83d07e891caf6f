-- ===== src/Rules/Exit/Triggers.antt =====
-- When a position is sold: the order of the four exits, and their sides of the average cost.
use native.Mathlib.Nat.{mul-le-mul_right}
use kyo_trading_tool.Prelude.{
  ℕ, suc, ◌*◌, ◌≤◌, ◌≡◌, sym, subst, ap, ◌∙◌, arith, true, false, Option, none, some, ℤ, pos,
  negsuc, ◌≤ℤ◌, ◌*ℤ◌, int_laws, mul_pos_parts, neg_parts, leb_ℤ→le, ltb_ℤ→lt,
}
use kyo_trading_tool.Domain.Decimal.{Decimal, of_ℕ, add, mul, div_suc, ltb_dec, den}
use kyo_trading_tool.Domain.Decimal.Rounding.{quantize_le, quantize_ge}
use kyo_trading_tool.Domain.Money.{Price, price, price_mul, price_amount, price_le}
use kyo_trading_tool.Domain.Models.{DateTime, days_between, ExitReason, ExitSignal, Position}
use kyo_trading_tool.Rules.Schema.{RuleSet, ExitRules, exit_valid, pct_valid}
use kyo_trading_tool.Rules.Exit.{
  raised_by, stop_loss_price, take_profit_price, trailing_stop_price, check_exit,
}

-- the trigger of each reason, without regard to the others
abbrev pub Reached : Position → Price → RuleSet → DateTime → ExitReason → Type 0
Reached position price rules now ExitReason.stop_loss =
    price_le price (stop_loss_price position rules) ≡ true
Reached position price rules now ExitReason.max_holding_days =
    pos rules.position.max_holding_days ≤ℤ days_between now position.opened_at
Reached position price rules now ExitReason.trailing_stop =
    (position.partial_tp_done ≡ true) × (price_le price (trailing_stop_price position rules) ≡ true)
Reached position price rules now ExitReason.partial_take_profit =
    (position.partial_tp_done ≡ false) × (price_le (take_profit_price position rules) price ≡ true)
Reached position price rules now _ = ⊥

-- the place of a reason in the order of the checks
abbrev pub rank : ExitReason → ℕ
rank ExitReason.stop_loss = 0
rank ExitReason.max_holding_days = 1
rank _ = 2

-- the fraction of the position that a reason sells
abbrev pub fraction_of : RuleSet → ExitReason → Decimal
fraction_of rules ExitReason.partial_take_profit = rules.exit.partial_take_profit_fraction
fraction_of rules _ = of_ℕ 1

-- What `check_exit` promises: nothing where no trigger is reached; else the first one that is
-- reached, with its fraction, for this position at this price.
abbrev pub FirstReached : Position → Price → RuleSet → DateTime → Option ExitSignal → Type 0
FirstReached position price rules now none =
    (r : ExitReason) → ¬ (Reached position price rules now r)
FirstReached position price rules now (some s) =
    Reached position price rules now s.reason
    × ((r : ExitReason) → Reached position price rules now r → rank s.reason ≤ rank r)
    × (s.fraction ≡ fraction_of rules s.reason)
    × (s.trigger_price ≡ price)
    × (s.ticker ≡ position.ticker)

-- `check_exit` returns the first exit whose trigger is reached (stop loss, holding days, then the
-- trailing stop after a partial take profit or the partial take profit before one), with its
-- fraction, and `None` exactly when no trigger is reached.
pub check_exit-FirstReached :
    (position : Position) (price : Price) (rules : RuleSet) (now : DateTime)
    → FirstReached position price rules now (check_exit position price rules now)
unfolding check_exit
check_exit-FirstReached position price rules now = ground arith

-- a factor by the fraction w / m, on either side of one
scale_le : (a : ℕ) (w : ℤ) (m : ℕ) → w ≤ℤ pos m → pos a *ℤ w ≤ℤ pos (a * m)
scale_le a (pos w) m h = let k : w ≤ m = omega arith in omega (arith, mul-le-mul_right a k)
scale_le a (negsuc w) m h = omega (arith, neg_parts (a * suc w))

scale_ge : (a : ℕ) (w : ℤ) (m : ℕ) → pos m ≤ℤ w → pos (a * m) ≤ℤ pos a *ℤ w
scale_ge a (pos w) m h = let k : m ≤ w = omega arith in omega (arith, mul-le-mul_right a k)
scale_ge a (negsuc w) m h = absurd (omega arith)

price_mul-le :
    (p : Price) (a : ℕ) (f : Decimal)
    → p.ticks ≡ pos a
    → f.num ≤ℤ pos (den f)
    → (price_mul p f).ticks ≤ℤ p.ticks
unfolding price_mul price mul
price_mul-le p a f e h =
    quantize_le 10000 (mul (price_amount p) f) p.ticks
      (rw e (omega (int_laws, mul_pos_parts (pos a *ℤ f.num) 10000, scale_le a f.num (den f) h)))

price_mul-ge :
    (p : Price) (a : ℕ) (f : Decimal)
    → p.ticks ≡ pos a
    → pos (den f) ≤ℤ f.num
    → p.ticks ≤ℤ (price_mul p f).ticks
unfolding price_mul price mul
price_mul-ge p a f e h =
    quantize_ge 10000 (mul (price_amount p) f) p.ticks
      (rw e (omega (int_laws, mul_pos_parts (pos a *ℤ f.num) 10000, scale_ge a f.num (den f) h)))

raised_by-le :
    (pct : Decimal) → ltb_dec pct (of_ℕ 0) ≡ true → (raised_by pct).num ≤ℤ pos (den (raised_by pct))
unfolding add div_suc
raised_by-le pct h =
    omega
      (int_laws, mul_pos_parts pct.num 1, ltb_ℤ→lt (pct.num *ℤ pos 1) (pos 0 *ℤ pos (den pct)) h)

raised_by-ge :
    (pct : Decimal) → ltb_dec (of_ℕ 0) pct ≡ true → pos (den (raised_by pct)) ≤ℤ (raised_by pct).num
unfolding add div_suc
raised_by-ge pct h =
    omega
      (int_laws, mul_pos_parts pct.num 1, ltb_ℤ→lt (pos 0 *ℤ pos (den pct)) (pct.num *ℤ pos 1) h)

stop_loss_price-le :
    (position : Position) (rules : RuleSet) (a : ℕ)
    → exit_valid rules.exit ≡ true
    → position.avg_cost.ticks ≡ pos a
    → (stop_loss_price position rules).ticks ≤ℤ position.avg_cost.ticks
unfolding stop_loss_price exit_valid
stop_loss_price-le position rules a v e =
    let falls : ltb_dec rules.exit.stop_loss_pct (of_ℕ 0) ≡ true = ground arith in
    price_mul-le position.avg_cost a (raised_by rules.exit.stop_loss_pct) e
      (raised_by-le rules.exit.stop_loss_pct falls)

take_profit_price-ge :
    (position : Position) (rules : RuleSet) (a : ℕ)
    → exit_valid rules.exit ≡ true
    → position.avg_cost.ticks ≡ pos a
    → position.avg_cost.ticks ≤ℤ (take_profit_price position rules).ticks
unfolding take_profit_price exit_valid pct_valid
take_profit_price-ge position rules a v e =
    let rises : ltb_dec (of_ℕ 0) rules.exit.partial_take_profit_pct ≡ true = ground arith in
    price_mul-ge position.avg_cost a (raised_by rules.exit.partial_take_profit_pct) e
      (raised_by-ge rules.exit.partial_take_profit_pct rises)

price_le→le : (p q : Price) → price_le p q ≡ true → p.ticks ≤ℤ q.ticks
price_le→le p q h = omega (
  arith,
  leb_ℤ→le (p.ticks *ℤ pos 10000) (q.ticks *ℤ pos 10000) h,
  mul_pos_parts p.ticks 10000,
  mul_pos_parts q.ticks 10000,
)

pub exit_valid-fraction :
    (r : ExitRules)
    → exit_valid r ≡ true
    → (ltb_dec (of_ℕ 0) r.partial_take_profit_fraction ≡ true)
      × (ltb_dec r.partial_take_profit_fraction (of_ℕ 1) ≡ true)
unfolding exit_valid
exit_valid-fraction r v = ground arith

-- Under valid rules, for a position whose average cost is not negative, a stop loss is never sold
-- above the average cost, a partial take profit never below it and never twice, and a partial take
-- profit sells a fraction strictly between nothing and everything.
pub check_exit-sides :
    (position : Position) (price : Price) (rules : RuleSet) (now : DateTime) (a : ℕ)
    (s : ExitSignal)
    → exit_valid rules.exit ≡ true
    → position.avg_cost.ticks ≡ pos a
    → check_exit position price rules now ≡ some s
    → (s.reason ≡ ExitReason.stop_loss → price.ticks ≤ℤ position.avg_cost.ticks)
      × (s.reason ≡ ExitReason.partial_take_profit
          → (position.avg_cost.ticks ≤ℤ price.ticks)
            × (position.partial_tp_done ≡ false)
            × (ltb_dec (of_ℕ 0) s.fraction ≡ true)
            × (ltb_dec s.fraction (of_ℕ 1) ≡ true))
check_exit-sides position price rules now a s v e h =
    let first : FirstReached position price rules now (some s) =
      subst (FirstReached position price rules now) h
        (check_exit-FirstReached position price rules now) in
    let below = price_le→le price (stop_loss_price position rules) in
    let above = price_le→le (take_profit_price position rules) price in
    let (positive, partial) = exit_valid-fraction rules.exit v in
    (
      λ r. omega (
        arith,
        below (subst (Reached position price rules now) r first.0),
        stop_loss_price-le position rules a v e,
      ),
      λ r.
          let (fresh, reached) = subst (Reached position price rules now) r first.0 in
          let fraction = first.2 ∙ ap (fraction_of rules) r in
          (
            omega (arith, above reached, take_profit_price-ge position rules a v e),
            fresh,
            subst (λ f. ltb_dec (of_ℕ 0) f ≡ true) (sym fraction) positive,
            subst (λ f. ltb_dec f (of_ℕ 1) ≡ true) (sym fraction) partial,
          ),
    )
