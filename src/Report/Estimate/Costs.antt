-- ===== src/Report/Estimate/Costs.antt =====
-- The costs are never negative, so the estimate is never above the paper profit.
use kyo_trading_tool.Prelude.{
  ℕ, ◌≡◌, sym, subst, ap, ◌∙◌, arith, true, Bool-cases, inl, inr, Option, none, some, List, [], ◌∷◌,
  ℤ, pos, negsuc, ◌≤ℤ◌, ◌-ℤ◌, ◌*ℤ◌, int_laws, mul_pos_parts, leb_ℤ→le, ltb_ℤ→lt,
}
use kyo_trading_tool.Domain.Decimal.{
  Decimal, den, of_ℕ, add, mul, hundredth, div_suc, leb_dec, ltb_dec,
}
use kyo_trading_tool.Domain.Decimal.Rounding.{quantize_ge}
use kyo_trading_tool.Domain.Money.{Money, amount, price_amount, money, ◌-$◌}
use kyo_trading_tool.Domain.Money.Laws.{cents-sub}
use kyo_trading_tool.Domain.Models.{Fill}
use kyo_trading_tool.Rules.Schema.{CostAssumptions, cost_valid, cost_pct_valid, cap_valid}
use kyo_trading_tool.Report.Estimate.{
  fill_notional, sum_of, slippage_of, slippage_cost, capped, commission_of, commission_cost,
  estimate,
}

-- a decimal of at least zero
abbrev NonNeg : Decimal → Type 0
NonNeg d = pos 0 ≤ℤ d.num

mul_nonneg : (a b : ℤ) → pos 0 ≤ℤ a → pos 0 ≤ℤ b → pos 0 ≤ℤ a *ℤ b
mul_nonneg (pos a) (pos b) h k = omega arith
mul_nonneg (pos a) (negsuc b) h k = absurd (omega arith)
mul_nonneg (negsuc a) b h k = absurd (omega arith)

mul-NonNeg : (a b : Decimal) → NonNeg a → NonNeg b → NonNeg (mul a b)
unfolding mul
mul-NonNeg a b h k = mul_nonneg a.num b.num h k

add-NonNeg : (a b : Decimal) → NonNeg a → NonNeg b → NonNeg (add a b)
unfolding add
add-NonNeg a b h k =
    omega (int_laws, mul_nonneg a.num (pos (den b)) h, mul_nonneg b.num (pos (den a)) k)

hundredth-NonNeg : (a : Decimal) → NonNeg a → NonNeg (hundredth a)
unfolding div_suc
hundredth-NonNeg a h = h

money-nonneg : (d : Decimal) → NonNeg d → pos 0 ≤ℤ (money d).cents
unfolding money
money-nonneg d h =
    quantize_ge 100 d (pos 0)
      (omega (arith, mul_pos_parts (pos 0) (den d), mul_nonneg d.num (pos 100) h))

leb_zero : (d : Decimal) → leb_dec (of_ℕ 0) d ≡ true → NonNeg d
leb_zero d h =
    omega (int_laws, leb_ℤ→le (pos 0 *ℤ pos (den d)) (d.num *ℤ pos 1) h, mul_pos_parts d.num 1)

ltb_zero : (d : Decimal) → ltb_dec (of_ℕ 0) d ≡ true → NonNeg d
ltb_zero d h =
    omega (int_laws, ltb_ℤ→lt (pos 0 *ℤ pos (den d)) (d.num *ℤ pos 1) h, mul_pos_parts d.num 1)

-- fills at prices of at least zero
abbrev pub PricesNonNeg : List Fill → Type 0
PricesNonNeg [] = Unit {0}
PricesNonNeg (f ∷ fs) = (pos 0 ≤ℤ f.price.ticks) × PricesNonNeg fs

sum_of-NonNeg :
    (f : Fill → Decimal) (total : Decimal) (fills : List Fill)
    → ((x : Fill) → pos 0 ≤ℤ x.price.ticks → NonNeg (f x))
    → NonNeg total
    → PricesNonNeg fills
    → NonNeg (sum_of f total fills)
unfolding sum_of
sum_of-NonNeg f total [] h t p = t
sum_of-NonNeg f total (x ∷ fills) h t p =
    sum_of-NonNeg f (add total (f x)) fills h (add-NonNeg total (f x) t (h x p.0)) p.1

fill_notional-NonNeg : (x : Fill) → pos 0 ≤ℤ x.price.ticks → NonNeg (fill_notional x)
unfolding fill_notional
fill_notional-NonNeg x h = mul-NonNeg (price_amount x.price) (of_ℕ x.qty.shares) h (omega arith)

capped-NonNeg :
    (o : Option Decimal) (d : Decimal) → cap_valid o ≡ true → NonNeg d → NonNeg (capped o d)
unfolding capped cap_valid
capped-NonNeg none d v h = h
capped-NonNeg (some cap) d v h = elim (Bool-cases (ltb_dec cap d)) [
  | inl e ↦ rw e (ltb_zero cap v)
  | inr e ↦ rw e h
]

cost_valid-tests :
    (cost : CostAssumptions)
    → cost_valid cost ≡ true
    → (leb_dec (of_ℕ 0) cost.slippage_pct_per_side ≡ true)
      × (leb_dec (of_ℕ 0) cost.commission_pct ≡ true)
      × (cap_valid cost.commission_cap_usd ≡ true)
      × (leb_dec (of_ℕ 0) cost.commission_usd_per_order ≡ true)
      × (leb_dec (of_ℕ 0) cost.fx_cost_pct_one_way ≡ true)
unfolding cost_valid cost_pct_valid
cost_valid-tests cost v = ground arith

slippage_cost-nonneg :
    (fills : List Fill) (cost : CostAssumptions)
    → NonNeg cost.slippage_pct_per_side
    → PricesNonNeg fills
    → pos 0 ≤ℤ (slippage_cost fills cost).cents
unfolding slippage_cost slippage_of
slippage_cost-nonneg fills cost h p = money-nonneg (sum_of (slippage_of cost) (of_ℕ 0) fills) (
    sum_of-NonNeg (slippage_of cost) (of_ℕ 0) fills
      (λ x q.
        hundredth-NonNeg _
          (mul-NonNeg (fill_notional x) cost.slippage_pct_per_side (fill_notional-NonNeg x q) h))
      (omega arith) p)

commission_cost-nonneg :
    (fills : List Fill) (cost : CostAssumptions)
    → NonNeg cost.commission_pct
    → cap_valid cost.commission_cap_usd ≡ true
    → PricesNonNeg fills
    → pos 0 ≤ℤ (commission_cost fills cost).cents
unfolding commission_cost commission_of
commission_cost-nonneg fills cost h v p =
    money-nonneg (sum_of (commission_of cost) (of_ℕ 0) fills) (
      sum_of-NonNeg (commission_of cost) (of_ℕ 0) fills
        (λ x q. capped-NonNeg cost.commission_cap_usd _ v (
          hundredth-NonNeg _
            (mul-NonNeg (fill_notional x) cost.commission_pct (fill_notional-NonNeg x q) h)))
        (omega arith) p)

minus_all :
    (p a b c d : Money)
    → (p -$ a -$ b -$ c -$ d).cents ≡ p.cents -ℤ a.cents -ℤ b.cents -ℤ c.cents -ℤ d.cents
minus_all p a b c d =
    cents-sub (p -$ a -$ b -$ c) d
    ∙ ap (λ z. z -ℤ d.cents)
        (cents-sub (p -$ a -$ b) c
          ∙ ap (λ z. z -ℤ c.cents) (cents-sub (p -$ a) b ∙ ap (λ z. z -ℤ b.cents) (cents-sub p a)))

minus_at_most :
    (p a b c d : ℤ) → pos 0 ≤ℤ a → pos 0 ≤ℤ b → pos 0 ≤ℤ c → pos 0 ≤ℤ d → p -ℤ a -ℤ b -ℤ c -ℤ d ≤ℤ p
minus_at_most p a b c d h k l m = omega int_laws

-- The estimate, to the cent: the paper profit less the four costs; and under valid assumptions, for
-- fills at prices and a capital of at least zero, it is never above the paper profit.
pub estimate-at_most :
    (paper_pnl : Money) (fills : List Fill) (order_count : ℕ) (capital : Money)
    (cost : CostAssumptions)
    → cost_valid cost ≡ true
    → PricesNonNeg fills
    → pos 0 ≤ℤ capital.cents
    → let e = estimate paper_pnl fills order_count capital cost in
      (e.estimated_live_pnl.cents
        ≡ paper_pnl.cents -ℤ e.slippage_cost.cents -ℤ e.commission_cost.cents
          -ℤ e.fixed_commission_cost.cents -ℤ e.fx_cost.cents)
      × (e.estimated_live_pnl.cents ≤ℤ paper_pnl.cents)
unfolding estimate
estimate-at_most paper_pnl fills order_count capital cost v prices h =
    let (slip, comm, cap, per_order, fx) = cost_valid-tests cost v in
    let slippage = slippage_cost fills cost in
    let commission = commission_cost fills cost in
    let fixed = mul (of_ℕ order_count) cost.commission_usd_per_order in
    let both_ways = mul (hundredth (mul (amount capital) cost.fx_cost_pct_one_way)) (of_ℕ 2) in
    let exact = minus_all paper_pnl slippage commission (money fixed) (money both_ways) in
    (
      exact,
      subst (λ z. z ≤ℤ paper_pnl.cents) (sym exact)
          (minus_at_most paper_pnl.cents slippage.cents commission.cents (money fixed).cents
            (money both_ways).cents (slippage_cost-nonneg fills cost (leb_zero _ slip) prices)
            (commission_cost-nonneg fills cost (leb_zero _ comm) cap prices)
            (money-nonneg fixed (
              mul-NonNeg (of_ℕ order_count) cost.commission_usd_per_order (omega arith)
                (leb_zero _ per_order)))
            (money-nonneg both_ways (
              mul-NonNeg (hundredth (mul (amount capital) cost.fx_cost_pct_one_way)) (of_ℕ 2)
                (hundredth-NonNeg _
                  (mul-NonNeg (amount capital) cost.fx_cost_pct_one_way h (leb_zero _ fx)))
                (omega arith)))),
    )
