-- ===== src/Ledger/TradeCloser/Average.antt =====
-- The average cost of a buy lies between the old cost and the price, and the watermark only rises.
use native.Mathlib.Nat.{mul-le-mul_right}
use kyo_trading_tool.Prelude.{
  ℕ, suc, ◌+◌, ◌-◌, ◌<◌, ◌*◌, ◌≡◌, ap, arith, ℤ, pos, pos_part, neg_part, ◌*ℤ◌, ◌≤ℤ◌, mul_pos_parts,
  int_laws,
}
use kyo_trading_tool.Domain.Result.{ok}
use kyo_trading_tool.Domain.Decimal.{Decimal, of_ℕ, add, mul, div, quot, quot_fraction}
use kyo_trading_tool.Domain.Decimal.Rounding.{quantize_le, quantize_ge}
use kyo_trading_tool.Domain.Money.{Price, price_amount, price}
use kyo_trading_tool.Ledger.TradeCloser.{average_cost}

-- the mean before it is quantized
abbrev mean : Price → ℕ → Price → ℕ → ℕ → Decimal
mean a q p f n =
    quot (add (mul (price_amount a) (of_ℕ q)) (mul (price_amount p) (of_ℕ f))) (of_ℕ (suc n))

mul_le : (a b : ℤ) (k : ℕ) → a ≤ℤ b → a *ℤ pos k ≤ℤ b *ℤ pos k
mul_le a b k h = omega (arith, mul-le-mul_right k h, mul_pos_parts a k, mul_pos_parts b k)

split_total :
    (h : ℤ) (q f n : ℕ)
    → q + f ≡ suc n
    → (pos_part h * q + pos_part h * f ≡ pos_part h * suc n)
      × (neg_part h * q + neg_part h * f ≡ neg_part h * suc n)
split_total h q f n e =
    omega (arith, ap (λ (t : ℕ). pos_part h * t) e, ap (λ (t : ℕ). neg_part h * t) e)

average_cost-mean :
    {E : Type 0} (a p : Price) (q f n : ℕ)
    → q + f ≡ suc n
    → average_cost {E = E} a q p f ≡ ok (price (mean a q p f n))
unfolding average_cost div
average_cost-mean a p q f n e = rw e

mean_le :
    (a p : Price) (q f n : ℕ) (hi : ℤ)
    → q + f ≡ suc n
    → a.ticks ≤ℤ hi
    → p.ticks ≤ℤ hi
    → (price (mean a q p f n)).ticks ≤ℤ hi
unfolding price mul add quot_fraction
mean_le a p q f n hi e ha hp = quantize_le 10000 (mean a q p f n) hi (
    omega (
      int_laws,
      mul_pos_parts,
      mul_le a.ticks hi q ha,
      mul_le p.ticks hi f hp,
      split_total hi q f n e,
    ))

mean_ge :
    (a p : Price) (q f n : ℕ) (lo : ℤ)
    → q + f ≡ suc n
    → lo ≤ℤ a.ticks
    → lo ≤ℤ p.ticks
    → lo ≤ℤ (price (mean a q p f n)).ticks
unfolding price mul add quot_fraction
mean_ge a p q f n lo e ha hp = quantize_ge 10000 (mean a q p f n) lo (
    omega (
      int_laws,
      mul_pos_parts,
      mul_le lo a.ticks q ha,
      mul_le lo p.ticks f hp,
      split_total lo q f n e,
    ))

-- Where the shares do not add up to zero, the average cost of a position and a fill exists and
-- lies between any bounds that hold both the old cost and the price of the fill.
pub average_cost_bounds :
    {E : Type 0} (a p : Price) (q f : ℕ) (lo hi : ℤ)
    → 0 < q + f
    → (lo ≤ℤ a.ticks) × (a.ticks ≤ℤ hi)
    → (lo ≤ℤ p.ticks) × (p.ticks ≤ℤ hi)
    → (c : Price) × (average_cost {E = E} a q p f ≡ ok c) × (lo ≤ℤ c.ticks) × (c.ticks ≤ℤ hi)
average_cost_bounds a p q f lo hi h ha hp =
    let e : q + f ≡ suc (q + f - 1) = omega arith in
    (
      price (mean a q p f (q + f - 1)),
      average_cost-mean a p q f (q + f - 1) e,
      mean_ge a p q f (q + f - 1) lo e ha.0 hp.0,
      mean_le a p q f (q + f - 1) hi e ha.1 hp.1,
    )
