-- ===== src/Domain/Decimal.antt =====
-- `decimal.Decimal` as src/trader uses it. A value is the exact fraction `num / (below + 1)`;
-- addition, subtraction, multiplication, division and comparison are exact. Python keeps 28
-- significant digits, so the two agree while every result needs no more than that.
pub mod Rounding
use kyo_trading_tool.Prelude.{
  ℕ, zero, suc, ◌+◌, ◌*◌, ◌/◌, ◌%◌, Bool, true, false, ltb, ◌==◌, if◌then◌else◌, ℤ, pos, negsuc,
  neg, ◌+ℤ◌, ◌-ℤ◌, ◌*ℤ◌, leb_ℤ, ltb_ℤ,
}
use kyo_trading_tool.Domain.Result.{Result, ok, raised, division_by_zero}

pub record Decimal : Type 0 where
  pub num : ℤ
  pub below : ℕ

-- the denominator
abbrev pub den : Decimal → ℕ
den d = suc d.below

-- the quotient `q` with rest `r` to the divisor `d`, rounded by ROUND_HALF_EVEN
unfoldable pub half_even_of : ℕ → ℕ → ℕ → ℕ
half_even_of q r d =
    if ltb (2 * r) d then q else if ltb d (2 * r) then q + 1 else if q % 2 == 0 then q else q + 1

unfoldable pub half_even : ℕ → ℕ → ℕ
half_even n d = half_even_of (n / d) (n % d) d

-- rounding goes by magnitude: it is symmetric about zero
unfoldable pub round_half_even : ℤ → ℕ → ℤ
round_half_even (pos n) d = pos (half_even n d)
round_half_even (negsuc n) d = neg (half_even (suc n) d)

-- `quantize(Decimal(1) / units, rounding=ROUND_HALF_EVEN)`, as a number of units
unfoldable pub quantize : ℕ → Decimal → ℤ
quantize units d = round_half_even (d.num *ℤ pos units) (den d)

unfoldable pub floor_div : ℤ → ℕ → ℤ
floor_div (pos n) k = pos (n / k)
floor_div (negsuc n) k = negsuc (n / k)

-- `to_integral_value(rounding=ROUND_FLOOR)`
abbrev pub floor : Decimal → ℤ
floor d = floor_div d.num (den d)

-- `Decimal(z)` of an int
abbrev pub of_int : ℤ → Decimal
of_int z = record { num = z; below = 0 }

abbrev pub of_ℕ : ℕ → Decimal
of_ℕ n = of_int (pos n)

-- (a + 1) * (b + 1) - 1
abbrev pub mul_below : ℕ → ℕ → ℕ
mul_below a b = a * b + a + b

unfoldable pub add : Decimal → Decimal → Decimal
add a b = record {
  num = a.num *ℤ pos (den b) +ℤ b.num *ℤ pos (den a);
  below = mul_below a.below b.below;
}

unfoldable pub sub : Decimal → Decimal → Decimal
sub a b = record {
  num = a.num *ℤ pos (den b) -ℤ b.num *ℤ pos (den a);
  below = mul_below a.below b.below;
}

unfoldable pub mul : Decimal → Decimal → Decimal
mul a b = record { num = a.num *ℤ b.num; below = mul_below a.below b.below }

-- division by the whole number n + 1
unfoldable pub div_suc : Decimal → ℕ → Decimal
div_suc a n = record { num = a.num; below = mul_below a.below n }

-- `x / Decimal(100)`
abbrev pub hundredth : Decimal → Decimal
hundredth a = div_suc a 99

-- `a / (z / (k + 1))`; zero stands in where the divisor is zero
unfoldable pub quot_fraction : Decimal → ℤ → ℕ → Decimal
quot_fraction a (pos zero) k = of_int (pos 0)
quot_fraction a (pos (suc n)) k = record { num = a.num *ℤ pos (suc k); below = mul_below a.below n }
quot_fraction a (negsuc n) k = record { num = a.num *ℤ negsuc k; below = mul_below a.below n }

-- `a / b` where the source has tested that `b` is positive
abbrev pub quot : Decimal → Decimal → Decimal
quot a b = quot_fraction a b.num b.below

abbrev pub is_zero : ℤ → Bool
is_zero (pos zero) = true
is_zero (pos (suc n)) = false
is_zero (negsuc n) = false

-- `a / b`, which raises where `b` is zero
unfoldable pub div : {E : Type 0} → Decimal → Decimal → Result E Decimal
div a b = if is_zero b.num then raised division_by_zero else ok (quot a b)

-- `int(d)`, toward zero
unfoldable pub trunc_div : ℤ → ℕ → ℤ
trunc_div (pos n) k = pos (n / k)
trunc_div (negsuc n) k = neg (suc n / k)

abbrev pub trunc : Decimal → ℤ
trunc d = trunc_div d.num (den d)

abbrev pub leb_dec : Decimal → Decimal → Bool
leb_dec a b = leb_ℤ (a.num *ℤ pos (den b)) (b.num *ℤ pos (den a))

abbrev pub ltb_dec : Decimal → Decimal → Bool
ltb_dec a b = ltb_ℤ (a.num *ℤ pos (den b)) (b.num *ℤ pos (den a))
