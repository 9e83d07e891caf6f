-- ===== src/Domain/Money.antt =====
-- src/trader/domain/money.py: `Money`, `Price` and `Quantity`, and the percentages of a capital.
pub mod Laws
use kyo_trading_tool.Prelude.{
  ℕ, suc, ◌+◌, ◌-◌, ◌%◌, Bool, ℤ, pos, negsuc, ltb_ℤ, if◌then◌else◌, ◌==◌,
}
use kyo_trading_tool.Domain.Result.{Result, ok, err}
use kyo_trading_tool.Domain.Decimal.{
  Decimal, quantize, floor, of_int, add, sub, mul, hundredth, leb_dec, ltb_dec,
}

-- A USD amount: `amount` is quantized to the cent, so it is a whole number of cents.
pub record Money : Type 0 where
  pub cents : ℤ

-- A price per share: `amount` is quantized to 4 places, so it is a whole number of 1/10000.
pub record Price : Type 0 where
  pub ticks : ℤ

-- `Money.amount`
abbrev pub amount : Money → Decimal
amount m = record { num = m.cents; below = 99 }

-- `Price.amount`
abbrev pub price_amount : Price → Decimal
price_amount p = record { num = p.ticks; below = 9999 }

-- `Money(value)`: `__post_init__` quantizes
unfoldable pub money : Decimal → Money
money value = record { cents = quantize 100 value }

-- `Price(value)`
unfoldable pub price : Decimal → Price
price value = record { ticks = quantize 10000 value }

infixl 65 ◌+$◌ ◌-$◌
-- `Money.__add__`
unfoldable pub ◌+$◌ : Money → Money → Money
a +$ b = money (add (amount a) (amount b))

-- `Money.__sub__`
unfoldable pub ◌-$◌ : Money → Money → Money
a -$ b = money (sub (amount a) (amount b))

-- `Money.__mul__`
unfoldable pub money_mul : Money → Decimal → Money
money_mul m factor = money (mul (amount m) factor)

-- `Price.__mul__`
unfoldable pub price_mul : Price → Decimal → Price
price_mul p factor = price (mul (price_amount p) factor)

-- `Money.__lt__` and `__gt__`, `__le__` and `__ge__`
abbrev pub money_lt : Money → Money → Bool
money_lt a b = ltb_dec (amount a) (amount b)

abbrev pub money_le : Money → Money → Bool
money_le a b = leb_dec (amount a) (amount b)

-- `Price.__lt__` and `__gt__`, `__le__` and `__ge__`
abbrev pub price_lt : Price → Price → Bool
price_lt a b = ltb_dec (price_amount a) (price_amount b)

abbrev pub price_le : Price → Price → Bool
price_le a b = leb_dec (price_amount a) (price_amount b)

-- `Money(Decimal(0))`
abbrev pub zero_money : Money
zero_money = record { cents = pos 0 }

-- `pct_of(capital, pct)`
unfoldable pub pct_of : Money → Decimal → Money
pct_of capital pct = money (hundredth (mul (amount capital) pct))
