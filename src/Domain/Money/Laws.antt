-- ===== src/Domain/Money/Laws.antt =====
-- Money is exact: sums and differences of cents need no rounding, and comparison is by cents.
use kyo_trading_tool.Prelude.{◌≡◌, ◌+ℤ◌, ◌-ℤ◌, int_laws, mul_pos_parts}
use kyo_trading_tool.Domain.Decimal.{add, sub}
use kyo_trading_tool.Domain.Decimal.Rounding.{quantize_exact}
use kyo_trading_tool.Domain.Money.{Money, amount, money, ◌+$◌, ◌-$◌}

-- Adding two amounts of money adds their cents: nothing is rounded away.
pub cents-add : (a b : Money) → (a +$ b).cents ≡ a.cents +ℤ b.cents
unfolding ◌+$◌ money add
cents-add a b =
    quantize_exact 100 (add (amount a) (amount b)) (a.cents +ℤ b.cents)
      (omega (int_laws, mul_pos_parts, mul_pos_parts))

-- So does subtracting.
pub cents-sub : (a b : Money) → (a -$ b).cents ≡ a.cents -ℤ b.cents
unfolding ◌-$◌ money sub
cents-sub a b =
    quantize_exact 100 (sub (amount a) (amount b)) (a.cents -ℤ b.cents)
      (omega (int_laws, mul_pos_parts, mul_pos_parts))
