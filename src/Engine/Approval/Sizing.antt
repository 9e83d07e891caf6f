-- ===== src/Engine/Approval/Sizing.antt =====
-- The order has the shares of the plan: half a cent makes up for the rounded notional.
use native.Mathlib.Nat.{div-eq_of_lt-le, le-div_iff_mul-le}
use kyo_trading_tool.Prelude.{
  ℕ, zero, suc, ◌+◌, ◌*◌, ◌/◌, ◌≤◌, ◌<◌, ◌≡◌, refl, ap, ◌∙◌, arith, String, Bool, true, Option,
  some, ℤ, pos, negsuc, ◌+ℤ◌, ◌*ℤ◌, ltb_ℤ, List,
}
use kyo_trading_tool.Domain.Result.{ok}
use kyo_trading_tool.Domain.Decimal.{
  of_ℕ, add, mul, quot_fraction, floor_div, half_even, quantize, round_half_even, mul_below,
  ltb_dec,
}
use kyo_trading_tool.Domain.Decimal.Rounding.{half_even_near}
use kyo_trading_tool.Domain.Money.{Money, Price, price_amount, money}
use kyo_trading_tool.Domain.Models.{Decision}
use kyo_trading_tool.Rules.Schema.{RuleSet, DerivedLimits, rules_valid}
use kyo_trading_tool.Rules.Loss.{LossLimitBreach}
use kyo_trading_tool.Rules.Entry.{EntryPlan, check_entry}
use kyo_trading_tool.Rules.Entry.Sizing.{
  check_entry_iff, check_entry_within_limit, size_plan-notional,
}
use kyo_trading_tool.Engine.Approval.{shares_for, to_qty, size_order, order_qty}

-- the cents of `n` shares at a price of `t` ticks
cost_cents : ℕ → ℕ → ℕ
cost_cents t n = half_even (t * n * 100) 10000

cost_cents_near :
    (t n : ℕ) → (t * n ≤ cost_cents t n * 100 + 50) × (cost_cents t n * 100 ≤ t * n + 50)
unfolding cost_cents
cost_cents_near t n = omega (arith, half_even_near (t * n * 100) 9999)

module _ (p : Price) (t n : ℕ) (e : p.ticks ≡ pos (suc t)) where
  cost-eq : (money (mul (price_amount p) (of_ℕ n))).cents ≡ pos (cost_cents (suc t) n)
  unfolding money mul quantize round_half_even cost_cents
  cost-eq = ground arith

  shares_for-div :
      (m : Money) (c : ℕ)
      → m.cents ≡ pos c
      → shares_for m p ≡ pos ((c * 1000 + 500) * 10000 / suc (mul_below 99999 t))
  unfolding shares_for add quot_fraction floor_div ◌+ℤ◌
  shares_for-div m c k = ground arith

  -- Above one cent a share, the notional of `n` shares is sized back to `n` shares.
  shares_for-notional : 100 < suc t → shares_for (money (mul (price_amount p) (of_ℕ n))) p ≡ pos n
  shares_for-notional h =
      let near = cost_cents_near (suc t) n in
      shares_for-div (money (mul (price_amount p) (of_ℕ n))) (cost_cents (suc t) n) cost-eq
      ∙ ap pos (div-eq_of_lt-le {k = n} (suc (mul_below 99999 t)) (omega arith) (omega arith))

  -- At half a cent a share or less, a notional that is whole cents is sized to more shares than it
  -- pays for.
  pub shares_for-too_many :
      (c : ℕ)
      → suc t ≤ 50
      → suc t * n ≡ c * 100
      → (k : ℕ) × (shares_for (money (mul (price_amount p) (of_ℕ n))) p ≡ pos k) × (n < k)
  shares_for-too_many c h whole =
      let near = cost_cents_near (suc t) n in
      let m = (cost_cents (suc t) n * 1000 + 500) * 10000 in
      (
        m / suc (mul_below 99999 t),
        shares_for-div (money (mul (price_amount p) (of_ℕ n))) (cost_cents (suc t) n) cost-eq,
        (le-div_iff_mul-le {k = suc (mul_below 99999 t)} {x = suc n} {y = m} (omega arith)).1
            (omega arith),
      )

-- A price above one cent, as a number of ticks.
pub above_cent :
    (p : Price)
    → ltb_dec (record { num = pos 1; below = 99 }) (price_amount p) ≡ true
    → (t : ℕ) × (p.ticks ≡ pos (suc t)) × (100 < suc t)
above_cent p h = of_ticks p.ticks h
  where
    of_ticks :
        (z : ℤ)
        → ltb_ℤ (pos 1 *ℤ pos 10000) (z *ℤ pos 100) ≡ true
        → (t : ℕ) × (z ≡ pos (suc t)) × (100 < suc t)
    of_ticks (pos zero) k = absurd (ground arith)
    of_ticks (pos (suc t)) k = (t, refl, ground arith)
    of_ticks (negsuc j) k = ground arith

sized_qty :
    (id : String) (m : Money) (p : Price) (n t : ℕ)
    → 1 ≤ n
    → p.ticks ≡ pos (suc t)
    → shares_for m p ≡ pos n
    → size_order id (some m) (some p) ≡ ok (record { shares = n })
unfolding size_order to_qty
sized_qty id m p zero t least e h = absurd (omega arith)
sized_qty id m p (suc n) t least e h = ground arith

pub decision_qty :
    (d : Decision) (m : Money) (p q : Price) (n t : ℕ)
    → 1 ≤ n
    → q.ticks ≡ pos (suc t)
    → 100 < suc t
    → m ≡ money (mul (price_amount q) (of_ℕ n))
    → p ≡ q
    → d.proposed_notional ≡ some m
    → d.reference_price ≡ some p
    → order_qty d ≡ ok (record { shares = n })
decision_qty d m p q n t least et big em ep en er =
    let sized =
      sized_qty d.id (money (mul (price_amount q) (of_ℕ n))) q n t least et
        (shares_for-notional q t n et big) in
    cc (sized, em, ep, en, er)

-- Under valid rules and above one cent a share, the order for a plan that passed the entry check
-- has exactly the shares of the plan.
pub order_qty-plan :
    (ticker : String) (rules : RuleSet) (limits : DerivedLimits) (holdings : List String)
    (market_open : Bool) (latest_price : Price) (avg_volume : ℕ)
    (loss_state : Option LossLimitBreach) (plan : EntryPlan) (decision : Decision)
    → rules_valid rules ≡ true
    → check_entry ticker rules limits holdings market_open latest_price avg_volume loss_state
      ≡ ok plan
    → ltb_dec (record { num = pos 1; below = 99 }) (price_amount latest_price) ≡ true
    → decision.proposed_notional ≡ some plan.notional
    → decision.reference_price ≡ some plan.reference_price
    → order_qty decision ≡ ok plan.qty
order_qty-plan ticker rules limits holdings market_open latest_price avg_volume loss_state plan
      decision hr h above en er =
    let (g, sized) =
      (check_entry_iff ticker rules limits holdings market_open latest_price avg_volume loss_state
          plan).0
        h in
    let (least, _, _, _) =
      check_entry_within_limit ticker rules limits holdings market_open latest_price avg_volume
        loss_state plan hr h in
    let (notional, reference) = size_plan-notional ticker limits latest_price plan sized in
    let (t, et, big) = above_cent latest_price above in
    decision_qty decision plan.notional plan.reference_price latest_price plan.qty.shares t least et
      big notional reference en er
