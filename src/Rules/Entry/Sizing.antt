-- ===== src/Rules/Entry/Sizing.antt =====
-- What a plan to buy promises.
use native.Mathlib.Nat.{div-add-mod'}
use kyo_trading_tool.Prelude.{
  ℕ, zero, suc, ◌+◌, ◌*◌, ◌/◌, ◌≤◌, ◌<◌, ◌≡◌, ◌↔◌, arith, refl, sym, subst, Bool, true, false,
  Option, none, List, String, length, contains, ℤ, pos, negsuc, ◌*ℤ◌, mul_pos_parts, ◌≤ℤ◌, ◌<ℤ◌,
  ltb_ℤ→lt, leb_ℤ→le,
}
use kyo_trading_tool.Domain.Result.{ok}
use kyo_trading_tool.Domain.Decimal.{
  Decimal, den, of_ℕ, mul, div, quot_fraction, trunc_div, mul_below, leb_dec, ltb_dec,
}
use kyo_trading_tool.Domain.Decimal.Rounding.{quantize_le}
use kyo_trading_tool.Domain.Money.{Money, Price, amount, price_amount, money, money_le}
use kyo_trading_tool.Rules.Schema.{RuleSet, DerivedLimits, rules_valid, entry_valid}
use kyo_trading_tool.Rules.Loss.{LossLimitBreach}
use kyo_trading_tool.Rules.Entry.{EntryPlan, size_plan, check_entry}

-- Every guard of the entry check.
pub record IsEligible (ticker : String) (rules : RuleSet) (limits : DerivedLimits)
    (holdings : List String) (market_open : Bool) (latest_price : Price) (avg_volume : ℕ)
    (loss_state : Option LossLimitBreach) : Type 0 where
  pub not_excluded : contains ticker rules.entry.excluded_tickers ≡ false
  pub not_held : contains ticker holdings ≡ false
  pub slot_free : length holdings < rules.position.max_concurrent_positions
  pub open_market : market_open ≡ true
  pub no_breach : loss_state ≡ none
  pub price_high : leb_dec rules.entry.min_price_usd (price_amount latest_price) ≡ true
  pub volume_high : rules.entry.min_avg_daily_volume ≤ avg_volume
  pub affordable :
      leb_dec (price_amount latest_price) (amount limits.max_notional_per_ticker) ≡ true

-- `check_entry` returns a plan exactly when every guard holds and `size_plan` returns that plan.
pub check_entry_iff :
    (ticker : String) (rules : RuleSet) (limits : DerivedLimits) (holdings : List String)
    (market_open : Bool) (latest_price : Price) (avg_volume : ℕ)
    (loss_state : Option LossLimitBreach) (plan : EntryPlan)
    → (check_entry ticker rules limits holdings market_open latest_price avg_volume loss_state
        ≡ ok plan)
      ↔ (IsEligible ticker rules limits holdings market_open latest_price avg_volume loss_state
          × (size_plan ticker limits latest_price ≡ ok plan))
unfolding check_entry
check_entry_iff ticker rules limits holdings market_open latest_price avg_volume loss_state plan =
    ground arith

positive_at_least :
    (k : ℕ) (z n : ℤ) (b : ℕ)
    → 0 < k
    → pos 0 <ℤ n
    → n *ℤ pos k ≤ℤ z *ℤ pos (suc b)
    → (t : ℕ) × (z ≡ pos (suc t))
positive_at_least k (pos zero) n b hk hn hz =
    absurd (grind (arith, mul_pos_parts n k, mul_pos_parts (pos zero) (suc b)))
positive_at_least k (pos (suc t)) n b hk hn hz = (t, refl)
positive_at_least k (negsuc j) n b hk hn hz =
    absurd (grind (arith, mul_pos_parts n k, mul_pos_parts (negsuc j) (suc b)))

price_positive :
    (p : Price) (m : Decimal)
    → ltb_dec (of_ℕ 0) m ≡ true
    → leb_dec m (price_amount p) ≡ true
    → (t : ℕ) × (p.ticks ≡ pos (suc t))
price_positive p m hm hp =
    positive_at_least 10000 p.ticks m.num m.below (omega arith)
      (omega (
        arith,
        mul_pos_parts m.num 1,
        mul_pos_parts (pos 0) (den m),
        ltb_ℤ→lt (pos 0 *ℤ pos (den m)) (m.num *ℤ pos 1) hm,
      ))
      (leb_ℤ→le (m.num *ℤ pos 10000) (p.ticks *ℤ pos (den m)) hp)

-- the quotient of the limit by the price, in whole shares
whole_shares : (c t : ℕ) → ℕ
whole_shares c t = c * 10000 / suc (mul_below 99 t)

whole_shares_maximal :
    (c t : ℕ) → (whole_shares c t * suc t ≤ c * 100) × (c * 100 < (whole_shares c t + 1) * suc t)
unfolding whole_shares
whole_shares_maximal c t = omega (arith, div-add-mod' (c * 10000) (suc (mul_below 99 t)))

-- For a positive price the plan is sized by that quotient.
size_plan-whole_shares :
    (ticker : String) (limits : DerivedLimits) (latest_price : Price) (plan : EntryPlan) (t c : ℕ)
    → latest_price.ticks ≡ pos (suc t)
    → limits.max_notional_per_ticker.cents ≡ pos c
    → size_plan ticker limits latest_price ≡ ok plan
    → (plan.qty.shares ≡ whole_shares c t)
      × (plan.reference_price ≡ latest_price)
      × (plan.notional ≡ money (mul (price_amount latest_price) (of_ℕ (whole_shares c t))))
      × (plan.limit ≡ limits.max_notional_per_ticker)
unfolding size_plan div quot_fraction trunc_div whole_shares
size_plan-whole_shares ticker limits latest_price plan t c ht hc h = ground arith

rules_valid-entry_valid :
    (rules : RuleSet) → rules_valid rules ≡ true → entry_valid rules.entry ≡ true
unfolding rules_valid
rules_valid-entry_valid rules h = ground arith

rules_valid-min_price :
    (rules : RuleSet) → rules_valid rules ≡ true → ltb_dec (of_ℕ 0) rules.entry.min_price_usd ≡ true
unfolding entry_valid
rules_valid-min_price rules h = rules_valid-entry_valid rules h

price-le :
    (p : Price) (limit : Money) (t c : ℕ)
    → p.ticks ≡ pos (suc t)
    → limit.cents ≡ pos c
    → leb_dec (price_amount p) (amount limit) ≡ true
    → suc t ≤ c * 100
price-le p limit t c ep el h = ground arith

module _ (p : Price) (limit : Money) (t c n : ℕ) (ep : p.ticks ≡ pos (suc t))
    (el : limit.cents ≡ pos c) where
  cost-le : n * suc t ≤ c * 100 → leb_dec (mul (price_amount p) (of_ℕ n)) (amount limit) ≡ true
  unfolding mul
  cost-le h = ground arith

  cost-gt : c * 100 < n * suc t → ltb_dec (amount limit) (mul (price_amount p) (of_ℕ n)) ≡ true
  unfolding mul
  cost-gt h = ground arith

  notional-le :
      (m : Money)
      → m ≡ money (mul (price_amount p) (of_ℕ n))
      → n * suc t ≤ c * 100
      → money_le m limit ≡ true
  unfolding mul money
  notional-le m em h = ground (arith, quantize_le 100 (mul (price_amount p) (of_ℕ n)) limit.cents)

positive_ticks : (z : ℤ) (t : ℕ) → z ≡ pos (suc t) → pos 0 <ℤ z
positive_ticks z t e = rw e (omega arith)

shares_path : {a b : ℕ} (P : ℕ → Type 0) → a ≡ b → P b → P a
shares_path P e h = subst P (sym e) h

at_least_one : (n c t : ℕ) → suc t ≤ c * 100 → c * 100 < (n + 1) * suc t → 1 ≤ n
at_least_one zero c t h k = absurd (omega arith)
at_least_one (suc n) c t h k = omega arith

-- Under valid rules a plan buys at least one share, costs no more than the limit before and after
-- its notional is rounded to the cent, and one more share would cost more than the limit.
pub check_entry_within_limit :
    (ticker : String) (rules : RuleSet) (limits : DerivedLimits) (holdings : List String)
    (market_open : Bool) (latest_price : Price) (avg_volume : ℕ)
    (loss_state : Option LossLimitBreach) (plan : EntryPlan)
    → rules_valid rules ≡ true
    → check_entry ticker rules limits holdings market_open latest_price avg_volume loss_state
      ≡ ok plan
    → (1 ≤ plan.qty.shares)
      × (money_le plan.notional limits.max_notional_per_ticker ≡ true)
      × (leb_dec
            (mul (price_amount latest_price) (of_ℕ plan.qty.shares))
            (amount limits.max_notional_per_ticker)
          ≡ true)
      × (ltb_dec
            (amount limits.max_notional_per_ticker)
            (mul (price_amount latest_price) (of_ℕ (plan.qty.shares + 1)))
          ≡ true)
check_entry_within_limit ticker rules limits holdings market_open latest_price avg_volume loss_state
      plan hr h =
    let (g, sized) =
      (check_entry_iff ticker rules limits holdings market_open latest_price avg_volume loss_state
          plan).0
        h in
    let (t, et) =
      price_positive latest_price rules.entry.min_price_usd (rules_valid-min_price rules hr)
        g.price_high in
    let fits =
      leb_ℤ→le (latest_price.ticks *ℤ pos 100) (limits.max_notional_per_ticker.cents *ℤ pos 10000)
        g.affordable in
    let (c, ec) =
      positive_at_least 100 limits.max_notional_per_ticker.cents latest_price.ticks 9999
        (omega arith) (omega (arith, positive_ticks latest_price.ticks t et)) fits in
    let (es, er, en, el) =
      size_plan-whole_shares ticker limits latest_price plan t (suc c) et ec sized in
    let (least, most) = whole_shares_maximal (suc c) t in
    let n = plan.qty.shares in
    let under : n * suc t ≤ suc c * 100 = shares_path (λ k. k * suc t ≤ suc c * 100) es least in
    let over : suc c * 100 < (n + 1) * suc t =
      shares_path (λ k. suc c * 100 < (k + 1) * suc t) es most in
    let p = latest_price in
    let limit = limits.max_notional_per_ticker in
    (
      at_least_one n (suc c) t (price-le p limit t (suc c) et ec g.affordable) over,
      notional-le p limit t (suc c) (whole_shares (suc c) t) et ec plan.notional en least,
      cost-le p limit t (suc c) n et ec under,
      cost-gt p limit t (suc c) (n + 1) et ec over,
    )

-- Whatever the price, the notional of a plan is that of its shares.
pub size_plan-notional :
    (ticker : String) (limits : DerivedLimits) (latest_price : Price) (plan : EntryPlan)
    → size_plan ticker limits latest_price ≡ ok plan
    → (plan.notional ≡ money (mul (price_amount latest_price) (of_ℕ plan.qty.shares)))
      × (plan.reference_price ≡ latest_price)
unfolding size_plan
size_plan-notional ticker limits latest_price plan h = ground arith
