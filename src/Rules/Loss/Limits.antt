-- ===== src/Rules/Loss/Limits.antt =====
-- Which loss limit halts the engine.
use kyo_trading_tool.Prelude.{
  ℕ, ◌≤◌, ◌≡◌, subst, arith, Bool, true, false, Option, none, some, ℤ, pos, ◌≤ℤ◌, ◌<ℤ◌, ◌*ℤ◌, ◌+ℤ◌,
  ◌-ℤ◌, leb_ℤ, int_laws, mul_pos_parts, leb_ℤ→le, leb_ℤ→gt, ltb_ℤ→lt, ltb_ℤ→ge, Bool-cases, inl,
  inr,
}
use kyo_trading_tool.Domain.Decimal.{leb_dec}
use kyo_trading_tool.Domain.Money.{Money, amount, ◌+$◌}
use kyo_trading_tool.Domain.Money.Laws.{cents-add}
use kyo_trading_tool.Rules.Schema.{DerivedLimits}
use kyo_trading_tool.Rules.Loss.{
  LossKind, daily, weekly, drawdown, LossLimitBreach, negated, drawdown_of, is_positive, evaluate,
}

-- the amounts that `evaluate` is given
pub record Figures : Type 0 where
  pub limits : DerivedLimits
  pub realized_today : Money
  pub unrealized_now : Money
  pub realized_week : Money
  pub equity : Money
  pub peak_equity : Money

abbrev pub evaluated : Figures → Option LossLimitBreach
evaluated f =
    evaluate f.limits f.realized_today f.unrealized_now f.realized_week f.equity f.peak_equity

-- When a limit is reached, money in whole cents: a loss is reached when it eats up the limit, a
-- drawdown when the peak is positive and the percentage is at the limit or over it.
abbrev pub LimitReached : Figures → LossKind → Type 0
LimitReached f daily =
    f.realized_today.cents +ℤ f.unrealized_now.cents +ℤ f.limits.max_daily_loss.cents ≤ℤ pos 0
LimitReached f weekly =
    f.realized_week.cents +ℤ f.unrealized_now.cents +ℤ f.limits.max_weekly_loss.cents ≤ℤ pos 0
LimitReached f drawdown =
    (pos 0 <ℤ f.peak_equity.cents)
    × (leb_dec f.limits.max_drawdown_pct (drawdown_of f.peak_equity f.equity) ≡ true)

abbrev pub loss_rank : LossKind → ℕ
loss_rank daily = 0
loss_rank weekly = 1
loss_rank drawdown = 2

-- nothing where no limit is reached; else the first one that is reached
abbrev pub FirstBreach : Figures → Option LossLimitBreach → Type 0
FirstBreach f none = (k : LossKind) → ¬ (LimitReached f k)
FirstBreach f (some b) =
    LimitReached f b.kind × ((k : LossKind) → LimitReached f k → loss_rank b.kind ≤ loss_rank k)

abbrev loss_test : ℤ → Money → Bool
loss_test z m = leb_ℤ (z *ℤ pos 100) ((pos 0 -ℤ m.cents) *ℤ pos 100)

loss_test-true : (z : ℤ) (m : Money) → loss_test z m ≡ true → z +ℤ m.cents ≤ℤ pos 0
loss_test-true z m h = omega (
  int_laws,
  leb_ℤ→le (z *ℤ pos 100) ((pos 0 -ℤ m.cents) *ℤ pos 100) h,
  mul_pos_parts z 100,
  mul_pos_parts (pos 0 -ℤ m.cents) 100,
)

loss_test-false : (z : ℤ) (m : Money) → loss_test z m ≡ false → ¬ (z +ℤ m.cents ≤ℤ pos 0)
loss_test-false z m h k = omega (
  int_laws,
  leb_ℤ→gt (z *ℤ pos 100) ((pos 0 -ℤ m.cents) *ℤ pos 100) h,
  mul_pos_parts z 100,
  mul_pos_parts (pos 0 -ℤ m.cents) 100,
)

-- the test of `evaluate` on a sum, against the cents
total_reached :
    (a b m : Money)
    → leb_dec (amount (a +$ b)) (negated m) ≡ true
    → a.cents +ℤ b.cents +ℤ m.cents ≤ℤ pos 0
total_reached a b m h =
    loss_test-true (a.cents +ℤ b.cents) m (subst (λ z. loss_test z m ≡ true) (cents-add a b) h)

total_within :
    (a b m : Money)
    → leb_dec (amount (a +$ b)) (negated m) ≡ false
    → ¬ (a.cents +ℤ b.cents +ℤ m.cents ≤ℤ pos 0)
total_within a b m h =
    loss_test-false (a.cents +ℤ b.cents) m (subst (λ z. loss_test z m ≡ false) (cents-add a b) h)

peak_positive : (m : Money) → is_positive m ≡ true → pos 0 <ℤ m.cents
peak_positive m h =
    omega (int_laws, ltb_ℤ→lt (pos 0 *ℤ pos 100) (m.cents *ℤ pos 1) h, mul_pos_parts m.cents 1)

peak_not_positive : (m : Money) → is_positive m ≡ false → ¬ (pos 0 <ℤ m.cents)
peak_not_positive m h k =
    omega (int_laws, ltb_ℤ→ge (pos 0 *ℤ pos 100) (m.cents *ℤ pos 1) h, mul_pos_parts m.cents 1)

after_daily :
    (f : Figures) → ¬ (LimitReached f daily) → (k : LossKind) → LimitReached f k → 1 ≤ loss_rank k
after_daily f n daily h = absurd (n h)
after_daily f n weekly h = omega arith
after_daily f n drawdown h = omega arith

after_weekly :
    (f : Figures)
    → ¬ (LimitReached f daily)
    → ¬ (LimitReached f weekly)
    → (k : LossKind) → LimitReached f k
    → 2 ≤ loss_rank k
after_weekly f n m daily h = absurd (n h)
after_weekly f n m weekly h = absurd (m h)
after_weekly f n m drawdown h = omega arith

no_limit :
    (f : Figures)
    → ¬ (LimitReached f daily)
    → ¬ (LimitReached f weekly)
    → ¬ (LimitReached f drawdown)
    → (k : LossKind) → ¬ (LimitReached f k)
no_limit f n m l daily h = n h
no_limit f n m l weekly h = m h
no_limit f n m l drawdown h = l h

-- `evaluate` reports the first limit that is reached (the daily loss, the weekly loss, the
-- drawdown), and `None` exactly when none is: the two losses are compared in whole cents, realized
-- plus unrealized, and the drawdown only for a positive peak.
pub evaluate-FirstBreach : (f : Figures) → FirstBreach f (evaluated f)
unfolding evaluate
evaluate-FirstBreach f =
    let daily_total = f.realized_today +$ f.unrealized_now in
    let weekly_total = f.realized_week +$ f.unrealized_now in
    let dt = total_reached f.realized_today f.unrealized_now f.limits.max_daily_loss in
    let df = total_within f.realized_today f.unrealized_now f.limits.max_daily_loss in
    let wt = total_reached f.realized_week f.unrealized_now f.limits.max_weekly_loss in
    let wf = total_within f.realized_week f.unrealized_now f.limits.max_weekly_loss in
    let pt = peak_positive f.peak_equity in
    let pf = peak_not_positive f.peak_equity in
    let peak = Bool-cases (is_positive f.peak_equity) in
    let percent_test = leb_dec f.limits.max_drawdown_pct (drawdown_of f.peak_equity f.equity) in
    elim (Bool-cases (leb_dec (amount daily_total) (negated f.limits.max_daily_loss))) [
      | inl d ↦ rw d (dt d, λ k h. omega arith)
      | inr d ↦
          elim (Bool-cases (leb_dec (amount weekly_total) (negated f.limits.max_weekly_loss))) [
            | inl w ↦ rw (d, w) (wt w, after_daily f (df d))
            | inr w ↦ elim peak [
              | inl p ↦ elim (Bool-cases percent_test) [
                | inl q ↦ rw (d, w, p, q) ((pt p, q), after_weekly f (df d) (wf w))
                | inr q ↦ rw (d, w, p, q) (no_limit f (df d) (wf w) (λ h. ground (arith, q, h.1)))
              ]
              | inr p ↦ rw (d, w, p) (no_limit f (df d) (wf w) (λ h. pf p h.0))
            ]
          ]
    ]
