-- ===== src/Report/Metrics/Counts.antt =====
-- What the figures of a report count: the trades and the decisions of its period.
use kyo_trading_tool.Prelude.{
  ℕ, zero, suc, ◌≡◌, refl, sym, ap, ◌∙◌, arith, Bool, true, false, subst, ◌&&◌, Bool-cases, inl,
  inr, ◌↔◌, leb, Option, none, some, List, [], ◌∷◌, map, keep, count, String, str_eq, eq_iff,
  if◌then◌else◌, pos, negsuc, ℤ, ◌+ℤ◌, int_laws,
}
use kyo_trading_tool.Domain.Money.{Money, zero_money, ◌+$◌}
use kyo_trading_tool.Domain.Models.{
  Date, date, ExitReason, Action, RuleCheck, Decision, Position, Trade, EquitySnapshot,
}
use kyo_trading_tool.Report.Metrics.{
  Period, Metrics, in_period, filter_trades_by_period, filter_decisions, tally, is_win, is_loss,
  same_reason, reason_index, bucket_of, decision_bucket, compute, sum_pnl,
}
use kyo_trading_tool.Domain.Money.Laws.{cents-add}
use kyo_trading_tool.Report.Metrics.Tallies.{
  count-ext, count-keep, length-keep, entry, entry-tally-map, total, total-tally-map,
}

-- from the first day on, and to the last day, both included
abbrev pub since : Option Date → Date → Bool
since none day = true
since (some first) day = leb first day

abbrev pub until : Option Date → Date → Bool
until none day = true
until (some last) day = leb day last

abbrev pub within : Period → Date → Bool
within period day = since period.start day && until period.end day

in_period-within : (day : Date) (period : Period) → in_period day period ≡ within period day
unfolding in_period
in_period-within day period = by_bounds day period.start period.end
  where
    by_bounds :
        (day : Date) (start end : Option Date)
        → in_period day (record { start = start; end = end }) ≡ (since start day && until end day)
    by_bounds day none none = refl
    by_bounds day none (some end) = ground arith
    by_bounds day (some start) none = ground arith
    by_bounds day (some start) (some end) = ground arith

-- the trades and the decisions of the period
abbrev pub closed_in : Period → Trade → Bool
closed_in period t = within period (date t.closed_at)

abbrev pub decided_in : Period → Decision → Bool
decided_in period d = within period (date d.decided_at)

-- the four kinds of decisions that a report tells apart
abbrev pub is_skip : Action → RuleCheck → Bool
is_skip Action.skip check = true
is_skip Action.hold check = false
is_skip Action.buy check = false
is_skip Action.sell check = false

abbrev pub is_hold : Action → RuleCheck → Bool
is_hold Action.hold check = true
is_hold Action.skip check = false
is_hold Action.buy check = false
is_hold Action.sell check = false

abbrev pub is_passed_trade : Action → RuleCheck → Bool
is_passed_trade Action.buy RuleCheck.passed = true
is_passed_trade Action.sell RuleCheck.passed = true
is_passed_trade action check = false

abbrev pub is_rejected_trade : Action → RuleCheck → Bool
is_rejected_trade Action.buy RuleCheck.rejected = true
is_rejected_trade Action.sell RuleCheck.rejected = true
is_rejected_trade action check = false

buckets :
    (a : Action) (r : RuleCheck)
    → (str_eq (bucket_of a r) "skip" ≡ is_skip a r)
      × (str_eq (bucket_of a r) "hold" ≡ is_hold a r)
      × (str_eq (bucket_of a r) "passed" ≡ is_passed_trade a r)
      × (str_eq (bucket_of a r) "rejected" ≡ is_rejected_trade a r)
unfolding bucket_of
buckets Action.skip r = (refl, refl, refl, refl)
buckets Action.hold r = (refl, refl, refl, refl)
buckets Action.buy RuleCheck.passed = (refl, refl, refl, refl)
buckets Action.buy RuleCheck.rejected = (refl, refl, refl, refl)
buckets Action.sell RuleCheck.passed = (refl, refl, refl, refl)
buckets Action.sell RuleCheck.rejected = (refl, refl, refl, refl)

-- the sign of a number of cents
abbrev pub gains : ℤ → Bool
gains (pos zero) = false
gains (pos (suc n)) = true
gains (negsuc n) = false

abbrev pub loses : ℤ → Bool
loses (pos n) = false
loses (negsuc n) = true

-- the cents that the trades of the period have won and lost, added up
abbrev pub cents_within : Period → List Trade → ℤ
cents_within period [] = pos 0
cents_within period (t ∷ ts) =
    let rest = cents_within period ts in
    if closed_in period t then t.realized_pnl.cents +ℤ rest else rest

gains-is_win : (t : Trade) → is_win t ≡ gains t.realized_pnl.cents
gains-is_win t = by_cents t.realized_pnl.cents
  where
    by_cents : (z : ℤ) → is_win (record t { realized_pnl = record { cents = z } }) ≡ gains z
    by_cents (pos zero) = refl
    by_cents (pos (suc n)) = ground arith
    by_cents (negsuc n) = ground arith

loses-is_loss : (t : Trade) → is_loss t ≡ loses t.realized_pnl.cents
loses-is_loss t = by_cents t.realized_pnl.cents
  where
    by_cents : (z : ℤ) → is_loss (record t { realized_pnl = record { cents = z } }) ≡ loses z
    by_cents (pos n) = ground arith
    by_cents (negsuc n) = ground arith

sum_pnl-cents :
    (period : Period) (start : Money) (ts : List Trade)
    → (sum_pnl start (filter_trades_by_period ts period)).cents
      ≡ start.cents +ℤ cents_within period ts
unfolding sum_pnl filter_trades_by_period
sum_pnl-cents period start [] = omega int_laws
sum_pnl-cents period start (t ∷ ts) =
    let same = in_period-within (date t.closed_at) period in
    elim (Bool-cases (closed_in period t)) [
      | inl e ↦
          rw (same, e)
            (sum_pnl-cents period (start +$ t.realized_pnl) ts
              ∙ rw (cents-add start t.realized_pnl) (omega int_laws))
      | inr e ↦ rw (same, e) (sum_pnl-cents period start ts)
    ]

reason_of : ℕ → ExitReason
reason_of zero = ExitReason.stop_loss
reason_of (suc zero) = ExitReason.partial_take_profit
reason_of (suc (suc zero)) = ExitReason.trailing_stop
reason_of (suc (suc (suc zero))) = ExitReason.max_holding_days
reason_of (suc (suc (suc (suc n)))) = ExitReason.llm

reason_of-index : (r : ExitReason) → reason_of (reason_index r) ≡ r
unfolding reason_of
reason_of-index ExitReason.stop_loss = refl
reason_of-index ExitReason.partial_take_profit = refl
reason_of-index ExitReason.trailing_stop = refl
reason_of-index ExitReason.max_holding_days = refl
reason_of-index ExitReason.llm = refl

same_reason_iff : (r q : ExitReason) → (same_reason r q ≡ true) ↔ (r ≡ q)
same_reason_iff r q = (
  λ h.
      let equal : reason_index r ≡ reason_index q = ground (arith, h) in
      sym (reason_of-index r) ∙ ap reason_of equal ∙ reason_of-index q,
  λ e. subst (λ x. same_reason r x ≡ true) e (ground arith),
)

-- the trades of the period that pass a test
trades-count :
    (period : Period) (q r : Trade → Bool) (ts : List Trade)
    → ((t : Trade) → q t ≡ r t)
    → count q (filter_trades_by_period ts period) ≡ count (λ t. closed_in period t && r t) ts
unfolding filter_trades_by_period
trades-count period q r ts h =
    count-keep (λ t. in_period (date t.closed_at) period) q ts
    ∙ count-ext (λ t. in_period (date t.closed_at) period && q t) (λ t. closed_in period t && r t)
        ts (λ t. rw (in_period-within (date t.closed_at) period, h t) refl)

-- the decisions of the period in a bucket
decisions-count :
    (period : Period) (bucket : String) (r : Action → RuleCheck → Bool) (ds : List Decision)
    → ((a : Action) (c : RuleCheck) → str_eq (bucket_of a c) bucket ≡ r a c)
    → entry str_eq bucket (tally str_eq (map decision_bucket (filter_decisions ds period)) [])
      ≡ count (λ d. decided_in period d && r d.action d.rule_check) ds
unfolding filter_decisions
decisions-count period bucket r ds h =
    let inside : Decision → Bool = λ d. in_period (date d.decided_at) period in
    let here : Decision → Bool = λ d. str_eq (decision_bucket d) bucket in
    entry-tally-map str_eq eq_iff bucket decision_bucket (keep inside ds)
    ∙ count-keep inside here ds
    ∙ count-ext (λ d. inside d && here d) (λ d. decided_in period d && r d.action d.rule_check) ds
        (λ d. rw (in_period-within (date d.decided_at) period, h d.action d.rule_check) refl)

-- what the figures of a report say of the trades and the decisions
pub record Counted (trades : List Trade) (decisions : List Decision) (period : Period) (m : Metrics)
    : Type 0 where
  pub closed : m.trade_count ≡ count (closed_in period) trades
  pub won : m.win_count ≡ count (λ t. closed_in period t && gains t.realized_pnl.cents) trades
  pub lost : m.loss_count ≡ count (λ t. closed_in period t && loses t.realized_pnl.cents) trades
  pub profit : m.period_pnl.cents ≡ cents_within period trades
  pub reasons :
      (r : ExitReason)
      → entry same_reason r m.exit_reason_counts
        ≡ count (λ t. closed_in period t && same_reason t.exit_reason r) trades
  pub skipped :
      entry str_eq "skip" m.decision_counts
      ≡ count (λ d. decided_in period d && is_skip d.action d.rule_check) decisions
  pub held :
      entry str_eq "hold" m.decision_counts
      ≡ count (λ d. decided_in period d && is_hold d.action d.rule_check) decisions
  pub passed :
      entry str_eq "passed" m.decision_counts
      ≡ count (λ d. decided_in period d && is_passed_trade d.action d.rule_check) decisions
  pub rejected :
      entry str_eq "rejected" m.decision_counts
      ≡ count (λ d. decided_in period d && is_rejected_trade d.action d.rule_check) decisions
  pub decided : total m.decision_counts ≡ count (decided_in period) decisions

-- A report counts, of all trades, those closed from the first to the last day of the period, both
-- included; among them the ones with a gain, the ones with a loss and, for each exit reason, the
-- ones with that reason; and its profit is the exact sum of their cents. Of the decisions made from
-- the first to the last day it counts the skipped ones, the held ones, the buys and sells that
-- passed the rules and those that were rejected, and these counts add up to all of them.
pub compute-Counted :
    (trades : List Trade) (decisions : List Decision) (snapshots : List EquitySnapshot)
    (positions : List Position) (period : Period)
    → Counted trades decisions period (compute trades decisions snapshots positions period)
unfolding compute filter_trades_by_period filter_decisions
compute-Counted trades decisions snapshots positions period =
    let ts = filter_trades_by_period trades period in
    let ds = filter_decisions decisions period in
    record {
      closed =
          length-keep _ trades
          ∙ count-ext _ _ trades (λ t. in_period-within (date t.closed_at) period);
      won = trades-count period is_win _ trades gains-is_win;
      lost = trades-count period is_loss _ trades loses-is_loss;
      profit = sum_pnl-cents period zero_money trades ∙ omega int_laws;
      reasons = λ r.
          entry-tally-map same_reason same_reason_iff r (λ (t : Trade). t.exit_reason) ts
          ∙ trades-count period (λ t. same_reason t.exit_reason r)
              (λ t. same_reason t.exit_reason r) trades (λ t. refl);
      skipped = decisions-count period "skip" is_skip decisions (λ a c. (buckets a c).0);
      held = decisions-count period "hold" is_hold decisions (λ a c. (buckets a c).1);
      passed = decisions-count period "passed" is_passed_trade decisions (λ a c. (buckets a c).2);
      rejected =
          decisions-count period "rejected" is_rejected_trade decisions (λ a c. (buckets a c).3);
      decided =
          total-tally-map str_eq decision_bucket ds
          ∙ length-keep _ decisions
          ∙ count-ext _ _ decisions (λ d. in_period-within (date d.decided_at) period);
    }
