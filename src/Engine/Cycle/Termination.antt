-- ===== src/Engine/Cycle/Termination.antt =====
-- A cycle ends, and sends no more orders than it has decisions.
use kyo_trading_tool.Engine.Cycle.Ending.{Sent, Sent-le, execute_decisions-Sent}
use kyo_trading_tool.Prelude.{
  ℕ, ◌+◌, ◌≤◌, ◌≡◌, refl, sym, subst, arith, Bool-cases, inl, inr, Bool, true, false, Option, none,
  some, List, [], ◌∷◌, ◌++◌ as append, length, length-append, count, String, leb, if◌then◌else◌,
}
use kyo_trading_tool.Domain.Result.{Result, ok, err, raised}
use kyo_trading_tool.Domain.Money.{Money}
use kyo_trading_tool.Domain.Models.{DateTime, Note, Position, Decision}
use kyo_trading_tool.Rules.Loss.{LossLimitBreach}
use kyo_trading_tool.Ledger.Db.{Conn, LedgerError}
use kyo_trading_tool.Ledger.Portfolio.{list_positions}
use kyo_trading_tool.Ledger.Sources.{list_mentions}
use kyo_trading_tool.Broker.{BrokerError, BrokerAccount}
use kyo_trading_tool.Market.{MarketError, MarketClock}
use kyo_trading_tool.Engine.KillSwitch.{is_halted, KillSwitchError, KillSwitchOutcome}
use kyo_trading_tool.Engine.Holdings.{HoldingsOutcome, Evaluated}
use kyo_trading_tool.Engine.Candidates.Deciding.{Candidates, evaluate_candidates}
use kyo_trading_tool.Engine.Cycle.{
  CycleStatus, CycleError, CycleOutcome, CycleDeps, Ended, finish, nothing_sent, Risk, stop,
  stop_with, after_kill, on_breach, check_losses, on_account, evaluate_risk, serenity_source_id,
}
use kyo_trading_tool.Engine.Cycle.Committed.{Finished, finish-Finished}
use kyo_trading_tool.Engine.Cycle.Executing.{
  Executed, is_executable, execute_decisions, execute_passed_decisions,
}
use kyo_trading_tool.Engine.Cycle.Running.{
  Ran, ran, end_with, holdings_of, end_halted, end_sent, send_if_open, after_candidates, setup_of,
  buy_or_skip, after_risk, by_prices, after_holdings, on_clock, in_cycle, after_insert, run_locked,
  tickers_of,
}

-- the cycle returns, with no more orders than decisions
abbrev pub EndsWithin : {S : Type 0} → Ran S → Type 0
EndsWithin none = ⊥
EndsWithin (some (ok out, _, _)) = out.orders ≤ out.decisions
EndsWithin (some (err _, _, _)) = Unit {0}
EndsWithin (some (raised _, _, _)) = Unit {0}

count-length : {A : Type 0} (p : A → Bool) (xs : List A) → count p xs ≤ length xs
count-length p [] = omega arith
count-length p (x ∷ xs) = ground (arith, count-length p xs)

of_finish :
    {S : Type 0} (out : CycleOutcome) (c : Conn) (s : S) (x : Ended)
    → out.orders ≤ out.decisions
    → Finished out c x
    → EndsWithin (ran s x)
of_finish out c s (ok o, d) l h = subst (λ w. w.orders ≤ w.decisions) (sym h.0) l
of_finish out c s (err e, d) l h = tt
of_finish out c s (raised x, d) l h = tt

abbrev RiskWithin : {S : Type 0} → Risk S → Type 0
RiskWithin (none, c, s) = Unit {0}
RiskWithin (some r, c, s) = EndsWithin (some (r, c, s))

of_stop : {S : Type 0} (s : S) (x : Ended) → EndsWithin (ran s x) → RiskWithin (stop s x)
of_stop s (r, c) h = h

module _ {S : Type 0} (deps : CycleDeps S) (cycle_id : String) where
  finish-EndsWithin :
      (out : CycleOutcome) (now : DateTime) (c : Conn) (s : S)
      → out.orders ≤ out.decisions
      → EndsWithin (ran s (finish out now c))
  finish-EndsWithin out now c s l =
      of_finish out c s (finish out now c) l (finish-Finished out now c)

  end_with-EndsWithin :
      (status : CycleStatus) (summary : Option Note) (n : ℕ) (c : Conn) (s : S)
      → EndsWithin (end_with deps cycle_id status summary n c s)
  end_with-EndsWithin status summary n c s =
      finish-EndsWithin (nothing_sent cycle_id status summary n) (deps.clock.now s) c s
        (omega arith)

  stop_with-RiskWithin :
      (n : ℕ) (status : CycleStatus) (summary : Note) (c : Conn) (s : S)
      → RiskWithin (stop_with deps cycle_id n status summary c s)
  stop_with-RiskWithin n status summary c s =
      of_stop s (finish (nothing_sent cycle_id status (some summary) n) (deps.clock.now s) c)
        (end_with-EndsWithin status (some summary) n c s)

  after_kill-RiskWithin :
      (n : ℕ) (b : LossLimitBreach) (x : (Result KillSwitchError KillSwitchOutcome × Conn) × S)
      → RiskWithin (after_kill deps cycle_id n b x)
  unfolding after_kill
  after_kill-RiskWithin n b ((ok out, c), s) =
      stop_with-RiskWithin n CycleStatus.halted b.reason c s
  after_kill-RiskWithin n b ((err e, c), s) = stop_with-RiskWithin n CycleStatus.error _ c s
  after_kill-RiskWithin n b ((raised x, c), s) = tt

  on_breach-RiskWithin :
      (n : ℕ) (o : Option LossLimitBreach) (c : Conn) (s : S)
      → RiskWithin (on_breach deps cycle_id n o c s)
  unfolding on_breach
  on_breach-RiskWithin n none c s = tt
  on_breach-RiskWithin n (some b) c s = after_kill-RiskWithin n b _

  check_losses-RiskWithin :
      (n : ℕ) (u e p : Money) (now : DateTime) (s : S) (x : Result LedgerError (Unit {0}) × Conn)
      → RiskWithin (check_losses deps cycle_id n u e p now s x)
  unfolding check_losses
  check_losses-RiskWithin n u e p now s (ok _, c) = on_breach-RiskWithin n _ c s
  check_losses-RiskWithin n u e p now s (err m, c) = stop_with-RiskWithin n CycleStatus.error _ c s
  check_losses-RiskWithin n u e p now s (raised x, c) = tt

  on_account-RiskWithin :
      (n : ℕ) (holdings : HoldingsOutcome) (c : Conn) (x : Result BrokerError BrokerAccount × S)
      → RiskWithin (on_account deps cycle_id n holdings c x)
  unfolding on_account
  on_account-RiskWithin n holdings c (ok account, s) = check_losses-RiskWithin n _ _ _ _ s _
  on_account-RiskWithin n holdings c (err m, s) =
      stop_with-RiskWithin n CycleStatus.market_unavailable _ c s
  on_account-RiskWithin n holdings c (raised x, s) = tt

  end_halted-EndsWithin : (x : Evaluated S) → EndsWithin (end_halted deps cycle_id x)
  unfolding end_halted
  end_halted-EndsWithin (ok out, c, s) = end_with-EndsWithin CycleStatus.halted _ _ c s
  end_halted-EndsWithin (err e, c, s) = end_with-EndsWithin CycleStatus.halted _ 0 c s
  end_halted-EndsWithin (raised x, c, s) = tt

  end_sent-EndsWithin :
      (status : CycleStatus) (summary skipped : Option Note) (n : ℕ) (x : Executed S)
      → Sent n x
      → EndsWithin (end_sent deps cycle_id status summary skipped n x)
  unfolding end_sent
  end_sent-EndsWithin status summary skipped n none h = h
  end_sent-EndsWithin status summary skipped n (some (ok (o, f), c, s)) h =
      finish-EndsWithin _ (deps.clock.now s) c s h
  end_sent-EndsWithin status summary skipped n (some (err e, c, s)) h = tt
  end_sent-EndsWithin status summary skipped n (some (raised x, c, s)) h = tt

  module _ (interval : 1 ≤ deps.poll_interval_s) where
    send_if_open-Sent :
        (mc : MarketClock) (holdings : HoldingsOutcome) (ds : List Decision) (c : Conn) (s : S)
        → Sent (length ds) (send_if_open deps cycle_id mc holdings ds c s)
    unfolding send_if_open execute_passed_decisions
    send_if_open-Sent mc holdings ds c s =
        let reasons = holdings.exit_reasons in
        elim mc.is_open
          as (λ b. Sent (length ds) (
            if b
            then execute_decisions deps reasons mc ds (0, 0) c s
            else some (ok (0, 0), c, s))) [
              | true ↦
                  Sent-le (0 + count is_executable ds) (length ds)
                    (execute_decisions deps reasons mc ds (0, 0) c s)
                    (omega (arith, count-length is_executable ds))
                    (execute_decisions-Sent deps reasons mc interval ds 0 0 c s)
              | false ↦ omega arith
            ]

    after_candidates-EndsWithin :
        (mc : MarketClock) (holdings : HoldingsOutcome) (x : Candidates S)
        → EndsWithin (after_candidates deps cycle_id mc holdings x)
    unfolding after_candidates
    after_candidates-EndsWithin mc holdings (ok ds, c, s) =
        let all = append holdings.decisions ds in
        end_sent-EndsWithin CycleStatus.finished none none _ _ (
          Sent-le (length all) (length holdings.decisions + length ds)
            (send_if_open deps cycle_id mc holdings all c s)
            (omega (arith, length-append holdings.decisions ds))
            (send_if_open-Sent mc holdings all c s))
    after_candidates-EndsWithin mc holdings (err e, c, s) =
        end_with-EndsWithin CycleStatus.error _ _ c s
    after_candidates-EndsWithin mc holdings (raised x, c, s) = tt

    buy_or_skip-EndsWithin :
        (mc : MarketClock) (ps : List Position) (holdings : HoldingsOutcome) (c : Conn) (s : S)
        → EndsWithin (buy_or_skip deps cycle_id mc ps holdings c s)
    unfolding buy_or_skip
    buy_or_skip-EndsWithin mc ps holdings c s =
        elim (Bool-cases (leb deps.rules.position.max_concurrent_positions (length ps))) [
          | inl e ↦ rw e (
              end_sent-EndsWithin CycleStatus.finished none _ _ _
                (send_if_open-Sent mc holdings holdings.decisions c s))
          | inr e ↦ rw e (
              after_candidates-EndsWithin mc holdings (
                evaluate_candidates (setup_of deps cycle_id mc)
                  (list_mentions c.tables serenity_source_id) (tickers_of ps) c s))
        ]

    after_risk-EndsWithin :
        (mc : MarketClock) (ps : List Position) (holdings : HoldingsOutcome) (x : Risk S)
        → RiskWithin x
        → EndsWithin (after_risk deps cycle_id mc ps holdings x)
    unfolding after_risk
    after_risk-EndsWithin mc ps holdings (some r, c, s) h = h
    after_risk-EndsWithin mc ps holdings (none, c, s) h = buy_or_skip-EndsWithin mc ps holdings c s

    by_prices-EndsWithin :
        (mc : MarketClock) (ps : List Position) (holdings : HoldingsOutcome) (ts : List String)
        (c : Conn) (s : S)
        → EndsWithin (by_prices deps cycle_id mc ps holdings ts c s)
    unfolding by_prices evaluate_risk
    by_prices-EndsWithin mc ps holdings [] c s =
        after_risk-EndsWithin mc ps holdings
          (evaluate_risk deps cycle_id (length holdings.decisions) holdings c s)
          (on_account-RiskWithin (length holdings.decisions) holdings c (deps.broker.account s))
    by_prices-EndsWithin mc ps holdings (t ∷ ts) c s =
        end_sent-EndsWithin CycleStatus.market_unavailable _ none _ _
          (send_if_open-Sent mc holdings holdings.decisions c s)

    after_holdings-EndsWithin :
        (mc : MarketClock) (ps : List Position) (x : Evaluated S)
        → EndsWithin (after_holdings deps cycle_id mc ps x)
    unfolding after_holdings
    after_holdings-EndsWithin mc ps (ok holdings, c, s) =
        by_prices-EndsWithin mc ps holdings holdings.market_errors c s
    after_holdings-EndsWithin mc ps (err e, c, s) = end_with-EndsWithin CycleStatus.error _ 0 c s
    after_holdings-EndsWithin mc ps (raised x, c, s) = tt

    on_clock-EndsWithin :
        (c : Conn) (x : Result MarketError MarketClock × S)
        → EndsWithin (on_clock deps cycle_id c x)
    unfolding on_clock
    on_clock-EndsWithin c (ok mc, s) =
        after_holdings-EndsWithin mc (list_positions c.tables) (holdings_of deps cycle_id c s)
    on_clock-EndsWithin c (err m, s) = end_with-EndsWithin CycleStatus.market_unavailable _ 0 c s
    on_clock-EndsWithin c (raised x, s) = tt

    in_cycle-EndsWithin : (c : Conn) (s : S) → EndsWithin (in_cycle deps cycle_id c s)
    unfolding in_cycle
    in_cycle-EndsWithin c s = elim (Bool-cases (is_halted c.tables)) [
      | inl e ↦ rw e (end_halted-EndsWithin (holdings_of deps cycle_id c s))
      | inr e ↦ rw e (on_clock-EndsWithin c (deps.market.market_clock s))
    ]

    after_insert-EndsWithin :
        (s : S) (x : Result LedgerError (Unit {0}) × Conn)
        → EndsWithin (after_insert deps cycle_id s x)
    unfolding after_insert
    after_insert-EndsWithin s (ok _, c) = in_cycle-EndsWithin c s
    after_insert-EndsWithin s (err e, c) = tt
    after_insert-EndsWithin s (raised x, c) = tt

returned :
    {S : Type 0} (o : Ran S)
    → EndsWithin o
    → (x : Result CycleError CycleOutcome × Conn × S) × (o ≡ some x) × EndsWithin (some x)
returned none h = absurd h
returned (some (r, c, s)) h = ((r, c, s), refl, h)

-- For a polling interval of at least a second, a cycle returns, whatever the market, the LLM and the
-- broker answer; and where it returns `Ok`, it has sent no more orders than it has made decisions.
pub run_locked-terminates :
    {S : Type 0} (deps : CycleDeps S) (c : Conn) (s : S)
    → 1 ≤ deps.poll_interval_s
    → (x : Result CycleError CycleOutcome × Conn × S) × (run_locked deps c s ≡ some x)
      × EndsWithin (some x)
unfolding run_locked
run_locked-terminates deps c s i =
    returned (run_locked deps c s) (after_insert-EndsWithin deps _ i _ _)
