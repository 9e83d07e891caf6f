-- ===== src/Engine/Cycle/Halted.antt =====
-- What a cycle leaves in the ledger, and that an outcome of `halted` is no lie.
use kyo_trading_tool.Engine.Cycle.State.{SameState, evaluate_positions-SameState}
use kyo_trading_tool.Prelude.{
  ◌≡◌, sym, subst, ap, ◌∙◌, Bool-cases, inl, inr, true, Option, none, some, List, [], ◌∷◌, length,
  String, ℕ, leb,
}
use kyo_trading_tool.Domain.Result.{Result, ok, err, raised}
use kyo_trading_tool.Domain.Money.{Money}
use kyo_trading_tool.Domain.Models.{DateTime, Note, Position}
use kyo_trading_tool.Rules.Loss.{LossLimitBreach}
use kyo_trading_tool.Ledger.Db.{Conn, LedgerError}
use kyo_trading_tool.Ledger.Portfolio.{list_positions}
use kyo_trading_tool.Ledger.Sources.{list_mentions}
use kyo_trading_tool.Broker.{BrokerError, BrokerAccount}
use kyo_trading_tool.Market.{MarketError, MarketClock}
use kyo_trading_tool.Config.{mode_value}
use kyo_trading_tool.Engine.KillSwitch.{is_halted, KillSwitchError, KillSwitchOutcome}
use kyo_trading_tool.Engine.KillSwitch.Halting.{Triggered, trigger-persists_halt}
use kyo_trading_tool.Engine.Holdings.{HoldingsOutcome, Evaluated, evaluate_holdings, empty_holdings}
use kyo_trading_tool.Engine.Candidates.Deciding.{Candidates, evaluate_candidates}
use kyo_trading_tool.Engine.Cycle.{
  CycleStatus, CycleOutcome, CycleDeps, Ended, finish, nothing_sent, Risk, stop, stop_with,
  after_kill, on_breach, check_losses, on_account, evaluate_risk, serenity_source_id,
}
use kyo_trading_tool.Engine.Cycle.Committed.{ClosedRow, Finished, finish-Finished, same_halted}
use kyo_trading_tool.Engine.Cycle.Executing.{Executed}
use kyo_trading_tool.Engine.Cycle.Running.{
  Ran, ran, holdings_of, end_halted, end_sent, after_candidates, setup_of, buy_or_skip, after_risk,
  by_prices, after_holdings, on_clock, in_cycle, after_insert, run_locked, tickers_of,
}

-- what a cycle that returns `Ok` leaves
abbrev pub Recorded : {S : Type 0} → Ran S → Type 0
Recorded none = Unit {0}
Recorded (some (ok out, d, _)) =
    (d.tables ≡ d.committed)
    × ClosedRow out d.committed
    × (out.outcome ≡ CycleStatus.halted → is_halted d.committed ≡ true)
Recorded (some (err _, _, _)) = Unit {0}
Recorded (some (raised _, _, _)) = Unit {0}

of_finish :
    {S : Type 0} (out : CycleOutcome) (c : Conn) (s : S) (x : Ended)
    → (out.outcome ≡ CycleStatus.halted → is_halted c.tables ≡ true)
    → Finished out c x
    → Recorded (ran s x)
of_finish out c s (ok o, d) h (e, seen, row, kept) = (
  seen,
  subst (λ w. ClosedRow w d.committed) (sym e) row,
  λ k. kept ∙ h (sym (ap (λ (w : CycleOutcome). w.outcome) e) ∙ k),
)
of_finish out c s (err e, d) h f = tt
of_finish out c s (raised x, d) h f = tt

-- as a part of the cycle
abbrev RiskRecorded : {S : Type 0} → Risk S → Type 0
RiskRecorded (none, c, s) = Unit {0}
RiskRecorded (some r, c, s) = Recorded (some (r, c, s))

of_stop : {S : Type 0} (s : S) (x : Ended) → Recorded (ran s x) → RiskRecorded (stop s x)
of_stop s (r, c) h = h

module _ {S : Type 0} (deps : CycleDeps S) (cycle_id : String) where
  -- a cycle that ends in another status than `halted`, or while the engine is halted
  finish-Recorded :
      (out : CycleOutcome) (now : DateTime) (c : Conn) (s : S)
      → (out.outcome ≡ CycleStatus.halted → is_halted c.tables ≡ true)
      → Recorded (ran s (finish out now c))
  finish-Recorded out now c s h = of_finish out c s (finish out now c) h (finish-Finished out now c)

  stop_with-RiskRecorded :
      (n : ℕ) (status : CycleStatus) (summary : Note) (c : Conn) (s : S)
      → (status ≡ CycleStatus.halted → is_halted c.tables ≡ true)
      → RiskRecorded (stop_with deps cycle_id n status summary c s)
  stop_with-RiskRecorded n status summary c s h =
      let out = nothing_sent cycle_id status (some summary) n in
      of_stop s (finish out (deps.clock.now s) c) (finish-Recorded out (deps.clock.now s) c s h)

  after_kill-RiskRecorded :
      (n : ℕ) (breach : LossLimitBreach) (reason at : String) (cancel : Result BrokerError ℕ)
      (now : DateTime) (c : Conn) (x : (Result KillSwitchError KillSwitchOutcome × Conn) × S)
      → Triggered reason at cancel now c x.0
      → RiskRecorded (after_kill deps cycle_id n breach x)
  unfolding after_kill
  after_kill-RiskRecorded n breach reason at cancel now c ((ok out, d), s) h =
      stop_with-RiskRecorded n CycleStatus.halted breach.reason d s (λ k. ap is_halted h.1 ∙ h.0.0)
  after_kill-RiskRecorded n breach reason at cancel now c ((err e, d), s) h =
      stop_with-RiskRecorded n CycleStatus.error _ d s (λ k. absurd (cc k))
  after_kill-RiskRecorded n breach reason at cancel now c ((raised e, d), s) h = tt

  on_breach-RiskRecorded :
      (n : ℕ) (o : Option LossLimitBreach) (c : Conn) (s : S)
      → RiskRecorded (on_breach deps cycle_id n o c s)
  unfolding on_breach
  on_breach-RiskRecorded n none c s = tt
  on_breach-RiskRecorded n (some breach) c s = after_kill-RiskRecorded n breach _ _ _ _ c _ (
      trigger-persists_halt deps.library.reason_text deps.library.isoformat deps.broker deps.clock
        breach c s)

  check_losses-RiskRecorded :
      (n : ℕ) (u e p : Money) (now : DateTime) (s : S) (x : Result LedgerError (Unit {0}) × Conn)
      → RiskRecorded (check_losses deps cycle_id n u e p now s x)
  unfolding check_losses
  check_losses-RiskRecorded n u e p now s (ok _, c) = on_breach-RiskRecorded n _ c s
  check_losses-RiskRecorded n u e p now s (err m, c) =
      stop_with-RiskRecorded n CycleStatus.error _ c s (λ k. absurd (cc k))
  check_losses-RiskRecorded n u e p now s (raised x, c) = tt

  on_account-RiskRecorded :
      (n : ℕ) (holdings : HoldingsOutcome) (c : Conn) (x : Result BrokerError BrokerAccount × S)
      → RiskRecorded (on_account deps cycle_id n holdings c x)
  unfolding on_account
  on_account-RiskRecorded n holdings c (ok account, s) = check_losses-RiskRecorded n _ _ _ _ s _
  on_account-RiskRecorded n holdings c (err m, s) =
      stop_with-RiskRecorded n CycleStatus.market_unavailable _ c s (λ k. absurd (cc k))
  on_account-RiskRecorded n holdings c (raised x, s) = tt

  end_sent-Recorded :
      (status : CycleStatus) (summary skipped : Option Note) (n : ℕ) (x : Executed S)
      → (status ≡ CycleStatus.halted → ⊥)
      → Recorded (end_sent deps cycle_id status summary skipped n x)
  unfolding end_sent
  end_sent-Recorded status summary skipped n none h = tt
  end_sent-Recorded status summary skipped n (some (ok (o, f), c, s)) h =
      finish-Recorded _ (deps.clock.now s) c s (λ k. absurd (h k))
  end_sent-Recorded status summary skipped n (some (err e, c, s)) h = tt
  end_sent-Recorded status summary skipped n (some (raised x, c, s)) h = tt

  after_candidates-Recorded :
      (mc : MarketClock) (holdings : HoldingsOutcome) (x : Candidates S)
      → Recorded (after_candidates deps cycle_id mc holdings x)
  unfolding after_candidates
  after_candidates-Recorded mc holdings (ok ds, c, s) =
      end_sent-Recorded CycleStatus.finished none none _ _ (λ k. cc k)
  after_candidates-Recorded mc holdings (err e, c, s) =
      finish-Recorded _ (deps.clock.now s) c s (λ k. absurd (cc k))
  after_candidates-Recorded mc holdings (raised x, c, s) = tt

  buy_or_skip-Recorded :
      (mc : MarketClock) (ps : List Position) (holdings : HoldingsOutcome) (c : Conn) (s : S)
      → Recorded (buy_or_skip deps cycle_id mc ps holdings c s)
  unfolding buy_or_skip
  buy_or_skip-Recorded mc ps holdings c s =
      elim (Bool-cases (leb deps.rules.position.max_concurrent_positions (length ps))) [
        | inl e ↦ rw e (end_sent-Recorded CycleStatus.finished none _ _ _ (λ k. cc k))
        | inr e ↦ rw e (
            after_candidates-Recorded mc holdings (
              evaluate_candidates (setup_of deps cycle_id mc)
                (list_mentions c.tables serenity_source_id) (tickers_of ps) c s))
      ]

  after_risk-Recorded :
      (mc : MarketClock) (ps : List Position) (holdings : HoldingsOutcome) (x : Risk S)
      → RiskRecorded x
      → Recorded (after_risk deps cycle_id mc ps holdings x)
  unfolding after_risk
  after_risk-Recorded mc ps holdings (some r, c, s) h = h
  after_risk-Recorded mc ps holdings (none, c, s) h = buy_or_skip-Recorded mc ps holdings c s

  by_prices-Recorded :
      (mc : MarketClock) (ps : List Position) (holdings : HoldingsOutcome) (missing : List String)
      (c : Conn) (s : S)
      → Recorded (by_prices deps cycle_id mc ps holdings missing c s)
  unfolding by_prices evaluate_risk
  by_prices-Recorded mc ps holdings [] c s =
      after_risk-Recorded mc ps holdings
        (evaluate_risk deps cycle_id (length holdings.decisions) holdings c s)
        (on_account-RiskRecorded (length holdings.decisions) holdings c (deps.broker.account s))
  by_prices-Recorded mc ps holdings (t ∷ ts) c s =
      end_sent-Recorded CycleStatus.market_unavailable _ none _ _ (λ k. cc k)

  after_holdings-Recorded :
      (mc : MarketClock) (ps : List Position) (x : Evaluated S)
      → Recorded (after_holdings deps cycle_id mc ps x)
  unfolding after_holdings
  after_holdings-Recorded mc ps (ok holdings, c, s) =
      by_prices-Recorded mc ps holdings holdings.market_errors c s
  after_holdings-Recorded mc ps (err e, c, s) =
      finish-Recorded _ (deps.clock.now s) c s (λ k. absurd (cc k))
  after_holdings-Recorded mc ps (raised x, c, s) = tt

  on_clock-Recorded :
      (c : Conn) (x : Result MarketError MarketClock × S) → Recorded (on_clock deps cycle_id c x)
  unfolding on_clock
  on_clock-Recorded c (ok mc, s) =
      after_holdings-Recorded mc (list_positions c.tables) (holdings_of deps cycle_id c s)
  on_clock-Recorded c (err m, s) = finish-Recorded _ (deps.clock.now s) c s (λ k. absurd (cc k))
  on_clock-Recorded c (raised x, s) = tt

  end_halted-Recorded :
      (c : Conn) (x : Evaluated S)
      → is_halted c.tables ≡ true
      → SameState c x
      → Recorded (end_halted deps cycle_id x)
  unfolding end_halted
  end_halted-Recorded c (ok out, d, s) h k =
      finish-Recorded _ (deps.clock.now s) d s (λ _. same_halted d.tables c.tables k ∙ h)
  end_halted-Recorded c (err e, d, s) h k =
      finish-Recorded _ (deps.clock.now s) d s (λ _. same_halted d.tables c.tables k ∙ h)
  end_halted-Recorded c (raised x, d, s) h k = tt

  in_cycle-Recorded : (c : Conn) (s : S) → Recorded (in_cycle deps cycle_id c s)
  unfolding in_cycle evaluate_holdings
  in_cycle-Recorded c s = elim (Bool-cases (is_halted c.tables)) [
    | inl e ↦ rw e (
        end_halted-Recorded c (holdings_of deps cycle_id c s) e (
          evaluate_positions-SameState deps.market deps.uuids deps.rules cycle_id
            deps.rule_set_sha256 (mode_value deps.mode) (deps.clock.now s) (list_positions c.tables)
            empty_holdings c s))
    | inr e ↦ rw e (on_clock-Recorded c (deps.market.market_clock s))
  ]

  after_insert-Recorded :
      (s : S) (x : Result LedgerError (Unit {0}) × Conn) → Recorded (after_insert deps cycle_id s x)
  unfolding after_insert
  after_insert-Recorded s (ok _, c) = in_cycle-Recorded c s
  after_insert-Recorded s (err e, c) = tt
  after_insert-Recorded s (raised x, c) = tt

-- Where a cycle returns `Ok`, all that its connection sees is committed, the row of the cycle with
-- the id of the outcome carries the status and the summary of the outcome, and if the status is
-- `halted`, then the committed tables say that the engine is halted: a loss limit that ends the
-- cycle also ends the ones after it, until `resume`.
pub run_locked-Recorded :
    {S : Type 0} (deps : CycleDeps S) (c : Conn) (s : S) → Recorded (run_locked deps c s)
unfolding run_locked
run_locked-Recorded deps c s = after_insert-Recorded deps _ _ _
