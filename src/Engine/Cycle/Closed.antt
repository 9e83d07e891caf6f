-- ===== src/Engine/Cycle/Closed.antt =====
-- While the market is closed a cycle sends no order and asks for none, which is stated by putting
-- other functions in place of the broker's: the cycle is the same.
use kyo_trading_tool.Prelude.{
  ◌≡◌, refl, ap, ◌∙◌, Bool-cases, inl, inr, false, Option, none, some, List, [], ◌∷◌, length,
  String, ℕ, leb,
}
use kyo_trading_tool.Domain.Result.{Result, ok, err, raised}
use kyo_trading_tool.Domain.Money.{Money}
use kyo_trading_tool.Domain.Models.{DateTime, Note, Position, Decision}
use kyo_trading_tool.Rules.Loss.{LossLimitBreach}
use kyo_trading_tool.Ledger.Db.{Conn, LedgerError}
use kyo_trading_tool.Ledger.Portfolio.{list_positions}
use kyo_trading_tool.Ledger.Sources.{list_mentions}
use kyo_trading_tool.Broker.{BrokerError, BrokerOrder, BrokerAccount, OrderRequest}
use kyo_trading_tool.Market.{MarketError, MarketClock}
use kyo_trading_tool.Engine.KillSwitch.{is_halted, trigger, KillSwitchError, KillSwitchOutcome}
use kyo_trading_tool.Engine.Holdings.{HoldingsOutcome, Evaluated}
use kyo_trading_tool.Engine.Candidates.Deciding.{Candidates, evaluate_candidates}
use kyo_trading_tool.Engine.Cycle.{
  CycleStatus, CycleDeps, Risk, after_kill, on_breach, check_losses, on_account, evaluate_risk,
  serenity_source_id,
}
use kyo_trading_tool.Engine.Cycle.Executing.{Executed}
use kyo_trading_tool.Engine.Cycle.Running.{
  holdings_of, end_sent, send_if_open, after_candidates, setup_of, buy_or_skip, after_risk,
  by_prices, after_holdings, on_clock, in_cycle, after_insert, run_locked, tickers_of,
}
use kyo_trading_tool.Engine.Cycle.Idle.{in_cycle-broker}

-- the market says that it is closed, or nothing
abbrev pub SaysClosed : {S : Type 0} → Result MarketError MarketClock × S → Type 0
SaysClosed (ok mc, _) = mc.is_open ≡ false
SaysClosed (err _, _) = Unit {0}
SaysClosed (raised _, _) = Unit {0}

-- the same with other functions for sending orders and asking for them
abbrev pub with_orders :
    {S : Type 0}
    → CycleDeps S
    → (OrderRequest → S → Result BrokerError BrokerOrder × S)
    → (String → S → Result BrokerError BrokerOrder × S)
    → CycleDeps S
with_orders deps submit get = record deps {
  broker = record deps.broker { submit_market_order = submit; get_order = get };
}

module _ {S : Type 0} (deps : CycleDeps S)
    (submit : OrderRequest → S → Result BrokerError BrokerOrder × S)
    (get : String → S → Result BrokerError BrokerOrder × S) (cycle_id : String) where
  -- the risk is evaluated without orders
  after_kill-orders :
      (n : ℕ) (b : LossLimitBreach) (x : (Result KillSwitchError KillSwitchOutcome × Conn) × S)
      → after_kill (with_orders deps submit get) cycle_id n b x ≡ after_kill deps cycle_id n b x
  unfolding after_kill
  after_kill-orders n b ((ok out, c), s) = refl
  after_kill-orders n b ((err e, c), s) = refl
  after_kill-orders n b ((raised x, c), s) = refl

  on_breach-orders :
      (n : ℕ) (o : Option LossLimitBreach) (c : Conn) (s : S)
      → on_breach (with_orders deps submit get) cycle_id n o c s ≡ on_breach deps cycle_id n o c s
  unfolding on_breach trigger
  on_breach-orders n none c s = refl
  on_breach-orders n (some b) c s = after_kill-orders n b _

  check_losses-orders :
      (n : ℕ) (u e p : Money) (now : DateTime) (s : S) (x : Result LedgerError (Unit {0}) × Conn)
      → check_losses (with_orders deps submit get) cycle_id n u e p now s x
        ≡ check_losses deps cycle_id n u e p now s x
  unfolding check_losses
  check_losses-orders n u e p now s (ok _, c) = on_breach-orders n _ c s
  check_losses-orders n u e p now s (err m, c) = refl
  check_losses-orders n u e p now s (raised x, c) = refl

  on_account-orders :
      (n : ℕ) (holdings : HoldingsOutcome) (c : Conn) (x : Result BrokerError BrokerAccount × S)
      → on_account (with_orders deps submit get) cycle_id n holdings c x
        ≡ on_account deps cycle_id n holdings c x
  unfolding on_account
  on_account-orders n holdings c (ok account, s) = check_losses-orders n _ _ _ _ s _
  on_account-orders n holdings c (err m, s) = refl
  on_account-orders n holdings c (raised x, s) = refl

  module _ (mc : MarketClock) (closed : mc.is_open ≡ false) where
    send_if_open-orders :
        (holdings : HoldingsOutcome) (ds : List Decision) (c : Conn) (s : S)
        → send_if_open (with_orders deps submit get) cycle_id mc holdings ds c s
          ≡ send_if_open deps cycle_id mc holdings ds c s
    unfolding send_if_open
    send_if_open-orders holdings ds c s = rw closed refl

    end_sent-orders :
        (status : CycleStatus) (summary skipped : Option Note) (n : ℕ) (x : Executed S)
        → end_sent (with_orders deps submit get) cycle_id status summary skipped n x
          ≡ end_sent deps cycle_id status summary skipped n x
    unfolding end_sent
    end_sent-orders status summary skipped n none = refl
    end_sent-orders status summary skipped n (some (ok (o, f), c, s)) = refl
    end_sent-orders status summary skipped n (some (err e, c, s)) = refl
    end_sent-orders status summary skipped n (some (raised x, c, s)) = refl

    -- sending and ending
    sent-orders :
        (status : CycleStatus) (summary skipped : Option Note) (n : ℕ) (holdings : HoldingsOutcome)
        (ds : List Decision) (c : Conn) (s : S)
        → end_sent
            (with_orders deps submit get)
            cycle_id
            status
            summary
            skipped
            n
            (send_if_open (with_orders deps submit get) cycle_id mc holdings ds c s)
          ≡ end_sent deps cycle_id status summary skipped n
              (send_if_open deps cycle_id mc holdings ds c s)
    sent-orders status summary skipped n holdings ds c s =
        end_sent-orders status summary skipped n
          (send_if_open (with_orders deps submit get) cycle_id mc holdings ds c s)
        ∙ ap (end_sent deps cycle_id status summary skipped n) (send_if_open-orders holdings ds c s)

    after_candidates-orders :
        (holdings : HoldingsOutcome) (x : Candidates S)
        → after_candidates (with_orders deps submit get) cycle_id mc holdings x
          ≡ after_candidates deps cycle_id mc holdings x
    unfolding after_candidates
    after_candidates-orders holdings (ok ds, c, s) =
        sent-orders CycleStatus.finished none none _ holdings _ c s
    after_candidates-orders holdings (err e, c, s) = refl
    after_candidates-orders holdings (raised x, c, s) = refl

    buy_or_skip-orders :
        (ps : List Position) (holdings : HoldingsOutcome) (c : Conn) (s : S)
        → buy_or_skip (with_orders deps submit get) cycle_id mc ps holdings c s
          ≡ buy_or_skip deps cycle_id mc ps holdings c s
    unfolding buy_or_skip
    buy_or_skip-orders ps holdings c s =
        elim (Bool-cases (leb deps.rules.position.max_concurrent_positions (length ps))) [
          | inl e ↦ rw e (sent-orders CycleStatus.finished none _ _ holdings _ c s)
          | inr e ↦ rw e (
              after_candidates-orders holdings (
                evaluate_candidates (setup_of deps cycle_id mc)
                  (list_mentions c.tables serenity_source_id) (tickers_of ps) c s))
        ]

    after_risk-orders :
        (ps : List Position) (holdings : HoldingsOutcome) (x : Risk S)
        → after_risk (with_orders deps submit get) cycle_id mc ps holdings x
          ≡ after_risk deps cycle_id mc ps holdings x
    unfolding after_risk
    after_risk-orders ps holdings (some r, c, s) = refl
    after_risk-orders ps holdings (none, c, s) = buy_or_skip-orders ps holdings c s

    by_prices-orders :
        (ps : List Position) (holdings : HoldingsOutcome) (missing : List String) (c : Conn) (s : S)
        → by_prices (with_orders deps submit get) cycle_id mc ps holdings missing c s
          ≡ by_prices deps cycle_id mc ps holdings missing c s
    unfolding by_prices evaluate_risk
    by_prices-orders ps holdings [] c s =
        after_risk-orders ps holdings _
        ∙ ap (after_risk deps cycle_id mc ps holdings)
            (on_account-orders (length holdings.decisions) holdings c (deps.broker.account s))
    by_prices-orders ps holdings (t ∷ ts) c s =
        sent-orders CycleStatus.market_unavailable _ none _ holdings _ c s

    after_holdings-orders :
        (ps : List Position) (x : Evaluated S)
        → after_holdings (with_orders deps submit get) cycle_id mc ps x
          ≡ after_holdings deps cycle_id mc ps x
    unfolding after_holdings
    after_holdings-orders ps (ok holdings, c, s) =
        by_prices-orders ps holdings holdings.market_errors c s
    after_holdings-orders ps (err e, c, s) = refl
    after_holdings-orders ps (raised x, c, s) = refl

  on_clock-orders :
      (c : Conn) (x : Result MarketError MarketClock × S)
      → SaysClosed x
      → on_clock (with_orders deps submit get) cycle_id c x ≡ on_clock deps cycle_id c x
  unfolding on_clock
  on_clock-orders c (ok mc, s) h =
      after_holdings-orders mc h (list_positions c.tables) (holdings_of deps cycle_id c s)
  on_clock-orders c (err m, s) h = refl
  on_clock-orders c (raised x, s) h = refl

  in_cycle-orders :
      (c : Conn) (s : S)
      → ((t : S) → SaysClosed (deps.market.market_clock t))
      → in_cycle (with_orders deps submit get) cycle_id c s ≡ in_cycle deps cycle_id c s
  unfolding in_cycle
  in_cycle-orders c s h = elim (Bool-cases (is_halted c.tables)) [
    | inl e ↦ in_cycle-broker deps (with_orders deps submit get).broker cycle_id c s e
    | inr e ↦ rw e (on_clock-orders c (deps.market.market_clock s) (h s))
  ]

  after_insert-orders :
      (s : S) (x : Result LedgerError (Unit {0}) × Conn)
      → ((t : S) → SaysClosed (deps.market.market_clock t))
      → after_insert (with_orders deps submit get) cycle_id s x ≡ after_insert deps cycle_id s x
  unfolding after_insert
  after_insert-orders s (ok _, c) h = in_cycle-orders c s h
  after_insert-orders s (err e, c) h = refl
  after_insert-orders s (raised x, c) h = refl

-- While the market says that it is closed, or does not answer, a cycle sends no order and asks for
-- none: with any other functions in place of the broker's `submit_market_order` and `get_order` it
-- returns the same, and leaves the same tables and the same world outside.
pub run_locked-closed :
    {S : Type 0} (deps : CycleDeps S)
    (submit : OrderRequest → S → Result BrokerError BrokerOrder × S)
    (get : String → S → Result BrokerError BrokerOrder × S) (c : Conn) (s : S)
    → ((t : S) → SaysClosed (deps.market.market_clock t))
    → run_locked (with_orders deps submit get) c s ≡ run_locked deps c s
unfolding run_locked
run_locked-closed deps submit get c s h = after_insert-orders deps submit get _ _ _ h
