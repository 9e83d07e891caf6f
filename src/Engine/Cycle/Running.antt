-- ===== src/Engine/Cycle/Running.antt =====
-- `_run_locked` and `run_cycle` of src/trader/engine/cycle.py, with the steps composed as there.
-- The lock is `fcntl`'s: `acquire` says whether it was free. `none` means that a polling loop ran
-- out of fuel.
use Prim.Native.String.{◌++◌}
use kyo_trading_tool.Prelude.{
  ℕ, ◌+◌, leb, Bool, true, false, Option, none, some, List, [], ◌∷◌, ◌++◌ as append, map, length,
  String, if◌then◌else◌,
}
use kyo_trading_tool.Domain.Result.{Result, ok, err, raised}
use kyo_trading_tool.Domain.Models.{Note, Position, Decision}
use kyo_trading_tool.Ledger.Db.{Conn, LedgerError}
use kyo_trading_tool.Ledger.Portfolio.{insert_cycle, list_positions}
use kyo_trading_tool.Ledger.Sources.{list_mentions}
use kyo_trading_tool.Market.{MarketError, MarketClock}
use kyo_trading_tool.Config.{mode_value}
use kyo_trading_tool.Engine.KillSwitch.{is_halted}
use kyo_trading_tool.Engine.Holdings.{
  HoldingsError, not_stored, HoldingsOutcome, Evaluated, evaluate_holdings,
}
use kyo_trading_tool.Engine.Candidates.{CandidatesError}
use kyo_trading_tool.Engine.Candidates.Deciding.{Setup, Candidates, evaluate_candidates}
use kyo_trading_tool.Engine.Cycle.{
  serenity_source_id, CycleStatus, CycleError, CycleOutcome, CycleDeps, ledger_note, Ended, finish,
  nothing_sent, Risk, evaluate_risk,
}
use kyo_trading_tool.Engine.Cycle.Executing.{Executed, execute_passed_decisions}

-- what a cycle leaves
abbrev pub Ran : Type 0 → Type 0
Ran S = Option (Result CycleError CycleOutcome × Conn × S)

abbrev pub ran : {S : Type 0} → S → Ended → Ran S
ran s (r, c) = some (r, c, s)

abbrev pub holdings_note : HoldingsError → Note
holdings_note (not_stored e) = ledger_note e

abbrev pub candidates_note : CandidatesError → Note
candidates_note (CandidatesError.not_stored e) = ledger_note e

abbrev pub tickers_of : List Position → List String
tickers_of = map (λ (p : Position). p.ticker)

module _ {S : Type 0} (deps : CycleDeps S) (cycle_id : String) where
  -- a cycle that ends with nothing sent
  abbrev pub end_with : CycleStatus → Option Note → ℕ → Conn → S → Ran S
  end_with outcome summary decisions c s =
      ran s (finish (nothing_sent cycle_id outcome summary decisions) (deps.clock.now s) c)

  -- `evaluate_holdings` with the arguments of a cycle
  abbrev pub holdings_of : Conn → S → Evaluated S
  holdings_of c s =
      evaluate_holdings deps.market deps.clock deps.uuids deps.rules cycle_id deps.rule_set_sha256
        (mode_value deps.mode) (list_positions c.tables) c s

  -- while the engine is halted: decisions are kept, nothing is sent
  unfoldable pub end_halted : Evaluated S → Ran S
  end_halted (ok out, c, s) =
      end_with CycleStatus.halted (some (Note.text "engine is halted")) (length out.decisions) c s
  end_halted (err e, c, s) = end_with CycleStatus.halted (some (Note.text "engine is halted")) 0 c s
  end_halted (raised x, c, s) = some (raised x, c, s)

  -- the end after the orders were sent
  unfoldable pub end_sent : CycleStatus → Option Note → Option Note → ℕ → Executed S → Ran S
  end_sent outcome summary skipped decisions none = none
  end_sent outcome summary skipped decisions (some (ok (orders, fills), c, s)) = ran s (
      finish
        (record (nothing_sent cycle_id outcome summary decisions) {
          orders = orders;
          fills = fills;
          candidates_skipped_reason = skipped;
        })
        (deps.clock.now s) c)
  end_sent outcome summary skipped decisions (some (err e, c, s)) = some (err e, c, s)
  end_sent outcome summary skipped decisions (some (raised x, c, s)) = some (raised x, c, s)

  -- `if market_clock.is_open`
  unfoldable pub send_if_open :
      MarketClock → HoldingsOutcome → List Decision → Conn → S → Executed S
  send_if_open market_clock holdings decisions c s =
      if market_clock.is_open
      then execute_passed_decisions deps holdings.exit_reasons market_clock decisions c s
      else some (ok (0, 0), c, s)

  -- after the evaluation of the candidates
  unfoldable pub after_candidates : MarketClock → HoldingsOutcome → Candidates S → Ran S
  after_candidates market_clock holdings (ok decisions, c, s) =
      end_sent CycleStatus.finished none none (length holdings.decisions + length decisions)
        (send_if_open market_clock holdings (append holdings.decisions decisions) c s)
  after_candidates market_clock holdings (err e, c, s) =
      end_with CycleStatus.error (some (candidates_note e)) (length holdings.decisions) c s
  after_candidates market_clock holdings (raised x, c, s) = some (raised x, c, s)

  abbrev pub setup_of : MarketClock → Setup S
  setup_of market_clock = record {
    market = deps.market;
    llm = deps.llm;
    reader = deps.reader;
    rules = deps.rules;
    limits = deps.limits;
    clock = deps.clock;
    uuids = deps.uuids;
    cycle_id = cycle_id;
    rule_set_sha256 = deps.rule_set_sha256;
    mode = mode_value deps.mode;
    loss_breach = none;
    market_open = market_clock.is_open;
  }

  -- where every slot is taken, no candidates are evaluated
  unfoldable pub buy_or_skip : MarketClock → List Position → HoldingsOutcome → Conn → S → Ran S
  buy_or_skip market_clock positions holdings c s =
      let max_positions = deps.rules.position.max_concurrent_positions in
      if leb max_positions (length positions)
      then end_sent CycleStatus.finished none
          (some (Note.holdings_full (length positions) max_positions)) (length holdings.decisions)
          (send_if_open market_clock holdings holdings.decisions c s)
      else after_candidates market_clock holdings (
          evaluate_candidates (setup_of market_clock) (list_mentions c.tables serenity_source_id)
            (tickers_of positions) c s)

  -- after `_evaluate_risk`
  unfoldable pub after_risk : MarketClock → List Position → HoldingsOutcome → Risk S → Ran S
  after_risk market_clock positions holdings (some r, c, s) = some (r, c, s)
  after_risk market_clock positions holdings (none, c, s) =
      buy_or_skip market_clock positions holdings c s

  -- `if holdings_outcome.market_errors`: what could be priced is still sold
  unfoldable pub by_prices :
      MarketClock → List Position → HoldingsOutcome → List String → Conn → S → Ran S
  by_prices market_clock positions holdings [] c s =
      after_risk market_clock positions holdings
        (evaluate_risk deps cycle_id (length holdings.decisions) holdings c s)
  by_prices market_clock positions holdings (t ∷ ts) c s =
      end_sent CycleStatus.market_unavailable (some (Note.no_price_for (t ∷ ts))) none
        (length holdings.decisions) (send_if_open market_clock holdings holdings.decisions c s)

  -- after the evaluation of the holdings
  unfoldable pub after_holdings : MarketClock → List Position → Evaluated S → Ran S
  after_holdings market_clock positions (ok holdings, c, s) =
      by_prices market_clock positions holdings holdings.market_errors c s
  after_holdings market_clock positions (err e, c, s) =
      end_with CycleStatus.error (some (holdings_note e)) 0 c s
  after_holdings market_clock positions (raised x, c, s) = some (raised x, c, s)

  -- with the market clock
  unfoldable pub on_clock : Conn → Result MarketError MarketClock × S → Ran S
  on_clock c (ok market_clock, s) =
      after_holdings market_clock (list_positions c.tables) (holdings_of c s)
  on_clock c (err m, s) = end_with CycleStatus.market_unavailable (some (Note.text m)) 0 c s
  on_clock c (raised x, s) = some (raised x, c, s)

  -- the cycle is open
  unfoldable pub in_cycle : Conn → S → Ran S
  in_cycle c s =
      if is_halted c.tables
      then end_halted (holdings_of c s)
      else on_clock c (deps.market.market_clock s)

  -- after the insert of the row of the cycle
  unfoldable pub after_insert : S → Result LedgerError (Unit {0}) × Conn → Ran S
  after_insert s (ok _, c) = in_cycle c s
  after_insert s (err e, c) = some (err (ledger_note e), c, s)
  after_insert s (raised x, c) = some (raised x, c, s)

-- `_run_locked`
unfoldable pub run_locked : {S : Type 0} → CycleDeps S → Conn → S → Ran S
run_locked deps c s =
    let started_at = deps.clock.now s in
    let (uuid, s') = deps.uuids.uuid4_hex s in
    let cycle_id = "cycle_" ++ uuid in
    after_insert deps cycle_id s' (insert_cycle cycle_id started_at (mode_value deps.mode) c)

-- `_acquire_lock` and `_release_lock`
pub record Lock (S : Type 0) : Type 0 where
  pub acquire : S → Bool × S
  pub release : S → S

-- `finally: _release_lock(handle)`
abbrev pub release_after : {S : Type 0} → Lock S → Ran S → Ran S
release_after lock none = none
release_after lock (some (r, c, s)) = some (r, c, lock.release s)

unfoldable pub when_acquired : {S : Type 0} → CycleDeps S → Lock S → Conn → Bool × S → Ran S
when_acquired deps lock c (true, s) = release_after lock (run_locked deps c s)
when_acquired deps lock c (false, s) = some (err (Note.text "別のサイクルが実行中です"), c, s)

unfoldable pub run_cycle : {S : Type 0} → CycleDeps S → Option (Lock S) → Conn → S → Ran S
run_cycle deps none c s = run_locked deps c s
run_cycle deps (some lock) c s = when_acquired deps lock c (lock.acquire s)
