-- ===== src/Engine/Cycle/State.antt =====
-- What the steps before the end of a cycle leave of the state of the engine.
use kyo_trading_tool.Prelude.{◌≡◌, refl, ◌∙◌, arith, Option, none, some, List, [], ◌∷◌, String}
use kyo_trading_tool.Domain.Result.{Result, ok, err, raised}
use kyo_trading_tool.Domain.Money.{Price}
use kyo_trading_tool.Domain.Models.{DateTime, Decision, Position, ExitReason, ExitSignal}
use kyo_trading_tool.Rules.Exit.{check_exit}
use kyo_trading_tool.Ledger.Db.{Conn, LedgerError, statement}
use kyo_trading_tool.Ledger.Repository.{insert_decision, add_decision}
use kyo_trading_tool.Ledger.Portfolio.{upsert_position, put_position, insert_cycle, add_cycle}
use kyo_trading_tool.Broker.{Uuids}
use kyo_trading_tool.Market.{MarketError, MarketDataProvider}
use kyo_trading_tool.Rules.Schema.{RuleSet}
use kyo_trading_tool.Engine.Holdings.{
  HoldingsOutcome, Evaluated, go_on, note_decision, on_signal, check_position, evaluate_position,
  evaluate_positions, raise_watermark,
}

-- statements that leave the state of the engine alone

upsert_position-state :
    (p : Position) (c : Conn) → (upsert_position p c).1.tables.engine_state ≡ c.tables.engine_state
unfolding upsert_position statement put_position
upsert_position-state p c = ground arith

insert_decision-state :
    (d : Decision) (c : Conn) → (insert_decision d c).1.tables.engine_state ≡ c.tables.engine_state
unfolding insert_decision statement add_decision
insert_decision-state d c = ground arith

pub insert_cycle-state :
    (id : String) (at : DateTime) (mode : String) (c : Conn)
    → (insert_cycle id at mode c).1.tables.engine_state ≡ c.tables.engine_state
unfolding insert_cycle statement add_cycle
insert_cycle-state id at mode c = ground arith

-- the holdings leave it alone
abbrev pub SameState : {S : Type 0} → Conn → Evaluated S → Type 0
SameState c x = x.1.tables.engine_state ≡ c.tables.engine_state

module _ {S : Type 0} (market : MarketDataProvider S) (uuids : Uuids S) (rules : RuleSet)
    (cycle_id sha mode : String) (now : DateTime) where
  note_decision-SameState :
      (d : Decision) (r : ExitReason) (acc : HoldingsOutcome) (s : S)
      (x : Result LedgerError (Unit {0}) × Conn) (c : Conn)
      → x.1.tables.engine_state ≡ c.tables.engine_state
      → SameState c (note_decision market uuids rules cycle_id sha mode now d r acc s x)
  unfolding note_decision
  note_decision-SameState d r acc s (ok _, e) c h = h
  note_decision-SameState d r acc s (err _, e) c h = h
  note_decision-SameState d r acc s (raised _, e) c h = h

  on_signal-SameState :
      (p : Position) (price : Price) (o : Option ExitSignal) (acc : HoldingsOutcome) (c : Conn)
      (s : S)
      → SameState c (on_signal market uuids rules cycle_id sha mode now p price o acc c s)
  unfolding on_signal
  on_signal-SameState p price none acc c s = refl
  on_signal-SameState p price (some signal) acc c s =
      note_decision-SameState _ signal.reason acc _ (insert_decision _ c) c
        (insert_decision-state _ c)

  check_position-SameState :
      (p : Position) (price : Price) (acc : HoldingsOutcome) (s : S)
      (x : Result LedgerError (Unit {0}) × Conn) (c : Conn)
      → x.1.tables.engine_state ≡ c.tables.engine_state
      → SameState c (check_position market uuids rules cycle_id sha mode now p price acc s x)
  unfolding check_position
  check_position-SameState p price acc s (ok _, e) c h =
      on_signal-SameState p price (check_exit p price rules now) acc e s ∙ h
  check_position-SameState p price acc s (err _, e) c h = h
  check_position-SameState p price acc s (raised _, e) c h = h

  evaluate_position-SameState :
      (p : Position) (acc : HoldingsOutcome) (c : Conn) (x : Result MarketError Price × S)
      → SameState c (evaluate_position market uuids rules cycle_id sha mode now p acc c x)
  unfolding evaluate_position
  evaluate_position-SameState p acc c (ok price, s) =
      check_position-SameState _ price _ s (upsert_position (raise_watermark p price) c) c
        (upsert_position-state (raise_watermark p price) c)
  evaluate_position-SameState p acc c (err m, s) = refl
  evaluate_position-SameState p acc c (raised x, s) = refl

  go_on-SameState :
      (k : HoldingsOutcome → Conn → S → Evaluated S) (x : Evaluated S) (c : Conn)
      → SameState c x
      → ((acc : HoldingsOutcome) (d : Conn) (s : S) → SameState d (k acc d s))
      → SameState c (go_on k x)
  go_on-SameState k (ok acc, d, s) c h f = f acc d s ∙ h
  go_on-SameState k (err e, d, s) c h f = h
  go_on-SameState k (raised x, d, s) c h f = h

  pub evaluate_positions-SameState :
      (ps : List Position) (acc : HoldingsOutcome) (c : Conn) (s : S)
      → SameState c (evaluate_positions market uuids rules cycle_id sha mode now ps acc c s)
  unfolding evaluate_positions
  evaluate_positions-SameState [] acc c s = refl
  evaluate_positions-SameState (p ∷ ps) acc c s =
      go_on-SameState (evaluate_positions market uuids rules cycle_id sha mode now ps)
        (evaluate_position market uuids rules cycle_id sha mode now p acc c
          (market.latest_price p.ticker s))
        c (evaluate_position-SameState p acc c (market.latest_price p.ticker s))
        (evaluate_positions-SameState ps)
