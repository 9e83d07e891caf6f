-- ===== src/Engine/Cycle/Idle.antt =====
-- While the engine is halted a cycle does not call the broker, which is stated by putting another
-- broker in its place: the cycle is the same.
use kyo_trading_tool.Prelude.{◌≡◌, refl, ◌∙◌, true, String}
use kyo_trading_tool.Domain.Result.{Result, ok, err, raised}
use kyo_trading_tool.Ledger.Db.{Conn, LedgerError}
use kyo_trading_tool.Ledger.Portfolio.{insert_cycle}
use kyo_trading_tool.Broker.{Broker}
use kyo_trading_tool.Engine.KillSwitch.{is_halted}
use kyo_trading_tool.Engine.Holdings.{Evaluated}
use kyo_trading_tool.Engine.Cycle.{CycleDeps}
use kyo_trading_tool.Engine.Cycle.State.{insert_cycle-state}
use kyo_trading_tool.Engine.Cycle.Committed.{same_halted}
use kyo_trading_tool.Engine.Cycle.Running.{
  holdings_of, end_halted, in_cycle, after_insert, run_locked,
}

-- the same with another broker
abbrev pub with_broker : {S : Type 0} → CycleDeps S → Broker S → CycleDeps S
with_broker deps broker = record deps { broker = broker }

module _ {S : Type 0} (deps : CycleDeps S) (broker : Broker S) (cycle_id : String) where
  end_halted-broker :
      (x : Evaluated S)
      → end_halted (with_broker deps broker) cycle_id x ≡ end_halted deps cycle_id x
  unfolding end_halted
  end_halted-broker (ok out, c, s) = refl
  end_halted-broker (err e, c, s) = refl
  end_halted-broker (raised x, c, s) = refl

  pub in_cycle-broker :
      (c : Conn) (s : S)
      → is_halted c.tables ≡ true
      → in_cycle (with_broker deps broker) cycle_id c s ≡ in_cycle deps cycle_id c s
  unfolding in_cycle
  in_cycle-broker c s h = rw h (end_halted-broker (holdings_of deps cycle_id c s))

  after_insert-broker :
      (s : S) (x : Result LedgerError (Unit {0}) × Conn)
      → is_halted x.1.tables ≡ true
      → after_insert (with_broker deps broker) cycle_id s x ≡ after_insert deps cycle_id s x
  unfolding after_insert
  after_insert-broker s (ok _, c) h = in_cycle-broker c s h
  after_insert-broker s (err e, c) h = refl
  after_insert-broker s (raised x, c) h = refl

-- While the engine is halted, a cycle does not use the broker at all: with any other broker in its
-- place it returns the same, and leaves the same tables and the same world outside.
pub run_locked-halted :
    {S : Type 0} (deps : CycleDeps S) (broker : Broker S) (c : Conn) (s : S)
    → is_halted c.tables ≡ true
    → run_locked (with_broker deps broker) c s ≡ run_locked deps c s
unfolding run_locked
run_locked-halted deps broker c s h =
    after_insert-broker deps broker _ _ (insert_cycle _ _ _ c)
      (same_halted _ c.tables (insert_cycle-state _ _ _ c) ∙ h)
