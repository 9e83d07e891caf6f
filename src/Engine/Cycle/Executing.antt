-- ===== src/Engine/Cycle/Executing.antt =====
-- `_execute_passed_decisions` of src/trader/engine/cycle.py. `none` means that a polling loop ran out
-- of fuel.
use Prim.Native.String.{◌++◌}
use kyo_trading_tool.Prelude.{
  ℕ, ◌+◌, ◌&&◌, Bool, Option, none, some, List, [], ◌∷◌, String, str_eq, if◌then◌else◌,
}
use kyo_trading_tool.Domain.Result.{Result, ok, err, raised}
use kyo_trading_tool.Domain.Models.{ExitReason, Decision, Order, is_passed, is_order}
use kyo_trading_tool.Ledger.Db.{Conn}
use kyo_trading_tool.Market.{MarketClock}
use kyo_trading_tool.Config.{TradingMode}
use kyo_trading_tool.Engine.Approval.{ApprovalError, ApprovedOrderRequest, resolve_approval}
use kyo_trading_tool.Engine.Executor.{ExecError, execute}
use kyo_trading_tool.Engine.Fills.{FillsError, PollOutcome}
use kyo_trading_tool.Engine.Fills.Polling.{Outside, Job, poll_and_settle}
use kyo_trading_tool.Engine.Cycle.{CycleError, CycleDeps}

-- the counts of orders and of fills, the connection and the world outside
abbrev pub Executed : Type 0 → Type 0
Executed S = Option (Result CycleError (ℕ × ℕ) × Conn × S)

-- `decision.rule_check is RuleCheck.passed and decision.action in (Action.buy, Action.sell)`
abbrev pub is_executable : Decision → Bool
is_executable d = is_passed d.rule_check && is_order d.action

-- `exit_reasons.get(decision.id)`
abbrev pub exit_reason_of : List (String × ExitReason) → String → Option ExitReason
exit_reason_of [] id = none
exit_reason_of ((k, r) ∷ rest) id = if str_eq k id then some r else exit_reason_of rest id

-- only a paper approval has a fresh id
abbrev pub after_id : {S : Type 0} → TradingMode → S → S → S
after_id TradingMode.paper s s' = s'
after_id TradingMode.live s s' = s

-- the rest of the loop, unless this decision ended it
abbrev pub and_next : {S : Type 0} → (ℕ × ℕ → Conn → S → Executed S) → Executed S → Executed S
and_next k none = none
and_next k (some (ok n, c, s)) = k n c s
and_next k (some (err e, c, s)) = some (err e, c, s)
and_next k (some (raised x, c, s)) = some (raised x, c, s)

module _ {S : Type 0} (deps : CycleDeps S) (exit_reasons : List (String × ExitReason))
    (market_clock : MarketClock) where
  abbrev pub outside : Outside S
  outside = record { broker = deps.broker; clock = deps.clock; uuids = deps.uuids }

  abbrev pub job_of : Decision → Order → Job
  job_of decision order = record {
    client_order_id = order.client_order_id;
    order_id = order.id;
    decision = decision;
    side = order.side;
    exit_reason = exit_reason_of exit_reasons decision.id;
    poll_timeout_s = deps.poll_timeout_s;
    poll_interval_s = deps.poll_interval_s;
  }

  -- an order that was sent counts, also where its polling failed
  unfoldable pub after_poll : ℕ × ℕ → Option (Result FillsError PollOutcome × Conn × S) → Executed S
  after_poll (orders, fills) none = none
  after_poll (orders, fills) (some (ok out, c, s)) =
      some (ok (orders + 1, fills + out.fills_recorded), c, s)
  after_poll (orders, fills) (some (err e, c, s)) = some (ok (orders + 1, fills), c, s)
  after_poll (orders, fills) (some (raised x, c, s)) = some (raised x, c, s)

  unfoldable pub after_execute : Decision → ℕ × ℕ → Result ExecError Order × Conn × S → Executed S
  after_execute decision n (ok order, c, s) =
      after_poll n (poll_and_settle outside (job_of decision order) c s)
  after_execute decision n (err e, c, s) = some (ok n, c, s)
  after_execute decision n (raised x, c, s) = some (raised x, c, s)

  -- `s'` is the world outside after a fresh id was drawn
  unfoldable pub after_approval :
      Decision → ℕ × ℕ → Conn → S → S → Result ApprovalError ApprovedOrderRequest → Executed S
  after_approval decision n c s s' (ok req) =
      after_execute decision n
        (execute deps.broker deps.clock req deps.mode c (after_id deps.mode s s'))
  after_approval decision n c s s' (err e) = some (ok n, c, s)
  after_approval decision n c s s' (raised x) = some (raised x, c, s)

  -- the body of the loop
  unfoldable pub execute_decision : Decision → ℕ × ℕ → Conn → S → Executed S
  execute_decision decision n c s =
      let (uuid, s') = deps.uuids.uuid4_hex s in
      if is_executable decision
      then after_approval decision n c s s' (
          resolve_approval decision deps.mode c.tables (deps.clock.now s) market_clock
            ("appr_" ++ uuid))
      else some (ok n, c, s)

  -- the loop, with the counts so far
  unfoldable pub execute_decisions : List Decision → ℕ × ℕ → Conn → S → Executed S
  execute_decisions [] n c s = some (ok n, c, s)
  execute_decisions (decision ∷ decisions) n c s =
      and_next (execute_decisions decisions) (execute_decision decision n c s)

  unfoldable pub execute_passed_decisions : List Decision → Conn → S → Executed S
  execute_passed_decisions decisions c s = execute_decisions decisions (0, 0) c s
