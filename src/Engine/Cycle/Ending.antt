-- ===== src/Engine/Cycle/Ending.antt =====
-- The loop that sends orders ends, and sends only what passed.
use Prim.Native.String.{◌++◌}
use kyo_trading_tool.Prelude.{
  ℕ, ◌+◌, ◌≤◌, ◌≡◌, refl, arith, Bool-cases, inl, inr, Bool, true, false, ◌&&◌, Option, none, some,
  List, [], ◌∷◌, keep, count, String, if◌then◌else◌,
}
use kyo_trading_tool.Domain.Result.{Result, ok, err, raised}
use kyo_trading_tool.Domain.Models.{
  Action, RuleCheck, Decision, ExitReason, Order, is_passed, is_order,
}
use kyo_trading_tool.Ledger.Db.{Conn}
use kyo_trading_tool.Market.{MarketClock}
use kyo_trading_tool.Engine.Approval.{ApprovalError, ApprovedOrderRequest, resolve_approval}
use kyo_trading_tool.Engine.Executor.{ExecError}
use kyo_trading_tool.Engine.Fills.{FillsError, PollOutcome}
use kyo_trading_tool.Engine.Fills.Polling.{poll_and_settle}
use kyo_trading_tool.Engine.Fills.Polling.Termination.{poll_and_settle-terminates}
use kyo_trading_tool.Engine.Cycle.{CycleDeps}
use kyo_trading_tool.Engine.Cycle.Executing.{
  Executed, is_executable, and_next, outside, job_of, after_poll, after_execute, after_approval,
  execute_decision, execute_decisions, execute_passed_decisions,
}

-- the loop returns, with at most `n` orders
abbrev pub Sent : {S : Type 0} → ℕ → Executed S → Type 0
Sent n none = ⊥
Sent n (some (ok (orders, _), _, _)) = orders ≤ n
Sent n (some (err _, _, _)) = Unit {0}
Sent n (some (raised _, _, _)) = Unit {0}

pub Sent-le : {S : Type 0} (m n : ℕ) (x : Executed S) → m ≤ n → Sent m x → Sent n x
Sent-le m n none l h = h
Sent-le m n (some (ok (o, f), c, s)) l h = omega (arith, l, h)
Sent-le m n (some (err e, c, s)) l h = tt
Sent-le m n (some (raised x, c, s)) l h = tt

and_next-Sent :
    {S : Type 0} (m n : ℕ) (k : ℕ × ℕ → Conn → S → Executed S) (x : Executed S)
    → Sent m x
    → ((o f : ℕ) (c : Conn) (s : S) → o ≤ m → Sent n (k (o, f) c s))
    → Sent n (and_next k x)
and_next-Sent m n k none h g = h
and_next-Sent m n k (some (ok (o, f), c, s)) h g = g o f c s h
and_next-Sent m n k (some (err e, c, s)) h g = tt
and_next-Sent m n k (some (raised x, c, s)) h g = tt

-- a buy or a sell that passed the rules
abbrev pub trades : RuleCheck → Action → Bool
trades RuleCheck.passed Action.buy = true
trades RuleCheck.passed Action.sell = true
trades RuleCheck.passed Action.hold = false
trades RuleCheck.passed Action.skip = false
trades RuleCheck.rejected action = false

abbrev pub may_trade : Decision → Bool
may_trade d = trades d.rule_check d.action

is_order-trades : (r : RuleCheck) (a : Action) → (is_passed r && is_order a) ≡ trades r a
is_order-trades RuleCheck.passed Action.buy = refl
is_order-trades RuleCheck.passed Action.sell = refl
is_order-trades RuleCheck.passed Action.hold = refl
is_order-trades RuleCheck.passed Action.skip = refl
is_order-trades RuleCheck.rejected a = refl

is_executable-may_trade : (d : Decision) → is_executable d ≡ may_trade d
is_executable-may_trade d = is_order-trades d.rule_check d.action

module _ {S : Type 0} (deps : CycleDeps S) (reasons : List (String × ExitReason))
    (mc : MarketClock) where
  after_poll-Sent :
      (o f : ℕ) (y : Result FillsError PollOutcome × Conn × S)
      (x : Option (Result FillsError PollOutcome × Conn × S))
      → x ≡ some y
      → Sent (o + 1) (after_poll deps reasons mc (o, f) x)
  unfolding after_poll
  after_poll-Sent o f y none e = absurd (ground arith)
  after_poll-Sent o f y (some (ok out, c, s)) e = omega arith
  after_poll-Sent o f y (some (err m, c, s)) e = omega arith
  after_poll-Sent o f y (some (raised x, c, s)) e = tt

  module _ (interval : 1 ≤ deps.poll_interval_s) where
    after_execute-Sent :
        (d : Decision) (o f : ℕ) (x : Result ExecError Order × Conn × S)
        → Sent (o + 1) (after_execute deps reasons mc d (o, f) x)
    unfolding after_execute
    after_execute-Sent d o f (ok order, c, s) =
        let out = outside deps reasons mc in
        let job = job_of deps reasons mc d order in
        let (y, e) = poll_and_settle-terminates out job c s interval in
        after_poll-Sent o f y (poll_and_settle out job c s) e
    after_execute-Sent d o f (err e, c, s) = omega arith
    after_execute-Sent d o f (raised x, c, s) = tt

    after_approval-Sent :
        (d : Decision) (o f : ℕ) (c : Conn) (s s' : S)
        (x : Result ApprovalError ApprovedOrderRequest)
        → Sent (o + 1) (after_approval deps reasons mc d (o, f) c s s' x)
    unfolding after_approval
    after_approval-Sent d o f c s s' (ok req) = after_execute-Sent d o f _
    after_approval-Sent d o f c s s' (err e) = omega arith
    after_approval-Sent d o f c s s' (raised x) = tt

    execute_decision-Sent :
        (d : Decision) (o f : ℕ) (c : Conn) (s : S)
        → Sent
            (if is_executable d then o + 1 else o)
            (execute_decision deps reasons mc d (o, f) c s)
    unfolding execute_decision
    execute_decision-Sent d o f c s = elim (Bool-cases (is_executable d)) [
      | inl e ↦ rw e (after_approval-Sent d o f c s _ _)
      | inr e ↦ rw e (omega arith)
    ]

    pub execute_decisions-Sent :
        (ds : List Decision) (o f : ℕ) (c : Conn) (s : S)
        → Sent (o + count is_executable ds) (execute_decisions deps reasons mc ds (o, f) c s)
    unfolding execute_decisions
    execute_decisions-Sent [] o f c s = omega arith
    execute_decisions-Sent (d ∷ ds) o f c s =
        and_next-Sent (if is_executable d then o + 1 else o) _
          (execute_decisions deps reasons mc ds) (execute_decision deps reasons mc d (o, f) c s)
          (execute_decision-Sent d o f c s)
          (λ o' f' c' s' l.
            Sent-le (o' + count is_executable ds) (o + count is_executable (d ∷ ds))
              (execute_decisions deps reasons mc ds (o', f') c' s') (ground (arith, l))
              (execute_decisions-Sent ds o' f' c' s'))

  -- the loop without a test: every decision goes through the approval gate and to the executor
  abbrev pub execute_each : List Decision → ℕ × ℕ → Conn → S → Executed S
  execute_each [] n c s = some (ok n, c, s)
  execute_each (d ∷ ds) n c s =
      let (uuid, s') = deps.uuids.uuid4_hex s in
      let now = deps.clock.now s in
      let approval = resolve_approval d deps.mode c.tables now mc ("appr_" ++ uuid) in
      and_next (execute_each ds) (after_approval deps reasons mc d n c s s' approval)

  and_next-ext :
      (k l : ℕ × ℕ → Conn → S → Executed S) (x : Executed S)
      → ((n : ℕ × ℕ) (c : Conn) (s : S) → k n c s ≡ l n c s)
      → and_next k x ≡ and_next l x
  and_next-ext k l none h = refl
  and_next-ext k l (some (ok n, c, s)) h = h n c s
  and_next-ext k l (some (err e, c, s)) h = refl
  and_next-ext k l (some (raised x, c, s)) h = refl

  execute_decisions-each :
      (ds : List Decision) (n : ℕ × ℕ) (c : Conn) (s : S)
      → execute_decisions deps reasons mc ds n c s ≡ execute_each (keep may_trade ds) n c s
  unfolding execute_decisions execute_decision
  execute_decisions-each [] n c s = refl
  execute_decisions-each (d ∷ ds) n c s =
      let tested = is_executable-may_trade d in
      elim (Bool-cases (may_trade d)) [
        | inl e ↦
            rw (tested, e)
              (and_next-ext (execute_decisions deps reasons mc ds)
                (execute_each (keep may_trade ds)) _ (execute_decisions-each ds))
        | inr e ↦ rw (tested, e) (execute_decisions-each ds n c s)
      ]

  -- The loop is the same as one that first drops every decision but the buys and sells that passed
  -- the rules, and then takes each of the others, in their order and without a further test,
  -- through the approval gate to the executor and the polling: the outcome, the tables and the
  -- world outside are the same, so a rejected, held or skipped decision leaves no trace, and no
  -- passed buy or sell is left out.
  pub execute_passed_decisions-each :
      (ds : List Decision) (c : Conn) (s : S)
      → execute_passed_decisions deps reasons mc ds c s
        ≡ execute_each (keep may_trade ds) (0, 0) c s
  unfolding execute_passed_decisions
  execute_passed_decisions-each ds c s = execute_decisions-each ds (0, 0) c s
