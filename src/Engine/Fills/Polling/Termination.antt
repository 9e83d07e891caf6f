-- ===== src/Engine/Fills/Polling/Termination.antt =====
-- Polling ends: after the timeout at the latest, by as many polls as there are intervals in it.
use kyo_trading_tool.Prelude.{
  ℕ, zero, suc, ◌+◌, ◌≤◌, ◌≡◌, refl, subst, arith, inl, inr, Bool-cases, false, Option, none, some,
  leb, String,
}
use kyo_trading_tool.Domain.Result.{Result, ok, err, raised}
use kyo_trading_tool.Domain.Models.{OrderStatus}
use kyo_trading_tool.Ledger.Db.{Conn}
use kyo_trading_tool.Ledger.Repository.{update_order_status, list_fills}
use kyo_trading_tool.Broker.{BrokerError, BrokerOrder}
use kyo_trading_tool.Engine.Fills.{FillsError, PollOutcome, stored}
use kyo_trading_tool.Engine.Fills.Polling.{
  NewFill, Poll, Outside, Job, new_fill_at, start_poll, same_status, is_terminal, store_fill,
  fill_row, advance, yield, note_status, and_note, record_new, on_answer, decide, outcome,
  poll_loop, poll_fuel, poll_and_settle,
}

-- the time that has passed is as before, where the loop goes on
abbrev Elapsed : ℕ → Result FillsError Poll × Conn → Type 0
Elapsed n (ok p, c) = p.elapsed ≡ n
Elapsed n (err e, c) = Unit {0}
Elapsed n (raised x, c) = Unit {0}

yield-Elapsed :
    (n : ℕ) (p : Poll) (x : Result FillsError (Unit {0}) × Conn)
    → p.elapsed ≡ n
    → Elapsed n (yield p x)
yield-Elapsed n p (ok _, c) h = h
yield-Elapsed n p (err e, c) h = tt
yield-Elapsed n p (raised x, c) h = tt

note_status-Elapsed :
    (id : String) (b : BrokerOrder) (p : Poll) (c : Conn) → Elapsed p.elapsed (note_status id b p c)
unfolding note_status
note_status-Elapsed id b p c = elim (Bool-cases (same_status b.status p.last_status)) [
  | inl e ↦ rw (e, Elapsed) refl
  | inr e ↦
      rw (e, Elapsed)
        (yield-Elapsed p.elapsed (record p { last_status = b.status })
          (stored (update_order_status id b.status none (some b.broker_order_id) none c)) refl)
]

and_note-Elapsed :
    (n : ℕ) (id : String) (b : BrokerOrder) (x : Result FillsError Poll × Conn)
    → Elapsed n x
    → Elapsed n (and_note id b x)
and_note-Elapsed n id b (ok p, c) h =
    subst (λ k. Elapsed k (note_status id b p c)) h (note_status-Elapsed id b p c)
and_note-Elapsed n id b (err e, c) h = tt
and_note-Elapsed n id b (raised x, c) h = tt

module _ {S : Type 0} (out : Outside S) (job : Job) where
  record_new-Elapsed :
      (b : BrokerOrder) (p : Poll) (n : Option NewFill) (c : Conn) (s : S)
      → Elapsed p.elapsed (record_new out job b p n c s).0
  unfolding record_new
  record_new-Elapsed b p none c s = refl
  record_new-Elapsed b p (some n) c s =
      let (uuid, s') = out.uuids.uuid4_hex s in
      yield-Elapsed p.elapsed (advance p b n)
        (store_fill (fill_row uuid job.order_id (out.clock.now s') n) job.decision job.side
          job.exit_reason c)
        refl

  on_answer-Elapsed :
      (p : Poll) (c : Conn) (x : Result BrokerError BrokerOrder × S)
      → Elapsed p.elapsed (on_answer out job p c x).0
  unfolding on_answer
  on_answer-Elapsed p c (ok b, s) =
      let n =
        new_fill_at p.recorded_qty p.recorded_notional b.filled_qty.shares b.filled_avg_price in
      and_note-Elapsed p.elapsed job.order_id b (record_new out job b p n c s).0
        (record_new-Elapsed b p n c s)
  on_answer-Elapsed p c (err m, s) = tt
  on_answer-Elapsed p c (raised x, s) = tt

  abbrev Done : Option (Result FillsError PollOutcome × Conn × S) → Type 0
  Done o = (x : Result FillsError PollOutcome × Conn × S) × (o ≡ some x)

  decide-Done :
      (continue : Poll → Conn → S → Option (Result FillsError PollOutcome × Conn × S)) (n : ℕ)
      (x : (Result FillsError Poll × Conn) × OrderStatus × S)
      → Elapsed n x.0
      → ((p : Poll) (c : Conn) (s : S)
          → p.elapsed ≡ n + job.poll_interval_s
          → leb job.poll_timeout_s n ≡ false
          → Done (continue p c s))
      → Done (decide out job continue x)
  unfolding decide
  decide-Done continue n ((ok p, c), status, s) e h = elim (Bool-cases (is_terminal status)) [
    | inl t ↦ ((outcome out job p status, c, s), rw t)
    | inr t ↦ elim (Bool-cases (leb job.poll_timeout_s p.elapsed)) [
      | inl l ↦ ((outcome out job p p.last_status, c, s), rw (t, l))
      | inr l ↦
          let (x, ex) =
            h (record p { elapsed = p.elapsed + job.poll_interval_s }) c
              (out.clock.sleep job.poll_interval_s s) (rw e)
              (subst (λ k. leb job.poll_timeout_s k ≡ false) e l) in
          (x, rw (t, l) ex)
    ]
  ]
  decide-Done continue n ((err e', c), status, s) e h = ((err e', c, s), refl)
  decide-Done continue n ((raised x, c), status, s) e h = ((raised x, c, s), refl)

  poll_loop-Done :
      (fuel : ℕ) (p : Poll) (c : Conn) (s : S)
      → 1 ≤ job.poll_interval_s
      → job.poll_timeout_s + 1 ≤ p.elapsed + fuel
      → 1 ≤ fuel
      → Done (poll_loop out job fuel p c s)
  unfolding poll_loop
  poll_loop-Done zero p c s i h f = absurd (omega arith)
  poll_loop-Done (suc fuel) p c s i h f =
      decide-Done (poll_loop out job fuel) p.elapsed
        (on_answer out job p c (out.broker.get_order job.client_order_id s))
        (on_answer-Elapsed p c (out.broker.get_order job.client_order_id s))
        (λ p' c' s' e l. poll_loop-Done fuel p' c' s' i (ground arith) (ground arith))

  -- With an interval of at least a second, `poll_and_settle` returns, whatever the broker answers.
  pub poll_and_settle-terminates :
      (c : Conn) (s : S)
      → 1 ≤ job.poll_interval_s
      → (x : Result FillsError PollOutcome × Conn × S) × (poll_and_settle out job c s ≡ some x)
  unfolding poll_and_settle start_poll
  poll_and_settle-terminates c s i =
      poll_loop-Done (poll_fuel out job) (start_poll (list_fills c.tables job.order_id)) c s i
        (omega arith) (omega arith)
