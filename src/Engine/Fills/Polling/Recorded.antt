-- ===== src/Engine/Fills/Polling/Recorded.antt =====
-- The rows of `fills` for an order add up to what the loop counts, and never to more than the
-- broker has reported as filled.
use kyo_trading_tool.Prelude.{
  ℕ, zero, suc, ◌+◌, ◌≤◌, ◌≡◌, inl, inr, refl, sym, ap, subst, ◌∙◌, arith, Bool-cases, Option, none,
  some, String, str_eq, keep, snoc, leb,
}
use kyo_trading_tool.Domain.Result.{Result, ok, err, raised}
use kyo_trading_tool.Domain.Money.{Money, Price}
use kyo_trading_tool.Domain.Models.{Fill, OrderStatus}
use kyo_trading_tool.Ledger.Db.{Conn}
use kyo_trading_tool.Ledger.Repository.{list_fills, update_order_status}
use kyo_trading_tool.Broker.{BrokerError, BrokerOrder}
use kyo_trading_tool.Engine.Fills.{FillsError, PollOutcome, stored}
use kyo_trading_tool.Engine.Fills.Polling.{
  NewFill, Poll, Outside, Job, new_fill_at, start_poll, total_shares, same_status, is_terminal,
  store_fill, fill_row, advance, yield, note_status, and_note, record_new, on_answer, decide,
  poll_loop, poll_fuel, poll_and_settle,
}
use kyo_trading_tool.Engine.Fills.Polling.Rows.{
  recorded_shares, recorded_shares-snoc, total_shares-list_fills, Added, store_fill-Added,
  SameFills, stored-SameFills, update_order_status-SameFills,
}
use kyo_trading_tool.Engine.Fills.Polling.Termination.{poll_and_settle-terminates}

-- the broker reports no more than `n` shares as filled
abbrev pub AtMost : {S : Type 0} → ℕ → Result BrokerError BrokerOrder × S → Type 0
AtMost n (ok b, _) = b.filled_qty.shares ≤ n
AtMost n (err _, _) = Unit {0}
AtMost n (raised _, _) = Unit {0}

-- the loop counts what the table holds, which is at most `n`
abbrev Counted : String → ℕ → Result FillsError Poll × Conn → Type 0
Counted order_id n (ok p, c) =
    (p.recorded_qty ≡ recorded_shares order_id c.tables) × (recorded_shares order_id c.tables ≤ n)
Counted order_id n (err _, c) = recorded_shares order_id c.tables ≤ n
Counted order_id n (raised _, c) = recorded_shares order_id c.tables ≤ n

same_shares :
    {E A : Type 0} (order_id : String) (c : Conn) (x : Result E A × Conn)
    → SameFills c x
    → recorded_shares order_id x.1.tables ≡ recorded_shares order_id c.tables
same_shares order_id c x h =
    ap (λ fills. total_shares (keep (λ (f : Fill). str_eq f.order_id order_id) fills)) h

new_fill_at-qty :
    (r : ℕ) (m : Money) (filled : ℕ) (o : Option Price) (n : NewFill)
    → new_fill_at r m filled o ≡ some n
    → n.new_qty + r ≡ filled
unfolding new_fill_at
new_fill_at-qty r m filled none n e = ground arith
new_fill_at-qty r m filled (some avg) n e = ground arith

note_status-Counted :
    (order_id : String) (n : ℕ) (b : BrokerOrder) (p : Poll) (c : Conn)
    → Counted order_id n (ok p, c)
    → Counted order_id n (note_status order_id b p c)
unfolding note_status
note_status-Counted order_id n b p c h = elim (Bool-cases (same_status b.status p.last_status)) [
  | inl e ↦ rw e h
  | inr e ↦
      let x = update_order_status order_id b.status none (some b.broker_order_id) none c in
      rw e (
        of_same (stored x) (
          same_shares order_id c (stored x) (
            stored-SameFills c x (
              update_order_status-SameFills order_id b.status none (some b.broker_order_id) none
                c))))
]
  where
    of_same :
        (x : Result FillsError (Unit {0}) × Conn)
        → recorded_shares order_id x.1.tables ≡ recorded_shares order_id c.tables
        → Counted order_id n (yield (record p { last_status = b.status }) x)
    of_same (ok _, d) e = (h.0 ∙ sym e, omega (arith, e, h.1))
    of_same (err _, d) e = omega (arith, e, h.1)
    of_same (raised _, d) e = omega (arith, e, h.1)

and_note-Counted :
    (order_id : String) (n : ℕ) (b : BrokerOrder) (x : Result FillsError Poll × Conn)
    → Counted order_id n x
    → Counted order_id n (and_note order_id b x)
and_note-Counted order_id n b (ok p, c) h = note_status-Counted order_id n b p c h
and_note-Counted order_id n b (err e, c) h = h
and_note-Counted order_id n b (raised e, c) h = h

added_shares :
    (f : Fill) (c d : Conn)
    → d.tables.fills ≡ snoc c.tables.fills f
    → recorded_shares f.order_id d.tables ≡ recorded_shares f.order_id c.tables + f.qty.shares
added_shares f c d h =
    ap (λ fills. total_shares (keep (λ (g : Fill). str_eq g.order_id f.order_id) fills)) h
    ∙ recorded_shares-snoc f c.tables.fills

kept_shares :
    (order_id : String) (c d : Conn)
    → d.tables.fills ≡ c.tables.fills
    → recorded_shares order_id d.tables ≡ recorded_shares order_id c.tables
kept_shares order_id c d h =
    ap (λ fills. total_shares (keep (λ (f : Fill). str_eq f.order_id order_id) fills)) h

stored_fill-Counted :
    (f : Fill) (n m : ℕ) (p : Poll) (c : Conn) (x : Result FillsError (Unit {0}) × Conn)
    → Added f c x
    → recorded_shares f.order_id c.tables + f.qty.shares ≡ m
    → m ≤ n
    → p.recorded_qty ≡ m
    → Counted f.order_id n (yield p x)
stored_fill-Counted f n m p c (ok _, d) h e l q =
    (omega (arith, e, q, added_shares f c d h), omega (arith, e, added_shares f c d h))
stored_fill-Counted f n m p c (err _, d) (inl h) e l q = omega (arith, e, added_shares f c d h)
stored_fill-Counted f n m p c (err _, d) (inr h) e l q =
    omega (arith, e, kept_shares f.order_id c d h)
stored_fill-Counted f n m p c (raised _, d) (inl h) e l q = omega (arith, e, added_shares f c d h)
stored_fill-Counted f n m p c (raised _, d) (inr h) e l q =
    omega (arith, e, kept_shares f.order_id c d h)

module _ {S : Type 0} (out : Outside S) (job : Job) (n : ℕ) where
  record_new-Counted :
      (b : BrokerOrder) (p : Poll) (o : Option NewFill) (c : Conn) (s : S)
      → ((new : NewFill) → o ≡ some new → new.new_qty + p.recorded_qty ≡ b.filled_qty.shares)
      → b.filled_qty.shares ≤ n
      → Counted job.order_id n (ok p, c)
      → Counted job.order_id n (record_new out job b p o c s).0
  unfolding record_new fill_row
  record_new-Counted b p none c s f l h = h
  record_new-Counted b p (some new) c s f l h =
      let (uuid, s') = out.uuids.uuid4_hex s in
      let fill = fill_row uuid job.order_id (out.clock.now s') new in
      stored_fill-Counted fill n b.filled_qty.shares (advance p b new) c
        (store_fill fill job.decision job.side job.exit_reason c)
        (store_fill-Added fill job.decision job.side job.exit_reason c)
        (omega (arith, h.0, f new refl)) l refl

  on_answer-Counted :
      (p : Poll) (c : Conn) (x : Result BrokerError BrokerOrder × S)
      → AtMost n x
      → Counted job.order_id n (ok p, c)
      → Counted job.order_id n (on_answer out job p c x).0
  unfolding on_answer
  on_answer-Counted p c (ok b, s) l h =
      let o =
        new_fill_at p.recorded_qty p.recorded_notional b.filled_qty.shares b.filled_avg_price in
      and_note-Counted job.order_id n b (record_new out job b p o c s).0 (
        record_new-Counted b p o c s
          (λ new e.
            new_fill_at-qty p.recorded_qty p.recorded_notional b.filled_qty.shares
              b.filled_avg_price new e)
          l h)
  on_answer-Counted p c (err m, s) l h = h.1
  on_answer-Counted p c (raised x, s) l h = h.1

  -- the rows at the end of the loop, where it has ended
  abbrev Bounded : Option (Result FillsError PollOutcome × Conn × S) → Type 0
  Bounded none = Unit {0}
  Bounded (some (_, c, _)) = recorded_shares job.order_id c.tables ≤ n

  decide-Bounded :
      (continue : Poll → Conn → S → Option (Result FillsError PollOutcome × Conn × S))
      (x : (Result FillsError Poll × Conn) × OrderStatus × S)
      → Counted job.order_id n x.0
      → ((p : Poll) (c : Conn) (s : S)
          → Counted job.order_id n (ok p, c)
          → Bounded (continue p c s))
      → Bounded (decide out job continue x)
  unfolding decide
  decide-Bounded continue ((ok p, c), status, s) h k = elim (Bool-cases (is_terminal status)) [
    | inl t ↦ rw t h.1
    | inr t ↦ elim (Bool-cases (leb job.poll_timeout_s p.elapsed)) [
      | inl l ↦ rw (t, l) h.1
      | inr l ↦
          rw (t, l)
            (k (record p { elapsed = p.elapsed + job.poll_interval_s }) c
              (out.clock.sleep job.poll_interval_s s) h)
    ]
  ]
  decide-Bounded continue ((err e, c), status, s) h k = h
  decide-Bounded continue ((raised e, c), status, s) h k = h

  poll_loop-Bounded :
      (fuel : ℕ) (p : Poll) (c : Conn) (s : S)
      → ((id : String) (t : S) → AtMost n (out.broker.get_order id t))
      → Counted job.order_id n (ok p, c)
      → Bounded (poll_loop out job fuel p c s)
  unfolding poll_loop
  poll_loop-Bounded zero p c s l h = tt
  poll_loop-Bounded (suc fuel) p c s l h =
      decide-Bounded (poll_loop out job fuel)
        (on_answer out job p c (out.broker.get_order job.client_order_id s))
        (on_answer-Counted p c (out.broker.get_order job.client_order_id s)
          (l job.client_order_id s) h)
        (λ p' c' s' h'. poll_loop-Bounded fuel p' c' s' l h')

  -- If the broker never reports more than `n` shares as filled and the table holds no more than `n`
  -- for the order, then `poll_and_settle` returns, for an interval of at least a second, and
  -- however it ends, the rows of `fills` for the order add up to `n` shares at most.
  pub poll_and_settle-Bounded :
      (c : Conn) (s : S)
      → 1 ≤ job.poll_interval_s
      → ((id : String) (t : S) → AtMost n (out.broker.get_order id t))
      → recorded_shares job.order_id c.tables ≤ n
      → (x : Result FillsError PollOutcome × Conn × S) × (poll_and_settle out job c s ≡ some x)
        × (recorded_shares job.order_id x.1.tables ≤ n)
  unfolding poll_and_settle start_poll
  poll_and_settle-Bounded c s i l h =
      let (x, e) = poll_and_settle-terminates out job c s i in
      let counted = total_shares-list_fills job.order_id c.tables in
      (
        x,
        e,
        subst Bounded e (
            poll_loop-Bounded (poll_fuel out job) (start_poll (list_fills c.tables job.order_id)) c
              s l (counted, h)),
      )
