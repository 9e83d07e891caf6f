-- ===== src/Engine/KillSwitch/Halting.antt =====
-- Triggering the kill switch halts the engine for every later reader, and resuming undoes it.
use kyo_trading_tool.Prelude.{
  ◌≡◌, ◌⊎◌, inl, inr, ◌∙◌, refl, sym, ap, arith, ℕ, true, false, Option, none, some, String, str_eq,
}
use kyo_trading_tool.Domain.Result.{Result, ok, err, raised}
use kyo_trading_tool.Domain.Models.{DateTime, Note}
use kyo_trading_tool.Rules.Loss.{LossLimitBreach}
use kyo_trading_tool.Ledger.Db.{Conn, Tables, LedgerError, could_not, on_err, transaction}
use kyo_trading_tool.Ledger.Db.Transactions.{Atomic, transaction-Atomic}
use kyo_trading_tool.Ledger.Portfolio.{get_state, put_state, get_engine_state}
use kyo_trading_tool.Broker.{Broker, BrokerError, Clock}
use kyo_trading_tool.Engine.KillSwitch.{
  KillSwitchError, not_resumed, KillSwitchOutcome, halted_key, halted_reason_key, halted_at_key,
  halted_value, set_halted, clear_halted, is_halted, canceled, cancel_failure, after_halt, halt,
  trigger, resume,
}
use kyo_trading_tool.Engine.KillSwitch.State.{
  Rows, Applied, halted_rows, cleared_rows, set_halted-Applied, clear_halted-Applied,
  get_state-put_state, get_state-put_other, get_state-drop_state, get_state-drop_other,
  get_state-drop_kept,
}

-- the committed tables say that the engine is halted, why, and since when
abbrev pub Halted : String → String → Tables → Type 0
Halted reason at t =
    (is_halted t ≡ true)
    × (get_engine_state t halted_reason_key ≡ some reason)
    × (get_engine_state t halted_at_key ≡ some at)

-- what a call of `trigger` has done, by the broker's answer and by how the call ended
abbrev pub Triggered :
    String
    → String
    → Result BrokerError ℕ
    → DateTime
    → Conn
    → Result KillSwitchError KillSwitchOutcome × Conn
    → Type 0
Triggered reason at cancel now c (ok out, c') =
    Halted reason at c'.committed
    × (c'.tables ≡ c'.committed)
    × (out.canceled_count ≡ canceled cancel)
    × (out.cancel_error ≡ cancel_failure cancel)
    × (out.halted_at ≡ now)
Triggered reason at cancel now c (err _, c') =
    (c'.tables ≡ c.committed) × (c'.committed ≡ c.committed)
Triggered reason at cancel now c (raised x, c') =
    ((cancel ≡ raised x) × (c' ≡ c)) ⊎ ((c'.tables ≡ c.committed) × (c'.committed ≡ c.committed))

Halted-of_rows :
    (reason at : String) (rows : Rows) (t : Tables)
    → t.engine_state ≡ halted_rows reason at rows
    → Halted reason at t
unfolding is_halted get_engine_state
Halted-of_rows reason at rows t h =
    let first = put_state halted_key halted_value rows in
    let second = put_state halted_reason_key reason first in
    let halted : get_state halted_key t.engine_state ≡ some halted_value =
      ap (get_state halted_key) h
      ∙ get_state-put_other halted_key halted_at_key at second refl
      ∙ get_state-put_other halted_key halted_reason_key reason first refl
      ∙ get_state-put_state halted_key halted_value rows in
    (
      ap (λ (o : Option String). elim o [ none ↦ false | some v ↦ str_eq v halted_value ]) halted,
      ap (get_state halted_reason_key) h
          ∙ get_state-put_other halted_reason_key halted_at_key at second refl
          ∙ get_state-put_state halted_reason_key reason first,
      ap (get_state halted_at_key) h ∙ get_state-put_state halted_at_key at second,
    )

of_transaction :
    (reason at : String) (cancel : Result BrokerError ℕ) (now : DateTime) (c : Conn)
    (inner x : Result LedgerError (Unit {0}) × Conn)
    → Applied (halted_rows reason at) c inner
    → Atomic c inner x
    → Triggered reason at cancel now c (after_halt cancel now x)
of_transaction reason at cancel now c (ok v, c1) (ok u, c') h (_, seen, kept) = (
  Halted-of_rows reason at c.tables.engine_state c'.committed
      (ap (λ (t : Tables). t.engine_state) kept ∙ h.0),
  seen ∙ sym kept,
  refl,
  refl,
  refl,
)
of_transaction reason at cancel now c (err e, c1) (ok u, c') h a = ground arith
of_transaction reason at cancel now c (raised x, c1) (ok u, c') h a = ground arith
of_transaction reason at cancel now c inner (err e, c') h a = a
of_transaction reason at cancel now c inner (raised x, c') h a = inr a

committed_of :
    (change : Rows → Rows) (c : Conn) (x : Result LedgerError (Unit {0}) × Conn)
    → Applied change c x
    → x.1.committed ≡ c.committed
committed_of change c (ok _, c') h = h.1
committed_of change c (err _, c') h = h
committed_of change c (raised _, c') h = h

-- the transaction of `trigger`
halt_transaction-Triggered :
    (reason at : String) (cancel : Result BrokerError ℕ) (now : DateTime) (c : Conn)
    → Triggered reason at cancel now c (
        after_halt cancel now
          (transaction (could_not "persist halted state") (set_halted reason at) c))
halt_transaction-Triggered reason at cancel now c =
    let applied = set_halted-Applied reason at c in
    of_transaction reason at cancel now c (set_halted reason at c) _ applied (
      transaction-Atomic (could_not "persist halted state") (set_halted reason at) c
        (committed_of (halted_rows reason at) c (set_halted reason at c) applied))

halt-Triggered :
    (reason_text : Note → String) (isoformat : DateTime → String) (breach : LossLimitBreach)
    (cancel : Result BrokerError ℕ) (now : DateTime) (c : Conn)
    → Triggered
        (reason_text breach.reason)
        (isoformat now)
        cancel
        now
        c
        (halt reason_text isoformat breach cancel now c)
unfolding halt
halt-Triggered reason_text isoformat breach (ok n) now c =
    halt_transaction-Triggered (reason_text breach.reason) (isoformat now) (ok n) now c
halt-Triggered reason_text isoformat breach (err e) now c =
    halt_transaction-Triggered (reason_text breach.reason) (isoformat now) (err e) now c
halt-Triggered reason_text isoformat breach (raised x) now c = inl (refl, refl)

-- `trigger` halts the engine whatever the broker answers: where it returns `Ok`, the committed
-- tables say that the engine is halted, with the breach's reason and the time of the call, and the
-- outcome carries the count of the canceled orders or the broker's error. Where it returns `Err`,
-- nothing is written, and the connection is back at the committed tables. An exception is the
-- broker's own, with nothing touched, or leaves the committed tables.
pub trigger-persists_halt :
    {S : Type 0} (reason_text : Note → String) (isoformat : DateTime → String) (broker : Broker S)
    (clock : Clock S) (breach : LossLimitBreach) (c : Conn) (s : S)
    → Triggered
        (reason_text breach.reason)
        (isoformat (clock.now (broker.cancel_all_open s).1))
        (broker.cancel_all_open s).0
        (clock.now (broker.cancel_all_open s).1)
        c
        (trigger reason_text isoformat broker clock breach c s).0
unfolding trigger
trigger-persists_halt reason_text isoformat broker clock breach c s =
    halt-Triggered reason_text isoformat breach (broker.cancel_all_open s).0
      (clock.now (broker.cancel_all_open s).1) c

-- what a call of `resume` has done
abbrev pub Resumed : Conn → Result KillSwitchError (Unit {0}) × Conn → Type 0
Resumed c (ok _, c') =
    (is_halted c'.committed ≡ false)
    × (c'.tables ≡ c'.committed)
    × ((key : String)
        → str_eq halted_key key ≡ false
        → str_eq halted_reason_key key ≡ false
        → str_eq halted_at_key key ≡ false
        → get_engine_state c'.committed key ≡ get_engine_state c.tables key)
Resumed c (err _, c') = (c'.tables ≡ c.committed) × (c'.committed ≡ c.committed)
Resumed c (raised _, c') = (c'.tables ≡ c.committed) × (c'.committed ≡ c.committed)

cleared-not_halted :
    (rows : Rows) (t : Tables) → t.engine_state ≡ cleared_rows rows → is_halted t ≡ false
unfolding is_halted get_engine_state
cleared-not_halted rows t h =
    ap (λ (o : Option String). elim o [ none ↦ false | some v ↦ str_eq v halted_value ])
      (ap (get_state halted_key) h
        ∙ get_state-drop_other halted_key halted_at_key _ (
            get_state-drop_other halted_key halted_reason_key _
              (get_state-drop_state halted_key rows)))

cleared-kept :
    (key : String) (rows : Rows)
    → str_eq halted_key key ≡ false
    → str_eq halted_reason_key key ≡ false
    → str_eq halted_at_key key ≡ false
    → get_state key (cleared_rows rows) ≡ get_state key rows
cleared-kept key rows h k l =
    get_state-drop_kept key halted_at_key _ l
    ∙ get_state-drop_kept key halted_reason_key _ k
    ∙ get_state-drop_kept key halted_key rows h

of_clear :
    (c : Conn) (inner x : Result LedgerError (Unit {0}) × Conn)
    → Applied cleared_rows c inner
    → Atomic c inner x
    → Resumed c (on_err not_resumed (λ (_ : Conn). x) c)
unfolding get_engine_state
of_clear c (ok v, c1) (ok u, c') h (_, seen, kept) =
    let rows : c'.committed.engine_state ≡ cleared_rows c.tables.engine_state =
      ap (λ (t : Tables). t.engine_state) kept ∙ h.0 in
    (
      cleared-not_halted c.tables.engine_state c'.committed rows,
      seen ∙ sym kept,
      λ key a b d. ap (get_state key) rows ∙ cleared-kept key c.tables.engine_state a b d,
    )
of_clear c (err e, c1) (ok u, c') h a = ground arith
of_clear c (raised x, c1) (ok u, c') h a = ground arith
of_clear c inner (err e, c') h a = a
of_clear c inner (raised x, c') h a = a

-- `resume` lets the engine run again: where it returns `Ok`, the committed tables no longer say
-- that the engine is halted, and every key of the engine's state but the three of the kill switch
-- (`peak_equity`, say) reads as before. Where it fails, nothing is deleted, and the connection is
-- back at the committed tables.
pub resume-clears_halt : (c : Conn) → Resumed c (resume c)
unfolding resume
resume-clears_halt c =
    let applied = clear_halted-Applied c in
    of_clear c (clear_halted c) (transaction (could_not "resume") clear_halted c) applied (
      transaction-Atomic (could_not "resume") clear_halted c
        (committed_of cleared_rows c (clear_halted c) applied))
