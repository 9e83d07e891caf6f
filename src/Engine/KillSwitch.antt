-- ===== src/Engine/KillSwitch.antt =====
-- src/trader/engine/kill_switch.py: halting the engine and letting it run again. The text of a
-- reason and the ISO form of a time are parameters: `none` of `fromisoformat` is a ValueError.
pub mod State
pub mod Halting
use kyo_trading_tool.Prelude.{
  ℕ, Bool, false, Option, none, some, String, str_eq, text_or_empty, if◌then◌else◌,
}
use kyo_trading_tool.Domain.Result.{Result, ok, err, raised, value_error}
use kyo_trading_tool.Domain.Models.{DateTime, Note}
use kyo_trading_tool.Rules.Loss.{LossLimitBreach}
use kyo_trading_tool.Ledger.Db.{Conn, Tables, Sql, LedgerError, could_not, on_err, transaction}
use kyo_trading_tool.Ledger.Portfolio.{get_engine_state, set_engine_state, delete_engine_state}
use kyo_trading_tool.Broker.{Broker, BrokerError, Clock}

-- `KillSwitchError`
pub data KillSwitchError : Type 0 where
  not_persisted : LedgerError → KillSwitchError
  not_resumed : LedgerError → KillSwitchError

pub record KillSwitchOutcome : Type 0 where
  pub canceled_count : Option ℕ
  pub cancel_error : Option BrokerError
  pub halted_at : DateTime

pub record HaltInfo : Type 0 where
  pub reason : String
  pub halted_at : DateTime

abbrev pub halted_key : String
halted_key = "halted"

abbrev pub halted_reason_key : String
halted_reason_key = "halted_reason"

abbrev pub halted_at_key : String
halted_at_key = "halted_at"

abbrev pub halted_value : String
halted_value = "true"

-- the next call, unless the last one failed
abbrev pub in_turn :
    (Conn → Result LedgerError (Unit {0}) × Conn)
    → Result LedgerError (Unit {0}) × Conn
    → Result LedgerError (Unit {0}) × Conn
in_turn m (ok _, c) = m c
in_turn m (err e, c) = (err e, c)
in_turn m (raised x, c) = (raised x, c)

-- the loop of `trigger` over the three keys
unfoldable pub set_halted : String → String → Sql LedgerError (Unit {0})
set_halted reason at c = in_turn (set_engine_state halted_at_key at) (
    in_turn (set_engine_state halted_reason_key reason)
      (set_engine_state halted_key halted_value c))

-- the three deletes of `resume`
unfoldable pub clear_halted : Sql LedgerError (Unit {0})
clear_halted c =
    in_turn (delete_engine_state halted_at_key)
      (in_turn (delete_engine_state halted_reason_key) (delete_engine_state halted_key c))

unfoldable pub is_halted : Tables → Bool
is_halted t = elim (get_engine_state t halted_key) [ none ↦ false | some v ↦ str_eq v halted_value ]

abbrev pub canceled : Result BrokerError ℕ → Option ℕ
canceled (ok n) = some n
canceled (err _) = none
canceled (raised _) = none

abbrev pub cancel_failure : Result BrokerError ℕ → Option BrokerError
cancel_failure (ok _) = none
cancel_failure (err e) = some e
cancel_failure (raised _) = none

-- what the call returns after its transaction
abbrev pub after_halt :
    Result BrokerError ℕ
    → DateTime
    → Result LedgerError (Unit {0}) × Conn
    → Result KillSwitchError KillSwitchOutcome × Conn
after_halt cancel now (ok _, c) = (
  ok (record {
    canceled_count = canceled cancel;
    cancel_error = cancel_failure cancel;
    halted_at = now;
  }),
  c,
)
after_halt cancel now (err e, c) = (err (not_persisted e), c)
after_halt cancel now (raised x, c) = (raised x, c)

module _ (reason_text : Note → String) (isoformat : DateTime → String) where
  -- `trigger` after the call of the broker; an exception of that call is not caught
  unfoldable pub halt :
      LossLimitBreach
      → Result BrokerError ℕ
      → DateTime
      → Conn
      → Result KillSwitchError KillSwitchOutcome × Conn
  halt breach (ok n) now c = after_halt (ok n) now (
      transaction (could_not "persist halted state")
        (set_halted (reason_text breach.reason) (isoformat now)) c)
  halt breach (err e) now c = after_halt (err e) now (
      transaction (could_not "persist halted state")
        (set_halted (reason_text breach.reason) (isoformat now)) c)
  halt breach (raised x) now c = (raised x, c)

  unfoldable pub trigger :
      {S : Type 0}
      → Broker S
      → Clock S
      → LossLimitBreach
      → Conn
      → S
      → (Result KillSwitchError KillSwitchOutcome × Conn) × S
  trigger broker clock breach c s =
      let (cancel_result, s') = broker.cancel_all_open s in
      (halt breach cancel_result (clock.now s') c, s')

-- `datetime.fromisoformat(halted_at_raw) if halted_at_raw else datetime.min`
unfoldable pub halted_at_of :
    {E : Type 0} → (String → Option DateTime) → DateTime → Option String → Result E DateTime
halted_at_of fromisoformat datetime_min none = ok datetime_min
halted_at_of fromisoformat datetime_min (some raw) =
    if str_eq raw ""
    then ok datetime_min
    else elim (fromisoformat raw) [ none ↦ raised value_error | some d ↦ ok d ]

abbrev pub info_of : {E : Type 0} → String → Result E DateTime → Result E (Option HaltInfo)
info_of reason (ok d) = ok (some (record { reason = reason; halted_at = d }))
info_of reason (err e) = err e
info_of reason (raised x) = raised x

unfoldable pub halt_info :
    {E : Type 0} → (String → Option DateTime) → DateTime → Tables → Result E (Option HaltInfo)
halt_info fromisoformat datetime_min t =
    if is_halted t
    then info_of (text_or_empty (get_engine_state t halted_reason_key))
        (halted_at_of fromisoformat datetime_min (get_engine_state t halted_at_key))
    else ok none

unfoldable pub resume : Sql KillSwitchError (Unit {0})
resume = on_err not_resumed (transaction (could_not "resume") clear_halted)
