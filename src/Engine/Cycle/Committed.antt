-- ===== src/Engine/Cycle/Committed.antt =====
-- What `_finish` leaves: a closed row of `cycles`, and nothing that is not committed.
use kyo_trading_tool.Prelude.{
  ◌≡◌, refl, ap, ◌∙◌, arith, Bool-cases, inl, inr, true, false, Option, none, some, List, [], ◌∷◌,
  String, str_eq, find, any,
}
use kyo_trading_tool.Domain.Result.{Result, ok, err, raised}
use kyo_trading_tool.Domain.Models.{DateTime, Note}
use kyo_trading_tool.Ledger.Db.{
  Cycle, Tables, Conn, LedgerError, statement, commit_open, next_refused,
}
use kyo_trading_tool.Ledger.Repository.{has_cycle, check_rowcount}
use kyo_trading_tool.Ledger.Portfolio.{
  get_engine_state, set_engine_state, close_cycle, finish_cycle, get_state,
}
use kyo_trading_tool.Engine.KillSwitch.{halted_key, halted_value, is_halted}
use kyo_trading_tool.Engine.KillSwitch.State.{get_state-put_other}
use kyo_trading_tool.Engine.Cycle.{
  last_cycle_id_key, CycleStatus, status_text, CycleError, CycleOutcome, ledger_note, Ended,
  of_commit, set_last_cycle, close, finish,
}

-- the row of the cycle with the outcome in it
abbrev pub ClosedRow : CycleOutcome → Tables → Type 0
ClosedRow out t =
    (row : Cycle) × (find (λ (c : Cycle). str_eq c.id out.cycle_id) t.cycles ≡ some row)
    × (row.outcome ≡ some (status_text out.outcome))
    × (row.error_summary ≡ out.error_summary)

close_cycle-find :
    (id : String) (now : DateTime) (outcome : String) (summary : Option Note) (cs : List Cycle)
    → any (λ (c : Cycle). str_eq c.id id) cs ≡ true
    → (row : Cycle) × (find (λ (c : Cycle). str_eq c.id id) (close_cycle id now outcome summary cs)
        ≡ some row)
      × (row.outcome ≡ some outcome)
      × (row.error_summary ≡ summary)
unfolding close_cycle
close_cycle-find id now outcome summary [] h = absurd (ground arith)
close_cycle-find id now outcome summary (c ∷ cs) h = elim (Bool-cases (str_eq c.id id)) [
  | inl e ↦
      let row = record c {
        finished_at = some now;
        outcome = some outcome;
        error_summary = summary;
      } in
      (row, rw (e, e) refl, refl, refl)
  | inr e ↦
      let (row, f, o, m) = close_cycle-find id now outcome summary cs (ground (arith, e, h)) in
      (row, rw (e, e) f, o, m)
]

-- the update of the row
abbrev Updated : CycleOutcome → DateTime → Conn → Result LedgerError (Unit {0}) × Conn → Type 0
Updated out now c (ok _, d) =
    (has_cycle c.tables out.cycle_id ≡ true)
    × (d.tables.cycles
        ≡ close_cycle out.cycle_id now (status_text out.outcome) out.error_summary c.tables.cycles)
    × (d.tables.engine_state ≡ c.tables.engine_state)
Updated out now c (err _, d) = d.tables.engine_state ≡ c.tables.engine_state
Updated out now c (raised _, d) = ⊥

finish_cycle-Updated :
    (out : CycleOutcome) (now : DateTime) (c : Conn)
    → Updated out now c
        (finish_cycle out.cycle_id now (status_text out.outcome) out.error_summary c)
unfolding finish_cycle statement check_rowcount
finish_cycle-Updated out now c = ground arith

-- whether the engine is halted shows in its state alone
pub same_halted : (t u : Tables) → t.engine_state ≡ u.engine_state → is_halted t ≡ is_halted u
unfolding is_halted get_engine_state
same_halted t u h =
    ap
      (λ (rows : List (String × String)). elim (get_state halted_key rows) [
        | none ↦ false
        | some v ↦ str_eq v halted_value
      ])
      h

-- the key of the last cycle is not that of the kill switch
set_engine_state-kept :
    (id : String) (c : Conn)
    → ((set_engine_state last_cycle_id_key id c).1.tables.cycles ≡ c.tables.cycles)
      × (is_halted (set_engine_state last_cycle_id_key id c).1.tables ≡ is_halted c.tables)
unfolding set_engine_state statement is_halted get_engine_state
set_engine_state-kept id c =
    let other = get_state-put_other halted_key last_cycle_id_key id c.tables.engine_state refl in
    elim (Bool-cases (next_refused c.refusals)) [
      | inl e ↦ rw e (refl, refl)
      | inr e ↦ rw e (
        refl,
        ap (λ (o : Option String). elim o [ none ↦ false | some v ↦ str_eq v halted_value ]) other,
      )
    ]

set_last_cycle-kept :
    (status : CycleStatus) (id : String) (c : Conn)
    → ((set_last_cycle status id c).tables.cycles ≡ c.tables.cycles)
      × (is_halted (set_last_cycle status id c).tables ≡ is_halted c.tables)
unfolding set_last_cycle
set_last_cycle-kept CycleStatus.error id c = (refl, refl)
set_last_cycle-kept CycleStatus.finished id c = set_engine_state-kept id c
set_last_cycle-kept CycleStatus.halted id c = set_engine_state-kept id c
set_last_cycle-kept CycleStatus.market_unavailable id c = set_engine_state-kept id c

-- what `_finish` leaves: where it returns `Ok`, the closed row and whether the engine is halted are
-- committed; where it returns `Err`, what was written before is committed
abbrev pub Finished : CycleOutcome → Conn → Ended → Type 0
Finished out c (ok o, d) =
    (o ≡ out)
    × (d.tables ≡ d.committed)
    × ClosedRow out d.committed
    × (is_halted d.committed ≡ is_halted c.tables)
Finished out c (err _, d) = (d.tables ≡ d.committed) × (is_halted d.committed ≡ is_halted c.tables)
Finished out c (raised _, d) = Unit {0}

ok_committed :
    (out : CycleOutcome) (c d : Conn)
    → ClosedRow out d.tables
    → is_halted d.tables ≡ is_halted c.tables
    → Finished out c (of_commit (ok out) (commit_open tt d))
unfolding commit_open
ok_committed out c d row h = elim (Bool-cases (next_refused d.refusals)) [
  | inl e ↦ rw e tt
  | inr e ↦ rw e (refl, refl, row, h)
]

err_committed :
    (out : CycleOutcome) (n : CycleError) (c d : Conn)
    → is_halted d.tables ≡ is_halted c.tables
    → Finished out c (of_commit (err n) (commit_open tt d))
unfolding commit_open
err_committed out n c d h = elim (Bool-cases (next_refused d.refusals)) [
  | inl e ↦ rw e tt
  | inr e ↦ rw e (refl, h)
]

close-Finished :
    (out : CycleOutcome) (now : DateTime) (c : Conn) (x : Result LedgerError (Unit {0}) × Conn)
    → Updated out now c x
    → Finished out c (close out x)
unfolding close is_halted get_engine_state
close-Finished out now c (ok u, d) (found, cycles, state) =
    let last = set_last_cycle out.outcome out.cycle_id d in
    let kept = set_last_cycle-kept out.outcome out.cycle_id d in
    let (row, f, o, m) =
      close_cycle-find out.cycle_id now (status_text out.outcome) out.error_summary c.tables.cycles
        found in
    ok_committed out c last
      (row, ap (find (λ (r : Cycle). str_eq r.id out.cycle_id)) (kept.0 ∙ cycles) ∙ f, o, m)
      (kept.1 ∙ same_halted d.tables c.tables state)
close-Finished out now c (err e, d) state =
    err_committed out (ledger_note e) c d (same_halted d.tables c.tables state)
close-Finished out now c (raised e, d) h = tt

pub finish-Finished :
    (out : CycleOutcome) (now : DateTime) (c : Conn) → Finished out c (finish out now c)
unfolding finish
finish-Finished out now c =
    close-Finished out now c
      (finish_cycle out.cycle_id now (status_text out.outcome) out.error_summary c)
      (finish_cycle-Updated out now c)
