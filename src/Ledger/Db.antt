-- ===== src/Ledger/Db.antt =====
-- src/trader/ledger/db.py and migrations/0001_init.sql: the tables, a connection, transactions.
-- SQLite is not under src/: a connection carries one flag for each statement or commit still to
-- come, which says whether the database refuses it (`sqlite3.Error`) for reasons of its own.
-- What a statement does when it is accepted follows the constraints of the schema.
pub mod Transactions
use kyo_trading_tool.Prelude.{
  ℕ, Bool, true, false, Option, none, some, List, [], ◌∷◌, String, if◌then◌else◌,
}
use kyo_trading_tool.Domain.Result.{
  Result, ok, err, raised, database_error, division_by_zero, value_error, key_error,
}
use kyo_trading_tool.Domain.Models.{
  DateTime, Note, Mention, Decision, Approval, Order, Fill, Position, Trade, EquitySnapshot,
}

-- a row of `cycles`
pub record Cycle : Type 0 where
  pub id : String
  pub started_at : DateTime
  pub finished_at : Option DateTime
  pub mode : String
  pub outcome : Option String
  pub error_summary : Option Note

-- a row of `sources`
pub record Source : Type 0 where
  pub source_id : String
  pub name : String
  pub imported_at : DateTime
  pub file_sha256 : String
  pub record_count : ℕ

-- the tables that the engine reads and writes; of `rule_sets` only the key matters
pub record Tables : Type 0 where
  pub sources : List Source
  pub mentions : List Mention
  pub rule_sets : List String
  pub cycles : List Cycle
  pub decisions : List Decision
  pub approvals : List Approval
  pub orders : List Order
  pub fills : List Fill
  pub positions : List Position
  pub trades : List Trade
  pub equity_snapshots : List EquitySnapshot
  pub engine_state : List (String × String)

-- `tables` is what this connection sees, `committed` what any other connection sees
pub record Conn : Type 0 where
  pub tables : Tables
  pub committed : Tables
  pub refusals : List Bool

pub data LedgerError : Type 0 where
  could_not : String → LedgerError
  no_such : String → String → LedgerError

-- the next flag; once the list is used up nothing is refused
unfoldable pub next_refused : List Bool → Bool
next_refused [] = false
next_refused (b ∷ _) = b

unfoldable pub later_refusals : List Bool → List Bool
later_refusals [] = []
later_refusals (_ ∷ bs) = bs

-- an action on the connection
abbrev pub Sql : Type 0 → Type 0 → Type 0
Sql E A = Conn → Result E A × Conn

infixl 5 ◌>>=◌ ◌>>◌
abbrev pub ◌>>=◌ : {E A B : Type 0} → Sql E A → (A → Sql E B) → Sql E B
◌>>=◌ m f c =
    let (r, c') = m c in elim r [ ok a ↦ f a c' | err e ↦ (err e, c') | raised x ↦ (raised x, c') ]

abbrev pub ◌>>◌ : {E B : Type 0} → Sql E (Unit {0}) → Sql E B → Sql E B
m >> k = m >>= λ _. k

-- the same action with its error wrapped
abbrev pub on_err : {E F A : Type 0} → (E → F) → Sql E A → Sql F A
on_err wrap m c =
    let (r, c') = m c in
    elim r [ ok a ↦ (ok a, c') | err e ↦ (err (wrap e), c') | raised x ↦ (raised x, c') ]

-- an error that the source does not catch
abbrev pub or_raise : {E F A : Type 0} → Sql E A → Sql F A
or_raise m c =
    let (r, c') = m c in
    elim r [ ok a ↦ (ok a, c') | err e ↦ (raised database_error, c') | raised x ↦ (raised x, c') ]

-- One INSERT, UPDATE or DELETE: `none` is a violated constraint. A statement that fails, for that
-- or for a reason of the database, leaves the tables as they were.
unfoldable pub statement : {E : Type 0} → E → (Tables → Option Tables) → Sql E (Unit {0})
statement failure change c =
    let later = later_refusals c.refusals in
    if next_refused c.refusals
    then (err failure, record c { refusals = later })
    else elim (change c.tables) [
      | none ↦ (err failure, record c { refusals = later })
      | some t ↦ (ok tt, record c { tables = t; refusals = later })
    ]

unfoldable pub rollback : Conn → Conn
rollback c = record c { tables = c.committed }

-- a commit, and what stands for its success; where it is refused, everything is rolled back
unfoldable pub commit_as : {E A : Type 0} → E → A → Bool → Conn → Result E A × Conn
unfolding rollback
commit_as failure a true c = (err failure, rollback c)
commit_as failure a false c = (ok a, record c { committed = c.tables })

-- `conn.commit()` as `with conn:` calls it
unfoldable pub commit : {E A : Type 0} → E → A → Sql E A
unfolding commit_as
commit failure a c =
    commit_as failure a (next_refused c.refusals)
      (record c { refusals = later_refusals c.refusals })

-- after the block: commit what it wrote, or roll back if it raised
unfoldable pub finish_transaction : {E A : Type 0} → E → Result E A → Sql E A
unfolding rollback commit
finish_transaction failure (ok a) c = commit failure a c
finish_transaction failure (err e) c = (err e, rollback c)
finish_transaction failure (raised x) c = (raised x, rollback c)

-- `with transaction(conn) as tx:`; an `err` of the block stands for an exception raised in it
unfoldable pub transaction : {E A : Type 0} → E → Sql E A → Sql E A
unfolding finish_transaction
transaction failure block c = let (r, c') = block c in finish_transaction failure r c'

-- `run_in_transaction`: a `sqlite3.Error` of the function or of the commit becomes an `Err`
unfoldable pub to_err : {E A : Type 0} → E → Result E A × Conn → Result E A × Conn
to_err failure (ok a, c) = (ok a, c)
to_err failure (err e, c) = (err failure, c)
to_err failure (raised database_error, c) = (err failure, c)
to_err failure (raised division_by_zero, c) = (raised division_by_zero, c)
to_err failure (raised value_error, c) = (raised value_error, c)
to_err failure (raised key_error, c) = (raised key_error, c)

unfoldable pub run_in_transaction : {A : Type 0} → Sql LedgerError A → Sql LedgerError A
unfolding transaction to_err
run_in_transaction fn c =
    to_err (could_not "commit transaction") (transaction (could_not "commit transaction") fn c)

-- `conn.commit()` outside a `with` block: where it fails, it raises and the transaction stays open
unfoldable pub commit_open : {E A : Type 0} → A → Sql E A
commit_open a c =
    let later = later_refusals c.refusals in
    if next_refused c.refusals
    then (raised database_error, record c { refusals = later })
    else (ok a, record c { committed = c.tables; refusals = later })
