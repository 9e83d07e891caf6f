-- ===== src/Ledger/Db/Transactions.antt =====
-- A transaction is atomic, and a statement writes only what this connection sees.
use kyo_trading_tool.Prelude.{◌≡◌, refl, arith, Bool, true, false, Option, some}
use kyo_trading_tool.Domain.Result.{Result, ok, err, raised}
use kyo_trading_tool.Ledger.Db.{
  Tables, Conn, Sql, statement, commit, rollback, finish_transaction, transaction, next_refused,
  later_refusals, commit_as,
}

-- A statement leaves the committed tables alone; where it succeeds, the change was allowed and made,
-- and where it fails the tables are as before.
abbrev pub Ran : {E A : Type 0} → (Tables → Option Tables) → Conn → Result E A × Conn → Type 0
Ran change c (ok _, c') = (change c.tables ≡ some c'.tables) × (c'.committed ≡ c.committed)
Ran change c (err _, c') = (c'.tables ≡ c.tables) × (c'.committed ≡ c.committed)
Ran change c (raised _, c') = ⊥

pub statement-Ran :
    {E : Type 0} (e : E) (change : Tables → Option Tables) (c : Conn)
    → Ran change c (statement e change c)
unfolding statement
statement-Ran e change c = ground arith

-- What a transaction has done, by how it ended: all that its block wrote is committed, or the
-- connection is back at the tables that were committed before.
abbrev pub Atomic : {E A : Type 0} → Conn → Result E A × Conn → Result E A × Conn → Type 0
Atomic c (inner, c1) (ok a, c') =
    (inner ≡ ok a) × (c'.tables ≡ c1.tables) × (c'.committed ≡ c1.tables)
Atomic c (inner, c1) (err _, c') = (c'.tables ≡ c.committed) × (c'.committed ≡ c.committed)
Atomic c (inner, c1) (raised _, c') = (c'.tables ≡ c.committed) × (c'.committed ≡ c.committed)

commit_as-Atomic :
    {E A : Type 0} (failure : E) (a : A) (refused : Bool) (c c1 c2 : Conn)
    → c2.tables ≡ c1.tables
    → c2.committed ≡ c.committed
    → Atomic c (ok a, c1) (commit_as failure a refused c2)
unfolding commit_as rollback
commit_as-Atomic failure a true c c1 c2 same h = (h, h)
commit_as-Atomic failure a false c c1 c2 same h = (refl, same, same)

finish-Atomic :
    {E A : Type 0} (failure : E) (c c1 : Conn) (r : Result E A)
    → c1.committed ≡ c.committed
    → Atomic c (r, c1) (finish_transaction failure r c1)
unfolding finish_transaction commit rollback
finish-Atomic failure c c1 (ok a) h =
    commit_as-Atomic failure a (next_refused c1.refusals) c c1
      (record c1 { refusals = later_refusals c1.refusals }) refl h
finish-Atomic failure c c1 (err e) h = (h, h)
finish-Atomic failure c c1 (raised x) h = (h, h)

-- A transaction around a block that does not commit on its own is atomic: where it succeeds, the
-- block did, and all that the block wrote is committed; else the connection is back at the tables
-- that were committed before, also for what was written before the block.
pub transaction-Atomic :
    {E A : Type 0} (failure : E) (block : Sql E A) (c : Conn)
    → (block c).1.committed ≡ c.committed
    → Atomic c (block c) (transaction failure block c)
unfolding transaction
transaction-Atomic failure block c h = finish-Atomic failure c (block c).1 (block c).0 h

-- an action that does not commit
abbrev pub KeepsCommitted : {E A : Type 0} → Sql E A → Type 0
KeepsCommitted m = (c : Conn) → (m c).1.committed ≡ c.committed

pub statement-KeepsCommitted :
    {E : Type 0} (e : E) (change : Tables → Option Tables) → KeepsCommitted (statement e change)
statement-KeepsCommitted {E} e change c = of_Ran (statement e change c) (statement-Ran e change c)
  where
    of_Ran : (x : Result E (Unit {0}) × Conn) → Ran change c x → x.1.committed ≡ c.committed
    of_Ran (ok _, c') h = h.1
    of_Ran (err _, c') h = h.1
    of_Ran (raised _, c') h = absurd h
