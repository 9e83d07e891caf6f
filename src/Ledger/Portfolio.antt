-- ===== src/Ledger/Portfolio.antt =====
-- src/trader/ledger/portfolio_repository.py: positions, trades, equity snapshots, the state of the
-- engine and the cycles.
use Prim.Native.Nat.{Ordering}
use Prim.Native.String.{compare}
use kyo_trading_tool.Prelude.{
  leb, ◌==◌, Bool, true, false, Option, none, some, List, [], ◌∷◌, snoc, find, keep, any, String,
  str_eq, if◌then◌else◌,
}
use kyo_trading_tool.Domain.Decimal.{Decimal}
use kyo_trading_tool.Domain.Money.{Money, ◌+$◌}
use kyo_trading_tool.Domain.Models.{DateTime, Date, Note, Position, Trade, EquitySnapshot}
use kyo_trading_tool.Ledger.Db.{
  Tables, Cycle, Sql, LedgerError, could_not, no_such, statement, or_raise,
}
use kyo_trading_tool.Ledger.Repository.{sort_by, has_decision, has_cycle, check_rowcount}

-- ON CONFLICT (key) DO UPDATE: the row with the key is replaced, or the row is added
unfoldable pub upsert {ℓ} : {A : Type ℓ} → (A → Bool) → A → List A → List A
upsert same a [] = a ∷ []
upsert same a (b ∷ bs) = if same b then a ∷ bs else b ∷ upsert same a bs

-- positions

unfoldable pub put_position : Position → Tables → Tables
unfolding upsert
put_position p t = record t { positions = upsert (λ q. str_eq q.ticker p.ticker) p t.positions }

unfoldable pub upsert_position : Position → Sql LedgerError (Unit {0})
unfolding statement put_position
upsert_position p = statement (could_not "upsert position") (λ t. some (put_position p t))

unfoldable pub get_position : Tables → String → Option Position
get_position t ticker = find (λ (q : Position). str_eq q.ticker ticker) t.positions

-- tickers in the order of their bytes
unfoldable pub ticker_before : Position → Position → Bool
ticker_before p q = elim (compare p.ticker q.ticker) [ Ordering.gt ↦ false | _ ↦ true ]

unfoldable pub list_positions : Tables → List Position
unfolding sort_by ticker_before
list_positions t = sort_by ticker_before t.positions

unfoldable pub remove_position : String → Tables → Tables
remove_position ticker t = record t {
  positions = keep (λ (q : Position). if str_eq q.ticker ticker then false else true) t.positions;
}

-- its failure is not turned into an `Err` by the source: it leaves as an exception
unfoldable pub delete_position : {E : Type 0} → String → Sql E (Unit {0})
unfolding statement remove_position
delete_position ticker =
    or_raise (statement (could_not "delete position") (λ t. some (remove_position ticker t)))

-- trades

-- INSERT INTO trades: PRIMARY KEY id, REFERENCES decisions
unfoldable pub add_trade : Trade → Tables → Option Tables
add_trade x t =
    if any (λ (y : Trade). str_eq y.id x.id) t.trades
    then none
    else if has_decision t x.entry_decision_id
    then some (record t { trades = snoc t.trades x })
    else none

unfoldable pub insert_trade : Trade → Sql LedgerError (Unit {0})
unfolding statement add_trade
insert_trade x = statement (could_not "insert trade") (add_trade x)

unfoldable pub list_trades : Tables → List Trade
unfolding sort_by
list_trades t = sort_by (λ (x y : Trade). leb x.closed_at y.closed_at) t.trades

-- equity snapshots

unfoldable pub upsert_equity_snapshot :
    Date → String → Money → Money → Money → Decimal → DateTime → Sql LedgerError (Unit {0})
unfolding statement upsert
upsert_equity_snapshot snapshot_date mode cash positions_value peak_equity drawdown_pct taken_at =
    let row : EquitySnapshot = record {
      snapshot_date = snapshot_date;
      mode = mode;
      cash = cash;
      positions_value = positions_value;
      equity = cash +$ positions_value;
      peak_equity = peak_equity;
      drawdown_pct = drawdown_pct;
      taken_at = taken_at;
    } in
    statement (could_not "upsert equity snapshot") (λ t. some (record t {
      equity_snapshots =
          upsert (λ (s : EquitySnapshot). s.snapshot_date == snapshot_date) row t.equity_snapshots;
    }))

unfoldable pub list_equity_snapshots : Tables → List EquitySnapshot
unfolding sort_by
list_equity_snapshots t =
    sort_by (λ (r s : EquitySnapshot). leb r.snapshot_date s.snapshot_date) t.equity_snapshots

-- the state of the engine

unfoldable pub get_state : String → List (String × String) → Option String
get_state key [] = none
get_state key ((k, v) ∷ rest) = if str_eq k key then some v else get_state key rest

unfoldable pub get_engine_state : Tables → String → Option String
unfolding get_state
get_engine_state t key = get_state key t.engine_state

unfoldable pub put_state : String → String → List (String × String) → List (String × String)
put_state key value [] = (key, value) ∷ []
put_state key value ((k, v) ∷ rest) =
    if str_eq k key then (key, value) ∷ rest else (k, v) ∷ put_state key value rest

unfoldable pub set_engine_state : String → String → Sql LedgerError (Unit {0})
unfolding statement put_state
set_engine_state key value =
    statement (could_not "set engine state")
      (λ t. some (record t { engine_state = put_state key value t.engine_state }))

unfoldable pub drop_state : String → List (String × String) → List (String × String)
drop_state key [] = []
drop_state key ((k, v) ∷ rest) =
    let others = drop_state key rest in if str_eq k key then others else (k, v) ∷ others

unfoldable pub delete_engine_state : String → Sql LedgerError (Unit {0})
unfolding statement drop_state
delete_engine_state key =
    statement (could_not "delete engine state")
      (λ t. some (record t { engine_state = drop_state key t.engine_state }))

-- cycles

unfoldable pub add_cycle : String → DateTime → String → Tables → Option Tables
add_cycle id started_at mode t =
    if has_cycle t id
    then none
    else some (record t {
      cycles = snoc t.cycles (record {
        id = id;
        started_at = started_at;
        finished_at = none;
        mode = mode;
        outcome = none;
        error_summary = none;
      });
    })

unfoldable pub insert_cycle : String → DateTime → String → Sql LedgerError (Unit {0})
unfolding statement add_cycle
insert_cycle id started_at mode =
    statement (could_not "insert cycle") (add_cycle id started_at mode)

unfoldable pub close_cycle : String → DateTime → String → Option Note → List Cycle → List Cycle
close_cycle id finished_at outcome error_summary [] = []
close_cycle id finished_at outcome error_summary (c ∷ cs) =
    let rest = close_cycle id finished_at outcome error_summary cs in
    if str_eq c.id id
    then record c {
      finished_at = some finished_at;
      outcome = some outcome;
      error_summary = error_summary;
    }
      ∷ rest
    else c ∷ rest

unfoldable pub finish_cycle : String → DateTime → String → Option Note → Sql LedgerError (Unit {0})
unfolding close_cycle
finish_cycle id finished_at outcome error_summary c =
    check_rowcount (no_such "cycle" id) (has_cycle c.tables id) (
      statement (could_not "finish cycle")
        (λ t.
          some (record t { cycles = close_cycle id finished_at outcome error_summary t.cycles }))
        c)
