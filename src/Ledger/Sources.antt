-- ===== src/Ledger/Sources.antt =====
-- src/trader/ledger/source_repository.py: the imported posts and where they come from.
pub mod Ingest
use kyo_trading_tool.Prelude.{
  ℕ, ◌+◌, leb, Bool, ◌&&◌, ◌||◌, Option, none, some, List, [], ◌∷◌, snoc, find, keep, any, String,
  str_eq, if◌then◌else◌,
}
use kyo_trading_tool.Domain.Result.{Result, ok, err, raised}
use kyo_trading_tool.Domain.Models.{DateTime, Mention}
use kyo_trading_tool.Ledger.Db.{Conn, Source, Tables, Sql, LedgerError, could_not, statement}
use kyo_trading_tool.Ledger.Repository.{sort_by}
use kyo_trading_tool.Ledger.Portfolio.{upsert}

unfoldable pub upsert_source : String → String → DateTime → String → ℕ → Sql LedgerError (Unit {0})
unfolding statement upsert
upsert_source source_id name imported_at file_sha256 record_count =
    let row : Source = record {
      source_id = source_id;
      name = name;
      imported_at = imported_at;
      file_sha256 = file_sha256;
      record_count = record_count;
    } in
    statement (could_not "upsert source") (λ t.
      some (record t {
        sources = upsert (λ (s : Source). str_eq s.source_id source_id) row t.sources;
      }))

unfoldable pub get_source : Tables → String → Option Source
get_source t source_id = find (λ (s : Source). str_eq s.source_id source_id) t.sources

abbrev pub has_source : Tables → String → Bool
has_source t source_id = any (λ (s : Source). str_eq s.source_id source_id) t.sources

-- a row with the id of `m`, or with its source, external id and ticker
abbrev pub same_mention : Mention → Mention → Bool
same_mention m r =
    str_eq r.id m.id
    || (str_eq r.source_id m.source_id
        && str_eq r.external_id m.external_id
        && str_eq r.ticker m.ticker)

abbrev pub is_stored : Tables → Mention → Bool
is_stored t m = any (same_mention m) t.mentions

-- INSERT OR IGNORE INTO mentions: PRIMARY KEY id, UNIQUE (source_id, external_id, ticker) are
-- ignored; REFERENCES sources is not
unfoldable pub add_mention : Mention → Tables → Option Tables
add_mention m t =
    if is_stored t m
    then some t
    else if has_source t m.source_id
    then some (record t { mentions = snoc t.mentions m })
    else none

-- `cursor.rowcount`
unfoldable pub rows_of : Tables → Mention → ℕ
rows_of t m = if is_stored t m then 0 else 1

-- the rest of the loop, unless the statement failed
abbrev pub and_count :
    (Conn → Result LedgerError ℕ × Conn)
    → Result LedgerError (Unit {0}) × Conn
    → Result LedgerError ℕ × Conn
and_count k (ok _, c) = k c
and_count k (err e, c) = (err e, c)
and_count k (raised x, c) = (raised x, c)

-- the loop, with the rows inserted so far
unfoldable pub insert_mentions : List Mention → ℕ → Conn → Result LedgerError ℕ × Conn
insert_mentions [] inserted c = (ok inserted, c)
insert_mentions (m ∷ ms) inserted c =
    and_count (insert_mentions ms (inserted + rows_of c.tables m))
      (statement (could_not "insert mentions") (add_mention m) c)

unfoldable pub insert_mentions_many : List Mention → Sql LedgerError ℕ
insert_mentions_many mentions = insert_mentions mentions 0

unfoldable pub list_mentions : Tables → String → List Mention
unfolding sort_by
list_mentions t source_id =
    sort_by (λ (m n : Mention). leb m.posted_at n.posted_at)
      (keep (λ (m : Mention). str_eq m.source_id source_id) t.mentions)
