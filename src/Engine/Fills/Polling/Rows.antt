-- ===== src/Engine/Fills/Polling/Rows.antt =====
-- Which rows of `fills` the settlement of a fill adds, and which it leaves.
use text.Mathlib.TextPositions.{eq_refl}
use kyo_trading_tool.Prelude.{
  ℕ, ◌+◌, ◌≡◌, ◌⊎◌, refl, ap, ◌∙◌, arith, inl, inr, Bool, Option, some, List, [], ◌∷◌, ◌++◌, snoc,
  keep, leb, String, str_eq,
}
use kyo_trading_tool.Domain.Result.{Result, ok, err, raised}
use kyo_trading_tool.Domain.Models.{
  Side, ExitReason, DateTime, Decision, Fill, OrderStatus, Position, Trade,
}
use kyo_trading_tool.Ledger.Db.{Tables, Conn, LedgerError, could_not, statement, or_raise}
use kyo_trading_tool.Ledger.Db.Transactions.{Ran, statement-Ran}
use kyo_trading_tool.Ledger.Repository.{
  insert_by, sort_by, add_fill, insert_fill, list_fills, update_order_status, update_orders,
  check_rowcount, has_order,
}
use kyo_trading_tool.Ledger.Portfolio.{
  put_position, upsert_position, remove_position, delete_position, add_trade, insert_trade,
}
use kyo_trading_tool.Ledger.TradeCloser.{
  PositionUpdate, open_position, closed_trade, TradeCloserError,
}
use kyo_trading_tool.Engine.Fills.{FillsError, stored, and_then, store_update, settle_fill}
use kyo_trading_tool.Engine.Fills.Polling.{total_shares, store_fill}

-- the shares that the table holds for an order
abbrev pub recorded_shares : String → Tables → ℕ
recorded_shares order_id t = total_shares (keep (λ (f : Fill). str_eq f.order_id order_id) t.fills)

total_shares-append :
    (xs ys : List Fill) → total_shares (xs ++ ys) ≡ total_shares xs + total_shares ys
unfolding total_shares
total_shares-append [] ys = omega arith
total_shares-append (x ∷ xs) ys = omega (arith, total_shares-append xs ys)

keep-append : (p : Fill → Bool) (xs ys : List Fill) → keep p (xs ++ ys) ≡ keep p xs ++ keep p ys
keep-append p [] ys = refl
keep-append p (x ∷ xs) ys = ground (arith, keep-append p xs ys)

total_shares-insert_by :
    (before : Fill → Fill → Bool) (x : Fill) (xs : List Fill)
    → total_shares (insert_by before x xs) ≡ x.qty.shares + total_shares xs
unfolding insert_by total_shares
total_shares-insert_by before x [] = refl
total_shares-insert_by before x (y ∷ ys) = ground (arith, total_shares-insert_by before x ys)

total_shares-sort_by :
    (before : Fill → Fill → Bool) (xs : List Fill)
    → total_shares (sort_by before xs) ≡ total_shares xs
unfolding sort_by total_shares
total_shares-sort_by before [] = refl
total_shares-sort_by before (x ∷ xs) =
    omega
      (arith, total_shares-insert_by before x (sort_by before xs), total_shares-sort_by before xs)

pub total_shares-list_fills :
    (order_id : String) (t : Tables)
    → total_shares (list_fills t order_id) ≡ recorded_shares order_id t
unfolding list_fills
total_shares-list_fills order_id t =
    total_shares-sort_by (λ (f g : Fill). leb f.filled_at g.filled_at)
      (keep (λ (f : Fill). str_eq f.order_id order_id) t.fills)

total_shares-one :
    (f : Fill) (fs : List Fill)
    → total_shares (keep (λ (g : Fill). str_eq g.order_id f.order_id) fs) + total_shares (f ∷ [])
      ≡ total_shares (keep (λ (g : Fill). str_eq g.order_id f.order_id) fs) + f.qty.shares
unfolding total_shares
total_shares-one f fs = omega arith

pub recorded_shares-snoc :
    (f : Fill) (fs : List Fill)
    → total_shares (keep (λ (g : Fill). str_eq g.order_id f.order_id) (snoc fs f))
      ≡ total_shares (keep (λ (g : Fill). str_eq g.order_id f.order_id) fs) + f.qty.shares
recorded_shares-snoc f fs = rw (keep-append, total_shares-append, eq_refl) (total_shares-one f fs)

-- an action that leaves the fills alone, however it ends
abbrev pub SameFills : {E A : Type 0} → Conn → Result E A × Conn → Type 0
SameFills c x = x.1.tables.fills ≡ c.tables.fills

statement-SameFills :
    {E : Type 0} (e : E) (change : Tables → Option Tables) (c : Conn)
    → ((t : Tables) → change c.tables ≡ some t → t.fills ≡ c.tables.fills)
    → SameFills c (statement e change c)
statement-SameFills {E} e change c h = of_Ran (statement e change c) (statement-Ran e change c)
  where
    of_Ran : (x : Result E (Unit {0}) × Conn) → Ran change c x → SameFills c x
    of_Ran (ok _, c') r = h c'.tables r.0
    of_Ran (err _, c') r = ap (λ (t : Tables). t.fills) r.0
    of_Ran (raised _, c') r = absurd r

upsert_position-SameFills : (p : Position) (c : Conn) → SameFills c (upsert_position p c)
unfolding upsert_position
upsert_position-SameFills p c =
    statement-SameFills _ (λ t. some (put_position p t)) c
      (λ t e. unfold put_position in ground arith)

add_trade-fills : (x : Trade) (t t' : Tables) → add_trade x t ≡ some t' → t'.fills ≡ t.fills
unfolding add_trade
add_trade-fills x t t' e = ground arith

insert_trade-SameFills : (x : Trade) (c : Conn) → SameFills c (insert_trade x c)
unfolding insert_trade
insert_trade-SameFills x c =
    statement-SameFills _ (add_trade x) c (λ t e. add_trade-fills x c.tables t e)

pub stored-SameFills :
    (c : Conn) (x : Result LedgerError (Unit {0}) × Conn) → SameFills c x → SameFills c (stored x)
stored-SameFills c (ok _, d) h = h
stored-SameFills c (err e, d) h = h
stored-SameFills c (raised e, d) h = h

and_then-SameFills :
    (c : Conn) (k : Conn → Result FillsError (Unit {0}) × Conn)
    (x : Result FillsError (Unit {0}) × Conn)
    → SameFills c x
    → ((d : Conn) → SameFills d (k d))
    → SameFills c (and_then k x)
and_then-SameFills c k (ok _, d) h f = f d ∙ h
and_then-SameFills c k (err e, d) h f = h
and_then-SameFills c k (raised e, d) h f = h

or_raise-SameFills :
    {E : Type 0} (F : Type 0) (c : Conn) (x : Result E (Unit {0}) × Conn)
    → SameFills c x
    → SameFills {E = F} c (or_raise (λ (_ : Conn). x) c)
or_raise-SameFills F c (ok _, d) h = h
or_raise-SameFills F c (err e, d) h = h
or_raise-SameFills F c (raised e, d) h = h

remove_position-fills :
    (ticker : String) (t t' : Tables)
    → some (remove_position ticker t) ≡ some t'
    → t'.fills ≡ t.fills
unfolding remove_position
remove_position-fills ticker t t' e = ground arith

delete_position-SameFills :
    (ticker : String) (c : Conn) → SameFills {E = FillsError} c (delete_position ticker c)
unfolding delete_position
delete_position-SameFills ticker c =
    or_raise-SameFills FillsError c
      (statement (could_not "delete position") (λ t. some (remove_position ticker t)) c)
      (statement-SameFills (could_not "delete position") (λ t. some (remove_position ticker t)) c
        (λ t e. remove_position-fills ticker c.tables t e))

store_update-SameFills :
    (decision : Decision) (r : Result TradeCloserError PositionUpdate) (c : Conn)
    → SameFills c (store_update decision r c)
unfolding store_update
store_update-SameFills decision (ok (open_position p)) c =
    stored-SameFills c (upsert_position p c) (upsert_position-SameFills p c)
store_update-SameFills decision (ok (closed_trade t)) c =
    and_then-SameFills c (λ d. stored (insert_trade t d)) (delete_position decision.ticker c)
      (delete_position-SameFills decision.ticker c)
      (λ d. stored-SameFills d (insert_trade t d) (insert_trade-SameFills t d))
store_update-SameFills decision (err e) c = refl
store_update-SameFills decision (raised x) c = refl

settle_fill-SameFills :
    (decision : Decision) (fill : Fill) (side : Side) (reason : Option ExitReason) (c : Conn)
    → SameFills c (settle_fill decision fill side reason c)
unfolding settle_fill
settle_fill-SameFills decision fill side reason c = store_update-SameFills decision _ c

-- Storing a fill adds its row, and no other; where it fails, its row is there or not.
abbrev pub Added : {E A : Type 0} → Fill → Conn → Result E A × Conn → Type 0
Added f c (ok _, d) = d.tables.fills ≡ snoc c.tables.fills f
Added f c (err _, d) = (d.tables.fills ≡ snoc c.tables.fills f) ⊎ (d.tables.fills ≡ c.tables.fills)
Added f c (raised _, d) =
    (d.tables.fills ≡ snoc c.tables.fills f) ⊎ (d.tables.fills ≡ c.tables.fills)

add_fill-fills : (f : Fill) (t t' : Tables) → add_fill f t ≡ some t' → t'.fills ≡ snoc t.fills f
unfolding add_fill
add_fill-fills f t t' e = ground arith

insert_fill-Added : (f : Fill) (c : Conn) → Added f c (insert_fill f c)
unfolding insert_fill
insert_fill-Added f c = of_Ran (statement _ (add_fill f) c) (statement-Ran _ (add_fill f) c)
  where
    of_Ran : (x : Result LedgerError (Unit {0}) × Conn) → Ran (add_fill f) c x → Added f c x
    of_Ran (ok _, d) r = add_fill-fills f c.tables d.tables r.0
    of_Ran (err _, d) r = inr (ap (λ (t : Tables). t.fills) r.0)
    of_Ran (raised _, d) r = absurd r

settled-Added :
    (f : Fill) (c : Conn) (k : Conn → Result FillsError (Unit {0}) × Conn)
    (x : Result LedgerError (Unit {0}) × Conn)
    → Added f c x
    → ((d : Conn) → SameFills d (k d))
    → Added f c (and_then k (stored x))
settled-Added f c k (ok _, d) h s = of_settled (k d) (s d)
  where
    of_settled : (y : Result FillsError (Unit {0}) × Conn) → SameFills d y → Added f c y
    of_settled (ok _, e) same = same ∙ h
    of_settled (err _, e) same = inl (same ∙ h)
    of_settled (raised _, e) same = inl (same ∙ h)
settled-Added f c k (err e, d) h s = h
settled-Added f c k (raised e, d) h s = h

pub store_fill-Added :
    (f : Fill) (decision : Decision) (side : Side) (reason : Option ExitReason) (c : Conn)
    → Added f c (store_fill f decision side reason c)
unfolding store_fill
store_fill-Added f decision side reason c =
    settled-Added f c (settle_fill decision f side reason) (insert_fill f c) (insert_fill-Added f c)
      (λ d. settle_fill-SameFills decision f side reason d)

check_rowcount-SameFills :
    (e : LedgerError) (found : Bool) (c : Conn) (x : Result LedgerError (Unit {0}) × Conn)
    → SameFills c x
    → SameFills c (check_rowcount e found x)
unfolding check_rowcount
check_rowcount-SameFills e found c (ok _, d) h = h
check_rowcount-SameFills e found c (err _, d) h = h
check_rowcount-SameFills e found c (raised _, d) h = h

update_orders-fills :
    (id : String) (st : OrderStatus) (l b : Option String) (at : Option DateTime) (t t' : Tables)
    → update_orders id st l b at t ≡ some t'
    → t'.fills ≡ t.fills
unfolding update_orders
update_orders-fills id st l b at t t' e = ground arith

pub update_order_status-SameFills :
    (id : String) (st : OrderStatus) (l b : Option String) (at : Option DateTime) (c : Conn)
    → SameFills c (update_order_status id st l b at c)
unfolding update_order_status
update_order_status-SameFills id st l b at c =
    check_rowcount-SameFills _ (has_order c.tables id) c
      (statement _ (update_orders id st l b at) c)
      (statement-SameFills _ (update_orders id st l b at) c
        (λ t e. update_orders-fills id st l b at c.tables t e))
