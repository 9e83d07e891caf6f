-- ===== src/Engine/KillSwitch/State.antt =====
-- What the kill switch leaves in `engine_state`.
use text.Mathlib.TextPositions.{eq_refl}
use kyo_trading_tool.Prelude.{
  ◌≡◌, ◌∙◌, refl, ap, arith, false, none, some, List, [], ◌∷◌, String, str_eq, eq_iff,
}
use kyo_trading_tool.Domain.Result.{Result, ok, err, raised}
use kyo_trading_tool.Ledger.Db.{Conn, LedgerError, statement}
use kyo_trading_tool.Ledger.Portfolio.{
  get_state, put_state, drop_state, set_engine_state, delete_engine_state,
}
use kyo_trading_tool.Engine.KillSwitch.{
  halted_key, halted_reason_key, halted_at_key, halted_value, in_turn, set_halted, clear_halted,
}

abbrev pub Rows : Type 0
Rows = List (String × String)

-- an action that rewrites `engine_state` by `change` where it succeeds, and does not commit
abbrev pub Applied : (Rows → Rows) → Conn → Result LedgerError (Unit {0}) × Conn → Type 0
Applied change c (ok _, c') =
    (c'.tables.engine_state ≡ change c.tables.engine_state) × (c'.committed ≡ c.committed)
Applied change c (err _, c') = c'.committed ≡ c.committed
Applied change c (raised _, c') = c'.committed ≡ c.committed

set_engine_state-Applied :
    (key value : String) (c : Conn) → Applied (put_state key value) c (set_engine_state key value c)
unfolding set_engine_state statement
set_engine_state-Applied key value c = ground arith

delete_engine_state-Applied :
    (key : String) (c : Conn) → Applied (drop_state key) c (delete_engine_state key c)
unfolding delete_engine_state statement
delete_engine_state-Applied key c = ground arith

in_turn-Applied :
    (f g : Rows → Rows) (c : Conn) (x : Result LedgerError (Unit {0}) × Conn)
    (m : Conn → Result LedgerError (Unit {0}) × Conn)
    → Applied f c x
    → ((d : Conn) → Applied g d (m d))
    → Applied (λ rows. g (f rows)) c (in_turn m x)
in_turn-Applied f g c (ok _, d) m h k = of_next (m d) (k d)
  where
    of_next :
        (y : Result LedgerError (Unit {0}) × Conn)
        → Applied g d y
        → Applied (λ rows. g (f rows)) c y
    of_next (ok _, e) r = (r.0 ∙ ap g h.0, r.1 ∙ h.1)
    of_next (err _, e) r = r ∙ h.1
    of_next (raised _, e) r = r ∙ h.1
in_turn-Applied f g c (err _, d) m h k = h
in_turn-Applied f g c (raised _, d) m h k = h

abbrev pub halted_rows : String → String → Rows → Rows
halted_rows reason at rows =
    put_state halted_at_key at
      (put_state halted_reason_key reason (put_state halted_key halted_value rows))

pub set_halted-Applied :
    (reason at : String) (c : Conn) → Applied (halted_rows reason at) c (set_halted reason at c)
unfolding set_halted
set_halted-Applied reason at c =
    in_turn-Applied
      (λ rows. put_state halted_reason_key reason (put_state halted_key halted_value rows))
      (put_state halted_at_key at) c _ _
      (in_turn-Applied (put_state halted_key halted_value) (put_state halted_reason_key reason) c _
        _ (set_engine_state-Applied halted_key halted_value c)
        (set_engine_state-Applied halted_reason_key reason))
      (set_engine_state-Applied halted_at_key at)

abbrev pub cleared_rows : Rows → Rows
cleared_rows rows =
    drop_state halted_at_key (drop_state halted_reason_key (drop_state halted_key rows))

pub clear_halted-Applied : (c : Conn) → Applied cleared_rows c (clear_halted c)
unfolding clear_halted
clear_halted-Applied c =
    in_turn-Applied (λ rows. drop_state halted_reason_key (drop_state halted_key rows))
      (drop_state halted_at_key) c _ _
      (in_turn-Applied (drop_state halted_key) (drop_state halted_reason_key) c _ _
        (delete_engine_state-Applied halted_key c) (delete_engine_state-Applied halted_reason_key))
      (delete_engine_state-Applied halted_at_key)

-- reading back

pub get_state-put_state :
    (key value : String) (rows : Rows) → get_state key (put_state key value rows) ≡ some value
unfolding get_state put_state
get_state-put_state key value [] = rw (eq_refl key) refl
get_state-put_state key value ((k, v) ∷ rest) =
    ground (arith, eq_refl key, get_state-put_state key value rest)

pub get_state-put_other :
    (key other value : String) (rows : Rows)
    → str_eq other key ≡ false
    → get_state key (put_state other value rows) ≡ get_state key rows
unfolding get_state put_state
get_state-put_other key other value [] h = ground arith
get_state-put_other key other value ((k, v) ∷ rest) h =
    ground (arith, eq_iff k other, get_state-put_other key other value rest h)

pub get_state-drop_state : (key : String) (rows : Rows) → get_state key (drop_state key rows) ≡ none
unfolding get_state drop_state
get_state-drop_state key [] = refl
get_state-drop_state key ((k, v) ∷ rest) = ground (arith, get_state-drop_state key rest)

pub get_state-drop_other :
    (key other : String) (rows : Rows)
    → get_state key rows ≡ none
    → get_state key (drop_state other rows) ≡ none
unfolding get_state drop_state
get_state-drop_other key other [] h = refl
get_state-drop_other key other ((k, v) ∷ rest) h =
    ground (arith, get_state-drop_other key other rest)

pub get_state-drop_kept :
    (key other : String) (rows : Rows)
    → str_eq other key ≡ false
    → get_state key (drop_state other rows) ≡ get_state key rows
unfolding get_state drop_state
get_state-drop_kept key other [] h = refl
get_state-drop_kept key other ((k, v) ∷ rest) h =
    ground (arith, eq_iff k other, get_state-drop_kept key other rest h)
