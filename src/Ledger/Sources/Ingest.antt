-- ===== src/Ledger/Sources/Ingest.antt =====
-- Importing the same posts twice.
use text.Mathlib.TextPositions.{eq_refl}
use kyo_trading_tool.Prelude.{
  ℕ, ◌+◌, ◌≡◌, refl, sym, ap, ◌∙◌, arith, Option, none, some, Bool-cases, inl, inr, true, false,
  List, [], ◌∷◌, snoc, length, length-append, any, Bool,
}
use kyo_trading_tool.Domain.Result.{Result, ok, err, raised}
use kyo_trading_tool.Domain.Models.{Mention}
use kyo_trading_tool.Ledger.Db.{
  Conn, Tables, LedgerError, could_not, statement, next_refused, later_refusals,
}
use kyo_trading_tool.Ledger.Sources.{
  same_mention, is_stored, has_source, add_mention, rows_of, and_count, insert_mentions,
  insert_mentions_many,
}

any-snoc_kept :
    {A : Type 0} (p : A → Bool) (xs : List A) (x : A) → any p xs ≡ true → any p (snoc xs x) ≡ true
any-snoc_kept p [] x h = ground arith
any-snoc_kept p (y ∷ ys) x h = ground (arith, any-snoc_kept p ys x)

any-snoc_last :
    {A : Type 0} (p : A → Bool) (xs : List A) (x : A) → p x ≡ true → any p (snoc xs x) ≡ true
any-snoc_last p [] x h = ground arith
any-snoc_last p (y ∷ ys) x h = ground (arith, any-snoc_last p ys x)

same_mention_self : (m : Mention) → same_mention m m ≡ true
same_mention_self m = ground (arith, eq_refl m.id)

-- what was stored stays, the post is stored, and the rows are counted
abbrev Stored : Mention → Tables → Tables → Type 0
Stored m t u =
    ((n : Mention) → is_stored t n ≡ true → is_stored u n ≡ true)
    × (is_stored u m ≡ true)
    × (length u.mentions ≡ length t.mentions + rows_of t m)

abbrev StoredIf : Mention → Tables → Option Tables → Type 0
StoredIf m t none = Unit {0}
StoredIf m t (some u) = Stored m t u

add_mention-StoredIf : (m : Mention) (t : Tables) → StoredIf m t (add_mention m t)
unfolding add_mention rows_of
add_mention-StoredIf m t = elim (Bool-cases (is_stored t m)) [
  | inl e ↦ rw e (λ n h. h, e, ground arith)
  | inr e ↦ elim (Bool-cases (has_source t m.source_id)) [
    | inl h ↦
        rw (e, h)
          (
            λ n k. any-snoc_kept (same_mention n) t.mentions m k,
            any-snoc_last (same_mention m) t.mentions m (same_mention_self m),
            ground (arith, length-append t.mentions (m ∷ [])),
          )
    | inr h ↦ rw (e, h) tt
  ]
]

-- one row of the loop
abbrev Inserted : Mention → Conn → Result LedgerError (Unit {0}) × Conn → Type 0
Inserted m c (ok _, d) = Stored m c.tables d.tables
Inserted m c (err _, d) = Unit {0}
Inserted m c (raised _, d) = ⊥

statement-Inserted :
    (m : Mention) (c : Conn) (o : Option Tables)
    → StoredIf m c.tables o
    → Inserted m c (statement (could_not "insert mentions") (λ (t : Tables). o) c)
unfolding statement
statement-Inserted m c none h = elim (Bool-cases (next_refused c.refusals)) [
  | inl e ↦ rw e tt
  | inr e ↦ rw e tt
]
statement-Inserted m c (some u) h = elim (Bool-cases (next_refused c.refusals)) [
  | inl e ↦ rw e tt
  | inr e ↦ rw e h
]

abbrev AllStored : List Mention → Tables → Type 0
AllStored [] t = Unit {0}
AllStored (m ∷ ms) t = (is_stored t m ≡ true) × AllStored ms t

-- every post is stored in the end, beside what was stored before
abbrev Imported : List Mention → ℕ → Conn → Result LedgerError ℕ × Conn → Type 0
Imported ms n c (ok k, d) =
    ((m : Mention) → is_stored c.tables m ≡ true → is_stored d.tables m ≡ true)
    × AllStored ms d.tables
    × (length d.tables.mentions + n ≡ length c.tables.mentions + k)
Imported ms n c (err _, d) = Unit {0}
Imported ms n c (raised _, d) = ⊥

row-Inserted :
    (m : Mention) (c : Conn)
    → Inserted m c (statement (could_not "insert mentions") (add_mention m) c)
unfolding statement
row-Inserted m c = statement-Inserted m c (add_mention m c.tables) (add_mention-StoredIf m c.tables)

after_row :
    (m : Mention) (ms : List Mention) (n : ℕ) (c d : Conn) (x : Result LedgerError ℕ × Conn)
    → Stored m c.tables d.tables
    → Imported ms (n + rows_of c.tables m) d x
    → Imported (m ∷ ms) n c x
after_row m ms n c d (ok k, e) h i =
    (λ l g. i.0 l (h.0 l g), (i.0 m h.1, i.1), omega (arith, h.2, i.2))
after_row m ms n c d (err _, e) h i = tt
after_row m ms n c d (raised _, e) h i = i

and_count-Imported :
    (m : Mention) (ms : List Mention) (n : ℕ) (c : Conn) (x : Result LedgerError (Unit {0}) × Conn)
    → Inserted m c x
    → ((k : ℕ) (d : Conn) → Imported ms k d (insert_mentions ms k d))
    → Imported (m ∷ ms) n c (and_count (insert_mentions ms (n + rows_of c.tables m)) x)
and_count-Imported m ms n c (ok _, d) h ih =
    let k = n + rows_of c.tables m in after_row m ms n c d (insert_mentions ms k d) h (ih k d)
and_count-Imported m ms n c (err _, d) h ih = tt
and_count-Imported m ms n c (raised _, d) h ih = h

insert_mentions-Imported :
    (ms : List Mention) (n : ℕ) (c : Conn) → Imported ms n c (insert_mentions ms n c)
unfolding insert_mentions
insert_mentions-Imported [] n c = (λ m h. h, tt, refl)
insert_mentions-Imported (m ∷ ms) n c =
    and_count-Imported m ms n c (statement (could_not "insert mentions") (add_mention m) c)
      (row-Inserted m c) (insert_mentions-Imported ms)

row_stored :
    (m : Mention) (c : Conn)
    → c.refusals ≡ []
    → is_stored c.tables m ≡ true
    → (statement (could_not "insert mentions") (add_mention m) c ≡ (ok tt, c))
      × (rows_of c.tables m ≡ 0)
unfolding statement add_mention rows_of next_refused later_refusals
row_stored m c r h =
    let accepted : next_refused c.refusals ≡ false = ap next_refused r in
    let kept : later_refusals c.refusals ≡ c.refusals = ap later_refusals r ∙ sym r in
    (rw (accepted, h) (λ i. (ok tt, record c { refusals = kept i })), rw h refl)

-- where every post is stored, nothing is written
insert_stored :
    (ms : List Mention) (n : ℕ) (c : Conn)
    → c.refusals ≡ []
    → AllStored ms c.tables
    → insert_mentions ms n c ≡ (ok n, c)
unfolding insert_mentions
insert_stored [] n c r h = refl
insert_stored (m ∷ ms) n c r h =
    let (e, z) = row_stored m c r h.0 in
    ap (and_count (insert_mentions ms (n + rows_of c.tables m))) e
    ∙ ap (λ k. insert_mentions ms k c) (omega (arith, z))
    ∙ insert_stored ms n c r h.1

-- what an import has done, and what a second import of the same posts does
abbrev pub Ingested : List Mention → Conn → Result LedgerError ℕ × Conn → Type 0
Ingested ms c (ok k, d) =
    AllStored ms d.tables
    × (length d.tables.mentions ≡ length c.tables.mentions + k)
    × (d.refusals ≡ [] → insert_mentions_many ms d ≡ (ok 0, d))
Ingested ms c (err _, d) = Unit {0}
Ingested ms c (raised _, d) = ⊥

of_import :
    (ms : List Mention) (c : Conn) (x : Result LedgerError ℕ × Conn)
    → Imported ms 0 c x
    → Ingested ms c x
unfolding insert_mentions_many
of_import ms c (ok k, d) h = (h.1, omega (arith, h.2), λ r. insert_stored ms 0 d r h.1)
of_import ms c (err _, d) h = tt
of_import ms c (raised _, d) h = h

-- Where an import of posts succeeds, every post is stored, the table of mentions has grown by
-- exactly the number of rows that the call returns, and a second import of the same posts, with
-- nothing refused by the database, returns 0 and changes nothing. The import never raises.
pub insert_mentions_many-Ingested :
    (ms : List Mention) (c : Conn) → Ingested ms c (insert_mentions_many ms c)
unfolding insert_mentions_many
insert_mentions_many-Ingested ms c =
    of_import ms c (insert_mentions ms 0 c) (insert_mentions-Imported ms 0 c)
