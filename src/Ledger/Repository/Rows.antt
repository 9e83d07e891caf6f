-- ===== src/Ledger/Repository/Rows.antt =====
-- Which rows a query finds, and which rows the statements leave.
use kyo_trading_tool.Prelude.{
  ◌≡◌, ◌∙◌, refl, sym, leb, ltb, arith, Bool, true, ◌||◌, some, List, [], ◌∷◌, ◌++◌, find, keep,
  any, String, str_eq,
}
use text.Mathlib.TextPositions.{eq_refl}
use kyo_trading_tool.Domain.Models.{DateTime, Approval}
use kyo_trading_tool.Ledger.Db.{Tables}
use kyo_trading_tool.Ledger.Repository.{insert_by, sort_by, has_approval, find_valid_approval}

module _ {ℓ} {A : Type ℓ} (p : A → Bool) where
  pub any-append : (xs ys : List A) → any p (xs ++ ys) ≡ (any p xs || any p ys)
  any-append [] ys = refl
  any-append (x ∷ xs) ys = ground (arith, any-append xs ys)

  -- what is found passes the test, and a further test that it passes is passed by some element
  pub find-any :
      (q : A → Bool) (xs : List A) (a : A) → find p xs ≡ some a → q a ≡ true → any q xs ≡ true
  find-any q [] a h k = ground arith
  find-any q (x ∷ xs) a h k = ground (arith, find-any q xs a)

  pub find-passes : (xs : List A) (a : A) → find p xs ≡ some a → p a ≡ true
  find-passes [] a h = ground arith
  find-passes (x ∷ xs) a h = ground (arith, find-passes xs a)

  pub any-keep : (q : A → Bool) (xs : List A) → any q (keep p xs) ≡ true → any q xs ≡ true
  any-keep q [] h = h
  any-keep q (x ∷ xs) h = ground (arith, any-keep q xs)

module _ {ℓ} {A : Type ℓ} (q : A → Bool) (before : A → A → Bool) where
  pub any-insert_by : (a : A) (xs : List A) → any q (insert_by before a xs) ≡ (q a || any q xs)
  unfolding insert_by
  any-insert_by a [] = ground arith
  any-insert_by a (x ∷ xs) = ground (arith, any-insert_by a xs)

  pub any-sort_by : (xs : List A) → any q (sort_by before xs) ≡ any q xs
  unfolding sort_by
  any-sort_by [] = refl
  any-sort_by (x ∷ xs) = ground (arith, any-insert_by x (sort_by before xs), any-sort_by xs)

-- An approval that is found valid is a row of the table.
pub find_valid_approval-has_approval :
    (t : Tables) (decision_id : String) (now : DateTime) (a : Approval)
    → find_valid_approval t decision_id now ≡ some a
    → has_approval t a.id ≡ true
unfolding find_valid_approval
find_valid_approval-has_approval t decision_id now a h =
    let rows = keep (λ (b : Approval). str_eq b.decision_id decision_id) t.approvals in
    let newest = λ (b c : Approval). leb c.approved_at b.approved_at in
    let same = λ (b : Approval). str_eq b.id a.id in
    let found =
      find-any (λ b. ltb now b.expires_at) same (sort_by newest rows) a h (eq_refl a.id) in
    any-keep (λ (b : Approval). str_eq b.decision_id decision_id) same t.approvals
      (sym (any-sort_by same newest rows) ∙ found)
