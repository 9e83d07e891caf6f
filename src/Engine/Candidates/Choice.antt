-- ===== src/Engine/Candidates/Choice.antt =====
-- Which tickers are considered: the most discussed of those that may be bought, and twenty at most.
use mathlib.Core.List.{Perm, perm_middle}
use mathlib.Core.List.Perm
use kyo_trading_tool.Prelude.{
  ℕ, zero, suc, ◌≤◌, ◌<◌, ◌≡◌, ◌⊎◌, ◌↔◌, inl, inr, refl, ap, arith, Bool-cases, Bool, true, false,
  List, [], ◌∷◌, ◌++◌ as append, map, take, drop, keep, length, contains, String, not,
}
use kyo_trading_tool.Domain.Models.{Evidence}
use kyo_trading_tool.Ledger.Repository.{insert_by, sort_by}
use kyo_trading_tool.Engine.Candidates.{
  max_candidates, is_eligible, ranked_before, select_candidates,
}

abbrev pub recent : Evidence → ℕ
recent e = e.stats.mention_count_last_14d

-- no evidence of the list has more recent mentions
abbrev pub AllAtMost : ℕ → List Evidence → Type 0
AllAtMost k [] = Unit {0}
AllAtMost k (x ∷ xs) = (recent x ≤ k) × AllAtMost k xs

-- none has more recent mentions than one before it
abbrev pub Descending : List Evidence → Type 0
Descending [] = Unit {0}
Descending (x ∷ xs) = AllAtMost (recent x) xs × Descending xs

AllAtMost-le : (k l : ℕ) (xs : List Evidence) → k ≤ l → AllAtMost k xs → AllAtMost l xs
AllAtMost-le k l [] h a = tt
AllAtMost-le k l (x ∷ xs) h (a, b) = (omega (arith, h, a), AllAtMost-le k l xs h b)

ranked_before-true : (e f : Evidence) → ranked_before e f ≡ true → recent f ≤ recent e
unfolding ranked_before
ranked_before-true e f h = ground arith

ranked_before-false : (e f : Evidence) → ranked_before e f ≡ false → recent e ≤ recent f
unfolding ranked_before
ranked_before-false e f h = ground arith

insert_by-AllAtMost :
    (k : ℕ) (e : Evidence) (xs : List Evidence)
    → recent e ≤ k
    → AllAtMost k xs
    → AllAtMost k (insert_by ranked_before e xs)
unfolding insert_by
insert_by-AllAtMost k e [] h a = (h, tt)
insert_by-AllAtMost k e (x ∷ xs) h (a, b) = elim (Bool-cases (ranked_before e x)) [
  | inl p ↦ rw p (h, (a, b))
  | inr p ↦ rw p (a, insert_by-AllAtMost k e xs h b)
]

insert_by-Descending :
    (e : Evidence) (xs : List Evidence) → Descending xs → Descending (insert_by ranked_before e xs)
unfolding insert_by
insert_by-Descending e [] d = (tt, tt)
insert_by-Descending e (x ∷ xs) (a, d) = elim (Bool-cases (ranked_before e x)) [
  | inl p ↦
      let le = ranked_before-true e x p in
      rw p ((le, AllAtMost-le (recent x) (recent e) xs le a), (a, d))
  | inr p ↦ rw p (
    insert_by-AllAtMost (recent x) e xs (ranked_before-false e x p) a,
    insert_by-Descending e xs d,
  )
]

sort_by-Descending : (xs : List Evidence) → Descending (sort_by ranked_before xs)
unfolding sort_by
sort_by-Descending [] = tt
sort_by-Descending (x ∷ xs) =
    insert_by-Descending x (sort_by ranked_before xs) (sort_by-Descending xs)

insert_by-Perm :
    (before : Evidence → Evidence → Bool) (e : Evidence) (xs : List Evidence)
    → Perm (insert_by before e xs) (e ∷ xs)
unfolding insert_by
insert_by-Perm before e [] = Perm.rfl
insert_by-Perm before e (x ∷ xs) = elim (Bool-cases (before e x)) [
  | inl p ↦ rw p Perm.rfl
  | inr p ↦ rw p (Perm.trans (Perm.cons x (insert_by-Perm before e xs)) (Perm.swap e x xs))
]

sort_by-Perm :
    (before : Evidence → Evidence → Bool) (xs : List Evidence) → Perm (sort_by before xs) xs
unfolding sort_by
sort_by-Perm before [] = Perm.rfl
sort_by-Perm before (x ∷ xs) =
    Perm.trans (insert_by-Perm before x (sort_by before xs)) (Perm.cons x (sort_by-Perm before xs))

-- what passes a test and what does not make up the list
keep-Perm :
    (p : Evidence → Bool) (xs : List Evidence)
    → Perm (append (keep p xs) (keep (λ e. not (p e)) xs)) xs
keep-Perm p [] = Perm.rfl
keep-Perm p (x ∷ xs) = elim (Bool-cases (p x)) [
  | inl t ↦ rw t (Perm.cons x (keep-Perm p xs))
  | inr t ↦ rw t (Perm.trans (perm_middle (keep p xs) _) (Perm.cons x (keep-Perm p xs)))
]

take-drop : (n : ℕ) (xs : List Evidence) → append (take n xs) (drop n xs) ≡ xs
take-drop zero xs = refl
take-drop (suc n) [] = refl
take-drop (suc n) (x ∷ xs) = ap (λ (ys : List Evidence). x ∷ ys) (take-drop n xs)

-- a list is cut at `n`, or it is not that long and nothing is cut off
take-full :
    (n : ℕ) (xs : List Evidence)
    → (length (take n xs) ≡ n) ⊎ ((length (take n xs) < n) × (drop n xs ≡ []))
take-full zero xs = inl refl
take-full (suc n) [] = inr (omega arith, refl)
take-full (suc n) (x ∷ xs) = elim (take-full n xs) [
  | inl e ↦ inl (omega (arith, e))
  | inr h ↦ inr (omega (arith, h.0), h.1)
]

-- discussed lately, not held and not excluded
abbrev pub Eligible : List String → List String → Evidence → Type 0
Eligible held excluded e =
    (0 < e.stats.mention_count_last_14d)
    × (contains e.ticker held ≡ false)
    × (contains e.ticker excluded ≡ false)

abbrev pub AllEligible : List String → List String → List Evidence → Type 0
AllEligible held excluded [] = Unit {0}
AllEligible held excluded (e ∷ es) = Eligible held excluded e × AllEligible held excluded es

is_eligible-Eligible :
    (held excluded : List String) (e : Evidence)
    → (is_eligible held excluded e ≡ true) ↔ Eligible held excluded e
is_eligible-Eligible held excluded e = ground arith

keep-AllEligible :
    (held excluded : List String) (es : List Evidence)
    → AllEligible held excluded (keep (is_eligible held excluded) es)
keep-AllEligible held excluded [] = tt
keep-AllEligible held excluded (e ∷ es) = elim (Bool-cases (is_eligible held excluded e)) [
  | inl t ↦ rw t ((is_eligible-Eligible held excluded e).0 t, keep-AllEligible held excluded es)
  | inr t ↦ rw t (keep-AllEligible held excluded es)
]

insert_by-AllEligible :
    (held excluded : List String) (e : Evidence) (es : List Evidence)
    → Eligible held excluded e
    → AllEligible held excluded es
    → AllEligible held excluded (insert_by ranked_before e es)
unfolding insert_by
insert_by-AllEligible held excluded e [] h a = (h, tt)
insert_by-AllEligible held excluded e (x ∷ xs) h (a, b) = elim (Bool-cases (ranked_before e x)) [
  | inl p ↦ rw p (h, (a, b))
  | inr p ↦ rw p (a, insert_by-AllEligible held excluded e xs h b)
]

sort_by-AllEligible :
    (held excluded : List String) (es : List Evidence)
    → AllEligible held excluded es
    → AllEligible held excluded (sort_by ranked_before es)
unfolding sort_by
sort_by-AllEligible held excluded [] h = tt
sort_by-AllEligible held excluded (e ∷ es) (h, k) =
    insert_by-AllEligible held excluded e (sort_by ranked_before es) h
      (sort_by-AllEligible held excluded es k)

abbrev pub NoneEligible : List String → List String → List Evidence → Type 0
NoneEligible held excluded [] = Unit {0}
NoneEligible held excluded (e ∷ es) = (¬ (Eligible held excluded e)) × NoneEligible held excluded es

keep-NoneEligible :
    (held excluded : List String) (es : List Evidence)
    → NoneEligible held excluded (keep (λ e. not (is_eligible held excluded e)) es)
keep-NoneEligible held excluded [] = tt
keep-NoneEligible held excluded (e ∷ es) = elim (Bool-cases (is_eligible held excluded e)) [
  | inl t ↦ rw t (keep-NoneEligible held excluded es)
  | inr t ↦ rw t (
    λ (h : Eligible held excluded e). cc ((is_eligible-Eligible held excluded e).1 h, t),
    keep-NoneEligible held excluded es,
  )
]

-- The evidences are those of the tickers, in descending order of their recent mentions, then the
-- other eligible ones, in the same order, and the ones that are not eligible. The tickers are 20,
-- or fewer where no eligible one is left.
pub record MostDiscussed (evidences : List Evidence) (held excluded tickers : List String)
    : Type 0 where
  pub chosen : List Evidence
  pub rest : List Evidence
  pub others : List Evidence
  pub tickers_of : tickers ≡ map (λ (e : Evidence). e.ticker) chosen
  pub partition : Perm (append (append chosen rest) others) evidences
  pub eligible : AllEligible held excluded (append chosen rest)
  pub not_eligible : NoneEligible held excluded others
  pub ranked : Descending (append chosen rest)
  pub full : (length chosen ≡ 20) ⊎ ((length chosen < 20) × (rest ≡ []))

-- The evidences fall into the chosen ones, those left over and those that are not eligible, each of
-- them as often as it is given; eligible means a recent mention, neither held nor excluded. The
-- selected tickers are those of the chosen ones, in their order. The chosen and then the left over
-- are in descending order of recent mentions, so the cap keeps the most discussed; and exactly 20
-- are chosen, or fewer and then none is left over.
pub select_candidates-MostDiscussed :
    (evidences : List Evidence) (held excluded : List String)
    → MostDiscussed evidences held excluded (select_candidates evidences held excluded)
unfolding select_candidates
select_candidates-MostDiscussed evidences held excluded =
    let passes = is_eligible held excluded in
    let eligible = keep passes evidences in
    let ranked = sort_by ranked_before eligible in
    let whole = take-drop max_candidates ranked in
    record {
      chosen = take max_candidates ranked;
      rest = drop max_candidates ranked;
      others = keep (λ e. not (passes e)) evidences;
      tickers_of = refl;
      partition = rw whole (
          Perm.trans (Perm.append_right _ (sort_by-Perm ranked_before eligible))
            (keep-Perm passes evidences));
      eligible =
          rw whole
            (sort_by-AllEligible held excluded eligible (keep-AllEligible held excluded evidences));
      not_eligible = keep-NoneEligible held excluded evidences;
      ranked = rw whole (sort_by-Descending eligible);
      full = take-full max_candidates ranked;
    }
