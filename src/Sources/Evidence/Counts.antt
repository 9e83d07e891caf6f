-- ===== src/Sources/Evidence/Counts.antt =====
-- What the history of a ticker counts.
use kyo_trading_tool.Prelude.{
  ℕ, suc, ◌+◌, ◌≤◌, ◌≡◌, refl, ap, ◌∙◌, arith, Bool-cases, inl, inr, Bool, List, [], ◌∷◌, map, take,
  count, length, length-take, length-append, str_eq,
}
use kyo_trading_tool.Domain.Models.{DateTime, Mention, Evidence}
use kyo_trading_tool.Ledger.Repository.{insert_by, sort_by}
use kyo_trading_tool.Sources.Evidence.{
  max_excerpts, Group, members, add_to_group, group_mentions, group_before, oldest_first,
  newest_first, is_recent, is_prior, evidence_of, build_evidence,
}

length-insert_by :
    {A : Type 0} (before : A → A → Bool) (a : A) (xs : List A)
    → length (insert_by before a xs) ≡ suc (length xs)
unfolding insert_by
length-insert_by before a [] = refl
length-insert_by before a (x ∷ xs) = ground (arith, length-insert_by before a xs)

length-sort_by :
    {A : Type 0} (before : A → A → Bool) (xs : List A) → length (sort_by before xs) ≡ length xs
unfolding sort_by
length-sort_by before [] = refl
length-sort_by before (x ∷ xs) =
    length-insert_by before x (sort_by before xs) ∙ ap suc (length-sort_by before xs)

-- a measure of the elements, added up
abbrev pub total : {A : Type 0} → (A → ℕ) → List A → ℕ
total f [] = 0
total f (x ∷ xs) = f x + total f xs

total-insert_by :
    {A : Type 0} (f : A → ℕ) (before : A → A → Bool) (a : A) (xs : List A)
    → total f (insert_by before a xs) ≡ f a + total f xs
unfolding insert_by
total-insert_by f before a [] = refl
total-insert_by f before a (x ∷ xs) = ground (arith, total-insert_by f before a xs)

total-sort_by :
    {A : Type 0} (f : A → ℕ) (before : A → A → Bool) (xs : List A)
    → total f (sort_by before xs) ≡ total f xs
unfolding sort_by
total-sort_by f before [] = refl
total-sort_by f before (x ∷ xs) =
    omega (arith, total-insert_by f before x (sort_by before xs), total-sort_by f before xs)

total-map :
    {A B : Type 0} (f : B → ℕ) (g : A → B) (xs : List A)
    → total f (map g xs) ≡ total (λ x. f (g x)) xs
total-map f g [] = refl
total-map f g (x ∷ xs) = ap (λ n. f (g x) + n) (total-map f g xs)

abbrev size : Group → ℕ
size g = length (members g)

total-add_to_group :
    (m : Mention) (gs : List Group) → total size (add_to_group m gs) ≡ total size gs + 1
unfolding add_to_group
total-add_to_group m [] = omega arith
total-add_to_group m (g ∷ gs) = elim (Bool-cases (str_eq g.ticker m.ticker)) [
  | inl e ↦ rw e (omega (arith, length-append g.later (m ∷ [])))
  | inr e ↦ rw e (omega (arith, total-add_to_group m gs))
]

total-group_mentions :
    (ms : List Mention) (gs : List Group)
    → total size (group_mentions ms gs) ≡ length ms + total size gs
unfolding group_mentions
total-group_mentions [] gs = omega arith
total-group_mentions (m ∷ ms) gs =
    omega (arith, total-group_mentions ms (add_to_group m gs), total-add_to_group m gs)

abbrev pub mention_count : Evidence → ℕ
mention_count e = e.stats.mention_count

mention_count-evidence_of :
    (now : DateTime) (w : ℕ) (gs : List Group)
    → total (λ g. mention_count (evidence_of now w g)) gs ≡ total size gs
unfolding evidence_of oldest_first
mention_count-evidence_of now w [] = refl
mention_count-evidence_of now w (g ∷ gs) =
    omega (arith, length-sort_by _ (members g), mention_count-evidence_of now w gs)

-- the windows do not overlap
windows :
    (now : DateTime) (w : ℕ) (ms : List Mention)
    → count (is_recent now w) ms + count (is_prior now w) ms ≤ length ms
windows now w [] = omega arith
windows now w (m ∷ ms) = ground (arith, windows now w ms)

-- the counts, the excerpts and the ids of one ticker
abbrev pub Sound : Evidence → Type 0
Sound e =
    (e.stats.mention_count_last_14d + e.stats.mention_count_prior_14d ≤ e.stats.mention_count)
    × (1 ≤ e.stats.mention_count)
    × (length e.excerpts ≤ max_excerpts)
    × (length e.mention_ids ≡ e.stats.mention_count)
    × (e.stats.ticker ≡ e.ticker)

abbrev pub AllSound : List Evidence → Type 0
AllSound [] = Unit {0}
AllSound (e ∷ es) = Sound e × AllSound es

length-map : {A B : Type 0} (f : A → B) (xs : List A) → length (map f xs) ≡ length xs
length-map f [] = refl
length-map f (x ∷ xs) = ap suc (length-map f xs)

evidence_of-Sound : (now : DateTime) (w : ℕ) (g : Group) → Sound (evidence_of now w g)
unfolding evidence_of oldest_first
evidence_of-Sound now w g = (
  windows now w (oldest_first (members g)),
  omega (arith, length-sort_by _ (members g)),
  omega (
    arith,
    length-map (λ (m : Mention). m.text_excerpt)
        (take max_excerpts (newest_first (oldest_first (members g)))),
    length-take max_excerpts (newest_first (oldest_first (members g))),
  ),
  length-map (λ (m : Mention). m.id) (oldest_first (members g)),
  refl,
)

evidences-AllSound :
    (now : DateTime) (w : ℕ) (gs : List Group) → AllSound (map (evidence_of now w) gs)
evidences-AllSound now w [] = tt
evidences-AllSound now w (g ∷ gs) = (evidence_of-Sound now w g, evidences-AllSound now w gs)

-- The evidence counts every mention exactly once: the mention counts of all tickers add up to the
-- number of the mentions. For each ticker the mentions of the last window and those of the window
-- before are no more than all its mentions, of which there is at least one; there is one id for
-- each mention, and there are three excerpts at most.
pub build_evidence-counts :
    (mentions : List Mention) (now : DateTime) (window_days : ℕ)
    → (total mention_count (build_evidence mentions now window_days) ≡ length mentions)
      × AllSound (build_evidence mentions now window_days)
unfolding build_evidence
build_evidence-counts mentions now window_days =
    let groups = group_mentions mentions [] in
    let sorted = sort_by group_before groups in
    (
      total-map mention_count (evidence_of now window_days) sorted
          ∙ mention_count-evidence_of now window_days sorted
          ∙ total-sort_by size group_before groups
          ∙ omega (arith, total-group_mentions mentions []),
      evidences-AllSound now window_days sorted,
    )
