-- ===== src/Report/Metrics/Tallies.antt =====
-- Counting: what a counter says of a key, and what is counted in a list that was filtered.
use kyo_trading_tool.Prelude.{
  ℕ, suc, ◌+◌, ◌≡◌, refl, sym, ap, ◌∙◌, arith, Bool, true, false, ◌&&◌, Bool-cases, inl, inr, ◌↔◌,
  List, [], ◌∷◌, map, keep, count, length, if◌then◌else◌,
}
use kyo_trading_tool.Report.Metrics.{Counter, increment, tally}

pub count-ext :
    {A : Type 0} (p q : A → Bool) (xs : List A) → ((x : A) → p x ≡ q x) → count p xs ≡ count q xs
count-ext p q [] h = refl
count-ext p q (x ∷ xs) h = rw (h x) (ground (arith, count-ext p q xs h))

-- what is counted in what was kept
pub count-keep :
    {A : Type 0} (p q : A → Bool) (xs : List A) → count q (keep p xs) ≡ count (λ x. p x && q x) xs
count-keep p q [] = refl
count-keep p q (x ∷ xs) = ground (arith, count-keep p q xs)

pub length-keep : {A : Type 0} (p : A → Bool) (xs : List A) → length (keep p xs) ≡ count p xs
length-keep p [] = refl
length-keep p (x ∷ xs) = ground (arith, length-keep p xs)

pub count-map :
    {A K : Type 0} (f : A → K) (q : K → Bool) (xs : List A)
    → count q (map f xs) ≡ count (λ x. q (f x)) xs
count-map f q [] = refl
count-map f q (x ∷ xs) = ground (arith, count-map f q xs)

-- what a counter says of a key: `counter[key]`, 0 where the key was not counted
abbrev pub entry : {K : Type 0} → (K → K → Bool) → K → Counter K → ℕ
entry same q [] = 0
entry same q ((k, n) ∷ rest) = if same k q then n else entry same q rest

module _ {K : Type 0} (same : K → K → Bool)
    (same_iff : (k l : K) → (same k l ≡ true) ↔ (k ≡ l)) where
  same_true : (k l q : K) → same k l ≡ true → same k q ≡ same l q
  same_true k l q h = ap (λ (x : K). same x q) ((same_iff k l).0 h)

  same_false : (k l q : K) → same k l ≡ false → same k q ≡ true → same l q ≡ false
  same_false k l q h e = elim (Bool-cases (same l q)) [
    | inl f ↦
        let equal : k ≡ l = (same_iff k q).0 e ∙ sym ((same_iff l q).0 f) in
        cc ((same_iff k l).1 equal, h)
    | inr f ↦ f
  ]

  pub entry-increment :
      (q key : K) (c : Counter K)
      → entry same q (increment same key c) ≡ (if same key q then 1 else 0) + entry same q c
  unfolding increment
  entry-increment q key [] = ground arith
  entry-increment q key ((k, n) ∷ rest) = elim (Bool-cases (same k key)) [
    | inl e ↦ rw (e, same_true k key q e) (ground arith)
    | inr e ↦ elim (Bool-cases (same k q)) [
      | inl f ↦ rw (e, f, same_false k key q e f) (omega arith)
      | inr f ↦ rw (e, f) (entry-increment q key rest)
    ]
  ]

  pub entry-tally :
      (q : K) (ks : List K) (c : Counter K)
      → entry same q (tally same ks c) ≡ count (λ k. same k q) ks + entry same q c
  unfolding tally
  entry-tally q [] c = omega arith
  entry-tally q (k ∷ ks) c =
      ground (arith, entry-tally q ks (increment same k c), entry-increment q k c)

-- all that was counted
abbrev pub total : {K : Type 0} → Counter K → ℕ
total [] = 0
total ((_, n) ∷ rest) = n + total rest

total-increment :
    {K : Type 0} (same : K → K → Bool) (key : K) (c : Counter K)
    → total (increment same key c) ≡ total c + 1
unfolding increment
total-increment same key [] = omega arith
total-increment same key ((k, n) ∷ rest) = ground (arith, total-increment same key rest)

pub total-tally :
    {K : Type 0} (same : K → K → Bool) (ks : List K) (c : Counter K)
    → total (tally same ks c) ≡ length ks + total c
unfolding tally
total-tally same [] c = omega arith
total-tally same (k ∷ ks) c =
    omega (arith, total-tally same ks (increment same k c), total-increment same k c)

pub length-map : {A B : Type 0} (f : A → B) (xs : List A) → length (map f xs) ≡ length xs
length-map f [] = refl
length-map f (x ∷ xs) = ap suc (length-map f xs)

-- a `Counter` of what the elements of a list are mapped to says of each key how often it is met
pub entry-tally-map :
    {A K : Type 0} (same : K → K → Bool) (same_iff : (k l : K) → (same k l ≡ true) ↔ (k ≡ l))
    (q : K) (f : A → K) (xs : List A)
    → entry same q (tally same (map f xs) []) ≡ count (λ x. same (f x) q) xs
entry-tally-map same same_iff q f xs =
    omega (arith, entry-tally same same_iff q (map f xs) [], count-map f (λ k. same k q) xs)

pub total-tally-map :
    {A K : Type 0} (same : K → K → Bool) (f : A → K) (xs : List A)
    → total (tally same (map f xs) []) ≡ length xs
total-tally-map same f xs = omega (arith, total-tally same (map f xs) [], length-map f xs)
