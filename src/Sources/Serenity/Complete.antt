-- ===== src/Sources/Serenity/Complete.antt =====
-- A file of posts leaves nothing out: every post that names a listed ticker is mentioned under it.
use kyo_trading_tool.Prelude.{
  ◌≡◌, refl, sym, ◌∙◌, arith, Bool-cases, inl, inr, Bool, true, not, ◌&&◌, ◌||◌, List, [], ◌∷◌,
  ◌++◌ as append, snoc, map, any, contains, String, str_eq, eq_iff,
}
use kyo_trading_tool.Domain.Models.{Mention}
use kyo_trading_tool.Sources.Serenity.{
  Tweet, TweetRecord, untyped, typed, Python, keep_new, extract_tickers, mention_of,
  tweet_to_mentions, all_mentions,
}

contains-snoc_last :
    (t u : String) (ts : List String) → str_eq t u ≡ true → contains t (snoc ts u) ≡ true
contains-snoc_last t u [] h = ground (arith, h)
contains-snoc_last t u (v ∷ ts) h = ground (arith, h, contains-snoc_last t u ts h)

contains-snoc_more :
    (t u : String) (ts : List String) → contains t ts ≡ true → contains t (snoc ts u) ≡ true
contains-snoc_more t u (v ∷ ts) h = ground (arith, h, contains-snoc_more t u ts)
contains-snoc_more t u [] h = absurd (ground (arith, h))

any-append :
    {A : Type 0} (p : A → Bool) (xs ys : List A) → any p (append xs ys) ≡ (any p xs || any p ys)
any-append p [] ys = refl
any-append p (x ∷ xs) ys = ground (arith, any-append p xs ys)

-- the posts of the records
abbrev pub posts : List TweetRecord → List Tweet
posts [] = []
posts (untyped fields ∷ rs) = posts rs
posts (typed tweet ∷ rs) = tweet ∷ posts rs

module _ (python : Python) (whitelist : List String) where
  -- what was seen stays
  keep_new-seen :
      (t : String) (ts seen : List String)
      → contains t seen ≡ true
      → contains t (keep_new python whitelist ts seen) ≡ true
  unfolding keep_new
  keep_new-seen t [] seen h = h
  keep_new-seen t (u ∷ ts) seen h =
      keep_new-seen t ts _ (elim (Bool-cases (contains u whitelist && not (contains u seen))) [
        | inl e ↦ rw e (contains-snoc_more t u seen h)
        | inr e ↦ rw e h
      ])

  keep_new-found :
      (t : String) (ts seen : List String)
      → contains t ts ≡ true
      → contains t whitelist ≡ true
      → contains t (keep_new python whitelist ts seen) ≡ true
  unfolding keep_new
  keep_new-found t [] seen h w = absurd (ground (arith, h))
  keep_new-found t (u ∷ ts) seen h w = elim (Bool-cases (str_eq t u)) [
    | inl e ↦
        let same : t ≡ u = (eq_iff t u).0 e in
        keep_new-seen t ts _ (elim (Bool-cases (contains t seen)) [
          | inl f ↦ rw (sym same, w, f) f
          | inr f ↦ rw (sym same, w, f) (contains-snoc_last t t seen ((eq_iff t t).1 refl))
        ])
    | inr e ↦ keep_new-found t ts _ (ground (arith, h, e)) w
  ]

  -- a mention of the post under the ticker
  abbrev pub mentions : String → String → List Mention → Bool
  mentions id ticker = any (λ (m : Mention). str_eq m.external_id id && str_eq ticker m.ticker)

  map-mentions :
      (tweet : Tweet) (t : String) (ts : List String)
      → contains t ts ≡ true
      → mentions tweet.id t (map (mention_of python tweet) ts) ≡ true
  unfolding mention_of
  map-mentions tweet t [] h = absurd (ground (arith, h))
  map-mentions tweet t (u ∷ ts) h =
      ground (arith, h, (eq_iff tweet.id tweet.id).1 refl, map-mentions tweet t ts)

  -- every post is mentioned under every listed ticker that its text names
  abbrev pub AllMentioned : List TweetRecord → List Mention → Type 0
  AllMentioned [] ms = Unit {0}
  AllMentioned (untyped fields ∷ rs) ms = AllMentioned rs ms
  AllMentioned (typed tweet ∷ rs) ms =
      ((t : String)
        → contains t (python.ticker_mentions tweet.text) ≡ true
        → contains t whitelist ≡ true
        → mentions tweet.id t ms ≡ true)
      × AllMentioned rs ms

  AllMentioned-append :
      (rs : List TweetRecord) (ms ns : List Mention)
      → AllMentioned rs ns
      → AllMentioned rs (append ms ns)
  AllMentioned-append [] ms ns h = tt
  AllMentioned-append (untyped fields ∷ rs) ms ns h = AllMentioned-append rs ms ns h
  AllMentioned-append (typed tweet ∷ rs) ms ns (h, k) = (
    λ t named listed. any-append _ ms ns ∙ ground (arith, h t named listed),
    AllMentioned-append rs ms ns k,
  )

  pub all_mentions-AllMentioned :
      (rs : List TweetRecord) → AllMentioned rs (all_mentions python (posts rs) whitelist)
  unfolding all_mentions tweet_to_mentions extract_tickers
  all_mentions-AllMentioned [] = tt
  all_mentions-AllMentioned (untyped fields ∷ rs) = all_mentions-AllMentioned rs
  all_mentions-AllMentioned (typed tweet ∷ rs) =
      let first = tweet_to_mentions python tweet whitelist in
      let others = all_mentions python (posts rs) whitelist in
      (
        λ t named listed.
            any-append _ first others
            ∙ ground (
              arith,
              map-mentions tweet t (extract_tickers python tweet.text whitelist)
                  (keep_new-found t (python.ticker_mentions tweet.text) [] named listed),
            ),
        AllMentioned-append rs first others (all_mentions-AllMentioned rs),
      )
