-- ===== src/Sources/Serenity/Loading.antt =====
-- A file of posts is loaded as a whole or not at all.
use mathlib.Core.List.{append-nil, append_assoc}
use kyo_trading_tool.Prelude.{
  ℕ, zero, suc, ◌+◌, ◌≤◌, ◌≡◌, refl, sym, subst, ap, ◌∙◌, if◌then◌else◌, arith, Bool-cases, inl,
  inr, Bool, true, false, not, ◌&&◌, ◌||◌, List, [], ◌∷◌, ◌++◌ as append, snoc, count, length,
  length-take, String,
}
use kyo_trading_tool.Domain.Result.{Result, ok, err, raised, ◌>>=◌}
use kyo_trading_tool.Domain.Models.{Mention}
use kyo_trading_tool.Sources.Adapter.{IngestError}
use kyo_trading_tool.Sources.Serenity.{
  max_first_errors, Tweet, TweetRecord, untyped, typed, TweetsFile, missing, not_json, no_tweets,
  no_array, crashes, records, StatsFile, no_stats, stats_crash, stats, Python, is_missing,
  read_tweets, tweet_errors, Validated, gather, validate_record, validate_records, or_errors,
  nothing_yet, validate_all, parse_ticker_whitelist, read_whitelist, all_mentions, load,
}
use kyo_trading_tool.Sources.Serenity.Complete.{posts, AllMentioned, all_mentions-AllMentioned}
use kyo_trading_tool.Sources.Serenity.Listed.{AllFrom, all_mentions-AllFrom}

-- an error that counts no record
abbrev pub Refused : Result IngestError (List Mention) → Type 0
Refused (ok ms) = ⊥
Refused (err e) = e.invalid_count ≡ 0
Refused (raised x) = ⊥

module _ (python : Python) where
  -- a record that is at fault: by its types, its id, or for want of a time
  abbrev pub is_invalid : TweetRecord → Bool
  is_invalid (untyped fields) = true
  is_invalid (typed tweet) =
      not (python.is_numeric tweet.id)
      || (is_missing tweet.created_at && is_missing tweet.timestamp)

  gather-invalid :
      (tweet : Tweet) (index : ℕ) (acc : Validated python)
      → (gather python tweet index (tweet_errors python tweet) acc).invalid
        ≡ acc.invalid + (if is_invalid (typed tweet) then 1 else 0)
  unfolding tweet_errors
  gather-invalid tweet index acc = elim (Bool-cases (python.is_numeric tweet.id)) [
    | inl e ↦ elim (Bool-cases (is_missing tweet.created_at && is_missing tweet.timestamp)) [
      | inl f ↦ rw (e, f) (omega arith)
      | inr f ↦ rw (e, f) (omega arith)
    ]
    | inr e ↦ rw e (omega arith)
  ]

  validate_records-counts :
      (index : ℕ) (rs : List TweetRecord) (acc : Validated python)
      → (validate_records python index rs acc).invalid ≡ acc.invalid + count is_invalid rs
  unfolding validate_records validate_record
  validate_records-counts index [] acc = omega arith
  validate_records-counts index (untyped fields ∷ rs) acc = omega (
    arith,
    validate_records-counts (index + 1) rs (validate_record python index (untyped fields) acc),
  )
  validate_records-counts index (typed tweet ∷ rs) acc =
      let new = gather python tweet index (tweet_errors python tweet) acc in
      ground (arith, validate_records-counts (index + 1) rs new, gather-invalid tweet index acc)

  gather-tweets :
      (tweet : Tweet) (index : ℕ) (acc : Validated python)
      → is_invalid (typed tweet) ≡ false
      → (gather python tweet index (tweet_errors python tweet) acc).tweets ≡ snoc acc.tweets tweet
  unfolding tweet_errors
  gather-tweets tweet index acc h = elim (Bool-cases (python.is_numeric tweet.id)) [
    | inl e ↦ elim (Bool-cases (is_missing tweet.created_at && is_missing tweet.timestamp)) [
      | inl f ↦ absurd (ground (arith, e, f, h))
      | inr f ↦ rw (e, f) refl
    ]
    | inr e ↦ absurd (ground (arith, e, h))
  ]

  -- valid records are taken over in their order
  validate_records-posts :
      (index : ℕ) (rs : List TweetRecord) (acc : Validated python)
      → count is_invalid rs ≡ 0
      → (validate_records python index rs acc).tweets ≡ append acc.tweets (posts rs)
  unfolding validate_records validate_record
  validate_records-posts index [] acc h = sym (append-nil acc.tweets)
  validate_records-posts index (untyped fields ∷ rs) acc h = absurd (omega (arith, h))
  validate_records-posts index (typed tweet ∷ rs) acc h =
      let valid : is_invalid (typed tweet) ≡ false = ground (arith, h) in
      let rest : count is_invalid rs ≡ 0 = ground (arith, h) in
      let new = gather python tweet index (tweet_errors python tweet) acc in
      validate_records-posts (index + 1) rs new rest
      ∙ ap (λ (ts : List Tweet). append ts (posts rs)) (gather-tweets tweet index acc valid)
      ∙ append_assoc acc.tweets (tweet ∷ []) (posts rs)

  -- all records are tweets, or the invalid ones are counted, with five errors at most
  abbrev pub Validates : List TweetRecord → Result IngestError (List Tweet) → Type 0
  Validates rs (ok tweets) = (count is_invalid rs ≡ 0) × (tweets ≡ posts rs)
  Validates rs (err e) =
      (1 ≤ count is_invalid rs)
      × (e.invalid_count ≡ count is_invalid rs)
      × (length e.first_errors ≤ max_first_errors)
  Validates rs (raised _) = ⊥

  or_errors-Validates :
      (rs : List TweetRecord) (acc : Validated python) (n : ℕ)
      → n ≡ count is_invalid rs
      → (count is_invalid rs ≡ 0 → acc.tweets ≡ posts rs)
      → Validates rs (or_errors python acc n)
  unfolding or_errors
  or_errors-Validates rs acc zero e h = (sym e, h (sym e))
  or_errors-Validates rs acc (suc n) e h =
      (omega (arith, e), e, length-take max_first_errors acc.errors)

  validate_all-Validates : (rs : List TweetRecord) → Validates rs (validate_all python rs)
  unfolding validate_all
  validate_all-Validates rs =
      let acc = validate_records python 0 rs (nothing_yet python) in
      let invalid = validate_records-counts 0 rs (nothing_yet python) in
      or_errors-Validates rs acc acc.invalid (omega (arith, invalid))
        (validate_records-posts 0 rs (nothing_yet python))

  -- what `load` returns for the two files
  abbrev pub Loaded : TweetsFile × StatsFile → Result IngestError (List Mention) → Type 0
  Loaded (records rs, stats text) (ok ms) =
      (count is_invalid rs ≡ 0)
      × AllFrom (parse_ticker_whitelist python text) ms
      × AllMentioned python (parse_ticker_whitelist python text) rs ms
  Loaded (records rs, stats text) (err e) =
      (1 ≤ count is_invalid rs)
      × (e.invalid_count ≡ count is_invalid rs)
      × (length e.first_errors ≤ max_first_errors)
  Loaded (records rs, stats text) (raised x) = ⊥
  Loaded (records rs, stats_crash y) r = r ≡ raised y
  Loaded (crashes y, file) r = r ≡ raised y
  Loaded (records rs, no_stats) r = Refused r
  Loaded (missing, file) r = Refused r
  Loaded (not_json, file) r = Refused r
  Loaded (no_tweets, file) r = Refused r
  Loaded (no_array, file) r = Refused r

  of_validated :
      (rs : List TweetRecord) (text : String) (x : Result IngestError (List Tweet))
      → Validates rs x
      → Loaded
          (records rs, stats text)
          (x >>= λ tweets. ok (all_mentions python tweets (parse_ticker_whitelist python text)))
  of_validated rs text (ok tweets) h =
      let whitelist = parse_ticker_whitelist python text in
      (
        h.0,
        all_mentions-AllFrom python tweets whitelist,
        subst (λ ts. AllMentioned python whitelist rs (all_mentions python ts whitelist)) (sym h.1)
            (all_mentions-AllMentioned python whitelist rs),
      )
  of_validated rs text (err e) h = h
  of_validated rs text (raised x) h = h

-- A file of posts is loaded as a whole or not at all: `load` succeeds only if both files can be read
-- and no record is invalid, and then every mention is of this source and of a ticker of the
-- whitelist, and every post is mentioned under every ticker of the whitelist that its text names. If both files can be read and some record is invalid, the error counts the invalid
-- records and shows five errors at most. If a file cannot be opened or does not hold an array of
-- posts, the error counts no record. `load` raises exactly where reading a file does with an
-- exception that is not an `OSError`, such as that of a file that is not UTF-8: where reading the
-- posts does, or the posts were read and reading the whitelist does.
pub load-Loaded :
    (python : Python) (files : TweetsFile × StatsFile) → Loaded python files (load python files)
unfolding load read_tweets read_whitelist
load-Loaded python (records rs, stats text) =
    of_validated python rs text (validate_all python rs) (validate_all-Validates python rs)
load-Loaded python (records rs, stats_crash x) = refl
load-Loaded python (records rs, no_stats) = refl
load-Loaded python (crashes x, file) = refl
load-Loaded python (missing, file) = refl
load-Loaded python (not_json, file) = refl
load-Loaded python (no_tweets, file) = refl
load-Loaded python (no_array, file) = refl
