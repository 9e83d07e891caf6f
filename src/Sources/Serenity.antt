-- ===== src/Sources/Serenity.antt =====
-- src/trader/sources/serenity: adapter.py and schema.py, which turn a file of posts into mentions.
-- Reading files and JSON, the types of the fields, the regular expressions and the hash are those of
-- Python and pydantic, parameters here.
pub mod Loading
pub mod Complete
pub mod Listed
use Prim.Native.Nat.{◌+◌}
use Prim.Native.String.{◌++◌}
use text.Mathlib.Text.{starts_with}
use kyo_trading_tool.Prelude.{
  ℕ, zero, suc, Bool, true, false, not, ◌&&◌, ◌||◌, Option, none, some, List, [], ◌∷◌,
  ◌++◌ as append, snoc, map, take, length, contains, String, str_eq, if◌then◌else◌,
}
use kyo_trading_tool.Domain.Result.{Exception, Result, ok, err, raised, ◌>>=◌}
use kyo_trading_tool.Domain.Models.{DateTime, Mention}
use kyo_trading_tool.Sources.Adapter.{IngestError, FieldError, SourceAdapter, boundary_error}

abbrev pub max_first_errors : ℕ
max_first_errors = 5

abbrev pub source_id : String
source_id = "serenity"

-- the fields of `Tweet`, of the declared types
pub record Tweet : Type 0 where
  pub id : String
  pub created_at : Option DateTime
  pub timestamp : Option DateTime
  pub text : String
  pub url : Option String

-- a record of the file: the names of the fields that pydantic finds at fault, or typed fields
pub data TweetRecord : Type 0 where
  untyped : List String → TweetRecord
  typed : Tweet → TweetRecord

-- what reading `tweets.json` and parsing it as JSON comes to. It `crashes` with an exception that the
-- code does not catch: a UnicodeDecodeError, a ValueError, where the file is not UTF-8.
pub data TweetsFile : Type 0 where
  missing : TweetsFile
  crashes : Exception → TweetsFile
  not_json : TweetsFile
  no_tweets : TweetsFile
  no_array : TweetsFile
  records : List TweetRecord → TweetsFile

-- what reading `ticker_stats.txt` comes to
pub data StatsFile : Type 0 where
  no_stats : StatsFile
  stats_crash : Exception → StatsFile
  stats : String → StatsFile

-- the functions of Python
pub record Python : Type 0 where
  pub is_numeric : String → Bool
  pub is_ticker : String → Bool
  pub ticker_mentions : String → List String
  pub splitlines : String → List String
  pub strip : String → String
  pub first_token : String → String
  pub excerpt : String → String
  pub sha256_of : Tweet → String

abbrev pub is_missing : Option DateTime → Bool
is_missing none = true
is_missing (some t) = false

-- `posted_at`; a tweet that was validated has one of the two times
unfoldable pub posted_at : Option DateTime → Option DateTime → DateTime
posted_at (some t) timestamp = t
posted_at none (some t) = t
posted_at none none = 0

-- `_read_tweets`
unfoldable pub read_tweets : TweetsFile → Result IngestError (List TweetRecord)
read_tweets missing = err (boundary_error "tweets.json が見つからない、または読み込めない")
read_tweets (crashes x) = raised x
read_tweets not_json = err (boundary_error "tweets.json の形式が不正 (JSON として解析できない)")
read_tweets no_tweets =
    err (boundary_error "tweets.json の形式が不正 (トップレベルが配列、または 'tweets' キーに配列を持つオブジェクトである必要がある)")
read_tweets no_array = err (boundary_error "tweets.json の形式が不正 (配列が期待される)")
read_tweets (records rs) = ok rs

module _ (python : Python) where
  -- `_id_must_be_numeric`, then `_requires_a_timestamp`; the second runs where the first has passed
  unfoldable pub tweet_errors : Tweet → List String
  tweet_errors tweet =
      if not (python.is_numeric tweet.id)
      then "id" ∷ []
      else if is_missing tweet.created_at && is_missing tweet.timestamp
      then "value" ∷ []
      else []

  abbrev pub at_index : ℕ → List String → List FieldError
  at_index index = map (λ (f : String). record { index = index; field = f })

  -- what the loop of `_validate_all` has gathered
  pub record Validated : Type 0 where
    pub tweets : List Tweet
    pub errors : List FieldError
    pub invalid : ℕ

  -- one record: a tweet, or errors
  abbrev pub gather : Tweet → ℕ → List String → Validated → Validated
  gather tweet index [] acc = record acc { tweets = snoc acc.tweets tweet }
  gather tweet index (f ∷ fs) acc = record acc {
    errors = append acc.errors (at_index index (f ∷ fs));
    invalid = acc.invalid + 1;
  }

  -- the body of the loop
  unfoldable pub validate_record : ℕ → TweetRecord → Validated → Validated
  validate_record index (untyped fields) acc = record acc {
    errors = append acc.errors (at_index index fields);
    invalid = acc.invalid + 1;
  }
  validate_record index (typed tweet) acc = gather tweet index (tweet_errors tweet) acc

  -- the loop
  unfoldable pub validate_records : ℕ → List TweetRecord → Validated → Validated
  validate_records index [] acc = acc
  validate_records index (r ∷ rs) acc =
      validate_records (index + 1) rs (validate_record index r acc)

  -- `if invalid_indices`
  unfoldable pub or_errors : Validated → ℕ → Result IngestError (List Tweet)
  or_errors acc zero = ok acc.tweets
  or_errors acc (suc n) = err (record {
    message = "件のレコードが不正です";
    invalid_count = suc n;
    first_errors = take max_first_errors acc.errors;
  })

  abbrev pub nothing_yet : Validated
  nothing_yet = record { tweets = []; errors = []; invalid = 0 }

  -- `_validate_all`
  unfoldable pub validate_all : List TweetRecord → Result IngestError (List Tweet)
  validate_all rs = let acc = validate_records 0 rs nothing_yet in or_errors acc acc.invalid

  -- a line that is empty or a comment has no ticker
  abbrev pub add_token : String → String → List String → List String
  add_token stripped token tickers =
      if str_eq stripped "" || starts_with stripped "#"
      then tickers
      else if python.is_ticker token
      then token ∷ tickers
      else tickers

  unfoldable pub whitelist_of : List String → List String → List String
  whitelist_of [] tickers = tickers
  whitelist_of (line ∷ lines) tickers =
      let stripped = python.strip line in
      whitelist_of lines (add_token stripped (python.first_token stripped) tickers)

  unfoldable pub parse_ticker_whitelist : String → List String
  parse_ticker_whitelist text = whitelist_of (python.splitlines text) []

  -- `_read_whitelist`
  unfoldable pub read_whitelist : StatsFile → Result IngestError (List String)
  read_whitelist (stats_crash x) = raised x
  read_whitelist no_stats = err (boundary_error "ticker_stats.txt が見つからない、または読み込めない")
  read_whitelist (stats text) = ok (parse_ticker_whitelist text)

  -- the loop of `extract_tickers`
  unfoldable pub keep_new : List String → List String → List String → List String
  keep_new whitelist [] seen = seen
  keep_new whitelist (t ∷ ts) seen =
      keep_new whitelist ts
        (if contains t whitelist && not (contains t seen) then snoc seen t else seen)

  unfoldable pub extract_tickers : String → List String → List String
  extract_tickers text whitelist = keep_new whitelist (python.ticker_mentions text) []

  unfoldable pub mention_of : Tweet → String → Mention
  mention_of tweet ticker = record {
    id = source_id ++ (":" ++ (tweet.id ++ (":" ++ ticker)));
    source_id = source_id;
    external_id = tweet.id;
    ticker = ticker;
    posted_at = posted_at tweet.created_at tweet.timestamp;
    text_excerpt = python.excerpt tweet.text;
    url = tweet.url;
    raw_sha256 = python.sha256_of tweet;
  }

  -- `_tweet_to_mentions`
  unfoldable pub tweet_to_mentions : Tweet → List String → List Mention
  tweet_to_mentions tweet whitelist = map (mention_of tweet) (extract_tickers tweet.text whitelist)

  unfoldable pub all_mentions : List Tweet → List String → List Mention
  all_mentions [] whitelist = []
  all_mentions (tweet ∷ tweets) whitelist =
      append (tweet_to_mentions tweet whitelist) (all_mentions tweets whitelist)

  -- `load`, for the two files of the directory
  unfoldable pub load : TweetsFile × StatsFile → Result IngestError (List Mention)
  load (tweets_file, stats_file) = read_tweets tweets_file >>= λ rs.
      read_whitelist stats_file >>= λ whitelist.
      validate_all rs >>= λ tweets. ok (all_mentions tweets whitelist)

  unfoldable pub serenity_adapter : SourceAdapter (TweetsFile × StatsFile)
  serenity_adapter = record { source_id = source_id; load = load }
