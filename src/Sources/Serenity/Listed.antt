-- ===== src/Sources/Serenity/Listed.antt =====
-- Only listed tickers are mentioned, and none of them twice for a post.
use kyo_trading_tool.Prelude.{
  ◌≡◌, refl, arith, Bool-cases, inl, inr, true, false, List, [], ◌∷◌, ◌++◌ as append, snoc, map,
  contains, String, str_eq, eq_iff,
}
use kyo_trading_tool.Domain.Models.{Mention}
use kyo_trading_tool.Sources.Serenity.{
  source_id, Tweet, Python, keep_new, extract_tickers, mention_of, tweet_to_mentions, all_mentions,
}

-- no ticker stands twice in the list
abbrev pub Distinct : List String → Type 0
Distinct [] = Unit {0}
Distinct (t ∷ ts) = (contains t ts ≡ false) × Distinct ts

contains-snoc :
    (t u : String) (ts : List String)
    → contains t ts ≡ false
    → str_eq t u ≡ false
    → contains t (snoc ts u) ≡ false
contains-snoc t u [] h k = ground (arith, k)
contains-snoc t u (v ∷ ts) h k = ground (arith, h, k, contains-snoc t u ts)

Distinct-snoc :
    (t : String) (ts : List String) → Distinct ts → contains t ts ≡ false → Distinct (snoc ts t)
Distinct-snoc t [] h k = (refl, tt)
Distinct-snoc t (u ∷ ts) (f, d) k = (
  contains-snoc u t ts f (ground (arith, k, eq_iff t u, eq_iff u t)),
  Distinct-snoc t ts d (ground (arith, k)),
)

abbrev pub AllListed : List String → List String → Type 0
AllListed whitelist [] = Unit {0}
AllListed whitelist (t ∷ ts) = (contains t whitelist ≡ true) × AllListed whitelist ts

AllListed-snoc :
    (whitelist : List String) (t : String) (ts : List String)
    → AllListed whitelist ts
    → contains t whitelist ≡ true
    → AllListed whitelist (snoc ts t)
AllListed-snoc whitelist t [] h k = (k, tt)
AllListed-snoc whitelist t (u ∷ ts) (f, d) k = (f, AllListed-snoc whitelist t ts d k)

-- listed tickers, each once
abbrev pub Tickers : List String → List String → Type 0
Tickers whitelist ts = Distinct ts × AllListed whitelist ts

keep_new-Tickers :
    (python : Python) (whitelist ts seen : List String)
    → Tickers whitelist seen
    → Tickers whitelist (keep_new python whitelist ts seen)
unfolding keep_new
keep_new-Tickers python whitelist [] seen h = h
keep_new-Tickers python whitelist (t ∷ ts) seen (d, l) =
    keep_new-Tickers python whitelist ts _ (elim (Bool-cases (contains t whitelist)) [
      | inl e ↦ elim (Bool-cases (contains t seen)) [
        | inl f ↦ rw (e, f) (d, l)
        | inr f ↦ rw (e, f) (Distinct-snoc t seen d f, AllListed-snoc whitelist t seen l e)
      ]
      | inr e ↦ rw e (d, l)
    ])

-- Whatever the text, the tickers extracted from it are in the whitelist, and none of them twice.
pub extract_tickers-Tickers :
    (python : Python) (text : String) (whitelist : List String)
    → Tickers whitelist (extract_tickers python text whitelist)
unfolding extract_tickers
extract_tickers-Tickers python text whitelist =
    keep_new-Tickers python whitelist (python.ticker_mentions text) [] (tt, tt)

-- every mention is of the source and of a listed ticker
abbrev pub AllFrom : List String → List Mention → Type 0
AllFrom whitelist [] = Unit {0}
AllFrom whitelist (m ∷ ms) =
    (m.source_id ≡ source_id) × (contains m.ticker whitelist ≡ true) × AllFrom whitelist ms

AllFrom-append :
    (whitelist : List String) (ms ns : List Mention)
    → AllFrom whitelist ms
    → AllFrom whitelist ns
    → AllFrom whitelist (append ms ns)
AllFrom-append whitelist [] ns h k = k
AllFrom-append whitelist (m ∷ ms) ns (s, t, h) k = (s, t, AllFrom-append whitelist ms ns h k)

module _ (python : Python) where
  mentions-AllFrom :
      (tweet : Tweet) (whitelist ts : List String)
      → AllListed whitelist ts
      → AllFrom whitelist (map (mention_of python tweet) ts)
  unfolding mention_of
  mentions-AllFrom tweet whitelist [] h = tt
  mentions-AllFrom tweet whitelist (t ∷ ts) (l, h) =
      (refl, l, mentions-AllFrom tweet whitelist ts h)

  pub all_mentions-AllFrom :
      (tweets : List Tweet) (whitelist : List String)
      → AllFrom whitelist (all_mentions python tweets whitelist)
  unfolding all_mentions tweet_to_mentions
  all_mentions-AllFrom [] whitelist = tt
  all_mentions-AllFrom (tweet ∷ tweets) whitelist =
      AllFrom-append whitelist (tweet_to_mentions python tweet whitelist)
        (all_mentions python tweets whitelist)
        (mentions-AllFrom tweet whitelist (extract_tickers python tweet.text whitelist)
          (extract_tickers-Tickers python tweet.text whitelist).1)
        (all_mentions-AllFrom tweets whitelist)
