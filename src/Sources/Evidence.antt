-- ===== src/Sources/Evidence.antt =====
-- src/trader/sources/evidence.py: the history of the mentions of each ticker.
pub mod Counts
use Prim.Native.Nat.{Ordering}
use Prim.Native.String.{compare}
use kyo_trading_tool.Prelude.{
  ℕ, ◌+◌, ◌*◌, ltb, leb, Bool, true, false, ◌&&◌, List, [], ◌∷◌, snoc, map, take, count, length,
  String, str_eq, if◌then◌else◌,
}
use kyo_trading_tool.Domain.Models.{DateTime, day_length, Mention, MentionStats, Evidence}
use kyo_trading_tool.Ledger.Repository.{sort_by}

abbrev pub default_window_days : ℕ
default_window_days = 14

abbrev pub max_excerpts : ℕ
max_excerpts = 3

-- a group of `by_ticker`: its first mention and the later ones
pub record Group : Type 0 where
  pub ticker : String
  pub first : Mention
  pub later : List Mention

abbrev pub members : Group → List Mention
members g = g.first ∷ g.later

-- `by_ticker[mention.ticker].append(mention)`
unfoldable pub add_to_group : Mention → List Group → List Group
add_to_group m [] = record { ticker = m.ticker; first = m; later = [] } ∷ []
add_to_group m (g ∷ gs) =
    let rest = add_to_group m gs in
    if str_eq g.ticker m.ticker then record g { later = snoc g.later m } ∷ gs else g ∷ rest

-- the loop over the mentions
unfoldable pub group_mentions : List Mention → List Group → List Group
group_mentions [] groups = groups
group_mentions (m ∷ ms) groups = group_mentions ms (add_to_group m groups)

-- `sorted(by_ticker)`: the tickers in the order of their characters
unfoldable pub group_before : Group → Group → Bool
group_before g h = elim (compare g.ticker h.ticker) [ Ordering.gt ↦ false | _ ↦ true ]

-- oldest first, and newest first; both sorts are stable
unfoldable pub oldest_first : List Mention → List Mention
unfolding sort_by
oldest_first = sort_by (λ (m n : Mention). leb m.posted_at n.posted_at)

unfoldable pub newest_first : List Mention → List Mention
unfolding sort_by
newest_first = sort_by (λ (m n : Mention). leb n.posted_at m.posted_at)

-- `m.posted_at > now - window`, with the window added on the other side
abbrev pub is_recent : DateTime → ℕ → Mention → Bool
is_recent now window_days m = ltb now (m.posted_at + window_days * day_length)

-- `now - 2 * window < m.posted_at <= now - window`
abbrev pub is_prior : DateTime → ℕ → Mention → Bool
is_prior now window_days m =
    ltb now (m.posted_at + window_days * 2 * day_length)
    && leb (m.posted_at + window_days * day_length) now

abbrev pub posted_first : DateTime → List Mention → DateTime
posted_first d [] = d
posted_first d (m ∷ ms) = m.posted_at

abbrev pub posted_last : DateTime → List Mention → DateTime
posted_last d [] = d
posted_last d (m ∷ ms) = posted_last m.posted_at ms

-- the body of the loop over the tickers
unfoldable pub evidence_of : DateTime → ℕ → Group → Evidence
evidence_of now window_days g =
    let ticker_mentions = oldest_first (members g) in
    record {
      ticker = g.ticker;
      stats = record {
        ticker = g.ticker;
        first_seen_at = posted_first g.first.posted_at ticker_mentions;
        last_seen_at = posted_last g.first.posted_at ticker_mentions;
        mention_count = length ticker_mentions;
        mention_count_last_14d = count (is_recent now window_days) ticker_mentions;
        mention_count_prior_14d = count (is_prior now window_days) ticker_mentions;
      };
      excerpts =
          map (λ (m : Mention). m.text_excerpt) (take max_excerpts (newest_first ticker_mentions));
      mention_ids = map (λ (m : Mention). m.id) ticker_mentions;
    }

unfoldable pub build_evidence : List Mention → DateTime → ℕ → List Evidence
build_evidence mentions now window_days =
    map (evidence_of now window_days) (sort_by group_before (group_mentions mentions []))
