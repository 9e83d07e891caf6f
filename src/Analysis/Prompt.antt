-- ===== src/Analysis/Prompt.antt =====
-- src/trader/analysis/prompt.py. A prompt is kept as the values that its text shows, in order.
use kyo_trading_tool.Prelude.{
  ℕ, ◌-◌, ltb, ◌==◌, Bool, ◌&&◌, ℤ, pos, ◌-ℤ◌, List, map, take, drop, length, String,
}
use kyo_trading_tool.Domain.Decimal.{Decimal}
use kyo_trading_tool.Domain.Money.{Money, Price}
use kyo_trading_tool.Domain.Models.{Date, Evidence}
use kyo_trading_tool.Market.{Bar, average_volume}
use kyo_trading_tool.Rules.Schema.{RuleSet, DerivedLimits}

abbrev pub max_excerpts_shown : ℕ
max_excerpts_shown = 3

abbrev pub max_bars_shown : ℕ
max_bars_shown = 20

-- the lines of `rules_summary`
pub record RulesSummary : Type 0 where
  pub capital_usd : Decimal
  pub max_notional_per_ticker : Money
  pub max_notional_per_ticker_pct : Decimal
  pub max_concurrent_positions : ℕ
  pub max_holding_days : ℕ
  pub stop_loss_pct : Decimal
  pub partial_take_profit_pct : Decimal
  pub partial_take_profit_fraction : Decimal
  pub trailing_stop_pct : Decimal
  pub excluded_tickers : List String
  pub min_price_usd : Decimal
  pub min_avg_daily_volume : ℕ

unfoldable pub rules_summary : RuleSet → DerivedLimits → RulesSummary
rules_summary rules limits = record {
  capital_usd = rules.capital_usd;
  max_notional_per_ticker = limits.max_notional_per_ticker;
  max_notional_per_ticker_pct = rules.position.max_notional_per_ticker_pct;
  max_concurrent_positions = rules.position.max_concurrent_positions;
  max_holding_days = rules.position.max_holding_days;
  stop_loss_pct = rules.exit.stop_loss_pct;
  partial_take_profit_pct = rules.exit.partial_take_profit_pct;
  partial_take_profit_fraction = rules.exit.partial_take_profit_fraction;
  trailing_stop_pct = rules.exit.trailing_stop_pct;
  excluded_tickers = rules.entry.excluded_tickers;
  min_price_usd = rules.entry.min_price_usd;
  min_avg_daily_volume = rules.entry.min_avg_daily_volume;
}

pub record MentionSection : Type 0 where
  pub ticker : String
  pub mention_count : ℕ
  pub last_14d : ℕ
  pub prior_14d : ℕ
  pub delta : ℤ
  pub is_new : Bool
  pub excerpts : List String

-- `_mention_section`
unfoldable pub mention_section : Evidence → MentionSection
mention_section evidence =
    let stats = evidence.stats in
    record {
      ticker = evidence.ticker;
      mention_count = stats.mention_count;
      last_14d = stats.mention_count_last_14d;
      prior_14d = stats.mention_count_prior_14d;
      delta = pos stats.mention_count_last_14d -ℤ pos stats.mention_count_prior_14d;
      is_new = stats.mention_count_prior_14d == 0 && ltb 0 stats.mention_count_last_14d;
      excerpts = take max_excerpts_shown evidence.excerpts;
    }

pub record BarLine : Type 0 where
  pub date : Date
  pub close : Price
  pub volume : ℕ

abbrev pub bar_line : Bar → BarLine
bar_line bar = record { date = bar.date; close = bar.close; volume = bar.volume }

pub record BarsSection : Type 0 where
  pub ticker : String
  pub lines : List BarLine
  pub avg_daily_volume : ℕ

-- `list(bars)[-_MAX_BARS_SHOWN:]`
abbrev pub recent_bars : List Bar → List Bar
recent_bars bars = drop (length bars - max_bars_shown) bars

-- `_bars_section`
unfoldable pub bars_section : String × List Bar → BarsSection
bars_section (ticker, bars) = record {
  ticker = ticker;
  lines = map bar_line (recent_bars bars);
  avg_daily_volume = average_volume (recent_bars bars);
}

-- the sections of `user`; `system` is a constant
pub record Prompt : Type 0 where
  pub rules_text : RulesSummary
  pub candidates : List String
  pub mention_sections : List MentionSection
  pub bars_sections : List BarsSection

unfoldable pub build_prompt :
    RulesSummary → List Evidence → List (String × List Bar) → List String → Prompt
build_prompt rules_text evidences bars_by_ticker candidates = record {
  rules_text = rules_text;
  candidates = candidates;
  mention_sections = map mention_section evidences;
  bars_sections = map bars_section bars_by_ticker;
}
