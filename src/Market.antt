-- ===== src/Market.antt =====
-- src/trader/market/data_provider.py: the shape of market data, and the average volume.
pub mod Fake
use kyo_trading_tool.Prelude.{ℕ, ◌+◌, ◌/◌, Bool, List, [], ◌∷◌, String, length}
use kyo_trading_tool.Domain.Result.{Result}
use kyo_trading_tool.Domain.Money.{Price}
use kyo_trading_tool.Domain.Models.{DateTime, Date}

-- `MarketError.message`
abbrev pub MarketError : Type 0
MarketError = String

pub record Bar : Type 0 where
  pub ticker : String
  pub date : Date
  pub open_price : Price
  pub high : Price
  pub low : Price
  pub close : Price
  pub volume : ℕ

pub record MarketClock : Type 0 where
  pub is_open : Bool
  pub next_open : DateTime
  pub next_close : DateTime

pub record MarketDataProvider (S : Type 0) : Type 0 where
  pub daily_bars : String → S → Result MarketError (List Bar) × S
  pub latest_price : String → S → Result MarketError Price × S
  pub market_clock : S → Result MarketError MarketClock × S

unfoldable pub total_volume : List Bar → ℕ
total_volume [] = 0
total_volume (bar ∷ bars) = bar.volume + total_volume bars

unfoldable pub average_volume : List Bar → ℕ
unfolding total_volume
average_volume [] = 0
average_volume (bar ∷ bars) = total_volume (bar ∷ bars) / length (bar ∷ bars)
