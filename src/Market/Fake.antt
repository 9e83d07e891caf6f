-- ===== src/Market/Fake.antt =====
-- src/trader/market/fake_data.py: market data in memory. A method that returns a new instance is a
-- function; the data is its own state, which no call changes.
use Prim.Native.String.{◌++◌}
use kyo_trading_tool.Prelude.{
  ℕ, zero, suc, ◌-◌, Option, none, some, List, [], ◌∷◌, drop, length, contains, String, str_eq,
  if◌then◌else◌,
}
use kyo_trading_tool.Domain.Result.{Result, ok, err}
use kyo_trading_tool.Domain.Money.{Price}
use kyo_trading_tool.Market.{MarketError, Bar, MarketClock, MarketDataProvider}

pub record FakeMarketData : Type 0 where
  pub prices : List (String × Price)
  pub bars : List (String × List Bar)
  pub clock : MarketClock
  pub errors : List String

abbrev pub lookup : {A : Type 0} → String → List (String × A) → Option A
lookup ticker [] = none
lookup ticker ((k, a) ∷ rest) = if str_eq k ticker then some a else lookup ticker rest

-- `{**d, ticker: a}`
abbrev pub update : {A : Type 0} → String → A → List (String × A) → List (String × A)
update ticker a [] = (ticker, a) ∷ []
update ticker a ((k, b) ∷ rest) =
    if str_eq k ticker then (ticker, a) ∷ rest else (k, b) ∷ update ticker a rest

-- `bars[-days:]`, which is all of them for 0 days
unfoldable pub last_bars : ℕ → List Bar → List Bar
last_bars zero bars = bars
last_bars (suc n) bars = drop (length bars - suc n) bars

abbrev pub found : {A B : Type 0} → String → (A → B) → Option A → Result MarketError B
found message f none = err message
found message f (some a) = ok (f a)

unfoldable pub daily_bars : FakeMarketData → String → ℕ → Result MarketError (List Bar)
daily_bars self ticker days =
    if contains "daily_bars" self.errors
    then err "daily_bars is set to fail"
    else found ("no bars configured for ticker " ++ ticker) (last_bars days)
        (lookup ticker self.bars)

unfoldable pub latest_price : FakeMarketData → String → Result MarketError Price
latest_price self ticker =
    if contains "latest_price" self.errors
    then err "latest_price is set to fail"
    else found ("no price configured for ticker " ++ ticker) (λ (p : Price). p)
        (lookup ticker self.prices)

unfoldable pub market_clock : FakeMarketData → Result MarketError MarketClock
market_clock self =
    if contains "market_clock" self.errors then err "market_clock is set to fail" else ok self.clock

unfoldable pub with_price : FakeMarketData → String → Price → FakeMarketData
with_price self ticker price = record self { prices = update ticker price self.prices }

unfoldable pub with_bars : FakeMarketData → String → List Bar → FakeMarketData
with_bars self ticker bars = record self { bars = update ticker bars self.bars }

unfoldable pub with_clock : FakeMarketData → MarketClock → FakeMarketData
with_clock self clock = record self { clock = clock }

unfoldable pub failing : FakeMarketData → List String → FakeMarketData
failing self method_names = record self { errors = method_names }

-- the interface, with the default of 20 days
unfoldable pub fake_market : MarketDataProvider FakeMarketData
fake_market = record {
  daily_bars = λ ticker self. (daily_bars self ticker 20, self);
  latest_price = λ ticker self. (latest_price self ticker, self);
  market_clock = λ self. (market_clock self, self);
}
