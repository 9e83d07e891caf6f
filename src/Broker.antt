-- ===== src/Broker.antt =====
-- src/trader/broker/broker.py. What the broker does is not under src/: its calls are fields, over a
-- state `S` of the world outside, which a call may change.
pub mod Fake
use kyo_trading_tool.Prelude.{ℕ, Option, List, String}
use kyo_trading_tool.Domain.Result.{Result}
use kyo_trading_tool.Domain.Money.{Money, Price}
use kyo_trading_tool.Domain.Models.{DateTime, Quantity, Side, OrderStatus}

-- `BrokerError.message`
abbrev pub BrokerError : Type 0
BrokerError = String

pub record OrderRequest : Type 0 where
  pub client_order_id : String
  pub ticker : String
  pub side : Side
  pub qty : Quantity

pub record BrokerOrder : Type 0 where
  pub broker_order_id : String
  pub client_order_id : String
  pub status : OrderStatus
  pub filled_qty : Quantity
  pub filled_avg_price : Option Price
  pub updated_at : DateTime

pub record BrokerAccount : Type 0 where
  pub cash : Money
  pub equity : Money

pub record BrokerPosition : Type 0 where
  pub ticker : String
  pub qty : Quantity
  pub avg_cost : Price

pub record Broker (S : Type 0) : Type 0 where
  pub submit_market_order : OrderRequest → S → Result BrokerError BrokerOrder × S
  pub cancel_all_open : S → Result BrokerError ℕ × S
  pub get_order : String → S → Result BrokerError BrokerOrder × S
  pub positions : S → Result BrokerError (List BrokerPosition) × S
  pub account : S → Result BrokerError BrokerAccount × S

-- src/trader/domain/clock.py and `sleep`: time passes in the world outside
pub record Clock (S : Type 0) : Type 0 where
  pub now : S → DateTime
  pub sleep : ℕ → S → S

-- `uuid.uuid4().hex`
pub record Uuids (S : Type 0) : Type 0 where
  pub uuid4_hex : S → String × S
