-- ===== src/Domain/Models.antt =====
-- src/trader/domain/models.py. A `datetime` is a number of microseconds of UTC since a fixed day,
-- ids and tickers are texts, and a formatted message is a `Note`: the values that it shows.
mod Values
pub use Values.*
unfoldable pub use Values.{days_between}
use kyo_trading_tool.Prelude.{ℕ, ◌/◌, Bool, true, false, ℤ, Option, List, String}
use kyo_trading_tool.Domain.Decimal.{Decimal}
use kyo_trading_tool.Domain.Money.{Money, Price}

pub data Side : Type 0 where
  buy sell : Side

pub data Action : Type 0 where
  buy sell hold skip : Action

pub data Origin : Type 0 where
  llm rule_exit : Origin

pub data RuleCheck : Type 0 where
  passed rejected : RuleCheck

pub data OrderStatus : Type 0 where
  recorded submitted partially_filled filled canceled rejected failed : OrderStatus

pub data Approver : Type 0 where
  system kyo : Approver

pub record Mention : Type 0 where
  pub id : String
  pub source_id : String
  pub external_id : String
  pub ticker : String
  pub posted_at : DateTime
  pub text_excerpt : String
  pub url : Option String
  pub raw_sha256 : String

pub record MentionStats : Type 0 where
  pub ticker : String
  pub first_seen_at : DateTime
  pub last_seen_at : DateTime
  pub mention_count : ℕ
  pub mention_count_last_14d : ℕ
  pub mention_count_prior_14d : ℕ

pub record Evidence : Type 0 where
  pub ticker : String
  pub stats : MentionStats
  pub excerpts : List String
  pub mention_ids : List String

pub record Decision : Type 0 where
  pub id : String
  pub cycle_id : String
  pub decided_at : DateTime
  pub mode : String
  pub ticker : String
  pub action : Action
  pub origin : Origin
  pub confidence : Option Decimal
  pub rationale : Note
  pub evidence_mention_ids : List String
  pub llm_model : Option String
  pub prompt_sha256 : Option String
  pub response_sha256 : Option String
  pub rule_set_sha256 : String
  pub rule_check : RuleCheck
  pub rule_check_reason : Note
  pub proposed_notional : Option Money
  pub reference_price : Option Price

pub record Approval : Type 0 where
  pub id : String
  pub decision_id : String
  pub approver : Approver
  pub approved_at : DateTime
  pub expires_at : DateTime

pub record Order : Type 0 where
  pub id : String
  pub decision_id : String
  pub approval_id : String
  pub client_order_id : String
  pub broker_order_id : Option String
  pub mode : String
  pub side : Side
  pub qty : Quantity
  pub order_type : String
  pub status : OrderStatus
  pub submitted_at : Option DateTime
  pub last_error : Option String

unfoldable pub with_status : Order → OrderStatus → Order
with_status order s = record order { status = s }

pub record Fill : Type 0 where
  pub id : String
  pub order_id : String
  pub filled_at : DateTime
  pub qty : Quantity
  pub price : Price
  pub fee : Money

pub record Position : Type 0 where
  pub ticker : String
  pub qty : Quantity
  pub avg_cost : Price
  pub opened_at : DateTime
  pub high_watermark : Price
  pub partial_tp_done : Bool

pub record Trade : Type 0 where
  pub id : String
  pub ticker : String
  pub opened_at : DateTime
  pub closed_at : DateTime
  pub entry_decision_id : String
  pub exit_decision_ids : List String
  pub exit_reason : ExitReason
  pub realized_pnl : Money
  pub fees : Money
  pub holding_days : ℤ

pub record EquitySnapshot : Type 0 where
  pub snapshot_date : Date
  pub mode : String
  pub cash : Money
  pub positions_value : Money
  pub equity : Money
  pub peak_equity : Money
  pub drawdown_pct : Decimal
  pub taken_at : DateTime

pub record ExitSignal : Type 0 where
  pub ticker : String
  pub reason : ExitReason
  pub fraction : Decimal
  pub trigger_price : Price

-- `decision.rule_check is RuleCheck.passed`
abbrev pub is_passed : RuleCheck → Bool
is_passed RuleCheck.passed = true
is_passed RuleCheck.rejected = false

-- `decision.action in (Action.buy, Action.sell)`
abbrev pub is_order : Action → Bool
is_order Action.buy = true
is_order Action.sell = true
is_order Action.hold = false
is_order Action.skip = false

-- `reason == ExitReason.partial_take_profit`
abbrev pub is_partial : ExitReason → Bool
is_partial ExitReason.partial_take_profit = true
is_partial _ = false
