-- ===== src/Broker/Fake.antt =====
-- src/trader/broker/fake_broker.py: a broker in memory. A method that returns a new broker is a
-- function from state to state; `datetime.now` is a parameter.
pub mod Filling
use Prim.Native.String.{◌++◌}
use kyo_trading_tool.Prelude.{
  ℕ, ◌+◌, ltb, leb, min, Bool, true, false, Option, none, some, List, [], ◌∷◌, snoc, take, length,
  String, str_eq, if◌then◌else◌,
}
use kyo_trading_tool.Domain.Result.{Result, ok, err}
use kyo_trading_tool.Domain.Money.{Money, Price, zero_money}
use kyo_trading_tool.Domain.Models.{DateTime, Quantity, OrderStatus}
use kyo_trading_tool.Broker.{
  Broker, BrokerError, BrokerOrder, BrokerAccount, BrokerPosition, OrderRequest,
}

-- a `dict` with texts as keys
abbrev pub Dict : Type 0 → Type 0
Dict A = List (String × A)

-- `d.get(key)` and `d[key] = a`
unfoldable pub get : {A : Type 0} → String → Dict A → Option A
get key [] = none
get key ((k, a) ∷ rest) = if str_eq k key then some a else get key rest

unfoldable pub put : {A : Type 0} → String → A → Dict A → Dict A
put key a [] = (key, a) ∷ []
put key a ((k, b) ∷ rest) = if str_eq k key then (key, a) ∷ rest else (k, b) ∷ put key a rest

-- `d.get(key, default)`
abbrev pub get_or : {A : Type 0} → A → Option A → A
get_or d none = d
get_or d (some a) = a

abbrev pub FillPlan : Type 0
FillPlan = List (Quantity × Price)

-- `_FakeBrokerState`
pub record FakeBrokerState : Type 0 where
  pub submitted : List OrderRequest
  pub fail_next_submit : Bool
  pub fill_plans : Dict FillPlan
  pub call_counts : Dict ℕ
  pub orders : Dict OrderRequest
  pub open_order_count : ℕ
  pub account_value : BrokerAccount
  pub positions_value : List BrokerPosition

abbrev pub zero_account : BrokerAccount
zero_account = record { cash = zero_money; equity = zero_money }

abbrev pub empty_state : FakeBrokerState
empty_state = record {
  submitted = [];
  fail_next_submit = false;
  fill_plans = [];
  call_counts = [];
  orders = [];
  open_order_count = 0;
  account_value = zero_account;
  positions_value = [];
}

-- the configuration

unfoldable pub fail_next_submit : FakeBrokerState → FakeBrokerState
fail_next_submit state = record state { fail_next_submit = true }

unfoldable pub with_fill_plan : String → FillPlan → FakeBrokerState → FakeBrokerState
unfolding put
with_fill_plan client_order_id fills state = record state {
  fill_plans = put client_order_id fills state.fill_plans;
}

unfoldable pub with_open_orders : ℕ → FakeBrokerState → FakeBrokerState
with_open_orders n state = record state { open_order_count = n }

unfoldable pub with_account : BrokerAccount → FakeBrokerState → FakeBrokerState
with_account account state = record state { account_value = account }

unfoldable pub with_positions : List BrokerPosition → FakeBrokerState → FakeBrokerState
with_positions positions state = record state { positions_value = positions }

abbrev pub submit_call_count : FakeBrokerState → ℕ
submit_call_count state = length state.submitted

-- `status` of `_order_from_fills`
unfoldable pub fill_status : ℕ → ℕ → OrderStatus
fill_status filled qty =
    if ltb 0 filled
    then (if leb qty filled then OrderStatus.filled else OrderStatus.partially_filled)
    else OrderStatus.submitted

-- `_order_from_fills`
unfoldable pub order_from_fills : DateTime → OrderRequest → Quantity → Option Price → BrokerOrder
unfolding fill_status
order_from_fills now req filled_qty filled_avg_price = record {
  broker_order_id = "broker_" ++ req.client_order_id;
  client_order_id = req.client_order_id;
  status = fill_status filled_qty.shares req.qty.shares;
  filled_qty = filled_qty;
  filled_avg_price = filled_avg_price;
  updated_at = now;
}

unfoldable pub plan_shares : FillPlan → ℕ
plan_shares [] = 0
plan_shares ((qty, _) ∷ rest) = qty.shares + plan_shares rest

-- `revealed[-1][1] if revealed else None`
unfoldable pub last_price : Option Price → FillPlan → Option Price
last_price p [] = p
last_price p ((_, q) ∷ rest) = last_price (some q) rest

-- the calls of the broker

-- `setdefault(client_order_id, 0)`
abbrev pub set_default : String → Dict ℕ → Option ℕ → Dict ℕ
set_default id counts none = put id 0 counts
set_default id counts (some n) = counts

unfoldable pub submit_market_order :
    DateTime → OrderRequest → FakeBrokerState → Result BrokerError BrokerOrder × FakeBrokerState
submit_market_order now req state =
    if state.fail_next_submit
    then (err "simulated submit failure", record state { fail_next_submit = false })
    else (
      ok (order_from_fills now req (record { shares = 0 }) none),
      record state {
        submitted = snoc state.submitted req;
        orders = put req.client_order_id req state.orders;
        call_counts =
            set_default req.client_order_id state.call_counts
              (get req.client_order_id state.call_counts);
      },
    )

unfoldable pub cancel_all_open : FakeBrokerState → Result BrokerError ℕ × FakeBrokerState
cancel_all_open state = (ok state.open_order_count, state)

-- what the order shows when `count` entries of its plan are revealed
unfoldable pub reveal : DateTime → OrderRequest → FillPlan → ℕ → BrokerOrder
reveal now req plan count =
    let revealed = take count plan in
    order_from_fills now req (record { shares = min (plan_shares revealed) req.qty.shares })
      (last_price none revealed)

-- an order that is known
unfoldable pub get_known :
    DateTime
    → String
    → FakeBrokerState
    → Option OrderRequest
    → Result BrokerError BrokerOrder × FakeBrokerState
get_known now client_order_id state none = (err ("no such order: " ++ client_order_id), state)
get_known now client_order_id state (some req) =
    let count = get_or 0 (get client_order_id state.call_counts) + 1 in
    (
      ok (reveal now req (get_or [] (get client_order_id state.fill_plans)) count),
      record state { call_counts = put client_order_id count state.call_counts },
    )

unfoldable pub get_order :
    DateTime → String → FakeBrokerState → Result BrokerError BrokerOrder × FakeBrokerState
get_order now client_order_id state =
    get_known now client_order_id state (get client_order_id state.orders)

unfoldable pub positions :
    FakeBrokerState → Result BrokerError (List BrokerPosition) × FakeBrokerState
positions state = (ok state.positions_value, state)

unfoldable pub account : FakeBrokerState → Result BrokerError BrokerAccount × FakeBrokerState
account state = (ok state.account_value, state)

-- the broker, for a clock that shows `now`
unfoldable pub fake_broker : DateTime → Broker FakeBrokerState
fake_broker now = record {
  submit_market_order = submit_market_order now;
  cancel_all_open = cancel_all_open;
  get_order = get_order now;
  positions = positions;
  account = account;
}
