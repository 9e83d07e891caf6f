-- ===== src/Examples/Reports.antt =====
-- The theorems on evidence, the fake broker and reports, at concrete inputs.
use kyo_trading_tool.Prelude.{◌↔◌, true, false, String}
use kyo_trading_tool.Domain.Result.{ok}
use kyo_trading_tool.Rules.Lock.{RulesLock, Files, write_lock, verify_lock}
use kyo_trading_tool.Rules.Lock.Verifying.{write_lock-verify_lock}
use kyo_trading_tool.Sources.Serenity.{Tweet, TweetRecord, TweetsFile, StatsFile, Python, load}
use kyo_trading_tool.Sources.Serenity.Loading.{Loaded, load-Loaded}
use kyo_trading_tool.Prelude.{◌≤◌, ◌≡◌, refl, arith, none, some, List, [], ◌∷◌, length, pos, neg}
use kyo_trading_tool.Domain.Models.{Side, Trade, ExitReason}
use kyo_trading_tool.Broker.{OrderRequest}
use kyo_trading_tool.Broker.Fake.{
  FakeBrokerState, FillPlan, empty_state, get, get_or, put, with_fill_plan, submit_market_order,
  get_order, plan_shares,
}
use kyo_trading_tool.Broker.Fake.Filling.{Full, Honest, polled, get_order-fills, get_order-Honest}
use kyo_trading_tool.Sources.Evidence.{build_evidence}
use kyo_trading_tool.Sources.Evidence.Counts.{total, mention_count, AllSound, build_evidence-counts}
use kyo_trading_tool.Report.Metrics.{Period, compute}
use kyo_trading_tool.Report.Metrics.Counts.{Counted, compute-Counted}
use kyo_trading_tool.Examples.{decision, position}
use kyo_trading_tool.Examples.Cycles.{mentions}

counts_example :
    (total mention_count (build_evidence mentions 200 14) ≡ length mentions)
    × AllSound (build_evidence mentions 200 14)
counts_example = build_evidence-counts mentions 200 14

abbrev request : OrderRequest
request = record {
  client_order_id = "order_1";
  ticker = "ACME";
  side = Side.buy;
  qty = record { shares = 5 };
}

-- three shares, then three more, of which two are needed
abbrev plan : FillPlan
plan =
    (record { shares = 3 }, record { ticks = pos 100000 })
    ∷ (record { shares = 3 }, record { ticks = pos 110000 })
    ∷ []

abbrev fake_state : FakeBrokerState
fake_state = (submit_market_order 100 request (with_fill_plan "order_1" plan empty_state)).1

order-known : get "order_1" fake_state.orders ≡ some request
unfolding submit_market_order with_fill_plan put get
order-known = refl

plan-known : get_or [] (get "order_1" fake_state.fill_plans) ≡ plan
unfolding submit_market_order with_fill_plan put get
plan-known = refl

plan-enough : 5 ≤ plan_shares plan
unfolding plan_shares
plan-enough = omega arith

fills_example : Full request (get_order 100 "order_1" (polled 100 "order_1" 1 fake_state)).0
fills_example =
    get_order-fills 100 "order_1" request plan 1 fake_state order-known plan-known (omega arith)
      plan-enough (omega arith)

Honest_example : Honest "order_1" fake_state (get_order 100 "order_1" fake_state).0
Honest_example = get_order-Honest 100 "order_1" fake_state

abbrev trade : Trade
trade = record {
  id = "trade_1";
  ticker = "ACME";
  opened_at = 100;
  closed_at = 300;
  entry_decision_id = "d1";
  exit_decision_ids = "d2" ∷ [];
  exit_reason = ExitReason.stop_loss;
  realized_pnl = record { cents = neg 700 };
  fees = record { cents = pos 0 };
  holding_days = pos 0;
}

abbrev trades : List Trade
trades = trade ∷ record trade { id = "trade_2"; realized_pnl = record { cents = pos 900 } } ∷ []

abbrev period : Period
period = record { start = some 0; end = none }

Counted_example :
    Counted trades (decision ∷ []) period (compute trades (decision ∷ []) [] (position ∷ []) period)
Counted_example = compute-Counted trades (decision ∷ []) [] (position ∷ []) period

abbrev python : Python
python = record {
  is_numeric = λ text. true;
  is_ticker = λ text. true;
  ticker_mentions = λ text. "BETA" ∷ "BETA" ∷ "GAMMA" ∷ [];
  splitlines = λ text. "BETA 12" ∷ [];
  strip = λ text. text;
  first_token = λ text. "BETA";
  excerpt = λ text. text;
  sha256_of = λ tweet. "raw";
}

abbrev tweet : Tweet
tweet = record {
  id = "1";
  created_at = some 150;
  timestamp = none;
  text = "$BETA and $BETA, not $GAMMA";
  url = none;
}

abbrev files : TweetsFile × StatsFile
files = (TweetsFile.records (TweetRecord.typed tweet ∷ []), StatsFile.stats "BETA 12")

Loaded_example : Loaded python files (load python files)
Loaded_example = load-Loaded python files

abbrev lock : RulesLock
lock = record { sha256 = "abc"; approved_by = "kyo"; approved_at = "2026-01-01" }

abbrev rule_files : Files
rule_files = record { lock_exists = false; lock_text = none; yaml_sha256 = some "abc" }

-- the lines of the lock
abbrev lines : List String
lines = "sha256: abc" ∷ "approved_by: kyo" ∷ "approved_at: 2026-01-01" ∷ []

lock_example :
    (verify_lock (λ text. lines) (write_lock true lock rule_files).1 ≡ ok lock)
    ↔ (rule_files.yaml_sha256 ≡ some lock.sha256)
lock_example = write_lock-verify_lock (λ text. lines) lock rule_files refl refl
