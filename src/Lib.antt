-- ===== src/Lib.antt =====
-- A model of kyo-trading-tool, a stock trading engine for one account: src/trader of the repository.
--
-- A cycle of the engine asks an analyst for candidates, checks them against an approved rule set,
-- turns what passes into approved orders, records each order in an SQLite ledger, submits it to the
-- broker, polls the broker for fills, and settles the fills into positions and closed trades. A
-- loss limit that is reached triggers a kill switch.
--
-- The files and the code:
--   Prelude      names of the libraries, Boolean tests, lists and integers.
--   Domain       Domain/Result: src/trader/domain/result.py. Domain/Money: domain/money.py, over
--                Domain/Decimal, which stands for Python's `decimal.Decimal`. Domain/Models:
--                domain/models.py. Domain/Retry: domain/retry.py.
--   Rules        Rules/Schema: src/trader/rules/schema.py. Rules/Entry: rules/entry_checks.py.
--                Rules/Exit: rules/exit_checks.py. Rules/Loss: rules/loss_limits.py. Rules/Lock:
--                rules/lock.py.
--   Ledger       Ledger/Db: src/trader/ledger/db.py and migrations/0001_init.sql.
--                Ledger/Repository: ledger/repository.py. Ledger/Portfolio:
--                ledger/portfolio_repository.py. Ledger/TradeCloser: ledger/trade_closer.py.
--                Ledger/Sources: ledger/source_repository.py.
--   Broker       src/trader/broker/broker.py and the clock, as records of operations over a state of
--                the world outside. Broker/Fake: broker/fake_broker.py. Market:
--                src/trader/market/data_provider.py. Market/Fake: market/fake_data.py. Config: the
--                trading mode of src/trader/config/mode.py.
--   Sources      Sources/Evidence: src/trader/sources/evidence.py. Sources/Adapter:
--                sources/adapter.py. Sources/Serenity: sources/serenity/adapter.py and
--                sources/serenity/schema.py.
--   Analysis     Analysis/Prompt: src/trader/analysis/prompt.py. Analysis/Output:
--                analysis/output_schema.py. Analysis/Analyst: analysis/analyst.py.
--   Engine       Engine/Approval: src/trader/engine/approval.py. Engine/Executor:
--                engine/order_executor.py. Engine/Fills: engine/fills.py, with the polling loop in
--                Engine/Fills/Polling. Engine/Holdings: engine/holdings.py.
--                Engine/KillSwitch: engine/kill_switch.py. Engine/Candidates: engine/candidates.py,
--                with its main function in Engine/Candidates/Deciding. Engine/Cycle:
--                engine/cycle.py, with the sending of orders in Engine/Cycle/Executing and the
--                composition of a cycle in Engine/Cycle/Running.
--   Report       Report/Estimate: src/trader/report/live_estimate.py. Report/Metrics:
--                report/metrics.py.
--   Examples     concrete data, and the theorems at concrete inputs.
-- A function of the code keeps its name; a step of a long function has a name of its own and a
-- comment that quotes the code. The children of a module hold its theorems.
--
-- How the code is modelled. A `Result` has a third case, `raised`, for an exception that the code
-- does not catch. Code that writes takes the connection and returns it: `Conn` holds the tables that
-- the connection sees, the tables that are committed, and a list of flags that says which of the
-- coming statements and commits SQLite refuses for reasons of its own (after the list, none). A
-- statement that violates a constraint of the schema fails. Calls of the broker, the clock, `sleep`
-- and `uuid4` read and change a state of the world outside, of any type. A decimal is an exact
-- fraction, which agrees with Python's decimals while no result needs more than 28 digits; money is
-- a whole number of cents and a price a whole number of ten-thousandths, rounded half to even as the
-- code rounds them. A time is a number of microseconds and a day a number of days. A formatted
-- message is a `Note` that holds the values it shows; ids and tickers are texts.
--
-- The polling loop runs on fuel, one unit for each poll: timeout + 1 units are given, which is
-- enough where the interval is at least one second. A cycle passes on `none` where a polling loop
-- runs out of it.
--
-- A prompt is the values that its sections show. Of the LLM's answer, reading JSON, the types of its
-- fields, `strip` and `splitlines` are parameters; the constraints of the fields are the code's. The
-- file lock of a cycle is an interface that says whether it was free.
--
-- Not modelled: the command line, the settings, HTTP clients (Alpaca, the LLM), rendering, the text
-- codecs of the columns, reading rule files, and log lines, which are input and output or text. Of
-- the file of posts, the reading of JSON, the types of the fields, the regular expressions and the
-- hash are parameters, and of the lock of the rules the files, `splitlines` and the hash.
pub mod Prelude
pub mod Domain
pub mod Rules
pub mod Ledger
pub mod Broker
pub mod Market
pub mod Config
pub mod Sources
pub mod Analysis
pub mod Engine
pub mod Report
pub mod Examples
