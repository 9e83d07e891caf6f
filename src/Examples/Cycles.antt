-- ===== src/Examples/Cycles.antt =====
-- The theorems on imports, candidates and cycles, at concrete inputs.
use kyo_trading_tool.Sources.Evidence.{build_evidence}
use kyo_trading_tool.Engine.Candidates.{select_candidates}
use kyo_trading_tool.Engine.Candidates.Choice.{MostDiscussed, select_candidates-MostDiscussed}
use kyo_trading_tool.Prelude.{ℕ, ◌≡◌, refl, arith, true, false, none, some, List, [], ◌∷◌, pos}
use kyo_trading_tool.Domain.Result.{Result, ok, err}
use kyo_trading_tool.Domain.Decimal.{of_ℕ}
use kyo_trading_tool.Domain.Models.{Mention, RuleCheck, Decision}
use kyo_trading_tool.Ledger.Db.{Conn, Source}
use kyo_trading_tool.Ledger.Sources.{insert_mentions_many}
use kyo_trading_tool.Ledger.Sources.Ingest.{Ingested, insert_mentions_many-Ingested}
use kyo_trading_tool.Market.{MarketDataProvider}
use kyo_trading_tool.Config.{TradingMode}
use kyo_trading_tool.Analysis.Prompt.{Prompt, rules_summary, build_prompt}
use kyo_trading_tool.Analysis.Output.{Payload, Reader}
use kyo_trading_tool.Analysis.Analyst.{LlmClient, propose}
use kyo_trading_tool.Analysis.Analyst.Adopted.{Adopted, propose-Adopted}
use kyo_trading_tool.Engine.Candidates.{CandidatesError}
use kyo_trading_tool.Engine.Candidates.Deciding.{Setup, evaluate_candidates}
use kyo_trading_tool.Engine.Candidates.Limits.{Limited, selected, evaluate_candidates-Limited}
use kyo_trading_tool.Engine.KillSwitch.{is_halted}
use kyo_trading_tool.Engine.Cycle.{CycleDeps, CycleError, CycleOutcome}
use kyo_trading_tool.Engine.Cycle.Executing.{execute_passed_decisions}
use kyo_trading_tool.Engine.Cycle.Ending.{execute_each, execute_passed_decisions-each}
use kyo_trading_tool.Engine.Cycle.Running.{run_locked}
use kyo_trading_tool.Engine.Cycle.Halted.{Recorded, run_locked-Recorded}
use kyo_trading_tool.Engine.Cycle.Idle.{with_broker, run_locked-halted}
use kyo_trading_tool.Engine.Cycle.Closed.{with_orders, run_locked-closed}
use kyo_trading_tool.Engine.Cycle.Termination.{EndsWithin, run_locked-terminates}
use kyo_trading_tool.Examples.{
  rules, limits, decision, market_clock, tables, conn, broker, clock, uuids, market,
}

abbrev pub mention : Mention
mention = record {
  id = "m1";
  source_id = "serenity";
  external_id = "p1";
  ticker = "BETA";
  posted_at = 150;
  text_excerpt = "on the rise";
  url = none;
  raw_sha256 = "raw";
}

-- a post in another table of sources
abbrev source : Source
source = record {
  source_id = "serenity";
  name = "Serenity";
  imported_at = 160;
  file_sha256 = "file";
  record_count = 2;
}

abbrev source_conn : Conn
source_conn = record conn { tables = record tables { sources = source ∷ []; engine_state = [] } }

-- the second mention has the source, external id and ticker of the first
abbrev pub mentions : List Mention
mentions = mention ∷ record mention { id = "m2" } ∷ []

Ingested_example : Ingested mentions source_conn (insert_mentions_many mentions source_conn)
Ingested_example = insert_mentions_many-Ingested mentions source_conn

-- every text is a proposal to buy BETA
abbrev reader : Reader
reader = record {
  strip = λ text. text;
  splitlines = λ text. text ∷ [];
  join_lines = λ lines. "";
  loads = λ text. some (
      Payload.typed (
        record {
          ticker = "BETA";
          action = "buy";
          confidence = of_ℕ 1;
          rationale = "new mentions";
          evidence_mention_ids = "m1" ∷ [];
        }
        ∷ []));
}

abbrev llm : LlmClient ℕ
llm = record {
  model = "model";
  complete = λ prompt s.
      (ok (record { text = "{}"; model = "model"; prompt_sha256 = "p"; response_sha256 = "r" }), s);
}

abbrev prompt : Prompt
prompt = build_prompt (rules_summary rules limits) [] [] ("BETA" ∷ [])

Adopted_example :
    Adopted {E = CandidatesError} ("BETA" ∷ []) (propose reader llm prompt ("BETA" ∷ []) 0)
Adopted_example = propose-Adopted CandidatesError reader llm prompt ("BETA" ∷ []) 0

-- every ticker has bars too
abbrev full_market : MarketDataProvider ℕ
full_market = record market {
  daily_bars = λ ticker s. (
    ok (
        record {
          ticker = ticker;
          date = 0;
          open_price = record { ticks = pos 150000 };
          high = record { ticks = pos 150000 };
          low = record { ticks = pos 150000 };
          close = record { ticks = pos 150000 };
          volume = 5000;
        }
        ∷ []),
    s,
  );
}

abbrev setup : Setup ℕ
setup = record {
  market = full_market;
  llm = some llm;
  reader = reader;
  rules = rules;
  limits = limits;
  clock = clock;
  uuids = uuids;
  cycle_id = "c1";
  rule_set_sha256 = "sha";
  mode = "paper";
  loss_breach = none;
  market_open = true;
}

Limited_example :
    Limited setup
      (selected setup mentions ("ACME" ∷ []) 0)
      ("ACME" ∷ [])
      (evaluate_candidates setup mentions ("ACME" ∷ []) conn 0)
Limited_example = evaluate_candidates-Limited setup mentions ("ACME" ∷ []) conn 0

abbrev deps : CycleDeps ℕ
deps = record {
  mode = TradingMode.paper;
  rules = rules;
  limits = limits;
  rule_set_sha256 = "sha";
  broker = record broker {
    account = λ s. (
      ok (record {
        cash = record { cents = pos 1000000 };
        equity = record { cents = pos 1000000 };
      }),
      s,
    );
  };
  market = full_market;
  llm = some llm;
  reader = reader;
  clock = clock;
  uuids = uuids;
  capital = record { cents = pos 1000000 };
  poll_timeout_s = 3;
  poll_interval_s = 1;
  library = record {
    reason_text = λ note. "reason";
    isoformat = λ time. "time";
    ny_date = λ time. 20000;
    weekday = λ day. 2;
  };
}

kept_cycle_example : Recorded (run_locked deps source_conn 0)
kept_cycle_example = run_locked-Recorded deps source_conn 0

terminates_cycle_example :
    (x : Result CycleError CycleOutcome × Conn × ℕ) × (run_locked deps source_conn 0 ≡ some x)
    × EndsWithin (some x)
terminates_cycle_example = run_locked-terminates deps source_conn 0 (omega arith)

conn-halted : is_halted conn.tables ≡ true
unfolding is_halted kyo_trading_tool.Ledger.Portfolio.get_engine_state
conn-halted = refl

halted_cycle_example : run_locked (with_broker deps broker) conn 0 ≡ run_locked deps conn 0
halted_cycle_example = run_locked-halted deps broker conn 0 conn-halted

-- the market says that it is closed
abbrev closed_deps : CycleDeps ℕ
closed_deps = record deps {
  market = record full_market {
    market_clock = λ s. (ok (record market_clock { is_open = false }), s);
  };
}

closed_cycle_example :
    run_locked
      (with_orders closed_deps (λ request s. (err "none", s)) (λ id s. (err "none", s)))
      source_conn
      0
    ≡ run_locked closed_deps source_conn 0
closed_cycle_example =
    run_locked-closed closed_deps (λ request s. (err "none", s)) (λ id s. (err "none", s))
      source_conn 0 (λ t. refl)

-- one decision that passed, and one that did not
abbrev mixed : List Decision
mixed = decision ∷ record decision { id = "d2"; rule_check = RuleCheck.rejected } ∷ []

each_example :
    execute_passed_decisions deps [] market_clock mixed conn 0
    ≡ execute_each deps [] market_clock (decision ∷ []) (0, 0) conn 0
each_example = execute_passed_decisions-each deps [] market_clock mixed conn 0

MostDiscussed_example :
    MostDiscussed
      (build_evidence mentions 200 14)
      ("ACME" ∷ [])
      ("GME" ∷ [])
      (select_candidates (build_evidence mentions 200 14) ("ACME" ∷ []) ("GME" ∷ []))
MostDiscussed_example =
    select_candidates-MostDiscussed (build_evidence mentions 200 14) ("ACME" ∷ []) ("GME" ∷ [])
