-- ===== src/Engine/Candidates.antt =====
-- src/trader/engine/candidates.py: which tickers are considered, and what is decided on them.
pub mod Deciding
pub mod Proposals
pub mod Limits
pub mod Choice
use Prim.Native.Nat.{Ordering}
use Prim.Native.String.{compare, ◌++◌}
use kyo_trading_tool.Prelude.{
  ℕ, ltb, ◌==◌, Bool, not, ◌&&◌, Option, none, some, List, [], ◌∷◌, map, take, keep, find, contains,
  String, str_eq, if◌then◌else◌,
}
use kyo_trading_tool.Domain.Result.{Result, ok, err, raised, key_error, ◌>>=◌}
use kyo_trading_tool.Domain.Money.{Price}
use kyo_trading_tool.Domain.Models.{
  DateTime, Mention, Evidence, Action, Origin, RuleCheck, Note, Decision, is_passed,
}
use kyo_trading_tool.Rules.Schema.{RuleSet, DerivedLimits}
use kyo_trading_tool.Rules.Loss.{LossLimitBreach}
use kyo_trading_tool.Rules.Entry.{EntryPlan, RuleRejection, check_entry}
use kyo_trading_tool.Ledger.Db.{Conn, LedgerError}
use kyo_trading_tool.Ledger.Repository.{sort_by, insert_decision}
use kyo_trading_tool.Broker.{Clock, Uuids}
use kyo_trading_tool.Market.{MarketError, Bar, MarketDataProvider, average_volume}
use kyo_trading_tool.Sources.Evidence.{build_evidence, default_window_days}
use kyo_trading_tool.Analysis.Prompt.{Prompt, rules_summary, build_prompt}
use kyo_trading_tool.Analysis.Output.{LlmProposal, ProposedAction, Reader}
use kyo_trading_tool.Analysis.Analyst.{LlmClient, AnalysisResult, propose}

abbrev pub max_candidates : ℕ
max_candidates = 20

-- `CandidatesError.message` is that of the ledger
pub data CandidatesError : Type 0 where
  not_stored : LedgerError → CandidatesError

abbrev pub CandidatesOutcome : Type 0
CandidatesOutcome = List Decision

abbrev pub is_eligible : List String → List String → Evidence → Bool
is_eligible held_tickers excluded_tickers evidence =
    ltb 0 evidence.stats.mention_count_last_14d
    && not (contains evidence.ticker held_tickers)
    && not (contains evidence.ticker excluded_tickers)

-- by (-mention_count_last_14d, ticker)
unfoldable pub ranked_before : Evidence → Evidence → Bool
ranked_before e f =
    let by_ticker : Bool = elim (compare e.ticker f.ticker) [
      | Ordering.gt ↦ Bool.false
      | _ ↦ Bool.true
    ] in
    if e.stats.mention_count_last_14d == f.stats.mention_count_last_14d
    then by_ticker
    else ltb f.stats.mention_count_last_14d e.stats.mention_count_last_14d

-- `_select_candidates`
unfoldable pub select_candidates : List Evidence → List String → List String → List String
select_candidates evidences held_tickers excluded_tickers =
    map (λ (e : Evidence). e.ticker)
      (take max_candidates
        (sort_by ranked_before (keep (is_eligible held_tickers excluded_tickers) evidences)))

-- the entries of `priced`, `bars_by_ticker` and `avg_volumes` for a ticker of `final_candidates`
pub record PricedCandidate : Type 0 where
  pub ticker : String
  pub latest_price : Price
  pub bars : List Bar
  pub avg_volume : ℕ

-- `priced[ticker]`
abbrev pub find_priced : String → List PricedCandidate → Option PricedCandidate
find_priced ticker = find (λ (p : PricedCandidate). str_eq p.ticker ticker)

-- `evidence_by_ticker.get(ticker)`
abbrev pub find_evidence : List Evidence → String → Option Evidence
find_evidence evidences ticker = find (λ (e : Evidence). str_eq e.ticker ticker) evidences

abbrev pub ids_of : Option Evidence → List String
ids_of none = []
ids_of (some e) = e.mention_ids

-- `text or None`
abbrev pub text_or_none : String → Option String
text_or_none t = if str_eq t "" then none else some t

-- what a part of the evaluation returns, with the world outside
abbrev pub Part : Type 0 → Type 0 → Type 0
Part S A = Result CandidatesError A × S

abbrev pub cons_part : {S A : Type 0} → A → Part S (List A) → Part S (List A)
cons_part a (ok rest, s) = (ok (a ∷ rest), s)
cons_part a (err e, s) = (err e, s)
cons_part a (raised x, s) = (raised x, s)

module _ {S : Type 0} (market : MarketDataProvider S) where
  -- the rest of the loop, with this candidate if both calls succeeded
  unfoldable pub with_prices :
      String
      → (S → Part S (List PricedCandidate))
      → Result MarketError Price
      → Result MarketError (List Bar) × S
      → Part S (List PricedCandidate)
  with_prices ticker k (ok p) (ok bars, s) =
      let candidate : PricedCandidate = record {
        ticker = ticker;
        latest_price = p;
        bars = bars;
        avg_volume = average_volume bars;
      } in
      cons_part candidate (k s)
  with_prices ticker k (ok p) (err m, s) = k s
  with_prices ticker k (err m) (ok bars, s) = k s
  with_prices ticker k (err m) (err n, s) = k s
  with_prices ticker k (raised x) (q, s) = (raised x, s)
  with_prices ticker k (ok p) (raised x, s) = (raised x, s)
  with_prices ticker k (err m) (raised x, s) = (raised x, s)

  -- the bars are asked for also where there is no price, but not after an exception
  unfoldable pub price_candidate :
      String
      → (S → Part S (List PricedCandidate))
      → Result MarketError Price × S
      → Part S (List PricedCandidate)
  price_candidate ticker k (ok p, s) = with_prices ticker k (ok p) (market.daily_bars ticker s)
  price_candidate ticker k (err m, s) = with_prices ticker k (err m) (market.daily_bars ticker s)
  price_candidate ticker k (raised x, s) = (raised x, s)

  -- `_price_candidates`
  unfoldable pub price_candidates : List String → S → Part S (List PricedCandidate)
  price_candidates [] s = (ok [], s)
  price_candidates (ticker ∷ tickers) s =
      price_candidate ticker (price_candidates tickers) (market.latest_price ticker s)

-- what all decisions of a run share
pub record Run : Type 0 where
  pub cycle_id : String
  pub now : DateTime
  pub mode : String
  pub rule_set_sha256 : String

-- `_skip_decision`
unfoldable pub skip_decision :
    Run
    → String
    → String
    → Note
    → Option String
    → Option String
    → Option String
    → List String
    → Decision
skip_decision run id ticker reason llm_model prompt_sha256 response_sha256 evidence_mention_ids =
    record {
      id = id;
      cycle_id = run.cycle_id;
      decided_at = run.now;
      mode = run.mode;
      ticker = ticker;
      action = Action.skip;
      origin = Origin.llm;
      confidence = none;
      rationale = reason;
      evidence_mention_ids = evidence_mention_ids;
      llm_model = llm_model;
      prompt_sha256 = prompt_sha256;
      response_sha256 = response_sha256;
      rule_set_sha256 = run.rule_set_sha256;
      rule_check = RuleCheck.rejected;
      rule_check_reason = reason;
      proposed_notional = none;
      reference_price = none;
    }

-- `Action(proposal.action)` and the text of the action
abbrev pub to_action : ProposedAction → Action
to_action ProposedAction.buy = Action.buy
to_action ProposedAction.hold = Action.hold
to_action ProposedAction.skip = Action.skip

abbrev pub action_text : ProposedAction → String
action_text ProposedAction.buy = "buy"
action_text ProposedAction.hold = "hold"
action_text ProposedAction.skip = "skip"

-- a rejected decision on a proposal: that of `_non_buy_decision`, and of `_buy_decision` on an error
unfoldable pub rejected_decision :
    Run → AnalysisResult → String → LlmProposal → Action → Note → Decision
rejected_decision run analysis id proposal action reason = record {
  id = id;
  cycle_id = run.cycle_id;
  decided_at = run.now;
  mode = run.mode;
  ticker = proposal.ticker;
  action = action;
  origin = Origin.llm;
  confidence = some proposal.confidence;
  rationale = Note.text proposal.rationale;
  evidence_mention_ids = proposal.evidence_mention_ids;
  llm_model = some analysis.llm_model;
  prompt_sha256 = text_or_none analysis.prompt_sha256;
  response_sha256 = text_or_none analysis.response_sha256;
  rule_set_sha256 = run.rule_set_sha256;
  rule_check = RuleCheck.rejected;
  rule_check_reason = reason;
  proposed_notional = none;
  reference_price = none;
}

-- `_non_buy_decision`
unfoldable pub non_buy_decision : Run → AnalysisResult → String → LlmProposal → Decision
unfolding rejected_decision
non_buy_decision run analysis id proposal =
    rejected_decision run analysis id proposal (to_action proposal.action)
      (Note.llm_action (action_text proposal.action))

-- `_buy_decision`, for the outcome of the entry check
unfoldable pub buy_decision :
    {E : Type 0}
    → RuleSet
    → Run
    → AnalysisResult
    → String
    → LlmProposal
    → Result RuleRejection EntryPlan
    → Result E Decision
unfolding rejected_decision
buy_decision rules run analysis id proposal (err e) =
    ok (rejected_decision run analysis id proposal Action.buy e.reason)
buy_decision rules run analysis id proposal (raised x) = raised x
buy_decision rules run analysis id proposal (ok plan) = ok (record {
  id = id;
  cycle_id = run.cycle_id;
  decided_at = run.now;
  mode = run.mode;
  ticker = proposal.ticker;
  action = Action.buy;
  origin = Origin.llm;
  confidence = some proposal.confidence;
  rationale = Note.text proposal.rationale;
  evidence_mention_ids = proposal.evidence_mention_ids;
  llm_model = some analysis.llm_model;
  prompt_sha256 = text_or_none analysis.prompt_sha256;
  response_sha256 = text_or_none analysis.response_sha256;
  rule_set_sha256 = run.rule_set_sha256;
  rule_check = RuleCheck.passed;
  rule_check_reason =
      Note.within_limit plan.notional plan.limit rules.position.max_notional_per_ticker_pct
        rules.capital_usd;
  proposed_notional = some plan.notional;
  reference_price = some plan.reference_price;
})
