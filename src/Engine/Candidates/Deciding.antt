-- ===== src/Engine/Candidates/Deciding.antt =====
-- `evaluate_candidates` of src/trader/engine/candidates.py: the candidates are priced, the LLM is
-- asked once, its proposals are checked, and the decisions are stored.
use Prim.Native.String.{◌++◌}
use kyo_trading_tool.Prelude.{Bool, Option, none, some, List, [], ◌∷◌, map, String, if◌then◌else◌}
use kyo_trading_tool.Domain.Result.{Result, ok, err, raised, key_error, ◌>>=◌}
use kyo_trading_tool.Domain.Models.{DateTime, Mention, Evidence, Note, Decision, is_passed}
use kyo_trading_tool.Rules.Schema.{RuleSet, DerivedLimits}
use kyo_trading_tool.Rules.Loss.{LossLimitBreach}
use kyo_trading_tool.Rules.Entry.{EntryPlan, RuleRejection, check_entry}
use kyo_trading_tool.Ledger.Db.{Conn, LedgerError}
use kyo_trading_tool.Ledger.Repository.{insert_decision}
use kyo_trading_tool.Broker.{Clock, Uuids}
use kyo_trading_tool.Market.{Bar, MarketDataProvider}
use kyo_trading_tool.Sources.Evidence.{build_evidence, default_window_days}
use kyo_trading_tool.Analysis.Prompt.{rules_summary, build_prompt}
use kyo_trading_tool.Analysis.Output.{LlmProposal, ProposedAction, Reader}
use kyo_trading_tool.Analysis.Analyst.{LlmClient, AnalysisResult, propose}
use kyo_trading_tool.Engine.Candidates.{
  CandidatesError, not_stored, CandidatesOutcome, select_candidates, PricedCandidate, find_priced,
  find_evidence, ids_of, text_or_none, Part, cons_part, price_candidates, Run, skip_decision,
  non_buy_decision, buy_decision,
}

-- the arguments of `evaluate_candidates` that do not change
pub record Setup (S : Type 0) : Type 0 where
  pub market : MarketDataProvider S
  pub llm : Option (LlmClient S)
  pub reader : Reader
  pub rules : RuleSet
  pub limits : DerivedLimits
  pub clock : Clock S
  pub uuids : Uuids S
  pub cycle_id : String
  pub rule_set_sha256 : String
  pub mode : String
  pub loss_breach : Option LossLimitBreach
  pub market_open : Bool

-- `batch_held_tickers` after a decision
abbrev pub grown : List String → Decision → List String
grown held d = if is_passed d.rule_check then d.ticker ∷ held else held

-- the rest of the loop, after one decision
abbrev pub and_rest :
    {S : Type 0}
    → List String
    → (List String → S → Part S (List Decision))
    → Part S Decision
    → Part S (List Decision)
and_rest held k (ok d, s) = cons_part d (k (grown held d) s)
and_rest held k (err e, s) = (err e, s)
and_rest held k (raised x, s) = (raised x, s)

-- the tickers and the bars of the final candidates
abbrev pub tickers_of : List PricedCandidate → List String
tickers_of = map (λ (p : PricedCandidate). p.ticker)

abbrev pub bars_of : List PricedCandidate → List (String × List Bar)
bars_of = map (λ (p : PricedCandidate). (p.ticker, p.bars))

abbrev pub cons_evidence :
    Option Evidence
    → Result CandidatesError (List Evidence)
    → Result CandidatesError (List Evidence)
cons_evidence none es = raised key_error
cons_evidence (some e) es = es >>= λ rest. ok (e ∷ rest)

-- `evidence_by_ticker[t] for t in final_candidates`
unfoldable pub evidences_for : List Evidence → List String → Result CandidatesError (List Evidence)
evidences_for evidences [] = ok []
evidences_for evidences (t ∷ ts) =
    cons_evidence (find_evidence evidences t) (evidences_for evidences ts)

module _ {S : Type 0} (setup : Setup S) (run : Run) where
  -- after the entry check: the decision with a fresh id
  unfoldable pub checked_buy :
      AnalysisResult → LlmProposal → Result RuleRejection EntryPlan → S → Part S Decision
  checked_buy analysis proposal (raised x) s = (raised x, s)
  checked_buy analysis proposal (err e) s =
      let (uuid, s') = setup.uuids.uuid4_hex s in
      (buy_decision setup.rules run analysis ("dec_" ++ uuid) proposal (err e), s')
  checked_buy analysis proposal (ok plan) s =
      let (uuid, s') = setup.uuids.uuid4_hex s in
      (buy_decision setup.rules run analysis ("dec_" ++ uuid) proposal (ok plan), s')

  -- a proposal to buy, at its price
  unfoldable pub decide_buy :
      AnalysisResult → LlmProposal → List String → Option PricedCandidate → S → Part S Decision
  decide_buy analysis proposal held none s = (raised key_error, s)
  decide_buy analysis proposal held (some p) s =
      checked_buy analysis proposal
        (check_entry proposal.ticker setup.rules setup.limits held setup.market_open p.latest_price
          p.avg_volume setup.loss_breach)
        s

  abbrev pub decide_non_buy : AnalysisResult → LlmProposal → S → Part S Decision
  decide_non_buy analysis proposal s =
      let (uuid, s') = setup.uuids.uuid4_hex s in
      (ok (non_buy_decision run analysis ("dec_" ++ uuid) proposal), s')

  -- `if proposal.action != "buy"`
  unfoldable pub decide_by_action :
      ProposedAction
      → AnalysisResult
      → LlmProposal
      → List String
      → List PricedCandidate
      → S
      → Part S Decision
  decide_by_action ProposedAction.buy analysis proposal held priced s =
      decide_buy analysis proposal held (find_priced proposal.ticker priced) s
  decide_by_action ProposedAction.hold analysis proposal held priced s =
      decide_non_buy analysis proposal s
  decide_by_action ProposedAction.skip analysis proposal held priced s =
      decide_non_buy analysis proposal s

  -- the loop over the proposals
  unfoldable pub decide_proposals :
      AnalysisResult
      → List PricedCandidate
      → List LlmProposal
      → List String
      → S
      → Part S (List Decision)
  decide_proposals analysis priced [] held s = (ok [], s)
  decide_proposals analysis priced (proposal ∷ proposals) held s =
      and_rest held (decide_proposals analysis priced proposals)
        (decide_by_action proposal.action analysis proposal held priced s)

  -- `_record_skip_all`
  unfoldable pub record_skip_all :
      List Evidence
      → Note
      → Option String
      → Option String
      → Option String
      → List String
      → S
      → Part S (List Decision)
  record_skip_all evidences reason llm_model p_sha r_sha [] s = (ok [], s)
  record_skip_all evidences reason llm_model p_sha r_sha (ticker ∷ tickers) s =
      let (uuid, s') = setup.uuids.uuid4_hex s in
      cons_part
        (skip_decision run ("dec_" ++ uuid) ticker reason llm_model p_sha r_sha
          (ids_of (find_evidence evidences ticker)))
        (record_skip_all evidences reason llm_model p_sha r_sha tickers s')

  -- `if analysis.skipped_reason is not None`
  unfoldable pub decide_on :
      List Evidence
      → List PricedCandidate
      → List String
      → AnalysisResult
      → Option Note
      → S
      → Part S (List Decision)
  decide_on evidences priced held analysis (some reason) s =
      record_skip_all evidences reason (some analysis.llm_model)
        (text_or_none analysis.prompt_sha256) (text_or_none analysis.response_sha256)
        (tickers_of priced) s
  decide_on evidences priced held analysis none s =
      decide_proposals analysis priced analysis.proposals held s

  -- after the call of `propose`
  unfoldable pub after_analysis :
      List Evidence
      → List PricedCandidate
      → List String
      → Part S AnalysisResult
      → Part S (List Decision)
  after_analysis evidences priced held (ok analysis, s) =
      decide_on evidences priced held analysis analysis.skipped_reason s
  after_analysis evidences priced held (err e, s) = (err e, s)
  after_analysis evidences priced held (raised x, s) = (raised x, s)

  -- the prompt and the call
  unfoldable pub ask :
      LlmClient S
      → List Evidence
      → List PricedCandidate
      → List String
      → Result CandidatesError (List Evidence)
      → S
      → Part S (List Decision)
  ask llm evidences priced held (ok shown) s =
      let prompt =
        build_prompt (rules_summary setup.rules setup.limits) shown (bars_of priced)
          (tickers_of priced) in
      after_analysis evidences priced held (propose setup.reader llm prompt (tickers_of priced) s)
  ask llm evidences priced held (err e) s = (err e, s)
  ask llm evidences priced held (raised x) s = (raised x, s)

  -- `if llm is None`
  unfoldable pub decide_candidates :
      Option (LlmClient S)
      → List Evidence
      → List PricedCandidate
      → List String
      → S
      → Part S (List Decision)
  decide_candidates none evidences priced held s =
      record_skip_all evidences (Note.text "no llm client configured") none none none
        (tickers_of priced) s
  decide_candidates (some llm) evidences priced held s =
      ask llm evidences priced held (evidences_for evidences (tickers_of priced)) s

-- what the evaluation returns, with the connection and the world outside
abbrev pub Candidates : Type 0 → Type 0
Candidates S = Result CandidatesError CandidatesOutcome × Conn × S

-- the rest of the inserts, unless one failed
abbrev pub and_insert :
    (Conn → Result CandidatesError (Unit {0}) × Conn)
    → Result LedgerError (Unit {0}) × Conn
    → Result CandidatesError (Unit {0}) × Conn
and_insert k (ok _, c) = k c
and_insert k (err e, c) = (err (not_stored e), c)
and_insert k (raised x, c) = (raised x, c)

-- the loop of the inserts
unfoldable pub store_decisions : List Decision → Conn → Result CandidatesError (Unit {0}) × Conn
store_decisions [] c = (ok tt, c)
store_decisions (d ∷ ds) c = and_insert (store_decisions ds) (insert_decision d c)

abbrev pub outcome_of :
    {S : Type 0} → List Decision → S → Result CandidatesError (Unit {0}) × Conn → Candidates S
outcome_of decisions s (ok _, c) = (ok decisions, c, s)
outcome_of decisions s (err e, c) = (err e, c, s)
outcome_of decisions s (raised x, c) = (raised x, c, s)

unfoldable pub store_all : {S : Type 0} → Conn → Part S (List Decision) → Candidates S
store_all c (ok decisions, s) = outcome_of decisions s (store_decisions decisions c)
store_all c (err e, s) = (err e, c, s)
store_all c (raised x, s) = (raised x, c, s)

-- `if not final_candidates`
unfoldable pub when_priced :
    {S : Type 0}
    → Setup S
    → Run
    → List Evidence
    → List String
    → Conn
    → Part S (List PricedCandidate)
    → Candidates S
when_priced setup run evidences held c (ok [], s) = (ok [], c, s)
when_priced setup run evidences held c (ok (p ∷ ps), s) =
    store_all c (decide_candidates setup run setup.llm evidences (p ∷ ps) held s)
when_priced setup run evidences held c (err e, s) = (err e, c, s)
when_priced setup run evidences held c (raised x, s) = (raised x, c, s)

abbrev pub run_at : {S : Type 0} → Setup S → DateTime → Run
run_at setup now = record {
  cycle_id = setup.cycle_id;
  now = now;
  mode = setup.mode;
  rule_set_sha256 = setup.rule_set_sha256;
}

-- `held_tickers` is a set, a list with no ticker twice
unfoldable pub evaluate_candidates :
    {S : Type 0} → Setup S → List Mention → List String → Conn → S → Candidates S
evaluate_candidates setup mentions held_tickers c s =
    let now = setup.clock.now s in
    let evidences = build_evidence mentions now default_window_days in
    let tickers = select_candidates evidences held_tickers setup.rules.entry.excluded_tickers in
    when_priced setup (run_at setup now) evidences held_tickers c
      (price_candidates setup.market tickers s)
