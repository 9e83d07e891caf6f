-- ===== src/Engine/Candidates/Proposals.antt =====
-- What the decisions on proposals can buy, each in its turn.
use kyo_trading_tool.Prelude.{subst, if◌then◌else◌}
use Prim.Native.String.{◌++◌}
use kyo_trading_tool.Prelude.{
  ◌+◌, ◌≤◌, ◌<◌, ◌≡◌, ◌⊎◌, inl, inr, refl, arith, Bool, true, false, Option, none, some, List, [],
  ◌∷◌, String, contains, count, length,
}
use kyo_trading_tool.Domain.Result.{Result, ok, err, raised}
use kyo_trading_tool.Domain.Models.{Evidence, Action, RuleCheck, Note, Decision, is_passed}
use kyo_trading_tool.Rules.Schema.{RuleSet}
use kyo_trading_tool.Rules.Entry.{EntryPlan, RuleRejection, check_entry}
use kyo_trading_tool.Rules.Entry.Sizing.{check_entry_iff}
use kyo_trading_tool.Analysis.Prompt.{rules_summary, build_prompt}
use kyo_trading_tool.Analysis.Output.{LlmProposal, ProposedAction}
use kyo_trading_tool.Analysis.Analyst.{LlmClient, AnalysisResult, propose}
use kyo_trading_tool.Analysis.Analyst.Adopted.{AllOn, Adopted, propose-Adopted}
use kyo_trading_tool.Engine.Candidates.{
  CandidatesError, PricedCandidate, find_priced, find_evidence, ids_of, text_or_none, Part,
  cons_part, Run, skip_decision, non_buy_decision, rejected_decision, buy_decision,
}
use kyo_trading_tool.Engine.Candidates.Deciding.{
  Setup, grown, and_rest, tickers_of, bars_of, evidences_for, checked_buy, decide_buy,
  decide_by_action, decide_proposals, record_skip_all, decide_on, after_analysis, ask,
  decide_candidates,
}

-- A decision that passed: it buys one of the tickers, which is neither excluded nor held, while the
-- market is open and a slot is free.
abbrev pub Bought : RuleSet → List String → Bool → List String → Decision → Type 0
Bought rules tickers market_open held d =
    (d.rule_check ≡ RuleCheck.passed)
    × (d.action ≡ Action.buy)
    × (contains d.ticker tickers ≡ true)
    × (contains d.ticker rules.entry.excluded_tickers ≡ false)
    × (contains d.ticker held ≡ false)
    × (length held < rules.position.max_concurrent_positions)
    × (market_open ≡ true)

-- one decision: rejected, or passed at its turn
abbrev Checked : RuleSet → List String → Bool → List String → Decision → Type 0
Checked rules tickers market_open held d =
    (d.rule_check ≡ RuleCheck.rejected) ⊎ Bought rules tickers market_open held d

-- each decision in turn, with the tickers that the earlier ones buy held beside those held before
abbrev pub Fits : RuleSet → List String → Bool → List String → List Decision → Type 0
Fits rules tickers market_open held [] = Unit {0}
Fits rules tickers market_open held (d ∷ ds) =
    ((d.rule_check ≡ RuleCheck.rejected) × Fits rules tickers market_open held ds)
    ⊎ (Bought rules tickers market_open held d
        × Fits rules tickers market_open (d.ticker ∷ held) ds)

-- one decision, and those after it
Fits-cons :
    (rules : RuleSet) (tickers : List String) (market_open : Bool) (held : List String)
    (d : Decision) (ds : List Decision)
    → Checked rules tickers market_open held d
    → Fits rules tickers market_open (grown held d) ds
    → Fits rules tickers market_open held (d ∷ ds)
Fits-cons rules tickers market_open held d ds (inl r) h = inl (
  r,
  subst (λ c. Fits rules tickers market_open (if is_passed c then d.ticker ∷ held else held) ds) r
      h,
)
Fits-cons rules tickers market_open held d ds (inr b) h = inr (
  b,
  subst (λ c. Fits rules tickers market_open (if is_passed c then d.ticker ∷ held else held) ds) b.0
      h,
)

abbrev pub passes : Decision → Bool
passes d = is_passed d.rule_check

pub Fits-count :
    (rules : RuleSet) (tickers : List String) (market_open : Bool) (held : List String)
    (ds : List Decision)
    → Fits rules tickers market_open held ds
    → length held ≤ rules.position.max_concurrent_positions
    → length held + count passes ds ≤ rules.position.max_concurrent_positions
Fits-count rules tickers market_open held [] h l = omega (arith, l)
Fits-count rules tickers market_open held (d ∷ ds) (inl (r, h)) l =
    ground (arith, r, Fits-count rules tickers market_open held ds)
Fits-count rules tickers market_open held (d ∷ ds) (inr (b, h)) l =
    ground (arith, b.0, b.5, Fits-count rules tickers market_open (d.ticker ∷ held) ds)

module _ {S : Type 0} (setup : Setup S) (run : Run) (tickers : List String) where
  abbrev CheckedIf : List String → Part S Decision → Type 0
  CheckedIf held (ok d, _) = Checked setup.rules tickers setup.market_open held d
  CheckedIf held (err _, _) = Unit {0}
  CheckedIf held (raised _, _) = Unit {0}

  abbrev pub FitsIf : List String → Part S (List Decision) → Type 0
  FitsIf held (ok ds, _) = Fits setup.rules tickers setup.market_open held ds
  FitsIf held (err _, _) = Unit {0}
  FitsIf held (raised _, _) = Unit {0}

  cons_part-FitsIf :
      (held : List String) (d : Decision) (x : Part S (List Decision))
      → Checked setup.rules tickers setup.market_open held d
      → FitsIf (grown held d) x
      → FitsIf held (cons_part d x)
  cons_part-FitsIf held d (ok ds, s) h k =
      Fits-cons setup.rules tickers setup.market_open held d ds h k
  cons_part-FitsIf held d (err e, s) h k = tt
  cons_part-FitsIf held d (raised x, s) h k = tt

  and_rest-FitsIf :
      (held : List String) (k : List String → S → Part S (List Decision)) (x : Part S Decision)
      → CheckedIf held x
      → ((held' : List String) (s : S) → FitsIf held' (k held' s))
      → FitsIf held (and_rest held k x)
  and_rest-FitsIf held k (ok d, s) h f =
      cons_part-FitsIf held d (k (grown held d) s) h (f (grown held d) s)
  and_rest-FitsIf held k (err e, s) h f = tt
  and_rest-FitsIf held k (raised x, s) h f = tt

  checked_buy-CheckedIf :
      (analysis : AnalysisResult) (p : LlmProposal) (held : List String) (priced : PricedCandidate)
      (x : Result RuleRejection EntryPlan) (s : S)
      → contains p.ticker tickers ≡ true
      → check_entry p.ticker setup.rules setup.limits held setup.market_open priced.latest_price
          priced.avg_volume setup.loss_breach
        ≡ x
      → CheckedIf held (checked_buy setup run analysis p x s)
  unfolding checked_buy buy_decision rejected_decision
  checked_buy-CheckedIf analysis p held priced (raised x) s h e = tt
  checked_buy-CheckedIf analysis p held priced (err r) s h e = inl refl
  checked_buy-CheckedIf analysis p held priced (ok plan) s h e =
      let (eligible, sized) =
        (check_entry_iff p.ticker setup.rules setup.limits held setup.market_open
            priced.latest_price priced.avg_volume setup.loss_breach plan).0
          e in
      inr (
        refl, refl, h, eligible.not_excluded, eligible.not_held, eligible.slot_free,
        eligible.open_market,
      )

  decide_buy-CheckedIf :
      (analysis : AnalysisResult) (p : LlmProposal) (held : List String)
      (o : Option PricedCandidate) (s : S)
      → contains p.ticker tickers ≡ true
      → CheckedIf held (decide_buy setup run analysis p held o s)
  unfolding decide_buy
  decide_buy-CheckedIf analysis p held none s h = tt
  decide_buy-CheckedIf analysis p held (some priced) s h =
      checked_buy-CheckedIf analysis p held priced _ s h refl

  decide_by_action-CheckedIf :
      (a : ProposedAction) (analysis : AnalysisResult) (p : LlmProposal) (held : List String)
      (priced : List PricedCandidate) (s : S)
      → contains p.ticker tickers ≡ true
      → CheckedIf held (decide_by_action setup run a analysis p held priced s)
  unfolding decide_by_action non_buy_decision rejected_decision
  decide_by_action-CheckedIf ProposedAction.buy analysis p held priced s h =
      decide_buy-CheckedIf analysis p held (find_priced p.ticker priced) s h
  decide_by_action-CheckedIf ProposedAction.hold analysis p held priced s h = inl refl
  decide_by_action-CheckedIf ProposedAction.skip analysis p held priced s h = inl refl

  decide_proposals-FitsIf :
      (analysis : AnalysisResult) (priced : List PricedCandidate) (ps : List LlmProposal)
      (held : List String) (s : S)
      → AllOn tickers ps
      → FitsIf held (decide_proposals setup run analysis priced ps held s)
  unfolding decide_proposals
  decide_proposals-FitsIf analysis priced [] held s h = tt
  decide_proposals-FitsIf analysis priced (p ∷ ps) held s h =
      and_rest-FitsIf held (decide_proposals setup run analysis priced ps)
        (decide_by_action setup run p.action analysis p held priced s)
        (decide_by_action-CheckedIf p.action analysis p held priced s h.0)
        (λ held' s'. decide_proposals-FitsIf analysis priced ps held' s' h.1)

  record_skip_all-FitsIf :
      (evidences : List Evidence) (reason : Note) (m p r : Option String) (ts : List String)
      (held : List String) (s : S)
      → FitsIf held (record_skip_all setup run evidences reason m p r ts s)
  unfolding record_skip_all skip_decision
  record_skip_all-FitsIf evidences reason m p r [] held s = tt
  record_skip_all-FitsIf evidences reason m p r (t ∷ ts) held s =
      let (uuid, s') = setup.uuids.uuid4_hex s in
      cons_part-FitsIf held
        (skip_decision run ("dec_" ++ uuid) t reason m p r (ids_of (find_evidence evidences t)))
        (record_skip_all setup run evidences reason m p r ts s') (inl refl)
        (record_skip_all-FitsIf evidences reason m p r ts held s')

  after_analysis-FitsIf :
      (evidences : List Evidence) (priced : List PricedCandidate) (held : List String)
      (x : Part S AnalysisResult)
      → Adopted tickers x
      → FitsIf held (after_analysis setup run evidences priced held x)
  unfolding after_analysis decide_on
  after_analysis-FitsIf evidences priced held (ok a, s) h = by_reason a.skipped_reason
    where
      by_reason : (o : Option Note) → FitsIf held (decide_on setup run evidences priced held a o s)
      by_reason (some reason) =
          record_skip_all-FitsIf evidences reason (some a.llm_model) (text_or_none a.prompt_sha256)
            (text_or_none a.response_sha256) (tickers_of priced) held s
      by_reason none = decide_proposals-FitsIf a priced a.proposals held s h
  after_analysis-FitsIf evidences priced held (err e, s) h = tt
  after_analysis-FitsIf evidences priced held (raised x, s) h = tt

module _ {S : Type 0} (setup : Setup S) (run : Run) where
  ask-FitsIf :
      (llm : LlmClient S) (evidences : List Evidence) (priced : List PricedCandidate)
      (held : List String) (x : Result CandidatesError (List Evidence)) (s : S)
      → FitsIf setup run (tickers_of priced) held (ask setup run llm evidences priced held x s)
  unfolding ask
  ask-FitsIf llm evidences priced held (ok shown) s =
      let prompt =
        build_prompt (rules_summary setup.rules setup.limits) shown (bars_of priced)
          (tickers_of priced) in
      after_analysis-FitsIf setup run (tickers_of priced) evidences priced held
        (propose setup.reader llm prompt (tickers_of priced) s)
        (propose-Adopted CandidatesError setup.reader llm prompt (tickers_of priced) s)
  ask-FitsIf llm evidences priced held (err e) s = tt
  ask-FitsIf llm evidences priced held (raised x) s = tt

  pub decide_candidates-FitsIf :
      (o : Option (LlmClient S)) (evidences : List Evidence) (priced : List PricedCandidate)
      (held : List String) (s : S)
      → FitsIf setup run
          (tickers_of priced)
          held
          (decide_candidates setup run o evidences priced held s)
  unfolding decide_candidates
  decide_candidates-FitsIf none evidences priced held s =
      record_skip_all-FitsIf setup run (tickers_of priced) evidences _ none none none
        (tickers_of priced) held s
  decide_candidates-FitsIf (some llm) evidences priced held s =
      ask-FitsIf llm evidences priced held (evidences_for evidences (tickers_of priced)) s
