-- ===== src/Engine/Candidates/Limits.antt =====
-- What the decisions of `evaluate_candidates` can buy.
use kyo_trading_tool.Engine.Candidates.Proposals.{
  Fits, passes, Fits-count, FitsIf, decide_candidates-FitsIf,
}
use kyo_trading_tool.Prelude.{
  ◌+◌, ◌≤◌, ◌≡◌, inl, inr, arith, Bool, true, List, [], ◌∷◌, String, contains, count, length,
}
use kyo_trading_tool.Domain.Result.{Result, ok, err, raised}
use kyo_trading_tool.Domain.Models.{Mention, Evidence, Decision}
use kyo_trading_tool.Rules.Schema.{RuleSet}
use kyo_trading_tool.Ledger.Db.{Conn}
use kyo_trading_tool.Market.{MarketError, Bar, MarketDataProvider}
use kyo_trading_tool.Domain.Money.{Price}
use kyo_trading_tool.Sources.Evidence.{build_evidence, default_window_days}
use kyo_trading_tool.Engine.Candidates.{
  CandidatesError, select_candidates, PricedCandidate, Part, cons_part, price_candidates,
  price_candidate, with_prices, Run,
}
use kyo_trading_tool.Engine.Candidates.Deciding.{
  Setup, tickers_of, decide_candidates, Candidates, store_decisions, store_all, outcome_of,
  when_priced, run_at, evaluate_candidates,
}

-- the tickers of `xs` are among `ys`
abbrev Within : List String → List String → Type 0
Within xs ys = (t : String) → contains t xs ≡ true → contains t ys ≡ true

abbrev PricedIf : {S : Type 0} → List String → Part S (List PricedCandidate) → Type 0
PricedIf tickers (ok ps, _) = Within (tickers_of ps) tickers
PricedIf tickers (err _, _) = Unit {0}
PricedIf tickers (raised _, _) = Unit {0}

Within-cons : (t : String) (xs ys : List String) → Within xs ys → Within (t ∷ xs) (t ∷ ys)
Within-cons t xs ys h u k = ground (arith, h u, k)

Within-skip : (t : String) (xs ys : List String) → Within xs ys → Within xs (t ∷ ys)
Within-skip t xs ys h u k = ground (arith, h u, k)

module _ {S : Type 0} (market : MarketDataProvider S) where
  cons_part-PricedIf :
      (p : PricedCandidate) (ts : List String) (x : Part S (List PricedCandidate))
      → PricedIf ts x
      → PricedIf (p.ticker ∷ ts) (cons_part p x)
  cons_part-PricedIf p ts (ok ps, s) h = Within-cons p.ticker (tickers_of ps) ts h
  cons_part-PricedIf p ts (err e, s) h = tt
  cons_part-PricedIf p ts (raised x, s) h = tt

  skip-PricedIf :
      (t : String) (ts : List String) (x : Part S (List PricedCandidate))
      → PricedIf ts x
      → PricedIf (t ∷ ts) x
  skip-PricedIf t ts (ok ps, s) h = Within-skip t (tickers_of ps) ts h
  skip-PricedIf t ts (err e, s) h = tt
  skip-PricedIf t ts (raised x, s) h = tt

  with_prices-PricedIf :
      (t : String) (ts : List String) (k : S → Part S (List PricedCandidate))
      (x : Result MarketError Price) (y : Result MarketError (List Bar) × S)
      → ((s : S) → PricedIf ts (k s))
      → PricedIf (t ∷ ts) (with_prices market t k x y)
  unfolding with_prices
  with_prices-PricedIf t ts k (ok p) (ok bars, s) h = cons_part-PricedIf _ ts (k s) (h s)
  with_prices-PricedIf t ts k (ok p) (err m, s) h = skip-PricedIf t ts (k s) (h s)
  with_prices-PricedIf t ts k (err m) (ok bars, s) h = skip-PricedIf t ts (k s) (h s)
  with_prices-PricedIf t ts k (err m) (err n, s) h = skip-PricedIf t ts (k s) (h s)
  with_prices-PricedIf t ts k (raised x) (q, s) h = tt
  with_prices-PricedIf t ts k (ok p) (raised x, s) h = tt
  with_prices-PricedIf t ts k (err m) (raised x, s) h = tt

  price_candidate-PricedIf :
      (t : String) (ts : List String) (k : S → Part S (List PricedCandidate))
      (x : Result MarketError Price × S)
      → ((s : S) → PricedIf ts (k s))
      → PricedIf (t ∷ ts) (price_candidate market t k x)
  unfolding price_candidate
  price_candidate-PricedIf t ts k (ok p, s) h =
      with_prices-PricedIf t ts k (ok p) (market.daily_bars t s) h
  price_candidate-PricedIf t ts k (err m, s) h =
      with_prices-PricedIf t ts k (err m) (market.daily_bars t s) h
  price_candidate-PricedIf t ts k (raised x, s) h = tt

  price_candidates-PricedIf :
      (ts : List String) (s : S) → PricedIf ts (price_candidates market ts s)
  unfolding price_candidates
  price_candidates-PricedIf [] s = λ t h. h
  price_candidates-PricedIf (t ∷ ts) s =
      price_candidate-PricedIf t ts (price_candidates market ts) (market.latest_price t s)
        (price_candidates-PricedIf ts)

Fits-Within :
    (rules : RuleSet) (xs ys : List String) (market_open : Bool) (held : List String)
    (ds : List Decision)
    → Within xs ys
    → Fits rules xs market_open held ds
    → Fits rules ys market_open held ds
Fits-Within rules xs ys market_open held [] w h = tt
Fits-Within rules xs ys market_open held (d ∷ ds) w (inl (r, h)) =
    inl (r, Fits-Within rules xs ys market_open held ds w h)
Fits-Within rules xs ys market_open held (d ∷ ds) w (inr ((p, a, t, x, n, l, o), h)) =
    inr (
      (p, a, w d.ticker t, x, n, l, o),
      Fits-Within rules xs ys market_open (d.ticker ∷ held) ds w h,
    )

-- the tickers that `evaluate_candidates` selects
abbrev pub selected : {S : Type 0} → Setup S → List Mention → List String → S → List String
selected setup mentions held s =
    select_candidates (build_evidence mentions (setup.clock.now s) default_window_days) held
      setup.rules.entry.excluded_tickers

-- what a successful evaluation has decided
abbrev pub Limited : {S : Type 0} → Setup S → List String → List String → Candidates S → Type 0
Limited setup tickers held (ok ds, _, _) =
    Fits setup.rules tickers setup.market_open held ds
    × (length held ≤ setup.rules.position.max_concurrent_positions
        → length held + count passes ds ≤ setup.rules.position.max_concurrent_positions)
Limited setup tickers held (err _, _, _) = Unit {0}
Limited setup tickers held (raised _, _, _) = Unit {0}

module _ {S : Type 0} (setup : Setup S) (run : Run) (tickers held : List String) where
  outcome_of-Limited :
      (ds : List Decision) (s : S) (x : Result CandidatesError (Unit {0}) × Conn)
      → Fits setup.rules tickers setup.market_open held ds
      → Limited setup tickers held (outcome_of ds s x)
  outcome_of-Limited ds s (ok _, c) h =
      (h, Fits-count setup.rules tickers setup.market_open held ds h)
  outcome_of-Limited ds s (err e, c) h = tt
  outcome_of-Limited ds s (raised x, c) h = tt

  store_all-Limited :
      (ts : List String) (c : Conn) (x : Part S (List Decision))
      → Within ts tickers
      → FitsIf setup run ts held x
      → Limited setup tickers held (store_all c x)
  unfolding store_all
  store_all-Limited ts c (ok ds, s) w h =
      outcome_of-Limited ds s (store_decisions ds c)
        (Fits-Within setup.rules ts tickers setup.market_open held ds w h)
  store_all-Limited ts c (err e, s) w h = tt
  store_all-Limited ts c (raised x, s) w h = tt

  when_priced-Limited :
      (evidences : List Evidence) (c : Conn) (x : Part S (List PricedCandidate))
      → PricedIf tickers x
      → Limited setup tickers held (when_priced setup run evidences held c x)
  unfolding when_priced
  when_priced-Limited evidences c (ok [], s) w = (tt, λ l. omega (arith, l))
  when_priced-Limited evidences c (ok (p ∷ ps), s) w =
      store_all-Limited (tickers_of (p ∷ ps)) c
        (decide_candidates setup run setup.llm evidences (p ∷ ps) held s) w
        (decide_candidates-FitsIf setup run setup.llm evidences (p ∷ ps) held s)
  when_priced-Limited evidences c (err e, s) w = tt
  when_priced-Limited evidences c (raised x, s) w = tt

-- Whatever the LLM answers, each decision of a successful `evaluate_candidates` is rejected, or it
-- passed and buys a ticker that the code selected, that is not excluded, not held and not bought by
-- an earlier decision of the same run, while the market is open and the held tickers with those
-- bought earlier in the run are fewer than the rules allow. Hence, if no more tickers are held than
-- the rules allow, then the held tickers and the passed decisions together are no more either.
pub evaluate_candidates-Limited :
    {S : Type 0} (setup : Setup S) (mentions : List Mention) (held : List String) (c : Conn) (s : S)
    → Limited setup
        (selected setup mentions held s)
        held
        (evaluate_candidates setup mentions held c s)
unfolding evaluate_candidates
evaluate_candidates-Limited setup mentions held c s =
    when_priced-Limited setup (run_at setup (setup.clock.now s)) (selected setup mentions held s)
      held (build_evidence mentions (setup.clock.now s) default_window_days) c
      (price_candidates setup.market (selected setup mentions held s) s)
      (price_candidates-PricedIf setup.market (selected setup mentions held s) s)
