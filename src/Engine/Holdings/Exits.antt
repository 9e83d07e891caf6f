-- ===== src/Engine/Holdings/Exits.antt =====
-- What the decisions of the holdings sell: some shares of a held position, and no more than it has.
use Prim.Native.String.{◌++◌}
use kyo_trading_tool.Prelude.{
  ℕ, ◌≤◌, ◌≡◌, ◌⊎◌, inl, inr, refl, true, Option, none, some, List, [], ◌∷◌, snoc, String,
}
use kyo_trading_tool.Domain.Result.{Result, ok, err, raised}
use kyo_trading_tool.Domain.Decimal.{of_ℕ, mul, leb_dec}
use kyo_trading_tool.Domain.Money.{Price, price_amount, money}
use kyo_trading_tool.Domain.Models.{
  DateTime, ExitReason, ExitSignal, Action, Origin, RuleCheck, Decision, Position,
}
use kyo_trading_tool.Rules.Schema.{RuleSet, exit_valid}
use kyo_trading_tool.Rules.Exit.{check_exit}
use kyo_trading_tool.Ledger.Db.{Conn, LedgerError}
use kyo_trading_tool.Ledger.Repository.{insert_decision}
use kyo_trading_tool.Ledger.Portfolio.{upsert_position}
use kyo_trading_tool.Broker.{Clock, Uuids}
use kyo_trading_tool.Market.{MarketError, MarketDataProvider}
use kyo_trading_tool.Engine.Holdings.{
  HoldingsOutcome, empty_holdings, Evaluated, sell_qty, raise_watermark, mark, go_on, exit_decision,
  note_decision, on_signal, check_position, evaluate_position, evaluate_positions,
  evaluate_holdings,
}
use kyo_trading_tool.Engine.Holdings.Fractions.{sell_qty-bounds, signal-fraction}

-- The decision sells at least one share of the position and no more than it has, at a price, by a
-- rule, and its notional is that of the shares.
abbrev pub Sells : Position → Decision → Type 0
Sells p d =
    (d.ticker ≡ p.ticker)
    × (d.action ≡ Action.sell)
    × (d.origin ≡ Origin.rule_exit)
    × (d.rule_check ≡ RuleCheck.passed)
    × ((n : ℕ) × (1 ≤ n)
        × (n ≤ p.qty.shares)
        × ((price : Price) × (d.reference_price ≡ some price)
            × (d.proposed_notional ≡ some (money (mul (price_amount price) (of_ℕ n))))))

-- it sells one of the positions
abbrev pub SellsOne : List Position → Decision → Type 0
SellsOne [] d = ⊥
SellsOne (p ∷ ps) d = Sells p d ⊎ SellsOne ps d

abbrev pub AllSell : List Position → List Decision → Type 0
AllSell ps [] = Unit {0}
AllSell ps (d ∷ ds) = SellsOne ps d × AllSell ps ds

-- a position that is held has a share at least
abbrev pub AllHeld : List Position → Type 0
AllHeld [] = Unit {0}
AllHeld (p ∷ ps) = (1 ≤ p.qty.shares) × AllHeld ps

-- what holds of the decisions where the evaluation succeeds
abbrev pub Decided : {S : Type 0} → List Position → Evaluated S → Type 0
Decided ps (ok acc, _, _) = AllSell ps acc.decisions
Decided ps (err _, _, _) = Unit {0}
Decided ps (raised _, _, _) = Unit {0}

AllSell-snoc :
    (ps : List Position) (ds : List Decision) (d : Decision)
    → AllSell ps ds
    → SellsOne ps d
    → AllSell ps (snoc ds d)
AllSell-snoc ps [] d h k = (k, tt)
AllSell-snoc ps (e ∷ ds) d h k = (h.0, AllSell-snoc ps ds d h.1 k)

module _ {S : Type 0} (market : MarketDataProvider S) (uuids : Uuids S) (rules : RuleSet)
    (cycle_id rule_set_sha256 mode : String) (now : DateTime)
    (valid : exit_valid rules.exit ≡ true) where
  exit_decision-Sells :
      (id : String) (p : Position) (price : Price) (s : ExitSignal)
      → 1 ≤ p.qty.shares
      → leb_dec s.fraction (of_ℕ 1) ≡ true
      → Sells p (
          exit_decision market uuids rules cycle_id rule_set_sha256 mode now id
            (raise_watermark p price)
            price
            s)
  unfolding exit_decision raise_watermark
  exit_decision-Sells id p price s h k =
      let (least, most) = sell_qty-bounds (raise_watermark p price) s.fraction h k in
      (
        refl,
        refl,
        refl,
        refl,
        ((sell_qty (raise_watermark p price) s.fraction).shares, least, most, (price, refl, refl)),
      )

  note_decision-Decided :
      (ps : List Position) (d : Decision) (r : ExitReason) (acc : HoldingsOutcome) (s : S)
      (x : Result LedgerError (Unit {0}) × Conn)
      → AllSell ps acc.decisions
      → SellsOne ps d
      → Decided ps (note_decision market uuids rules cycle_id rule_set_sha256 mode now d r acc s x)
  unfolding note_decision
  note_decision-Decided ps d r acc s (ok _, c) h k = AllSell-snoc ps acc.decisions d h k
  note_decision-Decided ps d r acc s (err e, c) h k = tt
  note_decision-Decided ps d r acc s (raised x, c) h k = tt

  on_signal-Decided :
      (ps : List Position) (p : Position) (price : Price) (o : Option ExitSignal)
      (acc : HoldingsOutcome) (c : Conn) (s : S)
      → ((signal : ExitSignal) → o ≡ some signal → leb_dec signal.fraction (of_ℕ 1) ≡ true)
      → ((d : Decision) → Sells p d → SellsOne ps d)
      → 1 ≤ p.qty.shares
      → AllSell ps acc.decisions
      → Decided ps (
          on_signal market uuids rules cycle_id rule_set_sha256 mode now
            (raise_watermark p price)
            price
            o
            acc
            c
            s)
  unfolding on_signal
  on_signal-Decided ps p price none acc c s f k held h = h
  on_signal-Decided ps p price (some signal) acc c s f k held h =
      let id = "dec_" ++ (uuids.uuid4_hex s).0 in
      let d =
        exit_decision market uuids rules cycle_id rule_set_sha256 mode now id
          (raise_watermark p price) price signal in
      note_decision-Decided ps d signal.reason acc (uuids.uuid4_hex s).1 (insert_decision d c) h
        (k d (exit_decision-Sells id p price signal held (f signal refl)))

  check_position-Decided :
      (ps : List Position) (p : Position) (price : Price) (acc : HoldingsOutcome) (s : S)
      (x : Result LedgerError (Unit {0}) × Conn)
      → ((d : Decision) → Sells p d → SellsOne ps d)
      → 1 ≤ p.qty.shares
      → AllSell ps acc.decisions
      → Decided ps (
          check_position market uuids rules cycle_id rule_set_sha256 mode now
            (raise_watermark p price)
            price
            acc
            s
            x)
  unfolding check_position
  check_position-Decided ps p price acc s (ok _, c) k held h =
      on_signal-Decided ps p price (check_exit (raise_watermark p price) price rules now) acc c s
        (λ signal e. signal-fraction (raise_watermark p price) price rules now signal valid e) k
        held h
  check_position-Decided ps p price acc s (err e, c) k held h = tt
  check_position-Decided ps p price acc s (raised x, c) k held h = tt

  evaluate_position-Decided :
      (ps : List Position) (p : Position) (acc : HoldingsOutcome) (c : Conn)
      (x : Result MarketError Price × S)
      → ((d : Decision) → Sells p d → SellsOne ps d)
      → 1 ≤ p.qty.shares
      → AllSell ps acc.decisions
      → Decided ps
          (evaluate_position market uuids rules cycle_id rule_set_sha256 mode now p acc c x)
  unfolding evaluate_position mark
  evaluate_position-Decided ps p acc c (ok price, s) k held h =
      check_position-Decided ps p price (mark p price acc) s
        (upsert_position (raise_watermark p price) c) k held h
  evaluate_position-Decided ps p acc c (err m, s) k held h = h
  evaluate_position-Decided ps p acc c (raised x, s) k held h = tt

  go_on-Decided :
      (ps : List Position) (k : HoldingsOutcome → Conn → S → Evaluated S) (x : Evaluated S)
      → Decided ps x
      → ((acc : HoldingsOutcome) (c : Conn) (s : S)
          → AllSell ps acc.decisions
          → Decided ps (k acc c s))
      → Decided ps (go_on k x)
  go_on-Decided ps k (ok acc, c, s) h f = f acc c s h
  go_on-Decided ps k (err e, c, s) h f = tt
  go_on-Decided ps k (raised x, c, s) h f = tt

  evaluate_positions-Decided :
      (ps rest : List Position) (acc : HoldingsOutcome) (c : Conn) (s : S)
      → ((d : Decision) → SellsOne rest d → SellsOne ps d)
      → AllHeld rest
      → AllSell ps acc.decisions
      → Decided ps
          (evaluate_positions market uuids rules cycle_id rule_set_sha256 mode now rest acc c s)
  unfolding evaluate_positions
  evaluate_positions-Decided ps [] acc c s k held h = h
  evaluate_positions-Decided ps (p ∷ rest) acc c s k held h =
      go_on-Decided ps
        (evaluate_positions market uuids rules cycle_id rule_set_sha256 mode now rest)
        (evaluate_position market uuids rules cycle_id rule_set_sha256 mode now p acc c
          (market.latest_price p.ticker s))
        (evaluate_position-Decided ps p acc c (market.latest_price p.ticker s) (λ d e. k d (inl e))
          held.0 h)
        (λ acc' c' s' h'.
          evaluate_positions-Decided ps rest acc' c' s' (λ d e. k d (inr e)) held.1 h')

-- Under valid rules and for positions of at least one share each, every decision of a successful
-- `evaluate_holdings` is a passed rule exit that sells one of the positions: at least one share, no
-- more than the position has, with the notional of these shares at the reference price.
pub evaluate_holdings-Decided :
    {S : Type 0} (market : MarketDataProvider S) (clock : Clock S) (uuids : Uuids S)
    (rules : RuleSet) (cycle_id rule_set_sha256 mode : String) (positions : List Position)
    (c : Conn) (s : S)
    → exit_valid rules.exit ≡ true
    → AllHeld positions
    → Decided positions
        (evaluate_holdings market clock uuids rules cycle_id rule_set_sha256 mode positions c s)
unfolding evaluate_holdings
evaluate_holdings-Decided market clock uuids rules cycle_id rule_set_sha256 mode positions c s valid
      held =
    evaluate_positions-Decided market uuids rules cycle_id rule_set_sha256 mode (clock.now s) valid
      positions positions empty_holdings c s (λ d e. e) held tt
