-- ===== src/Engine/Holdings.antt =====
-- src/trader/engine/holdings.py: the held positions, marked to market and checked for exits.
pub mod Exits
pub mod Fractions
pub mod Orders
use Prim.Native.String.{◌++◌}
use kyo_trading_tool.Prelude.{
  ℕ, max, Option, none, some, List, [], ◌∷◌, snoc, String, str_eq, pos_part, if◌then◌else◌,
}
use kyo_trading_tool.Domain.Result.{Result, ok, err, raised}
use kyo_trading_tool.Domain.Decimal.{Decimal, of_ℕ, sub, mul, floor}
use kyo_trading_tool.Domain.Money.{Money, Price, price_amount, money, zero_money, ◌+$◌, price_lt}
use kyo_trading_tool.Domain.Models.{
  DateTime, Quantity, ExitReason, ExitSignal, Action, Origin, RuleCheck, Note, Decision, Position,
}
use kyo_trading_tool.Rules.Schema.{RuleSet}
use kyo_trading_tool.Rules.Exit.{check_exit}
use kyo_trading_tool.Ledger.Db.{Conn, LedgerError}
use kyo_trading_tool.Ledger.Repository.{insert_decision}
use kyo_trading_tool.Ledger.Portfolio.{upsert_position}
use kyo_trading_tool.Broker.{Clock, Uuids}
use kyo_trading_tool.Market.{MarketError, MarketDataProvider}

-- `HoldingsError.message` is that of the ledger
pub data HoldingsError : Type 0 where
  not_stored : LedgerError → HoldingsError

pub record HoldingsOutcome : Type 0 where
  pub positions_value : Money
  pub unrealized_pnl : Money
  pub decisions : List Decision
  pub exit_reasons : List (String × ExitReason)
  pub market_errors : List String

abbrev pub empty_holdings : HoldingsOutcome
empty_holdings = record {
  positions_value = zero_money;
  unrealized_pnl = zero_money;
  decisions = [];
  exit_reasons = [];
  market_errors = [];
}

-- `_sell_qty`: `max(1, int(floor(shares * fraction)))`
unfoldable pub sell_qty : Position → Decimal → Quantity
sell_qty position fraction = record {
  shares = max 1 (pos_part (floor (mul (of_ℕ position.qty.shares) fraction)));
}

-- the watermark rises to the price, and never falls
unfoldable pub raise_watermark : Position → Price → Position
raise_watermark position price = record position {
  high_watermark =
      if price_lt position.high_watermark price then price else position.high_watermark;
}

-- what the price adds to the totals
unfoldable pub mark : Position → Price → HoldingsOutcome → HoldingsOutcome
mark position price acc = record acc {
  positions_value =
      acc.positions_value +$ money (mul (price_amount price) (of_ℕ position.qty.shares));
  unrealized_pnl =
      acc.unrealized_pnl
      +$ money (
          mul (sub (price_amount price) (price_amount position.avg_cost))
            (of_ℕ position.qty.shares));
}

-- `exit_reasons[id] = reason`
unfoldable pub put_reason :
    String → ExitReason → List (String × ExitReason) → List (String × ExitReason)
put_reason id reason [] = (id, reason) ∷ []
put_reason id reason ((k, r) ∷ rest) =
    if str_eq k id then (id, reason) ∷ rest else (k, r) ∷ put_reason id reason rest

-- what one position leaves: the totals and decisions, the connection and the world
abbrev pub Evaluated : Type 0 → Type 0
Evaluated S = Result HoldingsError HoldingsOutcome × Conn × S

-- the rest of the loop, unless this position ended it
abbrev pub go_on :
    {S : Type 0} → (HoldingsOutcome → Conn → S → Evaluated S) → Evaluated S → Evaluated S
go_on k (ok acc, c, s) = k acc c s
go_on k (err e, c, s) = (err e, c, s)
go_on k (raised x, c, s) = (raised x, c, s)

module _ {S : Type 0} (market : MarketDataProvider S) (uuids : Uuids S) (rules : RuleSet)
    (cycle_id rule_set_sha256 mode : String) (now : DateTime) where
  -- the decision that sells
  unfoldable pub exit_decision : String → Position → Price → ExitSignal → Decision
  exit_decision id position price signal =
      let qty = sell_qty position signal.fraction in
      record {
        id = id;
        cycle_id = cycle_id;
        decided_at = now;
        mode = mode;
        ticker = position.ticker;
        action = Action.sell;
        origin = Origin.rule_exit;
        confidence = none;
        rationale =
            Note.exit_triggered signal.reason signal.trigger_price qty.shares position.qty.shares;
        evidence_mention_ids = [];
        llm_model = none;
        prompt_sha256 = none;
        response_sha256 = none;
        rule_set_sha256 = rule_set_sha256;
        rule_check = RuleCheck.passed;
        rule_check_reason = Note.exit_rule signal.reason signal.trigger_price;
        proposed_notional = some (money (mul (price_amount price) (of_ℕ qty.shares)));
        reference_price = some price;
      }

  -- after the insert of the decision
  unfoldable pub note_decision :
      Decision
      → ExitReason
      → HoldingsOutcome
      → S
      → Result LedgerError (Unit {0}) × Conn
      → Evaluated S
  note_decision decision reason acc s (ok _, c) = (
    ok (record acc {
      decisions = snoc acc.decisions decision;
      exit_reasons = put_reason decision.id reason acc.exit_reasons;
    }),
    c,
    s,
  )
  note_decision decision reason acc s (err e, c) = (err (not_stored e), c, s)
  note_decision decision reason acc s (raised x, c) = (raised x, c, s)

  -- a signal becomes a decision, which is stored
  unfoldable pub on_signal :
      Position → Price → Option ExitSignal → HoldingsOutcome → Conn → S → Evaluated S
  on_signal position price none acc c s = (ok acc, c, s)
  on_signal position price (some signal) acc c s =
      let (uuid, s') = uuids.uuid4_hex s in
      let decision = exit_decision ("dec_" ++ uuid) position price signal in
      note_decision decision signal.reason acc s' (insert_decision decision c)

  -- after the update of the position
  unfoldable pub check_position :
      Position → Price → HoldingsOutcome → S → Result LedgerError (Unit {0}) × Conn → Evaluated S
  check_position position price acc s (ok _, c) =
      on_signal position price (check_exit position price rules now) acc c s
  check_position position price acc s (err e, c) = (err (not_stored e), c, s)
  check_position position price acc s (raised x, c) = (raised x, c, s)

  -- one position, for the answer to the question of its price
  unfoldable pub evaluate_position :
      Position → HoldingsOutcome → Conn → Result MarketError Price × S → Evaluated S
  evaluate_position position acc c (ok price, s) =
      let updated = raise_watermark position price in
      check_position updated price (mark position price acc) s (upsert_position updated c)
  evaluate_position position acc c (err m, s) =
      (ok (record acc { market_errors = snoc acc.market_errors position.ticker }), c, s)
  evaluate_position position acc c (raised x, s) = (raised x, c, s)

  -- the loop
  unfoldable pub evaluate_positions : List Position → HoldingsOutcome → Conn → S → Evaluated S
  evaluate_positions [] acc c s = (ok acc, c, s)
  evaluate_positions (position ∷ rest) acc c s =
      go_on (evaluate_positions rest)
        (evaluate_position position acc c (market.latest_price position.ticker s))

-- `evaluate_holdings`: the time is read once
unfoldable pub evaluate_holdings :
    {S : Type 0}
    → MarketDataProvider S
    → Clock S
    → Uuids S
    → RuleSet
    → String
    → String
    → String
    → List Position
    → Conn
    → S
    → Evaluated S
evaluate_holdings market clock uuids rules cycle_id rule_set_sha256 mode positions c s =
    evaluate_positions market uuids rules cycle_id rule_set_sha256 mode (clock.now s) positions
      empty_holdings c s
