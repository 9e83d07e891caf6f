-- ===== src/Engine/Fills/Replay.antt =====
-- The replay of earlier fills keeps the shares and the average cost of the position.
use kyo_trading_tool.Prelude.{
  ℕ, ◌+◌, ◌≡◌, refl, sym, subst, ap, ◌∙◌, arith, false, Option, none, some, List, [], ◌∷◌, String,
  str_eq, ℤ, pos, ◌+ℤ◌, ◌-ℤ◌,
}
use kyo_trading_tool.Domain.Result.{Result, ok, err, raised}
use kyo_trading_tool.Domain.Money.{Price}
use kyo_trading_tool.Domain.Models.{DateTime, ExitReason, Side, Decision, Fill, Position}
use kyo_trading_tool.Ledger.Repository.{FillContext}
use kyo_trading_tool.Ledger.TradeCloser.{
  open_position, TradeCloserError, Carried, average_cost, apply_buy, apply_fill,
}
use kyo_trading_tool.Ledger.TradeCloser.Selling.{apply_sell-Sold, Sold}
use kyo_trading_tool.Engine.Fills.{
  ReplayState, replay_average, replay_buy_at, replay_sell, replay_side, replay, empty_replay,
}

-- the state that the replay has rebuilt stands for the position
abbrev pub Represents : ReplayState → Position → Type 0
Represents state p = (state.qty ≡ pos p.qty.shares) × (state.avg_cost ≡ some p.avg_cost)

pos_sum : (q f : ℕ) → pos q +ℤ pos f ≡ pos (q + f)
unfolding ◌+ℤ◌
pos_sum q f = ground arith

pos_rest : (q f r : ℕ) → r + f ≡ q → pos q -ℤ pos f ≡ pos r
unfolding ◌-ℤ◌
pos_rest q f r e = ground arith

replay_average-average_cost :
    {E : Type 0} (avg : Price) (q : ℕ) (fill : Fill)
    → replay_average {E = E} avg (pos q) fill ≡ average_cost avg q fill.price fill.qty.shares
unfolding replay_average average_cost
replay_average-average_cost avg q fill = rw (pos_sum q fill.qty.shares) refl

apply_buy-cost :
    (p p' : Position) (fill : Fill) (decision : Decision) (r : Result TradeCloserError Price)
    → average_cost p.avg_cost p.qty.shares fill.price fill.qty.shares ≡ r
    → apply_buy (some p) fill decision ≡ ok (open_position p')
    → (r ≡ ok p'.avg_cost) × (p'.qty.shares ≡ p.qty.shares + fill.qty.shares)
unfolding apply_buy
apply_buy-cost p p' fill decision (ok c) e h = ground arith
apply_buy-cost p p' fill decision (err x) e h = ground arith
apply_buy-cost p p' fill decision (raised x) e h = ground arith

replay_buy_at-ok :
    (avg c : Price) (state : ReplayState) (ctx : FillContext)
    → replay_average {E = TradeCloserError} avg state.qty ctx.fill ≡ ok c
    → replay_buy_at {E = TradeCloserError} (some avg) state ctx
      ≡ ok (record state { qty = state.qty +ℤ pos ctx.fill.qty.shares; avg_cost = some c })
unfolding replay_buy_at
replay_buy_at-ok avg c state ctx e = rw e refl

replay_buy-Represents :
    (state : ReplayState) (p p' : Position) (ctx : FillContext)
    → Represents state p
    → average_cost {E = TradeCloserError} p.avg_cost p.qty.shares ctx.fill.price ctx.fill.qty.shares
      ≡ ok p'.avg_cost
    → p'.qty.shares ≡ p.qty.shares + ctx.fill.qty.shares
    → (next : ReplayState) × (replay_side {E = TradeCloserError} Side.buy state ctx ≡ ok next)
      × Represents next p'
unfolding replay_side
replay_buy-Represents state p p' ctx (eq, ea) ec es =
    let f = ctx.fill.qty.shares in
    (
      record state { qty = state.qty +ℤ pos f; avg_cost = some p'.avg_cost },
      ap (λ (o : Option Price). replay_buy_at {E = TradeCloserError} o state ctx) ea
          ∙ replay_buy_at-ok p.avg_cost p'.avg_cost state ctx (
              ap (λ (z : ℤ). replay_average {E = TradeCloserError} p.avg_cost z ctx.fill) eq
              ∙ replay_average-average_cost p.avg_cost p.qty.shares ctx.fill
              ∙ ec),
      (ap (λ (z : ℤ). z +ℤ pos f) eq ∙ pos_sum p.qty.shares f ∙ ap pos (sym es), refl),
    )

replay_sell-Represents :
    (state : ReplayState) (p p' : Position) (ctx : FillContext)
    → Represents state p
    → p'.qty.shares + ctx.fill.qty.shares ≡ p.qty.shares
    → p'.avg_cost ≡ p.avg_cost
    → Represents (replay_sell state ctx) p'
unfolding replay_sell
replay_sell-Represents state p p' ctx (eq, ea) es ec = (
  ap (λ (z : ℤ). z -ℤ pos ctx.fill.qty.shares) eq
      ∙ pos_rest p.qty.shares ctx.fill.qty.shares p'.qty.shares es,
  ea ∙ ap some (sym ec),
)

replay_side-Represents :
    (side : Side) (state : ReplayState) (p p' : Position) (ctx : FillContext) (decision : Decision)
    (now : DateTime) (reason : Option ExitReason) (carried : Carried)
    → Represents state p
    → apply_fill (some p) ctx.fill decision side now reason carried ≡ ok (open_position p')
    → (next : ReplayState) × (replay_side {E = TradeCloserError} side state ctx ≡ ok next)
      × Represents next p'
unfolding apply_fill replay_side
replay_side-Represents Side.buy state p p' ctx decision now reason carried h e =
    let (cost, shares) = apply_buy-cost p p' ctx.fill decision _ refl e in
    replay_buy-Represents state p p' ctx h cost shares
replay_side-Represents Side.sell state p p' ctx decision now reason carried h e =
    let sold : Sold p ctx.fill decision reason carried (ok (open_position p')) =
      subst (Sold p ctx.fill decision reason carried) e
        (apply_sell-Sold p ctx.fill decision reason carried) in
    (replay_sell state ctx, refl, replay_sell-Represents state p p' ctx h sold.0 sold.2)

-- the fill was applied to a position and left it open
pub record Step (p : Position) (ctx : FillContext) (p' : Position) : Type 0 where
  pub decision : Decision
  pub now : DateTime
  pub reason : Option ExitReason
  pub carried : Carried
  pub applied :
      apply_fill (some p) ctx.fill decision ctx.side now reason carried ≡ ok (open_position p')

-- the fills were applied one after the other
abbrev pub Steps : Position → List FillContext → Position → Type 0
Steps p [] p' = p ≡ p'
Steps p (ctx ∷ rest) p' = (q : Position) × Step p ctx q × Steps q rest p'

-- none of the fills is the one to leave out
abbrev pub NotAmong : String → List FillContext → Type 0
NotAmong id [] = Unit {0}
NotAmong id (ctx ∷ rest) = (str_eq ctx.fill.id id ≡ false) × NotAmong id rest

replay-next :
    (id : String) (ctx : FillContext) (rest : List FillContext) (state next : ReplayState)
    → str_eq ctx.fill.id id ≡ false
    → replay_side {E = TradeCloserError} ctx.side state ctx ≡ ok next
    → replay {E = TradeCloserError} id (ctx ∷ rest) state ≡ replay id rest next
unfolding replay
replay-next id ctx rest state next h e = rw (h, e) refl

replay-Represents_later :
    (id : String) (history : List FillContext) (state : ReplayState) (p p' : Position)
    → NotAmong id history
    → Represents state p
    → Steps p history p'
    → (last : ReplayState) × (replay {E = TradeCloserError} id history state ≡ ok last)
      × Represents last p'
unfolding replay
replay-Represents_later id [] state p p' n h s = (state, refl, subst (Represents state) s h)
replay-Represents_later id (ctx ∷ rest) state p p' n h (q, step, steps) =
    let (next, e, hq) =
      replay_side-Represents ctx.side state p q ctx step.decision step.now step.reason step.carried
        h step.applied in
    let (last, el, hl) = replay-Represents_later id rest next q p' n.1 hq steps in
    (last, replay-next id ctx rest state next n.0 e ∙ el, hl)

opening-Represents :
    (ctx : FillContext) (p : Position) (decision : Decision)
    → ctx.side ≡ Side.buy
    → apply_buy none ctx.fill decision ≡ ok (open_position p)
    → (first : ReplayState) × (replay_side {E = TradeCloserError} ctx.side empty_replay ctx
        ≡ ok first)
      × Represents first p
unfolding replay_side replay_buy_at apply_buy
opening-Represents ctx p decision b e = (
  record empty_replay {
    entry_decision_id = some ctx.decision_id;
    qty = pos ctx.fill.qty.shares;
    avg_cost = some ctx.fill.price;
  },
  ap (λ (side : Side). replay_side {E = TradeCloserError} side empty_replay ctx) b,
  (ground arith, ground arith),
)

-- The replay of a position's history rebuilds it: where a buy opened a position and further fills
-- were applied to it one after the other, each leaving it open, the replay of those fills, none of
-- which is the fill to leave out, succeeds with the shares and the average cost of the position.
pub replay-Represents :
    (id : String) (ctx : FillContext) (history : List FillContext) (opening : Decision)
    (p p' : Position)
    → ctx.side ≡ Side.buy
    → apply_buy none ctx.fill opening ≡ ok (open_position p)
    → Steps p history p'
    → NotAmong id (ctx ∷ history)
    → (last : ReplayState) × (replay {E = TradeCloserError} id (ctx ∷ history) empty_replay
        ≡ ok last)
      × Represents last p'
replay-Represents id ctx history opening p p' b e s n =
    let (first, ef, hf) = opening-Represents ctx p opening b e in
    let (last, el, hl) = replay-Represents_later id history first p p' n.1 hf s in
    (last, replay-next id ctx history empty_replay first n.0 ef ∙ el, hl)
