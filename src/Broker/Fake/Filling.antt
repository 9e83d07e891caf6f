-- ===== src/Broker/Fake/Filling.antt =====
-- An order of the fake broker fills up, and never beyond what was asked for.
use text.Mathlib.TextPositions.{eq_refl}
use kyo_trading_tool.Prelude.{
  ℕ, zero, suc, ◌+◌, ◌≤◌, ◌≡◌, refl, ap, arith, Option, none, some, List, [], ◌∷◌, take, length,
  String,
}
use kyo_trading_tool.Domain.Result.{Result, ok, err, raised}
use kyo_trading_tool.Domain.Models.{DateTime, OrderStatus}
use kyo_trading_tool.Broker.{BrokerError, BrokerOrder, OrderRequest}
use kyo_trading_tool.Broker.Fake.{
  FillPlan, FakeBrokerState, get, put, get_or, plan_shares, fill_status, order_from_fills, reveal,
  get_known, get_order,
}

-- the state after `n` calls of `get_order`
unfoldable pub polled : DateTime → String → ℕ → FakeBrokerState → FakeBrokerState
polled now id zero state = state
polled now id (suc n) state = polled now id n (get_order now id state).1

get-put : {A : Type 0} (id : String) (a : A) (d : List (String × A)) → get id (put id a d) ≡ some a
unfolding get put
get-put id a [] = rw (eq_refl id) refl
get-put id a ((k, b) ∷ rest) = ground (arith, eq_refl id, get-put id a rest)

take-all : {A : Type 0} (n : ℕ) (xs : List A) → length xs ≤ n → take n xs ≡ xs
take-all zero [] h = refl
take-all zero (x ∷ xs) h = absurd (omega (arith, h))
take-all (suc n) [] h = refl
take-all (suc n) (x ∷ xs) h = ap (λ ys. x ∷ ys) (take-all n xs (omega (arith, h)))

module _ (now : DateTime) (id : String) (req : OrderRequest) (plan : FillPlan) where
  -- the order is known, its plan is `plan`, and at least `n` calls were made
  abbrev Polled : ℕ → FakeBrokerState → Type 0
  Polled n state =
      (get id state.orders ≡ some req)
      × (get_or [] (get id state.fill_plans) ≡ plan)
      × (n ≤ get_or 0 (get id state.call_counts))

  get_order-Polled :
      (n : ℕ) (state : FakeBrokerState) → Polled n state → Polled (suc n) (get_order now id state).1
  unfolding get_order get_known
  get_order-Polled n state (o, p, c) =
      let count = get_or 0 (get id state.call_counts) + 1 in
      rw o (o, p, rw (get-put id count state.call_counts) (omega (arith, c)))

  polled-Polled :
      (k n : ℕ) (state : FakeBrokerState) → Polled n state → Polled (n + k) (polled now id k state)
  unfolding polled
  polled-Polled zero n state (o, p, c) = (o, p, omega (arith, c))
  polled-Polled (suc k) n state h =
      let (o, p, c) =
        polled-Polled k (suc n) (get_order now id state).1 (get_order-Polled n state h) in
      (o, p, omega (arith, c))

  reveal-filled :
      (count : ℕ)
      → 1 ≤ req.qty.shares
      → req.qty.shares ≤ plan_shares plan
      → length plan ≤ count
      → ((reveal now req plan count).status ≡ OrderStatus.filled)
        × ((reveal now req plan count).filled_qty.shares ≡ req.qty.shares)
  unfolding reveal order_from_fills fill_status
  reveal-filled count q enough l = rw (take-all count plan l) (ground arith)

-- what a poll shows of an order that is full
abbrev pub Full : OrderRequest → Result BrokerError BrokerOrder → Type 0
Full req (ok b) = (b.status ≡ OrderStatus.filled) × (b.filled_qty.shares ≡ req.qty.shares)
Full req (err _) = ⊥
Full req (raised _) = ⊥

-- An order that the fake broker knows, for a share at least, with a plan that gives it its shares,
-- is shown as filled with exactly its shares by the n-th poll and by every later one, where n is the
-- number of the entries of its plan.
pub get_order-fills :
    (now : DateTime) (id : String) (req : OrderRequest) (plan : FillPlan) (k : ℕ)
    (state : FakeBrokerState)
    → get id state.orders ≡ some req
    → get_or [] (get id state.fill_plans) ≡ plan
    → 1 ≤ req.qty.shares
    → req.qty.shares ≤ plan_shares plan
    → length plan ≤ k + 1
    → Full req (get_order now id (polled now id k state)).0
unfolding get_order get_known
get_order-fills now id req plan k state o p q enough l =
    let (o', p', c) = polled-Polled now id req plan k 0 state (o, p, omega arith) in
    rw (o', p')
      (reveal-filled now id req plan (get_or 0 (get id (polled now id k state).call_counts) + 1) q
        enough (omega (arith, c, l)))

-- what any poll shows of an order: no more shares than were asked for, and `filled` only for all
abbrev pub Honest : String → FakeBrokerState → Result BrokerError BrokerOrder → Type 0
Honest id state (ok b) =
    (req : OrderRequest) × (get id state.orders ≡ some req)
    × (b.filled_qty.shares ≤ req.qty.shares)
    × (b.status ≡ OrderStatus.filled → b.filled_qty.shares ≡ req.qty.shares)
Honest id state (err _) = get id state.orders ≡ none
Honest id state (raised _) = ⊥

reveal-honest :
    (now : DateTime) (req : OrderRequest) (plan : FillPlan) (count : ℕ)
    → ((reveal now req plan count).filled_qty.shares ≤ req.qty.shares)
      × ((reveal now req plan count).status ≡ OrderStatus.filled
          → (reveal now req plan count).filled_qty.shares ≡ req.qty.shares)
unfolding reveal order_from_fills fill_status
reveal-honest now req plan count = (omega arith, λ h. ground (arith, h))

known-Honest :
    (now : DateTime) (id : String) (state : FakeBrokerState) (o : Option OrderRequest)
    → get id state.orders ≡ o
    → Honest id state (get_known now id state o).0
unfolding get_known
known-Honest now id state none e = e
known-Honest now id state (some req) e =
    let (most, all) =
      reveal-honest now req (get_or [] (get id state.fill_plans))
        (get_or 0 (get id state.call_counts) + 1) in
    (req, e, most, all)

-- Whatever its plans and the calls before, the fake broker shows an order exactly when it was
-- submitted, with no more shares filled than were asked for, and with the status `filled` only
-- where all of them are.
pub get_order-Honest :
    (now : DateTime) (id : String) (state : FakeBrokerState)
    → Honest id state (get_order now id state).0
unfolding get_order
get_order-Honest now id state = known-Honest now id state (get id state.orders) refl
