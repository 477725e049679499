-- ===== src/OrderManager/Runs/Sequences.antt =====
-- trading/strategy/order_manager.cpp: the requests of many moves and responses.
use low_latency_learn.Base.{
  ℕ, ◌+◌, ◌≡◌, refl, ap, inl, inr, true, List, [], ◌∷◌, All, not, ◌||◌, arith, ltb, ◌==◌, length,
  if◌then◌else◌, Bool-cases, Outcome, ok, ◌>>=◌, update, fun_ext,
}
use low_latency_learn.Base.Int.{eqb_ℤ}
use low_latency_learn.Types.{Side, Price, price_invalid, side_to_index, me_max_tickers, Floats}
use low_latency_learn.Messages.{ClientResponseType}
use low_latency_learn.Risk.{RiskInfo, RiskCheckResult, check_pre_trade_risk, check_risk_info}
use low_latency_learn.OrderManager.{
  OrderManager, OmOrder, OmOrderState, after_response, on_order_update, new_order, cancel_order,
  open_order, move_order, move_orders, put_order,
}
use low_latency_learn.OrderManager.Moves.{Moved, kept, cancelled, opened, move_order-Moved}
use low_latency_learn.OrderManager.Runs.{
  Event, IsKnown, HasSent, ends, at_work, HasSent-trans, HasSent-same, ends-cons,
}
use low_latency_learn.OrderManager.Runs.Steps.{
  HasSent-none, HasSent-cancel_order, HasSent-new_order, HasSent-response, over_by,
}

update_own : (f : ℕ → ℕ → OmOrder) (t s : ℕ) → update f t (update (f t) s (f t s)) ≡ f
update_own f t s = fun_ext (λ a. fun_ext (λ b. own a b))
  where
    own : (a b : ℕ) → update f t (update (f t) s (f t s)) a b ≡ f a b
    own a b = ground arith

-- A move of the orders of this instrument, or a response that says that a cancel was rejected.
abbrev pub IsIdle : ℕ → Event → Type 0
IsIdle t (Event.moves ticker_id bid_price ask_price clip) = ticker_id ≡ t
IsIdle t (Event.response r) =
    (ltb r.ticker_id me_max_tickers ≡ true) × (r.type ≡ ClientResponseType.cancel_rejected)

module _ (F : Floats) (ticker_risk : ℕ → RiskInfo F.Double) where
  abbrev pub handle : OrderManager → Event → Outcome OrderManager
  handle m (Event.moves ticker_id bid_price ask_price clip) =
      move_orders F ticker_risk m ticker_id bid_price ask_price clip
  handle m (Event.response r) = on_order_update m r

  HasSent-Moved :
      (m : OrderManager) (t : ℕ) (price : Price) (side : Side) (qty : ℕ) (m' : OrderManager)
      → Moved F ticker_risk m t (side_to_index side) t price side qty m'
      → HasSent m m' (λ t' s'. 0)
  HasSent-Moved m t price side qty _ kept = HasSent-none m
  HasSent-Moved m t price side qty _ (cancelled live) =
      HasSent-cancel_order m t (side_to_index side) live
  HasSent-Moved m t price side qty _ (opened (inl idle) valid allowed) =
      HasSent-new_order m t price side qty (ap at_work idle)
  HasSent-Moved m t price side qty _ (opened (inr idle) valid allowed) =
      HasSent-new_order m t price side qty (ap at_work idle)

  -- A move within the array of instruments returns.
  open_order-ok :
      (m : OrderManager) (t s ticker_id : ℕ) (price : Price) (side : Side) (qty : ℕ)
      → ltb ticker_id me_max_tickers ≡ true
      → (m' : OrderManager) × (open_order F ticker_risk m t s ticker_id price side qty ≡ ok m')
  unfolding open_order check_pre_trade_risk
  open_order-ok m t s ticker_id price side qty known =
      elim (Bool-cases (eqb_ℤ price price_invalid)) [
        | inl e ↦ (m, rw e refl)
        | inr e ↦ (
          elim (check_risk_info F (ticker_risk ticker_id) side qty) [
            | RiskCheckResult.allowed ↦ new_order m t s ticker_id price side qty
            | _ ↦ m
          ],
          rw (e, known, check_pre_trade_risk) refl,
        )
      ]

  move_order-ok :
      (m : OrderManager) (t s ticker_id : ℕ) (price : Price) (side : Side) (qty : ℕ)
      → ltb ticker_id me_max_tickers ≡ true
      → (m' : OrderManager) × (move_order F ticker_risk m t s ticker_id price side qty ≡ ok m')
  unfolding move_order
  move_order-ok m t s ticker_id price side qty known = go (m.ticker_side_order t s).order_state refl
    where
      opening :
          (m' : OrderManager) × (open_order F ticker_risk m t s ticker_id price side qty ≡ ok m')
      opening = open_order-ok m t s ticker_id price side qty known

      o : OmOrder
      o = m.ticker_side_order t s

      go :
          (st : OmOrderState)
          → (m.ticker_side_order t s).order_state ≡ st
          → (m' : OrderManager) × (move_order F ticker_risk m t s ticker_id price side qty ≡ ok m')
      go OmOrderState.live e = (
        if not (eqb_ℤ (m.ticker_side_order t s).price price)
              || not ((m.ticker_side_order t s).qty == qty)
            then cancel_order m t s
            else m,
        rw (e, move_order) refl,
      )
      go OmOrderState.invalid e = (opening.0, rw (e, move_order) opening.1)
      go OmOrderState.dead e = (opening.0, rw (e, move_order) opening.1)
      go OmOrderState.pending_new e = (m, rw (e, move_order) refl)
      go OmOrderState.pending_cancel e = (m, rw (e, move_order) refl)

  pub HasSent-moves :
      (m : OrderManager) (ticker_id : ℕ) (bid_price ask_price : Price) (clip : ℕ)
      → ltb ticker_id me_max_tickers ≡ true
      → (m' : OrderManager) × (move_orders F ticker_risk m ticker_id bid_price ask_price clip
          ≡ ok m')
        × HasSent m m' (λ t s. 0)
  unfolding move_orders
  HasSent-moves m ticker_id bid_price ask_price clip known =
      let buy = side_to_index Side.buy in
      let sell = side_to_index Side.sell in
      let (m₁, e₁) = move_order-ok m ticker_id buy ticker_id bid_price Side.buy clip known in
      let (m₂, e₂) = move_order-ok m₁ ticker_id sell ticker_id bid_price Side.sell clip known in
      let first =
        move_order-Moved F ticker_risk m ticker_id buy ticker_id bid_price Side.buy clip e₁ in
      let second =
        move_order-Moved F ticker_risk m₁ ticker_id sell ticker_id bid_price Side.sell clip e₂ in
      (
        m₂,
        rw (known, e₁, move_orders) e₂,
        HasSent-trans m m₁ m₂ (λ t s. 0) (λ t s. 0)
            (HasSent-Moved m ticker_id bid_price Side.buy clip m₁ first)
            (HasSent-Moved m₁ ticker_id bid_price Side.sell clip m₂ second),
      )

  handle-HasSent :
      (m : OrderManager) (e : Event)
      → IsKnown e
      → (m' : OrderManager) × (handle m e ≡ ok m') × HasSent m m' (λ t s. ends t s (e ∷ []))
  unfolding on_order_update
  handle-HasSent m (Event.moves ticker_id bid_price ask_price clip) known =
      HasSent-moves m ticker_id bid_price ask_price clip known
  handle-HasSent m (Event.response r) known = (
    put_order m r.ticker_id (side_to_index r.side)
        (after_response (m.ticker_side_order r.ticker_id (side_to_index r.side)) r),
    rw (known, on_order_update) refl,
    HasSent-same m _ (over_by r) (λ t s. ends t s (Event.response r ∷ [])) (HasSent-response m r)
        (λ t s. omega arith),
  )

  handle-stuck :
      (m : OrderManager) (t : ℕ) (e : Event)
      → ltb t me_max_tickers ≡ true
      → (m.ticker_side_order t (side_to_index Side.buy)).order_state ≡ OmOrderState.pending_cancel
      → (m.ticker_side_order t (side_to_index Side.sell)).order_state ≡ OmOrderState.pending_cancel
      → IsIdle t e
      → handle m e ≡ ok m
  unfolding move_orders move_order on_order_update after_response
  handle-stuck m t (Event.moves ticker_id bid_price ask_price clip) known buy sell same =
      rw (same, known, buy, sell, move_orders, move_order) refl
  handle-stuck m t (Event.response r) known buy sell (inside, rejected) =
      rw (inside, rejected, on_order_update, after_response)
        (ap (λ f. ok (record m { ticker_side_order = f }))
          (update_own m.ticker_side_order r.ticker_id (side_to_index r.side)))

-- The positions that the risk check reads change with the fills between two moves: `ticker_risk` has
-- its data for each event, by the number of events that are still to come after it.
module _ (F : Floats) (ticker_risk : ℕ → ℕ → RiskInfo F.Double) where
  abbrev pub run : OrderManager → List Event → Outcome OrderManager
  run m [] = ok m
  run m (e ∷ es) = handle F (ticker_risk (length es)) m e >>= λ m'. run m' es

  -- Whatever moves and responses come, for known instruments, the order manager handles them all, and
  -- the requests that it has put into its queue since are these: those for new orders carry the ids
  -- that follow one another from the next one on, as 64-bit words; and of each instrument and side,
  -- new orders were asked for at most as often as one was over, with one more if an order is at work
  -- now, and one less if one was at work before. The data of the risk check may change from one event
  -- to the next.
  pub run-HasSent :
      (m : OrderManager) (es : List Event)
      → All IsKnown es
      → (m' : OrderManager) × (run m es ≡ ok m') × HasSent m m' (λ t s. ends t s es)
  run-HasSent m [] known = (m, refl, HasSent-none m)
  run-HasSent m (e ∷ es) known =
      let (m₁, one, h) = handle-HasSent F (ticker_risk (length es)) m e known.0 in
      let (m₂, rest, k) = run-HasSent m₁ es known.1 in
      (
        m₂,
        rw one rest,
        HasSent-same m m₂ (λ t s. ends t s (e ∷ []) + ends t s es) (λ t s. ends t s (e ∷ es))
            (HasSent-trans m m₁ m₂ (λ t s. ends t s (e ∷ [])) (λ t s. ends t s es) h k)
            (λ t s. ends-cons t s e es),
      )

  -- Where the orders of both sides of an instrument wait for the end of a cancel, neither moves of
  -- them nor rejected cancels change anything, however many come and whatever the risk check goes by:
  -- nothing is sent any more.
  pub run-stuck :
      (m : OrderManager) (t : ℕ) (es : List Event)
      → ltb t me_max_tickers ≡ true
      → (m.ticker_side_order t (side_to_index Side.buy)).order_state ≡ OmOrderState.pending_cancel
      → (m.ticker_side_order t (side_to_index Side.sell)).order_state ≡ OmOrderState.pending_cancel
      → All (IsIdle t) es
      → run m es ≡ ok m
  run-stuck m t [] known buy sell idle = refl
  run-stuck m t (e ∷ es) known buy sell idle =
      rw (handle-stuck F (ticker_risk (length es)) m t e known buy sell idle.0)
        (run-stuck m t es known buy sell idle.1)
