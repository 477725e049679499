-- ===== src/OrderManager/Runs/Quoting.antt =====
-- trading/strategy/order_manager.cpp: what a call of `moveOrders` leaves at work.
use mathlib.Core.Path.{subst}
use low_latency_learn.Base.{
  ℕ, ◌≡◌, ◌≢◌, refl, sym, ◌⊎◌, inl, inr, Bool, true, false, not, ◌||◌, ◌==◌, arith, ltb, Outcome,
  ok, if◌then◌else◌, Bool-cases,
}
use low_latency_learn.Base.Int.{eqb_ℤ}
use low_latency_learn.Types.{Side, Price, price_invalid, side_to_index, me_max_tickers, Floats}
use low_latency_learn.Risk.{RiskInfo, RiskCheckResult, check_pre_trade_risk}
use low_latency_learn.OrderManager.{
  OrderManager, OmOrder, OmOrderState, new_order, cancel_order, open_order, move_order, move_orders,
}

-- An order that waits for a response.
abbrev pub IsPending : OmOrder → Type 0
IsPending o =
    (o.order_state ≡ OmOrderState.pending_new) ⊎ (o.order_state ≡ OmOrderState.pending_cancel)

-- What is to become of the order `o`, where one of this side, price and quantity is wanted.
pub data Settled (side : Side) (price : Price) (qty : ℕ) (o o' : OmOrder) : Type 0 where
  opened :
      (o.order_state ≡ OmOrderState.invalid) ⊎ (o.order_state ≡ OmOrderState.dead)
      → o'.order_state ≡ OmOrderState.pending_new
      → o'.side ≡ side
      → o'.price ≡ price
      → o'.qty ≡ qty
      → Settled side price qty o o'
  quoted :
      o.order_state ≡ OmOrderState.live
      → o.price ≡ price
      → o.qty ≡ qty
      → o' ≡ o
      → Settled side price qty o o'
  withdrawn :
      o.order_state ≡ OmOrderState.live
      → (o.price ≢ price) ⊎ (o.qty ≢ qty)
      → o' ≡ record o { order_state = OmOrderState.pending_cancel }
      → Settled side price qty o o'
  waiting : IsPending o → o' ≡ o → Settled side price qty o o'

-- The price and the quantity are the wanted ones, or one of them is not.
same_or_not :
    (o : OmOrder) (price : Price) (qty : ℕ) (b : Bool)
    → (not (eqb_ℤ o.price price) || not (o.qty == qty)) ≡ b
    → if b then ((o.price ≢ price) ⊎ (o.qty ≢ qty)) else ((o.price ≡ price) × (o.qty ≡ qty))
same_or_not o price qty true h = elim (Bool-cases (eqb_ℤ o.price price)) [
  | inl e ↦ inr (λ q. ground arith)
  | inr e ↦ inl (λ q. ground arith)
]
same_or_not o price qty false h = (ground arith, ground arith)

module _ (F : Floats) (ticker_risk : ℕ → RiskInfo F.Double) where
  -- One order is settled, and the other ones are as they were.
  abbrev Settles :
      OrderManager → (t s : ℕ) → Side → Price → (qty : ℕ) → Outcome OrderManager → Type 0
  Settles m t s side price qty run =
      (m' : OrderManager) × (run ≡ ok m')
      × Settled side price qty (m.ticker_side_order t s) (m'.ticker_side_order t s)
      × ((s' : ℕ) → s' ≢ s → m'.ticker_side_order t s' ≡ m.ticker_side_order t s')

  module _ (m : OrderManager) (t s : ℕ) (price : Price) (side : Side) (qty : ℕ)
      (valid : eqb_ℤ price price_invalid ≡ false)
      (allowed : check_pre_trade_risk F ticker_risk t side qty ≡ ok RiskCheckResult.allowed) where
    abbrev o : OmOrder
    o = m.ticker_side_order t s

    open_order-Settles :
        (o.order_state ≡ OmOrderState.invalid) ⊎ (o.order_state ≡ OmOrderState.dead)
        → Settles m t s side price qty (open_order F ticker_risk m t s t price side qty)
    unfolding open_order new_order
    open_order-Settles idle = (
      new_order m t s t price side qty,
      rw (valid, allowed, open_order) refl,
      opened idle (ground arith) (ground arith) (ground arith) (ground arith),
      λ s' ne. ground (arith, ne),
    )

    live-Settles :
        (b : Bool)
        → (not (eqb_ℤ o.price price) || not (o.qty == qty)) ≡ b
        → o.order_state ≡ OmOrderState.live
        → Settles m t s side price qty (ok (if b then cancel_order m t s else m))
    unfolding cancel_order
    live-Settles true differs e = (
      cancel_order m t s,
      refl,
      withdrawn e (same_or_not o price qty true differs) (ground arith),
      λ s' ne. ground (arith, ne),
    )
    live-Settles false differs e =
        let same = same_or_not o price qty false differs in
        (m, refl, quoted e same.0 same.1 refl, λ s' ne. refl)

    move_order-Settles :
        Settles m t s side price qty (move_order F ticker_risk m t s t price side qty)
    unfolding move_order
    move_order-Settles = go o.order_state refl
      where
        differs : Bool
        differs = not (eqb_ℤ o.price price) || not (o.qty == qty)

        by_state : OmOrderState → Outcome OrderManager
        by_state st = elim st [
          | OmOrderState.live ↦ ok (if differs then cancel_order m t s else m)
          | OmOrderState.invalid ↦ open_order F ticker_risk m t s t price side qty
          | OmOrderState.dead ↦ open_order F ticker_risk m t s t price side qty
          | OmOrderState.pending_new ↦ ok m
          | OmOrderState.pending_cancel ↦ ok m
        ]

        kept : IsPending o → Settles m t s side price qty (ok m)
        kept h = (m, refl, waiting h refl, λ s' ne. refl)

        go :
            (st : OmOrderState)
            → o.order_state ≡ st
            → Settles m t s side price qty (by_state o.order_state)
        go st e = subst (λ x. Settles m t s side price qty (by_state x)) (sym e) (at_state st e)
          where
            at_state :
                (st : OmOrderState)
                → o.order_state ≡ st
                → Settles m t s side price qty (by_state st)
            at_state OmOrderState.live e = live-Settles differs refl e
            at_state OmOrderState.invalid e = open_order-Settles (inl e)
            at_state OmOrderState.dead e = open_order-Settles (inr e)
            at_state OmOrderState.pending_new e = kept (inl e)
            at_state OmOrderState.pending_cancel e = kept (inr e)

  sides_apart : side_to_index Side.buy ≢ side_to_index Side.sell
  unfolding side_to_index
  sides_apart = omega arith

  -- A call of `moveOrders` for a known instrument, at a valid bid price, that the risk check allows on
  -- both sides, returns, whatever the orders were doing before. On either side: where no order was
  -- at work, one of this side, with the bid price and the quantity asked for, is pending; an order
  -- that was live at that price and quantity is as it was; one that was live at others is waiting to
  -- be canceled and otherwise as it was; and one that waited for a response is as it was.
  pub move_orders-Settled :
      (m : OrderManager) (t : ℕ) (bid_price ask_price : Price) (clip : ℕ)
      → ltb t me_max_tickers ≡ true
      → bid_price ≢ price_invalid
      → check_pre_trade_risk F ticker_risk t Side.buy clip ≡ ok RiskCheckResult.allowed
      → check_pre_trade_risk F ticker_risk t Side.sell clip ≡ ok RiskCheckResult.allowed
      → (m' : OrderManager) × (move_orders F ticker_risk m t bid_price ask_price clip ≡ ok m')
        × Settled Side.buy bid_price clip
            (m.ticker_side_order t (side_to_index Side.buy))
            (m'.ticker_side_order t (side_to_index Side.buy))
        × Settled Side.sell bid_price clip
            (m.ticker_side_order t (side_to_index Side.sell))
            (m'.ticker_side_order t (side_to_index Side.sell))
  unfolding move_orders
  move_orders-Settled m t bid_price ask_price clip known valid may_buy may_sell =
      let buy = side_to_index Side.buy in
      let sell = side_to_index Side.sell in
      let is_valid : eqb_ℤ bid_price price_invalid ≡ false = ground (arith, valid) in
      let (m₁, e₁, first, kept) =
        move_order-Settles m t buy bid_price Side.buy clip is_valid may_buy in
      let (m₂, e₂, second, others) =
        move_order-Settles m₁ t sell bid_price Side.sell clip is_valid may_sell in
      (
        m₂,
        rw (known, e₁, move_orders) e₂,
        subst (Settled Side.buy bid_price clip (m.ticker_side_order t buy))
            (sym (others buy sides_apart)) first,
        subst (λ o. Settled Side.sell bid_price clip o (m₂.ticker_side_order t sell))
            (kept sell (λ e. sides_apart (sym e))) second,
      )
