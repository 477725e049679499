-- ===== src/OrderManager/Moves.antt =====
-- trading/strategy/order_manager.cpp: what moving an order sends.
use mathlib.Core.Path.{subst}
use low_latency_learn.Base.Int.{eqb_ℤ}
use low_latency_learn.Base.{
  ◌>>=◌, not, ◌||◌, ◌==◌, if◌then◌else◌, Bool, true, false, ok-inj, ℕ, ◌≡◌, ◌≢◌, refl, ◌⊎◌, inl,
  inr, arith, Outcome, ok, failed,
}
use low_latency_learn.Types.{Price, price_invalid, Side, Floats}
use low_latency_learn.Risk.{RiskInfo, RiskCheckResult, check_pre_trade_risk}
use low_latency_learn.OrderManager.{
  OrderManager, OmOrderState, move_order, move_orders, open_order, new_order, cancel_order,
}

module _ (F : Floats) (ticker_risk : ℕ → RiskInfo F.Double) where
  -- The price to sell at makes no difference to what is sent or kept.
  pub move_orders-ask_price :
      (m : OrderManager) (ticker_id : ℕ) (bid_price ask_price ask_price' : Price) (clip : ℕ)
      → move_orders F ticker_risk m ticker_id bid_price ask_price clip
        ≡ move_orders F ticker_risk m ticker_id bid_price ask_price' clip
  unfolding move_orders
  move_orders-ask_price m ticker_id bid_price ask_price ask_price' clip = refl

  -- What a call of `moveOrder` may do to the order at `t` and `s`.
  pub data Moved (m : OrderManager) (t s ticker_id : ℕ) (price : Price) (side : Side) (qty : ℕ)
      : OrderManager → Type 0 where
    kept : Moved m t s ticker_id price side qty m
    cancelled :
        (m.ticker_side_order t s).order_state ≡ OmOrderState.live
        → Moved m t s ticker_id price side qty (cancel_order m t s)
    opened :
        ((m.ticker_side_order t s).order_state ≡ OmOrderState.invalid)
          ⊎ ((m.ticker_side_order t s).order_state ≡ OmOrderState.dead)
        → price ≢ price_invalid
        → check_pre_trade_risk F ticker_risk ticker_id side qty ≡ ok RiskCheckResult.allowed
        → Moved m t s ticker_id price side qty (new_order m t s ticker_id price side qty)

  price_valid : (price : Price) → eqb_ℤ price price_invalid ≡ false → price ≢ price_invalid
  price_valid price h = ground arith

  open_order-Moved :
      (m : OrderManager) (t s ticker_id : ℕ) (price : Price) (side : Side) (qty : ℕ)
      → ((m.ticker_side_order t s).order_state ≡ OmOrderState.invalid)
        ⊎ ((m.ticker_side_order t s).order_state ≡ OmOrderState.dead)
      → {m' : OrderManager} → open_order F ticker_risk m t s ticker_id price side qty ≡ ok m'
      → Moved m t s ticker_id price side qty m'
  unfolding open_order
  open_order-Moved m t s ticker_id price side qty idle h =
      go (eqb_ℤ price price_invalid) refl (check_pre_trade_risk F ticker_risk ticker_id side qty)
        refl h
    where
      go :
          (b : Bool)
          → eqb_ℤ price price_invalid ≡ b
          → (o : Outcome RiskCheckResult)
          → check_pre_trade_risk F ticker_risk ticker_id side qty ≡ o
          → {m' : OrderManager}
          → (if b then ok m else (do
            risk_result ← o
            ok (elim risk_result [
              | RiskCheckResult.allowed ↦ new_order m t s ticker_id price side qty
              | _ ↦ m
            ])))
            ≡ ok m'
          → Moved m t s ticker_id price side qty m'
      go true hb o ho e = subst (Moved m t s ticker_id price side qty) (ok-inj e) kept
      go false hb (failed x) ho e = cc
      go false hb (ok RiskCheckResult.allowed) ho e =
          subst (Moved m t s ticker_id price side qty) (ok-inj e)
            (opened idle (price_valid price hb) ho)
      go false hb (ok RiskCheckResult.invalid) ho e =
          subst (Moved m t s ticker_id price side qty) (ok-inj e) kept
      go false hb (ok RiskCheckResult.order_too_large) ho e =
          subst (Moved m t s ticker_id price side qty) (ok-inj e) kept
      go false hb (ok RiskCheckResult.position_too_large) ho e =
          subst (Moved m t s ticker_id price side qty) (ok-inj e) kept
      go false hb (ok RiskCheckResult.loss_too_large) ho e =
          subst (Moved m t s ticker_id price side qty) (ok-inj e) kept

  cancelled_or_kept :
      (m : OrderManager) {t s ticker_id : ℕ} {price : Price} {side : Side} {qty : ℕ} (b : Bool)
      → (m.ticker_side_order t s).order_state ≡ OmOrderState.live
      → Moved m t s ticker_id price side qty (if b then cancel_order m t s else m)
  cancelled_or_kept m true h = cancelled h
  cancelled_or_kept m false h = kept

  -- A call of `moveOrder` that returns has changed nothing; or cancelled the order, which was live;
  -- or sent a new order, where none was at work, at a price that is not the invalid one, and
  -- within the limits of the risk check.
  pub move_order-Moved :
      (m : OrderManager) (t s ticker_id : ℕ) (price : Price) (side : Side) (qty : ℕ)
      {m' : OrderManager}
      → move_order F ticker_risk m t s ticker_id price side qty ≡ ok m'
      → Moved m t s ticker_id price side qty m'
  unfolding move_order
  move_order-Moved m t s ticker_id price side qty h =
      go (m.ticker_side_order t s).order_state refl h
    where
      go :
          (st : OmOrderState)
          → (m.ticker_side_order t s).order_state ≡ st
          → {m' : OrderManager}
          → (elim st [
            | OmOrderState.live ↦ ok (
                if not (eqb_ℤ (m.ticker_side_order t s).price price)
                  || not ((m.ticker_side_order t s).qty == qty)
                then cancel_order m t s
                else m)
            | OmOrderState.invalid ↦ open_order F ticker_risk m t s ticker_id price side qty
            | OmOrderState.dead ↦ open_order F ticker_risk m t s ticker_id price side qty
            | OmOrderState.pending_new ↦ ok m
            | OmOrderState.pending_cancel ↦ ok m
          ])
            ≡ ok m'
          → Moved m t s ticker_id price side qty m'
      go OmOrderState.live hs e =
          subst (Moved m t s ticker_id price side qty) (ok-inj e) (cancelled_or_kept m _ hs)
      go OmOrderState.invalid hs e = open_order-Moved m t s ticker_id price side qty (inl hs) e
      go OmOrderState.dead hs e = open_order-Moved m t s ticker_id price side qty (inr hs) e
      go OmOrderState.pending_new hs e =
          subst (Moved m t s ticker_id price side qty) (ok-inj e) kept
      go OmOrderState.pending_cancel hs e =
          subst (Moved m t s ticker_id price side qty) (ok-inj e) kept
