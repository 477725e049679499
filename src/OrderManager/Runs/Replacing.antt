-- ===== src/OrderManager/Runs/Replacing.antt =====
-- trading/strategy/order_manager.cpp: an order at another price or quantity than the wanted ones is
-- replaced.
use low_latency_learn.Base.{ℕ, ◌≡◌}
use low_latency_learn.Types.{Side, Price}
use low_latency_learn.OrderManager.{OrderManager, OmOrder, OmOrderState}

-- The order is asked for with this side, price and quantity.
pub record IsAsked (side : Side) (price : Price) (qty : ℕ) (o : OmOrder) : Type 0 where
  pub state : o.order_state ≡ OmOrderState.pending_new
  pub on_side : o.side ≡ side
  pub at_price : o.price ≡ price
  pub quantity : o.qty ≡ qty
