-- ===== src/OrderManager/Strings.antt =====
-- trading/strategy/om_order.hpp: an order of the order manager as text.
use Prim.Native.String.{String, ◌++◌}
use low_latency_learn.Base.Int.{ℤ}
use low_latency_learn.Types.{side_to_string}
use low_latency_learn.Types.Strings.{
  ticker_id_to_string, order_id_to_string, price_to_string, qty_to_string,
}
use low_latency_learn.OrderManager.{OmOrder, OmOrderState}

unfoldable pub om_order_state_to_string : OmOrderState → String
om_order_state_to_string OmOrderState.pending_new = "PENDING_NEW"
om_order_state_to_string OmOrderState.live = "LIVE"
om_order_state_to_string OmOrderState.pending_cancel = "PENDING_CANCEL"
om_order_state_to_string OmOrderState.dead = "DEAD"
om_order_state_to_string OmOrderState.invalid = "INVALID"

-- `OMOrder::toString`
unfoldable pub om_order_to_string : (digits : ℤ → String) → OmOrder → String
unfolding side_to_string om_order_state_to_string
om_order_to_string digits o =
    "OMOrder[tid: "
    ++ ticker_id_to_string digits o.ticker_id
    ++ " oid: "
    ++ order_id_to_string digits o.order_id
    ++ " side: "
    ++ side_to_string o.side
    ++ " price: "
    ++ price_to_string digits o.price
    ++ " qty: "
    ++ qty_to_string digits o.qty
    ++ " state: "
    ++ om_order_state_to_string o.order_state
    ++ "]"
