-- ===== src/MarketBook/Strings.antt =====
-- trading/strategy/market_order.hpp: orders and levels of the trading side's book as text.
use Prim.Native.String.{String, ◌++◌}
use low_latency_learn.Base.{ℕ, Option, none, some}
use low_latency_learn.Base.Int.{ℤ}
use low_latency_learn.Types.{price_invalid, order_id_invalid, side_to_string}
use low_latency_learn.Types.Strings.{
  order_id_to_string, qty_to_string, price_to_string, priority_to_string,
}
use low_latency_learn.Book.{Order, OrdersAtPrice, Book, order_at, level_at}

module _ (digits : ℤ → String) where
  -- The id of an order, and the price of a level, that another one points to.
  abbrev pub neighbour_id : Book ℕ → Option ℕ → String
  neighbour_id b none = order_id_to_string digits order_id_invalid
  neighbour_id b (some p) = order_id_to_string digits (order_at b p).key

  abbrev pub neighbour_price : Book ℕ → Option ℕ → String
  neighbour_price b none = price_to_string digits price_invalid
  neighbour_price b (some p) = price_to_string digits (level_at b p).price

  -- `MarketOrder::toString`
  unfoldable pub market_order_to_string : Book ℕ → ℕ → String
  unfolding side_to_string
  market_order_to_string b order =
      let o : Order ℕ = order_at b order in
      "Market Order [ oid:"
      ++ order_id_to_string digits o.key
      ++ " side:"
      ++ side_to_string o.side
      ++ " qty:"
      ++ qty_to_string digits o.qty
      ++ " price:"
      ++ price_to_string digits o.price
      ++ " priority:"
      ++ priority_to_string digits o.priority
      ++ " prev:"
      ++ neighbour_id b o.prev_order
      ++ " next:"
      ++ neighbour_id b o.next_order
      ++ "]"

  -- `MarketOrdersAtPrice::toString`
  unfoldable pub market_orders_at_price_to_string : Book ℕ → ℕ → String
  unfolding side_to_string market_order_to_string
  market_orders_at_price_to_string b level =
      let l : OrdersAtPrice = level_at b level in
      "MEOrdersAtPrice[side:"
      ++ side_to_string l.side
      ++ " price:"
      ++ price_to_string digits l.price
      ++ " first_me_order:"
      ++ elim l.first_order [ none ↦ "null" | some order ↦ market_order_to_string b order ]
      ++ " prev:"
      ++ neighbour_price b l.prev_entry
      ++ " next:"
      ++ neighbour_price b l.next_entry
      ++ "]"
