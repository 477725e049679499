-- ===== src/Matcher/Strings.antt =====
-- exchange/matcher/me_order.cpp and me_order.hpp: orders and levels as text. The digits of a number are
-- a parameter.
use Prim.Native.String.{String, ◌++◌}
use low_latency_learn.Base.{ℕ, Option, none, some}
use low_latency_learn.Base.Int.{ℤ}
use low_latency_learn.Types.{price_invalid, order_id_invalid, side_to_string}
use low_latency_learn.Types.Strings.{
  order_id_to_string, ticker_id_to_string, client_id_to_string, qty_to_string, price_to_string,
  priority_to_string,
}
use low_latency_learn.Book.{Order, OrdersAtPrice, Book, order_at, level_at}
use low_latency_learn.Matcher.{MeOrderKey}

module _ (digits : ℤ → String) where
  -- The id of an order that another one points to.
  abbrev pub linked_id : Book MeOrderKey → Option ℕ → String
  linked_id b none = order_id_to_string digits order_id_invalid
  linked_id b (some p) = order_id_to_string digits (order_at b p).key.market_order_id

  -- The price of a level that another one points to.
  abbrev pub linked_price : Book MeOrderKey → Option ℕ → String
  linked_price b none = price_to_string digits price_invalid
  linked_price b (some p) = price_to_string digits (level_at b p).price

  -- `MEOrder::toString`
  unfoldable pub me_order_to_string : Book MeOrderKey → ℕ → String
  unfolding side_to_string
  me_order_to_string b order =
      let o : Order MeOrderKey = order_at b order in
      "MEOrder [ client:"
      ++ client_id_to_string digits o.key.client_id
      ++ " ticker:"
      ++ ticker_id_to_string digits o.key.ticker_id
      ++ " coid:"
      ++ order_id_to_string digits o.key.client_order_id
      ++ " moid:"
      ++ order_id_to_string digits o.key.market_order_id
      ++ " side:"
      ++ side_to_string o.side
      ++ " exec_qty:"
      ++ qty_to_string digits o.qty
      ++ " price:"
      ++ price_to_string digits o.price
      ++ " priority:"
      ++ priority_to_string digits o.priority
      ++ " prev:"
      ++ linked_id b o.prev_order
      ++ " next:"
      ++ linked_id b o.next_order
      ++ "]"

  -- `MEOrderAtPrice::toString`
  unfoldable pub me_order_at_price_to_string : Book MeOrderKey → ℕ → String
  unfolding side_to_string me_order_to_string
  me_order_at_price_to_string b level =
      let l : OrdersAtPrice = level_at b level in
      "MEOrdersAtPrice[side:"
      ++ side_to_string l.side
      ++ " price:"
      ++ price_to_string digits l.price
      ++ " first_me_order:"
      ++ elim l.first_order [ none ↦ "null" | some order ↦ me_order_to_string b order ]
      ++ " prev:"
      ++ linked_price b l.prev_entry
      ++ " next:"
      ++ linked_price b l.next_entry
      ++ "]"
