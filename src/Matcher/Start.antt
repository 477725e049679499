-- ===== src/Matcher/Start.antt =====
-- exchange/matcher: a book before its first order (me_order.hpp, me_order_book.cpp).
use low_latency_learn.Base.{ℕ, Option, none, []}
use low_latency_learn.Types.{
  Side, price_invalid, qty_invalid, order_id_invalid, client_id_invalid, ticker_id_invalid,
  priority_invalid, me_max_price_levels, me_max_order_ids,
}
use low_latency_learn.MemPool.{mem_pool}
use low_latency_learn.Book.{Order, OrdersAtPrice}
use low_latency_learn.Matcher.{MeOrderBook, MeOrderKey}

-- The default member values of `MEOrder` and `MEOrderAtPrice`.
abbrev pub me_order_default : Order MeOrderKey
me_order_default = record {
  key = record {
    client_id = client_id_invalid;
    ticker_id = ticker_id_invalid;
    client_order_id = order_id_invalid;
    market_order_id = order_id_invalid;
  };
  side = Side.invalid;
  price = price_invalid;
  qty = qty_invalid;
  priority = priority_invalid;
  prev_order = none;
  next_order = none;
}

abbrev pub me_order_at_price_default : OrdersAtPrice
me_order_at_price_default = record {
  side = Side.invalid;
  price = price_invalid;
  first_order = none;
  prev_entry = none;
  next_entry = none;
}

-- The constructor. It gives no value to the two arrays of pointers: what they hold is an argument.
abbrev pub me_order_book :
    (ticker_id : ℕ) → (cid_oid_to_order price_orders_at_price : ℕ → Option ℕ) → MeOrderBook
me_order_book ticker_id cid_oid_to_order price_orders_at_price = record {
  ticker_id = ticker_id;
  book = record {
    slot_to_order = cid_oid_to_order;
    orders_at_price_pool = mem_pool me_max_price_levels me_order_at_price_default;
    bids_by_price = none;
    asks_by_price = none;
    price_orders_at_price = price_orders_at_price;
    order_pool = mem_pool me_max_order_ids me_order_default;
  };
  next_market_order_id = 1;
  client_responses = [];
  market_updates = [];
}
