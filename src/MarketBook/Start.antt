-- ===== src/MarketBook/Start.antt =====
-- trading/strategy: a book before its first update, and after its end (market_order.hpp,
-- market_order_book.cpp).
use low_latency_learn.Base.{ℕ, false, Option, none, []}
use low_latency_learn.Types.{
  Side, price_invalid, qty_invalid, order_id_invalid, priority_invalid, me_max_order_ids,
}
use low_latency_learn.MemPool.{mem_pool}
use low_latency_learn.Book.{Order, OrdersAtPrice}
use low_latency_learn.Positions.{bbo_default}
use low_latency_learn.MarketBook.{MarketOrderBook}

-- The default member values of `MarketOrder` and `MarketOrdersAtPrice`.
abbrev pub market_order_default : Order ℕ
market_order_default = record {
  key = order_id_invalid;
  side = Side.invalid;
  price = price_invalid;
  qty = qty_invalid;
  priority = priority_invalid;
  prev_order = none;
  next_order = none;
}

abbrev pub market_orders_at_price_default : OrdersAtPrice
market_orders_at_price_default = record {
  side = Side.invalid;
  price = price_invalid;
  first_order = none;
  prev_entry = none;
  next_entry = none;
}

-- The constructor. It gives no value to the two arrays of pointers: what they hold is an argument. The
-- pool of levels has as many blocks as that of orders.
abbrev pub market_order_book :
    (ticker_id : ℕ) → (oid_to_order price_orders_at_price : ℕ → Option ℕ) → MarketOrderBook
market_order_book ticker_id oid_to_order price_orders_at_price = record {
  ticker_id = ticker_id;
  has_trade_engine = false;
  book = record {
    slot_to_order = oid_to_order;
    orders_at_price_pool = mem_pool me_max_order_ids market_orders_at_price_default;
    bids_by_price = none;
    asks_by_price = none;
    price_orders_at_price = price_orders_at_price;
    order_pool = mem_pool me_max_order_ids market_order_default;
  };
  bbo = bbo_default;
  notices = [];
}

-- The destructor clears the pointers.
unfoldable pub clear_pointers : MarketOrderBook → MarketOrderBook
clear_pointers b = record b {
  has_trade_engine = false;
  book = record (b.book) { slot_to_order = λ i. none; bids_by_price = none; asks_by_price = none };
}
