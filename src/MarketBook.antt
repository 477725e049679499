-- ===== src/MarketBook.antt =====
-- trading/strategy/market_order_book.cpp over market_order.hpp: the book of one instrument as the
-- trading side sees it. Its rings of levels and orders are those of module Book.
pub mod Start
pub mod Strings
pub mod Updates
pub mod Queue
pub mod First
pub mod Mirror
use low_latency_learn.Base.{
  ℕ, zero, suc, ◌+◌, Bool, true, false, not, ◌&&◌, Option, none, some, List, [], ◌∷◌, ◌++◌, ◌==◌,
  ltb, if◌then◌else◌, Outcome, ok, failed, out_of_fuel, null_pointer, in_range, deref, ◌>>=◌, ◌>>◌,
}
use low_latency_learn.Base.Int.{ltb_ℤ}
use low_latency_learn.Types.{
  Side, is_buy, is_sell, Price, price_invalid, qty_invalid, add32, me_max_order_ids,
}
use low_latency_learn.Messages.{MeMarketUpdate, MarketUpdateType}
use low_latency_learn.MemPool.{MemPool, allocate, deallocate}
use low_latency_learn.Book.{
  Order, OrdersAtPrice, Book, order_at, level_at, put_order, add_order as add_book_order,
  remove_order as remove_book_order, add_orders_at_price as add_level,
  remove_orders_at_price as remove_level,
}
use low_latency_learn.Positions.{Bbo}

-- `m_oid_to_order.at(order_id)`; the key of an order is its id.
abbrev pub slot : ℕ → Outcome ℕ
slot order_id = in_range (ltb order_id me_max_order_ids) >> ok order_id

-- `addOrder`, `addOrdersAtPrice`, `removeOrder` and `removeOrdersAtPrice`, which have the statements
-- of those of the matching engine's book.
abbrev pub add_order : Book ℕ → ℕ → Outcome (Book ℕ)
add_order = add_book_order slot

abbrev pub add_orders_at_price : Book ℕ → ℕ → Outcome (Book ℕ)
add_orders_at_price = add_level

abbrev pub remove_order : Book ℕ → ℕ → Outcome (Book ℕ)
remove_order = remove_book_order slot

abbrev pub remove_orders_at_price : Book ℕ → Side → Price → Outcome (Book ℕ)
remove_orders_at_price = remove_level

-- What the book tells the trade engine.
pub data Notice : Type 0 where
  order_book_update : (ticker_id : ℕ) → Price → Side → Notice
  trade_update : MeMarketUpdate → Notice

-- `has_trade_engine` says whether `m_trade_engine` is set; `notices` are the calls to it in order.
pub record MarketOrderBook : Type 0 where
  pub ticker_id : ℕ
  pub has_trade_engine : Bool
  pub book : Book ℕ
  pub bbo : Bbo
  pub notices : List Notice

-- A call of the trade engine, which is a null pointer if it was never set.
unfoldable pub notify : MarketOrderBook → Notice → Outcome MarketOrderBook
notify b n =
    if b.has_trade_engine
    then ok (record b { notices = b.notices ++ (n ∷ []) })
    else failed null_pointer

-- The quantity of the orders of a level behind the first one.
unfoldable pub add_qtys : (fuel : ℕ) → Book ℕ → (first order qty : ℕ) → Outcome ℕ
add_qtys zero b first order qty = failed out_of_fuel
add_qtys (suc fuel) b first order qty =
    let rest = do
      next ← deref (order_at b order).next_order
      add_qtys fuel b first next (add32 qty (order_at b order).qty)
    in if order == first then ok qty else rest

-- The price of a best level and the quantity of all its orders.
unfoldable pub best_of : Book ℕ → Option ℕ → Outcome (Price × ℕ)
unfolding add_qtys
best_of b none = ok (price_invalid, qty_invalid)
best_of b (some level) = do
  first ← deref (level_at b level).first_order
  second ← deref (order_at b first).next_order
  qty ← add_qtys (suc b.order_pool.size) b first second (order_at b first).qty
  ok ((level_at b level).price, qty)

unfoldable pub new_bbo : MarketOrderBook → (update_bid update_ask : Bool) → Outcome Bbo
new_bbo b update_bid update_ask = do
  let bid = do
    (price, qty) ← best_of b.book b.book.bids_by_price
    ok (record (b.bbo) { bid_price = price; bid_qty = qty })
  bbo ← if update_bid then bid else ok b.bbo
  let ask = do
    (price, qty) ← best_of b.book b.book.asks_by_price
    ok (record bbo { ask_price = price; ask_qty = qty })
  if update_ask then ask else ok bbo

-- `updateBBO`.
unfoldable pub update_bbo :
    MarketOrderBook → (update_bid update_ask : Bool) → Outcome MarketOrderBook
update_bbo b update_bid update_ask = do
  bbo ← new_bbo b update_bid update_ask
  ok (record b { bbo = bbo })

-- The case CLEAR: the blocks of all orders go back to their pool, place after place;
unfoldable pub clear_orders :
    (left i : ℕ) → (ℕ → Option ℕ) → MemPool (Order ℕ) → Outcome (MemPool (Order ℕ))
clear_orders zero i orders pool = ok pool
clear_orders (suc left) i orders pool = do
  pool ← elim (orders i) [ none ↦ ok pool | some p ↦ deallocate pool p ]
  clear_orders left (i + 1) orders pool

-- then those of the levels of a side, from the one behind the best level on, and last the best one.
unfoldable pub clear_ring :
    (fuel : ℕ) → MemPool OrdersAtPrice → (best level : ℕ) → Outcome (MemPool OrdersAtPrice)
clear_ring zero pool best level = failed out_of_fuel
clear_ring (suc fuel) pool best level =
    let rest = do
      pool' ← deallocate pool level
      next ← deref (pool'.object level).next_entry
      clear_ring fuel pool' best next
    in if level == best then deallocate pool best else rest

unfoldable pub clear_levels : MemPool OrdersAtPrice → Option ℕ → Outcome (MemPool OrdersAtPrice)
unfolding clear_ring
clear_levels pool none = ok pool
clear_levels pool (some best) = do
  next ← deref (pool.object best).next_entry
  clear_ring (suc pool.size) pool best next

-- As in the source, the levels stay in `m_price_orders_at_price`.
unfoldable pub clear_book : Book ℕ → Outcome (Book ℕ)
unfolding clear_orders clear_levels
clear_book b = do
  orders ← clear_orders me_max_order_ids 0 b.slot_to_order b.order_pool
  levels ← clear_levels b.orders_at_price_pool b.bids_by_price
  levels ← clear_levels levels b.asks_by_price
  ok (record b {
    slot_to_order = λ i. none;
    order_pool = orders;
    orders_at_price_pool = levels;
    bids_by_price = none;
    asks_by_price = none;
  })

-- The order that a MODIFY or a CANCEL is about.
unfoldable pub order_of : Book ℕ → (order_id : ℕ) → Outcome ℕ
order_of b order_id = do i ← slot order_id; deref (b.slot_to_order i)

-- The `switch` of `onMarketUpdate` on the book, but for a TRADE.
unfoldable pub apply_update : Book ℕ → MeMarketUpdate → Outcome (Book ℕ)
unfolding order_of clear_book
apply_update b u = elim u.type [
  | MarketUpdateType.add ↦ do
    (order, pool) ← allocate b.order_pool (record {
      key = u.order_id;
      side = u.side;
      price = u.price;
      qty = u.qty;
      priority = u.priority;
      prev_order = none;
      next_order = none;
    })
    add_order (record b { order_pool = pool }) order
  | MarketUpdateType.modify ↦ do
    p ← order_of b u.order_id
    let order : Order ℕ = order_at b p
    ok (put_order b p (record order { qty = u.qty }))
  | MarketUpdateType.cancel ↦ do p ← order_of b u.order_id; remove_order b p
  | MarketUpdateType.clear ↦ clear_book b
  | _ ↦ ok b
]

-- `bid_updated` and `ask_updated`, by the best levels before the update.
unfoldable pub bid_updated : Book ℕ → MeMarketUpdate → Bool
bid_updated b u = elim b.bids_by_price [
  | none ↦ false
  | some best ↦ is_buy u.side && not (ltb_ℤ u.price (level_at b best).price)
]

unfoldable pub ask_updated : Book ℕ → MeMarketUpdate → Bool
ask_updated b u = elim b.asks_by_price [
  | none ↦ false
  | some best ↦ is_sell u.side && not (ltb_ℤ (level_at b best).price u.price)
]

abbrev pub is_trade : MarketUpdateType → Bool
is_trade MarketUpdateType.trade = true
is_trade _ = false

-- `onMarketUpdate` up to the call of the trade engine.
unfoldable pub update_book : MarketOrderBook → MeMarketUpdate → Outcome MarketOrderBook
unfolding update_bbo apply_update bid_updated ask_updated
update_book b u =
    let changed = do
      book ← apply_update b.book u
      update_bbo (record b { book = book }) (bid_updated b.book u) (ask_updated b.book u)
    in if is_trade u.type then ok b else changed

abbrev pub notice_of : MeMarketUpdate → Notice
notice_of u =
    if is_trade u.type
    then Notice.trade_update u
    else Notice.order_book_update u.ticker_id u.price u.side

-- `onMarketUpdate`.
unfoldable pub on_market_update : MarketOrderBook → MeMarketUpdate → Outcome MarketOrderBook
unfolding notify update_book
on_market_update b u = do b' ← update_book b u; notify b' (notice_of u)
