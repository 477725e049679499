-- ===== src/Matcher/Printer.antt =====
-- exchange/matcher/me_order_book.cpp: the book as text, with the check that its levels are sorted
-- (`toString` and the destructor). Lines has the line of a level,
-- Sorted what the check finds.
pub mod Lines
pub mod Sorted
use Prim.Native.String.{String, ◌++◌}
use low_latency_learn.Base.{
  ℕ, zero, suc, ◌+◌, ◌-◌, ◌^◌, Bool, true, false, not, ◌&&◌, ◌||◌, Option, none, some,
  if◌then◌else◌, Outcome, ok, failed, out_of_fuel, deref, fatal, ◌>>=◌,
}
use low_latency_learn.Base.Int.{ℤ, pos, negsuc, ltb_ℤ}
use low_latency_learn.Types.{Side, is_buy, is_sell, Price, add32}
use low_latency_learn.Types.Strings.{
  order_id_to_string, ticker_id_to_string, qty_to_string, price_to_string,
}
use low_latency_learn.Book.{Order, OrdersAtPrice, Book, order_at, level_at, same_pointer}
use low_latency_learn.Matcher.Strings.{linked_id}
use low_latency_learn.Matcher.{MeOrderBook, MeOrderKey}

-- `numeric_limits<Price>::min()` and `max()`.
abbrev pub price_min : Price
price_min = negsuc (2 ^ 63 - 1)

abbrev pub price_max : Price
price_max = pos (2 ^ 63 - 1)

-- The test that ends in FATAL: the level does not follow the last one in its side's order.
abbrev pub is_unsorted : Side → (last_price price : Price) → Bool
is_unsorted side last_price price =
    (is_sell side && not (ltb_ℤ last_price price)) || (is_buy side && not (ltb_ℤ price last_price))

-- The check at the end of `printer`, and the new `last_price`.
abbrev pub next_price : (sanity_check : Bool) → Side → (last_price price : Price) → Outcome Price
next_price sanity_check side last_price price =
    let checked = if is_unsorted side last_price price then fatal else ok price in
    if sanity_check then checked else ok last_price

-- The quantity and the number of the orders of a level, from `order` on to the one before the first.
unfoldable pub count_orders :
    (fuel : ℕ) → Book MeOrderKey → (first order qty num_orders : ℕ) → Outcome (ℕ × ℕ)
count_orders zero b first order qty num_orders = failed out_of_fuel
count_orders (suc fuel) b first order qty num_orders =
    let o : Order MeOrderKey = order_at b order in
    let rest = do
      next ← deref o.next_order
      count_orders fuel b first next (add32 qty o.qty) (num_orders + 1)
    in if same_pointer o.next_order (some first) then ok (add32 qty o.qty, num_orders + 1) else rest

-- The digits of a number, and `sprintf` of `%<width>s`, a negative width standing for `-`.
module _ (digits : ℤ → String) (padded : (width : ℤ) → String → String) where
  -- An order and its neighbours, if that is asked for.
  unfoldable pub order_text : Book MeOrderKey → (detailed : Bool) → (order : ℕ) → String
  order_text b false order = ""
  order_text b true order =
      let o : Order MeOrderKey = order_at b order in
      "[oid:"
      ++ order_id_to_string digits o.key.market_order_id
      ++ " q:"
      ++ qty_to_string digits o.qty
      ++ " p:"
      ++ linked_id digits b o.prev_order
      ++ " n:"
      ++ linked_id digits b o.next_order
      ++ "] "

  -- The orders of a level, from `order` on.
  unfoldable pub print_orders :
      (fuel : ℕ) → Book MeOrderKey → (detailed : Bool) → (first order : ℕ) → Outcome String
  print_orders zero b detailed first order = failed out_of_fuel
  print_orders (suc fuel) b detailed first order =
      let next_order = (order_at b order).next_order in
      let rest = do
        next ← deref next_order
        behind ← print_orders fuel b detailed first next
        ok (order_text b detailed order ++ behind)
      in if same_pointer next_order (some first) then ok (order_text b detailed order) else rest

  -- The line of a level.
  unfoldable pub level_line :
      Book MeOrderKey → (level prev next qty num_orders : ℕ) → (orders : String) → String
  level_line b level prev next qty num_orders orders =
      let price : String = price_to_string digits (level_at b level).price in
      " <px:"
      ++ padded (pos 3) price
      ++ " p:"
      ++ padded (pos 3) (price_to_string digits (level_at b prev).price)
      ++ " n:"
      ++ padded (pos 3) (price_to_string digits (level_at b next).price)
      ++ "> "
      ++ padded (negsuc 2) price
      ++ " @ "
      ++ padded (negsuc 4) (qty_to_string digits qty)
      ++ "("
      ++ padded (negsuc 3) (digits (pos num_orders))
      ++ ")"
      ++ orders
      ++ "\n"

  -- The lambda `printer`: the line of a level, and the new `last_price`.
  unfoldable pub print_level :
      Book MeOrderKey
      → (detailed sanity_check : Bool) → Side
      → (last_price : Price) → (level : ℕ) → Outcome (String × Price)
  unfolding count_orders print_orders level_line
  print_level b detailed sanity_check side last_price level = do
    let l : OrdersAtPrice = level_at b level
    let fuel = suc b.order_pool.size
    first ← deref l.first_order
    (qty, num_orders) ← count_orders fuel b first first 0 0
    prev ← deref l.prev_entry
    next ← deref l.next_entry
    orders ← print_orders fuel b detailed first first
    let text : String = level_line b level prev next qty num_orders orders
    last ← next_price sanity_check side last_price l.price
    ok (text, last)

  -- The loop over the levels of a side.
  unfoldable pub print_levels :
      (fuel : ℕ)
      → Book MeOrderKey
      → (detailed validity_check : Bool) → Side
      → (name : String) → (count : ℕ) → (last_price : Price) → (best level : Option ℕ)
      → Outcome String
  print_levels zero b detailed validity_check side name count last_price best level =
      failed out_of_fuel
  print_levels (suc fuel) b detailed validity_check side name count last_price best none = ok ""
  print_levels (suc fuel) b detailed validity_check side name count last_price best (some level) =
      let next_entry = (level_at b level).next_entry in
      let next = if same_pointer next_entry best then none else next_entry in
      do
        (text, last) ← print_level b detailed validity_check side last_price level
        rest ← print_levels fuel b detailed validity_check side name (count + 1) last best next
        ok (name ++ " L:" ++ digits (pos count) ++ " => " ++ text ++ rest)

  -- `MEOrderBook::toString`
  unfoldable pub me_order_book_to_string :
      MeOrderBook → (detailed validity_check : Bool) → Outcome String
  unfolding print_levels
  me_order_book_to_string b detailed validity_check = do
    let book : Book MeOrderKey = b.book
    let fuel = suc (suc book.orders_at_price_pool.size)
    let best_ask = book.asks_by_price
    let best_bid = book.bids_by_price
    asks ←
        print_levels fuel book detailed validity_check Side.sell "ASKS" 0 price_min best_ask
          best_ask
    bids ←
        print_levels fuel book detailed validity_check Side.buy "BIDS" 0 price_max best_bid best_bid
    ok (
        "Ticker:"
        ++ ticker_id_to_string digits b.ticker_id
        ++ "\n"
        ++ asks
        ++ "\n                          X\n\n"
        ++ bids)

  -- The destructor: the book is checked and logged, and its pointers are cleared.
  unfoldable pub destroy : MeOrderBook → Outcome MeOrderBook
  unfolding me_order_book_to_string
  destroy b = do
    text ← me_order_book_to_string b false true
    ok (record b {
      book = record (b.book) {
        slot_to_order = λ i. none;
        bids_by_price = none;
        asks_by_price = none;
      };
    })
