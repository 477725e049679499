-- ===== src/Matcher.antt =====
-- exchange/matcher: the order book of one instrument (me_order_book.cpp over me_order.hpp). What
-- the book hands to the matching engine, by `sendClientResponse` and `sendMarketUpdate`, is kept in
-- the order of the calls; module Engine puts it into the queues.
pub mod Start
pub mod Fills
pub mod Cancels
pub mod Engine
pub mod Requests
pub mod Resting
pub mod Priority
pub mod Strings
pub mod Printer
use low_latency_learn.Base.{
  ℕ, zero, suc, ◌+◌, ◌*◌, ◌%◌, ◌^◌, Bool, true, false, Option, none, some, List, [], ◌∷◌, ◌++◌,
  if◌then◌else◌, ◌==◌, ltb, min, Outcome, ok, failed, out_of_fuel, deref, in_range, ◌>>=◌, ◌>>◌,
}
use low_latency_learn.Base.Int.{ltb_ℤ}
use low_latency_learn.Types.{
  Side, is_buy, is_sell, Price, price_invalid, order_id_invalid, qty_invalid, priority_invalid,
  me_max_num_clients, me_max_order_ids, me_max_price_levels, sub32, inc64,
}
use low_latency_learn.Messages.{
  MeClientResponse, ClientResponseType, MeMarketUpdate, MarketUpdateType,
}
use low_latency_learn.MemPool.{mem_pool, allocate}
use low_latency_learn.Book.{
  Order, OrdersAtPrice, Book, order_at, level_at, put_order, get_orders_at_price, add_order,
  remove_order,
}

-- The identifiers of `MEOrder`, in the order of its constructor's parameters.
pub record MeOrderKey : Type 0 where
  pub client_id : ℕ
  pub ticker_id : ℕ
  pub client_order_id : ℕ
  pub market_order_id : ℕ

-- `m_cid_oid_to_order.at(client_id).at(client_order_id)`: an array of arrays, row after row.
unfoldable pub order_index : ℕ → ℕ → Outcome ℕ
order_index client_id client_order_id = do
  in_range (ltb client_id me_max_num_clients)
  in_range (ltb client_order_id me_max_order_ids)
  ok (client_id * me_max_order_ids + client_order_id)

abbrev pub slot : MeOrderKey → Outcome ℕ
slot key = order_index key.client_id key.client_order_id

pub record MeOrderBook : Type 0 where
  pub ticker_id : ℕ
  pub book : Book MeOrderKey
  pub next_market_order_id : ℕ
  pub client_responses : List MeClientResponse
  pub market_updates : List MeMarketUpdate

abbrev pub send_client_response : MeOrderBook → MeClientResponse → MeOrderBook
send_client_response b r = record b { client_responses = b.client_responses ++ (r ∷ []) }

abbrev pub send_market_update : MeOrderBook → MeMarketUpdate → MeOrderBook
send_market_update b u = record b { market_updates = b.market_updates ++ (u ∷ []) }

unfoldable pub get_next_priority : Book MeOrderKey → Price → Outcome ℕ
get_next_priority b price = elim (get_orders_at_price b price) [
  | none ↦ ok 1
  | some level ↦ do
    first ← deref (level_at b level).first_order
    last ← deref (order_at b first).prev_order
    ok (inc64 (order_at b last).priority)
]

-- The three updates of `match`: the trade; the end of the resting order, with the quantity that it
-- had; or its new quantity.
abbrev pub trade_update : (ticker_id : ℕ) → Side → Price → (fill_qty : ℕ) → MeMarketUpdate
trade_update ticker_id side price fill_qty = record {
  type = MarketUpdateType.trade;
  order_id = order_id_invalid;
  ticker_id = ticker_id;
  side = side;
  price = price;
  qty = fill_qty;
  priority = priority_invalid;
}

abbrev pub filled_update : (ticker_id : ℕ) → Order MeOrderKey → MeMarketUpdate
filled_update ticker_id order = record {
  type = MarketUpdateType.cancel;
  order_id = order.key.market_order_id;
  ticker_id = ticker_id;
  side = order.side;
  price = order.price;
  qty = order.qty;
  priority = priority_invalid;
}

abbrev pub modify_update : (ticker_id : ℕ) → Order MeOrderKey → (left_qty : ℕ) → MeMarketUpdate
modify_update ticker_id order left_qty = record {
  type = MarketUpdateType.modify;
  order_id = order.key.market_order_id;
  ticker_id = ticker_id;
  side = order.side;
  price = order.price;
  qty = left_qty;
  priority = order.priority;
}

-- The first part of `match`: the resting order keeps `left_qty`, both clients are told, and the trade
-- is published. `leaves_qty` is what the incoming order has to go.
abbrev pub fill_order :
    MeOrderBook
    → (ticker_id client_id : ℕ) → Side
    → (client_order_id new_market_order_id itr fill_qty leaves_qty left_qty : ℕ) → MeOrderBook
fill_order b ticker_id client_id side client_order_id new_market_order_id itr fill_qty leaves_qty
      left_qty =
    let order : Order MeOrderKey = order_at b.book itr in
    let b : MeOrderBook = record b {
      book = put_order b.book itr (record order { qty = left_qty });
    } in
    let b : MeOrderBook = send_client_response b (record {
      type = ClientResponseType.filled;
      client_id = client_id;
      ticker_id = ticker_id;
      client_order_id = client_order_id;
      market_order_id = new_market_order_id;
      side = side;
      price = order.price;
      exec_qty = fill_qty;
      leaves_qty = leaves_qty;
    }) in
    let b : MeOrderBook = send_client_response b (record {
      type = ClientResponseType.filled;
      client_id = order.key.client_id;
      ticker_id = ticker_id;
      client_order_id = order.key.client_order_id;
      market_order_id = order.key.market_order_id;
      side = order.side;
      price = order.price;
      exec_qty = fill_qty;
      leaves_qty = left_qty;
    }) in
    send_market_update b (trade_update ticker_id side order.price fill_qty)

-- `match`: one resting order `itr` against an incoming order with `leaves_qty` to go. The quantity
-- that is still to go is the first part of the result.
unfoldable pub match_order :
    MeOrderBook
    → (ticker_id client_id : ℕ) → Side
    → (client_order_id new_market_order_id itr leaves_qty : ℕ) → Outcome (ℕ × MeOrderBook)
match_order b ticker_id client_id side client_order_id new_market_order_id itr leaves_qty =
    let order : Order MeOrderKey = order_at b.book itr in
    let fill_qty = min leaves_qty order.qty in
    let leaves_qty = sub32 leaves_qty fill_qty in
    let left_qty = sub32 order.qty fill_qty in
    let b : MeOrderBook =
      fill_order b ticker_id client_id side client_order_id new_market_order_id itr fill_qty
        leaves_qty left_qty in
    let removal = do
      let b : MeOrderBook = send_market_update b (filled_update ticker_id order)
      book ← remove_order slot b.book itr
      ok (leaves_qty, record b { book = book })
    in if left_qty == 0
      then removal
      else ok (leaves_qty, send_market_update b (modify_update ticker_id order left_qty))

-- The loop of `checkForMatch` over one side; `opposite` is the best level of the other side. Both
-- loops of the source stop at `price < itr->m_price`, for a sell too.
unfoldable pub match_loop :
    (fuel : ℕ)
    → MeOrderBook
    → (opposite : Book MeOrderKey → Option ℕ) → (client_id client_order_id ticker_id : ℕ) → Side
    → Price
    → (leaves_qty new_market_order_id : ℕ) → Outcome (ℕ × MeOrderBook)
match_loop zero b opposite client_id client_order_id ticker_id side price leaves_qty id =
    failed out_of_fuel
match_loop (suc fuel) b opposite client_id client_order_id ticker_id side price leaves_qty id =
    elim (opposite b.book) [
      | none ↦ ok (leaves_qty, b)
      | some level ↦
          let round = do
            itr ← deref (level_at b.book level).first_order
            let rest : Outcome (ℕ × MeOrderBook) = do
              (leaves, b') ←
                  match_order b ticker_id client_id side client_order_id id itr leaves_qty
              match_loop fuel b' opposite client_id client_order_id ticker_id side price leaves id
            if ltb_ℤ price (order_at b.book itr).price then ok (leaves_qty, b) else rest
          in if leaves_qty == 0 then ok (leaves_qty, b) else round
    ]

-- The parameter `new_market_order_id` is declared a `Qty`, so an identifier is cut to 32 bits here.
unfoldable pub check_for_match :
    MeOrderBook
    → (client_id client_order_id ticker_id : ℕ) → Side
    → Price
    → (qty new_market_order_id : ℕ) → Outcome (ℕ × MeOrderBook)
check_for_match b client_id client_order_id ticker_id side price qty new_market_order_id =
    let id = new_market_order_id % 2 ^ 32 in
    let fuel = suc (suc b.book.order_pool.size) in
    if is_buy side
    then match_loop fuel b (λ book. book.asks_by_price) client_id client_order_id ticker_id side
        price qty id
    else if is_sell side
    then match_loop fuel b (λ book. book.bids_by_price) client_id client_order_id ticker_id side
        price qty id
    else ok (qty, b)

-- The first part of `add`: the market order id is drawn, and the order accepted.
abbrev pub accept :
    MeOrderBook → (client_id client_order_id ticker_id : ℕ) → Side → Price → (qty : ℕ) → MeOrderBook
accept b client_id client_order_id ticker_id side price qty =
    let drawn : MeOrderBook = record b { next_market_order_id = inc64 b.next_market_order_id } in
    send_client_response drawn (record {
      type = ClientResponseType.accepted;
      client_id = client_id;
      ticker_id = ticker_id;
      client_order_id = client_order_id;
      market_order_id = b.next_market_order_id;
      side = side;
      price = price;
      exec_qty = 0;
      leaves_qty = qty;
    })

-- Its last part, for what is left to fill. The arguments of `allocate` stand in the source's order:
-- the ticker goes to the client's place of the constructor, and the client to the ticker's.
unfoldable pub rest_order :
    MeOrderBook
    → (client_id client_order_id ticker_id : ℕ) → Side
    → Price
    → (leaves_qty new_market_order_id : ℕ) → Outcome MeOrderBook
rest_order b client_id client_order_id ticker_id side price leaves_qty new_market_order_id = do
  priority ← get_next_priority b.book price
  let key : MeOrderKey = record {
    client_id = ticker_id;
    ticker_id = client_id;
    client_order_id = client_order_id;
    market_order_id = new_market_order_id;
  }
  (order, pool) ← allocate b.book.order_pool (record {
    key = key;
    side = side;
    price = price;
    qty = leaves_qty;
    priority = priority;
    prev_order = none;
    next_order = none;
  })
  book ← add_order slot (record (b.book) { order_pool = pool }) order
  ok (
      send_market_update (record b { book = book })
        (record {
          type = MarketUpdateType.add;
          order_id = new_market_order_id;
          ticker_id = ticker_id;
          side = side;
          price = price;
          qty = leaves_qty;
          priority = priority;
        }))

unfoldable pub add :
    MeOrderBook
    → (client_id client_order_id ticker_id : ℕ) → Side
    → Price
    → (qty : ℕ) → Outcome MeOrderBook
add b client_id client_order_id ticker_id side price qty = do
  let id = b.next_market_order_id
  let accepted : MeOrderBook = accept b client_id client_order_id ticker_id side price qty
  (leaves_qty, b) ← check_for_match accepted client_id client_order_id ticker_id side price qty id
  let rest = rest_order b client_id client_order_id ticker_id side price leaves_qty id
  if leaves_qty == 0 then ok b else rest

-- The order that `cancel` looks up: none for a client out of range.
unfoldable pub find_order : MeOrderBook → (client_id order_id : ℕ) → Outcome (Option ℕ)
find_order b client_id order_id =
    if ltb client_id me_max_num_clients
    then (do i ← order_index client_id order_id; ok (b.book.slot_to_order i))
    else ok none

unfoldable pub cancel : MeOrderBook → (client_id order_id ticker_id : ℕ) → Outcome MeOrderBook
cancel b client_id order_id ticker_id = do
  found ← find_order b client_id order_id
  elim found [
    | none ↦ ok (
        send_client_response b (record {
          type = ClientResponseType.cancel_rejected;
          client_id = client_id;
          ticker_id = ticker_id;
          client_order_id = order_id;
          market_order_id = order_id_invalid;
          side = Side.invalid;
          price = price_invalid;
          exec_qty = qty_invalid;
          leaves_qty = qty_invalid;
        }))
    | some p ↦ do
      let order : Order MeOrderKey = order_at b.book p
      book ← remove_order slot b.book p
      let b : MeOrderBook =
          send_market_update (record b { book = book })
            (record {
              type = MarketUpdateType.cancel;
              order_id = order.key.market_order_id;
              ticker_id = ticker_id;
              side = order.side;
              price = order.price;
              qty = 0;
              priority = order.priority;
            })
      ok (
          send_client_response b (record {
            type = ClientResponseType.canceled;
            client_id = client_id;
            ticker_id = ticker_id;
            client_order_id = order_id;
            market_order_id = order.key.market_order_id;
            side = order.side;
            price = order.price;
            exec_qty = qty_invalid;
            leaves_qty = order.qty;
          }))
  ]
