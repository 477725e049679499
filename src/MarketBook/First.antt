-- ===== src/MarketBook/First.antt =====
-- trading/strategy/market_order_book.cpp, `onMarketUpdate`: the first order of a side.
use low_latency_learn.Base.{
  ℕ, ◌<◌, ◌≡◌, ◌≢◌, refl, ap, ◌∙◌, inl, inr, true, false, none, some, [], ◌∷◌, arith, ltb, update,
  update_self, ok, Option-cases,
}
use low_latency_learn.Types.{Side, me_max_order_ids}
use low_latency_learn.Messages.{MeMarketUpdate, MarketUpdateType}
use low_latency_learn.MemPool.{MemPool, IsValid, allocate}
use low_latency_learn.MemPool.Blocks.{allocate-fresh}
use low_latency_learn.Book.{
  Order, OrdersAtPrice, Book, order_at, level_at, get_orders_at_price, link_order,
  add_orders_at_price, price_to_index, set_next_entry, set_prev_entry, set_next_order,
  set_prev_order,
}
use low_latency_learn.Book.Ring.{Linked}
use low_latency_learn.Book.Queues.{HoldsAll, next_of, prev_of}
use low_latency_learn.MarketBook.Queue.Sides.{update_book-run, on_market_update-notify}
use low_latency_learn.MarketBook.Queue.Adds.{order_of_update, apply_update-linked}
use low_latency_learn.MarketBook.{
  MarketOrderBook, notify, notice_of, new_bbo, bid_updated, ask_updated, update_book,
  on_market_update, is_trade,
}

-- A pool from which a block can be had: it is valid, and a second block is free.
pub record HasRoom {T : Type 0} (pool : MemPool T) : Type 0 where
  pub valid : IsValid pool
  pub second : ℕ
  pub in_store : second < pool.size
  pub other : second ≢ pool.next_free_index
  pub is_free : pool.is_free second ≡ true

got_block :
    {T : Type 0} (pool : MemPool T) (value : T)
    → HasRoom pool
    → (pool' : MemPool T) × (allocate pool value ≡ ok (pool.next_free_index, pool'))
      × (pool'.object pool.next_free_index ≡ value)
got_block pool value r =
    let (pool', got, v, objects, frees, size) =
      allocate-fresh pool value r.second r.valid r.in_store r.other r.is_free in
    (
      pool',
      got,
      ap (λ f. f pool.next_free_index) objects ∙ update_self pool.object pool.next_free_index value,
    )

-- The book in which `new` is the only bid level.
abbrev first_bid : Book ℕ → (new : ℕ) → Book ℕ
first_bid b new =
    let b₁ : Book ℕ = record b {
      price_orders_at_price =
          update b.price_orders_at_price (price_to_index (level_at b new).price) (some new);
      bids_by_price = some new;
    } in
    set_next_entry (set_prev_entry b₁ new (some new)) new (some new)

add_orders_at_price-first :
    (b : Book ℕ) (new : ℕ)
    → (level_at b new).side ≡ Side.buy
    → b.bids_by_price ≡ none
    → add_orders_at_price b new ≡ ok (first_bid b new)
unfolding add_orders_at_price
add_orders_at_price-first b new side empty = simp (side, empty, add_orders_at_price) refl

-- The order is the only one of its level.
abbrev alone : Book ℕ → (order : ℕ) → Book ℕ
alone b order = set_next_order (set_prev_order b order (some order)) order (some order)

abbrev level_of : Order ℕ → (order : ℕ) → OrdersAtPrice
level_of o order = record {
  side = o.side;
  price = o.price;
  first_order = some order;
  prev_entry = none;
  next_entry = none;
}

link_order-first :
    (b : Book ℕ) (order new : ℕ) (pool : MemPool OrdersAtPrice)
    → get_orders_at_price b (order_at b order).price ≡ none
    → allocate b.orders_at_price_pool (level_of (order_at b order) order) ≡ ok (new, pool)
    → link_order b order
      ≡ add_orders_at_price (record (alone b order) { orders_at_price_pool = pool }) new
unfolding link_order
link_order-first b order new pool at got = rw (at, got, link_order) refl

bid_updated-empty :
    (b : Book ℕ) (u : MeMarketUpdate)
    → u.side ≡ Side.buy
    → b.bids_by_price ≡ none
    → (bid_updated b u ≡ false) × (ask_updated b u ≡ false)
unfolding bid_updated ask_updated
bid_updated-empty b u side empty = (
  rw (empty, bid_updated) refl,
  elim (Option-cases b.asks_by_price) [
    | inl e ↦ rw (e, ask_updated) refl
    | inr (ask, e) ↦ rw (e, side, ask_updated) refl
  ],
)

module _ (b : Book ℕ) (order : ℕ) where
  key-alone : (order_at (alone b order) order).key ≡ (order_at b order).key
  key-alone = ground arith

  price-alone : (order_at (alone b order) order).price ≡ (order_at b order).price
  price-alone = ground arith

  qty-alone : (order_at (alone b order) order).qty ≡ (order_at b order).qty
  qty-alone = ground arith

  links-alone : Linked (next_of (alone b order)) (prev_of (alone b order)) order order
  links-alone = ground arith

  first_order-first_bid :
      (level_at (first_bid b order) order).first_order ≡ (level_at b order).first_order
  first_order-first_bid = ground arith

-- The only bid of a book is in it.
pub record IsOnlyBid (b : Book ℕ) (u : MeMarketUpdate) (level order : ℕ) : Type 0 where
  pub best : b.bids_by_price ≡ some level
  pub queue : HoldsAll b level (order ∷ [])
  pub price : (order_at b order).price ≡ u.price
  pub qty : (order_at b order).qty ≡ u.qty

-- The first bid of a book, at a price that has no level, joins the book as its only and best bid, in
-- a level of its own, but the best bid and offer stay as they were, up to the call of the trade
-- engine, which is all that is left of `onMarketUpdate` then. The id of the order has a place in the
-- array of orders, and both pools have room for one more.
pub on_market_update-IsOnlyBid :
    (b : MarketOrderBook) (u : MeMarketUpdate)
    → u.type ≡ MarketUpdateType.add
    → u.side ≡ Side.buy
    → ltb u.order_id me_max_order_ids ≡ true
    → b.book.bids_by_price ≡ none
    → get_orders_at_price b.book u.price ≡ none
    → HasRoom b.book.order_pool
    → HasRoom b.book.orders_at_price_pool
    → (b' : MarketOrderBook) × (update_book b u ≡ ok b')
      × IsOnlyBid b'.book u b.book.orders_at_price_pool.next_free_index
          b.book.order_pool.next_free_index
      × (b'.bbo ≡ b.bbo)
      × (on_market_update b u ≡ notify b' (notice_of u))
unfolding get_orders_at_price new_bbo
on_market_update-IsOnlyBid b u ty side place empty at room levels =
    let quiet = bid_updated-empty b.book u side empty in
    let order = b.book.order_pool.next_free_index in
    let new = b.book.orders_at_price_pool.next_free_index in
    let o : Order ℕ = order_of_update u in
    let (pool, got, mine) = got_block b.book.order_pool o room in
    let filled : Book ℕ = record (b.book) { order_pool = pool } in
    let l : OrdersAtPrice = level_of (order_at filled order) order in
    let (pool', got', fresh) = got_block b.book.orders_at_price_pool l levels in
    let opened : Book ℕ = record (alone filled order) { orders_at_price_pool = pool' } in
    let sided : (level_at opened new).side ≡ Side.buy =
      ap (λ v. v.side) fresh ∙ ap (λ v. v.side) mine ∙ side in
    let c : Book ℕ = first_bid opened new in
    let linked : link_order filled order ≡ ok c =
      link_order-first filled order new pool'
        (ap (λ v. get_orders_at_price filled v.price) mine ∙ at) got'
      ∙ add_orders_at_price-first opened new sided empty in
    let book : Book ℕ = record c {
      slot_to_order = update c.slot_to_order u.order_id (some order);
    } in
    let done : update_book b u ≡ ok (record b { book = book }) =
      update_book-run b u book false false b.bbo (ap is_trade ty)
        (apply_update-linked b.book c u order pool ty got linked
          (key-alone filled order ∙ ap (λ v. v.key) mine) place)
        quiet.0 quiet.1 refl in
    (
      record b { book = book },
      done,
      record {
        best = refl;
        queue = record {
          first = first_order-first_bid opened new ∙ ap (λ v. v.first_order) fresh;
          ring = (tt, links-alone filled order);
          distinct = (refl, tt);
        };
        price = price-alone filled order ∙ ap (λ v. v.price) mine;
        qty = qty-alone filled order ∙ ap (λ v. v.qty) mine;
      },
      refl,
      on_market_update-notify b u done,
    )
