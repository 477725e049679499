-- ===== src/Matcher/Resting.antt =====
-- exchange/matcher/me_order_book.cpp: the rest of an order that joins a price level, from the pool
-- to the ring.
use low_latency_learn.Base.{
  ℕ, ◌+◌, ◌<◌, ◌≡◌, ◌≢◌, refl, sym, ap, ◌∙◌, true, false, none, some, List, [], ◌∷◌, ◌++◌, arith,
  update, update_self, update_ne, ok, ◌^◌,
}
use low_latency_learn.Types.{Side, Price, inc64}
use low_latency_learn.Messages.{MeMarketUpdate, MarketUpdateType}
use low_latency_learn.MemPool.{MemPool, IsValid}
use low_latency_learn.MemPool.Blocks.{allocate-fresh}
use low_latency_learn.Book.{Order, Book, order_at, get_orders_at_price, add_order}
use low_latency_learn.Book.Ring.{has, has_ne, last, Ring-outside}
use low_latency_learn.Book.Queues.{Holds, link_order-Holds}
use low_latency_learn.Matcher.{
  MeOrderBook, MeOrderKey, slot, order_index, send_market_update, get_next_priority, rest_order,
}

abbrev pub priority_of : Book MeOrderKey → ℕ → ℕ
priority_of b a = (order_at b a).priority

-- Each order has a higher priority than the one before it.
abbrev pub IsTimed : Book MeOrderKey → ℕ → List ℕ → Type 0
IsTimed b x [] = Unit
IsTimed b x (y ∷ ys) = (priority_of b x < priority_of b y) × IsTimed b y ys

IsTimed-append :
    (b b' : Book MeOrderKey) (x : ℕ) (xs : List ℕ) (z : ℕ)
    → ((a : ℕ) → has a (x ∷ xs) ≡ true → priority_of b' a ≡ priority_of b a)
    → priority_of b' z ≡ priority_of b (last x xs) + 1
    → IsTimed b x xs
    → IsTimed b' x (xs ++ (z ∷ []))
IsTimed-append b b' x [] z same top t = (omega (arith, same x (ground arith)), tt)
IsTimed-append b b' x (y ∷ ys) z same top t = (
  omega (arith, same x (ground arith), same y (ground arith), t.0),
  IsTimed-append b b' y ys z (λ a h. same a (ground arith)) top t.1,
)

-- A level holds what it held while a free block is filled.
Holds-allocated :
    (b : Book MeOrderKey) (pool : MemPool (Order MeOrderKey)) (p : ℕ) (v : Order MeOrderKey)
    (level x : ℕ) (rest : List ℕ)
    → pool.object ≡ update b.order_pool.object p v
    → has p (x ∷ rest) ≡ false
    → Holds b level x rest
    → Holds (record b { order_pool = pool }) level x rest
Holds-allocated b pool p v level x rest written out h = record {
  first = h.first;
  ring =
      Ring-outside x rest h.distinct (λ a i. ap (λ o. o.next_order) (same a i))
        (λ a i. ap (λ o. o.prev_order) (same a i)) h.ring;
  distinct = h.distinct;
}
  where
    same : (a : ℕ) → has a (x ∷ rest) ≡ true → pool.object a ≡ b.order_pool.object a
    same a i =
        ap (λ f. f a) written
        ∙ update_ne b.order_pool.object p a v (λ e. has_ne a p (x ∷ rest) i out (sym e))

get_next_priority-Holds :
    (b : Book MeOrderKey) (price : Price) (level x : ℕ) (rest : List ℕ)
    → get_orders_at_price b price ≡ some level
    → Holds b level x rest
    → priority_of b (last x rest) + 1 < 2 ^ 64
    → get_next_priority b price ≡ ok (priority_of b (last x rest) + 1)
unfolding get_next_priority
get_next_priority-Holds b price level x rest at h short =
    let step : inc64 (priority_of b (last x rest)) ≡ priority_of b (last x rest) + 1 =
      omega arith in
    rw (at, h.first, h.ring.1.1, get_next_priority) (ap ok step)

-- The order that `rest_order` makes, in the block that it gets.
abbrev pub rest_of :
    (client_id client_order_id ticker_id : ℕ)
    → Side
    → Price
    → (leaves_qty id priority : ℕ) → Order MeOrderKey
rest_of client_id client_order_id ticker_id side price leaves_qty id priority = record {
  key = record {
    client_id = ticker_id;
    ticker_id = client_id;
    client_order_id = client_order_id;
    market_order_id = id;
  };
  side = side;
  price = price;
  qty = leaves_qty;
  priority = priority;
  prev_order = none;
  next_order = none;
}

-- The update that tells of it.
abbrev pub add_update :
    (id ticker_id : ℕ) → Side → Price → (leaves_qty priority : ℕ) → MeMarketUpdate
add_update id ticker_id side price leaves_qty priority = record {
  type = MarketUpdateType.add;
  order_id = id;
  ticker_id = ticker_id;
  side = side;
  price = price;
  qty = leaves_qty;
  priority = priority;
}

-- What joins the level: the block `z`, with this quantity, side, price and priority.
pub record Joined (b b' : Book MeOrderKey) (level x : ℕ) (rest : List ℕ) (z : ℕ) (side : Side)
    (price : Price) (qty : ℕ) : Type 0 where
  pub queue : Holds b' level x (rest ++ (z ∷ []))
  pub timed : IsTimed b' x (rest ++ (z ∷ []))
  pub new_side : (order_at b' z).side ≡ side
  pub new_price : (order_at b' z).price ≡ price
  pub new_qty : (order_at b' z).qty ≡ qty
  pub new_priority : priority_of b' z ≡ priority_of b (last x rest) + 1
  pub keys_kept : (a : ℕ) → has a (x ∷ rest) ≡ true → (order_at b' a).key ≡ (order_at b a).key
  pub others_kept : (a : ℕ) → has a (x ∷ rest) ≡ true → (order_at b' a).qty ≡ (order_at b a).qty

-- With two free blocks in the pool, the rest of an order at a price where orders rest by rising
-- priority joins the end of their queue in the next free block, with its own side, price and
-- quantity and the priority after the last one's; the priorities still rise along the queue, no other
-- order of it changes its key or its quantity, and an ADD with the order's id is sent. The priority must not wrap around, the block must not be
-- in the queue, and the client order id, looked up with the ticker as the client, must have a place.
pub rest_order-Joined :
    (b : MeOrderBook) (client_id client_order_id ticker_id : ℕ) (side : Side) (price : Price)
    (leaves_qty id i j level x : ℕ) (rest : List ℕ)
    → IsValid b.book.order_pool
    → j < b.book.order_pool.size
    → j ≢ b.book.order_pool.next_free_index
    → b.book.order_pool.is_free j ≡ true
    → get_orders_at_price b.book price ≡ some level
    → Holds b.book level x rest
    → has b.book.order_pool.next_free_index (x ∷ rest) ≡ false
    → IsTimed b.book x rest
    → priority_of b.book (last x rest) + 1 < 2 ^ 64
    → order_index ticker_id client_order_id ≡ ok i
    → (b' : MeOrderBook) × (rest_order b client_id client_order_id ticker_id side price leaves_qty
          id
        ≡ ok b')
      × Joined b.book b'.book level x rest b.book.order_pool.next_free_index side price leaves_qty
      × ((order_at b'.book b.book.order_pool.next_free_index).key.market_order_id ≡ id)
      × (b'.market_updates
          ≡ b.market_updates
            ++ (add_update id ticker_id side price leaves_qty (priority_of b.book (last x rest) + 1)
                ∷ []))
unfolding rest_order add_order get_orders_at_price
rest_order-Joined b client_id client_order_id ticker_id side price leaves_qty id i j level x rest v
      hj ne free at h out timed short inside =
    let z = b.book.order_pool.next_free_index in
    let top = priority_of b.book (last x rest) + 1 in
    let o : Order MeOrderKey =
      rest_of client_id client_order_id ticker_id side price leaves_qty id top in
    let (pool, got, _, objects, _, _) = allocate-fresh b.book.order_pool o j v hj ne free in
    let filled : Book MeOrderKey = record (b.book) { order_pool = pool } in
    let mine : order_at filled z ≡ o =
      ap (λ f. f z) objects ∙ update_self b.book.order_pool.object z o in
    let others : (a : ℕ) → has a (x ∷ rest) ≡ true → order_at filled a ≡ order_at b.book a = (λ a q.
      ap (λ f. f a) objects
      ∙ update_ne b.book.order_pool.object z a o (λ e. has_ne a z (x ∷ rest) q out (sym e))) in
    let (b', linked, queue, same, _, _) =
      link_order-Holds filled z level x rest
        (ap (λ q. get_orders_at_price b.book q.price) mine ∙ at)
        (Holds-allocated b.book pool z o level x rest objects out h) out in
    let keyed : slot (order_at b' z).key ≡ ok i =
      ap slot (same.keys z ∙ ap (λ q. q.key) mine) ∙ inside in
    let u = add_update id ticker_id side price leaves_qty top in
    (
      send_market_update
          (record b { book = record b' { slot_to_order = update b'.slot_to_order i (some z) } }) u,
      rw (get_next_priority-Holds b.book price level x rest at h short, got, linked, keyed) refl,
      record {
        queue = record { first = queue.first; ring = queue.ring; distinct = queue.distinct };
        timed =
            IsTimed-append b.book b' x rest z
              (λ a q. same.priorities a ∙ ap (λ r. r.priority) (others a q))
              (same.priorities z ∙ ap (λ r. r.priority) mine) timed;
        new_side = same.sides z ∙ ap (λ r. r.side) mine;
        new_price = same.prices z ∙ ap (λ r. r.price) mine;
        new_qty = same.qtys z ∙ ap (λ r. r.qty) mine;
        new_priority = same.priorities z ∙ ap (λ r. r.priority) mine;
        keys_kept = λ a q. same.keys a ∙ ap (λ r. r.key) (others a q);
        others_kept = λ a q. same.qtys a ∙ ap (λ r. r.qty) (others a q);
      },
      ap (λ k. k.market_order_id) (same.keys z ∙ ap (λ q. q.key) mine),
      refl,
    )
