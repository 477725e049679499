-- ===== src/Book.antt =====
-- The linked structure that exchange/matcher/me_order_book.cpp and
-- trading/strategy/market_order_book.cpp share, statement for statement: a ring of price levels for
-- each side, and in each level a ring of orders. A pointer is the index of a block of its pool.
-- What the two books know of an order beyond that is its key, of type `K`; `slot` is the place of a
-- key in the book's array of orders, with the bounds check of `at`.
pub mod Pools
pub mod Ring
pub mod Blocks
pub mod Removal
pub mod Queues
pub mod Levels
pub mod Lost
use low_latency_learn.Base.{
  ℕ, zero, suc, ◌+◌, ◌%◌, Bool, true, false, not, ◌&&◌, ◌||◌, Option, none, some, if◌then◌else◌,
  ◌==◌, update, Outcome, ok, failed, out_of_fuel, deref, ◌>>=◌, ◌>>◌,
}
use low_latency_learn.Base.Int.{ltb_ℤ, eqb_ℤ, pos}
use low_latency_learn.Types.{Side, is_buy, is_sell, Price, me_max_price_levels, to_u64}
use low_latency_learn.MemPool.{MemPool, allocate, deallocate}

pub record Order (K : Type 0) : Type 0 where
  pub key : K
  pub side : Side
  pub price : Price
  pub qty : ℕ
  pub priority : ℕ
  pub prev_order : Option ℕ
  pub next_order : Option ℕ

pub record OrdersAtPrice : Type 0 where
  pub side : Side
  pub price : Price
  pub first_order : Option ℕ
  pub prev_entry : Option ℕ
  pub next_entry : Option ℕ

pub record Book (K : Type 0) : Type 0 where
  pub slot_to_order : ℕ → Option ℕ
  pub orders_at_price_pool : MemPool OrdersAtPrice
  pub bids_by_price : Option ℕ
  pub asks_by_price : Option ℕ
  pub price_orders_at_price : ℕ → Option ℕ
  pub order_pool : MemPool (Order K)

-- Two pointers compared with `==`.
abbrev pub same_pointer : Option ℕ → Option ℕ → Bool
same_pointer none none = true
same_pointer none (some q) = false
same_pointer (some p) none = false
same_pointer (some p) (some q) = p == q

-- The price is converted to size_t before `%`, so that the index is never negative.
unfoldable pub price_to_index : Price → ℕ
price_to_index price = to_u64 price % me_max_price_levels

-- The test `add_after`: for a bid it only asks that the new price is not 0.
unfoldable pub goes_after : OrdersAtPrice → OrdersAtPrice → Bool
goes_after new target =
    (is_sell new.side && ltb_ℤ target.price new.price)
    || (is_buy new.side && not (eqb_ℤ new.price (pos 0)))

module _ {K : Type 0} where
  abbrev pub order_at : Book K → ℕ → Order K
  order_at b p = b.order_pool.object p

  abbrev pub level_at : Book K → ℕ → OrdersAtPrice
  level_at b p = b.orders_at_price_pool.object p

  -- `*p = o` on an order and on a level.
  abbrev pub put_order : Book K → ℕ → Order K → Book K
  put_order b p o = record b {
    order_pool = record (b.order_pool) { object = update b.order_pool.object p o };
  }

  abbrev pub put_level : Book K → ℕ → OrdersAtPrice → Book K
  put_level b p l = record b {
    orders_at_price_pool = record (b.orders_at_price_pool) {
      object = update b.orders_at_price_pool.object p l;
    };
  }

  abbrev pub set_next_order : Book K → ℕ → Option ℕ → Book K
  set_next_order b p v = put_order b p (record (order_at b p) { next_order = v })

  abbrev pub set_prev_order : Book K → ℕ → Option ℕ → Book K
  set_prev_order b p v = put_order b p (record (order_at b p) { prev_order = v })

  abbrev pub set_next_entry : Book K → ℕ → Option ℕ → Book K
  set_next_entry b p v = put_level b p (record (level_at b p) { next_entry = v })

  abbrev pub set_prev_entry : Book K → ℕ → Option ℕ → Book K
  set_prev_entry b p v = put_level b p (record (level_at b p) { prev_entry = v })

  unfoldable pub get_orders_at_price : Book K → Price → Option ℕ
  unfolding price_to_index
  get_orders_at_price b price = b.price_orders_at_price (price_to_index price)

  -- `side == Side::BUY ? m_bids_by_price : m_asks_by_price`, read and written.
  abbrev pub best_by_price : Book K → Side → Option ℕ
  best_by_price b side = if is_buy side then b.bids_by_price else b.asks_by_price

  abbrev pub set_best_by_price : Book K → Side → Option ℕ → Book K
  set_best_by_price b side v =
      if is_buy side then record b { bids_by_price = v } else record b { asks_by_price = v }

  -- The `while (add_after && target != best_orders_by_price)`, with the two variables that it changes.
  unfoldable pub find_target :
      (fuel : ℕ) → Book K → OrdersAtPrice → (best target : ℕ) → Bool → Outcome (ℕ × Bool)
  find_target zero b new best target add_after = failed out_of_fuel
  find_target (suc fuel) b new best target add_after =
      let again = goes_after new (level_at b target) in
      let onwards = do t ← deref (level_at b target).next_entry; find_target fuel b new best t true
      in let stay = find_target fuel b new best target false in
        if add_after && not (target == best)
        then if again then onwards else stay
        else ok (target, add_after)

  -- The branch `if (add_after)` at its end: behind `target`.
  unfoldable pub insert_behind : Book K → (new best target : ℕ) → Outcome (Book K)
  insert_behind b new best target = do
    target ← if target == best then deref (level_at b best).prev_entry else ok target
    let b : Book K = set_prev_entry b new (some target)
    after ← deref (level_at b target).next_entry
    let b : Book K = set_prev_entry b after (some new)
    let b : Book K = set_next_entry b new (level_at b target).next_entry
    ok (set_next_entry b target (some new))

  -- The end of the other branch: a level that is better than the best one takes its place.
  unfoldable pub become_best : Book K → (new best target : ℕ) → Book K
  become_best b new best target =
      let l : OrdersAtPrice = level_at b new in
      let is_best =
        (is_buy l.side && ltb_ℤ (level_at b best).price l.price)
        || (is_sell l.side && ltb_ℤ l.price (level_at b best).price) in
      let closed : Option ℕ =
        if same_pointer (level_at b target).next_entry (some best)
        then some new
        else (level_at b target).next_entry in
      if is_best then set_best_by_price (set_next_entry b target closed) l.side (some new) else b

  -- The other branch, its `else`: before `target`. As in the source, the new level's `prev_entry` is
  -- taken from `next_entry`, and the `prev_entry` of `target` is left alone.
  unfoldable pub insert_before : Book K → (new best target : ℕ) → Outcome (Book K)
  insert_before b new best target = do
    let b : Book K = set_prev_entry b new (level_at b target).next_entry
    let b : Book K = set_next_entry b new (some target)
    before ← deref (level_at b target).prev_entry
    ok (become_best (set_next_entry b before (some new)) new best target)

  -- The `else` of `addOrdersAtPrice`: a side that has levels, with its best one.
  unfoldable pub place_level : Book K → (new best : ℕ) → Outcome (Book K)
  place_level b new best = do
    let l : OrdersAtPrice = level_at b new
    let add_after = goes_after l (level_at b best)
    target ← if add_after then deref (level_at b best).next_entry else ok best
    let add_after = add_after && goes_after l (level_at b target)
    let fuel = suc b.orders_at_price_pool.size
    (target, add_after) ← find_target fuel b l best target add_after
    if add_after then insert_behind b new best target else insert_before b new best target

  unfoldable pub add_orders_at_price : Book K → ℕ → Outcome (Book K)
  unfolding price_to_index
  add_orders_at_price b new =
      let l : OrdersAtPrice = level_at b new in
      let b : Book K = record b {
        price_orders_at_price = update b.price_orders_at_price (price_to_index l.price) (some new);
      } in
      elim (best_by_price b l.side) [
        | none ↦ ok (
            set_next_entry (set_prev_entry (set_best_by_price b l.side (some new)) new (some new))
              new (some new))
        | some best ↦ place_level b new best
      ]

  unfoldable pub remove_orders_at_price : Book K → Side → Price → Outcome (Book K)
  unfolding price_to_index
  remove_orders_at_price b side price = do
    let best = best_by_price b side
    p ← deref (get_orders_at_price b price)
    b ←
        if same_pointer (level_at b p).next_entry (some p)
        then ok (set_best_by_price b side none)
        else do
          before ← deref (level_at b p).prev_entry
          let b : Book K = set_next_entry b before (level_at b p).next_entry
          after ← deref (level_at b p).next_entry
          let b : Book K = set_prev_entry b after (level_at b p).prev_entry
          let b : Book K =
              if same_pointer (some p) best
              then set_best_by_price b side (level_at b p).next_entry
              else b
          ok (set_next_entry (set_prev_entry b p none) p none)
    let b : Book K = record b {
      price_orders_at_price = update b.price_orders_at_price (price_to_index price) none;
    }
    pool ← deallocate b.orders_at_price_pool p
    ok (record b { orders_at_price_pool = pool })

  -- The part of `removeOrder` before the array and the pool: the order leaves its ring.
  unfoldable pub unlink_order : Book K → ℕ → Outcome (Book K)
  unlink_order b order =
      let o : Order K = order_at b order in
      let level = get_orders_at_price b o.price in
      if same_pointer o.prev_order (some order) then remove_orders_at_price b o.side o.price else do
        before ← deref o.prev_order
        after ← deref o.next_order
        let b : Book K = set_next_order b before (some after)
        let b : Book K = set_prev_order b after (some before)
        l ← deref level
        let b : Book K =
            if same_pointer (level_at b l).first_order (some order)
            then put_level b l (record (level_at b l) { first_order = some after })
            else b
        ok (set_next_order (set_prev_order b order none) order none)

  -- The part of `addOrder` before the array: the order joins the ring of its price, or opens one.
  unfoldable pub link_order : Book K → ℕ → Outcome (Book K)
  link_order b order =
      let o : Order K = order_at b order in
      elim (get_orders_at_price b o.price) [
        | none ↦ do
          let b : Book K = set_next_order (set_prev_order b order (some order)) order (some order)
          let fresh : OrdersAtPrice = record {
            side = o.side;
            price = o.price;
            first_order = some order;
            prev_entry = none;
            next_entry = none;
          }
          (new, pool) ← allocate b.orders_at_price_pool fresh
          add_orders_at_price (record b { orders_at_price_pool = pool }) new
        | some level ↦ do
          first ← deref (level_at b level).first_order
          last ← deref (order_at b first).prev_order
          let b : Book K = set_next_order b last (some order)
          let b : Book K = set_prev_order b order (order_at b first).prev_order
          let b : Book K = set_next_order b order (some first)
          ok (set_prev_order b first (some order))
      ]

module _ {K : Type 0} (slot : K → Outcome ℕ) where
  unfoldable pub add_order : Book K → ℕ → Outcome (Book K)
  add_order b order = do
    b ← link_order b order
    i ← slot (order_at b order).key
    ok (record b { slot_to_order = update b.slot_to_order i (some order) })

  unfoldable pub remove_order : Book K → ℕ → Outcome (Book K)
  remove_order b order = do
    b ← unlink_order b order
    i ← slot (order_at b order).key
    pool ← deallocate b.order_pool order
    ok (record b { slot_to_order = update b.slot_to_order i none; order_pool = pool })
