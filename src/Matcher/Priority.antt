-- ===== src/Matcher/Priority.antt =====
-- exchange/matcher/me_order_book.cpp, `checkForMatch`: in which order the resting orders of a level
-- are filled. Removal has one call of `match`, Loop the loop.
pub mod Published
pub mod Sent
pub mod Removal
pub mod Loop
use mathlib.Core.Path.{subst}
use mathlib.Core.List.{map}
use low_latency_learn.Base.{
  ℕ, zero, suc, ◌+◌, ◌-◌, ◌≤◌, ◌<◌, ◌^◌, ◌≡◌, ◌≢◌, refl, sym, ap, ◌∙◌, inl, inr, Bool, true, false,
  not, Option, none, some, List, [], ◌∷◌, ◌++◌, All, arith, length, ltb, ltb→lt, lt→ltb, min,
  update, update_self, update_ne, ◌==◌, Bool-cases, if◌then◌else◌, Outcome, ok, ◌>>=◌, ◌>>◌, assert,
  deref,
}
use low_latency_learn.Base.Int.{ltb_ℤ}
use low_latency_learn.Types.{Side, Price, sub32}
use low_latency_learn.MemPool.{MemPool, deallocate}
use low_latency_learn.Book.{
  Order, Book, order_at, level_at, put_order, get_orders_at_price, remove_order, unlink_order,
  price_to_index,
}
use low_latency_learn.Book.Ring.{has, has_ne, IsDistinct, Ring-outside, erase}
use low_latency_learn.Book.Queues.{Holds, HoldsAll, next_of, prev_of, Apart, unlink_order-Holds}
use low_latency_learn.Matcher.{
  MeOrderBook, MeOrderKey, slot, match_order, match_loop, check_for_match, fill_order,
  filled_update, modify_update, send_market_update,
}

-- The sum of the quantities of some orders.
abbrev pub total : (ℕ → ℕ) → List ℕ → ℕ
total qty [] = 0
total qty (x ∷ xs) = qty x + total qty xs

-- What a trade of `leaves` leaves of a queue: the orders, and their quantities.
abbrev pub queue_after : (ℕ → ℕ) → (leaves : ℕ) → List ℕ → List ℕ
queue_after qty leaves [] = []
queue_after qty leaves (x ∷ xs) =
    let rest = queue_after qty (leaves - qty x) xs in if ltb leaves (qty x) then x ∷ xs else rest

abbrev pub qtys_after : (ℕ → ℕ) → (leaves : ℕ) → List ℕ → List ℕ
qtys_after qty leaves [] = []
qtys_after qty leaves (x ∷ xs) =
    let rest = qtys_after qty (leaves - qty x) xs in
    if ltb leaves (qty x) then (qty x - leaves) ∷ map qty xs else rest

abbrev pub qty_in : Book MeOrderKey → ℕ → ℕ
qty_in b a = (order_at b a).qty

-- The order in the block `a` rests at this price, and can be taken out of the book.
pub record IsResting (b : Book MeOrderKey) (price : Price) (qty : ℕ → ℕ) (a : ℕ) : Type 0 where
  pub at_price : (order_at b a).price ≡ price
  pub quantity : qty_in b a ≡ qty a
  pub positive : 0 < qty a
  pub small : qty a < 2 ^ 32
  pub in_use : b.order_pool.is_free a ≡ false
  pub in_pool : a < b.order_pool.size
  pub place : ℕ
  pub has_place : slot (order_at b a).key ≡ ok place

-- A change that leaves everything but the order in `x` and links as it was.
pub record Beside (x : ℕ) (b b' : Book MeOrderKey) : Type 0 where
  pub keys : (a : ℕ) → a ≢ x → (order_at b' a).key ≡ (order_at b a).key
  pub sides : (a : ℕ) → a ≢ x → (order_at b' a).side ≡ (order_at b a).side
  pub prices : (a : ℕ) → a ≢ x → (order_at b' a).price ≡ (order_at b a).price
  pub qtys : (a : ℕ) → a ≢ x → qty_in b' a ≡ qty_in b a
  pub priorities : (a : ℕ) → a ≢ x → (order_at b' a).priority ≡ (order_at b a).priority
  pub frees : (a : ℕ) → a ≢ x → b'.order_pool.is_free a ≡ b.order_pool.is_free a
  pub size : b'.order_pool.size ≡ b.order_pool.size
  pub asks : b'.asks_by_price ≡ b.asks_by_price
  pub levels : b'.price_orders_at_price ≡ b.price_orders_at_price

pub IsResting-Beside :
    (x : ℕ) (b b' : Book MeOrderKey) (price : Price) (qty : ℕ → ℕ) (a : ℕ)
    → Beside x b b'
    → a ≢ x
    → IsResting b price qty a
    → IsResting b' price qty a
IsResting-Beside x b b' price qty a k ne h = record {
  at_price = k.prices a ne ∙ h.at_price;
  quantity = k.qtys a ne ∙ h.quantity;
  positive = h.positive;
  small = h.small;
  in_use = k.frees a ne ∙ h.in_use;
  in_pool = subst (λ n. a < n) (sym k.size) h.in_pool;
  place = h.place;
  has_place = ap slot (k.keys a ne) ∙ h.has_place;
}

pub All-Beside :
    (x : ℕ) (b b' : Book MeOrderKey) (price : Price) (qty : ℕ → ℕ) (xs : List ℕ)
    → Beside x b b'
    → has x xs ≡ false
    → All (IsResting b price qty) xs
    → All (IsResting b' price qty) xs
All-Beside x b b' price qty [] k out h = tt
All-Beside x b b' price qty (y ∷ ys) k out h =
    let ne : y ≢ x = ground (arith, out) in
    (
      IsResting-Beside x b b' price qty y k ne h.0,
      All-Beside x b b' price qty ys k (ground (arith, out)) h.1,
    )

pub map-resting :
    (b : Book MeOrderKey) (price : Price) (qty : ℕ → ℕ) (xs : List ℕ)
    → All (IsResting b price qty) xs
    → map (qty_in b) xs ≡ map qty xs
map-resting b price qty [] h = refl
map-resting b price qty (y ∷ ys) h =
    ap (λ n. n ∷ map (qty_in b) ys) h.0.quantity
    ∙ ap (λ l. qty y ∷ l) (map-resting b price qty ys h.1)

-- The quantity of an order is no part of the queue.
pub Holds-put_order :
    (b : Book MeOrderKey) (p n level x : ℕ) (rest : List ℕ)
    → Holds b level x rest
    → Holds (put_order b p (record (order_at b p) { qty = n })) level x rest
Holds-put_order b p n level x rest h = record {
  first = h.first;
  ring = Ring-outside x rest h.distinct (λ a i. ground arith) (λ a i. ground arith) h.ring;
  distinct = h.distinct;
}

-- What the trade leaves of the level.
pub record IsTraded (b : Book MeOrderKey) (level : ℕ) (qty : ℕ → ℕ) (leaves : ℕ) (q : List ℕ)
    : Type 0 where
  pub queue : HoldsAll b level (queue_after qty leaves q)
  pub qtys : map (qty_in b) (queue_after qty leaves q) ≡ qtys_after qty leaves q

pub Beside-put_order :
    (b : Book MeOrderKey) (x n : ℕ) → Beside x b (put_order b x (record (order_at b x) { qty = n }))
Beside-put_order b x n =
    let other : (a : ℕ)
        → a ≢ x
        → order_at (put_order b x (record (order_at b x) { qty = n })) a ≡ order_at b a =
      λ a ne.
        update_ne b.order_pool.object x a (record (order_at b x) { qty = n }) (λ e. ne (sym e)) in
    record {
      keys = λ a ne. ap (λ o. o.key) (other a ne);
      sides = λ a ne. ap (λ o. o.side) (other a ne);
      prices = λ a ne. ap (λ o. o.price) (other a ne);
      priorities = λ a ne. ap (λ o. o.priority) (other a ne);
      qtys = λ a ne. ap (λ o. o.qty) (other a ne);
      frees = λ a ne. refl;
      size = refl;
      asks = refl;
      levels = refl;
    }
