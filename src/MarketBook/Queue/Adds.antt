-- ===== src/MarketBook/Queue/Adds.antt =====
-- trading/strategy/market_order_book.cpp, `onMarketUpdate`: an ADD at a price that has orders.
use low_latency_learn.Base.{
  ℕ, ◌<◌, ◌^◌, ◌≡◌, ◌≢◌, refl, sym, ap, ◌∙◌, inl, inr, true, false, Option, none, some, List, [],
  ◌∷◌, ◌++◌, arith, ltb, update, update_self, update_ne, Bool-cases, ok,
}
use mathlib.Core.Path.{subst}
use low_latency_learn.Types.{Price, me_max_order_ids}
use low_latency_learn.Messages.{MeMarketUpdate, MarketUpdateType}
use low_latency_learn.MemPool.{MemPool, IsValid, allocate}
use low_latency_learn.MemPool.Blocks.{allocate-fresh}
use low_latency_learn.Book.{
  Order, Book, order_at, level_at, get_orders_at_price, add_order, link_order, price_to_index,
}
use low_latency_learn.Book.Ring.{has, has_ne, Ring-outside}
use low_latency_learn.Book.Queues.{HoldsAll, SameData, link_order-Holds}
use low_latency_learn.MarketBook.{apply_update}
use low_latency_learn.MarketBook.Queue.{Quote, has_id, Shows, has_id_ne}
use low_latency_learn.MarketBook.Queue.Changes.{IsChanged}
use low_latency_learn.MarketBook.Queue.With.{IsWith, IsShown-new, quotes-snoc, orders-snoc}

-- The new order in its block.
abbrev pub order_of_update : MeMarketUpdate → Order ℕ
order_of_update u = record {
  key = u.order_id;
  side = u.side;
  price = u.price;
  qty = u.qty;
  priority = u.priority;
  prev_order = none;
  next_order = none;
}

HoldsAll-written :
    (b : Book ℕ) (pool : MemPool (Order ℕ)) (z : ℕ) (v : Order ℕ) (level : ℕ) (xs : List ℕ)
    → ((a : ℕ) → has a xs ≡ true → pool.object a ≡ order_at b a)
    → HoldsAll b level xs
    → HoldsAll (record b { order_pool = pool }) level xs
HoldsAll-written b pool z v level [] same h = h
HoldsAll-written b pool z v level (x ∷ rest) same h = record {
  first = h.first;
  ring =
      Ring-outside x rest h.distinct (λ a i. ap (λ o. o.next_order) (same a i))
        (λ a i. ap (λ o. o.prev_order) (same a i)) h.ring;
  distinct = h.distinct;
}

link_order-HoldsAll :
    (b : Book ℕ) (z level : ℕ) (xs : List ℕ)
    → get_orders_at_price b (order_at b z).price ≡ some level
    → HoldsAll b level xs
    → has z xs ≡ false
    → (b' : Book ℕ) × (link_order b z ≡ ok b')
      × HoldsAll b' level (xs ++ (z ∷ []))
      × SameData b b'
      × (b' ≡ record b { order_pool = b'.order_pool })
      × (b'.order_pool ≡ record (b.order_pool) { object = b'.order_pool.object })
link_order-HoldsAll b z level [] at h out = absurd h
link_order-HoldsAll b z level (x ∷ rest) at h out = link_order-Holds b z level x rest at h out

pub apply_update-linked :
    (b b' : Book ℕ) (u : MeMarketUpdate) (z : ℕ) (pool : MemPool (Order ℕ))
    → u.type ≡ MarketUpdateType.add
    → allocate b.order_pool (order_of_update u) ≡ ok (z, pool)
    → link_order (record b { order_pool = pool }) z ≡ ok b'
    → (order_at b' z).key ≡ u.order_id
    → ltb u.order_id me_max_order_ids ≡ true
    → apply_update b u
      ≡ ok (record b' { slot_to_order = update b'.slot_to_order u.order_id (some z) })
unfolding apply_update add_order
apply_update-linked b b' u z pool ty got linked key place =
    rw (ty, got, linked, key, place, apply_update, add_order) refl

HoldsAll-filed :
    (b : Book ℕ) (slots : ℕ → Option ℕ) (level : ℕ) (xs : List ℕ)
    → HoldsAll b level xs
    → HoldsAll (record b { slot_to_order = slots }) level xs
HoldsAll-filed b slots level [] h = h
HoldsAll-filed b slots level (x ∷ rest) h = record {
  first = h.first;
  ring = h.ring;
  distinct = h.distinct;
}

module _ (b : Book ℕ) (u : MeMarketUpdate) (price : Price) (level : ℕ) (q : List Quote)
    (h : Shows b price level q) where
  fresh_outside : has b.order_pool.next_free_index h.blocks ≡ false
  fresh_outside = elim (Bool-cases (has b.order_pool.next_free_index h.blocks)) [
    | inr out ↦ out
    | inl i ↦
        let busy = (h.orders b.order_pool.next_free_index i).in_use in
        ground (arith, busy, h.valid.next_is_free)
  ]

  pub apply_update-add :
      (j : ℕ)
      → u.type ≡ MarketUpdateType.add
      → u.price ≡ price
      → u.qty < 2 ^ 32
      → ltb u.order_id me_max_order_ids ≡ true
      → has_id u.order_id q ≡ false
      → j < b.order_pool.size
      → j ≢ b.order_pool.next_free_index
      → b.order_pool.is_free j ≡ true
      → (b' : Book ℕ) × (apply_update b u ≡ ok b')
        × IsChanged b b' price level (q ++ ((u.order_id, u.qty) ∷ []))
  unfolding get_orders_at_price
  apply_update-add j ty here small place new hj ne free =
      let z = b.order_pool.next_free_index in
      let o : Order ℕ = order_of_update u in
      let (pool, got, v, objects, frees, size) =
        allocate-fresh b.order_pool o j h.valid hj ne free in
      let filled : Book ℕ = record b { order_pool = pool } in
      let mine : order_at filled z ≡ o =
        ap (λ f. f z) objects ∙ update_self b.order_pool.object z o in
      let others : (a : ℕ) → a ≢ z → order_at filled a ≡ order_at b a =
        λ a d. ap (λ f. f a) objects ∙ update_ne b.order_pool.object z a o (λ e. d (sym e)) in
      let (c, linked, queue, same, only, kept) =
        link_order-HoldsAll filled z level h.blocks
          (ap (λ p. get_orders_at_price b p.price) mine ∙ ap (get_orders_at_price b) here ∙ h.found)
          (HoldsAll-written b pool z o level h.blocks
            (λ a i. others a (has_ne a z h.blocks i fresh_outside)) h.queue)
          fresh_outside in
      let key = same.keys z ∙ ap (λ p. p.key) mine in
      let b' : Book ℕ = record c { slot_to_order = update c.slot_to_order u.order_id (some z) } in
      let w : IsWith b b' u z = record {
        new_key = key;
        new_price = same.prices z ∙ ap (λ p. p.price) mine;
        new_qty = same.qtys z ∙ ap (λ p. p.qty) mine;
        keys = λ a d. same.keys a ∙ ap (λ p. p.key) (others a d);
        prices = λ a d. same.prices a ∙ ap (λ p. p.price) (others a d);
        qtys = λ a d. same.qtys a ∙ ap (λ p. p.qty) (others a d);
        slots = ap (λ k. update k.slot_to_order u.order_id (some z)) only;
        is_free = ap (λ p. p.is_free) kept ∙ frees;
        size = ap (λ p. p.size) kept ∙ size;
      } in
      (
        b',
        apply_update-linked b c u z pool ty got linked key place,
        record {
          shows = record {
            blocks = h.blocks ++ (z ∷ []);
            queue =
                HoldsAll-filed c (update c.slot_to_order u.order_id (some z)) level
                  (h.blocks ++ (z ∷ [])) queue;
            quotes =
                quotes-snoc b b' u price z w h.blocks fresh_outside
                ∙ ap (λ l. l ++ ((u.order_id, u.qty) ∷ [])) h.quotes;
            orders =
                orders-snoc b b' u price z w h.blocks
                  (IsShown-new b b' u price z w here place small h.valid.in_store)
                  (λ a. has_id_ne b u.order_id a h.blocks (ap (has_id u.order_id) h.quotes ∙ new))
                  h.orders;
            found = ap (λ k. k.price_orders_at_price (price_to_index price)) only ∙ h.found;
            level_price = ap (λ k. (level_at k level).price) only ∙ h.level_price;
            valid =
                subst IsValid (sym kept)
                  (record { in_store = v.in_store; next_is_free = v.next_is_free });
          };
          bids = ap (λ k. k.bids_by_price) only;
          asks = ap (λ k. k.asks_by_price) only;
        },
      )
