-- ===== src/Book/Removal.antt =====
-- The shared book structure: an order leaves the book that has others beside it.
use mathlib.Core.Path.{subst}
use low_latency_learn.Base.{
  ℕ, ◌<◌, ◌≡◌, ◌≢◌, refl, sym, ap, ◌∙◌, true, false, none, some, List, [], ◌∷◌, arith, ltb, lt→ltb,
  update, Outcome, ok,
}
use low_latency_learn.MemPool.{deallocate}
use low_latency_learn.Book.{
  Book, order_at, level_at, get_orders_at_price, remove_order, unlink_order,
}
use low_latency_learn.Book.Ring.{has, erase}
use low_latency_learn.Book.Queues.{HoldsAll, unlink_order-Holds, Apart}

-- The order `p`, which had the place `i`, is gone, and nothing else but links and first orders has
-- changed.
pub record IsWithout {K : Type 0} (b b' : Book K) (p i : ℕ) : Type 0 where
  pub keys : (a : ℕ) → (order_at b' a).key ≡ (order_at b a).key
  pub prices : (a : ℕ) → (order_at b' a).price ≡ (order_at b a).price
  pub qtys : (a : ℕ) → (order_at b' a).qty ≡ (order_at b a).qty
  pub slots : b'.slot_to_order ≡ update b.slot_to_order i none
  pub is_free : b'.order_pool.is_free ≡ update b.order_pool.is_free p true
  pub size : b'.order_pool.size ≡ b.order_pool.size
  pub next_free_index : b'.order_pool.next_free_index ≡ b.order_pool.next_free_index
  pub bids : b'.bids_by_price ≡ b.bids_by_price
  pub asks : b'.asks_by_price ≡ b.asks_by_price
  pub levels : b'.price_orders_at_price ≡ b.price_orders_at_price
  pub level_prices : (a : ℕ) → (level_at b' a).price ≡ (level_at b a).price

-- The order has a place in the array of orders and a block in use of the pool.
pub record IsHeld {K : Type 0} (slot : K → Outcome ℕ) (b : Book K) (p i : ℕ) : Type 0 where
  pub place : slot (order_at b p).key ≡ ok i
  pub in_use : b.order_pool.is_free p ≡ false
  pub in_pool : p < b.order_pool.size

module _ {K : Type 0} (slot : K → Outcome ℕ) where
  remove_order-unlinked :
      (b u : Book K) (level p i : ℕ) (ys : List ℕ)
      → IsHeld slot b p i
      → unlink_order b p ≡ ok u
      → HoldsAll u level ys
      → Apart b u
      → (b' : Book K) × (remove_order slot b p ≡ ok b') × HoldsAll b' level ys × IsWithout b b' p i
  unfolding remove_order deallocate
  remove_order-unlinked b u level p i ys s done kept apart =
      let place : slot (order_at u p).key ≡ ok i = ap slot (apart.data_kept.keys p) ∙ s.place in
      let inside : ltb p u.order_pool.size ≡ true =
        lt→ltb p u.order_pool.size (subst (λ m. p < m) (sym apart.size) s.in_pool) in
      let busy : u.order_pool.is_free p ≡ false = ap (λ f. f p) apart.is_free ∙ s.in_use in
      (
        record u {
          slot_to_order = update u.slot_to_order i none;
          order_pool = record (u.order_pool) { is_free = update u.order_pool.is_free p true };
        },
        rw (done, place, inside, busy, remove_order, deallocate) refl,
        queue ys kept,
        record {
          keys = apart.data_kept.keys;
          prices = apart.data_kept.prices;
          qtys = apart.data_kept.qtys;
          slots = ap (λ f. update f i none) apart.slots;
          is_free = ap (λ f. update f p true) apart.is_free;
          size = apart.size;
          next_free_index = apart.next_free_index;
          bids = apart.bids;
          asks = apart.asks;
          levels = apart.prices;
          level_prices = apart.level_prices;
        },
      )
    where
      queue :
          (ys : List ℕ)
          → HoldsAll u level ys
          → HoldsAll
              (record u {
                slot_to_order = update u.slot_to_order i none;
                order_pool = record (u.order_pool) { is_free = update u.order_pool.is_free p true };
              })
              level
              ys
      queue [] h = h
      queue (y ∷ ys) h = record { first = h.first; ring = h.ring; distinct = h.distinct }

  pub remove_order-HoldsAll :
      (b : Book K) (level p i : ℕ) (xs : List ℕ)
      → get_orders_at_price b (order_at b p).price ≡ some level
      → HoldsAll b level xs
      → has p xs ≡ true
      → erase p xs ≢ []
      → IsHeld slot b p i
      → (b' : Book K) × (remove_order slot b p ≡ ok b')
        × HoldsAll b' level (erase p xs)
        × IsWithout b b' p i
  remove_order-HoldsAll b level p i [] at h inside others s = absurd h
  remove_order-HoldsAll b level p i (x ∷ []) at h inside others s =
      absurd (others (ground (arith, inside)))
  remove_order-HoldsAll b level p i (x ∷ y ∷ rest) at h inside others s =
      let (u, done, kept, apart) = unlink_order-Holds b p level x y rest at h inside in
      remove_order-unlinked b u level p i (erase p (x ∷ y ∷ rest)) s done kept apart
