-- ===== src/MarketBook/Queue/Cancels.antt =====
-- trading/strategy/market_order_book.cpp, `onMarketUpdate`: a CANCEL of an order of a queue.
use mathlib.Core.List.{map}
use low_latency_learn.Base.{
  refl, ℕ, ◌≡◌, ◌≢◌, sym, ap, ap₂, ◌∙◌, true, none, some, List, [], arith, ltb, ok, update_ne,
}
use low_latency_learn.Types.{Price, me_max_order_ids}
use low_latency_learn.Messages.{MeMarketUpdate, MarketUpdateType}
use low_latency_learn.Book.{Book, order_at, get_orders_at_price, price_to_index}
use low_latency_learn.Book.Ring.{erase}
use low_latency_learn.Book.Blocks.{has-erase_of, has-erase_ne, map-same}
use low_latency_learn.MarketBook.{slot, apply_update}
use low_latency_learn.MarketBook.Queue.{
  Quote, quote_of, has_id, unquote, IsShown, Shows, unquote-map,
}
use low_latency_learn.MarketBook.Queue.Changes.{
  IsChanged, HoldsAll-IsDistinct, order_of-Shows, apply_update-remove_order,
}
use low_latency_learn.Book.Removal.{IsWithout, IsHeld, remove_order-HoldsAll}

-- An order of another block and id is shown as before.
IsShown-IsWithout :
    (b b' : Book ℕ) (price : Price) (p a : ℕ)
    → IsWithout b b' p (order_at b p).key
    → IsShown b price p
    → a ≢ p
    → IsShown b price a
    → IsShown b' price a
IsShown-IsWithout b b' price p a w sp ne s = record {
  at_price = w.prices a ∙ s.at_price;
  has_place = ap (λ k. ltb k me_max_order_ids) (w.keys a) ∙ s.has_place;
  filed =
      ap b'.slot_to_order (w.keys a)
      ∙ ap (λ f. f (order_at b a).key) w.slots
      ∙ update_ne b.slot_to_order (order_at b p).key (order_at b a).key none apart
      ∙ s.filed;
  small = rw (w.qtys a) s.small;
  in_use =
      ap (λ f. f a) w.is_free
      ∙ update_ne b.order_pool.is_free p a true (λ e. ne (sym e))
      ∙ s.in_use;
  in_pool = rw w.size s.in_pool;
}
  where
    apart : (order_at b p).key ≢ (order_at b a).key
    apart e =
        let places : some p ≡ some a = sym sp.filed ∙ ap b.slot_to_order e ∙ s.filed in
        ground (arith, places, ne)

IsHeld-IsShown :
    (b : Book ℕ) (price : Price) (p : ℕ) → IsShown b price p → IsHeld slot b p (order_at b p).key
IsHeld-IsShown b price p s = record {
  place = rw s.has_place refl;
  in_use = s.in_use;
  in_pool = s.in_pool;
}

module _ (b : Book ℕ) (u : MeMarketUpdate) (price : Price) (level : ℕ) (q : List Quote)
    (h : Shows b price level q) where
  pub apply_update-cancel :
      u.type ≡ MarketUpdateType.cancel
      → has_id u.order_id q ≡ true
      → unquote u.order_id q ≢ []
      → (b' : Book ℕ) × (apply_update b u ≡ ok b')
        × IsChanged b b' price level (unquote u.order_id q)
  unfolding get_orders_at_price
  apply_update-cancel ty i others =
      let (p, inside, found, shown, k, meant) = order_of-Shows b u price level q h i in
      let ys = erase p h.blocks in
      let left : unquote u.order_id q ≡ map (quote_of b) ys =
        ap (unquote u.order_id) (sym h.quotes)
        ∙ unquote-map (quote_of b) u.order_id p h.blocks meant in
      let (b', done, queue, w) =
        remove_order-HoldsAll slot b level p (order_at b p).key h.blocks
          (ap (get_orders_at_price b) shown.at_price ∙ h.found) h.queue inside
          (λ e. others (left ∙ ap (map (quote_of b)) e)) (IsHeld-IsShown b price p shown) in
      let distinct = HoldsAll-IsDistinct b level h.blocks h.queue in
      (
        b',
        apply_update-remove_order b u p found ty ∙ done,
        record {
          shows = record {
            blocks = ys;
            queue = queue;
            quotes =
                map-same (quote_of b') (quote_of b) ys
                  (λ a j. ap₂ (λ x y. (x, y)) (w.keys a) (w.qtys a))
                ∙ sym left;
            orders = λ a j.
                IsShown-IsWithout b b' price p a w shown (has-erase_ne a p h.blocks distinct j)
                  (h.orders a (has-erase_of a p h.blocks j));
            found = ap (λ f. f (price_to_index price)) w.levels ∙ h.found;
            level_price = w.level_prices level ∙ h.level_price;
            valid = record {
              in_store = rw (w.size, w.next_free_index) h.valid.in_store;
              next_is_free =
                  rw (w.is_free, w.next_free_index) (ground (arith, h.valid.next_is_free));
            };
          };
          bids = w.bids;
          asks = w.asks;
        },
      )
