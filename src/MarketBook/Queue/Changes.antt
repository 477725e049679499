-- ===== src/MarketBook/Queue/Changes.antt =====
-- trading/strategy/market_order_book.cpp, `onMarketUpdate`: what an update of an order does to the
-- queue of its level.
use low_latency_learn.Base.{
  ℕ, ◌<◌, ◌^◌, ◌≡◌, refl, sym, ap, ◌∙◌, true, some, List, [], ◌∷◌, arith, ltb, ◌==◌, if◌then◌else◌,
  ok,
}
use low_latency_learn.Types.{Price, me_max_order_ids}
use low_latency_learn.Messages.{MeMarketUpdate, MarketUpdateType}
use low_latency_learn.Book.{Book, order_at, put_order, get_orders_at_price, remove_order}
use low_latency_learn.Book.Ring.{has, IsDistinct, Ring-outside}
use low_latency_learn.Book.Blocks.{map-same}
use low_latency_learn.Book.Queues.{HoldsAll}
use low_latency_learn.MarketBook.{slot, apply_update, order_of}
use low_latency_learn.MarketBook.Queue.{
  Quote, quote_of, has_id, requote, IsShown, Shows, has_id-quotes, requote-quotes, filed-same,
}

-- The level shows the queue after the update, and the best levels stay.
pub record IsChanged (b b' : Book ℕ) (price : Price) (level : ℕ) (q : List Quote) : Type 0 where
  pub shows : Shows b' price level q
  pub bids : b'.bids_by_price ≡ b.bids_by_price
  pub asks : b'.asks_by_price ≡ b.asks_by_price

order_of-filed :
    (b : Book ℕ) (price : Price) (id p : ℕ)
    → IsShown b price p
    → (order_at b p).key ≡ id
    → order_of b id ≡ ok p
unfolding order_of
order_of-filed b price id p h k =
    let place : ltb id me_max_order_ids ≡ true =
      ap (λ i. ltb i me_max_order_ids) (sym k) ∙ h.has_place in
    let found : b.slot_to_order id ≡ some p = ap b.slot_to_order (sym k) ∙ h.filed in
    rw (place, found, order_of) refl

HoldsAll-put_order :
    (b : Book ℕ) (p n level : ℕ) (xs : List ℕ)
    → HoldsAll b level xs
    → HoldsAll (put_order b p (record (order_at b p) { qty = n })) level xs
HoldsAll-put_order b p n level [] h = h
HoldsAll-put_order b p n level (x ∷ rest) h = record {
  first = h.first;
  ring = Ring-outside x rest h.distinct (λ a i. ground arith) (λ a i. ground arith) h.ring;
  distinct = h.distinct;
}

pub HoldsAll-IsDistinct :
    (b : Book ℕ) (level : ℕ) (xs : List ℕ) → HoldsAll b level xs → IsDistinct xs
HoldsAll-IsDistinct b level [] h = absurd h
HoldsAll-IsDistinct b level (x ∷ rest) h = h.distinct

module _ (b : Book ℕ) (u : MeMarketUpdate) (p : ℕ) (found : order_of b u.order_id ≡ ok p) where
  apply_update-put_order :
      u.type ≡ MarketUpdateType.modify
      → apply_update b u ≡ ok (put_order b p (record (order_at b p) { qty = u.qty }))
  unfolding apply_update
  apply_update-put_order ty = rw (ty, found, apply_update) refl

  pub apply_update-remove_order :
      u.type ≡ MarketUpdateType.cancel → apply_update b u ≡ remove_order slot b p
  unfolding apply_update
  apply_update-remove_order ty = rw (ty, found, apply_update) refl

module _ (b : Book ℕ) (u : MeMarketUpdate) (price : Price) (level : ℕ) (q : List Quote)
    (h : Shows b price level q) where
  -- The order of an update of the queue.
  pub order_of-Shows :
      has_id u.order_id q ≡ true
      → (p : ℕ) × (has p h.blocks ≡ true)
        × (order_of b u.order_id ≡ ok p)
        × (IsShown b price p)
        × ((order_at b p).key ≡ u.order_id)
        × ((a : ℕ) → has a h.blocks ≡ true → (u.order_id == (order_at b a).key) ≡ (p == a))
  order_of-Shows i =
      let (p, inside, k) =
        has_id-quotes b u.order_id h.blocks (ap (has_id u.order_id) h.quotes ∙ i) in
      let shown = h.orders p inside in
      (
        p,
        inside,
        order_of-filed b price u.order_id p shown k,
        shown,
        k,
        λ a j. filed-same b price u.order_id p a shown k (h.orders a j),
      )

  pub apply_update-modify :
      u.type ≡ MarketUpdateType.modify
      → u.qty < 2 ^ 32
      → has_id u.order_id q ≡ true
      → (b' : Book ℕ) × (apply_update b u ≡ ok b')
        × IsChanged b b' price level (requote u.order_id u.qty q)
  unfolding get_orders_at_price
  apply_update-modify ty small i =
      let (p, inside, found, shown, k, meant) = order_of-Shows i in
      let b' : Book ℕ = put_order b p (record (order_at b p) { qty = u.qty }) in
      (
        b',
        apply_update-put_order b u p found ty,
        record {
          shows = record {
            blocks = h.blocks;
            queue = HoldsAll-put_order b p u.qty level h.blocks h.queue;
            quotes =
                map-same (quote_of b')
                  (λ a. ((order_at b a).key, if p == a then u.qty else (order_at b a).qty)) h.blocks
                  (λ a j. ground arith)
                ∙ sym (requote-quotes b u.order_id u.qty p h.blocks meant)
                ∙ ap (requote u.order_id u.qty) h.quotes;
            orders = λ a j. shown_still p a (h.orders a j);
            found = h.found;
            level_price = h.level_price;
            valid = record { in_store = h.valid.in_store; next_is_free = h.valid.next_is_free };
          };
          bids = refl;
          asks = refl;
        },
      )
    where
      shown_still :
          (p a : ℕ)
          → IsShown b price a
          → IsShown (put_order b p (record (order_at b p) { qty = u.qty })) price a
      shown_still p a s = record {
        at_price = ground (arith, s.at_price);
        has_place = ground (arith, s.has_place);
        filed = ground (arith, s.filed);
        small = ground (arith, s.small, small);
        in_use = s.in_use;
        in_pool = s.in_pool;
      }
