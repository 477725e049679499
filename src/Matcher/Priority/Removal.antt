-- ===== src/Matcher/Priority/Removal.antt =====
-- exchange/matcher/me_order_book.cpp, `match` on the first order of a queue.
use mathlib.Core.Path.{subst}
use mathlib.Core.List.{append_assoc}
use low_latency_learn.Base.{
  ℕ, ◌-◌, ◌≤◌, ◌<◌, ◌^◌, ◌≡◌, ◌≢◌, refl, sym, ap, ap₂, ◌∙◌, [], ◌++◌, true, false, none, some, List,
  ◌∷◌, arith, ltb, ltb→lt, lt→ltb, min, update, update_self, update_ne, ◌==◌, ok,
}
use low_latency_learn.Types.{Side, Price, sub32}
use low_latency_learn.MemPool.{deallocate}
use low_latency_learn.Book.{Order, Book, order_at, put_order, get_orders_at_price, remove_order}
use low_latency_learn.Book.Ring.{erase}
use low_latency_learn.Book.Queues.{Holds, HoldsAll, unlink_order-Holds}
use low_latency_learn.Matcher.{
  MeOrderBook, MeOrderKey, slot, match_order, fill_order, filled_update, modify_update,
  send_market_update, trade_update,
}
use low_latency_learn.Matcher.Priority.Published.{fills, part_fill}
use low_latency_learn.Matcher.Priority.{IsResting, Beside, Holds-put_order}

-- The first order of a queue of two or more leaves the book.
remove_order-first :
    (b : Book MeOrderKey) (price : Price) (qty : ℕ → ℕ) (n level x y : ℕ) (rest : List ℕ)
    → get_orders_at_price b price ≡ some level
    → Holds b level x (y ∷ rest)
    → IsResting b price qty x
    → (b' : Book MeOrderKey) × (remove_order slot
          (put_order b x (record (order_at b x) { qty = n }))
          x
        ≡ ok b')
      × Holds b' level y rest
      × Beside x b b'
unfolding remove_order deallocate get_orders_at_price
remove_order-first b price qty n level x y rest at h r =
    let o : Order MeOrderKey = record (order_at b x) { qty = n } in
    let c : Book MeOrderKey = put_order b x o in
    let mine : order_at c x ≡ o = update_self b.order_pool.object x o in
    let others : (a : ℕ) → a ≢ x → order_at c a ≡ order_at b a =
      λ a ne. update_ne b.order_pool.object x a o (λ e. ne (sym e)) in
    let (u, done, kept, apart) =
      unlink_order-Holds c x level x y rest
        (ap (λ q. get_orders_at_price b q.price) mine ∙ ap (get_orders_at_price b) r.at_price ∙ at)
        (Holds-put_order b x n level x (y ∷ rest) h) (ground arith) in
    let self : (x == x) ≡ true = ground arith in
    let left : erase x (x ∷ y ∷ rest) ≡ y ∷ rest = rw self refl in
    let queue : Holds u level y rest = subst (HoldsAll u level) left kept in
    let place : slot (order_at u x).key ≡ ok r.place =
      ap slot (apart.data_kept.keys x ∙ ap (λ q. q.key) mine) ∙ r.has_place in
    let inside : ltb x u.order_pool.size ≡ true =
      lt→ltb x u.order_pool.size (subst (λ m. x < m) (sym apart.size) r.in_pool) in
    let busy : u.order_pool.is_free x ≡ false = ap (λ f. f x) apart.is_free ∙ r.in_use in
    (
      record u {
        slot_to_order = update u.slot_to_order r.place none;
        order_pool = record (u.order_pool) { is_free = update u.order_pool.is_free x true };
      },
      rw (done, place, inside, busy, remove_order, deallocate) refl,
      record { first = queue.first; ring = queue.ring; distinct = queue.distinct },
      record {
        keys = λ a ne. apart.data_kept.keys a ∙ ap (λ q. q.key) (others a ne);
        sides = λ a ne. apart.data_kept.sides a ∙ ap (λ q. q.side) (others a ne);
        priorities = λ a ne. apart.data_kept.priorities a ∙ ap (λ q. q.priority) (others a ne);
        prices = λ a ne. apart.data_kept.prices a ∙ ap (λ q. q.price) (others a ne);
        qtys = λ a ne. apart.data_kept.qtys a ∙ ap (λ q. q.qty) (others a ne);
        frees = λ a ne.
            update_ne u.order_pool.is_free x a true (λ e. ne (sym e)) ∙ ap (λ f. f a) apart.is_free;
        size = apart.size;
        asks = apart.asks;
        levels = apart.prices;
      },
    )

module _ (ticker_id client_id : ℕ) (side : Side) (client_order_id id : ℕ) where
  pub match_order-first :
      (b : MeOrderBook) (price : Price) (qty : ℕ → ℕ) (leaves level x y : ℕ) (rest : List ℕ)
      → get_orders_at_price b.book price ≡ some level
      → Holds b.book level x (y ∷ rest)
      → IsResting b.book price qty x
      → leaves < 2 ^ 32
      → ltb leaves (qty x) ≡ false
      → (b' : MeOrderBook) × (match_order b ticker_id client_id side client_order_id id x leaves
          ≡ ok (leaves - qty x, b'))
        × Holds b'.book level y rest
        × Beside x b.book b'.book
        × (b'.market_updates ≡ b.market_updates ++ fills ticker_id side (order_at b.book x))
  unfolding match_order
  match_order-first b price qty leaves level x y rest at h r small enough =
      let o : Order MeOrderKey = order_at b.book x in
      let fill = min leaves o.qty in
      let left = sub32 o.qty fill in
      let lv = sub32 leaves fill in
      let same = r.quantity in
      let bound = r.small in
      let le : qty x ≤ leaves = ground (arith, enough) in
      let all : fill ≡ qty x = omega (arith, le, same) in
      let goes : lv ≡ leaves - qty x = omega (arith, all, small, le) in
      let none_left : (left == 0) ≡ true = ground (arith, all, same, bound) in
      let (b', done, queue, k) = remove_order-first b.book price qty left level x y rest at h r in
      let sent : MeOrderBook =
        send_market_update (fill_order b ticker_id client_id side client_order_id id x fill lv left)
          (filled_update ticker_id o) in
      (
        record sent { book = b' },
        rw (none_left, done, match_order) (ap (λ n. ok (n, record sent { book = b' })) goes),
        queue,
        k,
        append_assoc b.market_updates _ _
            ∙ ap
                (λ n.
                  b.market_updates
                  ++ (trade_update ticker_id side o.price n ∷ filled_update ticker_id o ∷ []))
                (all ∙ sym same),
      )

  pub match_order-part :
      (b : MeOrderBook) (price : Price) (qty : ℕ → ℕ) (leaves x : ℕ)
      → IsResting b.book price qty x
      → ltb leaves (qty x) ≡ true
      → (b' : MeOrderBook) × (match_order b ticker_id client_id side client_order_id id x leaves
          ≡ ok (0, b'))
        × (b'.book ≡ put_order b.book x (record (order_at b.book x) { qty = qty x - leaves }))
        × (b'.market_updates
            ≡ b.market_updates ++ part_fill ticker_id side (order_at b.book x) leaves)
  unfolding match_order
  match_order-part b price qty leaves x r less =
      let o : Order MeOrderKey = order_at b.book x in
      let fill = min leaves o.qty in
      let left = sub32 o.qty fill in
      let lv = sub32 leaves fill in
      let same = r.quantity in
      let bound = r.small in
      let lt = ltb→lt leaves (qty x) less in
      let all : fill ≡ leaves = omega (arith, same, lt) in
      let goes : lv ≡ 0 = omega (arith, all, same, bound, lt) in
      let stays : left ≡ qty x - leaves = omega (arith, all, same, bound, lt) in
      let more : (left == 0) ≡ false = ground (arith, stays, lt) in
      let b' : MeOrderBook =
        send_market_update (fill_order b ticker_id client_id side client_order_id id x fill lv left)
          (modify_update ticker_id o left) in
      (
        b',
        rw (more, match_order) (ap (λ n. ok (n, b')) goes),
        ap (λ n. put_order b.book x (record o { qty = n })) stays,
        append_assoc b.market_updates _ _
            ∙ ap₂
                (λ n k.
                  b.market_updates
                  ++ (trade_update ticker_id side o.price n ∷ modify_update ticker_id o k ∷ []))
                all (stays ∙ ap (λ n. n - leaves) (sym same)),
      )
