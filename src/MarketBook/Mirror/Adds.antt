-- ===== src/MarketBook/Mirror/Adds.antt =====
-- The update of the end of `add` (exchange/matcher/me_order_book.cpp), read by the trading side's book
-- (trading/strategy/market_order_book.cpp).
use mathlib.Core.List.{map}
use low_latency_learn.Base.{
  ℕ, ◌+◌, ◌<◌, ◌^◌, ◌≡◌, ◌≢◌, refl, sym, ap₂, ◌∙◌, true, false, some, List, [], ◌∷◌, ◌++◌, ltb, ok,
}
use mathlib.Core.Path.{subst}
use low_latency_learn.Types.{Side, Price, me_max_order_ids}
use low_latency_learn.Messages.{MeMarketUpdate}
use low_latency_learn.MemPool.{IsValid}
use low_latency_learn.Book.{get_orders_at_price}
use low_latency_learn.Book.Ring.{has, last}
use low_latency_learn.Book.Blocks.{map-same, map-snoc}
use low_latency_learn.Book.Queues.{Holds}
use low_latency_learn.Matcher.{MeOrderBook, order_index, rest_order}
use low_latency_learn.Matcher.Resting.{IsTimed, priority_of, rest_order-Joined, add_update}
use low_latency_learn.Matcher.Priority.Published.{quote_in}
use low_latency_learn.MarketBook.{MarketOrderBook, update_book}
use low_latency_learn.MarketBook.First.{HasRoom}
use low_latency_learn.MarketBook.Queue.{has_id}
use low_latency_learn.MarketBook.Mirror.{Mirrors, Mirrors-update}

-- The rest of an order to sell that joins the queue of the asks: where a trading book mirrored them
-- before, with their ids and quantities, and reads the update that the exchange has sent, it mirrors
-- the queue with the new order at its end. The asks rest by rising priority, the exchange has two
-- free blocks, the next of them outside of the queue, the priority does not wrap around, and the
-- client order id has a place; the trading book has room for one more order, and the market order id
-- is in its range and none of the queue's. Reading is `onMarketUpdate` up to the call of the trade
-- engine, so that the trading book needs no engine.
pub rest_order-Mirrors :
    (b : MeOrderBook) (m : MarketOrderBook) (client_id client_order_id ticker_id : ℕ)
    (price : Price) (leaves_qty id i j level shown x : ℕ) (rest : List ℕ)
    → IsValid b.book.order_pool
    → j < b.book.order_pool.size
    → j ≢ b.book.order_pool.next_free_index
    → b.book.order_pool.is_free j ≡ true
    → get_orders_at_price b.book price ≡ some level
    → Holds b.book level x rest
    → has b.book.order_pool.next_free_index (x ∷ rest) ≡ false
    → IsTimed b.book x rest
    → priority_of b.book (last x rest) + 1 < 2 ^ 64
    → order_index ticker_id client_order_id ≡ ok i
    → leaves_qty < 2 ^ 32
    → ltb id me_max_order_ids ≡ true
    → has_id id (map (quote_in b.book) (x ∷ rest)) ≡ false
    → HasRoom m.book.order_pool
    → Mirrors m price shown (map (quote_in b.book) (x ∷ rest))
    → (b' : MeOrderBook) × (u : MeMarketUpdate) × (m' : MarketOrderBook) × (rest_order b client_id
          client_order_id ticker_id Side.sell price leaves_qty id
        ≡ ok b')
      × (b'.market_updates ≡ b.market_updates ++ (u ∷ []))
      × (update_book m u ≡ ok m')
      × Mirrors m' price shown
          (map (quote_in b'.book) ((x ∷ rest) ++ (b.book.order_pool.next_free_index ∷ [])))
rest_order-Mirrors b m client_id client_order_id ticker_id price leaves_qty id i j level shown x
      rest v hj ne free at h out timed short inside small place new room mirror =
    let z = b.book.order_pool.next_free_index in
    let top = priority_of b.book (last x rest) + 1 in
    let u = add_update id ticker_id Side.sell price leaves_qty top in
    let (b', done, k, named, sent) =
      rest_order-Joined b client_id client_order_id ticker_id Side.sell price leaves_qty id i j
        level x rest v hj ne free at h out timed short inside in
    let (m', read, mirror') =
      Mirrors-update m u price shown (map (quote_in b.book) (x ∷ rest)) mirror refl refl refl small
        (place, new, room.second, room.in_store, room.other, room.is_free) in
    let same : (a : ℕ) → has a (x ∷ rest) ≡ true → quote_in b'.book a ≡ quote_in b.book a =
      λ a q. ap₂ (λ key n. (key.market_order_id, n)) (k.keys_kept a q) (k.others_kept a q) in
    let queue : map (quote_in b'.book) ((x ∷ rest) ++ (z ∷ []))
        ≡ map (quote_in b.book) (x ∷ rest) ++ ((id, leaves_qty) ∷ []) =
      map-snoc (quote_in b'.book) (x ∷ rest) z
      ∙ ap₂ (λ l p. l ++ (p ∷ [])) (map-same (quote_in b'.book) (quote_in b.book) (x ∷ rest) same)
          (ap₂ (λ n q. (n, q)) named k.new_qty) in
    (b', u, m', done, sent, read, subst (Mirrors m' price shown) (sym queue) mirror')
