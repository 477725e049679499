-- ===== src/MarketBook/Mirror/Cancels.antt =====
-- The update of `cancel` (exchange/matcher/me_order_book.cpp), read by the trading side's book
-- (trading/strategy/market_order_book.cpp).
use mathlib.Core.List.{map}
use mathlib.Core.Path.{subst}
use low_latency_learn.Base.{
  ℕ, ◌≡◌, ◌≢◌, refl, sym, ap, ap₂, ◌∙◌, true, some, List, [], ◌∷◌, ◌++◌, arith, ok,
}
use low_latency_learn.Types.{Side, Price, qty_invalid}
use low_latency_learn.Messages.{MeMarketUpdate, MarketUpdateType, ClientResponseType}
use low_latency_learn.Book.{Order, Book, order_at, get_orders_at_price, remove_order}
use low_latency_learn.Book.Ring.{has, erase}
use low_latency_learn.Book.Blocks.{map-same}
use low_latency_learn.Book.Queues.{HoldsAll}
use low_latency_learn.Book.Removal.{IsHeld, remove_order-HoldsAll}
use low_latency_learn.Matcher.{
  MeOrderBook, MeOrderKey, slot, find_order, cancel, send_market_update, send_client_response,
}
use low_latency_learn.Matcher.Priority.Published.{quote_in}
use low_latency_learn.MarketBook.{MarketOrderBook, update_book}
use low_latency_learn.MarketBook.Queue.{Quote, unquote, unquote-map}
use low_latency_learn.MarketBook.Mirror.{
  Mirrors, Mirrors-update, IsOnce-Shows, IsOnce-same, has_id-map,
}

-- The update that tells of the end of a canceled order.
abbrev cancel_update : (ticker_id : ℕ) → Order MeOrderKey → MeMarketUpdate
cancel_update ticker_id order = record {
  type = MarketUpdateType.cancel;
  order_id = order.key.market_order_id;
  ticker_id = ticker_id;
  side = order.side;
  price = order.price;
  qty = 0;
  priority = order.priority;
}

cancel-found :
    (b : MeOrderBook) (client_id order_id ticker_id p : ℕ) (book : Book MeOrderKey)
    → find_order b client_id order_id ≡ ok (some p)
    → remove_order slot b.book p ≡ ok book
    → (b' : MeOrderBook) × (cancel b client_id order_id ticker_id ≡ ok b')
      × (b'.book ≡ book)
      × (b'.market_updates ≡ b.market_updates ++ (cancel_update ticker_id (order_at b.book p) ∷ []))
unfolding cancel
cancel-found b client_id order_id ticker_id p book found done =
    let o : Order MeOrderKey = order_at b.book p in
    let sent : MeOrderBook =
      send_market_update (record b { book = book }) (cancel_update ticker_id o) in
    let b' : MeOrderBook = send_client_response sent (record {
      type = ClientResponseType.canceled;
      client_id = client_id;
      ticker_id = ticker_id;
      client_order_id = order_id;
      market_order_id = o.key.market_order_id;
      side = o.side;
      price = o.price;
      exec_qty = qty_invalid;
      leaves_qty = o.qty;
    }) in
    (b', rw (found, done, cancel) refl, refl, refl)

map-empty : (f : ℕ → Quote) (xs : List ℕ) → map f xs ≡ [] → xs ≡ []
map-empty f [] h = refl
map-empty f (x ∷ xs) h = cc

-- A cancel of an order to sell that has others beside it at its price: where a trading book mirrored
-- the queue of the asks before, with its ids and quantities, and reads the update that the exchange
-- has sent, it mirrors the queue without the order. The order is the one that the exchange finds for
-- the client, in its block and place, at the price of the mirrored queue. Reading is
-- `onMarketUpdate` up to the call of the trade engine, so that the trading book needs no engine.
pub cancel-Mirrors :
    (b : MeOrderBook) (m : MarketOrderBook) (client_id order_id ticker_id p i : ℕ) (price : Price)
    (level shown : ℕ) (xs : List ℕ)
    → find_order b client_id order_id ≡ ok (some p)
    → get_orders_at_price b.book price ≡ some level
    → HoldsAll b.book level xs
    → has p xs ≡ true
    → erase p xs ≢ []
    → (order_at b.book p).price ≡ price
    → (order_at b.book p).side ≡ Side.sell
    → IsHeld slot b.book p i
    → Mirrors m price shown (map (quote_in b.book) xs)
    → (b' : MeOrderBook) × (u : MeMarketUpdate) × (m' : MarketOrderBook) × (cancel b client_id
          order_id ticker_id
        ≡ ok b')
      × (b'.market_updates ≡ b.market_updates ++ (u ∷ []))
      × (update_book m u ≡ ok m')
      × HoldsAll b'.book level (erase p xs)
      × Mirrors m' price shown (map (quote_in b'.book) (erase p xs))
cancel-Mirrors b m client_id order_id ticker_id p i price level shown xs found at queue inside
      others here side held mirror =
    let f = quote_in b.book in
    let id = (order_at b.book p).key.market_order_id in
    let u = cancel_update ticker_id (order_at b.book p) in
    let (book, done, queue', w) =
      remove_order-HoldsAll slot b.book level p i xs (ap (get_orders_at_price b.book) here ∙ at)
        queue inside others held in
    let (b', ended, same, sent) = cancel-found b client_id order_id ticker_id p book found done in
    let once = IsOnce-Shows m.book price shown (map f xs) mirror.shows in
    let gone : unquote id (map f xs) ≡ map f (erase p xs) =
      unquote-map f id p xs (λ a h. IsOnce-same f p a xs once inside h) in
    let (m', read, mirror') =
      Mirrors-update m u price shown (map f xs) mirror here side refl (omega arith)
        (has_id-map f p xs inside, λ e. others (map-empty f (erase p xs) (sym gone ∙ e))) in
    let left : unquote id (map f xs) ≡ map (quote_in book) (erase p xs) =
      gone
      ∙ map-same f (quote_in book) (erase p xs)
          (λ a h. ap₂ (λ key n. (key.market_order_id, n)) (sym (w.keys a)) (sym (w.qtys a))) in
    (
      b',
      u,
      m',
      ended,
      sent,
      read,
      subst (λ c. HoldsAll c level (erase p xs)) (sym same) queue',
      subst (λ c. Mirrors m' price shown (map (quote_in c) (erase p xs))) (sym same)
          (subst (Mirrors m' price shown) left mirror'),
    )
