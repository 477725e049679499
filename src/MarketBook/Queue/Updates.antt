-- ===== src/MarketBook/Queue/Updates.antt =====
-- trading/strategy/market_order_book.cpp, `onMarketUpdate`: a level and the best bid and offer after
-- an update.
use low_latency_learn.Base.{
  ℕ, ◌<◌, ◌%◌, ◌^◌, ◌≡◌, refl, sym, ap, ◌∙◌, ◌⊎◌, inl, inr, true, false, some, List, ok,
}
use low_latency_learn.Types.{Side, Price}
use low_latency_learn.Messages.{MeMarketUpdate, MarketUpdateType}
use low_latency_learn.Book.{Book, best_by_price}
use low_latency_learn.MarketBook.{
  MarketOrderBook, notify, notice_of, best_of, apply_update, is_trade, update_book,
  on_market_update,
}
use low_latency_learn.MarketBook.Queue.{Quote, after, after_as, Shows, Allowed, AllowedAs}
use low_latency_learn.MarketBook.Queue.Changes.{IsChanged, apply_update-modify}
use low_latency_learn.MarketBook.Queue.Cancels.{apply_update-cancel}
use low_latency_learn.MarketBook.Queue.Adds.{apply_update-add}
use low_latency_learn.MarketBook.Queue.Sides.{
  with_best, bid_updated-buy, ask_updated-sell, update_book-run, on_market_update-notify,
  new_bbo-buy, new_bbo-sell,
}
use low_latency_learn.MarketBook.Queue.Best.{quantity, best_of-Shows}

apply_update-same :
    (b : Book ℕ) (u : MeMarketUpdate) (price : Price) (level : ℕ) (q : List Quote)
    → Shows b price level q
    → apply_update b u ≡ ok b
    → (b' : Book ℕ) × (apply_update b u ≡ ok b') × IsChanged b b' price level q
apply_update-same b u price level q h e = (b, e, record { shows = h; bids = refl; asks = refl })

module _ (b : Book ℕ) (u : MeMarketUpdate) (level : ℕ) (q : List Quote)
    (h : Shows b u.price level q) (small : u.qty < 2 ^ 32) where
  apply_update-as :
      (t : MarketUpdateType)
      → u.type ≡ t
      → AllowedAs t b u.order_id q
      → (b' : Book ℕ) × (apply_update b u ≡ ok b')
        × IsChanged b b' u.price level (after_as t u.order_id u.qty q)
  unfolding apply_update
  apply_update-as MarketUpdateType.add e (place, new, j, hj, ne, free) =
      apply_update-add b u u.price level q h j e refl small place new hj ne free
  apply_update-as MarketUpdateType.modify e a = apply_update-modify b u u.price level q h e small a
  apply_update-as MarketUpdateType.cancel e (a, others) =
      apply_update-cancel b u u.price level q h e a others
  apply_update-as MarketUpdateType.clear e a = absurd a
  apply_update-as MarketUpdateType.invalid e a =
      apply_update-same b u u.price level q h (rw (e, apply_update) refl)
  apply_update-as MarketUpdateType.trade e a =
      apply_update-same b u u.price level q h (rw (e, apply_update) refl)
  apply_update-as MarketUpdateType.snapshot_start e a =
      apply_update-same b u u.price level q h (rw (e, apply_update) refl)
  apply_update-as MarketUpdateType.snapshot_end e a =
      apply_update-same b u u.price level q h (rw (e, apply_update) refl)

-- The book after an update of the queue of its best level.
pub record IsUpdated (b b' : MarketOrderBook) (u : MeMarketUpdate) (level : ℕ) (q : List Quote)
    : Type 0 where
  pub shows : Shows b'.book u.price level q
  pub best : best_by_price b'.book u.side ≡ some level
  pub bbo : b'.bbo ≡ with_best b.bbo u.side u.price (quantity q % 2 ^ 32)
  pub engine : b'.has_trade_engine ≡ b.has_trade_engine
  pub told : b'.notices ≡ b.notices

module _ (b : MarketOrderBook) (u : MeMarketUpdate) (level : ℕ) (q : List Quote) (book : Book ℕ)
    (h : Shows b.book u.price level q) (quiet : is_trade u.type ≡ false)
    (done : apply_update b.book u ≡ ok book)
    (k : IsChanged b.book book u.price level (after u q)) where
  update_book-buy :
      u.side ≡ Side.buy
      → b.book.bids_by_price ≡ some level
      → (b' : MarketOrderBook) × (update_book b u ≡ ok b') × IsUpdated b b' u level (after u q)
  update_book-buy side best =
      let qty = quantity (after u q) % 2 ^ 32 in
      let bids : book.bids_by_price ≡ some level = k.bids ∙ best in
      let flags = bid_updated-buy b.book u level side best h.level_price in
      let best = ap (best_of book) bids ∙ best_of-Shows book u.price level (after u q) k.shows in
      (
        _,
        update_book-run b u book true false (with_best b.bbo Side.buy u.price qty) quiet done
            flags.0 flags.1 (new_bbo-buy (record b { book = book }) u.price qty best),
        record {
          shows = k.shows;
          best = rw side bids;
          bbo = ap (λ s. with_best b.bbo s u.price qty) (sym side);
          engine = refl;
          told = refl;
        },
      )

  update_book-sell :
      u.side ≡ Side.sell
      → b.book.asks_by_price ≡ some level
      → (b' : MarketOrderBook) × (update_book b u ≡ ok b') × IsUpdated b b' u level (after u q)
  update_book-sell side best =
      let qty = quantity (after u q) % 2 ^ 32 in
      let asks : book.asks_by_price ≡ some level = k.asks ∙ best in
      let flags = ask_updated-sell b.book u level side best h.level_price in
      let best = ap (best_of book) asks ∙ best_of-Shows book u.price level (after u q) k.shows in
      (
        _,
        update_book-run b u book false true (with_best b.bbo Side.sell u.price qty) quiet done
            flags.0 flags.1 (new_bbo-sell (record b { book = book }) u.price qty best),
        record {
          shows = k.shows;
          best = rw side asks;
          bbo = ap (λ s. with_best b.bbo s u.price qty) (sym side);
          engine = refl;
          told = refl;
        },
      )

-- What `onMarketUpdate` does to the book before it calls the trade engine.
pub update_book-IsUpdated :
    (b : MarketOrderBook) (u : MeMarketUpdate) (level : ℕ) (q : List Quote)
    → Shows b.book u.price level q
    → best_by_price b.book u.side ≡ some level
    → (u.side ≡ Side.buy) ⊎ (u.side ≡ Side.sell)
    → is_trade u.type ≡ false
    → u.qty < 2 ^ 32
    → Allowed b.book u q
    → (b' : MarketOrderBook) × (update_book b u ≡ ok b') × IsUpdated b b' u level (after u q)
update_book-IsUpdated b u level q h best (inl side) quiet small a =
    let (book, done, k) = apply_update-as b.book u level q h small u.type refl a in
    update_book-buy b u level q book h quiet done k side
      (ap (λ s. best_by_price b.book s) (sym side) ∙ best)
update_book-IsUpdated b u level q h best (inr side) quiet small a =
    let (book, done, k) = apply_update-as b.book u level q h small u.type refl a in
    update_book-sell b u level q book h quiet done k side
      (ap (λ s. best_by_price b.book s) (sym side) ∙ best)

-- An update, which is not a trade, of an order at the price of the best level of its side, where the
-- level shows a queue and the update is allowed for it, whether or not the book has a trade engine.
-- It changes the book without an error: the level is still the best one, and shows the queue with
-- the new order at its end, with the other quantity of the order, or without it; the best bid or
-- offer of that side is the price and the sum of the quantities of that queue as a 32-bit word, and
-- that of the other side is as it was. What is left of the call then is that of the trade engine.
pub on_market_update-IsUpdated :
    (b : MarketOrderBook) (u : MeMarketUpdate) (level : ℕ) (q : List Quote)
    → Shows b.book u.price level q
    → best_by_price b.book u.side ≡ some level
    → (u.side ≡ Side.buy) ⊎ (u.side ≡ Side.sell)
    → is_trade u.type ≡ false
    → u.qty < 2 ^ 32
    → Allowed b.book u q
    → (b' : MarketOrderBook) × (update_book b u ≡ ok b')
      × IsUpdated b b' u level (after u q)
      × (on_market_update b u ≡ notify b' (notice_of u))
on_market_update-IsUpdated b u level q h best side quiet small a =
    let (b', done, k) = update_book-IsUpdated b u level q h best side quiet small a in
    (b', done, k, on_market_update-notify b u done)
