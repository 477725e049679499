-- ===== src/MarketBook/Queue/Sides.antt =====
-- trading/strategy/market_order_book.cpp, `onMarketUpdate`: which side's best bid or offer is renewed.
use low_latency_learn.Base.{
  ℕ, ◌≡◌, refl, inl, inr, Bool, true, false, some, arith, if◌then◌else◌, ok, Option-cases,
}
use low_latency_learn.Base.Int.{ltb_ℤ}
use low_latency_learn.Types.{Side, Price, is_buy}
use low_latency_learn.Messages.{MeMarketUpdate}
use low_latency_learn.Book.{Book, level_at}
use low_latency_learn.Positions.{Bbo}
use low_latency_learn.MarketBook.{
  MarketOrderBook, best_of, new_bbo, update_bbo, apply_update, bid_updated, ask_updated, is_trade,
  update_book, notify, notice_of, on_market_update,
}

-- The new best bid or offer, of a side.
abbrev pub with_best : Bbo → Side → Price → (qty : ℕ) → Bbo
with_best bbo side price qty =
    if is_buy side
    then record bbo { bid_price = price; bid_qty = qty }
    else record bbo { ask_price = price; ask_qty = qty }

-- The level's side is looked at again, and the other one is not.
pub bid_updated-buy :
    (b : Book ℕ) (u : MeMarketUpdate) (level : ℕ)
    → u.side ≡ Side.buy
    → b.bids_by_price ≡ some level
    → (level_at b level).price ≡ u.price
    → (bid_updated b u ≡ true) × (ask_updated b u ≡ false)
unfolding bid_updated ask_updated
bid_updated-buy b u level side best here =
    let near : ltb_ℤ u.price u.price ≡ false = ground arith in
    (
      rw (best, side, here, near, bid_updated) refl,
      elim (Option-cases b.asks_by_price) [
        | inl e ↦ rw (e, ask_updated) refl
        | inr (ask, e) ↦ rw (e, side, ask_updated) refl
      ],
    )

pub ask_updated-sell :
    (b : Book ℕ) (u : MeMarketUpdate) (level : ℕ)
    → u.side ≡ Side.sell
    → b.asks_by_price ≡ some level
    → (level_at b level).price ≡ u.price
    → (bid_updated b u ≡ false) × (ask_updated b u ≡ true)
unfolding bid_updated ask_updated
ask_updated-sell b u level side best here =
    let near : ltb_ℤ u.price u.price ≡ false = ground arith in
    (
      elim (Option-cases b.bids_by_price) [
        | inl e ↦ rw (e, bid_updated) refl
        | inr (bid, e) ↦ rw (e, side, bid_updated) refl
      ],
      rw (best, side, here, near, ask_updated) refl,
    )

pub update_book-run :
    (b : MarketOrderBook) (u : MeMarketUpdate) (book : Book ℕ) (bid ask : Bool) (bbo : Bbo)
    → is_trade u.type ≡ false
    → apply_update b.book u ≡ ok book
    → bid_updated b.book u ≡ bid
    → ask_updated b.book u ≡ ask
    → new_bbo (record b { book = book }) bid ask ≡ ok bbo
    → update_book b u ≡ ok (record b { book = book; bbo = bbo })
unfolding update_book update_bbo
update_book-run b u book bid ask bbo quiet done e₁ e₂ e₃ =
    rw (quiet, done, e₁, e₂, e₃, update_book, update_bbo) refl

-- What is left of a call of `onMarketUpdate` once the book is changed is the call of the engine.
pub on_market_update-notify :
    (b : MarketOrderBook) (u : MeMarketUpdate) {b' : MarketOrderBook}
    → update_book b u ≡ ok b'
    → on_market_update b u ≡ notify b' (notice_of u)
unfolding on_market_update
on_market_update-notify b u done = rw (done, on_market_update) refl

pub new_bbo-buy :
    (b : MarketOrderBook) (price : Price) (qty : ℕ)
    → best_of b.book b.book.bids_by_price ≡ ok (price, qty)
    → new_bbo b true false ≡ ok (with_best b.bbo Side.buy price qty)
unfolding new_bbo
new_bbo-buy b price qty e = rw (e, new_bbo) refl

pub new_bbo-sell :
    (b : MarketOrderBook) (price : Price) (qty : ℕ)
    → best_of b.book b.book.asks_by_price ≡ ok (price, qty)
    → new_bbo b false true ≡ ok (with_best b.bbo Side.sell price qty)
unfolding new_bbo
new_bbo-sell b price qty e = rw (e, new_bbo) refl
