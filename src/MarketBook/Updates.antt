-- ===== src/MarketBook/Updates.antt =====
-- trading/strategy/market_order_book.cpp: what an update leaves behind.
use low_latency_learn.Base.{
  ◌≡◌, refl, sym, ap, ◌∙◌, arith, Bool, true, false, Outcome, ok, failed, >>=-eq-ok, ok-inj, ◌>>=◌,
  if◌then◌else◌,
}
use low_latency_learn.Base.Errors.{Failure}
use low_latency_learn.Messages.{MeMarketUpdate}
use low_latency_learn.MarketBook.{
  MarketOrderBook, Notice, notify, new_bbo, update_bbo, apply_update, bid_updated, ask_updated,
  is_trade, update_book, notice_of, on_market_update,
}

has_trade_engine-update_bbo :
    (b : MarketOrderBook) (bid ask : Bool) {b' : MarketOrderBook}
    → update_bbo b bid ask ≡ ok b'
    → b'.has_trade_engine ≡ b.has_trade_engine
unfolding update_bbo
has_trade_engine-update_bbo b bid ask h =
    let (bbo, e, k) = >>=-eq-ok (new_bbo b bid ask) (λ bbo. ok (record b { bbo = bbo })) h in
    sym (ap (λ x. x.has_trade_engine) (ok-inj k))

notify-attached :
    (b : MarketOrderBook) (n : Notice) {b' : MarketOrderBook}
    → notify b n ≡ ok b'
    → b.has_trade_engine ≡ true
unfolding notify
notify-attached b n h = ground arith

has_trade_engine-update_book :
    (b : MarketOrderBook) (u : MeMarketUpdate) {b' : MarketOrderBook}
    → update_book b u ≡ ok b'
    → b'.has_trade_engine ≡ b.has_trade_engine
unfolding update_book
has_trade_engine-update_book b u h = go (is_trade u.type) h
  where
    go :
        (t : Bool) {b' : MarketOrderBook}
        → ((if t then ok b else (do
          book ← apply_update b.book u
          update_bbo (record b { book = book }) (bid_updated b.book u) (ask_updated b.book u)))
            ≡ ok b')
        → b'.has_trade_engine ≡ b.has_trade_engine
    go true h = sym (ap (λ x. x.has_trade_engine) (ok-inj h))
    go false h =
        let (book, e, k) = >>=-eq-ok (apply_update b.book u) _ h in
        has_trade_engine-update_bbo (record b { book = book }) _ _ k

on_market_update-attached :
    (b : MarketOrderBook) (u : MeMarketUpdate) {b' : MarketOrderBook}
    → on_market_update b u ≡ ok b'
    → b.has_trade_engine ≡ true
unfolding on_market_update
on_market_update-attached b u h =
    let (b', e, k) = >>=-eq-ok (update_book b u) _ h in
    sym (has_trade_engine-update_book b u e) ∙ notify-attached b' (notice_of u) k

-- A book without a trade engine survives no update, of whatever type.
pub on_market_update-detached :
    (b : MarketOrderBook) (u : MeMarketUpdate)
    → b.has_trade_engine ≡ false
    → (x : Failure) × (on_market_update b u ≡ failed x)
on_market_update-detached b u h = go (on_market_update b u) refl
  where
    go :
        (o : Outcome MarketOrderBook)
        → on_market_update b u ≡ o
        → (x : Failure) × (on_market_update b u ≡ failed x)
    go (failed x) q = (x, q)
    go (ok b') q = let attached = on_market_update-attached b u q in ground (arith, attached)
