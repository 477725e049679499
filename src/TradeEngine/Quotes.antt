-- ===== src/TradeEngine/Quotes.antt =====
-- trading/strategy/trade_engine.cpp, `onOrderBookUpdate`: what the engine makes of a new best bid and
-- offer.
use low_latency_learn.Base.{
  ℕ, ◌<◌, ◌≡◌, ◌≢◌, refl, ap, ◌∙◌, inl, inr, true, not, ◌&&◌, ltb, lt→ltb, update, update_self,
  Bool-cases, Outcome, ok, if◌then◌else◌, arith,
}
use low_latency_learn.Base.Int.{pos, ◌+ℤ◌, ◌-ℤ◌}
use low_latency_learn.Types.{Floats, TradeEngineCfg, AlgoType, Side, Price, me_max_tickers}
use low_latency_learn.Positions.{Bbo, update_bbo, keeper_update_bbo}
use low_latency_learn.Risk.{RiskInfo}
use low_latency_learn.OrderManager.{OrderManager}
use low_latency_learn.OrderManager.Runs.{HasSent}
use low_latency_learn.OrderManager.Runs.Steps.{HasSent-none}
use low_latency_learn.OrderManager.Runs.Sequences.{HasSent-moves}
use low_latency_learn.Strategies.{
  FeatureEngine, has_both, on_order_book_update as feature_book_update, maker_on_order_book_update,
}
use low_latency_learn.TradeEngine.{
  TradeEngine, algo_on_order_book_update, on_order_book_update, with_orders, ticker_risk,
}

module _ (F : Floats) (feature_invalid half : F.Double)
    (ticker_cfg : ℕ → TradeEngineCfg F.Double) where
  -- No order is over in a call of the strategy.
  abbrev pub Quiet : OrderManager → OrderManager → Type 0
  Quiet m m' = HasSent m m' (λ t s. 0)

  maker-Quiet :
      (risk : ℕ → RiskInfo F.Double) (f : FeatureEngine F.Double) (t : ℕ) (bbo : Bbo)
      (m : OrderManager)
      → ltb t me_max_tickers ≡ true
      → (m' : OrderManager) × (maker_on_order_book_update F feature_invalid risk ticker_cfg f t bbo
            m
          ≡ ok m')
        × Quiet m m'
  unfolding maker_on_order_book_update
  maker-Quiet risk f t bbo m known =
      let cfg : TradeEngineCfg F.Double = ticker_cfg t in
      let above_bid = F.le cfg.threshold (F.sub f.mkt_price (F.of_int bbo.bid_price)) in
      let below_ask = F.le cfg.threshold (F.sub (F.of_int bbo.ask_price) f.mkt_price) in
      let bid_price = bbo.bid_price -ℤ (if above_bid then pos 0 else pos 1) in
      let ask_price = bbo.ask_price +ℤ (if below_ask then pos 0 else pos 1) in
      elim (Bool-cases (has_both bbo && not (F.eq f.mkt_price feature_invalid))) [
        | inr idle ↦ (m, rw idle refl, HasSent-none m)
        | inl both ↦
            let (m', done, sent) = HasSent-moves F risk m t bid_price ask_price cfg.clip known in
            (m', rw (both, known) done, sent)
      ]

  abbrev by_maker :
      TradeEngine F.Double
      → Outcome (TradeEngine F.Double)
      → AlgoType
      → Outcome (TradeEngine F.Double)
  by_maker e run algo = elim algo [ AlgoType.maker ↦ run | _ ↦ ok e ]

  algo-Quiet :
      (e : TradeEngine F.Double) (t : ℕ) (bbo : Bbo)
      → ltb t me_max_tickers ≡ true
      → (m : OrderManager) × (algo_on_order_book_update F feature_invalid half ticker_cfg e t bbo
          ≡ ok (record e { order_manager = m }))
        × Quiet e.order_manager m
  unfolding algo_on_order_book_update
  algo-Quiet e t bbo known = go e.algo refl
    where
      made :
          (m : OrderManager) × (maker_on_order_book_update F feature_invalid
              (ticker_risk F feature_invalid half ticker_cfg e)
              ticker_cfg
              e.feature_engine
              t
              bbo
              e.order_manager
            ≡ ok m)
          × Quiet e.order_manager m
      made =
          maker-Quiet (ticker_risk F feature_invalid half ticker_cfg e) e.feature_engine t bbo
            e.order_manager known

      run : Outcome (TradeEngine F.Double)
      run = with_orders F feature_invalid half ticker_cfg e (
          maker_on_order_book_update F feature_invalid
            (ticker_risk F feature_invalid half ticker_cfg e) ticker_cfg e.feature_engine t bbo
            e.order_manager)

      by_algo :
          {a : AlgoType}
          → e.algo ≡ a
          → algo_on_order_book_update F feature_invalid half ticker_cfg e t bbo ≡ by_maker e run a
      by_algo h = ap (by_maker e run) h

      go :
          (a : AlgoType)
          → e.algo ≡ a
          → (m : OrderManager) × (algo_on_order_book_update F feature_invalid half ticker_cfg e t
                bbo
              ≡ ok (record e { order_manager = m }))
            × Quiet e.order_manager m
      go AlgoType.maker a =
          (made.0, by_algo a ∙ ap (with_orders F feature_invalid half ticker_cfg e) made.1, made.2)
      go AlgoType.taker a = (e.order_manager, by_algo a, HasSent-none e.order_manager)
      go AlgoType.random a = (e.order_manager, by_algo a, HasSent-none e.order_manager)
      go AlgoType.invalid a = (e.order_manager, by_algo a, HasSent-none e.order_manager)
      go AlgoType.max a = (e.order_manager, by_algo a, HasSent-none e.order_manager)

  -- The engine once its position and its features know the new best bid and offer.
  abbrev noted : TradeEngine F.Double → (t : ℕ) → Bbo → TradeEngine F.Double
  noted e t bbo = record e {
    ticker_position = update e.ticker_position t (update_bbo F half (e.ticker_position t) bbo);
    feature_engine = feature_book_update F e.feature_engine bbo;
  }

  -- The position, the features and the orders after the engine has been told of a book.
  pub record IsQuoted (e e' : TradeEngine F.Double) (t : ℕ) (bbo : Bbo) : Type 0 where
    pub position : e'.ticker_position t ≡ update_bbo F half (e.ticker_position t) bbo
    pub others : (t' : ℕ) → t' ≢ t → e'.ticker_position t' ≡ e.ticker_position t'
    pub features : e'.feature_engine ≡ feature_book_update F e.feature_engine bbo
    pub books : e'.book_at ≡ e.book_at
    pub orders : Quiet e.order_manager e'.order_manager

  -- A call of the engine by the book of a known instrument returns, whatever strategy runs and
  -- whatever the best bid and offer of the book are: the position of this instrument and the
  -- features have been brought up to date with just these best bid and offer, the positions of the
  -- others and the books are as they were, and new orders have been asked for only of instruments
  -- and sides that had no order at work and have one now, once each.
  pub on_order_book_update-IsQuoted :
      (e : TradeEngine F.Double) (t : ℕ) (price : Price) (side : Side) (bbo : Bbo)
      → t < me_max_tickers
      → (e' : TradeEngine F.Double) × (on_order_book_update F feature_invalid half ticker_cfg e t
            price side bbo
          ≡ ok e')
        × IsQuoted e e' t bbo
  unfolding on_order_book_update keeper_update_bbo
  on_order_book_update-IsQuoted e t price side bbo inside =
      let known = lt→ltb t me_max_tickers inside in
      let (m, done, sent) = algo-Quiet (noted e t bbo) t bbo known in
      (
        record (noted e t bbo) { order_manager = m },
        rw (known, on_order_book_update, keeper_update_bbo) done,
        record {
          position = update_self e.ticker_position t (update_bbo F half (e.ticker_position t) bbo);
          others = λ t' ne. ground (arith, ne);
          features = refl;
          books = refl;
          orders = sent;
        },
      )
