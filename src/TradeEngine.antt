-- ===== src/TradeEngine.antt =====
-- trading/strategy/trade_engine.hpp and trade_engine.cpp: the engine takes the responses of the
-- exchange and the market data to the positions, the features and the strategy. The log and the time
-- of the last event are not modelled.
pub mod Start
pub mod Quotes
pub mod Responses
use low_latency_learn.Base.{
  ℕ, zero, suc, ◌+◌, Bool, true, false, Option, none, some, List, [], ◌∷◌, if◌then◌else◌, ltb,
  update, Outcome, ok, failed, out_of_fuel, assert, deref, ◌>>=◌, ◌>>◌,
}
use low_latency_learn.Types.{Side, Price, Floats, TradeEngineCfg, AlgoType, me_max_tickers}
use low_latency_learn.Messages.{
  MeClientRequest, MeClientResponse, ClientResponseType, MeMarketUpdate,
}
use low_latency_learn.LfQueue.{LfQueue, get_next_to_read, update_read_index, size}
use low_latency_learn.Positions.{Bbo, PositionInfo, keeper_add_fill, keeper_update_bbo}
use low_latency_learn.Risk.{RiskInfo}
use low_latency_learn.OrderManager.{OrderManager}
use low_latency_learn.OrderManager
use low_latency_learn.MarketBook.{MarketOrderBook, Notice, on_market_update}
use low_latency_learn.Strategies.{
  FeatureEngine, on_order_book_update as feature_book_update,
  on_trade_update as feature_trade_update, taker_on_trade_update, maker_on_order_book_update,
}

-- `order_manager` holds the queue of requests, `book_at` the pointers of `m_ticker_order_book`. The
-- functions `f_algo..` are those of the strategy that the constructor makes for `algo`, or the
-- default ones, which only log.
pub record TradeEngine (D : Type 0) : Type 0 where
  pub algo : AlgoType
  pub book_at : ℕ → Option MarketOrderBook
  pub incoming_ogw_responses : LfQueue MeClientResponse
  pub incoming_md_updates : LfQueue MeMarketUpdate
  pub feature_engine : FeatureEngine D
  pub ticker_position : ℕ → PositionInfo D
  pub order_manager : OrderManager

-- `sendClientRequest`.
abbrev pub send_client_request : {D : Type 0} → TradeEngine D → MeClientRequest → TradeEngine D
send_client_request e r = record e {
  order_manager = OrderManager.send_client_request e.order_manager r;
}

abbrev pub is_filled : MeClientResponse → Bool
is_filled r = elim r.type [ ClientResponseType.filled ↦ true | _ ↦ false ]

module _ (F : Floats) (feature_invalid half : F.Double)
    (ticker_cfg : ℕ → TradeEngineCfg F.Double) where
  -- The risk of an instrument points to its position in the position keeper.
  abbrev pub ticker_risk : TradeEngine F.Double → ℕ → RiskInfo F.Double
  ticker_risk e t = record {
    position_info = e.ticker_position t;
    risk_cfg = (ticker_cfg t).risk_cfg;
  }

  abbrev pub with_orders :
      TradeEngine F.Double → Outcome OrderManager → Outcome (TradeEngine F.Double)
  with_orders e m = do m ← m; ok (record e { order_manager = m })

  -- `f_algoOnOrderBookUpdate`, `f_algoOnTradeUpdate` and `f_algoOnOrderUpdate`.
  unfoldable pub algo_on_order_book_update :
      TradeEngine F.Double → (ticker_id : ℕ) → Bbo → Outcome (TradeEngine F.Double)
  unfolding maker_on_order_book_update
  algo_on_order_book_update e ticker_id bbo = elim e.algo [
    | AlgoType.maker ↦ with_orders e (
        maker_on_order_book_update F feature_invalid (ticker_risk e) ticker_cfg e.feature_engine
          ticker_id bbo e.order_manager)
    | _ ↦ ok e
  ]

  unfoldable pub algo_on_trade_update :
      TradeEngine F.Double → MeMarketUpdate → Bbo → Outcome (TradeEngine F.Double)
  unfolding taker_on_trade_update
  algo_on_trade_update e u bbo = elim e.algo [
    | AlgoType.taker ↦ with_orders e (
        taker_on_trade_update F feature_invalid (ticker_risk e) ticker_cfg e.feature_engine bbo
          e.order_manager u)
    | _ ↦ ok e
  ]

  unfoldable pub algo_on_order_update :
      TradeEngine F.Double → MeClientResponse → Outcome (TradeEngine F.Double)
  algo_on_order_update e r = elim e.algo [
    | AlgoType.maker ↦ with_orders e (OrderManager.on_order_update e.order_manager r)
    | AlgoType.taker ↦ with_orders e (OrderManager.on_order_update e.order_manager r)
    | _ ↦ ok e
  ]

  -- `onOrderBookUpdate`, with the best bid and offer of the book.
  unfoldable pub on_order_book_update :
      TradeEngine F.Double → (ticker_id : ℕ) → Price → Side → Bbo → Outcome (TradeEngine F.Double)
  unfolding keeper_update_bbo feature_book_update algo_on_order_book_update
  on_order_book_update e ticker_id price side bbo = do
    positions ← keeper_update_bbo F half e.ticker_position ticker_id bbo
    let e : TradeEngine F.Double = record e {
      ticker_position = positions;
      feature_engine = feature_book_update F e.feature_engine bbo;
    }
    algo_on_order_book_update e ticker_id bbo

  -- `onTradeUpdate`.
  unfoldable pub on_trade_update :
      TradeEngine F.Double → MeMarketUpdate → Bbo → Outcome (TradeEngine F.Double)
  unfolding feature_trade_update algo_on_trade_update
  on_trade_update e u bbo =
      algo_on_trade_update
        (record e { feature_engine = feature_trade_update F e.feature_engine u bbo }) u bbo

  -- `onOrderUpdate`.
  unfoldable pub on_order_update :
      TradeEngine F.Double → MeClientResponse → Outcome (TradeEngine F.Double)
  unfolding keeper_add_fill algo_on_order_update
  on_order_update e r = do
    let filled = keeper_add_fill F e.ticker_position r
    positions ← if is_filled r then filled else ok e.ticker_position
    algo_on_order_update (record e { ticker_position = positions }) r

  -- The calls that a book makes while it takes an update, in their order.
  unfoldable pub on_notices :
      TradeEngine F.Double → Bbo → List Notice → Outcome (TradeEngine F.Double)
  unfolding on_order_book_update on_trade_update
  on_notices e bbo [] = ok e
  on_notices e bbo (Notice.order_book_update t price side ∷ ns) = do
    e ← on_order_book_update e t price side bbo
    on_notices e bbo ns
  on_notices e bbo (Notice.trade_update u ∷ ns) = do
    e ← on_trade_update e u bbo
    on_notices e bbo ns

  -- The first loop of `run`, until the queue reports nothing.
  unfoldable pub run_responses : (fuel : ℕ) → TradeEngine F.Double → Outcome (TradeEngine F.Double)
  unfolding on_order_update
  run_responses zero e = failed out_of_fuel
  run_responses (suc fuel) e = elim (get_next_to_read e.incoming_ogw_responses) [
    | none ↦ ok e
    | some p ↦ do
      e ← on_order_update e (e.incoming_ogw_responses.store p)
      q ← update_read_index e.incoming_ogw_responses
      run_responses fuel (record e { incoming_ogw_responses = q })
  ]

  -- One round of the second loop. The book calls the engine at the end of its own update.
  unfoldable pub on_update : TradeEngine F.Double → MeMarketUpdate → Outcome (TradeEngine F.Double)
  unfolding on_notices
  on_update e u = do
    assert (ltb u.ticker_id me_max_tickers)
    book ← deref (e.book_at u.ticker_id)
    book' ← on_market_update (record book { notices = [] }) u
    on_notices (record e { book_at = update e.book_at u.ticker_id (some book') }) book'.bbo
        book'.notices

  unfoldable pub run_updates : (fuel : ℕ) → TradeEngine F.Double → Outcome (TradeEngine F.Double)
  unfolding on_update
  run_updates zero e = failed out_of_fuel
  run_updates (suc fuel) e = elim (get_next_to_read e.incoming_md_updates) [
    | none ↦ ok e
    | some p ↦ do
      e ← on_update e (e.incoming_md_updates.store p)
      q ← update_read_index e.incoming_md_updates
      run_updates fuel (record e { incoming_md_updates = q })
  ]

  -- One round of `run` on what the queues hold.
  unfoldable pub run_round : TradeEngine F.Double → Outcome (TradeEngine F.Double)
  unfolding run_responses run_updates
  run_round e = do
    e ← run_responses (suc (size e.incoming_ogw_responses)) e
    run_updates (suc (size e.incoming_md_updates)) e
