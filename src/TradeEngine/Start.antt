-- ===== src/TradeEngine/Start.antt =====
-- trading/strategy: the trade engine before its first message (trade_engine.cpp, with
-- feature_engine.hpp, position_keeper.hpp and order_manager.hpp).
use low_latency_learn.Base.{ℕ, Option, none}
use low_latency_learn.Base.Int.{pos}
use low_latency_learn.Types.{Floats, AlgoType}
use low_latency_learn.Messages.{MeClientRequest, MeClientResponse, MeMarketUpdate}
use low_latency_learn.LfQueue.{LfQueue}
use low_latency_learn.Positions.{PositionInfo}
use low_latency_learn.OrderManager.{OrderManager, om_order_default}
use low_latency_learn.MarketBook.{MarketOrderBook}
use low_latency_learn.Strategies.{FeatureEngine}
use low_latency_learn.TradeEngine.{TradeEngine}

-- The members of `OrderManager`: no order is at work, and the first id is 1.
abbrev pub new_order_manager : (client_id : ℕ) → LfQueue MeClientRequest → OrderManager
new_order_manager client_id client_requests = record {
  client_id = client_id;
  outgoing_ogw_requests = client_requests;
  ticker_side_order = λ t s. om_order_default;
  next_order_id = 1;
}

module _ (F : Floats) (feature_invalid : F.Double) where
  abbrev pub feature_engine_default : FeatureEngine F.Double
  feature_engine_default = record {
    mkt_price = feature_invalid;
    agg_trade_qty_ratio = feature_invalid;
  }

  -- The default member values of `PositionInfo`, which gives none to `m_open_vwap`.
  abbrev pub position_info_default : (open_vwap : ℕ → F.Double) → PositionInfo F.Double
  position_info_default open_vwap = record {
    position = pos 0;
    real_pnl = F.of_int (pos 0);
    unreal_pnl = F.of_int (pos 0);
    total_pnl = F.of_int (pos 0);
    open_vwap = open_vwap;
    volume = 0;
    bbo = none;
  }

  -- The constructor. It gives no value to the pointers to the books and to the mean prices of the
  -- positions: what they hold are arguments.
  abbrev pub new_trade_engine :
      (client_id : ℕ)
      → AlgoType
      → LfQueue MeClientRequest
      → LfQueue MeClientResponse
      → LfQueue MeMarketUpdate
      → (book_at : ℕ → Option MarketOrderBook) → (open_vwap : (t s : ℕ) → F.Double)
      → TradeEngine F.Double
  new_trade_engine client_id algo_type client_requests client_responses market_updates book_at
        open_vwap =
      record {
        algo = algo_type;
        book_at = book_at;
        incoming_ogw_responses = client_responses;
        incoming_md_updates = market_updates;
        feature_engine = feature_engine_default;
        ticker_position = λ t. position_info_default (open_vwap t);
        order_manager = new_order_manager client_id client_requests;
      }
