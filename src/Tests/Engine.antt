-- ===== src/Tests/Engine.antt =====
-- Tests of trading/strategy/trade_engine.cpp.
use low_latency_learn.Base.{ℕ, ◌≡◌, refl, inl, none, ok, arith, if◌then◌else◌, ◌==◌}
use low_latency_learn.Base.Int.{ℤ, pos, negsuc}
use low_latency_learn.Types.{Side, AlgoType, TradeEngineCfg}
use low_latency_learn.Messages.{MeClientResponse, me_market_update_default}
use low_latency_learn.LfQueue.{LfQueue, lf_queue, size}
use low_latency_learn.TradeEngine.{TradeEngine, run_responses, on_order_book_update}
use low_latency_learn.TradeEngine.Quotes.{IsQuoted, on_order_book_update-IsQuoted}
use low_latency_learn.Positions.{Bbo}
use low_latency_learn.TradeEngine.Responses.{Handled, run_responses-Handled}
use low_latency_learn.Tests.Trading.{whole, flat, fill, manager, risk}

abbrev responses : LfQueue MeClientResponse
responses = record {
  store = λ i. if i == 0 then fill Side.buy 10 5 else fill Side.sell 12 2;
  store_size = 8;
  next_write_index = 2;
  next_read_index = 0;
  num_elements = 2;
}

abbrev engine : TradeEngine ℤ
engine = record {
  algo = AlgoType.maker;
  book_at = λ t. none;
  incoming_ogw_responses = responses;
  incoming_md_updates = lf_queue 8 me_market_update_default;
  feature_engine = record { mkt_price = pos 0; agg_trade_qty_ratio = pos 0 };
  ticker_position = λ t. flat;
  order_manager = manager;
}

abbrev config : ℕ → TradeEngineCfg ℤ
config t = record { clip = 5; threshold = pos 1; risk_cfg = risk.risk_cfg }

run_responses-Handled_example :
    Handled whole
      (negsuc 0)
      (pos 0)
      config
      engine
      (run_responses whole (negsuc 0) (pos 0) config 3 engine)
unfolding size
run_responses-Handled_example =
    run_responses-Handled whole (negsuc 0) (pos 0) config engine (inl refl)
      (record {
        read_in = omega arith;
        write_in = omega arith;
        room = omega arith;
        apart = inl (omega arith);
      })
      (omega arith, (omega arith, tt))

abbrev bbo : Bbo
bbo = record { bid_price = pos 99; ask_price = pos 103; bid_qty = 5; ask_qty = 5 }

on_order_book_update-IsQuoted_example :
    (e' : TradeEngine ℤ) × (on_order_book_update whole
        (negsuc 0)
        (pos 0)
        config
        engine
        2
        (pos 103)
        Side.sell
        bbo
      ≡ ok e')
    × IsQuoted whole (negsuc 0) (pos 0) config engine e' 2 bbo
on_order_book_update-IsQuoted_example =
    on_order_book_update-IsQuoted whole (negsuc 0) (pos 0) config engine 2 (pos 103) Side.sell bbo
      (omega arith)
