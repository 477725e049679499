-- ===== src/Strategies.antt =====
-- trading/strategy/feature_engine.hpp, liquidity_taker.cpp and market_maker.cpp: the features of the
-- market data, the strategy that follows large trades, and the one that quotes on both sides. Doubles are a parameter, and so is their not-a-number
-- `feature_invalid`.
pub mod Taker
use low_latency_learn.Base.{
  ℕ, Bool, not, ◌&&◌, if◌then◌else◌, ltb, Outcome, ok, in_range, ◌>>=◌, ◌>>◌,
}
use low_latency_learn.Base.Int.{pos, eqb_ℤ, ◌+ℤ◌, ◌-ℤ◌, ◌*ℤ◌}
use low_latency_learn.Types.{is_buy, price_invalid, add32, Floats, TradeEngineCfg, me_max_tickers}
use low_latency_learn.Messages.{MeMarketUpdate}
use low_latency_learn.Positions.{Bbo}
use low_latency_learn.Risk.{RiskInfo}
use low_latency_learn.OrderManager.{OrderManager, move_orders}

-- Both prices of the best bid and offer are there.
abbrev pub has_both : Bbo → Bool
has_both bbo = not (eqb_ℤ bbo.bid_price price_invalid) && not (eqb_ℤ bbo.ask_price price_invalid)

pub record FeatureEngine (D : Type 0) : Type 0 where
  pub mkt_price : D
  pub agg_trade_qty_ratio : D

module _ (F : Floats) where
  -- `FeatureEngine::onOrderBookUpdate`.
  unfoldable pub on_order_book_update : FeatureEngine F.Double → Bbo → FeatureEngine F.Double
  unfolding ◌+ℤ◌ ◌*ℤ◌
  on_order_book_update e bbo =
      let weighted = (bbo.bid_price *ℤ pos bbo.ask_qty) +ℤ (bbo.ask_price *ℤ pos bbo.bid_qty) in
      let total = F.of_int (pos (add32 bbo.bid_qty bbo.ask_qty)) in
      if has_both bbo then record e { mkt_price = F.div (F.of_int weighted) total } else e

  -- `FeatureEngine::onTradeUpdate`. As in the source, the quantity of a sell is put in relation to
  -- the bid price.
  unfoldable pub on_trade_update :
      FeatureEngine F.Double → MeMarketUpdate → Bbo → FeatureEngine F.Double
  on_trade_update e u bbo =
      let base = if is_buy u.side then pos bbo.ask_qty else bbo.bid_price in
      let ratio = F.div (F.of_int (pos u.qty)) (F.of_int base) in
      if has_both bbo then record e { agg_trade_qty_ratio = ratio } else e

  module _ (feature_invalid : F.Double) (ticker_risk : ℕ → RiskInfo F.Double)
      (ticker_cfg : ℕ → TradeEngineCfg F.Double) where
    -- `LiquidityTaker::onTradeUpdate`, with the state of the order manager.
    unfoldable pub taker_on_trade_update :
        FeatureEngine F.Double → Bbo → OrderManager → MeMarketUpdate → Outcome OrderManager
    taker_on_trade_update e bbo m u =
        let ratio = e.agg_trade_qty_ratio in
        let cfg : TradeEngineCfg F.Double = ticker_cfg u.ticker_id in
        let follow =
          if is_buy u.side
          then move_orders F ticker_risk m u.ticker_id bbo.ask_price price_invalid cfg.clip
          else move_orders F ticker_risk m u.ticker_id price_invalid bbo.bid_price cfg.clip in
        let decided =
          in_range (ltb u.ticker_id me_max_tickers)
          >> (if F.le cfg.threshold ratio then follow else ok m) in
        if has_both bbo && not (F.eq ratio feature_invalid) then decided else ok m

    -- `MarketMaker::onOrderBookUpdate`: the orders stand at the best prices, or one below and one
    -- above them where the fair price is nearer than the threshold.
    unfoldable pub maker_on_order_book_update :
        FeatureEngine F.Double → (ticker_id : ℕ) → Bbo → OrderManager → Outcome OrderManager
    unfolding ◌+ℤ◌ ◌-ℤ◌
    maker_on_order_book_update e ticker_id bbo m =
        let fair_price = e.mkt_price in
        let cfg : TradeEngineCfg F.Double = ticker_cfg ticker_id in
        let above_bid = F.le cfg.threshold (F.sub fair_price (F.of_int bbo.bid_price)) in
        let below_ask = F.le cfg.threshold (F.sub (F.of_int bbo.ask_price) fair_price) in
        let bid_price = bbo.bid_price -ℤ (if above_bid then pos 0 else pos 1) in
        let ask_price = bbo.ask_price +ℤ (if below_ask then pos 0 else pos 1) in
        let decided =
          in_range (ltb ticker_id me_max_tickers)
          >> move_orders F ticker_risk m ticker_id bid_price ask_price cfg.clip in
        if has_both bbo && not (F.eq fair_price feature_invalid) then decided else ok m
