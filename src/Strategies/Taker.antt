-- ===== src/Strategies/Taker.antt =====
-- trading/strategy/liquidity_taker.cpp: what the strategy does on a trade of a seller.
use low_latency_learn.Base.{
  ℕ, ◌<◌, ◌≡◌, refl, ◌⊎◌, inl, inr, Bool, true, false, lt→ltb, ok, in_range, ◌>>◌, if◌then◌else◌,
  not, ◌&&◌,
}
use low_latency_learn.Types.{
  Side, Floats, Price, is_buy, price_invalid, side_to_index, TradeEngineCfg, me_max_tickers,
}
use low_latency_learn.Messages.{MeMarketUpdate}
use low_latency_learn.Positions.{Bbo}
use low_latency_learn.Risk.{RiskInfo}
use low_latency_learn.OrderManager.{OrderManager, OmOrderState, move_orders, move_order, open_order}
use low_latency_learn.Strategies.{FeatureEngine, has_both, taker_on_trade_update}

-- No order is at work at `t` and `s`.
abbrev pub IsIdle : OrderManager → (t s : ℕ) → Type 0
IsIdle m t s =
    ((m.ticker_side_order t s).order_state ≡ OmOrderState.invalid)
    ⊎ ((m.ticker_side_order t s).order_state ≡ OmOrderState.dead)

module _ (F : Floats) (ticker_risk : ℕ → RiskInfo F.Double) where
  move_order-price_invalid :
      (m : OrderManager) (t s ticker_id : ℕ) (side : Side) (qty : ℕ)
      → IsIdle m t s
      → move_order F ticker_risk m t s ticker_id price_invalid side qty ≡ ok m
  unfolding move_order open_order
  move_order-price_invalid m t s ticker_id side qty (inl h) = rw (h, move_order, open_order) refl
  move_order-price_invalid m t s ticker_id side qty (inr h) = rw (h, move_order, open_order) refl

  move_orders-price_invalid :
      (m : OrderManager) (ticker_id : ℕ) (ask_price : Price) (clip : ℕ)
      → ticker_id < me_max_tickers
      → IsIdle m ticker_id (side_to_index Side.buy)
      → IsIdle m ticker_id (side_to_index Side.sell)
      → move_orders F ticker_risk m ticker_id price_invalid ask_price clip ≡ ok m
  unfolding move_orders
  move_orders-price_invalid m ticker_id ask_price clip h hb hs =
      rw
        (
          lt→ltb ticker_id me_max_tickers h,
          move_order-price_invalid m ticker_id (side_to_index Side.buy) ticker_id Side.buy clip hb,
        )
        (move_order-price_invalid m ticker_id (side_to_index Side.sell) ticker_id Side.sell clip hs)

  module _ (feature_invalid : F.Double) (ticker_cfg : ℕ → TradeEngineCfg F.Double) where
    -- On a trade that is not of a buyer, with no order at work on either side of the instrument, the
    -- strategy that takes liquidity does nothing, however large the trade was.
    pub taker_on_trade_update-not_buy :
        (e : FeatureEngine F.Double) (bbo : Bbo) (m : OrderManager) (u : MeMarketUpdate)
        → is_buy u.side ≡ false
        → u.ticker_id < me_max_tickers
        → IsIdle m u.ticker_id (side_to_index Side.buy)
        → IsIdle m u.ticker_id (side_to_index Side.sell)
        → taker_on_trade_update F feature_invalid ticker_risk ticker_cfg e bbo m u ≡ ok m
    unfolding taker_on_trade_update
    taker_on_trade_update-not_buy e bbo m u h ht hb hs =
        let cfg : TradeEngineCfg F.Double = ticker_cfg u.ticker_id in
        let idle = move_orders-price_invalid m u.ticker_id bbo.bid_price cfg.clip ht hb hs in
        rw (h, lt→ltb u.ticker_id me_max_tickers ht, idle)
          (either (has_both bbo && not (F.eq e.agg_trade_qty_ratio feature_invalid))
            (F.le cfg.threshold e.agg_trade_qty_ratio))
      where
        either :
            (a b : Bool)
            → (if a then (in_range true >> (if b then ok m else ok m)) else ok m) ≡ ok m
        either true true = refl
        either true false = refl
        either false b = refl
