-- ===== src/Types/Strings.antt =====
-- common/types.hpp: identifiers as text, an invalid one as the word for it. The digits are
-- `std::to_string`, and `<<` on a double, which are parameters.
use Prim.Native.String.{String, ◌++◌}
use low_latency_learn.Base.{ℕ, if◌then◌else◌, ◌==◌}
use low_latency_learn.Base.Int.{ℤ, pos, eqb_ℤ}
use low_latency_learn.Types.{
  Price, order_id_invalid, ticker_id_invalid, client_id_invalid, price_invalid, qty_invalid,
  priority_invalid, RiskCfg, TradeEngineCfg,
}

module _ (digits : ℤ → String) where
  abbrev id_to_string : (invalid : ℕ) → ℕ → String
  id_to_string invalid id = if id == invalid then "INVALID" else digits (pos id)

  abbrev pub order_id_to_string : ℕ → String
  order_id_to_string = id_to_string order_id_invalid

  abbrev pub ticker_id_to_string : ℕ → String
  ticker_id_to_string = id_to_string ticker_id_invalid

  abbrev pub client_id_to_string : ℕ → String
  client_id_to_string = id_to_string client_id_invalid

  abbrev pub qty_to_string : ℕ → String
  qty_to_string = id_to_string qty_invalid

  abbrev pub priority_to_string : ℕ → String
  priority_to_string = id_to_string priority_invalid

  abbrev pub price_to_string : Price → String
  price_to_string price = if eqb_ℤ price price_invalid then "INVALID" else digits price

  module _ {D : Type 0} (shown : D → String) where
    unfoldable pub risk_cfg_to_string : RiskCfg D → String
    risk_cfg_to_string c =
        "RiskCfg{max-order-size:"
        ++ qty_to_string c.max_order_size
        ++ " max-position:"
        ++ qty_to_string c.max_position
        ++ " max-loss:"
        ++ shown c.max_loss
        ++ "}"

    unfoldable pub trade_engine_cfg_to_string : TradeEngineCfg D → String
    unfolding risk_cfg_to_string
    trade_engine_cfg_to_string c =
        "TradeEngineCfg{clip:"
        ++ qty_to_string c.clip
        ++ " thresh:"
        ++ shown c.threshold
        ++ " risk:"
        ++ risk_cfg_to_string c.risk_cfg
        ++ "}"
