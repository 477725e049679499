-- ===== src/Risk.antt =====
-- trading/strategy/risk_manager.hpp and risk_manager.cpp: the check before an order is sent.
use low_latency_learn.Base.{ℕ, if◌then◌else◌, ltb, Outcome, ok, in_range, ◌>>◌}
use low_latency_learn.Base.Int.{ℤ, ltb_ℤ, ◌+ℤ◌, ◌*ℤ◌}
use low_latency_learn.Types.{Side, side_to_value, to_i32, abs, Floats, RiskCfg, me_max_tickers}
use low_latency_learn.Positions.{PositionInfo}

pub data RiskCheckResult : Type 0 where
  invalid order_too_large position_too_large loss_too_large allowed : RiskCheckResult

-- `*m_position_info` is a position of the position keeper.
pub record RiskInfo (D : Type 0) : Type 0 where
  pub position_info : PositionInfo D
  pub risk_cfg : RiskCfg D

-- The position that a fill of the whole order would leave.
unfoldable pub position_after : ℤ → Side → ℕ → ℤ
unfolding side_to_value ◌+ℤ◌ ◌*ℤ◌
position_after position side qty = position +ℤ (side_to_value side *ℤ to_i32 qty)

module _ (F : Floats) where
  -- `RiskInfo::checkPreTradeRisk`.
  unfoldable pub check_risk_info : RiskInfo F.Double → Side → ℕ → RiskCheckResult
  unfolding position_after
  check_risk_info info side qty =
      if ltb info.risk_cfg.max_order_size qty
      then RiskCheckResult.order_too_large
      else if ltb_ℤ (to_i32 info.risk_cfg.max_position)
          (abs (position_after info.position_info.position side qty))
      then RiskCheckResult.position_too_large
      else if F.lt info.position_info.total_pnl info.risk_cfg.max_loss
      then RiskCheckResult.loss_too_large
      else RiskCheckResult.allowed

  -- `RiskManager::checkPreTradeRisk`.
  unfoldable pub check_pre_trade_risk :
      (ℕ → RiskInfo F.Double) → (ticker_id : ℕ) → Side → (qty : ℕ) → Outcome RiskCheckResult
  unfolding check_risk_info
  check_pre_trade_risk ticker_risk ticker_id side qty = do
    in_range (ltb ticker_id me_max_tickers)
    ok (check_risk_info (ticker_risk ticker_id) side qty)
