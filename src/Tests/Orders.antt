-- ===== src/Tests/Orders.antt =====
-- Tests of trading/strategy/order_manager.cpp over many calls.
use low_latency_learn.Base.{arith, ℕ, ◌≡◌, refl, List, [], ◌∷◌, ok}
use low_latency_learn.Base.Int.{pos}
use low_latency_learn.Types.{Side, side_to_index}
use low_latency_learn.Messages.{ClientResponseType, MeClientResponse, me_client_response_default}
use low_latency_learn.OrderManager.{move_orders, OrderManager, OmOrderState, om_order_default}
use low_latency_learn.OrderManager.Runs.{Event, HasSent, ends}
use low_latency_learn.OrderManager.Runs.Quoting.{Settled, move_orders-Settled}
use low_latency_learn.Risk.{check_pre_trade_risk, check_risk_info, position_after}
use low_latency_learn.OrderManager.Runs.Sequences.{run, run-HasSent, run-stuck}
use low_latency_learn.Tests.Trading.{whole, risk, manager}

abbrev response : ClientResponseType → (leaves_qty : ℕ) → Event
response type leaves_qty = Event.response (record me_client_response_default {
  type = type;
  ticker_id = 1;
  side = Side.buy;
  leaves_qty = leaves_qty;
})

-- The orders of instrument 1 are opened, the bid is accepted and filled, and a new one is opened.
abbrev events : List Event
events =
    Event.moves 1 (pos 10) (pos 12) 5
    ∷ response ClientResponseType.accepted 5
    ∷ response ClientResponseType.filled 0
    ∷ Event.moves 1 (pos 11) (pos 12) 5
    ∷ []

run-HasSent_example :
    (m' : OrderManager) × (run whole (λ left t. risk) manager events ≡ ok m')
    × HasSent manager m' (λ t s. ends t s events)
run-HasSent_example =
    run-HasSent whole (λ left t. risk) manager events (refl, (refl, (refl, (refl, tt))))

-- The bid is live at 10, and 11 is wanted.
abbrev bidding : OrderManager
bidding = record manager {
  ticker_side_order = λ t s. record {
    ticker_id = 1;
    order_id = 4;
    side = Side.buy;
    price = pos 10;
    qty = 5;
    order_state = OmOrderState.live;
  };
}

abbrev canceled : MeClientResponse
canceled = record me_client_response_default {
  type = ClientResponseType.canceled;
  ticker_id = 1;
  side = Side.buy;
}

move_orders-Settled_example :
    (m' : OrderManager) × (move_orders whole (λ t. risk) bidding 1 (pos 11) (pos 12) 5 ≡ ok m')
    × Settled Side.buy
        (pos 11)
        5
        (bidding.ticker_side_order 1 (side_to_index Side.buy))
        (m'.ticker_side_order 1 (side_to_index Side.buy))
    × Settled Side.sell
        (pos 11)
        5
        (bidding.ticker_side_order 1 (side_to_index Side.sell))
        (m'.ticker_side_order 1 (side_to_index Side.sell))
unfolding check_pre_trade_risk check_risk_info position_after
move_orders-Settled_example =
    move_orders-Settled whole (λ t. risk) bidding 1 (pos 11) (pos 12) 5 refl
      (λ e. ground (arith, e)) refl refl

-- The bid was asked for twice, and once it was over.
bid_over : ends 1 2 events ≡ 1
unfolding side_to_index
bid_over = refl

abbrev waiting : OrderManager
waiting = record manager {
  ticker_side_order = λ t s. record om_order_default { order_state = OmOrderState.pending_cancel };
}

run-stuck_example :
    run whole
      (λ left t. risk)
      waiting
      (response ClientResponseType.cancel_rejected 0 ∷ Event.moves 1 (pos 11) (pos 12) 5 ∷ [])
    ≡ ok waiting
run-stuck_example =
    run-stuck whole (λ left t. risk) waiting 1
      (response ClientResponseType.cancel_rejected 0 ∷ Event.moves 1 (pos 11) (pos 12) 5 ∷ []) refl
      refl refl ((refl, refl), (refl, tt))
