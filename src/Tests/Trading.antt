-- ===== src/Tests/Trading.antt =====
-- Tests of trading/order_gw, trading/strategy and of exchange/order_server.
use low_latency_learn.Base.{
  not, ℕ, ◌+◌, ◌%◌, ◌^◌, ◌≡◌, refl, false, none, List, [], ◌∷◌, arith, ok, numbered,
}
use low_latency_learn.Base.Int.{ℤ, pos, negsuc, ltb_ℤ, eqb_ℤ, ◌+ℤ◌, ◌-ℤ◌, ◌*ℤ◌}
use low_latency_learn.Types.{Side, Floats, to_u32}
use low_latency_learn.Messages.{
  MeClientRequest, MeClientResponse, ClientResponseType, me_client_request_default,
  me_client_response_default,
}
use low_latency_learn.MemPool.{mem_pool}
use low_latency_learn.LfQueue.{lf_queue}
use low_latency_learn.LfQueue.Contents.{
  write_all, write_all-append, lf_queue-IsValid, IsValid, contents,
}
use low_latency_learn.Positions.{PositionInfo, moved_position, bbo_default}
use low_latency_learn.Positions.Fills.{add_fills, add_fills_lem, sum_of, signed_qty}
use low_latency_learn.Risk.{RiskInfo, check_pre_trade_risk, check_risk_info, position_after}
use low_latency_learn.OrderManager.{
  OrderManager, om_order_default, move_order, open_order, new_order,
}
use low_latency_learn.OrderManager.Moves.{Moved, move_order-Moved}
use low_latency_learn.OrderGateway.{OrderGateway, send_requests}
use low_latency_learn.OrderGateway.Requests.{recv_callback-send_requests}
use low_latency_learn.OrderServer.{OrderServer, order_server}
use low_latency_learn.OrderServer
use low_latency_learn.OrderServer.Session.{Accepted, om_request, recv_callback-Accepted}
use low_latency_learn.Book.{Order, OrdersAtPrice}
use low_latency_learn.MarketBook.{MarketOrderBook}

-- Whole numbers in the place of doubles.
abbrev pub whole : Floats
whole = record {
  Double = ℤ;
  of_int = λ n. n;
  add = λ a b. a +ℤ b;
  sub = λ a b. a -ℤ b;
  mul = λ a b. a *ℤ b;
  div = λ a b. a;
  lt = ltb_ℤ;
  le = λ a b. not (ltb_ℤ b a);
  eq = eqb_ℤ;
}

abbrev pub flat : PositionInfo ℤ
flat = record {
  position = pos 0;
  real_pnl = pos 0;
  unreal_pnl = pos 0;
  total_pnl = pos 0;
  open_vwap = λ i. pos 0;
  volume = 0;
  bbo = none;
}

abbrev pub fill : Side → (price qty : ℕ) → MeClientResponse
fill side price qty = record me_client_response_default {
  type = ClientResponseType.filled;
  client_id = 7;
  ticker_id = 1;
  side = side;
  price = pos price;
  exec_qty = qty;
  leaves_qty = 0;
}

abbrev pub fills : List MeClientResponse
fills = fill Side.buy 10 5 ∷ fill Side.sell 12 2 ∷ []

add_fills_lem_example :
    (to_u32 (add_fills whole flat fills).position
      ≡ (to_u32 flat.position + sum_of signed_qty fills) % 2 ^ 32)
    × ((add_fills whole flat fills).volume % 2 ^ 32
        ≡ (flat.volume + sum_of (λ r. r.exec_qty) fills) % 2 ^ 32)
add_fills_lem_example = add_fills_lem whole flat fills

-- Long 5, about to be closed.
abbrev long : PositionInfo ℤ
long = record flat { position = pos 5; total_pnl = pos 3 }

long_closes : moved_position (pos 5) 5 Side.sell ≡ pos 0
unfolding moved_position
long_closes = refl

abbrev pub risk : RiskInfo ℤ
risk = record {
  position_info = flat;
  risk_cfg = record { max_order_size = 10; max_position = 20; max_loss = negsuc 99 };
}

abbrev pub manager : OrderManager
manager = record {
  client_id = 7;
  outgoing_ogw_requests = lf_queue 8 me_client_request_default;
  ticker_side_order = λ t s. om_order_default;
  next_order_id = 1;
}

abbrev with_bid : OrderManager
with_bid = new_order manager 1 2 1 (pos 10) Side.buy 5

opens_bid : move_order whole (λ t. risk) manager 1 2 1 (pos 10) Side.buy 5 ≡ ok with_bid
unfolding move_order open_order check_pre_trade_risk check_risk_info position_after
opens_bid = refl

move_order-Moved_example : Moved whole (λ t. risk) manager 1 2 1 (pos 10) Side.buy 5 with_bid
move_order-Moved_example =
    move_order-Moved whole (λ t. risk) manager 1 2 1 (pos 10) Side.buy 5 opens_bid

abbrev pub gateway : OrderGateway
gateway = record {
  client_id = 7;
  outgoing_requests = lf_queue 8 me_client_request_default;
  incoming_responses = lf_queue 8 me_client_response_default;
  next_outgoing_seq_num = 1;
  next_exp_seq_num = 1;
  sent = [];
}

abbrev pub server : OrderServer
server = order_server (lf_queue 8 me_client_response_default) (record {
  incoming_requests = lf_queue 8 me_client_request_default;
  pending_client_requests = [];
})

abbrev request : ℕ → MeClientRequest
request i = record me_client_request_default { client_id = 7; order_id = i }

recv_callback-Accepted_example :
    (s' : OrderServer) × (OrderServer.recv_callback server 4 100
        (numbered om_request 1 (request 1 ∷ request 2 ∷ []))
      ≡ ok s')
    × Accepted server s' 7 4 100 (request 1 ∷ request 2 ∷ [])
recv_callback-Accepted_example =
    recv_callback-Accepted server 7 4 100 (request 1 ∷ request 2 ∷ []) (refl, (refl, tt))
      (omega arith) refl (omega arith)

-- The gateway with two requests waiting.
abbrev requests : List MeClientRequest
requests = request 1 ∷ request 2 ∷ []

abbrev busy_gateway : OrderGateway
busy_gateway = record gateway { outgoing_requests = write_all gateway.outgoing_requests requests }

busy_gateway-IsValid :
    IsValid busy_gateway.outgoing_requests × (contents busy_gateway.outgoing_requests ≡ requests)
busy_gateway-IsValid =
    write_all-append gateway.outgoing_requests requests
      ((lf_queue-IsValid 8 me_client_request_default (omega arith)).0, omega arith)

recv_callback-send_requests_example :
    (g' : OrderGateway) × (s' : OrderServer) × (send_requests 3 busy_gateway ≡ ok g')
    × (contents g'.outgoing_requests ≡ [])
    × (OrderServer.recv_callback server 4 100 g'.sent ≡ ok s')
    × Accepted server s' 7 4 100 requests
    × (g'.next_outgoing_seq_num ≡ s'.cid_next_exp_seq_num 7)
recv_callback-send_requests_example =
    recv_callback-send_requests busy_gateway server 7 4 100 requests busy_gateway-IsValid.0
      busy_gateway-IsValid.1 refl refl (refl, (refl, tt)) (omega arith) refl (omega arith)

abbrev empty_order : Order ℕ
empty_order = record {
  key = 0;
  side = Side.invalid;
  price = pos 0;
  qty = 0;
  priority = 0;
  prev_order = none;
  next_order = none;
}

abbrev empty_level : OrdersAtPrice
empty_level = record {
  side = Side.invalid;
  price = pos 0;
  first_order = none;
  prev_entry = none;
  next_entry = none;
}

abbrev market_book : MarketOrderBook
market_book = record {
  ticker_id = 1;
  has_trade_engine = false;
  book = record {
    slot_to_order = λ i. none;
    orders_at_price_pool = mem_pool 4 empty_level;
    bids_by_price = none;
    asks_by_price = none;
    price_orders_at_price = λ i. none;
    order_pool = mem_pool 4 empty_order;
  };
  bbo = bbo_default;
  notices = [];
}
