-- ===== src/OrderManager.antt =====
-- trading/strategy/om_order.hpp and order_manager.cpp: one order of its own for each instrument and
-- side, and what becomes of it. A pointer to an order is its instrument and the index of its side.
pub mod Strings
pub mod Moves
pub mod Runs
use low_latency_learn.Base.{
  ℕ, Bool, true, false, not, ◌||◌, if◌then◌else◌, ◌==◌, ltb, update, Outcome, ok, in_range, ◌>>=◌,
  ◌>>◌,
}
use low_latency_learn.Base.Int.{eqb_ℤ}
use low_latency_learn.Types.{
  Side, side_to_index, Price, price_invalid, order_id_invalid, ticker_id_invalid, qty_invalid,
  inc64, me_max_tickers, Floats,
}
use low_latency_learn.Messages.{
  MeClientRequest, ClientRequestType, MeClientResponse, ClientResponseType,
}
use low_latency_learn.LfQueue.{LfQueue, write}
use low_latency_learn.Risk.{RiskCheckResult, RiskInfo, check_pre_trade_risk}

pub data OmOrderState : Type 0 where
  invalid pending_new live pending_cancel dead : OmOrderState

pub record OmOrder : Type 0 where
  pub ticker_id : ℕ
  pub order_id : ℕ
  pub side : Side
  pub price : Price
  pub qty : ℕ
  pub order_state : OmOrderState

-- The default member values.
abbrev pub om_order_default : OmOrder
om_order_default = record {
  ticker_id = ticker_id_invalid;
  order_id = order_id_invalid;
  side = Side.invalid;
  price = price_invalid;
  qty = qty_invalid;
  order_state = OmOrderState.invalid;
}

-- `client_id` and the queue of requests are those of the trade engine that the manager points to.
pub record OrderManager : Type 0 where
  pub client_id : ℕ
  pub outgoing_ogw_requests : LfQueue MeClientRequest
  pub ticker_side_order : ℕ → ℕ → OmOrder
  pub next_order_id : ℕ

-- `TradeEngine::sendClientRequest`.
abbrev pub send_client_request : OrderManager → MeClientRequest → OrderManager
send_client_request m r = record m { outgoing_ogw_requests = write m.outgoing_ogw_requests r }

abbrev pub put_order : OrderManager → (ticker_id side_index : ℕ) → OmOrder → OrderManager
put_order m t s o = record m {
  ticker_side_order = update m.ticker_side_order t (update (m.ticker_side_order t) s o);
}

unfoldable pub after_response : OmOrder → MeClientResponse → OmOrder
after_response o r = elim r.type [
  | ClientResponseType.accepted ↦ record o { order_state = OmOrderState.live }
  | ClientResponseType.canceled ↦ record o { order_state = OmOrderState.dead }
  | ClientResponseType.filled ↦
      let filled : OmOrder = record o { qty = r.leaves_qty } in
      if r.leaves_qty == 0 then record filled { order_state = OmOrderState.dead } else filled
  | ClientResponseType.cancel_rejected ↦ o
  | ClientResponseType.invalid ↦ o
]

-- `onOrderUpdate`; the index of a side is always in range.
unfoldable pub on_order_update : OrderManager → MeClientResponse → Outcome OrderManager
unfolding after_response side_to_index
on_order_update m r = do
  in_range (ltb r.ticker_id me_max_tickers)
  let s = side_to_index r.side
  ok (put_order m r.ticker_id s (after_response (m.ticker_side_order r.ticker_id s) r))

abbrev pub new_request : OrderManager → (ticker_id : ℕ) → Price → Side → (qty : ℕ) → MeClientRequest
new_request m ticker_id price side qty = record {
  type = ClientRequestType.new;
  client_id = m.client_id;
  ticker_id = ticker_id;
  order_id = m.next_order_id;
  side = side;
  price = price;
  qty = qty;
}

-- `newOrder`, on the order at `t` and `s`.
unfoldable pub new_order :
    OrderManager → (t s ticker_id : ℕ) → Price → Side → (qty : ℕ) → OrderManager
new_order m t s ticker_id price side qty =
    let sent : OrderManager = send_client_request m (new_request m ticker_id price side qty) in
    let fresh : OmOrder = record {
      ticker_id = ticker_id;
      order_id = m.next_order_id;
      side = side;
      price = price;
      qty = qty;
      order_state = OmOrderState.pending_new;
    } in
    record (put_order sent t s fresh) { next_order_id = inc64 m.next_order_id }

abbrev pub cancel_request : OrderManager → OmOrder → MeClientRequest
cancel_request m o = record {
  type = ClientRequestType.cancel;
  client_id = m.client_id;
  ticker_id = o.ticker_id;
  order_id = o.order_id;
  side = o.side;
  price = o.price;
  qty = o.qty;
}

-- `cancelOrder`.
unfoldable pub cancel_order : OrderManager → (t s : ℕ) → OrderManager
cancel_order m t s =
    let o : OmOrder = m.ticker_side_order t s in
    let sent : OrderManager = send_client_request m (cancel_request m o) in
    put_order sent t s (record o { order_state = OmOrderState.pending_cancel })

module _ (F : Floats) (ticker_risk : ℕ → RiskInfo F.Double) where
  -- The case of `moveOrder` without an order at work.
  unfoldable pub open_order :
      OrderManager → (t s ticker_id : ℕ) → Price → Side → (qty : ℕ) → Outcome OrderManager
  open_order m t s ticker_id price side qty =
      let checked = do
        risk_result ← check_pre_trade_risk F ticker_risk ticker_id side qty
        ok (elim risk_result [
          | RiskCheckResult.allowed ↦ new_order m t s ticker_id price side qty
          | _ ↦ m
        ])
      in if eqb_ℤ price price_invalid then ok m else checked

  -- `moveOrder`.
  unfoldable pub move_order :
      OrderManager → (t s ticker_id : ℕ) → Price → Side → (qty : ℕ) → Outcome OrderManager
  unfolding open_order
  move_order m t s ticker_id price side qty =
      let o : OmOrder = m.ticker_side_order t s in
      elim o.order_state [
        | OmOrderState.live ↦
            ok (if not (eqb_ℤ o.price price) || not (o.qty == qty) then cancel_order m t s else m)
        | OmOrderState.invalid ↦ open_order m t s ticker_id price side qty
        | OmOrderState.dead ↦ open_order m t s ticker_id price side qty
        | OmOrderState.pending_new ↦ ok m
        | OmOrderState.pending_cancel ↦ ok m
      ]

  -- `moveOrders`. As in the source, the order to sell is moved to `bid_price` too.
  unfoldable pub move_orders :
      OrderManager
      → (ticker_id : ℕ) → (bid_price ask_price : Price) → (clip : ℕ) → Outcome OrderManager
  unfolding move_order side_to_index
  move_orders m ticker_id bid_price ask_price clip = do
    in_range (ltb ticker_id me_max_tickers)
    m ← move_order m ticker_id (side_to_index Side.buy) ticker_id bid_price Side.buy clip
    move_order m ticker_id (side_to_index Side.sell) ticker_id bid_price Side.sell clip
