-- ===== src/Messages/Strings.antt =====
-- The `toString` of the messages, which the log shows: exchange/order_server/client_request.hpp,
-- client_response.hpp and exchange/market_data/market_update.hpp. The digits of a number are a
-- parameter.
use Prim.Native.String.{String, ◌++◌}
use low_latency_learn.Base.{ℕ}
use low_latency_learn.Base.Int.{ℤ, pos}
use low_latency_learn.Types.{side_to_string}
use low_latency_learn.Types.Strings.{
  order_id_to_string, ticker_id_to_string, client_id_to_string, qty_to_string, price_to_string,
  priority_to_string,
}
use low_latency_learn.Messages.{
  MeClientRequest, OmClientRequest, MeClientResponse, OmClientResponse, MeMarketUpdate,
  MdpMarketUpdate, client_request_type_to_string, client_response_type_to_string,
  market_update_type_to_string,
}

module _ (digits : ℤ → String) where
  unfoldable pub me_client_request_to_string : MeClientRequest → String
  unfolding client_request_type_to_string side_to_string
  me_client_request_to_string r =
      "MEClientRequest [type:"
      ++ client_request_type_to_string r.type
      ++ " client:"
      ++ client_id_to_string digits r.client_id
      ++ " ticker:"
      ++ ticker_id_to_string digits r.ticker_id
      ++ " oid:"
      ++ order_id_to_string digits r.order_id
      ++ " side:"
      ++ side_to_string r.side
      ++ " qty:"
      ++ qty_to_string digits r.qty
      ++ " price:"
      ++ price_to_string digits r.price
      ++ "]"

  unfoldable pub me_client_response_to_string : MeClientResponse → String
  unfolding client_response_type_to_string side_to_string
  me_client_response_to_string r =
      "MEClientResponse [type:"
      ++ client_response_type_to_string r.type
      ++ " client:"
      ++ client_id_to_string digits r.client_id
      ++ " ticker:"
      ++ ticker_id_to_string digits r.ticker_id
      ++ " coid:"
      ++ order_id_to_string digits r.client_order_id
      ++ " moid:"
      ++ order_id_to_string digits r.market_order_id
      ++ " side:"
      ++ side_to_string r.side
      ++ " exec_qty:"
      ++ qty_to_string digits r.exec_qty
      ++ " leaves_qty:"
      ++ qty_to_string digits r.leaves_qty
      ++ " price:"
      ++ price_to_string digits r.price
      ++ "]"

  unfoldable pub me_market_update_to_string : MeMarketUpdate → String
  unfolding market_update_type_to_string side_to_string
  me_market_update_to_string u =
      "MEMarketUpdate [type:"
      ++ market_update_type_to_string u.type
      ++ " ticker:"
      ++ ticker_id_to_string digits u.ticker_id
      ++ " oid:"
      ++ order_id_to_string digits u.order_id
      ++ " side:"
      ++ side_to_string u.side
      ++ " qty:"
      ++ qty_to_string digits u.qty
      ++ " price:"
      ++ price_to_string digits u.price
      ++ " priority:"
      ++ priority_to_string digits u.priority
      ++ "]"

  -- The messages that carry a sequence number; `name` is the struct's name.
  abbrev numbered_to_string : (name : String) → (seq_num : ℕ) → String → String
  numbered_to_string name seq_num message =
      name ++ " [ seq:" ++ digits (pos seq_num) ++ " :" ++ message ++ "]"

  unfoldable pub om_client_request_to_string : OmClientRequest → String
  unfolding me_client_request_to_string
  om_client_request_to_string r =
      numbered_to_string "OMClientRequest" r.seq_num
        (me_client_request_to_string r.me_client_request)

  unfoldable pub om_client_response_to_string : OmClientResponse → String
  unfolding me_client_response_to_string
  om_client_response_to_string r =
      numbered_to_string "OMClientResponse" r.seq_num
        (me_client_response_to_string r.me_client_response)

  unfoldable pub mdp_market_update_to_string : MdpMarketUpdate → String
  unfolding me_market_update_to_string
  mdp_market_update_to_string u =
      numbered_to_string "MDPMarketUpdate" u.seq_num (me_market_update_to_string u.me_market_update)
