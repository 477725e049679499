-- ===== src/Tests/Delivery.antt =====
-- Tests of the way of the responses from exchange/order_server to trading/order_gw.
use low_latency_learn.Base.{
  ℕ, ◌≡◌, refl, inl, some, List, [], ◌∷◌, ◌++◌, All, arith, if◌then◌else◌, ◌==◌, ok,
}
use low_latency_learn.Types.{Side}
use low_latency_learn.Messages.{MeClientResponse, OmClientResponse}
use low_latency_learn.LfQueue.{LfQueue, size}
use low_latency_learn.LfQueue.Contents.{contents}
use low_latency_learn.OrderServer.{OrderServer, send_responses}
use low_latency_learn.OrderServer.Responses.{sent_for, recv_callback-send_responses}
use low_latency_learn.OrderGateway.{recv_callback}
use low_latency_learn.Tests.Trading.{fill, gateway, server}

-- One response for the client 7, and one for the client 2.
abbrev responses : LfQueue MeClientResponse
responses = record {
  store = λ i. record (fill Side.buy 10 5) { client_id = if i == 0 then 7 else 2 };
  store_size = 8;
  next_write_index = 2;
  next_read_index = 0;
  num_elements = 2;
}

abbrev sending : OrderServer
sending = record server { outgoing_responses = responses; cid_tcp_socket = λ c. some 4 }

recv_callback-send_responses_example :
    (s' : OrderServer) × (new : List (ℕ × OmClientResponse)) × (send_responses 3 sending ≡ ok s')
    × (contents s'.outgoing_responses ≡ [])
    × (s'.sent ≡ [] ++ new)
    × All (λ m. some 4 ≡ some m.0) new
    × (contents (recv_callback gateway (sent_for 7 new)).incoming_responses
        ≡ fill Side.buy 10 5 ∷ [])
    × ((recv_callback gateway (sent_for 7 new)).next_exp_seq_num ≡ 2)
unfolding size
recv_callback-send_responses_example =
    recv_callback-send_responses sending gateway
      (record {
        read_in = omega arith;
        write_in = omega arith;
        room = omega arith;
        apart = inl (omega arith);
      })
      ((omega arith, 4, refl), ((omega arith, 4, refl), tt)) refl
      (
        record {
          read_in = omega arith;
          write_in = omega arith;
          room = omega arith;
          apart = inl refl;
        },
        omega arith,
      )
