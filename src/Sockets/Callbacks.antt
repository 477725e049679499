-- ===== src/Sockets/Callbacks.antt =====
-- The three `recvCallback`s on bytes: exchange/order_server/order_server.cpp,
-- trading/order_gw/order_gateway.cpp and trading/market_data/market_data_consumer.cpp. The theorems
-- take a stream of messages in packets to the callbacks on whole messages.
use low_latency_learn.Base.{
  ℕ, ◌<◌, ◌≡◌, refl, ap, ◌∙◌, List, [], ◌∷◌, ◌++◌, length, Outcome, ok, ◌>>=◌, >>=-cong,
}
use low_latency_learn.Messages.{OmClientRequest, OmClientResponse}
use low_latency_learn.OrderGateway
use low_latency_learn.OrderServer
use low_latency_learn.OrderGateway.{OrderGateway}
use low_latency_learn.OrderServer.{OrderServer}
use low_latency_learn.Sockets.Framing.Cuts.{
  handle_all, recv_packets, recv_packets-bytes, concat, bytes,
}

module _ (size_of : ℕ) (message : List ℕ → OmClientResponse) where
  abbrev gateway_packets :
      OrderGateway → (left : List ℕ) → List (List ℕ) → Outcome (OrderGateway × List ℕ)
  gateway_packets = recv_packets size_of message (λ g m. ok (OrderGateway.receive g m))

  handle_all-recv_callback :
      (g : OrderGateway) (ms : List OmClientResponse)
      → handle_all size_of message (λ g m. ok (OrderGateway.receive g m)) g ms
        ≡ ok (OrderGateway.recv_callback g ms)
  unfolding OrderGateway.recv_callback
  handle_all-recv_callback g [] = refl
  handle_all-recv_callback g (m ∷ ms) = handle_all-recv_callback (OrderGateway.receive g m) ms

  -- However the bytes of the responses are cut into packets, the gateway takes each response once.
  pub gateway_packets-bytes :
      0 < size_of
      → (encode : OmClientResponse → List ℕ)
      → ((m : OmClientResponse) → length (encode m) ≡ size_of)
      → ((m : OmClientResponse) → message (encode m) ≡ m)
      → (g : OrderGateway) (left p : List ℕ) (ps : List (List ℕ)) (ms : List OmClientResponse)
        (rest : List ℕ)
      → length rest < size_of
      → left ++ concat (p ∷ ps) ≡ bytes encode ms ++ rest
      → gateway_packets g left (p ∷ ps) ≡ ok (OrderGateway.recv_callback g ms, rest)
  gateway_packets-bytes one encode sized read g left p ps ms rest short stream =
      recv_packets-bytes size_of message (λ g m. ok (OrderGateway.receive g m)) one encode sized
        read g left p ps ms rest short stream
      ∙ ap (λ r. r >>= λ g'. ok (g', rest)) (handle_all-recv_callback g ms)

module _ (size_of : ℕ) (message : List ℕ → OmClientRequest) (socket rx_time : ℕ) where
  -- The packets of one socket that arrive at the same time.
  abbrev server_packets :
      OrderServer → (left : List ℕ) → List (List ℕ) → Outcome (OrderServer × List ℕ)
  server_packets = recv_packets size_of message (λ s m. OrderServer.receive s socket rx_time m)

  handle_all-server :
      (s : OrderServer) (ms : List OmClientRequest)
      → handle_all size_of message (λ s m. OrderServer.receive s socket rx_time m) s ms
        ≡ OrderServer.recv_callback s socket rx_time ms
  unfolding OrderServer.recv_callback
  handle_all-server s [] = refl
  handle_all-server s (m ∷ ms) =
      >>=-cong (OrderServer.receive s socket rx_time m) _ _ (λ s'. handle_all-server s' ms)

  -- However the bytes of the requests are cut into packets, the server takes each request once.
  pub server_packets-bytes :
      0 < size_of
      → (encode : OmClientRequest → List ℕ) → ((m : OmClientRequest) → length (encode m) ≡ size_of)
      → ((m : OmClientRequest) → message (encode m) ≡ m)
      → (s : OrderServer) (left p : List ℕ) (ps : List (List ℕ)) (ms : List OmClientRequest)
        (rest : List ℕ)
      → length rest < size_of
      → left ++ concat (p ∷ ps) ≡ bytes encode ms ++ rest
      → server_packets s left (p ∷ ps)
        ≡ (OrderServer.recv_callback s socket rx_time ms >>= λ s'. ok (s', rest))
  server_packets-bytes one encode sized read s left p ps ms rest short stream =
      recv_packets-bytes size_of message (λ s m. OrderServer.receive s socket rx_time m) one encode
        sized read s left p ps ms rest short stream
      ∙ ap (λ r. r >>= λ s'. ok (s', rest)) (handle_all-server s ms)
