-- ===== src/Sockets/Framing.antt =====
-- The loops of the three `recvCallback`s over the bytes that a socket has received:
-- exchange/order_server/order_server.cpp, trading/order_gw/order_gateway.cpp and
-- trading/market_data/market_data_consumer.cpp. What they do with a message is a parameter, and so
-- is the reading of a message from its bytes, which the compiler's layout gives.
pub mod Cuts
use low_latency_learn.Base.{
  ℕ, zero, suc, ◌+◌, List, if◌then◌else◌, leb, length, take, drop, Outcome, ok, failed, out_of_fuel,
  ◌>>=◌,
}

module _ {S M : Type 0} (size_of : ℕ) (message : List ℕ → M) (handle : S → M → Outcome S) where
  -- `for (; i + sizeof(..) <= m_next_recv_valid_index; i += sizeof(..))`, with `i` at its end.
  unfoldable pub frame_loop : (fuel : ℕ) → S → List ℕ → (i : ℕ) → Outcome (S × ℕ)
  frame_loop zero s buffer i = failed out_of_fuel
  frame_loop (suc fuel) s buffer i =
      let round = do
        s' ← handle s (message (take size_of (drop i buffer)))
        frame_loop fuel s' buffer (i + size_of)
      in if leb (i + size_of) (length buffer) then round else ok (s, i)

  -- The `if` with the loop, and the `memcpy` that brings what is left to the front of the buffer.
  unfoldable pub recv_frames : S → List ℕ → Outcome (S × List ℕ)
  unfolding frame_loop
  recv_frames s buffer =
      let loop = do (s', i) ← frame_loop (suc (length buffer)) s buffer 0; ok (s', drop i buffer)
      in if leb size_of (length buffer) then loop else ok (s, buffer)
