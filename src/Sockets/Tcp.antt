-- ===== src/Sockets/Tcp.antt =====
-- common/tcp_socket.hpp and tcp_socket.cpp. A buffer is the list of its valid bytes, so that
-- `m_next_send_valid_index` and `m_next_recv_valid_index` are the lengths. The system calls are
-- parameters over a state `W` of the system.
pub mod Pending
use low_latency_learn.Base.{
  ℕ, zero, suc, ◌+◌, ◌-◌, ◌*◌, Bool, true, false, Option, none, some, List, [], ◌∷◌, ◌++◌,
  if◌then◌else◌, ◌==◌, ltb, leb, min, length, take, Outcome, ok, failed, out_of_fuel, assert,
  in_range, ◌>>=◌, ◌>>◌,
}
use low_latency_learn.Base.Int.{ℤ, negsuc}

abbrev pub tcp_buffer_size : ℕ
tcp_buffer_size = 67108864

pub record TcpSocket : Type 0 where
  pub fd : ℤ
  pub send_buffer : List ℕ
  pub recv_buffer : List ℕ
  pub send_disconnected : Bool
  pub recv_disconnected : Bool

-- The constructor.
abbrev pub tcp_socket : TcpSocket
tcp_socket = record {
  fd = negsuc 0;
  send_buffer = [];
  recv_buffer = [];
  send_disconnected = false;
  recv_disconnected = false;
}

-- What `recvmsg` gives: the bytes, none of them when its result is not above 0, and the seconds and
-- microseconds of the control message, if there is one.
pub record Received : Type 0 where
  pub bytes : List ℕ
  pub timestamp : Option (ℕ × ℕ)

-- `sec * NANOS_TO_SECS + usec * NANOS_TO_MICROS`
abbrev pub kernel_time : Option (ℕ × ℕ) → ℕ
kernel_time none = 0
kernel_time (some t) = t.0 * 1000000000 + t.1 * 1000

-- `destroy`; the descriptor that it closes is not modelled further.
abbrev pub destroy : TcpSocket → TcpSocket
destroy k = record k { fd = negsuc 0 }

-- `connect`, where `created` is the result of `createSocket`.
abbrev pub connect : TcpSocket → (created : ℤ) → TcpSocket
connect k created = record (destroy k) { fd = created }

-- `send`. Nothing checks that the bytes find room; behind the end of the buffer the behaviour is
-- undefined, here a failure.
unfoldable pub send : TcpSocket → List ℕ → Outcome TcpSocket
send k payload =
    let appended = do
      in_range (leb (length k.send_buffer + length payload) tcp_buffer_size)
      ok (record k { send_buffer = k.send_buffer ++ payload })
    in if ltb 0 (length payload) then appended else ok k

-- A call of `::send` on the system: the bytes and the flag MSG_MORE; none stands for a result below 0.
-- `would_block` reads `errno`.
module _ {W : Type 0} (sys_send : W → ℤ → List ℕ → (more : Bool) → Option ℕ × W)
    (would_block : W → Bool) where
  -- The round behind the call, where `again` is the rest of the loop.
  unfoldable pub on_result :
      (again : W → TcpSocket → (n_send : ℕ) → Outcome (W × TcpSocket))
      → TcpSocket
      → (n_send n_send_this_msg : ℕ) → Option ℕ × W
      → Outcome (W × TcpSocket)
  on_result again k n_send n_send_this_msg (none, w) =
      ok (w, if would_block w then k else record k { send_disconnected = true })
  on_result again k n_send n_send_this_msg (some n, w) = do
    assert (n == n_send_this_msg)
    again w k (n_send - n)

  -- The `while (n_send > 0)`.
  unfoldable pub send_loop : (fuel : ℕ) → W → TcpSocket → (n_send : ℕ) → Outcome (W × TcpSocket)
  send_loop zero w k n_send = failed out_of_fuel
  send_loop (suc fuel) w k n_send =
      let this_msg = min (length k.send_buffer) n_send in
      let round =
        on_result (send_loop fuel) k n_send this_msg
          (sys_send w k.fd (take this_msg k.send_buffer) (ltb this_msg n_send)) in
      if ltb 0 n_send then round else ok (w, k)

  -- The second half of `sendAndRecv`. After one whole call nothing is left, so two rounds do.
  unfoldable pub send_pending : W → TcpSocket → Outcome (W × TcpSocket)
  unfolding send_loop
  send_pending w k = do
    (w', k') ← send_loop 2 w k (min tcp_buffer_size (length k.send_buffer))
    ok (w', record k' { send_buffer = [] })

  module _ {S : Type 0} (recvmsg : W → ℤ → (room : ℕ) → Received × W)
      (recv_callback : S → TcpSocket → (rx_time : ℕ) → Outcome (S × TcpSocket)) where
    -- `sendAndRecv`; its result says whether something was received.
    unfoldable pub send_and_recv : W → S → TcpSocket → Outcome ((W × S) × TcpSocket × Bool)
    unfolding send_pending
    send_and_recv w s k = do
      let (got, w) = recvmsg w k.fd (tcp_buffer_size - length k.recv_buffer)
      let received = ltb 0 (length got.bytes)
      let filled : TcpSocket = record k { recv_buffer = k.recv_buffer ++ got.bytes }
      (s, k) ← if received then recv_callback s filled (kernel_time got.timestamp) else ok (s, k)
      (w, k) ← send_pending w k
      ok ((w, s), k, received)
