-- ===== src/Sockets/Mcast.antt =====
-- common/mcast_socket.hpp and mcast_socket.cpp: a socket for a multicast stream. A buffer is the list
-- of its valid bytes; the system calls are parameters over a state `W` of the system.
use low_latency_learn.Base.{
  ℕ, ◌+◌, ◌-◌, Bool, List, [], ◌++◌, if◌then◌else◌, ltb, leb, length, Outcome, ok, assert, in_range,
  ◌>>=◌, ◌>>◌,
}
use low_latency_learn.Base.Int.{ℤ, negsuc}

abbrev pub mcast_buffer_size : ℕ
mcast_buffer_size = 67108864

pub record McastSocket : Type 0 where
  pub socket_fd : ℤ
  pub outbound : List ℕ
  pub inbound : List ℕ

-- The constructor.
abbrev pub mcast_socket : McastSocket
mcast_socket = record { socket_fd = negsuc 0; outbound = []; inbound = [] }

-- `init`, where `created` is the result of `createSocket`.
abbrev pub init : McastSocket → (created : ℤ) → McastSocket
init k created = record k { socket_fd = created }

-- `leave`; the descriptor that it closes is not modelled further.
abbrev pub leave : McastSocket → McastSocket
leave k = record k { socket_fd = negsuc 0 }

-- `send`: the bytes are copied before the ASSERT looks at the room. Behind the end of the vector the
-- behaviour is undefined, here a failure.
unfoldable pub send : McastSocket → List ℕ → Outcome McastSocket
send k payload = do
  in_range (leb (length k.outbound + length payload) mcast_buffer_size)
  let k : McastSocket = record k { outbound = k.outbound ++ payload }
  assert (ltb (length k.outbound) mcast_buffer_size)
  ok k

-- `recv` gives the bytes that came, none when its result is not above 0; the result of `::send` is
-- only logged.
module _ {W S : Type 0} (recv : W → ℤ → (room : ℕ) → List ℕ × W) (sys_send : W → ℤ → List ℕ → W)
    (recv_callback : S → McastSocket → Outcome (S × McastSocket)) where
  unfoldable pub send_and_recv : W → S → McastSocket → Outcome ((W × S) × McastSocket × Bool)
  send_and_recv w s k = do
    let (got, w) = recv w k.socket_fd (mcast_buffer_size - length k.inbound)
    let received = ltb 0 (length got)
    let filled : McastSocket = record k { inbound = k.inbound ++ got }
    (s, k) ← if received then recv_callback s filled else ok (s, k)
    let w = if ltb 0 (length k.outbound) then sys_send w k.socket_fd k.outbound else w
    ok ((w, s), record k { outbound = [] }, received)
