-- ===== src/Sockets/Server.antt =====
-- common/tcp_server.hpp and tcp_server.cpp. A pointer to a socket is its number in `socket_at`; the
-- numbers are drawn by `new TCPSocket`, and 0 is the listener. What the system calls report is an
-- argument of the operations.
pub mod Sockets
use low_latency_learn.Base.{
  ℕ, zero, suc, ◌+◌, Bool, true, false, not, ◌&&◌, ◌||◌, Option, none, some, List, [], ◌∷◌, ◌++◌,
  if◌then◌else◌, ◌==◌, update, Outcome, ok, assert, ◌>>=◌, ◌>>◌,
}
use low_latency_learn.Base.Int.{ℤ, negsuc, pos, ltb_ℤ}
use low_latency_learn.Book.Ring.{has}
use low_latency_learn.Sockets.Tcp.{TcpSocket, Received, tcp_socket, send_and_recv}
use low_latency_learn.Sockets.Tcp

pub record TcpServer : Type 0 where
  pub efd : ℤ
  pub socket_at : ℕ → TcpSocket
  pub next_socket : ℕ
  pub sockets : List ℕ
  pub receive_sockets : List ℕ
  pub send_sockets : List ℕ
  pub disconnected_sockets : List ℕ

abbrev pub listener : ℕ
listener = 0

-- The constructor.
abbrev pub tcp_server : TcpServer
tcp_server = record {
  efd = negsuc 0;
  socket_at = λ i. tcp_socket;
  next_socket = 1;
  sockets = [];
  receive_sockets = [];
  send_sockets = [];
  disconnected_sockets = [];
}

abbrev pub destroy : TcpServer → TcpServer
destroy v = record v {
  efd = negsuc 0;
  socket_at = update v.socket_at listener (Tcp.destroy (v.socket_at listener));
}

-- `listen`: `efd` comes from `epoll_create`, `created` from `createSocket`, and `added` says whether
-- `epoll_add` succeeds.
unfoldable pub listen : TcpServer → (efd created : ℤ) → (added : Bool) → Outcome TcpServer
listen v efd created added = do
  let v : TcpServer = record (destroy v) { efd = efd }
  assert (not (ltb_ℤ efd (pos 0)))
  let v : TcpServer = record v {
    socket_at = update v.socket_at listener (Tcp.connect (v.socket_at listener) created);
  }
  assert (not (ltb_ℤ created (pos 0)))
  assert added
  ok v

-- `v.erase(std::remove(v.begin(), v.end(), socket), v.end())`
unfoldable pub removed : ℕ → List ℕ → List ℕ
removed socket [] = []
removed socket (x ∷ xs) = let rest = removed socket xs in if x == socket then rest else x ∷ rest

-- `push_back` where `std::find` finds nothing.
abbrev pub push_new : List ℕ → ℕ → List ℕ
push_new xs socket = if has socket xs then xs else xs ++ (socket ∷ [])

unfoldable pub del : TcpServer → ℕ → TcpServer
del v socket = record v {
  sockets = removed socket v.sockets;
  receive_sockets = removed socket v.receive_sockets;
  send_sockets = removed socket v.send_sockets;
}

unfoldable pub del_all : TcpServer → List ℕ → TcpServer
unfolding del
del_all v [] = v
del_all v (x ∷ xs) = del_all (del v x) xs

-- An event of `epoll_wait`: EPOLLIN, EPOLLOUT, and EPOLLERR or EPOLLHUP.
pub record Event : Type 0 where
  pub socket : ℕ
  pub readable : Bool
  pub writable : Bool
  pub gone : Bool

-- One round of the loop over the events, for another socket than a readable listener.
unfoldable pub on_event : TcpServer → Event → TcpServer
on_event v e = record v {
  receive_sockets = if e.readable then push_new v.receive_sockets e.socket else v.receive_sockets;
  send_sockets = if e.writable then push_new v.send_sockets e.socket else v.send_sockets;
  disconnected_sockets =
      if e.gone then push_new v.disconnected_sockets e.socket else v.disconnected_sockets;
}

-- The loop; the second part of its result is `have_new_connections`.
unfoldable pub on_events : TcpServer → List Event → TcpServer × Bool
unfolding on_event
on_events v [] = (v, false)
on_events v (e ∷ es) =
    let here = e.readable && (e.socket == listener) in
    let (v', have_new) = on_events (if here then v else on_event v e) es in (v', here || have_new)

-- A connection that `accept` gives: its descriptor, and whether `setNonBlocking`, `setNoDelay` and
-- `epoll_add` succeed.
pub record Connection : Type 0 where
  pub fd : ℤ
  pub non_blocking : Bool
  pub no_delay : Bool
  pub added : Bool

unfoldable pub accept_one : TcpServer → Connection → Outcome TcpServer
accept_one v c = do
  assert (c.non_blocking && c.no_delay)
  let socket = v.next_socket
  assert c.added
  ok (record v {
    next_socket = suc socket;
    socket_at = update v.socket_at socket (record tcp_socket { fd = c.fd });
    sockets = push_new v.sockets socket;
    receive_sockets = push_new v.receive_sockets socket;
  })

-- The `while (have_new_connections)`, until `accept` fails.
unfoldable pub accept_all : TcpServer → List Connection → Outcome TcpServer
unfolding accept_one
accept_all v [] = ok v
accept_all v (c ∷ cs) = do v ← accept_one v c; accept_all v cs

unfoldable pub poll : TcpServer → List Event → List Connection → Outcome TcpServer
unfolding del_all on_events accept_all
poll v events connections =
    let (v', have_new) = on_events (del_all v v.disconnected_sockets) events in
    if have_new then accept_all v' connections else ok v'

module _ {W S : Type 0} (sys_send : W → ℤ → List ℕ → (more : Bool) → Option ℕ × W)
    (would_block : W → Bool) (recvmsg : W → ℤ → (room : ℕ) → Received × W)
    (recv_callback : S → (socket : ℕ) → TcpSocket → (rx_time : ℕ) → Outcome (S × TcpSocket)) where
  -- A loop of `sendAndRecv` over some of the sockets; it says whether one received something.
  unfoldable pub run_sockets : W → S → TcpServer → List ℕ → Outcome ((W × S) × TcpServer × Bool)
  unfolding send_and_recv
  run_sockets w s v [] = ok ((w, s), v, false)
  run_sockets w s v (x ∷ xs) = do
    (ws, k, got) ←
        send_and_recv sys_send would_block recvmsg (λ s k t. recv_callback s x k t) w s
          (v.socket_at x)
    (ws, v, more) ← run_sockets ws.0 ws.1 (record v { socket_at = update v.socket_at x k }) xs
    ok (ws, v, got || more)

  -- `TCPServer::sendAndRecv`.
  unfoldable pub server_send_and_recv :
      (recv_finished : S → S) → W → S → TcpServer → Outcome ((W × S) × TcpServer)
  unfolding run_sockets
  server_send_and_recv recv_finished w s v = do
    (ws, v, recv) ← run_sockets w s v v.receive_sockets
    let s = if recv then recv_finished ws.1 else ws.1
    (ws, v, more) ← run_sockets ws.0 s v v.send_sockets
    ok (ws, v)
