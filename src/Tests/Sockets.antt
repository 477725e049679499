-- ===== src/Tests/Sockets.antt =====
-- Tests of the sockets and the log of common/.
use low_latency_learn.Base.{
  ℕ, ◌≡◌, refl, Bool, true, false, Option, none, some, List, [], ◌∷◌, ◌++◌, arith, Outcome, ok,
  failed, exit_failure, Ends,
}
use low_latency_learn.Base.Int.{ℤ, pos}
use low_latency_learn.LfQueue.{lf_queue}
use low_latency_learn.LfQueue.Contents.{write_all}
use low_latency_learn.Sockets.Framing.Cuts.{recv_packets, recv_packets-bytes}
use low_latency_learn.Sockets.Tcp.{TcpSocket, tcp_socket, send_pending}
use low_latency_learn.Sockets.Tcp.Pending.{send_pending_lem}
use low_latency_learn.Sockets.Server.{TcpServer, Event, Connection, tcp_server, poll}
use low_latency_learn.Sockets.Server.Sockets.{Polled, poll-Polled}
use low_latency_learn.Sockets.Create.{Calls, Options}
use low_latency_learn.Logger.{LogElement, Value, log}
use low_latency_learn.Logger.Format.{Piece, log-fill}

-- Messages of two bytes, and a handler that keeps them all.
abbrev message : List ℕ → ℕ × ℕ
message [] = (0, 0)
message (a ∷ []) = (a, 0)
message (a ∷ b ∷ _) = (a, b)

abbrev encode : ℕ × ℕ → List ℕ
encode m = m.0 ∷ m.1 ∷ []

abbrev keep : List (ℕ × ℕ) → ℕ × ℕ → Outcome (List (ℕ × ℕ))
keep ms m = ok (ms ++ (m ∷ []))

-- Five bytes in three packets.
recv_packets-bytes_example :
    recv_packets 2 message keep [] [] ((1 ∷ []) ∷ (2 ∷ 3 ∷ []) ∷ (4 ∷ 5 ∷ []) ∷ [])
    ≡ ok ((1, 2) ∷ (3, 4) ∷ [], 5 ∷ [])
recv_packets-bytes_example =
    recv_packets-bytes 2 message keep (omega arith) encode (λ m. omega arith) (λ m. refl) [] []
      (1 ∷ []) ((2 ∷ 3 ∷ []) ∷ (4 ∷ 5 ∷ []) ∷ []) ((1, 2) ∷ (3, 4) ∷ []) (5 ∷ []) (omega arith) refl

-- A system that takes what its state says, or would block.
abbrev takes : Option ℕ → ℤ → List ℕ → Bool → Option ℕ × Option ℕ
takes w fd bytes more = (w, w)

abbrev waiting : TcpSocket
waiting = record tcp_socket { send_buffer = 1 ∷ 2 ∷ 3 ∷ [] }

-- A part of the bytes is taken.
send_pending_lem_example : send_pending takes (λ w. true) (some 2) waiting ≡ failed exit_failure
send_pending_lem_example =
    send_pending_lem takes (λ w. true) (some 2) waiting (omega arith) (omega arith)

-- All of them have to wait, and are dropped.
would_block_drops :
    send_pending takes (λ w. true) none waiting ≡ ok (none, record waiting { send_buffer = [] })
would_block_drops = send_pending_lem takes (λ w. true) none waiting (omega arith) (omega arith)

-- The socket 1 has hung up, 2 has something to read, and a connection is new.
abbrev server : TcpServer
server = record tcp_server {
  next_socket = 3;
  sockets = 1 ∷ 2 ∷ [];
  receive_sockets = 1 ∷ 2 ∷ [];
  disconnected_sockets = 1 ∷ [];
}

abbrev events : List Event
events =
    record { socket = 0; readable = true; writable = false; gone = false }
    ∷ record { socket = 2; readable = true; writable = true; gone = false }
    ∷ []

abbrev connection : Connection
connection = record { fd = pos 9; non_blocking = true; no_delay = true; added = true }

poll-Polled_example : Ends (λ v'. Polled server v' events) (poll server events (connection ∷ []))
poll-Polled_example = poll-Polled server events (connection ∷ []) (record {
  sockets = (refl, (refl, tt));
  receive = (refl, (refl, tt));
  send = tt;
  disconnected = (refl, tt);
})

abbrev calls : Calls
calls = record {
  socket = pos 5;
  get_flags = pos 0;
  has_nonblock = false;
  set_flags = pos 0;
  tcp_no_delay = pos 0;
  connect = pos 0;
  would_block = false;
  reuse_addr = pos 0;
  bind = pos 0;
  listen = pos 0;
  multicast_ttl = pos 0;
  ip_ttl = pos 0;
  so_timestamp = pos 0;
}

abbrev client : Options
client = record {
  first_octet = 127;
  is_udp = false;
  is_blocking = false;
  is_listening = false;
  ttl = 0;
  needs_so_timestamp = true;
}

-- The format `%:%%`, with the string `ab` for its place.
abbrev pieces : List Piece
pieces = Piece.hole ∷ Piece.literal 58 ∷ Piece.escaped ∷ []

abbrev character : ℕ → LogElement ℤ
character = LogElement.char

log-fill_example :
    log (lf_queue 8 (character 0)) (37 ∷ 58 ∷ 37 ∷ 37 ∷ []) (Value.string (97 ∷ 98 ∷ []) ∷ [])
    ≡ ok (
        write_all
          (lf_queue 8 (character 0))
          (character 97 ∷ character 98 ∷ character 58 ∷ character 37 ∷ []))
log-fill_example =
    log-fill (lf_queue 8 (character 0)) pieces (Value.string (97 ∷ 98 ∷ []) ∷ []) (refl, (refl, tt))
