-- ===== src/OrderServer.antt =====
-- exchange/order_server/order_server.cpp: the requests of the clients come in over TCP and wait in
-- the sequencer, and the responses of the matching engine go out. A socket is a number, and
-- carries whole messages; what the sockets were given to send is kept in `sent`.
pub mod Session
pub mod Responses
use low_latency_learn.Base.{
  ℕ, zero, suc, Bool, not, ◌||◌, Option, none, some, List, [], ◌∷◌, ◌++◌, if◌then◌else◌, ◌==◌, ltb,
  update, Outcome, ok, failed, out_of_fuel, assert, in_range, true, false, ◌>>=◌, ◌>>◌,
}
use low_latency_learn.Types.{inc64, me_max_num_clients}
use low_latency_learn.Messages.{
  MeClientRequest, OmClientRequest, MeClientResponse, OmClientResponse,
}
use low_latency_learn.LfQueue.{LfQueue, get_next_to_read, update_read_index, size}
use low_latency_learn.Sequencer.{
  FifoSequencer, RecvTimeClientRequest, add_client_request, sequence_and_publish,
}

pub record OrderServer : Type 0 where
  pub outgoing_responses : LfQueue MeClientResponse
  pub cid_next_outgoing_seq_num : ℕ → ℕ
  pub cid_next_exp_seq_num : ℕ → ℕ
  pub cid_tcp_socket : ℕ → Option ℕ
  pub fifo_sequencer : FifoSequencer
  pub sent : List (ℕ × OmClientResponse)

-- The constructor.
abbrev pub order_server : LfQueue MeClientResponse → FifoSequencer → OrderServer
order_server responses sequencer = record {
  outgoing_responses = responses;
  cid_next_outgoing_seq_num = λ _. 1;
  cid_next_exp_seq_num = λ _. 1;
  cid_tcp_socket = λ _. none;
  fifo_sequencer = sequencer;
  sent = [];
}

-- The socket of a client: the first one that a request of it came from.
abbrev pub socket_of : Option ℕ → (socket : ℕ) → ℕ
socket_of none socket = socket
socket_of (some known) socket = known

-- One round of the loop of `recvCallback`: a request on another socket than the client's first, or
-- out of sequence, is logged and dropped. The arrays are indexed with `[]`; behind their end the
-- behaviour is undefined, here a failure.
unfoldable pub receive : OrderServer → (socket rx_time : ℕ) → OmClientRequest → Outcome OrderServer
receive s socket rx_time request = do
  let cid = request.me_client_request.client_id
  in_range (ltb cid me_max_num_clients)
  let known = socket_of (s.cid_tcp_socket cid) socket
  let s : OrderServer = record s { cid_tcp_socket = update s.cid_tcp_socket cid (some known) }
  let accepted = do
    sequencer ← add_client_request s.fifo_sequencer rx_time request.me_client_request
    ok (record s {
      cid_next_exp_seq_num = update s.cid_next_exp_seq_num cid (inc64 (s.cid_next_exp_seq_num cid));
      fifo_sequencer = sequencer;
    })
  let dropped = not (known == socket) || not (request.seq_num == s.cid_next_exp_seq_num cid)
  if dropped then ok s else accepted

-- `recvCallback`, on the whole messages of the buffer.
unfoldable pub recv_callback :
    OrderServer → (socket rx_time : ℕ) → List OmClientRequest → Outcome OrderServer
recv_callback s socket rx_time [] = ok s
recv_callback s socket rx_time (r ∷ rs) = do
  s ← receive s socket rx_time r
  recv_callback s socket rx_time rs

-- `recvFinishedCallback`.
abbrev pub recv_finished_callback :
    (List RecvTimeClientRequest → List RecvTimeClientRequest) → OrderServer → OrderServer
recv_finished_callback sort s = record s {
  fifo_sequencer = sequence_and_publish sort s.fifo_sequencer;
}

-- One round of the reading loop of `run`. The client id and the next number are references into the
-- message and the array.
unfoldable pub send_response : OrderServer → MeClientResponse → Outcome OrderServer
send_response s response = do
  let cid = response.client_id
  in_range (ltb cid me_max_num_clients)
  let has_socket : Bool = elim (s.cid_tcp_socket cid) [ none ↦ false | some x ↦ true ]
  assert has_socket
  let n = s.cid_next_outgoing_seq_num cid
  let socket = socket_of (s.cid_tcp_socket cid) 0
  q ← update_read_index s.outgoing_responses
  ok (record s {
    outgoing_responses = q;
    cid_next_outgoing_seq_num = update s.cid_next_outgoing_seq_num cid (inc64 n);
    sent = s.sent ++ ((socket, record { seq_num = n; me_client_response = response }) ∷ []);
  })

-- The loop, until the queue is empty or its count is 0.
unfoldable pub send_responses : (fuel : ℕ) → OrderServer → Outcome OrderServer
send_responses zero s = failed out_of_fuel
send_responses (suc fuel) s = elim (get_next_to_read s.outgoing_responses) [
  | none ↦ ok s
  | some p ↦
      let rest = do s' ← send_response s (s.outgoing_responses.store p); send_responses fuel s'
      in if size s.outgoing_responses == 0 then ok s else rest
]
