-- ===== src/OrderServer/Session.antt =====
-- exchange/order_server/order_server.cpp: what a stream of requests leaves in the sequencer.
use low_latency_learn.Base.{
  ℕ, ◌+◌, ◌<◌, ◌≤◌, ◌≡◌, ◌≢◌, refl, sym, ap, ◌∙◌, List, [], ◌∷◌, ◌++◌, All, arith, numbered,
  number_after, ok, ◌>>=◌, some, update, update_self, update_ne, length, length-append, lt→ltb,
}
use mathlib.Core.Path.{subst}
use mathlib.Core.List.{append_assoc, append-nil}
use low_latency_learn.Types.{me_max_num_clients, inc64}
use low_latency_learn.Messages.{MeClientRequest, OmClientRequest}
use low_latency_learn.Sequencer.{RecvTimeClientRequest, add_client_request, me_max_pending_requests}
use low_latency_learn.OrderServer.{OrderServer, receive, recv_callback, socket_of}

abbrev pub om_request : ℕ → MeClientRequest → OmClientRequest
om_request n r = record { seq_num = n; me_client_request = r }

-- The requests as the sequencer keeps them.
abbrev pub received_at : ℕ → List MeClientRequest → List RecvTimeClientRequest
received_at t [] = []
received_at t (r ∷ rs) = record { recv_time = t; request = r } ∷ received_at t rs

-- What the requests of one client, taken in order, have done to the server.
pub record Accepted (s s' : OrderServer) (cid socket rx_time : ℕ) (rs : List MeClientRequest)
    : Type 0 where
  pub pending :
      s'.fifo_sequencer.pending_client_requests
      ≡ s.fifo_sequencer.pending_client_requests ++ received_at rx_time rs
  pub queue : s'.fifo_sequencer.incoming_requests ≡ s.fifo_sequencer.incoming_requests
  pub expected : s'.cid_next_exp_seq_num cid ≡ number_after (s.cid_next_exp_seq_num cid) rs
  pub others :
      (other : ℕ) → other ≢ cid → s'.cid_next_exp_seq_num other ≡ s.cid_next_exp_seq_num other
  pub known : socket_of (s'.cid_tcp_socket cid) socket ≡ socket

-- The state behind an accepted request.
abbrev accept : OrderServer → (cid socket rx_time : ℕ) → MeClientRequest → OrderServer
accept s cid socket rx_time r = record s {
  cid_tcp_socket = update s.cid_tcp_socket cid (some socket);
  cid_next_exp_seq_num = update s.cid_next_exp_seq_num cid (inc64 (s.cid_next_exp_seq_num cid));
  fifo_sequencer = record (s.fifo_sequencer) {
    pending_client_requests =
        s.fifo_sequencer.pending_client_requests ++ received_at rx_time (r ∷ []);
  };
}

receive-accept :
    (s : OrderServer) (cid socket rx_time : ℕ) (r : MeClientRequest)
    → r.client_id ≡ cid
    → cid < me_max_num_clients
    → socket_of (s.cid_tcp_socket cid) socket ≡ socket
    → length s.fifo_sequencer.pending_client_requests < me_max_pending_requests
    → receive s socket rx_time (om_request (s.cid_next_exp_seq_num cid) r)
      ≡ ok (accept s cid socket rx_time r)
unfolding receive add_client_request
receive-accept s cid socket rx_time r hc hl hs hp =
    rw (hc, hs, lt→ltb cid me_max_num_clients hl) ground arith

-- Requests of one client under consecutive numbers from the expected one, on the client's socket
-- and with room in the sequencer, are all accepted: they wait in the sequencer in their order
-- with the time of the call behind those that waited, the queue to the matching engine is as it
-- was, the number expected next is the one behind the last, and the numbers of the other clients
-- are as they were.
pub recv_callback-Accepted :
    (s : OrderServer) (cid socket rx_time : ℕ) (rs : List MeClientRequest)
    → All (λ r. r.client_id ≡ cid) rs
    → cid < me_max_num_clients
    → socket_of (s.cid_tcp_socket cid) socket ≡ socket
    → length s.fifo_sequencer.pending_client_requests + length rs ≤ me_max_pending_requests
    → (s' : OrderServer) × (recv_callback s socket rx_time
          (numbered om_request (s.cid_next_exp_seq_num cid) rs)
        ≡ ok s')
      × Accepted s s' cid socket rx_time rs
unfolding recv_callback
recv_callback-Accepted s cid socket rx_time [] hr hl hs hp = (
  s,
  refl,
  record {
    pending = sym (append-nil s.fifo_sequencer.pending_client_requests);
    queue = refl;
    expected = refl;
    others = λ other h. refl;
    known = hs;
  },
)
recv_callback-Accepted s cid socket rx_time (r ∷ rs) hr hl hs hp =
    let s₁ = accept s cid socket rx_time r in
    let at = update_self s.cid_next_exp_seq_num cid (inc64 (s.cid_next_exp_seq_num cid)) in
    let first = receive-accept s cid socket rx_time r hr.0 hl hs (omega arith) in
    let room : length s₁.fifo_sequencer.pending_client_requests + length rs
        ≤ me_max_pending_requests =
      omega (
        arith,
        length-append s.fifo_sequencer.pending_client_requests (received_at rx_time (r ∷ [])),
      ) in
    let known = ap (λ o. socket_of o socket) (update_self s.cid_tcp_socket cid (some socket)) in
    let (s', e, a) = recv_callback-Accepted s₁ cid socket rx_time rs hr.1 hl known room in
    let n = inc64 (s.cid_next_exp_seq_num cid) in
    let rest =
      subst (λ k. recv_callback s₁ socket rx_time (numbered om_request k rs) ≡ ok s') at e in
    (
      s',
      ap (λ m. m >>= λ x. recv_callback x socket rx_time (numbered om_request n rs)) first ∙ rest,
      record {
        pending =
            a.pending
            ∙ append_assoc s.fifo_sequencer.pending_client_requests (received_at rx_time (r ∷ []))
                (received_at rx_time rs);
        queue = a.queue;
        expected = a.expected ∙ ap (λ k. number_after k rs) at;
        others = λ other h.
            a.others other h ∙ update_ne s.cid_next_exp_seq_num cid other n (λ q. h (sym q));
        known = a.known;
      },
    )
