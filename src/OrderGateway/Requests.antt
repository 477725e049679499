-- ===== src/OrderGateway/Requests.antt =====
-- trading/order_gw/order_gateway.cpp together with exchange/order_server/order_server.cpp: the
-- requests of a client on their way from its queue to the sequencer of the exchange.
use mathlib.Core.List.{append_assoc, append-nil}
use low_latency_learn.Base.{
  ℕ, suc, ◌+◌, ◌<◌, ◌≤◌, ◌≡◌, refl, sym, ap, ◌∙◌, inl, inr, List, [], ◌∷◌, ◌++◌, All, length,
  numbered, number_after, some, none, ok,
}
use low_latency_learn.Types.{inc64, me_max_num_clients}
use low_latency_learn.Messages.{MeClientRequest}
use low_latency_learn.LfQueue.{LfQueue, get_next_to_read, update_read_index}
use low_latency_learn.LfQueue.Contents.{
  IsValid, contents, get_next_to_read-contents, update_read_index-contents,
}
use low_latency_learn.Sequencer.{me_max_pending_requests}
use low_latency_learn.OrderGateway.{OrderGateway, send_request, send_requests}
use low_latency_learn.OrderServer.{OrderServer, recv_callback, socket_of}
use low_latency_learn.OrderServer.Session.{Accepted, om_request, recv_callback-Accepted}

-- What the gateway has done with the requests that waited.
pub record Sent (g g' : OrderGateway) (rs : List MeClientRequest) : Type 0 where
  pub emptied : contents g'.outgoing_requests ≡ []
  pub sent_behind : g'.sent ≡ g.sent ++ numbered om_request g.next_outgoing_seq_num rs
  pub next : g'.next_outgoing_seq_num ≡ number_after g.next_outgoing_seq_num rs
  pub expected : g'.next_exp_seq_num ≡ g.next_exp_seq_num

-- The state behind one round, where `q` is what the queue has become.
abbrev after_request : OrderGateway → MeClientRequest → LfQueue MeClientRequest → OrderGateway
after_request g r q = record g {
  outgoing_requests = q;
  next_outgoing_seq_num = inc64 g.next_outgoing_seq_num;
  sent = g.sent ++ (om_request g.next_outgoing_seq_num r ∷ []);
}

send_requests-none :
    (fuel : ℕ) (g : OrderGateway)
    → get_next_to_read g.outgoing_requests ≡ none
    → send_requests (suc fuel) g ≡ ok g
unfolding send_requests
send_requests-none fuel g h = rw (h, send_requests) refl

send_requests-some :
    (fuel : ℕ) (g : OrderGateway) (i : ℕ) (q : LfQueue MeClientRequest)
    → get_next_to_read g.outgoing_requests ≡ some i
    → update_read_index g.outgoing_requests ≡ ok q
    → send_requests (suc fuel) g
      ≡ send_requests fuel (after_request g (g.outgoing_requests.store i) q)
unfolding send_requests send_request
send_requests-some fuel g i q h e = rw (h, e, send_requests, send_request) refl

send_requests-Sent :
    (rs : List MeClientRequest) (g : OrderGateway)
    → IsValid g.outgoing_requests
    → contents g.outgoing_requests ≡ rs
    → (g' : OrderGateway) × (send_requests (suc (length rs)) g ≡ ok g') × Sent g g' rs
send_requests-Sent [] g v e =
    let read : get_next_to_read g.outgoing_requests ≡ none =
      elim (get_next_to_read-contents g.outgoing_requests v) [
        | inl (none_left, none_read) ↦ none_read
        | inr (rest, shown, read) ↦ cc
      ] in
    (
      g,
      send_requests-none 0 g read,
      record { emptied = e; sent_behind = sym (append-nil g.sent); next = refl; expected = refl },
    )
send_requests-Sent (r ∷ rs) g v e = elim (update_read_index-contents g.outgoing_requests v) [
  | inl (none_left, exits) ↦ cc
  | inr (q, moved, v', shown, same) ↦
      let at = g.outgoing_requests.next_read_index in
      let read : get_next_to_read g.outgoing_requests ≡ some at =
        elim (get_next_to_read-contents g.outgoing_requests v) [
          | inl (none_left, none_read) ↦ cc
          | inr (rest, shown', found) ↦ found
        ] in
      let left : contents q ≡ rs = cc in
      let head : g.outgoing_requests.store at ≡ r = cc in
      let g₁ = after_request g (g.outgoing_requests.store at) q in
      let (g', runs, done) = send_requests-Sent rs g₁ v' left in
      let tail = numbered om_request (inc64 g.next_outgoing_seq_num) rs in
      (
        g',
        send_requests-some (suc (length rs)) g at q read moved ∙ runs,
        record {
          emptied = done.emptied;
          sent_behind =
              done.sent_behind
              ∙ append_assoc g.sent
                  (om_request g.next_outgoing_seq_num (g.outgoing_requests.store at) ∷ []) tail
              ∙ ap (λ x. g.sent ++ (om_request g.next_outgoing_seq_num x ∷ tail)) head;
          next = done.next;
          expected = done.expected;
        },
      )
]

-- The requests that wait in the gateway of a client all reach the sequencer of the exchange. Where
-- the gateway has sent nothing that the server has not seen, its next number is the one that the
-- server expects from the client, and the sequencer has room, the loop of the gateway ends with
-- its queue empty, in one round for each request and one more, and the server that receives what
-- it sent, on the client's socket, keeps all the requests in their order. Then the numbers of the
-- two agree again.
pub recv_callback-send_requests :
    (g : OrderGateway) (s : OrderServer) (cid socket rx_time : ℕ) (rs : List MeClientRequest)
    → IsValid g.outgoing_requests
    → contents g.outgoing_requests ≡ rs
    → g.sent ≡ []
    → g.next_outgoing_seq_num ≡ s.cid_next_exp_seq_num cid
    → All (λ r. r.client_id ≡ cid) rs
    → cid < me_max_num_clients
    → socket_of (s.cid_tcp_socket cid) socket ≡ socket
    → length s.fifo_sequencer.pending_client_requests + length rs ≤ me_max_pending_requests
    → (g' : OrderGateway) × (s' : OrderServer) × (send_requests (suc (length rs)) g ≡ ok g')
      × (contents g'.outgoing_requests ≡ [])
      × (recv_callback s socket rx_time g'.sent ≡ ok s')
      × Accepted s s' cid socket rx_time rs
      × (g'.next_outgoing_seq_num ≡ s'.cid_next_exp_seq_num cid)
recv_callback-send_requests g s cid socket rx_time rs v e none_sent agree hr hl hs hp =
    let (g', runs, done) = send_requests-Sent rs g v e in
    let (s', received, accepted) = recv_callback-Accepted s cid socket rx_time rs hr hl hs hp in
    let out =
      done.sent_behind
      ∙ ap (λ l. l ++ numbered om_request g.next_outgoing_seq_num rs) none_sent
      ∙ ap (λ n. numbered om_request n rs) agree in
    (
      g',
      s',
      runs,
      done.emptied,
      ap (recv_callback s socket rx_time) out ∙ received,
      accepted,
      done.next ∙ ap (λ n. number_after n rs) agree ∙ sym accepted.expected,
    )
