-- ===== src/OrderServer/Responses.antt =====
-- exchange/order_server/order_server.cpp and trading/order_gw/order_gateway.cpp: the way of the
-- responses from the matching engine to the clients.
use mathlib.Core.Path.{subst}
use mathlib.Core.List.{append_assoc, append-nil}
use low_latency_learn.Base.{
  ℕ, zero, suc, ◌<◌, ◌≡◌, refl, sym, ap, ◌∙◌, inl, inr, false, some, List, [], ◌∷◌, ◌++◌, All,
  arith, length, numbered, number_after, lt→ltb, ◌==◌, update, if◌then◌else◌, Bool-cases, Outcome,
  ok,
}
use low_latency_learn.Types.{inc64, me_max_num_clients}
use low_latency_learn.Messages.{MeClientResponse, OmClientResponse}
use low_latency_learn.LfQueue.{LfQueue, update_read_index, size}
use low_latency_learn.LfQueue.Contents.{
  IsValid, contents, get_next_to_read-contents, update_read_index-contents, length-contents,
  HasRoom, write_all-append,
}
use low_latency_learn.OrderServer.{OrderServer, send_response, send_responses}
use low_latency_learn.OrderGateway.{OrderGateway, recv_callback}
use low_latency_learn.OrderGateway.Session.{om_response, recv_callback-numbered}

-- The responses of one client, and the messages that were sent to it.
abbrev pub responses_for : ℕ → List MeClientResponse → List MeClientResponse
responses_for c [] = []
responses_for c (r ∷ rs) =
    let rest = responses_for c rs in if r.client_id == c then r ∷ rest else rest

abbrev pub sent_for : ℕ → List (ℕ × OmClientResponse) → List OmClientResponse
sent_for c [] = []
sent_for c (m ∷ ms) =
    let rest = sent_for c ms in if m.1.me_client_response.client_id == c then m.1 ∷ rest else rest

-- The client is one of the array, and has a socket.
abbrev pub IsKnown : OrderServer → MeClientResponse → Type 0
IsKnown s r = (r.client_id < me_max_num_clients) × (k : ℕ) × (s.cid_tcp_socket r.client_id ≡ some k)

-- The messages `new` go to the clients' sockets, under consecutive numbers for each client.
pub record Sent (s : OrderServer) (new : List (ℕ × OmClientResponse)) (rs : List MeClientResponse)
    : Type 0 where
  pub numbers :
      (c : ℕ)
      → sent_for c new ≡ numbered om_response (s.cid_next_outgoing_seq_num c) (responses_for c rs)
  pub sockets : All (λ m. s.cid_tcp_socket m.1.me_client_response.client_id ≡ some m.0) new

-- The server behind one response.
abbrev with_response :
    (s : OrderServer) (r : MeClientResponse) (k : ℕ) (q : LfQueue MeClientResponse) → OrderServer
with_response s r k q = record s {
  outgoing_responses = q;
  cid_next_outgoing_seq_num =
      update s.cid_next_outgoing_seq_num r.client_id
        (inc64 (s.cid_next_outgoing_seq_num r.client_id));
  sent = s.sent ++ ((k, om_response (s.cid_next_outgoing_seq_num r.client_id) r) ∷ []);
}

send_response-known :
    (s : OrderServer) (r : MeClientResponse) (k : ℕ) (q : LfQueue MeClientResponse)
    → r.client_id < me_max_num_clients
    → s.cid_tcp_socket r.client_id ≡ some k
    → update_read_index s.outgoing_responses ≡ ok q
    → send_response s r ≡ ok (with_response s r k q)
unfolding send_response
send_response-known s r k q known socket read =
    rw (lt→ltb r.client_id me_max_num_clients known, socket, read, send_response) refl

Sent-cons :
    (s : OrderServer) (r : MeClientResponse) (k : ℕ) (q : LfQueue MeClientResponse)
    (new : List (ℕ × OmClientResponse)) (rs : List MeClientResponse)
    → s.cid_tcp_socket r.client_id ≡ some k
    → Sent (with_response s r k q) new rs
    → Sent s ((k, om_response (s.cid_next_outgoing_seq_num r.client_id) r) ∷ new) (r ∷ rs)
Sent-cons s r k q new rs socket h = record {
  numbers = λ c. elim (Bool-cases (r.client_id == c)) [
    | inl e ↦
        let same : r.client_id ≡ c = ground (arith, e) in
        let n = s.cid_next_outgoing_seq_num in
        let first : n r.client_id ≡ n c = ap n same in
        let next : update n r.client_id (inc64 (n r.client_id)) c ≡ inc64 (n c) =
          rw e (ap inc64 first) in
        rw e (
          ap (λ i. om_response i r ∷ sent_for c new) first
          ∙ ap (λ l. om_response (n c) r ∷ l)
              (h.numbers c ∙ ap (λ i. numbered om_response i (responses_for c rs)) next))
    | inr ne ↦
        let n = s.cid_next_outgoing_seq_num in
        let next : update n r.client_id (inc64 (n r.client_id)) c ≡ n c = rw ne refl in
        rw ne (h.numbers c ∙ ap (λ i. numbered om_response i (responses_for c rs)) next)
  ];
  sockets = (socket, h.sockets);
}

-- What the loop leaves behind.
abbrev pub SendsAll : OrderServer → Outcome OrderServer → Type 0
SendsAll s run =
    (s' : OrderServer) × (new : List (ℕ × OmClientResponse)) × (run ≡ ok s')
    × (contents s'.outgoing_responses ≡ [])
    × (s'.sent ≡ s.sent ++ new)
    × Sent s new (contents s.outgoing_responses)

send_responses-fuel :
    (fuel : ℕ) (s : OrderServer)
    → IsValid s.outgoing_responses
    → All (IsKnown s) (contents s.outgoing_responses)
    → length (contents s.outgoing_responses) < fuel
    → SendsAll s (send_responses fuel s)
unfolding send_responses size
send_responses-fuel zero s v known h = ground (arith, h)
send_responses-fuel (suc fuel) s v known h =
    let q = s.outgoing_responses in
    elim (get_next_to_read-contents q v) [
      | inl (empty, nothing) ↦ (
        s,
        [],
        rw (nothing, send_responses) refl,
        empty,
        sym (append-nil s.sent),
        rw empty (record { numbers = λ c. refl; sockets = tt }),
      )
      | inr (rest, front, there) ↦ elim (update_read_index-contents q v) [
        | inl (empty, _) ↦ cc
        | inr (q', read, v', both, _) ↦
            let r = q.store q.next_read_index in
            let (mine, others) = subst (All (IsKnown s)) both known in
            let (known_client, k, socket) = mine in
            let len : length (contents q) ≡ suc (length (contents q')) = ap length both in
            let count = length-contents q in
            let some_left : (q.num_elements == 0) ≡ false = ground arith in
            let s₁ = with_response s r k q' in
            let (s', new, done, drained, grown, sent) =
              send_responses-fuel fuel s₁ v' others (omega (arith, len, h)) in
            let message : ℕ × OmClientResponse =
              (k, om_response (s.cid_next_outgoing_seq_num r.client_id) r) in
            (
              s',
              message ∷ new,
              rw
                  (
                    there,
                    some_left,
                    send_response-known s r k q' known_client socket read,
                    send_responses,
                  )
                  done,
              drained,
              grown ∙ append_assoc s.sent (message ∷ []) new,
              subst (Sent s (message ∷ new)) (sym both)
                  (Sent-cons s r k q' new (contents q') socket sent),
            )
      ]
    ]

All-responses_for :
    (c : ℕ) (rs : List MeClientResponse) → All (λ r. r.client_id ≡ c) (responses_for c rs)
All-responses_for c [] = tt
All-responses_for c (r ∷ rs) = elim (Bool-cases (r.client_id == c)) [
  | inl e ↦ rw e (ground (arith, e), All-responses_for c rs)
  | inr ne ↦ rw ne (All-responses_for c rs)
]

-- With a valid queue of responses to clients whose sockets are known, the loop that sends ends with
-- the queue empty, every message on the socket of its client. Taken whole by the gateway of a client,
-- which expects the number that the server uses next for it and whose own queue has room for the
-- responses to it, the messages to this client leave in its queue, behind what waited there, just the
-- responses to it, in the order in which the matching engine gave them, and the number that it
-- expects next is raised by one for each of them.
pub recv_callback-send_responses :
    (s : OrderServer) (g : OrderGateway)
    → IsValid s.outgoing_responses
    → All (IsKnown s) (contents s.outgoing_responses)
    → g.next_exp_seq_num ≡ s.cid_next_outgoing_seq_num g.client_id
    → HasRoom g.incoming_responses
        (length (responses_for g.client_id (contents s.outgoing_responses)))
    → (s' : OrderServer) × (new : List (ℕ × OmClientResponse)) × (send_responses
          (suc (size s.outgoing_responses))
          s
        ≡ ok s')
      × (contents s'.outgoing_responses ≡ [])
      × (s'.sent ≡ s.sent ++ new)
      × All (λ m. s.cid_tcp_socket m.1.me_client_response.client_id ≡ some m.0) new
      × (contents (recv_callback g (sent_for g.client_id new)).incoming_responses
          ≡ contents g.incoming_responses
            ++ responses_for g.client_id (contents s.outgoing_responses))
      × ((recv_callback g (sent_for g.client_id new)).next_exp_seq_num
          ≡ number_after g.next_exp_seq_num
              (responses_for g.client_id (contents s.outgoing_responses)))
unfolding size
recv_callback-send_responses s g v known agree room =
    let q = s.outgoing_responses in
    let rs = responses_for g.client_id (contents q) in
    let count = length-contents q in
    let (s', new, done, drained, grown, sent) =
      send_responses-fuel (suc q.num_elements) s v known (omega arith) in
    let taken =
      ap (recv_callback g)
        (sent.numbers g.client_id ∙ ap (λ n. numbered om_response n rs) (sym agree))
      ∙ recv_callback-numbered g rs (All-responses_for g.client_id (contents q)) in
    (
      s',
      new,
      done,
      drained,
      grown,
      sent.sockets,
      ap (λ h. contents h.incoming_responses) taken
          ∙ (write_all-append g.incoming_responses rs room).1,
      ap (λ h. h.next_exp_seq_num) taken,
    )
