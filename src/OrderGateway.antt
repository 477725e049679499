-- ===== src/OrderGateway.antt =====
-- trading/order_gw/order_gateway.cpp: the requests of the trade engine go out to the exchange under
-- sequence numbers, and its responses come in. A socket carries whole messages; what it was given
-- to send is kept in `sent`.
pub mod Session
pub mod Requests
use low_latency_learn.Base.{
  ℕ, zero, suc, not, Option, none, some, List, [], ◌∷◌, ◌++◌, if◌then◌else◌, ◌==◌, Outcome, ok,
  failed, out_of_fuel, ◌>>=◌,
}
use low_latency_learn.Types.{inc64}
use low_latency_learn.Messages.{
  MeClientRequest, OmClientRequest, MeClientResponse, OmClientResponse,
}
use low_latency_learn.LfQueue.{LfQueue, write, get_next_to_read, update_read_index}

pub record OrderGateway : Type 0 where
  pub client_id : ℕ
  pub outgoing_requests : LfQueue MeClientRequest
  pub incoming_responses : LfQueue MeClientResponse
  pub next_outgoing_seq_num : ℕ
  pub next_exp_seq_num : ℕ
  pub sent : List OmClientRequest

-- One round of the reading loop of `run`: the number and the request go out one behind the other,
-- which is the message of the two.
unfoldable pub send_request : OrderGateway → MeClientRequest → Outcome OrderGateway
send_request g request = do
  q ← update_read_index g.outgoing_requests
  ok (record g {
    outgoing_requests = q;
    next_outgoing_seq_num = inc64 g.next_outgoing_seq_num;
    sent =
        g.sent ++ (record { seq_num = g.next_outgoing_seq_num; me_client_request = request } ∷ []);
  })

-- The loop, until the queue is empty.
unfoldable pub send_requests : (fuel : ℕ) → OrderGateway → Outcome OrderGateway
send_requests zero g = failed out_of_fuel
send_requests (suc fuel) g = elim (get_next_to_read g.outgoing_requests) [
  | none ↦ ok g
  | some p ↦ do g ← send_request g (g.outgoing_requests.store p); send_requests fuel g
]

-- One round of the loop of `recvCallback`: a response for another client, or out of sequence, is
-- logged and dropped.
unfoldable pub receive : OrderGateway → OmClientResponse → OrderGateway
receive g response =
    if not (response.me_client_response.client_id == g.client_id)
    then g
    else if not (response.seq_num == g.next_exp_seq_num)
    then g
    else record g {
      next_exp_seq_num = inc64 g.next_exp_seq_num;
      incoming_responses = write g.incoming_responses response.me_client_response;
    }

-- `recvCallback`, on the whole messages of the buffer.
unfoldable pub recv_callback : OrderGateway → List OmClientResponse → OrderGateway
recv_callback g [] = g
recv_callback g (r ∷ rs) = recv_callback (receive g r) rs
