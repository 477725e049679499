-- ===== src/OrderGateway/Session.antt =====
-- trading/order_gw/order_gateway.cpp: what a stream of responses leaves in the queue.
use low_latency_learn.Base.{
  ℕ, ◌≡◌, ◌≢◌, refl, List, [], ◌∷◌, All, arith, numbered, number_after, ◌⊎◌, ◌∙◌, ap,
}
use low_latency_learn.Messages.{MeClientResponse, OmClientResponse}
use low_latency_learn.LfQueue.{write}
use low_latency_learn.LfQueue.Contents.{write_all}
use low_latency_learn.OrderGateway.{OrderGateway, receive, recv_callback}

abbrev pub om_response : ℕ → MeClientResponse → OmClientResponse
om_response n r = record { seq_num = n; me_client_response = r }

receive-next :
    (g : OrderGateway) (r : MeClientResponse)
    → r.client_id ≡ g.client_id
    → receive g (om_response g.next_exp_seq_num r) ≡ record g {
      next_exp_seq_num = number_after g.next_exp_seq_num (r ∷ []);
      incoming_responses = write g.incoming_responses r;
    }
unfolding receive
receive-next g r h = ground arith

-- Responses for this client under consecutive numbers from the expected one all go to the queue,
-- in their order, and the number expected next is the one behind the last.
pub recv_callback-numbered :
    (g : OrderGateway) (rs : List MeClientResponse)
    → All (λ r. r.client_id ≡ g.client_id) rs
    → recv_callback g (numbered om_response g.next_exp_seq_num rs) ≡ record g {
      next_exp_seq_num = number_after g.next_exp_seq_num rs;
      incoming_responses = write_all g.incoming_responses rs;
    }
unfolding recv_callback write_all
recv_callback-numbered g [] h = refl
recv_callback-numbered g (r ∷ rs) h =
    let taken : OrderGateway = record g {
      next_exp_seq_num = number_after g.next_exp_seq_num (r ∷ []);
      incoming_responses = write g.incoming_responses r;
    } in
    ap (λ g'. recv_callback g' (numbered om_response taken.next_exp_seq_num rs))
      (receive-next g r h.0)
    ∙ recv_callback-numbered taken rs h.1

receive-foreign :
    (g : OrderGateway) (r : OmClientResponse)
    → (r.me_client_response.client_id ≢ g.client_id) ⊎ (r.seq_num ≢ g.next_exp_seq_num)
    → receive g r ≡ g
unfolding receive
receive-foreign g r h = ground arith

-- Responses for other clients, or under other numbers than the expected one, change nothing.
pub recv_callback-foreign :
    (g : OrderGateway) (rs : List OmClientResponse)
    → All
        (λ r. (r.me_client_response.client_id ≢ g.client_id) ⊎ (r.seq_num ≢ g.next_exp_seq_num))
        rs
    → recv_callback g rs ≡ g
unfolding recv_callback
recv_callback-foreign g [] h = refl
recv_callback-foreign g (r ∷ rs) h = rw (receive-foreign g r h.0) (recv_callback-foreign g rs h.1)
