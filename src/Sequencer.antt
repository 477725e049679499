-- ===== src/Sequencer.antt =====
-- exchange/order_server/fifo_sequencer.hpp: requests wait with their receive times and go to the
-- matching engine in the order of these.
pub mod Publish
use low_latency_learn.Base.{
  ℕ, ◌+◌, ◌≤◌, ◌≡◌, Bool, List, [], ◌∷◌, ◌++◌, ◌==◌, if◌then◌else◌, leb, length, Outcome, ok, fatal,
}
use low_latency_learn.LfQueue.{LfQueue, write}
use low_latency_learn.Messages.{MeClientRequest}

abbrev pub me_max_pending_requests : ℕ
me_max_pending_requests = 1024

pub record RecvTimeClientRequest : Type 0 where
  pub recv_time : ℕ
  pub request : MeClientRequest

-- `pending_client_requests` holds the first `m_pending_size` entries of the array; those behind are
-- never read.
pub record FifoSequencer : Type 0 where
  pub incoming_requests : LfQueue MeClientRequest
  pub pending_client_requests : List RecvTimeClientRequest

unfoldable pub add_client_request : FifoSequencer → ℕ → MeClientRequest → Outcome FifoSequencer
add_client_request s rx_time request =
    if leb me_max_pending_requests (length s.pending_client_requests)
    then fatal
    else ok (record s {
      pending_client_requests =
          s.pending_client_requests ++ (record { recv_time = rx_time; request = request } ∷ []);
    })

-- The loop that writes the sorted requests to the queue.
unfoldable pub publish :
    LfQueue MeClientRequest → List RecvTimeClientRequest → LfQueue MeClientRequest
publish q [] = q
publish q (r ∷ rs) = publish (write q r.request) rs

-- `std::sort` by `operator<`, which compares the receive times, is a parameter.
unfoldable pub sequence_and_publish :
    (List RecvTimeClientRequest → List RecvTimeClientRequest) → FifoSequencer → FifoSequencer
unfolding publish
sequence_and_publish sort s = if length s.pending_client_requests == 0 then s else record {
  incoming_requests = publish s.incoming_requests (sort s.pending_client_requests);
  pending_client_requests = [];
}
