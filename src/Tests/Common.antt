-- ===== src/Tests/Common.antt =====
-- Tests of common/ and of exchange/order_server/fifo_sequencer.hpp.
use mathlib.Core.List.{Perm, map}
use low_latency_learn.Base.{
  ℕ, ◌≤◌, ◌≡◌, ◌≢◌, refl, ◌⊎◌, true, false, List, [], ◌∷◌, ◌++◌, arith, update, length, ok, failed,
  exit_failure, if◌then◌else◌, leb,
}
use low_latency_learn.MemPool.{MemPool, mem_pool, allocate, deallocate}
use low_latency_learn.MemPool
use low_latency_learn.MemPool.Blocks.{allocate-fresh}
use low_latency_learn.LfQueue.{LfQueue, lf_queue, write}
use low_latency_learn.LfQueue.Contents.{
  contents, write-append, get_next_to_read-contents, update_read_index-contents, write-overflow,
}
use low_latency_learn.LfQueue.Contents
use low_latency_learn.LfQueue.Race.{
  System, Reader, Writer, Reach, here, next, publish, count, look, enter, tests_size-safe,
  pointer_only-exits,
}
use low_latency_learn.Messages.{me_client_request_default}
use low_latency_learn.Sequencer.{
  FifoSequencer, RecvTimeClientRequest, sequence_and_publish, add_client_request,
  me_max_pending_requests,
}
use low_latency_learn.Tests.Sort.{insertion_sort, insertion_sort-StdSort}
use low_latency_learn.Sequencer.Publish.{
  InOrder, sequence_and_publish-InOrder, add_client_request-bound,
}

abbrev pool : MemPool ℕ
pool = mem_pool 3 0

-- Two of the three blocks are in use, and the third is next.
abbrev last_block : MemPool ℕ
last_block = record pool { is_free = λ i. leb 2 i; next_free_index = 2 }

last_block-IsValid : MemPool.IsValid last_block
last_block-IsValid = record { in_store = omega arith; next_is_free = refl }

allocate-fresh_example :
    (pool' : MemPool ℕ) × (allocate pool 7 ≡ ok (0, pool'))
    × MemPool.IsValid pool'
    × (pool'.object ≡ update pool.object 0 7)
    × (pool'.is_free ≡ update pool.is_free 0 false)
    × (pool'.size ≡ 3)
allocate-fresh_example =
    allocate-fresh pool 7 1 (record { in_store = omega arith; next_is_free = refl }) (omega arith)
      (omega arith) refl

abbrev queue : LfQueue ℕ
queue = lf_queue 4 0

-- 8, then 9, round the end of the store.
abbrev wrapped : LfQueue ℕ
wrapped = record {
  store = λ i. if leb 3 i then 8 else 9;
  store_size = 4;
  next_write_index = 1;
  next_read_index = 3;
  num_elements = 2;
}

write-append_example :
    Contents.IsValid (write wrapped 5) × (contents (write wrapped 5) ≡ 8 ∷ 9 ∷ 5 ∷ [])
write-append_example = write-append wrapped (omega arith) 5 (omega arith)

-- The reader has passed its test behind one whole write.
abbrev reading : System
reading = record {
  next_write_index = 1;
  next_read_index = 0;
  num_elements = 1;
  writer = Writer.outside;
  reader = Reader.reading;
}

reading_reached : Reach 2 true reading
reading_reached =
    next (next (next (next here (publish refl)) (count refl)) (look refl (omega arith)))
      (enter refl (λ _. omega arith))

tests_size-safe_example : Reader.reading ≢ Reader.exited
tests_size-safe_example = tests_size-safe reading_reached

pointer_only-exits_example : (s : System) × Reach 2 false s × (s.reader ≡ Reader.exited)
pointer_only-exits_example = pointer_only-exits 2 (omega arith)

abbrev first : RecvTimeClientRequest
first = record { recv_time = 1; request = me_client_request_default }

abbrev second : RecvTimeClientRequest
second = record { recv_time = 2; request = record me_client_request_default { client_id = 3 } }

abbrev waiting : FifoSequencer
waiting = record {
  incoming_requests = lf_queue 4 me_client_request_default;
  pending_client_requests = second ∷ first ∷ [];
}

sequence_and_publish-InOrder_example :
    let s' = sequence_and_publish insertion_sort waiting in
    (sorted : List RecvTimeClientRequest) × Perm sorted (second ∷ first ∷ [])
    × InOrder sorted
    × (contents s'.incoming_requests ≡ [] ++ map (λ r. r.request) sorted)
    × Contents.IsValid s'.incoming_requests
    × (s'.pending_client_requests ≡ [])
sequence_and_publish-InOrder_example =
    sequence_and_publish-InOrder insertion_sort waiting insertion_sort-StdSort (omega arith)
      (omega arith)

add_client_request-bound_example :
    ((2 ≡ me_max_pending_requests)
      × (add_client_request waiting 5 me_client_request_default ≡ failed exit_failure))
    ⊎ ((s' : FifoSequencer) × (add_client_request waiting 5 me_client_request_default ≡ ok s')
        × (length s'.pending_client_requests ≤ me_max_pending_requests)
        × (s'.pending_client_requests
            ≡ (second ∷ first ∷ [])
              ++ (record { recv_time = 5; request = me_client_request_default } ∷ []))
        × (s'.incoming_requests ≡ waiting.incoming_requests))
add_client_request-bound_example =
    add_client_request-bound waiting 5 me_client_request_default (omega arith)

-- The requests come out by their times, not in the order of arrival.
sequencer_run :
    contents (sequence_and_publish insertion_sort waiting).incoming_requests
    ≡ first.request ∷ second.request ∷ []
unfolding sequence_and_publish insertion_sort write
sequencer_run = refl
