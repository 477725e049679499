-- ===== src/Sequencer/Publish.antt =====
-- exchange/order_server/fifo_sequencer.hpp: what reaches the matching engine, and in which order.
use mathlib.Core.Logic.{∥∥₁_elim}
use mathlib.Core.List.{map, append-nil, append_assoc, Perm, Permᴰ}
use mathlib.Core.List.Perm
use native.Mathlib.Nat.{ℕ_set}
use low_latency_learn.Base.{
  ℕ, suc, ◌+◌, ◌≤◌, ◌<◌, ◌≡◌, refl, ap, ◌∙◌, sym, List, [], ◌∷◌, ◌++◌, arith, inl, inr, ok, failed,
  exit_failure, length, length-append, true, Bool-cases, ◌==◌, leb, ◌⊎◌,
}
use low_latency_learn.LfQueue.{LfQueue, write}
use low_latency_learn.LfQueue.Contents.{contents, write-append}
use low_latency_learn.LfQueue.Contents
use low_latency_learn.Messages.{MeClientRequest}
use low_latency_learn.Sequencer.{
  FifoSequencer, RecvTimeClientRequest, me_max_pending_requests, add_client_request, publish,
  sequence_and_publish,
}

-- In the order of the receive times.
pub data InOrder : List RecvTimeClientRequest → Type 0 where
  nil : InOrder []
  one : (r : RecvTimeClientRequest) → InOrder (r ∷ [])
  more :
      {r s : RecvTimeClientRequest} {l : List RecvTimeClientRequest}
      → r.recv_time ≤ s.recv_time
      → InOrder (s ∷ l)
      → InOrder (r ∷ s ∷ l)

-- What the standard says of `std::sort` with this `operator<`: the elements are permuted, and none
-- stands before one with an earlier time. It does not say that equal times keep their order.
pub record StdSort (sort : List RecvTimeClientRequest → List RecvTimeClientRequest) : Type 0 where
  pub permutes : (l : List RecvTimeClientRequest) → Perm (sort l) l
  pub orders : (l : List RecvTimeClientRequest) → InOrder (sort l)

length-permᴰ : {A : Type 0} {xs ys : List A} → Permᴰ xs ys → length xs ≡ length ys
length-permᴰ Permᴰ.nil = refl
length-permᴰ (Permᴰ.cons x p) = ap suc (length-permᴰ p)
length-permᴰ (Permᴰ.swap p q) = refl
length-permᴰ (Permᴰ.trans p q) = length-permᴰ p ∙ length-permᴰ q

length-perm : {A : Type 0} {xs ys : List A} → Perm xs ys → length xs ≡ length ys
length-perm p = ∥∥₁_elim p (ℕ_set _ _) length-permᴰ

publish-append :
    (q : LfQueue MeClientRequest) (rs : List RecvTimeClientRequest)
    → Contents.IsValid q
    → q.num_elements + length rs < q.store_size
    → Contents.IsValid (publish q rs)
      × (contents (publish q rs) ≡ contents q ++ map (λ r. r.request) rs)
unfolding publish write
publish-append q [] v h = (v, sym (append-nil (contents q)))
publish-append q (r ∷ rs) v h =
    let (v', e) = write-append q v r.request (omega arith) in
    let (v'', e') = publish-append (write q r.request) rs v' (omega arith) in
    (v'', rw (e', e) (append_assoc (contents q) (r.request ∷ []) (map (λ r. r.request) rs)))

nil_of_length : {A : Type 0} (xs : List A) → (length xs == 0) ≡ true → xs ≡ []
nil_of_length [] h = refl
nil_of_length (x ∷ xs) h = absurd (ground arith)

-- With room in the queue for all that wait, `sequence_and_publish` puts the waiting requests behind
-- those already queued, each once and in the order of the receive times, and none waits any more.
pub sequence_and_publish-InOrder :
    (sort : List RecvTimeClientRequest → List RecvTimeClientRequest) (s : FifoSequencer)
    → StdSort sort
    → Contents.IsValid s.incoming_requests
    → s.incoming_requests.num_elements + length s.pending_client_requests
      < s.incoming_requests.store_size
    → let s' = sequence_and_publish sort s in
      (sorted : List RecvTimeClientRequest) × Perm sorted s.pending_client_requests
      × InOrder sorted
      × (contents s'.incoming_requests
          ≡ contents s.incoming_requests ++ map (λ r. r.request) sorted)
      × Contents.IsValid s'.incoming_requests
      × (s'.pending_client_requests ≡ [])
unfolding sequence_and_publish
sequence_and_publish-InOrder sort s std v h =
    elim (Bool-cases (length s.pending_client_requests == 0)) [
      | inl none_waits ↦
          let e = nil_of_length s.pending_client_requests none_waits in
          rw none_waits (
            [],
            rw e (Perm.refl []),
            InOrder.nil,
            sym (append-nil (contents s.incoming_requests)),
            v,
            e,
          )
      | inr some_wait ↦
          let (v', e) =
            publish-append s.incoming_requests (sort s.pending_client_requests) v
              (rw (length-perm (std.permutes s.pending_client_requests)) h) in
          rw some_wait (sort s.pending_client_requests, std.permutes _, std.orders _, e, v', refl)
    ]

-- At most `me_max_pending_requests` requests wait: one more is kept below the limit, and exits at it.
pub add_client_request-bound :
    (s : FifoSequencer) (rx_time : ℕ) (request : MeClientRequest)
    → length s.pending_client_requests ≤ me_max_pending_requests
    → ((length s.pending_client_requests ≡ me_max_pending_requests)
        × (add_client_request s rx_time request ≡ failed exit_failure))
      ⊎ ((s' : FifoSequencer) × (add_client_request s rx_time request ≡ ok s')
          × (length s'.pending_client_requests ≤ me_max_pending_requests)
          × (s'.pending_client_requests
              ≡ s.pending_client_requests
                ++ (record { recv_time = rx_time; request = request } ∷ []))
          × (s'.incoming_requests ≡ s.incoming_requests))
unfolding add_client_request
add_client_request-bound s rx_time request h =
    let entry : RecvTimeClientRequest = record { recv_time = rx_time; request = request } in
    let waiting = s.pending_client_requests in
    elim (Bool-cases (leb me_max_pending_requests (length waiting))) [
      | inl full ↦ inl (ground arith, rw full)
      | inr room ↦ inr (
        record s { pending_client_requests = waiting ++ (entry ∷ []) },
        rw room,
        ground (arith, length-append waiting (entry ∷ [])),
        refl,
        refl,
      )
    ]
