-- ===== src/Consumer/Silent.antt =====
-- trading/market_data/market_data_consumer.cpp, `run`: the consumer starts in recovery, and nothing
-- opens the socket of the snapshots.
use low_latency_learn.Base.{
  ℕ, ◌≡◌, refl, sym, ap, ◌∙◌, Bool, true, false, List, [], ◌∷◌, ◌++◌, All, arith, ok, ◌>>=◌,
  Outcome,
}
use low_latency_learn.Base.Int.{ℤ, pos, negsuc, ltb_ℤ, eqb_ℤ}
use low_latency_learn.Messages.{MeMarketUpdate, MdpMarketUpdate}
use low_latency_learn.LfQueue.{LfQueue}
use low_latency_learn.Consumer.{
  MarketDataConsumer, QueuedMarketUpdates, put, started, market_data_consumer, check_snapshot_sync,
  queue_message, receive, receive_all, recv_callback, send_and_recv, run_round,
  incremental_mcast_socket, snapshot_mcast_socket,
}

-- The increments in the order of their arrival, put into the map of those that wait.
abbrev pub put_all : QueuedMarketUpdates → List MdpMarketUpdate → QueuedMarketUpdates
put_all m [] = m
put_all m (r ∷ rs) = put_all (put r.seq_num r.me_market_update m) rs

-- What the system gives for the descriptor in one round after the other.
abbrev pub received : (fd : ℤ) → List (ℤ → List MdpMarketUpdate) → List MdpMarketUpdate
received fd [] = []
received fd (recv ∷ rounds) = recv fd ++ received fd rounds

abbrev pub run_rounds :
    (created : ℤ)
    → (joins : Bool) → MarketDataConsumer
    → List (ℤ → List MdpMarketUpdate)
    → Outcome MarketDataConsumer
run_rounds created joins c [] = ok c
run_rounds created joins c (recv ∷ rounds) =
    run_round created joins recv c >>= λ c'. run_rounds created joins c' rounds

-- The consumer as it was started, but with these increments waiting.
abbrev pub holding : LfQueue MeMarketUpdate → (n : ℕ) → QueuedMarketUpdates → MarketDataConsumer
holding q n m = record (started q (pos n)) { incremental_queued_msgs = m }

module _ (created : ℤ) (joins : Bool) (q : LfQueue MeMarketUpdate) (n : ℕ) where
  receive-holding :
      (m : QueuedMarketUpdates) (r : MdpMarketUpdate)
      → receive created joins (holding q n m) false r
        ≡ ok (holding q n (put r.seq_num r.me_market_update m))
  unfolding receive queue_message check_snapshot_sync
  receive-holding m r = refl

  receive_all-holding :
      (m : QueuedMarketUpdates) (rs : List MdpMarketUpdate)
      → receive_all created joins (holding q n m) false rs ≡ ok (holding q n (put_all m rs))
  unfolding receive_all
  receive_all-holding m [] = refl
  receive_all-holding m (r ∷ rs) =
      ap (λ o. o >>= λ c. receive_all created joins c false rs) (receive-holding m r)
      ∙ receive_all-holding (put r.seq_num r.me_market_update m) rs

  recv_callback-holding :
      (m : QueuedMarketUpdates) (rs : List MdpMarketUpdate)
      → recv_callback created joins (holding q n m) incremental_mcast_socket rs
        ≡ ok (holding q n (put_all m rs))
  unfolding recv_callback
  recv_callback-holding m rs =
      let other : eqb_ℤ (pos n) (negsuc 0) ≡ false = ground arith in
      rw (other, recv_callback) (receive_all-holding m rs)

  incremental-holding :
      (recv : ℤ → List MdpMarketUpdate) (m : QueuedMarketUpdates)
      → send_and_recv created joins recv (holding q n m) incremental_mcast_socket
        ≡ ok (holding q n (put_all m (recv (pos n))))
  unfolding send_and_recv
  incremental-holding recv m = go (recv (pos n))
    where
      go :
          (rs : List MdpMarketUpdate)
          → elim rs [
            | [] ↦ ok (holding q n m)
            | r ∷ rs ↦ recv_callback created joins (holding q n m) incremental_mcast_socket (r ∷ rs)
          ]
            ≡ ok (holding q n (put_all m rs))
      go [] = refl
      go (r ∷ rs) = recv_callback-holding m (r ∷ rs)

  snapshot-holding :
      (recv : ℤ → List MdpMarketUpdate) (m : QueuedMarketUpdates)
      → recv (negsuc 0) ≡ []
      → send_and_recv created joins recv (holding q n m) snapshot_mcast_socket ≡ ok (holding q n m)
  unfolding send_and_recv
  snapshot-holding recv m closed = rw (closed, send_and_recv) refl

  run_rounds-holding :
      (m : QueuedMarketUpdates) (rounds : List (ℤ → List MdpMarketUpdate))
      → All (λ recv. recv (negsuc 0) ≡ []) rounds
      → run_rounds created joins (holding q n m) rounds
        ≡ ok (holding q n (put_all m (received (pos n) rounds)))
  unfolding run_round
  run_rounds-holding m [] closed = refl
  run_rounds-holding m (recv ∷ rounds) closed =
      let m' = put_all m (recv (pos n)) in
      ap
        (λ o. (o >>= λ c. send_and_recv created joins recv c snapshot_mcast_socket) >>= λ c.
          run_rounds created joins c rounds)
        (incremental-holding recv m)
      ∙ ap (λ o. o >>= λ c. run_rounds created joins c rounds) (snapshot-holding recv m' closed.0)
      ∙ run_rounds-holding m' rounds closed.1
      ∙ ap (λ l. ok (holding q n l))
          (sym (put_all-append m (recv (pos n)) (received (pos n) rounds)))
    where
      put_all-append :
          (m : QueuedMarketUpdates) (rs rs' : List MdpMarketUpdate)
          → put_all m (rs ++ rs') ≡ put_all (put_all m rs) rs'
      put_all-append m [] rs' = refl
      put_all-append m (r ∷ rs) rs' = put_all-append (put r.seq_num r.me_market_update m) rs rs'

-- A consumer that has just been made, with its socket of the increments opened and joined, never hands
-- on an update, however many rounds its loop makes and whatever comes on that socket, with gaps or
-- without: it stays in recovery, the queue to the trade engine stays as it was, and all updates that
-- came are kept in its map of increments, under their numbers. The one thing that is relied on of the
-- system is that `recv` gives nothing for the descriptor -1.
pub run_rounds-silent :
    (created : ℤ) (joins : Bool) (q : LfQueue MeMarketUpdate) (n : ℕ)
    (rounds : List (ℤ → List MdpMarketUpdate))
    → All (λ recv. recv (negsuc 0) ≡ []) rounds
    → (c c' : MarketDataConsumer) × (market_data_consumer q (pos n) true ≡ ok c)
      × (run_rounds created joins c rounds ≡ ok c')
      × (c'.in_recovery ≡ true)
      × (c'.incoming_md_updates ≡ q)
      × (c'.snapshot_queued_msgs ≡ [])
      × (c'.incremental_queued_msgs ≡ put_all [] (received (pos n) rounds))
unfolding market_data_consumer
run_rounds-silent created joins q n rounds closed =
    let valid : ltb_ℤ (pos n) (pos 0) ≡ false = ground arith in
    (
      started q (pos n),
      holding q n (put_all [] (received (pos n) rounds)),
      rw (valid, market_data_consumer) refl,
      run_rounds-holding created joins q n [] rounds closed,
      refl,
      refl,
      refl,
      refl,
    )
