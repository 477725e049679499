-- ===== src/Consumer/Snapshots.antt =====
-- trading/market_data/market_data_consumer.cpp together with
-- exchange/market_data/snapshot_sythesizer.cpp: a snapshot from its publication to its recovery.
use low_latency_learn.Base.{
  ℕ, zero, suc, ◌+◌, ◌*◌, ◌^◌, ◌<◌, ◌≤◌, ◌≡◌, refl, List, [], ◌∷◌, ◌++◌, All, All-append, arith,
  numbered, length, length-append, Bool, true, false, Option, none, some, ok,
}
use low_latency_learn.Base.Int.{ℤ, negsuc}
use low_latency_learn.Types.{me_max_tickers, me_max_order_ids}
use low_latency_learn.Messages.{MeMarketUpdate}
use low_latency_learn.MemPool.{MemPool}
use low_latency_learn.LfQueue.Contents.{write_all}
use low_latency_learn.Snapshot.{SnapshotSynthesizer}
use low_latency_learn.Snapshot.Published.{mdp_update, orders_from, tickers_from, snapshot_of}
use low_latency_learn.Consumer.{MarketDataConsumer, QueuedMarketUpdates, is_mark, receive_all}
use low_latency_learn.Consumer.Recovery.{entries, receive_all-recovers}

-- The orders that the synthesizer keeps are updates of orders.
abbrev pub IsOrders : (ℕ → Option ℕ) → MemPool MeMarketUpdate → Type 0
IsOrders orders pool = (i p : ℕ) → orders i ≡ some p → is_mark (pool.object p) ≡ false

orders_from_lem :
    (left i : ℕ) (orders : ℕ → Option ℕ) (pool : MemPool MeMarketUpdate)
    → IsOrders orders pool
    → All (λ u. is_mark u ≡ false) (orders_from left i orders pool)
      × (length (orders_from left i orders pool) ≤ left)
unfolding orders_from
orders_from_lem zero i orders pool h = (tt, omega arith)
orders_from_lem (suc left) i orders pool h =
    at_place (orders i) refl (orders_from_lem left (i + 1) orders pool h)
  where
    at_place :
        (o : Option ℕ)
        → orders i ≡ o
        → All (λ u. is_mark u ≡ false) (orders_from left (i + 1) orders pool)
          × (length (orders_from left (i + 1) orders pool) ≤ left)
        → All
            (λ u. is_mark u ≡ false)
            (elim o [
              | none ↦ orders_from left (i + 1) orders pool
              | some p ↦ pool.object p ∷ orders_from left (i + 1) orders pool
            ])
          × (length (elim o [
            | none ↦ orders_from left (i + 1) orders pool
            | some p ↦ pool.object p ∷ orders_from left (i + 1) orders pool
          ])
              ≤ suc left)
    at_place none e ih = (ih.0, omega (arith, ih.1))
    at_place (some p) e ih = ((h i p e, ih.0), omega (arith, ih.1))

tickers_from_lem :
    (left t : ℕ) (s : SnapshotSynthesizer)
    → ((t : ℕ) → IsOrders (s.ticker_orders t) s.order_pool)
    → All (λ u. is_mark u ≡ false) (tickers_from left t s)
      × (length (tickers_from left t s) ≤ left * (1 + me_max_order_ids))
unfolding tickers_from
tickers_from_lem zero t s h = (tt, omega arith)
tickers_from_lem (suc left) t s h =
    let orders = orders_from_lem me_max_order_ids 0 (s.ticker_orders t) s.order_pool (h t) in
    let ih = tickers_from_lem left (t + 1) s h in
    let row = orders_from me_max_order_ids 0 (s.ticker_orders t) s.order_pool in
    let rest = tickers_from left (t + 1) s in
    (
      (refl, All-append (λ u. is_mark u ≡ false) row rest orders.0 ih.0),
      omega (arith, length-append row rest, orders.1, ih.1),
    )

-- A snapshot that the synthesizer publishes, received as a whole and in order, brings a consumer in
-- recovery back, where none of the orders kept is itself a mark. Written to the queue to the
-- trade engine, one after the other, are for each instrument, a CLEAR and all its orders, and then the queued increments behind the
-- last one that the snapshot has seen, where these have no gap; those seen are dropped. The number
-- expected next is the one behind the last increment.
pub receive_all-snapshot_of :
    (created : ℤ) (joins : Bool) (c : MarketDataConsumer) (s : SnapshotSynthesizer)
    (incs : List MeMarketUpdate) (stale : QueuedMarketUpdates)
    → ((t : ℕ) → IsOrders (s.ticker_orders t) s.order_pool)
    → c.in_recovery ≡ true
    → c.snapshot_queued_msgs ≡ []
    → c.incremental_queued_msgs ≡ stale ++ entries (s.last_inc_seq_num + 1) incs
    → All (λ u. is_mark u ≡ false) incs
    → All (λ e. e.0 < s.last_inc_seq_num + 1) stale
    → s.last_inc_seq_num + 1 + length incs < 2 ^ 64
    → receive_all created joins c true (numbered mdp_update 0 (snapshot_of s))
      ≡ ok (record c {
        next_exp_inc_seq_num = s.last_inc_seq_num + 1 + length incs;
        incoming_md_updates =
            write_all c.incoming_md_updates (tickers_from me_max_tickers 0 s ++ incs);
        in_recovery = false;
        snapshot_socket_fd = negsuc 0;
        snapshot_queued_msgs = [];
        incremental_queued_msgs = [];
      })
receive_all-snapshot_of created joins c s incs stale ho hr hq hi hc ht hn =
    let (unmarked, short) = tickers_from_lem me_max_tickers 0 s ho in
    receive_all-recovers created joins c _ _ (tickers_from me_max_tickers 0 s) incs stale hr hq hi
      refl refl unmarked hc ht (omega (arith, short)) hn
