-- ===== src/Consumer.antt =====
-- trading/market_data/market_data_consumer.cpp: the updates of the exchange arrive by multicast,
-- and after a gap the state is recovered from a snapshot. A `std::map` from sequence numbers is
-- the list of its entries in ascending order; a socket carries whole messages. The consumer only
-- receives, so that of `sendAndRecv` the receiving half is modelled.
pub mod Recovery
pub mod Snapshots
pub mod Silent
use low_latency_learn.Base.{
  ℕ, ◌+◌, Bool, true, false, not, ◌||◌, ◌&&◌, Option, none, some, List, [], ◌∷◌, ◌++◌,
  if◌then◌else◌, ◌==◌, ltb, Outcome, ok, assert, ◌>>=◌, ◌>>◌,
}
use low_latency_learn.Base.Int.{ℤ, pos, negsuc, ltb_ℤ, eqb_ℤ}
use low_latency_learn.Types.{inc64}
use low_latency_learn.Messages.{MeMarketUpdate, MarketUpdateType, MdpMarketUpdate}
use low_latency_learn.LfQueue.{LfQueue, write}

abbrev pub QueuedMarketUpdates : Type 0
QueuedMarketUpdates = List (ℕ × MeMarketUpdate)

-- `m[key] = value`, `m.find(key) != m.end()` and `m.rbegin()`.
unfoldable pub put : ℕ → MeMarketUpdate → QueuedMarketUpdates → QueuedMarketUpdates
put key value [] = (key, value) ∷ []
put key value ((k, v) ∷ m) =
    let rest = put key value m in
    if key == k
    then (key, value) ∷ m
    else if ltb key k
    then (key, value) ∷ (k, v) ∷ m
    else (k, v) ∷ rest

unfoldable pub has_key : ℕ → QueuedMarketUpdates → Bool
has_key key [] = false
has_key key ((k, v) ∷ m) = (key == k) || has_key key m

unfoldable pub last_entry : QueuedMarketUpdates → Option MeMarketUpdate
last_entry [] = none
last_entry ((k, v) ∷ m) = elim (last_entry m) [ none ↦ some v | some u ↦ some u ]

pub record MarketDataConsumer : Type 0 where
  pub next_exp_inc_seq_num : ℕ
  pub incoming_md_updates : LfQueue MeMarketUpdate
  pub in_recovery : Bool
  pub incremental_socket_fd : ℤ
  pub snapshot_socket_fd : ℤ
  pub snapshot_queued_msgs : QueuedMarketUpdates
  pub incremental_queued_msgs : QueuedMarketUpdates

-- The constructor: the default member values, and the descriptor that `init` of the socket of the
-- increments gave. The descriptor of the snapshot socket stays -1.
abbrev pub started : LfQueue MeMarketUpdate → (created : ℤ) → MarketDataConsumer
started market_updates created = record {
  next_exp_inc_seq_num = 1;
  incoming_md_updates = market_updates;
  in_recovery = true;
  incremental_socket_fd = created;
  snapshot_socket_fd = negsuc 0;
  snapshot_queued_msgs = [];
  incremental_queued_msgs = [];
}

-- `created` is the result of `init`, and `joins` that of `join`.
unfoldable pub market_data_consumer :
    LfQueue MeMarketUpdate → (created : ℤ) → (joins : Bool) → Outcome MarketDataConsumer
market_data_consumer market_updates created joins = do
  assert (not (ltb_ℤ created (pos 0)))
  assert joins
  ok (started market_updates created)

abbrev pub is_start : MarketUpdateType → Bool
is_start MarketUpdateType.snapshot_start = true
is_start _ = false

abbrev pub is_end : MarketUpdateType → Bool
is_end MarketUpdateType.snapshot_end = true
is_end _ = false

abbrev pub is_mark : MeMarketUpdate → Bool
is_mark u = is_start u.type || is_end u.type

-- The loop over the snapshot: its events in order, or none at a gap.
unfoldable pub snapshot_events :
    (next_snapshot_seq : ℕ) → QueuedMarketUpdates → Option (List MeMarketUpdate)
snapshot_events next_snapshot_seq [] = some []
snapshot_events next_snapshot_seq ((k, u) ∷ m) =
    let rest = snapshot_events (inc64 next_snapshot_seq) m in
    let events : Option (List MeMarketUpdate) = elim rest [
      | none ↦ none
      | some us ↦ some (if is_mark u then us else u ∷ us)
    ] in
    if k == next_snapshot_seq then events else none

-- The loop over the increments: whether there was no gap, the number expected next, and the events.
-- What is expected is a member, and stays as it is when the loop breaks off.
unfoldable pub incremental_events :
    (next_exp : ℕ)
    → QueuedMarketUpdates
    → (events : List MeMarketUpdate) → Bool × ℕ × List MeMarketUpdate
incremental_events next_exp [] events = (true, next_exp, events)
incremental_events next_exp ((k, u) ∷ m) events =
    let skip = incremental_events next_exp m events in
    let take = incremental_events (inc64 next_exp) m (events ++ (u ∷ [])) in
    if ltb k next_exp
    then skip
    else if not (k == next_exp)
    then (false, next_exp, events)
    else if is_mark u
    then skip
    else take

unfoldable pub publish : LfQueue MeMarketUpdate → List MeMarketUpdate → LfQueue MeMarketUpdate
publish q [] = q
publish q (u ∷ us) = publish (write q u) us

-- `checkSnapshotSync` from the increments on, for a complete snapshot that ends with `last`.
unfoldable pub finish_sync :
    MarketDataConsumer → (last : MeMarketUpdate) → List MeMarketUpdate → MarketDataConsumer
finish_sync c last events =
    let (complete, next_exp, final_events) =
      incremental_events (inc64 last.order_id) c.incremental_queued_msgs events in
    if complete
    then record c {
      next_exp_inc_seq_num = next_exp;
      incoming_md_updates = publish c.incoming_md_updates final_events;
      in_recovery = false;
      snapshot_socket_fd = negsuc 0;
      snapshot_queued_msgs = [];
      incremental_queued_msgs = [];
    }
    else record c { next_exp_inc_seq_num = next_exp; snapshot_queued_msgs = [] }

-- `checkSnapshotSync`.
unfoldable pub check_snapshot_sync : MarketDataConsumer → MarketDataConsumer
check_snapshot_sync c =
    let dropped : MarketDataConsumer = record c { snapshot_queued_msgs = [] } in
    elim c.snapshot_queued_msgs [
      | [] ↦ c
      | (k, first) ∷ m ↦
          let checked : MarketDataConsumer = elim (snapshot_events 0 ((k, first) ∷ m)) [
            | none ↦ dropped
            | some events ↦ elim (last_entry ((k, first) ∷ m)) [
              | none ↦ c
              | some last ↦ if is_end last.type then finish_sync c last events else c
            ]
          ] in
          if is_start first.type then checked else dropped
    ]

-- `queueMessage`.
unfoldable pub queue_message : MarketDataConsumer → Bool → MdpMarketUpdate → MarketDataConsumer
queue_message c is_snapshot request =
    let n = request.seq_num in
    let u : MeMarketUpdate = request.me_market_update in
    let kept : QueuedMarketUpdates =
      if has_key n c.snapshot_queued_msgs then [] else c.snapshot_queued_msgs in
    let in_snapshot : MarketDataConsumer = record c { snapshot_queued_msgs = put n u kept } in
    let incremental : MarketDataConsumer = record c {
      incremental_queued_msgs = put n u c.incremental_queued_msgs;
    } in
    check_snapshot_sync (if is_snapshot then in_snapshot else incremental)

-- The two sockets, and the descriptor of one.
pub data ConsumerSocket : Type 0 where
  incremental_mcast_socket snapshot_mcast_socket : ConsumerSocket

abbrev pub fd_of : MarketDataConsumer → ConsumerSocket → ℤ
fd_of c incremental_mcast_socket = c.incremental_socket_fd
fd_of c snapshot_mcast_socket = c.snapshot_socket_fd

-- `created` and `joins` are the results of `init` and `join`.
module _ (created : ℤ) (joins : Bool) where
  -- As in the source, the socket of the increments is opened for the snapshots.
  unfoldable pub start_snapshot_sync : MarketDataConsumer → Outcome MarketDataConsumer
  start_snapshot_sync c = do
    assert (not (ltb_ℤ created (pos 0)))
    assert joins
    ok (record c {
      incremental_socket_fd = created;
      snapshot_queued_msgs = [];
      incremental_queued_msgs = [];
    })

  -- One round of the loop of `recvCallback`; `is_snapshot` is found out before the loop.
  unfoldable pub receive :
      MarketDataConsumer → (is_snapshot : Bool) → MdpMarketUpdate → Outcome MarketDataConsumer
  unfolding start_snapshot_sync
  receive c is_snapshot request =
      let gap = not (request.seq_num == c.next_exp_inc_seq_num) in
      let recovering = do
        c ← if c.in_recovery then ok c else start_snapshot_sync (record c { in_recovery = true })
        ok (queue_message c is_snapshot request)
      in let passed : MarketDataConsumer = if is_snapshot then c else record c {
        next_exp_inc_seq_num = inc64 c.next_exp_inc_seq_num;
        incoming_md_updates = write c.incoming_md_updates request.me_market_update;
      } in
        if c.in_recovery || gap then recovering else ok passed

  unfoldable pub receive_all :
      MarketDataConsumer → (is_snapshot : Bool) → List MdpMarketUpdate → Outcome MarketDataConsumer
  receive_all c is_snapshot [] = ok c
  receive_all c is_snapshot (r ∷ rs) = do c ← receive c is_snapshot r; receive_all c is_snapshot rs

  -- `recvCallback`, on the whole messages of the buffer of a socket.
  unfoldable pub recv_callback :
      MarketDataConsumer → ConsumerSocket → List MdpMarketUpdate → Outcome MarketDataConsumer
  recv_callback c socket rs =
      let is_snapshot = eqb_ℤ (fd_of c socket) c.snapshot_socket_fd in
      if is_snapshot && not c.in_recovery then ok c else receive_all c is_snapshot rs

  -- `sendAndRecv` of a socket, where the call of `recv` for a descriptor gives these messages.
  unfoldable pub send_and_recv :
      (recv : ℤ → List MdpMarketUpdate)
      → MarketDataConsumer
      → ConsumerSocket
      → Outcome MarketDataConsumer
  send_and_recv recv c socket = elim (recv (fd_of c socket)) [
    | [] ↦ ok c
    | r ∷ rs ↦ recv_callback c socket (r ∷ rs)
  ]

  -- One round of the loop of `run`.
  unfoldable pub run_round :
      (recv : ℤ → List MdpMarketUpdate) → MarketDataConsumer → Outcome MarketDataConsumer
  unfolding send_and_recv
  run_round recv c = do
    c ← send_and_recv recv c incremental_mcast_socket
    send_and_recv recv c snapshot_mcast_socket
