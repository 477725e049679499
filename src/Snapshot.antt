-- ===== src/Snapshot.antt =====
-- exchange/market_data/snapshot_sythesizer.cpp: the state of the books as the published updates
-- tell it, sent as a whole from time to time. `sent` is what the socket was given to send.
pub mod Published
pub mod Updates
use low_latency_learn.Base.{
  ℕ, zero, suc, ◌+◌, not, Option, none, some, List, [], ◌∷◌, ◌++◌, ◌==◌, ltb, update, Outcome, ok,
  failed, out_of_fuel, if◌then◌else◌, assert, in_range, deref, Bool, true, false, ◌>>=◌, ◌>>◌,
}
use low_latency_learn.Types.{Side, inc64, me_max_tickers, me_max_order_ids}
use low_latency_learn.Messages.{
  MeMarketUpdate, MarketUpdateType, MdpMarketUpdate, me_market_update_default,
}
use low_latency_learn.MemPool.{MemPool, allocate, deallocate}
use low_latency_learn.LfQueue.{LfQueue, get_next_to_read, update_read_index, size}

pub record SnapshotSynthesizer : Type 0 where
  pub snapshot_md_updates : LfQueue MdpMarketUpdate
  pub last_inc_seq_num : ℕ
  pub ticker_orders : ℕ → ℕ → Option ℕ
  pub order_pool : MemPool MeMarketUpdate
  pub sent : List MdpMarketUpdate

abbrev pub same_side : Side → Side → Bool
same_side Side.invalid Side.invalid = true
same_side Side.buy Side.buy = true
same_side Side.sell Side.sell = true
same_side _ _ = false

-- `orders->at(order_id)`, written.
abbrev pub set_order :
    SnapshotSynthesizer → (ticker_id order_id : ℕ) → Option ℕ → SnapshotSynthesizer
set_order s t i v = record s {
  ticker_orders = update s.ticker_orders t (update (s.ticker_orders t) i v);
}

-- The order that a MODIFY or a CANCEL is about, behind its three assertions.
unfoldable pub existing_order : SnapshotSynthesizer → MeMarketUpdate → Outcome ℕ
existing_order s u = do
  in_range (ltb u.order_id me_max_order_ids)
  let found : Bool = elim (s.ticker_orders u.ticker_id u.order_id) [ none ↦ false | some x ↦ true ]
  assert found
  p ← deref (s.ticker_orders u.ticker_id u.order_id)
  let order : MeMarketUpdate = s.order_pool.object p
  assert (order.order_id == u.order_id)
  assert (same_side order.side u.side)
  ok p

-- The case ADD. As in the source, the order goes to the place of its ticker, which need not be the
-- place of its id that the assertion looks at.
unfoldable pub add_order : SnapshotSynthesizer → MeMarketUpdate → Outcome SnapshotSynthesizer
add_order s u = do
  in_range (ltb u.order_id me_max_order_ids)
  let free : Bool = elim (s.ticker_orders u.ticker_id u.order_id) [ none ↦ true | some x ↦ false ]
  assert free
  in_range (ltb u.ticker_id me_max_order_ids)
  (p, pool) ← allocate s.order_pool u
  ok (set_order (record s { order_pool = pool }) u.ticker_id u.ticker_id (some p))

unfoldable pub modify_order : SnapshotSynthesizer → MeMarketUpdate → Outcome SnapshotSynthesizer
modify_order s u = do
  p ← existing_order s u
  let order : MeMarketUpdate = s.order_pool.object p
  let changed : MeMarketUpdate = record order { qty = u.qty; price = u.price }
  ok (record s {
    order_pool = record (s.order_pool) { object = update s.order_pool.object p changed };
  })

unfoldable pub cancel_order : SnapshotSynthesizer → MeMarketUpdate → Outcome SnapshotSynthesizer
cancel_order s u = do
  p ← existing_order s u
  pool ← deallocate s.order_pool p
  ok (set_order (record s { order_pool = pool }) u.ticker_id u.order_id none)

unfoldable pub add_to_snapshot : SnapshotSynthesizer → MdpMarketUpdate → Outcome SnapshotSynthesizer
add_to_snapshot s market_update = do
  let u : MeMarketUpdate = market_update.me_market_update
  in_range (ltb u.ticker_id me_max_tickers)
  s ← elim u.type [
    | MarketUpdateType.add ↦ add_order s u
    | MarketUpdateType.modify ↦ modify_order s u
    | MarketUpdateType.cancel ↦ cancel_order s u
    | _ ↦ ok s
  ]
  assert (market_update.seq_num == inc64 s.last_inc_seq_num)
  ok (record s { last_inc_seq_num = market_update.seq_num })

-- The counter `snapshot_size` with what has been sent, and the sending of one more message.
unfoldable pub send : ℕ × List MdpMarketUpdate → MeMarketUpdate → ℕ × List MdpMarketUpdate
send st u = (inc64 st.0, st.1 ++ (record { seq_num = st.0; me_market_update = u } ∷ []))

-- `{type, order_id}`, and a CLEAR.
abbrev pub snapshot_mark : MarketUpdateType → ℕ → MeMarketUpdate
snapshot_mark type order_id = record me_market_update_default { type = type; order_id = order_id }

abbrev pub clear_update : ℕ → MeMarketUpdate
clear_update ticker_id = record me_market_update_default {
  type = MarketUpdateType.clear;
  ticker_id = ticker_id;
}

-- The loop over the orders of an instrument: `left` places from `i` on.
unfoldable pub publish_orders :
    (left i : ℕ)
    → (orders : ℕ → Option ℕ) → MemPool MeMarketUpdate
    → ℕ × List MdpMarketUpdate
    → ℕ × List MdpMarketUpdate
publish_orders zero i orders pool st = st
publish_orders (suc left) i orders pool st =
    publish_orders left (i + 1) orders pool
      (elim (orders i) [ none ↦ st | some p ↦ send st (pool.object p) ])

-- The loop over the instruments.
unfoldable pub publish_tickers :
    (left ticker_id : ℕ) → SnapshotSynthesizer → ℕ × List MdpMarketUpdate → ℕ × List MdpMarketUpdate
publish_tickers zero ticker_id s st = st
publish_tickers (suc left) ticker_id s st = publish_tickers left (ticker_id + 1) s (
    publish_orders me_max_order_ids 0 (s.ticker_orders ticker_id) s.order_pool
      (send st (clear_update ticker_id)))

unfoldable pub publish_snapshot : SnapshotSynthesizer → SnapshotSynthesizer
publish_snapshot s =
    let started =
      send (0, s.sent) (snapshot_mark MarketUpdateType.snapshot_start s.last_inc_seq_num) in
    let published = publish_tickers me_max_tickers 0 s started in
    record s {
      sent = (send published (snapshot_mark MarketUpdateType.snapshot_end s.last_inc_seq_num)).1;
    }

-- The reading loop of `run`, until the queue is empty or its count is 0.
unfoldable pub process_updates : (fuel : ℕ) → SnapshotSynthesizer → Outcome SnapshotSynthesizer
process_updates zero s = failed out_of_fuel
process_updates (suc fuel) s = elim (get_next_to_read s.snapshot_md_updates) [
  | none ↦ ok s
  | some p ↦
      let rest = do
        s' ← add_to_snapshot s (s.snapshot_md_updates.store p)
        q ← update_read_index s'.snapshot_md_updates
        process_updates fuel (record s' { snapshot_md_updates = q })
      in if size s.snapshot_md_updates == 0 then ok s else rest
]
