-- ===== src/Publisher.antt =====
-- exchange/market_data/market_data_publisher.cpp: the updates of the matching engine go out under
-- sequence numbers, and to the snapshot synthesizer. `sent` is what the socket was given to send.
pub mod Updates
use low_latency_learn.Base.{
  ℕ, zero, suc, Option, none, some, List, [], ◌∷◌, ◌++◌, if◌then◌else◌, ◌==◌, Outcome, ok, failed,
  out_of_fuel, ◌>>=◌,
}
use low_latency_learn.Types.{inc64}
use low_latency_learn.Messages.{MeMarketUpdate, MdpMarketUpdate}
use low_latency_learn.LfQueue.{LfQueue, write, get_next_to_read, update_read_index, size}

pub record MarketDataPublisher : Type 0 where
  pub next_inc_seq_num : ℕ
  pub outgoing_md_updates : LfQueue MeMarketUpdate
  pub snapshot_md_updates : LfQueue MdpMarketUpdate
  pub sent : List MdpMarketUpdate

-- As in the source, the socket gets the bytes from the pointer `market_update` on, and not those
-- that it points to. `bytes_of` says how these bytes read, which the language leaves open.
module _ (bytes_of : (pointer : ℕ) → MeMarketUpdate) where
  -- One round of the reading loop of `run`.
  unfoldable pub publish_update : MarketDataPublisher → (pointer : ℕ) → Outcome MarketDataPublisher
  publish_update p market_update = do
    let n = p.next_inc_seq_num
    q ← update_read_index p.outgoing_md_updates
    let u : MeMarketUpdate = q.store market_update
    ok (record {
      next_inc_seq_num = inc64 n;
      outgoing_md_updates = q;
      snapshot_md_updates =
          write p.snapshot_md_updates (record { seq_num = n; me_market_update = u });
      sent = p.sent ++ (record { seq_num = n; me_market_update = bytes_of market_update } ∷ []);
    })

  -- The loop, until the queue is empty or its count is 0.
  unfoldable pub publish_updates : (fuel : ℕ) → MarketDataPublisher → Outcome MarketDataPublisher
  publish_updates zero p = failed out_of_fuel
  publish_updates (suc fuel) p = elim (get_next_to_read p.outgoing_md_updates) [
    | none ↦ ok p
    | some i ↦
        let rest = do p' ← publish_update p i; publish_updates fuel p'
        in if size p.outgoing_md_updates == 0 then ok p else rest
  ]
