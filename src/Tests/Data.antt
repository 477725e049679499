-- ===== src/Tests/Data.antt =====
-- Tests of exchange/market_data and of trading/market_data.
use low_latency_learn.Base.{
  ℕ, ◌≡◌, refl, true, false, none, some, List, [], ◌∷◌, ◌++◌, arith, ok, numbered, update,
  if◌then◌else◌,
}
use low_latency_learn.Base.Int.{ℤ, pos, eqb_ℤ}
use low_latency_learn.Types.{Side}
use low_latency_learn.Messages.{
  MeMarketUpdate, MdpMarketUpdate, MarketUpdateType, me_market_update_default,
}
use low_latency_learn.MemPool.{mem_pool, allocate, update_next_free_index}
use low_latency_learn.LfQueue.{LfQueue, lf_queue}
use low_latency_learn.LfQueue.Contents.{
  write_all, write_all-append, lf_queue-IsValid, IsValid, contents,
}
use low_latency_learn.Snapshot.{SnapshotSynthesizer, publish_snapshot, add_order}
use low_latency_learn.Snapshot.Published.{mdp_update, snapshot_of, publish_snapshot-numbered}
use low_latency_learn.Consumer.{MarketDataConsumer, market_data_consumer, put}
use low_latency_learn.Publisher.{MarketDataPublisher, publish_updates}
use low_latency_learn.Publisher.Updates.{Published, publish_updates-Published}
use low_latency_learn.Consumer.Silent.{put_all, received, run_rounds, run_rounds-silent}

abbrev update_of : MarketUpdateType → ℕ → MeMarketUpdate
update_of type order_id = record me_market_update_default {
  type = type;
  order_id = order_id;
  ticker_id = 1;
  side = Side.buy;
  price = pos 10;
  qty = 5;
  priority = 1;
}

abbrev synthesizer : SnapshotSynthesizer
synthesizer = record {
  snapshot_md_updates =
      lf_queue 8 (record { seq_num = 0; me_market_update = me_market_update_default });
  last_inc_seq_num = 3;
  ticker_orders = λ t i. none;
  order_pool = mem_pool 4 me_market_update_default;
  sent = [];
}

publish_snapshot-numbered_example :
    publish_snapshot synthesizer
    ≡ record synthesizer { sent = [] ++ numbered mdp_update 0 (snapshot_of synthesizer) }
publish_snapshot-numbered_example = publish_snapshot-numbered synthesizer

abbrev with_order : SnapshotSynthesizer
with_order = record synthesizer {
  ticker_orders =
      update synthesizer.ticker_orders 1 (update (synthesizer.ticker_orders 1) 1 (some 0));
  order_pool = record (synthesizer.order_pool) {
    object = update synthesizer.order_pool.object 0 (update_of MarketUpdateType.add 9);
    is_free = update synthesizer.order_pool.is_free 0 false;
    next_free_index = 1;
  };
}

adds_order : add_order synthesizer (update_of MarketUpdateType.add 9) ≡ ok with_order
unfolding add_order allocate update_next_free_index
adds_order = refl

abbrev incs : List MeMarketUpdate
incs = update_of MarketUpdateType.modify 3 ∷ update_of MarketUpdateType.cancel 3 ∷ []

-- Two rounds bring one update each on the descriptor 5, with the numbers 1 and 2, without a gap.
abbrev comes : (seq_num : ℕ) → ℤ → List MdpMarketUpdate
comes seq_num fd =
    if eqb_ℤ fd (pos 5)
    then record { seq_num = seq_num; me_market_update = update_of MarketUpdateType.add 3 } ∷ []
    else []

run_rounds-silent_example :
    (c c' : MarketDataConsumer) × (market_data_consumer
        (lf_queue 8 me_market_update_default)
        (pos 5)
        true
      ≡ ok c)
    × (run_rounds (pos 6) true c (comes 1 ∷ comes 2 ∷ []) ≡ ok c')
    × (c'.in_recovery ≡ true)
    × (c'.incoming_md_updates ≡ lf_queue 8 me_market_update_default)
    × (c'.snapshot_queued_msgs ≡ [])
    × (c'.incremental_queued_msgs ≡ put_all [] (received (pos 5) (comes 1 ∷ comes 2 ∷ [])))
run_rounds-silent_example =
    run_rounds-silent (pos 6) true (lf_queue 8 me_market_update_default) 5 (comes 1 ∷ comes 2 ∷ [])
      (refl, (refl, tt))

both_kept :
    put_all [] (received (pos 5) (comes 1 ∷ comes 2 ∷ []))
    ≡ (1, update_of MarketUpdateType.add 3) ∷ (2, update_of MarketUpdateType.add 3) ∷ []
unfolding put
both_kept = refl

-- A queue in which two updates wait.
abbrev waiting : LfQueue MeMarketUpdate
waiting = write_all (lf_queue 8 me_market_update_default) incs

waiting-IsValid : IsValid waiting × (contents waiting ≡ incs)
waiting-IsValid =
    write_all-append (lf_queue 8 me_market_update_default) incs
      ((lf_queue-IsValid 8 me_market_update_default (omega arith)).0, omega arith)

abbrev publisher : MarketDataPublisher
publisher = record {
  next_inc_seq_num = 1;
  outgoing_md_updates = waiting;
  snapshot_md_updates = synthesizer.snapshot_md_updates;
  sent = [];
}

publish_updates-Published_example :
    (p' : MarketDataPublisher) × (publish_updates (λ i. me_market_update_default) 3 publisher
      ≡ ok p')
    × Published publisher p' incs
publish_updates-Published_example =
    publish_updates-Published (λ i. me_market_update_default) incs publisher waiting-IsValid.0
      waiting-IsValid.1
      ((lf_queue-IsValid 8 (mdp_update 0 me_market_update_default) (omega arith)).0, omega arith)
