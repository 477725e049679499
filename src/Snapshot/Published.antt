-- ===== src/Snapshot/Published.antt =====
-- exchange/market_data/snapshot_sythesizer.cpp: the messages of a published snapshot.
use low_latency_learn.Base.{
  ℕ, zero, suc, ◌+◌, ◌%◌, ◌^◌, ◌≡◌, refl, sym, ap, ◌∙◌, List, [], ◌∷◌, ◌++◌, numbered, number_after,
  Option, none, some,
}
use mathlib.Core.List.{append_assoc, append-nil}
use low_latency_learn.Types.{me_max_tickers, me_max_order_ids}
use low_latency_learn.Messages.{MeMarketUpdate, MarketUpdateType, MdpMarketUpdate}
use low_latency_learn.MemPool.{MemPool}
use low_latency_learn.Snapshot.{
  SnapshotSynthesizer, send, snapshot_mark, clear_update, publish_orders, publish_tickers,
  publish_snapshot,
}

abbrev pub mdp_update : ℕ → MeMarketUpdate → MdpMarketUpdate
mdp_update n u = record { seq_num = n; me_market_update = u }

-- The orders at the places from `i` on, and what a snapshot tells of the instruments.
unfoldable pub orders_from :
    (left i : ℕ) → (ℕ → Option ℕ) → MemPool MeMarketUpdate → List MeMarketUpdate
orders_from zero i orders pool = []
orders_from (suc left) i orders pool =
    let rest = orders_from left (i + 1) orders pool in
    elim (orders i) [ none ↦ rest | some p ↦ pool.object p ∷ rest ]

unfoldable pub tickers_from : (left ticker_id : ℕ) → SnapshotSynthesizer → List MeMarketUpdate
tickers_from zero ticker_id s = []
tickers_from (suc left) ticker_id s =
    clear_update ticker_id
    ∷ (orders_from me_max_order_ids 0 (s.ticker_orders ticker_id) s.order_pool
        ++ tickers_from left (ticker_id + 1) s)

-- Sending several messages.
unfoldable pub send_all : ℕ × List MdpMarketUpdate → List MeMarketUpdate → ℕ × List MdpMarketUpdate
send_all st [] = st
send_all st (u ∷ us) = send_all (send st u) us

send_all-append :
    (st : ℕ × List MdpMarketUpdate) (us vs : List MeMarketUpdate)
    → send_all st (us ++ vs) ≡ send_all (send_all st us) vs
unfolding send_all
send_all-append st [] vs = refl
send_all-append st (u ∷ us) vs = send_all-append (send st u) us vs

send_all-numbered :
    (n : ℕ) (l : List MdpMarketUpdate) (us : List MeMarketUpdate)
    → send_all (n, l) us ≡ (number_after n us, l ++ numbered mdp_update n us)
unfolding send_all send
send_all-numbered n l [] = ap (λ x. (n, x)) (sym (append-nil l))
send_all-numbered n l (u ∷ us) =
    send_all-numbered ((n + 1) % 2 ^ 64) (l ++ (mdp_update n u ∷ [])) us
    ∙ ap (λ x. (number_after n (u ∷ us), x)) (append_assoc l (mdp_update n u ∷ []) _)

publish_orders_lem :
    (left i : ℕ) (orders : ℕ → Option ℕ) (pool : MemPool MeMarketUpdate)
    (st : ℕ × List MdpMarketUpdate)
    → publish_orders left i orders pool st ≡ send_all st (orders_from left i orders pool)
unfolding publish_orders orders_from send_all
publish_orders_lem zero i orders pool st = refl
publish_orders_lem (suc left) i orders pool st =
    publish_orders_lem left (i + 1) orders pool _ ∙ at_place (orders i)
  where
    at_place :
        (o : Option ℕ)
        → send_all
            (elim o [ none ↦ st | some p ↦ send st (pool.object p) ])
            (orders_from left (i + 1) orders pool)
          ≡ send_all st (elim o [
            | none ↦ orders_from left (i + 1) orders pool
            | some p ↦ pool.object p ∷ orders_from left (i + 1) orders pool
          ])
    at_place none = refl
    at_place (some p) = refl

publish_tickers_lem :
    (left t : ℕ) (s : SnapshotSynthesizer) (st : ℕ × List MdpMarketUpdate)
    → publish_tickers left t s st ≡ send_all st (tickers_from left t s)
unfolding publish_tickers tickers_from send_all
publish_tickers_lem zero t s st = refl
publish_tickers_lem (suc left) t s st =
    let orders = orders_from me_max_order_ids 0 (s.ticker_orders t) s.order_pool in
    publish_tickers_lem left (t + 1) s _
    ∙ ap (λ x. send_all x (tickers_from left (t + 1) s))
        (publish_orders_lem me_max_order_ids 0 (s.ticker_orders t) s.order_pool _)
    ∙ sym (send_all-append (send st (clear_update t)) orders (tickers_from left (t + 1) s))

-- What a snapshot says: every instrument cleared and then its orders, between two marks.
abbrev pub snapshot_of : SnapshotSynthesizer → List MeMarketUpdate
snapshot_of s =
    snapshot_mark MarketUpdateType.snapshot_start s.last_inc_seq_num
    ∷ (tickers_from me_max_tickers 0 s
        ++ (snapshot_mark MarketUpdateType.snapshot_end s.last_inc_seq_num ∷ []))

-- A published snapshot goes out behind what was sent before, under consecutive numbers from 0: the
-- mark of its start, for each instrument in turn a CLEAR and all its orders, and the mark of its
-- end. Both marks carry the last sequence number of the updates that the snapshot has seen.
pub publish_snapshot-numbered :
    (s : SnapshotSynthesizer)
    → publish_snapshot s ≡ record s { sent = s.sent ++ numbered mdp_update 0 (snapshot_of s) }
unfolding publish_snapshot send_all
publish_snapshot-numbered s =
    let start = snapshot_mark MarketUpdateType.snapshot_start s.last_inc_seq_num in
    let end = snapshot_mark MarketUpdateType.snapshot_end s.last_inc_seq_num in
    let all : send (publish_tickers me_max_tickers 0 s (send (0, s.sent) start)) end
        ≡ send_all (0, s.sent) (snapshot_of s) =
      ap (λ st. send st end) (publish_tickers_lem me_max_tickers 0 s (send (0, s.sent) start))
      ∙ sym
          (send_all-append (send (0, s.sent) start) (tickers_from me_max_tickers 0 s) (end ∷ [])) in
    ap (λ st. record s { sent = st.1 }) (all ∙ send_all-numbered 0 s.sent (snapshot_of s))
