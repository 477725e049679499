-- ===== src/Consumer/Recovery.antt =====
-- trading/market_data/market_data_consumer.cpp: how a snapshot and the updates since would
-- bring the consumer back, if they came on a socket of snapshots.
use mathlib.Core.List.{append_assoc, append-nil}
use low_latency_learn.Base.{
  ℕ, ◌+◌, ◌%◌, ◌^◌, ◌<◌, ◌≤◌, ◌≡◌, refl, sym, ap, ◌∙◌, List, [], ◌∷◌, ◌++◌, All, arith, numbered,
  lt→ltb, ◌==◌, ap₂, length, length-append, Bool, true, false, ◌||◌, some, ok, ◌>>=◌, if◌then◌else◌,
  ltb,
}
use low_latency_learn.Base.Int.{ℤ, negsuc}
use low_latency_learn.Types.{inc64}
use low_latency_learn.Messages.{MeMarketUpdate, MarketUpdateType, MdpMarketUpdate}
use low_latency_learn.LfQueue.{LfQueue, write}
use low_latency_learn.LfQueue.Contents.{write_all}
use low_latency_learn.Consumer.{
  MarketDataConsumer, QueuedMarketUpdates, put, has_key, last_entry, is_start, is_end, is_mark,
  snapshot_events, incremental_events, publish, finish_sync, check_snapshot_sync, queue_message,
  receive, receive_all,
}

abbrev pub mdp : ℕ → MeMarketUpdate → MdpMarketUpdate
mdp n u = record { seq_num = n; me_market_update = u }

-- The entries of a map that has the keys from `n` on without a gap.
unfoldable pub entries : ℕ → List MeMarketUpdate → QueuedMarketUpdates
entries n [] = []
entries n (u ∷ us) = (n, u) ∷ entries (n + 1) us

put-entries :
    (us : List MeMarketUpdate) (v : MeMarketUpdate) (n key : ℕ)
    → key ≡ n + length us
    → put key v (entries n us) ≡ entries n (us ++ (v ∷ []))
unfolding put entries
put-entries [] v n key h = ground arith
put-entries (u ∷ us) v n key h =
    let ih = put-entries us v (n + 1) key (omega arith) in ground (arith, ih)

has_key-entries :
    (us : List MeMarketUpdate) (n key : ℕ)
    → n + length us ≤ key
    → has_key key (entries n us) ≡ false
unfolding has_key entries
has_key-entries [] n key h = refl
has_key-entries (u ∷ us) n key h =
    let ih = has_key-entries us (n + 1) key (omega arith) in ground (arith, ih)

last_entry-entries :
    (us : List MeMarketUpdate) (v : MeMarketUpdate) (n : ℕ)
    → last_entry (entries n (us ++ (v ∷ []))) ≡ some v
unfolding last_entry entries
last_entry-entries [] v n = refl
last_entry-entries (u ∷ us) v n = rw (last_entry-entries us v (n + 1)) refl

-- The updates that are not marks.
abbrev pub unmarked : List MeMarketUpdate → List MeMarketUpdate
unmarked [] = []
unmarked (u ∷ us) = if is_mark u then unmarked us else u ∷ unmarked us

pub unmarked-All : (us : List MeMarketUpdate) → All (λ u. is_mark u ≡ false) us → unmarked us ≡ us
unmarked-All [] h = refl
unmarked-All (u ∷ us) h = rw h.0 (ap (λ x. u ∷ x) (unmarked-All us h.1))

snapshot_events-entries :
    (us : List MeMarketUpdate) (n : ℕ)
    → n + length us < 2 ^ 64
    → snapshot_events n (entries n us) ≡ some (unmarked us)
unfolding snapshot_events entries
snapshot_events-entries [] n h = refl
snapshot_events-entries (u ∷ us) n h =
    let next : inc64 n ≡ n + 1 = omega arith in
    let ih = snapshot_events-entries us (n + 1) (omega arith) in rw (next, ih) ground arith

abbrev pub with_snapshot : MarketDataConsumer → List MeMarketUpdate → MarketDataConsumer
with_snapshot c us = record c { snapshot_queued_msgs = entries 0 us }

queue_message-entries :
    (c : MarketDataConsumer) (us : List MeMarketUpdate) (v : MeMarketUpdate)
    → queue_message (with_snapshot c us) true (mdp (length us) v)
      ≡ check_snapshot_sync (with_snapshot c (us ++ (v ∷ [])))
unfolding queue_message
queue_message-entries c us v =
    rw
      (has_key-entries us 0 (length us) (omega arith), put-entries us v 0 (length us) (omega arith))
      refl

-- A snapshot that begins with its start, with no gap: what the check does depends on its last entry.
check-last :
    (c : MarketDataConsumer) (start : MeMarketUpdate) (us : List MeMarketUpdate)
    (v : MeMarketUpdate)
    → is_start start.type ≡ true
    → is_mark start ≡ true
    → 2 + length us < 2 ^ 64
    → check_snapshot_sync (with_snapshot c (start ∷ (us ++ (v ∷ [])))) ≡ (
        if is_end v.type
        then finish_sync (with_snapshot c (start ∷ (us ++ (v ∷ [])))) v (unmarked (us ++ (v ∷ [])))
        else with_snapshot c (start ∷ (us ++ (v ∷ []))))
unfolding check_snapshot_sync entries
check-last c start us v hs hm hl =
    let all = us ++ (v ∷ []) in
    let events : snapshot_events 0 (entries 0 (start ∷ all)) ≡ some (unmarked all) =
      snapshot_events-entries (start ∷ all) 0 (omega (arith, length-append us (v ∷ [])))
      ∙ rw hm refl in
    rw (hs, events, last_entry-entries (start ∷ us) v 0) refl

receive-recovery :
    (created : ℤ) (joins : Bool) (c : MarketDataConsumer) (is_snapshot : Bool) (r : MdpMarketUpdate)
    → c.in_recovery ≡ true
    → receive created joins c is_snapshot r ≡ ok (queue_message c is_snapshot r)
unfolding receive
receive-recovery created joins c is_snapshot r h = rw h refl

receive-entries :
    (created : ℤ) (joins : Bool) (c : MarketDataConsumer) (us : List MeMarketUpdate)
    (v : MeMarketUpdate)
    → c.in_recovery ≡ true
    → receive created joins (with_snapshot c us) true (mdp (length us) v)
      ≡ ok (check_snapshot_sync (with_snapshot c (us ++ (v ∷ []))))
receive-entries created joins c us v h =
    receive-recovery created joins (with_snapshot c us) true (mdp (length us) v) h
    ∙ ap ok (queue_message-entries c us v)

or_false : (a b : Bool) → (a || b) ≡ false → b ≡ false
or_false true b h = cc
or_false false b h = h

-- The rest of a snapshot, behind its start and `us`.
receive_all-rest :
    (created : ℤ) (joins : Bool) (c : MarketDataConsumer) (start end : MeMarketUpdate)
    (us vs : List MeMarketUpdate)
    → c.in_recovery ≡ true
    → is_start start.type ≡ true
    → is_mark start ≡ true
    → is_end end.type ≡ true
    → All (λ u. is_mark u ≡ false) vs
    → 2 + length us + length vs < 2 ^ 64
    → receive_all created joins
        (with_snapshot c (start ∷ us))
        true
        (numbered mdp (length (start ∷ us)) (vs ++ (end ∷ [])))
      ≡ ok (
          finish_sync
            (with_snapshot c (start ∷ ((us ++ vs) ++ (end ∷ []))))
            end
            (unmarked ((us ++ vs) ++ (end ∷ []))))
unfolding receive_all
receive_all-rest created joins c start end us [] hr hs hm he hv hl = rw (append-nil us) (
    ap (λ m. m >>= λ x. ok x) (receive-entries created joins c (start ∷ us) end hr)
    ∙ ap ok (check-last c start us end hs hm (omega arith) ∙ rw he refl))
receive_all-rest created joins c start end us (v ∷ vs) hr hs hm he hv hl =
    let us' = us ++ (v ∷ []) in
    let more = length-append us (v ∷ []) in
    let not_end = or_false (is_start v.type) (is_end v.type) hv.0 in
    let kept : check_snapshot_sync (with_snapshot c (start ∷ us')) ≡ with_snapshot c (start ∷ us') =
      check-last c start us v hs hm (omega arith) ∙ rw not_end refl in
    let next : (length (start ∷ us) + 1) % 2 ^ 64 ≡ length (start ∷ us') = omega (arith, more) in
    let rest =
      receive_all-rest created joins c start end us' vs hr hs hm he hv.1 (omega (arith, more)) in
    ap
      (λ m. m >>= λ x.
        receive_all created joins x true
          (numbered mdp ((length (start ∷ us) + 1) % 2 ^ 64) (vs ++ (end ∷ []))))
      (receive-entries created joins c (start ∷ us) v hr ∙ ap ok kept)
    ∙ ap
        (λ n.
          receive_all created joins (with_snapshot c (start ∷ us')) true
            (numbered mdp n (vs ++ (end ∷ []))))
        next
    ∙ rest
    ∙ ap
        (λ l. ok (
          finish_sync (with_snapshot c (start ∷ (l ++ (end ∷ [])))) end
            (unmarked (l ++ (end ∷ [])))))
        (append_assoc us (v ∷ []) vs)

check-start :
    (c : MarketDataConsumer) (start : MeMarketUpdate)
    → start.type ≡ MarketUpdateType.snapshot_start
    → check_snapshot_sync (with_snapshot c (start ∷ [])) ≡ with_snapshot c (start ∷ [])
unfolding check_snapshot_sync snapshot_events last_entry entries
check-start c start h = rw h refl

unmarked-mark :
    (us : List MeMarketUpdate) (end : MeMarketUpdate)
    → All (λ u. is_mark u ≡ false) us
    → end.type ≡ MarketUpdateType.snapshot_end
    → unmarked (us ++ (end ∷ [])) ≡ us
unmarked-mark [] end hu he = rw he refl
unmarked-mark (u ∷ us) end hu he = rw hu.0 (ap (λ l. u ∷ l) (unmarked-mark us end hu.1 he))

incremental_events-stale :
    (next : ℕ) (stale m : QueuedMarketUpdates) (events : List MeMarketUpdate)
    → All (λ e. e.0 < next) stale
    → incremental_events next (stale ++ m) events ≡ incremental_events next m events
unfolding incremental_events
incremental_events-stale next [] m events h = refl
incremental_events-stale next ((k, u) ∷ stale) m events h =
    rw (lt→ltb k next h.0) (incremental_events-stale next stale m events h.1)

incremental_events-entries :
    (next : ℕ) (events incs : List MeMarketUpdate)
    → next + length incs < 2 ^ 64
    → All (λ u. is_mark u ≡ false) incs
    → incremental_events next (entries next incs) events
      ≡ (true, next + length incs, events ++ incs)
unfolding incremental_events entries
incremental_events-entries next events [] h hi =
    ap₂ (λ n l. (true, n, l)) (omega arith) (sym (append-nil events))
incremental_events-entries next events (u ∷ us) h hi =
    let step : inc64 next ≡ next + 1 = omega arith in
    let ih = incremental_events-entries (next + 1) (events ++ (u ∷ [])) us (omega arith) hi.1 in
    let not_less : ltb next next ≡ false = ground arith in
    let equal : (next == next) ≡ true = ground arith in
    rw (not_less, equal, hi.0, step)
      (ih ∙ ap₂ (λ n l. (true, n, l)) (omega arith) (append_assoc events (u ∷ []) us))

publish_lem :
    (q : LfQueue MeMarketUpdate) (us : List MeMarketUpdate) → publish q us ≡ write_all q us
unfolding publish write_all
publish_lem q [] = refl
publish_lem q (u ∷ us) = publish_lem (write q u) us

finish_sync_lem :
    (c : MarketDataConsumer) (end : MeMarketUpdate) (stale : QueuedMarketUpdates)
    (body incs : List MeMarketUpdate)
    → c.incremental_queued_msgs ≡ stale ++ entries (end.order_id + 1) incs
    → All (λ e. e.0 < end.order_id + 1) stale
    → All (λ u. is_mark u ≡ false) incs
    → end.order_id + 1 + length incs < 2 ^ 64
    → finish_sync c end body ≡ record c {
      next_exp_inc_seq_num = end.order_id + 1 + length incs;
      incoming_md_updates = write_all c.incoming_md_updates (body ++ incs);
      in_recovery = false;
      snapshot_socket_fd = negsuc 0;
      snapshot_queued_msgs = [];
      incremental_queued_msgs = [];
    }
unfolding finish_sync
finish_sync_lem c end stale body incs hq hs hi hl =
    let next : inc64 end.order_id ≡ end.order_id + 1 = omega arith in
    let events =
      incremental_events-stale (end.order_id + 1) stale (entries (end.order_id + 1) incs) body hs
      ∙ incremental_events-entries (end.order_id + 1) body incs hl hi in
    rw (next, hq, events, publish_lem c.incoming_md_updates (body ++ incs)) refl

-- In recovery, with nothing of a snapshot queued yet, a whole snapshot that arrives in order brings
-- the consumer back. Written to the queue to the trade engine, one after the other, is what the
-- snapshot holds between its marks, and then the queued increments from the number behind the one of the end mark on, where these
-- have no gap; the queued increments up to that number are dropped. The number expected next is
-- the one behind the last increment, and nothing stays queued.
pub receive_all-recovers :
    (created : ℤ) (joins : Bool) (c : MarketDataConsumer) (start end : MeMarketUpdate)
    (body incs : List MeMarketUpdate) (stale : QueuedMarketUpdates)
    → c.in_recovery ≡ true
    → c.snapshot_queued_msgs ≡ []
    → c.incremental_queued_msgs ≡ stale ++ entries (end.order_id + 1) incs
    → start.type ≡ MarketUpdateType.snapshot_start
    → end.type ≡ MarketUpdateType.snapshot_end
    → All (λ u. is_mark u ≡ false) body
    → All (λ u. is_mark u ≡ false) incs
    → All (λ e. e.0 < end.order_id + 1) stale
    → 2 + length body < 2 ^ 64
    → end.order_id + 1 + length incs < 2 ^ 64
    → receive_all created joins c true (numbered mdp 0 (start ∷ (body ++ (end ∷ []))))
      ≡ ok (record c {
        next_exp_inc_seq_num = end.order_id + 1 + length incs;
        incoming_md_updates = write_all c.incoming_md_updates (body ++ incs);
        in_recovery = false;
        snapshot_socket_fd = negsuc 0;
        snapshot_queued_msgs = [];
        incremental_queued_msgs = [];
      })
unfolding receive_all entries
receive_all-recovers created joins c start end body incs stale hr hq hi hs he hb hc ht hl hn =
    let tail = numbered mdp 1 (body ++ (end ∷ [])) in
    let empty : c ≡ with_snapshot c [] = ap (λ m. record c { snapshot_queued_msgs = m }) hq in
    let first =
      ap (λ x. receive created joins x true (mdp 0 start)) empty
      ∙ receive-entries created joins c [] start hr
      ∙ ap ok (check-start c start hs) in
    let rest =
      receive_all-rest created joins c start end [] body hr (ap is_start hs)
        (ap (λ t. is_start t || is_end t) hs) (ap is_end he) hb (omega arith) in
    ap (λ m. m >>= λ x. receive_all created joins x true tail) first
    ∙ rest
    ∙ ap (λ l. ok (finish_sync (with_snapshot c (start ∷ (body ++ (end ∷ [])))) end l))
        (unmarked-mark body end hb he)
    ∙ ap ok (
        finish_sync_lem (with_snapshot c (start ∷ (body ++ (end ∷ [])))) end stale body incs hi ht
          hc hn)
