-- ===== src/Snapshot/Updates.antt =====
-- exchange/market_data/snapshot_sythesizer.cpp: the updates that the synthesizer takes in.
use low_latency_learn.Base.{
  ℕ, ◌≡◌, ◌≢◌, refl, sym, ap, ap₂, ◌∙◌, Option, none, some, ok, failed, exit_failure, >>=-eq-ok,
  update, update_self, update_ne, ltb, in_range, assert, Bool, true, false, ◌>>=◌, ◌>>◌, ok-inj,
}
use low_latency_learn.Types.{me_max_order_ids}
use low_latency_learn.Messages.{MeMarketUpdate}
use low_latency_learn.MemPool.{allocate}
use low_latency_learn.Snapshot.{
  SnapshotSynthesizer, add_order, existing_order, modify_order, cancel_order,
}

-- What an ADD that returns has looked at, and left in the place of the order.
place-add_order :
    (s : SnapshotSynthesizer) (u : MeMarketUpdate) {s' : SnapshotSynthesizer}
    → add_order s u ≡ ok s'
    → u.order_id ≢ u.ticker_id
    → (ltb u.order_id me_max_order_ids ≡ true) × (s'.ticker_orders u.ticker_id u.order_id ≡ none)
unfolding add_order
place-add_order s u h ne =
    go (ltb u.order_id me_max_order_ids) refl (s.ticker_orders u.ticker_id u.order_id) refl h
  where
    go :
        (b : Bool)
        → ltb u.order_id me_max_order_ids ≡ b
        → (o : Option ℕ) → s.ticker_orders u.ticker_id u.order_id ≡ o
        → {s' : SnapshotSynthesizer}
        → ((do
          in_range b
          assert (elim o [ none ↦ true | some x ↦ false ])
          in_range (ltb u.ticker_id me_max_order_ids)
          (p, pool) ← allocate s.order_pool u
          ok (record s {
            order_pool = pool;
            ticker_orders =
                update s.ticker_orders u.ticker_id
                  (update (s.ticker_orders u.ticker_id) u.ticker_id (some p));
          }))
            ≡ ok s')
        → (ltb u.order_id me_max_order_ids ≡ true)
          × (s'.ticker_orders u.ticker_id u.order_id ≡ none)
    go false hb o ho e = cc
    go true hb (some x) ho e = cc
    go true hb none ho e =
        let (p, e₁, e₂) = >>=-eq-ok (in_range (ltb u.ticker_id me_max_order_ids)) _ e in
        let ((a, pool), e₃, e₄) = >>=-eq-ok (allocate s.order_pool u) _ e₂ in
        let row = update (s.ticker_orders u.ticker_id) u.ticker_id (some a) in
        (
          hb,
          sym (ap (λ x. x.ticker_orders u.ticker_id u.order_id) (ok-inj e₄))
              ∙ ap (λ f. f u.order_id) (update_self s.ticker_orders u.ticker_id row)
              ∙ update_ne (s.ticker_orders u.ticker_id) u.ticker_id u.order_id (some a)
                  (λ q. ne (sym q))
              ∙ ho,
        )

existing_order-none :
    (s : SnapshotSynthesizer) (v : MeMarketUpdate)
    → ltb v.order_id me_max_order_ids ≡ true
    → s.ticker_orders v.ticker_id v.order_id ≡ none
    → existing_order s v ≡ failed exit_failure
unfolding existing_order
existing_order-none s v h n = rw (h, n) refl

-- Behind an ADD of an order whose id is not the number of its instrument, a MODIFY and a CANCEL of
-- this order both end the process.
pub changes-add_order :
    (s : SnapshotSynthesizer) (u v : MeMarketUpdate) {s' : SnapshotSynthesizer}
    → add_order s u ≡ ok s'
    → u.order_id ≢ u.ticker_id
    → v.order_id ≡ u.order_id
    → v.ticker_id ≡ u.ticker_id
    → (modify_order s' v ≡ failed exit_failure) × (cancel_order s' v ≡ failed exit_failure)
unfolding modify_order cancel_order
changes-add_order s u v {s'} h ne ho ht =
    let (b, n) = place-add_order s u h ne in
    let missing =
      existing_order-none s' v (ap (λ i. ltb i me_max_order_ids) ho ∙ b)
        (ap₂ (λ t i. s'.ticker_orders t i) ht ho ∙ n) in
    (rw missing refl, rw missing refl)
