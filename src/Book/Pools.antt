-- ===== src/Book/Pools.antt =====
-- The shared book structure: what removing an order does to the two pools, whatever the links are.
use low_latency_learn.Base.{
  ℕ, ◌+◌, ◌≡◌, sym, ap, ◌∙◌, false, true, none, update, arith, ◌≢◌, failed, out_of_fuel, Outcome,
  ok, ok-inj, >>=-eq-ok, Ends, Ends-intro, >>=-ne_out_of_fuel,
}
use low_latency_learn.Types.{Side, Price}
use low_latency_learn.MemPool.{MemPool, deallocate}
use low_latency_learn.MemPool.Used.{used, used-deallocate}
use low_latency_learn.Book.{
  Book, Order, order_at, remove_orders_at_price, unlink_order, remove_order,
}

module _ {K : Type 0} where
  order_pool-remove_orders_at_price :
      (b : Book K) (side : Side) (price : Price) {b' : Book K}
      → remove_orders_at_price b side price ≡ ok b'
      → b'.order_pool ≡ b.order_pool
  unfolding remove_orders_at_price
  order_pool-remove_orders_at_price b side price h = ground arith

  -- Unlinking an order changes links only.
  is_free-unlink_order :
      (b : Book K) (p : ℕ) {b' : Book K}
      → unlink_order b p ≡ ok b'
      → (b'.order_pool.is_free ≡ b.order_pool.is_free) × (b'.order_pool.size ≡ b.order_pool.size)
  unfolding unlink_order
  is_free-unlink_order b p {b'} h =
      let o : Order K = order_at b p in
      ground (arith, order_pool-remove_orders_at_price b o.side o.price {b' = b'})

  -- Neither the keys nor the places of the orders change with the levels, nor with an unlinked order.
  slot_to_order-remove_orders_at_price :
      (b : Book K) (side : Side) (price : Price) {b' : Book K}
      → remove_orders_at_price b side price ≡ ok b'
      → b'.slot_to_order ≡ b.slot_to_order
  unfolding remove_orders_at_price
  slot_to_order-remove_orders_at_price b side price h = ground arith

  key-unlink_order :
      (b : Book K) (p q : ℕ) {b' : Book K}
      → unlink_order b p ≡ ok b'
      → (order_at b' q).key ≡ (order_at b q).key
  unfolding unlink_order
  key-unlink_order b p q {b'} h =
      let o : Order K = order_at b p in
      ground (arith, order_pool-remove_orders_at_price b o.side o.price {b' = b'})

  slot_to_order-unlink_order :
      (b : Book K) (p : ℕ) {b' : Book K}
      → unlink_order b p ≡ ok b'
      → b'.slot_to_order ≡ b.slot_to_order
  unfolding unlink_order
  slot_to_order-unlink_order b p {b'} h =
      let o : Order K = order_at b p in
      ground (arith, slot_to_order-remove_orders_at_price b o.side o.price {b' = b'})

deallocate-ne_out_of_fuel :
    {T : Type 0} (pool : MemPool T) (p : ℕ) → deallocate pool p ≢ failed out_of_fuel
unfolding deallocate
deallocate-ne_out_of_fuel pool p = ground arith

unlink_order-ne_out_of_fuel :
    {K : Type 0} (b : Book K) (p : ℕ) → unlink_order b p ≢ failed out_of_fuel
unfolding unlink_order remove_orders_at_price deallocate
unlink_order-ne_out_of_fuel b p = ground arith

module _ {K : Type 0} (slot : K → Outcome ℕ) where
  -- Removing an order gives back exactly one block of the pool of orders.
  pub used-remove_order :
      (b : Book K) (p : ℕ) {b' : Book K}
      → remove_order slot b p ≡ ok b'
      → (used b'.order_pool + 1 ≡ used b.order_pool) × (b'.order_pool.size ≡ b.order_pool.size)
  unfolding remove_order
  used-remove_order b p {b'} h =
      let (b₁, e₁, h₁) = >>=-eq-ok (unlink_order b p) _ h in
      let (free, size) = is_free-unlink_order b p e₁ in
      let (i, e₂, h₂) = >>=-eq-ok (slot (order_at b₁ p).key) _ h₁ in
      let (pool, e₃, h₃) = >>=-eq-ok (deallocate b₁.order_pool p) _ h₂ in
      ground (arith, used-deallocate b₁.order_pool p e₃, free, size)

  -- The order `p`, whose block was in use, is gone: its block is the only one that became free, and
  -- the place of its key in the array of orders is the only one that is cleared.
  pub record IsRemoved (b b' : Book K) (p : ℕ) : Type 0 where
    pub in_use : b.order_pool.is_free p ≡ false
    pub is_free : b'.order_pool.is_free ≡ update b.order_pool.is_free p true
    pub place : ℕ
    pub placed : slot (order_at b p).key ≡ ok place
    pub slots : b'.slot_to_order ≡ update b.slot_to_order place none

  is_free-deallocate :
      {T : Type 0} (pool : MemPool T) (p : ℕ) {pool' : MemPool T}
      → deallocate pool p ≡ ok pool'
      → (pool.is_free p ≡ false) × (pool'.is_free ≡ update pool.is_free p true)
  unfolding deallocate
  is_free-deallocate pool p h = ground arith

  remove_order-IsRemoved :
      (b : Book K) (p : ℕ) {b' : Book K} → remove_order slot b p ≡ ok b' → IsRemoved b b' p
  unfolding remove_order
  remove_order-IsRemoved b p {b'} h =
      let (b₁, e₁, h₁) = >>=-eq-ok (unlink_order b p) _ h in
      let free = (is_free-unlink_order b p e₁).0 in
      let slots = slot_to_order-unlink_order b p e₁ in
      let (i, e₂, h₂) = >>=-eq-ok (slot (order_at b₁ p).key) _ h₁ in
      let (pool, e₃, h₃) = >>=-eq-ok (deallocate b₁.order_pool p) _ h₂ in
      let (used_before, freed) = is_free-deallocate b₁.order_pool p e₃ in
      record {
        in_use = sym (ap (λ f. f p) free) ∙ used_before;
        is_free =
            sym (ap (λ x. x.order_pool.is_free) (ok-inj h₃))
            ∙ freed
            ∙ ap (λ f. update f p true) free;
        place = i;
        placed = sym (ap slot (key-unlink_order b p p e₁)) ∙ e₂;
        slots = sym (ap (λ x. x.slot_to_order) (ok-inj h₃)) ∙ ap (λ f. update f i none) slots;
      }

  -- Removing an order runs no loop, and gives its block back where it returns.
  pub remove_order-Ends :
      (b : Book K) (p : ℕ)
      → ((k : K) → slot k ≢ failed out_of_fuel)
      → Ends
          (λ b'. (used b'.order_pool + 1 ≡ used b.order_pool) × IsRemoved b b' p)
          (remove_order slot b p)
  unfolding remove_order
  remove_order-Ends b p h =
      Ends-intro _ _
        (>>=-ne_out_of_fuel (unlink_order b p) _ (unlink_order-ne_out_of_fuel b p) (λ b₁.
          >>=-ne_out_of_fuel (slot (order_at b₁ p).key) _ (h (order_at b₁ p).key) (λ i.
            >>=-ne_out_of_fuel (deallocate b₁.order_pool p) _
              (deallocate-ne_out_of_fuel b₁.order_pool p) (λ pool. λ q. cc))))
        (λ b' e. ((used-remove_order b p e).0, remove_order-IsRemoved b p e))
