-- ===== src/MemPool/Blocks.antt =====
-- common/mem_pool.hpp: what `allocate` and `deallocate` do to the blocks.
use low_latency_learn.Base.{
  ℕ, ◌+◌, ◌-◌, ◌≤◌, ◌<◌, ◌≡◌, refl, Bool-cases, ◌≢◌, ◌⊎◌, inl, inr, Bool, true, false, arith, ok,
  failed, exit_failure, update, if◌then◌else◌, ltb,
}
use low_latency_learn.MemPool.{
  MemPool, mem_pool, allocate, deallocate, update_next_free_index, IsValid,
}
use low_latency_learn.MemPool.Search.{find_free_finds, find_free_fails}

module _ {T : Type 0} (pool : MemPool T) where
  -- With a second free block in the store, `allocate` hands out the next free block with the new
  -- object in it, marks it as used, changes no other block, and stays ready for the next call.
  pub allocate-fresh :
      (value : T) (j : ℕ)
      → IsValid pool
      → j < pool.size
      → j ≢ pool.next_free_index
      → pool.is_free j ≡ true
      → (pool' : MemPool T) × (allocate pool value ≡ ok (pool.next_free_index, pool'))
        × IsValid pool'
        × (pool'.object ≡ update pool.object pool.next_free_index value)
        × (pool'.is_free ≡ update pool.is_free pool.next_free_index false)
        × (pool'.size ≡ pool.size)
  unfolding allocate update_next_free_index
  allocate-fresh value j v hj ne free =
      let next = pool.next_free_index in
      let taken : ℕ → Bool = update pool.is_free next false in
      let k : ℕ = if ltb next j then j - next else j + pool.size - next in
      let (i, q, r, s) =
        find_free_finds taken pool.size next v.in_store pool.size k next j pool.size v.in_store hj
          (ground arith) (ground arith) (ground arith) (inr refl) (omega arith) (omega arith) in
      (
        record pool {
          object = update pool.object next value;
          is_free = taken;
          next_free_index = i;
        },
        rw (v.next_is_free, q),
        record { in_store = r; next_is_free = s },
        refl,
        refl,
        refl,
      )

  -- The last free block cannot be had: the search for its successor ends in the ASSERT.
  pub allocate-exit :
      (value : T)
      → IsValid pool
      → ((j : ℕ) → j < pool.size → j ≢ pool.next_free_index → pool.is_free j ≡ false)
      → allocate pool value ≡ failed exit_failure
  unfolding allocate update_next_free_index
  allocate-exit value v full =
      let next = pool.next_free_index in
      rw (
        v.next_is_free,
        find_free_fails (update pool.is_free next false) pool.size next v.in_store pool.size next
            pool.size v.in_store (λ j h. ground (arith, full j h)) (omega arith) (inr refl)
            (omega arith),
      )

  -- `deallocate` of a block in use frees that block alone and keeps the pool valid; of a free block
  -- or of a pointer from elsewhere it exits.
  pub deallocate_lem :
      (p : ℕ)
      → IsValid pool
      → ((p < pool.size)
          × (pool.is_free p ≡ false)
          × (deallocate pool p ≡ ok (record pool { is_free = update pool.is_free p true }))
          × IsValid (record pool { is_free = update pool.is_free p true }))
        ⊎ (((pool.size ≤ p) ⊎ (pool.is_free p ≡ true)) × (deallocate pool p ≡ failed exit_failure))
  unfolding deallocate
  deallocate_lem p v = elim (Bool-cases (ltb p pool.size)) [
    | inr out ↦ inr (inl (ground arith), rw out)
    | inl within ↦ elim (Bool-cases (pool.is_free p)) [
      | inl free ↦ inr (inr free, rw (within, free))
      | inr busy ↦ inl (ground arith, busy, rw (within, busy), ground arith)
    ]
  ]

-- A new pool of two blocks or more is valid.
pub mem_pool-IsValid :
    {T : Type 0} (num_elems : ℕ) (default : T)
    → 0 < num_elems
    → IsValid (mem_pool num_elems default)
mem_pool-IsValid num_elems default h = record { in_store = h; next_is_free = refl }
