-- ===== src/MemPool.antt =====
-- common/mem_pool.hpp: the pool of object blocks. A pointer into the pool is the index of its
-- block, so the vector of blocks is two arrays over the indices below `size`.
pub mod Search
pub mod Blocks
pub mod Used
use low_latency_learn.Base.{
  ℕ, zero, suc, ◌+◌, ◌<◌, ◌≡◌, Bool, true, false, not, if◌then◌else◌, ◌==◌, ltb, update, Outcome,
  ok, failed, exit_failure, out_of_fuel, ◌>>=◌, ◌>>◌, assert,
}

pub record MemPool (T : Type 0) : Type 0 where
  pub size : ℕ
  pub object : ℕ → T
  pub is_free : ℕ → Bool
  pub next_free_index : ℕ

-- The constructor: every block is free and holds a default object.
abbrev pub mem_pool : {T : Type 0} → ℕ → T → MemPool T
mem_pool num_elems default = record {
  size = num_elems;
  object = λ _. default;
  is_free = λ _. true;
  next_free_index = 0;
}

-- `++m_next_free_index`, and back to 0 at the end of the store.
abbrev pub next_index : ℕ → ℕ → ℕ
next_index size i = if i + 1 == size then 0 else i + 1

-- The `while` of `updateNextFreeIndex`; each round visits one block.
unfoldable pub find_free : (fuel : ℕ) → (ℕ → Bool) → (size initial index : ℕ) → Outcome ℕ
find_free zero is_free size initial index = failed out_of_fuel
find_free (suc fuel) is_free size initial index =
    let rest = find_free fuel is_free size initial (next_index size index) in
    if is_free index
    then ok index
    else if next_index size index == initial
    then failed exit_failure
    else rest

module _ {T : Type 0} where
  unfoldable pub update_next_free_index : MemPool T → Outcome (MemPool T)
  unfolding find_free
  update_next_free_index pool = do
    i ← find_free pool.size pool.is_free pool.size pool.next_free_index pool.next_free_index
    ok (record pool { next_free_index = i })

  unfoldable pub allocate : MemPool T → T → Outcome (ℕ × MemPool T)
  allocate pool value = do
    assert (pool.is_free pool.next_free_index)
    let ret = pool.next_free_index
    let taken : MemPool T = record pool {
      object = update pool.object ret value;
      is_free = update pool.is_free ret false;
    }
    pool' ← update_next_free_index taken
    ok (ret, pool')

  unfoldable pub deallocate : MemPool T → ℕ → Outcome (MemPool T)
  deallocate pool elem = do
    assert (ltb elem pool.size)
    assert (not (pool.is_free elem))
    ok (record pool { is_free = update pool.is_free elem true })

  -- Between two calls the next block to hand out is a free block of the store.
  pub record IsValid (pool : MemPool T) : Type 0 where
    pub in_store : pool.next_free_index < pool.size
    pub next_is_free : pool.is_free pool.next_free_index ≡ true
