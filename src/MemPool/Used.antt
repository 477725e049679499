-- ===== src/MemPool/Used.antt =====
-- common/mem_pool.hpp: how many blocks of a pool are in use.
use low_latency_learn.Base.{
  ℕ, zero, suc, ◌+◌, ◌≤◌, ◌<◌, ◌≡◌, refl, Bool, true, false, arith, ok, update, if◌then◌else◌,
}
use low_latency_learn.MemPool.{MemPool, deallocate}

-- The blocks in use among the first `n`.
pub count_used : ℕ → (ℕ → Bool) → ℕ
count_used zero is_free = 0
count_used (suc n) is_free = count_used n is_free + (if is_free n then 0 else 1)

abbrev pub used : {T : Type 0} → MemPool T → ℕ
used pool = count_used pool.size pool.is_free

count_used-update_of_le :
    (n i : ℕ) (f : ℕ → Bool) (b : Bool) → n ≤ i → count_used n (update f i b) ≡ count_used n f
unfolding count_used
count_used-update_of_le zero i f b h = refl
count_used-update_of_le (suc n) i f b h = ground (arith, count_used-update_of_le n i f b)

count_used-free :
    (n i : ℕ) (f : ℕ → Bool)
    → i < n
    → f i ≡ false
    → count_used n (update f i true) + 1 ≡ count_used n f
unfolding count_used
count_used-free zero i f h e = absurd (omega arith)
count_used-free (suc n) i f h e =
    ground (arith, count_used-free n i f, count_used-update_of_le n i f true)

-- A block that is given back is one block less in use.
pub used-deallocate :
    {T : Type 0} (pool : MemPool T) (p : ℕ) {pool' : MemPool T}
    → deallocate pool p ≡ ok pool'
    → (used pool' + 1 ≡ used pool) × (pool'.size ≡ pool.size)
unfolding deallocate
used-deallocate pool p h = ground (arith, count_used-free pool.size p pool.is_free)

count_used-le : (n : ℕ) (f : ℕ → Bool) → count_used n f ≤ n
unfolding count_used
count_used-le zero f = omega arith
count_used-le (suc n) f = ground (arith, count_used-le n f)

pub used-le-size : {T : Type 0} (pool : MemPool T) → used pool ≤ pool.size
used-le-size pool = count_used-le pool.size pool.is_free
