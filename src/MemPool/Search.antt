-- ===== src/MemPool/Search.antt =====
-- common/mem_pool.hpp, `updateNextFreeIndex`: the walk round the store.
use low_latency_learn.Base.{
  ℕ, zero, suc, ◌+◌, ◌-◌, ◌≤◌, ◌<◌, ◌≡◌, ◌⊎◌, inl, inr, Bool, true, false, arith, ok, failed,
  exit_failure, ◌==◌, Bool-cases,
}
use low_latency_learn.MemPool.{find_free, next_index}

module _ (is_free : ℕ → Bool) (size initial : ℕ) (initial_in : initial < size) where
  -- A free block `k` steps ahead, nearer than the start, is enough for the walk to end well.
  pub find_free_finds :
      (fuel k index j d : ℕ)
      → index < size
      → j < size
      → is_free j ≡ true
      → (index + k ≡ j) ⊎ (index + k ≡ j + size)
      → k < d
      → (index + d ≡ initial) ⊎ (index + d ≡ initial + size)
      → d ≤ size
      → d ≤ fuel
      → (i : ℕ) × (find_free fuel is_free size initial index ≡ ok i)
        × (i < size)
        × (is_free i ≡ true)
  unfolding find_free
  find_free_finds zero k index j d hi hj free e lt ed round le = absurd (omega arith)
  find_free_finds (suc fuel) zero index j d hi hj free e lt ed round le =
      let same : index ≡ j = omega arith in (j, ground arith, hj, free)
  find_free_finds (suc fuel) (suc k) index j d hi hj free e lt ed round le =
      elim (Bool-cases (is_free index)) [
        | inl here ↦ (index, ground arith, hi, here)
        | inr more ↦
            let step : next_index size index < size = ground arith in
            let apart : (next_index size index == initial) ≡ false = ground arith in
            let (i, q, r, s) =
              find_free_finds fuel k (next_index size index) j (d - 1) step hj free (ground arith)
                (omega arith) (ground arith) (omega arith) (omega arith) in
            (i, rw (more, apart) q, r, s)
      ]

  -- With no free block ahead of the start the walk comes back to it, and the ASSERT exits.
  pub find_free_fails :
      (fuel index d : ℕ)
      → index < size
      → ((j : ℕ) → j < size → is_free j ≡ false)
      → 0 < d
      → (index + d ≡ initial) ⊎ (index + d ≡ initial + size)
      → d ≤ fuel
      → find_free fuel is_free size initial index ≡ failed exit_failure
  unfolding find_free
  find_free_fails zero index d hi full pd ed le = absurd (omega arith)
  find_free_fails (suc fuel) index d hi full pd ed le =
      elim (Bool-cases (next_index size index == initial)) [
        | inl back ↦ ground (arith, full index hi)
        | inr on ↦
            let step : next_index size index < size = ground arith in
            let rest =
              find_free_fails fuel (next_index size index) (d - 1) step full (ground arith)
                (ground arith) (omega arith) in
            ground (arith, full index hi, rest)
      ]
