-- ===== src/LfQueue.antt =====
-- common/lf_queue.hpp: the queue of a fixed number of slots between one writing and one reading
-- thread. A pointer to a slot is its index. Here a call runs as a whole; `Race` takes it apart.
pub mod Contents
pub mod Race
use low_latency_learn.Base.{
  ℕ, ◌+◌, ◌%◌, ◌-◌, Bool, Option, none, some, if◌then◌else◌, ◌==◌, not, update, Outcome, ok, ◌>>=◌,
  ◌>>◌, assert,
}

pub record LfQueue (T : Type 0) : Type 0 where
  pub store : ℕ → T
  pub store_size : ℕ
  pub next_write_index : ℕ
  pub next_read_index : ℕ
  pub num_elements : ℕ

-- The constructor.
abbrev pub lf_queue : {T : Type 0} → ℕ → T → LfQueue T
lf_queue num_elems default = record {
  store = λ _. default;
  store_size = num_elems;
  next_write_index = 0;
  next_read_index = 0;
  num_elements = 0;
}

module _ {T : Type 0} where
  unfoldable pub get_next_to_write_to : LfQueue T → ℕ
  get_next_to_write_to q = q.next_write_index

  unfoldable pub update_write_index : LfQueue T → LfQueue T
  update_write_index q = record q {
    next_write_index = (q.next_write_index + 1) % q.store_size;
    num_elements = q.num_elements + 1;
  }

  -- `nullptr` is `none`.
  unfoldable pub get_next_to_read : LfQueue T → Option ℕ
  get_next_to_read q =
      if q.next_read_index == q.next_write_index then none else some q.next_read_index

  unfoldable pub update_read_index : LfQueue T → Outcome (LfQueue T)
  update_read_index q = do
    assert (not (q.num_elements == 0))
    ok (record q {
      next_read_index = (q.next_read_index + 1) % q.store_size;
      num_elements = q.num_elements - 1;
    })

  unfoldable pub size : LfQueue T → ℕ
  size q = q.num_elements

  -- How every writer uses the queue: fill the next slot, then move on.
  unfoldable pub write : LfQueue T → T → LfQueue T
  unfolding get_next_to_write_to update_write_index
  write q value =
      update_write_index (record q { store = update q.store (get_next_to_write_to q) value })
