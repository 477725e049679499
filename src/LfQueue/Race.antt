-- ===== src/LfQueue/Race.antt =====
-- common/lf_queue.hpp with its writer and its reader interleaved, one atomic access a step. The
-- slots are left out: only the two indices and the count are shared.
use low_latency_learn.Base.{ℕ, ◌+◌, ◌-◌, ◌%◌, ◌≤◌, ◌≡◌, refl, ◌≢◌, Bool, true, false, arith}

-- Where the writer stands in `updateWriteIndex`.
pub data Writer : Type 0 where
  outside published : Writer

-- Where the reader stands: before `getNextToRead`; behind it with a pointer to an element; behind
-- the test of `size()`, if it makes one; in `updateReadIndex` behind the index and before the
-- ASSERT; or out of the process by that ASSERT.
pub data Reader : Type 0 where
  polling found reading advanced exited : Reader

pub record System : Type 0 where
  pub next_write_index : ℕ
  pub next_read_index : ℕ
  pub num_elements : ℕ
  pub writer : Writer
  pub reader : Reader

abbrev pub start : System
start = record {
  next_write_index = 0;
  next_read_index = 0;
  num_elements = 0;
  writer = Writer.outside;
  reader = Reader.polling;
}

-- A queue of `cap` slots. The reading loops of order_server.cpp, market_data_publisher.cpp and
-- snapshot_sythesizer.cpp test `size()` next to the pointer (`tests_size`); those of
-- matching_engine.cpp, trade_engine.cpp and order_gateway.cpp test the pointer alone.
pub data Step (cap : ℕ) (tests_size : Bool) (s : System) : System → Type 0 where
  publish :
      s.writer ≡ Writer.outside
      → Step cap tests_size s (record s {
        next_write_index = (s.next_write_index + 1) % cap;
        writer = Writer.published;
      })
  count :
      s.writer ≡ Writer.published
      → Step cap tests_size s
          (record s { num_elements = s.num_elements + 1; writer = Writer.outside })
  look :
      s.reader ≡ Reader.polling
      → s.next_read_index ≢ s.next_write_index
      → Step cap tests_size s (record s { reader = Reader.found })
  enter :
      s.reader ≡ Reader.found
      → (tests_size ≡ true → s.num_elements ≢ 0)
      → Step cap tests_size s (record s { reader = Reader.reading })
  give_up :
      s.reader ≡ Reader.found
      → tests_size ≡ true
      → s.num_elements ≡ 0
      → Step cap tests_size s (record s { reader = Reader.polling })
  advance :
      s.reader ≡ Reader.reading
      → Step cap tests_size s
          (record s { next_read_index = (s.next_read_index + 1) % cap; reader = Reader.advanced })
  discount :
      s.reader ≡ Reader.advanced
      → s.num_elements ≢ 0
      → Step cap tests_size s
          (record s { num_elements = s.num_elements - 1; reader = Reader.polling })
  exit :
      s.reader ≡ Reader.advanced
      → s.num_elements ≡ 0
      → Step cap tests_size s (record s { reader = Reader.exited })

pub data Reach (cap : ℕ) (tests_size : Bool) : System → Type 0 where
  here : Reach cap tests_size start
  next : {s t : System} → Reach cap tests_size s → Step cap tests_size s t → Reach cap tests_size t

-- Past the test the count is not 0 until the reader itself lowers it.
record Inv (s : System) : Type 0 where
  reading_counted : s.reader ≡ Reader.reading → s.num_elements ≢ 0
  advanced_counted : s.reader ≡ Reader.advanced → s.num_elements ≢ 0
  alive : s.reader ≢ Reader.exited

Step-Inv : {cap : ℕ} {s t : System} → Step cap true s t → Inv s → Inv t
Step-Inv (publish a) v = record {
  reading_counted = v.reading_counted;
  advanced_counted = v.advanced_counted;
  alive = v.alive;
}
Step-Inv (count a) v = record {
  reading_counted = λ e. omega arith;
  advanced_counted = λ e. omega arith;
  alive = v.alive;
}
Step-Inv (look a b) v = ground arith
Step-Inv (enter a b) v = ground (arith, b refl)
Step-Inv (give_up a b c) v = ground arith
Step-Inv (advance a) v = ground (arith, v.reading_counted a)
Step-Inv (discount a b) v = ground arith
Step-Inv (exit a b) v = absurd (v.advanced_counted a b)

Reach-Inv : {cap : ℕ} {s : System} → Reach cap true s → Inv s
Reach-Inv here = ground arith
Reach-Inv (next r st) = Step-Inv st (Reach-Inv r)

-- However the two threads interleave, a reader that also tests `size()` before it reads never
-- meets a count of 0 in the ASSERT of `updateReadIndex`: the process is not ended there.
pub tests_size-safe : {cap : ℕ} {s : System} → Reach cap true s → s.reader ≢ Reader.exited
tests_size-safe r = (Reach-Inv r).alive

-- A reader that goes by the pointer alone can end the process, in every queue of two slots or
-- more: it may run between the writer's two updates, when the index has moved and the count is
-- still 0.
pub pointer_only-exits :
    (cap : ℕ) → 2 ≤ cap → (s : System) × Reach cap false s × (s.reader ≡ Reader.exited)
pointer_only-exits cap h = (
  _,
  next
      (next (next (next (next here (publish refl)) (look refl moved)) (enter refl (λ e. cc)))
        (advance refl))
      (exit refl refl),
  refl,
)
  where
    moved : 0 ≢ (0 + 1) % cap
    moved = grind arith
