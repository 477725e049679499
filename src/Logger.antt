-- ===== src/Logger.antt =====
-- common/logging.hpp: the elements of a log message go into a queue, and a thread writes them to the
-- file. A string is the list of its characters, without the 0 at its end; `D` are the floating-point
-- numbers.
pub mod Format
pub mod Flush
use low_latency_learn.Base.{
  ℕ, zero, suc, Bool, Option, none, some, List, [], ◌∷◌, ◌++◌, if◌then◌else◌, ◌==◌, Outcome, ok,
  fatal, failed, out_of_fuel, ◌>>=◌,
}
use low_latency_learn.Base.Int.{ℤ}
use low_latency_learn.LfQueue.{LfQueue, write, get_next_to_read, update_read_index, size}

-- `LogElement`: the tag of `LogType` with its member of the union.
pub data LogElement (D : Type 0) : Type 0 where
  char : ℕ → LogElement D
  integer long_integer long_long_integer : ℤ → LogElement D
  unsigned_integer unsigned_long_integer unsigned_long_long_integer : ℕ → LogElement D
  float double : D → LogElement D

-- An argument of `log`, by the overload of `pushValue` that takes it.
pub data Value (D : Type 0) : Type 0 where
  element : LogElement D → Value D
  string : List ℕ → Value D

-- `'%'`
abbrev pub percent : ℕ
percent = 37

module _ {D : Type 0} where
  -- `pushValue` of an element.
  abbrev pub push_element : LfQueue (LogElement D) → LogElement D → LfQueue (LogElement D)
  push_element q e = write q e

  abbrev pub push_char : LfQueue (LogElement D) → ℕ → LfQueue (LogElement D)
  push_char q c = push_element q (LogElement.char c)

  -- `pushValue` of a string.
  unfoldable pub push_string : LfQueue (LogElement D) → List ℕ → LfQueue (LogElement D)
  push_string q [] = q
  push_string q (c ∷ cs) = push_string (push_char q c) cs

  unfoldable pub push_value : LfQueue (LogElement D) → Value D → LfQueue (LogElement D)
  unfolding push_string
  push_value q (Value.element e) = push_element q e
  push_value q (Value.string cs) = push_string q cs

  -- `log` without arguments.
  unfoldable pub log_rest : LfQueue (LogElement D) → List ℕ → Outcome (LfQueue (LogElement D))
  log_rest q [] = ok q
  log_rest q (c ∷ []) = if c == percent then fatal else ok (push_char q c)
  log_rest q (c ∷ d ∷ s) =
      let past_both = log_rest (push_char q d) s in
      let past_one = log_rest (push_char q c) (d ∷ s) in
      if c == percent then (if d == percent then past_both else fatal) else past_one

  -- `log` with one argument or more: the argument takes the place of the next `%` that stands alone,
  -- and the other arguments go on behind it.
  unfoldable pub log :
      LfQueue (LogElement D) → List ℕ → List (Value D) → Outcome (LfQueue (LogElement D))
  unfolding log_rest push_value
  log q s [] = log_rest q s
  log q [] (v ∷ vs) = fatal
  log q (c ∷ []) (v ∷ vs) = if c == percent then log (push_value q v) [] vs else fatal
  log q (c ∷ d ∷ s) (v ∷ vs) =
      let past_both = log (push_char q d) s (v ∷ vs) in
      let filled = log (push_value q v) (d ∷ s) vs in
      let past_one = log (push_char q c) (d ∷ s) (v ∷ vs) in
      if c == percent then (if d == percent then past_both else filled) else past_one

  -- The loop over the queue in `flushQueue`; `shown` is `<<` on each kind of element, and the file is
  -- the list of its characters.
  module _ (shown : LogElement D → List ℕ) where
    unfoldable pub flush_loop :
        (fuel : ℕ)
        → LfQueue (LogElement D)
        → (file : List ℕ) → Outcome (LfQueue (LogElement D) × List ℕ)
    flush_loop zero q file = failed out_of_fuel
    flush_loop (suc fuel) q file = elim (get_next_to_read q) [
      | none ↦ ok (q, file)
      | some p ↦
          let rest = do q' ← update_read_index q; flush_loop fuel q' (file ++ shown (q.store p))
          in if size q == 0 then ok (q, file) else rest
    ]

    -- One round of `flushQueue`, between two sleeps.
    unfoldable pub flush_round :
        LfQueue (LogElement D) → (file : List ℕ) → Outcome (LfQueue (LogElement D) × List ℕ)
    unfolding flush_loop
    flush_round q file = flush_loop (suc (size q)) q file
