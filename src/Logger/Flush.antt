-- ===== src/Logger/Flush.antt =====
-- common/logging.hpp: what one round of `flushQueue` writes to the file.
use mathlib.Core.List.{append_assoc, append-nil}
use low_latency_learn.Base.{
  ℕ, zero, suc, ◌<◌, ◌≡◌, refl, sym, ap, ◌∙◌, inl, inr, false, some, List, [], ◌∷◌, ◌++◌, arith,
  ◌==◌, length, ok,
}
use low_latency_learn.LfQueue.{LfQueue, size}
use low_latency_learn.LfQueue.Contents.{
  IsValid, contents, get_next_to_read-contents, update_read_index-contents, length-contents,
  HasRoom, write_all, write_all-append,
}
use low_latency_learn.Logger.{LogElement, Value, log, flush_loop, flush_round}
use low_latency_learn.Logger.Format.{Piece, spell, IsReadable, fill, queued, log-fill}

module _ {D : Type 0} (shown : LogElement D → List ℕ) where
  abbrev pub text : List (LogElement D) → List ℕ
  text [] = []
  text (e ∷ es) = shown e ++ text es

  -- The file has got the elements of the queue, and the queue is empty.
  pub record Flushed (q : LfQueue (LogElement D)) (file : List ℕ)
      (r : LfQueue (LogElement D) × List ℕ) : Type 0 where
    pub written : r.1 ≡ file ++ text (contents q)
    pub emptied : contents r.0 ≡ []
    pub valid : IsValid r.0

  flush_loop-Flushed :
      (fuel : ℕ) (q : LfQueue (LogElement D)) (file : List ℕ)
      → IsValid q
      → length (contents q) < fuel
      → (r : LfQueue (LogElement D) × List ℕ) × (flush_loop shown fuel q file ≡ ok r)
        × Flushed q file r
  unfolding flush_loop size
  flush_loop-Flushed zero q file v h = ground (arith, h)
  flush_loop-Flushed (suc fuel) q file v h = elim (get_next_to_read-contents q v) [
    | inl (empty, nothing) ↦ (
      (q, file),
      rw (nothing, flush_loop) refl,
      record {
        written = sym (append-nil file) ∙ ap (λ es. file ++ text es) (sym empty);
        emptied = empty;
        valid = v;
      },
    )
    | inr (rest, front, there) ↦ elim (update_read_index-contents q v) [
      | inl (empty, _) ↦ cc
      | inr (q', read, v', both, _) ↦
          let e = q.store q.next_read_index in
          let len : length (contents q) ≡ suc (length (contents q')) = ap length both in
          let count = length-contents q in
          let some_left : (q.num_elements == 0) ≡ false = ground arith in
          let (r, done, f) =
            flush_loop-Flushed fuel q' (file ++ shown e) v' (omega (arith, len, h)) in
          (
            r,
            rw (there, some_left, read, flush_loop) done,
            record {
              written =
                  f.written
                  ∙ append_assoc file (shown e) (text (contents q'))
                  ∙ ap (λ es. file ++ text es) (sym both);
              emptied = f.emptied;
              valid = f.valid;
            },
          )
    ]
  ]

  -- A round of `flushQueue` ends, with all that the queue held written to the file in its order.
  pub flush_round-Flushed :
      (q : LfQueue (LogElement D)) (file : List ℕ)
      → IsValid q
      → (r : LfQueue (LogElement D) × List ℕ) × (flush_round shown q file ≡ ok r) × Flushed q file r
  unfolding flush_round size
  flush_round-Flushed q file v =
      let count = length-contents q in
      flush_loop-Flushed (suc q.num_elements) q file v (omega arith)

  -- What a call of `log` with the right number of arguments adds to the queue, if there is room for
  -- it, is in the file after the next round, behind what the queue held before.
  pub flush_round-log :
      (q : LfQueue (LogElement D)) (file : List ℕ) (ps : List Piece) (vs : List (Value D))
      (es : List (LogElement D))
      → IsReadable ps
      → fill ps vs ≡ some es
      → HasRoom q (length es)
      → (q' : LfQueue (LogElement D)) × (r : LfQueue (LogElement D) × List ℕ) × (log q (spell ps) vs
          ≡ ok q')
        × (flush_round shown q' file ≡ ok r)
        × (r.1 ≡ file ++ text (contents q ++ es))
        × (contents r.0 ≡ [])
  flush_round-log q file ps vs es readable filled room =
      let (v, all) = write_all-append q es room in
      let (r, done, f) = flush_round-Flushed (write_all q es) file v in
      (
        write_all q es,
        r,
        log-fill q ps vs readable ∙ ap (queued q) filled,
        done,
        f.written ∙ ap (λ l. file ++ text l) all,
        f.emptied,
      )
