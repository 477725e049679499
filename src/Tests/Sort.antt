-- ===== src/Tests/Sort.antt =====
-- A sort by receive time that does what fifo_sequencer.hpp relies on of `std::sort`.
use mathlib.Core.List.{Perm}
use mathlib.Core.List.Perm
use low_latency_learn.Base.{inl, inr, List, [], ◌∷◌, arith, leb, if◌then◌else◌, Bool-cases}
use low_latency_learn.Sequencer.{RecvTimeClientRequest}
use low_latency_learn.Sequencer.Publish.{InOrder, StdSort}

insert : RecvTimeClientRequest → List RecvTimeClientRequest → List RecvTimeClientRequest
insert r [] = r ∷ []
insert r (s ∷ l) = if leb r.recv_time s.recv_time then r ∷ s ∷ l else s ∷ insert r l

unfoldable pub insertion_sort : List RecvTimeClientRequest → List RecvTimeClientRequest
unfolding insert
insertion_sort [] = []
insertion_sort (r ∷ l) = insert r (insertion_sort l)

insert-perm :
    (r : RecvTimeClientRequest) (l : List RecvTimeClientRequest) → Perm (insert r l) (r ∷ l)
unfolding insert
insert-perm r [] = Perm.refl (r ∷ [])
insert-perm r (s ∷ l) = elim (Bool-cases (leb r.recv_time s.recv_time)) [
  | inl le ↦ rw le (Perm.refl (r ∷ s ∷ l))
  | inr gt ↦ rw gt (Perm.trans (Perm.cons s (insert-perm r l)) (Perm.swap r s l))
]

insertion_sort-perm : (l : List RecvTimeClientRequest) → Perm (insertion_sort l) l
unfolding insertion_sort
insertion_sort-perm [] = Perm.refl []
insertion_sort-perm (r ∷ l) =
    Perm.trans (insert-perm r (insertion_sort l)) (Perm.cons r (insertion_sort-perm l))

insert-InOrder :
    (r : RecvTimeClientRequest) {l : List RecvTimeClientRequest} → InOrder l → InOrder (insert r l)
unfolding insert
insert-InOrder r InOrder.nil = InOrder.one r
insert-InOrder r (InOrder.one s) = elim (Bool-cases (leb r.recv_time s.recv_time)) [
  | inl le ↦ rw le (InOrder.more (ground arith) (InOrder.one s))
  | inr gt ↦ rw gt (InOrder.more (ground arith) (InOrder.one r))
]
insert-InOrder r (InOrder.more {r = s} {s = t} {l = l} h o) =
    elim (Bool-cases (leb r.recv_time s.recv_time)) [
      | inl le ↦ rw le (InOrder.more (ground arith) (InOrder.more h o))
      | inr gt ↦ elim (Bool-cases (leb r.recv_time t.recv_time)) [
        | inl le ↦ rw (gt, le) (InOrder.more (ground arith) (InOrder.more (ground arith) o))
        | inr gt' ↦ rw (gt, gt') (InOrder.more h (rw gt' at (insert-InOrder r o)))
      ]
    ]

insertion_sort-InOrder : (l : List RecvTimeClientRequest) → InOrder (insertion_sort l)
unfolding insertion_sort
insertion_sort-InOrder [] = InOrder.nil
insertion_sort-InOrder (r ∷ l) = insert-InOrder r (insertion_sort-InOrder l)

pub insertion_sort-StdSort : StdSort insertion_sort
insertion_sort-StdSort = record { permutes = insertion_sort-perm; orders = insertion_sort-InOrder }
